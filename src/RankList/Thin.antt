-- ===== src/RankList/Thin.antt =====
-- The ranks that the outer loop of d_rank_list_dup_sort_uniq (src/gurt/misc.c) leaves.
use cart.Prelude.{
  ℕ, length, ◌+◌, ◌/◌, ◌≤◌, ◌<◌, ◌≡◌, ◌≢◌, refl, List, [], ◌∷◌, count, All, ◌==◌, if◌then◌else◌,
  arith,
}
use native.Mathlib.Decide.{ℕ_discrete}
use cart.RankList.Sort.{IsSorted}

-- The loop compares each rank with the one before it; after a removal it goes on behind the rank
-- that moved into the place, without comparing that one.
unfoldable pub thin : List ℕ → List ℕ
thin [] = []
thin (x ∷ []) = x ∷ []
thin (x ∷ y ∷ r) = let a = x ∷ thin r in let b = x ∷ thin (y ∷ r) in if x == y then a else b

pub thin_eq : (x y : ℕ) (r : List ℕ) → x ≡ y → thin (x ∷ y ∷ r) ≡ x ∷ thin r
unfolding thin
thin_eq x y r e = ground arith

pub thin_ne : (x y : ℕ) (r : List ℕ) → x ≢ y → thin (x ∷ y ∷ r) ≡ x ∷ thin (y ∷ r)
unfolding thin
thin_ne x y r e = ground arith

-- Twice the rank at most: half of the occurrences, rounded up.
count_below : (x y : ℕ) (r : List ℕ) → x < y → All (λ z. y ≤ z) r → count x r ≡ 0
count_below x y [] h a = refl
count_below x y (z ∷ r) h a = ground (arith, count_below x y r)

thin_step :
    (q x c d : ℕ)
    → d ≡ (c + 1) / 2
    → (q ≡ x → c ≡ 0)
    → (if q == x then 1 else 0) + d ≡ ((if q == x then 1 else 0) + c + 1) / 2
thin_step q x c d e h = elim (ℕ_discrete q x) [
  | yes same ↦ let z = h same in ground arith
  | no differ ↦ ground arith
]

pub count-thin : (q : ℕ) (es : List ℕ) → IsSorted es → count q (thin es) ≡ (count q es + 1) / 2
unfolding thin
count-thin q [] s = omega arith
count-thin q (x ∷ []) s = ground arith
count-thin q (x ∷ y ∷ r) s = elim (ℕ_discrete x y) [
  | yes same ↦ rw (thin_eq x y r same) (ground (arith, count-thin q r s.1.1))
  | no differ ↦ rw (thin_ne x y r differ) (
      thin_step q x (count q (y ∷ r)) (count q (thin (y ∷ r))) (count-thin q (y ∷ r) s.1)
        (λ e. count_below q y (y ∷ r) (omega (arith, s.0.0)) ((omega arith), s.1.0)))
]

All-thin : (b : ℕ) (es : List ℕ) → All (λ y. b ≤ y) es → All (λ y. b ≤ y) (thin es)
unfolding thin
All-thin b [] a = tt
All-thin b (x ∷ []) a = a
All-thin b (x ∷ y ∷ r) a = elim (ℕ_discrete x y) [
  | yes same ↦ rw (thin_eq x y r same) (a.0, All-thin b r a.1.1)
  | no differ ↦ rw (thin_ne x y r differ) (a.0, All-thin b (y ∷ r) a.1)
]

pub thin-IsSorted : (es : List ℕ) → IsSorted es → IsSorted (thin es)
unfolding thin
thin-IsSorted [] s = tt
thin-IsSorted (x ∷ []) s = s
thin-IsSorted (x ∷ y ∷ r) s = elim (ℕ_discrete x y) [
  | yes same ↦ rw (thin_eq x y r same) (All-thin x r s.0.1, thin-IsSorted r s.1.1)
  | no differ ↦ rw (thin_ne x y r differ) (All-thin x (y ∷ r) s.0, thin-IsSorted (y ∷ r) s.1)
]

pub length-thin-le : (es : List ℕ) → length (thin es) ≤ length es
unfolding thin
length-thin-le [] = omega arith
length-thin-le (x ∷ []) = omega arith
length-thin-le (x ∷ y ∷ r) = elim (ℕ_discrete x y) [
  | yes same ↦ rw (thin_eq x y r same) (omega (arith, length-thin-le r))
  | no differ ↦ rw (thin_ne x y r differ) (omega (arith, length-thin-le (y ∷ r)))
]
