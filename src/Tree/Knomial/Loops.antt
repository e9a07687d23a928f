-- ===== src/Tree/Knomial/Loops.antt =====
-- The two nested loops of knomial_get_children (src/cart/crt_tree_knomial.c).
use cart.Prelude.{
  ℕ, zero, suc, ◌+◌, ◌*◌, ◌%◌, ◌^◌, ◌≤◌, ◌<◌, ◌≡◌, ◌≢◌, refl, ◌∙◌, List, [], ◌∷◌, ◌++◌, length,
  get_or, ◌==◌, arith, true, false, ◌&&◌, leb, ltb, All, count, one_if, Bool-cases, inl, inr,
}
use native.Mathlib.Decide.{ℕ_discrete}
use cart.Tree.{knomial_inner, u32}

pub cancel : (a b m : ℕ) → 0 < m → a * m ≡ b * m → a ≡ b
cancel a b m h e = grind arith

lt_of_mul : (a b m : ℕ) → a * m < b * m → a < b
lt_of_mul a b m h = grind arith

true≢false : true ≢ false
true≢false e = cc

pub All-knomial_inner :
    (size inc n i self : ℕ) → All (λ c. c < size) (knomial_inner n i inc self size).0
unfolding knomial_inner
All-knomial_inner size inc zero i self = tt
All-knomial_inner size inc (suc n) i self =
    elim (Bool-cases (leb size (u32 (self + u32 (i * inc))))) [
      | inl stop ↦ rw stop tt
      | inr go ↦ rw go (ground arith, All-knomial_inner size inc n (suc i) self)
    ]

module _ (s inc size : ℕ) (pos : 0 < inc) (room : size + inc < 2 ^ 32) where
  -- Each child is in range until the loop returns, so nothing wraps.
  child_eq : (i : ℕ) → (s + i) * inc < size → u32 (s * inc + u32 (suc i * inc)) ≡ (s + suc i) * inc
  child_eq i h =
      let split : (s + suc i) * inc ≡ (s + i) * inc + inc = grind arith in
      let parts : (s + suc i) * inc ≡ s * inc + suc i * inc = grind arith in omega arith

  pub count-knomial_inner :
      (n i k : ℕ)
      → (s + i) * inc < size
      → k * inc < size
      → count (k * inc) (knomial_inner n (suc i) inc (s * inc) size).0
        ≡ one_if (ltb (s + i) k && leb k (s + i + n))
  unfolding knomial_inner
  count-knomial_inner zero i k h c = ground arith
  count-knomial_inner (suc n) i k h c =
      let child = child_eq i h in
      elim (Bool-cases (leb size ((s + suc i) * inc))) [
        | inl stop ↦
            let far : k < s + suc i = lt_of_mul k (s + suc i) inc (ground arith) in
            rw (child, stop) (ground arith)
        | inr go ↦
            let ih = count-knomial_inner n (suc i) k (ground arith) c in
            elim (ℕ_discrete k (s + suc i)) [
              | yes e ↦
                  let e' : (k * inc == (s + suc i) * inc) ≡ true = rw e (ground arith) in
                  rw (child, go) (rw (e', ih) (ground arith))
              | no ne ↦
                  let ne' : (k * inc == (s + suc i) * inc) ≡ false =
                    ground (arith, cancel k (s + suc i) inc pos) in
                  rw (child, go) (rw (ne', ih) (ground arith))
            ]
      ]

  pub knomial_inner_stop :
      (n i : ℕ)
      → (s + i) * inc < size
      → (knomial_inner n (suc i) inc (s * inc) size).1 ≡ true
      → size ≤ (s + i + n) * inc
  unfolding knomial_inner
  knomial_inner_stop zero i h e = cc
  knomial_inner_stop (suc n) i h e =
      let child = child_eq i h in
      elim (Bool-cases (leb size ((s + suc i) * inc))) [
        | inl stop ↦
            let up : (s + suc i) * inc ≤ (s + i + suc n) * inc = grind arith in
            let top : size ≤ (s + suc i) * inc = ground arith in omega arith
        | inr go ↦
            let same : s + suc i + n ≡ s + i + suc n = omega arith in
            let below : (s + suc i) * inc < size = ground arith in
            rw same at (knomial_inner_stop n (suc i) below (rw (child, go) at e))
      ]

  pub knomial_inner_go :
      (n i : ℕ)
      → (s + i) * inc < size
      → (knomial_inner n (suc i) inc (s * inc) size).1 ≡ false
      → (s + i + n) * inc < size
  unfolding knomial_inner
  knomial_inner_go zero i h e = grind arith
  knomial_inner_go (suc n) i h e =
      let child = child_eq i h in
      elim (Bool-cases (leb size ((s + suc i) * inc))) [
        | inl stop ↦ absurd (true≢false (rw (child, stop) at e))
        | inr go ↦
            let same : s + suc i + n ≡ s + i + suc n = omega arith in
            let below : (s + suc i) * inc < size = ground arith in
            rw same at (knomial_inner_go n (suc i) below (rw (child, go) at e))
      ]

-- The multiples of `m`.
abbrev pub IsMultiple : ℕ → ℕ → Type 0
IsMultiple m e = (q : ℕ) × (e ≡ q * m)

module _ (s inc size : ℕ) (pos : 0 < inc) (room : size + inc < 2 ^ 32) where
  pub knomial_inner_multiples :
      (n i : ℕ)
      → (s + i) * inc < size
      → All (IsMultiple inc) (knomial_inner n (suc i) inc (s * inc) size).0
  unfolding knomial_inner
  knomial_inner_multiples zero i h = tt
  knomial_inner_multiples (suc n) i h =
      let child = child_eq s inc size pos room i h in
      elim (Bool-cases (leb size ((s + suc i) * inc))) [
        | inl stop ↦ rw (child, stop) tt
        | inr go ↦
            rw (child, go) ((s + suc i, refl), knomial_inner_multiples n (suc i) (ground arith))
      ]

pub All-append {ℓ} : (P : ℕ → Type ℓ) (xs ys : List ℕ) → All P xs → All P ys → All P (xs ++ ys)
All-append P [] ys a b = b
All-append P (x ∷ xs) ys a b = (a.0, All-append P xs ys a.1 b)

pub multiples_coarser :
    (m r : ℕ) (xs : List ℕ) → All (IsMultiple (m * r)) xs → All (IsMultiple m) xs
multiples_coarser m r [] a = tt
multiples_coarser m r (x ∷ xs) ((q, e), a) = ((q * r, e ∙ grind arith), multiples_coarser m r xs a)

mul_mod : (q r : ℕ) → 0 < r → q * r % r ≡ 0
mul_mod q r p = grind arith

-- A number that is no multiple stands in no list of multiples.
pub count_multiples :
    (k m r : ℕ) (xs : List ℕ)
    → 0 < m
    → 0 < r
    → k % r ≢ 0
    → All (IsMultiple (m * r)) xs
    → count (k * m) xs ≡ 0
count_multiples k m r [] h p d a = refl
count_multiples k m r (x ∷ xs) h p d ((q, e), a) =
    let apart : k * m ≢ x = λ e'. d (
      let same : k ≡ q * r = cancel k (q * r) m h (e' ∙ e ∙ grind arith) in
      rw same (mul_mod q r p)) in
    ground (arith, count_multiples k m r xs h p d a)

pub get_or-past : (xs : List ℕ) (i d : ℕ) → length xs ≤ i → get_or xs i d ≡ d
get_or-past [] i d h = refl
get_or-past (x ∷ xs) zero d h = absurd (omega arith)
get_or-past (x ∷ xs) (suc i) d h = get_or-past xs i d (omega arith)
