-- ===== src/RankList/Sort.antt =====
-- qsort with rank_compare (src/gurt/misc.c).
use cart.Prelude.{
  ℕ, ◌+◌, ◌≤◌, ◌≡◌, refl, List, [], ◌∷◌, length, count, All, leb, arith, Bool-cases, inl, inr,
}
use cart.RankList.{insert, qsort}

-- In ascending order.
abbrev pub IsSorted : List ℕ → Type 0
IsSorted [] = Unit
IsSorted (x ∷ xs) = All (λ y. x ≤ y) xs × IsSorted xs

insert-All : (x b : ℕ) (xs : List ℕ) → b ≤ x → All (λ y. b ≤ y) xs → All (λ y. b ≤ y) (insert x xs)
unfolding insert
insert-All x b [] h k = (h, tt)
insert-All x b (y ∷ ys) h k = elim (Bool-cases (leb x y)) [
  | inl e ↦ rw e (h, k)
  | inr e ↦ rw e (k.0, insert-All x b ys h k.1)
]

pub All-weaken : (a b : ℕ) (xs : List ℕ) → a ≤ b → All (λ y. b ≤ y) xs → All (λ y. a ≤ y) xs
All-weaken a b [] h k = tt
All-weaken a b (x ∷ xs) h k = (omega arith, All-weaken a b xs h k.1)

insert-IsSorted : (x : ℕ) (xs : List ℕ) → IsSorted xs → IsSorted (insert x xs)
unfolding insert
insert-IsSorted x [] s = (tt, tt)
insert-IsSorted x (y ∷ ys) s = elim (Bool-cases (leb x y)) [
  | inl e ↦ let h : x ≤ y = ground arith in rw e ((h, All-weaken x y ys h s.0), s)
  | inr e ↦ let h : y ≤ x = ground arith in rw e (insert-All x y ys h s.0, insert-IsSorted x ys s.1)
]

count-insert : (q x : ℕ) (xs : List ℕ) → count q (insert x xs) ≡ count q (x ∷ xs)
unfolding insert
count-insert q x [] = refl
count-insert q x (y ∷ ys) = ground (arith, count-insert q x ys)

length-insert : (x : ℕ) (xs : List ℕ) → length (insert x xs) ≡ length xs + 1
unfolding insert
length-insert x [] = omega arith
length-insert x (y ∷ ys) = ground (arith, length-insert x ys)

pub qsort-IsSorted : (xs : List ℕ) → IsSorted (qsort xs)
unfolding qsort
qsort-IsSorted [] = tt
qsort-IsSorted (x ∷ xs) = insert-IsSorted x (qsort xs) (qsort-IsSorted xs)

pub count-qsort : (q : ℕ) (xs : List ℕ) → count q (qsort xs) ≡ count q xs
unfolding qsort
count-qsort q [] = refl
count-qsort q (x ∷ xs) = omega (arith, count-insert q x (qsort xs), count-qsort q xs)

pub length-qsort : (xs : List ℕ) → length (qsort xs) ≡ length xs
unfolding qsort
length-qsort [] = refl
length-qsort (x ∷ xs) = omega (arith, length-insert x (qsort xs), length-qsort xs)
