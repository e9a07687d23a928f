-- ===== src/Hashtable/Chains.antt =====
-- What insertion and deletion of src/gurt/hash.c do to the chains: which records are linked after
-- them.
use cart.Prelude.{
  ℕ, zero, suc, ◌%◌, ◌^◌, ◌<◌, ◌≡◌, true, not, ◌&&◌, ◌||◌, some, List, [], ◌∷◌, keep_if, count, ltb,
  ◌==◌, if◌then◌else◌, arith, Bool-cases, inl, inr, ap,
}
use native.Mathlib.Decide.{ℕ_discrete}
use native.Mathlib.Omega.{mod_fact}
use cart.Hashtable.{
  key_hash, HashOps, HashTable, linked_below, linked, ch_key_hash, ch_rec_insert, ch_rec_find,
  find_chain, ch_rec_delete,
}

pub count-keep :
    (r q : ℕ) (xs : List ℕ)
    → count q (keep_if (λ x. not (x == r)) xs) ≡ (if q == r then 0 else count q xs)
count-keep r q [] = ground arith
count-keep r q (x ∷ xs) = ground (arith, count-keep r q xs)

linked-insert :
    (b : ℕ → List ℕ) (idx r q nr : ℕ)
    → linked_below nr (λ i. if i == idx then r ∷ b i else b i) q
      ≡ ((q == r && ltb idx nr) || linked_below nr b q)
linked-insert b idx r q zero = ground arith
linked-insert b idx r q (suc nr) = ground (arith, linked-insert b idx r q nr)

linked-delete :
    (b : ℕ → List ℕ) (r q nr : ℕ)
    → linked_below nr (λ i. keep_if (λ x. not (x == r)) (b i)) q
      ≡ (not (q == r) && linked_below nr b q)
linked-delete b r q zero = ground arith
linked-delete b r q (suc nr) = ground (arith, linked-delete b r q nr, count-keep r q (b nr))

pub counted-linked :
    (b : ℕ → List ℕ) (nr i r : ℕ) → i < nr → 0 < count r (b i) → linked_below nr b r ≡ true
counted-linked b zero i r h p = absurd (omega arith)
counted-linked b (suc nr) i r h p = elim (ℕ_discrete i nr) [
  | yes e ↦ ground (arith, ap b e)
  | no ne ↦ ground (arith, counted-linked b nr i r (omega arith) p)
]

pow_pos : (n : ℕ) → 0 < 2 ^ n
pow_pos zero = omega arith
pow_pos (suc n) = omega (arith, pow_pos n)

mod-lt : (a b : ℕ) → 0 < b → a % b < b
mod-lt a zero h = absurd (omega arith)
mod-lt a (suc b) h = mod_fact a b

module _ {U : Type 0} (ops : HashOps U) (t : HashTable U) where
  -- A key leads to a bucket.
  pub key_hash_bounds : (k : List ℕ) → ch_key_hash ops t k < 2 ^ t.ht_bits
  unfolding ch_key_hash
  key_hash_bounds k = mod-lt (key_hash ops k) (2 ^ t.ht_bits) (pow_pos t.ht_bits)

  pub insert-linked :
      (idx r q : ℕ)
      → idx < 2 ^ t.ht_bits
      → linked (ch_rec_insert ops t idx r) q ≡ (q == r || linked t q)
  unfolding ch_rec_insert
  insert-linked idx r q h = ground (arith, linked-insert t.ht_buckets idx r q (2 ^ t.ht_bits))

  pub delete-linked : (r q : ℕ) → linked (ch_rec_delete ops t r) q ≡ (not (q == r) && linked t q)
  unfolding ch_rec_delete
  delete-linked r q = linked-delete t.ht_buckets r q (2 ^ t.ht_bits)

  pub find-counted :
      (k xs : List ℕ) (r : ℕ) → find_chain ops t.records xs k ≡ some r → 0 < count r xs
  find-counted k [] r h = ground arith
  find-counted k (x ∷ xs) r h = elim (Bool-cases (ops.hop_key_cmp t.records x k)) [
    | inl c ↦ ground arith
    | inr c ↦ ground (arith, find-counted k xs r)
  ]

  -- A record that was found is linked.
  pub find-linked :
      (k : List ℕ) (r : ℕ) → ch_rec_find ops t (ch_key_hash ops t k) k ≡ some r → linked t r ≡ true
  unfolding ch_rec_find
  find-linked k r h =
      counted-linked t.ht_buckets (2 ^ t.ht_bits) (ch_key_hash ops t k) r (key_hash_bounds k)
        (find-counted k (t.ht_buckets (ch_key_hash ops t k)) r h)
