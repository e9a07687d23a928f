-- ===== src/Hashtable/Destroyed.antt =====
-- What d_hash_table_destroy_inplace of src/gurt/hash.c leaves of the records of a table.
use std.Path.{subst}
use native.Mathlib.Decide.{ℕ_discrete}
use cart.Prelude.{
  ℕ, zero, suc, ◌+◌, ◌^◌, ◌<◌, ◌≡◌, refl, sym, ap, ◌∙◌, Bool, true, false, List, [], length, count,
  if◌then◌else◌, arith, inl, inr, ◌⊎◌, der_busy, ==_refl, ◌||◌, ◌&&◌, ◌==◌, ltb,
}
use cart.Hashtable.{HashOps, HashTable, linked, linked_below}
use cart.Hashtable.Chains.{counted-linked}
use cart.Hashtable.Counts.{CountLaws}
use cart.Hashtable.Lives.{IsLive}
use cart.Hashtable.Drained.{
  drain, drain_from, empty_below, destroy_inplace, drain-OneLess, chain-cases,
}

-- The answers: a table that is destroyed by force, one that is not empty, and one that is.
pub data Destroyed {U : Type 0} {ops : HashOps U} (laws : CountLaws ops) (t : HashTable U)
    (held : ℕ → ℕ) : Bool → HashTable U × ℕ → Type 0 where
  emptied :
      {d : HashTable U}
      → IsLive laws d held
      → ((r : ℕ) → linked d r ≡ false)
      → Destroyed laws t held true (d, 0)
  busy : (r : ℕ) → linked t r ≡ true → Destroyed laws t held false (t, der_busy)
  was_empty : ((r : ℕ) → linked t r ≡ false) → Destroyed laws t held false (t, 0)

empty-unlinked :
    (b : ℕ → List ℕ) (nr r : ℕ) → ((j : ℕ) → j < nr → b j ≡ []) → linked_below nr b r ≡ false
empty-unlinked b zero r h = refl
empty-unlinked b (suc nr) r h =
    ap (λ xs. ltb 0 (count r xs) || linked_below nr b r) (h nr (omega arith))
    ∙ empty-unlinked b nr r (λ j lt. h j (omega arith))

-- The test for an empty table finds a record, or there is none.
empty_below-cases :
    (b : ℕ → List ℕ) (nr : ℕ)
    → ((empty_below nr b ≡ true) × ((j : ℕ) → j < nr → b j ≡ []))
      ⊎ ((empty_below nr b ≡ false) × (j : ℕ) × (r : ℕ) × (j < nr) × (0 < count r (b j)))
empty_below-cases b zero = inl (refl, λ j lt. absurd (omega arith))
empty_below-cases b (suc nr) = elim (chain-cases (b nr)) [
  | inl e ↦ elim (empty_below-cases b nr) [
    | inl (t, all) ↦ inl (
      ap (λ xs. length xs == 0 && empty_below nr b) e ∙ t,
      λ j lt. elim (ℕ_discrete j nr) [ yes s ↦ ap b s ∙ e | no ne ↦ all j (omega arith) ],
    )
    | inr (f, j, r, lt, p) ↦
        inr (ap (λ xs. length xs == 0 && empty_below nr b) e ∙ f, j, r, omega arith, p)
  ]
  | inr (r, rs, e) ↦
      inr
        (ground (arith, ap length e), nr, r, omega arith, ground (arith, ap (count r) e, ==_refl r))
]

module _ {U : Type 0} (ops : HashOps U) (laws : CountLaws ops) where
  drain_from-emptied :
      (left i : ℕ) (t : HashTable U) (held : ℕ → ℕ)
      → IsLive laws t held
      → i + left ≡ 2 ^ t.ht_bits
      → ((j : ℕ) → j < i → t.ht_buckets j ≡ [])
      → let d = drain_from ops left i t in IsLive laws d held × ((r : ℕ) → linked d r ≡ false)
  drain_from-emptied zero i t held live end gone =
      (live, λ r. empty-unlinked t.ht_buckets (2 ^ t.ht_bits) r (λ j lt. gone j (omega arith)))
  drain_from-emptied (suc left) i t held live end gone =
      let d = drain ops (length (t.ht_buckets i)) t i in
      let less =
        drain-OneLess ops laws (length (t.ht_buckets i)) t held i live (omega arith)
          (omega arith) in
      drain_from-emptied left (i + 1) d held less.live (ground (arith, ap (λ w. 2 ^ w) less.bits))
        (λ j lt. elim (ℕ_discrete j i) [
          | yes e ↦ ap d.ht_buckets e ∙ less.gone
          | no ne ↦ less.still j (gone j (omega arith))
        ])

  -- d_hash_table_destroy_inplace of a table whose records are counted right: by force it leaves no
  -- record in the table, frees none that a caller holds, and the counts are those of the callers.
  -- Without force it changes no record; it is refused if one is in the table, and succeeds if none
  -- is.
  pub destroy_inplace-Destroyed :
      (t : HashTable U) (held : ℕ → ℕ) (force : Bool)
      → IsLive laws t held
      → Destroyed laws t held force (destroy_inplace ops t force)
  unfolding destroy_inplace
  destroy_inplace-Destroyed t held true live =
      let (after, gone) =
        drain_from-emptied (2 ^ t.ht_bits) 0 t held live (omega arith)
          (λ j lt. absurd (omega arith)) in
      emptied after gone
  destroy_inplace-Destroyed t held false live =
      let nr = 2 ^ t.ht_bits in
      let goal = λ (b : Bool). Destroyed laws t held false (t, if b then 0 else der_busy) in
      elim (empty_below-cases t.ht_buckets nr) [
        | inl (e, all) ↦ subst goal (sym e) (was_empty (λ r. empty-unlinked t.ht_buckets nr r all))
        | inr (e, j, r, lt, p) ↦
            subst goal (sym e) (busy r (counted-linked t.ht_buckets nr j r lt p))
      ]
