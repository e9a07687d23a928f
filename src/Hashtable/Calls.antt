-- ===== src/Hashtable/Calls.antt =====
-- Sequences of calls of src/gurt/hash.c, and the references of the records.
use std.Path.{subst}
use cart.Prelude.{ℕ, ◌<◌, ◌≡◌, sym, ◌∙◌, Bool, false, some, List}
use cart.Hashtable.Drops.{decref-IsLive}
use cart.Hashtable.{
  rec_addref, HashOps, HashTable, linked, rec_find, rec_insert, rec_find_insert, rec_delete,
  rec_delete_at, rec_decref,
}
use cart.Hashtable.Counts.{CountLaws}
use cart.Hashtable.Lives.{IsLive, bump, drop_ref, held-live, addref-IsLive}
use cart.Hashtable.Holds.{
  held_found, held_other, some_injective, find-IsLive, rec_insert-IsLive, find_insert-IsLive,
  rec_delete-IsLive, delete_at-IsLive,
}

-- Calls, from a table and the references that the callers hold to those after them. Who puts a
-- record in takes care that it is not freed and in no chain, who passes on or gives back a
-- reference that he has one.
pub data Calls {U : Type 0} {ops : HashOps U} (laws : CountLaws ops) (t : HashTable U)
    (held : ℕ → ℕ) : HashTable U → (ℕ → ℕ) → Type 0 where
  no_calls : Calls laws t held t held
  find :
      {d : HashTable U} {h : ℕ → ℕ} (k : List ℕ)
      → Calls laws t held d h
      → Calls laws t held (rec_find ops d k).0 (held_found h (rec_find ops d k).1)
  insert :
      {d : HashTable U} {h : ℕ → ℕ} (k : List ℕ) (r : ℕ) (exclusive : Bool)
      → laws.freed d.records r ≡ false
      → linked d r ≡ false
      → Calls laws t held d h
      → Calls laws t held (rec_insert ops d k r exclusive).0 h
  find_insert :
      {d : HashTable U} {h : ℕ → ℕ} (k : List ℕ) (r : ℕ)
      → laws.freed d.records r ≡ false
      → linked d r ≡ false
      → Calls laws t held d h
      → Calls laws t held
          (rec_find_insert ops d k r).0
          (held_other h r (rec_find_insert ops d k r).1)
  delete :
      {d : HashTable U} {h : ℕ → ℕ} (k : List ℕ)
      → Calls laws t held d h
      → Calls laws t held (rec_delete ops d k).0 h
  delete_at :
      {d : HashTable U} {h : ℕ → ℕ} (r : ℕ)
      → Calls laws t held d h
      → Calls laws t held (rec_delete_at ops d r).0 h
  add_ref :
      {d : HashTable U} {h : ℕ → ℕ} (r : ℕ)
      → 0 < h r
      → Calls laws t held d h
      → Calls laws t held (rec_addref ops d r) (bump h r)
  drop :
      {d e : HashTable U} {h : ℕ → ℕ} (r : ℕ)
      → 0 < h r
      → rec_decref ops d r ≡ some e
      → Calls laws t held d h
      → Calls laws t held e (drop_ref h r)

module _ {U : Type 0} (ops : HashOps U) (laws : CountLaws ops) where
  -- With callbacks that count references, from a table where this is true: over any sequence of
  -- calls of find, insert, find_insert, delete, delete_at, addref and decref, in which only those
  -- who hold a reference pass it on or give it back and only a record that is not freed and in no
  -- chain is put in, a record that a caller holds or that is in the table is never freed, and the
  -- count of a record that is not freed is that of the references held, with one more for one in a
  -- table that is not ephemeral.
  pub calls-IsLive :
      (t : HashTable U) (held : ℕ → ℕ) (d : HashTable U) (h : ℕ → ℕ)
      → IsLive laws t held
      → Calls laws t held d h
      → IsLive laws d h
  unfolding rec_addref
  calls-IsLive t held d h live no_calls = live
  calls-IsLive t held d h live (find {d = c} {h = g} k calls) =
      find-IsLive ops laws c g k (calls-IsLive t held c g live calls)
  calls-IsLive t held d h live (insert {d = c} k r exclusive fresh un calls) =
      rec_insert-IsLive ops laws c h k r exclusive (calls-IsLive t held c h live calls) fresh un
  calls-IsLive t held d h live (find_insert {d = c} {h = g} k r fresh un calls) =
      find_insert-IsLive ops laws c g k r (calls-IsLive t held c g live calls) fresh un
  calls-IsLive t held d h live (delete {d = c} k calls) =
      rec_delete-IsLive ops laws c h k (calls-IsLive t held c h live calls)
  calls-IsLive t held d h live (delete_at {d = c} r calls) =
      delete_at-IsLive ops laws c h r (calls-IsLive t held c h live calls)
  calls-IsLive t held d h live (add_ref {d = c} {h = g} r p calls) =
      let before = calls-IsLive t held c g live calls in
      addref-IsLive ops laws c g r before (held-live ops laws c g r before p)
  calls-IsLive t held d h live (drop {d = c} {h = g} r p e calls) =
      let (b, eq, after) = decref-IsLive ops laws c g r (calls-IsLive t held c g live calls) p in
      subst (λ x. IsLive laws x (drop_ref g r)) (some_injective (sym eq ∙ e)) after
