-- ===== src/Hashtable/Counts.antt =====
-- What src/gurt/hash.c asks of the callbacks that count the references of a record, and what its
-- steps do to the counts. The comments of struct d_hash_table_ops in src/include/gurt/hash.h say
-- what is asked; rlink_op_addref and rlink_op_decref of hash.c are such callbacks.
use cart.Prelude.{ℕ, ◌+◌, ◌-◌, ◌<◌, ◌≡◌, ◌≢◌, Bool, true, some, ◌==◌, if◌then◌else◌}
use cart.Hashtable.{HashOps, HashTable, ch_rec_addref, ch_rec_decref, ch_rec_free}

-- The callbacks are there, and count: a record has `refs` references and may be freed already.
pub record CountLaws {U : Type 0} (ops : HashOps U) : Type 0 where
  pub addref : U → ℕ → U
  pub decref : U → ℕ → U × Bool
  pub free : U → ℕ → U
  pub refs : U → ℕ → ℕ
  pub freed : U → ℕ → Bool
  pub has_addref : ops.hop_rec_addref ≡ some addref
  pub has_decref : ops.hop_rec_decref ≡ some decref
  pub has_free : ops.hop_rec_free ≡ some free
  pub addref_refs :
      (u : U) (r q : ℕ) → refs (addref u r) q ≡ (if q == r then refs u q + 1 else refs u q)
  pub addref_freed : (u : U) (r q : ℕ) → freed (addref u r) q ≡ freed u q
  pub decref_refs :
      (u : U) (r q : ℕ)
      → 0 < refs u r
      → refs (decref u r).0 q ≡ (if q == r then refs u q - 1 else refs u q)
  pub decref_zombie : (u : U) (r : ℕ) → 0 < refs u r → (decref u r).1 ≡ (refs u r == 1)
  pub decref_freed : (u : U) (r q : ℕ) → freed (decref u r).0 q ≡ freed u q
  pub free_frees : (u : U) (r : ℕ) → freed (free u r) r ≡ true
  pub free_refs : (u : U) (r q : ℕ) → q ≢ r → refs (free u r) q ≡ refs u q
  pub free_freed : (u : U) (r q : ℕ) → q ≢ r → freed (free u r) q ≡ freed u q

module _ {U : Type 0} (ops : HashOps U) (laws : CountLaws ops) where
  pub addref-is :
      (t : HashTable U) (r : ℕ)
      → ch_rec_addref ops t r ≡ record t { records = laws.addref t.records r }
  unfolding ch_rec_addref
  addref-is t r = rw laws.has_addref

  pub decref-is :
      (t : HashTable U) (r : ℕ)
      → ch_rec_decref ops t r
        ≡ (record t { records = (laws.decref t.records r).0 }, (laws.decref t.records r).1)
  unfolding ch_rec_decref
  decref-is t r = rw laws.has_decref

  pub free-is :
      (t : HashTable U) (r : ℕ) → ch_rec_free ops t r ≡ record t { records = laws.free t.records r }
  unfolding ch_rec_free
  free-is t r = rw laws.has_free
