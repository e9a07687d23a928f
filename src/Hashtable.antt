-- ===== src/Hashtable.antt =====
-- The hash table of src/gurt/hash.c, whose types are in src/include/gurt/hash.h. A record is a
-- number, the address of its link, and `records` is what the callbacks of struct d_hash_table_ops
-- keep of the records. The locks are left out: each call here is one that holds the lock. `none`
-- is a run that ends in a failed D_ASSERT.
pub mod Chains
pub mod Maps
pub mod Updates
pub mod Answers
pub mod Counts
pub mod Lives
pub mod Drops
pub mod Holds
pub mod Calls
pub mod Drained
pub mod Destroyed
mod Tests
use cart.Prelude.{
  ℕ, zero, suc, ◌+◌, ◌-◌, ◌*◌, ◌%◌, ◌^◌, Bool, true, false, not, ◌&&◌, ◌||◌, Option, none, some,
  List, [], ◌∷◌, keep_if, count, ltb, ◌==◌, if◌then◌else◌, der_inval, der_exist, der_no_perm,
}

-- d_hash_table_ops_t, of which hop_key_cmp alone must be there. A key is its bytes.
pub record HashOps (U : Type 0) : Type 0 where
  pub hop_key_cmp : U → ℕ → List ℕ → Bool
  pub hop_key_hash : Option (List ℕ → ℕ)
  pub hop_key_init : Option (U → ℕ → ℕ → U)
  pub hop_key_get : Option (U → ℕ → List ℕ)
  pub hop_rec_addref : Option (U → ℕ → U)
  pub hop_rec_decref : Option (U → ℕ → U × Bool)
  pub hop_rec_free : Option (U → ℕ → U)

-- struct d_hash_table, with the bit D_HASH_FT_EPHEMERAL of ht_feats.
pub record HashTable (U : Type 0) : Type 0 where
  pub ephemeral : Bool
  pub ht_bits : ℕ
  pub ht_buckets : ℕ → List ℕ
  pub records : U

abbrev pub d_hash_string_loop : ℕ → List ℕ → ℕ
d_hash_string_loop result [] = result
d_hash_string_loop result (p ∷ ps) = d_hash_string_loop ((result * 32 + result + p) % 2 ^ 32) ps

abbrev pub d_hash_string_u32 : List ℕ → ℕ
d_hash_string_u32 key = d_hash_string_loop 5381 key

-- d_list_empty of the link of a record, the negation: whether one of `nr` chains holds it.
abbrev pub linked_below : ℕ → (ℕ → List ℕ) → ℕ → Bool
linked_below zero b r = false
linked_below (suc nr) b r = ltb 0 (count r (b nr)) || linked_below nr b r

abbrev pub linked : {U : Type 0} → HashTable U → ℕ → Bool
linked t r = linked_below (2 ^ t.ht_bits) t.ht_buckets r

module _ {U : Type 0} (ops : HashOps U) where
  -- The hash that ch_key_hash cuts down to a bucket
  unfoldable pub key_hash : List ℕ → ℕ
  key_hash key = elim ops.hop_key_hash [ some hash ↦ hash key | none ↦ d_hash_string_u32 key ]

  unfoldable pub ch_key_hash : HashTable U → List ℕ → ℕ
  ch_key_hash t key = key_hash key % 2 ^ t.ht_bits

  -- ch_rec_find, on a chain
  abbrev pub find_chain : U → List ℕ → List ℕ → Option ℕ
  find_chain u [] key = none
  find_chain u (r ∷ rs) key = if ops.hop_key_cmp u r key then some r else find_chain u rs key

  unfoldable pub ch_rec_find : HashTable U → ℕ → List ℕ → Option ℕ
  ch_rec_find t idx key = find_chain t.records (t.ht_buckets idx) key

  unfoldable pub ch_rec_insert : HashTable U → ℕ → ℕ → HashTable U
  ch_rec_insert t idx r = record t {
    ht_buckets = λ i. if i == idx then r ∷ t.ht_buckets i else t.ht_buckets i;
  }

  -- d_list_del_init takes the link out of the chain it is in.
  unfoldable pub ch_rec_delete : HashTable U → ℕ → HashTable U
  ch_rec_delete t r = record t { ht_buckets = λ i. keep_if (λ x. not (x == r)) (t.ht_buckets i) }

  unfoldable pub ch_rec_addref : HashTable U → ℕ → HashTable U
  ch_rec_addref t r = elim ops.hop_rec_addref [
    | some addref ↦ record t { records = addref t.records r }
    | none ↦ t
  ]

  unfoldable pub ch_rec_decref : HashTable U → ℕ → HashTable U × Bool
  ch_rec_decref t r = elim ops.hop_rec_decref [
    | some decref ↦ let (u, zombie) = decref t.records r in (record t { records = u }, zombie)
    | none ↦ (t, false)
  ]

  unfoldable pub ch_rec_free : HashTable U → ℕ → HashTable U
  ch_rec_free t r = elim ops.hop_rec_free [
    | some free ↦ record t { records = free t.records r }
    | none ↦ t
  ]

  unfoldable pub ch_rec_insert_addref : HashTable U → ℕ → ℕ → HashTable U
  ch_rec_insert_addref t idx r = ch_rec_insert (if t.ephemeral then t else ch_rec_addref t r) idx r

  unfoldable pub ch_rec_del_decref : HashTable U → ℕ → HashTable U × Bool
  ch_rec_del_decref t r =
      let d = ch_rec_delete t r in if t.ephemeral then (d, false) else ch_rec_decref d r

  -- The end of a call, behind its unlocking
  unfoldable pub free_if : HashTable U × Bool → ℕ → HashTable U
  free_if (t, zombie) r = if zombie then ch_rec_free t r else t

  -- Who finds a record gets a reference to it.
  abbrev pub find_ref : HashTable U → Option ℕ → HashTable U
  find_ref t none = t
  find_ref t (some r) = ch_rec_addref t r

  unfoldable pub rec_find : HashTable U → List ℕ → HashTable U × Option ℕ
  rec_find t key = let rlink = ch_rec_find t (ch_key_hash t key) key in (find_ref t rlink, rlink)

  -- d_hash_rec_insert behind its search, if there was one
  abbrev pub insert_unless : Option ℕ → HashTable U → ℕ → ℕ → HashTable U × ℕ
  insert_unless (some tmp) t idx r = (t, der_exist)
  insert_unless none t idx r = (ch_rec_insert_addref t idx r, 0)

  unfoldable pub rec_insert : HashTable U → List ℕ → ℕ → (exclusive : Bool) → HashTable U × ℕ
  rec_insert t key r exclusive =
      let idx = ch_key_hash t key in
      insert_unless (if exclusive then ch_rec_find t idx key else none) t idx r

  -- d_hash_rec_find_insert behind its search
  abbrev pub found_or : Option ℕ → HashTable U → ℕ → ℕ → HashTable U × ℕ
  found_or (some tmp) t idx r = (ch_rec_addref t tmp, tmp)
  found_or none t idx r = (ch_rec_insert_addref t idx r, r)

  unfoldable pub rec_find_insert : HashTable U → List ℕ → ℕ → HashTable U × ℕ
  rec_find_insert t key r = let idx = ch_key_hash t key in found_or (ch_rec_find t idx key) t idx r

  unfoldable pub rec_insert_anonym : HashTable U → ℕ → (arg : ℕ) → HashTable U × ℕ
  rec_insert_anonym t r arg = elim ops.hop_key_init [
    | none ↦ (t, der_no_perm)
    | some init ↦ elim ops.hop_key_get [
      | none ↦ (t, der_no_perm)
      | some get ↦
          let c = record t { records = init t.records r arg } in
          (ch_rec_insert_addref c (ch_key_hash c (get c.records r)) r, 0)
    ]
  ]

  -- d_hash_rec_delete behind its search
  abbrev pub delete_found : Option ℕ → HashTable U → HashTable U × Bool
  delete_found none t = (t, false)
  delete_found (some r) t = (free_if (ch_rec_del_decref t r) r, true)

  unfoldable pub rec_delete : HashTable U → List ℕ → HashTable U × Bool
  rec_delete t key = delete_found (ch_rec_find t (ch_key_hash t key) key) t

  unfoldable pub rec_delete_at : HashTable U → ℕ → HashTable U × Bool
  rec_delete_at t r = if linked t r then (free_if (ch_rec_del_decref t r) r, true) else (t, false)

  unfoldable pub rec_addref : HashTable U → ℕ → HashTable U
  rec_addref t r = ch_rec_addref t r

  -- What d_hash_rec_decref and d_hash_rec_ndecref do after the reference counts have gone down:
  -- a record without references leaves an ephemeral table, and must not be in any other.
  unfoldable pub reap : HashTable U × Bool → ℕ → Option (HashTable U)
  reap (t, zombie) r =
      let d = (if zombie && t.ephemeral && linked t r then ch_rec_delete t r else t) in
      if zombie && linked d r then none else some (free_if (d, zombie) r)

  unfoldable pub rec_decref : HashTable U → ℕ → Option (HashTable U)
  rec_decref t r = reap (ch_rec_decref t r) r

  -- The loop of d_hash_rec_ndecref, whose count is one more than `more`, and the count after it
  abbrev pub ndecref_loop : HashTable U → (more : ℕ) → ℕ → (HashTable U × Bool) × ℕ
  ndecref_loop t zero r = (ch_rec_decref t r, 0)
  ndecref_loop t (suc more) r =
      let once = ch_rec_decref t r in
      let rest = ndecref_loop once.0 more r in if once.1 then (once, suc more) else rest

  -- The error number of d_hash_rec_ndecref
  abbrev pub with_rc : ℕ → Option (HashTable U) → Option (HashTable U × ℕ)
  with_rc left (some d) = some (d, if left == 0 then 0 else der_inval)
  with_rc left none = none

  -- d_hash_rec_ndecref with the count `more + 1`; a call with 0 is not modelled.
  unfoldable pub rec_ndecref : HashTable U → (more : ℕ) → ℕ → Option (HashTable U × ℕ)
  rec_ndecref t more r = let (tz, left) = ndecref_loop t more r in with_rc left (reap tz r)
