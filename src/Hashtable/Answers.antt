-- ===== src/Hashtable/Answers.antt =====
-- What d_hash_rec_insert, d_hash_rec_find_insert and d_hash_rec_delete of src/gurt/hash.c do to the
-- map from keys to records.
use cart.Prelude.{ℕ, ◌≡◌, refl, Bool, true, false, Option, some, none, List, der_exist}
use cart.Hashtable.{HashOps, HashTable, ch_key_hash, ch_rec_find, delete_found, rec_delete}
use cart.Hashtable.Maps.{KeyLaws, lookup}
use cart.Hashtable.Updates.{IsMap, Put, delete-Put, delete-IsMap}

-- The answers of the three calls, with the table after them. An exclusive insertion keeps keys
-- unique; one that is not hides a record of the same key.
pub data Inserted {U : Type 0} (ops : HashOps U) (t : HashTable U) (k : List ℕ) (r : ℕ)
    : Bool → HashTable U × ℕ → Type 0 where
  refused : (tmp : ℕ) → lookup ops t k ≡ some tmp → Inserted ops t k r true (t, der_exist)
  fresh :
      {d : HashTable U}
      → lookup ops t k ≡ none
      → Put ops t d k (some r)
      → IsMap ops d
      → Inserted ops t k r true (d, 0)
  hides : {d : HashTable U} → Put ops t d k (some r) → Inserted ops t k r false (d, 0)

pub data FoundOr {U : Type 0} (ops : HashOps U) (t : HashTable U) (k : List ℕ) (r : ℕ)
    : HashTable U × ℕ → Type 0 where
  found :
      {d : HashTable U} (tmp : ℕ)
      → lookup ops t k ≡ some tmp
      → Put ops t d k (some tmp)
      → IsMap ops d
      → FoundOr ops t k r (d, tmp)
  entered :
      {d : HashTable U}
      → lookup ops t k ≡ none
      → Put ops t d k (some r)
      → IsMap ops d
      → FoundOr ops t k r (d, r)

pub data Deleted {U : Type 0} (ops : HashOps U) (t : HashTable U) (k : List ℕ)
    : HashTable U × Bool → Type 0 where
  absent : lookup ops t k ≡ none → Deleted ops t k (t, false)
  removed :
      {d : HashTable U} (r : ℕ)
      → lookup ops t k ≡ some r
      → Put ops t d k none
      → IsMap ops d
      → Deleted ops t k (d, true)

module _ {U : Type 0} (ops : HashOps U) (laws : KeyLaws ops) (t : HashTable U) where
  delete_found-Deleted :
      (k : List ℕ) (o : Option ℕ)
      → IsMap ops t
      → lookup ops t k ≡ o
      → Deleted ops t k (delete_found ops o t)
  delete_found-Deleted k none m n = absent n
  delete_found-Deleted k (some r) m n =
      removed r n (delete-Put ops laws t k r m n) (delete-IsMap ops laws t r m)

  -- d_hash_rec_delete of a table with unique keys says whether the table has a record for the key.
  -- After it the key leads to none, every other key leads where it led before, and keys stay unique.
  pub rec_delete-Deleted : (k : List ℕ) → IsMap ops t → Deleted ops t k (rec_delete ops t k)
  unfolding rec_delete lookup
  rec_delete-Deleted k m = delete_found-Deleted k (ch_rec_find ops t (ch_key_hash ops t k) k) m refl
