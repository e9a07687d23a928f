-- ===== src/Hashtable/Tests.antt =====
-- The theorems on the hash table at concrete tables, and runs of it.
use cart.Prelude.{
  ℕ, ◌+◌, ◌-◌, ◌≡◌, refl, Bool, true, false, ◌||◌, some, none, List, [], ◌∷◌, ◌==◌, if◌then◌else◌,
  arith, ap, ==_refl, ==→eq, der_exist,
}
use cart.Hashtable.{
  HashOps, HashTable, linked, ch_rec_find, ch_rec_insert_addref, ch_rec_insert, ch_key_hash,
  key_hash, ch_rec_addref, ch_rec_del_decref, ch_rec_delete, ch_rec_decref, free_if, ch_rec_free,
  rec_insert, rec_find, rec_delete, rec_ndecref,
}
use cart.Hashtable.Maps.{KeyLaws, lookup}
use cart.Hashtable.Updates.{IsMap, insert-IsMap}
use cart.Hashtable.Answers.{Deleted, rec_delete-Deleted}
use cart.Hashtable.Counts.{CountLaws}
use cart.Hashtable.Lives.{IsLive}
use cart.Hashtable.Drops.{ndecref-IsLive}
use cart.Hashtable.Holds.{ne_test, held_found}
use cart.Hashtable.Drained.{destroy_inplace}
use cart.Hashtable.Destroyed.{Destroyed, destroy_inplace-Destroyed}
use cart.Hashtable.Calls.{Calls, no_calls, find, insert, calls-IsLive}

-- Records that count their references as struct d_rlink does. The key of a record is one byte.
record Links : Type 0 where
  rl_ref : ℕ → ℕ
  is_freed : ℕ → Bool

abbrev link_addref : Links → ℕ → Links
link_addref u r = record u { rl_ref = λ q. if q == r then u.rl_ref q + 1 else u.rl_ref q }

abbrev link_decref : Links → ℕ → Links × Bool
link_decref u r =
    (record u { rl_ref = λ q. if q == r then u.rl_ref q - 1 else u.rl_ref q }, u.rl_ref r == 1)

abbrev link_free : Links → ℕ → Links
link_free u r = record u { is_freed = λ q. q == r || u.is_freed q }

abbrev same_key : Links → ℕ → List ℕ → Bool
same_key u r [] = false
same_key u r (k ∷ []) = r == k
same_key u r (k ∷ j ∷ ks) = false

abbrev link_ops : HashOps Links
link_ops = record {
  hop_key_cmp = same_key;
  hop_key_hash = none;
  hop_key_init = none;
  hop_key_get = some (λ u r. r ∷ []);
  hop_rec_addref = some link_addref;
  hop_rec_decref = some link_decref;
  hop_rec_free = some link_free;
}

abbrev link_laws : CountLaws link_ops
link_laws = record {
  addref = link_addref;
  decref = link_decref;
  free = link_free;
  refs = λ u. u.rl_ref;
  freed = λ u. u.is_freed;
  has_addref = refl;
  has_decref = refl;
  has_free = refl;
  addref_refs = λ u r q. refl;
  addref_freed = λ u r q. refl;
  decref_refs = λ u r q p. refl;
  decref_zombie = λ u r p. refl;
  decref_freed = λ u r q. refl;
  free_frees = λ u r. ap (λ b. b || u.is_freed r) (==_refl r);
  free_refs = λ u r q ne. refl;
  free_freed = λ u r q ne. ap (λ b. b || u.is_freed q) (ne_test q r ne);
}

-- The callers hold one reference to each record, and three to 7.
abbrev held_once : ℕ → ℕ
held_once q = if q == 7 then 3 else 1

-- A table of four buckets without records
abbrev empty_table : HashTable Links
empty_table = record {
  ephemeral = false;
  ht_bits = 2;
  ht_buckets = λ i. [];
  records = record { rl_ref = held_once; is_freed = λ q. false };
}

empty_table-IsLive : IsLive link_laws empty_table held_once
empty_table-IsLive = record { counted = λ q f. ground arith; safe = λ q f. ground arith }

abbrev one_record : HashTable Links
one_record = (rec_insert link_ops empty_table (7 ∷ []) 7 true).0

-- 7 is put in, and found by another caller.
abbrev two_calls :
    Calls link_laws empty_table held_once
      (rec_find link_ops one_record (7 ∷ [])).0
      (held_found held_once (rec_find link_ops one_record (7 ∷ [])).1)
two_calls = find (7 ∷ []) (insert (7 ∷ []) 7 true refl refl no_calls)

calls-IsLive_example :
    IsLive link_laws
      (rec_find link_ops one_record (7 ∷ [])).0
      (held_found held_once (rec_find link_ops one_record (7 ∷ [])).1)
calls-IsLive_example =
    calls-IsLive link_ops link_laws empty_table held_once (rec_find link_ops one_record (7 ∷ [])).0
      (held_found held_once (rec_find link_ops one_record (7 ∷ [])).1) empty_table-IsLive two_calls

-- Three references to 7 are given back at once.
ndecref-IsLive_example :
    (d : HashTable Links) × (rec_ndecref link_ops empty_table 2 7 ≡ some (d, 0))
    × IsLive link_laws d (λ q. if q == 7 then held_once q - 3 else held_once q)
ndecref-IsLive_example =
    ndecref-IsLive link_ops link_laws empty_table held_once 2 7 empty_table-IsLive (omega arith)

same_key-matches : (r : ℕ) (k : List ℕ) (u : Links) → same_key u r k ≡ true → r ∷ [] ≡ k
same_key-matches r [] u h = ground arith
same_key-matches r (k ∷ []) u h = ap (λ x. x ∷ []) (==→eq r k h)
same_key-matches r (k ∷ j ∷ ks) u h = ground arith

one_key : (q : ℕ) (k : List ℕ) (u v : Links) → same_key u q k ≡ same_key v q k
one_key q [] u v = refl
one_key q (k ∷ []) u v = refl
one_key q (k ∷ j ∷ ks) u v = refl

abbrev link_keys : KeyLaws link_ops
link_keys = record {
  key_of = λ u r. r ∷ [];
  matches = λ u r k h. same_key-matches r k u h;
  own_key = λ u r. ==_refl r;
  addref_keeps = λ f h u r q k. one_key q k (f u r) u;
  decref_keeps = λ f h u r q k. one_key q k (f u r).0 u;
  free_keeps = λ f h u r q k ne. one_key q k (f u r) u;
}

empty_table-IsMap : IsMap link_ops empty_table
empty_table-IsMap = record { unique = λ i q r k p. absurd (omega arith) }

one_record-IsMap : IsMap link_ops one_record
unfolding lookup ch_rec_find rec_insert ch_rec_insert_addref
one_record-IsMap =
    insert-IsMap link_ops link_keys empty_table (7 ∷ []) 7 refl empty_table-IsMap refl

rec_delete-Deleted_example :
    Deleted link_ops one_record (7 ∷ []) (rec_delete link_ops one_record (7 ∷ []))
rec_delete-Deleted_example =
    rec_delete-Deleted link_ops link_keys one_record (7 ∷ []) one_record-IsMap

found_there : (rec_find link_ops one_record (7 ∷ [])).1 ≡ some 7
unfolding rec_find ch_rec_find rec_insert ch_rec_insert_addref ch_rec_insert ch_key_hash key_hash
    ch_rec_addref
found_there = refl

refused_there : (rec_insert link_ops one_record (7 ∷ []) 7 true).1 ≡ der_exist
unfolding ch_rec_find rec_insert ch_rec_insert_addref ch_rec_insert ch_key_hash key_hash
    ch_rec_addref
refused_there = refl

-- Deleted, the record is not in the table, and not freed, since its callers hold it.
deleted_there :
    (linked (rec_delete link_ops one_record (7 ∷ [])).0 7 ≡ false)
    × ((rec_delete link_ops one_record (7 ∷ [])).0.records.is_freed 7 ≡ false)
unfolding rec_delete ch_rec_find rec_insert ch_rec_insert_addref ch_rec_insert ch_key_hash key_hash
    ch_rec_addref ch_rec_del_decref ch_rec_delete ch_rec_decref free_if ch_rec_free
deleted_there = (refl, refl)

one_record-IsLive : IsLive link_laws one_record held_once
one_record-IsLive =
    calls-IsLive link_ops link_laws empty_table held_once one_record held_once empty_table-IsLive
      (insert (7 ∷ []) 7 true refl refl no_calls)

destroy_inplace-Destroyed_example :
    Destroyed link_laws one_record held_once true (destroy_inplace link_ops one_record true)
destroy_inplace-Destroyed_example =
    destroy_inplace-Destroyed link_ops link_laws one_record held_once true one_record-IsLive
