-- ===== src/Hashtable/Lives.antt =====
-- The references that src/gurt/hash.c and its callers hold to a record, over any sequence of calls.
use std.Path.{subst}
use native.Mathlib.Decide.{ℕ_discrete}
use cart.Prelude.{
  ℕ, ◌+◌, ◌-◌, ◌^◌, ◌<◌, ◌≡◌, ◌≢◌, sym, ap, ◌∙◌, true, false, ◌==◌, if◌then◌else◌, arith, one_if,
  inl, inr, Bool-cases,
}
use cart.Hashtable.{
  HashOps, HashTable, linked, ch_rec_insert, ch_rec_delete, ch_rec_addref, ch_rec_decref,
  ch_rec_free, free_if,
}
use cart.Hashtable.Chains.{insert-linked, delete-linked}
use cart.Hashtable.Counts.{CountLaws, addref-is, decref-is, free-is}

abbrev pub bump : (ℕ → ℕ) → ℕ → ℕ → ℕ
bump held r q = if q == r then held q + 1 else held q

abbrev pub drop_ref : (ℕ → ℕ) → ℕ → ℕ → ℕ
drop_ref held r q = if q == r then held q - 1 else held q

-- The reference of the table itself
abbrev pub table_ref : {U : Type 0} → HashTable U → ℕ → ℕ
table_ref t q = if t.ephemeral then 0 else one_if (linked t q)

-- The callers hold `held` references; a record that was freed is neither held nor linked.
pub record IsLive {U : Type 0} {ops : HashOps U} (laws : CountLaws ops) (t : HashTable U)
    (held : ℕ → ℕ) : Type 0 where
  pub counted :
      (q : ℕ) → laws.freed t.records q ≡ false → laws.refs t.records q ≡ held q + table_ref t q
  pub safe : (q : ℕ) → laws.freed t.records q ≡ true → (held q ≡ 0) × (linked t q ≡ false)

module _ {U : Type 0} (ops : HashOps U) (laws : CountLaws ops) where
  pub linked-live :
      (t : HashTable U) (held : ℕ → ℕ) (r : ℕ)
      → IsLive laws t held
      → linked t r ≡ true
      → laws.freed t.records r ≡ false
  linked-live t held r live h = ground (arith, live.safe r)

  pub held-live :
      (t : HashTable U) (held : ℕ → ℕ) (r : ℕ)
      → IsLive laws t held
      → 0 < held r
      → laws.freed t.records r ≡ false
  held-live t held r live h = ground (arith, live.safe r)

  pub addref-IsLive :
      (t : HashTable U) (held : ℕ → ℕ) (r : ℕ)
      → IsLive laws t held
      → laws.freed t.records r ≡ false
      → IsLive laws (ch_rec_addref ops t r) (bump held r)
  addref-IsLive t held r live h =
      subst (λ d. IsLive laws d (bump held r)) (sym (addref-is ops laws t r))
        (record {
          counted = λ q f. ground (
            arith,
            laws.addref_freed t.records r q,
            laws.addref_refs t.records r q,
            live.counted q,
          );
          safe = λ q f. ground (arith, laws.addref_freed t.records r q, live.safe q);
        })

  -- Insertion into an ephemeral table, and into one that takes over a reference
  pub insert_ephemeral :
      (t : HashTable U) (held : ℕ → ℕ) (idx r : ℕ)
      → idx < 2 ^ t.ht_bits
      → t.ephemeral ≡ true
      → IsLive laws t held
      → laws.freed t.records r ≡ false
      → IsLive laws (ch_rec_insert ops t idx r) held
  unfolding ch_rec_insert
  insert_ephemeral t held idx r i e live h = record {
    counted = λ q f. ground (arith, live.counted q);
    safe = λ q f. ground (arith, insert-linked ops t idx r q i, live.safe q);
  }

  pub insert_moves :
      (t : HashTable U) (held : ℕ → ℕ) (idx r : ℕ)
      → idx < 2 ^ t.ht_bits
      → t.ephemeral ≡ false
      → IsLive laws t (bump held r)
      → linked t r ≡ false
      → IsLive laws (ch_rec_insert ops t idx r) held
  unfolding ch_rec_insert
  insert_moves t held idx r i e live h = record {
    counted = λ q f. ground (arith, live.counted q, insert-linked ops t idx r q i);
    safe = λ q f. ground (arith, insert-linked ops t idx r q i, live.safe q);
  }

  -- Deletion, likewise
  pub delete_ephemeral :
      (t : HashTable U) (held : ℕ → ℕ) (r : ℕ)
      → t.ephemeral ≡ true
      → IsLive laws t held
      → IsLive laws (ch_rec_delete ops t r) held
  unfolding ch_rec_delete
  delete_ephemeral t held r e live = record {
    counted = λ q f. ground (arith, live.counted q);
    safe = λ q f. ground (arith, delete-linked ops t r q, live.safe q);
  }

  pub delete_moves :
      (t : HashTable U) (held : ℕ → ℕ) (r : ℕ)
      → t.ephemeral ≡ false
      → IsLive laws t held
      → linked t r ≡ true
      → IsLive laws (ch_rec_delete ops t r) (bump held r)
  unfolding ch_rec_delete
  delete_moves t held r e live h = record {
    counted = λ q f. ground (arith, live.counted q, delete-linked ops t r q);
    safe = λ q f. ground (arith, delete-linked ops t r q, live.safe q);
  }

  unfoldable pub lowered : HashTable U → ℕ → HashTable U
  lowered t r = record t { records = (laws.decref t.records r).0 }

  -- A reference of a caller that is not the last
  pub decref_keeps :
      (t : HashTable U) (held : ℕ → ℕ) (r : ℕ)
      → IsLive laws t held
      → 0 < held r
      → (laws.decref t.records r).1 ≡ false
      → IsLive laws (lowered t r) (drop_ref held r)
  unfolding lowered
  decref_keeps t held r live p z = record {
    counted = λ q f. ground (
      arith,
      live.counted q,
      live.counted r,
      held-live t held r live p,
      laws.decref_freed t.records r q,
      laws.decref_refs t.records r q,
      laws.decref_zombie t.records r,
    );
    safe = λ q f. ground (arith, laws.decref_freed t.records r q, live.safe q);
  }

  -- The last reference: the record may be freed once it is in no chain.
  last-free :
      (t : HashTable U) (held : ℕ → ℕ) (r : ℕ)
      → held r ≡ 0
      → linked t r ≡ false
      → ((q : ℕ)
          → q ≢ r
          → laws.freed t.records q ≡ false
          → laws.refs t.records q ≡ held q + table_ref t q)
      → ((q : ℕ) → q ≢ r → laws.freed t.records q ≡ true → (held q ≡ 0) × (linked t q ≡ false))
      → IsLive laws (ch_rec_free ops t r) held
  last-free t held r p un counted safe =
      subst (λ d. IsLive laws d held) (sym (free-is ops laws t r))
        (record {
          counted = λ q f. elim (ℕ_discrete q r) [
            | yes e ↦ absurd (
                ground (
                  arith,
                  laws.free_frees t.records r,
                  ap (laws.freed (laws.free t.records r)) e,
                  f,
                ))
            | no ne ↦
                laws.free_refs t.records r q ne
                ∙ counted q ne (sym (laws.free_freed t.records r q ne) ∙ f)
          ];
          safe = λ q f. elim (ℕ_discrete q r) [
            | yes e ↦ ground (arith, ap held e, ap (linked t) e)
            | no ne ↦ safe q ne (sym (laws.free_freed t.records r q ne) ∙ f)
          ];
        })

  -- The last reference of a caller, where the record is in no chain or leaves it
  pub decref_last :
      (t : HashTable U) (held : ℕ → ℕ) (r : ℕ)
      → IsLive laws t held
      → 0 < held r
      → (laws.decref t.records r).1 ≡ true
      → linked t r ≡ false
      → IsLive laws (ch_rec_free ops (lowered t r) r) (drop_ref held r)
  unfolding lowered
  decref_last t held r live p z un =
      last-free (lowered t r) (drop_ref held r) r
        (ground (arith, live.counted r, held-live t held r live p, laws.decref_zombie t.records r))
        un
        (λ q ne f. ground (
          arith,
          live.counted q,
          live.counted r,
          held-live t held r live p,
          laws.decref_freed t.records r q,
          laws.decref_refs t.records r q,
        ))
        (λ q ne f. ground (arith, laws.decref_freed t.records r q, live.safe q))

  -- A record that is in no chain loses a reference, and is freed with the last.
  pub decref-free :
      (t : HashTable U) (held : ℕ → ℕ) (r : ℕ)
      → IsLive laws t held
      → 0 < held r
      → linked t r ≡ false
      → IsLive laws (free_if ops (ch_rec_decref ops t r) r) (drop_ref held r)
  unfolding free_if lowered
  decref-free t held r live p un =
      subst (λ d. IsLive laws (free_if ops d r) (drop_ref held r)) (sym (decref-is ops laws t r))
        (elim (Bool-cases (laws.decref t.records r).1) [
          | inl z ↦
              subst (λ b. IsLive laws (free_if ops (lowered t r, b) r) (drop_ref held r)) (sym z)
                (decref_last t held r live p z un)
          | inr z ↦
              subst (λ b. IsLive laws (free_if ops (lowered t r, b) r) (drop_ref held r)) (sym z)
                (decref_keeps t held r live p z)
        ])
