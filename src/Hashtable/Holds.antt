-- ===== src/Hashtable/Holds.antt =====
-- The calls of src/gurt/hash.c one by one, and the references of the records.
use std.Path.{subst}
use cart.Prelude.{
  ℕ, ◌^◌, ◌<◌, ◌≡◌, ◌≢◌, sym, ap, ◌∙◌, Bool, true, false, Option, some, none, List, ◌==◌,
  if◌then◌else◌, arith, inl, inr, Bool-cases, Option-cases, ==_refl,
}
use cart.Hashtable.{
  find_ref, insert_unless, found_or, delete_found, HashOps, HashTable, linked, ch_key_hash,
  ch_rec_insert, ch_rec_find, ch_rec_delete, ch_rec_addref, ch_rec_decref, ch_rec_insert_addref,
  ch_rec_del_decref, free_if, rec_find, rec_insert, rec_find_insert, rec_delete, rec_delete_at,
}
use cart.Hashtable.Chains.{key_hash_bounds, find-linked, delete-linked}
use cart.Hashtable.Counts.{CountLaws, addref-is}
use cart.Hashtable.Lives.{
  IsLive, bump, drop_ref, linked-live, addref-IsLive, insert_ephemeral, insert_moves,
  delete_ephemeral, delete_moves, decref-free,
}

-- A call of d_hash_rec_find that finds a record hands out a reference to it, and so does
-- d_hash_rec_find_insert of the record `r` that finds another.
abbrev pub held_found : (ℕ → ℕ) → Option ℕ → ℕ → ℕ
held_found held none = held
held_found held (some r) = bump held r

abbrev pub held_other : (ℕ → ℕ) → ℕ → ℕ → ℕ → ℕ
held_other held r tmp = if tmp == r then held else bump held tmp

pub ne_test : (a b : ℕ) → a ≢ b → (a == b) ≡ false
ne_test a b h = ground arith

pub some_injective : {U : Type 0} {x y : U} → some x ≡ some y → x ≡ y
some_injective {x = x} e = ap (λ o. elim o [ some v ↦ v | none ↦ x ]) e

module _ {U : Type 0} (ops : HashOps U) (laws : CountLaws ops) where
  same-IsLive :
      (t : HashTable U) (held other : ℕ → ℕ)
      → ((q : ℕ) → held q ≡ other q)
      → IsLive laws t held
      → IsLive laws t other
  same-IsLive t held other e live = record {
    counted = λ q f. ground (arith, e q, live.counted q);
    safe = λ q f. ground (arith, e q, live.safe q);
  }

  added :
      (t : HashTable U) (held : ℕ → ℕ) (k : List ℕ) (r : ℕ)
      → IsLive laws t held
      → laws.freed t.records r ≡ false
      → linked t r ≡ false
      → t.ephemeral ≡ false
      → IsLive laws (ch_rec_insert ops (ch_rec_addref ops t r) (ch_key_hash ops t k) r) held
  added t held k r live h un e =
      let moved = addref-is ops laws t r in
      insert_moves ops laws (ch_rec_addref ops t r) held (ch_key_hash ops t k) r
        (subst (λ d. ch_key_hash ops t k < 2 ^ d.ht_bits) (sym moved) (key_hash_bounds ops t k))
        (ap (λ d. d.ephemeral) moved ∙ e) (addref-IsLive ops laws t held r live h)
        (ap (λ d. linked d r) moved ∙ un)

  pub insert-IsLive :
      (t : HashTable U) (held : ℕ → ℕ) (k : List ℕ) (r : ℕ)
      → IsLive laws t held
      → laws.freed t.records r ≡ false
      → linked t r ≡ false
      → IsLive laws (ch_rec_insert_addref ops t (ch_key_hash ops t k) r) held
  unfolding ch_rec_insert_addref
  insert-IsLive t held k r live h un =
      let idx = ch_key_hash ops t k in
      elim (Bool-cases t.ephemeral) [
        | inl e ↦
            subst
              (λ b.
                IsLive laws (ch_rec_insert ops (if b then t else ch_rec_addref ops t r) idx r) held)
              (sym e) (insert_ephemeral ops laws t held idx r (key_hash_bounds ops t k) e live h)
        | inr e ↦
            subst
              (λ b.
                IsLive laws (ch_rec_insert ops (if b then t else ch_rec_addref ops t r) idx r) held)
              (sym e) (added t held k r live h un e)
      ]

  pub delete-IsLive :
      (t : HashTable U) (held : ℕ → ℕ) (r : ℕ)
      → IsLive laws t held
      → linked t r ≡ true
      → IsLive laws (free_if ops (ch_rec_del_decref ops t r) r) held
  unfolding ch_rec_del_decref free_if ch_rec_delete
  delete-IsLive t held r live h =
      let d = ch_rec_delete ops t r in
      elim (Bool-cases t.ephemeral) [
        | inl e ↦
            subst
              (λ b.
                IsLive laws (free_if ops (if b then (d, false) else ch_rec_decref ops d r) r) held)
              (sym e) (delete_ephemeral ops laws t held r e live)
        | inr e ↦
            subst
              (λ b.
                IsLive laws (free_if ops (if b then (d, false) else ch_rec_decref ops d r) r) held)
              (sym e)
              (same-IsLive (free_if ops (ch_rec_decref ops d r) r) (drop_ref (bump held r) r) held
                (λ q. ground arith)
                (decref-free ops laws d (bump held r) r (delete_moves ops laws t held r e live h)
                  (ground arith) (ground (arith, delete-linked ops t r r))))
      ]

  pub find-IsLive :
      (t : HashTable U) (held : ℕ → ℕ) (k : List ℕ)
      → IsLive laws t held
      → IsLive laws (rec_find ops t k).0 (held_found held (rec_find ops t k).1)
  unfolding rec_find
  find-IsLive t held k live = elim (Option-cases (ch_rec_find ops t (ch_key_hash ops t k) k)) [
    | inl e ↦ subst (λ o. IsLive laws (find_ref ops t o) (held_found held o)) (sym e) live
    | inr (r, e) ↦
        subst (λ o. IsLive laws (find_ref ops t o) (held_found held o)) (sym e)
          (addref-IsLive ops laws t held r live
            (linked-live ops laws t held r live (find-linked ops t k r e)))
  ]

  pub rec_insert-IsLive :
      (t : HashTable U) (held : ℕ → ℕ) (k : List ℕ) (r : ℕ) (exclusive : Bool)
      → IsLive laws t held
      → laws.freed t.records r ≡ false
      → linked t r ≡ false
      → IsLive laws (rec_insert ops t k r exclusive).0 held
  unfolding rec_insert
  rec_insert-IsLive t held k r exclusive live h un =
      let idx = ch_key_hash ops t k in
      let search = (if exclusive then ch_rec_find ops t idx k else none) in
      elim (Option-cases search) [
        | inl e ↦
            subst (λ o. IsLive laws (insert_unless ops o t idx r).0 held) (sym e)
              (insert-IsLive t held k r live h un)
        | inr (tmp, e) ↦ subst (λ o. IsLive laws (insert_unless ops o t idx r).0 held) (sym e) live
      ]

  pub find_insert-IsLive :
      (t : HashTable U) (held : ℕ → ℕ) (k : List ℕ) (r : ℕ)
      → IsLive laws t held
      → laws.freed t.records r ≡ false
      → linked t r ≡ false
      → IsLive laws (rec_find_insert ops t k r).0 (held_other held r (rec_find_insert ops t k r).1)
  unfolding rec_find_insert
  find_insert-IsLive t held k r live h un =
      let idx = ch_key_hash ops t k in
      let goal : (Option ℕ → Type 0) = (λ o.
        IsLive laws (found_or ops o t idx r).0 (held_other held r (found_or ops o t idx r).1)) in
      elim (Option-cases (ch_rec_find ops t idx k)) [
        | inl e ↦ subst goal (sym e) (
            same-IsLive (ch_rec_insert_addref ops t idx r) held (held_other held r r)
              (λ q. ground (arith, ==_refl r)) (insert-IsLive t held k r live h un))
        | inr (tmp, e) ↦
            let l = find-linked ops t k tmp e in
            subst goal (sym e) (
              same-IsLive (ch_rec_addref ops t tmp) (bump held tmp) (held_other held r tmp)
                (λ q.
                  ap (λ b. (if b then held else bump held tmp) q)
                    (sym (ne_test tmp r (λ same. ground (arith, ap (linked t) same, l, un)))))
                (addref-IsLive ops laws t held tmp live (linked-live ops laws t held tmp live l)))
      ]

  pub rec_delete-IsLive :
      (t : HashTable U) (held : ℕ → ℕ) (k : List ℕ)
      → IsLive laws t held
      → IsLive laws (rec_delete ops t k).0 held
  unfolding rec_delete
  rec_delete-IsLive t held k live =
      elim (Option-cases (ch_rec_find ops t (ch_key_hash ops t k) k)) [
        | inl e ↦ subst (λ o. IsLive laws (delete_found ops o t).0 held) (sym e) live
        | inr (r, e) ↦
            subst (λ o. IsLive laws (delete_found ops o t).0 held) (sym e)
              (delete-IsLive t held r live (find-linked ops t k r e))
      ]

  pub delete_at-IsLive :
      (t : HashTable U) (held : ℕ → ℕ) (r : ℕ)
      → IsLive laws t held
      → IsLive laws (rec_delete_at ops t r).0 held
  unfolding rec_delete_at
  delete_at-IsLive t held r live =
      let goal : (Bool → Type 0) = (λ b.
        IsLive laws
          (if◌then◌else◌ {A = HashTable U × Bool} b
            (free_if ops (ch_rec_del_decref ops t r) r, true) (t, false)).0
          held) in
      elim (Bool-cases (linked t r)) [
        | inl e ↦ subst goal (sym e) (delete-IsLive t held r live e)
        | inr e ↦ subst goal (sym e) live
      ]
