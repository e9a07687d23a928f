-- ===== src/Hashtable/Drops.antt =====
-- d_hash_rec_decref and d_hash_rec_ndecref of src/gurt/hash.c, which callers call that hold a
-- reference.
use cart.Prelude.{
  ℕ, zero, suc, ◌+◌, ◌-◌, ◌<◌, ◌≡◌, refl, ap, ◌∙◌, true, false, some, ◌==◌, if◌then◌else◌, arith,
  inl, inr, Bool-cases,
}
use cart.Hashtable.{
  HashOps, HashTable, linked, ch_rec_delete, ch_rec_decref, ch_rec_free, free_if, reap, rec_decref,
  rec_ndecref, ndecref_loop, with_rc,
}
use cart.Hashtable.Chains.{delete-linked}
use cart.Hashtable.Counts.{CountLaws, decref-is}
use cart.Hashtable.Lives.{
  IsLive, drop_ref, held-live, delete_ephemeral, lowered, decref_keeps, decref_last,
}

module _ {U : Type 0} (ops : HashOps U) (laws : CountLaws ops) where
  reap-kept : (t : HashTable U) (r : ℕ) → reap ops (t, false) r ≡ some t
  unfolding reap free_if
  reap-kept t r = refl

  reap-unlinked :
      (t : HashTable U) (r : ℕ)
      → linked t r ≡ false
      → reap ops (t, true) r ≡ some (ch_rec_free ops t r)
  unfolding reap free_if
  reap-unlinked t r h = elim (Bool-cases t.ephemeral) [
    | inl e ↦ ground (arith)
    | inr e ↦ ground (arith)
  ]

  reap-linked :
      (t : HashTable U) (r : ℕ)
      → linked t r ≡ true
      → t.ephemeral ≡ true
      → reap ops (t, true) r ≡ some (ch_rec_free ops (ch_rec_delete ops t r) r)
  unfolding reap free_if
  reap-linked t r h e = ground (arith, delete-linked ops t r r)

  -- A caller gives back one reference by d_hash_rec_decref; ndecref-IsLive is the same for several.
  pub decref-IsLive :
      (t : HashTable U) (held : ℕ → ℕ) (r : ℕ)
      → IsLive laws t held
      → 0 < held r
      → (d : HashTable U) × (rec_decref ops t r ≡ some d) × IsLive laws d (drop_ref held r)
  unfolding rec_decref lowered ch_rec_delete
  decref-IsLive t held r live p =
      let step = ap (λ d. reap ops d r) (decref-is ops laws t r) in
      elim (Bool-cases (laws.decref t.records r).1) [
        | inr z ↦ (
          lowered ops laws t r,
          step
              ∙ ap (λ b. reap ops (lowered ops laws t r, b) r) z
              ∙ reap-kept (lowered ops laws t r) r,
          decref_keeps ops laws t held r live p z,
        )
        | inl z ↦
            let last = step ∙ ap (λ b. reap ops (lowered ops laws t r, b) r) z in
            elim (Bool-cases (linked t r)) [
              | inr un ↦ (
                ch_rec_free ops (lowered ops laws t r) r,
                last ∙ reap-unlinked (lowered ops laws t r) r un,
                decref_last ops laws t held r live p z un,
              )
              | inl l ↦
                  let e : (t.ephemeral ≡ true) = ground (
                    arith,
                    live.counted r,
                    held-live ops laws t held r live p,
                    laws.decref_zombie t.records r,
                  ) in
                  (
                    ch_rec_free ops (ch_rec_delete ops (lowered ops laws t r) r) r,
                    last ∙ reap-linked (lowered ops laws t r) r l e,
                    decref_last ops laws (ch_rec_delete ops t r) held r
                        (delete_ephemeral ops laws t held r e live) p z
                        (ground (arith, delete-linked ops t r r)),
                  )
            ]
      ]

  -- The last round of the loop
  record Lasts (t : HashTable U) (held : ℕ → ℕ) (more r : ℕ) : Type 0 where
    final : HashTable U
    left : ℕ → ℕ
    is_left : (q : ℕ) → left q ≡ (if q == r then held q - more else held q)
    live : IsLive laws final left
    loop : ndecref_loop ops t more r ≡ (ch_rec_decref ops final r, 0)

  ndecref_loop-Lasts :
      (t : HashTable U) (held : ℕ → ℕ) (more r : ℕ)
      → IsLive laws t held
      → more < held r
      → Lasts t held more r
  unfolding lowered
  ndecref_loop-Lasts t held zero r live p = record {
    final = t;
    left = held;
    is_left = λ q. ground arith;
    live = live;
    loop = refl;
  }
  ndecref_loop-Lasts t held (suc more) r live p =
      let z : ((laws.decref t.records r).1 ≡ false) = ground (
        arith,
        live.counted r,
        held-live ops laws t held r live (omega arith),
        laws.decref_zombie t.records r,
      ) in
      let low = decref_keeps ops laws t held r live (omega arith) z in
      let rest =
        ndecref_loop-Lasts (lowered ops laws t r) (drop_ref held r) more r low (ground arith) in
      record {
        final = rest.final;
        left = rest.left;
        is_left = λ q. ground (arith, rest.is_left q);
        live = rest.live;
        loop =
            ap (λ d. if d.1 then (d, suc more) else ndecref_loop ops d.0 more r)
              (decref-is ops laws t r)
            ∙ ap
                (λ b.
                  if b
                  then ((lowered ops laws t r, b), suc more)
                  else ndecref_loop ops (lowered ops laws t r) more r)
                z
            ∙ rest.loop;
      }

  -- With callbacks that count references: a caller that holds more than `more` references to a
  -- record gives back `more + 1` of them by d_hash_rec_ndecref. No assertion fails, it returns 0,
  -- and afterwards no record that is held or in the table is freed and the counts agree with the
  -- references held, if this was so before.
  pub ndecref-IsLive :
      (t : HashTable U) (held : ℕ → ℕ) (more r : ℕ)
      → IsLive laws t held
      → more < held r
      → (d : HashTable U) × (rec_ndecref ops t more r ≡ some (d, 0))
        × IsLive laws d (λ q. if q == r then held q - (more + 1) else held q)
  unfolding rec_ndecref rec_decref
  ndecref-IsLive t held more r live p =
      let last = ndecref_loop-Lasts t held more r live p in
      let (d, dropped, after) =
        decref-IsLive last.final last.left r last.live (ground (arith, last.is_left r)) in
      (
        d,
        ap (λ e. with_rc ops e.1 (reap ops e.0 r)) last.loop ∙ ap (with_rc ops 0) dropped,
        record {
          counted = λ q f. ground (arith, last.is_left q, after.counted q);
          safe = λ q f. ground (arith, last.is_left q, after.safe q);
        },
      )
