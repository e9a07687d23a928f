-- ===== src/Swim/Answers.antt =====
-- The answers of swim_parse_message (src/swim/swim.c): to a suspicion of our own, and to those who
-- asked for an indirect ping.
use cart.Prelude.{
  ℕ, zero, suc, ◌+◌, ◌≤◌, ◌<◌, ◌⊎◌, ◌≡◌, ◌≢◌, refl, ap, ◌∙◌, Bool, true, false, Option, none, some,
  List, [], ◌∷◌, count, length, ◌==◌, ltb, if◌then◌else◌, arith, Bool-cases, Option-cases, inl, inr,
}
use cart.Swim.{Status, MemberState, MemberUpdate, Item, SwimContext, SwimOps, u64, swim_id_invalid}
use cart.Swim.Updates.{remove_first, swim_updates_send}
use cart.Swim.Message.{
  hears_from, Parsed, parse_updates, asker, forward, answer, send_loop, respond, swim_parse_message,
}
use cart.Swim.Items.{ids}
use cart.Swim.Laws.{SwimLaws}
use cart.Swim.Replies.{parse_updates-Step}
use cart.Swim.Frame.{swim_updates_send-Frame}

-- The own state after a suspicion in some incarnation: it is refuted by a greater incarnation, if
-- the own one is not greater already.
abbrev pub refuted : (nr : ℕ) → MemberState → MemberState
refuted nr st =
    if ltb nr st.sms_incarnation
    then st
    else record st { sms_incarnation = u64 (st.sms_incarnation + 1) }

length-ids : (q : ℕ) (xs : List Item) → count q (ids xs) ≤ length xs
length-ids q [] = omega arith
length-ids q (x ∷ xs) = ground (arith, length-ids q xs)

module _ {M : Type 0} (ops : SwimOps M) where
  asker-none : (id : ℕ) (xs : List Item) → asker ops id xs ≡ none → count id (ids xs) ≡ 0
  asker-none id [] h = refl
  asker-none id (x ∷ xs) h = elim (Bool-cases (x.si_id == id)) [
    | inl e ↦ absurd (cc (rw e at h))
    | inr e ↦ ground (arith, asker-none id xs (rw e at h), e)
  ]

  asker-some :
      (id origin : ℕ) (xs : List Item)
      → asker ops id xs ≡ some origin
      → count id (ids xs) ≡ suc (count id (ids (remove_first id xs)))
  asker-some id origin [] h = absurd (cc h)
  asker-some id origin (x ∷ xs) h = elim (Bool-cases (x.si_id == id)) [
    | inl e ↦ rw e (ground (arith, e))
    | inr e ↦ rw e (ground (arith, asker-some id origin xs (rw e at h), e))
  ]

  -- A response that is forwarded goes to one of those who wait, or no one is left.
  forward-cases :
      (ctx : SwimContext M) (from : ℕ)
      → (((forward ops ctx from).1 ≡ none)
          × (count from (ids (forward ops ctx from).0.sc_ipings) ≡ 0))
        ⊎ ((id to : ℕ) × ((forward ops ctx from).1 ≡ some (id, to))
            × (count from (ids ctx.sc_ipings)
                ≡ suc (count from (ids (forward ops ctx from).0.sc_ipings))))
  unfolding forward
  forward-cases ctx from = elim (Option-cases (asker ops from ctx.sc_ipings)) [
    | inl e ↦ inl (rw (e, forward) (refl, asker-none from ctx.sc_ipings e))
    | inr (origin, e) ↦
        inr (rw (e, forward) (from, origin, refl, asker-some from origin ctx.sc_ipings e))
  ]

  send_nothing :
      (rounds : ℕ) (ctx : SwimContext M) (from : ℕ) (response : Bool) (rc : ℕ)
      → send_loop ops rounds ctx from response none rc ≡ (ctx, rc)
  unfolding send_loop
  send_nothing zero ctx from response rc = refl
  send_nothing (suc rounds) ctx from response rc = refl

  forward_self : (ctx : SwimContext M) (from : ℕ) → (forward ops ctx from).0.sc_self ≡ ctx.sc_self
  unfolding forward
  forward_self ctx from = elim (Option-cases (asker ops from ctx.sc_ipings)) [
    | inl e ↦ rw (e, forward) refl
    | inr (origin, e) ↦ rw (e, forward) refl
  ]

  send_round : SwimContext M → (from id to : ℕ) → SwimContext M × Option (ℕ × ℕ)
  send_round ctx from id to = forward ops (swim_updates_send ops ctx id to).0 from

  send_once :
      (rounds : ℕ) (ctx : SwimContext M) (from id to rc : ℕ)
      → send_loop ops (suc rounds) ctx from true (some (id, to)) rc
        ≡ send_loop ops rounds
            (send_round ctx from id to).0
            from
            true
            (send_round ctx from id to).1
            (swim_updates_send ops ctx id to).1
  unfolding send_loop send_round
  send_once rounds ctx from id to rc = refl

  send_loop-empties :
      (rounds : ℕ) (ctx : SwimContext M) (from id to rc : ℕ)
      → count from (ids ctx.sc_ipings) < rounds
      → count from (ids (send_loop ops rounds ctx from true (some (id, to)) rc).0.sc_ipings) ≡ 0
  unfolding send_round
  send_loop-empties zero ctx from id to rc h = absurd (omega (arith, h))
  send_loop-empties (suc rounds) ctx from id to rc h =
      let ctx1 = (swim_updates_send ops ctx id to).0 in
      let f = swim_updates_send-Frame ops ctx id to in
      let before : count from (ids ctx1.sc_ipings) ≡ count from (ids ctx.sc_ipings) =
        ap (λ xs. count from (ids xs)) f.ipings in
      rw (send_once rounds ctx from id to rc) (elim (forward-cases ctx1 from) [
        | inl (e, empty) ↦ rw (e, send_nothing rounds) empty
        | inr (id', to', e, fewer) ↦ rw e (
            send_loop-empties rounds (forward ops ctx1 from).0 from id' to' _
              (omega (arith, before, fewer, h)))
      ])

  respond-empties :
      (p : Parsed M) (from : ℕ) (s : Status)
      → p.halted ≡ none
      → from ≢ p.ctx.sc_self
      → count from (ids (respond ops p from from s).0.sc_ipings) ≡ 0
  unfolding respond answer
  respond-empties p from s goes ne =
      let a : (from == p.ctx.sc_self) ≡ false = ground arith in
      let b : (from == from) ≡ true = ground arith in
      let ctx : SwimContext M = record (forward ops p.ctx from).0 { sc_state = p.ctx_state } in
      let a' : (from == (forward ops p.ctx from).0.sc_self) ≡ false =
        rw (forward_self p.ctx from) a in
      elim (forward-cases p.ctx from) [
        | inl (e, empty) ↦ rw (goes, respond, a, b, e, send_nothing _) empty
        | inr (id, to, e, fewer) ↦
            rw (goes, respond, a, b, e, a')
              (send_loop-empties _ ctx from id to 0 (omega (arith, length-ids from ctx.sc_ipings)))
      ]

  -- A message whose first update is about its sender, who is not us, is a response to a ping. If
  -- no update in it ends the call, no indirect ping of the sender is left in the list when
  -- swim_parse_message returns, with callbacks that keep the laws, and however the messages fare.
  pub response_answers_all :
      (laws : SwimLaws ops) (ctx : SwimContext M) (from : ℕ) (st : MemberState)
      (upds : List MemberUpdate)
      → ctx.sc_self ≢ swim_id_invalid
      → (parse_updates ops ctx
          (hears_from ctx.sc_target from ctx.sc_state)
          from
          (record { smu_id = from; smu_state = st } ∷ upds)).halted
        ≡ none
      → from ≢ ctx.sc_self
      → count from (
          ids
            (swim_parse_message ops ctx from
              (record { smu_id = from; smu_state = st } ∷ upds)).0.sc_ipings)
        ≡ 0
  unfolding swim_parse_message
  response_answers_all laws ctx from st upds set goes ne =
      let same =
        (parse_updates-Step ops laws ctx (hears_from ctx.sc_target from ctx.sc_state) from
          (record { smu_id = from; smu_state = st } ∷ upds)).self in
      let valid : (ctx.sc_self == swim_id_invalid) ≡ false = ground arith in
      rw valid (respond-empties _ from st.sms_status goes (λ e. ne (e ∙ same)))
