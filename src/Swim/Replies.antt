-- ===== src/Swim/Replies.antt =====
-- The handling of a message by swim_parse_message (src/swim/swim.c), as steps.
use cart.Prelude.{
  ℕ, zero, suc, ◌+◌, refl, ◌∙◌, Bool, true, false, ◌&&◌, not, Option, none, some, List, [], ◌∷◌,
  ltb, ◌==◌, arith, Bool-cases, inl, inr, Option-cases,
}
use native.Mathlib.Decide.{ℕ_discrete}
use cart.Swim.{
  Status, alive, suspect, dead, inactive, is_suspect, ContextState, MemberUpdate, SwimContext,
  SwimOps, u64, swim_id_invalid,
}
use cart.Swim.Updates.{swim_updates_send}
use cart.Swim.Message.{
  hears_from, Parsed, self_suspected, parse_update, parse_updates, asker, forward, iping_request,
  answer, send_loop, respond, swim_parse_message,
}
use cart.Swim.Laws.{SwimLaws}
use cart.Swim.Steps.{Step, step_refl, step_trans}
use cart.Swim.Verdicts.{
  Result-cases, notify-Step, swim_member_alive-Step, swim_member_suspect-Step,
  swim_member_dead-Step,
}
use cart.Swim.Gossip.{swim_updates_send-Step}
use cart.Swim.Rounds.{same_members}

module _ {M : Type 0} (ops : SwimOps M) (laws : SwimLaws ops) where
  self_suspected-Step : (ctx : SwimContext M) (nr : ℕ) → Step ops ctx (self_suspected ops ctx nr).0
  unfolding self_suspected
  self_suspected-Step ctx nr = elim (Result-cases (ops.get_member_state ctx.sc_data ctx.sc_self)) [
    | inl (e, unknown) ↦ rw (unknown, self_suspected) (step_refl ops ctx)
    | inr (st, known) ↦
        rw (known, self_suspected)
          (elim (Bool-cases (ltb nr st.sms_incarnation)) [
            | inl old ↦ rw old (step_refl ops ctx)
            | inr new ↦ rw new (
                notify-Step ops laws ctx ctx ctx.sc_self ctx.sc_self st
                  (record st { sms_incarnation = u64 (st.sms_incarnation + 1) })
                  (record {
                    self = refl;
                    same = λ q. refl;
                    updates = refl;
                    once = λ c. c.suspects_once;
                    lists = λ c q. elim (ℕ_discrete q ctx.sc_self) [
                      | yes e ↦ rw e (ground (arith, c.suspected ctx.sc_self st known))
                      | no ne ↦ ground arith
                    ];
                  })
                  known (λ h. absurd (h refl)))
          ])
  ]

  pub parse_update-Step :
      (ctx : SwimContext M) (s : ContextState) (from id nr : ℕ) (status : Status)
      → Step ops ctx (parse_update ops ctx s from id nr status).ctx
  unfolding parse_update
  parse_update-Step ctx s from id nr inactive = step_refl ops ctx
  parse_update-Step ctx s from id nr alive = elim (Bool-cases (id == ctx.sc_self)) [
    | inl e ↦ rw e (step_refl ops ctx)
    | inr e ↦ rw e (swim_member_alive-Step ops laws ctx from id nr)
  ]
  parse_update-Step ctx s from id nr suspect = elim (Bool-cases (id == ctx.sc_self)) [
    | inl e ↦ rw e (self_suspected-Step ctx nr)
    | inr e ↦ rw e (swim_member_suspect-Step ops laws ctx from id nr)
  ]
  parse_update-Step ctx s from id nr dead = elim (Bool-cases (id == ctx.sc_self)) [
    | inl e ↦ rw e (step_refl ops ctx)
    | inr e ↦ rw e (swim_member_dead-Step ops laws ctx from id nr)
  ]

  pub parse_updates-Step :
      (ctx : SwimContext M) (s : ContextState) (from : ℕ) (upds : List MemberUpdate)
      → Step ops ctx (parse_updates ops ctx s from upds).ctx
  unfolding parse_updates
  parse_updates-Step ctx s from [] = step_refl ops ctx
  parse_updates-Step ctx s from (upd ∷ upds) =
      let p =
        parse_update ops ctx s from upd.smu_id upd.smu_state.sms_incarnation
          upd.smu_state.sms_status in
      let first =
        parse_update-Step ctx s from upd.smu_id upd.smu_state.sms_incarnation
          upd.smu_state.sms_status in
      elim (Option-cases p.halted) [
        | inl goes ↦
            rw (goes, parse_updates)
              (step_trans ops first (parse_updates-Step p.ctx p.ctx_state from upds))
        | inr (rc, halts) ↦ rw (halts, parse_updates) first
      ]

  forward-Step : (ctx : SwimContext M) (from : ℕ) → Step ops ctx (forward ops ctx from).0
  unfolding forward
  forward-Step ctx from = elim (Option-cases (asker ops from ctx.sc_ipings)) [
    | inl e ↦ rw (e, forward) (step_refl ops ctx)
    | inr (origin, e) ↦ rw (e, forward) (same_members ops laws ctx _ refl (λ q. refl) refl refl)
  ]

  iping_request-Step :
      (ctx : SwimContext M) (from to : ℕ) → Step ops ctx (iping_request ops ctx from to).0
  unfolding iping_request
  iping_request-Step ctx from to =
      let alloc = laws.alloc_keeps ctx.sc_data in
      elim (Bool-cases (ops.alloc ctx.sc_data).1) [
        | inl got ↦ rw got (
            same_members ops laws ctx _ refl
              (λ q. laws.now_keeps (ops.alloc ctx.sc_data).0 q ∙ alloc q) refl refl)
        | inr full ↦ rw full (same_members ops laws ctx _ refl alloc refl refl)
      ]

  answer-Step :
      (ctx : SwimContext M) (from to : ℕ) (s : Status) → Step ops ctx (answer ops ctx from to s).0
  unfolding answer
  answer-Step ctx from to s = elim (Bool-cases (to == ctx.sc_self)) [
    | inl a ↦ rw a (step_refl ops ctx)
    | inr a ↦ elim (Bool-cases (to == from)) [
      | inl b ↦ rw (a, b) (forward-Step ctx from)
      | inr b ↦ elim (Bool-cases (not (to == ctx.sc_target) && is_suspect s)) [
        | inl c ↦ rw (a, b, c) (iping_request-Step ctx from to)
        | inr c ↦ rw (a, b, c) (step_refl ops ctx)
      ]
    ]
  ]

  send_loop-Step :
      (rounds : ℕ) (ctx : SwimContext M) (from : ℕ) (response : Bool) (send : Option (ℕ × ℕ))
      (rc : ℕ)
      → Step ops ctx (send_loop ops rounds ctx from response send rc).0
  unfolding send_loop
  send_loop-Step zero ctx from response none rc = step_refl ops ctx
  send_loop-Step (suc rounds) ctx from response none rc = step_refl ops ctx
  send_loop-Step zero ctx from response (some (id, to)) rc = step_refl ops ctx
  send_loop-Step (suc rounds) ctx from true (some (id, to)) rc =
      let ctx1 = (swim_updates_send ops ctx id to).0 in
      step_trans ops (swim_updates_send-Step ops laws ctx id to) (
        step_trans ops (forward-Step ctx1 from)
          (send_loop-Step rounds (forward ops ctx1 from).0 from true _ _))
  send_loop-Step (suc rounds) ctx from false (some (id, to)) rc =
      step_trans ops (swim_updates_send-Step ops laws ctx id to)
        (send_loop-Step rounds _ from false none 0)

  respond-Step :
      (p : Parsed M) (from to : ℕ) (s : Status) → Step ops p.ctx (respond ops p from to s).0
  unfolding respond
  respond-Step p from to s =
      let a = answer ops p.ctx from to s in
      elim (Option-cases p.halted) [
        | inl e ↦
            rw (e, respond)
              (step_trans ops (answer-Step p.ctx from to s) (
                step_trans ops
                  (same_members ops laws a.0 (record a.0 { sc_state = p.ctx_state }) refl
                    (λ q. refl) refl refl)
                  (send_loop-Step _ _ from _ _ _)))
        | inr (rc, e) ↦ rw (e, respond) (step_refl ops p.ctx)
      ]

  -- With callbacks that keep the laws, a call of swim_parse_message is a step: a state that is
  -- known of another member stays, or gives way to one of a later incarnation, or to one of the
  -- same incarnation that is DEAD if it was; members that are unknown stay so. And if no id was
  -- twice among the suspects or among the updates, and exactly those members that are known as
  -- SUSPECT were among the suspects, then that is so afterwards.
  pub swim_parse_message-Step :
      (ctx : SwimContext M) (from : ℕ) (upds : List MemberUpdate)
      → Step ops ctx (swim_parse_message ops ctx from upds).0
  unfolding swim_parse_message
  swim_parse_message-Step ctx from [] = step_refl ops ctx
  swim_parse_message-Step ctx from (upd ∷ upds) =
      elim (Bool-cases (ctx.sc_self == swim_id_invalid)) [
        | inl e ↦ rw e (step_refl ops ctx)
        | inr e ↦ rw e (
            step_trans ops
              (parse_updates-Step ctx (hears_from ctx.sc_target from ctx.sc_state) from
                (upd ∷ upds))
              (respond-Step _ from upd.smu_id upd.smu_state.sms_status))
      ]
