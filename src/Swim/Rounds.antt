-- ===== src/Swim/Rounds.antt =====
-- The rounds of swim_progress (src/swim/swim.c), as steps.
use cart.Prelude.{
  ℕ, zero, suc, ◌+◌, ◌⊎◌, ◌≡◌, refl, ap, ◌||◌, Option, none, some, List, [], ◌∷◌, ltb, leb, ◌==◌,
  if◌then◌else◌, arith, Bool-cases, inl, inr, der_nonexist, Option-cases,
}
use std.Path.{subst}
use cart.Swim.{
  ContextState, scs_begin, scs_dpinged, scs_ipinged, scs_timedout, scs_acked, scs_dead, is_inactive,
  MemberState, Item, SwimContext, SwimOps, u64, swim_id_invalid,
}
use cart.Swim.Suspects.{swim_member_update_suspected, swim_ipings_update, swim_subgroup_init}
use cart.Swim.Updates.{swim_updates_send}
use cart.Swim.Progress.{
  Switched, stop, proceed, is_timedout, next_target, begin_case, dpinged_case, ipinged_case,
  ask_subgroup, timedout_with, timedout_case, switch, check_target, Round, returned, goes_on,
  send_round, progress_round, leave, progress_loop, swim_progress,
}
use cart.Swim.Laws.{SwimLaws, SameStates}
use cart.Swim.Steps.{Step, step_refl, step_trans, quiet}
use cart.Swim.Verdicts.{Result-cases, swim_member_suspect-Step, swim_member_dead-Step}
use cart.Swim.Gossip.{swim_updates_send-Step}
use cart.Swim.Timeouts.{
  swim_member_update_suspected-Step, swim_ipings_update-Step, swim_subgroup_init-Step,
}

-- The context at the end of the switch, and at the end of a round.
abbrev switched : {M : Type 0} → Switched M → SwimContext M
switched (stop ctx rc) = ctx
switched (proceed ctx st send) = ctx

pub Round-cases :
    {M : Type 0} {ops : SwimOps M} (r : Round ops)
    → ((ctx : SwimContext M) × (rc : ℕ) × (r ≡ returned ctx rc))
      ⊎ ((ctx : SwimContext M) × (st : ContextState) × (r ≡ goes_on ctx st))
Round-cases (returned ctx rc) = inl (ctx, rc, refl)
Round-cases (goes_on ctx st) = inr (ctx, st, refl)

module _ {M : Type 0} (ops : SwimOps M) (laws : SwimLaws ops) where
  abbrev after : Round ops → SwimContext M
  after (returned ctx rc) = ctx
  after (goes_on ctx st) = ctx

  -- A change of the clocks, the lists and the state of the protocol only.
  pub same_members :
      (ctx ctx' : SwimContext M)
      → ctx'.sc_self ≡ ctx.sc_self
      → SameStates ops ctx.sc_data ctx'.sc_data
      → ctx'.sc_suspects ≡ ctx.sc_suspects
      → ctx'.sc_updates ≡ ctx.sc_updates
      → Step ops ctx ctx'
  same_members ctx ctx' self same suspects updates =
      quiet ops ctx ctx' self same (rw suspects refl) (λ q. rw updates (omega arith))

  next_target-Step : (ctx : SwimContext M) → Step ops ctx (switched (next_target ops ctx))
  unfolding next_target
  next_target-Step ctx =
      let (m, id) = ops.get_dping_target ctx.sc_data ctx.sc_self in
      let change =
        same_members ctx (record ctx { sc_data = m; sc_target = id }) refl
          (laws.dping_keeps ctx.sc_data ctx.sc_self) refl refl in
      elim (Bool-cases (id == swim_id_invalid)) [ inl e ↦ rw e change | inr e ↦ rw e change ]

  begin_case-Step :
      (ctx : SwimContext M) (now : ℕ) → Step ops ctx (switched (begin_case ops ctx now))
  unfolding begin_case
  begin_case-Step ctx now = elim (Bool-cases (ltb ctx.sc_next_tick_time now)) [
    | inl e ↦ rw e (same_members ctx _ refl (λ q. refl) refl refl)
    | inr e ↦ rw e (step_refl ops ctx)
  ]

  dpinged_case-Step :
      (ctx : SwimContext M) (now : ℕ) (st : MemberState)
      → Step ops ctx (switched (dpinged_case ops ctx now st))
  unfolding dpinged_case
  dpinged_case-Step ctx now st = elim (Bool-cases (ltb ctx.sc_dping_deadline now)) [
    | inl e ↦ elim (Bool-cases (is_inactive st.sms_status)) [
      | inl i ↦ rw (e, i) (step_refl ops ctx)
      | inr i ↦
          rw (e, i)
            (swim_member_suspect-Step ops laws ctx ctx.sc_self ctx.sc_target st.sms_incarnation)
    ]
    | inr e ↦ rw e (step_refl ops ctx)
  ]

  ipinged_case-Step :
      (ctx : SwimContext M) (now : ℕ) (st : MemberState)
      → Step ops ctx (switched (ipinged_case ops ctx now st))
  unfolding ipinged_case
  ipinged_case-Step ctx now st = elim (Bool-cases (ltb ctx.sc_iping_deadline now)) [
    | inl e ↦ rw e (swim_member_dead-Step ops laws ctx ctx.sc_self ctx.sc_target st.sms_incarnation)
    | inr e ↦ rw e (step_refl ops ctx)
  ]

  ask_subgroup-Step :
      (ctx : SwimContext M) (now : ℕ) (items : List Item)
      → Step ops ctx (switched (ask_subgroup ops ctx now items))
  unfolding ask_subgroup
  ask_subgroup-Step ctx now [] = next_target-Step ctx
  ask_subgroup-Step ctx now (item ∷ []) = same_members ctx _ refl (λ q. refl) refl refl
  ask_subgroup-Step ctx now (item ∷ item' ∷ items) = same_members ctx _ refl (λ q. refl) refl refl

  timedout_with-Step :
      (ctx : SwimContext M) (now : ℕ) (items : List Item)
      → Step ops ctx (switched (timedout_with ops ctx now items))
  unfolding timedout_with
  timedout_with-Step ctx now [] =
      let init = swim_subgroup_init ops ctx in
      let made = swim_subgroup_init-Step ops laws ctx in
      elim (Bool-cases (init.1 == 0)) [
        | inl z ↦ rw z (step_trans ops made (ask_subgroup-Step init.0 now init.0.sc_subgroup))
        | inr z ↦ rw z made
      ]
  timedout_with-Step ctx now (x ∷ xs) = ask_subgroup-Step ctx now (x ∷ xs)

  switch-Step :
      (ctx : SwimContext M) (now : ℕ) (s : ContextState) (st : MemberState)
      → Step ops ctx (switched (switch ops ctx now s st))
  unfolding switch timedout_case
  switch-Step ctx now scs_begin st = begin_case-Step ctx now
  switch-Step ctx now scs_dpinged st = dpinged_case-Step ctx now st
  switch-Step ctx now scs_ipinged st = ipinged_case-Step ctx now st
  switch-Step ctx now scs_timedout st = timedout_with-Step ctx now ctx.sc_subgroup
  switch-Step ctx now scs_acked st = next_target-Step ctx
  switch-Step ctx now scs_dead st = next_target-Step ctx

  check_target-Step :
      (ctx : SwimContext M) (now : ℕ) → Step ops ctx (switched (check_target ops ctx now))
  unfolding check_target
  check_target-Step ctx now = elim (Bool-cases (ctx.sc_target == swim_id_invalid)) [
    | inl e ↦ rw e (next_target-Step ctx)
    | inr e ↦ rw e (elim (Result-cases (ops.get_member_state ctx.sc_data ctx.sc_target)) [
      | inl (rc, gone) ↦
          let forget =
            same_members ctx (record ctx { sc_target = swim_id_invalid }) refl (λ q. refl) refl
              refl in
          rw (gone, check_target)
            (elim (Bool-cases (rc == der_nonexist)) [
              | inl z ↦ rw z (step_trans ops forget (next_target-Step _))
              | inr z ↦ rw z forget
            ])
      | inr (st, known) ↦ rw (known, check_target) (switch-Step ctx now ctx.sc_state st)
    ])
  ]

  send_round-Step : (s : Switched M) → Step ops (switched s) (after (send_round ops s))
  unfolding send_round
  send_round-Step (stop ctx rc) = step_refl ops ctx
  send_round-Step (proceed ctx st none) = same_members ctx _ refl (λ q. refl) refl refl
  send_round-Step (proceed ctx st (some (id, to))) =
      let moved = same_members ctx (record ctx { sc_state = st }) refl (λ q. refl) refl refl in
      let sent =
        step_trans ops moved
          (swim_updates_send-Step ops laws (record ctx { sc_state = st }) id to) in
      elim (Bool-cases ((swim_updates_send ops (record ctx { sc_state = st }) id to).1 == 0)) [
        | inl e ↦ rw e sent
        | inr e ↦ rw e sent
      ]

  progress_round-Step :
      (ctx : SwimContext M) (now : ℕ) → Step ops ctx (after (progress_round ops ctx now))
  unfolding progress_round
  progress_round-Step ctx now =
      let r1 = swim_member_update_suspected ops ctx now in
      let r2 = swim_ipings_update ops r1.0 now in
      let s1 = swim_member_update_suspected-Step ops laws ctx now in
      let s2 = step_trans ops s1 (swim_ipings_update-Step ops laws r1.0 now) in
      elim (Bool-cases (r1.1 == 0)) [
        | inl e ↦ elim (Bool-cases (r2.1 == 0)) [
          | inl e' ↦
              rw (e, e')
                (step_trans ops s2 (
                  step_trans ops (check_target-Step r2.0 now)
                    (send_round-Step (check_target ops r2.0 now))))
          | inr e' ↦ rw (e, e') s2
        ]
        | inr e ↦ rw e s1
      ]

  leave-Step : (ctx : SwimContext M) (now rc : ℕ) → Step ops ctx (leave ops ctx now rc).0
  unfolding leave
  leave-Step ctx now rc = same_members ctx _ refl (λ q. refl) refl refl

  step_to :
      (ctx ctx' : SwimContext M) (r : SwimContext M × ℕ) (rc : ℕ)
      → some r ≡ some (ctx', rc)
      → Step ops ctx r.0
      → Step ops ctx ctx'
  step_to ctx ctx' r rc h s = subst (λ c. Step ops ctx c) (ap context h) s
    where
      context : Option (SwimContext M × ℕ) → SwimContext M
      context none = ctx
      context (some r) = r.0

  progress_loop-Step :
      (fuel : ℕ) (ctx : SwimContext M) (now end : ℕ) (s : ContextState) (ctx' : SwimContext M)
      (rc : ℕ)
      → progress_loop ops fuel ctx now end s ≡ some (ctx', rc)
      → Step ops ctx ctx'
  unfolding progress_loop
  progress_loop-Step zero ctx now end s ctx' rc h = absurd (cc h)
  progress_loop-Step (suc fuel) ctx now end s ctx' rc h =
      let round = progress_round-Step ctx now in
      elim (Bool-cases (leb now end || is_timedout s)) [
        | inl e ↦ elim (Round-cases (progress_round ops ctx now)) [
          | inl (ctx1, rc1, r) ↦
              let stopped = rw (e, r, progress_loop) at h in
              let here : Step ops ctx ctx1 = rw r at round in
              step_to ctx ctx' _ rc stopped (step_trans ops here (leave-Step ctx1 now rc1))
          | inr (ctx1, s1, r) ↦
              let rest = rw (e, r, progress_loop) at h in
              let here : Step ops ctx ctx1 = rw r at round in
              let (m, now') = ops.now_ms ctx1.sc_data in
              let ticks =
                same_members ctx1 (record ctx1 { sc_data = m }) refl (laws.now_keeps ctx1.sc_data)
                  refl refl in
              step_trans ops here (
                step_trans ops ticks
                  (progress_loop-Step fuel (record ctx1 { sc_data = m }) now' end s1 ctx' rc rest))
        ]
        | inr e ↦
            let stopped = rw (e, progress_loop) at h in
            step_to ctx ctx' _ rc stopped (leave-Step ctx now _)
      ]

  abbrev result_of : SwimContext M → Option (Option (SwimContext M) × ℕ) → SwimContext M
  result_of ctx (some (some r, a)) = r
  result_of ctx o = ctx

  -- With callbacks that keep the laws, a call of swim_progress that returns is a step too: the
  -- states that are known of the other members only move on, in the order of the incarnations, in
  -- which a dead member stays dead, and a context that is consistent stays so.
  pub swim_progress-Step :
      (fuel : ℕ) (ctx : SwimContext M) (timeout : ℕ) (ctx' : SwimContext M) (rc : ℕ)
      → swim_progress ops fuel (some ctx) timeout ≡ some (some ctx', rc)
      → Step ops ctx ctx'
  unfolding swim_progress
  swim_progress-Step fuel ctx timeout ctx' rc h =
      let (m, now) = ops.now_ms ctx.sc_data in
      let ctx1 : SwimContext M = record ctx { sc_data = m } in
      let end = if timeout == 0 then 0 else u64 (now + timeout) in
      let ticks = same_members ctx ctx1 refl (laws.now_keeps ctx.sc_data) refl refl in
      elim (Bool-cases (ctx.sc_self == swim_id_invalid)) [
        | inl e ↦
            let same = rw (e, swim_progress) at h in
            subst (λ c. Step ops ctx c) (ap (result_of ctx) same) (step_refl ops ctx)
        | inr e ↦ elim (Option-cases (progress_loop ops fuel ctx1 now end scs_timedout)) [
          | inl out ↦ absurd (cc (rw (e, out, swim_progress) at h))
          | inr ((ctx2, rc2), out) ↦
              let same = rw (e, out, swim_progress) at h in
              subst (λ c. Step ops ctx c) (ap (result_of ctx) same)
                (step_trans ops ticks
                  (progress_loop-Step fuel ctx1 now end scs_timedout ctx2 rc2 out))
        ]
      ]
