-- ===== src/Swim/Progress.antt =====
-- The protocol clock: swim_progress of src/swim/swim.c.
use cart.Prelude.{
  ℕ, zero, suc, ◌+◌, ◌*◌, ◌/◌, Bool, true, false, ◌||◌, Option, none, some, List, [], ◌∷◌, ltb, leb,
  ◌==◌, if◌then◌else◌, ok, err, der_nonexist,
}
use cart.Swim.{
  ContextState, scs_begin, scs_dpinged, scs_ipinged, scs_timedout, scs_acked, scs_dead, is_inactive,
  MemberState, Item, SwimContext, SwimOps, u64, swim_id_invalid, swim_protocol_period_len, einval,
  eintr, eshutdown, etimedout,
}
use cart.Swim.Updates.{swim_updates_send}
use cart.Swim.Members.{swim_member_dead, swim_member_suspect}
use cart.Swim.Suspects.{swim_member_update_suspected, swim_ipings_update, swim_subgroup_init}

-- The end of the switch: the call returns, or it goes on in a state of the protocol, with the
-- message to send, which is about a member and goes to a member.
pub data Switched (M : Type 0) : Type 0 where
  stop : SwimContext M → ℕ → Switched M
  proceed : SwimContext M → ContextState → Option (ℕ × ℕ) → Switched M

abbrev pub is_timedout : ContextState → Bool
is_timedout scs_timedout = true
is_timedout s = false

module _ {M : Type 0} (ops : SwimOps M) where
  -- case SCS_DEAD
  unfoldable pub next_target : SwimContext M → Switched M
  next_target ctx =
      let (m, id) = ops.get_dping_target ctx.sc_data ctx.sc_self in
      let ctx' = record ctx { sc_data = m; sc_target = id } in
      if id == swim_id_invalid then stop ctx' eshutdown else proceed ctx' scs_begin none

  -- case SCS_BEGIN
  unfoldable pub begin_case : SwimContext M → (now : ℕ) → Switched M
  begin_case ctx now =
      if ltb ctx.sc_next_tick_time now
      then proceed
          (record ctx {
            sc_next_tick_time = u64 (now + swim_protocol_period_len);
            sc_dping_deadline = u64 (now + ctx.swim_ping_timeout);
          })
          scs_dpinged (some (ctx.sc_target, ctx.sc_target))
      else proceed ctx scs_begin none

  -- case SCS_DPINGED
  unfoldable pub dpinged_case : SwimContext M → (now : ℕ) → MemberState → Switched M
  dpinged_case ctx now st =
      if ltb ctx.sc_dping_deadline now
      then (if is_inactive st.sms_status
          then proceed ctx scs_dead none
          else proceed (swim_member_suspect ops ctx ctx.sc_self ctx.sc_target st.sms_incarnation).0
              scs_timedout none)
      else proceed ctx scs_dpinged none

  -- case SCS_IPINGED
  unfoldable pub ipinged_case : SwimContext M → (now : ℕ) → MemberState → Switched M
  ipinged_case ctx now st =
      if ltb ctx.sc_iping_deadline now
      then proceed (swim_member_dead ops ctx ctx.sc_self ctx.sc_target st.sms_incarnation).0
          scs_dead none
      else proceed ctx scs_ipinged none

  -- The end of case SCS_TIMEDOUT: one member of the subgroup is asked to ping the target.
  unfoldable pub ask_subgroup : SwimContext M → (now : ℕ) → List Item → Switched M
  ask_subgroup ctx now [] = next_target ctx
  ask_subgroup ctx now (item ∷ []) =
      proceed
        (record ctx { sc_subgroup = []; sc_iping_deadline = u64 (now + 2 * ctx.swim_ping_timeout) })
        scs_ipinged (some (ctx.sc_target, item.si_id))
  ask_subgroup ctx now (item ∷ items) =
      proceed (record ctx { sc_subgroup = items }) scs_timedout (some (ctx.sc_target, item.si_id))

  -- case SCS_TIMEDOUT, by the subgroup
  unfoldable pub timedout_with : SwimContext M → (now : ℕ) → List Item → Switched M
  timedout_with ctx now [] =
      let (ctx', rc) = swim_subgroup_init ops ctx in
      if rc == 0 then ask_subgroup ctx' now ctx'.sc_subgroup else stop ctx' rc
  timedout_with ctx now (item ∷ items) = ask_subgroup ctx now (item ∷ items)

  unfoldable pub timedout_case : SwimContext M → (now : ℕ) → Switched M
  timedout_case ctx now = timedout_with ctx now ctx.sc_subgroup

  -- The switch over the state, in which the state of the target is known.
  unfoldable pub switch : SwimContext M → (now : ℕ) → ContextState → MemberState → Switched M
  switch ctx now scs_begin st = begin_case ctx now
  switch ctx now scs_dpinged st = dpinged_case ctx now st
  switch ctx now scs_ipinged st = ipinged_case ctx now st
  switch ctx now scs_timedout st = timedout_case ctx now
  switch ctx now scs_acked st = next_target ctx
  switch ctx now scs_dead st = next_target ctx

  -- From the lock to the switch: a target that is unknown makes way for the next one.
  unfoldable pub check_target : SwimContext M → (now : ℕ) → Switched M
  check_target ctx now =
      if ctx.sc_target == swim_id_invalid
      then next_target ctx
      else elim (ops.get_member_state ctx.sc_data ctx.sc_target) [
        | err e ↦
            let ctx' = record ctx { sc_target = swim_id_invalid } in
            if e == der_nonexist then next_target ctx' else stop ctx' e
        | ok st ↦ switch ctx now ctx.sc_state st
      ]

  -- The end of a round: the context, and the state in which the loop goes on, or the code with
  -- which it stops.
  pub data Round : Type 0 where
    returned : SwimContext M → ℕ → Round
    goes_on : SwimContext M → ContextState → Round

  -- swim_state_set, and the message
  unfoldable pub send_round : Switched M → Round
  send_round (stop ctx rc) = returned ctx rc
  send_round (proceed ctx st none) = goes_on (record ctx { sc_state = st }) st
  send_round (proceed ctx st (some (id, to))) =
      let (ctx', rc) = swim_updates_send ops (record ctx { sc_state = st }) id to in
      if rc == 0 then goes_on ctx' st else returned ctx' rc

  -- The body of the loop
  unfoldable pub progress_round : SwimContext M → (now : ℕ) → Round
  progress_round ctx now =
      let (ctx1, rc1) = swim_member_update_suspected ops ctx now in
      let (ctx2, rc2) = swim_ipings_update ops ctx1 now in
      if rc1 == 0
      then (if rc2 == 0 then send_round (check_target ctx2 now) else returned ctx2 rc2)
      else returned ctx1 rc1

  -- What follows the loop.
  unfoldable pub leave : SwimContext M → (now rc : ℕ) → SwimContext M × ℕ
  leave ctx now rc =
      (record ctx { sc_expect_progress_time = u64 (now + swim_protocol_period_len / 2) }, rc)

  -- The loop, with the clock read at the end of each round; `none` where the fuel runs out.
  unfoldable pub progress_loop :
      (fuel : ℕ) → SwimContext M → (now end : ℕ) → ContextState → Option (SwimContext M × ℕ)
  progress_loop zero ctx now end st = none
  progress_loop (suc fuel) ctx now end st =
      if leb now end || is_timedout st
      then elim (progress_round ctx now) [
        | returned ctx' rc ↦ some (leave ctx' now rc)
        | goes_on ctx' st' ↦
            let (m, now') = ops.now_ms ctx'.sc_data in
            progress_loop fuel (record ctx' { sc_data = m }) now' end st'
      ]
      else some (leave ctx now (if ltb end now then etimedout else eintr))

  -- swim_progress; no context stands for NULL, and `timeout` is 0 where the source's is not
  -- positive.
  unfoldable pub swim_progress :
      (fuel : ℕ) → Option (SwimContext M) → (timeout : ℕ) → Option (Option (SwimContext M) × ℕ)
  swim_progress fuel none timeout = some (none, einval)
  swim_progress fuel (some ctx) timeout =
      if ctx.sc_self == swim_id_invalid
      then some (some ctx, 0)
      else (let (m, now) = ops.now_ms ctx.sc_data in
          let end = if timeout == 0 then 0 else u64 (now + timeout) in
          elim (progress_loop fuel (record ctx { sc_data = m }) now end scs_timedout) [
            | none ↦ none
            | some (ctx', rc) ↦ some (some ctx', rc)
          ])
