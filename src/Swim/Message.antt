-- ===== src/Swim/Message.antt =====
-- The messages that come in: swim_parse_message of src/swim/swim.c.
use cart.Prelude.{
  ℕ, zero, suc, ◌+◌, Bool, true, false, ◌&&◌, not, Option, none, some, List, [], ◌∷◌, ◌++◌, length,
  ltb, ◌==◌, if◌then◌else◌, ok, err,
}
use cart.Swim.{
  Status, alive, suspect, dead, inactive, is_suspect, ContextState, scs_begin, scs_dpinged,
  scs_ipinged, scs_acked, MemberUpdate, Item, SwimContext, SwimOps, u64, swim_id_invalid, enomem,
  eshutdown,
}
use cart.Swim.Updates.{has_item, remove_first, allocate, swim_updates_send, swim_updates_notify}
use cart.Swim.Members.{swim_member_alive, swim_member_dead, swim_member_suspect}

abbrev pub is_ipinged : ContextState → Bool
is_ipinged scs_ipinged = true
is_ipinged s = false

-- The state of the protocol after a message from the target of the direct ping.
unfoldable pub hears_from : (target from : ℕ) → ContextState → ContextState
hears_from target from scs_begin = if from == target then scs_acked else scs_begin
hears_from target from scs_dpinged = if from == target then scs_acked else scs_dpinged
hears_from target from s = s

-- The loop over the updates: the context, the state of the protocol, and the return code with
-- which the call ends at once, if it does.
pub record Parsed (M : Type 0) : Type 0 where
  pub ctx : SwimContext M
  pub ctx_state : ContextState
  pub halted : Option ℕ

module _ {M : Type 0} (ops : SwimOps M) where
  -- Someone suspects us: a greater incarnation refutes it.
  unfoldable pub self_suspected : SwimContext M → (nr : ℕ) → SwimContext M × Option ℕ
  self_suspected ctx nr = elim (ops.get_member_state ctx.sc_data ctx.sc_self) [
    | err e ↦ (ctx, some e)
    | ok st ↦
        if ltb nr st.sms_incarnation
        then (ctx, none)
        else (let (ctx', rc) =
              swim_updates_notify ops ctx ctx.sc_self ctx.sc_self
                (record st { sms_incarnation = u64 (st.sms_incarnation + 1) }) in
            (ctx', if rc == 0 then none else some rc))
  ]

  unfoldable pub parse_update :
      SwimContext M → ContextState → (from : ℕ) → (id nr : ℕ) → Status → Parsed M
  parse_update ctx s from id nr inactive = record { ctx = ctx; ctx_state = s; halted = none }
  parse_update ctx s from id nr alive =
      if id == ctx.sc_self then record { ctx = ctx; ctx_state = s; halted = none } else record {
        ctx = (swim_member_alive ops ctx from id nr).0;
        ctx_state = if is_ipinged s && id == ctx.sc_target then scs_acked else s;
        halted = none;
      }
  parse_update ctx s from id nr suspect =
      if id == ctx.sc_self
      then (let (ctx', rc) = self_suspected ctx nr in
          record { ctx = ctx'; ctx_state = s; halted = rc })
      else record { ctx = (swim_member_suspect ops ctx from id nr).0; ctx_state = s; halted = none }
  parse_update ctx s from id nr dead =
      if id == ctx.sc_self
      then record { ctx = ctx; ctx_state = s; halted = some eshutdown }
      else record { ctx = (swim_member_dead ops ctx from id nr).0; ctx_state = s; halted = none }

  unfoldable pub parse_updates :
      SwimContext M → ContextState → (from : ℕ) → List MemberUpdate → Parsed M
  parse_updates ctx s from [] = record { ctx = ctx; ctx_state = s; halted = none }
  parse_updates ctx s from (upd ∷ upds) =
      let p =
        parse_update ctx s from upd.smu_id upd.smu_state.sms_incarnation upd.smu_state.sms_status in
      elim p.halted [ some rc ↦ p | none ↦ parse_updates p.ctx p.ctx_state from upds ]

  -- The first indirect ping that waits for this member: who asked for it.
  abbrev pub asker : ℕ → List Item → Option ℕ
  asker id [] = none
  asker id (x ∷ xs) = if x.si_id == id then some x.si_from else asker id xs

  -- A response to a ping goes to the one who asked for it: the message to send.
  unfoldable pub forward : SwimContext M → (from : ℕ) → SwimContext M × Option (ℕ × ℕ)
  forward ctx from = elim (asker from ctx.sc_ipings) [
    | none ↦ (ctx, none)
    | some origin ↦
        (record ctx { sc_ipings = remove_first from ctx.sc_ipings }, some (from, origin))
  ]

  -- A request for an indirect ping is remembered; the ping is sent once.
  unfoldable pub iping_request : SwimContext M → (from to : ℕ) → SwimContext M × Option (ℕ × ℕ) × ℕ
  iping_request ctx from to =
      let (ctx', got) = allocate ops ctx in
      if got
      then (let (m, now) = ops.now_ms ctx'.sc_data in
          (
            record ctx' {
              sc_data = m;
              sc_ipings =
                  ctx'.sc_ipings
                  ++ (record { si_id = to; si_from = from; u = u64 (now + ctx'.swim_ping_timeout) }
                      ∷ []);
            },
            if has_item to ctx.sc_ipings then none else some (to, to),
            0,
          ))
      else (ctx', none, enomem)

  -- The answer to the first update of the message, whose member is `to`: the message to send, and
  -- the return code.
  unfoldable pub answer :
      SwimContext M → (from to : ℕ) → Status → SwimContext M × Option (ℕ × ℕ) × ℕ
  answer ctx from to s =
      if to == ctx.sc_self
      then (ctx, some (ctx.sc_self, from), 0)
      else if to == from
      then (let (ctx', send) = forward ctx from in (ctx', send, 0))
      else if not (to == ctx.sc_target) && is_suspect s
      then iping_request ctx from to
      else (ctx, none, 0)

  -- The loop that sends: after a response that is forwarded, it looks for the next one who asked.
  -- There is a round for each indirect ping that waits, and one more.
  unfoldable pub send_loop :
      (rounds : ℕ)
      → SwimContext M
      → (from : ℕ) → (response : Bool) → Option (ℕ × ℕ)
      → ℕ
      → SwimContext M × ℕ
  send_loop rounds ctx from response none rc = (ctx, rc)
  send_loop zero ctx from response (some (id, to)) rc = (ctx, rc)
  send_loop (suc rounds) ctx from response (some (id, to)) rc =
      let (ctx1, rc1) = swim_updates_send ops ctx id to in
      let (ctx2, send) = if response then forward ctx1 from else (ctx1, none) in
      send_loop rounds ctx2 from response send rc1

  -- What follows the loop over the updates.
  unfoldable pub respond : Parsed M → (from to : ℕ) → Status → SwimContext M × ℕ
  respond p from to s = elim p.halted [
    | some rc ↦ (p.ctx, rc)
    | none ↦
        let (ctx, send, rc) = answer p.ctx from to s in
        let response = not (to == ctx.sc_self) && to == from in
        send_loop (suc (length ctx.sc_ipings)) (record ctx { sc_state = p.ctx_state }) from response
          send rc
  ]

  unfoldable pub swim_parse_message :
      SwimContext M → (from : ℕ) → List MemberUpdate → SwimContext M × ℕ
  swim_parse_message ctx from [] = (ctx, 0)
  swim_parse_message ctx from (upd ∷ upds) =
      if ctx.sc_self == swim_id_invalid
      then (ctx, 0)
      else respond
          (parse_updates ctx (hears_from ctx.sc_target from ctx.sc_state) from (upd ∷ upds)) from
          upd.smu_id upd.smu_state.sms_status
