-- ===== src/Swim/Members.antt =====
-- The verdicts on a member: swim_member_alive, swim_member_dead and swim_member_suspect of
-- src/swim/swim.c. Each is told who says so, and in which incarnation of the member.
use cart.Prelude.{
  ℕ, ◌+◌, Bool, true, false, ◌&&◌, ◌||◌, not, [], ◌∷◌, ◌++◌, ltb, if◌then◌else◌, ok, err,
}
use cart.Swim.{
  alive, suspect, dead, is_alive, is_suspect, is_dead, MemberState, SwimContext, SwimOps, u64,
  swim_protocol_period_len, swim_suspect_timeout, initial_ping_timeout, enomem, ealready,
}
use cart.Swim.Updates.{has_item, remove_first, allocate, swim_updates_notify}

-- The tests of the three for old updates and for members that are dead.
unfoldable pub ignores_alive : MemberState → ℕ → Bool
ignores_alive st nr =
    not (ltb st.sms_incarnation nr)
    && (is_dead st.sms_status || is_alive st.sms_status || ltb nr st.sms_incarnation)

unfoldable pub ignores_dead : MemberState → ℕ → Bool
ignores_dead st nr =
    not (ltb st.sms_incarnation nr) && (is_dead st.sms_status || ltb nr st.sms_incarnation)

unfoldable pub ignores_suspect : MemberState → ℕ → Bool
ignores_suspect st nr =
    not (ltb st.sms_incarnation nr)
    && (is_dead st.sms_status || is_suspect st.sms_status || ltb nr st.sms_incarnation)

module _ {M : Type 0} (ops : SwimOps M) where
  -- The removal from the list of suspects; where swim_member_alive removes one, the ping timeout
  -- grows.
  unfoldable pub clear_suspect : SwimContext M → ℕ → SwimContext M
  clear_suspect ctx id =
      if has_item id ctx.sc_suspects
      then record ctx {
        sc_suspects = remove_first id ctx.sc_suspects;
        swim_ping_timeout =
            if ltb ctx.swim_ping_timeout swim_protocol_period_len
            then u64 (ctx.swim_ping_timeout + initial_ping_timeout)
            else ctx.swim_ping_timeout;
      }
      else ctx

  unfoldable pub swim_member_alive : SwimContext M → (from id nr : ℕ) → SwimContext M × ℕ
  swim_member_alive ctx from id nr = elim (ops.get_member_state ctx.sc_data id) [
    | err e ↦ (ctx, e)
    | ok st ↦
        if ignores_alive st nr
        then (ctx, ealready)
        else swim_updates_notify ops (clear_suspect ctx id) from id
            (record { sms_incarnation = nr; sms_status = alive })
  ]

  unfoldable pub swim_member_dead : SwimContext M → (from id nr : ℕ) → SwimContext M × ℕ
  swim_member_dead ctx from id nr = elim (ops.get_member_state ctx.sc_data id) [
    | err e ↦ (ctx, e)
    | ok st ↦
        if ignores_dead st nr
        then (ctx, ealready)
        else swim_updates_notify ops (record ctx { sc_suspects = remove_first id ctx.sc_suspects })
            from id (record { sms_incarnation = nr; sms_status = dead })
  ]

  -- The insertion at the end of the list of suspects; the flag tells that there was memory.
  unfoldable pub add_suspect : SwimContext M → (from id : ℕ) → SwimContext M × Bool
  add_suspect ctx from id =
      if has_item id ctx.sc_suspects
      then (ctx, true)
      else (let (ctx', got) = allocate ops ctx in
          if got
          then (let (m, now) = ops.now_ms ctx'.sc_data in
              (
                record ctx' {
                  sc_data = m;
                  sc_suspects =
                      ctx'.sc_suspects
                      ++ (record {
                        si_id = id;
                        si_from = from;
                        u = u64 (now + swim_suspect_timeout);
                      }
                          ∷ []);
                },
                true,
              ))
          else (ctx', false))

  unfoldable pub swim_member_suspect : SwimContext M → (from id nr : ℕ) → SwimContext M × ℕ
  swim_member_suspect ctx from id nr = elim (ops.get_member_state ctx.sc_data id) [
    | err e ↦ (ctx, e)
    | ok st ↦
        if ignores_suspect st nr
        then (ctx, ealready)
        else (let (ctx', listed) = add_suspect ctx from id in
            if listed
            then swim_updates_notify ops ctx' from id
                (record { sms_incarnation = nr; sms_status = suspect })
            else (ctx', enomem))
  ]
