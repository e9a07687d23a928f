-- ===== src/Swim/Ends.antt =====
-- The end of a call of swim_progress (src/swim/swim.c) without a timeout, as crt_swim_progress_cb
-- of src/cart/crt_swim.c makes it.
use cart.Prelude.{
  ℕ, zero, suc, ◌+◌, ◌≤◌, ◌<◌, ◌≡◌, refl, ◌∙◌, true, false, ◌||◌, none, some, List, [], ◌∷◌, ◌++◌,
  length, length-append, ltb, leb, ◌==◌, if◌then◌else◌, arith, Bool-cases, inl, inr, der_nonexist,
}
use std.Path.{subst}
use cart.Swim.{
  ContextState, scs_begin, scs_dpinged, scs_ipinged, scs_timedout, scs_acked, scs_dead, is_inactive,
  MemberState, Item, SwimContext, SwimOps, swim_id_invalid, etimedout, eintr,
}
use cart.Swim.Updates.{swim_updates_send}
use cart.Swim.Suspects.{
  swim_member_update_suspected, swim_ipings_update, subgroup_loop, swim_subgroup_init,
}
use cart.Swim.Progress.{
  Switched, stop, proceed, is_timedout, next_target, begin_case, dpinged_case, ipinged_case,
  ask_subgroup, timedout_with, timedout_case, switch, check_target, Round, returned, goes_on,
  send_round, progress_round, leave, progress_loop, swim_progress,
}
use cart.Swim.Verdicts.{Result-cases}
use cart.Swim.Frame.{
  swim_member_dead-Frame, swim_member_suspect-Frame, swim_updates_send-Frame,
  swim_member_update_suspected-Frame,
}
use cart.Swim.Rounds.{Round-cases}

-- How many rounds the loop goes on at most, whatever the clock says: by the state of the protocol
-- and the size of the subgroup.
abbrev rounds_left : ContextState → ℕ → ℕ
rounds_left scs_timedout n = if n == 0 then 2 else n
rounds_left scs_dpinged n = 3
rounds_left s n = 1

-- The subgroup is never larger than two, and the loop goes on for fewer rounds than before.
abbrev Nears : {M : Type 0} → (rounds : ℕ) → Switched M → Type 0
Nears rounds (stop ctx rc) = length ctx.sc_subgroup ≤ 2
Nears rounds (proceed ctx s send) =
    (length ctx.sc_subgroup ≤ 2)
    × ((if is_timedout s then rounds_left s (length ctx.sc_subgroup) else 0) < rounds)

module _ {M : Type 0} (ops : SwimOps M) where
  next_target-Nears :
      (ctx : SwimContext M) (rounds : ℕ)
      → length ctx.sc_subgroup ≤ 2
      → 0 < rounds
      → Nears rounds (next_target ops ctx)
  unfolding next_target
  next_target-Nears ctx rounds h k =
      elim (Bool-cases ((ops.get_dping_target ctx.sc_data ctx.sc_self).1 == swim_id_invalid)) [
        | inl e ↦ rw e h
        | inr e ↦ rw e (h, k)
      ]

  subgroup_loop-length :
      (n : ℕ) (ctx : SwimContext M)
      → length (subgroup_loop ops n ctx).0.sc_subgroup ≤ length ctx.sc_subgroup + n
  unfolding subgroup_loop
  subgroup_loop-length zero ctx = omega arith
  subgroup_loop-length (suc n) ctx =
      let (m, id) = ops.get_iping_target ctx.sc_data ctx.sc_self in
      elim (Bool-cases (id == swim_id_invalid)) [
        | inl e ↦ rw e (omega arith)
        | inr e ↦ rw e (elim (Bool-cases (ops.alloc m).1) [
          | inl got ↦
              let one : List Item = record { si_id = id; si_from = 0; u = 0 } ∷ [] in
              rw got (
                omega (
                  arith,
                  length-append ctx.sc_subgroup one,
                  subgroup_loop-length n (record ctx {
                    sc_data = (ops.alloc m).0;
                    sc_subgroup = ctx.sc_subgroup ++ one;
                  }),
                ))
          | inr full ↦ rw full (omega arith)
        ])
      ]

  ask_subgroup-Nears :
      (ctx : SwimContext M) (now : ℕ) (items : List Item)
      → length items ≤ 2
      → length ctx.sc_subgroup ≤ 2
      → Nears (rounds_left scs_timedout (length items)) (ask_subgroup ops ctx now items)
  unfolding ask_subgroup
  ask_subgroup-Nears ctx now [] h k = next_target-Nears ctx 2 k (omega arith)
  ask_subgroup-Nears ctx now (item ∷ []) h k = (omega arith, omega arith)
  ask_subgroup-Nears ctx now (item ∷ item' ∷ items) h k = (omega arith, ground arith)

  timedout_with-Nears :
      (ctx : SwimContext M) (now : ℕ) (items : List Item)
      → length items ≤ 2
      → length ctx.sc_subgroup ≡ length items
      → Nears (rounds_left scs_timedout (length items)) (timedout_with ops ctx now items)
  unfolding timedout_with swim_subgroup_init
  timedout_with-Nears ctx now [] h e =
      let init = swim_subgroup_init ops ctx in
      let small : length init.0.sc_subgroup ≤ 2 = omega (arith, subgroup_loop-length 2 ctx, e) in
      elim (Bool-cases (init.1 == 0)) [
        | inl z ↦ rw z (
            weaken _ (ask_subgroup ops init.0 now init.0.sc_subgroup) (ground arith)
              (ask_subgroup-Nears init.0 now init.0.sc_subgroup small small))
        | inr z ↦ rw z small
      ]
    where
      weaken : (a : ℕ) (s : Switched M) → a ≤ 2 → Nears a s → Nears 2 s
      weaken a (stop ctx rc) h n = n
      weaken a (proceed ctx s send) h n = (n.0, omega (arith, n.1))
  timedout_with-Nears ctx now (x ∷ xs) h e =
      ask_subgroup-Nears ctx now (x ∷ xs) h (omega (arith, e))

  switch-Nears :
      (ctx : SwimContext M) (now : ℕ) (s : ContextState) (st : MemberState)
      → length ctx.sc_subgroup ≤ 2
      → Nears (rounds_left s (length ctx.sc_subgroup)) (switch ops ctx now s st)
  unfolding switch timedout_case begin_case dpinged_case ipinged_case
  switch-Nears ctx now scs_begin st h = elim (Bool-cases (ltb ctx.sc_next_tick_time now)) [
    | inl e ↦ rw e (h, omega arith)
    | inr e ↦ rw e (h, omega arith)
  ]
  switch-Nears ctx now scs_dpinged st h =
      let f = swim_member_suspect-Frame ops ctx ctx.sc_self ctx.sc_target st.sms_incarnation in
      elim (Bool-cases (ltb ctx.sc_dping_deadline now)) [
        | inl e ↦ elim (Bool-cases (is_inactive st.sms_status)) [
          | inl i ↦ rw (e, i) (h, omega arith)
          | inr i ↦ rw (e, i, f.subgroup) (h, ground arith)
        ]
        | inr e ↦ rw e (h, omega arith)
      ]
  switch-Nears ctx now scs_ipinged st h =
      let f = swim_member_dead-Frame ops ctx ctx.sc_self ctx.sc_target st.sms_incarnation in
      elim (Bool-cases (ltb ctx.sc_iping_deadline now)) [
        | inl e ↦ rw (e, f.subgroup) (h, omega arith)
        | inr e ↦ rw e (h, omega arith)
      ]
  switch-Nears ctx now scs_timedout st h = timedout_with-Nears ctx now ctx.sc_subgroup h refl
  switch-Nears ctx now scs_acked st h = next_target-Nears ctx 1 h (omega arith)
  switch-Nears ctx now scs_dead st h = next_target-Nears ctx 1 h (omega arith)

  rounds_left-pos : (s : ContextState) (n : ℕ) → 0 < rounds_left s n
  rounds_left-pos scs_begin n = omega arith
  rounds_left-pos scs_dpinged n = omega arith
  rounds_left-pos scs_ipinged n = omega arith
  rounds_left-pos scs_timedout n = ground arith
  rounds_left-pos scs_acked n = omega arith
  rounds_left-pos scs_dead n = omega arith

  rounds_left-le : (s : ContextState) (n : ℕ) → n ≤ 2 → rounds_left s n ≤ 3
  rounds_left-le scs_begin n h = omega arith
  rounds_left-le scs_dpinged n h = omega arith
  rounds_left-le scs_ipinged n h = omega arith
  rounds_left-le scs_timedout n h = ground arith
  rounds_left-le scs_acked n h = omega arith
  rounds_left-le scs_dead n h = omega arith

  check_target-Nears :
      (ctx : SwimContext M) (now : ℕ)
      → length ctx.sc_subgroup ≤ 2
      → Nears (rounds_left ctx.sc_state (length ctx.sc_subgroup)) (check_target ops ctx now)
  unfolding check_target
  check_target-Nears ctx now h =
      let pos = rounds_left-pos ctx.sc_state (length ctx.sc_subgroup) in
      elim (Bool-cases (ctx.sc_target == swim_id_invalid)) [
        | inl e ↦ rw e (next_target-Nears ctx _ h pos)
        | inr e ↦ rw e (elim (Result-cases (ops.get_member_state ctx.sc_data ctx.sc_target)) [
          | inl (rc, gone) ↦
              rw (gone, check_target)
                (elim (Bool-cases (rc == der_nonexist)) [
                  | inl z ↦
                      rw z (next_target-Nears (record ctx { sc_target = swim_id_invalid }) _ h pos)
                  | inr z ↦ rw z h
                ])
          | inr (st, known) ↦ rw (known, check_target) (switch-Nears ctx now ctx.sc_state st h)
        ])
      ]

  -- The same at the end of a round.
  abbrev NearsRound : (rounds : ℕ) → Round ops → Type 0
  NearsRound rounds (returned ctx rc) = length ctx.sc_subgroup ≤ 2
  NearsRound rounds (goes_on ctx s) =
      (length ctx.sc_subgroup ≤ 2)
      × (ctx.sc_state ≡ s)
      × ((if is_timedout s then rounds_left s (length ctx.sc_subgroup) else 0) < rounds)

  send_round-Nears :
      (rounds : ℕ) (s : Switched M) → Nears rounds s → NearsRound rounds (send_round ops s)
  unfolding send_round
  send_round-Nears rounds (stop ctx rc) h = h
  send_round-Nears rounds (proceed ctx s none) h = (h.0, refl, h.1)
  send_round-Nears rounds (proceed ctx s (some (id, to))) h =
      let sent = swim_updates_send ops (record ctx { sc_state = s }) id to in
      let f = swim_updates_send-Frame ops (record ctx { sc_state = s }) id to in
      elim (Bool-cases (sent.1 == 0)) [
        | inl e ↦ rw (e, f.subgroup) (h.0, f.state, h.1)
        | inr e ↦ rw (e, f.subgroup) h.0
      ]

  progress_round-Nears :
      (ctx : SwimContext M) (now : ℕ)
      → length ctx.sc_subgroup ≤ 2
      → NearsRound (rounds_left ctx.sc_state (length ctx.sc_subgroup)) (progress_round ops ctx now)
  unfolding progress_round swim_ipings_update
  progress_round-Nears ctx now h =
      let ctx1 = (swim_member_update_suspected ops ctx now).0 in
      let f = swim_member_update_suspected-Frame ops ctx now in
      let small : length ctx1.sc_subgroup ≤ 2 = rw f.subgroup h in
      elim (Bool-cases ((swim_member_update_suspected ops ctx now).1 == 0)) [
        | inl e ↦ rw e (
            let ctx2 = (swim_ipings_update ops ctx1 now).0 in
            let near = check_target-Nears ctx2 now small in
            let same : rounds_left ctx2.sc_state (length ctx2.sc_subgroup)
                ≡ rounds_left ctx.sc_state (length ctx.sc_subgroup) =
              rw (f.state, f.subgroup) refl in
            let near' = subst (λ n. Nears n (check_target ops ctx2 now)) same near in
            send_round-Nears _ (check_target ops ctx2 now) near')
        | inr e ↦ rw e small
      ]

  progress_loop_exit :
      (fuel : ℕ) (ctx : SwimContext M) (now end : ℕ) (s : ContextState)
      → (leb now end || is_timedout s) ≡ false
      → progress_loop ops (suc fuel) ctx now end s
        ≡ some (leave ops ctx now (if ltb end now then etimedout else eintr))
  unfolding progress_loop
  progress_loop_exit fuel ctx now end s h = rw h refl

  progress_loop_more :
      (fuel : ℕ) (ctx ctx1 : SwimContext M) (now end : ℕ) (s s1 : ContextState)
      → (leb now end || is_timedout s) ≡ true
      → progress_round ops ctx now ≡ goes_on ctx1 s1
      → progress_loop ops (suc fuel) ctx now end s
        ≡ progress_loop ops fuel
            (record ctx1 { sc_data = (ops.now_ms ctx1.sc_data).0 })
            (ops.now_ms ctx1.sc_data).1
            end
            s1
  unfolding progress_loop
  progress_loop_more fuel ctx ctx1 now end s s1 h r = rw (h, r, progress_loop) refl

  -- With a round of fuel for each round that may be left, and one more, the loop ends.
  progress_loop-ends :
      (later : (m : M) → 0 < (ops.now_ms m).1) (fuel : ℕ) (ctx : SwimContext M) (now : ℕ)
      (s : ContextState)
      → 0 < now
      → length ctx.sc_subgroup ≤ 2
      → (if is_timedout s then rounds_left ctx.sc_state (length ctx.sc_subgroup) else 0) < fuel
      → (ctx' : SwimContext M) × (rc : ℕ) × (progress_loop ops fuel ctx now 0 s ≡ some (ctx', rc))
        × (length ctx'.sc_subgroup ≤ 2)
  unfolding progress_loop leave
  progress_loop-ends later zero ctx now s p h k = absurd (omega (arith, k))
  progress_loop-ends later (suc fuel) ctx now s p h k =
      let expired : leb now 0 ≡ false = ground arith in
      elim (Bool-cases (is_timedout s)) [
        | inl t ↦
            let near = progress_round-Nears ctx now h in
            let k' = rw t at k in
            elim (Round-cases (progress_round ops ctx now)) [
              | inl (ctx1, rc1, r) ↦ (
                (leave ops ctx1 now rc1).0,
                rc1,
                rw (expired, t, r, progress_loop) refl,
                rw r at near,
              )
              | inr (ctx1, s1, r) ↦
                  let (small, same, left) = rw r at near in
                  let (m, now') = ops.now_ms ctx1.sc_data in
                  let (ctx', rc, run, small') =
                    progress_loop-ends later fuel (record ctx1 { sc_data = m }) now' s1
                      (later ctx1.sc_data) small (rw same (omega (arith, left, k'))) in
                  let more : (leb now 0 || is_timedout s) ≡ true = rw (expired, t) refl in
                  (ctx', rc, progress_loop_more fuel ctx ctx1 now 0 s s1 more r ∙ run, small')
            ]
        | inr t ↦
            let over : (leb now 0 || is_timedout s) ≡ false = rw (expired, t) refl in
            ((leave ops ctx now etimedout).0, _, progress_loop_exit fuel ctx now 0 s over, h)
      ]

  -- A call of swim_progress with the timeout 0 returns, and comes to the head of its loop at most
  -- four times, whatever the callbacks answer, if the clock does not read 0 and the subgroup holds at
  -- most two members; and afterwards it still does.
  pub swim_progress-ends :
      (ctx : SwimContext M)
      → ((m : M) → 0 < (ops.now_ms m).1)
      → length ctx.sc_subgroup ≤ 2
      → (ctx' : SwimContext M) × (rc : ℕ) × (swim_progress ops 4 (some ctx) 0
          ≡ some (some ctx', rc))
        × (length ctx'.sc_subgroup ≤ 2)
  unfolding swim_progress
  swim_progress-ends ctx later h = elim (Bool-cases (ctx.sc_self == swim_id_invalid)) [
    | inl e ↦ (ctx, 0, rw (e, swim_progress) refl, h)
    | inr e ↦
        let (m, now) = ops.now_ms ctx.sc_data in
        let few = rounds_left-le ctx.sc_state (length ctx.sc_subgroup) h in
        let (ctx', rc, run, small) =
          progress_loop-ends later 4 (record ctx { sc_data = m }) now scs_timedout
            (later ctx.sc_data) h (omega (arith, few)) in
        (ctx', rc, rw (e, run, swim_progress) refl, small)
  ]
