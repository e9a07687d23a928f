-- ===== src/Membs/Tests.antt =====
-- Groups of three members at concrete inputs (src/cart/crt_swim.c, src/swim/swim.c), and the
-- theorems at such inputs.
use cart.Prelude.{
  false, ◌++◌, ℕ, ◌≤◌, ◌<◌, ◌≡◌, ◌≢◌, refl, true, some, List, [], ◌∷◌, All, count, length,
  get_elem?, ok, arith,
}
use cart.Swim.{
  Status, alive, suspect, dead, is_alive, MemberState, MemberUpdate, Item, scs_begin, scs_dpinged,
  SwimContext, SwimOps,
}
use cart.Swim.Laws.{SwimLaws}
use cart.Swim.Updates.{swim_updates_send, queue_update, set_state, swim_updates_notify}
use cart.Swim.Members.{
  ignores_dead, ignores_suspect, add_suspect, swim_member_dead, swim_member_suspect,
}
use cart.Swim.Suspects.{
  expire, suspect_round, suspect_loop, confirm, swim_member_update_suspected, swim_ipings_update,
  subgroup_loop, swim_subgroup_init,
}
use cart.Swim.Progress.{
  next_target, dpinged_case, ask_subgroup, timedout_with, timedout_case, switch, check_target,
  send_round, progress_round, leave, progress_loop, swim_progress,
}
use cart.Swim.Message.{parse_update, parse_updates, swim_parse_message}
use cart.Swim.Items.{ids}
use cart.Swim.Steps.{IsConsistent, Step}
use cart.Swim.Rounds.{swim_progress-Step}
use cart.Swim.Replies.{swim_parse_message-Step}
use cart.Swim.Told.{visited, told, remaining}
use cart.Swim.Sends.{own_update, IsMessage, swim_updates_send-IsMessage}
use cart.Swim.Ends.{swim_progress-ends}
use cart.Swim.Detects.{expires, expired, update_suspected-member}
use cart.Swim.Answers.{refuted, response_answers_all}
use cart.Swim.Refutes.{suspicion_refuted}
use cart.Membs.{
  Target, Below, CrtSwimMembs, find_state, write_state, is_member, select,
  crt_swim_set_member_state, crt_swim_get_member_state, crt_swim_get_dping_target,
  crt_swim_get_iping_target, crt_swim_ops,
}
use cart.Membs.States.{crt_swim_ops-SwimLaws}
use cart.Membs.Targets.{IsSelected, skips_dping, dping_target_found, iping_target_alive}

-- A clock that stands at 9000, memory without end, and messages that are kept.
abbrev below : Below (List MemberUpdate)
below = record {
  send = λ e self to acked upds. record { after = upds; rc = 0; failed = false };
  now = λ e. (e, 9000);
  alloc = λ e. (e, true);
}

abbrev ops : SwimOps (CrtSwimMembs (List MemberUpdate))
ops = crt_swim_ops below

abbrev state : ℕ → Status → MemberState
state n s = record { sms_incarnation = n; sms_status = s }

abbrev membs : CrtSwimMembs (List MemberUpdate)
membs = record {
  csm_head =
      record { cst_id = 1; cst_state = state 0 alive }
      ∷ record { cst_id = 2; cst_state = state 4 suspect }
      ∷ record { cst_id = 3; cst_state = state 7 alive }
      ∷ [];
  csm_target = 0;
  gp_size = 3;
  below = [];
}

-- The first member, which suspects the second itself, and in vain waited for the third.
abbrev context : SwimContext (CrtSwimMembs (List MemberUpdate))
context = record {
  sc_data = membs;
  sc_subgroup = [];
  sc_suspects = record { si_id = 2; si_from = 1; u = 8000 } ∷ [];
  sc_updates = record { si_id = 2; si_from = 1; u = 50 } ∷ [];
  sc_ipings = record { si_id = 3; si_from = 2; u = 9500 } ∷ [];
  sc_state = scs_dpinged;
  sc_target = 3;
  sc_self = 1;
  sc_expect_progress_time = 0;
  sc_next_tick_time = 0;
  sc_dping_deadline = 8500;
  sc_iping_deadline = 0;
  sc_piggyback_tx_max = 50;
  swim_ping_timeout = 800;
}

context-IsConsistent : IsConsistent ops context
unfolding crt_swim_ops crt_swim_get_member_state find_state
context-IsConsistent = record {
  suspects_once = λ q. ground arith;
  updates_once = λ q. ground arith;
  suspected = λ q st known. ground (arith, known);
}

laws : SwimLaws ops
laws = crt_swim_ops-SwimLaws below (λ e self to upds. refl)

later : (m : CrtSwimMembs (List MemberUpdate)) → 0 < (ops.now_ms m).1
unfolding crt_swim_ops
later m = omega arith

swim_progress-ends_example :
    (ctx' : SwimContext (CrtSwimMembs (List MemberUpdate))) × (rc : ℕ) × (swim_progress ops 4
        (some context)
        0
      ≡ some (some ctx', rc))
    × (length ctx'.sc_subgroup ≤ 2)
swim_progress-ends_example = swim_progress-ends ops context later (omega arith)

-- After a call without a timeout the second member is dead, and the third is suspected; it is the
-- next target again, since no one is left that could ping it for us.
abbrev progressed : SwimContext (CrtSwimMembs (List MemberUpdate))
progressed = record context {
  sc_data = record membs {
    csm_head =
        record { cst_id = 1; cst_state = state 0 alive }
        ∷ record { cst_id = 2; cst_state = state 4 dead }
        ∷ record { cst_id = 3; cst_state = state 7 suspect }
        ∷ [];
    csm_target = 2;
  };
  sc_suspects = record { si_id = 3; si_from = 1; u = 16200 } ∷ [];
  sc_updates =
      record { si_id = 3; si_from = 1; u = 0 } ∷ record { si_id = 2; si_from = 1; u = 0 } ∷ [];
  sc_state = scs_begin;
  sc_expect_progress_time = 10200;
}

progress_run : swim_progress ops 4 (some context) 0 ≡ some (some progressed, 110)
unfolding crt_swim_ops crt_swim_get_member_state crt_swim_set_member_state crt_swim_get_dping_target
    crt_swim_get_iping_target find_state write_state is_member select swim_progress progress_loop
    progress_round leave send_round check_target switch dpinged_case timedout_case timedout_with
    ask_subgroup next_target swim_subgroup_init subgroup_loop swim_ipings_update
    swim_member_update_suspected suspect_loop suspect_round expire confirm swim_member_dead
    ignores_dead swim_member_suspect ignores_suspect add_suspect swim_updates_notify queue_update
    set_state
progress_run = refl

swim_progress-Step_example : Step ops context progressed
swim_progress-Step_example = swim_progress-Step ops laws 4 context 0 progressed 110 progress_run

swim_parse_message-Step_example :
    Step ops context
      (swim_parse_message ops context 3 (record { smu_id = 3; smu_state = state 7 alive } ∷ [])).0
swim_parse_message-Step_example =
    swim_parse_message-Step ops laws context 3
      (record { smu_id = 3; smu_state = state 7 alive } ∷ [])

swim_updates_send-IsMessage_example :
    (upds : List MemberUpdate) × (left : List Item) × (swim_updates_send ops context 3 3 ≡ (
      record context {
        sc_updates = left;
        sc_data = (ops.send_message (ops.alloc context.sc_data).0 1 3 upds).0;
      },
      (ops.send_message (ops.alloc context.sc_data).0 1 3 upds).1,
    ))
    × IsMessage (ops.get_member_state (ops.alloc context.sc_data).0) 3 1 upds
    × All (λ item. item.u ≤ 50) left
    × (let get = ops.get_member_state (ops.alloc context.sc_data).0 in
        let items = visited get 3 1 8 context.sc_updates in
        (upds
          ≡ record { smu_id = 3; smu_state = state 7 alive } ∷ own_update 3 1 (state 0 alive)
            ++ told get 3 1 items)
        × (left ≡ remaining get 3 1 50 items))
unfolding crt_swim_ops crt_swim_get_member_state find_state
swim_updates_send-IsMessage_example =
    swim_updates_send-IsMessage ops context 3 3 (state 7 alive) (state 0 alive) context-IsConsistent
      (omega arith) (omega arith) refl refl refl (λ q e h. ground (arith, h))

update_suspected-member_example :
    ops.get_member_state (swim_member_update_suspected ops context 9000).0.sc_data 2
    ≡ ok (expired (expires 1 9000 2 context.sc_suspects) (state 4 suspect))
unfolding crt_swim_ops crt_swim_get_member_state find_state
update_suspected-member_example =
    update_suspected-member ops laws context 9000 2 (state 4 suspect) context-IsConsistent refl

-- The suspicion of the second member has run out.
second_expires : expires 1 9000 2 context.sc_suspects ≡ true
second_expires = refl

response_answers_all_example :
    count 3 (
      ids
        (swim_parse_message ops context 3
          (record { smu_id = 3; smu_state = state 7 alive } ∷ [])).0.sc_ipings)
    ≡ 0
unfolding parse_updates parse_update
response_answers_all_example =
    response_answers_all ops laws context 3 (state 7 alive) [] (omega arith) refl (omega arith)

suspicion_refuted_example :
    ops.get_member_state
      (swim_parse_message ops context 3 (
        record { smu_id = 1; smu_state = state 0 suspect }
        ∷ record { smu_id = 3; smu_state = state 7 alive }
        ∷ [])).0.sc_data
      1
    ≡ ok (refuted 0 (state 0 alive))
unfolding crt_swim_ops crt_swim_get_member_state find_state
suspicion_refuted_example =
    suspicion_refuted ops laws context 3 0 (state 0 alive)
      (record { smu_id = 3; smu_state = state 7 alive } ∷ []) (omega arith) refl (omega arith, tt)

dping_target_found_example :
    IsSelected (skips_dping below 1) membs.csm_head (
      (crt_swim_get_dping_target below membs 1).0.csm_target,
      (crt_swim_get_dping_target below membs 1).1,
    )
    × ((crt_swim_get_dping_target below membs 1).0.csm_head ≡ membs.csm_head)
dping_target_found_example =
    dping_target_found below membs 1 2 (record { cst_id = 3; cst_state = state 7 alive })
      (omega arith) (omega arith) (omega arith) refl refl

iping_target_alive_example :
    (t : Target) × (get_elem? membs.csm_head (crt_swim_get_iping_target below membs 1).0.csm_target
      ≡ some t)
    × (is_alive t.cst_state.sms_status ≡ true)
    × (t.cst_id ≢ 1)
    × (t.cst_id ≡ (crt_swim_get_iping_target below membs 1).1)
unfolding crt_swim_get_iping_target select
iping_target_alive_example = iping_target_alive below membs 1 (omega arith)

-- A layer below that fails every message while it sends it
abbrev broken : Below (List MemberUpdate)
broken = record {
  send = λ e self to acked upds. record { after = upds; rc = 0; failed = true };
  now = λ e. (e, 9000);
  alloc = λ e. (e, true);
}
