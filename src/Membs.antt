-- ===== src/Membs.antt =====
-- The members of a group as SWIM sees them: the callbacks of src/cart/crt_swim.c over struct
-- crt_swim_membs of src/cart/crt_swim.h.
pub mod States
pub mod Targets
pub mod Ranks
pub mod Ring
pub mod Known
pub mod Tests
pub mod RankTests
use cart.Prelude.{
  ℕ, zero, suc, ◌+◌, ◌^◌, ◌-◌, Bool, true, false, ◌||◌, not, ◌&&◌, Option, none, some, List, [],
  ◌∷◌, length, get_elem?, ◌==◌, if◌then◌else◌, Result, ok, err, der_nonexist,
}
use cart.Swim.{
  Status, dead, is_alive, is_dead, is_inactive, u64, MemberState, MemberUpdate, SwimOps,
  swim_id_invalid,
}

-- struct crt_swim_target
pub record Target : Type 0 where
  pub cst_id : ℕ
  pub cst_state : MemberState

-- What the RPC layer makes of a message: its state, what crt_context_lookup, crt_req_create,
-- crt_req_set_timeout and crt_req_send return together, and whether it completed the request with an
-- error before crt_req_send returned.
pub record Sent (E : Type 0) : Type 0 where
  pub after : E
  pub rc : ℕ
  pub failed : Bool

-- What the callbacks and swim.c take from below: the RPC layer behind crt_swim_send_message, the
-- clock and the allocator. A message is sent with or without an acknowledgement.
pub record Below (E : Type 0) : Type 0 where
  pub send : E → (self to : ℕ) → (acked : Bool) → List MemberUpdate → Sent E
  pub now : E → E × ℕ
  pub alloc : E → E × Bool

-- struct crt_swim_membs with the size of the group: the circular list from its head on, and the
-- index of `csm_target` in it.
pub record CrtSwimMembs (E : Type 0) : Type 0 where
  pub csm_head : List Target
  pub csm_target : ℕ
  pub gp_size : ℕ
  pub below : E

unfoldable pub find_state : List Target → ℕ → Result MemberState
find_state [] id = err der_nonexist
find_state (x ∷ xs) id = if x.cst_id == id then ok x.cst_state else find_state xs id

unfoldable pub write_state : List Target → ℕ → MemberState → List Target
write_state [] id st = []
write_state (x ∷ xs) id st =
    if x.cst_id == id then record x { cst_state = st } ∷ xs else x ∷ write_state xs id st

unfoldable pub is_member : List Target → ℕ → Bool
is_member [] id = false
is_member (x ∷ xs) id = if x.cst_id == id then true else is_member xs id

-- D_CIRCLEQ_LOOP_NEXT, on indices
abbrev pub loop_next : (n i : ℕ) → ℕ
loop_next n i = if suc i == n then 0 else suc i

-- The loop of the two functions that select a target, with the rounds left; `skip` is what they
-- pass over. `csm_target` is not NULL.
unfoldable pub select : (skip : Target → Bool) → (rounds : ℕ) → List Target → ℕ → ℕ × ℕ
select skip zero ring i = (i, swim_id_invalid)
select skip (suc n) ring i =
    let next = loop_next (length ring) i in
    elim (get_elem? ring next) [
      | none ↦ (next, swim_id_invalid)
      | some t ↦ if skip t then select skip n ring next else (next, t.cst_id)
    ]

abbrev pub asks_ack : List MemberUpdate → Bool
asks_ack [] = false
asks_ack (u ∷ upds) = is_inactive u.smu_state.sms_status

module _ {E : Type 0} (b : Below E) where
  unfoldable pub crt_swim_get_member_state : CrtSwimMembs E → (id : ℕ) → Result MemberState
  crt_swim_get_member_state csm id = find_state csm.csm_head id

  -- The callbacks of the application that crt_swim_notify_rank_state runs are left out.
  unfoldable pub crt_swim_set_member_state :
      CrtSwimMembs E → (id : ℕ) → MemberState → CrtSwimMembs E × ℕ
  crt_swim_set_member_state csm id st = (
    record csm { csm_head = write_state csm.csm_head id st },
    if is_member csm.csm_head id then 0 else der_nonexist,
  )

  -- What crt_swim_cli_cb makes of the state of a member, if there is one
  unfoldable pub mark_dead : CrtSwimMembs E → (id : ℕ) → Result MemberState → CrtSwimMembs E
  mark_dead csm id (err e) = csm
  mark_dead csm id (ok st) =
      (crt_swim_set_member_state csm id
        (record { sms_incarnation = u64 (st.sms_incarnation + 1); sms_status = dead })).0

  unfoldable pub crt_swim_get_dping_target : CrtSwimMembs E → (self_id : ℕ) → CrtSwimMembs E × ℕ
  crt_swim_get_dping_target csm self_id =
      let r =
        select (λ t. t.cst_id == self_id || is_dead t.cst_state.sms_status) (suc csm.gp_size)
          csm.csm_head csm.csm_target in
      (record csm { csm_target = r.0 }, r.1)

  unfoldable pub crt_swim_get_iping_target : CrtSwimMembs E → (self_id : ℕ) → CrtSwimMembs E × ℕ
  crt_swim_get_iping_target csm self_id =
      let r =
        select (λ t. t.cst_id == self_id || not (is_alive t.cst_state.sms_status)) (suc csm.gp_size)
          csm.csm_head csm.csm_target in
      (record csm { csm_target = r.0 }, r.1)

  -- crt_swim_cli_cb, of a message to `id`
  unfoldable pub crt_swim_cli_cb :
      CrtSwimMembs E → (id : ℕ) → (failed acked : Bool) → CrtSwimMembs E
  crt_swim_cli_cb csm id failed acked =
      if failed && acked then mark_dead csm id (crt_swim_get_member_state csm id) else csm

  -- crt_swim_send_message; the first update says whether the message asks for an acknowledgement.
  unfoldable pub crt_swim_send_message :
      CrtSwimMembs E → (self to : ℕ) → List MemberUpdate → CrtSwimMembs E × ℕ
  crt_swim_send_message csm self to upds =
      let r = b.send csm.below self to (asks_ack upds) upds in
      (crt_swim_cli_cb (record csm { below = r.after }) to r.failed (asks_ack upds), r.rc)

  -- crt_swim_ops
  unfoldable pub crt_swim_ops : SwimOps (CrtSwimMembs E)
  crt_swim_ops = record {
    send_message = crt_swim_send_message;
    get_dping_target = crt_swim_get_dping_target;
    get_iping_target = crt_swim_get_iping_target;
    get_member_state = crt_swim_get_member_state;
    set_member_state = crt_swim_set_member_state;
    now_ms = λ csm. let r = b.now csm.below in (record csm { below = r.0 }, r.1);
    alloc = λ csm. let r = b.alloc csm.below in (record csm { below = r.0 }, r.1);
  }
