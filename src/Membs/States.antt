-- ===== src/Membs/States.antt =====
-- The states that the callbacks of src/cart/crt_swim.c read and set, and the laws of swim.c.
use native.Mathlib.Decide.{ℕ_discrete}
use cart.Prelude.{
  ◌+◌, Bool, ◌&&◌, if◌then◌else◌, Result, err, ap, sym, ◌∙◌, ℕ, ◌≡◌, ◌≢◌, refl, true, false, List,
  [], ◌∷◌, ◌==◌, ok, arith, Bool-cases, inl, inr,
}
use cart.Swim.{dead, u64, MemberState, MemberUpdate}
use cart.Swim.Verdicts.{Result-cases}
use cart.Swim.Laws.{SwimLaws}
use cart.Membs.{
  Target, Below, find_state, write_state, is_member, crt_swim_get_member_state,
  crt_swim_set_member_state, crt_swim_get_dping_target, crt_swim_get_iping_target, crt_swim_ops,
  CrtSwimMembs, mark_dead, asks_ack, crt_swim_cli_cb, crt_swim_send_message,
}

is_member-known :
    (xs : List Target) (id : ℕ) (old : MemberState)
    → find_state xs id ≡ ok old
    → is_member xs id ≡ true
unfolding find_state is_member
is_member-known [] id old h = absurd (cc h)
is_member-known (x ∷ xs) id old h = elim (Bool-cases (x.cst_id == id)) [
  | inl e ↦ rw e refl
  | inr e ↦ rw e (is_member-known xs id old (rw e at h))
]

find_state-same :
    (xs : List Target) (id : ℕ) (old st : MemberState)
    → find_state xs id ≡ ok old
    → find_state (write_state xs id st) id ≡ ok st
unfolding find_state write_state
find_state-same [] id old st h = absurd (cc h)
find_state-same (x ∷ xs) id old st h = elim (Bool-cases (x.cst_id == id)) [
  | inl e ↦ rw e (rw e refl)
  | inr e ↦ rw e (rw e (find_state-same xs id old st (rw e at h)))
]

find_state-other :
    (xs : List Target) (id q : ℕ) (st : MemberState)
    → q ≢ id
    → find_state (write_state xs id st) q ≡ find_state xs q
unfolding find_state write_state
find_state-other [] id q st ne = refl
find_state-other (x ∷ xs) id q st ne =
    let ih = find_state-other xs id q st ne in
    elim (Bool-cases (x.cst_id == id)) [
      | inl e ↦ let test : (x.cst_id == q) ≡ false = ground arith in rw e (rw test refl)
      | inr e ↦ rw e (rw ih refl)
    ]

-- What is known of a member whose message failed: it is DEAD at the next incarnation.
abbrev pub next_dead : Result MemberState → Result MemberState
next_dead (err e) = err e
next_dead (ok st) =
    ok (record { sms_incarnation = u64 (st.sms_incarnation + 1); sms_status = dead })

abbrev pub get_state : {E : Type 0} → Below E → CrtSwimMembs E → ℕ → Result MemberState
get_state b csm q = (crt_swim_ops b).get_member_state csm q

-- What the callbacks do to the states: one sets a state, and a message may fail while it is sent.
pub record Callbacks {E : Type 0} (b : Below E) : Type 0 where
  pub set_succeeds :
      (csm : CrtSwimMembs E) (id : ℕ) (old st : MemberState)
      → get_state b csm id ≡ ok old
      → ((crt_swim_ops b).set_member_state csm id st).1 ≡ 0
  pub set_same :
      (csm : CrtSwimMembs E) (id : ℕ) (old st : MemberState)
      → get_state b csm id ≡ ok old
      → get_state b ((crt_swim_ops b).set_member_state csm id st).0 id ≡ ok st
  pub set_other :
      (csm : CrtSwimMembs E) (id q : ℕ) (st : MemberState)
      → q ≢ id
      → get_state b ((crt_swim_ops b).set_member_state csm id st).0 q ≡ get_state b csm q
  pub send_states :
      (csm : CrtSwimMembs E) (self to q : ℕ) (upds : List MemberUpdate)
      → get_state b ((crt_swim_ops b).send_message csm self to upds).0 q ≡ (
          if ((b.send csm.below self to (asks_ack upds) upds).failed && asks_ack upds) && q == to
          then next_dead (get_state b csm q)
          else get_state b csm q)
  pub dping_keeps :
      (csm : CrtSwimMembs E) (self q : ℕ)
      → get_state b ((crt_swim_ops b).get_dping_target csm self).0 q ≡ get_state b csm q
  pub iping_keeps :
      (csm : CrtSwimMembs E) (self q : ℕ)
      → get_state b ((crt_swim_ops b).get_iping_target csm self).0 q ≡ get_state b csm q
  pub now_keeps :
      (csm : CrtSwimMembs E) (q : ℕ)
      → get_state b ((crt_swim_ops b).now_ms csm).0 q ≡ get_state b csm q
  pub alloc_keeps :
      (csm : CrtSwimMembs E) (q : ℕ)
      → get_state b ((crt_swim_ops b).alloc csm).0 q ≡ get_state b csm q

-- crt_swim_cli_cb of a message with an acknowledgement that failed
mark_dead-state :
    {E : Type 0} (b : Below E) (csm : CrtSwimMembs E) (to q : ℕ)
    → find_state (mark_dead b csm to (find_state csm.csm_head to)).csm_head q
      ≡ (if q == to then next_dead (find_state csm.csm_head q) else find_state csm.csm_head q)
unfolding mark_dead crt_swim_set_member_state
mark_dead-state b csm to q =
    let head = csm.csm_head in
    elim (Result-cases (find_state head to)) [
      | inl (e, gone) ↦
          rw (gone, mark_dead)
            (elim (ℕ_discrete q to) [
              | yes s ↦
                  let test : (q == to) ≡ true = ground arith in
                  let here : find_state head q ≡ err e = ap (find_state head) s ∙ gone in
                  rw test (here ∙ ap next_dead (sym here))
              | no ne ↦ let test : (q == to) ≡ false = ground arith in rw test refl
            ])
      | inr (st, known) ↦
          let new : MemberState = record {
            sms_incarnation = u64 (st.sms_incarnation + 1);
            sms_status = dead;
          } in
          rw (known, mark_dead)
            (elim (ℕ_discrete q to) [
              | yes s ↦
                  let test : (q == to) ≡ true = ground arith in
                  let here : find_state head q ≡ ok st = ap (find_state head) s ∙ known in
                  rw test (
                    ap (find_state (write_state head to new)) s
                    ∙ find_state-same head to st new known
                    ∙ ap next_dead (sym here))
              | no ne ↦
                  let test : (q == to) ≡ false = ground arith in
                  rw test (find_state-other head to q new ne)
            ])
    ]

pub crt_swim_ops-Callbacks : {E : Type 0} (b : Below E) → Callbacks b
unfolding crt_swim_ops crt_swim_get_member_state crt_swim_set_member_state crt_swim_get_dping_target
    crt_swim_get_iping_target crt_swim_send_message crt_swim_cli_cb
crt_swim_ops-Callbacks b = record {
  set_succeeds = λ m id old st h. rw (is_member-known m.csm_head id old h) refl;
  set_same = λ m id old st h. find_state-same m.csm_head id old st h;
  set_other = λ m id q st ne. find_state-other m.csm_head id q st ne;
  send_states = λ m self to q upds.
      let r = b.send m.below self to (asks_ack upds) upds in
      elim (Bool-cases (r.failed && asks_ack upds)) [
        | inl e ↦ rw e (mark_dead-state b (record m { below = r.after }) to q)
        | inr e ↦ rw e refl
      ];
  dping_keeps = λ m self q. refl;
  iping_keeps = λ m self q. refl;
  now_keeps = λ m q. refl;
  alloc_keeps = λ m q. refl;
}

-- Where no message fails while it is sent, the callbacks keep the laws that the theorems on swim.c
-- rely on.
pub crt_swim_ops-SwimLaws :
    {E : Type 0} (b : Below E)
    → ((e : E) (self to : ℕ) (upds : List MemberUpdate)
        → (b.send e self to (asks_ack upds) upds).failed ≡ false)
    → SwimLaws (crt_swim_ops b)
crt_swim_ops-SwimLaws b quiet =
    let c = crt_swim_ops-Callbacks b in
    record {
      set_succeeds = c.set_succeeds;
      set_same = c.set_same;
      set_other = c.set_other;
      send_keeps = λ m self to upds q.
          c.send_states m self to q upds
          ∙ ap
              (λ (f : Bool).
                if (f && asks_ack upds) && q == to
                then next_dead (get_state b m q)
                else get_state b m q)
              (quiet m.below self to upds);
      dping_keeps = c.dping_keeps;
      iping_keeps = c.iping_keeps;
      now_keeps = c.now_keeps;
      alloc_keeps = c.alloc_keeps;
    }
