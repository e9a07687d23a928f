-- ===== src/Swim/Refutes.antt =====
-- The own state in swim_parse_message (src/swim/swim.c), and suspicions of our own.
use cart.Prelude.{
  ℕ, zero, suc, ◌+◌, ◌≡◌, ◌≢◌, refl, ap, sym, ◌∙◌, Bool, true, false, Option, none, some, List, [],
  ◌∷◌, All, ◌==◌, ltb, ok, arith, Bool-cases, Option-cases, inl, inr,
}
use cart.Swim.{
  Status, alive, suspect, dead, inactive, ContextState, MemberState, MemberUpdate, SwimContext,
  SwimOps, u64, swim_id_invalid,
}
use cart.Swim.Updates.{has_item, queue_update, set_state, swim_updates_notify, swim_updates_send}
use cart.Swim.Members.{
  ignores_alive, ignores_suspect, clear_suspect, add_suspect, swim_member_alive,
  swim_member_suspect,
}
use cart.Swim.Message.{
  hears_from, Parsed, self_suspected, parse_update, parse_updates, asker, forward, answer,
  send_loop, respond, swim_parse_message,
}
use cart.Swim.Laws.{SwimLaws, SameStates}
use cart.Swim.Verdicts.{Result-cases, queue_update_lem}
use cart.Swim.Replies.{parse_update-Step}
use cart.Swim.Detects.{send-SameStates, swim_member_dead-other}
use cart.Swim.Answers.{refuted}

module _ {M : Type 0} (ops : SwimOps M) (laws : SwimLaws ops) where
  notify-other :
      (ctx : SwimContext M) (from id q : ℕ) (st : MemberState)
      → q ≢ id
      → ops.get_member_state (swim_updates_notify ops ctx from id st).0.sc_data q
        ≡ ops.get_member_state ctx.sc_data q
  unfolding swim_updates_notify set_state
  notify-other ctx from id q st ne =
      let (_, same, _, _) = queue_update_lem ops laws ctx from id in
      laws.set_other (queue_update ops ctx from id).sc_data id q st ne ∙ same q

  clear_suspect-data :
      (ctx : SwimContext M) (id : ℕ) → (clear_suspect ops ctx id).sc_data ≡ ctx.sc_data
  unfolding clear_suspect
  clear_suspect-data ctx id = elim (Bool-cases (has_item id ctx.sc_suspects)) [
    | inl e ↦ rw e refl
    | inr e ↦ rw e refl
  ]

  swim_member_alive-other :
      (ctx : SwimContext M) (from id nr q : ℕ)
      → q ≢ id
      → ops.get_member_state (swim_member_alive ops ctx from id nr).0.sc_data q
        ≡ ops.get_member_state ctx.sc_data q
  unfolding swim_member_alive
  swim_member_alive-other ctx from id nr q ne =
      elim (Result-cases (ops.get_member_state ctx.sc_data id)) [
        | inl (e, unknown) ↦ rw (unknown, swim_member_alive) refl
        | inr (st, known) ↦
            rw (known, swim_member_alive)
              (elim (Bool-cases (ignores_alive st nr)) [
                | inl old ↦ rw old refl
                | inr new ↦ rw new (
                    notify-other (clear_suspect ops ctx id) from id q _ ne
                    ∙ ap (λ m. ops.get_member_state m q) (clear_suspect-data ctx id))
              ])
      ]

  add_suspect-SameStates :
      (ctx : SwimContext M) (from id : ℕ)
      → SameStates ops ctx.sc_data (add_suspect ops ctx from id).0.sc_data
  unfolding add_suspect
  add_suspect-SameStates ctx from id q = elim (Bool-cases (has_item id ctx.sc_suspects)) [
    | inl e ↦ rw e refl
    | inr e ↦ rw e (elim (Bool-cases (ops.alloc ctx.sc_data).1) [
      | inl got ↦
          rw got (laws.now_keeps (ops.alloc ctx.sc_data).0 q ∙ laws.alloc_keeps ctx.sc_data q)
      | inr full ↦ rw full (laws.alloc_keeps ctx.sc_data q)
    ])
  ]

  swim_member_suspect-other :
      (ctx : SwimContext M) (from id nr q : ℕ)
      → q ≢ id
      → ops.get_member_state (swim_member_suspect ops ctx from id nr).0.sc_data q
        ≡ ops.get_member_state ctx.sc_data q
  unfolding swim_member_suspect
  swim_member_suspect-other ctx from id nr q ne =
      let added = add_suspect-SameStates ctx from id q in
      elim (Result-cases (ops.get_member_state ctx.sc_data id)) [
        | inl (e, unknown) ↦ rw (unknown, swim_member_suspect) refl
        | inr (st, known) ↦
            rw (known, swim_member_suspect)
              (elim (Bool-cases (ignores_suspect st nr)) [
                | inl old ↦ rw old refl
                | inr new ↦ rw new (elim (Bool-cases (add_suspect ops ctx from id).1) [
                  | inl listed ↦
                      rw listed
                        (notify-other (add_suspect ops ctx from id).0 from id q _ ne ∙ added)
                  | inr full ↦ rw full added
                ])
              ])
      ]

  -- An update about another member leaves the own state alone, and the call goes on.
  parse_update-own :
      (ctx : SwimContext M) (s : ContextState) (from id nr : ℕ) (status : Status)
      → id ≢ ctx.sc_self
      → (ops.get_member_state (parse_update ops ctx s from id nr status).ctx.sc_data ctx.sc_self
          ≡ ops.get_member_state ctx.sc_data ctx.sc_self)
        × ((parse_update ops ctx s from id nr status).halted ≡ none)
  unfolding parse_update
  parse_update-own ctx s from id nr inactive ne = (refl, refl)
  parse_update-own ctx s from id nr alive ne =
      let test : (id == ctx.sc_self) ≡ false = ground arith in
      rw test (swim_member_alive-other ctx from id nr ctx.sc_self (λ e. ne (sym e)), refl)
  parse_update-own ctx s from id nr suspect ne =
      let test : (id == ctx.sc_self) ≡ false = ground arith in
      rw test (swim_member_suspect-other ctx from id nr ctx.sc_self (λ e. ne (sym e)), refl)
  parse_update-own ctx s from id nr dead ne =
      let test : (id == ctx.sc_self) ≡ false = ground arith in
      rw test (swim_member_dead-other ops laws ctx from id nr ctx.sc_self (λ e. ne (sym e)), refl)

  parse_updates-own :
      (self : ℕ) (ctx : SwimContext M) (s : ContextState) (from : ℕ) (upds : List MemberUpdate)
      → ctx.sc_self ≡ self
      → All (λ u. u.smu_id ≢ self) upds
      → (ops.get_member_state (parse_updates ops ctx s from upds).ctx.sc_data self
          ≡ ops.get_member_state ctx.sc_data self)
        × ((parse_updates ops ctx s from upds).halted ≡ none)
        × ((parse_updates ops ctx s from upds).ctx.sc_self ≡ self)
  unfolding parse_updates
  parse_updates-own self ctx s from [] me others = (refl, refl, me)
  parse_updates-own self ctx s from (upd ∷ upds) me others =
      let p =
        parse_update ops ctx s from upd.smu_id upd.smu_state.sms_incarnation
          upd.smu_state.sms_status in
      let step =
        parse_update-Step ops laws ctx s from upd.smu_id upd.smu_state.sms_incarnation
          upd.smu_state.sms_status in
      let (same, goes) =
        parse_update-own ctx s from upd.smu_id upd.smu_state.sms_incarnation
          upd.smu_state.sms_status (λ e. others.0 (e ∙ me)) in
      let (same', goes', me') =
        parse_updates-own self p.ctx p.ctx_state from upds (step.self ∙ me) others.1 in
      rw (goes, parse_updates) (same' ∙ rw (← me) same, goes', me')

  -- A suspicion of our own
  self_suspected_lem :
      (ctx : SwimContext M) (nr : ℕ) (st : MemberState)
      → ops.get_member_state ctx.sc_data ctx.sc_self ≡ ok st
      → (ops.get_member_state (self_suspected ops ctx nr).0.sc_data ctx.sc_self
          ≡ ok (refuted nr st))
        × ((self_suspected ops ctx nr).1 ≡ none)
        × ((self_suspected ops ctx nr).0.sc_self ≡ ctx.sc_self)
  unfolding self_suspected swim_updates_notify set_state
  self_suspected_lem ctx nr st known =
      let new : MemberState = record st { sms_incarnation = u64 (st.sms_incarnation + 1) } in
      let (me, same, _, _) = queue_update_lem ops laws ctx ctx.sc_self ctx.sc_self in
      let m = (queue_update ops ctx ctx.sc_self ctx.sc_self).sc_data in
      let known' = same ctx.sc_self ∙ known in
      elim (Bool-cases (ltb nr st.sms_incarnation)) [
        | inl old ↦ rw (known, self_suspected, old) (known, refl, refl)
        | inr late ↦
            rw (known, self_suspected, late)
              (
                laws.set_same m ctx.sc_self st new known',
                rw (laws.set_succeeds m ctx.sc_self st new known') refl,
                me,
              )
      ]

  forward-data : (ctx : SwimContext M) (from : ℕ) → (forward ops ctx from).0.sc_data ≡ ctx.sc_data
  unfolding forward
  forward-data ctx from = elim (Option-cases (asker ops from ctx.sc_ipings)) [
    | inl e ↦ rw (e, forward) refl
    | inr (origin, e) ↦ rw (e, forward) refl
  ]

  send_loop-SameStates :
      (rounds : ℕ) (ctx : SwimContext M) (from : ℕ) (response : Bool) (send : Option (ℕ × ℕ))
      (rc : ℕ)
      → SameStates ops ctx.sc_data (send_loop ops rounds ctx from response send rc).0.sc_data
  unfolding send_loop
  send_loop-SameStates zero ctx from response none rc q = refl
  send_loop-SameStates (suc rounds) ctx from response none rc q = refl
  send_loop-SameStates zero ctx from response (some (id, to)) rc q = refl
  send_loop-SameStates (suc rounds) ctx from true (some (id, to)) rc q =
      let ctx1 = (swim_updates_send ops ctx id to).0 in
      send_loop-SameStates rounds (forward ops ctx1 from).0 from true _ _ q
      ∙ ap (λ m. ops.get_member_state m q) (forward-data ctx1 from)
      ∙ send-SameStates ops laws ctx id to q
  send_loop-SameStates (suc rounds) ctx from false (some (id, to)) rc q =
      send_loop-SameStates rounds (swim_updates_send ops ctx id to).0 from false none 0 q
      ∙ send-SameStates ops laws ctx id to q

  -- The answer to a message sets no state.
  respond-own :
      (p : Parsed M) (from self : ℕ) (s : Status)
      → p.halted ≡ none
      → p.ctx.sc_self ≡ self
      → SameStates ops p.ctx.sc_data (respond ops p from self s).0.sc_data
  unfolding respond answer
  respond-own p from self s goes me q =
      let test : (self == p.ctx.sc_self) ≡ true = ground arith in
      rw (goes, respond, test)
        (send_loop-SameStates _ (record p.ctx { sc_state = p.ctx_state }) from _ _ 0 q)

  parse_update-suspicion :
      (ctx : SwimContext M) (s : ContextState) (from nr : ℕ)
      → parse_update ops ctx s from ctx.sc_self nr suspect ≡ record {
        ctx = (self_suspected ops ctx nr).0;
        ctx_state = s;
        halted = (self_suspected ops ctx nr).1;
      }
  unfolding parse_update
  parse_update-suspicion ctx s from nr =
      let me : (ctx.sc_self == ctx.sc_self) ≡ true = ground arith in rw me refl

  parse_suspicion :
      (ctx : SwimContext M) (s : ContextState) (from nr : ℕ) (upds : List MemberUpdate)
      → (self_suspected ops ctx nr).1 ≡ none
      → parse_updates ops ctx s from (
          record {
            smu_id = ctx.sc_self;
            smu_state = record { sms_incarnation = nr; sms_status = suspect };
          }
          ∷ upds)
        ≡ parse_updates ops (self_suspected ops ctx nr).0 s from upds
  unfolding parse_updates
  parse_suspicion ctx s from nr upds goes =
      let first = parse_update-suspicion ctx s from nr in
      rw (first, goes, parse_updates) (rw first refl)

  -- With callbacks that keep the laws: a member that is known to itself and gets a message whose
  -- first update says that it is suspected, in an incarnation that is not behind its own, goes on
  -- to its next incarnation, modulo 2 ^ 64, with the same status; in an incarnation that is
  -- behind, it keeps its state. The updates behind the first are about others here.
  pub suspicion_refuted :
      (ctx : SwimContext M) (from nr : ℕ) (st : MemberState) (upds : List MemberUpdate)
      → ctx.sc_self ≢ swim_id_invalid
      → ops.get_member_state ctx.sc_data ctx.sc_self ≡ ok st
      → All (λ u. u.smu_id ≢ ctx.sc_self) upds
      → ops.get_member_state
          (swim_parse_message ops ctx from (
            record {
              smu_id = ctx.sc_self;
              smu_state = record { sms_incarnation = nr; sms_status = suspect };
            }
            ∷ upds)).0.sc_data
          ctx.sc_self
        ≡ ok (refuted nr st)
  unfolding swim_parse_message
  suspicion_refuted ctx from nr st upds set known others =
      let self = ctx.sc_self in
      let valid : (self == swim_id_invalid) ≡ false = ground arith in
      let s = hears_from ctx.sc_target from ctx.sc_state in
      let (new, goes, same) = self_suspected_lem ctx nr st known in
      let (kept, goes', same') =
        parse_updates-own self (self_suspected ops ctx nr).0 s from upds same others in
      let p = parse_updates ops (self_suspected ops ctx nr).0 s from upds in
      rw (valid, parse_suspicion ctx s from nr upds goes)
        (respond-own p from self suspect goes' same' self ∙ kept ∙ new)
