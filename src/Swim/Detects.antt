-- ===== src/Swim/Detects.antt =====
-- The end of a suspicion (src/swim/swim.c): the members that swim_member_update_suspected declares
-- dead.
use cart.Prelude.{
  ℕ, ◌+◌, ◌≤◌, ◌≡◌, ◌≢◌, refl, ap, sym, ◌∙◌, Bool, true, false, ◌&&◌, ◌||◌, List, [], ◌∷◌, count,
  ◌==◌, ltb, if◌then◌else◌, ok, arith, Bool-cases, inl, inr,
}
use native.Mathlib.Decide.{ℕ_discrete}
use cart.Swim.{dead, is_dead, is_suspect, MemberState, Item, SwimContext, SwimOps, swim_id_invalid}
use cart.Swim.Updates.{
  remove_first, allocate, gather, first_updates, max_updates, send_gathered, queue_update,
  set_state, swim_updates_notify, swim_updates_send,
}
use cart.Swim.Members.{ignores_dead, swim_member_dead}
use cart.Swim.Suspects.{
  Walk, ask_origin, expire, suspect_round, suspect_loop, confirm, swim_member_update_suspected,
}
use cart.Swim.Items.{ids, count-ids-append, has_item-count}
use cart.Swim.Laws.{SwimLaws, SameStates}
use cart.Swim.Steps.{IsConsistent}
use cart.Swim.Verdicts.{Result-cases, queue_update_lem}
use cart.Swim.Timeouts.{Suffix, suspect_round-Visited}

-- Whether a suspicion that is our own has run out for this member.
abbrev pub expires : (self now q : ℕ) → List Item → Bool
expires self now q [] = false
expires self now q (x ∷ xs) =
    if x.si_id == q && ltb x.u now && x.si_from == self then true else expires self now q xs

-- The state of a member after that.
abbrev pub expired : Bool → MemberState → MemberState
expired b st = if b then record st { sms_status = dead } else st

no_expiry : (self now q : ℕ) (xs : List Item) → count q (ids xs) ≡ 0 → expires self now q xs ≡ false
no_expiry self now q [] h = refl
no_expiry self now q (x ∷ xs) h = ground (arith, no_expiry self now q xs)

module _ {M : Type 0} (ops : SwimOps M) (laws : SwimLaws ops) where
  pub swim_member_dead-other :
      (ctx : SwimContext M) (from id nr q : ℕ)
      → q ≢ id
      → ops.get_member_state (swim_member_dead ops ctx from id nr).0.sc_data q
        ≡ ops.get_member_state ctx.sc_data q
  unfolding swim_member_dead swim_updates_notify set_state
  swim_member_dead-other ctx from id nr q ne =
      elim (Result-cases (ops.get_member_state ctx.sc_data id)) [
        | inl (e, unknown) ↦ rw (unknown, swim_member_dead) refl
        | inr (st, known) ↦
            rw (known, swim_member_dead)
              (elim (Bool-cases (ignores_dead st nr)) [
                | inl old ↦ rw old refl
                | inr new ↦
                    let ctx' : SwimContext M = record ctx {
                      sc_suspects = remove_first id ctx.sc_suspects;
                    } in
                    let (_, same, _, _) = queue_update_lem ops laws ctx' from id in
                    rw new
                      (laws.set_other (queue_update ops ctx' from id).sc_data id q _ ne ∙ same q)
              ])
      ]

  swim_member_dead-same :
      (ctx : SwimContext M) (from id : ℕ) (st : MemberState)
      → ops.get_member_state ctx.sc_data id ≡ ok st
      → is_dead st.sms_status ≡ false
      → ops.get_member_state (swim_member_dead ops ctx from id st.sms_incarnation).0.sc_data id
        ≡ ok (record st { sms_status = dead })
  unfolding swim_member_dead swim_updates_notify set_state ignores_dead
  swim_member_dead-same ctx from id st known lives =
      let ctx' : SwimContext M = record ctx { sc_suspects = remove_first id ctx.sc_suspects } in
      let (_, same, _, _) = queue_update_lem ops laws ctx' from id in
      let new : ignores_dead st st.sms_incarnation ≡ false = ground arith in
      rw (known, swim_member_dead, new)
        (laws.set_same (queue_update ops ctx' from id).sc_data id st _ (same id ∙ known))

  round-other :
      (now q : ℕ) (item : Item) (rest : List Item) (w : Walk M)
      → q ≢ item.si_id
      → ops.get_member_state (suspect_round ops now item rest w).ctx.sc_data q
        ≡ ops.get_member_state w.ctx.sc_data q
  unfolding suspect_round ask_origin expire
  round-other now q item rest w ne = elim (Bool-cases (ltb item.u now)) [
    | inl late ↦ elim (Bool-cases (item.si_from == w.ctx.sc_self)) [
      | inl ours ↦
          rw (late, ours)
            (elim (Result-cases (ops.get_member_state w.ctx.sc_data item.si_id)) [
              | inl (e, unknown) ↦ rw (unknown, expire) refl
              | inr (st, known) ↦
                  rw (known, expire)
                    (swim_member_dead-other w.ctx item.si_from item.si_id st.sms_incarnation q ne)
            ])
      | inr theirs ↦
          rw (late, theirs)
            (elim (Bool-cases (ops.alloc w.ctx.sc_data).1) [
              | inl got ↦ rw got (laws.alloc_keeps w.ctx.sc_data q)
              | inr full ↦ rw full (laws.alloc_keeps w.ctx.sc_data q)
            ])
    ]
    | inr early ↦ rw early refl
  ]

  round-same :
      (now : ℕ) (item : Item) (rest : List Item) (w : Walk M) (st : MemberState)
      → ops.get_member_state w.ctx.sc_data item.si_id ≡ ok st
      → is_dead st.sms_status ≡ false
      → ops.get_member_state (suspect_round ops now item rest w).ctx.sc_data item.si_id
        ≡ ok (expired (ltb item.u now && item.si_from == w.ctx.sc_self) st)
  unfolding suspect_round ask_origin expire
  round-same now item rest w st known lives = elim (Bool-cases (ltb item.u now)) [
    | inl late ↦ elim (Bool-cases (item.si_from == w.ctx.sc_self)) [
      | inl ours ↦
          rw (late, ours, known, expire)
            (swim_member_dead-same w.ctx item.si_from item.si_id st known lives)
      | inr theirs ↦
          rw (late, theirs)
            (elim (Bool-cases (ops.alloc w.ctx.sc_data).1) [
              | inl got ↦ rw got (laws.alloc_keeps w.ctx.sc_data item.si_id ∙ known)
              | inr full ↦ rw full (laws.alloc_keeps w.ctx.sc_data item.si_id ∙ known)
            ])
    ]
    | inr early ↦ rw early known
  ]

  loop-member :
      (now q : ℕ) (rest : List Item) (w : Walk M) (st : MemberState)
      → IsConsistent ops w.ctx
      → Suffix ops laws w.ctx rest
      → ops.get_member_state w.ctx.sc_data q ≡ ok st
      → ops.get_member_state (suspect_loop ops now rest w).ctx.sc_data q
        ≡ ok (expired (expires w.ctx.sc_self now q rest) st)
  unfolding suspect_loop
  loop-member now q [] w st c s known = known
  loop-member now q (item ∷ rest) w st c (before, split) known =
      let w' = suspect_round ops now item rest w in
      let v = suspect_round-Visited ops laws now w item rest before split in
      let c' = v.step.keeps c in
      elim (ℕ_discrete q item.si_id) [
        | yes e ↦
            let known' : ops.get_member_state w.ctx.sc_data item.si_id ≡ ok st = rw (← e) known in
            let once : count q (ids before) + count q (ids (item ∷ rest)) ≤ 1 =
              rw (← count-ids-append q before (item ∷ rest), ← split) (c.suspects_once q) in
            let no_more = no_expiry w.ctx.sc_self now q rest (ground arith) in
            let listed : is_suspect st.sms_status ≡ true =
              sym (c.suspected q st known)
              ∙ ground (
                arith,
                has_item-count q w.ctx.sc_suspects,
                ap (λ xs. count q (ids xs)) split,
                count-ids-append q before (item ∷ rest),
              ) in
            let here = round-same now item rest w st known' (alive_yet st listed) in
            let hit = ltb item.u now && item.si_from == w.ctx.sc_self in
            let this : (item.si_id == q) ≡ true = ground arith in
            loop-member now q rest w' (expired hit st) c' v.suffix (rw e here)
            ∙ rw (v.step.self, no_more, this) (ap ok (only hit st))
        | no ne ↦
            let there : (item.si_id == q) ≡ false = ground arith in
            loop-member now q rest w' st c' v.suffix (round-other now q item rest w ne ∙ known)
            ∙ rw (v.step.self, there) refl
      ]
    where
      only : (b : Bool) (st : MemberState) → expired b st ≡ expired (if b then true else false) st
      only true st = refl
      only false st = refl

      alive_yet :
          (st : MemberState) → is_suspect st.sms_status ≡ true → is_dead st.sms_status ≡ false
      alive_yet st h = ground arith

  pub send-SameStates :
      (ctx : SwimContext M) (id to : ℕ)
      → SameStates ops ctx.sc_data (swim_updates_send ops ctx id to).0.sc_data
  unfolding swim_updates_send send_gathered
  send-SameStates ctx id to q =
      let ctx' = (allocate ops ctx).0 in
      let get = ops.get_member_state ctx'.sc_data in
      let alloc = laws.alloc_keeps ctx.sc_data q in
      elim (Bool-cases (id == swim_id_invalid || to == swim_id_invalid)) [
        | inl e ↦ rw e refl
        | inr e ↦ rw e (elim (Bool-cases (ops.alloc ctx.sc_data).1) [
          | inl got ↦ rw got (elim (Result-cases (first_updates get id ctx.sc_self)) [
            | inl (rc, fails) ↦ rw (fails, send_gathered) alloc
            | inr (upds, found) ↦
                let g =
                  gather get (max_updates id ctx.sc_self) ctx.sc_piggyback_tx_max id ctx.sc_self
                    upds ctx.sc_updates in
                rw (found, send_gathered)
                  (elim (Bool-cases (g.rc == 0)) [
                    | inl sent ↦
                        rw sent (laws.send_keeps ctx'.sc_data ctx.sc_self to g.upds q ∙ alloc)
                    | inr fails ↦ rw fails alloc
                  ])
          ])
          | inr full ↦ rw full alloc
        ])
      ]

  confirm-SameStates :
      (targets : List Item) (ctx : SwimContext M) (rc : ℕ)
      → SameStates ops ctx.sc_data (confirm ops targets ctx rc).0.sc_data
  unfolding confirm
  confirm-SameStates [] ctx rc q = refl
  confirm-SameStates (item ∷ targets) ctx rc q =
      confirm-SameStates targets _ _ q ∙ send-SameStates ctx item.si_id item.si_from q

  -- With callbacks that keep the laws, in a consistent context, swim_member_update_suspected
  -- declares a member that is known dead, in its incarnation, if a suspicion of it that is our own
  -- has run out, and otherwise does not change its state.
  pub update_suspected-member :
      (ctx : SwimContext M) (now q : ℕ) (st : MemberState)
      → IsConsistent ops ctx
      → ops.get_member_state ctx.sc_data q ≡ ok st
      → ops.get_member_state (swim_member_update_suspected ops ctx now).0.sc_data q
        ≡ ok (expired (expires ctx.sc_self now q ctx.sc_suspects) st)
  unfolding swim_member_update_suspected
  update_suspected-member ctx now q st c known =
      let w : Walk M = record { ctx = ctx; targets = []; code = 0 } in
      confirm-SameStates _ _ _ q ∙ loop-member now q ctx.sc_suspects w st c ([], refl) known
