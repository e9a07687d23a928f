-- ===== src/Swim/Verdicts.antt =====
-- The verdicts on a member (src/swim/swim.c), as steps.
use cart.Prelude.{
  ℕ, ◌≤◌, ◌⊎◌, ◌≡◌, ◌≢◌, refl, sym, ◌∙◌, Bool, true, false, count, ◌==◌, if◌then◌else◌, Result, ok,
  err, arith, Bool-cases, inl, inr,
}
use native.Mathlib.Decide.{ℕ_discrete}
use cart.Swim.{alive, suspect, dead, is_suspect, MemberState, SwimContext, SwimOps}
use cart.Swim.Updates.{has_item, remove_first, queue_update, set_state, swim_updates_notify}
use cart.Swim.Members.{
  ignores_alive, ignores_dead, ignores_suspect, clear_suspect, add_suspect, swim_member_alive,
  swim_member_dead, swim_member_suspect,
}
use cart.Swim.Items.{
  ids, has_item-count, has_item-append, count-ids-append, count-remove_first, has_item-remove_first,
  ids-refresh,
}
use cart.Swim.Laws.{SwimLaws, SameStates}
use cart.Swim.Steps.{precedes, follows_refl, IsConsistent, Step, step_refl, quiet}

pub Result-cases : {A : Type 0} (r : Result A) → ((e : ℕ) × (r ≡ err e)) ⊎ ((a : A) × (r ≡ ok a))
Result-cases (ok a) = inr (a, refl)
Result-cases (err e) = inl (e, refl)

-- A verdict that is not ignored gives a state that may follow.
precedes_alive :
    (st : MemberState) (nr : ℕ)
    → ignores_alive st nr ≡ false
    → precedes st (record { sms_incarnation = nr; sms_status = alive }) ≡ true
unfolding ignores_alive
precedes_alive st nr h = ground arith

precedes_dead :
    (st : MemberState) (nr : ℕ)
    → ignores_dead st nr ≡ false
    → precedes st (record { sms_incarnation = nr; sms_status = dead }) ≡ true
unfolding ignores_dead
precedes_dead st nr h = ground arith

precedes_suspect :
    (st : MemberState) (nr : ℕ)
    → ignores_suspect st nr ≡ false
    → precedes st (record { sms_incarnation = nr; sms_status = suspect }) ≡ true
unfolding ignores_suspect
precedes_suspect st nr h = ground arith

module _ {M : Type 0} (ops : SwimOps M) (laws : SwimLaws ops) where
  -- What swim_updates_notify does before it sets the state.
  pub queue_update_lem :
      (ctx : SwimContext M) (from id : ℕ)
      → ((queue_update ops ctx from id).sc_self ≡ ctx.sc_self)
        × SameStates ops ctx.sc_data (queue_update ops ctx from id).sc_data
        × ((queue_update ops ctx from id).sc_suspects ≡ ctx.sc_suspects)
        × (((q : ℕ) → count q (ids ctx.sc_updates) ≤ 1)
            → (q : ℕ) → count q (ids (queue_update ops ctx from id).sc_updates) ≤ 1)
  unfolding queue_update
  queue_update_lem ctx from id = elim (Bool-cases (has_item id ctx.sc_updates)) [
    | inl e ↦
        rw e (refl, λ q. refl, refl, λ once q. rw (ids-refresh from id ctx.sc_updates) (once q))
    | inr e ↦ rw e (elim (Bool-cases (ops.alloc ctx.sc_data).1) [
      | inl got ↦ rw got (
        refl,
        laws.alloc_keeps ctx.sc_data,
        refl,
        λ once q. ground (arith, once q, has_item-count id ctx.sc_updates, e),
      )
      | inr full ↦ rw full (refl, laws.alloc_keeps ctx.sc_data, refl, λ once q. once q)
    ])
  ]

  -- The list of suspects after a verdict on one member, of which it holds that member or not.
  pub record Reshaped (ctx ctx' : SwimContext M) (id : ℕ) (listed : Bool) : Type 0 where
    pub self : ctx'.sc_self ≡ ctx.sc_self
    pub same : SameStates ops ctx.sc_data ctx'.sc_data
    pub updates : ctx'.sc_updates ≡ ctx.sc_updates
    pub once : IsConsistent ops ctx → (q : ℕ) → count q (ids ctx'.sc_suspects) ≤ 1
    pub lists :
        IsConsistent ops ctx
        → (q : ℕ)
        → has_item q ctx'.sc_suspects ≡ (if q == id then listed else has_item q ctx.sc_suspects)

  -- The verdict is a step, where the new state may follow the old one, or is our own.
  pub notify-Step :
      (ctx ctx' : SwimContext M) (from id : ℕ) (st new : MemberState)
      → Reshaped ctx ctx' id (is_suspect new.sms_status)
      → ops.get_member_state ctx.sc_data id ≡ ok st
      → (id ≢ ctx.sc_self → precedes st new ≡ true)
      → Step ops ctx (swim_updates_notify ops ctx' from id new).0
  unfolding swim_updates_notify set_state
  notify-Step ctx ctx' from id st new r known order =
      let (self, same, suspects, once) = queue_update_lem ctx' from id in
      let m = (queue_update ops ctx' from id).sc_data in
      let known' : ops.get_member_state m id ≡ ok st = same id ∙ r.same id ∙ known in
      let set_same = laws.set_same m id st new known' in
      let others = λ (q : ℕ) (ne : q ≢ id). laws.set_other m id q new ne ∙ same q ∙ r.same q in
      record {
        self = self ∙ r.self;
        moves_on = λ q h. elim (ℕ_discrete q id) [
          | yes e ↦ rw (e, known, set_same) (order (λ e'. h (e ∙ e')))
          | no ne ↦ rw (others q ne) (follows_refl (ops.get_member_state ctx.sc_data q))
        ];
        keeps = λ c. record {
          suspects_once = λ q. rw suspects (r.once c q);
          updates_once = once (λ q. rw r.updates (c.updates_once q));
          suspected = λ q st' e. elim (ℕ_discrete q id) [
            | yes same_id ↦
                let lists = r.lists c q in
                let now : ok st' ≡ ok new = sym e ∙ rw same_id set_same in
                rw suspects (ground (arith, lists, now, same_id))
            | no ne ↦
                let lists = r.lists c q in
                let before = c.suspected q st' (sym (others q ne) ∙ e) in
                rw suspects (ground (arith, lists, before, ne))
          ];
        };
      }

  clear_suspect-Reshaped :
      (ctx : SwimContext M) (id : ℕ) → Reshaped ctx (clear_suspect ops ctx id) id false
  unfolding clear_suspect
  clear_suspect-Reshaped ctx id = elim (Bool-cases (has_item id ctx.sc_suspects)) [
    | inl e ↦ rw e (record {
      self = refl;
      same = λ q. refl;
      updates = refl;
      once = λ c q. ground (arith, count-remove_first q id ctx.sc_suspects, c.suspects_once q);
      lists = λ c q. has_item-remove_first q id ctx.sc_suspects (c.suspects_once id);
    })
    | inr e ↦ rw e (record {
      self = refl;
      same = λ q. refl;
      updates = refl;
      once = λ c q. c.suspects_once q;
      lists = λ c q. elim (ℕ_discrete q id) [
        | yes e' ↦ rw e' (ground (arith, e))
        | no ne ↦ ground arith
      ];
    })
  ]

  remove_first-Reshaped :
      (ctx : SwimContext M) (id : ℕ)
      → Reshaped ctx (record ctx { sc_suspects = remove_first id ctx.sc_suspects }) id false
  remove_first-Reshaped ctx id = record {
    self = refl;
    same = λ q. refl;
    updates = refl;
    once = λ c q. ground (arith, count-remove_first q id ctx.sc_suspects, c.suspects_once q);
    lists = λ c q. has_item-remove_first q id ctx.sc_suspects (c.suspects_once id);
  }

  pub swim_member_alive-Step :
      (ctx : SwimContext M) (from id nr : ℕ) → Step ops ctx (swim_member_alive ops ctx from id nr).0
  unfolding swim_member_alive
  swim_member_alive-Step ctx from id nr =
      elim (Result-cases (ops.get_member_state ctx.sc_data id)) [
        | inl (e, unknown) ↦ rw (unknown, swim_member_alive) (step_refl ops ctx)
        | inr (st, known) ↦
            rw (known, swim_member_alive)
              (elim (Bool-cases (ignores_alive st nr)) [
                | inl old ↦ rw old (step_refl ops ctx)
                | inr new ↦ rw new (
                    notify-Step ctx (clear_suspect ops ctx id) from id st
                      (record { sms_incarnation = nr; sms_status = alive })
                      (clear_suspect-Reshaped ctx id) known (λ h. precedes_alive st nr new))
              ])
      ]

  pub swim_member_dead-Step :
      (ctx : SwimContext M) (from id nr : ℕ) → Step ops ctx (swim_member_dead ops ctx from id nr).0
  unfolding swim_member_dead
  swim_member_dead-Step ctx from id nr = elim (Result-cases (ops.get_member_state ctx.sc_data id)) [
    | inl (e, unknown) ↦ rw (unknown, swim_member_dead) (step_refl ops ctx)
    | inr (st, known) ↦
        rw (known, swim_member_dead)
          (elim (Bool-cases (ignores_dead st nr)) [
            | inl old ↦ rw old (step_refl ops ctx)
            | inr new ↦ rw new (
                notify-Step ctx (record ctx { sc_suspects = remove_first id ctx.sc_suspects }) from
                  id st (record { sms_incarnation = nr; sms_status = dead })
                  (remove_first-Reshaped ctx id) known (λ h. precedes_dead st nr new))
          ])
  ]

  add_suspect-Reshaped :
      (ctx : SwimContext M) (from id : ℕ)
      → (add_suspect ops ctx from id).1 ≡ true
      → Reshaped ctx (add_suspect ops ctx from id).0 id true
  unfolding add_suspect
  add_suspect-Reshaped ctx from id = elim (Bool-cases (has_item id ctx.sc_suspects)) [
    | inl e ↦ rw e (λ h. record {
      self = refl;
      same = λ q. refl;
      updates = refl;
      once = λ c q. c.suspects_once q;
      lists = λ c q. elim (ℕ_discrete q id) [
        | yes e' ↦ rw e' (ground (arith, e))
        | no ne ↦ ground arith
      ];
    })
    | inr e ↦ rw e (elim (Bool-cases (ops.alloc ctx.sc_data).1) [
      | inl got ↦ rw got (λ h. record {
        self = refl;
        same = λ q. laws.now_keeps (ops.alloc ctx.sc_data).0 q ∙ laws.alloc_keeps ctx.sc_data q;
        updates = refl;
        once = λ c q.
            rw (count-ids-append q ctx.sc_suspects _)
              (ground (arith, c.suspects_once q, has_item-count id ctx.sc_suspects, e));
        lists = λ c q.
            rw (has_item-append q ctx.sc_suspects _)
              (elim (ℕ_discrete q id) [ yes e' ↦ rw e' (ground arith) | no ne ↦ ground arith ]);
      })
      | inr full ↦ rw full (λ h. absurd (cc h))
    ])
  ]

  add_suspect-Step :
      (ctx : SwimContext M) (from id : ℕ)
      → (add_suspect ops ctx from id).1 ≡ false
      → Step ops ctx (add_suspect ops ctx from id).0
  unfolding add_suspect
  add_suspect-Step ctx from id = elim (Bool-cases (has_item id ctx.sc_suspects)) [
    | inl e ↦ rw e (λ h. absurd (cc h))
    | inr e ↦ rw e (elim (Bool-cases (ops.alloc ctx.sc_data).1) [
      | inl got ↦ rw got (λ h. absurd (cc h))
      | inr full ↦
          rw full (λ h. quiet ops ctx _ refl (laws.alloc_keeps ctx.sc_data) refl (λ q. omega arith))
    ])
  ]

  pub swim_member_suspect-Step :
      (ctx : SwimContext M) (from id nr : ℕ)
      → Step ops ctx (swim_member_suspect ops ctx from id nr).0
  unfolding swim_member_suspect
  swim_member_suspect-Step ctx from id nr =
      elim (Result-cases (ops.get_member_state ctx.sc_data id)) [
        | inl (e, unknown) ↦ rw (unknown, swim_member_suspect) (step_refl ops ctx)
        | inr (st, known) ↦
            rw (known, swim_member_suspect)
              (elim (Bool-cases (ignores_suspect st nr)) [
                | inl old ↦ rw old (step_refl ops ctx)
                | inr new ↦ rw new (elim (Bool-cases (add_suspect ops ctx from id).1) [
                  | inl listed ↦ rw listed (
                      notify-Step ctx (add_suspect ops ctx from id).0 from id st
                        (record { sms_incarnation = nr; sms_status = suspect })
                        (add_suspect-Reshaped ctx from id listed) known
                        (λ h. precedes_suspect st nr new))
                  | inr full ↦ rw full (add_suspect-Step ctx from id full)
                ])
              ])
      ]
