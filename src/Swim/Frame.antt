-- ===== src/Swim/Frame.antt =====
-- What the verdicts and the messages of src/swim/swim.c leave alone: the state of the protocol, its
-- target, the subgroup and the indirect pings.
use cart.Prelude.{ℕ, ◌≡◌, refl, ◌∙◌, ◌||◌, List, [], ◌∷◌, ltb, ◌==◌, Bool-cases, inl, inr}
use cart.Swim.{suspect, dead, MemberState, Item, SwimContext, SwimOps, swim_id_invalid}
use cart.Swim.Updates.{
  has_item, remove_first, allocate, gather, first_updates, max_updates, send_gathered,
  swim_updates_send, queue_update, set_state, swim_updates_notify,
}
use cart.Swim.Members.{
  ignores_dead, ignores_suspect, add_suspect, swim_member_dead, swim_member_suspect,
}
use cart.Swim.Suspects.{
  Walk, ask_origin, expire, suspect_round, suspect_loop, confirm, swim_member_update_suspected,
}
use cart.Swim.Verdicts.{Result-cases}

pub record Frame {M : Type 0} (ctx ctx' : SwimContext M) : Type 0 where
  pub state : ctx'.sc_state ≡ ctx.sc_state
  pub target : ctx'.sc_target ≡ ctx.sc_target
  pub subgroup : ctx'.sc_subgroup ≡ ctx.sc_subgroup
  pub ipings : ctx'.sc_ipings ≡ ctx.sc_ipings

frame :
    {M : Type 0} {ctx ctx' : SwimContext M}
    → ctx'.sc_state ≡ ctx.sc_state
    → ctx'.sc_target ≡ ctx.sc_target
    → ctx'.sc_subgroup ≡ ctx.sc_subgroup
    → ctx'.sc_ipings ≡ ctx.sc_ipings
    → Frame ctx ctx'
frame a b c d = record { state = a; target = b; subgroup = c; ipings = d }

pub Frame-trans : {M : Type 0} {a b c : SwimContext M} → Frame a b → Frame b c → Frame a c
Frame-trans s t = record {
  state = t.state ∙ s.state;
  target = t.target ∙ s.target;
  subgroup = t.subgroup ∙ s.subgroup;
  ipings = t.ipings ∙ s.ipings;
}

module _ {M : Type 0} (ops : SwimOps M) where
  swim_updates_notify-Frame :
      (ctx : SwimContext M) (from id : ℕ) (st : MemberState)
      → Frame ctx (swim_updates_notify ops ctx from id st).0
  unfolding swim_updates_notify set_state queue_update
  swim_updates_notify-Frame ctx from id st = elim (Bool-cases (has_item id ctx.sc_updates)) [
    | inl e ↦ rw e (frame refl refl refl refl)
    | inr e ↦ rw e (elim (Bool-cases (ops.alloc ctx.sc_data).1) [
      | inl got ↦ rw got (frame refl refl refl refl)
      | inr full ↦ rw full (frame refl refl refl refl)
    ])
  ]

  pub swim_member_dead-Frame :
      (ctx : SwimContext M) (from id nr : ℕ) → Frame ctx (swim_member_dead ops ctx from id nr).0
  unfolding swim_member_dead
  swim_member_dead-Frame ctx from id nr =
      elim (Result-cases (ops.get_member_state ctx.sc_data id)) [
        | inl (e, unknown) ↦ rw (unknown, swim_member_dead) (frame refl refl refl refl)
        | inr (st, known) ↦
            rw (known, swim_member_dead)
              (elim (Bool-cases (ignores_dead st nr)) [
                | inl old ↦ rw old (frame refl refl refl refl)
                | inr new ↦ rw new (
                    let f =
                      swim_updates_notify-Frame
                        (record ctx { sc_suspects = remove_first id ctx.sc_suspects }) from id
                        (record { sms_incarnation = nr; sms_status = dead }) in
                    frame f.state f.target f.subgroup f.ipings)
              ])
      ]

  add_suspect-Frame :
      (ctx : SwimContext M) (from id : ℕ) → Frame ctx (add_suspect ops ctx from id).0
  unfolding add_suspect
  add_suspect-Frame ctx from id = elim (Bool-cases (has_item id ctx.sc_suspects)) [
    | inl e ↦ rw e (frame refl refl refl refl)
    | inr e ↦ rw e (elim (Bool-cases (ops.alloc ctx.sc_data).1) [
      | inl got ↦ rw got (frame refl refl refl refl)
      | inr full ↦ rw full (frame refl refl refl refl)
    ])
  ]

  pub swim_member_suspect-Frame :
      (ctx : SwimContext M) (from id nr : ℕ) → Frame ctx (swim_member_suspect ops ctx from id nr).0
  unfolding swim_member_suspect
  swim_member_suspect-Frame ctx from id nr =
      let added = add_suspect-Frame ctx from id in
      elim (Result-cases (ops.get_member_state ctx.sc_data id)) [
        | inl (e, unknown) ↦ rw (unknown, swim_member_suspect) (frame refl refl refl refl)
        | inr (st, known) ↦
            rw (known, swim_member_suspect)
              (elim (Bool-cases (ignores_suspect st nr)) [
                | inl old ↦ rw old (frame refl refl refl refl)
                | inr new ↦ rw new (elim (Bool-cases (add_suspect ops ctx from id).1) [
                  | inl listed ↦ rw listed (
                      Frame-trans added (
                        swim_updates_notify-Frame (add_suspect ops ctx from id).0 from id
                          (record { sms_incarnation = nr; sms_status = suspect })))
                  | inr full ↦ rw full added
                ])
              ])
      ]

  send_gathered-Frame :
      (ctx : SwimContext M) (id to : ℕ) → Frame ctx (send_gathered ops ctx id to).0
  unfolding send_gathered
  send_gathered-Frame ctx id to =
      let get = ops.get_member_state ctx.sc_data in
      elim (Result-cases (first_updates get id ctx.sc_self)) [
        | inl (e, fails) ↦ rw (fails, send_gathered) (frame refl refl refl refl)
        | inr (upds, found) ↦
            let g =
              gather get (max_updates id ctx.sc_self) ctx.sc_piggyback_tx_max id ctx.sc_self upds
                ctx.sc_updates in
            rw (found, send_gathered)
              (elim (Bool-cases (g.rc == 0)) [
                | inl sent ↦ rw sent (frame refl refl refl refl)
                | inr fails ↦ rw fails (frame refl refl refl refl)
              ])
      ]

  pub swim_updates_send-Frame :
      (ctx : SwimContext M) (id to : ℕ) → Frame ctx (swim_updates_send ops ctx id to).0
  unfolding swim_updates_send
  swim_updates_send-Frame ctx id to =
      elim (Bool-cases (id == swim_id_invalid || to == swim_id_invalid)) [
        | inl e ↦ rw e (frame refl refl refl refl)
        | inr e ↦
            let f = send_gathered-Frame (allocate ops ctx).0 id to in
            rw e (elim (Bool-cases (ops.alloc ctx.sc_data).1) [
              | inl got ↦ rw got (frame f.state f.target f.subgroup f.ipings)
              | inr full ↦ rw full (frame refl refl refl refl)
            ])
      ]

  suspect_round-Frame :
      (now : ℕ) (item : Item) (rest : List Item) (w : Walk M)
      → Frame w.ctx (suspect_round ops now item rest w).ctx
  unfolding suspect_round ask_origin expire
  suspect_round-Frame now item rest w = elim (Bool-cases (ltb item.u now)) [
    | inl late ↦ elim (Bool-cases (item.si_from == w.ctx.sc_self)) [
      | inl ours ↦
          rw (late, ours)
            (elim (Result-cases (ops.get_member_state w.ctx.sc_data item.si_id)) [
              | inl (e, unknown) ↦ rw (unknown, expire) (frame refl refl refl refl)
              | inr (st, known) ↦
                  rw (known, expire)
                    (swim_member_dead-Frame w.ctx item.si_from item.si_id st.sms_incarnation)
            ])
      | inr other ↦
          rw (late, other)
            (elim (Bool-cases (ops.alloc w.ctx.sc_data).1) [
              | inl got ↦ rw got (frame refl refl refl refl)
              | inr full ↦ rw full (frame refl refl refl refl)
            ])
    ]
    | inr early ↦ rw early (frame refl refl refl refl)
  ]

  suspect_loop-Frame :
      (now : ℕ) (rest : List Item) (w : Walk M) → Frame w.ctx (suspect_loop ops now rest w).ctx
  unfolding suspect_loop
  suspect_loop-Frame now [] w = frame refl refl refl refl
  suspect_loop-Frame now (item ∷ rest) w =
      Frame-trans (suspect_round-Frame now item rest w) (suspect_loop-Frame now rest _)

  confirm-Frame :
      (targets : List Item) (ctx : SwimContext M) (rc : ℕ)
      → Frame ctx (confirm ops targets ctx rc).0
  unfolding confirm
  confirm-Frame [] ctx rc = frame refl refl refl refl
  confirm-Frame (item ∷ targets) ctx rc =
      Frame-trans (swim_updates_send-Frame ctx item.si_id item.si_from) (confirm-Frame targets _ _)

  pub swim_member_update_suspected-Frame :
      (ctx : SwimContext M) (now : ℕ) → Frame ctx (swim_member_update_suspected ops ctx now).0
  unfolding swim_member_update_suspected
  swim_member_update_suspected-Frame ctx now =
      Frame-trans
        (suspect_loop-Frame now ctx.sc_suspects (record { ctx = ctx; targets = []; code = 0 }))
        (confirm-Frame _ _ _)
