-- ===== src/Swim/Timeouts.antt =====
-- The timeouts of src/swim/swim.c, as steps.
use cart.Prelude.{
  ℕ, zero, suc, ◌+◌, ◌-◌, ◌⊎◌, ◌≡◌, ◌≢◌, refl, ap, sym, ◌∙◌, List, [], ◌∷◌, ◌++◌, count, length,
  set, ◌==◌, ltb, if◌then◌else◌, ok, err, arith, Bool-cases, inl, inr,
}
use native.Mathlib.Decide.{ℕ_discrete}
use cart.Swim.{MemberState, Item, SwimContext, SwimOps, u64, swim_id_invalid, swim_subgroup_size}
use cart.Swim.Updates.{remove_first, allocate, set_state, swim_updates_notify}
use cart.Swim.Members.{ignores_dead, swim_member_dead}
use cart.Swim.Suspects.{
  Walk, remove_at, ask_origin, expire, suspect_round, suspect_loop, confirm,
  swim_member_update_suspected, swim_ipings_update, subgroup_loop, swim_subgroup_init,
}
use cart.Swim.Items.{
  ids, ids-append, count-ids-append, has_item-count, place_of, set_place, remove_place,
}
use cart.Swim.Laws.{SwimLaws}
use cart.Swim.Steps.{Step, step_refl, step_trans, quiet, follows_refl}
use cart.Swim.Verdicts.{Result-cases, queue_update_lem, swim_member_dead-Step}
use cart.Swim.Gossip.{swim_updates_send-Step}

reassoc : (xs : List Item) (x : Item) (ys : List Item) → (xs ++ x ∷ []) ++ ys ≡ xs ++ x ∷ ys
reassoc [] x ys = refl
reassoc (z ∷ xs) x ys = ap (◌∷◌ z) (reassoc xs x ys)

-- The search for the id of an item goes no further than that item.
remove_first-suffix :
    (x : Item) (before rest : List Item)
    → (before' : List Item) × (remove_first x.si_id (before ++ x ∷ rest) ≡ before' ++ rest)
remove_first-suffix x [] rest = ([], ground arith)
remove_first-suffix x (y ∷ before) rest = elim (Bool-cases (y.si_id == x.si_id)) [
  | inl e ↦ (before ++ x ∷ [], rw e (sym (reassoc before x rest)))
  | inr e ↦
      let (before', same) = remove_first-suffix x before rest in
      (y ∷ before', rw e (ap (◌∷◌ y) same))
]

module _ {M : Type 0} (ops : SwimOps M) (laws : SwimLaws ops) where
  -- Where the items of the list of suspects stand that the loop has still to visit.
  abbrev pub Suffix : SwimContext M → List Item → Type 0
  Suffix ctx rest = (before : List Item) × (ctx.sc_suspects ≡ before ++ rest)

  -- One round keeps the items behind the one that it visits.
  pub record Visited (ctx ctx' : SwimContext M) (rest : List Item) : Type 0 where
    pub step : Step ops ctx ctx'
    pub suffix : Suffix ctx' rest

  ask_origin-Visited :
      (w : Walk M) (item : Item) (rest before : List Item)
      → w.ctx.sc_suspects ≡ before ++ item ∷ rest
      → Visited w.ctx (ask_origin ops (length before) item w).ctx rest
  unfolding ask_origin
  ask_origin-Visited w item rest before e =
      let ours = record item {
        si_from = w.ctx.sc_self;
        u = u64 (item.u + w.ctx.swim_ping_timeout);
      } in
      let placed : set w.ctx.sc_suspects (length before) ours ≡ before ++ ours ∷ rest =
        rw e (set_place item rest ours before) in
      let same_ids : ids (before ++ ours ∷ rest) ≡ ids w.ctx.sc_suspects =
        ids-append before (ours ∷ rest) ∙ sym (ids-append before (item ∷ rest)) ∙ ap ids (sym e) in
      let change =
        quiet ops w.ctx
          (allocate ops
            (record w.ctx { sc_suspects = set w.ctx.sc_suspects (length before) ours })).0
          refl (laws.alloc_keeps w.ctx.sc_data) (rw placed same_ids) (λ q. omega arith) in
      let suffix : Suffix
          (allocate ops
            (record w.ctx { sc_suspects = set w.ctx.sc_suspects (length before) ours })).0
          rest =
        (before ++ ours ∷ [], placed ∙ sym (reassoc before ours rest)) in
      elim (Bool-cases (ops.alloc w.ctx.sc_data).1) [
        | inl got ↦ rw (got, ask_origin) (record { step = change; suffix = suffix })
        | inr none ↦ rw (none, ask_origin) (record { step = change; suffix = suffix })
      ]

  -- The list of suspects after swim_member_dead
  dead_suspects :
      (ctx : SwimContext M) (from id nr : ℕ)
      → ((swim_member_dead ops ctx from id nr).0.sc_suspects ≡ ctx.sc_suspects)
        ⊎ ((swim_member_dead ops ctx from id nr).0.sc_suspects ≡ remove_first id ctx.sc_suspects)
  unfolding swim_member_dead swim_updates_notify set_state
  dead_suspects ctx from id nr = elim (Result-cases (ops.get_member_state ctx.sc_data id)) [
    | inl (e, unknown) ↦ inl (rw (unknown, swim_member_dead) refl)
    | inr (st, known) ↦ elim (Bool-cases (ignores_dead st nr)) [
      | inl old ↦ inl (rw (known, swim_member_dead, old) refl)
      | inr new ↦
          let (_, _, same, _) =
            queue_update_lem ops laws (record ctx { sc_suspects = remove_first id ctx.sc_suspects })
              from id in
          inr (rw (known, swim_member_dead, new) same)
    ]
  ]

  -- A member that is gone leaves the list.
  gone-Step :
      (ctx : SwimContext M) (item : Item) (rest before : List Item) (e : ℕ)
      → ctx.sc_suspects ≡ before ++ item ∷ rest
      → ops.get_member_state ctx.sc_data item.si_id ≡ err e
      → Step ops ctx (record ctx { sc_suspects = before ++ rest })
  gone-Step ctx item rest before e split unknown = record {
    self = refl;
    moves_on = λ q h. follows_refl (ops.get_member_state ctx.sc_data q);
    keeps = λ c. record {
      suspects_once = λ q. omega (arith, counts q, c.suspects_once q);
      updates_once = c.updates_once;
      suspected = λ q st known. elim (ℕ_discrete q item.si_id) [
        | yes same ↦
            let gone : ops.get_member_state ctx.sc_data q ≡ err e = rw same unknown in
            absurd (differ (sym known ∙ gone))
        | no ne ↦ ground (
          arith,
          counts q,
          has_item-count q (before ++ rest),
          has_item-count q ctx.sc_suspects,
          c.suspected q st known,
        )
      ];
    };
  }
    where
      counts :
          (q : ℕ)
          → count q (ids ctx.sc_suspects)
            ≡ count q (ids (before ++ rest)) + (if q == item.si_id then 1 else 0)
      counts q =
          rw (split, count-ids-append q before (item ∷ rest), count-ids-append q before rest)
            (omega arith)

      differ : {st : MemberState} {e : ℕ} → ok st ≢ err e
      differ h = cc

  expire-Visited :
      (w : Walk M) (item : Item) (rest before : List Item)
      → w.ctx.sc_suspects ≡ before ++ item ∷ rest
      → Visited w.ctx (expire ops (length before) item w).ctx rest
  unfolding expire
  expire-Visited w item rest before split =
      elim (Result-cases (ops.get_member_state w.ctx.sc_data item.si_id)) [
        | inl (e, unknown) ↦
            let removed : remove_at (length before) w.ctx.sc_suspects ≡ before ++ rest =
              rw split (remove_place item rest before) in
            rw (unknown, expire, removed)
              (record {
                step = gone-Step w.ctx item rest before e split unknown;
                suffix = (before, refl);
              })
        | inr (st, known) ↦
            let step =
              swim_member_dead-Step ops laws w.ctx item.si_from item.si_id st.sms_incarnation in
            let (before', first) = remove_first-suffix item before rest in
            rw (known, expire)
              (elim (dead_suspects w.ctx item.si_from item.si_id st.sms_incarnation) [
                | inl same ↦ record {
                  step = step;
                  suffix = (before ++ item ∷ [], same ∙ split ∙ sym (reassoc before item rest));
                }
                | inr fewer ↦ record { step = step; suffix = (before', fewer ∙ rw split first) }
              ])
      ]

  pub suspect_round-Visited :
      (now : ℕ) (w : Walk M) (item : Item) (rest before : List Item)
      → w.ctx.sc_suspects ≡ before ++ item ∷ rest
      → Visited w.ctx (suspect_round ops now item rest w).ctx rest
  unfolding suspect_round
  suspect_round-Visited now w item rest before split =
      let place : length w.ctx.sc_suspects - suc (length rest) ≡ length before =
        rw split (place_of item rest before) in
      elim (Bool-cases (ltb item.u now)) [
        | inl late ↦ elim (Bool-cases (item.si_from == w.ctx.sc_self)) [
          | inl ours ↦ rw (late, ours, place) (expire-Visited w item rest before split)
          | inr other ↦ rw (late, other, place) (ask_origin-Visited w item rest before split)
        ]
        | inr early ↦ rw early (record {
          step = step_refl ops w.ctx;
          suffix = (before ++ item ∷ [], split ∙ sym (reassoc before item rest));
        })
      ]

  suspect_loop-Step :
      (now : ℕ) (rest : List Item) (w : Walk M)
      → Suffix w.ctx rest
      → Step ops w.ctx (suspect_loop ops now rest w).ctx
  unfolding suspect_loop
  suspect_loop-Step now [] w s = step_refl ops w.ctx
  suspect_loop-Step now (item ∷ rest) w s =
      let v = suspect_round-Visited now w item rest s.0 s.1 in
      step_trans ops v.step
        (suspect_loop-Step now rest (suspect_round ops now item rest w) v.suffix)

  confirm-Step :
      (targets : List Item) (ctx : SwimContext M) (rc : ℕ)
      → Step ops ctx (confirm ops targets ctx rc).0
  unfolding confirm
  confirm-Step [] ctx rc = step_refl ops ctx
  confirm-Step (item ∷ targets) ctx rc =
      step_trans ops (swim_updates_send-Step ops laws ctx item.si_id item.si_from)
        (confirm-Step targets _ _)

  pub swim_member_update_suspected-Step :
      (ctx : SwimContext M) (now : ℕ) → Step ops ctx (swim_member_update_suspected ops ctx now).0
  unfolding swim_member_update_suspected
  swim_member_update_suspected-Step ctx now =
      step_trans ops
        (suspect_loop-Step now ctx.sc_suspects (record { ctx = ctx; targets = []; code = 0 })
          ([], refl))
        (confirm-Step _ _ _)

  pub swim_ipings_update-Step :
      (ctx : SwimContext M) (now : ℕ) → Step ops ctx (swim_ipings_update ops ctx now).0
  unfolding swim_ipings_update
  swim_ipings_update-Step ctx now = quiet ops ctx _ refl (λ q. refl) refl (λ q. omega arith)

  subgroup_loop-Step : (n : ℕ) (ctx : SwimContext M) → Step ops ctx (subgroup_loop ops n ctx).0
  unfolding subgroup_loop
  subgroup_loop-Step zero ctx = step_refl ops ctx
  subgroup_loop-Step (suc n) ctx =
      let (m, id) = ops.get_iping_target ctx.sc_data ctx.sc_self in
      let asked =
        quiet ops ctx (record ctx { sc_data = m }) refl (laws.iping_keeps ctx.sc_data ctx.sc_self)
          refl (λ q. omega arith) in
      let alloc =
        quiet ops (record ctx { sc_data = m }) (record ctx { sc_data = (ops.alloc m).0 }) refl
          (laws.alloc_keeps m) refl (λ q. omega arith) in
      elim (Bool-cases (id == swim_id_invalid)) [
        | inl e ↦ rw e asked
        | inr e ↦ rw e (elim (Bool-cases (ops.alloc m).1) [
          | inl got ↦ rw got (
              let listed =
                quiet ops (record ctx { sc_data = (ops.alloc m).0 })
                  (record ctx {
                    sc_data = (ops.alloc m).0;
                    sc_subgroup =
                        ctx.sc_subgroup ++ (record { si_id = id; si_from = 0; u = 0 } ∷ []);
                  })
                  refl (λ q. refl) refl (λ q. omega arith) in
              step_trans ops asked
                (step_trans ops alloc (step_trans ops listed (subgroup_loop-Step n _))))
          | inr full ↦ rw full (step_trans ops asked alloc)
        ])
      ]

  pub swim_subgroup_init-Step : (ctx : SwimContext M) → Step ops ctx (swim_subgroup_init ops ctx).0
  unfolding swim_subgroup_init
  swim_subgroup_init-Step ctx = subgroup_loop-Step swim_subgroup_size ctx
