-- ===== src/Swim/Suspects.antt =====
-- The timeouts: swim_member_update_suspected, swim_ipings_update and swim_subgroup_init of
-- src/swim/swim.c.
use cart.Prelude.{
  ℕ, zero, suc, ◌+◌, ◌-◌, not, List, [], ◌∷◌, ◌++◌, length, set, keep_if, ltb, ◌==◌, if◌then◌else◌,
  ok, err,
}
use cart.Swim.{Item, SwimContext, SwimOps, u64, swim_id_invalid, swim_subgroup_size, enomem}
use cart.Swim.Updates.{allocate, swim_updates_send}
use cart.Swim.Members.{swim_member_dead}

-- The loop of swim_member_update_suspected: the context, the members to confirm, and the return
-- code.
pub record Walk (M : Type 0) : Type 0 where
  pub ctx : SwimContext M
  pub targets : List Item
  pub code : ℕ

-- TAILQ_REMOVE of the item at an index
abbrev pub remove_at : ℕ → List Item → List Item
remove_at i [] = []
remove_at zero (x ∷ xs) = xs
remove_at (suc i) (x ∷ xs) = x ∷ remove_at i xs

module _ {M : Type 0} (ops : SwimOps M) where
  -- A suspect whose origin is someone else: the origin is asked to confirm, and the suspicion
  -- becomes our own. `i` is the index of the item.
  unfoldable pub ask_origin : (i : ℕ) → Item → Walk M → Walk M
  ask_origin i item w =
      let suspects =
        set w.ctx.sc_suspects i
          (record item { si_from = w.ctx.sc_self; u = u64 (item.u + w.ctx.swim_ping_timeout) }) in
      let (ctx, got) = allocate ops (record w.ctx { sc_suspects = suspects }) in
      if got
      then record {
        ctx = ctx;
        targets = w.targets ++ (record { si_id = item.si_id; si_from = item.si_from; u = 0 } ∷ []);
        code = w.code;
      }
      else record { ctx = ctx; targets = w.targets; code = enomem }

  -- A suspect of our own is dead; a member that is gone leaves the list.
  unfoldable pub expire : (i : ℕ) → Item → Walk M → Walk M
  expire i item w = elim (ops.get_member_state w.ctx.sc_data item.si_id) [
    | ok st ↦ record w {
      ctx = (swim_member_dead ops w.ctx item.si_from item.si_id st.sms_incarnation).0;
      code = 0;
    }
    | err e ↦ record w {
      ctx = record w.ctx { sc_suspects = remove_at i w.ctx.sc_suspects };
      code = e;
    }
  ]

  -- One round: `rest` holds the items behind this one, so the index of this one is counted from
  -- the end.
  unfoldable pub suspect_round : (now : ℕ) → Item → (rest : List Item) → Walk M → Walk M
  suspect_round now item rest w =
      let i = length w.ctx.sc_suspects - suc (length rest) in
      if ltb item.u now
      then (if item.si_from == w.ctx.sc_self then expire i item w else ask_origin i item w)
      else w

  unfoldable pub suspect_loop : (now : ℕ) → List Item → Walk M → Walk M
  suspect_loop now [] w = w
  suspect_loop now (item ∷ rest) w = suspect_loop now rest (suspect_round now item rest w)

  -- The messages to the origins; the return code is that of the last one.
  unfoldable pub confirm : List Item → SwimContext M → ℕ → SwimContext M × ℕ
  confirm [] ctx rc = (ctx, rc)
  confirm (item ∷ targets) ctx rc =
      let (ctx', rc') = swim_updates_send ops ctx item.si_id item.si_from in
      confirm targets ctx' rc'

  unfoldable pub swim_member_update_suspected : SwimContext M → (now : ℕ) → SwimContext M × ℕ
  swim_member_update_suspected ctx now =
      let w = suspect_loop now ctx.sc_suspects (record { ctx = ctx; targets = []; code = 0 }) in
      confirm w.targets w.ctx w.code

  unfoldable pub swim_ipings_update : SwimContext M → (now : ℕ) → SwimContext M × ℕ
  swim_ipings_update ctx now =
      (record ctx { sc_ipings = keep_if (λ item. not (ltb item.u now)) ctx.sc_ipings }, 0)

  -- The loop of swim_subgroup_init, with the rounds left.
  unfoldable pub subgroup_loop : (rounds : ℕ) → SwimContext M → SwimContext M × ℕ
  subgroup_loop zero ctx = (ctx, 0)
  subgroup_loop (suc n) ctx =
      let (m, id) = ops.get_iping_target ctx.sc_data ctx.sc_self in
      let (ctx', got) = allocate ops (record ctx { sc_data = m }) in
      if id == swim_id_invalid
      then (record ctx { sc_data = m }, 0)
      else if got
      then subgroup_loop n (record ctx' {
        sc_subgroup = ctx'.sc_subgroup ++ (record { si_id = id; si_from = 0; u = 0 } ∷ []);
      })
      else (ctx', enomem)

  unfoldable pub swim_subgroup_init : SwimContext M → SwimContext M × ℕ
  swim_subgroup_init ctx = subgroup_loop swim_subgroup_size ctx
