-- ===== src/Swim/Updates.antt =====
-- The gossip: swim_updates_send and swim_updates_notify of src/swim/swim.c.
use cart.Prelude.{
  ℕ, ◌+◌, Bool, true, false, ◌&&◌, ◌||◌, not, List, [], ◌∷◌, ◌++◌, length, ltb, leb, ◌==◌,
  if◌then◌else◌, Result, ok, err, ◌>>=◌, der_nonexist,
}
use cart.Swim.{
  MemberState, MemberUpdate, Item, SwimContext, SwimOps, u64, swim_id_invalid,
  swim_piggyback_entries, einval, enomem,
}

-- Whether the search of a list for an id finds an item.
abbrev pub has_item : ℕ → List Item → Bool
has_item id [] = false
has_item id (x ∷ xs) = if x.si_id == id then true else has_item id xs

-- TAILQ_REMOVE of the item that the search finds
abbrev pub remove_first : ℕ → List Item → List Item
remove_first id [] = []
remove_first id (x ∷ xs) = if x.si_id == id then xs else x ∷ remove_first id xs

-- What the loop of swim_updates_send makes of one item.
pub data Visit : Type 0 where
  removed : Visit
  kept : List MemberUpdate → Visit
  failed : ℕ → Visit

unfoldable pub visit : (ℕ → Result MemberState) → (nupds id self_id i : ℕ) → Item → Visit
visit get nupds id self_id i item =
    if leb nupds i
    then removed
    else if not (item.si_id == id) && not (item.si_id == self_id)
    then elim (get item.si_id) [
      | err e ↦ if e == der_nonexist then removed else failed e
      | ok st ↦ kept (record { smu_id = item.si_id; smu_state = st } ∷ [])
    ]
    else kept []

-- `++item->u.si_count > ctx->sc_piggyback_tx_max`
unfoldable pub counted : (tx_max : ℕ) → Item → List Item
counted tx_max item =
    let n = u64 (item.u + 1) in if ltb tx_max n then [] else record item { u = n } ∷ []

-- The updates so far, the list of updates that is left, and the return code.
pub record Gathered : Type 0 where
  pub upds : List MemberUpdate
  pub left : List Item
  pub rc : ℕ

-- What follows the visit of an item, where `rest` is the loop over the items behind it.
unfoldable pub after_visit :
    (tx_max : ℕ)
    → List MemberUpdate
    → Item
    → List Item
    → (List MemberUpdate → Gathered)
    → Visit
    → Gathered
after_visit tx_max upds item items rest removed = rest upds
after_visit tx_max upds item items rest (failed e) = record {
  upds = upds;
  left = item ∷ items;
  rc = e;
}
after_visit tx_max upds item items rest (kept new) =
    let g = rest (upds ++ new) in record g { left = counted tx_max item ++ g.left }

-- The loop of swim_updates_send over the list of updates, with the updates gathered before.
unfoldable pub gather :
    (ℕ → Result MemberState)
    → (nupds tx_max id self_id : ℕ) → List MemberUpdate
    → List Item
    → Gathered
gather get nupds tx_max id self_id upds [] = record { upds = upds; left = []; rc = 0 }
gather get nupds tx_max id self_id upds (item ∷ items) =
    after_visit tx_max upds item items (λ upds'. gather get nupds tx_max id self_id upds' items)
      (visit get nupds id self_id (length upds) item)

-- The updates that every message starts with: the member that it is about, and the sender.
unfoldable pub first_updates :
    (ℕ → Result MemberState) → (id self_id : ℕ) → Result (List MemberUpdate)
first_updates get id self_id = do
  st ← get id
  if id == self_id then ok (record { smu_id = id; smu_state = st } ∷ []) else (do
    self_st ← get self_id
    ok (
        record { smu_id = id; smu_state = st }
        ∷ record { smu_id = self_id; smu_state = self_st }
        ∷ []))

abbrev pub max_updates : (id self_id : ℕ) → ℕ
max_updates id self_id = swim_piggyback_entries + (if id == self_id then 1 else 2)

-- The item of swim_updates_notify for this id, from the start of its transfers.
abbrev pub refresh : (from id : ℕ) → List Item → List Item
refresh from id [] = []
refresh from id (x ∷ xs) =
    if x.si_id == id then record x { si_from = from; u = 0 } ∷ xs else x ∷ refresh from id xs

module _ {M : Type 0} (ops : SwimOps M) where
  -- An allocation: the context after it, and whether it succeeds.
  abbrev pub allocate : SwimContext M → SwimContext M × Bool
  allocate ctx = let r = ops.alloc ctx.sc_data in (record ctx { sc_data = r.0 }, r.1)

  -- swim_updates_send from the lock on, once the array is allocated.
  unfoldable pub send_gathered : SwimContext M → (id to : ℕ) → SwimContext M × ℕ
  send_gathered ctx id to =
      let get = ops.get_member_state ctx.sc_data in
      elim (first_updates get id ctx.sc_self) [
        | err e ↦ (ctx, e)
        | ok upds ↦
            let g =
              gather get (max_updates id ctx.sc_self) ctx.sc_piggyback_tx_max id ctx.sc_self upds
                ctx.sc_updates in
            if g.rc == 0
            then (let sent = ops.send_message ctx.sc_data ctx.sc_self to g.upds in
                (record ctx { sc_updates = g.left; sc_data = sent.0 }, sent.1))
            else (record ctx { sc_updates = g.left }, g.rc)
      ]

  unfoldable pub swim_updates_send : SwimContext M → (id to : ℕ) → SwimContext M × ℕ
  swim_updates_send ctx id to =
      if id == swim_id_invalid || to == swim_id_invalid
      then (ctx, einval)
      else (let (ctx', got) = allocate ctx in
          if got then send_gathered ctx' id to else (ctx', enomem))

  -- The update is lost where there is no memory for it, and no one is told.
  unfoldable pub queue_update : SwimContext M → (from id : ℕ) → SwimContext M
  queue_update ctx from id =
      if has_item id ctx.sc_updates
      then record ctx { sc_updates = refresh from id ctx.sc_updates }
      else (let (ctx', got) = allocate ctx in
          if got
          then record ctx' {
            sc_updates = record { si_id = id; si_from = from; u = 0 } ∷ ctx.sc_updates;
          }
          else ctx')

  -- `ctx->sc_ops->set_member_state`
  unfoldable pub set_state : SwimContext M → ℕ → MemberState → SwimContext M × ℕ
  set_state ctx id st =
      let r = ops.set_member_state ctx.sc_data id st in (record ctx { sc_data = r.0 }, r.1)

  unfoldable pub swim_updates_notify :
      SwimContext M → (from id : ℕ) → MemberState → SwimContext M × ℕ
  swim_updates_notify ctx from id id_state = set_state (queue_update ctx from id) id id_state
