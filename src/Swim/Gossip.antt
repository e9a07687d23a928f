-- ===== src/Swim/Gossip.antt =====
-- The messages of swim_updates_send (src/swim/swim.c).
use cart.Prelude.{
  ℕ, ◌≤◌, refl, ◌||◌, List, [], ◌∷◌, ◌++◌, count, ◌==◌, Result, arith, Bool-cases, inl, inr,
}
use cart.Swim.{MemberState, MemberUpdate, Item, SwimContext, SwimOps, swim_id_invalid}
use cart.Swim.Updates.{
  Visit, removed, kept, failed, counted, Gathered, after_visit, gather, first_updates, max_updates,
  allocate, send_gathered, swim_updates_send,
}
use cart.Swim.Items.{ids, count-ids-append}
use cart.Swim.Laws.{SwimLaws}
use cart.Swim.Steps.{Step, step_refl, step_trans, quiet}
use cart.Swim.Verdicts.{Result-cases}

count-counted :
    (q tx_max : ℕ) (item : Item) → count q (ids (counted tx_max item)) ≤ count q (ids (item ∷ []))
unfolding counted
count-counted q tx_max item = ground arith

count-after_visit :
    (tx_max q : ℕ) (upds : List MemberUpdate) (item : Item) (items : List Item)
    (rest : List MemberUpdate → Gathered) (v : Visit)
    → ((upds' : List MemberUpdate) → count q (ids (rest upds').left) ≤ count q (ids items))
    → count q (ids (after_visit tx_max upds item items rest v).left) ≤ count q (ids (item ∷ items))
unfolding after_visit
count-after_visit tx_max q upds item items rest removed h = omega (arith, h upds)
count-after_visit tx_max q upds item items rest (failed e) h = omega arith
count-after_visit tx_max q upds item items rest (kept new) h =
    rw (count-ids-append q (counted tx_max item) (rest (upds ++ new)).left)
      (omega (arith, count-counted q tx_max item, h (upds ++ new)))

pub count-gather :
    (get : ℕ → Result MemberState) (nupds tx_max id self_id q : ℕ) (upds : List MemberUpdate)
    (items : List Item)
    → count q (ids (gather get nupds tx_max id self_id upds items).left) ≤ count q (ids items)
unfolding gather
count-gather get nupds tx_max id self_id q upds [] = omega arith
count-gather get nupds tx_max id self_id q upds (item ∷ items) =
    count-after_visit tx_max q upds item items _ _
      (λ upds'. count-gather get nupds tx_max id self_id q upds' items)

module _ {M : Type 0} (ops : SwimOps M) (laws : SwimLaws ops) where
  send_gathered-Step :
      (ctx : SwimContext M) (id to : ℕ) → Step ops ctx (send_gathered ops ctx id to).0
  unfolding send_gathered
  send_gathered-Step ctx id to =
      let get = ops.get_member_state ctx.sc_data in
      elim (Result-cases (first_updates get id ctx.sc_self)) [
        | inl (e, fails) ↦ rw (fails, send_gathered) (step_refl ops ctx)
        | inr (upds, found) ↦
            let g =
              gather get (max_updates id ctx.sc_self) ctx.sc_piggyback_tx_max id ctx.sc_self upds
                ctx.sc_updates in
            let fewer = λ (q : ℕ).
              count-gather get (max_updates id ctx.sc_self) ctx.sc_piggyback_tx_max id ctx.sc_self q
                upds ctx.sc_updates in
            rw (found, send_gathered)
              (elim (Bool-cases (g.rc == 0)) [
                | inl sent ↦ rw sent (
                    quiet ops ctx _ refl (laws.send_keeps ctx.sc_data ctx.sc_self to g.upds) refl
                      fewer)
                | inr fails ↦ rw fails (quiet ops ctx _ refl (λ q. refl) refl fewer)
              ])
      ]

  pub swim_updates_send-Step :
      (ctx : SwimContext M) (id to : ℕ) → Step ops ctx (swim_updates_send ops ctx id to).0
  unfolding swim_updates_send
  swim_updates_send-Step ctx id to =
      elim (Bool-cases (id == swim_id_invalid || to == swim_id_invalid)) [
        | inl e ↦ rw e (step_refl ops ctx)
        | inr e ↦
            let alloc =
              quiet ops ctx (allocate ops ctx).0 refl (laws.alloc_keeps ctx.sc_data) refl
                (λ q. omega arith) in
            rw e (elim (Bool-cases (ops.alloc ctx.sc_data).1) [
              | inl got ↦
                  rw got (step_trans ops alloc (send_gathered-Step (allocate ops ctx).0 id to))
              | inr full ↦ rw full alloc
            ])
      ]
