-- ===== src/Swim/Sends.antt =====
-- What a message of swim_updates_send (src/swim/swim.c) holds.
use cart.Prelude.{
  ℕ, suc, ◌+◌, ◌≤◌, ◌<◌, ◌≡◌, ◌≢◌, refl, ap, sym, ◌∙◌, Bool, true, false, not, ◌&&◌, ◌||◌, List, [],
  ◌∷◌, ◌++◌, map, count, count-append, length, length-append, All, ◌==◌, ltb, leb, if◌then◌else◌,
  Result, ok, err, arith, Bool-cases, inl, inr, der_nonexist,
}
use cart.Swim.{
  MemberState, MemberUpdate, Item, SwimContext, SwimOps, u64, swim_id_invalid,
  swim_piggyback_entries,
}
use cart.Swim.Updates.{
  Visit, removed, kept, failed, visit, counted, Gathered, after_visit, gather, first_updates,
  max_updates, send_gathered, swim_updates_send,
}
use cart.Swim.Told.{visited, told, remaining, gather-told}
use cart.Swim.Items.{ids}
use cart.Swim.Steps.{IsConsistent}
use cart.Swim.Verdicts.{Result-cases}

abbrev pub smu_ids : List MemberUpdate → List ℕ
smu_ids upds = map (λ u. u.smu_id) upds

-- Every update gives the state of its member.
abbrev pub AllCurrent : (ℕ → Result MemberState) → List MemberUpdate → Type 0
AllCurrent get upds = All (λ u. get u.smu_id ≡ ok u.smu_state) upds

AllCurrent-append :
    (get : ℕ → Result MemberState) (xs ys : List MemberUpdate)
    → AllCurrent get xs
    → AllCurrent get ys
    → AllCurrent get (xs ++ ys)
AllCurrent-append get [] ys a b = b
AllCurrent-append get (x ∷ xs) ys a b = (a.0, AllCurrent-append get xs ys a.1 b)

smu_ids-append : (xs ys : List MemberUpdate) → smu_ids (xs ++ ys) ≡ smu_ids xs ++ smu_ids ys
smu_ids-append [] ys = refl
smu_ids-append (x ∷ xs) ys = ap (◌∷◌ x.smu_id) (smu_ids-append xs ys)

append_assoc : (xs ys zs : List MemberUpdate) → xs ++ ys ++ zs ≡ xs ++ (ys ++ zs)
append_assoc [] ys zs = refl
append_assoc (x ∷ xs) ys zs = ap (◌∷◌ x) (append_assoc xs ys zs)

module _ (get : ℕ → Result MemberState) (nupds tx_max id self_id : ℕ) where
  -- The id is neither that of the member that the message is about nor the own id.
  abbrev other : ℕ → Bool
  other q = not (q == id) && not (q == self_id)

  -- A visit that does not fail adds a current update of another member, if there is room for it.
  abbrev IsSound : (i : ℕ) → Item → Visit → Type 0
  IsSound i item removed = Unit
  IsSound i item (failed e) = e < e
  IsSound i item (kept new) =
      AllCurrent get new
      × (i + length new ≤ nupds)
      × ((q : ℕ)
          → count q (smu_ids new) ≤ (if other q then (if q == item.si_id then 1 else 0) else 0))

  visit-IsSound :
      ((q e : ℕ) → get q ≡ err e → e ≡ der_nonexist)
      → (i : ℕ) (item : Item) → IsSound i item (visit get nupds id self_id i item)
  unfolding visit
  visit-IsSound unknown i item = elim (Bool-cases (leb nupds i)) [
    | inl full ↦ rw full tt
    | inr room ↦ elim (Bool-cases (not (item.si_id == id) && not (item.si_id == self_id))) [
      | inl a ↦
          rw (room, a)
            (elim (Result-cases (get item.si_id)) [
              | inl (e, gone) ↦
                  let test : (e == der_nonexist) ≡ true =
                    ground (arith, unknown item.si_id e gone) in
                  rw (gone, visit, test) tt
              | inr (st, known) ↦
                  rw (known, visit) ((known, tt), ground (arith, room), λ q. ground (arith, a))
            ])
      | inr a ↦ rw (room, a) (tt, ground (arith, room), λ q. ground arith)
    ]
  ]

  -- What the loop adds to the updates, where its items are these.
  record Adds (upds : List MemberUpdate) (items : List Item) (g : Gathered) : Type 0 where
    success : g.rc ≡ 0
    more : List MemberUpdate
    added : g.upds ≡ upds ++ more
    current : AllCurrent get more
    fits : length upds + length more ≤ nupds
    others : (q : ℕ) → count q (smu_ids more) ≤ (if other q then count q (ids items) else 0)
    fresh : All (λ item. item.u ≤ tx_max) g.left

  counted-fresh :
      (item : Item) (left : List Item)
      → All (λ x. x.u ≤ tx_max) left
      → All (λ x. x.u ≤ tx_max) (counted tx_max item ++ left)
  unfolding counted
  counted-fresh item left a = elim (Bool-cases (ltb tx_max (u64 (item.u + 1)))) [
    | inl e ↦ rw e a
    | inr e ↦ rw e (ground (arith, e), a)
  ]

  after_visit-Adds :
      (upds : List MemberUpdate) (item : Item) (items : List Item)
      (rest : List MemberUpdate → Gathered) (v : Visit)
      → length upds ≤ nupds
      → ((upds' : List MemberUpdate) → length upds' ≤ nupds → Adds upds' items (rest upds'))
      → IsSound (length upds) item v
      → Adds upds (item ∷ items) (after_visit tx_max upds item items rest v)
  unfolding after_visit
  after_visit-Adds upds item items rest removed h ih s =
      let a = ih upds h in
      record {
        success = a.success;
        more = a.more;
        added = a.added;
        current = a.current;
        fits = a.fits;
        others = λ q. ground (arith, a.others q);
        fresh = a.fresh;
      }
  after_visit-Adds upds item items rest (failed e) h ih s = absurd (omega (arith, s))
  after_visit-Adds upds item items rest (kept new) h ih (now, room, one) =
      let size = length-append upds new in
      let a = ih (upds ++ new) (omega (arith, size, room)) in
      record {
        success = a.success;
        more = new ++ a.more;
        added = a.added ∙ append_assoc upds new a.more;
        current = AllCurrent-append get new a.more now a.current;
        fits = omega (arith, size, a.fits, length-append new a.more);
        others = λ q.
            rw (smu_ids-append new a.more, count-append q (smu_ids new) (smu_ids a.more))
              (ground (arith, one q, a.others q));
        fresh = counted-fresh item _ a.fresh;
      }

  gather-Adds :
      ((q e : ℕ) → get q ≡ err e → e ≡ der_nonexist)
      → (upds : List MemberUpdate) (items : List Item) → length upds ≤ nupds
      → Adds upds items (gather get nupds tx_max id self_id upds items)
  unfolding gather
  gather-Adds unknown upds [] h = record {
    success = refl;
    more = [];
    added = sym (append_none upds);
    current = tt;
    fits = omega arith;
    others = λ q. ground arith;
    fresh = tt;
  }
    where
      append_none : (xs : List MemberUpdate) → xs ++ [] ≡ xs
      append_none [] = refl
      append_none (x ∷ xs) = ap (◌∷◌ x) (append_none xs)
  gather-Adds unknown upds (item ∷ items) h =
      after_visit-Adds upds item items _ _ h (λ upds' h'. gather-Adds unknown upds' items h')
        (visit-IsSound unknown (length upds) item)

-- A message about a member: it starts with the state of that member, all its updates are current,
-- no member is in it twice, and there are at most ten of them.
pub record IsMessage (get : ℕ → Result MemberState) (id self_id : ℕ) (upds : List MemberUpdate)
    : Type 0 where
  pub about :
      (st : MemberState) × (rest : List MemberUpdate) × (upds
        ≡ record { smu_id = id; smu_state = st } ∷ rest)
  pub current : AllCurrent get upds
  pub once : (q : ℕ) → count q (smu_ids upds) ≤ 1
  pub tells_own : 0 < count self_id (smu_ids upds)
  pub size : length upds ≤ 10

-- The update about ourselves, in a message about another member
abbrev pub own_update : (id self_id : ℕ) → MemberState → List MemberUpdate
own_update id self_id self_st =
    if id == self_id then [] else record { smu_id = self_id; smu_state = self_st } ∷ []

-- The updates that every message starts with
record Starts (get : ℕ → Result MemberState) (id self_id : ℕ) (st self_st : MemberState)
    : Type 0 where
  own : List MemberUpdate
  is_own : own ≡ own_update id self_id self_st
  found : first_updates get id self_id ≡ ok (record { smu_id = id; smu_state = st } ∷ own)
  current : AllCurrent get (record { smu_id = id; smu_state = st } ∷ own)
  size : suc (length own) + swim_piggyback_entries ≡ max_updates id self_id
  counts :
      (q : ℕ)
      → count q (smu_ids (record { smu_id = id; smu_state = st } ∷ own))
        ≡ (if not (q == id) && not (q == self_id) then 0 else 1)

starts :
    (get : ℕ → Result MemberState) (id self_id : ℕ) (st self_st : MemberState)
    → get id ≡ ok st
    → get self_id ≡ ok self_st
    → Starts get id self_id st self_st
unfolding first_updates
starts get id self_id st self_st known self_known = elim (Bool-cases (id == self_id)) [
  | inl e ↦ record {
    own = [];
    is_own = rw e refl;
    found = rw (known, first_updates, e) refl;
    current = (known, tt);
    size = rw e (omega arith);
    counts = λ q. ground (arith, e);
  }
  | inr e ↦ record {
    own = record { smu_id = self_id; smu_state = self_st } ∷ [];
    is_own = rw e refl;
    found = rw (known, first_updates, e, self_known) refl;
    current = (known, (self_known, tt));
    size = rw e (omega arith);
    counts = λ q. ground (arith, e);
  }
]

max_updates-le : (id self_id : ℕ) → max_updates id self_id ≤ 10
max_updates-le id self_id = ground arith

module _ {M : Type 0} (ops : SwimOps M) where
  -- For a consistent context, valid ids, an allocation that succeeds, and a member and a sender
  -- that are known, where get_member_state refuses no other member but with DER_NONEXIST:
  -- swim_updates_send gives send_message one message and hands back its return code. The message
  -- starts with the state of the member and, if it is another, the own state; the current states of
  -- the other members in the list of updates follow, in the order of the list, until there are eight of
  -- them. It holds no member twice and at most ten, and all its states are current. Of the list those
  -- updates are left that come up to the eighth of these, whose members are not gone and which have
  -- been sent no more often than the maximum, this time included.
  pub swim_updates_send-IsMessage :
      (ctx : SwimContext M) (id to : ℕ) (st self_st : MemberState)
      → IsConsistent ops ctx
      → id ≢ swim_id_invalid
      → to ≢ swim_id_invalid
      → (ops.alloc ctx.sc_data).1 ≡ true
      → ops.get_member_state (ops.alloc ctx.sc_data).0 id ≡ ok st
      → ops.get_member_state (ops.alloc ctx.sc_data).0 ctx.sc_self ≡ ok self_st
      → ((q e : ℕ) → ops.get_member_state (ops.alloc ctx.sc_data).0 q ≡ err e → e ≡ der_nonexist)
      → (upds : List MemberUpdate) × (left : List Item) × (swim_updates_send ops ctx id to ≡ (
        record ctx {
          sc_updates = left;
          sc_data = (ops.send_message (ops.alloc ctx.sc_data).0 ctx.sc_self to upds).0;
        },
        (ops.send_message (ops.alloc ctx.sc_data).0 ctx.sc_self to upds).1,
      ))
        × IsMessage (ops.get_member_state (ops.alloc ctx.sc_data).0) id ctx.sc_self upds
        × All (λ item. item.u ≤ ctx.sc_piggyback_tx_max) left
        × (let get = ops.get_member_state (ops.alloc ctx.sc_data).0 in
            let items = visited get id ctx.sc_self swim_piggyback_entries ctx.sc_updates in
            (upds
              ≡ record { smu_id = id; smu_state = st } ∷ own_update id ctx.sc_self self_st
                ++ told get id ctx.sc_self items)
            × (left ≡ remaining get id ctx.sc_self ctx.sc_piggyback_tx_max items))
  unfolding swim_updates_send send_gathered first_updates
  swim_updates_send-IsMessage ctx id to st self_st c good_id good_to memory known self_known
        unknown =
      let get = ops.get_member_state (ops.alloc ctx.sc_data).0 in
      let valid : (id == swim_id_invalid || to == swim_id_invalid) ≡ false = ground arith in
      let a = starts get id ctx.sc_self st self_st known self_known in
      let first : List MemberUpdate = record { smu_id = id; smu_state = st } ∷ a.own in
      let g =
        gather get (max_updates id ctx.sc_self) ctx.sc_piggyback_tx_max id ctx.sc_self first
          ctx.sc_updates in
      let adds =
        gather-Adds get (max_updates id ctx.sc_self) ctx.sc_piggyback_tx_max id ctx.sc_self unknown
          first ctx.sc_updates (omega (arith, a.size)) in
      let items = visited get id ctx.sc_self swim_piggyback_entries ctx.sc_updates in
      let described =
        gather-told get (max_updates id ctx.sc_self) ctx.sc_piggyback_tx_max id ctx.sc_self unknown
          swim_piggyback_entries first ctx.sc_updates (omega (arith, a.size)) in
      let success : (g.rc == 0) ≡ true = ground (arith, adds.success) in
      (
        g.upds,
        g.left,
        rw (valid, memory, a.found, send_gathered, success) refl,
        rw adds.added (
            message get id ctx.sc_self st a.own adds.more a.current adds.current
              (omega (arith, adds.fits, max_updates-le id ctx.sc_self))
              (λ q. ground (arith, a.counts q, adds.others q, c.updates_once q))
              (ground (arith, a.counts ctx.sc_self))),
        adds.fresh,
        (
          ap (λ x. x.upds) described
              ∙ ap
                  (λ own.
                    record { smu_id = id; smu_state = st } ∷ own ++ told get id ctx.sc_self items)
                  a.is_own,
          ap (λ x. x.left) described,
        ),
      )
    where
      message :
          (get : ℕ → Result MemberState) (id self_id : ℕ) (st : MemberState)
          (own more : List MemberUpdate)
          → AllCurrent get (record { smu_id = id; smu_state = st } ∷ own)
          → AllCurrent get more
          → suc (length own) + length more ≤ 10
          → ((q : ℕ)
              → count q (smu_ids (record { smu_id = id; smu_state = st } ∷ own))
                  + count q (smu_ids more)
                ≤ 1)
          → 0 < count self_id (smu_ids (record { smu_id = id; smu_state = st } ∷ own))
          → IsMessage get id self_id ((record { smu_id = id; smu_state = st } ∷ own) ++ more)
      message get id self_id st own more now now' room once tells =
          let first : List MemberUpdate = record { smu_id = id; smu_state = st } ∷ own in
          let ids_split = smu_ids-append first more in
          record {
            about = (st, own ++ more, refl);
            current = AllCurrent-append get first more now now';
            once = λ q. omega (
              arith,
              once q,
              ap (count q) ids_split,
              count-append q (smu_ids first) (smu_ids more),
            );
            tells_own = omega (
              arith,
              tells,
              ap (count self_id) ids_split,
              count-append self_id (smu_ids first) (smu_ids more),
            );
            size = omega (arith, length-append first more, room);
          }
