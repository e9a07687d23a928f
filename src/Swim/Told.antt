-- ===== src/Swim/Told.antt =====
-- Which of the recent updates swim_updates_send (src/swim/swim.c) tells, and which it keeps.
use cart.Prelude.{
  ℕ, ◌+◌, ◌-◌, ◌<◌, ◌≡◌, refl, ap, sym, ◌∙◌, Bool, true, false, not, ◌&&◌, ◌||◌, List, [], ◌∷◌,
  ◌++◌, map, keep_if, length, length-append, append_nil, ◌==◌, ltb, leb, if◌then◌else◌, Result, ok,
  err, arith, Bool-cases, inl, inr, der_nonexist,
}
use cart.Swim.{MemberState, MemberUpdate, Item, u64}
use cart.Swim.Updates.{visit, counted, Gathered, after_visit, gather}
use cart.Swim.Verdicts.{Result-cases}

-- The update of a member, which is none if it is unknown.
abbrev pub update_of : ℕ → Result MemberState → List MemberUpdate
update_of q (ok st) = record { smu_id = q; smu_state = st } ∷ []
update_of q (err e) = []

abbrev pub is_known : Result MemberState → Bool
is_known (ok st) = true
is_known (err e) = false

abbrev pub sent_once : Item → Item
sent_once item = record item { u = u64 (item.u + 1) }

module _ (get : ℕ → Result MemberState) (id self_id : ℕ) where
  -- An update is news if it is neither about the member of the message nor about ourselves.
  abbrev pub is_news : Item → Bool
  is_news item = not (item.si_id == id) && not (item.si_id == self_id)

  -- The items for which there is room in the message, which has `room` places left: all up to the
  -- one that takes the last place.
  abbrev pub visited : (room : ℕ) → List Item → List Item
  visited room [] = []
  visited room (x ∷ xs) =
      let more = visited (if is_news x && is_known (get x.si_id) then room - 1 else room) xs in
      if room == 0 then [] else x ∷ more

  -- What the message tells of these items: the current states of the members that are known.
  abbrev pub told : List Item → List MemberUpdate
  told [] = []
  told (x ∷ xs) = (if is_news x then update_of x.si_id (get x.si_id) else []) ++ told xs

  -- Those that stay: the members are not gone, and they have been sent no more than `tx_max` times.
  abbrev pub remaining : (tx_max : ℕ) → List Item → List Item
  remaining tx_max items =
      keep_if (λ x. leb x.u tx_max)
        (map sent_once (keep_if (λ x. not (is_news x) || is_known (get x.si_id)) items))

append_assoc : {A : Type 0} (xs ys zs : List A) → xs ++ ys ++ zs ≡ xs ++ (ys ++ zs)
append_assoc [] ys zs = refl
append_assoc (x ∷ xs) ys zs = ap (◌∷◌ x) (append_assoc xs ys zs)

-- The count of an item, in the code and here.
counted-keep :
    (tx_max : ℕ) (item : Item) (left : List Item)
    → counted tx_max item ++ keep_if (λ x. leb x.u tx_max) left
      ≡ keep_if (λ x. leb x.u tx_max) (sent_once item ∷ left)
unfolding counted
counted-keep tx_max item left = elim (Bool-cases (leb (u64 (item.u + 1)) tx_max)) [
  | inl e ↦ let test : ltb tx_max (u64 (item.u + 1)) ≡ false = ground arith in rw (e, test) refl
  | inr e ↦ let test : ltb tx_max (u64 (item.u + 1)) ≡ true = ground arith in rw (e, test) refl
]

visited_full :
    (get : ℕ → Result MemberState) (id self_id room : ℕ) (items : List Item)
    → (room == 0) ≡ true
    → visited get id self_id room items ≡ []
visited_full get id self_id room [] h = refl
visited_full get id self_id room (x ∷ items) h = rw h refl

module _ (get : ℕ → Result MemberState) (nupds tx_max id self_id : ℕ)
    (unknown : (q e : ℕ) → get q ≡ err e → e ≡ der_nonexist) where
  abbrev gathered : ℕ → List MemberUpdate → List Item → Gathered
  gathered room upds items = record {
    upds = upds ++ told get id self_id (visited get id self_id room items);
    left = remaining get id self_id tx_max (visited get id self_id room items);
    rc = 0;
  }

  kept_one :
      (upds : List MemberUpdate) (item : Item) (left : List Item)
      → Path Gathered
          (record {
            upds = upds;
            left = counted tx_max item ++ keep_if (λ x. leb x.u tx_max) left;
            rc = 0;
          })
          (record {
            upds = upds;
            left = keep_if (λ x. leb x.u tx_max) (sent_once item ∷ left);
            rc = 0;
          })
  kept_one upds item left =
      ap (λ l. record { upds = upds; left = l; rc = 0 }) (counted-keep tx_max item left)

  pub gather-told :
      (room : ℕ) (upds : List MemberUpdate) (items : List Item)
      → length upds + room ≡ nupds
      → gather get nupds tx_max id self_id upds items ≡ gathered room upds items
  unfolding gather after_visit visit counted
  gather-told room upds [] h =
      ap (λ u. record { upds = u; left = []; rc = 0 }) (sym (append_nil upds))
  gather-told room upds (item ∷ items) h = elim (Bool-cases (room == 0)) [
    | inl none_left ↦
        let test : leb nupds (length upds) ≡ true = ground (arith, h) in
        rw test (
          gather-told room upds items h
          ∙ ap
              (λ v. record {
                upds = upds ++ told get id self_id v;
                left = remaining get id self_id tx_max v;
                rc = 0;
              })
              (visited_full get id self_id room items none_left
                ∙ sym (visited_full get id self_id room (item ∷ items) none_left)))
    | inr place ↦
        let test : leb nupds (length upds) ≡ false = ground (arith, h) in
        elim (Bool-cases (is_news get id self_id item)) [
          | inr own ↦
              let all = gather-told room (upds ++ []) items (rw (append_nil upds) h) in
              rw (test, own, place, all, append_nil upds)
                (rw own (
                  kept_one (upds ++ told get id self_id (visited get id self_id room items)) item
                    _))
          | inl news ↦ elim (Result-cases (get item.si_id)) [
            | inl (e, gone) ↦
                let gone_code : (e == der_nonexist) ≡ true =
                  ground (arith, unknown item.si_id e gone) in
                rw (test, news, place, gone, gone_code) (rw news (gather-told room upds items h))
            | inr (st, known) ↦
                let new : List MemberUpdate = record { smu_id = item.si_id; smu_state = st } ∷ [] in
                let all =
                  gather-told (room - 1) (upds ++ new) items
                    (omega (arith, h, length-append upds new, lt room place)) in
                rw (test, news, place, known, all)
                  (rw news (
                    ap
                      (λ u. record {
                        upds = u;
                        left =
                            counted tx_max item
                            ++ remaining get id self_id tx_max
                                (visited get id self_id (room - 1) items);
                        rc = 0;
                      })
                      (append_assoc upds new
                        (told get id self_id (visited get id self_id (room - 1) items)))
                    ∙ kept_one
                        (upds
                          ++ (new ++ told get id self_id (visited get id self_id (room - 1) items)))
                        item _))
          ]
        ]
  ]
    where
      lt : (n : ℕ) → (n == 0) ≡ false → 0 < n
      lt n e = ground arith
