-- ===== src/Membs/Ring.antt =====
-- The circular list of members under crt_swim_rank_add and crt_swim_rank_del of
-- src/cart/crt_swim.c.
use cart.Prelude.{
  ℕ, zero, suc, ◌+◌, ◌-◌, ◌%◌, ◌≤◌, ◌<◌, ◌≡◌, refl, ap, Bool, true, false, List, [], ◌∷◌, map,
  count, length, ltb, ◌==◌, if◌then◌else◌, arith, Bool-cases, inl, inr,
}
use native.Mathlib.Decide.{ℕ_discrete}
use cart.Membs.{Target, Below, CrtSwimMembs, is_member, loop_next}
use cart.Membs.Ranks.{
  crt_no_rank, insert_after, remove, index_of, turn, newcomer, self_target, shifted, delete,
  crt_swim_rank_del, join, found_list, crt_swim_rank_add,
}

abbrev pub cst_ids : List Target → List ℕ
cst_ids ring = map (λ t. t.cst_id) ring

-- No id is twice in the list, and the current target is in it; the index is 0 where it is empty.
pub record IsRing {E : Type 0} (csm : CrtSwimMembs E) : Type 0 where
  pub once : (q : ℕ) → count q (cst_ids csm.csm_head) ≤ 1
  pub within : csm.csm_target ≤ length csm.csm_head - 1

pub is_member-count :
    (ring : List Target) (q : ℕ) → is_member ring q ≡ ltb 0 (count q (cst_ids ring))
unfolding is_member
is_member-count [] q = refl
is_member-count (x ∷ ring) q = ground (arith, is_member-count ring q)

count-remove :
    (ring : List Target) (id q : ℕ)
    → count q (cst_ids (remove ring id)) ≡ count q (cst_ids ring) - (if q == id then 1 else 0)
count-remove [] id q = ground arith
count-remove (x ∷ ring) id q = elim (ℕ_discrete x.cst_id id) [
  | yes e ↦ ground arith
  | no ne ↦ elim (ℕ_discrete q id) [
    | yes e' ↦ ground (arith, count-remove ring id q)
    | no ne' ↦ ground (arith, count-remove ring id q)
  ]
]

pub length-remove :
    (ring : List Target) (id : ℕ)
    → is_member ring id ≡ true
    → suc (length (remove ring id)) ≡ length ring
unfolding is_member
length-remove [] id h = absurd (cc h)
length-remove (x ∷ ring) id h = elim (Bool-cases (x.cst_id == id)) [
  | inl e ↦ rw e refl
  | inr e ↦ rw e (ap suc (length-remove ring id (rw e at h)))
]

index_of-lt :
    (ring : List Target) (id : ℕ) → is_member ring id ≡ true → index_of ring id < length ring
unfolding is_member
index_of-lt [] id h = absurd (cc h)
index_of-lt (x ∷ ring) id h = elim (Bool-cases (x.cst_id == id)) [
  | inl e ↦ rw e (omega arith)
  | inr e ↦ rw e (omega (arith, index_of-lt ring id (rw e at h)))
]

length-insert_after :
    (ring : List Target) (i : ℕ) (t : Target) → length (insert_after ring i t) ≡ suc (length ring)
length-insert_after [] i t = refl
length-insert_after (x ∷ ring) zero t = refl
length-insert_after (x ∷ ring) (suc i) t = ap suc (length-insert_after ring i t)

count-insert_after :
    (ring : List Target) (i q : ℕ) (t : Target)
    → count q (cst_ids (insert_after ring i t))
      ≡ count q (cst_ids ring) + (if q == t.cst_id then 1 else 0)
count-insert_after [] i q t = omega arith
count-insert_after (x ∷ ring) zero q t = omega arith
count-insert_after (x ∷ ring) (suc i) q t = omega (arith, count-insert_after ring i q t)

turn-lt : (steps n i : ℕ) → i < n → turn steps n i < n
turn-lt zero n i h = h
turn-lt (suc steps) n i h = turn-lt steps n (loop_next n i) (ground arith)

removed_within :
    (n k i : ℕ)
    → i < suc (suc n)
    → k < suc (suc n)
    → shifted k (if i == k then loop_next (suc (suc n)) i else i) < suc n
removed_within n k i h k' = ground arith

module _ {E : Type 0} (b : Below E) where
  delete-IsRing :
      (csm : CrtSwimMembs E) (sc_self rank : ℕ)
      → IsRing csm
      → is_member csm.csm_head rank ≡ true
      → IsRing (delete b csm sc_self rank).csm
  unfolding delete
  delete-IsRing csm sc_self rank r h =
      let ring = remove csm.csm_head rank in
      let size = length-remove csm.csm_head rank h in
      let once : (q : ℕ) → count q (cst_ids ring) ≤ 1 =
        λ q. rw (count-remove csm.csm_head rank q) (omega (arith, r.once q)) in
      elim (Bool-cases (length ring == 0)) [
        | inl e ↦ rw e (record { once = once; within = omega arith })
        | inr e ↦
            let n = length ring - 1 in
            let full : length csm.csm_head ≡ suc (suc n) = ground (arith, size) in
            let left : length ring ≡ suc n = ground arith in
            let place =
              removed_within n (index_of csm.csm_head rank) csm.csm_target
                (omega (arith, r.within, full))
                (omega (arith, index_of-lt csm.csm_head rank h, full)) in
            rw e (record { once = once; within = rw full (omega (arith, place, left)) })
      ]

  del-IsRing :
      (service : Bool) (csm : CrtSwimMembs E) (sc_self rank : ℕ)
      → IsRing csm
      → IsRing (crt_swim_rank_del b service csm sc_self rank).csm
  unfolding crt_swim_rank_del
  del-IsRing false csm sc_self rank r = r
  del-IsRing true csm sc_self rank r = elim (Bool-cases (is_member csm.csm_head rank)) [
    | inl e ↦ rw e (delete-IsRing csm sc_self rank r e)
    | inr e ↦ rw e r
  ]

  join-IsRing :
      (random : ℕ) (csm : CrtSwimMembs E) (self rank : ℕ)
      → IsRing csm
      → is_member csm.csm_head rank ≡ false
      → IsRing (join b random csm self rank).csm
  unfolding join
  join-IsRing random csm self rank r h =
      let ring = insert_after csm.csm_head csm.csm_target (newcomer rank) in
      let size : length ring ≡ suc (length csm.csm_head) =
        length-insert_after csm.csm_head csm.csm_target (newcomer rank) in
      record {
        once = λ q. ground (
          arith,
          count-insert_after csm.csm_head csm.csm_target q (newcomer rank),
          r.once q,
          is_member-count csm.csm_head rank,
          h,
        );
        within = omega (
          arith,
          turn-lt (1 + random % (csm.gp_size + 1)) (length ring) csm.csm_target
              (omega (arith, size, r.within)),
        );
      }

  self-IsRing :
      (csm : CrtSwimMembs E) (self : ℕ)
      → IsRing (record csm { csm_head = self_target self ∷ []; csm_target = 0 })
  self-IsRing csm self = record { once = λ q. ground arith; within = omega arith }

  found_list-IsRing :
      (random : ℕ) (csm : CrtSwimMembs E) (sc_self self rank : ℕ)
      → IsRing (found_list b random csm sc_self self rank).csm
  unfolding found_list is_member
  found_list-IsRing random csm sc_self self rank =
      let alone : IsRing (record csm { csm_head = self_target self ∷ []; csm_target = 0 }) =
        self-IsRing csm self in
      let csm' : CrtSwimMembs E = record csm {
        csm_head = self_target self ∷ [];
        csm_target = 0;
        below = (b.alloc csm.below).0;
      } in
      let alone' : IsRing csm' = record { once = alone.once; within = alone.within } in
      elim (Bool-cases (rank == self)) [
        | inl e ↦ rw e alone
        | inr e ↦ rw e (elim (Bool-cases (b.alloc csm.below).1) [
          | inl got ↦ rw got (join-IsRing random csm' self rank alone' (ground (arith, e)))
          | inr full ↦ rw full (del-IsRing true csm' sc_self self alone')
        ])
      ]

  add-IsRing :
      (service : Bool) (random : ℕ) (csm : CrtSwimMembs E) (sc_self self rank : ℕ)
      → IsRing csm
      → IsRing (crt_swim_rank_add b service random csm sc_self self rank).csm
  unfolding crt_swim_rank_add
  add-IsRing false random csm sc_self self rank r = r
  add-IsRing true random csm sc_self self rank r =
      let csm' : CrtSwimMembs E = record csm { below = (b.alloc csm.below).0 } in
      let r' : IsRing csm' = record { once = r.once; within = r.within } in
      elim (Bool-cases (self == crt_no_rank)) [
        | inl a ↦ rw a r
        | inr a ↦ elim (Bool-cases (b.alloc csm.below).1) [
          | inl got ↦ elim (Bool-cases (length csm.csm_head == 0)) [
            | inl c ↦ rw (a, got, c) (found_list-IsRing random csm' sc_self self rank)
            | inr c ↦ elim (Bool-cases (is_member csm.csm_head rank)) [
              | inl d ↦ rw (a, got, c, d) r'
              | inr d ↦ elim (Bool-cases (rank == self)) [
                | inl e ↦ rw (a, got, c, d, e) r'
                | inr e ↦ rw (a, got, c, d, e) (join-IsRing random csm' self rank r' d)
              ]
            ]
          ]
          | inr full ↦ rw (a, full) r'
        ]
      ]

  -- crt_swim_rank_add and crt_swim_rank_del keep the list of members a ring, on every branch: no
  -- id comes to stand in it twice, and the current target stays in the list.
  pub ranks-IsRing :
      (service : Bool) (random : ℕ) (csm : CrtSwimMembs E) (sc_self self rank : ℕ)
      → IsRing csm
      → IsRing (crt_swim_rank_add b service random csm sc_self self rank).csm
        × IsRing (crt_swim_rank_del b service csm sc_self rank).csm
  ranks-IsRing service random csm sc_self self rank r =
      (add-IsRing service random csm sc_self self rank r, del-IsRing service csm sc_self rank r)
