-- ===== src/Membs/Known.antt =====
-- What is known of the members after crt_swim_rank_add and crt_swim_rank_del of
-- src/cart/crt_swim.c.
use cart.Prelude.{
  ℕ, zero, suc, ◌≤◌, ◌⊎◌, ◌≡◌, ◌≢◌, refl, ap, sym, ◌∙◌, Bool, true, false, not, ◌&&◌, List, [], ◌∷◌,
  count, length, ◌==◌, if◌then◌else◌, Result, ok, err, arith, Bool-cases, inl, inr, der_nonexist,
  der_already,
}
use native.Mathlib.Decide.{ℕ_discrete}
use cart.Swim.{alive, inactive, MemberState}
use cart.Membs.{Target, Below, CrtSwimMembs, find_state, is_member}
use cart.Membs.Ranks.{
  crt_no_rank, insert_after, remove, newcomer, self_target, delete, crt_swim_rank_del, join,
  found_list, crt_swim_rank_add,
}
use cart.Membs.Ring.{cst_ids, IsRing, is_member-count}

absent :
    (ring : List Target) (q : ℕ) → is_member ring q ≡ false → find_state ring q ≡ err der_nonexist
unfolding find_state is_member
absent [] q h = refl
absent (x ∷ ring) q h = elim (Bool-cases (x.cst_id == q)) [
  | inl e ↦ absurd (cc (rw e at h))
  | inr e ↦ rw e (absent ring q (rw e at h))
]

find_state-remove :
    (ring : List Target) (id q : ℕ)
    → count id (cst_ids ring) ≤ 1
    → find_state (remove ring id) q ≡ (if q == id then err der_nonexist else find_state ring q)
unfolding find_state
find_state-remove [] id q h = ground arith
find_state-remove (x ∷ ring) id q h = elim (Bool-cases (x.cst_id == id)) [
  | inl e ↦ elim (ℕ_discrete q id) [
    | yes same ↦
        let gone : is_member ring q ≡ false = ground (arith, is_member-count ring q, e, same) in
        let test : (q == id) ≡ true = ground arith in rw (e, test) (absent ring q gone)
    | no ne ↦
        let test : (q == id) ≡ false = ground arith in
        let test' : (x.cst_id == q) ≡ false = ground (arith, e) in rw (e, test, test') refl
  ]
  | inr e ↦
      let rest = find_state-remove ring id q (ground (arith, e)) in
      elim (ℕ_discrete q id) [
        | yes same ↦
            let test : (q == id) ≡ true = ground arith in
            let test' : (x.cst_id == q) ≡ false = ground (arith, e) in
            rw (e, test, test') (rest ∙ rw test refl)
        | no ne ↦
            let test : (q == id) ≡ false = ground arith in
            let rest' : find_state (remove ring id) q ≡ find_state ring q = rest ∙ rw test refl in
            rw (e, test, rest') refl
      ]
]

find_state-insert_after :
    (ring : List Target) (i q : ℕ) (t : Target)
    → is_member ring t.cst_id ≡ false
    → find_state (insert_after ring i t) q
      ≡ (if t.cst_id == q then ok t.cst_state else find_state ring q)
unfolding find_state is_member
find_state-insert_after [] i q t h = refl
find_state-insert_after (x ∷ ring) zero q t h = elim (Bool-cases (x.cst_id == q)) [
  | inl e ↦ let test : (t.cst_id == q) ≡ false = ground arith in rw (e, test) refl
  | inr e ↦ rw e refl
]
find_state-insert_after (x ∷ ring) (suc i) q t h =
    let ih = find_state-insert_after ring i q t (ground arith) in
    elim (Bool-cases (x.cst_id == q)) [
      | inl e ↦ let test : (t.cst_id == q) ≡ false = ground arith in rw (e, test) refl
      | inr e ↦ rw e ih
    ]

-- What is known of a member after a rank was added: our own rank is added too, as ALIVE, where the
-- list was empty, and another rank is INACTIVE.
abbrev pub known_with : List Target → (self rank q : ℕ) → Result MemberState
known_with ring self rank q =
    if is_member ring q
    then find_state ring q
    else if length ring == 0 && q == self
    then ok (record { sms_incarnation = 0; sms_status = alive })
    else if q == rank && not (rank == self)
    then ok (record { sms_incarnation = 0; sms_status = inactive })
    else err der_nonexist

module _ {E : Type 0} (b : Below E) where
  -- In a service, crt_swim_rank_del makes the rank unknown, changes what is known of no other
  -- member, and reports whether it was one.
  pub rank_del-known :
      (csm : CrtSwimMembs E) (sc_self rank q : ℕ)
      → IsRing csm
      → (find_state (crt_swim_rank_del b true csm sc_self rank).csm.csm_head q
          ≡ (if q == rank then err der_nonexist else find_state csm.csm_head q))
        × ((crt_swim_rank_del b true csm sc_self rank).rc
            ≡ (if is_member csm.csm_head rank then 0 else der_nonexist))
  unfolding crt_swim_rank_del delete
  rank_del-known csm sc_self rank q r = elim (Bool-cases (is_member csm.csm_head rank)) [
    | inl e ↦
        let left = find_state-remove csm.csm_head rank q (r.once rank) in
        elim (Bool-cases (length (remove csm.csm_head rank) == 0)) [
          | inl z ↦ rw (e, z) (left, refl)
          | inr z ↦ rw (e, z) (left, refl)
        ]
    | inr e ↦ elim (ℕ_discrete q rank) [
      | yes same ↦
          let test : (q == rank) ≡ true = ground arith in
          let gone = absent csm.csm_head rank e in rw (e, test, same) (gone, refl)
      | no ne ↦ let test : (q == rank) ≡ false = ground arith in rw (e, test) (refl, refl)
    ]
  ]

  join-known :
      (random : ℕ) (csm : CrtSwimMembs E) (self rank q : ℕ)
      → is_member csm.csm_head rank ≡ false
      → find_state (join b random csm self rank).csm.csm_head q ≡ (
          if rank == q
          then ok (record { sms_incarnation = 0; sms_status = inactive })
          else find_state csm.csm_head q)
  unfolding join
  join-known random csm self rank q h =
      find_state-insert_after csm.csm_head csm.csm_target q (newcomer rank) h

  -- Into an empty list
  found_list-known :
      (memory : (e : E) → (b.alloc e).1 ≡ true) (random : ℕ) (csm : CrtSwimMembs E)
      (sc_self self rank q : ℕ)
      → (find_state (found_list b random csm sc_self self rank).csm.csm_head q
          ≡ known_with [] self rank q)
        × ((found_list b random csm sc_self self rank).rc ≡ 0)
        × ((found_list b random csm sc_self self rank).sc_self ≡ self)
  unfolding found_list find_state is_member join
  found_list-known memory random csm sc_self self rank q =
      let csm' : CrtSwimMembs E = record csm {
        csm_head = self_target self ∷ [];
        csm_target = 0;
        below = (b.alloc csm.below).0;
      } in
      elim (Bool-cases (rank == self)) [
        | inl e ↦ rw e (ground arith, refl, refl)
        | inr e ↦ rw (e, memory csm.below) (ground (arith, e), refl, refl)
      ]

  known_add :
      (ring : List Target) (self rank q : ℕ)
      → is_member ring rank ≡ false
      → (length ring == 0) ≡ false
      → (rank == self) ≡ false
      → (if rank == q
          then ok (record { sms_incarnation = 0; sms_status = inactive })
          else find_state ring q)
        ≡ known_with ring self rank q
  known_add ring self rank q new full other = elim (ℕ_discrete rank q) [
    | yes e ↦
        let test : (rank == q) ≡ true = ground arith in
        let test' : (q == rank) ≡ true = ground arith in
        let new' : is_member ring q ≡ false = rw (← e) new in
        rw (test, new', full, test', other) refl
    | no ne ↦
        let test : (rank == q) ≡ false = ground arith in
        let test' : (q == rank) ≡ false = ground arith in
        elim (Bool-cases (is_member ring q)) [
          | inl m ↦ rw (test, m) refl
          | inr m ↦ rw (test, m, full, test') (absent ring q m)
        ]
  ]

  known_same :
      (ring : List Target) (self rank q : ℕ)
      → (is_member ring rank ≡ true) ⊎ ((rank == self) ≡ true)
      → (length ring == 0) ≡ false
      → find_state ring q ≡ known_with ring self rank q
  known_same ring self rank q why full = elim (Bool-cases (is_member ring q)) [
    | inl m ↦ rw m refl
    | inr m ↦
        let test : (q == rank && not (rank == self)) ≡ false = elim why [
          | inl old ↦ ground (arith, differs old m)
          | inr ours ↦ ground (arith, ours)
        ] in
        rw (m, full, test) (absent ring q m)
  ]
    where
      clash : (a : Bool) → a ≡ true → a ≢ false
      clash a h k = absurd (cc (sym h ∙ k))

      differs : is_member ring rank ≡ true → is_member ring q ≡ false → q ≢ rank
      differs old m e =
          let same : is_member ring rank ≡ false = rw (← e) m in
          absurd (clash (is_member ring rank) old same)

  no_members : (ring : List Target) → (length ring == 0) ≡ true → ring ≡ []
  no_members [] h = refl
  no_members (x ∷ ring) h = absurd (ground arith)

  absent_in_none : (rank : ℕ) → is_member [] rank ≡ false
  unfolding is_member
  absent_in_none rank = refl

  add_empty :
      (random : ℕ) (csm : CrtSwimMembs E) (sc_self self rank : ℕ)
      → (self == crt_no_rank) ≡ false
      → (b.alloc csm.below).1 ≡ true
      → (length csm.csm_head == 0) ≡ true
      → crt_swim_rank_add b true random csm sc_self self rank
        ≡ found_list b random (record csm { below = (b.alloc csm.below).0 }) sc_self self rank
  unfolding crt_swim_rank_add
  add_empty random csm sc_self self rank valid got c = rw (valid, got, c) refl

  add_known :
      (random : ℕ) (csm : CrtSwimMembs E) (sc_self self rank : ℕ)
      → (self == crt_no_rank) ≡ false
      → (b.alloc csm.below).1 ≡ true
      → (length csm.csm_head == 0) ≡ false
      → is_member csm.csm_head rank ≡ true
      → crt_swim_rank_add b true random csm sc_self self rank ≡ record {
        csm = record csm { below = (b.alloc csm.below).0 };
        sc_self = self;
        rc = der_already;
      }
  unfolding crt_swim_rank_add
  add_known random csm sc_self self rank valid got c d = rw (valid, got, c, d) refl

  add_self :
      (random : ℕ) (csm : CrtSwimMembs E) (sc_self self rank : ℕ)
      → (self == crt_no_rank) ≡ false
      → (b.alloc csm.below).1 ≡ true
      → (length csm.csm_head == 0) ≡ false
      → is_member csm.csm_head rank ≡ false
      → (rank == self) ≡ true
      → crt_swim_rank_add b true random csm sc_self self rank
        ≡ record { csm = record csm { below = (b.alloc csm.below).0 }; sc_self = self; rc = 0 }
  unfolding crt_swim_rank_add
  add_self random csm sc_self self rank valid got c d e = rw (valid, got, c, d, e) refl

  add_join :
      (random : ℕ) (csm : CrtSwimMembs E) (sc_self self rank : ℕ)
      → (self == crt_no_rank) ≡ false
      → (b.alloc csm.below).1 ≡ true
      → (length csm.csm_head == 0) ≡ false
      → is_member csm.csm_head rank ≡ false
      → (rank == self) ≡ false
      → crt_swim_rank_add b true random csm sc_self self rank
        ≡ join b random (record csm { below = (b.alloc csm.below).0 }) self rank
  unfolding crt_swim_rank_add
  add_join random csm sc_self self rank valid got c d e = rw (valid, got, c, d, e) refl

  -- In a service whose own rank is set, and where there is memory, crt_swim_rank_add makes another
  -- rank than our own known as INACTIVE, and our own known as ALIVE where the list was empty; where
  -- the list is not empty and lacks our own rank, that stays unknown, though it is asked for and 0 is
  -- returned. It changes what is known of no other member, reports a rank that was known, and in
  -- every case the context has our own id afterwards.
  pub rank_add-known :
      (memory : (e : E) → (b.alloc e).1 ≡ true) (random : ℕ) (csm : CrtSwimMembs E)
      (sc_self self rank q : ℕ)
      → self ≢ crt_no_rank
      → (find_state (crt_swim_rank_add b true random csm sc_self self rank).csm.csm_head q
          ≡ known_with csm.csm_head self rank q)
        × ((crt_swim_rank_add b true random csm sc_self self rank).rc
            ≡ (if is_member csm.csm_head rank then der_already else 0))
        × ((crt_swim_rank_add b true random csm sc_self self rank).sc_self ≡ self)
  unfolding join
  rank_add-known memory random csm sc_self self rank q set =
      let csm' : CrtSwimMembs E = record csm { below = (b.alloc csm.below).0 } in
      let got = memory csm.below in
      let valid : (self == crt_no_rank) ≡ false = ground arith in
      elim (Bool-cases (length csm.csm_head == 0)) [
        | inl c ↦
            let none_in = no_members csm.csm_head c in
            let (known, code, id) = found_list-known memory random csm' sc_self self rank q in
            let same = ap (λ ring. known_with ring self rank q) (sym none_in) in
            let fresh : is_member csm.csm_head rank ≡ false = rw none_in (absent_in_none rank) in
            rw (add_empty random csm sc_self self rank valid got c)
              (known ∙ same, code ∙ rw fresh refl, id)
        | inr c ↦ elim (Bool-cases (is_member csm.csm_head rank)) [
          | inl d ↦
              let same = known_same csm.csm_head self rank q (inl d) c in
              rw (add_known random csm sc_self self rank valid got c d) (same, rw d refl, refl)
          | inr d ↦ elim (Bool-cases (rank == self)) [
            | inl e ↦
                let same = known_same csm.csm_head self rank q (inr e) c in
                rw (add_self random csm sc_self self rank valid got c d e) (same, rw d refl, refl)
            | inr e ↦
                let new =
                  join-known random csm' self rank q d ∙ known_add csm.csm_head self rank q d c e in
                rw (add_join random csm sc_self self rank valid got c d e) (new, rw d refl, refl)
          ]
        ]
      ]
