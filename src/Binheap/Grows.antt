-- ===== src/Binheap/Grows.antt =====
-- d_binheap_grow on all its branches.
use native.Mathlib.Decide.{dec_lt, ℕ_discrete}
use cart.Prelude.{
  ℕ, zero, suc, ◌+◌, ◌-◌, ◌/◌, ◌%◌, ◌^◌, ◌≤◌, ◌<◌, ◌≡◌, ◌≢◌, refl, ◌∙◌, Bool, true, false, ◌&&◌,
  ◌⊎◌, Option, some, inl, inr, arith, ltb, leb, ◌==◌, der_nomem, Bool-cases, one_if,
}
use cart.Binheap.{
  Block, nodes1, nodes2, nodes2_at, nodes3, nodes3_at, nodes3_at_at, Binheap, dbh_size, dbh_size2,
  same_block, array_of, pointer, link, grow, grow2, grow3, first_at, raise, no_memory,
}
use cart.Binheap.Grown.{
  max_nodes, needed, IsGrown, held-array_of, needed_one, needed_two, needed_first_two, needed_three,
  needed_first_at, needed_first_three,
}

-- The entry of index `i`.
abbrev pub at : Binheap → ℕ → ℕ
at h i = h.nodes (pointer i)

-- One more array at the end, and nothing else.
pub record Grows (h h' : Binheap) : Type 0 where
  pub grown : IsGrown h'
  pub higher : h'.hwm ≡ h.hwm + dbh_size
  pub cnt : h'.nodes_cnt ≡ h.nodes_cnt
  pub idx : (x : ℕ) → h'.chn_idx x ≡ h.chn_idx x
  pub kept : (i : ℕ) → i < h.hwm → at h' i ≡ at h i

abbrev raised : Binheap → Binheap
raised h = record h { hwm = (h.hwm + dbh_size) % 2 ^ 32 }

-- A heap in the middle of the call: some arrays are linked.
record Linked (h h' : Binheap) : Type 0 where
  hwm : h'.hwm ≡ h.hwm
  cnt : h'.nodes_cnt ≡ h.nodes_cnt
  idx : (x : ℕ) → h'.chn_idx x ≡ h.chn_idx x
  kept : (i : ℕ) → i < h.hwm → at h' i ≡ at h i

same_block→eq : (b c : Block) → same_block b c ≡ true → b ≡ c
unfolding same_block
same_block→eq nodes1 nodes1 e = refl
same_block→eq nodes2 nodes2 e = refl
same_block→eq (nodes2_at i) (nodes2_at j) e = ground arith
same_block→eq nodes3 nodes3 e = refl
same_block→eq (nodes3_at i) (nodes3_at j) e = ground arith
same_block→eq (nodes3_at_at i k) (nodes3_at_at j l) e = ground arith
same_block→eq b c e = cc

module _ {h : Binheap} (g : IsGrown h) where
  link-Linked : (b : Block) {h' : Binheap} → h.held b ≡ false → Linked h h' → Linked h (link b h')
  unfolding link
  link-Linked b {h'} f l = record {
    hwm = l.hwm;
    cnt = l.cnt;
    idx = l.idx;
    kept = λ i lt. elim (Bool-cases (same_block b (array_of (pointer i)))) [
      | inl e ↦
          let same = same_block→eq b (array_of (pointer i)) e in
          let there = held-array_of g i lt in cc
      | inr e ↦ rw e (l.kept i lt)
    ];
  }

  raised-Grows :
      {h' : Binheap}
      → h.hwm < max_nodes
      → Linked h h'
      → ((b : Block) → h'.held b ≡ needed (h.hwm + dbh_size) b)
      → Grows h (raised h')
  raised-Grows {h'} m l n =
      let up : (h'.hwm + dbh_size) % 2 ^ 32 ≡ h.hwm + dbh_size =
        rw (l.hwm) (ground (arith, g.aligned)) in
      record {
        grown = record {
          aligned = rw up (ground (arith, g.aligned));
          capped = rw up (ground (arith, g.aligned));
          arrays = λ b. rw up (n b);
        };
        higher = up;
        cnt = l.cnt;
        idx = l.idx;
        kept = l.kept;
      }

-- Whether the first `n` allocations of a run succeed.
abbrev pub first_succeed : (ℕ → Bool) → ℕ → Bool
first_succeed alloc zero = true
first_succeed alloc (suc n) = first_succeed alloc n && alloc n

-- The number of arrays that the next 512 entries need.
pub new_arrays : ℕ → ℕ
new_arrays hwm =
    1
    + one_if (hwm == 512)
    + one_if (leb 262656 hwm && (hwm - 262656) % dbh_size2 == 0)
    + one_if (hwm == 262656)

abbrev pub can_grow : (ℕ → Bool) → ℕ → Bool
can_grow alloc hwm = ltb hwm max_nodes && first_succeed alloc (new_arrays hwm)

-- The call succeeds and adds an array, or it fails for want of memory and changes nothing.
abbrev pub GrowsIf : Bool → Binheap → Option (ℕ × Binheap) → Type 0
GrowsIf b h r =
    ((b ≡ true) × (h' : Binheap) × (r ≡ some (0, h')) × Grows h h')
    ⊎ ((b ≡ false) × (r ≡ some (der_nomem, h)))

module _ {h : Binheap} (g : IsGrown h) (alloc : ℕ → Bool) where
  self : Linked h h
  self = record { hwm = refl; cnt = refl; idx = λ x. refl; kept = λ i lt. refl }

  lacks : (b : Block) → needed h.hwm b ≡ false → h.held b ≡ false
  lacks b e = g.arrays b ∙ e

  fails :
      {b : Bool} {r : Option (ℕ × Binheap)} → b ≡ false → r ≡ some (der_nomem, h) → GrowsIf b h r
  fails e d = inr (e, d)

  grew :
      {b : Bool} {h' : Binheap} {r : Option (ℕ × Binheap)}
      → b ≡ true
      → h.hwm < max_nodes
      → r ≡ some (0, raised h')
      → Linked h h'
      → ((c : Block) → h'.held c ≡ needed (h.hwm + dbh_size) c)
      → GrowsIf b h r
  grew {h' = h'} e m d l n = inl (e, raised h', d, raised-Grows g m l n)

  grow-one : h.hwm ≡ 0 → GrowsIf (can_grow alloc h.hwm) h (grow alloc h)
  unfolding grow new_arrays raise no_memory needed link
  grow-one z = elim (Bool-cases (alloc 0)) [
    | inl e ↦
        grew (ground arith) (omega arith) (ground arith)
          (link-Linked g nodes1 (lacks nodes1 (ground arith)) self)
          (λ c. ground (arith, g.arrays c, needed_one h.hwm g.aligned (omega arith) z c))
    | inr e ↦ fails (ground arith) (ground arith)
  ]

  grow-two : 512 < h.hwm → h.hwm < 262656 → GrowsIf (can_grow alloc h.hwm) h (grow alloc h)
  unfolding grow grow2 new_arrays raise no_memory needed link
  grow-two l u =
      let i : ℕ = (h.hwm - 512) / 512 in
      let a = g.aligned in
      elim (Bool-cases (alloc 0)) [
        | inl e ↦
            grew (ground arith) (omega arith) (ground (arith, g.arrays nodes2))
              (link-Linked g (nodes2_at i) (lacks (nodes2_at i) (ground arith)) self)
              (λ c. ground (arith, g.arrays c, needed_two h.hwm a (omega arith) l u c))
        | inr e ↦ fails (ground arith) (ground arith)
      ]

  grow-first_two : h.hwm ≡ 512 → GrowsIf (can_grow alloc h.hwm) h (grow alloc h)
  unfolding grow grow2 new_arrays raise no_memory needed link
  grow-first_two z =
      let i : ℕ = (h.hwm - 512) / 512 in
      let a = g.aligned in
      elim (Bool-cases (alloc 0 && alloc 1)) [
        | inl e ↦
            grew (ground arith) (omega arith) (ground arith)
              (link-Linked g (nodes2_at i) (lacks (nodes2_at i) (ground arith))
                (link-Linked g nodes2 (lacks nodes2 (ground arith)) self))
              (λ c. ground (arith, g.arrays c, needed_first_two h.hwm a (omega arith) z c))
        | inr e ↦ fails (ground arith) (ground arith)
      ]

  module _ (u : 262656 ≤ h.hwm) where
    i : ℕ
    i = (h.hwm - 512 - 262144) / 262144

    j : ℕ
    j = (h.hwm - 512 - 262144) / 512 % 512

    grow-three :
        (h.hwm - 512 - 262144) / 512 % 512 ≢ 0
        → h.hwm < max_nodes
        → GrowsIf (can_grow alloc h.hwm) h (grow alloc h)
    unfolding grow grow3 new_arrays raise no_memory needed link i j
    grow-three n m =
        let a = g.aligned in
        elim (Bool-cases (alloc 0)) [
          | inl e ↦
              grew (ground arith) m (ground (arith, g.arrays nodes3, g.arrays (nodes3_at i)))
                (link-Linked g (nodes3_at_at i j) (lacks (nodes3_at_at i j) (ground arith)) self)
                (λ c. ground (arith, g.arrays c, needed_three h.hwm a m u n c))
          | inr e ↦ fails (ground arith) (ground arith)
        ]

    grow-first_at :
        (h.hwm - 512 - 262144) / 512 % 512 ≡ 0
        → 262656 < h.hwm
        → h.hwm < max_nodes
        → GrowsIf (can_grow alloc h.hwm) h (grow alloc h)
    unfolding grow grow3 first_at new_arrays raise no_memory needed link i j same_block
    grow-first_at z l m =
        let a = g.aligned in
        elim (Bool-cases (alloc 0 && alloc 1)) [
          | inl e ↦
              grew (ground arith) m (ground (arith, g.arrays nodes3, g.arrays (nodes3_at i)))
                (link-Linked g (nodes3_at_at i j) (lacks (nodes3_at_at i j) (ground arith))
                  (link-Linked g (nodes3_at i) (lacks (nodes3_at i) (ground arith)) self))
                (λ c. ground (arith, g.arrays c, needed_first_at h.hwm a m u z l c))
          | inr e ↦ fails (ground arith) (ground arith)
        ]

    grow-first_three : h.hwm ≡ 262656 → GrowsIf (can_grow alloc h.hwm) h (grow alloc h)
    unfolding grow grow3 first_at new_arrays raise no_memory needed link i j same_block
    grow-first_three z =
        let a = g.aligned in
        elim (Bool-cases (alloc 0 && alloc 1 && alloc 2)) [
          | inl e ↦
              grew (ground arith) (omega arith)
                (ground (arith, g.arrays nodes3, g.arrays (nodes3_at 0)))
                (link-Linked g (nodes3_at_at i j) (lacks (nodes3_at_at i j) (ground arith)) (
                  link-Linked g (nodes3_at i) (lacks (nodes3_at i) (ground arith))
                    (link-Linked g nodes3 (lacks nodes3 (ground arith)) self)))
                (λ c. ground (arith, g.arrays c, needed_first_three h.hwm a (omega arith) z c))
          | inr e ↦ fails (ground arith) (ground arith)
        ]

    grow-full : h.hwm ≡ max_nodes → GrowsIf (can_grow alloc h.hwm) h (grow alloc h)
    unfolding grow grow3 no_memory
    grow-full z = fails (ground arith) (ground arith)

    grow-large : GrowsIf (can_grow alloc h.hwm) h (grow alloc h)
    grow-large = elim (ℕ_discrete h.hwm max_nodes) [
      | yes z ↦ grow-full z
      | no n ↦ elim (ℕ_discrete h.hwm 262656) [
        | yes z ↦ grow-first_three z
        | no n3 ↦ elim (ℕ_discrete ((h.hwm - 512 - 262144) / 512 % 512) 0) [
          | yes z ↦ grow-first_at z (omega arith) (omega (arith, g.capped))
          | no nz ↦ grow-three nz (omega (arith, g.capped))
        ]
      ]
    ]

  -- d_binheap_grow on a heap whose arrays are in order: where the heap is not at its limit of
  -- 134,480,384 entries and every array that the next 512 entries need is allocated (one, or two or
  -- three where an array of arrays is used for the first time), it returns 0 and adds them,
  -- keeping the arrays in order and all other entries; otherwise it returns -DER_NOMEM and changes
  -- nothing. No assertion of it fails.
  pub grow-GrowsIf : GrowsIf (can_grow alloc h.hwm) h (grow alloc h)
  grow-GrowsIf = elim (ℕ_discrete h.hwm 0) [
    | yes z ↦ grow-one z
    | no nz ↦ elim (ℕ_discrete h.hwm 512) [
      | yes z ↦ grow-first_two z
      | no n2 ↦ elim (dec_lt h.hwm 262656) [
        | yes l ↦ grow-two (omega (arith, g.aligned)) l
        | no nl ↦ grow-large (omega arith)
      ]
    ]
  ]
