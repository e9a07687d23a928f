-- ===== src/Binheap/Insert.antt =====
-- d_binheap_insert.
use cart.Prelude.{
  ℕ, ◌+◌, ◌-◌, ◌/◌, ◌<◌, ◌≡◌, ◌≢◌, inl, inr, refl, sym, ap, ◌∙◌, Bool, true, false, not, ◌&&◌, ◌||◌,
  Option, some, arith, leb, ◌==◌, if◌then◌else◌, lt→ltb, Bool-cases, ==_refl, der_inval, der_nomem,
  ==→eq, ==→ne,
}
use cart.Binheap.{Binheap, ◌>>=◌, set_idx, put, store}
use cart.Binheap.Grown.{is_mapped-pointer}
use cart.Binheap.Grows.{at, Grows, can_grow, grow-GrowsIf}
use cart.Binheap.Moves.{BinheapOps, place, enter, insert}
use cart.Binheap.Order.{
  Compares, in_heap, in_hole, IsHeap, Hole, Ends, moved, at-moved, chn_idx-moved, moved-Hole,
  moved-Below, Ends-moved_self,
}
use cart.Binheap.Up.{bubble-EndsWith}

-- What an insertion leaves: the old nodes, and the new one if it was put in.
pub record Holds (key : ℕ → ℕ) (added : Bool) (h : Binheap) (e : ℕ) (h' : Binheap) : Type 0 where
  pub heap : IsHeap key h'
  pub cnt : h'.nodes_cnt ≡ (if added then h.nodes_cnt + 1 else h.nodes_cnt)
  pub members : (x : ℕ) → in_heap h' x ≡ ((added && x == e) || in_heap h x)
  pub others : (x : ℕ) → in_heap h' x ≡ false → h'.chn_idx x ≡ h.chn_idx x

module _ {key : ℕ → ℕ} {h : Binheap} (v : IsHeap key h) where
  pub Holds-self : (e : ℕ) → Holds key false h e h
  Holds-self e = record { heap = v; cnt = refl; members = λ x. refl; others = λ x n. refl }

  -- A heap with another array of entries is the same heap.
  pub Grows-Holds : {h' : Binheap} (e : ℕ) → Grows h h' → Holds key false h e h'
  unfolding in_heap
  Grows-Holds {h'} e g = record {
    heap = record {
      grown = g.grown;
      fits = omega (arith, v.fits, g.higher, g.cnt);
      full = λ i l. ground (arith, v.full i, v.fits, g.kept i, g.cnt);
      indexed = λ i l. ground (arith, v.indexed i, v.fits, g.kept i, g.cnt, g.idx (at h i));
      ordered = λ c p l. ground (arith, v.ordered c, v.fits, g.kept c, g.kept ((c - 1) / 2), g.cnt);
    };
    cnt = g.cnt;
    members = λ x. ground (arith, g.idx x, g.cnt, g.kept (h.chn_idx x), v.fits);
    others = λ x n. g.idx x;
  }

  module _ {e : ℕ} (some_e : e ≢ 0) (new : in_heap h e ≡ false) (room : h.nodes_cnt < h.hwm) where
    abbrev n : ℕ
    n = h.nodes_cnt

    abbrev longer : Binheap
    longer = record h { nodes_cnt = n + 1 }

    apart : (i : ℕ) → i < n → at h i ≢ e
    unfolding in_heap
    apart i l same = ground (arith, v.indexed i)

    longer-Hole : Hole key longer e n
    longer-Hole =
        let g = v.grown in
        record {
          grown = record { aligned = g.aligned; capped = g.capped; arrays = g.arrays };
          fits = omega arith;
          inside = omega arith;
          some_node = some_e;
          full = λ i l d. v.full i (omega arith);
          indexed = λ i l d. v.indexed i (omega arith);
          apart = λ i l d. apart i (omega arith);
          edges = λ c q l d r. v.ordered c q (omega arith);
          bridged = λ c q l r t. absurd (omega arith);
        }

    longer-Ends : {h' : Binheap} → Ends key longer e n h' → Holds key true h e h'
    unfolding in_heap in_hole
    longer-Ends w = record {
      heap = w.heap;
      cnt = w.cnt;
      members = λ x. w.members x ∙ ground arith;
      others = λ x d. w.others x (sym (w.members x) ∙ d);
    }

-- The return code of d_binheap_insert.
abbrev pub insert_rc : BinheapOps → (ℕ → Bool) → Binheap → ℕ → ℕ
insert_rc ops alloc h e =
    if e == 0
    then der_inval
    else if h.nodes_cnt == h.hwm && not (can_grow alloc h.hwm)
    then der_nomem
    else enter ops e

module _ (ops : BinheapOps) (key : ℕ → ℕ) (ord : Compares ops.hop_compare key) where
  place-Holds :
      {h : Binheap} (v : IsHeap key h) {e : ℕ}
      → e ≢ 0
      → in_heap h e ≡ false
      → h.nodes_cnt < h.hwm
      → (h' : Binheap) × (place ops h e ≡ some (0, h')) × Holds key true h e h'
  unfolding place store set_idx put
  place-Holds {h} v {e} some_e new room =
      let hole = longer-Hole v some_e new room in
      let l : Binheap = longer v some_e new room in
      let (h', d, run, ends, _) =
        bubble-EndsWith ops key ord (moved l e h.nodes_cnt) e h.nodes_cnt (moved-Hole hole)
          (rw (chn_idx-moved, ==_refl) refl) (rw (at-moved, ==_refl) refl)
          (moved-Below hole (λ c q lt r. absurd (omega arith))) in
      (
        h',
        rw (is_mapped-pointer v.grown h.nodes_cnt, lt→ltb h.nodes_cnt h.hwm room)
            (ap (λ (r : Option (Binheap × Bool)). r >>= λ s. some (0, s.0)) run),
        longer-Ends v some_e new room (Ends-moved_self hole ends),
      )

  module _ (alloc : ℕ → Bool) {h : Binheap} (v : IsHeap key h) (e : ℕ)
      (new : in_heap h e ≡ false) where
    entering : (r : ℕ × Binheap) → Option (ℕ × Binheap)
    entering r =
        if r.0 == 0
        then (if enter ops e == 0 then place ops r.1 e else some (enter ops e, r.1))
        else some r

    -- With room for the node, the callback decides.
    entering-Holds :
        {h1 : Binheap}
        → e ≢ 0
        → Holds key false h e h1
        → h1.nodes_cnt < h1.hwm
        → (h' : Binheap) × (entering (0, h1) ≡ some (enter ops e, h'))
          × Holds key (enter ops e == 0) h e h'
    unfolding entering
    entering-Holds {h1} some_e w room = elim (Bool-cases (enter ops e == 0)) [
      | inr no_entry ↦ (h1, rw no_entry refl, rw no_entry w)
      | inl entry ↦
          let (h', run, p) = place-Holds w.heap some_e (w.members e ∙ new) room in
          (
            h',
            rw (entry, ==→eq (enter ops e) 0 entry) run,
            rw entry (record {
              heap = p.heap;
              cnt = ground (arith, p.cnt, w.cnt);
              members = λ x. ground (arith, p.members x, w.members x);
              others = λ x n. ground (arith, p.others x, w.others x, p.members x, w.members x);
            }),
          )
    ]

    -- d_binheap_insert of a node that is not in the heap: it returns -DER_INVAL for NULL,
    -- -DER_NOMEM where all entries are in use and the heap cannot grow, and what hop_enter returns
    -- otherwise. Where it returns 0 the node is added to the nodes of the heap, and where it
    -- returns an error they are what they were; it stays a heap in order, every node in it knows
    -- its index, and the indices kept in nodes outside are untouched. No assertion fails.
    pub insert-Holds :
        (h' : Binheap) × (insert ops alloc h e ≡ some (insert_rc ops alloc h e, h'))
        × Holds key (insert_rc ops alloc h e == 0) h e h'
    unfolding insert entering
    insert-Holds = elim (Bool-cases (e == 0)) [
      | inl z ↦ (h, rw z refl, rw z (Holds-self v e))
      | inr z ↦
          let fit : leb h.nodes_cnt h.hwm ≡ true = ground (arith, v.fits) in
          elim (Bool-cases (h.nodes_cnt == h.hwm)) [
            | inr free ↦
                let (h', run, w) =
                  entering-Holds (==→ne e 0 z) (Holds-self v e) (ground (arith, v.fits)) in
                (h', rw (z, fit, free) run, rw (z, free) w)
            | inl last ↦ elim (grow-GrowsIf v.grown alloc) [
              | inr (no_room, failed) ↦ (
                h,
                rw (z, fit, last, failed, no_room) refl,
                rw (z, last, no_room) (Holds-self v e),
              )
              | inl (room, h1, grown, g) ↦
                  let (h', run, w) =
                    entering-Holds (==→ne e 0 z) (Grows-Holds v e g)
                      (ground (arith, g.higher, g.cnt)) in
                  (h', rw (z, fit, last, grown, room) run, rw (z, last, room) w)
            ]
          ]
    ]
