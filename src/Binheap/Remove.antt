-- ===== src/Binheap/Remove.antt =====
-- d_binheap_remove_locked and d_binheap_remove_root.
use native.Mathlib.Decide.{ℕ_discrete}
use cart.Prelude.{
  ℕ, zero, suc, ◌+◌, ◌-◌, ◌/◌, ◌≤◌, ◌<◌, ◌≡◌, ◌≢◌, ◌⊎◌, inl, inr, refl, ◌∙◌, true, false, not, ◌&&◌,
  Option, some, arith, ltb, ◌==◌, if◌then◌else◌, Bool-cases, ==_refl, ==→eq, ==→ne, ge→leb, lt→leb,
}
use cart.Binheap.{Binheap, dbh_poison, ◌>>=◌, set_idx}
use cart.Binheap.Grows.{at}
use cart.Binheap.Moves.{BinheapOps, replace, remove_locked, find_locked, remove_root}
use cart.Binheap.Order.{
  Compares, in_heap, in_hole, IsHeap, Hole, Ends, moved, at-moved, chn_idx-moved, load-at,
  shift-moved, moved-Hole, moved-Above, Ends-moved_self,
}
use cart.Binheap.Up.{bubble-cases}
use cart.Binheap.Down.{sink-EndsWith}

-- What a removal leaves: the other nodes, and poison for the index of the one that was removed.
pub record Removed (key : ℕ → ℕ) (h : Binheap) (e : ℕ) (h' : Binheap) : Type 0 where
  pub heap : IsHeap key h'
  pub cnt : h'.nodes_cnt + 1 ≡ h.nodes_cnt
  pub members : (x : ℕ) → in_heap h' x ≡ (in_heap h x && not (x == e))
  pub others : (x : ℕ) → in_heap h x ≡ false → x ≢ e → h'.chn_idx x ≡ h.chn_idx x
  pub poisoned : h'.chn_idx e ≡ dbh_poison

-- The heap without its last entry.
abbrev pub shorter : Binheap → Binheap
shorter h = record h { nodes_cnt = h.nodes_cnt - 1 }

abbrev pub last : Binheap → ℕ
last h = at h (h.nodes_cnt - 1)

module _ {key : ℕ → ℕ} {h : Binheap} (v : IsHeap key h) where
  module _ (e : ℕ) (member : in_heap h e ≡ true) where
    pub inside : h.chn_idx e < h.nodes_cnt
    unfolding in_heap
    inside = ground arith

    pub here : at h (h.chn_idx e) ≡ e
    unfolding in_heap
    here = ground arith

    pub some_e : e ≢ 0
    some_e = ground (arith, here, v.full (h.chn_idx e), inside)

    -- The last node goes to the place of the one that is removed.
    last-Hole : last h ≢ e → Hole key (shorter h) (last h) (h.chn_idx e)
    last-Hole apart =
        let i = inside in
        let g = v.grown in
        record {
          grown = record { aligned = g.aligned; capped = g.capped; arrays = g.arrays };
          fits = omega (arith, v.fits);
          inside = ground (arith, here);
          some_node = v.full (h.nodes_cnt - 1) (omega arith);
          full = λ i l d. v.full i (omega arith);
          indexed = λ i l d. v.indexed i (omega arith);
          apart = λ i l d. ground (arith, v.indexed i, v.indexed (h.nodes_cnt - 1));
          edges = λ c q l d r. v.ordered c q (omega arith);
          bridged = λ c q l r t. ground (arith, v.ordered c, v.ordered ((c - 1) / 2));
        }

    in_hole-last :
        last h ≢ e
        → (x : ℕ) → in_hole (shorter h) (last h) (h.chn_idx e) x ≡ (in_heap h x && not (x == e))
    unfolding in_hole in_heap
    in_hole-last apart x =
        let i = inside in
        let ix : h.chn_idx (last h) ≡ h.nodes_cnt - 1 = v.indexed (h.nodes_cnt - 1) (omega arith) in
        ground (arith, here)

    last-Heap : last h ≡ e → IsHeap key (shorter h)
    last-Heap same =
        let g = v.grown in
        record {
          grown = record { aligned = g.aligned; capped = g.capped; arrays = g.arrays };
          fits = omega (arith, v.fits);
          full = λ i l. v.full i (omega arith);
          indexed = λ i l. v.indexed i (omega arith);
          ordered = λ c q l. v.ordered c q (omega arith);
        }

    in_heap-shorter : last h ≡ e → (x : ℕ) → in_heap (shorter h) x ≡ (in_heap h x && not (x == e))
    unfolding in_heap
    in_heap-shorter same x = let i = inside in ground (arith, v.indexed (h.nodes_cnt - 1))

    -- The last statements: the index of the node is poisoned.
    poison-Removed :
        {g : Binheap}
        → IsHeap key g
        → g.nodes_cnt ≡ h.nodes_cnt - 1
        → ((x : ℕ) → in_heap g x ≡ (in_heap h x && not (x == e)))
        → ((x : ℕ) → in_heap h x ≡ false → g.chn_idx x ≡ h.chn_idx x)
        → Removed key h e (set_idx g e dbh_poison)
    unfolding set_idx in_heap
    poison-Removed {g} w cn mem oth =
        let i = inside in
        record {
          heap = record {
            grown = record {
              aligned = w.grown.aligned;
              capped = w.grown.capped;
              arrays = w.grown.arrays;
            };
            fits = w.fits;
            full = w.full;
            indexed = λ j l. ground (arith, mem e, w.indexed j);
            ordered = w.ordered;
          };
          cnt = omega arith;
          members = λ x. ground (arith, mem x, w.fits, w.grown.capped);
          others = λ x n d. ground (arith, oth x);
          poisoned = ground arith;
        }

module _ (ops : BinheapOps) (key : ℕ → ℕ) (ord : Compares ops.hop_compare key) where
  -- The node that fills the hole rises, or it sinks.
  pub replace-Ends :
      {h : Binheap} (e cur : ℕ)
      → Hole key h e cur
      → (h' : Binheap) × (replace ops h e cur ≡ some h') × Ends key h e cur h'
  unfolding replace
  replace-Ends {h} e cur hole =
      let room : cur < h.hwm = omega (arith, hole.inside, hole.fits) in
      let put1 = moved-Hole hole in
      let h1 : Binheap = moved h e cur in
      let ix : h1.chn_idx e ≡ cur = rw (chn_idx-moved, ==_refl) refl in
      let at1 : at h1 cur ≡ e = rw (at-moved, ==_refl) refl in
      elim (bubble-cases ops key ord h1 e cur put1 ix at1) [
        | inr (h', d, run, ends, t) ↦ (
          h',
          rw (shift-moved hole.grown e cur room, run, t refl) refl,
          Ends-moved_self hole ends,
        )
        | inl (stays, above) ↦
            let h2 : Binheap = moved h1 e cur in
            let (h', d, run, ends, t) =
              sink-EndsWith ops key ord h2 e cur (moved-Hole put1) (moved-Above put1 above)
                (rw (chn_idx-moved, ==_refl) refl) (rw (at-moved, ==_refl) refl) in
            (
              h',
              rw (shift-moved hole.grown e cur room, stays, run) refl,
              Ends-moved_self hole (Ends-moved_self put1 ends),
            )
      ]

  module _ {h : Binheap} (v : IsHeap key h) (e : ℕ) (member : in_heap h e ≡ true) where
    -- The two ways of d_binheap_remove_locked after its assertions.
    rest : Option Binheap
    rest =
        (if last h == e then some (shorter h) else replace ops (shorter h) (last h) (h.chn_idx e))
        >>= λ g. some (set_idx g e dbh_poison)

    remove-rest : remove_locked ops h e ≡ rest
    unfolding remove_locked rest
    remove-rest =
        let i = inside v e member in
        let room : h.chn_idx e < h.hwm = omega (arith, v.fits) in
        let room2 : h.nodes_cnt - 1 < h.hwm = omega (arith, v.fits) in
        let n : (e == 0) ≡ false = ground (arith, some_e v e member) in
        let ok : (not (h.chn_idx e == dbh_poison) && ltb (h.chn_idx e) h.nodes_cnt) ≡ true =
          ground (arith, v.fits, v.grown.capped) in
        rw
          (
            n,
            ok,
            load-at v.grown (h.chn_idx e) room,
            here v e member,
            ==_refl e,
            load-at v.grown (h.nodes_cnt - 1) room2,
          )
          refl

    -- d_binheap_remove_locked of a node of the heap: the heap is one in order of all its other
    -- nodes, each of which knows its index, and one smaller; the index of the node is poisoned,
    -- and those in nodes outside are untouched. No assertion fails.
    pub remove_locked-Removed :
        (h' : Binheap) × (remove_locked ops h e ≡ some h') × Removed key h e h'
    unfolding rest
    remove_locked-Removed = elim (Bool-cases (last h == e)) [
      | inl same ↦
          let s = ==→eq (last h) e same in
          (
            set_idx (shorter h) e dbh_poison,
            rw (remove-rest, same) refl,
            poison-Removed v e member (last-Heap v e member s) refl (in_heap-shorter v e member s)
                (λ x n. refl),
          )
      | inr other ↦
          let o = ==→ne (last h) e other in
          let (g, run, ends) = replace-Ends (last h) (h.chn_idx e) (last-Hole v e member o) in
          (
            set_idx g e dbh_poison,
            rw (remove-rest, other, run) refl,
            poison-Removed v e member ends.heap ends.cnt
                (λ x. ends.members x ∙ in_hole-last v e member o x)
                (λ x n. ends.others x (in_hole-last v e member o x ∙ ground arith)),
          )
    ]

root_least_below :
    {key : ℕ → ℕ} {h : Binheap}
    → IsHeap key h
    → (k i : ℕ) → i < k
    → i < h.nodes_cnt
    → key (at h 0) ≤ key (at h i)
root_least_below v zero i f l = absurd (omega arith)
root_least_below v (suc k) i f l = ground (arith, v.ordered i, root_least_below v k ((i - 1) / 2))

-- No node of the heap has a lower key than the root.
pub root_least :
    {key : ℕ → ℕ} {h : Binheap} → IsHeap key h → (x : ℕ) → in_heap h x ≡ true → key (at h 0) ≤ key x
root_least {h = h} v x m =
    rw (here v x m) at
      (root_least_below v (suc (h.chn_idx x)) (h.chn_idx x) (omega arith) (inside v x m))

pub root-in_heap :
    {key : ℕ → ℕ} {h : Binheap} → IsHeap key h → 0 < h.nodes_cnt → in_heap h (at h 0) ≡ true
unfolding in_heap
root-in_heap v p = ground (arith, v.indexed 0)

pub in_heap-empty : (h : Binheap) (x : ℕ) → h.nodes_cnt ≡ 0 → in_heap h x ≡ false
unfolding in_heap
in_heap-empty h x z = ground arith

module _ (ops : BinheapOps) (key : ℕ → ℕ) (ord : Compares ops.hop_compare key) where
  -- d_binheap_remove_root: the heap has no node, and NULL is returned and nothing changes; or it
  -- returns a node of the heap such that no node of it has a lower key, and removes that one.
  pub remove_root-Removed :
      {h : Binheap}
      → IsHeap key h
      → ((remove_root ops h ≡ some (0, h)) × ((x : ℕ) → in_heap h x ≡ false))
        ⊎ ((e : ℕ) × (h' : Binheap) × (remove_root ops h ≡ some (e, h'))
            × (e ≢ 0)
            × (in_heap h e ≡ true)
            × ((x : ℕ) → in_heap h x ≡ true → key e ≤ key x)
            × Removed key h e h')
  unfolding remove_root find_locked
  remove_root-Removed {h} v = elim (ℕ_discrete h.nodes_cnt 0) [
    | yes z ↦ inl (rw (ge→leb h.nodes_cnt 0 (omega arith)) refl, λ x. in_heap-empty h x z)
    | no n ↦
        let pos : 0 < h.nodes_cnt = omega arith in
        let m = root-in_heap v pos in
        let e : ℕ = at h 0 in
        let (h', run, w) = remove_locked-Removed ops key ord v e m in
        let nz : (e == 0) ≡ false = ground (arith, some_e v e m) in
        inr (
          e,
          h',
          rw (lt→leb h.nodes_cnt 0 pos, load-at v.grown 0 (omega (arith, v.fits)), nz, run) refl,
          some_e v e m,
          m,
          root_least v,
          w,
        )
  ]
