-- ===== src/Binheap/Tests.antt =====
-- Runs of the heap, and the theorems at concrete heaps.
use cart.Prelude.{
  ℕ, zero, suc, ◌+◌, ◌-◌, ◌*◌, ◌/◌, ◌≤◌, ◌≡◌, ◌≢◌, ◌⊎◌, refl, Bool, true, false, Option, some, none,
  arith, ltb, ◌==◌, if◌then◌else◌,
}
use cart.Binheap.{
  Block, nodes1, nodes2, nodes2_at, nodes3, nodes3_at, nodes3_at_at, one, Binheap, same_block,
  same_place, pointer, is_mapped, load, grow, link, put, set_idx, store, create_inplace, ◌>>=◌,
}
use cart.Binheap.Grown.{needed, IsGrown, pointer_bounds}
use cart.Binheap.Grows.{GrowsIf, can_grow, grow-GrowsIf, at}
use cart.Binheap.Moves.{
  BinheapOps, insert, place, enter, bubble, bubble_loop, settle, shift, remove_locked, replace,
  sink, sink_loop, pick_child, find_locked, remove_root,
}
use cart.Binheap.Order.{Compares, IsHeap, in_heap}
use cart.Binheap.Insert.{Holds, insert-Holds}
use cart.Binheap.Remove.{Removed, remove_locked-Removed, remove_root-Removed}
use cart.Binheap.Create.{create_inplace_lem}

-- Nodes are ordered by their number, and no callback is set for insertions.
abbrev by_number : BinheapOps
by_number = record { hop_compare = ltb; hop_enter = none }

abbrev pub number : ℕ → ℕ
number x = x

by_number-Compares : Compares by_number.hop_compare number
by_number-Compares = record { holds = λ a b h. ground arith; fails = λ a b h. ground arith }

abbrev all_alloc : ℕ → Bool
all_alloc n = true

abbrev nothing : Binheap
nothing = record { nodes = λ p. 0; held = λ b. false; chn_idx = λ x. 0; nodes_cnt = 0; hwm = 0 }

-- Two nodes, of which 3 is the root.
abbrev pub two_nodes : Binheap
two_nodes = record {
  nodes = λ p. if same_place (one 0) p then 3 else if same_place (one 1) p then 9 else 0;
  held = λ b. same_block nodes1 b;
  chn_idx = λ x. if x == 3 then 0 else if x == 9 then 1 else 77;
  nodes_cnt = 2;
  hwm = 512;
}

two_nodes-arrays : (b : Block) → same_block nodes1 b ≡ needed 512 b
unfolding needed same_block
two_nodes-arrays nodes1 = ground arith
two_nodes-arrays nodes2 = ground arith
two_nodes-arrays (nodes2_at i) = ground arith
two_nodes-arrays nodes3 = ground arith
two_nodes-arrays (nodes3_at i) = ground arith
two_nodes-arrays (nodes3_at_at i j) = ground arith

two_nodes-IsGrown : IsGrown two_nodes
two_nodes-IsGrown = record { aligned = refl; capped = omega arith; arrays = two_nodes-arrays }

pub two_nodes-at : (i : ℕ) → at two_nodes i ≡ (if i == 0 then 3 else if i == 1 then 9 else 0)
unfolding pointer same_place
two_nodes-at i = ground arith

pub two_nodes-IsHeap : IsHeap number two_nodes
two_nodes-IsHeap = record {
  grown = two_nodes-IsGrown;
  fits = omega arith;
  full = λ i l. ground (arith, two_nodes-at i);
  indexed = λ i l. ground (arith, two_nodes-at i);
  ordered = λ c p l. ground (arith, two_nodes-at c, two_nodes-at ((c - 1) / 2));
}

has_nine : in_heap two_nodes 9 ≡ true
unfolding in_heap pointer same_place
has_nine = refl

lacks_one : in_heap two_nodes 1 ≡ false
unfolding in_heap
lacks_one = refl

pointer_bounds_example :
    (is_mapped two_nodes.held (pointer 511) ≡ ltb 511 512)
    × (same_place (pointer 511) (pointer 512) ≡ (511 == 512))
pointer_bounds_example = pointer_bounds two_nodes-IsGrown 511 512

grow-GrowsIf_example : GrowsIf (can_grow all_alloc 512) two_nodes (grow all_alloc two_nodes)
grow-GrowsIf_example = grow-GrowsIf two_nodes-IsGrown all_alloc

insert-Holds_example :
    (h' : Binheap) × (insert by_number all_alloc two_nodes 1 ≡ some (0, h'))
    × Holds number true two_nodes 1 h'
unfolding enter
insert-Holds_example =
    insert-Holds by_number number by_number-Compares all_alloc two_nodes-IsHeap 1 lacks_one

remove_locked-Removed_example :
    (h' : Binheap) × (remove_locked by_number two_nodes 9 ≡ some h') × Removed number two_nodes 9 h'
remove_locked-Removed_example =
    remove_locked-Removed by_number number by_number-Compares two_nodes-IsHeap 9 has_nine

remove_root-Removed_example :
    ((remove_root by_number two_nodes ≡ some (0, two_nodes))
      × ((x : ℕ) → in_heap two_nodes x ≡ false))
    ⊎ ((e : ℕ) × (h' : Binheap) × (remove_root by_number two_nodes ≡ some (e, h'))
        × (e ≢ 0)
        × (in_heap two_nodes e ≡ true)
        × ((x : ℕ) → in_heap two_nodes x ≡ true → number e ≤ number x)
        × Removed number two_nodes e h')
remove_root-Removed_example =
    remove_root-Removed by_number number by_number-Compares two_nodes-IsHeap

create_inplace_lem_example :
    (rc : ℕ) × (h' : Binheap) × (create_inplace (λ r. all_alloc) 0 700 nothing ≡ some (rc, h'))
    × (((rc ≡ 0) × IsHeap number h' × (700 ≤ h'.hwm) × ((x : ℕ) → in_heap h' x ≡ false))
        ⊎ ((rc ≢ 0) × ((c : Block) → h'.held c ≡ false)))
create_inplace_lem_example = create_inplace_lem number (λ r. all_alloc) 0 700 nothing (λ c. refl)

-- The nodes in the order in which d_binheap_remove_root hands them out.
drain : ℕ → Binheap → Option (ℕ × Binheap) → ℕ
drain zero h r = 0
drain (suc n) h none = 0
drain (suc n) h (some (e, h')) = e + 100 * drain n h' (remove_root by_number h')

filled : Option (ℕ × Binheap)
filled = insert by_number all_alloc nothing 5 >>= λ a. insert by_number all_alloc a.1 9 >>= λ b.
    insert by_number all_alloc b.1 2 >>= λ c. insert by_number all_alloc c.1 7

drained : drain 5 nothing filled ≡ 9070502 * 100
unfolding drain filled insert place enter bubble bubble_loop settle shift remove_locked replace sink
    sink_loop pick_child find_locked remove_root grow link put set_idx store load pointer same_place
    same_block is_mapped
drained = refl
