-- ===== src/Binheap/Grown.antt =====
-- The memory of the heap: which arrays a heap of a given size holds, where d_binheap_pointer leads,
-- and what d_binheap_grow does to both.
use mathlib.Core.Path.{fun_ext}
use cart.Prelude.{
  ℕ, ◌+◌, ◌-◌, ◌*◌, ◌/◌, ◌%◌, ◌≤◌, ◌<◌, ◌≡◌, ◌≢◌, Bool, true, ◌&&◌, arith, ltb, ◌==◌, if◌then◌else◌,
}
use cart.Binheap.{
  Block, nodes1, nodes2, nodes2_at, nodes3, nodes3_at, nodes3_at_at, Binheap, dbh_size, same_block,
  same_place, array_of, is_mapped, pointer,
}

-- The largest number of nodes: 512 + 512 ^ 2 + 512 ^ 3.
abbrev pub max_nodes : ℕ
max_nodes = 134480384

-- The arrays that are needed for the indices below `hwm`.
unfoldable pub needed : ℕ → Block → Bool
needed hwm nodes1 = ltb 0 hwm
needed hwm nodes2 = ltb 512 hwm
needed hwm (nodes2_at i) = ltb i 512 && ltb (512 + 512 * i) hwm
needed hwm nodes3 = ltb 262656 hwm
needed hwm (nodes3_at i) = ltb i 512 && ltb (262656 + 262144 * i) hwm
needed hwm (nodes3_at_at i j) = ltb i 512 && ltb j 512 && ltb (262656 + 262144 * i + 512 * j) hwm

pub record IsGrown (h : Binheap) : Type 0 where
  pub aligned : h.hwm % dbh_size ≡ 0
  pub capped : h.hwm ≤ max_nodes
  pub arrays : (b : Block) → h.held b ≡ needed h.hwm b

needed_mapped :
    (hwm i : ℕ) → hwm % 512 ≡ 0 → hwm ≤ max_nodes → is_mapped (needed hwm) (pointer i) ≡ ltb i hwm
unfolding needed is_mapped pointer
needed_mapped hwm i a m = ground arith

pub same_place-pointer : (i j : ℕ) → same_place (pointer i) (pointer j) ≡ (i == j)
unfolding same_place pointer
same_place-pointer i j = ground arith

needed_array :
    (hwm i : ℕ)
    → hwm % 512 ≡ 0
    → hwm ≤ max_nodes
    → i < hwm
    → needed hwm (array_of (pointer i)) ≡ true
unfolding needed array_of pointer
needed_array hwm i a m l = ground arith

abbrev pub held_too : Block → (Block → Bool) → Block → Bool
held_too b held c = if same_block b c then true else held c

-- What d_binheap_grow links makes the held arrays those that the next step needs.
module _ (hwm : ℕ) (a : hwm % 512 ≡ 0) (m : hwm < max_nodes) where
  pub needed_one : hwm ≡ 0 → (c : Block) → held_too nodes1 (needed hwm) c ≡ needed (hwm + 512) c
  unfolding needed same_block
  needed_one z nodes1 = ground arith
  needed_one z nodes2 = ground arith
  needed_one z (nodes2_at i) = ground arith
  needed_one z nodes3 = ground arith
  needed_one z (nodes3_at i) = ground arith
  needed_one z (nodes3_at_at i j) = ground arith

  pub needed_two :
      512 < hwm
      → hwm < 262656
      → (c : Block) → held_too (nodes2_at ((hwm - 512) / 512)) (needed hwm) c ≡ needed (hwm + 512) c
  unfolding needed same_block
  needed_two l u nodes1 = ground arith
  needed_two l u nodes2 = ground arith
  needed_two l u (nodes2_at i) = ground arith
  needed_two l u nodes3 = ground arith
  needed_two l u (nodes3_at i) = ground arith
  needed_two l u (nodes3_at_at i j) = ground arith

  pub needed_first_two :
      hwm ≡ 512
      → (c : Block)
      → held_too (nodes2_at ((hwm - 512) / 512)) (held_too nodes2 (needed hwm)) c
        ≡ needed (hwm + 512) c
  unfolding needed same_block
  needed_first_two z nodes1 = ground arith
  needed_first_two z nodes2 = ground arith
  needed_first_two z (nodes2_at i) = ground arith
  needed_first_two z nodes3 = ground arith
  needed_first_two z (nodes3_at i) = ground arith
  needed_first_two z (nodes3_at_at i j) = ground arith

  module _ (u : 262656 ≤ hwm) where
    abbrev pub above : ℕ
    above = hwm - 512 - 262144

    pub needed_three :
        above / 512 % 512 ≢ 0
        → (c : Block)
        → held_too (nodes3_at_at (above / 262144) (above / 512 % 512)) (needed hwm) c
          ≡ needed (hwm + 512) c
    unfolding needed same_block
    needed_three n nodes1 = ground arith
    needed_three n nodes2 = ground arith
    needed_three n (nodes2_at i) = ground arith
    needed_three n nodes3 = ground arith
    needed_three n (nodes3_at i) = ground arith
    needed_three n (nodes3_at_at i j) = ground arith

    pub needed_first_at :
        above / 512 % 512 ≡ 0
        → 262656 < hwm
        → (c : Block)
        → held_too
            (nodes3_at_at (above / 262144) (above / 512 % 512))
            (held_too (nodes3_at (above / 262144)) (needed hwm))
            c
          ≡ needed (hwm + 512) c
    unfolding needed same_block
    needed_first_at z l nodes1 = ground arith
    needed_first_at z l nodes2 = ground arith
    needed_first_at z l (nodes2_at i) = ground arith
    needed_first_at z l nodes3 = ground arith
    needed_first_at z l (nodes3_at i) = ground arith
    needed_first_at z l (nodes3_at_at i j) = ground arith

  pub needed_first_three :
      hwm ≡ 262656
      → (c : Block)
      → held_too (nodes3_at_at 0 0) (held_too (nodes3_at 0) (held_too nodes3 (needed hwm))) c
        ≡ needed (hwm + 512) c
  unfolding needed same_block
  needed_first_three z nodes1 = ground arith
  needed_first_three z nodes2 = ground arith
  needed_first_three z (nodes2_at i) = ground arith
  needed_first_three z nodes3 = ground arith
  needed_first_three z (nodes3_at i) = ground arith
  needed_first_three z (nodes3_at_at i j) = ground arith

module _ {h : Binheap} (g : IsGrown h) where
  pub held-needed : h.held ≡ needed h.hwm
  held-needed = fun_ext g.arrays

  -- The entries that can be reached are those below the high water mark.
  pub is_mapped-pointer : (i : ℕ) → is_mapped h.held (pointer i) ≡ ltb i h.hwm
  is_mapped-pointer i = rw held-needed (needed_mapped h.hwm i g.aligned g.capped)

  pub held-array_of : (i : ℕ) → i < h.hwm → h.held (array_of (pointer i)) ≡ true
  unfolding array_of pointer needed
  held-array_of i l = rw held-needed (needed_array h.hwm i g.aligned g.capped l)

-- Where d_binheap_pointer leads, for a heap whose arrays are those that its high water mark needs:
-- an index is below the high water mark exactly if every pointer on the way is set, every array is
-- entered inside its 512 entries, and the entry is there; two indices have one entry only if they
-- are equal.
pub pointer_bounds :
    {h : Binheap}
    → IsGrown h
    → (i j : ℕ)
    → (is_mapped h.held (pointer i) ≡ ltb i h.hwm) × (same_place (pointer i) (pointer j) ≡ (i == j))
pointer_bounds g i j = (is_mapped-pointer g i, same_place-pointer i j)
