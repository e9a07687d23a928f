-- ===== src/Binheap/Freed.antt =====
-- d_binheap_destroy_inplace and d_binheap_create_inplace: which arrays stay allocated.
use native.Mathlib.Decide.{dec_lt, ℕ_discrete}
use cart.Prelude.{
  ℕ, zero, suc, ◌+◌, ◌-◌, ◌*◌, ◌%◌, ◌≤◌, ◌<◌, ◌≡◌, ◌⊎◌, inl, inr, refl, Bool, true, false, ◌&&◌,
  arith, ltb, leb, ◌==◌, if◌then◌else◌, lt→ltb, le→ltb, Bool-cases,
}
use cart.Binheap.{
  Block, nodes1, nodes2, nodes2_at, nodes3, nodes3_at, nodes3_at_at, Binheap, same_block, dbh_size,
  free, free2, free_row, free3, destroy2, destroy3, destroy_held, one_less,
}
use cart.Binheap.Grown.{max_nodes, needed, IsGrown}

-- The arrays that the loops free, from an index on.
from2 : ℕ → Block → Bool
from2 idx (nodes2_at i) = leb idx i
from2 idx c = false

from_row : ℕ → ℕ → Block → Bool
from_row i idx (nodes3_at_at j k) = i == j && leb idx k
from_row i idx c = false

from3 : ℕ → Block → Bool
from3 idx (nodes3_at j) = leb idx j
from3 idx (nodes3_at_at j k) = leb idx j
from3 idx c = false

-- Each loop frees what is needed from its index on, and keeps the rest.
module _ (hwm : ℕ) (a : hwm % 512 ≡ 0) (m : hwm ≤ max_nodes) where
  abbrev Frees : (Block → Bool) → (Block → Bool) → (Block → Bool) → Type 0
  Frees part held held' = (c : Block) → held' c ≡ (if part c then false else held c)

  abbrev Full : (Block → Bool) → (Block → Bool) → Type 0
  Full part held = (c : Block) → part c ≡ true → held c ≡ needed hwm c

  -- Nothing that is needed is left to free.
  ended-Frees :
      {part held : Block → Bool}
      → ((c : Block) → part c ≡ true → needed hwm c ≡ false)
      → Full part held
      → Frees part held held
  ended-Frees {part} none_left full c = ground (arith, none_left c, full c)

  needed-from2 :
      (idx : ℕ)
      → (idx ≡ 512) ⊎ (hwm ≤ 512 + 512 * idx)
      → (c : Block) → from2 idx c ≡ true
      → needed hwm c ≡ false
  unfolding needed from2
  needed-from2 idx d nodes1 t = ground arith
  needed-from2 idx d nodes2 t = ground arith
  needed-from2 idx d (nodes2_at i) t = ground arith
  needed-from2 idx d nodes3 t = ground arith
  needed-from2 idx d (nodes3_at i) t = ground arith
  needed-from2 idx d (nodes3_at_at i k) t = ground arith

  free2-Full :
      (idx : ℕ) (held : Block → Bool)
      → Full (from2 idx) held
      → Full (from2 (idx + 1)) (free (nodes2_at idx) held)
  unfolding free from2 same_block
  free2-Full idx held full (nodes2_at i) t = ground (arith, full (nodes2_at i))
  free2-Full idx held full c t = ground arith

  free2_step :
      (idx : ℕ) (held held' : Block → Bool)
      → Frees (from2 (idx + 1)) (free (nodes2_at idx) held) held'
      → Frees (from2 idx) held held'
  unfolding free from2 same_block
  free2_step idx held held' w nodes1 = ground (arith, w nodes1)
  free2_step idx held held' w nodes2 = ground (arith, w nodes2)
  free2_step idx held held' w (nodes2_at i) = ground (arith, w (nodes2_at i))
  free2_step idx held held' w nodes3 = ground (arith, w nodes3)
  free2_step idx held held' w (nodes3_at i) = ground (arith, w (nodes3_at i))
  free2_step idx held held' w (nodes3_at_at i k) = ground (arith, w (nodes3_at_at i k))

  free2-Frees :
      (f idx n : ℕ) (held : Block → Bool)
      → f + idx ≡ 512
      → n ≡ hwm - (512 + 512 * idx)
      → Full (from2 idx) held
      → Frees (from2 idx) held (free2 f idx n held).0 × ((free2 f idx n held).1 ≡ hwm - 262656)
  unfolding free2 one_less
  free2-Frees zero idx n held e l full =
      (ended-Frees (needed-from2 idx (inl (omega arith))) full, omega arith)
  free2-Frees (suc f) idx n held e l full = elim (Bool-cases (ltb 0 n)) [
    | inr none_left ↦
        rw none_left (ended-Frees (needed-from2 idx (inr (ground arith))) full, ground arith)
    | inl more ↦
        let (w, left) =
          free2-Frees f (idx + 1) (one_less n) (free (nodes2_at idx) held) (omega arith)
            (ground arith) (free2-Full idx held full) in
        rw more (
          free2_step idx held (free2 f (idx + 1) (one_less n) (free (nodes2_at idx) held)).0 w,
          left,
        )
  ]

  needed-from_row :
      (j idx : ℕ)
      → (idx ≡ 512) ⊎ (hwm ≤ 262656 + 262144 * j + 512 * idx)
      → (c : Block) → from_row j idx c ≡ true
      → needed hwm c ≡ false
  unfolding needed from_row
  needed-from_row j idx d nodes1 t = ground arith
  needed-from_row j idx d nodes2 t = ground arith
  needed-from_row j idx d (nodes2_at i) t = ground arith
  needed-from_row j idx d nodes3 t = ground arith
  needed-from_row j idx d (nodes3_at i) t = ground arith
  needed-from_row j idx d (nodes3_at_at i k) t = ground arith

  free_row-Full :
      (j idx : ℕ) (held : Block → Bool)
      → Full (from_row j idx) held
      → Full (from_row j (idx + 1)) (free (nodes3_at_at j idx) held)
  unfolding free from_row same_block
  free_row-Full j idx held full (nodes3_at_at i k) t = ground (arith, full (nodes3_at_at i k))
  free_row-Full j idx held full c t = ground arith

  free_row_step :
      (j idx : ℕ) (held held' : Block → Bool)
      → Frees (from_row j (idx + 1)) (free (nodes3_at_at j idx) held) held'
      → Frees (from_row j idx) held held'
  unfolding free from_row same_block
  free_row_step j idx held held' w nodes1 = ground (arith, w nodes1)
  free_row_step j idx held held' w nodes2 = ground (arith, w nodes2)
  free_row_step j idx held held' w (nodes2_at i) = ground (arith, w (nodes2_at i))
  free_row_step j idx held held' w nodes3 = ground (arith, w nodes3)
  free_row_step j idx held held' w (nodes3_at i) = ground (arith, w (nodes3_at i))
  free_row_step j idx held held' w (nodes3_at_at i k) = ground (arith, w (nodes3_at_at i k))

  free_row-Frees :
      (f j idx n : ℕ) (held : Block → Bool)
      → f + idx ≡ 512
      → j < 512
      → n ≡ hwm - (262656 + 262144 * j + 512 * idx)
      → Full (from_row j idx) held
      → Frees (from_row j idx) held (free_row f j idx n held).0
        × ((free_row f j idx n held).1 ≡ hwm - (262656 + 262144 * (j + 1)))
  unfolding free_row one_less
  free_row-Frees zero j idx n held e u l full =
      (ended-Frees (needed-from_row j idx (inl (omega arith))) full, omega arith)
  free_row-Frees (suc f) j idx n held e u l full = elim (Bool-cases (ltb 0 n)) [
    | inr none_left ↦
        rw none_left (ended-Frees (needed-from_row j idx (inr (ground arith))) full, ground arith)
    | inl more ↦
        let (w, left) =
          free_row-Frees f j (idx + 1) (one_less n) (free (nodes3_at_at j idx) held) (omega arith) u
            (ground arith) (free_row-Full j idx held full) in
        rw more (
          free_row_step j idx held
              (free_row f j (idx + 1) (one_less n) (free (nodes3_at_at j idx) held)).0 w,
          left,
        )
  ]

  needed-from3 :
      (idx : ℕ)
      → (idx ≡ 512) ⊎ (hwm ≤ 262656 + 262144 * idx)
      → (c : Block) → from3 idx c ≡ true
      → needed hwm c ≡ false
  unfolding needed from3
  needed-from3 idx d nodes1 t = ground arith
  needed-from3 idx d nodes2 t = ground arith
  needed-from3 idx d (nodes2_at i) t = ground arith
  needed-from3 idx d nodes3 t = ground arith
  needed-from3 idx d (nodes3_at i) t = ground arith
  needed-from3 idx d (nodes3_at_at i k) t = ground arith

  from_row-Full :
      (idx : ℕ) (held : Block → Bool) → Full (from3 idx) held → Full (from_row idx 0) held
  unfolding from_row from3
  from_row-Full idx held full (nodes3_at_at i k) t = ground (arith, full (nodes3_at_at i k))
  from_row-Full idx held full c t = ground arith

  free3-Full :
      (idx : ℕ) (held held' : Block → Bool)
      → Frees (from_row idx 0) held held'
      → Full (from3 idx) held
      → Full (from3 (idx + 1)) (free (nodes3_at idx) held')
  unfolding free from3 from_row same_block
  free3-Full idx held held' w full (nodes3_at i) t =
      ground (arith, full (nodes3_at i), w (nodes3_at i))
  free3-Full idx held held' w full (nodes3_at_at i k) t =
      ground (arith, full (nodes3_at_at i k), w (nodes3_at_at i k))
  free3-Full idx held held' w full c t = ground arith

  free3_step :
      (idx : ℕ) (held row held' : Block → Bool)
      → Frees (from_row idx 0) held row
      → Frees (from3 (idx + 1)) (free (nodes3_at idx) row) held'
      → Frees (from3 idx) held held'
  unfolding free from3 from_row same_block
  free3_step idx held row held' r w nodes1 = ground (arith, w nodes1, r nodes1)
  free3_step idx held row held' r w nodes2 = ground (arith, w nodes2, r nodes2)
  free3_step idx held row held' r w (nodes2_at i) = ground (arith, w (nodes2_at i), r (nodes2_at i))
  free3_step idx held row held' r w nodes3 = ground (arith, w nodes3, r nodes3)
  free3_step idx held row held' r w (nodes3_at i) = ground (arith, w (nodes3_at i), r (nodes3_at i))
  free3_step idx held row held' r w (nodes3_at_at i k) =
      ground (arith, w (nodes3_at_at i k), r (nodes3_at_at i k))

  free3-Frees :
      (f idx n : ℕ) (held : Block → Bool)
      → f + idx ≡ 512
      → n ≡ hwm - (262656 + 262144 * idx)
      → Full (from3 idx) held
      → Frees (from3 idx) held (free3 f idx n held).0
  unfolding free3
  free3-Frees zero idx n held e l full = ended-Frees (needed-from3 idx (inl (omega arith))) full
  free3-Frees (suc f) idx n held e l full = elim (Bool-cases (ltb 0 n)) [
    | inr none_left ↦ rw none_left (ended-Frees (needed-from3 idx (inr (ground arith))) full)
    | inl more ↦
        let row : (Block → Bool) × ℕ = free_row dbh_size idx 0 n held in
        let (r, left) =
          free_row-Frees dbh_size idx 0 n held refl (omega arith) (omega arith)
            (from_row-Full idx held full) in
        let w =
          free3-Frees f (idx + 1) row.1 (free (nodes3_at idx) row.0) (omega arith) left
            (free3-Full idx held row.0 r full) in
        rw more
          (free3_step idx held row.0 (free3 f (idx + 1) row.1 (free (nodes3_at idx) row.0)).0 r w)
  ]

-- What is needed beyond the first array, and beyond the arrays of arrays, is empty for small heaps.
module _ {h : Binheap} (g : IsGrown h) where
  one_held : Block → Bool
  one_held = free nodes1 h.held

  one_Full : Full h.hwm g.aligned g.capped (from2 0) one_held
  unfolding one_held free from2 same_block
  one_Full (nodes2_at i) t = g.arrays (nodes2_at i)
  one_Full c t = ground arith

  two_loop : (Block → Bool) × ℕ
  two_loop = free2 dbh_size 0 (one_less h.hwm) one_held

  two_Full :
      Frees h.hwm g.aligned g.capped (from2 0) one_held two_loop.0
      → Full h.hwm g.aligned g.capped (from3 0) (free nodes2 two_loop.0)
  unfolding one_held free from2 from3 same_block
  two_Full w (nodes3_at i) t = ground (arith, w (nodes3_at i), g.arrays (nodes3_at i))
  two_Full w (nodes3_at_at i k) t =
      ground (arith, w (nodes3_at_at i k), g.arrays (nodes3_at_at i k))
  two_Full w c t = ground arith

  all_freed :
      (held' : Block → Bool)
      → Frees h.hwm g.aligned g.capped (from2 0) one_held two_loop.0
      → Frees h.hwm g.aligned g.capped (from3 0) (free nodes2 two_loop.0) held'
      → (c : Block) → free nodes3 held' c ≡ false
  unfolding one_held free from2 from3 same_block
  all_freed held' w r nodes1 = ground (arith, w nodes1, r nodes1)
  all_freed held' w r nodes2 = ground (arith, w nodes2, r nodes2)
  all_freed held' w r (nodes2_at i) = ground (arith, w (nodes2_at i), r (nodes2_at i))
  all_freed held' w r nodes3 = ground (arith, w nodes3, r nodes3)
  all_freed held' w r (nodes3_at i) = ground (arith, w (nodes3_at i), r (nodes3_at i))
  all_freed held' w r (nodes3_at_at i k) =
      ground (arith, w (nodes3_at_at i k), r (nodes3_at_at i k))

  two_freed :
      h.hwm ≤ 262656
      → Frees h.hwm g.aligned g.capped (from2 0) one_held two_loop.0
      → (c : Block) → free nodes2 two_loop.0 c ≡ false
  unfolding one_held free from2 same_block needed
  two_freed l w nodes1 = ground (arith, w nodes1, g.arrays nodes1)
  two_freed l w nodes2 = ground (arith, w nodes2, g.arrays nodes2)
  two_freed l w (nodes2_at i) = ground (arith, w (nodes2_at i), g.arrays (nodes2_at i))
  two_freed l w nodes3 = ground (arith, w nodes3, g.arrays nodes3)
  two_freed l w (nodes3_at i) = ground (arith, w (nodes3_at i), g.arrays (nodes3_at i))
  two_freed l w (nodes3_at_at i k) =
      ground (arith, w (nodes3_at_at i k), g.arrays (nodes3_at_at i k))

  one_freed : h.hwm ≤ 512 → (c : Block) → one_held c ≡ false
  unfolding one_held free same_block needed
  one_freed l nodes1 = ground (arith, g.arrays nodes1)
  one_freed l nodes2 = ground (arith, g.arrays nodes2)
  one_freed l (nodes2_at i) = ground (arith, g.arrays (nodes2_at i))
  one_freed l nodes3 = ground (arith, g.arrays nodes3)
  one_freed l (nodes3_at i) = ground (arith, g.arrays (nodes3_at i))
  one_freed l (nodes3_at_at i k) = ground (arith, g.arrays (nodes3_at_at i k))

  none_held : h.hwm ≡ 0 → (c : Block) → h.held c ≡ false
  unfolding needed
  none_held l nodes1 = ground (arith, g.arrays nodes1)
  none_held l nodes2 = ground (arith, g.arrays nodes2)
  none_held l (nodes2_at i) = ground (arith, g.arrays (nodes2_at i))
  none_held l nodes3 = ground (arith, g.arrays nodes3)
  none_held l (nodes3_at i) = ground (arith, g.arrays (nodes3_at i))
  none_held l (nodes3_at_at i k) = ground (arith, g.arrays (nodes3_at_at i k))

  -- d_binheap_destroy_inplace frees every array of a heap, of any size.
  pub destroy_held-false : (c : Block) → destroy_held h c ≡ false
  unfolding destroy_held destroy2 destroy3 one_less one_held two_loop
  destroy_held-false c = elim (ℕ_discrete h.hwm 0) [
    | yes z ↦ rw (le→ltb 0 h.hwm (omega arith)) (none_held z c)
    | no n ↦ elim (dec_lt 512 h.hwm) [
      | no small ↦
          rw (lt→ltb 0 h.hwm (omega arith), le→ltb 0 (one_less h.hwm) (omega (arith, g.capped)))
            (one_freed (omega arith) c)
      | yes large ↦
          let (w, left) =
            free2-Frees h.hwm g.aligned g.capped dbh_size 0 (one_less h.hwm) one_held refl
              (omega (arith, g.capped)) one_Full in
          let pos1 = lt→ltb 0 h.hwm (omega arith) in
          let pos2 = lt→ltb 0 (one_less h.hwm) (omega (arith, g.capped)) in
          elim (dec_lt 262656 h.hwm) [
            | no mid ↦
                rw (pos1, pos2, le→ltb 0 two_loop.1 (omega (arith, left)))
                  (two_freed (omega arith) w c)
            | yes big ↦
                rw (pos1, pos2, lt→ltb 0 two_loop.1 (omega (arith, left)))
                  (all_freed (free3 dbh_size 0 two_loop.1 (free nodes2 two_loop.0)).0 w
                    (free3-Frees h.hwm g.aligned g.capped dbh_size 0 two_loop.1
                      (free nodes2 two_loop.0) refl (omega (arith, left)) (two_Full w))
                    c)
          ]
    ]
  ]
