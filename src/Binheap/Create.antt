-- ===== src/Binheap/Create.antt =====
-- d_binheap_create_inplace.
use native.Mathlib.Decide.{dec_lt}
use cart.Prelude.{
  ℕ, zero, suc, ◌+◌, ◌-◌, ◌≤◌, ◌<◌, ◌≡◌, ◌≢◌, ◌⊎◌, inl, inr, refl, ◌∙◌, Bool, true, false, Option,
  none, some, arith, ◌==◌, lt→ltb, le→ltb, Bool-cases, ==→ne, der_nomem,
}
use cart.Binheap.{
  Block, nodes1, nodes2, nodes2_at, nodes3, nodes3_at, nodes3_at_at, Binheap, destroy_inplace,
  prealloc, create_inplace, create, zeroed,
}
use cart.Binheap.Grown.{needed, IsGrown}
use cart.Binheap.Grows.{grow-GrowsIf}
use cart.Binheap.Order.{IsHeap, in_heap}
use cart.Binheap.Remove.{in_heap-empty}
use cart.Binheap.Freed.{destroy_held-false}

-- The rounds end with enough room, or for want of memory.
abbrev Preallocated : ℕ → Binheap → Option (ℕ × Binheap) → Type 0
Preallocated count h r =
    (rc : ℕ) × (h' : Binheap) × (r ≡ some (rc, h'))
    × IsGrown h'
    × (h'.nodes_cnt ≡ h.nodes_cnt)
    × (((rc ≡ 0) × (count ≤ h'.hwm)) ⊎ (rc ≡ der_nomem))

prealloc-Preallocated :
    (f : ℕ) (alloc : ℕ → ℕ → Bool) (count : ℕ) (h : Binheap)
    → IsGrown h
    → count - h.hwm < f
    → Preallocated count h (prealloc f alloc count h)
unfolding prealloc
prealloc-Preallocated zero alloc count h g l = absurd (omega arith)
prealloc-Preallocated (suc f) alloc count h g l = elim (dec_lt h.hwm count) [
  | no n ↦ (0, h, rw (le→ltb h.hwm count (omega arith)) refl, g, refl, inl (refl, omega arith))
  | yes p ↦ rw (lt→ltb h.hwm count p) (elim (grow-GrowsIf g (alloc f)) [
    | inr (_, failed) ↦ (der_nomem, h, rw failed refl, g, refl, inr refl)
    | inl (_, h1, grown, w) ↦
        let (rc, h', run, g', cnt, out) =
          prealloc-Preallocated f alloc count h1 w.grown (omega (arith, w.higher)) in
        (rc, h', rw grown run, g', cnt ∙ w.cnt, out)
  ])
]

needed_zero : (c : Block) → needed 0 c ≡ false
unfolding needed
needed_zero nodes1 = ground arith
needed_zero nodes2 = ground arith
needed_zero (nodes2_at i) = ground arith
needed_zero nodes3 = ground arith
needed_zero (nodes3_at i) = ground arith
needed_zero (nodes3_at_at i k) = ground arith

empty-IsGrown : {h : Binheap} → ((c : Block) → h.held c ≡ false) → h.hwm ≡ 0 → IsGrown h
empty-IsGrown n z = record {
  aligned = rw z refl;
  capped = omega arith;
  arrays = λ c. rw (n c, z, needed_zero c) refl;
}

empty-IsHeap : (key : ℕ → ℕ) {h : Binheap} → IsGrown h → h.nodes_cnt ≡ 0 → IsHeap key h
empty-IsHeap key g z = record {
  grown = g;
  fits = omega arith;
  full = λ i l. absurd (omega arith);
  indexed = λ i l. absurd (omega arith);
  ordered = λ c p l. absurd (omega arith);
}

-- d_binheap_create_inplace, on every path: it returns 0, and the heap is in order, empty, and has
-- room for as many nodes as were asked for; or it returns an error, and no array stays allocated.
pub create_inplace_lem :
    (key : ℕ → ℕ) (alloc : ℕ → ℕ → Bool) (lock_rc count : ℕ) (h : Binheap)
    → ((c : Block) → h.held c ≡ false)
    → (rc : ℕ) × (h' : Binheap) × (create_inplace alloc lock_rc count h ≡ some (rc, h'))
      × (((rc ≡ 0) × IsHeap key h' × (count ≤ h'.hwm) × ((x : ℕ) → in_heap h' x ≡ false))
          ⊎ ((rc ≢ 0) × ((c : Block) → h'.held c ≡ false)))
unfolding create_inplace destroy_inplace
create_inplace_lem key alloc lock_rc count h none_held =
    let start : Binheap = record h { nodes_cnt = 0; hwm = 0 } in
    let (rc, h', run, g, cnt, out) =
      prealloc-Preallocated (count + 1) alloc count start (empty-IsGrown none_held refl)
        (omega arith) in
    elim out [
      | inr failed ↦
          (rc, destroy_inplace h', rw (run, failed) refl, inr (omega arith, destroy_held-false g))
      | inl (z, room) ↦ elim (Bool-cases (lock_rc == 0)) [
        | inl locked ↦ (
          0,
          h',
          rw (run, z, locked) refl,
          inl (refl, empty-IsHeap key g cnt, room, λ x. in_heap-empty h' x cnt),
        )
        | inr unlocked ↦ (
          lock_rc,
          destroy_inplace h',
          rw (run, z, unlocked) refl,
          inr (==→ne lock_rc 0 unlocked, destroy_held-false g),
        )
      ]
    ]

-- d_binheap_create sets *h exactly where it returns 0, and then to an empty heap in order that has
-- room for as many nodes as were asked for.
pub create_lem :
    (key : ℕ → ℕ) (got : Bool) (alloc : ℕ → ℕ → Bool) (lock_rc count : ℕ)
    → ((h : Binheap) × (create got alloc lock_rc count ≡ some (0, some h))
        × IsHeap key h
        × (count ≤ h.hwm)
        × ((x : ℕ) → in_heap h x ≡ false))
      ⊎ ((rc : ℕ) × (create got alloc lock_rc count ≡ some (rc, none)) × (rc ≢ 0))
unfolding create
create_lem key false alloc lock_rc count = inr (der_nomem, refl, omega arith)
create_lem key true alloc lock_rc count =
    let (rc, h, run, out) = create_inplace_lem key alloc lock_rc count zeroed (λ c. refl) in
    elim out [
      | inl (z, heap, room, empty) ↦ inl (h, rw (run, z) refl, heap, room, empty)
      | inr (nz, freed) ↦
          let no : (rc == 0) ≡ false = ground arith in inr (rc, rw (run, no) refl, nz)
    ]
