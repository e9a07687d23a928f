-- ===== src/Binheap/Up.antt =====
-- d_binheap_bubble.
use native.Mathlib.Decide.{dec_lt}
use cart.Prelude.{
  ==_refl, ℕ, zero, suc, ◌+◌, ◌-◌, ◌/◌, ◌≤◌, ◌<◌, ◌≡◌, ◌≢◌, ◌⊎◌, inl, inr, refl, ◌∙◌, Bool, true,
  false, Option, some, arith, if◌then◌else◌, lt→ltb, le→ltb, Bool-cases,
}
use cart.Binheap.{Binheap}
use cart.Binheap.Grows.{at}
use cart.Binheap.Moves.{BinheapOps, bubble_loop, bubble}
use cart.Binheap.Order.{
  Compares, in_hole, Hole, Below, Above, Ends, moved, at-moved, chn_idx-moved, cnt-moved, hwm-moved,
  moved-IsGrown, load-at, shift-moved, settle-moved, moved-Ends,
}

pub add_one : (n : ℕ) → n + 1 ≡ suc n
add_one n = omega arith

-- The other node fills the hole, which goes to where that node was.
module _ {key : ℕ → ℕ} {h : Binheap} {e cur : ℕ} (v : Hole key h e cur) where
  module _ (to : ℕ) (inside : to < h.nodes_cnt) (apart : to ≢ cur) where
    abbrev x : ℕ
    x = at h to

    abbrev h' : Binheap
    h' = moved h x cur

    pub in_hole-moved : (y : ℕ) → in_hole h' e to y ≡ in_hole h e cur y
    unfolding in_hole
    in_hole-moved y =
        rw (cnt-moved h x cur, chn_idx-moved, at-moved)
          (ground (arith, v.inside, v.indexed to, v.apart to, v.full to))

    kept-moved : (y : ℕ) → in_hole h e cur y ≡ false → h'.chn_idx y ≡ h.chn_idx y
    unfolding in_hole
    kept-moved y n = rw chn_idx-moved (ground (arith, v.indexed to))

    pub moved-Ends_back : {h'' : Binheap} → Ends key h' e to h'' → Ends key h e cur h''
    moved-Ends_back w = record {
      heap = w.heap;
      cnt = w.cnt ∙ cnt-moved h x cur;
      hwm = w.hwm ∙ hwm-moved h x cur;
      members = λ y. w.members y ∙ in_hole-moved y;
      others = λ y n. w.others y (in_hole-moved y ∙ n) ∙ kept-moved y n;
    }

  abbrev up : ℕ
  up = (cur - 1) / 2

  module _ (p : 0 < cur) where
    up-Hole : key e ≤ key (at h up) → Hole key (moved h (at h up) cur) e up
    up-Hole above =
        let cn = cnt-moved h (at h up) cur in
        let m = at-moved h (at h up) cur in
        let ix = chn_idx-moved h (at h up) cur in
        let inn = v.inside in
        record {
          grown = moved-IsGrown v.grown (at h up) cur;
          fits = rw (cn, hwm-moved) v.fits;
          inside = rw cn (omega (arith, inn));
          some_node = v.some_node;
          full = λ i l n. ground (arith, m i, v.full i, v.full up);
          indexed = λ i l n. rw (m i, chn_idx-moved) (ground (arith, v.indexed i, v.indexed up));
          apart = λ i l n. ground (arith, m i, v.apart i, v.apart up);
          edges = λ c q l n r. ground (arith, m c, m ((c - 1) / 2), v.edges c, v.bridged c);
          bridged = λ c q l r t. ground (arith, m c, m ((up - 1) / 2), v.edges c, v.edges up);
        }

    up-Below : key e ≤ key (at h up) → Below key (moved h (at h up) cur) e up
    up-Below above c q l r =
        ground (arith, cnt-moved h (at h up) cur, at-moved h (at h up) cur c, v.edges c)

-- A loop that carries `e` from the hole at `cur` comes to an end, and reports a move that was made.
abbrev pub EndsWith : (ℕ → ℕ) → Binheap → ℕ → ℕ → Bool → Option (Binheap × Bool) → Type 0
EndsWith key h e cur did r =
    (h' : Binheap) × (d : Bool) × (r ≡ some (h', d)) × Ends key h e cur h' × (did ≡ true → d ≡ true)

-- The loop ends at once: the node stays, or what it waits for is another loop.
module _ (ops : BinheapOps) (key : ℕ → ℕ) (ord : Compares ops.hop_compare key) where
  module _ {h : Binheap} {e cur : ℕ} (v : Hole key h e cur) where
    bubble_root :
        (f : ℕ) (did : Bool)
        → cur ≡ 0
        → bubble_loop ops (suc f) h e cur did ≡ some (moved h e cur, did)
    unfolding bubble_loop
    bubble_root f did z =
        rw
          (
            le→ltb 0 cur (omega arith),
            settle-moved v.grown e cur did (omega (arith, v.inside, v.fits)),
          )
          refl

    bubble_step :
        (f : ℕ) (did : Bool)
        → 0 < cur
        → bubble_loop ops (suc f) h e cur did ≡ (
            if ops.hop_compare (at h ((cur - 1) / 2)) e
            then some (moved h e cur, did)
            else bubble_loop ops f (moved h (at h ((cur - 1) / 2)) cur) e ((cur - 1) / 2) true)
    unfolding bubble_loop
    bubble_step f did p =
        let up : ℕ = (cur - 1) / 2 in
        let lt : up < h.nodes_cnt = omega (arith, v.inside) in
        let ix : h.chn_idx (at h up) ≡ up = v.indexed up lt (omega arith) in
        let nz : at h up ≢ 0 = v.full up lt (omega arith) in
        rw
          (
            lt→ltb 0 cur p,
            load-at v.grown up (omega (arith, v.fits)),
            ix,
            settle-moved v.grown e cur did (omega (arith, v.inside, v.fits)),
            shift-moved v.grown (at h up) cur (omega (arith, v.inside, v.fits)),
          )
          (ground arith)

    up-EndsWith :
        {did : Bool} {r : Option (Binheap × Bool)} (p : 0 < cur)
        → EndsWith key (moved h (at h ((cur - 1) / 2)) cur) e ((cur - 1) / 2) true r
        → EndsWith key h e cur did r
    up-EndsWith p (h', d, run, ends, t) = (
      h',
      d,
      run,
      moved-Ends_back v ((cur - 1) / 2) (omega (arith, v.inside)) (omega arith) ends,
      λ _. t refl,
    )

  -- The node rises to its place, where it is not above its children.
  pub bubble_loop-EndsWith :
      (f : ℕ) {h : Binheap} {e : ℕ} (cur : ℕ) (did : Bool)
      → cur < f
      → Hole key h e cur
      → Below key h e cur
      → EndsWith key h e cur did (bubble_loop ops f h e cur did)
  bubble_loop-EndsWith zero cur did l v b = absurd (omega arith)
  bubble_loop-EndsWith (suc f) {h} {e} cur did l v b = elim (dec_lt 0 cur) [
    | no n ↦ (
      moved h e cur,
      did,
      bubble_root v f did (omega arith),
      moved-Ends v b (λ p. absurd (n p)),
      λ t. t,
    )
    | yes p ↦ elim (Bool-cases (ops.hop_compare (at h ((cur - 1) / 2)) e)) [
      | inl c ↦ (
        moved h e cur,
        did,
        rw (bubble_step v f did p, c) refl,
        moved-Ends v b (λ _. ord.holds _ _ c),
        λ t. t,
      )
      | inr c ↦
          let below = ord.fails _ _ c in
          up-EndsWith v p (
            rw (bubble_step v f did p, c)
              (bubble_loop-EndsWith f ((cur - 1) / 2) true (omega arith) (up-Hole v p below)
                (up-Below v p below)))
    ]
  ]

  module _ (h : Binheap) (e cur : ℕ) (v : Hole key h e cur) (ix : h.chn_idx e ≡ cur)
      (here : at h cur ≡ e) where
    bubble-bubble_loop : bubble ops h e ≡ bubble_loop ops (suc cur) h e cur false
    unfolding bubble
    bubble-bubble_loop =
        rw (ix, load-at v.grown cur (omega (arith, v.inside, v.fits)), here, ==_refl e, add_one cur)
          refl

    -- A node of which nothing is known: it stays and is not below its parent, or it moves.
    pub bubble-cases :
        ((bubble ops h e ≡ some (moved h e cur, false)) × Above key h e cur)
        ⊎ EndsWith key h e cur true (bubble ops h e)
    bubble-cases = rw bubble-bubble_loop (elim (dec_lt 0 cur) [
      | no n ↦ inl (bubble_root v cur false (omega arith), λ p. absurd (n p))
      | yes p ↦ elim (Bool-cases (ops.hop_compare (at h ((cur - 1) / 2)) e)) [
        | inl c ↦ inl (rw (bubble_step v cur false p, c) refl, λ _. ord.holds _ _ c)
        | inr c ↦
            let below = ord.fails _ _ c in
            inr (
              up-EndsWith v p (
                rw (bubble_step v cur false p, c)
                  (bubble_loop-EndsWith cur ((cur - 1) / 2) true (omega arith) (up-Hole v p below)
                    (up-Below v p below))))
      ]
    ])

    -- d_binheap_bubble of a node that is not above its children.
    pub bubble-EndsWith : Below key h e cur → EndsWith key h e cur false (bubble ops h e)
    bubble-EndsWith b =
        rw bubble-bubble_loop (bubble_loop-EndsWith (suc cur) cur false (omega arith) v b)
