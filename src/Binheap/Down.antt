-- ===== src/Binheap/Down.antt =====
-- d_binheap_sink.
use native.Mathlib.Decide.{dec_lt}
use cart.Prelude.{
  ℕ, zero, suc, ◌+◌, ◌-◌, ◌*◌, ◌/◌, ◌≤◌, ◌<◌, ◌≡◌, ◌≢◌, inl, inr, refl, Bool, true, false, Option,
  some, arith, if◌then◌else◌, lt→ltb, le→ltb, Bool-cases, ==_refl,
}
use cart.Binheap.{Binheap}
use cart.Binheap.Grows.{at}
use cart.Binheap.Moves.{BinheapOps, pick_child, sink_loop, sink}
use cart.Binheap.Order.{
  Compares, Hole, Above, moved, at-moved, chn_idx-moved, cnt-moved, hwm-moved, moved-IsGrown,
  load-at, shift-moved, settle-moved, moved-Ends,
}
use cart.Binheap.Up.{EndsWith, moved-Ends_back}

-- `m` is a child of `cur`, and no other child has a lower key.
record IsLeastChild (key : ℕ → ℕ) (h : Binheap) (cur m : ℕ) : Type 0 where
  inside : m < h.nodes_cnt
  child : (m - 1) / 2 ≡ cur
  later : cur < m
  least : (c : ℕ) → 0 < c → c < h.nodes_cnt → (c - 1) / 2 ≡ cur → key (at h m) ≤ key (at h c)

module _ {key : ℕ → ℕ} {h : Binheap} {e cur : ℕ} (v : Hole key h e cur) where
  module _ {m : ℕ} (l : IsLeastChild key h cur m) where
    down-Hole : Hole key (moved h (at h m) cur) e m
    down-Hole =
        let cn = cnt-moved h (at h m) cur in
        let w = at-moved h (at h m) cur in
        let inn = v.inside in
        let deep = l.later in
        record {
          grown = moved-IsGrown v.grown (at h m) cur;
          fits = rw (cn, hwm-moved) v.fits;
          inside = rw cn l.inside;
          some_node = v.some_node;
          full = λ i p n. ground (arith, w i, v.full i, v.full m);
          indexed = λ i p n. rw (w i, chn_idx-moved) (ground (arith, v.indexed i, v.indexed m));
          apart = λ i p n. ground (arith, w i, v.apart i, v.apart m);
          edges = λ c q p n r.
              ground (arith, w c, w ((c - 1) / 2), v.edges c, v.bridged c, v.bridged m, l.least c);
          bridged = λ c q p r t. ground (arith, w c, w ((m - 1) / 2), v.edges c);
        }

    down-Above : key (at h m) ≤ key e → Above key (moved h (at h m) cur) e m
    down-Above below p = ground (arith, at-moved h (at h m) cur ((m - 1) / 2), l.child)

    down-EndsWith :
        {did : Bool} {r : Option (Binheap × Bool)}
        → EndsWith key (moved h (at h m) cur) e m true r
        → EndsWith key h e cur did r
    down-EndsWith (h', d, run, ends, t) =
        (h', d, run, moved-Ends_back v m l.inside (omega (arith, l.later)) ends, λ _. t refl)

module _ (ops : BinheapOps) (key : ℕ → ℕ) (ord : Compares ops.hop_compare key) where
  module _ {h : Binheap} {e cur : ℕ} (v : Hole key h e cur) where
    first-IsLeastChild :
        cur * 2 + 1 < h.nodes_cnt
        → (cur * 2 + 1 + 1 < h.nodes_cnt → key (at h (cur * 2 + 1)) ≤ key (at h (cur * 2 + 1 + 1)))
        → IsLeastChild key h cur (cur * 2 + 1)
    first-IsLeastChild l le = record {
      inside = l;
      child = omega arith;
      later = omega arith;
      least = λ c q p r. ground arith;
    }

    second-IsLeastChild :
        cur * 2 + 1 + 1 < h.nodes_cnt
        → key (at h (cur * 2 + 1 + 1)) ≤ key (at h (cur * 2 + 1))
        → IsLeastChild key h cur (cur * 2 + 1 + 1)
    second-IsLeastChild l le = record {
      inside = l;
      child = omega arith;
      later = omega arith;
      least = λ c q p r. ground arith;
    }

    pick_child-IsLeastChild :
        cur * 2 + 1 < h.nodes_cnt
        → (m : ℕ) × (pick_child ops h (cur * 2 + 1) (at h (cur * 2 + 1)) ≡ some (m, at h m))
          × IsLeastChild key h cur m
    unfolding pick_child
    pick_child-IsLeastChild l =
        let next : ℕ = cur * 2 + 1 + 1 in
        elim (dec_lt next h.nodes_cnt) [
          | no n ↦ (
            cur * 2 + 1,
            rw (le→ltb next h.nodes_cnt (omega arith)) refl,
            first-IsLeastChild l (λ p. absurd (n p)),
          )
          | yes p ↦
              let read = load-at v.grown next (omega (arith, v.fits)) in
              elim (Bool-cases (ops.hop_compare (at h next) (at h (cur * 2 + 1)))) [
                | inl c ↦ (
                  next,
                  rw (lt→ltb next h.nodes_cnt p, read, c) refl,
                  second-IsLeastChild p (ord.holds _ _ c),
                )
                | inr c ↦ (
                  cur * 2 + 1,
                  rw (lt→ltb next h.nodes_cnt p, read, c) refl,
                  first-IsLeastChild l (λ _. ord.fails _ _ c),
                )
              ]
        ]

    sink_leaf :
        (f : ℕ) (did : Bool)
        → h.nodes_cnt ≤ cur * 2 + 1
        → sink_loop ops (suc f) h e cur did ≡ some (moved h e cur, did)
    unfolding sink_loop
    sink_leaf f did l =
        rw
          (
            lt→ltb cur h.nodes_cnt v.inside,
            le→ltb (cur * 2 + 1) h.nodes_cnt l,
            settle-moved v.grown e cur did (omega (arith, v.inside, v.fits)),
          )
          refl

    sink_step :
        (f : ℕ) (did : Bool) (m : ℕ)
        → cur * 2 + 1 < h.nodes_cnt
        → pick_child ops h (cur * 2 + 1) (at h (cur * 2 + 1)) ≡ some (m, at h m)
        → IsLeastChild key h cur m
        → sink_loop ops (suc f) h e cur did ≡ (
            if ops.hop_compare e (at h m)
            then some (moved h e cur, did)
            else sink_loop ops f (moved h (at h m) cur) e m true)
    unfolding sink_loop
    sink_step f did m l pick least =
        let ix : h.chn_idx (at h m) ≡ m = v.indexed m least.inside (omega (arith, least.later)) in
        let nz : at h m ≢ 0 = v.full m least.inside (omega (arith, least.later)) in
        rw
          (
            lt→ltb cur h.nodes_cnt v.inside,
            lt→ltb (cur * 2 + 1) h.nodes_cnt l,
            load-at v.grown (cur * 2 + 1) (omega (arith, v.fits)),
            pick,
            ix,
            settle-moved v.grown e cur did (omega (arith, v.inside, v.fits)),
            shift-moved v.grown (at h m) cur (omega (arith, v.inside, v.fits)),
          )
          (ground arith)

  -- The node sinks to its place, where it is not below its parent.
  pub sink_loop-EndsWith :
      (f : ℕ) {h : Binheap} {e : ℕ} (cur : ℕ) (did : Bool)
      → h.nodes_cnt < f + cur
      → Hole key h e cur
      → Above key h e cur
      → EndsWith key h e cur did (sink_loop ops f h e cur did)
  sink_loop-EndsWith zero cur did l v a = absurd (omega (arith, v.inside))
  sink_loop-EndsWith (suc f) {h} {e} cur did l v a = elim (dec_lt (cur * 2 + 1) h.nodes_cnt) [
    | no n ↦ (
      moved h e cur,
      did,
      sink_leaf v f did (omega arith),
      moved-Ends v (λ c q p r. absurd (omega arith)) a,
      λ t. t,
    )
    | yes p ↦
        let (m, pick, least) = pick_child-IsLeastChild v p in
        elim (Bool-cases (ops.hop_compare e (at h m))) [
          | inl c ↦ (
            moved h e cur,
            did,
            rw (sink_step v f did m p pick least, c) refl,
            moved-Ends v (λ d q r t. omega (arith, ord.holds _ _ c, least.least d q r t)) a,
            λ t. t,
          )
          | inr c ↦ down-EndsWith v least (
              rw (sink_step v f did m p pick least, c)
                (sink_loop-EndsWith f m true (rw cnt-moved (omega (arith, least.later)))
                  (down-Hole v least) (down-Above v least (ord.fails _ _ c))))
        ]
  ]

  -- d_binheap_sink of a node that is not below its parent.
  pub sink-EndsWith :
      (h : Binheap) (e cur : ℕ)
      → Hole key h e cur
      → Above key h e cur
      → h.chn_idx e ≡ cur
      → at h cur ≡ e
      → EndsWith key h e cur false (sink ops h e)
  unfolding sink
  sink-EndsWith h e cur v a ix here =
      rw (ix, load-at v.grown cur (omega (arith, v.inside, v.fits)), here, ==_refl e)
        (sink_loop-EndsWith (h.nodes_cnt + 1) cur false (omega (arith, v.inside)) v a)
