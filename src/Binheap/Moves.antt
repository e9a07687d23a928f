-- ===== src/Binheap/Moves.antt =====
-- The operations of src/gurt/heap.c that move nodes: d_binheap_bubble, d_binheap_sink,
-- d_binheap_insert, d_binheap_remove_locked and d_binheap_remove_root.
use cart.Prelude.{
  ℕ, zero, suc, ◌+◌, ◌-◌, ◌*◌, ◌/◌, Bool, true, false, not, ◌&&◌, Option, none, some, ltb, leb,
  ◌==◌, if◌then◌else◌, der_inval,
}
use cart.Binheap.{Binheap, dbh_poison, assert, ◌>>=◌, load, store, set_idx, grow}

-- The operations table, struct d_binheap_ops. Neither callback changes the heap, and what
-- hop_exit returns is not read.
pub record BinheapOps : Type 0 where
  pub hop_compare : ℕ → ℕ → Bool
  pub hop_enter : Option (ℕ → ℕ)

-- The statements after both loops: the node takes its place.
unfoldable pub settle : Binheap → ℕ → ℕ → Bool → Option (Binheap × Bool)
settle h e cur did = store (set_idx h e cur) cur e >>= λ h'. some (h', did)

-- The other node takes the place at `cur`.
unfoldable pub shift : Binheap → ℕ → ℕ → Option Binheap
shift h x cur = store (set_idx h x cur) cur x

module _ (ops : BinheapOps) where
  -- The loop of d_binheap_bubble.
  unfoldable pub bubble_loop : ℕ → Binheap → ℕ → ℕ → Bool → Option (Binheap × Bool)
  bubble_loop zero h e cur did = none
  bubble_loop (suc f) h e cur did =
      let up = (cur - 1) / 2 in
      let rise = load h up >>= λ parent. assert (not (parent == 0) && h.chn_idx parent == up) (
        if ops.hop_compare parent e
        then settle h e cur did
        else shift h parent cur >>= λ h'. bubble_loop f h' e up true) in
      if ltb 0 cur then rise else settle h e cur did

  unfoldable pub bubble : Binheap → ℕ → Option (Binheap × Bool)
  bubble h e = load h (h.chn_idx e) >>= λ x.
      assert (x == e) (bubble_loop (h.chn_idx e + 1) h e (h.chn_idx e) false)

  -- The child that may rise: its index and the node.
  unfoldable pub pick_child : Binheap → ℕ → ℕ → Option (ℕ × ℕ)
  pick_child h child_idx child =
      if ltb (child_idx + 1) h.nodes_cnt
      then (load h (child_idx + 1) >>= λ child2.
          some
            (if ops.hop_compare child2 child then (child_idx + 1, child2) else (child_idx, child)))
      else some (child_idx, child)

  -- The loop of d_binheap_sink.
  unfoldable pub sink_loop : ℕ → Binheap → ℕ → ℕ → Bool → Option (Binheap × Bool)
  sink_loop zero h e cur did = none
  sink_loop (suc f) h e cur did =
      let child_idx = cur * 2 + 1 in
      let drop = load h child_idx >>= λ child. pick_child h child_idx child >>= λ c.
      assert (not (c.1 == 0) && h.chn_idx c.1 == c.0) (
        if ops.hop_compare e c.1
        then settle h e cur did
        else shift h c.1 cur >>= λ h'. sink_loop f h' e c.0 true) in
      if ltb cur h.nodes_cnt && ltb child_idx h.nodes_cnt then drop else settle h e cur did

  unfoldable pub sink : Binheap → ℕ → Option (Binheap × Bool)
  sink h e = load h (h.chn_idx e) >>= λ x.
      assert (x == e) (sink_loop (h.nodes_cnt + 1) h e (h.chn_idx e) false)

  -- The part of d_binheap_insert after hop_enter.
  unfoldable pub place : Binheap → ℕ → Option (ℕ × Binheap)
  place h e =
      let new_idx = h.nodes_cnt in
      store (record (set_idx h e new_idx) { nodes_cnt = new_idx + 1 }) new_idx e >>= λ h'.
      bubble h' e >>= λ r. some (0, r.0)

  unfoldable pub enter : ℕ → ℕ
  enter e = elim ops.hop_enter [ none ↦ 0 | some f ↦ f e ]

  -- d_binheap_insert
  unfoldable pub insert : (ℕ → Bool) → Binheap → ℕ → Option (ℕ × Binheap)
  insert alloc h e =
      let grown = if h.nodes_cnt == h.hwm then grow alloc h else some (0, h) in
      if e == 0
      then some (der_inval, h)
      else assert (leb h.nodes_cnt h.hwm) (
          grown >>= λ r.
          if r.0 == 0 then (if enter e == 0 then place r.1 e else some (enter e, r.1)) else some r)

  -- The part of d_binheap_remove_locked that puts the last node where the other was.
  unfoldable pub replace : Binheap → ℕ → ℕ → Option Binheap
  replace h last cur = shift h last cur >>= λ h1.
      bubble h1 last >>= λ r. if r.1 then some r.0 else (sink r.0 last >>= λ s. some s.0)

  -- d_binheap_remove_locked
  unfoldable pub remove_locked : Binheap → ℕ → Option Binheap
  remove_locked h e =
      let cur = h.chn_idx e in
      let n = h.nodes_cnt - 1 in
      if e == 0
      then some h
      else assert (not (cur == dbh_poison) && ltb cur h.nodes_cnt) (
          load h cur >>= λ x. assert (x == e) (
            load h n >>= λ last.
            (if last == e
              then some (record h { nodes_cnt = n })
              else replace (record h { nodes_cnt = n }) last cur)
            >>= λ g. some (set_idx g e dbh_poison)))

  -- d_binheap_find_locked
  unfoldable pub find_locked : Binheap → ℕ → Option ℕ
  find_locked h idx = if leb h.nodes_cnt idx then some 0 else load h idx

  -- d_binheap_remove_root
  unfoldable pub remove_root : Binheap → Option (ℕ × Binheap)
  remove_root h = find_locked h 0 >>= λ e.
      if e == 0 then some (0, h) else (remove_locked h e >>= λ h'. some (e, h'))
