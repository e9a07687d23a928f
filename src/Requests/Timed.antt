-- ===== src/Requests/Timed.antt =====
-- crt_req_timeout_track and crt_req_timeout_untrack: the heap of deadlines and the flags and
-- references of the requests agree.
use std.Path.{subst}
use cart.Prelude.{
  ℕ, ◌+◌, ◌-◌, ◌/◌, ◌≤◌, ◌<◌, ◌≡◌, ◌≢◌, ◌⊎◌, inl, inr, refl, sym, ap, ◌∙◌, Bool, true, false, not,
  ◌&&◌, some, arith, ◌==◌, if◌then◌else◌, der_nomem, one_if, Bool-cases, ==_refl,
}
use cart.Binheap.{Binheap}
use cart.Binheap.Grows.{at, can_grow}
use cart.Binheap.Moves.{enter, insert}
use cart.Binheap.Order.{Compares, IsHeap, in_heap}
use cart.Binheap.Insert.{insert_rc, insert-Holds}
use cart.Binheap.Remove.{remove_locked-Removed}
use cart.Requests.{
  Rpc, Context, deadline, set_rpc, timeout_bh_ops, addref, decref, set_in_binheap, timeout_track,
  timeout_untrack, track_new, untrack_old,
}

-- All entries of the heap are in use, and it cannot grow with these allocations.
abbrev pub no_room : (ℕ → Bool) → Binheap → Bool
no_room alloc h = h.nodes_cnt == h.hwm && not (can_grow alloc h.hwm)

-- Every request that is in the heap of deadlines has the flag, and the context holds a reference
-- to it; it holds one more to each that is tracked.
pub record Timed (ctx : Context) : Type 0 where
  pub heap : IsHeap (deadline ctx) ctx.bh
  pub flags : (x : ℕ) → (ctx.rpc x).in_binheap ≡ in_heap ctx.bh x
  pub refs :
      (x : ℕ)
      → one_if (ctx.rpc x).in_binheap + one_if (ctx.rpc x).ctx_tracked ≤ (ctx.rpc x).refcount

-- One request has changed, and perhaps the heap.
pub record Changes (x : ℕ) (r : Rpc) (ctx c : Context) : Type 0 where
  pub rpcs : (y : ℕ) → c.rpc y ≡ (if y == x then r else ctx.rpc y)
  pub req_q : c.req_q ≡ ctx.req_q
  pub req_num : c.req_num ≡ ctx.req_num
  pub reply_num : c.reply_num ≡ ctx.reply_num
  pub waitq : c.waitq ≡ ctx.waitq
  pub wait_num : c.wait_num ≡ ctx.wait_num

-- A heap is in order by any key that agrees on its nodes.
pub IsHeap-key :
    {key key' : ℕ → ℕ} {h : Binheap}
    → ((x : ℕ) → in_heap h x ≡ true → key' x ≡ key x)
    → IsHeap key h
    → IsHeap key' h
unfolding in_heap
IsHeap-key {h = h} same v = record {
  grown = v.grown;
  fits = v.fits;
  full = v.full;
  indexed = v.indexed;
  ordered = λ c p l. ground (
    arith,
    v.ordered c,
    same (at h c),
    same (at h ((c - 1) / 2)),
    v.indexed c,
    v.indexed ((c - 1) / 2),
  );
}

pub timeout_bh_ops-Compares :
    (ctx : Context) → Compares (timeout_bh_ops ctx).hop_compare (deadline ctx)
unfolding timeout_bh_ops
timeout_bh_ops-Compares ctx = record {
  holds = λ a b h. ground arith;
  fails = λ a b h. ground arith;
}

abbrev pub entered : Rpc → Rpc
entered r = record r { in_binheap = true; refcount = r.refcount + 1 }

abbrev pub left : Rpc → Rpc
left r = record r { in_binheap = false; refcount = r.refcount - 1 }

module _ {ctx : Context} (t : Timed ctx) (x : ℕ) where
  abbrev r : Rpc
  r = ctx.rpc x

  -- The request with another reference, the one that came in, and the one that did not.
  abbrev held_on : Context
  held_on = set_rpc ctx x (record r { refcount = r.refcount + 1 })

  abbrev came_in : Binheap → Context
  came_in h = set_in_binheap held_on x true h

  abbrev let_go : Binheap → Context
  let_go h = set_rpc (record held_on { bh = h }) x (record r { refcount = r.refcount + 1 - 1 })

  held_on-deadline : (y : ℕ) → deadline held_on y ≡ deadline ctx y
  unfolding set_rpc
  held_on-deadline y = ground arith

  came_in-Changes : (h : Binheap) → Changes x (entered r) ctx (came_in h)
  unfolding set_rpc set_in_binheap
  came_in-Changes h = record {
    rpcs = λ y. ground arith;
    req_q = refl;
    req_num = refl;
    reply_num = refl;
    waitq = refl;
    wait_num = refl;
  }

  let_go-Changes : (h : Binheap) → Changes x r ctx (let_go h)
  unfolding set_rpc
  let_go-Changes h = record {
    rpcs = λ y. ground arith;
    req_q = refl;
    req_num = refl;
    reply_num = refl;
    waitq = refl;
    wait_num = refl;
  }

  -- A context with one request changed is in order, if the flag and the references of that one are.
  pub rpcs-Timed :
      {c : Context} (r' : Rpc)
      → ((y : ℕ) → c.rpc y ≡ (if y == x then r' else ctx.rpc y))
      → IsHeap (deadline ctx) c.bh
      → (r'.in_binheap ≡ true → r'.timeout_ts ≡ r.timeout_ts)
      → ((y : ℕ) → in_heap c.bh y ≡ (if y == x then r'.in_binheap else in_heap ctx.bh y))
      → one_if r'.in_binheap + one_if r'.ctx_tracked ≤ r'.refcount
      → Timed c
  rpcs-Timed {c} r' w h same mem le = record {
    heap = IsHeap-key (λ y m. ground (arith, w y, mem y)) h;
    flags = λ y. ground (arith, w y, mem y, t.flags y);
    refs = λ y. ground (arith, w y, t.refs y);
  }

  module _ (alloc : ℕ → Bool) (nz : x ≢ 0) (out : r.in_binheap ≡ false) (pos : 0 < r.refcount) where
    track_rc : ℕ
    track_rc = insert_rc (timeout_bh_ops held_on) alloc ctx.bh x

    track_rc-cases : (track_rc ≡ 0) ⊎ (track_rc ≡ der_nomem)
    unfolding track_rc enter timeout_bh_ops
    track_rc-cases = ground arith

    addref-held_on : addref ctx x ≡ some held_on
    unfolding addref
    addref-held_on = ground arith

    decref-let_go : (h : Binheap) → decref (record held_on { bh = h }) x ≡ some (let_go h)
    unfolding decref set_rpc
    decref-let_go h = rw (==_refl x) (ground arith)

    track_run :
        (h : Binheap)
        → insert (timeout_bh_ops held_on) alloc ctx.bh x ≡ some (track_rc, h)
        → track_new alloc ctx x ≡ some (track_rc, (if track_rc == 0 then came_in h else let_go h))
    unfolding track_new set_rpc
    track_run h run = rw (addref-held_on, run) (ground (arith, decref-let_go h))

    track_new-Timed :
        (rc : ℕ) × (c : Context) × (track_new alloc ctx x ≡ some (rc, c))
        × ((rc ≡ 0) ⊎ (rc ≡ der_nomem))
        × Timed c
        × Changes x (if rc == 0 then entered r else r) ctx c
    unfolding set_in_binheap set_rpc track_rc
    track_new-Timed =
        let (h', run, w) =
          insert-Holds (timeout_bh_ops held_on) (deadline held_on) (timeout_bh_ops-Compares held_on)
            alloc {h = ctx.bh} (IsHeap-key (λ y m. held_on-deadline y) t.heap) x
            (sym (t.flags x) ∙ out) in
        let heap : IsHeap (deadline ctx) h' = IsHeap-key (λ y m. sym (held_on-deadline y)) w.heap in
        let le = t.refs x in
        elim (Bool-cases (track_rc == 0)) [
          | inl came ↦
              let ch = came_in-Changes h' in
              (
                track_rc,
                came_in h',
                track_run h' run ∙ rw came refl,
                track_rc-cases,
                rpcs-Timed _ ch.rpcs heap (λ _. refl) (λ y. w.members y ∙ ground (arith, t.flags x))
                    (ground (arith, t.refs x)),
                rw came ch,
              )
          | inr failed ↦
              let ch = let_go-Changes h' in
              (
                track_rc,
                let_go h',
                track_run h' run ∙ rw failed refl,
                track_rc-cases,
                rpcs-Timed _ ch.rpcs heap (λ _. refl) (λ y. w.members y ∙ ground (arith, t.flags x))
                    le,
                rw failed ch,
              )
        ]

    track_new-rc :
        (c : Context) × (track_new alloc ctx x
          ≡ some (if no_room alloc ctx.bh then der_nomem else 0, c))
    unfolding track_rc enter timeout_bh_ops
    track_new-rc =
        let (h', run, w) =
          insert-Holds (timeout_bh_ops held_on) (deadline held_on) (timeout_bh_ops-Compares held_on)
            alloc {h = ctx.bh} (IsHeap-key (λ y m. held_on-deadline y) t.heap) x
            (sym (t.flags x) ∙ out) in
        let code : track_rc ≡ (if no_room alloc ctx.bh then der_nomem else 0) =
          ground (arith, nz) in
        let c : Context = (if track_rc == 0 then came_in h' else let_go h') in
        (c, track_run h' run ∙ ap (λ n. some (n, c)) code)

  -- The request without the flag, and after the removal.
  abbrev marked : Context
  marked = set_in_binheap ctx x false ctx.bh

  abbrev gone : Binheap → Context
  gone h = set_rpc (record marked { bh = h }) x (left r)

  marked-deadline : (y : ℕ) → deadline marked y ≡ deadline ctx y
  unfolding set_rpc set_in_binheap
  marked-deadline y = ground arith

  gone-Changes : (h : Binheap) → Changes x (left r) ctx (gone h)
  unfolding set_rpc set_in_binheap
  gone-Changes h = record {
    rpcs = λ y. ground arith;
    req_q = refl;
    req_num = refl;
    reply_num = refl;
    waitq = refl;
    wait_num = refl;
  }

  module _ (inn : r.in_binheap ≡ true) where
    decref-gone : (h : Binheap) → decref (record marked { bh = h }) x ≡ some (gone h)
    unfolding decref set_rpc set_in_binheap
    decref-gone h = let le = t.refs x in rw (==_refl x) (ground arith)

    -- A request leaves the heap of deadlines.
    untrack_old-Timed :
        (c : Context) × (untrack_old ctx x ≡ some c)
        × Timed c
        × Changes x (left r) ctx c
        × (c.bh.nodes_cnt + 1 ≡ ctx.bh.nodes_cnt)
    unfolding untrack_old set_in_binheap set_rpc
    untrack_old-Timed =
        let (g, run, w) =
          remove_locked-Removed (timeout_bh_ops marked) (deadline marked)
            (timeout_bh_ops-Compares marked) {h = ctx.bh}
            (IsHeap-key (λ y m. marked-deadline y) t.heap) x (sym (t.flags x) ∙ inn) in
        let heap : IsHeap (deadline ctx) g = IsHeap-key (λ y m. sym (marked-deadline y)) w.heap in
        let ch = gone-Changes g in
        (
          gone g,
          rw run (decref-gone g),
          rpcs-Timed _ ch.rpcs heap (λ _. refl) (λ y. w.members y ∙ ground arith)
              (ground (arith, t.refs x)),
          ch,
          w.cnt,
        )

  pub same-Changes : Changes x r ctx ctx
  same-Changes = record {
    rpcs = λ y. ground arith;
    req_q = refl;
    req_num = refl;
    reply_num = refl;
    waitq = refl;
    wait_num = refl;
  }

  held_on-Changes : Changes x (record r { refcount = r.refcount + 1 }) ctx held_on
  unfolding set_rpc
  held_on-Changes = record {
    rpcs = λ y. refl;
    req_q = refl;
    req_num = refl;
    reply_num = refl;
    waitq = refl;
    wait_num = refl;
  }

  -- Another reference, to a request that has one.
  pub addref-Timed :
      0 < r.refcount
      → (c : Context) × (addref ctx x ≡ some c)
        × Timed c
        × Changes x (record r { refcount = r.refcount + 1 }) ctx c
        × (c.bh ≡ ctx.bh)
  unfolding addref set_rpc
  addref-Timed pos = (
    held_on,
    ground arith,
    rpcs-Timed _ (held_on-Changes).rpcs t.heap (λ _. refl) (λ y. ground (arith, t.flags x))
        (omega (arith, t.refs x)),
    held_on-Changes,
    refl,
  )

  -- crt_req_timeout_track of a request that the caller has a reference to: the request is in the
  -- heap of deadlines afterwards, with a reference more if it was not there before, or there is no
  -- memory for it and nothing has changed. The heap, the flags and the references agree again.
  pub timeout_track-Timed :
      (alloc : ℕ → Bool)
      → x ≢ 0
      → 0 < r.refcount
      → (rc : ℕ) × (c : Context) × (timeout_track alloc ctx x ≡ some (rc, c))
        × ((rc ≡ 0) ⊎ (rc ≡ der_nomem))
        × Timed c
        × Changes x (if not r.in_binheap && rc == 0 then entered r else r) ctx c
  unfolding timeout_track
  timeout_track-Timed alloc nz pos = elim (Bool-cases r.in_binheap) [
    | inl inn ↦ (
      0,
      ctx,
      ap (λ (b : Bool). if b then some (0, ctx) else track_new alloc ctx x) inn,
      inl refl,
      t,
      subst (λ (b : Bool). Changes x (if not b && 0 == 0 then entered r else r) ctx ctx) (sym inn)
          same-Changes,
    )
    | inr out ↦
        let (rc, c, run, which, timed, ch) = track_new-Timed alloc nz out pos in
        (
          rc,
          c,
          ap (λ (b : Bool). if b then some (0, ctx) else track_new alloc ctx x) out ∙ run,
          which,
          timed,
          subst (λ (b : Bool). Changes x (if not b && rc == 0 then entered r else r) ctx c)
              (sym out) ch,
        )
  ]

  -- It returns an error exactly where the heap has no room for a request that is not in it.
  pub timeout_track-rc :
      (alloc : ℕ → Bool)
      → x ≢ 0
      → 0 < r.refcount
      → r.in_binheap ≡ false
      → (c : Context) × (timeout_track alloc ctx x
          ≡ some (if no_room alloc ctx.bh then der_nomem else 0, c))
  unfolding timeout_track
  timeout_track-rc alloc nz pos out =
      let (c, run) = track_new-rc alloc nz out pos in
      (c, ap (λ (b : Bool). if b then some (0, ctx) else track_new alloc ctx x) out ∙ run)

  -- crt_req_timeout_untrack: the request is not in the heap of deadlines afterwards, and the
  -- reference that stood for it is gone.
  pub timeout_untrack-Timed :
      (c : Context) × (timeout_untrack ctx x ≡ some c)
      × Timed c
      × Changes x (if r.in_binheap then left r else r) ctx c
      × (c.bh.nodes_cnt + one_if r.in_binheap ≡ ctx.bh.nodes_cnt)
  unfolding timeout_untrack
  timeout_untrack-Timed = elim (Bool-cases r.in_binheap) [
    | inr out ↦ (
      ctx,
      ap (λ (b : Bool). if b then untrack_old ctx x else some ctx) out,
      t,
      subst (λ (b : Bool). Changes x (if b then left r else r) ctx ctx) (sym out) same-Changes,
      ground arith,
    )
    | inl inn ↦
        let (c, run, timed, ch, cnt) = untrack_old-Timed inn in
        (
          c,
          ap (λ (b : Bool). if b then untrack_old ctx x else some ctx) inn ∙ run,
          timed,
          subst (λ (b : Bool). Changes x (if b then left r else r) ctx c) (sym inn) ch,
          ground arith,
        )
  ]
