-- ===== src/Requests/Expiry.antt =====
-- crt_context_timeout_check: the requests that it takes out of the heap of deadlines.
use std.Path.{subst}
use mathlib.Core.Path.{fun_ext}
use native.Mathlib.Decide.{dec_lt, ℕ_discrete}
use cart.Prelude.{
  ℕ, zero, suc, ◌+◌, ◌≤◌, ◌<◌, ◌≡◌, ◌≢◌, ◌⊎◌, inl, inr, refl, sym, ap, ◌∙◌, Bool, true, false, not,
  ◌&&◌, some, List, [], ◌∷◌, All, count, arith, ltb, leb, ◌==◌, if◌then◌else◌, one_if, ge→leb,
  lt→leb, lt→ltb, le→ltb,
}
use cart.Binheap.{Binheap}
use cart.Binheap.Grows.{at}
use cart.Binheap.Moves.{find_locked}
use cart.Binheap.Order.{in_heap, load-at}
use cart.Binheap.Remove.{root_least, root-in_heap, in_heap-empty}
use cart.Requests.{
  Context, deadline, addref, timeout_untrack, timeout_bh_ops, collect, timeout_check,
}
use cart.Requests.Timed.{Timed, addref-Timed, timeout_untrack-Timed}

-- The request stands in the heap and its deadline is not later than now.
pub expired : ℕ → Context → ℕ → Bool
expired ts_now ctx y = in_heap ctx.bh y && leb (deadline ctx y) ts_now

-- No request has an earlier deadline than those before it.
abbrev pub Ascending : (ℕ → ℕ) → List ℕ → Type 0
Ascending key [] = Unit
Ascending key (x ∷ l) = All (λ y. key x ≤ key y) l × Ascending key l

-- `l` are the expired requests, each once and by their deadlines, and they only left the heap.
pub record Expires (ts_now : ℕ) (ctx : Context) (l : List ℕ) (c : Context) : Type 0 where
  pub timed : Timed c
  pub exactly : (y : ℕ) → count y l ≡ one_if (expired ts_now ctx y)
  pub in_order : Ascending (deadline ctx) l
  pub rpcs :
      (y : ℕ)
      → c.rpc y
        ≡ (if expired ts_now ctx y then record (ctx.rpc y) { in_binheap = false } else ctx.rpc y)
  pub rest : (y : ℕ) → in_heap c.bh y ≡ (in_heap ctx.bh y && ltb ts_now (deadline ctx y))
  pub req_q : c.req_q ≡ ctx.req_q
  pub waitq : c.waitq ≡ ctx.waitq

All-count : {P : ℕ → Type 0} (l : List ℕ) → ((y : ℕ) → 0 < count y l → P y) → All P l
All-count [] h = tt
All-count (x ∷ l) h = (h x (ground arith), All-count l (λ y p. h y (ground arith)))

-- d_binheap_root
module _ {ctx : Context} (t : Timed ctx) where
  abbrev root : ℕ
  root = at ctx.bh 0

  find_root :
      ((find_locked (timeout_bh_ops ctx) ctx.bh 0 ≡ some 0) × ((x : ℕ) → in_heap ctx.bh x ≡ false))
      ⊎ ((find_locked (timeout_bh_ops ctx) ctx.bh 0 ≡ some root)
          × (in_heap ctx.bh root ≡ true)
          × (root ≢ 0)
          × (0 < ctx.bh.nodes_cnt)
          × ((x : ℕ) → in_heap ctx.bh x ≡ true → deadline ctx root ≤ deadline ctx x))
  unfolding find_locked
  find_root = elim (ℕ_discrete ctx.bh.nodes_cnt 0) [
    | yes z ↦ inl (rw (ge→leb ctx.bh.nodes_cnt 0 (omega arith)) refl, λ x. in_heap-empty ctx.bh x z)
    | no n ↦
        let pos : 0 < ctx.bh.nodes_cnt = omega arith in
        let v = t.heap in
        inr (
          rw (lt→leb ctx.bh.nodes_cnt 0 pos) (load-at v.grown 0 (omega (arith, v.fits))),
          root-in_heap v pos,
          v.full 0 pos,
          pos,
          root_least v,
        )
  ]

  -- Nothing has expired.
  none_expired : (ts_now : ℕ) → ((y : ℕ) → expired ts_now ctx y ≡ false) → Expires ts_now ctx [] ctx
  unfolding expired
  none_expired ts_now no_one = record {
    timed = t;
    exactly = λ y. ground (arith, no_one y);
    in_order = tt;
    rpcs = λ y. rw (no_one y) refl;
    rest = λ y. ground (arith, no_one y);
    req_q = refl;
    waitq = refl;
  }

  module _ (ts_now : ℕ) (m : in_heap ctx.bh root ≡ true) (due : deadline ctx root ≤ ts_now)
      (least : (x : ℕ) → in_heap ctx.bh x ≡ true → deadline ctx root ≤ deadline ctx x) where
    -- The root is taken out, with a reference that stands for the list.
    take_root :
        (c d : Context) × (addref ctx root ≡ some c)
        × (timeout_untrack c root ≡ some d)
        × Timed d
        × (d.bh.nodes_cnt + 1 ≡ ctx.bh.nodes_cnt)
        × ((y : ℕ)
            → d.rpc y
              ≡ (if y == root then record (ctx.rpc root) { in_binheap = false } else ctx.rpc y))
        × (d.req_q ≡ ctx.req_q)
        × (d.waitq ≡ ctx.waitq)
    take_root =
        let inn : (ctx.rpc root).in_binheap ≡ true = t.flags root ∙ m in
        let (c, run, tc, ch, same) = addref-Timed t root (ground (arith, t.refs root)) in
        let (d, run2, td, ch2, cnt) = timeout_untrack-Timed tc root in
        (
          c,
          d,
          run,
          run2,
          td,
          ground (arith, ch.rpcs root, ap (λ (b : Binheap). b.nodes_cnt) same),
          (λ y. ground (arith, ch2.rpcs y, ch.rpcs y, ch.rpcs root)),
          ch2.req_q ∙ ch.req_q,
          ch2.waitq ∙ ch.waitq,
        )

    -- What has expired after it, and what the whole loop then leaves.
    take_Expires :
        (d : Context)
        → Timed d
        → ((y : ℕ)
            → d.rpc y
              ≡ (if y == root then record (ctx.rpc root) { in_binheap = false } else ctx.rpc y))
        → (d.req_q ≡ ctx.req_q)
        → (d.waitq ≡ ctx.waitq)
        → (l : List ℕ) (c : Context) → Expires ts_now d l c
        → Expires ts_now ctx (root ∷ l) c
    unfolding expired
    take_Expires d td rp q w l c e =
        let ins : (y : ℕ) → in_heap d.bh y ≡ (in_heap ctx.bh y && not (y == root)) =
          λ y. sym (td.flags y) ∙ ground (arith, rp y, t.flags y) in
        let dl : (y : ℕ) → deadline d y ≡ deadline ctx y = λ y. ground (arith, rp y) in
        record {
          timed = e.timed;
          exactly = λ y. ground (arith, e.exactly y, ins y, dl y);
          in_order = (
            All-count l (λ y p. least y (ground (arith, e.exactly y, ins y))),
            subst (λ k. Ascending k l) (fun_ext dl) e.in_order,
          );
          rpcs = λ y. ground (arith, e.rpcs y, ins y, dl y, rp y);
          rest = λ y. ground (arith, e.rest y, ins y, dl y);
          req_q = e.req_q ∙ q;
          waitq = e.waitq ∙ w;
        }

collect-Expires :
    (f ts_now : ℕ) (ctx : Context)
    → Timed ctx
    → ctx.bh.nodes_cnt < f
    → (l : List ℕ) × (c : Context) × (collect f ts_now ctx ≡ some (l, c)) × Expires ts_now ctx l c
unfolding collect expired
collect-Expires zero ts_now ctx t l = absurd (omega arith)
collect-Expires (suc f) ts_now ctx t l = elim (find_root t) [
  | inl (run, none_in) ↦
      ([], ctx, rw run refl, none_expired t ts_now (λ y. ground (arith, none_in y)))
  | inr (run, m, nz, pos, least) ↦
      let x : ℕ = at ctx.bh 0 in
      let z : (x == 0) ≡ false = ground arith in
      elim (dec_lt ts_now (deadline ctx x)) [
        | yes later ↦ (
          [],
          ctx,
          rw (run, z, lt→ltb ts_now (deadline ctx x) later) refl,
          none_expired t ts_now (λ y. ground (arith, least y)),
        )
        | no due ↦
            let (c, d, run1, run2, td, cnt, rp, q, w) = take_root t ts_now m (omega arith) least in
            let (l', e, run3, ends) = collect-Expires f ts_now d td (omega arith) in
            (
              x ∷ l',
              e,
              rw (run, z, le→ltb ts_now (deadline ctx x) (omega arith), run1, run2, run3) refl,
              take_Expires t ts_now m (omega arith) least d td rp q w l' e ends,
            )
      ]
]

-- The loop of crt_context_timeout_check comes to an end, with no assertion failed, and takes out of
-- the heap of deadlines exactly the requests whose deadline is not later than the present time, each
-- once and in the order of their deadlines. Nothing else changes in any request: those that are
-- left have later deadlines, and the references are what they were.
pub timeout_check-Expires :
    (ts_now : ℕ) (ctx : Context)
    → Timed ctx
    → (l : List ℕ) × (c : Context) × (timeout_check ts_now ctx ≡ some (l, c))
      × Expires ts_now ctx l c
unfolding timeout_check
timeout_check-Expires ts_now ctx t =
    collect-Expires (ctx.bh.nodes_cnt + 1) ts_now ctx t (omega arith)
