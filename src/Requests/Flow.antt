-- ===== src/Requests/Flow.antt =====
-- Flow control: the queues and counters of an endpoint, and what crt_context_req_track does to them.
use cart.Prelude.{
  ℕ, ◌+◌, ◌-◌, ◌*◌, ◌%◌, ◌^◌, ◌≤◌, ◌<◌, ◌≡◌, ◌≢◌, ◌⊎◌, inl, inr, refl, sym, Option, none, ap, ◌∙◌,
  Bool, true, false, not, ◌&&◌, some, List, [], ◌∷◌, ◌++◌, length, length-append, count,
  count-append, arith, ltb, leb, ◌==◌, if◌then◌else◌, one_if, Bool-cases, ==_refl, der_nomem,
}
use cart.Requests.{Rpc, queued, Context, set_rpc, addref, decref}
use cart.Binheap.{Binheap}
use cart.Requests.Timed.{
  no_room, timeout_track-rc, Timed, Changes, rpcs-Timed, entered, addref-Timed, timeout_track-Timed,
}
use cart.Requests.Credits.{
  Config, track_in_inflighq, track_in_waitq, set_timeout, set_state, set_tracked, inflight, enqueue,
  launch, track_at,
}

-- The counters agree with the queues, no request stands in them twice or without the mark that it
-- is tracked, there are no more requests on their way than credits, none waits while there is a
-- credit, and those that wait have no deadline.
pub record Flow (cfg : Config) (ctx : Context) : Type 0 where
  pub timed : Timed ctx
  pub counted : ctx.req_num ≡ ctx.reply_num + length ctx.req_q
  pub waiting : ctx.wait_num ≡ length ctx.waitq
  pub limited : 0 < cfg.credit_ep_ctx → length ctx.req_q ≤ cfg.credit_ep_ctx
  pub busy : 0 < length ctx.waitq → cfg.credit_ep_ctx ≤ length ctx.req_q
  pub controlled : 0 < length ctx.waitq → 0 < cfg.credit_ep_ctx
  pub listed : (x : ℕ) → count x ctx.req_q + count x ctx.waitq ≤ one_if (ctx.rpc x).ctx_tracked
  pub asleep : (x : ℕ) → 0 < count x ctx.waitq → (ctx.rpc x).in_binheap ≡ false
  pub no_null : count 0 ctx.req_q + count 0 ctx.waitq ≡ 0

-- One request gets other fields, of which the heap of deadlines does not read any.
pub set_rpc-Timed :
    {ctx : Context}
    → Timed ctx
    → (x : ℕ) (r : Rpc) → r.in_binheap ≡ (ctx.rpc x).in_binheap
    → (r.in_binheap ≡ true → r.timeout_ts ≡ (ctx.rpc x).timeout_ts)
    → one_if r.in_binheap + one_if r.ctx_tracked ≤ r.refcount
    → Timed (set_rpc ctx x r)
unfolding set_rpc
set_rpc-Timed {ctx} t x r same ts le =
    rpcs-Timed t x r (λ y. refl) t.heap ts (λ y. ground (arith, t.flags x)) le

-- The queues and their counters are not read by the heap of deadlines.
pub queues-Timed :
    {ctx : Context}
    → Timed ctx
    → (q w : List ℕ) (m n k : ℕ)
    → Timed (record ctx { req_q = q; waitq = w; req_num = m; wait_num = n; reply_num = k })
queues-Timed t q w m n k = record { heap = t.heap; flags = t.flags; refs = t.refs }

-- A request put into a queue, at the front or at the end.
abbrev pub put_in : Bool → ℕ → List ℕ → List ℕ
put_in front x w = if front then x ∷ w else w ++ x ∷ []

length-put_in : (front : Bool) (x : ℕ) (w : List ℕ) → length (put_in front x w) ≡ length w + 1
length-put_in front x w = ground (arith, length-append w (x ∷ []))

count-put_in :
    (front : Bool) (x : ℕ) (w : List ℕ) (y : ℕ)
    → count y (put_in front x w) ≡ count y w + one_if (y == x)
count-put_in front x w y = ground (arith, count-append y w (x ∷ []))

-- What crt_context_req_track leaves for the request: it is on its way, or there is no memory to
-- watch its deadline, or it waits since all credits are in use.
abbrev pub Launched : (ℕ → Bool) → Context → ℕ → ℕ → Context → Type 0
Launched alloc ctx x rc e =
    ((no_room alloc ctx.bh ≡ false)
      × (rc ≡ track_in_inflighq)
      × (e.req_q ≡ ctx.req_q ++ x ∷ [])
      × (e.waitq ≡ ctx.waitq)
      × ((e.rpc x).in_binheap ≡ true))
    ⊎ ((no_room alloc ctx.bh ≡ true)
        × (rc ≡ der_nomem)
        × (e.req_q ≡ ctx.req_q)
        × (e.waitq ≡ ctx.waitq)
        × ((e.rpc x).in_binheap ≡ false)
        × ((e.rpc x).refcount ≡ (ctx.rpc x).refcount))

abbrev pub Waits : Config → Context → ℕ → ℕ → Context → Type 0
Waits cfg ctx x rc e =
    (rc ≡ track_in_waitq)
    × (0 < cfg.credit_ep_ctx)
    × (cfg.credit_ep_ctx ≤ length ctx.req_q)
    × (e.req_q ≡ ctx.req_q)
    × (e.waitq ≡ put_in (ctx.rpc x).queue_front x ctx.waitq)
    × ((e.rpc x).state ≡ queued)

-- Two runs of one call give the same return code.
code_of :
    (alloc : ℕ → Bool) (h : Binheap) {run : Option (ℕ × Context)} {rc : ℕ} {d : Context}
    → run ≡ some (rc, d)
    → (c : Context) × (run ≡ some (if no_room alloc h then der_nomem else 0, c))
    → rc ≡ (if no_room alloc h then der_nomem else 0)
code_of alloc h {rc = rc} e (c, e') = ap (λ o. elim o [ some r ↦ r.0 | none ↦ rc ]) (sym e ∙ e')

abbrev pub Tracked : Config → (ℕ → Bool) → Context → ℕ → ℕ → Context → Type 0
Tracked cfg alloc ctx x rc e =
    Waits cfg ctx x rc e
    ⊎ ((0 < cfg.credit_ep_ctx → length ctx.req_q < cfg.credit_ep_ctx) × Launched alloc ctx x rc e)

module _ {cfg : Config} {ctx : Context} (f : Flow cfg ctx) (x : ℕ)
    (out : (ctx.rpc x).in_binheap ≡ false) (free : (ctx.rpc x).ctx_tracked ≡ false) where
  abbrev r : Rpc
  r = ctx.rpc x

  -- The request after crt_set_timeout and RPC_ADDREF.
  started :
      (now : ℕ)
      → 0 < r.refcount
      → (c : Context) × (ts : ℕ) × (addref (set_timeout cfg now ctx x) x ≡ some c)
        × Timed c
        × Changes x (record r { timeout_ts = ts; refcount = r.refcount + 1 }) ctx c
        × (c.bh ≡ ctx.bh)
  unfolding set_timeout set_rpc
  started now pos =
      let sec : ℕ = (if ltb 0 r.timeout_sec then r.timeout_sec else cfg.timeout) in
      let ts : ℕ = (now + sec * 1_000_000) % 2 ^ 64 in
      let r1 : Rpc = record r { timeout_ts = ts } in
      let t1 = set_rpc-Timed f.timed x r1 refl (λ e. ground arith) (f.timed.refs x) in
      let (c, run, t, ch, same) = addref-Timed t1 x (rw (==_refl x) pos) in
      (
        c,
        ts,
        run,
        t,
        record {
          rpcs = λ y. ground (arith, ch.rpcs y);
          req_q = ch.req_q;
          req_num = ch.req_num;
          reply_num = ch.reply_num;
          waitq = ch.waitq;
          wait_num = ch.wait_num;
        },
        same,
      )

  module _ {c : Context} {ts : ℕ} (t : Timed c)
      (ch : Changes x (record r { timeout_ts = ts; refcount = r.refcount + 1 }) ctx c) where
    at_x : c.rpc x ≡ record r { timeout_ts = ts; refcount = r.refcount + 1 }
    at_x = ch.rpcs x ∙ rw (==_refl x) refl

    -- No credit is left: the request waits.
    enqueue-Flow :
        x ≢ 0
        → 0 < cfg.credit_ep_ctx
        → cfg.credit_ep_ctx ≤ length ctx.req_q
        → Flow cfg (enqueue c x)
          × ((enqueue c x).req_q ≡ ctx.req_q)
          × ((enqueue c x).waitq ≡ put_in r.queue_front x ctx.waitq)
          × (((enqueue c x).rpc x).state ≡ queued)
    unfolding enqueue set_tracked set_state set_rpc
    enqueue-Flow nz pos full =
        let r2 : Rpc = record (c.rpc x) { state = queued; ctx_tracked = true } in
        let rp : (y : ℕ) → (enqueue c x).rpc y ≡ (if y == x then r2 else c.rpc y) =
          λ y. ground arith in
        let back : (enqueue c x).waitq ≡ put_in r.queue_front x ctx.waitq =
          ground (arith, at_x, ch.waitq) in
        let q = ch.req_q in
        let len : length (enqueue c x).waitq ≡ length ctx.waitq + 1 =
          rw back (length-put_in r.queue_front x ctx.waitq) in
        let cnt : (y : ℕ) → count y (enqueue c x).waitq ≡ count y ctx.waitq + one_if (y == x) =
          λ y. rw back (count-put_in r.queue_front x ctx.waitq y) in
        (
          record {
            timed =
                rpcs-Timed t x r2 rp t.heap (λ e. refl) (λ y. ground (arith, t.flags x))
                  (ground (arith, at_x));
            counted = ground (arith, f.counted, ch.req_num, ch.reply_num, ap (length {A = ℕ}) q);
            waiting = omega (arith, len, f.waiting, ch.wait_num);
            limited = λ p. ground (arith, f.limited p, ap (length {A = ℕ}) q);
            busy = λ p. ground (arith, ap (length {A = ℕ}) q);
            controlled = λ p. pos;
            listed = λ y. ground (arith, rp y, cnt y, f.listed y, ch.rpcs y, ap (count y) q);
            asleep = λ y p. ground (arith, rp y, cnt y, f.asleep y, ch.rpcs y);
            no_null = ground (arith, cnt 0, f.no_null, ap (count 0) q);
          },
          q,
          back,
          rw (==_refl x) refl,
        )

    module _ (nz : x ≢ 0) (pos : 0 < r.refcount)
        (room : 0 < cfg.credit_ep_ctx → length ctx.req_q < cfg.credit_ep_ctx) where
      sent : Context → Context
      sent d = set_tracked (record d { req_q = d.req_q ++ x ∷ []; req_num = d.req_num + 1 }) x true

      dropped : Context → Context
      dropped d =
          set_tracked (set_rpc d x (record (d.rpc x) { refcount = (d.rpc x).refcount - 1 })) x true

      module _ {d : Context} (td : Timed d) where
        sent-Flow :
            (alloc : ℕ → Bool)
            → no_room alloc ctx.bh ≡ false
            → Changes x (entered (c.rpc x)) c d
            → Flow cfg (sent d) × Launched alloc ctx x track_in_inflighq (sent d)
        unfolding sent set_tracked set_rpc
        sent-Flow alloc roomy w =
            let q : d.req_q ++ x ∷ [] ≡ ctx.req_q ++ x ∷ [] =
              ap (λ l. l ++ x ∷ []) (w.req_q ∙ ch.req_q) in
            let wq = w.waitq ∙ ch.waitq in
            let len : length (d.req_q ++ x ∷ []) ≡ length ctx.req_q + 1 =
              rw q (length-append ctx.req_q (x ∷ [])) in
            let cnt : (y : ℕ) → count y (d.req_q ++ x ∷ []) ≡ count y ctx.req_q + one_if (y == x) =
              λ y. rw q (count-put_in false x ctx.req_q y) in
            let rp : (y : ℕ)
                → (sent d).rpc y
                  ≡ (if y == x then record (d.rpc x) { ctx_tracked = true } else d.rpc y) =
              λ y. ground arith in
            (
              record {
                timed =
                    rpcs-Timed td x (record (d.rpc x) { ctx_tracked = true }) rp td.heap (λ e. refl)
                      (λ y. ground (arith, td.flags x)) (ground (arith, w.rpcs x, at_x));
                counted =
                    omega (arith, f.counted, ch.req_num, ch.reply_num, w.req_num, w.reply_num, len);
                waiting = omega (arith, ap (length {A = ℕ}) wq, f.waiting, ch.wait_num, w.wait_num);
                limited = λ p. omega (arith, room p, len);
                busy = λ p. omega (arith, f.busy, ap (length {A = ℕ}) wq, len);
                controlled = λ p. f.controlled (omega (arith, ap (length {A = ℕ}) wq));
                listed = λ y.
                    ground (arith, rp y, cnt y, f.listed y, ch.rpcs y, w.rpcs y, ap (count y) wq);
                asleep = λ y p.
                    ground
                      (arith, rp y, ap (count y) wq, f.asleep y, f.listed y, ch.rpcs y, w.rpcs y);
                no_null = ground (arith, cnt 0, f.no_null, ap (count 0) wq);
              },
              inl (roomy, refl, q, wq, ground (arith, rp x, w.rpcs x)),
            )

        dropped-Flow :
            (alloc : ℕ → Bool)
            → no_room alloc ctx.bh ≡ true
            → Changes x (c.rpc x) c d
            → Flow cfg (dropped d) × Launched alloc ctx x der_nomem (dropped d)
        unfolding dropped set_tracked set_rpc
        dropped-Flow alloc full w =
            let q = w.req_q ∙ ch.req_q in
            let wq = w.waitq ∙ ch.waitq in
            let r3 : Rpc = record (d.rpc x) {
              ctx_tracked = true;
              refcount = (d.rpc x).refcount - 1;
            } in
            let rp : (y : ℕ) → (dropped d).rpc y ≡ (if y == x then r3 else d.rpc y) =
              λ y. ground arith in
            (
              record {
                timed =
                    rpcs-Timed td x r3 rp td.heap (λ e. refl) (λ y. ground (arith, td.flags x))
                      (ground (arith, w.rpcs x, at_x));
                counted = omega (
                  arith,
                  f.counted,
                  ch.req_num,
                  ch.reply_num,
                  w.req_num,
                  w.reply_num,
                  ap (length {A = ℕ}) q,
                );
                waiting = omega (arith, ap (length {A = ℕ}) wq, f.waiting, ch.wait_num, w.wait_num);
                limited = λ p. omega (arith, room p, ap (length {A = ℕ}) q);
                busy = λ p. ground (arith, f.busy, ap (length {A = ℕ}) wq, ap (length {A = ℕ}) q);
                controlled = λ p. f.controlled (omega (arith, ap (length {A = ℕ}) wq));
                listed = λ y.
                    ground (
                      arith,
                      rp y,
                      ap (count y) q,
                      f.listed y,
                      ch.rpcs y,
                      w.rpcs y,
                      ap (count y) wq,
                    );
                asleep = λ y p.
                    ground
                      (arith, rp y, ap (count y) wq, f.asleep y, f.listed y, ch.rpcs y, w.rpcs y);
                no_null = ground (arith, ap (count 0) q, f.no_null, ap (count 0) wq);
              },
              inr (
                full,
                refl,
                q,
                wq,
                ground (arith, rp x, w.rpcs x, at_x),
                ground (arith, rp x, w.rpcs x, at_x),
              ),
            )

      launch-Flow :
          (alloc : ℕ → Bool)
          → c.bh ≡ ctx.bh
          → (rc : ℕ) × (e : Context) × (launch alloc c x ≡ some (rc, e))
            × Flow cfg e
            × Launched alloc ctx x rc e
      unfolding launch sent dropped decref
      launch-Flow alloc heap =
          let (rc, d, run, which, td, w) =
            timeout_track-Timed t x alloc nz (ground (arith, at_x)) in
          let code =
            code_of alloc (c.bh) run
              (timeout_track-rc t x alloc nz (ground (arith, at_x)) (ground (arith, at_x))) in
          elim which [
            | inl z ↦
                let same : (if not (c.rpc x).in_binheap && rc == 0
                      then entered (c.rpc x)
                      else c.rpc x)
                    ≡ entered (c.rpc x) =
                  ground (arith, at_x) in
                let (flow, out) =
                  sent-Flow td alloc (ground (arith, ap (no_room alloc) heap, code, z))
                    (rw same at w) in
                (0, sent d, rw (run, z) refl, flow, out)
            | inr m ↦
                let same : (if not (c.rpc x).in_binheap && rc == 0
                      then entered (c.rpc x)
                      else c.rpc x)
                    ≡ c.rpc x =
                  ground (arith, at_x) in
                let kept : Changes x (c.rpc x) c d = rw same at w in
                let (flow, out) =
                  dropped-Flow td alloc (ground (arith, ap (no_room alloc) heap, code, m)) kept in
                let some_ref : ((d.rpc x).refcount == 0) ≡ false =
                  ground (arith, kept.rpcs x, at_x) in
                (der_nomem, dropped d, rw (run, m, some_ref) refl, flow, out)
          ]

  -- The part of it that knows the endpoint.
  pub track_at-Flow :
      (now : ℕ) (alloc : ℕ → Bool)
      → x ≢ 0
      → 0 < r.refcount
      → (rc : ℕ) × (e : Context) × (track_at cfg now alloc ctx x ≡ some (rc, e))
        × Flow cfg e
        × Tracked cfg alloc ctx x rc e
  unfolding track_at
  track_at-Flow now alloc nz pos =
      let (c, ts, run, t, ch, heap) = started now pos in
      let fine : leb ctx.reply_num ctx.req_num ≡ true = ground (arith, f.counted) in
      let flying : inflight c ≡ length ctx.req_q =
        omega (arith, f.counted, ch.req_num, ch.reply_num) in
      elim (Bool-cases (not (cfg.credit_ep_ctx == 0) && leb cfg.credit_ep_ctx (inflight c))) [
        | inl full ↦
            let (flow, q, w, s) = enqueue-Flow t ch nz (ground arith) (ground arith) in
            (
              track_in_waitq,
              enqueue c x,
              rw (fine, run, full) refl,
              flow,
              inl (refl, ground arith, ground arith, q, w, s),
            )
        | inr free_credit ↦
            let room : 0 < cfg.credit_ep_ctx → length ctx.req_q < cfg.credit_ep_ctx =
              λ p. ground arith in
            let (rc, e, run2, flow, done) = launch-Flow t ch nz pos room alloc heap in
            (rc, e, rw (fine, run, free_credit) run2, flow, inr (room, done))
      ]
