-- ===== src/Requests/Refill.antt =====
-- The loop of crt_context_req_untrack that lets requests go that wait for a credit.
use cart.Prelude.{
  ℕ, zero, suc, ◌+◌, ◌-◌, ◌*◌, ◌%◌, ◌^◌, ◌≤◌, ◌<◌, ◌≡◌, ◌≢◌, refl, sym, ap, ◌∙◌, Bool, true, false,
  some, List, [], ◌∷◌, ◌++◌, append_nil, length, length-append, count, count-append, arith, ltb,
  leb, ◌==◌, if◌then◌else◌, one_if,
}
use mathlib.Core.List.{append_assoc}
use cart.Requests.{Rpc, inited, Context, set_rpc}
use cart.Requests.Timed.{Timed, Changes, rpcs-Timed, timeout_track-Timed}
use cart.Requests.Credits.{Config, set_timeout, set_state, promote, refill}
use cart.Requests.Flow.{Flow}

-- The same as Flow, but that requests may wait while there is a credit.
pub record Slack (cfg : Config) (ctx : Context) : Type 0 where
  pub timed : Timed ctx
  pub counted : ctx.req_num ≡ ctx.reply_num + length ctx.req_q
  pub waiting : ctx.wait_num ≡ length ctx.waitq
  pub limited : 0 < cfg.credit_ep_ctx → length ctx.req_q ≤ cfg.credit_ep_ctx
  pub controlled : 0 < length ctx.waitq → 0 < cfg.credit_ep_ctx
  pub listed : (x : ℕ) → count x ctx.req_q + count x ctx.waitq ≤ one_if (ctx.rpc x).ctx_tracked
  pub asleep : (x : ℕ) → 0 < count x ctx.waitq → (ctx.rpc x).in_binheap ≡ false
  pub no_null : count 0 ctx.req_q + count 0 ctx.waitq ≡ 0

pub Slack-Flow :
    {cfg : Config} {ctx : Context}
    → Slack cfg ctx
    → (0 < length ctx.waitq → cfg.credit_ep_ctx ≤ length ctx.req_q)
    → Flow cfg ctx
Slack-Flow s busy = record {
  timed = s.timed;
  counted = s.counted;
  waiting = s.waiting;
  limited = s.limited;
  busy = busy;
  controlled = s.controlled;
  listed = s.listed;
  asleep = s.asleep;
  no_null = s.no_null;
}

-- One request has left the wait queue.
record Goes (cfg : Config) (ctx : Context) (x : ℕ) (w : List ℕ) (c : Context) : Type 0 where
  slack : Slack cfg c
  req_q : c.req_q ≡ ctx.req_q ++ x ∷ []
  waitq : c.waitq ≡ w
  rest : (y : ℕ) → y ≢ x → c.rpc y ≡ ctx.rpc y
  reply_num : c.reply_num ≡ ctx.reply_num

module _ {cfg : Config} {ctx : Context} (s : Slack cfg ctx) (x : ℕ) (w : List ℕ)
    (first : ctx.waitq ≡ x ∷ w) where
  first_count : (y : ℕ) → count y ctx.waitq ≡ one_if (y == x) + count y w
  first_count y = rw first refl

  first_length : length ctx.waitq ≡ suc (length w)
  first_length = rw first refl

  abbrev moved : Context → Context
  moved d = record d {
    req_q = d.req_q ++ x ∷ [];
    waitq = w;
    wait_num = d.wait_num - 1;
    req_num = d.req_num + 1;
  }

  -- The request with the fields that the round sets before it watches the deadline.
  module _ {c0 d : Context} {r1 r2 : Rpc} (c0_is : Changes x r1 ctx c0) (ch : Changes x r2 c0 d)
      (td : Timed d) (kept : r2.ctx_tracked ≡ (ctx.rpc x).ctx_tracked)
      (room : length ctx.req_q < cfg.credit_ep_ctx) where
    moved-Goes : Goes cfg ctx x w (moved d)
    moved-Goes =
        let q : d.req_q ++ x ∷ [] ≡ ctx.req_q ++ x ∷ [] =
          ap (λ l. l ++ x ∷ []) (ch.req_q ∙ c0_is.req_q) in
        let len : length (d.req_q ++ x ∷ []) ≡ length ctx.req_q + 1 =
          rw q (length-append ctx.req_q (x ∷ [])) in
        let cnt : (y : ℕ) → count y (d.req_q ++ x ∷ []) ≡ count y ctx.req_q + one_if (y == x) =
          λ y. rw q (count-append y ctx.req_q (x ∷ []) ∙ ground arith) in
        record {
          slack = record {
            timed = record { heap = td.heap; flags = td.flags; refs = td.refs };
            counted =
                omega
                  (arith, s.counted, ch.req_num, ch.reply_num, c0_is.req_num, c0_is.reply_num, len);
            waiting = omega (arith, s.waiting, ch.wait_num, c0_is.wait_num, first_length);
            limited = λ p. omega (arith, len);
            controlled = λ p. omega arith;
            listed = λ y. ground (arith, cnt y, first_count y, s.listed y, ch.rpcs y, c0_is.rpcs y);
            asleep = λ y p.
                ground (arith, first_count y, s.asleep y, s.listed y, ch.rpcs y, c0_is.rpcs y);
            no_null = ground (arith, cnt 0, first_count 0, s.no_null);
          };
          req_q = q;
          waitq = refl;
          rest = λ y n. ground (arith, ch.rpcs y, c0_is.rpcs y);
          reply_num = ch.reply_num ∙ c0_is.reply_num;
        }

  promote-Goes :
      (now : ℕ) (alloc : ℕ → Bool)
      → length ctx.req_q < cfg.credit_ep_ctx
      → (c : Context) × (promote cfg now alloc ctx x w ≡ some c) × Goes cfg ctx x w c
  unfolding promote set_timeout set_state set_rpc
  promote-Goes now alloc room =
      let r : Rpc = ctx.rpc x in
      let sec : ℕ = (if ltb 0 r.timeout_sec then r.timeout_sec else cfg.timeout) in
      let r1 : Rpc = record r { state = inited; timeout_ts = (now + sec * 1_000_000) % 2 ^ 64 } in
      let c0 : Context = set_timeout cfg now (set_state ctx x inited) x in
      let here : 0 < count x ctx.waitq = ground (arith, first_count x) in
      let out : r.in_binheap ≡ false = s.asleep x here in
      let rp : (y : ℕ) → c0.rpc y ≡ (if y == x then r1 else ctx.rpc y) = λ y. ground arith in
      let ch0 : Changes x r1 ctx c0 = record {
        rpcs = rp;
        req_q = refl;
        req_num = refl;
        reply_num = refl;
        waitq = refl;
        wait_num = refl;
      } in
      let t0 : Timed c0 =
        rpcs-Timed s.timed x r1 rp s.timed.heap (λ e. cc) (λ y. ground (arith, s.timed.flags x))
          (s.timed.refs x) in
      let nz : x ≢ 0 = λ e. ground (arith, s.no_null, here) in
      let pos : 0 < (c0.rpc x).refcount = ground (arith, rp x, s.listed x, s.timed.refs x) in
      let (rc, d, run, which, td, ch) = timeout_track-Timed t0 x alloc nz pos in
      let full : (ctx.wait_num == 0) ≡ false = ground (arith, s.waiting, first_length) in
      let fine : leb d.reply_num (d.req_num + 1) ≡ true =
        ground (arith, s.counted, ch.req_num, ch.reply_num) in
      (moved d, rw (full, run, fine) refl, moved-Goes ch0 ch td (ground (arith, rp x)) room)

-- What the loop leaves: the requests of the list went from the front of the wait queue to the end
-- of the other, and no credit is left, or no request.
pub record Refilled (cfg : Config) (ctx : Context) (w l : List ℕ) (c : Context) : Type 0 where
  pub flow : Flow cfg c
  pub req_q : c.req_q ≡ ctx.req_q ++ l
  pub waitq : l ++ c.waitq ≡ w
  pub rest : (y : ℕ) → count y w ≡ 0 → c.rpc y ≡ ctx.rpc y
  pub reply_num : c.reply_num ≡ ctx.reply_num

pub stops :
    {cfg : Config} {ctx : Context}
    → Slack cfg ctx
    → (w : List ℕ) → ctx.waitq ≡ w
    → (0 < length w → cfg.credit_ep_ctx ≤ length ctx.req_q)
    → Refilled cfg ctx w [] ctx
stops {cfg} {ctx} s w is busy = record {
  flow = Slack-Flow s (λ p. busy (rw is at p));
  req_q = sym (append_nil ctx.req_q);
  waitq = is;
  rest = λ y z. refl;
  reply_num = refl;
}

goes_on :
    {cfg : Config} {ctx c e : Context} {x : ℕ} {w l : List ℕ}
    → Goes cfg ctx x w c
    → Refilled cfg c w l e
    → Refilled cfg ctx (x ∷ w) (x ∷ l) e
goes_on {ctx = ctx} {x = x} {w = w} {l = l} g r = record {
  flow = r.flow;
  req_q = r.req_q ∙ ap (λ q. q ++ l) g.req_q ∙ append_assoc ctx.req_q (x ∷ []) l;
  waitq = ap (◌∷◌ x) r.waitq;
  rest = λ y z. r.rest y (ground arith) ∙ g.rest y (ground arith);
  reply_num = r.reply_num ∙ g.reply_num;
}

pub refill-Refilled :
    (cfg : Config) (now : ℕ → ℕ) (alloc : ℕ → ℕ → Bool) (k : ℕ) (w : List ℕ) (ctx : Context)
    → Slack cfg ctx
    → ctx.waitq ≡ w
    → k + length ctx.req_q ≡ cfg.credit_ep_ctx
    → (l : List ℕ) × (c : Context) × (refill cfg now alloc k w ctx ≡ some (l, c))
      × Refilled cfg ctx w l c
unfolding refill
refill-Refilled cfg now alloc zero w ctx s is e = ([], ctx, refl, stops s w is (λ p. omega arith))
refill-Refilled cfg now alloc (suc k) [] ctx s is e =
    ([], ctx, refl, stops s [] is (λ p. absurd (omega arith)))
refill-Refilled cfg now alloc (suc k) (x ∷ w) ctx s is e =
    let (c, run, g) = promote-Goes s x w is (now k) (alloc k) (omega arith) in
    let len : length c.req_q ≡ length ctx.req_q + 1 =
      rw g.req_q (length-append ctx.req_q (x ∷ [])) in
    let (l, d, run2, r) = refill-Refilled cfg now alloc k w c g.slack g.waitq (omega arith) in
    (x ∷ l, d, rw (run, run2) refl, goes_on g r)
