-- ===== src/Requests/Untrack.antt =====
-- crt_context_req_untrack.
use std.Path.{subst}
use cart.Prelude.{
  ℕ, ◌+◌, ◌-◌, ◌<◌, ◌≡◌, inl, inr, refl, sym, ap, ◌∙◌, Bool, true, false, not, some, List, [], ◌∷◌,
  ◌++◌, keep_if, length, count, arith, leb, ◌==◌, if◌then◌else◌, one_if, Bool-cases, ==_refl,
}
use cart.Binheap.Order.{IsHeap}
use cart.Requests.{Rpc, Context, deadline, set_rpc, decref, timeout_untrack}
use cart.Requests.Timed.{Timed, Changes, rpcs-Timed, left, timeout_untrack-Timed}
use cart.Requests.Credits.{
  Config, set_tracked, is_completed, may_untrack, inflight, req_timedout, unlink, uncount,
  process_waitq, req_untrack,
}
use cart.Requests.Flow.{Flow}
use cart.Requests.Refill.{Slack, Refilled, stops, refill-Refilled}

-- d_list_del_init as a function on lists.
abbrev pub without : ℕ → List ℕ → List ℕ
without x l = keep_if (λ y. not (y == x)) l

count-without : (x y : ℕ) (l : List ℕ) → count y (without x l) ≡ (if y == x then 0 else count y l)
count-without x y [] = ground arith
count-without x y (z ∷ l) = ground (arith, count-without x y l)

pub length-without : (x : ℕ) (l : List ℕ) → length (without x l) + count x l ≡ length l
length-without x [] = omega arith
length-without x (z ∷ l) = ground (arith, length-without x l)

without_absent : (x : ℕ) (l : List ℕ) → count x l ≡ 0 → without x l ≡ l
without_absent x [] z = refl
without_absent x (y ∷ l) z = ground (arith, without_absent x l)

-- A request that has timed out is not in the heap of deadlines, so it need not be taken out.
untrack_anyway :
    (ctx : Context) (x : ℕ)
    → (if req_timedout (ctx.rpc x) then some ctx else timeout_untrack ctx x) ≡ timeout_untrack ctx x
unfolding req_timedout timeout_untrack
untrack_anyway ctx x = ground arith

-- What crt_context_req_untrack leaves, and the requests that it lets go.
pub record Untracked (cfg : Config) (ctx : Context) (x : ℕ) (l : List ℕ) (c : Context)
    : Type 0 where
  pub flow : Flow cfg c
  pub req_q : c.req_q ≡ without x ctx.req_q ++ l
  pub waitq : l ++ c.waitq ≡ ctx.waitq
  pub reply_num : c.reply_num ≡ ctx.reply_num + one_if (is_completed (ctx.rpc x).state)
  pub free : (c.rpc x).ctx_tracked ≡ false
  pub out : (c.rpc x).in_binheap ≡ false
  pub refcount : (c.rpc x).refcount + 1 + one_if (ctx.rpc x).in_binheap ≡ (ctx.rpc x).refcount

module _ {cfg : Config} {ctx : Context} (f : Flow cfg ctx) (x : ℕ)
    (here : 0 < count x ctx.req_q) where
  abbrev r : Rpc
  r = ctx.rpc x

  tracked : r.ctx_tracked ≡ true
  tracked = ground (arith, f.listed x)

  once : (count x ctx.req_q ≡ 1) × (count x ctx.waitq ≡ 0)
  once = ground (arith, f.listed x)

  -- The queues without the request, and the counters after it.
  abbrev counted_off : Context
  counted_off =
      if is_completed r.state
      then record (unlink ctx x) { reply_num = ctx.reply_num + 1 }
      else record (unlink ctx x) { req_num = ctx.req_num - 1 }

  uncount_run : uncount (unlink ctx x) x ≡ some counted_off
  unfolding uncount unlink
  uncount_run =
      let fine : leb (ctx.reply_num + 1) ctx.req_num ≡ true =
        ground (arith, f.counted, length-without x ctx.req_q) in
      rw fine (ground arith)

  record IsOff (c : Context) : Type 0 where
    rpcs : (y : ℕ) → c.rpc y ≡ ctx.rpc y
    bh : c.bh ≡ ctx.bh
    req_q : c.req_q ≡ without x ctx.req_q
    waitq : c.waitq ≡ ctx.waitq
    wait_num : c.wait_num ≡ ctx.wait_num
    counted : c.req_num ≡ c.reply_num + length (without x ctx.req_q)
    reply_num : c.reply_num ≡ ctx.reply_num + one_if (is_completed r.state)

  counted_off-IsOff : IsOff counted_off
  unfolding unlink
  counted_off-IsOff =
      let len = length-without x ctx.req_q in
      let same = without_absent x ctx.waitq once.1 in
      elim (Bool-cases (is_completed r.state)) [
        | inl e ↦ rw e (record {
          rpcs = λ y. refl;
          bh = refl;
          req_q = refl;
          waitq = same;
          wait_num = refl;
          counted = omega (arith, f.counted, once);
          reply_num = ground arith;
        })
        | inr e ↦ rw e (record {
          rpcs = λ y. refl;
          bh = refl;
          req_q = refl;
          waitq = same;
          wait_num = refl;
          counted = omega (arith, f.counted, once);
          reply_num = ground arith;
        })
      ]

  -- The request is out of the queue and of the heap, not tracked, and has a reference less.
  module _ {a b : Context} (off : IsOff a) (t : Timed b)
      (ch : Changes x (if (a.rpc x).in_binheap then left (a.rpc x) else a.rpc x) a b) where
    off_rpc : b.rpc x ≡ (if r.in_binheap then left r else r)
    off_rpc = ground (arith, ch.rpcs x, off.rpcs x)

    abbrev released : Context
    released =
        set_rpc (set_tracked b x false) x
          (record (b.rpc x) { ctx_tracked = false; refcount = (b.rpc x).refcount - 1 })

    released_run : decref (set_tracked b x false) x ≡ some released
    unfolding decref set_tracked set_rpc
    released_run = let le = f.timed.refs x in rw (==_refl x) (ground (arith, off_rpc, tracked))

    released-Slack : Slack cfg released
    unfolding set_tracked set_rpc
    released-Slack =
        let r2 : Rpc = record (b.rpc x) {
          ctx_tracked = false;
          refcount = (b.rpc x).refcount - 1;
        } in
        let rp : (y : ℕ) → released.rpc y ≡ (if y == x then r2 else b.rpc y) = λ y. ground arith in
        let q : b.req_q ≡ without x ctx.req_q = ch.req_q ∙ off.req_q in
        let w : b.waitq ≡ ctx.waitq = ch.waitq ∙ off.waitq in
        let len = length-without x ctx.req_q in
        let cnt : (y : ℕ) → count y b.req_q ≡ (if y == x then 0 else count y ctx.req_q) =
          λ y. rw q (count-without x y ctx.req_q) in
        record {
          timed =
              rpcs-Timed t x r2 rp t.heap (λ e. refl) (λ y. ground (arith, t.flags x))
                (ground (arith, t.refs x, off_rpc, tracked, f.timed.refs x));
          counted = omega (arith, ch.req_num, ch.reply_num, off.counted, ap (length {A = ℕ}) q);
          waiting = omega (arith, f.waiting, ch.wait_num, off.wait_num, ap (length {A = ℕ}) w);
          limited = λ p. omega (arith, f.limited p, len, ap (length {A = ℕ}) q);
          controlled = λ p. f.controlled (omega (arith, ap (length {A = ℕ}) w));
          listed = λ y.
              ground (arith, rp y, cnt y, ap (count y) w, f.listed y, once, ch.rpcs y, off.rpcs y);
          asleep =
              λ y p. ground (arith, rp y, ap (count y) w, f.asleep y, once, ch.rpcs y, off.rpcs y);
          no_null = ground (arith, cnt 0, ap (count 0) w, f.no_null);
        }

    released-Untracked :
        {l : List ℕ} {e : Context}
        → Refilled cfg released released.waitq l e
        → Untracked cfg ctx x l e
    unfolding set_tracked set_rpc
    released-Untracked {l} ref =
        let w : b.waitq ≡ ctx.waitq = ch.waitq ∙ off.waitq in
        let le = f.timed.refs x in
        let self = ref.rest x (rw w once.1) in
        record {
          flow = ref.flow;
          req_q = ref.req_q ∙ ap (λ q. q ++ l) (ch.req_q ∙ off.req_q);
          waitq = ref.waitq ∙ w;
          reply_num = ref.reply_num ∙ ch.reply_num ∙ off.reply_num;
          free = ground (arith, self);
          out = ground (arith, self, off_rpc);
          refcount = ground (arith, self, off_rpc, tracked);
        }

module _ {cfg : Config} {ctx : Context} (f : Flow cfg ctx) (x : ℕ)
    (here : 0 < count x ctx.req_q) where
  off_Timed : {a : Context} → IsOff f x here a → Timed a
  off_Timed {a} off =
      rpcs-Timed f.timed x (ctx.rpc x) (λ y. off.rpcs y ∙ ground arith)
        (subst (λ b. IsHeap (deadline ctx) b) (sym off.bh) f.timed.heap) (λ e. refl)
        (λ y. rw off.bh (ground (arith, f.timed.flags x))) (f.timed.refs x)

  process_waitq-Refilled :
      (now : ℕ → ℕ) (alloc : ℕ → ℕ → Bool) {c : Context}
      → Slack cfg c
      → (l : List ℕ) × (e : Context) × (process_waitq cfg now alloc c ≡ some (l, e))
        × Refilled cfg c c.waitq l e
  unfolding process_waitq
  process_waitq-Refilled now alloc {c} s = elim (Bool-cases (cfg.credit_ep_ctx == 0)) [
    | inl z ↦ ([], c, rw z refl, stops s c.waitq refl (λ p. ground (arith, s.controlled p)))
    | inr nz ↦
        let flying : inflight c ≡ length c.req_q = omega (arith, s.counted) in
        let fine : leb (inflight c) cfg.credit_ep_ctx ≡ true =
          ground (arith, s.limited (ground arith)) in
        let (l, e, run, ref) =
          refill-Refilled cfg now alloc (cfg.credit_ep_ctx - inflight c) c.waitq c s refl
            (ground (arith, s.limited (ground arith))) in
        (l, e, rw (nz, fine) run, ref)
  ]

  -- crt_context_req_untrack of a request that is on its way and is not a URI lookup: it comes to an
  -- end, with no assertion failed; the request leaves its queue and the heap of deadlines, and is no longer tracked; it
  -- counts as replied exactly if it was completed; the references for the queue and, if its deadline
  -- was watched, for the heap are gone. The first requests that wait, in their order, take the credits
  -- that are free, until no credit is left or none waits. The queues, the counters and the deadlines
  -- agree afterwards.
  pub req_untrack-Untracked :
      (now : ℕ → ℕ) (alloc : ℕ → ℕ → Bool)
      → may_untrack (ctx.rpc x).state ≡ true
      → (l : List ℕ) × (c : Context) × (req_untrack cfg now alloc ctx x ≡ some (l, c))
        × Untracked cfg ctx x l c
  unfolding req_untrack
  req_untrack-Untracked now alloc may =
      let a : Context = counted_off f x here in
      let off = counted_off-IsOff f x here in
      let (b, run, tb, ch, cnt) = timeout_untrack-Timed (off_Timed off) x in
      let s = released-Slack f x here off tb ch in
      let c : Context = released f x here off tb ch in
      let (l, e, run2, ref) = process_waitq-Refilled now alloc s in
      let run1 = untrack_anyway a x ∙ run in
      (
        l,
        e,
        rw (may, tracked f x here, uncount_run f x here, run1, released_run f x here off tb ch)
            run2,
        released-Untracked f x here off tb ch ref,
      )
