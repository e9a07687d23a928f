-- ===== src/Requests/Force.antt =====
-- crt_req_force_timeout.
use cart.Prelude.{ℕ, ◌+◌, ◌<◌, ◌≡◌, ◌≢◌, refl, Bool, false, some, arith, one_if}
use cart.Requests.{Rpc, Context, deadline, set_rpc, force_timeout}
use cart.Requests.Timed.{Timed, timeout_untrack-Timed, timeout_track-Timed}
use cart.Requests.Flow.{set_rpc-Timed}

-- A request to which the caller has a reference of its own has a deadline in the past afterwards, and
-- the heap of deadlines, the flags and the references agree.
pub force_timeout-Timed :
    (alloc : ℕ → Bool) {ctx : Context} (t : Timed ctx) (x : ℕ)
    → x ≢ 0
    → one_if (ctx.rpc x).in_binheap + one_if (ctx.rpc x).ctx_tracked < (ctx.rpc x).refcount
    → (c : Context) × (force_timeout alloc ctx x ≡ some c) × Timed c × (deadline c x ≡ 0)
unfolding force_timeout set_rpc
force_timeout-Timed alloc {ctx} t x nz more =
    let (a, run, ta, ch, cnt) = timeout_untrack-Timed t x in
    let out : (a.rpc x).in_binheap ≡ false = ground (arith, ch.rpcs x) in
    let r : Rpc = record (a.rpc x) { timeout_ts = 0 } in
    let tb = set_rpc-Timed ta x r refl (λ e. absurd (cc)) (ta.refs x) in
    let (rc, c, run2, which, tc, ch2) =
      timeout_track-Timed tb x alloc nz (ground (arith, ch.rpcs x, t.refs x)) in
    (c, rw (run, run2) refl, tc, ground (arith, ch2.rpcs x))
