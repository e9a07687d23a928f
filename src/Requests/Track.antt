-- ===== src/Requests/Track.antt =====
-- crt_context_req_track of src/cart/crt_context.c on all its ways.
use cart.Prelude.{
  ℕ, ◌<◌, ◌≡◌, ◌≢◌, inl, inr, refl, Bool, true, false, some, [], arith, ◌==◌, Bool-cases, ==→eq,
  ==→ne,
}
use cart.Requests.{Context}
use cart.Requests.Credits.{Config, Lookup, lookup_rc, endpoint_of, req_track, track_in_inflighq}
use cart.Requests.Flow.{Flow, Tracked, queues-Timed, track_at-Flow}

-- A new endpoint has no requests, so it is in order where the context is.
endpoint_of-Flow :
    {cfg : Config} {ctx : Context} (l : Lookup) → Flow cfg ctx → Flow cfg (endpoint_of l ctx)
endpoint_of-Flow {cfg} {ctx} l f = elim (Bool-cases l.found) [
  | inl e ↦ rw e f
  | inr e ↦ rw e (record {
    timed = queues-Timed f.timed [] [] 0 0 0;
    counted = refl;
    waiting = refl;
    limited = λ p. omega arith;
    busy = λ p. absurd (omega arith);
    controlled = λ p. absurd (omega arith);
    listed = λ y. omega arith;
    asleep = λ y p. absurd (omega arith);
    no_null = refl;
  })
]

-- What crt_context_req_track makes of a request, on each of its ways.
pub data Tracks (cfg : Config) (l : Lookup) (alloc : ℕ → Bool) (ctx : Context) (x : ℕ)
    : Bool → ℕ → Context → Type 0 where
  bypassed : Tracks cfg l alloc ctx x true track_in_inflighq ctx
  no_endpoint : lookup_rc l ≢ 0 → Tracks cfg l alloc ctx x false (lookup_rc l) ctx
  tracked :
      {rc : ℕ} {e : Context}
      → lookup_rc l ≡ 0
      → Flow cfg e
      → Tracked cfg alloc (endpoint_of l ctx) x rc e
      → Tracks cfg l alloc ctx x false rc e

-- crt_context_req_track of a request that is not tracked, whose deadline is not watched, and to
-- which the caller has a reference, where the queues, the counters and the deadlines agree: no
-- assertion fails. A URI lookup is reported as sent, and nothing changes; where the endpoint is
-- not found and cannot be made, the error is returned, and nothing changes. Else the request
-- waits for a credit exactly if flow control is on and all credits of the endpoint are in use,
-- at the front of the queue if its opcode asks for it and at the end otherwise; else it is on
-- its way, with its deadline watched, or, exactly if the heap of deadlines is full and cannot
-- grow, -DER_NOMEM is returned and the request keeps the references that it had. They agree
-- afterwards as well, with no more requests on their way than credits, and none that waits while
-- there is a credit.
pub req_track-Tracks :
    {cfg : Config} {ctx : Context} (f : Flow cfg ctx) (x : ℕ)
    → (ctx.rpc x).in_binheap ≡ false
    → (ctx.rpc x).ctx_tracked ≡ false
    → (l : Lookup) (bypass : Bool) (now : ℕ) (alloc : ℕ → Bool) → x ≢ 0
    → 0 < (ctx.rpc x).refcount
    → (rc : ℕ) × (e : Context) × (req_track cfg l bypass now alloc ctx x ≡ some (rc, e))
      × Tracks cfg l alloc ctx x bypass rc e
unfolding req_track
req_track-Tracks f x out free l true now alloc nz pos = (_, _, refl, bypassed)
req_track-Tracks {cfg} {ctx} f x out free l false now alloc nz pos =
    elim (Bool-cases (lookup_rc l == 0)) [
      | inl ok_code ↦
          let same : (endpoint_of l ctx).rpc x ≡ ctx.rpc x = ground arith in
          let (rc, e, run, flow, done) =
            track_at-Flow (endpoint_of-Flow l f) x (rw same out) (rw same free) now alloc nz
              (rw same pos) in
          (rc, e, rw ok_code run, tracked (==→eq (lookup_rc l) 0 ok_code) flow done)
      | inr e ↦ (lookup_rc l, ctx, rw e refl, no_endpoint (==→ne (lookup_rc l) 0 e))
    ]
