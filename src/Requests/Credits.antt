-- ===== src/Requests/Credits.antt =====
-- Flow control of src/cart/crt_context.c: crt_context_req_track and crt_context_req_untrack on the
-- queues of one endpoint, and crt_req_abort of src/cart/crt_rpc.c.
use cart.Prelude.{
  ℕ, zero, suc, ◌+◌, ◌-◌, ◌*◌, ◌%◌, ◌^◌, Bool, true, false, not, ◌&&◌, Option, some, List, [], ◌∷◌,
  ◌++◌, keep_if, ltb, leb, ◌==◌, if◌then◌else◌, der_nomem,
}
use cart.Binheap.{assert, ◌>>=◌}
use cart.Requests.{
  RpcState, inited, queued, req_sent, completed, canceled, timed_out, addr_lookup, uri_lookup,
  fwd_unreach, Rpc, Context, set_rpc, addref, decref, timeout_track, timeout_untrack,
}

-- cg_credit_ep_ctx, where 0 turns flow control off, and cg_timeout.
pub record Config : Type 0 where
  pub credit_ep_ctx : ℕ
  pub timeout : ℕ

-- What crt_context_req_track returns, beside error numbers.
abbrev pub track_in_inflighq : ℕ
track_in_inflighq = 0

abbrev pub track_in_waitq : ℕ
track_in_waitq = 1

-- crt_set_timeout, at the time `now` in microseconds.
unfoldable pub set_timeout : Config → ℕ → Context → ℕ → Context
set_timeout cfg now ctx x =
    let r = ctx.rpc x in
    let sec = (if ltb 0 r.timeout_sec then r.timeout_sec else cfg.timeout) in
    set_rpc ctx x (record r { timeout_ts = (now + sec * 1_000_000) % 2 ^ 64 })

unfoldable pub set_state : Context → ℕ → RpcState → Context
set_state ctx x s = set_rpc ctx x (record (ctx.rpc x) { state = s })

unfoldable pub set_tracked : Context → ℕ → Bool → Context
set_tracked ctx x b = set_rpc ctx x (record (ctx.rpc x) { ctx_tracked = b })

abbrev pub inflight : Context → ℕ
inflight ctx = ctx.req_num - ctx.reply_num

-- The two ways of crt_context_req_track: the request waits for a credit, or it may be sent.
unfoldable pub enqueue : Context → ℕ → Context
enqueue ctx x =
    let c = set_tracked (set_state ctx x queued) x true in
    record c {
      waitq = if (ctx.rpc x).queue_front then x ∷ ctx.waitq else ctx.waitq ++ x ∷ [];
      wait_num = ctx.wait_num + 1;
    }

unfoldable pub launch : (ℕ → Bool) → Context → ℕ → Option (ℕ × Context)
launch alloc ctx x = timeout_track alloc ctx x >>= λ r.
    if r.0 == 0
    then some (
      track_in_inflighq,
      set_tracked (record r.1 { req_q = r.1.req_q ++ x ∷ []; req_num = r.1.req_num + 1 }) x true,
    )
    else (decref r.1 x >>= λ d. some (r.0, set_tracked d x true))

-- The search for the crt_ep_inflight of the endpoint: whether the hash table has it, and if not,
-- whether it can be allocated, and what the initialisation of its mutex and its insertion into the
-- table return.
pub record Lookup : Type 0 where
  pub found : Bool
  pub alloc_epi : Bool
  pub mutex_rc : ℕ
  pub insert_rc : ℕ

abbrev pub lookup_rc : Lookup → ℕ
lookup_rc l =
    if l.found
    then 0
    else if not l.alloc_epi
    then der_nomem
    else if l.mutex_rc == 0
    then l.insert_rc
    else l.mutex_rc

-- The endpoint that was found, or a new one, whose queues are empty. The queues of the context
-- before are those of no endpoint then.
abbrev pub endpoint_of : Lookup → Context → Context
endpoint_of l ctx =
    if l.found
    then ctx
    else record ctx { req_q = []; req_num = 0; reply_num = 0; waitq = []; wait_num = 0 }

-- crt_context_req_track, once the endpoint is found.
unfoldable pub track_at : Config → ℕ → (ℕ → Bool) → Context → ℕ → Option (ℕ × Context)
track_at cfg now alloc ctx x = assert (leb ctx.reply_num ctx.req_num) (
    addref (set_timeout cfg now ctx x) x >>= λ c.
    if not (cfg.credit_ep_ctx == 0) && leb cfg.credit_ep_ctx (inflight c)
    then some (track_in_waitq, enqueue c x)
    else launch alloc c x)

-- crt_context_req_track; `bypass` tells that the opcode is CRT_OPC_URI_LOOKUP, which is not
-- tracked. The reference to the endpoint that it holds for its own time is left out.
unfoldable pub req_track :
    Config → Lookup → (bypass : Bool) → ℕ → (ℕ → Bool) → Context → ℕ → Option (ℕ × Context)
req_track cfg l bypass now alloc ctx x =
    if bypass
    then some (track_in_inflighq, ctx)
    else if lookup_rc l == 0
    then track_at cfg now alloc (endpoint_of l ctx) x
    else some (lookup_rc l, ctx)

-- The states that crt_context_req_untrack allows.
unfoldable pub may_untrack : RpcState → Bool
may_untrack inited = true
may_untrack completed = true
may_untrack timed_out = true
may_untrack addr_lookup = true
may_untrack uri_lookup = true
may_untrack canceled = true
may_untrack fwd_unreach = true
may_untrack s = false

abbrev pub is_completed : RpcState → Bool
is_completed completed = true
is_completed s = false

-- crt_req_timedout
unfoldable pub timedout_state : RpcState → Bool
timedout_state req_sent = true
timedout_state uri_lookup = true
timedout_state addr_lookup = true
timedout_state timed_out = true
timedout_state fwd_unreach = true
timedout_state s = false

unfoldable pub req_timedout : Rpc → Bool
req_timedout r = timedout_state r.state && not r.in_binheap

-- d_list_del_init of crp_epi_link, which is in one of the two queues at most.
unfoldable pub unlink : Context → ℕ → Context
unlink ctx x = record ctx {
  req_q = keep_if (λ y. not (y == x)) ctx.req_q;
  waitq = keep_if (λ y. not (y == x)) ctx.waitq;
}

-- A round of the loop that takes the first request `x` of the wait queue, where `w` come after it.
unfoldable pub promote : Config → ℕ → (ℕ → Bool) → Context → ℕ → List ℕ → Option Context
promote cfg now alloc ctx x w = assert (not (ctx.wait_num == 0)) (
    timeout_track alloc (set_timeout cfg now (set_state ctx x inited) x) x >>= λ r.
    let c = r.1 in
    assert (leb c.reply_num (c.req_num + 1)) (
      some (record c {
        req_q = c.req_q ++ x ∷ [];
        waitq = w;
        wait_num = c.wait_num - 1;
        req_num = c.req_num + 1;
      })))

-- The loop, with the credits left and the wait queue; the list is submit_list. `now` and `alloc`
-- are the clock and the allocations of the round that leaves so many credits.
unfoldable pub refill :
    Config → (ℕ → ℕ) → (ℕ → ℕ → Bool) → ℕ → List ℕ → Context → Option (List ℕ × Context)
refill cfg now alloc zero w ctx = some ([], ctx)
refill cfg now alloc (suc k) [] ctx = some ([], ctx)
refill cfg now alloc (suc k) (x ∷ w) ctx = promote cfg (now k) (alloc k) ctx x w >>= λ c.
    refill cfg now alloc k w c >>= λ r. some (x ∷ r.0, r.1)

-- The counters: a reply more, or a request less, and the assertion that follows.
unfoldable pub uncount : Context → ℕ → Option Context
uncount ctx x = assert (leb (ctx.reply_num + 1) ctx.req_num) (
    some (
      if is_completed (ctx.rpc x).state
      then record ctx { reply_num = ctx.reply_num + 1 }
      else record ctx { req_num = ctx.req_num - 1 }))

unfoldable pub process_waitq :
    Config → (ℕ → ℕ) → (ℕ → ℕ → Bool) → Context → Option (List ℕ × Context)
process_waitq cfg now alloc ctx =
    if cfg.credit_ep_ctx == 0
    then some ([], ctx)
    else assert (leb (inflight ctx) cfg.credit_ep_ctx)
        (refill cfg now alloc (cfg.credit_ep_ctx - inflight ctx) ctx.waitq ctx)

-- crt_context_req_untrack of a request that is not a URI lookup, up to the point where the requests
-- of submit_list are sent.
unfoldable pub req_untrack :
    Config → (ℕ → ℕ) → (ℕ → ℕ → Bool) → Context → ℕ → Option (List ℕ × Context)
req_untrack cfg now alloc ctx x = assert (may_untrack (ctx.rpc x).state) (
    if not (ctx.rpc x).ctx_tracked
    then some ([], ctx)
    else (uncount (unlink ctx x) x >>= λ a.
        (if req_timedout (a.rpc x) then some a else timeout_untrack a x) >>= λ b.
        decref (set_tracked b x false) x >>= λ c. process_waitq cfg now alloc c))
