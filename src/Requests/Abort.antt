-- ===== src/Requests/Abort.antt =====
-- crt_req_abort of src/cart/crt_rpc.c and crt_rpc_complete of src/cart/crt_context.c, on requests
-- that wait for a credit.
use cart.Prelude.{
  ℕ, suc, ◌<◌, ◌≡◌, ◌≢◌, refl, ap, ◌∙◌, Bool, true, false, not, ◌||◌, Option, some, none, List, [],
  ◌∷◌, ◌++◌, length, length-append, count, arith, ◌==◌, if◌then◌else◌, ==_refl, der_already,
  der_timedout, der_unreach, der_canceled,
}
use cart.Requests.{
  RpcState, queued, req_sent, completed, canceled, timed_out, fwd_unreach, Context, set_rpc,
}
use cart.Requests.Timed.{rpcs-Timed}
use cart.Requests.Credits.{Config, set_state, may_untrack, req_untrack}
use cart.Requests.Flow.{Flow}
use cart.Requests.Untrack.{without, length-without, Untracked, req_untrack-Untracked}

-- The state that crt_rpc_complete sets; it then calls crp_complete_cb with the return code.
complete_state : ℕ → RpcState
complete_state rc =
    if rc == der_canceled
    then canceled
    else if rc == der_timedout
    then timed_out
    else if rc == der_unreach
    then fwd_unreach
    else completed

rpc_complete : Context → ℕ → ℕ → Context
rpc_complete ctx x rc = set_state ctx x (complete_state rc)

-- The states in which crt_req_abort has nothing to do.
is_over : RpcState → Bool
is_over canceled = true
is_over completed = true
is_over s = false

is_sent : RpcState → Bool
is_sent req_sent = true
is_sent s = false

-- crt_req_abort: the return code, and the code that the completion callback is called with, if it
-- is. `on_wire` is crp_on_wire, and `cancel` what crt_hg_req_cancel returns.
pub req_abort : Bool → ℕ → Context → ℕ → ℕ × Option ℕ × Context
unfolding is_over is_sent rpc_complete complete_state
req_abort on_wire cancel ctx x =
    let s = (ctx.rpc x).state in
    if is_over s
    then (der_already, none, ctx)
    else if not (is_sent s) || not on_wire
    then (0, some der_canceled, rpc_complete ctx x der_canceled)
    else if cancel == 0
    then (0, none, ctx)
    else (cancel, some cancel, rpc_complete ctx x cancel)

-- The state of a request is not read by the queues.
state-Flow :
    {cfg : Config} {ctx : Context}
    → Flow cfg ctx
    → (x : ℕ) (s : RpcState) → Flow cfg (set_state ctx x s)
unfolding set_state set_rpc
state-Flow {ctx = ctx} f x s = record {
  timed =
      rpcs-Timed f.timed x (record (ctx.rpc x) { state = s }) (λ y. refl) f.timed.heap (λ e. refl)
        (λ y. ground (arith, f.timed.flags x)) (f.timed.refs x);
  counted = f.counted;
  waiting = f.waiting;
  limited = f.limited;
  busy = f.busy;
  controlled = f.controlled;
  listed = λ y. ground (arith, f.listed y);
  asleep = λ y p. ground (arith, f.asleep y);
  no_null = f.no_null;
}

-- A list that is not empty, put before the wait queue, begins with the first request of it.
first_of :
    {x : ℕ} {w : List ℕ} (l v : List ℕ) → l ++ v ≡ x ∷ w → l ≢ [] → (l' : List ℕ) × (l ≡ x ∷ l')
first_of [] v e n = absurd (n refl)
first_of (z ∷ l) v e n = (l, cc)

module _ {cfg : Config} {ctx : Context} (f : Flow cfg ctx) (x y : ℕ) (w : List ℕ)
    (first : ctx.waitq ≡ x ∷ w) (going : 0 < count y ctx.req_q) where
  lets_go : {l : List ℕ} {d : Context} → Untracked cfg ctx y l d → l ≢ []
  lets_go {l} {d} u empty =
      let q : length d.req_q ≡ length (without y ctx.req_q) = omega (
        arith,
        ap (length {A = ℕ}) u.req_q,
        length-append (without y ctx.req_q) l,
        ap (length {A = ℕ}) empty,
      ) in
      let v : length d.waitq ≡ suc (length w) = omega (
        arith,
        ap (length {A = ℕ}) u.waitq,
        length-append l d.waitq,
        ap (length {A = ℕ}) empty,
        ap (length {A = ℕ}) first,
      ) in
      omega (
        arith,
        u.flow.busy,
        f.limited,
        f.controlled,
        length-without y ctx.req_q,
        q,
        v,
        ap (length {A = ℕ}) first,
      )

  leads : {l : List ℕ} {d : Context} → Untracked cfg ctx y l d → (l' : List ℕ) × (l ≡ x ∷ l')
  leads {l} {d} u = first_of l d.waitq (u.waitq ∙ first) (lets_go u)

-- crt_req_abort of the request that is the next to get a credit: it returns 0, the completion
-- callback is called with -DER_CANCELED, and the state says that the request is canceled. It stays
-- at the front of the wait queue all the same, and the first crt_context_req_untrack of a request to
-- the endpoint that is on its way puts it on the list of the requests that are sent.
pub req_abort-sent :
    {cfg : Config} {ctx : Context}
    → Flow cfg ctx
    → (x y : ℕ) (w : List ℕ) (on_wire : Bool) (cancel : ℕ) (now : ℕ → ℕ) (alloc : ℕ → ℕ → Bool)
    → ctx.waitq ≡ x ∷ w
    → (ctx.rpc x).state ≡ queued
    → 0 < count y ctx.req_q
    → may_untrack (ctx.rpc y).state ≡ true
    → (c d : Context) × (l : List ℕ) × (req_abort on_wire cancel ctx x ≡ (0, some der_canceled, c))
      × ((c.rpc x).state ≡ canceled)
      × (req_untrack cfg now alloc c y ≡ some (x ∷ l, d))
unfolding set_state set_rpc req_abort may_untrack
req_abort-sent {cfg} {ctx} f x y w on_wire cancel now alloc first waits going may =
    let c : Context = set_state ctx x canceled in
    let state : may_untrack (c.rpc y).state ≡ true = ground arith in
    let (l, d, run, u) = req_untrack-Untracked (state-Flow f x canceled) y going now alloc state in
    let (l', is) = leads (state-Flow f x canceled) x y w first going u in
    (c, d, l', ground arith, rw (==_refl x) refl, run ∙ ap (λ (q : List ℕ). some (q, d)) is)
