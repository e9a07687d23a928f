-- ===== src/Requests.antt =====
-- The requests of one context: src/cart/crt_context.c, with the parts of src/cart/crt_rpc.c and
-- crt_rpc.h that it uses. A request that was sent stands in the binary heap of deadlines; the
-- requests to one endpoint (struct crt_ep_inflight) stand in a queue of those that are on their
-- way, or wait for a credit. A request is a number, the address of its node in the heap. `none` is
-- a run that ends in a failed D_ASSERT.
pub mod Timed
pub mod Expiry
pub mod Credits
pub mod Flow
pub mod Track
pub mod Refill
pub mod Untrack
pub mod Abort
pub mod Force
mod Tests
use cart.Prelude.{
  ℕ, zero, suc, ◌+◌, ◌-◌, ◌*◌, ◌%◌, ◌^◌, Bool, true, false, not, ◌&&◌, ◌||◌, Option, none, some,
  List, [], ◌∷◌, ◌++◌, length, ltb, leb, ◌==◌, if◌then◌else◌,
}
use cart.Binheap.{Binheap, assert, ◌>>=◌}
use cart.Binheap.Moves.{BinheapOps, insert, remove_locked, find_locked}

-- crt_rpc_state_t
pub data RpcState : Type 0 where
  inited queued req_sent reply_recved completed canceled : RpcState
  timed_out addr_lookup uri_lookup fwd_unreach : RpcState

-- What the context reads and writes in struct crt_rpc_priv. `queue_front` is coi_queue_front of
-- its opcode.
pub record Rpc : Type 0 where
  pub state : RpcState
  pub timeout_sec : ℕ
  pub timeout_ts : ℕ
  pub in_binheap : Bool
  pub ctx_tracked : Bool
  pub queue_front : Bool
  pub refcount : ℕ

-- cc_bh_timeout of a context, and one endpoint of it: epi_req_q, epi_req_waitq and the counters.
pub record Context : Type 0 where
  pub rpc : ℕ → Rpc
  pub bh : Binheap
  pub req_q : List ℕ
  pub req_num : ℕ
  pub reply_num : ℕ
  pub waitq : List ℕ
  pub wait_num : ℕ

abbrev pub deadline : Context → ℕ → ℕ
deadline ctx x = (ctx.rpc x).timeout_ts

pub set_rpc : Context → ℕ → Rpc → Context
set_rpc ctx x r = record ctx { rpc = λ y. if y == x then r else ctx.rpc y }

-- crt_timeout_bh_ops; the two callbacks only trace.
pub timeout_bh_ops : Context → BinheapOps
timeout_bh_ops ctx = record {
  hop_compare = λ a b. ltb (deadline ctx a) (deadline ctx b);
  hop_enter = some (λ e. 0);
}

-- RPC_ADDREF and RPC_DECREF; a request with the count 0 is destroyed.
pub addref : Context → ℕ → Option Context
addref ctx x =
    let r = ctx.rpc x in
    assert (not (r.refcount == 0)) (some (set_rpc ctx x (record r { refcount = r.refcount + 1 })))

pub decref : Context → ℕ → Option Context
decref ctx x =
    let r = ctx.rpc x in
    assert (not (r.refcount == 0)) (some (set_rpc ctx x (record r { refcount = r.refcount - 1 })))

pub set_in_binheap : Context → ℕ → Bool → Binheap → Context
set_in_binheap ctx x b bh = record (set_rpc ctx x (record (ctx.rpc x) { in_binheap = b })) {
  bh = bh;
}

-- crt_req_timeout_track, for a request that is not in the heap and then for any.
pub track_new : (ℕ → Bool) → Context → ℕ → Option (ℕ × Context)
track_new alloc ctx x = addref ctx x >>= λ c. insert (timeout_bh_ops c) alloc c.bh x >>= λ r.
    if r.0 == 0
    then some (0, set_in_binheap c x true r.1)
    else (decref (record c { bh = r.1 }) x >>= λ d. some (r.0, d))

pub timeout_track : (ℕ → Bool) → Context → ℕ → Option (ℕ × Context)
timeout_track alloc ctx x = if (ctx.rpc x).in_binheap then some (0, ctx) else track_new alloc ctx x

-- crt_req_timeout_untrack, likewise.
pub untrack_old : Context → ℕ → Option Context
untrack_old ctx x =
    let c = set_in_binheap ctx x false ctx.bh in
    remove_locked (timeout_bh_ops c) c.bh x >>= λ g. decref (record c { bh = g }) x

pub timeout_untrack : Context → ℕ → Option Context
timeout_untrack ctx x = if (ctx.rpc x).in_binheap then untrack_old ctx x else some ctx

-- The first loop of crt_context_timeout_check: the requests that it puts on timeout_list.
pub collect : ℕ → ℕ → Context → Option (List ℕ × Context)
collect zero ts_now ctx = none
collect (suc f) ts_now ctx = find_locked (timeout_bh_ops ctx) ctx.bh 0 >>= λ x.
    let take = addref ctx x >>= λ c.
    timeout_untrack c x >>= λ d. collect f ts_now d >>= λ r. some (x ∷ r.0, r.1) in
    if x == 0 || ltb ts_now (deadline ctx x) then some ([], ctx) else take

pub timeout_check : ℕ → Context → Option (List ℕ × Context)
timeout_check ts_now ctx = collect (ctx.bh.nodes_cnt + 1) ts_now ctx

-- crt_req_force_timeout of a request that is not a URI lookup; what crt_req_timeout_track returns is not read.
pub force_timeout : (ℕ → Bool) → Context → ℕ → Option Context
force_timeout alloc ctx x = timeout_untrack ctx x >>= λ c.
    timeout_track alloc (set_rpc c x (record (c.rpc x) { timeout_ts = 0 })) x >>= λ r. some r.1
