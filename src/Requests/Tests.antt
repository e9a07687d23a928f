-- ===== src/Requests/Tests.antt =====
-- The theorems on requests at a concrete endpoint, and runs of it.
use cart.Prelude.{
  ℕ, ◌≡◌, refl, true, false, ◌||◌, some, List, [], ◌∷◌, arith, ◌==◌, if◌then◌else◌, der_canceled,
}
use cart.Binheap.Tests.{two_nodes, two_nodes-at, two_nodes-IsHeap, number}
use cart.Binheap.Order.{in_heap}
use cart.Requests.{RpcState, inited, queued, completed, canceled, Rpc, Context, timeout_check}
use cart.Requests.Timed.{Timed, IsHeap-key}
use cart.Requests.Expiry.{Expires, timeout_check-Expires}
use cart.Requests.Credits.{Config, Lookup, may_untrack, req_track, req_untrack}
use cart.Requests.Flow.{Flow}
use cart.Requests.Track.{Tracks, req_track-Tracks}
use cart.Requests.Untrack.{Untracked, req_untrack-Untracked}
use cart.Requests.Abort.{req_abort, req_abort-sent}

abbrev two_credits : Config
two_credits = record { credit_ep_ctx = 2; timeout = 60 }

abbrev state_of : ℕ → RpcState
state_of x = if x == 5 then queued else if x == 3 then completed else inited

abbrev requests : ℕ → Rpc
requests x = record {
  state = state_of x;
  timeout_sec = 0;
  timeout_ts = x;
  in_binheap = x == 3 || x == 9;
  ctx_tracked = x == 3 || x == 9 || x == 5;
  queue_front = false;
  refcount = 2;
}

-- The requests 3 and 9 are on their way, with 3 and 9 as their deadlines, and 5 waits.
abbrev endpoint : Context
endpoint = record {
  rpc = requests;
  bh = two_nodes;
  req_q = 3 ∷ 9 ∷ [];
  req_num = 6;
  reply_num = 4;
  waitq = 5 ∷ [];
  wait_num = 1;
}

endpoint-Timed : Timed endpoint
unfolding in_heap
endpoint-Timed = record {
  heap = IsHeap-key {key = number} (λ x m. refl) two_nodes-IsHeap;
  flags = λ x. ground (arith, two_nodes-at (two_nodes.chn_idx x));
  refs = λ x. ground arith;
}

endpoint-Flow : Flow two_credits endpoint
endpoint-Flow = record {
  timed = endpoint-Timed;
  counted = refl;
  waiting = refl;
  limited = λ p. omega arith;
  busy = λ p. omega arith;
  controlled = λ p. omega arith;
  listed = λ x. ground arith;
  asleep = λ x p. ground arith;
  no_null = refl;
}

timeout_check-Expires_example :
    (l : List ℕ) × (c : Context) × (timeout_check 5 endpoint ≡ some (l, c)) × Expires 5 endpoint l c
timeout_check-Expires_example = timeout_check-Expires 5 endpoint endpoint-Timed

abbrev known_endpoint : Lookup
known_endpoint = record { found = true; alloc_epi = false; mutex_rc = 0; insert_rc = 0 }

req_track-Tracks_example :
    (rc : ℕ) × (e : Context) × (req_track two_credits known_endpoint false 1000
        (λ n. true)
        endpoint
        7
      ≡ some (rc, e))
    × Tracks two_credits known_endpoint (λ n. true) endpoint 7 false rc e
req_track-Tracks_example =
    req_track-Tracks endpoint-Flow 7 refl refl known_endpoint false 1000 (λ n. true) (omega arith)
      (omega arith)

req_untrack-Untracked_example :
    (l : List ℕ) × (c : Context) × (req_untrack two_credits (λ k. 1000) (λ k n. true) endpoint 3
      ≡ some (l, c))
    × Untracked two_credits endpoint 3 l c
unfolding may_untrack
req_untrack-Untracked_example =
    req_untrack-Untracked endpoint-Flow 3 (omega arith) (λ k. 1000) (λ k n. true) refl

req_abort-sent_example :
    (c d : Context) × (l : List ℕ) × (req_abort false 0 endpoint 5 ≡ (0, some der_canceled, c))
    × ((c.rpc 5).state ≡ canceled)
    × (req_untrack two_credits (λ k. 1000) (λ k n. true) c 3 ≡ some (5 ∷ l, d))
unfolding may_untrack
req_abort-sent_example =
    req_abort-sent endpoint-Flow 5 3 [] false 0 (λ k. 1000) (λ k n. true) refl refl (omega arith)
      refl
