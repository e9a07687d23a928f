-- ===== src/Swim.antt =====
-- The SWIM failure detector: src/swim/swim.c, src/swim/swim_internal.h and src/include/cart/swim.h.
-- The children hold its operations, in the order of swim.c, and then what is proved of them.
pub mod Updates
pub mod Members
pub mod Suspects
pub mod Progress
pub mod Message
pub mod Items
pub mod Laws
pub mod Steps
pub mod Verdicts
pub mod Gossip
pub mod Timeouts
pub mod Rounds
pub mod Replies
pub mod Told
pub mod Sends
pub mod Frame
pub mod Ends
pub mod Detects
pub mod Answers
pub mod Refutes
use cart.Prelude.{
  ℕ, ◌+◌, ◌-◌, ◌*◌, ◌%◌, ◌^◌, Bool, true, false, Option, none, some, List, [], Result, ok, err,
}

-- The sums of uint64_t wrap.
abbrev pub u64 : ℕ → ℕ
u64 x = x % 2 ^ 64

abbrev pub swim_id_invalid : ℕ
swim_id_invalid = 2 ^ 64 - 1

abbrev pub swim_protocol_period_len : ℕ
swim_protocol_period_len = 2400

abbrev pub swim_suspect_timeout : ℕ
swim_suspect_timeout = 3 * swim_protocol_period_len

abbrev pub initial_ping_timeout : ℕ
initial_ping_timeout = 800

abbrev pub swim_subgroup_size : ℕ
swim_subgroup_size = 2

abbrev pub swim_piggyback_entries : ℕ
swim_piggyback_entries = 8

abbrev pub swim_piggyback_tx_count : ℕ
swim_piggyback_tx_count = 50

-- The numbers of errno.h that swim.c returns, without their sign
abbrev pub eintr : ℕ
eintr = 4

abbrev pub enomem : ℕ
enomem = 12

abbrev pub einval : ℕ
einval = 22

abbrev pub eshutdown : ℕ
eshutdown = 108

abbrev pub etimedout : ℕ
etimedout = 110

abbrev pub ealready : ℕ
ealready = 114

-- enum swim_member_status
pub data Status : Type 0 where
  alive : Status
  suspect : Status
  dead : Status
  inactive : Status

abbrev pub is_alive : Status → Bool
is_alive alive = true
is_alive s = false

abbrev pub is_suspect : Status → Bool
is_suspect suspect = true
is_suspect s = false

abbrev pub is_dead : Status → Bool
is_dead dead = true
is_dead s = false

abbrev pub is_inactive : Status → Bool
is_inactive inactive = true
is_inactive s = false

-- struct swim_member_state, without its padding
pub record MemberState : Type 0 where
  pub sms_incarnation : ℕ
  pub sms_status : Status

-- struct swim_member_update
pub record MemberUpdate : Type 0 where
  pub smu_id : ℕ
  pub smu_state : MemberState

-- enum swim_context_state
pub data ContextState : Type 0 where
  scs_begin : ContextState
  scs_dpinged : ContextState
  scs_ipinged : ContextState
  scs_timedout : ContextState
  scs_acked : ContextState
  scs_dead : ContextState

-- struct swim_item; `u` is the union of the deadline and of the count of transfers.
pub record Item : Type 0 where
  pub si_id : ℕ
  pub si_from : ℕ
  pub u : ℕ

-- struct swim_context, with the data behind `sc_data` and with the static variable
-- swim_ping_timeout; the mutex is left out, and the callbacks stand in `SwimOps`.
pub record SwimContext (M : Type 0) : Type 0 where
  pub sc_data : M
  pub sc_subgroup : List Item
  pub sc_suspects : List Item
  pub sc_updates : List Item
  pub sc_ipings : List Item
  pub sc_state : ContextState
  pub sc_target : ℕ
  pub sc_self : ℕ
  pub sc_expect_progress_time : ℕ
  pub sc_next_tick_time : ℕ
  pub sc_dping_deadline : ℕ
  pub sc_iping_deadline : ℕ
  pub sc_piggyback_tx_max : ℕ
  pub swim_ping_timeout : ℕ

-- struct swim_ops, with the clock behind swim_now_ms and with the allocator; each acts on the data
-- of the group layer. The context that the source passes too is only used to reach that data and
-- the own id.
pub record SwimOps (M : Type 0) : Type 0 where
  pub send_message : M → (self to : ℕ) → List MemberUpdate → M × ℕ
  pub get_dping_target : M → (self : ℕ) → M × ℕ
  pub get_iping_target : M → (self : ℕ) → M × ℕ
  pub get_member_state : M → (id : ℕ) → Result MemberState
  pub set_member_state : M → (id : ℕ) → MemberState → M × ℕ
  pub now_ms : M → M × ℕ
  pub alloc : M → M × Bool

-- swim_init, where all callbacks are given and the mutex can be made; `memory` tells whether the
-- context can be allocated.
unfoldable pub swim_init :
    {M : Type 0} → (memory : Bool) → (self_id : ℕ) → M → Option (SwimContext M)
swim_init false self_id m = none
swim_init true self_id m = some (record {
  sc_data = m;
  sc_subgroup = [];
  sc_suspects = [];
  sc_updates = [];
  sc_ipings = [];
  sc_state = scs_begin;
  sc_target = swim_id_invalid;
  sc_self = self_id;
  sc_expect_progress_time = 0;
  sc_next_tick_time = 0;
  sc_dping_deadline = 0;
  sc_iping_deadline = 0;
  sc_piggyback_tx_max = swim_piggyback_tx_count;
  swim_ping_timeout = initial_ping_timeout;
})
