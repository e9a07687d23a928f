-- ===== src/Swim/Laws.antt =====
-- What swim.c relies on in the group layer behind its callbacks (struct swim_ops of
-- src/include/cart/swim.h), and in the clock and the allocator.
use cart.Prelude.{ℕ, ◌≡◌, ◌≢◌, List, ok}
use cart.Swim.{MemberState, MemberUpdate, SwimOps}

module _ {M : Type 0} (ops : SwimOps M) where
  -- Two states of the group layer in which every member has the same state.
  abbrev pub SameStates : M → M → Type 0
  SameStates m m' = (q : ℕ) → ops.get_member_state m' q ≡ ops.get_member_state m q

  -- The state of a member that is known can be set, and no other operation changes a state, as long as
  -- no message fails while it is sent.
  pub record SwimLaws : Type 0 where
    pub set_succeeds :
        (m : M) (id : ℕ) (old st : MemberState)
        → ops.get_member_state m id ≡ ok old
        → (ops.set_member_state m id st).1 ≡ 0
    pub set_same :
        (m : M) (id : ℕ) (old st : MemberState)
        → ops.get_member_state m id ≡ ok old
        → ops.get_member_state (ops.set_member_state m id st).0 id ≡ ok st
    pub set_other :
        (m : M) (id q : ℕ) (st : MemberState)
        → q ≢ id
        → ops.get_member_state (ops.set_member_state m id st).0 q ≡ ops.get_member_state m q
    pub send_keeps :
        (m : M) (self to : ℕ) (upds : List MemberUpdate)
        → SameStates m (ops.send_message m self to upds).0
    pub dping_keeps : (m : M) (self : ℕ) → SameStates m (ops.get_dping_target m self).0
    pub iping_keeps : (m : M) (self : ℕ) → SameStates m (ops.get_iping_target m self).0
    pub now_keeps : (m : M) → SameStates m (ops.now_ms m).0
    pub alloc_keeps : (m : M) → SameStates m (ops.alloc m).0
