-- ===== src/Swim/Steps.antt =====
-- What every operation of src/swim/swim.c does to what a member believes of the others: the order
-- of the states of one member, the consistency of the context, and the steps that respect both.
use cart.Prelude.{
  ℕ, some, [], ◌≤◌, ◌≡◌, ◌≢◌, refl, ap, sym, ◌∙◌, Bool, true, false, not, ◌&&◌, ◌||◌, count, ◌==◌,
  ltb, Result, ok, err, arith,
}
use cart.Swim.{is_dead, is_suspect, MemberState, SwimContext, SwimOps, swim_init}
use cart.Swim.Updates.{has_item}
use cart.Swim.Items.{ids, has_item-count}
use cart.Swim.Laws.{SameStates}

-- A state that may follow another one of the same member: in a later incarnation, or in the same
-- one, in which a dead member stays dead.
abbrev pub precedes : MemberState → MemberState → Bool
precedes old new =
    ltb old.sms_incarnation new.sms_incarnation
    || old.sms_incarnation == new.sms_incarnation
      && (not (is_dead old.sms_status) || is_dead new.sms_status)

-- The same of what is known of a member; a member that is unknown stays unknown.
abbrev pub follows : Result MemberState → Result MemberState → Bool
follows (ok old) (ok new) = precedes old new
follows (err e) (err e') = true
follows old new = false

pub precedes_trans :
    (a b c : MemberState) → precedes a b ≡ true → precedes b c ≡ true → precedes a c ≡ true
precedes_trans a b c h k = ground arith

pub follows_refl : (a : Result MemberState) → follows a a ≡ true
follows_refl (ok a) = ground arith
follows_refl (err e) = refl

pub follows_trans :
    (a b c : Result MemberState) → follows a b ≡ true → follows b c ≡ true → follows a c ≡ true
follows_trans (ok a) (ok b) (ok c) h k = precedes_trans a b c h k
follows_trans (ok a) (ok b) (err e) h k = k
follows_trans (ok a) (err e) c h k = absurd (cc h)
follows_trans (err e) (ok b) c h k = absurd (cc h)
follows_trans (err e) (err e') (ok c) h k = k
follows_trans (err e) (err e') (err e'') h k = refl

module _ {M : Type 0} (ops : SwimOps M) where
  -- A context is consistent: no id is twice among the suspects or among the updates, and of the
  -- members that are known exactly those are among the suspects whose state is SUSPECT.
  pub record IsConsistent (ctx : SwimContext M) : Type 0 where
    pub suspects_once : (q : ℕ) → count q (ids ctx.sc_suspects) ≤ 1
    pub updates_once : (q : ℕ) → count q (ids ctx.sc_updates) ≤ 1
    pub suspected :
        (q : ℕ) (st : MemberState)
        → ops.get_member_state ctx.sc_data q ≡ ok st
        → has_item q ctx.sc_suspects ≡ is_suspect st.sms_status

  -- From one context to a later one: what is known of the other members only moves on, and a
  -- consistent context stays consistent.
  pub record Step (ctx ctx' : SwimContext M) : Type 0 where
    pub self : ctx'.sc_self ≡ ctx.sc_self
    pub moves_on :
        (q : ℕ)
        → q ≢ ctx.sc_self
        → follows (ops.get_member_state ctx.sc_data q) (ops.get_member_state ctx'.sc_data q) ≡ true
    pub keeps : IsConsistent ctx → IsConsistent ctx'

  pub step_refl : (ctx : SwimContext M) → Step ctx ctx
  step_refl ctx = record {
    self = refl;
    moves_on = λ q h. follows_refl (ops.get_member_state ctx.sc_data q);
    keeps = λ c. c;
  }

  pub step_trans : {a b c : SwimContext M} → Step a b → Step b c → Step a c
  step_trans {a = a} {b = b} {c = c} s t = record {
    self = t.self ∙ s.self;
    moves_on = λ q h.
        follows_trans (ops.get_member_state a.sc_data q) (ops.get_member_state b.sc_data q)
          (ops.get_member_state c.sc_data q) (s.moves_on q h) (t.moves_on q (λ e. h (e ∙ s.self)));
    keeps = λ k. t.keeps (s.keeps k);
  }

  -- A change that touches neither the states nor the ids among the suspects.
  pub quiet :
      (ctx ctx' : SwimContext M)
      → ctx'.sc_self ≡ ctx.sc_self
      → SameStates ops ctx.sc_data ctx'.sc_data
      → ids ctx'.sc_suspects ≡ ids ctx.sc_suspects
      → ((q : ℕ) → count q (ids ctx'.sc_updates) ≤ count q (ids ctx.sc_updates))
      → Step ctx ctx'
  quiet ctx ctx' self same suspects updates = record {
    self = self;
    moves_on = λ q h. rw (same q) (follows_refl (ops.get_member_state ctx.sc_data q));
    keeps = λ c. record {
      suspects_once = λ q. rw suspects (c.suspects_once q);
      updates_once = λ q. omega (arith, updates q, c.updates_once q);
      suspected = λ q st e.
          has_item-count q ctx'.sc_suspects
          ∙ ap (λ xs. ltb 0 (count q xs)) suspects
          ∙ sym (has_item-count q ctx.sc_suspects)
          ∙ c.suspected q st (sym (same q) ∙ e);
    };
  }

  -- Where there is memory, and no member is known as SUSPECT, swim_init gives a context that is
  -- consistent, and in which no one is in the subgroup.
  pub swim_init-IsConsistent :
      (self_id : ℕ) (m : M)
      → ((q : ℕ) (st : MemberState)
          → ops.get_member_state m q ≡ ok st
          → is_suspect st.sms_status ≡ false)
      → (ctx : SwimContext M) × (swim_init true self_id m ≡ some ctx)
        × IsConsistent ctx
        × (ctx.sc_subgroup ≡ [])
  unfolding swim_init
  swim_init-IsConsistent self_id m calm = (
    _,
    refl,
    record {
      suspects_once = λ q. omega arith;
      updates_once = λ q. omega arith;
      suspected = λ q st known. sym (calm q st known);
    },
    refl,
  )
