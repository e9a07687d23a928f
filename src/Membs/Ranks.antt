-- ===== src/Membs/Ranks.antt =====
-- The ranks that join and leave: crt_swim_rank_add, crt_swim_rank_del and crt_swim_rank_del_all of
-- src/cart/crt_swim.c.
use cart.Prelude.{
  ℕ, zero, suc, ◌+◌, ◌-◌, ◌%◌, Bool, true, List, [], ◌∷◌, length, ltb, ◌==◌, if◌then◌else◌,
  der_inval, der_nonexist, der_already, der_nomem,
}
use cart.Swim.{alive, inactive, swim_id_invalid}
use cart.Membs.{Target, Below, CrtSwimMembs, is_member, loop_next}

-- CRT_NO_RANK
abbrev pub crt_no_rank : ℕ
crt_no_rank = 0xFFFFFFFF

-- The members, the own id that the SWIM context holds, and the return code. Where the list is
-- empty, `csm_target` is NULL, and its index is 0 here.
pub record Joined (E : Type 0) : Type 0 where
  pub csm : CrtSwimMembs E
  pub sc_self : ℕ
  pub rc : ℕ

-- D_CIRCLEQ_INSERT_AFTER, on indices
abbrev pub insert_after : List Target → ℕ → Target → List Target
insert_after [] i t = t ∷ []
insert_after (x ∷ xs) zero t = x ∷ t ∷ xs
insert_after (x ∷ xs) (suc i) t = x ∷ insert_after xs i t

-- D_CIRCLEQ_REMOVE of the first member with this id
abbrev pub remove : List Target → ℕ → List Target
remove [] id = []
remove (x ∷ xs) id = if x.cst_id == id then xs else x ∷ remove xs id

abbrev pub index_of : List Target → ℕ → ℕ
index_of [] id = 0
index_of (x ∷ xs) id = if x.cst_id == id then 0 else suc (index_of xs id)

-- The loop that moves the target on
abbrev pub turn : (steps n i : ℕ) → ℕ
turn zero n i = i
turn (suc steps) n i = turn steps n (loop_next n i)

abbrev pub newcomer : ℕ → Target
newcomer rank = record {
  cst_id = rank;
  cst_state = record { sms_incarnation = 0; sms_status = inactive };
}

abbrev pub self_target : ℕ → Target
self_target self = record {
  cst_id = self;
  cst_state = record { sms_incarnation = 0; sms_status = alive };
}

-- The index of an item once the one at `k` is removed.
abbrev pub shifted : (k i : ℕ) → ℕ
shifted k i = if ltb k i then i - 1 else i

module _ {E : Type 0} (b : Below E) where
  -- crt_swim_rank_del of a rank that is in the list
  unfoldable pub delete : CrtSwimMembs E → (sc_self rank : ℕ) → Joined E
  delete csm sc_self rank =
      let k = index_of csm.csm_head rank in
      let next = loop_next (length csm.csm_head) csm.csm_target in
      let ring = remove csm.csm_head rank in
      if length ring == 0
      then record {
        csm = record csm { csm_head = ring; csm_target = 0 };
        sc_self = swim_id_invalid;
        rc = 0;
      }
      else record {
        csm = record csm {
          csm_head = ring;
          csm_target = shifted k (if csm.csm_target == k then next else csm.csm_target);
        };
        sc_self = sc_self;
        rc = 0;
      }

  -- `service` tells whether the process is a service.
  unfoldable pub crt_swim_rank_del :
      (service : Bool) → CrtSwimMembs E → (sc_self rank : ℕ) → Joined E
  crt_swim_rank_del service csm sc_self rank =
      if service
      then (if is_member csm.csm_head rank
          then delete csm sc_self rank
          else record { csm = csm; sc_self = sc_self; rc = der_nonexist })
      else record { csm = csm; sc_self = sc_self; rc = 0 }

  -- The part of crt_swim_rank_add for a rank that is not our own, in a list that is not empty;
  -- `random` is what rand() gives.
  unfoldable pub join : (random : ℕ) → CrtSwimMembs E → (self rank : ℕ) → Joined E
  join random csm self rank =
      let ring = insert_after csm.csm_head csm.csm_target (newcomer rank) in
      record {
        csm = record csm {
          csm_head = ring;
          csm_target = turn (1 + random % (csm.gp_size + 1)) (length ring) csm.csm_target;
        };
        sc_self = self;
        rc = 0;
      }

  -- crt_swim_rank_add once the first item is allocated, into an empty list: our own rank comes
  -- first, and leaves again where there is no memory for the other.
  unfoldable pub found_list : (random : ℕ) → CrtSwimMembs E → (sc_self self rank : ℕ) → Joined E
  found_list random csm sc_self self rank =
      let csm' : CrtSwimMembs E = record csm { csm_head = self_target self ∷ []; csm_target = 0 } in
      if rank == self
      then record { csm = csm'; sc_self = self; rc = 0 }
      else (let r = b.alloc csm.below in
          if r.1
          then join random (record csm' { below = r.0 }) self rank
          else (let d = crt_swim_rank_del true (record csm' { below = r.0 }) sc_self self in
              record d { rc = der_nomem }))

  unfoldable pub crt_swim_rank_add :
      (service : Bool) → (random : ℕ) → CrtSwimMembs E → (sc_self self rank : ℕ) → Joined E
  crt_swim_rank_add service random csm sc_self self rank =
      let r = b.alloc csm.below in
      let csm' : CrtSwimMembs E = record csm { below = r.0 } in
      if service
      then (if self == crt_no_rank
          then record { csm = csm; sc_self = sc_self; rc = der_inval }
          else if r.1
          then (if length csm.csm_head == 0
              then found_list random csm' sc_self self rank
              else if is_member csm.csm_head rank
              then record { csm = csm'; sc_self = self; rc = der_already }
              else if rank == self
              then record { csm = csm'; sc_self = self; rc = 0 }
              else join random csm' self rank)
          else record { csm = csm'; sc_self = sc_self; rc = der_nomem })
      else record { csm = csm; sc_self = sc_self; rc = 0 }

  -- `ready` tells whether the library is initialised, in a service.
  unfoldable pub crt_swim_rank_del_all : (ready : Bool) → CrtSwimMembs E → (sc_self : ℕ) → Joined E
  crt_swim_rank_del_all ready csm sc_self =
      if ready
      then record {
        csm = record csm { csm_head = []; csm_target = 0 };
        sc_self = swim_id_invalid;
        rc = 0;
      }
      else record { csm = csm; sc_self = sc_self; rc = 0 }
