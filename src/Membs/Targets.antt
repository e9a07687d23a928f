-- ===== src/Membs/Targets.antt =====
-- The targets that crt_swim_get_dping_target and crt_swim_get_iping_target of src/cart/crt_swim.c
-- select.
use cart.Prelude.{
  ℕ, zero, suc, ◌+◌, ◌-◌, ◌≤◌, ◌<◌, ◌≡◌, ◌≢◌, refl, Bool, true, false, ◌||◌, not, some, List, [],
  ◌∷◌, length, get_elem?, ◌==◌, ltb, if◌then◌else◌, arith, Bool-cases, Option-cases, inl, inr,
}
use native.Mathlib.Decide.{ℕ_discrete}
use cart.Swim.{is_alive, is_dead, swim_id_invalid}
use cart.Membs.{
  Target, Below, CrtSwimMembs, loop_next, select, crt_swim_get_dping_target,
  crt_swim_get_iping_target,
}

-- How many steps lead from one index to another, in a ring of `n`; a full turn leads back.
abbrev distance : (n i j : ℕ) → ℕ
distance n i j = if ltb i j then j - i else j + n - i

-- What a selection leaves: the index of a member that is not passed over, with its id.
abbrev pub IsSelected : (skip : Target → Bool) → List Target → ℕ × ℕ → Type 0
IsSelected skip ring r =
    (t : Target) × (get_elem? ring r.0 ≡ some t) × (skip t ≡ false) × (t.cst_id ≡ r.1)

get_elem?-lt : (xs : List Target) (i : ℕ) → i < length xs → (t : Target) × (get_elem? xs i ≡ some t)
get_elem?-lt [] i h = absurd (omega arith)
get_elem?-lt (x ∷ xs) zero h = (x, refl)
get_elem?-lt (x ∷ xs) (suc i) h = get_elem?-lt xs i (omega arith)

nearer :
    (n i j : ℕ)
    → i < n
    → j < n
    → loop_next n i ≢ j
    → suc (distance n (loop_next n i) j) ≡ distance n i j
nearer n i j h k ne = ground arith

last_step : (n i j : ℕ) → i < n → j < n → distance n i j ≤ 1 → loop_next n i ≡ j
last_step n i j h k d = ground arith

next_lt : (n i : ℕ) → i < n → loop_next n i < n
next_lt n i h = ground arith

module _ (skip : Target → Bool) (ring : List Target) where
  -- A selection gives a member that is not passed over, or the invalid id.
  select_sound :
      (n i : ℕ)
      → (select skip n ring i).1 ≢ swim_id_invalid
      → IsSelected skip ring (select skip n ring i)
  unfolding select
  select_sound zero i = λ h. absurd (h refl)
  select_sound (suc n) i =
      let next = loop_next (length ring) i in
      elim (Option-cases (get_elem? ring next)) [
        | inl e ↦ rw (e, select) (λ h. absurd (h refl))
        | inr (t, e) ↦
            rw (e, select)
              (elim (Bool-cases (skip t)) [
                | inl s ↦ rw s (λ h. select_sound n next h)
                | inr s ↦ rw s (λ h. (t, e, s, refl))
              ])
      ]

  -- With as many rounds as there are steps to a member that is not passed over, one is selected.
  select_complete :
      (n i j : ℕ) (t : Target)
      → i < length ring
      → j < length ring
      → get_elem? ring j ≡ some t
      → skip t ≡ false
      → distance (length ring) i j ≤ n
      → IsSelected skip ring (select skip n ring i)
  unfolding select
  select_complete zero i j t h k e s d = absurd (ground (arith, d))
  select_complete (suc n) i j t h k e s d =
      let next = loop_next (length ring) i in
      elim (ℕ_discrete next j) [
        | yes same ↦
            let here : get_elem? ring next ≡ some t = rw same e in
            rw (here, select, s) (t, here, s, refl)
        | no ne ↦
            let step = nearer (length ring) i j h k ne in
            let (t', found) = get_elem?-lt ring next (next_lt (length ring) i h) in
            rw (found, select)
              (elim (Bool-cases (skip t')) [
                | inl s' ↦ rw s' (
                    select_complete n next j t (next_lt (length ring) i h) k e s
                      (omega (arith, step, d)))
                | inr s' ↦ rw s' (t', found, s', refl)
              ])
      ]

module _ {E : Type 0} (b : Below E) where
  -- What is passed over when a target for a direct ping is selected.
  abbrev pub skips_dping : ℕ → Target → Bool
  skips_dping self_id t = t.cst_id == self_id || is_dead t.cst_state.sms_status

  -- If some other member is not dead, the current target is in the list, and the list is no longer
  -- than the size of the group and one, crt_swim_get_dping_target selects a member other than the
  -- own one that is not dead, and the list stays as it is.
  pub dping_target_found :
      (csm : CrtSwimMembs E) (self_id j : ℕ) (t : Target)
      → csm.csm_target < length csm.csm_head
      → j < length csm.csm_head
      → length csm.csm_head ≤ suc csm.gp_size
      → get_elem? csm.csm_head j ≡ some t
      → skips_dping self_id t ≡ false
      → IsSelected (skips_dping self_id) csm.csm_head (
        (crt_swim_get_dping_target b csm self_id).0.csm_target,
        (crt_swim_get_dping_target b csm self_id).1,
      )
        × ((crt_swim_get_dping_target b csm self_id).0.csm_head ≡ csm.csm_head)
  unfolding crt_swim_get_dping_target
  dping_target_found csm self_id j t h k size e s = (
    select_complete (skips_dping self_id) csm.csm_head (suc csm.gp_size) csm.csm_target j t h k e s
        (ground (arith, size)),
    refl,
  )

  -- An id that crt_swim_get_iping_target selects, unless it is invalid, is that of an alive member
  -- other than the own one.
  pub iping_target_alive :
      (csm : CrtSwimMembs E) (self_id : ℕ)
      → (crt_swim_get_iping_target b csm self_id).1 ≢ swim_id_invalid
      → (t : Target) × (get_elem? csm.csm_head
            (crt_swim_get_iping_target b csm self_id).0.csm_target
          ≡ some t)
        × (is_alive t.cst_state.sms_status ≡ true)
        × (t.cst_id ≢ self_id)
        × (t.cst_id ≡ (crt_swim_get_iping_target b csm self_id).1)
  unfolding crt_swim_get_iping_target
  iping_target_alive csm self_id h =
      let (t, at, taken, id) =
        select_sound (λ t. t.cst_id == self_id || not (is_alive t.cst_state.sms_status))
          csm.csm_head (suc csm.gp_size) csm.csm_target h in
      (t, at, ground (arith, taken), ground (arith, taken), id)
