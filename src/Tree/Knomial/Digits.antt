-- ===== src/Tree/Knomial/Digits.antt =====
-- The numbers in base `ratio` of src/cart/crt_tree_knomial.c.
use cart.Prelude.{
  ℕ, zero, suc, ◌+◌, ◌*◌, ◌/◌, ◌%◌, ◌^◌, ◌≤◌, ◌<◌, ◌≡◌, ◌≢◌, refl, [], ◌==◌, arith, false,
}
use native.Mathlib.Decide.{ℕ_discrete}
use native.Mathlib.Nat.{pow-suc}
use cart.Tree.{knomial_digits, knomial_number_2_int, clear_lowest}

-- The parent, computed with the digits that the fuel allows.
unfoldable pub parent_in : (f x ratio : ℕ) → ℕ
parent_in f x ratio = knomial_number_2_int ratio (clear_lowest (knomial_digits f x ratio))

divmod : (x r : ℕ) → x / r * r + x % r ≡ x
divmod x r = grind arith

module _ (ratio : ℕ) (r : 2 ≤ ratio) where
  pub digits_zero : (f : ℕ) → knomial_digits f 0 ratio ≡ []
  unfolding knomial_digits
  digits_zero zero = refl
  digits_zero (suc f) = refl

  pub halve : (f x : ℕ) → x < 2 ^ suc f → x / ratio < 2 ^ f
  halve f x h = grind (arith, pow-suc 2 f)

  -- The digits of a number give the number back.
  pub number_round_trip :
      (f x : ℕ) → x < 2 ^ f → x < 2 ^ 32 → knomial_number_2_int ratio (knomial_digits f x ratio) ≡ x
  unfolding knomial_digits knomial_number_2_int
  number_round_trip zero x h w = omega arith
  number_round_trip (suc f) x h w = elim (ℕ_discrete x 0) [
    | yes e ↦ rw e
    | no ne ↦
        let ih = number_round_trip f (x / ratio) (halve f x h) (grind arith) in
        let test : (x == 0) ≡ false = ground arith in rw (test, ih) (omega (arith, divmod x ratio))
  ]

  pub parent_in_zero : (f : ℕ) → parent_in f 0 ratio ≡ 0
  unfolding parent_in clear_lowest knomial_number_2_int
  parent_in_zero f = rw (digits_zero f)

  pub parent_in_digit :
      (f x : ℕ)
      → x < 2 ^ suc f
      → x < 2 ^ 32
      → x % ratio ≢ 0
      → parent_in (suc f) x ratio ≡ x / ratio * ratio
  unfolding parent_in knomial_digits clear_lowest knomial_number_2_int
  parent_in_digit f x h w d =
      let ih = number_round_trip f (x / ratio) (halve f x h) (grind arith) in
      let test : (x == 0) ≡ false = grind arith in
      let low : (x % ratio == 0) ≡ false = ground arith in
      let split = divmod x ratio in rw (test, low, ih) (omega (arith, split))

  pub parent_in_shift :
      (f x : ℕ)
      → x % ratio ≡ 0
      → parent_in (suc f) x ratio ≡ parent_in f (x / ratio) ratio * ratio % 2 ^ 32
  unfolding parent_in knomial_digits clear_lowest knomial_number_2_int
  parent_in_shift f x d = elim (ℕ_discrete x 0) [
    | yes e ↦ let z : 0 / ratio ≡ 0 = grind arith in rw (e, z, digits_zero f) (omega arith)
    | no ne ↦ let test : (x == 0) ≡ false = ground arith in rw (test, d) (omega arith)
  ]

  -- Below the fuel's bound the parent of a rank is a smaller multiple of the branch ratio.
  pub parent_in-lt : (f x : ℕ) → 0 < x → x < 2 ^ f → x < 2 ^ 32 → parent_in f x ratio < x
  parent_in-lt zero x p h w = absurd (omega arith)
  parent_in-lt (suc f) x p h w = elim (ℕ_discrete (x % ratio) 0) [
    | yes e ↦
        let split = divmod x ratio in
        let q : 0 < x / ratio = grind arith in
        let ih = parent_in-lt f (x / ratio) q (halve f x h) (grind arith) in
        rw (parent_in_shift f x e) (grind arith)
    | no ne ↦ rw (parent_in_digit f x h w ne) (omega (arith, divmod x ratio))
  ]

  pub parent_in_scale :
      (f x : ℕ)
      → x < 2 ^ suc f
      → x < 2 ^ 32
      → x % ratio ≡ 0
      → parent_in (suc f) x ratio ≡ parent_in f (x / ratio) ratio * ratio
  parent_in_scale f x h w d = elim (ℕ_discrete x 0) [
    | yes e ↦
        let z : 0 / ratio ≡ 0 = grind arith in
        rw (e, z, parent_in_zero (suc f), parent_in_zero f) (omega arith)
    | no ne ↦
        let q : 0 < x / ratio = grind arith in
        let lt = parent_in-lt f (x / ratio) q (halve f x h) (grind arith) in
        let split = divmod x ratio in
        let small : parent_in f (x / ratio) ratio * ratio < 2 ^ 32 = grind arith in
        rw (parent_in_shift f x d) (omega arith)
  ]

  multiple : (q : ℕ) → q * ratio % ratio ≡ 0
  multiple q = grind arith

  pub parent_in_multiple : (f x : ℕ) → x < 2 ^ f → x < 2 ^ 32 → parent_in f x ratio % ratio ≡ 0
  parent_in_multiple zero x h w =
      let e : x ≡ 0 = omega arith in rw (e, parent_in_zero 0) (grind arith)
  parent_in_multiple (suc f) x h w = elim (ℕ_discrete (x % ratio) 0) [
    | yes e ↦ rw (parent_in_scale f x h w e) (multiple (parent_in f (x / ratio) ratio))
    | no ne ↦ rw (parent_in_digit f x h w ne) (multiple (x / ratio))
  ]
