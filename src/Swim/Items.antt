-- ===== src/Swim/Items.antt =====
-- The lists of items of a SWIM context, by the ids that they hold.
use cart.Prelude.{
  ℕ, suc, ◌+◌, ◌-◌, ◌≤◌, ◌≡◌, refl, ap, false, ◌||◌, List, [], ◌∷◌, ◌++◌, map, length, count, set,
  count-append, length-append, ◌==◌, ltb, if◌then◌else◌, arith,
}
use native.Mathlib.Decide.{ℕ_discrete}
use cart.Swim.{Item}
use cart.Swim.Updates.{has_item, remove_first, refresh}
use cart.Swim.Suspects.{remove_at}

abbrev pub ids : List Item → List ℕ
ids xs = map (λ x. x.si_id) xs

pub ids-append : (xs ys : List Item) → ids (xs ++ ys) ≡ ids xs ++ ids ys
ids-append [] ys = refl
ids-append (x ∷ xs) ys = ap (◌∷◌ x.si_id) (ids-append xs ys)

pub count-ids-append :
    (q : ℕ) (xs ys : List Item) → count q (ids (xs ++ ys)) ≡ count q (ids xs) + count q (ids ys)
count-ids-append q xs ys = rw (ids-append xs ys) (count-append q (ids xs) (ids ys))

-- An item is found exactly when its id occurs.
pub has_item-count : (q : ℕ) (xs : List Item) → has_item q xs ≡ ltb 0 (count q (ids xs))
has_item-count q [] = refl
has_item-count q (x ∷ xs) = ground (arith, has_item-count q xs)

pub has_item-ids : (q : ℕ) (xs ys : List Item) → ids xs ≡ ids ys → has_item q xs ≡ has_item q ys
has_item-ids q xs ys e = rw (has_item-count q xs, has_item-count q ys, e)

pub has_item-append :
    (q : ℕ) (xs ys : List Item) → has_item q (xs ++ ys) ≡ (has_item q xs || has_item q ys)
has_item-append q [] ys = refl
has_item-append q (x ∷ xs) ys = ground (arith, has_item-append q xs ys)

pub count-remove_first :
    (q id : ℕ) (xs : List Item)
    → count q (ids (remove_first id xs)) ≡ count q (ids xs) - (if q == id then 1 else 0)
count-remove_first q id [] = ground arith
count-remove_first q id (x ∷ xs) = elim (ℕ_discrete x.si_id id) [
  | yes e ↦ ground arith
  | no ne ↦ elim (ℕ_discrete q id) [
    | yes e' ↦ ground (arith, count-remove_first q id xs)
    | no ne' ↦ ground (arith, count-remove_first q id xs)
  ]
]

-- Where ids are once in a list, the removal of an id takes that id out and no other.
pub has_item-remove_first :
    (q id : ℕ) (xs : List Item)
    → count id (ids xs) ≤ 1
    → has_item q (remove_first id xs) ≡ (if q == id then false else has_item q xs)
has_item-remove_first q id xs h = elim (ℕ_discrete q id) [
  | yes e ↦ ground (arith, has_item-count q (remove_first id xs), count-remove_first q id xs)
  | no ne ↦ ground (
    arith,
    has_item-count q (remove_first id xs),
    has_item-count q xs,
    count-remove_first q id xs,
  )
]

pub ids-refresh : (from id : ℕ) (xs : List Item) → ids (refresh from id xs) ≡ ids xs
ids-refresh from id [] = refl
ids-refresh from id (x ∷ xs) = elim (ℕ_discrete x.si_id id) [
  | yes e ↦ ground arith
  | no ne ↦ ground (arith, ids-refresh from id xs)
]

-- The item at the place that is counted from the end
module _ (x : Item) (rest : List Item) where
  pub place_of :
      (before : List Item) → length (before ++ x ∷ rest) - suc (length rest) ≡ length before
  place_of before = omega (arith, length-append before (x ∷ rest))

  pub set_place :
      (y : Item) (before : List Item)
      → set (before ++ x ∷ rest) (length before) y ≡ before ++ y ∷ rest
  set_place y [] = refl
  set_place y (z ∷ before) = ap (◌∷◌ z) (set_place y before)

  pub remove_place :
      (before : List Item) → remove_at (length before) (before ++ x ∷ rest) ≡ before ++ rest
  remove_place [] = refl
  remove_place (z ∷ before) = ap (◌∷◌ z) (remove_place before)

  -- The search for the id of an item finds that item, where no item before it has its id.
  pub remove_first_place :
      (before : List Item)
      → count x.si_id (ids before) ≡ 0
      → remove_first x.si_id (before ++ x ∷ rest) ≡ before ++ rest
  remove_first_place [] h = ground arith
  remove_first_place (z ∷ before) h =
      let test : (z.si_id == x.si_id) ≡ false = ground arith in
      rw test (ap (◌∷◌ z) (remove_first_place before (ground arith)))
