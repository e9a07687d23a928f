-- ===== src/Tree/Group/Places.antt =====
-- Where a member stands in the list of a call of src/cart/crt_tree.c.
use cart.Prelude.{
  ℕ, zero, suc, ◌≤◌, ◌<◌, ◌≡◌, ◌≢◌, refl, ap, sym, ◌∙◌, some, List, [], ◌∷◌, All, length, count,
  take, get_elem?, get_or, ◌==◌, ok, arith, length-take,
}
use native.Mathlib.Decide.{ℕ_discrete}
use cart.RankList.{RankList, IsValid, ranks, idx_in_rank_list}
use cart.RankList.Lookup.{idx_in_rank_list-present}
use cart.Tree.Group.{places, ranks_at}

pub get_elem?-lt : (xs : List ℕ) (i x : ℕ) → get_elem? xs i ≡ some x → i < length xs
get_elem?-lt [] i x e = cc
get_elem?-lt (y ∷ xs) zero x e = omega arith
get_elem?-lt (y ∷ xs) (suc i) x e = omega (arith, get_elem?-lt xs i x e)

pub count_of_elem : (xs : List ℕ) (i x : ℕ) → get_elem? xs i ≡ some x → 0 < count x xs
count_of_elem [] i x e = cc
count_of_elem (y ∷ xs) zero x e = ground arith
count_of_elem (y ∷ xs) (suc i) x e = ground (arith, count_of_elem xs i x e)

-- A rank that a list holds once has one place.
pub place_unique :
    (xs : List ℕ) (i j x : ℕ)
    → count x xs ≤ 1
    → get_elem? xs i ≡ some x
    → get_elem? xs j ≡ some x
    → i ≡ j
place_unique [] i j x h p q = cc
place_unique (y ∷ xs) zero zero x h p q = refl
place_unique (y ∷ xs) zero (suc j) x h p q = absurd (ground (arith, count_of_elem xs j x q))
place_unique (y ∷ xs) (suc i) zero x h p q = absurd (ground (arith, count_of_elem xs i x p))
place_unique (y ∷ xs) (suc i) (suc j) x h p q = ap suc (place_unique xs i j x (ground arith) p q)

pub elem_of_lt : (xs : List ℕ) (i : ℕ) → i < length xs → get_elem? xs i ≡ some (get_or xs i 0)
elem_of_lt [] i h = absurd (omega arith)
elem_of_lt (x ∷ xs) zero h = refl
elem_of_lt (x ∷ xs) (suc i) h = elem_of_lt xs i (omega arith)

pub get_elem?-take :
    (n : ℕ) (xs : List ℕ) (i : ℕ) → i < n → get_elem? (take n xs) i ≡ get_elem? xs i
get_elem?-take zero xs i h = absurd (omega arith)
get_elem?-take (suc n) [] i h = refl
get_elem?-take (suc n) (x ∷ xs) zero h = refl
get_elem?-take (suc n) (x ∷ xs) (suc i) h = get_elem?-take n xs i (omega arith)

-- Where a member stands in the list of the call.
pub record Place (l : RankList) (q : ℕ) : Type 0 where
  pub at : ℕ
  pub found : idx_in_rank_list (some l) q ≡ ok at
  pub holds : get_elem? (ranks l) at ≡ some q
  pub inside : at < l.rl_nr

module _ (l : RankList) (valid : IsValid l) where
  pub place : (q : ℕ) → 0 < count q (ranks l) → Place l q
  place q h =
      let (i, found, first) = idx_in_rank_list-present l q h in
      record {
        at = i;
        found = found;
        holds = first.0;
        inside =
            omega (arith, get_elem?-lt (ranks l) i q first.0, length-take l.rl_nr l.rl_ranks valid);
      }

  -- The rank at an index of the list.
  pub at_index :
      (i : ℕ)
      → i < l.rl_nr
      → (get_elem? l.rl_ranks i ≡ some (get_or l.rl_ranks i 0))
        × (get_elem? (ranks l) i ≡ some (get_or l.rl_ranks i 0))
  at_index i h =
      let e = elem_of_lt l.rl_ranks i (omega arith) in
      (e, get_elem?-take l.rl_nr l.rl_ranks i h ∙ e)

  module _ (once : (q : ℕ) → count q (ranks l) ≤ 1) (q : ℕ) (p : Place l q) where
    -- A rank is at an index exactly when the index is its place.
    pub rank_iff : (i : ℕ) → i < l.rl_nr → (q == get_or l.rl_ranks i 0) ≡ (p.at == i)
    rank_iff i h = elim (ℕ_discrete p.at i) [
      | yes e ↦
          let same : some q ≡ some (get_or l.rl_ranks i 0) =
            sym p.holds ∙ rw e ((at_index i h).1) in
          ground arith
      | no ne ↦
          let apart : q ≢ get_or l.rl_ranks i 0 = λ e. ne (
            place_unique (ranks l) p.at i q (once q) p.holds
              ((at_index i h).1 ∙ ap some (sym e))) in
          ground arith
    ]

    pub count-ranks_at :
        (is : List ℕ) → All (λ i. i < l.rl_nr) is → count q (ranks_at l is) ≡ count p.at is
    count-ranks_at [] a = refl
    count-ranks_at (i ∷ is) a = rw (rank_iff i a.0, count-ranks_at is a.1)

pub places_lem :
    (l : RankList) (root self : ℕ) (r : Place l root) (s : Place l self)
    → places l root self ≡ ok (some (record { list = l; grp_root = r.at; grp_self = s.at }))
unfolding places
places_lem l root self r s = rw (r.found, s.found)
