-- ===== src/RankList/Lookup.antt =====
-- Where a rank stands in a list, and when two lists are identical (src/gurt/misc.c).
use cart.Prelude.{
  ℕ, suc, ◌+◌, ◌<◌, ◌≡◌, ◌↔◌, refl, ap, ◌∙◌, List, [], ◌∷◌, length, get_elem?, take, drop, count,
  ◌==◌, arith, true, false, none, some, err, ok, der_nonexist, take-append, length-take,
}
use native.Mathlib.Decide.{ℕ_discrete}
use cart.RankList.{
  RankList, IsValid, ranks, index_from, idx_in_rank_list, in_rank_list, qsort, sort, same_ranks,
  identical,
}
use cart.RankList.Sort.{length-qsort}

-- The least index at which the rank stands: it stands there, and not before.
abbrev pub IsFirst : ℕ → List ℕ → ℕ → Type 0
IsFirst rank xs i = (get_elem? xs i ≡ some rank) × (count rank (take i xs) ≡ 0)

index_from-IsFirst :
    (xs : List ℕ) (rank i : ℕ)
    → 0 < count rank xs
    → (k : ℕ) × (index_from xs rank i ≡ some (i + k)) × IsFirst rank xs k
unfolding index_from
index_from-IsFirst [] rank i h = absurd (omega arith)
index_from-IsFirst (x ∷ xs) rank i h = elim (ℕ_discrete x rank) [
  | yes same ↦ (0, ground arith, (rw same, refl))
  | no differ ↦
      let (k, e, (at, before)) = index_from-IsFirst xs rank (suc i) (ground arith) in
      (suc k, ground (arith, e), (at, ground (arith, before)))
]

index_from-none : (xs : List ℕ) (rank i : ℕ) → count rank xs ≡ 0 → index_from xs rank i ≡ none
unfolding index_from
index_from-none [] rank i h = refl
index_from-none (x ∷ xs) rank i h = ground (arith, index_from-none xs rank (suc i))

-- d_idx_in_rank_list finds a rank that the list holds, at its first place.
pub idx_in_rank_list-present :
    (l : RankList) (rank : ℕ)
    → 0 < count rank (ranks l)
    → (i : ℕ) × (idx_in_rank_list (some l) rank ≡ ok i) × IsFirst rank (ranks l) i
unfolding idx_in_rank_list
idx_in_rank_list-present l rank h =
    let (k, e, first) = index_from-IsFirst (ranks l) rank 0 h in
    let e' : index_from (ranks l) rank 0 ≡ some k = e ∙ ap some (omega arith) in
    (k, rw (e', idx_in_rank_list), first)

pub idx_in_rank_list-absent :
    (l : RankList) (rank : ℕ)
    → count rank (ranks l) ≡ 0
    → idx_in_rank_list (some l) rank ≡ err der_nonexist
unfolding idx_in_rank_list
idx_in_rank_list-absent l rank h = rw (index_from-none (ranks l) rank 0 h, idx_in_rank_list)

pub in_rank_list_iff :
    (xs : List ℕ) (rank : ℕ) → (in_rank_list xs rank ≡ true) ↔ (0 < count rank xs)
unfolding in_rank_list
in_rank_list_iff [] rank = ground arith
in_rank_list_iff (x ∷ xs) rank = ground (arith, in_rank_list_iff xs rank)

same_ranks_iff : (xs ys : List ℕ) → length xs ≡ length ys → (same_ranks xs ys ≡ true) ↔ (xs ≡ ys)
unfolding same_ranks
same_ranks_iff [] [] h = (λ e. refl, λ e. refl)
same_ranks_iff [] (y ∷ ys) h = absurd (omega arith)
same_ranks_iff (x ∷ xs) [] h = absurd (omega arith)
same_ranks_iff (x ∷ xs) (y ∷ ys) h = ground (arith, same_ranks_iff xs ys)

sorted_ranks : (l : RankList) → IsValid l → ranks (sort l) ≡ qsort (ranks l)
unfolding sort
sorted_ranks l v =
    let size = length-qsort (ranks l) ∙ length-take l.rl_nr l.rl_ranks v in
    rw size at (take-append (qsort (ranks l)) (drop l.rl_nr l.rl_ranks))

-- d_rank_list_identical on two valid lists that are not one in memory: they count as identical
-- exactly when the second list is the first one in ascending order. Only the first is sorted.
pub identical_iff :
    (l r : RankList)
    → IsValid l
    → IsValid r
    → ((identical false (some l) (some r)).0 ≡ true) ↔ (qsort (ranks l) ≡ ranks r)
unfolding identical
identical_iff l r v w = elim (ℕ_discrete l.rl_nr r.rl_nr) [
  | yes same ↦
      let test : (l.rl_nr == r.rl_nr) ≡ true = ground arith in
      let left = length-qsort (ranks l) ∙ length-take l.rl_nr l.rl_ranks v in
      let right = length-take r.rl_nr r.rl_ranks w in
      rw (test, sorted_ranks l v)
        (same_ranks_iff (qsort (ranks l)) (ranks r) (omega (arith, left, right)))
  | no differ ↦
      let test : (l.rl_nr == r.rl_nr) ≡ false = ground arith in
      let left = length-qsort (ranks l) ∙ length-take l.rl_nr l.rl_ranks v in
      let right = length-take r.rl_nr r.rl_ranks w in
      rw test (
        λ e. cc,
        λ e. absurd (differ (omega (arith, left, right, ap (λ (xs : List ℕ). length xs) e))),
      )
]
