-- ===== src/RankList/Tests.antt =====
-- Rank lists at concrete inputs (src/gurt/misc.c), and the theorems at such inputs.
use cart.Prelude.{
  ℕ, ◌+◌, ◌/◌, ◌≤◌, ◌≡◌, ◌↔◌, refl, List, [], ◌∷◌, count, true, false, some, ok, der_nomem, not,
  keep_if, if◌then◌else◌, arith,
}
use cart.RankList.{
  RankList, IsValid, ranks, qsort, sort, uniq_loop, uniq, uniq_sorted, dup, dup_sort_uniq,
  in_rank_list, filter, filter_set, filter_loop, filter_round, filtered_out, del, dangling,
  identical, same_ranks,
}
use cart.RankList.Sort.{IsSorted}
use cart.RankList.Uniq.{dup_sort_uniq_lem}
use cart.RankList.Filter.{filter_lem}
use cart.RankList.Delete.{del-last}
use cart.RankList.Lookup.{identical_iff}

abbrev list : List ℕ → ℕ → RankList
list xs n = record { rl_nr = n; rl_ranks = xs }

abbrev thrice : RankList
thrice = list (7 ∷ 5 ∷ 7 ∷ 7 ∷ 5 ∷ []) 5

-- Seven, which stands in the list three times, stays twice.
thrice_stays :
    dup_sort_uniq true true true (some thrice) ≡ ok (some (list (5 ∷ 7 ∷ 7 ∷ 7 ∷ 7 ∷ []) 3))
unfolding dup_sort_uniq dup uniq_sorted sort uniq uniq_loop
thrice_stays = refl

dup_sort_uniq_lem_example :
    (l : RankList) × (dup_sort_uniq true true true (some thrice) ≡ ok (some l))
    × IsValid l
    × (l.rl_nr ≤ thrice.rl_nr)
    × IsSorted (ranks l)
    × ((q : ℕ) → count q (ranks l) ≡ (count q (ranks thrice) + 1) / 2)
dup_sort_uniq_lem_example = dup_sort_uniq_lem thrice (omega arith)

abbrev evens : RankList
evens = list (4 ∷ 2 ∷ []) 2

filter_lem_example :
    (l : RankList) × (filter (some evens) (some (list (1 ∷ 2 ∷ 3 ∷ 4 ∷ 9 ∷ []) 4)) true ≡ some l)
    × IsValid l
    × (ranks l
        ≡ keep_if
            (λ x. if true then not (in_rank_list (ranks evens) x) else in_rank_list (ranks evens) x)
            (1 ∷ 2 ∷ 3 ∷ 4 ∷ []))
filter_lem_example =
    filter_lem evens (list (1 ∷ 2 ∷ 3 ∷ 4 ∷ 9 ∷ []) 4) true (omega arith) (omega arith)

filter_runs :
    filter (some evens) (some (list (1 ∷ 2 ∷ 3 ∷ 4 ∷ 9 ∷ []) 4)) true
    ≡ some (list (1 ∷ 3 ∷ 4 ∷ 4 ∷ 9 ∷ []) 2)
unfolding filter filter_set filter_loop filter_round filtered_out
filter_runs = refl

del-last_example : del true (λ _. 0) (some (list (3 ∷ []) 1)) 3 ≡ (der_nomem, dangling)
del-last_example = del-last (λ _. 0) (list (3 ∷ []) 1) 3 refl (omega arith) true

-- A list is not identical to another of the same ranks in another order.
identical_unsorted : (identical false (some evens) (some evens)).0 ≡ false
unfolding identical sort same_ranks
identical_unsorted = refl

identical_iff_example :
    ((identical false (some evens) (some evens)).0 ≡ true) ↔ (qsort (4 ∷ 2 ∷ []) ≡ 4 ∷ 2 ∷ [])
identical_iff_example = identical_iff evens evens (omega arith) (omega arith)
