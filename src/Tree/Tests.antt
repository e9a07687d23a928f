-- ===== src/Tree/Tests.antt =====
-- Trees and the calls on them at concrete inputs (src/cart/crt_tree*.c), and the theorems at such
-- inputs.
use cart.Prelude.{
  ℕ, ◌+◌, ◌*◌, ◌^◌, ◌<◌, ◌≡◌, refl, true, Option, none, some, [], ◌∷◌, count, get_elem?, one_if, ok,
  arith, der_inval,
}
use cart.RankList.{
  RankList, ranks, dup, dup_sort_uniq, in_rank_list, filter, filter_set, filter_loop, filter_round,
  filtered_out, idx_in_rank_list, index_from, sort, uniq_loop, uniq, uniq_sorted,
}
use cart.Tree.{
  tree_type, tree_ratio, tree_topo_valid, treerank_2_grprank, grprank_2_treerank, tops, kary_ops,
  knomial_ops, knomial_digits, int_2_knomial_number, knomial_inner, knomial_outer, knomial_children,
  knomial_get_children_cnt, knomial_get_children,
}
use cart.Tree.Ranks.{group_tree}
use cart.Tree.Spanning.{IsSpanning}
use cart.Tree.Kary.{kary-IsSpanning}
use cart.Tree.Knomial.Spans.{knomial-IsSpanning}
use cart.Tree.Group.{
  excluding, places, places_in, apply_filter, filter_copy, filtered_grp_rank_list, checked,
  fill_children, list_children, tree_get_children, wrote, tree_get_parent, version_matches,
}
use cart.Tree.Group.Members.{IsMember}
use cart.Tree.Group.Calls.{IsCall, children-parent, children_ranks, gives_parent, plenty}
use cart.Tree.Group.Reach.{Reaches, parents_reach_root, root_parent}

group_tree_example : treerank_2_grprank 5 3 (grprank_2_treerank 5 3 1) ≡ 1
group_tree_example = group_tree 5 3 (omega arith) (omega arith) 1 (omega arith)

kary-IsSpanning_example : IsSpanning kary_ops 9 3 4
kary-IsSpanning_example =
    kary-IsSpanning 9 3 4 (omega arith) (omega arith) (omega arith) (omega arith) (omega arith)

knomial-IsSpanning_example : IsSpanning knomial_ops 12 3 5
knomial-IsSpanning_example =
    knomial-IsSpanning 12 3 (omega arith) (omega arith) 5 (omega arith) (omega arith) (omega arith)

-- In base 3 the children of 0 below 12 are those with one digit that is not zero.
knomial_children_run : knomial_get_children 12 3 5 5 ≡ ok (6 ∷ 7 ∷ 8 ∷ 11 ∷ 2 ∷ [])
unfolding knomial_get_children knomial_children knomial_outer knomial_inner int_2_knomial_number
    knomial_digits treerank_2_grprank grprank_2_treerank
knomial_children_run = refl

-- Four members, of which the third is left out, in a k-nomial tree of ratio 2 below the second.
abbrev members : RankList
members = record { rl_nr = 5; rl_ranks = 11 ∷ 5 ∷ 9 ∷ 7 ∷ 4 ∷ [] }

abbrev left_out : Option RankList
left_out = some (record { rl_nr = 1; rl_ranks = 9 ∷ [] })

abbrev knomial_2 : ℕ
knomial_2 = 3 * 2 ^ 16 + 2

call : IsCall members left_out knomial_2 5
unfolding tree_topo_valid tree_type tree_ratio in_rank_list
call = record {
  members = omega arith;
  twice = λ q. ground arith;
  filter = omega arith;
  topology = refl;
  small = omega arith;
  is_rank = λ q m. ground (arith, m.0);
  root_in = (omega arith, refl);
}

four-IsMember : IsMember members left_out 4
unfolding in_rank_list
four-IsMember = (omega arith, refl)

eleven-IsMember : IsMember members left_out 11
unfolding in_rank_list
eleven-IsMember = (omega arith, refl)

children-parent_example :
    (cs : Option RankList) × (tree_get_children plenty true none members
        (excluding left_out)
        knomial_2
        5
        4
      ≡ some (ok cs))
    × (count 11 (children_ranks cs)
        ≡ one_if
            (gives_parent (tree_get_parent true true true 0 members left_out knomial_2 5 11) 4))
children-parent_example =
    children-parent members left_out knomial_2 5 call 4 11 0 four-IsMember eleven-IsMember

parents_reach_root_example : Reaches members left_out knomial_2 5 11
parents_reach_root_example = parents_reach_root members left_out knomial_2 5 11 call eleven-IsMember

root_parent_example :
    (l : RankList) × ((q : ℕ) → IsMember members left_out q → 0 < count q (ranks l))
    × ((uninit : ℕ)
        → tree_get_parent true true true uninit members left_out knomial_2 5 5
          ≡ some (der_inval, wrote (get_elem? l.rl_ranks uninit)))
root_parent_example = root_parent members left_out knomial_2 5 call

-- The sorted members that are left are 4, 5, 7 and 11; below the root 5 come 7 and 11.
children_run :
    tree_get_children plenty true none members (excluding left_out) knomial_2 5 5
    ≡ some (ok (some (record { rl_nr = 2; rl_ranks = 7 ∷ 11 ∷ [] })))
unfolding tree_get_children version_matches checked tree_topo_valid tree_type tree_ratio tops
    filtered_grp_rank_list dup_sort_uniq dup uniq_sorted sort uniq uniq_loop filter_copy
    apply_filter filter filter_set filter_loop filter_round filtered_out in_rank_list places_in
    places idx_in_rank_list index_from list_children fill_children knomial_get_children_cnt
    knomial_get_children knomial_children knomial_outer knomial_inner int_2_knomial_number
    knomial_digits treerank_2_grprank grprank_2_treerank
children_run = refl
