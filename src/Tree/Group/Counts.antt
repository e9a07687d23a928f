-- ===== src/Tree/Group/Counts.antt =====
-- The number of children that crt_tree_get_nchildren of src/cart/crt_tree.c gives.
use cart.Prelude.{
  ℕ, suc, ◌≡◌, refl, ap, ◌∙◌, true, Option, none, some, List, [], ◌∷◌, map, length, get_or, ok,
  arith,
}
use cart.RankList.{RankList}
use cart.Tree.{TopoOps, tree_ratio}
use cart.Tree.Group.{
  excluding, Filtered, checked, count_children, filtered_grp_rank_list, list_children,
  tree_get_children, tree_get_nchildren, version_matches,
}
use cart.Tree.Group.Members.{IsMember, available}
use cart.Tree.Group.Places.{place, places_lem}
use cart.Tree.Group.Calls.{
  IsCall, tops-IsSpanning, checked_lem, list_children_lem, children_ranks, plenty,
}

length-map : (f : ℕ → ℕ) (xs : List ℕ) → length (map f xs) ≡ length xs
length-map f [] = refl
length-map f (x ∷ xs) = ap suc (length-map f xs)

nchildren_run :
    (membs : RankList) (exclude : Option RankList) (topo root self : ℕ) (ops : TopoOps)
    (g : Filtered) (n : ℕ)
    → checked topo root self ≡ some ops
    → filtered_grp_rank_list true true membs (excluding exclude) root self ≡ ok (some g)
    → ops.get_children_cnt g.list.rl_nr (tree_ratio topo) g.grp_root g.grp_self ≡ ok n
    → tree_get_nchildren true true true membs exclude topo root self ≡ some (ok n)
unfolding tree_get_nchildren count_children
nchildren_run membs exclude topo root self ops g n check run cnt =
    rw (check, tree_get_nchildren, run, cnt) refl

children_run :
    (membs : RankList) (exclude : Option RankList) (topo root self : ℕ) (ops : TopoOps)
    (g : Filtered) (r : Option RankList)
    → checked topo root self ≡ some ops
    → filtered_grp_rank_list true true membs (excluding exclude) root self ≡ ok (some g)
    → list_children ops (tree_ratio topo) true true true (some g) ≡ ok r
    → tree_get_children plenty true none membs (excluding exclude) topo root self ≡ some (ok r)
unfolding tree_get_children version_matches
children_run membs exclude topo root self ops g r check run made =
    rw (check, tree_get_children, run, made) refl

-- Under the conditions of IsCall, for a member that is not left out: crt_tree_get_nchildren gives
-- the length of the list that crt_tree_get_children gives.
pub nchildren-children :
    (membs : RankList) (exclude : Option RankList) (topo root p : ℕ)
    → IsCall membs exclude topo root
    → IsMember membs exclude p
    → (cs : Option RankList) × (tree_get_children plenty true none membs
          (excluding exclude)
          topo
          root
          p
        ≡ some (ok cs))
      × (tree_get_nchildren true true true membs exclude topo root p
          ≡ some (ok (length (children_ranks cs))))
nchildren-children membs exclude topo root p call member =
    let (l, a) = available membs exclude root call.members call.twice call.filter call.root_in in
    let r = place l a.valid root (a.holds root call.root_in) in
    let s = place l a.valid p (a.holds p member) in
    let (ops, top, span) =
      tops-IsSpanning topo l.rl_nr r.at call.topology (omega (arith, a.size, call.small))
        r.inside in
    let (is, list, cnt, _, _) = span.children s.at s.inside in
    let g : Filtered = record { list = l; grp_root = r.at; grp_self = s.at } in
    let (cs, made, res_ranks) = list_children_lem ops (tree_ratio topo) g is cnt list in
    let check =
      checked_lem topo root p ops call.topology (call.is_rank root call.root_in)
        (call.is_rank p member) top in
    let run = a.run root p ∙ places_lem l root p r s in
    let same : length (children_ranks cs) ≡ length is =
      ap (λ (xs : List ℕ). length xs) res_ranks ∙ length-map (λ i. get_or l.rl_ranks i 0) is in
    (
      cs,
      children_run membs exclude topo root p ops g cs check run made,
      nchildren_run membs exclude topo root p ops g (length is) check run cnt
          ∙ ap (λ n. some (ok n)) (omega (arith, same)),
    )
