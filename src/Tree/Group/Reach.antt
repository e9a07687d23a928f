-- ===== src/Tree/Group/Reach.antt =====
-- The way to the root by crt_tree_get_parent (src/cart/crt_tree.c).
use cart.Prelude.{
  ℕ, zero, suc, ◌<◌, ◌≡◌, refl, ap, sym, ◌∙◌, true, Option, some, count, get_elem?, get_or, arith,
  der_inval,
}
use std.Path.{subst}
use native.Mathlib.Decide.{ℕ_discrete}
use cart.RankList.{RankList, ranks}
use cart.Tree.{TopoOps, tree_type, tree_ratio, tops, grprank_2_treerank}
use cart.Tree.Spanning.{IsSpanning}
use cart.Tree.Group.{wrote, write_parent, tree_get_parent}
use cart.Tree.Group.Members.{IsMember, Available, available}
use cart.Tree.Group.Places.{count_of_elem, place_unique, Place, place, at_index, places_lem}
use cart.Tree.Group.Calls.{IsCall, tops-IsSpanning, checked_lem, get_parent_run}

-- The calls of crt_tree_get_parent lead from this rank to the root, member by member.
pub data Reaches (membs : RankList) (exclude : Option RankList) (topo root : ℕ) : ℕ → Type 0 where
  here : Reaches membs exclude topo root root
  up :
      (c p : ℕ)
      → IsMember membs exclude p
      → ((uninit : ℕ)
          → tree_get_parent true true true uninit membs exclude topo root c
            ≡ some (0, wrote (some p)))
      → Reaches membs exclude topo root p
      → Reaches membs exclude topo root c

module _ (membs : RankList) (exclude : Option RankList) (topo root : ℕ)
    (call : IsCall membs exclude topo root) (l : RankList) (a : Available membs exclude l)
    (r : Place l root) (ops : TopoOps) (top : tops (tree_type topo) ≡ some ops)
    (span : IsSpanning ops l.rl_nr (tree_ratio topo) r.at) where
  -- The call for the rank at an index.
  run_at :
      (i uninit : ℕ)
      → i < l.rl_nr
      → tree_get_parent true true true uninit membs exclude topo root (get_or l.rl_ranks i 0)
        ≡ some (write_parent uninit l (ops.get_parent l.rl_nr (tree_ratio topo) r.at i))
  run_at i uninit h =
      let c = get_or l.rl_ranks i 0 in
      let holds = (at_index l a.valid i h).1 in
      let inside = count_of_elem (ranks l) i c holds in
      let t = place l a.valid c inside in
      let same : t.at ≡ i = place_unique (ranks l) t.at i c (a.once c) t.holds holds in
      let member = a.only c inside in
      let check =
        checked_lem topo root c ops call.topology (call.is_rank root call.root_in)
          (call.is_rank c member) top in
      get_parent_run uninit membs exclude topo root c ops
        (record { list = l; grp_root = r.at; grp_self = t.at }) check
        (a.run root c ∙ places_lem l root c r t)
      ∙ ap (λ j. some (write_parent uninit l (ops.get_parent l.rl_nr (tree_ratio topo) r.at j)))
          same

  climb :
      (n i : ℕ)
      → i < l.rl_nr
      → grprank_2_treerank l.rl_nr r.at i < n
      → Reaches membs exclude topo root (get_or l.rl_ranks i 0)
  unfolding write_parent
  climb zero i h k = absurd (omega arith)
  climb (suc n) i h k = elim (ℕ_discrete i r.at) [
    | yes e ↦
        let same : some root ≡ some (get_or l.rl_ranks i 0) =
          sym r.holds ∙ rw (← e) ((at_index l a.valid i h).1) in
        let same' : root ≡ get_or l.rl_ranks i 0 = ground (arith, same) in
        subst (λ c. Reaches membs exclude topo root c) same' here
    | no ne ↦
        let (j, answer, lt, nearer) = span.parent i h ne in
        let p = get_or l.rl_ranks j 0 in
        let (at_j, holds) = at_index l a.valid j lt in
        up (get_or l.rl_ranks i 0) p (a.only p (count_of_elem (ranks l) j p holds))
          (λ uninit. run_at i uninit h ∙ rw (answer, at_j) refl)
          (climb n j lt (omega (arith, nearer)))
  ]

-- Under the conditions of IsCall, from every member that is not left out the calls of
-- crt_tree_get_parent lead to the root: each succeeds, whatever the variable for the parent held
-- before, and gives a member that is not left out.
pub parents_reach_root :
    (membs : RankList) (exclude : Option RankList) (topo root c : ℕ)
    → IsCall membs exclude topo root
    → IsMember membs exclude c
    → Reaches membs exclude topo root c
parents_reach_root membs exclude topo root c call member =
    let (l, a) = available membs exclude root call.members call.twice call.filter call.root_in in
    let r = place l a.valid root (a.holds root call.root_in) in
    let t = place l a.valid c (a.holds c member) in
    let (ops, top, span) =
      tops-IsSpanning topo l.rl_nr r.at call.topology (omega (arith, a.size, call.small))
        r.inside in
    let holds : some c ≡ some (get_or l.rl_ranks t.at 0) =
      sym t.holds ∙ (at_index l a.valid t.at t.inside).1 in
    let same : get_or l.rl_ranks t.at 0 ≡ c = ground (arith, holds) in
    subst (λ q. Reaches membs exclude topo root q) same
      (climb membs exclude topo root call l a r ops top span
        (suc (grprank_2_treerank l.rl_nr r.at t.at)) t.at t.inside (omega arith))

-- Under the conditions of IsCall, where the root asks for its own parent, crt_tree_get_parent reports
-- DER_INVAL, and still writes to the rank of the caller: what the list of the members holds at an
-- index that comes from a variable that was never set, out of bounds perhaps.
pub root_parent :
    (membs : RankList) (exclude : Option RankList) (topo root : ℕ)
    → IsCall membs exclude topo root
    → (l : RankList) × ((q : ℕ) → IsMember membs exclude q → 0 < count q (ranks l))
      × ((uninit : ℕ)
          → tree_get_parent true true true uninit membs exclude topo root root
            ≡ some (der_inval, wrote (get_elem? l.rl_ranks uninit)))
unfolding write_parent
root_parent membs exclude topo root call =
    let (l, a) = available membs exclude root call.members call.twice call.filter call.root_in in
    let r = place l a.valid root (a.holds root call.root_in) in
    let (ops, top, span) =
      tops-IsSpanning topo l.rl_nr r.at call.topology (omega (arith, a.size, call.small))
        r.inside in
    let check =
      checked_lem topo root root ops call.topology (call.is_rank root call.root_in)
        (call.is_rank root call.root_in) top in
    (
      l,
      a.holds,
      λ uninit.
          get_parent_run uninit membs exclude topo root root ops
            (record { list = l; grp_root = r.at; grp_self = r.at }) check
            (a.run root root ∙ places_lem l root root r r)
          ∙ ap (λ res. some (write_parent uninit l res)) span.root_parent,
    )
