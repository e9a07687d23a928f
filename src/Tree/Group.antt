-- ===== src/Tree/Group.antt =====
-- The calls of src/cart/crt_tree.c: they build the tree over the members of a group, less the
-- ranks that are filtered out, and answer in primary ranks.
pub mod Members
pub mod Places
pub mod Calls
pub mod Reach
pub mod Counts
use cart.Prelude.{
  ℕ, ◌+◌, ◌-◌, ◌*◌, Bool, true, false, ◌&&◌, not, Option, none, some, List, [], ◌∷◌, map, length,
  get_elem?, get_or, leb, ltb, ◌==◌, if◌then◌else◌, Result, ok, err, ◌>>=◌, der_inval, der_nomem,
  der_oog, der_grpver,
}
use cart.RankList.{RankList, dup_sort_uniq, filter, idx_in_rank_list}
use cart.RankList
use cart.Tree.{TopoOps, tree_type, tree_ratio, tree_topo_valid, tops}

-- `exclusive` with its list, which must not be NULL, or the list of ranks to leave out.
pub data Filter : Type 0 where
  only : RankList → Filter
  excluding : Option RankList → Filter

-- The filtered list with the places of the root and of the rank that asks; `grp_size` is its
-- `rl_nr`.
pub record Filtered : Type 0 where
  pub list : RankList
  pub grp_root : ℕ
  pub grp_self : ℕ

-- The end of crt_get_filtered_grp_rank_list.
unfoldable pub places : RankList → (root self : ℕ) → Result (Option Filtered)
places l root self = do
  grp_root ← idx_in_rank_list (some l) root
  grp_self ← idx_in_rank_list (some l) self
  ok (some (record { list = l; grp_root = grp_root; grp_self = grp_self }))

-- The filter of crt_get_filtered_grp_rank_list; no list is left where all ranks were excluded.
unfoldable pub apply_filter : Filter → RankList → Result (Option RankList)
apply_filter (only f) l = elim (filter (some f) (some l) false) [
  | none ↦ ok none
  | some l' ↦ if l'.rl_nr == f.rl_nr then ok (some l') else err der_oog
]
apply_filter (excluding none) l = ok (some l)
apply_filter (excluding (some f)) l =
    if ltb 0 f.rl_nr
    then (elim (filter (some f) (some l) true) [
      | none ↦ ok none
      | some l' ↦ if l'.rl_nr == 0 then ok none else ok (some l')
    ])
    else ok (some l)

unfoldable pub places_in : Option RankList → (root self : ℕ) → Result (Option Filtered)
places_in none root self = ok none
places_in (some l) root self = places l root self

unfoldable pub filter_copy : Filter → Option RankList → (root self : ℕ) → Result (Option Filtered)
filter_copy f none root self = ok none
filter_copy f (some l) root self = apply_filter f l >>= λ r. places_in r root self

-- crt_get_filtered_grp_rank_list over the members of the group, which are not NULL. `ptr` and
-- `array` tell whether the allocations of the copy succeed.
unfoldable pub filtered_grp_rank_list :
    (ptr array : Bool) → RankList → Filter → (root self : ℕ) → Result (Option Filtered)
filtered_grp_rank_list ptr array membs f root self =
    dup_sort_uniq true ptr array (some membs) >>= λ l. filter_copy f l root self

abbrev pub no_rank : ℕ
no_rank = 0xFFFFFFFF

-- CRT_TREE_PARAMETER_CHECKING, and the choice of the topology: `none` is a failed assertion.
unfoldable pub checked : (topo root self : ℕ) → Option TopoOps
checked topo root self =
    if tree_topo_valid topo && not (root == no_rank) && not (self == no_rank)
    then tops (tree_type topo)
    else none

-- What the calls do with the topology once the list is filtered.
unfoldable pub count_children : TopoOps → (ratio : ℕ) → Option Filtered → Result ℕ
count_children ops ratio none = err der_inval
count_children ops ratio (some g) = ops.get_children_cnt g.list.rl_nr ratio g.grp_root g.grp_self

-- crt_tree_get_nchildren; `out` tells whether `nchildren` is not NULL.
unfoldable pub tree_get_nchildren :
    (ptr array out : Bool) → RankList → Option RankList → (topo root self : ℕ) → Option (Result ℕ)
tree_get_nchildren ptr array out membs exclude topo root self = elim (checked topo root self) [
  | none ↦ none
  | some ops ↦ some (
      if out
      then filtered_grp_rank_list ptr array membs (excluding exclude) root self
        >>= count_children ops (tree_ratio topo)
      else err der_inval)
]

-- `rl_ranks[tree_children[i]]` for each child
abbrev pub ranks_at : RankList → List ℕ → List ℕ
ranks_at l is = map (λ i. get_or l.rl_ranks i 0) is

-- The lists that crt_tree_get_children allocates for `n` children.
unfoldable pub fill_children :
    TopoOps
    → (ratio : ℕ) → (res_ptr res_array children : Bool) → Filtered
    → ℕ
    → Result (Option RankList)
fill_children ops ratio res_ptr res_array children g n =
    if n == 0
    then ok none
    else if res_ptr && res_array && children
    then (do
      is ← ops.get_children g.list.rl_nr ratio g.grp_root g.grp_self
      ok (some (record { rl_nr = n; rl_ranks = ranks_at g.list is })))
    else err der_nomem

unfoldable pub list_children :
    TopoOps
    → (ratio : ℕ) → (res_ptr res_array children : Bool) → Option Filtered
    → Result (Option RankList)
list_children ops ratio res_ptr res_array children none = ok none
list_children ops ratio res_ptr res_array children (some g) =
    ops.get_children_cnt g.list.rl_nr ratio g.grp_root g.grp_self
    >>= fill_children ops ratio res_ptr res_array children g

-- Which of the allocations of crt_tree_get_children succeed.
pub record Memory : Type 0 where
  pub ptr : Bool
  pub array : Bool
  pub res_ptr : Bool
  pub res_array : Bool
  pub children : Bool

-- The version that the caller passes with `ver_match`, and that of the members.
unfoldable pub version_matches : Option (ℕ × ℕ) → Bool
version_matches none = true
version_matches (some (grp_ver, membs_ver)) = grp_ver == membs_ver

-- crt_tree_get_children; `version` is `none` where the caller passes no `ver_match`, and `out`
-- tells whether `children_rank_list` is not NULL.
unfoldable pub tree_get_children :
    Memory
    → (out : Bool) → (version : Option (ℕ × ℕ)) → RankList
    → Filter
    → (topo root self : ℕ) → Option (Result (Option RankList))
tree_get_children mem out version membs f topo root self =
    if version_matches version
    then elim (checked topo root self) [
      | none ↦ none
      | some ops ↦ some (
          if out
          then filtered_grp_rank_list mem.ptr mem.array membs f root self
            >>= list_children ops (tree_ratio topo) mem.res_ptr mem.res_array mem.children
          else err der_inval)
    ]
    else some (err der_grpver)

-- What crt_tree_get_parent leaves in `*parent_rank`: the rank at an index of the filtered list, or
-- what a read out of its bounds gives.
pub data Written : Type 0 where
  untouched : Written
  wrote : Option ℕ → Written

-- The end of crt_tree_get_parent: it writes the parent also where the topology reported an error,
-- and then the index is what the variable `tree_parent` held before.
unfoldable pub write_parent : (uninit : ℕ) → RankList → Result ℕ → ℕ × Written
write_parent uninit l (ok i) = (0, wrote (get_elem? l.rl_ranks i))
write_parent uninit l (err e) = (e, wrote (get_elem? l.rl_ranks uninit))

unfoldable pub parent_of : TopoOps → (ratio uninit : ℕ) → Result (Option Filtered) → ℕ × Written
parent_of ops ratio uninit (err e) = (e, untouched)
parent_of ops ratio uninit (ok none) = (der_inval, untouched)
parent_of ops ratio uninit (ok (some g)) =
    write_parent uninit g.list (ops.get_parent g.list.rl_nr ratio g.grp_root g.grp_self)

-- crt_tree_get_parent; `out` tells whether `parent_rank` is not NULL.
unfoldable pub tree_get_parent :
    (ptr array out : Bool)
    → (uninit : ℕ) → RankList
    → Option RankList
    → (topo root self : ℕ) → Option (ℕ × Written)
tree_get_parent ptr array out uninit membs exclude topo root self = elim (checked topo root self) [
  | none ↦ none
  | some ops ↦ some (
      if out
      then parent_of ops (tree_ratio topo) uninit
          (filtered_grp_rank_list ptr array membs (excluding exclude) root self)
      else (der_inval, untouched))
]
