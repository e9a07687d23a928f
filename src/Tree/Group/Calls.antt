-- ===== src/Tree/Group/Calls.antt =====
-- Parents and children in the calls of src/cart/crt_tree.c.
use cart.Prelude.{
  ℕ, zero, suc, ◌+◌, ◌*◌, ◌^◌, ◌≤◌, ◌<◌, ◌≡◌, ◌≢◌, refl, ap, sym, ◌∙◌, Bool, true, false, Option,
  none, some, List, [], ◌∷◌, map, length, count, take, get_or, ◌==◌, one_if, Result, ok, err, arith,
  der_inval,
}
use native.Mathlib.Decide.{ℕ_discrete}
use cart.RankList.{RankList, IsValid, ranks}
use cart.Tree.{
  TopoOps, tree_type, tree_ratio, tree_topo_valid, tops, flat_ops, kary_ops, knomial_ops,
}
use cart.Tree.Spanning.{IsSpanning, children_of, is_parent}
use cart.Tree.Flat.{flat-IsSpanning}
use cart.Tree.Kary.{kary-IsSpanning}
use cart.Tree.Knomial.Spans.{knomial-IsSpanning}
use cart.Tree.Group.{
  excluding, Filtered, filtered_grp_rank_list, no_rank, checked, ranks_at, fill_children,
  list_children, Memory, tree_get_children, Written, wrote, write_parent, parent_of,
  tree_get_parent, version_matches,
}
use cart.Tree.Group.Members.{IsMember, IsValidFilter, available}
use cart.Tree.Group.Places.{Place, place, at_index, rank_iff, count-ranks_at, places_lem}

-- Every topology that the parameter check lets through spans the group.
pub tops-IsSpanning :
    (topo size root : ℕ)
    → tree_topo_valid topo ≡ true
    → size * 64 + 64 < 2 ^ 31
    → root < size
    → (ops : TopoOps) × (tops (tree_type topo) ≡ some ops)
      × IsSpanning ops size (tree_ratio topo) root
unfolding tree_topo_valid tops
tops-IsSpanning topo size root v small inside =
    let ratio = tree_ratio topo in
    elim (ℕ_discrete (tree_type topo) 1) [
      | yes e ↦ (flat_ops, rw e, flat-IsSpanning size ratio root (omega arith) inside)
      | no ne ↦
          let lo : 2 ≤ ratio = ground arith in
          let hi : ratio ≤ 64 = ground arith in
          let prod : size * ratio ≤ size * 64 = grind arith in
          elim (ℕ_discrete (tree_type topo) 2) [
            | yes e ↦ (
              kary_ops,
              rw e,
              kary-IsSpanning size ratio root lo hi (omega arith) (omega arith) inside,
            )
            | no ne' ↦
                let e : tree_type topo ≡ 3 = ground arith in
                (
                  knomial_ops,
                  rw e,
                  knomial-IsSpanning size ratio lo (omega arith) root hi (omega arith) inside,
                )
          ]
    ]

-- The ranks of the list that crt_tree_get_children hands back; no list stands for no children.
abbrev pub children_ranks : Option RankList → List ℕ
children_ranks none = []
children_ranks (some l) = ranks l

-- Whether crt_tree_get_parent succeeded and gave this rank.
abbrev pub gives_parent : Option (ℕ × Written) → ℕ → Bool
gives_parent (some (zero, wrote (some q))) p = q == p
gives_parent _ p = false

abbrev pub plenty : Memory
plenty = record { ptr = true; array = true; res_ptr = true; res_array = true; children = true }

take-map : (f : ℕ → ℕ) (xs : List ℕ) → take (length xs) (map f xs) ≡ map f xs
take-map f [] = refl
take-map f (x ∷ xs) = ap (◌∷◌ (f x)) (take-map f xs)

-- The list that crt_tree_get_children makes of the children of one rank.
pub list_children_lem :
    (ops : TopoOps) (ratio : ℕ) (g : Filtered) (cs : List ℕ)
    → ops.get_children_cnt g.list.rl_nr ratio g.grp_root g.grp_self ≡ ok (length cs)
    → children_of ops g.list.rl_nr ratio g.grp_root g.grp_self ≡ ok cs
    → (r : Option RankList) × (list_children ops ratio true true true (some g) ≡ ok r)
      × (children_ranks r ≡ ranks_at g.list cs)
unfolding list_children children_of fill_children
list_children_lem ops ratio g [] n e = (none, rw n, refl)
list_children_lem ops ratio g (c ∷ cs) n e =
    let test : (suc (length cs) == 0) ≡ false = ground arith in
    let list = rw (n, test) at e in
    (
      some (record { rl_nr = length (c ∷ cs); rl_ranks = ranks_at g.list (c ∷ cs) }),
      rw (n, test, list),
      take-map (λ i. get_or g.list.rl_ranks i 0) (c ∷ cs),
    )

pub checked_lem :
    (topo root self : ℕ) (ops : TopoOps)
    → tree_topo_valid topo ≡ true
    → root < no_rank
    → self < no_rank
    → tops (tree_type topo) ≡ some ops
    → checked topo root self ≡ some ops
unfolding checked
checked_lem topo root self ops v r s e = ground (arith, e)

-- What crt_tree_get_parent makes of an index that the topology gives.
gives_parent-write_parent :
    (l : RankList) (valid : IsValid l) (once : (q : ℕ) → count q (ranks l) ≤ 1) (p uninit : ℕ)
    (s : Place l p) (res : Result ℕ)
    → ((i : ℕ) → res ≡ ok i → i < l.rl_nr)
    → res ≢ err 0
    → gives_parent (some (write_parent uninit l res)) p ≡ is_parent res s.at
unfolding write_parent
gives_parent-write_parent l valid once p uninit s (ok i) inside fails =
    let lt = inside i refl in
    rw ((at_index l valid i lt).0) (ground (arith, rank_iff l valid once p s i lt))
gives_parent-write_parent l valid once p uninit s (err zero) inside fails = absurd (fails refl)
gives_parent-write_parent l valid once p uninit s (err (suc e)) inside fails = refl

-- The answers of a topology that spans the group.
parent_answers :
    (ops : TopoOps) (size ratio root c : ℕ)
    → IsSpanning ops size ratio root
    → c < size
    → ((i : ℕ) → ops.get_parent size ratio root c ≡ ok i → i < size)
      × (ops.get_parent size ratio root c ≢ err 0)
parent_answers ops size ratio root c span h = elim (ℕ_discrete c root) [
  | yes e ↦
      let answer : ops.get_parent size ratio root c ≡ err der_inval = rw e span.root_parent in
      (
        λ i e'. absurd (distinct (sym answer ∙ e')),
        nonzero (ops.get_parent size ratio root c) answer,
      )
  | no ne ↦
      let (p, answer, lt, _) = span.parent c h ne in
      (λ i e'. ground (arith, sym answer ∙ e', lt), λ e'. absurd (distinct (sym e' ∙ answer)))
]
  where
    distinct : {e i : ℕ} → err e ≢ ok i
    distinct e = cc

    code : Result ℕ → ℕ
    code (ok i) = 0
    code (err e) = e

    der_inval-positive : der_inval ≢ 0
    der_inval-positive e = omega arith

    nonzero : (res : Result ℕ) → res ≡ err der_inval → res ≢ err 0
    nonzero res e e' = absurd (der_inval-positive (sym (ap code e) ∙ ap code e'))

-- crt_tree_get_parent once the check of the parameters and the filter have succeeded.
pub get_parent_run :
    (uninit : ℕ) (membs : RankList) (exclude : Option RankList) (topo root self : ℕ) (ops : TopoOps)
    (g : Filtered)
    → checked topo root self ≡ some ops
    → filtered_grp_rank_list true true membs (excluding exclude) root self ≡ ok (some g)
    → tree_get_parent true true true uninit membs exclude topo root self
      ≡ some (
          write_parent uninit g.list
            (ops.get_parent g.list.rl_nr (tree_ratio topo) g.grp_root g.grp_self))
unfolding tree_get_parent parent_of
get_parent_run uninit membs exclude topo root self ops g check run =
    rw (check, tree_get_parent, run)

-- What the calls on one group, with one filter, one topology and one root need.
pub record IsCall (membs : RankList) (exclude : Option RankList) (topo root : ℕ) : Type 0 where
  pub members : IsValid membs
  pub twice : (q : ℕ) → count q (ranks membs) ≤ 2
  pub filter : IsValidFilter exclude
  pub topology : tree_topo_valid topo ≡ true
  pub small : membs.rl_nr * 64 + 64 < 2 ^ 31
  pub is_rank : (q : ℕ) → IsMember membs exclude q → q < no_rank
  pub root_in : IsMember membs exclude root

module _ (membs : RankList) (exclude : Option RankList) (topo root : ℕ)
    (call : IsCall membs exclude topo root) where
  abbrev get_children : ℕ → Option (Result (Option RankList))
  get_children self = tree_get_children plenty true none membs (excluding exclude) topo root self

  abbrev get_parent : ℕ → ℕ → Option (ℕ × Written)
  get_parent uninit self = tree_get_parent true true true uninit membs exclude topo root self

  -- In one group, with one filter, root and valid topology, where no rank stands more than twice
  -- among the members, the root is not left out, and memory is to be had: for two members that are
  -- not left out, crt_tree_get_children of the one succeeds, and lists the other once if
  -- crt_tree_get_parent of the other gives the one, and does not list it otherwise.
  pub children-parent :
      (p c uninit : ℕ)
      → IsMember membs exclude p
      → IsMember membs exclude c
      → (cs : Option RankList) × (get_children p ≡ some (ok cs))
        × (count c (children_ranks cs) ≡ one_if (gives_parent (get_parent uninit c) p))
  unfolding tree_get_children version_matches
  children-parent p c uninit hp hc =
      let (l, a) = available membs exclude root call.members call.twice call.filter call.root_in in
      let r = place l a.valid root (a.holds root call.root_in) in
      let s = place l a.valid p (a.holds p hp) in
      let t = place l a.valid c (a.holds c hc) in
      let small : l.rl_nr * 64 + 64 < 2 ^ 31 = omega (arith, a.size, call.small) in
      let (ops, top, span) = tops-IsSpanning topo l.rl_nr r.at call.topology small r.inside in
      let (cs, list, cnt, below, edges) = span.children s.at s.inside in
      let (res, made, res_ranks) =
        list_children_lem ops (tree_ratio topo)
          (record { list = l; grp_root = r.at; grp_self = s.at }) cs cnt list in
      let rank = call.is_rank in
      let check =
        checked_lem topo root p ops call.topology (rank root call.root_in) (rank p hp) top in
      let check' =
        checked_lem topo root c ops call.topology (rank root call.root_in) (rank c hc) top in
      let (lt, sound) = parent_answers ops l.rl_nr (tree_ratio topo) r.at t.at span t.inside in
      let answer =
        gives_parent-write_parent l a.valid a.once p uninit s
          (ops.get_parent l.rl_nr (tree_ratio topo) r.at t.at) lt sound in
      let run : tree_get_parent true true true uninit membs exclude topo root c
          ≡ some (write_parent uninit l (ops.get_parent l.rl_nr (tree_ratio topo) r.at t.at)) =
        get_parent_run uninit membs exclude topo root c ops
          (record { list = l; grp_root = r.at; grp_self = t.at }) check'
          (a.run root c ∙ places_lem l root c r t) in
      (
        res,
        rw (check, a.run root p, places_lem l root p r s, made),
        ap (count c) res_ranks
            ∙ count-ranks_at l a.valid a.once c t cs below
            ∙ edges t.at t.inside
            ∙ ap one_if (sym (ap (λ x. gives_parent x p) run ∙ answer)),
      )
