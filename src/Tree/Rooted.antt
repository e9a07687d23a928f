-- ===== src/Tree/Rooted.antt =====
-- From a tree over tree ranks to a topology over group ranks: what crt_tree_kary.c and
-- crt_tree_knomial.c (src/cart) have in common.
use cart.Prelude.{
  ℕ, suc, ◌^◌, ◌≤◌, ◌<◌, ◌≡◌, ◌≢◌, refl, ap, sym, ◌∙◌, true, false, not, List, [], ◌∷◌, map, length,
  count, All, ◌==◌, ltb, ◌&&◌, one_if, ok, err, der_inval, arith,
}
use native.Mathlib.Decide.{ℕ_discrete}
use cart.Tree.{TopoOps, arguments_valid, treerank_2_grprank, grprank_2_treerank}
use cart.Tree.Ranks.{to_group_lt, to_tree_lt, group_tree, tree_group, root_tree, tree_pos}
use cart.Tree.Spanning.{IsSpanning, children_of, is_parent}

-- A tree over the ranks below `size`: each but 0 is once among the children of its parent, which
-- is a smaller rank.
pub record IsTree (size : ℕ) (kids : ℕ → List ℕ) (par : ℕ → ℕ) : Type 0 where
  pub below : (s : ℕ) → All (λ t. t < size) (kids s)
  pub smaller : (t : ℕ) → 0 < t → t < size → par t < t
  pub edges : (s t : ℕ) → s < size → t < size → count t (kids s) ≡ one_if (ltb 0 t && par t == s)

-- The operations of a topology, by the tree that they compute with.
pub record Computes (ops : TopoOps) (size ratio root : ℕ) (kids : ℕ → List ℕ) (par : ℕ → ℕ)
    : Type 0 where
  pub cnt :
      (p : ℕ)
      → ops.get_children_cnt size ratio root p ≡ ok (length (kids (grprank_2_treerank size root p)))
  pub list :
      (p : ℕ)
      → ops.get_children size ratio root p
        ≡ ok (map (treerank_2_grprank size root) (kids (grprank_2_treerank size root p)))
  pub up_root : ops.get_parent size ratio root root ≡ err der_inval
  pub up :
      (c : ℕ)
      → c < size
      → c ≢ root
      → ops.get_parent size ratio root c
        ≡ ok (treerank_2_grprank size root (par (grprank_2_treerank size root c)))

-- The assertions of the k-ary and the k-nomial operations hold.
pub asserted :
    (size ratio root : ℕ) → root < size → 2 ≤ ratio → ratio ≤ 64 → arguments_valid size ratio ≡ true
asserted size ratio root inside lo hi = ground arith

pub asserted_tree :
    (size root c : ℕ)
    → size ≤ 2 ^ 31
    → root < size
    → c < size
    → c ≢ root
    → not (grprank_2_treerank size root c == 0) ≡ true
asserted_tree size root c small inside h ne = ground (arith, tree_pos size root small inside c h ne)

pub differs : (c root : ℕ) → c ≢ root → (c == root) ≡ false
differs c root ne = ground arith

length-map : (f : ℕ → ℕ) (xs : List ℕ) → length (map f xs) ≡ length xs
length-map f [] = refl
length-map f (x ∷ xs) = ap suc (length-map f xs)

module _ (size root : ℕ) (small : size ≤ 2 ^ 31) (inside : root < size) where
  All-map :
      (ts : List ℕ)
      → All (λ t. t < size) ts
      → All (λ t. t < size) (map (treerank_2_grprank size root) ts)
  All-map [] a = tt
  All-map (t ∷ ts) a = (to_group_lt size root small inside t a.0, All-map ts a.1)

  count-map :
      (c : ℕ) (ts : List ℕ)
      → c < size
      → All (λ t. t < size) ts
      → count c (map (treerank_2_grprank size root) ts) ≡ count (grprank_2_treerank size root c) ts
  count-map c [] h a = refl
  count-map c (t ∷ ts) h a = elim (ℕ_discrete c (treerank_2_grprank size root t)) [
    | yes e ↦
        let e' : grprank_2_treerank size root c ≡ t =
          rw e (tree_group size root small inside t a.0) in
        ground (arith, count-map c ts h a.1)
    | no ne ↦
        let ne' : grprank_2_treerank size root c ≢ t = λ e.
          ne (sym (group_tree size root small inside c h) ∙ ap (treerank_2_grprank size root) e) in
        ground (arith, count-map c ts h a.1)
  ]

  module _ (ops : TopoOps) (ratio : ℕ) (kids : ℕ → List ℕ) (par : ℕ → ℕ) where
    parent_iff :
        IsTree size kids par
        → Computes ops size ratio root kids par
        → (c p : ℕ) → c < size
        → p < size
        → one_if (
            ltb 0 (grprank_2_treerank size root c)
            && par (grprank_2_treerank size root c) == grprank_2_treerank size root p)
          ≡ one_if (is_parent (ops.get_parent size ratio root c) p)
    parent_iff tree run c p h k = elim (ℕ_discrete c root) [
      | yes e ↦ rw (e, run.up_root, root_tree size root small inside) (ground arith)
      | no ne ↦
          let pos = tree_pos size root small inside c h ne in
          let t = grprank_2_treerank size root c in
          let lt : par t < size = omega (
            arith,
            tree.smaller t pos (to_tree_lt size root small inside c h),
            to_tree_lt size root small inside c h,
          ) in
          let back = tree_group size root small inside (par t) lt in
          let forth = group_tree size root small inside p k in
          elim (ℕ_discrete (par t) (grprank_2_treerank size root p)) [
            | yes same ↦
                let same' : treerank_2_grprank size root (par t) ≡ p =
                  ap (treerank_2_grprank size root) same ∙ forth in
                rw (run.up c h ne) (ground arith)
            | no differ ↦
                let differ' : treerank_2_grprank size root (par t) ≢ p =
                  λ e. differ (sym back ∙ ap (grprank_2_treerank size root) e) in
                rw (run.up c h ne) (ground arith)
          ]
    ]

    list_of :
        {p : ℕ} (ks : List ℕ)
        → ops.get_children_cnt size ratio root p ≡ ok (length ks)
        → ops.get_children size ratio root p ≡ ok (map (treerank_2_grprank size root) ks)
        → children_of ops size ratio root p ≡ ok (map (treerank_2_grprank size root) ks)
    unfolding children_of
    list_of [] e l = rw e
    list_of (k ∷ ks) e l = rw e (ground (arith, l))

    pub IsTree-IsSpanning :
        IsTree size kids par
        → Computes ops size ratio root kids par
        → IsSpanning ops size ratio root
    unfolding children_of
    IsTree-IsSpanning tree run = record {
      root_parent = run.up_root;
      parent = λ c h ne.
          let t = grprank_2_treerank size root c in
          let t_lt = to_tree_lt size root small inside c h in
          let lt = tree.smaller t (tree_pos size root small inside c h ne) t_lt in
          let p_lt : par t < size = omega (arith, lt, t_lt) in
          (
            treerank_2_grprank size root (par t),
            run.up c h ne,
            to_group_lt size root small inside (par t) p_lt,
            rw (tree_group size root small inside (par t) p_lt) lt,
          );
      children = λ p h.
          let s = grprank_2_treerank size root p in
          let cs = map (treerank_2_grprank size root) (kids s) in
          let n : length cs ≡ length (kids s) =
            length-map (treerank_2_grprank size root) (kids s) in
          (
            cs,
            list_of (kids s) (run.cnt p) (run.list p),
            run.cnt p ∙ ap ok (sym n),
            All-map (kids s) (tree.below s),
            λ c k.
                count-map c (kids s) k (tree.below s)
                ∙ tree.edges s (grprank_2_treerank size root c)
                    (to_tree_lt size root small inside p h) (to_tree_lt size root small inside c k)
                ∙ parent_iff tree run c p k h,
          );
    }
