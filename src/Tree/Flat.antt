-- ===== src/Tree/Flat.antt =====
-- The flat topology (src/cart/crt_tree_flat.c): every other member is a child of the root.
use cart.Prelude.{
  ℕ, zero, suc, ◌+◌, ◌-◌, ◌^◌, ◌≤◌, ◌<◌, ◌≡◌, ◌∙◌, true, false, [], length, count, All, ◌==◌, ltb,
  ◌&&◌, leb, not, if◌then◌else◌, arith,
}
use native.Mathlib.Decide.{ℕ_discrete}
use cart.Tree.{others, flat_ops, flat_get_children_cnt, flat_get_children, flat_get_parent}
use cart.Tree.Ranks.{root_tree, tree_pos}
use cart.Tree.Spanning.{IsSpanning, children_of}

count-others :
    (c n i root : ℕ)
    → count c (others n i root) ≡ (if leb i c && ltb c (i + n) && not (c == root) then 1 else 0)
unfolding others
count-others c zero i root = ground arith
count-others c (suc n) i root = ground (arith, count-others c n (suc i) root)

length-others :
    (n i root : ℕ)
    → length (others n i root) + (if leb i root && ltb root (i + n) then 1 else 0) ≡ n
unfolding others
length-others zero i root = ground arith
length-others (suc n) i root = ground (arith, length-others n (suc i) root)

All-others : (n i root size : ℕ) → i + n ≡ size → All (λ c. c < size) (others n i root)
unfolding others
All-others zero i root size e = tt
All-others (suc n) i root size e = elim (ℕ_discrete root i) [
  | yes same ↦
      let test : (root == i) ≡ true = ground arith in
      rw test (All-others n (suc i) root size (omega arith))
  | no differ ↦
      let test : (root == i) ≡ false = ground arith in
      rw test (omega arith, All-others n (suc i) root size (omega arith))
]

module _ (size ratio root : ℕ) (small : size ≤ 2 ^ 31) (inside : root < size) where
  -- In every group of at most 2 ^ 31 members the flat topology spans the group below its root.
  pub flat-IsSpanning : IsSpanning flat_ops size ratio root
  unfolding flat_get_parent flat_get_children_cnt flat_get_children children_of
  flat-IsSpanning = record {
    root_parent = ground arith;
    parent = λ c h ne. (
      root,
      ground arith,
      inside,
      omega (arith, root_tree size root small inside, tree_pos size root small inside c h ne),
    );
    children = λ p h. elim (ℕ_discrete p root) [
      | yes same ↦
          let test : (p == root) ≡ true = ground arith in
          let n : length (others size 0 root) ≡ size - 1 =
            ground (arith, length-others size 0 root) in
          (
            others size 0 root,
            ground (arith, n),
            ground (arith, n),
            All-others size 0 root size (omega arith),
            λ c k. count-others c size 0 root ∙ ground arith,
          )
      | no differ ↦ ([], ground arith, ground arith, tt, λ c k. ground arith)
    ];
  }
