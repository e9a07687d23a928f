-- ===== src/Tree/Ranks.antt =====
-- Tree ranks and group ranks are two numberings of one group (src/cart/crt_tree.h).
use cart.Prelude.{ℕ, ◌+◌, ◌-◌, ◌%◌, ◌^◌, ◌≤◌, ◌<◌, ◌≡◌, ◌≢◌, ◌↔◌, ◌∙◌, refl, arith}
use native.Mathlib.Decide.{dec_lt, ℕ_discrete}
use cart.Tree.{treerank_2_grprank, grprank_2_treerank}

mod_small : (x n : ℕ) → x < n → x % n ≡ x
mod_small x n h = grind arith

mod_once : (x n : ℕ) → n ≤ x → x < n + n → x % n ≡ x - n
mod_once x n h k = grind arith

module _ (size root : ℕ) (small : size ≤ 2 ^ 31) (inside : root < size) where
  -- The two maps, without their wraps.
  pub to_group :
      (t : ℕ)
      → t < size
      → (t + root < size → treerank_2_grprank size root t ≡ t + root)
        × (size ≤ t + root → treerank_2_grprank size root t ≡ t + root - size)
  unfolding treerank_2_grprank
  to_group t h =
      let word : (t + root) % 2 ^ 32 ≡ t + root = omega arith in
      rw word (λ k. mod_small (t + root) size k, λ k. mod_once (t + root) size k (omega arith))

  pub to_tree :
      (g : ℕ)
      → g < size
      → (root ≤ g → grprank_2_treerank size root g ≡ g - root)
        × (g < root → grprank_2_treerank size root g ≡ g + size - root)
  unfolding grprank_2_treerank
  to_tree g h =
      let word : ((g + size) % 2 ^ 32 + 2 ^ 32 - root) % 2 ^ 32 ≡ g + size - root = omega arith in
      rw word (
        λ k. mod_once (g + size - root) size (omega arith) (omega arith) ∙ omega arith,
        λ k. mod_small (g + size - root) size (omega arith),
      )

  pub to_group_lt : (t : ℕ) → t < size → treerank_2_grprank size root t < size
  to_group_lt t h = elim (dec_lt (t + root) size) [
    | yes k ↦ rw ((to_group t h).0 k) k
    | no k ↦ rw ((to_group t h).1 (omega arith)) (omega arith)
  ]

  pub to_tree_lt : (g : ℕ) → g < size → grprank_2_treerank size root g < size
  to_tree_lt g h = elim (dec_lt g root) [
    | yes k ↦ rw ((to_tree g h).1 k) (omega arith)
    | no k ↦ rw ((to_tree g h).0 (omega arith)) (omega arith)
  ]

  -- In a group of at most 2 ^ 31 members, which has the root, a group rank that is turned into a
  -- tree rank and back is itself.
  pub group_tree :
      (g : ℕ) → g < size → treerank_2_grprank size root (grprank_2_treerank size root g) ≡ g
  group_tree g h = elim (dec_lt g root) [
    | yes k ↦
        rw ((to_tree g h).1 k)
          ((to_group (g + size - root) (omega arith)).1 (omega arith) ∙ omega arith)
    | no k ↦
        rw ((to_tree g h).0 (omega arith))
          ((to_group (g - root) (omega arith)).0 (omega arith) ∙ omega arith)
  ]

  pub tree_group :
      (t : ℕ) → t < size → grprank_2_treerank size root (treerank_2_grprank size root t) ≡ t
  tree_group t h = elim (dec_lt (t + root) size) [
    | yes k ↦ rw ((to_group t h).0 k) ((to_tree (t + root) k).0 (omega arith) ∙ omega arith)
    | no k ↦
        rw ((to_group t h).1 (omega arith))
          ((to_tree (t + root - size) (omega arith)).1 (omega arith) ∙ omega arith)
  ]

  -- The root is the tree rank 0, and no other rank is.
  pub root_zero : (g : ℕ) → g < size → (grprank_2_treerank size root g ≡ 0) ↔ (g ≡ root)
  root_zero g h = elim (dec_lt g root) [
    | yes k ↦ rw ((to_tree g h).1 k) (λ e. omega arith, λ e. omega arith)
    | no k ↦ rw ((to_tree g h).0 (omega arith)) (λ e. omega arith, λ e. omega arith)
  ]

  pub root_tree : grprank_2_treerank size root root ≡ 0
  root_tree = (root_zero root inside).1 refl

  pub tree_pos : (g : ℕ) → g < size → g ≢ root → 0 < grprank_2_treerank size root g
  tree_pos g h ne = elim (ℕ_discrete (grprank_2_treerank size root g) 0) [
    | yes e ↦ absurd (ne ((root_zero g h).0 e))
    | no e ↦ omega arith
  ]
