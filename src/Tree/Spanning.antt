-- ===== src/Tree/Spanning.antt =====
-- What a topology promises to the calls that use it (struct crt_topo_ops of src/cart/crt_tree.h).
use cart.Prelude.{
  ℕ, ◌<◌, ◌≡◌, ◌≢◌, Bool, false, List, [], length, count, All, ◌==◌, if◌then◌else◌, one_if, Result,
  ok, err, ◌>>=◌, der_inval,
}
use cart.Tree.{TopoOps, grprank_2_treerank}

-- The children as the callers ask for them: the count first, and the list if it is not 0.
unfoldable pub children_of : TopoOps → (size ratio root self : ℕ) → Result (List ℕ)
children_of ops size ratio root self = do
  n ← ops.get_children_cnt size ratio root self
  if n == 0 then ok [] else ops.get_children size ratio root self

-- Whether `get_parent` gives this rank as the parent.
abbrev pub is_parent : Result ℕ → ℕ → Bool
is_parent (ok q) p = q == p
is_parent (err e) p = false

-- A topology spans the group below its root. No operation fails but `get_parent` of the root; each
-- rank stands once among the children of its parent and in no other list of children, and parents
-- are nearer to the root in the order of the tree ranks.
pub record IsSpanning (ops : TopoOps) (size ratio root : ℕ) : Type 0 where
  pub root_parent : ops.get_parent size ratio root root ≡ err der_inval
  pub parent :
      (c : ℕ)
      → c < size
      → c ≢ root
      → (p : ℕ) × (ops.get_parent size ratio root c ≡ ok p)
        × (p < size)
        × (grprank_2_treerank size root p < grprank_2_treerank size root c)
  pub children :
      (p : ℕ)
      → p < size
      → (cs : List ℕ) × (children_of ops size ratio root p ≡ ok cs)
        × (ops.get_children_cnt size ratio root p ≡ ok (length cs))
        × All (λ c. c < size) cs
        × ((c : ℕ)
            → c < size
            → count c cs ≡ one_if (is_parent (ops.get_parent size ratio root c) p))
