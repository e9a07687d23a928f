-- ===== src/Tree.antt =====
-- The trees along which collective calls are forwarded: src/cart/crt_tree.h, crt_tree_flat.c,
-- crt_tree_kary.c, crt_tree_knomial.c and crt_tree.c. Three kinds of rank: the primary rank is the
-- member's own number, the group rank its index in the list of members, and the tree rank counts
-- from the root. All are uint32_t, and sums and products wrap.
pub mod Ranks
pub mod Spanning
pub mod Rooted
pub mod Flat
pub mod Kary
pub mod Knomial
pub mod Group
pub mod Tests
use cart.Prelude.{
  ℕ, zero, suc, ◌+◌, ◌-◌, ◌*◌, ◌/◌, ◌%◌, ◌^◌, Bool, true, false, ◌&&◌, ◌||◌, not, Option, none,
  some, List, [], ◌∷◌, ◌++◌, map, length, get_or, ltb, leb, ◌==◌, if◌then◌else◌, Result, ok, err,
  ◌>>=◌, check, der_inval,
}

abbrev pub u32 : ℕ → ℕ
u32 x = x % 2 ^ 32

-- crt_tree_type, crt_tree_ratio and crt_tree_topo_valid of crt_tree.h, on a topology that is not
-- negative
unfoldable pub tree_type : ℕ → ℕ
tree_type tree_topo = tree_topo / 2 ^ 16

unfoldable pub tree_ratio : ℕ → ℕ
tree_ratio tree_topo = tree_topo % 2 ^ 16

unfoldable pub tree_topo_valid : ℕ → Bool
unfolding tree_type tree_ratio
tree_topo_valid topo =
    leb 1 (tree_type topo)
    && leb (tree_type topo) 3
    && (tree_type topo == 1 || leb 2 (tree_ratio topo) && leb (tree_ratio topo) 64)

-- crt_treerank_2_grprank
unfoldable pub treerank_2_grprank : (grp_size grp_root tree_rank : ℕ) → ℕ
treerank_2_grprank grp_size grp_root tree_rank = u32 (tree_rank + grp_root) % grp_size

-- crt_grprank_2_teerank
unfoldable pub grprank_2_treerank : (grp_size grp_root grp_rank : ℕ) → ℕ
grprank_2_treerank grp_size grp_root grp_rank =
    u32 (u32 (grp_rank + grp_size) + 2 ^ 32 - grp_root) % grp_size

-- struct crt_topo_ops: each operation takes the size of the group, the branch ratio, the root and
-- the rank that asks. The list of children is what the operation writes to the array.
pub record TopoOps : Type 0 where
  pub get_children_cnt : ℕ → ℕ → ℕ → ℕ → Result ℕ
  pub get_children : ℕ → ℕ → ℕ → ℕ → Result (List ℕ)
  pub get_parent : ℕ → ℕ → ℕ → ℕ → Result ℕ

-- What a failed D_ASSERT gives here: no error number is 0. The calls of crt_tree.c check the ratio
-- first, so it does not come up in them.
abbrev pub assert_failed : ℕ
assert_failed = 0

-- The assertions on the size of the group and on the branch ratio, which is between
-- CRT_TREE_MIN_RATIO and CRT_TREE_MAX_RATIO
abbrev pub arguments_valid : (grp_size ratio : ℕ) → Bool
arguments_valid grp_size ratio = ltb 0 grp_size && (leb 2 ratio && leb ratio 64)

-- The loop of crt_flat_get_children from index `i`, with the rounds left.
unfoldable pub others : ℕ → ℕ → ℕ → List ℕ
others zero i grp_root = []
others (suc n) i grp_root =
    let rest = others n (suc i) grp_root in if grp_root == i then rest else i ∷ rest

unfoldable pub flat_get_children_cnt : ℕ → ℕ → ℕ → ℕ → Result ℕ
flat_get_children_cnt grp_size ratio grp_root grp_self =
    check (ltb 0 grp_size) assert_failed (ok (if grp_self == grp_root then grp_size - 1 else 0))

unfoldable pub flat_get_children : ℕ → ℕ → ℕ → ℕ → Result (List ℕ)
unfolding others
flat_get_children grp_size ratio grp_root grp_self =
    check (ltb 0 grp_size) assert_failed
      (if grp_self == grp_root then ok (others grp_size 0 grp_root) else err der_inval)

unfoldable pub flat_get_parent : ℕ → ℕ → ℕ → ℕ → Result ℕ
flat_get_parent grp_size ratio grp_root grp_self =
    check (ltb 0 grp_size) assert_failed
      (if grp_self == grp_root then err der_inval else ok grp_root)

abbrev pub flat_ops : TopoOps
flat_ops = record {
  get_children_cnt = flat_get_children_cnt;
  get_children = flat_get_children;
  get_parent = flat_get_parent;
}

-- The loop of kary_get_children from index `i`, with the rounds left.
unfoldable pub kary_loop : (rounds i self size ratio : ℕ) → List ℕ
kary_loop zero i self size ratio = []
kary_loop (suc n) i self size ratio =
    let rank = u32 (self * ratio + i + 1) in
    if leb size rank then [] else rank ∷ kary_loop n (suc i) self size ratio

unfoldable pub kary_children : (self size ratio : ℕ) → List ℕ
kary_children self size ratio = kary_loop ratio 0 self size ratio

unfoldable pub kary_get_children_cnt : ℕ → ℕ → ℕ → ℕ → Result ℕ
kary_get_children_cnt grp_size ratio grp_root grp_self =
    check (arguments_valid grp_size ratio) assert_failed
      (ok (length (kary_children (grprank_2_treerank grp_size grp_root grp_self) grp_size ratio)))

unfoldable pub kary_get_children : ℕ → ℕ → ℕ → ℕ → Result (List ℕ)
kary_get_children grp_size ratio grp_root grp_self =
    check (arguments_valid grp_size ratio) assert_failed (
      ok (
        map (treerank_2_grprank grp_size grp_root)
          (kary_children (grprank_2_treerank grp_size grp_root grp_self) grp_size ratio)))

unfoldable pub kary_get_parent : ℕ → ℕ → ℕ → ℕ → Result ℕ
kary_get_parent grp_size ratio grp_root grp_self =
    check (arguments_valid grp_size ratio) assert_failed (
      if grp_self == grp_root
      then err der_inval
      else (let tree_self = grprank_2_treerank grp_size grp_root grp_self in
          check (not (tree_self == 0)) assert_failed
            (ok (treerank_2_grprank grp_size grp_root ((tree_self - 1) / ratio)))))

abbrev pub kary_ops : TopoOps
kary_ops = record {
  get_children_cnt = kary_get_children_cnt;
  get_children = kary_get_children;
  get_parent = kary_get_parent;
}

-- int_2_knomial_number: the digits that are not zero-filled, lowest first. There are at most 32
-- digits, and the array has 64.
unfoldable pub knomial_digits : (fuel x ratio : ℕ) → List ℕ
knomial_digits zero x ratio = []
knomial_digits (suc fuel) x ratio =
    let rest = knomial_digits fuel (x / ratio) ratio in if x == 0 then [] else (x % ratio) ∷ rest

unfoldable pub int_2_knomial_number : (x ratio : ℕ) → List ℕ
int_2_knomial_number x ratio = knomial_digits 64 x ratio

unfoldable pub knomial_number_2_int : (ratio : ℕ) → List ℕ → ℕ
knomial_number_2_int ratio [] = 0
knomial_number_2_int ratio (d ∷ ds) = u32 (knomial_number_2_int ratio ds * ratio + d)

-- The loop of knomial_get_parent, which clears the lowest digit that is not zero.
unfoldable pub clear_lowest : List ℕ → List ℕ
clear_lowest [] = []
clear_lowest (d ∷ ds) = if d == 0 then d ∷ clear_lowest ds else 0 ∷ ds

unfoldable pub knomial_parent : (self ratio : ℕ) → ℕ
knomial_parent self ratio =
    knomial_number_2_int ratio (clear_lowest (int_2_knomial_number self ratio))

-- The inner loop of knomial_get_children from index `i`; the flag tells that it returned.
unfoldable pub knomial_inner : (rounds i inc self size : ℕ) → List ℕ × Bool
knomial_inner zero i inc self size = ([], false)
knomial_inner (suc n) i inc self size =
    let child = u32 (self + u32 (i * inc)) in
    let rest = knomial_inner n (suc i) inc self size in
    if leb size child then ([], true) else (child ∷ rest.0, rest.1)

unfoldable pub knomial_outer : (rounds digit inc : ℕ) → List ℕ → (self size ratio : ℕ) → List ℕ
knomial_outer zero digit inc n self size ratio = []
knomial_outer (suc rounds) digit inc n self size ratio =
    let found = knomial_inner (ratio - 1) 1 inc self size in
    let rest = knomial_outer rounds (suc digit) (u32 (inc * ratio)) n self size ratio in
    if ltb (length n) digit || get_or n digit 0 == 0
    then (if found.1 then found.0 else found.0 ++ rest)
    else []

unfoldable pub knomial_children : (self size ratio : ℕ) → List ℕ
knomial_children self size ratio =
    knomial_outer 64 0 1 (int_2_knomial_number self ratio) self size ratio

unfoldable pub knomial_get_children_cnt : ℕ → ℕ → ℕ → ℕ → Result ℕ
knomial_get_children_cnt grp_size ratio grp_root grp_self =
    check (arguments_valid grp_size ratio) assert_failed (
      ok (length (knomial_children (grprank_2_treerank grp_size grp_root grp_self) grp_size ratio)))

unfoldable pub knomial_get_children : ℕ → ℕ → ℕ → ℕ → Result (List ℕ)
knomial_get_children grp_size ratio grp_root grp_self =
    check (arguments_valid grp_size ratio) assert_failed (
      ok (
        map (treerank_2_grprank grp_size grp_root)
          (knomial_children (grprank_2_treerank grp_size grp_root grp_self) grp_size ratio)))

unfoldable pub knomial_get_parent : ℕ → ℕ → ℕ → ℕ → Result ℕ
knomial_get_parent grp_size ratio grp_root grp_self =
    check (arguments_valid grp_size ratio) assert_failed (
      if grp_self == grp_root
      then err der_inval
      else (let tree_self = grprank_2_treerank grp_size grp_root grp_self in
          check (not (tree_self == 0)) assert_failed
            (ok (treerank_2_grprank grp_size grp_root (knomial_parent tree_self ratio)))))

abbrev pub knomial_ops : TopoOps
knomial_ops = record {
  get_children_cnt = knomial_get_children_cnt;
  get_children = knomial_get_children;
  get_parent = knomial_get_parent;
}

-- crt_tops, by the type of the tree
unfoldable pub tops : ℕ → Option TopoOps
tops t =
    if t == 1
    then some flat_ops
    else if t == 2
    then some kary_ops
    else if t == 3
    then some knomial_ops
    else none
