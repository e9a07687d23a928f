-- ===== src/Tree/Kary.antt =====
-- The k-ary topology (src/cart/crt_tree_kary.c): tree rank t has the children t * k + 1 to
-- t * k + k.
use cart.Prelude.{
  ==_refl, ℕ, zero, suc, ◌+◌, ◌-◌, ◌*◌, ◌/◌, ◌%◌, ◌^◌, ◌≤◌, ◌<◌, ◌≡◌, refl, ◌∙◌, count, All, ◌==◌,
  ltb, ◌&&◌, leb, one_if, arith, Bool-cases, inl, inr,
}
use cart.Tree.{
  kary_loop, kary_children, kary_ops, kary_get_children_cnt, kary_get_children, kary_get_parent,
}
use cart.Tree.Spanning.{IsSpanning}
use cart.Tree.Rooted.{IsTree, Computes, IsTree-IsSpanning, asserted, asserted_tree, differs}

-- With no wrap, the loop from index `i` finds the ranks from `self * ratio + i + 1` on.
count-kary_loop :
    (c n i self size ratio : ℕ)
    → self * ratio + i + n + 1 < 2 ^ 32
    → count c (kary_loop n i self size ratio)
      ≡ one_if (ltb (self * ratio + i) c && leb c (self * ratio + i + n) && ltb c size)
unfolding kary_loop
count-kary_loop c zero i self size ratio h = ground arith
count-kary_loop c (suc n) i self size ratio h =
    ground (arith, count-kary_loop c n (suc i) self size ratio)

All-kary_loop : (n i self size ratio : ℕ) → All (λ c. c < size) (kary_loop n i self size ratio)
unfolding kary_loop
All-kary_loop zero i self size ratio = tt
All-kary_loop (suc n) i self size ratio =
    elim (Bool-cases (leb size ((self * ratio + i + 1) % 2 ^ 32))) [
      | inl e ↦ rw e tt
      | inr e ↦ rw e (ground arith, All-kary_loop n (suc i) self size ratio)
    ]

div_of_range :
    (c self ratio : ℕ) → self * ratio < c → c ≤ self * ratio + ratio → (c - 1) / ratio ≡ self
div_of_range c self ratio h k = grind arith

range_of_div :
    (c self ratio : ℕ)
    → 0 < ratio
    → 0 < c
    → (c - 1) / ratio ≡ self
    → (self * ratio < c) × (c ≤ self * ratio + ratio)
range_of_div c self ratio r h e = grind arith

-- The ranks that the loop finds are those whose parent is `self`.
div_range :
    (c self ratio : ℕ)
    → 0 < ratio
    → (ltb (self * ratio) c && leb c (self * ratio + ratio)) ≡ (ltb 0 c && (c - 1) / ratio == self)
div_range c self ratio h = ground (arith, div_of_range c self ratio, range_of_div c self ratio h)

pub count-kary_children :
    (c self size ratio : ℕ)
    → 0 < ratio
    → c < size
    → self * ratio + ratio + 1 < 2 ^ 32
    → count c (kary_children self size ratio) ≡ one_if (ltb 0 c && (c - 1) / ratio == self)
unfolding kary_children
count-kary_children c self size ratio r h small =
    count-kary_loop c ratio 0 self size ratio (omega arith)
    ∙ ground (arith, div_range c self ratio r)

kary-Computes :
    (size ratio root : ℕ)
    → size ≤ 2 ^ 31
    → root < size
    → 2 ≤ ratio
    → ratio ≤ 64
    → Computes kary_ops size ratio root (λ s. kary_children s size ratio) (λ t. (t - 1) / ratio)
unfolding kary_get_children_cnt kary_get_children kary_get_parent
kary-Computes size ratio root small inside lo hi =
    let valid = asserted size ratio root inside lo hi in
    record {
      cnt = λ p. rw valid refl;
      list = λ p. rw valid refl;
      up_root = rw (valid, ==_refl root) refl;
      up =
          λ c h ne. rw (valid, differs c root ne, asserted_tree size root c small inside h ne) refl;
    }

module _ (size ratio root : ℕ) (lo : 2 ≤ ratio) (hi : ratio ≤ 64)
    (small : size * ratio + ratio < 2 ^ 31) where
  kary-IsTree : IsTree size (λ s. kary_children s size ratio) (λ t. (t - 1) / ratio)
  unfolding kary_children
  kary-IsTree = record {
    below = λ s. All-kary_loop ratio 0 s size ratio;
    smaller = λ t h k. grind arith;
    edges = λ s t h k. count-kary_children t s size ratio (omega arith) k (grind arith);
  }

  -- The k-ary topology spans every group of at most 2 ^ 31 members below its root, if the branch
  -- ratio is between 2 and 64, as the operations assert, and the size of the group plus one, times
  -- the ratio, stays below 2 ^ 31.
  pub kary-IsSpanning : size ≤ 2 ^ 31 → root < size → IsSpanning kary_ops size ratio root
  kary-IsSpanning h k =
      IsTree-IsSpanning size root h k kary_ops ratio _ _ kary-IsTree
        (kary-Computes size ratio root h k lo hi)
