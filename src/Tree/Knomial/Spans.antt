-- ===== src/Tree/Knomial/Spans.antt =====
-- The children that knomial_get_children finds are the ranks whose parent knomial_get_parent gives
-- (src/cart/crt_tree_knomial.c).
use cart.Prelude.{
  ==_refl, ℕ, zero, suc, ◌+◌, ◌-◌, ◌*◌, ◌/◌, ◌%◌, ◌^◌, ◌≤◌, ◌<◌, ◌≡◌, ◌≢◌, refl, ap, sym, ◌∙◌, List,
  [], ◌++◌, length, get_or, ◌==◌, arith, true, false, ◌||◌, ◌&&◌, leb, ltb, All, count, one_if,
  Bool-cases, inl, inr, count-append,
}
use native.Mathlib.Decide.{ℕ_discrete, dec_lt}
use native.Mathlib.Nat.{add-zero}
use cart.Tree.{
  knomial_inner, knomial_outer, u32, knomial_digits, knomial_children, int_2_knomial_number,
  knomial_ops, knomial_parent, knomial_get_children_cnt, knomial_get_children, knomial_get_parent,
}
use cart.Tree.Knomial.Digits.{
  parent_in, digits_zero, halve, parent_in_digit, parent_in_scale, parent_in-lt, parent_in_multiple,
}
use cart.Tree.Knomial.Loops.{
  count-knomial_inner, All-knomial_inner, knomial_inner_stop, knomial_inner_go,
  knomial_inner_multiples, IsMultiple, All-append, multiples_coarser, count_multiples, get_or-past,
  cancel,
}
use cart.Tree.Spanning.{IsSpanning}
use cart.Tree.Rooted.{IsTree, IsTree-IsSpanning, asserted, asserted_tree, differs}

u32_small : (x : ℕ) → x < 2 ^ 32 → u32 x ≡ x
u32_small x h = omega arith

le_mul : (k m : ℕ) → 0 < m → k ≤ k * m
le_mul k m h = grind arith

mul_mono : (a b m : ℕ) → a ≤ b → a * m ≤ b * m
mul_mono a b m h = grind arith

down_mul : (s inc r : ℕ) → s % r ≡ 0 → s / r * (inc * r) ≡ s * inc
down_mul s inc r e =
    let d : s / r * r ≡ s = grind arith in
    let regroup : s / r * (inc * r) ≡ s / r * r * inc = omega arith in regroup ∙ ap (λ x. x * inc) d

block : (s k r : ℕ) → s % r ≡ 0 → s < k → k ≤ s + (r - 1) → k / r * r ≡ s
block s k r e lt le =
    let a : s / r * r ≡ s = grind arith in
    let b : k / r * r + k % r ≡ k = grind arith in
    let m : k % r < r = grind arith in
    let same : k / r ≡ s / r = grind arith in ap (λ x. x * r) same ∙ a

block_back : (s k r : ℕ) → 2 ≤ r → k % r ≢ 0 → k / r * r ≡ s → (s < k) × (k ≤ s + (r - 1))
block_back s k r h ne e =
    let b : k / r * r + k % r ≡ k = grind arith in let m : k % r < r = grind arith in omega arith

none_between : (s k r : ℕ) → s % r ≡ 0 → k % r ≡ 0 → s < k → s + r ≤ k
none_between s k r e d lt =
    let a : s / r * r ≡ s = grind arith in
    let b : k / r * r ≡ k = grind arith in
    let q : s / r < k / r = grind arith in
    let step : (s / r + 1) * r ≤ k / r * r = grind arith in omega arith

close : (s k r : ℕ) → (s < k → s + r ≤ k) → (s + r ≤ k → ⊥) → k ≤ s
close s k r gap out = elim (dec_lt s k) [ yes lt ↦ absurd (out (gap lt)) | no nlt ↦ omega arith ]

quotient_pos : (k r : ℕ) → 2 ≤ r → k % r ≡ 0 → ltb 0 k ≡ ltb 0 (k / r)
quotient_pos k r h e =
    let a : k / r * r ≡ k = grind arith in
    elim (ℕ_discrete (k / r) 0) [
      | yes z ↦ let z' : k ≡ 0 = sym a ∙ rw z (omega arith) in ground arith
      | no nz ↦ let nz' : 0 < k = grind arith in ground arith
    ]

quotient_eq : (p s r : ℕ) → 2 ≤ r → s % r ≡ 0 → (p * r == s) ≡ (p == s / r)
quotient_eq p s r h e =
    let a : s / r * r ≡ s = grind arith in
    elim (ℕ_discrete p (s / r)) [
      | yes same ↦ rw (same, a) (ground arith)
      | no ne ↦
          let ne' : p * r ≢ s = λ e'. ne (cancel p (s / r) r (omega arith) (e' ∙ sym a)) in
          ground arith
    ]

module _ (size ratio : ℕ) (r : 2 ≤ ratio) (small : size * ratio + size < 2 ^ 32) where
  -- Where the outer loop stands: at digit `d`, with `s` the higher digits of the rank.
  record Level (f d inc s : ℕ) (n : List ℕ) : Type 0 where
    pos : 0 < inc
    inside : s * inc < size
    bound : inc ≤ size * ratio
    fuel : s < 2 ^ f
    digits : (j : ℕ) → get_or n (d + j) 0 ≡ get_or (knomial_digits f s ratio) j 0

  digit : (f d inc s : ℕ) (n : List ℕ) → Level (suc f) d inc s n → get_or n d 0 ≡ s % ratio
  unfolding knomial_digits
  digit f d inc s n l =
      let same : d + 0 ≡ d = omega arith in
      let at = rw same at (l.digits 0) in
      elim (ℕ_discrete s 0) [
        | yes e ↦ at ∙ rw e (grind arith)
        | no ne ↦ let test : (s == 0) ≡ false = ground arith in at ∙ rw test refl
      ]

  cond : (n : List ℕ) (d : ℕ) → (ltb (length n) d || get_or n d 0 == 0) ≡ (get_or n d 0 == 0)
  cond n d = elim (Bool-cases (ltb (length n) d)) [
    | inl past ↦ rw (past, get_or-past n d 0 (ground arith)) refl
    | inr at ↦ rw at refl
  ]

  Level-next :
      (f d inc s : ℕ) (n : List ℕ)
      → Level (suc f) d inc s n
      → s % ratio ≡ 0
      → inc < size
      → Level f (suc d) (inc * ratio) (s / ratio) n
  unfolding knomial_digits
  Level-next f d inc s n l e lt =
      let down : s / ratio * ratio ≡ s = grind arith in
      let same : s / ratio * (inc * ratio) ≡ s * inc = rw (← down) (grind arith) in
      record {
        pos = grind (arith, l.pos);
        inside = omega (arith, l.inside);
        bound = grind arith;
        fuel = halve ratio r f s l.fuel;
        digits = λ j.
            let shift : d + suc j ≡ suc d + j = omega arith in
            let at = rw shift at (l.digits (suc j)) in
            elim (ℕ_discrete s 0) [
              | yes z ↦
                  let q : 0 / ratio ≡ 0 = grind arith in at ∙ rw (z, q, digits_zero ratio r f) refl
              | no ne ↦ let test : (s == 0) ≡ false = ground arith in at ∙ rw test refl
            ];
      }

  outer_all :
      (f d inc : ℕ) (n : List ℕ) (self : ℕ)
      → All (λ c. c < size) (knomial_outer f d inc n self size ratio)
  unfolding knomial_outer
  outer_all zero d inc n self = tt
  outer_all (suc f) d inc n self =
      let here = All-knomial_inner size inc (ratio - 1) 1 self in
      let rest = outer_all f (suc d) (u32 (inc * ratio)) n self in
      let both = All-append (λ c. c < size) _ _ here rest in
      elim (Bool-cases (ltb (length n) d || get_or n d 0 == 0)) [
        | inr no_more ↦ rw no_more tt
        | inl more ↦ elim (Bool-cases (knomial_inner (ratio - 1) 1 inc self size).1) [
          | inl stop ↦ rw (more, stop) here
          | inr go ↦ rw (more, go) both
        ]
      ]

  -- One round of the outer loop, by the digit and by whether the inner loop returned.
  outer_round :
      (f d inc s : ℕ) (n : List ℕ)
      → Level (suc f) d inc s n
      → let found = knomial_inner (ratio - 1) 1 inc (s * inc) size in
        let rest = knomial_outer f (suc d) (inc * ratio) n (s * inc) size ratio in
        (s % ratio ≢ 0 → knomial_outer (suc f) d inc n (s * inc) size ratio ≡ [])
        × (s % ratio ≡ 0
            → found.1 ≡ true
            → knomial_outer (suc f) d inc n (s * inc) size ratio ≡ found.0)
        × (s % ratio ≡ 0
            → found.1 ≡ false
            → (inc < size) × (knomial_outer (suc f) d inc n (s * inc) size ratio ≡ found.0 ++ rest))
  unfolding knomial_outer
  outer_round f d inc s n l =
      let at = digit f d inc s n l in
      rw (cond n d, at)
        (
          λ ne. (let t : (s % ratio == 0) ≡ false = ground arith in rw t),
          λ e stop. (let t : (s % ratio == 0) ≡ true = ground arith in rw (t, stop)),
          λ e go.
              let t : (s % ratio == 0) ≡ true = ground arith in
              let start : (s + 0) * inc < size = rw add-zero l.inside in
              let top =
                knomial_inner_go s inc size l.pos (omega (arith, l.bound)) (ratio - 1) 0 start go in
              let lt : inc < size = grind (arith, l.pos) in
              let word : u32 (inc * ratio) ≡ inc * ratio = u32_small (inc * ratio) (grind arith) in
              (lt, rw (t, go, word)),
        )

  outer_multiples :
      (f d inc s : ℕ) (n : List ℕ)
      → Level f d inc s n
      → All (IsMultiple inc) (knomial_outer f d inc n (s * inc) size ratio)
  unfolding knomial_outer
  outer_multiples zero d inc s n l = tt
  outer_multiples (suc f) d inc s n l =
      let round = outer_round f d inc s n l in
      let start : (s + 0) * inc < size = rw add-zero l.inside in
      let room : size + inc < 2 ^ 32 = omega (arith, l.bound) in
      let here = knomial_inner_multiples s inc size l.pos room (ratio - 1) 0 start in
      elim (ℕ_discrete (s % ratio) 0) [
        | no ne ↦ rw (round.0 ne) tt
        | yes e ↦ elim (Bool-cases (knomial_inner (ratio - 1) 1 inc (s * inc) size).1) [
          | inl stop ↦ rw (round.1 e stop) here
          | inr go ↦
              let (lt, eq) = round.2 e go in
              let down = down_mul s inc ratio e in
              let rest = rw down at (
                outer_multiples f (suc d) (inc * ratio) (s / ratio) n
                  (Level-next f d inc s n l e lt)) in
              rw eq (All-append (IsMultiple inc) _ _ here (multiples_coarser inc ratio _ rest))
        ]
      ]

  -- The ranks between two multiples of the branch ratio have the lower one as parent.
  between :
      (f s k : ℕ)
      → k < 2 ^ suc f
      → k < 2 ^ 32
      → s % ratio ≡ 0
      → k % ratio ≢ 0
      → (ltb (s + 0) k && leb k (s + 0 + (ratio - 1))) ≡ (ltb 0 k && parent_in (suc f) k ratio == s)
  between f s k h w e ne =
      rw (parent_in_digit ratio r f k h w ne)
        (ground (arith, block s k ratio e, block_back s k ratio r ne))

  -- The inner loop has reached the end of the group: no child of a later round is in the group.
  outer_stop :
      (f d inc s : ℕ) (n : List ℕ) (k : ℕ)
      → Level (suc f) d inc s n
      → k < 2 ^ suc f
      → k * inc < size
      → s % ratio ≡ 0
      → (knomial_inner (ratio - 1) 1 inc (s * inc) size).1 ≡ true
      → one_if (ltb (s + 0) k && leb k (s + 0 + (ratio - 1)))
        ≡ one_if (ltb 0 k && parent_in (suc f) k ratio == s)
  outer_stop f d inc s n k l h c e stop =
      let start : (s + 0) * inc < size = rw add-zero l.inside in
      let room : size + inc < 2 ^ 32 = omega (arith, l.bound) in
      let word : k < 2 ^ 32 = omega (arith, le_mul k inc l.pos) in
      elim (ℕ_discrete (k % ratio) 0) [
        | no off ↦ ap one_if (between f s k h word e off)
        | yes on ↦
            let top = knomial_inner_stop s inc size l.pos room (ratio - 1) 0 start stop in
            let gap = none_between s k ratio e on in
            let out : s + ratio ≤ k → ⊥ = λ far.
              let up = mul_mono (s + 0 + (ratio - 1)) k inc (omega arith) in
              omega (arith, up, top) in
            let below : 0 < k → parent_in (suc f) k ratio < k =
              λ p. parent_in-lt ratio r (suc f) k p h word in
            let none_here : k ≤ s = close s k ratio gap out in ground arith
      ]

  outer_count :
      (f d inc s : ℕ) (n : List ℕ) (k : ℕ)
      → Level f d inc s n
      → k < 2 ^ f
      → k * inc < size
      → count (k * inc) (knomial_outer f d inc n (s * inc) size ratio)
        ≡ one_if (ltb 0 k && parent_in f k ratio == s)
  outer_count zero d inc s n k l h c =
      (let z : k ≡ 0 = omega arith in unfold knomial_outer in ground arith)
  outer_count (suc f) d inc s n k l h c =
      let round = outer_round f d inc s n l in
      let start : (s + 0) * inc < size = rw add-zero l.inside in
      let room : size + inc < 2 ^ 32 = omega (arith, l.bound) in
      let word : k < 2 ^ 32 = omega (arith, le_mul k inc l.pos) in
      let here = count-knomial_inner s inc size l.pos room (ratio - 1) 0 k start c in
      let mult = parent_in_multiple ratio r (suc f) k h word in
      elim (ℕ_discrete (s % ratio) 0) [
        | no ne ↦
            rw (round.0 ne)
              (let other : parent_in (suc f) k ratio ≢ s = λ e. ne (rw e at mult) in ground arith)
        | yes e ↦ elim (Bool-cases (knomial_inner (ratio - 1) 1 inc (s * inc) size).1) [
          | inl stop ↦ rw (round.1 e stop, here) (outer_stop f d inc s n k l h c e stop)
          | inr go ↦
              let (lt, eq) = round.2 e go in
              let down = down_mul s inc ratio e in
              let next = Level-next f d inc s n l e lt in
              rw (eq, count-append, here)
                (elim (ℕ_discrete (k % ratio) 0) [
                  | no off ↦
                      let mults =
                        rw down at (outer_multiples f (suc d) (inc * ratio) (s / ratio) n next) in
                      rw (count_multiples k inc ratio _ l.pos (omega arith) off mults, add-zero)
                        (ap one_if (between f s k h word e off))
                  | yes on ↦
                      let gap = none_between s k ratio e on in
                      let ih =
                        outer_count f (suc d) (inc * ratio) (s / ratio) n (k / ratio) next
                          (halve ratio r f k h) (rw (down_mul k inc ratio on) c) in
                      let at = rw (down, down_mul k inc ratio on) at ih in
                      let q = quotient_eq (parent_in f (k / ratio) ratio) s ratio r e in
                      let pos : ltb 0 k ≡ ltb 0 (k / ratio) = quotient_pos k ratio r on in
                      rw (at, parent_in_scale ratio r f k h word on, q, pos) (ground arith)
                ])
        ]
      ]

  knomial_start : (s : ℕ) → s < size → Level 64 0 1 s (int_2_knomial_number s ratio)
  unfolding int_2_knomial_number
  knomial_start s h =
      let wide : size < 2 ^ 64 = omega arith in
      record {
        pos = omega arith;
        inside = omega arith;
        bound = grind arith;
        fuel = omega arith;
        digits = λ j. let z : 0 + j ≡ j = omega arith in rw z;
      }

  knomial-IsTree : IsTree size (λ s. knomial_children s size ratio) (λ t. knomial_parent t ratio)
  unfolding knomial_children knomial_parent parent_in int_2_knomial_number
  knomial-IsTree = record {
    below = λ s. outer_all 64 0 1 (int_2_knomial_number s ratio) s;
    smaller = λ t h k. parent_in-lt ratio r 64 t h (omega arith) (omega arith);
    edges = λ s t h k.
        let one_t : t * 1 ≡ t = omega arith in
        let one_s : s * 1 ≡ s = omega arith in
        rw (one_t, one_s) at
          (outer_count 64 0 1 s (int_2_knomial_number s ratio) t (knomial_start s h) (omega arith)
            (omega arith));
  }

  -- The k-nomial topology spans every group of at most 2 ^ 31 members below its root, if the
  -- branch ratio is between 2 and 64, as the operations assert, and the size of the group times the
  -- ratio, plus the size, stays below 2 ^ 32.
  pub knomial-IsSpanning :
      (root : ℕ) → ratio ≤ 64 → size ≤ 2 ^ 31 → root < size → IsSpanning knomial_ops size ratio root
  unfolding knomial_get_children_cnt knomial_get_children knomial_get_parent
  knomial-IsSpanning root hi h k =
      let valid = asserted size ratio root k r hi in
      IsTree-IsSpanning size root h k knomial_ops ratio _ _ knomial-IsTree (record {
        cnt = λ p. rw valid refl;
        list = λ p. rw valid refl;
        up_root = rw (valid, ==_refl root) refl;
        up = λ c lt ne. rw (valid, differs c root ne, asserted_tree size root c h k lt ne) refl;
      })
