-- ===== src/RankList/Filter.antt =====
-- What d_rank_list_filter (src/gurt/misc.c) leaves.
use cart.Prelude.{
  ℕ, zero, suc, ◌+◌, ◌-◌, ◌≤◌, ◌<◌, ◌≡◌, not, refl, ap, ◌∙◌, List, [], ◌∷◌, ◌++◌, length, get_or,
  ltb, lt→ltb, le→ltb, if◌then◌else◌, arith, Bool-cases, inl, inr, drop, take-append-drop,
  length-take, Bool, true, false, keep_if, some,
}
use mathlib.Core.Path.{fun_ext}
use native.Mathlib.Decide.{ℕ_discrete}
use cart.RankList.{
  in_rank_list, RankList, IsValid, ranks, Pass, filter_round, filter_loop, filtered_out, filter_set,
  filter,
}
use cart.RankList.Shift.{shift-cons, shift_down}
use cart.RankList.Leaves.{Leaves, push, push-Leaves, Leaves-ranks}

if-suc : (b : Bool) (i : ℕ) → (if b then suc i else suc (suc i)) ≡ suc (if b then i else suc i)
if-suc true i = refl
if-suc false i = refl

module _ (drops : ℕ → Bool) where
  filter_round-push :
      (n i x : ℕ) (p : Pass)
      → filter_round drops (suc n) (suc i) (push x p) ≡ push x (filter_round drops n i p)
  unfolding filter_round
  filter_round-push n i x p =
      let rounds : suc n - 1 - suc i ≡ n - 1 - i = omega arith in
      rw rounds (ground (arith, shift-cons (n - 1 - i) i x p.cells))

  filter_loop-push :
      (f n i x : ℕ) (p : Pass)
      → filter_loop drops f (suc n) (suc i) (push x p) ≡ push x (filter_loop drops f n i p)
  unfolding filter_loop
  filter_loop-push zero n i x p = refl
  filter_loop-push (suc f) n i x p =
      let q = filter_round drops n i p in
      let test : ltb (suc i) (suc n - p.removed) ≡ ltb i (n - p.removed) = ground arith in
      let i' = if drops (get_or p.cells i 0) then i else suc i in
      rw (test, filter_round-push n i x p, if-suc (drops (get_or p.cells i 0)) i)
        (rw (filter_loop-push f n i' x q) (ground arith))

  filter_loop-stop : (f n i : ℕ) (p : Pass) → n - p.removed ≤ i → filter_loop drops f n i p ≡ p
  unfolding filter_loop
  filter_loop-stop zero n i p h = refl
  filter_loop-stop (suc f) n i p h = rw (le→ltb i (n - p.removed) h)

  filter_loop-go :
      (f n i : ℕ) (p : Pass)
      → i < n - p.removed
      → filter_loop drops (suc f) n i p
        ≡ filter_loop drops f n
            (if drops (get_or p.cells i 0) then i else suc i)
            (filter_round drops n i p)
  unfolding filter_loop
  filter_loop-go f n i p h = rw (lt→ltb i (n - p.removed) h)

  abbrev pass : ℕ → List ℕ → List ℕ → Pass
  pass d es junk = record { removed = d; cells = es ++ junk }

  filter_round_gone :
      (n d x : ℕ) (es junk : List ℕ)
      → n ≡ suc (length es) + d
      → d ≤ length junk
      → drops x ≡ true
      → (rest : List ℕ) × (filter_round drops n 0 (pass d (x ∷ es) junk) ≡ pass (d + 1) es rest)
        × (length rest ≡ length junk + 1)
  unfolding filter_round
  filter_round_gone n d x es junk e h gone =
      let (rest, moved, l) = shift_down x es junk (n - 1 - 0) (omega arith) (omega arith) in
      (rest, rw gone (rw moved), l)

  filter_round_kept :
      (n d x : ℕ) (es junk : List ℕ)
      → drops x ≡ false
      → filter_round drops n 0 (pass d (x ∷ es) junk) ≡ pass d (x ∷ es) junk
  unfolding filter_round
  filter_round_kept n d x es junk kept = rw kept

  filter_loop_lem :
      (f n d : ℕ) (es junk : List ℕ)
      → n ≡ length es + d
      → d ≤ length junk
      → length es ≤ f
      → Leaves n (keep_if (λ x. not (drops x)) es) (filter_loop drops f n 0 (pass d es junk))
  filter_loop_lem f n d [] junk e h k =
      rw (filter_loop-stop f n 0 (pass d [] junk) (omega arith))
        (record { rest = junk; cells = refl; counted = omega arith })
  filter_loop_lem zero n d (x ∷ es) junk e h k = absurd (omega arith)
  filter_loop_lem (suc f) n d (x ∷ es) junk e h k = elim (Bool-cases (drops x)) [
    | inl gone ↦
        let (rest, round, l) = filter_round_gone n d x es junk e h gone in
        rw (filter_loop-go f n 0 (pass d (x ∷ es) junk) (omega arith), round, gone)
          (filter_loop_lem f n (d + 1) es rest (omega arith) (omega arith) (omega arith))
    | inr kept ↦
        let shorter : n ≡ suc (n - 1) = omega arith in
        rw
          (
            filter_loop-go f n 0 (pass d (x ∷ es) junk) (omega arith),
            filter_round_kept n d x es junk kept,
            kept,
            shorter,
            filter_loop-push f (n - 1) 0 x (pass d es junk),
          )
          (push-Leaves (n - 1) x _ _
            (filter_loop_lem f (n - 1) d es junk (omega arith) h (omega arith)))
  ]

filter_set_lem :
    (src dst : RankList) (exclude : Bool)
    → IsValid dst
    → 0 < length src.rl_ranks
    → IsValid (filter_set src dst exclude)
      × (ranks (filter_set src dst exclude)
          ≡ keep_if (λ x. not (filtered_out src exclude x)) (ranks dst))
unfolding filter_set
filter_set_lem src dst exclude v h = elim (ℕ_discrete dst.rl_nr 0) [
  | yes e ↦
      let same : filter_set src dst exclude ≡ dst = ground arith in rw (same, e) (omega arith, refl)
  | no e ↦
      let n = dst.rl_nr in
      let es = ranks dst in
      let junk = drop n dst.rl_ranks in
      let size : length es ≡ n = length-take n dst.rl_ranks v in
      let drops = filtered_out src exclude in
      let l =
        filter_loop_lem drops (suc n) n 0 es junk (omega (arith, size)) (omega arith)
          (omega (arith, size)) in
      let whole = rw (take-append-drop n dst.rl_ranks) at l in
      let p = filter_loop drops (suc n) n 0 (record { removed = 0; cells = dst.rl_ranks }) in
      let same : filter_set src dst exclude ≡ record { rl_nr = n - p.removed; rl_ranks = p.cells } =
        ground arith in
      rw same (Leaves-ranks n _ p whole)
]

-- The rank list that d_rank_list_filter leaves of a valid list, for a source with an array:
-- `exclude` takes out the ranks of the source, and otherwise only those stay; the order of the
-- ranks that stay is kept.
pub filter_lem :
    (src dst : RankList) (exclude : Bool)
    → IsValid dst
    → 0 < length src.rl_ranks
    → (l : RankList) × (filter (some src) (some dst) exclude ≡ some l)
      × IsValid l
      × (ranks l
          ≡ keep_if
              (λ x.
                if exclude then not (in_rank_list (ranks src) x) else in_rank_list (ranks src) x)
              (ranks dst))
unfolding filter filtered_out
filter_lem src dst exclude v h =
    let f = filter_set_lem src dst exclude v h in
    (
      filter_set src dst exclude,
      refl,
      f.0,
      f.1
          ∙ ap (λ p. keep_if p (ranks dst))
              (fun_ext (λ x. kept exclude (in_rank_list (ranks src) x))),
    )
  where
    kept :
        (b found : Bool) → not (if b then found else not found) ≡ (if b then not found else found)
    kept b found = ground arith
