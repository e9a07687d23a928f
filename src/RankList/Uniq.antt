-- ===== src/RankList/Uniq.antt =====
-- What d_rank_list_dup_sort_uniq (src/gurt/misc.c) leaves of repeated ranks.
use cart.Prelude.{
  ℕ, zero, suc, ◌+◌, ◌-◌, ◌/◌, ◌≤◌, ◌<◌, ◌≡◌, ◌≢◌, refl, ap, ◌∙◌, append_nil, List, [], ◌∷◌, ◌++◌,
  length, get_or, count, leb, ltb, lt→ltb, le→ltb, arith, take-length, true, false, length-take,
  drop-all, some, ok,
}
use native.Mathlib.Decide.{ℕ_discrete}
use cart.RankList.{
  uniq_round, RankList, IsValid, ranks, Pass, uniq_loop, uniq, uniq_sorted, qsort, sort, dup,
  dup_sort_uniq,
}
use cart.RankList.Thin.{thin, thin_eq, thin_ne, count-thin, thin-IsSorted, length-thin-le}
use cart.RankList.Shift.{shift-cons, shift_down}
use cart.RankList.Leaves.{push, Leaves, push-Leaves, Leaves-ranks}
use cart.RankList.Sort.{IsSorted, qsort-IsSorted, count-qsort, length-qsort}

-- The loop does not touch what lies before the index above its own.
uniq_round-push :
    (n i tmp x : ℕ) (p : Pass)
    → uniq_round (suc n) (suc (suc i)) tmp (push x p) ≡ push x (uniq_round n (suc i) tmp p)
unfolding uniq_round
uniq_round-push n i tmp x p =
    let rounds : suc n - suc (suc i) ≡ n - suc i = omega arith in
    let at : suc (suc i) - 1 ≡ suc i = omega arith in
    let at' : suc i - 1 ≡ i = omega arith in
    rw (rounds, at, at') (ground (arith, shift-cons (n - suc i) i x p.cells))

uniq_loop-push :
    (f n i tmp x : ℕ) (p : Pass)
    → uniq_loop f (suc n) (suc (suc i)) tmp (push x p) ≡ push x (uniq_loop f n (suc i) tmp p)
unfolding uniq_loop
uniq_loop-push zero n i tmp x p = refl
uniq_loop-push (suc f) n i tmp x p =
    let q = uniq_round n (suc i) tmp p in
    let ih = uniq_loop-push f n (suc i) (get_or q.cells (suc i) 0) x q in
    let test : ltb (suc (suc i)) (suc n - p.removed) ≡ ltb (suc i) (n - p.removed) = ground arith in
    rw (test, uniq_round-push n i tmp x p) (rw ih (ground arith))

uniq_loop-stop : (f n i tmp : ℕ) (p : Pass) → n - p.removed ≤ i → uniq_loop f n i tmp p ≡ p
unfolding uniq_loop
uniq_loop-stop zero n i tmp p h = refl
uniq_loop-stop (suc f) n i tmp p h = rw (le→ltb i (n - p.removed) h)

uniq_loop-go :
    (f n i tmp : ℕ) (p q : Pass)
    → i < n - p.removed
    → uniq_round n i tmp p ≡ q
    → uniq_loop (suc f) n i tmp p ≡ uniq_loop f n (suc i) (get_or q.cells i 0) q
unfolding uniq_loop
uniq_loop-go f n i tmp p q h e = rw (lt→ltb i (n - p.removed) h, e)

abbrev pass : List ℕ → List ℕ → Pass
pass es junk = record { removed = length junk; cells = es ++ junk }

-- A round at index 1 that finds the rank before it once more.
uniq_round_eq :
    (n t y : ℕ) (r junk : List ℕ)
    → n ≡ suc (suc (length r)) + length junk
    → t ≡ y
    → (rest : List ℕ) × (uniq_round n 1 t (pass (t ∷ y ∷ r) junk) ≡ pass (y ∷ r) rest)
      × (length rest ≡ length junk + 1)
unfolding uniq_round
uniq_round_eq n t y r junk e same =
    let (rest, moved, l) = shift_down t (y ∷ r) junk (n - 1) (omega arith) (omega arith) in
    (rest, ground (arith, moved, l), l)

uniq_round_ne :
    (n t y : ℕ) (r junk : List ℕ)
    → t ≢ y
    → uniq_round n 1 t (pass (t ∷ y ∷ r) junk) ≡ pass (t ∷ y ∷ r) junk
unfolding uniq_round
uniq_round_ne n t y r junk differ = ground arith

uniq_loop_lem :
    (f n t : ℕ) (r junk : List ℕ)
    → n ≡ suc (length r) + length junk
    → length r ≤ f
    → Leaves n (thin (t ∷ r)) (uniq_loop f n 1 t (pass (t ∷ r) junk))
unfolding thin
uniq_loop_lem f n t [] junk e h =
    rw (uniq_loop-stop f n 1 t (pass (t ∷ []) junk) (omega arith))
      (record { rest = junk; cells = refl; counted = omega arith })
uniq_loop_lem zero n t (y ∷ r) junk e h = absurd (omega arith)
uniq_loop_lem (suc f) n t (y ∷ []) junk e h = elim (ℕ_discrete t y) [
  | yes same ↦
      let (rest, round, l) = uniq_round_eq n t y [] junk e same in
      rw
        (
          thin_eq t y [] same,
          uniq_loop-go f n 1 t _ _ (omega arith) round,
          uniq_loop-stop f n 2 (get_or rest 0 0) (pass (y ∷ []) rest) (omega arith),
        )
        (record { rest = rest; cells = rw same; counted = omega arith })
  | no differ ↦
      rw
        (
          thin_ne t y [] differ,
          uniq_loop-go f n 1 t _ _ (omega arith) (uniq_round_ne n t y [] junk differ),
          uniq_loop-stop f n 2 y (pass (t ∷ y ∷ []) junk) (omega arith),
        )
        (record { rest = junk; cells = refl; counted = omega arith })
]
uniq_loop_lem (suc f) n t (y ∷ z ∷ r) junk e h =
    let shorter : n ≡ suc (n - 1) = omega arith in
    elim (ℕ_discrete t y) [
      | yes same ↦
          let (rest, round, l) = uniq_round_eq n t y (z ∷ r) junk e same in
          let ih = uniq_loop_lem f (n - 1) z r rest (omega arith) (omega arith) in
          rw
            (
              thin_eq t y (z ∷ r) same,
              uniq_loop-go f n 1 t _ _ (omega arith) round,
              shorter,
              uniq_loop-push f (n - 1) 0 z y (pass (z ∷ r) rest),
              same,
            )
            (push-Leaves (n - 1) y (thin (z ∷ r)) _ ih)
      | no differ ↦
          let ih = uniq_loop_lem f (n - 1) y (z ∷ r) junk (omega arith) (omega arith) in
          rw
            (
              thin_ne t y (z ∷ r) differ,
              uniq_loop-go f n 1 t _ _ (omega arith) (uniq_round_ne n t y (z ∷ r) junk differ),
              shorter,
              uniq_loop-push f (n - 1) 0 y t (pass (y ∷ z ∷ r) junk),
            )
            (push-Leaves (n - 1) t (thin (y ∷ z ∷ r)) _ ih)
    ]

abbrev full : List ℕ → RankList
full es = record { rl_nr = length es; rl_ranks = es }

uniq-long :
    (t y : ℕ) (r : List ℕ)
    → let n = length (t ∷ y ∷ r) in
      let p = uniq_loop n n 1 t (pass (t ∷ y ∷ r) []) in
      uniq (full (t ∷ y ∷ r)) ≡ record { rl_nr = n - p.removed; rl_ranks = p.cells }
unfolding uniq
uniq-long t y r =
    let more : leb (suc (suc (length r))) 1 ≡ false = ground arith in rw (more, append_nil r)

-- The loop on an array without spare cells.
uniq_lem : (es : List ℕ) → IsValid (uniq (full es)) × (ranks (uniq (full es)) ≡ thin es)
unfolding thin
uniq_lem [] = unfold uniq in (omega arith, refl)
uniq_lem (t ∷ []) = unfold uniq in (omega arith, refl)
uniq_lem (t ∷ y ∷ r) =
    let n = length (t ∷ y ∷ r) in
    let l = uniq_loop_lem n n t (y ∷ r) [] (omega arith) (omega arith) in
    rw (uniq-long t y r) (Leaves-ranks n (thin (t ∷ y ∷ r)) _ l)

pub dup-ok :
    (src : RankList) → IsValid src → dup true true true (some src) ≡ ok (some (full (ranks src)))
unfolding dup
dup-ok src v =
    let size = length-take src.rl_nr src.rl_ranks v in
    elim (ℕ_discrete src.rl_nr 0) [ yes e ↦ rw e | no e ↦ rw size (ground arith) ]

sort-full : (es : List ℕ) → sort (full es) ≡ full (qsort es)
unfolding sort
sort-full es =
    rw (take-length es, drop-all (length es) es (omega arith), append_nil, length-qsort es)

uniq_sorted-full :
    (es : List ℕ)
    → (r : RankList) × (uniq_sorted (some (full es)) ≡ some r)
      × IsValid r
      × (ranks r ≡ thin (qsort es))
unfolding uniq_sorted qsort thin
uniq_sorted-full [] = (full [], refl, omega arith, refl)
uniq_sorted-full (x ∷ es) =
    let u = uniq_lem (qsort (x ∷ es)) in
    (
      uniq (sort (full (x ∷ es))),
      ground arith,
      rw (sort-full (x ∷ es)) u.0,
      rw (sort-full (x ∷ es)) u.1,
    )

-- With a valid list and memory to be had, d_rank_list_dup_sort_uniq returns a valid list of ranks
-- in ascending order, in which a rank that occurs k times in the source occurs (k + 1) / 2 times:
-- once if it occurs once or twice, and still repeated if it occurs three times or more. The list
-- is no longer than the source.
pub dup_sort_uniq_lem :
    (src : RankList)
    → IsValid src
    → (l : RankList) × (dup_sort_uniq true true true (some src) ≡ ok (some l))
      × IsValid l
      × (l.rl_nr ≤ src.rl_nr)
      × IsSorted (ranks l)
      × ((q : ℕ) → count q (ranks l) ≡ (count q (ranks src) + 1) / 2)
unfolding dup_sort_uniq
dup_sort_uniq_lem src v =
    let es = ranks src in
    let (r, done, valid, left) = uniq_sorted-full es in
    (
      r,
      rw (dup-ok src v, done),
      valid,
      omega (
        arith,
        length-take r.rl_nr r.rl_ranks valid,
        ap (λ (xs : List ℕ). length xs) left,
        length-thin-le (qsort es),
        length-qsort es,
        length-take src.rl_nr src.rl_ranks v,
      ),
      rw left (thin-IsSorted (qsort es) (qsort-IsSorted es)),
      λ q. rw left (count-thin q (qsort es) (qsort-IsSorted es) ∙ rw (count-qsort q es)),
    )
