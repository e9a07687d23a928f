-- ===== src/RankList/Delete.antt =====
-- d_rank_list_del, d_rank_list_append and d_rank_list_copy (src/gurt/misc.c).
use cart.Prelude.{
  ℕ, zero, suc, ◌+◌, ◌-◌, ◌%◌, ◌^◌, ◌≤◌, ◌<◌, ◌≡◌, ◌≢◌, refl, ap, ◌∙◌, List, [], ◌∷◌, ◌++◌, length,
  set, take, drop, count, ◌==◌, if◌then◌else◌, arith, take-append, take-append-drop, take-take,
  length-take, Bool, true, none, some, der_nomem, length-set,
}
use native.Mathlib.Decide.{ℕ_discrete}
use cart.RankList.{
  RankList, IsValid, ranks, shift, resize, live, dangling, index_from, del_at, del, append,
}
use cart.RankList.Shift.{shift-cons, shift_down, length-shift}

-- The list without the first occurrence of the rank.
abbrev pub without : ℕ → List ℕ → List ℕ
without rank [] = []
without rank (x ∷ xs) = if x == rank then xs else x ∷ without rank xs

index_from-absent : (xs : List ℕ) (rank i : ℕ) → count rank xs ≡ 0 → index_from xs rank i ≡ none
unfolding index_from
index_from-absent [] rank i h = refl
index_from-absent (x ∷ xs) rank i h = ground (arith, index_from-absent xs rank (suc i))

without_eq : (x rank : ℕ) (es : List ℕ) → x ≡ rank → without rank (x ∷ es) ≡ es
without_eq x rank es e = ground arith

without_ne : (x rank : ℕ) (es : List ℕ) → x ≢ rank → without rank (x ∷ es) ≡ x ∷ without rank es
without_ne x rank es e = ground arith

length-without :
    (rank : ℕ) (es : List ℕ) → 0 < count rank es → length (without rank es) + 1 ≡ length es
length-without rank [] h = absurd (omega arith)
length-without rank (x ∷ es) h = ground (arith, length-without rank es)

-- What the move of the ranks above the index leaves.
record Moved (rank : ℕ) (es junk : List ℕ) (idx : ℕ) : Type 0 where
  rest : List ℕ
  cells : shift (length es - 1 - idx) idx (es ++ junk) ≡ without rank es ++ rest

index_from-Moved :
    (es junk : List ℕ) (rank i : ℕ)
    → 0 < count rank es
    → (idx : ℕ) × (index_from es rank i ≡ some (i + idx))
      × (idx < length es)
      × Moved rank es junk idx
unfolding index_from
index_from-Moved [] junk rank i h = absurd (omega arith)
index_from-Moved (x ∷ es) junk rank i h = elim (ℕ_discrete x rank) [
  | yes same ↦
      let (rest, e, l) = shift_down x es junk (length es) (omega arith) (omega arith) in
      let rounds : suc (length es) - 1 - 0 ≡ length es = omega arith in
      (
        0,
        ground arith,
        omega arith,
        record { rest = rest; cells = rw (rounds, without_eq x rank es same) e },
      )
  | no differ ↦
      let (idx, found, inside, m) = index_from-Moved es junk rank (suc i) (ground arith) in
      let rounds : suc (length es) - 1 - suc idx ≡ length es - 1 - idx = omega arith in
      (
        suc idx,
        ground (arith, found),
        omega arith,
        record {
          rest = m.rest;
          cells =
              rw (rounds, without_ne x rank es differ)
                (shift-cons (length es - 1 - idx) idx x (es ++ junk) ∙ ap (◌∷◌ x) m.cells);
        },
      )
]

resize-take : (fresh : ℕ → ℕ) (n : ℕ) (a : List ℕ) → n ≤ length a → resize fresh n a ≡ take n a
unfolding resize
resize-take fresh zero a h = refl
resize-take fresh (suc n) [] h = absurd (omega arith)
resize-take fresh (suc n) (x ∷ a) h = ap (◌∷◌ x) (resize-take fresh n a (omega arith))

length-resize : (fresh : ℕ → ℕ) (n : ℕ) (a : List ℕ) → length (resize fresh n a) ≡ n
unfolding resize
length-resize fresh zero a = refl
length-resize fresh (suc n) [] = ap suc (length-resize fresh n [])
length-resize fresh (suc n) (x ∷ a) = ap suc (length-resize fresh n a)

module _ (fresh : ℕ → ℕ) (l : RankList) (rank : ℕ) where
  -- A list without the rank stays as it is.
  pub del-absent :
      count rank (ranks l) ≡ 0 → (array : Bool) → del array fresh (some l) rank ≡ (0, live l)
  unfolding del del_at
  del-absent h array = ap (del_at array fresh l) (index_from-absent (ranks l) rank 0 h)

  -- d_rank_list_del on a valid list of two ranks or more that holds the rank: if the array can be
  -- resized, it takes the first occurrence out of the list, and the others keep their order.
  pub del-present :
      IsValid l
      → 0 < count rank (ranks l)
      → 2 ≤ l.rl_nr
      → (r : RankList) × (del true fresh (some l) rank ≡ (0, live r))
        × IsValid r
        × (ranks r ≡ without rank (ranks l))
  unfolding del
  del-present v h two =
      let es = ranks l in
      let size = length-take l.rl_nr l.rl_ranks v in
      let (idx, found, inside, m) = index_from-Moved es (drop l.rl_nr l.rl_ranks) rank 0 h in
      let n = l.rl_nr - 1 in
      let cells = rw (size, take-append-drop l.rl_nr l.rl_ranks) at m.cells in
      let a = shift (n - idx) idx l.rl_ranks in
      let left : length (without rank es) ≡ n = omega (arith, length-without rank es h) in
      let fits : n ≤ length a = omega (arith, length-shift (n - idx) idx l.rl_ranks) in
      let kept : take n a ≡ without rank es =
        rw cells (rw (← left) (take-append (without rank es) m.rest)) in
      let at : index_from es rank 0 ≡ some idx = found ∙ ap some (omega arith) in
      let r : RankList = record { rl_nr = n; rl_ranks = resize fresh n a } in
      (
        r,
        rw at (del_at-moved idx (omega arith)),
        omega (arith, length-resize fresh n a),
        ap (take n) (resize-take fresh n a fits) ∙ take-take n a ∙ kept,
      )
    where
      del_at-moved :
          (idx : ℕ)
          → 0 < l.rl_nr - 1
          → del_at true fresh l (some idx) ≡ (
            0,
            live (record {
              rl_nr = l.rl_nr - 1;
              rl_ranks = resize fresh (l.rl_nr - 1) (shift (l.rl_nr - 1 - idx) idx l.rl_ranks);
            }),
          )
      del_at-moved idx h = unfold del_at in ground arith

  -- d_rank_list_del of the only rank of a list frees the list and reports that there is no memory,
  -- whether or not an allocation would fail.
  pub del-last :
      l.rl_nr ≡ 1
      → 0 < count rank (ranks l)
      → (array : Bool) → del array fresh (some l) rank ≡ (der_nomem, dangling)
  unfolding del
  del-last one h array =
      let (idx, found, inside, m) = index_from-Moved (ranks l) [] rank 0 h in
      rw found (unfold del_at in ground arith)

resize_push :
    (fresh : ℕ → ℕ) (n x : ℕ) (a : List ℕ)
    → n ≤ length a
    → take (suc n) (set (resize fresh (suc n) a) n x) ≡ take n a ++ x ∷ []
unfolding resize
resize_push fresh zero x [] h = refl
resize_push fresh zero x (y ∷ a) h = refl
resize_push fresh (suc n) x [] h = absurd (omega arith)
resize_push fresh (suc n) x (y ∷ a) h = ap (◌∷◌ y) (resize_push fresh n x a (omega arith))

-- d_rank_list_append to a valid list of less than 2 ^ 32 - 1 ranks, if the array can be resized:
-- the rank comes behind the others.
pub append-ranks :
    (fresh : ℕ → ℕ) (l : RankList) (rank : ℕ)
    → IsValid l
    → l.rl_nr + 1 < 2 ^ 32
    → (r : RankList) × (append true fresh l rank ≡ (0, live r))
      × IsValid r
      × (ranks r ≡ ranks l ++ rank ∷ [])
unfolding append
append-ranks fresh l rank v h =
    let n = l.rl_nr in
    let size : (n + 1) % 2 ^ 32 ≡ suc n = omega arith in
    (
      record { rl_nr = suc n; rl_ranks = set (resize fresh (suc n) l.rl_ranks) n rank },
      rw size (ground arith),
      omega (
        arith,
        length-set (resize fresh (suc n) l.rl_ranks) n rank,
        length-resize fresh (suc n) l.rl_ranks,
      ),
      resize_push fresh n rank l.rl_ranks v,
    )
