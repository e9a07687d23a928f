-- ===== src/RankList/Leaves.antt =====
-- What the loops that remove ranks (src/gurt/misc.c) leave in the array.
use cart.Prelude.{
  ℕ, suc, ◌+◌, ◌-◌, ◌≡◌, ap, List, ◌∷◌, ◌++◌, length, arith, take-append, length-append,
}
use cart.RankList.{RankList, IsValid, ranks, Pass}

abbrev pub push : ℕ → Pass → Pass
push x p = record { removed = p.removed; cells = x ∷ p.cells }

-- Of `n` ranks the pass has left `kept`, and counts the others as removed.
pub record Leaves (n : ℕ) (kept : List ℕ) (p : Pass) : Type 0 where
  pub rest : List ℕ
  pub cells : p.cells ≡ kept ++ rest
  pub counted : p.removed + length kept ≡ n

pub push-Leaves :
    (n x : ℕ) (kept : List ℕ) (p : Pass) → Leaves n kept p → Leaves (suc n) (x ∷ kept) (push x p)
push-Leaves n x kept p l = record {
  rest = l.rest;
  cells = ap (◌∷◌ x) l.cells;
  counted = omega (arith, l.counted);
}

pub Leaves-ranks :
    (n : ℕ) (kept : List ℕ) (p : Pass)
    → Leaves n kept p
    → let l : RankList = record { rl_nr = n - p.removed; rl_ranks = p.cells } in
      IsValid l × (ranks l ≡ kept)
Leaves-ranks n kept p l =
    let size : n - p.removed ≡ length kept = omega (arith, l.counted) in
    rw (size, l.cells) (omega (arith, length-append kept l.rest), take-append kept l.rest)
