-- ===== src/RankList/Shift.antt =====
-- The inner loops that move the ranks above a removed one down (src/gurt/misc.c).
use cart.Prelude.{
  ℕ, zero, suc, ◌+◌, ◌≤◌, ◌≡◌, refl, ap, List, [], ◌∷◌, ◌++◌, length, get_or, set, arith,
  length-set, ◌∙◌,
}
use cart.RankList.{shift}

-- The ranks before the index are not touched.
pub shift-cons : (n k x : ℕ) (a : List ℕ) → shift n (suc k) (x ∷ a) ≡ x ∷ shift n k a
unfolding shift
shift-cons zero k x a = refl
shift-cons (suc n) k x a = shift-cons n (suc k) x (set a k (get_or a (suc k) 0))

pub length-shift : (n k : ℕ) (a : List ℕ) → length (shift n k a) ≡ length a
unfolding shift
length-shift zero k a = refl
length-shift (suc n) k a =
    length-shift n (suc k) (set a k (get_or a (suc k) 0)) ∙ length-set a k (get_or a (suc k) 0)

-- Whatever the rounds, one that reaches past `es` moves `es` down by one.
pub shift_down :
    (x : ℕ) (es junk : List ℕ) (n : ℕ)
    → length es ≤ n
    → n ≤ length es + length junk + 1
    → (rest : List ℕ) × (shift n zero (x ∷ es ++ junk) ≡ es ++ rest)
      × (length rest ≡ length junk + 1)
unfolding shift
shift_down x [] junk n h k =
    (shift n zero (x ∷ junk), refl, length-shift n zero (x ∷ junk) ∙ omega arith)
shift_down x (y ∷ es) junk zero h k = absurd (omega arith)
shift_down x (y ∷ es) junk (suc n) h k =
    let (rest, e, l) = shift_down y es junk n (omega arith) (omega arith) in
    (rest, shift-cons n zero y (y ∷ es ++ junk) ∙ ap (◌∷◌ y) e, l)
