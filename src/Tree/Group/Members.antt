-- ===== src/Tree/Group/Members.antt =====
-- The list of ranks over which the calls of src/cart/crt_tree.c build the tree.
use cart.Prelude.{
  ℕ, zero, suc, ◌+◌, ◌/◌, ◌≤◌, ◌<◌, ◌≡◌, ◌≢◌, refl, ap, ◌∙◌, Bool, true, false, not, Option, none,
  some, List, [], ◌∷◌, length, count, take, keep_if, ltb, ◌==◌, if◌then◌else◌, ok, arith,
  length-take,
}
use native.Mathlib.Decide.{ℕ_discrete}
use cart.RankList.{RankList, IsValid, ranks, dup_sort_uniq, filter, in_rank_list}
use cart.RankList.Uniq.{dup_sort_uniq_lem}
use cart.RankList.Filter.{filter_lem}
use cart.Tree.Group.{
  excluding, places, places_in, apply_filter, filter_copy, filtered_grp_rank_list,
}

-- The ranks that the caller leaves out.
abbrev pub is_excluded : Option RankList → ℕ → Bool
is_excluded none q = false
is_excluded (some f) q = in_rank_list (ranks f) q

abbrev pub IsValidFilter : Option RankList → Type 0
IsValidFilter none = Unit
IsValidFilter (some f) = IsValid f

-- A rank of the group that is not left out.
abbrev pub IsMember : RankList → Option RankList → ℕ → Type 0
IsMember membs exclude q = (0 < count q (ranks membs)) × (is_excluded exclude q ≡ false)

-- A list of the members, each once, over which every call with this filter works.
pub record Available (membs : RankList) (exclude : Option RankList) (l : RankList) : Type 0 where
  pub valid : IsValid l
  pub size : l.rl_nr ≤ membs.rl_nr
  pub once : (q : ℕ) → count q (ranks l) ≤ 1
  pub holds : (q : ℕ) → IsMember membs exclude q → 0 < count q (ranks l)
  pub only : (q : ℕ) → 0 < count q (ranks l) → IsMember membs exclude q
  pub run :
      (root self : ℕ)
      → filtered_grp_rank_list true true membs (excluding exclude) root self ≡ places l root self

count-keep_if :
    (p : ℕ → Bool) (q : ℕ) (xs : List ℕ) → count q (keep_if p xs) ≡ (if p q then count q xs else 0)
count-keep_if p q [] = ground arith
count-keep_if p q (x ∷ xs) = elim (ℕ_discrete q x) [
  | yes e ↦ rw e (rw (← e) (ground (arith, count-keep_if p q xs)))
  | no ne ↦ ground (arith, count-keep_if p q xs)
]

length-keep_if : (p : ℕ → Bool) (xs : List ℕ) → length (keep_if p xs) ≤ length xs
length-keep_if p [] = omega arith
length-keep_if p (x ∷ xs) = ground (arith, length-keep_if p xs)

not_empty : (n : ℕ) (xs : List ℕ) (q : ℕ) → 0 < count q (take n xs) → 0 < n
not_empty zero xs q h = absurd (omega arith)
not_empty (suc n) xs q h = omega arith

empty_excludes : (ex : RankList) → ex.rl_nr ≡ 0 → (q : ℕ) → in_rank_list (ranks ex) q ≡ false
unfolding in_rank_list
empty_excludes ex z q = rw z refl

run_none :
    (membs l : RankList) (root self : ℕ)
    → dup_sort_uniq true true true (some membs) ≡ ok (some l)
    → filtered_grp_rank_list true true membs (excluding none) root self ≡ places l root self
unfolding filtered_grp_rank_list filter_copy apply_filter places_in
run_none membs l root self made = rw made

run_empty :
    (membs l ex : RankList) (root self : ℕ)
    → ex.rl_nr ≡ 0
    → dup_sort_uniq true true true (some membs) ≡ ok (some l)
    → filtered_grp_rank_list true true membs (excluding (some ex)) root self ≡ places l root self
unfolding filtered_grp_rank_list filter_copy apply_filter places_in
run_empty membs l ex root self z made = rw made (rw z)

run_some :
    (membs l ex k : RankList) (root self : ℕ)
    → 0 < ex.rl_nr
    → 0 < k.rl_nr
    → filter (some ex) (some l) true ≡ some k
    → dup_sort_uniq true true true (some membs) ≡ ok (some l)
    → filtered_grp_rank_list true true membs (excluding (some ex)) root self ≡ places k root self
unfolding filtered_grp_rank_list filter_copy apply_filter places_in
run_some membs l ex k root self p q kept made =
    let test : ltb 0 ex.rl_nr ≡ true = ground arith in
    let full : (k.rl_nr == 0) ≡ false = ground arith in rw (made, test, kept, full)

-- With memory to be had, and some ranks to leave out, the calls work over one list of the members
-- that stay.
Available-out :
    (membs ex : RankList) (root : ℕ)
    → IsValid membs
    → ((q : ℕ) → count q (ranks membs) ≤ 2)
    → IsValid ex
    → IsMember membs (some ex) root
    → ex.rl_nr ≢ 0
    → (l : RankList) × Available membs (some ex) l
Available-out membs ex root v twice f m some_out =
    let (l, made, valid, fits, sorted, counts) = dup_sort_uniq_lem membs v in
    let (k, kept, k_valid, k_ranks) = filter_lem ex l true valid (omega arith) in
    let stays = λ (q : ℕ).
      ap (count q) k_ranks ∙ count-keep_if (λ x. not (in_rank_list (ranks ex) x)) q (ranks l) in
    let holds : (q : ℕ) → IsMember membs (some ex) q → 0 < count q (ranks k) =
      λ q h. rw (stays q, h.1) (omega (arith, counts q, h.0)) in
    (
      k,
      record {
        valid = k_valid;
        size = omega (
          arith,
          length-take k.rl_nr k.rl_ranks k_valid,
          length-take l.rl_nr l.rl_ranks valid,
          ap (λ (xs : List ℕ). length xs) k_ranks,
          length-keep_if (λ x. not (in_rank_list (ranks ex) x)) (ranks l),
          fits,
        );
        once = λ q.
            at_most_once (in_rank_list (ranks ex) q) (stays q) (omega (arith, counts q, twice q));
        holds = holds;
        only = λ q h. survives (in_rank_list (ranks ex) q) (stays q) (counts q) h;
        run = λ root' self.
            run_some membs l ex k root' self (omega arith)
              (not_empty k.rl_nr k.rl_ranks root (holds root m)) kept made;
      },
    )
  where
    at_most_once : (b : Bool) {c d : ℕ} → d ≡ (if not b then c else 0) → c ≤ 1 → d ≤ 1
    at_most_once b e h = ground arith

    survives :
        (b : Bool) {c d m : ℕ}
        → d ≡ (if not b then c else 0)
        → c ≡ (m + 1) / 2
        → 0 < d
        → (0 < m) × (b ≡ false)
    survives b e k p = ground arith

-- With memory to be had, every call with one filter works over one list of the members, each once,
-- in which no member is missing; no rank may stand more than twice among the members.
pub available :
    (membs : RankList) (exclude : Option RankList) (root : ℕ)
    → IsValid membs
    → ((q : ℕ) → count q (ranks membs) ≤ 2)
    → IsValidFilter exclude
    → IsMember membs exclude root
    → (l : RankList) × Available membs exclude l
available membs none root v twice f m =
    let (l, made, valid, fits, sorted, counts) = dup_sort_uniq_lem membs v in
    (
      l,
      record {
        valid = valid;
        size = fits;
        once = λ q. omega (arith, counts q, twice q);
        holds = λ q h. omega (arith, counts q, h.0);
        only = λ q h. (omega (arith, counts q), refl);
        run = λ root self. run_none membs l root self made;
      },
    )
available membs (some ex) root v twice f m =
    let (l, made, valid, fits, sorted, counts) = dup_sort_uniq_lem membs v in
    elim (ℕ_discrete ex.rl_nr 0) [
      | yes none_out ↦ (
        l,
        record {
          valid = valid;
          size = fits;
          once = λ q. omega (arith, counts q, twice q);
          holds = λ q h. omega (arith, counts q, h.0);
          only = λ q h. (omega (arith, counts q), empty_excludes ex none_out q);
          run = λ root self. run_empty membs l ex root self none_out made;
        },
      )
      | no some_out ↦ Available-out membs ex root v twice f m some_out
    ]
