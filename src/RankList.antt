-- ===== src/RankList.antt =====
-- Rank lists, src/gurt/misc.c (d_rank_list_t). The array may be longer than `rl_nr`: the code that
-- removes ranks moves the others down and lowers `rl_nr`. A NULL `rl_ranks` is the empty array,
-- since no array of no cells is allocated. A NULL list is `none`.
pub mod Sort
pub mod Shift
pub mod Leaves
pub mod Thin
pub mod Uniq
pub mod Filter
pub mod Delete
pub mod Lookup
pub mod Tests
use cart.Prelude.{
  ℕ, zero, suc, ◌+◌, ◌-◌, ◌%◌, ◌^◌, ◌≤◌, Bool, true, false, ◌||◌, not, Option, none, some, List, [],
  ◌∷◌, ◌++◌, length, get_or, set, take, drop, ltb, leb, ◌==◌, if◌then◌else◌, Result, ok, err, ◌>>=◌,
  check, der_inval, der_nomem, der_nonexist,
}

pub record RankList : Type 0 where
  pub rl_nr : ℕ
  pub rl_ranks : List ℕ

-- The array has the cells that `rl_nr` counts.
abbrev pub IsValid : RankList → Type 0
IsValid l = l.rl_nr ≤ length l.rl_ranks

-- The ranks that the list holds.
abbrev pub ranks : RankList → List ℕ
ranks l = take l.rl_nr l.rl_ranks

-- d_rank_list_dup. `dst` tells whether the pointer for the result is not NULL, `ptr` and `array`
-- whether the two allocations succeed.
unfoldable pub dup : (dst ptr array : Bool) → Option RankList → Result (Option RankList)
dup dst ptr array none = check dst der_inval (ok none)
dup dst ptr array (some src) = check dst der_inval (
    check ptr der_nomem (
      if src.rl_nr == 0
      then ok (some (record { rl_nr = 0; rl_ranks = [] }))
      else check array der_nomem
          (ok (some (record { rl_nr = src.rl_nr; rl_ranks = take src.rl_nr src.rl_ranks })))))

-- qsort with rank_compare, as an insertion sort.
unfoldable pub insert : ℕ → List ℕ → List ℕ
insert x [] = x ∷ []
insert x (y ∷ ys) = if leb x y then x ∷ y ∷ ys else y ∷ insert x ys

unfoldable pub qsort : List ℕ → List ℕ
unfolding insert
qsort [] = []
qsort (x ∷ xs) = insert x (qsort xs)

unfoldable pub sort : RankList → RankList
unfolding qsort
sort l = record l { rl_ranks = qsort (take l.rl_nr l.rl_ranks) ++ drop l.rl_nr l.rl_ranks }

-- `for (; n > 0; k++, n--) a[k] = a[k + 1]`: the inner loop of the two functions below.
unfoldable pub shift : ℕ → ℕ → List ℕ → List ℕ
shift zero k a = a
shift (suc n) k a = shift n (suc k) (set a k (get_or a (suc k) 0))

-- The state of the outer loops: how many ranks were removed, and the array.
pub record Pass : Type 0 where
  pub removed : ℕ
  pub cells : List ℕ

-- One round of the outer loop of d_rank_list_dup_sort_uniq at index `i`, with the rank `tmp`
-- before it.
unfoldable pub uniq_round : (rank_num i tmp : ℕ) → Pass → Pass
unfolding shift
uniq_round rank_num i tmp p =
    if tmp == get_or p.cells i 0
    then record { removed = p.removed + 1; cells = shift (rank_num - i) (i - 1) p.cells }
    else p

unfoldable pub uniq_loop : (fuel rank_num i tmp : ℕ) → Pass → Pass
unfolding uniq_round
uniq_loop zero rank_num i tmp p = p
uniq_loop (suc fuel) rank_num i tmp p =
    let q = uniq_round rank_num i tmp p in
    let rest = uniq_loop fuel rank_num (suc i) (get_or q.cells i 0) q in
    if ltb i (rank_num - p.removed) then rest else p

-- The part of d_rank_list_dup_sort_uniq that follows the sort.
unfoldable pub uniq : RankList → RankList
unfolding uniq_loop
uniq l =
    if leb l.rl_nr 1
    then l
    else (let p =
          uniq_loop l.rl_nr l.rl_nr 1 (get_or l.rl_ranks 0 0)
            (record { removed = 0; cells = l.rl_ranks }) in
        record { rl_nr = l.rl_nr - p.removed; rl_ranks = p.cells })

unfoldable pub uniq_sorted : Option RankList → Option RankList
uniq_sorted none = none
uniq_sorted (some l) = if length l.rl_ranks == 0 then some l else some (uniq (sort l))

unfoldable pub dup_sort_uniq : (dst ptr array : Bool) → Option RankList → Result (Option RankList)
dup_sort_uniq dst ptr array src = dup dst ptr array src >>= λ l. ok (uniq_sorted l)

-- d_rank_in_rank_list
unfoldable pub in_rank_list : List ℕ → ℕ → Bool
in_rank_list [] rank = false
in_rank_list (x ∷ xs) rank = if x == rank then true else in_rank_list xs rank

-- One round of the outer loop of d_rank_list_filter, `drops` telling the ranks to filter out.
unfoldable pub filter_round : (drops : ℕ → Bool) (rank_num i : ℕ) → Pass → Pass
unfolding shift
filter_round drops rank_num i p =
    if drops (get_or p.cells i 0)
    then record { removed = p.removed + 1; cells = shift (rank_num - 1 - i) i p.cells }
    else p

unfoldable pub filter_loop : (drops : ℕ → Bool) (fuel rank_num i : ℕ) → Pass → Pass
filter_loop drops zero rank_num i p = p
filter_loop drops (suc fuel) rank_num i p =
    let next = if drops (get_or p.cells i 0) then i else suc i in
    let rest = filter_loop drops fuel rank_num next (filter_round drops rank_num i p) in
    if ltb i (rank_num - p.removed) then rest else p

-- `d_rank_in_rank_list(src_set, rank) == exclude`
unfoldable pub filtered_out : RankList → Bool → ℕ → Bool
unfolding in_rank_list
filtered_out src_set exclude rank =
    let found = in_rank_list (ranks src_set) rank in if exclude then found else not found

unfoldable pub filter_set : RankList → RankList → Bool → RankList
filter_set src_set dst_set exclude =
    if length src_set.rl_ranks == 0 || length dst_set.rl_ranks == 0 || dst_set.rl_nr == 0
    then dst_set
    else (let p =
          filter_loop (filtered_out src_set exclude) (suc dst_set.rl_nr) dst_set.rl_nr 0
            (record { removed = 0; cells = dst_set.rl_ranks }) in
        record { rl_nr = dst_set.rl_nr - p.removed; rl_ranks = p.cells })

-- d_rank_list_filter
unfoldable pub filter : Option RankList → Option RankList → Bool → Option RankList
filter none dst exclude = dst
filter (some src) none exclude = none
filter (some src) (some dst) exclude = some (filter_set src dst exclude)

-- Cells for an array that `realloc` resizes; what a new cell holds is not determined.
unfoldable pub resize : (fresh : ℕ → ℕ) → ℕ → List ℕ → List ℕ
resize fresh zero a = []
resize fresh (suc n) [] = fresh n ∷ resize fresh n []
resize fresh (suc n) (x ∷ a) = x ∷ resize fresh n a

-- `for (i = 0; i < size; i++) rl_ranks[i] = i`
unfoldable pub iota : ℕ → ℕ → List ℕ
iota i zero = []
iota i (suc n) = i ∷ iota (suc i) n

-- d_rank_list_alloc
unfoldable pub alloc : (ptr array : Bool) → ℕ → Option RankList
unfolding iota
alloc ptr array size =
    if not ptr
    then none
    else if size == 0
    then some (record { rl_nr = 0; rl_ranks = [] })
    else if array
    then some (record { rl_nr = size; rl_ranks = iota 0 size })
    else none

-- What d_rank_list_realloc does to the list: it moves it, frees it, or leaves it as it was.
pub data Realloc : Type 0 where
  moved : RankList → Realloc
  freed : Realloc
  failed : Realloc

-- d_rank_list_realloc on a list that is not NULL
unfoldable pub realloc : (array : Bool) (fresh : ℕ → ℕ) → RankList → ℕ → Realloc
unfolding resize
realloc array fresh l size =
    if size == 0
    then freed
    else if array
    then moved (record { rl_nr = size; rl_ranks = resize fresh size l.rl_ranks })
    else failed

-- The list behind the caller's pointer: after `dangling` the pointer is to freed memory.
pub data Ptr : Type 0 where
  null : Ptr
  live : RankList → Ptr
  dangling : Ptr

-- The calls of d_rank_list_realloc that treat a NULL result as a failure.
unfoldable pub keep_or_nomem : Realloc → RankList → (RankList → RankList) → ℕ × Ptr
keep_or_nomem (moved l) old f = (0, live (f l))
keep_or_nomem freed old f = (der_nomem, dangling)
keep_or_nomem failed old f = (der_nomem, live old)

-- `memcpy(dst->rl_ranks, src->rl_ranks, dst->rl_nr * sizeof(d_rank_t))`
abbrev pub copied : RankList → RankList → RankList
copied src dst = record dst {
  rl_ranks = take dst.rl_nr src.rl_ranks ++ drop dst.rl_nr dst.rl_ranks;
}

-- d_rank_list_copy
unfoldable pub copy : (array : Bool) (fresh : ℕ → ℕ) → Option RankList → Option RankList → ℕ × Ptr
unfolding realloc keep_or_nomem
copy array fresh none src = (der_inval, null)
copy array fresh (some dst) none = (der_inval, live dst)
copy array fresh (some dst) (some src) =
    if dst.rl_nr == src.rl_nr
    then (0, live (copied src dst))
    else keep_or_nomem (realloc array fresh dst src.rl_nr) dst (copied src)

-- The loops of d_rank_list_find and d_idx_in_rank_list, from index `i`.
unfoldable pub index_from : List ℕ → ℕ → ℕ → Option ℕ
index_from [] rank i = none
index_from (x ∷ xs) rank i = if x == rank then some i else index_from xs rank (suc i)

-- d_rank_list_find; the index is that of `*idx`.
unfoldable pub find : Option RankList → ℕ → Option ℕ
find none rank = none
find (some l) rank = index_from (ranks l) rank 0

-- d_idx_in_rank_list, with an `idx` that is not NULL
unfoldable pub idx_in_rank_list : Option RankList → ℕ → Result ℕ
idx_in_rank_list none rank = err der_inval
idx_in_rank_list (some l) rank = elim (index_from (ranks l) rank 0) [
  | none ↦ err der_nonexist
  | some i ↦ ok i
]

-- d_rank_list_del, once d_rank_list_find has looked for the rank
unfoldable pub del_at : (array : Bool) (fresh : ℕ → ℕ) → RankList → Option ℕ → ℕ × Ptr
unfolding realloc keep_or_nomem
del_at array fresh l none = (0, live l)
del_at array fresh l (some idx) =
    let new_num = l.rl_nr - 1 in
    let moved_down : RankList = record l { rl_ranks = shift (new_num - idx) idx l.rl_ranks } in
    keep_or_nomem (realloc array fresh moved_down new_num) moved_down (λ r. r)

-- d_rank_list_del
unfoldable pub del : (array : Bool) (fresh : ℕ → ℕ) → Option RankList → ℕ → ℕ × Ptr
del array fresh none rank = (der_inval, null)
del array fresh (some l) rank = del_at array fresh l (index_from (ranks l) rank 0)

-- d_rank_list_append; `old_num + 1` is an addition of uint32_t.
unfoldable pub append : (array : Bool) (fresh : ℕ → ℕ) → RankList → ℕ → ℕ × Ptr
unfolding realloc keep_or_nomem
append array fresh l rank =
    keep_or_nomem (realloc array fresh l ((l.rl_nr + 1) % 2 ^ 32)) l
      (λ r. record r { rl_ranks = set r.rl_ranks l.rl_nr rank })

-- The loop of d_rank_list_identical over two lists of one length.
unfoldable pub same_ranks : List ℕ → List ℕ → Bool
same_ranks [] ys = true
same_ranks (x ∷ xs) [] = true
same_ranks (x ∷ xs) (y ∷ ys) = if x == y then same_ranks xs ys else false

-- d_rank_list_identical, with the first list as the call leaves it. `same` tells whether the two
-- pointers are one.
unfoldable pub identical :
    (same : Bool) → Option RankList → Option RankList → Bool × Option RankList
identical true l r = (true, l)
identical false none r = (false, none)
identical false (some l) none = (false, some l)
identical false (some l) (some r) =
    if l.rl_nr == r.rl_nr
    then (same_ranks (ranks (sort l)) (ranks r), some (sort l))
    else (false, some l)
