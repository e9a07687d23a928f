-- ===== src/Binheap.antt =====
-- The binary heap of src/gurt/heap.c: struct d_binheap of src/include/gurt/heap.h, its memory and
-- the functions that obtain and free it (d_binheap_grow, d_binheap_create_inplace,
-- d_binheap_destroy_inplace, d_binheap_pointer). A node is a number, its address, and 0 is NULL.
-- `none` is a run that ends in a failed D_ASSERT or in an access through a pointer that is NULL.
pub mod Moves
pub mod Grown
pub mod Grows
pub mod Order
pub mod Up
pub mod Down
pub mod Insert
pub mod Remove
pub mod Freed
pub mod Create
pub mod Tests
use cart.Prelude.{
  ℕ, zero, suc, ◌+◌, ◌-◌, ◌*◌, ◌/◌, ◌%◌, ◌^◌, Bool, true, false, not, ◌&&◌, ◌||◌, Option, none,
  some, List, [], ◌∷◌, ltb, leb, ◌==◌, if◌then◌else◌, der_nomem,
}

abbrev pub dbh_size : ℕ
dbh_size = 512

abbrev pub dbh_size2 : ℕ
dbh_size2 = 262144

abbrev pub dbh_size3 : ℕ
dbh_size3 = 134217728

abbrev pub dbh_poison : ℕ
dbh_poison = 0xdeadbeef

-- The arrays of DBH_SIZE pointers: d_bh_nodes1; d_bh_nodes2 and its entries; d_bh_nodes3, its
-- entries, and theirs.
pub data Block : Type 0 where
  nodes1 : Block
  nodes2 : Block
  nodes2_at : ℕ → Block
  nodes3 : Block
  nodes3_at : ℕ → Block
  nodes3_at_at : ℕ → ℕ → Block

-- An entry that holds a node: nodes1[i], nodes2[i][j] or nodes3[i][j][k].
pub data Place : Type 0 where
  one : ℕ → Place
  two : ℕ → ℕ → Place
  three : ℕ → ℕ → ℕ → Place

-- The heap, with the field chn_idx of every node. `held` tells which arrays are allocated and can
-- be reached by the pointers of the heap.
pub record Binheap : Type 0 where
  pub nodes : Place → ℕ
  pub held : Block → Bool
  pub chn_idx : ℕ → ℕ
  pub nodes_cnt : ℕ
  pub hwm : ℕ

pub same_block : Block → Block → Bool
same_block nodes1 nodes1 = true
same_block nodes2 nodes2 = true
same_block (nodes2_at i) (nodes2_at j) = i == j
same_block nodes3 nodes3 = true
same_block (nodes3_at i) (nodes3_at j) = i == j
same_block (nodes3_at_at i k) (nodes3_at_at j l) = i == j && k == l
same_block b c = false

pub same_place : Place → Place → Bool
same_place (one i) (one j) = i == j
same_place (two i k) (two j l) = i == j && k == l
same_place (three i k m) (three j l n) = i == j && k == l && m == n
same_place p q = false

-- The array that a place belongs to.
pub array_of : Place → Block
array_of (one i) = nodes1
array_of (two i j) = nodes2_at i
array_of (three i j k) = nodes3_at_at i j

-- Every pointer on the way to the place can be followed, at an index inside its array.
pub is_mapped : (Block → Bool) → Place → Bool
is_mapped held (one i) = held nodes1 && ltb i dbh_size
is_mapped held (two i j) = held nodes2 && held (nodes2_at i) && ltb i dbh_size && ltb j dbh_size
is_mapped held (three i j k) =
    held nodes3
    && held (nodes3_at i)
    && held (nodes3_at_at i j)
    && ltb i dbh_size
    && ltb j dbh_size
    && ltb k dbh_size

pointer3 : ℕ → Place
pointer3 idx = three (idx / dbh_size2) (idx / dbh_size % dbh_size) (idx % dbh_size)

pointer2 : ℕ → Place
unfolding pointer3
pointer2 idx =
    if ltb idx dbh_size2 then two (idx / dbh_size) (idx % dbh_size) else pointer3 (idx - dbh_size2)

-- d_binheap_pointer
pub pointer : ℕ → Place
unfolding pointer2
pointer idx = if ltb idx dbh_size then one idx else pointer2 (idx - dbh_size)

abbrev pub assert {ℓ} : {A : Type ℓ} → Bool → Option A → Option A
assert b next = if b then next else none

infixl 5 ◌>>=◌
abbrev pub ◌>>=◌ {ℓ κ} : {A : Type ℓ} {B : Type κ} → Option A → (A → Option B) → Option B
none >>= f = none
some a >>= f = f a

-- *d_binheap_pointer(h, idx)
pub load : Binheap → ℕ → Option ℕ
load h idx = if is_mapped h.held (pointer idx) then some (h.nodes (pointer idx)) else none

-- *d_binheap_pointer(h, idx) = e
pub put : Binheap → ℕ → ℕ → Binheap
put h idx e = record h { nodes = λ p. if same_place (pointer idx) p then e else h.nodes p }

pub store : Binheap → ℕ → ℕ → Option Binheap
store h idx e = if is_mapped h.held (pointer idx) then some (put h idx e) else none

-- e->chn_idx = idx
pub set_idx : Binheap → ℕ → ℕ → Binheap
set_idx h e idx = record h { chn_idx = λ x. if x == e then idx else h.chn_idx x }

-- An array of zeros, as D_ALLOC gives it, that a pointer of the heap is set to.
pub link : Block → Binheap → Binheap
link b h = record h {
  held = λ c. if same_block b c then true else h.held c;
  nodes = λ p. if same_block b (array_of p) then 0 else h.nodes p;
}

-- The statements after the label `out`, and a return code of 0.
raise : Binheap → Option (ℕ × Binheap)
raise h = some (0, record h { hwm = (h.hwm + dbh_size) % 2 ^ 32 })

no_memory : Binheap → Option (ℕ × Binheap)
no_memory h = some (der_nomem, h)

-- The two kinds of growth beyond the first array, at the index less what lies before them.
-- `alloc n` tells whether the call of D_ALLOC after n others in the same run succeeds.
grow2 : (ℕ → Bool) → Binheap → ℕ → Option (ℕ × Binheap)
unfolding raise no_memory
grow2 alloc h hwm =
    let i = hwm / dbh_size in
    if not (alloc 0)
    then no_memory h
    else if hwm == 0
    then (if alloc 1 then raise (link (nodes2_at i) (link nodes2 h)) else no_memory h)
    else assert (h.held nodes2) (raise (link (nodes2_at i) h))

-- The first use of an entry of d_bh_nodes3.
first_at : ℕ → ℕ → Binheap → Option (ℕ × Binheap)
unfolding raise
first_at i j h =
    assert (h.held nodes3 && not (h.held (nodes3_at i)))
      (raise (link (nodes3_at_at i j) (link (nodes3_at i) h)))

grow3 : (ℕ → Bool) → Binheap → ℕ → Option (ℕ × Binheap)
unfolding raise no_memory first_at
grow3 alloc h hwm =
    let i = hwm / dbh_size2 in
    let j = hwm / dbh_size % dbh_size in
    if leb dbh_size3 hwm || not (alloc 0)
    then no_memory h
    else if j == 0
    then (if not (alloc 1) || hwm == 0 && not (alloc 2)
        then no_memory h
        else first_at i j (if hwm == 0 then link nodes3 h else h))
    else assert (h.held nodes3 && h.held (nodes3_at i)) (raise (link (nodes3_at_at i j) h))

-- d_binheap_grow
pub grow : (ℕ → Bool) → Binheap → Option (ℕ × Binheap)
unfolding grow2 grow3 raise no_memory
grow alloc h = assert (h.hwm % dbh_size == 0) (
    if h.hwm == 0
    then (if alloc 0 then raise (link nodes1 h) else no_memory h)
    else if ltb (h.hwm - dbh_size) dbh_size2
    then grow2 alloc h (h.hwm - dbh_size)
    else grow3 alloc h (h.hwm - dbh_size - dbh_size2))

-- The loop of d_binheap_create_inplace that preallocates; `alloc r` are the allocations of the
-- round after which r rounds are left.
pub prealloc : ℕ → (ℕ → ℕ → Bool) → ℕ → Binheap → Option (ℕ × Binheap)
prealloc zero alloc count h = none
prealloc (suc f) alloc count h =
    let more = grow (alloc f) h >>= λ r. if r.0 == 0 then prealloc f alloc count r.1 else some r in
    if ltb h.hwm count then more else some (0, h)

-- D_FREE of an array.
pub free : Block → (Block → Bool) → Block → Bool
free b held c = if same_block b c then false else held c

-- n -= DBH_SIZE
one_less : ℕ → ℕ
one_less n = (n + 2 ^ 32 - dbh_size) % 2 ^ 32

-- The loops of d_binheap_destroy_inplace, from an index and with `n` entries left.
pub free2 : ℕ → ℕ → ℕ → (Block → Bool) → (Block → Bool) × ℕ
unfolding one_less
free2 zero idx0 n held = (held, n)
free2 (suc f) idx0 n held =
    let next = free2 f (idx0 + 1) (one_less n) (free (nodes2_at idx0) held) in
    if ltb 0 n then next else (held, n)

pub free_row : ℕ → ℕ → ℕ → ℕ → (Block → Bool) → (Block → Bool) × ℕ
unfolding one_less
free_row zero idx0 idx1 n held = (held, n)
free_row (suc f) idx0 idx1 n held =
    let next = free_row f idx0 (idx1 + 1) (one_less n) (free (nodes3_at_at idx0 idx1) held) in
    if ltb 0 n then next else (held, n)

pub free3 : ℕ → ℕ → ℕ → (Block → Bool) → (Block → Bool) × ℕ
free3 zero idx0 n held = (held, n)
free3 (suc f) idx0 n held =
    let row = free_row dbh_size idx0 0 n held in
    let next = free3 f (idx0 + 1) row.1 (free (nodes3_at idx0) row.0) in
    if ltb 0 n then next else (held, n)

-- What d_binheap_destroy_inplace leaves allocated, by its three tests in turn.
destroy3 : (Block → Bool) × ℕ → Block → Bool
destroy3 s = if ltb 0 s.1 then free nodes3 (free3 dbh_size 0 s.1 s.0).0 else s.0

destroy2 : (Block → Bool) × ℕ → Block → Bool
unfolding destroy3
destroy2 s =
    let r = free2 dbh_size 0 s.1 s.0 in if ltb 0 s.1 then destroy3 (free nodes2 r.0, r.1) else s.0

pub destroy_held : Binheap → Block → Bool
unfolding destroy2 one_less
destroy_held h = if ltb 0 h.hwm then destroy2 (free nodes1 h.held, one_less h.hwm) else h.held

-- d_binheap_destroy_inplace; memset sets every field to 0.
pub destroy_inplace : Binheap → Binheap
destroy_inplace h = record {
  nodes = h.nodes;
  held = destroy_held h;
  chn_idx = h.chn_idx;
  nodes_cnt = 0;
  hwm = 0;
}

-- d_binheap_create_inplace with valid parameters, on a heap whose arrays are not there yet.
-- `lock_rc` is what dbh_lock_init returns.
pub create_inplace : (ℕ → ℕ → Bool) → ℕ → ℕ → Binheap → Option (ℕ × Binheap)
create_inplace alloc lock_rc count h =
    prealloc (count + 1) alloc count (record h { nodes_cnt = 0; hwm = 0 }) >>= λ r.
    if r.0 == 0 && lock_rc == 0
    then some r
    else some ((if r.0 == 0 then lock_rc else r.0), destroy_inplace r.1)

-- The struct that D_ALLOC_PTR gives: every pointer is NULL.
abbrev pub zeroed : Binheap
zeroed = record { nodes = λ p. 0; held = λ b. false; chn_idx = λ x. 0; nodes_cnt = 0; hwm = 0 }

-- d_binheap_create with valid parameters; `got` tells whether the struct is allocated, and `none`
-- beside the return code stands for *h, which is not set.
pub create : Bool → (ℕ → ℕ → Bool) → ℕ → ℕ → Option (ℕ × Option Binheap)
create got alloc lock_rc count =
    if got
    then (create_inplace alloc lock_rc count zeroed >>= λ r.
        some (r.0, (if r.0 == 0 then some r.1 else none)))
    else some (der_nomem, none)
