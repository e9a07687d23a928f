-- ===== src/Binheap/Order.antt =====
-- The heap order of src/gurt/heap.c, the nodes that a heap holds, and a heap with a hole: one
-- node that the loops of d_binheap_bubble and d_binheap_sink carry stands for no entry.
use cart.Prelude.{
  ℕ, ◌-◌, ◌/◌, ◌≤◌, ◌<◌, ◌≡◌, ◌≢◌, refl, ◌∙◌, Bool, true, false, not, ◌&&◌, ◌||◌, some, arith, ltb,
  ◌==◌, if◌then◌else◌, lt→ltb,
}
use cart.Binheap.{Binheap, load, put, store, set_idx}
use cart.Binheap.Grown.{IsGrown, is_mapped-pointer, same_place-pointer}
use cart.Binheap.Grows.{at}
use cart.Binheap.Moves.{settle, shift}

-- What hop_compare promises, for some key by which nodes are ordered: "true if node a < node b,
-- false if node a > node b". On nodes of equal key it may say either.
pub record Compares (compare : ℕ → ℕ → Bool) (key : ℕ → ℕ) : Type 0 where
  pub holds : (a b : ℕ) → compare a b ≡ true → key a ≤ key b
  pub fails : (a b : ℕ) → compare a b ≡ false → key b ≤ key a

-- The node with the index that it keeps is the entry at that index.
unfoldable pub in_heap : Binheap → ℕ → Bool
in_heap h x = ltb (h.chn_idx x) h.nodes_cnt && at h (h.chn_idx x) == x

-- The same where the node `e` belongs at `cur`, whatever the entry there is.
unfoldable pub in_hole : Binheap → ℕ → ℕ → ℕ → Bool
in_hole h e cur x =
    x == e || (ltb (h.chn_idx x) h.nodes_cnt && not (h.chn_idx x == cur) && at h (h.chn_idx x) == x)

-- A binary heap: every node knows its index, and no key is above those of the children.
pub record IsHeap (key : ℕ → ℕ) (h : Binheap) : Type 0 where
  pub grown : IsGrown h
  pub fits : h.nodes_cnt ≤ h.hwm
  pub full : (i : ℕ) → i < h.nodes_cnt → at h i ≢ 0
  pub indexed : (i : ℕ) → i < h.nodes_cnt → h.chn_idx (at h i) ≡ i
  pub ordered : (c : ℕ) → 0 < c → c < h.nodes_cnt → key (at h ((c - 1) / 2)) ≤ key (at h c)

pub record Hole (key : ℕ → ℕ) (h : Binheap) (e cur : ℕ) : Type 0 where
  pub grown : IsGrown h
  pub fits : h.nodes_cnt ≤ h.hwm
  pub inside : cur < h.nodes_cnt
  pub some_node : e ≢ 0
  pub full : (i : ℕ) → i < h.nodes_cnt → i ≢ cur → at h i ≢ 0
  pub indexed : (i : ℕ) → i < h.nodes_cnt → i ≢ cur → h.chn_idx (at h i) ≡ i
  pub apart : (i : ℕ) → i < h.nodes_cnt → i ≢ cur → at h i ≢ e
  pub edges :
      (c : ℕ)
      → 0 < c
      → c < h.nodes_cnt
      → c ≢ cur
      → (c - 1) / 2 ≢ cur
      → key (at h ((c - 1) / 2)) ≤ key (at h c)
  pub bridged :
      (c : ℕ)
      → 0 < c
      → c < h.nodes_cnt
      → (c - 1) / 2 ≡ cur
      → 0 < cur
      → key (at h ((cur - 1) / 2)) ≤ key (at h c)

-- The node in the hole is not above its children; it is not below its parent.
abbrev pub Below : (ℕ → ℕ) → Binheap → ℕ → ℕ → Type 0
Below key h e cur = (c : ℕ) → 0 < c → c < h.nodes_cnt → (c - 1) / 2 ≡ cur → key e ≤ key (at h c)

abbrev pub Above : (ℕ → ℕ) → Binheap → ℕ → ℕ → Type 0
Above key h e cur = 0 < cur → key (at h ((cur - 1) / 2)) ≤ key e

-- What a node's move leaves behind: the entry written and the index kept.
abbrev pub moved : Binheap → ℕ → ℕ → Binheap
moved h x cur = put (set_idx h x cur) cur x

pub at-moved : (h : Binheap) (x cur i : ℕ) → at (moved h x cur) i ≡ (if cur == i then x else at h i)
unfolding put set_idx
at-moved h x cur i = rw (same_place-pointer cur i) refl

pub chn_idx-moved :
    (h : Binheap) (x cur y : ℕ) → (moved h x cur).chn_idx y ≡ (if y == x then cur else h.chn_idx y)
unfolding put set_idx
chn_idx-moved h x cur y = refl

pub cnt-moved : (h : Binheap) (x cur : ℕ) → (moved h x cur).nodes_cnt ≡ h.nodes_cnt
unfolding put set_idx
cnt-moved h x cur = refl

pub hwm-moved : (h : Binheap) (x cur : ℕ) → (moved h x cur).hwm ≡ h.hwm
unfolding put set_idx
hwm-moved h x cur = refl

module _ {h : Binheap} (g : IsGrown h) where
  pub moved-IsGrown : (x cur : ℕ) → IsGrown (moved h x cur)
  unfolding put set_idx
  moved-IsGrown x cur = record { aligned = g.aligned; capped = g.capped; arrays = g.arrays }

  pub load-at : (i : ℕ) → i < h.hwm → load h i ≡ some (at h i)
  unfolding load
  load-at i l = rw (is_mapped-pointer g i, lt→ltb i h.hwm l) refl

  pub shift-moved : (x cur : ℕ) → cur < h.hwm → shift h x cur ≡ some (moved h x cur)
  unfolding shift store set_idx
  shift-moved x cur l = rw (is_mapped-pointer g cur, lt→ltb cur h.hwm l) refl

  pub settle-moved :
      (x cur : ℕ) (did : Bool) → cur < h.hwm → settle h x cur did ≡ some (moved h x cur, did)
  unfolding settle store set_idx
  settle-moved x cur did l = rw (is_mapped-pointer g cur, lt→ltb cur h.hwm l) refl

-- A loop that carried `e` from the hole at `cur` has ended in the heap `h'`.
pub record Ends (key : ℕ → ℕ) (h : Binheap) (e cur : ℕ) (h' : Binheap) : Type 0 where
  pub heap : IsHeap key h'
  pub cnt : h'.nodes_cnt ≡ h.nodes_cnt
  pub hwm : h'.hwm ≡ h.hwm
  pub members : (x : ℕ) → in_heap h' x ≡ in_hole h e cur x
  pub others : (x : ℕ) → in_hole h e cur x ≡ false → h'.chn_idx x ≡ h.chn_idx x

module _ {key : ℕ → ℕ} {h : Binheap} {e cur : ℕ} (v : Hole key h e cur) where
  pub moved-Ends : Below key h e cur → Above key h e cur → Ends key h e cur (moved h e cur)
  unfolding in_heap in_hole
  moved-Ends b a =
      let cn = cnt-moved h e cur in
      let hw = hwm-moved h e cur in
      record {
        heap = record {
          grown = moved-IsGrown v.grown e cur;
          fits = rw (cn, hw) v.fits;
          full = λ i l. ground (arith, at-moved h e cur i, v.full i);
          indexed = λ i l.
              rw (at-moved h e cur i, chn_idx-moved) (ground (arith, v.indexed i, v.apart i));
          ordered = λ c p l.
              ground (arith, at-moved h e cur c, at-moved h e cur ((c - 1) / 2), v.edges c, b c, a);
        };
        cnt = cn;
        hwm = hw;
        members =
            λ x. rw (cn, chn_idx-moved, at-moved) (ground (arith, v.inside, v.apart (h.chn_idx x)));
        others = λ x n. ground (arith, chn_idx-moved h e cur x);
      }

  -- The entry of the hole does not matter.
  pub moved-Hole : Hole key (moved h e cur) e cur
  moved-Hole =
      let m = at-moved h e cur in
      record {
        grown = moved-IsGrown v.grown e cur;
        fits = rw (cnt-moved, hwm-moved) v.fits;
        inside = rw cnt-moved v.inside;
        some_node = v.some_node;
        full = λ i l n. ground (arith, m i, v.full i, cnt-moved h e cur);
        indexed = λ i l n.
            rw (m i, chn_idx-moved) (ground (arith, v.indexed i, v.apart i, cnt-moved h e cur));
        apart = λ i l n. ground (arith, m i, v.apart i, cnt-moved h e cur);
        edges = λ c q l n r. ground (arith, m c, m ((c - 1) / 2), v.edges c, cnt-moved h e cur);
        bridged =
            λ c q l r t. ground (arith, m c, m ((cur - 1) / 2), v.bridged c, cnt-moved h e cur);
      }

  pub moved-Below : Below key h e cur → Below key (moved h e cur) e cur
  moved-Below b c q l r = ground (arith, at-moved h e cur c, b c, cnt-moved h e cur)

  pub moved-Above : Above key h e cur → Above key (moved h e cur) e cur
  moved-Above a p = ground (arith, at-moved h e cur ((cur - 1) / 2))

  pub in_hole-moved_self : (x : ℕ) → in_hole (moved h e cur) e cur x ≡ in_hole h e cur x
  unfolding in_hole
  in_hole-moved_self x = rw (cnt-moved, chn_idx-moved, at-moved) (ground arith)

  pub Ends-moved_self : {h' : Binheap} → Ends key (moved h e cur) e cur h' → Ends key h e cur h'
  unfolding in_hole
  Ends-moved_self w = record {
    heap = w.heap;
    cnt = w.cnt ∙ cnt-moved h e cur;
    hwm = w.hwm ∙ hwm-moved h e cur;
    members = λ x. w.members x ∙ in_hole-moved_self x;
    others = λ x n. w.others x (in_hole-moved_self x ∙ n) ∙ rw chn_idx-moved (ground arith);
  }
