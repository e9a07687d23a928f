-- ===== src/Hashtable/Drained.antt =====
-- The destruction of a table, d_hash_table_destroy_inplace of src/gurt/hash.c.
use std.Path.{subst}
use cart.Prelude.{
  ℕ, zero, suc, ◌+◌, ◌^◌, ◌≤◌, ◌<◌, ◌≡◌, refl, sym, ap, ◌∙◌, Bool, true, false, not, ◌&&◌, List, [],
  ◌∷◌, keep_if, length, count, ◌==◌, if◌then◌else◌, arith, inl, inr, ◌⊎◌, Bool-cases, ==_refl,
  der_busy,
}
use cart.Hashtable.{
  HashOps, HashTable, linked, ch_rec_delete, ch_rec_decref, ch_rec_del_decref, free_if,
  rec_delete_at,
}
use cart.Hashtable.Chains.{counted-linked}
use cart.Hashtable.Counts.{CountLaws, decref-is, free-is}
use cart.Hashtable.Lives.{IsLive}
use cart.Hashtable.Holds.{delete_at-IsLive}

-- d_hash_table_is_empty of a table that has its buckets
abbrev pub empty_below : ℕ → (ℕ → List ℕ) → Bool
empty_below zero b = true
empty_below (suc nr) b = length (b nr) == 0 && empty_below nr b

module _ {U : Type 0} (ops : HashOps U) where
  -- A round of the inner loop: the first record of the chain goes.
  abbrev pub drain_first : List ℕ → HashTable U → (HashTable U → HashTable U) → HashTable U
  drain_first [] t next = t
  drain_first (r ∷ rs) t next = next (rec_delete_at ops t r).0

  -- The inner loop, for one bucket
  abbrev pub drain : ℕ → HashTable U → ℕ → HashTable U
  drain zero t i = t
  drain (suc fuel) t i = drain_first (t.ht_buckets i) t (λ d. drain fuel d i)

  -- The outer loop, over `left` buckets from the bucket `i` on
  abbrev pub drain_from : (left i : ℕ) → HashTable U → HashTable U
  drain_from zero i t = t
  drain_from (suc left) i t = drain_from left (i + 1) (drain (length (t.ht_buckets i)) t i)

  -- The table before its buckets are freed and it is zeroed, and the return code
  unfoldable pub destroy_inplace : HashTable U → (force : Bool) → HashTable U × ℕ
  destroy_inplace t force =
      if force
      then (drain_from (2 ^ t.ht_bits) 0 t, 0)
      else (t, if empty_below (2 ^ t.ht_bits) t.ht_buckets then 0 else der_busy)

no_length : (xs : List ℕ) → length xs ≤ 0 → xs ≡ []
no_length [] h = refl
no_length (x ∷ xs) h = absurd (omega arith)

pub chain-cases : (xs : List ℕ) → (xs ≡ []) ⊎ ((r : ℕ) × (rs : List ℕ) × (xs ≡ r ∷ rs))
chain-cases [] = inl refl
chain-cases (r ∷ rs) = inr (r, rs, refl)

length-keep : (p : ℕ → Bool) (xs : List ℕ) → length (keep_if p xs) ≤ length xs
length-keep p [] = omega arith
length-keep p (x ∷ xs) = elim (Bool-cases (p x)) [
  | inl e ↦ ground (arith, length-keep p xs)
  | inr e ↦ ground (arith, length-keep p xs)
]

module _ {U : Type 0} (ops : HashOps U) (laws : CountLaws ops) where
  freed-buckets :
      (t : HashTable U) (r : ℕ) (b : Bool)
      → ((free_if ops (t, b) r).ht_buckets ≡ t.ht_buckets)
        × ((free_if ops (t, b) r).ht_bits ≡ t.ht_bits)
  unfolding free_if
  freed-buckets t r false = (refl, refl)
  freed-buckets t r true =
      (ap (λ d. d.ht_buckets) (free-is ops laws t r), ap (λ d. d.ht_bits) (free-is ops laws t r))

  deleted-buckets :
      (t : HashTable U) (r : ℕ)
      → let d = free_if ops (ch_rec_del_decref ops t r) r in
        (d.ht_buckets ≡ (ch_rec_delete ops t r).ht_buckets) × (d.ht_bits ≡ t.ht_bits)
  unfolding ch_rec_del_decref free_if ch_rec_delete
  deleted-buckets t r =
      let d = ch_rec_delete ops t r in
      let low = decref-is ops laws d r in
      let plain = λ (x : Bool). free_if ops (if x then (d, false) else ch_rec_decref ops d r) r in
      elim (Bool-cases t.ephemeral) [
        | inl e ↦ (ap (λ x. (plain x).ht_buckets) e, ap (λ x. (plain x).ht_bits) e)
        | inr e ↦
            let (s, n) =
              freed-buckets (record d { records = (laws.decref d.records r).0 }) r
                (laws.decref d.records r).1 in
            (
              ap (λ x. (plain x).ht_buckets) e ∙ ap (λ x. (free_if ops x r).ht_buckets) low ∙ s,
              ap (λ x. (plain x).ht_bits) e ∙ ap (λ x. (free_if ops x r).ht_bits) low ∙ n,
            )
      ]

  deleted_at-buckets :
      (t : HashTable U) (r : ℕ)
      → linked t r ≡ true
      → let d = (rec_delete_at ops t r).0 in
        (d.ht_buckets ≡ (ch_rec_delete ops t r).ht_buckets) × (d.ht_bits ≡ t.ht_bits)
  unfolding rec_delete_at
  deleted_at-buckets t r h =
      let (s, n) = deleted-buckets t r in
      let answer = λ (x : Bool).
        if◌then◌else◌ {A = HashTable U × Bool} x (free_if ops (ch_rec_del_decref ops t r) r, true)
          (t, false) in
      (ap (λ x. (answer x).0.ht_buckets) h ∙ s, ap (λ x. (answer x).0.ht_bits) h ∙ n)

  -- One bucket is empty, and those that were stay so.
  pub record OneLess (t d : HashTable U) (held : ℕ → ℕ) (i : ℕ) : Type 0 where
    pub live : IsLive laws d held
    pub bits : d.ht_bits ≡ t.ht_bits
    pub gone : d.ht_buckets i ≡ []
    pub still : (j : ℕ) → t.ht_buckets j ≡ [] → d.ht_buckets j ≡ []

  pub drain-OneLess :
      (fuel : ℕ) (t : HashTable U) (held : ℕ → ℕ) (i : ℕ)
      → IsLive laws t held
      → length (t.ht_buckets i) ≤ fuel
      → i < 2 ^ t.ht_bits
      → OneLess t (drain ops fuel t i) held i
  unfolding ch_rec_delete
  drain-OneLess zero t held i live le lt = record {
    live = live;
    bits = refl;
    gone = no_length (t.ht_buckets i) le;
    still = λ j e. e;
  }
  drain-OneLess (suc fuel) t held i live le lt =
      let next = λ (d : HashTable U). drain ops fuel d i in
      let goal = λ (xs : List ℕ). OneLess t (drain_first ops xs t next) held i in
      elim (chain-cases (t.ht_buckets i)) [
        | inl e ↦
            subst goal (sym e) (record { live = live; bits = refl; gone = e; still = λ j e'. e' })
        | inr (r, rs, e) ↦
            let h =
              counted-linked t.ht_buckets (2 ^ t.ht_bits) i r lt (ground (arith, ap (count r) e)) in
            let (s, n) = deleted_at-buckets t r h in
            let d = (rec_delete_at ops t r).0 in
            let chain = ap (λ b. b i) s ∙ ap (keep_if (λ x. not (x == r))) e in
            let rest =
              drain-OneLess fuel d held i (delete_at-IsLive ops laws t held r live)
                (ground (
                  arith,
                  ap length chain,
                  length-keep (λ x. not (x == r)) rs,
                  ap length e,
                  ==_refl r,
                ))
                (subst (λ w. i < 2 ^ w) (sym n) lt) in
            subst goal (sym e) (record {
              live = rest.live;
              bits = rest.bits ∙ n;
              gone = rest.gone;
              still = λ j e'. rest.still j (ap (λ b. b j) s ∙ ap (keep_if (λ x. not (x == r))) e');
            })
      ]
