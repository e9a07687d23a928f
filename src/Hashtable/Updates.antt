-- ===== src/Hashtable/Updates.antt =====
-- What putting a record in and taking it out, ch_rec_insert_addref and ch_rec_del_decref of
-- src/gurt/hash.c, do to the map from keys to records.
use std.Path.{subst}
use native.Mathlib.Decide.{ℕ_discrete}
use cart.Prelude.{
  ℕ, ◌<◌, ◌≡◌, ◌≢◌, sym, ap, ◌∙◌, Bool, true, false, not, Option, some, none, List, ◌∷◌, keep_if,
  count, ◌==◌, if◌then◌else◌, arith, inl, inr, ◌⊎◌, ==→eq, Bool-cases, ==_refl,
}
use cart.Hashtable.{
  HashOps, HashTable, ch_key_hash, find_chain, ch_rec_find, ch_rec_insert, ch_rec_delete,
  ch_rec_insert_addref, ch_rec_del_decref, free_if,
}
use cart.Hashtable.Chains.{count-keep, find-counted}
use cart.Hashtable.Maps.{
  KeyLaws, lookup, find-same, find-keep, find-removed, find-key, find-none, insert-shape,
  delete-shape,
}

-- No two records of a chain have the same key.
pub record IsMap {U : Type 0} (ops : HashOps U) (t : HashTable U) : Type 0 where
  pub unique :
      (i q r : ℕ) (k : List ℕ)
      → 0 < count q (t.ht_buckets i)
      → 0 < count r (t.ht_buckets i)
      → ops.hop_key_cmp t.records q k ≡ true
      → ops.hop_key_cmp t.records r k ≡ true
      → q ≡ r

-- The key leads to the record or to none, and nothing changes for the other keys.
pub record Put {U : Type 0} (ops : HashOps U) (t d : HashTable U) (k : List ℕ) (r : Option ℕ)
    : Type 0 where
  pub own : lookup ops d k ≡ r
  pub others : (o : List ℕ) → o ≢ k → lookup ops d o ≡ lookup ops t o

module _ {U : Type 0} (ops : HashOps U) (laws : KeyLaws ops) (t : HashTable U) where
  other-key :
      (r : ℕ) (k o : List ℕ)
      → laws.key_of t.records r ≡ k
      → o ≢ k
      → ops.hop_key_cmp t.records r o ≡ false
  other-key r k o h ne = elim (Bool-cases (ops.hop_key_cmp t.records r o)) [
    | inl c ↦ absurd (ne (sym (laws.matches t.records r o c) ∙ h))
    | inr c ↦ c
  ]

  pub insert-Put :
      (k : List ℕ) (r : ℕ)
      → laws.key_of t.records r ≡ k
      → Put ops t (ch_rec_insert_addref ops t (ch_key_hash ops t k) r) k (some r)
  unfolding lookup ch_rec_find ch_rec_insert ch_key_hash
  insert-Put k r h =
      let idx = ch_key_hash ops t k in
      let (u, keys, eq) = insert-shape ops laws t idx r in
      let chain = λ (b : Bool) (i : ℕ). if b then r ∷ t.ht_buckets i else t.ht_buckets i in
      let cmp = keys r k ∙ ap (ops.hop_key_cmp t.records r) (sym h) ∙ laws.own_key t.records r in
      subst (λ d. Put ops t d k (some r)) (sym eq)
        (record {
          own =
              ap (λ b. find_chain ops u (chain b idx) k) (==_refl idx)
              ∙ ap (λ b. if b then some r else find_chain ops u (t.ht_buckets idx) k) cmp;
          others = λ o ne.
              let i = ch_key_hash ops t o in
              let same = find-same ops t.records u o (t.ht_buckets i) (λ q p. keys q o) in
              elim (Bool-cases (i == idx)) [
                | inl e ↦
                    ap (λ b. find_chain ops u (chain b i) o) e
                    ∙ ap (λ b. if b then some r else find_chain ops u (t.ht_buckets i) o)
                        (keys r o ∙ other-key r k o h ne)
                    ∙ same
                | inr e ↦ ap (λ b. find_chain ops u (chain b i) o) e ∙ same
              ];
        })

  pub delete-Put :
      (k : List ℕ) (r : ℕ)
      → IsMap ops t
      → lookup ops t k ≡ some r
      → Put ops t (free_if ops (ch_rec_del_decref ops t r) r) k none
  unfolding lookup ch_rec_find ch_rec_delete ch_key_hash
  delete-Put k r m h =
      let idx = ch_key_hash ops t k in
      let (u, keys, eq) = delete-shape ops laws t r in
      let mine = find-key ops t.records k (t.ht_buckets idx) r h in
      subst (λ d. Put ops t d k none) (sym eq)
        (record {
          own = find-removed ops u k (t.ht_buckets idx) r (λ q p c. elim (ℕ_discrete q r) [
            | yes e ↦ e
            | no ne ↦
                m.unique idx q r k p (find-counted ops t k (t.ht_buckets idx) r h)
                  (sym (keys q k ne) ∙ c) mine
          ]);
          others = λ o ne.
              let chain = t.ht_buckets (ch_key_hash ops t o) in
              find-same ops t.records u o (keep_if (λ x. not (x == r)) chain)
                (λ q p. keys q o (λ e. absurd (ground (arith, count-keep r q chain, e, p))))
              ∙ find-keep ops t.records o chain r
                  (other-key r k o (laws.matches t.records r k mine) ne);
        })

  chain_members :
      (idx r i q : ℕ)
      → 0 < count q (if i == idx then r ∷ t.ht_buckets i else t.ht_buckets i)
      → ((i ≡ idx) × (q ≡ r)) ⊎ (0 < count q (t.ht_buckets i))
  chain_members idx r i q p = elim (ℕ_discrete q r) [
    | yes e ↦ elim (Bool-cases (i == idx)) [
      | inl h ↦ inl (==→eq i idx h, e)
      | inr h ↦ inr (ground (arith, p, h))
    ]
    | no ne ↦ inr (ground (arith, p, ne))
  ]

  -- No record of the key's chain has a key in common with the new one.
  no_clash :
      (k o : List ℕ) (r i q : ℕ)
      → laws.key_of t.records r ≡ k
      → lookup ops t k ≡ none
      → i ≡ ch_key_hash ops t k
      → 0 < count q (t.ht_buckets i)
      → ops.hop_key_cmp t.records q o ≡ true
      → ops.hop_key_cmp t.records r o ≡ false
  unfolding lookup ch_rec_find
  no_clash k o r i q h n e p c = elim (Bool-cases (ops.hop_key_cmp t.records r o)) [
    | inr d ↦ d
    | inl d ↦
        let same = sym (laws.matches t.records r o d) ∙ h in
        let none_here =
          find-none ops t.records k (t.ht_buckets (ch_key_hash ops t k)) q n
            (subst (λ j. 0 < count q (t.ht_buckets j)) e p) in
        absurd (ground (arith, c, ap (ops.hop_key_cmp t.records q) same, none_here))
  ]

  pub insert-IsMap :
      (k : List ℕ) (r : ℕ)
      → laws.key_of t.records r ≡ k
      → IsMap ops t
      → lookup ops t k ≡ none
      → IsMap ops (ch_rec_insert_addref ops t (ch_key_hash ops t k) r)
  unfolding ch_rec_insert
  insert-IsMap k r h m n =
      let idx = ch_key_hash ops t k in
      let (u, keys, eq) = insert-shape ops laws t idx r in
      subst (IsMap ops) (sym eq) (record {
        unique = λ i q s o p p' c c'.
            let c1 = sym (keys q o) ∙ c in
            let c2 = sym (keys s o) ∙ c' in
            elim (chain_members idx r i q p) [
              | inl (a, x) ↦ elim (chain_members idx r i s p') [
                | inl (b, y) ↦ x ∙ sym y
                | inr y ↦ absurd (
                    ground (
                      arith,
                      no_clash k o r i s h n a y c2,
                      ap (λ z. ops.hop_key_cmp t.records z o) x,
                      c1,
                    ))
              ]
              | inr x ↦ elim (chain_members idx r i s p') [
                | inl (b, y) ↦ absurd (
                    ground (
                      arith,
                      no_clash k o r i q h n b x c1,
                      ap (λ z. ops.hop_key_cmp t.records z o) y,
                      c2,
                    ))
                | inr y ↦ m.unique i q s o x y c1 c2
              ]
            ];
      })

  pub delete-IsMap : (r : ℕ) → IsMap ops t → IsMap ops (free_if ops (ch_rec_del_decref ops t r) r)
  unfolding ch_rec_delete
  delete-IsMap r m =
      let (u, keys, eq) = delete-shape ops laws t r in
      let kept = λ (i q : ℕ). count-keep r q (t.ht_buckets i) in
      subst (IsMap ops) (sym eq) (record {
        unique = λ i q s o p p' c c'.
            m.unique i q s o (ground (arith, kept i q)) (ground (arith, kept i s))
              (sym (keys q o (λ e. absurd (ground (arith, kept i q, e, p)))) ∙ c)
              (sym (keys s o (λ e. absurd (ground (arith, kept i s, e, p')))) ∙ c');
      })
