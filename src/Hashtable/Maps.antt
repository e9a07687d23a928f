-- ===== src/Hashtable/Maps.antt =====
-- The table of src/gurt/hash.c as a map from keys to records, and the searches in a chain.
use native.Mathlib.Decide.{ℕ_discrete}
use cart.Prelude.{
  ℕ, ◌<◌, ◌≡◌, ◌≢◌, refl, ap, ◌∙◌, Bool, true, false, not, Option, some, none, List, [], ◌∷◌,
  keep_if, count, ◌==◌, if◌then◌else◌, arith, inl, inr, Bool-cases, Option-cases,
}
use cart.Hashtable.{
  HashOps, HashTable, ch_key_hash, find_chain, ch_rec_find, ch_rec_insert, ch_rec_delete,
  ch_rec_addref, ch_rec_decref, ch_rec_free, ch_rec_insert_addref, ch_rec_del_decref, free_if,
}

-- A record has one key, which hop_key_cmp compares and which no callback changes while the record
-- lives.
pub record KeyLaws {U : Type 0} (ops : HashOps U) : Type 0 where
  pub key_of : U → ℕ → List ℕ
  pub matches : (u : U) (r : ℕ) (k : List ℕ) → ops.hop_key_cmp u r k ≡ true → key_of u r ≡ k
  pub own_key : (u : U) (r : ℕ) → ops.hop_key_cmp u r (key_of u r) ≡ true
  pub addref_keeps :
      (f : U → ℕ → U)
      → ops.hop_rec_addref ≡ some f
      → (u : U) (r q : ℕ) (k : List ℕ) → ops.hop_key_cmp (f u r) q k ≡ ops.hop_key_cmp u q k
  pub decref_keeps :
      (f : U → ℕ → U × Bool)
      → ops.hop_rec_decref ≡ some f
      → (u : U) (r q : ℕ) (k : List ℕ) → ops.hop_key_cmp (f u r).0 q k ≡ ops.hop_key_cmp u q k
  pub free_keeps :
      (f : U → ℕ → U)
      → ops.hop_rec_free ≡ some f
      → (u : U) (r q : ℕ) (k : List ℕ) → q ≢ r
      → ops.hop_key_cmp (f u r) q k ≡ ops.hop_key_cmp u q k

-- The record that the table has for a key
unfoldable pub lookup : {U : Type 0} → HashOps U → HashTable U → List ℕ → Option ℕ
lookup ops t k = ch_rec_find ops t (ch_key_hash ops t k) k

module _ {U : Type 0} (ops : HashOps U) where
  -- Only the keys of the records in the chain count.
  pub find-same :
      (u v : U) (k xs : List ℕ)
      → ((q : ℕ) → 0 < count q xs → ops.hop_key_cmp v q k ≡ ops.hop_key_cmp u q k)
      → find_chain ops v xs k ≡ find_chain ops u xs k
  find-same u v k [] same = refl
  find-same u v k (x ∷ xs) same =
      ap (λ b. if b then some x else find_chain ops v xs k) (same x (ground arith))
      ∙ ap (λ o. if ops.hop_key_cmp u x k then some x else o)
          (find-same u v k xs (λ q p. same q (ground arith)))

  pub find-keep :
      (u : U) (k xs : List ℕ) (r : ℕ)
      → ops.hop_key_cmp u r k ≡ false
      → find_chain ops u (keep_if (λ x. not (x == r)) xs) k ≡ find_chain ops u xs k
  find-keep u k [] r h = refl
  find-keep u k (x ∷ xs) r h = elim (ℕ_discrete x r) [
    | yes e ↦ ground (arith, find-keep u k xs r h, ap (λ y. ops.hop_key_cmp u y k) e)
    | no ne ↦ ground (arith, find-keep u k xs r h)
  ]

  pub find-removed :
      (u : U) (k xs : List ℕ) (r : ℕ)
      → ((q : ℕ) → 0 < count q xs → ops.hop_key_cmp u q k ≡ true → q ≡ r)
      → find_chain ops u (keep_if (λ x. not (x == r)) xs) k ≡ none
  find-removed u k [] r h = refl
  find-removed u k (x ∷ xs) r h =
      let rest = find-removed u k xs r (λ q p. h q (ground arith)) in
      elim (ℕ_discrete x r) [
        | yes e ↦ ground (arith, rest)
        | no ne ↦ ground (arith, rest, h x (ground arith))
      ]

  pub find-key :
      (u : U) (k xs : List ℕ) (r : ℕ)
      → find_chain ops u xs k ≡ some r
      → ops.hop_key_cmp u r k ≡ true
  find-key u k [] r h = ground arith
  find-key u k (x ∷ xs) r h = elim (Bool-cases (ops.hop_key_cmp u x k)) [
    | inl c ↦ ground (arith, ap (λ y. ops.hop_key_cmp u y k))
    | inr c ↦ ground (arith, find-key u k xs r)
  ]

  pub find-none :
      (u : U) (k xs : List ℕ) (q : ℕ)
      → find_chain ops u xs k ≡ none
      → 0 < count q xs
      → ops.hop_key_cmp u q k ≡ false
  find-none u k [] q h p = absurd (omega arith)
  find-none u k (x ∷ xs) q h p = elim (Bool-cases (ops.hop_key_cmp u x k)) [
    | inl c ↦ ground arith
    | inr c ↦ elim (ℕ_discrete q x) [
      | yes e ↦ ap (λ y. ops.hop_key_cmp u y k) e ∙ c
      | no ne ↦ find-none u k xs q (ground arith) (ground arith)
    ]
  ]

  module _ (laws : KeyLaws ops) where
    -- The callbacks change the records only, and no key.
    pub addref-shape :
        (t : HashTable U) (r : ℕ)
        → (u : U) × ((q : ℕ) (k : List ℕ) → ops.hop_key_cmp u q k ≡ ops.hop_key_cmp t.records q k)
          × (ch_rec_addref ops t r ≡ record t { records = u })
    unfolding ch_rec_addref
    addref-shape t r = elim (Option-cases ops.hop_rec_addref) [
      | inl n ↦ (t.records, λ q k. refl, rw n)
      | inr (f, h) ↦ (f t.records r, laws.addref_keeps f h t.records r, rw h)
    ]

    decref-shape :
        (t : HashTable U) (r : ℕ)
        → (u : U) × (b : Bool) × ((q : ℕ) (k : List ℕ)
            → ops.hop_key_cmp u q k ≡ ops.hop_key_cmp t.records q k)
          × (ch_rec_decref ops t r ≡ (record t { records = u }, b))
    unfolding ch_rec_decref
    decref-shape t r = elim (Option-cases ops.hop_rec_decref) [
      | inl n ↦ (t.records, false, λ q k. refl, rw n)
      | inr (f, h) ↦ ((f t.records r).0, (f t.records r).1, laws.decref_keeps f h t.records r, rw h)
    ]

    free-shape :
        (t : HashTable U) (r : ℕ) (b : Bool)
        → (u : U) × ((q : ℕ) (k : List ℕ)
            → q ≢ r
            → ops.hop_key_cmp u q k ≡ ops.hop_key_cmp t.records q k)
          × (free_if ops (t, b) r ≡ record t { records = u })
    unfolding ch_rec_free free_if
    free-shape t r false = (t.records, λ q k ne. refl, refl)
    free-shape t r true = elim (Option-cases ops.hop_rec_free) [
      | inl n ↦ (t.records, λ q k ne. refl, rw n)
      | inr (f, h) ↦ (f t.records r, laws.free_keeps f h t.records r, rw h)
    ]

    -- What becomes of the table that a record goes into, or that it leaves
    pub insert-shape :
        (t : HashTable U) (idx r : ℕ)
        → (u : U) × ((q : ℕ) (k : List ℕ) → ops.hop_key_cmp u q k ≡ ops.hop_key_cmp t.records q k)
          × (ch_rec_insert_addref ops t idx r ≡ record (ch_rec_insert ops t idx r) { records = u })
    unfolding ch_rec_insert_addref ch_rec_insert
    insert-shape t idx r =
        let (u, keys, eq) = addref-shape t r in
        elim (Bool-cases t.ephemeral) [
          | inl e ↦ (
            t.records,
            λ q k. refl,
            ap (λ b. ch_rec_insert ops (if b then t else ch_rec_addref ops t r) idx r) e,
          )
          | inr e ↦ (
            u,
            keys,
            ap (λ b. ch_rec_insert ops (if b then t else ch_rec_addref ops t r) idx r) e
                ∙ ap (λ d. ch_rec_insert ops d idx r) eq,
          )
        ]

    pub delete-shape :
        (t : HashTable U) (r : ℕ)
        → (u : U) × ((q : ℕ) (k : List ℕ)
            → q ≢ r
            → ops.hop_key_cmp u q k ≡ ops.hop_key_cmp t.records q k)
          × (free_if ops (ch_rec_del_decref ops t r) r
              ≡ record (ch_rec_delete ops t r) { records = u })
    unfolding ch_rec_del_decref ch_rec_delete free_if
    delete-shape t r =
        let d = ch_rec_delete ops t r in
        let (u, b, keys, eq) = decref-shape d r in
        let (v, others, freed) = free-shape (record d { records = u }) r b in
        let plain = λ (x : Bool). free_if ops (if x then (d, false) else ch_rec_decref ops d r) r in
        elim (Bool-cases t.ephemeral) [
          | inl e ↦ (t.records, λ q k ne. refl, ap plain e)
          | inr e ↦ (
            v,
            λ q k ne. others q k ne ∙ keys q k,
            ap plain e ∙ ap (λ x. free_if ops x r) eq ∙ freed,
          )
        ]
