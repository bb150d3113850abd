-- ===== src/Sort/Buffer.antt =====
-- SortAndSaveBufferToFile: a buffer whose keys are distinct is strictly sorted, and holds the same records.
use jfrog_client_go.Base.{
  ◌≡◌, refl, sym, ap, ◌∙◌, Bool, false, ◌||◌, none, some, List, [], ◌∷◌, ◌++◌, All, any, map, arith,
  Bool-cases, Option-cases, inl, inr, if◌then◌else◌,
}
use jfrog_client_go.Base.Text.{Bytes, str_eq, str_eq_iff}
use jfrog_client_go.Merge.{compare_strings}
use jfrog_client_go.Sort.{
  SortRecord, lookup, insert_key, sort_keys, gather, sort_and_save_buffer_to_file, keyed,
  save_buffer,
}
use jfrog_client_go.Sort.Keyed.{
  IsBefore, IsBefore-total, str_eq_sym, find_key, find_key-append, or_else, AllBehind,
  AllBehind-trans, IsStrict,
}
use jfrog_client_go.Sort.Pass.{key_of}
use jfrog_client_go.Sort.Merged.{SortsTo}

abbrev pub itself : Bytes → Bytes
itself k = k

abbrev pub has : List Bytes → Bytes → Bool
has ks k = any ks (λ j. str_eq j k)

module _ (asc : Bool) where
  insert_key-AllBehind :
      (j k : Bytes) (ks : List Bytes)
      → IsBefore asc j k
      → AllBehind itself asc j ks
      → AllBehind itself asc j (insert_key asc k ks)
  unfolding insert_key
  insert_key-AllBehind j k [] h hs = (h, tt)
  insert_key-AllBehind j k (i ∷ is) h (hi, hs) = elim (Bool-cases (compare_strings k i asc)) [
    | inl e ↦ rw e (hi, insert_key-AllBehind j k is h hs)
    | inr e ↦ rw e (h, (hi, hs))
  ]

  has-insert_key :
      (i k : Bytes) (ks : List Bytes) → has (insert_key asc k ks) i ≡ str_eq k i || has ks i
  unfolding insert_key
  has-insert_key i k [] = refl
  has-insert_key i k (j ∷ js) = ground (arith, has-insert_key i k js)

  insert_key-IsStrict :
      (k : Bytes) (ks : List Bytes)
      → IsStrict itself asc ks
      → has ks k ≡ false
      → IsStrict itself asc (insert_key asc k ks)
  unfolding insert_key
  insert_key-IsStrict k [] s h = (tt, tt)
  insert_key-IsStrict k (j ∷ js) (s, ss) h =
      let other : str_eq j k ≡ false = ground arith in
      let rest : has js k ≡ false = ground arith in
      elim (Bool-cases (compare_strings k j asc)) [
        | inl e ↦ rw e (insert_key-AllBehind j k js e s, insert_key-IsStrict k js ss rest)
        | inr e ↦
            let first = IsBefore-total asc k j (str_eq_sym k j ∙ other) e in
            rw e ((first, AllBehind-trans itself asc k j js first s), (s, ss))
      ]

  has-sort_keys : (i : Bytes) (ks : List Bytes) → has (sort_keys asc ks) i ≡ has ks i
  unfolding sort_keys
  has-sort_keys i [] = refl
  has-sort_keys i (k ∷ ks) =
      has-insert_key i k (sort_keys asc ks) ∙ ap (λ b. str_eq k i || b) (has-sort_keys i ks)

-- No key stands twice.
abbrev pub DistinctKeys : {A : Type 0} → List (SortRecord A) → Type 0
DistinctKeys [] = Unit
DistinctKeys (r ∷ rs) = (find_key key_of r.key rs ≡ none) × DistinctKeys rs

module _ {A : Type 0} where
  pub lookup-keyed :
      (asc : Bool) (k : Bytes) (rs : List (SortRecord A))
      → lookup k (map (keyed asc) rs) ≡ find_key key_of k rs
  unfolding lookup find_key
  lookup-keyed asc k [] = refl
  lookup-keyed asc k (r ∷ rs) =
      ap (λ o. if str_eq r.key k then some r else o) (lookup-keyed asc k rs)

  pub DistinctKeys-snoc :
      (rs : List (SortRecord A)) (r : SortRecord A)
      → DistinctKeys rs
      → find_key key_of r.key rs ≡ none
      → DistinctKeys (rs ++ r ∷ [])
  unfolding find_key or_else
  DistinctKeys-snoc [] r d h = (refl, tt)
  DistinctKeys-snoc (s ∷ rs) r (d, ds) h =
      let found = find_key-append key_of s.key rs (r ∷ []) in
      let other = str_eq_sym s.key r.key in
      elim (Bool-cases (str_eq s.key r.key)) [
        | inl e ↦ absurd (ground arith)
        | inr e ↦
            let e' : str_eq r.key s.key ≡ false = sym other ∙ e in
            let h' : find_key key_of r.key rs ≡ none = rw e at h in
            (rw (found, d, e') refl, DistinctKeys-snoc rs r ds h')
      ]

  find_key-none-has :
      (k : Bytes) (rs : List (SortRecord A))
      → has (map key_of rs) k ≡ false
      → find_key key_of k rs ≡ none
  unfolding find_key
  find_key-none-has k [] h = refl
  find_key-none-has k (r ∷ rs) h = ground (arith, find_key-none-has k rs)

  has-none :
      (k : Bytes) (rs : List (SortRecord A))
      → find_key key_of k rs ≡ none
      → has (map key_of rs) k ≡ false
  unfolding find_key
  has-none k [] h = refl
  has-none k (r ∷ rs) h = ground (arith, has-none k rs)

  find_key-key :
      (k : Bytes) (rs : List (SortRecord A)) (r : SortRecord A)
      → find_key key_of k rs ≡ some r
      → r.key ≡ k
  unfolding find_key
  find_key-key k [] r h = cc
  find_key-key k (s ∷ rs) r h = elim (Bool-cases (str_eq s.key k)) [
    | inl e ↦
        let h' : some s ≡ some r = rw e at h in
        let same : s ≡ r = ground arith in ap key_of (sym same) ∙ (str_eq_iff s.key k).0 e
    | inr e ↦ find_key-key k rs r (rw e at h)
  ]

  find_key-All :
      (P : SortRecord A → Type 0) (k : Bytes) (rs : List (SortRecord A)) (r : SortRecord A)
      → All P rs
      → find_key key_of k rs ≡ some r
      → P r
  unfolding find_key
  find_key-All P k [] r hs h = cc
  find_key-All P k (s ∷ rs) r (p, hs) h = elim (Bool-cases (str_eq s.key k)) [
    | inl e ↦
        let h' : some s ≡ some r = rw e at h in let same : s ≡ r = ground arith in rw (sym same) p
    | inr e ↦ find_key-All P k rs r hs (rw e at h)
  ]

module _ {A : Type 0} (asc : Bool) (rs : List (SortRecord A)) where
  abbrev gathered : List Bytes → List (SortRecord A)
  gathered = gather (map (keyed asc) rs)

  gather-AllBehind :
      (j : Bytes) (ks : List Bytes)
      → AllBehind itself asc j ks
      → AllBehind key_of asc j (gathered ks)
  unfolding gather
  gather-AllBehind j [] h = tt
  gather-AllBehind j (k ∷ ks) (h, hs) =
      let same = lookup-keyed asc k rs in
      elim (Option-cases (find_key key_of k rs)) [
        | inl e ↦ rw (same, e, gather) (gather-AllBehind j ks hs)
        | inr (r, e) ↦ rw (same, e, gather) (rw (find_key-key k rs r e) h, gather-AllBehind j ks hs)
      ]

  gather-IsStrict : (ks : List Bytes) → IsStrict itself asc ks → IsStrict key_of asc (gathered ks)
  unfolding gather
  gather-IsStrict [] h = tt
  gather-IsStrict (k ∷ ks) (h, hs) =
      let same = lookup-keyed asc k rs in
      elim (Option-cases (find_key key_of k rs)) [
        | inl e ↦ rw (same, e, gather) (gather-IsStrict ks hs)
        | inr (r, e) ↦
            rw (same, e, gather)
              (rw (find_key-key k rs r e) (gather-AllBehind k ks h), gather-IsStrict ks hs)
      ]

  gather-All : (P : SortRecord A → Type 0) (ks : List Bytes) → All P rs → All P (gathered ks)
  unfolding gather
  gather-All P [] hs = tt
  gather-All P (k ∷ ks) hs =
      let same = lookup-keyed asc k rs in
      elim (Option-cases (find_key key_of k rs)) [
        | inl e ↦ rw (same, e, gather) (gather-All P ks hs)
        | inr (r, e) ↦ rw (same, e, gather) (find_key-All P k rs r hs e, gather-All P ks hs)
      ]

  find_key-gather :
      (k : Bytes) (ks : List Bytes)
      → find_key key_of k (gathered ks) ≡ (if has ks k then find_key key_of k rs else none)
  unfolding gather find_key
  find_key-gather k [] = refl
  find_key-gather k (j ∷ ks) =
      let same = lookup-keyed asc j rs in
      let ih = find_key-gather k ks in
      elim (Option-cases (find_key key_of j rs)) [
        | inl e ↦ elim (Bool-cases (str_eq j k)) [
          | inl h ↦
              let e' : find_key key_of k rs ≡ none = rw ((str_eq_iff j k).0 h) at e in
              rw (same, e, gather, ih, h, e') ground arith
          | inr h ↦ rw (same, e, gather, ih, h) refl
        ]
        | inr (r, e) ↦
            let key = ap (λ x. str_eq x k) (find_key-key j rs r e) in
            elim (Bool-cases (str_eq j k)) [
              | inl h ↦
                  let e' : find_key key_of k rs ≡ some r = rw ((str_eq_iff j k).0 h) at e in
                  rw (same, e, gather, key ∙ h, h, e') refl
              | inr h ↦ rw (same, e, gather, key ∙ h, h) ih
            ]
      ]

  sort_keys-IsStrict :
      (ss : List (SortRecord A))
      → DistinctKeys ss
      → IsStrict itself asc (sort_keys asc (map key_of ss))
  unfolding sort_keys
  sort_keys-IsStrict [] d = tt
  sort_keys-IsStrict (s ∷ ss) (d, ds) =
      insert_key-IsStrict asc s.key (sort_keys asc (map key_of ss)) (sort_keys-IsStrict ss ds)
        (has-sort_keys asc s.key (map key_of ss) ∙ has-none s.key ss d)

  -- Saving a buffer sorts its records.
  pub save_buffer-SortsTo : DistinctKeys rs → SortsTo asc rs (save_buffer asc rs)
  unfolding save_buffer sort_and_save_buffer_to_file
  save_buffer-SortsTo d = (
    gather-IsStrict (sort_keys asc (map key_of rs)) (sort_keys-IsStrict rs d),
    (λ k.
        find_key-gather k (sort_keys asc (map key_of rs))
        ∙ ap (λ b. if b then find_key key_of k rs else none) (has-sort_keys asc k (map key_of rs))
        ∙ elim (Bool-cases (has (map key_of rs) k)) [
          | inl e ↦ rw e refl
          | inr e ↦ rw e (sym (find_key-none-has k rs e))
        ]),
    λ P h. gather-All P (sort_keys asc (map key_of rs)) h,
  )
