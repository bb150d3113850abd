-- ===== src/Builds/Values.antt =====
-- How well an item belongs to the builds, and what the map says of a SHA1 value after the loop.
use jfrog_client_go.Base.{
  ℕ, ◌≡◌, refl, ap, ◌∙◌, Bool, false, ◌&&◌, not, List, [], ◌∷◌, ◌==◌, any, arith, if◌then◌else◌,
  inl, inr, Bool-cases,
}
use jfrog_client_go.Base.Text.{Bytes, str_eq}
use jfrog_client_go.Search.{ResultItem}
use jfrog_client_go.Aql.Body.{Build}
use jfrog_client_go.Builds.{has_build, has_build_name}

-- 0 for an item of one of the builds, 1 for an item of another number of one of them, 2 for any other.
abbrev pub level : List Build → ResultItem → ℕ
level builds item = if has_build builds item then 0 else if has_build_name builds item then 1 else 2

-- A priority after an item of level `l`.
abbrev pub lower : ℕ → ℕ → ℕ
lower l v = if l == 0 then 0 else if (l == 1) && not (v == 0) then 1 else v

pub lower-same : (l v : ℕ) → (l == 0) ≡ false → ((l == 1) && not (v == 0)) ≡ false → lower l v ≡ v
lower-same l v h k = ground arith

module _ (builds : List Build) where
  pub level-two :
      (item : ResultItem)
      → has_build builds item ≡ false
      → has_build_name builds item ≡ false
      → level builds item ≡ 2
  level-two item h k = rw (h, k) refl

  -- Some item with the SHA1 value has the level.
  abbrev pub some_at : ℕ → Bytes → List ResultItem → Bool
  some_at l sha items = any items (λ q. str_eq q.actual_sha1 sha && (level builds q == l))

  -- The best level of the items with the SHA1 value.
  abbrev pub best : Bytes → List ResultItem → ℕ
  best sha items = if some_at 0 sha items then 0 else if some_at 1 sha items then 1 else 2

  -- The priority of a SHA1 value after the loop over the items.
  unfoldable pub value : Bytes → ℕ → List ResultItem → ℕ
  value sha v [] = v
  value sha v (x ∷ xs) =
      value sha (if str_eq x.actual_sha1 sha then lower (level builds x) v else v) xs

  pub value-zero : (sha : Bytes) (xs : List ResultItem) → value sha 0 xs ≡ 0
  unfolding value
  value-zero sha [] = refl
  value-zero sha (x ∷ xs) =
      let same : (if str_eq x.actual_sha1 sha then lower (level builds x) 0 else 0) ≡ 0 =
        ground arith in
      ap (λ v. value sha v xs) same ∙ value-zero sha xs

  pub value-two :
      (sha : Bytes) (v : ℕ) (xs : List ResultItem)
      → (v == 2) ≡ false
      → (value sha v xs == 2) ≡ false
  unfolding value
  value-two sha v [] h = h
  value-two sha v (x ∷ xs) h =
      value-two sha (if str_eq x.actual_sha1 sha then lower (level builds x) v else v) xs
        (ground arith)

  value-one :
      (sha : Bytes) (xs : List ResultItem) → value sha 1 xs ≡ (if some_at 0 sha xs then 0 else 1)
  unfolding value
  value-one sha [] = refl
  value-one sha (x ∷ xs) = elim (Bool-cases (str_eq x.actual_sha1 sha && (level builds x == 0))) [
    | inl e ↦
        let same : (if str_eq x.actual_sha1 sha then lower (level builds x) 1 else 1) ≡ 0 =
          ground arith in
        ap (λ v. value sha v xs) same ∙ value-zero sha xs ∙ rw e refl
    | inr e ↦
        let same : (if str_eq x.actual_sha1 sha then lower (level builds x) 1 else 1) ≡ 1 =
          ground arith in
        ap (λ v. value sha v xs) same ∙ value-one sha xs ∙ rw e refl
  ]

  pub value-best : (sha : Bytes) (xs : List ResultItem) → value sha 2 xs ≡ best sha xs
  unfolding value
  value-best sha [] = refl
  value-best sha (x ∷ xs) = elim (Bool-cases (str_eq x.actual_sha1 sha && (level builds x == 0))) [
    | inl e ↦
        let same : (if str_eq x.actual_sha1 sha then lower (level builds x) 2 else 2) ≡ 0 =
          ground arith in
        ap (λ v. value sha v xs) same ∙ value-zero sha xs ∙ rw e refl
    | inr e ↦ elim (Bool-cases (str_eq x.actual_sha1 sha && (level builds x == 1))) [
      | inl h ↦
          let same : (if str_eq x.actual_sha1 sha then lower (level builds x) 2 else 2) ≡ 1 =
            ground arith in
          ap (λ v. value sha v xs) same ∙ value-one sha xs ∙ rw (e, h) refl
      | inr h ↦
          let same : (if str_eq x.actual_sha1 sha then lower (level builds x) 2 else 2) ≡ 2 =
            ground arith in
          ap (λ v. value sha v xs) same ∙ value-best sha xs ∙ rw (e, h) refl
    ]
  ]
