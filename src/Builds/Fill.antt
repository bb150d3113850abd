-- ===== src/Builds/Fill.antt =====
-- Step 1 of filterBuildAqlSearchResults: what the three files hold, and the map after the loop.
use jfrog_client_go.Base.{
  ℕ, ◌≡◌, refl, sym, ap, ◌∙◌, fun_ext, Bool, true, false, ◌&&◌, ◌||◌, not, Option, none, some, List,
  [], ◌∷◌, ◌==◌, zero, suc, ltb, ==_iff, keep, arith, if◌then◌else◌, inl, inr, Bool-cases,
  Option-cases,
}
use jfrog_client_go.Base.Text.{Bytes, str_eq, str_eq_iff, str_eq_refl}
use jfrog_client_go.Search.{ResultItem}
use jfrog_client_go.Aql.Body.{Build}
use jfrog_client_go.Builds.{
  ShaMap, get, put, or_zero, Priorities, has_build, has_build_name, fill_priorities,
}
use jfrog_client_go.Builds.Values.{level, lower, value, value-zero, value-two}

put-same : (sha : Bytes) (v : ℕ) (shas : ShaMap) → shas sha ≡ some v → put sha v shas ≡ shas
put-same sha v shas h = fun_ext λ s. elim (Bool-cases (str_eq sha s)) [
  | inl e ↦ rw e (sym h ∙ ap shas ((str_eq_iff sha s).0 e))
  | inr e ↦ rw e refl
]

-- The file of a level.
abbrev pub file : ℕ → Priorities → List ResultItem
file l p = if l == 0 then p.first else if l == 1 then p.second else p.third

-- An item of level `l` is written when its SHA1 value had the priority `v`.
abbrev writes : ℕ → ℕ → Bool
writes l v = (l == 0) || (((l == 1) && not (v == 0)) || ((l == 2) && (v == 2)))

module _ (builds : List Build) where
  -- The item before the rest of the loop.
  abbrev added : ResultItem → ℕ → Priorities → Priorities
  added x v p = record {
    first = if level builds x == 0 then x ∷ p.first else p.first;
    second = if (level builds x == 1) && not (v == 0) then x ∷ p.second else p.second;
    third = if (level builds x == 2) && (v == 2) then x ∷ p.third else p.third;
    shas = p.shas;
  }

  fill-none :
      (shas : ShaMap) (x : ResultItem) (xs : List ResultItem)
      → shas x.actual_sha1 ≡ none
      → fill_priorities builds shas (x ∷ xs) ≡ fill_priorities builds shas xs
  unfolding fill_priorities
  fill-none shas x xs h = rw (h, fill_priorities) refl

  fill-some :
      (shas : ShaMap) (x : ResultItem) (xs : List ResultItem) (v : ℕ)
      → shas x.actual_sha1 ≡ some v
      → fill_priorities builds shas (x ∷ xs)
        ≡ added x v (fill_priorities builds (put x.actual_sha1 (lower (level builds x) v) shas) xs)
  unfolding fill_priorities
  fill-some shas x xs v h = elim (Bool-cases (has_build builds x)) [
    | inl b ↦ rw (h, b, fill_priorities) refl
    | inr b ↦ elim (Bool-cases (has_build_name builds x)) [
      | inl n ↦ elim (Bool-cases (v == 0)) [
        | inl z ↦
            let two : (v == 2) ≡ false = ground arith in
            rw (h, b, n, z, fill_priorities, two, put-same x.actual_sha1 v shas h) refl
        | inr z ↦ rw (h, b, n, z, fill_priorities) refl
      ]
      | inr n ↦ elim (Bool-cases (v == 2)) [
        | inl z ↦ rw (h, b, n, z, fill_priorities, put-same x.actual_sha1 v shas h) refl
        | inr z ↦ rw (h, b, n, z, fill_priorities, put-same x.actual_sha1 v shas h) refl
      ]
    ]
  ]

  -- A SHA1 value's entry in the map after the loop.
  abbrev pub after : Bytes → List ResultItem → Option ℕ → Option ℕ
  after s xs none = none
  after s xs (some v) = some (value builds s v xs)

  other :
      (shas : ShaMap) (x : ResultItem) (xs : List ResultItem) (s : Bytes)
      → str_eq x.actual_sha1 s ≡ false
      → after s xs (shas s) ≡ after s (x ∷ xs) (shas s)
  unfolding value
  other shas x xs s e = elim (Option-cases (shas s)) [
    | inl h ↦ rw h refl
    | inr (v, h) ↦ rw (h, e) refl
  ]

  -- The map after the loop.
  pub fill-shas :
      (shas : ShaMap) (xs : List ResultItem) (s : Bytes)
      → (fill_priorities builds shas xs).shas s ≡ after s xs (shas s)
  unfolding fill_priorities value
  fill-shas shas [] s = elim (Option-cases (shas s)) [ inl e ↦ rw e refl | inr (v, e) ↦ rw e refl ]
  fill-shas shas (x ∷ xs) s = elim (Option-cases (shas x.actual_sha1)) [
    | inl h ↦ elim (Bool-cases (str_eq x.actual_sha1 s)) [
      | inl e ↦
          let none_at : shas s ≡ none = ap shas (sym ((str_eq_iff x.actual_sha1 s).0 e)) ∙ h in
          ap (λ p. p.shas s) (fill-none shas x xs h) ∙ fill-shas shas xs s ∙ rw none_at refl
      | inr e ↦
          ap (λ p. p.shas s) (fill-none shas x xs h) ∙ fill-shas shas xs s ∙ other shas x xs s e
    ]
    | inr (v, h) ↦
        let shas' = put x.actual_sha1 (lower (level builds x) v) shas in
        elim (Bool-cases (str_eq x.actual_sha1 s)) [
          | inl e ↦
              let here : shas s ≡ some v = ap shas (sym ((str_eq_iff x.actual_sha1 s).0 e)) ∙ h in
              ap (λ p. p.shas s) (fill-some shas x xs v h)
              ∙ fill-shas shas' xs s
              ∙ rw (here, e) refl
          | inr e ↦
              ap (λ p. p.shas s) (fill-some shas x xs v h)
              ∙ fill-shas shas' xs s
              ∙ rw e (other shas x xs s e)
        ]
  ]

  -- What of a file is written at its level, by the map after the loop.
  abbrev pub due_at : ℕ → ResultItem → Option ℕ → Bool
  due_at l r none = false
  due_at l r (some v) = (level builds r == l) && (v == l)

  abbrev pub is_due : ℕ → ShaMap → ResultItem → Bool
  is_due l m r = due_at l r (m r.actual_sha1)

  unwritten :
      (l v : ℕ) (x : ResultItem) (xs : List ResultItem)
      → ltb l 3 ≡ true
      → writes l v ≡ false
      → (value builds x.actual_sha1 (lower l v) xs == l) ≡ false
  unwritten zero v x xs small h = cc
  unwritten (suc zero) v x xs small h =
      let same : lower 1 v ≡ 0 = ground arith in
      ap (λ u. value builds x.actual_sha1 u xs == 1) same
      ∙ ap (λ u. u == 1) (value-zero builds x.actual_sha1 xs)
  unwritten (suc (suc zero)) v x xs small h = value-two builds x.actual_sha1 v xs (ground arith)
  unwritten (suc (suc (suc l))) v x xs small h = absurd (ground arith)

  file-added :
      (l v : ℕ) (x : ResultItem) (p : Priorities)
      → ltb l 3 ≡ true
      → file l (added x v p)
        ≡ (if (level builds x == l) && writes l v then x ∷ file l p else file l p)
  file-added zero v x p small = ground arith
  file-added (suc zero) v x p small = ground arith
  file-added (suc (suc zero)) v x p small = ground arith
  file-added (suc (suc (suc l))) v x p small = absurd (ground arith)

  keep-file :
      (l v : ℕ) (m : ShaMap) (x : ResultItem) (xs fs : List ResultItem)
      → ltb l 3 ≡ true
      → m x.actual_sha1 ≡ some (value builds x.actual_sha1 (lower (level builds x) v) xs)
      → keep
          (λ r. get m r.actual_sha1 == l)
          (if (level builds x == l) && writes l v then x ∷ fs else fs)
        ≡ (if is_due l m x
            then x ∷ keep (λ r. get m r.actual_sha1 == l) fs
            else keep (λ r. get m r.actual_sha1 == l) fs)
  keep-file l v m x xs fs small h =
      let w = value builds x.actual_sha1 (lower (level builds x) v) xs in
      let due : is_due l m x ≡ ((level builds x == l) && (w == l)) = ap (due_at l x) h in
      let got : (get m x.actual_sha1 == l) ≡ (w == l) = ap (λ o. or_zero o == l) h in
      let rest = keep (λ r. get m r.actual_sha1 == l) fs in
      elim (Bool-cases (level builds x == l)) [
        | inl e ↦
            let due' : is_due l m x ≡ (get m x.actual_sha1 == l) =
              due ∙ ap (λ b. b && (w == l)) e ∙ sym got in
            elim (Bool-cases (writes l v)) [
              | inl k ↦
                  ap
                    (λ b.
                      keep (λ r. get m r.actual_sha1 == l) (if b && writes l v then x ∷ fs else fs))
                    e
                  ∙ ap (λ b. keep (λ r. get m r.actual_sha1 == l) (if b then x ∷ fs else fs)) k
                  ∙ ap (λ b. if b then x ∷ rest else rest) (sym due')
              | inr k ↦
                  let same : level builds x ≡ l = (==_iff (level builds x) l).0 e in
                  let out : (w == l) ≡ false =
                    ap (λ j. value builds x.actual_sha1 (lower j v) xs == l) same
                    ∙ unwritten l v x xs small k in
                  ap
                    (λ b.
                      keep (λ r. get m r.actual_sha1 == l) (if b && writes l v then x ∷ fs else fs))
                    e
                  ∙ ap (λ b. keep (λ r. get m r.actual_sha1 == l) (if b then x ∷ fs else fs)) k
                  ∙ ap (λ b. if b then x ∷ rest else rest) (sym (due' ∙ got ∙ out))
            ]
        | inr e ↦
            ap (λ b. keep (λ r. get m r.actual_sha1 == l) (if b && writes l v then x ∷ fs else fs))
              e
            ∙ ap (λ b. if b then x ∷ rest else rest) (sym (due ∙ ap (λ b. b && (w == l)) e))
      ]

  pub file-due :
      (l : ℕ) (m shas : ShaMap) (xs : List ResultItem)
      → ltb l 3 ≡ true
      → (fill_priorities builds shas xs).shas ≡ m
      → keep (λ r. get m r.actual_sha1 == l) (file l (fill_priorities builds shas xs))
        ≡ keep (is_due l m) xs
  unfolding fill_priorities
  file-due l m shas [] small h = ground arith
  file-due l m shas (x ∷ xs) small h = elim (Option-cases (shas x.actual_sha1)) [
    | inl e ↦
        let step = fill-none shas x xs e in
        let h' = sym (ap (λ p. p.shas) step) ∙ h in
        let at_x : m x.actual_sha1 ≡ none =
          sym (ap (λ f. f x.actual_sha1) h') ∙ fill-shas shas xs x.actual_sha1 ∙ rw e refl in
        ap (λ p. keep (λ r. get m r.actual_sha1 == l) (file l p)) step
        ∙ file-due l m shas xs small h'
        ∙ ap (λ b. if b then x ∷ keep (is_due l m) xs else keep (is_due l m) xs)
            (sym (ap (due_at l x) at_x))
    | inr (v, e) ↦
        let step = fill-some shas x xs v e in
        let shas' = put x.actual_sha1 (lower (level builds x) v) shas in
        let h' : (fill_priorities builds shas' xs).shas ≡ m = sym (ap (λ p. p.shas) step) ∙ h in
        let at_x : m x.actual_sha1
            ≡ some (value builds x.actual_sha1 (lower (level builds x) v) xs) =
          sym (ap (λ f. f x.actual_sha1) h')
          ∙ fill-shas shas' xs x.actual_sha1
          ∙ rw (str_eq_refl x.actual_sha1) refl in
        ap (λ p. keep (λ r. get m r.actual_sha1 == l) (file l p)) step
        ∙ ap (keep (λ r. get m r.actual_sha1 == l))
            (file-added l v x (fill_priorities builds shas' xs) small)
        ∙ keep-file l v m x xs (file l (fill_priorities builds shas' xs)) small at_x
        ∙ ap (λ rs. if is_due l m x then x ∷ rs else rs) (file-due l m shas' xs small h')
  ]
