-- ===== src/Builds/Append.antt =====
-- Step 2 of filterBuildAqlSearchResults: what is written of each file.
use jfrog_client_go.Base.{
  ℕ, ◌≡◌, refl, sym, ap, ◌∙◌, Bool, true, false, ◌&&◌, not, List, [], ◌∷◌, ◌==◌, ==_iff, keep, any,
  arith, if◌then◌else◌, inl, inr, Bool-cases,
}
use jfrog_client_go.Base.Text.{Bytes, str_eq, str_eq_iff}
use jfrog_client_go.Search.{ResultItem}
use jfrog_client_go.Builds.{ShaMap, get, delete, append_priority}

abbrev has_sha : List Bytes → Bytes → Bool
has_sha seen sha = any seen (λ s. str_eq s sha)

-- The items whose SHA1 value is not among `seen` or that of an item before.
unfoldable pub firsts : List Bytes → List ResultItem → List ResultItem
firsts seen [] = []
firsts seen (x ∷ xs) =
    if has_sha seen x.actual_sha1 then firsts seen xs else x ∷ firsts (x.actual_sha1 ∷ seen) xs

pub keep-cong :
    (p q : ResultItem → Bool) (xs : List ResultItem)
    → ((x : ResultItem) → p x ≡ q x)
    → keep p xs ≡ keep q xs
keep-cong p q [] h = refl
keep-cong p q (x ∷ xs) h =
    ap (λ b. if b then x ∷ keep p xs else keep p xs) (h x)
    ∙ ap (λ ys. if q x then x ∷ ys else ys) (keep-cong p q xs h)

append-written :
    (l : ℕ) (shas : ShaMap) (x : ResultItem) (xs : List ResultItem)
    → (get shas x.actual_sha1 == l) ≡ true
    → append_priority l shas (x ∷ xs) ≡ (
      x ∷ (append_priority l (delete x.actual_sha1 shas) xs).0,
      (append_priority l (delete x.actual_sha1 shas) xs).1,
    )
unfolding append_priority
append-written l shas x xs h = rw (h, append_priority) refl

append-skipped :
    (l : ℕ) (shas : ShaMap) (x : ResultItem) (xs : List ResultItem)
    → (get shas x.actual_sha1 == l) ≡ false
    → append_priority l shas (x ∷ xs) ≡ append_priority l shas xs
unfolding append_priority
append-skipped l shas x xs h = rw (h, append_priority) refl

-- A deletion of a value at another level leaves the test for a level above 0.
get-delete :
    (shas : ShaMap) (sha s : Bytes) (k : ℕ)
    → (k == 0) ≡ false
    → (get (delete sha shas) s == k) ≡ ((get shas s == k) && not (str_eq sha s))
get-delete shas sha s k h = elim (Bool-cases (str_eq sha s)) [
  | inl e ↦ rw e (ground arith)
  | inr e ↦ rw e (ground arith)
]

get-delete_zero :
    (shas : ShaMap) (sha s : Bytes)
    → (get shas sha == 0) ≡ true
    → get (delete sha shas) s ≡ get shas s
get-delete_zero shas sha s h = elim (Bool-cases (str_eq sha s)) [
  | inl e ↦
      let same = ap (get shas) ((str_eq_iff sha s).0 e) in
      rw e (sym ((==_iff (get shas sha) 0).0 h) ∙ same)
  | inr e ↦ rw e refl
]

-- The file of the first priority is written whole, and the map reads the same after it.
pub append_priority-zero :
    (shas m : ShaMap) (xs : List ResultItem)
    → ((s : Bytes) → get shas s ≡ get m s)
    → ((append_priority 0 shas xs).0 ≡ keep (λ r. get m r.actual_sha1 == 0) xs)
      × ((s : Bytes) → get (append_priority 0 shas xs).1 s ≡ get m s)
append_priority-zero shas m [] h = (unfold append_priority in refl, unfold append_priority in h)
append_priority-zero shas m (x ∷ xs) h =
    let test = ap (λ v. v == 0) (h x.actual_sha1) in
    elim (Bool-cases (get shas x.actual_sha1 == 0)) [
      | inl e ↦
          let (out, left) =
            append_priority-zero (delete x.actual_sha1 shas) m xs
              (λ s. get-delete_zero shas x.actual_sha1 s e ∙ h s) in
          rw (append-written 0 shas x xs e) (
            ap (λ ys. x ∷ ys) out
                ∙ ap
                    (λ b.
                      if b
                      then x ∷ keep (λ r. get m r.actual_sha1 == 0) xs
                      else keep (λ r. get m r.actual_sha1 == 0) xs)
                    (sym e ∙ test),
            left,
          )
      | inr e ↦
          let (out, left) = append_priority-zero shas m xs h in
          rw (append-skipped 0 shas x xs e) (
            out
                ∙ ap
                    (λ b.
                      if b
                      then x ∷ keep (λ r. get m r.actual_sha1 == 0) xs
                      else keep (λ r. get m r.actual_sha1 == 0) xs)
                    (sym e ∙ test),
            left,
          )
    ]

-- Of another file, the first item of each SHA1 value at the level is written.
pub append_priority-firsts :
    (l : ℕ) (shas m : ShaMap) (seen : List Bytes) (xs : List ResultItem)
    → (l == 0) ≡ false
    → ((s : Bytes) → (get shas s == l) ≡ ((get m s == l) && not (has_sha seen s)))
    → (append_priority l shas xs).0 ≡ firsts seen (keep (λ r. get m r.actual_sha1 == l) xs)
unfolding firsts
append_priority-firsts l shas m seen [] nz h = unfold append_priority in refl
append_priority-firsts l shas m seen (x ∷ xs) nz h =
    let test = h x.actual_sha1 in
    elim (Bool-cases (get shas x.actual_sha1 == l)) [
      | inl e ↦
          let here : (get m x.actual_sha1 == l) ≡ true = ground arith in
          let new : has_sha seen x.actual_sha1 ≡ false = ground arith in
          let ih =
            append_priority-firsts l (delete x.actual_sha1 shas) m (x.actual_sha1 ∷ seen) xs nz
              (λ s.
                get-delete shas x.actual_sha1 s l nz
                ∙ ap (λ b. b && not (str_eq x.actual_sha1 s)) (h s)
                ∙ ground arith) in
          rw (append-written l shas x xs e, here, new) (ap (λ ys. x ∷ ys) ih)
      | inr e ↦
          let ih = append_priority-firsts l shas m seen xs nz h in
          elim (Bool-cases (get m x.actual_sha1 == l)) [
            | inl here ↦
                let old : has_sha seen x.actual_sha1 ≡ true = ground arith in
                rw (append-skipped l shas x xs e, here, old) ih
            | inr here ↦ rw (append-skipped l shas x xs e, here) ih
          ]
    ]

-- The test for another level is the same after a file.
pub append_priority-other :
    (l k : ℕ) (shas : ShaMap) (xs : List ResultItem) (s : Bytes)
    → (k == 0) ≡ false
    → (k == l) ≡ false
    → (get (append_priority l shas xs).1 s == k) ≡ (get shas s == k)
append_priority-other l k shas [] s nz ne = unfold append_priority in refl
append_priority-other l k shas (x ∷ xs) s nz ne = elim (Bool-cases (get shas x.actual_sha1 == l)) [
  | inl e ↦
      let ih = append_priority-other l k (delete x.actual_sha1 shas) xs s nz ne in
      rw (append-written l shas x xs e) (
        ih ∙ get-delete shas x.actual_sha1 s k nz ∙ elim (Bool-cases (str_eq x.actual_sha1 s)) [
          | inl same ↦
              let at_s = ap (λ j. get shas j == l) ((str_eq_iff x.actual_sha1 s).0 same) in
              ground arith
          | inr other ↦ rw other (ground arith)
        ])
  | inr e ↦ rw (append-skipped l shas x xs e) (append_priority-other l k shas xs s nz ne)
]
