-- ===== src/Placeholders/Select.antt =====
-- Which pairs of the pattern the placeholder values of the target select, and when that panics.
use jfrog_client_go.Base.{
  ℕ, zero, suc, ◌≡◌, ◌≢◌, refl, sym, ap, ◌∙◌, true, false, some, List, [], ◌∷◌, ◌↔◌, inl, inr,
  get_elem?, All, Elem, ◌==◌, arith, Option-cases, Bool-cases,
}
use jfrog_client_go.Base.Text.{Bytes}
use jfrog_client_go.Base.Outcome.{ok, panic, ◌>>=◌, >>=-ok_inv}
use jfrog_client_go.Base.Int.{ℤ, pos, negsuc, ltb_ℤ}
use jfrog_client_go.Placeholders.{
  Parentheses, max_int, get_place_holders_values, select_parentheses, get_all_parentheses,
  find_parentheses,
}
use jfrog_client_go.Placeholders.Values.{IsNumberOf, get_place_holders_values_lem}
use jfrog_client_go.Placeholders.Pairs.{IsPair, get_all_parentheses-IsPair}

-- A value whose index is below 0: zero or less, but not the least int, whose index wraps around.
abbrev pub IsBelowOne : ℤ → Type 0
IsBelowOne n = (ltb_ℤ n (pos 1) ≡ true) × (n ≢ negsuc 9223372036854775807)

-- The values past the first panic exactly if all do, for a first value that does not.
panic-next :
    (n : ℤ) (ns : List ℤ)
    → (¬ IsBelowOne n)
    → (P : Type 0) → P ↔ ((m : ℤ) × Elem m ns × IsBelowOne m)
    → P ↔ ((m : ℤ) × Elem m (n ∷ ns) × IsBelowOne m)
panic-next n ns fine P same = (
  λ h. let (m, e, b) = same.0 h in (m, inr e, b),
  λ (m, e, b). elim e [ inl at ↦ absurd (fine (rw at at b)) | inr later ↦ same.1 (m, later, b) ],
)

select_parentheses-next :
    (ps : List Parentheses) (k : ℕ) (ns : List ℤ)
    → (select_parentheses ps (pos (suc k) ∷ ns) ≡ panic) ↔ (select_parentheses ps ns ≡ panic)
unfolding select_parentheses
select_parentheses-next ps k ns = ground arith

select_parentheses-least :
    (ps : List Parentheses) (k : ℕ) (ns : List ℤ)
    → (k == max_int) ≡ true
    → select_parentheses ps (negsuc k ∷ ns) ≡ select_parentheses ps ns
unfolding select_parentheses
select_parentheses-least ps k ns h = rw h refl

select_parentheses-negative :
    (ps : List Parentheses) (k : ℕ) (ns : List ℤ)
    → (k == max_int) ≡ false
    → select_parentheses ps (negsuc k ∷ ns) ≡ panic
unfolding select_parentheses
select_parentheses-negative ps k ns h = rw h refl

select_parentheses-panic :
    (ps : List Parentheses) (ns : List ℤ)
    → (select_parentheses ps ns ≡ panic) ↔ ((n : ℤ) × Elem n ns × IsBelowOne n)
select_parentheses-panic ps [] = unfold select_parentheses in (λ h. cc, λ (n, e, b). absurd e)
select_parentheses-panic ps (negsuc k ∷ ns) = elim (Bool-cases (k == max_int)) [
  | inl e ↦
      rw (select_parentheses-least ps k ns e)
        (panic-next (negsuc k) ns (λ b. b.1 (ground arith)) _ (select_parentheses-panic ps ns))
  | inr e ↦ (
    λ h. (negsuc k, inl refl, (unfold ltb_ℤ in refl, λ same. ground arith)),
    λ _. select_parentheses-negative ps k ns e,
  )
]
select_parentheses-panic ps (pos zero ∷ ns) =
    unfold select_parentheses ltb_ℤ in (λ h. (pos 0, inl refl, (refl, λ same. cc)), λ _. refl)
select_parentheses-panic ps (pos (suc k) ∷ ns) =
    let next = select_parentheses-next ps k ns in
    let all = select_parentheses-panic ps ns in
    panic-next (pos (suc k)) ns (λ b. unfold ltb_ℤ in ground arith) _
      (λ h. all.0 (next.0 h), λ h. next.1 (all.1 h))

-- Selecting panics exactly if the target has an integer of 64 bits below 1 between braces, such as
-- {0}, other than the least one.
pub find_parentheses-panic :
    (pattern target : Bytes)
    → (find_parentheses pattern target ≡ panic) ↔ ((n : ℤ) × IsNumberOf target n × IsBelowOne n)
unfolding find_parentheses
find_parentheses-panic pattern target =
    let p =
      select_parentheses-panic (get_all_parentheses pattern) (get_place_holders_values target) in
    let same = (get_place_holders_values_lem target).1 in
    (λ h. let (n, e, b) = p.0 h in (n, (same n).0 e, b), λ (n, e, b). p.1 (n, (same n).1 e, b))

-- The pair that a value names among the pairs, counted from 1.
abbrev Names : List Parentheses → ℤ → Parentheses → Type 0
Names ps n v = (k : ℕ) × (n ≡ pos (suc k)) × (get_elem? ps k ≡ some v)

abbrev SelectedBy : List Parentheses → List ℤ → Parentheses → Type 0
SelectedBy ps ns v = (n : ℤ) × Elem n ns × Names ps n v

-- A first value that names no pair adds none.
SelectedBy-skip :
    (ps : List Parentheses) (n : ℤ) (ns : List ℤ) (v : Parentheses)
    → (¬ Names ps n v)
    → SelectedBy ps (n ∷ ns) v ↔ SelectedBy ps ns v
SelectedBy-skip ps n ns v unnamed = (
  λ (m, e, names). elim e [
    | inl at ↦ absurd (unnamed (rw at at names))
    | inr later ↦ (m, later, names)
  ],
  λ (m, e, names). (m, inr e, names),
)

select_parentheses-Elem :
    (ps : List Parentheses) (ns : List ℤ) (vs : List Parentheses)
    → select_parentheses ps ns ≡ ok vs
    → (v : Parentheses) → Elem v vs ↔ SelectedBy ps ns v
unfolding select_parentheses
select_parentheses-Elem ps [] vs e v =
    let same : vs ≡ [] = ground arith in rw same (λ h. absurd h, λ (n, h, _). absurd h)
select_parentheses-Elem ps (negsuc k ∷ ns) vs e v = elim (Bool-cases (k == max_int)) [
  | inl least ↦
      let rest =
        select_parentheses-Elem ps ns vs (sym (select_parentheses-least ps k ns least) ∙ e) v in
      let skip = SelectedBy-skip ps (negsuc k) ns v (λ (j, same, _). cc) in
      (λ h. skip.1 (rest.0 h), λ h. rest.1 (skip.0 h))
  | inr other ↦ absurd (let wrong = sym (select_parentheses-negative ps k ns other) ∙ e in cc)
]
select_parentheses-Elem ps (pos zero ∷ ns) vs e v = absurd (cc)
select_parentheses-Elem ps (pos (suc k) ∷ ns) vs e v = elim (Option-cases (get_elem? ps k)) [
  | inl gone ↦
      let rest = select_parentheses-Elem ps ns vs (rw (gone, select_parentheses) at e) v in
      let skip = SelectedBy-skip ps (pos (suc k)) ns v (λ (j, same, at).
        let i : k ≡ j = ground arith in let wrong = sym gone ∙ ap (get_elem? ps) i ∙ at in cc) in
      (λ h. skip.1 (rest.0 h), λ h. rest.1 (skip.0 h))
  | inr (w, s) ↦
      let bound : (select_parentheses ps ns >>= λ rest. ok (w ∷ rest)) ≡ ok vs =
        rw (s, select_parentheses) at e in
      let (rest, e', e'') = >>=-ok_inv (select_parentheses ps ns) (λ rest. ok (w ∷ rest)) bound in
      let same : vs ≡ w ∷ rest = ground arith in
      let more = select_parentheses-Elem ps ns rest e' v in
      rw same (
        λ h. elim h [
          | inl first ↦ (pos (suc k), inl refl, (k, refl, s ∙ ap some (sym first)))
          | inr later ↦ let (n, at, names) = more.0 later in (n, inr at, names)
        ],
        λ (n, at, (j, is, found)). elim at [
          | inl first ↦
              let i : k ≡ j = ground arith in
              let both : some v ≡ some w = sym found ∙ ap (get_elem? ps) (sym i) ∙ s in
              inl (ground arith)
          | inr later ↦ inr (more.1 (n, later, (j, is, found)))
        ],
      )
]

All-get_elem? :
    (P : Parentheses → Type 0) (ps : List Parentheses) (n : ℕ) (v : Parentheses)
    → All P ps
    → get_elem? ps n ≡ some v
    → P v
All-get_elem? P [] n v h e = absurd (cc)
All-get_elem? P (q ∷ ps) zero v h e = let same : q ≡ v = ground arith in rw same at (h.0)
All-get_elem? P (q ∷ ps) (suc n) v h e = All-get_elem? P ps n v h.1 e

-- The pair is the one that a number of the target names: {1} the first of the pattern's pairs, {2} the
-- second, and so on.
abbrev pub IsNamed : Bytes → Bytes → Parentheses → Type 0
IsNamed pattern target v =
    (k : ℕ) × IsNumberOf target (pos (suc k)) × (get_elem? (get_all_parentheses pattern) k ≡ some v)

-- Where nothing panics, what is selected are exactly the pairs that a number between braces of the
-- target names, {1} the first pair of the pattern and so on, and each of them is an open parenthesis of
-- the pattern with a close one behind it.
pub find_parentheses-IsNamed :
    (pattern target : Bytes) (vs : List Parentheses)
    → find_parentheses pattern target ≡ ok vs
    → (v : Parentheses) → (Elem v vs ↔ IsNamed pattern target v) × (Elem v vs → IsPair pattern v)
unfolding find_parentheses
find_parentheses-IsNamed pattern target vs h v =
    let ps = get_all_parentheses pattern in
    let found = select_parentheses-Elem ps (get_place_holders_values target) vs h v in
    let same = (get_place_holders_values_lem target).1 in
    (
      (
        λ e. let (n, at, (k, is, there)) = found.0 e in (k, rw is at ((same n).0 at), there),
        λ (k, number, there). found.1 (pos (suc k), (same _).1 number, (k, refl, there)),
      ),
      λ e.
          let (n, at, (k, is, there)) = found.0 e in
          All-get_elem? (IsPair pattern) ps k v (get_all_parentheses-IsPair pattern) there,
    )
