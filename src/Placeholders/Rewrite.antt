-- ===== src/Placeholders/Rewrite.antt =====
-- What RemovePlaceholderParentheses erases, and what AddEscapingParentheses adds.
use jfrog_client_go.Base.{
  ℕ, suc, ◌+◌, Bool, true, false, ◌||◌, if◌then◌else◌, ◌≡◌, refl, sym, ap, ◌∙◌, ◌↔◌, ◌⊎◌, inl, inr,
  some, not, List, [], ◌∷◌, ◌==◌, keep, Elem, get_elem?, Bool-cases, arith,
}
use mathlib.Core.Path.{subst}
use jfrog_client_go.Base.Text.{Bytes, str_eq, Lacks}
use jfrog_client_go.Base.Outcome.{ok, >>=-ok_inv}
use jfrog_client_go.Placeholders.{
  Parentheses, is_paren, is_present, drop_present, find_parentheses, escape_absent,
  remove_placeholder_parentheses, add_escaping_parentheses, is_placeholders_used,
}
use jfrog_client_go.Placeholders.Pairs.{IsPair}
use jfrog_client_go.Placeholders.Select.{IsNamed, find_parentheses-IsNamed}

-- At the indices of a pair stand parentheses.
paren_at :
    (v : Parentheses) (pattern : Bytes) (c j : ℕ)
    → IsPair pattern v
    → get_elem? pattern j ≡ some c
    → (v.open_index ≡ 0 + j) ⊎ (v.close_index ≡ 0 + j)
    → is_paren c ≡ true
paren_at v pattern c j (_, opens, closes) at (inl e) =
    let i : v.open_index ≡ j = omega arith in
    let both : some c ≡ some 40 = sym at ∙ ap (get_elem? pattern) (sym i) ∙ opens in ground arith
paren_at v pattern c j (_, opens, closes) at (inr e) =
    let i : v.close_index ≡ j = omega arith in
    let both : some c ≡ some 41 = sym at ∙ ap (get_elem? pattern) (sym i) ∙ closes in ground arith

-- `result` is the text, whose first byte has the index `i`, less the bytes at the indices in `Gone`.
abbrev pub IsErased : (ℕ → Type 0) → ℕ → Bytes → Bytes → Type 0
IsErased Gone i [] result = result ≡ []
IsErased Gone i (c ∷ s) result =
    (Gone i × IsErased Gone (suc i) s result)
    ⊎ ((¬ Gone i) × ((rest : Bytes) × (result ≡ c ∷ rest) × IsErased Gone (suc i) s rest))

-- A pair that a number of the target names has its open or close parenthesis at the index.
abbrev pub IsPlaceholderParen : Bytes → Bytes → ℕ → Type 0
IsPlaceholderParen pattern target i =
    (v : Parentheses) × IsNamed pattern target v × ((v.open_index ≡ i) ⊎ (v.close_index ≡ i))

is_present_iff :
    (ps : List Parentheses) (i : ℕ)
    → (is_present ps i ≡ true)
      ↔ ((v : Parentheses) × Elem v ps × ((v.open_index ≡ i) ⊎ (v.close_index ≡ i)))
unfolding is_present
is_present_iff [] i = (λ h. cc, λ (v, e, h). absurd e)
is_present_iff (p ∷ ps) i = (
  λ h. elim (Bool-cases (p.open_index == i || p.close_index == i)) [
    | inl here ↦ (p, inl refl, ground arith)
    | inr other ↦
        let later : is_present ps i ≡ true = ground arith in
        let (v, e, at) = (is_present_iff ps i).0 later in (v, inr e, at)
  ],
  λ (v, e, at). elim e [
    | inl same ↦ let at' : (p.open_index ≡ i) ⊎ (p.close_index ≡ i) = rw same at at in ground arith
    | inr there ↦ let later = (is_present_iff ps i).1 (v, there, at) in ground arith
  ],
)

-- What is dropped are the bytes at the pairs' indices, where a parenthesis stands at each of them.
drop_present-IsErased :
    (ps : List Parentheses) (Gone : ℕ → Type 0) (i : ℕ) (s : Bytes)
    → ((j : ℕ) → (is_present ps j ≡ true) ↔ Gone j)
    → ((k c : ℕ) → get_elem? s k ≡ some c → Gone (i + k) → is_paren c ≡ true)
    → IsErased Gone i s (drop_present ps i s)
unfolding drop_present
drop_present-IsErased ps Gone i [] same parens = refl
drop_present-IsErased ps Gone i (c ∷ s) same parens =
    let later : (k d : ℕ) → get_elem? s k ≡ some d → Gone (suc i + k) → is_paren d ≡ true =
      λ k d at gone.
        let shift : suc i + k ≡ i + suc k = omega arith in parens (suc k) d at (rw shift at gone) in
    let rest = drop_present-IsErased ps Gone (suc i) s same later in
    elim (Bool-cases (is_present ps i)) [
      | inl there ↦
          let gone = (same i).0 there in
          let here : i ≡ i + 0 = omega arith in
          let paren = parens 0 c refl (rw here at gone) in inl (gone, ap-dropped paren there rest)
      | inr absent ↦
          let stays : ¬ Gone i = λ gone. (let wrong = (same i).1 gone in cc) in
          inr (stays, (drop_present ps (suc i) s, kept absent, rest))
    ]
  where
    dropped :
        is_paren c ≡ true
        → is_present ps i ≡ true
        → drop_present ps i (c ∷ s) ≡ drop_present ps (suc i) s
    dropped paren there = ground arith

    kept : is_present ps i ≡ false → drop_present ps i (c ∷ s) ≡ c ∷ drop_present ps (suc i) s
    kept absent = ground arith

    ap-dropped :
        is_paren c ≡ true
        → is_present ps i ≡ true
        → IsErased Gone (suc i) s (drop_present ps (suc i) s)
        → IsErased Gone (suc i) s (drop_present ps i (c ∷ s))
    ap-dropped paren there h = subst (IsErased Gone (suc i) s) (sym (dropped paren there)) h

-- Where nothing panics, RemovePlaceholderParentheses erases exactly the bytes at the indices of the
-- pairs that a number between braces of the target names; every other byte of the pattern stays, in
-- order, other parentheses among them.
pub remove_placeholder_parentheses_lem :
    (pattern target result : Bytes)
    → remove_placeholder_parentheses pattern target ≡ ok result
    → IsErased (IsPlaceholderParen pattern target) 0 pattern result
unfolding remove_placeholder_parentheses
remove_placeholder_parentheses_lem pattern target result h =
    let (ps, e, k) = >>=-ok_inv (find_parentheses pattern target) _ h in
    let named = find_parentheses-IsNamed pattern target ps e in
    let same : drop_present ps 0 pattern ≡ result = ground arith in
    subst (IsErased (IsPlaceholderParen pattern target) 0 pattern) same (
      drop_present-IsErased ps (IsPlaceholderParen pattern target) 0 pattern
        (λ j. (
          λ there.
              let (v, at, index) = (is_present_iff ps j).0 there in (v, (named v).0.0 at, index),
          λ (v, is, index). (is_present_iff ps j).1 (v, (named v).0.1 is, index),
        ))
        (λ j c at (v, is, index).
          let pair = (named v).1 ((named v).0.1 is) in paren_at v pattern c j pair at index))

-- The text without its backslashes.
abbrev pub without_backslashes : Bytes → Bytes
without_backslashes = keep (λ c. not (c == 92))

without_backslashes-escape_absent :
    (ps qs : List Parentheses) (i : ℕ) (s : Bytes)
    → Lacks 92 s
    → without_backslashes (escape_absent ps qs i s) ≡ s
unfolding escape_absent
without_backslashes-escape_absent ps qs i [] h = refl
without_backslashes-escape_absent ps qs i (c ∷ s) h =
    ground (arith, without_backslashes-escape_absent ps qs (suc i) s)

-- A pattern with no backslash is its escaped form less the backslashes.
pub add_escaping_parentheses_lem :
    (pattern target target_path_in_archive result : Bytes)
    → Lacks 92 pattern
    → add_escaping_parentheses pattern target target_path_in_archive ≡ ok result
    → without_backslashes result ≡ pattern
unfolding add_escaping_parentheses
add_escaping_parentheses_lem pattern target archive result lacks h =
    let (ps, e, k) = >>=-ok_inv (find_parentheses pattern target) _ h in
    let (qs, e', k') = >>=-ok_inv (find_parentheses pattern archive) _ k in
    ground (arith, without_backslashes-escape_absent ps qs 0 pattern)

-- The text without its parentheses that no backslash escapes, and without the backslashes; `escaped`
-- tells that the byte before was one.
unfoldable pub strip : Bool → Bytes → Bytes
strip escaped [] = []
strip true (c ∷ s) = c ∷ strip false s
strip false (c ∷ s) =
    let rest = strip false s in
    if c == 92 then strip true s else if is_paren c then rest else c ∷ rest

strip-escape_absent :
    (ps : List Parentheses) (i : ℕ) (s : Bytes)
    → Lacks 92 s
    → strip false (escape_absent ps [] i s) ≡ drop_present ps i s
unfolding strip escape_absent drop_present is_present
strip-escape_absent ps i [] h = refl
strip-escape_absent ps i (c ∷ s) h = ground (arith, strip-escape_absent ps (suc i) s)

-- The two rewritings agree on which parentheses stand for a placeholder of the target, where the target
-- path in the archive, which AddEscapingParentheses looks at too, is the empty text. For a pattern with
-- no backslash whose placeholders are found, both give a text; and the escaped pattern, less its
-- parentheses that are not escaped and less its backslashes, is the pattern without its placeholder
-- parentheses.
pub strip-add_escaping_parentheses :
    (pattern target : Bytes) (ps : List Parentheses)
    → Lacks 92 pattern
    → find_parentheses pattern target ≡ ok ps
    → (escaped : Bytes) × ((removed : Bytes) × ((add_escaping_parentheses pattern target []
            ≡ ok escaped)
          × (remove_placeholder_parentheses pattern target ≡ ok removed)
          × (strip false escaped ≡ removed)))
unfolding add_escaping_parentheses remove_placeholder_parentheses
strip-add_escaping_parentheses pattern target ps lacks h = (
  escape_absent ps [] 0 pattern,
  (drop_present ps 0 pattern, (rw h refl, rw h refl, strip-escape_absent ps 0 pattern lacks)),
)

drop_present-nil : (i : ℕ) (s : Bytes) → drop_present [] i s ≡ s
unfolding drop_present is_present
drop_present-nil i [] = refl
drop_present-nil i (c ∷ s) = ground (arith, drop_present-nil (suc i) s)

-- For a target that uses no pair of the pattern, IsPlaceholdersUsed answers whether the target differs
-- from the pattern.
pub is_placeholders_used_unused :
    (pattern target : Bytes)
    → find_parentheses pattern target ≡ ok []
    → is_placeholders_used pattern target ≡ ok (not (str_eq pattern target))
unfolding is_placeholders_used remove_placeholder_parentheses
is_placeholders_used_unused pattern target h = rw h (rw (drop_present-nil 0 pattern))
