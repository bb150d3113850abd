-- ===== src/Placeholders/Pairs.antt =====
-- getAllParentheses finds matched pairs: an opening byte before its closing byte.
use jfrog_client_go.Base.{
  ℕ, suc, ◌<◌, ◌≡◌, refl, sym, ap, ◌∙◌, true, false, not, some, List, [], ◌∷◌, ◌++◌, ◌⊎◌, inl, inr,
  ◌==◌, length, get_elem?, keep, All, All-append, append_assoc, length-append, arith, Bool-cases,
  Option-cases, append-nil,
}
use jfrog_client_go.Base.Text.{Bytes}
use jfrog_client_go.Placeholders.{
  open_paren, close_paren, Parentheses, close_last, close_at, scan_step, scan, get_all_parentheses,
}

-- The indices of a pair in the pattern.
abbrev pub IsPair : Bytes → Parentheses → Type 0
IsPair pattern v =
    (v.open_index < v.close_index)
    × (get_elem? pattern v.open_index ≡ some open_paren)
    × (get_elem? pattern v.close_index ≡ some close_paren)

-- A pair that is found so far: its open byte stands before `i`, and it is still open or matched.
abbrev IsFound : Bytes → ℕ → Parentheses → Type 0
IsFound pattern i v =
    (v.open_index < i)
    × (get_elem? pattern v.open_index ≡ some open_paren)
    × ((v.close_index ≡ 0)
        ⊎ ((v.open_index < v.close_index) × (get_elem? pattern v.close_index ≡ some close_paren)))

get_elem?-length :
    (pre : Bytes) (c : ℕ) (s : Bytes) → get_elem? (pre ++ c ∷ s) (length pre) ≡ some c
get_elem?-length [] c s = refl
get_elem?-length (d ∷ pre) c s = get_elem?-length pre c s

IsFound-suc :
    (pattern : Bytes) (i : ℕ) (vs : List Parentheses)
    → All (IsFound pattern i) vs
    → All (IsFound pattern (suc i)) vs
IsFound-suc pattern i [] h = tt
IsFound-suc pattern i (v ∷ vs) ((lt, at, c), hs) =
    ((omega arith, at, c), IsFound-suc pattern i vs hs)

-- The loop closes a pair that is open, with an index behind its open byte.
close_last-IsFound :
    (pattern : Bytes) (i : ℕ) (vs ws : List Parentheses)
    → get_elem? pattern i ≡ some close_paren
    → All (IsFound pattern i) vs
    → close_last i vs ≡ some ws
    → All (IsFound pattern i) ws
unfolding close_last
close_last-IsFound pattern i [] ws e h k = cc
close_last-IsFound pattern i (v ∷ vs) ws e (h, hs) k = elim (Option-cases (close_last i vs)) [
  | inr (ws', e') ↦
      let same : ws ≡ v ∷ ws' = ground arith in
      rw same (h, close_last-IsFound pattern i vs ws' e hs e')
  | inl e' ↦ elim (Bool-cases (v.close_index == 0)) [
    | inl z ↦
        let same : ws ≡ record v { close_index = i } ∷ vs = ground arith in
        rw same ((h.0, h.1, inr (h.0, e)), hs)
    | inr nz ↦ absurd (ground arith)
  ]
]

close_at-IsFound :
    (pattern : Bytes) (i : ℕ) (vs : List Parentheses)
    → get_elem? pattern i ≡ some close_paren
    → All (IsFound pattern i) vs
    → All (IsFound pattern i) (close_at i vs)
unfolding close_at
close_at-IsFound pattern i vs e h = elim (Option-cases (close_last i vs)) [
  | inl n ↦ rw (n, close_at) h
  | inr (ws, s) ↦ rw (s, close_at) (close_last-IsFound pattern i vs ws e h s)
]

-- One byte of the pattern keeps what is found in order.
scan-step :
    (pattern : Bytes) (i c : ℕ) (vs : List Parentheses)
    → get_elem? pattern i ≡ some c
    → All (IsFound pattern i) vs
    → All (IsFound pattern (suc i)) (scan_step i c vs)
unfolding scan_step
scan-step pattern i c vs e h = elim (Bool-cases (c == open_paren)) [
  | inl o ↦
      let at : get_elem? pattern i ≡ some open_paren = ground arith in
      rw o (
        All-append (IsFound pattern (suc i)) vs _ (IsFound-suc pattern i vs h)
          ((omega arith, at, inl refl), tt))
  | inr n ↦ elim (Bool-cases (c == close_paren)) [
    | inl q ↦
        let at : get_elem? pattern i ≡ some close_paren = ground arith in
        rw (n, q) (IsFound-suc pattern i _ (close_at-IsFound pattern i vs at h))
    | inr m ↦ rw (n, m) (IsFound-suc pattern i vs h)
  ]
]

scan-IsFound :
    (pattern : Bytes) (s pre : Bytes) (vs : List Parentheses)
    → pattern ≡ pre ++ s
    → All (IsFound pattern (length pre)) vs
    → All (IsFound pattern (length pattern)) (scan (length pre) s vs)
unfolding scan
scan-IsFound pattern [] pre vs e h =
    let same : length pattern ≡ length pre = ap length (e ∙ append-nil pre) in rw same h
scan-IsFound pattern (c ∷ s) pre vs e h =
    let at : get_elem? pattern (length pre) ≡ some c = rw e (get_elem?-length pre c s) in
    let longer : length (pre ++ c ∷ []) ≡ suc (length pre) =
      omega (arith, length-append {0} pre (c ∷ [])) in
    rw longer at (
      scan-IsFound pattern s (pre ++ c ∷ []) (scan_step (length pre) c vs)
        (e ∙ sym (append_assoc pre (c ∷ []) s))
        (rw longer (scan-step pattern (length pre) c vs at h)))

keep-IsPair :
    (pattern : Bytes) (i : ℕ) (vs : List Parentheses)
    → All (IsFound pattern i) vs
    → All (IsPair pattern) (keep (λ v. not (v.close_index == 0)) vs)
keep-IsPair pattern i [] h = tt
keep-IsPair pattern i (v ∷ vs) ((lt, at, inl z), hs) =
    let e : (v.close_index == 0) ≡ true = ground arith in rw e (keep-IsPair pattern i vs hs)
keep-IsPair pattern i (v ∷ vs) ((lt, at, inr m), hs) =
    let e : (v.close_index == 0) ≡ false = ground arith in
    rw e ((m.0, at, m.1), keep-IsPair pattern i vs hs)

-- Every pair that is found in a pattern opens with "(" and closes with ")" further right.
pub get_all_parentheses-IsPair :
    (pattern : Bytes) → All (IsPair pattern) (get_all_parentheses pattern)
unfolding get_all_parentheses
get_all_parentheses-IsPair pattern =
    keep-IsPair pattern (length pattern) _ (scan-IsFound pattern pattern [] [] refl tt)
