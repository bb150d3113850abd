-- ===== src/Util/Escape.antt =====
-- SplitWithEscape takes apart what was joined with its separators escaped.
use jfrog_client_go.Base.{
  ℕ, ◌≡◌, ◌≢◌, refl, sym, ap, ◌∙◌, Bool, true, false, not, ◌&&◌, List, [], ◌∷◌, ◌++◌, ◌==◌, All,
  map, arith, if◌then◌else◌, append_assoc, append-nil, inl, inr, Bool-cases,
}
use jfrog_client_go.Base.Text.{Bytes, Lacks, join}
use jfrog_client_go.Util.{backslash, split_escaped, split_with_escape}

-- A backslash before each separator.
abbrev pub escape : ℕ → Bytes → Bytes
escape separator [] = []
escape separator (c ∷ s) =
    if c == separator then backslash ∷ c ∷ escape separator s else c ∷ escape separator s

split-backslash :
    (separator : ℕ) (current s : Bytes)
    → split_escaped separator current false (backslash ∷ s) ≡ split_escaped separator current true s
unfolding split_escaped
split-backslash separator current s = refl

split-taken :
    (separator c : ℕ) (current s : Bytes) (escaped : Bool)
    → (c == backslash) ≡ false
    → (c == separator && not escaped) ≡ false
    → split_escaped separator current escaped (c ∷ s)
      ≡ split_escaped separator (current ++ c ∷ []) false s
unfolding split_escaped
split-taken separator c current s escaped h k = rw (split_escaped, h, k) refl

split-separator :
    (separator : ℕ) (current s : Bytes)
    → (separator == backslash) ≡ false
    → split_escaped separator current false (separator ∷ s)
      ≡ current ∷ split_escaped separator [] false s
unfolding split_escaped
split-separator separator current s h =
    let same : (separator == separator) ≡ true = ground arith in rw (split_escaped, h, same) refl

split-escape :
    (separator : ℕ) (current p rest : Bytes)
    → (separator == backslash) ≡ false
    → Lacks backslash p
    → split_escaped separator current false (escape separator p ++ rest)
      ≡ split_escaped separator (current ++ p) false rest
split-escape separator current [] rest n l =
    ap (λ c. split_escaped separator c false rest) (sym (append-nil current))
split-escape separator current (c ∷ p) rest n (l, ls) =
    let plain : (c == backslash) ≡ false = ground arith in
    let moved = ap (λ d. split_escaped separator d false rest) (append_assoc current (c ∷ []) p) in
    let ih = split-escape separator (current ++ c ∷ []) p rest n ls in
    elim (Bool-cases (c == separator)) [
      | inl e ↦
          ap
            (λ b.
              split_escaped separator current false (
                (if b then backslash ∷ c ∷ escape separator p else c ∷ escape separator p) ++ rest))
            e
          ∙ split-backslash separator current (c ∷ (escape separator p ++ rest))
          ∙ split-taken separator c current (escape separator p ++ rest) true plain (ground arith)
          ∙ ih
          ∙ moved
      | inr e ↦
          ap
            (λ b.
              split_escaped separator current false (
                (if b then backslash ∷ c ∷ escape separator p else c ∷ escape separator p) ++ rest))
            e
          ∙ split-taken separator c current (escape separator p ++ rest) false plain (ground arith)
          ∙ ih
          ∙ moved
    ]

split-last :
    (separator : ℕ) (p : Bytes)
    → (separator == backslash) ≡ false
    → Lacks backslash p
    → split_escaped separator [] false (escape separator p) ≡ p ∷ []
unfolding split_escaped
split-last separator p n l =
    ap (split_escaped separator [] false) (sym (append-nil (escape separator p)))
    ∙ split-escape separator [] p [] n l

split-join :
    (separator : ℕ) (p : Bytes) (ps : List Bytes)
    → (separator == backslash) ≡ false
    → All (Lacks backslash) (p ∷ ps)
    → split_escaped separator [] false (join (separator ∷ []) (map (escape separator) (p ∷ ps)))
      ≡ p ∷ ps
unfolding join
split-join separator p [] n (l, _) = split-last separator p n l
split-join separator p (q ∷ ps) n (l, ls) =
    split-escape separator [] p
      (separator ∷ join (separator ∷ []) (map (escape separator) (q ∷ ps))) n l
    ∙ split-separator separator p (join (separator ∷ []) (map (escape separator) (q ∷ ps))) n
    ∙ ap (λ ts. p ∷ ts) (split-join separator q ps n ls)

-- Parts without a backslash, at least one, that are joined by a separator other than the backslash,
-- with a backslash before each separator inside them, are what SplitWithEscape gives back.
pub split_with_escape-join :
    (separator : ℕ) (parts : List Bytes)
    → separator ≢ backslash
    → parts ≢ []
    → All (Lacks backslash) parts
    → split_with_escape (join (separator ∷ []) (map (escape separator) parts)) separator ≡ parts
unfolding split_with_escape
split_with_escape-join separator [] n ne l = absurd (ne refl)
split_with_escape-join separator (p ∷ ps) n ne l =
    let other : (separator == backslash) ≡ false = ground arith in split-join separator p ps other l
