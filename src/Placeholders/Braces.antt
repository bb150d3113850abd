-- ===== src/Placeholders/Braces.antt =====
-- Which texts the regular expression {([^}]*)} captures: from the first open brace to the next close
-- brace, and so on behind that.
use jfrog_client_go.Base.{
  ℕ, ◌≡◌, refl, sym, ap, ◌∙◌, false, none, some, [], ◌∷◌, ◌++◌, ◌==◌, ◌↔◌, ◌⊎◌, inl, inr, Elem,
  append_assoc, append-nil, arith, Bool-cases,
}
use jfrog_client_go.Base.Text.{Bytes, Lacks}
use jfrog_client_go.Placeholders.{placeholder_texts}

-- The text starts, behind bytes that are no open brace, with `{`, the bytes `t` with no close brace
-- among them, and `}`; `after` is what follows.
abbrev pub StartsWith : Bytes → Bytes → Bytes → Type 0
StartsWith t after s =
    (before : Bytes) × Lacks b'{' before
    × Lacks b'}' t
    × (s ≡ before ++ (b'{' ∷ (t ++ (b'}' ∷ after))))

-- `t` is the text between the first braces, or between braces behind the first ones.
pub data IsBetweenBraces (t : Bytes) : Bytes → Type 0 where
  first : {s : Bytes} (after : Bytes) → StartsWith t after s → IsBetweenBraces t s
  later :
      {s : Bytes} (u after : Bytes)
      → StartsWith u after s
      → IsBetweenBraces t after
      → IsBetweenBraces t s

StartsWith-cons :
    (t after s : Bytes) (c : ℕ)
    → (c == b'{') ≡ false
    → StartsWith t after s
    → StartsWith t after (c ∷ s)
StartsWith-cons t after s c h (before, lacks, inner, e) =
    (c ∷ before, ground arith, inner, ap (λ r. c ∷ r) e)

IsBetweenBraces-cons :
    (t s : Bytes) (c : ℕ) → (c == b'{') ≡ false → IsBetweenBraces t s → IsBetweenBraces t (c ∷ s)
IsBetweenBraces-cons t s c h (first after at) = first after (StartsWith-cons t after s c h at)
IsBetweenBraces-cons t s c h (later u after at rest) =
    later u after (StartsWith-cons u after s c h at) rest

-- What is captured once `u` has been read behind an open brace.
abbrev Closes : Bytes → Bytes → Bytes → Type 0
Closes t u s =
    (inner : Bytes) × (after : Bytes) × Lacks b'}' inner
    × (s ≡ inner ++ (b'}' ∷ after))
    × ((t ≡ u ++ inner) ⊎ IsBetweenBraces t after)

Closes-cons :
    (t u s : Bytes) (c : ℕ) → (c == b'}') ≡ false → Closes t (u ++ c ∷ []) s → Closes t u (c ∷ s)
Closes-cons t u s c h (inner, after, lacks, e, k) = (
  c ∷ inner,
  after,
  ground arith,
  ap (λ r. c ∷ r) e,
  elim k [ inl same ↦ inl (same ∙ append_assoc u (c ∷ []) inner) | inr rest ↦ inr rest ],
)

opened : (t s : Bytes) → Closes t [] s → IsBetweenBraces t (b'{' ∷ s)
opened t s (inner, after, lacks, e, inl same) =
    first after ([], tt, rw same lacks, ap (λ r. b'{' ∷ r) (rw same e))
opened t s (inner, after, lacks, e, inr rest) =
    later inner after ([], tt, lacks, ap (λ r. b'{' ∷ r) e) rest

captured :
    (t s : Bytes)
    → (Elem t (placeholder_texts none s) → IsBetweenBraces t s)
      × ((u : Bytes) → Elem t (placeholder_texts (some u) s) → Closes t u s)
unfolding placeholder_texts
captured t [] = (λ h. absurd h, λ u h. absurd h)
captured t (c ∷ s) =
    let (outside, inside) = captured t s in
    (
      elim (Bool-cases (c == b'{')) [
        | inl e ↦
            let brace : c ≡ 123 = ground arith in
            rw (e, placeholder_texts) (λ h. rw brace (opened t s (inside [] h)))
        | inr e ↦ rw (e, placeholder_texts) (λ h. IsBetweenBraces-cons t s c e (outside h))
      ],
      λ u. elim (Bool-cases (c == b'}')) [
        | inl e ↦
            let brace : c ≡ 125 = ground arith in
            rw (e, placeholder_texts)
              (λ h. elim h [
                | inl same ↦ ([], s, tt, ap (λ d. d ∷ s) brace, inl (same ∙ sym (append-nil u)))
                | inr rest ↦ ([], s, tt, ap (λ d. d ∷ s) brace, inr (outside rest))
              ])
        | inr e ↦ rw (e, placeholder_texts) (λ h. Closes-cons t u s c e (inside (u ++ c ∷ []) h))
      ],
    )

until_open :
    (before r : Bytes)
    → Lacks b'{' before
    → placeholder_texts none (before ++ (b'{' ∷ r)) ≡ placeholder_texts (some []) r
unfolding placeholder_texts
until_open [] r h = refl
until_open (c ∷ before) r h = ground (arith, until_open before r)

until_close :
    (u inner after : Bytes)
    → Lacks b'}' inner
    → placeholder_texts (some u) (inner ++ (b'}' ∷ after))
      ≡ (u ++ inner) ∷ placeholder_texts none after
unfolding placeholder_texts
until_close u [] after h = ap (λ r. r ∷ placeholder_texts none after) (sym (append-nil u))
until_close u (c ∷ inner) after h =
    let closed : (c == b'}') ≡ false = ground arith in
    rw (closed, placeholder_texts)
      (until_close (u ++ c ∷ []) inner after (ground arith)
        ∙ ap (λ r. r ∷ placeholder_texts none after) (append_assoc u (c ∷ []) inner))

starts :
    (t after s : Bytes)
    → StartsWith t after s
    → placeholder_texts none s ≡ t ∷ placeholder_texts none after
starts t after s (before, lacks, inner, e) =
    ap (placeholder_texts none) e ∙ until_open before _ lacks ∙ until_close [] t after inner

pub Elem-placeholder_texts : (t s : Bytes) → Elem t (placeholder_texts none s) ↔ IsBetweenBraces t s
Elem-placeholder_texts t s = ((captured t s).0, back s)
  where
    back : (r : Bytes) → IsBetweenBraces t r → Elem t (placeholder_texts none r)
    back r (first after at) = rw (starts t after r at) (inl refl)
    back r (later u after at rest) = rw (starts u after r at) (inr (back after rest))
