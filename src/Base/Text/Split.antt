-- ===== src/Base/Text/Split.antt =====
-- strings.Split, by a single byte and by a text, and its relation to strings.Join.
use Prim.Native.Nat.{ℕ, zero, suc, ◌-◌}
use mathlib.Core.Path.{◌≡◌, refl, ap, ◌∙◌}
use mathlib.Core.Logic.{◌≢◌, inl, inr}
use mathlib.Core.Bool.{true, false}
use mathlib.Core.List.{List, [], ◌∷◌, ◌++◌}
use native.Mathlib.Omega.{arith}
use jfrog_client_go.Base.Tests.{◌==◌, if◌then◌else◌, Bool-cases}
use jfrog_client_go.Base.Lists.{length, All}
use jfrog_client_go.Base.Text.{Bytes, has_prefix, join, Lacks}

-- A byte in front of the first part.
abbrev pub on_head : ℕ → List Bytes → List Bytes
on_head c [] = (c ∷ []) ∷ []
on_head c (p ∷ ps) = (c ∷ p) ∷ ps

-- strings.Split(s, string(sep)) for a single byte.
unfoldable pub split_byte : ℕ → Bytes → List Bytes
split_byte sep [] = [] ∷ []
split_byte sep (c ∷ s) = if sep == c then [] ∷ split_byte sep s else on_head c (split_byte sep s)

-- The bytes of a separator that was found are skipped.
split_skip : Bytes → ℕ → Bytes → List Bytes
unfolding has_prefix
split_skip sep n [] = [] ∷ []
split_skip sep (suc n) (c ∷ s) = split_skip sep n s
split_skip sep zero (c ∷ s) = elim (has_prefix sep (c ∷ s)) [
  | true ↦ [] ∷ split_skip sep (length sep - 1) s
  | false ↦ on_head c (split_skip sep 0 s)
]

-- strings.Split(s, sep) for a separator that is not empty.
unfoldable pub split : Bytes → Bytes → List Bytes
unfolding split_skip
split sep s = split_skip sep 0 s

pub split_byte-ne-nil : (sep : ℕ) (s : Bytes) → split_byte sep s ≢ []
unfolding split_byte
split_byte-ne-nil sep [] = cc
split_byte-ne-nil sep (c ∷ s) = ground (arith, split_byte-ne-nil sep s)

pub split_byte-cons :
    (sep c : ℕ) (s : Bytes) → sep ≢ c → split_byte sep (c ∷ s) ≡ on_head c (split_byte sep s)
unfolding split_byte
split_byte-cons sep c s h = ground arith

pub split_byte-sep : (sep : ℕ) (s : Bytes) → split_byte sep (sep ∷ s) ≡ [] ∷ split_byte sep s
unfolding split_byte
split_byte-sep sep s = ground arith

join-on_head :
    (sep : Bytes) (c : ℕ) (ps : List Bytes) → ps ≢ [] → join sep (on_head c ps) ≡ c ∷ join sep ps
unfolding join
join-on_head sep c [] h = absurd (h refl)
join-on_head sep c (p ∷ []) h = refl
join-on_head sep c (p ∷ q ∷ ps) h = refl

join-nil_head : (sep : Bytes) (ps : List Bytes) → ps ≢ [] → join sep ([] ∷ ps) ≡ sep ++ join sep ps
unfolding join
join-nil_head sep [] h = absurd (h refl)
join-nil_head sep (p ∷ ps) h = refl

-- Joining the parts of a split gives the text back.
pub join-split_byte : (sep : ℕ) (s : Bytes) → join (sep ∷ []) (split_byte sep s) ≡ s
unfolding split_byte
join-split_byte sep [] = unfold join in refl
join-split_byte sep (c ∷ s) = ground (
  arith,
  join-split_byte sep s,
  split_byte-ne-nil sep s,
  join-on_head (sep ∷ []) c (split_byte sep s),
  join-nil_head (sep ∷ []) (split_byte sep s),
)

-- The first part of a text that begins with `p`, a text without the separator.
pub split_byte-none : (sep : ℕ) (p : Bytes) → Lacks sep p → split_byte sep p ≡ p ∷ []
unfolding split_byte
split_byte-none sep [] h = refl
split_byte-none sep (c ∷ p) h = ground (arith, split_byte-none sep p)

pub split_byte-append :
    (sep : ℕ) (p s : Bytes) → Lacks sep p → split_byte sep (p ++ sep ∷ s) ≡ p ∷ split_byte sep s
unfolding split_byte
split_byte-append sep [] s h = ground arith
split_byte-append sep (c ∷ p) s h = ground (arith, split_byte-append sep p s)

-- Splitting a join gives the parts back, if there is one and none holds the separator.
pub split_byte-join :
    (sep : ℕ) (ps : List Bytes)
    → ps ≢ []
    → All (Lacks sep) ps
    → split_byte sep (join (sep ∷ []) ps) ≡ ps
unfolding join
split_byte-join sep [] ne h = absurd (ne refl)
split_byte-join sep (p ∷ []) ne h = split_byte-none sep p h.0
split_byte-join sep (p ∷ q ∷ ps) ne h =
    split_byte-append sep p _ h.0 ∙ ap (λ r. p ∷ r) (split_byte-join sep (q ∷ ps) (cc) h.1)

All-on_head :
    (sep c : ℕ) (ps : List Bytes) → sep ≢ c → All (Lacks sep) ps → All (Lacks sep) (on_head c ps)
All-on_head sep c [] ne h = ((ne, tt), tt)
All-on_head sep c (p ∷ ps) ne h = ((ne, h.0), h.1)

-- No part of a split holds the separator.
pub split_byte-Lacks : (sep : ℕ) (s : Bytes) → All (Lacks sep) (split_byte sep s)
unfolding split_byte
split_byte-Lacks sep [] = (tt, tt)
split_byte-Lacks sep (c ∷ s) = elim (Bool-cases (sep == c)) [
  | inl e ↦ rw e (tt, split_byte-Lacks sep s)
  | inr e ↦ rw e (All-on_head sep c (split_byte sep s) (ground arith) (split_byte-Lacks sep s))
]
