-- ===== src/Base/Text.antt =====
-- Go's strings as lists of bytes, with the functions of package strings that the source calls.
-- Texts are valid UTF-8, and the characters that the source tests for are ASCII, so that a loop
-- over the runes of a text and a loop over its bytes see the same matches at the same offsets.
pub mod Split
pub mod Order
pub mod Replace
pub mod Paths
pub mod Index
use Prim.Native.Nat.{ℕ, zero, suc, ◌+◌, ◌≤◌, ◌<◌, compare}
use Prim.Native.Char.{code}
use Prim.Native.String.{String}
use mathlib.Core.Path.{◌≡◌, refl, ap}
use mathlib.Core.Logic.{◌≢◌, ◌↔◌, ◌⊎◌, inl, inr}
use mathlib.Core.Bool.{Bool, true, false, ◌&&◌, ◌||◌, not}
use mathlib.Core.Option.{Option, none, some}
use mathlib.Core.List.{List, [], ◌∷◌, ◌++◌, append-nil}
use native.Mathlib.Omega.{arith}
use jfrog_client_go.Base.Tests.{◌==◌, if◌then◌else◌, ltb, leb, Bool-cases}
use jfrog_client_go.Base.Lists.{length, take, drop, All}

abbrev pub Bytes : Type 0
Bytes = List ℕ

-- The bytes of an ASCII literal.
abbrev pub codes : String → Bytes
codes String.[] = []
codes (String.◌∷◌ c s) = code c ∷ codes s

-- s == t
unfoldable pub str_eq : Bytes → Bytes → Bool
str_eq [] [] = true
str_eq [] (d ∷ t) = false
str_eq (c ∷ s) [] = false
str_eq (c ∷ s) (d ∷ t) = c == d && str_eq s t

-- strings.HasPrefix(s, p), with the prefix first.
unfoldable pub has_prefix : Bytes → Bytes → Bool
has_prefix [] s = true
has_prefix (c ∷ p) [] = false
has_prefix (c ∷ p) (d ∷ s) = c == d && has_prefix p s

-- strings.HasSuffix(s, p), with the suffix first.
unfoldable pub has_suffix : Bytes → Bytes → Bool
unfolding str_eq
has_suffix p [] = str_eq p []
has_suffix p (c ∷ s) = str_eq p (c ∷ s) || has_suffix p s

-- strings.HasSuffix(s, string(c)) for a single byte.
unfoldable pub ends_with : ℕ → Bytes → Bool
ends_with c [] = false
ends_with c (d ∷ []) = c == d
ends_with c (d ∷ e ∷ s) = ends_with c (e ∷ s)

-- strings.Contains(s, string(c)) for a single byte.
unfoldable pub contains_byte : ℕ → Bytes → Bool
contains_byte c [] = false
contains_byte c (d ∷ s) = c == d || contains_byte c s

-- strings.Contains(s, p).
unfoldable pub contains_text : Bytes → Bytes → Bool
unfolding has_prefix
contains_text p [] = has_prefix p []
contains_text p (c ∷ s) = has_prefix p (c ∷ s) || contains_text p s

-- strings.Index(s, string(c)): `none` is -1.
unfoldable pub index_byte : ℕ → Bytes → Option ℕ
index_byte c [] = none
index_byte c (d ∷ s) = elim (index_byte c s) [
  | some i ↦ if c == d then some 0 else some (suc i)
  | none ↦ if c == d then some 0 else none
]

-- strings.LastIndex(s, string(c)): `none` is -1.
unfoldable pub last_index_byte : ℕ → Bytes → Option ℕ
last_index_byte c [] = none
last_index_byte c (d ∷ s) = elim (last_index_byte c s) [
  | some i ↦ some (suc i)
  | none ↦ if c == d then some 0 else none
]

-- strings.Count(s, string(c)).
unfoldable pub count_byte : ℕ → Bytes → ℕ
count_byte c [] = 0
count_byte c (d ∷ s) = (if c == d then 1 else 0) + count_byte c s

-- strings.TrimPrefix(s, p), with the prefix first.
unfoldable pub trim_prefix : Bytes → Bytes → Bytes
unfolding has_prefix
trim_prefix p s = if has_prefix p s then drop (length p) s else s

-- strings.TrimSuffix(s, p), with the suffix first.
unfoldable pub trim_suffix : Bytes → Bytes → Bytes
unfolding str_eq
trim_suffix p [] = []
trim_suffix p (c ∷ s) = if str_eq p (c ∷ s) then [] else c ∷ trim_suffix p s

-- strings.Join(parts, sep), with the separator first.
unfoldable pub join : Bytes → List Bytes → Bytes
join sep [] = []
join sep (p ∷ []) = p
join sep (p ∷ q ∷ ps) = p ++ (sep ++ join sep (q ∷ ps))

-- `s` does not hold the byte `c`.
abbrev pub Lacks : ℕ → Bytes → Type 0
Lacks c = All (λ d. c ≢ d)

pub str_eq_iff : (s t : Bytes) → (str_eq s t ≡ true) ↔ (s ≡ t)
unfolding str_eq
str_eq_iff [] [] = (λ _. refl, λ _. refl)
str_eq_iff [] (d ∷ t) = ground arith
str_eq_iff (c ∷ s) [] = ground arith
str_eq_iff (c ∷ s) (d ∷ t) = ground (arith, str_eq_iff s t)

pub str_eq_refl : (s : Bytes) → str_eq s s ≡ true
str_eq_refl s = (str_eq_iff s s).1 refl

pub Lacks-iff : (c : ℕ) (s : Bytes) → (contains_byte c s ≡ false) ↔ Lacks c s
unfolding contains_byte
Lacks-iff c [] = (λ _. tt, λ _. refl)
Lacks-iff c (d ∷ s) = ground (arith, Lacks-iff c s)

pub has_prefix-append : (p s : Bytes) → has_prefix p (p ++ s) ≡ true
unfolding has_prefix
has_prefix-append [] s = refl
has_prefix-append (c ∷ p) s = ground (arith, has_prefix-append p s)

pub has_prefix_trans :
    (p q s : Bytes) → has_prefix p q ≡ true → has_prefix q s ≡ true → has_prefix p s ≡ true
unfolding has_prefix
has_prefix_trans [] q s h k = refl
has_prefix_trans (c ∷ p) [] s h k = cc
has_prefix_trans (c ∷ p) (d ∷ q) [] h k = cc
has_prefix_trans (c ∷ p) (d ∷ q) (e ∷ s) h k = ground (arith, has_prefix_trans p q s)

pub drop-prefix : (p s : Bytes) → has_prefix p s ≡ true → s ≡ p ++ drop (length p) s
unfolding has_prefix
drop-prefix [] s h = refl
drop-prefix (c ∷ p) [] h = cc
drop-prefix (c ∷ p) (d ∷ s) h = ground (arith, drop-prefix p s)

pub ends_with-append : (c d : ℕ) (s t : Bytes) → ends_with c (s ++ d ∷ t) ≡ ends_with c (d ∷ t)
unfolding ends_with
ends_with-append c d [] t = refl
ends_with-append c d (e ∷ []) t = refl
ends_with-append c d (e ∷ f ∷ s) t = ends_with-append c d (f ∷ s) t
