-- ===== src/Base/Text/Order.antt =====
-- Go's order on strings, byte by byte.
use mathlib.Core.Path.{◌≡◌, refl}
use mathlib.Core.Bool.{Bool, true, false, ◌&&◌, ◌||◌}
use mathlib.Core.List.{[], ◌∷◌}
use native.Mathlib.Omega.{arith}
use jfrog_client_go.Base.Tests.{◌==◌, ltb}
use jfrog_client_go.Base.Text.{Bytes, has_prefix}

-- s < t
unfoldable pub str_lt : Bytes → Bytes → Bool
str_lt s [] = false
str_lt [] (d ∷ t) = true
str_lt (c ∷ s) (d ∷ t) = ltb c d || c == d && str_lt s t

pub str_lt_irrefl : (s : Bytes) → str_lt s s ≡ false
unfolding str_lt
str_lt_irrefl [] = refl
str_lt_irrefl (c ∷ s) = ground (arith, str_lt_irrefl s)

pub str_lt_trans : (r s t : Bytes) → str_lt r s ≡ true → str_lt s t ≡ true → str_lt r t ≡ true
unfolding str_lt
str_lt_trans r s [] h k = cc
str_lt_trans r [] (e ∷ t) h k = cc
str_lt_trans [] (d ∷ s) (e ∷ t) h k = refl
str_lt_trans (c ∷ r) (d ∷ s) (e ∷ t) h k = ground (arith, str_lt_trans r s t)

-- Two different texts are comparable.
pub str_lt_antisymm : (s t : Bytes) → str_lt s t ≡ false → str_lt t s ≡ false → s ≡ t
unfolding str_lt
str_lt_antisymm [] [] h k = refl
str_lt_antisymm [] (d ∷ t) h k = cc
str_lt_antisymm (c ∷ s) [] h k = cc
str_lt_antisymm (c ∷ s) (d ∷ t) h k = ground (arith, str_lt_antisymm s t)

pub str_lt_asymm : (s t : Bytes) → str_lt s t ≡ true → str_lt t s ≡ false
unfolding str_lt
str_lt_asymm s [] h = cc
str_lt_asymm [] (d ∷ t) h = refl
str_lt_asymm (c ∷ s) (d ∷ t) h = ground (arith, str_lt_asymm s t)

-- `r ≤ s < t` gives `r < t`, with `r ≤ s` as `s < r` being false.
pub str_le_lt_trans : (r s t : Bytes) → str_lt s r ≡ false → str_lt s t ≡ true → str_lt r t ≡ true
unfolding str_lt
str_le_lt_trans r s [] h k = cc
str_le_lt_trans [] s (e ∷ t) h k = refl
str_le_lt_trans (c ∷ r) [] (e ∷ t) h k = cc
str_le_lt_trans (c ∷ r) (d ∷ s) (e ∷ t) h k = ground (arith, str_le_lt_trans r s t)

pub str_lt_le_trans : (r s t : Bytes) → str_lt r s ≡ true → str_lt t s ≡ false → str_lt r t ≡ true
unfolding str_lt
str_lt_le_trans r [] t h k = cc
str_lt_le_trans r (d ∷ s) [] h k = cc
str_lt_le_trans [] (d ∷ s) (e ∷ t) h k = refl
str_lt_le_trans (c ∷ r) (d ∷ s) (e ∷ t) h k = ground (arith, str_lt_le_trans r s t)

pub str_le_trans : (r s t : Bytes) → str_lt s r ≡ false → str_lt t s ≡ false → str_lt t r ≡ false
unfolding str_lt
str_le_trans [] s t h k = refl
str_le_trans (c ∷ r) [] t h k = cc
str_le_trans (c ∷ r) (d ∷ s) [] h k = cc
str_le_trans (c ∷ r) (d ∷ s) (e ∷ t) h k = ground (arith, str_le_trans r s t)

-- A text does not lie above its extensions.
pub prefix_le : (p s : Bytes) → has_prefix p s ≡ true → str_lt s p ≡ false
unfolding str_lt has_prefix
prefix_le [] s h = refl
prefix_le (c ∷ p) [] h = cc
prefix_le (c ∷ p) (d ∷ s) h = ground (arith, prefix_le p s)

-- A text above `p` that does not extend `p` lies, with its own extensions, above all that extend `p`.
pub above_prefix :
    (p s s' t : Bytes)
    → str_lt p s ≡ true
    → has_prefix p s ≡ false
    → has_prefix s s' ≡ true
    → has_prefix p t ≡ true
    → str_lt t s' ≡ true
unfolding str_lt has_prefix
above_prefix p [] s' t lt ne hs ht = cc
above_prefix [] (d ∷ s) s' t lt ne hs ht = cc
above_prefix (c ∷ p) (d ∷ s) [] t lt ne hs ht = cc
above_prefix (c ∷ p) (d ∷ s) (d' ∷ s') [] lt ne hs ht = cc
above_prefix (c ∷ p) (d ∷ s) (d' ∷ s') (e ∷ t) lt ne hs ht = ground (arith, above_prefix p s s' t)

-- The texts that extend `p` are an interval of the order.
pub prefix_convex :
    (p g y : Bytes)
    → has_prefix p y ≡ true
    → str_lt g p ≡ false
    → str_lt y g ≡ false
    → has_prefix p g ≡ true
unfolding str_lt has_prefix
prefix_convex [] g y h k l = refl
prefix_convex (c ∷ p) [] y h k l = cc
prefix_convex (c ∷ p) (d ∷ g) [] h k l = cc
prefix_convex (c ∷ p) (d ∷ g) (e ∷ y) h k l = ground (arith, prefix_convex p g y)
