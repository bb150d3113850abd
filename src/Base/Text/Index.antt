-- ===== src/Base/Text/Index.antt =====
-- The first place of a byte in a text, and the text before and behind it.
use Prim.Native.Nat.{ℕ, suc}
use mathlib.Core.Path.{◌≡◌, refl, ap}
use mathlib.Core.Option.{none, some}
use mathlib.Core.List.{[], ◌∷◌, ◌++◌}
use native.Mathlib.Omega.{arith}
use jfrog_client_go.Base.Lists.{length, take, drop}
use jfrog_client_go.Base.Text.{Bytes, Lacks, index_byte}

pub index_byte-append :
    (c : ℕ) (s t : Bytes) → Lacks c s → index_byte c (s ++ c ∷ t) ≡ some (length s)
unfolding index_byte
index_byte-append c [] t h = ground arith
index_byte-append c (d ∷ s) t h = ground (arith, index_byte-append c s t)

pub index_byte-none : (c : ℕ) (s : Bytes) → Lacks c s → index_byte c s ≡ none
unfolding index_byte
index_byte-none c [] h = refl
index_byte-none c (d ∷ s) h = ground (arith, index_byte-none c s)

pub take-length : (s t : Bytes) → take (length s) (s ++ t) ≡ s
take-length [] t = refl
take-length (c ∷ s) t = ap (λ r. c ∷ r) (take-length s t)

pub drop-length : (s : Bytes) (c : ℕ) (t : Bytes) → drop (suc (length s)) (s ++ c ∷ t) ≡ t
drop-length [] c t = refl
drop-length (d ∷ s) c t = drop-length s c t
