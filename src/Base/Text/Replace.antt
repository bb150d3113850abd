-- ===== src/Base/Text/Replace.antt =====
-- strings.ReplaceAll.
use Prim.Native.Nat.{ℕ, zero, suc, ◌-◌}
use mathlib.Core.Path.{◌≡◌, refl}
use mathlib.Core.Bool.{true, false}
use mathlib.Core.List.{[], ◌∷◌, ◌++◌}
use native.Mathlib.Omega.{arith}
use jfrog_client_go.Base.Tests.{◌==◌, if◌then◌else◌}
use jfrog_client_go.Base.Lists.{length}
use jfrog_client_go.Base.Text.{Bytes, has_prefix}

-- The bytes of an occurrence that was replaced are skipped.
replace_skip : Bytes → Bytes → ℕ → Bytes → Bytes
unfolding has_prefix
replace_skip old new n [] = []
replace_skip old new (suc n) (c ∷ s) = replace_skip old new n s
replace_skip old new zero (c ∷ s) = elim (has_prefix old (c ∷ s)) [
  | true ↦ new ++ replace_skip old new (length old - 1) s
  | false ↦ c ∷ replace_skip old new 0 s
]

-- strings.ReplaceAll(s, old, new) for an old text that is not empty.
unfoldable pub replace_all : Bytes → Bytes → Bytes → Bytes
unfolding replace_skip
replace_all old new s = replace_skip old new 0 s

-- With a single byte to replace, the text is rewritten byte by byte.
pub replace_all-cons :
    (a : ℕ) (new : Bytes) (c : ℕ) (s : Bytes)
    → replace_all (a ∷ []) new (c ∷ s)
      ≡ (if a == c then new ++ replace_all (a ∷ []) new s else c ∷ replace_all (a ∷ []) new s)
unfolding replace_all has_prefix
replace_all-cons a new c s = ground arith

pub replace_all-nil : (old new : Bytes) → replace_all old new [] ≡ []
unfolding replace_all
replace_all-nil old new = refl
