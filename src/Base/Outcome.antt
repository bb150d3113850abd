-- ===== src/Base/Outcome.antt =====
-- What a Go call comes to: a value, an error value, or a run-time panic.
use mathlib.Core.Path.{◌≡◌, refl}
use jfrog_client_go.Base.Text.{Bytes}

-- The error is its text; a panic is an index or a slice expression out of range.
pub data Outcome {ℓ} (A : Type ℓ) : Type ℓ where
  panic : Outcome A
  err : Bytes → Outcome A
  ok : A → Outcome A

-- The statement after a call: run only when the call gave a value.
infixl 5 ◌>>=◌
abbrev pub ◌>>=◌ {i j} : {S : Type i} {T : Type j} → Outcome S → (S → Outcome T) → Outcome T
panic >>= next = panic
err text >>= next = err text
ok value >>= next = next value

-- Two calls in a row give a value only if the first one did.
pub >>=-ok_inv {i j} :
    {S : Type i} {T : Type j} (call : Outcome S) (next : S → Outcome T) {result : T}
    → (call >>= next) ≡ ok result
    → (value : S) × (call ≡ ok value) × (next value ≡ ok result)
>>=-ok_inv panic next h = cc
>>=-ok_inv (err text) next h = cc
>>=-ok_inv (ok value) next h = (value, refl, h)
