-- ===== src/Base/Count.antt =====
-- Lists that hold the same items, as often, in whatever order.
use Prim.Native.Nat.{ℕ, ◌+◌}
use mathlib.Core.Path.{◌≡◌, refl, ◌∙◌}
use mathlib.Core.Bool.{Bool, false}
use mathlib.Core.List.{List, [], ◌∷◌, ◌++◌}
use native.Mathlib.Omega.{arith}
use jfrog_client_go.Base.Tests.{if◌then◌else◌}
use jfrog_client_go.Base.Lists.{All}

module _ {A : Type 0} where
  -- How many items pass the test.
  abbrev pub count : (A → Bool) → List A → ℕ
  count p [] = 0
  count p (x ∷ xs) = (if p x then 1 else 0) + count p xs

  -- Both lists hold the same items, as often, in whatever order.
  abbrev pub SameItems : List A → List A → Type 0
  SameItems xs ys = (p : A → Bool) → count p xs ≡ count p ys

  pub count-append : (p : A → Bool) (xs ys : List A) → count p (xs ++ ys) ≡ count p xs + count p ys
  count-append p [] ys = omega arith
  count-append p (x ∷ xs) ys = omega (arith, count-append p xs ys)

  count_none : (p : A → Bool) (xs : List A) → count p xs ≡ 0 → All (λ x. p x ≡ false) xs
  count_none p [] h = tt
  count_none p (x ∷ xs) h = ground (arith, count_none p xs)

  none_count : (p : A → Bool) (xs : List A) → All (λ x. p x ≡ false) xs → count p xs ≡ 0
  none_count p [] h = refl
  none_count p (x ∷ xs) h = ground (arith, none_count p xs)

  -- A test that fails on every item of one list fails on every item of the other.
  pub All-SameItems :
      (p : A → Bool) (xs ys : List A)
      → SameItems xs ys
      → All (λ x. p x ≡ false) ys
      → All (λ x. p x ≡ false) xs
  All-SameItems p xs ys same h = count_none p xs (same p ∙ none_count p ys h)
