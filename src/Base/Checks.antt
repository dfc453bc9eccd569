-- ===== src/Base/Checks.antt =====
-- Validation in Go's style: a function returns the first error, or nil.
use mathlib.Core.Path.{◌≡◌, refl}
use mathlib.Core.Bool.{Bool, true, false}
use mathlib.Core.List.{List, [], ◌∷◌}
use mathlib.Core.Option.{Option, none, some}
use native.Mathlib.Omega.{arith}
use portguard_v.Base.Lists.{In}
use mathlib.Core.Logic.{inl, inr}

-- `none` is a nil error.
abbrev pub Check : Type 0 → Type 0
Check E = Option E

module _ {E : Type 0} where
  infixr 5 ◌>>◌
  -- `if err := a; err != nil { return err }`, then `b`.
  abbrev pub ◌>>◌ : Check E → Check E → Check E
  none >> b = b
  some e >> b = some e

  abbrev pub fail_if : Bool → E → Check E
  fail_if true e = some e
  fail_if false e = none

  -- A loop that returns at the first error.
  abbrev pub for_each : {A : Type 0} → (A → Check E) → List A → Check E
  for_each f [] = none
  for_each f (x ∷ xs) = f x >> for_each f xs

  pub >>-none : (a b : Check E) → (a >> b) ≡ none → (a ≡ none) × (b ≡ none)
  >>-none none b h = (refl, h)
  >>-none (some e) b h = ground arith

  pub fail_if-none : (t : Bool) (e : E) → fail_if t e ≡ none → t ≡ false
  fail_if-none true e h = ground arith
  fail_if-none false e h = refl

  pub for_each-In :
      {A : Type 0} (f : A → Check E) (xs : List A) (a : A)
      → for_each f xs ≡ none
      → In a xs
      → f a ≡ none
  for_each-In f [] a h m = absurd m
  for_each-In f (x ∷ xs) a h (inl e) = rw (← e) (>>-none (f x) (for_each f xs) h).0
  for_each-In f (x ∷ xs) a h (inr m) = for_each-In f xs a (>>-none (f x) (for_each f xs) h).1 m

  pub for_each-none :
      {A : Type 0} (f : A → Check E) (xs : List A)
      → ((a : A) → In a xs → f a ≡ none)
      → for_each f xs ≡ none
  for_each-none f [] h = refl
  for_each-none f (x ∷ xs) h = rw (h x (inl refl)) (for_each-none f xs (λ a m. h a (inr m)))
