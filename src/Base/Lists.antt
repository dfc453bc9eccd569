-- ===== src/Base/Lists.antt =====
-- Lists measured by native numbers, under the library's names, and predicates on lists.
use Prim.Native.Nat.{ℕ, suc, ◌+◌}
use mathlib.Core.Path.{◌≡◌, refl, ap, subst}
use mathlib.Core.Logic.{◌⊎◌, inl, inr}
use mathlib.Core.Bool.{Bool, true, false, ◌&&◌, ◌||◌}
use mathlib.Core.List.{List, [], ◌∷◌, ◌++◌}
use native.Mathlib.Omega.{arith}

module _ {ℓ} {A : Type ℓ} where
  abbrev pub length : List A → ℕ
  length [] = 0
  length (x ∷ xs) = suc (length xs)

  pub length-append : (xs ys : List A) → length (xs ++ ys) ≡ length xs + length ys
  length-append [] ys = omega arith
  length-append (x ∷ xs) ys = omega (arith, length-append xs ys)

  -- `any` and `all` of the library cannot be evaluated.
  abbrev pub any : (A → Bool) → List A → Bool
  any p [] = false
  any p (x ∷ xs) = p x || any p xs

  abbrev pub all : (A → Bool) → List A → Bool
  all p [] = true
  all p (x ∷ xs) = p x && all p xs

  abbrev pub All {κ} : (A → Type κ) → List A → Type κ
  All P [] = Unit
  All P (x ∷ xs) = P x × All P xs

  pub any-append : (p : A → Bool) (xs ys : List A) → any p (xs ++ ys) ≡ (any p xs || any p ys)
  any-append p [] ys = refl
  any-append p (x ∷ xs) ys = ground (arith, any-append p xs ys)

-- Membership with its place kept.
module _ {A : Type 0} where
  abbrev pub In : A → List A → Type 0
  In a [] = ⊥
  In a (x ∷ xs) = (x ≡ a) ⊎ In a xs

  pub all-In : (p : A → Bool) (xs : List A) (a : A) → all p xs ≡ true → In a xs → p a ≡ true
  all-In p [] a h m = absurd m
  all-In p (x ∷ xs) a h (inl e) = ground (arith, ap p e)
  all-In p (x ∷ xs) a h (inr m) = all-In p xs a (ground arith) m

  pub any-In-false : (p : A → Bool) (xs : List A) (a : A) → any p xs ≡ false → In a xs → p a ≡ false
  any-In-false p [] a h m = absurd m
  any-In-false p (x ∷ xs) a h (inl e) = ground (arith, ap p e)
  any-In-false p (x ∷ xs) a h (inr m) = any-In-false p xs a (ground arith) m

  pub In-append_left : (a : A) (xs ys : List A) → In a xs → In a (xs ++ ys)
  In-append_left a [] ys m = absurd m
  In-append_left a (x ∷ xs) ys (inl e) = inl e
  In-append_left a (x ∷ xs) ys (inr m) = inr (In-append_left a xs ys m)

  pub In-append_right : (a : A) (xs ys : List A) → In a ys → In a (xs ++ ys)
  In-append_right a [] ys m = m
  In-append_right a (x ∷ xs) ys m = inr (In-append_right a xs ys m)

  pub In-append_split : (a : A) (xs ys : List A) → In a (xs ++ ys) → In a xs ⊎ In a ys
  In-append_split a [] ys m = inr m
  In-append_split a (x ∷ xs) ys (inl e) = inl (inl e)
  In-append_split a (x ∷ xs) ys (inr m) = elim (In-append_split a xs ys m) [
    | inl l ↦ inl (inr l)
    | inr r ↦ inr r
  ]

  pub All-In : (P : A → Type 0) (xs : List A) (a : A) → All P xs → In a xs → P a
  All-In P [] a h m = absurd m
  All-In P (x ∷ xs) a (h, hs) (inl e) = subst P e h
  All-In P (x ∷ xs) a (h, hs) (inr m) = All-In P xs a hs m
