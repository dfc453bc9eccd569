-- ===== src/Base/Maps.antt =====
-- Go maps keyed by strings, as association lists. Ranging over a map follows the list: every
-- statement about a range holds for any order of the entries.
use mathlib.Core.Path.{◌≡◌, refl, subst}
use mathlib.Core.Bool.{Bool, true, false, ◌||◌}
use mathlib.Core.List.{List, [], ◌∷◌}
use mathlib.Core.Option.{Option, none, some}
use native.Mathlib.Omega.{arith}
use portguard_v.Base.Strings.{Text, eqb, eqb_iff, eqb_sym}
use portguard_v.Base.Tests.{if◌then◌else◌, Bool-cases}
use mathlib.Core.Logic.{inl, inr}

abbrev pub Map {ℓ} : Type ℓ → Type ℓ
Map V = List (Text × V)

module _ {ℓ} {V : Type ℓ} where
  unfoldable pub lookup : Text → Map V → Option V
  lookup k [] = none
  lookup k ((j, v) ∷ m) = if eqb j k then some v else lookup k m

  unfoldable pub insert : Text → V → Map V → Map V
  insert k v [] = (k, v) ∷ []
  insert k v ((j, w) ∷ m) = if eqb j k then (k, v) ∷ m else (j, w) ∷ insert k v m

  -- Deletion of every entry of the key.
  unfoldable pub delete : Text → Map V → Map V
  delete k [] = []
  delete k ((j, w) ∷ m) = let rest = delete k m in if eqb j k then rest else (j, w) ∷ rest

  pub lookup-insert :
      (k j : Text) (v : V) (m : Map V)
      → lookup j (insert k v m) ≡ (if eqb k j then some v else lookup j m)
  unfolding lookup insert
  lookup-insert k j v [] = refl
  lookup-insert k j v ((i, w) ∷ m) =
      ground (arith, eqb_iff k j, eqb_iff i k, eqb_iff i j, lookup-insert k j v m)

  pub lookup-delete :
      (k j : Text) (m : Map V) → lookup j (delete k m) ≡ (if eqb k j then none else lookup j m)
  unfolding lookup delete
  lookup-delete k j [] = ground arith
  lookup-delete k j ((i, w) ∷ m) =
      ground (arith, eqb_iff k j, eqb_iff i k, eqb_iff i j, lookup-delete k j m)

  abbrev pub has_key : Text → Map V → Bool
  has_key k [] = false
  has_key k ((j, w) ∷ m) = eqb j k || has_key k m

  pub lookup-has_key-false : (k : Text) (m : Map V) → has_key k m ≡ false → lookup k m ≡ none
  unfolding lookup
  lookup-has_key-false k [] h = refl
  lookup-has_key-false k ((j, w) ∷ m) h = ground (arith, lookup-has_key-false k m)

  pub lookup-has_key : (k : Text) (m : Map V) → has_key k m ≡ true → (v : V) × (lookup k m ≡ some v)
  unfolding lookup
  lookup-has_key k [] h = ground arith
  lookup-has_key k ((j, w) ∷ m) h = elim (Bool-cases (eqb j k)) [
    | inl e ↦ (w, rw e refl)
    | inr e ↦ let (v, g) = lookup-has_key k m (rw e at h) in (v, rw e g)
  ]

  -- No key twice.
  abbrev pub Distinct : Map V → Type ℓ
  Distinct [] = Unit
  Distinct ((k, v) ∷ m) = (lookup k m ≡ none) × Distinct m

  pub insert-Distinct : (k : Text) (v : V) (m : Map V) → Distinct m → Distinct (insert k v m)
  unfolding insert lookup
  insert-Distinct k v [] d = (refl, tt)
  insert-Distinct k v ((j, w) ∷ m) (n, d) = elim (Bool-cases (eqb j k)) [
    | inl e ↦ rw e (subst (λ z. lookup z m ≡ none) ((eqb_iff j k).0 e) n, d)
    | inr e ↦
        rw e (rw (lookup-insert k j v m) (ground (arith, eqb_sym k j)), insert-Distinct k v m d)
  ]
