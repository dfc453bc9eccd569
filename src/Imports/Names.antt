-- ===== src/Imports/Names.antt =====
-- uniqueMappingName of internal/proxy/parser.go: the loop without a bound ends.
use portguard_v.Base.{
  ℕ, zero, suc, true, false, List, [], ◌∷◌, ◌++◌, Text, codes, eqb, eqb_iff, ◌≡◌, ◌≤◌, ◌<◌, refl,
  ap, inl, inr, arith, any, length, if◌then◌else◌, Bool-cases,
}
use portguard_v.Base.Decimal.{decimal, decimal-Injective}
use mathlib.Core.List.{append_cancel_left}

abbrev pub candidate : Text → ℕ → Text
candidate base i = base ++ codes "-" ++ decimal i

-- The loop from the number `i` on. With no fuel left the candidate is not looked up.
unfoldable pub search_name : ℕ → Text → List Text → ℕ → Text
search_name zero base taken i = candidate base i
search_name (suc f) base taken i =
    let rest = search_name f base taken (suc i) in
    if any (eqb (candidate base i)) taken then rest else candidate base i

unfoldable pub unique_mapping_name : Text → List Text → Text
unfolding search_name
unique_mapping_name base taken =
    if any (eqb base) taken then search_name (length taken) base taken 2 else base

-- The first place of a text removed.
abbrev remove : Text → List Text → List Text
remove t [] = []
remove t (u ∷ us) = let rest = remove t us in if eqb t u then us else u ∷ rest

length-remove :
    (t : Text) (us : List Text) → any (eqb t) us ≡ true → length us ≡ suc (length (remove t us))
length-remove t [] h = absurd cc
length-remove t (u ∷ us) h = elim (Bool-cases (eqb t u)) [
  | inl e ↦ rw e refl
  | inr e ↦ rw e (ap suc (length-remove t us (rw e at h)))
]

any-remove :
    (t u : Text) (us : List Text)
    → eqb t u ≡ false
    → any (eqb t) us ≡ true
    → any (eqb t) (remove u us) ≡ true
any-remove t u [] d h = absurd cc
any-remove t u (v ∷ us) d h = elim (Bool-cases (eqb u v)) [
  | inl e ↦ rw e (ground (arith, eqb_iff u v, eqb_iff t u, eqb_iff t v))
  | inr e ↦ rw e (ground (arith, any-remove t u us d))
]

candidate-Injective : (base : Text) (i j : ℕ) → candidate base i ≡ candidate base j → i ≡ j
candidate-Injective base i j h =
    decimal-Injective i j (append_cancel_left (base ++ codes "-") (decimal i) (decimal j) h)

candidates_differ :
    (base : Text) (i j : ℕ) → i < j → eqb (candidate base j) (candidate base i) ≡ false
candidates_differ base i j lt = elim (Bool-cases (eqb (candidate base j) (candidate base i))) [
  | inl e ↦
      absurd
        (let same : j ≡ i = candidate-Injective base j i ((eqb_iff _ _).0 e) in omega (arith, same))
  | inr e ↦ e
]

-- `left` has the taken names that a candidate still to come can meet.
search_name-any :
    (f : ℕ) (base : Text) (taken left : List Text) (i : ℕ)
    → ((j : ℕ)
        → i ≤ j
        → any (eqb (candidate base j)) taken ≡ true
        → any (eqb (candidate base j)) left ≡ true)
    → length left ≤ f
    → any (eqb (search_name f base taken i)) taken ≡ false
unfolding search_name
search_name-any zero base taken [] i h le = elim (Bool-cases (any (eqb (candidate base i)) taken)) [
  | inl e ↦ absurd (let k = h i (omega arith) e in cc)
  | inr e ↦ e
]
search_name-any zero base taken (t ∷ left) i h le = absurd (omega (arith, le))
search_name-any (suc f) base taken left i h le =
    elim (Bool-cases (any (eqb (candidate base i)) taken)) [
      | inl e ↦
          let met : any (eqb (candidate base i)) left ≡ true = h i (omega arith) e in
          rw e (
            search_name-any f base taken (remove (candidate base i) left) (suc i)
              (λ j lt k.
                any-remove (candidate base j) (candidate base i) left
                  (candidates_differ base i j (omega (arith, lt))) (h j (omega (arith, lt)) k))
              (omega (arith, length-remove (candidate base i) left met, le)))
      | inr e ↦ rw e e
    ]

-- The loop ends after at most as many steps as there are taken names, and with a name that is not
-- taken.
pub unique_mapping_name-any :
    (base : Text) (taken : List Text) → any (eqb (unique_mapping_name base taken)) taken ≡ false
unfolding unique_mapping_name
unique_mapping_name-any base taken = elim (Bool-cases (any (eqb base) taken)) [
  | inl e ↦ rw e (search_name-any (length taken) base taken taken 2 (λ j lt k. k) (omega arith))
  | inr e ↦ rw e e
]
