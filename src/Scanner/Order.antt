-- ===== src/Scanner/Order.antt =====
-- The class of a process does not hang on the order in which Go ranges over knownServices
-- (internal/scanner/scanner.go).
use portguard_v.Base.{
  Bool, true, false, not, ◌||◌, [], ◌∷◌, Text, codes, eqb, eqb_iff, has_prefix, strip_prefix, all,
  ◌≡◌, ◌↔◌, refl, inl, inr, arith, In, all-In, Bool-cases, Option-cases, is_empty, trim_space,
  to_lower,
}
use portguard_v.Base.Maps.{Map, lookup}
use portguard_v.Scanner.Classify.{known_services, first_name, prefix_class, classify_in, classify}

-- Two rows whose names can start one text give one class.
abbrev agree : Text × Text → Text × Text → Bool
agree a b = not (has_prefix a.0 b.0 || has_prefix b.0 a.0) || eqb a.1 b.1

abbrev rows_agree : Bool
rows_agree = all (λ a. all (agree a) known_services) known_services

rows_agree-true : rows_agree ≡ true
unfolding has_prefix strip_prefix eqb
rows_agree-true = refl

-- Of two prefixes of a text, one is a prefix of the other.
has_prefix-both :
    (p q s : Text)
    → has_prefix s p ≡ true
    → has_prefix s q ≡ true
    → (has_prefix p q || has_prefix q p) ≡ true
unfolding has_prefix strip_prefix
has_prefix-both [] [] s h k = refl
has_prefix-both [] (d ∷ q) s h k = refl
has_prefix-both (c ∷ p) [] s h k = refl
has_prefix-both (c ∷ p) (d ∷ q) [] h k = absurd cc
has_prefix-both (c ∷ p) (d ∷ q) (x ∷ s) h k = ground (arith, has_prefix-both p q s)

-- Rows whose names start one text give one class.
one_class :
    (a b : Text × Text) (first : Text)
    → In a known_services
    → In b known_services
    → has_prefix first a.0 ≡ true
    → has_prefix first b.0 ≡ true
    → a.1 ≡ b.1
one_class a b first i j h k =
    let row : all (agree a) known_services ≡ true =
      all-In (λ a. all (agree a) known_services) known_services a rows_agree-true i in
    let pair : agree a b ≡ true = all-In (agree a) known_services b row j in
    let both = has_prefix-both a.0 b.0 first h k in (eqb_iff a.1 b.1).0 (ground arith)

-- The range stops at a row whose name starts the text, or at none.
data Stop (m : Map Text) (first : Text) : Text → Type 0 where
  at_row : (a : Text × Text) → In a m → has_prefix first a.0 ≡ true → Stop m first a.1
  at_end :
      ((a : Text × Text) → In a m → has_prefix first a.0 ≡ false) → Stop m first (codes "other")

Stop-later :
    (m : Map Text) (row : Text × Text) (first cls : Text)
    → has_prefix first row.0 ≡ false
    → Stop m first cls
    → Stop (row ∷ m) first cls
Stop-later m row first _ e (at_row a i h) = at_row a (inr i) h
Stop-later m row first _ e (at_end h) = at_end (λ a. elim [ inl q ↦ rw (← q) e | inr i ↦ h a i ])

prefix_class-Stop : (m : Map Text) (first : Text) → Stop m first (prefix_class m first)
unfolding prefix_class
prefix_class-Stop [] first = at_end (λ a i. absurd i)
prefix_class-Stop ((svc, cls) ∷ m) first = elim (Bool-cases (has_prefix first svc)) [
  | inl e ↦ rw (e, prefix_class) (at_row (svc, cls) (inl refl) e)
  | inr e ↦
      rw (e, prefix_class)
        (Stop-later m (svc, cls) first (prefix_class m first) e (prefix_class-Stop m first))
]

Stop-eq :
    (m n : Map Text) (first a b : Text)
    → ((r : Text × Text) → In r m ↔ In r known_services)
    → ((r : Text × Text) → In r n ↔ In r known_services)
    → Stop m first a
    → Stop n first b
    → a ≡ b
Stop-eq m n first _ _ f g (at_row r i h) (at_row q j k) =
    one_class r q first ((f r).0 i) ((g q).0 j) h k
Stop-eq m n first _ _ f g (at_row r i h) (at_end k) =
    absurd (let z = k r ((g r).1 ((f r).0 i)) in cc)
Stop-eq m n first _ _ f g (at_end h) (at_row q j k) =
    absurd (let z = h q ((f q).1 ((g q).0 j)) in cc)
Stop-eq m n first _ _ f g (at_end h) (at_end k) = refl

-- Whatever the order in which Go ranges over the table of known services, the class of a process is
-- the same.
pub classify_in-classify :
    (order : Map Text)
    → ((row : Text × Text) → In row order ↔ In row known_services)
    → (process : Text) → classify_in order process ≡ classify process
unfolding classify classify_in
classify_in-classify order same process =
    let name = to_lower (trim_space process) in
    elim (Bool-cases (is_empty name)) [
      | inl e ↦ rw (e, classify_in, classify) refl
      | inr e ↦ elim (Option-cases (lookup (first_name name) known_services)) [
        | inr (cls, l) ↦ rw (e, l, classify_in, classify) refl
        | inl l ↦
            rw (e, l, classify_in, classify)
              (Stop-eq order known_services (first_name name) _ _ same (λ r. ((λ i. i), (λ i. i)))
                (prefix_class-Stop order (first_name name))
                (prefix_class-Stop known_services (first_name name)))
      ]
    ]
