-- ===== src/Imports/Fresh.antt =====
-- The names that the conversions give: none is taken before, and none is given twice.
use portguard_v.Base.{
  Bool, List, [], ◌∷◌, ◌++◌, none, some, map, Text, eqb, eqb_refl, refl, sym, subst, inl, inr,
  arith, In, In-append_split, if◌then◌else◌, Bool-cases, any-In-false,
}
use mathlib.Core.List.{filter_map, map-append}
use portguard_v.Proxy.Model.{Mapping}
use portguard_v.Proxy.Validate.Routes.{AllDistinct, Fresh}
use portguard_v.Imports.Names.{unique_mapping_name, unique_mapping_name-any}
use portguard_v.Imports.Conversion.{Conversion, ConversionIssue, add_issue, add_mapping}

abbrev pub name_of : Mapping → Text
name_of m = m.name

-- The names of `c.out` are new, and they and the old ones are taken.
pub record AreNew (old : List Text) (c : Conversion) : Type 0 where
  pub fresh : Fresh old (map name_of c.out)
  pub kept : (t : Text) → In t old → In t c.taken
  pub noted : (t : Text) → In t (map name_of c.out) → In t c.taken

pub append-AllDistinct :
    (xs ys : List Text)
    → AllDistinct xs
    → AllDistinct ys
    → ((t : Text) → In t ys → ¬ In t xs)
    → AllDistinct (xs ++ ys)
append-AllDistinct [] ys d e h = e
append-AllDistinct (x ∷ xs) ys (n, d) e h = (
  (λ i. elim (In-append_split x xs ys i) [ inl l ↦ n l | inr r ↦ h x r (inl refl) ]),
  append-AllDistinct xs ys d e (λ t r l. h t r (inr l)),
)

-- Names that are new after others are new with them.
pub append-Fresh :
    (old mid xs ys : List Text)
    → Fresh old xs
    → ((t : Text) → In t old → In t mid)
    → ((t : Text) → In t xs → In t mid)
    → Fresh mid ys
    → Fresh old (xs ++ ys)
append-Fresh old mid xs ys f ko kx g = (
  (λ t i o. elim (In-append_split t xs ys i) [ inl l ↦ f.0 t l o | inr r ↦ g.0 t r (ko t o) ]),
  append-AllDistinct xs ys f.1 g.1 (λ t r l. g.0 t r (kx t l)),
)

unique_mapping_name-In :
    (base : Text) (taken : List Text) → ¬ In (unique_mapping_name base taken) taken
unique_mapping_name-In base taken i =
    let name = unique_mapping_name base taken in
    let e = any-In-false (eqb name) taken name (unique_mapping_name-any base taken) i in
    ground (arith, eqb_refl name)

pub add_issue-AreNew :
    (old : List Text) (i : ConversionIssue) (c : Conversion)
    → AreNew old c
    → AreNew old (add_issue i c)
unfolding add_issue
add_issue-AreNew old i c a = record { fresh = a.fresh; kept = a.kept; noted = a.noted }

pub add_mapping-AreNew :
    (old : List Text) (base : Text) (m : Mapping) (c : Conversion)
    → AreNew old c
    → AreNew old (add_mapping base m c)
unfolding add_mapping
add_mapping-AreNew old base m c a =
    let name = unique_mapping_name base c.taken in
    let split = map-append name_of c.out (record m { name = name } ∷ []) in
    record {
      fresh = rw split (
          append-Fresh old c.taken (map name_of c.out) (name ∷ []) a.fresh a.kept a.noted (
            (λ t. elim [
              | inl e ↦
                  λ i. unique_mapping_name-In base c.taken (subst (λ u. In u c.taken) (sym e) i)
              | inr none_left ↦ absurd none_left
            ]),
            ((λ none_left. none_left), tt),
          ));
      kept = λ t i. inr (a.kept t i);
      noted = λ t i. elim (In-append_split t (map name_of c.out) (name ∷ []) (rw split at i)) [
        | inl l ↦ inr (a.noted t l)
        | inr (inl e) ↦ inl e
        | inr (inr none_left) ↦ absurd none_left
      ];
    }

pub start-AreNew : (old : List Text) → AreNew old (record { out = []; issues = []; taken = old })
start-AreNew old = record {
  fresh = ((λ t i. absurd i), tt);
  kept = λ t i. i;
  noted = λ t i. absurd i;
}

-- What a filter keeps is still new.
In-filter_map :
    (p : Mapping → Bool) (t : Text) (ms : List Mapping)
    → In t (map name_of (filter_map (λ (m : Mapping). if p m then none else some m) ms))
    → In t (map name_of ms)
unfolding filter_map
In-filter_map p t [] i = i
In-filter_map p t (m ∷ ms) i = elim (Bool-cases (p m)) [
  | inl e ↦ inr (In-filter_map p t ms (rw e at i))
  | inr e ↦
      let j : In t (
          name_of m ∷ map name_of (filter_map (λ (m : Mapping). if p m then none else some m) ms)) =
        rw e at i in
      elim j [ inl q ↦ inl q | inr r ↦ inr (In-filter_map p t ms r) ]
]

filter_map-AllDistinct :
    (p : Mapping → Bool) (ms : List Mapping)
    → AllDistinct (map name_of ms)
    → AllDistinct (map name_of (filter_map (λ (m : Mapping). if p m then none else some m) ms))
unfolding filter_map
filter_map-AllDistinct p [] d = tt
filter_map-AllDistinct p (m ∷ ms) (n, d) = elim (Bool-cases (p m)) [
  | inl e ↦ rw e (filter_map-AllDistinct p ms d)
  | inr e ↦ rw e ((λ i. n (In-filter_map p m.name ms i)), filter_map-AllDistinct p ms d)
]

pub filter_map-Fresh :
    (old : List Text) (p : Mapping → Bool) (ms : List Mapping)
    → Fresh old (map name_of ms)
    → Fresh old (map name_of (filter_map (λ (m : Mapping). if p m then none else some m) ms))
filter_map-Fresh old p ms f =
    ((λ t i. f.0 t (In-filter_map p t ms i)), filter_map-AllDistinct p ms f.1)
