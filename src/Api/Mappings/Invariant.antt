-- ===== src/Api/Mappings/Invariant.antt =====
-- The rows of the mappings table: no two have one identifier, and no two fight for one socket. Each
-- handler keeps it so, if what it inserts carries no stored identifier.
use portguard_v.Base.{
  ◌↔◌, List, [], ◌∷◌, ◌++◌, ℤ, int_eq, int_eq_iff, ◌≡◌, refl, sym, ap, subst, ◌∙◌, ◌≢◌, ◌⊎◌, inl,
  inr, arith, In, Bool-cases, In-append_split,
}
use portguard_v.Proxy.Model.{Mapping}
use portguard_v.Proxy.Validate.Conflicts.{Clash, Clash-sym}
use portguard_v.Api.Mappings.{update_row, delete_row}

abbrev pub IsSound : List Mapping → Type 0
IsSound [] = Unit
IsSound (m ∷ ms) = ((o : Mapping) → In o ms → (o.id ≢ m.id) × (¬ Clash m o)) × IsSound ms

-- `m` may join the rows.
abbrev pub MayJoin : Mapping → List Mapping → Type 0
MayJoin m rows = (o : Mapping) → In o rows → (o.id ≢ m.id) × (¬ Clash o m)

pub IsSound-append :
    (m : Mapping) (rows : List Mapping) → IsSound rows → MayJoin m rows → IsSound (rows ++ m ∷ [])
IsSound-append m [] s j = ((λ o k. absurd k), tt)
IsSound-append m (x ∷ xs) s j = (
  (λ o k. elim (In-append_split o xs (m ∷ []) k) [
    | inl old ↦ s.0 o old
    | inr (inl e) ↦ (
      (λ q. (j x (inl refl)).0 (sym q ∙ ap (λ (z : Mapping). z.id) (sym e))),
      (λ c. (j x (inl refl)).1 (subst (Clash x) (sym e) c)),
    )
    | inr (inr none_left) ↦ absurd none_left
  ]),
  IsSound-append m xs s.1 (λ o k. j o (inr k)),
)

-- A row after an update is an old one with another identifier, or the new one in place of a row.
In-update_row :
    (m q : Mapping) (rows : List Mapping)
    → In q (update_row m rows)
    → (In q rows × (q.id ≢ m.id)) ⊎ ((o : Mapping) × (m ≡ q) × In o rows × (o.id ≡ m.id))
unfolding update_row
In-update_row m q [] k = absurd k
In-update_row m q (x ∷ xs) (inl e) = elim (Bool-cases (int_eq x.id m.id)) [
  | inl same ↦ inr (x, rw same at e, inl refl, (int_eq_iff _ _).0 same)
  | inr differ ↦
      let e' : x ≡ q = rw differ at e in
      inl
        (inl e', λ i. ground (arith, (int_eq_iff x.id m.id).1 (ap (λ (z : Mapping). z.id) e' ∙ i)))
]
In-update_row m q (x ∷ xs) (inr k) = elim (In-update_row m q xs k) [
  | inl (old, ne) ↦ inl (inr old, ne)
  | inr (o, e, i, s) ↦ inr (o, e, inr i, s)
]

abbrev id_of : Mapping → ℤ
id_of m = m.id

pub IsSound-update_row :
    (m : Mapping) (rows : List Mapping)
    → IsSound rows
    → ((o : Mapping) → In o rows → o.id ≢ m.id → ¬ Clash o m)
    → IsSound (update_row m rows)
unfolding update_row
IsSound-update_row m [] s j = tt
IsSound-update_row m (x ∷ xs) s j = elim (Bool-cases (int_eq x.id m.id)) [
  | inl same ↦
      let e : x.id ≡ m.id = (int_eq_iff _ _).0 same in
      rw same (
        (λ o k. elim (In-update_row m o xs k) [
          | inl (old, ne) ↦ (ne, λ c. j o (inr old) ne (Clash-sym m o c))
          | inr (q, eq, i, id_eq) ↦ absurd ((s.0 q i).0 (id_eq ∙ sym e))
        ]),
        IsSound-update_row m xs s.1 (λ o k. j o (inr k)),
      )
  | inr differ ↦
      let ne : x.id ≢ m.id = λ i. ground (arith, (int_eq_iff x.id m.id).1 i) in
      rw differ (
        (λ o k. elim (In-update_row m o xs k) [
          | inl (old, _) ↦ s.0 o old
          | inr (q, eq, i, id_eq) ↦ (
            (λ f. ne (sym (ap id_of eq ∙ f))),
            (λ c. j x (inl refl) ne (subst (Clash x) (sym eq) c)),
          )
        ]),
        IsSound-update_row m xs s.1 (λ o k. j o (inr k)),
      )
]

In-delete_row :
    (id : ℤ) (q : Mapping) (rows : List Mapping)
    → In q (delete_row id rows)
    → In q rows × (q.id ≢ id)
unfolding delete_row
In-delete_row id q [] k = absurd k
In-delete_row id q (x ∷ xs) k = elim (Bool-cases (int_eq x.id id)) [
  | inl same ↦ let (i, ne) = In-delete_row id q xs (rw same at k) in (inr i, ne)
  | inr differ ↦
      let k' : (x ≡ q) ⊎ In q (delete_row id xs) = rw differ at k in
      elim k' [
        | inl e ↦ (inl e, (λ i. ground (arith, (int_eq_iff x.id id).1 (ap id_of e ∙ i))))
        | inr l ↦ let (i, ne) = In-delete_row id q xs l in (inr i, ne)
      ]
]

delete_row-In :
    (id : ℤ) (q : Mapping) (rows : List Mapping) → In q rows → q.id ≢ id → In q (delete_row id rows)
unfolding delete_row
delete_row-In id q [] k ne = absurd k
delete_row-In id q (x ∷ xs) k ne = elim (Bool-cases (int_eq x.id id)) [
  | inl same ↦ rw same (elim k [
    | inl e ↦ absurd (ne (ap id_of (sym e) ∙ (int_eq_iff x.id id).0 same))
    | inr l ↦ delete_row-In id q xs l ne
  ])
  | inr differ ↦ rw differ (elim k [ inl e ↦ inl e | inr l ↦ inr (delete_row-In id q xs l ne) ])
]

-- The rows that are left are those with another identifier.
pub delete_row-In_iff :
    (id : ℤ) (q : Mapping) (rows : List Mapping)
    → In q (delete_row id rows) ↔ (In q rows × (q.id ≢ id))
delete_row-In_iff id q rows = (In-delete_row id q rows, (λ k. delete_row-In id q rows k.0 k.1))

pub IsSound-delete_row :
    (id : ℤ) (rows : List Mapping) → IsSound rows → IsSound (delete_row id rows)
unfolding delete_row
IsSound-delete_row id [] s = tt
IsSound-delete_row id (x ∷ xs) s = elim (Bool-cases (int_eq x.id id)) [
  | inl same ↦ rw same (IsSound-delete_row id xs s.1)
  | inr differ ↦
      rw differ ((λ o k. s.0 o (In-delete_row id o xs k).0), IsSound-delete_row id xs s.1)
]
