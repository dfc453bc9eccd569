-- ===== src/Imports/Preserve.antt =====
-- handleImportConfirm of internal/api/configimport.go keeps the rows sound.
use portguard_v.Base.{
  zero, suc, List, [], All, Text, ap, sym, ◌∙◌, ◌∷◌, Option, none, some, Bool, false, refl, ℤ, pos,
  negsuc, ◌≡◌, ◌≢◌, inl, inr, In, Bool-cases, Option-cases,
}
use portguard_v.Proxy.Model.{Mapping}
use portguard_v.Proxy.Validate.{validate_mapping}
use portguard_v.Proxy.Validate.Names.{Lib}
use portguard_v.Api.Mappings.{insert_row}
use portguard_v.Api.Mappings.Invariant.{IsSound, IsSound-append}
use portguard_v.Api.Mappings.Preserve.{accepted-MayJoin, NoZero, NoZero-append}
use portguard_v.Imports.Candidates.{IsCandidate, scan_existing_configs-AreCandidates}
use portguard_v.Imports.Confirm.{
  ListFaults, list_mappings, Confirmed, confirm_one, confirm_loop, import_confirm, candidate_at,
  scan_existing_configs,
}

module _ (lib : Lib) (panel_port : ℤ) (fresh_id : List Mapping → ℤ)
    (fresh : (rows : List Mapping) (o : Mapping) → In o rows → o.id ≢ fresh_id rows)
    (positive : (rows : List Mapping) → fresh_id rows ≢ pos 0) (insert_fails : Mapping → Bool) where
  abbrev pub Stays : List Mapping → Type 0
  Stays rows = IsSound rows × NoZero lib panel_port fresh_id fresh rows

  -- A candidate carries no identifier.
  abbrev pub HasNoId : Mapping → Type 0
  HasNoId m = m.id ≡ pos 0

  -- The candidates are checked against the rows of the table.
  IsChecked : Confirmed → Type 0
  IsChecked c = Stays c.rows × (c.seen ≡ c.rows)

  confirm_one-IsChecked :
      (m : Mapping) (c : Confirmed)
      → HasNoId m
      → IsChecked c
      → IsChecked (confirm_one lib panel_port fresh_id insert_fails m c)
  unfolding confirm_one IsChecked
  confirm_one-IsChecked m c i ((s, z), q) =
      elim (Option-cases (validate_mapping lib m c.seen panel_port)) [
        | inr (e, bad) ↦ rw (bad, confirm_one) ((s, z), q)
        | inl ok ↦ elim (Bool-cases (insert_fails m)) [
          | inl failed ↦ rw (ok, failed, confirm_one) ((s, z), q)
          | inr stored ↦
              let ok' : validate_mapping lib m c.rows panel_port ≡ none = rw q at ok in
              rw (ok, stored, confirm_one)
                (
                  (
                    IsSound-append (record m { id = fresh_id c.rows }) c.rows s
                        (accepted-MayJoin lib panel_port fresh_id fresh m c.rows ok'
                          (λ o k. rw i (z o k))),
                    NoZero-append lib panel_port fresh_id fresh positive
                        (record m { id = fresh_id c.rows }) c.rows (positive c.rows) z,
                  ),
                  ap (insert_row (fresh_id c.rows) m) q,
                )
        ]
      ]

  at-HasNoId :
      (candidates : List Mapping) (i : ℤ) (m : Mapping)
      → All IsCandidate candidates
      → candidate_at i candidates ≡ some m
      → HasNoId m
  unfolding candidate_at
  at-HasNoId candidates (negsuc n) m a e = absurd cc
  at-HasNoId [] (pos n) m a e = absurd cc
  at-HasNoId (c ∷ cs) (pos zero) m a e =
      ap (λ (o : Option Mapping). elim o [ none ↦ pos 0 | some x ↦ x.id ]) (sym e) ∙ a.0.no_id
  at-HasNoId (c ∷ cs) (pos (suc n)) m a e = at-HasNoId cs (pos n) m a.1 e

  confirm_loop-IsChecked :
      (candidates : List Mapping)
      → All IsCandidate candidates
      → (indices : List ℤ) (c : Confirmed) → IsChecked c
      → IsChecked (confirm_loop lib panel_port fresh_id insert_fails candidates indices c)
  unfolding confirm_loop
  confirm_loop-IsChecked cs a [] c s = s
  confirm_loop-IsChecked cs a (i ∷ is) c s = elim (Option-cases (candidate_at i cs)) [
    | inl e ↦ rw (e, confirm_loop) (confirm_loop-IsChecked cs a is c s)
    | inr (m, e) ↦
        rw (e, confirm_loop)
          (confirm_loop-IsChecked cs a is (confirm_one lib panel_port fresh_id insert_fails m c)
            (confirm_one-IsChecked m c (at-HasNoId cs i m a e) s))
  ]

  -- A confirmed import keeps the rows sound, whatever the files and the indices are, whichever
  -- insertions fail and whether or not the scan can list the mappings, if the handler itself can list
  -- them, no row has the identifier 0 and no new row gets it.
  pub import_confirm-IsSound :
      (f : ListFaults) (nginx haproxy : Option Text) (indices : List ℤ) (rows : List Mapping)
      → f.confirm_fails ≡ false
      → NoZero lib panel_port fresh_id fresh rows
      → IsSound rows
      → IsSound
          (import_confirm lib panel_port fresh_id insert_fails f nginx haproxy indices rows).rows
  unfolding import_confirm IsChecked list_mappings
  import_confirm-IsSound f nginx haproxy indices rows listed z s =
      let known = list_mappings f.scan_fails rows in
      (confirm_loop-IsChecked (scan_existing_configs nginx haproxy known).mappings
        (scan_existing_configs-AreCandidates nginx haproxy known) indices
        (record {
          created = 0;
          skipped = 0;
          refused = [];
          rows = rows;
          seen = list_mappings f.confirm_fails rows;
        })
        ((s, z), rw listed refl)).0.0
