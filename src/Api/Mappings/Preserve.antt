-- ===== src/Api/Mappings/Preserve.antt =====
-- Every mapping handler keeps the rows sound. What the database promises of a new row's identifier
-- is the hypothesis `fresh`.
use portguard_v.Base.{
  ℕ, ◌+◌, Bool, true, false, ◌||◌, ◌↔◌, ◌⊎◌, int_eq, List, [], ◌∷◌, ◌++◌, Option, none, some, map,
  any, Text, ℤ, pos, ◌≡◌, sym, ap, ◌∙◌, ◌≢◌, inl, inr, arith, In, Bool-cases, Option-cases,
  In-append_split, eqb,
}
use portguard_v.Proxy.Model.{Mapping}
use portguard_v.Proxy.Validate.{validate_mapping}
use portguard_v.Proxy.Validate.Accepted.{validate_mapping-IsAccepted}
use portguard_v.Proxy.Validate.Names.{Lib}
use portguard_v.Api.Mappings.{
  Panel, Faults, mapping_from_body, create_mapping, update_mapping, delete_mapping, delete_row,
  import_loop, import_mappings,
}
use portguard_v.Api.Mappings.Invariant.{
  IsSound, MayJoin, IsSound-append, IsSound-update_row, IsSound-delete_row, delete_row-In_iff,
}

-- The handler leaves the table alone: the identifier is 0, or the statement fails.
abbrev pub keeps_rows : Faults → ℤ → Bool
keeps_rows f id = int_eq id (pos 0) || f.write_fails

module _ (lib : Lib) (panel_port : ℤ) (fresh_id : List Mapping → ℤ)
    (fresh : (rows : List Mapping) (o : Mapping) → In o rows → o.id ≢ fresh_id rows) where
  -- An accepted mapping whose identifier is not stored may be stored under a fresh one.
  pub accepted-MayJoin :
      (m : Mapping) (rows : List Mapping)
      → validate_mapping lib m rows panel_port ≡ none
      → ((o : Mapping) → In o rows → o.id ≢ m.id)
      → MayJoin (record m { id = fresh_id rows }) rows
  accepted-MayJoin m rows ok apart o k =
      let a = validate_mapping-IsAccepted lib m rows panel_port ok in
      (
        fresh rows o k,
        (λ c. a.no_clash o k (apart o k) (record {
          left_enabled = c.left_enabled;
          right_enabled = c.right_enabled;
          same_port = c.same_port;
          overlap = c.overlap;
        })),
      )

  -- Creating a mapping keeps the rows sound on every branch, if the body that the client sent
  -- carries an identifier that no row has.
  pub create_mapping-IsSound :
      (f : Faults) (body : Mapping) (p : Panel)
      → ((o : Mapping) → In o p.rows → o.id ≢ body.id)
      → IsSound p.rows
      → IsSound (create_mapping lib panel_port fresh_id f (some body) p).1.rows
  unfolding create_mapping mapping_from_body
  create_mapping-IsSound f body p apart s =
      let m = mapping_from_body body in
      elim (Option-cases (validate_mapping lib m p.rows panel_port)) [
        | inr (e, bad) ↦ ground arith
        | inl ok ↦
            let joined =
              IsSound-append (record m { id = fresh_id p.rows }) p.rows s
                (accepted-MayJoin m p.rows ok apart) in
            ground arith
      ]

  -- Updating a mapping keeps the rows sound on every branch, whatever the request holds.
  pub update_mapping-IsSound :
      (f : Faults) (id : ℤ) (body : Option Mapping) (p : Panel)
      → IsSound p.rows
      → IsSound (update_mapping lib panel_port fresh_id f id body p).1.rows
  unfolding update_mapping
  update_mapping-IsSound f id none p s = s
  update_mapping-IsSound f id (some body) p s =
      let m = record (mapping_from_body body) { id = id } in
      elim (Option-cases (validate_mapping lib m p.rows panel_port)) [
        | inr (e, bad) ↦ ground arith
        | inl ok ↦
            let a = validate_mapping-IsAccepted lib m p.rows panel_port ok in
            let kept = IsSound-update_row m p.rows s a.no_clash in ground arith
      ]

  delete_mapping-kept :
      (f : Faults) (id : ℤ) (p : Panel)
      → keeps_rows f id ≡ true
      → (delete_mapping lib panel_port fresh_id f id p).1.rows ≡ p.rows
  unfolding delete_mapping
  delete_mapping-kept f id p h = ground arith

  delete_mapping-delete_row :
      (f : Faults) (id : ℤ) (p : Panel)
      → keeps_rows f id ≡ false
      → (delete_mapping lib panel_port fresh_id f id p).1.rows ≡ delete_row id p.rows
  unfolding delete_mapping
  delete_mapping-delete_row f id p h = ground arith

  -- Deleting a mapping keeps the rows sound, and the rows that are left are those with another
  -- identifier; all are left if the identifier is 0 or the deletion fails.
  pub delete_mapping-rows :
      (f : Faults) (id : ℤ) (p : Panel)
      → IsSound p.rows
      → IsSound (delete_mapping lib panel_port fresh_id f id p).1.rows
        × ((o : Mapping)
            → In o (delete_mapping lib panel_port fresh_id f id p).1.rows
              ↔ (In o p.rows × ((keeps_rows f id ≡ true) ⊎ (o.id ≢ id))))
  delete_mapping-rows f id p s = elim (Bool-cases (keeps_rows f id)) [
    | inl keeps ↦
        rw (delete_mapping-kept f id p keeps) (s, (λ o. ((λ k. (k, inl keeps)), (λ k. k.0))))
    | inr deletes ↦ rw (delete_mapping-delete_row f id p deletes) (
      IsSound-delete_row id p.rows s,
      (λ o.
          let e = delete_row-In_iff id o p.rows in
          (
            (λ k. ((e.0 k).0, inr (e.0 k).1)),
            (λ k. e.1 (
              k.0,
              elim k.1 [
                | inl keeps ↦ absurd (let z : true ≡ false = sym keeps ∙ deletes in cc)
                | inr ne ↦ ne
              ],
            )),
          )),
    )
  ]

  abbrev pub NoZero : List Mapping → Type 0
  NoZero rows = (o : Mapping) → In o rows → o.id ≢ pos 0

  module _ (positive : (rows : List Mapping) → fresh_id rows ≢ pos 0) where
    pub NoZero-append :
        (m : Mapping) (rows : List Mapping) → m.id ≢ pos 0 → NoZero rows → NoZero (rows ++ m ∷ [])
    NoZero-append m rows ne z o k = elim (In-append_split o rows (m ∷ []) k) [
      | inl old ↦ z o old
      | inr (inl e) ↦ λ i. ne (ap (λ (x : Mapping). x.id) e ∙ i)
      | inr (inr none_left) ↦ absurd none_left
    ]

    import_loop-IsSound :
        (insert_fails : Mapping → Bool) (bodies : List Mapping) (names : List Text)
        (counts : ℕ × ℕ × ℕ) (rows : List Mapping)
        → IsSound rows
        → NoZero rows
        → IsSound (import_loop lib panel_port fresh_id insert_fails bodies names counts rows).1
    unfolding import_loop
    import_loop-IsSound bad [] names counts rows s z = s
    import_loop-IsSound bad (body ∷ bodies) names (a, b, c) rows s z =
        let m : Mapping = record body { id = pos 0 } in
        let m' : Mapping = record body { id = fresh_id rows } in
        let ih : (ns : List Text) (k : ℕ × ℕ × ℕ)
            → IsSound (import_loop lib panel_port fresh_id bad bodies ns k rows).1 =
          λ ns k. import_loop-IsSound bad bodies ns k rows s z in
        elim (Bool-cases (any (eqb m.name) names)) [
          | inl taken ↦ rw taken (ih names (a, b + 1, c))
          | inr free ↦ elim (Option-cases (validate_mapping lib m rows panel_port)) [
            | inr (e, refused) ↦ rw (free, refused) (ih names (a, b, c + 1))
            | inl ok ↦ elim (Bool-cases (bad m)) [
              | inl failed ↦ rw (free, ok, failed) (ih names (a, b, c + 1))
              | inr stored ↦
                  rw (free, ok, stored)
                    (import_loop-IsSound bad bodies (m.name ∷ names) (a + 1, b, c) (rows ++ m' ∷ [])
                      (IsSound-append m' rows s (accepted-MayJoin m rows ok z))
                      (NoZero-append m' rows (positive rows) z))
            ]
          ]
        ]

    -- Importing mappings keeps the rows sound, whatever the bodies hold and whichever insertions
    -- fail, if no row has the identifier 0 and no new row gets it.
    pub import_mappings-IsSound :
        (f : Faults) (insert_fails : Mapping → Bool) (bodies : List Mapping) (p : Panel)
        → NoZero p.rows
        → IsSound p.rows
        → IsSound (import_mappings lib panel_port fresh_id f insert_fails (some bodies) p).rows
    unfolding import_mappings
    import_mappings-IsSound f bad bodies p z s =
        let kept = import_loop-IsSound bad bodies (map (λ m. m.name) p.rows) (0, 0, 0) p.rows s z in
        ground arith
