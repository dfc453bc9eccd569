-- ===== src/Api/Mappings/Bypass.antt =====
-- The creating handlers validate the body with the identifier that the client sent, and the
-- conflict loop passes over the row with that identifier, although the insertion gives a new one.
use mathlib.Core.Bool.{false≢true}
use portguard_v.Base.{
  List, [], ◌∷◌, ◌++◌, none, some, ℤ, ◌≡◌, refl, sym, subst, inl, inr, arith, In, In-append_right,
  Bool-cases, int_eq, int_eq_iff, ◌∙◌,
}
use portguard_v.Proxy.Model.{Mapping}
use portguard_v.Proxy.Validate.{validate_mapping}
use portguard_v.Proxy.Validate.Accepted.{validate_mapping-IsAccepted}
use portguard_v.Proxy.Validate.Conflicts.{Clash}
use portguard_v.Proxy.Validate.Names.{Lib}
use portguard_v.Api.Mappings.{Panel, Faults, created, mapping_from_body, create_mapping}
use portguard_v.Api.Mappings.Invariant.{IsSound}

IsSound-append-Clash :
    (m o : Mapping) (rows : List Mapping) → In o rows → IsSound (rows ++ m ∷ []) → ¬ Clash o m
IsSound-append-Clash m o [] k s = absurd k
IsSound-append-Clash m o (x ∷ xs) (inl e) s =
    λ c. (s.0 m (In-append_right m xs (m ∷ []) (inl refl))).1 (subst (λ z. Clash z m) (sym e) c)
IsSound-append-Clash m o (x ∷ xs) (inr k) s = IsSound-append-Clash m o xs k s.1

module _ (lib : Lib) (panel_port : ℤ) (fresh_id : List Mapping → ℤ) where
  created_rows :
      (f : Faults) (body : Mapping) (p : Panel) (id : ℤ)
      → (create_mapping lib panel_port fresh_id f (some body) p).0 ≡ created id
      → (create_mapping lib panel_port fresh_id f (some body) p).1.rows
        ≡ p.rows ++ record (mapping_from_body body) { id = fresh_id p.rows } ∷ []
  unfolding create_mapping
  created_rows f body p id h = ground arith

  created_accepted :
      (f : Faults) (body : Mapping) (p : Panel) (id : ℤ)
      → (create_mapping lib panel_port fresh_id f (some body) p).0 ≡ created id
      → validate_mapping lib (mapping_from_body body) p.rows panel_port ≡ none
  unfolding create_mapping
  created_accepted f body p id h = ground arith

  body_id : (body : Mapping) → (mapping_from_body body).id ≡ body.id
  unfolding mapping_from_body
  body_id body = refl

  -- If a create request is answered by success and its mapping clashes with a stored row, then its
  -- body carried that row's identifier, and the rows are no longer sound afterwards.
  pub create_mapping_bypass :
      (f : Faults) (body o : Mapping) (p : Panel) (id : ℤ)
      → In o p.rows
      → Clash o (mapping_from_body body)
      → (create_mapping lib panel_port fresh_id f (some body) p).0 ≡ created id
      → (o.id ≡ body.id)
        × (¬ IsSound (create_mapping lib panel_port fresh_id f (some body) p).1.rows)
  create_mapping_bypass f body o p id k c h =
      let m = record (mapping_from_body body) { id = fresh_id p.rows } in
      let a =
        validate_mapping-IsAccepted lib _ p.rows panel_port (created_accepted f body p id h) in
      (
        elim (Bool-cases (int_eq o.id (mapping_from_body body).id)) [
          | inl same ↦ (int_eq_iff _ _).0 same ∙ body_id body
          | inr differ ↦
              absurd (a.no_clash o k (λ e. false≢true (sym differ ∙ (int_eq_iff _ _).1 e)) c)
        ],
        (λ s.
            IsSound-append-Clash m o p.rows k (subst IsSound (created_rows f body p id h) s)
              (record {
                left_enabled = c.left_enabled;
                right_enabled = c.right_enabled;
                same_port = c.same_port;
                overlap = c.overlap;
              })),
      )
