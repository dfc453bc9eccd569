-- ===== src/Api/Mappings.antt =====
-- The mapping handlers (internal/api/handlers.go, handleImport of internal/api/ops.go) with the
-- statements of internal/store/mappings.go that they run. The agent's handlers of
-- internal/api/agent.go take the same steps without the automatic apply.
pub mod Invariant
pub mod Preserve
pub mod Bypass
pub mod Tests
use portguard_v.Base.{
  ℕ, ◌+◌, Bool, true, false, not, ◌&&◌, ◌||◌, List, [], ◌∷◌, ◌++◌, Option, none, some, map, any,
  Text, codes, eqb, is_empty, ℤ, pos, int_eq, if◌then◌else◌,
}
use mathlib.Core.List.{filter_map}
use portguard_v.Proxy.Model.{Mapping}
use portguard_v.Proxy.Validate.{validate_mapping}
use portguard_v.Proxy.Validate.Names.{Lib}
use portguard_v.Proxy.Validate.Rules.{Error}

-- What a handler writes besides the rows: audit entries, and the automatic apply it starts.
pub data Event : Type 0 where
  audit_create audit_update audit_delete : ℤ → Event
  audit_import : ℕ → ℕ → ℕ → Event
  auto_apply : Event

-- The tables that the handlers touch. `health` has the mapping_id of each row of target_health.
pub record Panel : Type 0 where
  pub rows : List Mapping
  pub certs : List ℤ
  pub health : List ℤ
  pub auto : Bool
  pub log : List Event

-- Which statements of one request fail in the database. The error of the deletion from
-- target_health is dropped.
pub record Faults : Type 0 where
  pub list_fails : Bool
  pub write_fails : Bool
  pub health_fails : Bool

pub data Reply : Type 0 where
  bad_request missing_cert server_error : Reply
  invalid : Error → Reply
  created updated deleted : ℤ → Reply

-- Empty fields of a request's body get their defaults. A nil list is an empty one.
unfoldable pub mapping_from_body : Mapping → Mapping
mapping_from_body m = record m {
  listen_ip = if is_empty m.listen_ip then codes "0.0.0.0" else m.listen_ip;
  engine = if is_empty m.engine then codes "nginx" else m.engine;
  protocol = if is_empty m.protocol then codes "http" else m.protocol;
}

abbrev cert_known : Panel → Option ℤ → Bool
cert_known p none = true
cert_known p (some c) = any (int_eq c) p.certs

unfoldable pub cert_exists : Panel → Mapping → Bool
cert_exists p m = not (eqb m.protocol (codes "https")) || cert_known p m.ssl_cert_id

abbrev maybe_auto_apply : Panel → List Event
maybe_auto_apply p = if p.auto then auto_apply ∷ [] else []

-- The identifier is the one that the database chooses.
abbrev pub insert_row : ℤ → Mapping → List Mapping → List Mapping
insert_row id m rows = rows ++ record m { id = id } ∷ []

unfoldable pub update_row : Mapping → List Mapping → List Mapping
update_row m = map (λ (o : Mapping). if int_eq o.id m.id then m else o)

unfoldable pub delete_row : ℤ → List Mapping → List Mapping
unfolding filter_map
delete_row id = filter_map (λ (o : Mapping). if int_eq o.id id then none else some o)

module _ (lib : Lib) (panel_port : ℤ) (fresh_id : List Mapping → ℤ) where
  -- The body is `none` if the request cannot be read.
  unfoldable pub create_mapping : Faults → Option Mapping → Panel → Reply × Panel
  create_mapping f none p = (bad_request, p)
  create_mapping f (some body) p =
      let m = mapping_from_body body in
      if not (cert_exists p m)
      then (missing_cert, p)
      else if f.list_fails
      then (server_error, p)
      else elim (validate_mapping lib m p.rows panel_port) [
        | some e ↦ (invalid e, p)
        | none ↦ if f.write_fails then (server_error, p) else (
          created (fresh_id p.rows),
          record p {
            rows = insert_row (fresh_id p.rows) m p.rows;
            log = p.log ++ audit_create (fresh_id p.rows) ∷ maybe_auto_apply p;
          },
        )
      ]

  -- The identifier comes from the path of the request.
  unfoldable pub update_mapping : Faults → ℤ → Option Mapping → Panel → Reply × Panel
  update_mapping f id none p = (bad_request, p)
  update_mapping f id (some body) p =
      let m = record (mapping_from_body body) { id = id } in
      if int_eq id (pos 0)
      then (bad_request, p)
      else if not (cert_exists p m)
      then (missing_cert, p)
      else if f.list_fails
      then (server_error, p)
      else elim (validate_mapping lib m p.rows panel_port) [
        | some e ↦ (invalid e, p)
        | none ↦ if f.write_fails then (server_error, p) else (
          updated id,
          record p {
            rows = update_row m p.rows;
            log = p.log ++ audit_update id ∷ maybe_auto_apply p;
          },
        )
      ]

  unfoldable pub delete_mapping : Faults → ℤ → Panel → Reply × Panel
  delete_mapping f id p =
      if int_eq id (pos 0) then (bad_request, p) else if f.write_fails then (server_error, p) else (
        deleted id,
        record p {
          rows = delete_row id p.rows;
          health =
              if f.health_fails
              then p.health
              else filter_map (λ (k : ℤ). if int_eq k id then none else some k) p.health;
          log = p.log ++ audit_delete id ∷ maybe_auto_apply p;
        },
      )

  -- The loop of handleImport: the names that are taken, and the counts of created, skipped and
  -- refused mappings. `insert_fails` says of each mapping's insertion if it fails.
  unfoldable pub import_loop :
      (Mapping → Bool)
      → List Mapping
      → List Text
      → ℕ × ℕ × ℕ
      → List Mapping
      → (ℕ × ℕ × ℕ) × List Mapping
  import_loop insert_fails [] names counts rows = (counts, rows)
  import_loop insert_fails (body ∷ bodies) names (done, skipped, refused) rows =
      let m = record body { id = pos 0 } in
      let skip = import_loop insert_fails bodies names (done, skipped + 1, refused) rows in
      let refuse = import_loop insert_fails bodies names (done, skipped, refused + 1) rows in
      let accept =
        import_loop insert_fails bodies (m.name ∷ names) (done + 1, skipped, refused)
          (insert_row (fresh_id rows) m rows) in
      if any (eqb m.name) names then skip else elim (validate_mapping lib m rows panel_port) [
        | some e ↦ refuse
        | none ↦ if insert_fails m then refuse else accept
      ]

  unfoldable pub import_mappings : Faults → (Mapping → Bool) → Option (List Mapping) → Panel → Panel
  unfolding import_loop
  import_mappings f insert_fails none p = p
  import_mappings f insert_fails (some bodies) p =
      let ((done, skipped, refused), rows) =
        import_loop insert_fails bodies (map (λ m. m.name) p.rows) (0, 0, 0) p.rows in
      if f.list_fails
      then p
      else record p { rows = rows; log = p.log ++ audit_import done skipped refused ∷ [] }
