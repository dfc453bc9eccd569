-- ===== src/Imports/Confirm.antt =====
-- handleImportConfirm, scanExistingConfigs and readLiveFile of internal/api/configimport.go.
use portguard_v.Base.{
  byte_length, ℕ, zero, suc, ◌+◌, Bool, ◌&&◌, ◌||◌, not, List, [], ◌∷◌, ◌++◌, Option, none, some,
  map, any, Text, codes, is_empty, contains, ltb, ℤ, pos, negsuc, int_eq, if◌then◌else◌,
}
use mathlib.Core.List.{filter_map}
use portguard_v.Proxy.Model.{Mapping}
use portguard_v.Proxy.Validate.{validate_mapping}
use portguard_v.Proxy.Validate.Names.{Lib}
use portguard_v.Proxy.Validate.Rules.{Error}
use portguard_v.Imports.Conversion.{Conversion, ConversionIssue}
use portguard_v.Imports.Haproxy.{parse_haproxy_config}
use portguard_v.Imports.Haproxy.Convert.{haproxy_cfg_to_mappings}
use portguard_v.Imports.Nginx.{parse_nginx_config}
use portguard_v.Imports.Nginx.Convert.{nginx_sites_to_mappings}
use portguard_v.Api.Mappings.{insert_row}

-- `none` is a file that cannot be read. A path that is not set names no file.
unfoldable pub read_live_file : Option Text → Text
unfolding contains
read_live_file none = []
read_live_file (some s) =
    if contains s (codes "Welcome to nginx") && ltb (byte_length s) 1200 then [] else s

pub record Scan : Type 0 where
  pub mappings : List Mapping
  pub issues : List ConversionIssue
  pub found : Bool

abbrev no_conversion : List Text → Conversion
no_conversion taken = record { out = []; issues = []; taken = taken }

unfoldable pub scan_nginx : Text → List Text → Conversion
unfolding parse_nginx_config nginx_sites_to_mappings
scan_nginx text taken =
    if is_empty text
    then no_conversion taken
    else nginx_sites_to_mappings (parse_nginx_config text) taken

unfoldable pub scan_haproxy : Text → List Text → Conversion
unfolding parse_haproxy_config haproxy_cfg_to_mappings
scan_haproxy text taken =
    if is_empty text
    then no_conversion taken
    else haproxy_cfg_to_mappings (parse_haproxy_config text) taken

-- An enabled mapping listens on the candidate's port.
unfoldable pub collides : List Mapping → Mapping → Bool
collides existing m =
    any (λ (e : Mapping). int_eq e.listen_port m.listen_port && e.enabled) existing

-- The names that nginx's candidates get are taken for HAProxy's.
unfoldable pub scan_existing_configs : Option Text → Option Text → List Mapping → Scan
unfolding read_live_file scan_nginx scan_haproxy
scan_existing_configs nginx haproxy existing =
    let ng = read_live_file nginx in
    let ha = read_live_file haproxy in
    let a = scan_nginx ng (map (λ (m : Mapping). m.name) existing) in
    let b = scan_haproxy ha a.taken in
    record {
      mappings =
          filter_map (λ (m : Mapping). if collides existing m then none else some m)
            (a.out ++ b.out);
      issues = a.issues ++ b.issues;
      found = not (is_empty ng) || not (is_empty ha);
    }

abbrev at : ℕ → List Mapping → Option Mapping
at n [] = none
at zero (m ∷ ms) = some m
at (suc n) (m ∷ ms) = at n ms

-- The candidate of an index, `none` outside of the list.
unfoldable pub candidate_at : ℤ → List Mapping → Option Mapping
candidate_at (pos n) ms = at n ms
candidate_at (negsuc n) ms = none

-- Which of the two readings of the mappings fail, that of scanExistingConfigs and that of the
-- handler. The error is dropped, and the list is empty.
pub record ListFaults : Type 0 where
  pub scan_fails : Bool
  pub confirm_fails : Bool

unfoldable pub list_mappings : Bool → List Mapping → List Mapping
list_mappings fails rows = if fails then [] else rows

-- The counts of a confirmed import and the errors of the refused candidates, with their names. `rows`
-- is the table, and `seen` the list that candidates are checked against.
pub record Confirmed : Type 0 where
  pub created : ℕ
  pub skipped : ℕ
  pub refused : List (Text × Error)
  pub rows : List Mapping
  pub seen : List Mapping

module _ (lib : Lib) (panel_port : ℤ) (fresh_id : List Mapping → ℤ)
    (insert_fails : Mapping → Bool) where
  unfoldable pub confirm_one : Mapping → Confirmed → Confirmed
  confirm_one m c = elim (validate_mapping lib m c.seen panel_port) [
    | some e ↦ record c { skipped = c.skipped + 1; refused = c.refused ++ (m.name, e) ∷ [] }
    | none ↦ if insert_fails m then record c { skipped = c.skipped + 1 } else record c {
      created = c.created + 1;
      rows = insert_row (fresh_id c.rows) m c.rows;
      seen = insert_row (fresh_id c.rows) m c.seen;
    }
  ]

  unfoldable pub confirm_loop : List Mapping → List ℤ → Confirmed → Confirmed
  unfolding confirm_one candidate_at
  confirm_loop candidates [] c = c
  confirm_loop candidates (i ∷ is) c =
      confirm_loop candidates is
        (elim (candidate_at i candidates) [ none ↦ c | some m ↦ confirm_one m c ])

  -- The body of handleImportConfirm after the request is read: the files are scanned anew.
  unfoldable pub import_confirm :
      ListFaults → Option Text → Option Text → List ℤ → List Mapping → Confirmed
  unfolding confirm_loop scan_existing_configs list_mappings
  import_confirm f nginx haproxy indices rows =
      confirm_loop (scan_existing_configs nginx haproxy (list_mappings f.scan_fails rows)).mappings
        indices
        (record {
          created = 0;
          skipped = 0;
          refused = [];
          rows = rows;
          seen = list_mappings f.confirm_fails rows;
        })
