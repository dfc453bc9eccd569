-- ===== src/Imports/Tests.antt =====
-- Runs of the parsers and of the import (internal/proxy/parser.go, internal/proxy/nginxparser.go,
-- internal/api/configimport.go) on concrete inputs.
use portguard_v.Base.{
  ◌≡◌, refl, sym, subst, is_some, arith, true, false, List, [], ◌∷◌, none, some, Text, codes, eqb,
  any, pos, map, strip_prefix, has_prefix, trim_prefix, trim_left, trim, trim_space, is_space,
  lower, to_lower, split, contains, In, inl,
}
use mathlib.Core.List.{filter_map, cons-ne-nil}
use portguard_v.Base.Decimal.{decimal, digits, read_digits, read_number, in_int64, parse_int}
use portguard_v.Base.Maps.{insert}
use portguard_v.Base.Words.{fields, first_token, join, count, cut, cut_last, atoi_value}
use portguard_v.Proxy.Model.{Mapping, Target}
use portguard_v.Proxy.Validate.{validate_mapping}
use portguard_v.Proxy.Validate.Routes.{Fresh}
use portguard_v.Api.Mappings.Invariant.{IsSound}
use portguard_v.Api.Mappings.Tests.{lib, fresh_id, fresh, positive}
use portguard_v.Imports.Fresh.{name_of}
use portguard_v.Imports.Names.{search_name, unique_mapping_name, unique_mapping_name-any}
use portguard_v.Imports.Conversion.{blank_mapping, add_mapping}
use portguard_v.Imports.Haproxy.Lines.{
  trim_brackets, arguments, bind_address, bind_options, parse_bind_line, server_address,
  server_options, parse_server_line, split_directive, server_line_target, backend_line,
}
use portguard_v.Imports.Haproxy.Model.{FrontendCfg}
use portguard_v.Imports.Haproxy.Directives.{defaults_line, frontend_line, backend_section_line}
use portguard_v.Imports.Haproxy.{
  section_header, open_section, section_line, is_comment, parse_line, parse_lines,
  parse_haproxy_config,
}
use portguard_v.Imports.Haproxy.Convert.{
  normalize_bind_ip, find_backend, target_backend, frontend_mapping, only_bind, convert_frontend,
  add_outcome, add_outcomes, haproxy_outcomes, haproxy_cfg_to_mappings,
}
use portguard_v.Imports.Haproxy.RoundTrip.{parse_server_line-backend_line}
use portguard_v.Imports.Haproxy.Headers.{
  backend_kind, header_name, header_names, parse_haproxy_config-names, names_of,
}
use portguard_v.Imports.Confirm.{
  read_live_file, scan_nginx, scan_haproxy, collides, scan_existing_configs, ListFaults,
  import_confirm,
}
use portguard_v.Imports.Scan.{scan_existing_configs-Fresh}
use portguard_v.Imports.Candidates.{http_candidate_refused}
use portguard_v.Imports.Preserve.{import_confirm-IsSound}

abbrev taken_names : List Text
taken_names = codes "site" ∷ codes "site-2" ∷ []

free_name : unique_mapping_name (codes "site") taken_names ≡ codes "site-3"
unfolding unique_mapping_name search_name eqb decimal digits
free_name = refl

unique_mapping_name-any_example :
    any (eqb (unique_mapping_name (codes "site") taken_names)) taken_names ≡ false
unique_mapping_name-any_example = unique_mapping_name-any (codes "site") taken_names

abbrev haproxy_text : Text
haproxy_text =
    codes
      "defaults\n mode http\nfrontend web\n bind *:80\n default_backend app\nbackend app\n server s0 10.0.0.1:8080 check weight 3\n"

sections_found : header_name (codes "backend") (codes "backend app") ≡ codes "app" ∷ []
unfolding header_name is_comment has_prefix strip_prefix trim_space trim trim_left is_space
    section_header first_token fields eqb
sections_found = refl

abbrev web : Mapping
web = record blank_mapping {
  name = codes "imported-web";
  enabled = true;
  engine = codes "haproxy";
  protocol = codes "http";
  listen_ip = codes "0.0.0.0";
  listen_port = pos 80;
  targets =
      record { host = codes "10.0.0.1"; port = pos 8080; weight = pos 3; backup = false } ∷ [];
  balance = codes "roundrobin";
  notes = codes "imported from haproxy.cfg: frontend web → backend app";
}

scan_web : (scan_existing_configs none (some haproxy_text) []).mappings ≡ web ∷ []
unfolding scan_existing_configs read_live_file contains scan_nginx scan_haproxy collides filter_map
    parse_haproxy_config parse_lines parse_line is_comment section_header open_section section_line
    split trim_space trim trim_left is_space eqb has_prefix strip_prefix trim_prefix first_token
    fields to_lower lower defaults_line split_directive insert join frontend_line
    backend_section_line parse_bind_line arguments bind_address bind_options cut_last atoi_value
    read_number read_digits parse_server_line server_address server_options count cut parse_int
    in_int64 trim_brackets haproxy_cfg_to_mappings haproxy_outcomes convert_frontend only_bind
    target_backend find_backend frontend_mapping normalize_bind_ip server_line_target add_outcomes
    add_outcome add_mapping unique_mapping_name
scan_web = refl

scan_existing_configs-Fresh_example :
    Fresh
      (map name_of (web ∷ []))
      (map name_of (scan_existing_configs none (some haproxy_text) (web ∷ [])).mappings)
scan_existing_configs-Fresh_example =
    scan_existing_configs-Fresh none (some haproxy_text) (web ∷ [])

http_candidate_refused_example : is_some (validate_mapping lib web [] (pos 8080)) ≡ true
unfolding eqb
http_candidate_refused_example =
    http_candidate_refused none (some haproxy_text) [] web
      (subst (In web) (sym scan_web) (inl refl)) refl refl lib [] (pos 8080)

abbrev listen_text : Text
listen_text = codes "listen db\n bind 10.0.0.1:5432\n server s0 10.0.0.1:5433\n"

abbrev scan_blind : ListFaults
scan_blind = record { scan_fails = true; confirm_fails = false }

import_confirm-IsSound_example :
    IsSound
      (import_confirm lib
        (pos 8080)
        fresh_id
        (λ m. false)
        scan_blind
        none
        (some listen_text)
        (pos 0 ∷ pos 0 ∷ pos 7 ∷ [])
        []).rows
import_confirm-IsSound_example =
    import_confirm-IsSound lib (pos 8080) fresh_id fresh positive (λ m. false) scan_blind none
      (some listen_text) (pos 0 ∷ pos 0 ∷ pos 7 ∷ []) [] refl (λ o k. absurd k) tt

abbrev upstream : Target
upstream = record { host = codes "10.0.0.1"; port = pos 8080; weight = pos 3; backup = true }

parse_server_line-backend_line_example :
    parse_server_line (backend_line (codes "s0") upstream true)
    ≡ some (record {
      name = codes "s0";
      address = codes "10.0.0.1";
      port = pos 8080;
      weight = pos 3;
      backup = true;
      check = true;
    })
unfolding is_space
parse_server_line-backend_line_example =
    parse_server_line-backend_line (codes "s0") upstream true refl (λ e. absurd (cons-ne-nil _ _ e))
      refl (8080, refl, omega arith) (3, refl, omega arith)

parse_haproxy_config-names_example :
    names_of backend_kind (parse_haproxy_config haproxy_text)
    ≡ header_names (codes "backend") (split b'\n' haproxy_text)
parse_haproxy_config-names_example = parse_haproxy_config-names backend_kind haproxy_text

-- An address of IPv6 with its port is taken for the host, at port 80.
ipv6_server :
    parse_server_line (codes "server s0 [::1]:8080")
    ≡ some (record {
      name = codes "s0";
      address = codes "::1]:8080";
      port = pos 80;
      weight = pos 0;
      backup = false;
      check = false;
    })
unfolding parse_server_line arguments trim_space trim trim_left is_space trim_prefix strip_prefix
    fields server_address server_options count trim_brackets eqb
ipv6_server = refl

-- The name of a default backend is read in lower case.
lowered_backend :
    map
      (λ (f : FrontendCfg). f.default_backend)
      (parse_haproxy_config (codes "frontend web\ndefault_backend App\n")).frontends
    ≡ codes "app" ∷ []
unfolding parse_haproxy_config parse_lines parse_line is_comment section_header open_section
    section_line split trim_space trim trim_left is_space eqb has_prefix strip_prefix trim_prefix
    first_token fields to_lower lower frontend_line
lowered_backend = refl
