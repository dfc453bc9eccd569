-- ===== src/Proxy/Validate.antt =====
-- ValidateMapping (internal/proxy/engine.go), clause by clause in the order of the source, cut into
-- consecutive parts. A nil error is `none`. The headers of a mapping are a list of pairs: their
-- order in Go's map is of no account, since every refusal there is one error.
pub mod Names
pub mod Rules
pub mod Accepted
pub mod Conflicts
pub mod Routes
use portguard_v.Base.{
  ℕ, Bool, true, false, not, ◌&&◌, ◌||◌, List, [], ◌∷◌, Option, none, some, Text, codes, eqb,
  trim_space, contains, any_of, has_prefix, is_empty, ℤ, pos, int_eq, int_lt, Check, ◌>>◌, fail_if,
  for_each, if◌then◌else◌, is_some, ◌==◌,
}
use portguard_v.Proxy.Model.{Target, AclRule, PathRoute, Mapping}
use Names.{Lib, has_control_chars, valid_hostname, valid_engine, valid_protocol, valid_balance}
use Rules.{
  Error, name_required, name_control, server_names_control, host_header_control, redirect_control,
  extra_headers_control, path_route_control, bad_engine, bad_protocol, bad_listen_port,
  bad_listen_ip, udp_on_haproxy, https_needs_cert, no_target, bad_redirect, target_host_required,
  target_port, target_host_invalid, server_name_required, server_name_empty, path_prefix_protocol,
  path_prefix_chars, bad_balance, acl_action, acl_value, bad_decoy, decoy_html_required,
  decoy_protocol, decoy_engine, decoy_redirect, panel_port, listen_conflict, is_http, bad_port,
  no_targets, validate_path_routes, validate_route_rules,
}

abbrev no_routes : List PathRoute → Bool
no_routes [] = true
no_routes (r ∷ rs) = false

abbrev pub no_texts : List Text → Bool
no_texts [] = true
no_texts (t ∷ ts) = false

-- `norm` in listenIPsOverlap.
unfoldable pub norm : Text → Text
norm ip = if is_empty ip || eqb ip (codes "*") then codes "0.0.0.0" else ip

abbrev pub is_wild : Text → Bool
is_wild ip = eqb ip (codes "0.0.0.0") || eqb ip (codes "::")

unfoldable pub listen_ips_overlap : Text → Text → Bool
listen_ips_overlap a b =
    if eqb (norm a) (norm b) then true else is_wild (norm a) || is_wild (norm b)

-- One round of the conflict loop: `continue` is `none`.
unfoldable pub conflict_with : Mapping → Mapping → Check Error
conflict_with m other =
    if int_eq other.id m.id || not other.enabled || not m.enabled
    then none
    else fail_if
        (int_eq other.listen_port m.listen_port && listen_ips_overlap other.listen_ip m.listen_ip)
        (listen_conflict other.id)

module _ (lib : Lib) where
  -- From the name to the control characters of the path routes.
  unfoldable pub validate_texts : Mapping → Check Error
  validate_texts m =
      fail_if (is_empty (trim_space m.name)) name_required
      >> fail_if (has_control_chars lib m.name) name_control
      >> for_each (λ h. fail_if (has_control_chars lib h) server_names_control) m.server_names
      >> fail_if (has_control_chars lib m.host_header) host_header_control
      >> fail_if (has_control_chars lib m.redirect_to) redirect_control
      >> for_each
          (λ kv.
            fail_if (has_control_chars lib kv.0 || has_control_chars lib kv.1)
              extra_headers_control)
          m.extra_headers
      >> for_each (λ (pr : PathRoute). fail_if (has_control_chars lib pr.prefix) path_route_control)
          m.path_routes

  -- From the engine to the redirect's URL.
  unfoldable pub validate_listener : Mapping → Check Error
  validate_listener m =
      fail_if (not (valid_engine m.engine)) bad_engine
      >> fail_if (not (valid_protocol m.protocol)) bad_protocol
      >> fail_if (bad_port m.listen_port) bad_listen_port
      >> fail_if (not (lib.parse_ip m.listen_ip)) bad_listen_ip
      >> fail_if (eqb m.protocol (codes "udp") && eqb m.engine (codes "haproxy")) udp_on_haproxy
      >> fail_if (eqb m.protocol (codes "https") && not (is_some m.ssl_cert_id)) https_needs_cert
      >> fail_if (is_empty m.redirect_to && no_targets m.targets && no_routes m.path_routes)
          no_target
      >> fail_if (not (is_empty m.redirect_to) && not (contains m.redirect_to (codes "://")))
          bad_redirect

  unfoldable pub validate_target : Target → Check Error
  validate_target t =
      fail_if (is_empty t.host) target_host_required
      >> fail_if (bad_port t.port) target_port
      >> fail_if (not (lib.parse_ip t.host) && not (valid_hostname t.host)) target_host_invalid

  unfoldable pub validate_rule : AclRule → Check Error
  validate_rule r =
      fail_if (not (eqb r.action (codes "allow")) && not (eqb r.action (codes "deny"))) acl_action
      >> fail_if (not (lib.parse_cidr r.value) && not (lib.parse_ip r.value)) acl_value

  -- From the targets to the decoy.
  unfoldable pub validate_http : Mapping → Check Error
  validate_http m =
      (if is_http m
        then fail_if (no_texts m.server_names && is_empty m.redirect_to) server_name_required
          >> for_each (λ sn. fail_if (is_empty (trim_space sn)) server_name_empty) m.server_names
        else none)
      >> (if not (is_empty m.path_prefix)
          then fail_if (not (is_http m)) path_prefix_protocol
            >> fail_if
                (not (has_prefix m.path_prefix (codes "/"))
                  || any_of (λ c. c == b' ' || c == b'\t' || c == b'{' || c == b'}' || c == b';')
                      m.path_prefix)
                path_prefix_chars
          else none)
      >> fail_if (not (valid_balance m.engine m.protocol m.balance)) bad_balance

  unfoldable pub validate_decoy : Mapping → Check Error
  validate_decoy m =
      fail_if
        (not (is_empty m.decoy)
          && not (eqb m.decoy (codes "builtin"))
          && not (eqb m.decoy (codes "custom")))
        bad_decoy
      >> fail_if (eqb m.decoy (codes "custom") && is_empty (trim_space m.decoy_html))
          decoy_html_required
      >> (if not (is_empty m.decoy)
          then fail_if (not (is_http m)) decoy_protocol
            >> fail_if (not (eqb m.engine (codes "nginx"))) decoy_engine
            >> fail_if (not (is_empty m.redirect_to)) decoy_redirect
          else none)

  unfoldable pub validate_mapping : Mapping → List Mapping → ℤ → Check Error
  validate_mapping m others panel =
      validate_texts m
      >> validate_listener m
      >> for_each validate_target m.targets
      >> validate_http m
      >> for_each validate_rule m.access_rules
      >> validate_path_routes m
      >> validate_route_rules lib m
      >> validate_decoy m
      >> fail_if (int_eq m.listen_port panel) panel_port
      >> for_each (conflict_with m) others
