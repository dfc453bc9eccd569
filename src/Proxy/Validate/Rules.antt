-- ===== src/Proxy/Validate/Rules.antt =====
-- validatePathRoutes and validateRouteRules (internal/proxy/engine.go), and the errors of
-- ValidateMapping. An index is that of the element reported.
use portguard_v.Base.{
  ℕ, ◌+◌, Bool, true, false, not, ◌&&◌, ◌||◌, List, [], ◌∷◌, none, any, Text, codes, eqb, contains,
  trim_prefix, has_prefix, is_empty, ℤ, pos, int_eq, int_lt, Check, ◌>>◌, fail_if, for_each,
  if◌then◌else◌,
}
use portguard_v.Proxy.Model.{Target, PathRoute, RouteRule, Mapping, valid_path_transport}
use portguard_v.Proxy.Validate.Names.{Lib, has_control_chars, valid_path_prefix_token}

pub data Error : Type 0 where
  name_required name_control server_names_control host_header_control redirect_control : Error
  extra_headers_control path_route_control bad_engine bad_protocol bad_listen_port : Error
  bad_listen_ip udp_on_haproxy https_needs_cert no_target bad_redirect : Error
  target_host_required target_port target_host_invalid : Error
  server_name_required server_name_empty : Error
  path_prefix_protocol path_prefix_chars bad_balance acl_action acl_value : Error
  bad_decoy decoy_html_required decoy_protocol decoy_engine decoy_redirect panel_port : Error
  listen_conflict : ℤ → Error
  path_routes_protocol path_routes_redirect : Error
  path_route_transport path_route_duplicate_transport path_route_prefix : ℕ → Error
  path_route_duplicate_prefix path_route_range path_route_collision : ℕ → Error
  route_rules_protocol route_rules_redirect : Error
  route_rule_wildcard route_rule_slash route_rule_control route_rule_duplicate : ℕ → Error
  route_rule_empty route_rule_target route_rule_target_control : ℕ → Error

abbrev pub is_http : Mapping → Bool
is_http m = eqb m.protocol (codes "http") || eqb m.protocol (codes "https")

abbrev pub seen : Text → List Text → Bool
seen t ts = any (eqb t) ts

abbrev pub bad_port : ℤ → Bool
bad_port p = int_lt p (pos 1) || int_lt (pos 65535) p

-- The loop body: `transports` and `prefixes` are the two maps of what was seen.
unfoldable pub path_route : Mapping → ℕ → List Text → List Text → PathRoute → Check Error
unfolding trim_prefix
path_route m i transports prefixes pr =
    fail_if (not (valid_path_transport pr.transport)) (path_route_transport i)
    >> fail_if (seen pr.transport transports) (path_route_duplicate_transport i)
    >> fail_if (not (valid_path_prefix_token pr.prefix)) (path_route_prefix i)
    >> fail_if (seen pr.prefix prefixes) (path_route_duplicate_prefix i)
    >> fail_if
        (not (int_eq pr.min_port (pos 0) && int_eq pr.max_port (pos 0))
          && (int_lt pr.min_port (pos 1)
              || int_lt (pos 65535) pr.max_port
              || int_lt pr.max_port pr.min_port))
        (path_route_range i)
    >> fail_if (eqb pr.prefix (trim_prefix m.path_prefix (codes "/"))) (path_route_collision i)

unfoldable pub path_route_loop : Mapping → ℕ → List Text → List Text → List PathRoute → Check Error
unfolding path_route
path_route_loop m i transports prefixes [] = none
path_route_loop m i transports prefixes (pr ∷ prs) =
    path_route m i transports prefixes pr
    >> path_route_loop m (i + 1) (pr.transport ∷ transports) (pr.prefix ∷ prefixes) prs

-- validatePathRoutes behind its range over the routes.
unfoldable pub check_path_routes : Mapping → List PathRoute → Check Error
check_path_routes m [] = none
check_path_routes m (pr ∷ prs) =
    fail_if (not (is_http m)) path_routes_protocol
    >> fail_if (not (is_empty m.redirect_to)) path_routes_redirect
    >> path_route_loop m 1 [] [] (pr ∷ prs)

unfoldable pub validate_path_routes : Mapping → Check Error
unfolding check_path_routes path_route_loop
validate_path_routes m = check_path_routes m m.path_routes

unfoldable pub route_target : Lib → ℕ → Target → Check Error
route_target lib i t =
    fail_if (bad_port t.port || is_empty t.host) (route_rule_target i)
    >> fail_if (has_control_chars lib t.host) (route_rule_target_control i)

abbrev pub no_targets : List Target → Bool
no_targets [] = true
no_targets (t ∷ ts) = false

unfoldable pub route_rule : Lib → ℕ → List Text → RouteRule → Check Error
unfolding route_target
route_rule lib i paths r =
    fail_if (not (has_prefix r.path (codes "/"))) (route_rule_slash i)
    >> fail_if (has_control_chars lib r.path) (route_rule_control i)
    >> fail_if (seen r.path paths) (route_rule_duplicate i)
    >> fail_if (is_empty r.redirect && no_targets r.targets) (route_rule_empty i)
    >> for_each (route_target lib i) r.targets

unfoldable pub route_rule_loop : Lib → ℕ → List Text → List RouteRule → Check Error
unfolding route_rule
route_rule_loop lib i paths [] = none
route_rule_loop lib i paths (r ∷ rs) =
    route_rule lib i paths r >> route_rule_loop lib (i + 1) (r.path ∷ paths) rs

unfoldable pub wildcard_loop : ℕ → List RouteRule → Check Error
wildcard_loop i [] = none
wildcard_loop i (r ∷ rs) =
    fail_if (contains r.path (codes "*")) (route_rule_wildcard i) >> wildcard_loop (i + 1) rs

unfoldable pub check_route_rules : Lib → Mapping → List RouteRule → Check Error
check_route_rules lib m [] = none
check_route_rules lib m (r ∷ rs) =
    fail_if (not (is_http m)) route_rules_protocol
    >> fail_if (not (is_empty m.redirect_to)) route_rules_redirect
    >> (if not (eqb m.engine (codes "nginx")) then wildcard_loop 1 (r ∷ rs) else none)
    >> route_rule_loop lib 1 [] (r ∷ rs)

unfoldable pub validate_route_rules : Lib → Mapping → Check Error
unfolding check_route_rules route_rule_loop wildcard_loop
validate_route_rules lib m = check_route_rules lib m m.routes
