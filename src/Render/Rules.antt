-- ===== src/Render/Rules.antt =====
-- The renderers of access rules, routes and backends in internal/proxy/haproxy.go.
use portguard_v.Base.{
  ℕ, suc, Bool, true, false, not, ◌&&◌, ◌||◌, List, [], ◌∷◌, ◌++◌, none, some, map, any, Text,
  codes, eqb, is_empty, byte_length, ltb, ℤ, int_eq, if◌then◌else◌,
}
use mathlib.Core.List.{filter_map}
use portguard_v.Base.Decimal.{decimal}
use portguard_v.Base.Words.{join}
use portguard_v.Proxy.Model.{Mapping, Target, AclRule, PathRoute, RouteRule}
use portguard_v.Service.Apply.{trim_newlines}
use portguard_v.Imports.Haproxy.Lines.{int_text, backend_line}
use portguard_v.Render.Pieces.{cat, escape_ha, quote_meta, port_pattern, rule_number}

abbrev pub no_path_routes : List PathRoute → Bool
no_path_routes [] = true
no_path_routes (r ∷ rs) = false

abbrev no_targets : List Target → Bool
no_targets [] = true
no_targets (t ∷ ts) = false

abbrev access_lines : Text → Text → List AclRule → Text
access_lines allow deny [] = []
access_lines allow deny (r ∷ rs) =
    cat (
      codes "    "
      ∷ (if eqb r.action (codes "allow") then allow else deny)
      ∷ codes " if { src "
      ∷ escape_ha r.value
      ∷ codes " }\n"
      ∷ [])
    ++ access_lines allow deny rs

unfoldable pub render_ha_access_rules : Mapping → Bool → Text
render_ha_access_rules m tcp_mode =
    let allow =
      if tcp_mode then codes "tcp-request connection accept" else codes "http-request allow" in
    let deny =
      if tcp_mode then codes "tcp-request connection reject" else codes "http-request deny" in
    access_lines allow deny m.access_rules
    ++ (if any (λ (r : AclRule). eqb r.action (codes "allow")) m.access_rules
        then cat (codes "    " ∷ deny ∷ codes "\n" ∷ [])
        else [])

-- The server lines, named by their place.
abbrev server_lines : ℕ → List Target → Text
server_lines i [] = []
server_lines i (t ∷ ts) =
    backend_line (codes "s" ++ decimal i) t true ++ codes "\n" ++ server_lines (suc i) ts

-- The fields of a mapping that a backend is rendered from.
unfoldable pub backend_text : Text → Bool → Text → Text → List Target → Bool → Text
backend_text be tcp_mode balance host_header targets websocket =
    let algo = if is_empty balance then codes "roundrobin" else balance in
    (if tcp_mode
      then cat
          (codes "backend " ∷ be ∷ codes "\n    mode tcp\n    balance " ∷ algo ∷ codes "\n" ∷ [])
      else cat (codes "backend " ∷ be ∷ codes "\n    balance " ∷ algo ∷ codes "\n" ∷ [])
        ++ (if is_empty host_header
            then []
            else cat (
                codes "    http-request set-header Host "
                ∷ escape_ha host_header
                ∷ codes "\n"
                ∷ [])))
    ++ server_lines 0 targets
    ++ (if websocket then codes "    timeout tunnel 3600s\n" else [])
    ++ codes "\n"

unfoldable pub render_ha_backend : Text → Mapping → Bool → Text
unfolding backend_text
render_ha_backend be m tcp_mode =
    backend_text be tcp_mode m.balance m.host_header m.targets m.websocket

unfoldable pub rule_has_redirect : List RouteRule → ℤ → Bool
rule_has_redirect rs id = any (λ (r : RouteRule). int_eq r.id id && not (is_empty r.redirect)) rs

-- The redirect of the first rule with the identifier.
unfoldable pub rule_redirect : List RouteRule → ℤ → Text
rule_redirect [] id = []
rule_redirect (r ∷ rs) id = if int_eq r.id id then r.redirect else rule_redirect rs id

-- A rule goes to the left of those whose path is shorter.
unfoldable pub insert_rule : RouteRule → List RouteRule → List RouteRule
insert_rule r [] = r ∷ []
insert_rule r (s ∷ ss) =
    let rest = insert_rule r ss in
    if ltb (byte_length s.path) (byte_length r.path) then r ∷ s ∷ ss else s ∷ rest

unfoldable pub longest_first : List RouteRule → List RouteRule → List RouteRule
unfolding insert_rule
longest_first [] sorted = sorted
longest_first (r ∷ rs) sorted = longest_first rs (insert_rule r sorted)

abbrev rule_lines : Text → Text → List RouteRule → List RouteRule → Text
rule_lines fe be all_rules [] = []
rule_lines fe be all_rules (r ∷ rs) =
    let number = int_text (rule_number r.id) in
    let acl = cat (fe ∷ codes "_r" ∷ number ∷ []) in
    cat (codes "    acl " ∷ acl ∷ codes " path_beg " ∷ escape_ha r.path ∷ codes "\n" ∷ [])
    ++ (if rule_has_redirect all_rules r.id
        then cat (
            codes "    http-request redirect location "
            ∷ escape_ha (rule_redirect all_rules r.id)
            ∷ codes " code 301 if "
            ∷ acl
            ∷ codes "\n"
            ∷ [])
        else cat (
            codes "    use_backend "
            ∷ be
            ∷ codes "_r"
            ∷ number
            ∷ codes " if "
            ∷ acl
            ∷ codes "\n"
            ∷ []))
    ++ rule_lines fe be all_rules rs

unfoldable pub render_ha_route_rules : Text → Text → Mapping → Text
unfolding longest_first rule_has_redirect rule_redirect
render_ha_route_rules fe be m =
    rule_lines fe be m.routes (
      longest_first (filter_map (λ (r : RouteRule). if r.enabled then some r else none) m.routes)
        [])

abbrev route_backends : Mapping → List RouteRule → Text
route_backends m [] = []
route_backends m (r ∷ rs) =
    let rest = route_backends m rs in
    let be = cat (codes "be_pg" ∷ int_text m.id ∷ codes "_r" ∷ int_text (rule_number r.id) ∷ []) in
    if not r.enabled || no_targets r.targets
    then rest
    else trim_newlines (backend_text be false m.balance m.host_header r.targets m.websocket)
      ++ codes "\n\n"
      ++ rest

unfoldable pub render_ha_route_rule_backends : Mapping → Text
unfolding backend_text trim_newlines
render_ha_route_rule_backends m = route_backends m m.routes

unfoldable pub render_ha_path_acl : Text → Text → Mapping → Text
render_ha_path_acl fe be m =
    if is_empty m.path_prefix
    then []
    else cat (
        codes "    acl "
        ∷ fe
        ∷ codes "_path path_beg "
        ∷ escape_ha m.path_prefix
        ∷ codes "\n    use_backend "
        ∷ be
        ∷ codes " if "
        ∷ fe
        ∷ codes "_path\n    http-request deny deny_status 404 if !"
        ∷ fe
        ∷ codes "_path\n"
        ∷ [])

abbrev path_pattern : PathRoute → Text
path_pattern r = cat (
    codes "^/"
    ∷ quote_meta r.prefix
    ∷ codes "/"
    ∷ port_pattern r.min_port r.max_port
    ∷ codes "(/.*)?$"
    ∷ [])

abbrev route_acl : Text → PathRoute → Text
route_acl fe r = fe ++ codes "_" ++ r.prefix

abbrev acl_lines : Text → List PathRoute → Text
acl_lines fe [] = []
acl_lines fe (r ∷ rs) =
    cat (codes "    acl " ∷ route_acl fe r ∷ codes " path_reg " ∷ path_pattern r ∷ codes "\n" ∷ [])
    ++ acl_lines fe rs

abbrev upgrades : PathRoute → Bool
upgrades r = eqb r.transport (codes "ws") || eqb r.transport (codes "httpupgrade")

abbrev upgrade_lines : Text → List PathRoute → Text
upgrade_lines fe [] = []
upgrade_lines fe (r ∷ rs) =
    let rest = upgrade_lines fe rs in
    if upgrades r
    then cat (
        codes "    http-request deny deny_status 404 if "
        ∷ route_acl fe r
        ∷ codes " !"
        ∷ fe
        ∷ codes "_up\n"
        ∷ [])
      ++ rest
    else rest

unfoldable pub render_ha_path_routes : Text → Text → Mapping → Text
unfolding quote_meta port_pattern
render_ha_path_routes fe be m =
    let acls = map (route_acl fe) m.path_routes in
    if no_path_routes m.path_routes
    then []
    else acl_lines fe m.path_routes
      ++ (if any upgrades m.path_routes
          then cat (codes "    acl " ∷ fe ∷ codes "_up req.hdr(Upgrade) -m found\n" ∷ [])
            ++ upgrade_lines fe m.path_routes
          else [])
      ++ cat (
          codes "    use_backend "
          ∷ be
          ∷ codes "_dyn if "
          ∷ join (codes " || ") acls
          ∷ codes "\n"
          ∷ [])
      ++ (if no_targets m.targets
          then cat (
              codes "    http-request deny deny_status 404 if "
              ∷ join (codes " ") (map (λ a. codes "!" ++ a) acls)
              ∷ codes "\n"
              ∷ [])
          else [])

abbrev first_host : List Target → Text
first_host [] = codes "127.0.0.1"
first_host (t ∷ ts) = if is_empty t.host then codes "127.0.0.1" else t.host

abbrev dyn_lines : List PathRoute → Text
dyn_lines [] = []
dyn_lines (r ∷ rs) =
    cat (
      codes "    http-request set-var(txn.pgport) path,regsub(^/"
      ∷ quote_meta r.prefix
      ∷ codes "/([0-9]+)(/.*)?$,\\1) if { path_reg "
      ∷ path_pattern r
      ∷ codes " }\n"
      ∷ [])
    ++ dyn_lines rs

unfoldable pub render_ha_dyn_backend : Text → Mapping → Text
unfolding quote_meta port_pattern
render_ha_dyn_backend be m =
    cat (codes "backend " ∷ be ∷ codes "_dyn\n    mode http\n    timeout tunnel 3600s\n" ∷ [])
    ++ dyn_lines m.path_routes
    ++ codes "    http-request set-dst-port var(txn.pgport)\n"
    ++ cat (codes "    server dynamic " ∷ first_host m.targets ∷ codes ":1\n\n" ∷ [])
