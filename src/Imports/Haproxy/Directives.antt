-- ===== src/Imports/Haproxy/Directives.antt =====
-- What ParseHAProxyConfig of internal/proxy/parser.go does with a line of each section.
use portguard_v.Base.{
  not, ◌&&◌, List, [], ◌∷◌, ◌++◌, Option, none, some, Text, codes, eqb, is_empty, has_prefix,
  trim_prefix, to_lower, if◌then◌else◌,
}
use portguard_v.Base.Maps.{Map, insert}
use portguard_v.Base.Words.{fields, first_token}
use portguard_v.Imports.Haproxy.Lines.{
  parse_bind_line, parse_acl_line, parse_use_backend_line, parse_server_line, split_directive,
}
use portguard_v.Imports.Haproxy.Model.{GlobalCfg, DefaultsCfg, FrontendCfg, BackendCfg, ListenCfg}

unfoldable pub global_line : Text → Text → GlobalCfg → GlobalCfg
global_line raw line g =
    let (key, val) = split_directive line in
    let tok = first_token (trim_prefix val (codes "socket")) in
    let h = record g {
      raw_lines = g.raw_lines ++ raw ∷ [];
      directives = insert key val g.directives;
    } in
    if eqb key (codes "user")
    then record h { user = val }
    else if eqb key (codes "group")
    then record h { group = val }
    else if eqb key (codes "maxconn")
    then record h { maxconn = val }
    else if eqb key (codes "nbthread")
    then record h { nbthread = val }
    else if eqb key (codes "stats") && has_prefix val (codes "socket") && not (is_empty tok)
    then record h { stats_socket = tok }
    else h

abbrev timeout_line : Text → Map Text → Map Text
timeout_line val timeouts = elim (fields val) [
  | [] ↦ timeouts
  | key ∷ [] ↦ timeouts
  | key ∷ time ∷ rest ↦ insert key time timeouts
]

unfoldable pub defaults_line : Text → Text → DefaultsCfg → DefaultsCfg
defaults_line raw line d =
    let (key, val) = split_directive line in
    record {
      directives = insert key val d.directives;
      raw_lines = d.raw_lines ++ raw ∷ [];
      mode = if eqb key (codes "mode") then first_token val else d.mode;
      timeouts = if eqb key (codes "timeout") then timeout_line val d.timeouts else d.timeouts;
    }

abbrev pub added {ℓ} : {A : Type ℓ} → Option A → List A → List A
added none as_ = as_
added (some a) as_ = as_ ++ a ∷ []

-- The value of a directive that the lower case of the line starts with.
abbrev pub lower_value : Text → Text → Text
lower_value word low = first_token (trim_prefix low word)

unfoldable pub frontend_line : Text → Text → FrontendCfg → FrontendCfg
frontend_line raw line fe =
    let low = to_lower line in
    if has_prefix low (codes "bind")
    then record fe { binds = fe.binds ++ parse_bind_line line ∷ [] }
    else if has_prefix low (codes "mode")
    then record fe { mode = lower_value (codes "mode") low }
    else if has_prefix low (codes "default_backend")
    then record fe { default_backend = lower_value (codes "default_backend") low }
    else if has_prefix low (codes "acl")
    then record fe { acls = added (parse_acl_line line) fe.acls }
    else if has_prefix low (codes "use_backend")
    then record fe { rules = added (parse_use_backend_line line) fe.rules }
    else record fe { other = fe.other ++ raw ∷ [] }

unfoldable pub backend_section_line : Text → Text → BackendCfg → BackendCfg
backend_section_line raw line be =
    let low = to_lower line in
    if has_prefix low (codes "mode")
    then record be { mode = lower_value (codes "mode") low }
    else if has_prefix low (codes "balance")
    then record be { balance = lower_value (codes "balance") low }
    else if has_prefix low (codes "server")
    then elim (parse_server_line line) [
      | some s ↦ record be { servers = be.servers ++ s ∷ [] }
      | none ↦ record be { other = be.other ++ raw ∷ [] }
    ]
    else record be { other = be.other ++ raw ∷ [] }

unfoldable pub listen_line : Text → Text → ListenCfg → ListenCfg
listen_line raw line li =
    let low = to_lower line in
    if has_prefix low (codes "bind")
    then record li { binds = li.binds ++ parse_bind_line line ∷ [] }
    else if has_prefix low (codes "mode")
    then record li { mode = lower_value (codes "mode") low }
    else if has_prefix low (codes "server")
    then elim (parse_server_line line) [
      | some s ↦ record li { servers = li.servers ++ s ∷ [] }
      | none ↦ record li { other = li.other ++ raw ∷ [] }
    ]
    else record li { other = li.other ++ raw ∷ [] }
