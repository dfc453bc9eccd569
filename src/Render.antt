-- ===== src/Render.antt =====
-- Render of internal/proxy/haproxy.go: the text of haproxy.cfg.
pub mod Pieces
pub mod Rules
pub mod Bind
pub mod Tls
pub mod Tests
use portguard_v.Base.{
  ℕ, Bool, true, false, not, ◌&&◌, ◌||◌, List, [], ◌∷◌, ◌++◌, Option, none, some, Text, codes, eqb,
  is_empty, ℤ, pos, int_lt, if◌then◌else◌,
}
use portguard_v.Proxy.Model.{Mapping, Target}
use portguard_v.Imports.Haproxy.Lines.{int_text, backend_line}
use portguard_v.Render.Pieces.{cat, bind_ip, escape_ha, posix_join}
use portguard_v.Render.Rules.{
  no_path_routes, render_ha_access_rules, render_ha_backend, render_ha_route_rules,
  render_ha_route_rule_backends, render_ha_path_acl, render_ha_path_routes, render_ha_dyn_backend,
}

-- What the file starts with.
abbrev preamble : Text
preamble =
    codes
      "# Generated by PortGuard — do not edit manually.\nglobal\n    log /dev/log local0\n    log /dev/log local1 notice\n    maxconn 4096\n    user haproxy\n    group haproxy\n    stats socket /run/haproxy/admin.sock mode 660 level admin\n    ca-base /etc/ssl/certs\n    crt-base /etc/ssl/private\n\ndefaults\n    log     global\n    mode    http\n    option  httplog\n    option  dontlognull\n    timeout connect 5s\n    timeout client  30s\n    timeout server  30s\n    option  forwardfor\n    retries 2\n\n"

unfoldable pub insert_mapping : Mapping → List Mapping → List Mapping
insert_mapping m [] = m ∷ []
insert_mapping m (n ∷ ns) =
    let rest = insert_mapping m ns in if int_lt n.id m.id then n ∷ rest else m ∷ n ∷ ns

unfoldable pub sort_mappings : List Mapping → List Mapping
unfolding insert_mapping
sort_mappings [] = []
sort_mappings (m ∷ ms) = insert_mapping m (sort_mappings ms)

unfoldable pub is_rendered : Mapping → Bool
is_rendered m = m.enabled && eqb m.engine (codes "haproxy")

abbrev frontend_name : Mapping → Text
frontend_name m = codes "fe_pg" ++ int_text m.id

abbrev backend_name : Mapping → Text
backend_name m = codes "be_pg" ++ int_text m.id

abbrev pub bind_line : Mapping → Text
bind_line m = codes "bind " ++ bind_ip m.listen_ip ++ codes ":" ++ int_text m.listen_port

abbrev pub pem_path : Text → ℤ → Text
pem_path certs_dir cert = posix_join certs_dir (int_text cert ++ codes ".pem")

-- The bind as it is written, which goes on with the certificate for https. `none` is an error of
-- Render: https without a certificate.
unfoldable pub bind_directive : Text → Mapping → Option Text
bind_directive certs_dir m =
    if eqb m.protocol (codes "https")
    then elim m.ssl_cert_id [
      | none ↦ none
      | some cert ↦ some (
          bind_line m
          ++ (codes " ssl crt "
              ++ (escape_ha (pem_path certs_dir cert)
                  ++ (if m.http2 then codes " alpn h2,http/1.1" else []))))
    ]
    else some (bind_line m)

-- What follows the bind of an http or https frontend.
unfoldable pub render_http_rest : Mapping → Text
render_http_rest m =
    let fe = frontend_name m in
    let be = backend_name m in
    render_ha_access_rules m false
    ++ (if not (is_empty m.redirect_to)
        then cat (
            codes "    http-request redirect location "
            ∷ escape_ha m.redirect_to
            ∷ codes " code 301\n"
            ∷ [])
        else render_ha_route_rules fe be m
          ++ render_ha_path_routes fe be m
          ++ render_ha_path_acl fe be m
          ++ cat (codes "    default_backend " ∷ be ∷ codes "\n" ∷ []))
    ++ render_ha_route_rule_backends m
    ++ (if m.websocket then codes "    timeout tunnel 3600s\n" else [])
    ++ render_ha_backend be m false

-- `none` is an error of Render.
unfoldable pub render_mapping : Text → Mapping → Option Text
unfolding render_http_rest bind_directive
render_mapping certs_dir m =
    let fe = frontend_name m in
    let be = backend_name m in
    elim (bind_directive certs_dir m) [
      | none ↦ none
      | some bind ↦
          if eqb m.protocol (codes "http") || eqb m.protocol (codes "https")
          then some (
              cat (codes "frontend " ∷ fe ∷ codes "\n    " ∷ bind ∷ codes "\n" ∷ [])
              ++ render_http_rest m)
          else if eqb m.protocol (codes "tcp")
          then some (
              cat (
                codes "frontend "
                ∷ fe
                ∷ codes "\n    mode tcp\n    option tcplog\n    "
                ∷ bind
                ∷ codes "\n"
                ∷ [])
              ++ render_ha_access_rules m true
              ++ cat (codes "    default_backend " ∷ be ∷ codes "\n" ∷ [])
              ++ render_ha_backend be m true)
          else if eqb m.protocol (codes "udp")
          then none
          else some []
    ]

unfoldable pub render_mappings : Text → List Mapping → Option Text
unfolding render_mapping is_rendered
render_mappings certs_dir [] = some []
render_mappings certs_dir (m ∷ ms) =
    let rest = render_mappings certs_dir ms in
    if not (is_rendered m) then rest else elim (render_mapping certs_dir m) [
      | none ↦ none
      | some text ↦ elim rest [ none ↦ none | some after ↦ some (text ++ after) ]
    ]

abbrev has_dyn_backend : Mapping → Bool
has_dyn_backend m =
    not (no_path_routes m.path_routes)
    && is_empty m.redirect_to
    && (eqb m.protocol (codes "http") || eqb m.protocol (codes "https"))

unfoldable pub append_dyn_backends : List Mapping → Text
unfolding is_rendered
append_dyn_backends [] = []
append_dyn_backends (m ∷ ms) =
    let rest = append_dyn_backends ms in
    if is_rendered m && has_dyn_backend m
    then render_ha_dyn_backend (backend_name m) m ++ rest
    else rest

unfoldable pub render_haproxy : Text → List Mapping → Option Text
unfolding sort_mappings render_mappings append_dyn_backends
render_haproxy certs_dir mappings = elim (render_mappings certs_dir (sort_mappings mappings)) [
  | none ↦ none
  | some text ↦ some (
      preamble
      ++ text
      ++ append_dyn_backends (sort_mappings mappings)
      ++ codes "\n# --- end of PortGuard mappings ---\n")
]
