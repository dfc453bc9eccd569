-- ===== src/Imports/Scan.antt =====
-- What a scan of the live configuration gives (internal/proxy/parser.go,
-- internal/proxy/nginxparser.go, internal/api/configimport.go).
use portguard_v.Base.{
  suc, ◌+◌, ◌&&◌, List, [], ◌∷◌, ◌++◌, Option, map, Text, is_empty, ◌≡◌, refl, ap, inl, inr, arith,
  length, length-append, Bool-cases, Option-cases,
}
use mathlib.Core.List.{map-append}
use portguard_v.Base.Maps.{Map}
use portguard_v.Imports.Names.{unique_mapping_name}
use portguard_v.Proxy.Model.{Mapping}
use portguard_v.Proxy.Validate.Routes.{Fresh}
use portguard_v.Imports.Conversion.{Conversion, add_issue, add_mapping}
use portguard_v.Imports.Fresh.{
  AreNew, name_of, add_issue-AreNew, add_mapping-AreNew, start-AreNew, append-Fresh,
  filter_map-Fresh,
}
use portguard_v.Imports.Haproxy.Model.{HaproxyCfg}
use portguard_v.Imports.Haproxy.Convert.{
  Outcome, convert_frontend, convert_listen, issue, candidate_mapping, add_outcome, add_outcomes,
  haproxy_outcomes, haproxy_cfg_to_mappings,
}
use portguard_v.Imports.Haproxy.{parse_haproxy_config}
use portguard_v.Imports.Nginx.{parse_nginx_config}
use portguard_v.Imports.Nginx.Model.{NginxServer, NginxSites}
use portguard_v.Imports.Nginx.Convert.{
  convert_http, convert_stream, report_http, report_stream, none_of, stream_targets, first_location,
  each, nginx_sites_to_mappings, stream_mapping, http_mapping,
}
use portguard_v.Imports.Confirm.{
  scan_nginx, scan_haproxy, scan_existing_configs, collides, read_live_file,
}

add_outcomes-AreNew :
    (old : List Text) (os : List Outcome) (c : Conversion)
    → AreNew old c
    → AreNew old (add_outcomes os c)
unfolding add_outcomes add_outcome
add_outcomes-AreNew old [] c a = a
add_outcomes-AreNew old (issue i ∷ os) c a =
    add_outcomes-AreNew old os (add_issue i c) (add_issue-AreNew old i c a)
add_outcomes-AreNew old (candidate_mapping base m ∷ os) c a =
    add_outcomes-AreNew old os (add_mapping base m c) (add_mapping-AreNew old base m c a)

each-AreNew :
    (old : List Text) (f : NginxServer → Conversion → Conversion)
    → ((s : NginxServer) (c : Conversion) → AreNew old c → AreNew old (f s c))
    → (ss : List NginxServer) (c : Conversion) → AreNew old c
    → AreNew old (each f ss c)
each-AreNew old f h [] c a = a
each-AreNew old f h (s ∷ ss) c a = each-AreNew old f h ss (f s c) (h s c a)

report_http-AreNew :
    (old : List Text) (upstreams : Map (List Text)) (s : NginxServer) (c : Conversion)
    → AreNew old c
    → AreNew old (report_http upstreams s c)
unfolding report_http
report_http-AreNew old upstreams s c a = elim (Bool-cases (is_empty s.return_to)) [
  | inr t ↦ rw t a
  | inl t ↦ elim (Option-cases (first_location upstreams s.locations)) [
    | inl n ↦ rw (t, n) (add_issue-AreNew old _ c a)
    | inr (l, n) ↦ rw (t, n) a
  ]
]

convert_http-AreNew :
    (old : List Text) (upstreams : Map (List Text)) (s : NginxServer) (c : Conversion)
    → AreNew old c
    → AreNew old (convert_http upstreams s c)
unfolding convert_http
convert_http-AreNew old upstreams s c a =
    elim (Bool-cases (s.is_default && none_of s.server_names && none_of s.locations)) [
      | inl e ↦ rw e (add_issue-AreNew old _ c a)
      | inr e ↦ rw e (
          add_mapping-AreNew old _ (http_mapping upstreams s) (report_http upstreams s c)
            (report_http-AreNew old upstreams s c a))
    ]

report_stream-AreNew :
    (old : List Text) (upstreams : Map (List Text)) (s : NginxServer) (c : Conversion)
    → AreNew old c
    → AreNew old (report_stream upstreams s c)
unfolding report_stream
report_stream-AreNew old upstreams s c a =
    elim (Bool-cases (none_of (stream_targets upstreams s.locations))) [
      | inl e ↦ rw e (add_issue-AreNew old _ c a)
      | inr e ↦ rw e a
    ]

convert_stream-AreNew :
    (old : List Text) (upstreams : Map (List Text)) (s : NginxServer) (c : Conversion)
    → AreNew old c
    → AreNew old (convert_stream upstreams s c)
unfolding convert_stream
convert_stream-AreNew old upstreams s c a =
    add_mapping-AreNew old _ (stream_mapping upstreams s) (report_stream upstreams s c)
      (report_stream-AreNew old upstreams s c a)

nginx_sites_to_mappings-AreNew :
    (sites : NginxSites) (taken : List Text) → AreNew taken (nginx_sites_to_mappings sites taken)
unfolding nginx_sites_to_mappings
nginx_sites_to_mappings-AreNew sites taken =
    each-AreNew taken (convert_stream sites.upstreams) (convert_stream-AreNew taken sites.upstreams)
      sites.stream_servers _
      (each-AreNew taken (convert_http sites.upstreams) (convert_http-AreNew taken sites.upstreams)
        sites.http_servers _ (start-AreNew taken))

scan_nginx-AreNew : (text : Text) (taken : List Text) → AreNew taken (scan_nginx text taken)
unfolding scan_nginx
scan_nginx-AreNew text taken =
    let start = start-AreNew taken in
    let full = nginx_sites_to_mappings-AreNew (parse_nginx_config text) taken in ground arith

scan_haproxy-AreNew : (text : Text) (taken : List Text) → AreNew taken (scan_haproxy text taken)
unfolding scan_haproxy haproxy_cfg_to_mappings
scan_haproxy-AreNew text taken =
    let start = start-AreNew taken in
    let os = haproxy_outcomes (parse_haproxy_config text) in
    let full =
      add_outcomes-AreNew taken os (record { out = []; issues = []; taken = taken }) start in
    ground arith

-- The candidates of a scan have names that differ from each other and from those of the existing
-- mappings, whatever the files hold.
pub scan_existing_configs-Fresh :
    (nginx haproxy : Option Text) (existing : List Mapping)
    → Fresh
        (map name_of existing)
        (map name_of (scan_existing_configs nginx haproxy existing).mappings)
unfolding scan_existing_configs
scan_existing_configs-Fresh nginx haproxy existing =
    let old = map name_of existing in
    let a = scan_nginx (read_live_file nginx) old in
    let b = scan_haproxy (read_live_file haproxy) a.taken in
    let x = scan_nginx-AreNew (read_live_file nginx) old in
    let y = scan_haproxy-AreNew (read_live_file haproxy) a.taken in
    filter_map-Fresh old (collides existing) (a.out ++ b.out) (
      rw (map-append name_of a.out b.out) (
        append-Fresh old a.taken (map name_of a.out) (map name_of b.out) x.fresh x.kept x.noted
          y.fresh))

add_outcomes-length :
    (os : List Outcome) (c : Conversion)
    → length (add_outcomes os c).out + length (add_outcomes os c).issues
      ≡ length os + (length c.out + length c.issues)
unfolding add_outcomes add_outcome add_issue add_mapping
add_outcomes-length [] c = omega arith
add_outcomes-length (issue i ∷ os) c =
    omega (arith, add_outcomes-length os (add_issue i c), length-append c.issues (i ∷ []))
add_outcomes-length (candidate_mapping base m ∷ os) c =
    let n : Mapping = record m { name = unique_mapping_name base c.taken } in
    omega (arith, add_outcomes-length os (add_mapping base m c), length-append c.out (n ∷ []))

length-map : {A B : Type 0} (f : A → B) (as_ : List A) → length (map f as_) ≡ length as_
length-map f [] = refl
length-map f (a ∷ as_) = ap suc (length-map f as_)

-- Every frontend and every listen section gives one mapping or one issue.
haproxy_cfg_to_mappings-length :
    (cfg : HaproxyCfg) (taken : List Text)
    → let c = haproxy_cfg_to_mappings cfg taken in
      length c.out + length c.issues ≡ length cfg.frontends + length cfg.listens
unfolding haproxy_cfg_to_mappings haproxy_outcomes
haproxy_cfg_to_mappings-length cfg taken =
    let start : Conversion = record { out = []; issues = []; taken = taken } in
    omega (
      arith,
      add_outcomes-length (haproxy_outcomes cfg) start,
      length-append (map (convert_frontend cfg) cfg.frontends) (map convert_listen cfg.listens),
      length-map (convert_frontend cfg) cfg.frontends,
      length-map convert_listen cfg.listens,
    )
