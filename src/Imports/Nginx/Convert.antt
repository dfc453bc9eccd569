-- ===== src/Imports/Nginx/Convert.antt =====
-- NginxSitesToMappings, resolveProxyPass and parseHostPort of internal/proxy/nginxparser.go.
use portguard_v.Base.{
  Bool, true, false, not, ◌&&◌, ◌||◌, List, [], ◌∷◌, ◌++◌, Option, none, some, Text, codes, eqb,
  is_empty, trim_prefix, trim_suffix, pos, if◌then◌else◌,
}
use mathlib.Core.List.{filter_map}
use portguard_v.Base.Decimal.{parse_int}
use portguard_v.Base.Maps.{Map, lookup}
use portguard_v.Base.Words.{cut, cut_last, join}
use portguard_v.Proxy.Model.{Mapping, Target}
use portguard_v.Imports.Conversion.{
  Conversion, ConversionIssue, add_issue, add_mapping, blank_mapping,
}
use portguard_v.Imports.Haproxy.Lines.{trim_brackets, int_text}
use portguard_v.Imports.Nginx.Model.{NginxLocation, NginxServer, NginxSites}

unfoldable pub parse_host_port : Text → Option Target
unfolding cut_last
parse_host_port s = elim (cut_last b':' (trim_suffix s (codes ";"))) [
  | none ↦ none
  | some (host, port) ↦ if is_empty host || is_empty port then none else elim (parse_int port) [
    | none ↦ none
    | some p ↦ some (record { host = trim_brackets host; port = p; weight = pos 0; backup = false })
  ]
]

abbrev before_slash : Text → Text
before_slash s = elim (cut b'/' s) [ none ↦ s | some (a, b) ↦ a ]

-- The text between the scheme and the first slash, looked up among the upstreams.
unfoldable pub resolve_proxy_pass : Text → Map (List Text) → List Target
unfolding parse_host_port
resolve_proxy_pass pass upstreams =
    let name = before_slash (trim_prefix (trim_prefix pass (codes "http://")) (codes "https://")) in
    elim (lookup name upstreams) [
      | some hosts ↦ filter_map parse_host_port hosts
      | none ↦ elim (parse_host_port name) [ none ↦ [] | some t ↦ t ∷ [] ]
    ]

abbrev pub none_of {ℓ} : {A : Type ℓ} → List A → Bool
none_of [] = true
none_of (a ∷ as_) = false

-- The first location with targets, and its targets.
unfoldable pub first_location :
    Map (List Text) → List NginxLocation → Option (NginxLocation × List Target)
unfolding resolve_proxy_pass
first_location upstreams [] = none
first_location upstreams (l ∷ ls) =
    let rest = first_location upstreams ls in
    let targets = resolve_proxy_pass l.proxy_pass upstreams in
    if is_empty l.proxy_pass || none_of targets then rest else some (l, targets)

abbrev located : Option (NginxLocation × List Target) → Mapping → Mapping
located none m = m
located (some (l, targets)) m = record m {
  targets = targets;
  path_prefix = if not (eqb l.path (codes "/")) && not l.is_regex then l.path else [];
}

unfoldable pub http_mapping : Map (List Text) → NginxServer → Mapping
unfolding first_location
http_mapping upstreams s = located (first_location upstreams s.locations) (record blank_mapping {
  engine = codes "nginx";
  protocol = if s.listen_ssl then codes "https" else codes "http";
  listen_ip = codes "0.0.0.0";
  listen_port = s.listen_port;
  server_names = s.server_names;
  redirect_to = s.return_to;
  notes = codes "imported from the existing nginx config";
})

abbrev http_issue : NginxServer → ConversionIssue
http_issue s = record {
  section =
      codes "http :"
      ++ int_text s.listen_port
      ++ codes " ("
      ++ join (codes ",") s.server_names
      ++ codes ")";
  reason = codes "no simple proxy_pass/redirect found — review manually";
}

-- Neither a redirect nor a target is reported.
unfoldable pub report_http : Map (List Text) → NginxServer → Conversion → Conversion
unfolding add_issue first_location
report_http upstreams s c =
    if is_empty s.return_to
    then elim (first_location upstreams s.locations) [
      | none ↦ add_issue (http_issue s) c
      | some l ↦ c
    ]
    else c

-- One http server: an empty catch-all is skipped; one that is reported is converted all the same.
unfoldable pub convert_http : Map (List Text) → NginxServer → Conversion → Conversion
unfolding add_issue add_mapping http_mapping report_http
convert_http upstreams s c =
    if s.is_default && none_of s.server_names && none_of s.locations
    then add_issue
        (record {
          section = codes "http default server";
          reason = codes "empty catch-all — skipped";
        })
        c
    else add_mapping (codes "imported-nginx-" ++ int_text s.listen_port) (http_mapping upstreams s)
        (report_http upstreams s c)

abbrev pub stream_targets : Map (List Text) → List NginxLocation → List Target
stream_targets upstreams [] = []
stream_targets upstreams (l ∷ ls) = resolve_proxy_pass l.proxy_pass upstreams

unfoldable pub stream_mapping : Map (List Text) → NginxServer → Mapping
unfolding resolve_proxy_pass
stream_mapping upstreams s = record blank_mapping {
  engine = codes "nginx";
  protocol = codes "tcp";
  listen_ip = codes "0.0.0.0";
  listen_port = s.listen_port;
  targets = stream_targets upstreams s.locations;
  notes = codes "imported from the existing nginx stream config";
}

unfoldable pub report_stream : Map (List Text) → NginxServer → Conversion → Conversion
unfolding add_issue resolve_proxy_pass
report_stream upstreams s c =
    if none_of (stream_targets upstreams s.locations)
    then add_issue
        (record {
          section = codes "stream :" ++ int_text s.listen_port;
          reason = codes "stream target not parsed — fill it in";
        })
        c
    else c

unfoldable pub convert_stream : Map (List Text) → NginxServer → Conversion → Conversion
unfolding add_mapping stream_mapping report_stream
convert_stream upstreams s c =
    add_mapping (codes "imported-stream-" ++ int_text s.listen_port) (stream_mapping upstreams s)
      (report_stream upstreams s c)

-- One conversion after the other.
abbrev pub each :
    (NginxServer → Conversion → Conversion) → List NginxServer → Conversion → Conversion
each f [] c = c
each f (s ∷ ss) c = each f ss (f s c)

unfoldable pub nginx_sites_to_mappings : NginxSites → List Text → Conversion
unfolding convert_http convert_stream
nginx_sites_to_mappings sites taken = each (convert_stream sites.upstreams) sites.stream_servers (
    each (convert_http sites.upstreams) sites.http_servers
      (record { out = []; issues = []; taken = taken }))
