-- ===== src/Imports/Nginx/Directives.antt =====
-- What ParseNginxConfig of internal/proxy/nginxparser.go does with a line in a block, and at its end.
use portguard_v.Base.{
  ◌-◌, Bool, false, not, ◌&&◌, ◌||◌, List, [], ◌∷◌, ◌++◌, Option, none, some, Text, codes, eqb,
  has_prefix, trim_prefix, trim_suffix, trim_space, ℤ, pos, int_lt, if◌then◌else◌, ◌==◌,
}
use portguard_v.Base.Decimal.{parse_int}
use portguard_v.Base.Maps.{insert}
use portguard_v.Base.Words.{join, cut_last}
use portguard_v.Imports.Nginx.Model.{
  NginxLocation, NginxServer, NginxPass, contains_tok, is_portguard_managed, word_at, words_from,
  has_words, names_of,
}

-- A line within an upstream.
unfoldable pub upstream_line : Text → List Text → NginxPass → NginxPass
upstream_line line fs p =
    let u = p.sites.upstreams in
    let depth = p.upstream_depth - 1 in
    let s = p.sites in
    if eqb line (codes "}")
    then record p { upstream_depth = depth; in_upstream = if depth == 0 then [] else p.in_upstream }
    else if has_words 2 fs && eqb (word_at 0 fs) (codes "server")
    then record p {
      sites = record s {
        upstreams = insert p.in_upstream (names_of p.in_upstream u ++ word_at 1 fs ∷ []) u;
      };
    }
    else p

-- The path of a location's words after the first.
unfoldable pub location_of : List Text → NginxLocation
location_of words =
    let path = trim_space (trim_suffix (trim_space (join (codes " ") words)) (codes "{")) in
    record {
      path = trim_prefix (trim_prefix path (codes "~*")) (codes "~");
      proxy_pass = [];
      return_code = [];
      is_regex = has_prefix path (codes "~");
    }

abbrev pub blank_server : NginxServer
blank_server = record {
  listen_port = pos 0;
  listen_ssl = false;
  server_names = [];
  locations = [];
  return_to = [];
  is_default = false;
}

-- The end of a server: a listener that the panel did not write is kept.
unfoldable pub close_server : NginxServer → NginxPass → NginxPass
unfolding is_portguard_managed
close_server s p =
    let t = p.sites in
    let keep = int_lt (pos 0) s.listen_port && not (is_portguard_managed s) in
    record p {
      cur_server = none;
      stream_depth = if p.in_stream then p.stream_depth - 1 else p.stream_depth;
      sites =
          if not keep
          then t
          else if p.in_stream
          then record t { stream_servers = t.stream_servers ++ s ∷ [] }
          else record t { http_servers = t.http_servers ++ s ∷ [] };
    }

unfoldable pub closing_brace : NginxPass → NginxPass
closing_brace p =
    if p.in_location
    then record p { in_location = false }
    else elim p.cur_server [ none ↦ p | some s ↦ close_server s p ]

unfoldable pub location_directive : List Text → NginxLocation → NginxLocation
location_directive fs l =
    if eqb (word_at 0 fs) (codes "proxy_pass") && has_words 2 fs
    then record l { proxy_pass = word_at 1 fs }
    else if eqb (word_at 0 fs) (codes "return")
        && has_words 2 fs
        && eqb (word_at 1 fs) (codes "404")
    then record l { return_code = codes "404" }
    else l

abbrev or_80 : Option ℤ → ℤ
or_80 none = pos 80
or_80 (some p) = p

-- The port of a listen address. What is no number leaves it at 80.
unfoldable pub listen_port_of : Text → ℤ
unfolding cut_last parse_int
listen_port_of addr = elim (cut_last b':' addr) [
  | some (ip, port) ↦ or_80 (parse_int port)
  | none ↦ or_80 (parse_int addr)
]

abbrev named : List Text → List Text
named [] = []
named (n ∷ ns) = let rest = named ns in if eqb n (codes "_") then rest else n ∷ rest

unfoldable pub server_directive : Bool → List Text → NginxServer → NginxServer
unfolding listen_port_of
server_directive in_stream fs s =
    let word = word_at 0 fs in
    if eqb word (codes "listen") && has_words 2 fs
    then record s {
      listen_port = listen_port_of (word_at 1 fs);
      listen_ssl = s.listen_ssl || contains_tok fs (codes "ssl");
      is_default = s.is_default || contains_tok fs (codes "default_server");
    }
    else if eqb word (codes "server_name")
    then record s { server_names = s.server_names ++ named (words_from 1 fs) }
    else if eqb word (codes "return") && has_words 3 fs && eqb (word_at 1 fs) (codes "301")
    then record s { return_to = join (codes " ") (words_from 2 fs) }
    else if eqb word (codes "proxy_pass") && has_words 2 fs && in_stream
    then record s {
      return_to = [];
      locations =
          s.locations
          ++ record {
            path = codes "/";
            proxy_pass = word_at 1 fs;
            return_code = [];
            is_regex = false;
          }
            ∷ [];
    }
    else s

abbrev update_last : (NginxLocation → NginxLocation) → List NginxLocation → List NginxLocation
update_last f [] = []
update_last f (a ∷ ls) =
    let rest = update_last f ls in elim ls [ [] ↦ f a ∷ [] | b ∷ bs ↦ a ∷ rest ]

-- A directive that neither opens nor closes a block.
unfoldable pub plain_directive : List Text → NginxPass → NginxPass
unfolding location_directive server_directive
plain_directive fs p = elim p.cur_server [
  | none ↦ p
  | some s ↦
      if p.in_location
      then record p {
        cur_server =
            some (record s { locations = update_last (location_directive fs) s.locations });
      }
      else record p { cur_server = some (server_directive p.in_stream fs s) }
]
