-- ===== src/Imports/Nginx.antt =====
-- ParseNginxConfig of internal/proxy/nginxparser.go: one pass over the lines, in which a closing
-- brace closes the innermost block that the pass knows of.
pub mod Model
pub mod Directives
pub mod Convert
use portguard_v.Base.{
  ℕ, zero, suc, ◌-◌, Bool, true, false, not, ◌&&◌, ◌||◌, List, [], ◌∷◌, ◌++◌, Option, none, some,
  map, any, Text, codes, eqb, is_empty, contains, has_prefix, has_suffix, trim_prefix, trim_suffix,
  trim_space, split, ltb, ℤ, pos, int_lt, if◌then◌else◌, ◌==◌, is_some,
}
use portguard_v.Base.Decimal.{parse_int}
use portguard_v.Base.Maps.{Map, lookup, insert}
use portguard_v.Base.Words.{fields, join, cut_last}
use portguard_v.Imports.Nginx.Model.{
  NginxLocation, NginxServer, NginxSites, NginxPass, contains_tok, is_portguard_managed, word_at,
  words_from, has_words, names_of,
}
use portguard_v.Imports.Nginx.Directives.{
  upstream_line, closing_brace, plain_directive, location_of, blank_server,
}

-- A line outside of every upstream.
unfoldable pub block_line : Text → Text → List Text → NginxPass → NginxPass
unfolding location_of closing_brace plain_directive
block_line line directive fs p =
    let opens_block = has_suffix line (codes "{") in
    if eqb directive (codes "stream {")
    then record p { in_stream = true; stream_depth = 0 }
    else if p.in_stream && eqb directive (codes "}") && p.stream_depth == 0
    then record p { in_stream = false }
    else if not (is_some p.cur_server) && eqb (word_at 0 fs) (codes "server") && opens_block
    then record p {
      cur_server = some blank_server;
      stream_depth = if p.in_stream then suc p.stream_depth else p.stream_depth;
    }
    else if is_some p.cur_server
        && not p.in_location
        && eqb (word_at 0 fs) (codes "location")
        && opens_block
    then record p {
      cur_server = elim p.cur_server [
        | none ↦ none
        | some s ↦ some (record s { locations = s.locations ++ location_of (words_from 1 fs) ∷ [] })
      ];
      in_location = true;
    }
    else if eqb directive (codes "}")
    then closing_brace p
    else plain_directive fs p

unfoldable pub nginx_line : Text → NginxPass → NginxPass
unfolding upstream_line block_line
nginx_line raw p =
    let line = trim_space raw in
    let directive = trim_space (trim_suffix line (codes ";")) in
    let fs = fields directive in
    if is_empty line || has_prefix line (codes "#") || not (has_words 1 fs)
    then p
    else if is_empty p.in_upstream
        && has_words 2 fs
        && eqb (word_at 0 fs) (codes "upstream")
        && has_suffix line (codes "{")
    then record p { in_upstream = word_at 1 fs; upstream_depth = 1 }
    else if not (is_empty p.in_upstream)
    then upstream_line line fs p
    else block_line line directive fs p

unfoldable pub nginx_lines : List Text → NginxPass → NginxPass
unfolding nginx_line
nginx_lines [] p = p
nginx_lines (raw ∷ raws) p = nginx_lines raws (nginx_line raw p)

abbrev pub new_pass : NginxPass
new_pass = record {
  sites = record { http_servers = []; stream_servers = []; skipped = []; upstreams = [] };
  in_upstream = [];
  in_stream = false;
  cur_server = none;
  in_location = false;
  upstream_depth = 0;
  stream_depth = 0;
}

unfoldable pub parse_nginx_config : Text → NginxSites
unfolding nginx_lines split
parse_nginx_config text = (nginx_lines (split b'\n' text) new_pass).sites
