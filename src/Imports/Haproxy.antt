-- ===== src/Imports/Haproxy.antt =====
-- ParseHAProxyConfig of internal/proxy/parser.go: one pass over the lines with the section it is in.
pub mod Model
pub mod Lines
pub mod Directives
pub mod Convert
pub mod Address
pub mod RoundTrip
pub mod Headers
use portguard_v.Base.{
  Bool, true, false, not, ◌&&◌, ◌||◌, List, [], ◌∷◌, ◌++◌, Option, none, some, map, Text, codes,
  eqb, is_empty, has_prefix, trim_prefix, strip_prefix, trim_space, to_lower, split, if◌then◌else◌,
}
use portguard_v.Base.Maps.{Map, lookup, insert}
use portguard_v.Base.Words.{fields, first_token, join}
use portguard_v.Imports.Haproxy.Lines.{
  BindCfg, AclLine, RuleLine, ServerLine, parse_bind_line, parse_acl_line, parse_use_backend_line,
  parse_server_line, split_directive,
}
use portguard_v.Imports.Haproxy.Model.{
  GlobalCfg, DefaultsCfg, FrontendCfg, BackendCfg, ListenCfg, HaproxyCfg, Section, Pass, sec_none,
  sec_global, sec_defaults, sec_frontend, sec_backend, sec_listen, sec_unknown,
}
use portguard_v.Imports.Haproxy.Directives.{
  global_line, defaults_line, frontend_line, backend_section_line, listen_line,
}

-- haSectionRe: the first of the words that the line starts with, and the rest. No blank need follow.
abbrev section_words : List Text
section_words =
    codes "global"
    ∷ codes "defaults"
    ∷ codes "frontend"
    ∷ codes "backend"
    ∷ codes "listen"
    ∷ codes "userlist"
    ∷ codes "peers"
    ∷ codes "mailers"
    ∷ codes "cache"
    ∷ []

abbrev first_match : List Text → Text → Option (Text × Text)
first_match [] line = none
first_match (w ∷ ws) line =
    let rest = first_match ws line in
    elim (strip_prefix w line) [ none ↦ rest | some name ↦ some (w, name) ]

unfoldable pub section_header : Text → Option (Text × Text)
unfolding strip_prefix
section_header = first_match section_words

-- The element that a pointer to the last one changes.
abbrev pub update_last {ℓ} : {A : Type ℓ} → (A → A) → List A → List A
update_last f [] = []
update_last f (a ∷ as_) =
    let rest = update_last f as_ in elim as_ [ [] ↦ f a ∷ [] | b ∷ bs ↦ a ∷ rest ]

abbrev new_frontend : Text → FrontendCfg
new_frontend name = record {
  name = name;
  binds = [];
  mode = codes "http";
  default_backend = [];
  acls = [];
  rules = [];
  other = [];
}

abbrev new_backend : Text → BackendCfg
new_backend name = record {
  name = name;
  mode = codes "http";
  balance = codes "roundrobin";
  servers = [];
  other = [];
}

abbrev new_listen : Text → ListenCfg
new_listen name = record { name = name; mode = codes "tcp"; binds = []; servers = []; other = [] }

-- A section's header.
unfoldable pub open_section : Text → Text → Pass → Pass
open_section sec rest p =
    let name = trim_space rest in
    let c = p.cfg in
    if eqb sec (codes "global")
    then record p { cur = sec_global }
    else if eqb sec (codes "defaults")
    then record p { cur = sec_defaults }
    else if eqb sec (codes "frontend")
    then record p {
      cfg = record c { frontends = c.frontends ++ new_frontend (first_token name) ∷ [] };
      cur = sec_frontend;
    }
    else if eqb sec (codes "backend")
    then record p {
      cfg = record c { backends = c.backends ++ new_backend (first_token name) ∷ [] };
      cur = sec_backend;
    }
    else if eqb sec (codes "listen")
    then record p {
      cfg = record c { listens = c.listens ++ new_listen (first_token name) ∷ [] };
      cur = sec_listen;
    }
    else record p { cur = sec_unknown (sec ++ codes " " ++ name) }

abbrev lines_of : Text → Map (List Text) → List Text
lines_of key m = elim (lookup key m) [ none ↦ [] | some ls ↦ ls ]

-- A line that is no header, in the section the pass is in.
unfoldable pub section_line : Text → Text → Pass → Pass
section_line raw line p =
    let c = p.cfg in
    elim p.cur [
      | sec_none ↦ record p { cfg = record c { raw = c.raw ++ raw ∷ [] } }
      | sec_global ↦ record p { cfg = record c { global = global_line raw line c.global } }
      | sec_defaults ↦ record p { cfg = record c { defaults = defaults_line raw line c.defaults } }
      | sec_frontend ↦ record p {
        cfg = record c { frontends = update_last (frontend_line raw line) c.frontends };
      }
      | sec_backend ↦ record p {
        cfg = record c { backends = update_last (backend_section_line raw line) c.backends };
      }
      | sec_listen ↦ record p {
        cfg = record c { listens = update_last (listen_line raw line) c.listens };
      }
      | sec_unknown key ↦ record p {
        unknown_lines = insert key (lines_of key p.unknown_lines ++ raw ∷ []) p.unknown_lines;
      }
    ]

unfoldable pub is_comment : Text → Bool
is_comment line = is_empty line || has_prefix line (codes "#")

unfoldable pub parse_line : Text → Pass → Pass
parse_line raw p =
    let line = trim_space raw in
    if is_comment line then p else elim (section_header line) [
      | some (sec, rest) ↦ open_section sec rest p
      | none ↦ section_line raw line p
    ]

unfoldable pub parse_lines : List Text → Pass → Pass
parse_lines [] p = p
parse_lines (raw ∷ raws) p = parse_lines raws (parse_line raw p)

abbrev pub empty_pass : Pass
empty_pass = record {
  cfg = record {
    global = record {
      directives = [];
      raw_lines = [];
      maxconn = [];
      stats_socket = [];
      user = [];
      group = [];
      nbthread = [];
    };
    defaults = record { directives = []; raw_lines = []; mode = []; timeouts = [] };
    frontends = [];
    backends = [];
    listens = [];
    raw = [];
  };
  cur = sec_none;
  unknown_lines = [];
}

abbrev attach_unknown : Map (List Text) → List Text → List Text
attach_unknown [] raw = raw
attach_unknown ((k, lines) ∷ m) raw = attach_unknown m (raw ++ (k ∷ lines))

unfoldable pub parse_haproxy_config : Text → HaproxyCfg
unfolding split parse_lines
parse_haproxy_config text =
    let p = parse_lines (split b'\n' text) empty_pass in
    let c = p.cfg in record c { raw = attach_unknown p.unknown_lines c.raw }
