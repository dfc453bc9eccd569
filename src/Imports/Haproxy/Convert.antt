-- ===== src/Imports/Haproxy/Convert.antt =====
-- HAProxyCfgToMappings of internal/proxy/parser.go.
use portguard_v.Base.{
  Bool, true, false, ◌&&◌, ◌||◌, List, [], ◌∷◌, ◌++◌, Option, none, some, map, Text, codes, eqb,
  is_empty, length, ◌==◌, if◌then◌else◌,
}
use portguard_v.Proxy.Model.{Mapping}
use portguard_v.Imports.Conversion.{
  Conversion, ConversionIssue, add_issue, add_mapping, blank_mapping,
}
use portguard_v.Imports.Haproxy.Lines.{BindCfg, RuleLine, server_line_target}
use portguard_v.Imports.Haproxy.Model.{FrontendCfg, BackendCfg, ListenCfg, HaproxyCfg}

-- What one section gives: a mapping without its name and the name to start from, or an issue.
pub data Outcome : Type 0 where
  candidate_mapping : Text → Mapping → Outcome
  issue : ConversionIssue → Outcome

unfoldable pub normalize_bind_ip : Text → Text
normalize_bind_ip ip = if eqb ip (codes "*") || is_empty ip then codes "0.0.0.0" else ip

unfoldable pub find_backend : Text → List BackendCfg → Option BackendCfg
find_backend name [] = none
find_backend name (b ∷ bs) = if eqb b.name name then some b else find_backend name bs

abbrev first_backend : List RuleLine → Text
first_backend [] = []
first_backend (r ∷ rs) = r.backend

-- The target's name: the default backend, else that of the first rule.
unfoldable pub target_backend : FrontendCfg → Text
target_backend fe =
    if is_empty fe.default_backend then first_backend fe.rules else fe.default_backend

abbrev pub no_rules : List RuleLine → Bool
no_rules [] = true
no_rules (r ∷ rs) = false

abbrev frontend_protocol : Bool → Text → Text
frontend_protocol ssl mode =
    if ssl then codes "https" else if eqb mode (codes "tcp") then codes "tcp" else codes "http"

abbrev frontend_issue : FrontendCfg → Text → Outcome
frontend_issue fe reason =
    issue (record { section = codes "frontend " ++ fe.name; reason = reason })

unfoldable pub frontend_mapping : FrontendCfg → BindCfg → BackendCfg → Mapping
frontend_mapping fe b be = record blank_mapping {
  enabled = true;
  engine = codes "haproxy";
  protocol = frontend_protocol b.ssl fe.mode;
  listen_ip = normalize_bind_ip b.ip;
  listen_port = b.port;
  targets = map server_line_target be.servers;
  balance = be.balance;
  notes =
      codes "imported from haproxy.cfg: frontend "
      ++ fe.name
      ++ codes " → backend "
      ++ target_backend fe;
}

-- The bind of a section that has exactly one.
unfoldable pub only_bind : List BindCfg → Option BindCfg
only_bind [] = none
only_bind (b ∷ []) = some b
only_bind (b ∷ c ∷ cs) = none

-- One bind exactly, a backend to go to, and the backend with its servers.
unfoldable pub convert_frontend : HaproxyCfg → FrontendCfg → Outcome
convert_frontend cfg fe = elim (only_bind fe.binds) [
  | none ↦ frontend_issue fe (codes "needs exactly one bind to map to a PortGuard listener")
  | some b ↦
      if is_empty fe.default_backend && no_rules fe.rules
      then frontend_issue fe (codes "no default_backend/use_backend — cannot determine target")
      else elim (find_backend (target_backend fe) cfg.backends) [
        | none ↦
            frontend_issue fe
              (codes "backend " ++ target_backend fe ++ codes " not found or has no servers")
        | some be ↦
            if length be.servers == 0
            then frontend_issue fe
                (codes "backend " ++ target_backend fe ++ codes " not found or has no servers")
            else candidate_mapping (codes "imported-" ++ fe.name) (frontend_mapping fe b be)
      ]
]

abbrev listen_issue : ListenCfg → Text → Outcome
listen_issue li reason = issue (record { section = codes "listen " ++ li.name; reason = reason })

unfoldable pub listen_mapping : ListenCfg → BindCfg → Mapping
listen_mapping li b = record blank_mapping {
  enabled = true;
  engine = codes "haproxy";
  protocol = codes "tcp";
  listen_ip = normalize_bind_ip b.ip;
  listen_port = b.port;
  targets = map server_line_target li.servers;
  notes = codes "imported from haproxy.cfg: listen " ++ li.name;
}

unfoldable pub convert_listen : ListenCfg → Outcome
convert_listen li = elim (only_bind li.binds) [
  | none ↦ listen_issue li (codes "needs exactly one bind")
  | some b ↦
      if length li.servers == 0
      then listen_issue li (codes "no servers")
      else candidate_mapping (codes "imported-" ++ li.name) (listen_mapping li b)
]

unfoldable pub add_outcome : Outcome → Conversion → Conversion
unfolding add_mapping add_issue
add_outcome (issue i) c = add_issue i c
add_outcome (candidate_mapping base m) c = add_mapping base m c

unfoldable pub add_outcomes : List Outcome → Conversion → Conversion
add_outcomes [] c = c
add_outcomes (o ∷ os) c = add_outcomes os (add_outcome o c)

unfoldable pub haproxy_outcomes : HaproxyCfg → List Outcome
haproxy_outcomes cfg = map (convert_frontend cfg) cfg.frontends ++ map convert_listen cfg.listens

-- `taken` is the map as the caller gives it, and it is the caller's map that grows.
unfoldable pub haproxy_cfg_to_mappings : HaproxyCfg → List Text → Conversion
unfolding add_outcomes haproxy_outcomes
haproxy_cfg_to_mappings cfg taken =
    add_outcomes (haproxy_outcomes cfg) (record { out = []; issues = []; taken = taken })
