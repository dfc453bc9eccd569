-- ===== src/Imports/Conversion.antt =====
-- What the two conversions of internal/proxy/parser.go and internal/proxy/nginxparser.go share: the
-- mappings and issues that they return, and the map of taken names, as the list of its keys.
use portguard_v.Base.{false, List, [], ◌∷◌, ◌++◌, none, Text, pos}
use portguard_v.Proxy.Model.{Mapping}
use portguard_v.Imports.Names.{unique_mapping_name}

pub record ConversionIssue : Type 0 where
  pub section : Text
  pub reason : Text

-- The zero value of a mapping.
abbrev pub blank_mapping : Mapping
blank_mapping = record {
  id = pos 0;
  name = [];
  enabled = false;
  engine = [];
  protocol = [];
  listen_ip = [];
  listen_port = pos 0;
  server_names = [];
  ssl_cert_id = none;
  redirect_to = [];
  websocket = false;
  http2 = false;
  targets = [];
  balance = [];
  path_prefix = [];
  access_rules = [];
  extra_headers = [];
  path_routes = [];
  host_header = [];
  decoy = [];
  decoy_html = [];
  routes = [];
  service_id = none;
  notes = [];
}

-- What a conversion has so far: the mappings, the issues and the taken names.
pub record Conversion : Type 0 where
  pub out : List Mapping
  pub issues : List ConversionIssue
  pub taken : List Text

unfoldable pub add_issue : ConversionIssue → Conversion → Conversion
add_issue i c = record c { issues = c.issues ++ i ∷ [] }

-- A mapping gets a name that is not taken, which is taken then.
unfoldable pub add_mapping : Text → Mapping → Conversion → Conversion
unfolding unique_mapping_name
add_mapping base m c =
    let name = unique_mapping_name base c.taken in
    record c { out = c.out ++ record m { name = name } ∷ []; taken = name ∷ c.taken }
