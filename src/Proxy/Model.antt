-- ===== src/Proxy/Model.antt =====
-- The records of internal/store/models.go that the proxy code works on. Identifiers and ports are
-- Go's signed integers. The timestamps are left out: no modelled code reads them.
use portguard_v.Base.{Bool, ◌||◌, List, Option, Text, codes, eqb, ℤ}

pub record Target : Type 0 where
  pub host : Text
  pub port : ℤ
  pub weight : ℤ
  pub backup : Bool

pub record PathRoute : Type 0 where
  pub transport : Text
  pub prefix : Text
  pub min_port : ℤ
  pub max_port : ℤ

pub record AclRule : Type 0 where
  pub action : Text
  pub value : Text

pub record RouteRule : Type 0 where
  pub id : ℤ
  pub path : Text
  pub enabled : Bool
  pub targets : List Target
  pub redirect : Text
  pub notes : Text

pub record Mapping : Type 0 where
  pub id : ℤ
  pub name : Text
  pub enabled : Bool
  pub engine : Text
  pub protocol : Text
  pub listen_ip : Text
  pub listen_port : ℤ
  pub server_names : List Text
  pub ssl_cert_id : Option ℤ
  pub redirect_to : Text
  pub websocket : Bool
  pub http2 : Bool
  pub targets : List Target
  pub balance : Text
  pub path_prefix : Text
  pub access_rules : List AclRule
  pub extra_headers : List (Text × Text)
  pub path_routes : List PathRoute
  pub host_header : Text
  pub decoy : Text
  pub decoy_html : Text
  pub routes : List RouteRule
  pub service_id : Option ℤ
  pub notes : Text

unfoldable pub valid_path_transport : Text → Bool
valid_path_transport t = eqb t (codes "ws") || eqb t (codes "httpupgrade") || eqb t (codes "xhttp")
