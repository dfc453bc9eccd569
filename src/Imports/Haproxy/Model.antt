-- ===== src/Imports/Haproxy/Model.antt =====
-- HAProxyCfg and its parts of internal/proxy/parser.go, and the state of ParseHAProxyConfig's pass.
use portguard_v.Base.{List, Text}
use portguard_v.Base.Maps.{Map}
use portguard_v.Imports.Haproxy.Lines.{BindCfg, AclLine, RuleLine, ServerLine}

pub record GlobalCfg : Type 0 where
  pub directives : Map Text
  pub raw_lines : List Text
  pub maxconn : Text
  pub stats_socket : Text
  pub user : Text
  pub group : Text
  pub nbthread : Text

pub record DefaultsCfg : Type 0 where
  pub directives : Map Text
  pub raw_lines : List Text
  pub mode : Text
  pub timeouts : Map Text

pub record FrontendCfg : Type 0 where
  pub name : Text
  pub binds : List BindCfg
  pub mode : Text
  pub default_backend : Text
  pub acls : List AclLine
  pub rules : List RuleLine
  pub other : List Text

pub record BackendCfg : Type 0 where
  pub name : Text
  pub mode : Text
  pub balance : Text
  pub servers : List ServerLine
  pub other : List Text

pub record ListenCfg : Type 0 where
  pub name : Text
  pub mode : Text
  pub binds : List BindCfg
  pub servers : List ServerLine
  pub other : List Text

pub record HaproxyCfg : Type 0 where
  pub global : GlobalCfg
  pub defaults : DefaultsCfg
  pub frontends : List FrontendCfg
  pub backends : List BackendCfg
  pub listens : List ListenCfg
  pub raw : List Text

-- The section that the pass is in, with the key of one that is not modelled.
pub data Section : Type 0 where
  sec_none sec_global sec_defaults sec_frontend sec_backend sec_listen : Section
  sec_unknown : Text → Section

pub record Pass : Type 0 where
  pub cfg : HaproxyCfg
  pub cur : Section
  pub unknown_lines : Map (List Text)
