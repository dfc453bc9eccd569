-- ===== src/Imports/Nginx/Model.antt =====
-- The records of internal/proxy/nginxparser.go and the state of ParseNginxConfig's pass.
use portguard_v.Base.{
  ℕ, zero, suc, Bool, true, false, List, [], ◌∷◌, Option, none, some, any, Text, codes, eqb,
  contains, ℤ,
}
use portguard_v.Base.Maps.{Map, lookup}

pub record NginxLocation : Type 0 where
  pub path : Text
  pub proxy_pass : Text
  pub return_code : Text
  pub is_regex : Bool

pub record NginxServer : Type 0 where
  pub listen_port : ℤ
  pub listen_ssl : Bool
  pub server_names : List Text
  pub locations : List NginxLocation
  pub return_to : Text
  pub is_default : Bool

-- `skipped` is never filled.
pub record NginxSites : Type 0 where
  pub http_servers : List NginxServer
  pub stream_servers : List NginxServer
  pub skipped : List Text
  pub upstreams : Map (List Text)

-- `in_location` says that curLoc points to the last location of the current server.
pub record NginxPass : Type 0 where
  pub sites : NginxSites
  pub in_upstream : Text
  pub in_stream : Bool
  pub cur_server : Option NginxServer
  pub in_location : Bool
  pub upstream_depth : ℕ
  pub stream_depth : ℕ

-- containsTok
abbrev pub contains_tok : List Text → Text → Bool
contains_tok fs s = any (eqb s) fs

unfoldable pub is_portguard_managed : NginxServer → Bool
unfolding contains
is_portguard_managed s = any (λ n. contains n (codes "portguard")) s.server_names

abbrev pub word_at : ℕ → List Text → Text
word_at n [] = []
word_at zero (w ∷ ws) = w
word_at (suc n) (w ∷ ws) = word_at n ws

abbrev pub words_from : ℕ → List Text → List Text
words_from zero ws = ws
words_from (suc n) [] = []
words_from (suc n) (w ∷ ws) = words_from n ws

abbrev pub has_words : ℕ → List Text → Bool
has_words zero ws = true
has_words (suc n) [] = false
has_words (suc n) (w ∷ ws) = has_words n ws

abbrev pub names_of : Text → Map (List Text) → List Text
names_of key m = elim (lookup key m) [ none ↦ [] | some ns ↦ ns ]
