-- ===== src/Imports/Haproxy/Lines.antt =====
-- ParseBindLine, ParseACLLine, ParseUseBackendLine, ParseServerLine and splitDirective of
-- internal/proxy/parser.go, with serverLinesToTargets, and backendLine of internal/proxy/engine.go,
-- which writes what ParseServerLine reads.
use portguard_v.Base.{
  suc, Bool, true, false, not, ◌&&◌, ◌||◌, List, [], ◌∷◌, ◌++◌, Option, none, some, Text, codes,
  eqb, is_empty, all_of, has_prefix, trim_prefix, trim, trim_space, to_lower, ◌==◌, ℤ, pos, negsuc,
  int_eq, int_lt, if◌then◌else◌,
}
use portguard_v.Base.Decimal.{decimal, is_digit, parse_int}
use portguard_v.Base.Words.{fields, join, count, cut, cut_last, atoi_value}
use portguard_v.Proxy.Model.{Target}

pub record BindCfg : Type 0 where
  pub ip : Text
  pub port : ℤ
  pub ssl : Bool
  pub crt : Text
  pub extra : Text

pub record AclLine : Type 0 where
  pub name : Text
  pub criterion : Text
  pub value : Text

pub record RuleLine : Type 0 where
  pub backend : Text
  pub condition : Text

pub record ServerLine : Type 0 where
  pub name : Text
  pub address : Text
  pub port : ℤ
  pub weight : ℤ
  pub backup : Bool
  pub check : Bool

unfoldable pub trim_brackets : Text → Text
unfolding trim
trim_brackets = trim (λ c. c == b'[' || c == b']')

-- The fields of a line after its word.
unfoldable pub arguments : Text → Text → List Text
arguments word line = fields (trim_space (trim_prefix (trim_space line) word))

-- `^\[([^\]]+)\]:(\d+)$`
unfoldable pub bracketed : Text → Option (Text × Text)
bracketed [] = none
bracketed (c ∷ s) =
    if c == b'['
    then elim (cut b']' s) [
      | none ↦ none
      | some (ip, []) ↦ none
      | some (ip, d ∷ port) ↦
          if not (is_empty ip) && d == b':' && not (is_empty port) && all_of is_digit port
          then some (ip, port)
          else none
    ]
    else none

abbrev default_bind : BindCfg
default_bind = record { ip = codes "*"; port = pos 80; ssl = false; crt = []; extra = [] }

unfoldable pub bind_address : Text → BindCfg
bind_address addr =
    if has_prefix addr (codes "[")
    then elim (bracketed addr) [
      | some (ip, port) ↦ record default_bind { ip = ip; port = atoi_value port }
      | none ↦ record default_bind { ip = trim_brackets addr }
    ]
    else elim (cut_last b':' addr) [
      | some (ip, port) ↦ record default_bind {
        ip = if is_empty ip then codes "*" else ip;
        port = atoi_value port;
      }
      | none ↦ elim (parse_int addr) [
        | some p ↦ record default_bind { port = p }
        | none ↦ record default_bind { ip = addr }
      ]
    ]

unfoldable pub bind_options : List Text → BindCfg → BindCfg
bind_options [] b = b
bind_options (tok ∷ toks) b = bind_options toks (
    if eqb tok (codes "ssl")
    then record b { ssl = true }
    else if eqb tok (codes "crt")
    then elim toks [ [] ↦ b | v ∷ vs ↦ record b { crt = v } ]
    else b)

unfoldable pub parse_bind_line : Text → BindCfg
parse_bind_line line = elim (arguments (codes "bind") line) [
  | [] ↦ default_bind
  | addr ∷ extra ↦ bind_options extra (bind_address addr)
]

unfoldable pub parse_acl_line : Text → Option AclLine
parse_acl_line line = elim (arguments (codes "acl") line) [
  | [] ↦ none
  | name ∷ [] ↦ none
  | name ∷ criterion ∷ value ↦
      some (record { name = name; criterion = criterion; value = join (codes " ") value })
]

-- `strings.EqualFold` with "if": no letter outside ASCII folds to these two.
unfoldable pub parse_use_backend_line : Text → Option RuleLine
parse_use_backend_line line = elim (arguments (codes "use_backend") line) [
  | [] ↦ none
  | backend ∷ [] ↦ some (record { backend = backend; condition = [] })
  | backend ∷ word ∷ [] ↦ some (record { backend = backend; condition = [] })
  | backend ∷ word ∷ cond ∷ conds ↦ some (record {
    backend = backend;
    condition =
        if eqb word (codes "if")
          || eqb word (codes "If")
          || eqb word (codes "iF")
          || eqb word (codes "IF")
        then join (codes " ") (cond ∷ conds)
        else [];
  })
]

unfoldable pub server_address : Text → Text → ServerLine
server_address name addr =
    let s : ServerLine = record {
      name = name;
      address = trim_brackets addr;
      port = pos 80;
      weight = pos 0;
      backup = false;
      check = false;
    } in
    if count b':' addr == 1
    then elim (cut b':' addr) [
      | none ↦ s
      | some (host, port) ↦ elim (parse_int port) [
        | some p ↦ record s { address = trim_brackets host; port = p }
        | none ↦ record s { address = addr }
      ]
    ]
    else s

abbrev none_left : List Text → Bool
none_left [] = true
none_left (tok ∷ toks) = false

-- The loop over the options. It skips the value of a weight: `is_weight` says that the word is one.
unfoldable pub server_options : Bool → List Text → ServerLine → ServerLine
server_options is_weight [] s = s
server_options true (tok ∷ toks) s =
    server_options false toks (record s { weight = atoi_value tok })
server_options false (tok ∷ toks) s =
    let is_weight = eqb tok (codes "weight") && not (none_left toks) in
    server_options is_weight toks (
      if eqb tok (codes "check")
      then record s { check = true }
      else if eqb tok (codes "backup")
      then record s { backup = true }
      else s)

unfoldable pub parse_server_line : Text → Option ServerLine
parse_server_line line = elim (arguments (codes "server") line) [
  | [] ↦ none
  | name ∷ [] ↦ none
  | name ∷ addr ∷ options ↦ some (server_options false options (server_address name addr))
]

unfoldable pub split_directive : Text → Text × Text
split_directive line = elim (fields line) [
  | [] ↦ ([], [])
  | key ∷ values ↦ (to_lower key, join (codes " ") values)
]

unfoldable pub server_line_target : ServerLine → Target
server_line_target s = record {
  host = s.address;
  port = s.port;
  weight = if int_lt (pos 0) s.weight && not (int_eq s.weight (pos 1)) then s.weight else pos 0;
  backup = s.backup;
}

-- `fmt.Sprintf("%d", z)` of a signed number.
abbrev pub int_text : ℤ → Text
int_text (pos n) = decimal n
int_text (negsuc n) = b'-' ∷ decimal (suc n)

unfoldable pub backend_line : Text → Target → Bool → Text
backend_line prefix t check =
    codes "    server "
    ++ prefix
    ++ codes " "
    ++ t.host
    ++ codes ":"
    ++ int_text t.port
    ++ (if int_lt (pos 0) t.weight && not (int_eq t.weight (pos 1))
        then codes " weight " ++ int_text t.weight
        else [])
    ++ (if t.backup then codes " backup" else [])
    ++ (if check then codes " check" else [])
