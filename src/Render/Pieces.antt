-- ===== src/Render/Pieces.antt =====
-- The small functions of internal/proxy/haproxy.go and posixJoin of internal/proxy/engine.go.
use portguard_v.Base.{
  ℕ, zero, suc, ◌-◌, ◌%◌, ◌||◌, List, [], ◌∷◌, ◌++◌, Text, codes, eqb, is_empty, contains, any_of,
  trim, ltb, ℤ, pos, negsuc, if◌then◌else◌, ◌==◌,
}
use portguard_v.Base.Decimal.{decimal}
use portguard_v.Base.Words.{join}

-- The pieces of a `fmt.Sprintf`.
abbrev pub cat : List Text → Text
cat [] = []
cat (t ∷ ts) = t ++ cat ts

unfoldable pub bind_ip : Text → Text
bind_ip ip =
    if is_empty ip || eqb ip (codes "0.0.0.0")
    then codes "*"
    else if eqb ip (codes "::")
    then codes "*"
    else if contains ip (codes ":")
    then codes "[" ++ ip ++ codes "]"
    else ip

unfoldable pub escape_ha : Text → Text
escape_ha [] = []
escape_ha (c ∷ s) =
    let rest = escape_ha s in
    if c == b' '
    then codes "\\ " ++ rest
    else if c == b'\n'
    then rest
    else if c == b'#'
    then codes "\\#" ++ rest
    else c ∷ rest

abbrev without_slashes : Text → List Text
without_slashes t = if is_empty t then [] else trim (λ c. c == b'/') t ∷ []

-- posixJoin of two parts.
unfoldable pub posix_join : Text → Text → Text
unfolding trim
posix_join a b = codes "/" ++ join (codes "/") (without_slashes a ++ without_slashes b)

-- `regexp.QuoteMeta`.
unfoldable pub quote_meta : Text → Text
quote_meta [] = []
quote_meta (c ∷ s) =
    let rest = quote_meta s in
    if any_of (λ d. d == c) (codes "\\.+*?()|[]{}^$") then b'\\' ∷ c ∷ rest else c ∷ rest

-- The numbers from one on, as many as told.
abbrev ports : ℕ → ℕ → List Text
ports zero p = []
ports (suc n) p = decimal p ∷ ports n (suc p)

unfoldable pub port_pattern : ℤ → ℤ → Text
port_pattern (pos a) (pos b) =
    if a == 0 || b == 0 || ltb b a || ltb 16 (b - a)
    then codes "[0-9]+"
    else codes "(" ++ join (codes "|") (ports (suc (b - a)) a) ++ codes ")"
port_pattern (pos a) (negsuc b) = codes "[0-9]+"
port_pattern (negsuc a) b = codes "[0-9]+"

abbrev negated : ℕ → ℤ
negated zero = pos 0
negated (suc n) = negsuc n

-- Go's remainder has the sign of the dividend.
unfoldable pub rule_number : ℤ → ℤ
rule_number (pos n) = pos (n % 100000)
rule_number (negsuc n) = negated (suc n % 100000)
