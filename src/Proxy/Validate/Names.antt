-- ===== src/Proxy/Validate/Names.antt =====
-- The tests on names that ValidateMapping calls (internal/proxy/engine.go).
use portguard_v.Base.{
  ℕ, Bool, true, false, not, ◌&&◌, ◌||◌, List, [], ◌∷◌, none, some, any, all, Text, codes, eqb,
  trim, to_lower, trim_suffix, any_of, all_of, has_prefix, has_suffix, is_empty, split, length,
  if◌then◌else◌, ltb, leb, ◌==◌,
}
use mathlib.Core.List.{filter_map}

-- What the code takes from Go's `net` and `unicode`: which texts `net.ParseIP` and
-- `net.ParseCIDR` accept, and the classes of code points Cc (`unicode.IsControl`) and Cf.
pub record Lib : Type 0 where
  pub parse_ip : Text → Bool
  pub parse_cidr : Text → Bool
  pub is_control : ℕ → Bool
  pub is_format : ℕ → Bool

abbrev pub within : ℕ → ℕ → ℕ → Bool
within lo hi c = leb lo c && leb c hi

unfoldable pub valid_engine : Text → Bool
valid_engine e = eqb e (codes "nginx") || eqb e (codes "haproxy")

unfoldable pub valid_protocol : Text → Bool
valid_protocol p =
    eqb p (codes "http") || eqb p (codes "https") || eqb p (codes "tcp") || eqb p (codes "udp")

abbrev one_of : List Text → Text → Bool
one_of ts t = any (eqb t) ts

unfoldable pub valid_balance : Text → Text → Text → Bool
valid_balance engine protocol algo =
    if is_empty algo
    then true
    else if eqb engine (codes "haproxy")
    then one_of
        (codes "roundrobin"
          ∷ codes "leastconn"
          ∷ codes "source"
          ∷ codes "uri"
          ∷ codes "random"
          ∷ codes "first"
          ∷ codes "static-rr"
          ∷ [])
        algo
    else if eqb protocol (codes "tcp") || eqb protocol (codes "udp")
    then one_of (codes "round_robin" ∷ codes "least_conn" ∷ codes "random" ∷ []) algo
    else one_of (codes "round_robin" ∷ codes "least_conn" ∷ codes "ip_hash" ∷ codes "random" ∷ [])
        algo

-- The empty text has no code point, so the source's first test needs no branch.
unfoldable pub has_control_chars : Lib → Text → Bool
has_control_chars lib = any_of (λ r. ltb r 0x20 || r == 0x7f || lib.is_control r || lib.is_format r)

abbrev hostname_char : ℕ → Bool
hostname_char r = within b'a' b'z' r || within b'0' b'9' r || r == b'-' || r == b'_'

unfoldable pub valid_label : Text → Bool
valid_label part =
    not (is_empty part || ltb 63 (length part))
    && not (has_prefix part (codes "-") || has_suffix part (codes "-"))
    && all_of hostname_char part

-- Lengths count code points, where Go counts bytes: they differ only on texts with a code point
-- above 127, which `hostname_char` refuses.
unfoldable pub valid_hostname : Text → Bool
unfolding valid_label
valid_hostname h =
    let t : Text = trim_suffix (to_lower h) (codes ".") in
    if is_empty t || ltb 253 (length t) then false else all valid_label (split b'.' t)

unfoldable pub path_clean : Text → Text
unfolding filter_map
path_clean s = trim (λ c. c == b' ') (filter_map (λ c. if c == b'/' then none else some c) s)

abbrev token_char : ℕ → Bool
token_char r =
    within b'a' b'z' r || within b'A' b'Z' r || within b'0' b'9' r || r == b'-' || r == b'_'

unfoldable pub valid_path_prefix_token : Text → Bool
unfolding path_clean
valid_path_prefix_token s =
    if is_empty s || ltb 32 (length s) || not (eqb s (path_clean s))
    then false
    else all_of token_char s
