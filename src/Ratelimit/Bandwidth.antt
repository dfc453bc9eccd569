-- ===== src/Ratelimit/Bandwidth.antt =====
-- ParseBandwidth and FormatBandwidth (internal/ratelimit/ratelimit.go). A number of bits per
-- second is an int64: the product in ParseBandwidth wraps around at 2 ^ 64.
pub mod Decimals
pub mod Ranges
use portguard_v.Base.{
  ℕ, ◌+◌, ◌*◌, ◌/◌, ◌%◌, ◌^◌, ◌-◌, suc, Bool, true, false, ◌||◌, ◌&&◌, List, [], ◌∷◌, ◌++◌, Option,
  none, some, Text, codes, eqb, trim_space, to_lower, has_suffix, trim_suffix, is_empty, ℤ, pos,
  negsuc, int_lt, if◌then◌else◌, ltb, leb, ◌==◌,
}
use portguard_v.Base.Decimal.{parse_int, decimal}

-- What an error says: the text is no number or negative, or the number is above 2 ^ 40.
pub data Error : Type 0 where
  invalid_bandwidth : Error
  out_of_range : Error

pub data Parsed : Type 0 where
  failed : Error → Parsed
  parsed : ℕ → Parsed

unfoldable pub says_unlimited : Text → Bool
says_unlimited s =
    is_empty s
    || eqb s (codes "unlimited")
    || eqb s (codes "0")
    || eqb s (codes "none")
    || eqb s (codes "-")

-- The suffixes in the order of the switch, with the factor of each.
unfoldable pub units : List (Text × ℕ)
units =
    (codes "gbps", 1000000000)
    ∷ (codes "mbps", 1000000)
    ∷ (codes "kbps", 1000)
    ∷ (codes "gb", 8000000000)
    ∷ (codes "mb", 8000000)
    ∷ (codes "kb", 8000)
    ∷ (codes "bps", 1)
    ∷ []

-- The switch: the factor and the text before the suffix.
unfoldable pub split_unit : List (Text × ℕ) → Text → ℕ × Text
split_unit [] s = (1, s)
split_unit ((u, mult) ∷ us) s =
    let rest = split_unit us s in if has_suffix s u then (mult, trim_suffix s u) else rest

-- The number of 64 bits as an int64.
unfoldable pub to_int64 : ℕ → ℤ
to_int64 n = let v = n % 2 ^ 64 in if ltb v (2 ^ 63) then pos v else negsuc (2 ^ 64 - 1 - v)

-- The last lines, from `if n > 1<<40`; `v` is `n * mult` as an int64.
unfoldable pub in_range : ℤ → Parsed
in_range (negsuc k) = failed out_of_range
in_range (pos v) = if ltb (2 ^ 40) v then failed out_of_range else parsed v

unfoldable pub scaled : ℕ → ℕ → Parsed
unfolding to_int64 in_range
scaled n mult = if ltb (2 ^ 40) n then failed out_of_range else in_range (to_int64 (n * mult))

unfoldable pub checked : Option ℤ → ℕ → Parsed
unfolding scaled
checked none mult = failed invalid_bandwidth
checked (some (negsuc k)) mult = failed invalid_bandwidth
checked (some (pos n)) mult = scaled n mult

unfoldable pub parse_bandwidth : Text → Parsed
unfolding says_unlimited units split_unit checked
parse_bandwidth s0 =
    let s : Text = trim_space (to_lower s0) in
    let (mult, num_part) = split_unit units s in
    if says_unlimited s then parsed 0 else checked (parse_int (trim_space num_part)) mult

unfoldable pub format_bandwidth : ℤ → Text
format_bandwidth (negsuc k) = codes "unlimited"
format_bandwidth (pos bps) =
    if leb bps 0
    then codes "unlimited"
    else if leb 1000000000 bps && (bps % 1000000000 == 0)
    then decimal (bps / 1000000000) ++ codes "Gbps"
    else if leb 1000000 bps && (bps % 1000000 == 0)
    then decimal (bps / 1000000) ++ codes "Mbps"
    else if leb 1000 bps
    then decimal (bps / 1000) ++ codes "Kbps"
    else decimal bps ++ codes "bps"
