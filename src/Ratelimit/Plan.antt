-- ===== src/Ratelimit/Plan.antt =====
-- Limits, rules, identifiers and the diff of two plans (internal/ratelimit/ratelimit.go).
use portguard_v.Base.{
  ℕ, ◌^◌, suc, Bool, true, not, ◌&&◌, ◌||◌, List, [], ◌∷◌, none, some, Text, codes, trim_space,
  to_lower, trim_prefix, trim_suffix, ℤ, pos, int_eq, int_lt, Check, ◌>>◌, fail_if, if◌then◌else◌,
  leb, ◌==◌, length,
}
use portguard_v.Base.Maps.{Map, lookup, insert}

pub record Limits : Type 0 where
  pub download_bps : ℤ
  pub upload_bps : ℤ

pub record Rule : Type 0 where
  pub uuid : Text
  pub username : Text
  pub source_ip : Text
  pub download_bps : ℤ
  pub upload_bps : ℤ

abbrev pub unlimited : Limits → Bool
unlimited l = not (int_lt (pos 0) l.download_bps) && not (int_lt (pos 0) l.upload_bps)

pub data LimitsError : Type 0 where
  negative_limit : LimitsError
  limit_out_of_range : LimitsError

abbrev pub validate_limits : Limits → Check LimitsError
validate_limits l =
    fail_if (int_lt l.download_bps (pos 0) || int_lt l.upload_bps (pos 0)) negative_limit
    >> fail_if (int_lt (pos (2 ^ 40)) l.download_bps || int_lt (pos (2 ^ 40)) l.upload_bps)
        limit_out_of_range

abbrev pub is_hex : ℕ → Bool
is_hex c = leb b'0' c && leb c b'9' || leb b'a' c && leb c b'f' || leb b'A' c && leb c b'F'

-- The loop of ValidUUID from index `i` on.
unfoldable pub uuid_chars : ℕ → Text → Bool
uuid_chars i [] = true
uuid_chars i (c ∷ s) =
    let dash : Bool = i == 8 || i == 13 || i == 18 || i == 23 in
    (if dash then c == b'-' else is_hex c) && uuid_chars (suc i) s

-- The length counts code points where Go counts bytes: they differ only on texts that
-- `uuid_chars` refuses.
unfoldable pub valid_uuid : Text → Bool
unfolding uuid_chars
valid_uuid s = (length s == 36) && uuid_chars 0 s

unfoldable pub normalize_uuid : Text → Text
normalize_uuid s =
    trim_suffix
      (trim_prefix (trim_prefix (trim_space (to_lower s)) (codes "urn:uuid:")) (codes "{"))
      (codes "}")

abbrev pub same_limits : Rule → Rule → Bool
same_limits c r = int_eq c.download_bps r.download_bps && int_eq c.upload_bps r.upload_bps

-- The maps that Diff builds: a later rule of the same source address replaces an earlier one.
unfoldable pub by_source_ip : Map Rule → List Rule → Map Rule
by_source_ip m [] = m
by_source_ip m (r ∷ rs) = by_source_ip (insert r.source_ip r m) rs

pub record Changes : Type 0 where
  pub add : List Rule
  pub update : List Rule
  pub remove : List Rule

unfoldable pub added : Map Rule → Map Rule → List Rule
added cur [] = []
added cur ((ip, r) ∷ des) =
    let rest = added cur des in elim (lookup ip cur) [ none ↦ r ∷ rest | some c ↦ rest ]

unfoldable pub updated : Map Rule → Map Rule → List Rule
updated cur [] = []
updated cur ((ip, r) ∷ des) =
    let rest = updated cur des in
    elim (lookup ip cur) [ none ↦ rest | some c ↦ if same_limits c r then rest else r ∷ rest ]

unfoldable pub removed : Map Rule → Map Rule → List Rule
removed des [] = []
removed des ((ip, r) ∷ cur) =
    let rest = removed des cur in elim (lookup ip des) [ none ↦ r ∷ rest | some d ↦ rest ]

unfoldable pub diff : List Rule → List Rule → Changes
unfolding by_source_ip added updated removed
diff current desired =
    let cur = by_source_ip [] current in
    let des = by_source_ip [] desired in
    record { add = added cur des; update = updated cur des; remove = removed des cur }
