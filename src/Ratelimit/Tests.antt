-- ===== src/Ratelimit/Tests.antt =====
-- Runs of the bandwidth limits (internal/ratelimit) on concrete inputs.
use portguard_v.Base.{
  ℕ, ◌*◌, ◌%◌, ◌^◌, ◌≤◌, ◌≡◌, refl, Bool, true, List, [], ◌∷◌, ◌++◌, some, Text, codes, pos, ◌↔◌,
  inl, arith, to_lower, lower, eqb, is_space, trim, trim_left, trim_space, has_prefix, strip_prefix,
  has_suffix, trim_suffix, contains,
}
use portguard_v.Base.Decimal.{decimal, digits, parse_int, read_number, read_digits, in_int64}
use portguard_v.Base.Maps.{lookup, insert, delete}
use portguard_v.Ratelimit.Bandwidth.{
  parsed, failed, out_of_range, invalid_bandwidth, units, split_unit, says_unlimited, checked,
  scaled, to_int64, in_range, parse_bandwidth, format_bandwidth,
}
use portguard_v.Ratelimit.Bandwidth.Ranges.{
  parse_bandwidth-decimal_iff, parse_bandwidth-format_bandwidth, shown,
}
use portguard_v.Ratelimit.Plan.{
  Rule, valid_uuid, uuid_chars, diff, added, updated, removed, by_source_ip,
}
use portguard_v.Ratelimit.Applier.{
  AppliedState, applied, History, Command, apply_plan, apply_changed, apply_rule, apply_side,
  remove_vanished, remove_rule, desired_rules, enforceable, valid_ip, starting, finish,
  class_digits, fnv, hex, qdisc_replace, qdisc_del, class_replace, filter_replace, filter_del,
  class_del,
}
use portguard_v.Ratelimit.Applier.Exact.{wanted, limits_of, apply_plan-IsExact}
use portguard_v.Ratelimit.Applier.Idempotent.{apply_plan-apply_plan}

-- What ParseBandwidth and FormatBandwidth compute with.
bandwidths : Unit {0}
unfolding parse_bandwidth says_unlimited units split_unit checked scaled to_int64 in_range parse_int
    read_number read_digits in_int64 decimal digits format_bandwidth eqb to_lower lower is_space
    trim trim_left trim_space has_suffix has_prefix strip_prefix trim_suffix
bandwidths = tt

read_kilo : parse_bandwidth (codes " 512Kbps") ≡ parsed 512000
unfolding bandwidths
read_kilo = refl

read_bytes : parse_bandwidth (codes "5MB") ≡ parsed 40000000
unfolding bandwidths
read_bytes = refl

read_negative : parse_bandwidth (codes "-5Mbps") ≡ failed invalid_bandwidth
unfolding bandwidths
read_negative = refl

read_large : parse_bandwidth (codes "2000Gbps") ≡ failed out_of_range
unfolding bandwidths
read_large = refl

format_giga : format_bandwidth (pos 2000000000) ≡ codes "2Gbps"
unfolding bandwidths
format_giga = refl

-- A product that wraps around.
parse_bandwidth-decimal_iff_example :
    (parse_bandwidth (decimal 18446744074 ++ codes "Gbps") ≡ parsed 290448384) ↔ (
      (18446744074 ≤ 2 ^ 40)
      × (290448384 ≡ 18446744074 * 1000000000 % 2 ^ 64)
      × (18446744074 * 1000000000 % 2 ^ 64 ≤ 2 ^ 40))
unfolding units to_lower lower
parse_bandwidth-decimal_iff_example =
    parse_bandwidth-decimal_iff 18446744074 (codes "Gbps") (codes "gbps") 1000000000 290448384
      (omega arith) refl (inl refl)

parse_bandwidth-format_bandwidth_example :
    parse_bandwidth (format_bandwidth (pos 1500)) ≡ parsed (shown 1500)
parse_bandwidth-format_bandwidth_example = parse_bandwidth-format_bandwidth 1500 (omega arith)

abbrev rule : Text → ℕ → Rule
rule ip bps = record {
  uuid = [];
  username = codes "user";
  source_ip = ip;
  download_bps = pos bps;
  upload_bps = pos 0;
}

-- What Diff and ApplyPlan compute with.
plans : Unit {0}
unfolding apply_plan apply_changed apply_rule apply_side remove_vanished remove_rule desired_rules
    enforceable valid_ip starting finish class_digits fnv hex decimal digits qdisc_replace qdisc_del
    class_replace filter_replace filter_del class_del eqb contains has_prefix strip_prefix lookup
    insert delete diff added updated removed by_source_ip valid_uuid uuid_chars
plans = tt

abbrev always : History → Command → Bool
always h c = true

abbrev saved : AppliedState → Bool
saved st = true

abbrev plan : List Rule
plan = rule (codes "10.0.0.1") 8000 ∷ rule (codes "bad") 9000 ∷ []

abbrev before : AppliedState
before = record {
  iface = codes "eth0";
  rules = (codes "10.0.0.2", rule (codes "10.0.0.2") 500) ∷ [];
}

abbrev after : AppliedState
after = record {
  iface = codes "eth0";
  rules = (codes "10.0.0.1", rule (codes "10.0.0.1") 8000) ∷ [];
}

plan_applied : (apply_plan always saved (codes "eth0") (some before) plan []).0 ≡ applied after
unfolding plans
plan_applied = refl

apply_plan-IsExact_example :
    (after.iface ≡ codes "eth0")
    × ((ip : Text) → limits_of (lookup ip after.rules) ≡ wanted ip plan)
apply_plan-IsExact_example =
    apply_plan-IsExact always saved (codes "eth0") (some before) plan [] after plan_applied

apply_plan-apply_plan_example :
    apply_plan always saved (codes "eth0") (some after) plan [] ≡ (applied after, [])
apply_plan-apply_plan_example =
    apply_plan-apply_plan always saved (codes "eth0") (some before) plan [] after [] plan_applied

uuid_accepted : valid_uuid (codes "123e4567-e89b-12d3-a456-426614174000") ≡ true
unfolding plans
uuid_accepted = refl

changes :
    (diff (rule (codes "10.0.0.2") 5 ∷ []) (rule (codes "10.0.0.1") 7 ∷ [])).add
    ≡ rule (codes "10.0.0.1") 7 ∷ []
unfolding plans
changes = refl
