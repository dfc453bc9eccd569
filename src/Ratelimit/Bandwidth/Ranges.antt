-- ===== src/Ratelimit/Bandwidth/Ranges.antt =====
-- The numbers that ParseBandwidth returns, and those that FormatBandwidth writes back
-- (internal/ratelimit/ratelimit.go).
use portguard_v.Base.{
  ℕ, ◌*◌, ◌/◌, ◌%◌, ◌^◌, ◌-◌, ◌<◌, ◌≤◌, ◌≡◌, refl, ap, ◌∙◌, ◌&&◌, ◌++◌, Text, codes, to_lower,
  lower, pos, if◌then◌else◌, ltb, leb, ◌==◌, In, inl, inr, Bool-cases, arith, ◌↔◌, trim_space, eqb,
  trim, trim_left, is_space,
}
use portguard_v.Base.Decimal.{decimal}
use portguard_v.Ratelimit.Bandwidth.{
  parsed, units, says_unlimited, scaled, in_range, to_int64, parse_bandwidth, format_bandwidth,
}
use portguard_v.Ratelimit.Bandwidth.Decimals.{parse_bandwidth-decimal}

-- What `scaled` returns is the product modulo 2 ^ 64, where both it and the number are in range.
scaled_iff :
    (n mult v : ℕ)
    → (scaled n mult ≡ parsed v)
      ↔ ((n ≤ 2 ^ 40) × (v ≡ n * mult % 2 ^ 64) × (n * mult % 2 ^ 64 ≤ 2 ^ 40))
unfolding scaled in_range to_int64
scaled_iff n mult v = elim (Bool-cases (ltb (n * mult % 2 ^ 64) (2 ^ 63))) [
  | inl small ↦ rw small (ground arith)
  | inr large ↦ rw large (ground arith)
]

pub scaled-exact : (n mult : ℕ) → n ≤ 2 ^ 40 → n * mult ≤ 2 ^ 40 → scaled n mult ≡ parsed (n * mult)
unfolding scaled in_range to_int64
scaled-exact n mult h g = (scaled_iff n mult (n * mult)).1 (h, omega arith, omega arith)

-- A number below 2 ^ 63 in decimal, followed by one of the units in any case, is accepted with the
-- value `v` exactly if the number is at most 2 ^ 40 and `v` is its product with the unit's factor,
-- reduced modulo 2 ^ 64, this remainder being at most 2 ^ 40.
pub parse_bandwidth-decimal_iff :
    (n : ℕ) (raw u : Text) (mult v : ℕ)
    → n < 2 ^ 63
    → to_lower raw ≡ u
    → In (u, mult) units
    → (parse_bandwidth (decimal n ++ raw) ≡ parsed v)
      ↔ ((n ≤ 2 ^ 40) × (v ≡ n * mult % 2 ^ 64) × (n * mult % 2 ^ 64 ≤ 2 ^ 40))
parse_bandwidth-decimal_iff n raw u mult v lt low m =
    rw (parse_bandwidth-decimal n raw u mult lt low m) (scaled_iff n mult v)

-- What is left of a bandwidth in its text: below 1000 all, from there on whole thousands.
abbrev pub shown : ℕ → ℕ
shown v = if ltb v 1000 then v else v - v % 1000

read_back :
    (n : ℕ) (raw u : Text) (mult : ℕ)
    → n * mult ≤ 2 ^ 40
    → n ≤ 2 ^ 40
    → to_lower raw ≡ u
    → In (u, mult) units
    → parse_bandwidth (decimal n ++ raw) ≡ parsed (n * mult)
read_back n raw u mult h g low m =
    parse_bandwidth-decimal n raw u mult (omega arith) low m ∙ scaled-exact n mult g h

unlimited-parsed : parse_bandwidth (codes "unlimited") ≡ parsed 0
unfolding parse_bandwidth says_unlimited trim_space trim trim_left is_space eqb to_lower lower
unlimited-parsed = refl

-- The text of a bandwidth of at most 2 ^ 40 is read back as that bandwidth if it is below 1000, and
-- as the bandwidth rounded down to a multiple of 1000 otherwise.
pub parse_bandwidth-format_bandwidth :
    (v : ℕ) → v ≤ 2 ^ 40 → parse_bandwidth (format_bandwidth (pos v)) ≡ parsed (shown v)
unfolding format_bandwidth units to_lower lower
parse_bandwidth-format_bandwidth v h = elim (Bool-cases (leb v 0)) [
  | inl none_left ↦ rw none_left (unlimited-parsed ∙ ap parsed (ground arith))
  | inr some_left ↦ elim (Bool-cases (leb 1000000000 v && (v % 1000000000 == 0))) [
    | inl g ↦
        rw (some_left, g)
          (read_back (v / 1000000000) (codes "Gbps") _ 1000000000 (ground arith) (omega arith) refl
              (inl refl)
            ∙ ap parsed (ground arith))
    | inr no_g ↦ elim (Bool-cases (leb 1000000 v && (v % 1000000 == 0))) [
      | inl g ↦
          rw (some_left, no_g, g)
            (read_back (v / 1000000) (codes "Mbps") _ 1000000 (ground arith) (omega arith) refl
                (inr (inl refl))
              ∙ ap parsed (ground arith))
      | inr no_m ↦ elim (Bool-cases (leb 1000 v)) [
        | inl g ↦
            rw (some_left, no_g, no_m, g)
              (read_back (v / 1000) (codes "Kbps") _ 1000 (ground arith) (omega arith) refl
                  (inr (inr (inl refl)))
                ∙ ap parsed (ground arith))
        | inr no_k ↦
            rw (some_left, no_g, no_m, no_k)
              (read_back v (codes "bps") _ 1 (ground arith) (omega arith) refl
                  (inr (inr (inr (inr (inr (inr (inl refl)))))))
                ∙ ap parsed (ground arith))
      ]
    ]
  ]
]
