-- ===== src/Ratelimit/Bandwidth/Decimals.antt =====
-- ParseBandwidth (internal/ratelimit/ratelimit.go) on a number in decimal with a unit.
use portguard_v.Base.{
  ℕ, suc, ◌^◌, ◌<◌, ◌≡◌, refl, sym, ap, ◌≢◌, ◌∙◌, true, false, [], ◌∷◌, ◌++◌, some, Text, codes,
  eqb, trim_space, trim, trim_left, is_space, to_lower, lower, has_suffix, has_prefix, strip_prefix,
  trim_suffix, In, All, All-In, arith, all_of, map,
}
use mathlib.Core.List.{reverse, reverse_aux, reverse-append, reverse-reverse}
use portguard_v.Base.Decimal.{
  decimal, is_digit, digits, digits-all_of, digits-head, parse_int-decimal,
}
use portguard_v.Ratelimit.Bandwidth.{
  units, split_unit, says_unlimited, checked, scaled, parse_bandwidth,
}

lower-digits : (s : Text) → all_of is_digit s ≡ true → map lower s ≡ s
unfolding lower
lower-digits [] h = refl
lower-digits (c ∷ s) h = ground (arith, lower-digits s (ground arith))

map-append : (f : ℕ → ℕ) (s t : Text) → map f (s ++ t) ≡ map f s ++ map f t
map-append f [] t = refl
map-append f (c ∷ s) t = ap (λ r. f c ∷ r) (map-append f s t)

to_lower-numeral : (s t : Text) → all_of is_digit s ≡ true → to_lower (s ++ t) ≡ s ++ to_lower t
unfolding to_lower
to_lower-numeral s t h = map-append lower s t ∙ ap (λ z. z ++ map lower t) (lower-digits s h)

-- A text between two characters that are no spaces is left alone.
trim_left-stay : (c : ℕ) (s : Text) → is_space c ≡ false → trim_left is_space (c ∷ s) ≡ c ∷ s
unfolding trim_left
trim_left-stay c s h = ground arith

pub trim_space-stay :
    (s : Text) {c d : ℕ} {t u : Text}
    → s ≡ c ∷ t
    → reverse s ≡ d ∷ u
    → is_space c ≡ false
    → is_space d ≡ false
    → trim_space s ≡ s
unfolding trim_space trim
trim_space-stay s {c} {d} {t} {u} e r h g =
    let p : trim_left is_space s ≡ s = rw e (trim_left-stay c t h) in
    let q : trim_left is_space (reverse s) ≡ reverse s = rw r (trim_left-stay d u g) in
    rw (p, q) (reverse-reverse s)

digit_space : (c : ℕ) → is_digit c ≡ true → is_space c ≡ false
unfolding is_space
digit_space c h = ground arith

all_of-reverse_aux :
    (s r : Text)
    → all_of is_digit s ≡ true
    → all_of is_digit r ≡ true
    → all_of is_digit (reverse_aux s r) ≡ true
all_of-reverse_aux [] r h g = g
all_of-reverse_aux (c ∷ s) r h g = all_of-reverse_aux s (c ∷ r) (ground arith) (ground arith)

-- A number in decimal, forwards and backwards.
record IsNumeral (s : Text) : Type 0 where
  all_digits : all_of is_digit s ≡ true
  first : ℕ
  after : Text
  forwards : s ≡ first ∷ after
  first_digit : is_digit first ≡ true
  last : ℕ
  before : Text
  backwards : reverse s ≡ last ∷ before
  last_digit : is_digit last ≡ true

reverse-head :
    (r s : Text)
    → reverse s ≡ r
    → s ≢ []
    → all_of is_digit r ≡ true
    → (d : ℕ) × (u : Text) × (r ≡ d ∷ u) × (is_digit d ≡ true)
reverse-head [] s e n h = absurd (n (sym (reverse-reverse s) ∙ ap reverse e))
reverse-head (d ∷ u) s e n h = (d, u, refl, ground arith)

decimal-IsNumeral : (n : ℕ) → IsNumeral (decimal n)
unfolding decimal
decimal-IsNumeral n =
    let (c, t, e, h) = digits-head (suc n) n (omega arith) in
    let all_d = digits-all_of (suc n) n in
    let (d, u, r, g) =
      reverse-head (reverse (digits (suc n) n)) (digits (suc n) n) refl (λ z. ground (arith, e, z))
        (all_of-reverse_aux (digits (suc n) n) [] all_d refl) in
    record {
      all_digits = all_d;
      first = c;
      after = t;
      forwards = e;
      first_digit = h;
      last = d;
      before = u;
      backwards = r;
      last_digit = g;
    }

strip_prefix-append : (p s : Text) → strip_prefix p (p ++ s) ≡ some s
unfolding strip_prefix
strip_prefix-append [] s = refl
strip_prefix-append (c ∷ p) s = ground (arith, strip_prefix-append p s)

trim_suffix-append : (s u : Text) → trim_suffix (s ++ u) u ≡ s
unfolding trim_suffix
trim_suffix-append s u =
    rw (trim_suffix, reverse-append s u)
      (rw (strip_prefix-append (reverse u) (reverse s)) (reverse-reverse s))

digit-says_unlimited :
    (d : ℕ) (t : Text) (c : ℕ) (u : Text)
    → is_digit d ≡ true
    → says_unlimited (d ∷ t ++ c ∷ u) ≡ false
unfolding says_unlimited eqb
digit-says_unlimited d [] c u h = ground arith
digit-says_unlimited d (x ∷ t) c u h = ground arith

module _ (s : Text) (num : IsNumeral s) where
  numeral-says_unlimited : (c : ℕ) (u : Text) → says_unlimited (s ++ c ∷ u) ≡ false
  numeral-says_unlimited c u =
      rw num.forwards (digit-says_unlimited num.first num.after c u num.first_digit)

  -- A suffix is looked for in the unit, and in the last digit where the unit is shorter.
  has_suffix-unit :
      (u v : Text)
      → has_suffix (s ++ u) v ≡ has_prefix (reverse u ++ num.last ∷ num.before) (reverse v)
  unfolding has_suffix
  has_suffix-unit u v = rw (reverse-append s u, num.backwards) refl

  split-gbps : split_unit units (s ++ codes "gbps") ≡ (1000000000, s)
  unfolding split_unit units has_prefix strip_prefix
  split-gbps =
      let h : is_digit num.last ≡ true = num.last_digit in
      rw (has_suffix-unit (codes "gbps") (codes "gbps"), trim_suffix-append s (codes "gbps"))
        (ground arith)

  split-mbps : split_unit units (s ++ codes "mbps") ≡ (1000000, s)
  unfolding split_unit units has_prefix strip_prefix
  split-mbps =
      let h : is_digit num.last ≡ true = num.last_digit in
      rw
        (
          has_suffix-unit (codes "mbps") (codes "gbps"),
          has_suffix-unit (codes "mbps") (codes "mbps"),
          trim_suffix-append s (codes "mbps"),
        )
        (ground arith)

  split-kbps : split_unit units (s ++ codes "kbps") ≡ (1000, s)
  unfolding split_unit units has_prefix strip_prefix
  split-kbps =
      let h : is_digit num.last ≡ true = num.last_digit in
      rw
        (
          has_suffix-unit (codes "kbps") (codes "gbps"),
          has_suffix-unit (codes "kbps") (codes "mbps"),
          has_suffix-unit (codes "kbps") (codes "kbps"),
          trim_suffix-append s (codes "kbps"),
        )
        (ground arith)

  split-gb : split_unit units (s ++ codes "gb") ≡ (8000000000, s)
  unfolding split_unit units has_prefix strip_prefix
  split-gb =
      let h : is_digit num.last ≡ true = num.last_digit in
      rw
        (
          has_suffix-unit (codes "gb") (codes "gbps"),
          has_suffix-unit (codes "gb") (codes "mbps"),
          has_suffix-unit (codes "gb") (codes "kbps"),
          has_suffix-unit (codes "gb") (codes "gb"),
          trim_suffix-append s (codes "gb"),
        )
        (ground arith)

  split-mb : split_unit units (s ++ codes "mb") ≡ (8000000, s)
  unfolding split_unit units has_prefix strip_prefix
  split-mb =
      let h : is_digit num.last ≡ true = num.last_digit in
      rw
        (
          has_suffix-unit (codes "mb") (codes "gbps"),
          has_suffix-unit (codes "mb") (codes "mbps"),
          has_suffix-unit (codes "mb") (codes "kbps"),
          has_suffix-unit (codes "mb") (codes "gb"),
          has_suffix-unit (codes "mb") (codes "mb"),
          trim_suffix-append s (codes "mb"),
        )
        (ground arith)

  split-kb : split_unit units (s ++ codes "kb") ≡ (8000, s)
  unfolding split_unit units has_prefix strip_prefix
  split-kb =
      let h : is_digit num.last ≡ true = num.last_digit in
      rw
        (
          has_suffix-unit (codes "kb") (codes "gbps"),
          has_suffix-unit (codes "kb") (codes "mbps"),
          has_suffix-unit (codes "kb") (codes "kbps"),
          has_suffix-unit (codes "kb") (codes "gb"),
          has_suffix-unit (codes "kb") (codes "mb"),
          has_suffix-unit (codes "kb") (codes "kb"),
          trim_suffix-append s (codes "kb"),
        )
        (ground arith)

  split-bps : split_unit units (s ++ codes "bps") ≡ (1, s)
  unfolding split_unit units has_prefix strip_prefix
  split-bps =
      let h : is_digit num.last ≡ true = num.last_digit in
      rw
        (
          has_suffix-unit (codes "bps") (codes "gbps"),
          has_suffix-unit (codes "bps") (codes "mbps"),
          has_suffix-unit (codes "bps") (codes "kbps"),
          has_suffix-unit (codes "bps") (codes "gb"),
          has_suffix-unit (codes "bps") (codes "mb"),
          has_suffix-unit (codes "bps") (codes "kb"),
          has_suffix-unit (codes "bps") (codes "bps"),
          trim_suffix-append s (codes "bps"),
        )
        (ground arith)

  split-All : All (λ p. split_unit units (s ++ p.0) ≡ (p.1, s)) units
  unfolding units
  split-All =
      (split-gbps, (split-mbps, (split-kbps, (split-gb, (split-mb, (split-kb, (split-bps, tt)))))))

  split_unit-In : (u : Text) (mult : ℕ) → In (u, mult) units → split_unit units (s ++ u) ≡ (mult, s)
  split_unit-In u mult m =
      All-In (λ p. split_unit units (s ++ p.0) ≡ (p.1, s)) units (u, mult) split-All m

-- A unit is a text without a space at its end.
abbrev IsUnit : Text × ℕ → Type 0
IsUnit (u, mult) =
    (c : ℕ) × (t : Text) × (d : ℕ) × (w : Text) × (u ≡ c ∷ t)
    × (reverse u ≡ d ∷ w)
    × (is_space d ≡ false)

units-IsUnit : All IsUnit units
unfolding units is_space
units-IsUnit = (
  (_, _, _, _, refl, refl, refl),
  (
    (_, _, _, _, refl, refl, refl),
    (
      (_, _, _, _, refl, refl, refl),
      (
        (_, _, _, _, refl, refl, refl),
        (
          (_, _, _, _, refl, refl, refl),
          ((_, _, _, _, refl, refl, refl), ((_, _, _, _, refl, refl, refl), tt)),
        ),
      ),
    ),
  ),
)

-- The number `n` in decimal, then a unit in any case, is read as `n` times the factor.
pub parse_bandwidth-decimal :
    (n : ℕ) (raw u : Text) (mult : ℕ)
    → n < 2 ^ 63
    → to_lower raw ≡ u
    → In (u, mult) units
    → parse_bandwidth (decimal n ++ raw) ≡ scaled n mult
unfolding parse_bandwidth checked
parse_bandwidth-decimal n raw u mult lt low m =
    let s = decimal n in
    let num = decimal-IsNumeral n in
    let (c, t, d, w, e, r, nsp) = All-In IsUnit units (u, mult) units-IsUnit m in
    let lowered : to_lower (s ++ raw) ≡ s ++ u =
      to_lower-numeral s raw num.all_digits ∙ ap (λ z. s ++ z) low in
    let trimmed : trim_space (s ++ u) ≡ s ++ u =
      trim_space-stay (s ++ u) (ap (λ z. z ++ u) num.forwards)
        (reverse-append s u ∙ ap (λ z. z ++ reverse s) r) (digit_space num.first num.first_digit)
        nsp in
    let alone : trim_space s ≡ s =
      trim_space-stay s num.forwards num.backwards (digit_space num.first num.first_digit)
        (digit_space num.last num.last_digit) in
    let limited : says_unlimited (s ++ u) ≡ false = rw e (numeral-says_unlimited s num c t) in
    rw (lowered, trimmed, limited, split_unit-In s num u mult m, alone, parse_int-decimal n lt) refl
