-- ===== src/Imports/Haproxy/Address.antt =====
-- The address of a server line (ParseServerLine of internal/proxy/parser.go): a host and a port in
-- decimal digits, and the fields of a line.
use portguard_v.Base.{
  ℕ, ◌^◌, ◌<◌, Bool, true, false, not, ◌&&◌, ◌||◌, ◌+◌, strip_prefix, [], ◌∷◌, ◌++◌, some, Text,
  codes, all_of, is_space, ℤ, pos, ◌≡◌, ◌≢◌, refl, ap, ◌∙◌, arith, trim_space, trim_prefix, trim,
  trim_left, ◌==◌,
}
use portguard_v.Base.Decimal.{
  decimal, is_digit, parse_int-decimal, decimal-all_of, decimal-head, all_of-append,
}
use mathlib.Core.List.{append_assoc, reverse, reverse-cons, reverse-reverse}
use portguard_v.Base.Words.{
  fields, Word, IsWord, fields-trim_space, fields-trim_right, trim_right, trim_right-append, count,
  cut,
}
use portguard_v.Imports.Haproxy.Lines.{arguments, server_address, trim_brackets}

-- A character of a host: no blank, no colon and no bracket.
abbrev pub is_host_char : ℕ → Bool
is_host_char c = not (is_space c) && not (c == b':') && not (c == b'[' || c == b']')

-- After the word of a directive come the fields of the rest.
pub arguments-server : (s : Text) → arguments (codes "server") (codes "    server" ++ s) ≡ fields s
unfolding arguments trim_space trim trim_left is_space trim_prefix strip_prefix
arguments-server s =
    ap (λ u. fields (trim_space (trim_prefix u (codes "server"))))
      (trim_right-append (codes "server") s refl)
    ∙ fields-trim_space (trim_right s)
    ∙ fields-trim_right s

pub count-append : (d : ℕ) (s t : Text) → count d (s ++ t) ≡ count d s + count d t
unfolding count
count-append d [] t = omega arith
count-append d (c ∷ s) t = ground (arith, count-append d s t)

pub host-count : (s : Text) → all_of is_host_char s ≡ true → count b':' s ≡ 0
unfolding count
host-count [] h = refl
host-count (c ∷ s) h = ground (arith, host-count s (ground arith))

pub digits-count : (s : Text) → all_of is_digit s ≡ true → count b':' s ≡ 0
unfolding count
digits-count [] h = refl
digits-count (c ∷ s) h = ground (arith, digits-count s (ground arith))

pub host-cut : (s t : Text) → all_of is_host_char s ≡ true → cut b':' (s ++ b':' ∷ t) ≡ some (s, t)
unfolding cut
host-cut [] t h = refl
host-cut (c ∷ s) t h =
    let other : (c == b':') ≡ false = ground arith in rw (other, host-cut s t (ground arith)) refl

pub digits-Word : (s : Text) → all_of is_digit s ≡ true → Word s
unfolding is_space
digits-Word [] h = refl
digits-Word (c ∷ s) h = ground (arith, digits-Word s (ground arith))

pub host-Word : (s : Text) → all_of is_host_char s ≡ true → Word s
host-Word [] h = refl
host-Word (c ∷ s) h = ground (arith, host-Word s (ground arith))

pub all_of-reverse : (p : ℕ → Bool) (s : Text) → all_of p (reverse s) ≡ all_of p s
all_of-reverse p [] = refl
all_of-reverse p (c ∷ s) =
    rw (reverse-cons c s, all_of-append p (reverse s) (c ∷ []), all_of-reverse p s) (ground arith)

pub trim_left-none :
    (s : Text) → all_of is_host_char s ≡ true → trim_left (λ c. c == b'[' || c == b']') s ≡ s
unfolding trim_left
trim_left-none [] h = refl
trim_left-none (c ∷ s) h = ground arith

pub host-trim_brackets : (s : Text) → all_of is_host_char s ≡ true → trim_brackets s ≡ s
unfolding trim_brackets trim
host-trim_brackets s h =
    ap (λ u. reverse (trim_left (λ c. c == b'[' || c == b']') (reverse u))) (trim_left-none s h)
    ∙ ap reverse (trim_left-none (reverse s) (all_of-reverse is_host_char s ∙ h))
    ∙ reverse-reverse s

pub int_text-Word : (n : ℕ) → IsWord (decimal n)
int_text-Word n =
    let (c, s, e, d, r) = decimal-head n in
    let all_digits : all_of is_digit (c ∷ s) ≡ true = rw e at (decimal-all_of n) in
    rw e (digits-Word (c ∷ s) all_digits)

-- A port or a weight within the range of int64 that is written with digits only.
abbrev pub Written : ℤ → Type 0
Written z = (n : ℕ) × (z ≡ pos n) × (n < 2 ^ 63)

pub address-IsWord :
    (host : Text) (n : ℕ)
    → host ≢ []
    → all_of is_host_char host ≡ true
    → IsWord (host ++ codes ":" ++ decimal n)
unfolding is_space
address-IsWord [] n ne h = absurd (ne refl)
address-IsWord (c ∷ host) n ne h =
    rw
      (
        all_of-append (λ c. not (is_space c)) (c ∷ host ++ codes ":") (decimal n),
        all_of-append (λ c. not (is_space c)) (c ∷ host) (codes ":"),
        host-Word (c ∷ host) h,
        digits-Word (decimal n) (decimal-all_of n),
      )
      refl

pub server_address-host :
    (name host : Text) (n : ℕ)
    → all_of is_host_char host ≡ true
    → n < 2 ^ 63
    → server_address name (host ++ codes ":" ++ decimal n) ≡ record {
      name = name;
      address = host;
      port = pos n;
      weight = pos 0;
      backup = false;
      check = false;
    }
unfolding server_address count
server_address-host name host n h lt =
    let one : count b':' (host ++ b':' ∷ decimal n) ≡ 1 = omega (
      arith,
      count-append b':' host (b':' ∷ decimal n),
      host-count host h,
      digits-count (decimal n) (decimal-all_of n),
    ) in
    rw
      (
        append_assoc host (codes ":") (decimal n),
        one,
        host-cut host (decimal n) h,
        parse_int-decimal n lt,
        host-trim_brackets host h,
        server_address,
      )
      refl
