-- ===== src/Scanner/Ss.antt =====
-- parseSSLine, splitSSAddr and normalizeIP of internal/scanner/scanner.go, and scanSS on the output
-- of `ss -H -tulnp`.
use portguard_v.Base.{
  ℕ, zero, suc, ◌+◌, ◌-◌, Bool, true, false, not, ◌&&◌, ◌||◌, List, [], ◌∷◌, ◌++◌, Option, none,
  some, Text, codes, eqb, is_empty, contains, trim_prefix, trim_suffix, trim_space, strip_prefix,
  split, length, ◌==◌, ℤ, pos, int_lt, if◌then◌else◌,
}
use mathlib.Core.List.{filter_map}
use portguard_v.Base.Decimal.{is_digit, parse_int}
use portguard_v.Base.Words.{fields, join, cut_last, atoi_value}
use portguard_v.Scanner.{PortEntry}

-- The last closing bracket, and a colon right after it.
unfoldable pub split_ss_addr : Text → Option (Text × Text)
unfolding cut_last
split_ss_addr [] = none
split_ss_addr (c ∷ a) =
    if c == b'['
    then elim (cut_last b']' a) [
      | none ↦ none
      | some (host, []) ↦ none
      | some (host, d ∷ port) ↦ if d == b':' then some (host, port) else none
    ]
    else cut_last b':' (c ∷ a)

unfoldable pub normalize_ip : Text → Text
normalize_ip h =
    if eqb h (codes "*") || eqb h (codes "0.0.0.0")
    then codes "0.0.0.0"
    else if eqb h (codes "[::]") || eqb h (codes "::")
    then codes "::"
    else h

-- The first of the fields that can be split.
unfoldable pub first_addr : List Text → Option (Text × Text)
unfolding split_ss_addr
first_addr [] = none
first_addr (f ∷ fs) =
    let rest = first_addr fs in
    if contains f (codes ":") && not (contains f (codes "/"))
    then elim (split_ss_addr f) [ none ↦ rest | some a ↦ some a ]
    else rest

-- Leading characters of a class, and the rest.
abbrev span : (ℕ → Bool) → Text → Text × Text
span p [] = ([], [])
span p (c ∷ s) = let (a, b) = span p s in if p c then (c ∷ a, b) else ([], c ∷ s)

-- `\("([^"]+)",pid=(\d+)` at the start of the text: the name, the number and the length matched.
unfoldable pub match_process : Text → Option (Text × Text × ℕ)
match_process s = elim (strip_prefix (codes "(\"") s) [
  | none ↦ none
  | some t ↦
      let (name, rest) = span (λ c. not (c == b'"')) t in
      elim (strip_prefix (codes "\",pid=") rest) [
        | none ↦ none
        | some u ↦
            let (number, _) = span is_digit u in
            if is_empty name || is_empty number
            then none
            else some (name, number, 8 + length name + length number)
      ]
]

-- FindAllStringSubmatch: the matches from the left that do not overlap. The number says how many
-- characters of the last match are still to come.
unfoldable pub process_matches : ℕ → Text → List (Text × Text)
unfolding match_process
process_matches n [] = []
process_matches (suc n) (c ∷ s) = process_matches n s
process_matches zero (c ∷ s) =
    let skip = process_matches 0 s in
    elim (match_process (c ∷ s)) [
      | none ↦ skip
      | some (name, number, len) ↦ (name, number) ∷ process_matches (len - 1) s
    ]

unfoldable pub add_processes : List (Text × Text) → PortEntry → PortEntry
add_processes [] e = e
add_processes ((name, number) ∷ ms) e =
    add_processes ms
      (record e { pid = atoi_value number; process = trim_space (e.process ++ codes ", " ++ name) })

unfoldable pub valid_port : Option ℤ → Option ℤ
valid_port none = none
valid_port (some p) = if int_lt p (pos 0) || int_lt (pos 65535) p then none else some p

unfoldable pub ss_entry : Text → List Text → Text × Text → Option PortEntry
unfolding process_matches add_processes valid_port
ss_entry proto rest (host, port) = elim (valid_port (parse_int port)) [
  | none ↦ none
  | some p ↦
      let e = add_processes (process_matches 0 (join (codes " ") rest)) (record {
        port = p;
        proto = proto;
        listen_ip = normalize_ip host;
        pid = pos 0;
        process = [];
        user = [];
        classification = [];
        managed = false;
        self = false;
      }) in
      some (record e { process = trim_prefix e.process (codes ", ") })
]

abbrev or_else {ℓ} : {A : Type ℓ} → Option A → Option A → Option A
or_else none b = b
or_else (some a) b = some a

abbrev none_left : List Text → Bool
none_left [] = true
none_left (w ∷ ws) = false

-- A TCP line needs six fields and the state LISTEN; the state of a UDP line is not read.
unfoldable pub ss_fields : List Text → Option PortEntry
unfolding ss_entry first_addr
ss_fields (netid ∷ state ∷ recv ∷ sent ∷ local ∷ rest) =
    let proto = trim_suffix netid (codes "6") in
    let tcp = eqb proto (codes "tcp") in
    if not tcp && not (eqb proto (codes "udp"))
    then none
    else if tcp && (none_left rest || not (eqb state (codes "LISTEN")))
    then none
    else elim (or_else (split_ss_addr local) (first_addr (sent ∷ local ∷ rest))) [
      | none ↦ none
      | some addr ↦ ss_entry proto rest addr
    ]
ss_fields fs = none

unfoldable pub parse_ss_line : Text → Option PortEntry
unfolding ss_fields fields
parse_ss_line line = ss_fields (fields line)

unfoldable pub scan_ss : Text → List PortEntry
unfolding parse_ss_line split
scan_ss out =
    filter_map
      (λ line. if is_empty (trim_space line) then none else parse_ss_line (trim_space line))
      (split b'\n' out)
