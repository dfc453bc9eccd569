-- ===== src/Imports/Haproxy/RoundTrip.antt =====
-- ParseServerLine of internal/proxy/parser.go reads what backendLine of internal/proxy/engine.go
-- writes.
use portguard_v.Base.{
  ℕ, ◌^◌, ◌<◌, Bool, true, false, All, not, ◌&&◌, List, [], ◌∷◌, ◌++◌, some, Text, codes, all_of,
  is_space, ℤ, pos, int_lt, int_eq, eqb, ◌≡◌, ◌≢◌, refl, ap, ◌∙◌, if◌then◌else◌,
}
use portguard_v.Base.Decimal.{decimal}
use mathlib.Core.List.{append_assoc, append-nil}
use portguard_v.Base.Words.{IsWord, spaced, fields-spaced, atoi_value, atoi_value-decimal}
use portguard_v.Proxy.Model.{Target}
use portguard_v.Imports.Haproxy.Lines.{
  ServerLine, arguments, parse_server_line, server_options, backend_line, int_text,
}
use portguard_v.Imports.Haproxy.Address.{
  is_host_char, arguments-server, int_text-Word, Written, address-IsWord, server_address-host,
}

-- The words that backendLine writes after the address.
abbrev weighted : Target → Bool
weighted t = int_lt (pos 0) t.weight && not (int_eq t.weight (pos 1))

abbrev weight_words : Bool → ℤ → List Text
weight_words true w = codes "weight" ∷ int_text w ∷ []
weight_words false w = []

abbrev flag_words : Bool → Text → List Text
flag_words true w = w ∷ []
flag_words false w = []

abbrev option_words : Target → Bool → List Text
option_words t check =
    weight_words (weighted t) t.weight
    ++ (flag_words t.backup (codes "backup") ++ flag_words check (codes "check"))

spaced-append : (xs ys : List Text) → spaced (xs ++ ys) ≡ spaced xs ++ spaced ys
spaced-append [] ys = refl
spaced-append (x ∷ xs) ys = simp (spaced-append xs ys, append_assoc)

spaced-weight :
    (b : Bool) (w : ℤ)
    → spaced (weight_words b w) ≡ (if b then codes " weight " ++ int_text w else [])
spaced-weight false w = refl
spaced-weight true w = ap (λ u. codes " weight " ++ u) (append-nil (int_text w))

spaced-flag : (b : Bool) (w : Text) → spaced (flag_words b w) ≡ (if b then b' ' ∷ w else [])
spaced-flag false w = refl
spaced-flag true w = ap (λ u. b' ' ∷ u) (append-nil w)

-- The line is "    server" and words, each after a space.
backend_line-spaced :
    (prefix : Text) (t : Target) (check : Bool)
    → backend_line prefix t check
      ≡ codes "    server"
        ++ spaced (prefix ∷ (t.host ++ codes ":" ++ int_text t.port) ∷ option_words t check)
unfolding backend_line
backend_line-spaced prefix t check = simp (
  append_assoc,
  spaced-append (weight_words (weighted t) t.weight)
      (flag_words t.backup (codes "backup") ++ flag_words check (codes "check")),
  spaced-append (flag_words t.backup (codes "backup")) (flag_words check (codes "check")),
  spaced-weight (weighted t) t.weight,
  spaced-flag t.backup (codes "backup"),
  spaced-flag check (codes "check"),
)

abbrev server_at : Text → Text → ℤ → ServerLine
server_at name address port = record {
  name = name;
  address = address;
  port = port;
  weight = pos 0;
  backup = false;
  check = false;
}

-- The flags after a weight, or without one.
flags_read :
    (b c : Bool) (s : ServerLine)
    → s.backup ≡ false
    → s.check ≡ false
    → server_options false (flag_words b (codes "backup") ++ flag_words c (codes "check")) s
      ≡ record s { backup = b; check = c }
unfolding server_options eqb
flags_read false false s zb zc = rw (zb, zc) refl
flags_read true false s zb zc = rw zc refl
flags_read false true s zb zc = rw zb refl
flags_read true true s zb zc = refl

options_read :
    (weight backup check : Bool) (w : ℕ) (name address : Text) (port : ℤ)
    → w < 2 ^ 63
    → server_options false
        (weight_words weight (pos w)
          ++ (flag_words backup (codes "backup") ++ flag_words check (codes "check")))
        (server_at name address port)
      ≡ record (server_at name address port) {
        weight = if weight then pos w else pos 0;
        backup = backup;
        check = check;
      }
unfolding server_options eqb
options_read false b c w name address port lt =
    flags_read b c (server_at name address port) refl refl
options_read true b c w name address port lt = rw (← atoi_value-decimal w lt) (
    flags_read b c (record (server_at name address port) { weight = atoi_value (decimal w) }) refl
      refl)

All-append : (xs ys : List Text) → All IsWord xs → All IsWord ys → All IsWord (xs ++ ys)
All-append [] ys h k = k
All-append (x ∷ xs) ys (h, hs) k = (h, All-append xs ys hs k)

weight_words-IsWord : (b : Bool) (w : ℕ) → All IsWord (weight_words b (pos w))
unfolding is_space
weight_words-IsWord false w = tt
weight_words-IsWord true w = (refl, (int_text-Word w, tt))

flag_words-IsWord : (b : Bool) (w : Text) → IsWord w → All IsWord (flag_words b w)
flag_words-IsWord false w h = tt
flag_words-IsWord true w h = (h, tt)

options-IsWord :
    (weight backup check : Bool) (w : ℕ)
    → All IsWord (
        weight_words weight (pos w)
        ++ (flag_words backup (codes "backup") ++ flag_words check (codes "check")))
unfolding is_space
options-IsWord a b c w = All-append (weight_words a (pos w)) _ (weight_words-IsWord a w) (
    All-append (flag_words b (codes "backup")) (flag_words c (codes "check"))
      (flag_words-IsWord b (codes "backup") refl) (flag_words-IsWord c (codes "check") refl))

-- ParseServerLine reads back the line that backendLine writes: its name and its `check`, and the
-- target's host, port, weight and backup flag, where a weight of 0 or 1 is not written. The name
-- is a word, the host has no blank, colon or bracket, and port and weight are in int64's range.
pub parse_server_line-backend_line :
    (prefix : Text) (t : Target) (check : Bool)
    → IsWord prefix
    → t.host ≢ []
    → all_of is_host_char t.host ≡ true
    → Written t.port
    → Written t.weight
    → parse_server_line (backend_line prefix t check)
      ≡ some (record {
        name = prefix;
        address = t.host;
        port = t.port;
        weight = if weighted t then t.weight else pos 0;
        backup = t.backup;
        check = check;
      })
unfolding parse_server_line
parse_server_line-backend_line prefix t check word ne host (p, pe, plt) (w, we, wlt) =
    let words = prefix ∷ (t.host ++ codes ":" ++ int_text t.port) ∷ option_words t check in
    let heavy = int_lt (pos 0) (pos w) && not (int_eq (pos w) (pos 1)) in
    let all_words : All IsWord words = (
      word,
      (rw pe (address-IsWord t.host p ne host), rw we (options-IsWord heavy t.backup check w)),
    ) in
    let read : arguments (codes "server") (backend_line prefix t check) ≡ words =
      ap (arguments (codes "server")) (backend_line-spaced prefix t check)
      ∙ arguments-server (spaced words)
      ∙ fields-spaced words all_words in
    rw (read, pe, we, parse_server_line)
      (ap some (
        ap
          (server_options false (
            weight_words heavy (pos w)
            ++ (flag_words t.backup (codes "backup") ++ flag_words check (codes "check"))))
          (server_address-host prefix t.host p host plt)
        ∙ options_read heavy t.backup check w prefix t.host (pos p) wlt))
