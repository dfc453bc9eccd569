-- ===== src/Render/Bind.antt =====
-- ParseBindLine of internal/proxy/parser.go reads the listener that Render of
-- internal/proxy/haproxy.go writes, with words behind it.
use portguard_v.Base.{
  ℕ, ◌^◌, ◌<◌, Bool, true, false, not, ◌&&◌, ◌||◌, [], ◌∷◌, ◌++◌, none, some, Text, codes, eqb,
  is_empty, is_space, all_of, contains, has_prefix, strip_prefix, trim_prefix, trim_space, trim,
  trim_left, ℤ, pos, ◌≡◌, refl, sym, ap, subst, ◌∙◌, List, All, inl, inr, arith, if◌then◌else◌,
  Bool-cases, ◌==◌,
}
use mathlib.Core.List.{append_assoc}
use portguard_v.Base.Decimal.{decimal, decimal-all_of, decimal-head, all_of-append}
use portguard_v.Base.Words.{
  fields, Word, fields-trim_space, fields-trim_right, trim_right-append, count, cut, cut_last,
  spaced, IsWord, fields-spaced, atoi_value-decimal,
}
use portguard_v.Proxy.Model.{Mapping}
use portguard_v.Imports.Haproxy.Lines.{
  BindCfg, arguments, bracketed, bind_address, bind_options, parse_bind_line,
}
use portguard_v.Imports.Haproxy.Address.{digits-count, digits-Word}
use portguard_v.Render.{bind_line}
use portguard_v.Render.Pieces.{bind_ip}

-- A character of an address: no blank and no bracket.
abbrev pub is_ip_char : ℕ → Bool
is_ip_char c = not (is_space c) && not (c == b'[') && not (c == b']')

abbrev pub read_bind : Text → ℤ → BindCfg
read_bind ip port = record { ip = ip; port = port; ssl = false; crt = []; extra = [] }

arguments-bind : (s : Text) → arguments (codes "bind") (codes "bind" ++ s) ≡ fields s
unfolding arguments trim_space trim trim_left is_space trim_prefix strip_prefix
arguments-bind s =
    ap (λ u. fields (trim_space (trim_prefix u (codes "bind"))))
      (trim_right-append (codes "bind") s refl)
    ∙ fields-trim_space _
    ∙ fields-trim_right s

cut_last-count : (d : ℕ) (s : Text) → count d s ≡ 0 → cut_last d s ≡ none
unfolding cut_last count
cut_last-count d [] h = refl
cut_last-count d (c ∷ s) h = ground (arith, cut_last-count d s (ground arith))

cut_last-append : (d : ℕ) (s t : Text) → count d t ≡ 0 → cut_last d (s ++ d ∷ t) ≡ some (s, t)
unfolding cut_last
cut_last-append d [] t h = ground (arith, cut_last-count d t h)
cut_last-append d (c ∷ s) t h = rw (cut_last-append d s t h) refl

cut-ip : (s t : Text) → all_of is_ip_char s ≡ true → cut b']' (s ++ b']' ∷ t) ≡ some (s, t)
unfolding cut
cut-ip [] t h = refl
cut-ip (c ∷ s) t h =
    let other : (c == b']') ≡ false = ground arith in rw (other, cut-ip s t (ground arith)) refl

ip-Word : (s : Text) → all_of is_ip_char s ≡ true → Word s
ip-Word [] h = refl
ip-Word (c ∷ s) h = ground (arith, ip-Word s (ground arith))

-- The address and the options behind it.
parse_bind_line-spaced :
    (addr : Text) (opts : List Text)
    → All IsWord (addr ∷ opts)
    → parse_bind_line (codes "bind" ++ spaced (addr ∷ opts)) ≡ bind_options opts (bind_address addr)
unfolding parse_bind_line
parse_bind_line-spaced addr opts h =
    let words : arguments (codes "bind") (codes "bind" ++ spaced (addr ∷ opts)) ≡ addr ∷ opts =
      arguments-bind (spaced (addr ∷ opts)) ∙ fields-spaced (addr ∷ opts) h in
    rw (words, parse_bind_line) refl

-- An address without brackets, and one in brackets.
bind_address-plain :
    (c : ℕ) (ip : Text) (n : ℕ)
    → all_of is_ip_char (c ∷ ip) ≡ true
    → n < 2 ^ 63
    → bind_address ((c ∷ ip) ++ b':' ∷ decimal n) ≡ read_bind (c ∷ ip) (pos n)
unfolding bind_address has_prefix strip_prefix
bind_address-plain c ip n h lt =
    let open_ : has_prefix ((c ∷ ip) ++ b':' ∷ decimal n) (codes "[") ≡ false = ground arith in
    let split =
      cut_last-append b':' (c ∷ ip) (decimal n) (digits-count (decimal n) (decimal-all_of n)) in
    rw (open_, split, atoi_value-decimal n lt, bind_address) refl

decimal-not_empty : (n : ℕ) → is_empty (decimal n) ≡ false
decimal-not_empty n = let (c, s, e, d, r) = decimal-head n in rw e refl

bracketed-ip :
    (c : ℕ) (ip : Text) (n : ℕ)
    → all_of is_ip_char (c ∷ ip) ≡ true
    → bracketed (b'[' ∷ (c ∷ ip) ++ codes "]:" ++ decimal n) ≡ some (c ∷ ip, decimal n)
unfolding bracketed
bracketed-ip c ip n h =
    let split : cut b']' ((c ∷ ip) ++ codes "]:" ++ decimal n) ≡ some (c ∷ ip, b':' ∷ decimal n) =
      ap (cut b']') (append_assoc (c ∷ ip) (codes "]:") (decimal n))
      ∙ cut-ip (c ∷ ip) (b':' ∷ decimal n) h in
    rw (split, decimal-not_empty n, decimal-all_of n, bracketed) refl

bind_address-bracketed :
    (c : ℕ) (ip : Text) (n : ℕ)
    → all_of is_ip_char (c ∷ ip) ≡ true
    → n < 2 ^ 63
    → bind_address (b'[' ∷ (c ∷ ip) ++ codes "]:" ++ decimal n) ≡ read_bind (c ∷ ip) (pos n)
unfolding bind_address has_prefix strip_prefix
bind_address-bracketed c ip n h lt =
    rw (bracketed-ip c ip n h, atoi_value-decimal n lt, bind_address) refl

address-Word :
    (c : ℕ) (ip tail : Text) (n : ℕ)
    → all_of is_ip_char (c ∷ ip) ≡ true
    → Word tail
    → Word ((c ∷ ip) ++ tail ++ decimal n)
address-Word c ip tail n h k =
    rw
      (
        all_of-append (λ c. not (is_space c)) ((c ∷ ip) ++ tail) (decimal n),
        all_of-append (λ c. not (is_space c)) (c ∷ ip) tail,
        ip-Word (c ∷ ip) h,
        digits-Word (decimal n) (decimal-all_of n),
        k,
      )
      refl

-- The addresses that are written, and read, as `*`.
abbrev pub is_any : Text → Bool
is_any ip = is_empty ip || eqb ip (codes "0.0.0.0") || eqb ip (codes "::")

bind_ip-any : (ip : Text) → is_any ip ≡ true → bind_ip ip ≡ codes "*"
unfolding bind_ip
bind_ip-any ip h = ground arith

bind_ip-bracketed :
    (ip : Text)
    → is_any ip ≡ false
    → contains ip (codes ":") ≡ true
    → bind_ip ip ≡ codes "[" ++ ip ++ codes "]"
unfolding bind_ip
bind_ip-bracketed ip h k = ground arith

bind_ip-plain : (ip : Text) → is_any ip ≡ false → contains ip (codes ":") ≡ false → bind_ip ip ≡ ip
unfolding bind_ip
bind_ip-plain ip h k = ground arith

-- A word that is read as a listener.
abbrev Reads : Text → BindCfg → Type 0
Reads addr b = IsWord addr × (bind_address addr ≡ b)

plain-Reads :
    (c : ℕ) (ip : Text) (n : ℕ)
    → all_of is_ip_char (c ∷ ip) ≡ true
    → n < 2 ^ 63
    → Reads ((c ∷ ip) ++ codes ":" ++ decimal n) (read_bind (c ∷ ip) (pos n))
unfolding is_space
plain-Reads c ip n h lt = (
  address-Word c ip (codes ":") n h refl,
  ap bind_address (append_assoc (c ∷ ip) (codes ":") (decimal n)) ∙ bind_address-plain c ip n h lt,
)

any-Reads :
    (n : ℕ)
    → n < 2 ^ 63
    → Reads (codes "*" ++ codes ":" ++ decimal n) (read_bind (codes "*") (pos n))
unfolding is_space
any-Reads n lt = plain-Reads b'*' [] n refl lt

bracketed-Reads :
    (c : ℕ) (ip : Text) (n : ℕ)
    → all_of is_ip_char (c ∷ ip) ≡ true
    → n < 2 ^ 63
    → Reads
        ((codes "[" ++ (c ∷ ip) ++ codes "]") ++ codes ":" ++ decimal n)
        (read_bind (c ∷ ip) (pos n))
unfolding is_space
bracketed-Reads c ip n h lt =
    subst (λ u. Reads (b'[' ∷ (u ++ decimal n)) (read_bind (c ∷ ip) (pos n)))
      (sym (append_assoc (c ∷ ip) (codes "]") (codes ":")))
      (address-Word c ip (codes "]:") n h refl, bind_address-bracketed c ip n h lt)

abbrev result : Text → ℕ → Bool → BindCfg
result ip n any_ = read_bind (if any_ then codes "*" else ip) (pos n)

bind_ip-Reads :
    (ip : Text) (n : ℕ)
    → n < 2 ^ 63
    → all_of is_ip_char ip ≡ true
    → Reads (bind_ip ip ++ codes ":" ++ decimal n) (result ip n (is_any ip))
bind_ip-Reads [] n lt h = rw (bind_ip-any [] refl) (any-Reads n lt)
bind_ip-Reads (c ∷ ip) n lt h = elim (Bool-cases (is_any (c ∷ ip))) [
  | inl wild ↦ rw (bind_ip-any (c ∷ ip) wild, wild) (any-Reads n lt)
  | inr own ↦ elim (Bool-cases (contains (c ∷ ip) (codes ":"))) [
    | inl six ↦ rw (bind_ip-bracketed (c ∷ ip) own six, own) (bracketed-Reads c ip n h lt)
    | inr four ↦ rw (bind_ip-plain (c ∷ ip) own four, own) (plain-Reads c ip n h lt)
  ]
]

-- What a mapping's listener is read as.
abbrev pub listener : Mapping → ℕ → BindCfg
listener m n = result m.listen_ip n (is_any m.listen_ip)

pub bind_line-spaced :
    (m : Mapping) (n : ℕ) (opts : List Text)
    → m.listen_port ≡ pos n
    → n < 2 ^ 63
    → all_of is_ip_char m.listen_ip ≡ true
    → All IsWord opts
    → parse_bind_line (bind_line m ++ spaced opts) ≡ bind_options opts (listener m n)
bind_line-spaced m n opts e lt h w =
    let (word, reads) = bind_ip-Reads m.listen_ip n lt h in
    rw e (
      parse_bind_line-spaced (bind_ip m.listen_ip ++ codes ":" ++ decimal n) opts (word, w)
      ∙ ap (bind_options opts) reads)
