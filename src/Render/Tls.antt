-- ===== src/Render/Tls.antt =====
-- ParseBindLine of internal/proxy/parser.go reads the bind that Render of internal/proxy/haproxy.go
-- writes, its certificate included.
use portguard_v.Base.{
  ℕ, ◌^◌, ◌<◌, Bool, true, false, not, ◌&&◌, [], ◌∷◌, ◌++◌, none, some, Text, codes, eqb, is_space,
  all_of, ℤ, pos, ◌≡◌, refl, sym, ap, ◌∙◌, List, All, inl, inr, arith, if◌then◌else◌, Bool-cases,
  Option-cases, ==_iff, ◌==◌,
}
use mathlib.Core.List.{append-nil}
use portguard_v.Base.Words.{Word, spaced, IsWord}
use portguard_v.Proxy.Model.{Mapping}
use portguard_v.Imports.Haproxy.Lines.{BindCfg, bind_options, parse_bind_line}
use portguard_v.Imports.Haproxy.Lines.{int_text}
use portguard_v.Render.{bind_line, bind_directive, pem_path}
use portguard_v.Render.Pieces.{escape_ha, posix_join}
use portguard_v.Render.Bind.{is_ip_char, listener, bind_line-spaced}

-- A character that escapeHA keeps and that does not end a word.
abbrev pub is_path_char : ℕ → Bool
is_path_char c = not (is_space c) && not (c == b'#')

space-is_space : is_space b' ' ≡ true
unfolding is_space
space-is_space = refl

newline-is_space : is_space b'\n' ≡ true
unfolding is_space
newline-is_space = refl

unlike_space : (c d : ℕ) → is_space d ≡ true → is_space c ≡ false → (c == d) ≡ false
unlike_space c d h k = elim (Bool-cases (c == d)) [
  | inr n ↦ n
  | inl e ↦ absurd (let z : true ≡ false = sym h ∙ sym (ap is_space ((==_iff c d).0 e)) ∙ k in cc)
]

path_char-is_space : (c : ℕ) → is_path_char c ≡ true → is_space c ≡ false
path_char-is_space c h = ground arith

path_char-hash : (c : ℕ) → is_path_char c ≡ true → (c == b'#') ≡ false
path_char-hash c h = ground arith

escape_ha-plain : (s : Text) → all_of is_path_char s ≡ true → escape_ha s ≡ s
unfolding escape_ha
escape_ha-plain [] h = refl
escape_ha-plain (c ∷ s) h =
    let here : is_path_char c ≡ true = ground arith in
    let rest : all_of is_path_char s ≡ true = ground arith in
    let solid = path_char-is_space c here in
    rw
      (
        unlike_space c b' ' space-is_space solid,
        unlike_space c b'\n' newline-is_space solid,
        path_char-hash c here,
      )
      (ap (λ t. c ∷ t) (escape_ha-plain s rest))

path-Word : (s : Text) → all_of is_path_char s ≡ true → Word s
path-Word [] h = refl
path-Word (c ∷ s) h = ground (arith, path-Word s (ground arith))

none-some : (a : Text) → none ≡ some a → ⊥
none-some a e = ground arith

some-injective : (a b : Text) → some a ≡ some b → a ≡ b
some-injective a b e = ground arith

abbrev alpn : Mapping → List Text
alpn m = if m.http2 then codes "alpn" ∷ codes "h2,http/1.1" ∷ [] else []

spaced-alpn : (m : Mapping) → spaced (alpn m) ≡ (if m.http2 then codes " alpn h2,http/1.1" else [])
spaced-alpn m = elim (Bool-cases m.http2) [ inl y ↦ rw y refl | inr n ↦ rw n refl ]

alpn-IsWord : (m : Mapping) → All IsWord (alpn m)
unfolding is_space
alpn-IsWord m = elim (Bool-cases m.http2) [ inl y ↦ rw y (refl, (refl, tt)) | inr n ↦ rw n tt ]

-- A certificate's path starts with a slash, so it is neither of the two keywords.
tls_read :
    (m : Mapping) (r : Text) (b : BindCfg)
    → bind_options (codes "ssl" ∷ codes "crt" ∷ (b'/' ∷ r) ∷ alpn m) b
      ≡ record b { ssl = true; crt = b'/' ∷ r }
unfolding bind_options eqb
tls_read m r b = elim (Bool-cases m.http2) [ inl y ↦ rw y refl | inr n ↦ rw n refl ]

tls_directive :
    (m : Mapping) (n : ℕ) (r : Text)
    → m.listen_port ≡ pos n
    → n < 2 ^ 63
    → all_of is_ip_char m.listen_ip ≡ true
    → all_of is_path_char (b'/' ∷ r) ≡ true
    → parse_bind_line (
        bind_line m
        ++ (codes " ssl crt "
            ++ ((b'/' ∷ r) ++ (if m.http2 then codes " alpn h2,http/1.1" else []))))
      ≡ record (listener m n) { ssl = true; crt = b'/' ∷ r }
unfolding is_space
tls_directive m n r e lt h plain =
    ap (λ u. parse_bind_line (bind_line m ++ (codes " ssl crt " ++ ((b'/' ∷ r) ++ u))))
      (sym (spaced-alpn m))
    ∙ bind_line-spaced m n (codes "ssl" ∷ codes "crt" ∷ (b'/' ∷ r) ∷ alpn m) e lt h
        (refl, (refl, (path-Word (b'/' ∷ r) plain, alpn-IsWord m)))
    ∙ tls_read m r (listener m n)

posix_join-slash : (a b : Text) → (r : Text) × (posix_join a b ≡ b'/' ∷ r)
unfolding posix_join
posix_join-slash a b = (_, refl)

-- What the bind of a mapping is read as.
abbrev pub bind_read : Text → Mapping → ℕ → BindCfg
bind_read certs_dir m n =
    if eqb m.protocol (codes "https")
    then elim m.ssl_cert_id [
      | none ↦ listener m n
      | some cert ↦ record (listener m n) { ssl = true; crt = pem_path certs_dir cert }
    ]
    else listener m n

-- The path of the certificate has no blank and no `#`.
abbrev pub HasPlainPem : Text → Mapping → Type 0
HasPlainPem certs_dir m =
    (cert : ℤ) → m.ssl_cert_id ≡ some cert → all_of is_path_char (pem_path certs_dir cert) ≡ true

certificate_read :
    (certs_dir : Text) (m : Mapping) (n : ℕ) (cert : ℤ)
    → m.listen_port ≡ pos n
    → n < 2 ^ 63
    → all_of is_ip_char m.listen_ip ≡ true
    → all_of is_path_char (pem_path certs_dir cert) ≡ true
    → parse_bind_line (
        bind_line m
        ++ (codes " ssl crt "
            ++ (escape_ha (pem_path certs_dir cert)
                ++ (if m.http2 then codes " alpn h2,http/1.1" else []))))
      ≡ record (listener m n) { ssl = true; crt = pem_path certs_dir cert }
certificate_read certs_dir m n cert e lt h plain =
    let (r, slash) = posix_join-slash certs_dir (int_text cert ++ codes ".pem") in
    let plain' : all_of is_path_char (b'/' ∷ r) ≡ true = rw slash at plain in
    rw (escape_ha-plain (pem_path certs_dir cert) plain, slash) (tls_directive m n r e lt h plain')

-- ParseBindLine reads the whole bind that Render writes for a mapping: the port, the address, of IPv4
-- or IPv6, `*` for an address that is empty, 0.0.0.0 or ::, and for https the certificate's file,
-- with or without HTTP/2. The address has no blank and no bracket, the certificate's path no blank
-- and no `#`, and the port is in int64's range.
pub parse_bind_line-bind_directive :
    (certs_dir : Text) (m : Mapping) (n : ℕ) (line : Text)
    → bind_directive certs_dir m ≡ some line
    → m.listen_port ≡ pos n
    → n < 2 ^ 63
    → all_of is_ip_char m.listen_ip ≡ true
    → HasPlainPem certs_dir m
    → parse_bind_line line ≡ bind_read certs_dir m n
unfolding bind_directive bind_options
parse_bind_line-bind_directive certs_dir m n line d e lt h plain =
    elim (Bool-cases (eqb m.protocol (codes "https"))) [
      | inr other ↦
          let same : bind_line m ≡ line = some-injective _ _ (rw (other, bind_directive) at d) in
          rw other (
            ap parse_bind_line (sym same ∙ sym (append-nil (bind_line m)))
            ∙ bind_line-spaced m n [] e lt h tt)
      | inl https ↦ elim (Option-cases m.ssl_cert_id) [
        | inl missing ↦ absurd (none-some line (rw (https, missing, bind_directive) at d))
        | inr (cert, there) ↦
            let same = some-injective _ _ (rw (https, there, bind_directive) at d) in
            rw (https, there)
              (ap parse_bind_line (sym same)
                ∙ certificate_read certs_dir m n cert e lt h (plain cert there))
      ]
    ]
