-- ===== src/Imports/Haproxy/Headers.antt =====
-- Which sections ParseHAProxyConfig of internal/proxy/parser.go finds.
use portguard_v.Base.{
  Bool, true, false, List, [], ◌∷◌, ◌++◌, none, some, map, Text, codes, eqb, eqb_iff, trim_space,
  split, ◌≡◌, refl, sym, ap, subst, ◌∙◌, inl, inr, arith, Bool-cases, Option-cases, if◌then◌else◌,
}
use mathlib.Core.List.{map-append, append_assoc, append-nil}
use portguard_v.Base.Maps.{Map}
use portguard_v.Base.Words.{first_token}
use portguard_v.Imports.Haproxy.Model.{
  FrontendCfg, BackendCfg, ListenCfg, HaproxyCfg, Section, Pass, sec_none, sec_global, sec_defaults,
  sec_frontend, sec_backend, sec_listen, sec_unknown,
}
use portguard_v.Imports.Haproxy.Directives.{frontend_line, backend_section_line, listen_line}
use portguard_v.Imports.Haproxy.{
  section_header, open_section, section_line, is_comment, parse_line, parse_lines,
  parse_haproxy_config, update_last, empty_pass,
}

-- The sections that become mappings, or targets of some.
pub data Kind : Type 0 where
  frontend_kind backend_kind listen_kind : Kind

abbrev pub word_of : Kind → Text
word_of frontend_kind = codes "frontend"
word_of backend_kind = codes "backend"
word_of listen_kind = codes "listen"

abbrev pub names_of : Kind → HaproxyCfg → List Text
names_of frontend_kind c = map (λ (f : FrontendCfg). f.name) c.frontends
names_of backend_kind c = map (λ (b : BackendCfg). b.name) c.backends
names_of listen_kind c = map (λ (l : ListenCfg). l.name) c.listens

-- The names after the word of a kind in the header lines of a text, in order.
abbrev name_if : Bool → Text → List Text
name_if true rest = first_token (trim_space rest) ∷ []
name_if false rest = []

unfoldable pub header_name : Text → Text → List Text
header_name word raw =
    if is_comment (trim_space raw) then [] else elim (section_header (trim_space raw)) [
      | none ↦ []
      | some (sec, rest) ↦ name_if (eqb sec word) rest
    ]

abbrev pub header_names : Text → List Text → List Text
header_names word [] = []
header_names word (raw ∷ raws) = header_name word raw ++ header_names word raws

update_last-names :
    {A : Type 0} (name : A → Text) (f : A → A)
    → ((a : A) → name (f a) ≡ name a)
    → (as_ : List A) → map name (update_last f as_) ≡ map name as_
update_last-names name f h [] = refl
update_last-names name f h (a ∷ []) = ap (λ n. n ∷ []) (h a)
update_last-names name f h (a ∷ b ∷ bs) =
    ap (λ ns. name a ∷ ns) (update_last-names name f h (b ∷ bs))

frontend_line-name :
    (raw line : Text) (fe : FrontendCfg) → (frontend_line raw line fe).name ≡ fe.name
unfolding frontend_line
frontend_line-name raw line fe = ground arith

backend_section_line-name :
    (raw line : Text) (be : BackendCfg) → (backend_section_line raw line be).name ≡ be.name
unfolding backend_section_line
backend_section_line-name raw line be = ground arith

listen_line-name : (raw line : Text) (li : ListenCfg) → (listen_line raw line li).name ≡ li.name
unfolding listen_line
listen_line-name raw line li = ground arith

-- The claim of the next lemma about one word.
abbrev Opens : Kind → Text → Pass → Text → Type 0
Opens k rest p sec =
    names_of k (open_section sec rest p).cfg
    ≡ names_of k p.cfg ++ name_if (eqb sec (word_of k)) rest

open_global : (k : Kind) (rest : Text) (p : Pass) → Opens k rest p (codes "global")
unfolding open_section eqb
open_global frontend_kind rest p = sym (append-nil (names_of frontend_kind p.cfg))
open_global backend_kind rest p = sym (append-nil (names_of backend_kind p.cfg))
open_global listen_kind rest p = sym (append-nil (names_of listen_kind p.cfg))

open_defaults : (k : Kind) (rest : Text) (p : Pass) → Opens k rest p (codes "defaults")
unfolding open_section eqb
open_defaults frontend_kind rest p = sym (append-nil (names_of frontend_kind p.cfg))
open_defaults backend_kind rest p = sym (append-nil (names_of backend_kind p.cfg))
open_defaults listen_kind rest p = sym (append-nil (names_of listen_kind p.cfg))

open_frontend : (k : Kind) (rest : Text) (p : Pass) → Opens k rest p (codes "frontend")
unfolding open_section eqb
open_frontend frontend_kind rest p = map-append _ p.cfg.frontends _
open_frontend backend_kind rest p = sym (append-nil (names_of backend_kind p.cfg))
open_frontend listen_kind rest p = sym (append-nil (names_of listen_kind p.cfg))

open_backend : (k : Kind) (rest : Text) (p : Pass) → Opens k rest p (codes "backend")
unfolding open_section eqb
open_backend frontend_kind rest p = sym (append-nil (names_of frontend_kind p.cfg))
open_backend backend_kind rest p = map-append _ p.cfg.backends _
open_backend listen_kind rest p = sym (append-nil (names_of listen_kind p.cfg))

open_listen : (k : Kind) (rest : Text) (p : Pass) → Opens k rest p (codes "listen")
unfolding open_section eqb
open_listen frontend_kind rest p = sym (append-nil (names_of frontend_kind p.cfg))
open_listen backend_kind rest p = sym (append-nil (names_of backend_kind p.cfg))
open_listen listen_kind rest p = map-append _ p.cfg.listens _

open_other :
    (k : Kind) (sec rest : Text) (p : Pass)
    → eqb sec (codes "global") ≡ false
    → eqb sec (codes "defaults") ≡ false
    → eqb sec (codes "frontend") ≡ false
    → eqb sec (codes "backend") ≡ false
    → eqb sec (codes "listen") ≡ false
    → Opens k rest p sec
unfolding open_section
open_other frontend_kind sec rest p a b c d e =
    rw (a, b, c, d, e, open_section) (sym (append-nil (names_of frontend_kind p.cfg)))
open_other backend_kind sec rest p a b c d e =
    rw (a, b, c, d, e, open_section) (sym (append-nil (names_of backend_kind p.cfg)))
open_other listen_kind sec rest p a b c d e =
    rw (a, b, c, d, e, open_section) (sym (append-nil (names_of listen_kind p.cfg)))

open_section-names : (k : Kind) (sec rest : Text) (p : Pass) → Opens k rest p sec
open_section-names k sec rest p =
    let at : (w : Text) → Opens k rest p w → eqb sec w ≡ true → Opens k rest p sec =
      λ w o e. subst (Opens k rest p) (sym ((eqb_iff sec w).0 e)) o in
    elim (Bool-cases (eqb sec (codes "global"))) [
      | inl e ↦ at (codes "global") (open_global k rest p) e
      | inr e0 ↦ elim (Bool-cases (eqb sec (codes "defaults"))) [
        | inl e ↦ at (codes "defaults") (open_defaults k rest p) e
        | inr e1 ↦ elim (Bool-cases (eqb sec (codes "frontend"))) [
          | inl e ↦ at (codes "frontend") (open_frontend k rest p) e
          | inr e2 ↦ elim (Bool-cases (eqb sec (codes "backend"))) [
            | inl e ↦ at (codes "backend") (open_backend k rest p) e
            | inr e3 ↦ elim (Bool-cases (eqb sec (codes "listen"))) [
              | inl e ↦ at (codes "listen") (open_listen k rest p) e
              | inr e4 ↦ open_other k sec rest p e0 e1 e2 e3 e4
            ]
          ]
        ]
      ]
    ]

section_line-names :
    (k : Kind) (raw line : Text) (c : HaproxyCfg) (s : Section) (u : Map (List Text))
    → names_of k (section_line raw line (record { cfg = c; cur = s; unknown_lines = u })).cfg
      ≡ names_of k c
unfolding section_line
section_line-names frontend_kind raw line c sec_none u = refl
section_line-names backend_kind raw line c sec_none u = refl
section_line-names listen_kind raw line c sec_none u = refl
section_line-names frontend_kind raw line c sec_global u = refl
section_line-names backend_kind raw line c sec_global u = refl
section_line-names listen_kind raw line c sec_global u = refl
section_line-names frontend_kind raw line c sec_defaults u = refl
section_line-names backend_kind raw line c sec_defaults u = refl
section_line-names listen_kind raw line c sec_defaults u = refl
section_line-names frontend_kind raw line c sec_frontend u =
    update_last-names (λ a. a.name) (frontend_line raw line) (frontend_line-name raw line)
      c.frontends
section_line-names backend_kind raw line c sec_frontend u = refl
section_line-names listen_kind raw line c sec_frontend u = refl
section_line-names frontend_kind raw line c sec_backend u = refl
section_line-names backend_kind raw line c sec_backend u =
    update_last-names (λ a. a.name) (backend_section_line raw line)
      (backend_section_line-name raw line) c.backends
section_line-names listen_kind raw line c sec_backend u = refl
section_line-names frontend_kind raw line c sec_listen u = refl
section_line-names backend_kind raw line c sec_listen u = refl
section_line-names listen_kind raw line c sec_listen u =
    update_last-names (λ a. a.name) (listen_line raw line) (listen_line-name raw line) c.listens
section_line-names frontend_kind raw line c (sec_unknown key) u = refl
section_line-names backend_kind raw line c (sec_unknown key) u = refl
section_line-names listen_kind raw line c (sec_unknown key) u = refl

parse_line-names :
    (k : Kind) (raw : Text) (p : Pass)
    → names_of k (parse_line raw p).cfg ≡ names_of k p.cfg ++ header_name (word_of k) raw
unfolding parse_line header_name
parse_line-names k raw p =
    let line = trim_space raw in
    elim (Bool-cases (is_comment line)) [
      | inl e ↦ rw (e, parse_line, header_name) (sym (append-nil (names_of k p.cfg)))
      | inr e ↦ elim (Option-cases (section_header line)) [
        | inl n ↦
            rw (e, n, parse_line, header_name)
              (section_line-names k raw line p.cfg p.cur p.unknown_lines
                ∙ sym (append-nil (names_of k p.cfg)))
        | inr ((sec, rest), n) ↦
            rw (e, n, parse_line, header_name) (open_section-names k sec rest p)
      ]
    ]

parse_lines-names :
    (k : Kind) (raws : List Text) (p : Pass)
    → names_of k (parse_lines raws p).cfg ≡ names_of k p.cfg ++ header_names (word_of k) raws
unfolding parse_lines
parse_lines-names k [] p = sym (append-nil (names_of k p.cfg))
parse_lines-names k (raw ∷ raws) p =
    parse_lines-names k raws (parse_line raw p)
    ∙ ap (λ ns. ns ++ header_names (word_of k) raws) (parse_line-names k raw p)
    ∙ append_assoc (names_of k p.cfg) (header_name (word_of k) raw) (header_names (word_of k) raws)

-- The frontends, the backends and the listen sections of a parsed text are those of its header
-- lines: all of them, by their names and in their order.
pub parse_haproxy_config-names :
    (k : Kind) (text : Text)
    → names_of k (parse_haproxy_config text) ≡ header_names (word_of k) (split b'\n' text)
unfolding parse_haproxy_config
parse_haproxy_config-names frontend_kind text =
    parse_lines-names frontend_kind (split b'\n' text) empty_pass
parse_haproxy_config-names backend_kind text =
    parse_lines-names backend_kind (split b'\n' text) empty_pass
parse_haproxy_config-names listen_kind text =
    parse_lines-names listen_kind (split b'\n' text) empty_pass
