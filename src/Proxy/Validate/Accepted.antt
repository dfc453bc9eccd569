-- ===== src/Proxy/Validate/Accepted.antt =====
-- What ValidateMapping promises of a mapping that it accepts.
use portguard_v.Base.{
  ℕ, ◌≤◌, true, false, not, ◌&&◌, ◌||◌, List, [], ◌∷◌, none, Text, codes, eqb, eqb_iff, ℤ, int_eq,
  int_eq_iff, Within, within_of_tests, ◌≡◌, ap, ◌≢◌, ◌⊎◌, inl, inr, arith, In, fail_if, for_each,
  fail_if-none, for_each-In, is_some, is_empty,
}
use portguard_v.Proxy.Model.{Mapping, Target}
use portguard_v.Proxy.Validate.Names.{Lib, has_control_chars, valid_engine, valid_hostname}
use portguard_v.Proxy.Validate.Rules.{server_names_control, extra_headers_control, bad_port}
use portguard_v.Proxy.Validate.{
  validate_texts, validate_listener, validate_target, conflict_with, validate_mapping,
}
use portguard_v.Proxy.Validate.Conflicts.{Clash, conflict_with_iff}

-- No code point of the text can end or disguise a directive.
abbrev pub IsPlain : Lib → Text → Type 0
IsPlain lib t =
    (c : ℕ) → In c t → (32 ≤ c) × (c ≢ 127) × (lib.is_control c ≡ false) × (lib.is_format c ≡ false)

-- A target that can be dialled.
pub record IsDialable (lib : Lib) (t : Target) : Type 0 where
  pub host : t.host ≢ []
  pub port : Within 1 65535 t.port
  pub known : (lib.parse_ip t.host ≡ true) ⊎ (valid_hostname t.host ≡ true)

pub record IsAccepted (lib : Lib) (m : Mapping) (others : List Mapping) (panel : ℤ) : Type 0 where
  pub engine : (m.engine ≡ codes "nginx") ⊎ (m.engine ≡ codes "haproxy")
  pub port : Within 1 65535 m.listen_port
  pub not_panel : m.listen_port ≢ panel
  pub address : lib.parse_ip m.listen_ip ≡ true
  pub not_udp : m.engine ≡ codes "haproxy" → m.protocol ≢ codes "udp"
  pub cert : m.protocol ≡ codes "https" → m.ssl_cert_id ≢ none
  pub plain_name : IsPlain lib m.name
  pub plain_names : (t : Text) → In t m.server_names → IsPlain lib t
  pub plain_host : IsPlain lib m.host_header
  pub plain_redirect : IsPlain lib m.redirect_to
  pub plain_headers :
      (kv : Text × Text) → In kv m.extra_headers → IsPlain lib kv.0 × IsPlain lib kv.1
  pub dialable : (t : Target) → In t m.targets → IsDialable lib t
  pub no_clash : (o : Mapping) → In o others → o.id ≢ m.id → ¬ Clash o m

module _ (lib : Lib) where
  has_control_chars-IsPlain : (t : Text) → has_control_chars lib t ≡ false → IsPlain lib t
  unfolding has_control_chars
  has_control_chars-IsPlain [] h c m = absurd m
  has_control_chars-IsPlain (r ∷ s) h c (inl e) = ground (arith, e)
  has_control_chars-IsPlain (r ∷ s) h c (inr m) = has_control_chars-IsPlain s (ground arith) c m

  validate_target-IsDialable : (t : Target) → validate_target lib t ≡ none → IsDialable lib t
  unfolding validate_target
  validate_target-IsDialable t h = record {
    host = λ e. ground (arith, ap is_empty e);
    port = within_of_tests 1 65535 t.port (ground arith);
    known = ground arith;
  }

  module _ (m : Mapping) where
    listener_tests :
        validate_listener lib m ≡ none
        → (valid_engine m.engine ≡ true)
          × (bad_port m.listen_port ≡ false)
          × (lib.parse_ip m.listen_ip ≡ true)
          × ((eqb m.protocol (codes "udp") && eqb m.engine (codes "haproxy")) ≡ false)
          × ((eqb m.protocol (codes "https") && not (is_some m.ssl_cert_id)) ≡ false)
    unfolding validate_listener
    listener_tests h = (ground arith, ground arith, ground arith, ground arith, ground arith)

    text_checks :
        validate_texts lib m ≡ none
        → (has_control_chars lib m.name ≡ false)
          × (for_each (λ t. fail_if (has_control_chars lib t) server_names_control) m.server_names
              ≡ none)
          × (has_control_chars lib m.host_header ≡ false)
          × (has_control_chars lib m.redirect_to ≡ false)
          × (for_each
                (λ kv.
                  fail_if
                    (has_control_chars lib kv.0 || has_control_chars lib kv.1)
                    extra_headers_control)
                m.extra_headers
              ≡ none)
    unfolding validate_texts
    text_checks h = (ground arith, ground arith, ground arith, ground arith, ground arith)

    module _ (others : List Mapping) (panel : ℤ) where
      parts :
          validate_mapping lib m others panel ≡ none
          → (validate_texts lib m ≡ none)
            × (validate_listener lib m ≡ none)
            × (for_each (validate_target lib) m.targets ≡ none)
            × (int_eq m.listen_port panel ≡ false)
            × (for_each (conflict_with m) others ≡ none)
      unfolding validate_mapping
      parts h = (ground arith, ground arith, ground arith, ground arith, ground arith)

-- An engine that passes the test is one of the two.
valid_engine-cases :
    (e : Text) → valid_engine e ≡ true → (e ≡ codes "nginx") ⊎ (e ≡ codes "haproxy")
unfolding valid_engine
valid_engine-cases e h = ground (arith, eqb_iff e (codes "nginx"), eqb_iff e (codes "haproxy"))

-- A mapping that is accepted names one of the two engines; listens at a valid address on a port
-- from 1 to 65535 that is not the panel's; is not UDP on HAProxy; has a certificate if it is
-- https; has no control or format character in its name, server names, host header, redirect and
-- headers; has only targets with a known host and a port from 1 to 65535; and does not clash with
-- any other mapping of the list that has another identifier.
pub validate_mapping-IsAccepted :
    (lib : Lib) (m : Mapping) (others : List Mapping) (panel : ℤ)
    → validate_mapping lib m others panel ≡ none
    → IsAccepted lib m others panel
validate_mapping-IsAccepted lib m others panel h =
    let (texts, listener, targets, panel_ne, free) = parts lib m others panel h in
    let (name, names, host, redirect, headers) = text_checks lib m texts in
    let (engine, port, ip, udp, https) = listener_tests lib m listener in
    record {
      engine = valid_engine-cases m.engine engine;
      port = within_of_tests 1 65535 m.listen_port port;
      not_panel = λ e. ground (arith, (int_eq_iff m.listen_port panel).1 e);
      address = ip;
      not_udp = λ e f.
          ground (
            arith,
            (eqb_iff m.engine (codes "haproxy")).1 e,
            (eqb_iff m.protocol (codes "udp")).1 f,
          );
      cert = λ e f. ground (arith, (eqb_iff m.protocol (codes "https")).1 e, ap is_some f);
      plain_name = has_control_chars-IsPlain lib m.name name;
      plain_names = λ t i.
          has_control_chars-IsPlain lib t
            (fail_if-none _ _ (for_each-In _ m.server_names t names i));
      plain_host = has_control_chars-IsPlain lib m.host_header host;
      plain_redirect = has_control_chars-IsPlain lib m.redirect_to redirect;
      plain_headers = λ kv i.
          let e = fail_if-none _ _ (for_each-In _ m.extra_headers kv headers i) in
          (
            has_control_chars-IsPlain lib kv.0 (ground arith),
            has_control_chars-IsPlain lib kv.1 (ground arith),
          );
      dialable = λ t i. validate_target-IsDialable lib t (for_each-In _ m.targets t targets i);
      no_clash = λ o i ne c. elim ((conflict_with_iff m o).0 (for_each-In _ others o free i)) [
        | inl same ↦ ne same
        | inr free_of_clash ↦ free_of_clash c
      ];
    }
