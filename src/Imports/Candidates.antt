-- ===== src/Imports/Candidates.antt =====
-- What every candidate of a scan looks like: nginx's are disabled, HAProxy's are enabled.
use portguard_v.Base.{
  Bool, true, false, ◌&&◌, List, [], ◌∷◌, ◌++◌, Option, none, some, map, Text, codes, is_empty, ℤ,
  pos, ◌≡◌, ◌⊎◌, refl, sym, inl, inr, arith, In, All, All-In, length, ◌==◌, if◌then◌else◌,
  Bool-cases, Option-cases, is_some, ◌∙◌,
}
use mathlib.Core.List.{filter_map}
use portguard_v.Base.Maps.{Map}
use portguard_v.Proxy.Model.{Mapping}
use portguard_v.Proxy.Validate.{validate_mapping, validate_http, no_texts}
use portguard_v.Proxy.Validate.Names.{Lib}
use portguard_v.Proxy.Validate.Rules.{is_http}
use portguard_v.Imports.Conversion.{Conversion, add_issue, add_mapping}
use portguard_v.Imports.Haproxy.Model.{FrontendCfg, ListenCfg, HaproxyCfg}
use portguard_v.Imports.Haproxy.Convert.{
  Outcome, convert_frontend, convert_listen, issue, candidate_mapping, add_outcome, add_outcomes,
  only_bind, haproxy_outcomes, haproxy_cfg_to_mappings, frontend_mapping, listen_mapping,
  target_backend, find_backend, no_rules,
}
use portguard_v.Imports.Haproxy.{parse_haproxy_config}
use portguard_v.Imports.Nginx.{parse_nginx_config}
use portguard_v.Imports.Nginx.Model.{NginxServer}
use portguard_v.Imports.Nginx.Convert.{
  convert_http, convert_stream, report_http, report_stream, none_of, stream_targets, first_location,
  each, nginx_sites_to_mappings, stream_mapping, http_mapping,
}
use portguard_v.Imports.Confirm.{
  scan_nginx, scan_haproxy, scan_existing_configs, collides, read_live_file,
}

-- A candidate has no identifier. nginx's is disabled; HAProxy's is enabled, and has neither a server
-- name nor a redirect.
pub record IsCandidate (m : Mapping) : Type 0 where
  pub no_id : m.id ≡ pos 0
  pub origin :
      ((m.engine ≡ codes "nginx") × (m.enabled ≡ false))
      ⊎ ((m.engine ≡ codes "haproxy")
          × (m.enabled ≡ true)
          × (m.server_names ≡ [])
          × (m.redirect_to ≡ []))

abbrev pub AreCandidates : Conversion → Type 0
AreCandidates c = All IsCandidate c.out

All-append : {A : Type 0} (P : A → Type 0) (xs ys : List A) → All P xs → All P ys → All P (xs ++ ys)
All-append P [] ys h k = k
All-append P (x ∷ xs) ys (h, hs) k = (h, All-append P xs ys hs k)

add_mapping-AreCandidates :
    (base : Text) (m : Mapping) (c : Conversion)
    → IsCandidate m
    → All IsCandidate c.out
    → All IsCandidate (add_mapping base m c).out
unfolding add_mapping
add_mapping-AreCandidates base m c k a =
    All-append IsCandidate c.out _ a (record { no_id = k.no_id; origin = k.origin }, tt)

abbrev OutcomeIsCandidate : Outcome → Type 0
OutcomeIsCandidate (issue i) = Unit
OutcomeIsCandidate (candidate_mapping base m) = IsCandidate m

add_outcomes-AreCandidates :
    (os : List Outcome) (c : Conversion)
    → All OutcomeIsCandidate os
    → All IsCandidate c.out
    → All IsCandidate (add_outcomes os c).out
unfolding add_outcomes add_outcome add_issue
add_outcomes-AreCandidates [] c k a = a
add_outcomes-AreCandidates (issue i ∷ os) c k a =
    add_outcomes-AreCandidates os (add_issue i c) k.1 a
add_outcomes-AreCandidates (candidate_mapping base m ∷ os) c (k, ks) a =
    add_outcomes-AreCandidates os (add_mapping base m c) ks (add_mapping-AreCandidates base m c k a)

All-map :
    {A : Type 0} (P : Outcome → Type 0) (f : A → Outcome)
    → ((a : A) → P (f a))
    → (as_ : List A) → All P (map f as_)
All-map P f h [] = tt
All-map P f h (a ∷ as_) = (h a, All-map P f h as_)

convert_frontend-IsCandidate :
    (cfg : HaproxyCfg) (fe : FrontendCfg) → OutcomeIsCandidate (convert_frontend cfg fe)
unfolding convert_frontend frontend_mapping
convert_frontend-IsCandidate cfg fe = elim (Option-cases (only_bind fe.binds)) [
  | inl e ↦ rw (e, convert_frontend) tt
  | inr (b, e) ↦ elim (Bool-cases (is_empty fe.default_backend && no_rules fe.rules)) [
    | inl t ↦ rw (e, t, convert_frontend) tt
    | inr t ↦ elim (Option-cases (find_backend (target_backend fe) cfg.backends)) [
      | inl f ↦ rw (e, t, f, convert_frontend) tt
      | inr (be, f) ↦ elim (Bool-cases (length be.servers == 0)) [
        | inl z ↦ rw (e, t, f, z, convert_frontend) tt
        | inr z ↦
            rw (e, t, f, z, convert_frontend)
              (record { no_id = refl; origin = inr (refl, refl, refl, refl) })
      ]
    ]
  ]
]

convert_listen-IsCandidate : (li : ListenCfg) → OutcomeIsCandidate (convert_listen li)
unfolding convert_listen listen_mapping
convert_listen-IsCandidate li = elim (Option-cases (only_bind li.binds)) [
  | inl e ↦ rw (e, convert_listen) tt
  | inr (b, e) ↦ elim (Bool-cases (length li.servers == 0)) [
    | inl z ↦ rw (e, z, convert_listen) tt
    | inr z ↦
        rw (e, z, convert_listen) (record { no_id = refl; origin = inr (refl, refl, refl, refl) })
  ]
]

http_mapping-IsCandidate :
    (upstreams : Map (List Text)) (s : NginxServer) → IsCandidate (http_mapping upstreams s)
unfolding http_mapping
http_mapping-IsCandidate upstreams s = elim (Option-cases (first_location upstreams s.locations)) [
  | inl e ↦ rw (e, http_mapping) (record { no_id = refl; origin = inl (refl, refl) })
  | inr (l, e) ↦ rw (e, http_mapping) (record { no_id = refl; origin = inl (refl, refl) })
]

stream_mapping-IsCandidate :
    (upstreams : Map (List Text)) (s : NginxServer) → IsCandidate (stream_mapping upstreams s)
unfolding stream_mapping
stream_mapping-IsCandidate upstreams s = record { no_id = refl; origin = inl (refl, refl) }

report_http-out :
    (upstreams : Map (List Text)) (s : NginxServer) (c : Conversion)
    → (report_http upstreams s c).out ≡ c.out
unfolding report_http add_issue
report_http-out upstreams s c = elim (Bool-cases (is_empty s.return_to)) [
  | inr t ↦ rw (t, report_http) refl
  | inl t ↦ elim (Option-cases (first_location upstreams s.locations)) [
    | inl n ↦ rw (t, n, report_http) refl
    | inr (l, n) ↦ rw (t, n, report_http) refl
  ]
]

report_stream-out :
    (upstreams : Map (List Text)) (s : NginxServer) (c : Conversion)
    → (report_stream upstreams s c).out ≡ c.out
unfolding report_stream add_issue
report_stream-out upstreams s c =
    elim (Bool-cases (none_of (stream_targets upstreams s.locations))) [
      | inl t ↦ rw (t, report_stream) refl
      | inr t ↦ rw (t, report_stream) refl
    ]

convert_http-AreCandidates :
    (upstreams : Map (List Text)) (s : NginxServer) (c : Conversion)
    → All IsCandidate c.out
    → All IsCandidate (convert_http upstreams s c).out
unfolding convert_http add_issue
convert_http-AreCandidates upstreams s c a =
    elim (Bool-cases (s.is_default && none_of s.server_names && none_of s.locations)) [
      | inl e ↦ rw (e, convert_http) a
      | inr e ↦
          rw (e, convert_http)
            (add_mapping-AreCandidates _ (http_mapping upstreams s) (report_http upstreams s c)
              (http_mapping-IsCandidate upstreams s) (rw (report_http-out upstreams s c) a))
    ]

convert_stream-AreCandidates :
    (upstreams : Map (List Text)) (s : NginxServer) (c : Conversion)
    → All IsCandidate c.out
    → All IsCandidate (convert_stream upstreams s c).out
unfolding convert_stream
convert_stream-AreCandidates upstreams s c a =
    add_mapping-AreCandidates _ (stream_mapping upstreams s) (report_stream upstreams s c)
      (stream_mapping-IsCandidate upstreams s) (rw (report_stream-out upstreams s c) a)

each-AreCandidates :
    (f : NginxServer → Conversion → Conversion)
    → ((s : NginxServer) (c : Conversion) → All IsCandidate c.out → All IsCandidate (f s c).out)
    → (ss : List NginxServer) (c : Conversion) → All IsCandidate c.out
    → All IsCandidate (each f ss c).out
each-AreCandidates f h [] c a = a
each-AreCandidates f h (s ∷ ss) c a = each-AreCandidates f h ss (f s c) (h s c a)

scan_nginx-AreCandidates :
    (text : Text) (taken : List Text) → All IsCandidate (scan_nginx text taken).out
unfolding scan_nginx nginx_sites_to_mappings
scan_nginx-AreCandidates text taken =
    let sites = parse_nginx_config text in
    let start : Conversion = record { out = []; issues = []; taken = taken } in
    elim (Bool-cases (is_empty text)) [
      | inl e ↦ rw (e, scan_nginx) tt
      | inr e ↦
          rw (e, scan_nginx)
            (each-AreCandidates (convert_stream sites.upstreams)
              (convert_stream-AreCandidates sites.upstreams) sites.stream_servers
              (each (convert_http sites.upstreams) sites.http_servers start)
              (each-AreCandidates (convert_http sites.upstreams)
                (convert_http-AreCandidates sites.upstreams) sites.http_servers start tt))
    ]

scan_haproxy-AreCandidates :
    (text : Text) (taken : List Text) → All IsCandidate (scan_haproxy text taken).out
unfolding scan_haproxy haproxy_cfg_to_mappings haproxy_outcomes
scan_haproxy-AreCandidates text taken =
    let cfg = parse_haproxy_config text in
    let start : Conversion = record { out = []; issues = []; taken = taken } in
    elim (Bool-cases (is_empty text)) [
      | inl e ↦ rw (e, scan_haproxy) tt
      | inr e ↦
          rw (e, scan_haproxy)
            (add_outcomes-AreCandidates (haproxy_outcomes cfg) start
              (All-append OutcomeIsCandidate (map (convert_frontend cfg) cfg.frontends) _
                (All-map OutcomeIsCandidate (convert_frontend cfg)
                  (convert_frontend-IsCandidate cfg) cfg.frontends)
                (All-map OutcomeIsCandidate convert_listen convert_listen-IsCandidate cfg.listens))
              tt)
    ]

filter_map-All :
    (P : Mapping → Type 0) (p : Mapping → Bool) (ms : List Mapping)
    → All P ms
    → All P (filter_map (λ (m : Mapping). if p m then none else some m) ms)
unfolding filter_map
filter_map-All P p [] a = tt
filter_map-All P p (m ∷ ms) (a, as_) = elim (Bool-cases (p m)) [
  | inl e ↦ rw e (filter_map-All P p ms as_)
  | inr e ↦ rw e (a, filter_map-All P p ms as_)
]

-- Every candidate of a scan has no identifier; one from nginx is disabled, and one from HAProxy is
-- enabled and has neither a server name nor a redirect.
pub scan_existing_configs-AreCandidates :
    (nginx haproxy : Option Text) (existing : List Mapping)
    → All IsCandidate (scan_existing_configs nginx haproxy existing).mappings
unfolding scan_existing_configs
scan_existing_configs-AreCandidates nginx haproxy existing =
    let a = scan_nginx (read_live_file nginx) (map (λ (m : Mapping). m.name) existing) in
    filter_map-All IsCandidate (collides existing) _ (
      All-append IsCandidate a.out _
        (scan_nginx-AreCandidates (read_live_file nginx) (map (λ (m : Mapping). m.name) existing))
        (scan_haproxy-AreCandidates (read_live_file haproxy) a.taken))

names_test :
    (lib : Lib) (m : Mapping) (others : List Mapping) (panel : ℤ)
    → validate_mapping lib m others panel ≡ none
    → is_http m ≡ true
    → (no_texts m.server_names && is_empty m.redirect_to) ≡ false
unfolding validate_mapping validate_http
names_test lib m others panel ok h = ground arith

-- A candidate from HAProxy that is http or https is refused when it is confirmed, whatever the rows
-- and the panel's port are.
pub http_candidate_refused :
    (nginx haproxy : Option Text) (existing : List Mapping) (m : Mapping)
    → In m (scan_existing_configs nginx haproxy existing).mappings
    → m.engine ≡ codes "haproxy"
    → is_http m ≡ true
    → (lib : Lib) (others : List Mapping) (panel : ℤ)
    → is_some (validate_mapping lib m others panel) ≡ true
http_candidate_refused nginx haproxy existing m i engine http lib others panel =
    let k =
      All-In IsCandidate (scan_existing_configs nginx haproxy existing).mappings m
        (scan_existing_configs-AreCandidates nginx haproxy existing) i in
    elim (Option-cases (validate_mapping lib m others panel)) [
      | inr (e, bad) ↦ rw bad refl
      | inl ok ↦
          let t = names_test lib m others panel ok http in
          elim k.origin [
            | inl (nginx_engine, _) ↦ ground (arith, sym nginx_engine ∙ engine)
            | inr (_, _, names, redirect) ↦
                let u : (no_texts [] && is_empty []) ≡ false = rw (names, redirect) at t in
                ground arith
          ]
    ]
