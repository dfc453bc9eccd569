-- ===== src/Proxy/Validate/Routes.antt =====
-- What validatePathRoutes and validateRouteRules promise of the routes that they accept.
use portguard_v.Base.{
  ℕ, zero, suc, ◌+◌, ◌≤◌, false, not, ◌&&◌, ◌||◌, List, [], ◌∷◌, none, map, Text, eqb, eqb_iff, ℤ,
  pos, negsuc, int_eq, int_lt, Within, within_of_tests, ◌≡◌, refl, ap, subst, ◌≢◌, ◌⊎◌, inl, inr,
  arith, In, for_each, >>-none, for_each-In, is_empty, any-In-false, sym, Bool-cases,
}
use portguard_v.Proxy.Model.{Mapping, Target, PathRoute, RouteRule}
use portguard_v.Proxy.Validate.Names.{Lib}
use portguard_v.Proxy.Validate.Rules.{
  seen, path_route, path_route_loop, check_path_routes, validate_path_routes, check_route_rules,
  route_target, route_rule, route_rule_loop, validate_route_rules, no_targets,
}
use portguard_v.Proxy.Validate.{validate_mapping}

abbrev pub AllDistinct : List Text → Type 0
AllDistinct [] = Unit
AllDistinct (t ∷ ts) = ¬ In t ts × AllDistinct ts

not_seen : (t : Text) (ts : List Text) → seen t ts ≡ false → ¬ In t ts
not_seen t ts h i = let e = any-In-false (eqb t) ts t h i in ground (arith, (eqb_iff t t).1 refl)

-- 0 and 0 stand for the default range.
abbrev pub IsRange : ℤ → ℤ → Type 0
IsRange lo hi =
    ((lo ≡ pos 0) × (hi ≡ pos 0))
    ⊎ ((a b : ℕ) × (lo ≡ pos a) × (hi ≡ pos b) × (1 ≤ a) × (a ≤ b) × (b ≤ 65535))

IsRange-of_tests :
    (lo hi : ℤ)
    → (not (int_eq lo (pos 0) && int_eq hi (pos 0))
        && (int_lt lo (pos 1) || int_lt (pos 65535) hi || int_lt hi lo))
      ≡ false
    → IsRange lo hi
IsRange-of_tests (pos zero) (pos zero) h = inl (refl, refl)
IsRange-of_tests (pos zero) (pos (suc b)) h = ground arith
IsRange-of_tests (pos (suc a)) (pos b) h =
    inr (suc a, b, refl, refl, omega arith, ground arith, ground arith)
IsRange-of_tests (pos a) (negsuc b) h = ground arith
IsRange-of_tests (negsuc a) hi h = ground arith

-- Nothing in `new` is in `old`, and `new` repeats nothing.
abbrev pub Fresh : List Text → List Text → Type 0
Fresh old new = ((t : Text) → In t new → ¬ In t old) × AllDistinct new

Fresh-cons :
    (t : Text) (old new : List Text) → ¬ In t old → Fresh (t ∷ old) new → Fresh old (t ∷ new)
Fresh-cons t old new h f = (
  (λ u. elim [ inl e ↦ λ i. h (subst (λ x. In x old) (sym e) i) | inr i ↦ λ o. f.0 u i (inr o) ]),
  ((λ i. f.0 t i (inl refl)), f.1),
)

module _ (m : Mapping) where
  path_route_tests :
      (i : ℕ) (transports prefixes : List Text) (pr : PathRoute)
      → path_route m i transports prefixes pr ≡ none
      → (¬ In pr.transport transports) × (¬ In pr.prefix prefixes) × IsRange pr.min_port pr.max_port
  unfolding path_route
  path_route_tests i ts ps pr h = (
    not_seen pr.transport ts (ground arith),
    not_seen pr.prefix ps (ground arith),
    IsRange-of_tests pr.min_port pr.max_port (ground arith),
  )

  path_route_loop-Fresh :
      (i : ℕ) (transports prefixes : List Text) (prs : List PathRoute)
      → path_route_loop m i transports prefixes prs ≡ none
      → Fresh transports (map (λ pr. pr.transport) prs)
        × Fresh prefixes (map (λ pr. pr.prefix) prs)
        × ((pr : PathRoute) → In pr prs → IsRange pr.min_port pr.max_port)
  unfolding path_route_loop
  path_route_loop-Fresh i ts ps [] h =
      (((λ t m. absurd m), tt), ((λ t m. absurd m), tt), (λ pr m. absurd m))
  path_route_loop-Fresh i ts ps (pr ∷ prs) h =
      let (here, later) = >>-none (path_route m i ts ps pr) _ h in
      let (t, p, r) = path_route_tests i ts ps pr here in
      let (ft, fp, fr) =
        path_route_loop-Fresh (i + 1) (pr.transport ∷ ts) (pr.prefix ∷ ps) prs later in
      (
        Fresh-cons pr.transport ts _ t ft,
        Fresh-cons pr.prefix ps _ p fp,
        (λ q. elim [
          | inl e ↦ subst (λ (x : PathRoute). IsRange x.min_port x.max_port) e r
          | inr k ↦ fr q k
        ]),
      )

  path_routes_lem :
      (prs : List PathRoute)
      → path_route_loop m 1 [] [] prs ≡ none
      → AllDistinct (map (λ pr. pr.transport) prs)
        × AllDistinct (map (λ pr. pr.prefix) prs)
        × ((pr : PathRoute) → In pr prs → IsRange pr.min_port pr.max_port)
  path_routes_lem prs h = let (t, p, r) = path_route_loop-Fresh 1 [] [] prs h in (t.1, p.1, r)

-- A rule of which a request can be answered.
pub record IsServed (r : RouteRule) : Type 0 where
  pub served : (r.redirect ≢ []) ⊎ (r.targets ≢ [])
  pub ports : (t : Target) → In t r.targets → Within 1 65535 t.port × (t.host ≢ [])

module _ (lib : Lib) where
  route_target-Within :
      (i : ℕ) (t : Target) → route_target lib i t ≡ none → Within 1 65535 t.port × (t.host ≢ [])
  unfolding route_target
  route_target-Within i t h =
      (within_of_tests 1 65535 t.port (ground arith), (λ e. ground (arith, ap is_empty e)))

  route_rule-parts :
      (i : ℕ) (paths : List Text) (r : RouteRule)
      → route_rule lib i paths r ≡ none
      → (¬ In r.path paths)
        × ((is_empty r.redirect && no_targets r.targets) ≡ false)
        × (for_each (route_target lib i) r.targets ≡ none)
  unfolding route_rule
  route_rule-parts i paths r h = (not_seen r.path paths (ground arith), ground arith, ground arith)

  route_rule-IsServed :
      (i : ℕ) (paths : List Text) (r : RouteRule) → route_rule lib i paths r ≡ none → IsServed r
  route_rule-IsServed i paths r h =
      let (_, some_way, targets) = route_rule-parts i paths r h in
      record {
        served = elim (Bool-cases (is_empty r.redirect)) [
          | inl e ↦ inr (λ q. ground (arith, ap no_targets q))
          | inr e ↦ inl (λ q. ground (arith, ap is_empty q))
        ];
        ports = λ t k. route_target-Within i t (for_each-In _ r.targets t targets k);
      }

  abbrev rule_paths : List RouteRule → List Text
  rule_paths rs = map (λ r. r.path) rs

  route_rule_loop-Fresh :
      (i : ℕ) (paths : List Text) (rs : List RouteRule)
      → route_rule_loop lib i paths rs ≡ none
      → Fresh paths (rule_paths rs) × ((r : RouteRule) → In r rs → IsServed r)
  unfolding route_rule_loop
  route_rule_loop-Fresh i paths [] h = (((λ t m. absurd m), tt), (λ r m. absurd m))
  route_rule_loop-Fresh i paths (r ∷ rs) h =
      let (here, later) = >>-none (route_rule lib i paths r) _ h in
      let (fresh, served) = route_rule_loop-Fresh (i + 1) (r.path ∷ paths) rs later in
      (
        Fresh-cons r.path paths _ (route_rule-parts i paths r here).0 fresh,
        (λ q. elim [
          | inl e ↦ subst IsServed e (route_rule-IsServed i paths r here)
          | inr k ↦ served q k
        ]),
      )

check_path_routes-loop :
    (m : Mapping) (prs : List PathRoute)
    → check_path_routes m prs ≡ none
    → path_route_loop m 1 [] [] prs ≡ none
unfolding check_path_routes
check_path_routes-loop m [] h = unfold path_route_loop in refl
check_path_routes-loop m (pr ∷ prs) h = ground arith

check_route_rules-loop :
    (lib : Lib) (m : Mapping) (rs : List RouteRule)
    → check_route_rules lib m rs ≡ none
    → route_rule_loop lib 1 [] rs ≡ none
unfolding check_route_rules
check_route_rules-loop lib m [] h = unfold route_rule_loop in refl
check_route_rules-loop lib m (r ∷ rs) h = ground arith

abbrev pub RoutesAreSound : Mapping → Type 0
RoutesAreSound m =
    AllDistinct (map (λ pr. pr.transport) m.path_routes)
    × AllDistinct (map (λ pr. pr.prefix) m.path_routes)
    × ((pr : PathRoute) → In pr m.path_routes → IsRange pr.min_port pr.max_port)
    × AllDistinct (map (λ r. r.path) m.routes)
    × ((r : RouteRule) → In r m.routes → IsServed r)

-- In an accepted mapping no two path routes share a transport or a prefix and each has the default
-- range or a range within 1 to 65535; no two route rules share a path, and each rule redirects or
-- has a target, its targets all with a host and a port from 1 to 65535.
pub validate_mapping-RoutesAreSound :
    (lib : Lib) (m : Mapping) (others : List Mapping) (panel : ℤ)
    → validate_mapping lib m others panel ≡ none
    → RoutesAreSound m
unfolding validate_mapping validate_path_routes validate_route_rules
validate_mapping-RoutesAreSound lib m others panel h =
    let p : check_path_routes m m.path_routes ≡ none = ground arith in
    let q : check_route_rules lib m m.routes ≡ none = ground arith in
    let (transports, prefixes, ranges) =
      path_routes_lem m m.path_routes (check_path_routes-loop m m.path_routes p) in
    let (fresh, served) =
      route_rule_loop-Fresh lib 1 [] m.routes (check_route_rules-loop lib m m.routes q) in
    (transports, prefixes, ranges, fresh.1, served)
