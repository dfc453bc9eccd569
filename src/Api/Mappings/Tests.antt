-- ===== src/Api/Mappings/Tests.antt =====
-- The mapping handlers at concrete requests.
use Prim.Native.Nat.{max}
use portguard_v.Base.{
  ℕ, suc, ◌≤◌, true, false, List, [], ◌∷◌, none, some, Text, codes, eqb, trim_space, contains, ltb,
  ℤ, pos, pos_part, ◌↔◌, ◌⊎◌, ◌≡◌, refl, ap, ◌∙◌, ◌≢◌, ◌||◌, inl, inr, arith, In,
}
use portguard_v.Proxy.Model.{Mapping, Target, PathRoute, valid_path_transport}
use portguard_v.Proxy.Validate.{
  validate_mapping, validate_texts, validate_listener, validate_target, validate_http,
  validate_rule, validate_decoy, conflict_with, listen_ips_overlap, norm,
}
use portguard_v.Proxy.Validate.Accepted.{IsAccepted, validate_mapping-IsAccepted}
use portguard_v.Proxy.Validate.Conflicts.{Clash}
use portguard_v.Proxy.Validate.Names.{
  Lib, has_control_chars, valid_engine, valid_protocol, valid_balance, valid_hostname,
  valid_path_prefix_token, path_clean,
}
use portguard_v.Proxy.Validate.Rules.{listen_conflict, validate_path_routes, validate_route_rules}
use portguard_v.Proxy.Validate.Routes.{RoutesAreSound, validate_mapping-RoutesAreSound}
use portguard_v.Api.Mappings.{
  Panel, Faults, created, mapping_from_body, cert_exists, create_mapping, update_mapping,
  delete_mapping, import_mappings,
}
use portguard_v.Api.Mappings.Invariant.{IsSound}
use portguard_v.Api.Mappings.Preserve.{
  create_mapping-IsSound, update_mapping-IsSound, keeps_rows, delete_mapping-rows,
  import_mappings-IsSound,
}
use portguard_v.Api.Mappings.Bypass.{create_mapping_bypass}

-- A library that knows three addresses and no network.
abbrev pub lib : Lib
lib = record {
  parse_ip = λ t. eqb t (codes "0.0.0.0") || eqb t (codes "127.0.0.1") || eqb t (codes "10.0.0.1");
  parse_cidr = λ t. false;
  is_control = λ c. ltb c 32;
  is_format = λ c. false;
}

pub max_id : List Mapping → ℕ
max_id [] = 0
max_id (m ∷ ms) = max (pos_part m.id) (max_id ms)

abbrev pub fresh_id : List Mapping → ℤ
fresh_id rows = pos (suc (max_id rows))

max_id-In : (rows : List Mapping) (o : Mapping) → In o rows → pos_part o.id ≤ max_id rows
unfolding max_id
max_id-In [] o k = absurd k
max_id-In (x ∷ xs) o (inl e) = omega (arith, ap (λ (z : Mapping). pos_part z.id) e)
max_id-In (x ∷ xs) o (inr k) = omega (arith, max_id-In xs o k)

pub fresh : (rows : List Mapping) (o : Mapping) → In o rows → o.id ≢ fresh_id rows
fresh rows o k e = omega (arith, max_id-In rows o k, ap pos_part e)

pub positive : (rows : List Mapping) → fresh_id rows ≢ pos 0
positive rows e = omega (arith, ap pos_part e)

abbrev target : Target
target = record { host = codes "10.0.0.1"; port = pos 8443; weight = pos 1; backup = false }

abbrev relay : ℤ → Text → Mapping
relay id name = record {
  id = id;
  name = name;
  enabled = true;
  engine = codes "haproxy";
  protocol = codes "tcp";
  listen_ip = codes "0.0.0.0";
  listen_port = pos 443;
  server_names = [];
  ssl_cert_id = none;
  redirect_to = [];
  websocket = false;
  http2 = false;
  targets = target ∷ [];
  balance = [];
  path_prefix = [];
  access_rules = [];
  extra_headers = [];
  path_routes = [];
  host_header = [];
  decoy = [];
  decoy_html = [];
  routes = [];
  service_id = none;
  notes = [];
}

abbrev panel : Panel
panel = record {
  rows = relay (pos 1) (codes "first") ∷ [];
  certs = [];
  health = [];
  auto = false;
  log = [];
}

abbrev calm : Faults
calm = record { list_fails = false; write_fails = false; health_fails = false }

-- What a run of ValidateMapping computes with.
validation : Unit {0}
unfolding validate_mapping validate_texts validate_listener validate_target validate_http
    validate_rule validate_decoy conflict_with listen_ips_overlap norm validate_path_routes
    validate_route_rules has_control_chars valid_engine valid_protocol valid_balance valid_hostname
    trim_space contains eqb
validation = tt

relay_accepted : validate_mapping lib (relay (pos 1) (codes "a")) [] (pos 8080) ≡ none
unfolding validation
relay_accepted = refl

relay_clashes :
    validate_mapping lib (relay (pos 2) (codes "second")) panel.rows (pos 8080)
    ≡ some (listen_conflict (pos 1))
unfolding validation
relay_clashes = refl

validate_mapping-IsAccepted_example : IsAccepted lib (relay (pos 1) (codes "a")) [] (pos 8080)
validate_mapping-IsAccepted_example =
    validate_mapping-IsAccepted lib (relay (pos 1) (codes "a")) [] (pos 8080) relay_accepted

abbrev path_route : Text → Text → PathRoute
path_route transport prefix = record {
  transport = transport;
  prefix = prefix;
  min_port = pos 10000;
  max_port = pos 10003;
}

abbrev site : Mapping
site = record (relay (pos 1) (codes "site")) {
  engine = codes "nginx";
  protocol = codes "http";
  server_names = codes "a.example" ∷ [];
  path_routes = path_route (codes "ws") (codes "ws") ∷ path_route (codes "xhttp") (codes "up") ∷ [];
  routes =
      record {
        id = pos 1;
        path = codes "/api/";
        enabled = true;
        targets = target ∷ [];
        redirect = [];
        notes = [];
      }
      ∷ [];
}

site_accepted : validate_mapping lib site [] (pos 8080) ≡ none
unfolding validation valid_path_transport valid_path_prefix_token path_clean
site_accepted = refl

validate_mapping-RoutesAreSound_example : RoutesAreSound site
validate_mapping-RoutesAreSound_example =
    validate_mapping-RoutesAreSound lib site [] (pos 8080) site_accepted

one_row-IsSound : IsSound panel.rows
one_row-IsSound = ((λ o k. absurd k), tt)

create_mapping-IsSound_example :
    IsSound
      (create_mapping lib (pos 8080) fresh_id calm (some (relay (pos 0) (codes "b"))) panel).1.rows
create_mapping-IsSound_example =
    create_mapping-IsSound lib (pos 8080) fresh_id fresh calm (relay (pos 0) (codes "b")) panel
      (λ o k. elim k [
        | inl e ↦ (λ i. omega (arith, ap pos_part (ap (λ (z : Mapping). z.id) e ∙ i)))
        | inr n ↦ absurd n
      ])
      one_row-IsSound

update_mapping-IsSound_example :
    IsSound (update_mapping lib (pos 8080) fresh_id calm (pos 1) (some site) panel).1.rows
update_mapping-IsSound_example =
    update_mapping-IsSound lib (pos 8080) fresh_id fresh calm (pos 1) (some site) panel
      one_row-IsSound

delete_mapping-rows_example :
    IsSound (delete_mapping lib (pos 8080) fresh_id calm (pos 1) panel).1.rows
    × ((o : Mapping)
        → In o (delete_mapping lib (pos 8080) fresh_id calm (pos 1) panel).1.rows
          ↔ (In o panel.rows × ((keeps_rows calm (pos 1) ≡ true) ⊎ (o.id ≢ pos 1))))
delete_mapping-rows_example =
    delete_mapping-rows lib (pos 8080) fresh_id fresh calm (pos 1) panel one_row-IsSound

import_mappings-IsSound_example :
    IsSound
      (import_mappings lib
        (pos 8080)
        fresh_id
        calm
        (λ m. false)
        (some (relay (pos 1) (codes "b") ∷ site ∷ []))
        panel).rows
import_mappings-IsSound_example =
    import_mappings-IsSound lib (pos 8080) fresh_id fresh positive calm (λ m. false)
      (relay (pos 1) (codes "b") ∷ site ∷ []) panel
      (λ o k. elim k [
        | inl e ↦ (λ i. omega (arith, ap pos_part (ap (λ (z : Mapping). z.id) e ∙ i)))
        | inr n ↦ absurd n
      ])
      one_row-IsSound

-- The body names the stored row's identifier, and the clash goes through.
clash_created :
    (create_mapping lib (pos 8080) fresh_id calm (some (relay (pos 1) (codes "b"))) panel).0
    ≡ created (pos 2)
unfolding create_mapping mapping_from_body cert_exists max_id validation
clash_created = refl

body_clashes : Clash (relay (pos 1) (codes "first")) (mapping_from_body (relay (pos 1) (codes "b")))
unfolding mapping_from_body
body_clashes = record {
  left_enabled = refl;
  right_enabled = refl;
  same_port = refl;
  overlap = inl refl;
}

create_mapping_bypass_example :
    ◌≡◌ {A = ℤ} (pos 1) (pos 1)
    × (¬ IsSound
        (create_mapping lib
          (pos 8080)
          fresh_id
          calm
          (some (relay (pos 1) (codes "b")))
          panel).1.rows)
create_mapping_bypass_example =
    create_mapping_bypass lib (pos 8080) fresh_id calm (relay (pos 1) (codes "b"))
      (relay (pos 1) (codes "first")) panel (pos 2) (inl refl) body_clashes clash_created
