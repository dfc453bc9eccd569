-- ===== src/Health/Tests.antt =====
-- Runs of the health checks (internal/health/health.go) on concrete inputs.
use portguard_v.Base.{
  ◌&&◌, ℕ, ◌+◌, ◌≡◌, refl, true, false, List, [], ◌∷◌, none, some, codes, eqb, pos, length,
  if◌then◌else◌,
}
use portguard_v.Base.Decimal.{decimal, digits}
use portguard_v.Base.Maps.{Map, lookup, insert, delete}
use portguard_v.Proxy.Model.{Mapping, Target}
use portguard_v.Health.{
  TargetHealth, Probe, signed, health_key, is_up, next_count, check_target, check_targets,
  check_mappings, delete_stale, upsert_all, published, round, count_health, count_mappings, summary,
}
use portguard_v.Health.Table.{calm, last_result, round-lookup}
use portguard_v.Health.Totals.{is_down, counted, has_status, is_enabled, rows_with, summary-rows}
use portguard_v.Health.Streak.{
  checks, count_of, all_down, trailing, checks-trailing, checks-trailing_first,
}

abbrev target : Target
target = record { host = codes "10.0.0.1"; port = pos 8443; weight = pos 1; backup = false }

abbrev site : Mapping
site = record {
  id = pos 1;
  name = codes "site";
  enabled = true;
  engine = codes "nginx";
  protocol = codes "http";
  listen_ip = codes "0.0.0.0";
  listen_port = pos 80;
  server_names = codes "a.example" ∷ [];
  ssl_cert_id = none;
  redirect_to = [];
  websocket = false;
  http2 = false;
  targets = target ∷ [];
  balance = [];
  path_prefix = [];
  access_rules = [];
  extra_headers = [];
  path_routes = [];
  host_header = [];
  decoy = [];
  decoy_html = [];
  routes = [];
  service_id = none;
  notes = [];
}

-- A network that answers nothing, and one that answers everything.
abbrev silent : Probe
silent = record { http = λ m i t. none; dial = λ m i t. false }

abbrev lively : Probe
lively = record { http = λ m i t. some 200; dial = λ m i t. true }

abbrev old : TargetHealth
old = record {
  mapping_id = pos 7;
  target_index = 0;
  host = codes "10.0.0.9";
  port = pos 80;
  status = codes "down";
  fail_count = 2;
  last_check_at = 5;
}

abbrev rows : Map TargetHealth
rows = (codes "7:0", old) ∷ []

-- What a round computes with.
rounds : Unit {0}
unfolding round check_mappings check_targets check_target is_up next_count delete_stale upsert_all
    published health_key signed decimal digits eqb lookup insert delete summary count_mappings
    count_health
rounds = tt

pruned : lookup (codes "7:0") (round silent calm 9 (site ∷ []) rows).0 ≡ none
unfolding rounds
pruned = refl

both_probes_fail : (summary (site ∷ []) (check_mappings silent 9 rows (site ∷ []))).down ≡ 1
unfolding rounds
both_probes_fail = refl

round-lookup_example :
    lookup (codes "1:0") (round silent calm 9 (site ∷ []) rows).0
    ≡ last_result (codes "1:0") (check_mappings silent 9 rows (site ∷ []))
round-lookup_example = round-lookup silent 9 (site ∷ []) rows (codes "1:0")

abbrev runs : List (Probe × ℕ)
runs = (lively, 1) ∷ (silent, 2) ∷ (silent, 3) ∷ []

checks-trailing_example : count_of (checks site 0 target (some old) runs) ≡ (
    if all_down site 0 target runs
    then 2 + trailing site 0 target runs
    else trailing site 0 target runs)
checks-trailing_example = checks-trailing site 0 target old runs

checks-trailing_first_example :
    count_of (checks site 0 target none ((silent, 0) ∷ (silent, 1) ∷ [])) ≡ (
      if all_down site 0 target ((silent, 0) ∷ (silent, 1) ∷ [])
      then length {A = Probe × ℕ} ((silent, 1) ∷ [])
      else trailing site 0 target ((silent, 0) ∷ (silent, 1) ∷ []))
checks-trailing_first_example = checks-trailing_first site 0 target silent 0 ((silent, 1) ∷ [])

abbrev own : TargetHealth
own = record old { mapping_id = pos 1; status = codes "up" }

abbrev three_rows : List TargetHealth
three_rows = old ∷ own ∷ record own { status = codes "down" } ∷ []

summary-rows_example :
    counted is_down (summary (site ∷ []) three_rows)
    ≡ rows_with (λ h. is_enabled (site ∷ []) h.mapping_id && has_status is_down h.status) three_rows
summary-rows_example = summary-rows is_down (site ∷ []) three_rows (refl, tt)

one_down : counted is_down (summary (site ∷ []) three_rows) ≡ 1
unfolding summary count_mappings count_health eqb
one_down = refl
