-- ===== src/Alerts/Tests.antt =====
-- Runs of the alerts (internal/alerter/alerter.go).
use portguard_v.Base.{◌*◌, ◌≡◌, ℕ, true, false, refl, List, [], ◌∷◌, some, codes, eqb, pos, arith}
use portguard_v.Base.Decimal.{decimal, digits}
use portguard_v.Health.{TargetHealth, signed}
use portguard_v.Alerts.{
  Alert, Faults, second, last_known, last_alert, fire, backend_key, check_backends, check_cert,
  check_certs,
}
use portguard_v.Alerts.Spaced.{Spaced, round-Spaced}

abbrev down : TargetHealth
down = record {
  mapping_id = pos 1;
  target_index = 0;
  host = codes "10.0.0.1";
  port = pos 8443;
  status = codes "down";
  fail_count = 3;
  last_check_at = 5;
}

abbrev calm : ℕ → Faults
calm n = record { query_fails = false; insert_fails = false }

-- What a round computes with.
rounds : Unit {0}
unfolding fire last_known last_alert backend_key check_backends check_cert check_certs signed
    decimal digits eqb
rounds = tt

abbrev first_round : List Alert
first_round = record { dedup_key = codes "backend-down:1:10.0.0.1:8443"; created_at = 100 } ∷ []

stored : check_backends calm (600 * second) (100 * second) (down ∷ []) [] ≡ first_round
unfolding rounds
stored = refl

held_back : check_backends calm (600 * second) (160 * second) (down ∷ []) first_round ≡ first_round
unfolding rounds
held_back = refl

-- A query that fails lets an alert through in the cooldown.
abbrev blind : ℕ → Faults
blind n = record { query_fails = true; insert_fails = false }

not_held_back :
    check_backends blind (600 * second) (160 * second) (down ∷ []) first_round
    ≡ record { dedup_key = codes "backend-down:1:10.0.0.1:8443"; created_at = 160 } ∷ first_round
unfolding rounds
not_held_back = refl

round-Spaced_example : Spaced (600 * second) (
    check_certs calm
      (600 * second)
      (900 * second)
      ((pos 1, some 5) ∷ [])
      (check_backends calm (600 * second) (900 * second) (down ∷ []) first_round))
round-Spaced_example =
    round-Spaced calm calm (600 * second) (900 * second) (down ∷ []) ((pos 1, some 5) ∷ [])
      first_round (omega arith) (λ n. refl) (λ n. refl) ((λ n b k. absurd k), tt)
