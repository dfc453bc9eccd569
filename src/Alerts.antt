-- ===== src/Alerts.antt =====
-- The alerts (internal/alerter/alerter.go): fire with its cooldown, and the rounds over backends and
-- certificates. Times are in nanoseconds and an alert's row has whole seconds, as in
-- internal/store/audit.go. The cooldown, read from a setting, the time of a round and the failures of
-- the database are arguments. The texts of an alert other than its key are left out, and so are the
-- channels that are notified.
mod Tests
pub mod Spaced
use portguard_v.Base.{
  ℕ, suc, ◌+◌, ◌-◌, ◌*◌, ◌/◌, Bool, true, false, not, ◌&&◌, List, [], ◌∷◌, ◌++◌, Option, none, some,
  Text, codes, eqb, is_empty, ℤ, if◌then◌else◌, ltb, leb, ◌==◌,
}
use portguard_v.Base.Decimal.{decimal}
use portguard_v.Health.{TargetHealth, signed}

pub record Alert : Type 0 where
  pub dedup_key : Text
  pub created_at : ℕ

abbrev pub second : ℕ
second = 1000000000

abbrev greater : ℕ → ℕ → ℕ
greater a b = if ltb a b then b else a

-- The time of the latest alert of a key, 0 without one.
unfoldable pub last_alert : Text → List Alert → ℕ
last_alert key [] = 0
last_alert key (a ∷ past) =
    let rest = last_alert key past in
    if eqb a.dedup_key key then greater a.created_at rest else rest

-- Which statements of one call of fire fail: the query for the latest alert, the insertion.
pub record Faults : Type 0 where
  pub query_fails : Bool
  pub insert_fails : Bool

abbrev pub later : (ℕ → Faults) → ℕ → Faults
later fs n = fs (suc n)

-- What fire takes for the time of the latest alert: the error of the query is dropped.
unfoldable pub last_known : Bool → Text → List Alert → ℕ
unfolding last_alert
last_known fails key past = if fails then 0 else last_alert key past

abbrev pub cooling_down : Bool → ℕ → ℕ → Text → List Alert → Bool
cooling_down fails cooldown now key past =
    not (is_empty key)
    && ltb 0 (last_known fails key past)
    && ltb (now - last_known fails key past * second) cooldown

unfoldable pub fire : Faults → ℕ → ℕ → Text → List Alert → List Alert
unfolding last_known
fire f cooldown now key past =
    if cooling_down f.query_fails cooldown now key past
    then past
    else if f.insert_fails
    then past
    else record { dedup_key = key; created_at = now / second } ∷ past

unfoldable pub backend_key : TargetHealth → Text
unfolding signed
backend_key h =
    codes "backend-down:"
    ++ signed h.mapping_id
    ++ codes ":"
    ++ h.host
    ++ codes ":"
    ++ signed h.port

-- The failures are numbered by the row that is looked at.
unfoldable pub check_backends : (ℕ → Faults) → ℕ → ℕ → List TargetHealth → List Alert → List Alert
unfolding fire backend_key
check_backends fs cooldown now [] past = past
check_backends fs cooldown now (h ∷ hs) past = check_backends (later fs) cooldown now hs (
    if eqb h.status (codes "down") && (h.fail_count == 3)
    then fire (fs 0) cooldown now (backend_key h) past
    else past)

-- A certificate's identifier and the time at which it expires, if known.
abbrev pub Expiry : Type 0
Expiry = ℤ × Option ℕ

-- The source divides a duration into days as a floating point number before it compares.
unfoldable pub check_cert : Faults → ℕ → ℕ → Expiry → List Alert → List Alert
unfolding fire signed
check_cert f cooldown now (id, none) past = past
check_cert f cooldown now (id, some expires) past =
    if leb expires now
    then fire f cooldown now (codes "cert-expired:" ++ signed id) past
    else if leb (expires - now) (14 * 24 * 3600 * second)
    then fire f cooldown now (codes "cert-expiring:" ++ signed id) past
    else past

unfoldable pub check_certs : (ℕ → Faults) → ℕ → ℕ → List Expiry → List Alert → List Alert
unfolding check_cert
check_certs fs cooldown now [] past = past
check_certs fs cooldown now (c ∷ cs) past =
    check_certs (later fs) cooldown now cs (check_cert (fs 0) cooldown now c past)
