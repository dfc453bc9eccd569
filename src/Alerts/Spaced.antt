-- ===== src/Alerts/Spaced.antt =====
-- The cooldown keeps the alerts of a key apart (internal/alerter/alerter.go).
use portguard_v.Base.{
  ℕ, suc, ◌+◌, ◌-◌, ◌*◌, ◌<◌, ◌≤◌, ◌≡◌, ◌∙◌, ap, true, false, ◌&&◌, List, [], ◌∷◌, ◌++◌, none, some,
  Text, codes, eqb, eqb_iff, is_empty, leb, ◌==◌, In, inl, inr, Bool-cases, arith,
}
use portguard_v.Health.{TargetHealth, signed}
use portguard_v.Alerts.{
  Alert, Faults, later, last_known, second, last_alert, cooling_down, fire, backend_key,
  check_backends, Expiry, check_cert, check_certs,
}

-- Between an earlier and a later alert lies the cooldown, up to the seconds that the rows round down.
abbrev pub Apart : ℕ → Alert → Alert → Type 0
Apart cooldown later earlier =
    earlier.created_at * second + cooldown < (later.created_at + 1) * second

-- The alerts of a key that is not empty are apart, the latest alert standing first.
abbrev pub Spaced : ℕ → List Alert → Type 0
Spaced cooldown [] = Unit
Spaced cooldown (a ∷ past) =
    (is_empty a.dedup_key ≡ false
      → (b : Alert) → In b past
      → b.dedup_key ≡ a.dedup_key
      → 0 < b.created_at
      → Apart cooldown a b)
    × Spaced cooldown past

-- No query for the latest alert fails.
abbrev pub Answers : (ℕ → Faults) → Type 0
Answers fs = (n : ℕ) → (fs n).query_fails ≡ false

last_alert-In :
    (key : Text) (past : List Alert) (b : Alert)
    → In b past
    → b.dedup_key ≡ key
    → b.created_at ≤ last_alert key past
unfolding last_alert
last_alert-In key [] b k e = absurd k
last_alert-In key (a ∷ past) b (inl here) e =
    let q : eqb a.dedup_key key ≡ true =
      (eqb_iff a.dedup_key key).1 (ap (λ (z : Alert). z.dedup_key) here ∙ e) in
    let t : a.created_at ≡ b.created_at = ap (λ (z : Alert). z.created_at) here in ground arith
last_alert-In key (a ∷ past) b (inr later) e =
    let r = last_alert-In key past b later e in ground arith

fire-Spaced :
    (f : Faults) (cooldown now : ℕ) (key : Text) (past : List Alert)
    → 0 < cooldown
    → f.query_fails ≡ false
    → Spaced cooldown past
    → Spaced cooldown (fire f cooldown now key past)
unfolding fire last_known
fire-Spaced f cooldown now key past some_time answers s =
    elim (Bool-cases (cooling_down f.query_fails cooldown now key past)) [
      | inl cooling ↦ rw cooling s
      | inr over ↦ elim (Bool-cases f.insert_fails) [
        | inl failed ↦ rw (over, failed) s
        | inr stored ↦
            let waited : cooling_down false cooldown now key past ≡ false = rw answers at over in
            rw (over, stored)
              (λ named b k e positive. let r = last_alert-In key past b k e in ground arith, s)
      ]
    ]

check_backends-Spaced :
    (fs : ℕ → Faults) (cooldown now : ℕ) (hs : List TargetHealth) (past : List Alert)
    → 0 < cooldown
    → Answers fs
    → Spaced cooldown past
    → Spaced cooldown (check_backends fs cooldown now hs past)
unfolding check_backends
check_backends-Spaced fs cooldown now [] past c a s = s
check_backends-Spaced fs cooldown now (h ∷ hs) past c a s =
    elim (Bool-cases (eqb h.status (codes "down") && (h.fail_count == 3))) [
      | inr quiet ↦
          rw quiet (check_backends-Spaced (later fs) cooldown now hs past c (λ n. a (suc n)) s)
      | inl third ↦ rw third (
          check_backends-Spaced (later fs) cooldown now hs _ c (λ n. a (suc n))
            (fire-Spaced (fs 0) cooldown now (backend_key h) past c (a 0) s))
    ]

check_cert-Spaced :
    (f : Faults) (cooldown now : ℕ) (e : Expiry) (past : List Alert)
    → 0 < cooldown
    → f.query_fails ≡ false
    → Spaced cooldown past
    → Spaced cooldown (check_cert f cooldown now e past)
unfolding check_cert
check_cert-Spaced f cooldown now (id, none) past c a s = s
check_cert-Spaced f cooldown now (id, some expires) past c a s =
    elim (Bool-cases (leb expires now)) [
      | inl expired ↦
          rw expired (fire-Spaced f cooldown now (codes "cert-expired:" ++ signed id) past c a s)
      | inr valid ↦ elim (Bool-cases (leb (expires - now) (14 * 24 * 3600 * second))) [
        | inl expiring ↦
            rw (valid, expiring)
              (fire-Spaced f cooldown now (codes "cert-expiring:" ++ signed id) past c a s)
        | inr far ↦ rw (valid, far) s
      ]
    ]

check_certs-Spaced :
    (fs : ℕ → Faults) (cooldown now : ℕ) (cs : List Expiry) (past : List Alert)
    → 0 < cooldown
    → Answers fs
    → Spaced cooldown past
    → Spaced cooldown (check_certs fs cooldown now cs past)
unfolding check_certs
check_certs-Spaced fs cooldown now [] past c a s = s
check_certs-Spaced fs cooldown now (e ∷ cs) past c a s =
    check_certs-Spaced (later fs) cooldown now cs (check_cert (fs 0) cooldown now e past) c
      (λ n. a (suc n)) (check_cert-Spaced (fs 0) cooldown now e past c (a 0) s)

-- With a cooldown above zero, a round over the backends and then over the certificates in which no
-- query for the latest alert fails keeps the stored alerts spaced, whichever insertions fail: two of
-- them of one key that is not empty lie at least the cooldown apart, up to the second that a row
-- rounds its time to.
pub round-Spaced :
    (backend_faults cert_faults : ℕ → Faults) (cooldown now : ℕ) (hs : List TargetHealth)
    (cs : List Expiry) (past : List Alert)
    → 0 < cooldown
    → Answers backend_faults
    → Answers cert_faults
    → Spaced cooldown past
    → Spaced cooldown (
        check_certs cert_faults cooldown now cs
          (check_backends backend_faults cooldown now hs past))
round-Spaced fs gs cooldown now hs cs past c a b s =
    check_certs-Spaced gs cooldown now cs (check_backends fs cooldown now hs past) c b
      (check_backends-Spaced fs cooldown now hs past c a s)
