-- ===== src/Health/Streak.antt =====
-- The count of failures over successive rounds (internal/health/health.go).
use portguard_v.Base.{
  ℕ, ◌+◌, ◌≡◌, refl, Bool, true, not, length, ◌&&◌, List, [], ◌∷◌, Option, none, some,
  if◌then◌else◌, inl, inr, Bool-cases, arith,
}
use portguard_v.Proxy.Model.{Mapping, Target}
use portguard_v.Health.{TargetHealth, Probe, is_up, next_count, check_target}

-- Successive checks of one target, each with what it finds and its time.
unfoldable pub checks :
    Mapping → ℕ → Target → Option TargetHealth → List (Probe × ℕ) → Option TargetHealth
unfolding check_target
checks m i tgt prev [] = prev
checks m i tgt prev ((probe, now) ∷ ps) =
    checks m i tgt (some (check_target probe now m i tgt prev)) ps

abbrev pub count_of : Option TargetHealth → ℕ
count_of none = 0
count_of (some h) = h.fail_count

module _ (m : Mapping) (i : ℕ) (tgt : Target) where
  abbrev pub all_down : List (Probe × ℕ) → Bool
  all_down [] = true
  all_down ((probe, now) ∷ ps) = not (is_up probe m i tgt) && all_down ps

  -- The number of failed checks after the last one that succeeded, or of all.
  unfoldable pub trailing : List (Probe × ℕ) → ℕ
  trailing [] = 0
  trailing ((probe, now) ∷ ps) =
      let later = trailing ps in
      if all_down ps then if is_up probe m i tgt then later else later + 1 else later

  trailing-length : (ps : List (Probe × ℕ)) → all_down ps ≡ true → trailing ps ≡ length ps
  unfolding trailing
  trailing-length [] h = refl
  trailing-length ((probe, now) ∷ ps) h = ground (arith, trailing-length ps (ground arith))

  -- From a known target with a count of failures on, the count after any checks is the number of
  -- failed checks since the last success, with the earlier count added if all of them failed.
  pub checks-trailing :
      (prev : TargetHealth) (ps : List (Probe × ℕ))
      → count_of (checks m i tgt (some prev) ps)
        ≡ (if all_down ps then prev.fail_count + trailing ps else trailing ps)
  unfolding checks check_target next_count trailing
  checks-trailing prev [] = omega arith
  checks-trailing prev ((probe, now) ∷ ps) = elim (Bool-cases (is_up probe m i tgt)) [
    | inl up ↦
        let r = checks-trailing (check_target probe now m i tgt (some prev)) ps in
        rw up (ground (arith, rw up at r))
    | inr down ↦
        let r = checks-trailing (check_target probe now m i tgt (some prev)) ps in
        rw down (ground (arith, rw down at r))
  ]

  -- From a target's first check on, the count is the number of failed checks since the last
  -- success; if all of them failed, the first one does not count.
  pub checks-trailing_first :
      (probe : Probe) (now : ℕ) (ps : List (Probe × ℕ))
      → count_of (checks m i tgt none ((probe, now) ∷ ps))
        ≡ (if all_down ((probe, now) ∷ ps) then length ps else trailing ((probe, now) ∷ ps))
  unfolding checks check_target next_count trailing
  checks-trailing_first probe now ps =
      let r = checks-trailing (check_target probe now m i tgt none) ps in
      elim (Bool-cases (is_up probe m i tgt)) [
        | inl up ↦ rw up (ground (arith, rw up at r, trailing-length ps))
        | inr down ↦ rw down (ground (arith, rw down at r, trailing-length ps))
      ]
