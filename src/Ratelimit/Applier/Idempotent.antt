-- ===== src/Ratelimit/Applier/Idempotent.antt =====
-- ApplyPlan (internal/ratelimit/applier.go) once more with the same plan: no command runs.
use portguard_v.Base.{
  ◌≡◌, refl, sym, ap, subst, ◌∙◌, Bool, true, List, [], ◌∷◌, Option, none, some, is_some, Text, eqb,
  eqb_iff, eqb_refl, inl, inr, Bool-cases, Option-cases, arith,
}
use portguard_v.Base.Maps.{Map, lookup, has_key, lookup-has_key, Distinct}
use portguard_v.Ratelimit.Plan.{Rule}
use portguard_v.Ratelimit.Applier.{
  AppliedState, Command, History, desired_rules, remove_vanished, apply_changed, apply_plan,
  starting, finish, applied, is_unchanged,
}
use portguard_v.Ratelimit.Applier.Exact.{
  limits_of, desired_rules-limits, desired_rules-Distinct, same_limits_iff, apply_plan-applied,
  apply_plan-IsExact,
}

limits-some : (o : Option Rule) (l : Rule) → limits_of (some l) ≡ limits_of o → is_some o ≡ true
limits-some none l h = ground arith
limits-some (some r) l h = refl

remove_vanished-still :
    (iface : Text) (desired before : Map Rule) (s : Map Rule × History)
    → ((ip : Text) → has_key ip before ≡ true → is_some (lookup ip desired) ≡ true)
    → remove_vanished iface desired before s ≡ s
unfolding remove_vanished
remove_vanished-still iface desired [] s wants = refl
remove_vanished-still iface desired ((j, r) ∷ before) s wants =
    elim (Option-cases (lookup j desired)) [
      | inl e ↦
          let z : is_some (lookup j desired) ≡ true = wants j (ground (arith, eqb_refl j)) in
          let y : is_some {A = Rule} none ≡ true = rw e at z in ground arith
      | inr (d, e) ↦
          rw (remove_vanished, e)
            (remove_vanished-still iface desired before s (λ ip k. wants ip (ground arith)))
    ]

limits-is_unchanged :
    (ip : Text) (r : Rule) (rules : Map Rule)
    → limits_of (lookup ip rules) ≡ limits_of (some r)
    → is_unchanged ip r rules ≡ true
limits-is_unchanged ip r rules h = elim (Option-cases (lookup ip rules)) [
  | inl e ↦ let z : none ≡ limits_of (some r) = rw e at h in ground arith
  | inr (c, e) ↦ rw (is_unchanged, e) ((same_limits_iff c r).1 (rw e at h))
]

-- The first entry of the desired rules, and the entries after it.
module _ (desired rules : Map Rule) (j : Text) (r : Rule) where
  Agrees : Text → Type 0
  Agrees ip =
      is_some (lookup ip ((j, r) ∷ desired)) ≡ true
      → limits_of (lookup ip rules) ≡ limits_of (lookup ip ((j, r) ∷ desired))

  lookup-own : Agrees j → limits_of (lookup j rules) ≡ limits_of (some r)
  unfolding Agrees lookup
  lookup-own agree =
      let e : lookup j ((j, r) ∷ desired) ≡ some r = rw (eqb_refl j) refl in
      agree (ap is_some e) ∙ ap limits_of e

  lookup-tail :
      (ip : Text)
      → lookup j desired ≡ none
      → is_some (lookup ip desired) ≡ true
      → Agrees ip
      → limits_of (lookup ip rules) ≡ limits_of (lookup ip desired)
  unfolding Agrees lookup
  lookup-tail ip n k agree = elim (Bool-cases (eqb j ip)) [
    | inl e ↦
        let z : is_some (lookup j desired) ≡ true =
          subst (λ t. is_some (lookup t desired) ≡ true) (sym ((eqb_iff j ip).0 e)) k in
        let y : is_some {A = Rule} none ≡ true = rw n at z in ground arith
    | inr e ↦
        let q : lookup ip ((j, r) ∷ desired) ≡ lookup ip desired = rw e refl in
        agree (ap is_some q ∙ k) ∙ ap limits_of q
  ]

apply_changed-still :
    (exec : History → Command → Bool) (iface : Text) (desired rules : Map Rule) (h : History)
    → Distinct desired
    → ((ip : Text)
        → is_some (lookup ip desired) ≡ true
        → limits_of (lookup ip rules) ≡ limits_of (lookup ip desired))
    → apply_changed exec iface desired (rules, h) ≡ (true, (rules, h))
unfolding apply_changed lookup Agrees
apply_changed-still exec iface [] rules h d agree = refl
apply_changed-still exec iface ((j, r) ∷ desired) rules h (n, d) agree =
    let own : limits_of (lookup j rules) ≡ limits_of (some r) =
      lookup-own desired rules j r (agree j) in
    rw (limits-is_unchanged j r rules own) (
      apply_changed-still exec iface desired rules h d
        (λ ip k. lookup-tail desired rules j r ip n k (agree ip)))

module _ (exec : History → Command → Bool) (saves : AppliedState → Bool) (iface : Text)
    (file : Option AppliedState) (plan : List Rule) (h : History) where
  -- After a success, applying the same plan again to the saved state, on the same interface, runs
  -- no command and succeeds with the same state.
  pub apply_plan-apply_plan :
      (st : AppliedState) (later : History)
      → (apply_plan exec saves iface file plan h).0 ≡ applied st
      → apply_plan exec saves iface (some st) plan later ≡ (applied st, later)
  unfolding apply_plan starting finish
  apply_plan-apply_plan st later e =
      let (n, ok, s, q) = apply_plan-applied exec saves iface file plan h st e in
      let (same, exact) = apply_plan-IsExact exec saves iface file plan h st e in
      let agree : (ip : Text)
          → limits_of (lookup ip st.rules) ≡ limits_of (lookup ip (desired_rules [] plan)) =
        λ ip. exact ip ∙ sym (desired_rules-limits plan ip) in
      let still =
        remove_vanished-still iface (desired_rules [] plan) st.rules (st.rules, later)
          (λ ip k.
            let (v, l) = lookup-has_key ip st.rules k in
            limits-some _ v (sym (ap limits_of l) ∙ agree ip)) in
      let unchanged =
        apply_changed-still exec iface (desired_rules [] plan) st.rules later
          (desired_rules-Distinct [] plan tt) (λ ip k. agree ip) in
      let saved : AppliedState = record { iface = iface; rules = st.rules } in
      let back : saved ≡ st = subst (λ z. record { iface = z; rules = st.rules } ≡ st) same refl in
      let ok_again : saves saved ≡ true = rw back s in
      rw (same, n, eqb_refl iface, still, unchanged, ok_again) refl
