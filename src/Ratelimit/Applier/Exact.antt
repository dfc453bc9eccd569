-- ===== src/Ratelimit/Applier/Exact.antt =====
-- The rules that ApplyPlan (internal/ratelimit/applier.go) leaves in the state are those of the
-- plan, address by address.
use portguard_v.Base.{
  ◌≡◌, refl, sym, ap, subst, ◌∙◌, Bool, true, false, ◌&&◌, List, [], ◌∷◌, Option, none, some, Text,
  eqb, eqb_iff, is_empty, ℤ, int_eq_iff, if◌then◌else◌, inl, inr, Bool-cases, Option-cases, arith,
  ◌↔◌,
}
use portguard_v.Base.Maps.{
  Map, lookup, insert, delete, lookup-insert, lookup-delete, has_key, lookup-has_key-false,
  Distinct, insert-Distinct,
}
use portguard_v.Ratelimit.Plan.{Rule, same_limits}
use portguard_v.Ratelimit.Applier.{
  AppliedState, Command, History, enforceable, desired_rules, remove_vanished, apply_changed,
  apply_rule, apply_plan, load_state, Applied, applied, no_interface, failed_command, failed_save,
  is_unchanged, starting, finish, remove_rule,
}

-- The limits that a plan wants for an address: those of its last enforceable rule.
unfoldable pub wanted : Text → List Rule → Option (ℤ × ℤ)
wanted ip [] = none
wanted ip (r ∷ rs) = elim (wanted ip rs) [
  | some l ↦ some l
  | none ↦ if enforceable r && eqb r.source_ip ip then some (r.download_bps, r.upload_bps) else none
]

abbrev pub limits_of : Option Rule → Option (ℤ × ℤ)
limits_of none = none
limits_of (some r) = some (r.download_bps, r.upload_bps)

abbrev or_else : Option (ℤ × ℤ) → Option (ℤ × ℤ) → Option (ℤ × ℤ)
or_else none b = b
or_else (some a) b = some a

or_else-none : (a : Option (ℤ × ℤ)) → or_else a none ≡ a
or_else-none none = refl
or_else-none (some a) = refl

desired_rules-wanted :
    (m : Map Rule) (rs : List Rule) (ip : Text)
    → limits_of (lookup ip (desired_rules m rs)) ≡ or_else (wanted ip rs) (limits_of (lookup ip m))
unfolding desired_rules wanted
desired_rules-wanted m [] ip = refl
desired_rules-wanted m (r ∷ rs) ip = elim (Bool-cases (enforceable r)) [
  | inl e ↦ rw e (
      ground (
        arith,
        desired_rules-wanted (insert r.source_ip r m) rs ip,
        lookup-insert r.source_ip ip r m,
      ))
  | inr e ↦ rw e (ground (arith, desired_rules-wanted m rs ip))
]

pub desired_rules-limits :
    (rs : List Rule) (ip : Text) → limits_of (lookup ip (desired_rules [] rs)) ≡ wanted ip rs
unfolding lookup
desired_rules-limits rs ip = desired_rules-wanted [] rs ip ∙ or_else-none (wanted ip rs)

pub desired_rules-Distinct :
    (m : Map Rule) (rs : List Rule) → Distinct m → Distinct (desired_rules m rs)
unfolding desired_rules
desired_rules-Distinct m [] d = d
desired_rules-Distinct m (r ∷ rs) d = elim (Bool-cases (enforceable r)) [
  | inl e ↦
      rw e (desired_rules-Distinct (insert r.source_ip r m) rs (insert-Distinct r.source_ip r m d))
  | inr e ↦ rw e (desired_rules-Distinct m rs d)
]

pub same_limits_iff :
    (c r : Rule) → (same_limits c r ≡ true) ↔ (limits_of (some c) ≡ limits_of (some r))
same_limits_iff c r =
    ground (arith, int_eq_iff c.download_bps r.download_bps, int_eq_iff c.upload_bps r.upload_bps)

remove_vanished-lookup :
    (iface : Text) (desired before rules : Map Rule) (h : History) (ip : Text)
    → lookup ip (remove_vanished iface desired before (rules, h)).0 ≡ (elim (lookup ip desired) [
      | none ↦ if has_key ip before then none else lookup ip rules
      | some d ↦ lookup ip rules
    ])
unfolding remove_vanished
remove_vanished-lookup iface desired [] rules h ip = ground arith
remove_vanished-lookup iface desired ((j, r) ∷ before) rules h ip =
    elim (Option-cases (lookup j desired)) [
      | inl e ↦
          rw (remove_vanished, e)
            (ground (
              arith,
              remove_vanished-lookup iface desired before (delete j rules) (remove_rule iface j r h)
                  ip,
              lookup-delete j ip rules,
              eqb_iff j ip,
              ap (λ k. lookup k desired) {x = j} {y = ip},
            ))
      | inr (d, e) ↦
          rw (remove_vanished, e)
            (ground (arith, remove_vanished-lookup iface desired before rules h ip, eqb_iff j ip))
    ]

same_limits-limits : (c r : Rule) → same_limits c r ≡ true → limits_of (some c) ≡ limits_of (some r)
same_limits-limits c r h = (same_limits_iff c r).0 h

is_unchanged-limits :
    (ip : Text) (r : Rule) (rules : Map Rule)
    → is_unchanged ip r rules ≡ true
    → limits_of (lookup ip rules) ≡ some (r.download_bps, r.upload_bps)
is_unchanged-limits ip r rules h = elim (Option-cases (lookup ip rules)) [
  | inl e ↦ ground arith
  | inr (c, e) ↦ rw e (same_limits-limits c r (rw (is_unchanged, e) at h))
]

-- One more rule in front of the rules that are wanted.
wanted-cons :
    (desired rules : Map Rule) (j ip : Text) (r : Rule)
    → lookup j desired ≡ none
    → or_else
        (limits_of (lookup ip desired))
        (limits_of (if eqb j ip then some r else lookup ip rules))
      ≡ or_else
          (limits_of (if eqb j ip then some r else lookup ip desired))
          (limits_of (lookup ip rules))
wanted-cons desired rules j ip r n = elim (Bool-cases (eqb j ip)) [
  | inl q ↦
      let none_there : lookup ip desired ≡ none =
        subst (λ k. lookup k desired ≡ none) ((eqb_iff j ip).0 q) n in
      rw (q, none_there) refl
  | inr q ↦ rw q refl
]

wanted-unchanged :
    (desired rules : Map Rule) (j ip : Text) (r : Rule)
    → lookup j desired ≡ none
    → limits_of (lookup j rules) ≡ some (r.download_bps, r.upload_bps)
    → or_else (limits_of (lookup ip desired)) (limits_of (lookup ip rules))
      ≡ or_else
          (limits_of (if eqb j ip then some r else lookup ip desired))
          (limits_of (lookup ip rules))
wanted-unchanged desired rules j ip r n l = elim (Bool-cases (eqb j ip)) [
  | inl q ↦
      let p = (eqb_iff j ip).0 q in
      let none_there : lookup ip desired ≡ none = subst (λ k. lookup k desired ≡ none) p n in
      let limits_there : limits_of (lookup ip rules) ≡ some (r.download_bps, r.upload_bps) =
        subst (λ k. limits_of (lookup k rules) ≡ some (r.download_bps, r.upload_bps)) p l in
      rw (q, none_there) limits_there
  | inr q ↦ rw q refl
]

module _ (exec : History → Command → Bool) (iface : Text) where
  apply_changed-lookup :
      (desired rules : Map Rule) (h : History) (ip : Text)
      → Distinct desired
      → (apply_changed exec iface desired (rules, h)).0 ≡ true
      → limits_of (lookup ip (apply_changed exec iface desired (rules, h)).1.0)
        ≡ or_else (limits_of (lookup ip desired)) (limits_of (lookup ip rules))
  unfolding apply_changed lookup
  apply_changed-lookup [] rules h ip d ok = refl
  apply_changed-lookup ((j, r) ∷ desired) rules h ip (n, d) ok =
      elim (Bool-cases (is_unchanged j r rules)) [
        | inl same ↦ rw same (
            apply_changed-lookup desired rules h ip d (rw same at ok)
            ∙ wanted-unchanged desired rules j ip r n (is_unchanged-limits j r rules same))
        | inr differ ↦ elim (Bool-cases (apply_rule exec iface j r h).0) [
          | inl a ↦
              rw (differ, a)
                (apply_changed-lookup desired (insert j r rules) (apply_rule exec iface j r h).1 ip
                    d (rw (differ, a) at ok)
                  ∙ rw (lookup-insert j ip r rules) (wanted-cons desired rules j ip r n))
          | inr a ↦ let z : false ≡ true = rw (differ, a) at ok in ground arith
        ]
      ]

state_of : Applied → AppliedState
state_of (no_interface st) = st
state_of (failed_command st) = st
state_of (failed_save st) = st
state_of (applied st) = st

finish-applied :
    (exec : History → Command → Bool) (saves : AppliedState → Bool) (iface : Text)
    (r : Bool × (Map Rule × History)) (st : AppliedState)
    → (finish exec saves iface r).0 ≡ applied st
    → (r.0 ≡ true) × (saves st ≡ true) × (record { iface = iface; rules = r.1.0 } ≡ st)
unfolding finish state_of
finish-applied exec saves iface (false, (rules, h)) st e = ground arith
finish-applied exec saves iface (true, (rules, h)) st e =
    let at_end : AppliedState = record { iface = iface; rules = rules } in
    elim (Bool-cases (saves at_end)) [
      | inl s ↦
          let q : at_end ≡ st = ap state_of (rw s at e) in
          (refl, subst (λ z. saves z ≡ true) q s, q)
      | inr s ↦ let z : failed_save at_end ≡ applied st = rw s at e in ground arith
    ]

remaining :
    (iface : Text) (desired rules : Map Rule) (h : History) (ip : Text)
    → or_else
        (limits_of (lookup ip desired))
        (limits_of (lookup ip (remove_vanished iface desired rules (rules, h)).0))
      ≡ limits_of (lookup ip desired)
remaining iface desired rules h ip =
    let e = remove_vanished-lookup iface desired rules rules h ip in
    elim (Option-cases (lookup ip desired)) [
      | inr (d, q) ↦ rw q refl
      | inl q ↦ elim (Bool-cases (has_key ip rules)) [
        | inl k ↦ rw (q, rw (q, k) at e) refl
        | inr k ↦ rw (q, (rw (q, k) at e) ∙ lookup-has_key-false ip rules k) refl
      ]
    ]

module _ (exec : History → Command → Bool) (saves : AppliedState → Bool) (iface : Text)
    (file : Option AppliedState) (plan : List Rule) (h : History) where
  abbrev changed : Bool × (Map Rule × History)
  changed =
      let start = starting (load_state file) iface h in
      let desired = desired_rules [] plan in
      apply_changed exec iface desired (remove_vanished iface desired start.0 start)

  -- ApplyPlan succeeds only past all of its early returns.
  pub apply_plan-applied :
      (st : AppliedState)
      → (apply_plan exec saves iface file plan h).0 ≡ applied st
      → (is_empty iface ≡ false)
        × (changed.0 ≡ true)
        × (saves st ≡ true)
        × (record { iface = iface; rules = changed.1.0 } ≡ st)
  unfolding apply_plan
  apply_plan-applied st e = elim (Bool-cases (is_empty iface)) [
    | inl n ↦ let z : no_interface (load_state file) ≡ applied st = rw n at e in ground arith
    | inr n ↦
        let (ok, s, q) = finish-applied exec saves iface changed st (rw n at e) in (n, ok, s, q)
  ]

  -- If ApplyPlan succeeds, the saved state names the interface, and its rule of every address has
  -- the limits of the plan's last enforceable rule of that address, or is absent if there is none.
  pub apply_plan-IsExact :
      (st : AppliedState)
      → (apply_plan exec saves iface file plan h).0 ≡ applied st
      → (st.iface ≡ iface) × ((ip : Text) → limits_of (lookup ip st.rules) ≡ wanted ip plan)
  unfolding lookup
  apply_plan-IsExact st e =
      let (n, ok, s, q) = apply_plan-applied st e in
      let start = starting (load_state file) iface h in
      let desired = desired_rules [] plan in
      let kept = remove_vanished iface desired start.0 start in
      (
        sym (ap (λ z. z.iface) q),
        λ ip.
            ap (λ z. limits_of (lookup ip z.rules)) (sym q)
            ∙ apply_changed-lookup exec iface desired kept.0 kept.1 ip
                (desired_rules-Distinct [] plan tt) ok
            ∙ remaining iface desired start.0 start.1 ip
            ∙ desired_rules-limits plan ip,
      )
