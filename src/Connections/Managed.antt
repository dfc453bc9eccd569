-- ===== src/Connections/Managed.antt =====
-- Which connections EnrichManaged (internal/conntrack/conntrack.go) calls managed.
use portguard_v.Base.{
  Bool, true, false, ◌||◌, List, [], ◌∷◌, any, In, Text, codes, eqb, eqb_iff, ℤ, int_eq, int_eq_iff,
  ◌≡◌, ◌↔◌, ◌⊎◌, inl, inr, refl, sym, ap, ◌∙◌, Bool-cases, arith,
}
use portguard_v.Proxy.Model.{Mapping}
use portguard_v.Connections.{ConnEntry, managed_ports}

abbrev pub Listens : ℤ → List Mapping → Type 0
Listens p ms = (m : Mapping) × In m ms × (m.enabled ≡ true) × (m.listen_port ≡ p)

-- An enabled mapping listens on the port, or a proxy serves the connection.
abbrev pub Managed : List Mapping → ConnEntry → Type 0
Managed ms e =
    Listens e.dst_port ms ⊎ In e.process (codes "nginx" ∷ codes "haproxy" ∷ codes "xray" ∷ [])

further : (p : ℤ) (m : Mapping) (ms : List Mapping) → Listens p ms → Listens p (m ∷ ms)
further p m ms (k, i, o, e) = (k, inr i, o, e)

managed_ports-Listens :
    (p : ℤ) (ms : List Mapping) → any (int_eq p) (managed_ports ms) ≡ true → Listens p ms
unfolding managed_ports
managed_ports-Listens p [] h = ground arith
managed_ports-Listens p (m ∷ ms) h = elim (Bool-cases m.enabled) [
  | inr off ↦ further p m ms (managed_ports-Listens p ms (rw (off, managed_ports) at h))
  | inl on ↦
      let both : (int_eq p m.listen_port || any (int_eq p) (managed_ports ms)) ≡ true =
        rw (on, managed_ports) at h in
      elim (Bool-cases (int_eq p m.listen_port)) [
        | inl e ↦ (m, inl refl, on, sym ((int_eq_iff p m.listen_port).0 e))
        | inr n ↦
            let rest : any (int_eq p) (managed_ports ms) ≡ true = ground arith in
            further p m ms (managed_ports-Listens p ms rest)
      ]
]

Listens-managed_ports :
    (p : ℤ) (ms : List Mapping) (m : Mapping)
    → In m ms
    → m.enabled ≡ true
    → m.listen_port ≡ p
    → any (int_eq p) (managed_ports ms) ≡ true
unfolding managed_ports
Listens-managed_ports p [] m i on e = absurd i
Listens-managed_ports p (n ∷ ns) m (inl q) on e =
    let on' : n.enabled ≡ true = ap (λ (x : Mapping). x.enabled) q ∙ on in
    let same : int_eq p n.listen_port ≡ true =
      (int_eq_iff p n.listen_port).1 (sym e ∙ ap (λ (x : Mapping). x.listen_port) (sym q)) in
    ground arith
Listens-managed_ports p (n ∷ ns) m (inr i) on e =
    let rest = Listens-managed_ports p ns m i on e in ground arith

proxy_names :
    (name a b c : Text)
    → In name (a ∷ b ∷ c ∷ [])
    → (eqb name a || (eqb name b || eqb name c)) ≡ true
proxy_names name a b c (inl e) =
    let h : eqb name a ≡ true = (eqb_iff name a).1 (sym e) in ground arith
proxy_names name a b c (inr (inl e)) =
    let h : eqb name b ≡ true = (eqb_iff name b).1 (sym e) in ground arith
proxy_names name a b c (inr (inr (inl e))) =
    let h : eqb name c ≡ true = (eqb_iff name c).1 (sym e) in ground arith
proxy_names name a b c (inr (inr (inr f))) = absurd f

In-proxy_names :
    (name a b c : Text)
    → (eqb name a || (eqb name b || eqb name c)) ≡ true
    → In name (a ∷ b ∷ c ∷ [])
In-proxy_names name a b c h = elim (Bool-cases (eqb name a)) [
  | inl e ↦ inl (sym ((eqb_iff name a).0 e))
  | inr n ↦ elim (Bool-cases (eqb name b)) [
    | inl e ↦ inr (inl (sym ((eqb_iff name b).0 e)))
    | inr o ↦
        let last : eqb name c ≡ true = ground arith in
        inr (inr (inl (sym ((eqb_iff name c).0 last))))
  ]
]

either : (p n : Bool) → (p || n) ≡ true → (p ≡ true) ⊎ (n ≡ true)
either true n h = inl refl
either false n h = inr h

or_left : (p n : Bool) → p ≡ true → (p || n) ≡ true
or_left p n h = ground arith

or_right : (p n : Bool) → n ≡ true → (p || n) ≡ true
or_right p n h = ground arith

pub managed_iff :
    (p : ℤ) (ms : List Mapping) (name a b c : Text)
    → ((any (int_eq p) (managed_ports ms) || (eqb name a || (eqb name b || eqb name c))) ≡ true)
      ↔ (Listens p ms ⊎ In name (a ∷ b ∷ c ∷ []))
managed_iff p ms name a b c = (
  (λ h. elim (either _ _ h) [
    | inl l ↦ inl (managed_ports-Listens p ms l)
    | inr r ↦ inr (In-proxy_names name a b c r)
  ]),
  (λ h. elim h [
    | inl (m, i, on, e) ↦ or_left _ _ (Listens-managed_ports p ms m i on e)
    | inr i ↦ or_right _ _ (proxy_names name a b c i)
  ]),
)
