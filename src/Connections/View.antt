-- ===== src/Connections/View.antt =====
-- What Collect and EnrichManaged (internal/conntrack/conntrack.go) give for each connection.
use portguard_v.Base.{
  true, false, ◌||◌, List, [], ◌∷◌, All, Option, none, some, Text, codes, eqb, contains, is_empty,
  ℤ, int_eq_iff, ◌≡◌, ◌↔◌, inl, inr, refl, Bool-cases, split, trim_space,
}
use portguard_v.Base.Words.{fields}
use portguard_v.Proxy.Model.{Mapping}
use portguard_v.Connections.{
  ConnEntry, IpClass, is_local, addr, conn_entry, collect_fields, collect_lines,
  collect_connections, SsResult, enrich_entry, enrich_managed, skips,
}
use portguard_v.Connections.Managed.{Managed, managed_iff}

module _ (parse_ip : Text → Option IpClass) where
  -- An established connection from a remote peer, with the flags that the mappings give it.
  abbrev pub IsView : List Mapping → ℤ → ConnEntry → Type 0
  IsView ms panel_port e =
      (e.state ≡ codes "ESTAB")
      × (is_local parse_ip e.src_ip ≡ false)
      × ((e.managed ≡ true) ↔ Managed ms e)
      × ((e.self ≡ true) ↔ (e.dst_port ≡ panel_port))
      × (e.inner ≡ is_local parse_ip e.dst_ip)

  abbrev pub IsInbound : ConnEntry → Type 0
  IsInbound e = (e.state ≡ codes "ESTAB") × (is_local parse_ip e.src_ip ≡ false)

  enrich_entry-IsView :
      (ms : List Mapping) (panel_port : ℤ) (e : ConnEntry)
      → IsInbound e
      → IsView ms panel_port (enrich_entry parse_ip ms panel_port e)
  unfolding enrich_entry
  enrich_entry-IsView ms panel_port e (state, peer) = (
    state,
    peer,
    managed_iff e.dst_port ms e.process (codes "nginx") (codes "haproxy") (codes "xray"),
    int_eq_iff e.dst_port panel_port,
    refl,
  )

  pub enrich_managed-IsView :
      (ms : List Mapping) (panel_port : ℤ) (es : List ConnEntry)
      → All IsInbound es
      → All (IsView ms panel_port) (enrich_managed parse_ip ms panel_port es)
  unfolding enrich_managed
  enrich_managed-IsView ms panel_port [] h = tt
  enrich_managed-IsView ms panel_port (e ∷ es) (i, h) =
      (enrich_entry-IsView ms panel_port e i, enrich_managed-IsView ms panel_port es h)

  abbrev IfSome : Option ConnEntry → Type 0
  IfSome none = Unit
  IfSome (some e) = IsInbound e

  collect_fields-IsInbound :
      (line : Text) (fs : List Text) → IfSome (collect_fields parse_ip line fs)
  unfolding collect_fields conn_entry
  collect_fields-IsInbound line [] = tt
  collect_fields-IsInbound line (a ∷ []) = tt
  collect_fields-IsInbound line (a ∷ b ∷ []) = tt
  collect_fields-IsInbound line (a ∷ b ∷ c ∷ []) = tt
  collect_fields-IsInbound line (a ∷ b ∷ c ∷ d ∷ []) = tt
  collect_fields-IsInbound line (a ∷ b ∷ c ∷ d ∷ e ∷ more) =
      elim (Bool-cases (eqb a (codes "ESTAB"))) [
        | inr n ↦ rw n tt
        | inl y ↦ elim (Bool-cases (is_local parse_ip (addr e).0)) [
          | inl l ↦ rw (y, l) tt
          | inr r ↦ rw (y, r) (refl, r)
        ]
      ]

  kept :
      (o : Option ConnEntry) (rest : List ConnEntry)
      → IfSome o
      → All IsInbound rest
      → All IsInbound (elim o [ none ↦ rest | some e ↦ e ∷ rest ])
  kept none rest i h = h
  kept (some e) rest i h = (i, h)

  collect_lines-IsInbound : (ls : List Text) → All IsInbound (collect_lines parse_ip ls)
  unfolding collect_lines
  collect_lines-IsInbound [] = tt
  collect_lines-IsInbound (l ∷ ls) =
      let line = trim_space l in
      let rest = collect_lines-IsInbound ls in
      elim (Bool-cases (skips line)) [
        | inl s ↦ rw s rest
        | inr n ↦ rw n (kept _ _ (collect_fields-IsInbound line (fields line)) rest)
      ]

  abbrev pub IfCollected : Option (List ConnEntry) → Type 0
  IfCollected none = Unit
  IfCollected (some es) = All IsInbound es

  pub collect_connections-IsInbound :
      (ss : SsResult) → IfCollected (collect_connections parse_ip ss)
  unfolding collect_connections
  collect_connections-IsInbound ss = elim (Bool-cases ss.failed) [
    | inr n ↦ rw n (collect_lines-IsInbound (split b'\n' ss.output))
    | inl f ↦ elim (Bool-cases (contains ss.output (codes "not found") || is_empty ss.output)) [
      | inl y ↦ rw (f, y) tt
      | inr n ↦ rw (f, n) tt
    ]
  ]
