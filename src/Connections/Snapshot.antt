-- ===== src/Connections/Snapshot.antt =====
-- What the table of connections holds after any rounds of the sampler (internal/conntrack/conntrack.go).
use portguard_v.Base.{
  ℕ, Bool, true, ◌&&◌, List, [], ◌∷◌, All, Option, Text, ℤ, ◌≡◌, is_some, if◌then◌else◌,
}
use portguard_v.Proxy.Model.{Mapping}
use portguard_v.Connections.{IpClass, collect_connections, Sampler, Round, listed}
use portguard_v.Connections.View.{IsView}

-- The count that onChange got last, and 0 before its first call.
abbrev pub reported : List ℕ → ℕ
reported [] = 0
reported (n ∷ ns) = n

module _ (parse_ip : Text → Option IpClass) (panel_port : ℤ) (listens : Bool) where
  -- The table shows the established connections from outside, flagged by the mappings, and the
  -- listener knows the size of the last snapshot.
  abbrev pub IsConsistent : List Mapping → Sampler → Type 0
  IsConsistent ms s =
      All (IsView parse_ip ms panel_port) s.rows
      × (listens ≡ true → reported s.calls ≡ s.last_count)

  -- The mappings that the last round listed whose snapshot was taken and stored, those given if
  -- there is no such round.
  abbrev pub flagged_by : List Mapping → List Round → List Mapping
  flagged_by ms [] = ms
  flagged_by ms (r ∷ rs) =
      flagged_by
        (if is_some (collect_connections parse_ip r.ss) && r.stored then listed r.mappings else ms)
        rs
