-- ===== src/Health.antt =====
-- The health checks of the targets (internal/health/health.go), with the statements on the table
-- target_health of internal/store/mappings.go. The table and the map of the previous round are keyed
-- by the text that the source makes of a mapping's identifier and a target's index. What a probe
-- of a target finds is an argument; the latencies are left out. The goroutines of a round only add
-- their results, here in the order of the targets.
mod Tests
pub mod Table
pub mod Streak
pub mod Totals
use portguard_v.Base.{
  ℕ, ◌+◌, zero, suc, ltb, Bool, true, false, not, ◌&&◌, ◌||◌, List, [], ◌∷◌, ◌++◌, Option, none,
  some, is_some, Text, codes, eqb, ℤ, pos, negsuc, int_eq, any, if◌then◌else◌,
}
use portguard_v.Base.Decimal.{decimal}
use portguard_v.Base.Maps.{Map, lookup, insert, delete}
use portguard_v.Proxy.Model.{Mapping, Target}

pub record TargetHealth : Type 0 where
  pub mapping_id : ℤ
  pub target_index : ℕ
  pub host : Text
  pub port : ℤ
  pub status : Text
  pub fail_count : ℕ
  pub last_check_at : ℕ

-- What the network answers: the status code of the request, `none` without an answer, and whether
-- the connection can be made.
pub record Probe : Type 0 where
  pub http : Mapping → ℕ → Target → Option ℕ
  pub dial : Mapping → ℕ → Target → Bool

-- Which statements of a round fail in the database.
pub record Faults : Type 0 where
  pub mappings_fail : Bool
  pub health_fails : Bool
  pub upsert_fails : TargetHealth → Bool
  pub delete_fails : Text → Bool

unfoldable pub signed : ℤ → Text
signed (pos n) = decimal n
signed (negsuc n) = b'-' ∷ decimal (suc n)

-- `fmt.Sprintf("%d:%d", mapping, index)`.
unfoldable pub health_key : ℤ → ℕ → Text
unfolding signed
health_key mapping index = signed mapping ++ b':' ∷ decimal index

abbrev pub key_of : TargetHealth → Text
key_of h = health_key h.mapping_id h.target_index

abbrev answered : Option ℕ → Bool
answered none = false
answered (some code) = ltb code 500

unfoldable pub is_up : Probe → Mapping → ℕ → Target → Bool
is_up probe m i tgt =
    (eqb m.protocol (codes "http") || eqb m.protocol (codes "https"))
      && answered (probe.http m i tgt)
    || probe.dial m i tgt

-- The bookkeeping at the end of checkTarget; `none` is a target that is not known yet.
unfoldable pub next_count : Bool → Option TargetHealth → ℕ
next_count up none = 0
next_count true (some prev) = 0
next_count false (some prev) = prev.fail_count + 1

unfoldable pub check_target : Probe → ℕ → Mapping → ℕ → Target → Option TargetHealth → TargetHealth
unfolding is_up next_count
check_target probe now m i tgt prev = record {
  mapping_id = m.id;
  target_index = i;
  host = tgt.host;
  port = tgt.port;
  status = if is_up probe m i tgt then codes "up" else codes "down";
  fail_count = next_count (is_up probe m i tgt) prev;
  last_check_at = now;
}

unfoldable pub check_targets :
    Probe → ℕ → Map TargetHealth → Mapping → ℕ → List Target → List TargetHealth
unfolding check_target
check_targets probe now prev m i [] = []
check_targets probe now prev m i (tgt ∷ ts) =
    check_target probe now m i tgt (lookup (health_key m.id i) prev)
    ∷ check_targets probe now prev m (suc i) ts

unfoldable pub check_mappings : Probe → ℕ → Map TargetHealth → List Mapping → List TargetHealth
unfolding check_targets
check_mappings probe now prev [] = []
check_mappings probe now prev (m ∷ ms) =
    let rest = check_mappings probe now prev ms in
    if m.enabled then check_targets probe now prev m 0 m.targets ++ rest else rest

abbrev pub has_result : Text → List TargetHealth → Bool
has_result k = any (λ h. eqb (key_of h) k)

-- DeleteHealth for every key of the previous round without a result.
unfoldable pub delete_stale :
    (Text → Bool) → List TargetHealth → Map TargetHealth → Map TargetHealth → Map TargetHealth
delete_stale fails results [] rows = rows
delete_stale fails results ((k, h) ∷ prev) rows =
    delete_stale fails results prev
      (if has_result k results || fails k then rows else delete k rows)

-- UpsertHealth for every result.
unfoldable pub upsert_all :
    (TargetHealth → Bool) → List TargetHealth → Map TargetHealth → Map TargetHealth
upsert_all fails [] rows = rows
upsert_all fails (h ∷ hs) rows =
    upsert_all fails hs (if fails h then rows else insert (key_of h) h rows)

-- The results that the broker gets: those of new targets, and those that change the status.
abbrev changed : Map TargetHealth → TargetHealth → Bool
changed prev h = elim (lookup (key_of h) prev) [
  | none ↦ true
  | some p ↦ not (eqb p.status h.status)
]

unfoldable pub published :
    (TargetHealth → Bool) → Map TargetHealth → List TargetHealth → List TargetHealth
published fails prev [] = []
published fails prev (h ∷ hs) =
    let rest = published fails prev hs in if not (fails h) && changed prev h then h ∷ rest else rest

-- The rows after a round, and what it publishes.
unfoldable pub round :
    Probe → Faults → ℕ → List Mapping → Map TargetHealth → Map TargetHealth × List TargetHealth
unfolding check_mappings delete_stale upsert_all published
round probe f now mappings rows =
    let prev = if f.health_fails then [] else rows in
    let results = check_mappings probe now prev mappings in
    let kept = delete_stale f.delete_fails results prev rows in
    if f.mappings_fail
    then (rows, [])
    else (upsert_all f.upsert_fails results kept, published f.upsert_fails prev results)

-- The counts of Summary: up, down and anything else.
pub record Counts : Type 0 where
  pub up : ℕ
  pub down : ℕ
  pub unknown : ℕ

unfoldable pub count_health : ℤ → List TargetHealth → Counts → Counts
count_health id [] c = c
count_health id (h ∷ hs) c =
    let skip = count_health id hs c in
    let add = count_health id hs (
      if eqb h.status (codes "up")
      then record c { up = c.up + 1 }
      else if eqb h.status (codes "down")
      then record c { down = c.down + 1 }
      else record c { unknown = c.unknown + 1 }) in
    if int_eq h.mapping_id id then add else skip

unfoldable pub count_mappings : List Mapping → List TargetHealth → Counts → Counts
unfolding count_health
count_mappings [] hs c = c
count_mappings (m ∷ ms) hs c =
    count_mappings ms hs (if m.enabled then count_health m.id hs c else c)

unfoldable pub summary : List Mapping → List TargetHealth → Counts
unfolding count_mappings
summary ms hs = count_mappings ms hs (record { up = 0; down = 0; unknown = 0 })
