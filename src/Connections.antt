-- ===== src/Connections.antt =====
-- The connection sampler of internal/conntrack/conntrack.go, with ReplaceConnections of
-- internal/store/mappings.go.
pub mod Managed
pub mod View
pub mod Replace
pub mod Snapshot
pub mod Tests
use portguard_v.Base.{
  ℕ, zero, suc, ◌+◌, ◌++◌, Bool, true, false, not, ◌&&◌, ◌||◌, List, [], ◌∷◌, map, any, length,
  Option, none, some, Text, codes, eqb, is_empty, contains, has_prefix, trim_prefix, trim_space,
  trim, split, ltb, ℤ, pos, int_eq, if◌then◌else◌, ◌==◌,
}
use portguard_v.Base.Words.{fields, cut, cut_last, atoi_value}
use portguard_v.Proxy.Model.{Mapping}

-- ConnEntry of internal/store/models.go.
pub record ConnEntry : Type 0 where
  pub src_ip : Text
  pub src_port : ℤ
  pub dst_ip : Text
  pub dst_port : ℤ
  pub process : Text
  pub pid : ℤ
  pub uid : ℤ
  pub state : Text
  pub managed : Bool
  pub inner : Bool
  pub self : Bool
  pub first_seen : ℕ
  pub last_seen : ℕ

-- What net.ParseIP gives: whether the address is the loopback or unspecified.
pub record IpClass : Type 0 where
  pub is_loopback : Bool
  pub is_unspecified : Bool

unfoldable pub is_local : (Text → Option IpClass) → Text → Bool
is_local parse_ip ip = elim (parse_ip ip) [
  | none ↦ true
  | some c ↦ c.is_loopback || c.is_unspecified || is_empty ip
]

unfoldable pub addr : Text → Text × ℤ
unfolding cut cut_last
addr s =
    if has_prefix s (codes "[")
    then elim (cut b']' (trim_prefix s (codes "["))) [
      | none ↦ (s, pos 0)
      | some (ip, rest) ↦ (ip, atoi_value (trim_prefix rest (codes ":")))
    ]
    else elim (cut_last b':' s) [ none ↦ (s, pos 0) | some (ip, port) ↦ (ip, atoi_value port) ]

-- What is in front of the first place where a text stands, and what starts there.
unfoldable pub find : Text → Text → Option (Text × Text)
find [] w = if is_empty w then some ([], []) else none
find (c ∷ s) w =
    let rest = find s w in
    if has_prefix (c ∷ s) w
    then some ([], c ∷ s)
    else elim rest [ none ↦ none | some (before, found) ↦ some (c ∷ before, found) ]

abbrev drop : ℕ → Text → Text
drop zero s = s
drop (suc n) [] = []
drop (suc n) (c ∷ s) = drop n s

abbrev first_pid : List Text → ℤ
first_pid [] = pos 0
first_pid (p ∷ ps) =
    let rest = first_pid ps in
    if has_prefix p (codes "pid=") then atoi_value (trim_prefix p (codes "pid=")) else rest

abbrev name_and_pid : List Text → Text × ℤ
name_and_pid [] = ([], pos 0)
name_and_pid (name ∷ ps) = (trim (λ c. c == b'"') name, first_pid ps)

unfoldable pub parse_proc : Text → Text × ℤ
unfolding find split trim
parse_proc s = elim (find s (codes "((")) [
  | none ↦ ([], pos 0)
  | some (before, found) ↦ elim (find s (codes "))")) [
    | none ↦ ([], pos 0)
    | some (head, close) ↦
        if ltb (length head) (length before)
        then ([], pos 0)
        else name_and_pid (split b',' (drop (length before + 2) head))
  ]
]

abbrev process_of : Text → Text × ℤ
process_of line = elim (find line (codes "users:")) [
  | none ↦ ([], pos 0)
  | some (before, found) ↦ parse_proc found
]

-- The entry of an established connection, from its line and its two addresses.
unfoldable pub conn_entry : Text → Text → Text → ConnEntry
unfolding addr parse_proc
conn_entry line local peer = record {
  src_ip = (addr peer).0;
  src_port = (addr peer).1;
  dst_ip = (addr local).0;
  dst_port = (addr local).1;
  process = (process_of line).0;
  pid = (process_of line).1;
  uid = pos 0;
  state = codes "ESTAB";
  managed = false;
  inner = false;
  self = false;
  first_seen = 0;
  last_seen = 0;
}

abbrev pub skips : Text → Bool
skips line = is_empty line || has_prefix line (codes "State") || has_prefix line (codes "Recv-Q")

unfoldable pub collect_fields : (Text → Option IpClass) → Text → List Text → Option ConnEntry
unfolding conn_entry is_local addr
collect_fields parse_ip line (state ∷ recv ∷ send ∷ local ∷ peer ∷ more) =
    if not (eqb state (codes "ESTAB"))
    then none
    else if is_local parse_ip (addr peer).0
    then none
    else some (conn_entry line local peer)
collect_fields parse_ip line others = none

unfoldable pub collect_lines : (Text → Option IpClass) → List Text → List ConnEntry
unfolding collect_fields trim_space
collect_lines parse_ip [] = []
collect_lines parse_ip (l ∷ ls) =
    let rest = collect_lines parse_ip ls in
    let line = trim_space l in
    if skips line
    then rest
    else elim (collect_fields parse_ip line (fields line)) [ none ↦ rest | some e ↦ e ∷ rest ]

-- What the command `ss -tnp` gives.
pub record SsResult : Type 0 where
  pub output : Text
  pub failed : Bool

-- `none` is an error.
unfoldable pub collect_connections : (Text → Option IpClass) → SsResult → Option (List ConnEntry)
unfolding collect_lines split contains
collect_connections parse_ip ss =
    if ss.failed
    then (if contains ss.output (codes "not found") || is_empty ss.output then some [] else none)
    else some (collect_lines parse_ip (split b'\n' ss.output))

unfoldable pub managed_ports : List Mapping → List ℤ
managed_ports [] = []
managed_ports (m ∷ ms) =
    let rest = managed_ports ms in if m.enabled then m.listen_port ∷ rest else rest

unfoldable pub enrich_entry : (Text → Option IpClass) → List Mapping → ℤ → ConnEntry → ConnEntry
unfolding managed_ports is_local
enrich_entry parse_ip mappings panel_port e = record e {
  managed =
      any (int_eq e.dst_port) (managed_ports mappings)
      || (eqb e.process (codes "nginx")
          || (eqb e.process (codes "haproxy") || eqb e.process (codes "xray")));
  inner = is_local parse_ip e.dst_ip;
  self = int_eq e.dst_port panel_port;
}

unfoldable pub enrich_managed :
    (Text → Option IpClass) → List Mapping → ℤ → List ConnEntry → List ConnEntry
unfolding enrich_entry
enrich_managed parse_ip mappings panel_port es = map (enrich_entry parse_ip mappings panel_port) es

-- The primary key of the table.
unfoldable pub same_key : ConnEntry → ConnEntry → Bool
same_key r c =
    eqb r.src_ip c.src_ip
    && int_eq r.src_port c.src_port
    && eqb r.dst_ip c.dst_ip
    && int_eq r.dst_port c.dst_port

abbrev pub refresh_row : ℕ → ConnEntry → ConnEntry → ConnEntry
refresh_row now c r =
    if same_key r c then record c { first_seen = r.first_seen; last_seen = now } else r

-- An upsert updates the row of its key, of which it keeps first_seen, or adds a row.
unfoldable pub upsert : ℕ → ConnEntry → List ConnEntry → List ConnEntry
unfolding same_key
upsert now c rows =
    map (refresh_row now c) rows
    ++ (if any (λ r. same_key r c) rows
        then []
        else record c { first_seen = now; last_seen = now } ∷ [])

unfoldable pub upsert_each : ℕ → List ConnEntry → List ConnEntry → List ConnEntry
unfolding upsert
upsert_each now [] rows = rows
upsert_each now (c ∷ cs) rows = upsert_each now cs (upsert now c rows)

unfoldable pub delete_vanished : List ConnEntry → List ConnEntry → List ConnEntry
unfolding same_key
delete_vanished conns [] = []
delete_vanished conns (r ∷ rs) =
    let rest = delete_vanished conns rs in if any (same_key r) conns then r ∷ rest else rest

unfoldable pub replace_connections : ℕ → List ConnEntry → List ConnEntry → List ConnEntry
unfolding upsert_each delete_vanished
replace_connections now conns rows = delete_vanished conns (upsert_each now conns rows)

-- The table, the count of the last snapshot, and the counts that onChange got, the last one first.
pub record Sampler : Type 0 where
  pub rows : List ConnEntry
  pub last_count : ℕ
  pub calls : List ℕ

-- What one round meets: `none` where the mappings cannot be listed, `stored` unless the
-- transaction fails.
pub record Round : Type 0 where
  pub ss : SsResult
  pub mappings : Option (List Mapping)
  pub now : ℕ
  pub stored : Bool

abbrev pub listed : Option (List Mapping) → List Mapping
listed none = []
listed (some ms) = ms

unfoldable pub store_snapshot : Bool → Round → List ConnEntry → Sampler → Sampler
unfolding replace_connections
store_snapshot listens r conns s = if not r.stored then s else record {
  rows = replace_connections r.now conns s.rows;
  last_count = length conns;
  calls = if not (length conns == s.last_count) && listens then length conns ∷ s.calls else s.calls;
}

unfoldable pub sample : (Text → Option IpClass) → ℤ → Bool → Round → Sampler → Sampler
unfolding collect_connections enrich_managed store_snapshot
sample parse_ip panel_port listens r s = elim (collect_connections parse_ip r.ss) [
  | none ↦ s
  | some conns ↦
      store_snapshot listens r (enrich_managed parse_ip (listed r.mappings) panel_port conns) s
]

unfoldable pub samples : (Text → Option IpClass) → ℤ → Bool → List Round → Sampler → Sampler
unfolding sample
samples parse_ip panel_port listens [] s = s
samples parse_ip panel_port listens (r ∷ rs) s =
    samples parse_ip panel_port listens rs (sample parse_ip panel_port listens r s)
