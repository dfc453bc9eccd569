-- ===== src/Scanner.antt =====
-- The port scanner (internal/scanner/scanner.go): Scan merges the sockets that it is given by their
-- address, names and classifies their processes and sorts them. Who owns a process is a parameter.
-- Go ranges over the merged map in any order, and its sort is not stable: here the map's order is
-- that of the first appearance, so entries of one port and protocol stand in one of the orders
-- that the code may return.
pub mod Classify
pub mod Order
pub mod Ss
pub mod Proc
pub mod Merge
pub mod Listing
pub mod Tests
use portguard_v.Base.{
  ℕ, Bool, true, false, not, ◌&&◌, ◌||◌, List, [], ◌∷◌, ◌++◌, Option, none, some, map, Text, codes,
  eqb, is_empty, contains, trim_space, ℤ, pos, int_eq, int_lt, if◌then◌else◌,
}
use portguard_v.Base.Maps.{Map, lookup, insert}
use portguard_v.Base.Decimal.{decimal}
use portguard_v.Imports.Haproxy.Lines.{int_text}
use portguard_v.Service.Prune.{text_le}
use portguard_v.Scanner.Classify.{classify}

-- The type of internal/store/models.go.
pub record PortEntry : Type 0 where
  pub port : ℤ
  pub proto : Text
  pub listen_ip : Text
  pub pid : ℤ
  pub process : Text
  pub user : Text
  pub classification : Text
  pub managed : Bool
  pub self : Bool

unfoldable pub entry_key : PortEntry → Text
entry_key e = e.proto ++ codes "|" ++ e.listen_ip ++ codes "|" ++ int_text e.port

-- A socket that was seen already takes what the new entry adds.
unfoldable pub merge_entry : PortEntry → PortEntry → PortEntry
merge_entry exist e = record exist {
  process =
      if not (is_empty e.process) && not (contains exist.process e.process)
      then trim_space (exist.process ++ codes ", " ++ e.process)
      else exist.process;
  pid = if not (int_eq e.pid (pos 0)) && int_eq exist.pid (pos 0) then e.pid else exist.pid;
  user = if not (is_empty e.user) && is_empty exist.user then e.user else exist.user;
}

unfoldable pub merge_into : PortEntry → Map PortEntry → Map PortEntry
unfolding merge_entry
merge_into e m = elim (lookup (entry_key e) m) [
  | none ↦ insert (entry_key e) e m
  | some exist ↦ insert (entry_key e) (merge_entry exist e) m
]

unfoldable pub merge_entries : List PortEntry → Map PortEntry → Map PortEntry
unfolding merge_into
merge_entries [] m = m
merge_entries (e ∷ es) m = merge_entries es (merge_into e m)

-- The class, whether it is the panel itself, and the owner of a process that has none yet.
unfoldable pub complete_entry : (ℤ → Text) → ℤ → PortEntry → PortEntry
complete_entry owner self_port e = record e {
  classification = classify e.process;
  self =
      int_lt (pos 0) self_port
      && int_eq e.port self_port
      && eqb (classify e.process) (codes "portguard-panel");
  user = if is_empty e.user && not (int_eq e.pid (pos 0)) then owner e.pid else e.user;
}

-- Less by the port, then by the protocol.
unfoldable pub entry_before : PortEntry → PortEntry → Bool
entry_before a b =
    if not (int_eq a.port b.port) then int_lt a.port b.port else not (text_le b.proto a.proto)

unfoldable pub insert_entry : PortEntry → List PortEntry → List PortEntry
unfolding entry_before
insert_entry e [] = e ∷ []
insert_entry e (f ∷ fs) =
    let rest = insert_entry e fs in if entry_before f e then f ∷ rest else e ∷ f ∷ fs

unfoldable pub sort_entries : List PortEntry → List PortEntry
unfolding insert_entry
sort_entries [] = []
sort_entries (e ∷ es) = insert_entry e (sort_entries es)

abbrev pub values {ℓ} : {V : Type ℓ} → Map V → List V
values [] = []
values ((k, v) ∷ m) = v ∷ values m

-- Scan after scanSS or scanProc has found the entries.
unfoldable pub scan : (ℤ → Text) → ℤ → List PortEntry → List PortEntry
unfolding merge_entries complete_entry sort_entries
scan owner self_port entries =
    sort_entries (map (complete_entry owner self_port) (values (merge_entries entries [])))
