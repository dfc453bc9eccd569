-- ===== src/Ratelimit/Applier.antt =====
-- The traffic control of a node (internal/ratelimit/applier.go). The `tc` commands run in a history
-- of the commands before: `exec` says whether a command succeeds after a history. The interface
-- that `iface()` finds, the state file that LoadState reads (`none` where it is missing or
-- unreadable) and the success of writing it back are arguments.
pub mod Exact
pub mod Idempotent
use Prim.Native.Nat.{bit_xor}
use portguard_v.Base.{
  ℕ, ◌+◌, ◌*◌, ◌/◌, ◌%◌, ◌^◌, ◌-◌, ltb, leb, ◌==◌, zero, suc, Bool, true, false, not, ◌&&◌, ◌||◌,
  List, [], ◌∷◌, ◌++◌, Option, none, some, Text, codes, is_empty, contains, eqb, all_of, length, ℤ,
  pos, pos_part, int_lt, if◌then◌else◌,
}
use portguard_v.Base.Decimal.{decimal}
use portguard_v.Base.Maps.{Map, lookup, insert, delete}
use portguard_v.Ratelimit.Plan.{Rule, same_limits}

pub record AppliedState : Type 0 where
  pub iface : Text
  pub rules : Map Rule

abbrev no_rules : AppliedState
no_rules = record { iface = []; rules = [] }

-- LoadState: a file that cannot be read or decoded is the empty state.
abbrev pub load_state : Option AppliedState → AppliedState
load_state none = no_rules
load_state (some st) = st

-- The hash of `classID` on the bytes of an address, with the wrap-around of uint32.
unfoldable pub fnv : ℕ → Text → ℕ
fnv h [] = h
fnv h (c ∷ s) = fnv (bit_xor h c * 16777619 % 2 ^ 32) s

abbrev pub hex_digit : ℕ → ℕ
hex_digit d = if ltb d 10 then b'0' + d else b'a' + (d - 10)

-- `%x` of a number of at most sixteen bits, without leading zeros.
unfoldable pub hex : ℕ → ℕ → Text
hex zero n = []
hex (suc f) n =
    let rest = hex f (n / 16) ++ hex_digit (n % 16) ∷ [] in
    if ltb n 16 then hex_digit n ∷ [] else rest

-- What follows `1:` in a class id; the class of the upload has `2:` before the same digits.
unfoldable pub class_digits : Text → Text
unfolding fnv hex
class_digits ip = let h = fnv 2166136261 ip % 2 ^ 16 in hex 4 (if h % 2 == 0 then h + 1 else h)

abbrev dots : Text → ℕ
dots [] = 0
dots (c ∷ s) = if c == b'.' then suc (dots s) else dots s

abbrev pub ip_char : ℕ → Bool
ip_char c = leb b'0' c && leb c b'9' || c == b'.' || c == b':'

unfoldable pub valid_ip : Text → Bool
valid_ip s =
    not (is_empty s || ltb 45 (length s))
    && all_of ip_char s
    && ((dots s == 3) || contains s (codes ":"))

abbrev pub min_rate : ℤ → ℕ
min_rate bps = let r = pos_part bps / 8 in if ltb r 1 then 1 else r

abbrev pub Command : Type 0
Command = List Text

-- The commands run so far, the last one first.
abbrev pub History : Type 0
History = List Command

unfoldable pub qdisc_replace : Text → Command
qdisc_replace iface =
    codes "tc"
    ∷ codes "qdisc"
    ∷ codes "replace"
    ∷ codes "dev"
    ∷ iface
    ∷ codes "root"
    ∷ codes "handle"
    ∷ codes "1:"
    ∷ codes "htb"
    ∷ codes "default"
    ∷ codes "30"
    ∷ []

unfoldable pub qdisc_del : Text → Command
qdisc_del iface = codes "tc" ∷ codes "qdisc" ∷ codes "del" ∷ codes "dev" ∷ iface ∷ codes "root" ∷ []

unfoldable pub class_replace : Text → Text → ℤ → Command
class_replace iface cid bps =
    codes "tc"
    ∷ codes "class"
    ∷ codes "replace"
    ∷ codes "dev"
    ∷ iface
    ∷ codes "parent"
    ∷ codes "1:"
    ∷ codes "classid"
    ∷ cid
    ∷ codes "htb"
    ∷ codes "rate"
    ∷ decimal (min_rate bps)
    ∷ codes "ceil"
    ∷ decimal (pos_part bps)
    ∷ []

unfoldable pub filter_replace : Text → Text → Text → Text → Command
filter_replace iface side ip cid =
    codes "tc"
    ∷ codes "filter"
    ∷ codes "replace"
    ∷ codes "dev"
    ∷ iface
    ∷ codes "protocol"
    ∷ codes "ip"
    ∷ codes "parent"
    ∷ codes "1:"
    ∷ codes "prio"
    ∷ codes "1"
    ∷ codes "u32"
    ∷ codes "match"
    ∷ codes "ip"
    ∷ side
    ∷ ip
    ∷ codes "flowid"
    ∷ cid
    ∷ []

unfoldable pub filter_del : Text → Command
filter_del iface =
    codes "tc"
    ∷ codes "filter"
    ∷ codes "del"
    ∷ codes "dev"
    ∷ iface
    ∷ codes "protocol"
    ∷ codes "ip"
    ∷ codes "parent"
    ∷ codes "1:"
    ∷ codes "prio"
    ∷ codes "1"
    ∷ []

unfoldable pub class_del : Text → Text → Command
class_del iface cid =
    codes "tc" ∷ codes "class" ∷ codes "del" ∷ codes "dev" ∷ iface ∷ codes "classid" ∷ cid ∷ []

abbrev pub download_class : Text → Text
download_class ip = codes "1:" ++ class_digits ip

abbrev pub upload_class : Text → Text
upload_class ip = codes "2:" ++ class_digits ip

-- Whether a rule of the plan gets classes and filters.
unfoldable pub enforceable : Rule → Bool
enforceable r =
    not (is_empty r.source_ip || not (int_lt (pos 0) r.download_bps)) && valid_ip r.source_ip

-- The map `desired` of ApplyPlan.
unfoldable pub desired_rules : Map Rule → List Rule → Map Rule
desired_rules m [] = m
desired_rules m (r ∷ rs) = desired_rules (if enforceable r then insert r.source_ip r m else m) rs

unfoldable pub remove_rule : Text → Text → Rule → History → History
unfolding filter_del class_del class_digits
remove_rule iface ip r h =
    let cleared = class_del iface (download_class ip) ∷ filter_del iface ∷ h in
    if int_lt (pos 0) r.upload_bps then class_del iface (upload_class ip) ∷ cleared else cleared

-- The first loop over the rules applied before; `delete` while ranging is safe in Go.
unfoldable pub remove_vanished :
    Text → Map Rule → Map Rule → Map Rule × History → Map Rule × History
unfolding remove_rule
remove_vanished iface desired [] s = s
remove_vanished iface desired ((ip, r) ∷ before) (rules, h) =
    remove_vanished iface desired before (elim (lookup ip desired) [
      | none ↦ (delete ip rules, remove_rule iface ip r h)
      | some d ↦ (rules, h)
    ])

abbrev pub is_unchanged : Text → Rule → Map Rule → Bool
is_unchanged ip r rules = elim (lookup ip rules) [ none ↦ false | some c ↦ same_limits c r ]

module _ (exec : History → Command → Bool) where
  -- One direction of a rule: its class, then its filter.
  unfoldable pub apply_side : Text → Text → Text → Text → ℤ → History → Bool × History
  unfolding class_replace filter_replace
  apply_side iface ip side cid bps h =
      let class_cmd = class_replace iface cid bps in
      let filter_cmd = filter_replace iface side ip cid in
      if not (int_lt (pos 0) bps)
      then (true, h)
      else if exec h class_cmd
      then (exec (class_cmd ∷ h) filter_cmd, filter_cmd ∷ class_cmd ∷ h)
      else (false, class_cmd ∷ h)

  unfoldable pub apply_rule : Text → Text → Rule → History → Bool × History
  unfolding apply_side qdisc_replace class_digits
  apply_rule iface ip r h =
      let (ok, h1) =
        apply_side iface ip (codes "dst") (download_class ip) r.download_bps
          (qdisc_replace iface ∷ h) in
      if ok
      then apply_side iface ip (codes "src") (upload_class ip) r.upload_bps h1
      else (false, h1)

  -- The second loop: it returns at the first rule that fails.
  unfoldable pub apply_changed : Text → Map Rule → Map Rule × History → Bool × (Map Rule × History)
  unfolding apply_rule
  apply_changed iface [] s = (true, s)
  apply_changed iface ((ip, r) ∷ desired) (rules, h) =
      let (ok, h1) = apply_rule iface ip r h in
      let skipped = apply_changed iface desired (rules, h) in
      let applied = apply_changed iface desired (insert ip r rules, h1) in
      if is_unchanged ip r rules then skipped else if ok then applied else (false, (rules, h1))

-- How ApplyPlan ended, with the state it returns.
pub data Applied : Type 0 where
  no_interface : AppliedState → Applied
  failed_command : AppliedState → Applied
  failed_save : AppliedState → Applied
  applied : AppliedState → Applied

-- A change of the interface clears the old one, and forgets its rules.
unfoldable pub starting : AppliedState → Text → History → Map Rule × History
unfolding qdisc_del
starting st iface h =
    if not (is_empty st.iface) && not (eqb st.iface iface)
    then ([], qdisc_del st.iface ∷ h)
    else (st.rules, h)

module _ (exec : History → Command → Bool) (saves : AppliedState → Bool) where
  -- After the loops: the error of a command, or the outcome of saveState.
  unfoldable pub finish : Text → Bool × (Map Rule × History) → Applied × History
  finish iface (ok, (rules, h)) =
      let st : AppliedState = record { iface = iface; rules = rules } in
      (if ok then if saves st then applied st else failed_save st else failed_command st, h)

  unfoldable pub apply_plan : Text → Option AppliedState → List Rule → History → Applied × History
  unfolding finish starting apply_changed remove_vanished desired_rules
  apply_plan iface file plan h =
      let st = load_state file in
      let start = starting st iface h in
      let desired = desired_rules [] plan in
      if is_empty iface
      then (no_interface st, h)
      else finish iface
          (apply_changed exec iface desired (remove_vanished iface desired start.0 start))

  -- ClearAll: whether the empty state was saved.
  abbrev pub clear_all : Option AppliedState → History → Bool × History
  clear_all file h =
      let st = load_state file in
      (saves no_rules, if is_empty st.iface then h else qdisc_del st.iface ∷ h)
