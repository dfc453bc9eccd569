-- ===== src/Runtime.antt =====
-- The client of HAProxy's runtime socket, internal/proxy/runtime.go: the statistics read and the
-- commands written.
pub mod Safe
pub mod Tests
use portguard_v.Base.{
  ℕ, suc, ◌+◌, ◌-◌, ◌%◌, ◌^◌, Bool, true, false, not, ◌&&◌, ◌||◌, List, [], ◌∷◌, ◌++◌, Option, none,
  some, Text, codes, eqb, is_empty, contains, has_prefix, trim_prefix, trim_space, trim_left,
  to_lower, split, all_of, leb, ltb, ℤ, pos, negsuc, if◌then◌else◌, ◌==◌,
}
use mathlib.Core.List.{reverse}
use portguard_v.Base.Maps.{Map, insert, lookup}
use portguard_v.Base.Words.{cut, atoi_value, trim_right}
use portguard_v.Service.Apply.{trim_newlines}

abbrev pub is_name_char : ℕ → Bool
is_name_char c =
    (leb b'A' c && leb c b'Z')
    || (leb b'a' c && leb c b'z')
    || (leb b'0' c && leb c b'9')
    || c == b'_'
    || c == b'.'
    || c == b'-'

-- nameRe
abbrev pub is_name : Text → Bool
is_name s = not (is_empty s) && all_of is_name_char s

-- The error of an operation, or that of Send.
pub data CommandOutcome : Type 0 where
  done bad_state bad_name send_failed : CommandOutcome
  refused : Text → CommandOutcome

-- The commands that were written, in order.
abbrev pub Sent : Type 0
Sent = List Text

-- What the socket answers to a line, `none` for an error.
abbrev pub Answers : Type 0
Answers = Text → Option Text

abbrev pub command_line : Text → Text
command_line cmd = trim_newlines cmd ++ codes "\n"

unfoldable pub send_command : Answers → Text → Sent → Option Text × Sent
send_command answers cmd sent = (answers (command_line cmd), sent ++ command_line cmd ∷ [])

abbrev state_outcome : Option Text → CommandOutcome
state_outcome none = send_failed
state_outcome (some out) =
    if contains (to_lower out) (codes "error") || contains (to_lower out) (codes "unknown")
    then refused (trim_space out)
    else done

abbrev sent_outcome : Option Text → CommandOutcome
sent_outcome none = send_failed
sent_outcome (some out) = done

abbrev pub is_server_state : Text → Bool
is_server_state s = eqb s (codes "ready") || (eqb s (codes "drain") || eqb s (codes "maint"))

unfoldable pub set_server_state : Answers → Text → Text → Text → Sent → CommandOutcome × Sent
unfolding send_command
set_server_state answers backend server state sent =
    let (out, sent') =
      send_command answers
        (codes "set server " ++ (backend ++ (codes "/" ++ (server ++ (codes " state " ++ state)))))
        sent in
    if not (is_server_state state)
    then (bad_state, sent)
    else if not (is_name backend && is_name server)
    then (bad_name, sent)
    else (state_outcome out, sent')

-- EnableServer and DisableServer, by their verb.
unfoldable pub switch_server : Answers → Text → Text → Text → Sent → CommandOutcome × Sent
unfolding send_command
switch_server answers verb backend server sent =
    let (out, sent') = send_command answers (verb ++ (backend ++ (codes "/" ++ server))) sent in
    if not (is_name backend && is_name server) then (bad_name, sent) else (sent_outcome out, sent')

unfoldable pub enable_server : Answers → Text → Text → Sent → CommandOutcome × Sent
unfolding switch_server
enable_server answers = switch_server answers (codes "enable server ")

unfoldable pub disable_server : Answers → Text → Text → Sent → CommandOutcome × Sent
unfolding switch_server
disable_server answers = switch_server answers (codes "disable server ")

-- What the panel asks of the client, one request after the other.
pub data Request : Type 0 where
  set_state : Text → Text → Text → Request
  enable disable : Text → Text → Request

unfoldable pub serve : Answers → List Request → Sent → Sent
unfolding set_server_state enable_server disable_server
serve answers [] sent = sent
serve answers (set_state b s state ∷ rs) sent =
    serve answers rs (set_server_state answers b s state sent).1
serve answers (enable b s ∷ rs) sent = serve answers rs (enable_server answers b s sent).1
serve answers (disable b s ∷ rs) sent = serve answers rs (disable_server answers b s sent).1

abbrev pub StatRow : Type 0
StatRow = Map Text

unfoldable pub stat_row : List Text → List Text → StatRow → StatRow
stat_row header [] row = row
stat_row [] (v ∷ vs) row = row
stat_row (h ∷ hs) (v ∷ vs) row = stat_row hs vs (insert h v row)

abbrev without_returns : Text → Text
without_returns s = reverse (trim_left (λ c. c == b'\r') (reverse s))

-- encoding/csv's reading of one line is a parameter.
module _ (read_csv : Text → Option (List Text)) where
  -- The rows from the lines, under the header read last.
  unfoldable pub stat_lines : Option (List Text) → List Text → List StatRow
  unfolding stat_row
  stat_lines header [] = []
  stat_lines header (l ∷ ls) =
      let line = without_returns l in
      let same = stat_lines header ls in
      if is_empty (trim_space line)
      then same
      else if has_prefix line (codes "#")
      then elim (read_csv (trim_space (trim_prefix line (codes "#")))) [
        | none ↦ same
        | some names ↦ stat_lines (some names) ls
      ]
      else elim header [
        | none ↦ same
        | some names ↦ elim (read_csv line) [
          | none ↦ same
          | some values ↦ stat_row names values [] ∷ same
        ]
      ]

  unfoldable pub parse_stat_csv : Text → List StatRow
  unfolding stat_lines split
  parse_stat_csv text = stat_lines none (split b'\n' text)

unfoldable pub info_lines : List Text → Map Text → Map Text
unfolding cut
info_lines [] info = info
info_lines (l ∷ ls) info = elim (cut b':' (trim_space l)) [
  | none ↦ info_lines ls info
  | some (k, v) ↦ info_lines ls (insert (trim_space k) (trim_space v) info)
]

unfoldable pub show_info : Answers → Sent → Option (Map Text) × Sent
unfolding send_command info_lines split
show_info answers sent =
    let (out, sent') = send_command answers (codes "show info") sent in
    (elim out [ none ↦ none | some text ↦ some (info_lines (split b'\n' text) []) ], sent')

-- The sum of two values of int64, which wraps around.
abbrev to_word : ℤ → ℕ
to_word (pos n) = n % 2 ^ 64
to_word (negsuc n) = 2 ^ 64 - suc (n % 2 ^ 64)

abbrev of_word : ℕ → ℤ
of_word n = if ltb n (2 ^ 63) then pos n else negsuc (2 ^ 64 - suc n)

unfoldable pub add_int64 : ℤ → ℤ → ℤ
add_int64 a b = of_word ((to_word a + to_word b) % 2 ^ 64)

pub record Stats : Type 0 where
  pub frontends : ℕ
  pub backends : ℕ
  pub servers : ℕ
  pub up : ℕ
  pub down : ℕ
  pub maint : ℕ
  pub sessions : ℤ
  pub bytes_in : ℤ
  pub bytes_out : ℤ

-- The value of a missing column is empty.
abbrev column : Text → StatRow → Text
column k r = elim (lookup k r) [ none ↦ [] | some v ↦ v ]

unfoldable pub atoi_default : Text → ℤ
atoi_default s = atoi_value (trim_space s)

unfoldable pub count_server : Text → Stats → Stats
count_server status s =
    let t = record s { servers = suc s.servers } in
    if has_prefix status (codes "UP") || eqb status (codes "OPEN") || eqb status (codes "no check")
    then record t { up = suc s.up }
    else if contains status (codes "DOWN")
    then record t { down = suc s.down }
    else if contains status (codes "MAINT")
    then record t { maint = suc s.maint }
    else record t { up = suc s.up }

unfoldable pub count_row : StatRow → Stats → Stats
unfolding count_server lookup add_int64 atoi_default
count_row r s =
    let name = column (codes "svname") r in
    if eqb name (codes "FRONTEND")
    then record s {
      frontends = suc s.frontends;
      sessions = add_int64 s.sessions (atoi_default (column (codes "scur") r));
      bytes_in = add_int64 s.bytes_in (atoi_default (column (codes "bin") r));
      bytes_out = add_int64 s.bytes_out (atoi_default (column (codes "bout") r));
    }
    else if eqb name (codes "BACKEND")
    then record s { backends = suc s.backends }
    else if eqb name (codes "STATS") || eqb (column (codes "pxname") r) (codes "stats")
    then s
    else count_server (column (codes "status") r) s

unfoldable pub summary_stats : List StatRow → Stats → Stats
unfolding count_row
summary_stats [] s = s
summary_stats (r ∷ rs) s = summary_stats rs (count_row r s)
