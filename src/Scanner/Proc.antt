-- ===== src/Scanner/Proc.antt =====
-- scanProc of internal/scanner/scanner.go with parseHexAddr and hexIP, on the texts of the four
-- tables of /proc/net. The walk over /proc that finds the owners of the wanted sockets is a parameter.
use portguard_v.Base.{
  ℕ, ◌+◌, ◌*◌, ◌-◌, Bool, false, not, ◌&&◌, List, [], ◌∷◌, ◌++◌, Option, none, some, Text, codes,
  eqb, trim_space, has_prefix, split, ltb, leb, ℤ, pos, if◌then◌else◌,
}
use portguard_v.Base.Decimal.{decimal}
use portguard_v.Base.Maps.{Map, lookup}
use portguard_v.Base.Words.{fields, cut}
use portguard_v.Scanner.{PortEntry}

-- The value of a hexadecimal digit.
abbrev hex_digit : ℕ → Option ℕ
hex_digit c =
    if leb b'0' c && leb c b'9'
    then some (c - b'0')
    else if leb b'a' c && leb c b'f'
    then some (c - b'a' + 10)
    else if leb b'A' c && leb c b'F'
    then some (c - b'A' + 10)
    else none

unfoldable pub read_hex : ℕ → Text → Option ℕ
read_hex acc [] = some acc
read_hex acc (c ∷ s) = elim (hex_digit c) [ none ↦ none | some d ↦ read_hex (acc * 16 + d) s ]

-- `strconv.ParseUint(s, 16, bits)` for the values below `bound`.
unfoldable pub parse_hex : ℕ → Text → Option ℕ
unfolding read_hex
parse_hex bound [] = none
parse_hex bound (c ∷ s) = elim (read_hex 0 (c ∷ s)) [
  | none ↦ none
  | some n ↦ if ltb n bound then some n else none
]

abbrev dotted : ℕ → ℕ → ℕ → ℕ → Text
dotted a b c d =
    decimal a ++ codes "." ++ decimal b ++ codes "." ++ decimal c ++ codes "." ++ decimal d

-- The bytes of an IPv4 address stand in reverse. Every other length is taken for IPv6.
unfoldable pub hex_ip : Text → Text
unfolding parse_hex
hex_ip (a ∷ b ∷ c ∷ d ∷ e ∷ f ∷ g ∷ h ∷ []) = elim (parse_hex 256 (a ∷ b ∷ [])) [
  | none ↦ a ∷ b ∷ c ∷ d ∷ e ∷ f ∷ g ∷ h ∷ []
  | some v ↦ elim (parse_hex 256 (c ∷ d ∷ [])) [
    | none ↦ a ∷ b ∷ c ∷ d ∷ e ∷ f ∷ g ∷ h ∷ []
    | some w ↦ elim (parse_hex 256 (e ∷ f ∷ [])) [
      | none ↦ a ∷ b ∷ c ∷ d ∷ e ∷ f ∷ g ∷ h ∷ []
      | some x ↦ elim (parse_hex 256 (g ∷ h ∷ [])) [
        | none ↦ a ∷ b ∷ c ∷ d ∷ e ∷ f ∷ g ∷ h ∷ []
        | some y ↦ dotted y x w v
      ]
    ]
  ]
]
hex_ip s = codes "::"

unfoldable pub parse_hex_addr : Text → Option (Text × ℕ)
unfolding hex_ip
parse_hex_addr s = elim (cut b':' s) [
  | none ↦ none
  | some (ip, port) ↦ elim (parse_hex 65536 port) [ none ↦ none | some p ↦ some (hex_ip ip, p) ]
]

unfoldable pub is_tcp_listening : Text → Bool
is_tcp_listening st = eqb st (codes "0A")

unfoldable pub is_udp_listening : Text → Bool
is_udp_listening st = eqb st (codes "07")

-- procOwner
pub record ProcOwner : Type 0 where
  pub pid : ℤ
  pub name : Text
  pub user : Text

abbrev owned : Option ProcOwner → PortEntry → PortEntry
owned none e = e
owned (some o) e = record e { pid = o.pid; process = o.name; user = o.user }

-- The row of a socket: its local address, its state and its inode are the fields 1, 3 and 9.
unfoldable pub proc_entry : Map ProcOwner → Text → (Text → Bool) → List Text → Option PortEntry
unfolding parse_hex_addr
proc_entry inodes proto listening (f0 ∷ addr ∷ f2 ∷ st ∷ f4 ∷ f5 ∷ f6 ∷ f7 ∷ f8 ∷ inode ∷ rest) =
    if not (listening st) then none else elim (parse_hex_addr addr) [
      | none ↦ none
      | some (host, port) ↦ some (
          owned (lookup inode inodes) (record {
            port = pos port;
            proto = proto;
            listen_ip = host;
            pid = pos 0;
            process = [];
            user = [];
            classification = [];
            managed = false;
            self = false;
          }))
    ]
proc_entry inodes proto listening fs = none

abbrev tail : List Text → List Text
tail [] = []
tail (l ∷ ls) = ls

abbrev found : Option PortEntry → List PortEntry → List PortEntry
found none es = es
found (some e) es = e ∷ es

unfoldable pub proc_rows : Map ProcOwner → Text → (Text → Bool) → List Text → List PortEntry
unfolding proc_entry
proc_rows inodes proto listening [] = []
proc_rows inodes proto listening (l ∷ ls) =
    found (proc_entry inodes proto listening (fields (trim_space l)))
      (proc_rows inodes proto listening ls)

-- `none` is a table that cannot be read. The first line is the head.
unfoldable pub proc_table : Map ProcOwner → Text → (Text → Bool) → Option Text → List PortEntry
unfolding proc_rows split
proc_table inodes proto listening none = []
proc_table inodes proto listening (some data_) =
    proc_rows inodes proto listening (tail (split b'\n' data_))

abbrev inode_of : List Text → List Text → List Text
inode_of (f0 ∷ f1 ∷ f2 ∷ f3 ∷ f4 ∷ f5 ∷ f6 ∷ f7 ∷ f8 ∷ inode ∷ rest) more = inode ∷ more
inode_of fs more = more

abbrev inodes_of : List Text → List Text
inodes_of [] = []
inodes_of (l ∷ ls) = inode_of (fields (trim_space l)) (inodes_of ls)

unfoldable pub wanted_inodes : Option Text → List Text
unfolding split
wanted_inodes none = []
wanted_inodes (some data_) = inodes_of (tail (split b'\n' data_))

pub record ProcNet : Type 0 where
  pub tcp : Option Text
  pub tcp6 : Option Text
  pub udp : Option Text
  pub udp6 : Option Text

unfoldable pub scan_proc : (List Text → Map ProcOwner) → ProcNet → List PortEntry
unfolding wanted_inodes proc_table is_tcp_listening is_udp_listening
scan_proc owners n =
    let inodes = owners (
      wanted_inodes n.tcp ++ wanted_inodes n.tcp6 ++ wanted_inodes n.udp ++ wanted_inodes n.udp6) in
    proc_table inodes (codes "tcp") is_tcp_listening n.tcp
    ++ proc_table inodes (codes "tcp") is_tcp_listening n.tcp6
    ++ proc_table inodes (codes "udp") is_udp_listening n.udp
    ++ proc_table inodes (codes "udp") is_udp_listening n.udp6

-- procStatusUID on the text of /proc/<pid>/status.
abbrev second : List Text → Option Text
second (a ∷ b ∷ fs) = some b
second fs = none

unfoldable pub status_uid : List Text → Text
status_uid [] = []
status_uid (l ∷ ls) =
    let rest = status_uid ls in
    if has_prefix l (codes "Uid:")
    then elim (second (fields l)) [ none ↦ rest | some u ↦ u ]
    else rest
