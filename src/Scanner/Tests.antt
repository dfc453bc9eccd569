-- ===== src/Scanner/Tests.antt =====
-- Runs of the port scanner (internal/scanner/scanner.go) on concrete inputs.
use portguard_v.Base.{
  ◌≡◌, ◌↔◌, refl, false, [], ◌∷◌, some, map, Text, codes, eqb, pos, In, strip_prefix, trim_prefix,
  trim_suffix, trim_space, trim, trim_left, is_space,
}
use portguard_v.Base.Decimal.{read_digits, read_number, in_int64, parse_int, decimal, digits}
use portguard_v.Base.Words.{fields, join, cut, cut_last, atoi_value}
use portguard_v.Proxy.Validate.Routes.{AllDistinct}
use portguard_v.Scanner.{PortEntry, entry_key, scan}
use portguard_v.Scanner.Classify.{known_services, classify, classify_in}
use portguard_v.Scanner.Order.{classify_in-classify}
use portguard_v.Scanner.Listing.{scan-keys}
use portguard_v.Scanner.Ss.{
  split_ss_addr, normalize_ip, match_process, process_matches, add_processes, valid_port, ss_entry,
  ss_fields, parse_ss_line,
}
use portguard_v.Scanner.Proc.{read_hex, parse_hex, hex_ip, parse_hex_addr}

abbrev sshd : PortEntry
sshd = record {
  port = pos 22;
  proto = codes "tcp";
  listen_ip = codes "::";
  pid = pos 3;
  process = codes "sshd, systemd";
  user = [];
  classification = [];
  managed = false;
  self = false;
}

sshd_line :
    parse_ss_line (
      codes
        "tcp LISTEN 0 128 [::]:22 [::]:* users:((\"sshd\",pid=7,fd=3),(\"systemd\",pid=3,fd=9))")
    ≡ some sshd
unfolding parse_ss_line fields is_space ss_fields trim_suffix strip_prefix eqb split_ss_addr
    cut_last ss_entry valid_port parse_int read_number read_digits in_int64 process_matches
    match_process join add_processes atoi_value trim_space trim trim_left normalize_ip trim_prefix
sshd_line = refl

local_address : parse_hex_addr (codes "0100007F:0016") ≡ some (codes "127.0.0.1", 22)
unfolding parse_hex_addr hex_ip parse_hex read_hex cut decimal digits
local_address = refl

classify_in-classify_example :
    classify_in known_services (codes "/opt/xray-1.8") ≡ classify (codes "/opt/xray-1.8")
classify_in-classify_example =
    classify_in-classify known_services (λ row. ((λ i. i), (λ i. i))) (codes "/opt/xray-1.8")

scan-keys_example :
    AllDistinct (map entry_key (scan (λ pid. codes "root") (pos 8080) (sshd ∷ sshd ∷ [])))
    × ((t : Text)
        → In t (map entry_key (scan (λ pid. codes "root") (pos 8080) (sshd ∷ sshd ∷ [])))
          ↔ In t (map entry_key (sshd ∷ sshd ∷ [])))
scan-keys_example = scan-keys (λ pid. codes "root") (pos 8080) (sshd ∷ sshd ∷ [])
