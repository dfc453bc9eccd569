-- ===== src/Connections/Tests.antt =====
-- Runs of the connection sampler (internal/conntrack/conntrack.go) on concrete inputs.
use portguard_v.Base.{
  ◌≡◌, refl, if◌then◌else◌, true, false, [], ◌∷◌, Option, some, Text, codes, eqb, pos, split,
  trim_space, trim, has_prefix, strip_prefix, trim_prefix, is_space, trim_left,
}
use portguard_v.Base.Words.{fields, cut, cut_last, atoi_value}
use portguard_v.Proxy.Model.{Mapping}
use portguard_v.Imports.Conversion.{blank_mapping}
use portguard_v.Connections.{
  ConnEntry, IpClass, is_local, addr, find, parse_proc, collect_fields, collect_lines,
  collect_connections, conn_entry, managed_ports, enrich_entry, enrich_managed, same_key, upsert,
  upsert_each, delete_vanished, replace_connections, Sampler, Round, store_snapshot, sample,
  samples,
}

-- A stand-in for net.ParseIP.
abbrev some_ips : Text → Option IpClass
some_ips ip =
    if eqb ip (codes "127.0.0.1")
    then some (record { is_loopback = true; is_unspecified = false })
    else some (record { is_loopback = false; is_unspecified = false })

process_read : parse_proc (codes "users:((\"nginx\",pid=1234,fd=9))") ≡ (codes "nginx", pos 1234)
unfolding parse_proc find split trim trim_left has_prefix strip_prefix atoi_value trim_prefix
process_read = refl

addresses :
    (addr (codes "[::1]:22") ≡ (codes "::1", pos 22))
    × (addr (codes "10.0.0.1:5678") ≡ (codes "10.0.0.1", pos 5678))
unfolding addr cut cut_last has_prefix strip_prefix trim_prefix atoi_value
addresses = (refl, refl)

abbrev site : Mapping
site = record blank_mapping { enabled = true; listen_port = pos 443 }

abbrev round : Round
round = record {
  ss = record {
    output =
        codes
          "State Recv-Q\nESTAB 0 0 10.0.0.1:443 9.9.9.9:5678\nESTAB 0 0 10.0.0.1:22 127.0.0.1:7";
    failed = false;
  };
  mappings = some (site ∷ []);
  now = 5;
  stored = true;
}

abbrev start : Sampler
start = record { rows = []; last_count = 0; calls = [] }

abbrev row : ConnEntry
row = record {
  src_ip = codes "9.9.9.9";
  src_port = pos 5678;
  dst_ip = codes "10.0.0.1";
  dst_port = pos 443;
  process = [];
  pid = pos 0;
  uid = pos 0;
  state = codes "ESTAB";
  managed = true;
  inner = false;
  self = false;
  first_seen = 5;
  last_seen = 5;
}

one_row :
    samples some_ips (pos 8080) true (round ∷ []) start
    ≡ record { rows = row ∷ []; last_count = 1; calls = 1 ∷ [] }
unfolding samples sample store_snapshot collect_connections collect_lines collect_fields conn_entry
    is_local addr find parse_proc fields split trim trim_left trim_space is_space has_prefix
    strip_prefix trim_prefix cut cut_last atoi_value eqb enrich_managed enrich_entry managed_ports
    replace_connections upsert_each upsert delete_vanished same_key
one_row = refl
