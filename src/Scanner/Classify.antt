-- ===== src/Scanner/Classify.antt =====
-- classify of internal/scanner/scanner.go with its table of known services.
use portguard_v.Base.{
  [], ◌∷◌, none, some, Text, codes, is_empty, has_prefix, trim_prefix, trim_space, to_lower,
  if◌then◌else◌,
}
use portguard_v.Base.Maps.{Map, lookup}
use portguard_v.Base.Words.{cut}

abbrev pub known_services : Map Text
known_services =
    (codes "nginx", codes "web-server")
    ∷ (codes "haproxy", codes "load-balancer")
    ∷ (codes "caddy", codes "web-server")
    ∷ (codes "traefik", codes "proxy")
    ∷ (codes "apache2", codes "web-server")
    ∷ (codes "httpd", codes "web-server")
    ∷ (codes "lighttpd", codes "web-server")
    ∷ (codes "sshd", codes "ssh")
    ∷ (codes "dropbear", codes "ssh")
    ∷ (codes "xray", codes "xray-proxy")
    ∷ (codes "v2ray", codes "v2ray-proxy")
    ∷ (codes "sing-box", codes "proxy")
    ∷ (codes "hysteria", codes "proxy")
    ∷ (codes "trojan-go", codes "proxy")
    ∷ (codes "gost", codes "proxy")
    ∷ (codes "3x-ui", codes "panel")
    ∷ (codes "x-ui", codes "panel")
    ∷ (codes "marzban", codes "panel")
    ∷ (codes "pg-node-service", codes "pasarguard-node")
    ∷ (codes "main", codes "pasarguard-node")
    ∷ (codes "docker-proxy", codes "docker")
    ∷ (codes "containerd", codes "docker")
    ∷ (codes "dockerd", codes "docker")
    ∷ (codes "node", codes "nodejs")
    ∷ (codes "bun", codes "nodejs")
    ∷ (codes "deno", codes "nodejs")
    ∷ (codes "python3", codes "python")
    ∷ (codes "python", codes "python")
    ∷ (codes "gunicorn", codes "python")
    ∷ (codes "uvicorn", codes "python")
    ∷ (codes "python3.14", codes "python")
    ∷ (codes "postgres", codes "database")
    ∷ (codes "postgresql", codes "database")
    ∷ (codes "mysqld", codes "database")
    ∷ (codes "mariadbd", codes "database")
    ∷ (codes "mongod", codes "database")
    ∷ (codes "redis-server", codes "database")
    ∷ (codes "valkey", codes "database")
    ∷ (codes "systemd-resolved", codes "dns")
    ∷ (codes "dnsmasq", codes "dns")
    ∷ (codes "named", codes "dns")
    ∷ (codes "unbound", codes "dns")
    ∷ (codes "coredns", codes "dns")
    ∷ (codes "wg-quick", codes "wireguard")
    ∷ (codes "wireguard", codes "wireguard")
    ∷ (codes "portguard", codes "portguard-panel")
    ∷ (codes "./portguard", codes "portguard-panel")
    ∷ (codes "wg", codes "wireguard")
    ∷ (codes "socat", codes "relay")
    ∷ (codes "frps", codes "tunnel")
    ∷ (codes "frpc", codes "tunnel")
    ∷ (codes "code-server", codes "ide")
    ∷ (codes "grafana", codes "monitoring")
    ∷ (codes "prometheus", codes "monitoring")
    ∷ []

-- The first token of a process name, without its path.
unfoldable pub first_name : Text → Text
unfolding trim_prefix
first_name name =
    let first : Text = elim (cut b',' name) [ none ↦ name | some (a, b) ↦ trim_space a ] in
    trim_prefix
      (trim_prefix
        (trim_prefix (trim_prefix (trim_prefix first (codes "./")) (codes "/usr/bin/"))
          (codes "/usr/sbin/"))
        (codes "/usr/local/bin/"))
      (codes "/opt/")

-- The range over the table, in the order of the list.
unfoldable pub prefix_class : Map Text → Text → Text
prefix_class [] first = codes "other"
prefix_class ((svc, cls) ∷ m) first = if has_prefix first svc then cls else prefix_class m first

unfoldable pub classify_in : Map Text → Text → Text
unfolding first_name prefix_class
classify_in table process =
    let name = to_lower (trim_space process) in
    if is_empty name then codes "unknown" else elim (lookup (first_name name) known_services) [
      | some cls ↦ cls
      | none ↦ prefix_class table (first_name name)
    ]

unfoldable pub classify : Text → Text
unfolding classify_in
classify = classify_in known_services
