-- ===== src/Render/Tests.antt =====
-- Texts that Render of internal/proxy/haproxy.go writes.
use portguard_v.Base.{
  ◌≡◌, refl, true, false, [], ◌∷◌, some, Text, codes, eqb, pos, contains, has_prefix, strip_prefix,
  is_space, arith, all_of, subst, ap, ℤ, Option, none, trim, trim_left,
}
use mathlib.Core.List.{filter_map}
use portguard_v.Base.Decimal.{decimal, digits}
use portguard_v.Proxy.Model.{Mapping, RouteRule}
use portguard_v.Imports.Conversion.{blank_mapping}
use portguard_v.Imports.Haproxy.Lines.{backend_line, parse_bind_line}
use portguard_v.Base.Words.{join}
use portguard_v.Render.{bind_directive, pem_path, render_mapping}
use portguard_v.Render.Pieces.{bind_ip, escape_ha, posix_join, rule_number}
use portguard_v.Render.Rules.{
  render_ha_access_rules, backend_text, render_ha_backend, render_ha_route_rules, insert_rule,
  longest_first, rule_has_redirect,
}
use portguard_v.Render.Tls.{is_path_char, HasPlainPem, bind_read, parse_bind_line-bind_directive}

abbrev site : Mapping
site = record blank_mapping {
  id = pos 4;
  enabled = true;
  engine = codes "haproxy";
  protocol = codes "tcp";
  listen_ip = codes "2001:db8::1";
  listen_port = pos 443;
  targets =
      record { host = codes "10.0.0.1"; port = pos 8443; weight = pos 0; backup = false } ∷ [];
}

site_text :
    render_mapping (codes "/certs") site
    ≡ some (
        codes
          "frontend fe_pg4\n    mode tcp\n    option tcplog\n    bind [2001:db8::1]:443\n    default_backend be_pg4\nbackend be_pg4\n    mode tcp\n    balance roundrobin\n    server s0 10.0.0.1:8443 check\n\n")
unfolding render_mapping bind_directive eqb bind_ip contains has_prefix strip_prefix decimal digits
    render_ha_access_rules render_ha_backend backend_text backend_line
site_text = refl

-- A site with a certificate.
abbrev secure_site : Mapping
secure_site = record site { protocol = codes "https"; ssl_cert_id = some (pos 7); http2 = true }

secure_bind :
    bind_directive (codes "/certs") secure_site
    ≡ some (codes "bind [2001:db8::1]:443 ssl crt /certs/7.pem alpn h2,http/1.1")
unfolding bind_directive eqb bind_ip contains has_prefix strip_prefix decimal digits escape_ha
    posix_join join trim trim_left
secure_bind = refl

secure_pem : HasPlainPem (codes "/certs") secure_site
unfolding is_space posix_join decimal digits join trim trim_left
secure_pem cert e =
    subst (λ c. all_of is_path_char (pem_path (codes "/certs") c) ≡ true)
      (ap (λ (o : Option ℤ). elim o [ none ↦ pos 0 | some c ↦ c ]) e) refl

parse_bind_line-bind_directive_example :
    parse_bind_line (codes "bind [2001:db8::1]:443 ssl crt /certs/7.pem alpn h2,http/1.1")
    ≡ bind_read (codes "/certs") secure_site 443
unfolding is_space
parse_bind_line-bind_directive_example =
    parse_bind_line-bind_directive (codes "/certs") secure_site 443
      (codes "bind [2001:db8::1]:443 ssl crt /certs/7.pem alpn h2,http/1.1") secure_bind refl
      (omega arith) refl secure_pem

-- Two rules of one identifier, which no check forbids, write two tests and two backends of one name.
abbrev rule : Text → RouteRule
rule path = record {
  id = pos 0;
  path = path;
  enabled = true;
  targets = record { host = codes "10.0.0.1"; port = pos 80; weight = pos 0; backup = false } ∷ [];
  redirect = [];
  notes = [];
}

one_name :
    render_ha_route_rules
      (codes "fe_pg4")
      (codes "be_pg4")
      (record site { routes = rule (codes "/a") ∷ rule (codes "/b") ∷ [] })
    ≡ codes
        "    acl fe_pg4_r0 path_beg /a\n    use_backend be_pg4_r0 if fe_pg4_r0\n    acl fe_pg4_r0 path_beg /b\n    use_backend be_pg4_r0 if fe_pg4_r0\n"
unfolding render_ha_route_rules filter_map longest_first insert_rule rule_number decimal digits
    escape_ha rule_has_redirect
one_name = refl

-- A backslash in front of a space stays as it is: two backslashes and a bare space.
backslash_text : escape_ha (codes "a\\ b") ≡ codes "a\\\\ b"
unfolding escape_ha
backslash_text = refl
