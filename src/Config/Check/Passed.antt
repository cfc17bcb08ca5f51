-- ===== src/Config/Check/Passed.antt =====
-- A backend that `Check` accepts has passed every one of its tests.
use rp.Prelude.{◌≡◌, ap, ◌∙◌, false, not, ◌&&◌, arith}
use rp.Prelude.Call.{ok, map_each, >>=-ok, fail_if-ok}
use rp.Routing.{is_nil}
use rp.Config.{Env, is_http, validate_proxy_proto_version}
use rp.Config.Names.{Prepared}
use rp.Config.Backends.{
  Known, Ready, check_addresses, check_client_auth, check_sso, check_roots, parse_nets,
  check_override, check_backend,
}

pub record Passed (env : Env) (known : Known) (p : Prepared) (r : Ready) : Type 0 where
  pub addresses : check_addresses known p ≡ ok tt
  pub client_auth : check_client_auth env known.pkis p.config.client_auth ≡ ok tt
  pub sso : check_sso env known.providers p.config.sso ≡ ok tt
  pub roots : check_roots env known.pkis p.config.forward_root_cas ≡ ok tt
  pub allow : parse_nets env p.config.allow_ips ≡ ok r.allow_ips
  pub deny : parse_nets env p.config.deny_ips ≡ ok r.deny_ips
  pub version :
      validate_proxy_proto_version p.config.proxy_protocol_version ≡ ok r.proxy_protocol_version
  pub overridable : (not (is_nil p.config.path_overrides) && not (is_http p.mode)) ≡ false
  pub overrides :
      map_each (check_override env known.pkis p.mode) p.config.path_overrides ≡ ok r.path_overrides
  pub same : r.prepared ≡ p

pub check_backend-Passed :
    (env : Env) (known : Known) (p : Prepared) (r : Ready)
    → check_backend env known p ≡ ok r
    → Passed env known p r
unfolding check_backend
check_backend-Passed env known p r h =
    let (u, addresses, h1) = >>=-ok (check_addresses known p) _ h in
    let (u2, client_auth, h2) =
      >>=-ok (check_client_auth env known.pkis p.config.client_auth) _ h1 in
    let (u3, sso, h3) = >>=-ok (check_sso env known.providers p.config.sso) _ h2 in
    let (u4, roots, h4) = >>=-ok (check_roots env known.pkis p.config.forward_root_cas) _ h3 in
    let (a, allow, h5) = >>=-ok (parse_nets env p.config.allow_ips) _ h4 in
    let (d, deny, h6) = >>=-ok (parse_nets env p.config.deny_ips) _ h5 in
    let (v, version, h7) =
      >>=-ok (validate_proxy_proto_version p.config.proxy_protocol_version) _ h6 in
    let bad = not (is_nil p.config.path_overrides) && not (is_http p.mode) in
    let (overridable, h8) =
      fail_if-ok bad "backend.PathOverrides is only valid in HTTP or HTTPS mode" _ h7 in
    let (os, overrides, last) =
      >>=-ok (map_each (check_override env known.pkis p.mode) p.config.path_overrides) _ h8 in
    record {
      addresses = addresses;
      client_auth = client_auth;
      sso = sso;
      roots = roots;
      allow = allow ∙ ap ok (ground arith);
      deny = deny ∙ ap ok (ground arith);
      version = version ∙ ap ok (ground arith);
      overridable = overridable;
      overrides = overrides ∙ ap ok (ground arith);
      same = ground arith;
    }
