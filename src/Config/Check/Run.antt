-- ===== src/Config/Check/Run.antt =====
-- The steps of a run of `Check` that ends without an error.
use Prim.Native.String.{String}
use rp.Prelude.{◌≡◌, sym, ap, ◌∙◌, List, [], map, not, ◌&&◌, false, arith}
use rp.Prelude.Call.{ok, or_fail, map_each, >>=-ok, fail_if-ok}
use rp.Config.{Env, Config}
use rp.Config.Providers.{check_oidc, check_saml, check_passkey, check_all}
use rp.Config.Names.{
  Prepared, in_ascii, NameTable, no_names, add_backends, check_pki, check_ssh, check_limit, collect,
}
use rp.Config.Backends.{Ready, prepare, check_backend}
use rp.Config.Check.{
  Checked, Providers, check_providers, check_backends, check, quic_setting, cache_in, open_files,
}

pub record ProvidersRun (env : Env) (cfg : Config) (p : Providers) : Type 0 where
  pub ids_oidc : List String
  pub ids_saml : List String
  pub oidc : check_all (λ p. p.name) (check_oidc env) [] cfg.oidc_providers ≡ ok (ids_oidc, p.oidc)
  pub saml :
      check_all (λ p. p.name) (check_saml env) ids_oidc cfg.saml_providers ≡ ok (ids_saml, p.saml)
  pub passkey :
      check_all (λ p. p.name) (check_passkey env) ids_saml cfg.passkey_providers
      ≡ ok (p.names, p.passkey)

pub check_providers-Run :
    (env : Env) (cfg : Config) (p : Providers)
    → check_providers env cfg ≡ ok p
    → ProvidersRun env cfg p
unfolding check_providers
check_providers-Run env cfg p h =
    let (a, oidc, h1) =
      >>=-ok (check_all (λ p. p.name) (check_oidc env) [] cfg.oidc_providers) _ h in
    let (b, saml, h2) =
      >>=-ok (check_all (λ p. p.name) (check_saml env) a.0 cfg.saml_providers) _ h1 in
    let (c, passkey, last) =
      >>=-ok (check_all (λ p. p.name) (check_passkey env) b.0 cfg.passkey_providers) _ h2 in
    record {
      ids_oidc = a.0;
      ids_saml = b.0;
      oidc = oidc ∙ ap ok (ground arith);
      saml = saml ∙ ap ok (ground arith);
      passkey = passkey ∙ ap ok (ground arith);
    }

pub record BackendsRun (env : Env) (cfg : Config) (providers : List String) (rs : List Ready)
    : Type 0 where
  pub prepared : List Prepared
  pub table : NameTable
  pub pkis : List String
  pub limits : List String
  pub settled : map_each (prepare (quic_setting env cfg)) cfg.backends ≡ ok prepared
  pub apart : add_backends (map (in_ascii env) prepared) no_names ≡ ok table
  pub all_pkis : collect (λ p. p.name) (check_pki env table) [] cfg.pki ≡ ok pkis
  pub all_limits : collect (λ l. l) check_limit [] cfg.bw_limits ≡ ok limits
  pub checked :
      map_each
        (check_backend env (record { providers = providers; pkis = pkis; limits = limits }))
        (map (in_ascii env) prepared)
      ≡ ok rs

pub check_backends-Run :
    (env : Env) (cfg : Config) (providers : List String) (rs : List Ready)
    → check_backends env cfg providers ≡ ok rs
    → BackendsRun env cfg providers rs
unfolding check_backends
check_backends-Run env cfg providers rs h =
    let (prepared, settled, h1) =
      >>=-ok (map_each (prepare (quic_setting env cfg)) cfg.backends) _ h in
    let (table, apart, h2) = >>=-ok (add_backends (map (in_ascii env) prepared) no_names) _ h1 in
    let (pkis, all_pkis, h3) =
      >>=-ok (collect (λ p. p.name) (check_pki env table) [] cfg.pki) _ h2 in
    let (cas, all_cas, h4) =
      >>=-ok (collect (λ p. p.name) (check_ssh env table) [] cfg.ssh_certificate_authorities) _
        h3 in
    let (limits, all_limits, h5) = >>=-ok (collect (λ l. l) check_limit [] cfg.bw_limits) _ h4 in
    record {
      prepared = prepared;
      table = table;
      pkis = pkis;
      limits = limits;
      settled = settled;
      apart = apart;
      all_pkis = all_pkis;
      all_limits = all_limits;
      checked = h5;
    }

-- The parts of a whole run.
pub record Run (env : Env) (cfg : Config) (c : Checked) : Type 0 where
  pub providers : Providers
  pub nets :
      map_each {E = String}
        (λ s. or_fail (env.parse_cidr s) "AcceptProxyHeaderFrom")
        cfg.accept_proxy_header_from
      ≡ ok c.accept_proxy_header_from
  pub supported : (quic_setting env cfg && not env.quic_is_enabled) ≡ false
  pub of_providers : ProvidersRun env cfg providers
  pub of_backends : BackendsRun env cfg providers.names c.backends
  pub made : (not (env.make_dir c.cache_dir)) ≡ false

pub check-Run : (env : Env) (cfg : Config) (c : Checked) → check env cfg ≡ ok c → Run env cfg c
unfolding check
check-Run env cfg c h =
    let (dir, e0, h0) = >>=-ok (cache_in env cfg.cache_dir) _ h in
    let (files, e1, h1) = >>=-ok (open_files env cfg.max_open) _ h0 in
    let off = quic_setting env cfg && not env.quic_is_enabled in
    let (supported, h2) = fail_if-ok off "EnableQUIC: QUIC is not supported in this binary" _ h1 in
    let (nets, e3, h3) =
      >>=-ok
        (map_each {E = String} (λ s. or_fail (env.parse_cidr s) "AcceptProxyHeaderFrom")
          cfg.accept_proxy_header_from)
        _ h2 in
    let (ps, e4, h4) = >>=-ok (check_providers env cfg) _ h3 in
    let (rs, e5, h5) = >>=-ok (check_backends env cfg ps.names) _ h4 in
    let (made, last) = fail_if-ok (not (env.make_dir dir)) "MkdirAll" _ h5 in
    let same : rs ≡ c.backends = ground arith in
    let same_dir : dir ≡ c.cache_dir = ground arith in
    record {
      providers = ps;
      nets = e3 ∙ ap ok (ground arith);
      supported = supported;
      of_providers = check_providers-Run env cfg ps e4;
      of_backends = check_backends-Run env cfg ps.names c.backends (e5 ∙ ap ok same);
      made = ap (λ d. not (env.make_dir d)) (sym same_dir) ∙ made;
    }
