-- ===== src/Config/Check.antt =====
-- `Check` of proxy/config.go as a whole: the checked configuration, or the first error.
pub mod Distinct
pub mod Run
pub mod Collected
pub mod Passed
pub mod Routes
pub mod Sound
use Prim.Native.String.{String}
use rp.Prelude.{
  ℕ, ◌+◌, ◌-◌, ◌/◌, ◌%◌, ◌^◌, ◌≡◌, refl, Bool, true, false, not, ◌&&◌, Option, none, some, List, [],
  ◌∷◌, map, if◌then◌else◌, ltb, ◌==◌,
}
use rp.Prelude.Words.{is_empty}
use rp.Prelude.Call.{Call, ok, err, ◌>>=◌, ◌>>◌, fail_if, or_fail, map_each}
use rp.Backend.{IpNet}
use rp.Config.{Env, Config, ConfigOidc, ConfigSaml, ConfigPasskey, ConfigPki, ConfigSsh}
use rp.Config.Providers.{check_oidc, check_saml, check_passkey, check_all}
use rp.Config.Names.{
  Prepared, in_ascii, NameTable, no_names, add_backends, check_pki, check_ssh, check_limit, collect,
}
use rp.Config.Backends.{Known, Ready, prepare, check_backend, or_default}

-- The configuration after `Check`, without the fields that it leaves alone.
pub record Checked : Type 0 where
  pub cache_dir : String
  pub tls_addr : String
  pub max_open : ℕ
  pub enable_quic : Bool
  pub accept_proxy_header_from : List IpNet
  pub default_server_name : String
  pub oidc_providers : List ConfigOidc
  pub saml_providers : List ConfigSaml
  pub passkey_providers : List ConfigPasskey
  pub backends : List Ready

-- `n/2` of an int: the quotient towards zero.
abbrev pub half : ℕ → ℕ
half n = if ltb n (2 ^ 63) then n / 2 else (2 ^ 64 - (2 ^ 64 - n) / 2) % 2 ^ 64

abbrev pub open_files : Env → ℕ → Call String ℕ
open_files env n =
    if n == 0
    then (or_fail env.open_file_limit "MaxOpen: value must be set" >>= λ limit.
        ok ((half limit + (2 ^ 64 - 100)) % 2 ^ 64))
    else ok n

abbrev pub cache_in : Env → String → Call String String
cache_in env dir =
    if is_empty dir then or_fail env.user_cache_dir "CacheDir must be set in config" else ok dir

abbrev pub quic_setting : Env → Config → Bool
quic_setting env cfg = or_default env.quic_is_enabled cfg.enable_quic

-- The three loops over the providers: all the names, and the providers with their domains.
pub record Providers : Type 0 where
  pub names : List String
  pub oidc : List ConfigOidc
  pub saml : List ConfigSaml
  pub passkey : List ConfigPasskey

unfoldable pub check_providers : Env → Config → Call String Providers
check_providers env cfg = do
  a ← check_all (λ p. p.name) (check_oidc env) [] cfg.oidc_providers
  b ← check_all (λ p. p.name) (check_saml env) a.0 cfg.saml_providers
  c ← check_all (λ p. p.name) (check_passkey env) b.0 cfg.passkey_providers
  ok (record { names = c.0; oidc = a.1; saml = b.1; passkey = c.1 })

-- From the first loop over the backends to the last.
unfoldable pub check_backends : Env → Config → List String → Call String (List Ready)
check_backends env cfg providers = do
  prepared ← map_each (prepare (quic_setting env cfg)) cfg.backends
  table ← add_backends (map (in_ascii env) prepared) no_names
  pkis ← collect (λ p. p.name) (check_pki env table) [] cfg.pki
  cas ← collect (λ p. p.name) (check_ssh env table) [] cfg.ssh_certificate_authorities
  limits ← collect (λ l. l) check_limit [] cfg.bw_limits
  map_each (check_backend env (record { providers = providers; pkis = pkis; limits = limits }))
      (map (in_ascii env) prepared)

unfoldable pub check : Env → Config → Call String Checked
unfolding check_providers check_backends
check env cfg = do
  cache_dir ← cache_in env cfg.cache_dir
  max_open ← open_files env cfg.max_open
  fail_if (quic_setting env cfg && not env.quic_is_enabled)
      "EnableQUIC: QUIC is not supported in this binary"
  nets ←
      map_each (λ c. or_fail (env.parse_cidr c) "AcceptProxyHeaderFrom")
        cfg.accept_proxy_header_from
  providers ← check_providers env cfg
  backends ← check_backends env cfg providers.names
  fail_if (not (env.make_dir cache_dir)) "MkdirAll"
  ok (record {
    cache_dir = cache_dir;
    tls_addr = if is_empty cfg.tls_addr then ":10443" else cfg.tls_addr;
    max_open = max_open;
    enable_quic = quic_setting env cfg;
    accept_proxy_header_from = nets;
    default_server_name = env.idna cfg.default_server_name;
    oidc_providers = providers.oidc;
    saml_providers = providers.saml;
    passkey_providers = providers.passkey;
    backends = backends;
  })
