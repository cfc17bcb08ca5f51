-- ===== src/Config/Backends.antt =====
-- The two loops of `Check` over the backends: the first settles the mode and the protocols, the
-- second checks the rest, with the names of the providers, PKIs and bandwidth limits.
use Prim.Native.String.{String}
use rp.Prelude.{
  ℕ, Bool, false, not, ◌&&◌, ◌||◌, Option, none, some, List, [], ◌∷◌, if◌then◌else◌, ◌==◌,
}
use rp.Prelude.Text.{string_eq, contains}
use rp.Prelude.Words.{is_empty, has_prefix, has_suffix, upper_is, any_lower}
use rp.Prelude.Call.{Call, ok, ◌>>=◌, ◌>>◌, fail_if, or_fail, for_each, map_each}
use rp.Backend.{Mode, http, https, IpNet}
use rp.Routing.{is_nil}
use rp.Config.{
  Env, ConfigBackend, ConfigClientAuth, ConfigRewriteRule, LocalOidcClient, LocalOidcServer,
  BackendSso, PathOverride, parse_mode, is_http, is_local, is_quic, is_passthrough,
  validate_proxy_proto_version,
}
use rp.Config.Names.{Prepared, named}

abbrev pub default_protos : Bool → Mode → List String
default_protos enable_quic mode =
    if enable_quic && (is_http mode || is_local mode || is_quic mode)
    then "h3" ∷ "h2" ∷ "http/1.1" ∷ []
    else "h2" ∷ "http/1.1" ∷ []

abbrev pub or_default {ℓ} : {A : Type ℓ} → A → Option A → A
or_default a none = a
or_default a (some b) = b

-- In mode QUIC a flag that is not set becomes false.
abbrev pub close_flag : Mode → Option Bool → Option Bool
close_flag mode flag = if is_quic mode then some (or_default false flag) else flag

unfoldable pub prepare : Bool → ConfigBackend → Call String Prepared
prepare enable_quic be = do
  mode ← or_fail (parse_mode be.mode) "backend.Mode: value must be one of"
  fail_if (is_passthrough mode && named be.client_auth)
      "backend.ClientAuth: client auth is not compatible with TLS Passthrough"
  fail_if (named be.backend_proto && not (is_http mode))
      "backend.BackendProto: field is not valid in mode"
  ok (record {
    config = be;
    mode = mode;
    server_names = be.server_names;
    alpn_protos = or_default (default_protos enable_quic mode) be.alpn_protos;
    server_close = close_flag mode be.server_close_ends_connection;
    client_close = close_flag mode be.client_close_ends_connection;
  })

-- Each is the name of a PKI, or certificates that load.
unfoldable pub check_roots : Env → List String → List String → Call String (Unit {0})
check_roots env pkis =
    for_each (λ n. fail_if (not (contains pkis n) && not (env.load_certs n)) "RootCAs")

abbrev pub valid_xfcc_fields : List String
valid_xfcc_fields = "cert" ∷ "chain" ∷ "hash" ∷ "subject" ∷ "uri" ∷ "dns" ∷ []

unfoldable pub check_client_auth :
    Env → List String → Option ConfigClientAuth → Call String (Unit {0})
check_client_auth env pkis none = ok tt
check_client_auth env pkis (some auth) =
    check_roots env pkis auth.root_cas
    >> for_each
        (λ f. fail_if (not (any_lower valid_xfcc_fields f)) "AddClientCertHeader: invalid field")
        auth.add_client_cert_header

unfoldable pub check_client : LocalOidcClient → Call String (Unit {0})
check_client client = do
  fail_if (is_empty client.id) "Clients.ID must be set"
  fail_if (is_empty client.secret) "Clients.Secret must be set"
  fail_if (is_nil client.redirect_uri) "Clients.RedirectURI must be set"

unfoldable pub check_rule : Env → ConfigRewriteRule → Call String (Unit {0})
check_rule env rr = do
  fail_if (is_empty rr.input_claim) "RewriteRules.InputClaim must be set"
  fail_if (is_empty rr.output_claim) "RewriteRules.OutputClaim must be set"
  fail_if (is_empty rr.regex) "RewriteRules.Regex must be set"
  fail_if (not (env.regex_compiles rr.regex)) "RewriteRules.Regex"

abbrev pub check_local : Env → Option LocalOidcServer → Call String (Unit {0})
check_local env none = ok tt
check_local env (some s) =
    for_each check_client s.clients >> for_each (check_rule env) s.rewrite_rules

unfoldable pub check_sso : Env → List String → Option BackendSso → Call String (Unit {0})
check_sso env ids none = ok tt
check_sso env ids (some sso) = do
  fail_if (not (contains ids sso.provider)) "backend.SSO.Provider: unknown provider"
  check_local env sso.local_oidc_server

-- `AllowIPs` and `DenyIPs`.
unfoldable pub parse_nets : Env → Option (List String) → Call String (Option (List IpNet))
parse_nets env none = ok none
parse_nets env (some cs) =
    map_each (λ c. or_fail (env.parse_cidr c) "CIDR") cs >>= λ nets. ok (some nets)

abbrev pub default_timeout : ℕ
default_timeout = 30000000000

abbrev pub or_nonzero : ℕ → ℕ → ℕ
or_nonzero d n = if n == 0 then d else n

pub record ReadyOverride : Type 0 where
  pub paths : List String
  pub mode : Mode
  pub forward_server_name : String
  pub forward_timeout : ℕ
  pub proxy_protocol_version : ℕ

-- An override without a mode has the backend's. Else only these two are valid.
abbrev pub override_mode : Mode → String → Option Mode
override_mode mode s =
    if is_empty s
    then some mode
    else if upper_is s "HTTP"
    then some http
    else if upper_is s "HTTPS"
    then some https
    else none

unfoldable pub check_override : Env → List String → Mode → PathOverride → Call String ReadyOverride
check_override env pkis be_mode po = do
  fail_if (is_nil po.paths) "PathOverrides.Paths: cannot be empty"
  for_each
      (λ n. fail_if (not (has_prefix n "/") || not (has_suffix n "/")) "must start and end with /")
      po.paths
  mode ← or_fail (override_mode be_mode po.mode) "Mode: must be either HTTP or HTTPS"
  fail_if (not (is_http mode)) "Mode: must be either HTTP or HTTPS"
  check_roots env pkis po.forward_root_cas
  version ← validate_proxy_proto_version po.proxy_protocol_version
  ok (record {
    paths = po.paths;
    mode = mode;
    forward_server_name = env.idna po.forward_server_name;
    forward_timeout = or_nonzero default_timeout po.forward_timeout;
    proxy_protocol_version = version;
  })

-- A backend of a checked configuration.
pub record Ready : Type 0 where
  pub prepared : Prepared
  pub allow_ips : Option (List IpNet)
  pub deny_ips : Option (List IpNet)
  pub forward_server_name : String
  pub forward_timeout : ℕ
  pub forward_rate_limit : ℕ
  pub proxy_protocol_version : ℕ
  pub path_overrides : List ReadyOverride

-- The names that a backend may refer to.
pub record Known : Type 0 where
  pub providers : List String
  pub pkis : List String
  pub limits : List String

unfoldable pub check_addresses : Known → Prepared → Call String (Unit {0})
check_addresses known p = do
  let be = p.config
  fail_if (is_nil p.server_names) "backend.ServerNames: backend must have at least one server name"
  fail_if (is_nil be.addresses && not (is_local p.mode || is_http p.mode))
      "backend.Addresses: backend must have at least one address"
  fail_if (not (is_nil be.addresses) && is_local p.mode)
      "backend.Addresses: Addresses should be empty when Mode is CONSOLE or LOCAL"
  fail_if (not (is_empty be.document_root) && not (is_nil be.addresses))
      "backend.DocumentRoot: only valid when Addresses is empty"
  fail_if (not (is_empty be.bw_limit) && not (contains known.limits be.bw_limit))
      "backend.BWLimit: undefined name"

unfoldable pub check_backend : Env → Known → Prepared → Call String Ready
check_backend env known p = do
  check_addresses known p
  check_client_auth env known.pkis p.config.client_auth
  check_sso env known.providers p.config.sso
  check_roots env known.pkis p.config.forward_root_cas
  allow ← parse_nets env p.config.allow_ips
  deny ← parse_nets env p.config.deny_ips
  version ← validate_proxy_proto_version p.config.proxy_protocol_version
  fail_if (not (is_nil p.config.path_overrides) && not (is_http p.mode))
      "backend.PathOverrides is only valid in HTTP or HTTPS mode"
  overrides ← map_each (check_override env known.pkis p.mode) p.config.path_overrides
  ok (record {
    prepared = p;
    allow_ips = allow;
    deny_ips = deny;
    forward_server_name = env.idna p.config.forward_server_name;
    forward_timeout = or_nonzero default_timeout p.config.forward_timeout;
    forward_rate_limit = or_nonzero 5 p.config.forward_rate_limit;
    proxy_protocol_version = version;
    path_overrides = overrides;
  })
