-- ===== src/Config.antt =====
-- proxy/config.go: the configuration as it is read, and what `Check` makes of it. An error keeps
-- the field and the complaint, without the position in the list and the values.
pub mod Providers
pub mod Names
pub mod Backends
pub mod Check
use Prim.Native.Char.{code}
use Prim.Native.String.{String}
use rp.Prelude.{
  ℕ, ◌+◌, ◌*◌, ◌-◌, ◌^◌, ◌%◌, Bool, true, false, not, ◌&&◌, ◌||◌, Option, none, some, List, [], ◌∷◌,
  if◌then◌else◌, leb, ◌==◌,
}
use rp.Prelude.Words.{upper_is, is_empty, has_suffix}
use rp.Prelude.Call.{Call, ok, err, ◌>>=◌, ◌>>◌, fail_if, or_fail}
use rp.Backend.{
  Mode, tcp, tls, tls_passthrough, quic, http, https, local, console, IpNet, Backend, ClientAuth,
}

pub record ConfigOidc : Type 0 where
  pub name : String
  pub discovery_url : String
  pub auth_endpoint : String
  pub token_endpoint : String
  pub redirect_url : String
  pub client_id : String
  pub client_secret : String
  pub domain : String

pub record ConfigSaml : Type 0 where
  pub name : String
  pub sso_url : String
  pub entity_id : String
  pub certs : String
  pub acs_url : String
  pub domain : String

pub record ConfigPasskey : Type 0 where
  pub name : String
  pub identity_provider : String
  pub endpoint : String
  pub domain : String

pub record ConfigPki : Type 0 where
  pub name : String
  pub endpoint : String

pub record ConfigSsh : Type 0 where
  pub name : String
  pub certificate_endpoint : String

pub record ConfigClientAuth : Type 0 where
  pub acl : Option (List String)
  pub root_cas : List String
  pub add_client_cert_header : List String

pub record LocalOidcClient : Type 0 where
  pub id : String
  pub secret : String
  pub redirect_uri : List String

pub record ConfigRewriteRule : Type 0 where
  pub input_claim : String
  pub output_claim : String
  pub regex : String

pub record LocalOidcServer : Type 0 where
  pub clients : List LocalOidcClient
  pub rewrite_rules : List ConfigRewriteRule

pub record BackendSso : Type 0 where
  pub provider : String
  pub local_oidc_server : Option LocalOidcServer

pub record PathOverride : Type 0 where
  pub paths : List String
  pub mode : String
  pub forward_server_name : String
  pub forward_root_cas : List String
  pub forward_timeout : ℕ
  pub proxy_protocol_version : String

-- `name` stands for the pointer. Durations and integers are 64-bit words.
pub record ConfigBackend : Type 0 where
  pub name : ℕ
  pub server_names : List String
  pub client_auth : Option ConfigClientAuth
  pub allow_ips : Option (List String)
  pub deny_ips : Option (List String)
  pub sso : Option BackendSso
  pub alpn_protos : Option (List String)
  pub backend_proto : Option String
  pub mode : String
  pub document_root : String
  pub bw_limit : String
  pub addresses : List String
  pub forward_rate_limit : ℕ
  pub forward_server_name : String
  pub forward_root_cas : List String
  pub forward_timeout : ℕ
  pub path_overrides : List PathOverride
  pub proxy_protocol_version : String
  pub server_close_ends_connection : Option Bool
  pub client_close_ends_connection : Option Bool

pub record Config : Type 0 where
  pub cache_dir : String
  pub tls_addr : String
  pub max_open : ℕ
  pub enable_quic : Option Bool
  pub accept_proxy_header_from : List String
  pub default_server_name : String
  pub oidc_providers : List ConfigOidc
  pub saml_providers : List ConfigSaml
  pub passkey_providers : List ConfigPasskey
  pub backends : List ConfigBackend
  pub pki : List ConfigPki
  pub ssh_certificate_authorities : List ConfigSsh
  pub bw_limits : List String

-- What `Check` asks of the system and of packages: the user's cache directory with tlsproxy's
-- letsencrypt directory joined to it, the limit of open files, `net.ParseCIDR`, `idnaToASCII`,
-- whether `url.Parse` and `regexp.Compile` succeed, the first value of `hostAndPath`, whether
-- `loadCerts` succeeds, and whether `os.MkdirAll` does.
pub record Env : Type 0 where
  pub user_cache_dir : Option String
  pub open_file_limit : Option ℕ
  pub quic_is_enabled : Bool
  pub parse_cidr : String → Option IpNet
  pub idna : String → String
  pub url_parses : String → Bool
  pub host_of : String → Option String
  pub load_certs : String → Bool
  pub regex_compiles : String → Bool
  pub make_dir : String → Bool

-- `strings.ToUpper(be.Mode)`, found among `validModes`.
abbrev pub parse_mode : String → Option Mode
parse_mode s =
    if upper_is s "" || upper_is s "PLAINTEXT" || upper_is s "TCP"
    then some tcp
    else if upper_is s "TLS"
    then some tls
    else if upper_is s "TLSPASSTHROUGH"
    then some tls_passthrough
    else if upper_is s "QUIC"
    then some quic
    else if upper_is s "HTTP"
    then some http
    else if upper_is s "HTTPS"
    then some https
    else if upper_is s "LOCAL"
    then some local
    else if upper_is s "CONSOLE"
    then some console
    else none

abbrev pub is_http : Mode → Bool
is_http http = true
is_http https = true
is_http _ = false

abbrev pub is_local : Mode → Bool
is_local local = true
is_local console = true
is_local _ = false

abbrev pub is_quic : Mode → Bool
is_quic quic = true
is_quic _ = false

abbrev pub is_passthrough : Mode → Bool
is_passthrough tls_passthrough = true
is_passthrough _ = false

-- The digits after the sign, in base 10; `none` on the empty text and on other characters.
unfoldable pub digits : ℕ → String → Option ℕ
digits n String.[] = some n
digits n (String.◌∷◌ c s) =
    let rest = digits (n * 10 + (code c - b'0')) s in
    if leb b'0' (code c) && leb (code c) b'9' then rest else none

abbrev pub unsigned : String → Option ℕ
unsigned s = if is_empty s then none else digits 0 s

-- `byte(v)` of `strconv.ParseInt(s, 10, 8)`: from -128 to 127, as a byte.
abbrev pub in_range : ℕ → Option ℕ → Option ℕ
in_range m none = none
in_range m (some n) = if leb n m then some n else none

abbrev pub negated : Option ℕ → Option ℕ
negated none = none
negated (some n) = some ((256 - n) % 256)

unfoldable pub parse_int8 : String → Option ℕ
unfolding digits
parse_int8 String.[] = none
parse_int8 (String.◌∷◌ c s) =
    if code c == b'-'
    then negated (in_range 128 (unsigned s))
    else if code c == b'+'
    then in_range 127 (unsigned s)
    else in_range 127 (unsigned (String.◌∷◌ c s))

unfoldable pub validate_proxy_proto_version : String → Call String ℕ
unfolding parse_int8
validate_proxy_proto_version String.[] = ok 0
validate_proxy_proto_version (String.◌∷◌ v s) =
    if is_empty s || not (code v == b'v')
    then err "ProxyProtocolVersion: invalid value"
    else or_fail (parse_int8 s) "ProxyProtocolVersion: not a number"

-- The part about `Domain` that the providers share: the provider's domain in ASCII.
unfoldable pub check_domain : Env → String → String → Call String String
check_domain env domain endpoint = if is_empty domain then ok domain else do
  host ← or_fail (env.host_of endpoint) "Domain: the endpoint does not parse"
  fail_if (not (has_suffix host (env.idna domain))) "Domain: must be part of the endpoint"
  ok (env.idna domain)
