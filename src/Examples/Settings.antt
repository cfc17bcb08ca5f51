-- ===== src/Examples/Settings.antt =====
-- A configuration with one identity provider, one PKI and two backends.
use Prim.Native.String.{String}
use rp.Prelude.{◌≡◌, refl, true, false, Option, none, some, [], ◌∷◌, map}
use rp.Prelude.Text.{string_eq, contains, IsIn, here}
use rp.Prelude.Words.{has_suffix, upper_is}
use rp.Prelude.Map.{lookup, insert}
use rp.Prelude.Call.{ok, for_each, map_each}
use rp.Backend.{v4, IpNet}
use rp.Routing.{key, key_eq, register}
use rp.Config.{
  Env, Config, ConfigBackend, digits, parse_int8, validate_proxy_proto_version, check_domain,
}
use rp.Config.Providers.{check_oidc, check_all}
use rp.Config.Names.{
  add_protos, add_name, add_names, add_backends, endpoint_mode, check_pki, check_limit, collect,
}
use rp.Config.Backends.{
  prepare, check_roots, check_client_auth, check_sso, parse_nets, check_addresses, check_backend,
  Ready,
}
use rp.Config.Check.{Checked, check_providers, check_backends, check}
use rp.Config.Check.Routes.{backend_of, check-served}
use rp.Config.Check.Sound.{Sound, check-Sound}

abbrev env : Env
env = record {
  user_cache_dir = some "/home/p/.cache/tlsproxy/letsencrypt";
  open_file_limit = some 1024;
  quic_is_enabled = true;
  parse_cidr = λ s. if_home s;
  idna = λ s. s;
  url_parses = λ s. true;
  host_of = λ s. some "login.example.com";
  load_certs = λ s. false;
  regex_compiles = λ s. true;
  make_dir = λ s. true;
}
  where
    if_home : String → Option IpNet
    if_home s = some (record { base = v4 3232235776; ones = 24 })

abbrev plain : ConfigBackend
plain = record {
  name = 1;
  server_names = "www.example.com" ∷ [];
  client_auth = none;
  allow_ips = some ("192.168.1.0/24" ∷ []);
  deny_ips = none;
  sso = some (record { provider = "idp"; local_oidc_server = none });
  alpn_protos = none;
  backend_proto = none;
  mode = "http";
  document_root = "";
  bw_limit = "";
  addresses = "192.168.1.2:80" ∷ [];
  forward_rate_limit = 0;
  forward_server_name = "";
  forward_root_cas = [];
  forward_timeout = 0;
  path_overrides = [];
  proxy_protocol_version = "v2";
  server_close_ends_connection = none;
  client_close_ends_connection = none;
}

abbrev login_server : ConfigBackend
login_server = record plain {
  name = 2;
  server_names = "login.example.com" ∷ [];
  allow_ips = none;
  sso = none;
  mode = "local";
  addresses = [];
  proxy_protocol_version = "";
}

abbrev settings : Config
settings = record {
  cache_dir = "";
  tls_addr = "";
  max_open = 0;
  enable_quic = none;
  accept_proxy_header_from = [];
  default_server_name = "";
  oidc_providers =
      record {
        name = "idp";
        discovery_url = "https://idp";
        auth_endpoint = "";
        token_endpoint = "";
        redirect_url = "https://login.example.com/oidc";
        client_id = "id";
        client_secret = "secret";
        domain = "example.com";
      }
      ∷ [];
  saml_providers = [];
  passkey_providers = [];
  backends = plain ∷ login_server ∷ [];
  pki = record { name = "ca"; endpoint = "https://login.example.com/pki" } ∷ [];
  ssh_certificate_authorities = [];
  bw_limits = [];
}

unfoldable settings_checked : (c : Checked) × (check env settings ≡ ok c)
unfolding check check_providers check_backends check_all check_oidc check_domain has_suffix contains
    map_each prepare add_backends add_names add_name add_protos lookup insert collect check_pki
    endpoint_mode check_addresses check_client_auth check_sso check_roots for_each parse_nets
    validate_proxy_proto_version parse_int8 digits check_backend check_limit upper_is
settings_checked = (_, refl)

check-Sound_example : (r : Ready) × Sound env settings r.prepared r
unfolding settings_checked
check-Sound_example =
    (_, check-Sound env settings settings_checked.0 _ settings_checked.1 (here refl))

unfoldable www : (r : Ready) × IsIn r settings_checked.0.backends
unfolding settings_checked
www = (_, here refl)

check-served_example :
    lookup (key "www.example.com" "h2") (register (map backend_of settings_checked.0.backends) [])
    ≡ some (backend_of www.0)
unfolding www settings_checked contains
check-served_example =
    check-served env settings settings_checked.0 www.0 "www.example.com" "h2" settings_checked.1
      www.1 refl (λ e. cc)
