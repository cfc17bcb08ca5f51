-- ===== src/Examples/Routes.antt =====
-- A proxy with one backend, which wants to know its clients.
use Prim.Native.String.{String}
use rp.Prelude.{◌≡◌, ◌≢◌, refl, ◌↔◌, ◌⊎◌, true, false, none, some, [], ◌∷◌}
use rp.Prelude.Text.{contains}
use rp.Prelude.Call.{ok, panic}
use rp.Backend.{Backend, Certificate, https, Ip, v4, IpNet, Addr, tcp_addr}
use rp.Backend.Access.{
  authorize, check_ip, addr_ip, Shared, identities, authorize_iff, check_ip_iff, CoveredBy,
}
use rp.Routing.{
  Backends, register, backend, ConnectionState, Revocation, verify_connection, Connection,
  reauthorize, keep,
}
use rp.Routing.Table.{last_offer, first_named}
use rp.Routing.Lookup.{backend-chosen}
use rp.Routing.Admission.{Welcome, verify_connection_iff}
use rp.Routing.Reload.{Fits, reauthorize_iff, reauthorize_gone}

abbrev home_net : IpNet
home_net = record { base = v4 3232235776; ones = 24 }

abbrev web : Backend
web = record {
  name = 1;
  mode = https;
  server_names = "example.com" ∷ [];
  alpn_protos = "h2" ∷ "http/1.1" ∷ [];
  client_auth = some (record { acl = some ("DNS:alice" ∷ []) });
  deny_ips = none;
  allow_ips = some (home_net ∷ []);
  shutdown = false;
}

abbrev alice : Certificate
alice = record {
  subject = "CN=alice";
  dns_names = "alice" ∷ [];
  email_addresses = [];
  uris = [];
  authority_key_id = "01";
  serial_number = 7;
  ocsp_server = [];
}

abbrev table : Backends
table = register (web ∷ []) []

abbrev revocation : Revocation
revocation = record { pki_map = λ id. some (λ sn. false); ocsp_fails = true }

abbrev handshake : ConnectionState
handshake = record {
  server_name = "example.com";
  negotiated_protocol = "h2";
  peer_certificates = alice ∷ [];
  has_verified_chains = true;
  is_tls12 = false;
}

abbrev at_home : Addr
at_home = tcp_addr (v4 3232235777)

abbrev open_conn : Connection
open_conn = record {
  server_name_is_set = true;
  server_name = "example.com";
  proto = "h2";
  remote_addr = at_home;
  backend_of = some web;
  client_cert = some alice;
}

h2_is_proper : ◌≢◌ {A = String} "h2" ""
h2_is_proper = λ e. cc

backend-chosen_example : backend table "example.com" ("h2" ∷ []) ≡ ok web
unfolding last_offer first_named contains
backend-chosen_example =
    backend-chosen (web ∷ []) "example.com" ("h2" ∷ []) (refl, tt) (h2_is_proper, tt)

verify_connection_iff_example : (verify_connection revocation table handshake ≡ ok tt) ↔ (
    (be : Backend) × (backend table "example.com" ("h2" ∷ []) ≡ ok be)
    × Welcome revocation be handshake)
verify_connection_iff_example = verify_connection_iff revocation table handshake

authorize_iff_example :
    (authorize web (some alice) ≡ ok tt) ↔ Shared ("DNS:alice" ∷ []) (identities alice)
authorize_iff_example = authorize_iff web ("DNS:alice" ∷ []) alice refl

check_ip_iff_example : (check_ip web at_home ≡ ok tt) ↔ (
    (ip : Ip) × (addr_ip at_home ≡ some ip)
    × ¬ CoveredBy none ip
    × ((some (home_net ∷ []) ≡ none) ⊎ CoveredBy (some (home_net ∷ [])) ip))
check_ip_iff_example = check_ip_iff web at_home

reauthorize_iff_example :
    (reauthorize table open_conn ≡ ok keep)
    ↔ ((be : Backend) × (backend table "example.com" ("h2" ∷ []) ≡ ok be) × Fits be web open_conn)
reauthorize_iff_example = reauthorize_iff table open_conn refl web refl

reauthorize_gone_example : reauthorize (register [] []) open_conn ≡ panic
unfolding last_offer first_named
reauthorize_gone_example = reauthorize_gone [] open_conn refl tt h2_is_proper refl
