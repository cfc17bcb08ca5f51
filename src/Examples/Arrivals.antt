-- ===== src/Examples/Arrivals.antt =====
-- Connections to a proxy with a backend that wants to know its clients.
use Prim.Native.String.{String}
use rp.Prelude.{
  ◌≡◌, refl, inr, true, false, Option, none, some, [], ◌∷◌, inl, if◌then◌else◌, Bool-cases, arith,
}
use rp.Prelude.Text.{string_eq, contains, IsIn}
use rp.Prelude.Map.{lookup, insert}
use rp.Prelude.Call.{ok, err}
use rp.Backend.{Backend, Certificate, https, tcp_addr, v4}
use rp.Backend.Access.{authorize, check_ip, any_contains, any_listed, subject_listed, cert_listed}
use rp.Routing.{
  register, register_names, register_protos, register_default, find_backend, backend,
  ConnectionState, is_revoked, verify_peer, verify_connection,
}
use rp.Routing.Lookup.{Proper}
use rp.Routing.Admission.{Welcome}
use rp.Config.Check.Distinct.{any_offers}
use rp.Connections.{
  Hello, Incoming, Proxy, to_http, handshake_failed, find, authorize_tls_connection,
  handle_http_connection, by_mode, handle_connection,
}
use rp.Connections.Steps.{Got}
use rp.Connections.Admitted.{Agreed, handle_connection-Welcome}

abbrev members : Backend
members = record {
  name = 1;
  mode = https;
  server_names = "members.example.com" ∷ [];
  alpn_protos = "h2" ∷ [];
  client_auth = some (record { acl = some ("DNS:alice" ∷ []) });
  deny_ips = none;
  allow_ips = none;
  shutdown = false;
}

abbrev alice : Certificate
alice = record {
  subject = "CN=alice";
  dns_names = "alice" ∷ [];
  email_addresses = [];
  uris = [];
  authority_key_id = "01";
  serial_number = 7;
  ocsp_server = [];
}

abbrev agreed_on : String → ConnectionState
agreed_on sn = record {
  server_name = sn;
  negotiated_protocol = "h2";
  peer_certificates = alice ∷ [];
  has_verified_chains = true;
  is_tls12 = false;
}

-- The library agrees with the backends that have the protocol.
abbrev negotiating : String → Backend → Option ConnectionState
negotiating sn be = if contains be.alpn_protos "h2" then some (agreed_on sn) else none

abbrev arrival : String → Incoming
arrival sn = record {
  peer = tcp_addr (v4 1);
  header_addr = none;
  num_open = 1;
  hello = some (record { server_name = sn; alpn_protos = "h2" ∷ [] });
  negotiate = negotiating sn;
  wait_ok = λ be. true;
  dial_ok = λ be. true;
  has_chan = λ be. true;
}

abbrev proxy : Proxy
proxy = record {
  backends = register (members ∷ []) [];
  revocation = record { pki_map = λ id. some (λ n. false); ocsp_fails = false };
  accept_from = [];
  max_open = 100;
  default_server_name = "members.example.com";
}

arrives : handle_connection proxy (arrival "members.example.com") ≡ ok (to_http members)
unfolding handle_connection find by_mode handle_http_connection authorize_tls_connection backend
    find_backend register register_names register_protos register_default lookup insert check_ip
    verify_connection verify_peer is_revoked authorize cert_listed any_listed subject_listed
    contains any_contains
arrives = refl

-- The same client without a server name is taken for one of the default name, whose backend is
-- found; the handshake then fails, since no backend has the empty name.
nameless : handle_connection proxy (arrival "") ≡ err handshake_failed
unfolding handle_connection find by_mode handle_http_connection authorize_tls_connection backend
    find_backend register register_names register_protos register_default lookup insert check_ip
    verify_connection verify_peer is_revoked authorize cert_listed any_listed subject_listed
    contains any_contains
nameless = refl

agreeing : Agreed (arrival "members.example.com")
agreeing be cs h = elim (Bool-cases (contains be.alpn_protos "h2")) [
  | inr e ↦ absurd (ground arith)
  | inl e ↦
      let same : agreed_on "members.example.com" ≡ cs = ground arith in
      rw (← same) ((λ f. cc), (λ f. cc), e)
]

proper : (h : Hello) → (arrival "members.example.com").hello ≡ some h → Proper h.alpn_protos
proper h e = let same : "h2" ∷ [] ≡ h.alpn_protos = cc in rw (← same) ((λ f. cc), tt)

handle_connection-Welcome_example :
    (g : Got proxy (arrival "members.example.com") members) × IsIn members (members ∷ [])
    × Welcome proxy.revocation members g.authorized.cs
unfolding any_offers contains
handle_connection-Welcome_example =
    handle_connection-Welcome proxy (arrival "members.example.com") (members ∷ []) refl
      ((λ n p. ground arith), tt) (refl, tt) agreeing (to_http members) members arrives refl proper
