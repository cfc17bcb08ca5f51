-- ===== src/Connections.antt =====
-- What proxy/proxy.go does with a TCP connection, from `handleConnection` until it is handed to an
-- HTTP server or connected with a server of its backend.
pub mod Chosen
pub mod Steps
pub mod Admitted
use Prim.Native.String.{String}
use rp.Prelude.{
  ℕ, ◌≡◌, refl, Bool, true, false, not, ◌&&◌, ◌||◌, Option, none, some, List, [], ◌∷◌,
  if◌then◌else◌, leb,
}
use rp.Prelude.Text.{string_eq, ◌=?◌, contains}
use rp.Prelude.Words.{is_empty}
use rp.Prelude.Call.{Call, ok, err, panic, ◌>>=◌, ◌>>◌, fail_if, or_fail}
use rp.Backend.{
  Backend, Certificate, ClientAuth, Error, Addr, tcp_addr, udp_addr, other_addr, IpNet, Mode, tcp,
  tls, quic, http, https, local, console, tls_passthrough,
}
use rp.Backend.Access.{authorize, check_ip, any_contains}
use rp.Routing.{Backends, backend, ConnectionState, Revocation, verify_connection}

-- What the client's first message says: a server name, or the empty text, and protocols.
pub record Hello : Type 0 where
  pub server_name : String
  pub alpn_protos : List String

-- A connection and what the proxy asks of it and of packages: the addresses of the peer and of the
-- PROXY header, the number of connections in the tracker, the client's first message, what
-- crypto/tls agrees on with the client under the backend's configuration, but for the call of
-- `VerifyConnection`, whether `connLimit.Wait` and `dial` succeed, and whether the backend has a
-- channel for HTTP connections.
pub record Incoming : Type 0 where
  pub peer : Addr
  pub header_addr : Option Addr
  pub num_open : ℕ
  pub hello : Option Hello
  pub negotiate : Backend → Option ConnectionState
  pub wait_ok : Backend → Bool
  pub dial_ok : Backend → Bool
  pub has_chan : Backend → Bool

-- What the proxy reads of itself and of its configuration.
pub record Proxy : Type 0 where
  pub backends : Backends
  pub revocation : Revocation
  pub accept_from : List IpNet
  pub max_open : ℕ
  pub default_server_name : String

pub data Refusal : Type 0 where
  too_many_open invalid_hello handshake_failed mismatched_name rate_limited no_channel : Refusal
  dial_error : Refusal
  refused : Error → Refusal

-- What a connection comes to: the HTTP server of a backend has it, it is connected with a server of
-- the backend, after a TLS handshake or without one, or a challenge of ACME has been answered.
pub data Reached : Type 0 where
  to_http to_server to_passthrough : Backend → Reached
  to_acme : Reached

abbrev pub accept_proxy_header : List IpNet → Addr → Bool
accept_proxy_header nets (tcp_addr ip) = any_contains nets ip
accept_proxy_header nets _ = false

abbrev pub remote_addr : Proxy → Incoming → Addr
remote_addr p c = elim c.header_addr [
  | none ↦ c.peer
  | some a ↦ if accept_proxy_header p.accept_from c.peer then a else c.peer
]

abbrev pub as_refusal {ℓ} : {A : Type ℓ} → Call Error A → Call Refusal A
as_refusal (ok a) = ok a
as_refusal (err e) = err (refused e)
as_refusal panic = panic

abbrev pub name_of : Proxy → Hello → String
name_of p h = if is_empty h.server_name then p.default_server_name else h.server_name

-- Until the connection counts as one of its backend.
unfoldable pub find : Proxy → Incoming → Call Refusal (Hello × Backend)
find p c = do
  fail_if (leb p.max_open c.num_open) too_many_open
  hello ← or_fail c.hello invalid_hello
  be ← as_refusal (backend p.backends (name_of p hello) hello.alpn_protos)
  ok (hello, be)

-- `conn.HandshakeContext` with the configuration of `be.tlsConfig`, which has `verifyConnection`
-- called where the backend wants to know its clients.
abbrev pub verified : Proxy → Backend → ConnectionState → Call Error (Unit {0})
verified p be cs = elim be.client_auth [
  | none ↦ ok tt
  | some auth ↦ verify_connection p.revocation p.backends cs
]

abbrev pub after_handshake {ℓ} : {A : Type ℓ} → Call Error A → Call Refusal A
after_handshake (ok a) = ok a
after_handshake (err e) = err handshake_failed
after_handshake panic = panic

abbrev pub mismatched : Proxy → String → ConnectionState → Bool
mismatched p sn cs =
    if is_empty cs.server_name
    then not (sn =? p.default_server_name)
    else not (cs.server_name =? sn)

abbrev pub first_cert : List Certificate → Option Certificate
first_cert [] = none
first_cert (cert ∷ certs) = some cert

unfoldable pub authorize_tls_connection :
    Proxy → Incoming → String → Backend → Call Refusal ConnectionState
authorize_tls_connection p c sn be = do
  cs ← or_fail (c.negotiate be) handshake_failed
  after_handshake (verified p be cs)
  fail_if (mismatched p sn cs) mismatched_name
  as_refusal (authorize be (first_cert cs.peer_certificates))
  ok cs

unfoldable pub handle_http_connection : Proxy → Incoming → String → Backend → Call Refusal Reached
unfolding authorize_tls_connection
handle_http_connection p c sn be = do
  cs ← authorize_tls_connection p c sn be
  fail_if (not (c.wait_ok be)) rate_limited
  fail_if (not (c.has_chan be)) no_channel
  ok (to_http be)

unfoldable pub handle_tls_connection : Proxy → Incoming → String → Backend → Call Refusal Reached
unfolding authorize_tls_connection
handle_tls_connection p c sn be = do
  cs ← authorize_tls_connection p c sn be
  fail_if (not (c.wait_ok be)) rate_limited
  fail_if (not (c.dial_ok be)) dial_error
  ok (to_server be)

unfoldable pub handle_tls_passthrough_connection : Incoming → Backend → Call Refusal Reached
handle_tls_passthrough_connection c be = do
  fail_if (not (c.wait_ok be)) rate_limited
  fail_if (not (c.dial_ok be)) dial_error
  ok (to_passthrough be)

abbrev pub is_acme : Hello → Bool
is_acme h = only_acme h.alpn_protos && not (is_empty h.server_name)
  where
    only_acme : List String → Bool
    only_acme [] = false
    only_acme (proto ∷ []) = proto =? "acme-tls/1"
    only_acme (proto ∷ other ∷ protos) = false

-- A handshake for ACME reaches no backend, and ends the connection whether it succeeds or not.
unfoldable pub by_mode : Proxy → Incoming → String → Backend → Mode → Call Refusal Reached
unfolding handle_http_connection handle_tls_connection handle_tls_passthrough_connection
by_mode p c sn be tls_passthrough = handle_tls_passthrough_connection c be
by_mode p c sn be http = handle_http_connection p c sn be
by_mode p c sn be https = handle_http_connection p c sn be
by_mode p c sn be local = handle_http_connection p c sn be
by_mode p c sn be console = handle_http_connection p c sn be
by_mode p c sn be tcp = handle_tls_connection p c sn be
by_mode p c sn be tls = handle_tls_connection p c sn be
by_mode p c sn be quic = handle_tls_connection p c sn be

abbrev pub passes_through : Mode → Bool
passes_through tls_passthrough = true
passes_through _ = false

unfoldable pub handle_connection : Proxy → Incoming → Call Refusal Reached
unfolding find by_mode
handle_connection p c = find p c >>= λ found.
    if not (passes_through found.1.mode) && is_acme found.0
    then ok to_acme
    else (as_refusal (check_ip found.1 (remote_addr p c)) >>= λ u.
        by_mode p c (name_of p found.0) found.1 found.1.mode)
