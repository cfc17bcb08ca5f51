-- ===== src/Routing.antt =====
-- Which backend a connection belongs to, and whether it may stay: the table of backends that
-- `reconfigure` builds, and `backend`, `verifyConnection` and `reAuthorize`, of proxy/proxy.go.
pub mod Table
pub mod Lookup
pub mod Admission
pub mod Reload
use Prim.Native.String.{String}
use rp.Prelude.{
  ℕ, ◌≡◌, refl, ◌↔◌, Bool, true, false, not, ◌&&◌, Option, none, some, List, [], ◌∷◌, if◌then◌else◌,
  arith,
}
use rp.Prelude.Text.{Eq, string_eq, ◌=?◌}
use rp.Prelude.Map.{Map, lookup, insert}
use rp.Prelude.Call.{Call, ok, err, panic, ◌>>=◌, ◌>>◌, fail_if}
use rp.Backend.{
  Backend, Certificate, ClientAuth, Addr, Mode, tcp, tls, tls_passthrough, quic, http, https, local,
  console, Error, unexpected_sni, backend_shutdown, unrecognized_name, bad_certificate,
  certificate_required, certificate_revoked, access_denied, err_access_denied, no_ip_address,
  no_addresses, dial_failed,
}
use rp.Backend.Access.{authorize, check_ip}

pub record BeKey : Type 0 where
  pub server_name : String
  pub proto : String

abbrev pub key : String → String → BeKey
key sn proto = record { server_name = sn; proto = proto }

abbrev pub key_beq : BeKey → BeKey → Bool
key_beq a b = a.server_name =? b.server_name && a.proto =? b.proto

pub key_beq_iff : (a b : BeKey) → (key_beq a b ≡ true) ↔ (a ≡ b)
key_beq_iff a b =
    ground (arith, string_eq.beq_iff a.server_name b.server_name, string_eq.beq_iff a.proto b.proto)

instance abbrev pub key_eq : Eq BeKey
key_eq = record { beq = key_beq; beq_iff = key_beq_iff }

abbrev pub Backends : Type 0
Backends = Map BeKey Backend

-- `backends[beKey{serverName: sn, proto: proto}] = be` for each protocol.
unfoldable pub register_protos : Backend → String → List String → Backends → Backends
register_protos be sn [] m = m
register_protos be sn (proto ∷ protos) m = register_protos be sn protos (insert (key sn proto) be m)

unfoldable pub register_default : Backend → String → Backends → Backends
register_default be sn m = elim (lookup (key sn "") m) [
  | none ↦ insert (key sn "") be m
  | some old ↦ m
]

unfoldable pub register_names : Backend → List String → Backends → Backends
unfolding register_protos register_default
register_names be [] m = m
register_names be (sn ∷ names) m =
    register_names be names (register_protos be sn be.alpn_protos (register_default be sn m))

unfoldable pub register : List Backend → Backends → Backends
unfolding register_names
register [] m = m
register (be ∷ rest) m = register rest (register_names be be.server_names m)

-- The loop over the protocols, and the backend of the name alone.
unfoldable pub find_backend : Backends → String → List String → Option Backend
find_backend m sn [] = lookup (key sn "") m
find_backend m sn (proto ∷ protos) =
    let rest = find_backend m sn protos in
    elim (lookup (key sn proto) m) [ none ↦ rest | some be ↦ some be ]

unfoldable pub backend : Backends → String → List String → Call Error Backend
unfolding find_backend
backend m sn protos = elim (find_backend m sn protos) [
  | none ↦ err unexpected_sni
  | some be ↦ if be.shutdown then err backend_shutdown else ok be
]

-- What `verifyConnection` reads of a `tls.ConnectionState`. `revoked` is the answer of the PKI
-- that issued the certificate or of OCSP.
pub record ConnectionState : Type 0 where
  pub server_name : String
  pub negotiated_protocol : String
  pub peer_certificates : List Certificate
  pub has_verified_chains : Bool
  pub is_tls12 : Bool

-- The PKI managers of a backend, by the authority's key id, with `IsRevoked`; and whether
-- `VerifyChains` of the OCSP cache fails.
pub record Revocation : Type 0 where
  pub pki_map : String → Option (ℕ → Bool)
  pub ocsp_fails : Bool

abbrev pub is_nil {ℓ} : {A : Type ℓ} → List A → Bool
is_nil [] = true
is_nil (x ∷ xs) = false

unfoldable pub is_revoked : Revocation → Certificate → Bool
is_revoked r cert = elim (r.pki_map cert.authority_key_id) [
  | none ↦ not (is_nil cert.ocsp_server) && r.ocsp_fails
  | some revoked ↦ revoked cert.serial_number
]

unfoldable pub verify_peer : Revocation → Backend → List Certificate → Bool → Call Error (Unit {0})
verify_peer r be [] tls12 = err (if tls12 then bad_certificate else certificate_required)
verify_peer r be (cert ∷ certs) tls12 = do
  fail_if (is_revoked r cert) certificate_revoked
  authorize be (some cert)

unfoldable pub verify_connection : Revocation → Backends → ConnectionState → Call Error (Unit {0})
verify_connection r m cs = elim (backend m cs.server_name (cs.negotiated_protocol ∷ [])) [
  | err e ↦ err unrecognized_name
  | panic ↦ panic
  | ok be ↦ elim be.client_auth [
    | none ↦ ok tt
    | some auth ↦
        verify_peer r be (if cs.has_verified_chains then cs.peer_certificates else []) cs.is_tls12
  ]
]

-- What `reAuthorize` reads of an open connection. A nil certificate or backend is `none`.
pub record Connection : Type 0 where
  pub server_name_is_set : Bool
  pub server_name : String
  pub proto : String
  pub remote_addr : Addr
  pub backend_of : Option Backend
  pub client_cert : Option Certificate

pub data Verdict : Type 0 where
  keep close : Verdict

pub Mode-discrete : Discrete Mode
Mode-discrete = hlevel

-- `conn.Close()` if the test returns an error.
abbrev pub close_on_error : Call Error (Unit {0}) → Call Error Verdict → Call Error Verdict
close_on_error (ok u) k = k
close_on_error (err e) k = ok close
close_on_error panic k = panic

abbrev pub same_mode : Mode → Mode → Bool
same_mode a b = elim (Mode-discrete a b) [ yes p ↦ true | no p ↦ false ]

unfoldable pub reauthorize_with : Backend → Backend → Connection → Call Error Verdict
reauthorize_with be old conn =
    if same_mode be.mode old.mode
    then close_on_error (check_ip be conn.remote_addr) (elim be.client_auth [
      | none ↦ ok keep
      | some auth ↦ close_on_error (authorize be conn.client_cert) (ok keep)
    ])
    else ok close

-- The body of the loop. Where no backend is found, `be` is nil and `be.logErrorF` panics.
unfoldable pub reauthorize : Backends → Connection → Call Error Verdict
reauthorize m conn =
    if conn.server_name_is_set
    then elim (backend m conn.server_name (conn.proto ∷ [])) [
      | err e ↦ panic
      | panic ↦ panic
      | ok be ↦ elim conn.backend_of [ none ↦ panic | some old ↦ reauthorize_with be old conn ]
    ]
    else ok keep
