-- ===== src/Routing/Admission.antt =====
-- Which clients a backend lets in, at the handshake and after the configuration has changed.
use Prim.Native.String.{String}
use rp.Prelude.{
  ◌≡◌, refl, ◌↔◌, ◌⊎◌, inl, inr, Bool, false, Option, none, some, List, [], ◌∷◌, if◌then◌else◌,
  Option-cases, arith,
}
use rp.Prelude.Call.{Call, ok, err, panic}
use rp.Backend.{Backend, Certificate, ClientAuth, Error}
use rp.Backend.Access.{authorize, acl_of, Shared, identities, authorize_iff}
use rp.Routing.{
  Backends, backend, Revocation, is_revoked, verify_peer, verify_connection, ConnectionState,
}

-- The access list of the backend, if there is one, holds an identity of the certificate.
abbrev pub Listed : Backend → Certificate → Type 0
Listed be cert = (acl : List String) → acl_of be ≡ some acl → Shared acl (identities cert)

authorize-Listed :
    (be : Backend) (cert : Certificate) → authorize be (some cert) ≡ ok tt → Listed be cert
authorize-Listed be cert h = λ acl e. (authorize_iff be acl cert e).0 h

authorize-none :
    (be : Backend) (cert : Option Certificate) → acl_of be ≡ none → authorize be cert ≡ ok tt
unfolding authorize
authorize-none be cert e = ground arith

Listed-authorize :
    (be : Backend) (cert : Certificate) → Listed be cert → authorize be (some cert) ≡ ok tt
Listed-authorize be cert l = elim (Option-cases (acl_of be)) [
  | inl e ↦ authorize-none be (some cert) e
  | inr (acl, e) ↦ (authorize_iff be acl cert e).1 (l acl e)
]

-- What a backend wants of a client: if it wants to know its clients, then a first certificate
-- with a verified chain that is not revoked, and an identity of it in the access list, if there is
-- one.
abbrev pub Peer : Revocation → Backend → List Certificate → Type 0
Peer r be certs =
    (cert : Certificate) × (rest : List Certificate) × (certs ≡ cert ∷ rest)
    × (is_revoked r cert ≡ false)
    × Listed be cert

module _ (r : Revocation) (be : Backend) (tls12 : Bool) where
  verified-Peer :
      (certs : List Certificate) → verify_peer r be certs tls12 ≡ ok tt → Peer r be certs
  unfolding verify_peer
  verified-Peer [] h = cc
  verified-Peer (cert ∷ rest) h =
      (cert, rest, refl, ground arith, authorize-Listed be cert (ground arith))

  Peer-verified :
      (certs : List Certificate) → Peer r be certs → verify_peer r be certs tls12 ≡ ok tt
  unfolding verify_peer
  Peer-verified [] (cert, rest, e, live, listed) = cc
  Peer-verified (c ∷ cs) (cert, rest, e, live, listed) =
      let head : c ≡ cert = cc in rw head (ground (arith, Listed-authorize be cert listed))

abbrev pub shown : ConnectionState → List Certificate
shown cs = if cs.has_verified_chains then cs.peer_certificates else []

abbrev pub Welcome : Revocation → Backend → ConnectionState → Type 0
Welcome r be cs = (be.client_auth ≡ none) ⊎ Peer r be (shown cs)

module _ (r : Revocation) (m : Backends) (cs : ConnectionState) where
  abbrev found_by : Call Error Backend
  found_by = backend m cs.server_name (cs.negotiated_protocol ∷ [])

  connection-Welcome :
      verify_connection r m cs ≡ ok tt → (be : Backend) × (found_by ≡ ok be) × Welcome r be cs
  connection-Welcome h = welcome found_by refl
    where
      at :
          (be : Backend)
          → found_by ≡ ok be
          → (o : Option ClientAuth) → be.client_auth ≡ o
          → Welcome r be cs
      at be e none n = inl n
      at be e (some auth) n =
          inr (verified-Peer r be cs.is_tls12 (shown cs) (unfold verify_connection in ground arith))

      welcome :
          (c : Call Error Backend) → found_by ≡ c → (be : Backend) × (c ≡ ok be) × Welcome r be cs
      welcome (ok be) e = (be, refl, at be e be.client_auth refl)
      welcome (err x) e = absurd (unfold verify_connection in ground arith)
      welcome panic e = absurd (unfold verify_connection in ground arith)

  Welcome-connection :
      (be : Backend) → found_by ≡ ok be → Welcome r be cs → verify_connection r m cs ≡ ok tt
  unfolding verify_connection
  Welcome-connection be e (inl n) = ground arith
  Welcome-connection be e (inr p) = ground (arith, Peer-verified r be cs.is_tls12 (shown cs) p)

  -- The handshake of a connection is accepted exactly when its server name and protocol have a
  -- backend, and either that does not want to know its clients, or the client has shown a first
  -- certificate with a verified chain that is not revoked and, if there is an access list, has an
  -- identity on it.
  pub verify_connection_iff : (verify_connection r m cs ≡ ok tt) ↔ (
      (be : Backend) × (backend m cs.server_name (cs.negotiated_protocol ∷ []) ≡ ok be)
      × Welcome r be cs)
  verify_connection_iff = (connection-Welcome, λ (be, e, w). Welcome-connection be e w)
