-- ===== src/Connections/Admitted.antt =====
-- Which connections reach a backend.
use Prim.Native.String.{String}
use rp.Prelude.{
  ◌≡◌, ◌≢◌, refl, sym, ap, ◌∙◌, inl, inr, true, false, some, List, [], ◌∷◌, Bool-cases,
  Option-cases, arith,
}
use rp.Prelude.Text.{string_eq, contains, IsIn}
use rp.Prelude.Words.{is_empty}
use rp.Prelude.Call.{ok, ok-injective}
use rp.Backend.{Backend}
use rp.Routing.{key_eq, register, backend, ConnectionState, verify_connection}
use rp.Routing.Table.{offers, NoEmptyProto}
use rp.Routing.Lookup.{chosen, Proper, backend-chosen}
use rp.Routing.Admission.{Welcome, verify_connection_iff}
use rp.Config.Check.Distinct.{Distinct}
use rp.Connections.{Hello, Incoming, Proxy, Reached, name_of, mismatched, handle_connection}
use rp.Connections.Chosen.{chosen-from, served-ok, find_again}
use rp.Connections.Steps.{Through, Got, handle_connection-Got}

-- A client that names a server, and with whom crypto/tls agrees on one of the protocols of the
-- backend.
abbrev pub Agreed : Incoming → Type 0
Agreed c =
    (be : Backend) (cs : ConnectionState)
    → c.negotiate be ≡ some cs
    → (cs.server_name ≢ "")
      × (cs.negotiated_protocol ≢ "")
      × (contains be.alpn_protos cs.negotiated_protocol ≡ true)

same_name-eq :
    (p : Proxy) (sn : String) (cs : ConnectionState)
    → cs.server_name ≢ ""
    → mismatched p sn cs ≡ false
    → cs.server_name ≡ sn
same_name-eq p sn cs n h = elim (Bool-cases (is_empty cs.server_name)) [
  | inl e ↦ absurd (n (empty-eq cs.server_name e))
  | inr e ↦ (string_eq.beq_iff cs.server_name sn).0 (ground arith)
]
  where
    empty-eq : (s : String) → is_empty s ≡ true → s ≡ ""
    empty-eq String.[] h = refl
    empty-eq (String.◌∷◌ c s) h = absurd (cc)

module _ (p : Proxy) (c : Incoming) (bes : List Backend) (table : p.backends ≡ register bes [])
    (distinct : Distinct bes) (proper : NoEmptyProto bes) (agreed : Agreed c) where
  Got-listed :
      (be : Backend) (g : Got p c be)
      → Proper g.hello.alpn_protos
      → IsIn be bes × (contains be.server_names (name_of p g.hello) ≡ true) × (be.shutdown ≡ false)
  Got-listed be g q =
      let sn = name_of p g.hello in
      let at : backend (register bes []) sn g.hello.alpn_protos ≡ ok be =
        ap (λ m. backend m sn g.hello.alpn_protos) (sym table) ∙ g.found in
      let (o, open_now) =
        served-ok (chosen bes sn g.hello.alpn_protos) be
          (sym (backend-chosen bes sn g.hello.alpn_protos proper q) ∙ at) in
      let (i, named) = chosen-from bes sn g.hello.alpn_protos be o in (i, named, open_now)

  -- `verifyConnection` looks the same backend up.
  Got-found :
      (be : Backend) (g : Got p c be)
      → Proper g.hello.alpn_protos
      → backend p.backends g.authorized.cs.server_name (g.authorized.cs.negotiated_protocol ∷ [])
        ≡ ok be
  Got-found be g q =
      let cs = g.authorized.cs in
      let sn = name_of p g.hello in
      let (named, protocol, offered) = agreed be cs g.authorized.negotiated in
      let same = same_name-eq p sn cs named g.authorized.same_name in
      let (i, listed, open_now) = Got-listed be g q in
      let o : offers be sn cs.negotiated_protocol ≡ true = ground arith in
      ap (λ m. backend m cs.server_name (cs.negotiated_protocol ∷ [])) table
      ∙ (ap (λ n. backend (register bes []) n (cs.negotiated_protocol ∷ [])) same
          ∙ find_again bes sn cs.negotiated_protocol be distinct protocol i o open_now)

  Got-Welcome :
      (be : Backend) (g : Got p c be)
      → Proper g.hello.alpn_protos
      → Welcome p.revocation be g.authorized.cs
  Got-Welcome be g q = elim (Option-cases be.client_auth) [
    | inl e ↦ inl e
    | inr (auth, e) ↦
        let cs = g.authorized.cs in
        let checked = g.authorized.checked in
        let accepted : verify_connection p.revocation p.backends cs ≡ ok tt = ground arith in
        let (x, found, welcome) = (verify_connection_iff p.revocation p.backends cs).0 accepted in
        let same : x ≡ be = ok-injective (sym found ∙ Got-found be g q) in
        welcome-same x be cs same welcome
  ]
    where
      welcome-same :
          (x be : Backend) (cs : ConnectionState)
          → x ≡ be
          → Welcome p.revocation x cs
          → Welcome p.revocation be cs
      welcome-same x be cs e w = rw (← e) w

  -- For a table that is built of backends no two of which offer a protocol under the same name and
  -- none of which offers the empty one, and for a client that offers no empty protocol, names a
  -- server and agrees on one of the backend's protocols: a connection that gets through to a backend
  -- after a TLS handshake was let in by this backend's own rules. There was room for it, its name and
  -- protocols chose the backend, the backend's networks admit its address, and if the backend wants
  -- to know its clients, the client has shown a verified certificate that is not revoked and is on the
  -- access list, if there is one.
  pub handle_connection-Welcome :
      (r : Reached) (be : Backend)
      → handle_connection p c ≡ ok r
      → Through r be
      → ((h : Hello) → c.hello ≡ some h → Proper h.alpn_protos)
      → (g : Got p c be) × IsIn be bes × Welcome p.revocation be g.authorized.cs
  handle_connection-Welcome r be h t q =
      let g = handle_connection-Got p c r be h t in
      (g, (Got-listed be g (q g.hello g.said)).0, Got-Welcome be g (q g.hello g.said))
