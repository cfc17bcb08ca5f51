-- ===== src/Routing/Reload.antt =====
-- `reAuthorize`: which open connections outlive a change of the configuration.
use rp.Prelude.{◌≡◌, refl, ◌≢◌, ◌↔◌, ◌⊎◌, inl, inr, true, false, none, some, List, [], ◌∷◌, arith}
use rp.Prelude.Call.{Call, ok, err, panic}
use rp.Backend.{Backend, Error, Mode}
use rp.Backend.Access.{authorize, check_ip}
use rp.Routing.{
  Backends, backend, register, Connection, keep, same_mode, Mode-discrete, reauthorize_with,
  reauthorize,
}
use rp.Routing.Lookup.{chosen, backend-chosen}
use rp.Routing.Table.{NoEmptyProto}

-- The connection meets what its backend asks for.
abbrev pub Fits : Backend → Backend → Connection → Type 0
Fits be old conn =
    (be.mode ≡ old.mode)
    × (check_ip be conn.remote_addr ≡ ok tt)
    × ((be.client_auth ≡ none) ⊎ (authorize be conn.client_cert ≡ ok tt))

same_mode-eq : (a b : Mode) → same_mode a b ≡ true → a ≡ b
same_mode-eq a b h = decided (Mode-discrete a b) h
  where
    decided : (d : Dec (a ≡ b)) → (elim d [ yes p ↦ true | no p ↦ false ]) ≡ true → a ≡ b
    decided (yes p) e = p
    decided (no p) e = cc

kept-Fits :
    (be old : Backend) (conn : Connection)
    → reauthorize_with be old conn ≡ ok keep
    → Fits be old conn
unfolding reauthorize_with
kept-Fits be old conn h = ground (arith, same_mode-eq be.mode old.mode)

Fits-kept :
    (be old : Backend) (conn : Connection)
    → Fits be old conn
    → reauthorize_with be old conn ≡ ok keep
unfolding reauthorize_with
Fits-kept be old conn (m, ip, inl n) = ground arith
Fits-kept be old conn (m, ip, inr a) = ground arith

module _ (m : Backends) (conn : Connection) (named : conn.server_name_is_set ≡ true) where
  -- A connection that has its server name and backend is kept exactly when the name and protocol
  -- have a backend in the new configuration, of the same mode, that accepts the client's address
  -- and, if it wants to know its clients, its certificate. (Not kept is closed, or the program
  -- ends in a panic.)
  pub reauthorize_iff :
      (old : Backend)
      → conn.backend_of ≡ some old
      → (reauthorize m conn ≡ ok keep) ↔ (
          (be : Backend) × (backend m conn.server_name (conn.proto ∷ []) ≡ ok be)
          × Fits be old conn)
  reauthorize_iff old e = (
    λ h. kept (backend m conn.server_name (conn.proto ∷ [])) refl h,
    λ (be, f, fits). unfold reauthorize in ground (arith, Fits-kept be old conn fits),
  )
    where
      kept :
          (c : Call Error Backend)
          → backend m conn.server_name (conn.proto ∷ []) ≡ c
          → reauthorize m conn ≡ ok keep
          → (be : Backend) × (c ≡ ok be) × Fits be old conn
      kept (ok be) f h = (be, refl, kept-Fits be old conn (unfold reauthorize in ground arith))
      kept (err x) f h = absurd (unfold reauthorize in ground arith)
      kept panic f h = absurd (unfold reauthorize in ground arith)

-- When the new configuration, which does not use the empty protocol, has no backend for the server
-- name and protocol of an open connection, the check of that connection panics.
pub reauthorize_gone :
    (bes : List Backend) (conn : Connection)
    → conn.server_name_is_set ≡ true
    → NoEmptyProto bes
    → conn.proto ≢ ""
    → chosen bes conn.server_name (conn.proto ∷ []) ≡ none
    → reauthorize (register bes []) conn ≡ panic
unfolding reauthorize
reauthorize_gone bes conn named no_empty proper gone =
    ground (arith, backend-chosen bes conn.server_name (conn.proto ∷ []) no_empty (proper, tt))
