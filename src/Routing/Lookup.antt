-- ===== src/Routing/Lookup.antt =====
-- `Proxy.backend` on the table that `reconfigure` builds, against the list of backends.
use Prim.Native.String.{String}
use rp.Prelude.{◌≡◌, ◌≢◌, Option, none, some, List, [], ◌∷◌, if◌then◌else◌, arith}
use rp.Prelude.Call.{Call, ok, err}
use rp.Prelude.Map.{lookup}
use rp.Backend.{Backend, Error, unexpected_sni, backend_shutdown}
use rp.Routing.{key, key_eq, register, find_backend, backend}
use rp.Routing.Table.{
  last_offer, first_named, or_else, NoEmptyProto, lookup-register, lookup-register_default_all,
}

-- The client's first protocol that some backend offers under the name decides, and the last
-- backend that offers it is chosen; if there is none, the first backend that has the name.
abbrev pub chosen : List Backend → String → List String → Option Backend
chosen bes sn [] = first_named bes sn
chosen bes sn (p ∷ protos) = or_else (last_offer bes sn p none) (chosen bes sn protos)

abbrev pub served : Option Backend → Call Error Backend
served none = err unexpected_sni
served (some be) = if be.shutdown then err backend_shutdown else ok be

-- The client names no empty protocol.
abbrev pub Proper : List String → Type 0
Proper [] = Unit {0}
Proper (p ∷ protos) = (p ≢ "") × Proper protos

find-chosen :
    (bes : List Backend) (sn : String) (protos : List String)
    → NoEmptyProto bes
    → Proper protos
    → find_backend (register bes []) sn protos ≡ chosen bes sn protos
unfolding find_backend
find-chosen bes sn [] h q = unfold lookup in lookup-register_default_all bes [] sn h
find-chosen bes sn (p ∷ protos) h q =
    let e : lookup (key sn p) (register bes []) ≡ last_offer bes sn p none =
      unfold lookup in lookup-register bes [] sn p q.0 in
    ground (arith, e, find-chosen bes sn protos h q.1)

-- For backends and a client that do not use the empty protocol: `Proxy.backend` returns the
-- backend that the list of backends gives for the name and the client's protocols, and an error
-- if there is none or it is shutting down.
pub backend-chosen :
    (bes : List Backend) (sn : String) (protos : List String)
    → NoEmptyProto bes
    → Proper protos
    → backend (register bes []) sn protos ≡ served (chosen bes sn protos)
unfolding backend
backend-chosen bes sn protos h q = ground (arith, find-chosen bes sn protos h q)
