-- ===== src/Routing/Table.antt =====
-- What the table of backends holds, told from the list of configured backends alone.
use Prim.Native.String.{String}
use rp.Prelude.{
  ◌≡◌, refl, ap, ◌∙◌, ◌≢◌, Bool, false, ◌&&◌, Option, none, some, List, [], ◌∷◌, if◌then◌else◌,
  arith,
}
use rp.Prelude.Text.{string_eq, ◌=?◌, contains, beq_refl}
use rp.Prelude.Map.{lookup, insert, lookup-insert}
use rp.Backend.{Backend}
use rp.Routing.{key, key_eq, Backends, register_protos, register_default, register_names, register}

-- The backend offers the protocol under the name.
abbrev pub offers : Backend → String → String → Bool
offers be sn proto = contains be.server_names sn && contains be.alpn_protos proto

-- The last backend in the list that offers it, and the first that has the name.
unfoldable pub last_offer : List Backend → String → String → Option Backend → Option Backend
last_offer [] sn proto found = found
last_offer (be ∷ rest) sn proto found =
    last_offer rest sn proto (if offers be sn proto then some be else found)

abbrev pub or_else {ℓ} : {A : Type ℓ} → Option A → Option A → Option A
or_else none o = o
or_else (some a) o = some a

unfoldable pub first_named : List Backend → String → Option Backend
first_named [] sn = none
first_named (be ∷ rest) sn = if contains be.server_names sn then some be else first_named rest sn

-- No backend lists the empty protocol, which the table uses for the name alone.
abbrev pub NoEmptyProto : List Backend → Type 0
NoEmptyProto [] = Unit {0}
NoEmptyProto (be ∷ rest) = (contains be.alpn_protos "" ≡ false) × NoEmptyProto rest

lookup-register_protos :
    (be : Backend) (sn : String) (protos : List String) (m : Backends) (n p : String)
    → lookup (key n p) (register_protos be sn protos m)
      ≡ (if sn =? n && contains protos p then some be else lookup (key n p) m)
unfolding register_protos contains
lookup-register_protos be sn [] m n p = ground arith
lookup-register_protos be sn (proto ∷ protos) m n p =
    lookup-register_protos be sn protos (insert (key sn proto) be m) n p
    ∙ rw (lookup-insert (key sn proto) (key n p) be m) (ground arith)

lookup-register_default_ne :
    (be : Backend) (sn : String) (m : Backends) (n p : String)
    → p ≢ ""
    → lookup (key n p) (register_default be sn m) ≡ lookup (key n p) m
unfolding register_default
lookup-register_default_ne be sn m n p h =
    ground (arith, lookup-insert (key sn "") (key n p) be m, string_eq.beq_iff "" p)

lookup-register_default :
    (be : Backend) (sn : String) (m : Backends) (n : String)
    → lookup (key n "") (register_default be sn m)
      ≡ or_else (lookup (key n "") m) (if sn =? n then some be else none)
unfolding register_default
lookup-register_default be sn m n = ground (
  arith,
  lookup-insert (key sn "") (key n "") be m,
  string_eq.beq_iff sn n,
  beq_refl {A = String} "",
)

lookup-register_names :
    (be : Backend) (names : List String) (m : Backends) (n p : String)
    → p ≢ ""
    → lookup (key n p) (register_names be names m)
      ≡ (if contains names n && contains be.alpn_protos p then some be else lookup (key n p) m)
unfolding register_names contains
lookup-register_names be [] m n p h = ground arith
lookup-register_names be (sn ∷ names) m n p h = ground (
  arith,
  lookup-register_names be names (register_protos be sn be.alpn_protos (register_default be sn m)) n
      p h,
  lookup-register_protos be sn be.alpn_protos (register_default be sn m) n p,
  lookup-register_default_ne be sn m n p h,
)

lookup-register_names_default :
    (be : Backend) (names : List String) (m : Backends) (n : String)
    → contains be.alpn_protos "" ≡ false
    → lookup (key n "") (register_names be names m)
      ≡ or_else (lookup (key n "") m) (if contains names n then some be else none)
unfolding register_names contains
lookup-register_names_default be [] m n h = ground arith
lookup-register_names_default be (sn ∷ names) m n h = ground (
  arith,
  lookup-register_names_default be names
      (register_protos be sn be.alpn_protos (register_default be sn m)) n h,
  lookup-register_protos be sn be.alpn_protos (register_default be sn m) n "",
  lookup-register_default be sn m n,
)

pub lookup-register :
    (bes : List Backend) (m : Backends) (n p : String)
    → p ≢ ""
    → lookup (key n p) (register bes m) ≡ last_offer bes n p (lookup (key n p) m)
unfolding register last_offer
lookup-register [] m n p h = refl
lookup-register (be ∷ rest) m n p h =
    lookup-register rest (register_names be be.server_names m) n p h
    ∙ ap (last_offer rest n p) (lookup-register_names be be.server_names m n p h)

pub lookup-register_default_all :
    (bes : List Backend) (m : Backends) (n : String)
    → NoEmptyProto bes
    → lookup (key n "") (register bes m) ≡ or_else (lookup (key n "") m) (first_named bes n)
unfolding register first_named
lookup-register_default_all [] m n h = ground arith
lookup-register_default_all (be ∷ rest) m n h = ground (
  arith,
  lookup-register_default_all rest (register_names be be.server_names m) n h.1,
  lookup-register_names_default be be.server_names m n h.0,
)
