-- ===== src/Connections/Chosen.antt =====
-- The backend that a connection is for, in the list of backends and in the table.
use Prim.Native.String.{String}
use rp.Prelude.{
  ◌≡◌, ◌≢◌, ap, ◌∙◌, ◌⊎◌, inl, inr, true, false, Option, none, some, List, [], ◌∷◌, Bool-cases,
  Option-cases, arith,
}
use rp.Prelude.Text.{string_eq, contains, IsIn, here, there}
use rp.Prelude.Map.{lookup}
use rp.Prelude.Call.{ok}
use rp.Backend.{Backend}
use rp.Routing.{key, key_eq, register, find_backend, backend}
use rp.Routing.Table.{offers, last_offer, first_named, lookup-register}
use rp.Routing.Lookup.{chosen, served}
use rp.Config.Check.Distinct.{Distinct, last_offer-only}

last_offer-from :
    (bes : List Backend) (sn p : String) (found : Option Backend) (be : Backend)
    → last_offer bes sn p found ≡ some be
    → (found ≡ some be) ⊎ (IsIn be bes × (offers be sn p ≡ true))
unfolding last_offer
last_offer-from [] sn p found be h = inl h
last_offer-from (x ∷ bes) sn p found be h = elim (Bool-cases (offers x sn p)) [
  | inl e ↦ elim (last_offer-from bes sn p (some x) be (ground arith)) [
    | inl f ↦ let same : x ≡ be = cc in inr (here same, rw (← same) e)
    | inr (i, o) ↦ inr (there i, o)
  ]
  | inr e ↦ elim (last_offer-from bes sn p found be (ground arith)) [
    | inl f ↦ inl f
    | inr (i, o) ↦ inr (there i, o)
  ]
]

first_named-from :
    (bes : List Backend) (sn : String) (be : Backend)
    → first_named bes sn ≡ some be
    → IsIn be bes × (contains be.server_names sn ≡ true)
unfolding first_named
first_named-from [] sn be h = absurd (cc)
first_named-from (x ∷ bes) sn be h = elim (Bool-cases (contains x.server_names sn)) [
  | inl e ↦ let same : x ≡ be = ground arith in (here same, rw (← same) e)
  | inr e ↦ let (i, o) = first_named-from bes sn be (ground arith) in (there i, o)
]

pub chosen-from :
    (bes : List Backend) (sn : String) (protos : List String) (be : Backend)
    → chosen bes sn protos ≡ some be
    → IsIn be bes × (contains be.server_names sn ≡ true)
chosen-from bes sn [] be h = first_named-from bes sn be h
chosen-from bes sn (p ∷ protos) be h = elim (Option-cases (last_offer bes sn p none)) [
  | inl e ↦ chosen-from bes sn protos be (ground arith)
  | inr (x, e) ↦
      let same : x ≡ be = ground arith in
      elim (last_offer-from bes sn p none be (e ∙ ap some same)) [
        | inl f ↦ absurd (cc)
        | inr (i, o) ↦ (i, ground arith)
      ]
]

pub served-ok :
    (o : Option Backend) (be : Backend) → served o ≡ ok be → (o ≡ some be) × (be.shutdown ≡ false)
served-ok none be h = absurd (cc)
served-ok (some x) be h = elim (Bool-cases x.shutdown) [
  | inl e ↦ absurd (ground arith)
  | inr e ↦ let same : x ≡ be = ground arith in (ap some same, rw (← same) e)
]

-- The table gives the backend back under each protocol that it offers.
pub find_again :
    (bes : List Backend) (sn p : String) (be : Backend)
    → Distinct bes
    → p ≢ ""
    → IsIn be bes
    → offers be sn p ≡ true
    → be.shutdown ≡ false
    → backend (register bes []) sn (p ∷ []) ≡ ok be
unfolding backend find_backend
find_again bes sn p be d q i o s =
    let found : lookup (key sn p) (register bes []) ≡ some be =
      lookup-register bes [] sn p q ∙ last_offer-only be sn p d o i (lookup (key sn p) []) in
    ground (arith, found)
