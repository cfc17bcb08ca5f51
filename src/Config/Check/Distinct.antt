-- ===== src/Config/Check/Distinct.antt =====
-- What the loop of `Check` over the server names rules out: that two backends offer the same
-- protocol under the same name.
use Prim.Native.String.{String}
use rp.Prelude.{
  ◌≡◌, refl, ap, ◌∙◌, inl, inr, Bool, true, false, ◌&&◌, ◌||◌, Option, some, List, [], ◌∷◌,
  if◌then◌else◌, Bool-cases, arith,
}
use rp.Prelude.Text.{string_eq, ◌=?◌, contains, IsIn, here, there}
use rp.Prelude.Map.{lookup}
use rp.Prelude.Call.{ok, >>=-ok, fail_if-ok}
use rp.Backend.{Mode, Backend}
use rp.Routing.{BeKey, key, key_eq, is_nil}
use rp.Routing.Table.{offers, last_offer}
use rp.Config.Names.{Prepared, NameTable, named, add_protos, add_name, add_names, add_backends}

-- `f` tells which keys are added to `old`, none of which it has, to make `new`.
abbrev pub Grows : List BeKey → (String → String → Bool) → List BeKey → Type 0
Grows old f new =
    (n p : String)
    → (contains new (key n p) ≡ (contains old (key n p) || f n p))
      × ((contains old (key n p) && f n p) ≡ false)

add_protos-Grows :
    (sn : String) (protos : List String) (keys new : List BeKey)
    → add_protos sn protos keys ≡ ok new
    → Grows keys (λ n p. sn =? n && contains protos p) new
unfolding add_protos contains
add_protos-Grows sn [] keys new h n p = ground arith
add_protos-Grows sn (proto ∷ protos) keys new h n p =
    elim (Bool-cases (contains keys (key sn proto))) [
      | inl e ↦ absurd (ground arith)
      | inr e ↦
          let ih = add_protos-Grows sn protos (key sn proto ∷ keys) new (ground arith) n p in
          ground (arith, ih.0, ih.1, string_eq.beq_iff sn n, string_eq.beq_iff proto p)
    ]

add_name-Grows :
    (mode : Mode) (protos : List String) (sn : String) (t new : NameTable)
    → add_name mode protos sn t ≡ ok new
    → Grows t.keys (λ n p. sn =? n && contains protos p) new.keys
unfolding add_name
add_name-Grows mode protos sn t new h n p =
    let taken = named (lookup sn t.names) && is_nil protos in
    let (fresh, added) = fail_if-ok taken "backend.ServerNames: duplicate server name" _ h in
    let (keys, e, same) = >>=-ok (add_protos sn protos t.keys) _ added in
    let (grown, new_ones) = add_protos-Grows sn protos t.keys keys e n p in
    ground (arith, grown, new_ones)

add_names-Grows :
    (mode : Mode) (protos sns : List String) (t new : NameTable)
    → add_names mode protos sns t ≡ ok new
    → Grows t.keys (λ n p. contains sns n && contains protos p) new.keys
unfolding add_names contains
add_names-Grows mode protos [] t new h n p = ground arith
add_names-Grows mode protos (sn ∷ sns) t new h n p =
    let (mid, first, rest) = >>=-ok (add_name mode protos sn t) (add_names mode protos sns) h in
    let a = add_name-Grows mode protos sn t mid first n p in
    let b = add_names-Grows mode protos sns mid new rest n p in ground (arith, a.0, a.1, b.0, b.1)

abbrev pub takes : Prepared → String → String → Bool
takes be n p = contains be.server_names n && contains be.alpn_protos p

unfoldable pub any_takes : List Prepared → String → String → Bool
any_takes [] n p = false
any_takes (be ∷ bes) n p = takes be n p || any_takes bes n p

abbrev pub Apart : List Prepared → Type 0
Apart [] = Unit
Apart (be ∷ bes) = ((n p : String) → (takes be n p && any_takes bes n p) ≡ false) × Apart bes

pub add_backends-Grows :
    (bes : List Prepared) (t new : NameTable)
    → add_backends bes t ≡ ok new
    → Grows t.keys (any_takes bes) new.keys × Apart bes
unfolding add_backends any_takes
add_backends-Grows [] t new h = (λ n p. ground arith, tt)
add_backends-Grows (be ∷ bes) t new h =
    let (mid, first, rest) =
      >>=-ok (add_names be.mode be.alpn_protos be.server_names t) (add_backends bes) h in
    let a = add_names-Grows be.mode be.alpn_protos be.server_names t mid first in
    let (b, apart) = add_backends-Grows bes mid new rest in
    (
      λ n p. ground (arith, (a n p).0, (a n p).1, (b n p).0, (b n p).1),
      (λ n p. ground (arith, (a n p).0, (a n p).1, (b n p).0, (b n p).1), apart),
    )

-- No protocol is offered by two backends under the same name.
unfoldable pub any_offers : List Backend → String → String → Bool
any_offers [] n p = false
any_offers (be ∷ bes) n p = offers be n p || any_offers bes n p

abbrev pub Distinct : List Backend → Type 0
Distinct [] = Unit
Distinct (be ∷ bes) =
    ((n p : String) → (offers be n p && any_offers bes n p) ≡ false) × Distinct bes

last_offer-none :
    (bes : List Backend) (n p : String) (found : Option Backend)
    → any_offers bes n p ≡ false
    → last_offer bes n p found ≡ found
unfolding any_offers last_offer
last_offer-none [] n p found h = refl
last_offer-none (be ∷ bes) n p found h = ground (arith, last_offer-none bes n p found)

any_offers-IsIn :
    (be : Backend) (n p : String) {bes : List Backend}
    → offers be n p ≡ true
    → IsIn be bes
    → any_offers bes n p ≡ true
unfolding any_offers
any_offers-IsIn be n p o (here {x} {xs} e) = rw e (ground arith)
any_offers-IsIn be n p o (there {x} {xs = ys} i) = ground (arith, any_offers-IsIn be n p o i)

-- The only backend that offers a protocol is the one that is found.
pub last_offer-only :
    (be : Backend) (n p : String) {bes : List Backend}
    → Distinct bes
    → offers be n p ≡ true
    → IsIn be bes
    → (found : Option Backend) → last_offer bes n p found ≡ some be
unfolding last_offer
last_offer-only be n p d o (here {x} {xs} e) found =
    let own : offers x n p ≡ true = ap (λ b. offers b n p) e ∙ o in
    let alone : any_offers xs n p ≡ false = ground (arith, d.0 n p) in
    last_offer-none xs n p (if offers x n p then some x else found) alone ∙ rw own (ap some e)
last_offer-only be n p d o (there {x} {xs = ys} i) found =
    last_offer-only be n p d.1 o i (if offers x n p then some x else found)
