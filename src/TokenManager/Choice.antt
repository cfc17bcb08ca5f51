-- ===== src/TokenManager/Choice.antt =====
-- Which key signs a token.
use rp.Prelude.{
  ℕ, ◌+◌, ◌*◌, ◌≡◌, refl, ◌&&◌, Option, none, some, List, [], ◌∷◌, ltb, if◌then◌else◌, arith, ◌↔◌,
  Option-cases, inl, inr,
}
use Prim.Native.String.{String}
use rp.Prelude.Call.{panic}
use rp.TokenManager.{
  TokenManager, Jwt, create_token, default_alg, KeyKind, TokenKey, fits, choose, hour,
}

-- The first key of the kind, and the last one that is more than two hours old.
unfoldable pub first_fitting : Option KeyKind → List TokenKey → Option TokenKey
first_fitting kind [] = none
first_fitting kind (k ∷ ks) = if fits kind k then some k else first_fitting kind ks

unfoldable pub last_aged : Option KeyKind → ℕ → List TokenKey → Option TokenKey
last_aged kind now [] = none
last_aged kind now (k ∷ ks) =
    let rest = last_aged kind now ks in
    elim rest [
      | some j ↦ some j
      | none ↦ if fits kind k && ltb (k.stored.creation_time + 2 * hour) now then some k else none
    ]

abbrev pub or_else {ℓ} : {A : Type ℓ} → Option A → Option A → Option A
or_else (some a) b = some a
or_else none b = b

choose-some :
    (kind : Option KeyKind) (now : ℕ) (ks : List TokenKey) (k : TokenKey)
    → choose kind now ks (some k) ≡ or_else (last_aged kind now ks) (some k)
unfolding choose last_aged
choose-some kind now [] k = refl
choose-some kind now (j ∷ ks) k =
    ground (arith, choose-some kind now ks k, choose-some kind now ks j)

-- The loop over the keys chooses the last key of the wanted kind that is more than two hours old,
-- or, where none of them is, the first key of this kind; and no key exactly where there is none of
-- the kind.
pub choose-last_aged :
    (kind : Option KeyKind) (now : ℕ) (ks : List TokenKey)
    → choose kind now ks none ≡ or_else (last_aged kind now ks) (first_fitting kind ks)
unfolding choose last_aged first_fitting
choose-last_aged kind now [] = refl
choose-last_aged kind now (k ∷ ks) =
    ground (arith, choose-last_aged kind now ks, choose-some kind now ks k)

none_aged :
    (kind : Option KeyKind) (now : ℕ) (ks : List TokenKey)
    → first_fitting kind ks ≡ none
    → last_aged kind now ks ≡ none
unfolding first_fitting last_aged
none_aged kind now [] h = refl
none_aged kind now (k ∷ ks) h = ground (arith, none_aged kind now ks)

-- `CreateToken` panics exactly when the algorithm, or the default one, has a known signing method
-- and the manager has no key of the kind that this method wants.
pub create_token_panics_iff :
    (jwt : Jwt) (now : ℕ) (claims alg : String) (tm : TokenManager)
    → (create_token jwt now claims alg tm ≡ panic) ↔ (
        (kind : Option KeyKind) × (jwt.method (default_alg tm.has_tpm alg) ≡ some kind)
        × (first_fitting kind tm.keys ≡ none))
create_token_panics_iff jwt now claims alg tm = (
  lacking,
  λ (kind, e, f).
      let c = choose-last_aged kind now tm.keys in
      let l = none_aged kind now tm.keys f in unfold create_token in ground arith,
)
  where
    lacking :
        create_token jwt now claims alg tm ≡ panic
        → (kind : Option KeyKind) × (jwt.method (default_alg tm.has_tpm alg) ≡ some kind)
          × (first_fitting kind tm.keys ≡ none)
    lacking h = elim (Option-cases (jwt.method (default_alg tm.has_tpm alg))) [
      | inl e ↦ absurd (unfold create_token in ground arith)
      | inr (kind, e) ↦ elim (Option-cases (choose kind now tm.keys none)) [
        | inl p ↦ (kind, e, ground (arith, choose-last_aged kind now tm.keys))
        | inr (k, p) ↦
            absurd (elim (Option-cases (jwt.sign k.priv_key (default_alg tm.has_tpm alg) claims)) [
              | inl q ↦ (unfold create_token in ground arith)
              | inr (s, q) ↦ (unfold create_token in ground arith)
            ])
      ]
    ]
