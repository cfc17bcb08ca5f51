-- ===== src/Config/Check/Collected.antt =====
-- The names that `Check` collects are names of the configuration.
use Prim.Native.String.{String}
use rp.Prelude.{◌≡◌, ◌⊎◌, inl, inr, true, List, [], ◌∷◌, ◌++◌, map, Bool-cases, arith}
use rp.Prelude.Text.{string_eq, ◌=?◌, contains, IsIn, here, there}
use rp.Prelude.Call.{Call, ok, >>=-ok}
use rp.Config.{Env, Config}
use rp.Config.Providers.{check_all, check_oidc, check_saml, check_passkey}
use rp.Config.Names.{collect}
use rp.Config.Check.{Providers}
use rp.Config.Check.Run.{ProvidersRun}

-- One more name on the list that a loop has seen.
abbrev Known : List String → List String → String → Type 0
Known seen names x = (contains seen x ≡ true) ⊎ IsIn x names

from_head :
    (n : String) (seen names : List String) (x : String)
    → Known (n ∷ seen) names x
    → Known seen (n ∷ names) x
unfolding contains
from_head n seen names x (inl h) = elim (Bool-cases (n =? x)) [
  | inl e ↦ inr (here ((string_eq.beq_iff n x).0 e))
  | inr e ↦ inl (ground arith)
]
from_head n seen names x (inr i) = inr (there i)

pub collect-IsIn {ℓ} :
    {P : Type ℓ} (name : P → String) (check : List String → P → Call String (Unit {0}))
    (seen : List String) (ps : List P) (out : List String) (x : String)
    → collect name check seen ps ≡ ok out
    → contains out x ≡ true
    → (contains seen x ≡ true) ⊎ IsIn x (map name ps)
unfolding collect
collect-IsIn name check seen [] out x h k = inl (ground arith)
collect-IsIn name check seen (p ∷ ps) out x h k =
    let (u, first, rest) = >>=-ok (check seen p) _ h in
    from_head (name p) seen (map name ps) x
      (collect-IsIn name check (name p ∷ seen) ps out x rest k)

check_all-IsIn {ℓ} :
    {P : Type ℓ} (name : P → String) (check : List String → P → Call String P) (ids : List String)
    (ps : List P) (out : List String) (qs : List P) (x : String)
    → check_all name check ids ps ≡ ok (out, qs)
    → contains out x ≡ true
    → (contains ids x ≡ true) ⊎ IsIn x (map name ps)
unfolding check_all
check_all-IsIn name check ids [] out qs x h k = inl (ground arith)
check_all-IsIn name check ids (p ∷ ps) out qs x h k =
    let (q, first, h1) = >>=-ok (check ids p) _ h in
    let (r, rest, same) = >>=-ok (check_all name check (name p ∷ ids) ps) _ h1 in
    let e : r.0 ≡ out = ground arith in
    from_head (name p) ids (map name ps) x
      (check_all-IsIn name check (name p ∷ ids) ps r.0 r.1 x rest (rw e k))

abbrev pub provider_names : Config → List String
provider_names cfg =
    map (λ p. p.name) cfg.oidc_providers
    ++ (map (λ p. p.name) cfg.saml_providers ++ map (λ p. p.name) cfg.passkey_providers)

in_left {ℓ} : {A : Type ℓ} {a : A} {xs : List A} (ys : List A) → IsIn a xs → IsIn a (xs ++ ys)
in_left ys (here e) = here e
in_left ys (there i) = there (in_left ys i)

in_right {ℓ} : {A : Type ℓ} {a : A} {ys : List A} (xs : List A) → IsIn a ys → IsIn a (xs ++ ys)
in_right [] i = i
in_right (x ∷ xs) i = there (in_right xs i)

pub providers-IsIn :
    (env : Env) (cfg : Config) (p : Providers) (x : String)
    → ProvidersRun env cfg p
    → contains p.names x ≡ true
    → IsIn x (provider_names cfg)
unfolding contains
providers-IsIn env cfg p x run k =
    elim (check_all-IsIn (λ p. p.name) (check_passkey env) run.ids_saml cfg.passkey_providers
      p.names p.passkey x run.passkey k) [
        | inr i ↦
            in_right (map (λ p. p.name) cfg.oidc_providers)
              (in_right (map (λ p. p.name) cfg.saml_providers) i)
        | inl k1 ↦
            elim (check_all-IsIn (λ p. p.name) (check_saml env) run.ids_oidc cfg.saml_providers
              run.ids_saml p.saml x run.saml k1) [
                | inr i ↦ in_right (map (λ p. p.name) cfg.oidc_providers) (in_left _ i)
                | inl k2 ↦
                    elim (check_all-IsIn (λ p. p.name) (check_oidc env) [] cfg.oidc_providers
                      run.ids_oidc p.oidc x run.oidc k2) [
                        | inr i ↦ in_left _ i
                        | inl k3 ↦ absurd (ground arith)
                      ]
              ]
      ]
