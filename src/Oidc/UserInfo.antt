-- ===== src/Oidc/UserInfo.antt =====
-- What the userinfo endpoint tells, and to whom.
use Prim.Native.String.{String}
use rp.Prelude.{
  ℕ, ◌+◌, ◌≤◌, ◌≡◌, refl, not, none, some, List, [], ◌∷◌, ltb, if◌then◌else◌, Option-cases,
  Bool-cases, inl, inr, arith,
}
use rp.Prelude.Text.{string_eq, beq_refl}
use rp.Prelude.Map.{
  insert-Unique, delete-Unique, retain-Unique, lookup, Unique, kept, lookup-retain, lookup-delete,
}
use rp.Oidc.Scopes.{Claims, hidden_claim, without_hidden, strip_bearer}
use rp.Oidc.Granting.{authorization_cases}
use rp.Oidc.Exchange.{served}
use rp.Oidc.{
  ServerOptions, new_server, Request, authorization, token_exchange, user_info, serve, serve_token,
  grant, access_data, token_claims, ProviderServer, AccessData, user_claims, vacuum, lifetime,
  InfoRequest, info_response, serve_user_info,
}

lookup-without_hidden :
    (k : String) (c : Claims)
    → lookup k (without_hidden c) ≡ (if hidden_claim k then none else lookup k c)
unfolding lookup without_hidden
lookup-without_hidden k [] = ground arith
lookup-without_hidden k ((j, v) ∷ c) = elim (Bool-cases (string_eq.beq j k)) [
  | inl p ↦
      let same = (string_eq.beq_iff j k).0 p in
      let hides : hidden_claim j ≡ hidden_claim k = rw same refl in
      ground (arith, lookup-without_hidden k c)
  | inr p ↦ ground (arith, lookup-without_hidden k c)
]

-- The token was held and young, and the claims are those granted with it, less the hidden ones.
abbrev pub Told : ℕ → ProviderServer → String → Claims → Type 0
Told now s access c =
    (v : AccessData) × (lookup access s.access_tokens ≡ some v)
    × (now ≤ v.created + lifetime)
    × ((k : String) → lookup k c ≡ (if hidden_claim k then none else lookup k v.claims))

lookup-vacuumed :
    (now : ℕ) (access : String) (s : ProviderServer)
    → Unique s.access_tokens
    → lookup access (vacuum now s).access_tokens
      ≡ kept (λ v. not (ltb (v.created + lifetime) now)) (lookup access s.access_tokens)
unfolding vacuum
lookup-vacuumed now access s u = lookup-retain _ access s.access_tokens u

response-Told :
    (now : ℕ) (access : String) (c : Claims) (s : ProviderServer)
    → Unique s.access_tokens
    → info_response (lookup access (vacuum now s).access_tokens) ≡ user_claims c
    → Told now s access c
unfolding info_response
response-Told now access c s u h = elim (Option-cases (lookup access s.access_tokens)) [
  | inl e ↦ absurd (ground (arith, lookup-vacuumed now access s u))
  | inr (v, e) ↦
      let l = lookup-vacuumed now access s u in
      let same : without_hidden v.claims ≡ c = ground arith in
      (v, e, ground arith, λ k. rw (← same) (lookup-without_hidden k v.claims))
]

vacuum-Unique_access :
    (now : ℕ) (s : ProviderServer) → Unique s.access_tokens → Unique (vacuum now s).access_tokens
unfolding vacuum
vacuum-Unique_access now s u =
    retain-Unique (λ v. not (ltb (v.created + lifetime) now)) s.access_tokens u

serve-Unique_access :
    (r : Request) (s : ProviderServer) → Unique s.access_tokens → Unique (serve r s).0.access_tokens
unfolding serve
serve-Unique_access (authorization env req) s u = elim (authorization_cases env req s) [
  | inl (n, e) ↦ rw e (vacuum-Unique_access env.vacuum_time s u)
  | inr (g, e) ↦ rw e (
      unfold grant in
      insert-Unique g.access (access_data env req (token_claims s.opts env req g.user))
        (vacuum env.vacuum_time s).access_tokens (vacuum-Unique_access env.vacuum_time s u))
]
serve-Unique_access (token_exchange now req) s u =
    let v = vacuum-Unique_access now s u in unfold serve_token in ground arith
serve-Unique_access (user_info now req) s u =
    let v = vacuum-Unique_access now s u in
    unfold serve_user_info in
    elim (Option-cases (strip_bearer req.authorization)) [
      | inl e ↦ ground arith
      | inr (access, e) ↦ ground (arith, delete-Unique access (vacuum now s).access_tokens v)
    ]

served-Unique_access :
    (rs : List Request) (s : ProviderServer)
    → Unique s.access_tokens
    → Unique (served rs s).access_tokens
unfolding served
served-Unique_access [] s u = u
served-Unique_access (r ∷ rs) s u =
    served-Unique_access rs (serve r s).0 (serve-Unique_access r s u)

-- After any requests to a new server: if the userinfo endpoint answers with claims, then the request
-- carried, as a bearer token, an access token that was held and was at most two minutes old; the
-- claims are those that were granted with it, less `iss`, `aud`, `iat`, `exp`, `nbf`, `scope`, `sid`
-- and `nonce`; and the access token is not held any more.
pub user_info-once :
    (opts : ServerOptions) (rs : List Request) (now : ℕ) (req : InfoRequest) (c : Claims)
    → (serve_user_info now req (served rs (new_server opts))).1 ≡ user_claims c
    → (access : String) × (strip_bearer req.authorization ≡ some access)
      × Told now (served rs (new_server opts)) access c
      × (lookup access (serve_user_info now req (served rs (new_server opts))).0.access_tokens
          ≡ none)
unfolding serve_user_info
user_info-once opts rs now req c h =
    let s = served rs (new_server opts) in
    let u = served-Unique_access rs (new_server opts) tt in
    elim (Option-cases (strip_bearer req.authorization)) [
      | inl e ↦ absurd (ground arith)
      | inr (access, e) ↦ (
        access,
        e,
        response-Told now access c s u (ground arith),
        ground (
          arith,
          lookup-delete access access (vacuum now s).access_tokens,
          beq_refl {A = String} access,
        ),
      )
    ]
