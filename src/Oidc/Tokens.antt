-- ===== src/Oidc/Tokens.antt =====
-- The token endpoint, told from the state before the request; and the whole flow of a login.
use Prim.Native.String.{String}
use rp.Prelude.{
  ℕ, ◌+◌, ◌≤◌, ◌≡◌, refl, sym, ◌∙◌, ◌↔◌, not, some, List, ltb, Option-cases, Bool-cases, inl, inr,
  arith,
}
use rp.Prelude.Text.{string_eq, beq_refl}
use rp.Prelude.Map.{lookup, Unique, kept, insert-Unique, lookup-insert, lookup-retain}
use rp.Oidc.Scopes.{granted_scope, split}
use rp.Oidc.Granting.{Granted, Granted-grant}
use rp.Oidc.Exchange.{
  served, served-Unique, Proper, proper, proper-Proper, Proper-proper, answer-proper, vacuum-Unique,
}
use rp.Oidc.{
  ProviderServer, ServerOptions, CodeData, tokens, vacuum, lifetime, code_data, token_claims,
  AuthEnv, AuthRequest, grant, serve_authorization, TokenRequest, token_response, serve_token,
  Request, new_server,
}

lookup-vacuum :
    (now : ℕ) (code : String) (s : ProviderServer)
    → Unique s.codes
    → lookup code (vacuum now s).codes
      ≡ kept (λ v. not (ltb (v.created + lifetime) now)) (lookup code s.codes)
unfolding vacuum
lookup-vacuum now code s u = lookup-retain _ code s.codes u

-- The code is held, is not older than two minutes, and belongs to the client.
abbrev pub Alive : ℕ → TokenRequest → ProviderServer → CodeData → Type 0
Alive now req s v =
    (lookup req.code s.codes ≡ some v)
    × (now ≤ v.created + lifetime)
    × (v.client_id ≡ req.client_id)

response-Alive :
    (now : ℕ) (req : TokenRequest) (s : ProviderServer) (a t sc : String)
    → Unique s.codes
    → token_response req.client_id (lookup req.code (vacuum now s).codes) ≡ tokens a t sc
    → (v : CodeData) × Alive now req s v × (v.access_token ≡ a) × (v.token ≡ t) × (v.scope ≡ sc)
unfolding token_response
response-Alive now req s a t sc u h = elim (Option-cases (lookup req.code s.codes)) [
  | inl e ↦ absurd (ground (arith, lookup-vacuum now req.code s u))
  | inr (v, e) ↦
      let l = lookup-vacuum now req.code s u in
      (
        v,
        (e, ground arith, ground (arith, string_eq.beq_iff v.client_id req.client_id)),
        ground arith,
        ground arith,
        ground arith,
      )
]

Alive-response :
    (now : ℕ) (req : TokenRequest) (s : ProviderServer) (v : CodeData)
    → Unique s.codes
    → Alive now req s v
    → token_response req.client_id (lookup req.code (vacuum now s).codes)
      ≡ tokens v.access_token v.token v.scope
unfolding token_response
Alive-response now req s v u (e, young, mine) =
    ground (arith, lookup-vacuum now req.code s u, string_eq.beq_iff v.client_id req.client_id)

module _ (opts : ServerOptions) (rs : List Request) (now : ℕ) (req : TokenRequest) where
  abbrev state : ProviderServer
  state = served rs (new_server opts)

  unique : Unique state.codes
  unique = served-Unique rs (new_server opts) tt

  -- After any requests to a new server, the token endpoint answers with given tokens exactly when
  -- the request is a POST of an authorization code, some registered client has its id, secret and
  -- redirect URI, and the code is held, was made for this client id at most two minutes ago, and
  -- stands for these tokens.
  pub exchange_iff :
      (a t sc : String)
      → ((serve_token now req (served rs (new_server opts))).1 ≡ tokens a t sc) ↔ (
          Proper (served rs (new_server opts)).opts req
          × ((v : CodeData) × Alive now req (served rs (new_server opts)) v
              × (v.access_token ≡ a)
              × (v.token ≡ t)
              × (v.scope ≡ sc)))
  exchange_iff a t sc = (
    given,
    λ (p, (v, alive, ea, et, es)).
        answer-proper now req state
        ∙ rw (Proper-proper state.opts req p)
            (Alive-response now req state v unique alive ∙ rw (ea, et, es) refl),
  )
    where
      given :
          (serve_token now req state).1 ≡ tokens a t sc
          → Proper state.opts req
            × ((v : CodeData) × Alive now req state v
                × (v.access_token ≡ a)
                × (v.token ≡ t)
                × (v.scope ≡ sc))
      given h = elim (Bool-cases (proper state.opts req)) [
        | inl p ↦ (
          proper-Proper state.opts req p,
          response-Alive now req state a t sc unique (ground (arith, answer-proper now req state)),
        )
        | inr p ↦ absurd (ground (arith, answer-proper now req state))
      ]

-- From any state that a new server reaches: a request for which the authorization endpoint grants a
-- code, and right after it a proper exchange of this code for the same client at most two
-- minutes later, give the signed token of the claims that the request was granted, with the
-- access token and the scope.
pub login :
    (opts : ServerOptions) (rs : List Request) (env : AuthEnv) (req : AuthRequest) (now : ℕ)
    (exchange : TokenRequest) (g : Granted env req (served rs (new_server opts)).opts)
    → exchange.code ≡ g.code
    → exchange.client_id ≡ req.client_id
    → Proper (served rs (new_server opts)).opts exchange
    → now ≤ env.now + lifetime
    → (serve_token now exchange (serve_authorization env req (served rs (new_server opts))).0).1
      ≡ tokens g.access g.token (granted_scope (split req.scope))
login opts rs env req now exchange g same mine p young =
    let s = served rs (new_server opts) in
    let v = code_data env req g.access g.token in
    let claims = token_claims s.opts env req g.user in
    let t = (grant (vacuum env.vacuum_time s) env req claims g.code g.access g.token).0 in
    let u : Unique t.codes =
      unfold grant in
      insert-Unique g.code v (vacuum env.vacuum_time s).codes
        (vacuum-Unique env.vacuum_time s (unique opts rs now exchange)) in
    let held : lookup exchange.code t.codes ≡ some v =
      unfold grant in
      rw same (
        lookup-insert g.code g.code v (vacuum env.vacuum_time s).codes
        ∙ rw (beq_refl {A = String} g.code) refl) in
    let q : Proper t.opts exchange = unfold grant vacuum in p in
    rw (Granted-grant env req s g) (
      answer-proper now exchange t
      ∙ rw (Proper-proper t.opts exchange q)
          (Alive-response now exchange t v u (held, young, sym mine)))
