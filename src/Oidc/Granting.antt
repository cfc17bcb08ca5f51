-- ===== src/Oidc/Granting.antt =====
-- When the authorization endpoint grants a code.
use Prim.Native.String.{String}
use rp.Prelude.{ℕ, ◌≡◌, ◌⊎◌, inl, inr, true, none, some, Option-cases, Bool-cases, arith}
use rp.Prelude.Text.{string_eq, ◌=?◌}
use rp.Oidc.Scopes.{Claims}
use rp.Oidc.{
  ProviderServer, ServerOptions, http_error, vacuum, AuthEnv, AuthRequest, grant, found,
  token_claims, serve_authorization,
}

-- What has to be so for the code, with the values that the program then works with.
pub record Granted (env : AuthEnv) (req : AuthRequest) (opts : ServerOptions) : Type 0 where
  pub user : Claims
  pub code : String
  pub access : String
  pub token : String
  pub logged_in : req.user ≡ some user
  pub asks_code : (req.response_type =? "code") ≡ true
  pub registered : found req.client_id none req.redirect_uri opts.clients ≡ true
  pub parses : env.uri_parses req.redirect_uri ≡ true
  pub code_drawn : env.code ≡ some code
  pub access_drawn : env.access_token ≡ some access
  pub signed : env.sign (token_claims opts env req user) ≡ some token

module _ (env : AuthEnv) (req : AuthRequest) (s : ProviderServer) where
  abbrev pub Refused : Type 0
  Refused = (n : ℕ) × (serve_authorization env req s ≡ (vacuum env.vacuum_time s, http_error n))

  abbrev pub Succeeds : Type 0
  Succeeds =
      (g : Granted env req s.opts) × (serve_authorization env req s
        ≡ grant (vacuum env.vacuum_time s) env req (token_claims s.opts env req g.user) g.code
            g.access g.token)

  -- The values at hand, and what the program still tests.
  drawn :
      (user : Claims)
      → req.user ≡ some user
      → (req.response_type =? "code") ≡ true
      → found req.client_id none req.redirect_uri s.opts.clients ≡ true
      → env.uri_parses req.redirect_uri ≡ true
      → Refused ⊎ Succeeds
  drawn user u rt f p = elim (Option-cases env.code) [
    | inl e ↦ inl (500, unfold serve_authorization vacuum in ground arith)
    | inr (code, c) ↦ elim (Option-cases env.access_token) [
      | inl e ↦ inl (500, unfold serve_authorization vacuum in ground arith)
      | inr (access, a) ↦ elim (Option-cases (env.sign (token_claims s.opts env req user))) [
        | inl e ↦ inl (500, unfold serve_authorization vacuum in ground arith)
        | inr (token, t) ↦ inr (
          record {
            user = user;
            code = code;
            access = access;
            token = token;
            logged_in = u;
            asks_code = rt;
            registered = f;
            parses = p;
            code_drawn = c;
            access_drawn = a;
            signed = t;
          },
          unfold serve_authorization vacuum in ground arith,
        )
      ]
    ]
  ]

  -- The endpoint answers with an error, and only cleans up, or grants a code.
  pub authorization_cases : Refused ⊎ Succeeds
  authorization_cases = elim (Option-cases req.user) [
    | inl e ↦ inl (401, unfold serve_authorization in ground arith)
    | inr (user, u) ↦ elim (Bool-cases (req.response_type =? "code")) [
      | inr e ↦ inl (400, unfold serve_authorization in ground arith)
      | inl rt ↦ elim (Bool-cases (found req.client_id none req.redirect_uri s.opts.clients)) [
        | inr e ↦ inl (400, unfold serve_authorization vacuum in ground arith)
        | inl f ↦ elim (Bool-cases (env.uri_parses req.redirect_uri)) [
          | inr e ↦ inl (400, unfold serve_authorization vacuum in ground arith)
          | inl p ↦ drawn user u rt f p
        ]
      ]
    ]
  ]

-- With all of it, the endpoint grants the code.
pub Granted-grant :
    (env : AuthEnv) (req : AuthRequest) (s : ProviderServer) (g : Granted env req s.opts)
    → serve_authorization env req s
      ≡ grant
          (vacuum env.vacuum_time s)
          env
          req
          (token_claims s.opts env req g.user)
          g.code
          g.access
          g.token
unfolding serve_authorization vacuum
Granted-grant env req s g =
    let u = g.logged_in in
    let rt = g.asks_code in
    let f = g.registered in
    let p = g.parses in
    let c = g.code_drawn in let a = g.access_drawn in let t = g.signed in ground arith
