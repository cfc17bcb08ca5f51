-- ===== src/Oidc/Codes.antt =====
-- Every authorization code is good for one exchange.
use Prim.Native.String.{String}
use rp.Prelude.{
  ℕ, ◌+◌, ◌≤◌, ◌≡◌, refl, Bool, true, false, not, Option, none, some, List, [], ◌∷◌, if◌then◌else◌,
  ltb, inl, inr, arith,
}
use rp.Prelude.Text.{string_eq, ◌=?◌}
use rp.Prelude.Map.{lookup, lookup-insert, lookup-delete, lookup-retain-none}
use rp.Oidc.Scopes.{Claims}
use rp.Oidc.Granting.{authorization_cases}
use rp.Oidc.{
  ProviderServer, ServerOptions, CodeData, Response, redirect, tokens, new_server, vacuum, lifetime,
  code_data, token_claims, AuthEnv, AuthRequest, grant, serve_authorization, TokenRequest,
  serve_token, InfoRequest, serve_user_info, Request, authorization, token_exchange, user_info,
  serve,
}

-- The answer gives out the code; the answer to the request redeems it.
abbrev pub issues : String → Response → ℕ
issues k (redirect uri state code scope) = if code =? k then 1 else 0
issues k _ = 0

abbrev pub is_tokens : Response → Bool
is_tokens (tokens a t sc) = true
is_tokens _ = false

abbrev pub redeems : String → Request → Response → ℕ
redeems k (token_exchange now req) r = if is_tokens r then if req.code =? k then 1 else 0 else 0
redeems k _ r = 0

-- How often the server gives out the code, and redeems it, while it serves the requests.
unfoldable pub issued : String → List Request → ProviderServer → ℕ
issued k [] s = 0
issued k (r ∷ rs) s = issues k (serve r s).1 + issued k rs (serve r s).0

unfoldable pub redeemed : String → List Request → ProviderServer → ℕ
redeemed k [] s = 0
redeemed k (r ∷ rs) s = redeems k r (serve r s).1 + redeemed k rs (serve r s).0

abbrev pending_in : Option CodeData → ℕ
pending_in none = 0
pending_in (some v) = 1

abbrev pub pending : String → ProviderServer → ℕ
pending k s = pending_in (lookup k s.codes)

vacuum-pending :
    (k : String) (now : ℕ) (s : ProviderServer) → pending k (vacuum now s) ≤ pending k s
unfolding vacuum
vacuum-pending k now s =
    ground (arith, lookup-retain-none (λ v. not (ltb (v.created + lifetime) now)) k s.codes)

grant-pending :
    (k : String) (s : ProviderServer) (env : AuthEnv) (req : AuthRequest) (claims : Claims)
    (code access token : String)
    → let r = grant s env req claims code access token in pending k r.0 ≤ issues k r.1 + pending k s
unfolding grant
grant-pending k s env req claims code access token =
    ground (
      arith,
      lookup-insert code k (code_data env req access token) s.codes,
      string_eq.beq_iff code k,
    )

authorization-pending :
    (k : String) (env : AuthEnv) (req : AuthRequest) (s : ProviderServer)
    → let r = serve_authorization env req s in pending k r.0 ≤ issues k r.1 + pending k s
authorization-pending k env req s = elim (authorization_cases env req s) [
  | inl (n, e) ↦ rw e (omega (arith, vacuum-pending k env.vacuum_time s))
  | inr (g, e) ↦ rw e (
      omega (
        arith,
        vacuum-pending k env.vacuum_time s,
        grant-pending k (vacuum env.vacuum_time s) env req (token_claims s.opts env req g.user)
            g.code g.access g.token,
      ))
]

exchange-pending :
    (k : String) (now : ℕ) (req : TokenRequest) (s : ProviderServer)
    → let r = serve_token now req s in
      redeems k (token_exchange now req) r.1 + pending k r.0 ≤ pending k s
unfolding serve_token
exchange-pending k now req s = ground (
  arith,
  vacuum-pending k now s,
  lookup-delete req.code k (vacuum now s).codes,
  string_eq.beq_iff req.code k,
)

info-pending :
    (k : String) (now : ℕ) (req : InfoRequest) (s : ProviderServer)
    → pending k (serve_user_info now req s).0 ≤ pending k s
unfolding serve_user_info
info-pending k now req s = ground (arith, vacuum-pending k now s)

serve-pending :
    (k : String) (r : Request) (s : ProviderServer)
    → let a = serve r s in redeems k r a.1 + pending k a.0 ≤ issues k a.1 + pending k s
unfolding serve
serve-pending k (authorization env req) s = omega (arith, authorization-pending k env req s)
serve-pending k (token_exchange now req) s = omega (arith, exchange-pending k now req s)
serve-pending k (user_info now req) s = omega (arith, info-pending k now req s)

redeemed-le-pending :
    (k : String) (rs : List Request) (s : ProviderServer)
    → redeemed k rs s ≤ issued k rs s + pending k s
unfolding redeemed issued
redeemed-le-pending k [] s = omega arith
redeemed-le-pending k (r ∷ rs) s =
    omega (arith, serve-pending k r s, redeemed-le-pending k rs (serve r s).0)

-- Over any sequence of requests to a new server, a code is redeemed for tokens at most as often as
-- it was given out.
pub redeemed-le-issued :
    (k : String) (opts : ServerOptions) (rs : List Request)
    → redeemed k rs (new_server opts) ≤ issued k rs (new_server opts)
redeemed-le-issued k opts rs =
    let nothing : pending k (new_server opts) ≡ 0 = unfold lookup in refl in
    omega (arith, redeemed-le-pending k rs (new_server opts))
