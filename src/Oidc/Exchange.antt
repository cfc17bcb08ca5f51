-- ===== src/Oidc/Exchange.antt =====
-- What a code is exchanged for, and by whom.
use Prim.Native.String.{String}
use rp.Prelude.{
  ℕ, ◌+◌, ◌≡◌, refl, inl, inr, Bool, true, not, ◌&&◌, Option, some, List, [], ◌∷◌, ltb,
  if◌then◌else◌, Bool-cases, arith,
}
use rp.Prelude.Text.{string_eq, ◌=?◌, IsIn, here, there, contains, IsIn-contains, contains-IsIn}
use rp.Prelude.Map.{lookup, Unique, insert-Unique, delete-Unique, retain-Unique}
use rp.Oidc.Granting.{authorization_cases}
use rp.Oidc.{
  ProviderServer, ServerOptions, Client, http_error, vacuum, lifetime, code_data, grant, found,
  secret_fits, TokenRequest, token_response, serve_token, Request, authorization, token_exchange,
  user_info, serve, serve_user_info,
}

-- A client of the list has the id, the redirect URI and, where one is given, the secret.
abbrev pub Registered : String → Option String → String → List Client → Type 0
Registered id secret uri clients =
    (client : Client) × IsIn client clients
    × (client.id ≡ id)
    × (secret_fits secret client ≡ true)
    × IsIn uri client.redirect_uri

found-Registered :
    (id : String) (secret : Option String) (uri : String) (clients : List Client)
    → found id secret uri clients ≡ true
    → Registered id secret uri clients
unfolding found
found-Registered id secret uri [] h = absurd (ground arith)
found-Registered id secret uri (c ∷ cs) h =
    elim (Bool-cases (c.id =? id && secret_fits secret c && contains c.redirect_uri uri)) [
      | inl p ↦ (
        c,
        here refl,
        ground (arith, string_eq.beq_iff c.id id),
        ground arith,
        IsIn-contains c.redirect_uri uri (ground arith),
      )
      | inr p ↦
          let (d, held, i, s, u) = found-Registered id secret uri cs (ground arith) in
          (d, there held, i, s, u)
    ]

Registered-found :
    (id : String) (secret : Option String) (uri : String) (c : Client) {clients : List Client}
    → IsIn c clients
    → c.id ≡ id
    → secret_fits secret c ≡ true
    → IsIn uri c.redirect_uri
    → found id secret uri clients ≡ true
unfolding found
Registered-found id secret uri c (here p) i s u =
    rw p (ground (arith, string_eq.beq_iff c.id id, contains-IsIn uri u))
Registered-found id secret uri c (there {x} {xs} h) i s u =
    ground (arith, Registered-found id secret uri c h i s u)

unfoldable pub served : List Request → ProviderServer → ProviderServer
served [] s = s
served (r ∷ rs) s = served rs (serve r s).0

pub vacuum-Unique : (now : ℕ) (s : ProviderServer) → Unique s.codes → Unique (vacuum now s).codes
unfolding vacuum
vacuum-Unique now s u = retain-Unique (λ v. not (ltb (v.created + lifetime) now)) s.codes u

serve-Unique : (r : Request) (s : ProviderServer) → Unique s.codes → Unique (serve r s).0.codes
unfolding serve
serve-Unique (authorization env req) s u = elim (authorization_cases env req s) [
  | inl (n, e) ↦ rw e (vacuum-Unique env.vacuum_time s u)
  | inr (g, e) ↦ rw e (
      unfold grant in
      insert-Unique g.code (code_data env req g.access g.token) (vacuum env.vacuum_time s).codes
        (vacuum-Unique env.vacuum_time s u))
]
serve-Unique (token_exchange now req) s u =
    let v = vacuum-Unique now s u in
    unfold serve_token in ground (arith, delete-Unique req.code (vacuum now s).codes v)
serve-Unique (user_info now req) s u =
    let v = vacuum-Unique now s u in unfold serve_user_info in ground arith

pub served-Unique :
    (rs : List Request) (s : ProviderServer) → Unique s.codes → Unique (served rs s).codes
unfolding served
served-Unique [] s u = u
served-Unique (r ∷ rs) s u = served-Unique rs (serve r s).0 (serve-Unique r s u)

-- What the token endpoint wants of a request.
abbrev pub Proper : ServerOptions → TokenRequest → Type 0
Proper opts req =
    (req.method ≡ "POST")
    × (req.grant_type ≡ "authorization_code")
    × Registered req.client_id (some req.client_secret) req.redirect_uri opts.clients

pub proper : ServerOptions → TokenRequest → Bool
proper opts req =
    req.method =? "POST"
    && req.grant_type =? "authorization_code"
    && found req.client_id (some req.client_secret) req.redirect_uri opts.clients

pub proper-Proper :
    (opts : ServerOptions) (req : TokenRequest) → proper opts req ≡ true → Proper opts req
unfolding proper
proper-Proper opts req h = (
  ground (arith, string_eq.beq_iff req.method "POST"),
  ground (arith, string_eq.beq_iff req.grant_type "authorization_code"),
  found-Registered req.client_id (some req.client_secret) req.redirect_uri opts.clients
      (ground arith),
)

pub Proper-proper :
    (opts : ServerOptions) (req : TokenRequest) → Proper opts req → proper opts req ≡ true
unfolding proper
Proper-proper opts req (m, g, (c, held, i, s, u)) = ground (
  arith,
  string_eq.beq_iff req.method "POST",
  string_eq.beq_iff req.grant_type "authorization_code",
  Registered-found req.client_id (some req.client_secret) req.redirect_uri c held i s u,
)

pub answer-proper :
    (now : ℕ) (req : TokenRequest) (s : ProviderServer)
    → (serve_token now req s).1 ≡ (
        if proper s.opts req
        then token_response req.client_id (lookup req.code (vacuum now s).codes)
        else http_error 400)
unfolding serve_token proper vacuum
answer-proper now req s = ground arith
