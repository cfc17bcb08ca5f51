-- ===== src/Oidc.antt =====
-- proxy/internal/oidc/server.go: the authorization, token and userinfo endpoints of the local
-- OpenID Connect server. Times are nanoseconds since the Unix epoch. The clock, the random
-- source, the token manager's signature, `url.Parse`, and regular expressions with the texts that
-- they work on are arguments of the handlers.
pub mod Scopes
pub mod Granting
pub mod Codes
pub mod Exchange
pub mod Tokens
pub mod UserInfo
pub mod Provenance
use Prim.Native.String.{String, ◌++◌ as str_append}
use rp.Prelude.{
  ℕ, ◌+◌, ◌*◌, ◌/◌, Bool, true, false, not, ◌&&◌, ◌||◌, Option, none, some, List, [], ◌∷◌, ltb,
  if◌then◌else◌,
}
use rp.Prelude.Text.{Eq, string_eq, ◌=?◌, contains}
use rp.Prelude.Map.{Map, lookup, insert, retain, delete}
use Scopes.{
  Claim, text, num, flag, null, Claims, get_claim, subject, granted_claims, granted_scope, split,
  Rewriter, RewriteRule, apply_rewrite_rules, hidden_claim, without_hidden, strip_bearer,
}

abbrev pub second : ℕ
second = 1000000000

-- 2 * time.Minute
abbrev pub lifetime : ℕ
lifetime = 120000000000

pub record CodeData : Type 0 where
  pub created : ℕ
  pub client_id : String
  pub token : String
  pub scope : String
  pub access_token : String

pub record AccessData : Type 0 where
  pub created : ℕ
  pub client_id : String
  pub claims : Claims

pub record Client : Type 0 where
  pub id : String
  pub secret : String
  pub redirect_uri : List String

pub record ServerOptions : Type 0 where
  pub issuer : String
  pub clients : List Client
  pub rewrite_rules : List RewriteRule

pub record ProviderServer : Type 0 where
  pub opts : ServerOptions
  pub codes : Map String CodeData
  pub access_tokens : Map String AccessData

abbrev pub new_server : ServerOptions → ProviderServer
new_server opts = record { opts = opts; codes = []; access_tokens = [] }

pub data Response : Type 0 where
  http_error : ℕ → Response
  -- The redirect URI, and the parameters `state`, `code` and `scope` that are set in its query.
  redirect : String → String → String → String → Response
  -- `access_token`, `id_token` and `scope`.
  tokens : String → String → String → Response
  user_claims : Claims → Response

unfoldable pub vacuum : ℕ → ProviderServer → ProviderServer
vacuum now s = record s {
  codes = retain (λ v. not (ltb (v.created + lifetime) now)) s.codes;
  access_tokens = retain (λ v. not (ltb (v.created + lifetime) now)) s.access_tokens;
}

-- `secret` is `none` where the handler does not check it.
abbrev pub secret_fits : Option String → Client → Bool
secret_fits none client = true
secret_fits (some secret) client = client.secret =? secret

unfoldable pub found : String → Option String → String → List Client → Bool
found id secret uri [] = false
found id secret uri (client ∷ clients) =
    client.id =? id && secret_fits secret client && contains client.redirect_uri uri
    || found id secret uri clients

pub record AuthRequest : Type 0 where
  -- `ClaimsFromCtx`, which is nil for a user who is not logged in.
  pub user : Option Claims
  pub response_type : String
  pub client_id : String
  pub redirect_uri : String
  pub nonce : String
  pub scope : String
  pub state : String

-- What the handler asks of the rest of the program: the time at which it cleans up, the time of
-- the token, whether the redirect URI parses, the two random codes, and the signature.
pub record AuthEnv : Type 0 where
  pub vacuum_time : ℕ
  pub now : ℕ
  pub uri_parses : String → Bool
  pub code : Option String
  pub access_token : Option String
  pub sign : Claims → Option String
  pub rewriter : Rewriter

unfoldable pub base_claims : String → ℕ → String → String → String → Claims
base_claims issuer now client_id sub nonce =
    let c =
      ("iat", num (now / second))
      ∷ ("exp", num ((now + 300000000000) / second))
      ∷ ("iss", text issuer)
      ∷ ("aud", text client_id)
      ∷ ("sub", text sub)
      ∷ ("scope", text "openid")
      ∷ [] in
    if nonce =? "" then c else insert "nonce" (text nonce) c

unfoldable pub token_claims : ServerOptions → AuthEnv → AuthRequest → Claims → Claims
unfolding base_claims
token_claims opts env req user =
    let scopes = split req.scope in
    let c = base_claims opts.issuer env.now req.client_id (subject user) req.nonce in
    let d = insert "scope" (text (granted_scope scopes)) (granted_claims scopes user c) in
    apply_rewrite_rules env.rewriter opts.rewrite_rules user d

abbrev pub code_data : AuthEnv → AuthRequest → String → String → CodeData
code_data env req access token = record {
  created = env.now;
  client_id = req.client_id;
  token = token;
  scope = granted_scope (split req.scope);
  access_token = access;
}

abbrev pub access_data : AuthEnv → AuthRequest → Claims → AccessData
access_data env req claims = record {
  created = env.now;
  client_id = req.client_id;
  claims = claims;
}

-- The end of the handler, with both random codes and the signed token.
unfoldable pub grant :
    ProviderServer
    → AuthEnv
    → AuthRequest
    → Claims
    → String
    → String
    → String
    → ProviderServer × Response
grant s env req claims code access token = (
  record s {
    codes = insert code (code_data env req access token) s.codes;
    access_tokens = insert access (access_data env req claims) s.access_tokens;
  },
  redirect req.redirect_uri req.state code (granted_scope (split req.scope)),
)

unfoldable pub serve_authorization :
    AuthEnv → AuthRequest → ProviderServer → ProviderServer × Response
serve_authorization env req s0 =
    let s = vacuum env.vacuum_time s0 in
    elim req.user [
      | none ↦ (s, http_error 401)
      | some user ↦
          if not (req.response_type =? "code")
          then (s, http_error 400)
          else if not (found req.client_id none req.redirect_uri s.opts.clients)
          then (s, http_error 400)
          else if not (env.uri_parses req.redirect_uri)
          then (s, http_error 400)
          else elim env.code [
            | none ↦ (s, http_error 500)
            | some code ↦ elim env.access_token [
              | none ↦ (s, http_error 500)
              | some access ↦ elim (env.sign (token_claims s.opts env req user)) [
                | none ↦ (s, http_error 500)
                | some token ↦ grant s env req (token_claims s.opts env req user) code access token
              ]
            ]
          ]
    ]

pub record TokenRequest : Type 0 where
  pub method : String
  pub grant_type : String
  pub code : String
  pub client_id : String
  pub client_secret : String
  pub redirect_uri : String

-- After the locked section, on what it has read. (Marshalling this response does not fail.)
unfoldable pub token_response : String → Option CodeData → Response
token_response client_id none = http_error 400
token_response client_id (some v) =
    if v.client_id =? client_id then tokens v.access_token v.token v.scope else http_error 400

unfoldable pub serve_token : ℕ → TokenRequest → ProviderServer → ProviderServer × Response
unfolding token_response
serve_token now req s0 =
    let s = vacuum now s0 in
    if not (req.method =? "POST")
    then (s, http_error 400)
    else if not (req.grant_type =? "authorization_code")
    then (s, http_error 400)
    else if not (found req.client_id (some req.client_secret) req.redirect_uri s.opts.clients)
    then (s, http_error 400)
    else (
      record s { codes = delete req.code s.codes },
      token_response req.client_id (lookup req.code s.codes),
    )

pub record InfoRequest : Type 0 where
  pub method : String
  pub authorization : String

unfoldable pub info_response : Option AccessData → Response
info_response none = http_error 400
info_response (some v) = user_claims (without_hidden v.claims)

-- (Marshalling the claims, which came out of a JSON token, does not fail.)
unfoldable pub serve_user_info : ℕ → InfoRequest → ProviderServer → ProviderServer × Response
unfolding info_response
serve_user_info now req s0 =
    let s = vacuum now s0 in
    if not (req.method =? "GET") && not (req.method =? "POST")
    then (s, http_error 400)
    else elim (strip_bearer req.authorization) [
      | none ↦ (s, http_error 401)
      | some access ↦ (
        record s { access_tokens = delete access s.access_tokens },
        info_response (lookup access s.access_tokens),
      )
    ]

-- One request to the server, and its answer.
pub data Request : Type 0 where
  authorization : AuthEnv → AuthRequest → Request
  token_exchange : ℕ → TokenRequest → Request
  user_info : ℕ → InfoRequest → Request

unfoldable pub serve : Request → ProviderServer → ProviderServer × Response
serve (authorization env req) s = serve_authorization env req s
serve (token_exchange now req) s = serve_token now req s
serve (user_info now req) s = serve_user_info now req s
