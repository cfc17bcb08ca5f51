-- ===== src/Examples/Logins.antt =====
-- A client that logs a user in.
use Prim.Native.String.{String}
use rp.Prelude.{◌≤◌, ◌≡◌, refl, ◌↔◌, true, none, some, List, [], ◌∷◌, arith}
use rp.Prelude.Text.{string_eq, contains, here}
use rp.Prelude.Map.{insert, lookup, retain}
use rp.Oidc.Scopes.{
  granted_claims, apply_rewrite_rules, rewrite_claims, subject, get_claim, Claims, text, Rewriter,
  granted_scope, split, without_hidden, strip_bearer,
}
use rp.Oidc.Granting.{Granted}
use rp.Oidc.Codes.{issued, redeemed, redeemed-le-issued}
use rp.Oidc.Exchange.{served, Proper}
use rp.Oidc.Tokens.{Alive, exchange_iff, login}
use rp.Oidc.Provenance.{is_output, server_claim, lookup-token_claims}
use rp.Oidc.UserInfo.{Told, user_info-once}
use rp.Oidc.{
  grant, base_claims, serve, token_claims, ServerOptions, CodeData, AuthEnv, AuthRequest,
  TokenRequest, InfoRequest, Request, authorization, token_exchange, new_server, found,
  serve_authorization, serve_token, serve_user_info, vacuum, info_response, tokens, user_claims,
}

abbrev options : ServerOptions
options = record {
  issuer = "https://login";
  clients = record { id = "app"; secret = "s3"; redirect_uri = "https://app/cb" ∷ [] } ∷ [];
  rewrite_rules = [];
}

abbrev rewriter : Rewriter
rewriter = record { input = λ c k. ""; replace = λ r i v. none }

abbrev env : AuthEnv
env = record {
  vacuum_time = 5;
  now = 6;
  uri_parses = λ u. true;
  code = some "c0de";
  access_token = some "acc";
  sign = λ c. some "signed";
  rewriter = rewriter;
}

abbrev bob : Claims
bob = ("sub", text "bob") ∷ []

abbrev ask : AuthRequest
ask = record {
  user = some bob;
  response_type = "code";
  client_id = "app";
  redirect_uri = "https://app/cb";
  nonce = "";
  scope = "openid";
  state = "st";
}

abbrev exchange : TokenRequest
exchange = record {
  method = "POST";
  grant_type = "authorization_code";
  code = "c0de";
  client_id = "app";
  client_secret = "s3";
  redirect_uri = "https://app/cb";
}

abbrev logged_in : List Request
logged_in = authorization env ask ∷ []

granted : Granted env ask options
unfolding found contains
granted = record {
  user = bob;
  code = "c0de";
  access = "acc";
  token = "signed";
  logged_in = refl;
  asks_code = refl;
  registered = refl;
  parses = refl;
  code_drawn = refl;
  access_drawn = refl;
  signed = refl;
}

exchange_is_Proper : Proper options exchange
exchange_is_Proper = (refl, refl, (_, here refl, refl, refl, here refl))

redeemed-le-issued_example :
    redeemed "c0de"
      (authorization env ask ∷ token_exchange 7 exchange ∷ token_exchange 8 exchange ∷ [])
      (new_server options)
    ≤ issued "c0de"
        (authorization env ask ∷ token_exchange 7 exchange ∷ token_exchange 8 exchange ∷ [])
        (new_server options)
redeemed-le-issued_example =
    redeemed-le-issued "c0de" options
      (authorization env ask ∷ token_exchange 7 exchange ∷ token_exchange 8 exchange ∷ [])

exchange_iff_example :
    ((serve_token 7 exchange (served logged_in (new_server options))).1
      ≡ tokens "acc" "signed" "openid")
    ↔ (Proper (served logged_in (new_server options)).opts exchange
        × ((v : CodeData) × Alive 7 exchange (served logged_in (new_server options)) v
            × (v.access_token ≡ "acc")
            × (v.token ≡ "signed")
            × (v.scope ≡ "openid")))
exchange_iff_example = exchange_iff options logged_in 7 exchange "acc" "signed" "openid"

login_example :
    (serve_token 7 exchange (serve_authorization env ask (new_server options)).0).1
    ≡ tokens "acc" "signed" "openid"
unfolding served granted granted_scope split contains
login_example =
    login options [] env ask 7 exchange granted refl refl exchange_is_Proper (omega arith)

abbrev info : InfoRequest
info = record { method = "GET"; authorization = "Bearer acc" }

told_bob : (serve_user_info 7 info (served logged_in (new_server options))).1 ≡ user_claims bob
unfolding serve_user_info served serve serve_authorization found contains grant token_claims
    base_claims granted_claims granted_scope split apply_rewrite_rules rewrite_claims subject
    get_claim insert vacuum retain lookup strip_bearer info_response without_hidden
told_bob = refl

user_info-once_example :
    (access : String) × (strip_bearer "Bearer acc" ≡ some access)
    × Told 7 (served logged_in (new_server options)) access bob
    × (lookup access
          (serve_user_info 7 info (served logged_in (new_server options))).0.access_tokens
        ≡ none)
user_info-once_example = user_info-once options logged_in 7 info bob told_bob

-- A user who claims another issuer.
abbrev mallory : Claims
mallory = ("sub", text "mallory") ∷ ("iss", text "https://evil") ∷ []

lookup-token_claims_example :
    lookup "iss" (token_claims options env ask mallory)
    ≡ server_claim options env.now ask (subject mallory) "iss"
unfolding contains is_output
lookup-token_claims_example = lookup-token_claims options env ask mallory "iss" refl refl
