-- ===== src/Examples/Sessions.antt =====
-- A login at one provider, with a token manager that knows two tokens.
use rp.Prelude.{◌≡◌, refl, true, none, some, [], ◌∷◌, if◌then◌else◌}
use rp.Prelude.Text.{string_eq, ◌=?◌}
use rp.Cookies.{
  str, Claims, get, Jwt, CookieManager, Login, Host, add_extra, auth_claims, id_claims,
  set_auth_token_cookie, set_id_token_cookie, validate_auth_token_cookie, validate_id_token_cookie,
  bearer_from, validate_authorization_header,
}
use rp.Cookies.Sessions.{ReadsBack, OfLogin, session}

abbrev manager : CookieManager
manager = record { provider = "idp"; issuer = "https://login.example.com/" }

abbrev login : Login
login = record {
  user_id = "1";
  email = "alice@example.com";
  session_id = "s";
  host_hash = "h";
  now = 7;
}

-- The provider's claims cannot replace the address.
abbrev extra : Claims
extra = ("email", str "bob@example.com") ∷ ("name", str "Alice") ∷ []

abbrev host : Host
host = record { ascii = "www.example.com"; unicode = none }

abbrev cookie_claims : Claims
cookie_claims = add_extra extra (auth_claims manager login)

abbrev jwt : Jwt
jwt = record {
  create = λ c alg. if alg =? "" then some "login" else some "id";
  parse = λ t. if t =? "login" then some cookie_claims else some (id_claims host 8 cookie_claims);
}

reads_login : ReadsBack jwt cookie_claims ""
reads_login t e = let same : "login" ≡ t = cc in rw (← same) refl

reads_id : ReadsBack jwt (id_claims host 8 cookie_claims) "ES256"
reads_id t e = let same : "id" ≡ t = cc in rw (← same) refl

session_example :
    (c : Claims) × (d : Claims) × OfLogin manager login c
    × (validate_auth_token_cookie jwt manager (some "login") ≡ some c)
    × (validate_id_token_cookie jwt manager host c (some "id") ≡ true)
    × (validate_authorization_header jwt manager host "Bearer id" ≡ some d)
    × (get d "email" ≡ str "alice@example.com")
    × (validate_auth_token_cookie jwt manager (some "id") ≡ none)
unfolding bearer_from set_auth_token_cookie set_id_token_cookie
session_example =
    session jwt manager login extra host 8 "login" "id" "Bearer id" reads_login reads_id refl refl
      refl
