-- ===== src/Http/SignOn.antt =====
-- `authenticateUser`, `checkCookies`, `enforceSSOPolicy` and `pathMatches` of
-- proxy/backend-sso.go.
use Prim.Native.String.{String, ◌++◌ as str_append}
use rp.Prelude.{
  ℕ, ◌-◌, Bool, true, not, ◌&&◌, ◌||◌, Option, none, some, List, if◌then◌else◌, ltb, ◌==◌,
}
use rp.Prelude.Text.{string_eq, ◌=?◌, contains}
use rp.Prelude.Words.{is_empty}
use rp.Prelude.Call.{ok, err, ◌>>=◌}
use rp.Routing.{is_nil}
use rp.Http.{
  Claims, Request, Sso, HttpBackend, HttpEnv, Reply, http_error, same_url, login_redirect,
  login_page, denied_page, Handling,
}
use rp.Http.Paths.{path_clean, any_prefix, cut}

-- The user that `authenticateUser` puts into the request, and the header with the user's name.
pub record User : Type 0 where
  pub claims : Option Claims
  pub header : Option String

abbrev pub email_of : Claims → String
email_of c = elim c.email [ none ↦ "" | some email ↦ email ]

-- From the claims of a valid cookie that names a user.
unfoldable pub check_id_token :
    HttpEnv → HttpBackend → Sso → Request → Claims → Handling (Option Claims)
check_id_token env be sso req c =
    if not sso.generate_id_tokens
    then ok (some c)
    else if not (contains be.server_names (env.host_from_req req.host))
    then ok (some c)
    else if env.id_token_valid
    then ok (some c)
    else if env.id_token_set
    then err same_url
    else err (http_error 500)

unfoldable pub check_cookies : HttpEnv → HttpBackend → Sso → Request → Handling (Option Claims)
unfolding check_id_token
check_cookies env be sso req = elim env.header_claims [
  | some c ↦ ok (some c)
  | none ↦ elim env.cookie_claims [
    | none ↦ ok none
    | some c ↦ if is_empty (email_of c) then ok none else check_id_token env be sso req c
  ]
]

abbrev pub nobody : User
nobody = record { claims = none; header = none }

abbrev pub user_of : Sso → Option Claims → User
user_of sso none = nobody
user_of sso (some c) = if is_empty (email_of c) then nobody else record {
  claims = some c;
  header = if sso.set_user_id_header then some (email_of c) else none;
}

unfoldable pub authenticate_user : HttpEnv → HttpBackend → Request → Handling User
unfolding check_cookies
authenticate_user env be req = elim be.sso [
  | none ↦ ok nobody
  | some sso ↦ check_cookies env be sso req >>= λ claims. ok (user_of sso claims)
]

unfoldable pub path_matches : List String → String → Bool
unfolding path_clean any_prefix
path_matches prefixes path = is_nil prefixes || any_prefix prefixes path (path_clean path)

unfoldable pub exempt : Sso → String → Bool
unfolding path_matches
exempt sso path =
    not (path_matches sso.paths path)
    || (not (is_nil sso.exceptions) && path_matches sso.exceptions path)

-- `time.Since(iat) > be.SSO.ForceReAuth`. A token without a time is older than any time.
abbrev pub too_old : HttpEnv → Sso → Option ℕ → Bool
too_old env sso none = true
too_old env sso (some iat) = ltb sso.force_re_auth (env.now - iat)

abbrev pub other_host : HttpEnv → Request → Option String → Bool
other_host env req none = true
other_host env req (some hh) = not (hh =? env.hash req.host)

abbrev pub must_log_in : HttpEnv → Sso → Request → Option Claims → Bool
must_log_in env sso req none = true
must_log_in env sso req (some c) =
    not (sso.force_re_auth == 0) && (other_host env req c.hhash || too_old env sso c.iat)

unfoldable pub ask_to_log_in : HttpEnv → Sso → Request → Reply
ask_to_log_in env sso req =
    if not (req.method =? "GET")
    then http_error 403
    else if not env.url_token
    then http_error 500
    else if sso.is_passkeys || req.skip_login_confirmation
    then login_redirect
    else login_page

abbrev pub user_id : Option Claims → String
user_id none = ""
user_id (some c) = email_of c

abbrev pub listed : Option (List String) → String → Bool
listed none email = true
listed (some acl) email = contains acl email || contains acl (str_append "@" (cut b'@' email))

unfoldable pub serve_permission_denied : HttpEnv → Reply
serve_permission_denied env = if env.url_token then denied_page else http_error 500

unfoldable pub enforce_with : HttpEnv → Sso → Request → Option Claims → Handling (Unit {0})
unfolding exempt ask_to_log_in serve_permission_denied
enforce_with env sso req claims =
    if exempt sso req.path
    then ok tt
    else if must_log_in env sso req claims
    then err (ask_to_log_in env sso req)
    else if not (listed sso.acl (user_id claims))
    then err (serve_permission_denied env)
    else ok tt

unfoldable pub enforce_sso_policy :
    HttpEnv → HttpBackend → Request → Option Claims → Handling (Unit {0})
unfolding enforce_with
enforce_sso_policy env be req claims = elim be.sso [
  | none ↦ ok tt
  | some sso ↦ enforce_with env sso req claims
]
