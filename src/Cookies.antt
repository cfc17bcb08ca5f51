-- ===== src/Cookies.antt =====
-- proxy/internal/cookiemanager/cookiemanager.go, and the URL tokens of
-- proxy/internal/tokenmanager/urltoken.go: the tokens that stand for a user who is logged in.
pub mod Sessions
use Prim.Native.Char.{code}
use Prim.Native.String.{String, ◌++◌ as str_append}
use rp.Prelude.{
  ℕ, ◌+◌, ◌*◌, ◌≡◌, refl, Bool, true, false, not, ◌&&◌, ◌||◌, Option, none, some, List, [], ◌∷◌,
  if◌then◌else◌, ◌==◌,
}
use rp.Prelude.Text.{string_eq, ◌=?◌, contains}
use rp.Prelude.Map.{Map, lookup, insert}
use rp.Prelude.Words.{is_empty, upper}
use rp.Prelude.Call.{Call, ok, err, ◌>>=◌, ◌>>◌, fail_if, or_fail}

-- The value of a claim. `nil` is the value of one that is missing.
pub data Value : Type 0 where
  str : String → Value
  strs : List String → Value
  num : ℕ → Value
  nil : Value

abbrev pub Claims : Type 0
Claims = Map String Value

unfoldable pub get : Claims → String → Value
get c k = elim (lookup k c) [ none ↦ nil | some v ↦ v ]

-- `v == s` for a claim and a string.
abbrev pub is_str : Value → String → Bool
is_str (str t) s = t =? s
is_str _ s = false

-- The token manager: `CreateToken` with its errors, and `ValidateToken` without the options, which
-- gives the claims of a token whose signature and times are right.
pub record Jwt : Type 0 where
  pub create : Claims → String → Option String
  pub parse : String → Option Claims

pub record CookieManager : Type 0 where
  pub provider : String
  pub issuer : String

abbrev pub has_audience : Value → String → Bool
has_audience (str t) s = t =? s
has_audience (strs ts) s = contains ts s
has_audience _ s = false

-- `ValidateToken` with the options for the issuer and the audience.
unfoldable pub validate_token : Jwt → String → String → String → Option Claims
unfolding get
validate_token jwt iss aud t = elim (jwt.parse t) [
  | none ↦ none
  | some c ↦ if is_str (get c "iss") iss && has_audience (get c "aud") aud then some c else none
]

-- The loop over the extra claims, which replace none.
unfoldable pub add_extra : Claims → Claims → Claims
add_extra [] c = c
add_extra ((k, v) ∷ extra) c =
    add_extra extra (elim (lookup k c) [ none ↦ insert k v c | some w ↦ c ])

-- Who has logged in where, and when, in seconds.
pub record Login : Type 0 where
  pub user_id : String
  pub email : String
  pub session_id : String
  pub host_hash : String
  pub now : ℕ

abbrev pub auth_claims : CookieManager → Login → Claims
auth_claims cm l =
    ("iat", num l.now)
    ∷ ("exp", num (l.now + 20 * 3600))
    ∷ ("iss", str cm.issuer)
    ∷ ("aud", str cm.issuer)
    ∷ ("sub", str l.user_id)
    ∷ ("email", str l.email)
    ∷ ("proxyauth", str cm.issuer)
    ∷ ("provider", str cm.provider)
    ∷ ("hhash", str l.host_hash)
    ∷ ("sid", str l.session_id)
    ∷ []

-- The value of the cookie that is set.
unfoldable pub set_auth_token_cookie : Jwt → CookieManager → Login → Claims → Call String String
unfolding add_extra
set_auth_token_cookie jwt cm l extra = do
  fail_if (is_empty l.user_id || is_empty l.email) "userID and email cannot be empty"
  or_fail (jwt.create (add_extra extra (auth_claims cm l)) "") "CreateToken"

abbrev pub is_nonempty : Value → Bool
is_nonempty (str s) = not (is_empty s)
is_nonempty _ = false

unfoldable pub validate_auth_token_cookie : Jwt → CookieManager → Option String → Option Claims
unfolding validate_token
validate_auth_token_cookie jwt cm none = none
validate_auth_token_cookie jwt cm (some t) = elim (validate_token jwt cm.issuer cm.issuer t) [
  | none ↦ none
  | some c ↦
      if is_str (get c "proxyauth") cm.issuer
        && is_str (get c "provider") cm.provider
        && is_nonempty (get c "sub")
      then some c
      else none
]

abbrev pub hidden : List String
hidden = "scope" ∷ "proxyauth" ∷ "source" ∷ "hhash" ∷ []

unfoldable pub without : List String → Claims → Claims
without names [] = []
without names ((k, v) ∷ c) =
    let rest = without names c in if contains names k then rest else (k, v) ∷ rest

-- A request's host without its port, and in Unicode, if it can be written so.
pub record Host : Type 0 where
  pub ascii : String
  pub unicode : Option String

abbrev pub audience_from_req : Host → String
audience_from_req h = str_append (str_append "https://" h.ascii) "/"

abbrev pub audience_for_token : Host → Value
audience_for_token h = elim h.unicode [
  | none ↦ str (audience_from_req h)
  | some u ↦
      if u =? h.ascii
      then str (audience_from_req h)
      else strs (audience_from_req h ∷ str_append (str_append "https://" u) "/" ∷ [])
]

abbrev pub id_claims : Host → ℕ → Claims → Claims
id_claims h now c = insert "aud" (audience_for_token h) (insert "iat" (num now) (without hidden c))

unfoldable pub set_id_token_cookie : Jwt → Host → ℕ → Claims → Option String
unfolding without
set_id_token_cookie jwt h now c = jwt.create (id_claims h now c) "ES256"

-- `a == b` for the values of two claims, of which one is no list.
abbrev pub same_value : Value → Value → Bool
same_value (str a) (str b) = a =? b
same_value (num a) (num b) = a == b
same_value nil nil = true
same_value _ _ = false

unfoldable pub validate_id_token_cookie : Jwt → CookieManager → Host → Claims → Option String → Bool
unfolding validate_token
validate_id_token_cookie jwt cm h c none = false
validate_id_token_cookie jwt cm h c (some t) =
    elim (validate_token jwt cm.issuer (audience_from_req h) t) [
      | none ↦ false
      | some d ↦ same_value (get d "sub") (get c "sub") && same_value (get d "sid") (get c "sid")
    ]

-- The token after `Bearer `, in any case.
unfoldable pub bearer_from : String → String → Option String
bearer_from String.[] s = some s
bearer_from (String.◌∷◌ p ps) String.[] = none
bearer_from (String.◌∷◌ p ps) (String.◌∷◌ c s) =
    let rest = bearer_from ps s in if upper (code c) == code p then rest else none

abbrev pub is_nil_value : Value → Bool
is_nil_value nil = true
is_nil_value _ = false

unfoldable pub validate_authorization_header : Jwt → CookieManager → Host → String → Option Claims
unfolding bearer_from validate_token
validate_authorization_header jwt cm h header = elim (bearer_from "BEARER " header) [
  | none ↦ none
  | some t ↦ elim (validate_token jwt cm.issuer (audience_from_req h) t) [
    | none ↦ none
    | some c ↦ if is_nil_value (get c "proxyauth") then some c else none
  ]
]

-- The cookies that are left.
unfoldable pub filter_out_auth_token_cookie :
    List String → List (String × String) → List (String × String)
filter_out_auth_token_cookie names [] = []
filter_out_auth_token_cookie names ((n, v) ∷ cookies) =
    let rest = filter_out_auth_token_cookie names cookies in
    if n =? "TLSPROXYAUTH" || contains names n then rest else (n, v) ∷ rest

-- A URL token's claims, and `ValidateURLToken` for the session of the request. `parses` is whether
-- `url.Parse` succeeds.
unfoldable pub url_token : Jwt → String → String → Claims → Option String
url_token jwt sid url extra = jwt.create (insert "sid" (str sid) (insert "url" (str url) extra)) ""

unfoldable pub validate_url_token :
    Jwt → (String → Bool) → String → String → Option (String × Claims)
unfolding get
validate_url_token jwt parses sid t = elim (jwt.parse t) [
  | none ↦ none
  | some c ↦
      if is_str (get c "sid") sid
      then elim (get c "url") [ str u ↦ if parses u then some (u, c) else none | _ ↦ none ]
      else none
]
