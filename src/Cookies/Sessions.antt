-- ===== src/Cookies/Sessions.antt =====
-- A login's cookies: what is set validates, as what it is and as nothing else.
use Prim.Native.String.{String}
use rp.Prelude.{
  ℕ, ◌≡◌, refl, ◌∙◌, inl, inr, true, false, ◌||◌, none, some, List, [], ◌∷◌, if◌then◌else◌,
  Bool-cases, Option-cases, arith,
}
use rp.Prelude.Text.{string_eq, ◌=?◌, contains, beq_refl}
use rp.Prelude.Map.{lookup, insert, lookup-insert}
use rp.Prelude.Words.{is_empty}
use rp.Prelude.Call.{ok, fail_if-ok}
use rp.Prelude.Loops.{or_fail-ok}
use rp.Cookies.{
  Value, str, num, Claims, get, Jwt, CookieManager, has_audience, validate_token, add_extra, Login,
  auth_claims, set_auth_token_cookie, validate_auth_token_cookie, hidden, without, Host,
  audience_from_req, audience_for_token, id_claims, set_id_token_cookie, validate_id_token_cookie,
  bearer_from, validate_authorization_header,
}

-- A token that `CreateToken` returns is read back, as long as it has not expired.
abbrev pub ReadsBack : Jwt → Claims → String → Type 0
ReadsBack jwt c alg = (t : String) → jwt.create c alg ≡ some t → jwt.parse t ≡ some c

lookup-add_extra :
    (extra c : Claims) (k : String) (v : Value)
    → lookup k c ≡ some v
    → lookup k (add_extra extra c) ≡ some v
unfolding add_extra
lookup-add_extra [] c k v h = h
lookup-add_extra ((j, w) ∷ extra) c k v h = elim (Option-cases (lookup j c)) [
  | inl e ↦
      let kept : lookup k (insert j w c) ≡ some v =
        ground (arith, lookup-insert j k w c, string_eq.beq_iff j k) in
      ground (arith, lookup-add_extra extra (insert j w c) k v kept)
  | inr (u, e) ↦ ground (arith, lookup-add_extra extra c k v h)
]

lookup-without :
    (names : List String) (c : Claims) (k : String)
    → lookup k (without names c) ≡ (if contains names k then none else lookup k c)
unfolding without lookup
lookup-without names [] k = ground arith
lookup-without names ((j, v) ∷ c) k =
    ground (arith, lookup-without names c k, string_eq.beq_iff j k)

lookup-id_claims :
    (h : Host) (now : ℕ) (c : Claims) (k : String)
    → ("aud" =? k) ≡ false
    → ("iat" =? k) ≡ false
    → contains hidden k ≡ false
    → lookup k (id_claims h now c) ≡ lookup k c
lookup-id_claims h now c k a i n = ground (
  arith,
  lookup-insert "aud" k (audience_for_token h) (insert "iat" (num now) (without hidden c)),
  lookup-insert "iat" k (num now) (without hidden c),
  lookup-without hidden c k,
)

-- The claims that a login's cookie has, whatever else it has.
pub record OfLogin (cm : CookieManager) (l : Login) (c : Claims) : Type 0 where
  pub iss : lookup "iss" c ≡ some (str cm.issuer)
  pub aud : lookup "aud" c ≡ some (str cm.issuer)
  pub sub : lookup "sub" c ≡ some (str l.user_id)
  pub email : lookup "email" c ≡ some (str l.email)
  pub proxyauth : lookup "proxyauth" c ≡ some (str cm.issuer)
  pub provider : lookup "provider" c ≡ some (str cm.provider)
  pub hhash : lookup "hhash" c ≡ some (str l.host_hash)
  pub sid : lookup "sid" c ≡ some (str l.session_id)

add_extra-OfLogin :
    (cm : CookieManager) (l : Login) (extra : Claims)
    → OfLogin cm l (add_extra extra (auth_claims cm l))
add_extra-OfLogin cm l extra = record {
  iss = lookup-add_extra extra (auth_claims cm l) "iss" _ (unfold lookup in refl);
  aud = lookup-add_extra extra (auth_claims cm l) "aud" _ (unfold lookup in refl);
  sub = lookup-add_extra extra (auth_claims cm l) "sub" _ (unfold lookup in refl);
  email = lookup-add_extra extra (auth_claims cm l) "email" _ (unfold lookup in refl);
  proxyauth = lookup-add_extra extra (auth_claims cm l) "proxyauth" _ (unfold lookup in refl);
  provider = lookup-add_extra extra (auth_claims cm l) "provider" _ (unfold lookup in refl);
  hhash = lookup-add_extra extra (auth_claims cm l) "hhash" _ (unfold lookup in refl);
  sid = lookup-add_extra extra (auth_claims cm l) "sid" _ (unfold lookup in refl);
}

OfLogin-validates :
    (jwt : Jwt) (cm : CookieManager) (l : Login) (c : Claims) (t : String)
    → OfLogin cm l c
    → is_empty l.user_id ≡ false
    → jwt.parse t ≡ some c
    → validate_auth_token_cookie jwt cm (some t) ≡ some c
unfolding validate_auth_token_cookie validate_token get
OfLogin-validates jwt cm l c t o n h =
    let iss = o.iss in
    let aud = o.aud in
    let sub = o.sub in
    let proxyauth = o.proxyauth in
    let provider = o.provider in ground (arith, beq_refl cm.issuer, beq_refl cm.provider)

-- The claims of an ID token.
pub record OfIdToken (cm : CookieManager) (h : Host) (l : Login) (d : Claims) : Type 0 where
  pub iss : lookup "iss" d ≡ some (str cm.issuer)
  pub aud : lookup "aud" d ≡ some (audience_for_token h)
  pub sub : lookup "sub" d ≡ some (str l.user_id)
  pub email : lookup "email" d ≡ some (str l.email)
  pub sid : lookup "sid" d ≡ some (str l.session_id)
  pub proxyauth : lookup "proxyauth" d ≡ none

id_claims-OfIdToken :
    (cm : CookieManager) (h : Host) (l : Login) (now : ℕ) (c : Claims)
    → OfLogin cm l c
    → OfIdToken cm h l (id_claims h now c)
unfolding contains
id_claims-OfIdToken cm h l now c o = record {
  iss = lookup-id_claims h now c "iss" refl refl refl ∙ o.iss;
  aud =
      lookup-insert "aud" "aud" (audience_for_token h) (insert "iat" (num now) (without hidden c));
  sub = lookup-id_claims h now c "sub" refl refl refl ∙ o.sub;
  email = lookup-id_claims h now c "email" refl refl refl ∙ o.email;
  sid = lookup-id_claims h now c "sid" refl refl refl ∙ o.sid;
  proxyauth =
      lookup-insert "aud" "proxyauth" (audience_for_token h)
        (insert "iat" (num now) (without hidden c))
      ∙ (lookup-insert "iat" "proxyauth" (num now) (without hidden c)
          ∙ lookup-without hidden c "proxyauth");
}

audience-fits : (h : Host) → has_audience (audience_for_token h) (audience_from_req h) ≡ true
unfolding contains
audience-fits h = elim (Option-cases h.unicode) [
  | inl e ↦ rw e (beq_refl (audience_from_req h))
  | inr (u, e) ↦ elim (Bool-cases (u =? h.ascii)) [
    | inl f ↦ rw (e, f) (beq_refl (audience_from_req h))
    | inr f ↦ rw (e, f) (ground (arith, beq_refl (audience_from_req h)))
  ]
]

token-validates :
    (jwt : Jwt) (cm : CookieManager) (h : Host) (l : Login) (d : Claims) (t : String)
    → OfIdToken cm h l d
    → jwt.parse t ≡ some d
    → validate_token jwt cm.issuer (audience_from_req h) t ≡ some d
unfolding validate_token get
token-validates jwt cm h l d t o p =
    let iss = o.iss in let aud = o.aud in ground (arith, beq_refl cm.issuer, audience-fits h)

header-accepts :
    (jwt : Jwt) (cm : CookieManager) (h : Host) (l : Login) (d : Claims) (header t : String)
    → OfIdToken cm h l d
    → jwt.parse t ≡ some d
    → bearer_from "BEARER " header ≡ some t
    → validate_authorization_header jwt cm h header ≡ some d
unfolding validate_authorization_header get
header-accepts jwt cm h l d header t o p b =
    let none_there = o.proxyauth in ground (arith, token-validates jwt cm h l d t o p)

cookie-accepts :
    (jwt : Jwt) (cm : CookieManager) (h : Host) (l : Login) (c d : Claims) (t : String)
    → OfLogin cm l c
    → OfIdToken cm h l d
    → jwt.parse t ≡ some d
    → validate_id_token_cookie jwt cm h c (some t) ≡ true
unfolding validate_id_token_cookie get
cookie-accepts jwt cm h l c d t o i p =
    let a = o.sub in
    let b = o.sid in
    let x = i.sub in
    let y = i.sid in
    ground (arith, token-validates jwt cm h l d t i p, beq_refl l.user_id, beq_refl l.session_id)

cookie-rejects :
    (jwt : Jwt) (cm : CookieManager) (h : Host) (l : Login) (d : Claims) (t : String)
    → OfIdToken cm h l d
    → jwt.parse t ≡ some d
    → validate_auth_token_cookie jwt cm (some t) ≡ none
unfolding validate_auth_token_cookie validate_token get
cookie-rejects jwt cm h l d t o p = let none_there = o.proxyauth in ground arith

-- A user who has logged in gets a cookie that stands for this login, and the ID token made of it is
-- accepted as the ID token of the same session and in an authorization header of the same host,
-- with the user's address, but never as a login's cookie.
pub session :
    (jwt : Jwt) (cm : CookieManager) (l : Login) (extra : Claims) (h : Host) (now : ℕ)
    (t u header : String)
    → ReadsBack jwt (add_extra extra (auth_claims cm l)) ""
    → ReadsBack jwt (id_claims h now (add_extra extra (auth_claims cm l))) "ES256"
    → set_auth_token_cookie jwt cm l extra ≡ ok t
    → set_id_token_cookie jwt h now (add_extra extra (auth_claims cm l)) ≡ some u
    → bearer_from "BEARER " header ≡ some u
    → (c : Claims) × (d : Claims) × OfLogin cm l c
      × (validate_auth_token_cookie jwt cm (some t) ≡ some c)
      × (validate_id_token_cookie jwt cm h c (some u) ≡ true)
      × (validate_authorization_header jwt cm h header ≡ some d)
      × (get d "email" ≡ str l.email)
      × (validate_auth_token_cookie jwt cm (some u) ≡ none)
unfolding set_auth_token_cookie set_id_token_cookie get
session jwt cm l extra h now t u header r q a i b =
    let c = add_extra extra (auth_claims cm l) in
    let d = id_claims h now c in
    let empty = is_empty l.user_id || is_empty l.email in
    let (filled, made) = fail_if-ok empty "userID and email cannot be empty" _ a in
    let parsed = r t (or_fail-ok (jwt.create c "") "CreateToken" made) in
    let parsed_id = q u i in
    let o = add_extra-OfLogin cm l extra in
    let k = id_claims-OfIdToken cm h l now c o in
    (
      c,
      d,
      o,
      OfLogin-validates jwt cm l c t o (ground arith) parsed,
      cookie-accepts jwt cm h l c d u o k parsed_id,
      header-accepts jwt cm h l d header u k parsed_id b,
      email-same d l k.email,
      cookie-rejects jwt cm h l d u k parsed_id,
    )
  where
    email-same :
        (d : Claims) (l : Login)
        → lookup "email" d ≡ some (str l.email)
        → get d "email" ≡ str l.email
    email-same d l e = rw (get, e) refl
