-- ===== src/Oidc/Scopes.antt =====
-- The claims of a token: which a scope grants, which rewrite rules add, and which userinfo hides.
use Prim.Native.Char.{Char, code}
use Prim.Native.String.{String, ◌++◌ as str_append}
use rp.Prelude.{
  ℕ, ◌+◌, Bool, true, false, ◌&&◌, Option, none, some, List, [], ◌∷◌, leb, ◌==◌, if◌then◌else◌,
}
use rp.Prelude.Text.{string_eq, contains}
use rp.Prelude.Map.{Map, lookup, insert}

-- A value of a claim, where `null` is nil, and `other` any JSON array or object.
pub data Claim : Type 0 where
  text : String → Claim
  num : ℕ → Claim
  flag : Bool → Claim
  null : Claim
  other : ℕ → Claim

abbrev pub Claims : Type 0
Claims = Map String Claim

-- `claims[k]` is nil for a missing key.
unfoldable pub get_claim : Claims → String → Claim
get_claim c k = elim (lookup k c) [ none ↦ null | some v ↦ v ]

-- `sub, _ := userClaims.GetSubject()`
unfoldable pub subject : Claims → String
unfolding get_claim
subject c = elim (get_claim c "sub") [ text s ↦ s | _ ↦ "" ]

abbrev pub on_first : Char → List String → List String
on_first c [] = String.◌∷◌ c "" ∷ []
on_first c (w ∷ ws) = String.◌∷◌ c w ∷ ws

-- `strings.Split(s, " ")`
unfoldable pub split : String → List String
split String.[] = "" ∷ []
split (String.◌∷◌ c s) = if code c == 32 then "" ∷ split s else on_first c (split s)

abbrev pub profile_claims : List String
profile_claims =
    "name" ∷ "family_name" ∷ "given_name" ∷ "middle_name" ∷ "nickname" ∷ "preferred_username"
    ∷ "profile" ∷ "picture" ∷ "website" ∷ "gender" ∷ "birthdate" ∷ "zoneinfo" ∷ "locale" ∷ []

abbrev pub is_null : Claim → Bool
is_null null = true
is_null _ = false

-- `if vv := userClaims[v]; vv != nil { claims[v] = vv }` for each name.
unfoldable pub copy_claims : List String → Claims → Claims → Claims
unfolding get_claim
copy_claims [] user c = c
copy_claims (n ∷ names) user c =
    copy_claims names user (if is_null (get_claim user n) then c else insert n (get_claim user n) c)

unfoldable pub email_claims : Claims → Claims → Claims
unfolding get_claim
email_claims user c =
    insert "email_verified" (flag true) (insert "email" (get_claim user "email") c)

unfoldable pub granted_claims : List String → Claims → Claims → Claims
unfolding email_claims copy_claims
granted_claims scopes user c =
    let d = if contains scopes "email" then email_claims user c else c in
    if contains scopes "profile" then copy_claims profile_claims user d else d

unfoldable pub granted_scope : List String → String
granted_scope scopes =
    let sc = if contains scopes "email" then str_append "openid" " email" else "openid" in
    if contains scopes "profile" then str_append sc " profile" else sc

pub record RewriteRule : Type 0 where
  pub input_claim : String
  pub output_claim : String
  pub regex : String
  pub value : String

-- What the rules use of `os.Expand`, `fmt.Sprint`, `strings` and `regexp`: the input of a rule, from
-- the claims; and the text that replaces it, which is `none` if the expression does not compile or
-- does not match.
pub record Rewriter : Type 0 where
  pub input : Claims → String → String
  pub replace : String → String → String → Option String

-- `buf` starts as a copy of the user's claims, and holds the outputs of earlier rules.
unfoldable pub rewrite_claims : Rewriter → List RewriteRule → Claims → Claims → Claims
rewrite_claims rw [] buf out = out
rewrite_claims rw (r ∷ rules) buf out =
    let rest = rewrite_claims rw rules buf out in
    elim (rw.replace r.regex (rw.input buf r.input_claim) r.value) [
      | none ↦ rest
      | some v ↦
          rewrite_claims rw rules (insert r.output_claim (text v) buf)
            (insert r.output_claim (text v) out)
    ]

unfoldable pub apply_rewrite_rules : Rewriter → List RewriteRule → Claims → Claims → Claims
unfolding rewrite_claims
apply_rewrite_rules rw rules user out = rewrite_claims rw rules user out

abbrev pub hidden : List String
hidden = "iss" ∷ "aud" ∷ "iat" ∷ "exp" ∷ "nbf" ∷ "scope" ∷ "sid" ∷ "nonce" ∷ []

abbrev pub hidden_claim : String → Bool
hidden_claim k = contains hidden k

unfoldable pub without_hidden : Claims → Claims
without_hidden [] = []
without_hidden ((k, v) ∷ c) = if hidden_claim k then without_hidden c else (k, v) ∷ without_hidden c

-- A letter of ASCII in lower case.
abbrev pub lower : ℕ → ℕ
lower c = if leb b'A' c && leb c b'Z' then c + 32 else c

-- `s[n:]` if the first `n` bytes of `s` are the prefix, which is in lower case and has `n` bytes,
-- up to the case of the letters.
unfoldable pub strip_fold : String → String → Option String
strip_fold String.[] s = some s
strip_fold (String.◌∷◌ p ps) String.[] = none
strip_fold (String.◌∷◌ p ps) (String.◌∷◌ c s) =
    if lower (code c) == code p then strip_fold ps s else none

unfoldable pub strip_bearer : String → Option String
unfolding strip_fold
strip_bearer h = strip_fold "bearer " h
