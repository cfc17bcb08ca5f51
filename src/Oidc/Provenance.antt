-- ===== src/Oidc/Provenance.antt =====
-- Which claims of a token neither the user nor the rewrite rules can choose.
use Prim.Native.String.{String}
use rp.Prelude.{
  ℕ, ◌+◌, ◌/◌, ◌≡◌, ◌∙◌, refl, Bool, not, ◌&&◌, Option, some, none, true, false, List, [], ◌∷◌,
  ◌||◌, if◌then◌else◌, Option-cases, Bool-cases, inl, inr, arith,
}
use rp.Prelude.Text.{string_eq, ◌=?◌, contains}
use rp.Prelude.Map.{lookup, insert, lookup-insert}
use rp.Oidc.Scopes.{
  Claims, Claim, text, num, flag, RewriteRule, Rewriter, rewrite_claims, apply_rewrite_rules,
  copy_claims, email_claims, granted_claims, granted_scope, get_claim, is_null, profile_claims,
  split, subject,
}
use rp.Oidc.{ServerOptions, AuthEnv, AuthRequest, base_claims, token_claims, second}

-- Some rule writes the claim.
unfoldable pub is_output : List RewriteRule → String → Bool
is_output [] k = false
is_output (r ∷ rules) k = r.output_claim =? k || is_output rules k

lookup-rewrite_claims :
    (rewriter : Rewriter) (rules : List RewriteRule) (buf out : Claims) (k : String)
    → is_output rules k ≡ false
    → lookup k (rewrite_claims rewriter rules buf out) ≡ lookup k out
unfolding rewrite_claims is_output
lookup-rewrite_claims rewriter [] buf out k h = refl
lookup-rewrite_claims rewriter (r ∷ rules) buf out k h =
    elim (Option-cases (rewriter.replace r.regex (rewriter.input buf r.input_claim) r.value)) [
      | inl e ↦ ground (arith, lookup-rewrite_claims rewriter rules buf out k)
      | inr (v, e) ↦ ground (
        arith,
        lookup-rewrite_claims rewriter rules (insert r.output_claim (text v) buf)
            (insert r.output_claim (text v) out) k,
        lookup-insert r.output_claim k (text v) out,
      )
    ]

lookup-copy_claims :
    (names : List String) (user c : Claims) (k : String)
    → contains names k ≡ false
    → lookup k (copy_claims names user c) ≡ lookup k c
unfolding copy_claims contains
lookup-copy_claims [] user c k h = refl
lookup-copy_claims (n ∷ names) user c k h = elim (Bool-cases (is_null (get_claim user n))) [
  | inl p ↦ ground (arith, lookup-copy_claims names user c k)
  | inr p ↦ ground (
    arith,
    lookup-copy_claims names user (insert n (get_claim user n) c) k,
    lookup-insert n k (get_claim user n) c,
  )
]

-- The claims that scopes grant.
abbrev pub is_granted : String → Bool
is_granted k = contains profile_claims k || "email" =? k || "email_verified" =? k || "scope" =? k

lookup-email_claims :
    (user c : Claims) (k : String)
    → is_granted k ≡ false
    → lookup k (email_claims user c) ≡ lookup k c
unfolding email_claims
lookup-email_claims user c k h = ground (
  arith,
  lookup-insert "email_verified" k (flag true) (insert "email" (get_claim user "email") c),
  lookup-insert "email" k (get_claim user "email") c,
)

lookup-granted_claims :
    (scopes : List String) (user c : Claims) (k : String)
    → is_granted k ≡ false
    → lookup k (granted_claims scopes user c) ≡ lookup k c
unfolding granted_claims
lookup-granted_claims scopes user c k h =
    let d = if contains scopes "email" then email_claims user c else c in
    let e : lookup k d ≡ lookup k c = ground (arith, lookup-email_claims user c k) in
    ground (arith, lookup-copy_claims profile_claims user d k)

-- What the server says in a token, by the names of the claims: the time in seconds and five minutes
-- after it, its own name, the client, the user, and the nonce of the request, if there is one.
unfoldable pub server_claim : ServerOptions → ℕ → AuthRequest → String → String → Option Claim
server_claim opts now req sub k =
    if "nonce" =? k && not (req.nonce =? "")
    then some (text req.nonce)
    else if "iat" =? k
    then some (num (now / second))
    else if "exp" =? k
    then some (num (now / second + 300))
    else if "iss" =? k
    then some (text opts.issuer)
    else if "aud" =? k
    then some (text req.client_id)
    else if "sub" =? k
    then some (text sub)
    else none

five_minutes : (now : ℕ) → (now + 300000000000) / second ≡ now / second + 300
five_minutes now = omega arith

lookup-base_claims :
    (opts : ServerOptions) (now : ℕ) (req : AuthRequest) (sub k : String)
    → is_granted k ≡ false
    → lookup k (base_claims opts.issuer now req.client_id sub req.nonce)
      ≡ server_claim opts now req sub k
unfolding base_claims server_claim lookup
lookup-base_claims opts now req sub k g =
    let rest : Claims =
      ("iat", num (now / second))
      ∷ ("exp", num ((now + 300000000000) / second))
      ∷ ("iss", text opts.issuer)
      ∷ ("aud", text req.client_id)
      ∷ ("sub", text sub)
      ∷ ("scope", text "openid")
      ∷ [] in
    ground (arith, five_minutes now, lookup-insert "nonce" k (text req.nonce) rest)

-- A claim of a token that no scope grants and that no rewrite rule writes is the server's: `iat` is
-- the time in seconds, `exp` is five minutes later, `iss` is the server's own name, `aud` the
-- client, `sub` the user's own subject, `nonce` that of the request where it is not empty, and
-- there is no other such claim. So it is whatever else the user's claims, the requested scope and
-- the rules say.
pub lookup-token_claims :
    (opts : ServerOptions) (env : AuthEnv) (req : AuthRequest) (user : Claims) (k : String)
    → is_granted k ≡ false
    → is_output opts.rewrite_rules k ≡ false
    → lookup k (token_claims opts env req user) ≡ server_claim opts env.now req (subject user) k
unfolding token_claims apply_rewrite_rules
lookup-token_claims opts env req user k g o =
    let scopes = split req.scope in
    let c = base_claims opts.issuer env.now req.client_id (subject user) req.nonce in
    let d = granted_claims scopes user c in
    let e = insert "scope" (text (granted_scope scopes)) d in
    let scope_else : lookup k e ≡ lookup k d =
      ground (arith, lookup-insert "scope" k (text (granted_scope scopes)) d) in
    lookup-rewrite_claims env.rewriter opts.rewrite_rules user e k o
    ∙ scope_else
    ∙ lookup-granted_claims scopes user c k g
    ∙ lookup-base_claims opts env.now req (subject user) k g
