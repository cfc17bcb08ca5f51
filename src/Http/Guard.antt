-- ===== src/Http/Guard.antt =====
-- Who gets what the HTTP server of a backend sends: a file, or what the backend's server answers.
use Prim.Native.String.{String}
use rp.Prelude.{
  ℕ, ◌≡◌, ◌≢◌, refl, ap, ◌∙◌, ◌⊎◌, inl, inr, true, false, not, Option, none, some, List,
  if◌then◌else◌, Bool-cases, Option-cases, arith,
}
use rp.Prelude.Text.{string_eq, ◌=?◌, IsIn, here, there}
use rp.Prelude.Words.{is_empty, has_prefix}
use rp.Prelude.Call.{ok, err, ◌>>=◌, >>=-ok, fail_if-ok, ok-injective}
use rp.Http.{Claims, Request, Sso, LocalHandler, HttpBackend, HttpEnv, Reply, served_locally}
use rp.Http.Paths.{path_clean, any_prefix}
use rp.Routing.{is_nil}
use rp.Http.Static.{redirect_permanently, serve_static_files}
use rp.Http.SignOn.{
  User, email_of, check_id_token, check_cookies, user_of, authenticate_user, exempt, must_log_in,
  path_matches, listed, enforce_with, enforce_sso_policy,
}
use rp.Http.Handlers.{
  run_local, handle_with, handle_local_and_authorize, local_handler, route, reverse_proxy,
}
use rp.Http.Refusing.{is_content, after_both, authenticate_user-Refuses, handle_local-Refuses}

-- A claim that the proxy has verified: of the authorization header or of the cookie.
abbrev pub Verified : HttpEnv → Claims → Type 0
Verified env c = (env.header_claims ≡ some c) ⊎ (env.cookie_claims ≡ some c)

pub check_cookies-Verified :
    (env : HttpEnv) (be : HttpBackend) (sso : Sso) (req : Request) (c : Claims)
    → check_cookies env be sso req ≡ ok (some c)
    → Verified env c
unfolding check_cookies check_id_token
check_cookies-Verified env be sso req c h = elim (Option-cases env.header_claims) [
  | inr (d, e) ↦ inl (ground arith)
  | inl e ↦ elim (Option-cases env.cookie_claims) [
    | inl f ↦ absurd (ground arith)
    | inr (d, f) ↦ inr (ground arith)
  ]
]

pub user_of-some :
    (sso : Sso) (o : Option Claims) (c : Claims)
    → (user_of sso o).claims ≡ some c
    → (o ≡ some c) × (is_empty (email_of c) ≡ false)
user_of-some sso none c h = absurd (ground arith)
user_of-some sso (some d) c h = elim (Bool-cases (is_empty (email_of d))) [
  | inl e ↦ absurd (ground arith)
  | inr e ↦ let same : d ≡ c = ground arith in (ap some same, rw (← same) e)
]

-- The policy lets the user in: verified claims that name a user of the access list, if there is
-- one, and are recent and of this host if the backend wants that.
pub record Admitted (env : HttpEnv) (sso : Sso) (req : Request) : Type 0 where
  pub claims : Claims
  pub verified : Verified env claims
  pub names_user : is_empty (email_of claims) ≡ false
  pub recent : must_log_in env sso req (some claims) ≡ false
  pub on_list : listed sso.acl (email_of claims) ≡ true

enforced :
    (env : HttpEnv) (sso : Sso) (req : Request) (claims : Option Claims)
    → enforce_with env sso req claims ≡ ok tt
    → exempt sso req.path ≡ false
    → (c : Claims) × (claims ≡ some c)
      × (must_log_in env sso req (some c) ≡ false)
      × (listed sso.acl (email_of c) ≡ true)
unfolding enforce_with
enforced env sso req none h x = absurd (ground arith)
enforced env sso req (some c) h x = elim (Bool-cases (must_log_in env sso req (some c))) [
  | inl e ↦ absurd (ground arith)
  | inr e ↦ elim (Bool-cases (listed sso.acl (email_of c))) [
    | inl f ↦ (c, refl, e, f)
    | inr f ↦ absurd (ground arith)
  ]
]

-- Both steps together.
admitted :
    (env : HttpEnv) (be : HttpBackend) (sso : Sso) (req : Request) (user : User)
    → be.sso ≡ some sso
    → authenticate_user env be req ≡ ok user
    → enforce_sso_policy env be req user.claims ≡ ok tt
    → exempt sso req.path ≡ false
    → Admitted env sso req
unfolding authenticate_user enforce_sso_policy
admitted env be sso req user s a e x =
    let (c, held, recent, on_list) = enforced env sso req user.claims (ground arith) x in
    let known : (check_cookies env be sso req >>= λ claims. ok (user_of sso claims)) ≡ ok user =
      ground arith in
    let (o, cookies, same) =
      >>=-ok (check_cookies env be sso req) (λ claims. ok (user_of sso claims)) known in
    let (found, named) =
      user_of-some sso o c (ap (λ (u : User). u.claims) (ok-injective same) ∙ held) in
    record {
      claims = c;
      verified = check_cookies-Verified env be sso req c (cookies ∙ ap ok found);
      names_user = named;
      recent = recent;
      on_list = on_list;
    }

-- A handler of the proxy itself always replies.
run_local-replies :
    (env : HttpEnv) (be : HttpBackend) (req : Request) (user : User) (h : LocalHandler)
    → run_local env be req user h ≢ ok tt
unfolding run_local
run_local-replies env be req user h e =
    let unclean = not (path_clean req.path =? req.path) in
    let moved = redirect_permanently req.method (path_clean req.path) in
    let (u, first, rest) =
      >>=-ok (if h.sso_bypass then ok tt else enforce_sso_policy env be req user.claims) _ e in
    let (same, last) = fail_if-ok unclean moved (err (served_locally h.name)) rest in
    absurd (cc last)

handle_with-enforced :
    (env : HttpEnv) (be : HttpBackend) (req : Request) (user : User) (o : Option LocalHandler)
    → handle_with env be req user o ≡ ok tt
    → enforce_sso_policy env be req user.claims ≡ ok tt
handle_with-enforced env be req user (some h) e = absurd (run_local-replies env be req user h e)
handle_with-enforced env be req user none e =
    let (u, first, rest) = >>=-ok (enforce_sso_policy env be req user.claims) _ e in first

-- No handler of the proxy itself takes the request, and so the policy is enforced.
local-enforced :
    (env : HttpEnv) (be : HttpBackend) (req : Request) (user : User)
    → handle_local_and_authorize env be req user ≡ ok tt
    → enforce_sso_policy env be req user.claims ≡ ok tt
unfolding handle_local_and_authorize
local-enforced env be req user h = handle_with-enforced env be req user _ h

-- Where the backend has a single sign-on policy, a file or an answer of its server is sent only if
-- the policy exempts the path, or lets in the user that verified claims name.
pub reverse_proxy-Admitted :
    (env : HttpEnv) (decimal : ℕ → String) (be : HttpBackend) (req : Request) (sso : Sso)
    (r : Reply)
    → be.sso ≡ some sso
    → reverse_proxy env decimal be req ≡ ok r
    → is_content r ≡ true
    → (exempt sso req.path ≡ true) ⊎ Admitted env sso req
unfolding reverse_proxy
reverse_proxy-Admitted env decimal be req sso r s h c =
    let (user, known, local, rest) =
      after_both (authenticate_user env be req) (λ user. handle_local_and_authorize env be req user)
        (λ user. route env decimal be req user) r (authenticate_user-Refuses env be req)
        (λ user. handle_local-Refuses env be req user) h c in
    elim (Bool-cases (exempt sso req.path)) [
      | inl e ↦ inl e
      | inr e ↦ inr (admitted env be sso req user s known (local-enforced env be req user local) e)
    ]

-- The same of a backend that the proxy serves itself.
pub local_handler-Admitted :
    (env : HttpEnv) (be : HttpBackend) (req : Request) (sso : Sso) (r : Reply)
    → be.sso ≡ some sso
    → local_handler env be req ≡ ok r
    → is_content r ≡ true
    → (exempt sso req.path ≡ true) ⊎ Admitted env sso req
unfolding local_handler
local_handler-Admitted env be req sso r s h c =
    let (user, known, local, rest) =
      after_both (authenticate_user env be req) (λ user. handle_local_and_authorize env be req user)
        (λ user. ok (serve_static_files be.document_root req.method req.path "")) r
        (authenticate_user-Refuses env be req) (λ user. handle_local-Refuses env be req user) h c in
    elim (Bool-cases (exempt sso req.path)) [
      | inl e ↦ inl e
      | inr e ↦ inr (admitted env be sso req user s known (local-enforced env be req user local) e)
    ]

any_prefix-raw :
    (e path clean : String) {ps : List String}
    → IsIn e ps
    → has_prefix path e ≡ true
    → any_prefix ps path clean ≡ true
unfolding any_prefix
any_prefix-raw e path clean (here {x} {xs} same) h = rw same (ground arith)
any_prefix-raw e path clean (there {x} {xs = ys} i) h =
    ground (arith, any_prefix-raw e path clean i h)

is_nil-IsIn : {e : String} {ps : List String} → IsIn e ps → is_nil ps ≡ false
is_nil-IsIn (here same) = refl
is_nil-IsIn (there i) = refl

-- Nobody is asked to log in for a path that starts with a prefix of the exceptions as it was sent,
-- whatever the path is once it is cleaned.
pub raw_exception :
    (env : HttpEnv) (be : HttpBackend) (sso : Sso) (req : Request) (claims : Option Claims)
    (e : String)
    → be.sso ≡ some sso
    → IsIn e sso.exceptions
    → has_prefix req.path e ≡ true
    → enforce_sso_policy env be req claims ≡ ok tt
unfolding enforce_sso_policy enforce_with exempt path_matches
raw_exception env be sso req claims e s i h =
    ground (arith, is_nil-IsIn i, any_prefix-raw e req.path (path_clean req.path) i h)
