-- ===== src/Http/Refusing.antt =====
-- Where the handlers of the HTTP server reply of their own, they send nothing of the backend.
use rp.Prelude.{
  ◌≡◌, refl, inl, inr, Bool, true, false, not, Option, none, some, if◌then◌else◌, Option-cases,
  arith,
}
use rp.Prelude.Text.{string_eq, ◌=?◌, contains}
use rp.Prelude.Words.{is_empty}
use rp.Prelude.Call.{ok, err, panic, ◌>>=◌, ◌>>◌, fail_if}
use rp.Http.{
  Claims, Request, Sso, LocalHandler, HttpBackend, HttpEnv, Reply, file, forward, served_locally,
  Handling,
}
use rp.Http.Paths.{path_clean}
use rp.Http.Static.{redirect_permanently}
use rp.Http.SignOn.{
  User, email_of, check_id_token, check_cookies, authenticate_user, exempt, must_log_in, listed,
  user_id, enforce_with, enforce_sso_policy, ask_to_log_in, serve_permission_denied,
}
use rp.Http.Handlers.{run_local, slash_missing, handle_with, handle_local_and_authorize, reply_of}

-- The reply carries something of the backend.
abbrev pub is_content : Reply → Bool
is_content (file p) = true
is_content (forward f) = true
is_content _ = false

-- Where a handler replies of its own, the reply carries nothing of the backend.
abbrev pub Refuses {ℓ} : {A : Type ℓ} → Handling A → Type 0
Refuses (ok a) = Unit
Refuses (err r) = is_content r ≡ false
Refuses panic = Unit

>>=-Refuses {ℓ κ} :
    {A : Type ℓ} {B : Type κ} (m : Handling A) (f : A → Handling B)
    → Refuses m
    → ((a : A) → Refuses (f a))
    → Refuses (m >>= f)
>>=-Refuses (ok a) f h k = k a
>>=-Refuses (err r) f h k = h
>>=-Refuses panic f h k = tt

fail_if-Refuses {ℓ} :
    {A : Type ℓ} (b : Bool) (r : Reply) (m : Handling A)
    → is_content r ≡ false
    → Refuses m
    → Refuses (fail_if b r >> m)
fail_if-Refuses true r m h k = h
fail_if-Refuses false r m h k = k

if-Refuses {ℓ} :
    {A : Type ℓ} (b : Bool) (m n : Handling A)
    → Refuses m
    → Refuses n
    → Refuses (if b then m else n)
if-Refuses true m n h k = h
if-Refuses false m n h k = k

check_id_token-Refuses :
    (env : HttpEnv) (be : HttpBackend) (sso : Sso) (req : Request) (c : Claims)
    → Refuses (check_id_token env be sso req c)
unfolding check_id_token
check_id_token-Refuses env be sso req c = if-Refuses (not sso.generate_id_tokens) _ _ tt (
    if-Refuses (not (contains be.server_names (env.host_from_req req.host))) _ _ tt
      (if-Refuses env.id_token_valid _ _ tt (if-Refuses env.id_token_set _ _ refl refl)))

check_cookies-Refuses :
    (env : HttpEnv) (be : HttpBackend) (sso : Sso) (req : Request)
    → Refuses (check_cookies env be sso req)
unfolding check_cookies
check_cookies-Refuses env be sso req = elim (Option-cases env.header_claims) [
  | inr (c, e) ↦ rw e tt
  | inl e ↦ elim (Option-cases env.cookie_claims) [
    | inl f ↦ rw (e, f) tt
    | inr (c, f) ↦
        rw (e, f)
          (if-Refuses (is_empty (email_of c)) _ _ tt (check_id_token-Refuses env be sso req c))
  ]
]

pub authenticate_user-Refuses :
    (env : HttpEnv) (be : HttpBackend) (req : Request) → Refuses (authenticate_user env be req)
unfolding authenticate_user
authenticate_user-Refuses env be req = elim (Option-cases be.sso) [
  | inl e ↦ rw e tt
  | inr (sso, e) ↦ rw e (
      >>=-Refuses (check_cookies env be sso req) _ (check_cookies-Refuses env be sso req) (λ c. tt))
]

ask-content :
    (env : HttpEnv) (sso : Sso) (req : Request) → is_content (ask_to_log_in env sso req) ≡ false
unfolding ask_to_log_in
ask-content env sso req = ground arith

enforce-Refuses :
    (env : HttpEnv) (be : HttpBackend) (req : Request) (claims : Option Claims)
    → Refuses (enforce_sso_policy env be req claims)
unfolding enforce_sso_policy enforce_with serve_permission_denied
enforce-Refuses env be req claims = elim (Option-cases be.sso) [
  | inl e ↦ rw e tt
  | inr (sso, e) ↦ rw e (
      if-Refuses (exempt sso req.path) _ _ tt (
        if-Refuses (must_log_in env sso req claims) _ _ (ask-content env sso req)
          (if-Refuses (not (listed sso.acl (user_id claims))) _ _ (ground arith) tt)))
]

run_local-Refuses :
    (env : HttpEnv) (be : HttpBackend) (req : Request) (user : User) (h : LocalHandler)
    → Refuses (run_local env be req user h)
unfolding run_local redirect_permanently
run_local-Refuses env be req user h =
    let unclean = not (path_clean req.path =? req.path) in
    let moved = redirect_permanently req.method (path_clean req.path) in
    >>=-Refuses (if h.sso_bypass then ok tt else enforce_sso_policy env be req user.claims) _
      (if-Refuses h.sso_bypass _ _ tt (enforce-Refuses env be req user.claims))
      (λ u. fail_if-Refuses unclean moved (err (served_locally h.name)) refl refl)

slash_missing-Refuses : (req : Request) (o : Option LocalHandler) → Refuses (slash_missing req o)
unfolding redirect_permanently
slash_missing-Refuses req none = tt
slash_missing-Refuses req (some h) = refl

handle_with-Refuses :
    (env : HttpEnv) (be : HttpBackend) (req : Request) (user : User) (o : Option LocalHandler)
    → Refuses (handle_with env be req user o)
handle_with-Refuses env be req user (some h) = run_local-Refuses env be req user h
handle_with-Refuses env be req user none =
    >>=-Refuses (enforce_sso_policy env be req user.claims) _
      (enforce-Refuses env be req user.claims) (λ u. slash_missing-Refuses req _)

pub handle_local-Refuses :
    (env : HttpEnv) (be : HttpBackend) (req : Request) (user : User)
    → Refuses (handle_local_and_authorize env be req user)
unfolding handle_local_and_authorize
handle_local-Refuses env be req user = handle_with-Refuses env be req user _

-- A reply with content comes from the end of the chain.
reply_of-content :
    (m : Handling Reply) (r : Reply)
    → Refuses m
    → reply_of m ≡ ok r
    → is_content r ≡ true
    → m ≡ ok r
reply_of-content (ok s) r h e c = e
reply_of-content (err s) r h e c = let same : s ≡ r = cc in absurd (cc)
reply_of-content panic r h e c = absurd (cc)

after_one :
    (m : Handling (Unit {0})) (k : Handling Reply) (r : Reply)
    → Refuses m
    → reply_of (m >> k) ≡ ok r
    → is_content r ≡ true
    → (m ≡ ok tt) × (reply_of k ≡ ok r)
after_one (ok u) k r h e c = (refl, e)
after_one (err s) k r h e c = let same : s ≡ r = cc in absurd (cc)
after_one panic k r h e c = absurd (cc)

-- A reply with content comes after the steps that only refuse.
pub after_both :
    {A : Type 0} (m : Handling A) (n : A → Handling (Unit {0})) (k : A → Handling Reply) (r : Reply)
    → Refuses m
    → ((a : A) → Refuses (n a))
    → reply_of (m >>= λ a. n a >> k a) ≡ ok r
    → is_content r ≡ true
    → (a : A) × (m ≡ ok a) × (n a ≡ ok tt) × (reply_of (k a) ≡ ok r)
after_both (err s) n k r h j e c = let same : s ≡ r = cc in absurd (cc)
after_both panic n k r h j e c = absurd (cc)
after_both (ok a) n k r h j e c =
    let (passed, rest) = after_one (n a) (k a) r (j a) e c in (a, refl, passed, rest)
