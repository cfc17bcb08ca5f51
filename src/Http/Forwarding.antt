-- ===== src/Http/Forwarding.antt =====
-- What reaches the backend's server: the host name, the path, the user's name, and the hops.
use Prim.Native.String.{String, ◌++◌ as str_append}
use text.Mathlib.TextLemmas.{nil-append, cons-append}
use rp.Prelude.{
  ℕ, suc, ◌≡◌, ◌≢◌, refl, sym, ap, ◌∙◌, inl, inr, Bool, true, false, not, ◌&&◌, ◌||◌, Option, none,
  some, List, [], ◌∷◌, ◌++◌, if◌then◌else◌, Bool-cases, Option-cases, arith,
}
use rp.Prelude.Text.{string_eq, contains, beq_refl}
use rp.Prelude.Words.{is_empty}
use rp.Prelude.Call.{ok, err, panic, ◌>>=◌, ◌>>◌, fail_if, >>=-ok, ok-injective}
use rp.Routing.{is_nil}
use rp.Http.{
  Claims, Request, Root, Sso, Override, HttpBackend, HttpEnv, Forwarded, Reply, http_error, forward,
  Handling,
}
use rp.Http.Paths.{path_clean, cut, has_char, clean_parts}
use rp.Http.Clean.{Cleaned, path_clean_iff, path_clean_idem}
use rp.Http.Static.{
  redirect_permanently, open_file, serve_found, serve_parts, serve_static_files, parts_below,
}
use rp.Http.SignOn.{User, email_of, user_of, nobody, check_cookies, authenticate_user}
use rp.Http.Handlers.{
  Settled, or_true, use_override, try_prefixes, apply_overrides, has_hop, forwarded, reply_of,
  route, reverse_proxy, handle_local_and_authorize,
}
use rp.Http.Refusing.{after_both, authenticate_user-Refuses, handle_local-Refuses}
use rp.Http.Guard.{Verified, check_cookies-Verified}

abbrev is_forward : Reply → Bool
is_forward (forward f) = true
is_forward _ = false

abbrev Keeps {ℓ} : {A : Type ℓ} → Handling A → Type 0
Keeps (ok a) = Unit
Keeps (err r) = is_forward r ≡ false
Keeps panic = Unit

open_file-Keeps : (root : Root) (p : List String) → is_forward (open_file root p) ≡ false
unfolding open_file
open_file-Keeps root p = ground arith

serve_found-Keeps :
    (root : Root) (method path : String) (p : List String) (dir : Bool)
    → is_forward (serve_found root method path p dir) ≡ false
unfolding serve_found redirect_permanently
serve_found-Keeps root method path p true =
    ground (arith, open_file-Keeps root (p ++ "index.html" ∷ []))
serve_found-Keeps root method path p false = ground (arith, open_file-Keeps root p)

serve_static-Keeps :
    (doc : Option Root) (method path prefix : String)
    → is_forward (serve_static_files doc method path prefix) ≡ false
unfolding serve_static_files serve_parts redirect_permanently
serve_static-Keeps none method path prefix = refl
serve_static-Keeps (some root) method path prefix =
    let parts = parts_below path prefix in
    ground (
      arith,
      serve_found-Keeps root method path (clean_parts parts) true,
      serve_found-Keeps root method path (clean_parts parts) false,
    )

try_prefixes-Keeps :
    (be : HttpBackend) (req : Request) (i : ℕ) (po : Override) (prefixes : List String)
    → Keeps (try_prefixes be req i po prefixes)
unfolding try_prefixes redirect_permanently use_override
try_prefixes-Keeps be req i po [] = tt
try_prefixes-Keeps be req i po (prefix ∷ prefixes) = ground (
  arith,
  try_prefixes-Keeps be req i po prefixes,
  serve_static-Keeps po.document_root req.method req.path prefix,
)

>>=-Keeps {ℓ κ} :
    {A : Type ℓ} {B : Type κ} (m : Handling A) (f : A → Handling B)
    → Keeps m
    → ((a : A) → Keeps (f a))
    → Keeps (m >>= f)
>>=-Keeps (ok a) f h k = k a
>>=-Keeps (err r) f h k = h
>>=-Keeps panic f h k = tt

apply_overrides-Keeps :
    (be : HttpBackend) (req : Request) (i : ℕ) (pos : List Override)
    → Keeps (apply_overrides be req i pos)
unfolding apply_overrides
apply_overrides-Keeps be req i [] = tt
apply_overrides-Keeps be req i (po ∷ pos) =
    >>=-Keeps (try_prefixes be req i po po.paths) _ (try_prefixes-Keeps be req i po po.paths)
      (λ found.
        elim found
          as (λ o.
            Keeps {A = Settled}
              (elim o [ none ↦ apply_overrides be req (suc i) pos | some s ↦ ok s ])) [
                | none ↦ apply_overrides-Keeps be req (suc i) pos
                | some s ↦ tt
              ])

-- A request that is forwarded has passed each step.
past {ℓ} :
    {A : Type ℓ} (m : Handling A) (k : A → Handling Reply) (f : Forwarded)
    → Keeps m
    → reply_of (m >>= k) ≡ ok (forward f)
    → (a : A) × (m ≡ ok a) × (reply_of (k a) ≡ ok (forward f))
past (ok a) k f h e = (a, refl, e)
past (err r) k f h e = let same : r ≡ forward f = cc in absurd (cc)
past panic k f h e = absurd (cc)

past_test :
    (b : Bool) (r : Reply) (k : Handling Reply) (f : Forwarded)
    → is_forward r ≡ false
    → reply_of (fail_if b r >> k) ≡ ok (forward f)
    → (b ≡ false) × (reply_of k ≡ ok (forward f))
past_test false r k f h e = (refl, e)
past_test true r k f h e = let same : r ≡ forward f = cc in absurd (cc)

-- What `route` has found when it forwards.
pub record Routed (env : HttpEnv) (decimal : ℕ → String) (be : HttpBackend) (req : Request)
    (user : User) (f : Forwarded) : Type 0 where
  pub settled : Settled
  pub on_host :
      contains be.server_names
        (env.hostname (if is_empty req.host then env.server_name else req.host))
      ≡ true
  pub no_loop : has_hop env.local_addr req.hops ≡ false
  pub chosen : apply_overrides be req 0 be.path_overrides ≡ ok settled
  pub same : forwarded env decimal be req user settled ≡ f

route-Routed :
    (env : HttpEnv) (decimal : ℕ → String) (be : HttpBackend) (req : Request) (user : User)
    (f : Forwarded)
    → reply_of (route env decimal be req user) ≡ ok (forward f)
    → Routed env decimal be req user f
unfolding route
route-Routed env decimal be req user f h =
    let named =
      contains be.server_names
        (env.hostname (if is_empty req.host then env.server_name else req.host)) in
    let (a, h1) = past_test (not named) (http_error 421) _ f refl h in
    let (b, h2) =
      past_test (not env.first_request && not env.wait_ok) (http_error 500) _ f refl h1 in
    let (s, c, h3) =
      past (apply_overrides be req 0 be.path_overrides) _ f
        (apply_overrides-Keeps be req 0 be.path_overrides) h2 in
    let static = serve_static_files be.document_root req.method req.path "" in
    let (d, h4) =
      past_test (is_nil be.addresses) static _ f
        (serve_static-Keeps be.document_root req.method req.path "") h3 in
    let (e, h5) = past_test (has_hop env.local_addr req.hops) (http_error 508) _ f refl h4 in
    record { settled = s; on_host = ground arith; no_loop = e; chosen = c; same = cc }

-- A run of the handler that forwards.
reverse_proxy-Routed :
    (env : HttpEnv) (decimal : ℕ → String) (be : HttpBackend) (req : Request) (f : Forwarded)
    → reverse_proxy env decimal be req ≡ ok (forward f)
    → (user : User) × (authenticate_user env be req ≡ ok user) × Routed env decimal be req user f
unfolding reverse_proxy
reverse_proxy-Routed env decimal be req f h =
    let (user, known, local, rest) =
      after_both (authenticate_user env be req) (λ user. handle_local_and_authorize env be req user)
        (λ user. route env decimal be req user) (forward f) (authenticate_user-Refuses env be req)
        (λ user. handle_local-Refuses env be req user) h refl in
    (user, known, route-Routed env decimal be req user f rest)

has_hop-append :
    (me : String) (xs ys : List String) → has_hop me (xs ++ ys) ≡ (has_hop me xs || has_hop me ys)
unfolding has_hop
has_hop-append me [] ys = refl
has_hop-append me (x ∷ xs) ys = ground (arith, has_hop-append me xs ys)

cut-own :
    (proto me : String)
    → has_char b' ' proto ≡ false
    → cut b' ' (str_append (str_append proto " ") me) ≡ me
unfolding cut has_char
cut-own String.[] me h = unfold cut in rw (cons-append " " "" me, nil-append) refl
cut-own (String.◌∷◌ c s) me h =
    let ih = cut-own s me (ground arith) in rw (cons-append, cons-append) (ground (arith, ih))

-- The hops that are sent name this proxy.
carried :
    (me : String) (hops : List String) (proto : String)
    → has_char b' ' proto ≡ false
    → has_hop me (hops ++ str_append (str_append proto " ") me ∷ []) ≡ true
unfolding has_hop
carried me hops proto p = ground (
  arith,
  has_hop-append me hops (str_append (str_append proto " ") me ∷ []),
  cut-own proto me p,
  beq_refl me,
)

-- A request that the proxy has forwarded carries the proxy's address, and when it comes back, with
-- any further hops and to any handler behind the same address, it is not forwarded again.
pub forwarded-once :
    (env env2 : HttpEnv) (decimal : ℕ → String) (be be2 : HttpBackend) (req req2 : Request)
    (f g : Forwarded) (more : List String)
    → has_char b' ' req.proto ≡ false
    → reverse_proxy env decimal be req ≡ ok (forward f)
    → env2.local_addr ≡ env.local_addr
    → req2.hops ≡ f.hops ++ more
    → reverse_proxy env2 decimal be2 req2 ≢ ok (forward g)
unfolding forwarded
forwarded-once env env2 decimal be be2 req req2 f g more p h a e k =
    let first = (reverse_proxy-Routed env decimal be req f h).2 in
    let again = (reverse_proxy-Routed env2 decimal be2 req2 g k).2 in
    let own = str_append (str_append req.proto " ") env.local_addr ∷ [] in
    let hops : req.hops ++ own ≡ f.hops = ap (λ (f : Forwarded). f.hops) first.same in
    let seen : has_hop env2.local_addr req2.hops ≡ true = ground (
      arith,
      e,
      a,
      hops,
      has_hop-append env.local_addr f.hops more,
      carried env.local_addr req.hops req.proto p,
    ) in
    let clash : true ≡ false = sym seen ∙ again.no_loop in absurd (cc)

-- Every path is sanitized: the backend and its overrides do not say otherwise.
abbrev pub NoneRaw : List Override → Type 0
NoneRaw [] = Unit
NoneRaw (po ∷ pos) = (or_true po.sanitize_path ≡ true) × NoneRaw pos

try_prefixes-sanitized :
    (be : HttpBackend) (req : Request) (i : ℕ) (po : Override) (prefixes : List String)
    (s : Settled)
    → or_true be.sanitize_path ≡ true
    → or_true po.sanitize_path ≡ true
    → try_prefixes be req i po prefixes ≡ ok (some s)
    → s.sanitize_path ≡ true
unfolding try_prefixes use_override
try_prefixes-sanitized be req i po [] s b o h = absurd (cc)
try_prefixes-sanitized be req i po (prefix ∷ prefixes) s b o h =
    ground (arith, try_prefixes-sanitized be req i po prefixes s b o)

apply_overrides-sanitized :
    (be : HttpBackend) (req : Request) (i : ℕ) (pos : List Override) (s : Settled)
    → or_true be.sanitize_path ≡ true
    → NoneRaw pos
    → apply_overrides be req i pos ≡ ok s
    → s.sanitize_path ≡ true
unfolding apply_overrides
apply_overrides-sanitized be req i [] s b o h = ground arith
apply_overrides-sanitized be req i (po ∷ pos) s b o h =
    let (found, first, rest) = >>=-ok (try_prefixes be req i po po.paths) _ h in
    elim (Option-cases found) [
      | inl e ↦ apply_overrides-sanitized be req (suc i) pos s b o.1 (ground arith)
      | inr (t, e) ↦
          let same : t ≡ s = ground arith in
          let tried : try_prefixes be req i po po.paths ≡ ok (some t) = first ∙ ap ok e in
          rw (← same) (try_prefixes-sanitized be req i po po.paths t b o.0 tried)
    ]

-- The name that the proxy adds for the backend's server is of verified claims.
abbrev pub NameVouched : HttpEnv → Option String → Type 0
NameVouched env none = Unit
NameVouched env (some name) = (c : Claims) × Verified env c × (email_of c ≡ name)

user_of-Vouched :
    (env : HttpEnv) (be : HttpBackend) (sso : Sso) (req : Request) (o : Option Claims)
    → check_cookies env be sso req ≡ ok o
    → NameVouched env (user_of sso o).header
user_of-Vouched env be sso req none h = tt
user_of-Vouched env be sso req (some c) h = elim (Bool-cases (is_empty (email_of c))) [
  | inl e ↦ rw e tt
  | inr e ↦ elim (Bool-cases sso.set_user_id_header) [
    | inl f ↦ rw (e, f) (c, check_cookies-Verified env be sso req c h, refl)
    | inr f ↦ rw (e, f) tt
  ]
]

header-Vouched :
    (env : HttpEnv) (be : HttpBackend) (req : Request) (user : User)
    → authenticate_user env be req ≡ ok user
    → NameVouched env user.header
unfolding authenticate_user
header-Vouched env be req user h = elim (Option-cases be.sso) [
  | inl e ↦ let same : nobody ≡ user = ground arith in rw (← same) tt
  | inr (sso, e) ↦
      let known : (check_cookies env be sso req >>= λ claims. ok (user_of sso claims)) ≡ ok user =
        ground arith in
      let (o, cookies, last) =
        >>=-ok (check_cookies env be sso req) (λ claims. ok (user_of sso claims)) known in
      let same : user_of sso o ≡ user = ok-injective last in
      rw (← same) (user_of-Vouched env be sso req o cookies)
]

-- Where no path is left as it is: what is forwarded was asked for under one of the backend's server
-- names, its path is what `pathClean` makes of the client's, and so has no dot segments, and a
-- user's name that the proxy adds is that of verified claims.
pub forward-Vouched :
    (env : HttpEnv) (decimal : ℕ → String) (be : HttpBackend) (req : Request) (f : Forwarded)
    → or_true be.sanitize_path ≡ true
    → NoneRaw be.path_overrides
    → reverse_proxy env decimal be req ≡ ok (forward f)
    → (contains be.server_names
          (env.hostname (if is_empty req.host then env.server_name else req.host))
        ≡ true)
      × (f.path ≡ path_clean req.path)
      × Cleaned f.path
      × NameVouched env f.user_id
unfolding forwarded
forward-Vouched env decimal be req f b o h =
    let (user, known, routed) = reverse_proxy-Routed env decimal be req f h in
    let on =
      apply_overrides-sanitized be req 0 be.path_overrides routed.settled b o routed.chosen in
    let kept = ap (λ (f : Forwarded). f.path) routed.same in
    let path : path_clean req.path ≡ f.path = ground (arith, on, kept) in
    let header : user.header ≡ f.user_id = ap (λ (f : Forwarded). f.user_id) routed.same in
    (
      routed.on_host,
      sym path,
      rw (← path) ((path_clean_iff (path_clean req.path)).0 (path_clean_idem req.path)),
      rw (← header) (header-Vouched env be req user known),
    )
