-- ===== src/Http/Handlers.antt =====
-- The handlers of proxy/backend-http.go: `handleLocalEndpointsAndAuthorize`, `localHandler`, the
-- handler of `reverseProxy`, and the choice of a transport in `reverseProxyTransport`.
use Prim.Native.String.{String, ◌++◌ as str_append}
use rp.Prelude.{
  ℕ, suc, Bool, true, false, not, ◌&&◌, ◌||◌, Option, none, some, List, [], ◌∷◌, ◌++◌,
  if◌then◌else◌, ltb, ◌==◌,
}
use rp.Prelude.Text.{string_eq, ◌=?◌, contains}
use rp.Prelude.Words.{is_empty, has_prefix, lower_is}
use rp.Prelude.Call.{Call, ok, err, panic, ◌>>=◌, ◌>>◌, fail_if}
use rp.Routing.{is_nil}
use rp.Http.{
  Request, LocalHandler, Override, HttpBackend, HttpEnv, Transport, h1, h2, h3, Forwarded, Reply,
  http_error, served_locally, forward, Handling,
}
use rp.Http.Paths.{path_clean, cut}
use rp.Http.Static.{redirect_permanently, serve_static_files}
use rp.Http.SignOn.{User, authenticate_user, enforce_sso_policy}

-- `slices.IndexFunc`, with the handler in place of its index.
unfoldable pub find_handler : (LocalHandler → Bool) → List LocalHandler → Option LocalHandler
find_handler test [] = none
find_handler test (h ∷ hs) = let rest = find_handler test hs in if test h then some h else rest

abbrev pub on_host : String → LocalHandler → Bool
on_host host h = is_empty h.host || h.host =? host

abbrev pub handles : String → String → LocalHandler → Bool
handles host path h =
    on_host host h
    && (h.path =? path || (h.match_prefix && has_prefix path (str_append h.path "/")))

unfoldable pub run_local :
    HttpEnv → HttpBackend → Request → User → LocalHandler → Handling (Unit {0})
run_local env be req user h = do
  if h.sso_bypass then ok tt else enforce_sso_policy env be req user.claims
  fail_if (not (path_clean req.path =? req.path))
      (redirect_permanently req.method (path_clean req.path))
  err (served_locally h.name)

-- No handler has this path: it may be one's path without the slash at the end.
abbrev pub slash_missing : Request → Option LocalHandler → Handling (Unit {0})
slash_missing req none = ok tt
slash_missing req (some h) =
    err (redirect_permanently req.method (str_append (path_clean req.path) "/"))

abbrev pub handle_with :
    HttpEnv → HttpBackend → Request → User → Option LocalHandler → Handling (Unit {0})
handle_with env be req user (some h) = run_local env be req user h
handle_with env be req user none = do
  enforce_sso_policy env be req user.claims
  slash_missing req (
      find_handler
        (λ h.
          on_host (env.host_from_req req.host) h && str_append (path_clean req.path) "/" =? h.path)
        be.local_handlers)

unfoldable pub handle_local_and_authorize :
    HttpEnv → HttpBackend → Request → User → Handling (Unit {0})
unfolding find_handler run_local
handle_local_and_authorize env be req user =
    handle_with env be req user
      (find_handler (handles (env.host_from_req req.host) (path_clean req.path)) be.local_handlers)

-- The reply of a handler that ends with one.
abbrev pub reply_of : Handling Reply → Call Reply Reply
reply_of (ok r) = ok r
reply_of (err r) = ok r
reply_of panic = panic

unfoldable pub local_handler : HttpEnv → HttpBackend → Request → Call Reply Reply
unfolding handle_local_and_authorize
local_handler env be req = reply_of (do
  user ← authenticate_user env be req
  handle_local_and_authorize env be req user
  ok (serve_static_files be.document_root req.method req.path ""))

-- What the loop over the overrides comes to: it replies, or settles what is forwarded.
pub record Settled : Type 0 where
  pub override : Option ℕ
  pub backend_proto : Option String
  pub proxy_protocol_version : ℕ
  pub sanitize_path : Bool

abbrev pub or_true : Option Bool → Bool
or_true none = true
or_true (some b) = b

abbrev pub or_bool : Bool → Option Bool → Bool
or_bool a none = a
or_bool a (some b) = b

abbrev pub by_default : HttpBackend → Settled
by_default be = record {
  override = none;
  backend_proto = none;
  proxy_protocol_version = be.proxy_protocol_version;
  sanitize_path = or_true be.sanitize_path;
}

unfoldable pub use_override : HttpBackend → Request → ℕ → Override → String → Handling Settled
use_override be req i po prefix =
    if is_nil po.addresses
    then err (serve_static_files po.document_root req.method req.path prefix)
    else ok (record {
      override = some i;
      backend_proto = po.backend_proto;
      proxy_protocol_version = po.proxy_protocol_version;
      sanitize_path = or_bool (or_true be.sanitize_path) po.sanitize_path;
    })

-- The inner loop. The option is empty when no prefix of the override fits.
unfoldable pub try_prefixes :
    HttpBackend → Request → ℕ → Override → List String → Handling (Option Settled)
unfolding use_override
try_prefixes be req i po [] = ok none
try_prefixes be req i po (prefix ∷ prefixes) =
    let clean = path_clean req.path in
    let rest = try_prefixes be req i po prefixes in
    if str_append clean "/" =? prefix
    then err (redirect_permanently req.method (str_append clean "/"))
    else if has_prefix clean prefix
    then (use_override be req i po prefix >>= λ s. ok (some s))
    else rest

unfoldable pub apply_overrides : HttpBackend → Request → ℕ → List Override → Handling Settled
unfolding try_prefixes
apply_overrides be req i [] = ok (by_default be)
apply_overrides be req i (po ∷ pos) = try_prefixes be req i po po.paths >>= λ found. elim found [
  | none ↦ apply_overrides be req (suc i) pos
  | some s ↦ ok s
]

-- `_, via, _ = strings.Cut(via, " "); via == me` for some hop.
unfoldable pub has_hop : String → List String → Bool
has_hop me [] = false
has_hop me (via ∷ hops) = cut b' ' via =? me || has_hop me hops

-- What names the connection that the HTTP client may use again: the hash of the server name, the
-- override, and the PROXY header.
abbrev pub override_text : Option ℕ → (ℕ → String) → String
override_text none text = ""
override_text (some i) text = text i

unfoldable pub host_key : HttpEnv → (ℕ → String) → Settled → String
host_key env decimal s =
    let plain = str_append (str_append env.server_name ";") (override_text s.override decimal) in
    env.hash (
      if ltb 0 s.proxy_protocol_version
      then str_append (str_append plain ";") (env.proxy_header s.proxy_protocol_version)
      else plain)

abbrev pub backend_proto_of : HttpBackend → Settled → String
backend_proto_of be s = elim s.backend_proto [
  | some proto ↦ proto
  | none ↦ elim be.backend_proto [ some proto ↦ proto | none ↦ "http/1.1" ]
]

unfoldable pub choose_transport : HttpEnv → HttpBackend → Request → Settled → Transport
choose_transport env be req s =
    if req.proto_major == 1 && lower_is req.connection "upgrade"
    then h1
    else let proto =
        if is_empty (backend_proto_of be s)
        then req.negotiated_protocol
        else backend_proto_of be s in
      if proto =? "h3" && env.has_h3 then h3 else if proto =? "h2" then h2 else h1

unfoldable pub forwarded :
    HttpEnv → (ℕ → String) → HttpBackend → Request → User → Settled → Forwarded
unfolding host_key choose_transport
forwarded env decimal be req user s = record {
  path = if s.sanitize_path then path_clean req.path else req.path;
  url_host = host_key env decimal s;
  hops = req.hops ++ str_append (str_append req.proto " ") env.local_addr ∷ [];
  override = s.override;
  user_id = user.header;
  transport = choose_transport env be req s;
}

-- From the test of the host name on.
unfoldable pub route : HttpEnv → (ℕ → String) → HttpBackend → Request → User → Handling Reply
unfolding apply_overrides forwarded
route env decimal be req user = do
  fail_if
      (not (
        contains be.server_names
          (env.hostname (if is_empty req.host then env.server_name else req.host))))
      (http_error 421)
  fail_if (not env.first_request && not env.wait_ok) (http_error 500)
  s ← apply_overrides be req 0 be.path_overrides
  fail_if (is_nil be.addresses) (serve_static_files be.document_root req.method req.path "")
  fail_if (has_hop env.local_addr req.hops) (http_error 508)
  ok (forward (forwarded env decimal be req user s))

-- The handler of `reverseProxy`. `decimal` writes a number as `%d` does.
unfoldable pub reverse_proxy : HttpEnv → (ℕ → String) → HttpBackend → Request → Call Reply Reply
unfolding route handle_local_and_authorize
reverse_proxy env decimal be req = reply_of (do
  user ← authenticate_user env be req
  handle_local_and_authorize env be req user
  route env decimal be req user)
