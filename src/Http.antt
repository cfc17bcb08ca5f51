-- ===== src/Http.antt =====
-- proxy/backend-http.go and proxy/backend-sso.go: what the HTTP server of a backend does with a
-- request.
pub mod Paths
pub mod Clean
pub mod Static
pub mod Inside
pub mod SignOn
pub mod Handlers
pub mod Refusing
pub mod Guard
pub mod Forwarding
pub mod Xfcc
pub mod Header
use Prim.Native.String.{String}
use rp.Prelude.{ℕ, Bool, true, false, Option, none, some, List, [], ◌∷◌}
use rp.Prelude.Call.{Call}

-- The claims of a user's token that the proxy reads; each may be missing or of another type.
pub record Claims : Type 0 where
  pub email : Option String
  pub iat : Option ℕ
  pub hhash : Option String

-- What the program reads of a request. `hops` is the `Via` header, split at its commas, and
-- `negotiated_protocol` is empty where there is no TLS.
pub record Request : Type 0 where
  pub method : String
  pub host : String
  pub path : String
  pub proto : String
  pub proto_major : ℕ
  pub connection : String
  pub skip_login_confirmation : Bool
  pub hops : List String
  pub negotiated_protocol : String

-- `BackendSSO`, and whether the identity provider is the passkey manager.
pub record Sso : Type 0 where
  pub force_re_auth : ℕ
  pub acl : Option (List String)
  pub paths : List String
  pub exceptions : List String
  pub set_user_id_header : Bool
  pub generate_id_tokens : Bool
  pub is_passkeys : Bool

-- An `*os.Root`: whether a file is a directory, if there is one; whether it opens; whether what is
-- open is a regular file. A file's name is the list of its parts.
pub record Root : Type 0 where
  pub is_dir : List String → Option Bool
  pub opens : List String → Bool
  pub is_regular : List String → Bool

pub record LocalHandler : Type 0 where
  pub name : ℕ
  pub host : String
  pub path : String
  pub sso_bypass : Bool
  pub match_prefix : Bool

pub record Override : Type 0 where
  pub paths : List String
  pub addresses : List String
  pub document_root : Option Root
  pub backend_proto : Option String
  pub proxy_protocol_version : ℕ
  pub sanitize_path : Option Bool

-- The configuration of a backend, as far as it decides what becomes of a request.
pub record HttpBackend : Type 0 where
  pub is_http_mode : Bool
  pub server_names : List String
  pub sso : Option Sso
  pub document_root : Option Root
  pub addresses : List String
  pub backend_proto : Option String
  pub path_overrides : List Override
  pub proxy_protocol_version : ℕ
  pub sanitize_path : Option Bool
  pub local_handlers : List LocalHandler

-- What the handlers ask of the connection, of packages and of the clock: the connection's server
-- name and the text of its local address; `hostFromReq` and the host name of a URL's host; SHA-256
-- in hexadecimal digits; the claims of a valid authorization header, and of a valid cookie; whether
-- the ID token cookie is valid, and whether a new one is set; whether a URL token is made; whether
-- this is the connection's first request, and whether `connLimit.Wait` succeeds; the PROXY header of
-- a version; and whether there is an HTTP/3 transport.
pub record HttpEnv : Type 0 where
  pub now : ℕ
  pub server_name : String
  pub local_addr : String
  pub host_from_req : String → String
  pub hostname : String → String
  pub hash : String → String
  pub header_claims : Option Claims
  pub cookie_claims : Option Claims
  pub id_token_valid : Bool
  pub id_token_set : Bool
  pub url_token : Bool
  pub first_request : Bool
  pub wait_ok : Bool
  pub proxy_header : ℕ → String
  pub has_h3 : Bool

pub data Transport : Type 0 where
  h1 h2 h3 : Transport

-- A request as it is given to the reverse proxy of net/http/httputil.
pub record Forwarded : Type 0 where
  pub path : String
  pub url_host : String
  pub hops : List String
  pub override : Option ℕ
  pub user_id : Option String
  pub transport : Transport

-- What the client gets: an error, a redirection to a path, to this URL again or to the login, the
-- pages that ask for a login and that deny access, the answer of a local handler, a file, or what
-- the backend's server answers.
pub data Reply : Type 0 where
  http_error : ℕ → Reply
  redirect : ℕ → String → Reply
  same_url login_redirect login_page denied_page : Reply
  served_locally : ℕ → Reply
  file : List String → Reply
  forward : Forwarded → Reply

-- A handler goes on with a value, or has replied, which is this type's error.
abbrev pub Handling {ℓ} : Type ℓ → Type ℓ
Handling A = Call Reply A
