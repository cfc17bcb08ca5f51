-- ===== src/Examples/Requests.antt =====
-- Requests to a backend that wants its users to be logged in.
use Prim.Native.String.{String, ◌++◌ as str_append}
use rp.Prelude.{ℕ, ◌≡◌, ◌≢◌, refl, ◌⊎◌, ◌↔◌, true, false, none, some, [], ◌∷◌}
use rp.Prelude.Text.{string_eq, contains, here}
use rp.Prelude.Words.{has_prefix, has_suffix, lower_is}
use rp.Prelude.Call.{ok}
use rp.Http.{Claims, Request, Sso, Root, HttpBackend, HttpEnv, Forwarded, forward}
use rp.Http.Paths.{
  split, clean_onto, clean_parts, rooted, path_clean, after, cut, has_char, any_prefix,
}
use rp.Http.Clean.{Cleaned, path_clean_iff}
use rp.Http.Static.{
  any_hidden, redirect_permanently, open_file, serve_found, parts_below, serve_parts, is_get,
  serve_static_files,
}
use rp.Http.Inside.{Inward, Sent, serve_static_files-Inward}
use rp.Http.SignOn.{
  check_id_token, check_cookies, authenticate_user, path_matches, exempt, enforce_with,
  enforce_sso_policy,
}
use rp.Http.Handlers.{
  find_handler, run_local, handle_local_and_authorize, use_override, try_prefixes, apply_overrides,
  has_hop, host_key, choose_transport, forwarded, route, reverse_proxy,
}
use rp.Http.Guard.{Admitted, reverse_proxy-Admitted, raw_exception}
use rp.Http.Xfcc.{encode_xfcc, encode_xfcc_subject, escape_char, subject_parts, join}
use rp.Http.Header.{read_value, read_value-encode_xfcc}
use rp.Http.Forwarding.{NameVouched, forward-Vouched, forwarded-once}

-- The proxy's own examples of a clean path.
cleaning : path_clean "/a/../../etc//./b/" ≡ "/etc/b/"
unfolding path_clean split clean_parts clean_onto rooted has_prefix has_suffix
cleaning = refl

path_clean_iff_example : (path_clean "/a/./b" ≡ "/a/./b") ↔ Cleaned "/a/./b"
path_clean_iff_example = path_clean_iff "/a/./b"

abbrev alice : Claims
alice = record { email = some "alice@example.com"; iat = some 5; hhash = some "h" }

abbrev policy : Sso
policy = record {
  force_re_auth = 0;
  acl = some ("@example.com" ∷ []);
  paths = [];
  exceptions = "/public/" ∷ [];
  set_user_id_header = true;
  generate_id_tokens = false;
  is_passkeys = false;
}

abbrev site : HttpBackend
site = record {
  is_http_mode = true;
  server_names = "www.example.com" ∷ [];
  sso = some policy;
  document_root = none;
  addresses = "192.168.1.2:80" ∷ [];
  backend_proto = none;
  path_overrides = [];
  proxy_protocol_version = 0;
  sanitize_path = none;
  local_handlers = [];
}

abbrev env : HttpEnv
env = record {
  now = 9;
  server_name = "www.example.com";
  local_addr = "10.0.0.1:443";
  host_from_req = λ h. h;
  hostname = λ h. h;
  hash = λ s. s;
  header_claims = none;
  cookie_claims = some alice;
  id_token_valid = false;
  id_token_set = false;
  url_token = true;
  first_request = true;
  wait_ok = true;
  proxy_header = λ v. "";
  has_h3 = false;
}

abbrev request : Request
request = record {
  method = "GET";
  host = "www.example.com";
  path = "/a//b";
  proto = "HTTP/1.1";
  proto_major = 1;
  connection = "";
  skip_login_confirmation = false;
  hops = [];
  negotiated_protocol = "http/1.1";
}

abbrev decimal : ℕ → String
decimal n = "0"

unfoldable answered : (f : Forwarded) × (reverse_proxy env decimal site request ≡ ok (forward f))
unfolding reverse_proxy authenticate_user check_cookies check_id_token contains
    handle_local_and_authorize run_local find_handler enforce_sso_policy enforce_with exempt
    path_matches any_prefix path_clean split clean_parts clean_onto rooted has_prefix has_suffix cut
    route apply_overrides try_prefixes use_override has_hop forwarded host_key choose_transport
    lower_is redirect_permanently serve_static_files
answered = (_, refl)

reverse_proxy-Admitted_example : (exempt policy request.path ≡ true) ⊎ Admitted env policy request
reverse_proxy-Admitted_example =
    reverse_proxy-Admitted env decimal site request policy (forward answered.0) refl answered.1 refl

forward-Vouched_example :
    (contains site.server_names "www.example.com" ≡ true)
    × (answered.0.path ≡ path_clean "/a//b")
    × Cleaned answered.0.path
    × NameVouched env answered.0.user_id
forward-Vouched_example = forward-Vouched env decimal site request answered.0 refl tt answered.1

forwarded-once_example :
    reverse_proxy env decimal site (record request { hops = answered.0.hops })
    ≢ ok (forward answered.0)
unfolding answered has_char
forwarded-once_example =
    forwarded-once env env decimal site site request (record request { hops = answered.0.hops })
      answered.0 answered.0 [] refl answered.1 refl refl

abbrev disk : Root
disk = record { is_dir = λ p. some false; opens = λ p. true; is_regular = λ p. true }

serve_static_files-Inward_example :
    (root : Root) × (some disk ≡ some root)
    × (is_get "GET" ≡ true)
    × Cleaned "/docs/a.txt"
    × Inward ("a.txt" ∷ [])
    × Sent root ("a.txt" ∷ [])
unfolding serve_static_files serve_parts serve_found open_file any_hidden redirect_permanently
    parts_below after path_clean split clean_parts clean_onto rooted has_prefix has_suffix has_char
serve_static_files-Inward_example =
    serve_static_files-Inward (some disk) "GET" "/docs/a.txt" "/docs/" ("a.txt" ∷ []) refl

-- A path with a prefix of an exception and a dot segment needs no login, and is cleaned after.
bypass :
    reverse_proxy
      (record env { cookie_claims = none })
      decimal
      site
      (record request { path = "/public/../secret" })
    ≡ ok (forward (record answered.0 { path = "/secret"; user_id = none }))
unfolding answered reverse_proxy authenticate_user check_cookies check_id_token contains
    handle_local_and_authorize run_local find_handler enforce_sso_policy enforce_with exempt
    path_matches any_prefix path_clean split clean_parts clean_onto rooted has_prefix has_suffix cut
    route apply_overrides try_prefixes use_override has_hop forwarded host_key choose_transport
    lower_is redirect_permanently serve_static_files
bypass = refl

raw_exception_example :
    enforce_sso_policy env site (record request { path = "/public/../secret" }) none ≡ ok tt
unfolding has_prefix
raw_exception_example =
    raw_exception env site policy (record request { path = "/public/../secret" }) none "/public/"
      refl (here refl) refl

read_value-encode_xfcc_example :
    read_value (str_append (encode_xfcc "CN=a;\"b\"") ";Hash=07") ≡ ("CN=a;\"b\"", ";Hash=07")
read_value-encode_xfcc_example = read_value-encode_xfcc "CN=a;\"b\"" ";Hash=07" refl

quoted : encode_xfcc "CN=a;\"b\"" ≡ "\"CN=a;\\\"b\\\"\""
unfolding encode_xfcc escape_char has_char
quoted = refl

-- Two subjects with the same text: a slash in a name is not escaped.
ambiguous : encode_xfcc_subject "CN=a,O=b" ≡ encode_xfcc_subject "CN=a/O=b"
unfolding encode_xfcc_subject subject_parts join encode_xfcc escape_char has_char
ambiguous = refl
