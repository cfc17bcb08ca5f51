-- ===== src/Config/Names.antt =====
-- The loops of `Check` over the server names of the backends, and over the lists of PKIs, SSH
-- authorities and bandwidth limits, whose names and endpoints it looks up.
use Prim.Native.String.{String}
use rp.Prelude.{Bool, true, false, not, ◌&&◌, Option, none, some, List, [], ◌∷◌, map, if◌then◌else◌}
use rp.Prelude.Text.{string_eq, contains}
use rp.Prelude.Map.{Map, lookup, insert}
use rp.Prelude.Words.{is_empty}
use rp.Prelude.Call.{Call, ok, ◌>>=◌, ◌>>◌, fail_if, or_fail}
use rp.Backend.{Mode}
use rp.Config.{Env, ConfigBackend, ConfigPki, ConfigSsh, is_local}
use rp.Routing.{BeKey, key, key_eq, is_nil}

-- A backend after the first loop over the backends: its mode, protocols and flags are set.
pub record Prepared : Type 0 where
  pub config : ConfigBackend
  pub mode : Mode
  pub server_names : List String
  pub alpn_protos : List String
  pub server_close : Option Bool
  pub client_close : Option Bool

-- The maps `serverNames`, of which only the backends' modes are read, and `beKeys`.
pub record NameTable : Type 0 where
  pub names : Map String Mode
  pub keys : List BeKey

unfoldable pub add_protos : String → List String → List BeKey → Call String (List BeKey)
add_protos sn [] keys = ok keys
add_protos sn (proto ∷ protos) keys = do
  fail_if (contains keys (key sn proto))
      "backend.ServerNames: duplicate server name alpnProto combination"
  add_protos sn protos (key sn proto ∷ keys)

abbrev pub named {ℓ} : {A : Type ℓ} → Option A → Bool
named none = false
named (some a) = true

unfoldable pub add_name : Mode → List String → String → NameTable → Call String NameTable
add_name mode protos sn t = do
  fail_if (named (lookup sn t.names) && is_nil protos) "backend.ServerNames: duplicate server name"
  keys ← add_protos sn protos t.keys
  ok (record {
    names = if named (lookup sn t.names) then t.names else insert sn mode t.names;
    keys = keys;
  })

unfoldable pub add_names : Mode → List String → List String → NameTable → Call String NameTable
add_names mode protos [] t = ok t
add_names mode protos (sn ∷ sns) t = add_name mode protos sn t >>= add_names mode protos sns

-- `be.ServerNames[j] = idnaToASCII(sn)`
abbrev pub in_ascii : Env → Prepared → Prepared
in_ascii env be = record be { server_names = map env.idna be.server_names }

unfoldable pub add_backends : List Prepared → NameTable → Call String NameTable
add_backends [] t = ok t
add_backends (be ∷ bes) t = add_names be.mode be.alpn_protos be.server_names t >>= add_backends bes

abbrev pub no_names : NameTable
no_names = record { names = []; keys = [] }

-- A backend's mode, looked up by the host of an endpoint.
unfoldable pub endpoint_mode : Env → NameTable → String → Call String Mode
endpoint_mode env t endpoint = do
  host ← or_fail (env.host_of endpoint) "Endpoint: does not parse"
  or_fail (lookup host t.names) "Endpoint: backend not found"

unfoldable pub check_pki : Env → NameTable → List String → ConfigPki → Call String (Unit {0})
check_pki env t pkis p = do
  fail_if (is_empty p.name) "pki.Name: must be set"
  fail_if (contains pkis p.name) "pki.Name: duplicate name"
  if is_empty p.endpoint
      then ok tt
      else (endpoint_mode env t p.endpoint >>= λ mode.
          fail_if (not (is_local mode)) "pki.Endpoint: backend must have mode LOCAL or CONSOLE")

unfoldable pub check_ssh : Env → NameTable → List String → ConfigSsh → Call String (Unit {0})
check_ssh env t cas p = do
  fail_if (is_empty p.name) "sshCertificateAuthorities.Name: must be set"
  fail_if (contains cas p.name) "sshCertificateAuthorities.Name: duplicate name"
  if is_empty p.certificate_endpoint
      then ok tt
      else (endpoint_mode env t p.certificate_endpoint >>= λ mode. ok tt)

unfoldable pub check_limit : List String → String → Call String (Unit {0})
check_limit limits l = fail_if (contains limits l) "bwLimit.Name: duplicate name"

-- The loop of a list whose names go into a map: the names that the map has at the end.
unfoldable pub collect {ℓ} :
    {P : Type ℓ}
    → (P → String)
    → (List String → P → Call String (Unit {0}))
    → List String
    → List P
    → Call String (List String)
collect name check seen [] = ok seen
collect name check seen (p ∷ ps) = check seen p >> collect name check (name p ∷ seen) ps
