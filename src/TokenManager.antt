-- ===== src/TokenManager.antt =====
-- proxy/internal/tokenmanager/tokenmanager.go: the signing keys of JSON Web Tokens, their rotation,
-- and the choice of a key for a new token. Times are nanoseconds since the Unix epoch. The keys'
-- parsing, the storage and the jwt package are parameters; a token is its key id and signature.
pub mod Choice
pub mod Rotation
pub mod Validation
use Prim.Native.String.{String}
use rp.Prelude.{
  ℕ, ◌+◌, ◌*◌, Bool, true, false, not, ◌&&◌, ◌||◌, Option, none, some, List, [], ◌∷◌, ◌++◌, ltb,
  if◌then◌else◌,
}
use rp.Prelude.Text.{Eq, string_eq, ◌=?◌}
use rp.Prelude.Call.{Call, ok, err, panic}

-- time.Hour
abbrev pub hour : ℕ
hour = 3600000000000

pub data TokenError : Type 0 where
  storage rolled_back key_creation unknown_method not_found signing : TokenError

-- The kind of a public key, which decides the signing methods that it fits.
pub data KeyKind : Type 0 where
  ecdsa ed25519 rsa : KeyKind

-- A parsed private key, by its text.
pub record PrivateKey : Type 0 where
  pub kind : KeyKind
  pub text : String

-- A `tokenKey` as the file holds it.
pub record StoredKey : Type 0 where
  pub id : String
  pub key_type : String
  pub key : String
  pub creation_time : ℕ

-- A `tokenKey` whose private key was parsed.
pub record TokenKey : Type 0 where
  pub stored : StoredKey
  pub priv_key : PrivateKey

pub record TokenManager : Type 0 where
  pub has_tpm : Bool
  pub keys : List TokenKey

-- What `rotateKeys` asks of the rest of the program: what the file holds, the time, new keys for
-- each of the two calls of `createNewTokenKeys`, the private key that a key made by them has, the
-- parser, and whether the commit succeeds.
pub record RotationEnv : Type 0 where
  pub file : Option (List StoredKey)
  pub now : ℕ
  pub first_keys : Option (List StoredKey)
  pub new_keys : Option (List StoredKey)
  pub made : StoredKey → Option PrivateKey
  pub parse : String → Option PrivateKey
  pub commits : Bool

abbrev pub last_or : StoredKey → List StoredKey → StoredKey
last_or k [] = k
last_or k (j ∷ ks) = last_or j ks

-- The first step: the keys, and whether they changed.
unfoldable pub ensure_keys : RotationEnv → List StoredKey → Option (List StoredKey × Bool)
ensure_keys env (k ∷ ks) = some (k ∷ ks, false)
ensure_keys env [] = elim env.first_keys [ none ↦ none | some tk ↦ some (tk, true) ]

-- The second step, for a list that starts with `k`.
unfoldable pub add_keys :
    RotationEnv → StoredKey → List StoredKey → Bool → Option (List StoredKey × Bool)
add_keys env k ks changed =
    if ltb ((last_or k ks).creation_time + 24 * hour) env.now
    then elim env.new_keys [ none ↦ none | some tk ↦ some (ks ++ tk, true) ]
    else some (ks, changed)

-- The third step, `keys.Keys[0]`.
unfoldable pub drop_old : RotationEnv → StoredKey → List StoredKey → Bool → List StoredKey × Bool
drop_old env k ks changed =
    if ltb (k.creation_time + 7 * 24 * hour) env.now then (ks, true) else (k ∷ ks, changed)

-- `k.privKey` after the loop that parses the keys: a key that was just made keeps its own where the
-- parser fails.
abbrev pub priv_key_of : RotationEnv → StoredKey → Option PrivateKey
priv_key_of env k = elim (env.parse k.key) [ none ↦ env.made k | some p ↦ some p ]

-- The loop that parses the keys, and `DeleteFunc`.
unfoldable pub parse_keys : (StoredKey → Option PrivateKey) → List StoredKey → List TokenKey
parse_keys parse [] = []
parse_keys parse (k ∷ ks) = elim (parse k) [
  | none ↦ parse_keys parse ks
  | some p ↦ record { stored = k; priv_key = p } ∷ parse_keys parse ks
]

abbrev pub is_empty : List TokenKey → Bool
is_empty [] = true
is_empty (k ∷ ks) = false

-- The rest of the function, with what it leaves in the manager and in the file; an error of the
-- commit leaves the file as it was. Without a change, the deferred `commit(false, &retErr)` returns
-- the storage package's `ErrRolledBack`, which `KeyRotationLoop` ignores.
unfoldable pub install :
    RotationEnv
    → TokenManager
    → List StoredKey
    → Bool
    → TokenManager × Call TokenError (List TokenKey)
unfolding parse_keys
install env tm ks changed =
    if not changed && not (is_empty tm.keys) then (tm, err rolled_back) else (
      record tm { keys = parse_keys (priv_key_of env) ks },
      if env.commits then ok (parse_keys (priv_key_of env) ks) else err storage,
    )

-- An empty list from `createNewTokenKeys` would be an index out of range.
unfoldable pub rotate_keys :
    RotationEnv → TokenManager → TokenManager × Call TokenError (List TokenKey)
unfolding ensure_keys add_keys drop_old install
rotate_keys env tm = elim env.file [
  | none ↦ (tm, err storage)
  | some held ↦ elim (ensure_keys env held) [
    | none ↦ (tm, err key_creation)
    | some ([], changed) ↦ (tm, panic)
    | some (k ∷ ks, changed) ↦ elim (add_keys env k ks changed) [
      | none ↦ (tm, err key_creation)
      | some (js, added) ↦ let r = drop_old env k js added in install env tm r.0 r.1
    ]
  ]
]

-- `jwt.GetSigningMethod`, as the kind of key that the method wants: `some none` is a known method of
-- another kind.
pub record Jwt : Type 0 where
  pub method : String → Option (Option KeyKind)
  pub sign : PrivateKey → String → String → Option String

pub record Token : Type 0 where
  pub kid : String
  pub signed_string : String

abbrev pub same_kind : KeyKind → KeyKind → Bool
same_kind ecdsa ecdsa = true
same_kind ed25519 ed25519 = true
same_kind rsa rsa = true
same_kind _ _ = false

abbrev pub fits : Option KeyKind → TokenKey → Bool
fits none k = false
fits (some kind) k = same_kind kind k.priv_key.kind

abbrev pub is_nil_key : Option TokenKey → Bool
is_nil_key none = true
is_nil_key (some k) = false

-- The loop of `CreateToken` from `tk`.
unfoldable pub choose : Option KeyKind → ℕ → List TokenKey → Option TokenKey → Option TokenKey
choose kind now [] tk = tk
choose kind now (k ∷ ks) tk = choose kind now ks (
    if fits kind k && (is_nil_key tk || ltb (k.stored.creation_time + 2 * hour) now)
    then some k
    else tk)

abbrev pub default_alg : Bool → String → String
default_alg has_tpm alg = if alg =? "" then if has_tpm then "ES256" else "EdDSA" else alg

-- Without a key of the kind, `tk.ID` is a nil dereference.
unfoldable pub create_token : Jwt → ℕ → String → String → TokenManager → Call TokenError Token
unfolding choose
create_token jwt now claims alg tm = elim (jwt.method (default_alg tm.has_tpm alg)) [
  | none ↦ err unknown_method
  | some kind ↦ elim (choose kind now tm.keys none) [
    | none ↦ panic
    | some k ↦ elim (jwt.sign k.priv_key (default_alg tm.has_tpm alg) claims) [
      | none ↦ err signing
      | some s ↦ ok (record { kid = k.stored.id; signed_string = s })
    ]
  ]
]

-- `get_key`, with the private key in place of its public half.
unfoldable pub key_of : String → List TokenKey → Call TokenError PrivateKey
key_of kid [] = err not_found
key_of kid (k ∷ ks) = if k.stored.id =? kid then ok k.priv_key else key_of kid ks

unfoldable pub get_key : Token → TokenManager → Call TokenError PrivateKey
unfolding key_of
get_key tok tm = key_of tok.kid tm.keys
