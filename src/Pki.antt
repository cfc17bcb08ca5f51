-- ===== src/Pki.antt =====
-- proxy/internal/pki/pki.go: the certificate authority's state, its storage, and how it revokes
-- certificates. Times are nanoseconds since the Unix epoch, and a DER or
-- key text is a `String`. crypto/x509, the random source and the storage package are parameters.
-- `New` creates the file, so that a successful `open` always leaves an authority in memory.
pub mod Issuing
pub mod Delegate
pub mod Creation
pub mod Listing
pub mod Keeping
pub mod Durability
pub mod Contents
pub mod Staleness
pub mod Ocsp
pub mod Answers
use Prim.Native.String.{String, ◌++◌ as str_append}
use rp.Prelude.{
  ℕ, ◌+◌, ◌-◌, ◌*◌, ◌/◌, ◌%◌, Bool, true, false, Option, none, some, List, [], ◌∷◌, ◌++◌, ltb,
  get_or, if◌then◌else◌,
}
use rp.Prelude.Text.{Eq, string_eq, ◌=?◌}
use rp.Prelude.Map.{Map, lookup, insert}
use rp.Prelude.Call.{Call, ok, err, panic}

abbrev pub second : ℕ
second = 1000000000

-- 10 * 365 * 24 * time.Hour, for the authority's certificate and for those that it issues.
abbrev pub cert_lifetime : ℕ
cert_lifetime = 315360000000000000

abbrev hex_digits : List String
hex_digits =
    "0" ∷ "1" ∷ "2" ∷ "3" ∷ "4" ∷ "5" ∷ "6" ∷ "7" ∷ "8" ∷ "9" ∷ "a" ∷ "b" ∷ "c" ∷ "d" ∷ "e" ∷ "f"
    ∷ []

-- `fmt.Sprintf("%02x", v)` of a byte.
abbrev byte_hex : ℕ → String
byte_hex v = str_append (get_or hex_digits (v / 16) "") (get_or hex_digits (v % 16) "")

unfoldable pub bytes_to_hex : List ℕ → String
bytes_to_hex [] = ""
bytes_to_hex (b ∷ []) = byte_hex b
bytes_to_hex (b ∷ c ∷ bs) = str_append (byte_hex b) (str_append ":" (bytes_to_hex (c ∷ bs)))

-- The errors of this package.
pub data PkiError : Type 0 where
  not_found no_ca storage bad_certificate bad_key key_generation random signing : PkiError
  bad_crl invalid_hash ocsp : PkiError

pub record Revocation : Type 0 where
  pub time : ℕ
  pub reason_code : ℕ

-- The field `cert` is a cache of `parse`, and is left out.
pub record Certificate : Type 0 where
  pub sha256 : String
  pub serial_number : String
  pub raw : String
  pub revocation : Option Revocation

pub record RevocationList : Type 0 where
  pub raw_cert : String
  pub raw_crl : String

pub record Authority : Type 0 where
  pub name : String
  pub private_key : String
  pub ca_cert : Option Certificate
  pub delegate_key : String
  pub delegate_certs : List Certificate
  pub issued_certs : List Certificate
  pub crl_number : ℕ
  pub revocation_lists : List RevocationList
  pub revoked : Map String Bool

-- What the package reads of a parsed certificate.
pub record X509 : Type 0 where
  pub serial_number : ℕ
  pub subject : String
  pub not_before : ℕ
  pub not_after : ℕ
  pub is_ed25519 : Bool

pub data Usage : Type 0 where
  data_encipherment digital_signature cert_sign crl_sign : Usage
  server_auth client_auth ocsp_signing : Usage

pub record Template : Type 0 where
  pub serial_number : ℕ
  pub subject : String
  pub public_key : String
  pub not_before : ℕ
  pub not_after : ℕ
  pub usages : List Usage
  pub is_ca : Bool
  pub dns_names : List String
  pub email_addresses : List String
  pub ip_addresses : List String
  pub uris : List String

pub record CrlEntry : Type 0 where
  pub serial_number : ℕ
  pub revocation_time : ℕ
  pub reason_code : ℕ

pub record Crl : Type 0 where
  pub issuer : String
  pub number : ℕ
  pub this_update : ℕ
  pub next_update : ℕ
  pub entries : List CrlEntry

-- math/big, crypto/sha256, crypto/x509 and the keys; `none` is an error. A key that is not
-- a `crypto.Signer` has no `public` key.
pub record Crypto : Type 0 where
  pub bytes : ℕ → List ℕ
  pub sum256 : String → List ℕ
  pub parse : String → Option X509
  pub parse_key : String → Option String
  pub public : String → Option String
  pub create_certificate : Template → String → String → Option String
  pub create_revocation_list : Crl → X509 → String → Option String
  pub parse_revocation_list : String → Option Crl

-- The hexadecimal serial number under which a certificate is kept.
unfoldable pub serial : Crypto → ℕ → String
serial c sn = bytes_to_hex (c.bytes sn)

-- The storage package, over its file. `OpenForUpdate` decodes the file into the `db` in memory, so
-- that it gets both; what of the old one stays is the package's affair.
pub record Storage (F : Type 0) : Type 0 where
  pub open_for_update : F → Option Authority → Option Authority
  pub commit : F → Authority → Option F

pub record PkiManager (F : Type 0) : Type 0 where
  pub file : F
  pub db : Option Authority

-- How the part of an operation between `open` and its return ends: it commits, it returns without
-- a commit, it returns an error, or it panics.
pub data Outcome (A : Type 0) : Type 0 where
  save : A → Outcome A
  done : A → Outcome A
  fail : PkiError → Outcome A
  crash : Outcome A

-- `wipe(m.db.PrivateKey)`
abbrev pub wiped : Authority → Authority
wiped a = record a { private_key = "" }

module _ {F : Type 0} (st : Storage F) where
  unfoldable pub finish : {A : Type 0} → F → Authority → Outcome A → PkiManager F × Call PkiError A
  finish f a (save x) = elim (st.commit f a) [
    | none ↦ (record { file = f; db = some (wiped a) }, err storage)
    | some g ↦ (record { file = g; db = some (wiped a) }, ok x)
  ]
  finish f a (done x) = (record { file = f; db = some (wiped a) }, ok x)
  finish f a (fail e) = (record { file = f; db = some (wiped a) }, err e)
  finish f a crash = (record { file = f; db = some (wiped a) }, panic)

  -- `open`, an operation's body, and its commit.
  unfoldable pub update :
      {A : Type 0}
      → (Authority → Authority × Outcome A)
      → PkiManager F
      → PkiManager F × Call PkiError A
  update body m = elim (st.open_for_update m.file m.db) [
    | none ↦ (m, err storage)
    | some a ↦ finish m.file (body a).0 (body a).1
  ]

-- The first certificate with the serial number gets the revocation.
unfoldable pub revoke_first : String → Revocation → List Certificate → Option (List Certificate)
revoke_first snh r [] = none
revoke_first snh r (c ∷ cs) =
    let rest = revoke_first snh r cs in
    if c.serial_number =? snh
    then some (record c { revocation = some r } ∷ cs)
    else elim rest [ none ↦ none | some ds ↦ some (c ∷ ds) ]

unfoldable pub revoke_in : String → Revocation → Authority → Authority × Outcome (Unit {0})
unfolding revoke_first
revoke_in snh r a = elim (revoke_first snh r a.issued_certs) [
  | none ↦ (a, fail not_found)
  | some cs ↦ (record a { issued_certs = cs; revoked = insert snh true a.revoked }, save tt)
]

unfoldable pub revoke_certificate :
    {F : Type 0}
    → Storage F
    → Crypto
    → ℕ
    → ℕ
    → ℕ
    → PkiManager F
    → PkiManager F × Call PkiError (Unit {0})
revoke_certificate st c now sn reason m =
    update st
      (revoke_in (serial c sn) (record { time = now / second * second; reason_code = reason })) m

abbrev pub true_in : Option Bool → Bool
true_in none = false
true_in (some b) = b

unfoldable pub revoked_in : String → Authority → Bool
revoked_in snh a = true_in (lookup snh a.revoked)

unfoldable pub is_revoked : {F : Type 0} → Crypto → ℕ → PkiManager F → Bool
unfolding revoked_in
is_revoked c sn m = elim m.db [ none ↦ false | some a ↦ revoked_in (serial c sn) a ]
