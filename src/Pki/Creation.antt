-- ===== src/Pki/Creation.antt =====
-- `initCA`: the authority's key and certificate, created or renewed when the program starts.
use Prim.Native.String.{String}
use rp.Prelude.{ℕ, ◌+◌, Bool, true, false, Option, none, some, [], ◌∷◌, ◌++◌, if◌then◌else◌}
use rp.Prelude.Text.{string_eq, ◌=?◌}
use rp.Prelude.Call.{Call}
use rp.Pki.{
  PkiError, bad_certificate, bad_key, key_generation, random, signing, Certificate, Authority,
  Template, cert_sign, Crypto, Storage, PkiManager, Outcome, save, done, fail, update,
  cert_lifetime,
}
use rp.Pki.Issuing.{new_certificate}
use rp.Pki.Delegate.{Draw, half_spent}

-- The bytes of the authority's private key, and whether this call generated them.
unfoldable pub ca_key : String → Draw → Authority → Option (String × Bool)
ca_key key_type draw a =
    if a.private_key =? ""
    then elim (draw.generate_key key_type) [ none ↦ none | some (p, b) ↦ some (b, true) ]
    else some (a.private_key, false)

-- Whether a certificate is needed; `none` if the present one does not parse.
unfoldable pub needs_cert : Crypto → ℕ → Option Certificate → Option Bool
needs_cert c now none = some true
needs_cert c now (some ca) = elim (c.parse ca.raw) [
  | none ↦ none
  | some x ↦ some (half_spent x now)
]

unfoldable pub ca_template : String → String → ℕ → ℕ → Template
ca_template name public_key sn now = record {
  serial_number = sn;
  subject = name;
  public_key = public_key;
  not_before = now;
  not_after = now + cert_lifetime;
  usages = cert_sign ∷ [];
  is_ca = true;
  dns_names = [];
  email_addresses = [];
  ip_addresses = [];
  uris = [];
}

abbrev pub commit_if : Bool → Outcome (Unit {0})
commit_if true = save tt
commit_if false = done tt

unfoldable pub add_ca : Certificate → Authority → Authority
add_ca d a = record a { ca_cert = some d; issued_certs = a.issued_certs ++ d ∷ [] }

-- From the parsed key on; the template is its own parent.
unfoldable pub renew_in :
    Crypto → String → Draw → ℕ → Bool → String → String → Authority → Authority × Outcome (Unit {0})
unfolding add_ca
renew_in c name draw now changed k public_key a = elim (needs_cert c now a.ca_cert) [
  | none ↦ (a, fail bad_certificate)
  | some needed ↦
      if needed
      then elim draw.serial_number [
        | none ↦ (a, fail random)
        | some sn ↦
            let t = ca_template name public_key sn now in
            elim (c.create_certificate t name k) [
              | none ↦ (a, fail signing)
              | some raw ↦ (add_ca (new_certificate c sn raw) a, save tt)
            ]
      ]
      else (a, commit_if changed)
]

unfoldable pub init_in :
    Crypto → String → String → Draw → ℕ → Authority → Authority × Outcome (Unit {0})
unfolding renew_in
init_in c name key_type draw now a = elim (ca_key key_type draw a) [
  | none ↦ (a, fail key_generation)
  | some (bytes, changed) ↦
      let b = record a { private_key = bytes } in
      elim (c.parse_key bytes) [
        | none ↦ (b, fail bad_key)
        | some k ↦ elim (c.public k) [
          | none ↦ (b, fail bad_key)
          | some public_key ↦ renew_in c name draw now changed k public_key b
        ]
      ]
]

unfoldable pub init_ca :
    {F : Type 0}
    → Storage F
    → Crypto
    → String
    → String
    → Draw
    → ℕ
    → PkiManager F
    → PkiManager F × Call PkiError (Unit {0})
init_ca st c name key_type draw now m = update st (init_in c name key_type draw now) m
