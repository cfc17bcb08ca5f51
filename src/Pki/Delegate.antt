-- ===== src/Pki/Delegate.antt =====
-- The delegate key and certificate, which sign revocation lists and OCSP answers.
use Prim.Native.String.{String, ◌++◌ as str_append}
use rp.Prelude.{
  ℕ, ◌+◌, ◌-◌, ◌/◌, Bool, true, ◌||◌, Option, none, some, List, [], ◌∷◌, ltb, if◌then◌else◌,
}
use rp.Prelude.Text.{string_eq, ◌=?◌}
use rp.Prelude.Call.{Call, ok, err, panic}
use rp.Pki.{
  PkiError, no_ca, bad_certificate, key_generation, random, Certificate, Authority, X509, crl_sign,
  ocsp_signing, Template, Crypto, Storage, PkiManager,
}
use rp.Pki.Issuing.{sign_certificate}

-- 10 * 24 * time.Hour
abbrev pub delegate_lifetime : ℕ
delegate_lifetime = 864000000000000

-- The certificate is past the middle of its life.
abbrev pub half_spent : X509 → ℕ → Bool
half_spent x now = ltb (x.not_before + (x.not_after - x.not_before) / 2) now

unfoldable pub needs_update : Crypto → ℕ → List Certificate → Bool
needs_update c now [] = true
needs_update c now (d ∷ ds) = elim (c.parse d.raw) [
  | none ↦ true
  | some x ↦ half_spent x now || x.is_ed25519
]

-- The last delegate certificate is kept beside the new one.
abbrev pub keep_last : List Certificate → List Certificate
keep_last [] = []
keep_last (d ∷ ds) = d ∷ []

unfoldable pub set_delegate : String → Certificate → Authority → Authority
set_delegate bytes cert a = record a {
  delegate_key = bytes;
  delegate_certs = cert ∷ keep_last a.delegate_certs;
}

unfoldable pub delegate_template : String → String → ℕ → ℕ → Template
delegate_template name public_key sn now = record {
  serial_number = sn;
  subject = str_append name " CRL OCSP";
  public_key = public_key;
  not_before = now;
  not_after = now + delegate_lifetime;
  usages = crl_sign ∷ ocsp_signing ∷ [];
  is_ca = true;
  dns_names = [];
  email_addresses = [];
  ip_addresses = [];
  uris = [];
}

-- What the rotation draws: the public key and the bytes of a new key of a type, and a serial number.
pub record Draw : Type 0 where
  pub generate_key : String → Option (String × String)
  pub serial_number : Option ℕ

abbrev pub delegate_key_type : String → String
delegate_key_type kt = if kt =? "ed25519" then "ecdsa-p256" else kt

unfoldable pub maybe_rotate_delegate_cert :
    {F : Type 0}
    → Storage F
    → Crypto
    → String
    → String
    → Draw
    → ℕ
    → PkiManager F
    → PkiManager F × Call PkiError (Unit {0})
maybe_rotate_delegate_cert st c name key_type draw now m = elim m.db [
  | none ↦ (m, err no_ca)
  | some a ↦
      if needs_update c now a.delegate_certs
      then elim a.ca_cert [
        | none ↦ (m, panic)
        | some ca ↦ elim (c.parse ca.raw) [
          | none ↦ (m, err bad_certificate)
          | some x ↦ elim (draw.generate_key (delegate_key_type key_type)) [
            | none ↦ (m, err key_generation)
            | some (public_key, bytes) ↦ elim draw.serial_number [
              | none ↦ (m, err random)
              | some sn ↦
                  let r =
                    sign_certificate st c (delegate_template name public_key sn now)
                      (set_delegate bytes) m in
                  (r.0, elim r.1 [ ok raw ↦ ok tt | err e ↦ err e | panic ↦ panic ])
            ]
          ]
        ]
      ]
      else (m, ok tt)
]
