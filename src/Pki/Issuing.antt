-- ===== src/Pki/Issuing.antt =====
-- `signCertificate` and `IssueCertificate`.
use Prim.Native.String.{String}
use rp.Prelude.{ℕ, ◌+◌, false, Option, none, some, List, [], ◌∷◌, ◌++◌}
use rp.Prelude.Call.{Call, err}
use rp.Pki.{
  PkiError, random, bad_certificate, bad_key, signing, Certificate, Authority, Template, Usage,
  data_encipherment, digital_signature, server_auth, client_auth, Crypto, Storage, PkiManager,
  Outcome, save, fail, crash, update, serial, bytes_to_hex, cert_lifetime,
}

abbrev pub new_certificate : Crypto → ℕ → String → Certificate
new_certificate c sn raw = record {
  sha256 = bytes_to_hex (c.sum256 raw);
  serial_number = serial c sn;
  raw = raw;
  revocation = none;
}

-- `signCertificate` from its `open` to its commit; `next` is the caller's function, which returns
-- no error.
unfoldable pub sign_in :
    Crypto
    → Template
    → (Certificate → Authority → Authority)
    → Authority
    → Authority × Outcome String
sign_in c t next a = elim a.ca_cert [
  | none ↦ (a, crash)
  | some ca ↦ elim (c.parse ca.raw) [
    | none ↦ (a, fail bad_certificate)
    | some parent ↦ elim (c.parse_key a.private_key) [
      | none ↦ (a, fail bad_key)
      | some k ↦ elim (c.create_certificate t parent.subject k) [
        | none ↦ (a, fail signing)
        | some raw ↦
            let cert = new_certificate c t.serial_number raw in
            (next cert (record a { issued_certs = a.issued_certs ++ cert ∷ [] }), save raw)
      ]
    ]
  ]
]

unfoldable pub sign_certificate :
    {F : Type 0}
    → Storage F
    → Crypto
    → Template
    → (Certificate → Authority → Authority)
    → PkiManager F
    → PkiManager F × Call PkiError String
sign_certificate st c t next m = update st (sign_in c t next) m

-- What `IssueCertificate` takes over from a request.
pub record CertificateRequest : Type 0 where
  pub subject : String
  pub public_key : String
  pub dns_names : List String
  pub email_addresses : List String
  pub ip_addresses : List String
  pub uris : List String

abbrev pub request_usage : List String → List String → Usage
request_usage [] [] = client_auth
request_usage _ _ = server_auth

unfoldable pub request_template : ℕ → ℕ → CertificateRequest → Template
request_template now sn cr = record {
  serial_number = sn;
  subject = cr.subject;
  public_key = cr.public_key;
  not_before = now;
  not_after = now + cert_lifetime;
  usages = data_encipherment ∷ digital_signature ∷ request_usage cr.dns_names cr.ip_addresses ∷ [];
  is_ca = false;
  dns_names = cr.dns_names;
  email_addresses = cr.email_addresses;
  ip_addresses = cr.ip_addresses;
  uris = cr.uris;
}

-- `sn` is the random serial number, or `none` if the random source fails.
unfoldable pub issue_certificate :
    {F : Type 0}
    → Storage F
    → Crypto
    → ℕ
    → Option ℕ
    → CertificateRequest
    → PkiManager F
    → PkiManager F × Call PkiError String
issue_certificate st c now none cr m = (m, err random)
issue_certificate st c now (some sn) cr m =
    sign_certificate st c (request_template now sn cr) (λ cert a. a) m
