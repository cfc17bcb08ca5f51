-- ===== src/Pki/Ocsp.antt =====
-- The answers to OCSP requests.
use Prim.Native.String.{String}
use rp.Prelude.{ℕ, ◌+◌, Bool, ◌&&◌, Option, none, some, List, [], ◌∷◌, if◌then◌else◌}
use rp.Prelude.Text.{string_eq, ◌=?◌}
use rp.Prelude.Call.{Call, ok, err, panic, ◌>>=◌}
use rp.Pki.{
  PkiError, not_found, bad_certificate, bad_key, invalid_hash, ocsp, Certificate, Authority, X509,
  Crypto, Storage, PkiManager, serial,
}
use rp.Pki.Delegate.{Draw, maybe_rotate_delegate_cert}
use rp.Pki.Listing.{crl_refresh_period}

pub data Status : Type 0 where
  good revoked unknown : Status

pub record OcspAnswer : Type 0 where
  pub status : Status
  pub serial_number : ℕ
  pub this_update : ℕ
  pub next_update : ℕ
  pub revoked_at : ℕ
  pub revocation_reason : ℕ

-- The hash is that of the request's algorithm, if it is available.
pub record OcspRequest : Type 0 where
  pub hash : Option (String → String)
  pub issuer_name_hash : String
  pub issuer_key_hash : String
  pub serial_number : ℕ

-- `publicKeyFromCert` on the parsed certificate, and `ocsp.CreateResponse`.
pub record OcspCrypto : Type 0 where
  pub public_key_bytes : X509 → Option String
  pub create_response : X509 → X509 → OcspAnswer → String → Option String

unfoldable pub find_issued : String → List Certificate → Option Certificate
find_issued snh [] = none
find_issued snh (c ∷ cs) = if c.serial_number =? snh then some c else find_issued snh cs

abbrev pub plain : Status → ℕ → ℕ → OcspAnswer
plain status sn now = record {
  status = status;
  serial_number = sn;
  this_update = now;
  next_update = now + crl_refresh_period;
  revoked_at = 0;
  revocation_reason = 0;
}

-- RevokeReasonCertificateHold
abbrev pub certificate_hold : ℕ
certificate_hold = 6

abbrev pub revoked_answer : ℕ → ℕ → ℕ → ℕ → OcspAnswer
revoked_answer sn now time reason = record (plain revoked sn now) {
  revoked_at = time;
  revocation_reason = reason;
}

unfoldable pub answer : Bool → Option Certificate → ℕ → ℕ → OcspAnswer
answer issuer_fits issued sn now =
    if issuer_fits
    then elim issued [
      | none ↦ revoked_answer sn now now certificate_hold
      | some c ↦ elim c.revocation [
        | none ↦ plain good sn now
        | some r ↦ revoked_answer sn now r.time r.reason_code
      ]
    ]
    else plain unknown sn now

abbrev pub issuer_fits : OcspRequest → (String → String) → String → String → Bool
issuer_fits req h subject key = req.issuer_name_hash =? h subject && req.issuer_key_hash =? h key

abbrev pub created : Option String → Call PkiError String
created none = err ocsp
created (some raw) = ok raw

unfoldable pub respond :
    Crypto → OcspCrypto → OcspRequest → (String → String) → ℕ → Authority → Call PkiError String
unfolding find_issued answer
respond c o req h now a = elim a.ca_cert [
  | none ↦ panic
  | some ca ↦ elim (c.parse ca.raw) [
    | none ↦ err bad_certificate
    | some x ↦ elim a.delegate_certs [
      | [] ↦ panic
      | d ∷ ds ↦ elim (c.parse d.raw) [
        | none ↦ err bad_certificate
        | some y ↦ elim (o.public_key_bytes x) [
          | none ↦ err bad_certificate
          | some key ↦ elim (c.parse_key a.delegate_key) [
            | none ↦ err bad_key
            | some k ↦ elim (c.public k) [
              | none ↦ err bad_key
              | some p ↦ created (
                  o.create_response x y
                    (answer (issuer_fits req h x.subject key)
                      (find_issued (serial c req.serial_number) a.issued_certs) req.serial_number
                      now)
                    k)
            ]
          ]
        ]
      ]
    ]
  ]
]

unfoldable pub ocsp_response :
    {F : Type 0}
    → Storage F
    → Crypto
    → OcspCrypto
    → String
    → String
    → Draw
    → ℕ
    → OcspRequest
    → PkiManager F
    → PkiManager F × Call PkiError String
ocsp_response st c o name key_type draw now req m = elim req.hash [
  | none ↦ (m, err invalid_hash)
  | some h ↦
      let r = maybe_rotate_delegate_cert st c name key_type draw now m in
      (r.0, r.1 >>= λ u. elim r.0.db [ none ↦ err not_found | some a ↦ respond c o req h now a ])
]
