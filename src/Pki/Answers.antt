-- ===== src/Pki/Answers.antt =====
-- Who signs an OCSP response, and what it says of a serial number.
use Prim.Native.String.{String}
use rp.Prelude.{ℕ, ◌+◌, ◌≡◌, ◌≢◌, ◌↔◌, none, some, List, ◌∷◌}
use rp.Pki.{Revocation, Certificate, Authority, X509, Crypto, serial}
use rp.Pki.Listing.{crl_refresh_period}
use rp.Pki.Ocsp.{good, unknown, OcspAnswer, OcspRequest, OcspCrypto}

-- The certificate is the first in the list with the serial number.
pub data IsFirst (snh : String) (d : Certificate) : List Certificate → Type 0 where
  found : {cs : List Certificate} → d.serial_number ≡ snh → IsFirst snh d (d ∷ cs)
  beyond :
      {b : Certificate} {cs : List Certificate}
      → b.serial_number ≢ snh
      → IsFirst snh d cs
      → IsFirst snh d (b ∷ cs)

module _ (c : Crypto) (o : OcspCrypto) (req : OcspRequest) (now : ℕ) where
  -- What an answer says, where `Fits` is that the request is about this issuer.
  pub record Tells (Fits : Type 0) (cs : List Certificate) (ans : OcspAnswer) : Type 0 where
    pub about : ans.serial_number ≡ req.serial_number
    pub fresh : (ans.this_update ≡ now) × (ans.next_update ≡ now + crl_refresh_period)
    pub other_issuer : (ans.status ≡ unknown) ↔ ¬ Fits
    pub valid : (ans.status ≡ good) ↔ (
        Fits
        × ((d : Certificate) × IsFirst (serial c req.serial_number) d cs × (d.revocation ≡ none)))
    pub when :
        (d : Certificate) (r : Revocation)
        → Fits
        → IsFirst (serial c req.serial_number) d cs
        → d.revocation ≡ some r
        → (ans.revoked_at ≡ r.time) × (ans.revocation_reason ≡ r.reason_code)

  -- The names of the request are those of the parsed certificate of the authority.
  abbrev pub Fits : (String → String) → X509 → String → Type 0
  Fits h x key = (req.issuer_name_hash ≡ h x.subject) × (req.issuer_key_hash ≡ h key)

  abbrev pub Signed : (String → String) → Authority → String → Type 0
  Signed h a raw =
      (ca : Certificate) × (x : X509) × (key : String) × (d : Certificate) × (ds : List Certificate)
      × (y : X509) × (k : String) × (ans : OcspAnswer) × (a.ca_cert ≡ some ca)
      × (c.parse ca.raw ≡ some x)
      × (o.public_key_bytes x ≡ some key)
      × (a.delegate_certs ≡ d ∷ ds)
      × (c.parse d.raw ≡ some y)
      × (c.parse_key a.delegate_key ≡ some k)
      × (o.create_response x y ans k ≡ some raw)
      × Tells (Fits h x key) a.issued_certs ans
