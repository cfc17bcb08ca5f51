-- ===== src/Examples/Certificates.antt =====
-- A certificate authority over a file that never fails.
use Prim.Native.String.{String}
use rp.Prelude.{◌≤◌, ◌≡◌, Bool, refl, true, false, none, some, List, [], ◌∷◌, ◌++◌, arith}
use rp.Prelude.Text.{string_eq}
use rp.Prelude.Map.{Map, lookup}
use rp.Prelude.Call.{ok}
use rp.Pki.{
  Authority, Certificate, X509, Crypto, Storage, PkiManager, save, serial, bytes_to_hex,
  revoke_certificate, is_revoked, revoked_in, true_in, update, revoke_in, revoke_first, finish, Crl,
  done,
}
use rp.Pki.Listing.{last_revocation, list_in, create_list, sign_list, entries, last_list}
use rp.Pki.Ocsp.{OcspCrypto, OcspRequest, ocsp_response, respond}
use rp.Pki.Delegate.{Draw, maybe_rotate_delegate_cert, needs_update}
use rp.Pki.Keeping.{KeepsRevoked, Op, revoke, run}
use rp.Pki.Durability.{revoke-is_revoked}
use rp.Pki.Staleness.{missed_revocation}
use rp.Pki.Contents.{Saved, list_in-Saved}

-- The file is the authority itself. What is read goes into the set in memory, whose serial numbers
-- stay.
abbrev disk : Storage Authority
disk = record {
  open_for_update = λ f mem. elim mem [
    | none ↦ some f
    | some b ↦ some (record f { revoked = f.revoked ++ b.revoked })
  ];
  commit = λ f a. some a;
}

true_in-append :
    (snh : String) (xs ys : Map String Bool)
    → true_in (lookup snh xs) ≡ true
    → true_in (lookup snh (xs ++ ys)) ≡ true
unfolding lookup
true_in-append snh [] ys h = absurd (ground arith)
true_in-append snh ((k, v) ∷ xs) ys h = ground (arith, true_in-append snh xs ys)

disk-KeepsRevoked : KeepsRevoked disk
unfolding revoked_in
disk-KeepsRevoked f g a b none snh p q h = let same : b ≡ a = cc in rw same h
disk-KeepsRevoked f g a b (some o) snh p q h =
    let same : b ≡ record a { revoked = a.revoked ++ o.revoked } = cc in
    rw same (true_in-append snh a.revoked o.revoked h)

abbrev parsed_cert : X509
parsed_cert = record {
  serial_number = 7;
  subject = "CN";
  not_before = 0;
  not_after = 100;
  is_ed25519 = false;
}

abbrev crypto : Crypto
crypto = record {
  bytes = λ n. n ∷ [];
  sum256 = λ s. [];
  parse = λ s. some parsed_cert;
  parse_key = λ s. some s;
  public = λ s. some s;
  create_certificate = λ t p k. some "der";
  create_revocation_list = λ l x k. some "crl";
  parse_revocation_list = λ s. none;
}

abbrev ocsp_crypto : OcspCrypto
ocsp_crypto = record {
  public_key_bytes = λ x. some "k";
  create_response = λ x y a k. some "answer";
}

abbrev leaf : Certificate
leaf = record { sha256 = ""; serial_number = "07"; raw = "leaf"; revocation = none }

abbrev delegate : Certificate
delegate = record { sha256 = ""; serial_number = "08"; raw = "dleaf"; revocation = none }

abbrev authority : Authority
authority = record {
  name = "ca";
  private_key = "key";
  ca_cert = some leaf;
  delegate_key = "dkey";
  delegate_certs = delegate ∷ [];
  issued_certs = leaf ∷ delegate ∷ [];
  crl_number = 0;
  revocation_lists = [];
  revoked = [];
}

abbrev manager : PkiManager Authority
manager = record { file = authority; db = some authority }

-- The authority after the certificate 7 was revoked at the time 50.
abbrev after_revoke : Authority
after_revoke = record authority {
  private_key = "";
  issued_certs =
      record leaf { revocation = some (record { time = 0; reason_code = 1 }) } ∷ delegate ∷ [];
  revoked = ("07", true) ∷ [];
}

abbrev revocations : List Op
revocations = revoke 50 7 1 ∷ []

revoked_now : (revoke_certificate disk crypto 50 7 1 manager).1 ≡ ok tt
unfolding revoke_certificate update revoke_in revoke_first finish serial bytes_to_hex
revoked_now = refl

revoke-is_revoked_example :
    is_revoked crypto 7 (
      run disk crypto ocsp_crypto "ca" "ecdsa-p256" revocations
        (revoke_certificate disk crypto 50 7 1 manager).0)
    ≡ true
revoke-is_revoked_example =
    revoke-is_revoked disk disk-KeepsRevoked crypto manager 50 7 1 ocsp_crypto "ca" "ecdsa-p256"
      revocations revoked_now

list_made : (list_in crypto 60 after_revoke).1 ≡ save ("dleaf", "crl")
unfolding list_in create_list sign_list entries last_list
list_made = refl

list_in-Saved_example :
    Saved crypto 60 after_revoke "dleaf" "crl" (list_in crypto 60 after_revoke).0
list_in-Saved_example = list_in-Saved crypto 60 after_revoke "dleaf" "crl" list_made

-- A list that was made in the second 10, and a certificate that is revoked later in this second.
abbrev stored_list : Crl
stored_list = record {
  issuer = "CN";
  number = 1;
  this_update = 10000000000;
  next_update = 3610000000000;
  entries = [];
}

abbrev with_list : Authority
with_list = record authority {
  crl_number = 1;
  revocation_lists = record { raw_cert = "leaf"; raw_crl = "crl0" } ∷ [];
}

abbrev reads_list : Crypto
reads_list = record crypto { parse_revocation_list = λ s. some stored_list }

stored_last :
    last_list with_list.revocation_lists ≡ some (record { raw_cert = "leaf"; raw_crl = "crl0" })
unfolding last_list
stored_last = refl

none_before : last_revocation with_list.issued_certs 0 ≤ 10000000000
unfolding last_revocation
none_before = omega arith

missed_revocation_example :
    (list_in reads_list 20000000000
      (revoke_in "07" (record { time = 10000000000; reason_code = 1 }) with_list).0).1
    ≡ done ("leaf", "crl0")
missed_revocation_example =
    missed_revocation reads_list with_list (record { raw_cert = "leaf"; raw_crl = "crl0" })
      stored_list "07" 10700000000 1 20000000000 stored_last refl none_before refl (omega arith)

abbrev lasting : Crypto
lasting = record crypto { parse = λ s. some (record parsed_cert { subject = s; not_after = 1000 }) }

abbrev no_draw : Draw
no_draw = record { generate_key = λ k. none; serial_number = none }

abbrev question : OcspRequest
question = record {
  hash = some (λ s. s);
  issuer_name_hash = "leaf";
  issuer_key_hash = "k";
  serial_number = 7;
}

abbrev revoked_manager : PkiManager Authority
revoked_manager = record { file = after_revoke; db = some after_revoke }

answered :
    (ocsp_response disk lasting ocsp_crypto "ca" "ecdsa-p256" no_draw 60 question revoked_manager).1
    ≡ ok "answer"
unfolding ocsp_response maybe_rotate_delegate_cert needs_update respond
answered = refl
