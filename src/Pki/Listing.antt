-- ===== src/Pki/Listing.antt =====
-- The certificate revocation list: which stored list is still served, and how a new one is made.
use Prim.Native.String.{String}
use rp.Prelude.{
  ℕ, ◌+◌, ◌-◌, ◌/◌, Bool, not, ◌&&◌, Option, none, some, List, [], ◌∷◌, ◌++◌, ltb, if◌then◌else◌,
  length, drop,
}
use rp.Prelude.Call.{Call, ok, err, panic}
use rp.Pki.{
  PkiError, bad_certificate, bad_key, bad_crl, signing, Revocation, Certificate, RevocationList,
  Authority, X509, CrlEntry, Crl, Crypto, Storage, PkiManager, Outcome, save, done, fail, crash,
  update,
}
use rp.Pki.Delegate.{Draw, maybe_rotate_delegate_cert}

-- time.Hour
abbrev pub crl_refresh_period : ℕ
crl_refresh_period = 3600000000000

abbrev pub max_num_crl : ℕ
max_num_crl = 128

abbrev pub time_of : Option Revocation → ℕ
time_of none = 0
time_of (some r) = r.time

-- The loop from `latest`, which is the zero time at first.
unfoldable pub last_revocation : List Certificate → ℕ → ℕ
last_revocation [] latest = latest
last_revocation (c ∷ cs) latest =
    last_revocation cs (if ltb latest (time_of c.revocation) then time_of c.revocation else latest)

unfoldable pub last_list : List RevocationList → Option RevocationList
last_list [] = none
last_list (r ∷ []) = some r
last_list (r ∷ s ∷ rs) = last_list (s ∷ rs)

unfoldable pub still_good : Crl → ℕ → ℕ → Bool
still_good rl last now =
    not (ltb rl.this_update last) && ltb now (rl.next_update + crl_refresh_period / 2)

abbrev pub entry : X509 → Revocation → CrlEntry
entry x r = record {
  serial_number = x.serial_number;
  revocation_time = r.time;
  reason_code = r.reason_code;
}

-- The entries for the issued certificates; a certificate that does not parse is an error.
unfoldable pub entries : Crypto → ℕ → List Certificate → Option (List CrlEntry)
entries c now [] = some []
entries c now (d ∷ ds) =
    let rest = entries c now ds in
    elim d.revocation [
      | none ↦ rest
      | some r ↦ elim (c.parse d.raw) [
        | none ↦ none
        | some x ↦
            if ltb x.not_after now
            then rest
            else elim rest [ none ↦ none | some es ↦ some (entry x r ∷ es) ]
      ]
    ]

unfoldable pub keep_lists : List RevocationList → List RevocationList
keep_lists rs = drop (length rs - max_num_crl) rs

-- `m.db.CRLNumber++`, and the list that is signed.
abbrev pub next_crl : ℕ → Authority → X509 → List CrlEntry → Crl
next_crl now a x es = record {
  issuer = x.subject;
  number = a.crl_number + 1;
  this_update = now;
  next_update = now + crl_refresh_period;
  entries = es;
}

unfoldable pub sign_list :
    Crypto
    → ℕ
    → Authority
    → Certificate
    → X509
    → List CrlEntry
    → Authority × Outcome (String × String)
sign_list c now a d x es =
    let b = record a { crl_number = a.crl_number + 1 } in
    elim (c.parse_key a.delegate_key) [
      | none ↦ (b, fail bad_key)
      | some k ↦ elim (c.public k) [
        | none ↦ (b, fail bad_key)
        | some p ↦ elim (c.create_revocation_list (next_crl now a x es) x k) [
          | none ↦ (b, fail signing)
          | some raw ↦ (
            record b {
              revocation_lists =
                  keep_lists
                    (a.revocation_lists ++ record { raw_cert = d.raw; raw_crl = raw } ∷ []);
            },
            save (d.raw, raw),
          )
        ]
      ]
    ]

unfoldable pub create_list : Crypto → ℕ → Authority → Authority × Outcome (String × String)
unfolding sign_list entries
create_list c now a = elim a.delegate_certs [
  | [] ↦ (a, crash)
  | d ∷ ds ↦ elim (c.parse d.raw) [
    | none ↦ (a, fail bad_certificate)
    | some x ↦ elim (entries c now a.issued_certs) [
      | none ↦ (record a { crl_number = a.crl_number + 1 }, fail bad_certificate)
      | some es ↦ sign_list c now a d x es
    ]
  ]
]

unfoldable pub list_in : Crypto → ℕ → Authority → Authority × Outcome (String × String)
unfolding create_list still_good last_revocation last_list
list_in c now a = elim (last_list a.revocation_lists) [
  | none ↦ create_list c now a
  | some last ↦ elim (c.parse_revocation_list last.raw_crl) [
    | none ↦ (a, fail bad_crl)
    | some rl ↦
        if still_good rl (last_revocation a.issued_certs 0) now
        then (a, done (last.raw_cert, last.raw_crl))
        else create_list c now a
  ]
]

unfoldable pub revocation_list :
    {F : Type 0}
    → Storage F
    → Crypto
    → String
    → String
    → Draw
    → ℕ
    → PkiManager F
    → PkiManager F × Call PkiError (String × String)
revocation_list st c name key_type draw now m =
    let r = maybe_rotate_delegate_cert st c name key_type draw now m in
    elim r.1 [ ok u ↦ update st (list_in c now) r.0 | err e ↦ (r.0, err e) | panic ↦ (r.0, panic) ]
