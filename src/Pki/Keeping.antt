-- ===== src/Pki/Keeping.antt =====
-- What every operation keeps of the issued certificates and the set of revoked serial numbers, in
-- memory and in the file, when it holds of both before.
use Prim.Native.String.{String}
use rp.Prelude.{
  ℕ, ◌≡◌, ◌⊎◌, refl, Bool, true, false, Option, none, some, List, [], ◌∷◌, ◌++◌, inl, inr,
  Option-cases, Bool-cases, arith,
}
use rp.Prelude.Text.{string_eq}
use rp.Prelude.Map.{Map, insert}
use rp.Pki.{
  Revocation, Certificate, Authority, Template, Crypto, Storage, PkiManager, Outcome, save, done,
  fail, crash, finish, update, revoke_first, revoke_in, revoke_certificate, revoked_in,
}
use rp.Pki.Issuing.{
  CertificateRequest, new_certificate, sign_in, sign_certificate, issue_certificate,
}
use rp.Pki.Delegate.{
  Draw, set_delegate, delegate_template, needs_update, delegate_key_type,
  maybe_rotate_delegate_cert,
}
use rp.Pki.Creation.{ca_key, needs_cert, ca_template, add_ca, renew_in, init_in, init_ca}
use rp.Pki.Listing.{list_in, create_list, sign_list, revocation_list}
use rp.Pki.Ocsp.{OcspCrypto, OcspRequest, ocsp_response}

-- One call of the manager.
pub data Op : Type 0 where
  revoke : ℕ → ℕ → ℕ → Op
  start : Draw → ℕ → Op
  issue : ℕ → Option ℕ → CertificateRequest → Op
  list_revoked : Draw → ℕ → Op
  answer_ocsp : Draw → ℕ → OcspRequest → Op

-- A serial number that is saved as revoked is revoked in what the storage reads back, into whatever
-- memory.
abbrev pub KeepsRevoked : {F : Type 0} → Storage F → Type 0
KeepsRevoked {F} st =
    (f g : F) (a b : Authority) (mem : Option Authority) (snh : String)
    → st.commit f a ≡ some g
    → st.open_for_update g mem ≡ some b
    → revoked_in snh a ≡ true
    → revoked_in snh b ≡ true

module _ {F : Type 0} (st : Storage F) (c : Crypto) (o : OcspCrypto) (name key_type : String) where
  unfoldable pub step : Op → PkiManager F → PkiManager F
  step (revoke now sn reason) m = (revoke_certificate st c now sn reason m).0
  step (start draw now) m = (init_ca st c name key_type draw now m).0
  step (issue now sn cr) m = (issue_certificate st c now sn cr m).0
  step (list_revoked draw now) m = (revocation_list st c name key_type draw now m).0
  step (answer_ocsp draw now req) m = (ocsp_response st c o name key_type draw now req m).0

  unfoldable pub run : List Op → PkiManager F → PkiManager F
  run [] m = m
  run (op ∷ ops) m = run ops (step op m)

module _ {F : Type 0} (st : Storage F) (c : Crypto) (name key_type : String) where
  pub rotate-cases :
      (draw : Draw) (now : ℕ) (m : PkiManager F)
      → ((maybe_rotate_delegate_cert st c name key_type draw now m).0 ≡ m)
        ⊎ ((bytes : String) × (t : Template) × ((maybe_rotate_delegate_cert st c name key_type draw
                now m).0
              ≡ (sign_certificate st c t (set_delegate bytes) m).0))
  unfolding maybe_rotate_delegate_cert
  rotate-cases draw now m = elim (Option-cases m.db) [
    | inl e ↦ inl (ground arith)
    | inr (a, e) ↦ elim (Bool-cases (needs_update c now a.delegate_certs)) [
      | inr n ↦ inl (ground arith)
      | inl n ↦ elim (Option-cases a.ca_cert) [
        | inl p ↦ inl (ground arith)
        | inr (ca, p) ↦ elim (Option-cases (c.parse ca.raw)) [
          | inl q ↦ inl (ground arith)
          | inr (x, q) ↦ elim (Option-cases (draw.generate_key (delegate_key_type key_type))) [
            | inl k ↦ inl (ground arith)
            | inr ((public_key, bytes), k) ↦ elim (Option-cases draw.serial_number) [
              | inl r ↦ inl (ground arith)
              | inr (sn, r) ↦ inr (bytes, delegate_template name public_key sn now, ground arith)
            ]
          ]
        ]
      ]
    ]
  ]

renew_in-cases :
    (c : Crypto) (name : String) (draw : Draw) (now : ℕ) (changed : Bool) (k public_key : String)
    (a : Authority)
    → ((renew_in c name draw now changed k public_key a).0 ≡ a)
      ⊎ ((sn : ℕ) × (raw : String) × ((renew_in c name draw now changed k public_key a).0
            ≡ add_ca (new_certificate c sn raw) a))
unfolding renew_in
renew_in-cases c name draw now changed k public_key a =
    elim (Option-cases (needs_cert c now a.ca_cert)) [
      | inl e ↦ inl (ground arith)
      | inr (true, e) ↦ elim (Option-cases draw.serial_number) [
        | inl p ↦ inl (ground arith)
        | inr (sn, p) ↦
            elim (Option-cases (c.create_certificate (ca_template name public_key sn now) name k)) [
              | inl q ↦ inl (ground arith)
              | inr (raw, q) ↦ inr (sn, raw, ground arith)
            ]
      ]
      | inr (false, e) ↦ inl (ground arith)
    ]

module _ {F : Type 0} (st : Storage F) (c : Crypto) (o : OcspCrypto) (name key_type : String)
    (Q : List Certificate → Map String Bool → Type 0)
    (kept : (f g : F) (a b : Authority) (mem : Option Authority)
      → st.commit f a ≡ some g
      → st.open_for_update g mem ≡ some b
      → Q a.issued_certs a.revoked
      → Q b.issued_certs b.revoked)
    (appended : (cs : List Certificate) (m : Map String Bool) (d : Certificate)
      → d.revocation ≡ none
      → Q cs m
      → Q (cs ++ d ∷ []) m)
    (revoked : (cs ds : List Certificate) (m : Map String Bool) (snh : String) (r : Revocation)
      → revoke_first snh r cs ≡ some ds
      → Q cs m
      → Q ds (insert snh true m)) where
  abbrev Holds : Authority → Type 0
  Holds a = Q a.issued_certs a.revoked

  abbrev pub Good : PkiManager F → Type 0
  Good m =
      ((mem : Option Authority) (a : Authority) → st.open_for_update m.file mem ≡ some a → Holds a)
      × ((a : Authority) → m.db ≡ some a → Holds a)

  finish-Good :
      {A : Type 0} (f : F) (a : Authority) (out : Outcome A)
      → ((mem : Option Authority) (b : Authority) → st.open_for_update f mem ≡ some b → Holds b)
      → Holds a
      → Good (finish st f a out).0
  unfolding finish
  finish-Good f a (save x) q h = elim (Option-cases (st.commit f a)) [
    | inl e ↦ rw (finish, e) (q, λ b p. ground arith)
    | inr (g, e) ↦ rw (finish, e) (λ mem b p. kept f g a b mem e p h, λ b p. ground arith)
  ]
  finish-Good f a (done x) q h = (q, λ b p. ground arith)
  finish-Good f a (fail e) q h = (q, λ b p. ground arith)
  finish-Good f a crash q h = (q, λ b p. ground arith)

  update-Good :
      {A : Type 0} (body : Authority → Authority × Outcome A) (m : PkiManager F)
      → ((a : Authority) → Holds a → Holds (body a).0)
      → Good m
      → Good (update st body m).0
  unfolding update
  update-Good body m keep g = elim (Option-cases (st.open_for_update m.file m.db)) [
    | inl e ↦ rw (update, e) g
    | inr (a, e) ↦
        rw (update, e) (finish-Good m.file (body a).0 (body a).1 g.0 (keep a (g.0 m.db a e)))
  ]

  revoke_in-Holds :
      (snh : String) (r : Revocation) (a : Authority) → Holds a → Holds (revoke_in snh r a).0
  unfolding revoke_in
  revoke_in-Holds snh r a h = elim (Option-cases (revoke_first snh r a.issued_certs)) [
    | inl e ↦ rw (revoke_in, e) h
    | inr (ds, e) ↦ rw (revoke_in, e) (revoked a.issued_certs ds a.revoked snh r e h)
  ]

  sign_in-cases :
      (t : Template) (next : Certificate → Authority → Authority) (a : Authority)
      → ((sign_in c t next a).0 ≡ a)
        ⊎ ((raw : String) × (let d = new_certificate c t.serial_number raw in
              (sign_in c t next a).0
              ≡ next d (record a { issued_certs = a.issued_certs ++ d ∷ [] })))
  unfolding sign_in
  sign_in-cases t next a = elim (Option-cases a.ca_cert) [
    | inl e ↦ inl (ground arith)
    | inr (ca, e) ↦ elim (Option-cases (c.parse ca.raw)) [
      | inl p ↦ inl (ground arith)
      | inr (parent, p) ↦ elim (Option-cases (c.parse_key a.private_key)) [
        | inl k ↦ inl (ground arith)
        | inr (key, k) ↦ elim (Option-cases (c.create_certificate t parent.subject key)) [
          | inl s ↦ inl (ground arith)
          | inr (raw, s) ↦ inr (raw, ground arith)
        ]
      ]
    ]
  ]

  sign_in-Holds :
      (t : Template) (next : Certificate → Authority → Authority) (a : Authority)
      → ((d : Certificate) (b : Authority) → Holds b → Holds (next d b))
      → Holds a
      → Holds (sign_in c t next a).0
  unfolding sign_in
  sign_in-Holds t next a keep h = elim (sign_in-cases t next a) [
    | inl e ↦ rw e h
    | inr (raw, e) ↦ rw e (
        keep (new_certificate c t.serial_number raw) _
          (appended a.issued_certs a.revoked (new_certificate c t.serial_number raw) refl h))
  ]

  list_in-same :
      (now : ℕ) (a : Authority)
      → ((list_in c now a).0.issued_certs ≡ a.issued_certs)
        × ((list_in c now a).0.revoked ≡ a.revoked)
  unfolding list_in create_list sign_list
  list_in-same now a = (ground arith, ground arith)

  rotate-Good :
      (draw : Draw) (now : ℕ) (m : PkiManager F)
      → Good m
      → Good (maybe_rotate_delegate_cert st c name key_type draw now m).0
  rotate-Good draw now m g = elim (rotate-cases st c name key_type draw now m) [
    | inl e ↦ rw e g
    | inr (bytes, t, e) ↦ rw e (
        unfold sign_certificate in
        update-Good (sign_in c t (set_delegate bytes)) m
          (λ a h. sign_in-Holds t (set_delegate bytes) a (λ d b k. unfold set_delegate in k) h) g)
  ]

  list_in-Holds : (now : ℕ) (a : Authority) → Holds a → Holds (list_in c now a).0
  list_in-Holds now a h = rw ((list_in-same now a).0, (list_in-same now a).1) h

  revocation_list-Good :
      (draw : Draw) (now : ℕ) (m : PkiManager F)
      → Good m
      → Good (revocation_list st c name key_type draw now m).0
  unfolding revocation_list
  revocation_list-Good draw now m g =
      let r = rotate-Good draw now m g in
      let u = update-Good (list_in c now) _ (list_in-Holds now) r in ground arith

  ocsp_response-Good :
      (draw : Draw) (now : ℕ) (req : OcspRequest) (m : PkiManager F)
      → Good m
      → Good (ocsp_response st c o name key_type draw now req m).0
  unfolding ocsp_response
  ocsp_response-Good draw now req m g = let r = rotate-Good draw now m g in ground arith

  renew_in-Holds :
      (draw : Draw) (now : ℕ) (changed : Bool) (k public_key : String) (a : Authority)
      → Holds a
      → Holds (renew_in c name draw now changed k public_key a).0
  unfolding renew_in
  renew_in-Holds draw now changed k public_key a h =
      elim (renew_in-cases c name draw now changed k public_key a) [
        | inl e ↦ rw e h
        | inr (sn, raw, e) ↦
            rw e
              (unfold add_ca in appended a.issued_certs a.revoked (new_certificate c sn raw) refl h)
      ]

  init_in-Holds :
      (draw : Draw) (now : ℕ) (a : Authority)
      → Holds a
      → Holds (init_in c name key_type draw now a).0
  unfolding init_in
  init_in-Holds draw now a h = elim (Option-cases (ca_key key_type draw a)) [
    | inl e ↦ ground arith
    | inr ((bytes, changed), e) ↦ elim (Option-cases (c.parse_key bytes)) [
      | inl p ↦ ground arith
      | inr (k, p) ↦ elim (Option-cases (c.public k)) [
        | inl q ↦ ground arith
        | inr (pk, q) ↦
            let r = renew_in-Holds draw now changed k pk (record a { private_key = bytes }) h in
            ground arith
      ]
    ]
  ]

  step-Good : (op : Op) (m : PkiManager F) → Good m → Good (step st c o name key_type op m)
  unfolding step
  step-Good (revoke now sn reason) m g =
      unfold revoke_certificate in update-Good _ m (λ a h. revoke_in-Holds _ _ a h) g
  step-Good (start draw now) m g =
      unfold init_ca in update-Good _ m (λ a h. init_in-Holds draw now a h) g
  step-Good (issue now none cr) m g = unfold issue_certificate in g
  step-Good (issue now (some sn) cr) m g =
      unfold issue_certificate sign_certificate in
      update-Good _ m (λ a h. sign_in-Holds _ _ a (λ d b k. k) h) g
  step-Good (list_revoked draw now) m g = revocation_list-Good draw now m g
  step-Good (answer_ocsp draw now req) m g = ocsp_response-Good draw now req m g

  pub run-Good : (ops : List Op) (m : PkiManager F) → Good m → Good (run st c o name key_type ops m)
  unfolding run
  run-Good [] m g = g
  run-Good (op ∷ ops) m g = run-Good ops _ (step-Good op m g)
