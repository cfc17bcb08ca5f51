-- ===== src/Pki/Durability.antt =====
-- A revocation that succeeded is never lost.
use Prim.Native.String.{String}
use rp.Prelude.{
  ℕ, ◌≡◌, refl, Bool, true, false, Option, none, some, List, [], ◌∷◌, ◌/◌, ◌*◌, Option-cases, inl,
  inr, arith,
}
use rp.Prelude.Text.{string_eq, beq_refl}
use rp.Prelude.Map.{Map, lookup, insert, lookup-insert}
use rp.Prelude.Call.{ok}
use rp.Pki.{
  Revocation, Certificate, Authority, Crypto, Storage, PkiManager, Outcome, save, done, fail, crash,
  serial, finish, update, revoke_first, revoke_in, revoke_certificate, revoked_in, true_in,
  is_revoked, wiped, second,
}
use rp.Pki.Issuing.{issue_certificate, sign_certificate}
use rp.Pki.Ocsp.{OcspCrypto, ocsp_response}
use rp.Pki.Delegate.{Draw, maybe_rotate_delegate_cert}
use rp.Pki.Creation.{init_ca}
use rp.Pki.Listing.{list_in, revocation_list}
use rp.Pki.Keeping.{
  KeepsRevoked, Op, revoke, start, issue, list_revoked, answer_ocsp, step, run, run-Good,
  rotate-cases,
}

abbrev pub present : Option Authority → Bool
present none = false
present (some a) = true

module _ {F : Type 0} (st : Storage F) (c : Crypto) (o : OcspCrypto) (name key_type : String) where
  finish-present :
      {A : Type 0} (f : F) (a : Authority) (out : Outcome A)
      → present (finish st f a out).0.db ≡ true
  unfolding finish
  finish-present f a (save x) = elim (Option-cases (st.commit f a)) [
    | inl e ↦ rw (finish, e) refl
    | inr (g, e) ↦ rw (finish, e) refl
  ]
  finish-present f a (done x) = refl
  finish-present f a (fail e) = refl
  finish-present f a crash = refl

  update-present :
      {A : Type 0} (body : Authority → Authority × Outcome A) (m : PkiManager F)
      → present m.db ≡ true
      → present (update st body m).0.db ≡ true
  unfolding update
  update-present body m p = elim (Option-cases (st.open_for_update m.file m.db)) [
    | inl e ↦ rw (update, e) p
    | inr (a, e) ↦ rw (update, e) (finish-present m.file (body a).0 (body a).1)
  ]

  rotate-present :
      (draw : Draw) (now : ℕ) (m : PkiManager F)
      → present m.db ≡ true
      → present (maybe_rotate_delegate_cert st c name key_type draw now m).0.db ≡ true
  rotate-present draw now m p = elim (rotate-cases st c name key_type draw now m) [
    | inl e ↦ rw e p
    | inr (bytes, t, e) ↦ rw e (unfold sign_certificate in update-present _ m p)
  ]

  step-present :
      (op : Op) (m : PkiManager F)
      → present m.db ≡ true
      → present (step st c o name key_type op m).db ≡ true
  unfolding step
  step-present (revoke now sn reason) m p = unfold revoke_certificate in update-present _ m p
  step-present (start draw now) m p = unfold init_ca in update-present _ m p
  step-present (issue now none cr) m p = unfold issue_certificate in p
  step-present (issue now (some sn) cr) m p =
      unfold issue_certificate sign_certificate in update-present _ m p
  step-present (list_revoked draw now) m p =
      let r = rotate-present draw now m p in
      let u =
        update-present (list_in c now) (maybe_rotate_delegate_cert st c name key_type draw now m).0
          r in
      unfold revocation_list in ground arith
  step-present (answer_ocsp draw now req) m p =
      unfold ocsp_response in ground (arith, rotate-present draw now m p)

  run-present :
      (ops : List Op) (m : PkiManager F)
      → present m.db ≡ true
      → present (run st c o name key_type ops m).db ≡ true
  unfolding run
  run-present [] m p = p
  run-present (op ∷ ops) m p = run-present ops _ (step-present op m p)

abbrev Marked : String → List Certificate → Map String Bool → Type 0
Marked snh cs m = true_in (lookup snh m) ≡ true

Marked-revoke :
    (snh : String) (cs ds : List Certificate) (m : Map String Bool) (j : String) (r : Revocation)
    → revoke_first j r cs ≡ some ds
    → Marked snh cs m
    → Marked snh ds (insert j true m)
Marked-revoke snh cs ds m j r e h = ground (arith, lookup-insert j snh true m)

module _ {F : Type 0} (st : Storage F) (law : KeepsRevoked st) (c : Crypto) (m : PkiManager F)
    (now sn reason : ℕ) where
  abbrev MarkedAfter : PkiManager F → Type 0
  MarkedAfter n =
      ((mem : Option Authority) (a : Authority)
        → st.open_for_update n.file mem ≡ some a
        → revoked_in (serial c sn) a ≡ true)
      × ((a : Authority) → n.db ≡ some a → revoked_in (serial c sn) a ≡ true)
      × (present n.db ≡ true)

  marked :
      (revoke_certificate st c now sn reason m).1 ≡ ok tt
      → MarkedAfter (revoke_certificate st c now sn reason m).0
  unfolding revoke_certificate update revoke_in finish revoked_in
  marked h = elim (Option-cases (st.open_for_update m.file m.db)) [
    | inl e ↦ absurd (ground arith)
    | inr (a, e) ↦ elim (Option-cases (revoke_first (serial c sn) r a.issued_certs)) [
      | inl p ↦ absurd (ground arith)
      | inr (cs, p) ↦ elim (Option-cases (st.commit m.file (after a cs))) [
        | inl q ↦ absurd (ground arith)
        | inr (f, q) ↦
            let saved : (revoke_certificate st c now sn reason m).0
                ≡ record { file = f; db = some (wiped (after a cs)) } =
              ground arith in
            rw saved (
              λ mem b k. law m.file f (after a cs) b mem (serial c sn) q k (shown a),
              λ b k. ground (arith, shown a),
              refl,
            )
      ]
    ]
  ]
    where
      r : Revocation
      r = record { time = now / second * second; reason_code = reason }

      after : Authority → List Certificate → Authority
      after a cs = record a { issued_certs = cs; revoked = insert (serial c sn) true a.revoked }

      shown :
          (a : Authority)
          → true_in (lookup (serial c sn) (insert (serial c sn) true a.revoked)) ≡ true
      shown a = ground (
        arith,
        lookup-insert (serial c sn) (serial c sn) true a.revoked,
        beq_refl {A = String} (serial c sn),
      )

  -- With a storage in which a serial number that is saved as revoked is revoked in what is read
  -- back, whatever the memory that it is read into holds: once `RevokeCertificate` has returned no
  -- error for a serial number, `IsRevoked` is true of this number after any later calls, whichever
  -- of them fail.
  pub revoke-is_revoked :
      (o : OcspCrypto) (name key_type : String) (ops : List Op)
      → (revoke_certificate st c now sn reason m).1 ≡ ok tt
      → is_revoked c sn (run st c o name key_type ops (revoke_certificate st c now sn reason m).0)
        ≡ true
  unfolding is_revoked revoked_in
  revoke-is_revoked o name key_type ops h =
      let (file, db, there) = marked h in
      let start = (revoke_certificate st c now sn reason m).0 in
      let end = run st c o name key_type ops start in
      let p = run-present st c o name key_type ops start there in
      let good =
        run-Good st c o name key_type (Marked (serial c sn))
          (λ f g a b mem. law f g a b mem (serial c sn)) (λ cs m d n h. h)
          (Marked-revoke (serial c sn)) ops start (file, db) in
      elim (Option-cases end.db) [ inl e ↦ absurd (ground arith) | inr (a, e) ↦ rw e (good.1 a e) ]
