-- ===== src/Pki/Staleness.antt =====
-- When a stored revocation list is served though it lacks a revocation.
use Prim.Native.String.{String}
use rp.Prelude.{
  ℕ, ◌+◌, ◌/◌, ◌*◌, ◌≤◌, ◌<◌, ◌≡◌, some, List, [], ◌∷◌, ltb, if◌then◌else◌, Option-cases,
  Bool-cases, inl, inr, arith,
}
use rp.Prelude.Text.{string_eq, ◌=?◌}
use rp.Pki.{
  Revocation, Certificate, RevocationList, Authority, Crl, Crypto, done, second, revoke_first,
  revoke_in,
}
use rp.Pki.Listing.{time_of, last_revocation, last_list, still_good, list_in, crl_refresh_period}

last_revocation-from : (cs : List Certificate) (l b : ℕ) → last_revocation cs l ≤ b → l ≤ b
unfolding last_revocation
last_revocation-from [] l b h = h
last_revocation-from (c ∷ cs) l b h =
    let n = if ltb l (time_of c.revocation) then time_of c.revocation else l in
    let i = last_revocation-from cs n b h in ground arith

last_revocation-other :
    (cs : List Certificate) (l k b : ℕ)
    → k ≤ b
    → last_revocation cs l ≤ b
    → last_revocation cs k ≤ b
unfolding last_revocation
last_revocation-other [] l k b p h = p
last_revocation-other (c ∷ cs) l k b p h =
    let n = if ltb l (time_of c.revocation) then time_of c.revocation else l in
    let i = last_revocation-from cs n b h in
    let m = if ltb k (time_of c.revocation) then time_of c.revocation else k in
    last_revocation-other cs n m b (ground arith) h

last_revocation-revoke_first :
    (snh : String) (r : Revocation) (cs ds : List Certificate) (l b : ℕ)
    → revoke_first snh r cs ≡ some ds
    → r.time ≤ b
    → last_revocation cs l ≤ b
    → last_revocation ds l ≤ b
unfolding last_revocation revoke_first
last_revocation-revoke_first snh r [] ds l b e t h = absurd (cc)
last_revocation-revoke_first snh r (c ∷ cs) ds l b e t h =
    let n = if ltb l (time_of c.revocation) then time_of c.revocation else l in
    elim (Bool-cases (c.serial_number =? snh)) [
      | inl p ↦
          let same : ds ≡ record c { revocation = some r } ∷ cs = ground arith in
          let i = last_revocation-from cs n b h in
          let m = if ltb l r.time then r.time else l in
          rw (same, last_revocation) (last_revocation-other cs n m b (ground arith) h)
      | inr p ↦ elim (Option-cases (revoke_first snh r cs)) [
        | inl q ↦ absurd (ground arith)
        | inr (es, q) ↦
            let same : ds ≡ c ∷ es = ground arith in
            rw (same, last_revocation) (last_revocation-revoke_first snh r cs es n b q t h)
      ]
    ]

last_revocation-revoke_in :
    (snh : String) (r : Revocation) (a : Authority) (b : ℕ)
    → r.time ≤ b
    → last_revocation a.issued_certs 0 ≤ b
    → last_revocation (revoke_in snh r a).0.issued_certs 0 ≤ b
unfolding revoke_in
last_revocation-revoke_in snh r a b t h = elim (Option-cases (revoke_first snh r a.issued_certs)) [
  | inl e ↦ rw (revoke_in, e) h
  | inr (ds, e) ↦ rw (revoke_in, e) (last_revocation-revoke_first snh r a.issued_certs ds 0 b e t h)
]

lists-revoke_in :
    (snh : String) (r : Revocation) (a : Authority)
    → (revoke_in snh r a).0.revocation_lists ≡ a.revocation_lists
unfolding revoke_in
lists-revoke_in snh r a = ground arith

-- A revocation is missed in the second of a list: where the last stored list parses, is not older
-- than the revocations so far, and gives as its time the second (times are whole seconds in a list)
-- in which a certificate is then revoked, this same list is served, for as long as half an hour
-- after its next update.
pub missed_revocation :
    (c : Crypto) (a : Authority) (last : RevocationList) (rl : Crl) (snh : String)
    (revoked_at reason now : ℕ)
    → last_list a.revocation_lists ≡ some last
    → c.parse_revocation_list last.raw_crl ≡ some rl
    → last_revocation a.issued_certs 0 ≤ rl.this_update
    → rl.this_update ≡ revoked_at / second * second
    → now < rl.next_update + crl_refresh_period / 2
    → (list_in c now
        (revoke_in snh
          (record { time = revoked_at / second * second; reason_code = reason })
          a).0).1
      ≡ done (last.raw_cert, last.raw_crl)
unfolding list_in still_good
missed_revocation c a last rl snh revoked_at reason now e p h same young =
    let r : Revocation = record { time = revoked_at / second * second; reason_code = reason } in
    let lists = lists-revoke_in snh r a in
    let early = last_revocation-revoke_in snh r a rl.this_update (omega arith) h in ground arith
