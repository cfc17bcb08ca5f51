-- ===== src/Pki/Contents.antt =====
-- What a new revocation list holds.
use Prim.Native.String.{String}
use rp.Prelude.{
  ℕ, ◌+◌, ◌-◌, ◌≤◌, ◌≡◌, ◌↔◌, ◌⊎◌, refl, some, List, [], ◌∷◌, ◌++◌, ltb, Option-cases, Bool-cases,
  List-cases, inl, inr, length, length-drop, arith,
}
use rp.Prelude.Text.{IsIn, here, there}
use rp.Pki.{Revocation, Certificate, RevocationList, Authority, X509, CrlEntry, Crypto, save}
use rp.Pki.Listing.{
  max_num_crl, crl_refresh_period, entry, entries, keep_lists, next_crl, sign_list, create_list,
  list_in, last_list,
}

module _ (c : Crypto) (now : ℕ) where
  -- The entry is that of an issued certificate that is revoked and has not expired.
  abbrev pub Revoked : List Certificate → CrlEntry → Type 0
  Revoked cs e =
      (d : Certificate) × IsIn d cs
      × ((r : Revocation) × (d.revocation ≡ some r)
          × ((x : X509) × (c.parse d.raw ≡ some x) × (now ≤ x.not_after) × (entry x r ≡ e)))

  abbrev later :
      (d : Certificate) (cs : List Certificate) (e : CrlEntry) → Revoked cs e → Revoked (d ∷ cs) e
  later d cs e (b, i, rest) = (b, there i, rest)

  first :
      (d : Certificate) (cs : List Certificate) (r : Revocation) (x : X509) (fs : List CrlEntry)
      (e : CrlEntry)
      → d.revocation ≡ some r
      → c.parse d.raw ≡ some x
      → now ≤ x.not_after
      → (IsIn e fs → Revoked cs e)
      → IsIn e (entry x r ∷ fs)
      → Revoked (d ∷ cs) e
  first d cs r x fs e n p t rest (here s) = (d, here refl, (r, n, (x, p, t, s)))
  first d cs r x fs e n p t rest (there i) = later d cs e (rest i)

  listed-Revoked :
      (cs : List Certificate) (es : List CrlEntry) (e : CrlEntry)
      → entries c now cs ≡ some es
      → IsIn e es
      → Revoked cs e
  unfolding entries
  listed-Revoked [] [] e h i = elim i [ ]
  listed-Revoked [] (f ∷ fs) e h i = absurd (cc)
  listed-Revoked (d ∷ cs) es e h i = elim (Option-cases d.revocation) [
    | inl n ↦ later d cs e (listed-Revoked cs es e (ground arith) i)
    | inr (r, n) ↦ elim (Option-cases (c.parse d.raw)) [
      | inl p ↦ absurd (ground arith)
      | inr (x, p) ↦ elim (Bool-cases (ltb x.not_after now)) [
        | inl t ↦ later d cs e (listed-Revoked cs es e (ground arith) i)
        | inr t ↦ elim (Option-cases (entries c now cs)) [
          | inl q ↦ absurd (ground arith)
          | inr (fs, q) ↦
              let split : es ≡ entry x r ∷ fs = ground arith in
              first d cs r x fs e n p (ground arith) (listed-Revoked cs fs e q) (rw (← split) i)
        ]
      ]
    ]
  ]

  kept-tail :
      (d : Certificate) (cs : List Certificate) (es : List CrlEntry)
      → entries c now (d ∷ cs) ≡ some es
      → (entries c now cs ≡ some es)
        ⊎ ((f : CrlEntry) × (fs : List CrlEntry) × (entries c now cs ≡ some fs) × (es ≡ f ∷ fs))
  unfolding entries
  kept-tail d cs es h = elim (Option-cases d.revocation) [
    | inl n ↦ inl (ground arith)
    | inr (r, n) ↦ elim (Option-cases (c.parse d.raw)) [
      | inl p ↦ absurd (ground arith)
      | inr (x, p) ↦ elim (Bool-cases (ltb x.not_after now)) [
        | inl t ↦ inl (ground arith)
        | inr t ↦ elim (Option-cases (entries c now cs)) [
          | inl q ↦ absurd (ground arith)
          | inr (fs, q) ↦ inr (entry x r, fs, q, ground arith)
        ]
      ]
    ]
  ]

  Revoked-listed :
      (d : Certificate) (r : Revocation) (x : X509) {cs : List Certificate} (es : List CrlEntry)
      → entries c now cs ≡ some es
      → IsIn d cs
      → d.revocation ≡ some r
      → c.parse d.raw ≡ some x
      → now ≤ x.not_after
      → IsIn (entry x r) es
  unfolding entries
  Revoked-listed d r x es h (here {x = b} {xs = cs} i) n p t =
      let nb : b.revocation ≡ some r = rw i n in
      let pb : c.parse b.raw ≡ some x = rw i p in
      elim (Option-cases (entries c now cs)) [
        | inl q ↦ absurd (ground arith)
        | inr (fs, q) ↦ let split : es ≡ entry x r ∷ fs = ground arith in rw split (here refl)
      ]
  Revoked-listed d r x es h (there {x = b} {xs = cs} i) n p t = elim (kept-tail b cs es h) [
    | inl same ↦ Revoked-listed d r x es same i n p t
    | inr (f, fs, q, split) ↦ rw split (there (Revoked-listed d r x fs q i n p t))
  ]

  -- The first delegate certificate is `cert`, `x` is what it parses to and `k` is the parsed key of
  -- the delegate.
  abbrev pub Signer : Authority → String → X509 → String → Type 0
  Signer a cert x k =
      (d : Certificate) × (ds : List Certificate) × (a.delegate_certs ≡ d ∷ ds)
      × (cert ≡ d.raw)
      × (c.parse d.raw ≡ some x)
      × (c.parse_key a.delegate_key ≡ some k)

  abbrev pub Saved : Authority → String → String → Authority → Type 0
  Saved a cert crl b =
      (x : X509) × (es : List CrlEntry) × (k : String) × Signer a cert x k
      × (c.create_revocation_list
            (record {
              issuer = x.subject;
              number = a.crl_number + 1;
              this_update = now;
              next_update = now + crl_refresh_period;
              entries = es;
            })
            x k
          ≡ some crl)
      × ((e : CrlEntry) → IsIn e es ↔ Revoked a.issued_certs e)
      × (b.crl_number ≡ a.crl_number + 1)
      × (length b.revocation_lists ≤ max_num_crl)

  keep_lists-bound : (rs : List RevocationList) → length (keep_lists rs) ≤ max_num_crl
  unfolding keep_lists
  keep_lists-bound rs = omega (arith, length-drop (length rs - max_num_crl) rs)

  create_list-Saved :
      (a : Authority) (cert crl : String)
      → (create_list c now a).1 ≡ save (cert, crl)
      → Saved a cert crl (create_list c now a).0
  unfolding create_list sign_list
  create_list-Saved a cert crl h = elim (List-cases a.delegate_certs) [
    | inl e ↦ absurd (ground arith)
    | inr (d, ds, e) ↦ elim (Option-cases (c.parse d.raw)) [
      | inl p ↦ absurd (ground arith)
      | inr (x, p) ↦ elim (Option-cases (entries c now a.issued_certs)) [
        | inl q ↦ absurd (ground arith)
        | inr (es, q) ↦ elim (Option-cases (c.parse_key a.delegate_key)) [
          | inl k ↦ absurd (ground arith)
          | inr (key, k) ↦ elim (Option-cases (c.public key)) [
            | inl u ↦ absurd (ground arith)
            | inr (pk, u) ↦
                elim (Option-cases (c.create_revocation_list (next_crl now a x es) x key)) [
                  | inl z ↦ absurd (ground arith)
                  | inr (raw, z) ↦ (
                    x,
                    es,
                    key,
                    (d, ds, e, ground arith, p, k),
                    ground arith,
                    λ f. (
                      listed-Revoked a.issued_certs es f q,
                      λ (b, i, (r, n, (y, s, t, w))). rw (← w) (Revoked-listed b r y es q i n s t),
                    ),
                    ground arith,
                    ground (
                      arith,
                      keep_lists-bound
                          (a.revocation_lists ++ record { raw_cert = d.raw; raw_crl = raw } ∷ []),
                    ),
                  )
                ]
          ]
        ]
      ]
    ]
  ]

  list_in-create :
      (a : Authority) (cert crl : String)
      → (list_in c now a).1 ≡ save (cert, crl)
      → list_in c now a ≡ create_list c now a
  unfolding list_in
  list_in-create a cert crl h = elim (Option-cases (last_list a.revocation_lists)) [
    | inl e ↦ ground arith
    | inr (l, e) ↦ elim (Option-cases (c.parse_revocation_list l.raw_crl)) [
      | inl p ↦ absurd (ground arith)
      | inr (rl, p) ↦ ground arith
    ]
  ]

  -- A list that was created holds exactly the entries of the issued certificates that are revoked
  -- and have not expired, and the next number, and says to be updated an hour from now. Its issuer
  -- is the subject of the first delegate certificate, which is the one that comes with it, and it is
  -- signed under this certificate with the delegate's key. At most 128 lists are kept.
  pub list_in-Saved :
      (a : Authority) (cert crl : String)
      → (list_in c now a).1 ≡ save (cert, crl)
      → Saved a cert crl (list_in c now a).0
  list_in-Saved a cert crl h =
      let e = list_in-create a cert crl h in rw e (create_list-Saved a cert crl (rw (← e) h))
