-- ===== src/OcspCache/Chains.antt =====
-- When `VerifyChains` accepts.
use Prim.Native.String.{String}
use rp.Prelude.{
  ◌≡◌, ◌≢◌, ◌⊎◌, refl, true, false, Option, none, some, List, [], ◌∷◌, List-cases, Bool-cases, inl,
  inr, arith,
}
use rp.Prelude.Text.{IsIn, here, there}
use rp.OcspCache.{
  OcspError, internal, protocol, revoked_error, unknown_error, server_error, good, Certificate,
  Fetched, got, failed, World, response, issuer_in, Judgement, go_on, give_up, judge, check_chain,
  check_chains, take_stapled, verify_chains,
}

Judgement-cases :
    (j : Judgement) → ((l : Option OcspError) × (j ≡ go_on l)) ⊎ ((e : OcspError) × (j ≡ give_up e))
Judgement-cases (go_on l) = inl (l, refl)
Judgement-cases (give_up e) = inr (e, refl)

module _ {S : Type 0} (w : World S) where
  -- The answer does not speak against the certificate.
  abbrev pub Fine : Fetched → Type 0
  Fine (got r) = r.status ≡ good
  Fine (failed e) = e ≡ internal

  -- Every certificate of the chain has no OCSP server, or the answer that `Response` gave for it,
  -- in the state that the ones before left, is `Good` or an internal error.
  abbrev pub Passed : List Certificate → S → Type 0
  Passed [] s = Unit
  Passed (cert ∷ rest) s =
      ((cert.ocsp_server ≡ []) × Passed rest s)
      ⊎ (Fine (response w cert (issuer_in w cert rest) 0 s).1
          × Passed rest (response w cert (issuer_in w cert rest) 0 s).0)

  judge-Fine : (last l : Option OcspError) (f : Fetched) → judge w last f ≡ go_on l → Fine f
  judge-Fine last l (failed internal) h = refl
  judge-Fine last l (failed protocol) h = absurd (cc)
  judge-Fine last l (failed revoked_error) h = absurd (cc)
  judge-Fine last l (failed unknown_error) h = absurd (cc)
  judge-Fine last l (failed (server_error n)) h = absurd (cc)
  judge-Fine last l (got r) h = ground arith

  check_chain-Passed :
      (chain : List Certificate) (last : Option OcspError) (s : S)
      → (check_chain w chain last s).1 ≡ true
      → Passed chain s
  unfolding check_chain
  check_chain-Passed [] last s h = tt
  check_chain-Passed (cert ∷ rest) last s h = elim (List-cases cert.ocsp_server) [
    | inl e ↦ inl (e, check_chain-Passed rest last s (ground arith))
    | inr (server, servers, e) ↦
        let r = response w cert (issuer_in w cert rest) 0 s in
        elim (Judgement-cases (judge w last r.1)) [
          | inl (l, p) ↦ inr (judge-Fine last l r.1 p, check_chain-Passed rest l r.0 (ground arith))
          | inr (x, p) ↦ absurd (ground arith)
        ]
  ]

  -- A chain that is not gone through leaves an error behind.
  check_chain-error :
      (chain : List Certificate) (last : Option OcspError) (s : S)
      → (check_chain w chain last s).1 ≡ false
      → (check_chain w chain last s).2 ≢ none
  unfolding check_chain
  check_chain-error [] last s h = absurd (cc)
  check_chain-error (cert ∷ rest) last s h = elim (List-cases cert.ocsp_server) [
    | inl e ↦ let i = check_chain-error rest last s in ground arith
    | inr (server, servers, e) ↦
        let r = response w cert (issuer_in w cert rest) 0 s in
        elim (Judgement-cases (judge w last r.1)) [
          | inl (l, p) ↦ let i = check_chain-error rest l r.0 in ground arith
          | inr (x, p) ↦ ground arith
        ]
  ]

  abbrev pub Accepted : List (List Certificate) → Type 0
  Accepted chains = (chain : List Certificate) × IsIn chain chains × ((t : S) × Passed chain t)

  check_chains-Accepted :
      (chains : List (List Certificate)) (last : Option OcspError) (s : S)
      → chains ≢ []
      → (check_chains w chains last s).1 ≡ none
      → Accepted chains
  unfolding check_chains
  check_chains-Accepted [] last s n h = absurd (n refl)
  check_chains-Accepted (chain ∷ chains) last s n h =
      let r = check_chain w chain last s in
      elim (Bool-cases r.1) [
        | inl p ↦ (chain, here refl, (s, check_chain-Passed chain last s p))
        | inr p ↦ elim (List-cases chains) [
          | inl e ↦ absurd (check_chain-error chain last s p (ground arith))
          | inr (c, cs, e) ↦
              let (d, i, rest) =
                check_chains-Accepted chains r.2 r.0 (λ z. absurd (ground arith)) (ground arith) in
              (d, there i, rest)
        ]
      ]

  take_stapled-some :
      (text : Option String) (chains : List (List Certificate)) (s : S)
      → (verify_chains w chains text s).1 ≡ none
      → (check_chains w chains none (take_stapled w text chains s).0).1 ≡ none
  unfolding verify_chains
  take_stapled-some text chains s h = ground arith

  -- `VerifyChains` returns no error for a list of chains that is not empty only if, whatever was
  -- stapled and whatever the cache and the servers say, one of the chains passed: in it, every
  -- certificate with an OCSP server got the answer `Good` or an internal error.
  pub verify_chains-Accepted :
      (chains : List (List Certificate)) (stapled : Option String) (s : S)
      → chains ≢ []
      → (verify_chains w chains stapled s).1 ≡ none
      → Accepted chains
  verify_chains-Accepted chains stapled s n h =
      check_chains-Accepted chains none _ n (take_stapled-some stapled chains s h)

  unchecked_chain :
      (chain : List Certificate) (last : Option OcspError) (s : S)
      → ((c : Certificate) → IsIn c chain → c.ocsp_server ≡ [])
      → check_chain w chain last s ≡ (s, true, last)
  unfolding check_chain
  unchecked_chain [] last s h = refl
  unchecked_chain (c ∷ cs) last s h =
      rw (check_chain, h c (here refl)) (unchecked_chain cs last s (λ d i. h d (there i)))

  -- The order of the chains matters: a chain without any OCSP server is accepted alone, but after a
  -- chain that failed, the error of that chain is returned though the second chain was gone through.
  pub stale_error :
      (bad chain : List Certificate) (s : S) (e : OcspError)
      → ((c : Certificate) → IsIn c chain → c.ocsp_server ≡ [])
      → (check_chain w bad none s).1 ≡ false
      → (check_chain w bad none s).2 ≡ some e
      → ((verify_chains w (chain ∷ bad ∷ []) none s).1 ≡ none)
        × ((verify_chains w (bad ∷ chain ∷ []) none s).1 ≡ some e)
  unfolding verify_chains check_chains take_stapled
  stale_error bad chain s e h p q =
      let r = check_chain w bad none s in
      (
        ground (arith, unchecked_chain chain none s h),
        ground (arith, unchecked_chain chain (some e) r.0 h),
      )
