-- ===== src/Examples/Chains.antt =====
-- A certificate with an OCSP server that says `Revoked`, and one without a server.
use rp.Prelude.{ℕ, ◌≡◌, refl, true, false, none, some, [], ◌∷◌}
use rp.Prelude.Text.{IsIn, here, there}
use rp.OcspCache.{
  revoked_error, revoked, Certificate, got, World, check_chain, response, fetch_ocsp, fetch_servers,
  check_chains, take_stapled, verify_chains,
}
use rp.OcspCache.Chains.{Accepted, verify_chains-Accepted, stale_error}

abbrev world : World ℕ
world = record {
  get = λ h s. (s, none);
  add = λ h r s. s;
  now = λ s. s;
  creates_request = λ c i. true;
  fetch_one = λ c i u s. (s, got (record { status = revoked; next_update = 100 }));
  parse_stapled = λ t c i. none;
}

abbrev bad : Certificate
bad = record { hash = "01"; ocsp_server = "http://ocsp" ∷ [] }

abbrev plain : Certificate
plain = record { hash = "02"; ocsp_server = [] }

accepted : (verify_chains world ((plain ∷ []) ∷ []) none 5).1 ≡ none
unfolding verify_chains take_stapled check_chains check_chain
accepted = refl

verify_chains-Accepted_example : Accepted world ((plain ∷ []) ∷ [])
verify_chains-Accepted_example =
    verify_chains-Accepted world ((plain ∷ []) ∷ []) none 5 (λ e. cc) accepted

no_server : (c : Certificate) → IsIn c (plain ∷ []) → c.ocsp_server ≡ []
no_server c (here e) = rw (← e) refl
no_server c (there x) = elim x [ ]

given_up : check_chain world (bad ∷ []) none 5 ≡ (5, false, some revoked_error)
unfolding check_chain response fetch_ocsp fetch_servers
given_up = refl

stale_error_example :
    ((verify_chains world ((plain ∷ []) ∷ (bad ∷ []) ∷ []) none 5).1 ≡ none)
    × ((verify_chains world ((bad ∷ []) ∷ (plain ∷ []) ∷ []) none 5).1 ≡ some revoked_error)
unfolding check_chain response fetch_ocsp fetch_servers
stale_error_example = stale_error world (bad ∷ []) (plain ∷ []) 5 revoked_error no_server refl refl
