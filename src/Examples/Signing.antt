-- ===== src/Examples/Signing.antt =====
-- A token manager with two keys.
use Prim.Native.String.{String}
use rp.Prelude.{
  ◌+◌, ◌*◌, ◌≤◌, ◌≡◌, ◌≢◌, refl, sym, ap, ◌∙◌, true, false, none, some, [], ◌∷◌, arith, ◌↔◌, Option,
}
use rp.Prelude.Text.{IsIn, here, there}
use rp.Prelude.Call.{ok, panic}
use rp.TokenManager.{
  ed25519, StoredKey, PrivateKey, TokenKey, TokenManager, RotationEnv, Jwt, Token, choose,
  create_token, get_key, rotate_keys, parse_keys, ensure_keys, add_keys, drop_old, install, hour,
  KeyKind,
}
use rp.TokenManager.Choice.{create_token_panics_iff, choose-last_aged, last_aged, first_fitting}
use rp.TokenManager.Validation.{Distinct, get_key-create_token, get_key-rotate_keys}

abbrev old_key : StoredKey
old_key = record { id = "k"; key_type = "ed"; key = "a"; creation_time = 0 }

abbrev new_key : StoredKey
new_key = record { id = "k2"; key_type = "ed"; key = "b"; creation_time = 3600000000000 }

abbrev private : String → PrivateKey
private text = record { kind = ed25519; text = text }

abbrev with_key : StoredKey → TokenKey
with_key k = record { stored = k; priv_key = private k.key }

abbrev manager : TokenManager
manager = record { has_tpm = false; keys = with_key old_key ∷ with_key new_key ∷ [] }

abbrev jwt : Jwt
jwt = record { method = λ a. some (some ed25519); sign = λ k a c. some "sig" }

abbrev token : Token
token = record { kid = "k"; signed_string = "sig" }

-- A rotation two days after the old key was made, which keeps both keys.
abbrev env : RotationEnv
env = record {
  file = some (old_key ∷ new_key ∷ []);
  now = 172800000000000;
  first_keys = none;
  new_keys = some [];
  made = λ k. none;
  parse = λ s. some (private s);
  commits = true;
}

choose-last_aged_example :
    choose (some ed25519) 9000000000000 manager.keys none ≡ some (with_key old_key)
unfolding last_aged first_fitting
choose-last_aged_example = choose-last_aged (some ed25519) 9000000000000 manager.keys

other_ids :
    (i j : TokenKey) → with_key old_key ≡ i → with_key new_key ≡ j → i.stored.id ≢ j.stored.id
other_ids i j a b e =
    let clash : ◌≡◌ {A = String} "k" "k2" =
      ap (λ k. k.stored.id) a ∙ e ∙ sym (ap (λ k. k.stored.id) b) in
    cc

young :
    (k : StoredKey)
    → IsIn k (old_key ∷ new_key ∷ [])
    → k.id ≡ "k"
    → env.now ≤ k.creation_time + 7 * 24 * hour
young k (here a) e = rw (← a) (omega arith)
young k (there (here a)) e = rw (← a) (omega arith)
young k (there (there x)) e = elim x [ ]

two_keys : Distinct (with_key old_key ∷ with_key new_key ∷ [])
two_keys i j (here a) (here b) e = sym a ∙ b
two_keys i j (here a) (there (here b)) e = absurd (other_ids i j a b e)
two_keys i j (here a) (there (there x)) e = elim x [ ]
two_keys i j (there (here a)) (here b) e = absurd (other_ids j i b a (sym e))
two_keys i j (there (here a)) (there (here b)) e = sym a ∙ b
two_keys i j (there (here a)) (there (there x)) e = elim x [ ]
two_keys i j (there (there x)) q e = elim x [ ]

signed : create_token jwt 9000000000000 "claims" "" manager ≡ ok token
unfolding create_token choose
signed = refl

get_key-create_token_example :
    (p : PrivateKey) × (get_key token manager ≡ ok p) × (jwt.sign p "EdDSA" "claims" ≡ some "sig")
get_key-create_token_example =
    get_key-create_token jwt 9000000000000 "claims" "" manager token two_keys signed

rotated : rotate_keys env manager ≡ (manager, ok manager.keys)
unfolding rotate_keys ensure_keys add_keys drop_old install parse_keys
rotated = refl

still_two : Distinct (rotate_keys env manager).0.keys
still_two = rw rotated two_keys

get_key-rotate_keys_example : get_key token (rotate_keys env manager).0 ≡ get_key token manager
unfolding parse_keys
get_key-rotate_keys_example =
    get_key-rotate_keys jwt 9000000000000 "claims" "" manager token env (old_key ∷ new_key ∷ [])
      refl refl young two_keys still_two signed

create_token_panics_iff_example :
    (create_token jwt 5 "claims" "EdDSA" (record manager { keys = [] }) ≡ panic)
    ↔ ((kind : Option KeyKind) × (some (some ed25519) ≡ some kind) × (first_fitting kind [] ≡ none))
create_token_panics_iff_example =
    create_token_panics_iff jwt 5 "claims" "EdDSA" (record manager { keys = [] })
