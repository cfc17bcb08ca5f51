-- ===== src/TokenManager/Validation.antt =====
-- A token that was created is checked against the key that signed it.
use Prim.Native.String.{String}
use rp.Prelude.{
  ℕ, ◌+◌, ◌*◌, ◌≤◌, ◌≡◌, ◌⊎◌, refl, sym, ◌∙◌, ◌&&◌, ◌||◌, Option, none, some, List, [], ◌∷◌, ltb,
  Option-cases, Bool-cases, inl, inr, arith,
}
use rp.Prelude.Text.{string_eq, IsIn, here, there}
use rp.Prelude.Call.{ok}
use rp.TokenManager.{
  KeyKind, TokenKey, TokenManager, StoredKey, PrivateKey, RotationEnv, Jwt, Token, fits, is_nil_key,
  choose, default_alg, create_token, key_of, get_key, parse_keys, rotate_keys, hour,
}
use rp.TokenManager.Rotation.{rotate_keys-IsIn, parse_keys-inv}

choose-IsIn :
    (kind : Option KeyKind) (now : ℕ) (ks : List TokenKey) (tk : Option TokenKey) (k : TokenKey)
    → choose kind now ks tk ≡ some k
    → (tk ≡ some k) ⊎ IsIn k ks
unfolding choose
choose-IsIn kind now [] tk k h = inl h
choose-IsIn kind now (j ∷ ks) tk k h =
    elim (Bool-cases
      (fits kind j && (is_nil_key tk || ltb (j.stored.creation_time + 2 * hour) now))) [
        | inl p ↦ elim (choose-IsIn kind now ks (some j) k (ground arith)) [
          | inl e ↦ inr (here (ground arith))
          | inr i ↦ inr (there i)
        ]
        | inr p ↦ elim (choose-IsIn kind now ks tk k (ground arith)) [
          | inl e ↦ inl e
          | inr i ↦ inr (there i)
        ]
      ]

-- No two keys have the same id.
abbrev pub Distinct : List TokenKey → Type 0
Distinct ks = (i j : TokenKey) → IsIn i ks → IsIn j ks → i.stored.id ≡ j.stored.id → i ≡ j

key_of-IsIn :
    (k : TokenKey) {ks : List TokenKey}
    → IsIn k ks
    → Distinct ks
    → key_of k.stored.id ks ≡ ok k.priv_key
unfolding key_of
key_of-IsIn k (here {x = j} {xs = ks} p) d =
    rw p (ground (arith, string_eq.beq_iff k.stored.id k.stored.id))
key_of-IsIn k (there {x = j} {xs = ks} i) d =
    elim (Bool-cases (string_eq.beq j.stored.id k.stored.id)) [
      | inl p ↦
          let same : j ≡ k =
            d j k (here refl) (there i) ((string_eq.beq_iff j.stored.id k.stored.id).0 p) in
          rw (key_of, p, same) refl
      | inr p ↦ rw (key_of, p) (key_of-IsIn k i (λ a b ia ib e. d a b (there ia) (there ib) e))
    ]

-- The key that signed the token, of the keys in memory.
abbrev pub Signer : Jwt → String → String → TokenManager → Token → TokenKey → Type 0
Signer jwt claims alg tm tok k =
    IsIn k tm.keys
    × (tok.kid ≡ k.stored.id)
    × (jwt.sign k.priv_key (default_alg tm.has_tpm alg) claims ≡ some tok.signed_string)

create_token-Signer :
    (jwt : Jwt) (now : ℕ) (claims alg : String) (tm : TokenManager) (tok : Token)
    → create_token jwt now claims alg tm ≡ ok tok
    → (k : TokenKey) × Signer jwt claims alg tm tok k
unfolding create_token
create_token-Signer jwt now claims alg tm tok h =
    elim (Option-cases (jwt.method (default_alg tm.has_tpm alg))) [
      | inl e ↦ absurd (ground arith)
      | inr (kind, e) ↦ elim (Option-cases (choose kind now tm.keys none)) [
        | inl p ↦ absurd (ground arith)
        | inr (k, p) ↦
            elim (Option-cases (jwt.sign k.priv_key (default_alg tm.has_tpm alg) claims)) [
              | inl s ↦ absurd (ground arith)
              | inr (s, q) ↦ (
                k,
                (
                  elim (choose-IsIn kind now tm.keys none k p) [ inl w ↦ absurd (cc) | inr i ↦ i ],
                  ground arith,
                  ground arith,
                ),
              )
            ]
      ]
    ]

-- Where no two keys have the same id: the key that validation looks up for a token that
-- `CreateToken` returned is the one that signed the token's claims under its algorithm.
pub get_key-create_token :
    (jwt : Jwt) (now : ℕ) (claims alg : String) (tm : TokenManager) (tok : Token)
    → Distinct tm.keys
    → create_token jwt now claims alg tm ≡ ok tok
    → (p : PrivateKey) × (get_key tok tm ≡ ok p)
      × (jwt.sign p (default_alg tm.has_tpm alg) claims ≡ some tok.signed_string)
unfolding get_key
get_key-create_token jwt now claims alg tm tok d h =
    let (k, (i, e, s)) = create_token-Signer jwt now claims alg tm tok h in
    (k.priv_key, rw (get_key, e) (key_of-IsIn k i d), s)

-- Where the keys in memory are those that the file holds: the key of a token that `CreateToken`
-- returned stays the same through a rotation, whether it succeeds or fails, if the keys with its id
-- are at most seven days old and no two keys have the same id, before or after.
pub get_key-rotate_keys :
    (jwt : Jwt) (now : ℕ) (claims alg : String) (tm : TokenManager) (tok : Token)
    (env : RotationEnv) (held : List StoredKey)
    → env.file ≡ some held
    → tm.keys ≡ parse_keys (λ j. env.parse j.key) held
    → ((k : StoredKey) → IsIn k held → k.id ≡ tok.kid → env.now ≤ k.creation_time + 7 * 24 * hour)
    → Distinct tm.keys
    → Distinct (rotate_keys env tm).0.keys
    → create_token jwt now claims alg tm ≡ ok tok
    → get_key tok (rotate_keys env tm).0 ≡ get_key tok tm
unfolding get_key
get_key-rotate_keys jwt now claims alg tm tok env held f agree young d d' h =
    let (k, (i, e, s)) = create_token-Signer jwt now claims alg tm tok h in
    let (held_in, parses) = parse_keys-inv (λ j. env.parse j.key) k held (agree_IsIn agree i) in
    let after =
      rotate_keys-IsIn env k.stored tm held k.priv_key f agree held_in
        (young k.stored held_in (sym e)) parses in
    rw (get_key, e) (key_of-IsIn k after d' ∙ sym (key_of-IsIn k i d))
  where
    agree_IsIn : {ks js : List TokenKey} {k : TokenKey} → ks ≡ js → IsIn k ks → IsIn k js
    agree_IsIn e i = rw (← e) i
