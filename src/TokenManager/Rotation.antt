-- ===== src/TokenManager/Rotation.antt =====
-- What a rotation of the keys keeps.
use rp.Prelude.{
  ◌+◌, ◌*◌, ◌≤◌, ◌≡◌, ◌⊎◌, refl, ap, Bool, true, false, not, ◌&&◌, Option, none, some, List, [],
  ◌∷◌, ◌++◌, ltb, Option-cases, Bool-cases, inl, inr, arith,
}
use rp.Prelude.Text.{IsIn, here, there}
use rp.TokenManager.{
  TokenManager, TokenKey, StoredKey, PrivateKey, RotationEnv, ensure_keys, add_keys, drop_old,
  parse_keys, priv_key_of, install, rotate_keys, hour, last_or, is_empty,
}

abbrev pub parsed : StoredKey → PrivateKey → TokenKey
parsed k p = record { stored = k; priv_key = p }

parse_keys-IsIn :
    (parse : StoredKey → Option PrivateKey) (k : StoredKey) (p : PrivateKey) {ks : List StoredKey}
    → parse k ≡ some p
    → IsIn k ks
    → IsIn (parsed k p) (parse_keys parse ks)
unfolding parse_keys
parse_keys-IsIn parse k p e (here {x = j} {xs = ks} i) =
    let ej : parse j ≡ some p = rw i e in rw (parse_keys, ej, i) (here refl)
parse_keys-IsIn parse k p e (there {x = j} {xs = ks} i) = elim (Option-cases (parse j)) [
  | inl n ↦ rw (parse_keys, n) (parse_keys-IsIn parse k p e i)
  | inr (q, n) ↦ rw (parse_keys, n) (there (parse_keys-IsIn parse k p e i))
]

rest_of :
    (parse : StoredKey → Option PrivateKey) (t : TokenKey) (j : StoredKey) (ks : List StoredKey)
    → parse j ≡ none
    → IsIn t (parse_keys parse (j ∷ ks))
    → IsIn t (parse_keys parse ks)
unfolding parse_keys
rest_of parse t j ks n i =
    let e : parse_keys parse (j ∷ ks) ≡ parse_keys parse ks = rw (parse_keys, n) refl in rw (← e) i

split_of :
    (parse : StoredKey → Option PrivateKey) (t : TokenKey) (j : StoredKey) (p : PrivateKey)
    (ks : List StoredKey)
    → parse j ≡ some p
    → IsIn t (parse_keys parse (j ∷ ks))
    → (parsed j p ≡ t) ⊎ IsIn t (parse_keys parse ks)
split_of parse t j p ks n i =
    let e : parse_keys parse (j ∷ ks) ≡ parsed j p ∷ parse_keys parse ks =
      unfold parse_keys in rw (parse_keys, n) refl in
    uncons (rw (← e) i)
  where
    uncons : {x y : TokenKey} {xs : List TokenKey} → IsIn y (x ∷ xs) → (x ≡ y) ⊎ IsIn y xs
    uncons (here e) = inl e
    uncons (there i) = inr i

pub parse_keys-inv :
    (parse : StoredKey → Option PrivateKey) (t : TokenKey) (ks : List StoredKey)
    → IsIn t (parse_keys parse ks)
    → IsIn t.stored ks × (parse t.stored ≡ some t.priv_key)
parse_keys-inv parse t [] i = unfold parse_keys in elim i [ ]
parse_keys-inv parse t (j ∷ ks) i = elim (Option-cases (parse j)) [
  | inl n ↦
      let rest = parse_keys-inv parse t ks (rest_of parse t j ks n i) in (there rest.0, rest.1)
  | inr (p, n) ↦ elim (split_of parse t j p ks n i) [
    | inl e ↦ (here (ap (λ a. a.stored) e), ground arith)
    | inr tail ↦ let rest = parse_keys-inv parse t ks tail in (there rest.0, rest.1)
  ]
]

IsIn-append :
    (k : StoredKey) {ks : List StoredKey} (js : List StoredKey) → IsIn k ks → IsIn k (ks ++ js)
IsIn-append k js (here p) = here p
IsIn-append k js (there i) = there (IsIn-append k js i)

-- The keys after the first two steps, and whether they changed.
module _ (env : RotationEnv) (k : StoredKey) where
  add_keys-IsIn :
      (j : StoredKey) (ks js : List StoredKey) (changed added : Bool)
      → add_keys env j ks changed ≡ some (js, added)
      → IsIn k ks
      → IsIn k js
  unfolding add_keys
  add_keys-IsIn j ks js changed added h i =
      elim (Bool-cases (ltb ((last_or j ks).creation_time + 24 * hour) env.now)) [
        | inr p ↦ let same : ks ≡ js = ground arith in rw (← same) i
        | inl p ↦ elim (Option-cases env.new_keys) [
          | inl q ↦ absurd (ground arith)
          | inr (tk, q) ↦
              let same : ks ++ tk ≡ js = ground arith in rw (← same) (IsIn-append k tk i)
        ]
      ]

  drop_old-IsIn :
      (j : StoredKey) (js : List StoredKey) (changed : Bool)
      → env.now ≤ k.creation_time + 7 * 24 * hour
      → IsIn k (j ∷ js)
      → IsIn k (drop_old env j js changed).0
  unfolding drop_old
  drop_old-IsIn j js changed young (there i) =
      elim (Bool-cases (ltb (j.creation_time + 7 * 24 * hour) env.now)) [
        | inl p ↦ rw (drop_old, p) i
        | inr p ↦ rw (drop_old, p) (there i)
      ]
  drop_old-IsIn j js changed young (here i) =
      elim (Bool-cases (ltb (j.creation_time + 7 * 24 * hour) env.now)) [
        | inl p ↦
            let old : ltb (k.creation_time + 7 * 24 * hour) env.now ≡ true = rw (← i) p in
            absurd (ground arith)
        | inr p ↦ rw (drop_old, p) (here i)
      ]

  add_keys-head :
      (j : StoredKey) (ks js : List StoredKey) (changed added : Bool)
      → add_keys env j ks changed ≡ some (js, added)
      → IsIn k (j ∷ ks)
      → IsIn k (j ∷ js)
  add_keys-head j ks js changed added h (here i) = here i
  add_keys-head j ks js changed added h (there i) = there (add_keys-IsIn j ks js changed added h i)

  agree_IsIn :
      (tm : TokenManager) (ks : List TokenKey) (p : PrivateKey)
      → tm.keys ≡ ks
      → IsIn (parsed k p) ks
      → IsIn (parsed k p) tm.keys
  agree_IsIn tm ks p agree i = rw agree i

  install-IsIn :
      (tm : TokenManager) (js : List StoredKey) (changed : Bool) (p : PrivateKey)
      → IsIn (parsed k p) tm.keys
      → IsIn (parsed k p) (parse_keys (priv_key_of env) js)
      → IsIn (parsed k p) (install env tm js changed).0.keys
  unfolding install
  install-IsIn tm js changed p before now =
      elim (Bool-cases (not changed && not (is_empty tm.keys))) [
        | inl c ↦ rw (install, c) before
        | inr c ↦ rw (install, c) now
      ]

  -- Where the keys in memory are those that the file holds: a key that the file holds, that parses
  -- and that is at most seven days old, is still in memory after a rotation, also after one that
  -- fails.
  pub rotate_keys-IsIn :
      (tm : TokenManager) (held : List StoredKey) (p : PrivateKey)
      → env.file ≡ some held
      → tm.keys ≡ parse_keys (λ j. env.parse j.key) held
      → IsIn k held
      → env.now ≤ k.creation_time + 7 * 24 * hour
      → env.parse k.key ≡ some p
      → IsIn (parsed k p) (rotate_keys env tm).0.keys
  rotate_keys-IsIn tm [] p e agree i young q = elim i [ ]
  rotate_keys-IsIn tm (j ∷ ks) p e agree i young q =
      let before : IsIn (parsed k p) tm.keys =
        agree_IsIn tm (parse_keys (λ l. env.parse l.key) (j ∷ ks)) p agree
          (parse_keys-IsIn (λ l. env.parse l.key) k p q i) in
      elim (Option-cases (add_keys env j ks false)) [
        | inl a ↦
            let same : (rotate_keys env tm).0 ≡ tm =
              unfold rotate_keys ensure_keys in ground arith in
            rw same before
        | inr ((js, added), a) ↦
            let r = drop_old env j js added in
            let there_still =
              drop_old-IsIn j js added young (add_keys-head j ks js false added a i) in
            let same : (rotate_keys env tm).0 ≡ (install env tm r.0 r.1).0 =
              unfold rotate_keys ensure_keys in ground arith in
            let own : priv_key_of env k ≡ some p = ground arith in
            rw same (
              install-IsIn tm r.0 r.1 p before
                (parse_keys-IsIn (priv_key_of env) k p own there_still))
      ]
