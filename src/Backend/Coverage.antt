-- ===== src/Backend/Coverage.antt =====
-- Left alone, `dial` gives up only after it has tried every address.
use Prim.Native.String.{String}
use native.Mathlib.Nat.{mod-eq_of_lt, mod_self}
use rp.Prelude.{
  ℕ, zero, suc, ◌+◌, ◌-◌, ◌%◌, ◌<◌, ◌≡◌, ◌∙◌, sym, ap, refl, Bool, true, Option, some, List, [],
  ◌∷◌, ◌++◌, ltb, if◌then◌else◌, length, get_or, List-cases, Bool-cases, inl, inr, arith,
}
use rp.Prelude.Text.{IsIn, here, there}
use rp.Backend.Dial.{
  Try, failed, connected, header_failed, Target, target, Trace, Network, note_try, outcome,
  is_connected, turn, dial_loop, start_trace, dial,
}
use rp.Backend.RoundRobin.{is_err}

IsIn-append : (a : String) {xs : List String} (ys : List String) → IsIn a xs → IsIn a (xs ++ ys)
IsIn-append a ys (here p) = here p
IsIn-append a ys (there i) = there (IsIn-append a ys i)

IsIn-last : (a : String) (xs : List String) → IsIn a (xs ++ a ∷ [])
IsIn-last a [] = here refl
IsIn-last a (x ∷ xs) = there (IsIn-last a xs)

-- An index up to `2 * n`, in a ring of `n`.
abbrev wrap : ℕ → ℕ → ℕ
wrap n x = if ltb x n then x else x - n

mod-wrap : (n x : ℕ) → x < n → (x + 1) % n ≡ wrap n (x + 1)
mod-wrap n x h = elim (Bool-cases (ltb (x + 1) n)) [
  | inl p ↦ rw p (mod-eq_of_lt (ground arith))
  | inr p ↦ let e : x + 1 ≡ n = ground arith in rw (p, e) (mod_self n ∙ omega arith)
]

wrap-suc :
    (n next k : ℕ) → next < n → k < n → wrap n (wrap n (next + k) + 1) ≡ wrap n (next + suc k)
wrap-suc n next k h g = ground arith

tried-note_try :
    (r : Try) (s : Trace) (addr : String) (n : ℕ)
    → ((note_try r s addr n).tried ≡ s.tried ++ addr ∷ []) × ((note_try r s addr n).next ≡ n)
tried-note_try failed s addr n = (refl, refl)
tried-note_try connected s addr n = (refl, refl)
tried-note_try header_failed s addr n = (refl, refl)

module _ (net : Network) (t : Target) (alone : (i n : ℕ) → net.others i n ≡ n) (next : ℕ)
    (start : next < length t.addresses) where
  abbrev addr_at : ℕ → String
  addr_at j = get_or t.addresses (wrap (length t.addresses) (next + j)) ""

  -- After `k` tries.
  abbrev Tried : ℕ → Trace → Type 0
  Tried k s =
      (s.next ≡ wrap (length t.addresses) (next + k)) × ((j : ℕ) → j < k → IsIn (addr_at j) s.tried)

  turn-Tried :
      (k i : ℕ) (s : Trace)
      → k < length t.addresses
      → Tried k s
      → (after : Trace) × (c : Bool) × (a : String) × (turn net t i s ≡ some (after, c, a))
        × Tried (suc k) after
  unfolding turn
  turn-Tried k i s h (e, tried) =
      let addr = get_or t.addresses s.next "" in
      let r = outcome t (net.attempt i addr) in
      let step = (s.next + 1) % length t.addresses in
      let (m, z) = tried-note_try r s addr step in
      let fits : s.next < length t.addresses = ground arith in
      let moved : step ≡ wrap (length t.addresses) (next + suc k) =
        mod-wrap (length t.addresses) s.next fits
        ∙ (rw e (wrap-suc (length t.addresses) next k start h)) in
      (
        note_try r s addr step,
        is_connected r,
        addr,
        ground (arith, alone i s.next),
        (
          z ∙ moved,
          λ j b. rw m (elim (Bool-cases (ltb j k)) [
            | inl p ↦ IsIn-append (addr_at j) (addr ∷ []) (tried j (ground arith))
            | inr p ↦
                let same : j ≡ k = ground arith in
                let here_now : addr_at j ≡ addr =
                  ap (λ x. get_or t.addresses x "") (rw same (sym e)) in
                rw here_now (IsIn-last addr s.tried)
          ]),
        ),
      )

  -- All the tries that the ring has, when an error is returned.
  dial_loop-Tried :
      (left k i : ℕ) (s : Trace)
      → k + suc left ≡ length t.addresses
      → Tried k s
      → is_err (dial_loop net t left i s).1 ≡ true
      → (j : ℕ) → j < length t.addresses
      → IsIn (addr_at j) (dial_loop net t left i s).0.tried
  unfolding dial_loop
  dial_loop-Tried zero k i s l tr h j b =
      let (after, c, a, p, tr2) = turn-Tried k i s (omega arith) tr in
      elim (Bool-cases c) [
        | inl y ↦ absurd (ground arith)
        | inr y ↦ rw (dial_loop, p, y) (tr2.1 j (omega arith))
      ]
  dial_loop-Tried (suc n) k i s l tr h j b =
      let (after, c, a, p, tr2) = turn-Tried k i s (omega arith) tr in
      elim (Bool-cases c) [
        | inl y ↦ absurd (ground arith)
        | inr y ↦
            rw (dial_loop, p, y)
              (dial_loop-Tried n (suc k) (i + 1) after (omega arith) tr2 (ground arith) j b)
      ]

  -- The try at which an index is reached.
  addr_at-back :
      (j : ℕ)
      → j < length t.addresses
      → (i : ℕ) × (i < length t.addresses) × (addr_at i ≡ get_or t.addresses j "")
  addr_at-back j b = elim (Bool-cases (ltb j next)) [
    | inl p ↦ (
      j + length t.addresses - next,
      ground arith,
      ap (λ x. get_or t.addresses x "") (ground arith),
    )
    | inr p ↦ (j - next, ground arith, ap (λ x. get_or t.addresses x "") (ground arith))
  ]

  loop-all :
      is_err (dial_loop net t (length t.addresses - 1) 0 (start_trace next)).1 ≡ true
      → (j : ℕ) → j < length t.addresses
      → IsIn
          (get_or t.addresses j "")
          (dial_loop net t (length t.addresses - 1) 0 (start_trace next)).0.tried
  loop-all h j b =
      let (i, q, e) = addr_at-back j b in
      rw (← e) (
        dial_loop-Tried (length t.addresses - 1) 0 0 (start_trace next) (omega arith)
          (ground arith, λ k z. absurd (omega arith)) h i q)

-- Where no other call runs in between, and from an index in range: when `dial` returns an error, it
-- has tried every address of the backend or override.
pub dial-tries_all :
    (net : Network) (be : Target) (overrides : List Target) (id : Option ℕ) (next : ℕ)
    → ((i n : ℕ) → net.others i n ≡ n)
    → next < length (target be overrides id).addresses
    → is_err (dial net be overrides id next).1 ≡ true
    → (j : ℕ) → j < length (target be overrides id).addresses
    → IsIn (get_or (target be overrides id).addresses j "") (dial net be overrides id next).0.tried
unfolding dial
dial-tries_all net be overrides id next alone start h j b =
    elim (List-cases (target be overrides id).addresses) [
      | inl e ↦ absurd (ground arith)
      | inr (a, rest, e) ↦
          let t = target be overrides id in
          let count : length t.addresses - 1 ≡ length rest = rw e (omega arith) in
          let same : dial net be overrides id next
              ≡ dial_loop net t (length t.addresses - 1) 0 (start_trace next) =
            rw count (ground arith) in
          rw same (loop-all net t alone next start (rw (← same) h) j b)
    ]
