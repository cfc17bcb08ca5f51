-- ===== src/Backend/RoundRobin.antt =====
-- What `dial` does on every path: the tries, the index, and the connections it leaves open.
use Prim.Native.String.{String}
use rp.Prelude.{
  ℕ, zero, suc, ◌+◌, ◌%◌, ◌≤◌, ◌<◌, ◌≡◌, ◌≢◌, refl, Bool, true, false, Option, some, List, [], ◌∷◌,
  if◌then◌else◌, length, length-append, get_or, List-cases, Bool-cases, inl, inr, arith,
}
use native.Mathlib.Nat.{mod-lt}
use rp.Prelude.Call.{Call, ok, err, panic}
use rp.Backend.{Error}
use rp.Backend.Dial.{
  Try, failed, connected, header_failed, Target, target, Trace, Network, note_try, outcome,
  is_connected, turn, dial_loop, start_trace, dial,
}

abbrev pub left_open : Call Error String → ℕ
left_open (ok a) = 1
left_open (err e) = 0
left_open panic = 0

abbrev pub is_err : Call Error String → Bool
is_err (err e) = true
is_err _ = false

-- No index is out of range, also for the next call; of the connections that were opened only the one
-- that is returned is open; there were at most `total` tries, and that many before an error.
abbrev pub Done : Target → ℕ → Trace × Call Error String → Type 0
Done t total (after, r) =
    (r ≢ panic)
    × (after.next < length t.addresses)
    × (after.opened ≡ left_open r + after.closed)
    × (length after.tried ≤ total)
    × (is_err r ≡ true → length after.tried ≡ total)

-- The other calls keep the index in range.
abbrev pub InRange : Network → Target → Type 0
InRange net t = (i n : ℕ) → n < length t.addresses → net.others i n < length t.addresses

note_try-closed :
    (r : Try) (s : Trace) (addr : String) (n : ℕ)
    → s.opened ≡ s.closed
    → ((note_try r s addr n).opened
        ≡ (if is_connected r then 1 else 0) + (note_try r s addr n).closed)
      × (length (note_try r s addr n).tried ≡ suc (length s.tried))
      × ((note_try r s addr n).next ≡ n)
note_try-closed failed s addr n e =
    (omega arith, omega (arith, length-append s.tried (addr ∷ [])), refl)
note_try-closed connected s addr n e =
    (omega arith, omega (arith, length-append s.tried (addr ∷ [])), refl)
note_try-closed header_failed s addr n e =
    (omega arith, omega (arith, length-append s.tried (addr ∷ [])), refl)

module _ (net : Network) (t : Target) (range : InRange net t) where
  turn-some :
      (i : ℕ) (s : Trace)
      → s.next < length t.addresses
      → s.opened ≡ s.closed
      → (after : Trace) × (c : Bool) × (addr : String) × (turn net t i s ≡ some (after, c, addr))
        × (after.next < length t.addresses)
        × (after.opened ≡ (if c then 1 else 0) + after.closed)
        × (length after.tried ≡ suc (length s.tried))
  unfolding turn
  turn-some i s n e =
      let next = net.others i s.next in
      let addr = get_or t.addresses next "" in
      let r = outcome t (net.attempt i addr) in
      let step = (next + 1) % length t.addresses in
      let (o, l, m) = note_try-closed r s addr step e in
      let fits = range i s.next n in
      (
        note_try r s addr step,
        is_connected r,
        addr,
        ground arith,
        rw m (mod-lt (next + 1) (omega arith)),
        o,
        l,
      )

  dial_loop-Done :
      (left i : ℕ) (s : Trace) (total : ℕ)
      → s.next < length t.addresses
      → s.opened ≡ s.closed
      → length s.tried + suc left ≡ total
      → Done t total (dial_loop net t left i s)
  unfolding dial_loop
  dial_loop-Done zero i s total n e l =
      let (after, c, addr, p, q, o, m) = turn-some i s n e in
      elim (Bool-cases c) [
        | inl y ↦
            rw (dial_loop, p, y) (λ z. absurd (cc), q, ground arith, omega arith, λ z. absurd (cc))
        | inr y ↦
            rw (dial_loop, p, y) (λ z. absurd (cc), q, ground arith, omega arith, λ z. omega arith)
      ]
  dial_loop-Done (suc k) i s total n e l =
      let (after, c, addr, p, q, o, m) = turn-some i s n e in
      elim (Bool-cases c) [
        | inl y ↦
            rw (dial_loop, p, y) (λ z. absurd (cc), q, ground arith, omega arith, λ z. absurd (cc))
        | inr y ↦
            rw (dial_loop, p, y)
              (dial_loop-Done k (i + 1) after total q (ground arith) (omega arith))
      ]

-- For a backend or override with an address, an index in range, and other calls that keep it in
-- range: `dial` tries at most as many addresses as there are, and returns an error only after that
-- many tries; it never reads out of range, and leaves open only the connection that it returns.
pub dial-Done :
    (net : Network) (be : Target) (overrides : List Target) (id : Option ℕ) (next : ℕ)
    → next < length (target be overrides id).addresses
    → InRange net (target be overrides id)
    → Done
        (target be overrides id)
        (length (target be overrides id).addresses)
        (dial net be overrides id next)
unfolding dial
dial-Done net be overrides id next h range = elim (List-cases (target be overrides id).addresses) [
  | inl e ↦ absurd (ground arith)
  | inr (a, rest, e) ↦
      let same : dial net be overrides id next
          ≡ dial_loop net (target be overrides id) (length rest) 0 (start_trace next) =
        ground arith in
      rw same (
        dial_loop-Done net (target be overrides id) range (length rest) 0 (start_trace next) _ h
          refl (rw e (omega arith)))
]
