-- ===== src/Counter/History.antt =====
-- The log of a counter's increments: what it adds up to, over all time and over some steps.
use rp.Prelude.{ℕ, ◌+◌, ◌/◌, ◌≤◌, ◌≡◌, refl, List, [], ◌∷◌, ltb, leb, if◌then◌else◌, arith}
use rp.Counter.{Counter, max_int64, incr}

-- A log of increments, the newest first: the clock's reading, and what was added.
abbrev pub Log : Type 0
Log = List (ℕ × ℕ)

-- The counter after a log.
unfoldable pub after : Counter → Log → Counter
after start [] = start
after start ((clock, delta) ∷ earlier) = (incr clock delta (after start earlier)).0

-- The clock does not go back, and less than 2 ^ 63 nanoseconds pass since the counter was made.
abbrev pub latest : Counter → Log → ℕ
latest start [] = start.time
latest start ((clock, delta) ∷ earlier) = clock

abbrev pub Ordered : Counter → Log → Type 0
Ordered start [] = Unit {0}
Ordered start ((clock, delta) ∷ earlier) =
    (latest start earlier ≤ clock) × (clock ≤ start.time + max_int64) × Ordered start earlier

-- What was added up to the step of time `q`; and after the step `p` and up to `q`.
unfoldable pub total : ℕ → Log → ℕ → ℕ
total rez [] q = 0
total rez ((clock, delta) ∷ earlier) q =
    (if leb (clock / rez) q then delta else 0) + total rez earlier q

unfoldable pub within : ℕ → Log → ℕ → ℕ → ℕ
within rez [] p q = 0
within rez ((clock, delta) ∷ earlier) p q =
    (if leb (clock / rez) q then if ltb p (clock / rez) then delta else 0 else 0)
    + within rez earlier p q

pub total-within :
    (rez : ℕ) (log : Log) (p q : ℕ) → p ≤ q → total rez log q ≡ total rez log p + within rez log p q
unfolding total within
total-within rez [] p q h = refl
total-within rez ((clock, delta) ∷ log) p q h = ground (arith, total-within rez log p q h)

-- Every increment lies in the step `q` or before it.
abbrev pub UpTo : ℕ → Log → ℕ → Type 0
UpTo rez [] q = Unit {0}
UpTo rez ((clock, delta) ∷ log) q = (clock / rez ≤ q) × UpTo rez log q

pub total_past :
    (rez : ℕ) (log : Log) (p q : ℕ) → UpTo rez log p → p ≤ q → total rez log q ≡ total rez log p
unfolding total
total_past rez [] p q u h = refl
total_past rez ((clock, delta) ∷ log) p q u h = ground (arith, total_past rez log p q u.1 h)

pub UpTo-mono : (rez : ℕ) (log : Log) (p q : ℕ) → p ≤ q → UpTo rez log p → UpTo rez log q
UpTo-mono rez [] p q h u = tt
UpTo-mono rez ((clock, delta) ∷ log) p q h u = (omega arith, UpTo-mono rez log p q h u.1)
