-- ===== src/Counter/Rate.antt =====
-- The value and the rate of a counter are sums over the log of its increments.
use mathlib.Core.Path.{subst}
use native.Mathlib.Nat.{mod-eq_of_lt, mul-div-le}
use rp.Prelude.{
  ℕ, ◌+◌, ◌-◌, ◌*◌, ◌/◌, ◌%◌, ◌≤◌, ◌<◌, ◌≡◌, refl, sym, ap, ◌∙◌, ◌≢◌, [], ◌∷◌, none, some, get_or,
  min, ◌==◌, if◌then◌else◌, arith, Bool-cases, ==_iff, inl, inr,
}
use rp.Counter.{
  Counter, word, max_int64, new, value, advance, incr, rate, rate_steps, slot_back, truncate,
}
use rp.Counter.History.{Log, after, latest, Ordered, total, within, total-within, UpTo}
use rp.Counter.Ring.{place, size-push_all}
use rp.Counter.Advance.{Inv, value-Inv, truncate-mul, span-le}
use rp.Counter.Increments.{fresh, after-Inv, advanced-Inv}

-- The sum of all the increments.
abbrev pub sum : Log → ℕ
sum [] = 0
sum ((clock, delta) ∷ log) = delta + sum log

total-all : (rez q : ℕ) (log : Log) → UpTo rez log q → total rez log q ≡ sum log
unfolding total
total-all rez q [] u = refl
total-all rez q ((clock, delta) ∷ log) u = ground (arith, total-all rez q log u.1)

new-fresh :
    (max_period resolution now : ℕ) {start : Counter}
    → new max_period resolution now ≡ some start
    → start ≡ fresh max_period resolution now
unfolding new
new-fresh max_period resolution now h = ground arith

steps-min :
    (period : ℕ) (a : Counter)
    → a.steps ≤ max_int64
    → rate_steps period a ≡ min (min (period / a.rez) a.steps) a.size
unfolding rate_steps
steps-min period a small = ground arith

slot-place : (n : ℕ) (a : Counter) → n ≤ max_int64 → slot_back n a ≡ place a.size a.head n
unfolding slot_back
slot-place n a small = ground arith

-- A rate over `n` steps, where `n` is not 0, and the slot that it reads holds `old`.
rate-some :
    (clock period n old : ℕ) (c : Counter)
    → rate_steps period (advance clock c) ≡ n
    → n ≢ 0
    → get_or (advance clock c).slots (slot_back n (advance clock c)) 0 ≡ old
    → (rate clock period c).1
      ≡ some ((value (advance clock c) + word - old) % word, (n * (advance clock c).rez) % word)
rate-some clock period n old c e pos o = unfold rate value in rw e (ground arith)

rate-none :
    (clock period : ℕ) (c : Counter)
    → rate_steps period (advance clock c) ≡ 0
    → (rate clock period c).1 ≡ none
rate-none clock period c e = unfold rate in rw e (ground arith)

size-advance : (clock : ℕ) (c : Counter) → (advance clock c).size ≡ c.size
unfolding advance
size-advance clock c = ground (
  arith,
  size-push_all (min (min (truncate clock c.rez - c.time) max_int64 / c.rez) c.size) (value c)
      (record c {
        time = truncate clock c.rez;
        steps = (c.steps + min (truncate clock c.rez - c.time) max_int64 / c.rez) % word;
      }),
)

size-after : (start : Counter) (log : Log) → (after start log).size ≡ start.size
unfolding after incr
size-after start [] = refl
size-after start ((clock, delta) ∷ log) =
    size-advance clock (after start log) ∙ size-after start log

module _ (first rez : ℕ) (pos : 0 < rez) (log : Log) (q clock period : ℕ) (c : Counter)
    (i : Inv first rez log q (advance clock c)) (small : (advance clock c).steps ≤ max_int64) where
  ago-total :
      (n : ℕ)
      → n ≤ (advance clock c).steps
      → n < (advance clock c).size
      → get_or (advance clock c).slots (slot_back n (advance clock c)) 0
        ≡ total rez log (q - n) % word
  ago-total n le lt =
      rw (slot-place n (advance clock c) (omega arith)) (i.holds.same n lt ∙ i.sums n le)

  difference :
      (n : ℕ)
      → (total rez log q % word + word - total rez log (q - n) % word) % word
        ≡ within rez log (q - n) q % word
  difference n = omega (arith, total-within rez log (q - n) q (omega arith))

  rate-Inv :
      period / rez < (advance clock c).size
      → let n = min (period / rez) (q - first) in
        (rate clock period c).1
        ≡ (if n == 0 then none else some (within rez log (q - n) q % word, (n * rez) % word))
  rate-Inv short =
      let n = min (period / rez) (q - first) in
      let a = advance clock c in
      let per : period / a.rez ≡ period / rez = rw i.rez_same in
      let e : rate_steps period a ≡ n = steps-min period a small ∙ omega (arith, per, i.begun) in
      elim (Bool-cases (n == 0)) [
        | inl p ↦ rw p (rate-none clock period c (e ∙ (==_iff n 0).0 p))
        | inr p ↦ rw p (
            rate-some clock period n (total rez log (q - n) % word) c e (λ z. ground arith)
              (ago-total n (omega (arith, i.begun)) (omega arith))
            ∙ rw (value-Inv first rez log a pos q i, difference n, i.rez_same) refl)
      ]

  -- With as many steps as slots, the oldest slot that is read is the newest one.
  ring_closed :
      (size : ℕ)
      → (advance clock c).size ≡ size
      → size ≤ max_int64
      → get_or (advance clock c).slots (slot_back size (advance clock c)) 0
        ≡ value (advance clock c)
  unfolding value
  ring_closed size e few =
      let a = advance clock c in
      let lt = i.holds.ring.head_lt in
      let back : a.head + a.size - size ≡ a.head = omega arith in
      let home : place a.size a.head size ≡ a.head = rw back (mod-eq_of_lt lt) in
      ap (λ j. get_or a.slots j 0) (slot-place size a few ∙ home)

  rate_long-Inv :
      (size : ℕ)
      → (advance clock c).size ≡ size
      → size ≤ period / rez
      → size ≤ q - first
      → (rate clock period c).1 ≡ some (0, (size * rez) % word)
  rate_long-Inv size e long old =
      let a = advance clock c in
      let per : period / a.rez ≡ period / rez = rw i.rez_same in
      rate-some clock period size (value a) c
        (steps-min period a small ∙ omega (arith, per, i.begun))
        (omega (arith, i.holds.ring.head_lt)) (ring_closed size e (omega (arith, i.begun)))
      ∙ rw i.rez_same (ap (λ d. some (d, (size * rez) % word)) (omega arith))

module _ (max_period resolution now : ℕ) (pos : 0 < resolution) (log : Log) (clock : ℕ) where
  abbrev start : Counter
  start = fresh max_period resolution now

  module _ (ordered : Ordered start log) where
    value-fresh : value (after start log) ≡ sum log % word
    value-fresh =
        let i = after-Inv max_period resolution now pos log ordered in
        value-Inv (now / resolution) resolution log (after start log) pos _ i
        ∙ ap (λ s. s % word) (total-all resolution _ log i.up_to)

    module _ (later : latest start log ≤ clock) (soon : clock ≤ start.time + max_int64) where
      few_steps : (advance clock (after start log)).steps ≤ max_int64
      few_steps =
          let i = advanced-Inv max_period resolution now pos log clock ordered later soon in
          omega (
            arith,
            i.begun,
            span-le resolution (now / resolution) (clock / resolution) max_int64 pos
                (omega (arith, mul-div-le clock resolution, truncate-mul now resolution)),
          )

      rate-fresh :
          (period : ℕ)
          → period / resolution ≤ max_period / resolution
          → let q = clock / resolution in
            let n = min (period / resolution) (q - now / resolution) in
            (rate clock period (after start log)).1 ≡ (
              if n == 0
              then none
              else some (within resolution log (q - n) q % word, (n * resolution) % word))
      rate-fresh period short =
          rate-Inv (now / resolution) resolution pos log (clock / resolution) clock period
            (after start log)
            (advanced-Inv max_period resolution now pos log clock ordered later soon) few_steps
            (omega (arith, size-advance clock (after start log), size-after start log))

      rate_long-fresh :
          (period : ℕ)
          → max_period / resolution < period / resolution
          → max_period / resolution < clock / resolution - now / resolution
          → (rate clock period (after start log)).1
            ≡ some (0, ((max_period / resolution + 1) * resolution) % word)
      rate_long-fresh period long old =
          rate_long-Inv (now / resolution) resolution pos log (clock / resolution) clock period
            (after start log)
            (advanced-Inv max_period resolution now pos log clock ordered later soon) few_steps
            (max_period / resolution + 1)
            (size-advance clock (after start log) ∙ size-after start log) (omega arith)
            (omega arith)

module _ (max_period resolution now : ℕ) {start : Counter} (pos : 0 < resolution)
    (made : new max_period resolution now ≡ some start) (log : Log) where
  -- For a counter that `new` makes with a positive resolution, and any log of increments made
  -- with a clock that does not go back and stays within 2 ^ 63 - 1 nanoseconds of the counter's
  -- first step: `Value` is the sum of all the increments, as an int64.
  pub value-after : Ordered start log → value (after start log) ≡ sum log % word
  value-after =
      subst (λ s. Ordered s log → value (after s log) ≡ sum log % word)
        (sym (new-fresh max_period resolution now made))
        (value-fresh max_period resolution now pos log 0)

  -- For such a counter, log and clock, and a period that has no more steps than the period that
  -- the counter was made for: `Rate` is 0 if no step has passed or the period is shorter than
  -- one, and otherwise the sum of the increments of the last steps, as an int64, over the time
  -- that these steps take. There are as many of them as the period has, or as have passed since
  -- the counter was made, if that is fewer.
  pub rate-after :
      (clock period : ℕ)
      → Ordered start log
      → latest start log ≤ clock
      → clock ≤ start.time + max_int64
      → period / resolution ≤ max_period / resolution
      → let q = clock / resolution in
        let n = min (period / resolution) (q - now / resolution) in
        (rate clock period (after start log)).1 ≡ (
          if n == 0
          then none
          else some (within resolution log (q - n) q % word, (n * resolution) % word))
  rate-after clock period =
      subst
        (λ s.
          Ordered s log
          → latest s log ≤ clock
          → clock ≤ s.time + max_int64
          → period / resolution ≤ max_period / resolution
          → let q = clock / resolution in
            let n = min (period / resolution) (q - now / resolution) in
            (rate clock period (after s log)).1 ≡ (
              if n == 0
              then none
              else some (within resolution log (q - n) q % word, (n * resolution) % word)))
        (sym (new-fresh max_period resolution now made))
        (λ o l b. rate-fresh max_period resolution now pos log clock o l b period)

  -- For such a counter, log and clock, a period with more steps than the period that the counter
  -- was made for, and a counter that is older than that: `Rate` is 0, whatever was added.
  pub rate-after_long :
      (clock period : ℕ)
      → Ordered start log
      → latest start log ≤ clock
      → clock ≤ start.time + max_int64
      → max_period / resolution < period / resolution
      → max_period / resolution < clock / resolution - now / resolution
      → (rate clock period (after start log)).1
        ≡ some (0, ((max_period / resolution + 1) * resolution) % word)
  rate-after_long clock period =
      subst
        (λ s.
          Ordered s log
          → latest s log ≤ clock
          → clock ≤ s.time + max_int64
          → max_period / resolution < period / resolution
          → max_period / resolution < clock / resolution - now / resolution
          → (rate clock period (after s log)).1
            ≡ some (0, ((max_period / resolution + 1) * resolution) % word))
        (sym (new-fresh max_period resolution now made))
        (λ o l b. rate_long-fresh max_period resolution now pos log clock o l b period)
