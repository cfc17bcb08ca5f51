-- ===== src/Examples/Counts.antt =====
-- A counter of ten seconds, with a resolution of one.
use rp.Prelude.{ℕ, ◌*◌, ◌≡◌, refl, some, [], ◌∷◌, replicate, arith}
use rp.Counter.{Counter, new, value, rate, truncate}
use rp.Counter.History.{Log, after, within}
use rp.Counter.Rate.{value-after, rate-after, rate-after_long}

abbrev second : ℕ
second = 1000000000

abbrev fresh_counter : Counter
fresh_counter = record {
  size = 11;
  rez = second;
  steps = 0;
  head = 0;
  time = 5000000000;
  slots = replicate 11 0;
}

made : new (10 * second) second 5500000000 ≡ some fresh_counter
unfolding new truncate
made = refl

abbrev log : Log
log = (8000000000, 7) ∷ (6000000000, 3) ∷ []

value-after_example : value (after fresh_counter log) ≡ 10
value-after_example =
    value-after (10 * second) second 5500000000 (omega arith) made log
      (omega arith, omega arith, (omega arith, omega arith, tt))

rate-after_example :
    (rate 9000000000 (2 * second) (after fresh_counter log)).1 ≡ some (7, 2000000000)
unfolding within
rate-after_example =
    rate-after (10 * second) second 5500000000 (omega arith) made log 9000000000 (2 * second)
      (omega arith, omega arith, (omega arith, omega arith, tt)) (omega arith) (omega arith)
      (omega arith)

rate-after_long_example :
    (rate 30000000000 (20 * second) (after fresh_counter log)).1 ≡ some (0, 11000000000)
rate-after_long_example =
    rate-after_long (10 * second) second 5500000000 (omega arith) made log 30000000000 (20 * second)
      (omega arith, omega arith, (omega arith, omega arith, tt)) (omega arith) (omega arith)
      (omega arith) (omega arith)
