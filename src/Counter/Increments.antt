-- ===== src/Counter/Increments.antt =====
-- How an increment keeps what holds of a counter, and so what holds after a whole log.
use native.Mathlib.Nat.{sub-zero, mul-div_cancel_left}
use rp.Prelude.{
  ℕ, zero, suc, ◌+◌, ◌-◌, ◌*◌, ◌/◌, ◌%◌, ◌≤◌, ◌<◌, ◌≡◌, refl, ◌∙◌, List, [], ◌∷◌, get_or, set,
  length, length-set, get_or-set_self, get_or-set_ne, arith, replicate, length-replicate,
  get_or-replicate,
}
use rp.Counter.{Counter, word, max_int64, value, advance, incr, truncate}
use rp.Counter.History.{Log, after, latest, Ordered, total}
use rp.Counter.Ring.{Holds, place, place-zero, place_ne}
use rp.Counter.Advance.{Inv, advance-Inv, value-Inv, truncate-mul}

replace_head : List ℕ → ℕ → List ℕ
replace_head [] v = []
replace_head (x ∷ xs) v = v ∷ xs

length-replace_head : (l : List ℕ) (v : ℕ) → length (replace_head l v) ≡ length l
unfolding replace_head
length-replace_head [] v = refl
length-replace_head (x ∷ xs) v = refl

get_or-replace_head_zero : (l : List ℕ) (v : ℕ) → 0 < length l → get_or (replace_head l v) 0 0 ≡ v
unfolding replace_head
get_or-replace_head_zero [] v h = absurd (omega arith)
get_or-replace_head_zero (x ∷ xs) v h = refl

get_or-replace_head-suc :
    (l : List ℕ) (v k : ℕ) → get_or (replace_head l v) (suc k) 0 ≡ get_or l (suc k) 0
unfolding replace_head
get_or-replace_head-suc [] v k = refl
get_or-replace_head-suc (x ∷ xs) v k = refl

write_head : Counter → ℕ → Counter
write_head a v = record a { slots = set a.slots a.head v }

write_head-Holds :
    (a : Counter) (l : List ℕ) (v : ℕ)
    → Holds a l
    → 0 < length l
    → Holds (write_head a v) (replace_head l v)
unfolding write_head
write_head-Holds a l v h pos = record {
  ring = record {
    slots_length = length-set a.slots a.head v ∙ h.ring.slots_length;
    head_lt = h.ring.head_lt;
  };
  same = same;
}
  where
    same :
        (k : ℕ)
        → k < a.size
        → get_or (set a.slots a.head v) (place a.size a.head k) 0 ≡ get_or (replace_head l v) k 0
    same zero b =
        rw (place-zero a.size a.head h.ring.head_lt, get_or-replace_head_zero l v pos)
          (get_or-set_self a.slots a.head v 0 (omega (arith, h.ring.slots_length, h.ring.head_lt)))
    same (suc k) b = rw (get_or-replace_head-suc l v k) (
        get_or-set_ne a.slots a.head _ v 0 (place_ne a.size a.head k h.ring.head_lt b)
        ∙ h.same (suc k) b)

-- The logged increment counts from its own step on.
total_now :
    (rez clock delta q : ℕ) (log : Log)
    → clock / rez ≤ q
    → total rez ((clock, delta) ∷ log) q ≡ delta + total rez log q
unfolding total
total_now rez clock delta q log h = ground arith

total_before :
    (rez clock delta q : ℕ) (log : Log)
    → q < clock / rez
    → total rez ((clock, delta) ∷ log) q ≡ total rez log q
unfolding total
total_before rez clock delta q log h = ground arith

module _ (first rez : ℕ) (pos : 0 < rez) where
  write-Inv :
      (log : Log) (clock delta : ℕ) (a : Counter)
      → Inv first rez log (clock / rez) a
      → Inv first rez ((clock, delta) ∷ log) (clock / rez) (write_head a ((value a + delta) % word))
  unfolding write_head
  write-Inv log clock delta a i =
      let v = (value a + delta) % word in
      record {
        values = replace_head i.values v;
        rez_same = i.rez_same;
        at_step = i.at_step;
        begun = i.begun;
        as_long = length-replace_head i.values v ∙ i.as_long;
        holds = write_head-Holds a i.values v i.holds (omega (arith, i.as_long));
        up_to = (omega arith, i.up_to);
        sums = sums;
      }
    where
      sums :
          (k : ℕ)
          → k ≤ a.steps
          → get_or (replace_head i.values ((value a + delta) % word)) k 0
            ≡ total rez ((clock, delta) ∷ log) (clock / rez - k) % word
      sums zero h =
          rw
            (
              get_or-replace_head_zero i.values ((value a + delta) % word)
                  (omega (arith, i.as_long)),
              sub-zero (clock / rez),
              total_now rez clock delta (clock / rez) log (omega arith),
            )
            (omega (arith, value-Inv first rez log a pos (clock / rez) i))
      sums (suc k) h =
          let lt : clock / rez - suc k < clock / rez = omega (arith, i.begun) in
          rw
            (
              get_or-replace_head-suc i.values ((value a + delta) % word) k,
              total_before rez clock delta (clock / rez - suc k) log lt,
            )
            (i.sums (suc k) h)

  incr-Inv :
      (log : Log) (q clock delta : ℕ) (c : Counter)
      → Inv first rez log q c
      → q ≤ clock / rez
      → clock ≤ rez * first + max_int64
      → Inv first rez ((clock, delta) ∷ log) (clock / rez) (incr clock delta c).0
  unfolding incr write_head
  incr-Inv log q clock delta c i le b =
      write-Inv log clock delta (advance clock c) (advance-Inv first rez log c pos q clock i le b)

-- The counter that `new` makes, if it makes one.
abbrev pub fresh : ℕ → ℕ → ℕ → Counter
fresh max_period resolution now = record {
  size = max_period / resolution + 1;
  rez = resolution;
  steps = 0;
  head = 0;
  time = truncate now resolution;
  slots = replicate (max_period / resolution + 1) 0;
}

zeros-same : (n h k : ℕ) → get_or {A = ℕ} (replicate n 0) (place n h k) 0 ≡ get_or (0 ∷ []) k 0
zeros-same n h zero = get_or-replicate n (place n h zero) 0
zeros-same n h (suc k) = get_or-replicate n (place n h (suc k)) 0

fresh-Inv :
    (max_period resolution now : ℕ)
    → Inv (now / resolution) resolution [] (now / resolution) (fresh max_period resolution now)
unfolding total
fresh-Inv max_period resolution now =
    let size = max_period / resolution + 1 in
    record {
      values = 0 ∷ [];
      rez_same = refl;
      at_step = truncate-mul now resolution;
      begun = omega arith;
      as_long = refl;
      holds = record {
        ring = record { slots_length = length-replicate size 0; head_lt = omega arith };
        same = λ k h. zeros-same size 0 k;
      };
      up_to = tt;
      sums = λ k h. ground arith;
    }

div_mono : (d a b : ℕ) → 0 < d → a ≤ b → a / d ≤ b / d
div_mono d a b pos h = grind arith

-- The step that the latest reading of the clock lies in.
abbrev pub step_of : ℕ → Counter → Log → ℕ
step_of rez start [] = start.time / rez
step_of rez start ((clock, delta) ∷ log) = clock / rez

module _ (max_period resolution now : ℕ) (pos : 0 < resolution) where
  start-div : truncate now resolution / resolution ≡ now / resolution
  start-div = rw (truncate-mul now resolution) (mul-div_cancel_left (now / resolution) pos)

  le-step :
      (log : Log) (clock : ℕ)
      → latest (fresh max_period resolution now) log ≤ clock
      → step_of resolution (fresh max_period resolution now) log ≤ clock / resolution
  le-step [] clock h = div_mono resolution _ _ pos h
  le-step ((c, d) ∷ log) clock h = div_mono resolution _ _ pos h

  pub after-Inv :
      (log : Log)
      → Ordered (fresh max_period resolution now) log
      → let start = fresh max_period resolution now in
        Inv (now / resolution) resolution log (step_of resolution start log) (after start log)
  unfolding after
  after-Inv [] o = rw start-div (fresh-Inv max_period resolution now)
  after-Inv ((clock, delta) ∷ log) o =
      incr-Inv (now / resolution) resolution pos log
        (step_of resolution (fresh max_period resolution now) log) clock delta
        (after (fresh max_period resolution now) log) (after-Inv log o.2) (le-step log clock o.0)
        (omega (arith, o.1, truncate-mul now resolution))

  pub advanced-Inv :
      (log : Log) (clock : ℕ)
      → let start = fresh max_period resolution now in
        Ordered start log
        → latest start log ≤ clock
        → clock ≤ start.time + max_int64
        → Inv
            (now / resolution)
            resolution
            log
            (clock / resolution)
            (advance clock (after start log))
  advanced-Inv log clock o le b =
      advance-Inv (now / resolution) resolution log (after (fresh max_period resolution now) log)
        pos _ clock (after-Inv log o) (le-step log clock le)
        (omega (arith, truncate-mul now resolution))
