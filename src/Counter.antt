-- ===== src/Counter.antt =====
-- proxy/internal/counter/counter.go: a counter that keeps one slot for each step of time, in a ring.
-- Times and durations are numbers of nanoseconds; a time is counted from Go's zero time, so
-- `Truncate` rounds down to a multiple. An int64 is its bit pattern below 2 ^ 64.
pub mod Ring
pub mod History
pub mod Advance
pub mod Increments
pub mod Rate
use rp.Prelude.{
  ℕ, zero, suc, ◌+◌, ◌-◌, ◌*◌, ◌/◌, ◌%◌, ◌^◌, ◌≤◌, ◌<◌, min, Bool, true, false, Option, none, some,
  List, [], ◌∷◌, ltb, leb, ◌==◌, if◌then◌else◌, get_or, set, replicate,
}

abbrev pub word : ℕ
word = 18446744073709551616

abbrev pub max_int64 : ℕ
max_int64 = 9223372036854775807

abbrev pub is_negative : ℕ → Bool
is_negative n = ltb max_int64 n

unfoldable pub truncate : ℕ → ℕ → ℕ
truncate t d = t - t % d

pub record Counter : Type 0 where
  pub size : ℕ
  pub rez : ℕ
  pub steps : ℕ
  pub head : ℕ
  pub time : ℕ
  pub slots : List ℕ

-- `none` is the panic "counter resolution too small".
unfoldable pub new : ℕ → ℕ → ℕ → Option Counter
unfolding truncate
new max_period resolution now =
    let size = max_period / resolution + 1 in
    if ltb 1000 size
    then none
    else some (record {
      size = size;
      rez = resolution;
      steps = 0;
      head = 0;
      time = truncate now resolution;
      slots = replicate size 0;
    })

unfoldable pub value : Counter → ℕ
value c = get_or c.slots c.head 0

-- The body of the loop of `advance`, and the loop.
unfoldable pub push : ℕ → Counter → Counter
push v c = let h = (c.head + 1) % c.size in record c { head = h; slots = set c.slots h v }

unfoldable pub push_all : ℕ → ℕ → Counter → Counter
push_all zero v c = c
push_all (suc n) v c = push_all n v (push v c)

-- `now.Sub` saturates at the largest int64.
unfoldable pub advance : ℕ → Counter → Counter
unfolding truncate value
advance clock c =
    let now = truncate clock c.rez in
    let steps = min (now - c.time) max_int64 / c.rez in
    if ltb c.time now
    then push_all (min steps c.size) (value c)
        (record c { time = now; steps = (c.steps + steps) % word })
    else c

unfoldable pub incr : ℕ → ℕ → Counter → Counter × ℕ
unfolding value
incr clock delta c =
    let a = advance clock c in
    let b = record a { slots = set a.slots a.head ((value a + delta) % word) } in (b, value b)

-- How many steps back a rate looks: `steps` is an int64, and so may be read as negative.
unfoldable pub rate_steps : ℕ → Counter → ℕ
rate_steps period c =
    if is_negative c.steps then c.steps else min (min (period / c.rez) c.steps) c.size

unfoldable pub slot_back : ℕ → Counter → ℕ
slot_back steps c =
    (if is_negative steps then c.head + c.size + (word - steps) else c.head + c.size - steps)
    % c.size

-- The rate is the first number over the second, which is a duration; `none` is the rate 0.
-- Both are int64.
unfoldable pub rate : ℕ → ℕ → Counter → Counter × Option (ℕ × ℕ)
unfolding rate_steps slot_back
rate clock period c =
    let a = advance clock c in
    let steps = rate_steps period a in
    if steps == 0 then (a, none) else (
      a,
      some (
        (get_or a.slots a.head 0 + word - get_or a.slots (slot_back steps a) 0) % word,
        (steps * a.rez) % word,
      ),
    )
