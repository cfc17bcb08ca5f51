-- ===== src/Counter/Advance.antt =====
-- What holds of a counter at each step of time, and how `advance` keeps it.
use mathlib.Core.Path.{subst}
use native.Mathlib.Nat.{
  mod-eq_of_lt, div-add-mod, mul-sub, mul-div_cancel_left, mul-div-le, sub-zero,
}
use rp.Prelude.{
  ℕ, zero, suc, ◌+◌, ◌-◌, ◌*◌, ◌/◌, ◌%◌, ◌≤◌, ◌<◌, ◌≡◌, refl, sym, ap, ◌∙◌, inl, inr, List, ◌++◌,
  Bool, true, get_or, length, length-append, length-replicate, replicate, min, ltb, if◌then◌else◌,
  ltb→lt, lt→ltb, Bool-cases, arith,
}
use rp.Counter.{Counter, word, max_int64, truncate, value, push, push_all, advance}
use rp.Counter.History.{Log, total, UpTo, total_past, UpTo-mono}
use rp.Counter.Ring.{Holds, place-zero, push_all-Holds-min}

pub truncate-mul : (t d : ℕ) → truncate t d ≡ d * (t / d)
unfolding truncate
truncate-mul t d = omega (arith, div-add-mod t d)

mul-sub-div : (d p q : ℕ) → 0 < d → (d * q - d * p) / d ≡ q - p
mul-sub-div d p q h = rw (← mul-sub d q p) (mul-div_cancel_left (q - p) h)

mul-lt : (d p q : ℕ) → 0 < d → p < q → d * p < d * q
mul-lt d p q h k = grind arith

pub span-le : (d p q m : ℕ) → 0 < d → d * q ≤ d * p + m → q - p ≤ m
span-le d p q m h k = let whole : q - p ≤ d * (q - p) = grind arith in omega (arith, mul-sub d q p)

if-true {ℓ} : {A : Type ℓ} {b : Bool} (x y : A) → b ≡ true → (if b then x else y) ≡ x
if-true x y h = rw h

-- What holds of a counter that was made at the step `first`, after a log, at the step `q`: its
-- slots are the running totals.
pub record Inv (first rez : ℕ) (log : Log) (q : ℕ) (c : Counter) : Type 0 where
  pub values : List ℕ
  pub rez_same : c.rez ≡ rez
  pub at_step : c.time ≡ rez * q
  pub begun : first + c.steps ≡ q
  pub as_long : length values ≡ suc c.steps
  pub holds : Holds c values
  pub up_to : UpTo rez log q
  pub sums : (k : ℕ) → k ≤ c.steps → get_or values k 0 ≡ total rez log (q - k) % word

get_or-replicate_append :
    (n k v : ℕ) (l : List ℕ)
    → get_or (replicate n v ++ l) k 0 ≡ (if ltb k n then v else get_or l (k - n) 0)
get_or-replicate_append zero k v l = ground arith
get_or-replicate_append (suc n) zero v l = ground arith
get_or-replicate_append (suc n) (suc k) v l = ground (arith, get_or-replicate_append n k v l)

push_all-fields :
    (n v : ℕ) (c : Counter)
    → ((push_all n v c).rez ≡ c.rez)
      × ((push_all n v c).time ≡ c.time)
      × ((push_all n v c).steps ≡ c.steps)
unfolding push_all push
push_all-fields zero v c = (refl, refl, refl)
push_all-fields (suc n) v c = push_all-fields n v (push v c)

module _ (first rez : ℕ) (log : Log) (c : Counter) (pos : 0 < rez) where
  pub value-Inv : (q : ℕ) → Inv first rez log q c → value c ≡ total rez log q % word
  unfolding value
  value-Inv q i =
      let r = i.holds.ring in
      sym (ap (λ j. get_or c.slots j 0) (place-zero c.size c.head r.head_lt))
      ∙ i.holds.same 0 (omega (arith, r.head_lt))
      ∙ i.sums 0 (omega arith)
      ∙ ap (λ p. total rez log p % word) (sub-zero q)

  advance_none : (clock : ℕ) → Inv first rez log (clock / rez) c → advance clock c ≡ c
  unfolding advance
  advance_none clock i = ground (arith, truncate-mul clock rez, i.rez_same, i.at_step)

  -- The steps that `advance` counts are those between the two times.
  steps-eq :
      (q clock : ℕ)
      → Inv first rez log q c
      → q < clock / rez
      → clock ≤ rez * first + max_int64
      → min (rez * (clock / rez) - c.time) max_int64 / rez ≡ clock / rez - q
  steps-eq q clock i lt b =
      let below : rez * first ≤ rez * q = grind (arith, i.begun) in
      let m : min (rez * (clock / rez) - c.time) max_int64 ≡ rez * (clock / rez) - rez * q =
        omega (arith, i.at_step, mul-div-le clock rez) in
      rw m (mul-sub-div rez q (clock / rez) pos)

  steps-lt :
      (q clock : ℕ)
      → Inv first rez log q c
      → q < clock / rez
      → clock ≤ rez * first + max_int64
      → c.steps + (clock / rez - q) < word
  steps-lt q clock i lt b =
      let few : rez * (clock / rez) ≤ clock = mul-div-le clock rez in
      let all : clock / rez - first ≤ max_int64 =
        span-le rez first (clock / rez) max_int64 pos (omega arith) in
      omega (arith, i.begun)

  advance_some :
      (q clock : ℕ) (i : Inv first rez log q c)
      → q < clock / rez
      → clock ≤ rez * first + max_int64
      → let n = clock / rez - q in
        advance clock c
        ≡ push_all
            (min n c.size)
            (value c)
            (record c { time = rez * (clock / rez); steps = c.steps + n })
  unfolding advance value
  advance_some q clock i lt b =
      let earlier : rez * q < rez * (clock / rez) = mul-lt rez q (clock / rez) pos lt in
      let span : c.steps + (clock / rez - q) < word = steps-lt q clock i lt b in
      let count = steps-eq q clock i lt b in
      rw (truncate-mul clock c.rez, i.rez_same, count, mod-eq_of_lt span)
        (if-true _ _ (lt→ltb c.time (rez * (clock / rez)) (omega (arith, i.at_step))))

  -- The list of values grows by copies of the last one, one for each step.
  grown-sums :
      (q n k : ℕ) (i : Inv first rez log q c)
      → k ≤ c.steps + n
      → get_or (replicate n (value c) ++ i.values) k 0 ≡ total rez log (q + n - k) % word
  grown-sums q n k i h = elim (Bool-cases (ltb k n)) [
    | inl p ↦
        rw (get_or-replicate_append n k (value c) i.values, p, value-Inv q i)
          (ap (λ s. s % word)
            (sym (total_past rez log q (q + n - k) i.up_to (omega (arith, ltb→lt k n p)))))
    | inr p ↦
        let back : n ≤ k = ground arith in
        let e : q + n - k ≡ q - (k - n) = omega arith in
        rw (get_or-replicate_append n k (value c) i.values, p, e) (i.sums (k - n) (omega arith))
  ]

  moved-Inv :
      (q n : ℕ)
      → Inv first rez log q c
      → Inv first rez log (q + n) (
          push_all
            (min n c.size)
            (value c)
            (record c { time = rez * (q + n); steps = c.steps + n }))
  moved-Inv q n i =
      let d = record c { time = rez * (q + n); steps = c.steps + n } in
      let at_d : Holds d i.values = record {
        ring = record { slots_length = i.holds.ring.slots_length; head_lt = i.holds.ring.head_lt };
        same = i.holds.same;
      } in
      let f = push_all-fields (min n c.size) (value c) d in
      record {
        values = replicate n (value c) ++ i.values;
        rez_same = f.0 ∙ i.rez_same;
        at_step = f.1;
        begun = omega (arith, f.2, i.begun);
        as_long = omega (
          arith,
          f.2,
          i.as_long,
          length-append (replicate n (value c)) i.values,
          length-replicate n (value c),
        );
        holds = push_all-Holds-min n (value c) d i.values at_d;
        up_to = UpTo-mono rez log q (q + n) (omega arith) i.up_to;
        sums = λ k h. grown-sums q n k i (omega (arith, f.2));
      }

  pub advance-Inv :
      (q clock : ℕ)
      → Inv first rez log q c
      → q ≤ clock / rez
      → clock ≤ rez * first + max_int64
      → Inv first rez log (clock / rez) (advance clock c)
  advance-Inv q clock i le b = elim (Bool-cases (ltb q (clock / rez))) [
    | inl p ↦
        let lt = ltb→lt q (clock / rez) p in
        let e : q + (clock / rez - q) ≡ clock / rez = omega arith in
        rw (advance_some q clock i lt b) (
          subst
            (λ p. Inv first rez log p (
              push_all (min (clock / rez - q) c.size) (value c)
                (record c { time = rez * p; steps = c.steps + (clock / rez - q) })))
            e (moved-Inv q (clock / rez - q) i))
    | inr p ↦
        let e : q ≡ clock / rez = ground arith in
        let j = subst (λ p. Inv first rez log p c) e i in rw (advance_none clock j) j
  ]
