-- ===== src/Counter/Ring.antt =====
-- The ring of a counter, read backwards from its head: what a push does to it.
use native.Mathlib.Nat.{mod-eq_of_lt, mod-eq-sub-mod}
use rp.Prelude.{
  ℕ, zero, suc, ◌+◌, ◌-◌, ◌%◌, ◌≤◌, ◌<◌, ◌≡◌, refl, sym, ◌≢◌, ◌⊎◌, inl, inr, List, get_or, length,
  length-set, get_or-set_self, get_or-set_ne, arith, Bool-cases, ltb, ltb→lt, ◌∷◌, ◌++◌, ◌∙◌, ap,
  min, replicate,
}
use mathlib.Core.Path.{subst}
use rp.Counter.{Counter, push, push_all}

-- The place of the value of `k` steps ago.
abbrev pub place : ℕ → ℕ → ℕ → ℕ
place n h k = (h + n - k) % n

abbrev pub ago : Counter → ℕ → ℕ
ago c k = get_or c.slots (place c.size c.head k) 0

pub record IsRing (c : Counter) : Type 0 where
  pub slots_length : length c.slots ≡ c.size
  pub head_lt : c.head < c.size

place_wrapped : (n h k : ℕ) → k ≤ h → h < n → place n h k ≡ h - k
place_wrapped n h k a b = omega (
  arith,
  mod-eq-sub-mod {n = h + n - k} {m = n} (omega arith),
  mod-eq_of_lt {n = h + n - k - n} {m = n} (omega arith),
)

place_plain : (n h k : ℕ) → h < k → k < n → place n h k ≡ h + n - k
place_plain n h k a b = mod-eq_of_lt (omega arith)

next_plain : (n h : ℕ) → h + 1 < n → (h + 1) % n ≡ h + 1
next_plain n h a = mod-eq_of_lt a

next_wrapped : (n h : ℕ) → h + 1 ≡ n → (h + 1) % n ≡ 0
next_wrapped n h e = omega (
  arith,
  mod-eq-sub-mod {n = h + 1} {m = n} (omega arith),
  mod-eq_of_lt {n = h + 1 - n} {m = n} (omega arith),
)

next_cases :
    (n h : ℕ) → h < n → ((h + 1 < n) × ((h + 1) % n ≡ h + 1)) ⊎ ((h + 1 ≡ n) × ((h + 1) % n ≡ 0))
next_cases n h a = elim (Bool-cases (ltb (h + 1) n)) [
  | inl p ↦ inl (ltb→lt _ _ p, next_plain n h (ltb→lt _ _ p))
  | inr p ↦ let q : h + 1 ≡ n = ground arith in inr (q, next_wrapped n h q)
]

place_cases :
    (n h k : ℕ)
    → h < n
    → k < n
    → ((k ≤ h) × (place n h k ≡ h - k)) ⊎ ((h < k) × (place n h k ≡ h + n - k))
place_cases n h k a b = elim (Bool-cases (ltb h k)) [
  | inl p ↦ inr (ltb→lt _ _ p, place_plain n h k (ltb→lt _ _ p) b)
  | inr p ↦ let q : k ≤ h = ground arith in inl (q, place_wrapped n h k q a)
]

next_lt : (n h : ℕ) → h < n → (h + 1) % n < n
next_lt n h a = omega (arith, next_cases n h a)

-- A step back from the next place is the place itself.
place-next : (n h j : ℕ) → h < n → suc j < n → place n ((h + 1) % n) (suc j) ≡ place n h j
place-next n h j a b = omega (
  arith,
  next_cases n h a,
  place_cases n h j a (omega arith),
  place_cases n ((h + 1) % n) (suc j) (next_lt n h a) b,
)

place-next_ne : (n h j : ℕ) → h < n → suc j < n → (h + 1) % n ≢ place n h j
place-next_ne n h j a b = omega (arith, next_cases n h a, place_cases n h j a (omega arith))

pub place-zero : (n h : ℕ) → h < n → place n h 0 ≡ h
place-zero n h a = omega (arith, place_wrapped n h 0 (omega arith) a)

pub place_ne : (n h j : ℕ) → h < n → suc j < n → h ≢ place n h (suc j)
place_ne n h j a b = omega (arith, place_cases n h (suc j) a b)

module _ (v : ℕ) (c : Counter) (r : IsRing c) where
  pub push-IsRing : IsRing (push v c)
  unfolding push
  push-IsRing = record {
    slots_length = length-set c.slots _ v ∙ r.slots_length;
    head_lt = next_lt c.size c.head r.head_lt;
  }

  pub ago-push_zero : ago (push v c) 0 ≡ v
  unfolding push
  ago-push_zero =
      let next = next_lt c.size c.head r.head_lt in
      rw (place-zero c.size ((c.head + 1) % c.size) next)
        (get_or-set_self c.slots _ v 0 (omega (arith, r.slots_length)))

  pub ago-push-suc : (j : ℕ) → suc j < c.size → ago (push v c) (suc j) ≡ ago c j
  unfolding push
  ago-push-suc j h =
      rw (place-next c.size c.head j r.head_lt h)
        (get_or-set_ne c.slots _ _ v 0 (place-next_ne c.size c.head j r.head_lt h))

pub push_all-IsRing : (n v : ℕ) (c : Counter) → IsRing c → IsRing (push_all n v c)
unfolding push_all
push_all-IsRing zero v c r = r
push_all-IsRing (suc n) v c r = push_all-IsRing n v (push v c) (push-IsRing v c r)

-- A ring agrees with a list of values, the newest first, as far back as it goes; the list
-- continues with zeros.
pub record Holds (c : Counter) (l : List ℕ) : Type 0 where
  pub ring : IsRing c
  pub same : (k : ℕ) → k < c.size → ago c k ≡ get_or l k 0

pub push-Holds : (v : ℕ) (c : Counter) (l : List ℕ) → Holds c l → Holds (push v c) (v ∷ l)
unfolding push
push-Holds v c l h = record { ring = push-IsRing v c h.ring; same = same }
  where
    same : (k : ℕ) → k < c.size → ago (push v c) k ≡ get_or (v ∷ l) k 0
    same zero b = ago-push_zero v c h.ring
    same (suc j) b = ago-push-suc v c h.ring j b ∙ h.same j (omega arith)

pub size-push_all : (n v : ℕ) (c : Counter) → (push_all n v c).size ≡ c.size
unfolding push_all push
size-push_all zero v c = refl
size-push_all (suc n) v c = size-push_all n v (push v c)

cons-replicate : (n v : ℕ) (l : List ℕ) → replicate n v ++ (v ∷ l) ≡ v ∷ replicate n v ++ l
cons-replicate zero v l = refl
cons-replicate (suc n) v l = ap (◌∷◌ v) (cons-replicate n v l)

pub push_all-Holds :
    (n v : ℕ) (c : Counter) (l : List ℕ) → Holds c l → Holds (push_all n v c) (replicate n v ++ l)
unfolding push_all
push_all-Holds zero v c l h = h
push_all-Holds (suc n) v c l h =
    subst (Holds (push_all n v (push v c))) (cons-replicate n v l)
      (push_all-Holds n v (push v c) (v ∷ l) (push-Holds v c l h))

-- Past the size of the ring, more copies of the value make no difference.
get_or-replicate_more :
    (m n k v : ℕ) (l r : List ℕ)
    → k < m
    → k < n
    → get_or (replicate m v ++ l) k 0 ≡ get_or (replicate n v ++ r) k 0
get_or-replicate_more (suc m) (suc n) zero v l r a b = refl
get_or-replicate_more (suc m) (suc n) (suc k) v l r a b =
    get_or-replicate_more m n k v l r (omega arith) (omega arith)
get_or-replicate_more zero n k v l r a b = absurd (omega arith)
get_or-replicate_more (suc m) zero k v l r a b = absurd (omega arith)

pub push_all-Holds-min :
    (n v : ℕ) (c : Counter) (l : List ℕ)
    → Holds c l
    → Holds (push_all (min n c.size) v c) (replicate n v ++ l)
push_all-Holds-min n v c l h = elim (Bool-cases (ltb c.size n)) [
  | inl p ↦
      let q = ltb→lt _ _ p in
      let r = push_all-Holds (min n c.size) v c l h in
      record {
        ring = r.ring;
        same = λ k b.
            r.same k b
            ∙ get_or-replicate_more (min n c.size) n k v l l
                (omega (arith, size-push_all (min n c.size) v c))
                (omega (arith, size-push_all (min n c.size) v c));
      }
  | inr p ↦
      let q : min n c.size ≡ n = ground arith in
      subst (λ m. Holds (push_all m v c) (replicate n v ++ l)) (sym q) (push_all-Holds n v c l h)
]
