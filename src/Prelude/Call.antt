-- ===== src/Prelude/Call.antt =====
-- What a call of a Go function that returns an error can do: return a value, return an error, or
-- panic (a nil pointer, an index out of range, a send on a closed channel).
use mathlib.Core.Bool.{Bool, true, false}
use mathlib.Core.List.{List, [], ◌∷◌}
use mathlib.Core.Option.{Option, none, some}
use mathlib.Core.Path.{◌≡◌, refl}

pub data Call {ℓ} (E : Type 0) (A : Type ℓ) : Type ℓ where
  ok : A → Call E A
  err : E → Call E A
  panic : Call E A

infixl 5 ◌>>=◌ ◌>>◌
abbrev pub ◌>>=◌ {ℓ κ} :
    {E : Type 0} {A : Type ℓ} {B : Type κ} → Call E A → (A → Call E B) → Call E B
ok a >>= f = f a
err e >>= f = err e
panic >>= f = panic

abbrev pub ◌>>◌ {ℓ} : {E : Type 0} {B : Type ℓ} → Call E (Unit {0}) → Call E B → Call E B
m >> k = m >>= λ _. k

-- `if bad { return e }`
abbrev pub fail_if : {E : Type 0} → Bool → E → Call E (Unit {0})
fail_if true e = err e
fail_if false e = ok tt

pub bind_assoc {ℓ κ μ} :
    {E : Type 0} {A : Type ℓ} {B : Type κ} {C : Type μ} (m : Call E A) (f : A → Call E B)
    (g : B → Call E C)
    → (m >>= f >>= g) ≡ (m >>= λ a. f a >>= g)
bind_assoc (ok a) f g = refl
bind_assoc (err e) f g = refl
bind_assoc panic f g = refl

-- `if err != nil { return e }` after a call that returns a value.
abbrev pub or_fail {ℓ} : {E : Type 0} {A : Type ℓ} → Option A → E → Call E A
or_fail none e = err e
or_fail (some a) e = ok a

-- `for _, x := range xs { ... }` where the body may return an error.
unfoldable pub for_each {ℓ} :
    {E : Type 0} {A : Type ℓ} → (A → Call E (Unit {0})) → List A → Call E (Unit {0})
for_each body [] = ok tt
for_each body (x ∷ xs) = body x >> for_each body xs

-- The same where the body makes a new value of each.
unfoldable pub map_each {ℓ κ} :
    {E : Type 0} {A : Type ℓ} {B : Type κ} → (A → Call E B) → List A → Call E (List B)
map_each body [] = ok []
map_each body (x ∷ xs) = body x >>= λ y. map_each body xs >>= λ ys. ok (y ∷ ys)

-- Inversion of a chain that succeeds.
pub >>=-ok {ℓ κ} :
    {E : Type 0} {A : Type ℓ} {B : Type κ} (m : Call E A) (f : A → Call E B) {b : B}
    → (m >>= f) ≡ ok b
    → (a : A) × (m ≡ ok a) × (f a ≡ ok b)
>>=-ok (ok a) f h = (a, refl, h)
>>=-ok (err e) f h = absurd (cc)
>>=-ok panic f h = absurd (cc)

pub fail_if-ok {ℓ} :
    {E : Type 0} {B : Type ℓ} (bad : Bool) (e : E) (k : Call E B) {b : B}
    → (fail_if bad e >> k) ≡ ok b
    → (bad ≡ false) × (k ≡ ok b)
fail_if-ok true e k h = absurd (cc)
fail_if-ok false e k h = (refl, h)

pub ok-injective {ℓ} :
    {E : Type 0} {A : Type ℓ} {a b : A} → ◌≡◌ {A = Call E A} (ok a) (ok b) → a ≡ b
ok-injective h = cc
