-- ===== src/Prelude/Loops.antt =====
-- Loops that end without an error: what each element has been through.
use rp.Prelude.Text.{IsIn, here, there}
use rp.Prelude.Call.{Call, ok, fail_if, or_fail, for_each, map_each, >>=-ok}
use mathlib.Core.Path.{◌≡◌, refl, ap, ◌∙◌}
use mathlib.Core.Logic.{◌⊎◌, inl, inr}
use mathlib.Core.Bool.{Bool, true, false}
use mathlib.Core.Option.{Option, none, some}
use mathlib.Core.List.{List, [], ◌∷◌}

pub or_fail-ok {ℓ} :
    {E : Type 0} {A : Type ℓ} (o : Option A) (e : E) {a : A} → or_fail o e ≡ ok a → o ≡ some a
or_fail-ok none e h = absurd (cc)
or_fail-ok (some b) e h = cc

pub for_each-ok {ℓ} :
    {E : Type 0} {A : Type ℓ} (body : A → Call E (Unit {0})) (a : A) {xs : List A}
    → for_each body xs ≡ ok tt
    → IsIn a xs
    → body a ≡ ok tt
unfolding for_each
for_each-ok body a h (here {x} {xs} e) =
    let (u, first, rest) = >>=-ok (body x) (λ v. for_each body xs) h in rw (← e) first
for_each-ok body a h (there {x} {xs = ys} i) =
    let (u, first, rest) = >>=-ok (body x) (λ v. for_each body ys) h in for_each-ok body a rest i

pub fail_if-fine : {E : Type 0} (bad : Bool) (e : E) → fail_if bad e ≡ ok tt → bad ≡ false
fail_if-fine true e h = absurd (cc)
fail_if-fine false e h = refl

-- A loop whose body only tests.
pub for_each-fail_if {ℓ} :
    {E : Type 0} {A : Type ℓ} (bad : A → Bool) (e : E) (a : A) {xs : List A}
    → for_each (λ x. fail_if (bad x) e) xs ≡ ok tt
    → IsIn a xs
    → bad a ≡ false
for_each-fail_if bad e a h i = fail_if-fine (bad a) e (for_each-ok (λ x. fail_if (bad x) e) a h i)

is_in-nil {ℓ} : {A : Type ℓ} (a : A) {xs : List A} → [] ≡ xs → ¬ IsIn a xs
is_in-nil a e i = let j : IsIn a [] = rw e i in elim j [ ]

is_in-cons {ℓ} :
    {A : Type ℓ} (a x : A) (xs : List A) {ys : List A}
    → x ∷ xs ≡ ys
    → IsIn a ys
    → (x ≡ a) ⊎ IsIn a xs
is_in-cons a x xs e i =
    let j : IsIn a (x ∷ xs) = rw e i in elim j [ here p ↦ inl p | there k ↦ inr k ]

module _ {ℓ κ} {E : Type 0} {A : Type ℓ} {B : Type κ} (body : A → Call E B) where
  -- The inversion of one round.
  pub map_each-step :
      (x : A) (xs : List A) (ys : List B)
      → map_each body (x ∷ xs) ≡ ok ys
      → (y : B) × (zs : List B) × (body x ≡ ok y) × (map_each body xs ≡ ok zs) × (y ∷ zs ≡ ys)
  unfolding map_each
  map_each-step x xs ys h =
      let (y, first, rest) = >>=-ok (body x) _ h in
      let (zs, others, same) = >>=-ok (map_each body xs) _ rest in (y, zs, first, others, cc)

  -- Each result comes from an element.
  pub map_each-IsIn :
      (b : B) (xs : List A) {ys : List B}
      → map_each body xs ≡ ok ys
      → IsIn b ys
      → (a : A) × IsIn a xs × (body a ≡ ok b)
  unfolding map_each
  map_each-IsIn b [] h i = absurd (is_in-nil b (cc) i)
  map_each-IsIn b (x ∷ xs) h i =
      let (y, zs, first, others, same) = map_each-step x xs _ h in
      elim (is_in-cons b y zs same i) [
        | inl e ↦ (x, here refl, first ∙ ap ok e)
        | inr j ↦ let (a, held, made) = map_each-IsIn b xs others j in (a, there held, made)
      ]
