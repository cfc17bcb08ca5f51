-- ===== src/Prelude/Text.antt =====
-- Equality tests: an instance for each type of keys, and membership in a list (slices.Contains).
use Prim.Native.Nat.{ℕ}
use Prim.Native.String.{String}
use text.Mathlib.Text.{◌==◌ as str_eq}
use text.Mathlib.TextEquality.{eq_iff}
use mathlib.Core.Path.{◌≡◌, refl}
use mathlib.Core.Logic.{◌↔◌, ◌≢◌, inl, inr}
use mathlib.Core.Bool.{Bool, true, false, ◌||◌}
use mathlib.Core.List.{List, [], ◌∷◌}
use native.Mathlib.Omega.{arith}
use rp.Prelude.Tests.{◌==◌ as nat_beq, ==_iff as nat_beq_iff, Bool-cases}

pub record Eq {ℓ} (A : Type ℓ) : Type ℓ where
  pub beq : A → A → Bool
  pub beq_iff : (a b : A) → (beq a b ≡ true) ↔ (a ≡ b)

infix 50 ◌=?◌
abbrev pub ◌=?◌ {ℓ} : {A : Type ℓ} ⦃e : Eq A⦄ → A → A → Bool
◌=?◌ ⦃e⦄ = e.beq

instance abbrev pub nat_eq : Eq ℕ
nat_eq = record { beq = nat_beq; beq_iff = nat_beq_iff }

instance abbrev pub string_eq : Eq String
string_eq = record { beq = str_eq; beq_iff = eq_iff }

module _ {ℓ} {A : Type ℓ} ⦃e : Eq A⦄ where
  pub beq_refl : (a : A) → e.beq a a ≡ true
  beq_refl a = (e.beq_iff a a).1 refl

  pub beq_ne : (a b : A) → a ≢ b → e.beq a b ≡ false
  beq_ne a b h = elim (Bool-cases (e.beq a b)) [
    | inl p ↦ absurd (h ((e.beq_iff a b).0 p))
    | inr p ↦ p
  ]

  unfoldable pub contains : List A → A → Bool
  contains [] a = false
  contains (x ∷ xs) a = x =? a || contains xs a

-- The element stands in the list.
pub data IsIn {ℓ} {A : Type ℓ} (a : A) : List A → Type ℓ where
  here : {x : A} {xs : List A} → x ≡ a → IsIn a (x ∷ xs)
  there : {x : A} {xs : List A} → IsIn a xs → IsIn a (x ∷ xs)

module _ {ℓ} {A : Type ℓ} ⦃e : Eq A⦄ where
  pub IsIn-contains : (xs : List A) (a : A) → contains xs a ≡ true → IsIn a xs
  unfolding contains
  IsIn-contains [] a h = absurd (ground arith)
  IsIn-contains (x ∷ xs) a h = elim (Bool-cases (e.beq x a)) [
    | inl p ↦ here ((e.beq_iff x a).0 p)
    | inr p ↦ there (IsIn-contains xs a (ground arith))
  ]

  pub contains-IsIn : (a : A) {xs : List A} → IsIn a xs → contains xs a ≡ true
  unfolding contains
  contains-IsIn a (here {x} p) = ground (arith, (e.beq_iff x a).1 p)
  contains-IsIn a (there {xs = ys} i) = ground (arith, contains-IsIn a i)
