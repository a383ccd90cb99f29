-- ===== src/Common/Tests.antt =====
-- Boolean tests on the native numbers, the conditional, and case splits that keep an equation.
use Prim.Native.Nat.{ℕ, compare, Ordering}
use mathlib.Core.Path.{◌≡◌, refl, sym}
use mathlib.Core.Logic.{◌↔◌, ◌⊎◌, inl, inr}
use mathlib.Core.Bool.{Bool, true, false, ◌&&◌, ◌||◌}
use mathlib.Core.Option.{Option, none, some}
use native.Mathlib.Omega.{arith}

abbrev pub ltb : ℕ → ℕ → Bool
ltb a b = elim (compare a b) [ Ordering.lt ↦ true | _ ↦ false ]

abbrev pub leb : ℕ → ℕ → Bool
leb a b = elim (compare a b) [ Ordering.gt ↦ false | _ ↦ true ]

infix 50 ◌==◌
abbrev pub ◌==◌ : ℕ → ℕ → Bool
a == b = elim (compare a b) [ Ordering.eq ↦ true | _ ↦ false ]

infix 1 if◌then◌else◌
abbrev pub if◌then◌else◌ {ℓ} : {A : Type ℓ} → Bool → A → A → A
if true then x else y = x
if false then x else y = y

pub ==_iff : (a b : ℕ) → ((a == b) ≡ true) ↔ (a ≡ b)
==_iff a b = ground arith

pub Bool-cases : (b : Bool) → (b ≡ true) ⊎ (b ≡ false)
Bool-cases true = inl refl
Bool-cases false = inr refl

pub Option-cases {ℓ} : {A : Type ℓ} (o : Option A) → (o ≡ none) ⊎ ((a : A) × (o ≡ some a))
Option-cases none = inl refl
Option-cases (some a) = inr (a, refl)

-- A test whose both results have the property
pub both {ℓ κ} :
    {A : Type ℓ} (P : A → Type κ) (b : Bool) (x y : A) → P x → P y → P (if b then x else y)
both P true x y hx hy = hx
both P false x y hx hy = hy

-- Two tests of equations that follow from one another
pub same_test : (x y z w : ℕ) → ((x ≡ y) → z ≡ w) → ((z ≡ w) → x ≡ y) → (x == y) ≡ (z == w)
same_test x y z w f g = elim (Bool-cases (x == y)) [
  | inl e ↦ rw e (sym ((==_iff z w).1 (f ((==_iff x y).0 e))))
  | inr e ↦ elim (Bool-cases (z == w)) [
    | inl k ↦ absurd (ground (arith, (==_iff x y).1 (g ((==_iff z w).0 k)), e))
    | inr k ↦ rw (e, k) refl
  ]
]

pub and_false : (b : Bool) → b && false ≡ false
and_false true = refl
and_false false = refl

pub or_false : (b : Bool) → b || false ≡ b
or_false true = refl
or_false false = refl
