-- ===== src/Common/Bits.antt =====
-- The bit operations of C on numbers, one binary digit at a time, and masks with leading ones.
use Prim.Native.Nat.{
  ℕ, zero, suc, ◌+◌, ◌-◌, ◌*◌, ◌/◌, ◌%◌, ◌^◌, ◌≤◌, ◌<◌, min, digits, bit_and, bit_xor,
  bit_and-bitwise, bit_xor-bitwise, differ,
}
use mathlib.Core.Path.{◌≡◌, refl, ap, ◌∙◌, sym}
use mathlib.Core.Logic.{◌↔◌}
use native.Mathlib.Omega.{arith}
use native.Mathlib.Nat.{div-div-eq-div-mul}

-- The fuel of the digit recursion does not matter, once it is enough.
digits_fuel :
    (z : ℕ → ℕ) (f : ℕ → ℕ → ℕ) (n m a b : ℕ) → a ≤ n → a ≤ m → digits z f n a b ≡ digits z f m a b
digits_fuel z f zero zero a b p q = refl
digits_fuel z f zero (suc m) zero b p q = refl
digits_fuel z f zero (suc m) (suc a) b p q = absurd (omega arith)
digits_fuel z f (suc n) zero zero b p q = refl
digits_fuel z f (suc n) zero (suc a) b p q = absurd (omega arith)
digits_fuel z f (suc n) (suc m) zero b p q = refl
digits_fuel z f (suc n) (suc m) (suc a) b p q =
    omega (arith, digits_fuel z f n m (suc a / 2) (b / 2) (omega arith) (omega arith))

pub bit_and_step : (a b : ℕ) → bit_and a b ≡ bit_and (a / 2) (b / 2) * 2 + min (a % 2) (b % 2)
bit_and_step zero b = omega (arith, bit_and-bitwise 0 b, bit_and-bitwise 0 (b / 2))
bit_and_step (suc a) b = omega (
  arith,
  bit_and-bitwise (suc a) b,
  bit_and-bitwise (suc a / 2) (b / 2),
  digits_fuel (λ y. 0) min a (suc a / 2) (suc a / 2) (b / 2) (omega arith) (omega arith),
)

pub bit_xor_step : (a b : ℕ) → bit_xor a b ≡ bit_xor (a / 2) (b / 2) * 2 + differ (a % 2) (b % 2)
bit_xor_step zero b = omega (arith, bit_xor-bitwise 0 b, bit_xor-bitwise 0 (b / 2))
bit_xor_step (suc a) b = omega (
  arith,
  bit_xor-bitwise (suc a) b,
  bit_xor-bitwise (suc a / 2) (b / 2),
  digits_fuel (λ y. y) differ a (suc a / 2) (suc a / 2) (b / 2) (omega arith) (omega arith),
)

differ_lem : (d e : ℕ) → d < 2 → e < 2 → (differ d e < 2) × ((differ d e ≡ 0) ↔ (d ≡ e))
differ_lem zero zero p q = ground arith
differ_lem zero (suc zero) p q = ground arith
differ_lem (suc zero) zero p q = ground arith
differ_lem (suc zero) (suc zero) p q = ground arith
differ_lem zero (suc (suc e)) p q = absurd (omega arith)
differ_lem (suc zero) (suc (suc e)) p q = absurd (omega arith)
differ_lem (suc (suc d)) e p q = absurd (omega arith)

bit_xor_halves :
    (a b : ℕ)
    → (bit_xor a b / 2 ≡ bit_xor (a / 2) (b / 2)) × (bit_xor a b % 2 ≡ differ (a % 2) (b % 2))
bit_xor_halves a b =
    let (small, _) = differ_lem (a % 2) (b % 2) (omega arith) (omega arith) in
    (omega (arith, bit_xor_step a b), omega (arith, bit_xor_step a b))

-- The mask of w bits whose lowest s are 0
abbrev pub high_mask : ℕ → ℕ → ℕ
high_mask w s = 2 ^ w - 2 ^ s

halves : (a s : ℕ) → a / 2 ^ suc s ≡ a / 2 / 2 ^ s
halves a s = ap (λ (n : ℕ). a / n) (omega arith) ∙ sym (div-div-eq-div-mul a 2 (2 ^ s))

-- One digit of the comparison under a mask
masked_step :
    (a b m m' d : ℕ)
    → m / 2 ≡ m'
    → m % 2 ≡ d
    → bit_and (bit_xor a b) m
      ≡ bit_and (bit_xor (a / 2) (b / 2)) m' * 2 + min (differ (a % 2) (b % 2)) d
masked_step a b m m' d h k =
    let (half, low) = bit_xor_halves a b in bit_and_step (bit_xor a b) m ∙ rw (half, low, h, k) refl

power_pos : (w : ℕ) → 0 < 2 ^ w
power_pos zero = omega arith
power_pos (suc w) = omega (arith, power_pos w)

ones_half : (w : ℕ) → (high_mask (suc w) 0 / 2 ≡ high_mask w 0) × (high_mask (suc w) 0 % 2 ≡ 1)
ones_half w = (omega (arith, power_pos w), omega (arith, power_pos w))

mask_half :
    (w s : ℕ)
    → (high_mask (suc w) (suc s) / 2 ≡ high_mask w s) × (high_mask (suc w) (suc s) % 2 ≡ 0)
mask_half w s = (omega arith, omega arith)

ones_iff :
    (w a b : ℕ) → a < 2 ^ w → b < 2 ^ w → (bit_and (bit_xor a b) (high_mask w 0) ≡ 0) ↔ (a ≡ b)
ones_iff zero a b p q = (λ _. omega arith, λ e. rw (zero_of a p, zero_of b q) refl)
  where
    zero_of : (n : ℕ) → n < 1 → n ≡ 0
    zero_of n h = omega arith
ones_iff (suc w) a b p q =
    let (half, odd) = ones_half w in
    let step = masked_step a b (high_mask (suc w) 0) (high_mask w 0) 1 half odd in
    let (small, same) = differ_lem (a % 2) (b % 2) (omega arith) (omega arith) in
    let (to, from) = ones_iff w (a / 2) (b / 2) (omega arith) (omega arith) in
    (
      λ e. omega (arith, to (omega (arith, step, e)), same.0 (omega (arith, step, e))),
      λ e. omega (arith, step, from (omega arith), same.1 (omega arith)),
    )

-- Two numbers of w bits agree under the mask if they are equal but for their lowest s bits.
pub high_mask_iff :
    (w s a b : ℕ)
    → s ≤ w
    → a < 2 ^ w
    → b < 2 ^ w
    → (bit_and (bit_xor a b) (high_mask w s) ≡ 0) ↔ (a / 2 ^ s ≡ b / 2 ^ s)
high_mask_iff w zero a b h p q =
    let (to, from) = ones_iff w a b p q in (λ e. omega (arith, to e), λ e. from (omega arith))
high_mask_iff zero (suc s) a b h p q = absurd (omega arith)
high_mask_iff (suc w) (suc s) a b h p q =
    let (half, even) = mask_half w s in
    let step = masked_step a b (high_mask (suc w) (suc s)) (high_mask w s) 0 half even in
    let (to, from) = high_mask_iff w s (a / 2) (b / 2) (omega arith) (omega arith) (omega arith) in
    (
      λ e. halves a s ∙ to (omega (arith, step, e)) ∙ sym (halves b s),
      λ e. omega (arith, step, from (sym (halves a s) ∙ e ∙ halves b s)),
    )
