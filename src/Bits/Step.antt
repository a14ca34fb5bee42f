-- ===== src/Bits/Step.antt =====
-- The native `bit_and`, `bit_or` and `bit_xor` stand for a recursion whose fuel is the first number.
-- Here each has an equation on the lowest digit, by one law for all three.
use Prim.Native.Nat.{digits, differ, bit_and-bitwise, bit_or-bitwise, bit_xor-bitwise}
use inf2004_aai19_embedded_s.Common.{
  ℕ, zero, suc, ◌+◌, ◌*◌, ◌/◌, ◌%◌, ◌-◌, ◌≤◌, ◌<◌, min, max, bit_and, bit_or, bit_xor, ◌≡◌, refl,
  ap, ◌∙◌, arith,
}

-- `operation` is the recursion with `base` at the end of the first number.
module _ (operation : ℕ → ℕ → ℕ) (base : ℕ → ℕ) (digit : ℕ → ℕ → ℕ)
    (meaning : (x y : ℕ) → operation x y ≡ digits base digit x x y)
    (base_step : (y : ℕ) → base y ≡ base (y / 2) * 2 + digit 0 (y % 2)) where
  one_more :
      (fuel x y : ℕ) → x ≤ fuel → digits base digit (suc fuel) x y ≡ digits base digit fuel x y
  one_more zero zero y h = refl
  one_more (suc fuel) zero y h = refl
  one_more zero (suc x) y h = absurd (omega arith)
  one_more (suc fuel) (suc x) y h = omega (arith, one_more fuel (suc x / 2) (y / 2) (omega arith))

  slack :
      (k fuel more x y : ℕ)
      → more ≡ k + fuel
      → x ≤ fuel
      → digits base digit more x y ≡ digits base digit fuel x y
  slack zero fuel more x y e h = ap (λ f. digits base digit f x y) (omega arith)
  slack (suc k) fuel more x y e h =
      let one : more ≡ suc (k + fuel) = omega arith in
      ap (λ f. digits base digit f x y) one
      ∙ one_more (k + fuel) x y (omega arith)
      ∙ slack k fuel (k + fuel) x y refl h

  lowest : (x y : ℕ) → operation x y ≡ operation (x / 2) (y / 2) * 2 + digit (x % 2) (y % 2)
  lowest zero y = omega (arith, meaning 0 y, meaning 0 (y / 2), base_step y)
  lowest (suc x) y =
      let half = suc x / 2 in
      let more = slack (x - half) half x half (y / 2) (omega arith) (omega arith) in
      omega (arith, meaning (suc x) y, meaning half (y / 2), more)

differ-digits : (x y : ℕ) → x < 2 → y < 2 → differ x y ≡ (x + y) % 2
differ-digits zero y p q = omega arith
differ-digits (suc zero) zero p q = refl
differ-digits (suc zero) (suc zero) p q = refl
differ-digits (suc zero) (suc (suc y)) p q = absurd (omega arith)
differ-digits (suc (suc x)) y p q = absurd (omega arith)

pub bit_xor_step : (a b : ℕ) → bit_xor a b ≡ bit_xor (a / 2) (b / 2) * 2 + (a % 2 + b % 2) % 2
bit_xor_step a b = omega (
  arith,
  lowest bit_xor (λ y. y) differ bit_xor-bitwise (λ y. omega arith) a b,
  differ-digits (a % 2) (b % 2),
)

pub bit_and_step : (a b : ℕ) → bit_and a b ≡ bit_and (a / 2) (b / 2) * 2 + min (a % 2) (b % 2)
bit_and_step = lowest bit_and (λ y. 0) min bit_and-bitwise (λ y. omega arith)

pub bit_or_step : (a b : ℕ) → bit_or a b ≡ bit_or (a / 2) (b / 2) * 2 + max (a % 2) (b % 2)
bit_or_step = lowest bit_or (λ y. y) max bit_or-bitwise (λ y. omega arith)
