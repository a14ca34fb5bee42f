-- ===== src/Bits/Digits.antt =====
-- The digit of a number at a place, and the digits of what the operations of C return.
use native.Mathlib.Nat.{
  div-div-eq-div-mul, pow-suc, pow-succ', one-le-pow, add-mul-mod_self_right, mod-eq_of_lt, mod-lt,
  div-add-mod',
}
use inf2004_aai19_embedded_s.Common.{
  ℕ, zero, suc, ◌+◌, ◌-◌, ◌*◌, ◌/◌, ◌%◌, ◌^◌, ◌≤◌, ◌<◌, min, max, bit_and, bit_or, bit_xor, ◌≡◌,
  refl, ap, ◌∙◌, sym, ltb, if◌then◌else◌, arith,
}
use inf2004_aai19_embedded_s.Bits.Step.{bit_and_step, bit_or_step, bit_xor_step}

-- The digit of weight `2 ^ i`.
abbrev pub test_bit : ℕ → ℕ → ℕ
test_bit a zero = a % 2
test_bit a (suc i) = test_bit (a / 2) i

pub test_bit-lt : (a i : ℕ) → test_bit a i < 2
test_bit-lt a zero = omega arith
test_bit-lt a (suc i) = test_bit-lt (a / 2) i

pub test_bit-bit_and : (a b i : ℕ) → test_bit (bit_and a b) i ≡ min (test_bit a i) (test_bit b i)
test_bit-bit_and a b zero = omega (arith, bit_and_step a b)
test_bit-bit_and a b (suc i) = ap (λ n. test_bit n i) half ∙ test_bit-bit_and (a / 2) (b / 2) i
  where
    half : bit_and a b / 2 ≡ bit_and (a / 2) (b / 2)
    half = omega (arith, bit_and_step a b)

pub test_bit-bit_or : (a b i : ℕ) → test_bit (bit_or a b) i ≡ max (test_bit a i) (test_bit b i)
test_bit-bit_or a b zero = omega (arith, bit_or_step a b)
test_bit-bit_or a b (suc i) = ap (λ n. test_bit n i) half ∙ test_bit-bit_or (a / 2) (b / 2) i
  where
    half : bit_or a b / 2 ≡ bit_or (a / 2) (b / 2)
    half = omega (arith, bit_or_step a b)

pub test_bit-bit_xor : (a b i : ℕ) → test_bit (bit_xor a b) i ≡ (test_bit a i + test_bit b i) % 2
test_bit-bit_xor a b zero = omega (arith, bit_xor_step a b)
test_bit-bit_xor a b (suc i) = ap (λ n. test_bit n i) half ∙ test_bit-bit_xor (a / 2) (b / 2) i
  where
    half : bit_xor a b / 2 ≡ bit_xor (a / 2) (b / 2)
    half = omega (arith, bit_xor_step a b)

pub test_bit-zero : (i : ℕ) → test_bit 0 i ≡ 0
test_bit-zero zero = refl
test_bit-zero (suc i) = test_bit-zero i

-- A shift to the right.
pub test_bit-shr : (s a i : ℕ) → test_bit (a / 2 ^ s) i ≡ test_bit a (s + i)
test_bit-shr zero a i =
    ap (λ n. test_bit n i) {x = a / 2 ^ 0} {y = a} (omega arith)
    ∙ ap (test_bit a) {x = i} {y = 0 + i} (omega arith)
test_bit-shr (suc s) a i =
    ap (λ n. test_bit n i) halve
    ∙ test_bit-shr s (a / 2) i
    ∙ ap (test_bit a) {x = suc (s + i)} {y = suc s + i} (omega arith)
  where
    halve : a / 2 ^ suc s ≡ a / 2 / 2 ^ s
    halve = ap (λ t. a / t) (pow-succ' 2 s) ∙ sym (div-div-eq-div-mul a 2 (2 ^ s))

twice-shl : (a s : ℕ) → a * 2 ^ suc s ≡ a * 2 ^ s * 2
twice-shl a s = omega (arith, ap (λ (t : ℕ). a * t) (pow-suc 2 s))

-- A shift to the left.
pub test_bit-shl :
    (s a i : ℕ) → test_bit (a * 2 ^ s) i ≡ (if ltb i s then 0 else test_bit a (i - s))
test_bit-shl zero a i = ground (
  arith,
  ap (λ n. test_bit n i) {x = a * 1} {y = a} (omega arith),
  ap (test_bit a) {x = i} {y = i - 0} (omega arith),
)
test_bit-shl (suc s) a zero = ground (arith, twice-shl a s)
test_bit-shl (suc s) a (suc i) = ap (λ n. test_bit n i) halve ∙ test_bit-shl s a i ∙ ground arith
  where
    halve : a * 2 ^ suc s / 2 ≡ a * 2 ^ s
    halve = omega (arith, twice-shl a s)

split_mod : (a k : ℕ) → a % 2 ^ suc k ≡ a / 2 % 2 ^ k * 2 + a % 2
split_mod a k =
    ap (λ n. n % 2 ^ suc k) whole
    ∙ add-mul-mod_self_right low (a / 2 / 2 ^ k) (2 ^ suc k)
    ∙ mod-eq_of_lt small
  where
    low : ℕ
    low = a / 2 % 2 ^ k * 2 + a % 2

    whole : a ≡ low + a / 2 / 2 ^ k * 2 ^ suc k
    whole = omega (arith, div-add-mod' (a / 2) (2 ^ k), twice-shl (a / 2 / 2 ^ k) k)

    small : low < 2 ^ suc k
    small = omega (arith, mod-lt (a / 2) {m = 2 ^ k} (one-le-pow k 2 (omega arith)), pow-suc 2 k)

-- A remainder by a power of two.
pub test_bit-mod : (k a i : ℕ) → test_bit (a % 2 ^ k) i ≡ (if ltb i k then test_bit a i else 0)
test_bit-mod zero a i =
    ap (λ n. test_bit n i) {x = a % 1} {y = 0} (omega arith) ∙ test_bit-zero i ∙ ground arith
test_bit-mod (suc k) a zero = ground (arith, split_mod a k)
test_bit-mod (suc k) a (suc i) =
    ap (λ n. test_bit n i) halve ∙ test_bit-mod k (a / 2) i ∙ ground arith
  where
    halve : a % 2 ^ suc k / 2 ≡ a / 2 % 2 ^ k
    halve = omega (arith, split_mod a k)

ext_below : (n a b : ℕ) → a ≤ n → b ≤ n → ((i : ℕ) → test_bit a i ≡ test_bit b i) → a ≡ b
ext_below zero a b p q h = omega arith
ext_below (suc n) a b p q h =
    omega (arith, h 0, ext_below n (a / 2) (b / 2) (omega arith) (omega arith) (λ i. h (suc i)))

-- Numbers with the same digits are equal.
pub test_bit_ext : (a b : ℕ) → ((i : ℕ) → test_bit a i ≡ test_bit b i) → a ≡ b
test_bit_ext a b h = ext_below (a + b) a b (omega arith) (omega arith) h

-- A number with no digit from place `k` on is below `2 ^ k`.
pub lt_of_bits : (k a : ℕ) → ((i : ℕ) → k ≤ i → test_bit a i ≡ 0) → a < 2 ^ k
lt_of_bits zero a h =
    omega (arith, test_bit_ext a 0 (λ i. h i (omega arith) ∙ sym (test_bit-zero i)))
lt_of_bits (suc k) a h =
    omega (arith, pow-suc 2 k, lt_of_bits k (a / 2) (λ i p. h (suc i) (omega arith)))

pub bits_of_lt : (k a i : ℕ) → a < 2 ^ k → k ≤ i → test_bit a i ≡ 0
bits_of_lt zero a i h p = ap (λ n. test_bit n i) {x = a} {y = 0} (omega arith) ∙ test_bit-zero i
bits_of_lt (suc k) a zero h p = absurd (omega arith)
bits_of_lt (suc k) a (suc i) h p = bits_of_lt k (a / 2) i (omega (arith, pow-suc 2 k)) (omega arith)

-- The mask of the `k` lowest digits.
pub test_bit-mask : (k i : ℕ) → test_bit (2 ^ k - 1) i ≡ (if ltb i k then 1 else 0)
test_bit-mask zero i = test_bit-zero i ∙ ground arith
test_bit-mask (suc k) zero = ground (arith, pow-suc 2 k, one-le-pow k 2)
test_bit-mask (suc k) (suc i) = ap (λ n. test_bit n i) halve ∙ test_bit-mask k i ∙ ground arith
  where
    halve : (2 ^ suc k - 1) / 2 ≡ 2 ^ k - 1
    halve = omega (arith, pow-suc 2 k, one-le-pow k 2)
