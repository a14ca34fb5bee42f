-- ===== src/Bits/Fields.antt =====
-- Fields put side by side with `|`, complements, and the widths of results.
use inf2004_aai19_embedded_s.Common.{
  ℕ, zero, suc, ◌+◌, ◌-◌, ◌*◌, ◌/◌, ◌%◌, ◌^◌, ◌<◌, bit_and, bit_or, bit_xor, ◌≡◌, ap, ap₂, arith,
}
use native.Mathlib.Nat.{pow-suc}
use inf2004_aai19_embedded_s.Bits.Step.{bit_or_step}
use inf2004_aai19_embedded_s.Bits.Digits.{
  test_bit, test_bit-lt, test_bit-bit_and, test_bit-bit_or, test_bit-bit_xor, test_bit-zero,
  test_bit-mask, test_bit-mod, test_bit_ext, lt_of_bits, bits_of_lt,
}

-- `~x` on `uint32_t`.
abbrev pub not32 : ℕ → ℕ
not32 x = bit_xor x 0xFFFFFFFF

pub zero-bit_or : (a : ℕ) → bit_or 0 a ≡ a
zero-bit_or a =
    test_bit_ext (bit_or 0 a) a (λ i. omega (arith, test_bit-bit_or 0 a i, test_bit-zero i))

-- `r | (q << k)` is a sum when `r` has `k` digits.
pub bit_or_fields : (k r q : ℕ) → r < 2 ^ k → bit_or r (q * 2 ^ k) ≡ r + q * 2 ^ k
bit_or_fields zero r q h = ground (
  arith,
  zero-bit_or q,
  ap₂ bit_or {x = r} {y = 0} {u = q * 1} {v = q} (omega arith) (omega arith),
)
bit_or_fields (suc k) r q h = ground (
  arith,
  bit_or_step r (q * 2 ^ suc k),
  ap (λ (t : ℕ). q * t) (pow-suc 2 k),
  ap (bit_or (r / 2)) {x = q * 2 ^ suc k / 2} {y = q * 2 ^ k}
      (omega (arith, ap (λ (t : ℕ). q * t) (pow-suc 2 k))),
  pow-suc 2 k,
  bit_or_fields k (r / 2) q (omega (arith, pow-suc 2 k)),
)

pub bit_and-lt : (k a b : ℕ) → b < 2 ^ k → bit_and a b < 2 ^ k
bit_and-lt k a b h =
    lt_of_bits k (bit_and a b) (λ i p. omega (arith, test_bit-bit_and a b i, bits_of_lt k b i h p))

pub bit_or-lt : (k a b : ℕ) → a < 2 ^ k → b < 2 ^ k → bit_or a b < 2 ^ k
bit_or-lt k a b g h =
    lt_of_bits k (bit_or a b)
      (λ i p. omega (arith, test_bit-bit_or a b i, bits_of_lt k a i g p, bits_of_lt k b i h p))

pub bit_xor-lt : (k a b : ℕ) → a < 2 ^ k → b < 2 ^ k → bit_xor a b < 2 ^ k
bit_xor-lt k a b g h =
    lt_of_bits k (bit_xor a b)
      (λ i p. omega (arith, test_bit-bit_xor a b i, bits_of_lt k a i g p, bits_of_lt k b i h p))

-- The exclusive or with a fixed number can be undone.
pub bit_xor_cancel : (a b m : ℕ) → bit_xor a m ≡ bit_xor b m → a ≡ b
bit_xor_cancel a b m e = test_bit_ext a b (λ i. omega (
  arith,
  test_bit-bit_xor a m i,
  test_bit-bit_xor b m i,
  ap (λ n. test_bit n i) e,
  test_bit-lt a i,
  test_bit-lt b i,
  test_bit-lt m i,
))

pub bit_xor_comm : (a b : ℕ) → bit_xor a b ≡ bit_xor b a
bit_xor_comm a b =
    test_bit_ext (bit_xor a b) (bit_xor b a)
      (λ i. omega (arith, test_bit-bit_xor a b i, test_bit-bit_xor b a i))

pub test_bit-not32 : (a i : ℕ) → i < 32 → test_bit (not32 a) i ≡ 1 - test_bit a i
test_bit-not32 a i h =
    ground (arith, test_bit-bit_xor a 0xFFFFFFFF i, test_bit-mask 32 i, test_bit-lt a i)

-- A mask of the `k` lowest digits is a remainder.
pub bit_and_mask : (k a : ℕ) → bit_and a (2 ^ k - 1) ≡ a % 2 ^ k
bit_and_mask k a = test_bit_ext (bit_and a (2 ^ k - 1)) (a % 2 ^ k) (λ i. ground (
  arith,
  test_bit-bit_and a (2 ^ k - 1) i,
  test_bit-mask k i,
  test_bit-mod k a i,
  test_bit-lt a i,
))
