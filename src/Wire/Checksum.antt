-- ===== src/Wire/Checksum.antt =====
-- What `transfer_crc32` detects: every change of one byte.
use inf2004_aai19_embedded_s.Common.{
  ℕ, zero, suc, ◌/◌, ◌%◌, ◌^◌, ◌<◌, bit_xor, ◌≡◌, ◌≢◌, refl, ap, ◌∙◌, sym, List, [], ◌∷◌, ◌++◌,
  ◌==◌, if◌then◌else◌, arith, All, inl, inr, Bool-cases,
}
use inf2004_aai19_embedded_s.Bits.{
  test_bit, test_bit-bit_xor, bits_of_lt, bit_xor-lt, bit_xor_cancel, bit_xor_comm, bit_and_mask,
}
use inf2004_aai19_embedded_s.Wire.{crc_bit, crc_rounds, crc_byte, crc_loop, crc32}

-- The polynomial enters exactly when the lowest digit is 1.
crc_bit_by_parity : (c : ℕ) → crc_bit c ≡ bit_xor (c / 2) (if c % 2 == 0 then 0 else 0xEDB88320)
unfolding crc_bit
crc_bit_by_parity c = rw (bit_and_mask 1 c) (elim (Bool-cases (c % 2 == 0)) [
  | inl e ↦ let even : c % 2 ≡ 0 = ground arith in rw even
  | inr e ↦ let odd : c % 2 ≡ 1 = ground arith in rw odd
])

pub crc_bit-lt : (c : ℕ) → c < 2 ^ 32 → crc_bit c < 2 ^ 32
crc_bit-lt c h =
    rw (crc_bit_by_parity c)
      (bit_xor-lt 32 (c / 2) (if c % 2 == 0 then 0 else 0xEDB88320) (omega arith) (ground arith))

-- The digit that a round drops is the highest digit of its result.
crc_bit_top : (c : ℕ) → c < 2 ^ 32 → test_bit (crc_bit c) 31 ≡ c % 2
crc_bit_top c h = ground (
  arith,
  crc_bit_by_parity c,
  test_bit-bit_xor (c / 2) (if c % 2 == 0 then 0 else 0xEDB88320) 31,
  bits_of_lt 32 c 32 h,
)

crc_bit-injective : (c d : ℕ) → c < 2 ^ 32 → d < 2 ^ 32 → crc_bit c ≡ crc_bit d → c ≡ d
crc_bit-injective c d hc hd e = omega (arith, low, halves)
  where
    low : c % 2 ≡ d % 2
    low = sym (crc_bit_top c hc) ∙ ap (λ n. test_bit n 31) e ∙ crc_bit_top d hd

    halves : c / 2 ≡ d / 2
    halves = bit_xor_cancel (c / 2) (d / 2) (if c % 2 == 0 then 0 else 0xEDB88320) (
        sym (crc_bit_by_parity c)
        ∙ e
        ∙ crc_bit_by_parity d
        ∙ ap (λ n. bit_xor (d / 2) (if n == 0 then 0 else 0xEDB88320)) (sym low))

crc_rounds-lt : (n c : ℕ) → c < 2 ^ 32 → crc_rounds n c < 2 ^ 32
unfolding crc_rounds
crc_rounds-lt zero c h = h
crc_rounds-lt (suc n) c h = crc_rounds-lt n (crc_bit c) (crc_bit-lt c h)

crc_rounds-injective :
    (n c d : ℕ) → c < 2 ^ 32 → d < 2 ^ 32 → crc_rounds n c ≡ crc_rounds n d → c ≡ d
unfolding crc_rounds
crc_rounds-injective zero c d hc hd e = e
crc_rounds-injective (suc n) c d hc hd e =
    crc_bit-injective c d hc hd
      (crc_rounds-injective n (crc_bit c) (crc_bit d) (crc_bit-lt c hc) (crc_bit-lt d hd) e)

abbrev pub IsByte : ℕ → Type 0
IsByte b = b < 256

pub crc_byte-lt : (c d : ℕ) → c < 2 ^ 32 → IsByte d → crc_byte c d < 2 ^ 32
unfolding crc_byte
crc_byte-lt c d hc hd = crc_rounds-lt 8 (bit_xor c d) (bit_xor-lt 32 c d hc (omega arith))

crc_byte-injective :
    (c c' d : ℕ) → c < 2 ^ 32 → c' < 2 ^ 32 → IsByte d → crc_byte c d ≡ crc_byte c' d → c ≡ c'
unfolding crc_byte
crc_byte-injective c c' d hc hc' hd e = bit_xor_cancel c c' d (
    crc_rounds-injective 8 (bit_xor c d) (bit_xor c' d) (bit_xor-lt 32 c d hc (omega arith))
      (bit_xor-lt 32 c' d hc' (omega arith)) e)

-- For one register, different bytes lead to different registers.
crc_byte-injective_byte :
    (c a b : ℕ) → c < 2 ^ 32 → IsByte a → IsByte b → crc_byte c a ≡ crc_byte c b → a ≡ b
unfolding crc_byte
crc_byte-injective_byte c a b hc ha hb e = bit_xor_cancel a b c (
    bit_xor_comm a c
    ∙ crc_rounds-injective 8 (bit_xor c a) (bit_xor c b) (bit_xor-lt 32 c a hc (omega arith))
        (bit_xor-lt 32 c b hc (omega arith)) e
    ∙ bit_xor_comm c b)

pub crc_loop-lt : (c : ℕ) (ds : List ℕ) → c < 2 ^ 32 → All IsByte ds → crc_loop c ds < 2 ^ 32
unfolding crc_loop
crc_loop-lt c [] hc hs = hc
crc_loop-lt c (d ∷ ds) hc hs = crc_loop-lt (crc_byte c d) ds (crc_byte-lt c d hc hs.0) hs.1

crc_loop-injective :
    (c c' : ℕ) (ds : List ℕ)
    → c < 2 ^ 32
    → c' < 2 ^ 32
    → All IsByte ds
    → crc_loop c ds ≡ crc_loop c' ds
    → c ≡ c'
unfolding crc_loop
crc_loop-injective c c' [] hc hc' hs e = e
crc_loop-injective c c' (d ∷ ds) hc hc' hs e = crc_byte-injective c c' d hc hc' hs.0 (
    crc_loop-injective (crc_byte c d) (crc_byte c' d) ds (crc_byte-lt c d hc hs.0)
      (crc_byte-lt c' d hc' hs.0) hs.1 e)

-- The register after a message is the register after its parts, in turn.
pub crc_loop-append : (c : ℕ) (xs ys : List ℕ) → crc_loop c (xs ++ ys) ≡ crc_loop (crc_loop c xs) ys
unfolding crc_loop
crc_loop-append c [] ys = refl
crc_loop-append c (x ∷ xs) ys = crc_loop-append (crc_byte c x) xs ys

-- The checksum of bytes fits 32 bits.
pub crc32-lt : (ds : List ℕ) → All IsByte ds → crc32 ds < 2 ^ 32
unfolding crc32
crc32-lt ds hs =
    bit_xor-lt 32 (crc_loop 0xFFFFFFFF ds) 0xFFFFFFFF (crc_loop-lt 0xFFFFFFFF ds (omega arith) hs)
      (omega arith)

-- Two messages of bytes that differ in exactly one byte have different checksums.
pub crc32_detects_byte :
    (xs ys : List ℕ) (a b : ℕ)
    → All IsByte xs
    → All IsByte ys
    → IsByte a
    → IsByte b
    → a ≢ b
    → crc32 (xs ++ a ∷ ys) ≢ crc32 (xs ++ b ∷ ys)
unfolding crc32
crc32_detects_byte xs ys a b hx hy ha hb ne e = ne (
    crc_byte-injective_byte r a b hr ha hb (
      crc_loop-injective (crc_byte r a) (crc_byte r b) ys (crc_byte-lt r a hr ha)
        (crc_byte-lt r b hr hb) hy same))
  where
    r : ℕ
    r = crc_loop 0xFFFFFFFF xs

    hr : r < 2 ^ 32
    hr = crc_loop-lt 0xFFFFFFFF xs (omega arith) hx

    same : crc_loop (crc_byte r a) ys ≡ crc_loop (crc_byte r b) ys
    same =
        sym (crc_loop-append 0xFFFFFFFF xs (a ∷ ys))
        ∙ bit_xor_cancel (crc_loop 0xFFFFFFFF (xs ++ a ∷ ys)) (crc_loop 0xFFFFFFFF (xs ++ b ∷ ys))
            0xFFFFFFFF e
        ∙ crc_loop-append 0xFFFFFFFF xs (b ∷ ys)
