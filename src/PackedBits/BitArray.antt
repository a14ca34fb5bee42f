-- ===== src/PackedBits/BitArray.antt =====
-- Fields packed back to back: a field reads back what was put, and no other field changes.
use inf2004_aai19_embedded_s.Common.{
  ℕ, zero, suc, ◌+◌, ◌-◌, ◌*◌, ◌/◌, ◌%◌, ◌^◌, ◌≤◌, ◌<◌, max, bit_and, bit_or, ◌≡◌, refl, ap, ◌∙◌,
  ◌⊎◌, ◌≢◌, ltb, ◌==◌, u8, ◌<<<◌, ◌>>>◌, if◌then◌else◌, arith, List, length, get_or, length-set,
  get_or-set, inl, inr,
}
use native.Mathlib.Decide.{dec_lt}
use native.Mathlib.Nat.{mul-le-mul_right}
use inf2004_aai19_embedded_s.Bits.{
  test_bit, test_bit-lt, test_bit-bit_and, test_bit-bit_or, test_bit-shl, test_bit-shr,
  test_bit-mod, test_bit-not32, test_bit_ext, bits_of_lt, bit_and_mask, test_bit-zero, not32,
}
use inf2004_aai19_embedded_s.PackedBits.{get_bits, bitarray_get, put_bit, put_bits, bitarray_put}

-- The digit of a byte array at a position.
abbrev pub array_bit : List ℕ → ℕ → ℕ
array_bit buffer p = test_bit (get_or buffer (p / 8) 0) (p % 8)

-- A number below 2 has one digit.
lone_digit : (d j : ℕ) → d < 2 → test_bit d j ≡ (if j == 0 then d else 0)
lone_digit d zero h = ground arith
lone_digit d (suc j) h = bits_of_lt 1 d (suc j) h (omega arith) ∙ ground arith

shifted_digit : (d k i : ℕ) → d < 2 → test_bit (d <<< k) i ≡ (if i == k then d else 0)
shifted_digit d k i h = ground (arith, test_bit-shl k d i, lone_digit d (i - k) h)

-- The digit that one round of `bitarray_get` reads.
read_digit :
    (buffer : List ℕ) (p : ℕ)
    → bit_and (get_or buffer (p >>> 3) 0 >>> bit_and p 7) 1 ≡ array_bit buffer p
read_digit buffer p = rw (bit_and_mask 3 p) (
    bit_and_mask 1 (get_or buffer (p / 8) 0 / 2 ^ (p % 8))
    ∙ test_bit-shr (p % 8) (get_or buffer (p / 8) 0) 0
    ∙ ap (test_bit (get_or buffer (p / 8) 0)) {x = p % 8 + 0} {y = p % 8} (omega arith))

-- The digits that `left` rounds of `bitarray_get` gather into `v`.
abbrev gathered : List ℕ → ℕ → ℕ → ℕ → ℕ → ℕ → ℕ
gathered buffer left bit p v i =
    if ltb i bit
    then test_bit v i
    else if ltb i (bit + left)
    then max (test_bit v i) (array_bit buffer (p + (i - bit)))
    else test_bit v i

gathered-suc :
    (buffer : List ℕ) (left bit p v i : ℕ)
    → gathered buffer left (bit + 1) (p + 1) (bit_or v (array_bit buffer p <<< bit)) i
      ≡ gathered buffer (suc left) bit p v i
gathered-suc buffer left bit p v i = ground (
  arith,
  test_bit-bit_or v (array_bit buffer p <<< bit) i,
  shifted_digit (array_bit buffer p) bit i (test_bit-lt (get_or buffer (p / 8) 0) (p % 8)),
  λ (h : bit < i).
      ap (array_bit buffer) {x = p + 1 + (i - (bit + 1))} {y = p + (i - bit)} (omega arith),
  λ (h : i ≡ bit). ap (array_bit buffer) {x = p} {y = p + (i - bit)} (omega arith),
)

get_bits_digit :
    (buffer : List ℕ) (left bit p v i : ℕ)
    → test_bit (get_bits buffer left bit p v) i ≡ gathered buffer left bit p v i
unfolding get_bits
get_bits_digit buffer zero bit p v i = ground arith
get_bits_digit buffer (suc left) bit p v i = rw (read_digit buffer p) (
    get_bits_digit buffer left (bit + 1) (p + 1) (bit_or v (array_bit buffer p <<< bit)) i
    ∙ gathered-suc buffer left bit p v i)

pub bitarray_get_digit :
    (buffer : List ℕ) (index width i : ℕ)
    → test_bit (bitarray_get buffer index width) i
      ≡ (if ltb i width then array_bit buffer (index * width + i) else 0)
unfolding bitarray_get
bitarray_get_digit buffer index width i = ground (
  arith,
  get_bits_digit buffer width 0 (index * width) 0 i,
  test_bit-zero i,
  test_bit-lt (get_or buffer ((index * width + i) / 8) 0) ((index * width + i) % 8),
)

-- One round of `bitarray_put` writes one digit.
array_bit-put_bit :
    (buffer : List ℕ) (bit p v q : ℕ)
    → p / 8 < length buffer
    → array_bit (put_bit buffer bit p v) q ≡ (if p == q then test_bit v bit else array_bit buffer q)
unfolding put_bit
array_bit-put_bit buffer bit p v q h =
    rw (bit_and_mask 3 p, bit_and_mask 1 (v >>> bit))
      (ground (
        arith,
        get_or-set buffer (p / 8) (q / 8) (bit_and old (u8 (not32 mask))) 0 h,
        get_or-set buffer (p / 8) (q / 8) (bit_or old mask) 0 h,
        test_bit-bit_and old (u8 (not32 mask)) (q % 8),
        test_bit-bit_or old mask (q % 8),
        test_bit-mod 8 (not32 mask) (q % 8),
        test_bit-not32 mask (q % 8),
        test_bit-mod 8 (1 <<< (p % 8)) (q % 8),
        shifted_digit 1 (p % 8) (q % 8),
        test_bit-lt old (q % 8),
        test_bit-shr bit v 0,
        ap (test_bit v) {x = bit + 0} {y = bit} (omega arith),
      ))
  where
    mask : ℕ
    mask = u8 (1 <<< (p % 8))

    old : ℕ
    old = get_or buffer (p / 8) 0

length-put_bit : (buffer : List ℕ) (bit p v : ℕ) → length (put_bit buffer bit p v) ≡ length buffer
unfolding put_bit
length-put_bit buffer bit p v = ground (
  arith,
  length-set buffer (p >>> 3)
      (bit_and (get_or buffer (p >>> 3) 0) (u8 (not32 (u8 (1 <<< bit_and p 7))))),
  length-set buffer (p >>> 3) (bit_or (get_or buffer (p >>> 3) 0) (u8 (1 <<< bit_and p 7))),
)

length-put_bits :
    (buffer : List ℕ) (left bit p v : ℕ) → length (put_bits buffer left bit p v) ≡ length buffer
unfolding put_bits
length-put_bits buffer zero bit p v = refl
length-put_bits buffer (suc left) bit p v =
    length-put_bits (put_bit buffer bit p v) left (bit + 1) (p + 1) v
    ∙ length-put_bit buffer bit p v

-- The loop of `bitarray_put` writes its digits and no other.
array_bit-put_bits :
    (buffer : List ℕ) (left bit p v q : ℕ)
    → p + left ≤ length buffer * 8
    → array_bit (put_bits buffer left bit p v) q ≡ (
        if ltb q p
        then array_bit buffer q
        else if ltb q (p + left)
        then test_bit v (bit + (q - p))
        else array_bit buffer q)
unfolding put_bits
array_bit-put_bits buffer zero bit p v q h = ground arith
array_bit-put_bits buffer (suc left) bit p v q h = ground (
  arith,
  array_bit-put_bits (put_bit buffer bit p v) left (bit + 1) (p + 1) v q
      (omega (arith, length-put_bit buffer bit p v)),
  array_bit-put_bit buffer bit p v q (omega arith),
  λ (e : p < q). ap (test_bit v) {x = bit + 1 + (q - (p + 1))} {y = bit + (q - p)} (omega arith),
  λ (e : p ≡ q). ap (test_bit v) {x = bit} {y = bit + (q - p)} (omega arith),
)

-- Fields with different indices do not overlap.
apart :
    (i j width k : ℕ)
    → i ≢ j
    → k < width
    → (j * width + k < i * width) ⊎ (i * width + width ≤ j * width + k)
apart i j width k ne h = elim (dec_lt i j) [
  | yes p ↦ inr (grind arith)
  | no p ↦ inl (grind (arith, mul-le-mul_right {m = suc j} {n = i} width (omega arith)))
]

-- In an array of fields of one width, a field whose last digit lies in the buffer reads back the
-- low digits of what was put there, any other field keeps its value, and the buffer its length.
pub bitarray_get-bitarray_put :
    (buffer : List ℕ) (i j width v : ℕ)
    → (i + 1) * width ≤ length buffer * 8
    → i ≢ j
    → (bitarray_get (bitarray_put buffer i width v) i width ≡ v % 2 ^ width)
      × (bitarray_get (bitarray_put buffer i width v) j width ≡ bitarray_get buffer j width)
      × (length (bitarray_put buffer i width v) ≡ length buffer)
unfolding bitarray_put
bitarray_get-bitarray_put buffer i j width v h ne = (
  test_bit_ext (bitarray_get after i width) (v % 2 ^ width) (λ k. ground (
    arith,
    bitarray_get_digit after i width k,
    array_bit-put_bits buffer width 0 (i * width) v (i * width + k) (grind arith),
    test_bit-mod width v k,
    ap (test_bit v) {x = 0 + (i * width + k - i * width)} {y = k} (omega arith),
  )),
  test_bit_ext (bitarray_get after j width) (bitarray_get buffer j width) (λ k. ground (
    arith,
    bitarray_get_digit after j width k,
    bitarray_get_digit buffer j width k,
    array_bit-put_bits buffer width 0 (i * width) v (j * width + k) (grind arith),
    apart i j width k ne,
  )),
  length-put_bits buffer width 0 (i * width) v,
)
  where
    after : List ℕ
    after = put_bits buffer width 0 (i * width) v
