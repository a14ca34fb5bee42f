-- ===== src/PackedBits/Fields.antt =====
-- Fields of a status word: a field reads back what was put, and no update leaks into another.
use inf2004_aai19_embedded_s.Common.{
  ℕ, ◌+◌, ◌-◌, ◌/◌, ◌%◌, ◌^◌, ◌≤◌, ◌<◌, min, max, bit_and, ◌≡◌, ap, ◌∙◌, ◌⊎◌, inl, inr, ltb, u32,
  ◌<<<◌, if◌then◌else◌, arith, ◌&&◌,
}
use native.Mathlib.Decide.{dec_le, dec_lt}
use native.Mathlib.Nat.{pow-le-pow_right}
use inf2004_aai19_embedded_s.Common.Int.{ℤ, pos, negsuc, ltb_ℤ}
use inf2004_aai19_embedded_s.Bits.{
  test_bit, test_bit-lt, test_bit-bit_and, test_bit-bit_or, test_bit-shl, test_bit-shr,
  test_bit-mod, test_bit-mask, test_bit-not32, test_bit_ext, test_bit-zero, bits_of_lt, bit_or-lt,
  bit_and-lt, bit_xor-lt, not32,
}
use inf2004_aai19_embedded_s.PackedBits.{
  bits_needed, field_max, packed_get, packed_put, packed_set_bits, packed_clear_bits, rssi_encode,
  rssi_decode, rssi_bits, rssi_bits,
}

bits_needed_range :
    (m : ℕ)
    → m < 512
    → (m < 2 ^ bits_needed m) × ((bits_needed m ≡ 1) ⊎ (2 ^ (bits_needed m - 1) ≤ m))
unfolding bits_needed
bits_needed_range m h = ground arith

-- For a value up to 511 the macro gives a width that holds it, and no smaller width of at least one
-- digit does.
pub bits_needed_least :
    (m k : ℕ) → m < 512 → 1 ≤ k → m < 2 ^ k → (m < 2 ^ bits_needed m) × (bits_needed m ≤ k)
bits_needed_least m k h hk hm =
    let (fits, tight) = bits_needed_range m h in
    (
      fits,
      elim (dec_le (bits_needed m) k) [
        | yes p ↦ p
        | no p ↦ absurd (elim tight [
          | inl e ↦ omega arith
          | inr e ↦ omega (
            arith,
            pow-le-pow_right {n = 2} (omega arith) {i = k} {j = bits_needed m - 1} (omega arith),
          )
        ])
      ],
    )

mask_digit :
    (s b i : ℕ)
    → s + b ≤ 32
    → test_bit (u32 (field_max b <<< s)) i ≡ (if ltb i s then 0 else if ltb i (s + b) then 1 else 0)
mask_digit s b i h = ground (
  arith,
  test_bit-mod 32 (field_max b <<< s) i,
  test_bit-shl s (field_max b) i,
  test_bit-mask b (i - s),
)

-- The digits of the updated word.
pub packed_put_digit :
    (w s b v i : ℕ)
    → s + b ≤ 32
    → i < 32
    → test_bit (packed_put w s b v) i ≡ (
        if ltb i s
        then test_bit w i
        else if ltb i (s + b)
        then test_bit v (i - s)
        else test_bit w i)
unfolding packed_put
packed_put_digit w s b v i h hi =
    let mask = u32 (field_max b <<< s) in
    let kept = bit_and w (not32 mask) in
    let new = bit_and (u32 (v <<< s)) mask in
    ground (
      arith,
      test_bit-bit_or kept new i,
      test_bit-bit_and w (not32 mask) i,
      test_bit-bit_and (u32 (v <<< s)) mask i,
      test_bit-not32 mask i,
      mask_digit s b i h,
      test_bit-mod 32 (v <<< s) i,
      test_bit-shl s v i,
      test_bit-lt w i,
      test_bit-lt v (i - s),
    )

-- The digits of a field.
pub packed_get_digit :
    (w s b i : ℕ) → test_bit (packed_get w s b) i ≡ (if ltb i b then test_bit w (s + i) else 0)
unfolding packed_get
packed_get_digit w s b i = ground (
  arith,
  test_bit-bit_and (w / 2 ^ s) (field_max b) i,
  test_bit-shr s w i,
  test_bit-mask b i,
  test_bit-lt w (s + i),
)

packed_put-lt : (w s b v : ℕ) → w < 2 ^ 32 → packed_put w s b v < 2 ^ 32
unfolding packed_put
packed_put-lt w s b v h =
    let mask = u32 (field_max b <<< s) in
    bit_or-lt 32 (bit_and w (not32 mask)) (bit_and (u32 (v <<< s)) mask)
      (bit_and-lt 32 w (not32 mask) (bit_xor-lt 32 mask 0xFFFFFFFF (omega arith) (omega arith)))
      (bit_and-lt 32 (u32 (v <<< s)) mask (omega arith))

-- A field of a 32-bit word reads back the low digits of what was put there; a field that does not
-- overlap it is unchanged; and the word still fits 32 bits.
pub packed_get-packed_put :
    (w s b v s' b' : ℕ)
    → w < 2 ^ 32
    → s + b ≤ 32
    → s' + b' ≤ 32
    → (s' + b' ≤ s) ⊎ (s + b ≤ s')
    → (packed_get (packed_put w s b v) s b ≡ v % 2 ^ b)
      × (packed_get (packed_put w s b v) s' b' ≡ packed_get w s' b')
      × (packed_put w s b v < 2 ^ 32)
packed_get-packed_put w s b v s' b' hw h h' o = (
  test_bit_ext (packed_get (packed_put w s b v) s b) (v % 2 ^ b) (λ i. ground (
    arith,
    packed_get_digit (packed_put w s b v) s b i,
    packed_put_digit w s b v (s + i) h,
    test_bit-mod b v i,
    ap (test_bit v) {x = s + i - s} {y = i} (omega arith),
  )),
  test_bit_ext (packed_get (packed_put w s b v) s' b') (packed_get w s' b') (λ i. ground (
    arith,
    packed_get_digit (packed_put w s b v) s' b' i,
    packed_get_digit w s' b' i,
    packed_put_digit w s b v (s' + i) h,
  )),
  packed_put-lt w s b v hw,
)

set_digit : (w m i : ℕ) → test_bit (packed_set_bits w m) i ≡ max (test_bit w i) (test_bit m i)
unfolding packed_set_bits
set_digit w m i = test_bit-bit_or w m i

clear_digit :
    (w m i : ℕ)
    → i < 32
    → test_bit (packed_clear_bits w m) i ≡ min (test_bit w i) (1 - test_bit m i)
unfolding packed_clear_bits
clear_digit w m i h =
    test_bit-bit_and w (not32 m) i ∙ ap (min (test_bit w i)) (test_bit-not32 m i h)

-- Setting a mask sets all of its digits, clearing it clears them all, and neither changes a field
-- that has no digit in common with the mask.
pub packed_bits_lem :
    (w m s b : ℕ)
    → w < 2 ^ 32
    → m < 2 ^ 32
    → s + b ≤ 32
    → ((i : ℕ) → i < b → test_bit m (s + i) ≡ 0)
    → (bit_and (packed_set_bits w m) m ≡ m)
      × (bit_and (packed_clear_bits w m) m ≡ 0)
      × (packed_get (packed_set_bits w m) s b ≡ packed_get w s b)
      × (packed_get (packed_clear_bits w m) s b ≡ packed_get w s b)
packed_bits_lem w m s b hw hm h free = (
  test_bit_ext (bit_and (packed_set_bits w m) m) m
      (λ i. omega (arith, test_bit-bit_and (packed_set_bits w m) m i, set_digit w m i)),
  test_bit_ext (bit_and (packed_clear_bits w m) m) 0 (λ i. elim (dec_lt i 32) [
    | yes p ↦ omega (
      arith,
      test_bit-bit_and (packed_clear_bits w m) m i,
      clear_digit w m i p,
      test_bit-zero i,
      test_bit-lt m i,
      test_bit-lt w i,
    )
    | no p ↦ omega (
      arith,
      test_bit-bit_and (packed_clear_bits w m) m i,
      bits_of_lt 32 m i hm (omega arith),
      test_bit-zero i,
    )
  ]),
  test_bit_ext (packed_get (packed_set_bits w m) s b) (packed_get w s b) (λ i. ground (
    arith,
    packed_get_digit (packed_set_bits w m) s b i,
    packed_get_digit w s b i,
    set_digit w m (s + i),
    free i,
  )),
  test_bit_ext (packed_get (packed_clear_bits w m) s b) (packed_get w s b) (λ i. ground (
    arith,
    packed_get_digit (packed_clear_bits w m) s b i,
    packed_get_digit w s b i,
    clear_digit w m (s + i),
    free i,
    test_bit-lt w (s + i),
  )),
)

-- Every reading of -126 to -1 dBm survives the coding, any other is read back as -127, the marker
-- of a missing one; a code is at least 1 and fits the 7 bits of its field.
pub rssi_decode-rssi_encode :
    (d : ℤ)
    → (rssi_decode (rssi_encode d)
        ≡ (if ltb_ℤ d (pos 0) && ltb_ℤ (negsuc 126) d then d else negsuc 126))
      × (1 ≤ rssi_encode d)
      × (rssi_encode d < 2 ^ rssi_bits)
unfolding rssi_decode rssi_encode
rssi_decode-rssi_encode (pos n) = ground arith
rssi_decode-rssi_encode (negsuc n) = ground arith
