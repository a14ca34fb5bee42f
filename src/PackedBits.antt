-- ===== src/PackedBits.antt =====
-- getting_there/packed_bits.h: fields of a 32-bit status word, an array of fields packed into
-- bytes, and the coding of signal strengths. Updates run with interrupts masked, so each is one
-- step on the word; the loops over the bits of a field are counted by the bits left.
pub mod Fields
pub mod BitArray
mod Tests
use inf2004_aai19_embedded_s.Common.{
  ℕ, zero, suc, ◌+◌, ◌-◌, ◌*◌, ◌/◌, ◌%◌, ◌^◌, bit_and, bit_or, List, get_or, set, u8, u32, ◌<<<◌,
  ◌>>>◌, ltb, ◌==◌, if◌then◌else◌, ◌&&◌,
}
use inf2004_aai19_embedded_s.Common.Int.{ℤ, pos, negsuc, neg_part, ltb_ℤ, neg}
use inf2004_aai19_embedded_s.Bits.{not32}

unfoldable pub bits_needed : ℕ → ℕ
bits_needed m =
    if ltb m 2
    then 1
    else if ltb m 4
    then 2
    else if ltb m 8
    then 3
    else if ltb m 16
    then 4
    else if ltb m 32
    then 5
    else if ltb m 64
    then 6
    else if ltb m 128
    then 7
    else if ltb m 256
    then 8
    else if ltb m 512
    then 9
    else 16

-- `FIELD_MAX(bits)`
abbrev pub field_max : ℕ → ℕ
field_max bits = 2 ^ bits - 1

unfoldable pub packed_get : ℕ → ℕ → ℕ → ℕ
packed_get word shift bits = bit_and (word >>> shift) (field_max bits)

unfoldable pub packed_put : ℕ → ℕ → ℕ → ℕ → ℕ
packed_put word shift bits value =
    let mask = u32 (field_max bits <<< shift) in
    bit_or (bit_and word (not32 mask)) (bit_and (u32 (value <<< shift)) mask)

unfoldable pub packed_set_bits : ℕ → ℕ → ℕ
packed_set_bits word mask = bit_or word mask

unfoldable pub packed_clear_bits : ℕ → ℕ → ℕ
packed_clear_bits word mask = bit_and word (not32 mask)

-- `BITARRAY_BYTES(count, width)`
abbrev pub bitarray_bytes : ℕ → ℕ → ℕ
bitarray_bytes count width = (count * width + 7) / 8

-- The loop of `bitarray_get` with `left` rounds to go, `width - left` being `bit`.
unfoldable pub get_bits : List ℕ → ℕ → ℕ → ℕ → ℕ → ℕ
get_bits buffer zero bit position value = value
get_bits buffer (suc left) bit position value =
    get_bits buffer left (bit + 1) (position + 1)
      (bit_or value (bit_and (get_or buffer (position >>> 3) 0 >>> bit_and position 7) 1 <<< bit))

unfoldable pub bitarray_get : List ℕ → ℕ → ℕ → ℕ
unfolding get_bits
bitarray_get buffer index width = get_bits buffer width 0 (index * width) 0

-- One round of `bitarray_put`: the bit of the buffer at `position` becomes that of `value` at `bit`.
unfoldable pub put_bit : List ℕ → ℕ → ℕ → ℕ → List ℕ
put_bit buffer bit position value =
    let mask = u8 (1 <<< bit_and position 7) in
    let old = get_or buffer (position >>> 3) 0 in
    if bit_and (value >>> bit) 1 == 0
    then set buffer (position >>> 3) (bit_and old (u8 (not32 mask)))
    else set buffer (position >>> 3) (bit_or old mask)

unfoldable pub put_bits : List ℕ → ℕ → ℕ → ℕ → ℕ → List ℕ
put_bits buffer zero bit position value = buffer
put_bits buffer (suc left) bit position value =
    put_bits (put_bit buffer bit position value) left (bit + 1) (position + 1) value

unfoldable pub bitarray_put : List ℕ → ℕ → ℕ → ℕ → List ℕ
unfolding put_bits put_bit
bitarray_put buffer index width value = put_bits buffer width 0 (index * width) value

abbrev pub rssi_bits : ℕ
rssi_bits = 7

abbrev pub rssi_missing_code : ℕ
rssi_missing_code = 127

unfoldable pub rssi_encode : ℤ → ℕ
rssi_encode dbm =
    if ltb_ℤ dbm (pos 0) && ltb_ℤ (negsuc 126) dbm then neg_part dbm else rssi_missing_code

unfoldable pub rssi_decode : ℕ → ℤ
rssi_decode code = neg code
