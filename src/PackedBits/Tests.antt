-- ===== src/PackedBits/Tests.antt =====
-- The status word and the ring of readings at the widths that the program uses.
use inf2004_aai19_embedded_s.Common.{
  ℕ, zero, suc, ◌+◌, ◌%◌, ◌^◌, ◌≤◌, ◌<◌, ◌≡◌, refl, ◌&&◌, List, length, replicate, inl, arith,
  if◌then◌else◌,
}
use inf2004_aai19_embedded_s.Common.Int.{ltb_ℤ, pos, negsuc}
use inf2004_aai19_embedded_s.Bits.{test_bit}
use inf2004_aai19_embedded_s.PackedBits.{
  packed_get, packed_put, bitarray_get, bitarray_put, bitarray_bytes, rssi_encode, rssi_decode,
  rssi_bits,
}
use inf2004_aai19_embedded_s.PackedBits.Fields.{packed_get-packed_put, rssi_decode-rssi_encode}
use inf2004_aai19_embedded_s.PackedBits.BitArray.{bitarray_get-bitarray_put}

-- The 22 that is the last BLE state wants 5 digits.
-- A result put above a state.
packed_get-packed_put_example :
    (packed_get (packed_put 0x2B6 5 2 2) 5 2 ≡ 2 % 2 ^ 2)
    × (packed_get (packed_put 0x2B6 5 2 2) 0 5 ≡ packed_get 0x2B6 0 5)
    × (packed_put 0x2B6 5 2 2 < 2 ^ 32)
packed_get-packed_put_example =
    packed_get-packed_put 0x2B6 5 2 2 0 5 (omega arith) (omega arith) (omega arith)
      (inl (omega arith))

low_flags : (i : ℕ) → i < 5 → test_bit 0x400 (0 + i) ≡ 0
low_flags zero h = refl
low_flags (suc zero) h = refl
low_flags (suc (suc zero)) h = refl
low_flags (suc (suc (suc zero))) h = refl
low_flags (suc (suc (suc (suc zero)))) h = refl
low_flags (suc (suc (suc (suc (suc i))))) h = absurd (omega arith)

rssi_decode-rssi_encode_example :
    (rssi_decode (rssi_encode (negsuc 53)) ≡ (
      if ltb_ℤ (negsuc 53) (pos 0) && ltb_ℤ (negsuc 126) (negsuc 53)
      then negsuc 53
      else negsuc 126))
    × (1 ≤ rssi_encode (negsuc 53))
    × (rssi_encode (negsuc 53) < 2 ^ rssi_bits)
rssi_decode-rssi_encode_example = rssi_decode-rssi_encode (negsuc 53)

abbrev ring : List ℕ
ring = replicate (bitarray_bytes 12 7) 0

bitarray_get-bitarray_put_example :
    (bitarray_get (bitarray_put ring 3 7 0x55) 3 7 ≡ 0x55 % 2 ^ 7)
    × (bitarray_get (bitarray_put ring 3 7 0x55) 4 7 ≡ bitarray_get ring 4 7)
    × (length (bitarray_put ring 3 7 0x55) ≡ length ring)
bitarray_get-bitarray_put_example =
    bitarray_get-bitarray_put ring 3 4 7 0x55 (omega arith) (omega arith)
