-- ===== src/Wire/Tests.antt =====
-- Numbers and checksums of transfer_protocol.h at concrete bytes.
use inf2004_aai19_embedded_s.Common.{ℕ, ◌≡◌, ◌≢◌, refl, List, [], ◌∷◌, length, get_or, inl, arith}
use inf2004_aai19_embedded_s.Wire.{crc32, write_u32, read_u32}
use inf2004_aai19_embedded_s.Wire.Numbers.{read_u32-write_u32}
use inf2004_aai19_embedded_s.Wire.Checksum.{crc32_detects_byte}

-- The check value of CRC-32 on the digits "123456789".
crc32_check : crc32 (0x31 ∷ 0x32 ∷ 0x33 ∷ 0x34 ∷ 0x35 ∷ 0x36 ∷ 0x37 ∷ 0x38 ∷ 0x39 ∷ []) ≡ 0xCBF43926
unfolding crc32
crc32_check = refl

abbrev packet : List ℕ
packet = 1 ∷ 2 ∷ 3 ∷ 4 ∷ 5 ∷ 6 ∷ []

read_u32-write_u32_example :
    (read_u32 (write_u32 packet 1 0x01020304) 1 ≡ 0x01020304)
    × (length (write_u32 packet 1 0x01020304) ≡ length packet)
    × (get_or (write_u32 packet 1 0x01020304) 0 0 ≡ get_or packet 0 0)
read_u32-write_u32_example =
    read_u32-write_u32 packet 1 0x01020304 0 (omega arith) (omega arith) (inl (omega arith))

crc32_detects_byte_example : crc32 (1 ∷ 7 ∷ 2 ∷ []) ≢ crc32 (1 ∷ 8 ∷ 2 ∷ [])
crc32_detects_byte_example =
    crc32_detects_byte (1 ∷ []) (2 ∷ []) 7 8 (omega arith) (omega arith) (omega arith) (omega arith)
      (omega arith)
