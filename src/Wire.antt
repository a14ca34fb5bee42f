-- ===== src/Wire.antt =====
-- ble_transfer/transfer_protocol.h: the messages of the file transfer, their numbers on the wire,
-- and the checksum of a file. A buffer is a list of bytes, and `p + i` is the buffer with an offset.
pub mod Numbers
pub mod Checksum
mod Tests
use inf2004_aai19_embedded_s.Common.{
  ℕ, ◌+◌, ◌-◌, ◌/◌, ◌%◌, ◌^◌, bit_and, bit_or, bit_xor, List, [], ◌∷◌, Option, none, some, get_or,
  set, u8, ◌<<<◌, ◌>>>◌, ◌==◌, if◌then◌else◌,
}
use inf2004_aai19_embedded_s.Bits.{not32}

abbrev pub service_uuid : ℕ
service_uuid = 0xFF20

abbrev pub protocol_version : ℕ
protocol_version = 1

abbrev pub max_file_size : ℕ
max_file_size = 256

abbrev pub packet_size : ℕ
packet_size = 20

abbrev pub data_bytes : ℕ
data_bytes = 17

pub data MessageType : Type 0 where
  hello hello_ack file_start file_ready file_data file_end file_received reply_request : MessageType
  reply_start reply_next reply_data reply_end complete complete_ack error : MessageType

abbrev pub code_of : MessageType → ℕ
code_of MessageType.hello = 0x01
code_of MessageType.hello_ack = 0x02
code_of MessageType.file_start = 0x03
code_of MessageType.file_ready = 0x04
code_of MessageType.file_data = 0x05
code_of MessageType.file_end = 0x06
code_of MessageType.file_received = 0x07
code_of MessageType.reply_request = 0x08
code_of MessageType.reply_start = 0x09
code_of MessageType.reply_next = 0x0A
code_of MessageType.reply_data = 0x0B
code_of MessageType.reply_end = 0x0C
code_of MessageType.complete = 0x0D
code_of MessageType.complete_ack = 0x0E
code_of MessageType.error = 0x7F

-- The case that a `switch` over the enumeration takes; `none` is its default.
unfoldable pub message_type : ℕ → Option MessageType
message_type b =
    if b == 0x01
    then some MessageType.hello
    else if b == 0x02
    then some MessageType.hello_ack
    else if b == 0x03
    then some MessageType.file_start
    else if b == 0x04
    then some MessageType.file_ready
    else if b == 0x05
    then some MessageType.file_data
    else if b == 0x06
    then some MessageType.file_end
    else if b == 0x07
    then some MessageType.file_received
    else if b == 0x08
    then some MessageType.reply_request
    else if b == 0x09
    then some MessageType.reply_start
    else if b == 0x0A
    then some MessageType.reply_next
    else if b == 0x0B
    then some MessageType.reply_data
    else if b == 0x0C
    then some MessageType.reply_end
    else if b == 0x0D
    then some MessageType.complete
    else if b == 0x0E
    then some MessageType.complete_ack
    else if b == 0x7F
    then some MessageType.error
    else none

unfoldable pub write_u16 : List ℕ → ℕ → ℕ → List ℕ
write_u16 p i value = set (set p i (u8 value)) (i + 1) (u8 (value >>> 8))

unfoldable pub read_u16 : List ℕ → ℕ → ℕ
read_u16 p i = bit_or (get_or p i 0) (get_or p (i + 1) 0 <<< 8)

unfoldable pub write_u32 : List ℕ → ℕ → ℕ → List ℕ
write_u32 p i value =
    let p0 = set p i (u8 value) in
    let p1 = set p0 (i + 1) (u8 (value >>> 8)) in
    let p2 = set p1 (i + 2) (u8 (value >>> 16)) in set p2 (i + 3) (u8 (value >>> 24))

unfoldable pub read_u32 : List ℕ → ℕ → ℕ
read_u32 p i =
    bit_or (bit_or (bit_or (get_or p i 0) (get_or p (i + 1) 0 <<< 8)) (get_or p (i + 2) 0 <<< 16))
      (get_or p (i + 3) 0 <<< 24)

-- `(uint32_t)-(int32_t)(crc & 1u)`
abbrev pub low_bit_mask : ℕ → ℕ
low_bit_mask crc = (2 ^ 32 - bit_and crc 1) % 2 ^ 32

-- One round of the inner loop of `transfer_crc32`.
unfoldable pub crc_bit : ℕ → ℕ
crc_bit crc = bit_xor (crc >>> 1) (bit_and 0xEDB88320 (low_bit_mask crc))

unfoldable pub crc_rounds : ℕ → ℕ → ℕ
crc_rounds ℕ.zero crc = crc
crc_rounds (ℕ.suc n) crc = crc_rounds n (crc_bit crc)

-- The body of the outer loop.
unfoldable pub crc_byte : ℕ → ℕ → ℕ
unfolding crc_rounds crc_bit
crc_byte crc d = crc_rounds 8 (bit_xor crc d)

unfoldable pub crc_loop : ℕ → List ℕ → ℕ
unfolding crc_byte
crc_loop crc [] = crc
crc_loop crc (d ∷ ds) = crc_loop (crc_byte crc d) ds

-- `transfer_crc32(data, length)` on the `length` bytes at `data`.
unfoldable pub crc32 : List ℕ → ℕ
unfolding crc_loop
crc32 ds = not32 (crc_loop 0xFFFFFFFF ds)
