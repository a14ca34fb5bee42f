-- ===== src/Wire/Numbers.antt =====
-- The little-endian numbers of transfer_protocol.h: what is written is read back.
use inf2004_aai19_embedded_s.Common.{
  ◌∙◌, ℕ, ◌+◌, ◌/◌, ◌%◌, ◌^◌, ◌*◌, ◌<◌, bit_or, ◌≡◌, refl, List, some, get_or, set, length,
  length-set, get_or-set, ◌==◌, if◌then◌else◌, ◌⊎◌, u8, ◌>>>◌, ◌<<<◌, arith,
}
use inf2004_aai19_embedded_s.Bits.{bit_or_fields}
use inf2004_aai19_embedded_s.Wire.{
  write_u16, read_u16, write_u32, read_u32, MessageType, message_type, code_of,
}

-- Every message is recognised by its number.
pub message_type-code_of : (m : MessageType) → message_type (code_of m) ≡ some m
unfolding message_type
message_type-code_of MessageType.hello = refl
message_type-code_of _ = refl

-- Two bytes joined by `|`.
join16 : (a b : ℕ) → a < 256 → bit_or a (b <<< 8) ≡ a + b * 256
join16 a b h = bit_or_fields 8 a b h

join32 :
    (a b c d : ℕ)
    → a < 256
    → b < 256
    → c < 256
    → bit_or (bit_or (bit_or a (b <<< 8)) (c <<< 16)) (d <<< 24)
      ≡ a + b * 256 + c * 65536 + d * 16777216
join32 a b c d ha hb hc = rw (join16 a b ha) (
    rw (bit_or_fields 16 (a + b * 256) c (omega arith))
      (bit_or_fields 24 (a + b * 256 + c * 65536) d (omega arith)))

pub length-write_u16 : (p : List ℕ) (i v : ℕ) → length (write_u16 p i v) ≡ length p
unfolding write_u16
length-write_u16 p i v =
    omega (arith, length-set (set p i (u8 v)) (i + 1) (u8 (v >>> 8)), length-set p i (u8 v))

pub read_u16-write_u16 :
    (p : List ℕ) (i v : ℕ) → i + 1 < length p → v < 2 ^ 16 → read_u16 (write_u16 p i v) i ≡ v
unfolding read_u16 write_u16
read_u16-write_u16 p i v h w = ground (
  arith,
  get_or-set p i i (u8 v) 0,
  get_or-set (set p i (u8 v)) (i + 1) i (u8 (v >>> 8)) 0,
  get_or-set (set p i (u8 v)) (i + 1) (i + 1) (u8 (v >>> 8)) 0,
  length-set p i (u8 v),
  join16 (v % 256) (v / 256 % 256),
)

-- The bytes that `transfer_write_u32` leaves, wherever they are looked at.
pub get_or-write_u32 :
    (p : List ℕ) (i v j : ℕ)
    → i + 3 < length p
    → get_or (write_u32 p i v) j 0 ≡ (
        if i + 3 == j
        then u8 (v >>> 24)
        else if i + 2 == j
        then u8 (v >>> 16)
        else if i + 1 == j
        then u8 (v >>> 8)
        else if i == j
        then u8 v
        else get_or p j 0)
unfolding write_u32
get_or-write_u32 p i v j h =
    let p0 = set p i (u8 v) in
    let p1 = set p0 (i + 1) (u8 (v >>> 8)) in
    let p2 = set p1 (i + 2) (u8 (v >>> 16)) in
    rw (
      get_or-set p2 (i + 3) j (u8 (v >>> 24)) 0 (
          omega (
            arith,
            length-set p1 (i + 2) (u8 (v >>> 16)),
            length-set p0 (i + 1) (u8 (v >>> 8)),
            length-set p i (u8 v),
          )),
      get_or-set p1 (i + 2) j (u8 (v >>> 16)) 0
          (omega (arith, length-set p0 (i + 1) (u8 (v >>> 8)), length-set p i (u8 v))),
      get_or-set p0 (i + 1) j (u8 (v >>> 8)) 0 (omega (arith, length-set p i (u8 v))),
      get_or-set p i j (u8 v) 0 (omega arith),
    )

pub length-write_u32 : (p : List ℕ) (i v : ℕ) → length (write_u32 p i v) ≡ length p
unfolding write_u32
length-write_u32 p i v =
    let p0 = set p i (u8 v) in
    let p1 = set p0 (i + 1) (u8 (v >>> 8)) in
    let p2 = set p1 (i + 2) (u8 (v >>> 16)) in
    omega (
      arith,
      length-set p2 (i + 3) (u8 (v >>> 24)),
      length-set p1 (i + 2) (u8 (v >>> 16)),
      length-set p0 (i + 1) (u8 (v >>> 8)),
      length-set p i (u8 v),
    )

pub read_u32-write_u32_self :
    (p : List ℕ) (i v : ℕ) → i + 3 < length p → v < 2 ^ 32 → read_u32 (write_u32 p i v) i ≡ v
unfolding read_u32
read_u32-write_u32_self p i v h w = ground (
  arith,
  get_or-write_u32 p i v i,
  get_or-write_u32 p i v (i + 1),
  get_or-write_u32 p i v (i + 2),
  get_or-write_u32 p i v (i + 3),
  join32 (v % 256) (v / 256 % 256) (v / 65536 % 256) (v / 16777216 % 256),
)

-- A 32-bit number written at an offset is read back, and a byte outside its four does not change.
pub read_u32-write_u32 :
    (p : List ℕ) (i v j : ℕ)
    → i + 3 < length p
    → v < 2 ^ 32
    → (j < i) ⊎ (i + 3 < j)
    → (read_u32 (write_u32 p i v) i ≡ v)
      × (length (write_u32 p i v) ≡ length p)
      × (get_or (write_u32 p i v) j 0 ≡ get_or p j 0)
read_u32-write_u32 p i v j h w o = (
  read_u32-write_u32_self p i v h w,
  length-write_u32 p i v,
  ground (arith, get_or-write_u32 p i v j),
)

-- A number is read wherever its four bytes stand.
pub read_u32_of_bytes :
    (p : List ℕ) (i v : ℕ)
    → v < 2 ^ 32
    → get_or p i 0 ≡ u8 v
    → get_or p (i + 1) 0 ≡ u8 (v >>> 8)
    → get_or p (i + 2) 0 ≡ u8 (v >>> 16)
    → get_or p (i + 3) 0 ≡ u8 (v >>> 24)
    → read_u32 p i ≡ v
unfolding read_u32
read_u32_of_bytes p i v w a b c d =
    rw (a, b, c, d)
      (join32 (v % 256) (v / 256 % 256) (v / 65536 % 256) (v / 16777216 % 256) (omega arith)
          (omega arith) (omega arith)
        ∙ omega arith)

pub read_u16_of_bytes :
    (p : List ℕ) (i v : ℕ)
    → v < 2 ^ 16
    → get_or p i 0 ≡ u8 v
    → get_or p (i + 1) 0 ≡ u8 (v >>> 8)
    → read_u16 p i ≡ v
unfolding read_u16
read_u16_of_bytes p i v w a b =
    rw (a, b) (join16 (v % 256) (v / 256 % 256) (omega arith) ∙ omega arith)
