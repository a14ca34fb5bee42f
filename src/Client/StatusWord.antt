-- ===== src/Client/StatusWord.antt =====
-- payload_client.c, the packed status word: the state in bits 0 to 4, the two results in bits 5 to 8
-- and a bit for each flag from bit 9 on. The client's model has these fields taken apart; here are
-- the word and the packed operations on it.
use inf2004_aai19_embedded_s.Common.{
  ℕ, ◌+◌, ◌-◌, ◌*◌, ◌/◌, ◌%◌, ◌^◌, ◌≤◌, ◌<◌, ◌≡◌, ap, sym, ◌∙◌, bit_and, Bool, true, false, ◌/=◌,
  ◌<<<◌, arith, ◌⊎◌,
}
use native.Mathlib.Nat.{pow-le-pow_right}
use inf2004_aai19_embedded_s.Bits.{
  not32, bit_or-lt, bit_and-lt, bit_xor-lt, test_bit, test_bit_ext, test_bit-lt, test_bit-shl,
  test_bit-shr, test_bit-bit_and, bits_of_lt, bit_and_mask,
}
use inf2004_aai19_embedded_s.PackedBits.{packed_get, packed_put, packed_set_bits, packed_clear_bits}
use inf2004_aai19_embedded_s.PackedBits.Fields.{packed_bits_lem, packed_get-packed_put}
use inf2004_aai19_embedded_s.Client.{
  BleState, state_code, Result, result_code, Flag, Flags, Client, flag, flag_assign,
}

abbrev pub bit_of : Bool → ℕ
bit_of true = 1
bit_of false = 0

-- The shifts of the flags' masks.
abbrev pub flag_shift : Flag → ℕ
flag_shift Flag.bluetooth_ready = 9
flag_shift Flag.attempt_running = 10
flag_shift Flag.abort_requested = 11
flag_shift Flag.close_confirmed = 12
flag_shift Flag.scan_confirmed = 13
flag_shift Flag.payload_verified = 14
flag_shift Flag.listening = 15
flag_shift Flag.service_found = 16
flag_shift Flag.characteristic_found = 17
flag_shift Flag.startup_failed = 18
flag_shift Flag.reconnect_requested = 19

abbrev pub flag_mask : Flag → ℕ
flag_mask f = 1 <<< flag_shift f

-- The flags as a number, `bluetooth_ready` its lowest digit.
unfoldable pub flags_word : Flags → ℕ
flags_word f =
    bit_of f.bluetooth_ready
    + 2 * bit_of f.attempt_running
    + 4 * bit_of f.abort_requested
    + 8 * bit_of f.close_confirmed
    + 16 * bit_of f.scan_confirmed
    + 32 * bit_of f.payload_verified
    + 64 * bit_of f.listening
    + 128 * bit_of f.service_found
    + 256 * bit_of f.characteristic_found
    + 512 * bit_of f.startup_failed
    + 1024 * bit_of f.reconnect_requested

-- `status` in the source.
unfoldable pub status_word : Client → ℕ
status_word c =
    state_code c.state
    + 2 ^ 5 * result_code c.result
    + 2 ^ 7 * result_code c.closing
    + 2 ^ 9 * flags_word c.flags

state_code-lt : (s : BleState) → state_code s < 23
state_code-lt s = ground arith

result_code-lt : (r : Result) → result_code r < 4
result_code-lt r = ground arith

-- A field as a quotient and a remainder.
get_field : (w s b : ℕ) → packed_get w s b ≡ w / 2 ^ s % 2 ^ b
unfolding packed_get
get_field w s b = bit_and_mask b (w / 2 ^ s)

low_field : (w b : ℕ) → packed_get w 0 b ≡ w % 2 ^ b
low_field w b = get_field w 0 b ∙ ap (λ n. n % 2 ^ b) {x = w / 2 ^ 0} {y = w} (omega arith)

word-lt : (c : Client) → status_word c < 2 ^ 20
unfolding status_word flags_word
word-lt c = ground (arith, state_code-lt c.state, result_code-lt c.result, result_code-lt c.closing)

mask_free : (k s b : ℕ) → (s + b ≤ k) ⊎ (k < s) → (i : ℕ) → i < b → test_bit (1 <<< k) (s + i) ≡ 0
mask_free k s b o i h = ground (arith, test_bit-shl k 1 (s + i), bits_of_lt 1 1 (s + i - k))

mask-lt : (k : ℕ) → k < 32 → 1 <<< k < 2 ^ 32
mask-lt k h = omega (arith, pow-le-pow_right {n = 2} (omega arith) {i = k} {j = 31} (omega arith))

-- The test of a flag's mask.
masked_digit : (w k : ℕ) → bit_and w (1 <<< k) ≡ test_bit w k * 2 ^ k
masked_digit w k = test_bit_ext (bit_and w (1 <<< k)) (test_bit w k * 2 ^ k) (λ i. ground (
  arith,
  test_bit-bit_and w (1 <<< k) i,
  test_bit-shl k 1 i,
  test_bit-shl k (test_bit w k) i,
  test_bit-lt w k,
  test_bit-lt w i,
  bits_of_lt 1 1 (i - k),
  bits_of_lt 1 (test_bit w k) (i - k),
  (λ (e : i ≡ k). ap (test_bit w) e),
))

flag_digit : (w k : ℕ) → bit_and w (1 <<< k) ≡ w / 2 ^ k % 2 * 2 ^ k
flag_digit w k =
    let e : test_bit (w / 2 ^ k) 0 ≡ test_bit w k =
      test_bit-shr k w 0 ∙ ap (test_bit w) {x = k + 0} {y = k} (omega arith) in
    masked_digit w k ∙ ap (λ t. t * 2 ^ k) (sym e)

-- What setting and clearing a flag leave of a word, and what they make of the flag.
bits-lt :
    (w m : ℕ)
    → w < 2 ^ 32
    → m < 2 ^ 32
    → (packed_set_bits w m < 2 ^ 32) × (packed_clear_bits w m < 2 ^ 32)
unfolding packed_set_bits packed_clear_bits
bits-lt w m hw hm = (
  bit_or-lt 32 w m hw hm,
  bit_and-lt 32 w (not32 m) (bit_xor-lt 32 m 0xFFFFFFFF hm (omega arith)),
)

flag_fields :
    (w k : ℕ)
    → w < 2 ^ 32
    → k < 32
    → (packed_get (packed_set_bits w (1 <<< k)) 0 k ≡ packed_get w 0 k)
      × (packed_get (packed_clear_bits w (1 <<< k)) 0 k ≡ packed_get w 0 k)
      × (packed_get (packed_set_bits w (1 <<< k)) (k + 1) (31 - k) ≡ packed_get w (k + 1) (31 - k))
      × (packed_get (packed_clear_bits w (1 <<< k)) (k + 1) (31 - k)
          ≡ packed_get w (k + 1) (31 - k))
      × (bit_and (packed_set_bits w (1 <<< k)) (1 <<< k) ≡ 1 <<< k)
      × (bit_and (packed_clear_bits w (1 <<< k)) (1 <<< k) ≡ 0)
      × (packed_set_bits w (1 <<< k) < 2 ^ 32)
      × (packed_clear_bits w (1 <<< k) < 2 ^ 32)
flag_fields w k hw hk =
    let (s1, c1, s2, c2) =
      packed_bits_lem w (1 <<< k) 0 k hw (mask-lt k hk) (omega arith)
        (mask_free k 0 k (omega arith)) in
    let (s3, c3, s4, c4) =
      packed_bits_lem w (1 <<< k) (k + 1) (31 - k) hw (mask-lt k hk) (omega arith)
        (mask_free k (k + 1) (31 - k) (omega arith)) in
    let (s5, c5) = bits-lt w (1 <<< k) hw (mask-lt k hk) in (s2, c2, s4, c4, s1, c1, s5, c5)

-- The packed reads of the state and of the two results give the fields, and the packed updates of
-- the word are the updates of the fields.
pub packed_fields :
    (c : Client) (s : BleState) (r : Result)
    → (packed_get (status_word c) 0 5 ≡ state_code c.state)
      × (packed_get (status_word c) 5 2 ≡ result_code c.result)
      × (packed_get (status_word c) 7 2 ≡ result_code c.closing)
      × (packed_put (status_word c) 0 5 (state_code s) ≡ status_word (record c { state = s }))
      × (packed_put (status_word c) 5 2 (result_code r) ≡ status_word (record c { result = r }))
      × (packed_put (status_word c) 7 2 (result_code r) ≡ status_word (record c { closing = r }))
unfolding status_word
packed_fields c s r = (
  omega (
    arith,
    get_field (status_word c) 0 5,
    state_code-lt c.state,
    result_code-lt c.result,
    result_code-lt c.closing,
  ),
  omega (
    arith,
    get_field (status_word c) 5 2,
    state_code-lt c.state,
    result_code-lt c.result,
    result_code-lt c.closing,
  ),
  omega (
    arith,
    get_field (status_word c) 7 2,
    state_code-lt c.state,
    result_code-lt c.result,
    result_code-lt c.closing,
  ),
  let w = status_word c in
      let p = packed_put w 0 5 (state_code s) in
      omega (
        arith,
        packed_get-packed_put w 0 5 (state_code s) 5 27 (omega (arith, word-lt c)) (omega arith)
            (omega arith) (omega arith),
        packed_get-packed_put w 0 5 (state_code s) 5 27 (omega (arith, word-lt c)) (omega arith)
            (omega arith) (omega arith),
        get_field p 0 5,
        get_field p 5 27,
        get_field p 5 27,
        get_field w 5 27,
        get_field w 5 27,
        state_code-lt c.state,
        result_code-lt c.result,
        result_code-lt c.closing,
        state_code-lt s,
        result_code-lt r,
        word-lt c,
      ),
  let w = status_word c in
      let p = packed_put w 5 2 (result_code r) in
      omega (
        arith,
        packed_get-packed_put w 5 2 (result_code r) 0 5 (omega (arith, word-lt c)) (omega arith)
            (omega arith) (omega arith),
        packed_get-packed_put w 5 2 (result_code r) 7 25 (omega (arith, word-lt c)) (omega arith)
            (omega arith) (omega arith),
        get_field p 5 2,
        get_field p 0 5,
        get_field p 7 25,
        get_field w 0 5,
        get_field w 7 25,
        state_code-lt c.state,
        result_code-lt c.result,
        result_code-lt c.closing,
        state_code-lt s,
        result_code-lt r,
        word-lt c,
      ),
  let w = status_word c in
      let p = packed_put w 7 2 (result_code r) in
      omega (
        arith,
        packed_get-packed_put w 7 2 (result_code r) 0 7 (omega (arith, word-lt c)) (omega arith)
            (omega arith) (omega arith),
        packed_get-packed_put w 7 2 (result_code r) 9 23 (omega (arith, word-lt c)) (omega arith)
            (omega arith) (omega arith),
        get_field p 7 2,
        get_field p 0 7,
        get_field p 9 23,
        get_field w 0 7,
        get_field w 9 23,
        state_code-lt c.state,
        result_code-lt c.result,
        result_code-lt c.closing,
        state_code-lt s,
        result_code-lt r,
        word-lt c,
      ),
)

test_of_bit : (b : Bool) (m n : ℕ) → 0 < m → n ≡ bit_of b * m → (n /= 0) ≡ b
test_of_bit true m n h e = ground arith
test_of_bit false m n h e = ground arith

bit-lt : (b : Bool) → bit_of b < 2
bit-lt true = omega arith
bit-lt false = omega arith

-- The same as quotients and remainders.
flag_values :
    (w k : ℕ)
    → w < 2 ^ 32
    → k < 32
    → let p = packed_set_bits w (1 <<< k) in
      let q = packed_clear_bits w (1 <<< k) in
      (p % 2 ^ k ≡ w % 2 ^ k)
      × (q % 2 ^ k ≡ w % 2 ^ k)
      × (p / 2 ^ (k + 1) % 2 ^ (31 - k) ≡ w / 2 ^ (k + 1) % 2 ^ (31 - k))
      × (q / 2 ^ (k + 1) % 2 ^ (31 - k) ≡ w / 2 ^ (k + 1) % 2 ^ (31 - k))
      × (p / 2 ^ k % 2 * 2 ^ k ≡ 2 ^ k)
      × (q / 2 ^ k % 2 * 2 ^ k ≡ 0)
      × (p < 2 ^ 32)
      × (q < 2 ^ 32)
flag_values w k hw hk =
    let p = packed_set_bits w (1 <<< k) in
    let q = packed_clear_bits w (1 <<< k) in
    let (s1, c1, s2, c2, s3, c3, s4, c4) = flag_fields w k hw hk in
    (
      omega (arith, low_field p k, low_field w k),
      omega (arith, low_field q k, low_field w k),
      omega (arith, get_field p (k + 1) (31 - k), get_field w (k + 1) (31 - k)),
      omega (arith, get_field q (k + 1) (31 - k), get_field w (k + 1) (31 - k)),
      omega (arith, flag_digit p k),
      omega (arith, flag_digit q k),
      s4,
      c4,
    )

record BitValues (f : Flags) : Type 0 where
  b0 : bit_of f.bluetooth_ready < 2
  b1 : bit_of f.attempt_running < 2
  b2 : bit_of f.abort_requested < 2
  b3 : bit_of f.close_confirmed < 2
  b4 : bit_of f.scan_confirmed < 2
  b5 : bit_of f.payload_verified < 2
  b6 : bit_of f.listening < 2
  b7 : bit_of f.service_found < 2
  b8 : bit_of f.characteristic_found < 2
  b9 : bit_of f.startup_failed < 2
  b10 : bit_of f.reconnect_requested < 2

bit_values : (f : Flags) → BitValues f
bit_values f = record {
  b0 = bit-lt f.bluetooth_ready;
  b1 = bit-lt f.attempt_running;
  b2 = bit-lt f.abort_requested;
  b3 = bit-lt f.close_confirmed;
  b4 = bit-lt f.scan_confirmed;
  b5 = bit-lt f.payload_verified;
  b6 = bit-lt f.listening;
  b7 = bit-lt f.service_found;
  b8 = bit-lt f.characteristic_found;
  b9 = bit-lt f.startup_failed;
  b10 = bit-lt f.reconnect_requested;
}

word_value :
    (c : Client)
    → status_word c
      ≡ state_code c.state
        + 32 * result_code c.result
        + 128 * result_code c.closing
        + 512 * flags_word c.flags
unfolding status_word
word_value c = omega arith

-- The test of a flag's mask is the flag, and setting and clearing the mask are its assignments.
pub packed_flags :
    (f : Flag) (c : Client)
    → ((bit_and (status_word c) (flag_mask f) /= 0) ≡ flag f c)
      × (packed_set_bits (status_word c) (flag_mask f) ≡ status_word (flag_assign f true c))
      × (packed_clear_bits (status_word c) (flag_mask f) ≡ status_word (flag_assign f false c))
unfolding flags_word
packed_flags Flag.bluetooth_ready c =
    let v = bit_values c.flags in
    let values = flag_values (status_word c) 9 (omega (arith, word-lt c)) (omega arith) in
    let s = state_code-lt c.state in
    let r = result_code-lt c.result in
    let k = result_code-lt c.closing in
    let e = word_value c in
    (
      test_of_bit c.flags.bluetooth_ready 512 (bit_and (status_word c) 512) (omega arith)
          (omega (arith, flag_digit (status_word c) 9)),
      omega (arith, word_value (flag_assign Flag.bluetooth_ready true c)),
      omega (arith, word_value (flag_assign Flag.bluetooth_ready false c)),
    )
packed_flags Flag.attempt_running c =
    let v = bit_values c.flags in
    let values = flag_values (status_word c) 10 (omega (arith, word-lt c)) (omega arith) in
    let s = state_code-lt c.state in
    let r = result_code-lt c.result in
    let k = result_code-lt c.closing in
    let e = word_value c in
    (
      test_of_bit c.flags.attempt_running 1024 (bit_and (status_word c) 1024) (omega arith)
          (omega (arith, flag_digit (status_word c) 10)),
      omega (arith, word_value (flag_assign Flag.attempt_running true c)),
      omega (arith, word_value (flag_assign Flag.attempt_running false c)),
    )
packed_flags Flag.abort_requested c =
    let v = bit_values c.flags in
    let values = flag_values (status_word c) 11 (omega (arith, word-lt c)) (omega arith) in
    let s = state_code-lt c.state in
    let r = result_code-lt c.result in
    let k = result_code-lt c.closing in
    let e = word_value c in
    (
      test_of_bit c.flags.abort_requested 2048 (bit_and (status_word c) 2048) (omega arith)
          (omega (arith, flag_digit (status_word c) 11)),
      omega (arith, word_value (flag_assign Flag.abort_requested true c)),
      omega (arith, word_value (flag_assign Flag.abort_requested false c)),
    )
packed_flags Flag.close_confirmed c =
    let v = bit_values c.flags in
    let values = flag_values (status_word c) 12 (omega (arith, word-lt c)) (omega arith) in
    let s = state_code-lt c.state in
    let r = result_code-lt c.result in
    let k = result_code-lt c.closing in
    let e = word_value c in
    (
      test_of_bit c.flags.close_confirmed 4096 (bit_and (status_word c) 4096) (omega arith)
          (omega (arith, flag_digit (status_word c) 12)),
      omega (arith, word_value (flag_assign Flag.close_confirmed true c)),
      omega (arith, word_value (flag_assign Flag.close_confirmed false c)),
    )
packed_flags Flag.scan_confirmed c =
    let v = bit_values c.flags in
    let values = flag_values (status_word c) 13 (omega (arith, word-lt c)) (omega arith) in
    let s = state_code-lt c.state in
    let r = result_code-lt c.result in
    let k = result_code-lt c.closing in
    let e = word_value c in
    (
      test_of_bit c.flags.scan_confirmed 8192 (bit_and (status_word c) 8192) (omega arith)
          (omega (arith, flag_digit (status_word c) 13)),
      omega (arith, word_value (flag_assign Flag.scan_confirmed true c)),
      omega (arith, word_value (flag_assign Flag.scan_confirmed false c)),
    )
packed_flags Flag.payload_verified c =
    let v = bit_values c.flags in
    let values = flag_values (status_word c) 14 (omega (arith, word-lt c)) (omega arith) in
    let s = state_code-lt c.state in
    let r = result_code-lt c.result in
    let k = result_code-lt c.closing in
    let e = word_value c in
    (
      test_of_bit c.flags.payload_verified 16384 (bit_and (status_word c) 16384) (omega arith)
          (omega (arith, flag_digit (status_word c) 14)),
      omega (arith, word_value (flag_assign Flag.payload_verified true c)),
      omega (arith, word_value (flag_assign Flag.payload_verified false c)),
    )
packed_flags Flag.listening c =
    let v = bit_values c.flags in
    let values = flag_values (status_word c) 15 (omega (arith, word-lt c)) (omega arith) in
    let s = state_code-lt c.state in
    let r = result_code-lt c.result in
    let k = result_code-lt c.closing in
    let e = word_value c in
    (
      test_of_bit c.flags.listening 32768 (bit_and (status_word c) 32768) (omega arith)
          (omega (arith, flag_digit (status_word c) 15)),
      omega (arith, word_value (flag_assign Flag.listening true c)),
      omega (arith, word_value (flag_assign Flag.listening false c)),
    )
packed_flags Flag.service_found c =
    let v = bit_values c.flags in
    let values = flag_values (status_word c) 16 (omega (arith, word-lt c)) (omega arith) in
    let s = state_code-lt c.state in
    let r = result_code-lt c.result in
    let k = result_code-lt c.closing in
    let e = word_value c in
    (
      test_of_bit c.flags.service_found 65536 (bit_and (status_word c) 65536) (omega arith)
          (omega (arith, flag_digit (status_word c) 16)),
      omega (arith, word_value (flag_assign Flag.service_found true c)),
      omega (arith, word_value (flag_assign Flag.service_found false c)),
    )
packed_flags Flag.characteristic_found c =
    let v = bit_values c.flags in
    let values = flag_values (status_word c) 17 (omega (arith, word-lt c)) (omega arith) in
    let s = state_code-lt c.state in
    let r = result_code-lt c.result in
    let k = result_code-lt c.closing in
    let e = word_value c in
    (
      test_of_bit c.flags.characteristic_found 131072 (bit_and (status_word c) 131072) (omega arith)
          (omega (arith, flag_digit (status_word c) 17)),
      omega (arith, word_value (flag_assign Flag.characteristic_found true c)),
      omega (arith, word_value (flag_assign Flag.characteristic_found false c)),
    )
packed_flags Flag.startup_failed c =
    let v = bit_values c.flags in
    let values = flag_values (status_word c) 18 (omega (arith, word-lt c)) (omega arith) in
    let s = state_code-lt c.state in
    let r = result_code-lt c.result in
    let k = result_code-lt c.closing in
    let e = word_value c in
    (
      test_of_bit c.flags.startup_failed 262144 (bit_and (status_word c) 262144) (omega arith)
          (omega (arith, flag_digit (status_word c) 18)),
      omega (arith, word_value (flag_assign Flag.startup_failed true c)),
      omega (arith, word_value (flag_assign Flag.startup_failed false c)),
    )
packed_flags Flag.reconnect_requested c =
    let v = bit_values c.flags in
    let values = flag_values (status_word c) 19 (omega (arith, word-lt c)) (omega arith) in
    let s = state_code-lt c.state in
    let r = result_code-lt c.result in
    let k = result_code-lt c.closing in
    let e = word_value c in
    (
      test_of_bit c.flags.reconnect_requested 524288 (bit_and (status_word c) 524288) (omega arith)
          (omega (arith, flag_digit (status_word c) 19)),
      omega (arith, word_value (flag_assign Flag.reconnect_requested true c)),
      omega (arith, word_value (flag_assign Flag.reconnect_requested false c)),
    )
