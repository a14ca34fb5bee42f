-- ===== src/Faults/Laws.antt =====
-- The fault mask is a set: raising and clearing a fault change that fault and no other.
use inf2004_aai19_embedded_s.Common.{
  ℕ, ◌/◌, ◌^◌, ◌<◌, ◌≡◌, true, false, ◌==◌, ◌/=◌, if◌then◌else◌, u16, arith, ◌-◌, ◌<<<◌,
}
use inf2004_aai19_embedded_s.Bits.{
  not32, test_bit, test_bit-lt, test_bit-bit_and, test_bit-bit_or, test_bit-mod, test_bit-shl,
  test_bit-not32, test_bit-mask, bit_and_mask,
}
use inf2004_aai19_embedded_s.Faults.{Fault, fault_code, fault_raise, fault_clear, fault_test}

code-lt : (f : Fault) → fault_code f < 15
code-lt Fault.imu = omega arith
code-lt Fault.gyro_saturated = omega arith
code-lt Fault.heading = omega arith
code-lt Fault.turn = omega arith
code-lt Fault.wifi_lost = omega arith
code-lt Fault.wifi_scan = omega arith
code-lt Fault.ble_radio = omega arith
code-lt Fault.payload = omega arith
code-lt Fault.stop_latched = omega arith
code-lt Fault.run_limit = omega arith
code-lt Fault.no_direction = omega arith
code-lt Fault.translation_limit = omega arith
code-lt Fault.report = omega arith
code-lt Fault.profile = omega arith
code-lt Fault.start_button = omega arith

test-digit : (f : Fault) (m : ℕ) → fault_test f m ≡ (test_bit m (fault_code f) /= 0)
unfolding fault_test
test-digit f m = ground (arith, bit_and_mask 1 (m / 2 ^ fault_code f))

one_digit : (i : ℕ) → test_bit 1 i ≡ (if i == 0 then 1 else 0)
one_digit i = ground (arith, test_bit-mask 1 i)

-- The digit `i` of the mask of one fault.
mask_digit : (k i : ℕ) → k < 16 → i < 16 → test_bit (u16 (1 <<< k)) i ≡ (if i == k then 1 else 0)
mask_digit k i hk hi =
    ground (arith, test_bit-mod 16 (1 <<< k) i, test_bit-shl k 1 i, one_digit (i - k))

shifted_digit : (k i : ℕ) → k < 16 → i < 16 → test_bit (1 <<< k) i ≡ (if i == k then 1 else 0)
shifted_digit k i hk hi = ground (arith, test_bit-shl k 1 i, one_digit (i - k))

-- After `fault_raise g` a test gives true for `g`, and for any other fault what it gave before;
-- after `fault_clear g` it gives false for `g`, and for any other fault what it gave before.
pub fault_set_laws :
    (f g : Fault) (m : ℕ)
    → (fault_test f (fault_raise g m)
        ≡ (if fault_code f == fault_code g then true else fault_test f m))
      × (fault_test f (fault_clear g m)
          ≡ (if fault_code f == fault_code g then false else fault_test f m))
unfolding fault_raise fault_clear
fault_set_laws f g m =
    let i = fault_code f in
    let k = fault_code g in
    let bit = mask_digit k i (omega (arith, code-lt g)) (omega (arith, code-lt f)) in
    (
      ground (
        arith,
        test-digit f (fault_raise g m),
        test-digit f m,
        test_bit-bit_or m (u16 (1 <<< k)) i,
        bit,
        test_bit-lt m i,
      ),
      ground (
        arith,
        test-digit f (fault_clear g m),
        test-digit f m,
        test_bit-bit_and m (u16 (not32 (1 <<< k))) i,
        test_bit-mod 16 (not32 (1 <<< k)) i,
        test_bit-not32 (1 <<< k) i,
        shifted_digit k i (omega (arith, code-lt g)) (omega (arith, code-lt f)),
        code-lt f,
        test_bit-lt m i,
      ),
    )
