-- ===== src/Faults.antt =====
-- getting_there/faults.c and faults.h: one bit per fault in a 16-bit mask. Both updates run with
-- interrupts masked, so each is one step.
pub mod Laws
mod Tests
use inf2004_aai19_embedded_s.Common.{ℕ, ◌%◌, ◌^◌, bit_and, bit_or, Bool, u16, ◌<<<◌, ◌>>>◌, ◌/=◌}
use inf2004_aai19_embedded_s.Bits.{not32}

-- `fault_t`
pub data Fault : Type 0 where
  imu gyro_saturated heading turn wifi_lost wifi_scan ble_radio payload stop_latched : Fault
  run_limit no_direction translation_limit report profile start_button : Fault

abbrev pub fault_code : Fault → ℕ
fault_code Fault.imu = 0
fault_code Fault.gyro_saturated = 1
fault_code Fault.heading = 2
fault_code Fault.turn = 3
fault_code Fault.wifi_lost = 4
fault_code Fault.wifi_scan = 5
fault_code Fault.ble_radio = 6
fault_code Fault.payload = 7
fault_code Fault.stop_latched = 8
fault_code Fault.run_limit = 9
fault_code Fault.no_direction = 10
fault_code Fault.translation_limit = 11
fault_code Fault.report = 12
fault_code Fault.profile = 13
fault_code Fault.start_button = 14

unfoldable pub fault_raise : Fault → ℕ → ℕ
fault_raise fault faults = bit_or faults (u16 (1 <<< fault_code fault))

unfoldable pub fault_clear : Fault → ℕ → ℕ
fault_clear fault faults = bit_and faults (u16 (not32 (1 <<< fault_code fault)))

unfoldable pub fault_test : Fault → ℕ → Bool
fault_test fault faults = bit_and (faults >>> fault_code fault) 1 /= 0
