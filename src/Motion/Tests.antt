-- ===== src/Motion/Tests.antt =====
-- A drive on a board whose gyro does not turn, with whole numbers for C's float.
use inf2004_aai19_embedded_s.Common.{
  ℕ, ◌+◌, ◌*◌, ◌/◌, ◌≡◌, refl, Bool, true, false, some, [], ◌∷◌, List, if◌then◌else◌, Option, ap,
}
use inf2004_aai19_embedded_s.Common.Int.{
  ℤ, pos, negsuc, pos_part, neg_part, sub_ℕ, ltb_ℤ, leb_ℤ, ◌+ℤ◌, ◌-ℤ◌,
}
use inf2004_aai19_embedded_s.Faults.{Fault, fault_raise, fault_test, fault_clear}
use inf2004_aai19_embedded_s.Motion.{
  Floats, Call, Answer, Board, Motion, TurnSign, ◌>>=◌, ask, motor_write, write_motors, motors_stop,
  now_ms, stop_pressed, motors_set, stop_drive, motion_arm_stop,
}
use inf2004_aai19_embedded_s.Motion.Gyro.{read_motion_gyro, settle_loop, settle_motion, integrate}
use inf2004_aai19_embedded_s.Motion.Drive.{
  lower_loop, raise_loop, clamp_adjustment, steering_adjustment, normalise_degrees, is_off_course,
  begin_drive, motion_drive_start, steer, keep_course, motion_drive_update, check_settled,
  motion_drive_finish, motion_drive_loop, motion_drive,
}
use inf2004_aai19_embedded_s.Motion.Turn.{motion_init}
use inf2004_aai19_embedded_s.Motion.Stop.{stop_is_final}
use inf2004_aai19_embedded_s.Motion.Safety.{Operation, perform_all, wheels_off}

abbrev minus_one : ℤ
minus_one = negsuc 0

abbrev product : ℤ → ℤ → ℤ
product a b =
    sub_ℕ (pos_part a * pos_part b + neg_part a * neg_part b)
      (pos_part a * neg_part b + neg_part a * pos_part b)

abbrev whole_numbers : Floats ℤ
whole_numbers = record {
  number = λ n. n;
  ratio = λ n d. pos (n / d);
  plus = λ a b. a +ℤ b;
  minus = λ a b. a -ℤ b;
  times = product;
  over = λ a b. sub_ℕ (pos_part a / pos_part b) (neg_part a / pos_part b);
  opposite = λ a. sub_ℕ (neg_part a) (pos_part a);
  less = ltb_ℤ;
  at_most = leb_ℤ;
  same = λ a b. if leb_ℤ a b then leb_ℤ b a else false;
  whole = λ a. a;
}

-- The clock goes twenty times as fast as the sleeps say.
abbrev reply : (c : Call ℤ) → ℕ → Answer c × ℕ
reply Call.now_us w = (w, w)
reply Call.stop_level w = (true, w)
reply Call.read_gyro w = ((true, pos 0), w + 300)
reply Call.reset_bus w = (tt, w)
reply Call.verify_config w = (true, w)
reply Call.init_imu w = (true, w)
reply Call.set_range w = (true, w)
reply (Call.sleep_ms ms) w = (tt, w + ms * 20000)
reply (Call.set_bias bias) w = (tt, w)

abbrev bench : Board ℕ ℤ
bench = record { answer = reply; floats = whole_numbers; polls = 8 }

abbrev still : Motion ℕ ℤ
still = record {
  world = 1000000;
  faults = 0;
  m1_a = 0;
  m1_b = 0;
  m2_a = 0;
  m2_b = 0;
  motors_powered = false;
  stop_armed = false;
  turn_state = TurnSign.positive;
  moving_recoveries = 0;
  gyro_uncertainty = pos 0;
  gyro_heading = pos 0;
  drive_active = false;
  drive_pending = false;
  drive_failed = false;
  drive_speed = pos 0;
  peak_adjustment = 0;
  drive_started_ms = 0;
  drive_elapsed_ms = 0;
  drive_duration_ms = 0;
  drive_previous_us = 0;
  target_heading = pos 0;
  start_heading = pos 0;
}

abbrev operations : List (Operation ℤ)
operations = Operation.init ∷ Operation.arm_stop ∷ Operation.drive true 150 (pos 3) ∷ []

abbrev outcome : Option (Unit {0}) × ℕ × Bool
outcome =
    let r = perform_all bench operations still in (r.0, r.1.drive_elapsed_ms, r.1.drive_active)

drives : outcome ≡ (some tt, 201, false)
unfolding ◌>>=◌ ask motor_write write_motors motors_stop now_ms stop_pressed motors_set stop_drive
    motion_arm_stop read_motion_gyro settle_loop settle_motion integrate lower_loop raise_loop
    clamp_adjustment steering_adjustment normalise_degrees is_off_course begin_drive
    motion_drive_start steer keep_course motion_drive_update check_settled motion_drive_finish
    motion_drive_loop motion_drive motion_init ◌+ℤ◌ ◌-ℤ◌ fault_raise fault_test fault_clear
drives = refl

wheels_off_example :
    let t = (perform_all bench operations still).1 in
    (t.m1_a ≡ 0) × (t.m1_b ≡ 0) × (t.m2_a ≡ 0) × (t.m2_b ≡ 0) × (t.motors_powered ≡ false)
wheels_off_example =
    wheels_off bench operations still (λ a. (refl, refl, refl, refl, refl)) (ap (λ p. p.0) drives)
      (ap (λ p. p.2) drives)

abbrev stopped : Motion ℕ ℤ
stopped = record still { faults = 256; stop_armed = true; drive_pending = false }

latched : fault_test Fault.stop_latched stopped.faults ≡ true
unfolding fault_test
latched = refl

stop_is_final_example :
    let t = (perform_all bench operations stopped).1 in
    (fault_test Fault.stop_latched t.faults ≡ true)
    × ((t.m1_a ≡ 0) × (t.m1_b ≡ 0) × (t.m2_a ≡ 0) × (t.m2_b ≡ 0) × (t.motors_powered ≡ false))
stop_is_final_example =
    stop_is_final bench operations stopped latched (refl, refl, refl, refl, refl)
