-- ===== src/Motion.antt =====
-- getting_there/motion.c: the motors, the stop latch, straight drives and turns by the gyro. The static
-- variables are the fields of `Motion`, with the levels of the four PWM pins; the SDK, the clock, the
-- buttons and imu_mpu9250.c are answered by a `Board` over any type of worlds. A C float is a value of
-- any type with the operations of `Floats`. `none` as a result is a loop that goes on for longer than
-- the polls that it is given, which is no result of the program.
pub mod Gyro
pub mod Drive
pub mod Turn
pub mod Triple
pub mod Wheels
pub mod Driving
pub mod Turning
pub mod Safety
pub mod Latch
pub mod Stop
mod Tests
use inf2004_aai19_embedded_s.Common.{
  ℕ, zero, suc, ◌+◌, ◌-◌, ◌*◌, ◌/◌, ◌^◌, ◌%◌, Bool, true, false, not, ◌&&◌, ◌||◌, Option, none,
  some, u16, u32, ltb, leb, ◌==◌, ◌/=◌, if◌then◌else◌,
}
use inf2004_aai19_embedded_s.Common.Int.{ℤ, pos, negsuc, pos_part, neg_part, neg, ltb_ℤ, leb_ℤ}
use inf2004_aai19_embedded_s.Faults.{Fault, fault_raise, fault_test}

-- C's float. `number` is the conversion of an integer, `ratio` a decimal constant, `whole` the cast to int.
pub record Floats (F : Type 0) : Type 0 where
  pub number : ℤ → F
  pub ratio : ℕ → ℕ → F
  pub plus : F → F → F
  pub minus : F → F → F
  pub times : F → F → F
  pub over : F → F → F
  pub opposite : F → F
  pub less : F → F → Bool
  pub at_most : F → F → Bool
  pub same : F → F → Bool
  pub whole : F → ℤ

-- What is asked. `set_bias` writes the Z bias of the gyro.
pub data Call (F : Type 0) : Type 0 where
  now_us stop_level read_gyro reset_bus verify_config init_imu set_range : Call F
  sleep_ms : ℕ → Call F
  set_bias : F → Call F

-- A reading has the Z rate, the only one that is used.
abbrev pub Answer : {F : Type 0} → Call F → Type 0
Answer Call.now_us = ℕ
Answer Call.stop_level = Bool
Answer {F} Call.read_gyro = Bool × F
Answer Call.reset_bus = Unit {0}
Answer Call.verify_config = Bool
Answer Call.init_imu = Bool
Answer Call.set_range = Bool
Answer (Call.sleep_ms ms) = Unit {0}
Answer (Call.set_bias bias) = Unit {0}

-- `polls` bounds the loops that end by the clock.
pub record Board (W F : Type 0) : Type 0 where
  pub answer : (c : Call F) → W → Answer c × W
  pub floats : Floats F
  pub polls : ℕ

pub data TurnSign : Type 0 where
  unknown positive negative : TurnSign

pub record Motion (W F : Type 0) : Type 0 where
  pub world : W
  pub faults : ℕ
  pub m1_a : ℕ
  pub m1_b : ℕ
  pub m2_a : ℕ
  pub m2_b : ℕ
  pub motors_powered : Bool
  pub stop_armed : Bool
  pub turn_state : TurnSign
  pub moving_recoveries : ℕ
  pub gyro_uncertainty : F
  pub gyro_heading : F
  pub drive_active : Bool
  pub drive_pending : Bool
  pub drive_failed : Bool
  pub drive_speed : ℤ
  pub peak_adjustment : ℕ
  pub drive_started_ms : ℕ
  pub drive_elapsed_ms : ℕ
  pub drive_duration_ms : ℕ
  pub drive_previous_us : ℕ
  pub target_heading : F
  pub start_heading : F

-- An action.
abbrev pub M : Type 0 → Type 0 → Type 0 → Type 0
M W F A = Motion W F → Option A × Motion W F

module _ {W F A : Type 0} where
  abbrev pub pure : A → M W F A
  pure a s = (some a, s)

  abbrev pub unending : M W F A
  unending s = (none, s)

  abbrev pub gets : (Motion W F → A) → M W F A
  gets f s = (some (f s), s)

module _ {W F A B : Type 0} where
  abbrev pub continue : Option A × Motion W F → (A → M W F B) → Option B × Motion W F
  continue (some a, s) f = f a s
  continue (none, s) f = (none, s)

  infixl 5 ◌>>=◌ ◌>>◌
  unfoldable pub ◌>>=◌ : M W F A → (A → M W F B) → M W F B
  ◌>>=◌ m f s = continue (m s) f

  abbrev pub ◌>>◌ : M W F A → M W F B → M W F B
  m >> n = m >>= λ _. n

module _ {W F A B : Type 0} where
  abbrev pub on_some : Option A → M W F B → (A → M W F B) → M W F B
  on_some none n f = n
  on_some (some a) n f = f a

module _ {W F : Type 0} where
  abbrev pub modify : (Motion W F → Motion W F) → M W F (Unit {0})
  modify f s = (some tt, f s)

  unfoldable pub ask : Board W F → (c : Call F) → M W F (Answer c)
  ask board c s = let given = board.answer c s.world in (some given.0, record s { world = given.1 })

  abbrev pub raise : Fault → M W F (Unit {0})
  raise fault = modify (λ s. record s { faults = fault_raise fault s.faults })

-- The levels of a motor's two pins.
unfoldable pub motor_write : ℤ → Bool → ℕ × ℕ
motor_write speed forward_uses_a =
    let duty =
      if ltb_ℤ (pos 100) speed || ltb_ℤ speed (negsuc 99)
      then 100
      else pos_part speed + neg_part speed in
    let use_a = if leb_ℤ (pos 0) speed then forward_uses_a else not forward_uses_a in
    let level = u16 (duty * 100) in
    (if duty /= 0 && use_a then level else 0, if duty /= 0 && not use_a then level else 0)

module _ {W F : Type 0} where
  unfoldable pub write_motors : ℤ → ℤ → Motion W F → Motion W F
  write_motors left right s =
      let (a, b) = motor_write left true in
      let (c, d) = motor_write right false in record s { m1_a = a; m1_b = b; m2_a = c; m2_b = d }

  unfoldable pub motors_stop : M W F (Unit {0})
  motors_stop = modify (λ s. record (write_motors (pos 0) (pos 0) s) { motors_powered = false })

abbrev pub is_zero : ℤ → Bool
is_zero (pos zero) = true
is_zero _ = false

module _ {W F : Type 0} (board : Board W F) where
  unfoldable pub now_ms : M W F ℕ
  now_ms = do us ← ask board Call.now_us; pure (u32 (us / 1000))

  unfoldable pub stop_pressed : M W F Bool
  stop_pressed = do
    armed ← gets (λ s. s.stop_armed)
    level ← if armed then ask board Call.stop_level else pure true
    if not level then raise Fault.stop_latched else pure tt
    gets (λ s. fault_test Fault.stop_latched s.faults)

  unfoldable pub motors_set : ℤ → ℤ → M W F (Unit {0})
  motors_set left right = do
    armed ← gets (λ s. s.stop_armed)
    stopped ← if armed then stop_pressed else pure true
    let left' = if stopped then pos 0 else left
    let right' = if stopped then pos 0 else right
    modify (λ s. record (write_motors left' right' s) {
      motors_powered = not (is_zero left') || not (is_zero right');
    })

  unfoldable pub stop_drive : M W F (Unit {0})
  stop_drive = do
    was_powered ← gets (λ s. s.motors_powered)
    motors_stop
    active ← gets (λ s. s.drive_active)
    if not active then pure tt else do
      now ← now_ms
      modify (λ s.
          let elapsed = u32 (now + 2 ^ 32 - s.drive_started_ms) in
          record s {
            drive_elapsed_ms = if was_powered && elapsed == 0 then 1 else elapsed;
            drive_active = false;
          })

  unfoldable pub pause_loop : ℕ → ℕ → ℕ → M W F Bool
  pause_loop zero start duration_ms = unending
  pause_loop (suc polls) start duration_ms = do
    now ← now_ms
    if not (ltb (u32 (now + 2 ^ 32 - start)) duration_ms) then pure true else do
      stopped ← stop_pressed
      if stopped
          then (do motors_stop; pure false)
          else do ask board (Call.sleep_ms 5); pause_loop polls start duration_ms

  unfoldable pub pause_checked : ℕ → M W F Bool
  pause_checked duration_ms = do start ← now_ms; pause_loop board.polls start duration_ms

  unfoldable pub motion_arm_stop : M W F (Unit {0})
  motion_arm_stop = do modify (λ s. record s { stop_armed = true }); stop_pressed; pure tt
