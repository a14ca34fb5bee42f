-- ===== src/Motion/Gyro.antt =====
-- getting_there/motion.c: readings of the gyro, with their recovery, and the settling after a movement.
use inf2004_aai19_embedded_s.Common.{
  ℕ, zero, suc, ◌+◌, ◌-◌, ◌^◌, ◌%◌, Bool, true, false, not, ◌&&◌, ◌||◌, Option, none, some, u32,
  ltb, leb, if◌then◌else◌,
}
use inf2004_aai19_embedded_s.Common.Int.{pos, negsuc}
use inf2004_aai19_embedded_s.Faults.{Fault}
use inf2004_aai19_embedded_s.Motion.{
  Floats, Call, Board, M, pure, unending, gets, modify, ask, raise, ◌>>=◌, ◌>>◌, on_some, TurnSign,
  motors_stop, now_ms, stop_pressed, stop_drive,
}

-- The name of the movement that a reading is for.
pub data Movement : Type 0 where
  pre_drive drive pre_turn turn : Movement

abbrev pub is_turn : Movement → Bool
is_turn Movement.turn = true
is_turn _ = false

abbrev pub is_drive : Movement → Bool
is_drive Movement.drive = true
is_drive _ = false

abbrev pub recovery_attempts : ℕ
recovery_attempts = 2

abbrev pub max_moving_recoveries : ℕ
max_moving_recoveries = 2

abbrev pub max_recovery_gap_us : ℕ
max_recovery_gap_us = 20000

abbrev pub motor_settle_ms : ℕ
motor_settle_ms = 300

abbrev pub motion_sample_ms : ℕ
motion_sample_ms = 5

-- `uint64_t` difference of two times.
abbrev pub between_us : ℕ → ℕ → ℕ
between_us now before = (now + 2 ^ 64 - before) % 2 ^ 64

module _ {F : Type 0} (floats : Floats F) where
  abbrev pub turn_sign : TurnSign → F
  turn_sign TurnSign.positive = floats.number (pos 1)
  turn_sign TurnSign.negative = floats.opposite (floats.number (pos 1))
  turn_sign TurnSign.unknown = floats.number (pos 0)

  abbrev pub absolute : F → F
  absolute x = if floats.less x (floats.number (pos 0)) then floats.opposite x else x

  unfoldable pub set_turn_sign : F → TurnSign
  set_turn_sign sign =
      if floats.less (floats.number (pos 0)) sign
      then TurnSign.positive
      else if floats.less sign (floats.number (pos 0))
      then TurnSign.negative
      else TurnSign.unknown

  abbrev pub saturated : F → Bool
  saturated rate =
      floats.at_most (floats.number (pos 980)) rate
      || floats.at_most rate (floats.number (negsuc 979))

module _ {W F : Type 0} (board : Board W F) where
  -- The tries with the bus reset; the Z rate, and its time if it is asked for.
  unfoldable pub recover_loop : Bool → ℕ → M W F (Option (F × ℕ))
  recover_loop timed zero = pure none
  recover_loop timed (suc left) = do
    stopped ← stop_pressed board
    if stopped then pure none else do
      ask board Call.reset_bus
      verified ← ask board Call.verify_config
      stopped' ← stop_pressed board
      if stopped' then pure none else do
        reading ←
            if verified then ask board Call.read_gyro else pure (false, board.floats.number (pos 0))
        if not reading.0 then recover_loop timed left else do
          now ← if timed then ask board Call.now_us else pure 0
          last ← stop_pressed board
          pure (if last then none else some (reading.1, now))

  unfoldable pub recover_gyro_stopped : Bool → M W F (Option (F × ℕ))
  recover_gyro_stopped timed = recover_loop timed recovery_attempts

  -- The uncertainty that a recovered drive adds; whether it may go on.
  unfoldable pub count_recovery : F → ℕ → M W F Bool
  count_recovery rate gap = do
    let f = board.floats
    modify (λ s. record s {
      gyro_uncertainty = f.plus s.gyro_uncertainty (
          f.over (f.times (f.plus (f.number (pos 1000)) (absolute f rate)) (f.number (pos gap)))
            (f.number (pos 1000000)));
    })
    uncertain ← gets (λ s. f.less (f.number (pos 20)) s.gyro_uncertainty)
    if ltb max_recovery_gap_us gap || uncertain then (do raise Fault.imu; pure false) else do
      modify (λ s. record s { moving_recoveries = u32 (s.moving_recoveries + 1) })
      pure true

  -- A failed reading: the motors stop, and only then may the sensor be recovered.
  unfoldable pub recovered : Movement → ℕ → M W F (Option (F × ℕ))
  recovered movement previous = do
    active ← gets (λ s. s.drive_active)
    if active then stop_drive board else motors_stop
    many ← gets (λ s. leb max_moving_recoveries s.moving_recoveries)
    found ←
        if is_turn movement || is_drive movement && many
        then pure none
        else recover_gyro_stopped true
    on_some found (do raise Fault.imu; pure none)
        (λ sample. do
          certain ←
              if is_drive movement
              then count_recovery sample.0 (between_us sample.1 previous)
              else pure true
          pure (if certain then some sample else none))

  -- The heading is the sum of the rates over the times between the readings.
  unfoldable pub integrate : ℕ → F × ℕ → M W F (Option (F × ℕ))
  integrate previous (rate, now) = do
    let f = board.floats
    if saturated f rate then (do motors_stop; raise Fault.gyro_saturated; pure none) else do
      modify (λ s. record s {
        gyro_heading = f.plus s.gyro_heading (
            f.over (f.times rate (f.number (pos (between_us now previous))))
              (f.number (pos 1000000)));
      })
      pure (some (rate, now))

  -- The Z rate and its time, if the movement may go on.
  unfoldable pub read_motion_gyro : Movement → ℕ → M W F (Option (F × ℕ))
  read_motion_gyro movement previous = do
    stopped ← stop_pressed board
    if stopped then (do motors_stop; pure none) else do
      reading ← ask board Call.read_gyro
      now ← if reading.0 then ask board Call.now_us else pure 0
      found ← if reading.0 then pure (some (reading.1, now)) else recovered movement previous
      on_some found (pure none) (integrate previous)

  -- What ends a settling is its last reading; the time of the last one is given back.
  unfoldable pub settle_loop : ℕ → Movement → ℕ → ℕ → M W F (Option ℕ)
  settle_loop zero movement start previous = unending
  settle_loop (suc polls) movement start previous = do
    now ← now_ms board
    reading ← read_motion_gyro movement previous
    if not (ltb (u32 (now + 2 ^ 32 - start)) motor_settle_ms)
        then pure (elim reading [ none ↦ none | some sample ↦ some sample.1 ])
        else on_some reading (pure none) (λ sample. do
          ask board (Call.sleep_ms motion_sample_ms)
          settle_loop polls movement start sample.1)

  unfoldable pub settle_motion : Movement → ℕ → M W F (Option ℕ)
  settle_motion movement previous = do
    start ← now_ms board
    settle_loop board.polls movement start previous
