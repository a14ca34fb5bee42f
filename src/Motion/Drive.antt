-- ===== src/Motion/Drive.antt =====
-- getting_there/motion.c: a straight drive, from its start to the check of the heading after it.
use inf2004_aai19_embedded_s.Common.{
  ℕ, zero, suc, ◌+◌, ◌-◌, ◌^◌, Bool, true, false, not, ◌||◌, Option, none, some, u32, ltb, leb,
  ◌==◌, if◌then◌else◌,
}
use inf2004_aai19_embedded_s.Common.Int.{ℤ, pos, negsuc, pos_part, neg_part, neg, ltb_ℤ, ◌+ℤ◌, ◌-ℤ◌}
use inf2004_aai19_embedded_s.Faults.{Fault}
use inf2004_aai19_embedded_s.Motion.{
  Floats, Call, Board, Motion, M, pure, unending, gets, modify, ask, raise, ◌>>=◌, ◌>>◌, on_some,
  motors_set, now_ms, stop_pressed, stop_drive,
}
use inf2004_aai19_embedded_s.Motion.Gyro.{
  Movement, turn_sign, absolute, read_motion_gyro, settle_motion, motion_sample_ms,
}

abbrev pub drive_duty_percent : ℕ
drive_duty_percent = 35

abbrev pub max_steering_adjustment : ℕ
max_steering_adjustment = 8

abbrev pub magnitude : ℤ → ℕ
magnitude x = pos_part x + neg_part x

module _ {F : Type 0} (floats : Floats F) where
  unfoldable pub lower_loop : ℕ → F → Option F
  lower_loop zero angle = none
  lower_loop (suc left) angle =
      let rest = lower_loop left (floats.minus angle (floats.number (pos 360))) in
      if floats.less (floats.number (pos 180)) angle then rest else some angle

  unfoldable pub raise_loop : ℕ → F → Option F
  raise_loop zero angle = none
  raise_loop (suc left) angle =
      let rest = raise_loop left (floats.plus angle (floats.number (pos 360))) in
      if floats.less angle (floats.number (negsuc 179)) then rest else some angle

  unfoldable pub clamp_adjustment : ℤ → ℤ → ℤ
  clamp_adjustment speed adjustment =
      let room = magnitude speed - 1 in
      let limit = if ltb max_steering_adjustment room then max_steering_adjustment else room in
      let below = if ltb_ℤ (pos limit) adjustment then pos limit else adjustment in
      if ltb_ℤ below (neg limit) then neg limit else below

  unfoldable pub steering_adjustment : ℤ → F → F → F → ℤ
  steering_adjustment speed yaw_error yaw_rate sign =
      let correction = floats.times sign (
        floats.plus (floats.times (floats.ratio 65 100) yaw_error)
          (floats.times (floats.ratio 10 100) yaw_rate)) in
      let half =
        if floats.at_most (floats.number (pos 0)) correction
        then floats.ratio 1 2
        else floats.opposite (floats.ratio 1 2) in
      clamp_adjustment speed (floats.whole (floats.plus correction half))

module _ {W F : Type 0} (board : Board W F) where
  unfoldable pub normalise_degrees : F → M W F F
  normalise_degrees angle =
      on_some (lower_loop board.floats board.polls angle) unending
        (λ a. on_some (raise_loop board.floats board.polls a) unending (λ b. pure b))

  -- Whether a heading error and the gyro's uncertainty are more than a drive may have.
  unfoldable pub is_off_course : F → Motion W F → Bool
  is_off_course yaw_error s =
      board.floats.less (board.floats.number (pos 25))
        (board.floats.plus (absolute board.floats yaw_error) s.gyro_uncertainty)

  unfoldable pub begin_drive : Bool → ℕ → F → M W F Bool
  begin_drive forwards duration_ms heading = do
    let speed = if forwards then pos drive_duty_percent else neg drive_duty_percent
    modify (λ s. record s {
      drive_speed = speed;
      start_heading = s.gyro_heading;
      target_heading = board.floats.times heading (turn_sign board.floats s.turn_state);
      drive_duration_ms = duration_ms;
      drive_elapsed_ms = 0;
      peak_adjustment = 0;
      drive_failed = false;
    })
    now ← now_ms board
    us ← ask board Call.now_us
    modify (λ s. record s {
      drive_started_ms = now;
      drive_previous_us = us;
      drive_pending = true;
      drive_active = true;
    })
    motors_set board speed speed
    pure true

  unfoldable pub motion_drive_start : Bool → ℕ → F → M W F Bool
  motion_drive_start forwards duration_ms heading = do
    s ← gets (λ s. s)
    blocked ← if s.drive_pending || not s.stop_armed then pure true else stop_pressed board
    if blocked
          || board.floats.same (turn_sign board.floats s.turn_state) (board.floats.number (pos 0))
          || duration_ms == 0
        then (do stop_drive board; pure false)
        else do
          us ← ask board Call.now_us
          reading ← read_motion_gyro board Movement.pre_drive us
          on_some reading (pure false) (λ sample. do
            t ← gets (λ t. t)
            error ← normalise_degrees (
                board.floats.minus t.gyro_heading
                  (board.floats.times heading (turn_sign board.floats t.turn_state)))
            if is_off_course error t
                then (do raise Fault.heading; pure false)
                else begin_drive forwards duration_ms heading)

  unfoldable pub fail_drive : M W F Bool
  fail_drive = do stop_drive board; modify (λ s. record s { drive_failed = true }); pure false

  unfoldable pub steer : F → F → M W F Bool
  steer yaw_error rate = do
    s ← gets (λ s. s)
    let adjustment =
        steering_adjustment board.floats s.drive_speed yaw_error rate
          (turn_sign board.floats s.turn_state)
    modify (λ s. record s {
      peak_adjustment =
          if ltb s.peak_adjustment (magnitude adjustment)
          then magnitude adjustment
          else s.peak_adjustment;
    })
    motors_set board (s.drive_speed +ℤ adjustment) (s.drive_speed -ℤ adjustment)
    pure true

  unfoldable pub keep_course : F × ℕ → M W F Bool
  keep_course sample = do
    modify (λ s. record s { drive_previous_us = sample.1 })
    s ← gets (λ s. s)
    yaw_error ← normalise_degrees (board.floats.minus s.gyro_heading s.target_heading)
    if is_off_course yaw_error s
        then (do failed ← fail_drive; raise Fault.heading; pure failed)
        else if not s.drive_active
        then pure true
        else do
          now ← now_ms board
          if leb s.drive_duration_ms (u32 (now + 2 ^ 32 - s.drive_started_ms))
              then (do stop_drive board; pure true)
              else steer yaw_error sample.0

  unfoldable pub motion_drive_update : M W F Bool
  motion_drive_update = do
    s ← gets (λ s. s)
    if not s.drive_active then pure (not s.drive_failed) else do
      reading ← read_motion_gyro board Movement.drive s.drive_previous_us
      on_some reading fail_drive keep_course

  unfoldable pub motion_drive_elapsed : M W F ℕ
  motion_drive_elapsed = do
    s ← gets (λ s. s)
    if not s.drive_active
        then pure s.drive_elapsed_ms
        else do now ← now_ms board; pure (u32 (now + 2 ^ 32 - s.drive_started_ms))

  unfoldable pub check_settled : ℕ → M W F Bool
  check_settled previous = do
    modify (λ s. record s { drive_previous_us = previous })
    s ← gets (λ s. s)
    yaw_error ← normalise_degrees (board.floats.minus s.gyro_heading s.target_heading)
    if is_off_course yaw_error s then (do raise Fault.heading; pure false) else pure true

  unfoldable pub motion_drive_finish : M W F Bool
  motion_drive_finish = do
    stop_drive board
    s ← gets (λ s. s)
    if not s.drive_pending then pure (not s.drive_failed) else do
      modify (λ t. record t { drive_pending = false })
      over ← if s.drive_failed then pure true else stop_pressed board
      if over then pure false else do
        settled ← settle_motion board Movement.drive s.drive_previous_us
        on_some settled (pure false) check_settled

  unfoldable pub motion_drive_loop : ℕ → M W F (Unit {0})
  motion_drive_loop zero = unending
  motion_drive_loop (suc polls) = do
    active ← gets (λ s. s.drive_active)
    going ← if active then motion_drive_update else pure false
    still ← gets (λ s. s.drive_active)
    if not going then pure tt else do
      if still then ask board (Call.sleep_ms motion_sample_ms) else pure tt
      motion_drive_loop polls

  unfoldable pub motion_drive : Bool → ℕ → F → M W F Bool
  motion_drive forwards duration_ms heading = do
    begun ← motion_drive_start forwards duration_ms heading
    if not begun then pure false else do motion_drive_loop board.polls; motion_drive_finish
