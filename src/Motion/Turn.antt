-- ===== src/Motion/Turn.antt =====
-- getting_there/motion.c: turns by the gyro, the gyro's calibration, and the start-up of the motors.
use inf2004_aai19_embedded_s.Common.{
  ℕ, zero, suc, ◌+◌, ◌-◌, ◌^◌, Bool, true, false, not, ◌&&◌, ◌||◌, Option, none, some, u32, leb,
  ◌==◌, if◌then◌else◌,
}
use inf2004_aai19_embedded_s.Common.Int.{pos, negsuc, neg}
use inf2004_aai19_embedded_s.Faults.{Fault, fault_clear}
use inf2004_aai19_embedded_s.Motion.{
  Floats, Call, Board, Motion, M, pure, unending, gets, modify, ask, raise, ◌>>=◌, ◌>>◌, on_some,
  TurnSign, motors_set, motors_stop, now_ms, stop_pressed, stop_drive, pause_checked,
}
use inf2004_aai19_embedded_s.Motion.Gyro.{
  Movement, turn_sign, set_turn_sign, read_motion_gyro, recover_gyro_stopped, settle_motion,
  motion_sample_ms,
}
use inf2004_aai19_embedded_s.Motion.Drive.{normalise_degrees}

abbrev pub turn_duty_percent : ℕ
turn_duty_percent = 25

abbrev pub turn_slow_duty_percent : ℕ
turn_slow_duty_percent = 20

abbrev pub turn_max_corrections : ℕ
turn_max_corrections = 2

abbrev pub turn_correction_max_ms : ℕ
turn_correction_max_ms = 200

abbrev pub turn_timeout_ms : ℕ
turn_timeout_ms = 6000

abbrev pub turn_start_timeout_ms : ℕ
turn_start_timeout_ms = 1000

-- What a turn keeps: where it started and when, how far it is to go, the try, and the segment's start.
pub record Segment (F : Type 0) : Type 0 where
  pub degrees : F
  pub heading_before : F
  pub turn_started_ms : ℕ
  pub attempt : ℕ
  pub direction : Bool
  pub segment_heading : F
  pub segment_started_ms : ℕ

-- The search for the gyro's sign.
pub record Candidate (F : Type 0) : Type 0 where
  pub sign_candidate : F
  pub sign_samples : ℕ

module _ {F : Type 0} (floats : Floats F) where
  -- `direction * x`
  abbrev pub along : Bool → F → F
  along direction x = floats.times (floats.number (if direction then pos 1 else negsuc 0)) x

  unfoldable pub turn_error : {W : Type 0} → F → F → Motion W F → F
  turn_error degrees heading_before s =
      floats.minus degrees
        (floats.times (turn_sign floats s.turn_state) (floats.minus s.gyro_heading heading_before))

  unfoldable pub is_within_tolerance : F → Bool
  is_within_tolerance error =
      floats.at_most error (floats.number (pos 2))
      && floats.at_most (floats.number (negsuc 1)) error

  unfoldable pub turn_duty : F → ℕ
  turn_duty remaining =
      if floats.at_most remaining (floats.number (pos 25))
      then turn_slow_duty_percent
      else turn_duty_percent

  abbrev pub is_unknown : TurnSign → Bool
  is_unknown sign = floats.same (turn_sign floats sign) (floats.number (pos 0))

  unfoldable pub next_candidate : F → Candidate F → Candidate F
  next_candidate rate c =
      let candidate =
        if floats.less (floats.number (pos 5)) rate
        then floats.number (pos 1)
        else if floats.less rate (floats.number (negsuc 4))
        then floats.opposite (floats.number (pos 1))
        else floats.number (pos 0) in
      if floats.same candidate (floats.number (pos 0))
      then record c { sign_samples = 0 }
      else if floats.same candidate c.sign_candidate
      then record c { sign_samples = c.sign_samples + 1 }
      else record { sign_candidate = candidate; sign_samples = 1 }

  -- Whether the segment's target is reached, or will be by coasting.
  unfoldable pub is_reached : {W : Type 0} → Segment F → F → Motion W F → Bool
  is_reached g rate s =
      let sign = turn_sign floats s.turn_state in
      let remaining = along g.direction (turn_error g.degrees g.heading_before s) in
      let projected = floats.times (along g.direction sign) rate in
      let forward =
        if floats.less projected (floats.number (pos 0))
        then floats.number (pos 0)
        else projected in
      not (is_unknown s.turn_state)
      && (floats.at_most remaining (floats.number (pos 2))
          || g.attempt == 0 && floats.at_most remaining (floats.times forward (floats.ratio 3 100)))

module _ {W F : Type 0} (board : Board W F) where
  -- The wheels turn against each other.
  unfoldable pub spin : Bool → ℕ → M W F (Unit {0})
  spin direction duty =
      motors_set board (if direction then neg duty else pos duty)
        (if direction then pos duty else neg duty)

  abbrev pub abandon : {A : Type 0} → Fault → A → M W F A
  abandon fault a = do motors_stop; raise fault; pure a

  unfoldable pub learn_sign : Bool → F → Candidate F → M W F (Candidate F)
  learn_sign direction rate c = do
    state ← gets (λ s. s.turn_state)
    if not (is_unknown board.floats state) then pure c else do
      let next = next_candidate board.floats rate c
      if leb 3 next.sign_samples
          then modify (λ s. record s {
            turn_state =
                set_turn_sign board.floats (along board.floats direction next.sign_candidate);
          })
          else pure tt
      pure next

  -- The segment goes on, its duty by what remains.
  unfoldable pub spin_on : Segment F → M W F (Unit {0})
  spin_on g = do
    remaining ←
        gets (λ s.
          along board.floats g.direction (turn_error board.floats g.degrees g.heading_before s))
    spin g.direction (turn_duty board.floats remaining)
    ask board (Call.sleep_ms motion_sample_ms)

  -- A segment, until it is to stop; the time of the last reading, or none if the turn has failed.
  unfoldable pub segment_loop : ℕ → Segment F → ℕ → Candidate F → M W F (Option ℕ)
  segment_loop zero g previous c = unending
  segment_loop (suc polls) g previous c = do
    now ← now_ms board
    if leb turn_timeout_ms (u32 (now + 2 ^ 32 - g.turn_started_ms))
        then abandon Fault.turn none
        else do
          reading ← read_motion_gyro board Movement.turn previous
          on_some reading (pure none) (λ sample. do
            next ← learn_sign g.direction sample.0 c
            s ← gets (λ s. s)
            let progress =
                board.floats.times
                  (along board.floats g.direction (turn_sign board.floats s.turn_state))
                  (board.floats.minus s.gyro_heading g.segment_heading)
            if is_reached board.floats g sample.0 s
                then pure (some sample.1)
                else if board.floats.less progress (board.floats.number (negsuc 2))
                then abandon Fault.heading none
                else do
                  later ← now_ms board
                  if leb turn_start_timeout_ms (u32 (later + 2 ^ 32 - g.segment_started_ms))
                        && board.floats.less progress (board.floats.number (pos 1))
                      then abandon Fault.turn none
                      else do
                        last ← if g.attempt == 0 then pure g.segment_started_ms else now_ms board
                        if not (g.attempt == 0)
                              && leb turn_correction_max_ms
                                  (u32 (last + 2 ^ 32 - g.segment_started_ms))
                            then pure (some sample.1)
                            else do spin_on g; segment_loop polls g sample.1 next)

  -- The first segment and the corrections; the attempts that are left.
  unfoldable pub attempt_loop : ℕ → ℕ → F → F → ℕ → ℕ → M W F Bool
  attempt_loop zero attempt degrees heading_before start previous = abandon Fault.turn false
  attempt_loop (suc left) attempt degrees heading_before start previous = do
    s ← gets (λ s. s)
    let error = turn_error board.floats degrees heading_before s
    if not (is_unknown board.floats s.turn_state) && is_within_tolerance board.floats error
        then pure true
        else do
          let direction = board.floats.less (board.floats.number (pos 0)) error
          now ← now_ms board
          spin direction (turn_duty board.floats (along board.floats direction error))
          let g : Segment F = record {
            degrees = degrees;
            heading_before = heading_before;
            turn_started_ms = start;
            attempt = attempt;
            direction = direction;
            segment_heading = s.gyro_heading;
            segment_started_ms = now;
          }
          turned ←
              segment_loop board.polls g previous
                (record { sign_candidate = board.floats.number (pos 0); sign_samples = 0 })
          on_some turned (pure false) (λ at. do
            motors_stop
            settled ← settle_motion board Movement.turn at
            on_some settled (pure false) (λ end. do
              error' ← gets (turn_error board.floats degrees heading_before)
              if is_within_tolerance board.floats error'
                  then pure true
                  else attempt_loop left (attempt + 1) degrees heading_before start end))

  unfoldable pub turn_degrees : F → M W F Bool
  turn_degrees degrees = do
    stopped ← stop_pressed board
    if stopped
        then (do motors_stop; pure false)
        else if board.floats.same degrees (board.floats.number (pos 0))
        then pure true
        else do
          before ← ask board Call.now_us
          reading ← read_motion_gyro board Movement.pre_turn before
          on_some reading (pure false) (λ sample. do
            heading_before ← gets (λ s. s.gyro_heading)
            start ← now_ms board
            us ← ask board Call.now_us
            attempt_loop (turn_max_corrections + 1) 0 degrees heading_before start us)

  unfoldable pub turn_to_heading : F → M W F Bool
  turn_to_heading heading = do
    s ← gets (λ s. s)
    if is_unknown board.floats s.turn_state then pure false else do
      error ← normalise_degrees board (
          board.floats.minus heading
            (board.floats.times (turn_sign board.floats s.turn_state) s.gyro_heading))
      turn_degrees error

  unfoldable pub motion_learn_direction : M W F Bool
  motion_learn_direction = do
    turned ← turn_degrees (board.floats.number (pos 15))
    back ← if turned then turn_to_heading (board.floats.number (pos 0)) else pure false
    motors_stop
    pure back

  unfoldable pub motion_heading : Motion W F → F
  motion_heading s = board.floats.times (turn_sign board.floats s.turn_state) s.gyro_heading

  -- The readings that are left, and the sum of those taken.
  unfoldable pub calibrate_loop : ℕ → F → M W F (Option F)
  calibrate_loop zero sum = pure (some sum)
  calibrate_loop (suc left) sum = do
    reading ← ask board Call.read_gyro
    found ← if reading.0 then pure (some (reading.1, 0)) else recover_gyro_stopped board false
    on_some found (do raise Fault.imu; pure none)
        (λ sample. do
          paused ← pause_checked board 10
          if paused then calibrate_loop left (board.floats.plus sum sample.0) else pure none)

  unfoldable pub calibrate_gyro : M W F Bool
  calibrate_gyro = do
    ask board (Call.set_bias (board.floats.number (pos 0)))
    sum ← calibrate_loop 200 (board.floats.number (pos 0))
    on_some sum (pure false) (λ total. do
      ask board (Call.set_bias (board.floats.over total (board.floats.number (pos 200))))
      pure true)

  unfoldable pub motion_calibrate : M W F Bool
  motion_calibrate = do
    stop_drive board
    modify (λ s. record s {
      drive_pending = false;
      drive_failed = false;
      gyro_heading = board.floats.number (pos 0);
      moving_recoveries = 0;
      gyro_uncertainty = board.floats.number (pos 0);
      turn_state = set_turn_sign board.floats (board.floats.number (pos 0));
    })
    calibrate_gyro

  unfoldable pub motion_init : M W F Bool
  motion_init = do
    motors_stop
    modify (λ s. record s { moving_recoveries = 0; gyro_uncertainty = board.floats.number (pos 0) })
    found ← ask board Call.init_imu
    ranged ← if found then ask board Call.set_range else pure false
    if not ranged
        then (do raise Fault.imu; pure false)
        else do modify (λ s. record s { faults = fault_clear Fault.imu s.faults }); pure true
