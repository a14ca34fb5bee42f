-- ===== src/Run/Payload.antt =====
-- getting_there.c: the checks before every step of a run, and the transfer at a stop.
use inf2004_aai19_embedded_s.Common.{
  ℕ, zero, suc, ◌+◌, ◌-◌, ◌^◌, Bool, true, false, not, Option, none, some, u32, leb, ◌/=◌,
  if◌then◌else◌,
}
use inf2004_aai19_embedded_s.Common.Int.{negsuc}
use inf2004_aai19_embedded_s.PackedBits.{rssi_missing_code}
use inf2004_aai19_embedded_s.Client.{Result}
use inf2004_aai19_embedded_s.LineSearch.{Sample, LinePair}
use inf2004_aai19_embedded_s.Buzzer.{RobotCue}
use inf2004_aai19_embedded_s.Run.{
  Call, Robot, Failure, End, M, pure, stop, gets, modify, fail, ask, require, ◌>>=◌, ◌>>◌,
}

abbrev pub max_run_ms : ℕ
max_run_ms = 900000

abbrev pub max_payload_attempts : ℕ
max_payload_attempts = 3

abbrev pub max_missing_samples : ℕ
max_missing_samples = 3

abbrev pub is_fatal : Result → Bool
is_fatal Result.fatal = true
is_fatal _ = false

-- A reading that was taken; `return PAYLOAD_FATAL` without one.
unfoldable pub given : {W A : Type 0} → Option A → M W A
given none = stop End.fatal
given (some a) = pure a

module _ {W : Type 0} (robot : Robot W) where
  unfoldable pub run_can_continue : M W Bool
  run_can_continue = do
    stopped ← ask robot Call.stop_requested
    if stopped then (do ask robot Call.motion_stop; pure false) else do
      reported ← ask robot Call.report_ok
      if not reported
          then (do ask robot Call.motion_stop; fail Failure.report_failed; pure false)
          else do
            now ← ask robot Call.now_ms
            begun ← gets (λ s. s.started_ms)
            if leb max_run_ms (u32 (now + 2 ^ 32 - begun))
                then (do ask robot Call.motion_stop; fail Failure.run_limit; pure false)
                else pure true

  unfoldable pub save_checkpoint : M W Bool
  save_checkpoint = do
    ask robot Call.motion_stop
    quiescent ← gets (λ s. s.wifi_quiescent)
    quiesced ← if quiescent then ask robot Call.sampler_quiesce else pure false
    if not quiesced then pure false else do
      saved ← ask robot Call.report_checkpoint
      if saved then pure true else (do fail Failure.report_failed; pure false)

  -- The close-range callback.
  unfoldable pub on_in_range : M W (Unit {0})
  on_in_range = do
    modify (λ s. record s { in_range_cue_on = true })
    ask robot (Call.cue_play RobotCue.cue_in_range)

  -- The colour gate of an attempt: whether it goes on to Bluetooth.
  unfoldable pub colour_gate : M W Bool
  colour_gate = do
    on_mat ← ask robot Call.arrival_check
    modify (λ s. record s { colour_arrived = on_mat })
    available ← if on_mat then pure false else ask robot Call.sensor_available
    if available then pure false else do
      ask robot (Call.set_close_threshold (if on_mat then negsuc 84 else negsuc 57))
      pure true

  unfoldable pub attempt_transfer : Bool → M W Result
  attempt_transfer was_close = do
    (result, announced) ←
        if was_close then ask robot Call.payload_retry else ask robot Call.payload_attempt
    if announced then on_in_range else pure tt
    cue_on ← gets (λ s. s.in_range_cue_on)
    if not cue_on
        then pure tt
        else do ask robot Call.cue_stop; modify (λ s. record s { in_range_cue_on = false })
    pure result

  -- What follows an attempt, with the attempts left after it.
  unfoldable pub after_attempt : M W (Unit {0}) → ℕ → Bool → Result → M W (Unit {0})
  after_attempt again left was_close Result.complete = stop End.complete
  after_attempt again left was_close Result.fatal = stop End.fatal
  after_attempt again left false Result.not_close = pure tt
  after_attempt again zero was_close result = again
  after_attempt again (suc left) was_close result = do
    paused ← ask robot (Call.pause_ms 200)
    require paused
    again

  -- The attempts that are left. Until one was close, each passes the colour gate.
  unfoldable pub check_loop : ℕ → Bool → M W (Unit {0})
  check_loop zero was_close = do fail Failure.payload_unconfirmed; stop End.fatal
  check_loop (suc left) was_close = do
    going ← run_can_continue
    require going
    saved ← save_checkpoint
    require saved
    open_gate ← if was_close then pure true else colour_gate
    if not open_gate then pure tt else do
      result ← attempt_transfer was_close
      kept ← if is_fatal result then pure true else save_checkpoint
      require kept
      after_attempt (check_loop left true) left was_close result

  unfoldable pub check_payload : M W (Unit {0})
  check_payload = do
    modify (λ s. record s { colour_arrived = false })
    check_loop max_payload_attempts false

  unfoldable pub wait_loop : ℕ → M W Sample
  wait_loop zero = stop End.fatal
  wait_loop (suc left) = do
    taken ← ask robot Call.sampler_sample
    sample ← given taken
    saved ← save_checkpoint
    require saved
    if sample.code /= rssi_missing_code then pure sample else do
      check_payload
      paused ← ask robot (Call.pause_ms 500)
      require paused
      wait_loop left

  unfoldable pub wait_for_wifi : M W Sample
  wait_for_wifi = wait_loop max_missing_samples

  unfoldable pub measure_pair : M W LinePair
  measure_pair = do
    first ← wait_for_wifi
    second ← wait_for_wifi
    pure (record { first = first; second = second })
