-- ===== src/Run/Follow.antt =====
-- getting_there.c: following one heading along the Wi-Fi signal.
use inf2004_aai19_embedded_s.Common.{
  ℕ, zero, suc, ◌+◌, ◌-◌, ◌^◌, ◌%◌, Bool, true, false, not, ◌&&◌, ◌||◌, List, [], ◌∷◌, get_or, set,
  u32, ltb, leb, ◌==◌, ◌/=◌, if◌then◌else◌,
}
use inf2004_aai19_embedded_s.Common.Int.{pos, ltb_ℤ}
use inf2004_aai19_embedded_s.LineSearch.{
  LinePair, line_reference, line_confirmed_gain, line_compare, line_median_reference,
  line_reference_declined, line_return_consistent,
}
use inf2004_aai19_embedded_s.Buzzer.{RobotCue}
use inf2004_aai19_embedded_s.Run.{
  Call, Robot, Failure, End, M, pure, stop, gets, modify, fail, ask, require, ◌>>=◌, ◌>>◌,
}
use inf2004_aai19_embedded_s.Run.Payload.{
  run_can_continue, save_checkpoint, check_payload, measure_pair,
}
use inf2004_aai19_embedded_s.Run.Travel.{
  translation_cost, block_reserve_ms, line_translation_ms, translate_block, return_along_line,
}
use inf2004_aai19_embedded_s.Run.Mat.{line_mat_block_ms, mat_steering_ready}

abbrev pub floor_block_ms : ℕ
floor_block_ms = 500

abbrev pub dip_probe_ms : ℕ
dip_probe_ms = 250

abbrev pub line_dip_max_probes : ℕ
line_dip_max_probes = 2

abbrev pub line_decline_positions : ℕ
line_decline_positions = 3

abbrev pub line_reference_positions : ℕ
line_reference_positions = 3

abbrev pub line_sweep_ms : ℕ
line_sweep_ms = 6000

abbrev pub line_profile_capacity : ℕ
line_profile_capacity = 32

-- `follow_end_t`
pub data FollowEnd : Type 0 where
  no_gain decline mat : FollowEnd

-- `follow_result_t`
pub record Followed : Type 0 where
  pub heading : ℕ
  pub progress : Bool
  pub consistent : Bool
  pub finish : FollowEnd
  pub position : ℕ
  pub baseline : LinePair

-- The variables of the loop of `follow_direction`.
pub record Line : Type 0 where
  pub position : ℕ
  pub best_position : ℕ
  pub segment_start : ℕ
  pub last_decline_position : ℕ
  pub decline_positions : ℕ
  pub best : LinePair
  pub recent : List LinePair
  pub recent_count : ℕ
  pub recent_next : ℕ
  pub decline_reference : LinePair
  pub dip_active : Bool
  pub progress : Bool

-- A part of the loop's body: on with the line and its latest reading, or out of the function.
pub data Turn : Type 0 where
  more : LinePair → Line → Turn
  done : Followed → Turn

abbrev pub zero_pair : LinePair
zero_pair = record {
  first = record { code = 0; spread = 0 };
  second = record { code = 0; spread = 0 };
}

-- The reference over the latest three positions; it only gets stronger.
unfoldable pub strengthen : Line → Line
strengthen l =
    let candidate =
      line_median_reference (get_or l.recent 0 zero_pair) (get_or l.recent 1 zero_pair)
        (get_or l.recent 2 zero_pair) in
    if l.recent_count == line_reference_positions
      && ltb_ℤ (pos 0) (line_confirmed_gain l.decline_reference candidate)
    then record l { decline_reference = candidate }
    else l

unfoldable pub remember : LinePair → Line → Line
remember current l =
    let counted =
      if ltb l.recent_count line_reference_positions then l.recent_count + 1 else l.recent_count in
    if l.dip_active
    then l
    else strengthen (record l {
      recent = set l.recent l.recent_next current;
      recent_next = (l.recent_next + 1) % line_reference_positions;
      recent_count = counted;
    })

-- A position that is confirmed to be stronger becomes the best one.
unfoldable pub improve : LinePair → LinePair → Line → Line
improve baseline current l =
    if ltb_ℤ (pos 0) (line_compare l.best current)
      || (l.progress
          && ltb_ℤ (pos 0) (line_compare baseline current)
          && ltb_ℤ (pos 0) (line_confirmed_gain l.best current))
    then record l {
      dip_active = false;
      decline_positions = 0;
      best = current;
      best_position = l.position;
      progress = true;
    }
    else l

-- A decline counts if it is the first, or a step away from the one counted last.
unfoldable pub count_decline : ℕ → Line → Line
count_decline step l =
    if l.decline_positions == 0 || leb step (u32 (l.position + 2 ^ 32 - l.last_decline_position))
    then record l {
      dip_active = true;
      decline_positions = l.decline_positions + 1;
      last_decline_position = l.position;
    }
    else record l { dip_active = true }

unfoldable pub clear_decline : LinePair → Line → Line
clear_decline current l = record l {
  decline_positions = 0;
  dip_active = not (line_return_consistent l.decline_reference current);
}

-- The powered time of the next block: a trial ends at its limit.
unfoldable pub next_block : ℕ → ℕ → Line → ℕ
next_block trial_ms step l =
    let left = u32 (trial_ms + 2 ^ 32 - l.position) in
    if not l.progress && ltb l.position trial_ms && ltb left step then left else step

-- What the way back to the best point may cost after a block.
unfoldable pub reserved_return : ℕ → Line → ℕ
reserved_return block l =
    translation_cost (u32 (l.position + block + block_reserve_ms + 2 ^ 32 - l.best_position))

module _ {W : Type 0} (robot : Robot W) where
  unfoldable pub record_point : M W (Unit {0})
  record_point = do
    count ← gets (λ s. s.profile_count)
    if leb line_profile_capacity count
        then (do ask robot Call.motion_stop; fail Failure.profile_full; stop End.fatal)
        else do
          modify (λ s. record s { profile_count = count + 1 })
          ask robot Call.now_ms
          ask robot Call.sampler_scan_id
          saved ← save_checkpoint robot
          require saved

  unfoldable pub forward_block_ms : M W ℕ
  forward_block_ms = do
    on_mat ← ask robot Call.on_mat
    modify (λ s. record s { step_on_mat = on_mat })
    pure (if on_mat then line_mat_block_ms else floor_block_ms)

  -- One forward block of the line; gives the new position.
  unfoldable pub forward : ℕ → ℕ → Bool → Line → M W ℕ
  forward heading block acquire_moving l = do
    actual ←
        translate_block robot true block heading l.position (reserved_return block l) acquire_moving
    pure (u32 (l.position + actual))

  -- The probes that are left; gives the line, the latest reading, and whether it recovered.
  unfoldable pub probe_loop : ℕ → ℕ → LinePair → Line → M W (Line × LinePair × Bool)
  probe_loop zero heading current l = pure (l, current, false)
  probe_loop (suc left) heading current l = do
    position ← forward heading dip_probe_ms false l
    let l' = record l { position = position }
    ask robot (Call.set_position heading position true)
    reading ← measure_pair robot
    saved ← save_checkpoint robot
    require saved
    if line_return_consistent l'.decline_reference reading
        then pure (l', reading, true)
        else probe_loop left heading reading l'

  unfoldable pub recheck_and_probe_dip : ℕ → Line → M W (Line × LinePair × Bool)
  recheck_and_probe_dip heading l = do
    ask robot Call.motion_stop
    check_payload robot
    reading ← measure_pair robot
    saved ← save_checkpoint robot
    require saved
    if line_return_consistent l.decline_reference reading
        then pure (l, reading, true)
        else probe_loop line_dip_max_probes heading reading l

  -- The decline persisted: back to the best point.
  unfoldable pub go_back : ℕ → Followed → Line → M W Followed
  go_back heading followed l = do
    return_along_line robot l.position l.best_position heading
    returned ← measure_pair robot
    pure (record followed {
      progress = l.progress;
      position = l.position;
      finish = FollowEnd.decline;
      consistent = line_return_consistent l.best returned;
    })

  -- The way on from a third weak position.
  unfoldable pub after_dip : ℕ → Followed → Line × LinePair × Bool → M W Turn
  after_dip heading followed (l, current, true) =
      pure (Turn.more current (record l { dip_active = false; decline_positions = 0 }))
  after_dip heading followed (l, current, false) = do
    result ← go_back heading followed l
    pure (Turn.done result)

  -- The decline's part of the loop's body.
  unfoldable pub judge_decline : ℕ → ℕ → Followed → LinePair → Line → M W Turn
  judge_decline step heading followed current l =
      let counted = count_decline step l in
      if not (line_reference_declined l.decline_reference current)
      then pure (Turn.more current (if l.dip_active then clear_decline current l else l))
      else if not (leb line_decline_positions counted.decline_positions)
      then pure (Turn.more current counted)
      else do dip ← recheck_and_probe_dip heading counted; after_dip heading followed dip

  -- The two limits at the end of the loop's body.
  unfoldable pub check_limits : ℕ → Followed → LinePair → Line → M W Turn
  check_limits trial_ms followed current l =
      if trial_ms /= 0 && not l.progress && leb trial_ms l.position && l.decline_positions == 0
      then pure (
          Turn.done (record followed {
            progress = l.progress;
            position = l.position;
            finish = FollowEnd.no_gain;
          }))
      else if not (leb line_sweep_ms (u32 (l.position + 2 ^ 32 - l.segment_start)))
      then pure (Turn.more current l)
      else do
        modify (λ s. record s { profile_count = 0; profile_id = u32 (s.profile_id + 1) })
        record_point
        pure (Turn.more current (record l { segment_start = l.position }))

  -- The end of the loop's body: the best point, the reference, and the limits.
  unfoldable pub end_turn : ℕ → Followed → Turn → M W Turn
  end_turn trial_ms followed (Turn.done result) = pure (Turn.done result)
  end_turn trial_ms followed (Turn.more current l) =
      check_limits trial_ms followed current
        (remember current (improve followed.baseline current l))

  -- From a stop on: the mat, or the reading and what it tells.
  unfoldable pub judge_stop : ℕ → ℕ → ℕ → Followed → Line → M W Turn
  judge_stop trial_ms step heading followed l = do
    ready ← mat_steering_ready robot
    if ready
        then pure (
            Turn.done (record followed {
              progress = l.progress;
              position = l.position;
              finish = FollowEnd.mat;
            }))
        else do
          ask robot (Call.set_position heading l.position true)
          current ← measure_pair robot
          record_point
          judged ← judge_decline step heading followed current l
          end_turn trial_ms followed judged

  -- The body of the loop.
  unfoldable pub follow_turn : ℕ → ℕ → Followed → Line → M W Turn
  follow_turn trial_ms heading followed l = do
    going ← run_can_continue robot
    require going
    step ← forward_block_ms
    ask robot (Call.set_reference (line_reference l.best))
    position ← forward heading (next_block trial_ms step l) true l
    judge_stop trial_ms step heading followed (record l { position = position })

  unfoldable pub follow_on : (Line → M W Followed) → Turn → M W Followed
  follow_on again (Turn.more current l) = again l
  follow_on again (Turn.done result) = pure result

  unfoldable pub follow_loop : ℕ → ℕ → ℕ → Followed → Line → M W Followed
  follow_loop zero trial_ms heading followed l = stop End.no_fuel
  follow_loop (suc fuel) trial_ms heading followed l = do
    turn ← follow_turn trial_ms heading followed l
    follow_on (follow_loop fuel trial_ms heading followed) turn

  -- The line as a new direction starts, with its first reading.
  abbrev pub first_line : LinePair → Line
  first_line best = record {
    position = 0;
    best_position = 0;
    segment_start = 0;
    last_decline_position = 0;
    decline_positions = 0;
    best = best;
    recent = best ∷ zero_pair ∷ zero_pair ∷ [];
    recent_count = 1;
    recent_next = 1;
    decline_reference = best;
    dip_active = false;
    progress = false;
  }

  abbrev pub starting : ℕ → LinePair → Followed
  starting heading best = record {
    heading = robot.normalised heading;
    progress = false;
    consistent = false;
    finish = FollowEnd.no_gain;
    position = 0;
    baseline = best;
  }

  unfoldable pub follow_direction : ℕ → ℕ → M W Followed
  follow_direction heading trial_ms = do
    modify (λ s. record s { profile_count = 0; profile_id = u32 (s.profile_id + 1) })
    ask robot (Call.cue_play RobotCue.cue_pass)
    turned ← ask robot (Call.turn_to_heading heading)
    require turned
    ask robot (Call.set_position heading 0 true)
    best ← measure_pair robot
    record_point
    follow_loop (line_translation_ms + 1) trial_ms heading (starting heading best) (first_line best)
