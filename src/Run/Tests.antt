-- ===== src/Run/Tests.antt =====
-- Whole approaches by robots on a line: the signal is strongest 1000 ms of travel ahead.
use inf2004_aai19_embedded_s.Common.{
  ℕ, ◌+◌, ◌-◌, ◌/◌, ◌≡◌, refl, Bool, true, false, none, some, [], ltb, leb, if◌then◌else◌,
}
use inf2004_aai19_embedded_s.Common.Int.{pos, negsuc, ◌-ℤ◌}
use inf2004_aai19_embedded_s.Client.{Result}
use inf2004_aai19_embedded_s.LineSearch.{
  line_reference, valid_pair, line_compare, line_confirmed_gain, line_pair_margin,
  line_reference_declined, line_median_reference,
}
use inf2004_aai19_embedded_s.Run.{
  Call, Answer, Robot, Run, ◌>>=◌, pure, stop, gets, modify, fail, ask,
}
use inf2004_aai19_embedded_s.Run.Payload.{
  check_payload, check_loop, run_can_continue, save_checkpoint, colour_gate, attempt_transfer,
  on_in_range, after_attempt, wait_for_wifi, wait_loop, given, measure_pair,
}
use inf2004_aai19_embedded_s.Run.Travel.{
  translation_cost, translate_block, reserve_translation, drive_block, drive_loop, arrive,
}
use inf2004_aai19_embedded_s.Run.Mat.{mat_steering_ready}
use inf2004_aai19_embedded_s.Run.Follow.{
  follow_direction, follow_loop, follow_on, follow_turn, forward_block_ms, forward, next_block,
  reserved_return, record_point, judge_stop, judge_decline, end_turn, check_limits, improve,
  remember, strengthen, count_decline,
}
use inf2004_aai19_embedded_s.Run.Frame.{refused_return}
use inf2004_aai19_embedded_s.Run.Approach.{
  approach, approach_beacon, begin_approach, approach_loop, approach_round,
}
use inf2004_aai19_embedded_s.Run.Reserve.{
  IsFinal, failures_of, approach_refuses_no_return, approach_ends,
}

record World : Type 0 where
  clock : ℕ
  place : ℕ
  elapsed : ℕ
  driving : Bool

abbrev strength : ℕ → ℕ
strength place = if ltb place 1000 then 80 - place / 50 else 60 + (place - 1000) / 20

abbrev later : ℕ → World → World
later ms w = record w { clock = w.clock + ms }

-- `close` is the travel from which on an attempt completes.
abbrev reply : ℕ → (c : Call) → World → Answer c × World
reply close Call.now_ms w = (w.clock, w)
reply close Call.stop_requested w = (false, w)
reply close Call.motion_stop w = (tt, record w { driving = false })
reply close Call.report_ok w = (true, w)
reply close Call.report_checkpoint w = (true, w)
reply close Call.sampler_init w = (tt, w)
reply close Call.sampler_quiesce w = (true, w)
reply close Call.sampler_sample w =
    (some (record { code = strength w.place; spread = 1 }), later 5000 w)
reply close Call.sampler_scan_id w = (0, w)
reply close Call.poll_moving w = (true, w)
reply close Call.arrival_check w = (false, w)
reply close Call.sensor_available w = (false, w)
reply close Call.arrival_reset w = (tt, w)
reply close Call.on_mat w = (false, w)
reply close Call.last_depth w = (negsuc 0, w)
reply close Call.note_lighter_mat w = (tt, w)
reply close Call.read_colour w = (none, w)
reply close Call.payload_attempt w =
    ((if leb close w.place then Result.complete else Result.not_close, true), w)
reply close Call.payload_retry w = ((Result.retry, false), w)
reply close Call.cue_stop w = (tt, w)
reply close Call.cue_busy w = (false, w)
reply close Call.drive_active w = (w.driving, w)
reply close Call.drive_update w = (true, record w { driving = false })
reply close Call.drive_elapsed w = (w.elapsed, w)
reply close Call.drive_finish w = (true, w)
reply close Call.learn_direction w = (true, w)
reply close Call.heading w = (0, w)
reply close (Call.set_close_threshold dbm) w = (tt, w)
reply close (Call.cue_play cue) w = (tt, w)
reply close (Call.pause_ms ms) w = (true, later ms w)
reply close (Call.sleep_ms ms) w = (tt, later ms w)
reply close (Call.turn_to_heading h) w = (true, w)
reply close (Call.set_position h ms forwards) w = (tt, w)
reply close (Call.set_reference sample) w = (tt, w)
reply close (Call.drive_start forwards ms h) w = (
  true,
  record w {
    driving = true;
    elapsed = ms;
    place = if forwards then w.place + ms else w.place - ms;
  },
)

abbrev rover : ℕ → Robot World
rover close = record {
  answer = reply close;
  plus = λ h degrees. h;
  normalised = λ h. h;
  estimate = λ readings. record { valid = false; vector_angle = pos 0; max_depth = negsuc 0 };
  polls = 10;
}

abbrev parked : Run World
parked = record {
  world = record { clock = 1000; place = 0; elapsed = 0; driving = false };
  started_ms = 0;
  translation_ms = 0;
  wifi_quiescent = true;
  in_range_cue_on = false;
  colour_arrived = false;
  step_on_mat = false;
  mat_scans_used = 0;
  profile_count = 0;
  profile_id = 0;
  failures = [];
}

approach_refuses_no_return_example :
    refused_return (failures_of (approach (rover 100000) parked)) ≡ false
approach_refuses_no_return_example = approach_refuses_no_return (rover 100000) parked refl

approach_ends_example : IsFinal (approach (rover 100000) parked)
approach_ends_example = approach_ends (rover 100000) parked refl

arrives : approach_beacon (rover 1000) parked ≡ true
unfolding approach_beacon approach begin_approach approach_loop approach_round ◌>>=◌ pure stop gets
    modify fail ask check_payload check_loop run_can_continue save_checkpoint colour_gate
    attempt_transfer on_in_range after_attempt wait_for_wifi wait_loop given measure_pair
    mat_steering_ready follow_direction follow_loop follow_on follow_turn forward_block_ms forward
    next_block reserved_return translation_cost translate_block reserve_translation drive_block
    drive_loop arrive record_point judge_stop judge_decline end_turn check_limits improve remember
    strengthen count_decline line_reference valid_pair line_compare line_confirmed_gain
    line_pair_margin line_reference_declined line_median_reference ◌-ℤ◌
arrives = refl
