-- ===== src/Run.antt =====
-- getting_there/getting_there.c, the program that looks for the access point: its state, and what it
-- asks of the other parts. The static variables are the fields of `Run`; a call of another part is
-- `ask`, answered by a `Robot` over any type of worlds, so a theorem holds whatever the sensors, the
-- radio and the clock answer. A heading is a C float, kept as its bits: the two computations on
-- headings are the robot's. `payload_result_t` is the way a function ends: PAYLOAD_NOT_CLOSE is `ok`,
-- any other result of a function here is `ended`, which every caller passes on.
pub mod Payload
pub mod Travel
pub mod Mat
pub mod Follow
pub mod Approach
pub mod Triple
pub mod Frame
pub mod Still
pub mod Budget
pub mod Returns
pub mod Lines
pub mod Reserve
mod Tests
use inf2004_aai19_embedded_s.Common.{
  ℕ, Bool, true, false, not, Option, List, [], ◌∷◌, if◌then◌else◌,
}
use inf2004_aai19_embedded_s.Common.Int.{ℤ}
use inf2004_aai19_embedded_s.Faults.{Fault}
use inf2004_aai19_embedded_s.Client.{Result}
use inf2004_aai19_embedded_s.LineSearch.{Sample}
use inf2004_aai19_embedded_s.Colour.{Reading}
use inf2004_aai19_embedded_s.Buzzer.{RobotCue}

-- What is asked of motion.c, wifi_sampler.c, payload_client.c, colour_sensor.c, run_report.c,
-- robot_cues.c and the clock.
pub data Call : Type 0 where
  now_ms stop_requested motion_stop report_ok report_checkpoint : Call
  sampler_init sampler_quiesce sampler_sample sampler_scan_id poll_moving : Call
  arrival_check sensor_available arrival_reset on_mat last_depth note_lighter_mat : Call
  read_colour payload_attempt payload_retry cue_stop cue_busy : Call
  drive_active drive_update drive_elapsed drive_finish learn_direction heading : Call
  set_close_threshold : ℤ → Call
  cue_play : RobotCue → Call
  pause_ms sleep_ms turn_to_heading : ℕ → Call
  set_position : ℕ → ℕ → Bool → Call
  set_reference : Sample → Call
  drive_start : Bool → ℕ → ℕ → Call

-- The type of a call's answer. A reading is `none` where the call returns false, and an attempt's
-- answer comes with whether it called the close-range callback.
abbrev pub Answer : Call → Type 0
Answer Call.now_ms = ℕ
Answer Call.stop_requested = Bool
Answer Call.motion_stop = Unit {0}
Answer Call.report_ok = Bool
Answer Call.report_checkpoint = Bool
Answer Call.sampler_init = Unit {0}
Answer Call.sampler_quiesce = Bool
Answer Call.sampler_sample = Option Sample
Answer Call.sampler_scan_id = ℕ
Answer Call.poll_moving = Bool
Answer Call.arrival_check = Bool
Answer Call.sensor_available = Bool
Answer Call.arrival_reset = Unit {0}
Answer Call.on_mat = Bool
Answer Call.last_depth = ℤ
Answer Call.note_lighter_mat = Unit {0}
Answer Call.read_colour = Option Reading
Answer Call.payload_attempt = Result × Bool
Answer Call.payload_retry = Result × Bool
Answer Call.cue_stop = Unit {0}
Answer Call.cue_busy = Bool
Answer Call.drive_active = Bool
Answer Call.drive_update = Bool
Answer Call.drive_elapsed = ℕ
Answer Call.drive_finish = Bool
Answer Call.learn_direction = Bool
Answer Call.heading = ℕ
Answer (Call.set_close_threshold dbm) = Unit {0}
Answer (Call.cue_play cue) = Unit {0}
Answer (Call.pause_ms ms) = Bool
Answer (Call.sleep_ms ms) = Unit {0}
Answer (Call.turn_to_heading h) = Bool
Answer (Call.set_position h ms forwards) = Unit {0}
Answer (Call.set_reference sample) = Unit {0}
Answer (Call.drive_start forwards ms h) = Bool

-- `colour_scan_result_t`, the fields that the program reads.
pub record Estimate : Type 0 where
  pub valid : Bool
  pub vector_angle : ℤ
  pub max_depth : ℤ

-- `plus` is the sum of a heading and whole degrees, `normalised` is `line_normalise_heading`, and
-- `estimate` is `colour_scan_estimate` at the angles 0, 30, … 330. `polls` bounds the loop of one
-- powered block.
pub record Robot (W : Type 0) : Type 0 where
  pub answer : (c : Call) → W → Answer c × W
  pub plus : ℕ → ℤ → ℕ
  pub normalised : ℕ → ℕ
  pub estimate : List Reading → Estimate
  pub polls : ℕ

-- The places where the program raises a fault. A refusal by the travel budget is noted with the
-- direction of the refused block.
pub data Failure : Type 0 where
  report_failed run_limit payload_unconfirmed mat_unreached profile_full : Failure
  duration_unexpected no_decline no_direction : Failure
  budget_refused : Bool → Failure

abbrev pub fault_of : Failure → Fault
fault_of Failure.report_failed = Fault.report
fault_of Failure.run_limit = Fault.run_limit
fault_of Failure.payload_unconfirmed = Fault.payload
fault_of Failure.mat_unreached = Fault.payload
fault_of Failure.profile_full = Fault.profile
fault_of Failure.duration_unexpected = Fault.translation_limit
fault_of Failure.no_decline = Fault.no_direction
fault_of Failure.no_direction = Fault.no_direction
fault_of (Failure.budget_refused forwards) = Fault.translation_limit

pub record Run (W : Type 0) : Type 0 where
  pub world : W
  pub started_ms : ℕ
  pub translation_ms : ℕ
  pub wifi_quiescent : Bool
  pub in_range_cue_on : Bool
  pub colour_arrived : Bool
  pub step_on_mat : Bool
  pub mat_scans_used : ℕ
  pub profile_count : ℕ
  pub profile_id : ℕ
  pub failures : List Failure

-- How a function ends other than by PAYLOAD_NOT_CLOSE. The last two are no results of the program:
-- the loop of a powered block, or another loop, went on for longer than it was given.
pub data End : Type 0 where
  complete fatal unending_drive no_fuel : End

pub data Out (W A : Type 0) : Type 0 where
  ok : A → Run W → Out W A
  ended : End → Run W → Out W A

abbrev pub M : Type 0 → Type 0 → Type 0
M W A = Run W → Out W A

module _ {W A : Type 0} where
  unfoldable pub pure : A → M W A
  pure a s = Out.ok a s

  unfoldable pub stop : End → M W A
  stop e s = Out.ended e s

  unfoldable pub gets : (Run W → A) → M W A
  gets f s = Out.ok (f s) s

module _ {W A B : Type 0} where
  abbrev pub continue : Out W A → (A → M W B) → Out W B
  continue (Out.ok a s) f = f a s
  continue (Out.ended e s) f = Out.ended e s

  infixl 5 ◌>>=◌ ◌>>◌
  unfoldable pub ◌>>=◌ : M W A → (A → M W B) → M W B
  ◌>>=◌ m f s = continue (m s) f

  abbrev pub ◌>>◌ : M W A → M W B → M W B
  m >> n = m >>= λ _. n

module _ {W : Type 0} where
  unfoldable pub modify : (Run W → Run W) → M W (Unit {0})
  modify f s = Out.ok tt (f s)

  -- `fault_raise`, with the line that says why.
  unfoldable pub fail : Failure → M W (Unit {0})
  fail x s = Out.ok tt (record s { failures = x ∷ s.failures })

  unfoldable pub ask : Robot W → (c : Call) → M W (Answer c)
  ask robot c s =
      let given = robot.answer c s.world in Out.ok given.0 (record s { world = given.1 })

  -- `if (!b) return PAYLOAD_FATAL;`
  abbrev pub require : Bool → M W (Unit {0})
  require b = if b then pure tt else stop End.fatal
