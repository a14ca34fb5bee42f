-- ===== src/Run/Mat.antt =====
-- getting_there.c: steering on the mat by colour scans on the spot.
use inf2004_aai19_embedded_s.Common.{
  ℕ, zero, suc, ◌+◌, ◌-◌, Bool, true, false, not, ◌&&◌, ◌||◌, Option, none, some, List, [], ◌∷◌,
  ◌++◌, ltb, if◌then◌else◌,
}
use inf2004_aai19_embedded_s.Common.Int.{ℤ, pos, ltb_ℤ}
use inf2004_aai19_embedded_s.Colour.{
  Reading, Zone, colour_gr_x1000, colour_classify, colour_zone_depth, colour_lighter_mat_zone,
}
use inf2004_aai19_embedded_s.Buzzer.{RobotCue}
use inf2004_aai19_embedded_s.Run.{
  Call, Robot, Failure, End, Estimate, M, pure, stop, gets, modify, fail, ask, require, ◌>>=◌, ◌>>◌,
}
use inf2004_aai19_embedded_s.Run.Payload.{run_can_continue, check_payload}
use inf2004_aai19_embedded_s.Run.Travel.{translate_block}

abbrev pub scan_steps : ℕ
scan_steps = 12

abbrev pub scan_step_deg : ℕ
scan_step_deg = 30

abbrev pub mat_max_scans : ℕ
mat_max_scans = 6

abbrev pub mat_steps_per_scan : ℕ
mat_steps_per_scan = 4

abbrev pub mat_arrived_retries : ℕ
mat_arrived_retries = 3

abbrev pub line_mat_block_ms : ℕ
line_mat_block_ms = 250

-- The sorting by G/R in `scan_read`, which keeps equal readings in their order.
unfoldable pub insert_reading : Reading → List Reading → List Reading
insert_reading r [] = r ∷ []
insert_reading r (x ∷ xs) =
    let rest = insert_reading r xs in
    if ltb (colour_gr_x1000 r) (colour_gr_x1000 x) then r ∷ x ∷ xs else x ∷ rest

abbrev pub no_reading : Reading
no_reading = record { c = 0; r = 0; g = 0; b = 0 }

unfoldable pub middle_reading : List Reading → Reading
middle_reading (a ∷ b ∷ rest) = b
middle_reading _ = no_reading

-- What a scan gives: `none` if a reading failed.
pub record Scan : Type 0 where
  pub estimate : Estimate
  pub saw_lighter : Bool

module _ {W : Type 0} (robot : Robot W) where
  unfoldable pub next_reading :
      (List Reading → M W (Option Reading)) → List Reading → Option Reading → M W (Option Reading)
  next_reading again sorted none = pure none
  next_reading again sorted (some r) = again (insert_reading r sorted)

  -- Three fresh readings; the median by G/R, or `none`.
  unfoldable pub scan_read_loop : ℕ → List Reading → M W (Option Reading)
  scan_read_loop zero sorted = pure (some (middle_reading sorted))
  scan_read_loop (suc left) sorted = do
    r ← ask robot Call.read_colour
    next_reading (scan_read_loop left) sorted r

  unfoldable pub scan_read : M W (Option Reading)
  scan_read = scan_read_loop 3 []

  unfoldable pub after_read : (Reading → M W (Option Scan)) → Option Reading → M W (Option Scan)
  after_read next none = pure none
  after_read next (some r) = do
    saved ← ask robot Call.report_checkpoint
    if saved then next r else (do fail Failure.report_failed; stop End.fatal)

  -- The steps of a scan that are left, at `angle`: the readings in their order, and whether one was of
  -- a lighter part of the mat. A stop ends the run.
  unfoldable pub scan_loop : ℕ → ℕ → ℕ → List Reading → Bool → M W (Option Scan)
  scan_loop zero angle origin readings lighter =
      pure (some (record { estimate = robot.estimate readings; saw_lighter = lighter }))
  scan_loop (suc left) angle origin readings lighter = do
    going ← run_can_continue robot
    require going
    turned ← ask robot (Call.turn_to_heading (robot.plus origin (pos angle)))
    require turned
    paused ← ask robot (Call.pause_ms 200)
    require paused
    read ← scan_read
    after_read
        (λ r.
          scan_loop left (angle + scan_step_deg) origin (readings ++ r ∷ [])
            (lighter || colour_lighter_mat_zone (colour_classify r)))
        read

  unfoldable pub colour_scan_turn : ℕ → M W (Option Scan)
  colour_scan_turn origin = scan_loop scan_steps 0 origin [] false

  unfoldable pub mat_steering_ready : M W Bool
  mat_steering_ready = do
    on_mat ← ask robot Call.on_mat
    used ← gets (λ s. s.mat_scans_used)
    pure (on_mat && ltb used mat_max_scans)

  -- On ring 4 or darker with no AP1 in range: the retries that are left.
  unfoldable pub wait_retries : ℕ → M W (Unit {0})
  wait_retries zero = do fail Failure.mat_unreached; stop End.fatal
  wait_retries (suc left) = do
    paused ← ask robot (Call.pause_ms 1000)
    require paused
    check_payload robot
    arrived ← gets (λ s. s.colour_arrived)
    if not arrived then pure tt else wait_retries left

  unfoldable pub mat_wait_on_arrival : M W (Unit {0})
  mat_wait_on_arrival = wait_retries mat_arrived_retries

  unfoldable pub wait_if_arrived : M W (Unit {0})
  wait_if_arrived = do
    arrived ← gets (λ s. s.colour_arrived)
    if arrived then mat_wait_on_arrival else pure tt

  -- The small steps that are left after a scan; the first lighter one is the last.
  unfoldable pub mat_step_loop : ℕ → ℕ → ℤ → M W (Unit {0})
  mat_step_loop zero heading previous = pure tt
  mat_step_loop (suc left) heading previous = do
    translate_block robot true line_mat_block_ms heading 0 0 false
    depth ← ask robot Call.last_depth
    wait_if_arrived
    if ltb_ℤ depth previous then pure tt else mat_step_loop left heading depth

  -- What follows a scan; false if the Wi-Fi search is to resume.
  unfoldable pub after_scan : ℕ → Option Scan → M W Bool
  after_scan origin none = pure false
  after_scan origin (some scan) = do
    if scan.saw_lighter then ask robot Call.note_lighter_mat else pure tt
    if not scan.estimate.valid || ltb_ℤ scan.estimate.max_depth (colour_zone_depth Zone.ring1)
        then pure false
        else do
          let heading = robot.normalised (robot.plus origin scan.estimate.vector_angle)
          turned ← ask robot (Call.turn_to_heading heading)
          require turned
          check_payload robot
          wait_if_arrived
          previous ← ask robot Call.last_depth
          mat_step_loop mat_steps_per_scan heading previous
          pure true

  -- The loop of `mat_approach` over the scans that are left; nothing else counts scans.
  unfoldable pub mat_loop : ℕ → M W (Unit {0})
  mat_loop zero = pure tt
  mat_loop (suc left) = do
    going ← run_can_continue robot
    require going
    modify (λ s. record s { mat_scans_used = s.mat_scans_used + 1 })
    origin ← ask robot Call.heading
    scan ← colour_scan_turn origin
    again ← after_scan origin scan
    if again then mat_loop left else pure tt

  unfoldable pub mat_approach : M W (Unit {0})
  mat_approach = do
    ask robot (Call.cue_play RobotCue.cue_pass)
    used ← gets (λ s. s.mat_scans_used)
    mat_loop (mat_max_scans - used)
