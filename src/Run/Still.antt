-- ===== src/Run/Still.antt =====
-- The parts of getting_there.c that stand still: the checks, the transfer, the readings, the scans on
-- the spot and the profile.
use inf2004_aai19_embedded_s.Common.{
  ℕ, zero, suc, ◌+◌, Bool, true, false, ◌||◌, Option, none, some, List, [], ◌∷◌, ◌++◌,
}
use inf2004_aai19_embedded_s.Client.{Result}
use inf2004_aai19_embedded_s.Colour.{Reading, colour_classify, colour_lighter_mat_zone}
use inf2004_aai19_embedded_s.Run.{Call, Robot, M}
use inf2004_aai19_embedded_s.Run.Payload.{
  given, run_can_continue, save_checkpoint, on_in_range, colour_gate, attempt_transfer,
  after_attempt, check_loop, check_payload, wait_loop, wait_for_wifi, measure_pair,
}
use inf2004_aai19_embedded_s.Run.Mat.{
  Scan, scan_read_loop, next_reading, scan_read, scan_loop, after_read, scan_step_deg,
  colour_scan_turn, mat_steering_ready, wait_retries, mat_wait_on_arrival, wait_if_arrived,
}
use inf2004_aai19_embedded_s.Run.Travel.{drive_loop}
use inf2004_aai19_embedded_s.Run.Follow.{record_point, forward_block_ms}
use inf2004_aai19_embedded_s.Run.Frame.{Frames, frame_rules, Frames-bind, Frames-ask}

module _ {W : Type 0} (robot : Robot W) where
  pub run_can_continue-Frames : Frames (run_can_continue robot)
  unfolding run_can_continue
  run_can_continue-Frames = search frame_rules depth 20 fits 4000

  pub save_checkpoint-Frames : Frames (save_checkpoint robot)
  unfolding save_checkpoint
  save_checkpoint-Frames = search frame_rules depth 20 fits 4000

  colour_gate-Frames : Frames (colour_gate robot)
  unfolding colour_gate
  colour_gate-Frames = search frame_rules depth 20 fits 4000

  on_in_range-Frames : Frames (on_in_range robot)
  unfolding on_in_range
  on_in_range-Frames = search frame_rules depth 20 fits 4000

  attempt_transfer-Frames : (was_close : Bool) → Frames (attempt_transfer robot was_close)
  unfolding attempt_transfer
  attempt_transfer-Frames was_close = search (frame_rules, on_in_range-Frames) depth 20 fits 4000

  after_attempt-Frames :
      (again : M W (Unit {0})) (left : ℕ) (was_close : Bool) (result : Result)
      → Frames again
      → Frames (after_attempt robot again left was_close result)
  unfolding after_attempt
  after_attempt-Frames again left was_close Result.complete k = search frame_rules
  after_attempt-Frames again left was_close Result.fatal k = search frame_rules
  after_attempt-Frames again left false Result.not_close k = search frame_rules
  after_attempt-Frames again zero true Result.not_close k = k
  after_attempt-Frames again (suc left) true Result.not_close k =
      search frame_rules depth 20 fits 4000
  after_attempt-Frames again zero was_close Result.retry k = k
  after_attempt-Frames again (suc left) was_close Result.retry k =
      search frame_rules depth 20 fits 4000

  check_loop-Frames : (left : ℕ) (was_close : Bool) → Frames (check_loop robot left was_close)
  unfolding check_loop
  check_loop-Frames zero was_close = search frame_rules
  check_loop-Frames (suc left) was_close =
      let again = check_loop-Frames left in
      search
        (
          frame_rules, run_can_continue-Frames, save_checkpoint-Frames, colour_gate-Frames,
          attempt_transfer-Frames, after_attempt-Frames, again,
        )
        depth 20 fits 8000

  pub check_payload-Frames : Frames (check_payload robot)
  unfolding check_payload
  check_payload-Frames = search (frame_rules, check_loop-Frames) depth 20 fits 4000

  given-Frames : {A : Type 0} (o : Option A) → Frames {W = W} (given o)
  unfolding given
  given-Frames none = search frame_rules
  given-Frames (some a) = search frame_rules

  wait_loop-Frames : (left : ℕ) → Frames (wait_loop robot left)
  unfolding wait_loop
  wait_loop-Frames zero = search frame_rules
  wait_loop-Frames (suc left) =
      let again = λ (u : Unit {0}). wait_loop-Frames left in
      search (frame_rules, save_checkpoint-Frames, given-Frames, check_payload-Frames, again) depth
        20 fits 8000

  pub wait_for_wifi-Frames : Frames (wait_for_wifi robot)
  unfolding wait_for_wifi
  wait_for_wifi-Frames = wait_loop-Frames _

  pub measure_pair-Frames : Frames (measure_pair robot)
  unfolding measure_pair
  measure_pair-Frames = search (frame_rules, wait_for_wifi-Frames) depth 20 fits 4000

  pub record_point-Frames : Frames (record_point robot)
  unfolding record_point
  record_point-Frames = search (frame_rules, save_checkpoint-Frames) depth 20 fits 4000

  pub forward_block_ms-Frames : Frames (forward_block_ms robot)
  unfolding forward_block_ms
  forward_block_ms-Frames = search frame_rules depth 20 fits 4000

  next_reading-Frames :
      (again : List Reading → M W (Option Reading)) (sorted : List Reading) (r : Option Reading)
      → ((l : List Reading) → Frames (again l))
      → Frames (next_reading robot again sorted r)
  unfolding next_reading
  next_reading-Frames again sorted none k = search frame_rules
  next_reading-Frames again sorted (some r) k = k _

  scan_read_loop-Frames :
      (left : ℕ) (sorted : List Reading) → Frames (scan_read_loop robot left sorted)
  unfolding scan_read_loop
  scan_read_loop-Frames zero sorted = search frame_rules
  scan_read_loop-Frames (suc left) sorted =
      Frames-bind _ _ (Frames-ask robot Call.read_colour)
        (λ r. next_reading-Frames _ sorted r (scan_read_loop-Frames left))

  scan_read-Frames : Frames (scan_read robot)
  unfolding scan_read
  scan_read-Frames = scan_read_loop-Frames _ _

  after_read-Frames :
      (next : Reading → M W (Option Scan)) (r : Option Reading)
      → ((x : Reading) → Frames (next x))
      → Frames (after_read robot next r)
  unfolding after_read
  after_read-Frames next none k = search frame_rules
  after_read-Frames next (some r) k = search frame_rules depth 20 fits 4000

  scan_loop-Frames :
      (left angle origin : ℕ) (readings : List Reading) (lighter : Bool)
      → Frames (scan_loop robot left angle origin readings lighter)
  unfolding scan_loop
  scan_loop-Frames zero angle origin readings lighter = search frame_rules
  scan_loop-Frames (suc left) angle origin readings lighter =
      let again = scan_loop-Frames left (angle + scan_step_deg) origin in
      let next = λ (r : Option Reading). after_read-Frames _ r (λ x.
        again (readings ++ x ∷ []) (lighter || colour_lighter_mat_zone (colour_classify x))) in
      search (frame_rules, run_can_continue-Frames, scan_read-Frames, next) depth 20 fits 8000

  pub colour_scan_turn-Frames : (origin : ℕ) → Frames (colour_scan_turn robot origin)
  unfolding colour_scan_turn
  colour_scan_turn-Frames origin = scan_loop-Frames _ _ origin _ _

  pub mat_steering_ready-Frames : Frames (mat_steering_ready robot)
  unfolding mat_steering_ready
  mat_steering_ready-Frames = search frame_rules depth 20 fits 4000

  wait_retries-Frames : (left : ℕ) → Frames (wait_retries robot left)
  unfolding wait_retries
  wait_retries-Frames zero = search frame_rules
  wait_retries-Frames (suc left) =
      let again = λ (u : Unit {0}). wait_retries-Frames left in
      search (frame_rules, check_payload-Frames, again) depth 20 fits 4000

  mat_wait_on_arrival-Frames : Frames (mat_wait_on_arrival robot)
  unfolding mat_wait_on_arrival
  mat_wait_on_arrival-Frames = wait_retries-Frames _

  pub wait_if_arrived-Frames : Frames (wait_if_arrived robot)
  unfolding wait_if_arrived
  wait_if_arrived-Frames = search (frame_rules, mat_wait_on_arrival-Frames) depth 20 fits 4000

  pub drive_loop-Frames :
      (polls : ℕ) (acquire_moving : Bool) → Frames (drive_loop robot polls acquire_moving)
  unfolding drive_loop
  drive_loop-Frames zero acquire_moving = search frame_rules
  drive_loop-Frames (suc polls) acquire_moving =
      let again = drive_loop-Frames polls in
      search (frame_rules, run_can_continue-Frames, again) depth 20 fits 8000
