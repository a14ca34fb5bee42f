-- ===== src/Run/Approach.antt =====
-- getting_there.c: the search over the directions, and a whole approach.
use inf2004_aai19_embedded_s.Common.{
  ℕ, zero, suc, ◌+◌, Bool, true, false, not, ◌||◌, List, [], ◌∷◌, if◌then◌else◌,
}
use inf2004_aai19_embedded_s.Common.Int.{ℤ, pos, negsuc}
use inf2004_aai19_embedded_s.LineSearch.{line_return_consistent}
use inf2004_aai19_embedded_s.Run.{
  Call, Robot, Run, Failure, End, Out, M, pure, stop, modify, fail, ask, require, ◌>>=◌, ◌>>◌,
}
use inf2004_aai19_embedded_s.Run.Payload.{
  run_can_continue, check_payload, wait_for_wifi, measure_pair,
}
use inf2004_aai19_embedded_s.Run.Travel.{line_translation_ms, return_along_line}
use inf2004_aai19_embedded_s.Run.Mat.{mat_approach, mat_steering_ready}
use inf2004_aai19_embedded_s.Run.Follow.{Followed, FollowEnd, zero_pair, follow_direction}

abbrev pub line_direction_test_ms : ℕ
line_direction_test_ms = 2400

-- Both perpendiculars, then straight back.
abbrev pub offsets : List ℤ
offsets = negsuc 89 ∷ pos 90 ∷ pos 180 ∷ []

abbrev pub is_mat : FollowEnd → Bool
is_mat FollowEnd.mat = true
is_mat _ = false

abbrev pub is_decline : FollowEnd → Bool
is_decline FollowEnd.decline = true
is_decline _ = false

abbrev pub is_no_gain : FollowEnd → Bool
is_no_gain FollowEnd.no_gain = true
is_no_gain _ = false

module _ {W : Type 0} (robot : Robot W) where
  -- A trial without a gain: back to where it started.
  unfoldable pub trial_return : ℕ → Followed → M W Followed
  trial_return heading followed = do
    return_along_line robot followed.position 0 heading
    returned ← measure_pair robot
    pure (record followed { consistent = line_return_consistent followed.baseline returned })

  -- The directions that are left; `true` with the one that was found.
  unfoldable pub direction_loop : ℕ → List ℤ → Followed → M W (Followed × Bool)
  direction_loop origin [] followed = pure (followed, false)
  direction_loop origin (offset ∷ rest) followed = do
    let heading = robot.normalised (robot.plus origin offset)
    followed' ← follow_direction robot heading line_direction_test_ms
    if followed'.progress || is_mat followed'.finish then pure (followed', true) else do
      settled ←
          if is_no_gain followed'.finish then trial_return heading followed' else pure followed'
      direction_loop origin rest settled

  unfoldable pub check_directions : ℕ → Followed → M W (Followed × Bool)
  check_directions origin followed = direction_loop origin offsets followed

  unfoldable pub after_directions : (Followed → M W (Unit {0})) → Followed × Bool → M W (Unit {0})
  after_directions again (followed, true) = again followed
  after_directions again (followed, false) = do fail Failure.no_direction; stop End.fatal

  -- One round of the loop of `approach_beacon`.
  unfoldable pub approach_round : (Followed → M W (Unit {0})) → Followed → M W (Unit {0})
  approach_round again followed = do
    going ← run_can_continue robot
    require going
    if is_mat followed.finish
        then (do
          mat_approach robot
          heading ← ask robot Call.heading
          followed' ← follow_direction robot heading 0
          again followed')
        else if not (is_decline followed.finish)
        then (do fail Failure.no_decline; stop End.fatal)
        else do found ← check_directions followed.heading followed; after_directions again found

  unfoldable pub approach_loop : ℕ → Followed → M W (Unit {0})
  approach_loop zero followed = stop End.no_fuel
  approach_loop (suc fuel) followed = approach_round (approach_loop fuel) followed

  abbrev pub on_the_mat : Followed
  on_the_mat = record {
    heading = 0;
    progress = false;
    consistent = false;
    finish = FollowEnd.mat;
    position = 0;
    baseline = zero_pair;
  }

  -- `approach_beacon` up to its loop.
  unfoldable pub begin_approach : M W Followed
  begin_approach = do
    now ← ask robot Call.now_ms
    modify (λ s. record s {
      started_ms = now;
      translation_ms = 0;
      profile_id = 0;
      wifi_quiescent = true;
    })
    ask robot Call.sampler_init
    ask robot Call.arrival_reset
    modify (λ s. record s { step_on_mat = false; mat_scans_used = 0 })
    check_payload robot
    wait_for_wifi robot
    learnt ← ask robot Call.learn_direction
    require learnt
    ready ← mat_steering_ready robot
    if ready
        then pure on_the_mat
        else do heading ← ask robot Call.heading; follow_direction robot heading 0

  -- `approach_beacon`; `true` if the payload is complete.
  unfoldable pub approach : M W (Unit {0})
  approach = do followed ← begin_approach; approach_loop (line_translation_ms + 1) followed

  abbrev pub completed : Out W (Unit {0}) → Bool
  completed (Out.ended End.complete s) = true
  completed _ = false

  unfoldable pub approach_beacon : Run W → Bool
  approach_beacon s = completed (approach s)
