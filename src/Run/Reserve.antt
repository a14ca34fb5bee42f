-- ===== src/Run/Reserve.antt =====
-- A whole approach of getting_there.c: no return is refused, and no loop goes on for ever.
use inf2004_aai19_embedded_s.Common.{
  ℕ, zero, suc, ◌+◌, ◌-◌, ◌≤◌, ◌<◌, ◌≡◌, refl, Bool, true, false, not, ◌||◌, Option, none, some,
  List, [], ◌∷◌, if◌then◌else◌, arith,
}
use inf2004_aai19_embedded_s.Common.Int.{ℤ, ltb_ℤ}
use inf2004_aai19_embedded_s.Colour.{Zone, colour_zone_depth}
use inf2004_aai19_embedded_s.Buzzer.{RobotCue}
use inf2004_aai19_embedded_s.Run.{
  Call, Robot, Run, Failure, End, Out, M, pure, modify, ask, require, ◌>>=◌, ◌>>◌,
}
use inf2004_aai19_embedded_s.Run.Triple.{
  Post, Triple, Triple-mono, Triple-bind, Triple-if, Triple-pure, Triple-stop, Triple-require,
}
use inf2004_aai19_embedded_s.Run.Frame.{
  Frames, Travelled, Proper, refused_return, is_no_fuel, Frames-ask, Frames-modify, Frames-fail,
  Frames-gets, Frames-if, Frames-pure, Frames-note,
}
use inf2004_aai19_embedded_s.Run.Still.{
  run_can_continue-Frames, check_payload-Frames, measure_pair-Frames, wait_for_wifi-Frames,
  mat_steering_ready-Frames, wait_if_arrived-Frames, colour_scan_turn-Frames,
}
use inf2004_aai19_embedded_s.Run.Travel.{translate_block}
use inf2004_aai19_embedded_s.Run.Mat.{Scan, mat_step_loop, after_scan, mat_loop, mat_approach}
use inf2004_aai19_embedded_s.Run.Follow.{Followed}
use inf2004_aai19_embedded_s.Run.Approach.{
  is_mat, is_decline, is_no_gain, trial_return, direction_loop, check_directions, after_directions,
  approach_round, approach_loop, begin_approach, approach,
}
use inf2004_aai19_embedded_s.Run.Budget.{Frames-then, require_lem, translate_block_lem}
use inf2004_aai19_embedded_s.Run.Returns.{Within, Within-each, Within-frame, return_along_line_lem}
use inf2004_aai19_embedded_s.Run.Lines.{DoneAt, follow_direction_lem}

module _ {W : Type 0} where
  -- A part that stands still, and the rest.
  Within-then :
      {A B : Type 0} {t : ℕ} {m : M W A} {f : A → M W B} {Q : B → Run W → Type 0}
      → Frames m
      → ((a : A) → Triple (Within t) (f a) Q Proper)
      → Triple (Within t) (m >>= f) Q Proper
  Within-then {t = t} k rest = Triple-bind (Within-frame t k) rest

  Within-require :
      {B : Type 0} {t : ℕ} {m : M W B} {Q : B → Run W → Type 0} (b : Bool)
      → Triple (Within t) m Q Proper
      → Triple (Within t) (require b >> m) Q Proper
  Within-require b k = Triple-require b (λ s h. (refl, h.2)) (λ e. k)

  Within-le : (t t' : ℕ) (s : Run W) → t ≤ t' → Within t' s → Within t s
  Within-le t t' s le h = (omega arith, h.1, h.2)

module _ {W : Type 0} (robot : Robot W) where
  forward_Within :
      (duration heading : ℕ) (t : ℕ)
      → duration ≤ 60000
      → Triple
          (Within t)
          (translate_block robot true duration heading 0 0 false)
          (λ a. Within t)
          Proper
  forward_Within duration heading t short = Within-each (λ t' le small.
      Triple-mono
        (translate_block_lem robot true duration heading 0 0 false t' small short (omega arith)
          (λ f. cc))
        (λ s h. h) (λ a s h. (omega arith, omega arith, h.0.1)))

  mat_step_loop_lem :
      (left heading : ℕ) (previous : ℤ) (t : ℕ)
      → Triple (Within t) (mat_step_loop robot left heading previous) (λ _. Within t) Proper
  unfolding mat_step_loop
  mat_step_loop_lem zero heading previous t = Triple-pure tt (λ s h. h)
  mat_step_loop_lem (suc left) heading previous t =
      Triple-bind (forward_Within 250 heading t (omega arith)) (λ a.
        Within-then (Frames-ask robot Call.last_depth) (λ depth.
          Within-then (wait_if_arrived-Frames robot) (λ u.
            Triple-if (ltb_ℤ depth previous) (λ e. Triple-pure tt (λ s h. h))
              (λ e. mat_step_loop_lem left heading depth t))))

  after_scan_lem :
      (origin : ℕ) (scan : Option Scan) (t : ℕ)
      → Triple (Within t) (after_scan robot origin scan) (λ _. Within t) Proper
  unfolding after_scan
  after_scan_lem origin none t = Triple-pure false (λ s h. h)
  after_scan_lem origin (some scan) t =
      let heading = robot.normalised (robot.plus origin scan.estimate.vector_angle) in
      Within-then (Frames-if scan.saw_lighter _ _ (Frames-note robot) (Frames-pure tt)) (λ u.
        Triple-if
          (not scan.estimate.valid || ltb_ℤ scan.estimate.max_depth (colour_zone_depth Zone.ring1))
          (λ e. Triple-pure false (λ s h. h))
          (λ e. Within-then (Frames-ask robot (Call.turn_to_heading heading)) (λ turned.
            Within-require turned (
              Within-then (check_payload-Frames robot) (λ v.
                Within-then (wait_if_arrived-Frames robot) (λ w.
                  Within-then (Frames-ask robot Call.last_depth) (λ previous.
                    Triple-bind (mat_step_loop_lem 4 heading previous t)
                      (λ x. Triple-pure true (λ s h. h)))))))))

  mat_loop_lem : (left t : ℕ) → Triple (Within t) (mat_loop robot left) (λ _. Within t) Proper
  unfolding mat_loop
  mat_loop_lem zero t = Triple-pure tt (λ s h. h)
  mat_loop_lem (suc left) t = Within-then (run_can_continue-Frames robot) (λ going.
      Within-require going (
        Within-then
          (Frames-modify (λ s. record s { mat_scans_used = s.mat_scans_used + 1 }) (λ s. refl)
            (λ s. refl))
          (λ u. Within-then (Frames-ask robot Call.heading) (λ origin.
            Within-then (colour_scan_turn-Frames robot origin) (λ scan.
              Triple-bind (after_scan_lem origin scan t) (λ again.
                Triple-if again (λ e. mat_loop_lem left t) (λ e. Triple-pure tt (λ s h. h))))))))

  mat_approach_lem : (t : ℕ) → Triple (Within t) (mat_approach robot) (λ _. Within t) Proper
  unfolding mat_approach
  mat_approach_lem t =
      Within-then (Frames-ask robot (Call.cue_play RobotCue.cue_pass))
        (λ u. Within-then (Frames-gets (λ s. s.mat_scans_used)) (λ used. mat_loop_lem (6 - used) t))

  trial_return_lem :
      (heading : ℕ) (f : Followed) (t : ℕ)
      → is_no_gain f.finish ≡ true
      → Triple (DoneAt t f) (trial_return robot heading f) (λ _. Within t) Proper
  unfolding trial_return
  trial_return_lem heading f t e = record {
    at = λ s h.
        let room = h.1 e in
        let whole : (f.position - 0 ≡ f.position) = omega arith in
        (Triple-bind
            (return_along_line_lem robot f.position 0 heading s.translation_ms (omega arith) room.0
              h.0.1 (rw whole (room.1)))
            (λ u.
              Within-then (measure_pair-Frames robot)
                (λ returned. Triple-pure _ (λ s' k. Within-le t s.translation_ms s' h.0.0 k)))).at
          s (refl, h.0.2);
  }

  settle_lem :
      (heading : ℕ) (f : Followed) (t : ℕ)
      → Triple
          (DoneAt t f)
          (if is_no_gain f.finish then trial_return robot heading f else pure f)
          (λ _. Within t)
          Proper
  settle_lem heading f t =
      Triple-if (is_no_gain f.finish) (λ e. trial_return_lem heading f t e)
        (λ e. Triple-pure f (λ s h. h.0))

  -- The first direction adds to the travel; `rest` are the others.
  direction_step :
      (origin : ℕ) (offset : ℤ) (rest : List ℤ) (f : Followed) (t : ℕ)
      → t ≤ 60000
      → ((g : Followed)
          → Triple
              (Within (t + 1))
              (direction_loop robot origin rest g)
              (λ _. Within (t + 1))
              Proper)
      → Triple
          (Travelled t)
          (direction_loop robot origin (offset ∷ rest) f)
          (λ _. Within (t + 1))
          Proper
  unfolding direction_loop
  direction_step origin offset rest f t small others =
      let heading = robot.normalised (robot.plus origin offset) in
      Triple-bind (follow_direction_lem robot heading 2400 t (omega arith) small) (λ g.
        Triple-if (g.progress || is_mat g.finish) (λ e. Triple-pure _ (λ s h. h.0))
          (λ e. Triple-bind (settle_lem heading g (t + 1)) others))

  direction_loop_lem :
      (origin : ℕ) (rest : List ℤ) (f : Followed) (t : ℕ)
      → Triple (Within t) (direction_loop robot origin rest f) (λ _. Within t) Proper
  unfolding direction_loop
  direction_loop_lem origin [] f t = Triple-pure _ (λ s h. h)
  direction_loop_lem origin (offset ∷ rest) f t = Within-each (λ t' le small.
      Triple-mono
        (direction_step origin offset rest f t' small
          (λ g. direction_loop_lem origin rest g (t' + 1)))
        (λ s h. h) (λ a s h. (omega arith, h.1, h.2)))

  check_directions_lem :
      (origin : ℕ) (f : Followed) (t : ℕ)
      → t ≤ 60000
      → Triple (Travelled t) (check_directions robot origin f) (λ _. Within (t + 1)) Proper
  unfolding check_directions
  check_directions_lem origin f t small =
      direction_step origin _ _ f t small (λ g. direction_loop_lem origin _ g (t + 1))

  after_directions_lem :
      (again : Followed → M W (Unit {0})) (r : Followed × Bool) (t : ℕ)
      → ((g : Followed) → Triple (Within t) (again g) (λ _ _. ⊥) Proper)
      → Triple (Within t) (after_directions robot again r) (λ _ _. ⊥) Proper
  unfolding after_directions
  after_directions_lem again (f, true) t k = k f
  after_directions_lem again (f, false) t k =
      Within-then (Frames-fail Failure.no_direction refl)
        (λ u. Triple-stop End.fatal (λ s h. (refl, h.2)))

  -- A round adds to the travel before the next one.
  approach_round_lem :
      (again : Followed → M W (Unit {0})) (f : Followed) (t : ℕ)
      → ((g : Followed) → Triple (Within (t + 1)) (again g) (λ _ _. ⊥) Proper)
      → Triple (Within t) (approach_round robot again f) (λ _ _. ⊥) Proper
  unfolding approach_round
  approach_round_lem again f t k = Within-then (run_can_continue-Frames robot) (λ going.
      Within-require going (
        Triple-if (is_mat f.finish)
          (λ e. Triple-bind (mat_approach_lem t) (λ u.
            Within-then (Frames-ask robot Call.heading) (λ heading.
              Triple-bind
                (Within-each (λ t' le small.
                  Triple-mono (follow_direction_lem robot heading 0 t' (omega arith) small)
                    (λ s h. h) (λ g s h. Within-le (t + 1) (t' + 1) s (omega arith) h.0)))
                (λ g. k g))))
          (λ e.
            Triple-if (not (is_decline f.finish))
              (λ d.
                Within-then (Frames-fail Failure.no_decline refl)
                  (λ u. Triple-stop End.fatal (λ s h. (refl, h.2))))
              (λ d.
                Triple-bind
                  (Within-each (λ t' le small.
                    Triple-mono (check_directions_lem f.heading f t' small) (λ s h. h)
                      (λ r s h. Within-le (t + 1) (t' + 1) s (omega arith) h)))
                  (λ r. after_directions_lem again r (t + 1) k)))))

  approach_loop_lem :
      (fuel : ℕ) (f : Followed) (t : ℕ)
      → 60000 < fuel + t
      → Triple (Within t) (approach_loop robot fuel f) (λ _ _. ⊥) Proper
  unfolding approach_loop
  approach_loop_lem zero f t enough = Within-each (λ t' le small. absurd (omega arith))
  approach_loop_lem (suc fuel) f t enough =
      approach_round_lem (approach_loop robot fuel) f t
        (λ g. approach_loop_lem fuel g (t + 1) (omega arith))

  Unwritten : Run W → Type 0
  Unwritten s = refused_return s.failures ≡ false

  reset_lem :
      (now : ℕ)
      → Triple Unwritten
          (modify (λ s. record s {
            started_ms = now;
            translation_ms = 0;
            profile_id = 0;
            wifi_quiescent = true;
          }))
          (λ _. Travelled 0)
          Proper
  unfolding modify Unwritten
  reset_lem now = record { at = λ s h. (refl, h) }

  clock_lem : Triple Unwritten (ask robot Call.now_ms) (λ _. Unwritten) Proper
  unfolding ask Unwritten
  clock_lem = record { at = λ s h. h }

  begin_lem : Triple Unwritten (begin_approach robot) (λ _. Within 0) Proper
  unfolding begin_approach
  begin_lem = Triple-bind clock_lem (λ now. Triple-bind (reset_lem now) (λ a.
      Frames-then (Frames-ask robot Call.sampler_init) (λ b.
        Frames-then (Frames-ask robot Call.arrival_reset) (λ c.
          Frames-then
            (Frames-modify (λ s. record s { step_on_mat = false; mat_scans_used = 0 }) (λ s. refl)
              (λ s. refl))
            (λ d. Frames-then (check_payload-Frames robot) (λ e.
              Frames-then (wait_for_wifi-Frames robot) (λ sample.
                Frames-then (Frames-ask robot Call.learn_direction) (λ learnt.
                  require_lem learnt (λ l. Frames-then (mat_steering_ready-Frames robot) (λ ready.
                    Triple-if ready (λ g. Triple-pure _ (λ s h. (omega arith, omega arith, h.1)))
                      (λ g. Frames-then (Frames-ask robot Call.heading) (λ heading.
                        Triple-mono
                          (follow_direction_lem robot heading 0 0 (omega arith) (omega arith))
                          (λ s h. h) (λ f s h. Within-le 0 1 s (omega arith) h.0)))))))))))))

  approach_lem : Triple Unwritten (approach robot) (λ _ _. ⊥) Proper
  unfolding approach
  approach_lem = Triple-bind begin_lem (λ f. approach_loop_lem 60001 f 0 (omega arith))

-- What an approach ends with.
abbrev pub IsFinal : {W A : Type 0} → Out W A → Type 0
IsFinal (Out.ok a s) = ⊥
IsFinal (Out.ended e s) = is_no_fuel e ≡ false

abbrev pub failures_of : {W A : Type 0} → Out W A → List Failure
failures_of (Out.ok a s) = s.failures
failures_of (Out.ended e s) = s.failures

module _ {W A : Type 0} where
  outcome-IsFinal : (o : Out W A) → Post (λ _ _. ⊥) Proper o → IsFinal o
  outcome-IsFinal (Out.ok a s) h = h
  outcome-IsFinal (Out.ended e s) h = h.0

  outcome_failures :
      (o : Out W A) → Post (λ _ _. ⊥) Proper o → refused_return (failures_of o) ≡ false
  outcome_failures (Out.ok a s) h = absurd h
  outcome_failures (Out.ended e s) h = h.1

module _ {W : Type 0} (robot : Robot W) (s : Run W)
    (fresh : refused_return s.failures ≡ false) where
  approach-Post : Post (λ _ _. ⊥) Proper (approach robot s)
  unfolding Unwritten
  approach-Post = (approach_lem robot).at s fresh

  -- In an approach the travel budget refuses no block of a return, whatever the robot's sensors, radio,
  -- motors and clock answer, if it had refused none before.
  pub approach_refuses_no_return : refused_return (failures_of (approach robot s)) ≡ false
  approach_refuses_no_return = outcome_failures (approach robot s) approach-Post

  -- An approach in which no return was refused before comes to an end, by completing the transfer, by a
  -- fatal result, or inside a powered block that goes on for longer than the polls it is given: its other
  -- loops never run out of the rounds that the travel budget allows.
  pub approach_ends : IsFinal (approach robot s)
  approach_ends = outcome-IsFinal (approach robot s) approach-Post
