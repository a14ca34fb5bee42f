-- ===== src/Motion/Turning.antt =====
-- getting_there/motion.c: what a turn, the calibration and the start-up do to the wheels' pins.
use inf2004_aai19_embedded_s.Common.{ℕ, zero, suc, Bool, true, false, Option, none, some, ◌+◌}
use inf2004_aai19_embedded_s.Faults.{Fault}
use inf2004_aai19_embedded_s.Motion.{Call, Board, M}
use inf2004_aai19_embedded_s.Motion.Gyro.{Movement, recover_gyro_stopped}
use inf2004_aai19_embedded_s.Motion.Turn.{
  Segment, Candidate, spin, abandon, learn_sign, spin_on, segment_loop, attempt_loop, turn_degrees,
  turn_to_heading, motion_learn_direction, calibrate_loop, calibrate_gyro, motion_calibrate,
  motion_init,
}
use inf2004_aai19_embedded_s.Motion.Triple.{
  View, view, Ended, Triple, Keeps, Triple-pure, Keeps-pure, Triple-unending, Keeps-gets,
  Triple-branch, Keeps-if, Triple-before, Triple-bind, Keeps-bind, Either, Triple-on_some,
  Keeps-modify, Keeps-ask, keep_rules,
}
use inf2004_aai19_embedded_s.Motion.Driving.{quiet-IsSafe, normalise-Keeps}
use inf2004_aai19_embedded_s.Motion.Wheels.{
  IsQuiet, IsSafe, Any, motors_stop_lem, now_ms-Keeps, stop_pressed-Keeps, recover_loop-Keeps,
  stop_drive_lem, motors_stop-Keeps, pause_checked-Keeps, read_lem, settle_lem,
}

module _ {W F : Type 0} (board : Board W F) where
  any_lem : {A : Type 0} {P : View → Type 0} (m : M W F A) → Triple P m (λ a. Any)
  any_lem {A} m = record { at = λ s p. any_end (m s).0 (view (m s).1) }
    where
      any_end : (o : Option A) (w : View) → Ended {A = A} (λ a. Any) o w
      any_end none w = tt
      any_end (some a) w = tt

  learn_sign-Keeps :
      {P : View → Type 0} (direction : Bool) (rate : F) (c : Candidate F)
      → Keeps P (learn_sign board direction rate c)
  unfolding learn_sign
  learn_sign-Keeps direction rate c = search keep_rules depth 20 fits 4000

  abandon_lem :
      {A : Type 0} {P : View → Type 0} {Q : A → View → Type 0} (fault : Fault) (a : A)
      → ((w : View) → IsQuiet w → Q a w)
      → Triple P (abandon board fault a) Q
  abandon_lem fault a f =
      Triple-bind motors_stop_lem
        (λ u. Triple-bind (Keeps-modify _ (λ s p. p)) (λ v. Triple-pure a f))

  segment_lem :
      (polls : ℕ) (g : Segment F) (previous : ℕ) (c : Candidate F)
      → Triple Any (segment_loop board polls g previous c) (Either IsQuiet Any)
  unfolding segment_loop
  segment_lem zero g previous c = Triple-unending
  segment_lem (suc polls) g previous c = Triple-bind (now_ms-Keeps board) (λ now.
      Triple-branch _ _ _ (abandoned Fault.turn) (
        Triple-bind (read_lem board (λ w p. tt) Movement.turn previous) (λ reading.
          Triple-on_some reading (Triple-pure none (λ w p. p)) (λ sample.
            Triple-bind (learn_sign-Keeps g.direction sample.0 c) (λ next.
              Triple-bind (Keeps-gets (λ s. s)) (λ s.
                Triple-branch _ _ _ (Triple-pure (some sample.1) (λ w p. tt)) (
                  Triple-branch _ _ _ (abandoned Fault.heading) (
                    Triple-bind (now_ms-Keeps board) (λ later.
                      Triple-branch _ _ _ (abandoned Fault.turn) (
                        Triple-bind
                          (Keeps-if _ _ _ (Keeps-pure g.segment_started_ms) (now_ms-Keeps board))
                          (λ last. Triple-branch _ _ _ (Triple-pure (some sample.1) (λ w p. tt)) (
                            Triple-bind (any_lem (spin_on board g))
                              (λ u. segment_lem polls g sample.1 next)))))))))))))
    where
      abandoned :
          (fault : Fault) → Triple Any (abandon board fault none) (Either {A = ℕ} IsQuiet Any)
      abandoned fault = abandon_lem fault none (λ w p. p)

  attempt_lem :
      {P : View → Type 0} (q : (w : View) → IsQuiet w → P w) (left attempt : ℕ)
      (degrees heading_before : F) (start previous : ℕ)
      → Triple P (attempt_loop board left attempt degrees heading_before start previous) (λ b. P)
  unfolding attempt_loop
  attempt_lem q zero attempt degrees heading_before start previous = abandon_lem Fault.turn false q
  attempt_lem {P} q (suc left) attempt degrees heading_before start previous =
      Triple-bind (Keeps-gets (λ s. s)) (λ s. Triple-branch _ _ _ (Triple-pure true (λ w p. p)) (
        Triple-bind (now_ms-Keeps board) (λ now. Triple-bind (any_lem (spin board _ _)) (λ u.
          Triple-bind (segment_lem board.polls _ previous _) (λ turned.
            Triple-on_some turned (Triple-pure false q) (λ at. Triple-bind motors_stop_lem (λ v.
              Triple-bind (settle_lem board (λ w p. p) Movement.turn at) (λ settled.
                Triple-on_some settled (Triple-pure false q) (λ end.
                  Triple-bind (Keeps-gets _) (λ error. Triple-branch _ _ _ (Triple-pure true q) (
                    Triple-before q
                      (attempt_lem q left (attempt + 1) degrees heading_before start end))))))))))))

  pub turn_degrees_lem : (degrees : F) → Keeps IsSafe (turn_degrees board degrees)
  unfolding turn_degrees
  turn_degrees_lem degrees = Triple-bind (stop_pressed-Keeps board) (λ stopped.
      Keeps-if _ _ _
        (Keeps-bind _ _ (motors_stop-Keeps board (quiet-IsSafe board)) (λ u. Keeps-pure false))
        (Keeps-if _ _ _ (Keeps-pure true) (
          Keeps-bind _ _ (Keeps-ask board Call.now_us) (λ before.
            Triple-bind (read_lem board (quiet-IsSafe board) Movement.pre_turn before) (λ reading.
              Triple-on_some reading (Triple-pure false (quiet-IsSafe board)) (λ sample.
                Keeps-bind _ _ (Keeps-gets _) (λ heading_before.
                  Keeps-bind _ _ (now_ms-Keeps board) (λ start.
                    Keeps-bind _ _ (Keeps-ask board Call.now_us) (λ us.
                      attempt_lem (quiet-IsSafe board) _ 0 degrees heading_before start us)))))))))

  pub turn_to_heading_lem : (heading : F) → Keeps IsSafe (turn_to_heading board heading)
  unfolding turn_to_heading
  turn_to_heading_lem heading =
      search (keep_rules, normalise-Keeps board, turn_degrees_lem) depth 20 fits 4000

  pub learn_direction_lem : Triple IsSafe (motion_learn_direction board) (λ b. IsQuiet)
  unfolding motion_learn_direction
  learn_direction_lem = Triple-bind (turn_degrees_lem _) (λ turned.
      Triple-bind (Keeps-if _ _ _ (turn_to_heading_lem _) (Keeps-pure false))
        (λ back. Triple-bind motors_stop_lem (λ u. Keeps-pure back)))

  calibrate_loop-Keeps :
      {P : View → Type 0} (q : (w : View) → IsQuiet w → P w) (left : ℕ) (sum : F)
      → Keeps P (calibrate_loop board left sum)
  unfolding calibrate_loop recover_gyro_stopped
  calibrate_loop-Keeps q zero sum = Keeps-pure _
  calibrate_loop-Keeps q (suc left) sum =
      search
        (
          keep_rules,
          recover_loop-Keeps board,
          pause_checked-Keeps board q,
          calibrate_loop-Keeps q left,
        )
        depth 20 fits 4000

  pub calibrate_lem : {P : View → Type 0} → Triple P (motion_calibrate board) (λ b. IsQuiet)
  unfolding motion_calibrate calibrate_gyro
  calibrate_lem =
      Triple-bind (stop_drive_lem board)
        (λ u. search (keep_rules, calibrate_loop-Keeps (λ w p. p)) depth 20 fits 4000)

  pub init_lem : {P : View → Type 0} → Triple P (motion_init board) (λ b. IsQuiet)
  unfolding motion_init
  init_lem = Triple-bind motors_stop_lem (λ u. search keep_rules depth 20 fits 4000)
