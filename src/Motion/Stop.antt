-- ===== src/Motion/Stop.antt =====
-- getting_there/motion.c: a latched stop over every sequence of operations.
use inf2004_aai19_embedded_s.Common.{
  ℕ, zero, suc, ◌≡◌, ◌∙◌, Bool, true, false, not, none, some, List, [], ◌∷◌, ◌+◌,
}
use inf2004_aai19_embedded_s.Faults.{Fault, fault_test}
use inf2004_aai19_embedded_s.Faults.Laws.{fault_set_laws}
use inf2004_aai19_embedded_s.Motion.{
  Call, Board, Motion, M, pure, ◌>>◌, now_ms, stop_pressed, stop_drive, motion_arm_stop,
}
use inf2004_aai19_embedded_s.Motion.Gyro.{Movement, recover_gyro_stopped, motion_sample_ms}
use inf2004_aai19_embedded_s.Motion.Drive.{
  normalise_degrees, begin_drive, motion_drive_start, fail_drive, steer, keep_course,
  motion_drive_update, check_settled, motion_drive_finish, motion_drive_loop, motion_drive,
}
use inf2004_aai19_embedded_s.Motion.Turn.{
  Segment, Candidate, spin, abandon, learn_sign, spin_on, segment_loop, attempt_loop, turn_degrees,
  turn_to_heading, motion_learn_direction, calibrate_loop, calibrate_gyro, motion_calibrate,
  motion_init,
}
use inf2004_aai19_embedded_s.Motion.Triple.{view}
use inf2004_aai19_embedded_s.Motion.Wheels.{IsQuiet}
use inf2004_aai19_embedded_s.Motion.Safety.{Operation, perform, perform_all}
use inf2004_aai19_embedded_s.Motion.Latch.{
  Stays, Stays-pure, Stays-unending, Stays-gets, Stays-if, Stays-bind, Stays-on_some, Stays-modify,
  Stays-ask, Stays-raise, latch_rules, motors_stop-Stays, now_ms-Stays, stop_pressed-Stays,
  motors_set-Stays, stop_drive-Stays, pause_checked-Stays, recover_loop-Stays, read-Stays,
  settle-Stays,
}

module _ {W F : Type 0} (board : Board W F) where
  now_lem : Unit {0} → Stays (now_ms board)
  now_lem u = now_ms-Stays board

  pressed_lem : Unit {0} → Stays (stop_pressed board)
  pressed_lem u = stop_pressed-Stays board

  stopping_lem : Unit {0} → Stays (stop_drive board)
  stopping_lem u = stop_drive-Stays board

  normalise-Stays : (angle : F) → Stays (normalise_degrees board angle)
  unfolding normalise_degrees
  normalise-Stays angle = search latch_rules depth 20 fits 4000

  begin_drive-Stays :
      (forwards : Bool) (ms : ℕ) (heading : F) → Stays (begin_drive board forwards ms heading)
  unfolding begin_drive
  begin_drive-Stays forwards ms heading =
      search (latch_rules, now_lem, motors_set-Stays board) depth 20 fits 4000

  drive_start-Stays :
      (forwards : Bool) (ms : ℕ) (heading : F)
      → Stays (motion_drive_start board forwards ms heading)
  unfolding motion_drive_start
  drive_start-Stays forwards ms heading =
      search
        (
          latch_rules,
          pressed_lem,
          stopping_lem,
          read-Stays board,
          normalise-Stays,
          begin_drive-Stays,
        )
        depth 20 fits 8000

  fail_drive-Stays : Unit {0} → Stays (fail_drive board)
  unfolding fail_drive
  fail_drive-Stays u = search (latch_rules, stopping_lem) depth 20 fits 4000

  steer-Stays : (yaw_error rate : F) → Stays (steer board yaw_error rate)
  unfolding steer
  steer-Stays yaw_error rate = search (latch_rules, motors_set-Stays board) depth 20 fits 4000

  keep_course-Stays : (sample : F × ℕ) → Stays (keep_course board sample)
  unfolding keep_course
  keep_course-Stays sample =
      search (latch_rules, normalise-Stays, fail_drive-Stays, now_lem, stopping_lem, steer-Stays)
        depth 20 fits 8000

  drive_update-Stays : Unit {0} → Stays (motion_drive_update board)
  unfolding motion_drive_update
  drive_update-Stays u =
      search (latch_rules, read-Stays board, fail_drive-Stays, keep_course-Stays) depth 20 fits 4000

  check_settled-Stays : (previous : ℕ) → Stays (check_settled board previous)
  unfolding check_settled
  check_settled-Stays previous = search (latch_rules, normalise-Stays) depth 20 fits 4000

  drive_finish-Stays : Unit {0} → Stays (motion_drive_finish board)
  unfolding motion_drive_finish
  drive_finish-Stays u =
      search (latch_rules, stopping_lem, pressed_lem, settle-Stays board, check_settled-Stays) depth
        20 fits 8000

  drive_loop-Stays : (polls : ℕ) → Stays (motion_drive_loop board polls)
  unfolding motion_drive_loop
  drive_loop-Stays zero = Stays-unending
  drive_loop-Stays (suc polls) =
      search (latch_rules, drive_update-Stays, λ (u : Unit {0}). drive_loop-Stays polls) depth 20
        fits 4000

  drive-Stays :
      (forwards : Bool) (ms : ℕ) (heading : F) → Stays (motion_drive board forwards ms heading)
  unfolding motion_drive
  drive-Stays forwards ms heading =
      search (latch_rules, drive_start-Stays, drive_loop-Stays, drive_finish-Stays) depth 20 fits
        4000

  learn_sign-Stays :
      (direction : Bool) (rate : F) (c : Candidate F) → Stays (learn_sign board direction rate c)
  unfolding learn_sign
  learn_sign-Stays direction rate c = search latch_rules depth 20 fits 4000

  spin-Stays : (direction : Bool) (duty : ℕ) → Stays (spin board direction duty)
  unfolding spin
  spin-Stays direction duty = motors_set-Stays board _ _

  spin_on-Stays : (g : Segment F) → Stays (spin_on board g)
  unfolding spin_on
  spin_on-Stays g = Stays-bind _ _ (Stays-gets _) (λ remaining.
      Stays-bind _ _ (spin-Stays _ _) (λ u. Stays-ask board (Call.sleep_ms motion_sample_ms)))

  abandon-Stays : {A : Type 0} (fault : Fault) (a : A) → Stays (abandon board fault a)
  abandon-Stays fault a =
      Stays-bind _ _ motors_stop-Stays (λ u. Stays-bind _ _ (Stays-raise fault) (λ v. Stays-pure a))

  segment-Stays :
      (polls : ℕ) (g : Segment F) (previous : ℕ) (c : Candidate F)
      → Stays (segment_loop board polls g previous c)
  unfolding segment_loop
  segment-Stays zero g previous c = Stays-unending
  segment-Stays (suc polls) g previous c = Stays-bind _ _ (now_ms-Stays board) (λ now.
      Stays-if _ _ _ (abandon-Stays Fault.turn none) (
        Stays-bind _ _ (read-Stays board Movement.turn previous) (λ reading.
          Stays-on_some reading _ _ (Stays-pure none) (λ sample.
            Stays-bind _ _ (learn_sign-Stays g.direction sample.0 c) (λ next.
              Stays-bind _ _ (Stays-gets _) (λ s. Stays-if _ _ _ (Stays-pure (some sample.1)) (
                Stays-if _ _ _ (abandon-Stays Fault.heading none) (
                  Stays-bind _ _ (now_ms-Stays board) (λ later.
                    Stays-if _ _ _ (abandon-Stays Fault.turn none) (
                      Stays-bind _ _
                        (Stays-if _ _ _ (Stays-pure g.segment_started_ms) (now_ms-Stays board))
                        (λ last. Stays-if _ _ _ (Stays-pure (some sample.1)) (
                          Stays-bind _ _ (spin_on-Stays g)
                            (λ u. segment-Stays polls g sample.1 next)))))))))))))

  attempt-Stays :
      (left attempt : ℕ) (degrees heading_before : F) (start previous : ℕ)
      → Stays (attempt_loop board left attempt degrees heading_before start previous)
  unfolding attempt_loop
  attempt-Stays zero attempt degrees heading_before start previous = abandon-Stays Fault.turn false
  attempt-Stays (suc left) attempt degrees heading_before start previous =
      Stays-bind _ _ (Stays-gets _) (λ s. Stays-if _ _ _ (Stays-pure true) (
        Stays-bind _ _ (now_ms-Stays board) (λ now. Stays-bind _ _ (spin-Stays _ _) (λ u.
          Stays-bind _ _ (segment-Stays board.polls _ previous _) (λ turned.
            Stays-on_some turned _ _ (Stays-pure false) (λ at.
              Stays-bind _ _ motors_stop-Stays (λ v.
                Stays-bind _ _ (settle-Stays board Movement.turn at) (λ settled.
                  Stays-on_some settled _ _ (Stays-pure false) (λ end.
                    Stays-bind _ _ (Stays-gets _) (λ error.
                      Stays-if _ _ _ (Stays-pure true) (
                        attempt-Stays left (attempt + 1) degrees heading_before start end)))))))))))

  turn_degrees-Stays : (degrees : F) → Stays (turn_degrees board degrees)
  unfolding turn_degrees
  turn_degrees-Stays degrees =
      search (latch_rules, pressed_lem, motors_stop-Stays, read-Stays board, now_lem, attempt-Stays)
        depth 40 fits 20000

  turn_to_heading-Stays : (heading : F) → Stays (turn_to_heading board heading)
  unfolding turn_to_heading
  turn_to_heading-Stays heading =
      search (latch_rules, normalise-Stays, turn_degrees-Stays) depth 20 fits 4000

  learn_direction-Stays : Stays (motion_learn_direction board)
  unfolding motion_learn_direction
  learn_direction-Stays =
      search (latch_rules, turn_degrees-Stays, turn_to_heading-Stays, motors_stop-Stays) depth 20
        fits 4000

  calibrate_loop-Stays : (left : ℕ) (sum : F) → Stays (calibrate_loop board left sum)
  unfolding calibrate_loop recover_gyro_stopped
  calibrate_loop-Stays zero sum = Stays-pure _
  calibrate_loop-Stays (suc left) sum =
      search
        (
          latch_rules,
          recover_loop-Stays board,
          pause_checked-Stays board,
          calibrate_loop-Stays left,
        )
        depth 20 fits 4000

  calibrate-Stays : Stays (motion_calibrate board)
  unfolding motion_calibrate calibrate_gyro
  calibrate-Stays = search (latch_rules, stopping_lem, calibrate_loop-Stays) depth 20 fits 4000

  init-Stays : Stays (motion_init board)
  unfolding motion_init
  init-Stays = Stays-bind _ _ motors_stop-Stays (λ u.
      Stays-bind _ _ (Stays-modify _ (λ s p. p)) (λ v.
        Stays-bind _ _ (Stays-ask board Call.init_imu) (λ found.
          Stays-bind _ _ (Stays-if found _ _ (Stays-ask board Call.set_range) (Stays-pure false))
            (λ ranged.
              Stays-if (not ranged) _ _
                (Stays-bind _ _ (Stays-raise Fault.imu) (λ w. Stays-pure false))
                (Stays-bind _ _
                  (Stays-modify _
                    (λ s p. ((fault_set_laws Fault.stop_latched Fault.imu s.faults).1 ∙ p.0, p.1)))
                  (λ w. Stays-pure true))))))

  arm_stop-Stays : Stays (motion_arm_stop board)
  unfolding motion_arm_stop
  arm_stop-Stays = search (latch_rules, pressed_lem) depth 20 fits 4000

  discard-Stays : {A : Type 0} (m : M W F A) → Stays m → Stays (m >> pure tt)
  discard-Stays m k = Stays-bind m _ k (λ a. Stays-pure tt)

  perform-Stays : (o : Operation F) → Stays (perform board o)
  perform-Stays Operation.init = discard-Stays _ init-Stays
  perform-Stays Operation.calibrate = discard-Stays _ calibrate-Stays
  perform-Stays Operation.learn_direction = discard-Stays _ learn_direction-Stays
  perform-Stays Operation.drive_update = discard-Stays _ (drive_update-Stays tt)
  perform-Stays Operation.drive_finish = discard-Stays _ (drive_finish-Stays tt)
  perform-Stays Operation.arm_stop = arm_stop-Stays
  perform-Stays Operation.stop = stop_drive-Stays board
  perform-Stays Operation.stop_requested = discard-Stays _ (stop_pressed-Stays board)
  perform-Stays (Operation.drive forwards ms heading) =
      discard-Stays _ (drive-Stays forwards ms heading)
  perform-Stays (Operation.drive_start forwards ms heading) =
      discard-Stays _ (drive_start-Stays forwards ms heading)
  perform-Stays (Operation.turn heading) = discard-Stays _ (turn_to_heading-Stays heading)
  perform-Stays (Operation.pause ms) = discard-Stays _ (pause_checked-Stays board ms)

  perform_all-Stays : (os : List (Operation F)) → Stays (perform_all board os)
  perform_all-Stays [] = Stays-pure tt
  perform_all-Stays (o ∷ os) = Stays-bind _ _ (perform-Stays o) (λ u. perform_all-Stays os)

  -- Once the stop is latched and the wheels are off, no sequence of operations, whether it ends or stays in
  -- a loop for all of its polls, clears the latch or puts one of the motors' four pins above level 0,
  -- whatever the gyro, the buttons and the clock answer and whatever C's float computes.
  pub stop_is_final :
      (os : List (Operation F)) (s : Motion W F)
      → fault_test Fault.stop_latched s.faults ≡ true
      → IsQuiet (view s)
      → let t = (perform_all board os s).1 in
        (fault_test Fault.stop_latched t.faults ≡ true)
        × ((t.m1_a ≡ 0) × (t.m1_b ≡ 0) × (t.m2_a ≡ 0) × (t.m2_b ≡ 0) × (t.motors_powered ≡ false))
  stop_is_final os s latched off = (perform_all-Stays os).at s (latched, off)
