-- ===== src/Motion/Driving.antt =====
-- getting_there/motion.c: what a straight drive does to the wheels' pins.
use inf2004_aai19_embedded_s.Common.{ℕ, zero, suc, ◌≡◌, refl, ap, ◌∙◌, Bool, true, false, not}
use inf2004_aai19_embedded_s.Common.Int.{ℤ}
use inf2004_aai19_embedded_s.Motion.{Call, Board, motors_set, write_motors}
use inf2004_aai19_embedded_s.Motion.Gyro.{Movement}
use inf2004_aai19_embedded_s.Motion.Drive.{
  normalise_degrees, is_off_course, begin_drive, motion_drive_start, fail_drive, steer, keep_course,
  motion_drive_update, check_settled, motion_drive_finish, motion_drive_loop, motion_drive,
}
use inf2004_aai19_embedded_s.Motion.Triple.{
  View, Triple, Keeps, Triple-pure, Keeps-pure, Keeps-unending, Keeps-gets, Triple-if, Keeps-if,
  Triple-before, Triple-weaken, Triple-bind, Keeps-bind, Triple-look, Triple-on_some, Keeps-modify,
  Keeps-ask, keep_rules,
}
use inf2004_aai19_embedded_s.Motion.Wheels.{
  IsQuiet, IsSafe, now_ms-Keeps, stop_pressed-Keeps, stop_drive_lem, stop_drive-Keeps, read_lem,
  settle_lem,
}

-- An active drive.
abbrev IsActive : View → Type 0
IsActive w = w.active ≡ true

module _ {W F : Type 0} (board : Board W F) where
  pub quiet-IsSafe : (w : View) → IsQuiet w → IsSafe w
  quiet-IsSafe w p a = p

  active-IsSafe : (w : View) → IsActive w → IsSafe w
  active-IsSafe w a b = cc

  motors_set_lem : (left right : ℤ) → Keeps IsActive (motors_set board left right)
  unfolding motors_set write_motors
  motors_set_lem left right = search (keep_rules, stop_pressed-Keeps board) depth 20 fits 4000

  pub normalise-Keeps : {P : View → Type 0} (angle : F) → Keeps P (normalise_degrees board angle)
  unfolding normalise_degrees
  normalise-Keeps angle = search keep_rules depth 20 fits 4000

  begin_drive_lem :
      (forwards : Bool) (ms : ℕ) (heading : F)
      → Triple IsSafe (begin_drive board forwards ms heading) (λ b. IsSafe)
  unfolding begin_drive
  begin_drive_lem forwards ms heading =
      Triple-bind {R = λ u w. Unit {0}} (record { at = λ s p. tt })
        (λ u. Triple-bind (now_ms-Keeps board) (λ now.
          Triple-bind (Keeps-ask board Call.now_us) (λ us.
            Triple-bind {R = λ v. IsActive} (record { at = λ s p. refl })
              (λ v. Triple-bind (motors_set_lem _ _) (λ set. Triple-pure true active-IsSafe)))))

  pub drive_start_lem :
      (forwards : Bool) (ms : ℕ) (heading : F)
      → Keeps IsSafe (motion_drive_start board forwards ms heading)
  unfolding motion_drive_start
  drive_start_lem forwards ms heading = Triple-bind (Keeps-gets _) (λ s.
      Triple-bind (Keeps-if _ _ _ (Keeps-pure true) (stop_pressed-Keeps board)) (λ blocked.
        Keeps-if _ _ _
          (Keeps-bind _ _ (stop_drive-Keeps board quiet-IsSafe) (λ u. Keeps-pure false))
          (Keeps-bind _ _ (Keeps-ask board Call.now_us) (λ us.
            Triple-bind (read_lem board quiet-IsSafe Movement.pre_drive us) (λ reading.
              Triple-on_some reading (Triple-pure false quiet-IsSafe) (λ sample.
                search (keep_rules, normalise-Keeps, begin_drive_lem) depth 20 fits 4000))))))

  fail_drive_lem : {P : View → Type 0} → Triple P (fail_drive board) (λ b. IsQuiet)
  unfolding fail_drive
  fail_drive_lem =
      Triple-bind (stop_drive_lem board)
        (λ u. Triple-bind (Keeps-modify _ (λ s p. p)) (λ v. Keeps-pure false))

  steer_lem : (yaw_error rate : F) → Keeps IsActive (steer board yaw_error rate)
  unfolding steer
  steer_lem yaw_error rate = search (keep_rules, motors_set_lem) depth 20 fits 4000

  keep_course_lem : (sample : F × ℕ) → Keeps IsSafe (keep_course board sample)
  unfolding keep_course
  keep_course_lem sample = Triple-bind (Keeps-modify _ (λ s p. p)) (λ u.
      Triple-look (λ s. s) _
        (λ s. Triple-bind (normalise-Keeps _) (λ yaw_error.
          Triple-if (is_off_course board yaw_error s)
            (λ off. Triple-bind fail_drive_lem (λ failed.
              Triple-bind (Keeps-modify _ (λ s p. p)) (λ u. Triple-pure failed quiet-IsSafe)))
            (λ near.
              Triple-if (not s.drive_active) (λ over. Triple-pure true (λ w p. p.0))
                (λ driving. Triple-bind (now_ms-Keeps board) (λ now.
                  Triple-if _
                    (λ done.
                      Triple-bind (stop_drive_lem board) (λ u. Triple-pure true quiet-IsSafe))
                    (λ on.
                      Triple-before
                        (λ w p. ap (λ (v : View). v.active) p.1 ∙ driven s.drive_active driving)
                        (Triple-weaken (λ b. active-IsSafe) (steer_lem yaw_error sample.0)))))))))
    where
      driven : (b : Bool) → not b ≡ false → b ≡ true
      driven true h = refl
      driven false h = cc

  pub drive_update_lem : Keeps IsSafe (motion_drive_update board)
  unfolding motion_drive_update
  drive_update_lem = Triple-bind (Keeps-gets _) (λ s. Keeps-if _ _ _ (Keeps-pure _) (
      Triple-bind (read_lem board quiet-IsSafe Movement.drive s.drive_previous_us) (λ reading.
        Triple-on_some reading (Triple-weaken (λ b. quiet-IsSafe) fail_drive_lem) keep_course_lem)))

  check_settled-Keeps : {P : View → Type 0} (previous : ℕ) → Keeps P (check_settled board previous)
  unfolding check_settled
  check_settled-Keeps previous = search (keep_rules, normalise-Keeps) depth 20 fits 4000

  pub drive_finish_lem : {P : View → Type 0} → Triple P (motion_drive_finish board) (λ b. IsQuiet)
  unfolding motion_drive_finish
  drive_finish_lem = Triple-bind (stop_drive_lem board) (λ u. Triple-bind (Keeps-gets _) (λ s.
      Keeps-if _ _ _ (Keeps-pure _) (
        Keeps-bind _ _ (Keeps-modify _ (λ t p. p)) (λ v.
          Keeps-bind _ _ (Keeps-if _ _ _ (Keeps-pure true) (stop_pressed-Keeps board)) (λ over.
            Keeps-if _ _ _ (Keeps-pure false) (
              Triple-bind (settle_lem board (λ w p. p) Movement.drive s.drive_previous_us)
                (λ settled. Triple-on_some settled (Keeps-pure false) check_settled-Keeps)))))))

  drive_loop_lem : (polls : ℕ) → Keeps IsSafe (motion_drive_loop board polls)
  unfolding motion_drive_loop
  drive_loop_lem zero = Keeps-unending
  drive_loop_lem (suc polls) =
      search
        (keep_rules, λ (u : Unit {0}). drive_update_lem, λ (u : Unit {0}). drive_loop_lem polls)
        depth 20 fits 4000

  pub drive_lem :
      (forwards : Bool) (ms : ℕ) (heading : F)
      → Keeps IsSafe (motion_drive board forwards ms heading)
  unfolding motion_drive
  drive_lem forwards ms heading = Triple-bind (drive_start_lem forwards ms heading) (λ begun.
      Keeps-if _ _ _ (Keeps-pure false) (
        Triple-bind (drive_loop_lem board.polls)
          (λ u. Triple-weaken (λ b. quiet-IsSafe) drive_finish_lem)))
