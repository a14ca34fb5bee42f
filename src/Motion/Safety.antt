-- ===== src/Motion/Safety.antt =====
-- getting_there/motion.c: the wheels' pins over every sequence of its operations.
use inf2004_aai19_embedded_s.Common.{ℕ, ◌≡◌, Bool, false, Option, none, some, List, [], ◌∷◌}
use inf2004_aai19_embedded_s.Motion.{
  Board, Motion, M, pure, ◌>>◌, stop_pressed, stop_drive, pause_checked, motion_arm_stop,
}
use inf2004_aai19_embedded_s.Motion.Drive.{
  motion_drive_start, motion_drive_update, motion_drive_finish, motion_drive,
}
use inf2004_aai19_embedded_s.Motion.Turn.{
  turn_to_heading, motion_learn_direction, motion_calibrate, motion_init,
}
use inf2004_aai19_embedded_s.Motion.Triple.{
  View, view, Ended, Triple, Keeps, Triple-pure, Keeps-pure, Triple-bind, keep_rules,
}
use inf2004_aai19_embedded_s.Motion.Driving.{
  quiet-IsSafe, drive_start_lem, drive_update_lem, drive_finish_lem, drive_lem,
}
use inf2004_aai19_embedded_s.Motion.Turning.{
  turn_to_heading_lem, learn_direction_lem, calibrate_lem, init_lem,
}
use inf2004_aai19_embedded_s.Motion.Wheels.{
  IsSafe, stop_pressed-Keeps, stop_drive-Keeps, pause_checked-Keeps,
}

-- The operations of the interface that change the state, with their arguments.
pub data Operation (F : Type 0) : Type 0 where
  init calibrate learn_direction drive_update drive_finish arm_stop stop stop_requested :
      Operation F
  drive drive_start : Bool → ℕ → F → Operation F
  turn : F → Operation F
  pause : ℕ → Operation F

module _ {W F A : Type 0} where
  abbrev pub discard : M W F A → M W F (Unit {0})
  discard m = do m; pure tt

module _ {W F : Type 0} (board : Board W F) where
  abbrev pub perform : Operation F → M W F (Unit {0})
  perform Operation.init = discard (motion_init board)
  perform Operation.calibrate = discard (motion_calibrate board)
  perform Operation.learn_direction = discard (motion_learn_direction board)
  perform Operation.drive_update = discard (motion_drive_update board)
  perform Operation.drive_finish = discard (motion_drive_finish board)
  perform Operation.arm_stop = motion_arm_stop board
  perform Operation.stop = stop_drive board
  perform Operation.stop_requested = discard (stop_pressed board)
  perform (Operation.drive forwards ms heading) = discard (motion_drive board forwards ms heading)
  perform (Operation.drive_start forwards ms heading) =
      discard (motion_drive_start board forwards ms heading)
  perform (Operation.turn heading) = discard (turn_to_heading board heading)
  perform (Operation.pause ms) = discard (pause_checked board ms)

  abbrev pub perform_all : List (Operation F) → M W F (Unit {0})
  perform_all [] = pure tt
  perform_all (o ∷ os) = do perform o; perform_all os

  arm_stop-Keeps : {P : View → Type 0} → Keeps P (motion_arm_stop board)
  unfolding motion_arm_stop
  arm_stop-Keeps = search (keep_rules, stop_pressed-Keeps board) depth 20 fits 4000

  discard-Keeps :
      {A : Type 0} {m : M W F A} {Q : A → View → Type 0}
      → ((a : A) (w : View) → Q a w → IsSafe w)
      → Triple IsSafe m Q
      → Keeps IsSafe (discard m)
  discard-Keeps f k = Triple-bind k (λ a. Triple-pure tt (f a))

  perform-Keeps : (o : Operation F) → Keeps IsSafe (perform o)
  perform-Keeps Operation.init = discard-Keeps (λ a w p. quiet-IsSafe board w p) (init_lem board)
  perform-Keeps Operation.calibrate =
      discard-Keeps (λ a w p. quiet-IsSafe board w p) (calibrate_lem board)
  perform-Keeps Operation.learn_direction =
      discard-Keeps (λ a w p. quiet-IsSafe board w p) (learn_direction_lem board)
  perform-Keeps Operation.drive_update = discard-Keeps (λ a w p. p) (drive_update_lem board)
  perform-Keeps Operation.drive_finish =
      discard-Keeps (λ a w p. quiet-IsSafe board w p) (drive_finish_lem board)
  perform-Keeps Operation.arm_stop = arm_stop-Keeps
  perform-Keeps Operation.stop = stop_drive-Keeps board (quiet-IsSafe board)
  perform-Keeps Operation.stop_requested = discard-Keeps (λ a w p. p) (stop_pressed-Keeps board)
  perform-Keeps (Operation.drive forwards ms heading) =
      discard-Keeps (λ a w p. p) (drive_lem board forwards ms heading)
  perform-Keeps (Operation.drive_start forwards ms heading) =
      discard-Keeps (λ a w p. p) (drive_start_lem board forwards ms heading)
  perform-Keeps (Operation.turn heading) =
      discard-Keeps (λ a w p. p) (turn_to_heading_lem board heading)
  perform-Keeps (Operation.pause ms) =
      discard-Keeps (λ a w p. p) (pause_checked-Keeps board (quiet-IsSafe board) ms)

  perform_all-Keeps : (os : List (Operation F)) → Keeps IsSafe (perform_all os)
  perform_all-Keeps [] = Keeps-pure tt
  perform_all-Keeps (o ∷ os) = Triple-bind (perform-Keeps o) (λ u. perform_all-Keeps os)

  -- From any state in which the wheels are off or a drive is active, over every sequence of operations
  -- that end, whatever the gyro, the buttons and the clock answer and whatever C's float computes: if no
  -- drive is active afterwards, the four pins of the motors are at level 0.
  pub wheels_off :
      (os : List (Operation F)) (s : Motion W F)
      → IsSafe (view s)
      → (perform_all os s).0 ≡ some tt
      → let t = (perform_all os s).1 in
        t.drive_active ≡ false
        → (t.m1_a ≡ 0) × (t.m1_b ≡ 0) × (t.m2_a ≡ 0) × (t.m2_b ≡ 0) × (t.motors_powered ≡ false)
  wheels_off os s safe ends = ended (perform_all os s) ends ((perform_all-Keeps os).at s safe)
    where
      ended :
          (r : Option (Unit {0}) × Motion W F)
          → r.0 ≡ some tt
          → Ended (λ u. IsSafe) r.0 (view r.1)
          → IsSafe (view r.1)
      ended (some u, t) e p = p
      ended (none, t) e p = cc
