-- ===== src/Motion/Wheels.antt =====
-- getting_there/motion.c: what stops the wheels, and what a reading of the gyro does to them.
use inf2004_aai19_embedded_s.Common.{
  ℕ, zero, suc, ◌≡◌, refl, Bool, false, not, Option, none, some, u32, ltb, ◌+◌, ◌-◌, ◌^◌,
}
use inf2004_aai19_embedded_s.Motion.{
  Call, Board, motor_write, write_motors, motors_stop, now_ms, stop_pressed, stop_drive, pause_loop,
  pause_checked,
}
use inf2004_aai19_embedded_s.Motion.Gyro.{
  Movement, saturated, recover_loop, recover_gyro_stopped, count_recovery, recovered, integrate,
  read_motion_gyro, settle_loop, settle_motion, motion_sample_ms, motor_settle_ms,
}
use inf2004_aai19_embedded_s.Motion.Triple.{
  View, Triple, Keeps, Triple-pure, Keeps-pure, Triple-unending, Keeps-unending, Keeps-gets,
  Triple-if, Keeps-if, Triple-weaken, Triple-bind, Keeps-bind, Either, Triple-on_some, Keeps-modify,
  Keeps-ask, keep_rules,
}

-- All four pins are at level 0.
abbrev pub IsQuiet : View → Type 0
IsQuiet w = (w.m1_a ≡ 0) × (w.m1_b ≡ 0) × (w.m2_a ≡ 0) × (w.m2_b ≡ 0) × (w.powered ≡ false)

abbrev pub IsSafe : View → Type 0
IsSafe w = w.active ≡ false → IsQuiet w

abbrev pub Any : View → Type 0
Any w = Unit

module _ {W F : Type 0} where
  pub motors_stop_lem : {P : View → Type 0} → Triple {W = W} {F = F} P motors_stop (λ u. IsQuiet)
  unfolding motors_stop write_motors motor_write
  motors_stop_lem = record { at = λ s p. (refl, refl, refl, refl, refl) }

module _ {W F : Type 0} (board : Board W F) {P : View → Type 0} where
  pub now_ms-Keeps : Keeps P (now_ms board)
  unfolding now_ms
  now_ms-Keeps = search keep_rules

  pub stop_pressed-Keeps : Keeps P (stop_pressed board)
  unfolding stop_pressed
  stop_pressed-Keeps = search keep_rules depth 20 fits 4000

  pub recover_loop-Keeps : (timed : Bool) (left : ℕ) → Keeps P (recover_loop board timed left)
  unfolding recover_loop
  recover_loop-Keeps timed zero = search keep_rules
  recover_loop-Keeps timed (suc left) =
      search (keep_rules, stop_pressed-Keeps, λ (u : Unit {0}). recover_loop-Keeps timed left) depth
        20 fits 4000

  count_recovery-Keeps : (rate : F) (gap : ℕ) → Keeps P (count_recovery board rate gap)
  unfolding count_recovery
  count_recovery-Keeps rate gap = search keep_rules depth 20 fits 4000

module _ {W F : Type 0} (board : Board W F) where
  -- What follows a stop of the motors keeps them off.
  pub stop_drive_lem : {P : View → Type 0} → Triple P (stop_drive board) (λ u. IsQuiet)
  unfolding stop_drive
  stop_drive_lem = Triple-bind (Keeps-gets _) (λ was_powered. Triple-bind motors_stop_lem (λ u.
      Triple-bind (Keeps-gets _) (λ active.
        Keeps-if (not active) _ _ (Keeps-pure tt)
          (Keeps-bind _ _ (now_ms-Keeps board) (λ now. Keeps-modify _ (λ s p. p))))))

  recovered_lem :
      {P : View → Type 0} (movement : Movement) (previous : ℕ)
      → Triple P (recovered board movement previous) (λ o. IsQuiet)
  unfolding recovered recover_gyro_stopped
  recovered_lem movement previous = Triple-bind (Keeps-gets _) (λ active.
      Triple-bind (Triple-if active (λ a. stop_drive_lem) (λ a. motors_stop_lem)) (λ u.
        search (keep_rules, recover_loop-Keeps board, count_recovery-Keeps board) depth 20 fits
          4000))

module _ {W F : Type 0} (board : Board W F) {P : View → Type 0}
    (q : (w : View) → IsQuiet w → P w) where
  pub motors_stop-Keeps : Keeps {W = W} {F = F} P motors_stop
  motors_stop-Keeps = Triple-weaken (λ u. q) motors_stop_lem

  pub stop_drive-Keeps : Keeps P (stop_drive board)
  stop_drive-Keeps = Triple-weaken (λ u. q) (stop_drive_lem board)

  pause_loop-Keeps : (polls start ms : ℕ) → Keeps P (pause_loop board polls start ms)
  unfolding pause_loop
  pause_loop-Keeps zero start ms = Keeps-unending
  pause_loop-Keeps (suc polls) start ms =
      search
        (
          keep_rules,
          now_ms-Keeps board,
          stop_pressed-Keeps board,
          motors_stop-Keeps,
          pause_loop-Keeps polls,
        )
        depth 20 fits 4000

  pub pause_checked-Keeps : (ms : ℕ) → Keeps P (pause_checked board ms)
  unfolding pause_checked
  pause_checked-Keeps ms =
      search (keep_rules, now_ms-Keeps board, pause_loop-Keeps) depth 20 fits 4000

  integrate_lem :
      (previous : ℕ) (sample : F × ℕ)
      → Triple P (integrate board previous sample) (Either IsQuiet P)
  unfolding integrate
  integrate_lem previous (rate, now) =
      Triple-if (saturated board.floats rate)
        (λ s.
          Triple-bind motors_stop_lem
            (λ u. Triple-bind (Keeps-modify _ (λ t p. p)) (λ v. Triple-pure none (λ w p. p))))
        (λ s.
          Triple-bind (Keeps-modify _ (λ t p. p)) (λ u. Triple-pure (some (rate, now)) (λ w p. p)))

  -- A reading that fails leaves the motors off.
  pub read_lem :
      (movement : Movement) (previous : ℕ)
      → Triple P (read_motion_gyro board movement previous) (Either IsQuiet P)
  unfolding read_motion_gyro
  read_lem movement previous = Triple-bind (stop_pressed-Keeps board) (λ stopped.
      Triple-if stopped (λ s. Triple-bind motors_stop_lem (λ u. Triple-pure none (λ w p. p)))
        (λ s. Triple-bind (Keeps-ask board Call.read_gyro) (λ reading.
          Triple-bind (Keeps-if reading.0 _ _ (Keeps-ask board Call.now_us) (Keeps-pure 0)) (λ now.
            Triple-bind
              (Triple-if reading.0 (λ r. Triple-pure (some (reading.1, now)) (λ w p. p))
                (λ r. Triple-weaken (λ o w. found o w) (recovered_lem board movement previous)))
              (λ o. Triple-on_some o (Triple-pure none (λ w p. p)) (integrate_lem previous))))))
    where
      found : (o : Option (F × ℕ)) (w : View) → IsQuiet w → Either IsQuiet P o w
      found none w p = p
      found (some a) w p = q w p

  settle_loop_lem :
      (polls : ℕ) (movement : Movement) (start previous : ℕ)
      → Triple P (settle_loop board polls movement start previous) (Either IsQuiet P)
  unfolding settle_loop
  settle_loop_lem zero movement start previous = Triple-unending
  settle_loop_lem (suc polls) movement start previous = Triple-bind (now_ms-Keeps board) (λ now.
      Triple-bind (read_lem movement previous) (λ reading.
        Triple-if (not (ltb (u32 (now + 2 ^ 32 - start)) motor_settle_ms))
          (λ over. Triple-pure _ (settled reading))
          (λ on. Triple-on_some reading (Triple-pure none (λ w p. p)) (λ sample.
            Triple-bind (Keeps-ask board (Call.sleep_ms motion_sample_ms))
              (λ u. settle_loop_lem polls movement start sample.1)))))
    where
      settled :
          (o : Option (F × ℕ)) (w : View)
          → Either IsQuiet P o w
          → Either IsQuiet P (elim o [ none ↦ none | some sample ↦ some sample.1 ]) w
      settled none w p = p
      settled (some a) w p = p

  pub settle_lem :
      (movement : Movement) (previous : ℕ)
      → Triple P (settle_motion board movement previous) (Either IsQuiet P)
  unfolding settle_motion
  settle_lem movement previous =
      Triple-bind (now_ms-Keeps board)
        (λ start. settle_loop_lem board.polls movement start previous)
