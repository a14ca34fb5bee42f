-- ===== src/Motion/Latch.antt =====
-- getting_there/motion.c: the stop latch, from which on no action of this file powers a motor.
use inf2004_aai19_embedded_s.Common.{
  ℕ, zero, suc, ◌≡◌, refl, ◌∙◌, Bool, true, false, not, Option, none, some, if◌then◌else◌, ◌==◌,
}
use inf2004_aai19_embedded_s.Common.Int.{ℤ}
use inf2004_aai19_embedded_s.Faults.{Fault, fault_code, fault_raise, fault_test}
use inf2004_aai19_embedded_s.Faults.Laws.{fault_set_laws}
use inf2004_aai19_embedded_s.Motion.{
  Call, Board, Motion, M, pure, unending, gets, modify, ask, raise, ◌>>=◌, on_some, continue,
  motor_write, write_motors, motors_stop, now_ms, stop_pressed, motors_set, stop_drive, pause_loop,
  pause_checked,
}
use inf2004_aai19_embedded_s.Motion.Gyro.{
  Movement, recover_loop, recover_gyro_stopped, count_recovery, recovered, integrate,
  read_motion_gyro, settle_loop, settle_motion,
}
use inf2004_aai19_embedded_s.Motion.Triple.{view}
use inf2004_aai19_embedded_s.Motion.Wheels.{IsQuiet}

abbrev pub IsLatched : {W F : Type 0} → Motion W F → Type 0
IsLatched s = (fault_test Fault.stop_latched s.faults ≡ true) × IsQuiet (view s)

-- Raising a fault keeps the latch.
raised :
    (f : Fault) (m : ℕ)
    → fault_test Fault.stop_latched m ≡ true
    → fault_test Fault.stop_latched (fault_raise f m) ≡ true
raised f m h = (fault_set_laws Fault.stop_latched f m).0 ∙ kept (8 == fault_code f)
  where
    kept : (b : Bool) → (if b then true else fault_test Fault.stop_latched m) ≡ true
    kept true = refl
    kept false = h

-- What follows a latched stop is a latched stop.
pub record Stays {W F A : Type 0} (m : M W F A) : Type 0 where
  pub at : (s : Motion W F) → IsLatched s → IsLatched (m s).1

abbrev Truly : Option Bool → Type 0
Truly none = Unit
Truly (some b) = b ≡ true

-- The same, with no result but true.
record StaysTrue {W F : Type 0} (m : M W F Bool) : Type 0 where
  stays : (s : Motion W F) → IsLatched s → IsLatched (m s).1
  says : (s : Motion W F) → IsLatched s → Truly (m s).0

module _ {W F A : Type 0} where
  pub Stays-pure : (a : A) → Stays {W = W} {F = F} (pure a)
  Stays-pure a = record { at = λ s p. p }

  pub Stays-unending : Stays {W = W} {F = F} {A = A} unending
  Stays-unending = record { at = λ s p. p }

  pub Stays-gets : (f : Motion W F → A) → Stays (gets f)
  Stays-gets f = record { at = λ s p. p }

  pub Stays-if : (b : Bool) (m n : M W F A) → Stays m → Stays n → Stays (if b then m else n)
  Stays-if true m n km kn = km
  Stays-if false m n km kn = kn

module _ {W F A B : Type 0} where
  pub Stays-bind :
      (m : M W F A) (f : A → M W F B) → Stays m → ((a : A) → Stays (f a)) → Stays (m >>= f)
  unfolding ◌>>=◌
  Stays-bind m f km kf = record { at = λ s p. goes_on (m s) (km.at s p) }
    where
      goes_on : (r : Option A × Motion W F) → IsLatched r.1 → IsLatched (continue r f).1
      goes_on (some a, s) p = (kf a).at s p
      goes_on (none, s) p = p

  pub Stays-on_some :
      (o : Option A) (n : M W F B) (f : A → M W F B)
      → Stays n
      → ((a : A) → Stays (f a))
      → Stays (on_some o n f)
  Stays-on_some none n f kn kf = kn
  Stays-on_some (some a) n f kn kf = kf a

module _ {W F A : Type 0} where
  StaysTrue-bind :
      {m : M W F A} {f : A → M W F Bool}
      → Stays m
      → ((a : A) → StaysTrue (f a))
      → StaysTrue (m >>= f)
  unfolding ◌>>=◌
  StaysTrue-bind {m} {f} km kf = record {
    stays = (Stays-bind m f km (λ a. record { at = (kf a).stays })).at;
    says = λ s p. goes_on (m s) (km.at s p);
  }
    where
      goes_on : (r : Option A × Motion W F) → IsLatched r.1 → Truly (continue r f).0
      goes_on (some a, s) p = (kf a).says s p
      goes_on (none, s) p = tt

  Stays-then :
      {m : M W F Bool} (f : Bool → M W F A) → StaysTrue m → Stays (f true) → Stays (m >>= f)
  unfolding ◌>>=◌
  Stays-then {m} f km kf = record { at = λ s p. goes_on (m s) (km.stays s p) (km.says s p) }
    where
      goes_on :
          (r : Option Bool × Motion W F) → IsLatched r.1 → Truly r.0 → IsLatched (continue r f).1
      goes_on (some true, s) p q = kf.at s p
      goes_on (some false, s) p q = cc
      goes_on (none, s) p q = p

module _ {W F : Type 0} where
  pub Stays-modify :
      (f : Motion W F → Motion W F)
      → ((s : Motion W F) → IsLatched s → IsLatched (f s))
      → Stays (modify f)
  Stays-modify f h = record { at = h }

  pub Stays-ask : (board : Board W F) (c : Call F) → Stays (ask board c)
  unfolding ask
  Stays-ask board c = record { at = λ s p. p }

  pub Stays-raise : (f : Fault) → Stays {W = W} {F = F} (raise f)
  Stays-raise f = record { at = λ s p. (raised f s.faults p.0, p.1) }

pub ruleset latch_rules = (
  Stays-pure, Stays-unending, Stays-gets, Stays-if, Stays-bind, Stays-on_some, Stays-raise,
  Stays-modify, Stays-ask,
)

module _ {W F : Type 0} where
  pub motors_stop-Stays : Stays {W = W} {F = F} motors_stop
  unfolding motors_stop write_motors motor_write
  motors_stop-Stays = record { at = λ s p. (p.0, (refl, refl, refl, refl, refl)) }

module _ {W F : Type 0} (board : Board W F) where
  pub now_ms-Stays : Stays (now_ms board)
  unfolding now_ms
  now_ms-Stays = search latch_rules depth 20 fits 4000

  pub stop_pressed-Stays : Stays (stop_pressed board)
  unfolding stop_pressed
  stop_pressed-Stays = search latch_rules depth 20 fits 4000

  stop_pressed-StaysTrue : StaysTrue (stop_pressed board)
  unfolding stop_pressed
  stop_pressed-StaysTrue = StaysTrue-bind (Stays-gets _) (λ armed.
      StaysTrue-bind (Stays-if armed _ _ (Stays-ask board Call.stop_level) (Stays-pure true))
        (λ level.
          StaysTrue-bind (Stays-if (not level) _ _ (Stays-raise Fault.stop_latched) (Stays-pure tt))
            (λ u. record { stays = λ s p. p; says = λ s p. p.0 })))

  stopped-StaysTrue : (armed : Bool) → StaysTrue (if armed then stop_pressed board else pure true)
  stopped-StaysTrue true = stop_pressed-StaysTrue
  stopped-StaysTrue false = record { stays = λ s p. p; says = λ s p. refl }

  pub motors_set-Stays : (left right : ℤ) → Stays (motors_set board left right)
  unfolding motors_set write_motors motor_write
  motors_set-Stays left right = Stays-bind _ _ (Stays-gets _) (λ armed.
      Stays-then _ (stopped-StaysTrue armed)
        (Stays-modify _ (λ s p. (p.0, (refl, refl, refl, refl, refl)))))

  pub stop_drive-Stays : Stays (stop_drive board)
  unfolding stop_drive
  stop_drive-Stays = search (latch_rules, motors_stop-Stays, now_ms-Stays) depth 20 fits 4000

  pause_loop-Stays : (polls start ms : ℕ) → Stays (pause_loop board polls start ms)
  unfolding pause_loop
  pause_loop-Stays zero start ms = Stays-unending
  pause_loop-Stays (suc polls) start ms =
      search
        (
          latch_rules,
          λ (u : Unit {0}). now_ms-Stays,
          λ (u : Unit {0}). stop_pressed-Stays,
          motors_stop-Stays,
          pause_loop-Stays polls,
        )
        depth 20 fits 4000

  pub pause_checked-Stays : (ms : ℕ) → Stays (pause_checked board ms)
  unfolding pause_checked
  pause_checked-Stays ms =
      search (latch_rules, λ (u : Unit {0}). now_ms-Stays, pause_loop-Stays) depth 20 fits 4000

  pub recover_loop-Stays : (timed : Bool) (left : ℕ) → Stays (recover_loop board timed left)
  unfolding recover_loop
  recover_loop-Stays timed zero = Stays-pure none
  recover_loop-Stays timed (suc left) =
      search
        (
          latch_rules,
          λ (u : Unit {0}). stop_pressed-Stays,
          λ (u : Unit {0}). recover_loop-Stays timed left,
        )
        depth 20 fits 4000

  count_recovery-Stays : (rate : F) (gap : ℕ) → Stays (count_recovery board rate gap)
  unfolding count_recovery
  count_recovery-Stays rate gap = search latch_rules depth 20 fits 4000

  recovered-Stays : (movement : Movement) (previous : ℕ) → Stays (recovered board movement previous)
  unfolding recovered recover_gyro_stopped
  recovered-Stays movement previous =
      search
        (
          latch_rules,
          motors_stop-Stays,
          λ (u : Unit {0}). stop_drive-Stays,
          recover_loop-Stays,
          count_recovery-Stays,
        )
        depth 20 fits 4000

  integrate-Stays : (previous : ℕ) (sample : F × ℕ) → Stays (integrate board previous sample)
  unfolding integrate
  integrate-Stays previous (rate, now) = search (latch_rules, motors_stop-Stays) depth 20 fits 4000

  pub read-Stays :
      (movement : Movement) (previous : ℕ) → Stays (read_motion_gyro board movement previous)
  unfolding read_motion_gyro
  read-Stays movement previous =
      search
        (
          latch_rules,
          motors_stop-Stays,
          λ (u : Unit {0}). stop_pressed-Stays,
          recovered-Stays,
          integrate-Stays,
        )
        depth 20 fits 4000

  settle_loop-Stays :
      (polls : ℕ) (movement : Movement) (start previous : ℕ)
      → Stays (settle_loop board polls movement start previous)
  unfolding settle_loop
  settle_loop-Stays zero movement start previous = Stays-unending
  settle_loop-Stays (suc polls) movement start previous =
      search (latch_rules, λ (u : Unit {0}). now_ms-Stays, read-Stays, settle_loop-Stays polls)
        depth 20 fits 4000

  pub settle-Stays :
      (movement : Movement) (previous : ℕ) → Stays (settle_motion board movement previous)
  unfolding settle_motion
  settle-Stays movement previous =
      search (latch_rules, λ (u : Unit {0}). now_ms-Stays, settle_loop-Stays) depth 20 fits 4000
