-- ===== src/Run/Frame.antt =====
-- The parts of getting_there.c that drive no block: they leave the travel as it is, refuse no return,
-- and their loops end by themselves.
use inf2004_aai19_embedded_s.Common.{ℕ, ◌≡◌, Bool, true, false, ◌||◌, List, [], ◌∷◌, if◌then◌else◌}
use inf2004_aai19_embedded_s.Client.{Result}
use inf2004_aai19_embedded_s.Buzzer.{RobotCue}
use inf2004_aai19_embedded_s.Run.{
  Call, Robot, Run, Failure, End, M, pure, stop, gets, modify, fail, ask, ◌>>=◌,
}
use inf2004_aai19_embedded_s.Run.Triple.{Triple, Triple-bind, Triple-pure, Triple-stop}

abbrev pub is_refused_return : Failure → Bool
is_refused_return (Failure.budget_refused false) = true
is_refused_return _ = false

-- Whether the budget refused a block of a return.
abbrev pub refused_return : List Failure → Bool
refused_return [] = false
refused_return (x ∷ xs) = is_refused_return x || refused_return xs

abbrev pub is_no_fuel : End → Bool
is_no_fuel End.no_fuel = true
is_no_fuel _ = false

module _ {W : Type 0} where
  abbrev pub Travelled : ℕ → Run W → Type 0
  Travelled t s = (s.translation_ms ≡ t) × (refused_return s.failures ≡ false)

  abbrev pub Proper : End → Run W → Type 0
  Proper e s = (is_no_fuel e ≡ false) × (refused_return s.failures ≡ false)

-- `m` leaves the travel as it is.
pub record Frames {W A : Type 0} (m : M W A) : Type 0 where
  pub keeps : (t : ℕ) → Triple (Travelled t) m (λ _. Travelled t) Proper

module _ {W A : Type 0} where
  pub Frames-pure : (a : A) → Frames {W = W} (pure a)
  Frames-pure a = record { keeps = λ t. Triple-pure a (λ s h. h) }

  pub Frames-stop : (e : End) → is_no_fuel e ≡ false → Frames {W = W} {A = A} (stop e)
  Frames-stop e p = record { keeps = λ t. Triple-stop e (λ s h. (p, h.1)) }

  pub Frames-gets : (f : Run W → A) → Frames (gets f)
  unfolding gets
  Frames-gets f = record { keeps = λ t. record { at = λ s h. h } }

  pub Frames-if : (b : Bool) (m n : M W A) → Frames m → Frames n → Frames (if b then m else n)
  Frames-if true m n km kn = km
  Frames-if false m n km kn = kn

module _ {W A B : Type 0} where
  pub Frames-bind :
      (m : M W A) (f : A → M W B) → Frames m → ((a : A) → Frames (f a)) → Frames (m >>= f)
  Frames-bind m f km kf = record { keeps = λ t. Triple-bind (km.keeps t) (λ a. (kf a).keeps t) }

module _ {W : Type 0} where
  pub Frames-modify :
      (f : Run W → Run W)
      → ((s : Run W) → (f s).translation_ms ≡ s.translation_ms)
      → ((s : Run W) → (f s).failures ≡ s.failures)
      → Frames (modify f)
  unfolding modify
  Frames-modify f p q = record { keeps = λ t. record { at = λ s h. (rw (p s) h.0, rw (q s) h.1) } }

  pub Frames-fail : (x : Failure) → is_refused_return x ≡ false → Frames {W = W} (fail x)
  unfolding fail
  Frames-fail x p = record { keeps = λ t. record { at = λ s h. (h.0, rw p h.1) } }

  pub Frames-ask : (robot : Robot W) (c : Call) → Frames (ask robot c)
  unfolding ask
  Frames-ask robot c = record { keeps = λ t. record { at = λ s h. h } }

  -- The same at the calls that stand for an action of a plain type.
  pub Frames-quiesce : (robot : Robot W) → Frames {A = Bool} (ask robot Call.sampler_quiesce)
  Frames-quiesce robot = Frames-ask robot Call.sampler_quiesce

  pub Frames-available : (robot : Robot W) → Frames {A = Bool} (ask robot Call.sensor_available)
  Frames-available robot = Frames-ask robot Call.sensor_available

  pub Frames-poll : (robot : Robot W) → Frames {A = Bool} (ask robot Call.poll_moving)
  Frames-poll robot = Frames-ask robot Call.poll_moving

  pub Frames-cue :
      (robot : Robot W) (cue : RobotCue) → Frames {A = Unit {0}} (ask robot (Call.cue_play cue))
  Frames-cue robot cue = Frames-ask robot (Call.cue_play cue)

  pub Frames-sleep :
      (robot : Robot W) (ms : ℕ) → Frames {A = Unit {0}} (ask robot (Call.sleep_ms ms))
  Frames-sleep robot ms = Frames-ask robot (Call.sleep_ms ms)

  pub Frames-note : (robot : Robot W) → Frames {A = Unit {0}} (ask robot Call.note_lighter_mat)
  Frames-note robot = Frames-ask robot Call.note_lighter_mat

  pub Frames-position :
      (robot : Robot W) (h ms : ℕ) (forwards : Bool)
      → Frames {A = Unit {0}} (ask robot (Call.set_position h ms forwards))
  Frames-position robot h ms forwards = Frames-ask robot (Call.set_position h ms forwards)

  pub Frames-retry : (robot : Robot W) → Frames {A = Result × Bool} (ask robot Call.payload_retry)
  Frames-retry robot = Frames-ask robot Call.payload_retry

  pub Frames-attempt :
      (robot : Robot W) → Frames {A = Result × Bool} (ask robot Call.payload_attempt)
  Frames-attempt robot = Frames-ask robot Call.payload_attempt

pub ruleset frame_rules = (
  Frames-pure, Frames-stop, Frames-gets, Frames-if, Frames-bind, Frames-modify, Frames-fail,
  Frames-ask, Frames-quiesce, Frames-available, Frames-poll, Frames-cue, Frames-sleep, Frames-note,
  Frames-position, Frames-retry, Frames-attempt,
)
