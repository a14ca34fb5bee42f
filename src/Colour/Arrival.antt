-- ===== src/Colour/Arrival.antt =====
-- What an arrival means over the checks of a run.
use inf2004_aai19_embedded_s.Common.{
  ℕ, suc, ◌≤◌, ◌<◌, ◌≡◌, refl, ap, ◌∙◌, ◌⊎◌, inl, inr, Bool, true, false, ◌&&◌, ◌||◌, Option, none,
  some, List, [], ◌∷◌, arith, if◌then◌else◌,
}
use inf2004_aai19_embedded_s.Common.Int.{negsuc}
use inf2004_aai19_embedded_s.Colour.{
  Zone, Sensor, Readings, is_dark, colour_lighter_mat_zone, colour_arrival_reset, zones_of,
  failed_check, finished_check, check_zones, colour_arrival_check, colour_note_lighter_mat,
}

-- What a run does with the sensor after its start: a check, or the note of `mat_approach` that a scan of
-- the colours around the robot showed a lighter part of the mat.
pub data SensorStep : Type 0 where
  check : Readings → SensorStep
  note_lighter : SensorStep

abbrev pub sensor_step : SensorStep → Sensor → Sensor
sensor_step (SensorStep.check x) s = (colour_arrival_check x s).1
sensor_step SensorStep.note_lighter s = colour_note_lighter_mat s

abbrev pub run_steps : List SensorStep → Sensor → Sensor
run_steps [] s = s
run_steps (x ∷ xs) s = run_steps xs (sensor_step x s)

-- Whether a check has three readings and one of them shows a lighter part of the mat; whether one
-- of several checks has.
abbrev pub any_lighter : Option (Zone × Zone × Zone) → Bool
any_lighter none = false
any_lighter (some (a, b, c)) =
    colour_lighter_mat_zone a || colour_lighter_mat_zone b || colour_lighter_mat_zone c

abbrev pub shows_lighter : List SensorStep → Bool
shows_lighter [] = false
shows_lighter (SensorStep.check x ∷ xs) = any_lighter (zones_of x) || shows_lighter xs
shows_lighter (SensorStep.note_lighter ∷ xs) = shows_lighter xs

abbrev pub notes_lighter : List SensorStep → Bool
notes_lighter [] = false
notes_lighter (SensorStep.check x ∷ xs) = notes_lighter xs
notes_lighter (SensorStep.note_lighter ∷ xs) = true

abbrev pub all_dark : Option (Zone × Zone × Zone) → Bool
all_dark none = false
all_dark (some (a, b, c)) = is_dark a && is_dark b && is_dark c

check_zones-lighter :
    (z : Option (Zone × Zone × Zone)) (s : Sensor)
    → (check_zones z s).1.lighter_mat_seen ≡ (s.lighter_mat_seen || any_lighter z)
unfolding check_zones finished_check failed_check
check_zones-lighter none s = ground arith
check_zones-lighter (some (a, b, c)) s = ground arith

check_zones-arrived :
    (z : Option (Zone × Zone × Zone)) (s : Sensor)
    → (check_zones z s).0 ≡ (all_dark z && s.lighter_mat_seen)
unfolding check_zones finished_check
check_zones-arrived none s = refl
check_zones-arrived (some (a, b, c)) s = ground arith

seen_before :
    (xs : List SensorStep) (s : Sensor)
    → (run_steps xs s).lighter_mat_seen ≡ true
    → (s.lighter_mat_seen ≡ true) ⊎ ((shows_lighter xs || notes_lighter xs) ≡ true)
unfolding colour_arrival_check
seen_before [] s h = inl h
seen_before (SensorStep.note_lighter ∷ xs) s h = inr (ground arith)
seen_before (SensorStep.check x ∷ xs) s h = ground (
  arith,
  seen_before xs (colour_arrival_check x s).1 h,
  check_zones-lighter (zones_of x) (record s { on_mat = false; last_depth = negsuc 0 }),
)

arrived :
    (s : Sensor) (x : Readings)
    → (colour_arrival_check x s).0 ≡ true
    → (s.available ≡ true) × (all_dark (zones_of x) ≡ true) × (s.lighter_mat_seen ≡ true)
unfolding colour_arrival_check
arrived s x h =
    ground
      (arith, check_zones-arrived (zones_of x) (record s { on_mat = false; last_depth = negsuc 0 }))

-- From the start of a run on, a check confirms the arrival only if the sensor is available, all three
-- readings of the check are of ring 4 or 5, and before it in the run a check, in which every reading
-- succeeded, showed the white edge or one of the rings 1 to 3, or a scan around the robot on the mat was
-- noted to have shown one.
pub arrival_needs_lighter :
    (s : Sensor) (xs : List SensorStep) (x : Readings)
    → (colour_arrival_check x (run_steps xs (colour_arrival_reset s))).0 ≡ true
    → ((run_steps xs (colour_arrival_reset s)).available ≡ true)
      × (all_dark (zones_of x) ≡ true)
      × ((shows_lighter xs || notes_lighter xs) ≡ true)
unfolding colour_arrival_reset
arrival_needs_lighter s xs x h =
    let s0 = colour_arrival_reset s in
    let (on, dark, seen) = arrived (run_steps xs s0) x h in
    let before = seen_before xs s0 seen in (on, dark, ground arith)

failed-step :
    (x : Readings) (s : Sensor) (n : ℕ)
    → zones_of x ≡ none
    → (s.available ≡ false) ⊎ (n ≤ s.failed_checks)
    → let s' = (colour_arrival_check x s).1 in
      (s'.available ≡ false) ⊎ ((suc n ≤ s'.failed_checks) × (suc n < 3))
unfolding colour_arrival_check check_zones failed_check
failed-step x s n e h = rw (e) (ground arith)

idle : (x : Readings) (s : Sensor) → s.available ≡ false → (colour_arrival_check x s).1 ≡ s
unfolding colour_arrival_check
idle x s h = ground arith

unavailable :
    (xs : List SensorStep) (s : Sensor)
    → s.available ≡ false
    → run_steps xs s ≡ (if notes_lighter xs then colour_note_lighter_mat s else s)
unavailable [] s h = refl
unavailable (SensorStep.check x ∷ xs) s h = ap (run_steps xs) (idle x s h) ∙ unavailable xs s h
unavailable (SensorStep.note_lighter ∷ xs) s h =
    unavailable xs (colour_note_lighter_mat s) h ∙ noted (notes_lighter xs)
  where
    noted :
        (b : Bool)
        → (if b
            then colour_note_lighter_mat (colour_note_lighter_mat s)
            else colour_note_lighter_mat s)
          ≡ colour_note_lighter_mat s
    noted true = refl
    noted false = refl

-- Three checks in a row with a failing reading make the sensor unavailable for good: later checks
-- change nothing, and the note of a lighter part of the mat changes nothing else.
pub three_failures :
    (s : Sensor) (x y z : Readings) (xs : List SensorStep)
    → zones_of x ≡ none
    → zones_of y ≡ none
    → zones_of z ≡ none
    → let s3 = run_steps (SensorStep.check x ∷ SensorStep.check y ∷ SensorStep.check z ∷ []) s in
      (s3.available ≡ false)
      × (run_steps xs s3 ≡ (if notes_lighter xs then colour_note_lighter_mat s3 else s3))
three_failures s x y z xs hx hy hz =
    let s1 = (colour_arrival_check x s).1 in
    let s2 = (colour_arrival_check y s1).1 in
    let one = failed-step x s 0 hx (omega arith) in
    let two = failed-step y s1 1 hy (ground arith) in
    let off : (colour_arrival_check z s2).1.available ≡ false =
      ground (arith, failed-step z s2 2 hz) in
    (off, unavailable xs (colour_arrival_check z s2).1 off)
