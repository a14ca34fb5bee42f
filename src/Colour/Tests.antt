-- ===== src/Colour/Tests.antt =====
-- Checks of a run that crosses ring 2 and stops on ring 5.
use inf2004_aai19_embedded_s.Common.{◌≡◌, ◌||◌, refl, true, false, Option, some, none, [], ◌∷◌}
use inf2004_aai19_embedded_s.Common.Int.{negsuc}
use inf2004_aai19_embedded_s.Colour.{
  Reading, Readings, Sensor, colour_gr_x1000, colour_classify, zones_of, check_zones,
  finished_check, colour_arrival_check, colour_arrival_reset,
}
use inf2004_aai19_embedded_s.Colour.Arrival.{
  SensorStep, run_steps, shows_lighter, notes_lighter, all_dark, arrival_needs_lighter,
  three_failures,
}

abbrev sensor : Sensor
sensor = record {
  available = true;
  lighter_mat_seen = true;
  on_mat = false;
  last_depth = negsuc 0;
  failed_checks = 0;
}

abbrev on_ring2 : Option Reading
on_ring2 = some (record { c = 4000; r = 1000; g = 800; b = 800 })

abbrev on_ring5 : Option Reading
on_ring5 = some (record { c = 2000; r = 1000; g = 300; b = 600 })

abbrev crossing : Readings
crossing = record { first = on_ring2; second = on_ring2; third = on_ring5 }

abbrev stopped : Readings
stopped = record { first = on_ring5; second = on_ring5; third = on_ring5 }

-- A robot that starts on ring 5 has its scan around it noted.
arrival_needs_lighter_example :
    ((run_steps
        (SensorStep.check stopped ∷ SensorStep.note_lighter ∷ [])
        (colour_arrival_reset sensor)).available
      ≡ true)
    × (all_dark (zones_of stopped) ≡ true)
    × ((shows_lighter (SensorStep.check stopped ∷ SensorStep.note_lighter ∷ [])
          || notes_lighter (SensorStep.check stopped ∷ SensorStep.note_lighter ∷ []))
        ≡ true)
unfolding colour_gr_x1000 colour_classify zones_of check_zones finished_check colour_arrival_check
    colour_arrival_reset
arrival_needs_lighter_example =
    arrival_needs_lighter sensor (SensorStep.check stopped ∷ SensorStep.note_lighter ∷ []) stopped
      refl

-- A robot that has crossed ring 2 arrives on ring 5.
crosses :
    (colour_arrival_check stopped
      (run_steps (SensorStep.check crossing ∷ []) (colour_arrival_reset sensor))).0
    ≡ true
unfolding colour_gr_x1000 colour_classify zones_of check_zones finished_check colour_arrival_check
    colour_arrival_reset
crosses = refl

abbrev lost : Readings
lost = record { first = on_ring5; second = none; third = none }

three_failures_example :
    let s3 =
      run_steps
        (SensorStep.check lost ∷ SensorStep.check lost ∷ SensorStep.check lost ∷ [])
        sensor in
    (s3.available ≡ false) × (run_steps (SensorStep.check stopped ∷ []) s3 ≡ s3)
unfolding zones_of
three_failures_example =
    three_failures sensor lost lost lost (SensorStep.check stopped ∷ []) refl refl refl
