-- ===== src/Buzzer/Tests.antt =====
-- The robot's cues on a buzzer that is set up and silent.
use inf2004_aai19_embedded_s.Common.{
  ◌≤◌, ◌<◌, ◌+◌, ◌*◌, ◌≡◌, refl, true, false, not, ◌&&◌, ◌||◌, List, [], ◌∷◌, length, leb,
  if◌then◌else◌, arith,
}
use inf2004_aai19_embedded_s.Buzzer.{
  Note, Buzzer, note_at, next_note, start_pattern, buzzer_play, tone_wrap, tone_level,
  in_range_notes,
}
use inf2004_aai19_embedded_s.Buzzer.Pattern.{
  IsInside, start_pattern-IsInside, next_note_lem, run_alarms, plays_once, tone_wrap_lem,
}

abbrev silent : Buzzer
silent = record {
  initialised = true;
  pattern = [];
  index = 0;
  repeat = false;
  loop_from = 0;
  alarm = 0;
  scheduled = [];
  playing = false;
  tones = [];
}

silent-IsInside : IsInside silent
silent-IsInside = ground arith

abbrev searching : Buzzer
searching = start_pattern 1 in_range_notes true 10 silent

start_pattern-IsInside_example : IsInside (start_pattern 1 in_range_notes true 10 silent)
start_pattern-IsInside_example =
    start_pattern-IsInside 1 in_range_notes true 10 silent silent-IsInside

next_note_lem_example :
    let x = next_note searching in
    let ends = leb (length searching.pattern) (searching.index + 1) in
    IsInside x.1
    × (x.1.playing ≡ (searching.repeat || not ends))
    × (x.1.index ≡ (if ends && searching.repeat then searching.loop_from else searching.index + 1))
    × (x.0 ≡ (if x.1.playing then (note_at searching.pattern x.1.index).ms * 1000 else 0))
    × (x.1.tones
        ≡ (if x.1.playing then (note_at searching.pattern x.1.index).freq_hz else 0)
          ∷ searching.tones)
unfolding start_pattern
next_note_lem_example =
    next_note_lem searching (start_pattern-IsInside 1 in_range_notes true 10 silent silent-IsInside)
      refl

tone_wrap_lem_example :
    (2 ≤ tone_wrap 3906)
    × (tone_wrap 3906 < 65536)
    × (1 ≤ tone_level 3906)
    × (tone_level 3906 < tone_wrap 3906)
tone_wrap_lem_example = tone_wrap_lem 3906

-- An earlier pattern is at its alarm 9, and 8 is an alarm of another part.
abbrev interrupted : Buzzer
interrupted = record silent { alarm = 9; scheduled = 9 ∷ 8 ∷ []; playing = true }

abbrev two_notes : List Note
two_notes = record { freq_hz = 1500; ms = 250 } ∷ record { freq_hz = 700; ms = 500 } ∷ []

plays_once_example :
    let b1 = buzzer_play 1 two_notes false interrupted in
    let end = run_alarms 2 b1 in
    ((run_alarms 1 b1).playing ≡ true)
    × ((run_alarms 1 b1).index ≡ 1)
    × ((run_alarms 1 b1).tones ≡ 700 ∷ 1500 ∷ [])
    × (end.playing ≡ false)
    × (end.alarm ≡ 0)
    × (end.tones ≡ 0 ∷ 700 ∷ 1500 ∷ [])
    × (end.scheduled ≡ 8 ∷ [])
plays_once_example =
    plays_once 1 two_notes interrupted 1 refl (omega arith) (omega arith) (omega arith)
