-- ===== src/Buzzer.antt =====
-- common/buzzer.c and getting_there/robot_cues.c: patterns of notes that an alarm steps through. The
-- static variables are the fields of `Buzzer`; the tones that the PWM is set to are appended to
-- `tones`, newest first, a pause being 0; `scheduled` are the alarms that the SDK has yet to call.
-- Interrupts are masked where a pattern changes, so each function is one step.
pub mod Pattern
mod Tests
use inf2004_aai19_embedded_s.Common.{
  ℕ, zero, suc, ◌+◌, ◌-◌, ◌*◌, ◌/◌, ◌^◌, ◌%◌, Bool, true, false, ◌&&◌, ◌||◌, not, List, [], ◌∷◌,
  length, get_or, u32, ltb, leb, ◌==◌, if◌then◌else◌,
}

-- `buzzer_note_t`
pub record Note : Type 0 where
  pub freq_hz : ℕ
  pub ms : ℕ

pub record Buzzer : Type 0 where
  pub initialised : Bool
  pub pattern : List Note
  pub index : ℕ
  pub repeat : Bool
  pub loop_from : ℕ
  pub alarm : ℕ
  pub scheduled : List ℕ
  pub playing : Bool
  pub tones : List ℕ

abbrev pub rest_note : Note
rest_note = record { freq_hz = 0; ms = 0 }

-- `set_tone`: the wrap of the PWM for a tone, from the clock's cycles for one period as the
-- conversion to `uint32_t` gives them.
unfoldable pub tone_wrap : ℕ → ℕ
tone_wrap cycles =
    let wrap = u32 (cycles + 2 ^ 32 - 1) in
    let low = if ltb 65535 wrap then 65535 else wrap in if ltb low 2 then 2 else low

unfoldable pub tone_level : ℕ → ℕ
tone_level cycles = tone_wrap cycles / 2

abbrev pub set_tone : ℕ → Buzzer → Buzzer
set_tone freq b = record b { tones = freq ∷ b.tones }

abbrev pub note_at : List Note → ℕ → Note
note_at notes i = get_or notes i rest_note

-- `cancel_alarm` of an identifier, and the end of the alarm whose callback returns 0.
abbrev pub cancel : ℕ → List ℕ → List ℕ
cancel identifier [] = []
cancel identifier (x ∷ xs) = if x == identifier then xs else x ∷ cancel identifier xs

-- The alarm's callback: the delay to the next alarm in microseconds, 0 for none.
unfoldable pub next_note : Buzzer → ℕ × Buzzer
next_note b =
    let i = b.index + 1 in
    let j = if leb (length b.pattern) i then b.loop_from else i in
    let note = note_at b.pattern j in
    if leb (length b.pattern) i && not b.repeat
    then (
      0,
      record (set_tone 0 b) {
        index = i;
        playing = false;
        alarm = 0;
        scheduled = cancel b.alarm b.scheduled;
      },
    )
    else (note.ms * 1000, record (set_tone note.freq_hz b) { index = j })

-- `slices` is the SDK's NUM_PWM_SLICES, and `slice` that of the pin; the set-up of the PWM at level 0
-- is a pause.
unfoldable pub buzzer_init : ℕ → ℕ → Buzzer → Buzzer
buzzer_init slices slice b =
    if leb slices slice then b else record b { initialised = true; tones = 0 ∷ b.tones }

-- `identifier` is what `add_alarm_in_ms` gives, 0 standing for no free alarm.
unfoldable pub start_pattern : ℕ → List Note → Bool → ℕ → Buzzer → Buzzer
start_pattern identifier notes repeat loop_from b =
    let b1 = record b {
      pattern = notes;
      index = 0;
      repeat = repeat;
      loop_from = if ltb loop_from (length notes) then loop_from else 0;
      alarm = 0;
      scheduled = if ltb 0 b.alarm then cancel b.alarm b.scheduled else b.scheduled;
      playing = ltb 0 (length notes);
    } in
    let b2 = set_tone (note_at notes 0).freq_hz b1 in
    if not b.initialised
    then b
    else if not b1.playing
    then set_tone 0 b1
    else if identifier == 0
    then record (set_tone 0 b2) { playing = false }
    else record b2 { alarm = identifier; scheduled = identifier ∷ b1.scheduled }

unfoldable pub buzzer_play : ℕ → List Note → Bool → Buzzer → Buzzer
buzzer_play identifier notes repeat b = start_pattern identifier notes repeat 0 b

unfoldable pub buzzer_play_looping_tail : ℕ → List Note → ℕ → Buzzer → Buzzer
buzzer_play_looping_tail identifier notes loop_from b =
    start_pattern identifier notes true loop_from b

unfoldable pub buzzer_stop : ℕ → Buzzer → Buzzer
buzzer_stop identifier b = start_pattern identifier [] false 0 b

abbrev pub buzzer_busy : Buzzer → Bool
buzzer_busy b = b.playing

-- `robot_cue_t` of robot_cues.h.
pub data RobotCue : Type 0 where
  cue_start cue_calibrating cue_pass cue_in_range cue_collected cue_fault : RobotCue

abbrev note : ℕ → ℕ → Note
note hz ms = record { freq_hz = hz; ms = ms }

abbrev pub in_range_notes : List Note
in_range_notes =
    note 3000 60
    ∷ note 0 300
    ∷ note 3000 60
    ∷ note 0 220
    ∷ note 3000 60
    ∷ note 0 160
    ∷ note 3000 60
    ∷ note 0 110
    ∷ note 3000 60
    ∷ note 0 80
    ∷ note 3000 50
    ∷ note 0 60
    ∷ []

unfoldable pub cue_play : ℕ → RobotCue → Buzzer → Buzzer
cue_play identifier RobotCue.cue_start b = buzzer_play identifier (note 2000 80 ∷ []) false b
cue_play identifier RobotCue.cue_calibrating b = buzzer_play identifier (note 1500 200 ∷ []) true b
cue_play identifier RobotCue.cue_pass b = buzzer_play identifier (note 1800 600 ∷ []) false b
cue_play identifier RobotCue.cue_in_range b =
    buzzer_play_looping_tail identifier in_range_notes 10 b
cue_play identifier RobotCue.cue_collected b =
    buzzer_play identifier
      (note 1500 200 ∷ note 0 80 ∷ note 2000 200 ∷ note 0 80 ∷ note 2700 350 ∷ []) false b
cue_play identifier RobotCue.cue_fault b =
    buzzer_play identifier
      (note 1500 250 ∷ note 0 120 ∷ note 1000 250 ∷ note 0 120 ∷ note 700 500 ∷ []) false b
