-- ===== src/Buzzer/Pattern.antt =====
-- How a pattern runs: inside its notes, in their order, to its end or round its tail.
use inf2004_aai19_embedded_s.Common.{
  ℕ, zero, suc, ◌+◌, ◌*◌, ◌^◌, ◌≤◌, ◌<◌, ◌≡◌, ◌⊎◌, refl, ap, Bool, true, false, ◌&&◌, ◌||◌, not,
  List, [], ◌∷◌, length, leb, ltb, if◌then◌else◌, arith,
}
use inf2004_aai19_embedded_s.Buzzer.{
  Note, Buzzer, note_at, cancel, tone_wrap, tone_level, next_note, start_pattern, buzzer_play,
}

-- The wrap and the level of a tone fit the PWM's 16 bits, and the level is neither 0 nor the wrap.
pub tone_wrap_lem :
    (cycles : ℕ)
    → (2 ≤ tone_wrap cycles)
      × (tone_wrap cycles < 2 ^ 16)
      × (1 ≤ tone_level cycles)
      × (tone_level cycles < tone_wrap cycles)
unfolding tone_level tone_wrap
tone_wrap_lem cycles = ground arith

-- While a pattern plays, its index and the start of its tail are places of the pattern.
pub record IsInside (b : Buzzer) : Type 0 where
  pub index_in : (b.playing ≡ false) ⊎ (b.index < length b.pattern)
  pub loop_in : (b.playing ≡ false) ⊎ (b.loop_from < length b.pattern)

-- Every start of a pattern, a stop included, keeps the buzzer inside its pattern.
pub start_pattern-IsInside :
    (identifier : ℕ) (notes : List Note) (repeat : Bool) (loop_from : ℕ) (b : Buzzer)
    → IsInside b
    → IsInside (start_pattern identifier notes repeat loop_from b)
unfolding start_pattern
start_pattern-IsInside identifier notes repeat loop_from b s = ground arith

-- An alarm of a playing buzzer keeps it inside its pattern. It goes to the next note, from the last
-- note of a repeated pattern to the start of the tail, and from the last note of any other pattern
-- to silence; it sets that note's tone, and asks for the next alarm after the note's time, or for
-- none.
pub next_note_lem :
    (b : Buzzer)
    → IsInside b
    → b.playing ≡ true
    → let x = next_note b in
      let ends = leb (length b.pattern) (b.index + 1) in
      IsInside x.1
      × (x.1.playing ≡ (b.repeat || not ends))
      × (x.1.index ≡ (if ends && b.repeat then b.loop_from else b.index + 1))
      × (x.0 ≡ (if x.1.playing then (note_at b.pattern x.1.index).ms * 1000 else 0))
      × (x.1.tones ≡ (if x.1.playing then (note_at b.pattern x.1.index).freq_hz else 0) ∷ b.tones)
unfolding next_note
next_note_lem b s p = ground arith

-- The buzzer after some alarms.
abbrev pub run_alarms : ℕ → Buzzer → Buzzer
run_alarms zero b = b
run_alarms (suc k) b = (next_note (run_alarms k b)).1

-- The tones of the first notes, after older ones.
abbrev pub heard : List Note → ℕ → List ℕ → List ℕ
heard notes zero old = old
heard notes (suc k) old = (note_at notes k).freq_hz ∷ heard notes k old

-- A buzzer at note `k` of a pattern that is played once, by an alarm `a` beside others.
record IsAt (notes : List Note) (a : ℕ) (others old : List ℕ) (k : ℕ) (b : Buzzer) : Type 0 where
  notes_kept : b.pattern ≡ notes
  once : b.repeat ≡ false
  place : b.index ≡ k
  still : b.playing ≡ true
  tail : b.loop_from ≡ 0
  alarm_kept : b.alarm ≡ a
  alarms : b.scheduled ≡ a ∷ others
  sounded : b.tones ≡ heard notes (suc k) old

module _ (notes : List Note) (a : ℕ) (others old : List ℕ) where
  step-IsAt :
      (b : Buzzer) (k : ℕ)
      → IsAt notes a others old k b
      → suc k < length notes
      → IsAt notes a others old (suc k) (next_note b).1
  unfolding next_note
  step-IsAt b k s h = ground (arith, ap (length {A = Note}) s.notes_kept, s)

  last_step :
      (b : Buzzer) (k : ℕ)
      → IsAt notes a others old k b
      → suc k ≡ length notes
      → let b' = (next_note b).1 in
        (b'.playing ≡ false)
        × (b'.alarm ≡ 0)
        × (b'.scheduled ≡ others)
        × (b'.tones ≡ 0 ∷ heard notes (suc k) old)
  unfolding next_note
  last_step b k s h = ground (arith, ap (length {A = Note}) s.notes_kept, cancelled)
    where
      cancelled : cancel b.alarm b.scheduled ≡ others
      cancelled = rw s.alarms (rw s.alarm_kept (ground arith))

  run_alarms-IsAt :
      (b : Buzzer) (k : ℕ)
      → IsAt notes a others old 0 b
      → k < length notes
      → IsAt notes a others old k (run_alarms k b)
  run_alarms-IsAt b zero s h = s
  run_alarms-IsAt b (suc k) s h =
      step-IsAt (run_alarms k b) k (run_alarms-IsAt b k s (omega arith)) h

-- A pattern that is played once, by a buzzer that is set up and has an alarm free, plays its notes in
-- their order, one for each alarm, until the alarm after its last note. The tone is then off, and of the
-- alarms only those are scheduled that were before, without the one of the pattern played before.
pub plays_once :
    (identifier : ℕ) (notes : List Note) (b : Buzzer) (k : ℕ)
    → b.initialised ≡ true
    → 0 < identifier
    → 0 < length notes
    → k < length notes
    → let b1 = buzzer_play identifier notes false b in
      let end = run_alarms (length notes) b1 in
      ((run_alarms k b1).playing ≡ true)
      × ((run_alarms k b1).index ≡ k)
      × ((run_alarms k b1).tones ≡ heard notes (suc k) b.tones)
      × (end.playing ≡ false)
      × (end.alarm ≡ 0)
      × (end.tones ≡ 0 ∷ heard notes (length notes) b.tones)
      × (end.scheduled ≡ (if ltb 0 b.alarm then cancel b.alarm b.scheduled else b.scheduled))
unfolding buzzer_play start_pattern
plays_once identifier [] b k hi ha hn hk = absurd (omega arith)
plays_once identifier (n ∷ ns) b k hi ha hn hk =
    let b1 = buzzer_play identifier (n ∷ ns) false b in
    let others = if ltb 0 b.alarm then cancel b.alarm b.scheduled else b.scheduled in
    let s : IsAt (n ∷ ns) identifier others b.tones 0 b1 = ground arith in
    let at = run_alarms-IsAt (n ∷ ns) identifier others b.tones b1 k s hk in
    let ended =
      last_step (n ∷ ns) identifier others b.tones (run_alarms (length ns) b1) (length ns)
        (run_alarms-IsAt (n ∷ ns) identifier others b.tones b1 (length ns) s (omega arith)) refl in
    (at.still, at.place, at.sounded, ended.0, ended.1, ended.3, ended.2)
