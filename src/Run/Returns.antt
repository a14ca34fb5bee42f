-- ===== src/Run/Returns.antt =====
-- The way back along a line in getting_there.c.
use inf2004_aai19_embedded_s.Common.{
  ℕ, zero, suc, ◌+◌, ◌-◌, ◌^◌, ◌≤◌, ◌≡◌, refl, true, false, u32, ltb, ◌==◌, if◌then◌else◌, arith,
}
use inf2004_aai19_embedded_s.Run.{Call, Robot, Run, M}
use inf2004_aai19_embedded_s.Run.Triple.{
  Triple, Triple-mono, Triple-bind, Triple-if, Triple-pure, Triple-given,
}
use inf2004_aai19_embedded_s.Run.Frame.{Frames, Travelled, Proper, refused_return, Frames-ask}
use inf2004_aai19_embedded_s.Run.Travel.{
  translation_cost, line_block_ms, return_loop, return_along_line,
}
use inf2004_aai19_embedded_s.Run.Budget.{cost_value, translate_block_lem}

-- The travel has reached `t`, is within the budget, and no return was refused.
abbrev pub Within : {W : Type 0} → ℕ → Run W → Type 0
Within t s =
    (t ≤ s.translation_ms) × (s.translation_ms ≤ 60000) × (refused_return s.failures ≡ false)

module _ {W : Type 0} where
  -- From a travel within the budget on, by what holds for each.
  pub Within-each :
      {B : Type 0} {t : ℕ} {m : M W B} {Q : B → Run W → Type 0}
      → ((t' : ℕ) → t ≤ t' → t' ≤ 60000 → Triple (Travelled t') m Q Proper)
      → Triple (Within t) m Q Proper
  Within-each k = record { at = λ s h. (k s.translation_ms h.0 h.1).at s (refl, h.2) }

  pub Within-frame :
      {B : Type 0} {m : M W B} (t : ℕ) → Frames m → Triple (Within t) m (λ _. Within t) Proper
  Within-frame t k =
      Within-each (λ t' le fits.
        Triple-mono (k.keeps t') (λ s h. h) (λ a s h. (omega arith, omega arith, h.1)))

  Travelled-Within :
      {B : Type 0} {m : M W B} {Q : B → Run W → Type 0} (t : ℕ)
      → t ≤ 60000
      → Triple (Within t) m Q Proper
      → Triple (Travelled t) m Q Proper
  Travelled-Within t small k = Triple-mono k (λ s h. (omega arith, omega arith, h.1)) (λ a s h. h)

abbrev block_of : ℕ → ℕ
block_of left = if ltb line_block_ms left then line_block_ms else left

-- The budget that covers the way back covers its next block and the way back from there.
block_room :
    (left t : ℕ)
    → left ≤ 60000
    → t + translation_cost left ≤ 60000
    → t + translation_cost (block_of left) + translation_cost (left - block_of left) ≤ 60000
block_room left t far room =
    let a = cost_value left (omega arith) in
    let b = cost_value (block_of left) (ground arith) in
    let c = cost_value (left - block_of left) (ground arith) in ground (arith, a, b, c)

rest_room :
    (left a t : ℕ)
    → left ≤ 60000
    → t + translation_cost left ≤ 60000
    → t + a ≤ 60000
    → t + a + translation_cost (if ltb a left then left - a else 0) ≤ 60000
rest_room left a t far room small =
    let x = cost_value left (omega arith) in
    let y = cost_value (if ltb a left then left - a else 0) (ground arith) in ground (arith, x, y)

module _ {W : Type 0} (robot : Robot W) where
  return_loop_lem :
      (fuel to left heading t : ℕ)
      → left ≤ fuel
      → left ≤ 60000
      → t ≤ 60000
      → t + translation_cost left ≤ 60000
      → Triple (Travelled t) (return_loop robot fuel to left heading) (λ _. Within t) Proper
  unfolding return_loop
  return_loop_lem zero to left heading t enough far small room =
      Triple-if (left == 0) (λ e. Triple-pure tt (λ s h. (omega arith, omega arith, h.1)))
        (λ e. absurd (ground arith))
  return_loop_lem (suc fuel) to left heading t enough far small room =
      Triple-if (left == 0) (λ e. Triple-pure tt (λ s h. (omega arith, omega arith, h.1)))
        (λ e.
          Triple-bind
            (translate_block_lem robot false (block_of left) heading (u32 (to + left))
              (translation_cost (left - block_of left)) false t small (ground arith)
              (omega (arith, block_room left t far room)) (λ f. block_room left t far room))
            (λ a.
              Triple-given {F = (1 ≤ a) × (t + a ≤ 60000)} (λ s h. (h.1, h.3))
                (λ took.
                  Triple-mono
                    (return_loop_lem fuel to (if ltb a left then left - a else 0) heading (t + a)
                      (ground arith) (ground arith) took.1 (rest_room left a t far room took.1))
                    (λ s h. h.0) (λ u s h. (omega arith, h.1, h.2)))))

  -- A return whose cost the budget covers is driven to its end, unless something else ends the run: the
  -- budget refuses none of its blocks.
  pub return_along_line_lem :
      (from to heading t : ℕ)
      → to ≤ from
      → from ≤ 60000
      → t ≤ 60000
      → t + translation_cost (from - to) ≤ 60000
      → Triple (Travelled t) (return_along_line robot from to heading) (λ _. Within t) Proper
  unfolding return_along_line
  return_along_line_lem from to heading t order far small room =
      let same : u32 (from + 2 ^ 32 - to) ≡ from - to = omega arith in
      rw same (
        Triple-bind
          (return_loop_lem (from - to) to (from - to) heading t (omega arith) (omega arith) small
            room)
          (λ u. Within-frame t (Frames-ask robot (Call.set_position heading to true))))
