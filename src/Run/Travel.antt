-- ===== src/Run/Travel.antt =====
-- getting_there.c: the travel budget, one powered block, and the way back along a line.
use inf2004_aai19_embedded_s.Common.{
  ℕ, zero, suc, ◌+◌, ◌-◌, ◌*◌, ◌/◌, ◌^◌, Bool, true, false, not, ◌&&◌, ◌||◌, u32, ltb, leb, ◌==◌,
  if◌then◌else◌,
}
use inf2004_aai19_embedded_s.Run.{
  Call, Robot, Failure, End, M, pure, stop, gets, modify, fail, ask, require, ◌>>=◌, ◌>>◌,
}
use inf2004_aai19_embedded_s.Run.Payload.{run_can_continue, save_checkpoint, check_payload}

abbrev pub line_block_ms : ℕ
line_block_ms = 750

abbrev pub line_translation_ms : ℕ
line_translation_ms = 60000

abbrev pub block_reserve_ms : ℕ
block_reserve_ms = 25

unfoldable pub translation_cost : ℕ → ℕ
translation_cost duration =
    u32 (duration + u32 (u32 (duration + line_block_ms - 1) / line_block_ms * block_reserve_ms))

module _ {W : Type 0} (robot : Robot W) where
  unfoldable pub reserve_translation : Bool → ℕ → M W Bool
  reserve_translation forwards required = do
    used ← gets (λ s. s.translation_ms)
    if leb used line_translation_ms && leb required (line_translation_ms - used)
        then run_can_continue robot
        else do ask robot Call.motion_stop; fail (Failure.budget_refused forwards); pure false

  -- The loop of a powered block, with the polls left; false if it was broken off.
  unfoldable pub drive_loop : ℕ → Bool → M W Bool
  drive_loop zero acquire_moving = stop End.unending_drive
  drive_loop (suc polls) acquire_moving = do
    active ← ask robot Call.drive_active
    if not active then pure true else do
      updated ← ask robot Call.drive_update
      going ← if updated then run_can_continue robot else pure false
      polled ← if going && acquire_moving then ask robot Call.poll_moving else pure going
      if not polled then pure false else do
        still ← ask robot Call.drive_active
        if still then ask robot (Call.sleep_ms 5) else pure tt
        drive_loop polls acquire_moving

  -- The checks on what a block took, then the stop's own check.
  unfoldable pub arrive : ℕ → ℕ → M W ℕ
  arrive duration actual = do
    used ← gets (λ s. s.translation_ms)
    if actual == 0 || ltb (u32 (duration + block_reserve_ms)) actual || ltb line_translation_ms used
        then (do fail Failure.duration_unexpected; stop End.fatal)
        else do check_payload robot; pure actual

  -- A started block: its loop, then the motors and the radio at rest.
  unfoldable pub drive_block : ℕ → Bool → M W ℕ
  drive_block duration acquire_moving = do
    modify (λ s. record s { wifi_quiescent = false })
    driven ← drive_loop robot.polls acquire_moving
    ask robot Call.motion_stop
    actual ← ask robot Call.drive_elapsed
    modify (λ s. record s { translation_ms = u32 (s.translation_ms + actual) })
    finished ← ask robot Call.drive_finish
    quiesced ← ask robot Call.sampler_quiesce
    require quiesced
    modify (λ s. record s { wifi_quiescent = true })
    going ← if driven && finished then run_can_continue robot else pure false
    require going
    arrive duration actual

  -- Gives the powered time. `reserved_return` is what the way back from the block's end may cost.
  unfoldable pub translate_block : Bool → ℕ → ℕ → ℕ → ℕ → Bool → M W ℕ
  translate_block forwards duration heading position reserved_return acquire_moving = do
    reserved ← reserve_translation forwards (u32 (translation_cost duration + reserved_return))
    require reserved
    saved ← save_checkpoint robot
    require saved
    ask robot (Call.set_position heading position forwards)
    started ← ask robot (Call.drive_start forwards duration heading)
    require started
    drive_block duration acquire_moving

  -- The blocks of a return, with fuel for the loop; `left` is the travel left to `to`.
  unfoldable pub return_loop : ℕ → ℕ → ℕ → ℕ → M W (Unit {0})
  return_loop zero to left heading = if left == 0 then pure tt else stop End.no_fuel
  return_loop (suc fuel) to left heading =
      let block = if ltb line_block_ms left then line_block_ms else left in
      if left == 0 then pure tt else do
        actual ←
            translate_block false block heading (u32 (to + left)) (translation_cost (left - block))
              false
        return_loop fuel to (if ltb actual left then left - actual else 0) heading

  unfoldable pub return_along_line : ℕ → ℕ → ℕ → M W (Unit {0})
  return_along_line from to heading = do
    let left = u32 (from + 2 ^ 32 - to)
    return_loop left to left heading
    ask robot (Call.set_position heading to true)
