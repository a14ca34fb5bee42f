-- ===== src/Run/Budget.antt =====
-- The travel budget of getting_there.c over one powered block.
use inf2004_aai19_embedded_s.Common.{
  ℕ, ◌+◌, ◌-◌, ◌*◌, ◌/◌, ◌≤◌, ◌≡◌, refl, Bool, true, false, ◌&&◌, u32, leb, arith, Bool-cases, inl,
  inr,
}
use inf2004_aai19_embedded_s.Run.{
  Call, Robot, Run, Failure, End, M, pure, gets, modify, fail, ask, require, ◌>>=◌, ◌>>◌,
}
use inf2004_aai19_embedded_s.Run.Triple.{
  Triple, Triple-mono, Triple-bind, Triple-if, Triple-pure, Triple-stop, Triple-require,
  Triple-given,
}
use inf2004_aai19_embedded_s.Run.Frame.{
  Frames, Travelled, Proper, Frames-ask, Frames-if, Frames-pure, Frames-fail, Frames-modify,
}
use inf2004_aai19_embedded_s.Run.Still.{
  run_can_continue-Frames, save_checkpoint-Frames, check_payload-Frames, drive_loop-Frames,
}
use inf2004_aai19_embedded_s.Run.Payload.{run_can_continue}
use inf2004_aai19_embedded_s.Run.Travel.{
  translation_cost, reserve_translation, arrive, drive_block, translate_block,
}

-- Durations and distances that the program computes with stay far below 2^32.
pub cost_value : (d : ℕ) → d ≤ 200000 → translation_cost d ≡ d + (d + 749) / 750 * 25
unfolding translation_cost
cost_value d h = omega arith

module _ {W : Type 0} where
  -- A part that stands still, and the rest.
  pub Frames-then :
      {A B : Type 0} {t : ℕ} {m : M W A} {f : A → M W B} {Q : B → Run W → Type 0}
      → Frames m
      → ((a : A) → Triple (Travelled t) (f a) Q Proper)
      → Triple (Travelled t) (m >>= f) Q Proper
  Frames-then {t = t} k l = Triple-bind (k.keeps t) l

  used_lem :
      (t : ℕ)
      → Triple {W = W}
          (Travelled t)
          (gets (λ s. s.translation_ms))
          (λ used s. Travelled t s × (used ≡ t))
          Proper
  unfolding gets
  used_lem t = record { at = λ s h. (h, h.0) }

  pub require_lem :
      {B : Type 0} {t : ℕ} {Q : B → Run W → Type 0} {m : M W B} (b : Bool)
      → (b ≡ true → Triple (Travelled t) m Q Proper)
      → Triple (Travelled t) (require b >> m) Q Proper
  require_lem b k = Triple-require b (λ s h. (refl, h.1)) k

module _ {W : Type 0} (robot : Robot W) where
  refused-Frames :
      (forwards : Bool) → forwards ≡ true → Frames {W = W} (fail (Failure.budget_refused forwards))
  refused-Frames true e = Frames-fail _ refl
  refused-Frames false e = cc

  -- The budget takes what it has room for, and refuses a return only if it has not.
  reserve_lem :
      (forwards : Bool) (required t : ℕ)
      → t ≤ 60000
      → (forwards ≡ false → t + required ≤ 60000)
      → Triple
          (Travelled t)
          (reserve_translation robot forwards required)
          (λ b s. Travelled t s × (b ≡ true → t + required ≤ 60000))
          Proper
  unfolding reserve_translation
  reserve_lem forwards required t small room = Triple-bind (used_lem t) (λ used.
      Triple-given {F = used ≡ t} (λ s h. h.1)
        (λ same.
          Triple-mono {P = Travelled t} (Triple-if _ (taken used same) (refused used same))
            (λ s h. h.0) (λ a s h. h)))
    where
      taken :
          (used : ℕ)
          → used ≡ t
          → (leb used 60000 && leb required (60000 - used)) ≡ true
          → Triple
              (Travelled t)
              (run_can_continue robot)
              (λ b s. Travelled t s × (b ≡ true → t + required ≤ 60000))
              Proper
      taken used same e =
          Triple-mono ((run_can_continue-Frames robot).keeps t) (λ s h. h)
            (λ a s h. (h, λ _. ground arith))

      refused :
          (used : ℕ)
          → used ≡ t
          → (leb used 60000 && leb required (60000 - used)) ≡ false
          → Triple
              (Travelled t)
              (do ask robot Call.motion_stop; fail (Failure.budget_refused forwards); pure false)
              (λ b s. Travelled t s × (b ≡ true → t + required ≤ 60000))
              Proper
      refused used same e = elim (Bool-cases forwards) [
        | inl f ↦ Frames-then (Frames-ask robot Call.motion_stop) (λ u.
            Frames-then (refused-Frames forwards f) (λ v. Triple-pure false (λ s h. (h, λ w. cc))))
        | inr f ↦ let r = room f in absurd (ground arith)
      ]

  travelled_lem :
      (t actual : ℕ)
      → Triple
          (Travelled t)
          (modify {W = W} (λ s. record s { translation_ms = u32 (s.translation_ms + actual) }))
          (λ _. Travelled (u32 (t + actual)))
          Proper
  unfolding modify
  travelled_lem t actual = record { at = λ s h. (rw (h.0), h.1) }

  -- What a block has taken is at least a millisecond, and its time and the reserve at most.
  arrive_lem :
      (duration actual t : ℕ)
      → t ≤ 60000
      → duration ≤ 60000
      → Triple
          (Travelled (u32 (t + actual)))
          (arrive robot duration actual)
          (λ a s. Travelled (t + a) s × (1 ≤ a) × (a ≤ duration + 25) × (t + a ≤ 60000))
          Proper
  unfolding arrive
  arrive_lem duration actual t small short = Triple-bind (used_lem _) (λ used.
      Triple-given {F = used ≡ u32 (t + actual)} (λ s h. h.1)
        (λ same.
          Triple-mono {P = Travelled (u32 (t + actual))}
            (Triple-if _
              (λ e.
                Frames-then (Frames-fail Failure.duration_unexpected refl)
                  (λ v. Triple-stop End.fatal (λ s h. (refl, h.1))))
              (λ e.
                let fits : (1 ≤ actual) × (actual ≤ duration + 25) × (used ≤ 60000) =
                  ground arith in
                let sum : u32 (t + actual) ≡ t + actual = omega arith in
                Frames-then (check_payload-Frames robot)
                  (λ v. Triple-pure actual (λ s h. (rw sum at h, fits.0, fits.1, omega arith)))))
            (λ s h. h.0) (λ a s h. h)))

  drive_block_lem :
      (duration : ℕ) (acquire_moving : Bool) (t : ℕ)
      → t ≤ 60000
      → duration ≤ 60000
      → Triple
          (Travelled t)
          (drive_block robot duration acquire_moving)
          (λ a s. Travelled (t + a) s × (1 ≤ a) × (a ≤ duration + 25) × (t + a ≤ 60000))
          Proper
  unfolding drive_block
  drive_block_lem duration acquire_moving t small short =
      Frames-then (Frames-modify _ (λ s. refl) (λ s. refl)) (λ a.
        Frames-then (drive_loop-Frames robot robot.polls acquire_moving) (λ driven.
          Frames-then (Frames-ask robot Call.motion_stop) (λ b.
            Frames-then (Frames-ask robot Call.drive_elapsed) (λ actual.
              Triple-bind (travelled_lem t actual) (λ c.
                Frames-then (Frames-ask robot Call.drive_finish) (λ finished.
                  Frames-then (Frames-ask robot Call.sampler_quiesce) (λ quiesced.
                    require_lem quiesced (λ q.
                      Frames-then (Frames-modify _ (λ s. refl) (λ s. refl)) (λ d.
                        Frames-then
                          (Frames-if _ _ _ (run_can_continue-Frames robot) (Frames-pure false))
                          (λ going.
                            require_lem going
                              (λ g. arrive_lem duration actual t small short)))))))))))

  -- One powered block. Where it ends without another result it has taken between a millisecond and its
  -- time with the reserve, and the budget had room for it and for the way back reserved behind it; a
  -- return that the budget has room for is not refused.
  pub translate_block_lem :
      (forwards : Bool) (duration heading position reserved : ℕ) (acquire_moving : Bool) (t : ℕ)
      → t ≤ 60000
      → duration ≤ 60000
      → reserved ≤ 200000
      → (forwards ≡ false → t + translation_cost duration + reserved ≤ 60000)
      → Triple
          (Travelled t)
          (translate_block robot forwards duration heading position reserved acquire_moving)
          (λ a s.
            Travelled (t + a) s
            × (1 ≤ a)
            × (a ≤ duration + 25)
            × (t + a ≤ 60000)
            × (t + translation_cost duration + reserved ≤ 60000))
          Proper
  unfolding translate_block
  translate_block_lem forwards duration heading position reserved acquire_moving t small short near
        room =
      let cost = cost_value duration (omega arith) in
      Triple-bind (reserve_lem forwards _ t small (λ f. omega (arith, room f, cost))) (λ fits.
        Triple-require fits (λ s h. (refl, h.0.1))
          (λ e.
            Triple-given {F = t + u32 (translation_cost duration + reserved) ≤ 60000} (λ s h. h.1 e)
              (λ within.
                Triple-mono {P = Travelled t}
                  (Frames-then (save_checkpoint-Frames robot) (λ saved. require_lem saved (λ k.
                    Frames-then (Frames-ask robot (Call.set_position heading position forwards))
                      (λ u.
                        Frames-then (Frames-ask robot (Call.drive_start forwards duration heading))
                          (λ started.
                            require_lem started
                              (λ q. drive_block_lem duration acquire_moving t small short))))))
                  (λ s h. h.0) (λ a s h. (h.0, h.1, h.2, h.3, omega (arith, cost, within))))))
