-- ===== src/Run/Lines.antt =====
-- Following one heading in getting_there.c: the budget always covers the way back to the best point.
use inf2004_aai19_embedded_s.Common.{
  ℕ, zero, suc, ◌+◌, ◌-◌, ◌^◌, ◌≤◌, ◌<◌, ◌≡◌, refl, ap, Bool, true, false, not, ◌&&◌, u32, leb,
  ◌==◌, ◌/=◌, if◌then◌else◌, arith,
}
use inf2004_aai19_embedded_s.LineSearch.{
  LinePair, line_reference_declined, line_return_consistent, line_reference,
}
use inf2004_aai19_embedded_s.Buzzer.{RobotCue}
use inf2004_aai19_embedded_s.Run.{Call, Robot, Run, M, require, ◌>>=◌, ◌>>◌}
use inf2004_aai19_embedded_s.Run.Triple.{
  Triple, Triple-mono, Triple-bind, Triple-if, Triple-pure, Triple-given, Triple-require,
}
use inf2004_aai19_embedded_s.Run.Frame.{
  Frames, Travelled, Proper, refused_return, Frames-ask, Frames-modify,
}
use inf2004_aai19_embedded_s.Run.Still.{
  run_can_continue-Frames, save_checkpoint-Frames, check_payload-Frames, measure_pair-Frames,
  record_point-Frames, mat_steering_ready-Frames,
}
use inf2004_aai19_embedded_s.Run.Travel.{translation_cost}
use inf2004_aai19_embedded_s.Run.Follow.{
  Followed, Line, Turn, strengthen, remember, improve, count_decline, clear_decline, next_block,
  reserved_return, forward, probe_loop, recheck_and_probe_dip, go_back, after_dip, judge_decline,
  check_limits, line_sweep_ms, end_turn, judge_stop, follow_turn, follow_on, follow_loop,
  follow_direction, forward_block_ms, first_line, starting,
}
use inf2004_aai19_embedded_s.Run.Approach.{is_no_gain}
use inf2004_aai19_embedded_s.Run.Budget.{cost_value, Frames-then, require_lem, translate_block_lem}
use inf2004_aai19_embedded_s.Run.Returns.{Within, Within-frame, return_along_line_lem}

-- The travel `t` covers the line's positions, and the budget the way back to its best point.
pub record Covers (t : ℕ) (l : Line) : Type 0 where
  pub ordered : l.best_position ≤ l.position
  pub reached : l.position ≤ t
  pub small : t ≤ 60000
  pub room : t + translation_cost (l.position - l.best_position) ≤ 60000
  pub unmoved : l.progress ≡ false → l.best_position ≡ 0

module _ (t : ℕ) where
  strengthen-Covers : (l : Line) → Covers t l → Covers t (strengthen l)
  unfolding strengthen
  strengthen-Covers l c = ground arith

  if-Covers : (b : Bool) (l m : Line) → Covers t l → Covers t m → Covers t (if b then l else m)
  if-Covers true l m c d = c
  if-Covers false l m c d = d

  remember-Covers : (current : LinePair) (l : Line) → Covers t l → Covers t (remember current l)
  unfolding remember
  remember-Covers current l c = if-Covers l.dip_active _ _ c (
      strengthen-Covers _ (record {
        ordered = c.ordered;
        reached = c.reached;
        small = c.small;
        room = c.room;
        unmoved = c.unmoved;
      }))

  at_best-Covers : (l : Line) → Covers t l → t + translation_cost (l.position - l.position) ≤ 60000
  at_best-Covers l c = omega (arith, cost_value (l.position - l.position) (omega arith), c.small)

  improve-Covers :
      (baseline current : LinePair) (l : Line) → Covers t l → Covers t (improve baseline current l)
  unfolding improve
  improve-Covers baseline current l c = ground (arith, at_best-Covers l c)

  count_decline-Covers : (step : ℕ) (l : Line) → Covers t l → Covers t (count_decline step l)
  unfolding count_decline
  count_decline-Covers step l c = ground arith

  clear_decline-Covers :
      (current : LinePair) (l : Line) → Covers t l → Covers t (clear_decline current l)
  unfolding clear_decline
  clear_decline-Covers current l c = ground arith

-- A state in which the budget covers the way back along `l`, with a travel of at least `t`.
abbrev At : {W : Type 0} → ℕ → Line → Run W → Type 0
At t l s = (t ≤ s.translation_ms) × Covers s.translation_ms l × (refused_return s.failures ≡ false)

-- A state in which a heading was followed to the end `f`: a trial without a gain can be driven back.
abbrev pub DoneAt : {W : Type 0} → ℕ → Followed → Run W → Type 0
DoneAt t f s =
    Within t s
    × (is_no_gain f.finish ≡ true
        → (f.position ≤ 60000) × (s.translation_ms + translation_cost f.position ≤ 60000))

abbrev TurnAt : {W : Type 0} → ℕ → Turn → Run W → Type 0
TurnAt t (Turn.more current l) s = At t l s
TurnAt t (Turn.done f) s = DoneAt t f s

module _ {W : Type 0} where
  At-each :
      {B : Type 0} {t : ℕ} {l : Line} {m : M W B} {Q : B → Run W → Type 0}
      → ((t' : ℕ) → t ≤ t' → Covers t' l → Triple (Travelled t') m Q Proper)
      → Triple (At t l) m Q Proper
  At-each k = record { at = λ s h. (k s.translation_ms h.0 h.1).at s (refl, h.2) }

  -- A part that stands still, and the rest.
  At-then :
      {A B : Type 0} {t : ℕ} {l : Line} {m : M W A} {f : A → M W B} {Q : B → Run W → Type 0}
      → Frames m
      → ((a : A) → Triple (At t l) (f a) Q Proper)
      → Triple (At t l) (m >>= f) Q Proper
  At-then {t = t} {l = l} k rest =
      Triple-bind
        (At-each (λ t' le c.
          Triple-mono (k.keeps t') (λ s h. h) (λ a s h. (rw (h.0) le, rw (h.0) c, h.1))))
        rest

  At-require :
      {B : Type 0} {t : ℕ} {l : Line} {m : M W B} {Q : B → Run W → Type 0} (b : Bool)
      → Triple (At t l) m Q Proper
      → Triple (At t l) (require b >> m) Q Proper
  At-require b k = Triple-require b (λ s h. (refl, h.2)) (λ e. k)

block_cost : (d : ℕ) → 1 ≤ d → d ≤ 60000 → d + 25 ≤ translation_cost d
block_cost d pos short = omega (arith, cost_value d (omega arith))

reserved_value :
    (block : ℕ) (l : Line) (t : ℕ)
    → block ≤ 500
    → Covers t l
    → (reserved_return block l ≡ translation_cost (l.position + block + 25 - l.best_position))
      × (reserved_return block l ≤ 200000)
unfolding reserved_return
reserved_value block l t short c =
    let same : (u32 (l.position + block + 25 + 2 ^ 32 - l.best_position)
        ≡ l.position + block + 25 - l.best_position) =
      omega (arith, c.ordered, c.reached, c.small) in
    let value =
      cost_value (l.position + block + 25 - l.best_position) (omega (arith, c.reached, c.small)) in
    (ap translation_cost same, rw same (omega (arith, value, c.reached, c.small)))

-- After a block that took `a` of its time and reserve, the reserve covers the way back.
moved-Covers :
    (block a : ℕ) (l : Line) (t : ℕ)
    → 1 ≤ block
    → block ≤ 500
    → Covers t l
    → a ≤ block + 25
    → t + a ≤ 60000
    → t + translation_cost block + reserved_return block l ≤ 60000
    → Covers (t + a) (record l { position = u32 (l.position + a) })
moved-Covers block a l t pos short c most small room =
    let r = reserved_value block l t short c in
    let b = block_cost block pos (omega arith) in
    let far =
      cost_value (l.position + block + 25 - l.best_position) (omega (arith, c.reached, c.small)) in
    let near = cost_value (l.position + a - l.best_position) (omega (arith, c.reached, c.small)) in
    let same : (u32 (l.position + a) ≡ l.position + a) = omega (arith, c.reached, c.small) in
    record {
      ordered = omega (arith, same, c.ordered);
      reached = omega (arith, same, c.reached);
      small = small;
      room = rw same (omega (arith, r, b, far, near, c.ordered));
      unmoved = c.unmoved;
    }

module _ {W : Type 0} (robot : Robot W) where
  -- A forward block leaves room for the way back from wherever it ends.
  forward_lem :
      (heading block : ℕ) (acquire_moving : Bool) (l : Line) (t : ℕ)
      → 1 ≤ block
      → block ≤ 500
      → Triple
          (At t l)
          (forward robot heading block acquire_moving l)
          (λ p. At (t + 1) (record l { position = p }))
          Proper
  unfolding forward
  forward_lem heading block acquire_moving l t pos short = At-each (λ t' le c.
      let r = reserved_value block l t' short c in
      Triple-bind
        (translate_block_lem robot true block heading l.position (reserved_return block l)
          acquire_moving t' c.small (omega arith) r.1 (λ f. cc))
        (λ a.
          Triple-given
            {F = (1 ≤ a)
              × (a ≤ block + 25)
              × (t' + a ≤ 60000)
              × (t' + translation_cost block + reserved_return block l ≤ 60000)}
            (λ s h. (h.1, h.2, h.3, h.4))
            (λ took. Triple-pure _ (λ s h. (
              omega arith,
              rw (h.0.0) (moved-Covers block a l t' pos short c took.1 took.2 took.3),
              h.0.1,
            )))))

  -- The result of a dip: the line that it left, which the budget still covers.
  abbrev DipAt : ℕ → Line × LinePair × Bool → Run W → Type 0
  DipAt t r s = At t (r.0) s

  probe_lem :
      (left heading : ℕ) (current : LinePair) (l : Line) (t : ℕ)
      → Triple (At t l) (probe_loop robot left heading current l) (DipAt t) Proper
  unfolding probe_loop
  probe_lem zero heading current l t = Triple-pure _ (λ s h. h)
  probe_lem (suc left) heading current l t =
      Triple-bind (forward_lem heading 250 false l t (omega arith) (omega arith)) (λ p.
        let l' : Line = record l { position = p } in
        Triple-mono {P = At t l'}
          (At-then (Frames-ask robot (Call.set_position heading p true)) (λ u.
            At-then (measure_pair-Frames robot) (λ reading.
              At-then (save_checkpoint-Frames robot) (λ saved. At-require saved (
                Triple-if (line_return_consistent l.decline_reference reading)
                  (λ e. Triple-pure _ (λ s h. h)) (λ e. probe_lem left heading reading l' t))))))
          (λ s h. (omega arith, h.1, h.2)) (λ a s h. h))

  recheck_lem :
      (heading : ℕ) (l : Line) (t : ℕ)
      → Triple (At t l) (recheck_and_probe_dip robot heading l) (DipAt t) Proper
  unfolding recheck_and_probe_dip
  recheck_lem heading l t = At-then (Frames-ask robot Call.motion_stop) (λ u.
      At-then (check_payload-Frames robot) (λ v. At-then (measure_pair-Frames robot) (λ reading.
        At-then (save_checkpoint-Frames robot) (λ saved. At-require saved (
          Triple-if (line_return_consistent l.decline_reference reading)
            (λ e. Triple-pure _ (λ s h. h)) (λ e. probe_lem _ heading reading l t))))))

  go_back_lem :
      (heading : ℕ) (f : Followed) (l : Line) (t : ℕ)
      → Triple (At t l) (go_back robot heading f l) (DoneAt t) Proper
  unfolding go_back
  go_back_lem heading f l t = At-each (λ t' le c.
      Triple-bind
        (return_along_line_lem robot l.position l.best_position heading t' c.ordered
          (omega (arith, c.reached, c.small)) c.small c.room)
        (λ u.
          Triple-bind (Within-frame t' (measure_pair-Frames robot))
            (λ returned. Triple-pure _ (λ s h. ((omega arith, h.1, h.2), λ w. cc)))))

  after_dip_lem :
      (heading : ℕ) (f : Followed) (r : Line × LinePair × Bool) (t : ℕ)
      → Triple (DipAt t r) (after_dip robot heading f r) (TurnAt t) Proper
  unfolding after_dip
  after_dip_lem heading f (l, current, true) t = Triple-pure _ (λ s h. (h.0, ground arith, h.2))
  after_dip_lem heading f (l, current, false) t =
      Triple-bind (go_back_lem heading f l t) (λ result. Triple-pure _ (λ s h. h))

  -- An updated line that the budget covers wherever it covers the old one.
  At-update :
      {B : Type 0} {t : ℕ} {l l' : Line} {m : M W B} {Q : B → Run W → Type 0}
      → ((t' : ℕ) → Covers t' l → Covers t' l')
      → Triple (At t l') m Q Proper
      → Triple (At t l) m Q Proper
  At-update keep k = Triple-mono k (λ s h. (h.0, keep _ h.1, h.2)) (λ a s h. h)

  judge_decline_lem :
      (step heading : ℕ) (f : Followed) (current : LinePair) (l : Line) (t : ℕ)
      → Triple (At t l) (judge_decline robot step heading f current l) (TurnAt t) Proper
  unfolding judge_decline
  judge_decline_lem step heading f current l t =
      Triple-if (not (line_reference_declined l.decline_reference current))
        (λ e. Triple-pure _ (λ s h.
          (h.0, if-Covers _ l.dip_active _ _ (clear_decline-Covers _ current l h.1) h.1, h.2)))
        (λ e.
          At-update (λ t' c. count_decline-Covers t' step l c)
            (Triple-if (not (leb 3 (count_decline step l).decline_positions))
              (λ g. Triple-pure _ (λ s h. h))
              (λ g.
                Triple-bind (recheck_lem heading (count_decline step l) t)
                  (λ r. after_dip_lem heading f r t))))

  trial_done :
      (l : Line) (t : ℕ) → Covers t l → l.progress ≡ false → t + translation_cost l.position ≤ 60000
  trial_done l t v e =
      let b = v.unmoved e in
      let same : (l.position - l.best_position ≡ l.position) = omega arith in rw same at v.room

  check_limits_lem :
      (trial_ms : ℕ) (f : Followed) (current : LinePair) (l : Line) (t : ℕ)
      → Triple (At t l) (check_limits robot trial_ms f current l) (TurnAt t) Proper
  unfolding check_limits
  check_limits_lem trial_ms f current l t =
      Triple-if
        (trial_ms /= 0 && not l.progress && leb trial_ms l.position && l.decline_positions == 0)
        (λ e. Triple-pure _ (λ s h. (
          (h.0, h.1.small, h.2),
          λ w. (
            omega (arith, h.1.reached, h.1.small),
            trial_done l s.translation_ms h.1 (ground arith),
          ),
        )))
        (λ e.
          Triple-if (not (leb line_sweep_ms (u32 (l.position + 2 ^ 32 - l.segment_start))))
            (λ g. Triple-pure _ (λ s h. h))
            (λ g.
              At-then
                (Frames-modify
                  (λ s. record s { profile_count = 0; profile_id = u32 (s.profile_id + 1) })
                  (λ s. refl) (λ s. refl))
                (λ u. At-then (record_point-Frames robot) (λ v.
                  Triple-pure (Turn.more current (record l { segment_start = l.position }))
                    (λ s h. (h.0, ground arith, h.2))))))

  end_turn_lem :
      (trial_ms : ℕ) (f : Followed) (turn : Turn) (t : ℕ)
      → Triple (TurnAt t turn) (end_turn robot trial_ms f turn) (TurnAt t) Proper
  unfolding end_turn
  end_turn_lem trial_ms f (Turn.done result) t = Triple-pure _ (λ s h. h)
  end_turn_lem trial_ms f (Turn.more current l) t =
      At-update (λ t' c. remember-Covers t' current _ (improve-Covers t' f.baseline current l c))
        (check_limits_lem trial_ms f current _ t)

  judge_stop_lem :
      (trial_ms step heading : ℕ) (f : Followed) (l : Line) (t : ℕ)
      → Triple (At t l) (judge_stop robot trial_ms step heading f l) (TurnAt t) Proper
  unfolding judge_stop
  judge_stop_lem trial_ms step heading f l t = At-then (mat_steering_ready-Frames robot) (λ ready.
      Triple-if ready (λ e. Triple-pure _ (λ s h. ((h.0, h.1.small, h.2), λ w. cc)))
        (λ e. At-then (Frames-ask robot (Call.set_position heading l.position true)) (λ u.
          At-then (measure_pair-Frames robot) (λ current. At-then (record_point-Frames robot) (λ v.
            Triple-bind (judge_decline_lem step heading f current l t)
              (λ turn. end_turn_lem trial_ms f turn t))))))

  next_block_bounds :
      (trial_ms step : ℕ) (l : Line)
      → 1 ≤ step
      → trial_ms ≤ 60000
      → (1 ≤ next_block trial_ms step l) × (next_block trial_ms step l ≤ step)
  unfolding next_block
  next_block_bounds trial_ms step l pos short = ground arith

  step_lem :
      (l : Line) (t : ℕ)
      → Triple
          (At t l)
          (forward_block_ms robot)
          (λ step s. At t l s × (1 ≤ step) × (step ≤ 500))
          Proper
  unfolding forward_block_ms
  step_lem l t = At-then (Frames-ask robot Call.on_mat) (λ on_mat.
      At-then (Frames-modify (λ s. record s { step_on_mat = on_mat }) (λ s. refl) (λ s. refl))
        (λ u. Triple-pure _ (λ s h. (h, ground arith, ground arith))))

  follow_turn_lem :
      (trial_ms heading : ℕ) (f : Followed) (l : Line) (t : ℕ)
      → trial_ms ≤ 60000
      → Triple (At t l) (follow_turn robot trial_ms heading f l) (TurnAt (t + 1)) Proper
  unfolding follow_turn
  follow_turn_lem trial_ms heading f l t short = At-then (run_can_continue-Frames robot) (λ going.
      At-require going (
        Triple-bind (step_lem l t) (λ step.
          Triple-given {F = (1 ≤ step) × (step ≤ 500)} (λ s h. (h.1, h.2))
            (λ size.
              let b = next_block_bounds trial_ms step l size.0 short in
              Triple-mono {P = At t l}
                (At-then (Frames-ask robot (Call.set_reference (line_reference l.best))) (λ u.
                  Triple-bind
                    (forward_lem heading (next_block trial_ms step l) true l t b.0
                      (omega (arith, b)))
                    (λ p.
                      judge_stop_lem trial_ms step heading f (record l { position = p }) (t + 1))))
                (λ s h. h.0) (λ a s h. h)))))

  follow_on_lem :
      (again : Line → M W Followed) (turn : Turn) (t : ℕ)
      → ((l : Line) → Triple (At t l) (again l) (DoneAt t) Proper)
      → Triple (TurnAt t turn) (follow_on robot again turn) (DoneAt t) Proper
  unfolding follow_on
  follow_on_lem again (Turn.more current l) t k = k l
  follow_on_lem again (Turn.done result) t k = Triple-pure result (λ s h. h)

  -- Every turn adds to the travel, so the budget's milliseconds are fuel enough.
  follow_loop_lem :
      (fuel trial_ms heading : ℕ) (f : Followed) (l : Line) (t : ℕ)
      → trial_ms ≤ 60000
      → 60000 < fuel + t
      → Triple (At t l) (follow_loop robot fuel trial_ms heading f l) (DoneAt (t + 1)) Proper
  unfolding follow_loop
  follow_loop_lem zero trial_ms heading f l t short enough =
      At-each (λ t' le c. absurd (omega (arith, c.small)))
  follow_loop_lem (suc fuel) trial_ms heading f l t short enough =
      Triple-bind (follow_turn_lem trial_ms heading f l t short) (λ turn.
        follow_on_lem _ turn (t + 1) (λ l'.
          Triple-mono (follow_loop_lem fuel trial_ms heading f l' (t + 1) short (omega arith))
            (λ s h. h) (λ a s h. ((omega arith, h.0.1, h.0.2), h.1))))

  -- A followed heading adds to the travel, and a trial without a gain can be driven back.
  pub follow_direction_lem :
      (heading trial_ms t : ℕ)
      → trial_ms ≤ 60000
      → t ≤ 60000
      → Triple (Travelled t) (follow_direction robot heading trial_ms) (DoneAt (t + 1)) Proper
  unfolding follow_direction
  follow_direction_lem heading trial_ms t short small =
      Frames-then
        (Frames-modify (λ s. record s { profile_count = 0; profile_id = u32 (s.profile_id + 1) })
          (λ s. refl) (λ s. refl))
        (λ a. Frames-then (Frames-ask robot (Call.cue_play RobotCue.cue_pass)) (λ b.
          Frames-then (Frames-ask robot (Call.turn_to_heading heading)) (λ turned.
            require_lem turned (λ e.
              Frames-then (Frames-ask robot (Call.set_position heading 0 true)) (λ c.
                Frames-then (measure_pair-Frames robot) (λ best.
                  Frames-then (record_point-Frames robot) (λ d.
                    Triple-mono
                      (follow_loop_lem 60001 trial_ms heading (starting robot heading best)
                        (first_line robot best) t short (omega arith))
                      (λ s h. (omega arith, start best s.translation_ms (omega arith), h.1))
                      (λ x s h. h))))))))
    where
      start : (best : LinePair) (t' : ℕ) → t' ≤ 60000 → Covers t' (first_line robot best)
      start best t' le = record {
        ordered = omega arith;
        reached = omega arith;
        small = le;
        room = omega (arith, cost_value 0 (omega arith));
        unmoved = λ e. refl;
      }
