-- ===== src/Client/Outcomes.antt =====
-- What an attempt of the client ends with.
use inf2004_aai19_embedded_s.Common.{
  ℕ, ◌≡◌, refl, ◌∙◌, ◌<◌, ◌⊎◌, inl, inr, Bool, true, false, ◌||◌, ◌&&◌, leb, not, none, some, ◌∷◌,
  if◌then◌else◌, arith,
}
use mathlib.Core.Path.{subst}
use inf2004_aai19_embedded_s.Faults.{Fault, fault_test}
use inf2004_aai19_embedded_s.Faults.Laws.{fault_set_laws}
use inf2004_aai19_embedded_s.Client.{
  BleState, state_code, is, Result, Flag, Call, Client, World, flag, set_state, finish_attempt,
  close_connection, close_attempt, transfer_failed,
}
use inf2004_aai19_embedded_s.Client.Attempt.{
  Attempt, Outcome, Readings, announce_close, cleaning_up, round, elapsed, cleanup_timeout_ms,
}
use inf2004_aai19_embedded_s.Client.Radio.{
  connection_complete, abort_attempt_callback, disconnected,
}

-- When a connection is made after the main loop has requested an abort and before the abort's
-- callback runs, the attempt ends with the result that an earlier attempt left in the status word,
-- whatever the close-range flag says.
pub stale_result :
    (n : ℕ) (w1 w2 w3 : World) (h : ℕ) (c : Client)
    → is c.state BleState.connecting ≡ true
    → flag Flag.abort_requested c ≡ true
    → let c1 = connection_complete n w1 true h c in
      let c2 = abort_attempt_callback n w2 c1 in
      let c3 = disconnected n w3 h c2 in
      (c3.result ≡ c.closing) × (state_code c3.state ≡ 0) × (flag Flag.attempt_running c3 ≡ false)
unfolding connection_complete abort_attempt_callback disconnected finish_attempt set_state
stale_result n w1 w2 w3 h c e a = ground arith

-- The loop of `run_attempt` ends, with this result.
pub data EndsWith (r : Result) : Outcome → Type 0 where
  returned : {c : Client} → EndsWith r (Outcome.returned r c)

EndsWith-if :
    {r : Result} (b : Bool) {x y : Outcome}
    → (b ≡ true → EndsWith r x)
    → (b ≡ false → EndsWith r y)
    → EndsWith r (if b then x else y)
EndsWith-if true hx hy = hx refl
EndsWith-if false hx hy = hy refl

stopped_or :
    (s b : Bool) (x : Result)
    → (if s then Result.fatal else if b then Result.fatal else x)
      ≡ (if s || b then Result.fatal else x)
stopped_or true b x = refl
stopped_or false b x = refl

-- The client while the connection of a failed transfer is being ended.
closing-transfer_failed :
    (w : World) (c : Client) (h : ℕ)
    → 3 < state_code c.state
    → c.connection_handle ≡ some h
    → let c1 = transfer_failed w c in
      (flag Flag.payload_verified c1 ≡ false)
      × (fault_test Fault.payload c1.faults ≡ true)
      × (state_code c1.state ≡ 22)
      × (c1.phase_started_ms ≡ w.now_ms)
      × (c1.connection_handle ≡ some h)
      × (flag Flag.attempt_running c1 ≡ flag Flag.attempt_running c)
      × (c1.calls ≡ Call.disconnect (some h) ∷ c.calls)
      × (c1.closing ≡ (
          if not w.disconnect_taken
          then Result.fatal
          else if flag Flag.close_confirmed c
          then Result.retry
          else Result.not_close))
unfolding transfer_failed close_attempt close_connection set_state
closing-transfer_failed w c h s e =
    ground (arith, fault_set_laws Fault.payload Fault.payload c.faults)

disconnected-closing :
    (n : ℕ) (w : World) (h : ℕ) (c : Client)
    → state_code c.state ≡ 22
    → c.connection_handle ≡ some h
    → let c2 = disconnected n w h c in
      (flag Flag.payload_verified c2 ≡ flag Flag.payload_verified c)
      × (c2.faults ≡ c.faults)
      × (c2.connection_handle ≡ none)
      × (flag Flag.attempt_running c2 ≡ false)
      × (c2.result ≡ c.closing)
unfolding disconnected finish_attempt set_state
disconnected-closing n w h c s e = ground arith

round-EndsWith :
    (t : Readings) (a : Attempt)
    → flag Flag.attempt_running a.client ≡ false
    → EndsWith (if t.stop_requested then Result.fatal else a.client.result) (round t a)
unfolding round
round-EndsWith t a e =
    EndsWith-if (not (flag Flag.attempt_running a.client)) (λ f. EndsWith.returned)
      (λ f. absurd (ground arith))

announce_close-phase :
    (a : Attempt)
    → let c = (announce_close a).client in
      (c.state ≡ a.client.state) × (c.phase_started_ms ≡ a.client.phase_started_ms)
unfolding announce_close
announce_close-phase a = ground arith

late_cleanup :
    (t : Readings) (c d : Client)
    → state_code d.state ≡ 22
    → (c.state ≡ d.state) × (c.phase_started_ms ≡ d.phase_started_ms)
    → (elapsed t.phase_now d.phase_started_ms < cleanup_timeout_ms)
      ⊎ ((cleaning_up c && leb cleanup_timeout_ms (elapsed t.phase_now c.phase_started_ms)) ≡ true)
unfolding cleaning_up
late_cleanup t c d s e = ground arith

late_round-EndsWith :
    (t : Readings) (a : Attempt)
    → flag Flag.attempt_running a.client ≡ true
    → state_code a.client.state ≡ 22
    → (elapsed t.phase_now a.client.phase_started_ms < cleanup_timeout_ms)
      ⊎ EndsWith Result.fatal (round t a)
unfolding round
late_round-EndsWith t a e s =
    let c1 = (announce_close a).client in
    elim (late_cleanup t c1 a.client s (announce_close-phase a)) [
      | inl early ↦ inl early
      | inr late ↦ inr (
          EndsWith-if (not (flag Flag.attempt_running a.client)) (λ f. absurd (ground arith))
            (λ f.
              EndsWith-if
                (cleaning_up c1 && leb cleanup_timeout_ms (elapsed t.phase_now c1.phase_started_ms))
                (λ g. EndsWith.returned) (λ g. absurd (ground arith))))
    ]

-- A transfer that fails over a connection asks once for its end. When the disconnection comes, the
-- reply is given up, the payload fault is on, the connection is forgotten, and the next round of
-- the loop ends run_attempt: as fatal if the stop button is pressed or BTstack did not take the
-- request, else as a retry if the beacon was close, and as "not close" if it was not. As long as it
-- does not come, a round ends run_attempt as fatal once 3 seconds have passed since the failure.
pub failed_transfer :
    (n : ℕ) (w1 w2 : World) (c : Client) (h : ℕ) (t : Readings) (a : Attempt)
    → 3 < state_code c.state
    → c.connection_handle ≡ some h
    → flag Flag.attempt_running c ≡ true
    → let c1 = transfer_failed w1 c in
      let c2 = disconnected n w2 h c1 in
      (c1.calls ≡ Call.disconnect (some h) ∷ c.calls)
      × (flag Flag.payload_verified c2 ≡ false)
      × (fault_test Fault.payload c2.faults ≡ true)
      × (c2.connection_handle ≡ none)
      × EndsWith
          (if t.stop_requested || not w1.disconnect_taken
            then Result.fatal
            else if flag Flag.close_confirmed c
            then Result.retry
            else Result.not_close)
          (round t (record a { client = c2 }))
      × ((elapsed t.phase_now w1.now_ms < cleanup_timeout_ms)
          ⊎ EndsWith Result.fatal (round t (record a { client = c1 })))
failed_transfer n w1 w2 c h t a s e r =
    let c1 = transfer_failed w1 c in
    let c2 = disconnected n w2 h c1 in
    let (verified, fault, state, began, handle, running, calls, closing) =
      closing-transfer_failed w1 c h s e in
    let (verified2, faults2, handle2, running2, result2) =
      disconnected-closing n w2 h c1 state handle in
    let ends = round-EndsWith t (record a { client = c2 }) running2 in
    let late = late_round-EndsWith t (record a { client = c1 }) (cc) state in
    let result =
      subst
        (λ x.
          EndsWith (if t.stop_requested then Result.fatal else x)
            (round t (record a { client = c2 })))
        (result2 ∙ closing) ends in
    (
      calls,
      cc,
      cc,
      handle2,
      subst (λ x. EndsWith x (round t (record a { client = c2 })))
          (stopped_or t.stop_requested (not w1.disconnect_taken)
            (if flag Flag.close_confirmed c then Result.retry else Result.not_close))
          result,
      subst
          (λ n.
            (elapsed t.phase_now n < cleanup_timeout_ms)
            ⊎ EndsWith Result.fatal (round t (record a { client = c1 })))
          began late,
    )
