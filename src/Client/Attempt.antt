-- ===== src/Client/Attempt.antt =====
-- payload_client.c, `phase_timeout` and `run_attempt`: the main loop's side of one attempt. BTstack's
-- callbacks run between the rounds of its loop (and may run anywhere else in it: they touch what the
-- loop reads only by whole words).
use inf2004_aai19_embedded_s.Common.{
  ℕ, ◌+◌, ◌-◌, ◌^◌, Bool, true, false, ◌&&◌, ◌||◌, not, List, [], ◌∷◌, leb, ◌/=◌, if◌then◌else◌,
  u32,
}
use inf2004_aai19_embedded_s.Faults.{Fault}
use inf2004_aai19_embedded_s.Client.{
  BleState, is, Result, result_code, Flag, Call, Client, World, flag, flag_assign, call, raise,
  set_state,
}
use inf2004_aai19_embedded_s.Client.Radio.{Callback, run_callback}

abbrev pub cleanup_timeout_ms : ℕ
cleanup_timeout_ms = 3000

abbrev pub attempt_timeout_ms : ℕ
attempt_timeout_ms = 30000

unfoldable pub phase_timeout : BleState → ℕ
phase_timeout s =
    if is s BleState.scanning
    then 5000
    else if is s BleState.connecting
        || is s BleState.discover_service
        || is s BleState.discover_characteristic
        || is s BleState.enable_notifications
    then 15000
    else if is s BleState.stopping_scan || is s BleState.closing
    then cleanup_timeout_ms
    else 5000

-- `(uint32_t)(now - then)`
abbrev pub elapsed : ℕ → ℕ → ℕ
elapsed now since = u32 (now + 2 ^ 32 - since)

-- The four readings of the clock in a round, in their order, and the stop button.
pub record Readings : Type 0 where
  pub phase_now : ℕ
  pub attempt_now : ℕ
  pub abort_now : ℕ
  pub cleanup_now : ℕ
  pub stop_requested : Bool

-- The local variables of the loop; `aborting` is that the abort has been queued for BTstack.
pub record Attempt : Type 0 where
  pub client : Client
  pub start : ℕ
  pub abort_started : ℕ
  pub close_announced : Bool
  pub aborting : Bool

-- A round of the loop returns, or the loop goes on.
pub data Outcome : Type 0 where
  returned : Result → Client → Outcome
  looping : Attempt → Outcome

-- Whether the guards in front of the loop refuse the attempt.
unfoldable pub refused : Bool → Bool → Client → Bool
refused stop reconnect c =
    not (flag Flag.bluetooth_ready c)
    || flag Flag.attempt_running c
    || stop
    || (reconnect
        && (not (flag Flag.close_confirmed c)
            || not (is c.state BleState.idle)
            || result_code c.result /= result_code Result.retry))

-- What is set before `start_attempt_callback` is queued.
unfoldable pub prepare_attempt : World → Bool → Client → Client
prepare_attempt world reconnect c =
    let c1 =
      flag_assign Flag.abort_requested false (flag_assign Flag.reconnect_requested reconnect c) in
    let c2 = if not reconnect then flag_assign Flag.close_confirmed false c1 else c1 in
    set_state world BleState.starting (flag_assign Flag.attempt_running true c2)

unfoldable pub begin_attempt : World → Bool → ℕ → Client → Outcome
begin_attempt world reconnect start c =
    let c1 = call Call.motion_stop c in
    if refused world.stop_requested reconnect c1
    then Outcome.returned Result.fatal c1
    else Outcome.looping (record {
      client = prepare_attempt world reconnect c1;
      start = start;
      abort_started = 0;
      close_announced = false;
      aborting = false;
    })

unfoldable pub announce_close : Attempt → Attempt
announce_close a =
    if not a.close_announced && flag Flag.close_confirmed a.client
    then record a {
      close_announced = true;
      client = if a.client.has_close_callback then call Call.close_callback a.client else a.client;
    }
    else a

-- The request of an abort.
unfoldable pub request_abort : Readings → Attempt → Attempt
request_abort t a =
    if not (flag Flag.abort_requested a.client)
      && (t.stop_requested
          || leb (phase_timeout a.client.state) (elapsed t.phase_now a.client.phase_started_ms)
          || leb attempt_timeout_ms (elapsed t.attempt_now a.start))
    then record a {
      client = flag_assign Flag.abort_requested true a.client;
      abort_started = t.abort_now;
      aborting = true;
    }
    else a

unfoldable pub cleaning_up : Client → Bool
cleaning_up c = is c.state BleState.closing || is c.state BleState.stopping_scan

-- One round of the loop, its test included.
unfoldable pub round : Readings → Attempt → Outcome
round t a =
    let a1 = announce_close a in
    let a2 = request_abort t a1 in
    let c1 = a1.client in
    if not (flag Flag.attempt_running a.client)
    then Outcome.returned (if t.stop_requested then Result.fatal else a.client.result) a.client
    else if cleaning_up c1 && leb cleanup_timeout_ms (elapsed t.phase_now c1.phase_started_ms)
    then Outcome.returned Result.fatal
        (raise Fault.ble_radio (flag_assign Flag.abort_requested true c1))
    else if flag Flag.abort_requested a2.client
        && leb cleanup_timeout_ms (elapsed t.cleanup_now a2.abort_started)
    then Outcome.returned Result.fatal (raise Fault.ble_radio a2.client)
    else Outcome.looping a2

-- The rounds of an attempt: before each, the callbacks that have run, each in its world.
pub record Turn : Type 0 where
  pub callbacks : List (World × Callback)
  pub readings : Readings

abbrev pub go_on : (Attempt → Outcome) → Outcome → Outcome
go_on f (Outcome.returned r c) = Outcome.returned r c
go_on f (Outcome.looping a) = f a

module _ (service_data : ℕ) where
  unfoldable pub run_callbacks : List (World × Callback) → Client → Client
  run_callbacks [] c = c
  run_callbacks (x ∷ xs) c = run_callbacks xs (run_callback service_data x.0 x.1 c)

  -- The attempt after the callbacks before a round.
  abbrev pub called_back : Turn → Attempt → Attempt
  called_back t a = record a { client = run_callbacks t.callbacks a.client }

  unfoldable pub rounds : List Turn → Attempt → Outcome
  rounds [] a = Outcome.looping a
  rounds (t ∷ ts) a = go_on (rounds ts) (round t.readings (called_back t a))
