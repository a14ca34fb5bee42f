-- ===== src/Client/Events.antt =====
-- The events of the radio and the callbacks that the main loop queues keep what `IsSound` says.
use inf2004_aai19_embedded_s.Common.{
  ℕ, ◌≡◌, refl, inl, Bool, true, false, not, ◌&&◌, ◌||◌, none, some, if◌then◌else◌, ltb, arith,
}
use inf2004_aai19_embedded_s.Common.Int.{ℤ, pos, negsuc, leb_ℤ}
use inf2004_aai19_embedded_s.Faults.{Fault}
use inf2004_aai19_embedded_s.Client.{
  BleState, is, Result, Flag, Call, Client, World, rssi_sample_count, required_close_averages, flag,
  flag_assign, call, raise, set_state,
}
use inf2004_aai19_embedded_s.Client.Gatt.{is_handle}
use inf2004_aai19_embedded_s.Client.Proximity.{
  Advertisement, int8, target_advertisement, add_sample, count_average, confirm_close,
  advertisement_received,
}
use inf2004_aai19_embedded_s.Client.Radio.{
  RadioEvent, Callback, connection_complete, scan_command_complete, disconnected, hci_handler,
  clear_attempt, start_attempt_callback, abort_attempt_callback, initialise_client_callback,
  run_callback,
}
use inf2004_aai19_embedded_s.Client.Sound.{
  IsBounded, is_verified, IsSound, IsSound-if, finish_attempt-IsSound, close_attempt-IsSound,
  transfer_failed-IsSound, begin_connection-IsSound,
}
use inf2004_aai19_embedded_s.Client.Callbacks.{gatt_handler-IsSound}

module _ (service_data : ℕ) (world : World) where
  connection_complete-IsSound :
      (ok : Bool) (handle : ℕ) (c : Client)
      → IsSound c
      → IsSound (connection_complete service_data world ok handle c)
  unfolding connection_complete set_state
  connection_complete-IsSound ok handle c s =
      let now = world.now_ms in
      let made = record c { connection_handle = some handle } in
      let c1 =
        call (Call.discover_services (some handle))
          (record (flag_assign Flag.service_found false made) {
            phase_started_ms = now;
            state = BleState.discover_service;
          }) in
      IsSound-if (not (is c.state BleState.connecting) && not (is c.state BleState.closing))
        (λ e. s)
        (λ e.
          IsSound-if (not ok)
            (λ f.
              IsSound-if (is c.state BleState.closing)
                (λ g.
                  finish_attempt-IsSound world (record c { connection_handle = none })
                    (ground arith) s.verified_announced s.verified_checked)
                (λ g.
                  transfer_failed-IsSound world
                    (record c {
                      connection_handle = none;
                      phase_started_ms = now;
                      state = BleState.idle;
                    })
                    (ground arith)))
            (λ f.
              IsSound-if (flag Flag.abort_requested c || is c.state BleState.closing)
                (λ g. ground arith)
                (λ g.
                  IsSound-if (not world.discover_taken)
                    (λ h. transfer_failed-IsSound world c1 (ground arith)) (λ h. ground arith))))

  scan_command_complete-IsSound :
      (ok : Bool) (c : Client) → IsSound c → IsSound (scan_command_complete service_data world ok c)
  unfolding scan_command_complete
  scan_command_complete-IsSound ok c s =
      IsSound-if (not ok)
        (λ e.
          finish_attempt-IsSound world (record (raise Fault.ble_radio c) { closing = Result.fatal })
            (ground arith) s.verified_announced s.verified_checked)
        (λ e.
          IsSound-if (is c.state BleState.scanning) (λ f. ground arith)
            (λ f.
              IsSound-if (is c.state BleState.stopping_for_connect)
                (λ g.
                  IsSound-if (flag Flag.abort_requested c)
                    (λ h.
                      finish_attempt-IsSound world (record c { closing = Result.fatal })
                        (ground arith) s.verified_announced s.verified_checked)
                    (λ h. begin_connection-IsSound world c s.bounded (ground arith)))
                (λ g.
                  IsSound-if (is c.state BleState.stopping_scan)
                    (λ h.
                      finish_attempt-IsSound world c s.bounded s.verified_announced
                        s.verified_checked)
                    (λ h. s))))

  disconnected-IsSound :
      (handle : ℕ) (c : Client) → IsSound c → IsSound (disconnected service_data world handle c)
  unfolding disconnected
  disconnected-IsSound handle c s =
      let c1 = record c { connection_handle = none } in
      let c2 = flag_assign Flag.payload_verified false (raise Fault.payload c1) in
      IsSound-if (not (is_handle handle c.connection_handle)) (λ e. s)
        (λ e.
          IsSound-if (not (is c.state BleState.closing))
            (λ f.
              finish_attempt-IsSound world
                (record c2 {
                  closing = if flag Flag.close_confirmed c2 then Result.retry else Result.not_close;
                })
                (ground arith) (inl refl) (inl refl))
            (λ f.
              finish_attempt-IsSound world c1 (ground arith) s.verified_announced
                s.verified_checked))

  add_sample-IsSound :
      (rssi : ℤ) (c : Client) → IsSound c → IsSound (add_sample service_data world rssi c)
  unfolding add_sample
  add_sample-IsSound rssi c s = ground arith

  count_average-IsSound : (c : Client) → IsSound c → IsSound (count_average service_data world c)
  unfolding count_average
  count_average-IsSound c s = ground arith

  confirm_close-IsSound :
      (a : Advertisement) (c : Client)
      → IsBounded c
      → is_verified c ≡ false
      → IsSound (confirm_close service_data world a c)
  unfolding confirm_close set_state
  confirm_close-IsSound a c b v = ground arith

  counted_unverified :
      (rssi : ℤ) (c : Client)
      → IsSound c
      → is c.state BleState.scanning ≡ true
      → is_verified (count_average service_data world (add_sample service_data world rssi c))
        ≡ false
  unfolding count_average add_sample
  counted_unverified rssi c s e = ground arith

  advertisement_received-IsSound :
      (a : Advertisement) (c : Client)
      → IsSound c
      → is c.state BleState.scanning ≡ true
      → IsSound (advertisement_received service_data world a c)
  unfolding advertisement_received
  advertisement_received-IsSound a c s e =
      let rssi = int8 a.rssi in
      let c1 = add_sample service_data world rssi c in
      let c2 = count_average service_data world c1 in
      let s1 = add_sample-IsSound rssi c s in
      let s2 = count_average-IsSound c1 s1 in
      IsSound-if (flag Flag.abort_requested c || not (target_advertisement service_data a.fields))
        (λ f. s)
        (λ f.
          IsSound-if (leb_ℤ (pos 0) rssi || leb_ℤ rssi (negsuc 126)) (λ g. s)
            (λ g.
              IsSound-if (ltb c1.counters.sample_count rssi_sample_count) (λ h. s1)
                (λ h.
                  IsSound-if (ltb c2.counters.close_count required_close_averages) (λ i. s2)
                    (λ i. confirm_close-IsSound a c2 s2.bounded (counted_unverified rssi c s e)))))

  hci_handler-IsSound :
      (e : RadioEvent) (c : Client) → IsSound c → IsSound (hci_handler service_data world e c)
  unfolding hci_handler
  hci_handler-IsSound (RadioEvent.stack_state working) c s = ground arith
  hci_handler-IsSound (RadioEvent.scan_command ok) c s = scan_command_complete-IsSound ok c s
  hci_handler-IsSound (RadioEvent.advertising_report a) c s =
      IsSound-if (is c.state BleState.scanning) (λ e. advertisement_received-IsSound a c s e)
        (λ e. s)
  hci_handler-IsSound (RadioEvent.connection ok handle) c s =
      connection_complete-IsSound ok handle c s
  hci_handler-IsSound (RadioEvent.disconnection handle) c s = disconnected-IsSound handle c s
  hci_handler-IsSound RadioEvent.ignored c s = s

  start_attempt_callback-IsSound :
      (c : Client) → IsSound c → IsSound (start_attempt_callback service_data world c)
  unfolding start_attempt_callback clear_attempt set_state
  start_attempt_callback-IsSound c s =
      IsSound-if (flag Flag.abort_requested c)
        (λ e.
          finish_attempt-IsSound world (record c { closing = Result.fatal }) (ground arith)
            s.verified_announced s.verified_checked)
        (λ e.
          IsSound-if (flag Flag.reconnect_requested c)
            (λ f.
              begin_connection-IsSound world
                (clear_attempt service_data world (flag Flag.reconnect_requested c) c)
                (ground arith) refl)
            (λ f. ground arith))

  abort_attempt_callback-IsSound :
      (c : Client) → IsSound c → IsSound (abort_attempt_callback service_data world c)
  unfolding abort_attempt_callback
  abort_attempt_callback-IsSound c s =
      let stop = world.stop_requested in
      let c1 = if not stop && flag Flag.close_confirmed c then raise Fault.payload c else c in
      let s1 : IsSound c1 =
        IsSound-if (not stop && flag Flag.close_confirmed c) (λ e. ground arith) (λ e. s) in
      IsSound-if
        (not (flag Flag.attempt_running c)
          || is c.state BleState.stopping_scan
          || is c.state BleState.closing)
        (λ e. s)
        (λ e.
          close_attempt-IsSound world
            (if stop
              then Result.fatal
              else if flag Flag.close_confirmed c1
              then Result.retry
              else Result.not_close)
            c1 s1.bounded (ground arith) s1.verified_announced s1.verified_checked)

  initialise_client_callback-IsSound :
      (c : Client) → IsSound c → IsSound (initialise_client_callback service_data world c)
  unfolding initialise_client_callback
  initialise_client_callback-IsSound c s = ground arith

  pub run_callback-IsSound :
      (k : Callback) (c : Client) → IsSound c → IsSound (run_callback service_data world k c)
  unfolding run_callback
  run_callback-IsSound (Callback.gatt e) c s = gatt_handler-IsSound world e c s
  run_callback-IsSound (Callback.radio e) c s = hci_handler-IsSound e c s
  run_callback-IsSound Callback.start_attempt c s = start_attempt_callback-IsSound c s
  run_callback-IsSound Callback.abort_attempt c s = abort_attempt_callback-IsSound c s
  run_callback-IsSound Callback.initialise_client c s = initialise_client_callback-IsSound c s
