-- ===== src/Client/Radio.antt =====
-- payload_client.c, from `connection_complete` on: the events of the Bluetooth controller, the
-- callbacks that the main loop queues for BTstack's context, and the settings.
use inf2004_aai19_embedded_s.Common.{
  ℕ, Bool, true, false, ◌&&◌, ◌||◌, not, Option, none, some, List, replicate, if◌then◌else◌,
}
use inf2004_aai19_embedded_s.Common.Int.{ℤ}
use inf2004_aai19_embedded_s.Faults.{Fault}
use inf2004_aai19_embedded_s.PackedBits.{bitarray_bytes, rssi_bits}
use inf2004_aai19_embedded_s.Client.{
  BleState, is, Result, Flag, Call, Client, World, rssi_sample_count, flag, flag_assign, call,
  raise, set_state, finish_attempt, close_attempt, transfer_failed, begin_connection,
}
use inf2004_aai19_embedded_s.Client.Gatt.{GattEvent, is_handle, gatt_handler}
use inf2004_aai19_embedded_s.Client.Proximity.{Advertisement, advertisement_received}

-- The events that `hci_handler` acts on: `stack_state` with whether the stack works,
-- `scan_command` with whether the command that starts or stops a scan succeeded, and
-- `connection` with whether a connection was made, and its handle.
pub data RadioEvent : Type 0 where
  stack_state scan_command : Bool → RadioEvent
  advertising_report : Advertisement → RadioEvent
  connection : Bool → ℕ → RadioEvent
  disconnection : ℕ → RadioEvent
  ignored : RadioEvent

-- A callback that BTstack runs: an event, or one of the three that the main loop queues.
pub data Callback : Type 0 where
  gatt : GattEvent → Callback
  radio : RadioEvent → Callback
  start_attempt abort_attempt initialise_client : Callback

module _ (service_data : ℕ) (world : World) where
  unfoldable pub connection_complete : Bool → ℕ → Client → Client
  connection_complete ok handle c =
      let failed = record c { connection_handle = none } in
      let made = record c { connection_handle = some handle } in
      let c1 =
        call (Call.discover_services (some handle))
          (set_state world BleState.discover_service (flag_assign Flag.service_found false made)) in
      if not (is c.state BleState.connecting) && not (is c.state BleState.closing)
      then c
      else if not ok
      then (if is c.state BleState.closing
          then finish_attempt world failed
          else transfer_failed world (set_state world BleState.idle failed))
      else if flag Flag.abort_requested c || is c.state BleState.closing
      then call (Call.disconnect (some handle)) (set_state world BleState.closing made)
      else if not world.discover_taken
      then transfer_failed world c1
      else c1

  unfoldable pub scan_command_complete : Bool → Client → Client
  scan_command_complete ok c =
      if not ok
      then finish_attempt world (record (raise Fault.ble_radio c) { closing = Result.fatal })
      else if is c.state BleState.scanning
      then flag_assign Flag.scan_confirmed true c
      else if is c.state BleState.stopping_for_connect
      then (if flag Flag.abort_requested c
          then finish_attempt world (record c { closing = Result.fatal })
          else begin_connection world c)
      else if is c.state BleState.stopping_scan
      then finish_attempt world c
      else c

  unfoldable pub disconnected : ℕ → Client → Client
  disconnected handle c =
      let c1 = record c { connection_handle = none } in
      let c2 = flag_assign Flag.payload_verified false (raise Fault.payload c1) in
      if not (is_handle handle c.connection_handle)
      then c
      else if not (is c.state BleState.closing)
      then finish_attempt world (record c2 {
        closing = if flag Flag.close_confirmed c2 then Result.retry else Result.not_close;
      })
      else finish_attempt world c1

  unfoldable pub hci_handler : RadioEvent → Client → Client
  hci_handler (RadioEvent.stack_state working) c = flag_assign Flag.bluetooth_ready working c
  hci_handler (RadioEvent.scan_command ok) c = scan_command_complete ok c
  hci_handler (RadioEvent.advertising_report a) c =
      if is c.state BleState.scanning then advertisement_received service_data world a c else c
  hci_handler (RadioEvent.connection ok handle) c = connection_complete ok handle c
  hci_handler (RadioEvent.disconnection handle) c = disconnected handle c
  hci_handler RadioEvent.ignored c = c

  -- What `start_attempt_callback` clears.
  unfoldable pub clear_attempt : Bool → Client → Client
  clear_attempt reconnect c =
      let c1 = if not reconnect then flag_assign Flag.close_confirmed false c else c in
      record (flag_assign Flag.payload_verified false (flag_assign Flag.scan_confirmed false c1)) {
        counters = record c.counters {
          pending_length = 0;
          reply_length = 0;
          reply_offset = 0;
          sample_count = 0;
          sample_index = 0;
          close_count = 0;
        };
        rssi_samples = replicate (bitarray_bytes rssi_sample_count rssi_bits) 0;
      }

  unfoldable pub start_attempt_callback : Client → Client
  start_attempt_callback c =
      let reconnect = flag Flag.reconnect_requested c in
      let c1 = clear_attempt reconnect c in
      if flag Flag.abort_requested c
      then finish_attempt world (record c { closing = Result.fatal })
      else if reconnect
      then begin_connection world c1
      else call Call.start_scan (set_state world BleState.scanning c1)

  unfoldable pub abort_attempt_callback : Client → Client
  abort_attempt_callback c =
      let c1 =
        if not world.stop_requested && flag Flag.close_confirmed c
        then raise Fault.payload c
        else c in
      if not (flag Flag.attempt_running c)
        || is c.state BleState.stopping_scan
        || is c.state BleState.closing
      then c
      else close_attempt world
          (if world.stop_requested
            then Result.fatal
            else if flag Flag.close_confirmed c1
            then Result.retry
            else Result.not_close)
          c1

  -- `power_taken` is that `hci_power_control` reports no error.
  unfoldable pub initialise_client_callback : Client → Client
  initialise_client_callback c =
      let c1 = call Call.start_stack c in
      if world.stop_requested
      then flag_assign Flag.startup_failed true c
      else if not world.power_taken
      then raise Fault.ble_radio
          (flag_assign Flag.startup_failed true (flag_assign Flag.bluetooth_ready false c1))
      else c1

  unfoldable pub run_callback : Callback → Client → Client
  run_callback (Callback.gatt e) c = gatt_handler world e c
  run_callback (Callback.radio e) c = hci_handler e c
  run_callback Callback.start_attempt c = start_attempt_callback c
  run_callback Callback.abort_attempt c = abort_attempt_callback c
  run_callback Callback.initialise_client c = initialise_client_callback c

-- The main loop's side: `payload_client_init` before it queues the initialisation, and the settings.
unfoldable pub payload_client_init : Client → Client
payload_client_init c = flag_assign Flag.startup_failed false (
    flag_assign Flag.bluetooth_ready false
      (flag_assign Flag.reconnect_requested false (flag_assign Flag.close_confirmed false c)))

unfoldable pub set_close_threshold : ℤ → Client → Client
set_close_threshold dbm c =
    if not (flag Flag.attempt_running c) then record c { close_rssi_dbm = dbm } else c

-- `given` is that the callback is not NULL.
unfoldable pub set_close_callback : Bool → Client → Client
set_close_callback given c = record c { has_close_callback = given }

-- `payload_client_data`: no bytes for NULL.
unfoldable pub payload_client_data : Client → Option (ℕ × List ℕ)
payload_client_data c =
    if flag Flag.payload_verified c then some (c.counters.reply_length, c.reply_file) else none
