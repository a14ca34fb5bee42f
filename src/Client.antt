-- ===== src/Client.antt =====
-- getting_there/payload_client.c, the robot's side of the file transfer: its types, its state, and
-- the operations that end an attempt. The static variables are the fields of `Client`, the packed
-- status word being taken apart (StatusWord puts it together again). `none` is
-- HCI_CON_HANDLE_INVALID. Calls of BTstack are appended to `calls`, newest first.
pub mod StatusWord
pub mod Transfer
pub mod Gatt
pub mod Proximity
pub mod Radio
pub mod Sound
pub mod Messages
pub mod Attempt
pub mod Median
pub mod Outcomes
pub mod Deadline
mod Tests
pub mod Callbacks
pub mod Events
pub mod Reach
use inf2004_aai19_embedded_s.Common.{
  ℕ, ◌+◌, ◌^◌, ◌%◌, Bool, true, false, ◌&&◌, ◌||◌, not, Option, none, some, List, [], ◌∷◌, length,
  replicate, take, set, ◌==◌, if◌then◌else◌,
}
use inf2004_aai19_embedded_s.Common.Int.{ℤ, negsuc}
use inf2004_aai19_embedded_s.Wire.{packet_size, max_file_size}
use inf2004_aai19_embedded_s.PackedBits.{bitarray_bytes, rssi_bits}
use inf2004_aai19_embedded_s.Faults.{Fault, fault_raise}

-- `ble_state_t`
pub data BleState : Type 0 where
  idle starting scanning stopping_for_connect connecting discover_service : BleState
  discover_characteristic enable_notifications write_hello wait_hello_ack : BleState
  write_file_start wait_file_ready write_file_data write_file_end wait_file_received : BleState
  write_reply_request wait_reply_start write_reply_next wait_reply_piece write_complete : BleState
  wait_complete_ack stopping_scan closing : BleState

abbrev pub state_code : BleState → ℕ
state_code BleState.idle = 0
state_code BleState.starting = 1
state_code BleState.scanning = 2
state_code BleState.stopping_for_connect = 3
state_code BleState.connecting = 4
state_code BleState.discover_service = 5
state_code BleState.discover_characteristic = 6
state_code BleState.enable_notifications = 7
state_code BleState.write_hello = 8
state_code BleState.wait_hello_ack = 9
state_code BleState.write_file_start = 10
state_code BleState.wait_file_ready = 11
state_code BleState.write_file_data = 12
state_code BleState.write_file_end = 13
state_code BleState.wait_file_received = 14
state_code BleState.write_reply_request = 15
state_code BleState.wait_reply_start = 16
state_code BleState.write_reply_next = 17
state_code BleState.wait_reply_piece = 18
state_code BleState.write_complete = 19
state_code BleState.wait_complete_ack = 20
state_code BleState.stopping_scan = 21
state_code BleState.closing = 22

-- C's `==` on states.
abbrev pub is : BleState → BleState → Bool
is s t = state_code s == state_code t

-- `payload_result_t`
pub data Result : Type 0 where
  not_close retry complete fatal : Result

abbrev pub result_code : Result → ℕ
result_code Result.not_close = 0
result_code Result.retry = 1
result_code Result.complete = 2
result_code Result.fatal = 3

-- The flags of the status word, `F_...` in the source.
pub data Flag : Type 0 where
  bluetooth_ready attempt_running abort_requested close_confirmed scan_confirmed : Flag
  payload_verified listening service_found characteristic_found startup_failed : Flag
  reconnect_requested : Flag

pub record Flags : Type 0 where
  pub bluetooth_ready : Bool
  pub attempt_running : Bool
  pub abort_requested : Bool
  pub close_confirmed : Bool
  pub scan_confirmed : Bool
  pub payload_verified : Bool
  pub listening : Bool
  pub service_found : Bool
  pub characteristic_found : Bool
  pub startup_failed : Bool
  pub reconnect_requested : Bool

-- The bit-fields; an assignment keeps the low bits of a value, which is written out.
pub record Counters : Type 0 where
  pub sample_count : ℕ
  pub sample_index : ℕ
  pub close_count : ℕ
  pub pending_length : ℕ
  pub robot_offset : ℕ
  pub reply_offset : ℕ
  pub reply_length : ℕ

pub data Call : Type 0 where
  stop_listening stop_scan connect_cancel start_scan start_stack close_callback motion_stop : Call
  connect : List ℕ → ℕ → Call
  disconnect : Option ℕ → Call
  write_value : Option ℕ → ℕ → List ℕ → Call
  discover_services discover_characteristics listen configure : Option ℕ → Call

pub record Client : Type 0 where
  pub state : BleState
  pub result : Result
  pub closing : Result
  pub flags : Flags
  pub counters : Counters
  pub phase_started_ms : ℕ
  pub close_rssi_dbm : ℤ
  pub has_close_callback : Bool
  pub beacon_address : List ℕ
  pub beacon_address_type : ℕ
  pub connection_handle : Option ℕ
  pub service : ℕ
  pub value_handle : ℕ
  pub rssi_samples : List ℕ
  pub tx_packet : List ℕ
  pub robot_sequence : ℕ
  pub robot_crc : ℕ
  pub reply_file : List ℕ
  pub reply_sequence : ℕ
  pub reply_crc : ℕ
  pub pending_notification : List ℕ
  pub faults : ℕ
  pub calls : List Call

-- What the world answers while one callback runs: the clock, the stop button's latch, and whether
-- BTstack takes each request. A callback makes at most one request of a kind that can fail.
pub record World : Type 0 where
  pub now_ms : ℕ
  pub stop_requested : Bool
  pub connect_taken : Bool
  pub disconnect_taken : Bool
  pub write_taken : Bool
  pub discover_taken : Bool
  pub configure_taken : Bool
  pub power_taken : Bool

abbrev pub robot_file : List ℕ
robot_file =
    0x52 ∷ 0x6F ∷ 0x62 ∷ 0x6F ∷ 0x74 ∷ 0x20 ∷ 0x74 ∷ 0x65 ∷ 0x73 ∷ 0x74 ∷ 0x20 ∷ 0x66 ∷ 0x69 ∷ 0x6C
    ∷ 0x65 ∷ 0x20 ∷ 0x64 ∷ 0x65 ∷ 0x6C ∷ 0x69 ∷ 0x76 ∷ 0x65 ∷ 0x72 ∷ 0x65 ∷ 0x64 ∷ 0x20 ∷ 0x74
    ∷ 0x6F ∷ 0x20 ∷ 0x62 ∷ 0x65 ∷ 0x61 ∷ 0x63 ∷ 0x6F ∷ 0x6E ∷ 0x20 ∷ 0x41 ∷ 0x50 ∷ 0x31 ∷ []

abbrev pub target_beacon_id : ℕ
target_beacon_id = 1

abbrev pub rssi_sample_count : ℕ
rssi_sample_count = 12

abbrev pub required_close_averages : ℕ
required_close_averages = 3

abbrev pub no_flags : Flags
no_flags = record {
  bluetooth_ready = false;
  attempt_running = false;
  abort_requested = false;
  close_confirmed = false;
  scan_confirmed = false;
  payload_verified = false;
  listening = false;
  service_found = false;
  characteristic_found = false;
  startup_failed = false;
  reconnect_requested = false;
}

abbrev pub no_counters : Counters
no_counters = record {
  sample_count = 0;
  sample_index = 0;
  close_count = 0;
  pending_length = 0;
  robot_offset = 0;
  reply_offset = 0;
  reply_length = 0;
}

-- The static variables at power-on.
unfoldable pub power_on : Client
power_on = record {
  state = BleState.idle;
  result = Result.not_close;
  closing = Result.not_close;
  flags = no_flags;
  counters = no_counters;
  phase_started_ms = 0;
  close_rssi_dbm = negsuc 57;
  has_close_callback = false;
  beacon_address = replicate 6 0;
  beacon_address_type = 0;
  connection_handle = none;
  service = 0;
  value_handle = 0;
  rssi_samples = replicate (bitarray_bytes rssi_sample_count rssi_bits) 0;
  tx_packet = replicate packet_size 0;
  robot_sequence = 0;
  robot_crc = 0;
  reply_file = replicate max_file_size 0;
  reply_sequence = 0;
  reply_crc = 0;
  pending_notification = replicate packet_size 0;
  faults = 0;
  calls = [];
}

abbrev pub flag : Flag → Client → Bool
flag Flag.bluetooth_ready c = c.flags.bluetooth_ready
flag Flag.attempt_running c = c.flags.attempt_running
flag Flag.abort_requested c = c.flags.abort_requested
flag Flag.close_confirmed c = c.flags.close_confirmed
flag Flag.scan_confirmed c = c.flags.scan_confirmed
flag Flag.payload_verified c = c.flags.payload_verified
flag Flag.listening c = c.flags.listening
flag Flag.service_found c = c.flags.service_found
flag Flag.characteristic_found c = c.flags.characteristic_found
flag Flag.startup_failed c = c.flags.startup_failed
flag Flag.reconnect_requested c = c.flags.reconnect_requested

abbrev pub set_flag : Flag → Bool → Flags → Flags
set_flag Flag.bluetooth_ready v f = record f { bluetooth_ready = v }
set_flag Flag.attempt_running v f = record f { attempt_running = v }
set_flag Flag.abort_requested v f = record f { abort_requested = v }
set_flag Flag.close_confirmed v f = record f { close_confirmed = v }
set_flag Flag.scan_confirmed v f = record f { scan_confirmed = v }
set_flag Flag.payload_verified v f = record f { payload_verified = v }
set_flag Flag.listening v f = record f { listening = v }
set_flag Flag.service_found v f = record f { service_found = v }
set_flag Flag.characteristic_found v f = record f { characteristic_found = v }
set_flag Flag.startup_failed v f = record f { startup_failed = v }
set_flag Flag.reconnect_requested v f = record f { reconnect_requested = v }

abbrev pub flag_assign : Flag → Bool → Client → Client
flag_assign f v c = record c { flags = set_flag f v c.flags }

abbrev pub call : Call → Client → Client
call x c = record c { calls = x ∷ c.calls }

abbrev pub raise : Fault → Client → Client
raise f c = record c { faults = fault_raise f c.faults }

abbrev pub is_none : Option ℕ → Bool
is_none none = true
is_none (some h) = false

module _ (world : World) where
  unfoldable pub set_state : BleState → Client → Client
  set_state s c = record c { phase_started_ms = world.now_ms; state = s }

  unfoldable pub finish_attempt : Client → Client
  finish_attempt c =
      let c1 =
        if flag Flag.listening c
        then flag_assign Flag.listening false (call Call.stop_listening c)
        else c in
      let c2 = set_state BleState.idle (record c1 { connection_handle = none }) in
      flag_assign Flag.attempt_running false (record c2 { result = c2.closing })

  -- The two ends of `close_attempt` while a scan is on, by whether the scan is being stopped already.
  unfoldable pub close_scan : Bool → Client → Client
  close_scan already_stopping c =
      let c1 = set_state BleState.stopping_scan c in
      let c2 = if not already_stopping then call Call.stop_scan c1 else c1 in
      if not (flag Flag.scan_confirmed c2)
      then finish_attempt (record c2 { closing = Result.fatal })
      else c2

  unfoldable pub close_connection : Client → Client
  close_connection c =
      let c1 = call (Call.disconnect c.connection_handle) (set_state BleState.closing c) in
      if not world.disconnect_taken then record c1 { closing = Result.fatal } else c1

  unfoldable pub close_attempt : Result → Client → Client
  close_attempt r c =
      let c1 = record c { closing = r; counters = record c.counters { pending_length = 0 } } in
      if is c1.state BleState.scanning || is c1.state BleState.stopping_for_connect
      then close_scan (is c1.state BleState.stopping_for_connect) c1
      else if not (is_none c1.connection_handle)
      then close_connection c1
      else if is c1.state BleState.connecting
      then call Call.connect_cancel (set_state BleState.closing c1)
      else finish_attempt c1

  unfoldable pub transfer_failed : Client → Client
  transfer_failed c =
      let c1 = flag_assign Flag.payload_verified false (raise Fault.payload c) in
      close_attempt (if flag Flag.close_confirmed c1 then Result.retry else Result.not_close) c1

  unfoldable pub begin_connection : Client → Client
  begin_connection c =
      let c1 =
        call (Call.connect c.beacon_address c.beacon_address_type)
          (set_state BleState.connecting c) in
      if not world.connect_taken then transfer_failed (set_state BleState.idle c1) else c1
