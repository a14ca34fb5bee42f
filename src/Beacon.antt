-- ===== src/Beacon.antt =====
-- ble_transfer_powerbank/beacon_server.c: the beacon's side of the file transfer. The static
-- variables are the fields of `Beacon`; a handler returns the new state, with its calls of BTstack
-- and of the buzzer appended, newest first, to `effects`. `none` is HCI_CON_HANDLE_INVALID.
-- `overrun` records that `memcpy` has written past the end of `received_file`.
pub mod Receive
pub mod Verdict
pub mod Invariant
pub mod Oversize
mod Tests
use inf2004_aai19_embedded_s.Common.{
  ℕ, ◌+◌, ◌-◌, ◌%◌, ◌^◌, Bool, true, false, ◌&&◌, ◌||◌, not, Option, none, some, List, [], ◌∷◌,
  ◌++◌, length, get_or, set, take, drop, splice, replicate, u8, u16, ltb, leb, ◌==◌, ◌/=◌,
  if◌then◌else◌,
}
use inf2004_aai19_embedded_s.Wire.{
  protocol_version, max_file_size, packet_size, data_bytes, MessageType, code_of, message_type,
  write_u16, read_u16, write_u32, read_u32, crc32,
}

-- `beacon_status_t`
pub data Status : Type 0 where
  starting advertising connected ready handshake receiving_file file_verified : Status
  sending_reply complete error : Status

pub data Cue : Type 0 where
  cue_alive cue_connected cue_complete : Cue

pub data Effect : Type 0 where
  request_can_send : Option ℕ → Effect
  notify : Option ℕ → List ℕ → Effect
  play : Cue → Bool → Effect
  stop_buzzer : Effect
  advertise : Effect

pub record Beacon : Type 0 where
  pub status : Status
  pub connection_handle : Option ℕ
  pub notifications_enabled : Bool
  pub pending_notification : List ℕ
  pub pending_notification_length : ℕ
  pub received_file : List ℕ
  pub expected_file_length : ℕ
  pub received_file_length : ℕ
  pub expected_file_crc : ℕ
  pub expected_sequence : ℕ
  pub reply_file : List ℕ
  pub reply_length : ℕ
  pub reply_offset : ℕ
  pub reply_sequence : ℕ
  pub connected_cue_on : Bool
  pub overrun : Bool
  pub effects : List Effect

abbrev pub reply_capacity : ℕ
reply_capacity = 64

-- The static variables at power-on.
unfoldable pub boot : Beacon
boot = record {
  status = Status.starting;
  connection_handle = none;
  notifications_enabled = false;
  pending_notification = replicate packet_size 0;
  pending_notification_length = 0;
  received_file = replicate max_file_size 0;
  expected_file_length = 0;
  received_file_length = 0;
  expected_file_crc = 0;
  expected_sequence = 0;
  reply_file = replicate reply_capacity 0;
  reply_length = 0;
  reply_offset = 0;
  reply_sequence = 0;
  connected_cue_on = false;
  overrun = false;
  effects = [];
}

abbrev pub emit : Effect → Beacon → Beacon
emit e b = record b { effects = e ∷ b.effects }

abbrev pub is_none : Option ℕ → Bool
is_none none = true
is_none (some h) = false

-- `queue_notification(data, length)` on the `length` bytes at `data`.
unfoldable pub queue_notification : List ℕ → Beacon → Beacon
queue_notification packet b =
    let n = if ltb packet_size (length packet) then packet_size else length packet in
    if not b.notifications_enabled || is_none b.connection_handle
    then b
    else emit (Effect.request_can_send b.connection_handle) (record b {
      pending_notification = splice b.pending_notification 0 (take n packet);
      pending_notification_length = n;
    })

unfoldable pub send_simple : MessageType → ℕ → Beacon → Beacon
send_simple type value b = queue_notification (code_of type ∷ value ∷ []) b

unfoldable pub reset_transfer : Beacon → Beacon
reset_transfer b = record b {
  expected_file_length = 0;
  received_file_length = 0;
  expected_file_crc = 0;
  expected_sequence = 0;
  reply_offset = 0;
  reply_sequence = 0;
}

-- The three packets of `send_reply_piece`, each the bytes that it queues.
unfoldable pub reply_start_packet : Beacon → List ℕ
reply_start_packet b =
    let p = set (replicate packet_size 0) 0 (code_of MessageType.reply_start) in
    take 7 (write_u32 (write_u16 p 1 b.reply_length) 3 (crc32 (take b.reply_length b.reply_file)))

unfoldable pub reply_chunk : Beacon → ℕ
reply_chunk b =
    let remaining = b.reply_length - b.reply_offset in
    if ltb data_bytes remaining then data_bytes else u8 remaining

unfoldable pub reply_data_packet : Beacon → List ℕ
reply_data_packet b =
    let chunk = reply_chunk b in
    let p0 = set (replicate packet_size 0) 0 (code_of MessageType.reply_data) in
    let p1 = set p0 1 (u8 (b.reply_sequence + 255)) in
    let p2 = set p1 2 chunk in
    take (3 + chunk) (splice p2 3 (take chunk (drop b.reply_offset b.reply_file)))

unfoldable pub reply_end_packet : Beacon → List ℕ
reply_end_packet b =
    let p = set (replicate packet_size 0) 0 (code_of MessageType.reply_end) in
    take 5 (write_u32 p 1 (crc32 (take b.reply_length b.reply_file)))

unfoldable pub send_reply_piece : Beacon → Beacon
send_reply_piece b =
    if b.reply_offset == 0 && b.reply_sequence == 0
    then queue_notification (reply_start_packet b) (record b { reply_sequence = 1 })
    else if ltb b.reply_offset b.reply_length
    then queue_notification (reply_data_packet b) (record b {
      reply_offset = u16 (b.reply_offset + reply_chunk b);
      reply_sequence = u8 (b.reply_sequence + 1);
    })
    else queue_notification (reply_end_packet b) b

-- "Reply file from beacon AP%d" printed for a one-digit number.
abbrev pub reply_text : ℕ → List ℕ
reply_text id =
    0x52
    ∷ 0x65
    ∷ 0x70
    ∷ 0x6C
    ∷ 0x79
    ∷ 0x20
    ∷ 0x66
    ∷ 0x69
    ∷ 0x6C
    ∷ 0x65
    ∷ 0x20
    ∷ 0x66
    ∷ 0x72
    ∷ 0x6F
    ∷ 0x6D
    ∷ 0x20
    ∷ 0x62
    ∷ 0x65
    ∷ 0x61
    ∷ 0x63
    ∷ 0x6F
    ∷ 0x6E
    ∷ 0x20
    ∷ 0x41
    ∷ 0x50
    ∷ (0x30 + id)
    ∷ []

-- The characteristic's two handles in the generated profile, and any other.
pub data AttHandle : Type 0 where
  client_configuration value other : AttHandle

-- The controller's events that `packet_handler` acts on.
pub data HciEvent : Type 0 where
  state_working : HciEvent
  connection_complete : ℕ → HciEvent
  disconnection_complete can_send_now ignored : HciEvent

-- A call that BTstack makes.
pub data Event : Type 0 where
  write : ℕ → AttHandle → List ℕ → Event
  hci : HciEvent → Event

-- `id` is BEACON_ID, which a build sets to 1, 2 or 3; `notification` is BTstack's
-- GATT_CLIENT_CHARACTERISTICS_CONFIGURATION_NOTIFICATION.
module _ (id notification : ℕ) where
  unfoldable pub fail : ℕ → Beacon → Beacon
  fail code b = send_simple MessageType.error code (record b { status = Status.error })

  unfoldable pub on_hello : List ℕ → Beacon → Beacon
  on_hello buffer b =
      if ltb (length buffer) 3 || get_or buffer 1 0 /= protocol_version || get_or buffer 2 0 /= id
      then fail 1 b
      else send_simple MessageType.hello_ack id
          (record (reset_transfer b) { status = Status.handshake })

  unfoldable pub on_file_start : List ℕ → Beacon → Beacon
  on_file_start buffer b =
      let b' = record b {
        expected_file_length = read_u16 buffer 1;
        expected_file_crc = read_u32 buffer 3;
        received_file_length = 0;
        expected_sequence = 0;
      } in
      if ltb (length buffer) 7
      then fail 2 b
      else if ltb max_file_size b'.expected_file_length
      then fail 3 b'
      else send_simple MessageType.file_ready id (record b' { status = Status.receiving_file })

  unfoldable pub on_file_data : List ℕ → Beacon → Beacon
  on_file_data buffer b =
      let chunk = get_or buffer 2 0 in
      if ltb (length buffer) 3
      then fail 4 b
      else if get_or buffer 1 0 /= b.expected_sequence
          || ltb data_bytes chunk
          || length buffer /= u16 (3 + chunk)
          || ltb b.expected_file_length (b.received_file_length + chunk)
      then fail 5 b
      else record b {
        received_file = splice b.received_file b.received_file_length (take chunk (drop 3 buffer));
        overrun = b.overrun || ltb max_file_size (b.received_file_length + chunk);
        received_file_length = u16 (b.received_file_length + chunk);
        expected_sequence = u8 (b.expected_sequence + 1);
      }

  unfoldable pub on_file_end : Beacon → Beacon
  on_file_end b =
      let actual = crc32 (take b.received_file_length b.received_file) in
      let valid =
        b.received_file_length == b.expected_file_length && actual == b.expected_file_crc in
      let response =
        write_u32
          (code_of MessageType.file_received ∷ (if valid then 0 else 1) ∷ 0 ∷ 0 ∷ 0 ∷ 0 ∷ []) 2
          actual in
      queue_notification response
        (record b { status = if valid then Status.file_verified else Status.error })

  unfoldable pub on_reply_request : Beacon → Beacon
  on_reply_request b = send_reply_piece (record b {
    reply_file = splice b.reply_file 0 (reply_text id ++ 0 ∷ []);
    reply_length = length (reply_text id);
    reply_offset = 0;
    reply_sequence = 0;
    status = Status.sending_reply;
  })

  unfoldable pub on_complete : Beacon → Beacon
  on_complete b = send_simple MessageType.complete_ack id (
      emit (Effect.play Cue.cue_complete false)
        (record b { status = Status.complete; connected_cue_on = false }))

  -- The `switch (buffer[0])`.
  unfoldable pub on_message : Option MessageType → List ℕ → Beacon → Beacon
  on_message (some MessageType.hello) buffer b = on_hello buffer b
  on_message (some MessageType.file_start) buffer b = on_file_start buffer b
  on_message (some MessageType.file_data) buffer b = on_file_data buffer b
  on_message (some MessageType.file_end) buffer b = on_file_end b
  on_message (some MessageType.reply_request) buffer b = on_reply_request b
  on_message (some MessageType.reply_next) buffer b = send_reply_piece b
  on_message (some MessageType.complete) buffer b = on_complete b
  on_message _ buffer b = fail 6 b

  unfoldable pub att_write : ℕ → AttHandle → List ℕ → Beacon → Beacon
  att_write con AttHandle.client_configuration buffer b =
      let enabled = leb 2 (length buffer) && read_u16 buffer 0 == notification in
      record b {
        notifications_enabled = enabled;
        connection_handle = some con;
        status = if enabled then Status.ready else Status.connected;
      }
  att_write con AttHandle.other buffer b = b
  att_write con AttHandle.value [] b = b
  att_write con AttHandle.value (x ∷ xs) b = on_message (message_type x) (x ∷ xs) b

  unfoldable pub packet_handler : HciEvent → Beacon → Beacon
  packet_handler HciEvent.state_working b =
      emit (Effect.play Cue.cue_alive false)
        (emit Effect.advertise (record b { status = Status.advertising }))
  packet_handler (HciEvent.connection_complete h) b =
      emit (Effect.play Cue.cue_connected true) (record b {
        connection_handle = some h;
        status = Status.connected;
        connected_cue_on = true;
      })
  packet_handler HciEvent.disconnection_complete b =
      let b' = record (reset_transfer b) {
        connection_handle = none;
        notifications_enabled = false;
        pending_notification_length = 0;
        status = Status.advertising;
      } in
      if b'.connected_cue_on
      then emit Effect.stop_buzzer (record b' { connected_cue_on = false })
      else b'
  packet_handler HciEvent.can_send_now b =
      if b.pending_notification_length /= 0
      then record (emit
          (Effect.notify b.connection_handle
            (take b.pending_notification_length b.pending_notification))
          b) { pending_notification_length = 0 }
      else b
  packet_handler HciEvent.ignored b = b

  unfoldable pub handle : Event → Beacon → Beacon
  handle (Event.write con h buffer) b = att_write con h buffer b
  handle (Event.hci e) b = packet_handler e b

  unfoldable pub run : List Event → Beacon → Beacon
  run [] b = b
  run (e ∷ es) b = run es (handle e b)

  -- The writes to the value handle, in order.
  unfoldable pub writes : ℕ → List (List ℕ) → Beacon → Beacon
  writes con [] b = b
  writes con (p ∷ ps) b = writes con ps (att_write con AttHandle.value p b)
