-- ===== src/Beacon/Invariant.antt =====
-- What every handler of beacon_server.c keeps: the buffers' sizes, and each counter within its buffer
-- or its file. `received_file_length` is held by the announced length only; `Oversize` says when
-- that is not enough.
use inf2004_aai19_embedded_s.Common.{
  ◌==◌, ◌&&◌, splice, u8, u16, ℕ, zero, suc, ◌+◌, ◌^◌, ◌≤◌, ◌<◌, ◌≡◌, false, Option, some, List, [],
  ◌∷◌, ◌++◌, length, length-splice, get_or, take, drop, All, arith, ltb, if◌then◌else◌, ◌<<<◌,
}
use inf2004_aai19_embedded_s.Bits.{bit_or-lt}
use inf2004_aai19_embedded_s.Wire.{
  MessageType, message_type, code_of, crc32, write_u32, read_u16, read_u32, max_file_size,
  packet_size,
}
use inf2004_aai19_embedded_s.Wire.Checksum.{IsByte}
use inf2004_aai19_embedded_s.Beacon.{
  Beacon, Status, Effect, Cue, emit, AttHandle, HciEvent, reply_capacity, reply_text, boot,
  queue_notification, send_simple, reset_transfer, send_reply_piece, reply_chunk,
  reply_start_packet, reply_data_packet, reply_end_packet, fail, on_hello, on_file_start,
  on_file_data, on_file_end, on_reply_request, on_complete, on_message, att_write, packet_handler,
}

pub record IsValid (b : Beacon) : Type 0 where
  pub pending_size : length b.pending_notification ≡ packet_size
  pub pending_fits : b.pending_notification_length ≤ packet_size
  pub received_size : length b.received_file ≡ max_file_size
  pub received_announced : b.received_file_length ≤ b.expected_file_length
  pub expected_fits : b.expected_file_length < 2 ^ 16
  pub reply_size : length b.reply_file ≡ reply_capacity
  pub reply_fits : b.reply_length < reply_capacity
  pub offset_in : b.reply_offset ≤ b.reply_length

pub get_or-lt : (xs : List ℕ) (i : ℕ) → All IsByte xs → get_or xs i 0 < 256
get_or-lt [] i h = omega arith
get_or-lt (x ∷ xs) zero h = h.0
get_or-lt (x ∷ xs) (suc i) h = get_or-lt xs i h.1

pub read_u16-lt : (p : List ℕ) (i : ℕ) → All IsByte p → read_u16 p i < 2 ^ 16
unfolding read_u16
read_u16-lt p i h =
    bit_or-lt 16 (get_or p i 0) (get_or p (i + 1) 0 <<< 8) (omega (arith, get_or-lt p i h))
      (omega (arith, get_or-lt p (i + 1) h))

pub queue_notification-IsValid :
    (p : List ℕ) (b : Beacon) → IsValid b → IsValid (queue_notification p b)
unfolding queue_notification
queue_notification-IsValid p b v = ground (
  arith,
  length-splice b.pending_notification 0
      (take (if ltb packet_size (length p) then packet_size else length p) p),
)

pub boot-IsValid : IsValid boot
unfolding boot
boot-IsValid = omega arith

send_reply_piece-IsValid : (b : Beacon) → IsValid b → IsValid (send_reply_piece b)
unfolding send_reply_piece reply_chunk
send_reply_piece-IsValid b v = ground (
  arith,
  queue_notification-IsValid (reply_start_packet b) (record b { reply_sequence = 1 })
      (ground arith),
  queue_notification-IsValid (reply_data_packet b) (record b {
    reply_offset = u16 (b.reply_offset + reply_chunk b);
    reply_sequence = u8 (b.reply_sequence + 1);
  }),
  queue_notification-IsValid (reply_end_packet b) b v,
)

send_simple-IsValid :
    (m : MessageType) (k : ℕ) (b : Beacon) → IsValid b → IsValid (send_simple m k b)
unfolding send_simple
send_simple-IsValid m k b v = queue_notification-IsValid (code_of m ∷ k ∷ []) b v

module _ (id notification : ℕ) where
  fail-IsValid : (code : ℕ) (b : Beacon) → IsValid b → IsValid (fail id notification code b)
  unfolding fail
  fail-IsValid code b v =
      send_simple-IsValid MessageType.error code (record b { status = Status.error }) (ground arith)

  on_hello-IsValid :
      (buffer : List ℕ) (b : Beacon) → IsValid b → IsValid (on_hello id notification buffer b)
  unfolding on_hello reset_transfer
  on_hello-IsValid buffer b v = ground (
    arith,
    fail-IsValid 1 b v,
    send_simple-IsValid MessageType.hello_ack id
        (record (reset_transfer b) { status = Status.handshake }) (ground arith),
  )

  on_file_start-IsValid :
      (buffer : List ℕ) (b : Beacon)
      → All IsByte buffer
      → IsValid b
      → IsValid (on_file_start id notification buffer b)
  unfolding on_file_start
  on_file_start-IsValid buffer b h v = ground (
    arith,
    fail-IsValid 2 b v,
    fail-IsValid 3 announced ok,
    send_simple-IsValid MessageType.file_ready id
        (record announced { status = Status.receiving_file }) (omega (arith, ok.expected_fits)),
  )
    where
      announced : Beacon
      announced = record b {
        expected_file_length = read_u16 buffer 1;
        expected_file_crc = read_u32 buffer 3;
        received_file_length = 0;
        expected_sequence = 0;
      }

      ok : IsValid announced
      ok = let lim : read_u16 buffer 1 < 2 ^ 16 = read_u16-lt buffer 1 h in omega arith

  on_file_data-IsValid :
      (buffer : List ℕ) (b : Beacon) → IsValid b → IsValid (on_file_data id notification buffer b)
  unfolding on_file_data
  on_file_data-IsValid buffer b v = ground (
    arith,
    fail-IsValid 4 b v,
    fail-IsValid 5 b v,
    length-splice b.received_file b.received_file_length (take (get_or buffer 2 0) (drop 3 buffer)),
  )

  on_file_end-IsValid : (b : Beacon) → IsValid b → IsValid (on_file_end id notification b)
  unfolding on_file_end
  on_file_end-IsValid b v =
      let valid =
        b.received_file_length == b.expected_file_length
        && crc32 (take b.received_file_length b.received_file) == b.expected_file_crc in
      let response =
        write_u32 (7 ∷ (if valid then 0 else 1) ∷ 0 ∷ 0 ∷ 0 ∷ 0 ∷ []) 2
          (crc32 (take b.received_file_length b.received_file)) in
      queue_notification-IsValid response
        (record b { status = if valid then Status.file_verified else Status.error }) (omega arith)

  on_reply_request-IsValid : (b : Beacon) → IsValid b → IsValid (on_reply_request id notification b)
  unfolding on_reply_request
  on_reply_request-IsValid b v =
      send_reply_piece-IsValid
        (record b {
          reply_file = splice b.reply_file 0 (reply_text id ++ 0 ∷ []);
          reply_length = length (reply_text id);
          reply_offset = 0;
          reply_sequence = 0;
          status = Status.sending_reply;
        })
        (omega (arith, length-splice b.reply_file 0 (reply_text id ++ 0 ∷ [])))

  on_complete-IsValid : (b : Beacon) → IsValid b → IsValid (on_complete id notification b)
  unfolding on_complete
  on_complete-IsValid b v =
      send_simple-IsValid MessageType.complete_ack id
        (emit (Effect.play Cue.cue_complete false)
          (record b { status = Status.complete; connected_cue_on = false }))
        (omega arith)

  on_message-IsValid :
      (m : Option MessageType) (buffer : List ℕ) (b : Beacon)
      → All IsByte buffer
      → IsValid b
      → IsValid (on_message id notification m buffer b)
  unfolding on_message
  on_message-IsValid (some MessageType.hello) buffer b h v = on_hello-IsValid buffer b v
  on_message-IsValid (some MessageType.file_start) buffer b h v = on_file_start-IsValid buffer b h v
  on_message-IsValid (some MessageType.file_data) buffer b h v = on_file_data-IsValid buffer b v
  on_message-IsValid (some MessageType.file_end) buffer b h v = on_file_end-IsValid b v
  on_message-IsValid (some MessageType.reply_request) buffer b h v = on_reply_request-IsValid b v
  on_message-IsValid (some MessageType.reply_next) buffer b h v = send_reply_piece-IsValid b v
  on_message-IsValid (some MessageType.complete) buffer b h v = on_complete-IsValid b v
  on_message-IsValid _ buffer b h v = fail-IsValid 6 b v

  -- Whatever bytes the robot writes, to whichever handle, the beacon stays well formed.
  pub att_write-IsValid :
      (con : ℕ) (handle : AttHandle) (buffer : List ℕ) (b : Beacon)
      → All IsByte buffer
      → IsValid b
      → IsValid (att_write id notification con handle buffer b)
  unfolding att_write
  att_write-IsValid con AttHandle.client_configuration buffer b h v = omega arith
  att_write-IsValid con AttHandle.other buffer b h v = v
  att_write-IsValid con AttHandle.value [] b h v = v
  att_write-IsValid con AttHandle.value (x ∷ xs) b h v =
      on_message-IsValid (message_type x) (x ∷ xs) b h v

  -- So it does on every event of the controller.
  pub packet_handler-IsValid :
      (e : HciEvent) (b : Beacon) → IsValid b → IsValid (packet_handler id notification e b)
  unfolding packet_handler reset_transfer
  packet_handler-IsValid e b v = ground arith
