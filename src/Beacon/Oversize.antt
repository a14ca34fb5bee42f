-- ===== src/Beacon/Oversize.antt =====
-- `received_file` has 256 bytes, and `on_file_start` stores an announced length before it refuses
-- it: while no longer file is announced no write passes the end of the buffer, and a robot that goes
-- on after the refusal of a longer one makes the beacon write past it.
use inf2004_aai19_embedded_s.Common.{
  ℕ, ◌^◌, ◌≤◌, ◌<◌, ◌≡◌, refl, ap, sym, inl, true, false, Option, some, List, [], ◌∷◌, length,
  get_or, All, arith,
}
use inf2004_aai19_embedded_s.Wire.{MessageType, message_type, read_u16, max_file_size}
use inf2004_aai19_embedded_s.Beacon.{
  Beacon, Status, AttHandle, Event, HciEvent, boot, handle, run, writes, packet_handler,
  queue_notification, send_simple, reset_transfer, send_reply_piece, fail, on_hello, on_file_start,
  on_file_data, on_file_end, on_reply_request, on_complete, on_message, att_write,
}
use inf2004_aai19_embedded_s.Beacon.Receive.{
  concat, IsChunk, data_packets, att_write-Started, overrun-writes,
}

-- The announced file fits the buffer, and nothing has been written past its end.
pub record IsSafe (b : Beacon) : Type 0 where
  pub announced : b.expected_file_length ≤ max_file_size
  pub inside : b.overrun ≡ false

queue_keeps :
    (p : List ℕ) (b : Beacon)
    → ((queue_notification p b).expected_file_length ≡ b.expected_file_length)
      × ((queue_notification p b).received_file_length ≡ b.received_file_length)
      × ((queue_notification p b).expected_sequence ≡ b.expected_sequence)
      × ((queue_notification p b).overrun ≡ b.overrun)
unfolding queue_notification
queue_keeps p b = ground arith

reply_keeps :
    (b : Beacon)
    → ((send_reply_piece b).expected_file_length ≡ b.expected_file_length)
      × ((send_reply_piece b).overrun ≡ b.overrun)
unfolding send_reply_piece queue_notification
reply_keeps b = ground arith

-- A write announces a file that fits, or is no announcement.
abbrev pub Fits : List ℕ → Type 0
Fits buffer =
    message_type (get_or buffer 0 0) ≡ some MessageType.file_start
    → read_u16 buffer 1 ≤ max_file_size

abbrev pub FitsEvent : Event → Type 0
FitsEvent (Event.write con AttHandle.value buffer) = Fits buffer
FitsEvent _ = Unit

module _ (id notification : ℕ) where
  fail_keeps :
      (code : ℕ) (b : Beacon)
      → ((fail id notification code b).expected_file_length ≡ b.expected_file_length)
        × ((fail id notification code b).overrun ≡ b.overrun)
  unfolding fail send_simple queue_notification
  fail_keeps code b = ground arith

  on_file_data-IsSafe :
      (buffer : List ℕ) (b : Beacon) → IsSafe b → IsSafe (on_file_data id notification buffer b)
  unfolding on_file_data
  on_file_data-IsSafe buffer b s = ground (arith, fail_keeps 4 b, fail_keeps 5 b)

  on_hello-IsSafe :
      (buffer : List ℕ) (b : Beacon) → IsSafe b → IsSafe (on_hello id notification buffer b)
  unfolding on_hello reset_transfer send_simple queue_notification
  on_hello-IsSafe buffer b s = ground (arith, fail_keeps 1 b)

  on_file_start-IsSafe :
      (buffer : List ℕ) (b : Beacon)
      → read_u16 buffer 1 ≤ max_file_size
      → IsSafe b
      → IsSafe (on_file_start id notification buffer b)
  unfolding on_file_start send_simple queue_notification
  on_file_start-IsSafe buffer b h s = ground (arith, fail_keeps 2 b)

  on_file_end-IsSafe : (b : Beacon) → IsSafe b → IsSafe (on_file_end id notification b)
  unfolding on_file_end queue_notification
  on_file_end-IsSafe b s = ground arith

  on_reply_request-IsSafe : (b : Beacon) → IsSafe b → IsSafe (on_reply_request id notification b)
  unfolding on_reply_request send_reply_piece queue_notification
  on_reply_request-IsSafe b s = ground arith

  on_complete-IsSafe : (b : Beacon) → IsSafe b → IsSafe (on_complete id notification b)
  unfolding on_complete send_simple queue_notification
  on_complete-IsSafe b s = ground arith

  on_message-IsSafe :
      (m : Option MessageType) (buffer : List ℕ) (b : Beacon)
      → (m ≡ some MessageType.file_start → read_u16 buffer 1 ≤ max_file_size)
      → IsSafe b
      → IsSafe (on_message id notification m buffer b)
  unfolding on_message
  on_message-IsSafe (some MessageType.file_data) buffer b h s = on_file_data-IsSafe buffer b s
  on_message-IsSafe (some MessageType.hello) buffer b h s = on_hello-IsSafe buffer b s
  on_message-IsSafe (some MessageType.file_start) buffer b h s =
      on_file_start-IsSafe buffer b (h refl) s
  on_message-IsSafe (some MessageType.file_end) buffer b h s = on_file_end-IsSafe b s
  on_message-IsSafe (some MessageType.reply_request) buffer b h s = on_reply_request-IsSafe b s
  on_message-IsSafe (some MessageType.reply_next) buffer b h s = ground (arith, reply_keeps b)
  on_message-IsSafe (some MessageType.complete) buffer b h s = on_complete-IsSafe b s
  on_message-IsSafe _ buffer b h s = ground (arith, fail_keeps 6 b)

  att_write-IsSafe :
      (con : ℕ) (handle : AttHandle) (buffer : List ℕ) (b : Beacon)
      → FitsEvent (Event.write con handle buffer)
      → IsSafe b
      → IsSafe (att_write id notification con handle buffer b)
  unfolding att_write
  att_write-IsSafe con AttHandle.client_configuration buffer b h s = ground arith
  att_write-IsSafe con AttHandle.other buffer b h s = s
  att_write-IsSafe con AttHandle.value [] b h s = s
  att_write-IsSafe con AttHandle.value (x ∷ xs) b h s =
      on_message-IsSafe (message_type x) (x ∷ xs) b h s

  packet_handler-IsSafe :
      (e : HciEvent) (b : Beacon) → IsSafe b → IsSafe (packet_handler id notification e b)
  unfolding packet_handler reset_transfer
  packet_handler-IsSafe e b s = ground arith

  run-IsSafe :
      (es : List Event) (b : Beacon)
      → All FitsEvent es
      → IsSafe b
      → IsSafe (run id notification es b)
  unfolding run handle
  run-IsSafe [] b h s = s
  run-IsSafe (Event.write con a buffer ∷ es) b h s =
      run-IsSafe es (att_write id notification con a buffer b) h.1
        (att_write-IsSafe con a buffer b h.0 s)
  run-IsSafe (Event.hci e ∷ es) b h s =
      run-IsSafe es (packet_handler id notification e b) h.1 (packet_handler-IsSafe e b s)

  -- From power-on, over every sequence of writes and controller events in which no announcement is
  -- longer than 256 bytes, nothing is written past the end of `received_file`.
  pub run_inside :
      (es : List Event) → All FitsEvent es → (run id notification es boot).overrun ≡ false
  unfolding boot
  run_inside es h = (run-IsSafe es boot h (ground arith)).inside

  refused :
      (con : ℕ) (rest : List ℕ) (b : Beacon)
      → 6 ≤ length rest
      → max_file_size < read_u16 (0x03 ∷ rest) 1
      → (att_write id notification con AttHandle.value (0x03 ∷ rest) b).status ≡ Status.error
  unfolding att_write on_message message_type on_file_start fail send_simple queue_notification
  refused con rest b long over = ground arith

  overrun-from :
      (con : ℕ) (cs : List (List ℕ)) (b : Beacon) (n : ℕ)
      → b.received_file_length ≡ 0
      → b.expected_file_length ≡ n
      → b.expected_sequence ≡ 0
      → max_file_size < length (concat cs)
      → length (concat cs) ≤ n
      → n < 2 ^ 16
      → All IsChunk cs
      → (writes id notification con (data_packets 0 cs) b).overrun ≡ true
  overrun-from con cs b n z e q over within short chunks =
      rw (ap (λ k. data_packets k cs) (sym q)) (
        overrun-writes id notification con cs b chunks (omega arith) (omega arith) (omega arith)
          (inl (omega arith)))

  -- After the announcement of a longer file, which is answered by an error, the chunks of that file are accepted
  -- all the same: once they make up more than 256 bytes they have been written past the buffer.
  pub oversize_overruns :
      (con : ℕ) (rest : List ℕ) (cs : List (List ℕ)) (b : Beacon)
      → 6 ≤ length rest
      → max_file_size < length (concat cs)
      → length (concat cs) ≤ read_u16 (0x03 ∷ rest) 1
      → read_u16 (0x03 ∷ rest) 1 < 2 ^ 16
      → All IsChunk cs
      → ((att_write id notification con AttHandle.value (0x03 ∷ rest) b).status ≡ Status.error)
        × ((writes id notification con ((0x03 ∷ rest) ∷ data_packets 0 cs) b).overrun ≡ true)
  unfolding writes
  oversize_overruns con rest cs b long over within short chunks = (
    refused con rest b long (omega arith),
    overrun-from con cs (att_write id notification con AttHandle.value (0x03 ∷ rest) b)
        (read_u16 (0x03 ∷ rest) 1) (att_write-Started id notification con rest b long).count
        (att_write-Started id notification con rest b long).announced
        (att_write-Started id notification con rest b long).sequence over within short chunks,
  )
