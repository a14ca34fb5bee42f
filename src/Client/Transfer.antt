-- ===== src/Client/Transfer.antt =====
-- payload_client.c from `writing_state` to `handle_notification`: the client's side of the file
-- transfer. One function for each case of the `switch` on a notification's first byte.
use inf2004_aai19_embedded_s.Common.{
  ℕ, ◌+◌, ◌-◌, ◌^◌, ◌%◌, Bool, true, ◌&&◌, ◌||◌, not, Option, some, List, length, get_or, set, take,
  drop, splice, u8, u16, ltb, ◌==◌, ◌/=◌, if◌then◌else◌,
}
use inf2004_aai19_embedded_s.Wire.{
  packet_size, max_file_size, data_bytes, MessageType, code_of, message_type, write_u16, read_u16,
  write_u32, read_u32, crc32,
}
use inf2004_aai19_embedded_s.Faults.{Fault, fault_clear}
use inf2004_aai19_embedded_s.Client.{
  BleState, is, Result, Flag, Call, Client, World, robot_file, target_beacon_id, flag_assign, call,
  set_state, close_attempt, transfer_failed,
}

unfoldable pub writing_state : BleState → Bool
writing_state s =
    is s BleState.write_hello
    || is s BleState.write_file_start
    || is s BleState.write_file_data
    || is s BleState.write_file_end
    || is s BleState.write_reply_request
    || is s BleState.write_reply_next
    || is s BleState.write_complete

-- The test of the three answers that carry the beacon's number and nothing else.
abbrev pub names_beacon : List ℕ → Bool
names_beacon value = length value == 2 && get_or value 1 0 == target_beacon_id

module _ (world : World) where
  unfoldable pub write_packet : ℕ → BleState → Client → Client
  write_packet n s c =
      let c1 =
        call (Call.write_value c.connection_handle c.value_handle (take n c.tx_packet))
          (set_state world s c) in
      if not world.write_taken then transfer_failed world c1 else c1

  unfoldable pub write_simple : MessageType → BleState → Client → Client
  write_simple type s c =
      write_packet 1 s (record c { tx_packet = set c.tx_packet 0 (code_of type) })

  -- The length of the next piece of the robot's file.
  unfoldable pub robot_chunk : Client → ℕ
  robot_chunk c =
      let remaining = u16 (length robot_file + 2 ^ 16 - c.counters.robot_offset) in
      if ltb data_bytes remaining then data_bytes else u8 remaining

  unfoldable pub write_next_robot_chunk : Client → Client
  write_next_robot_chunk c =
      let chunk = robot_chunk c in
      let p =
        set (set (set c.tx_packet 0 (code_of MessageType.file_data)) 1 c.robot_sequence) 2 chunk in
      if c.counters.robot_offset == length robot_file
      then write_simple MessageType.file_end BleState.write_file_end c
      else write_packet (3 + chunk) BleState.write_file_data (record c {
        tx_packet = splice p 3 (take chunk (drop c.counters.robot_offset robot_file));
        robot_sequence = u8 (c.robot_sequence + 1);
        counters = record c.counters { robot_offset = (c.counters.robot_offset + chunk) % 2 ^ 9 };
      })

  unfoldable pub on_hello_ack : List ℕ → Client → Client
  on_hello_ack value c =
      let crc = crc32 robot_file in
      let p = set c.tx_packet 0 (code_of MessageType.file_start) in
      if not (is c.state BleState.wait_hello_ack)
      then c
      else if not (names_beacon value)
      then transfer_failed world c
      else write_packet 7 BleState.write_file_start (record c {
        counters = record c.counters { robot_offset = 0 };
        robot_sequence = 0;
        robot_crc = crc;
        tx_packet = write_u32 (write_u16 p 1 (length robot_file)) 3 crc;
      })

  unfoldable pub on_file_ready : List ℕ → Client → Client
  on_file_ready value c =
      if not (is c.state BleState.wait_file_ready)
      then c
      else if not (names_beacon value)
      then transfer_failed world c
      else write_next_robot_chunk c

  unfoldable pub on_file_received : List ℕ → Client → Client
  on_file_received value c =
      if not (is c.state BleState.wait_file_received)
      then c
      else if length value /= 6 || get_or value 1 0 /= 0 || read_u32 value 2 /= c.robot_crc
      then transfer_failed world c
      else write_simple MessageType.reply_request BleState.write_reply_request c

  unfoldable pub on_reply_start : List ℕ → Client → Client
  on_reply_start value c =
      let announced = read_u16 value 1 in
      if not (is c.state BleState.wait_reply_start)
      then c
      else if length value /= 7
      then transfer_failed world c
      else if announced == 0 || ltb max_file_size announced
      then transfer_failed world c
      else write_simple MessageType.reply_next BleState.write_reply_next (record c {
        counters = record c.counters { reply_length = announced % 2 ^ 9; reply_offset = 0 };
        reply_crc = read_u32 value 3;
        reply_sequence = 0;
      })

  unfoldable pub on_reply_data : List ℕ → Client → Client
  on_reply_data value c =
      let chunk = get_or value 2 0 in
      if not (is c.state BleState.wait_reply_piece)
      then c
      else if ltb (length value) 3
      then transfer_failed world c
      else if get_or value 1 0 /= c.reply_sequence
          || chunk == 0
          || ltb data_bytes chunk
          || length value /= 3 + chunk
          || ltb c.counters.reply_length (c.counters.reply_offset + chunk)
      then transfer_failed world c
      else write_simple MessageType.reply_next BleState.write_reply_next (record c {
        reply_file = splice c.reply_file c.counters.reply_offset (take chunk (drop 3 value));
        counters = record c.counters { reply_offset = (c.counters.reply_offset + chunk) % 2 ^ 9 };
        reply_sequence = u8 (c.reply_sequence + 1);
      })

  unfoldable pub on_reply_end : List ℕ → Client → Client
  on_reply_end value c =
      if not (is c.state BleState.wait_reply_piece)
      then c
      else if length value /= 5
          || c.counters.reply_offset /= c.counters.reply_length
          || crc32 (take c.counters.reply_length c.reply_file) /= c.reply_crc
          || read_u32 value 1 /= c.reply_crc
      then transfer_failed world c
      else write_simple MessageType.complete BleState.write_complete c

  unfoldable pub on_complete_ack : List ℕ → Client → Client
  on_complete_ack value c =
      if not (is c.state BleState.wait_complete_ack)
      then c
      else if not (names_beacon value)
      then transfer_failed world c
      else close_attempt world Result.complete (record (flag_assign Flag.payload_verified true c) {
        faults = fault_clear Fault.payload c.faults;
      })

  -- The `switch (value[0])`.
  unfoldable pub on_message : Option MessageType → List ℕ → Client → Client
  on_message (some MessageType.hello_ack) value c = on_hello_ack value c
  on_message (some MessageType.file_ready) value c = on_file_ready value c
  on_message (some MessageType.file_received) value c = on_file_received value c
  on_message (some MessageType.reply_start) value c = on_reply_start value c
  on_message (some MessageType.reply_data) value c = on_reply_data value c
  on_message (some MessageType.reply_end) value c = on_reply_end value c
  on_message (some MessageType.complete_ack) value c = on_complete_ack value c
  on_message _ value c = c

  -- A notification that overtakes the confirmation of the write before it is kept for later.
  unfoldable pub keep_notification : List ℕ → Client → Client
  keep_notification value c =
      if ltb packet_size (length value) || c.counters.pending_length /= 0
      then transfer_failed world c
      else record c {
        pending_notification = splice c.pending_notification 0 value;
        counters = record c.counters { pending_length = length value % 2 ^ 5 };
      }

  -- `handle_notification(value, length)` on the `length` bytes at `value`.
  unfoldable pub handle_notification : List ℕ → Client → Client
  handle_notification value c =
      if length value == 0 || is c.state BleState.closing || is c.state BleState.idle
      then c
      else if get_or value 0 0 == code_of MessageType.error
      then transfer_failed world c
      else if writing_state c.state
      then keep_notification value c
      else on_message (message_type (get_or value 0 0)) value c
