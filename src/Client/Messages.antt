-- ===== src/Client/Messages.antt =====
-- The client's handlers of notifications and of GATT events keep what `IsSound` says.
use inf2004_aai19_embedded_s.Common.{
  ℕ, ◌+◌, ◌^◌, ◌%◌, ◌≤◌, ◌<◌, ◌≡◌, ◌⊎◌, inr, true, false, not, ◌||◌, Option, none, some, List,
  length, get_or, set, take, drop, splice, u8, length-splice, ◌==◌, ◌/=◌, ltb, arith,
}
use inf2004_aai19_embedded_s.Wire.{
  MessageType, message_type, code_of, packet_size, max_file_size, data_bytes, crc32, read_u16,
  read_u32, write_u16, write_u32,
}
use inf2004_aai19_embedded_s.Faults.{Fault, fault_clear}
use inf2004_aai19_embedded_s.Client.{
  BleState, state_code, is, Result, Flag, Client, World, robot_file, flag_assign,
}
use inf2004_aai19_embedded_s.Client.Transfer.{
  writing_state, write_simple, robot_chunk, write_next_robot_chunk, names_beacon, on_hello_ack,
  on_file_ready, on_file_received, on_reply_start, on_reply_data, on_reply_end, on_complete_ack,
  on_message, keep_notification, handle_notification,
}
use inf2004_aai19_embedded_s.Client.Sound.{
  IsBounded, is_verified, HasChecked, IsSound, IsSound-if, close_attempt-IsSound,
  transfer_failed-IsSound, write_packet-IsSound,
}

module _ (world : World) where
  write_simple-IsSound :
      (type : MessageType) (s : BleState) (c : Client)
      → IsBounded c
      → is_verified c ≡ false
      → (state_code s < 17) ⊎ (1 ≤ c.counters.reply_length)
      → (state_code s < 19) ⊎ (20 < state_code s) ⊎ HasChecked c
      → IsSound (write_simple world type s c)
  unfolding write_simple
  write_simple-IsSound type s c b v a h =
      write_packet-IsSound world 1 s (record c { tx_packet = set c.tx_packet 0 (code_of type) })
        (ground arith) v a h

  pub write_next_robot_chunk-IsSound :
      (c : Client) → IsBounded c → is_verified c ≡ false → IsSound (write_next_robot_chunk world c)
  unfolding write_next_robot_chunk robot_chunk
  write_next_robot_chunk-IsSound c b v =
      IsSound-if (c.counters.robot_offset == length robot_file)
        (λ e.
          write_simple-IsSound MessageType.file_end BleState.write_file_end c b v (omega arith)
            (omega arith))
        (λ e.
          write_packet-IsSound world (3 + robot_chunk world c) BleState.write_file_data
            (record c {
              tx_packet =
                  splice
                    (set
                      (set (set c.tx_packet 0 (code_of MessageType.file_data)) 1 c.robot_sequence) 2
                      (robot_chunk world c))
                    3 (take (robot_chunk world c) (drop c.counters.robot_offset robot_file));
              robot_sequence = u8 (c.robot_sequence + 1);
              counters = record c.counters {
                robot_offset = (c.counters.robot_offset + robot_chunk world c) % 2 ^ 9;
              };
            })
            (ground arith) v (omega arith) (omega arith))

  -- In a state of a transfer nothing is verified yet.
  unverified :
      (s : BleState) (c : Client)
      → IsSound c
      → is c.state s ≡ true
      → (1 < state_code s) × (state_code s < 22)
      → is_verified c ≡ false
  unverified s c b e h = ground (arith)

  on_hello_ack-IsSound :
      (value : List ℕ) (c : Client) → IsSound c → IsSound (on_hello_ack world value c)
  unfolding on_hello_ack
  on_hello_ack-IsSound value c s =
      IsSound-if (not (is c.state BleState.wait_hello_ack)) (λ e. s)
        (λ e.
          IsSound-if (not (names_beacon value)) (λ f. transfer_failed-IsSound world c s.bounded)
            (λ f.
              let v : is_verified c ≡ false =
                unverified BleState.wait_hello_ack c s (ground arith) (omega arith) in
              write_packet-IsSound world 7 BleState.write_file_start
                (record c {
                  counters = record c.counters { robot_offset = 0 };
                  robot_sequence = 0;
                  robot_crc = crc32 robot_file;
                  tx_packet =
                      write_u32
                        (write_u16 (set c.tx_packet 0 (code_of MessageType.file_start)) 1
                          (length robot_file))
                        3 (crc32 robot_file);
                })
                (ground arith) v (omega arith) (omega arith)))

  on_file_ready-IsSound :
      (value : List ℕ) (c : Client) → IsSound c → IsSound (on_file_ready world value c)
  unfolding on_file_ready
  on_file_ready-IsSound value c s =
      IsSound-if (not (is c.state BleState.wait_file_ready)) (λ e. s)
        (λ e.
          IsSound-if (not (names_beacon value)) (λ f. transfer_failed-IsSound world c s.bounded)
            (λ f.
              write_next_robot_chunk-IsSound c s.bounded
                (unverified BleState.wait_file_ready c s (ground arith) (omega arith))))

  on_file_received-IsSound :
      (value : List ℕ) (c : Client) → IsSound c → IsSound (on_file_received world value c)
  unfolding on_file_received
  on_file_received-IsSound value c s =
      IsSound-if (not (is c.state BleState.wait_file_received)) (λ e. s)
        (λ e.
          IsSound-if (length value /= 6 || get_or value 1 0 /= 0 || read_u32 value 2 /= c.robot_crc)
            (λ f. transfer_failed-IsSound world c s.bounded)
            (λ f.
              write_simple-IsSound MessageType.reply_request BleState.write_reply_request c
                s.bounded (unverified BleState.wait_file_received c s (ground arith) (omega arith))
                (omega arith) (omega arith)))

  on_reply_start-IsSound :
      (value : List ℕ) (c : Client) → IsSound c → IsSound (on_reply_start world value c)
  unfolding on_reply_start
  on_reply_start-IsSound value c s =
      IsSound-if (not (is c.state BleState.wait_reply_start)) (λ e. s)
        (λ e.
          IsSound-if (length value /= 7) (λ f. transfer_failed-IsSound world c s.bounded)
            (λ f.
              IsSound-if (read_u16 value 1 == 0 || ltb max_file_size (read_u16 value 1))
                (λ g. transfer_failed-IsSound world c s.bounded)
                (λ g.
                  write_simple-IsSound MessageType.reply_next BleState.write_reply_next
                    (record c {
                      counters = record c.counters {
                        reply_length = read_u16 value 1 % 2 ^ 9;
                        reply_offset = 0;
                      };
                      reply_crc = read_u32 value 3;
                      reply_sequence = 0;
                    })
                    (ground arith)
                    (unverified BleState.wait_reply_start c s (ground arith) (omega arith))
                    (ground arith) (omega arith))))

  on_reply_data-IsSound :
      (value : List ℕ) (c : Client) → IsSound c → IsSound (on_reply_data world value c)
  unfolding on_reply_data
  on_reply_data-IsSound value c s =
      let chunk = get_or value 2 0 in
      let b = s.bounded in
      IsSound-if (not (is c.state BleState.wait_reply_piece)) (λ e. s)
        (λ e.
          IsSound-if (ltb (length value) 3) (λ f. transfer_failed-IsSound world c b)
            (λ f.
              IsSound-if
                (get_or value 1 0 /= c.reply_sequence
                  || chunk == 0
                  || ltb data_bytes chunk
                  || length value /= 3 + chunk
                  || ltb c.counters.reply_length (c.counters.reply_offset + chunk))
                (λ g. transfer_failed-IsSound world c b)
                (λ g.
                  write_simple-IsSound MessageType.reply_next BleState.write_reply_next
                    (record c {
                      reply_file =
                          splice c.reply_file c.counters.reply_offset (take chunk (drop 3 value));
                      counters = record c.counters {
                        reply_offset = (c.counters.reply_offset + chunk) % 2 ^ 9;
                      };
                      reply_sequence = u8 (c.reply_sequence + 1);
                    })
                    (ground (
                      arith,
                      length-splice c.reply_file c.counters.reply_offset
                          (take chunk (drop 3 value)),
                    ))
                    (unverified BleState.wait_reply_piece c s (ground arith) (omega arith))
                    (ground arith) (omega arith))))

  on_reply_end-IsSound :
      (value : List ℕ) (c : Client) → IsSound c → IsSound (on_reply_end world value c)
  unfolding on_reply_end
  on_reply_end-IsSound value c s =
      IsSound-if (not (is c.state BleState.wait_reply_piece)) (λ e. s)
        (λ e.
          IsSound-if
            (length value /= 5
              || c.counters.reply_offset /= c.counters.reply_length
              || crc32 (take c.counters.reply_length c.reply_file) /= c.reply_crc
              || read_u32 value 1 /= c.reply_crc)
            (λ f. transfer_failed-IsSound world c s.bounded)
            (λ f.
              write_simple-IsSound MessageType.complete BleState.write_complete c s.bounded
                (unverified BleState.wait_reply_piece c s (ground arith) (omega arith))
                (ground arith) (ground arith)))

  on_complete_ack-IsSound :
      (value : List ℕ) (c : Client) → IsSound c → IsSound (on_complete_ack world value c)
  unfolding on_complete_ack
  on_complete_ack-IsSound value c s =
      IsSound-if (not (is c.state BleState.wait_complete_ack)) (λ e. s)
        (λ e.
          IsSound-if (not (names_beacon value)) (λ f. transfer_failed-IsSound world c s.bounded)
            (λ f.
              let a : 1 ≤ c.counters.reply_length = ground arith in
              let h : HasChecked c = ground arith in
              close_attempt-IsSound world Result.complete
                (record (flag_assign Flag.payload_verified true c) {
                  faults = fault_clear Fault.payload c.faults;
                })
                (ground arith) (ground arith) (inr a) (inr h)))

  on_message-IsSound :
      (m : Option MessageType) (value : List ℕ) (c : Client)
      → IsSound c
      → IsSound (on_message world m value c)
  unfolding on_message
  on_message-IsSound none value c s = s
  on_message-IsSound (some MessageType.hello) value c s = s
  on_message-IsSound (some MessageType.hello_ack) value c s = on_hello_ack-IsSound value c s
  on_message-IsSound (some MessageType.file_start) value c s = s
  on_message-IsSound (some MessageType.file_ready) value c s = on_file_ready-IsSound value c s
  on_message-IsSound (some MessageType.file_data) value c s = s
  on_message-IsSound (some MessageType.file_end) value c s = s
  on_message-IsSound (some MessageType.file_received) value c s = on_file_received-IsSound value c s
  on_message-IsSound (some MessageType.reply_request) value c s = s
  on_message-IsSound (some MessageType.reply_start) value c s = on_reply_start-IsSound value c s
  on_message-IsSound (some MessageType.reply_next) value c s = s
  on_message-IsSound (some MessageType.reply_data) value c s = on_reply_data-IsSound value c s
  on_message-IsSound (some MessageType.reply_end) value c s = on_reply_end-IsSound value c s
  on_message-IsSound (some MessageType.complete) value c s = s
  on_message-IsSound (some MessageType.complete_ack) value c s = on_complete_ack-IsSound value c s
  on_message-IsSound (some MessageType.error) value c s = s

  keep_notification-IsSound :
      (value : List ℕ) (c : Client) → IsSound c → IsSound (keep_notification world value c)
  unfolding keep_notification
  keep_notification-IsSound value c s =
      IsSound-if (ltb packet_size (length value) || c.counters.pending_length /= 0)
        (λ e. transfer_failed-IsSound world c s.bounded)
        (λ e. ground (arith, length-splice c.pending_notification 0 value))

  pub handle_notification-IsSound :
      (value : List ℕ) (c : Client) → IsSound c → IsSound (handle_notification world value c)
  unfolding handle_notification
  handle_notification-IsSound value c s =
      IsSound-if (length value == 0 || is c.state BleState.closing || is c.state BleState.idle)
        (λ e. s)
        (λ e.
          IsSound-if (get_or value 0 0 == code_of MessageType.error)
            (λ f. transfer_failed-IsSound world c s.bounded)
            (λ f.
              IsSound-if (writing_state c.state) (λ g. keep_notification-IsSound value c s)
                (λ g. on_message-IsSound (message_type (get_or value 0 0)) value c s)))
