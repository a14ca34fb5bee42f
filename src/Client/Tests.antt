-- ===== src/Client/Tests.antt =====
-- A session of the client, from power-on to a verified reply, and the theorems at its states.
use inf2004_aai19_embedded_s.Common.{
  ◌⊎◌, ◌<◌, false, ℕ, ◌≡◌, ◌≤◌, refl, true, false, none, some, List, [], ◌∷◌, ◌++◌, take, length,
  replicate, bit_and, ◌/=◌, arith, ◌>>>◌, u8,
}
use inf2004_aai19_embedded_s.Wire.{crc32, max_file_size}
use inf2004_aai19_embedded_s.PackedBits.{packed_get, packed_put, packed_set_bits, packed_clear_bits}
use inf2004_aai19_embedded_s.Faults.{Fault, fault_test}
use inf2004_aai19_embedded_s.Client.{
  BleState, state_code, Result, result_code, Flag, Call, Client, World, flag, flag_assign,
  robot_file,
}
use inf2004_aai19_embedded_s.Client.StatusWord.{status_word, flag_mask, packed_fields, packed_flags}
use inf2004_aai19_embedded_s.Client.Gatt.{GattEvent}
use inf2004_aai19_embedded_s.Client.Proximity.{Advertisement}
use inf2004_aai19_embedded_s.Client.Radio.{RadioEvent, Callback, abort_attempt_callback}
use inf2004_aai19_embedded_s.Client.Outcomes.{EndsWith, stale_result, failed_transfer}
use inf2004_aai19_embedded_s.Client.Reach.{Step, Reach, client_of, verified_reply}
use inf2004_aai19_embedded_s.Client.{
  power_on, set_state, finish_attempt, close_scan, close_connection, close_attempt, transfer_failed,
  begin_connection,
}
use inf2004_aai19_embedded_s.Client.Transfer.{
  writing_state, write_packet, write_simple, robot_chunk, write_next_robot_chunk, on_hello_ack,
  on_file_ready, on_file_received, on_reply_start, on_reply_data, on_reply_end, on_complete_ack,
  on_message, keep_notification, handle_notification,
}
use inf2004_aai19_embedded_s.Client.Gatt.{
  query_step, deliver_pending, end_query, on_gatt_event, gatt_handler,
}
use inf2004_aai19_embedded_s.Client.Proximity.{
  int8, quotient, readings, shift_down, sort_rounds, sum_from, trimmed_mean, filtered_rssi,
  target_field, target_advertisement, add_sample, count_average, confirm_close,
  advertisement_received,
}
use inf2004_aai19_embedded_s.Client.Radio.{
  connection_complete, scan_command_complete, disconnected, hci_handler, clear_attempt,
  start_attempt_callback, run_callback, payload_client_data,
}
use inf2004_aai19_embedded_s.Client.Median.{count_from, close_needs_four}
use inf2004_aai19_embedded_s.Client.Attempt.{
  Attempt, Readings, begin_attempt, Turn, cleanup_timeout_ms, elapsed, prepare_attempt, refused,
  round,
}
use inf2004_aai19_embedded_s.Wire.{
  crc_loop, crc_byte, crc_rounds, crc_bit, read_u16, read_u32, write_u16, write_u32, message_type,
}
use inf2004_aai19_embedded_s.PackedBits.{
  bitarray_get, bitarray_put, get_bits, put_bits, put_bit, rssi_encode, rssi_decode,
}
use inf2004_aai19_embedded_s.Faults.{fault_raise, fault_clear}
use inf2004_aai19_embedded_s.Common.Int.{negsuc, ◌+ℤ◌, ◌-ℤ◌}

abbrev calm : World
calm = record {
  now_ms = 5;
  stop_requested = false;
  connect_taken = true;
  disconnect_taken = true;
  write_taken = true;
  discover_taken = true;
  configure_taken = true;
  power_taken = true;
}

abbrev near : Advertisement
near = record {
  fields = record { data_type = 0x16; bytes = 0x20 ∷ 0xFF ∷ 1 ∷ 1 ∷ [] } ∷ [];
  rssi = 206;
  address = 1 ∷ 2 ∷ 3 ∷ 4 ∷ 5 ∷ 6 ∷ [];
  address_type = 0;
}

abbrev done : Callback
done = Callback.gatt (GattEvent.query_complete 64 0)

abbrev note : List ℕ → Callback
note value = Callback.gatt (GattEvent.notification 64 9 value)

-- The four bytes of a number, the lowest first.
abbrev four : ℕ → List ℕ
four n = u8 n ∷ u8 (n >>> 8) ∷ u8 (n >>> 16) ∷ u8 (n >>> 24) ∷ []

abbrev approach : List Callback
approach =
    Callback.start_attempt
    ∷ Callback.radio (RadioEvent.scan_command true)
    ∷ (replicate 14 (Callback.radio (RadioEvent.advertising_report near))
        ++ Callback.radio (RadioEvent.scan_command true)
          ∷ Callback.radio (RadioEvent.connection true 64)
          ∷ Callback.gatt (GattEvent.service_result 64 3)
          ∷ done
          ∷ Callback.gatt (GattEvent.characteristic_result 64 9)
          ∷ done
          ∷ [])

abbrev transfer : List Callback
transfer =
    done
    ∷ done
    ∷ note (2 ∷ 1 ∷ [])
    ∷ done
    ∷ note (4 ∷ 1 ∷ [])
    ∷ done
    ∷ done
    ∷ done
    ∷ done
    ∷ note (7 ∷ 0 ∷ four (crc32 robot_file))
    ∷ done
    ∷ note (9 ∷ 1 ∷ 0 ∷ four (crc32 (0x41 ∷ [])))
    ∷ done
    ∷ note (0x0B ∷ 0 ∷ 1 ∷ 0x41 ∷ [])
    ∷ done
    ∷ note (0x0C ∷ four (crc32 (0x41 ∷ [])))
    ∷ done
    ∷ note (0x0E ∷ 1 ∷ [])
    ∷ []

abbrev run_all : List Callback → Client → Client
run_all [] c = c
run_all (k ∷ ks) c = run_all ks (run_callback 0x16 calm k c)

run_all-Reach : (ks : List Callback) (c : Client) → Reach 0x16 c → Reach 0x16 (run_all ks c)
run_all-Reach [] c r = r
run_all-Reach (k ∷ ks) c r =
    run_all-Reach ks (run_callback 0x16 calm k c) (Reach.more r (Step.callback calm k c))

abbrev started : Client
started = client_of (
    begin_attempt calm false 0
      (run_callback 0x16 calm (Callback.radio (RadioEvent.stack_state true)) power_on))

started-Reach : Reach 0x16 started
started-Reach =
    Reach.more
      (Reach.more Reach.from_power_on
        (Step.callback calm (Callback.radio (RadioEvent.stack_state true)) power_on))
      (Step.attempt calm false 0
        (run_callback 0x16 calm (Callback.radio (RadioEvent.stack_state true)) power_on))

abbrev finished : Client
finished = run_all (approach ++ transfer) started

-- The session ends with a verified reply of one byte.
verified_reply_example :
    (1 ≤ 1)
    × (1 ≤ max_file_size)
    × (1 ≤ length finished.reply_file)
    × (crc32 (take 1 finished.reply_file) ≡ finished.reply_crc)
unfolding power_on set_state finish_attempt close_scan close_connection close_attempt
    transfer_failed begin_connection writing_state write_packet write_simple robot_chunk
    write_next_robot_chunk on_hello_ack on_file_ready on_file_received on_reply_start on_reply_data
    on_reply_end on_complete_ack on_message keep_notification handle_notification query_step
    deliver_pending end_query on_gatt_event gatt_handler int8 quotient readings shift_down
    sort_rounds sum_from trimmed_mean filtered_rssi target_field target_advertisement add_sample
    count_average confirm_close advertisement_received connection_complete scan_command_complete
    disconnected hci_handler clear_attempt start_attempt_callback run_callback payload_client_data
    refused prepare_attempt begin_attempt bitarray_get bitarray_put get_bits put_bits put_bit
    rssi_encode rssi_decode crc32 crc_loop crc_byte crc_rounds crc_bit read_u16 read_u32 write_u16
    write_u32 message_type fault_raise fault_clear ◌+ℤ◌ ◌-ℤ◌
verified_reply_example =
    verified_reply 0x16 finished 1 finished.reply_file
      (run_all-Reach (approach ++ transfer) started started-Reach) refl

packed_fields_example :
    (packed_get (status_word finished) 0 5 ≡ state_code finished.state)
    × (packed_get (status_word finished) 5 2 ≡ result_code finished.result)
    × (packed_get (status_word finished) 7 2 ≡ result_code finished.closing)
    × (packed_put (status_word finished) 0 5 0
        ≡ status_word (record finished { state = BleState.idle }))
    × (packed_put (status_word finished) 5 2 2
        ≡ status_word (record finished { result = Result.complete }))
    × (packed_put (status_word finished) 7 2 2
        ≡ status_word (record finished { closing = Result.complete }))
packed_fields_example = packed_fields finished BleState.idle Result.complete

packed_flags_example :
    ((bit_and (status_word finished) (flag_mask Flag.payload_verified) /= 0)
      ≡ flag Flag.payload_verified finished)
    × (packed_set_bits (status_word finished) (flag_mask Flag.payload_verified)
        ≡ status_word (flag_assign Flag.payload_verified true finished))
    × (packed_clear_bits (status_word finished) (flag_mask Flag.payload_verified)
        ≡ status_word (flag_assign Flag.payload_verified false finished))
packed_flags_example = packed_flags Flag.payload_verified finished

-- A first attempt whose abort is requested while it connects, the beacon being close.
abbrev overtaken : Client
overtaken = record power_on {
  state = BleState.connecting;
  flags = record power_on.flags {
    attempt_running = true;
    abort_requested = true;
    close_confirmed = true;
  };
}

stale_result_example :
    let c1 = connection_complete 0x16 calm true 64 overtaken in
    let c2 = abort_attempt_callback 0x16 calm c1 in
    let c3 = disconnected 0x16 calm 64 c2 in
    (c3.result ≡ Result.not_close)
    × (state_code c3.state ≡ 0)
    × (flag Flag.attempt_running c3 ≡ false)
unfolding power_on
stale_result_example = stale_result 0x16 calm calm calm 64 overtaken refl refl

abbrev transferring : Client
transferring = record power_on {
  state = BleState.wait_reply_piece;
  connection_handle = some 64;
  flags = record power_on.flags { attempt_running = true; close_confirmed = true };
}

-- A first attempt whose scan finds nothing: the loop's first rounds, the second of them after the
-- scan's limit, and the attempt after them.
abbrev powered : Client
powered = run_callback 0x16 calm (Callback.radio (RadioEvent.stack_state true)) power_on

abbrev readings_at : ℕ → Readings
readings_at now = record {
  phase_now = now;
  attempt_now = now;
  abort_now = now;
  cleanup_now = now;
  stop_requested = false;
}

abbrev first_turn : Turn
first_turn = record { callbacks = (calm, Callback.start_attempt) ∷ []; readings = readings_at 100 }

abbrev later_turns : List Turn
later_turns =
    record { callbacks = []; readings = readings_at 5200 }
    ∷ record { callbacks = []; readings = readings_at 7000 }
    ∷ []

abbrev waiting : Attempt
waiting = record {
  client =
      flag_assign Flag.abort_requested true (run_callback 0x16 calm Callback.start_attempt started);
  start = 0;
  abort_started = 5200;
  close_announced = false;
  aborting = true;
}

failed_transfer_example :
    let c1 = transfer_failed calm transferring in
    let c2 = disconnected 0x16 calm 64 c1 in
    (c1.calls ≡ Call.disconnect (some 64) ∷ [])
    × (flag Flag.payload_verified c2 ≡ false)
    × (fault_test Fault.payload c2.faults ≡ true)
    × (c2.connection_handle ≡ none)
    × EndsWith Result.retry (round (readings_at 900) (record waiting { client = c2 }))
    × ((elapsed 900 calm.now_ms < cleanup_timeout_ms)
        ⊎ EndsWith Result.fatal (round (readings_at 900) (record waiting { client = c1 })))
unfolding power_on
failed_transfer_example =
    failed_transfer 0x16 calm calm transferring 64 (readings_at 900) waiting (omega arith) refl refl

close_needs_four_example : 4 ≤ count_from (negsuc 57) (readings 12 0 finished.rssi_samples)
unfolding power_on set_state finish_attempt close_scan close_connection close_attempt
    transfer_failed begin_connection writing_state write_packet write_simple robot_chunk
    write_next_robot_chunk on_hello_ack on_file_ready on_file_received on_reply_start on_reply_data
    on_reply_end on_complete_ack on_message keep_notification handle_notification query_step
    deliver_pending end_query on_gatt_event gatt_handler int8 quotient readings shift_down
    sort_rounds sum_from trimmed_mean filtered_rssi target_field target_advertisement add_sample
    count_average confirm_close advertisement_received connection_complete scan_command_complete
    disconnected hci_handler clear_attempt start_attempt_callback run_callback payload_client_data
    refused prepare_attempt begin_attempt bitarray_get bitarray_put get_bits put_bits put_bit
    rssi_encode rssi_decode crc32 crc_loop crc_byte crc_rounds crc_bit read_u16 read_u32 write_u16
    write_u32 message_type fault_raise fault_clear ◌+ℤ◌ ◌-ℤ◌
close_needs_four_example = close_needs_four finished.rssi_samples (negsuc 57) (omega arith)
