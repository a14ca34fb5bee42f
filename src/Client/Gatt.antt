-- ===== src/Client/Gatt.antt =====
-- payload_client.c, `query_ok` and `gatt_handler`: what the client does with the events of BTstack's
-- GATT client, which come with the handle of a connection.
use inf2004_aai19_embedded_s.Common.{
  ℕ, Bool, true, false, ◌&&◌, ◌||◌, not, Option, none, some, List, take, ◌==◌, ◌/=◌, if◌then◌else◌,
}
use inf2004_aai19_embedded_s.Wire.{protocol_version, MessageType, code_of}
use inf2004_aai19_embedded_s.Common.{set}
use inf2004_aai19_embedded_s.Client.{
  BleState, is, Flag, Call, Client, World, target_beacon_id, flag, flag_assign, call, set_state,
  transfer_failed,
}
use inf2004_aai19_embedded_s.Client.Transfer.{
  writing_state, write_packet, write_next_robot_chunk, handle_notification,
}

pub data GattEvent : Type 0 where
  notification : ℕ → ℕ → List ℕ → GattEvent
  service_result characteristic_result query_complete : ℕ → ℕ → GattEvent
  other : GattEvent

abbrev pub is_handle : ℕ → Option ℕ → Bool
is_handle h none = false
is_handle h (some k) = h == k

-- How the `switch` of a completed query goes on: the handler returns, or it looks at whether its
-- request was taken.
pub data QueryStep : Type 0 where
  returned : Client → QueryStep
  requested : Bool → Client → QueryStep

module _ (world : World) where
  -- The `switch (current_state())`.
  unfoldable pub query_step : Client → QueryStep
  query_step c =
      if is c.state BleState.discover_service
      then (if not (flag Flag.service_found c)
          then QueryStep.returned (transfer_failed world c)
          else QueryStep.requested world.discover_taken (
              call (Call.discover_characteristics c.connection_handle) (
                set_state world BleState.discover_characteristic
                  (flag_assign Flag.characteristic_found false c))))
      else if is c.state BleState.discover_characteristic
      then (if not (flag Flag.characteristic_found c)
          then QueryStep.returned (transfer_failed world c)
          else QueryStep.requested world.configure_taken (
              call (Call.configure c.connection_handle) (
                set_state world BleState.enable_notifications
                  (flag_assign Flag.listening true (call (Call.listen c.connection_handle) c)))))
      else if is c.state BleState.enable_notifications
      then QueryStep.requested true (
          write_packet world 3 BleState.write_hello (record c {
            tx_packet =
                set (set (set c.tx_packet 0 (code_of MessageType.hello)) 1 protocol_version) 2
                  target_beacon_id;
          }))
      else if is c.state BleState.write_hello
      then QueryStep.requested true (set_state world BleState.wait_hello_ack c)
      else if is c.state BleState.write_file_start
      then QueryStep.requested true (set_state world BleState.wait_file_ready c)
      else if is c.state BleState.write_file_data
      then QueryStep.requested true (write_next_robot_chunk world c)
      else if is c.state BleState.write_file_end
      then QueryStep.requested true (set_state world BleState.wait_file_received c)
      else if is c.state BleState.write_reply_request
      then QueryStep.requested true (set_state world BleState.wait_reply_start c)
      else if is c.state BleState.write_reply_next
      then QueryStep.requested true (set_state world BleState.wait_reply_piece c)
      else if is c.state BleState.write_complete
      then QueryStep.requested true (set_state world BleState.wait_complete_ack c)
      else QueryStep.returned c

  -- A notification that was kept is handled once the write before it is confirmed.
  unfoldable pub deliver_pending : Client → Client
  deliver_pending c =
      let value = take c.counters.pending_length c.pending_notification in
      if c.counters.pending_length /= 0 && not (writing_state c.state)
      then handle_notification world value
          (record c { counters = record c.counters { pending_length = 0 } })
      else c

  unfoldable pub end_query : QueryStep → Client
  end_query (QueryStep.returned c) = c
  end_query (QueryStep.requested taken c) =
      if not taken then transfer_failed world c else deliver_pending c

  unfoldable pub on_gatt_event : GattEvent → Client → Client
  on_gatt_event (GattEvent.notification h v value) c =
      if is_handle h c.connection_handle && v == c.value_handle
      then handle_notification world value c
      else c
  on_gatt_event (GattEvent.service_result h s) c =
      if is c.state BleState.discover_service && is_handle h c.connection_handle
      then flag_assign Flag.service_found true (record c { service = s })
      else c
  on_gatt_event (GattEvent.characteristic_result h v) c =
      if is c.state BleState.discover_characteristic && is_handle h c.connection_handle
      then flag_assign Flag.characteristic_found true (record c { value_handle = v })
      else c
  -- ATT_ERROR_SUCCESS is 0.
  on_gatt_event (GattEvent.query_complete h status) c =
      if not (is_handle h c.connection_handle)
      then c
      else if status /= 0
      then transfer_failed world c
      else end_query (query_step c)
  on_gatt_event GattEvent.other c = c

  unfoldable pub gatt_handler : GattEvent → Client → Client
  gatt_handler e c =
      if flag Flag.abort_requested c || is c.state BleState.closing || is c.state BleState.idle
      then c
      else on_gatt_event e c
