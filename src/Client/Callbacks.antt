-- ===== src/Client/Callbacks.antt =====
-- Every callback of the client keeps what `IsSound` says.
use inf2004_aai19_embedded_s.Common.{
  ◌<◌, ◌≡◌, refl, ◌⊎◌, Bool, true, false, not, ◌&&◌, ◌||◌, set, take, if◌then◌else◌, ◌==◌, ◌/=◌,
  arith,
}
use inf2004_aai19_embedded_s.Wire.{MessageType, code_of, protocol_version}
use inf2004_aai19_embedded_s.Client.{
  BleState, state_code, is, Flag, Call, Client, World, target_beacon_id, flag, flag_assign, call,
  set_state,
}
use inf2004_aai19_embedded_s.Client.Transfer.{writing_state}
use inf2004_aai19_embedded_s.Client.Gatt.{
  GattEvent, QueryStep, is_handle, query_step, deliver_pending, end_query, on_gatt_event,
  gatt_handler,
}
use inf2004_aai19_embedded_s.Client.Sound.{
  IsSound, IsSound-if, transfer_failed-IsSound, write_packet-IsSound,
}
use inf2004_aai19_embedded_s.Client.Messages.{
  handle_notification-IsSound, write_next_robot_chunk-IsSound,
}

data HasSound : QueryStep → Type 0 where
  returned : {c : Client} → IsSound c → HasSound (QueryStep.returned c)
  requested : {taken : Bool} {c : Client} → IsSound c → HasSound (QueryStep.requested taken c)

HasSound-if :
    (b : Bool) {x y : QueryStep}
    → (b ≡ true → HasSound x)
    → (b ≡ false → HasSound y)
    → HasSound (if b then x else y)
HasSound-if true hx hy = hx refl
HasSound-if false hx hy = hy refl

module _ (world : World) where
  -- A plain change of state in the middle of a transfer.
  enter-IsSound :
      (s t : BleState) (c : Client)
      → IsSound c
      → is c.state s ≡ true
      → (1 < state_code s) × (state_code s < state_code t) × (state_code t < 21)
      → (state_code t < 17) ⊎ ((16 < state_code s) × (state_code t < 19)) ⊎ (18 < state_code s)
      → IsSound (set_state world t c)
  unfolding set_state
  enter-IsSound s t c h e r k = ground arith

  found-IsSound :
      (c : Client)
      → IsSound c
      → is c.state BleState.discover_service ≡ true
      → IsSound (
          call (Call.discover_characteristics c.connection_handle) (
            set_state world BleState.discover_characteristic
              (flag_assign Flag.characteristic_found false c)))
  unfolding set_state
  found-IsSound c s e = ground arith

  listening-IsSound :
      (c : Client)
      → IsSound c
      → is c.state BleState.discover_characteristic ≡ true
      → IsSound (
          call (Call.configure c.connection_handle) (
            set_state world BleState.enable_notifications
              (flag_assign Flag.listening true (call (Call.listen c.connection_handle) c))))
  unfolding set_state
  listening-IsSound c s e = ground arith

  query_step-IsSound : (c : Client) → IsSound c → HasSound (query_step world c)
  unfolding query_step
  query_step-IsSound c s =
      HasSound-if (is c.state BleState.discover_service)
        (λ e.
          HasSound-if (not (flag Flag.service_found c))
            (λ f. HasSound.returned (transfer_failed-IsSound world c s.bounded))
            (λ f. HasSound.requested (found-IsSound c s e)))
        (λ e0.
          HasSound-if (is c.state BleState.discover_characteristic)
            (λ e.
              HasSound-if (not (flag Flag.characteristic_found c))
                (λ f. HasSound.returned (transfer_failed-IsSound world c s.bounded))
                (λ f. HasSound.requested (listening-IsSound c s e)))
            (λ e1.
              HasSound-if (is c.state BleState.enable_notifications)
                (λ e. HasSound.requested (
                  write_packet-IsSound world 3 BleState.write_hello
                    (record c {
                      tx_packet =
                          set
                            (set (set c.tx_packet 0 (code_of MessageType.hello)) 1 protocol_version)
                            2 target_beacon_id;
                    })
                    (ground arith) (ground arith) (omega arith) (omega arith)))
                (λ e2.
                  HasSound-if (is c.state BleState.write_hello)
                    (λ e. HasSound.requested (
                      enter-IsSound BleState.write_hello BleState.wait_hello_ack c s e (omega arith)
                        (omega arith)))
                    (λ e3.
                      HasSound-if (is c.state BleState.write_file_start)
                        (λ e. HasSound.requested (
                          enter-IsSound BleState.write_file_start BleState.wait_file_ready c s e
                            (omega arith) (omega arith)))
                        (λ e4.
                          HasSound-if (is c.state BleState.write_file_data)
                            (λ e.
                              HasSound.requested
                                (write_next_robot_chunk-IsSound world c s.bounded (ground arith)))
                            (λ e5.
                              HasSound-if (is c.state BleState.write_file_end)
                                (λ e. HasSound.requested (
                                  enter-IsSound BleState.write_file_end BleState.wait_file_received
                                    c s e (omega arith) (omega arith)))
                                (λ e6.
                                  HasSound-if (is c.state BleState.write_reply_request)
                                    (λ e. HasSound.requested (
                                      enter-IsSound BleState.write_reply_request
                                        BleState.wait_reply_start c s e (omega arith)
                                        (omega arith)))
                                    (λ e7.
                                      HasSound-if (is c.state BleState.write_reply_next)
                                        (λ e. HasSound.requested (
                                          enter-IsSound BleState.write_reply_next
                                            BleState.wait_reply_piece c s e (omega arith)
                                            (omega arith)))
                                        (λ e8.
                                          HasSound-if (is c.state BleState.write_complete)
                                            (λ e. HasSound.requested (
                                              enter-IsSound BleState.write_complete
                                                BleState.wait_complete_ack c s e (omega arith)
                                                (omega arith)))
                                            (λ e9. HasSound.returned s))))))))))

  deliver_pending-IsSound : (c : Client) → IsSound c → IsSound (deliver_pending world c)
  unfolding deliver_pending
  deliver_pending-IsSound c s =
      IsSound-if (c.counters.pending_length /= 0 && not (writing_state c.state))
        (λ e.
          handle_notification-IsSound world (take c.counters.pending_length c.pending_notification)
            (record c { counters = record c.counters { pending_length = 0 } }) (ground arith))
        (λ e. s)

  end_query-IsSound : {q : QueryStep} → HasSound q → IsSound (end_query world q)
  unfolding end_query
  end_query-IsSound (HasSound.returned s) = s
  end_query-IsSound (HasSound.requested {taken = taken} {c = c} s) =
      IsSound-if (not taken) (λ e. transfer_failed-IsSound world c s.bounded)
        (λ e. deliver_pending-IsSound c s)

  on_gatt_event-IsSound :
      (e : GattEvent) (c : Client) → IsSound c → IsSound (on_gatt_event world e c)
  unfolding on_gatt_event
  on_gatt_event-IsSound (GattEvent.notification h v value) c s =
      IsSound-if (is_handle h c.connection_handle && v == c.value_handle)
        (λ e. handle_notification-IsSound world value c s) (λ e. s)
  on_gatt_event-IsSound (GattEvent.service_result h x) c s =
      IsSound-if (is c.state BleState.discover_service && is_handle h c.connection_handle)
        (λ e. ground arith) (λ e. s)
  on_gatt_event-IsSound (GattEvent.characteristic_result h x) c s =
      IsSound-if (is c.state BleState.discover_characteristic && is_handle h c.connection_handle)
        (λ e. ground arith) (λ e. s)
  on_gatt_event-IsSound (GattEvent.query_complete h status) c s =
      IsSound-if (not (is_handle h c.connection_handle)) (λ e. s)
        (λ e.
          IsSound-if (status /= 0) (λ f. transfer_failed-IsSound world c s.bounded)
            (λ f. end_query-IsSound (query_step-IsSound c s)))
  on_gatt_event-IsSound GattEvent.other c s = s

  pub gatt_handler-IsSound :
      (e : GattEvent) (c : Client) → IsSound c → IsSound (gatt_handler world e c)
  unfolding gatt_handler
  gatt_handler-IsSound x c s =
      IsSound-if
        (flag Flag.abort_requested c || is c.state BleState.closing || is c.state BleState.idle)
        (λ e. s) (λ e. on_gatt_event-IsSound x c s)
