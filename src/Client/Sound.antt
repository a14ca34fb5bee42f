-- ===== src/Client/Sound.antt =====
-- What every callback of payload_client.c keeps, and what the flag F_PAYLOAD_VERIFIED stands for.
use inf2004_aai19_embedded_s.Common.{
  ℕ, ◌≤◌, ◌<◌, ◌≡◌, refl, ◌⊎◌, inl, Bool, true, false, not, ◌||◌, ◌∷◌, length, take, if◌then◌else◌,
  arith,
}
use inf2004_aai19_embedded_s.Wire.{packet_size, max_file_size, crc32}
use inf2004_aai19_embedded_s.Faults.{Fault}
use inf2004_aai19_embedded_s.Client.{
  is_none, BleState, state_code, is, Result, Flag, Call, Client, World, robot_file, flag,
  flag_assign, call, raise, set_state, finish_attempt, close_scan, close_connection, close_attempt,
  transfer_failed, begin_connection,
}
use inf2004_aai19_embedded_s.Client.Transfer.{write_packet}

-- The sizes of the buffers and the ranges of the counters.
pub record IsBounded (c : Client) : Type 0 where
  pub reply_size : length c.reply_file ≡ max_file_size
  pub reply_fits : c.counters.reply_length ≤ max_file_size
  pub reply_inside : c.counters.reply_offset ≤ c.counters.reply_length
  pub robot_inside : c.counters.robot_offset ≤ length robot_file
  pub pending_size : length c.pending_notification ≡ packet_size
  pub pending_fits : c.counters.pending_length ≤ packet_size

abbrev pub is_verified : Client → Bool
is_verified c = c.flags.payload_verified

abbrev pub HasChecked : Client → Type 0
HasChecked c = crc32 (take c.counters.reply_length c.reply_file) ≡ c.reply_crc

-- While a reply is on its way its length is announced; from the acknowledgement of its end on its
-- checksum is the announced one; and the flag is set only behind that, with no transfer going on.
pub record IsSound (c : Client) : Type 0 where
  pub bounded : IsBounded c
  pub announced :
      (state_code c.state < 17) ⊎ (20 < state_code c.state) ⊎ (1 ≤ c.counters.reply_length)
  pub checked : (state_code c.state < 19) ⊎ (20 < state_code c.state) ⊎ HasChecked c
  pub verified_at :
      (is_verified c ≡ false)
      ⊎ (state_code c.state ≡ 0)
      ⊎ (state_code c.state ≡ 1)
      ⊎ (state_code c.state ≡ 22)
  pub verified_announced : (is_verified c ≡ false) ⊎ (1 ≤ c.counters.reply_length)
  pub verified_checked : (is_verified c ≡ false) ⊎ HasChecked c

-- Two ways on, each with the outcome of the test.
pub IsSound-if :
    (b : Bool) {x y : Client}
    → (b ≡ true → IsSound x)
    → (b ≡ false → IsSound y)
    → IsSound (if b then x else y)
IsSound-if true hx hy = hx refl
IsSound-if false hx hy = hy refl

module _ (world : World) where
  pub finish_attempt-IsSound :
      (c : Client)
      → IsBounded c
      → (is_verified c ≡ false) ⊎ (1 ≤ c.counters.reply_length)
      → (is_verified c ≡ false) ⊎ HasChecked c
      → IsSound (finish_attempt world c)
  unfolding finish_attempt set_state
  finish_attempt-IsSound c b a h = ground arith

  close_scan-IsSound :
      (stopping : Bool) (c : Client)
      → IsBounded c
      → is_verified c ≡ false
      → IsSound (close_scan world stopping c)
  unfolding close_scan set_state
  close_scan-IsSound true c b v =
      let c1 = record c {
        phase_started_ms = world.now_ms;
        state = BleState.stopping_scan;
        closing = Result.fatal;
      } in
      ground (arith, finish_attempt-IsSound c1 (ground arith))
  close_scan-IsSound false c b v =
      let c1 = record c {
        phase_started_ms = world.now_ms;
        state = BleState.stopping_scan;
        closing = Result.fatal;
        calls = Call.stop_scan ∷ c.calls;
      } in
      ground (arith, finish_attempt-IsSound c1 (ground arith))

  close_connection-IsSound :
      (c : Client)
      → IsBounded c
      → (is_verified c ≡ false) ⊎ (1 ≤ c.counters.reply_length)
      → (is_verified c ≡ false) ⊎ HasChecked c
      → IsSound (close_connection world c)
  unfolding close_connection set_state
  close_connection-IsSound c b a h = ground arith

  cancel-IsSound :
      (c : Client)
      → IsBounded c
      → (is_verified c ≡ false) ⊎ (1 ≤ c.counters.reply_length)
      → (is_verified c ≡ false) ⊎ HasChecked c
      → IsSound (call Call.connect_cancel (set_state world BleState.closing c))
  unfolding set_state
  cancel-IsSound c b a h = ground arith

  -- A verified reply is not closed while a scan is on.
  pub close_attempt-IsSound :
      (r : Result) (c : Client)
      → IsBounded c
      → (is_verified c ≡ false) ⊎ (state_code c.state < 2) ⊎ (3 < state_code c.state)
      → (is_verified c ≡ false) ⊎ (1 ≤ c.counters.reply_length)
      → (is_verified c ≡ false) ⊎ HasChecked c
      → IsSound (close_attempt world r c)
  unfolding close_attempt
  close_attempt-IsSound r c b at a h =
      let c1 = record c { closing = r; counters = record c.counters { pending_length = 0 } } in
      let b1 : IsBounded c1 = ground arith in
      IsSound-if (is c.state BleState.scanning || is c.state BleState.stopping_for_connect)
        (λ e. close_scan-IsSound (is c1.state BleState.stopping_for_connect) c1 b1 (ground arith))
        (λ e.
          IsSound-if (not (is_none c.connection_handle)) (λ f. close_connection-IsSound c1 b1 a h)
            (λ f.
              IsSound-if (is c.state BleState.connecting) (λ g. cancel-IsSound c1 b1 a h)
                (λ g. finish_attempt-IsSound c1 b1 a h)))

  pub transfer_failed-IsSound : (c : Client) → IsBounded c → IsSound (transfer_failed world c)
  unfolding transfer_failed
  transfer_failed-IsSound c b =
      let c1 = flag_assign Flag.payload_verified false (raise Fault.payload c) in
      close_attempt-IsSound
        (if flag Flag.close_confirmed c1 then Result.retry else Result.not_close) c1 (ground arith)
        (inl refl) (inl refl) (inl refl)

  pub begin_connection-IsSound :
      (c : Client) → IsBounded c → is_verified c ≡ false → IsSound (begin_connection world c)
  unfolding begin_connection set_state
  begin_connection-IsSound c b v =
      let c1 =
        call (Call.connect c.beacon_address c.beacon_address_type)
          (record c { phase_started_ms = world.now_ms; state = BleState.connecting }) in
      ground (arith, transfer_failed-IsSound (record c1 { state = BleState.idle }) (ground arith))

  -- A write in the state `s`.
  pub write_packet-IsSound :
      (n : ℕ) (s : BleState) (c : Client)
      → IsBounded c
      → is_verified c ≡ false
      → (state_code s < 17) ⊎ (1 ≤ c.counters.reply_length)
      → (state_code s < 19) ⊎ (20 < state_code s) ⊎ HasChecked c
      → IsSound (write_packet world n s c)
  unfolding write_packet set_state
  write_packet-IsSound n s c b v a h =
      let c1 =
        call (Call.write_value c.connection_handle c.value_handle (take n c.tx_packet))
          (record c { phase_started_ms = world.now_ms; state = s }) in
      ground (arith, transfer_failed-IsSound c1 (ground arith))
