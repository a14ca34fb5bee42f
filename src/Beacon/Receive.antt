-- ===== src/Beacon/Receive.antt =====
-- Reception of a file: what `on_file_data` does with the packets of a file cut into chunks, and what
-- `on_file_end` makes of it.
use inf2004_aai19_embedded_s.Common.{
  ℕ, ◌+◌, ◌^◌, ◌≤◌, ◌<◌, ◌≡◌, ◌∙◌, sym, ap, true, ◌||◌, some, List, [], ◌∷◌, ◌++◌, length, take,
  splice, u8, ◌>>>◌, All, arith, ltb, ◌==◌, if◌then◌else◌, ◌⊎◌, length-append, length-splice,
  take-length, take-splice, append-nil, append_assoc,
}
use inf2004_aai19_embedded_s.Wire.{
  message_type, max_file_size, data_bytes, read_u16, read_u32, write_u32, crc32,
}
use inf2004_aai19_embedded_s.Beacon.{
  Beacon, Status, Effect, emit, AttHandle, queue_notification, send_simple, fail, on_file_start,
  on_file_end, on_file_data, on_message, att_write, writes,
}

-- The file that chunks make up.
abbrev pub concat : List (List ℕ) → List ℕ
concat [] = []
concat (c ∷ cs) = c ++ concat cs

-- The packet of one chunk, and the packets of a file from a sequence number on.
abbrev pub data_packet : ℕ → List ℕ → List ℕ
data_packet seq c = 0x05 ∷ seq ∷ length c ∷ c

abbrev pub data_packets : ℕ → List (List ℕ) → List (List ℕ)
data_packets seq [] = []
data_packets seq (c ∷ cs) = data_packet seq c ∷ data_packets (u8 (seq + 1)) cs

abbrev pub IsChunk : List ℕ → Type 0
IsChunk c = length c ≤ data_bytes

-- The state after an accepted chunk.
abbrev pub accept : List ℕ → Beacon → Beacon
accept c b = record b {
  received_file = splice b.received_file b.received_file_length c;
  overrun = b.overrun || ltb max_file_size (b.received_file_length + length c);
  received_file_length = b.received_file_length + length c;
  expected_sequence = u8 (b.expected_sequence + 1);
}

module _ (id notification con : ℕ) where
  pub att_write-data_packet :
      (c : List ℕ) (b : Beacon)
      → IsChunk c
      → b.received_file_length + length c ≤ b.expected_file_length
      → b.expected_file_length < 2 ^ 16
      → att_write id notification con AttHandle.value (data_packet b.expected_sequence c) b
        ≡ accept c b
  unfolding att_write on_message on_file_data message_type
  att_write-data_packet c b hc h w = ground (arith, take-length c)

  writes-data_packets :
      (c : List ℕ) (cs : List (List ℕ)) (b : Beacon)
      → IsChunk c
      → b.received_file_length + length (c ++ concat cs) ≤ b.expected_file_length
      → b.expected_file_length < 2 ^ 16
      → writes id notification con (data_packets b.expected_sequence (c ∷ cs)) b
        ≡ writes id notification con (data_packets (accept c b).expected_sequence cs) (accept c b)
  unfolding writes
  writes-data_packets c cs b hc h w =
      ap (writes id notification con (data_packets (u8 (b.expected_sequence + 1)) cs))
        (att_write-data_packet c b hc (omega (arith, length-append c (concat cs))) w)

  -- What a run of chunks does to the state.
  pub record Received (cs : List (List ℕ)) (b b' : Beacon) : Type 0 where
    pub count : b'.received_file_length ≡ b.received_file_length + length (concat cs)
    pub announced : b'.expected_file_length ≡ b.expected_file_length
    pub crc : b'.expected_file_crc ≡ b.expected_file_crc
    pub status : b'.status ≡ b.status
    pub enabled : b'.notifications_enabled ≡ b.notifications_enabled
    pub connection : b'.connection_handle ≡ b.connection_handle
    pub pending : b'.pending_notification ≡ b.pending_notification
    pub size : length b'.received_file ≡ length b.received_file
    pub inside :
        b.received_file_length + length (concat cs) ≤ max_file_size → b'.overrun ≡ b.overrun

  pub writes-Received :
      (cs : List (List ℕ)) (b : Beacon)
      → All IsChunk cs
      → b.received_file_length + length (concat cs) ≤ b.expected_file_length
      → b.expected_file_length < 2 ^ 16
      → Received cs b (writes id notification con (data_packets b.expected_sequence cs) b)
  unfolding writes
  writes-Received [] b hc h w = ground arith
  writes-Received (c ∷ cs) b hc h w = rw (writes-data_packets c cs b hc.0 h w) (
      ground (
        arith,
        writes-Received cs (accept c b) hc.1 (omega (arith, length-append c (concat cs))) w,
        length-append c (concat cs),
        length-splice b.received_file b.received_file_length c,
      ))

  -- The buffer then holds the chunks behind what it held.
  pub contents-writes :
      (cs : List (List ℕ)) (b : Beacon)
      → All IsChunk cs
      → b.received_file_length + length (concat cs) ≤ b.expected_file_length
      → b.expected_file_length < 2 ^ 16
      → b.received_file_length + length (concat cs) ≤ length b.received_file
      → let b' = writes id notification con (data_packets b.expected_sequence cs) b in
        take b'.received_file_length b'.received_file
        ≡ take b.received_file_length b.received_file ++ concat cs
  unfolding writes
  contents-writes [] b hc h w fits = sym (append-nil _)
  contents-writes (c ∷ cs) b hc h w fits = rw (writes-data_packets c cs b hc.0 h w) (
      contents-writes cs (accept c b) hc.1 (omega (arith, length-append c (concat cs))) w (
        omega (
          arith,
          length-append c (concat cs),
          length-splice b.received_file b.received_file_length c,
        ))
      ∙ ap (λ t. t ++ concat cs)
          (take-splice b.received_file b.received_file_length c
            (omega (arith, length-append c (concat cs))))
      ∙ append_assoc (take b.received_file_length b.received_file) c (concat cs))

  -- Within the announced length nothing passes the end of the buffer.
  pub overrun-writes :
      (cs : List (List ℕ)) (b : Beacon)
      → All IsChunk cs
      → b.received_file_length + length (concat cs) ≤ b.expected_file_length
      → b.expected_file_length < 2 ^ 16
      → max_file_size < b.received_file_length + length (concat cs)
      → (b.received_file_length ≤ max_file_size) ⊎ (b.overrun ≡ true)
      → (writes id notification con (data_packets b.expected_sequence cs) b).overrun ≡ true
  unfolding writes
  overrun-writes [] b hc h w over start = ground arith
  overrun-writes (c ∷ cs) b hc h w over start = rw (writes-data_packets c cs b hc.0 h w) (
      overrun-writes cs (accept c b) hc.1 (omega (arith, length-append c (concat cs))) w
        (omega (arith, length-append c (concat cs))) (ground arith))

  -- The announcement of a file that fits.
  pub record Started (p : List ℕ) (b b' : Beacon) : Type 0 where
    pub count : b'.received_file_length ≡ 0
    pub announced : b'.expected_file_length ≡ read_u16 p 1
    pub crc : b'.expected_file_crc ≡ read_u32 p 3
    pub sequence : b'.expected_sequence ≡ 0
    pub enabled : b'.notifications_enabled ≡ b.notifications_enabled
    pub connection : b'.connection_handle ≡ b.connection_handle
    pub pending : length b'.pending_notification ≡ length b.pending_notification
    pub file : b'.received_file ≡ b.received_file
    pub inside : b'.overrun ≡ b.overrun

  pub att_write-Started :
      (rest : List ℕ) (b : Beacon)
      → 6 ≤ length rest
      → Started (0x03 ∷ rest) b (att_write id notification con AttHandle.value (0x03 ∷ rest) b)
  unfolding att_write on_message message_type on_file_start fail send_simple queue_notification
  att_write-Started rest b h = ground (
    arith,
    length-splice b.pending_notification 0 (0x04 ∷ id ∷ []),
    length-splice b.pending_notification 0 (0x7F ∷ 3 ∷ []),
  )

  -- The state after the verdict on a file.
  abbrev pub verdict : List ℕ → ℕ → Beacon → Beacon
  verdict file h b =
      let c = crc32 file in
      emit (Effect.request_can_send (some h)) (record b {
        status = if c == b.expected_file_crc then Status.file_verified else Status.error;
        pending_notification = splice b.pending_notification 0 (
            0x07
            ∷ (if c == b.expected_file_crc then 0 else 1)
            ∷ u8 c
            ∷ u8 (c >>> 8)
            ∷ u8 (c >>> 16)
            ∷ u8 (c >>> 24)
            ∷ []);
        pending_notification_length = 6;
      })

  pub att_write-file_end :
      (b : Beacon) (h : ℕ)
      → b.notifications_enabled ≡ true
      → b.connection_handle ≡ some h
      → b.received_file_length ≡ b.expected_file_length
      → att_write id notification con AttHandle.value (0x06 ∷ []) b
        ≡ verdict (take b.received_file_length b.received_file) h b
  unfolding att_write on_message message_type on_file_end queue_notification write_u32
  att_write-file_end b h on con' count = ground arith
