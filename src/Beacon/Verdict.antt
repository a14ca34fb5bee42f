-- ===== src/Beacon/Verdict.antt =====
-- A file that the robot announces and sends in chunks: what the beacon holds and answers at the end.
use inf2004_aai19_embedded_s.Common.{
  ℕ, ◌+◌, ◌^◌, ◌≤◌, ◌<◌, ◌≡◌, refl, ◌∙◌, sym, ap, true, some, List, [], ◌∷◌, ◌++◌, length, get_or,
  take, All, arith, ◌==◌, if◌then◌else◌, get_or-splice,
}
use inf2004_aai19_embedded_s.Wire.{
  max_file_size, packet_size, read_u16, read_u32, crc32, MessageType, code_of,
}
use inf2004_aai19_embedded_s.Wire.Checksum.{IsByte, crc32-lt}
use inf2004_aai19_embedded_s.Wire.Numbers.{read_u32_of_bytes}
use inf2004_aai19_embedded_s.Beacon.{Beacon, Status, Effect, AttHandle, att_write, writes}
use inf2004_aai19_embedded_s.Beacon.Invariant.{IsValid}
use inf2004_aai19_embedded_s.Beacon.Receive.{
  concat, data_packets, IsChunk, writes-Received, contents-writes, Started, att_write-Started,
  verdict, att_write-file_end,
}

-- The writes of a whole file: its announcement, its chunks, its end.
abbrev pub file_writes : List ℕ → List (List ℕ) → List (List ℕ)
file_writes rest cs = (0x03 ∷ rest) ∷ data_packets 0 cs ++ (0x06 ∷ []) ∷ []

module _ (id notification con : ℕ) where
  writes-append :
      (ps qs : List (List ℕ)) (b : Beacon)
      → writes id notification con (ps ++ qs) b
        ≡ writes id notification con qs (writes id notification con ps b)
  unfolding writes
  writes-append [] qs b = refl
  writes-append (p ∷ ps) qs b =
      writes-append ps qs (att_write id notification con AttHandle.value p b)

  writes-cons :
      (p : List ℕ) (ps : List (List ℕ)) (b : Beacon)
      → writes id notification con (p ∷ ps) b
        ≡ writes id notification con ps (att_write id notification con AttHandle.value p b)
  unfolding writes
  writes-cons p ps b = refl

  writes-one :
      (p : List ℕ) (b : Beacon)
      → writes id notification con (p ∷ []) b ≡ att_write id notification con AttHandle.value p b
  unfolding writes
  writes-one p b = refl

  -- The state before the end of the file: what it holds, and what it has kept.
  record Delivered (rest : List ℕ) (cs : List (List ℕ)) (b b' : Beacon) : Type 0 where
    held : take b'.received_file_length b'.received_file ≡ concat cs
    full : b'.received_file_length ≡ b'.expected_file_length
    crc : b'.expected_file_crc ≡ read_u32 (0x03 ∷ rest) 3
    enabled : b'.notifications_enabled ≡ b.notifications_enabled
    connection : b'.connection_handle ≡ b.connection_handle
    pending : length b'.pending_notification ≡ length b.pending_notification
    inside : b'.overrun ≡ b.overrun

  chunks-Delivered :
      (rest : List ℕ) (cs : List (List ℕ)) (b b1 : Beacon)
      → Started id notification con (0x03 ∷ rest) b b1
      → read_u16 (0x03 ∷ rest) 1 ≡ length (concat cs)
      → length (concat cs) ≤ max_file_size
      → length b.received_file ≡ max_file_size
      → All IsChunk cs
      → Delivered rest cs b (writes id notification con (data_packets 0 cs) b1)
  chunks-Delivered rest cs b b1 s len small size chunks =
      let packets : data_packets 0 cs ≡ data_packets b1.expected_sequence cs =
        ap (λ n. data_packets n cs) (sym s.sequence) in
      let same : length b1.received_file ≡ length b.received_file = ap length s.file in
      let announced : b1.received_file_length + length (concat cs) ≤ b1.expected_file_length =
        omega (arith, s.count, s.announced) in
      let short : b1.expected_file_length < 2 ^ 16 = omega (arith, s.announced) in
      let r = writes-Received id notification con cs b1 chunks announced short in
      let held =
        contents-writes id notification con cs b1 chunks announced short (omega (arith, s.count)) in
      rw packets (record {
        held = held ∙ ap (λ n. take n b1.received_file ++ concat cs) s.count;
        full = omega (arith, r.count, r.announced, s.count, s.announced);
        crc = r.crc ∙ s.crc;
        enabled = r.enabled ∙ s.enabled;
        connection = r.connection ∙ s.connection;
        pending = ap length r.pending ∙ s.pending;
        inside = r.inside (omega (arith, s.count)) ∙ s.inside;
      })

  -- What the verdict on a file leaves to be read.
  verdict_lem :
      (file : List ℕ) (h : ℕ) (b : Beacon)
      → length b.pending_notification ≡ packet_size
      → All IsByte file
      → let b' = verdict id notification con file h b in
        (get_or b'.pending_notification 0 0 ≡ code_of MessageType.file_received)
        × (get_or b'.pending_notification 1 0
            ≡ (if crc32 file == b.expected_file_crc then 0 else 1))
        × (read_u32 b'.pending_notification 2 ≡ crc32 file)
  verdict_lem file h b size bytes = (
    get_or-splice b.pending_notification _ 0 0 (omega arith) (omega arith),
    get_or-splice b.pending_notification _ 1 0 (omega arith) (omega arith),
    read_u32_of_bytes _ 2 (crc32 file) (crc32-lt file bytes)
        (get_or-splice b.pending_notification _ 2 0 (omega arith) (omega arith))
        (get_or-splice b.pending_notification _ 3 0 (omega arith) (omega arith))
        (get_or-splice b.pending_notification _ 4 0 (omega arith) (omega arith))
        (get_or-splice b.pending_notification _ 5 0 (omega arith) (omega arith)),
  )

  -- A file of at most 256 bytes, announced with its length and sent in chunks of at most 17 bytes to
  -- a well-formed beacon with notifications enabled, is held in full at its end; it is verified exactly
  -- if its checksum is the announced one; the queued notification has six bytes, the type FILE_RECEIVED,
  -- the verdict and the checksum of the received bytes, and one request to send it is made of BTstack;
  -- nothing is written past the buffer.
  pub receive_file :
      (rest : List ℕ) (cs : List (List ℕ)) (b : Beacon) (h : ℕ)
      → IsValid b
      → b.notifications_enabled ≡ true
      → b.connection_handle ≡ some h
      → 6 ≤ length rest
      → read_u16 (0x03 ∷ rest) 1 ≡ length (concat cs)
      → length (concat cs) ≤ max_file_size
      → All IsChunk cs
      → All IsByte (concat cs)
      → let b' = writes id notification con (file_writes rest cs) b in
        (take b'.received_file_length b'.received_file ≡ concat cs)
        × (b'.status ≡ (
            if crc32 (concat cs) == read_u32 (0x03 ∷ rest) 3
            then Status.file_verified
            else Status.error))
        × (get_or b'.pending_notification 0 0 ≡ code_of MessageType.file_received)
        × (get_or b'.pending_notification 1 0
            ≡ (if crc32 (concat cs) == read_u32 (0x03 ∷ rest) 3 then 0 else 1))
        × (read_u32 b'.pending_notification 2 ≡ crc32 (concat cs))
        × (b'.pending_notification_length ≡ 6)
        × (b'.effects
            ≡ Effect.request_can_send (some h)
              ∷ (writes id notification con ((0x03 ∷ rest) ∷ data_packets 0 cs) b).effects)
        × (b'.overrun ≡ b.overrun)
  receive_file rest cs b h v on con' long len small chunks bytes = rw whole (
    d.held,
    ap (λ n. if crc32 (concat cs) == n then Status.file_verified else Status.error) d.crc,
    said.0,
    said.1 ∙ ap (λ n. if crc32 (concat cs) == n then 0 else 1) d.crc,
    said.2,
    refl,
    ap (λ (w : Beacon). Effect.request_can_send (some h) ∷ w.effects)
        (sym (writes-cons (0x03 ∷ rest) (data_packets 0 cs) b)),
    d.inside,
  )
    where
      b1 : Beacon
      b1 = att_write id notification con AttHandle.value (0x03 ∷ rest) b

      b2 : Beacon
      b2 = writes id notification con (data_packets 0 cs) b1

      d : Delivered rest cs b b2
      d =
          chunks-Delivered rest cs b b1 (att_write-Started id notification con rest b long) len
            small v.received_size chunks

      said :
          let b' = verdict id notification con (concat cs) h b2 in
          (get_or b'.pending_notification 0 0 ≡ code_of MessageType.file_received)
          × (get_or b'.pending_notification 1 0
              ≡ (if crc32 (concat cs) == b2.expected_file_crc then 0 else 1))
          × (read_u32 b'.pending_notification 2 ≡ crc32 (concat cs))
      said = verdict_lem (concat cs) h b2 (d.pending ∙ v.pending_size) bytes

      whole :
          writes id notification con (file_writes rest cs) b
          ≡ verdict id notification con (concat cs) h b2
      whole =
          writes-cons (0x03 ∷ rest) (data_packets 0 cs ++ (0x06 ∷ []) ∷ []) b
          ∙ writes-append (data_packets 0 cs) ((0x06 ∷ []) ∷ []) b1
          ∙ writes-one (0x06 ∷ []) b2
          ∙ att_write-file_end id notification con b2 h (d.enabled ∙ on) (d.connection ∙ con')
              d.full
          ∙ ap (λ f. verdict id notification con f h b2) d.held
