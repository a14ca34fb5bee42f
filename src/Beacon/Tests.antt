-- ===== src/Beacon/Tests.antt =====
-- Sessions of a beacon with id 1, and the theorems at them.
use inf2004_aai19_embedded_s.Common.{
  ℕ, ◌≡◌, refl, true, false, List, [], ◌∷◌, ◌==◌, if◌then◌else◌, take, get_or, replicate, arith,
  some,
}
use inf2004_aai19_embedded_s.Wire.{read_u16, read_u32, crc32, message_type, MessageType, code_of}
use inf2004_aai19_embedded_s.Beacon.{
  Beacon, Status, Effect, AttHandle, HciEvent, Event, boot, att_write, packet_handler, run, writes,
}
use inf2004_aai19_embedded_s.Beacon.Invariant.{
  IsValid, boot-IsValid, att_write-IsValid, packet_handler-IsValid,
}
use inf2004_aai19_embedded_s.Beacon.Receive.{concat, data_packets}
use inf2004_aai19_embedded_s.Beacon.Verdict.{file_writes, receive_file}
use inf2004_aai19_embedded_s.Beacon.Oversize.{run_inside, oversize_overruns}

abbrev hello : List ℕ
hello = 1 ∷ 1 ∷ 1 ∷ []

att_write-IsValid_example : IsValid (att_write 1 1 64 AttHandle.value hello boot)
att_write-IsValid_example =
    att_write-IsValid 1 1 64 AttHandle.value hello boot (omega arith) boot-IsValid

packet_handler-IsValid_example : IsValid (packet_handler 1 1 (HciEvent.connection_complete 64) boot)
packet_handler-IsValid_example =
    packet_handler-IsValid 1 1 (HciEvent.connection_complete 64) boot boot-IsValid

-- Connected, with notifications enabled.
abbrev ready : Beacon
unfolding att_write boot read_u16
ready = att_write 1 1 64 AttHandle.client_configuration (1 ∷ 0 ∷ []) boot

ready-IsValid : IsValid ready
unfolding att_write boot read_u16
ready-IsValid =
    att_write-IsValid 1 1 64 AttHandle.client_configuration (1 ∷ 0 ∷ []) boot (omega arith)
      boot-IsValid

abbrev chunks : List (List ℕ)
chunks = (0x52 ∷ 0x6F ∷ []) ∷ (0x62 ∷ []) ∷ []

-- The announcement of three bytes with a wrong checksum.
abbrev announcement : List ℕ
announcement = 3 ∷ 0 ∷ 9 ∷ 9 ∷ 9 ∷ 9 ∷ []

receive_file_example :
    let b' = writes 1 1 64 (file_writes announcement chunks) ready in
    (take b'.received_file_length b'.received_file ≡ concat chunks)
    × (b'.status ≡ (
        if crc32 (concat chunks) == read_u32 (0x03 ∷ announcement) 3
        then Status.file_verified
        else Status.error))
    × (get_or b'.pending_notification 0 0 ≡ code_of MessageType.file_received)
    × (get_or b'.pending_notification 1 0
        ≡ (if crc32 (concat chunks) == read_u32 (0x03 ∷ announcement) 3 then 0 else 1))
    × (read_u32 b'.pending_notification 2 ≡ crc32 (concat chunks))
    × (b'.pending_notification_length ≡ 6)
    × (b'.effects
        ≡ Effect.request_can_send (some 64)
          ∷ (writes 1 1 64 ((0x03 ∷ announcement) ∷ data_packets 0 chunks) ready).effects)
    × (b'.overrun ≡ ready.overrun)
unfolding att_write boot read_u16
receive_file_example =
    receive_file 1 1 64 announcement chunks ready 64 ready-IsValid refl refl (omega arith) refl
      (omega arith) (omega arith) (omega arith)

abbrev session : List Event
session =
    Event.hci (HciEvent.connection_complete 64)
    ∷ Event.write 64 AttHandle.value hello
    ∷ Event.write 64 AttHandle.value (0x05 ∷ 0 ∷ 0 ∷ [])
    ∷ []

run_inside_example : (run 1 1 session boot).overrun ≡ false
unfolding message_type
run_inside_example = run_inside 1 1 session (tt, ((λ e. cc), ((λ e. cc), tt)))

-- 272 bytes announced and sent.
abbrev long_chunks : List (List ℕ)
long_chunks = replicate 16 (replicate 17 0x41)

oversize_overruns_example :
    let start : List ℕ = 0x03 ∷ 0x10 ∷ 1 ∷ 0 ∷ 0 ∷ 0 ∷ 0 ∷ [] in
    ((att_write 1 1 64 AttHandle.value start boot).status ≡ Status.error)
    × ((writes 1 1 64 (start ∷ data_packets 0 long_chunks) boot).overrun ≡ true)
unfolding read_u16
oversize_overruns_example =
    oversize_overruns 1 1 64 (0x10 ∷ 1 ∷ 0 ∷ 0 ∷ 0 ∷ 0 ∷ []) long_chunks boot (omega arith)
      (omega arith) (omega arith) (omega arith) (omega arith)
