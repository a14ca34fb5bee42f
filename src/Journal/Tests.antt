-- ===== src/Journal/Tests.antt =====
-- A run of two texts in a flash that is a function from offsets to pages.
use inf2004_aai19_embedded_s.Common.{
  ℕ, ◌≡◌, refl, true, false, List, [], ◌∷◌, ◌==◌, if◌then◌else◌, arith, leb, ltb, ◌&&◌, ◌+◌,
}
use inf2004_aai19_embedded_s.Wire.{crc_loop, crc_byte, crc_rounds, crc_bit}
use inf2004_aai19_embedded_s.Journal.{
  Page, Device, KeepsPages, Journal, page_crc, new_page, same_page, write_page, begin, append_loop,
  append, finish, replay,
}
use inf2004_aai19_embedded_s.Journal.Flash.{
  Hardware, Chip, ChangesInside, flash_device, report_flash_program, report_flash_erase,
  flash_stays_inside,
}
use inf2004_aai19_embedded_s.Journal.Session.{
  append_all, text_of, is_complete, concat, replay_session,
}

abbrev blank : Page
blank = record {
  magic = 0xFFFFFFFF;
  index = 0xFFFF;
  size = 0xFFFF;
  crc = 0xFFFFFFFF;
  contents = [];
}

abbrev chip : Device (ℕ → Page)
chip = record {
  erase = λ f. (true, λ k. blank);
  program = λ o p f. (true, λ k. if k == o then p else f k);
  read = λ o f. f o;
}

chip-KeepsPages : KeepsPages chip
chip-KeepsPages = record { keeps = λ o k p f h. ground arith }

abbrev empty : Journal (ℕ → Page)
empty = record { next = 0; active = false; flash = λ k. blank }

abbrev run_texts : List (List ℕ)
run_texts = (0x41 ∷ 0x42 ∷ []) ∷ (0x0A ∷ []) ∷ []

replay_session_example :
    let f = (finish chip (append_all chip run_texts (begin chip empty)).1).1.flash in
    (text_of (replay chip f) ≡ concat run_texts) × (is_complete (replay chip f) ≡ true)
unfolding begin append append_loop finish write_page new_page same_page page_crc crc_loop crc_byte
    crc_rounds crc_bit
replay_session_example = replay_session chip empty run_texts chip-KeepsPages refl refl

abbrev board : Hardware (ℕ → Page)
board = record {
  range_erase = λ o m k. if leb o k && ltb k (o + 4096) then blank else m k;
  range_program = λ o p m k. if k == o then p else m k;
  mapped = λ o m. m o;
}

board-ChangesInside : ChangesInside board
board-ChangesInside = record {
  programs = λ o a p m e room apart. ground arith;
  erases = λ o a m e room apart. ground arith;
}

abbrev used : Chip (ℕ → Page)
used = record { memory = λ k. blank; answers = true ∷ true ∷ [] }

flash_stays_inside_example :
    KeepsPages (flash_device board)
    × (board.mapped 4096 (report_flash_program board 512 blank used).1.memory
        ≡ board.mapped 4096 used.memory)
    × (board.mapped 4096 (report_flash_erase board used).1.memory ≡ board.mapped 4096 used.memory)
flash_stays_inside_example =
    flash_stays_inside board 512 4096 blank used board-ChangesInside (omega arith)
