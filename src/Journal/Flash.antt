-- ===== src/Journal/Flash.antt =====
-- getting_there/report_flash.c: the journal's pages in the last 512 KiB of the flash. The SDK's
-- functions are a parameter (`Hardware`), and `flash_safe_execute`, which may refuse an operation,
-- answers from a list; with no answer left it refuses.
use native.Mathlib.Decide.{dec_lt}
use inf2004_aai19_embedded_s.Common.{
  ℕ, zero, suc, ◌+◌, ◌-◌, ◌*◌, ◌%◌, ◌≡◌, ◌≢◌, ◌≤◌, ◌⊎◌, inl, inr, refl, ap, ◌∙◌, Bool, true, false,
  ◌||◌, not, List, [], ◌∷◌, ltb, ◌/=◌, if◌then◌else◌, arith,
}
use inf2004_aai19_embedded_s.Journal.{Page, Device, KeepsPages, page_bytes}

abbrev pub report_flash_offset : ℕ
report_flash_offset = 1536 * 1024

abbrev pub report_flash_bytes : ℕ
report_flash_bytes = 512 * 1024

-- PICO_FLASH_SIZE_BYTES, which the journal ends at.
abbrev pub flash_bytes : ℕ
flash_bytes = 2048 * 1024

-- FLASH_SECTOR_SIZE and the number of sectors.
abbrev pub sector_size : ℕ
sector_size = 4096

abbrev pub sector_count : ℕ
sector_count = 128

-- `flash_range_erase` of a sector, `flash_range_program` of a page, and a page as it is mapped into
-- memory, by offsets from the start of the flash.
pub record Hardware (H : Type 0) : Type 0 where
  pub range_erase : ℕ → H → H
  pub range_program : ℕ → Page → H → H
  pub mapped : ℕ → H → Page

pub record Chip (H : Type 0) : Type 0 where
  pub memory : H
  pub answers : List Bool

-- `flash_safe_execute(op, ..) == PICO_OK`, with the answers left.
abbrev pub execute : {H : Type 0} → (H → H) → Chip H → List Bool → Bool × Chip H
execute op c [] = (false, c)
execute op c (a ∷ rest) =
    (a, record { memory = if a then op c.memory else c.memory; answers = rest })

abbrev pub safe_execute : {H : Type 0} → (H → H) → Chip H → Bool × Chip H
safe_execute op c = execute op c c.answers

module _ {H : Type 0} (hw : Hardware H) where
  unfoldable pub report_flash_read : ℕ → Chip H → Page
  report_flash_read offset c = hw.mapped (report_flash_offset + offset) c.memory

  -- The loop of `report_flash_erase` with `left` sectors to go.
  unfoldable pub erase_sectors : ℕ → ℕ → Chip H → Bool × Chip H
  erase_sectors zero offset c = (true, c)
  erase_sectors (suc left) offset c =
      let erased = safe_execute (hw.range_erase (report_flash_offset + offset)) c in
      let rest = erase_sectors left (offset + sector_size) erased.1 in
      if not erased.0 then (false, erased.1) else rest

  unfoldable pub report_flash_erase : Chip H → Bool × Chip H
  report_flash_erase c = erase_sectors sector_count 0 c

  unfoldable pub report_flash_program : ℕ → Page → Chip H → Bool × Chip H
  report_flash_program offset page c =
      if offset % page_bytes /= 0 || ltb (report_flash_bytes - page_bytes) offset
      then (false, c)
      else safe_execute (hw.range_program (report_flash_offset + offset) page) c

  abbrev pub flash_device : Device (Chip H)
  flash_device = record {
    erase = report_flash_erase;
    program = report_flash_program;
    read = report_flash_read;
  }

-- The documented behaviour of the SDK's flash functions: they take aligned offsets inside the chip of
-- 2 MiB, and change nothing outside of the sector or the page that they are given.
pub record ChangesInside {H : Type 0} (hw : Hardware H) : Type 0 where
  pub programs :
      (o a : ℕ) (p : Page) (m : H)
      → o % page_bytes ≡ 0
      → o + page_bytes ≤ flash_bytes
      → (a + page_bytes ≤ o) ⊎ (o + page_bytes ≤ a)
      → hw.mapped a (hw.range_program o p m) ≡ hw.mapped a m
  pub erases :
      (o a : ℕ) (m : H)
      → o % sector_size ≡ 0
      → o + sector_size ≤ flash_bytes
      → (a + page_bytes ≤ o) ⊎ (o + sector_size ≤ a)
      → hw.mapped a (hw.range_erase o m) ≡ hw.mapped a m

module _ {H : Type 0} (hw : Hardware H) where
  execute-mapped :
      (a : ℕ) (op : H → H) (c : Chip H) (as_given : List Bool)
      → hw.mapped a (op c.memory) ≡ hw.mapped a c.memory
      → hw.mapped a (execute op c as_given).1.memory ≡ hw.mapped a c.memory
  execute-mapped a op c [] h = refl
  execute-mapped a op c (true ∷ rest) h = h
  execute-mapped a op c (false ∷ rest) h = refl

  mapped-if :
      (b : Bool) (a : ℕ) (x y : Bool × Chip H) (p : Page)
      → (b ≡ true → hw.mapped a x.1.memory ≡ p)
      → (b ≡ false → hw.mapped a y.1.memory ≡ p)
      → hw.mapped a (if b then x else y).1.memory ≡ p
  mapped-if true a x y p hx hy = hx refl
  mapped-if false a x y p hx hy = hy refl

  -- What is mapped beside a page does not change with it, even at an offset that is refused.
  program-mapped :
      (offset a : ℕ) (p : Page) (c : Chip H)
      → ChangesInside hw
      → (a + page_bytes ≤ report_flash_offset + offset)
        ⊎ (report_flash_offset + offset + page_bytes ≤ a)
      → hw.mapped a (report_flash_program hw offset p c).1.memory ≡ hw.mapped a c.memory
  unfolding report_flash_program
  program-mapped offset a p c h apart =
      let op = hw.range_program (report_flash_offset + offset) p in
      mapped-if (offset % page_bytes /= 0 || ltb (report_flash_bytes - page_bytes) offset) a
        (false, c) (safe_execute op c) (hw.mapped a c.memory) (λ e. refl)
        (λ e. execute-mapped a op c c.answers (
          h.programs (report_flash_offset + offset) a p c.memory (ground arith) (ground arith)
            apart))

  step : (sector : ℕ) → sector * sector_size + sector_size ≡ suc sector * sector_size
  step sector = omega arith

  -- An erasure of sectors of the journal changes nothing in front of the journal.
  erase-mapped :
      (left sector a : ℕ) (c : Chip H)
      → ChangesInside hw
      → sector + left ≤ sector_count
      → a + page_bytes ≤ report_flash_offset
      → hw.mapped a (erase_sectors hw left (sector * sector_size) c).1.memory ≡ hw.mapped a c.memory
  unfolding erase_sectors
  erase-mapped zero sector a c h room below = refl
  erase-mapped (suc left) sector a c h room below =
      let op = hw.range_erase (report_flash_offset + sector * sector_size) in
      let erased = safe_execute op c in
      let same = execute-mapped a op c c.answers (
        h.erases (report_flash_offset + sector * sector_size) a c.memory (omega arith) (omega arith)
          (inl (omega arith))) in
      mapped-if (not erased.0) a (false, erased.1)
        (erase_sectors hw left (sector * sector_size + sector_size) erased.1) (hw.mapped a c.memory)
        (λ e. same)
        (λ e.
          ap (λ o. hw.mapped a (erase_sectors hw left o erased.1).1.memory) (step sector)
          ∙ erase-mapped left (suc sector) a erased.1 h (omega arith) below
          ∙ same)

  apart : (i k : ℕ) → i ≢ k → (k * 256 + 256 ≤ i * 256) ⊎ (i * 256 + 256 ≤ k * 256)
  apart i k n = elim (dec_lt k i) [
    | yes h ↦ inl (omega arith)
    | no h ↦ inr (elim (dec_lt i k) [ yes g ↦ omega arith | no g ↦ absurd (n (omega arith)) ])
  ]

  -- What the journal relies on.
  flash_device-KeepsPages : ChangesInside hw → KeepsPages (flash_device hw)
  unfolding report_flash_read
  flash_device-KeepsPages h = record {
    keeps = λ i k p c n.
        program-mapped (i * page_bytes) (report_flash_offset + k * page_bytes) p c h
          (elim (apart i k n) [ inl x ↦ inl (omega arith) | inr x ↦ inr (omega arith) ]);
  }

  -- report_flash.c, over a flash that behaves as documented and whether or not an operation is taken:
  -- programming a page of the journal leaves its other pages as they are; and neither programming, at
  -- any offset, nor erasing changes what lies in front of the journal, the firmware and the storage of
  -- Bluetooth.
  pub flash_stays_inside :
      (offset a : ℕ) (p : Page) (c : Chip H)
      → ChangesInside hw
      → a + page_bytes ≤ report_flash_offset
      → KeepsPages (flash_device hw)
        × (hw.mapped a (report_flash_program hw offset p c).1.memory ≡ hw.mapped a c.memory)
        × (hw.mapped a (report_flash_erase hw c).1.memory ≡ hw.mapped a c.memory)
  unfolding report_flash_erase
  flash_stays_inside offset a p c h below = (
    flash_device-KeepsPages h,
    program-mapped offset a p c h (inl (omega arith)),
    erase-mapped sector_count 0 a c h (omega arith) below,
  )
