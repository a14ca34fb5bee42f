-- ===== src/Journal.antt =====
-- getting_there/report_store.c: the journal of a run in flash, one page of 256 bytes for a record of
-- at most 244 bytes of text. Its two static counters are fields of `Journal`, beside the flash
-- itself, which is reached through report_flash.c and is a parameter (`Device`). A function that
-- returns a `bool` gives it with the new state.
mod Pages
pub mod Flash
pub mod Session
mod Tests
use inf2004_aai19_embedded_s.Common.{
  ℕ, zero, suc, ◌≡◌, ◌≢◌, ◌+◌, ◌-◌, ◌*◌, ◌^◌, ◌%◌, Bool, true, false, ◌&&◌, ◌||◌, not, List, [],
  ◌∷◌, ◌++◌, length, take, drop, splice, replicate, u8, u16, ◌>>>◌, ltb, leb, ◌==◌, ◌/=◌,
  if◌then◌else◌,
}
use inf2004_aai19_embedded_s.Bits.{not32}
use inf2004_aai19_embedded_s.Wire.{crc_loop}

abbrev pub page_bytes : ℕ
page_bytes = 256

abbrev pub page_data : ℕ
page_data = 244

abbrev pub page_count : ℕ
page_count = 2048

abbrev pub start_magic : ℕ
start_magic = 0x31474F4C

abbrev pub data_magic : ℕ
data_magic = 0x31415444

abbrev pub end_magic : ℕ
end_magic = 0x31444E45

-- `log_page_t`
pub record Page : Type 0 where
  pub magic : ℕ
  pub index : ℕ
  pub size : ℕ
  pub crc : ℕ
  pub contents : List ℕ

-- The bytes of a page in front of its checksum.
abbrev pub page_header : Page → List ℕ
page_header p =
    u8 p.magic
    ∷ u8 (p.magic >>> 8)
    ∷ u8 (p.magic >>> 16)
    ∷ u8 (p.magic >>> 24)
    ∷ u8 p.index
    ∷ u8 (p.index >>> 8)
    ∷ u8 p.size
    ∷ u8 (p.size >>> 8)
    ∷ []

-- `crc_bytes` is the loop of the transfer's checksum, written a second time.
abbrev pub crc_bytes : ℕ → List ℕ → ℕ
crc_bytes crc bytes = crc_loop crc bytes

unfoldable pub page_crc : Page → ℕ
page_crc p = not32 (crc_bytes (crc_bytes 0xFFFFFFFF (page_header p)) (take p.size p.contents))

-- The page that `write_page` builds.
unfoldable pub new_page : ℕ → ℕ → List ℕ → Page
new_page magic index bytes =
    let p : Page = record {
      magic = magic;
      index = index;
      size = u16 (length bytes);
      crc = 0xFFFFFFFF;
      contents = splice (replicate page_data 0xFF) 0 bytes;
    } in
    record p { crc = page_crc p }

abbrev pub same_bytes : List ℕ → List ℕ → Bool
same_bytes [] [] = true
same_bytes [] (y ∷ ys) = false
same_bytes (x ∷ xs) [] = false
same_bytes (x ∷ xs) (y ∷ ys) = x == y && same_bytes xs ys

-- `memcmp` of two pages.
unfoldable pub same_page : Page → Page → Bool
same_page p q =
    p.magic == q.magic
    && p.index == q.index
    && p.size == q.size
    && p.crc == q.crc
    && same_bytes p.contents q.contents

-- The functions of report_flash.c over the hardware's flash `F`: each changes it, and reports
-- whether it succeeded.
pub record Device (F : Type 0) : Type 0 where
  pub erase : F → Bool × F
  pub program : ℕ → Page → F → Bool × F
  pub read : ℕ → F → Page

-- Programming a page leaves the other pages as they are.
pub record KeepsPages {F : Type 0} (d : Device F) : Type 0 where
  pub keeps :
      (i k : ℕ) (p : Page) (f : F)
      → i ≢ k
      → d.read (k * page_bytes) (d.program (i * page_bytes) p f).1 ≡ d.read (k * page_bytes) f

pub record Journal (F : Type 0) : Type 0 where
  pub next : ℕ
  pub active : Bool
  pub flash : F

-- What a replay emits: the fixed texts by name.
pub data Emitted : Type 0 where
  no_run saved_run complete incomplete end_of_run : Emitted
  text : List ℕ → Emitted

unfoldable pub valid_page : ℕ → Page → Bool
valid_page i p = p.index == i && leb p.size page_data && p.crc == page_crc p

module _ {F : Type 0} (d : Device F) where
  unfoldable pub write_page : ℕ → List ℕ → Journal F → Bool × Journal F
  write_page magic bytes j =
      let page = new_page magic j.next bytes in
      let offset = j.next * page_bytes in
      let written = d.program offset page j.flash in
      let j1 = record j { flash = written.1 } in
      if leb page_count j.next || ltb page_data (length bytes)
      then (false, j)
      else if not written.0
      then (false, j1)
      else if not (same_page page (d.read offset j1.flash))
      then (false, j1)
      else (true, record j1 { next = (j.next + 1) % 2 ^ 12 })

  unfoldable pub begin : Journal F → Bool × Journal F
  begin j =
      let erased = d.erase j.flash in
      let started =
        write_page start_magic [] (record { next = 0; active = false; flash = erased.1 }) in
      if not erased.0
      then (false, record { next = 0; active = false; flash = erased.1 })
      else if not started.0
      then (false, started.1)
      else (true, record started.1 { active = true })

  -- The loop of `report_store_append`; a round takes a byte at least, so the length of the text is
  -- enough fuel.
  unfoldable pub append_loop : ℕ → List ℕ → Journal F → Bool × Journal F
  append_loop zero bytes j = (true, j)
  append_loop (suc fuel) bytes j =
      let chunk = if ltb page_data (length bytes) then page_data else length bytes in
      let written = write_page data_magic (take chunk bytes) j in
      let rest = append_loop fuel (drop chunk bytes) written.1 in
      if length bytes == 0
      then (true, j)
      else if leb (page_count - 1) j.next
      then (false, record j { active = false })
      else if not written.0
      then (false, record written.1 { active = false })
      else rest

  unfoldable pub append : List ℕ → Journal F → Bool × Journal F
  append bytes j = if not j.active then (false, j) else append_loop (length bytes) bytes j

  unfoldable pub finish : Journal F → Bool × Journal F
  finish j =
      let written = write_page end_magic [] j in
      if not j.active then (false, j) else (written.0, record written.1 { active = false })

  -- The rounds of `report_store_replay` behind the first: whether the run is complete, and its text.
  unfoldable pub replay_pages : ℕ → ℕ → F → Bool × List (List ℕ)
  replay_pages zero i f = (false, [])
  replay_pages (suc left) i f =
      let page = d.read (i * page_bytes) f in
      let rest = replay_pages left (i + 1) f in
      if not (valid_page i page)
      then (false, [])
      else if page.magic == end_magic && page.size == 0
      then (true, [])
      else if page.magic /= data_magic || page.size == 0
      then (false, [])
      else (rest.0, take page.size page.contents ∷ rest.1)

  abbrev pub texts : List (List ℕ) → List Emitted
  texts [] = []
  texts (c ∷ cs) = Emitted.text c ∷ texts cs

  unfoldable pub replay : F → List Emitted
  replay f =
      let page = d.read 0 f in
      let found = replay_pages (page_count - 1) 1 f in
      if not (valid_page 0 page) || page.magic /= start_magic || page.size /= 0
      then Emitted.no_run ∷ []
      else Emitted.saved_run
        ∷ (texts found.1
            ++ (if found.0 then Emitted.complete else Emitted.incomplete) ∷ Emitted.end_of_run ∷ [])
