-- ===== src/RunReport.antt =====
-- getting_there/run_report.c: the text of a run on its way to the journal and to the USB display.
-- `pending` holds text for the next checkpoint; `usb_queue` is a ring for the display, which may
-- drop text. Every access runs in the critical section of `report_lock`, so each is one step. The
-- journal behind it is `Journal`, over a device that is a parameter.
pub mod Queue
mod Tests
use inf2004_aai19_embedded_s.Common.{
  ℕ, zero, suc, ◌+◌, ◌-◌, ◌^◌, ◌%◌, Bool, true, false, ◌&&◌, ◌||◌, not, List, [], ◌∷◌, length,
  get_or, set, take, splice, replicate, u16, ltb, leb, ◌==◌, if◌then◌else◌,
}
use inf2004_aai19_embedded_s.Journal.{Device, Journal, begin, append, finish}

abbrev pub report_capacity : ℕ
report_capacity = 32768

abbrev pub usb_queue_capacity : ℕ
usb_queue_capacity = 4096

abbrev pub line_size : ℕ
line_size = 512

-- What is written to the display.
pub data Shown : Type 0 where
  line : List ℕ → Shown
  queue_full : Shown

pub record Report (F : Type 0) : Type 0 where
  pub pending : List ℕ
  pub pending_length : ℕ
  pub usb_queue : List ℕ
  pub usb_head : ℕ
  pub usb_length : ℕ
  pub usb_overflow : Bool
  pub active : Bool
  pub failed : Bool
  pub closed : Bool
  pub journal : Journal F
  pub shown : List Shown

-- The loop that queues a line for the display: `i` characters are done.
unfoldable pub enqueue : List ℕ → ℕ → ℕ → List ℕ → List ℕ
enqueue queue start i [] = queue
enqueue queue start i (x ∷ xs) =
    enqueue (set queue ((start + i) % usb_queue_capacity) x) start (i + 1) xs

-- The loop that takes `left` characters from the ring.
unfoldable pub dequeue : List ℕ → ℕ → ℕ → ℕ → List ℕ
dequeue queue head zero i = []
dequeue queue head (suc left) i =
    get_or queue ((head + i) % usb_queue_capacity) 0 ∷ dequeue queue head left (i + 1)

module _ {F : Type 0} where
  unfoldable pub report_init : Report F → Report F
  report_init r = record r {
    pending_length = 0;
    usb_head = 0;
    usb_length = 0;
    usb_overflow = false;
    active = false;
    failed = false;
    closed = false;
  }

  -- The part of `report_format` for the journal, on what `vsnprintf` stored and would have stored.
  unfoldable pub keep_line : List ℕ → ℕ → Report F → Report F
  keep_line cut written r =
      let n = length cut in
      if r.closed
      then r
      else if leb line_size written || ltb report_capacity (r.pending_length + n)
      then record r { failed = true }
      else if r.failed
      then r
      else record r {
        pending = splice r.pending r.pending_length cut;
        pending_length = u16 (r.pending_length + n);
      }

  -- The part for the display.
  unfoldable pub show_line : List ℕ → Report F → Report F
  show_line cut r =
      let n = length cut in
      if leb n (usb_queue_capacity - r.usb_length)
      then record r {
        usb_queue = enqueue r.usb_queue (r.usb_head + r.usb_length) 0 cut;
        usb_length = u16 (r.usb_length + n);
      }
      else record r { usb_overflow = true }

  -- `connected` is `stdio_usb_connected()`.
  unfoldable pub report_flush_usb : Bool → Report F → Report F
  report_flush_usb connected r =
      let n = if ltb line_size r.usb_length then line_size else r.usb_length in
      let printed =
        if n == 0 then r.shown else Shown.line (dequeue r.usb_queue r.usb_head n 0) ∷ r.shown in
      if not connected
      then record r { usb_head = 0; usb_length = 0; usb_overflow = false }
      else record r {
        usb_head = (r.usb_head + n) % usb_queue_capacity;
        usb_length = r.usb_length - n;
        usb_overflow = false;
        shown = if r.usb_overflow then Shown.queue_full ∷ printed else printed;
      }

  -- `formatted` is the whole line, which `vsnprintf` cuts to the buffer.
  unfoldable pub report_format : Bool → Bool → List ℕ → Report F → Report F
  report_format defer_usb connected formatted r =
      let cut = take (line_size - 1) formatted in
      let r1 = show_line cut (keep_line cut (length formatted) r) in
      if length formatted == 0
      then r
      else if not defer_usb
      then report_flush_usb connected r1
      else r1

  unfoldable pub report_ok : Report F → Bool
  report_ok r = not r.failed

  module _ (d : Device F) (connected : Bool) where
    unfoldable pub report_checkpoint : Report F → Bool × Report F
    report_checkpoint r =
        let r1 = report_flush_usb connected r in
        let text = take r1.pending_length r1.pending in
        let saved = append d text r1.journal in
        let r2 = record r1 { pending_length = 0 } in
        let r3 =
          if r1.pending_length == 0
          then r2
          else if saved.0
          then record r2 { journal = saved.1 }
          else record r2 { journal = saved.1; failed = true } in
        if not r1.active then (not r1.failed, r1) else (not r3.failed, r3)

    unfoldable pub report_begin : Report F → Bool × Report F
    report_begin r =
        let begun = begin d r.journal in
        report_checkpoint
          (record r { journal = begun.1; active = begun.0; failed = r.failed || not begun.0 })

    unfoldable pub report_finish : Report F → Bool × Report F
    report_finish r =
        let checked = report_checkpoint (record r { closed = true }) in
        let r1 = checked.1 in
        let done = finish d r1.journal in
        let r2 =
          if not checked.0
          then record r1 { failed = true }
          else if done.0
          then record r1 { journal = done.1 }
          else record r1 { journal = done.1; failed = true } in
        (not r2.failed, record r2 { active = false })
