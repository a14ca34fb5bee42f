-- ===== src/RunReport/Tests.antt =====
-- The queues at a report with an empty ring and no text.
use inf2004_aai19_embedded_s.Common.{
  ℕ, ◌≡◌, refl, true, false, ◌||◌, List, [], ◌∷◌, ◌++◌, replicate, length-replicate, ltb, leb,
  if◌then◌else◌, arith,
}
use inf2004_aai19_embedded_s.RunReport.{
  report_capacity, usb_queue_capacity, line_size, Report, keep_line, show_line, report_flush_usb,
}
use inf2004_aai19_embedded_s.RunReport.Queue.{
  IsSized, waiting, unsaved, shown_text, show_line_lem, report_flush_usb_order, keep_line_lem,
}

abbrev fresh : Report ℕ
fresh = record {
  pending = replicate report_capacity 0;
  pending_length = 0;
  usb_queue = replicate usb_queue_capacity 0;
  usb_head = 4095;
  usb_length = 0;
  usb_overflow = false;
  active = true;
  failed = false;
  closed = false;
  journal = record { next = 1; active = true; flash = 0 };
  shown = [];
}

fresh-IsSized : IsSized fresh
fresh-IsSized = omega (
  arith,
  length-replicate {A = ℕ} report_capacity 0,
  length-replicate {A = ℕ} usb_queue_capacity 0,
)

abbrev greeting : List ℕ
greeting = 0x48 ∷ 0x69 ∷ 0x0A ∷ []

show_line_lem_example :
    (waiting (show_line greeting fresh)
      ≡ (if leb 3 usb_queue_capacity then waiting fresh ++ greeting else waiting fresh))
    × ((show_line greeting fresh).usb_overflow ≡ (if leb 3 usb_queue_capacity then false else true))
    × IsSized (show_line greeting fresh)
show_line_lem_example = show_line_lem greeting fresh fresh-IsSized

report_flush_usb_order_example :
    let r = show_line greeting fresh in
    (shown_text (report_flush_usb true r).shown ++ waiting (report_flush_usb true r)
      ≡ shown_text r.shown ++ waiting r)
    × IsSized (report_flush_usb true r)
report_flush_usb_order_example =
    report_flush_usb_order (show_line greeting fresh) (show_line_lem greeting fresh fresh-IsSized).2

keep_line_lem_example :
    ((keep_line greeting 3 fresh).failed ≡ (false || leb line_size 3 || ltb report_capacity 3))
    × (unsaved (keep_line greeting 3 fresh) ≡ (
        if (keep_line greeting 3 fresh).failed then unsaved fresh else unsaved fresh ++ greeting))
    × IsSized (keep_line greeting 3 fresh)
keep_line_lem_example = keep_line_lem greeting 3 fresh fresh-IsSized refl
