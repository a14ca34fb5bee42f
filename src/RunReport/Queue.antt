-- ===== src/RunReport/Queue.antt =====
-- The two queues of run_report.c: the ring of the display, and the text for the next checkpoint.
use inf2004_aai19_embedded_s.Common.{
  ℕ, zero, suc, ◌+◌, ◌-◌, ◌%◌, ◌≤◌, ◌<◌, ◌≡◌, refl, sym, ap, ap₂, ◌∙◌, Bool, true, false, ◌||◌,
  List, [], ◌∷◌, ◌++◌, length, get_or, set, take, splice, u16, ltb, leb, ◌==◌, if◌then◌else◌, arith,
  append_assoc, append-nil, length-set, take-splice, length-splice, get_or-set_self, get_or-set_ne,
}
use inf2004_aai19_embedded_s.RunReport.{
  report_capacity, usb_queue_capacity, line_size, Shown, Report, enqueue, dequeue, keep_line,
  show_line, report_flush_usb,
}

module _ {F : Type 0} where
  pub record IsSized (r : Report F) : Type 0 where
    pub pending_size : length r.pending ≡ report_capacity
    pub pending_fits : r.pending_length ≤ report_capacity
    pub queue_size : length r.usb_queue ≡ usb_queue_capacity
    pub queue_fits : r.usb_length ≤ usb_queue_capacity
    pub head_in : r.usb_head < usb_queue_capacity

  -- The text waiting for the display, and the text waiting for the journal.
  abbrev pub waiting : Report F → List ℕ
  waiting r = dequeue r.usb_queue r.usb_head r.usb_length 0

  abbrev pub unsaved : Report F → List ℕ
  unsaved r = take r.pending_length r.pending

-- The place behind those that are taken does not matter.
dequeue-set :
    (q : List ℕ) (head n i m x : ℕ)
    → i + n ≤ m
    → m < usb_queue_capacity
    → dequeue (set q ((head + m) % usb_queue_capacity) x) head n i ≡ dequeue q head n i
unfolding dequeue
dequeue-set q head zero i m x h l = refl
dequeue-set q head (suc n) i m x h l =
    ap₂ (λ a t. a ∷ t)
      (get_or-set_ne q ((head + m) % usb_queue_capacity) ((head + i) % usb_queue_capacity) x 0
        (λ e. omega arith))
      (dequeue-set q head n (i + 1) m x (omega arith) l)

dequeue-snoc :
    (q : List ℕ) (head n i m : ℕ)
    → m ≡ i + n
    → dequeue q head (suc n) i
      ≡ dequeue q head n i ++ get_or q ((head + m) % usb_queue_capacity) 0 ∷ []
unfolding dequeue
dequeue-snoc q head zero i m e =
    ap (λ k. get_or q ((head + k) % usb_queue_capacity) 0 ∷ []) {x = i} {y = m} (omega arith)
dequeue-snoc q head (suc n) i m e =
    ap (λ t. get_or q ((head + i) % usb_queue_capacity) 0 ∷ t)
      (dequeue-snoc q head n (i + 1) m (omega arith))

-- One character more in the ring.
dequeue-put :
    (q : List ℕ) (head n x : ℕ)
    → length q ≡ usb_queue_capacity
    → n < usb_queue_capacity
    → dequeue (set q ((head + n) % usb_queue_capacity) x) head (suc n) 0
      ≡ dequeue q head n 0 ++ x ∷ []
dequeue-put q head n x l h =
    dequeue-snoc (set q ((head + n) % usb_queue_capacity) x) head n 0 n (omega arith)
    ∙ ap₂ (λ t a. t ++ a ∷ []) (dequeue-set q head n 0 n x (omega arith) h)
        (get_or-set_self q ((head + n) % usb_queue_capacity) x 0 (omega arith))

enqueue-waiting :
    (xs q : List ℕ) (head start m i n : ℕ)
    → start ≡ head + m
    → n ≡ m + i + length xs
    → length q ≡ usb_queue_capacity
    → n ≤ usb_queue_capacity
    → dequeue (enqueue q start i xs) head n 0 ≡ dequeue q head (m + i) 0 ++ xs
unfolding enqueue
enqueue-waiting [] q head start m i n e f l h =
    ap (λ k. dequeue q head k 0) {x = n} {y = m + i} (omega arith)
    ∙ sym (append-nil (dequeue q head (m + i) 0))
enqueue-waiting (x ∷ xs) q head start m i n e f l h =
    let p = (start + i) % usb_queue_capacity in
    let q1 = set q p x in
    let place : p ≡ (head + (m + i)) % usb_queue_capacity = omega arith in
    let more : m + (i + 1) ≡ suc (m + i) = omega arith in
    let put = dequeue-put q head (m + i) x l (omega arith) in
    enqueue-waiting xs q1 head start m (i + 1) n e (omega arith) (length-set q p x ∙ l) h
    ∙ ap (λ t. t ++ xs)
        (ap (λ k. dequeue q1 head k 0) more
          ∙ ap (λ k. dequeue (set q k x) head (suc (m + i)) 0) place
          ∙ put)
    ∙ append_assoc (dequeue q head (m + i) 0) (x ∷ []) xs

-- Taking `n` of `t` leaves the rest, in order.
dequeue-split :
    (q : List ℕ) (head n m t i j : ℕ)
    → j ≡ i + n
    → t ≡ n + m
    → dequeue q head t i ≡ dequeue q head n i ++ dequeue q head m j
unfolding dequeue
dequeue-split q head zero m t i j e f =
    ap₂ (dequeue q head) {x = t} {y = m} (omega arith) (omega arith)
dequeue-split q head (suc n) m zero i j e f = absurd (omega arith)
dequeue-split q head (suc n) m (suc t) i j e f =
    ap (λ l. get_or q ((head + i) % usb_queue_capacity) 0 ∷ l)
      (dequeue-split q head n m t (i + 1) j (omega arith) (omega arith))

-- A new head is the same as an offset.
dequeue-head :
    (q : List ℕ) (head k n i : ℕ)
    → dequeue q ((head + k) % usb_queue_capacity) n i ≡ dequeue q head n (k + i)
unfolding dequeue
dequeue-head q head k zero i = refl
dequeue-head q head k (suc n) i =
    ap₂ (λ p t. get_or q p 0 ∷ t) (omega arith)
      (dequeue-head q head k n (i + 1)
        ∙ ap (dequeue q head n) {x = k + (i + 1)} {y = k + i + 1} (omega arith))

-- The text that the display has shown, the oldest first.
abbrev pub shown_text : List Shown → List ℕ
shown_text [] = []
shown_text (Shown.line t ∷ ss) = shown_text ss ++ t
shown_text (Shown.queue_full ∷ ss) = shown_text ss

length-enqueue : (xs q : List ℕ) (start i : ℕ) → length (enqueue q start i xs) ≡ length q
unfolding enqueue
length-enqueue [] q start i = refl
length-enqueue (x ∷ xs) q start i =
    length-enqueue xs (set q ((start + i) % usb_queue_capacity) x) start (i + 1)
    ∙ length-set q ((start + i) % usb_queue_capacity) x

shown_text-overflow :
    (o : Bool) (ss : List Shown)
    → shown_text (if o then Shown.queue_full ∷ ss else ss) ≡ shown_text ss
shown_text-overflow true ss = refl
shown_text-overflow false ss = refl

shown_text-printed :
    (q : List ℕ) (head n : ℕ) (ss : List Shown)
    → shown_text (if n == 0 then ss else Shown.line (dequeue q head n 0) ∷ ss)
      ≡ shown_text ss ++ dequeue q head n 0
unfolding dequeue
shown_text-printed q head zero ss = sym (append-nil (shown_text ss))
shown_text-printed q head (suc n) ss = ground arith

module _ {F : Type 0} where
  -- A line that the ring has room for is queued behind what waits; a line that it has no room for is
  -- dropped as a whole, and the overflow is noted. The sizes stay right.
  pub show_line_lem :
      (cut : List ℕ) (r : Report F)
      → IsSized r
      → (waiting (show_line cut r) ≡ (
          if leb (r.usb_length + length cut) usb_queue_capacity
          then waiting r ++ cut
          else waiting r))
        × ((show_line cut r).usb_overflow
            ≡ (if leb (r.usb_length + length cut) usb_queue_capacity then r.usb_overflow else true))
        × IsSized (show_line cut r)
  unfolding show_line
  show_line_lem cut r s =
      let queued =
        enqueue-waiting cut r.usb_queue r.usb_head (r.usb_head + r.usb_length) r.usb_length 0 in
      let start : dequeue r.usb_queue r.usb_head (r.usb_length + 0) 0 ≡ waiting r =
        ap (λ k. dequeue r.usb_queue r.usb_head k 0) {x = r.usb_length + 0} {y = r.usb_length}
          (omega arith) in
      ground (
        arith,
        queued (u16 (r.usb_length + length cut)) refl,
        ap (λ t. t ++ cut) start,
        length-enqueue cut r.usb_queue (r.usb_head + r.usb_length) 0,
      )

  -- A flush of the display with USB connected moves text from the ring to the display: what has been
  -- shown, followed by what waits, stays the same. The sizes stay right.
  pub report_flush_usb_order :
      (r : Report F)
      → IsSized r
      → (shown_text (report_flush_usb true r).shown ++ waiting (report_flush_usb true r)
          ≡ shown_text r.shown ++ waiting r)
        × IsSized (report_flush_usb true r)
  unfolding report_flush_usb
  report_flush_usb_order r s =
      let n = if ltb line_size r.usb_length then line_size else r.usb_length in
      let m = r.usb_length - n in
      let printed =
        if n == 0 then r.shown else Shown.line (dequeue r.usb_queue r.usb_head n 0) ∷ r.shown in
      let rest : dequeue r.usb_queue ((r.usb_head + n) % usb_queue_capacity) m 0
          ≡ dequeue r.usb_queue r.usb_head m n =
        dequeue-head r.usb_queue r.usb_head n m 0
        ∙ ap (dequeue r.usb_queue r.usb_head m) {x = n + 0} {y = n} (omega arith) in
      (
        ap₂ (λ a b. a ++ b)
              (shown_text-overflow r.usb_overflow printed
                ∙ shown_text-printed r.usb_queue r.usb_head n r.shown)
              rest
            ∙ append_assoc (shown_text r.shown) (dequeue r.usb_queue r.usb_head n 0)
                (dequeue r.usb_queue r.usb_head m n)
            ∙ ap (λ t. shown_text r.shown ++ t)
                (sym (
                  dequeue-split r.usb_queue r.usb_head n m r.usb_length 0 n (omega arith)
                    (ground arith))),
        ground arith,
      )

  -- A line for the journal is appended to the unsaved text or marks the report as failed, unless the
  -- report is closed; a failed report stays failed. The sizes stay right.
  pub keep_line_lem :
      (cut : List ℕ) (written : ℕ) (r : Report F)
      → IsSized r
      → r.closed ≡ false
      → ((keep_line cut written r).failed ≡ (
          r.failed || leb line_size written || ltb report_capacity (r.pending_length + length cut)))
        × (unsaved (keep_line cut written r)
            ≡ (if (keep_line cut written r).failed then unsaved r else unsaved r ++ cut))
        × IsSized (keep_line cut written r)
  unfolding keep_line
  keep_line_lem cut written r s c = ground (
    arith,
    take-splice r.pending r.pending_length cut,
    length-splice r.pending r.pending_length cut,
    ap (λ n. take n (splice r.pending r.pending_length cut))
        {x = u16 (r.pending_length + length cut)} {y = r.pending_length + length cut},
  )
