-- ===== src/Sampler/Sampling.antt =====
-- getting_there/wifi_sampler.c: what collecting an ended scan and reporting the records do to the scans.
use inf2004_aai19_embedded_s.Common.{
  ℕ, ◌+◌, ◌≡◌, refl, sym, ap, ◌∙◌, Bool, true, false, ◌||◌, List, [], ◌∷◌, ◌++◌, u32, leb, ◌==◌,
  if◌then◌else◌, length, ◌⊎◌, inl, inr,
}
use inf2004_aai19_embedded_s.Faults.{Fault}
use inf2004_aai19_embedded_s.Sampler.{WifiRecord, ScanResult, Call, Radio, M, ask, ◌>>=◌}
use inf2004_aai19_embedded_s.Sampler.Operations.{
  Outcome, after, sampler_position, sampler_result, deliver, scan_is_active, give_up, judge_window,
  note_moving, finished_scan, record_scan, sampler_collect, sampler_flush,
}
use inf2004_aai19_embedded_s.Sampler.Views.{
  View, ids, view, Frames, frame_rules, Frames-bind, Frames-ask, Frames-if, Frames-pure,
  Frames-modify, Ensures, Ensures-pure, Ensures-if, Ensures-bind, Frames-then, Keeps-then,
  Ensures-weaken, Frames-Ensures, Ensures-gets, Ensures-modify,
}

module _ {W : Type 0} (radio : Radio W) where
  position-Frames : Frames (sampler_position radio)
  unfolding sampler_position
  position-Frames = search frame_rules depth 20 fits 4000

  result-Frames : (r : ScanResult) → Frames (sampler_result radio r)
  unfolding sampler_result
  result-Frames r = search (frame_rules, position-Frames) depth 20 fits 4000

  pub deliver-Frames : (rs : List ScanResult) → Frames (deliver radio rs)
  unfolding deliver
  deliver-Frames [] = search frame_rules
  deliver-Frames (r ∷ rs) = Frames-bind _ _ (result-Frames r) (λ u. deliver-Frames rs)

  pub active-Frames : Frames (scan_is_active radio)
  unfolding scan_is_active
  active-Frames =
      Frames-bind _ _ (Frames-ask radio Call.scan_active)
        (λ a. Frames-bind _ _ (deliver-Frames a.1) (λ u. Frames-pure a.0))

  stop-Frames : Frames {A = Unit {0}} (ask radio Call.motion_stop)
  stop-Frames = Frames-ask radio Call.motion_stop

  judge_window-Frames : Frames (judge_window radio)
  unfolding judge_window
  judge_window-Frames = search frame_rules depth 20 fits 4000

  note_moving-Frames : (scan : WifiRecord) → Frames (note_moving radio scan)
  unfolding note_moving
  note_moving-Frames scan =
      search (frame_rules, judge_window-Frames, stop-Frames) depth 20 fits 4000

  finished_scan-Frames : Frames (finished_scan radio)
  unfolding finished_scan
  finished_scan-Frames = search (frame_rules, position-Frames) depth 20 fits 4000

-- The open scan ends and waits to be reported.
abbrev pub closed : ℕ → View → View
closed i v = record v { open_now = false; waiting = i ∷ v.waiting }

abbrev pub flushed : View → View
flushed v = record v { waiting = []; told = v.waiting ++ v.told }

-- The radio at rest: an open scan has ended, and all scans are reported.
abbrev pub settled : View → View
settled v = flushed (if v.open_now then closed v.current v else v)

abbrev pub opened : View → View
opened v = record v { open_now = true; last = u32 (v.last + 1); current = u32 (v.last + 1) }

-- What holds of an end.
abbrev pub OnDone : {A : Type 0} → (A → View → Type 0) → Outcome A → View → Type 0
OnDone Q (Outcome.done a) w = Q a w
OnDone Q _ w = Unit

module _ {W A B : Type 0} {v : View} {Q : A → View → Type 0} {R : B → View → Type 0} where
  pub Ensures-after :
      {m : M W (Outcome A)} {f : A → M W (Outcome B)}
      → Ensures v m (OnDone Q)
      → ((a : A) (w : View) → Q a w → Ensures w (f a) (OnDone R))
      → Ensures v (m >>= λ o. after o f) (OnDone R)
  Ensures-after {f = f} k l = Ensures-bind k (λ o w. after_lem o w)
    where
      after_lem : (o : Outcome A) (w : View) → OnDone Q o w → Ensures w (after o f) (OnDone R)
      after_lem (Outcome.done a) w q = l a w q
      after_lem Outcome.refused w q = Ensures-pure Outcome.refused tt
      after_lem Outcome.unending w q = Ensures-pure Outcome.unending tt

ids_append : (rs qs : List WifiRecord) → ids (rs ++ qs) ≡ ids rs ++ ids qs
ids_append [] qs = refl
ids_append (r ∷ rs) qs = ap (λ l. r.scan_id ∷ l) (ids_append rs qs)

pub false_right : (a : Bool) {b : Bool} → (a || b) ≡ false → b ≡ false
false_right true h = cc
false_right false h = h

module _ {W : Type 0} (radio : Radio W) where
  pub give_up_lem :
      {v : View} {P : View → Type 0} (fault : Fault)
      → Ensures v (give_up radio fault) (λ b w. b ≡ true → P w)
  unfolding give_up ◌>>=◌ ask
  give_up_lem fault = record { at = λ s e h. cc }

  finished_scan_lem :
      (v : View) → Ensures v (finished_scan radio) (λ r w. (w ≡ v) × (r.scan_id ≡ v.current))
  unfolding finished_scan
  finished_scan_lem v =
      Ensures-gets (λ s. s) _
        (λ s e.
          Ensures-if (s.pending.code == 127)
            (λ m. Frames-then (Frames-ask radio Call.now_ms) (λ wall.
              Frames-then (position-Frames radio) (λ powered.
                Frames-then (Frames-ask radio Call.drive_active)
                  (λ active. Ensures-pure _ (refl, ap (λ (u : View). u.current) e)))))
            (λ m.
              Ensures-if s.identity_locked
                (λ l. Ensures-pure _ (refl, ap (λ (u : View). u.current) e))
                (λ l.
                  Frames-then (Frames-modify _ (λ t. refl))
                    (λ u. Ensures-pure _ (refl, ap (λ (u : View). u.current) e)))))

  record_scan_lem :
      (v : View) (r : WifiRecord)
      → Ensures v (record_scan radio r) (λ b w. b ≡ true → w ≡ closed r.scan_id v)
  unfolding record_scan
  record_scan_lem v r =
      Ensures-gets (λ s. s) _
        (λ s e.
          Ensures-if (leb 64 (length s.records)) (λ full. give_up_lem Fault.profile)
            (λ room.
              Ensures-modify _ _ (closed r.scan_id) (λ t. refl)
                (Frames-then
                  (Frames-if s.moving_scan _ _ (note_moving-Frames radio r) (Frames-pure tt))
                  (λ u. Ensures-pure true (λ h. refl)))))

  -- A collection that succeeds ends the open scan, or there is none, or it is still on.
  pub collect_lem :
      (v : View)
      → Ensures v
          (sampler_collect radio)
          (λ b w. b ≡ true → (w ≡ v) ⊎ ((v.open_now ≡ true) × (w ≡ closed v.current v)))
  unfolding sampler_collect
  collect_lem v =
      Ensures-gets (λ s. s.scan_open) _
        (λ s e.
          Keeps-then {T = λ a. a ≡ false → v.open_now ≡ true}
            (Ensures-if s.scan_open
              (λ o.
                Frames-Ensures (active-Frames radio)
                  (λ a f. sym (ap (λ (u : View). u.open_now) e) ∙ o))
              (λ o. Ensures-pure true (refl, λ f. cc)))
            (λ active opened.
              Ensures-if active (λ a. Ensures-pure true (λ h. inl refl))
                (λ a. Keeps-then (finished_scan_lem v) (λ r same.
                  Ensures-weaken (record_scan_lem v r)
                    (λ b w q h. inr (opened a, q h ∙ ap (λ i. closed i v) same))))))

  pub flush_lem :
      (v : View)
      → Ensures v (sampler_flush radio) (λ b w. b ≡ true → (v.open_now ≡ false) × (w ≡ flushed v))
  unfolding sampler_flush
  flush_lem v = Frames-then (Frames-ask radio Call.drive_active) (λ driving.
      Ensures-gets (λ s. s.scan_open) _
        (λ s e.
          Keeps-then {T = λ a. a ≡ false → v.open_now ≡ false}
            (Ensures-if (driving || s.scan_open) (λ o. Ensures-pure true (refl, λ f. cc))
              (λ o.
                Frames-Ensures (active-Frames radio)
                  (λ a f. sym (ap (λ (u : View). u.open_now) e) ∙ false_right driving o)))
            (λ busy shut.
              Ensures-if busy (λ b. Ensures-pure false (λ h. cc))
                (λ b.
                  Ensures-modify _ _ flushed
                    (λ t.
                      ap (λ l. record (view t) { waiting = []; told = l })
                        (ids_append t.records t.reported))
                    (Ensures-weaken {Q = λ a w. (w ≡ flushed v) × Unit {0}}
                      (Frames-Ensures (Frames-ask radio Call.report_ok) (λ a. tt))
                      (λ a w q h. (shut b, q.0)))))))
