-- ===== src/Sampler/Sequence.antt =====
-- getting_there/wifi_sampler.c: waiting for the open scan, starting the next one, and the five scans of a
-- sample in their order.
use inf2004_aai19_embedded_s.Common.{
  ℕ, zero, suc, ◌≡◌, refl, sym, ap, ◌∙◌, Bool, true, false, not, ◌||◌, ltb, leb, ◌&&◌,
  if◌then◌else◌, length, ◌⊎◌, inl, inr,
}
use inf2004_aai19_embedded_s.Common.Int.{ℤ, pos, negsuc}
use inf2004_aai19_embedded_s.Faults.{Fault}
use inf2004_aai19_embedded_s.Sampler.{
  Call, Radio, scan_timeout_ms, scan_start_limit_ms, wifi_record_capacity,
}
use inf2004_aai19_embedded_s.Sampler.Operations.{
  Outcome, since, after_start, open_scan, sampler_begin, quiesce_loop, collect_and_flush,
  wifi_sampler_quiesce,
}
use inf2004_aai19_embedded_s.Sampler.Views.{
  View, Frames-ask, Frames-if, Frames-pure, Frames-modify, Ensures, Ensures-pure, Ensures-if,
  Ensures-bind, Frames-then, Keeps-then, Ensures-weaken, Frames-Ensures, Ensures-gets,
  Ensures-modify,
}
use inf2004_aai19_embedded_s.Sampler.Sampling.{
  closed, flushed, settled, opened, OnDone, Ensures-after, false_right, give_up_lem, collect_lem,
  flush_lem, deliver-Frames, active-Frames,
}

false_left : (a b : Bool) → (a || b) ≡ false → a ≡ false
false_left true b h = h
false_left false b h = refl

pub going_on : (going : Bool) → not going ≡ false → going ≡ true
going_on true h = refl
going_on false h = cc

pub OnDone-map :
    {A : Type 0} (Q R : A → View → Type 0) {v w : View} (o : Outcome A)
    → ((a : A) → Q a v → R a w)
    → OnDone Q o v
    → OnDone R o w
OnDone-map Q R (Outcome.done a) f q = f a q
OnDone-map Q R Outcome.refused f q = tt
OnDone-map Q R Outcome.unending f q = tt

-- Reporting what a collection left settles the scans.
settle :
    (v : View) {w x : View}
    → (w ≡ v) ⊎ ((v.open_now ≡ true) × (w ≡ closed v.current v))
    → w.open_now ≡ false
    → x ≡ flushed w
    → x ≡ settled v
settle v (inl e) shut h =
    h
    ∙ ap flushed e
    ∙ ap (λ b. flushed (if b then closed v.current v else v))
        (sym (sym (ap (λ (u : View). u.open_now) e) ∙ shut))
settle v (inr (o, e)) shut h =
    h ∙ ap flushed e ∙ ap (λ b. flushed (if b then closed v.current v else v)) (sym o)

abbrev failing : View → View
failing v = record v { open_now = false; failed = true }

module _ {W : Type 0} (radio : Radio W) where
  quiesce_loop_lem :
      (v : View) (polls : ℕ) → Ensures v (quiesce_loop radio polls) (OnDone (λ u w. w ≡ v))
  unfolding quiesce_loop
  quiesce_loop_lem v zero = Ensures-pure Outcome.unending tt
  quiesce_loop_lem v (suc polls) =
      Ensures-gets (λ s. s) _
        (λ s e.
          Frames-then (Frames-if s.scan_open _ _ (active-Frames radio) (Frames-pure false))
            (λ active.
              Ensures-if (not active) (λ a. Ensures-pure (Outcome.done tt) refl)
                (λ a. Frames-then (Frames-ask radio Call.can_continue) (λ going.
                  Frames-then (Frames-if going _ _ (Frames-ask radio Call.now_ms) (Frames-pure 0))
                    (λ now.
                      Ensures-if (not going || leb scan_timeout_ms (since now s.scan_started_ms))
                        (λ late. Frames-then (Frames-modify _ (λ t. refl)) (λ u.
                          Ensures-modify _ _ (λ v. record v { failed = true }) (λ t. refl)
                            (Ensures-pure Outcome.refused tt)))
                        (λ early. Frames-then (Frames-ask radio Call.sleep) (λ results.
                          Frames-then (deliver-Frames radio results)
                            (λ u. quiesce_loop_lem v polls))))))))

  collect_and_flush_lem :
      (v : View) → Ensures v (collect_and_flush radio) (OnDone (λ u w. w ≡ settled v))
  unfolding collect_and_flush
  collect_and_flush_lem v = Ensures-bind (collect_lem radio v) (λ collected w q.
      Ensures-bind {Q = λ b x. b ≡ true → x ≡ settled v}
        (Ensures-if collected
          (λ c. Ensures-weaken (flush_lem radio w) (λ b x p h. settle v (q c) (p h).0 (p h).1))
          (λ c. Ensures-pure false (λ h. cc)))
        (λ b x g. Ensures-pure _ (conclude b x g)))
    where
      conclude :
          (b : Bool) (x : View)
          → (b ≡ true → x ≡ settled v)
          → OnDone (λ u w. w ≡ settled v) (if b then Outcome.done tt else Outcome.refused) x
      conclude true x g = g refl
      conclude false x g = tt

  pub quiesce_lem :
      (v : View)
      → Ensures v
          (wifi_sampler_quiesce radio)
          (OnDone (λ u w. (v.failed ≡ false) × (w ≡ settled v)))
  unfolding wifi_sampler_quiesce
  quiesce_lem v = Frames-then (Frames-ask radio Call.motion_stop) (λ u.
      Ensures-gets (λ s. s.sampler_failed) _
        (λ s e.
          Ensures-if s.sampler_failed (λ f. Ensures-pure Outcome.refused tt)
            (λ f. Ensures-after (quiesce_loop_lem v radio.polls) (λ u w same.
              Ensures-weaken (collect_and_flush_lem w) (λ o x.
                OnDone-map _ _ o
                  (λ a h. (sym (ap (λ (u : View). u.failed) e) ∙ f, h ∙ ap settled same)))))))

  after_start_lem :
      (v : View) (moving : Bool) (elapsed : ℕ) (error : ℤ)
      → Ensures v (after_start radio moving elapsed error) (λ b w. b ≡ true → w ≡ v)
  unfolding after_start
  after_start_lem v moving elapsed (pos zero) =
      Ensures-if (moving && ltb scan_start_limit_ms elapsed)
        (λ h. Frames-then (Frames-modify _ (λ t. refl)) (λ u.
          Frames-then (Frames-ask radio Call.motion_stop) (λ u. Ensures-pure true (λ h. refl))))
        (λ h. Ensures-pure true (λ h. refl))
  after_start_lem v moving elapsed (pos (suc n)) =
      Ensures-modify _ _ failing (λ t. refl) (give_up_lem radio Fault.wifi_scan)
  after_start_lem v moving elapsed (negsuc n) =
      Ensures-modify _ _ failing (λ t. refl) (give_up_lem radio Fault.wifi_scan)

  pub begin_lem :
      (v : View) (moving : Bool)
      → Ensures v
          (sampler_begin radio moving)
          (λ b w. b ≡ true → (v.open_now ≡ false) × (v.failed ≡ false) × (w ≡ opened v))
  unfolding sampler_begin open_scan
  begin_lem v moving =
      Ensures-gets (λ s. s) _
        (λ s e.
          Keeps-then {T = λ g. g ≡ true → (v.open_now ≡ false) × (v.failed ≡ false)}
            (Ensures-if (s.sampler_failed || s.scan_open) (λ h. Ensures-pure false (refl, λ f. cc))
              (λ h. Frames-Ensures (Frames-ask radio Call.can_continue) (λ a f. (
                sym (ap (λ (u : View). u.open_now) e) ∙ false_right s.sampler_failed h,
                sym (ap (λ (u : View). u.failed) e) ∙ false_left s.sampler_failed s.scan_open h,
              ))))
            (λ going clear.
              Ensures-if (not going) (λ n. Ensures-pure false (λ h. cc))
                (λ n.
                  Ensures-if (leb wifi_record_capacity (length s.records))
                    (λ full. give_up_lem radio Fault.profile)
                    (λ room. Frames-then (Frames-ask radio Call.now_ms) (λ now.
                      Ensures-modify _ _ opened (λ t. refl)
                        (Frames-then (Frames-ask radio Call.start_scan) (λ error.
                          Frames-then (Frames-ask radio Call.now_ms) (λ later.
                            Frames-then (Frames-modify _ (λ t. refl)) (λ u.
                              Ensures-weaken (after_start_lem (opened v) moving _ error) (λ b w q h.
                                (
                                  (clear (going_on going n)).0,
                                  (clear (going_on going n)).1,
                                  q h,
                                )))))))))))
