-- ===== src/Sampler/Numbering.antt =====
-- getting_there/wifi_sampler.c: what a quiesce and a sample have reported when they succeed.
use inf2004_aai19_embedded_s.Common.{
  ℕ, zero, suc, ◌+◌, ◌≡◌, refl, sym, ap, ◌∙◌, Bool, true, false, not, List, [], ◌∷◌, ◌++◌, u32, ltb,
  if◌then◌else◌, length, arith, length-append,
}
use inf2004_aai19_embedded_s.LineSearch.{Sample}
use inf2004_aai19_embedded_s.Sampler.{WifiRecord, Call, Radio, Sampler, scans_per_sample}
use inf2004_aai19_embedded_s.Sampler.Operations.{
  Outcome, wifi_sampler_quiesce, sample_loop, finish_sample, wifi_sampler_sample, qualify,
}
use inf2004_aai19_embedded_s.Sampler.Views.{
  View, ids, view, frame_rules, Frames, Frames-ask, Ensures, Ensures-pure, Ensures-if, Ensures-bind,
  Frames-then, Ensures-weaken, Frames-Ensures, Ensures-gets,
}
use inf2004_aai19_embedded_s.Sampler.Sampling.{
  closed, flushed, settled, opened, OnDone, Ensures-after,
}
use inf2004_aai19_embedded_s.Sampler.Sequence.{quiesce_lem, begin_lem, OnDone-map, going_on}

-- No scan is open, none waits to be reported, and the sampler works.
pub record IsAtRest (v : View) : Type 0 where
  pub shut : v.open_now ≡ false
  pub works : v.failed ≡ false
  pub told_all : v.waiting ≡ []

-- The reported scans after `n` more, numbered on from `last`.
abbrev pub numbered : ℕ → ℕ → List ℕ → List ℕ
numbered zero last told = told
numbered (suc n) last told = numbered n (u32 (last + 1)) (u32 (last + 1) ∷ told)

-- The numbers of the scans that are to be reported, newest first.
abbrev pub unreported : {W : Type 0} → Sampler W → List ℕ
unreported s = if s.scan_open then s.pending.scan_id ∷ ids s.records else ids s.records

settled-IsAtRest : (v : View) → v.failed ≡ false → IsAtRest (settled v)
settled-IsAtRest v works = rest_if v.open_now refl
  where
    rest_if : (b : Bool) → v.open_now ≡ b → IsAtRest (flushed (if b then closed v.current v else v))
    rest_if true e = record { shut = refl; works = works; told_all = refl }
    rest_if false e = record { shut = e; works = works; told_all = refl }

scanned_told : (v : View) → IsAtRest v → (settled (opened v)).told ≡ u32 (v.last + 1) ∷ v.told
scanned_told v rest = ap (λ l. u32 (v.last + 1) ∷ (l ++ v.told)) rest.told_all

-- What one more scan and the wait for it do.
record IsNext (v x : View) : Type 0 where
  rests : IsAtRest x
  last_of : x.last ≡ u32 (v.last + 1)
  told_of : x.told ≡ u32 (v.last + 1) ∷ v.told

next_lem :
    {v w x : View} → IsAtRest v → w ≡ opened v → w.failed ≡ false → x ≡ settled w → IsNext v x
next_lem {v} {w} {x} rest e works f = record {
  rests = rw f (settled-IsAtRest w works);
  last_of = ap (λ (u : View). u.last) (f ∙ ap settled e);
  told_of = ap (λ (u : View). u.told) (f ∙ ap settled e) ∙ scanned_told v rest;
}

-- What follows `n` scans.
record Scanned (v : View) (n : ℕ) (readings kept : List ℕ) (w : View) : Type 0 where
  rests : IsAtRest w
  told_of : w.told ≡ numbered n v.last v.told
  many : length kept ≡ n + length readings

Scanned-more :
    {v x y : View} (left : ℕ) (readings : List ℕ) (code : ℕ) {kept : List ℕ}
    → IsNext v x
    → Scanned x left (readings ++ code ∷ []) kept y
    → Scanned v (suc left) readings kept y
Scanned-more {v} {x} left readings code next scanned = record {
  rests = scanned.rests;
  told_of =
      scanned.told_of
      ∙ ap (λ i. numbered left i x.told) next.last_of
      ∙ ap (numbered left (u32 (v.last + 1))) next.told_of;
  many = omega (arith, scanned.many, length-append readings (code ∷ []));
}

settled_last : (v : View) → (settled v).last ≡ v.last
settled_last v = last_if v.open_now
  where
    last_if : (b : Bool) → (flushed (if b then closed v.current v else v)).last ≡ v.last
    last_if true = refl
    last_if false = refl

settled_told :
    (v : View)
    → (settled v).told ≡ (if v.open_now then v.current ∷ v.waiting else v.waiting) ++ v.told
settled_told v = told_if v.open_now
  where
    told_if :
        (b : Bool)
        → (flushed (if b then closed v.current v else v)).told
          ≡ (if b then v.current ∷ v.waiting else v.waiting) ++ v.told
    told_if true = refl
    told_if false = refl

OnDone-always :
    {A : Type 0} (Q : A → View → Type 0) (w : View) (o : Outcome A)
    → ((a : A) → Q a w)
    → OnDone Q o w
OnDone-always Q w (Outcome.done a) q = q a
OnDone-always Q w Outcome.refused q = tt
OnDone-always Q w Outcome.unending q = tt

OnDone-done :
    {A : Type 0} (Q : A → View → Type 0) (w : View) {o p : Outcome A}
    → o ≡ p
    → OnDone Q o w
    → OnDone Q p w
OnDone-done Q w e q = rw (sym e) q

none_waiting : (rs : List WifiRecord) → ids rs ≡ [] → rs ≡ []
none_waiting [] h = refl
none_waiting (r ∷ rs) h = cc

module _ {W : Type 0} (radio : Radio W) where
  scans_lem :
      (v : View) (left : ℕ) (readings : List ℕ)
      → IsAtRest v
      → Ensures v (sample_loop radio left readings) (OnDone (Scanned v left readings))
  unfolding sample_loop
  scans_lem v zero readings rest =
      Ensures-pure (Outcome.done readings)
        (record { rests = rest; told_of = refl; many = omega arith })
  scans_lem v (suc left) readings rest = Ensures-bind (begin_lem radio v false) (λ begun w q.
      Ensures-if (not begun) (λ n. Ensures-pure Outcome.refused tt)
        (λ n. Ensures-after (quiesce_lem radio w) (λ u x h.
          Ensures-gets (λ s. s.pending.code) _
            (λ s e.
              Ensures-weaken
                (scans_lem x left (readings ++ s.pending.code ∷ [])
                  (next_lem rest (q (going_on begun n)).2 h.0 h.1).rests)
                (λ o y. OnDone-map _ _ o (λ kept.
                  Scanned-more left readings s.pending.code
                    (next_lem rest (q (going_on begun n)).2 h.0 h.1)))))))

  qualify_same :
      (readings : List ℕ) (elapsed : ℕ) (s : Sampler W)
      → view (qualify radio readings elapsed s) ≡ view s
  unfolding qualify
  qualify_same readings elapsed s = qualified _
    where
      qualified :
          (b : Bool)
          → view (
              if b
              then record s {
                qualification_windows =
                    if ltb s.qualification_windows 3
                    then s.qualification_windows + 1
                    else s.qualification_windows;
              }
              else record s {
                qualification_windows = 0;
                fallback = if radio.moving_samples then true else s.fallback;
              })
            ≡ view s
      qualified true = refl
      qualified false = refl

  finish-Frames : (start : ℕ) (readings : List ℕ) → Frames (finish_sample radio start readings)
  unfolding finish_sample
  finish-Frames start readings = search (frame_rules, qualify_same) depth 20 fits 4000

  sample_lem :
      (v : View)
      → Ensures v (wifi_sampler_sample radio) (
          OnDone (λ sample w.
            (v.failed ≡ false)
            × IsAtRest w
            × (w.told ≡ numbered scans_per_sample v.last (settled v).told)))
  unfolding wifi_sampler_sample
  sample_lem v = Ensures-after (quiesce_lem radio v) (λ u w h.
      Frames-then (Frames-ask radio Call.now_ms) (λ start.
        Ensures-after (scans_lem w scans_per_sample [] (rw h.1 (settled-IsAtRest v h.0)))
          (λ kept x z.
            Ensures-weaken {Q = λ o y. (y ≡ x) × Unit {0}}
              (Frames-Ensures (finish-Frames start kept) (λ o. tt))
              (λ o y same. OnDone-always _ y o (λ sample. (
                h.0,
                rw same.0 z.rests,
                ap (λ (u : View). u.told) same.0
                    ∙ z.told_of
                    ∙ ap (λ t. numbered scans_per_sample t w.told)
                        (ap (λ (u : View). u.last) h.1 ∙ settled_last v)
                    ∙ ap (λ (u : View). numbered scans_per_sample v.last u.told) h.1,
              ))))))

  -- When `wifi_sampler_quiesce` succeeds, the sampler had not failed and has not, no scan is open, and the
  -- records are empty: the ended scan, if one was open, and the scans that waited have been reported, in
  -- their order.
  pub quiesce_reports_all :
      (s : Sampler W)
      → (wifi_sampler_quiesce radio s).0 ≡ Outcome.done tt
      → let t = (wifi_sampler_quiesce radio s).1 in
        (s.sampler_failed ≡ false)
        × (t.sampler_failed ≡ false)
        × (t.scan_open ≡ false)
        × (t.records ≡ [])
        × (ids t.reported ≡ unreported s ++ ids s.reported)
  quiesce_reports_all s h =
      let q =
        OnDone-done (λ u w. (s.sampler_failed ≡ false) × (w ≡ settled (view s))) _ h
          ((quiesce_lem radio (view s)).at s refl) in
      let rest = settled-IsAtRest (view s) q.0 in
      (
        q.0,
        ap (λ (u : View). u.failed) q.1 ∙ rest.works,
        ap (λ (u : View). u.open_now) q.1 ∙ rest.shut,
        none_waiting _ (ap (λ (u : View). u.waiting) q.1 ∙ rest.told_all),
        ap (λ (u : View). u.told) q.1 ∙ settled_told (view s),
      )

  -- When `wifi_sampler_sample` gives a sample, the sampler has not failed, no scan is open, no record
  -- waits, and the reported scans have grown by those that waited and, after them, by exactly five new
  -- ones, with the next five scan numbers in order.
  pub sample_reports_five :
      (s : Sampler W) (sample : Sample)
      → (wifi_sampler_sample radio s).0 ≡ Outcome.done sample
      → let t = (wifi_sampler_sample radio s).1 in
        (t.sampler_failed ≡ false)
        × (t.scan_open ≡ false)
        × (t.records ≡ [])
        × (ids t.reported ≡ numbered scans_per_sample s.scan_id (unreported s ++ ids s.reported))
  sample_reports_five s sample h =
      let q =
        OnDone-done
          (λ _ w.
            (s.sampler_failed ≡ false)
            × IsAtRest w
            × (w.told ≡ numbered scans_per_sample s.scan_id (settled (view s)).told))
          _ h ((sample_lem (view s)).at s refl) in
      (
        q.1.works,
        q.1.shut,
        none_waiting _ q.1.told_all,
        q.2 ∙ ap (numbered scans_per_sample s.scan_id) (settled_told (view s)),
      )
