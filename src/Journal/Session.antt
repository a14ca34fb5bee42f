-- ===== src/Journal/Session.antt =====
-- A run's journal from `report_store_begin` to `report_store_finish`, and its replay.
use inf2004_aai19_embedded_s.Common.{
  ℕ, zero, suc, ◌+◌, ◌-◌, ◌*◌, ◌≤◌, ◌<◌, ◌≡◌, refl, sym, ap, ◌∙◌, Bool, true, false, ◌&&◌, not,
  List, [], ◌∷◌, ◌++◌, length, take, drop, ltb, leb, ◌==◌, if◌then◌else◌, arith, append-nil,
  append_assoc, take-append-drop, length-append, length-take, length-drop,
}
use inf2004_aai19_embedded_s.Journal.{
  page_bytes, page_data, page_count, start_magic, data_magic, end_magic, new_page, Device,
  KeepsPages, Journal, write_page, begin, append_loop, append, finish, replay_pages, replay, texts,
  Emitted,
}
use inf2004_aai19_embedded_s.Journal.Pages.{
  Written, write_page-Written, Promises, Promises-if, promised, new_page-text, new_page-fields,
  new_page-valid,
}

abbrev pub concat : List (List ℕ) → List ℕ
concat [] = []
concat (c ∷ cs) = c ++ concat cs

concat-snoc : (cs : List (List ℕ)) (c : List ℕ) → concat (cs ++ c ∷ []) ≡ concat cs ++ c
concat-snoc [] c = append-nil c
concat-snoc (x ∷ cs) c = ap (λ t. x ++ t) (concat-snoc cs c) ∙ sym (append_assoc x (concat cs) c)

-- The text that a replay emits, and whether it calls the run complete.
abbrev pub text_of : List Emitted → List ℕ
text_of [] = []
text_of (Emitted.text t ∷ es) = t ++ text_of es
text_of (_ ∷ es) = text_of es

abbrev pub is_complete : List Emitted → Bool
is_complete [] = false
is_complete (Emitted.complete ∷ es) = true
is_complete (_ ∷ es) = is_complete es

module _ {F : Type 0} (d : Device F) where
  page_at :
      (f : F) (magic i n : ℕ) (c : List ℕ)
      → n ≡ i
      → d.read (n * page_bytes) f ≡ new_page magic n c
      → d.read (i * page_bytes) f ≡ new_page magic i c
  page_at f magic i n c e h = cc

  -- The pages from `i` on hold the pieces `cs` of the text.
  abbrev Holds : F → ℕ → List (List ℕ) → Type 0
  Holds f i [] = Unit
  Holds f i (c ∷ cs) =
      (d.read (i * page_bytes) f ≡ new_page data_magic i c)
      × (0 < length c)
      × (length c ≤ page_data)
      × Holds f (i + 1) cs

  Holds-keep :
      (f f' : F) (i : ℕ) (cs : List (List ℕ))
      → ((k : ℕ) → k < i + length cs → d.read (k * page_bytes) f' ≡ d.read (k * page_bytes) f)
      → Holds f i cs
      → Holds f' i cs
  Holds-keep f f' i [] k h = h
  Holds-keep f f' i (c ∷ cs) k (r, lo, hi, rest) =
      (k i (omega arith) ∙ r, lo, hi, Holds-keep f f' (i + 1) cs (λ n p. k n (omega arith)) rest)

  Holds-snoc :
      (f : F) (i n : ℕ) (cs : List (List ℕ)) (c : List ℕ)
      → n ≡ i + length cs
      → d.read (n * page_bytes) f ≡ new_page data_magic n c
      → 0 < length c
      → length c ≤ page_data
      → Holds f i cs
      → Holds f i (cs ++ c ∷ [])
  Holds-snoc f i n [] c e r lo hi h = (page_at f data_magic i n c (omega arith) r, lo, hi, h)
  Holds-snoc f i n (x ∷ cs) c e r lo hi (rx, lx, hx, rest) =
      (rx, lx, hx, Holds-snoc f (i + 1) n cs c (omega arith) r lo hi rest)

  -- The replay finds the pieces in front of the page that ends the run.
  replay_pages-Holds :
      (f : F) (left i n : ℕ) (cs : List (List ℕ))
      → Holds f i cs
      → n ≡ i + length cs
      → d.read (n * page_bytes) f ≡ new_page end_magic n []
      → length cs < left
      → replay_pages d left i f ≡ (true, cs)
  unfolding replay_pages
  replay_pages-Holds f zero i n cs h e r l = absurd (omega arith)
  replay_pages-Holds f (suc left) i n [] h e r l = rw (page_at f end_magic i n [] (omega arith) r) (
      ground (
        arith,
        new_page-valid end_magic i [] (omega arith),
        new_page-fields end_magic i [] (omega arith),
      ))
  replay_pages-Holds f (suc left) i n (c ∷ cs) (rc, lo, hi, rest) e r l =
      rw
        (
          rc,
          replay_pages-Holds f left (i + 1) n cs rest (omega arith) r (omega arith),
          new_page-text data_magic i c hi,
        )
        (ground (arith, new_page-valid data_magic i c hi, new_page-fields data_magic i c hi))

  text_of-texts :
      (cs : List (List ℕ))
      → text_of (Emitted.saved_run ∷ (texts d cs ++ Emitted.complete ∷ Emitted.end_of_run ∷ []))
        ≡ concat cs
  text_of-texts [] = refl
  text_of-texts (c ∷ cs) = ap (λ t. c ++ t) (text_of-texts cs)

  is_complete-texts :
      (cs : List (List ℕ))
      → is_complete (Emitted.saved_run ∷ (texts d cs ++ Emitted.complete ∷ Emitted.end_of_run ∷ []))
        ≡ true
  is_complete-texts [] = refl
  is_complete-texts (c ∷ cs) = is_complete-texts cs

  -- The text `t` is in the journal, behind its first page.
  record Kept (t : List ℕ) (j : Journal F) : Type 0 where
    pieces : List (List ℕ)
    text : concat pieces ≡ t
    holds : Holds j.flash 1 pieces
    count : j.next ≡ 1 + length pieces
    first : d.read 0 j.flash ≡ new_page start_magic 0 []
    active : j.active ≡ true

  data_page-Kept :
      (t c : List ℕ) (j j' : Journal F)
      → Kept t j
      → Written d data_magic c j j'
      → 0 < length c
      → Kept (t ++ c) j'
  data_page-Kept t c j j' k w lo = record {
    pieces = k.pieces ++ c ∷ [];
    text = concat-snoc k.pieces c ∙ ap (λ x. x ++ c) k.text;
    holds = Holds-snoc j'.flash 1 j.next k.pieces c k.count w.there lo w.fits (
        Holds-keep j.flash j'.flash 1 k.pieces (λ n p. w.others n (omega (arith, k.count)))
          k.holds);
    count = omega (arith, w.next, k.count, length-append k.pieces (c ∷ []));
    first = w.others 0 (omega (arith, k.count)) ∙ k.first;
    active = w.active ∙ k.active;
  }

  Kept-text : (s t : List ℕ) (j : Journal F) → s ≡ t → Kept s j → Kept t j
  Kept-text s t j e k = record {
    pieces = k.pieces;
    text = k.text ∙ e;
    holds = k.holds;
    count = k.count;
    first = k.first;
    active = k.active;
  }

  nothing-Kept :
      (bytes t : List ℕ) (j : Journal F) → length bytes ≡ 0 → Kept t j → Kept (t ++ bytes) j
  nothing-Kept [] t j e k = Kept-text t (t ++ []) j (sym (append-nil t)) k
  nothing-Kept (x ∷ bytes) t j e k = absurd (omega arith)

  Promises-text :
      (s t : List ℕ) (x : Bool × Journal F) → s ≡ t → Promises (Kept s) x → Promises (Kept t) x
  Promises-text s t x e (Promises.failed j) = Promises.failed j
  Promises-text s t x e (Promises.succeeded j k) = Promises.succeeded j (Kept-text s t j e k)

  append_loop-Kept :
      (fuel : ℕ) (bytes t : List ℕ) (j : Journal F)
      → KeepsPages d
      → length bytes ≤ fuel
      → Kept t j
      → Promises (Kept (t ++ bytes)) (append_loop d fuel bytes j)
  unfolding append_loop
  append_loop-Kept zero bytes t j keeps h k =
      Promises.succeeded j (nothing-Kept bytes t j (omega arith) k)
  append_loop-Kept (suc fuel) bytes t j keeps h k =
      let chunk = if ltb page_data (length bytes) then page_data else length bytes in
      let c = take chunk bytes in
      let w = write_page d data_magic c j in
      Promises-if (length bytes == 0)
        (λ e. Promises.succeeded j (nothing-Kept bytes t j (ground arith) k))
        (λ e.
          Promises-if (leb (page_count - 1) j.next)
            (λ f. Promises.failed (record j { active = false }))
            (λ f.
              Promises-if (not w.0) (λ g. Promises.failed (record w.1 { active = false }))
                (λ g.
                  let size : (0 < length c) × (length (drop chunk bytes) ≤ fuel) =
                    ground (arith, length-take chunk bytes, length-drop chunk bytes) in
                  Promises-text ((t ++ c) ++ drop chunk bytes) (t ++ bytes)
                    (append_loop d fuel (drop chunk bytes) w.1)
                    (append_assoc t c (drop chunk bytes)
                      ∙ ap (λ x. t ++ x) (take-append-drop chunk bytes))
                    (append_loop-Kept fuel (drop chunk bytes) (t ++ c) w.1 keeps size.1 (
                      data_page-Kept t c j w.1 k
                        (promised (write_page-Written d data_magic c j keeps) (ground arith))
                        size.0)))))

  append-Kept :
      (bytes t : List ℕ) (j : Journal F)
      → KeepsPages d
      → Kept t j
      → Promises (Kept (t ++ bytes)) (append d bytes j)
  unfolding append
  append-Kept bytes t j keeps k =
      Promises-if (not j.active) (λ e. Promises.failed j)
        (λ e. append_loop-Kept (length bytes) bytes t j keeps (omega arith) k)

  begin-Kept : (j : Journal F) → KeepsPages d → Promises (Kept []) (begin d j)
  unfolding begin
  begin-Kept j keeps =
      let erased = d.erase j.flash in
      let j0 : Journal F = record { next = 0; active = false; flash = erased.1 } in
      let w = write_page d start_magic [] j0 in
      Promises-if (not erased.0) (λ e. Promises.failed j0)
        (λ e.
          Promises-if (not w.0) (λ f. Promises.failed w.1)
            (λ f.
              let p : Written d start_magic [] j0 w.1 =
                promised (write_page-Written d start_magic [] j0 keeps) (ground arith) in
              Promises.succeeded (record w.1 { active = true })
                (record {
                  pieces = [];
                  text = refl;
                  holds = tt;
                  count = p.next;
                  first = p.there;
                  active = refl;
                })))

  -- The journal after several texts, as long as each is taken.
  abbrev pub append_all : List (List ℕ) → Bool × Journal F → Bool × Journal F
  append_all [] x = x
  append_all (t ∷ ts) x = append_all ts (let y = append d t x.1 in (x.0 && y.0, y.1))

  append_all-Kept :
      (ts : List (List ℕ)) (t : List ℕ) (x : Bool × Journal F)
      → KeepsPages d
      → Promises (Kept t) x
      → Promises (Kept (t ++ concat ts)) (append_all ts x)
  append_all-Kept [] t x keeps k = Promises-text t (t ++ []) x (sym (append-nil t)) k
  append_all-Kept (b ∷ ts) t x keeps k =
      Promises-text ((t ++ b) ++ concat ts) (t ++ (b ++ concat ts)) (append_all (b ∷ ts) x)
        (append_assoc t b (concat ts))
        (append_all-Kept ts (t ++ b) (let y = append d b x.1 in (x.0 && y.0, y.1)) keeps (both x k))
    where
      both :
          (x : Bool × Journal F)
          → Promises (Kept t) x
          → Promises (Kept (t ++ b)) (let y = append d b x.1 in (x.0 && y.0, y.1))
      both x (Promises.failed j) = Promises.failed (append d b j).1
      both x (Promises.succeeded j k) = append-Kept b t j keeps k

  replay-Kept :
      (t : List ℕ) (j j' : Journal F)
      → Kept t j
      → Written d end_magic [] j j'
      → (text_of (replay d j'.flash) ≡ t) × (is_complete (replay d j'.flash) ≡ true)
  unfolding replay
  replay-Kept t j j' k w =
      let f = j'.flash in
      let first : d.read 0 f ≡ new_page start_magic 0 [] =
        w.others 0 (omega (arith, k.count)) ∙ k.first in
      let found =
        replay_pages-Holds f (page_count - 1) 1 j.next k.pieces
          (Holds-keep j.flash f 1 k.pieces (λ n p. w.others n (omega (arith, k.count))) k.holds)
          k.count w.there (omega (arith, k.count, w.room)) in
      let e : replay d f
          ≡ Emitted.saved_run ∷ (texts d k.pieces ++ Emitted.complete ∷ Emitted.end_of_run ∷ []) =
        rw (first, found)
          (ground (
            arith,
            new_page-valid start_magic 0 [] (omega arith),
            new_page-fields start_magic 0 [] (omega arith),
          )) in
      (
        ap text_of e ∙ text_of-texts k.pieces ∙ k.text,
        ap is_complete e ∙ is_complete-texts k.pieces,
      )

  abbrev Replays : List ℕ → Journal F → Type 0
  Replays t j = (text_of (replay d j.flash) ≡ t) × (is_complete (replay d j.flash) ≡ true)

  finish-Replays :
      (t : List ℕ) (j : Journal F) → KeepsPages d → Kept t j → Promises (Replays t) (finish d j)
  unfolding finish
  finish-Replays t j keeps k =
      Promises-if (not j.active) (λ e. Promises.failed j)
        (λ e. closed (write_page d end_magic [] j) (write_page-Written d end_magic [] j keeps))
    where
      closed :
          (x : Bool × Journal F)
          → Promises (Written d end_magic [] j) x
          → Promises (Replays t) (x.0, record x.1 { active = false })
      closed x (Promises.failed j') = Promises.failed (record j' { active = false })
      closed x (Promises.succeeded j' w) =
          Promises.succeeded (record j' { active = false }) (replay-Kept t j j' k w)

  -- When a run's journal is begun, every text is appended and the run is finished, each successfully,
  -- then a replay of the flash emits exactly the texts, in order, and calls the run complete;
  -- provided that programming a page leaves the others as they are.
  pub replay_session :
      (j : Journal F) (ts : List (List ℕ))
      → KeepsPages d
      → (append_all ts (begin d j)).0 ≡ true
      → (finish d (append_all ts (begin d j)).1).0 ≡ true
      → let f = (finish d (append_all ts (begin d j)).1).1.flash in
        (text_of (replay d f) ≡ concat ts) × (is_complete (replay d f) ≡ true)
  replay_session j ts keeps ha hf =
      let j1 = (append_all ts (begin d j)).1 in
      let k : Kept (concat ts) j1 =
        promised (append_all-Kept ts [] (begin d j) keeps (begin-Kept j keeps)) ha in
      promised (finish-Replays (concat ts) j1 keeps k) hf
