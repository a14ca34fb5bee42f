-- ===== src/Journal/Pages.antt =====
-- One page of the journal: what is read back from a page that was written, and that it is valid.
use inf2004_aai19_embedded_s.Common.{
  ℕ, ◌+◌, ◌*◌, ◌^◌, ◌%◌, ◌≤◌, ◌<◌, ◌≡◌, refl, sym, Bool, true, false, ◌||◌, not, List, [], ◌∷◌,
  length, take, replicate, u16, ltb, leb, if◌then◌else◌, arith, take-splice_at, length-replicate,
}
use inf2004_aai19_embedded_s.Journal.{
  Page, page_bytes, page_data, page_count, page_crc, new_page, same_bytes, same_page, Device,
  KeepsPages, Journal, write_page, valid_page,
}

same_bytes→≡ : (xs ys : List ℕ) → same_bytes xs ys ≡ true → xs ≡ ys
same_bytes→≡ [] [] h = refl
same_bytes→≡ [] (y ∷ ys) h = absurd (ground arith)
same_bytes→≡ (x ∷ xs) [] h = absurd (ground arith)
same_bytes→≡ (x ∷ xs) (y ∷ ys) h = ground (arith, same_bytes→≡ xs ys)

pub same_page→≡ : (p q : Page) → same_page p q ≡ true → p ≡ q
unfolding same_page
same_page→≡ p q h = ground (arith, same_bytes→≡ p.contents q.contents)

-- The text of a page that `write_page` builds.
pub new_page-text :
    (magic i : ℕ) (c : List ℕ)
    → length c ≤ page_data
    → take (new_page magic i c).size (new_page magic i c).contents ≡ c
unfolding new_page
new_page-text magic i c h =
    take-splice_at (replicate page_data 0xFF) 0 c (u16 (length c)) (omega arith)
      (omega (arith, length-replicate {A = ℕ} page_data 0xFF))

-- Its other fields.
pub new_page-fields :
    (magic i : ℕ) (c : List ℕ)
    → length c ≤ page_data
    → ((new_page magic i c).magic ≡ magic)
      × ((new_page magic i c).index ≡ i)
      × ((new_page magic i c).size ≡ length c)
unfolding new_page
new_page-fields magic i c h = omega arith

page_crc-new_page :
    (magic i : ℕ) (c : List ℕ) → (new_page magic i c).crc ≡ page_crc (new_page magic i c)
unfolding new_page page_crc
page_crc-new_page magic i c = refl

pub new_page-valid :
    (magic i : ℕ) (c : List ℕ) → length c ≤ page_data → valid_page i (new_page magic i c) ≡ true
unfolding valid_page
new_page-valid magic i c h =
    ground (arith, page_crc-new_page magic i c, new_page-fields magic i c h)

-- What a page that was written successfully has done to the journal.
pub record Written {F : Type 0} (d : Device F) (magic : ℕ) (c : List ℕ) (j j' : Journal F)
    : Type 0 where
  pub room : j.next < page_count
  pub fits : length c ≤ page_data
  pub next : j'.next ≡ j.next + 1
  pub active : j'.active ≡ j.active
  pub there : d.read (j.next * page_bytes) j'.flash ≡ new_page magic j.next c
  pub others :
      (k : ℕ) → k < j.next → d.read (k * page_bytes) j'.flash ≡ d.read (k * page_bytes) j.flash

-- A step of the journal that promises `P` if it succeeds.
pub data Promises {F : Type 0} (P : Journal F → Type 0) : Bool × Journal F → Type 0 where
  failed : (j : Journal F) → Promises P (false, j)
  succeeded : (j : Journal F) → P j → Promises P (true, j)

pub Promises-if :
    {F : Type 0} {P : Journal F → Type 0} (b : Bool) {x y : Bool × Journal F}
    → (b ≡ true → Promises P x)
    → (b ≡ false → Promises P y)
    → Promises P (if b then x else y)
Promises-if true hx hy = hx refl
Promises-if false hx hy = hy refl

pub promised :
    {F : Type 0} {P : Journal F → Type 0} {x : Bool × Journal F} → Promises P x → x.0 ≡ true → P x.1
promised (Promises.failed j) h = absurd (ground arith)
promised (Promises.succeeded j p) h = p

pub write_page-Written :
    {F : Type 0} (d : Device F) (magic : ℕ) (c : List ℕ) (j : Journal F)
    → KeepsPages d
    → Promises (Written d magic c j) (write_page d magic c j)
unfolding write_page
write_page-Written d magic c j k =
    let page = new_page magic j.next c in
    let offset = j.next * page_bytes in
    let written = d.program offset page j.flash in
    let j1 = record j { flash = written.1 } in
    Promises-if (leb page_count j.next || ltb page_data (length c)) (λ e. Promises.failed j)
      (λ e.
        Promises-if (not written.0) (λ f. Promises.failed j1)
          (λ f.
            Promises-if (not (same_page page (d.read offset j1.flash))) (λ g. Promises.failed j1)
              (λ g.
                Promises.succeeded (record j1 { next = (j.next + 1) % 2 ^ 12 })
                  (record {
                    room = ground arith;
                    fits = ground arith;
                    next = ground arith;
                    active = refl;
                    there = sym (same_page→≡ page (d.read offset written.1) (ground arith));
                    others = λ i h. k.keeps j.next i page j.flash (omega arith);
                  }))))
