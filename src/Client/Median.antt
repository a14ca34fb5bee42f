-- ===== src/Client/Median.antt =====
-- The trimmed mean of `filtered_rssi`: its sort in place, and what an average says of the readings.
use inf2004_aai19_embedded_s.Common.{
  ℕ, zero, suc, ◌+◌, ◌*◌, ◌≤◌, ◌<◌, ◌≡◌, refl, ap, ◌∙◌, sym, Bool, true, false, List, [], ◌∷◌,
  length, get_or, set, if◌then◌else◌, arith, length-set, get_or-set_ne, get_or-set_self,
}
use native.Mathlib.Decide.{dec_le}
use inf2004_aai19_embedded_s.Common.Int.{
  ℤ, pos, negsuc, pos_part, neg_part, ◌≤ℤ◌, leb_ℤ, ltb_ℤ, ◌+ℤ◌, ◌-ℤ◌, +ℤ_parts, -ℤ_parts,
}
use inf2004_aai19_embedded_s.Client.{rssi_sample_count}
use inf2004_aai19_embedded_s.Client.Proximity.{
  readings, filtered_rssi, shift_down, sort_rounds, sum_from, trimmed_mean, quotient,
}

abbrev place : List ℤ → ℕ → ℤ
place xs i = get_or xs i (pos 0)

-- The number of readings that are at least `t`.
abbrev pub one_if : Bool → ℕ
one_if true = 1
one_if false = 0

abbrev pub count_from : ℤ → List ℤ → ℕ
count_from t [] = 0
count_from t (x ∷ xs) = one_if (leb_ℤ t x) + count_from t xs

count-set :
    (t v : ℤ) (xs : List ℤ) (i : ℕ)
    → i < length xs
    → count_from t (set xs i v) + one_if (leb_ℤ t (place xs i))
      ≡ count_from t xs + one_if (leb_ℤ t v)
count-set t v [] i h = absurd (omega arith)
count-set t v (x ∷ xs) zero h = omega arith
count-set t v (x ∷ xs) (suc i) h = omega (arith, count-set t v xs i)

length-shift_down : (j : ℕ) (v : ℤ) (xs : List ℤ) → length (shift_down j v xs) ≡ length xs
unfolding shift_down
length-shift_down zero v xs = length-set xs 0 v
length-shift_down (suc j) v xs = ground (
  arith,
  length-set xs (suc j) v,
  length-set xs (suc j) (place xs j),
  length-shift_down j v (set xs (suc j) (place xs j)),
)

count-shift_down :
    (t : ℤ) (j : ℕ) (v : ℤ) (xs : List ℤ)
    → j < length xs
    → count_from t (shift_down j v xs) + one_if (leb_ℤ t (place xs j))
      ≡ count_from t xs + one_if (leb_ℤ t v)
unfolding shift_down
count-shift_down t zero v xs h = count-set t v xs 0 h
count-shift_down t (suc j) v xs h =
    let x = place xs j in
    let ys = set xs (suc j) x in
    let same : place ys j ≡ x = get_or-set_ne xs (suc j) j x (pos 0) (λ e. omega arith) in
    let rest = count-shift_down t j v ys (omega (arith, length-set xs (suc j) x)) in
    let moved : count_from t (shift_down j v ys) + one_if (leb_ℤ t x)
        ≡ count_from t ys + one_if (leb_ℤ t v) =
      ap (λ y. count_from t (shift_down j v ys) + one_if (leb_ℤ t y)) (sym same) ∙ rest in
    ground (arith, moved, count-set t x xs (suc j), count-set t v xs (suc j))

count-sort_rounds :
    (t : ℤ) (left i : ℕ) (xs : List ℤ)
    → left + i ≤ length xs
    → count_from t (sort_rounds left i xs) ≡ count_from t xs
unfolding sort_rounds
count-sort_rounds t zero i xs h = refl
count-sort_rounds t (suc left) i xs h = omega (
  arith,
  count-sort_rounds t left (i + 1) (shift_down i (place xs i) xs)
      (omega (arith, length-shift_down i (place xs i) xs)),
  count-shift_down t i (place xs i) xs (omega arith),
)

length-sort_rounds : (left i : ℕ) (xs : List ℤ) → length (sort_rounds left i xs) ≡ length xs
unfolding sort_rounds
length-sort_rounds zero i xs = refl
length-sort_rounds (suc left) i xs =
    length-sort_rounds left (i + 1) (shift_down i (place xs i) xs)
    ∙ length-shift_down i (place xs i) xs

-- Places above the hole do not change.
above-shift_down :
    (j k : ℕ) (v : ℤ) (xs : List ℤ) → j < k → place (shift_down j v xs) k ≡ place xs k
unfolding shift_down
above-shift_down zero k v xs h = get_or-set_ne xs 0 k v (pos 0) (λ e. omega arith)
above-shift_down (suc j) k v xs h = ground (
  arith,
  above-shift_down j k v (set xs (suc j) (place xs j)) (omega arith),
  get_or-set_ne xs (suc j) k (place xs j) (pos 0) (λ e. omega arith),
  get_or-set_ne xs (suc j) k v (pos 0) (λ e. omega arith),
)

-- The first `n` places are in order.
abbrev Ordered : ℕ → List ℤ → Type 0
Ordered n xs = (a : ℕ) → suc a < n → place xs a ≤ℤ place xs (suc a)

Ordered-le :
    (n : ℕ) (xs : List ℤ) (a b : ℕ) → Ordered n xs → a ≤ b → b < n → place xs a ≤ℤ place xs b
Ordered-le n xs zero zero o h k = omega arith
Ordered-le n xs (suc a) zero o h k = absurd (omega arith)
Ordered-le n xs a (suc b) o h k = elim (dec_le a b) [
  | yes p ↦ omega (arith, Ordered-le n xs a b o p (omega arith), o b k)
  | no p ↦ let e : a ≡ suc b = omega arith in ground (arith, ap (place xs) e)
]

-- The place of the hole holds at most what bounds the value and the places below.
shift_down-le :
    (j : ℕ) (v m : ℤ) (xs : List ℤ)
    → j < length xs
    → v ≤ℤ m
    → ((a : ℕ) → a < j → place xs a ≤ℤ m)
    → place (shift_down j v xs) j ≤ℤ m
unfolding shift_down
shift_down-le zero v m xs h l b = ground (arith, get_or-set_self xs 0 v (pos 0) h)
shift_down-le (suc j) v m xs h l b =
    let x = place xs j in
    let le = b j (omega arith) in
    ground (
      arith,
      above-shift_down j (suc j) v (set xs (suc j) x) (omega arith),
      get_or-set_self xs (suc j) x (pos 0) h,
      get_or-set_self xs (suc j) v (pos 0) h,
    )

-- The value goes further down, or stays above the place below.
Ordered-moved :
    (j : ℕ) (v : ℤ) (xs : List ℤ)
    → suc j < length xs
    → Ordered (suc j) xs
    → ltb_ℤ v (place xs j) ≡ true
    → let r = shift_down j v (set xs (suc j) (place xs j)) in
      Ordered (suc j) r → Ordered (suc (suc j)) r
Ordered-moved j v xs h o e q a k =
    let x = place xs j in
    let ys = set xs (suc j) x in
    elim (dec_le j a) [
      | yes p ↦
          let same : a ≡ j = omega arith in
          let l : v ≤ℤ x = ground arith in
          let low =
            shift_down-le j v x ys (omega (arith, length-set xs (suc j) x)) l
              (λ i b. kept j x xs i b (Ordered-le (suc j) xs i j o (omega arith) (omega arith))) in
          let top : place (shift_down j v ys) (suc j) ≡ x =
            above-shift_down j (suc j) v ys (omega arith)
            ∙ get_or-set_self xs (suc j) x (pos 0) h in
          last_two (shift_down j v ys) j a x (omega arith) low top
      | no p ↦ q a (omega arith)
    ]
  where
    kept :
        (j : ℕ) (x : ℤ) (xs : List ℤ) (i : ℕ)
        → i < j
        → place xs i ≤ℤ x
        → place (set xs (suc j) x) i ≤ℤ x
    kept j x xs i b l = ground (arith, get_or-set_ne xs (suc j) i x (pos 0) (λ e. omega arith))

    last_two :
        (r : List ℤ) (j a : ℕ) (x : ℤ)
        → a ≡ j
        → place r j ≤ℤ x
        → place r (suc j) ≡ x
        → place r a ≤ℤ place r (suc a)
    last_two r j a x e l t = ground (arith, ap (place r) e, ap (λ n. place r (suc n)) e)

Ordered-stays :
    (j : ℕ) (v : ℤ) (xs : List ℤ)
    → suc j < length xs
    → Ordered (suc j) xs
    → ltb_ℤ v (place xs j) ≡ false
    → Ordered (suc (suc j)) (set xs (suc j) v)
Ordered-stays j v xs h o e a k = elim (dec_le j a) [
  | yes p ↦
      let same : a ≡ j = omega arith in
      let low : place (set xs (suc j) v) j ≡ place xs j =
        get_or-set_ne xs (suc j) j v (pos 0) (λ q. omega arith) in
      let top : place (set xs (suc j) v) (suc j) ≡ v = get_or-set_self xs (suc j) v (pos 0) h in
      let l : place xs j ≤ℤ v = ground arith in
      ground
        (arith, ap (place (set xs (suc j) v)) same, ap (λ n. place (set xs (suc j) v) (suc n)) same)
  | no p ↦
      let b = o a (omega arith) in
      ground (
        arith,
        get_or-set_ne xs (suc j) a v (pos 0) (λ q. omega arith),
        get_or-set_ne xs (suc j) (suc a) v (pos 0) (λ q. omega arith),
      )
]

Ordered-if :
    (n : ℕ) (b : Bool) (xs ys : List ℤ)
    → (b ≡ true → Ordered n xs)
    → (b ≡ false → Ordered n ys)
    → Ordered n (if b then xs else ys)
Ordered-if n true xs ys hx hy = hx refl
Ordered-if n false xs ys hx hy = hy refl

Ordered-set : (j : ℕ) (x : ℤ) (xs : List ℤ) → Ordered (suc j) xs → Ordered j (set xs (suc j) x)
Ordered-set j x xs o a k =
    let b = o a (omega arith) in
    ground (
      arith,
      get_or-set_ne xs (suc j) a x (pos 0) (λ q. omega arith),
      get_or-set_ne xs (suc j) (suc a) x (pos 0) (λ q. omega arith),
    )

Ordered-shift_down :
    (j : ℕ) (v : ℤ) (xs : List ℤ)
    → j < length xs
    → Ordered j xs
    → Ordered (suc j) (shift_down j v xs)
unfolding shift_down
Ordered-shift_down zero v xs h o = λ a k. absurd (omega arith)
Ordered-shift_down (suc j) v xs h o =
    let x = place xs j in
    let ys = set xs (suc j) x in
    Ordered-if (suc (suc j)) (ltb_ℤ v x) (shift_down j v ys) (set xs (suc j) v)
      (λ e.
        Ordered-moved j v xs h o e (
          Ordered-shift_down j v ys (omega (arith, length-set xs (suc j) x))
            (Ordered-set j x xs o)))
      (λ e. Ordered-stays j v xs h o e)

Ordered-sort_rounds :
    (left i n : ℕ) (xs : List ℤ)
    → n ≡ left + i
    → n ≤ length xs
    → Ordered i xs
    → Ordered n (sort_rounds left i xs)
unfolding sort_rounds
Ordered-sort_rounds zero i n xs e h o = λ a k. o a (omega arith)
Ordered-sort_rounds (suc left) i n xs e h o =
    let ys = shift_down i (place xs i) xs in
    Ordered-sort_rounds left (i + 1) n ys (omega arith)
      (omega (arith, length-shift_down i (place xs i) xs))
      (λ a k. Ordered-shift_down i (place xs i) xs (omega arith) o a (omega arith))

count-ge :
    (t : ℤ) (k : ℕ) (xs : List ℤ)
    → ((a : ℕ) → k ≤ a → a < length xs → t ≤ℤ place xs a)
    → length xs ≤ count_from t xs + k
count-ge t k [] h = omega arith
count-ge t zero (x ∷ xs) h =
    let first = h 0 (omega arith) (omega arith) in
    let rest = count-ge t 0 xs (λ a l m. h (suc a) (omega arith) (omega arith)) in ground arith
count-ge t (suc k) (x ∷ xs) h =
    let rest = count-ge t k xs (λ a l m. h (suc a) (omega arith) (omega arith)) in omega arith

-- Six places from `i` on that are at most `m` add up to at most six times `m`.
sum_from-le :
    (n i : ℕ) (xs : List ℤ) (sum m : ℤ)
    → ((a : ℕ) → a < i + n → place xs a ≤ℤ m)
    → pos_part (sum_from n i xs sum) + neg_part sum + n * neg_part m
      ≤ neg_part (sum_from n i xs sum) + pos_part sum + n * pos_part m
unfolding sum_from
sum_from-le zero i xs sum m h = omega arith
sum_from-le (suc n) i xs sum m h =
    let first = h i (omega arith) in
    let rest = sum_from-le n (i + 1) xs (sum +ℤ place xs i) m (λ a l. h a (omega arith)) in
    grind (arith, +ℤ_parts sum (place xs i))

quotient-ge :
    (z t : ℤ) → t ≤ℤ quotient z 6 → 6 * pos_part t + neg_part z ≤ pos_part z + 6 * neg_part t + 5
unfolding quotient
quotient-ge (pos n) t h = ground arith
quotient-ge (negsuc n) t h = ground arith

-- The same on any twelve readings.
mean_needs_four :
    (values : List ℤ) (t : ℤ)
    → length values ≡ 12
    → t ≤ℤ trimmed_mean values
    → 4 ≤ count_from t values
unfolding trimmed_mean
mean_needs_four values t h l =
    let s = sort_rounds 11 1 values in
    let o : Ordered 12 s =
      Ordered-sort_rounds 11 1 12 values (omega arith) (omega arith)
        (λ a k. absurd (omega arith)) in
    let m = place s 8 in
    let sum = sum_from 6 3 s (pos 0) in
    let low =
      sum_from-le 6 3 s (pos 0) m (λ a k. Ordered-le 12 s a 8 o (omega arith) (omega arith)) in
    let q = quotient-ge (sum -ℤ pos 3) t l in
    let reach : t ≤ℤ m = omega (arith, -ℤ_parts sum (pos 3)) in
    let size = length-sort_rounds 11 1 values in
    let four =
      count-ge t 8 s (λ a k b. let above = Ordered-le 12 s 8 a o k (omega arith) in omega arith) in
    omega (arith, count-sort_rounds t 11 1 values (omega arith))

length-readings : (left i : ℕ) (samples : List ℕ) → length (readings left i samples) ≡ left
unfolding readings
length-readings zero i samples = refl
length-readings (suc left) i samples = ap suc (length-readings left (i + 1) samples)

-- If the filtered signal strength reaches a threshold, at least four of the twelve stored readings
-- reach it: three outliers alone do not make the beacon close.
pub close_needs_four :
    (samples : List ℕ) (t : ℤ)
    → t ≤ℤ filtered_rssi samples
    → 4 ≤ count_from t (readings rssi_sample_count 0 samples)
unfolding filtered_rssi
close_needs_four samples t h =
    mean_needs_four (readings 12 0 samples) t (length-readings 12 0 samples) h
