-- ===== src/LineSearch/Comparison.antt =====
-- What a comparison of two positions promises.
use inf2004_aai19_embedded_s.Common.{
  ℕ, ◌+◌, ◌≤◌, ◌<◌, ◌≡◌, refl, ◌⊎◌, Bool, true, false, ◌||◌, not, if◌then◌else◌, arith,
}
use inf2004_aai19_embedded_s.Common.Int.{ℤ, pos, negsuc, ltb_ℤ, leb_ℤ, -ℤ_parts, pos_part, neg_part}
use inf2004_aai19_embedded_s.LineSearch.{
  larger, smaller, LinePair, line_pair_margin, valid_pair, line_reference, line_confirmed_gain,
  line_compare, swap_down, line_median_reference,
}

pub line_pair_margin_comm : (p q : LinePair) → line_pair_margin p q ≡ line_pair_margin q p
unfolding line_pair_margin
line_pair_margin_comm p q = ground arith

abbrev pub larger_code : LinePair → ℕ
larger_code p = larger p.first.code p.second.code

abbrev pub smaller_code : LinePair → ℕ
smaller_code p = smaller p.first.code p.second.code

gain_value :
    (p q : LinePair)
    → valid_pair p ≡ true
    → valid_pair q ≡ true
    → pos_part (line_confirmed_gain p q) + larger_code q
      ≡ neg_part (line_confirmed_gain p q) + smaller_code p
unfolding line_confirmed_gain
gain_value p q v w = ground (arith, -ℤ_parts (pos (smaller_code p)) (pos (larger_code q)))

-- The two gains between two positions never add up to more than nothing.
gain_sum :
    (p q : LinePair)
    → pos_part (line_confirmed_gain p q) + pos_part (line_confirmed_gain q p)
      ≤ neg_part (line_confirmed_gain p q) + neg_part (line_confirmed_gain q p)
unfolding line_confirmed_gain
gain_sum p q = ground (
  arith,
  -ℤ_parts (pos (smaller_code p)) (pos (larger_code q)),
  -ℤ_parts (pos (smaller_code q)) (pos (larger_code p)),
)

margin_least : (p q : LinePair) → 3 ≤ line_pair_margin p q
unfolding line_pair_margin
margin_least p q = ground arith

-- The tests of `line_compare` on any margin and any two gains.
abbrev verdict : Bool → Bool → ℕ → ℤ → ℤ → ℤ
verdict v w m g h =
    if not v || not w
    then pos 0
    else if leb_ℤ (pos m) g
    then pos 1
    else if leb_ℤ (pos m) h
    then negsuc 0
    else pos 0

verdict-swap :
    (v w : Bool) (m n : ℕ) (g h : ℤ)
    → m ≡ n
    → 3 ≤ m
    → pos_part g + pos_part h ≤ neg_part g + neg_part h
    → verdict w v n h g ≡ (
        if ltb_ℤ (pos 0) (verdict v w m g h)
        then negsuc 0
        else if ltb_ℤ (verdict v w m g h) (pos 0)
        then pos 1
        else pos 0)
verdict-swap false false m n g h e l s = refl
verdict-swap false true m n g h e l s = refl
verdict-swap true false m n g h e l s = refl
verdict-swap true true m n g h e l s = ground arith

verdict-one :
    (v w : Bool) (m : ℕ) (g h : ℤ)
    → verdict v w m g h ≡ pos 1
    → (v ≡ true) × (w ≡ true) × (m + neg_part g ≤ pos_part g)
verdict-one v w m g h e = ground arith

-- Swapping the two positions of a comparison changes its sign.
pub line_compare_swap :
    (p q : LinePair)
    → line_compare q p ≡ (
        if ltb_ℤ (pos 0) (line_compare p q)
        then negsuc 0
        else if ltb_ℤ (line_compare p q) (pos 0)
        then pos 1
        else pos 0)
unfolding line_compare
line_compare_swap p q =
    verdict-swap (valid_pair p) (valid_pair q) (line_pair_margin p q) (line_pair_margin q p)
      (line_confirmed_gain p q) (line_confirmed_gain q p) (line_pair_margin_comm p q)
      (margin_least p q) (gain_sum p q)

margin_above :
    (p q : LinePair)
    → (p.first.spread < line_pair_margin p q)
      × (p.second.spread < line_pair_margin p q)
      × (q.first.spread < line_pair_margin p q)
      × (q.second.spread < line_pair_margin p q)
unfolding line_pair_margin
margin_above p q = ground arith

-- Better means that both batches are stronger than both batches before, by at least 3 dB and by more
-- than the spread of any of the four.
pub line_compare_better :
    (p q : LinePair)
    → line_compare p q ≡ pos 1
    → (larger_code q + 3 ≤ smaller_code p)
      × (larger_code q + p.first.spread < smaller_code p)
      × (larger_code q + p.second.spread < smaller_code p)
      × (larger_code q + q.first.spread < smaller_code p)
      × (larger_code q + q.second.spread < smaller_code p)
unfolding line_compare
line_compare_better p q h =
    let (v, w, m) =
      verdict-one (valid_pair p) (valid_pair q) (line_pair_margin p q) (line_confirmed_gain p q)
        (line_confirmed_gain q p) h in
    omega (arith, gain_value p q v w, margin_least p q, margin_above p q)

-- Both readings of a valid pair lie within the spread of its reference, behind the reference's code.
pub line_reference_covers :
    (p : LinePair)
    → valid_pair p ≡ true
    → p.first.code < 127
    → p.second.code < 127
    → 0 < p.first.code
    → 0 < p.second.code
    → (p.first.code ≤ (line_reference p).code)
      × (p.second.code ≤ (line_reference p).code)
      × ((line_reference p).code ≤ p.first.code + (line_reference p).spread)
      × ((line_reference p).code ≤ p.second.code + (line_reference p).spread)
unfolding line_reference
line_reference_covers p v a b c d = ground arith

abbrev pub median : ℕ → ℕ → ℕ → ℕ
median a b c = larger (smaller a b) (smaller (larger a b) c)

-- Of three valid positions the reference is one of the three, and the strength of its weaker batch is
-- the median of the three.
pub line_median_reference_lem :
    (p q r : LinePair)
    → valid_pair p ≡ true
    → valid_pair q ≡ true
    → valid_pair r ≡ true
    → let m = line_median_reference p q r in
      ((m ≡ p) ⊎ (m ≡ q) ⊎ (m ≡ r))
      × ((line_reference m).code
          ≡ median (line_reference p).code (line_reference q).code (line_reference r).code)
unfolding line_median_reference swap_down
line_median_reference_lem p q r hp hq hr = ground (arith)
