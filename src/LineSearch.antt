-- ===== src/LineSearch.antt =====
-- getting_there/line_search.c: comparisons of the signal at two positions, each sampled by two
-- batches. A code is a signal strength without its sign, so a smaller code is a stronger signal.
pub mod Comparison
mod Tests
use inf2004_aai19_embedded_s.Common.{
  ℕ, zero, suc, ◌+◌, ◌-◌, Bool, true, false, ◌&&◌, ◌||◌, not, List, [], ◌∷◌, get_or, set, ltb, leb,
  ◌==◌, ◌/=◌, if◌then◌else◌,
}
use inf2004_aai19_embedded_s.Common.Int.{ℤ, pos, negsuc, ◌-ℤ◌, ltb_ℤ, leb_ℤ}
use inf2004_aai19_embedded_s.PackedBits.{rssi_missing_code}

-- `wifi_sample_t`
pub record Sample : Type 0 where
  pub code : ℕ
  pub spread : ℕ

-- `line_pair_t`
pub record LinePair : Type 0 where
  pub first : Sample
  pub second : Sample

abbrev pub min_progress_db : ℕ
min_progress_db = 3

-- C's `a > b ? a : b` and `a < b ? a : b`.
abbrev pub larger : ℕ → ℕ → ℕ
larger a b = if ltb b a then a else b

abbrev pub smaller : ℕ → ℕ → ℕ
smaller a b = if ltb a b then a else b

unfoldable pub return_margin : Sample → Sample → ℕ
return_margin previous current = larger (previous.spread + current.spread + 1) min_progress_db

-- One of the three `if`s on `spread`.
abbrev pub widen : ℕ → ℕ → ℕ
widen spread candidate = if ltb spread candidate then candidate else spread

unfoldable pub line_pair_margin : LinePair → LinePair → ℕ
line_pair_margin previous current =
    let spread =
      widen (widen (widen previous.first.spread previous.second.spread) current.first.spread)
        current.second.spread in
    larger (spread + 1) min_progress_db

unfoldable pub valid_pair : LinePair → Bool
valid_pair pair = pair.first.code /= rssi_missing_code && pair.second.code /= rssi_missing_code

abbrev pub missing : Sample
missing = record { code = rssi_missing_code; spread = 0 }

unfoldable pub line_reference : LinePair → Sample
line_reference pair =
    let low = smaller pair.first.code pair.second.code in
    let high = larger pair.first.code pair.second.code in
    let spread = larger pair.first.spread pair.second.spread + (high - low) in
    if not (valid_pair pair)
    then missing
    else record { code = high; spread = if ltb 125 spread then 125 else spread }

unfoldable pub line_confirmed_gain : LinePair → LinePair → ℤ
line_confirmed_gain previous current =
    let old_best = smaller previous.first.code previous.second.code in
    let new_worst = larger current.first.code current.second.code in
    if not (valid_pair previous) || not (valid_pair current)
    then pos 0
    else pos old_best -ℤ pos new_worst

unfoldable pub line_compare : LinePair → LinePair → ℤ
line_compare previous current =
    let margin = pos (line_pair_margin previous current) in
    if not (valid_pair previous) || not (valid_pair current)
    then pos 0
    else if leb_ℤ margin (line_confirmed_gain previous current)
    then pos 1
    else if leb_ℤ margin (line_confirmed_gain current previous)
    then negsuc 0
    else pos 0

abbrev pub missing_pair : LinePair
missing_pair = record { first = missing; second = missing }

-- The inner loop of `line_median_reference` at `j`: a pair is swapped down while it is stronger
-- than the one before it.
unfoldable pub swap_down : ℕ → List LinePair → List LinePair
swap_down zero sorted = sorted
swap_down (suc j) sorted =
    let a = get_or sorted j missing_pair in
    let b = get_or sorted (suc j) missing_pair in
    let rest = swap_down j (set (set sorted (suc j) a) j b) in
    if ltb (line_reference b).code (line_reference a).code then rest else sorted

-- The outer loop, written out for its three rounds. `sorted` starts with the samples: a round
-- stores sample `i` in place `i`, where it is here from the start, and no earlier round reads it.
unfoldable pub line_median_reference : LinePair → LinePair → LinePair → LinePair
line_median_reference s0 s1 s2 =
    let round1 = swap_down 1 (s0 ∷ s1 ∷ s2 ∷ []) in
    let round2 = swap_down 2 round1 in
    if not (valid_pair s0)
    then missing_pair
    else if not (valid_pair s1)
    then missing_pair
    else if not (valid_pair s2)
    then missing_pair
    else get_or round2 1 missing_pair

unfoldable pub line_reference_declined : LinePair → LinePair → Bool
line_reference_declined reference current =
    valid_pair reference
    && valid_pair current
    && ltb_ℤ (pos (line_pair_margin reference current)) (line_confirmed_gain current reference)

unfoldable pub line_return_consistent : LinePair → LinePair → Bool
line_return_consistent best returned =
    let a = returned.first.code in
    let b = returned.second.code in
    let difference = if ltb a b then b - a else a - b in
    let reference = line_reference best in
    if not (valid_pair best) || not (valid_pair returned)
    then false
    else if ltb (return_margin returned.first returned.second) difference
    then false
    else leb_ℤ (pos a -ℤ pos reference.code) (pos (return_margin reference returned.first))
      && leb_ℤ (pos b -ℤ pos reference.code) (pos (return_margin reference returned.second))
