-- ===== src/LineSearch/Tests.antt =====
-- The comparisons at two positions 10 dB apart.
use inf2004_aai19_embedded_s.Common.{◌⊎◌, ◌+◌, ◌≤◌, ◌<◌, ◌≡◌, refl, arith, if◌then◌else◌}
use inf2004_aai19_embedded_s.Common.Int.{pos, negsuc, ltb_ℤ, ◌-ℤ◌}
use inf2004_aai19_embedded_s.LineSearch.{
  LinePair, line_compare, line_pair_margin, line_confirmed_gain, valid_pair, line_reference,
  line_median_reference,
}
use inf2004_aai19_embedded_s.LineSearch.Comparison.{
  larger_code, smaller_code, line_compare_swap, line_compare_better, line_reference_covers,
  line_median_reference_lem, median,
}

abbrev far : LinePair
far = record { first = record { code = 70; spread = 2 }; second = record { code = 71; spread = 1 } }

abbrev near : LinePair
near = record {
  first = record { code = 60; spread = 3 };
  second = record { code = 61; spread = 0 };
}

line_compare_swap_example : line_compare near far ≡ (
    if ltb_ℤ (pos 0) (line_compare far near)
    then negsuc 0
    else if ltb_ℤ (line_compare far near) (pos 0)
    then pos 1
    else pos 0)
line_compare_swap_example = line_compare_swap far near

line_compare_better_example :
    (larger_code near + 3 ≤ smaller_code far)
    × (larger_code near + far.first.spread < smaller_code far)
    × (larger_code near + far.second.spread < smaller_code far)
    × (larger_code near + near.first.spread < smaller_code far)
    × (larger_code near + near.second.spread < smaller_code far)
unfolding line_compare line_pair_margin line_confirmed_gain valid_pair ◌-ℤ◌
line_compare_better_example = line_compare_better far near refl

line_reference_covers_example :
    (70 ≤ (line_reference far).code)
    × (71 ≤ (line_reference far).code)
    × ((line_reference far).code ≤ 70 + (line_reference far).spread)
    × ((line_reference far).code ≤ 71 + (line_reference far).spread)
unfolding valid_pair
line_reference_covers_example =
    line_reference_covers far refl (omega arith) (omega arith) (omega arith) (omega arith)

abbrev middle : LinePair
middle = record {
  first = record { code = 65; spread = 0 };
  second = record { code = 66; spread = 2 };
}

line_median_reference_lem_example :
    let m = line_median_reference far near middle in
    ((m ≡ far) ⊎ (m ≡ near) ⊎ (m ≡ middle))
    × ((line_reference m).code
        ≡ median (line_reference far).code (line_reference near).code (line_reference middle).code)
unfolding valid_pair
line_median_reference_lem_example = line_median_reference_lem far near middle refl refl refl
