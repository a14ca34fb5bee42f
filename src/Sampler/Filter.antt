-- ===== src/Sampler/Filter.antt =====
-- wifi_filter of getting_there/wifi_sampler.c: the order of the readings, and one that is off.
use mathlib.Core.List.{foldr, Perm}
use mathlib.Core.List.Perm
use native.Mathlib.Decide.{ℕ_discrete}
use inf2004_aai19_embedded_s.Common.{
  ℕ, zero, suc, ◌≤◌, ◌≡◌, refl, sym, ap, ◌∙◌, true, List, [], ◌∷◌, All, length, take, arith,
}
use inf2004_aai19_embedded_s.Sampler.{
  insert_code, is_reading, keep_code, sort_codes, trimmed, wifi_filter,
}

insert_code_comm :
    (a b : ℕ) (l : List ℕ) → insert_code a (insert_code b l) ≡ insert_code b (insert_code a l)
unfolding insert_code
insert_code_comm a b [] = ground arith
insert_code_comm a b (x ∷ xs) = ground (arith, insert_code_comm a b xs)

keep_code_comm : (a b : ℕ) (l : List ℕ) → keep_code a (keep_code b l) ≡ keep_code b (keep_code a l)
unfolding keep_code
keep_code_comm a b l = ground (arith, insert_code_comm a b l)

keep_code-sort_codes :
    (c : ℕ) (l cs : List ℕ) → sort_codes (keep_code c l) cs ≡ keep_code c (sort_codes l cs)
unfolding sort_codes
keep_code-sort_codes c l [] = refl
keep_code-sort_codes c l (d ∷ cs) =
    ap (λ t. sort_codes t cs) (keep_code_comm d c l) ∙ keep_code-sort_codes c (keep_code d l) cs

sort_codes-eq-foldr : (l cs : List ℕ) → sort_codes l cs ≡ foldr keep_code l cs
unfolding sort_codes
sort_codes-eq-foldr l [] = refl
sort_codes-eq-foldr l (c ∷ cs) =
    keep_code-sort_codes c l cs ∙ ap (keep_code c) (sort_codes-eq-foldr l cs)

sort_codes-perm : {xs ys : List ℕ} → Perm xs ys → (l : List ℕ) → sort_codes l xs ≡ sort_codes l ys
sort_codes-perm {xs} {ys} p l =
    sort_codes-eq-foldr l xs
    ∙ Perm.foldr-eq codes-set keep_code keep_code_comm p l
    ∙ sym (sort_codes-eq-foldr l ys)
  where
    codes-set : IsSet (List ℕ)
    codes-set = hlevel ℕ_discrete

length-perm : {xs ys : List ℕ} → Perm xs ys → length xs ≡ length ys
length-perm {xs} {ys} p =
    as_fold xs ∙ Perm.foldr-eq (hlevel ℕ_discrete) count_one (λ a b n. refl) p 0 ∙ sym (as_fold ys)
  where
    count_one : ℕ → ℕ → ℕ
    count_one c n = suc n

    as_fold : (l : List ℕ) → length l ≡ foldr count_one 0 l
    as_fold [] = refl
    as_fold (x ∷ xs) = ap suc (as_fold xs)

take_all : (n : ℕ) (l : List ℕ) → length l ≤ n → take n l ≡ l
take_all zero [] h = refl
take_all zero (x ∷ xs) h = absurd (omega arith)
take_all (suc n) [] h = refl
take_all (suc n) (x ∷ xs) h = ap (λ t. x ∷ t) (take_all n xs (omega arith))

-- The order of at most five readings does not matter.
wifi_filter-perm : {xs ys : List ℕ} → Perm xs ys → length xs ≤ 5 → wifi_filter xs ≡ wifi_filter ys
unfolding wifi_filter
wifi_filter-perm {xs} {ys} p h =
    ap (λ t. trimmed (sort_codes [] t)) (take_all 5 xs h)
    ∙ ap trimmed (sort_codes-perm p [])
    ∙ ap (λ t. trimmed (sort_codes [] t)) (sym (take_all 5 ys (omega (arith, length-perm p))))

module _ (lo hi : ℕ) (positive : 1 ≤ lo) (valid : hi ≤ 126) where
  abbrev pub In : ℕ → Type 0
  In c = (lo ≤ c) × (c ≤ hi)

  insert_code-All : (c : ℕ) (l : List ℕ) → In c → All In l → All In (insert_code c l)
  unfolding insert_code
  insert_code-All c [] k h = (k, tt)
  insert_code-All c (x ∷ xs) k h = let r = insert_code-All c xs k h.1 in ground arith

  length-insert_code : (c : ℕ) (l : List ℕ) → length (insert_code c l) ≡ suc (length l)
  unfolding insert_code
  length-insert_code c [] = refl
  length-insert_code c (x ∷ xs) = ground (arith, length-insert_code c xs)

  -- A reading in the range is kept.
  keep_code_lem :
      (c : ℕ) (l : List ℕ)
      → In c
      → All In l
      → All In (keep_code c l) × (length (keep_code c l) ≡ suc (length l))
  unfolding keep_code
  keep_code_lem c l k h =
      let reading : is_reading c ≡ true = ground arith in
      rw reading (insert_code-All c l k h, length-insert_code c l)

  -- The trimmed mean of four codes in the range and any fifth.
  middle_lem : (x : ℕ) (l : List ℕ) → length l ≡ 4 → All In l → In (trimmed (keep_code x l)).code
  unfolding trimmed keep_code insert_code
  middle_lem x (a ∷ b ∷ c ∷ d ∷ []) e h = ground arith
  middle_lem x [] e h = absurd (omega arith)
  middle_lem x (a ∷ []) e h = absurd (omega arith)
  middle_lem x (a ∷ b ∷ []) e h = absurd (omega arith)
  middle_lem x (a ∷ b ∷ c ∷ []) e h = absurd (omega arith)
  middle_lem x (a ∷ b ∷ c ∷ d ∷ f ∷ r) e h = absurd (omega arith)

  four_lem :
      (a b c d : ℕ)
      → In a
      → In b
      → In c
      → In d
      → let l = keep_code d (keep_code c (keep_code b (keep_code a []))) in
        (length l ≡ 4) × All In l
  four_lem a b c d ha hb hc hd =
      let p = keep_code_lem a [] ha tt in
      let q = keep_code_lem b _ hb p.0 in
      let r = keep_code_lem c _ hc q.0 in
      let s = keep_code_lem d _ hd r.0 in (omega (arith, p.1, q.1, r.1, s.1), s.0)

  -- Five readings, of which four are valid and lie in a range, are filtered to a code in that range,
  -- whatever the fifth is, a missing one included, and in whatever order they were taken.
  pub wifi_filter_outlier :
      (a b c d x : ℕ) (readings : List ℕ)
      → In a
      → In b
      → In c
      → In d
      → Perm readings (a ∷ b ∷ c ∷ d ∷ x ∷ [])
      → In (wifi_filter readings).code
  wifi_filter_outlier a b c d x readings ha hb hc hd p =
      let l = four_lem a b c d ha hb hc hd in
      let five : length readings ≤ 5 = omega (arith, length-perm p) in
      rw (wifi_filter-perm p five) (unfold wifi_filter sort_codes in middle_lem x _ l.0 l.1)
