-- ===== src/Meter/Estimate.antt =====
-- EstimateTokens of internal/meter/token.go. A string is given by its runes, which `range` decodes.
use unirate.Prelude.{
  ℕ, ◌+◌, ◌*◌, ◌/◌, ◌≤◌, ◌<◌, ◌≡◌, refl, Bool-cases, inl, inr, Bool, false, ◌&&◌, ◌||◌, ltb, leb,
  if◌then◌else◌, List, [], ◌∷◌, ◌++◌, arith,
}
use unirate.Meter.Floats.{Floats}

pub is_cjk : ℕ → Bool
is_cjk r =
    (leb 0x4E00 r && leb r 0x9FFF)
    || ((leb 0x3400 r && leb r 0x4DBF)
        || ((leb 0x3040 r && leb r 0x30FF)
            || ((leb 0xAC00 r && leb r 0xD7AF) || (leb 0xFF00 r && leb r 0xFFEF))))

pub record Census : Type 0 where
  pub ascii : ℕ
  pub cjk : ℕ
  pub other : ℕ

count_rune : Census → ℕ → Census
count_rune n r =
    if ltb r 0x80
    then record n { ascii = n.ascii + 1 }
    else if is_cjk r
    then record n { cjk = n.cjk + 1 }
    else record n { other = n.other + 1 }

census_from : Census → List ℕ → Census
census_from n [] = n
census_from n (r ∷ rs) = census_from (count_rune n r) rs

pub census : List ℕ → Census
unfolding census_from
census rs = census_from (record { ascii = 0; cjk = 0; other = 0 }) rs

-- ascii/4 + cjk + other/2, in quarters.
abbrev pub quarters : Census → ℕ
quarters n = n.ascii + 4 * n.cjk + 2 * n.other

count_rune-quarters :
    (n : Census) (r : ℕ)
    → (quarters n < quarters (count_rune n r)) × (quarters (count_rune n r) ≤ quarters n + 4)
unfolding count_rune
count_rune-quarters n r = ground arith

-- The census of a text is that of its parts, added up.
abbrev plus : Census → Census → Census
plus m n = record { ascii = m.ascii + n.ascii; cjk = m.cjk + n.cjk; other = m.other + n.other }

count_rune-plus : (m n : Census) (r : ℕ) → count_rune (plus m n) r ≡ plus m (count_rune n r)
unfolding count_rune
count_rune-plus m n r = ground arith

census_from-plus :
    (m n : Census) (rs : List ℕ) → census_from (plus m n) rs ≡ plus m (census_from n rs)
unfolding census_from
census_from-plus m n [] = refl
census_from-plus m n (r ∷ rs) = rw count_rune-plus (census_from-plus m (count_rune n r) rs)

census_from-append :
    (n : Census) (rs ss : List ℕ) → census_from n (rs ++ ss) ≡ census_from (census_from n rs) ss
unfolding census_from
census_from-append n [] ss = refl
census_from-append n (r ∷ rs) ss = census_from-append (count_rune n r) rs ss

census_from-quarters : (n : Census) (rs : List ℕ) → quarters n ≤ quarters (census_from n rs)
unfolding census_from
census_from-quarters n [] = omega arith
census_from-quarters n (r ∷ rs) =
    omega (arith, count_rune-quarters n r, census_from-quarters (count_rune n r) rs)

plus-zero : (m : Census) → plus m (record { ascii = 0; cjk = 0; other = 0 }) ≡ m
plus-zero m = ground arith

census-quarters : (r : ℕ) (rs : List ℕ) → 0 < quarters (census (r ∷ rs))
unfolding census census_from
census-quarters r rs =
    let zero_census : Census = record { ascii = 0; cjk = 0; other = 0 } in
    omega
      (arith, count_rune-quarters zero_census r, census_from-quarters (count_rune zero_census r) rs)

quarters-append :
    (rs ss : List ℕ) → quarters (census (rs ++ ss)) ≡ quarters (census rs) + quarters (census ss)
unfolding census
quarters-append rs ss =
    let zero_census : Census = record { ascii = 0; cjk = 0; other = 0 } in
    rw (census_from-append zero_census rs ss) (
      ground (
        arith,
        census_from-plus (census_from zero_census rs) zero_census ss,
        plus-zero (census_from zero_census rs),
      ))

module _ (fl : Floats) where
  open fl use {F, of_ℕ, add, mul, div, lt, ceil, four_tenths, ceil_weights, lt_weights, ceil_pos}

  weight : Census → F
  weight n = add (add (div (of_ℕ n.ascii) (of_ℕ 4)) (of_ℕ n.cjk)) (div (of_ℕ n.other) (of_ℕ 2))

  pub estimate_tokens : List ℕ → F → ℕ
  unfolding weight
  estimate_tokens [] ratio = 0
  estimate_tokens (r ∷ rs) ratio =
      let est = weight (census (r ∷ rs)) in
      let scaled = if lt (of_ℕ 0) ratio then mul est (div ratio four_tenths) else est in
      if lt scaled (of_ℕ 1) then 1 else ceil scaled

  at_least_one : (x : F) → 0 < (if lt x (of_ℕ 1) then 1 else ceil x)
  at_least_one x = elim (Bool-cases (lt x (of_ℕ 1))) [
    | inl e ↦ rw e (omega arith)
    | inr e ↦ rw e (ceil_pos x e)
  ]

  -- Every text that is not empty counts for at least one token, whatever the calibration.
  estimate_tokens_pos : (r : ℕ) (rs : List ℕ) (ratio : F) → 0 < estimate_tokens (r ∷ rs) ratio
  unfolding estimate_tokens
  estimate_tokens_pos r rs ratio = at_least_one _

  weight-lt : (n : Census) → lt (weight n) (of_ℕ 1) ≡ ltb (quarters n) 4
  unfolding weight
  weight-lt n = lt_weights n.ascii n.cjk n.other

  weight-ceil : (n : Census) → ceil (weight n) ≡ (quarters n + 3) / 4
  unfolding weight
  weight-ceil n = ceil_weights n.ascii n.cjk n.other

  -- Without a calibration factor the estimate is the number of quarters, rounded up.
  estimate_tokens_lem :
      (rs : List ℕ) (ratio : F)
      → lt (of_ℕ 0) ratio ≡ false
      → estimate_tokens rs ratio ≡ (quarters (census rs) + 3) / 4
  unfolding estimate_tokens
  estimate_tokens_lem [] ratio h = unfold census census_from in refl
  estimate_tokens_lem (r ∷ rs) ratio h =
      let n = census (r ∷ rs) in
      rw h (rw (weight-lt n, weight-ceil n) (ground (arith, census-quarters r rs)))

  -- A stream is not undercounted by being cut into frames: without a calibration factor, the
  -- estimates of two parts add up to the estimate of the whole or to one token more.
  estimate_tokens-append :
      (rs ss : List ℕ) (ratio : F)
      → lt (of_ℕ 0) ratio ≡ false
      → let parts = estimate_tokens rs ratio + estimate_tokens ss ratio in
        (estimate_tokens (rs ++ ss) ratio ≤ parts) × (parts ≤ estimate_tokens (rs ++ ss) ratio + 1)
  estimate_tokens-append rs ss ratio h =
      rw
        (
          estimate_tokens_lem rs ratio h,
          estimate_tokens_lem ss ratio h,
          estimate_tokens_lem (rs ++ ss) ratio h,
          quarters-append rs ss,
        )
        (omega arith)
