-- ===== src/Limiter/Rule/Validate.antt =====
-- Validate of internal/limiter/rule.go. It returns the rule as it leaves it, also where it fails.
pub mod Ready
pub mod Dimensions
pub mod Overflow
pub mod Steps
pub mod Again
mod Examples
use unirate.Prelude.{
  ℕ, ◌+◌, ◌≤◌, ◌<◌, ◌≡◌, ◌≢◌, ◌⊎◌, Bool, true, false, ◌||◌, ◌&&◌, not, ltb, if◌then◌else◌,
  ◌==◌ as nat_eq, Option, none, some, List, [], ◌∷◌, length, arith, Bool-cases, inl, inr, refl,
}
use unirate.Prelude.Text.{Bytes, codes, ◌==◌, trim_space, to_lower}
use unirate.Prelude.Int.{ℤ, pos, negsuc, pos_part, neg_part, leb_ℤ, ltb_ℤ, ◌≤ℤ◌, ◌<ℤ◌, ◌/ℤ◌}
use unirate.Limiter.Rule.{
  Rule, Algorithm, no_algorithm, fixed_window, sliding_window, token_bucket, other_algorithm,
  RuleType, rate, concurrency, other_type, Metric, no_metric, request, token, other_metric,
  dim_global, valid_dim, parse_window,
}

pub data RuleError : Type 0 where
  name_required dimensions_required unknown_dimension duplicated_dimension global_combined :
      RuleError
  bad_max_concurrent bad_limit bad_window unknown_metric token_bucket_token burst_too_small :
      RuleError
  sliding_limit unknown_type : RuleError

-- `panicked` is an integer divide by zero.
pub data Outcome : Type 0 where
  accepted : Outcome
  rejected : RuleError → Outcome
  panicked : Outcome

pub seen_in : List Bytes → Bytes → Bool
seen_in [] d = false
seen_in (s ∷ seen) d = s == d || seen_in seen d

pub normal_dim : Bytes → Bytes
normal_dim d = to_lower (trim_space d)

-- The loop over the dimensions, of which there are `total`; the ones before an error are replaced.
pub check_dims : ℕ → List Bytes → List Bytes → List Bytes × Option RuleError
unfolding seen_in
check_dims total seen [] = ([], none)
check_dims total seen (raw ∷ ds) =
    let d = normal_dim raw in
    let (ds', error) = check_dims total (d ∷ seen) ds in
    if not (valid_dim d)
    then (raw ∷ ds, some unknown_dimension)
    else if seen_in seen d
    then (raw ∷ ds, some duplicated_dimension)
    else if d == dim_global && ltb 1 total
    then (raw ∷ ds, some global_combined)
    else (d ∷ ds', error)

validate_concurrency : Rule → Rule × Outcome
validate_concurrency r =
    if leb_ℤ r.max_conc (pos 0)
    then (r, rejected bad_max_concurrent)
    else if leb_ℤ r.timeout_sec (pos 0)
    then (record r { timeout_sec = pos 120 }, accepted)
    else (r, accepted)

default_metric : Metric → Metric
default_metric no_metric = request
default_metric request = request
default_metric token = token
default_metric (other_metric s) = other_metric s

default_algorithm : Algorithm → Algorithm
default_algorithm no_algorithm = fixed_window
default_algorithm fixed_window = fixed_window
default_algorithm sliding_window = sliding_window
default_algorithm token_bucket = token_bucket
default_algorithm (other_algorithm s) = other_algorithm s

-- The last two steps of a rate rule: the bound of a sliding window, and the watermark.
finish_rate : Rule → Rule × Outcome
finish_rate r =
    let w =
      if leb_ℤ r.watermark (pos 0) || ltb_ℤ (pos 100) r.watermark
      then record r { watermark = pos 80 }
      else r in
    elim r.algorithm [
      | sliding_window ↦
          if ltb_ℤ (pos 100000) r.limit then (r, rejected sliding_limit) else (w, accepted)
      | _ ↦ (w, accepted)
    ]

is_zero : ℤ → Bool
is_zero z = leb_ℤ z (pos 0) && leb_ℤ (pos 0) z

-- The checks of a token bucket over requests. `r.Limit/r.winSec` divides.
check_bucket : Rule → Rule × Outcome
unfolding is_zero
check_bucket b =
    if is_zero b.win_sec
    then (b, panicked)
    else if ltb_ℤ b.burst (b.limit /ℤ b.win_sec)
    then (b, rejected burst_too_small)
    else finish_rate b

-- A burst that is not positive is the limit.
validate_bucket : Rule → Rule × Outcome
validate_bucket r = check_bucket (if leb_ℤ r.burst (pos 0) then record r { burst = r.limit } else r)

with_algorithm : Algorithm → Metric → Rule → Rule × Outcome
unfolding validate_bucket
with_algorithm token_bucket token r = (r, rejected token_bucket_token)
with_algorithm token_bucket _ r = validate_bucket r
with_algorithm _ _ r = finish_rate r

with_metric : Metric → Rule → Rule × Outcome
unfolding default_algorithm
with_metric request r =
    let a = default_algorithm r.algorithm in with_algorithm a request (record r { algorithm = a })
with_metric token r =
    let a = default_algorithm r.algorithm in with_algorithm a token (record r { algorithm = a })
with_metric _ r = (r, rejected unknown_metric)

with_window : Option (ℤ × Bool) → Rule → Rule × Outcome
unfolding default_metric
with_window none r = (r, rejected bad_window)
with_window (some (sec, natural)) r =
    let m = default_metric r.metric in
    with_metric m (record r { win_sec = sec; natural = natural; metric = m })

pub validate_rate : Rule → Rule × Outcome
validate_rate r =
    if leb_ℤ r.limit (pos 0) then (r, rejected bad_limit) else with_window (parse_window r.window) r

pub validate_type : RuleType → Rule → Rule × Outcome
validate_type concurrency r = validate_concurrency r
validate_type rate r = validate_rate r
validate_type (other_type s) r = (r, rejected unknown_type)

after_dims : List Bytes × Option RuleError → Rule → Rule × Outcome
after_dims (ds, none) r = validate_type r.type (record r { dimensions = ds })
after_dims (ds, some e) r = (record r { dimensions = ds }, rejected e)

pub validate : Rule → Rule × Outcome
validate r =
    if r.name == []
    then (r, rejected name_required)
    else if nat_eq (length r.dimensions) 0
    then (r, rejected dimensions_required)
    else after_dims (check_dims (length r.dimensions) [] r.dimensions) r
