-- ===== src/Limiter/Rule/Validate/Ready.antt =====
-- What Validate of internal/limiter/rule.go promises of a rule that it accepts.
use unirate.Prelude.{◌≡◌, ◌≢◌, ◌⊎◌, some, arith, Bool-cases, Option-cases, inl, inr, refl}
use unirate.Prelude.Int.{pos, ◌≤ℤ◌, ◌<ℤ◌, ◌/ℤ◌, leb_ℤ, ltb_ℤ}
use unirate.Limiter.Rule.{
  Rule, Algorithm, no_algorithm, fixed_window, sliding_window, token_bucket, other_algorithm,
  RuleType, rate, concurrency, other_type, Metric, no_metric, request, token, other_metric,
  parse_window,
}
use unirate.Limiter.Rule.Validate.{
  accepted, validate_rate, with_window, with_metric, with_algorithm, validate_bucket, check_bucket,
  is_zero, finish_rate, default_algorithm, default_metric,
}

-- A rate rule as Check relies on it.
pub record RateReady (r : Rule) : Type 0 where
  pub limit_pos : pos 0 <ℤ r.limit
  pub window_parsed : parse_window r.window ≡ some (r.win_sec, r.natural)
  pub metric_known : (r.metric ≡ request) ⊎ (r.metric ≡ token)
  pub algorithm_set : r.algorithm ≢ no_algorithm
  pub bucket_counts_requests : r.algorithm ≡ token_bucket → r.metric ≡ request
  pub burst_covers_rate : r.algorithm ≡ token_bucket → r.limit /ℤ r.win_sec ≤ℤ r.burst
  pub sliding_bounded : r.algorithm ≡ sliding_window → r.limit ≤ℤ pos 100000
  pub watermark_low : pos 1 ≤ℤ r.watermark
  pub watermark_high : r.watermark ≤ℤ pos 100

abbrev pub KindReady : RuleType → Rule → Type 0
KindReady rate r = RateReady r
KindReady concurrency r = (pos 0 <ℤ r.max_conc) × (pos 0 <ℤ r.timeout_sec)
KindReady (other_type s) r = ⊥

-- What the steps before the bucket and the watermark have settled.
record Settled (m : Metric) (a : Algorithm) (r : Rule) : Type 0 where
  limit_pos : pos 0 <ℤ r.limit
  window_parsed : parse_window r.window ≡ some (r.win_sec, r.natural)
  metric_eq : r.metric ≡ m
  algorithm_eq : r.algorithm ≡ a

finish_rate-RateReady :
    (m : Metric) (a : Algorithm) (r : Rule)
    → Settled m a r
    → (m ≡ request) ⊎ (m ≡ token)
    → a ≢ no_algorithm
    → (a ≡ token_bucket → m ≡ request)
    → (a ≡ token_bucket → r.limit /ℤ r.win_sec ≤ℤ r.burst)
    → (finish_rate r).1 ≡ accepted
    → RateReady (finish_rate r).0
unfolding finish_rate
finish_rate-RateReady m a r v known set bucket burst ok = ground arith

check_bucket-RateReady :
    (b : Rule)
    → Settled request token_bucket b
    → (check_bucket b).1 ≡ accepted
    → RateReady (check_bucket b).0
unfolding check_bucket
check_bucket-RateReady b v = elim (Bool-cases (is_zero b.win_sec)) [
  | inl zero_window ↦ rw zero_window (λ ok. cc)
  | inr divides ↦ rw divides (elim (Bool-cases (ltb_ℤ b.burst (b.limit /ℤ b.win_sec))) [
    | inl small ↦ rw small (λ ok. cc)
    | inr enough ↦ rw enough (λ ok.
        finish_rate-RateReady request token_bucket b v (inl refl) (λ e. cc) (λ e. refl)
          (λ e. ground arith) ok)
  ])
]

validate_bucket-RateReady :
    (r : Rule)
    → Settled request token_bucket r
    → (validate_bucket r).1 ≡ accepted
    → RateReady (validate_bucket r).0
unfolding validate_bucket
validate_bucket-RateReady r v = elim (Bool-cases (leb_ℤ r.burst (pos 0))) [
  | inl no_burst ↦ rw no_burst (
      check_bucket-RateReady (record r { burst = r.limit })
        (record {
          limit_pos = v.limit_pos;
          window_parsed = v.window_parsed;
          metric_eq = v.metric_eq;
          algorithm_eq = v.algorithm_eq;
        }))
  | inr own ↦ rw own (check_bucket-RateReady r v)
]

with_algorithm-RateReady :
    (m : Metric) (a : Algorithm) (r : Rule)
    → Settled m a r
    → (m ≡ request) ⊎ (m ≡ token)
    → a ≢ no_algorithm
    → (with_algorithm a m r).1 ≡ accepted
    → RateReady (with_algorithm a m r).0
unfolding with_algorithm
with_algorithm-RateReady m no_algorithm r v known set ok = absurd (set refl)
with_algorithm-RateReady request token_bucket r v known set ok = validate_bucket-RateReady r v ok
with_algorithm-RateReady token token_bucket r v known set ok = cc
with_algorithm-RateReady no_metric token_bucket r v known set ok = ground arith
with_algorithm-RateReady (other_metric s) token_bucket r v known set ok = ground arith
with_algorithm-RateReady m a r v known set ok =
    finish_rate-RateReady m a r v known set (λ e. cc) (λ e. cc) ok

default_algorithm-set : (a : Algorithm) → default_algorithm a ≢ no_algorithm
unfolding default_algorithm
default_algorithm-set no_algorithm e = cc
default_algorithm-set fixed_window e = cc
default_algorithm-set sliding_window e = cc
default_algorithm-set token_bucket e = cc
default_algorithm-set (other_algorithm s) e = cc

-- The rule with its algorithm filled in.
abbrev filled : Rule → Rule
filled r = record r { algorithm = default_algorithm r.algorithm }

filled-Settled :
    (m : Metric) (r : Rule)
    → pos 0 <ℤ r.limit
    → parse_window r.window ≡ some (r.win_sec, r.natural)
    → r.metric ≡ m
    → Settled m (default_algorithm r.algorithm) (filled r)
filled-Settled m r l w e = record {
  limit_pos = l;
  window_parsed = w;
  metric_eq = e;
  algorithm_eq = refl;
}

with_metric-RateReady :
    (m : Metric) (r : Rule)
    → pos 0 <ℤ r.limit
    → parse_window r.window ≡ some (r.win_sec, r.natural)
    → r.metric ≡ m
    → (with_metric m r).1 ≡ accepted
    → RateReady (with_metric m r).0
unfolding with_metric
with_metric-RateReady request r l w e ok =
    with_algorithm-RateReady request (default_algorithm r.algorithm) (filled r)
      (filled-Settled request r l w e) (inl refl) (default_algorithm-set r.algorithm) ok
with_metric-RateReady token r l w e ok =
    with_algorithm-RateReady token (default_algorithm r.algorithm) (filled r)
      (filled-Settled token r l w e) (inr refl) (default_algorithm-set r.algorithm) ok
with_metric-RateReady no_metric r l w e ok = cc
with_metric-RateReady (other_metric s) r l w e ok = cc

pub validate_rate-RateReady :
    (r : Rule) → (validate_rate r).1 ≡ accepted → RateReady (validate_rate r).0
unfolding validate_rate with_window
validate_rate-RateReady r = elim (Bool-cases (leb_ℤ r.limit (pos 0))) [
  | inl low ↦ rw low (λ ok. cc)
  | inr positive ↦ rw positive (elim (Option-cases (parse_window r.window)) [
    | inl bad ↦ rw bad (λ ok. cc)
    | inr ((sec, natural), parsed) ↦ rw parsed (λ ok.
        with_metric-RateReady (default_metric r.metric)
          (record r { win_sec = sec; natural = natural; metric = default_metric r.metric })
          (ground arith) parsed refl ok)
  ])
]
