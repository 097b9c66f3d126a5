-- ===== src/Limiter/Rule/Validate/Steps.antt =====
-- The steps of Validate of internal/limiter/rule.go after its dimensions, repeated on what they accepted.
use unirate.Prelude.{◌≡◌, inl, inr, refl, ap, false, ◌||◌, Bool-cases, Option-cases, arith}
use unirate.Prelude.Int.{ℤ, pos, leb_ℤ, ltb_ℤ, ◌/ℤ◌}
use unirate.Limiter.Rule.{
  Rule, Algorithm, no_algorithm, fixed_window, sliding_window, token_bucket, other_algorithm,
  RuleType, rate, concurrency, other_type, Metric, no_metric, request, token, other_metric,
  parse_window, unexported,
}
use unirate.Limiter.Rule.Validate.{
  Outcome, accepted, validate_type, validate_rate, validate_concurrency, with_window, with_metric,
  with_algorithm, validate_bucket, check_bucket, is_zero, finish_rate, default_algorithm,
  default_metric,
}

finish_rate-again :
    (r : Rule)
    → (finish_rate r).1 ≡ accepted
    → (wm : ℤ) × (finish_rate r ≡ (record r { watermark = wm }, accepted))
      × (finish_rate (record r { watermark = wm }) ≡ (record r { watermark = wm }, accepted))
unfolding finish_rate
finish_rate-again r ok =
    elim (Bool-cases (leb_ℤ r.watermark (pos 0) || ltb_ℤ (pos 100) r.watermark)) [
      | inl out ↦ (pos 80, ground (arith, ok, out), ground (arith, ok, out))
      | inr within ↦ (r.watermark, ground (arith, ok, within), ground (arith, ok, within))
    ]

check_bucket-again :
    (b : Rule)
    → (check_bucket b).1 ≡ accepted
    → (wm : ℤ) × (check_bucket b ≡ (record b { watermark = wm }, accepted))
      × (check_bucket (record b { watermark = wm }) ≡ (record b { watermark = wm }, accepted))
unfolding check_bucket
check_bucket-again b = elim (Bool-cases (is_zero b.win_sec)) [
  | inl zero_window ↦ rw zero_window (λ ok. cc)
  | inr divides ↦ rw divides (elim (Bool-cases (ltb_ℤ b.burst (b.limit /ℤ b.win_sec))) [
    | inl small ↦ rw small (λ ok. cc)
    | inr enough ↦ rw enough (λ ok. finish_rate-again b ok)
  ])
]

-- A bucket with a positive burst is checked as it is.
validate_bucket-again :
    (r : Rule)
    → leb_ℤ r.limit (pos 0) ≡ false
    → (validate_bucket r).1 ≡ accepted
    → (burst : ℤ) × (wm : ℤ) × (validate_bucket r
        ≡ (record r { burst = burst; watermark = wm }, accepted))
      × (validate_bucket (record r { burst = burst; watermark = wm })
          ≡ (record r { burst = burst; watermark = wm }, accepted))
unfolding validate_bucket
validate_bucket-again r positive = elim (Bool-cases (leb_ℤ r.burst (pos 0))) [
  | inl no_burst ↦ rw no_burst (λ ok.
      let (wm, first, again) = check_bucket-again (record r { burst = r.limit }) ok in
      (r.limit, wm, first, rw positive again))
  | inr given ↦ rw given (λ ok.
      let (wm, first, again) = check_bucket-again r ok in (r.burst, wm, first, rw given again))
]

with_algorithm-again :
    (a : Algorithm) (m : Metric) (r : Rule)
    → leb_ℤ r.limit (pos 0) ≡ false
    → (with_algorithm a m r).1 ≡ accepted
    → (burst : ℤ) × (wm : ℤ) × (with_algorithm a m r
        ≡ (record r { burst = burst; watermark = wm }, accepted))
      × (with_algorithm a m (record r { burst = burst; watermark = wm })
          ≡ (record r { burst = burst; watermark = wm }, accepted))
unfolding with_algorithm
with_algorithm-again token_bucket token r positive ok = cc
with_algorithm-again token_bucket m r positive ok = validate_bucket-again r positive ok
with_algorithm-again a m r positive ok =
    let (wm, first, again) = finish_rate-again r ok in (r.burst, wm, first, again)

default_algorithm-default_algorithm :
    (a : Algorithm) → default_algorithm (default_algorithm a) ≡ default_algorithm a
unfolding default_algorithm
default_algorithm-default_algorithm no_algorithm = refl
default_algorithm-default_algorithm fixed_window = refl
default_algorithm-default_algorithm sliding_window = refl
default_algorithm-default_algorithm token_bucket = refl
default_algorithm-default_algorithm (other_algorithm s) = refl

default_metric-default_metric : (m : Metric) → default_metric (default_metric m) ≡ default_metric m
unfolding default_metric
default_metric-default_metric no_metric = refl
default_metric-default_metric request = refl
default_metric-default_metric token = refl
default_metric-default_metric (other_metric s) = refl

-- A rule that is accepted, and what it is as an accepted one.
abbrev Settles : (Rule → Rule × Outcome) → Rule → Type 0
Settles f r =
    (a : Algorithm) × (burst : ℤ) × (wm : ℤ) × (f r
      ≡ (record r { algorithm = a; burst = burst; watermark = wm }, accepted))
    × (f (record r { algorithm = a; burst = burst; watermark = wm })
        ≡ (record r { algorithm = a; burst = burst; watermark = wm }, accepted))

with_metric-again :
    (m : Metric) (r : Rule)
    → leb_ℤ r.limit (pos 0) ≡ false
    → (with_metric m r).1 ≡ accepted
    → Settles (with_metric m) r
unfolding with_metric
with_metric-again request r positive ok =
    let a = default_algorithm r.algorithm in
    let (burst, wm, first, again) =
      with_algorithm-again a request (record r { algorithm = a }) positive ok in
    (a, burst, wm, first, rw (default_algorithm-default_algorithm r.algorithm) again)
with_metric-again token r positive ok =
    let a = default_algorithm r.algorithm in
    let (burst, wm, first, again) =
      with_algorithm-again a token (record r { algorithm = a }) positive ok in
    (a, burst, wm, first, rw (default_algorithm-default_algorithm r.algorithm) again)
with_metric-again no_metric r positive ok = cc
with_metric-again (other_metric s) r positive ok = cc

-- An accepted rule, which is accepted as it is when its unexported fields are lost.
abbrev pub Kept : (Rule → Rule × Outcome) → Rule → Type 0
Kept f r =
    (out : Rule) × (f r ≡ (out, accepted))
    × (f (unexported out) ≡ (out, accepted))
    × (out.name ≡ r.name)
    × (out.type ≡ r.type)
    × (out.dimensions ≡ r.dimensions)

validate_rate-again : (r : Rule) → (validate_rate r).1 ≡ accepted → Kept validate_rate r
unfolding validate_rate with_window unexported
validate_rate-again r = elim (Bool-cases (leb_ℤ r.limit (pos 0))) [
  | inl low ↦ rw low (λ ok. cc)
  | inr positive ↦ rw positive (elim (Option-cases (parse_window r.window)) [
    | inl bad ↦ rw bad (λ ok. cc)
    | inr ((sec, natural), e) ↦ rw e (λ ok.
        let m = default_metric r.metric in
        let (a, burst, wm, first, again) =
          with_metric-again m (record r { win_sec = sec; natural = natural; metric = m }) positive
            ok in
        (
          _,
          first,
          rw (positive, e, default_metric-default_metric r.metric) again,
          refl,
          refl,
          refl,
        ))
  ])
]

validate_concurrency-again :
    (r : Rule)
    → unexported r ≡ r
    → (validate_concurrency r).1 ≡ accepted
    → Kept validate_concurrency r
unfolding validate_concurrency unexported
validate_concurrency-again r plain = elim (Bool-cases (leb_ℤ r.max_conc (pos 0))) [
  | inl no_slots ↦ rw no_slots (λ ok. cc)
  | inr slots ↦ rw slots (elim (Bool-cases (leb_ℤ r.timeout_sec (pos 0))) [
    | inl unset ↦ rw unset (λ ok. (
      record r { timeout_sec = pos 120 },
      refl,
      rw slots (ap (λ (p : Rule). (record p { timeout_sec = pos 120 }, accepted)) plain),
      refl,
      refl,
      refl,
    ))
    | inr given ↦ rw given (λ ok.
        (r, refl, rw (slots, given) (ap (λ (p : Rule). (p, accepted)) plain), refl, refl, refl))
  ])
]

pub validate_type-again :
    (t : RuleType) (r : Rule)
    → unexported r ≡ r
    → (validate_type t r).1 ≡ accepted
    → Kept (validate_type t) r
unfolding validate_type
validate_type-again rate r plain ok = validate_rate-again r ok
validate_type-again concurrency r plain ok = validate_concurrency-again r plain ok
validate_type-again (other_type s) r plain ok = cc
