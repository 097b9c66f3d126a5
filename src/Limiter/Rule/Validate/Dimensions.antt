-- ===== src/Limiter/Rule/Validate/Dimensions.antt =====
-- The dimensions of a rule that Validate of internal/limiter/rule.go accepts.
use unirate.Prelude.{
  ℕ, suc, ◌≤◌, ◌≡◌, ◌≢◌, Bool, true, false, ◌&&◌, ltb, ◌==◌ as nat_eq, Option, none, some, List, [],
  ◌∷◌, length, arith, Bool-cases, inl, inr, refl, ap, sym,
}
use unirate.Prelude.Text.{Bytes, ◌==◌}
use unirate.Prelude.Int.{ℤ, pos, leb_ℤ}
use unirate.Limiter.Rule.{
  Rule, Algorithm, token_bucket, RuleType, rate, concurrency, other_type, Metric, no_metric,
  request, token, other_metric, dim_global, valid_dim, parse_window,
}
use unirate.Limiter.Rule.Validate.{
  Outcome, accepted, RuleError, validate, check_dims, after_dims, validate_type, validate_rate,
  validate_concurrency, with_window, with_metric, with_algorithm, validate_bucket, check_bucket,
  finish_rate, seen_in, normal_dim,
}
use unirate.Limiter.Rule.Validate.Ready.{KindReady, validate_rate-RateReady}

-- Each dimension is a known one, occurs once, and `global` stands alone.
abbrev pub DimsReady : ℕ → List Bytes → List Bytes → Type 0
DimsReady total seen [] = Unit
DimsReady total seen (d ∷ ds) =
    (valid_dim d ≡ true)
    × (seen_in seen d ≡ false)
    × ((d == dim_global) ≡ true → total ≤ 1)
    × DimsReady total (d ∷ seen) ds

check_dims-DimsReady :
    (total : ℕ) (seen ds : List Bytes)
    → (check_dims total seen ds).1 ≡ none
    → DimsReady total seen (check_dims total seen ds).0
      × (length (check_dims total seen ds).0 ≡ length ds)
unfolding check_dims
check_dims-DimsReady total seen [] = λ ok. (tt, refl)
check_dims-DimsReady total seen (raw ∷ ds) =
    let ih = check_dims-DimsReady total (normal_dim raw ∷ seen) ds in
    elim (Bool-cases (valid_dim (normal_dim raw))) [
      | inr unknown ↦ rw unknown (λ ok. cc)
      | inl known ↦ rw known (elim (Bool-cases (seen_in seen (normal_dim raw))) [
        | inl twice ↦ rw twice (λ ok. cc)
        | inr once ↦ rw once (elim (Bool-cases (normal_dim raw == dim_global && ltb 1 total)) [
          | inl mixed ↦ rw mixed (λ ok. cc)
          | inr alone ↦
              rw alone (λ ok. ((known, once, (λ g. ground arith), (ih ok).0), ap suc (ih ok).1))
        ])
      ])
    ]

-- The steps after the loop leave the dimensions.
dimensions-finish_rate : (r : Rule) → (finish_rate r).0.dimensions ≡ r.dimensions
unfolding finish_rate
dimensions-finish_rate r = ground arith

dimensions-check_bucket : (r : Rule) → (check_bucket r).0.dimensions ≡ r.dimensions
unfolding check_bucket
dimensions-check_bucket r = ground (arith, dimensions-finish_rate r)

dimensions-validate_bucket : (r : Rule) → (validate_bucket r).0.dimensions ≡ r.dimensions
unfolding validate_bucket
dimensions-validate_bucket r = elim (Bool-cases (leb_ℤ r.burst (pos 0))) [
  | inl e ↦ rw e (dimensions-check_bucket (record r { burst = r.limit }))
  | inr e ↦ rw e (dimensions-check_bucket r)
]

dimensions-with_algorithm :
    (a : Algorithm) (m : Metric) (r : Rule) → (with_algorithm a m r).0.dimensions ≡ r.dimensions
unfolding with_algorithm
dimensions-with_algorithm token_bucket token r = refl
dimensions-with_algorithm token_bucket m r = dimensions-validate_bucket r
dimensions-with_algorithm a m r = dimensions-finish_rate r

dimensions-with_metric : (m : Metric) (r : Rule) → (with_metric m r).0.dimensions ≡ r.dimensions
unfolding with_metric
dimensions-with_metric request r = dimensions-with_algorithm _ request _
dimensions-with_metric token r = dimensions-with_algorithm _ token _
dimensions-with_metric no_metric r = refl
dimensions-with_metric (other_metric s) r = refl

dimensions-with_window :
    (w : Option (ℤ × Bool)) (r : Rule) → (with_window w r).0.dimensions ≡ r.dimensions
unfolding with_window
dimensions-with_window none r = refl
dimensions-with_window (some (sec, natural)) r = dimensions-with_metric _ _

dimensions-validate_type :
    (t : RuleType) (r : Rule) → (validate_type t r).0.dimensions ≡ r.dimensions
unfolding validate_type validate_concurrency validate_rate
dimensions-validate_type concurrency r = ground arith
dimensions-validate_type rate r = elim (Bool-cases (leb_ℤ r.limit (pos 0))) [
  | inl low ↦ rw low refl
  | inr positive ↦ rw positive (dimensions-with_window (parse_window r.window) r)
]
dimensions-validate_type (other_type s) r = refl

validate_type-KindReady :
    (t : RuleType) (r : Rule) → (validate_type t r).1 ≡ accepted → KindReady t (validate_type t r).0
unfolding validate_type validate_concurrency
validate_type-KindReady rate r ok = validate_rate-RateReady r ok
validate_type-KindReady concurrency r ok = ground arith
validate_type-KindReady (other_type s) r ok = cc

abbrev IsReadyAs : Rule → Rule × Outcome → Type 0
IsReadyAs r (r', o) =
    o ≡ accepted
    → ((r.name == []) ≡ false)
      × (r'.dimensions ≢ [])
      × DimsReady (length r'.dimensions) [] r'.dimensions
      × KindReady r.type r'

length-ne_nil :
    (ds es : List Bytes) → length ds ≡ length es → nat_eq (length es) 0 ≡ false → ds ≢ []
length-ne_nil ds es h k e = ground (arith, ap (λ (l : List Bytes). length l) e)

accepted_after :
    (r : Rule)
    → nat_eq (length r.dimensions) 0 ≡ false
    → (c : List Bytes × Option RuleError) → c ≡ check_dims (length r.dimensions) [] r.dimensions
    → (r.name == []) ≡ false
    → IsReadyAs r (after_dims c r)
unfolding after_dims
accepted_after r many (ds, some e) eq named ok = cc
accepted_after r many (ds, none) eq named ok =
    let (ready, same) =
      check_dims-DimsReady (length r.dimensions) [] r.dimensions
        (ap (λ (c : List Bytes × Option RuleError). c.1) (sym eq)) in
    let ds_eq : ds ≡ (check_dims (length r.dimensions) [] r.dimensions).0 =
      ap (λ (c : List Bytes × Option RuleError). c.0) eq in
    let len : length ds ≡ length r.dimensions = rw ds_eq same in
    let kept = dimensions-validate_type r.type (record r { dimensions = ds }) in
    (
      named,
      rw kept (length-ne_nil ds r.dimensions len many),
      rw (kept, len, ds_eq) ready,
      validate_type-KindReady r.type (record r { dimensions = ds }) ok,
    )

-- A rule that Validate accepts is ready: it has a name; its dimensions are known, normalised and
-- distinct, and `global` stands alone; a concurrency rule has a positive maximum and timeout; a rate
-- rule has a positive limit, the window that its text parses to, a metric and an algorithm filled
-- in, a burst that covers its rate if it is a token bucket, a bounded limit if its window slides,
-- and a watermark from 1 to 100. Only the two known types are accepted.
pub validate-ready :
    (r : Rule)
    → (validate r).1 ≡ accepted
    → ((r.name == []) ≡ false)
      × ((validate r).0.dimensions ≢ [])
      × DimsReady (length (validate r).0.dimensions) [] (validate r).0.dimensions
      × KindReady r.type (validate r).0
unfolding validate
validate-ready r = elim (Bool-cases (r.name == [])) [
  | inl unnamed ↦ rw unnamed (λ ok. cc)
  | inr named ↦ rw named (elim (Bool-cases (nat_eq (length r.dimensions) 0)) [
    | inl empty ↦ rw empty (λ ok. cc)
    | inr some_dims ↦ rw some_dims (λ ok.
        let dims = check_dims (length r.dimensions) [] r.dimensions in
        let (_, b, c, d) = accepted_after r some_dims dims refl named ok in (refl, b, c, d))
  ])
]
