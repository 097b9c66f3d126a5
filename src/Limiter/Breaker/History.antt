-- ===== src/Limiter/Breaker/History.antt =====
-- Histories of calls of the breaker of internal/limiter/breaker.go.
use native.Mathlib.Nat.{add-zero, zero-add}
use unirate.Prelude.{
  ℕ, suc, ◌+◌, ◌-◌, ◌*◌, ◌≤◌, ◌<◌, ◌≡◌, ◌≢◌, List, [], ◌∷◌, map, length, All, arith, ◌∙◌, ◌⊎◌, inl,
  inr, refl, subst, sym,
}
use unirate.Limiter.Breaker.{
  Breaker, Call, asks, succeeds, fails, state_closed, new_breaker, degraded, on_success, on_failure,
  step, run,
}
use unirate.Limiter.Breaker.Laws.{Inv, degraded-Inv, on_success-Inv, on_failure-Inv}

step-Inv : (b : Breaker) (c : ℕ × Call) → Inv b → Inv (step b c)
unfolding step
step-Inv b (now, asks) v = degraded-Inv b now v
step-Inv b (now, succeeds) v = on_success-Inv b now v
step-Inv b (now, fails) v = on_failure-Inv b now v

run-Inv : (b : Breaker) (cs : List (ℕ × Call)) → Inv b → Inv (run b cs)
unfolding run
run-Inv b [] v = v
run-Inv b (c ∷ cs) v = run-Inv (step b c) cs (step-Inv b c v)

new_breaker-Inv : (now : ℕ) → Inv (new_breaker now)
unfolding new_breaker
new_breaker-Inv now = ground arith

-- After any history from a new breaker, the counts of the window do not call for a trip: every
-- failure that reached the threshold and the ratio has tripped it.
run-new_breaker-Inv : (now : ℕ) (cs : List (ℕ × Call)) → Inv (run (new_breaker now) cs)
run-new_breaker-Inv now cs = run-Inv _ cs (new_breaker-Inv now)

abbrev pub weight : Call → ℕ
weight asks = 0
weight succeeds = 0
weight fails = 1

-- The failed calls of a history.
abbrev pub failed : List (ℕ × Call) → ℕ
failed [] = 0
failed ((now, c) ∷ cs) = weight c + failed cs

-- `n` is a number of failed calls that accounts for the state.
record Accounted (n : ℕ) (b : Breaker) : Type 0 where
  window_le : b.failures ≤ n
  open_needs : b.state ≢ state_closed → b.threshold ≤ n
  trips_need : b.threshold * b.total_trips + b.failures ≤ n
  errors_eq : b.total_errors ≡ n

mul-suc_le : (t k f n : ℕ) → t ≤ f + 1 → t * k + f ≤ n → t * (k + 1) + 0 ≤ n + 1
mul-suc_le t k f n h g = omega arith

step-Accounted :
    (n : ℕ) (b : Breaker) (now : ℕ) (c : Call)
    → Accounted n b
    → Accounted (n + weight c) (step b (now, c))
unfolding step degraded on_success on_failure
step-Accounted n b now asks v = ground arith
step-Accounted n b now succeeds v = ground arith
step-Accounted n b now fails v = ground (
  arith,
  mul-suc_le b.threshold b.total_trips b.failures n,
  mul-suc_le b.threshold b.total_trips 0 n,
)

run-Accounted :
    (n : ℕ) (b : Breaker) (cs : List (ℕ × Call))
    → Accounted n b
    → Accounted (n + failed cs) (run b cs)
unfolding run
run-Accounted n b [] v = rw add-zero v
run-Accounted n b ((now, c) ∷ cs) v =
    subst (λ (k : ℕ). Accounted k (run (step b (now, c)) cs)) (omega arith)
      (run-Accounted (n + weight c) (step b (now, c)) cs (step-Accounted n b now c v))

step-threshold : (b : Breaker) (now : ℕ) (c : Call) → (step b (now, c)).threshold ≡ b.threshold
unfolding step degraded on_success on_failure
step-threshold b now asks = ground arith
step-threshold b now succeeds = ground arith
step-threshold b now fails = ground arith

run-threshold : (b : Breaker) (cs : List (ℕ × Call)) → (run b cs).threshold ≡ b.threshold
unfolding run
run-threshold b [] = refl
run-threshold b ((now, c) ∷ cs) = run-threshold (step b (now, c)) cs ∙ step-threshold b now c

new_breaker-Accounted : (now : ℕ) → Accounted 0 (new_breaker now)
unfolding new_breaker
new_breaker-Accounted now = ground arith

scaled : (t k f n : ℕ) → t ≡ 20 → t * k + f ≤ n → 20 * k ≤ n
scaled t k f n e h = let g = rw e at h in omega arith

-- Sporadic errors do not open the breaker: after any history from a new breaker, in whatever order
-- calls succeed, fail and ask, `totalErrors` is the number of failed calls, each trip accounts for
-- twenty failed calls of its own, and a breaker that is not closed has seen twenty.
pub trips_need_failures :
    (now : ℕ) (cs : List (ℕ × Call))
    → let b = run (new_breaker now) cs in
      (b.total_errors ≡ failed cs)
      × (20 * b.total_trips ≤ failed cs)
      × (b.state ≢ state_closed → 20 ≤ failed cs)
trips_need_failures now cs =
    let v : Accounted (failed cs) (run (new_breaker now) cs) =
      rw zero-add at (run-Accounted 0 (new_breaker now) cs (new_breaker-Accounted now)) in
    let t : (run (new_breaker now) cs).threshold ≡ 20 =
      run-threshold (new_breaker now) cs ∙ (unfold new_breaker in refl) in
    (
      v.errors_eq,
      scaled _ _ _ _ t v.trips_need,
      λ open_state. subst (λ (k : ℕ). k ≤ failed cs) t (v.open_needs open_state),
    )

-- A sustained outage.
abbrev pub outage : List ℕ → List (ℕ × Call)
outage = map λ t. (t, fails)

step-total_trips :
    (b : Breaker) (now : ℕ) (c : Call) → b.total_trips ≤ (step b (now, c)).total_trips
unfolding step degraded on_success on_failure
step-total_trips b now asks = ground arith
step-total_trips b now succeeds = ground arith
step-total_trips b now fails = ground arith

run-total_trips : (b : Breaker) (cs : List (ℕ × Call)) → b.total_trips ≤ (run b cs).total_trips
unfolding run
run-total_trips b [] = omega arith
run-total_trips b ((now, c) ∷ cs) =
    omega (arith, step-total_trips b now c, run-total_trips (step b (now, c)) cs)

-- A failed call within the window trips a closed breaker or is counted.
fails_cases :
    (b : Breaker) (now : ℕ)
    → b.state ≡ state_closed
    → now - b.window_at ≤ b.window
    → ((step b (now, fails)).total_trips ≡ b.total_trips + 1)
      ⊎ (step b (now, fails)
          ≡ record b { failures = b.failures + 1; total_errors = b.total_errors + 1 })
unfolding step on_failure
fails_cases b now h k = ground arith

regroup :
    (r d f n s : ℕ) → r * (f + suc n + s) ≤ (f + suc n) * d → r * (f + 1 + n + s) ≤ (f + 1 + n) * d
regroup r d f n s h = omega arith

-- An outage is found: in a closed breaker that is not overdue, failed calls within one window, with
-- no success between them, trip it as soon as they reach the threshold and the ratio together with
-- what the window had counted before.
pub outage_trips :
    (b : Breaker) (ts : List ℕ)
    → Inv b
    → b.state ≡ state_closed
    → All (λ t. t - b.window_at ≤ b.window) ts
    → b.threshold ≤ b.failures + length ts
    → b.ratio.0 * (b.failures + length ts + b.successes) ≤ (b.failures + length ts) * b.ratio.1
    → b.total_trips < (run b (outage ts)).total_trips
unfolding run
outage_trips b [] v closed near enough ratio = absurd (ground arith)
outage_trips b (t ∷ ts) v closed (near, rest) enough ratio = elim (fails_cases b t closed near) [
  | inl trips ↦ omega (arith, run-total_trips (step b (t, fails)) (outage ts))
  | inr counted ↦
      subst (λ c. b.total_trips < (run c (outage ts)).total_trips) (sym counted)
        (outage_trips (record b { failures = b.failures + 1; total_errors = b.total_errors + 1 }) ts
          (subst Inv counted (step-Inv b (t, fails) v)) closed rest (omega arith)
          (regroup b.ratio.0 b.ratio.1 b.failures (length ts) b.successes ratio))
]
