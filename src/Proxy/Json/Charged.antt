-- ===== src/Proxy/Json/Charged.antt =====
-- What an answer in JSON is charged (forwardJSONWithMetering of internal/proxy/handler.go).
use unirate.Prelude.{ℕ, ◌≤◌, ◌<◌, ◌≡◌, ◌≢◌, ◌⊎◌, none, some}
use unirate.Prelude.Text.{Bytes, codes}
use unirate.Prelude.Int.{pos, pos_part}
use unirate.Meter.Estimate.{estimate_tokens}
use unirate.Meter.Usage.{UsageBreakdown}
use unirate.Proxy.Sink.{Setup}
use unirate.Proxy.Json.{header_usage, body_usage, buffered_estimate}

module _ (e : Setup) (truncate : e.floats.F → ℕ) (mode : Bytes) where
  -- Where the number `n` of tokens that are charged comes from: the header, the body, an estimate of the
  -- part that is read, which the safety buffer does not lower, or nowhere.
  abbrev pub ChargedFor : Bytes → Bytes → ℕ → Type 0
  ChargedFor header buf n =
      (header_usage e truncate mode header ≡ some (pos n)) × (0 < n)
      ⊎ ((header_usage e truncate mode header ≡ none)
          × (((bd : UsageBreakdown) × (body_usage e truncate mode buf ≡ some bd)
                × (n ≡ pos_part bd.total))
              ⊎ ((body_usage e truncate mode buf ≡ none)
                  × (((mode ≡ codes "disabled") × (n ≡ 0))
                      ⊎ ((mode ≢ codes "disabled")
                          × (estimate_tokens e.floats (e.runes buf) e.estimate_ratio ≤ n)
                          × (n ≡ buffered_estimate e truncate mode buf))))))
