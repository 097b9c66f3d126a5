-- ===== src/Proxy/Json.antt =====
-- forwardJSONWithMetering of internal/proxy/handler.go: an answer in JSON, which is passed on and whose
-- tokens are counted. A body is what its reads give until its end or an error. encoding/json, the decoding
-- of runes, float64 and the ledger are those of Proxy/Sink; the conversion of a float64 to an int64 is a
-- parameter. What the client does not take is lost without an effect here.
pub mod Charged
mod Examples
use unirate.Prelude.{
  ℕ, ◌+◌, ◌≡◌, Bool, true, false, not, ◌||◌, if◌then◌else◌, Option, none, some, List, [], ◌∷◌, ◌++◌,
  length, ◌==◌ as nat_eq,
}
use unirate.Prelude.Lists.{take, drop}
use unirate.Prelude.Text.{Bytes, codes, ◌==◌, trim_space}
use unirate.Prelude.Int.{ℤ, pos, pos_part, parse_int}
use unirate.Meter.Estimate.{estimate_tokens}
use unirate.Meter.Usage.{UsageBreakdown, is_pos, extract_usage_breakdown, parse_header_usage}
use unirate.Proxy.Sink.{Setup, Metrics, count_tokens, count_token_kinds}

-- maxMeterBody
abbrev pub max_meter_body : ℕ
max_meter_body = 8_388_608

-- What the gateway passes on, the ledger and the counters.
pub record MeteredJson (St : Type 0) : Type 0 where
  pub sent : Bytes
  pub st : St
  pub met : Metrics

module _ (e : Setup) (truncate : e.floats.F → ℕ) (mode : Bytes) where
  -- Both the header and the body are looked at in the mode auto.
  mode_is : Bytes → Bool
  mode_is name = mode == name || mode == codes "auto"

  pub header_usage : Bytes → Option ℤ
  unfolding mode_is
  header_usage header =
      if mode_is (codes "header") then parse_header_usage parse_int trim_space header else none

  pub body_usage : Bytes → Option UsageBreakdown
  unfolding mode_is
  body_usage buf =
      if mode_is (codes "json_body") then extract_usage_breakdown e.unmarshal_usage buf else none

  pub buffered_estimate : Bytes → ℕ
  buffered_estimate buf =
      let used = estimate_tokens e.floats (e.runes buf) e.estimate_ratio in
      if e.floats.lt (e.floats.of_ℕ 1) e.safety_buffer
      then truncate (e.floats.mul (e.floats.of_ℕ used) e.safety_buffer)
      else used

  -- The tokens used, and the split that the body reports. A usage that the body reports counts even if its
  -- total is not positive.
  measured : Bytes → Option ℤ → Option UsageBreakdown → ℤ × Option UsageBreakdown
  unfolding buffered_estimate
  measured buf (some v) found = (v, none)
  measured buf none (some bd) = (bd.total, some bd)
  measured buf none none =
      (if mode == codes "disabled" then pos 0 else pos (buffered_estimate buf), none)

  -- An error of the reservation is counted, and the tokens are counted with or without it.
  book_used : e.ledger.St → Metrics → ℤ → e.ledger.St × Metrics
  book_used st met used =
      let (st', failed) = e.ledger.reserve st (pos_part used) in
      let met' = if failed then record met { redis_errors = met.redis_errors + 1 } else met in
      if is_pos used then (st', count_tokens met' (pos_part used)) else (st, met)

  pub meter_json : e.ledger.St → Metrics → Bytes → Bytes → MeteredJson e.ledger.St
  unfolding header_usage body_usage measured book_used
  meter_json st met header body =
      let buf = take max_meter_body body in
      let rest = if nat_eq (length buf) max_meter_body then drop max_meter_body body else [] in
      let (used, kinds) = measured buf (header_usage header) (body_usage buf) in
      let (st', met') = book_used st (count_token_kinds met kinds) used in
      record { sent = buf ++ rest; st = st'; met = met' }
