-- ===== src/Proxy/Sink.antt =====
-- sseSink of internal/proxy/handler.go. The token ledger is an interface, a state with TokenReserve
-- and TokenSettle, each of which may report an error; encoding/json, the decoding of runes,
-- bytes.TrimSpace and float64 are parameters. A handler holds the mutex or runs on the goroutine that
-- copies the stream, so a call is one step.
pub mod Account
pub mod Redis
pub mod Examples
use unirate.Prelude.{
  ℕ, ◌+◌, ◌≤◌, ◌≡◌, Bool, true, false, ltb, ◌==◌ as nat_eq, not, ◌||◌, if◌then◌else◌, Option, none,
  some, List, [], ◌∷◌,
}
use unirate.Prelude.Text.{Bytes, ◌==◌}
use unirate.Prelude.Int.{ℤ, pos, pos_part}
use unirate.Meter.Floats.{Floats}
use unirate.Meter.Counter.{Counter, empty_counter, add_estimate, set_exact, pending_flush, final}
use unirate.Meter.Estimate.{estimate_tokens}
use unirate.Meter.Usage.{
  UsagePayload, UsageBreakdown, SseDelta, is_pos, extract_usage_breakdown, parse_sse_data,
}

-- limiter.TokenReserve and TokenSettle for the rules and the metadata of one request: the new state,
-- and whether an error came back.
pub record TokenLedger : Type 1 where
  pub St : Type 0
  pub reserve : St → ℕ → St × Bool
  pub settle : St → ℕ → ℕ → St × Bool

-- What the sink is built from, and the outside code that it calls.
pub record Setup : Type 1 where
  pub floats : Floats
  pub ledger : TokenLedger
  pub unmarshal_delta : Bytes → Option SseDelta
  pub unmarshal_usage : Bytes → Option UsagePayload
  pub trim_space : Bytes → Bytes
  pub runes : Bytes → List ℕ
  pub estimate_ratio : floats.F
  pub safety_buffer : floats.F

-- The counters that the sink writes.
pub record Metrics : Type 0 where
  pub token_consumed : ℕ
  pub prompt_tokens : ℕ
  pub completion_tokens : ℕ
  pub token_settled : ℕ
  pub redis_errors : ℕ

pub count_tokens : Metrics → ℕ → Metrics
count_tokens m n = if ltb 0 n then record m { token_consumed = m.token_consumed + n } else m

count_split : Bool → Metrics → UsageBreakdown → Metrics
count_split false m u = m
count_split true m u = record m {
  prompt_tokens = m.prompt_tokens + (if is_pos u.prompt then pos_part u.prompt else 0);
  completion_tokens =
      m.completion_tokens + (if is_pos u.completion then pos_part u.completion else 0);
}

pub count_token_kinds : Metrics → Option UsageBreakdown → Metrics
unfolding count_split
count_token_kinds m none = m
count_token_kinds m (some u) = count_split u.split m u

module _ (e : Setup) where
  open e.ledger use {St, reserve, settle}

  pub record Sink : Type 0 where
    pub c : Counter
    pub st : St
    pub met : Metrics

  note_usage : Option ℤ → Bytes → Sink → Sink
  note_usage none line s = s
  note_usage (some usage) line s = record s {
    c = set_exact s.c (pos_part usage);
    met = count_token_kinds s.met (extract_usage_breakdown e.unmarshal_usage line);
  }

  note_content : Bytes → Sink → Sink
  note_content content s = if content == [] then s else record s {
    c = add_estimate s.c (estimate_tokens e.floats (e.runes content) e.estimate_ratio);
  }

  pub on_data : Sink → Bytes → Sink
  unfolding note_usage note_content
  on_data s line =
      let (content, usage) = parse_sse_data e.unmarshal_delta (e.trim_space line) in
      note_content content (note_usage usage line s)

  -- After the mutex: `delta` is what is due.
  flush : Sink → ℕ → Sink
  flush s delta =
      let (st, failed) = reserve s.st delta in
      if ltb 0 delta
      then (if failed
          then record s { st = st; met = record s.met { redis_errors = s.met.redis_errors + 1 } }
          else record s { st = st; met = count_tokens s.met delta })
      else s

  pub on_flush_tick : Sink → Sink
  unfolding flush
  on_flush_tick s =
      let (c, delta) = pending_flush e.floats s.c e.safety_buffer in
      flush (record s { c = c }) delta

  -- The tail that was not flushed yet; an error of this reservation is dropped.
  flush_tail : Sink → ℕ → Sink
  flush_tail s tail =
      if ltb 0 tail
      then record s { st = (reserve s.st tail).0; met = count_tokens s.met tail }
      else s

  finish : Sink → ℕ → ℕ → Bool → Sink
  finish s reserved actual has_exact =
      let (st, failed) = settle s.st reserved actual in
      if not has_exact || nat_eq reserved actual
      then s
      else (if failed
          then record s { st = st; met = record s.met { redis_errors = s.met.redis_errors + 1 } }
          else record s {
            st = st;
            met = record s.met { token_settled = s.met.token_settled + actual };
          })

  pub on_end : Sink → Sink
  unfolding flush_tail finish
  on_end s =
      let reserved = s.c.flushed in
      let (c, tail) = pending_flush e.floats s.c e.safety_buffer in
      let t = flush_tail (record s { c = c }) tail in
      finish t (reserved + tail) (final e.floats c e.safety_buffer) c.has_exact
