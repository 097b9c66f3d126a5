-- ===== src/Meter/Counter.antt =====
-- Counter of internal/meter/token.go. A call is one step: its callers hold the sink's mutex, or run
-- on the goroutine that copies the stream. Counts stay below 2^63.
use unirate.Prelude.{
  ℕ, ◌+◌, ◌-◌, ◌≤◌, ◌≡◌, Bool, true, false, leb, if◌then◌else◌, Bool-cases, inl, inr, arith,
}
use unirate.Meter.Floats.{Floats}

pub record Counter : Type 0 where
  pub estimated : ℕ
  pub exact : ℕ
  pub has_exact : Bool
  pub flushed : ℕ

pub empty_counter : Counter
empty_counter = record { estimated = 0; exact = 0; has_exact = false; flushed = 0 }

unfoldable pub add_estimate : Counter → ℕ → Counter
add_estimate c n = record c { estimated = c.estimated + n }

unfoldable pub set_exact : Counter → ℕ → Counter
set_exact c n = record c { exact = n; has_exact = true }

module _ (fl : Floats) where
  open fl use {F, of_ℕ, mul, le, ceil, ceil_mul_mono, one_pos}

  -- A buffer that is not above 0 is replaced by 1.
  unfoldable pub buffer_or_one : F → F
  buffer_or_one buffer = if le buffer (of_ℕ 0) then of_ℕ 1 else buffer

  -- int64(math.Ceil(float64(c.estimated) * buffer))
  unfoldable pub buffered : Counter → F → ℕ
  buffered c buffer = ceil (mul (of_ℕ c.estimated) (buffer_or_one buffer))

  unfoldable pub pending_flush : Counter → F → Counter × ℕ
  pending_flush c buffer =
      let want = buffered c buffer in
      if leb want c.flushed
      then (c, 0)
      else (record c { flushed = c.flushed + (want - c.flushed) }, want - c.flushed)

  unfoldable pub final : Counter → F → ℕ
  final c buffer = if c.has_exact then c.exact else buffered c buffer

  buffer_or_one_pos : (buffer : F) → le (buffer_or_one buffer) (of_ℕ 0) ≡ false
  unfolding buffer_or_one
  buffer_or_one_pos buffer = elim (Bool-cases (le buffer (of_ℕ 0))) [
    | inl e ↦ rw e one_pos
    | inr e ↦ rw e e
  ]

  -- What is due never falls while estimates are added.
  pub buffered-add_estimate :
      (c : Counter) (n : ℕ) (buffer : F) → buffered c buffer ≤ buffered (add_estimate c n) buffer
  unfolding buffered add_estimate
  buffered-add_estimate c n buffer =
      ceil_mul_mono c.estimated (c.estimated + n) (buffer_or_one buffer) (buffer_or_one_pos buffer)
        (omega arith)

  -- PendingFlush books what it returns, and brings the flushed amount up to what is due.
  pub pending_flush_lem :
      (c : Counter) (buffer : F)
      → c.flushed ≤ buffered c buffer
      → let (c', delta) = pending_flush c buffer in
        (c' ≡ record c { flushed = buffered c buffer }) × (c.flushed + delta ≡ buffered c buffer)
  unfolding pending_flush
  pending_flush_lem c buffer h = elim (Bool-cases (leb (buffered c buffer) c.flushed)) [
    | inl e ↦ rw e (ground arith, ground arith)
    | inr e ↦ rw e (ground arith, ground arith)
  ]

  -- What is recorded at the end, by the counter after PendingFlush: the exact usage, or what is due.
  pub final-pending_flush :
      (c : Counter) (buffer : F) (n : ℕ)
      → c.flushed ≤ buffered c buffer
      → n ≡ buffered c buffer
      → let c' = (pending_flush c buffer).0 in
        (if c'.has_exact then final c' buffer else n) ≡ final c buffer
  unfolding pending_flush final
  final-pending_flush c buffer n h e = elim (Bool-cases c.has_exact) [
    | inl exact ↦ ground arith
    | inr estimate ↦ ground arith
  ]
