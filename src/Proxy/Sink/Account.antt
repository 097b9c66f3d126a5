-- ===== src/Proxy/Sink/Account.antt =====
-- What a stream leaves in the ledger (sseSink of internal/proxy/handler.go).
use native.Mathlib.Nat.{le_trans, le_refl}
use unirate.Prelude.{
  ℕ, ◌+◌, ◌≤◌, ◌≡◌, refl, Bool, true, false, ltb, if◌then◌else◌, ◌==◌ as nat_eq, Option, none, some,
  List, [], ◌∷◌, arith, ◌∙◌, Bool-cases, inl, inr,
}
use unirate.Prelude.Text.{Bytes, ◌==◌}
use unirate.Prelude.Int.{ℤ}
use unirate.Meter.Counter.{
  Counter, buffered, pending_flush, final, add_estimate, set_exact, buffered-add_estimate,
  pending_flush_lem, final-pending_flush,
}
use unirate.Meter.Usage.{UsageBreakdown, parse_sse_data}
use unirate.Meter.Estimate.{estimate_tokens}
use unirate.Proxy.Sink.{
  Setup, TokenLedger, Sink, Metrics, count_tokens, count_token_kinds, count_split, on_data,
  on_flush_tick, on_end, note_usage, note_content, flush, flush_tail, finish,
}

-- What copySSE passes to the sink before the end.
pub data Frame : Type 0 where
  data_line : Bytes → Frame
  flush_due : Frame

module _ (e : Setup) where
  pub feed : Sink e → List Frame → Sink e
  feed s [] = s
  feed s (data_line line ∷ fs) = feed (on_data e s line) fs
  feed s (flush_due ∷ fs) = feed (on_flush_tick e s) fs

-- The tokens that are counted, and those that the split leaves alone.
pub token_consumed-count_tokens :
    (m : Metrics) (n : ℕ) → (count_tokens m n).token_consumed ≡ m.token_consumed + n
unfolding count_tokens
token_consumed-count_tokens m n = ground arith

pub token_consumed-count_token_kinds :
    (m : Metrics) (u : Option UsageBreakdown)
    → (count_token_kinds m u).token_consumed ≡ m.token_consumed
unfolding count_token_kinds count_split
token_consumed-count_token_kinds m none = refl
token_consumed-count_token_kinds m (some u) = elim (Bool-cases u.split) [
  | inl split ↦ rw split refl
  | inr whole ↦ rw whole refl
]

-- What a stream relies on of the ledger: a count of it, which holds in the states `Sound`, where
-- TokenReserve adds the amount and TokenSettle exchanges the reserved amount for the actual one.
-- They hold of a ledger that books every call; a call whose script fails books nothing.
pub record LedgerLaws (l : TokenLedger) : Type 1 where
  pub recorded : l.St → ℕ
  pub Sound : l.St → Type 0
  pub reserve-Sound : (s : l.St) (n : ℕ) → Sound s → Sound (l.reserve s n).0
  pub reserve_adds : (s : l.St) (n : ℕ) → Sound s → recorded (l.reserve s n).0 ≡ recorded s + n
  pub settle_corrects :
      (s : l.St) (r a : ℕ)
      → Sound s
      → r ≤ recorded s
      → recorded (l.settle s r a).0 + r ≡ recorded s + a

module _ (e : Setup) (laws : LedgerLaws e.ledger) where
  open laws use {recorded, Sound, reserve-Sound, reserve_adds, settle_corrects}

  abbrev due : Counter → ℕ
  due c = buffered e.floats c e.safety_buffer

  -- The ledger holds what was flushed, over what it held before the stream, and no more is flushed
  -- than is due.
  record Inv (base : ℕ) (s : Sink e) : Type 0 where
    sound : Sound s.st
    booked : recorded s.st ≡ base + s.c.flushed
    within : s.c.flushed ≤ due s.c

  note_usage-Inv :
      (base : ℕ) (u : Option ℤ) (line : Bytes) (s : Sink e)
      → Inv base s
      → Inv base (note_usage e u line s)
  unfolding note_usage set_exact buffered
  note_usage-Inv base none line s v = v
  note_usage-Inv base (some u) line s v = record {
    sound = v.sound;
    booked = v.booked;
    within = v.within;
  }

  note_content-Inv :
      (base : ℕ) (content : Bytes) (s : Sink e) → Inv base s → Inv base (note_content e content s)
  unfolding note_content add_estimate
  note_content-Inv base content s v = elim (Bool-cases (content == [])) [
    | inl none_new ↦ rw none_new v
    | inr some_new ↦ rw some_new (record {
      sound = v.sound;
      booked = v.booked;
      within = le_trans v.within (
          buffered-add_estimate e.floats s.c
            (estimate_tokens e.floats (e.runes content) e.estimate_ratio) e.safety_buffer);
    })
  ]

  on_data-Inv : (base : ℕ) (s : Sink e) (line : Bytes) → Inv base s → Inv base (on_data e s line)
  unfolding on_data
  on_data-Inv base s line v =
      let (content, usage) = parse_sse_data e.unmarshal_delta (e.trim_space line) in
      note_content-Inv base content (note_usage e usage line s) (note_usage-Inv base usage line s v)

  -- A reservation of what is due, with or without an error, and of nothing if nothing is due.
  flush_lem :
      (s : Sink e) (d : ℕ)
      → Sound s.st
      → Sound (flush e s d).st
        × (recorded (flush e s d).st ≡ recorded s.st + d)
        × ((flush e s d).c ≡ s.c)
  unfolding flush
  flush_lem s d ok = elim (Bool-cases (ltb 0 d)) [
    | inl due_now ↦ rw due_now (elim (Bool-cases (e.ledger.reserve s.st d).1) [
      | inl failed ↦ rw failed (reserve-Sound s.st d ok, reserve_adds s.st d ok, refl)
      | inr fine ↦ rw fine (reserve-Sound s.st d ok, reserve_adds s.st d ok, refl)
    ])
    | inr nothing ↦ rw nothing (ok, ground arith, refl)
  ]

  flush_tail_lem :
      (s : Sink e) (d : ℕ)
      → Sound s.st
      → Sound (flush_tail e s d).st
        × (recorded (flush_tail e s d).st ≡ recorded s.st + d)
        × ((flush_tail e s d).c ≡ s.c)
  unfolding flush_tail
  flush_tail_lem s d ok = elim (Bool-cases (ltb 0 d)) [
    | inl due_now ↦ rw due_now (reserve-Sound s.st d ok, reserve_adds s.st d ok, refl)
    | inr nothing ↦ rw nothing (ok, ground arith, refl)
  ]

  -- The counter after PendingFlush.
  abbrev full : Counter → Counter
  full c = record c { flushed = due c }

  on_flush_tick-Inv : (base : ℕ) (s : Sink e) → Inv base s → Inv base (on_flush_tick e s)
  unfolding on_flush_tick
  on_flush_tick-Inv base s v =
      let (full_now, adds) = pending_flush_lem e.floats s.c e.safety_buffer v.within in
      let (c, delta) = pending_flush e.floats s.c e.safety_buffer in
      let (sound, booked, kept) = flush_lem (record s { c = c }) delta v.sound in
      let after = kept ∙ full_now in
      record {
        sound = sound;
        booked = rw after (booked ∙ omega arith);
        within = rw after (unfold buffered in le_refl _);
      }

  feed-Inv : (base : ℕ) (s : Sink e) (fs : List Frame) → Inv base s → Inv base (feed e s fs)
  unfolding feed
  feed-Inv base s [] v = v
  feed-Inv base s (data_line line ∷ fs) v =
      feed-Inv base (on_data e s line) fs (on_data-Inv base s line v)
  feed-Inv base s (flush_due ∷ fs) v =
      feed-Inv base (on_flush_tick e s) fs (on_flush_tick-Inv base s v)

  finish_lem :
      (s : Sink e) (reserved actual : ℕ) (has_exact : Bool)
      → Sound s.st
      → reserved ≤ recorded s.st
      → recorded (finish e s reserved actual has_exact).st + reserved
        ≡ recorded s.st + (if has_exact then actual else reserved)
  unfolding finish
  finish_lem s reserved actual false ok h = refl
  finish_lem s reserved actual true ok h = elim (Bool-cases (nat_eq reserved actual)) [
    | inl same ↦ rw same (ground arith)
    | inr other ↦ rw other (elim (Bool-cases (e.ledger.settle s.st reserved actual).1) [
      | inl failed ↦ rw failed (settle_corrects s.st reserved actual ok h)
      | inr fine ↦ rw fine (settle_corrects s.st reserved actual ok h)
    ])
  ]

  on_end_lem :
      (base : ℕ) (s : Sink e)
      → Inv base s
      → recorded (on_end e s).st ≡ base + final e.floats s.c e.safety_buffer
  unfolding on_end
  on_end_lem base s v =
      let (full_now, adds) = pending_flush_lem e.floats s.c e.safety_buffer v.within in
      let (c, tail) = pending_flush e.floats s.c e.safety_buffer in
      let t = flush_tail e (record s { c = c }) tail in
      let (sound, booked, kept) = flush_tail_lem (record s { c = c }) tail v.sound in
      let enough : s.c.flushed + tail ≤ recorded t.st = omega arith in
      let f = final e.floats c e.safety_buffer in
      let settled : recorded (on_end e s).st + (s.c.flushed + tail)
          ≡ recorded t.st + (if c.has_exact then f else s.c.flushed + tail) =
        finish_lem t (s.c.flushed + tail) f c.has_exact sound enough in
      let recorded_now =
        final-pending_flush e.floats s.c e.safety_buffer (s.c.flushed + tail) v.within adds in
      omega arith

  -- What a stream leaves in the ledger is what it used. Over a ledger with the laws, from a state in
  -- which they hold: after any data lines and flushes, OnEnd leaves the ledger above its start by
  -- Final(), which is the exact usage where the upstream reported one (all that was reserved too
  -- much comes back) and the buffered estimate otherwise (nothing of it is left unreserved).
  pub on_end-feed :
      (s : Sink e) (fs : List Frame)
      → Sound s.st
      → s.c.flushed ≡ 0
      → let t = feed e s fs in
        recorded (on_end e t).st ≡ recorded s.st + final e.floats t.c e.safety_buffer
  on_end-feed s fs sound fresh = on_end_lem (recorded s.st) (feed e s fs) (
      feed-Inv (recorded s.st) s fs
        (record { sound = sound; booked = omega arith; within = omega arith }))
