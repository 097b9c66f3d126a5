-- ===== src/Proxy/Stream/Whole.antt =====
-- What copySSE of internal/proxy/stream.go sends and when it ends.
use mathlib.Core.List.{append_assoc, append-nil}
use unirate.Prelude.{
  ℕ, ◌≡◌, ◌+◌, Bool, true, false, none, List, [], ◌∷◌, ◌++◌, arith, Bool-cases, Option-cases, inl,
  inr, refl, sym, ap, ◌∙◌, ◌⊎◌, ◌==◌ as nat_eq, length, length-append,
}
use unirate.Prelude.Text.{Bytes}
use unirate.Proxy.Stream.{
  FrameSink, Read, Copy, found, buffer_full, copy_loop, copy_sse, round, send, deliver, flush_frame,
  note_data, tick, finish_copy, continue_with, ReadEnd, strip_data_prefix, start,
}

-- A call that the sink gets.
pub data SinkCall : Type 0 where
  data_came : Bytes → SinkCall
  tick_came : SinkCall
  end_came : SinkCall

-- The sink that writes its calls down, the last one first.
abbrev pub recorder : FrameSink (List SinkCall)
recorder = record {
  on_data = λ calls line. data_came line ∷ calls;
  on_flush_tick = λ calls. tick_came ∷ calls;
  on_end = λ calls. end_came ∷ calls;
}

-- No call of the record is the end.
abbrev pub is_running : List SinkCall → Bool
is_running [] = true
is_running (data_came line ∷ calls) = is_running calls
is_running (tick_came ∷ calls) = is_running calls
is_running (end_came ∷ calls) = false

-- The last call, which comes first in the record, is the only end.
abbrev pub ends_once : List SinkCall → Bool
ends_once (end_came ∷ calls) = is_running calls
ends_once _ = false

-- The reads of a body that comes whole to a client that takes it.
abbrev pub Arrives : Read → Type 0
Arrives r =
    (r.write_failed ≡ false)
    × ((r.ended ≡ found) ⊎ (r.ended ≡ buffer_full))
    × (r.taken ≡ length r.line)

abbrev pub AllArrive : List Read → Type 0
AllArrive [] = Unit
AllArrive (r ∷ rs) = Arrives r × AllArrive rs

-- One text after the other.
abbrev pub joined : List Bytes → Bytes
joined [] = []
joined (s ∷ ss) = s ++ joined ss

abbrev pub body_of : List Read → Bytes
body_of [] = []
body_of (r ∷ rs) = r.line ++ body_of rs

module _ (can_flush : Bool) (interval started : ℕ) where
  round-is_running :
      (r : Read) (c : Copy (List SinkCall))
      → is_running c.sink ≡ true
      → is_running (round recorder can_flush interval started r c).0.sink ≡ true
  unfolding round send deliver flush_frame note_data tick
  round-is_running r c h = elim (Option-cases (strip_data_prefix r.line)) [
    | inl e ↦ ground (arith, e)
    | inr (line, e) ↦ ground (arith, e)
  ]

  continue_with-ends_once :
      (gone : Bool) (ended : ReadEnd) (c rest : Copy (List SinkCall))
      → is_running c.sink ≡ true
      → ends_once rest.sink ≡ true
      → ends_once (continue_with recorder can_flush interval started gone ended c rest).sink ≡ true
  unfolding continue_with finish_copy
  continue_with-ends_once gone ended c rest h k = ground arith

  copy_loop-ends_once :
      (rs : List Read) (c : Copy (List SinkCall))
      → is_running c.sink ≡ true
      → ends_once (copy_loop recorder can_flush interval started rs c).sink ≡ true
  unfolding copy_loop finish_copy
  copy_loop-ends_once [] c h = h
  copy_loop-ends_once (r ∷ rs) c h =
      let after = round recorder can_flush interval started r c in
      let running = round-is_running r c h in
      continue_with-ends_once after.1 r.ended after.0
        (copy_loop recorder can_flush interval started rs after.0) running
        (copy_loop-ends_once rs after.0 running)

  -- However the stream ends, by the body, a full buffer, an error of the upstream or a client that is
  -- gone, OnEnd is called exactly once, and it is the last call of the sink.
  pub copy_sse-ends_once :
      (rs : List Read) → ends_once (copy_sse recorder can_flush interval started rs []).sink ≡ true
  unfolding copy_sse
  copy_sse-ends_once rs = copy_loop-ends_once rs _ refl

joined-append : (ss : List Bytes) (s : Bytes) → joined (ss ++ (s ∷ [])) ≡ joined ss ++ s
joined-append [] s = append-nil s
joined-append (t ∷ ss) s = rw (joined-append ss s, append_assoc) refl

nonempty_or : (s : Bytes) → nat_eq (length s) 0 ≡ true → s ≡ []
nonempty_or [] h = refl
nonempty_or (b ∷ s) h = ground arith

module _ {S : Type 0} (sink : FrameSink S) (can_flush : Bool) (interval started : ℕ) where
  abbrev run_round : Read → Copy S → Copy S × Bool
  run_round = round sink can_flush interval started

  abbrev deliver_to : Read → Copy S → Copy S
  deliver_to = deliver sink can_flush interval started

  deliver-keeps :
      (r : Read) (c : Copy S)
      → ((deliver_to r c).sent ≡ c.sent) × ((deliver_to r c).res.bytes ≡ c.res.bytes)
  unfolding deliver flush_frame note_data tick
  deliver-keeps r c = elim (Option-cases (strip_data_prefix r.line)) [
    | inl e ↦ ground (arith, e)
    | inr (line, e) ↦ ground (arith, e)
  ]

  round-Arrives :
      (r : Read) (c : Copy S)
      → Arrives r
      → ((run_round r c).1 ≡ false)
        × (joined (run_round r c).0.sent ≡ joined c.sent ++ r.line)
        × ((run_round r c).0.res.bytes ≡ c.res.bytes + length r.line)
  unfolding round send
  round-Arrives r c (taken, ended, all) =
      let begun = send sink can_flush interval started r c in
      elim (Bool-cases (nat_eq (length r.line) 0)) [
        | inl e ↦ rw (e, nonempty_or r.line e) (refl, sym (append-nil (joined c.sent)), omega arith)
        | inr e ↦
            simp (e, taken)
              (
                refl,
                ap joined (deliver-keeps r begun).0 ∙ joined-append c.sent r.line,
                (deliver-keeps r begun).1 ∙ ap (λ n. c.res.bytes + n) all,
              )
      ]

  continue_with-Arrives :
      (r : Read) (c rest : Copy S)
      → Arrives r
      → continue_with sink can_flush interval started false r.ended c rest ≡ rest
  unfolding continue_with
  continue_with-Arrives r c rest h = ground arith

  copy_loop-round :
      (r : Read) (rs : List Read) (c : Copy S)
      → Arrives r
      → copy_loop sink can_flush interval started (r ∷ rs) c
        ≡ copy_loop sink can_flush interval started rs (run_round r c).0
  unfolding copy_loop
  copy_loop-round r rs c h = rw (round-Arrives r c h).0 (
      continue_with-Arrives r (run_round r c).0
        (copy_loop sink can_flush interval started rs (run_round r c).0) h)

  copy_loop-Arrives :
      (rs : List Read) (c : Copy S)
      → AllArrive rs
      → let d = copy_loop sink can_flush interval started rs c in
        (joined d.sent ≡ joined c.sent ++ body_of rs)
        × (d.res.bytes ≡ c.res.bytes + length (body_of rs))
        × (d.res.err ≡ none)
  copy_loop-Arrives [] c h =
      unfold copy_loop finish_copy in (sym (append-nil (joined c.sent)), omega arith, refl)
  copy_loop-Arrives (r ∷ rs) c (here, later) =
      let after = (run_round r c).0 in
      let (sent, bytes, err) = copy_loop-Arrives rs after later in
      let (_, sent_now, bytes_now) = round-Arrives r c here in
      rw (copy_loop-round r rs c here) (
        sent
            ∙ ap (λ s. s ++ body_of rs) sent_now
            ∙ append_assoc (joined c.sent) r.line (body_of rs),
        omega (arith, bytes, bytes_now, length-append r.line (body_of rs)),
        err,
      )

  -- The stream is transparent: where every read gives a line or a full buffer until the body is at its
  -- end, and the client takes what it is sent, the client gets the body byte for byte, the count of
  -- bytes is its length, and no error is reported, for every sink and interval.
  pub copy_sse-whole :
      (s : S) (rs : List Read)
      → AllArrive rs
      → let d = copy_sse sink can_flush interval started rs s in
        (joined d.sent ≡ body_of rs) × (d.res.bytes ≡ length (body_of rs)) × (d.res.err ≡ none)
  unfolding copy_sse
  copy_sse-whole s rs h =
      let (sent, bytes, err) = copy_loop-Arrives rs (start started s) h in
      (sent, omega (arith, bytes), err)
