-- ===== src/Proxy/Stream.antt =====
-- internal/proxy/stream.go: copySSE. The upstream body is the list of what bufio.Reader.ReadSlice
-- gives, one read after the other: the bytes, how the read ended, how many bytes the client took and
-- whether that write failed, and what the clock shows while the line is handled. After the last read
-- the body is at its end. The client is what it was sent and how often it was flushed, and the sink is
-- an interface of three operations on a state; for a nil sink they do nothing. bytes.TrimSpace is that
-- of ASCII. `can_flush` says whether the writer is an http.Flusher.
pub mod Whole
mod Examples
use unirate.Prelude.{
  ℕ, ◌+◌, ◌-◌, ◌==◌ as nat_eq, leb, ltb, Bool, true, false, ◌&&◌, ◌||◌, not, if◌then◌else◌, Option,
  none, some, List, [], ◌∷◌, ◌++◌, length,
}
use unirate.Prelude.Text.{Bytes, codes, trim_space, ◌==◌}

pub record FrameSink (S : Type 0) : Type 0 where
  pub on_data : S → Bytes → S
  pub on_flush_tick : S → S
  pub on_end : S → S

-- How a read ended: with the byte that it looks for, with a full buffer, at the end of the body, or
-- with another error.
pub data ReadEnd : Type 0 where
  found buffer_full end_of_body failed : ReadEnd

pub record Read : Type 0 where
  pub line : Bytes
  pub ended : ReadEnd
  pub taken : ℕ
  pub write_failed : Bool
  pub now : ℕ

pub data StreamError : Type 0 where
  client_gone upstream_failed : StreamError

-- `ttft` is 0 until the first data line.
pub record SseCopyResult : Type 0 where
  pub bytes : ℕ
  pub frames : ℕ
  pub err : Option StreamError
  pub ttft : ℕ

pub record Copy (S : Type 0) : Type 0 where
  pub res : SseCopyResult
  pub sink : S
  pub last_flush : ℕ
  pub sent : List Bytes
  pub flushes : ℕ

-- bytes.TrimRight(line, "\r\n")
unfoldable pub trim_right : Bytes → Bytes
trim_right [] = []
trim_right (c ∷ s) =
    let t = trim_right s in
    if nat_eq (length t) 0 && (nat_eq c 10 || nat_eq c 13) then [] else c ∷ t

pub is_frame_end : Bytes → Bool
is_frame_end line = nat_eq (length (trim_right line)) 0

-- What stands after a prefix.
unfoldable pub after_prefix : Bytes → Bytes → Option Bytes
after_prefix [] s = some s
after_prefix (a ∷ p) [] = none
after_prefix (a ∷ p) (b ∷ s) = let rest = after_prefix p s in if nat_eq a b then rest else none

trimmed : Option Bytes → Option Bytes
trimmed none = none
trimmed (some s) = some (trim_space s)

pub strip_data_prefix : Bytes → Option Bytes
unfolding trimmed
strip_data_prefix line = trimmed (after_prefix (codes "data:") (trim_right line))

-- isSSE: the first 17 bytes are "text/event-stream".
pub is_sse : Bytes → Bool
is_sse ct = elim (after_prefix (codes "text/event-stream") ct) [ none ↦ false | some rest ↦ true ]

abbrev pub start : {S : Type 0} → ℕ → S → Copy S
start started s = record {
  res = record { bytes = 0; frames = 0; err = none; ttft = 0 };
  sink = s;
  last_flush = started;
  sent = [];
  flushes = 0;
}

module _ {S : Type 0} (sink : FrameSink S) (can_flush : Bool) (flush_interval started : ℕ) where
  send : Read → Copy S → Copy S
  send r c = record c {
    sent = c.sent ++ (r.line ∷ []);
    res = record c.res { bytes = c.res.bytes + r.taken };
  }

  flush_frame : Read → Copy S → Copy S
  flush_frame r c =
      if can_flush && is_frame_end r.line
      then record c { flushes = c.flushes + 1; res = record c.res { frames = c.res.frames + 1 } }
      else c

  note_data : Option Bytes → ℕ → Copy S → Copy S
  note_data none now c = c
  note_data (some content) now c = record c {
    res = if nat_eq c.res.ttft 0 then record c.res { ttft = now - started } else c.res;
    sink = sink.on_data c.sink content;
  }

  tick : ℕ → Copy S → Copy S
  tick now c =
      if ltb 0 flush_interval && leb flush_interval (now - c.last_flush)
      then record c { sink = sink.on_flush_tick c.sink; last_flush = now }
      else c

  -- A line that the client took: the rest of the round.
  pub deliver : Read → Copy S → Copy S
  unfolding flush_frame note_data tick
  deliver r c = tick r.now (note_data (strip_data_prefix r.line) r.now (flush_frame r c))

  -- The last steps, with the error if there is one.
  pub finish_copy : Option StreamError → Copy S → Copy S
  finish_copy err c = record c {
    res = record c.res { err = err };
    flushes = if can_flush then c.flushes + 1 else c.flushes;
    sink = sink.on_end c.sink;
  }

  -- One round up to the test of the read error: the copy, and whether the client is gone.
  round : Read → Copy S → Copy S × Bool
  unfolding send
  round r c =
      if nat_eq (length r.line) 0
      then (c, false)
      else (if r.write_failed then (send r c, true) else (deliver r (send r c), false))

  -- How the loop goes on after a round: over, or with the rest of the reads.
  continue_with : Bool → ReadEnd → Copy S → Copy S → Copy S
  continue_with true ended c rest = finish_copy (some client_gone) c
  continue_with false found c rest = rest
  continue_with false buffer_full c rest = rest
  continue_with false end_of_body c rest = finish_copy none c
  continue_with false failed c rest = finish_copy (some upstream_failed) c

  pub copy_loop : List Read → Copy S → Copy S
  unfolding round continue_with
  copy_loop [] c = finish_copy none c
  copy_loop (r ∷ rs) c =
      let (c', gone) = round r c in let rest = copy_loop rs c' in continue_with gone r.ended c' rest

  pub copy_sse : List Read → S → Copy S
  copy_sse reads s = copy_loop reads (start started s)
