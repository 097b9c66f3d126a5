-- ===== src/Proxy/Stream/Examples.antt =====
-- A body of three lines, for copySSE of internal/proxy/stream.go.
use unirate.Prelude.{ℕ, ◌≡◌, refl, true, false, inl, List, [], ◌∷◌}
use unirate.Prelude.Text.{Bytes, codes}
use unirate.Proxy.Stream.{FrameSink, Read, found, copy_sse}
use unirate.Proxy.Stream.Whole.{recorder, ends_once, joined, copy_sse-ends_once, copy_sse-whole}

abbrev line_of : Bytes → ℕ → ℕ → Read
line_of line size now = record {
  line = line;
  ended = found;
  taken = size;
  write_failed = false;
  now = now;
}

abbrev three_lines : List Read
three_lines =
    line_of (codes "data: a\n") 8 1010
    ∷ line_of (codes "\n") 1 1020
    ∷ line_of (codes "data: b\n") 8 2100
    ∷ []

-- It counts its calls.
abbrev counting : FrameSink ℕ
counting = record {
  on_data = λ n line. Prim.Native.Nat.suc n;
  on_flush_tick = λ n. Prim.Native.Nat.suc n;
  on_end = λ n. Prim.Native.Nat.suc n;
}

copy_sse-ends_once_example : ends_once (copy_sse recorder true 1000 1000 three_lines []).sink ≡ true
copy_sse-ends_once_example = copy_sse-ends_once true 1000 1000 three_lines

copy_sse-whole_example :
    joined (copy_sse counting true 1000 1000 three_lines 0).sent ≡ codes "data: a\n\ndata: b\n"
copy_sse-whole_example =
    (copy_sse-whole counting true 1000 1000 0 three_lines
      ((refl, inl refl, refl), ((refl, inl refl, refl), ((refl, inl refl, refl), tt)))).0
