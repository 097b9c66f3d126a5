-- ===== src/Proxy/Sink/Examples.antt =====
-- A stream of two frames over a ledger that is a number.
use unirate.Prelude.{ℕ, ◌≤◌, ◌+◌, ◌-◌, ◌≡◌, refl, false, none, some, List, [], ◌∷◌, arith}
use unirate.Prelude.Text.{codes}
use unirate.Prelude.Int.{pos, pos_part}
use unirate.Prelude.Maps.{lookup}
use unirate.Meter.Fortieths.{fortieths}
use unirate.Meter.Counter.{final}
use unirate.Proxy.Sink.{Setup, Sink, on_end}
use unirate.Limiter.Ledger.{or_zero}
use unirate.Limiter.Ledger.Examples.{in_memory, in_memory-laws}
use unirate.Limiter.Ledger.Calls.Examples.{budget, nobody, hex, budget_key, budget_key-writers}
use unirate.Proxy.Sink.Redis.{in_redis, get-on_end}
use unirate.Proxy.Sink.Account.{Frame, data_line, flush_due, LedgerLaws, feed, on_end-feed}

abbrev pub setup : Setup
setup = record {
  floats = fortieths;
  ledger = record { St = ℕ; reserve = λ s n. (s + n, false); settle = λ s r a. (s + a - r, false) };
  unmarshal_delta = λ body. some (record {
    choices = record { content = body; reasoning_content = []; text = [] } ∷ [];
    usage =
        some (record { prompt_tokens = pos 2; completion_tokens = pos 3; total_tokens = pos 5 });
  });
  unmarshal_usage = λ body. none;
  trim_space = λ body. body;
  runes = λ body. body;
  estimate_ratio = 0;
  safety_buffer = 48;
}

abbrev pub at_start : Sink setup
at_start = record {
  c = record { estimated = 0; exact = 0; has_exact = false; flushed = 0 };
  st = 1000;
  met = record {
    token_consumed = 0;
    prompt_tokens = 0;
    completion_tokens = 0;
    token_settled = 0;
    redis_errors = 0;
  };
}

abbrev frames : List Frame
frames = data_line (codes "{abcdefgh}") ∷ flush_due ∷ data_line (codes "{i}") ∷ []

abbrev pub number_laws : LedgerLaws setup.ledger
number_laws = record {
  recorded = λ s. s;
  Sound = λ s. 0 ≤ s;
  reserve-Sound = λ s n ok. omega arith;
  reserve_adds = λ s n ok. refl;
  settle_corrects = λ s r a ok h. omega arith;
}

on_end-feed_example :
    (on_end setup (feed setup at_start frames)).st
    ≡ 1000 + final fortieths (feed setup at_start frames).c 48
on_end-feed_example = on_end-feed setup number_laws at_start frames (omega arith) refl

-- The same stream over a ledger in Redis that starts empty.
abbrev redis_setup : Setup
redis_setup = record setup {
  ledger = in_redis in_memory hex (pos 0) nobody (λ i. 5_000_000_000) (budget ∷ []);
}

abbrev in_redis_at_start : Sink redis_setup
in_redis_at_start = record { c = at_start.c; st = ([], 0); met = at_start.met }

get-on_end_example :
    pos_part (
      or_zero
        (lookup budget_key (on_end redis_setup (feed redis_setup in_redis_at_start frames)).st.0))
    ≡ 0 + final fortieths (feed redis_setup in_redis_at_start frames).c 48
unfolding lookup
get-on_end_example =
    get-on_end in_memory hex (pos 0) nobody (λ i. 5_000_000_000) (budget ∷ []) in_memory-laws
      budget_key (λ i. budget_key-writers) setup in_redis_at_start frames refl refl
