-- ===== src/Proxy/Sink/Redis.antt =====
-- The sink of internal/proxy/handler.go over TokenReserve and TokenSettle of internal/limiter/ledger.go,
-- which run internal/limiter/scripts/token_ledger.lua. Every run of the script succeeds. Each call reads
-- the clock: `clock i` is what the call number `i` of the stream reads.
use unirate.Prelude.{ℕ, suc, ◌+◌, ◌≡◌, List}
use unirate.Prelude.Text.{Bytes}
use unirate.Prelude.Int.{ℤ, pos, pos_part, neg_part}
use unirate.Limiter.Rule.{Rule}
use unirate.Limiter.Check.Prepare.{Meta}
use unirate.Limiter.Ledger.{Redis, RedisLaws, or_zero}
use unirate.Limiter.Ledger.Calls.{token_reserve, token_settle}
use unirate.Limiter.Ledger.Calls.Booking.{answered}
use unirate.Limiter.Ledger.Calls.Single.{writers, tokens_in-token_reserve, tokens_in-token_settle}
use unirate.Meter.Counter.{final}
use unirate.Proxy.Sink.{Setup, TokenLedger, Sink, on_end}
use unirate.Proxy.Sink.Account.{LedgerLaws, Frame, feed, on_end-feed}

module _ (r : Redis) (digest : Bytes → Bytes) (tz : ℤ) (m : Meta) (clock : ℕ → ℕ)
    (rules : List Rule) where
  -- The ledger of a request, of which the sink sees the two calls, with the number of the next call.
  abbrev pub in_redis : TokenLedger
  in_redis = record {
    St = r.Db × ℕ;
    reserve = λ (d, i) n.
        let (d', failed) = token_reserve (answered r) digest tz d rules m (clock i) (pos n) in
        ((d', suc i), failed);
    settle = λ (d, i) n a.
        let (d', failed) =
          token_settle (answered r) digest tz d rules m (clock i) (pos n) (pos a) in
        ((d', suc i), failed);
  }

  module _ (laws : RedisLaws r) (j : Bytes)
      (alone : (i : ℕ) → writers digest tz m (clock i) j rules ≡ 1) where
    -- Each key that one rule writes keeps the count that the sink relies on, if it is not negative.
    abbrev in_redis-laws : LedgerLaws in_redis
    in_redis-laws = record {
      recorded = λ (d, i). pos_part (or_zero (r.get d j));
      Sound = λ (d, i). neg_part (or_zero (r.get d j)) ≡ 0;
      reserve-Sound = λ (d, i) n sound.
          (tokens_in-token_reserve r laws digest tz m (clock i) rules j (alone i) d n sound).0;
      reserve_adds = λ (d, i) n sound.
          (tokens_in-token_reserve r laws digest tz m (clock i) rules j (alone i) d n sound).1;
      settle_corrects = λ (d, i) n a sound enough.
          tokens_in-token_settle r laws digest tz m (clock i) rules j (alone i) d n a sound enough;
    }

    -- The ledger in Redis is what a stream relies on. Every run of the script succeeds, and whenever a
    -- call of the stream reads the clock, exactly one rule of the request writes the ledger key `j`: the
    -- stream stays in the window that the key is of. If the key is not negative, it counts, after the
    -- data lines and flushes of a stream and its OnEnd, what it counted before and the tokens that Final()
    -- gives; a key that is missing or negative counts 0.
    pub get-on_end :
        (e : Setup) (s : Sink (record e { ledger = in_redis })) (fs : List Frame)
        → neg_part (or_zero (r.get s.st.0 j)) ≡ 0
        → s.c.flushed ≡ 0
        → let t = feed (record e { ledger = in_redis }) s fs in
          pos_part (or_zero (r.get (on_end (record e { ledger = in_redis }) t).st.0 j))
          ≡ pos_part (or_zero (r.get s.st.0 j)) + final e.floats t.c e.safety_buffer
    get-on_end e s fs sound fresh =
        on_end-feed (record e { ledger = in_redis }) in_redis-laws s fs sound fresh
