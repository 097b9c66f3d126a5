-- ===== src/Proxy/Handler/Limiting.antt =====
-- The limiter of internal/limiter as what internal/proxy/handler.go calls: Check and Release over the
-- batch scripts, at given instants and over a given network. Check gives no error with its decision, and the release is answered.
use unirate.Prelude.{ℕ, false, some}
use unirate.Prelude.Text.{Bytes}
use unirate.Limiter.Check.{Limiter, check}
use unirate.Limiter.Check.Release.{Network, scripts, release}
use unirate.Limiter.Batch.{Numbers, Store}
use unirate.Proxy.Handler.{Gate}

module _ (num : Numbers) (st : Store num.F) (net : Network) (digest : Bytes → Bytes)
    (now later : ℕ) where
  abbrev pub limiter_gate : Gate
  limiter_gate = record {
    St = Limiter × st.Db;
    check = λ (l, d) rules m.
        let (l', d', decision, hold) = check (scripts num st net) digest l d rules m now later in
        ((l', d'), decision, hold, false);
    release = λ (l, d) hold. ((l, release num st (some hold) d), false);
  }
