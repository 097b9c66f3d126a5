-- ===== src/Limiter/Ledger/Calls/Examples.antt =====
-- One token rule over a key space in memory (internal/limiter/ledger.go).
use unirate.Prelude.{◌≡◌, refl, false, none, [], ◌∷◌}
use unirate.Prelude.Text.{Bytes, codes}
use unirate.Prelude.Int.{pos}
use unirate.Limiter.Rule.{Rule, is_enabled, rate, token, fixed_window, dim_global}
use unirate.Limiter.Check.Prepare.{Meta, kind_of}
use unirate.Limiter.Ledger.Calls.{ledger_key, counts_tokens, is_token_budget}
use unirate.Limiter.Ledger.Calls.Single.{writers, writers-ledger_key}

abbrev pub budget : Rule
budget = record {
  id = 1;
  name = codes "budget";
  type = rate;
  metric = token;
  dimensions = dim_global ∷ [];
  window = codes "1m";
  limit = pos 1000;
  algorithm = fixed_window;
  burst = pos 0;
  watermark = pos 80;
  max_conc = pos 0;
  timeout_sec = pos 0;
  enabled = none;
  win_sec = pos 60;
  natural = false;
}

abbrev pub nobody : Meta
nobody = record {
  biz = [];
  path = codes "/p";
  token_hash = codes "t";
  ip = codes "1";
  method = codes "GET";
  request_id = codes "r1";
}

abbrev pub hex : Bytes → Bytes
hex v = codes "0f"

-- The ledger key of the rule five seconds after the epoch.
abbrev pub budget_key : Bytes
budget_key = ledger_key hex (pos 0) nobody 5_000_000_000 budget

pub budget_key-writers : writers hex (pos 0) nobody 5_000_000_000 budget_key (budget ∷ []) ≡ 1
unfolding counts_tokens is_token_budget is_enabled kind_of
budget_key-writers = writers-ledger_key hex (pos 0) nobody 5_000_000_000 budget_key budget refl refl
