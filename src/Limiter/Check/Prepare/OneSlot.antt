-- ===== src/Limiter/Check/Prepare/OneSlot.antt =====
-- One request under one concurrency rule, over a store in memory.
use unirate.Prelude.{false, none, List, [], ◌∷◌}
use unirate.Prelude.Text.{Bytes, codes}
use unirate.Prelude.Int.{ℤ, pos, int64, ◌*ℤ◌}
use unirate.Limiter.Breaker.{new_breaker}
use unirate.Limiter.Key.{concurrency_key}
use unirate.Limiter.Rule.{Rule, concurrency, request, fixed_window, dim_global}
use unirate.Limiter.Check.{Limiter}
use unirate.Limiter.Check.Prepare.{Meta, LuaRule, conc, plain_rule}
use unirate.Limiter.Batch.Memory.{Memory}

abbrev no_digest : Bytes → Bytes
no_digest v = codes "0f"

abbrev slots_rule : Rule
slots_rule = record {
  id = 1;
  name = codes "slots";
  type = concurrency;
  metric = request;
  dimensions = dim_global ∷ [];
  window = [];
  limit = pos 0;
  algorithm = fixed_window;
  burst = pos 0;
  watermark = pos 80;
  max_conc = pos 3;
  timeout_sec = pos 30;
  enabled = none;
  win_sec = pos 0;
  natural = false;
}

abbrev someone : Meta
someone = record {
  biz = codes "b";
  path = codes "/p";
  token_hash = codes "t";
  ip = codes "1";
  method = codes "GET";
  request_id = codes "r1";
}

abbrev one_instance : Limiter
one_instance = record {
  tz_offset = pos 0;
  instances = 1;
  local = record { blocks = []; quotas = []; last_gc = 0 };
  breaker = new_breaker 0;
}

abbrev slots_key : Bytes
slots_key = concurrency_key no_digest (codes "b") (dim_global ∷ []) (codes "_" ∷ [])

abbrev slots_sent : List (LuaRule ℤ)
slots_sent =
    record (plain_rule {F = ℤ} conc (pos 3)) { k = 1; ttl = int64 (pos 30 *ℤ pos 1000) } ∷ []

abbrev empty_store : Memory
empty_store = record {
  clock = (100, 0);
  at = λ k. record { value = none; bucket = (none, none); members = [] };
  distinct = λ k. tt;
}
