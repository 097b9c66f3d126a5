-- ===== src/Limiter/Check/Prepare/Examples.antt =====
-- Check of internal/limiter/limiter.go for one rule, with a store whose script lets everything in.
use unirate.Prelude.{ℕ, ◌+◌, false, none, some, [], ◌∷◌}
use unirate.Prelude.Text.{Bytes, codes}
use unirate.Prelude.Int.{pos, pos_part}
use unirate.Limiter.Breaker.{new_breaker}
use unirate.Limiter.Rule.{Rule, rate, request, fixed_window, dim_global}
use unirate.Limiter.Check.{Limiter}
use unirate.Limiter.Check.Prepare.{Meta, Backend}

abbrev lenient : Backend ℕ
lenient = record {
  Db = ℕ;
  run = λ db keys lua id. (some (pos 1 ∷ pos 0 ∷ pos 0 ∷ []), db + 1);
  of_int64 = λ n. pos_part n;
  divide = λ x y. x;
}

abbrev no_digest : Bytes → Bytes
no_digest v = codes "0f"

abbrev global_rule : Rule
global_rule = record {
  id = 1;
  name = codes "all";
  type = rate;
  metric = request;
  dimensions = dim_global ∷ [];
  window = codes "1m";
  limit = pos 100;
  algorithm = fixed_window;
  burst = pos 0;
  watermark = pos 80;
  max_conc = pos 0;
  timeout_sec = pos 0;
  enabled = none;
  win_sec = pos 60;
  natural = false;
}

abbrev someone : Meta
someone = record {
  biz = codes "b";
  path = codes "/p";
  token_hash = codes "t";
  ip = codes "1";
  method = codes "GET";
  request_id = codes "r1";
}

abbrev three_instances : Limiter
three_instances = record {
  tz_offset = pos 0;
  instances = 3;
  local = record { blocks = []; quotas = []; last_gc = 0 };
  breaker = new_breaker 0;
}
