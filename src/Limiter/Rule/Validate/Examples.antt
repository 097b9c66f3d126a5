-- ===== src/Limiter/Rule/Validate/Examples.antt =====
-- Rules as an operator writes them, for Validate of internal/limiter/rule.go.
use unirate.Prelude.{◌≡◌, ◌≢◌, false, refl, none, [], ◌∷◌}
use unirate.Prelude.Text.{
  codes, ◌==◌, trim_space, to_lower, split_last, unsigned_value, digits_value,
}
use unirate.Prelude.Int.{pos, parse_int, int64, ◌*ℤ◌}
use unirate.Limiter.Rule.{
  Rule, rate, request, no_metric, token_bucket, no_algorithm, parse_window, valid_dim, split_window,
  count_in_unit, in_unit, unexported,
}
use unirate.Limiter.Rule.Validate.{
  validate, check_dims, normal_dim, seen_in, after_dims, validate_type, validate_rate, with_window,
  default_metric, with_metric, default_algorithm, with_algorithm, finish_rate,
}
use unirate.Limiter.Rule.Validate.Dimensions.{validate-ready}
use unirate.Limiter.Rule.Validate.Again.{validate-validate}
use unirate.Limiter.Rule.Validate.Overflow.{long_window}

abbrev plain : Rule
plain = record {
  id = 1;
  name = codes "login";
  type = rate;
  metric = no_metric;
  dimensions = codes " Biz" ∷ [];
  window = codes "1m";
  limit = pos 100;
  algorithm = no_algorithm;
  burst = pos 0;
  watermark = pos 0;
  max_conc = pos 0;
  timeout_sec = pos 0;
  enabled = none;
  win_sec = pos 0;
  natural = false;
}

abbrev endless : Rule
endless = record plain {
  metric = request;
  window = long_window;
  algorithm = token_bucket;
  burst = pos 5;
}

validate-ready_example : (validate plain).0.dimensions ≢ []
unfolding ◌==◌ valid_dim trim_space to_lower split_last unsigned_value digits_value parse_int int64
    ◌*ℤ◌ validate after_dims check_dims seen_in normal_dim validate_type validate_rate with_window
    default_metric with_metric default_algorithm with_algorithm finish_rate parse_window
    split_window count_in_unit in_unit
validate-ready_example = (validate-ready plain refl).1

validate-validate_example : validate (unexported (validate plain).0) ≡ validate plain
unfolding ◌==◌ valid_dim trim_space to_lower split_last unsigned_value digits_value parse_int int64
    ◌*ℤ◌ validate after_dims check_dims seen_in normal_dim validate_type validate_rate with_window
    default_metric with_metric default_algorithm with_algorithm finish_rate parse_window
    split_window count_in_unit in_unit unexported
validate-validate_example = validate-validate plain refl refl
