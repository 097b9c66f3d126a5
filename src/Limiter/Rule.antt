-- ===== src/Limiter/Rule.antt =====
-- internal/limiter/rule.go. A string type with named constants is a data type that has a constructor
-- for the empty string where the source tests for it, and one for any other string. `Dimensions` are
-- texts of bytes; strings.ToLower and TrimSpace are those of ASCII. int64 products wrap.
pub mod Validate
use unirate.Prelude.{
  ℕ, ◌*◌, Bool, true, false, ◌||◌, ◌&&◌, if◌then◌else◌, ◌==◌ as nat_eq, Option, none, some, List,
  [], ◌∷◌, ltb,
}
use unirate.Prelude.Text.{Bytes, codes, ◌==◌, split_last}
use unirate.Prelude.Int.{ℤ, pos, ◌*ℤ◌, int64, leb_ℤ, parse_int}

pub data Algorithm : Type 0 where
  no_algorithm fixed_window sliding_window token_bucket : Algorithm
  other_algorithm : Bytes → Algorithm

pub data RuleType : Type 0 where
  rate concurrency : RuleType
  other_type : Bytes → RuleType

pub data Metric : Type 0 where
  no_metric request token : Metric
  other_metric : Bytes → Metric

abbrev pub dim_global : Bytes
dim_global = codes "global"

abbrev pub dim_biz : Bytes
dim_biz = codes "biz"

abbrev pub dim_path : Bytes
dim_path = codes "path"

abbrev pub dim_token : Bytes
dim_token = codes "token"

abbrev pub dim_ip : Bytes
dim_ip = codes "ip"

abbrev pub dim_method : Bytes
dim_method = codes "method"

unfoldable pub valid_dim : Bytes → Bool
valid_dim d =
    d == dim_global
    || (d == dim_biz || (d == dim_path || (d == dim_token || (d == dim_ip || d == dim_method))))

pub record Rule : Type 0 where
  pub id : ℕ
  pub name : Bytes
  pub type : RuleType
  pub metric : Metric
  pub dimensions : List Bytes
  pub window : Bytes
  pub limit : ℤ
  pub algorithm : Algorithm
  pub burst : ℤ
  pub watermark : ℤ
  pub max_conc : ℤ
  pub timeout_sec : ℤ
  pub enabled : Option Bool
  pub win_sec : ℤ
  pub natural : Bool

-- What JSON keeps of a rule: the last two fields are not exported.
pub unexported : Rule → Rule
unexported r = record r { win_sec = pos 0; natural = false }

enabled_or_default : Option Bool → Bool
enabled_or_default none = true
enabled_or_default (some b) = b

unfoldable pub is_enabled : Rule → Bool
unfolding enabled_or_default
is_enabled r = enabled_or_default r.enabled

-- The `switch` on the unit, for the number before it.
in_unit : ℕ → ℤ → Option (ℤ × Bool)
in_unit unit n =
    if nat_eq unit b's'
    then some (n, false)
    else if nat_eq unit b'm'
    then some (int64 (n *ℤ pos 60), false)
    else if nat_eq unit b'h'
    then some (int64 (n *ℤ pos 3600), false)
    else if nat_eq unit b'd'
    then some (int64 (n *ℤ pos 86400), true)
    else if nat_eq unit b'w'
    then some (int64 (n *ℤ pos 604800), true)
    else none

count_in_unit : ℕ → Option ℤ → Option (ℤ × Bool)
unfolding in_unit
count_in_unit unit none = none
count_in_unit unit (some n) = if leb_ℤ n (pos 0) then none else in_unit unit n

split_window : Option (Bytes × ℕ) → Option (ℤ × Bool)
unfolding count_in_unit
split_window none = none
split_window (some (front, unit)) = count_in_unit unit (parse_int front)

-- ParseWindow: the seconds and whether days are aligned to the local midnight; none is an error. A
-- text of one byte has no number before its unit, and ParseInt refuses it.
pub parse_window : Bytes → Option (ℤ × Bool)
unfolding split_window split_last
parse_window w = split_window (split_last w)
