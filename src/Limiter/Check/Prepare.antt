-- ===== src/Limiter/Check/Prepare.antt =====
-- The loop of Check in internal/limiter/limiter.go: the key and the script rule of each rule, and the
-- early rejection by the negative cache.
pub mod Steps
mod Examples
mod OneSlot
use unirate.Prelude.{
  ℕ, suc, ◌+◌, ◌-◌, ◌/◌, Bool, true, false, ◌&&◌, if◌then◌else◌, Option, none, some, List, [], ◌∷◌,
  ◌++◌, length,
}
use unirate.Prelude.Text.{Bytes, codes, ◌==◌}
use unirate.Prelude.Int.{ℤ, pos, ◌+ℤ◌, ◌*ℤ◌, int64, leb_ℤ, sub_ℕ}
use unirate.Limiter.Local.{LocalFallback, blocked}
use unirate.Limiter.Key.{
  window_boundary, rate_key, token_ledger_key, token_bucket_key, concurrency_key, dotted,
}
use unirate.Limiter.Rule.{
  Rule, Algorithm, token_bucket, sliding_window, RuleType, rate, concurrency, other_type, Metric,
  token, is_enabled, dim_global, dim_biz, dim_path, dim_token, dim_ip, dim_method,
}

pub record Meta : Type 0 where
  pub biz : Bytes
  pub path : Bytes
  pub token_hash : Bytes
  pub ip : Bytes
  pub method : Bytes
  pub request_id : Bytes

-- One name of a dimension: its value, or nothing for a name that is not known.
dim_value : Meta → Bytes → List Bytes
dim_value m d =
    if d == dim_global
    then codes "_" ∷ []
    else if d == dim_biz
    then m.biz ∷ []
    else if d == dim_path
    then m.path ∷ []
    else if d == dim_token
    then m.token_hash ∷ []
    else if d == dim_ip
    then m.ip ∷ []
    else if d == dim_method
    then m.method ∷ []
    else []

pub dim_values : Meta → List Bytes → List Bytes
unfolding dim_value
dim_values m [] = []
dim_values m (d ∷ ds) = dim_value m d ++ dim_values m ds

pub data LuaType : Type 0 where
  fixed sliding tb conc tkadmit : LuaType

-- The rule as the script gets it. A number that is left out of the JSON is 0; `rate` is there for a
-- token bucket.
pub record LuaRule (F : Type 0) : Type 0 where
  pub k : ℕ
  pub t : LuaType
  pub limit : ℤ
  pub cost : ℤ
  pub expire : ℤ
  pub window : ℤ
  pub rate : Option F
  pub burst : ℤ
  pub ttl : ℤ

-- The store behind the limiter, the script, and float64 as far as it builds a rate.
pub record Backend (F : Type 0) : Type 1 where
  pub Db : Type 0
  pub run : Db → List Bytes → List (LuaRule F) → Bytes → Option (List ℤ) × Db
  pub of_int64 : ℤ → F
  pub divide : F → F → F

pub record Decision : Type 0 where
  pub allowed : Bool
  pub rule_name : Bytes
  pub rule_id : ℕ
  pub dimension : Bytes
  pub retry_after : ℤ
  pub degraded : Bool

abbrev pub denied : Rule → ℤ → Decision
denied r retry = record {
  allowed = false;
  rule_name = r.name;
  rule_id = r.id;
  dimension = dotted r.dimensions;
  retry_after = retry;
  degraded = false;
}

pub record Prep : Type 0 where
  pub keys : List Bytes
  pub idx : List Rule
  pub conc_keys : List Bytes

pub empty_prep : Prep
empty_prep = record { keys = []; idx = []; conc_keys = [] }

pub data Built (F : Type 0) : Type 0 where
  stop : Decision → Built F
  built : Prep → List (LuaRule F) → Built F

abbrev pub second_ns : ℕ
second_ns = 1_000_000_000

abbrev pub plain_rule : {F : Type 0} → LuaType → ℤ → LuaRule F
plain_rule t limit = record {
  k = 0;
  t = t;
  limit = limit;
  cost = pos 0;
  expire = pos 0;
  window = pos 0;
  rate = none;
  burst = pos 0;
  ttl = pos 0;
}

-- The cases of the `switch`.
pub data Kind : Type 0 where
  token_budget slots bucket slide count : Kind

algorithm_kind : Algorithm → Kind
algorithm_kind token_bucket = bucket
algorithm_kind sliding_window = slide
algorithm_kind _ = count

kind_in : RuleType → Metric → Algorithm → Kind
unfolding algorithm_kind
kind_in rate token a = token_budget
kind_in rate _ a = algorithm_kind a
kind_in concurrency m a = slots
kind_in (other_type s) m a = algorithm_kind a

unfoldable pub kind_of : Rule → Kind
unfolding kind_in
kind_of r = kind_in r.type r.metric r.algorithm

module _ {F : Type 0} (be : Backend F) (digest : Bytes → Bytes) where
  -- TokenBucketRate
  token_bucket_rate : Rule → F
  token_bucket_rate r =
      if leb_ℤ r.win_sec (pos 0)
      then be.of_int64 r.limit
      else be.divide (be.of_int64 r.limit) (be.of_int64 r.win_sec)

  translate : Kind → ℤ → Rule → Meta → ℕ → Bytes × LuaRule F
  translate token_budget tz r m now = (
    token_ledger_key digest r.dimensions (dim_values m r.dimensions) r.win_sec
        (window_boundary (pos (now / second_ns)) r.win_sec tz r.natural),
    plain_rule tkadmit r.limit,
  )
  translate slots tz r m now = (
    concurrency_key digest m.biz r.dimensions (dim_values m r.dimensions),
    record (plain_rule {F = F} conc r.max_conc) { ttl = int64 (r.timeout_sec *ℤ pos 1000) },
  )
  translate bucket tz r m now = (
    token_bucket_key digest r.dimensions (dim_values m r.dimensions),
    record (plain_rule {F = F} tb r.limit) {
      cost = pos 1;
      rate = some (token_bucket_rate r);
      burst = r.burst;
    },
  )
  translate slide tz r m now = (
    rate_key digest r.dimensions (dim_values m r.dimensions) r.win_sec
        (window_boundary (pos (now / second_ns)) r.win_sec tz r.natural),
    record (plain_rule {F = F} sliding r.limit) {
      cost = pos 1;
      window = int64 (r.win_sec *ℤ pos 1000);
    },
  )
  translate count tz r m now = (
    rate_key digest r.dimensions (dim_values m r.dimensions) r.win_sec
        (window_boundary (pos (now / second_ns)) r.win_sec tz r.natural),
    record (plain_rule {F = F} fixed r.limit) {
      cost = pos 1;
      expire = int64 (r.win_sec +ℤ pos 60);
    },
  )

  is_slots : Kind → Bool
  is_slots slots = true
  is_slots _ = false

  -- One round of the loop, for an enabled rule.
  enter : Prep → List (LuaRule F) → LocalFallback → Rule → Kind → Bytes × LuaRule F → ℕ → Built F
  unfolding is_slots
  enter p lua local r kind (key, lr) now = elim (blocked local key now) [
    | some until ↦ stop (denied r (pos (until - now)))
    | none ↦
        built
          (record {
            keys = p.keys ++ (key ∷ []);
            idx = p.idx ++ (r ∷ []);
            conc_keys = if is_slots kind then p.conc_keys ++ (key ∷ []) else p.conc_keys;
          })
          (lua ++ (record lr { k = suc (length p.keys) } ∷ []))
  ]

  loop : Prep → List (LuaRule F) → ℤ → LocalFallback → List Rule → Meta → ℕ → Built F
  unfolding enter
  loop p lua tz local [] m now = built p lua
  loop p lua tz local (r ∷ rs) m now =
      let entered = enter p lua local r (kind_of r) (translate (kind_of r) tz r m now) now in
      let skipped = loop p lua tz local rs m now in
      let continued = λ (p' : Prep) (lua' : List (LuaRule F)). loop p' lua' tz local rs m now in
      if is_enabled r
      then elim entered [ stop d ↦ stop d | built p' lua' ↦ continued p' lua' ]
      else skipped

  pub prepare : ℤ → LocalFallback → List Rule → Meta → ℕ → Built F
  unfolding loop
  prepare tz local rules m now = loop empty_prep [] tz local rules m now
