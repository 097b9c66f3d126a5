-- ===== src/Limiter/Check.antt =====
-- internal/limiter/limiter.go: the admission of a request. The batch script is called through
-- `Backend`, a store and a run of the script on it, which returns the reply or an error. An instant is
-- a number of nanoseconds since 1970; Check reads the clock once at its start (`now`) and again in what
-- it calls after the reply (`later`). Durations are int64 nanoseconds. json.Marshal of the rules does
-- not fail on numbers that are finite.
pub mod Prepare
pub mod Laws
pub mod Release
use unirate.Prelude.{
  ℕ, suc, ◌+◌, ◌-◌, ◌*◌, ◌/◌, Bool, true, false, ◌&&◌, ◌||◌, ltb, leb, ◌==◌ as nat_eq,
  if◌then◌else◌, Option, none, some, List, [], ◌∷◌, ◌++◌, length, get_elem?,
}
use unirate.Prelude.Text.{Bytes, codes}
use unirate.Prelude.Int.{ℤ, pos, pos_part, ◌*ℤ◌, ◌+ℤ◌, ◌/ℤ◌, int64, leb_ℤ, ltb_ℤ}
use unirate.Limiter.Breaker.{Breaker, on_success, on_failure, degraded}
use unirate.Limiter.Local.{LocalFallback, block, allow_quota}
use unirate.Limiter.Key.{window_boundary, rate_key, concurrency_key, dotted}
use unirate.Limiter.Rule.{
  Rule, RuleType, rate, concurrency, other_type, Metric, no_metric, request, token, other_metric,
}
use Prepare.{
  Meta, dim_values, Backend, LuaRule, Decision, Prep, Built, stop, built, prepare, empty_prep,
  denied, second_ns,
}

pub record ConcHold : Type 0 where
  pub keys : List Bytes
  pub req_id : Bytes

pub record Limiter : Type 0 where
  pub tz_offset : ℤ
  pub instances : ℕ
  pub local : LocalFallback
  pub breaker : Breaker

-- SetInstances: what is not positive is ignored.
pub set_instances : Limiter → ℤ → Limiter
set_instances l n = if leb_ℤ n (pos 0) then l else record l { instances = pos_part n }

-- The quotient of two int64; the divisor is at least 1.
pub local_quota : Limiter → ℤ → ℤ
local_quota l limit =
    let inst = if ltb l.instances 1 then 1 else l.instances in
    let q = limit /ℤ pos inst in if ltb_ℤ q (pos 1) then pos 1 else q

pub data FailMode : Type 0 where
  fail_open fail_close fail_local_quota : FailMode

rate_mode : Metric → FailMode
rate_mode token = fail_local_quota
rate_mode no_metric = fail_open
rate_mode request = fail_open
rate_mode (other_metric s) = fail_open

fail_mode_in : RuleType → Metric → FailMode
unfolding rate_mode
fail_mode_in rate m = rate_mode m
fail_mode_in concurrency m = fail_local_quota
fail_mode_in (other_type s) m = fail_open

pub fail_mode_of : Rule → FailMode
unfolding fail_mode_in
fail_mode_of r = fail_mode_in r.type r.metric

-- time.Duration(sec) * time.Second
abbrev pub seconds : ℤ → ℤ
seconds sec = int64 (sec *ℤ pos 1_000_000_000)

-- The local key, the limit and the window of a degraded rule.
rate_params : (Bytes → Bytes) → Limiter → Rule → Meta → ℕ → Bytes × ℤ × ℤ
rate_params digest l r m now = if leb_ℤ r.win_sec (pos 0) then ([], r.limit, pos 0) else (
  rate_key digest r.dimensions (dim_values m r.dimensions) r.win_sec
      (window_boundary (pos (now / second_ns)) r.win_sec l.tz_offset r.natural),
  r.limit,
  seconds r.win_sec,
)

params_in : (Bytes → Bytes) → RuleType → Limiter → Rule → Meta → ℕ → Bytes × ℤ × ℤ
unfolding rate_params
params_in digest concurrency l r m now = (
  concurrency_key digest m.biz r.dimensions (dim_values m r.dimensions) ++ codes "|deg",
  r.max_conc,
  seconds (if leb_ℤ r.timeout_sec (pos 0) then pos 120 else r.timeout_sec),
)
params_in digest rate l r m now = rate_params digest l r m now
params_in digest (other_type s) l r m now = rate_params digest l r m now

pub degrade_quota_params : (Bytes → Bytes) → Limiter → Rule → Meta → ℕ → Bytes × ℤ × ℤ
unfolding params_in
degrade_quota_params digest l r m now = params_in digest r.type l r m now

-- A rejection in degraded mode.
abbrev pub refused : Rule → ℤ → Decision
refused r retry = record (denied r retry) { degraded = true }

abbrev pub allowed_degraded : Decision
allowed_degraded = record {
  allowed = true;
  rule_name = [];
  rule_id = 0;
  dimension = [];
  retry_after = pos 0;
  degraded = true;
}

-- The loop of degrade(). A quota is compared as it is, and the window is positive where it is used.
degrade_rule : (Bytes → Bytes) → FailMode → Limiter → Rule → Meta → ℕ → Limiter × Option Decision
degrade_rule digest fail_open l r m now = (l, none)
degrade_rule digest fail_close l r m now = (l, some (refused r (pos 1_000_000_000)))
degrade_rule digest fail_local_quota l r m now =
    let (key, limit, window) = degrade_quota_params digest l r m now in
    let (local, granted) =
      allow_quota l.local key (pos_part (local_quota l limit)) (pos_part window) now in
    if leb_ℤ window (pos 0)
    then (l, some (refused r (pos 1_000_000_000)))
    else (record l { local = local }, if granted then none else some (refused r window))

pub degrade : (Bytes → Bytes) → Limiter → List Rule → Meta → ℕ → Limiter × Decision
unfolding degrade_rule
degrade digest l [] m now = (l, allowed_degraded)
degrade digest l (r ∷ rs) m now =
    let rest = degrade digest (degrade_rule digest (fail_mode_of r) l r m now).0 rs m now in
    elim (degrade_rule digest (fail_mode_of r) l r m now).1 [
      | some d ↦ ((degrade_rule digest (fail_mode_of r) l r m now).0, d)
      | none ↦ rest
    ]

-- parseResult: ok, the index and the milliseconds.
pub parse_result : List ℤ → Bool × ℤ × ℤ
parse_result [] = (false, pos 0, pos 0)
parse_result (a ∷ []) = (false, pos 0, pos 0)
parse_result (a ∷ b ∷ []) = (false, pos 0, pos 0)
parse_result (a ∷ b ∷ c ∷ rest) = (leb_ℤ a (pos 1) && leb_ℤ (pos 1) a, b, c)

abbrev pub allow : Decision
allow = record {
  allowed = true;
  rule_name = [];
  rule_id = 0;
  dimension = [];
  retry_after = pos 0;
  degraded = false;
}

abbrev unknown_rule : Decision
unknown_rule = record {
  allowed = false;
  rule_name = codes "unknown";
  rule_id = 0;
  dimension = [];
  retry_after = pos 0;
  degraded = false;
}

hold_for : List Bytes → Bytes → Option ConcHold
hold_for [] id = none
hold_for (k ∷ ks) id = some (record { keys = k ∷ ks; req_id = id })

-- The rule and the key at the index of a rejection, counted from 1.
blamed : Prep → ℤ → Option (Rule × Bytes)
blamed p index = elim (get_elem? p.idx (pos_part index - 1)) [
  | none ↦ none
  | some r ↦ elim (get_elem? p.keys (pos_part index - 1)) [
    | none ↦ none
    | some k ↦ if ltb_ℤ index (pos 1) then none else some (r, k)
  ]
]

-- A rejection by the script. A short one is remembered.
reject_blamed : Option (Rule × Bytes) → ℤ → Limiter → ℕ → ℕ → Limiter × Decision
reject_blamed none retry l now later = (l, unknown_rule)
reject_blamed (some (r, key)) retry l now later = (
  if ltb_ℤ (pos 0) retry && leb_ℤ retry (pos 10_000_000_000)
      then record l { local = block l.local key (now + pos_part retry) later }
      else l,
  denied r retry,
)

-- A reply of the script.
on_reply : Prep → Meta → List ℤ → Limiter → ℕ → ℕ → Limiter × Decision × Option ConcHold
unfolding hold_for reject_blamed blamed
on_reply p m reply l now later =
    let (ok, index, ms) = parse_result reply in
    let (l', d) = reject_blamed (blamed p index) (int64 (ms *ℤ pos 1_000_000)) l now later in
    if ok then (l, allow, hold_for p.conc_keys m.request_id) else (l', d, none)

-- An error of the script: refuse the first rule's requests unless the breaker says that Redis is
-- really down.
on_error : (Bytes → Bytes) → List Rule → Meta → Limiter → ℕ → Limiter × Decision × Option ConcHold
on_error digest [] m l later = (l, allow, none)
on_error digest (r ∷ rs) m l later =
    let (b, down) = degraded (on_failure l.breaker later) later in
    let l' = record l { breaker = b } in
    let (l'', d) = degrade digest l' (r ∷ rs) m later in
    if down then (l'', d, none) else (l', refused r (pos 100_000_000), none)

module _ {F : Type 0} (be : Backend F) (digest : Bytes → Bytes) where
  after_run :
      Prep
      → Meta
      → Limiter
      → Option (List ℤ) × be.Db
      → ℕ
      → ℕ
      → Limiter × be.Db × Decision × Option ConcHold
  unfolding on_reply on_error
  after_run p m l (none, db) now later =
      let (l', d, h) = on_error digest p.idx m l later in (l', db, d, h)
  after_run p m l (some reply, db) now later =
      let (l', d, h) =
        on_reply p m reply (record l { breaker = on_success l.breaker later }) now later in
      (l', db, d, h)

  -- Without a key to check the request is let in.
  after_prepare :
      Built F → Meta → Limiter → be.Db → ℕ → ℕ → Limiter × be.Db × Decision × Option ConcHold
  unfolding after_run
  after_prepare (stop d) m l db now later = (l, db, d, none)
  after_prepare (built p lua) m l db now later =
      let ran = be.run db p.keys lua m.request_id in
      if nat_eq (length p.keys) 0 then (l, db, allow, none) else after_run p m l ran now later

  pub check :
      Limiter → be.Db → List Rule → Meta → ℕ → ℕ → Limiter × be.Db × Decision × Option ConcHold
  check l db rules m now later =
      after_prepare (prepare be digest l.tz_offset l.local rules m now) m l db now later
