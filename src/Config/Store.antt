-- ===== src/Config/Store.antt =====
-- internal/config/store.go and policy_store.go: the configuration that a gateway serves from. Each call, each
-- message of the subscription and each round of the poll is one step. SQL, Redis and encoding/json answer
-- from outside: a step has their answers. The
-- log is left out. Listeners are numbers, and their calls a list.
pub mod Same
pub mod Consistent
pub mod History
pub mod Heard
mod Examples
use unirate.Prelude.{
  ℕ, Bool, true, false, not, ◌&&◌, ◌||◌, if◌then◌else◌, Option, none, some, List, [], ◌∷◌, ◌++◌,
  map,
}
use unirate.Prelude.Text.{Bytes, ◌==◌}
use unirate.Prelude.Int.{ℤ, pos, ltb_ℤ, leb_ℤ}
use unirate.Prelude.Maps.{Map}
use unirate.Config.Policy.{Policy, default_policy, resolve_policy}
use unirate.Config.Snapshot.{BizConfig, Snapshot}
use unirate.Config.Load.{
  Json, Row, Answer, Fallible, ok, failed, panics, load_bizs, load_policy_overrides,
  load_from_redis,
}

pub record Store : Type 0 where
  pub cur : Snapshot
  pub base : Policy
  pub eff : Policy
  pub overrides : Map Bytes
  pub listeners : List ℕ
  pub heard : List (ℕ × Policy)
  pub degraded : Bool
  pub published : List Snapshot

pub new_store : Store
new_store = record {
  cur = record { version = pos 0; bizs = []; policy_overrides = [] };
  base = default_policy;
  eff = default_policy;
  overrides = [];
  listeners = [];
  heard = [];
  degraded = false;
  published = [];
}

eq_ℤ : ℤ → ℤ → Bool
eq_ℤ a b = leb_ℤ a b && leb_ℤ b a

eq_bool : Bool → Bool → Bool
eq_bool a b = if a then b else not b

-- `*old == *eff`
pub same_policy : Policy → Policy → Bool
same_policy p q =
    eq_bool p.expose_rule_name q.expose_rule_name
    && (eq_ℤ p.upstream_timeout q.upstream_timeout
        && (eq_ℤ p.token_flush_interval q.token_flush_interval
            && (eq_ℤ p.max_request_body_mb q.max_request_body_mb
                && (eq_ℤ p.config_poll_interval q.config_poll_interval
                    && (p.log_level == q.log_level && eq_ℤ p.instances q.instances)))))

-- What the answers of SQL and Redis to one load are: those of the two queries, that of INCR and the clock
-- in seconds, and whether SET went well.
pub record LoadAnswers : Type 0 where
  pub rows : Answer Row
  pub override_rows : Answer (Bytes × Bytes)
  pub incremented : Option ℤ
  pub unix_now : ℤ
  pub set_done : Bool

-- One step of a store. After a panic nothing follows; its step leaves the state.
pub data Step : Type 0 where
  sets_base : Option Policy → Step
  listens : ℕ → Step
  loads : Option LoadAnswers → Step
  bootstraps : Option LoadAnswers → Option Bytes → Step
  invalidated : Option Bytes → Step
  polls : Option ℤ → Option Bytes → Step

base_or_default : Option Policy → Policy
base_or_default none = default_policy
base_or_default (some p) = p

version_of : Option ℤ → ℤ → ℤ
version_of none now = now
version_of (some v) now = v

publish : Bool → Snapshot → Store → Store
publish set_done snap s =
    if set_done then record s { published = s.published ++ (snap ∷ []) } else s

pub after_load : Store → Fallible (Snapshot × Store) → Store
after_load s (ok (snap, s')) = s'
after_load s failed = s
after_load s panics = s

pub on_policy_change : ℕ → Store → Store
on_policy_change fn s = record s {
  listeners = s.listeners ++ (fn ∷ []);
  heard = s.heard ++ ((fn, s.eff) ∷ []);
}

module _ (parse_duration : Bytes → Option ℤ) where
  -- The new value is stored, and every listener called with it.
  notify : Policy → Store → Store
  notify eff s = record s { eff = eff; heard = s.heard ++ map (λ l. (l, eff)) s.listeners }

  pub refresh_policy : Map Bytes → Store → Store
  refresh_policy overrides s =
      let (eff, problems) = resolve_policy parse_duration (some s.base) overrides in
      let kept = record s { overrides = overrides } in
      if same_policy s.eff eff then kept else notify eff kept

  pub set_policy_base : Option Policy → Store → Store
  set_policy_base base s = refresh_policy s.overrides (record s { base = base_or_default base })

  pub apply : Snapshot → Store → Store
  apply snap s = refresh_policy snap.policy_overrides (record s { cur = snap })

  -- The end of a load: the version, the publication, and the store.
  loaded : LoadAnswers → Map BizConfig → Map Bytes → Store → Snapshot × Store
  loaded a bizs overrides s =
      let snap : Snapshot = record {
        version = version_of a.incremented a.unix_now;
        bizs = bizs;
        policy_overrides = overrides;
      } in
      (snap, record (apply snap (publish a.set_done snap s)) { degraded = false })

  with_overrides :
      LoadAnswers → Map BizConfig → Fallible (Map Bytes) → Store → Fallible (Snapshot × Store)
  with_overrides a bizs (ok overrides) s = ok (loaded a bizs overrides s)
  with_overrides a bizs failed s = failed
  with_overrides a bizs panics s = panics

  -- LoadFromDB; without a database it fails.
  pub load_from_db : Json → Option LoadAnswers → Store → Fallible (Snapshot × Store)
  load_from_db json none s = failed
  load_from_db json (some a) s = elim (load_bizs json a.rows) [
    | failed ↦ failed
    | panics ↦ panics
    | ok bizs ↦ with_overrides a bizs (load_policy_overrides a.override_rows) s
  ]

  applied : Fallible Snapshot → Store → Store
  applied (ok snap) s = apply snap s
  applied failed s = s
  applied panics s = s

  -- A message of the subscription.
  pub newer : Fallible Snapshot → Store → Store
  newer (ok snap) s = if leb_ℤ s.cur.version snap.version then apply snap s else s
  newer failed s = s
  newer panics s = s

  -- A round of the poll.
  pub poll : Json → Option ℤ → Option Bytes → Store → Store
  poll json none got s = record s { degraded = true }
  poll json (some ver) got s =
      let up = record s { degraded = false } in
      if ltb_ℤ s.cur.version ver then applied (load_from_redis json got) up else up

  from_redis : Store → Fallible Snapshot → Store × Bool
  from_redis s (ok snap) = (apply snap s, true)
  from_redis s failed = (s, false)
  from_redis s panics = (s, false)

  from_sot : Json → Option Bytes → Store → Fallible (Snapshot × Store) → Store × Bool
  from_sot json got s (ok (snap, s')) = (s', true)
  from_sot json got s failed = from_redis s (load_from_redis json got)
  from_sot json got s panics = (s, false)

  -- Bootstrap, and whether it went well.
  pub bootstrap : Json → Option LoadAnswers → Option Bytes → Store → Store × Bool
  bootstrap json a got s = from_sot json got s (load_from_db json a s)

  pub step : Json → Step → Store → Store
  step json (sets_base p) s = set_policy_base p s
  step json (listens fn) s = on_policy_change fn s
  step json (loads a) s = after_load s (load_from_db json a s)
  step json (bootstraps a got) s = (bootstrap json a got s).0
  step json (invalidated got) s = newer (load_from_redis json got) s
  step json (polls ver got) s = poll json ver got s

  pub run : Json → List Step → Store → Store
  run json [] s = s
  run json (x ∷ xs) s = run json xs (step json x s)
