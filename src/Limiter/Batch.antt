-- ===== src/Limiter/Batch.antt =====
-- internal/limiter/scripts/batch_check.lua and release_conc.lua. The commands of Redis are a parameter,
-- and so are the numbers of Lua where they are not whole: the tokens of a bucket. A script runs alone,
-- so its run is one step, and TIME gives one answer in it. A key holds one kind of value: the rules'
-- keys have different prefixes for different kinds, except that fixed and sliding windows share one. A
-- number that the JSON of a rule leaves out is 0 here; Validate lets no rule through without those that
-- its type needs. Check writes the five types only, so the branch for another type has no case.
pub mod Laws
pub mod Rejects
pub mod Passes
pub mod Charges
pub mod Admits
pub mod Slots
pub mod Release
pub mod Repeats
pub mod Memory
mod Examples
use unirate.Prelude.{
  ℕ, suc, ◌-◌, ◌+◌, ◌*◌, ◌/◌, Bool, true, false, ltb, ◌==◌ as nat_eq, if◌then◌else◌, Option, none,
  some, List, [], ◌∷◌, ◌++◌, get_elem?,
}
use unirate.Prelude.Text.{Bytes, codes}
use unirate.Prelude.Int.{ℤ, pos, pos_part, ◌+ℤ◌, ◌-ℤ◌, ◌*ℤ◌, leb_ℤ, ltb_ℤ}
use unirate.Limiter.Key.{format_int}
use unirate.Limiter.Ledger.{Redis, or_zero}
use unirate.Limiter.Check.Prepare.{LuaRule, LuaType, fixed, sliding, tb, conc, tkadmit}

-- Lua's numbers where a bucket computes with them; `ceil` is math.ceil.
pub record Numbers : Type 1 where
  pub F : Type 0
  pub of_ℤ : ℤ → F
  pub add : F → F → F
  pub sub : F → F → F
  pub mul : F → F → F
  pub div : F → F → F
  pub lt : F → F → Bool
  pub ceil : F → ℤ

-- What the scripts call. `zremrangebyscore` is from 0 to its argument; `oldest` is the score that
-- ZRANGE key 0 0 WITHSCORES gives.
pub record Store (F : Type 0) : Type 1 where
  pub base : Redis
  pub open base use {Db, get, pttl, incrby, expire}
  pub time : Db → ℕ × ℕ
  pub hmget : Db → Bytes → Option F × Option ℤ
  pub zcard : Db → Bytes → ℕ
  pub oldest : Db → Bytes → Option ℤ
  pub zremrangebyscore : Db → Bytes → ℤ → Db
  pub zadd : Db → Bytes → ℤ → Bytes → Db
  pub zrem : Db → Bytes → Bytes → ℕ × Db
  pub hset : Db → Bytes → F → ℤ → Db
  pub pexpire : Db → Bytes → ℤ → Db

-- What a rule that passes leaves for the second phase.
pub data Plan (F : Type 0) : Type 0 where
  fixed_plan : Bytes → ℤ → ℤ → Bool → Plan F
  sliding_plan : Bytes → ℤ → ℤ → Plan F
  tb_plan : Bytes → F → ℤ → F → F → Plan F
  conc_plan : Bytes → ℤ → ℤ → Plan F
  noop : Plan F

-- A rule's answer in the first phase. A rejection has its time to wait; a Lua error ends the script.
pub data Verdict (F : Type 0) : Type 0 where
  refuses : ℤ → Verdict F
  passes : Plan F → Verdict F
  breaks : Verdict F

module _ (num : Numbers) (st : Store num.F) where
  open num use {F, of_ℤ, add, sub, mul, div, lt, ceil}
  open st use {
    Db, get, pttl, incrby, expire, time, hmget, zcard, oldest, zremrangebyscore, zadd, zrem, hset,
    pexpire,
  }

  pub now_ms : Db → ℤ
  now_ms d = let (sec, micros) = time d in pos (sec * 1000 + micros / 1000)

  check_fixed : Db → LuaRule F → Bytes → Verdict F
  check_fixed d r key =
      let cur = or_zero (get d key) in
      let ttl = if ltb_ℤ (pttl d key) (pos 0) then r.expire *ℤ pos 1000 else pttl d key in
      if ltb_ℤ r.limit (cur +ℤ r.cost)
      then refuses ttl
      else passes
          (fixed_plan key r.cost r.expire (if leb_ℤ cur (pos 0) then leb_ℤ (pos 0) cur else false))

  oldest_wait : Option ℤ → ℤ → ℤ → ℤ
  oldest_wait none window now = window
  oldest_wait (some score) window now =
      let wait = score +ℤ window -ℤ now in if ltb_ℤ wait (pos 0) then pos 0 else wait

  -- On the store after the sweep.
  check_sliding : Db → ℤ → LuaRule F → Bytes → Verdict F
  unfolding oldest_wait
  check_sliding d now r key =
      if ltb_ℤ r.limit (pos (zcard d key) +ℤ r.cost)
      then refuses (oldest_wait (oldest d key) r.window now)
      else passes (sliding_plan key r.cost r.window)

  -- The tokens and the time of the last refill, refilled up to `now`.
  refilled : Option F × Option ℤ → ℤ → F → F → F × ℤ
  refilled (some tokens, some last) now rate burst =
      let delta = now -ℤ last in
      let more = add tokens (mul (div (of_ℤ delta) (of_ℤ (pos 1000))) rate) in
      if ltb_ℤ (pos 0) delta then (if lt burst more then burst else more, now) else (tokens, last)
  refilled (some tokens, none) now rate burst = (burst, now)
  refilled (none, last) now rate burst = (burst, now)

  check_bucket : Db → ℤ → LuaRule F → Bytes → Option F → Verdict F
  unfolding refilled
  check_bucket d now r key none = breaks
  check_bucket d now r key (some rate) =
      let burst = of_ℤ r.burst in
      let (tokens, last) = refilled (hmget d key) now rate burst in
      let cost = of_ℤ r.cost in
      if lt tokens cost
      then refuses (ceil (mul (div (sub cost tokens) rate) (of_ℤ (pos 1000))))
      else passes (tb_plan key (sub tokens cost) last rate burst)

  -- On the store after the sweep.
  check_conc : Db → ℤ → LuaRule F → Bytes → Verdict F
  check_conc d now r key =
      if ltb_ℤ r.limit (pos (zcard d key + 1))
      then refuses r.ttl
      else passes (conc_plan key (now +ℤ r.ttl) r.ttl)

  pub check_tkadmit : Db → LuaRule F → Bytes → Verdict F
  check_tkadmit d r key =
      let left = if ltb_ℤ (pttl d key) (pos 0) then pos 0 else pttl d key in
      if leb_ℤ r.limit (or_zero (get d key)) then refuses left else passes noop

  -- One round of the first phase, for the rule's type and key.
  check_typed : LuaType → Db → ℤ → LuaRule F → Bytes → Db × Verdict F
  unfolding check_fixed check_sliding check_bucket check_conc
  check_typed fixed d now r key = (d, check_fixed d r key)
  check_typed sliding d now r key =
      let swept = zremrangebyscore d key (now -ℤ r.window) in (swept, check_sliding swept now r key)
  check_typed tb d now r key = (d, check_bucket d now r key r.rate)
  check_typed conc d now r key =
      let swept = zremrangebyscore d key now in (swept, check_conc swept now r key)
  check_typed tkadmit d now r key = (d, check_tkadmit d r key)

  pub check_keyed : Db → ℤ → LuaRule F → Option Bytes → Db × Verdict F
  unfolding check_typed
  check_keyed d now r none = (d, breaks)
  check_keyed d now r (some key) = check_typed r.t d now r key

  -- How the first phase ends: the rule that refused and its wait, the plans, or an error.
  pub data Outcome : Type 0 where
    refused_by : ℕ → ℤ → Outcome
    planned : List (Plan F) → Outcome
    broken : Outcome

  with_plan : Plan F → Outcome → Outcome
  with_plan p (refused_by i wait) = refused_by i wait
  with_plan p (planned ps) = planned (p ∷ ps)
  with_plan p broken = broken

  -- The round of rule `i`, whose store and verdict are given, before the `rest` of the rules.
  pub go_on : ℕ → Db → Verdict F → Db × Outcome → Db × Outcome
  unfolding with_plan
  go_on i d (refuses wait) rest = (d, refused_by i wait)
  go_on i d (passes p) (after, out) = (after, with_plan p out)
  go_on i d breaks rest = (d, broken)

  -- `i` is the index of the next rule.
  pub phase_one : ℕ → Db → ℤ → List Bytes → List (LuaRule F) → Db × Outcome
  unfolding check_keyed go_on
  phase_one i d now keys [] = (d, planned [])
  phase_one i d now keys (r ∷ rs) =
      let (d', verdict) = check_keyed d now r (get_elem? keys (r.k - 1)) in
      let rest = phase_one (i + 1) d' now keys rs in go_on i d' verdict rest

  -- The members of a sliding window: req_id:1, req_id:2, ...
  add_members : ℕ → Db → Bytes → ℤ → Bytes → Db
  add_members Prim.Native.Nat.zero d key now id = d
  add_members (suc n) d key now id =
      zadd (add_members n d key now id) key now (id ++ (b':' ∷ format_int (pos (suc n))))

  pub commit : Db → ℤ → Bytes → Plan F → Db
  unfolding add_members
  commit d now id (fixed_plan key cost time_left fresh) =
      let d' = (incrby d key cost).1 in if fresh then expire d' key time_left else d'
  commit d now id (sliding_plan key cost window) =
      pexpire (add_members (pos_part cost) d key now id) key (window +ℤ pos 1000)
  commit d now id (tb_plan key tokens last rate burst) =
      pexpire (hset d key tokens last) key
        (ceil (mul (div burst rate) (of_ℤ (pos 1000))) +ℤ pos 60000)
  commit d now id (conc_plan key deadline ttl) =
      pexpire (zadd d key deadline id) key (ttl +ℤ pos 60000)
  commit d now id noop = d

  pub phase_two : Db → ℤ → Bytes → List (Plan F) → Db
  unfolding commit
  phase_two d now id [] = d
  phase_two d now id (p ∷ ps) = phase_two (commit d now id p) now id ps

  answer : ℤ → Bytes → Db × Outcome → Option (List ℤ) × Db
  unfolding phase_two
  answer now id (d, refused_by i wait) = (some (pos 0 ∷ pos i ∷ wait ∷ []), d)
  answer now id (d, planned ps) = (some (pos 1 ∷ pos 0 ∷ pos 0 ∷ []), phase_two d now id ps)
  answer now id (d, broken) = (none, d)

  -- batch_check.lua: the reply, or an error, and the store after it.
  pub batch_check : Db → List Bytes → List (LuaRule F) → Bytes → Option (List ℤ) × Db
  unfolding phase_one answer
  batch_check d keys rules id = answer (now_ms d) id (phase_one 1 d (now_ms d) keys rules)

  -- release_conc.lua: how many holds were removed.
  pub release_conc : Db → List Bytes → Bytes → ℕ × Db
  release_conc d [] id = (0, d)
  release_conc d (key ∷ keys) id =
      let (removed, d') = zrem d key id in
      let (more, after) = release_conc d' keys id in (removed + more, after)
