-- ===== src/Limiter/Ledger.antt =====
-- internal/limiter/scripts/token_ledger.lua and internal/limiter/ledger.go: the token budget of a
-- window. Redis is a parameter: its key space as the script sees it, the commands that the script
-- calls, and what their documentation says of them. A script runs alone and no key expires while it
-- runs. Ledger keys hold integers, since this script alone writes them.
pub mod Script
pub mod Calls
pub mod Examples
use unirate.Prelude.{
  ℕ, ◌≡◌, Bool, true, false, ◌||◌, if◌then◌else◌, Option, none, some, List, [], ◌∷◌,
}
use unirate.Prelude.Text.{Bytes, ◌==◌}
use unirate.Prelude.Int.{ℤ, pos, negsuc, ◌+ℤ◌, ◌-ℤ◌, leb_ℤ, ltb_ℤ}

-- tonumber(GET) or 0
abbrev pub or_zero : Option ℤ → ℤ
or_zero none = pos 0
or_zero (some n) = n

abbrev pub is_some : Option ℤ → Bool
is_some none = false
is_some (some n) = true

pub record Redis : Type 1 where
  pub Db : Type 0
  pub get : Db → Bytes → Option ℤ
  pub pttl : Db → Bytes → ℤ
  pub exists : Db → Bytes → Bool
  pub incrby : Db → Bytes → ℤ → ℤ × Db
  pub expire : Db → Bytes → ℤ → Db
  pub set_keep_ttl : Db → Bytes → ℤ → Db

-- What the commands do to the values. A missing key counts as 0; the others are not touched. The times to
-- live are the window and a minute, and positive where ParseWindow did not wrap; EXPIRE deletes otherwise.
pub record RedisLaws (r : Redis) : Type 0 where
  pub exists_eq : (d : r.Db) (k : Bytes) → r.exists d k ≡ is_some (r.get d k)
  pub incrby_value : (d : r.Db) (k : Bytes) (n : ℤ) → (r.incrby d k n).0 ≡ or_zero (r.get d k) +ℤ n
  pub get-incrby :
      (d : r.Db) (k : Bytes) (n : ℤ) (j : Bytes)
      → r.get (r.incrby d k n).1 j ≡ (if k == j then some (or_zero (r.get d k) +ℤ n) else r.get d j)
  pub get-expire : (d : r.Db) (k : Bytes) (t : ℤ) (j : Bytes) → r.get (r.expire d k t) j ≡ r.get d j
  pub get-set_keep_ttl :
      (d : r.Db) (k : Bytes) (n : ℤ) (j : Bytes)
      → r.get (r.set_keep_ttl d k n) j ≡ (if k == j then some n else r.get d j)

-- The three operations, with their arguments after the key.
pub data LedgerOp : Type 0 where
  admit : ℤ → LedgerOp
  reserve : ℤ → ℤ → LedgerOp
  settle : ℤ → ℤ → ℤ → LedgerOp

-- The reply: ok, the amount used, and the third number.
abbrev pub Reply : Type 0
Reply = ℤ × ℤ × ℤ

module _ (r : Redis) where
  open r use {Db, get, pttl, exists, incrby, expire, set_keep_ttl}

  unfoldable pub script_admit : Db → Bytes → ℤ → Reply
  script_admit d key limit =
      let used = or_zero (get d key) in
      let left = if ltb_ℤ (pttl d key) (pos 0) then pos 0 else pttl d key in
      if leb_ℤ limit used then (pos 0, used, left) else (pos 1, used, left)

  -- used == delta
  abbrev pub equal : ℤ → ℤ → Bool
  equal a b = if leb_ℤ a b then leb_ℤ b a else false

  pub script_reserve : Db → Bytes → ℤ → ℤ → Reply × Db
  script_reserve d key delta ttl =
      let (used, d') = incrby d key delta in
      if leb_ℤ delta (pos 0)
      then ((pos 1, or_zero (get d key), pos 0), d)
      else ((pos 1, used, pos 0), if equal used delta then expire d' key ttl else d')

  pub script_settle : Db → Bytes → ℤ → ℤ → ℤ → Reply × Db
  script_settle d key reserved actual ttl =
      let adjust = actual -ℤ reserved in
      let (used, d') = incrby d key adjust in
      if equal adjust (pos 0)
      then ((pos 1, or_zero (get d key), pos 0), d)
      else if exists d key
      then (if ltb_ℤ used (pos 0)
          then ((pos 1, pos 0, adjust), set_keep_ttl d' key (pos 0))
          else ((pos 1, used, adjust), d'))
      else if ltb_ℤ (pos 0) adjust
      then ((pos 1, adjust, adjust), expire d' key ttl)
      else ((pos 1, pos 0, pos 0), d)

  pub run_script : Db → Bytes → LedgerOp → Reply × Db
  unfolding script_admit script_reserve script_settle
  run_script d key (admit limit) = (script_admit d key limit, d)
  run_script d key (reserve delta ttl) = script_reserve d key delta ttl
  run_script d key (settle reserved actual ttl) = script_settle d key reserved actual ttl
