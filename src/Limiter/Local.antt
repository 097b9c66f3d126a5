-- ===== src/Limiter/Local.antt =====
-- internal/limiter/local.go. The two maps are association lists with distinct keys; an instant is a
-- number of nanoseconds, and each call of time.Now() is an argument. The mutex makes each call one
-- step. `int64` counts stay below the limit that they are compared with.
pub mod Laws
pub mod Quota
mod Examples
use unirate.Prelude.{
  ℕ, ◌+◌, ◌-◌, ◌*◌, Bool, true, false, ltb, leb, if◌then◌else◌, Option, none, some, [],
}
use unirate.Prelude.Text.{Bytes}
use unirate.Prelude.Maps.{Map, lookup, insert, sweep}

pub record QuotaEntry : Type 0 where
  pub count : ℕ
  pub reset_at : ℕ

pub record LocalFallback : Type 0 where
  pub blocks : Map ℕ
  pub quotas : Map QuotaEntry
  pub last_gc : ℕ

pub new_local_fallback : ℕ → LocalFallback
new_local_fallback now = record { blocks = []; quotas = []; last_gc = now }

-- now.After(t)
abbrev pub after : ℕ → ℕ → Bool
after now t = ltb t now

unfoldable pub blocked_until : Option ℕ → ℕ → Option ℕ
blocked_until none now = none
blocked_until (some until) now = if after now until then none else some until

unfoldable pub blocked : LocalFallback → Bytes → ℕ → Option ℕ
unfolding blocked_until
blocked l key now = blocked_until (lookup key l.blocks) now

-- 30 * time.Second
abbrev gc_period : ℕ
gc_period = 30_000_000_000

unfoldable pub gc_locked : LocalFallback → ℕ → LocalFallback
gc_locked l now = if ltb (now - l.last_gc) gc_period then l else record {
  blocks = sweep (after now) l.blocks;
  quotas = sweep (λ e. after now e.reset_at) l.quotas;
  last_gc = now;
}

unfoldable pub block : LocalFallback → Bytes → ℕ → ℕ → LocalFallback
block l key until now = gc_locked (record l { blocks = insert key until l.blocks }) now

-- The entry that allowQuota works on: the stored one, or a new one if there is none or it is over.
unfoldable pub entry_for : Option QuotaEntry → ℕ → ℕ → QuotaEntry
entry_for none window now = record { count = 0; reset_at = now + window }
entry_for (some e) window now =
    if after now e.reset_at then record { count = 0; reset_at = now + window } else e

-- A new entry is stored before the test of the limit, as in the source.
unfoldable pub allow_quota : LocalFallback → Bytes → ℕ → ℕ → ℕ → LocalFallback × Bool
allow_quota l key limit window now =
    let e = entry_for (lookup key l.quotas) window now in
    if leb limit e.count then (record l { quotas = insert key e l.quotas }, false) else (
      gc_locked (record l { quotas = insert key (record e { count = e.count + 1 }) l.quotas }) now,
      true,
    )
