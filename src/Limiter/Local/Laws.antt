-- ===== src/Limiter/Local/Laws.antt =====
-- The negative cache of internal/limiter/local.go.
use unirate.Prelude.{
  ℕ, ◌≤◌, ◌≡◌, inl, inr, ltb, leb, if◌then◌else◌, none, some, arith, ◌∙◌, Bool-cases,
}
use unirate.Prelude.Text.{Bytes, ◌==◌}
use unirate.Prelude.Maps.{
  lookup, insert, lookup-insert, IsMap, lookup-sweep, sweep-IsMap, insert-IsMap,
}
use unirate.Limiter.Local.{
  LocalFallback, QuotaEntry, blocked, block, gc_locked, entry_for, allow_quota, after,
}

-- Both maps have distinct keys, as every Go map has.
pub record IsWf (l : LocalFallback) : Type 0 where
  pub blocks_map : IsMap l.blocks
  pub quotas_map : IsMap l.quotas

pub blocked-gc_locked :
    (l : LocalFallback) (now : ℕ) (key : Bytes) (later : ℕ)
    → IsWf l
    → now ≤ later
    → blocked (gc_locked l now) key later ≡ blocked l key later
unfolding blocked gc_locked
blocked-gc_locked l now key later w h =
    ground (arith, lookup-sweep (after now) key l.blocks w.blocks_map)

pub gc_locked-IsWf : (l : LocalFallback) (now : ℕ) → IsWf l → IsWf (gc_locked l now)
unfolding gc_locked
gc_locked-IsWf l now w = ground (
  arith,
  sweep-IsMap (after now) l.blocks w.blocks_map,
  sweep-IsMap (λ (e : QuotaEntry). after now e.reset_at) l.quotas w.quotas_map,
)

blocked-insert :
    (l : LocalFallback) (key j : Bytes) (until later : ℕ)
    → blocked (record l { blocks = insert key until l.blocks }) j later
      ≡ (if key == j then (if ltb until later then none else some until) else blocked l j later)
unfolding blocked
blocked-insert l key j until later = ground (arith, lookup-insert key j until l.blocks)

-- Blocking a key until an instant blocks that key, from then until that instant inclusive, and
-- changes what `blocked` says of no other key, whether or not the call collects old entries.
blocked-block :
    (l : LocalFallback) (key j : Bytes) (until now later : ℕ)
    → IsWf l
    → now ≤ later
    → blocked (block l key until now) j later
      ≡ (if key == j then (if ltb until later then none else some until) else blocked l j later)
unfolding block
blocked-block l key j until now later w h =
    blocked-gc_locked (record l { blocks = insert key until l.blocks }) now j later
      (record {
        blocks_map = insert-IsMap key until l.blocks w.blocks_map;
        quotas_map = w.quotas_map;
      })
      h
    ∙ blocked-insert l key j until later

pub block-IsWf :
    (l : LocalFallback) (key : Bytes) (until now : ℕ) → IsWf l → IsWf (block l key until now)
unfolding block
block-IsWf l key until now w = gc_locked-IsWf _ now (record {
  blocks_map = insert-IsMap key until l.blocks w.blocks_map;
  quotas_map = w.quotas_map;
})

pub store-IsWf :
    (l : LocalFallback) (key : Bytes) (e : QuotaEntry)
    → IsWf l
    → IsWf (record l { quotas = insert key e l.quotas })
store-IsWf l key e w = record {
  blocks_map = w.blocks_map;
  quotas_map = insert-IsMap key e l.quotas w.quotas_map;
}

pub allow_quota-IsWf :
    (l : LocalFallback) (key : Bytes) (limit window now : ℕ)
    → IsWf l
    → IsWf (allow_quota l key limit window now).0
unfolding allow_quota
allow_quota-IsWf l key limit window now w =
    elim (Bool-cases (leb limit (entry_for (lookup key l.quotas) window now).count)) [
      | inl full ↦ rw full (store-IsWf l key _ w)
      | inr room ↦ rw room (gc_locked-IsWf _ now (store-IsWf l key _ w))
    ]
