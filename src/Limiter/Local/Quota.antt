-- ===== src/Limiter/Local/Quota.antt =====
-- The local quota of internal/limiter/local.go.
use unirate.Prelude.{
  ℕ, ◌+◌, ◌≤◌, ◌<◌, ◌≡◌, ◌↔◌, refl, inl, inr, Bool, ◌&&◌, true, false, leb, if◌then◌else◌, some,
  List, [], ◌∷◌, arith, ◌∙◌, Bool-cases,
}
use unirate.Prelude.Text.{Bytes, ◌==◌, eq_iff, ==_refl}
use unirate.Prelude.Maps.{lookup, insert, lookup-insert, lookup-sweep, insert-IsMap}
use unirate.Limiter.Local.{
  LocalFallback, QuotaEntry, block, gc_locked, entry_for, allow_quota, after,
}
use unirate.Limiter.Local.Laws.{IsWf, store-IsWf, allow_quota-IsWf, block-IsWf}

-- The entry that a call of allowQuota for this key would work on.
abbrev pub entry : LocalFallback → Bytes → ℕ → ℕ → QuotaEntry
entry l key window now = entry_for (lookup key l.quotas) window now

entry-gc_locked :
    (l : LocalFallback) (now : ℕ) (key : Bytes) (window later : ℕ)
    → IsWf l
    → now ≤ later
    → entry (gc_locked l now) key window later ≡ entry l key window later
unfolding gc_locked entry_for
entry-gc_locked l now key window later w h =
    ground
      (arith, lookup-sweep (λ (e : QuotaEntry). after now e.reset_at) key l.quotas w.quotas_map)

entry-insert :
    (l : LocalFallback) (key j : Bytes) (e : QuotaEntry) (other later : ℕ)
    → entry (record l { quotas = insert key e l.quotas }) j other later
      ≡ (if key == j then entry_for (some e) other later else entry l j other later)
entry-insert l key j e other later =
    rw lookup-insert (elim (Bool-cases (key == j)) [ inl e ↦ rw e refl | inr e ↦ rw e refl ])

-- A call admits exactly while the entry of its key is below the limit, and counts what it admits.
-- The entries of other keys are as before, and garbage collection is not seen.
allow_quota_lem :
    (l : LocalFallback) (key j : Bytes) (limit window now other later : ℕ)
    → IsWf l
    → now ≤ later
    → let e = entry l key window now in
      let (l', granted) = allow_quota l key limit window now in
      ((granted ≡ true) ↔ (e.count < limit))
      × (entry l' j other later ≡ (
          if key == j
          then entry_for
              (some (record e { count = if granted then e.count + 1 else e.count }))
              other
              later
          else entry l j other later))
unfolding allow_quota
allow_quota_lem l key j limit window now other later w h =
    elim (Bool-cases (leb limit (entry l key window now).count)) [
      | inl full ↦
          rw full (
            (λ e. cc, λ lt. ground arith),
            entry-insert l key j (entry l key window now) other later,
          )
      | inr room ↦ rw room (
        (λ e. ground arith, λ lt. refl),
        entry-gc_locked _ now j other later (store-IsWf l key _ w) h
            ∙ entry-insert l key j _ other later,
      )
    ]

-- Calls of the local fallback, in the order in which the mutex lets them in.
pub data Op : Type 0 where
  blocks_key : Bytes → ℕ → Op
  asks_quota : Bytes → ℕ → ℕ → Op

unfoldable pub apply_op : LocalFallback → ℕ × Op → LocalFallback × Bool
apply_op l (now, blocks_key key until) = (block l key until now, false)
apply_op l (now, asks_quota key limit window) = allow_quota l key limit window now

-- Whether the call asks for this key.
abbrev pub asks_for : Bytes → Op → Bool
asks_for k (blocks_key key until) = false
asks_for k (asks_quota key limit window) = key == k

-- The calls for a key that a history admits.
unfoldable pub granted : LocalFallback → Bytes → List (ℕ × Op) → ℕ
granted l k [] = 0
granted l k (op ∷ ops) =
    (if asks_for k op.1 && (apply_op l op).1 then 1 else 0) + granted (apply_op l op).0 k ops

-- Times do not fall and stay up to `last`, and calls for the key use one limit.
abbrev pub Timely : ℕ → ℕ → Bytes → ℕ → List (ℕ × Op) → Type 0
Timely now last k limit [] = Unit
Timely now last k limit ((t, blocks_key key until) ∷ ops) =
    (now ≤ t) × (t ≤ last) × Timely t last k limit ops
Timely now last k limit ((t, asks_quota key l window) ∷ ops) =
    (now ≤ t) × (t ≤ last) × ((key == k) ≡ true → l ≡ limit) × Timely t last k limit ops

lookup-gc_locked :
    (l : LocalFallback) (t : ℕ) (k : Bytes) (e : QuotaEntry)
    → IsWf l
    → lookup k l.quotas ≡ some e
    → t ≤ e.reset_at
    → lookup k (gc_locked l t).quotas ≡ some e
unfolding gc_locked
lookup-gc_locked l t k e w found h =
    ground (arith, lookup-sweep (λ (e : QuotaEntry). after t e.reset_at) k l.quotas w.quotas_map)

lookup-block :
    (l : LocalFallback) (key : Bytes) (until t : ℕ) (k : Bytes) (e : QuotaEntry)
    → IsWf l
    → lookup k l.quotas ≡ some e
    → t ≤ e.reset_at
    → lookup k (block l key until t).quotas ≡ some e
unfolding block
lookup-block l key until t k e w found h =
    lookup-gc_locked _ t k e
      (record {
        blocks_map = insert-IsMap key until l.blocks w.blocks_map;
        quotas_map = w.quotas_map;
      })
      found h

-- What a call leaves of the entry of its key.
abbrev counted : QuotaEntry → Bool → QuotaEntry
counted e g = record e { count = if g then e.count + 1 else e.count }

-- A call works on the entry of its key, and leaves it in the map.
ask_self :
    (l : LocalFallback) (k : Bytes) (limit window t : ℕ)
    → IsWf l
    → t ≤ (entry l k window t).reset_at
    → let e = entry l k window t in
      let (l', g) = allow_quota l k limit window t in
      (g ≡ true → e.count < limit) × (lookup k l'.quotas ≡ some (counted e g))
unfolding allow_quota
ask_self l k limit window t w h = elim (Bool-cases (leb limit (entry l k window t).count)) [
  | inl full ↦ rw full ((λ g. cc), simp (lookup-insert, ==_refl))
  | inr room ↦ rw room (
    (λ g. ground arith),
    lookup-gc_locked _ t k _ (store-IsWf l k _ w) (simp (lookup-insert, ==_refl)) h,
  )
]

ask_other :
    (l : LocalFallback) (key k : Bytes) (limit window t : ℕ) (e : QuotaEntry)
    → IsWf l
    → (key == k) ≡ false
    → lookup k l.quotas ≡ some e
    → t ≤ e.reset_at
    → lookup k (allow_quota l key limit window t).0.quotas ≡ some e
unfolding allow_quota
ask_other l key k limit window t e w ne found h =
    elim (Bool-cases (leb limit (entry l key window t).count)) [
      | inl full ↦ rw full (rw lookup-insert (rw ne found))
      | inr room ↦
          rw room
            (lookup-gc_locked _ t k e (store-IsWf l key _ w) (rw lookup-insert (rw ne found)) h)
    ]

entry_for_live : (e : QuotaEntry) (window t : ℕ) → t ≤ e.reset_at → entry_for (some e) window t ≡ e
unfolding entry_for
entry_for_live e window t h = ground arith

-- A call for the key itself, when the entry is live: it is admitted below the limit, and counted.
ask_live :
    (l : LocalFallback) (key k : Bytes) (lim limit window t : ℕ) (e : QuotaEntry)
    → IsWf l
    → (key == k) ≡ true
    → lim ≡ limit
    → lookup k l.quotas ≡ some e
    → t ≤ e.reset_at
    → let (l', g) = allow_quota l key lim window t in
      (g ≡ true → e.count < limit) × (lookup k l'.quotas ≡ some (counted e g))
ask_live l key k lim limit window t e w self same found h =
    rw ((eq_iff key k).0 self, same) (rw live at (ask_self l k limit window t w (rw live h)))
  where
    live : entry l k window t ≡ e
    live = rw found (entry_for_live e window t h)

count_bound :
    (g : Bool) (c limit rest : ℕ)
    → c ≤ limit
    → (g ≡ true → c < limit)
    → ((if g then c + 1 else c) ≤ limit → (if g then c + 1 else c) + rest ≤ limit)
    → c + ((if g then 1 else 0) + rest) ≤ limit
count_bound true c limit rest le lt ih = let h = lt refl in let k = ih (omega arith) in omega arith
count_bound false c limit rest le lt ih = let k = ih le in omega arith

granted_bound :
    (l : LocalFallback) (k : Bytes) (limit now : ℕ) (e : QuotaEntry) (ops : List (ℕ × Op))
    → IsWf l
    → lookup k l.quotas ≡ some e
    → e.count ≤ limit
    → Timely now e.reset_at k limit ops
    → e.count + granted l k ops ≤ limit
unfolding granted apply_op
granted_bound l k limit now e [] w found le timely = omega arith
granted_bound l k limit now e ((t, blocks_key key until) ∷ ops) w found le (_, t_le, timely) =
    omega (
      arith,
      granted_bound (block l key until t) k limit t e ops (block-IsWf l key until t w)
          (lookup-block l key until t k e w found t_le) le timely,
    )
granted_bound l k limit now e ((t, asks_quota key lim window) ∷ ops) w found le
      (_, t_le, same, timely) =
    elim (Bool-cases (key == k)) [
      | inl self ↦
          let (bound, kept) = ask_live l key k lim limit window t e w self (same self) found t_le in
          let ih =
            granted_bound (allow_quota l key lim window t).0 k limit t
              (counted e (allow_quota l key lim window t).1) ops
              (allow_quota-IsWf l key lim window t w) kept in
          rw self (
            count_bound (allow_quota l key lim window t).1 e.count limit _ le bound
              (λ fits. ih fits timely))
      | inr ne ↦ rw ne (
          omega (
            arith,
            granted_bound (allow_quota l key lim window t).0 k limit t e ops
                (allow_quota-IsWf l key lim window t w)
                (ask_other l key k lim window t e w ne found t_le) le timely,
          ))
    ]

-- Over one period of a key, from its first call until the entry that the call works on is over, the
-- calls for that key that are admitted and the count at the start stay within the limit, whatever
-- calls for other keys, blocks and collections of old entries come between.
pub granted-period_bound :
    (l : LocalFallback) (k : Bytes) (limit window now : ℕ) (ops : List (ℕ × Op))
    → IsWf l
    → now ≤ (entry l k window now).reset_at
    → (entry l k window now).count ≤ limit
    → Timely now (entry l k window now).reset_at k limit ops
    → (entry l k window now).count + granted l k ((now, asks_quota k limit window) ∷ ops) ≤ limit
unfolding granted apply_op
granted-period_bound l k limit window now ops w live le timely =
    let (bound, kept) = ask_self l k limit window now w live in
    let e = entry l k window now in
    rw (==_refl k) (
      count_bound (allow_quota l k limit window now).1 e.count limit _ le bound (λ fits.
        granted_bound (allow_quota l k limit window now).0 k limit now
          (counted e (allow_quota l k limit window now).1) ops
          (allow_quota-IsWf l k limit window now w) kept fits timely))
