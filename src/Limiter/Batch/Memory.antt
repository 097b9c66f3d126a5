-- ===== src/Limiter/Batch/Memory.antt =====
-- The commands of the scripts over a store in memory, in which no key expires, and whole numbers for
-- the tokens of a bucket.
use unirate.Prelude.{ℕ, refl, if◌then◌else◌, none, some, length, Bool-cases, inl, inr}
use unirate.Prelude.Text.{Bytes, ◌==◌}
use unirate.Prelude.Int.{ℤ, negsuc, ◌+ℤ◌, ◌-ℤ◌, ◌*ℤ◌, ltb_ℤ}
use unirate.Prelude.Maps.{
  lookup, insert, remove, sweep, IsMap, count_of, insert-IsMap, remove-IsMap, sweep-IsMap,
}
use unirate.Limiter.Ledger.{or_zero, is_some}
use unirate.Limiter.Batch.{Numbers, Store}
use unirate.Limiter.Batch.Laws.{View, StoreLaws, out_of_date}

abbrev pub whole_numbers : Numbers
whole_numbers = record {
  F = ℤ;
  of_ℤ = λ z. z;
  add = ◌+ℤ◌;
  sub = ◌-ℤ◌;
  mul = ◌*ℤ◌;
  div = λ a b. a;
  lt = ltb_ℤ;
  ceil = λ z. z;
}

pub record Memory : Type 0 where
  pub clock : ℕ × ℕ
  pub at : Bytes → View ℤ
  pub distinct : (k : Bytes) → IsMap (at k).members

-- The store with one key changed.
module _ (d : Memory) (key : Bytes) (change : View ℤ → View ℤ)
    (ok : (v : View ℤ) → IsMap v.members → IsMap (change v).members) where
  abbrev pub put_at : Bytes → View ℤ
  put_at j = if key == j then change (d.at j) else d.at j

  pub put_distinct : (j : Bytes) → IsMap (put_at j).members
  put_distinct j = elim (Bool-cases (key == j)) [
    | inl e ↦ rw e (ok (d.at j) (d.distinct j))
    | inr e ↦ rw e (d.distinct j)
  ]

  abbrev pub put : Memory
  put = record d { at = put_at; distinct = put_distinct }

abbrev pub in_memory_store : Store ℤ
in_memory_store = record {
  base = record {
    Db = Memory;
    get = λ d k. (d.at k).value;
    pttl = λ d k. negsuc 0;
    exists = λ d k. is_some (d.at k).value;
    incrby = λ d k n. (
      or_zero (d.at k).value +ℤ n,
      put d k (λ v. record v { value = some (or_zero v.value +ℤ n) }) (λ v w. w),
    );
    expire = λ d k t. d;
    set_keep_ttl = λ d k n. put d k (λ v. record v { value = some n }) (λ v w. w);
  };
  time = λ d. d.clock;
  hmget = λ d k. (d.at k).bucket;
  zcard = λ d k. length (d.at k).members;
  oldest = λ d k. none;
  zremrangebyscore = λ d k max.
      put d k (λ v. record v { members = sweep (out_of_date max) v.members })
        (λ v w. sweep-IsMap (out_of_date max) v.members w);
  zadd = λ d k score m.
      put d k (λ v. record v { members = insert m score v.members })
        (λ v w. insert-IsMap m score v.members w);
  zrem = λ d k m. (
    count_of (lookup m (d.at k).members),
    put d k (λ v. record v { members = remove m v.members }) (λ v w. remove-IsMap m v.members w),
  );
  hset =
      λ d k tokens last. put d k (λ v. record v { bucket = (some tokens, some last) }) (λ v w. w);
  pexpire = λ d k t. d;
}

abbrev pub in_memory_store-laws : StoreLaws ℤ in_memory_store
in_memory_store-laws = record {
  view = λ d k. d.at k;
  members_map = λ d k. d.distinct k;
  get_value = λ d k. refl;
  hmget_value = λ d k. refl;
  zcard_value = λ d k. refl;
  view-incrby = λ d k n j. refl;
  view-expire = λ d k t j. refl;
  view-pexpire = λ d k t j. refl;
  view-zremrangebyscore = λ d k max j. refl;
  view-zadd = λ d k score m j. refl;
  view-hset = λ d k tokens last j. refl;
  view-zrem = λ d k m j. refl;
  zrem_value = λ d k m. refl;
}
