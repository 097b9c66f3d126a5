-- ===== src/Limiter/Ledger/Examples.antt =====
-- The ledger script over a key space in memory, in which no key expires.
use unirate.Prelude.{◌≡◌, refl, some, [], ◌∷◌}
use unirate.Prelude.Text.{codes, ◌==◌}
use unirate.Prelude.Int.{ℤ, pos, negsuc, ◌+ℤ◌, ◌-ℤ◌}
use unirate.Prelude.Maps.{Map, lookup, insert, lookup-insert}
use unirate.Limiter.Ledger.{Redis, RedisLaws, or_zero, is_some, settle, run_script}
use unirate.Limiter.Ledger.Script.{get-run_script}

abbrev pub in_memory : Redis
in_memory = record {
  Db = Map ℤ;
  get = λ d k. lookup k d;
  pttl = λ d k. negsuc 0;
  exists = λ d k. is_some (lookup k d);
  incrby = λ d k n. (or_zero (lookup k d) +ℤ n, insert k (or_zero (lookup k d) +ℤ n) d);
  expire = λ d k t. d;
  set_keep_ttl = λ d k n. insert k n d;
}

pub in_memory-laws : RedisLaws in_memory
in_memory-laws = record {
  exists_eq = λ d k. refl;
  incrby_value = λ d k n. refl;
  get-incrby = λ d k n j. lookup-insert k j (or_zero (lookup k d) +ℤ n) d;
  get-expire = λ d k t j. refl;
  get-set_keep_ttl = λ d k n j. lookup-insert k j n d;
}

abbrev pub reserved_120 : Map ℤ
reserved_120 = (codes "tk", pos 120) ∷ []

get-run_script_example :
    lookup
      (codes "tk")
      (run_script in_memory reserved_120 (codes "tk") (settle (pos 120) (pos 100) (pos 60))).1
    ≡ some (pos 100)
unfolding ◌==◌ lookup ◌+ℤ◌ ◌-ℤ◌
get-run_script_example =
    get-run_script in_memory in_memory-laws reserved_120 (codes "tk")
      (settle (pos 120) (pos 100) (pos 60)) (codes "tk")
