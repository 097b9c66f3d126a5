-- ===== src/Limiter/Batch/Laws.antt =====
-- What the documentation of Redis says of the commands that the scripts of internal/limiter/scripts call.
use unirate.Prelude.{◌≡◌, Bool, ◌&&◌, if◌then◌else◌, Option, some, length}
use unirate.Prelude.Text.{Bytes, ◌==◌}
use unirate.Prelude.Int.{ℤ, pos, ◌+ℤ◌, leb_ℤ}
use unirate.Prelude.Maps.{Map, lookup, insert, remove, sweep, IsMap, count_of}
use unirate.Limiter.Ledger.{or_zero}
use unirate.Limiter.Batch.{Store}

-- What a key holds: a number, the fields of a bucket, or members with their scores.
pub record View (F : Type 0) : Type 0 where
  pub value : Option ℤ
  pub bucket : Option F × Option ℤ
  pub members : Map ℤ

-- The scores that ZREMRANGEBYSCORE key 0 max removes.
abbrev pub out_of_date : ℤ → ℤ → Bool
out_of_date max score = leb_ℤ (pos 0) score && leb_ℤ score max

-- Every command acts on its own key, and the times to live are not values. The laws are those of commands that
-- succeed: a command on a key that holds another kind of value answers WRONGTYPE and ends the script, as
-- where a fixed and a sliding window share a key, and such a run is outside them; so is a time to live
-- that is not positive, which deletes the key.
pub record StoreLaws (F : Type 0) (st : Store F) : Type 0 where
  pub view : st.Db → Bytes → View F
  pub members_map : (d : st.Db) (k : Bytes) → IsMap (view d k).members
  pub get_value : (d : st.Db) (k : Bytes) → st.get d k ≡ (view d k).value
  pub hmget_value : (d : st.Db) (k : Bytes) → st.hmget d k ≡ (view d k).bucket
  pub zcard_value : (d : st.Db) (k : Bytes) → st.zcard d k ≡ length (view d k).members
  pub view-incrby :
      (d : st.Db) (k : Bytes) (n : ℤ) (j : Bytes)
      → view (st.incrby d k n).1 j ≡ (
          if k == j
          then record (view d j) { value = some (or_zero (view d j).value +ℤ n) }
          else view d j)
  pub view-expire :
      (d : st.Db) (k : Bytes) (t : ℤ) (j : Bytes) → view (st.expire d k t) j ≡ view d j
  pub view-pexpire :
      (d : st.Db) (k : Bytes) (t : ℤ) (j : Bytes) → view (st.pexpire d k t) j ≡ view d j
  pub view-zremrangebyscore :
      (d : st.Db) (k : Bytes) (max : ℤ) (j : Bytes)
      → view (st.zremrangebyscore d k max) j ≡ (
          if k == j
          then record (view d j) { members = sweep (out_of_date max) (view d j).members }
          else view d j)
  pub view-zadd :
      (d : st.Db) (k : Bytes) (score : ℤ) (m : Bytes) (j : Bytes)
      → view (st.zadd d k score m) j ≡ (
          if k == j
          then record (view d j) { members = insert m score (view d j).members }
          else view d j)
  pub view-hset :
      (d : st.Db) (k : Bytes) (tokens : F) (last : ℤ) (j : Bytes)
      → view (st.hset d k tokens last) j
        ≡ (if k == j then record (view d j) { bucket = (some tokens, some last) } else view d j)
  pub view-zrem :
      (d : st.Db) (k : Bytes) (m : Bytes) (j : Bytes)
      → view (st.zrem d k m).1 j
        ≡ (if k == j then record (view d j) { members = remove m (view d j).members } else view d j)
  pub zrem_value :
      (d : st.Db) (k : Bytes) (m : Bytes)
      → (st.zrem d k m).0 ≡ count_of (lookup m (view d k).members)
