-- ===== src/Obs/Window.antt =====
-- internal/obs/window.go: 60 buckets of one second. Seconds since 1970 are natural numbers, and each
-- call of time.Now().Unix() is an argument. Here one goroutine at a time writes, so that the CAS
-- succeeds; Window/Race interleaves two. Counts stay below 2^63.
pub mod Total
pub mod Vectors
pub mod Race
mod Examples
use unirate.Prelude.{
  ℕ, ◌+◌, ◌%◌, Bool, ltb, ◌==◌, if◌then◌else◌, List, [], ◌∷◌, get_or, set, replicate,
}

abbrev pub window_buckets : ℕ
window_buckets = 60

pub record RingWindow : Type 0 where
  pub counts : List ℕ
  pub epochs : List ℕ

pub empty_ring : RingWindow
empty_ring = record { counts = replicate window_buckets 0; epochs = replicate window_buckets 0 }

-- The bucket is cleared when its second is another one.
claim : RingWindow → ℕ → ℕ → RingWindow
claim r i now =
    if get_or r.epochs i 0 == now
    then r
    else record { epochs = set r.epochs i now; counts = set r.counts i 0 }

unfoldable pub add : RingWindow → ℕ → ℕ → RingWindow
unfolding claim
add r now n =
    let i = now % window_buckets in
    let c = claim r i now in record c { counts = set c.counts i (get_or c.counts i 0 + n) }

-- epoch >= cutoff, with cutoff = now - windowBuckets + 1
abbrev pub is_live : ℕ → ℕ → Bool
is_live now epoch = ltb now (epoch + window_buckets)

sum_buckets : ℕ → List ℕ → List ℕ → ℕ
sum_buckets now [] counts = 0
sum_buckets now (e ∷ es) [] = 0
sum_buckets now (e ∷ es) (c ∷ cs) = (if is_live now e then c else 0) + sum_buckets now es cs

unfoldable pub sum : RingWindow → ℕ → ℕ
unfolding sum_buckets
sum r now = sum_buckets now r.epochs r.counts
