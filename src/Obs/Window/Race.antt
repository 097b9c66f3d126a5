-- ===== src/Obs/Window/Race.antt =====
-- ringWindow.add of internal/obs/window.go with two goroutines in one bucket, atomic access by atomic
-- access: the load of the epoch, the compare-and-swap, the store of 0, the addition.
use unirate.Prelude.{ℕ, ◌+◌, ◌≡◌, ◌≢◌, Bool, true, false, ◌==◌, if◌then◌else◌, List, [], ◌∷◌, arith}

-- How far a goroutine has come. `loaded old` holds the epoch that it read.
pub data Pc : Type 0 where
  start : Pc
  loaded : ℕ → Pc
  won : Pc
  ready : Pc
  finished : Pc

pub record Bucket : Type 0 where
  pub epoch : ℕ
  pub count : ℕ
  pub first : Pc
  pub second : Pc

-- One atomic access at the second `now`, by a goroutine that adds `n`: the new epoch, count and place.
access : ℕ → ℕ → Pc → ℕ → ℕ → ℕ × ℕ × Pc
access now n start epoch count = (epoch, count, if epoch == now then ready else loaded epoch)
access now n (loaded old) epoch count =
    if epoch == old then (now, count, won) else (epoch, count, ready)
access now n won epoch count = (epoch, 0, ready)
access now n ready epoch count = (epoch, count + n, finished)
access now n finished epoch count = (epoch, count, finished)

-- `true` lets the first goroutine make its next access, `false` the second.
move : ℕ → ℕ → ℕ → Bucket → Bool → Bucket
unfolding access
move now n m b true =
    let (e, c, p) = access now n b.first b.epoch b.count in
    record b { epoch = e; count = c; first = p }
move now n m b false =
    let (e, c, p) = access now m b.second b.epoch b.count in
    record b { epoch = e; count = c; second = p }

pub interleave : ℕ → ℕ → ℕ → Bucket → List Bool → Bucket
unfolding move
interleave now n m b [] = b
interleave now n m b (who ∷ rest) = interleave now n m (move now n m b who) rest

abbrev pub fresh : ℕ → ℕ → Bucket
fresh old stale = record { epoch = old; count = stale; first = start; second = start }

-- The first goroutine wins the swap; the second sees the new epoch and adds; the first clears.
abbrev pub bad_order : List Bool
bad_order = true ∷ true ∷ false ∷ false ∷ true ∷ true ∷ []

-- The store of 0 is not one step with the swap that earns it, so an addition between the two is
-- lost: in every bucket that holds another second, there is an order of the accesses of two
-- goroutines that add `n` and `m`, after which both have finished and the bucket holds `n` alone.
pub interleave-loses :
    (now old stale n m : ℕ)
    → old ≢ now
    → let b = interleave now n m (fresh old stale) bad_order in
      (b.first ≡ finished) × (b.second ≡ finished) × (b.epoch ≡ now) × (b.count ≡ n)
unfolding interleave
interleave-loses now old stale n m h = ground arith

-- One goroutine after the other: both amounts are there.
abbrev pub good_order : List Bool
good_order = true ∷ true ∷ true ∷ true ∷ false ∷ false ∷ []

pub interleave-keeps :
    (now old stale n m : ℕ)
    → old ≢ now
    → let b = interleave now n m (fresh old stale) good_order in
      (b.first ≡ finished) × (b.second ≡ finished) × (b.epoch ≡ now) × (b.count ≡ n + m)
unfolding interleave
interleave-keeps now old stale n m h = ground arith
