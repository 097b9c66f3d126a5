-- ===== src/Obs/Window/Total.antt =====
-- The sum of a window of internal/obs/window.go against the events that were added.
use unirate.Prelude.{
  ℕ, zero, suc, ◌+◌, ◌%◌, ◌≤◌, ◌<◌, ◌≡◌, ◌≢◌, ◌⊎◌, inl, inr, refl, ltb, if◌then◌else◌, List, [],
  ◌∷◌, get_or, set, replicate, length, length-set, get_or-set_self, arith, Bool-cases, ◌==◌, ==_iff,
  ap, ◌∙◌, get_or-set,
}
use unirate.Obs.Window.{RingWindow, empty_ring, window_buckets, add, sum, sum_buckets, is_live}

-- What a bucket gives to the sum.
abbrev share : ℕ → ℕ → ℕ → ℕ
share now e c = if is_live now e then c else 0

-- A bucket holds a second of its own residue, or nothing; no second lies after `t`.
abbrev FitsAt : ℕ → ℕ → ℕ → ℕ → Type 0
FitsAt t i e c = (e ≤ t) × ((e % 60 ≡ i) ⊎ (c ≡ 0))

pub record Inv (t : ℕ) (r : RingWindow) : Type 0 where
  pub epochs_len : length r.epochs ≡ window_buckets
  pub counts_len : length r.counts ≡ window_buckets
  pub fits : (i : ℕ) → i < window_buckets → FitsAt t i (get_or r.epochs i 0) (get_or r.counts i 0)

-- Writing one bucket exchanges its share.
sum_buckets-set :
    (now i e c : ℕ) (es cs : List ℕ)
    → i < length es
    → i < length cs
    → sum_buckets now (set es i e) (set cs i c) + share now (get_or es i 0) (get_or cs i 0)
      ≡ sum_buckets now es cs + share now e c
unfolding sum_buckets
sum_buckets-set now i e c [] cs h k = absurd (omega arith)
sum_buckets-set now i e c (x ∷ es) [] h k = absurd (omega arith)
sum_buckets-set now zero e c (x ∷ es) (y ∷ cs) h k = omega arith
sum_buckets-set now (suc i) e c (x ∷ es) (y ∷ cs) h k =
    omega (arith, sum_buckets-set now i e c es cs (omega arith) (omega arith))

sum_buckets-set_count :
    (now i c : ℕ) (es cs : List ℕ)
    → i < length es
    → i < length cs
    → sum_buckets now es (set cs i c) + share now (get_or es i 0) (get_or cs i 0)
      ≡ sum_buckets now es cs + share now (get_or es i 0) c
unfolding sum_buckets
sum_buckets-set_count now i c [] cs h k = absurd (omega arith)
sum_buckets-set_count now i c (x ∷ es) [] h k = absurd (omega arith)
sum_buckets-set_count now zero c (x ∷ es) (y ∷ cs) h k = omega arith
sum_buckets-set_count now (suc i) c (x ∷ es) (y ∷ cs) h k =
    omega (arith, sum_buckets-set_count now i c es cs (omega arith) (omega arith))

-- A second that is live after `t` and has the residue of `t` is `t`.
stale_dead : (e t now : ℕ) → e ≤ t → e ≢ t → e % 60 ≡ t % 60 → t ≤ now → e + 60 ≤ now
stale_dead e t now h ne res le = omega arith

-- So the bucket that `t` takes over no longer counts.
old_share :
    (r : RingWindow) (t now : ℕ)
    → Inv t r
    → t ≤ now
    → get_or r.epochs (t % 60) 0 ≢ t
    → share now (get_or r.epochs (t % 60) 0) (get_or r.counts (t % 60) 0) ≡ 0
old_share r t now v le ne =
    let fit = v.fits (t % 60) (omega arith) in
    ground (arith, fit, stale_dead (get_or r.epochs (t % 60) 0) t now)

set-set {ℓ} : {A : Type ℓ} (xs : List A) (i : ℕ) (v w : A) → set (set xs i v) i w ≡ set xs i w
set-set [] i v w = refl
set-set (x ∷ xs) zero v w = refl
set-set (x ∷ xs) (suc i) v w = ap (λ ys. x ∷ ys) (set-set xs i v w)

-- A call of `add` raises the sum at every later second by the amount while its second is live.
sum-add :
    (r : RingWindow) (t n now : ℕ)
    → Inv t r
    → t ≤ now
    → sum (add r t n) now ≡ sum r now + (if is_live now t then n else 0)
unfolding add sum
sum-add r t n now v le = elim (Bool-cases (get_or r.epochs (t % 60) 0 == t)) [
  | inl same ↦ rw same (
      let e : get_or r.epochs (t % 60) 0 ≡ t = (==_iff _ _).0 same in
      ground (
        arith,
        e,
        sum_buckets-set_count now (t % 60) (get_or r.counts (t % 60) 0 + n) r.epochs r.counts
            (omega (arith, v.epochs_len)) (omega (arith, v.counts_len)),
      ))
  | inr other ↦ rw other (
      rw (set-set, get_or-set_self r.counts (t % 60) 0 0 (omega (arith, v.counts_len)))
        (ground (
          arith,
          old_share r t now v le (λ e. cc ((==_iff _ _).1 e)),
          sum_buckets-set now (t % 60) t (0 + n) r.epochs r.counts (omega (arith, v.epochs_len))
              (omega (arith, v.counts_len)),
        )))
]

add-Inv : (r : RingWindow) (t u n : ℕ) → Inv t r → t ≤ u → Inv u (add r u n)
unfolding add
add-Inv r t u n v le = elim (Bool-cases (get_or r.epochs (u % 60) 0 == u)) [
  | inl same ↦ rw same (record {
    epochs_len = v.epochs_len;
    counts_len = length-set r.counts _ _ ∙ v.counts_len;
    fits = λ j h. ground (
      arith,
      v.fits j h,
      same,
      get_or-set r.counts (u % 60) j (get_or r.counts (u % 60) 0 + n) 0
          (omega (arith, v.counts_len)),
    );
  })
  | inr other ↦ rw other (
      rw set-set (record {
        epochs_len = length-set r.epochs _ _ ∙ v.epochs_len;
        counts_len = length-set r.counts _ _ ∙ v.counts_len;
        fits = λ j h. ground (
          arith,
          v.fits j h,
          get_or-set r.epochs (u % 60) j u 0 (omega (arith, v.epochs_len)),
          get_or-set r.counts (u % 60) j (get_or (set r.counts (u % 60) 0) (u % 60) 0 + n) 0
              (omega (arith, v.counts_len)),
        );
      }))
]

-- Events in the order in which they were added, none before `t`, none after `now`.
abbrev pub Timely : ℕ → ℕ → List (ℕ × ℕ) → Type 0
Timely t now [] = t ≤ now
Timely t now ((u, n) ∷ es) = (t ≤ u) × Timely u now es

pub add_all : RingWindow → List (ℕ × ℕ) → RingWindow
add_all r [] = r
add_all r ((t, n) ∷ es) = add_all (add r t n) es

-- The amounts of the events of the last 60 seconds, the current one included.
abbrev pub recent : ℕ → List (ℕ × ℕ) → ℕ
recent now [] = 0
recent now ((t, n) ∷ es) = (if ltb now (t + 60) then n else 0) + recent now es

Timely-le : (t now : ℕ) (es : List (ℕ × ℕ)) → Timely t now es → t ≤ now
Timely-le t now [] h = h
Timely-le t now ((u, n) ∷ es) (le, h) = omega (arith, Timely-le u now es h)

Inv-mono : (r : RingWindow) (t u : ℕ) → Inv t r → t ≤ u → Inv u r
Inv-mono r t u v le = record {
  epochs_len = v.epochs_len;
  counts_len = v.counts_len;
  fits = λ i h. ground (arith, v.fits i h);
}

sum-add_all_from :
    (r : RingWindow) (t now : ℕ) (es : List (ℕ × ℕ))
    → Inv t r
    → Timely t now es
    → sum (add_all r es) now ≡ sum r now + recent now es
unfolding add_all
sum-add_all_from r t now [] v le = omega arith
sum-add_all_from r t now ((u, n) ∷ es) v (le, timely) = omega (
  arith,
  sum-add_all_from (add r u n) u now es (add-Inv r t u n v le) timely,
  sum-add r u n now (Inv-mono r t u v le) (Timely-le u now es timely),
)

get_or-replicate : (n i : ℕ) → get_or {A = ℕ} (replicate n 0) i 0 ≡ 0
get_or-replicate zero i = refl
get_or-replicate (suc n) zero = refl
get_or-replicate (suc n) (suc i) = get_or-replicate n i

empty_ring-Inv : Inv 0 empty_ring
unfolding empty_ring
empty_ring-Inv = record {
  epochs_len = refl;
  counts_len = refl;
  fits = λ i h. ground (arith, get_or-replicate 60 i);
}

sum_buckets-zeros : (now n : ℕ) → sum_buckets now (replicate n 0) (replicate n 0) ≡ 0
unfolding sum_buckets
sum_buckets-zeros now zero = refl
sum_buckets-zeros now (suc n) = ground (arith, sum_buckets-zeros now n)

-- The window is exact: after events with times that do not fall, added one at a time to an empty
-- window, the sum read at `now` is the total of the events of the last 60 seconds, the current one
-- included. No event is lost when a bucket is taken over, and no old one is counted.
pub sum-add_all :
    (now : ℕ) (es : List (ℕ × ℕ))
    → Timely 0 now es
    → sum (add_all empty_ring es) now ≡ recent now es
sum-add_all now es timely =
    sum-add_all_from empty_ring 0 now es empty_ring-Inv timely
    ∙ (unfold empty_ring sum in rw (sum_buckets-zeros now 60) (omega arith))
