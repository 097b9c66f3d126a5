-- ===== src/Limiter/Key/Boundary.antt =====
-- WindowBoundary of internal/limiter/key.go.
use unirate.Prelude.{
  ℕ, suc, ◌+◌, ◌*◌, ◌/◌, ◌≤◌, ◌<◌, ◌≡◌, Bool, true, false, ◌&&◌, not, arith, Bool-cases, inl, inr,
  sym, if◌then◌else◌, ◌∙◌,
}
use unirate.Prelude.Int.{
  ℤ, pos, pos_part, ◌+ℤ◌, ◌-ℤ◌, ◌*ℤ◌, ◌/ℤ◌, ◌≤ℤ◌, ◌<ℤ◌, int64, int64_id, InInt64,
}
use unirate.Limiter.Key.{window_boundary, is_zero}

-- The start of the window of local second `m`, as a local second.
abbrev start : ℕ → ℕ → ℕ
start m w = m / suc w * suc w

pos-*ℤ : (a b : ℕ) → pos a *ℤ pos b ≡ pos (a * b)
unfolding ◌*ℤ◌
pos-*ℤ a b = ground arith

aligned :
    (m w : ℕ)
    → m < 9223372036854775808
    → int64 (pos m /ℤ pos (suc w) *ℤ pos (suc w)) ≡ pos (start m w)
unfolding ◌/ℤ◌
aligned m w h = rw (pos-*ℤ (m / suc w) (suc w)) (int64_id (pos (start m w)) (omega arith))

-- The offset that applies: the zone's for natural windows, none for the others.
abbrev pub offset_for : Bool → ℤ → ℤ
offset_for natural tz = if natural then tz else pos 0

absolute :
    (n w : ℕ) (tz : ℤ) (natural : Bool)
    → n < 9223372036854775808
    → (natural && not (is_zero tz)) ≡ false
    → window_boundary (pos n) (pos (suc w)) tz natural ≡ pos (start n w)
unfolding window_boundary
absolute n w tz natural h e = rw e (ground (arith, aligned n w h))

shifted_fits :
    (n s m : ℕ) (tz : ℤ)
    → n < 9223372036854775808
    → pos_part tz < 9223372036854775808
    → s ≤ m
    → pos n +ℤ tz ≡ pos m
    → InInt64 (pos s -ℤ tz)
unfolding ◌+ℤ◌ ◌-ℤ◌
shifted_fits n s m tz h t le e = ground arith

shifted :
    (n w m : ℕ) (tz : ℤ)
    → n < 9223372036854775808
    → m < 9223372036854775808
    → pos_part tz < 9223372036854775808
    → pos n +ℤ tz ≡ pos m
    → int64 (int64 (int64 (pos n +ℤ tz) /ℤ pos (suc w) *ℤ pos (suc w)) -ℤ tz)
      ≡ pos (start m w) -ℤ tz
shifted n w m tz h k t e =
    rw (e, int64_id (pos m) (omega arith), aligned m w k)
      (int64_id (pos (start m w) -ℤ tz) (shifted_fits n (start m w) m tz h t (omega arith) e))

moved_value :
    (n w m : ℕ) (tz : ℤ) (natural : Bool)
    → n < 9223372036854775808
    → m < 9223372036854775808
    → pos_part tz < 9223372036854775808
    → pos n +ℤ offset_for natural tz ≡ pos m
    → (natural && not (is_zero tz)) ≡ true
    → window_boundary (pos n) (pos (suc w)) tz natural ≡ pos (start m w) -ℤ offset_for natural tz
unfolding window_boundary
moved_value n w m tz false h k t e moved = cc
moved_value n w m tz true h k t e moved = rw moved (ground (arith, shifted n w m tz h k t e))

around :
    (n s m w : ℕ) (off : ℤ)
    → pos n +ℤ off ≡ pos m
    → s ≤ m
    → m < s + suc w
    → (pos s -ℤ off +ℤ off ≡ pos s)
      × (pos s -ℤ off ≤ℤ pos n)
      × (pos n <ℤ pos s -ℤ off +ℤ pos (suc w))
unfolding ◌+ℤ◌ ◌-ℤ◌
around n s m w off e le lt = (ground arith, ground arith, ground arith)

-- Nothing is added: the local second is the instant.
unshifted :
    (n s m : ℕ) (tz : ℤ) (natural : Bool)
    → (natural && not (is_zero tz)) ≡ false
    → pos n +ℤ offset_for natural tz ≡ pos m
    → (n ≡ m) × (pos s -ℤ offset_for natural tz ≡ pos s)
unfolding is_zero ◌+ℤ◌ ◌-ℤ◌
unshifted n s m tz natural z e = ground arith

boundary_value :
    (n w m : ℕ) (tz : ℤ) (natural : Bool)
    → n < 9223372036854775808
    → m < 9223372036854775808
    → pos_part tz < 9223372036854775808
    → pos n +ℤ offset_for natural tz ≡ pos m
    → window_boundary (pos n) (pos (suc w)) tz natural ≡ pos (start m w) -ℤ offset_for natural tz
boundary_value n w m tz natural h k t e = elim (Bool-cases (natural && not (is_zero tz))) [
  | inl moved ↦ moved_value n w m tz natural h k t e moved
  | inr still ↦
      let (same, none_off) = unshifted n (start m w) m tz natural still e in
      absolute n w tz natural h still ∙ (rw same (sym none_off))
]

-- The window of an instant. For seconds `n` since 1970, and a positive window of `w + 1` seconds,
-- whose local second is `m` (the zone's offset counts for natural windows only), the boundary plus
-- the offset is the multiple of the window at or below `m`: so the boundary is at most the instant,
-- the instant is less than a window later, and instants of one window share it.
pub window_boundary_lem :
    (n w m : ℕ) (tz : ℤ) (natural : Bool)
    → n < 9223372036854775808
    → m < 9223372036854775808
    → pos_part tz < 9223372036854775808
    → pos n +ℤ offset_for natural tz ≡ pos m
    → let b = window_boundary (pos n) (pos (suc w)) tz natural in
      (b +ℤ offset_for natural tz ≡ pos (m / suc w * suc w))
      × (b ≤ℤ pos n)
      × (pos n <ℤ b +ℤ pos (suc w))
window_boundary_lem n w m tz natural h k t e =
    rw (boundary_value n w m tz natural h k t e)
      (around n (start m w) m w (offset_for natural tz) e (omega arith) (omega arith))

-- A window that is not positive, as that of a concurrency rule, has the boundary 0 at every instant.
window_boundary-nonpos :
    (ts win tz : ℤ) (natural : Bool) → win ≤ℤ pos 0 → window_boundary ts win tz natural ≡ pos 0
unfolding window_boundary
window_boundary-nonpos ts win tz natural h = ground arith
