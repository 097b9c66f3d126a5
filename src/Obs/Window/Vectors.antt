-- ===== src/Obs/Window/Vectors.antt =====
-- rateVec of internal/obs/window.go: one window for each combination of labels, made on first use,
-- under the labels joined by the byte 0x1f.
use unirate.Prelude.{
  ℕ, ◌≡◌, refl, ◌==◌ as nat_eq, if◌then◌else◌, Option, none, some, List, [], ◌∷◌, ◌++◌, map, arith,
  Bool-cases, inl, inr,
}
use unirate.Prelude.Text.{Bytes, ◌==◌, eq_iff}
use unirate.Prelude.Maps.{Map, lookup, insert, lookup-insert}
use unirate.Obs.Window.{RingWindow, empty_ring, add, sum}

-- strings.Join
unfoldable pub join : Bytes → List Bytes → Bytes
join sep [] = []
join sep (s ∷ []) = s
join sep (s ∷ t ∷ ss) = s ++ (sep ++ join sep (t ∷ ss))

pub record RateVec : Type 0 where
  pub vals : Map RingWindow

abbrev pub label_key : List Bytes → Bytes
label_key labels = join (0x1f ∷ []) labels

win_or_new : Option RingWindow → RingWindow
win_or_new none = empty_ring
win_or_new (some w) = w

-- The window of the labels, and the vector that now holds it.
pub win : RateVec → List Bytes → RingWindow × RateVec
unfolding win_or_new
win v labels =
    let k = label_key labels in
    let w = win_or_new (lookup k v.vals) in (w, record v { vals = insert k w v.vals })

pub inc : RateVec → List Bytes → ℕ → RateVec
unfolding win
inc v labels now =
    let (w, v') = win v labels in
    record v' { vals = insert (label_key labels) (add w now 1) v'.vals }

pub add_labels : RateVec → ℕ → List Bytes → ℕ → RateVec
unfolding win
add_labels v n labels now =
    if nat_eq n 0
    then v
    else (let (w, v') = win v labels in
        record v' { vals = insert (label_key labels) (add w now n) v'.vals })

pub value : RateVec → List Bytes → ℕ → ℕ × RateVec
unfolding win
value v labels now = let (w, v') = win v labels in (sum w now, v')

-- Snapshot: the sum of every window that exists.
pub snapshot : RateVec → ℕ → Map ℕ
snapshot v now = map (λ (k, w). (k, sum w now)) v.vals

win_lem :
    (w : RingWindow) (m : Map RingWindow) (k j : Bytes)
    → win_or_new (lookup j (insert k w m)) ≡ (if k == j then w else win_or_new (lookup j m))
unfolding win_or_new
win_lem w m k j = ground (arith, lookup-insert k j w m)

-- Adding to the window of some labels is seen by a later reader of those labels as `add` on their
-- window, new or old, and changes nothing for labels with another key; an amount of 0 changes
-- nothing at all.
value-add_labels :
    (v : RateVec) (n : ℕ) (labels others : List Bytes) (now later : ℕ)
    → (value (add_labels v n labels now) others later).0 ≡ (
        if nat_eq n 0
        then (value v others later).0
        else if label_key labels == label_key others
        then sum (add (win v others).0 now n) later
        else (value v others later).0)
unfolding value add_labels win
value-add_labels v n labels others now later = elim (Bool-cases (nat_eq n 0)) [
  | inl z ↦ rw z refl
  | inr nz ↦ rw nz (
      rw (win_lem, win_lem)
        (elim (Bool-cases (label_key labels == label_key others)) [
          | inl same ↦ rw (same, (eq_iff _ _).0 same) refl
          | inr other ↦ rw other refl
        ]))
]
