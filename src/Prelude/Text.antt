-- ===== src/Prelude/Text.antt =====
-- Go strings and byte slices as lists of bytes, and maps keyed by them.
use Prim.Native.Char.{code}
use Prim.Native.String.{String}
use mathlib.Core.Path.{◌≡◌, refl, ap}
use mathlib.Core.Logic.{◌↔◌, inl, inr}
use mathlib.Core.Bool.{Bool, true, false, ◌&&◌, ◌||◌}
use mathlib.Core.Option.{Option, none, some}
use mathlib.Core.List.{List, [], ◌∷◌, ◌++◌, map, reverse}
use Prim.Native.Nat.{ℕ, zero, suc, ◌+◌, ◌-◌, ◌*◌, ◌/◌, ◌%◌}
use native.Mathlib.Omega.{arith}
use unirate.Prelude.Tests.{◌==◌ as nat_eq, ==_iff, Bool-cases, leb, if◌then◌else◌}

-- A Go string.
abbrev pub Bytes : Type 0
Bytes = List ℕ

-- The bytes of an ASCII literal.
abbrev pub codes : String → Bytes
codes String.[] = []
codes (String.◌∷◌ c s) = code c ∷ codes s

infix 50 ◌==◌
unfoldable pub ◌==◌ : Bytes → Bytes → Bool
[] == [] = true
[] == (b ∷ t) = false
(a ∷ s) == [] = false
(a ∷ s) == (b ∷ t) = nat_eq a b && s == t

pub ==-eq : (s t : Bytes) → (s == t) ≡ true → s ≡ t
unfolding ◌==◌
==-eq [] [] h = refl
==-eq [] (b ∷ t) h = cc
==-eq (a ∷ s) [] h = cc
==-eq (a ∷ s) (b ∷ t) h = ground (arith, ==-eq s t)

pub ==_refl : (s : Bytes) → (s == s) ≡ true
unfolding ◌==◌
==_refl [] = refl
==_refl (a ∷ s) = ground (arith, ==_refl s)

pub eq_iff : (s t : Bytes) → ((s == t) ≡ true) ↔ (s ≡ t)
eq_iff s t = (==-eq s t, λ e. rw e (==_refl t))

-- strings.HasPrefix
unfoldable pub starts_with : Bytes → Bytes → Bool
starts_with s [] = true
starts_with [] (p ∷ ps) = false
starts_with (c ∷ s) (p ∷ ps) = nat_eq c p && starts_with s ps

-- strings.Contains
unfoldable pub contains : Bytes → Bytes → Bool
unfolding starts_with
contains [] p = starts_with [] p
contains (b ∷ s) p = starts_with (b ∷ s) p || contains s p

pub starts_with_iff : (s p : Bytes) → (starts_with s p ≡ true) ↔ ((rest : Bytes) × (s ≡ p ++ rest))
unfolding starts_with
starts_with_iff s [] = (λ h. (s, refl), λ h. refl)
starts_with_iff [] (c ∷ p) = (λ h. cc, λ (rest, e). cc)
starts_with_iff (b ∷ s) (c ∷ p) = (
  λ h.
      let (rest, e) = (starts_with_iff s p).0 (ground (arith, h)) in
      let same : b ≡ c = (==_iff b c).0 (ground (arith, h)) in (rest, cc),
  λ (rest, e).
      let head : nat_eq b c ≡ true = (==_iff b c).1 cc in
      let tail : starts_with s p ≡ true = (starts_with_iff s p).1 (rest, cc) in
      rw (head, tail) refl,
)

contains-append : (s p before rest : Bytes) → s ≡ before ++ (p ++ rest) → contains s p ≡ true
unfolding contains
contains-append [] p [] rest e = (starts_with_iff [] p).1 (rest, e)
contains-append [] p (c ∷ before) rest e = cc
contains-append (b ∷ s) p [] rest e = rw ((starts_with_iff (b ∷ s) p).1 (rest, e)) refl
contains-append (b ∷ s) p (c ∷ before) rest e =
    let there : contains s p ≡ true = contains-append s p before rest cc in
    elim (Bool-cases (starts_with (b ∷ s) p)) [
      | inl here ↦ rw here refl
      | inr later ↦ rw (later, there) refl
    ]

contains-split :
    (s p : Bytes)
    → contains s p ≡ true
    → (before : Bytes) × (rest : Bytes) × (s ≡ before ++ (p ++ rest))
unfolding contains
contains-split [] p h = let (rest, e) = (starts_with_iff [] p).0 h in ([], rest, e)
contains-split (b ∷ s) p h = elim (Bool-cases (starts_with (b ∷ s) p)) [
  | inl here ↦ let (rest, e) = (starts_with_iff (b ∷ s) p).0 here in ([], rest, e)
  | inr later ↦
      let (before, rest, e) = contains-split s p (ground (arith, h, later)) in
      (b ∷ before, rest, ap (λ (l : Bytes). b ∷ l) e)
]

-- A part that is contained stands between two others.
pub contains_iff :
    (s p : Bytes)
    → (contains s p ≡ true) ↔ ((before : Bytes) × (rest : Bytes) × (s ≡ before ++ (p ++ rest)))
contains_iff s p =
    (λ h. contains-split s p h, λ (before, rest, e). contains-append s p before rest e)

-- Membership of a byte.
unfoldable pub has_byte : ℕ → Bytes → Bool
has_byte c [] = false
has_byte c (b ∷ s) = nat_eq b c || has_byte c s

pub has_byte-append : (c : ℕ) (s t : Bytes) → has_byte c (s ++ t) ≡ (has_byte c s || has_byte c t)
unfolding has_byte
has_byte-append c [] t = refl
has_byte-append c (b ∷ s) t = ground (arith, has_byte-append c s t)

-- unicode.IsSpace on ASCII.
abbrev pub is_space : ℕ → Bool
is_space c = (leb 9 c && leb c 13) || nat_eq c 32

unfoldable pub trim_left : Bytes → Bytes
trim_left [] = []
trim_left (b ∷ s) = let rest = trim_left s in if is_space b then rest else b ∷ s

-- strings.TrimSpace, on ASCII.
unfoldable pub trim_space : Bytes → Bytes
unfolding trim_left
trim_space s = reverse (trim_left (reverse (trim_left s)))

-- strings.ToLower, on ASCII.
unfoldable pub to_lower : Bytes → Bytes
to_lower = map λ c. if leb b'A' c && leb c b'Z' then c + 32 else c

-- The last byte of a string and what stands before it.
unfoldable pub split_last : Bytes → Option (Bytes × ℕ)
split_last [] = none
split_last (b ∷ s) = elim (split_last s) [
  | none ↦ some ([], b)
  | some (front, c) ↦ some (b ∷ front, c)
]

unfoldable pub digits_value : ℕ → Bytes → Option ℕ
digits_value acc [] = some acc
digits_value acc (b ∷ s) =
    let rest = digits_value (acc * 10 + (b - b'0')) s in
    if leb b'0' b && leb b b'9' then rest else none

unfoldable pub unsigned_value : Bytes → Option ℕ
unfolding digits_value
unsigned_value [] = none
unsigned_value (b ∷ s) = digits_value 0 (b ∷ s)

-- strconv.FormatInt of a number that is not negative; 20 digits hold an int64.
format_digits : ℕ → ℕ → Bytes → Bytes
format_digits zero n acc = acc
format_digits (suc fuel) n acc =
    let acc' = (b'0' + n % 10) ∷ acc in
    let rest = format_digits fuel (n / 10) acc' in if nat_eq (n / 10) 0 then acc' else rest

unfoldable pub format_nat : ℕ → Bytes
unfolding format_digits
format_nat n = format_digits 20 n []

format_digits-bar :
    (fuel n : ℕ) (acc : Bytes)
    → has_byte b'|' acc ≡ false
    → has_byte b'|' (format_digits fuel n acc) ≡ false
unfolding format_digits has_byte
format_digits-bar zero n acc h = h
format_digits-bar (suc fuel) n acc h =
    ground (arith, format_digits-bar fuel (n / 10) ((b'0' + n % 10) ∷ acc))

-- A formatted number has no bar in it.
pub format_nat-bar : (n : ℕ) → has_byte b'|' (format_nat n) ≡ false
unfolding format_nat
format_nat-bar n = format_digits-bar 20 n [] (unfold has_byte in refl)
