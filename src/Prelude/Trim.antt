-- ===== src/Prelude/Trim.antt =====
-- Laws of strings.TrimSpace on ASCII.
use mathlib.Core.Path.{◌≡◌, refl, sym, ap, ◌∙◌, subst}
use mathlib.Core.Logic.{◌≢◌, inl, inr}
use mathlib.Core.Bool.{Bool, true, not}
use mathlib.Core.List.{[], ◌∷◌, ◌++◌, reverse, reverse-append, reverse-reverse}
use native.Mathlib.Omega.{arith}
use unirate.Prelude.Tests.{Bool-cases}
use unirate.Prelude.Text.{Bytes, trim_space, trim_left, is_space}

-- The text does not begin with white space.
unfoldable pub bare : Bytes → Bool
bare [] = true
bare (b ∷ s) = not (is_space b)

unfoldable trim_right : Bytes → Bytes
trim_right s = reverse (trim_left (reverse s))

trim_left-bare : (s : Bytes) → bare s ≡ true → trim_left s ≡ s
unfolding trim_left bare
trim_left-bare [] h = refl
trim_left-bare (b ∷ s) h = ground (arith, h)

bare-trim_left : (s : Bytes) → bare (trim_left s) ≡ true
unfolding trim_left bare
bare-trim_left [] = refl
bare-trim_left (b ∷ s) = elim (Bool-cases (is_space b)) [
  | inl space ↦ rw space (bare-trim_left s)
  | inr other ↦ rw (other, other) refl
]

trim_left-suffix : (s : Bytes) → (front : Bytes) × (s ≡ front ++ trim_left s)
unfolding trim_left
trim_left-suffix [] = ([], refl)
trim_left-suffix (b ∷ s) = elim (Bool-cases (is_space b)) [
  | inl space ↦
      let (front, e) = trim_left-suffix s in (b ∷ front, rw space (ap (λ (l : Bytes). b ∷ l) e))
  | inr other ↦ ([], rw other refl)
]

trim_right-prefix : (s : Bytes) → (back : Bytes) × (s ≡ trim_right s ++ back)
unfolding trim_right
trim_right-prefix s =
    let (front, e) = trim_left-suffix (reverse s) in
    (
      reverse front,
      sym (reverse-reverse s)
          ∙ (ap (λ (l : Bytes). reverse l) e ∙ reverse-append front (trim_left (reverse s))),
    )

bare-append : (s t : Bytes) → bare (s ++ t) ≡ true → bare s ≡ true
unfolding bare
bare-append [] t h = refl
bare-append (b ∷ s) t h = h

bare-trim_right : (s : Bytes) → bare s ≡ true → bare (trim_right s) ≡ true
bare-trim_right s h =
    let (back, e) = trim_right-prefix s in bare-append (trim_right s) back (rw (← e) h)

trim_right-trim_right : (s : Bytes) → trim_right (trim_right s) ≡ trim_right s
unfolding trim_right
trim_right-trim_right s =
    rw
      (
        reverse-reverse (trim_left (reverse s)),
        trim_left-bare (trim_left (reverse s)) (bare-trim_left (reverse s)),
      )
      refl

trim_space-bare : (s : Bytes) → bare (trim_space s) ≡ true
unfolding trim_space
trim_space-bare s = unfold trim_right in bare-trim_right (trim_left s) (bare-trim_left s)

-- Text without white space at its ends stays as it is.
pub trim_space-trim_space : (s : Bytes) → trim_space (trim_space s) ≡ trim_space s
unfolding trim_space trim_right
trim_space-trim_space s =
    rw (trim_left-bare (trim_space s) (trim_space-bare s)) (trim_right-trim_right (trim_left s))

bare-append_text : (s t : Bytes) → s ≢ [] → bare s ≡ true → bare (s ++ t) ≡ true
unfolding bare
bare-append_text [] t some_text h = absurd (some_text refl)
bare-append_text (b ∷ s) t some_text h = h

bare-reverse : (s : Bytes) → trim_space s ≡ s → bare (reverse s) ≡ true
unfolding trim_space
bare-reverse s e =
    let start : bare s ≡ true = subst (λ (l : Bytes). bare l ≡ true) e (trim_space-bare s) in
    let kept : reverse (trim_left (reverse s)) ≡ s =
      subst (λ (l : Bytes). reverse (trim_left (reverse l)) ≡ s) (trim_left-bare s start) e in
    let end : trim_left (reverse s) ≡ reverse s =
      sym (reverse-reverse (trim_left (reverse s))) ∙ ap (λ (l : Bytes). reverse l) kept in
    subst (λ (l : Bytes). bare l ≡ true) end (bare-trim_left (reverse s))

reverse-ne_nil : (s : Bytes) → s ≢ [] → reverse s ≢ []
reverse-ne_nil s some_text e = some_text (sym (reverse-reverse s) ∙ ap (λ (l : Bytes). reverse l) e)

-- Nor is text trimmed that begins with a letter and goes on with trimmed text.
pub trim_space-append :
    (front s : Bytes)
    → front ≢ []
    → bare front ≡ true
    → s ≢ []
    → trim_space s ≡ s
    → trim_space (front ++ s) ≡ front ++ s
unfolding trim_space
trim_space-append front s some_front start some_text e =
    rw
      (
        trim_left-bare (front ++ s) (bare-append_text front s some_front start),
        reverse-append front s,
        trim_left-bare (reverse s ++ reverse front) (
            bare-append_text (reverse s) (reverse front) (reverse-ne_nil s some_text)
              (bare-reverse s e)),
        ← reverse-append front s,
      )
      (reverse-reverse (front ++ s))
