-- ===== src/Limiter/Key/Separation.antt =====
-- How far the keys of internal/limiter/key.go tell their parts apart.
use unirate.Prelude.{
  ℕ, suc, ◌≡◌, true, false, leb, List, [], ◌∷◌, ◌++◌, length, arith, refl, ap, sym,
}
use mathlib.Core.List.{append_assoc}
use unirate.Prelude.Text.{Bytes, codes, ◌==◌, has_byte, has_byte-append, format_nat-bar}
use unirate.Prelude.Int.{ℤ, pos, negsuc}
use unirate.Limiter.Key.{
  bar, has_special, safe_val, safe_vals, dotted, format_int, rate_key, windowed_key,
}

abbrev pub NoBar : Bytes → Type 0
NoBar s = has_byte bar s ≡ false

module _ (digest : Bytes → Bytes) (digest_hex : (v : Bytes) → NoBar (digest v)) where
  -- An encoded value holds no separator, whatever the client sent.
  safe_val-NoBar : (v : Bytes) → NoBar (safe_val digest v)
  unfolding safe_val has_byte
  safe_val-NoBar v = ground (arith, digest_hex v)

  dotted-NoBar : (vs : List Bytes) → NoBar (dotted (safe_vals digest vs))
  unfolding dotted safe_vals has_byte
  dotted-NoBar [] = refl
  dotted-NoBar (v ∷ []) = safe_val-NoBar v
  dotted-NoBar (v ∷ w ∷ vs) =
      rw (has_byte-append bar (safe_val digest v), safe_val-NoBar v) (dotted-NoBar (w ∷ vs))

cons_eq : (a b : ℕ) (s t : Bytes) → a ∷ s ≡ b ∷ t → (a ≡ b) × (s ≡ t)
cons_eq a b s t e = (cc, cc)

-- The first separator splits a text in one way.
split_bar :
    (a b s t : Bytes) → NoBar a → NoBar b → a ++ (bar ∷ s) ≡ b ++ (bar ∷ t) → (a ≡ b) × (s ≡ t)
unfolding has_byte
split_bar [] [] s t ha hb e = (refl, (cons_eq _ _ _ _ e).1)
split_bar [] (y ∷ b) s t ha hb e = absurd (ground (arith, cons_eq _ _ _ _ e))
split_bar (x ∷ a) [] s t ha hb e = absurd (ground (arith, cons_eq _ _ _ _ e))
split_bar (x ∷ a) (y ∷ b) s t ha hb e =
    let (heads, tails) = cons_eq _ _ _ _ e in
    let ih = split_bar a b s t (ground arith) (ground arith) tails in (cc (heads, ih.0), ih.1)

format_int-NoBar : (z : ℤ) → NoBar (format_int z)
unfolding format_int has_byte
format_int-NoBar (pos n) = format_nat-bar n
format_int-NoBar (negsuc n) = format_nat-bar (suc n)

-- Equal rate keys agree in each part as it is written in the key: with a digest that has no bar in it, and
-- dimension names that have none, the keys of two rules are equal only if the dimensions joined by dots
-- are, the encoded values joined by dots, and the texts of the window and of the boundary. The values
-- themselves may differ where they are joined to the same text.
pub rate_key-parts :
    (digest : Bytes → Bytes)
    → ((v : Bytes) → NoBar (digest v))
    → (dims dims' vals vals' : List Bytes) (win win' at at' : ℤ) → NoBar (dotted dims)
    → NoBar (dotted dims')
    → rate_key digest dims vals win at ≡ rate_key digest dims' vals' win' at'
    → (dotted dims ≡ dotted dims')
      × (dotted (safe_vals digest vals) ≡ dotted (safe_vals digest vals'))
      × (format_int win ≡ format_int win')
      × (format_int at ≡ format_int at')
unfolding rate_key windowed_key
rate_key-parts digest hex dims dims' vals vals' win win' at at' nd nd' e =
    let (d, rest) = split_bar _ _ _ _ nd nd' (split_bar _ _ _ _ no_rl no_rl e).1 in
    let (v, rest') =
      split_bar _ _ _ _ (dotted-NoBar digest hex vals) (dotted-NoBar digest hex vals') rest in
    let (w, b) = split_bar _ _ _ _ (format_int-NoBar win) (format_int-NoBar win') rest' in
    (d, v, w, b)
  where
    no_rl : NoBar (codes "rl")
    no_rl = unfold has_byte in refl

-- A value that the key shows as it is.
abbrev pub IsPlain : Bytes → Type 0
IsPlain v = ((v == []) ≡ false) × (leb (length v) 48 ≡ true) × (has_special v ≡ false)

safe_val-IsPlain : (digest : Bytes → Bytes) (v : Bytes) → IsPlain v → safe_val digest v ≡ v
unfolding safe_val
safe_val-IsPlain digest v (nonempty, short, plain) = rw (nonempty, short, plain) refl

-- The values themselves are joined by dots, which no encoding removes: whenever two values and the
-- regrouping of them at another dot are plain, two different requests share one counter.
pub rate_key-collides :
    (digest : Bytes → Bytes) (dims : List Bytes) (x y z : Bytes) (win at : ℤ)
    → IsPlain x
    → IsPlain (y ++ (b'.' ∷ z))
    → IsPlain (x ++ (b'.' ∷ y))
    → IsPlain z
    → rate_key digest dims (x ∷ (y ++ (b'.' ∷ z)) ∷ []) win at
      ≡ rate_key digest dims ((x ++ (b'.' ∷ y)) ∷ z ∷ []) win at
unfolding rate_key windowed_key
rate_key-collides digest dims x y z win at px pyz pxy pz =
    ap
      (λ (v : Bytes).
        codes "rl"
        ++ (bar
            ∷ (dotted dims ++ (bar ∷ (v ++ (bar ∷ (format_int win ++ (bar ∷ format_int at))))))))
      same
  where
    same :
        dotted (safe_vals digest (x ∷ (y ++ (b'.' ∷ z)) ∷ []))
        ≡ dotted (safe_vals digest ((x ++ (b'.' ∷ y)) ∷ z ∷ []))
    same =
        unfold dotted safe_vals in
        rw
          (
            safe_val-IsPlain digest x px,
            safe_val-IsPlain digest _ pyz,
            safe_val-IsPlain digest _ pxy,
            safe_val-IsPlain digest z pz,
          )
          (sym (append_assoc x (b'.' ∷ y) (b'.' ∷ z)))
