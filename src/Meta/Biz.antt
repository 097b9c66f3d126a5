-- ===== src/Meta/Biz.antt =====
-- The business in a path: ExtractBiz of internal/meta/extract.go.
use unirate.Prelude.{
  ℕ, ◌+◌, ap₂, ◌≤◌, ◌≡◌, ◌≢◌, Bool, true, false, not, ◌&&◌, ◌==◌ as nat_eq, if◌then◌else◌, Option,
  none, some, [], ◌∷◌, ◌++◌, leb, ltb, length, refl, arith, Bool-cases, inl, inr, ◌∙◌, sym, subst,
}
use unirate.Prelude.Text.{Bytes, to_lower, has_byte}
use unirate.Meta.{
  is_empty, trim_prefix_slash, split_slash, biz_byte, biz_bytes, checked, extract_biz,
}

-- A business in its normal form.
pub record IsBiz (biz : Bytes) : Type 0 where
  pub some_byte : biz ≢ []
  pub plain : biz_bytes biz ≡ true
  pub short : length biz ≤ 64

lower : ℕ → ℕ
lower c = if leb b'A' c && leb c b'Z' then c + 32 else c

-- No byte that is part of a business is a slash, a bar or a capital.
split-biz_bytes :
    (s rest : Bytes)
    → biz_bytes (to_lower s) ≡ true
    → split_slash (s ++ (b'/' ∷ rest)) ≡ (s, b'/' ∷ rest)
unfolding split_slash biz_bytes biz_byte to_lower
split-biz_bytes [] rest e = refl
split-biz_bytes (c ∷ s) rest e = rw (split-biz_bytes s rest (ground (arith, e))) (ground (arith, e))

to_lower-biz_bytes : (s : Bytes) → biz_bytes s ≡ true → to_lower s ≡ s
unfolding to_lower biz_bytes biz_byte
to_lower-biz_bytes [] e = refl
to_lower-biz_bytes (c ∷ s) e =
    ap₂ ◌∷◌ (ground (arith, e)) (to_lower-biz_bytes s (ground (arith, e)))

biz_bytes-bar : (s : Bytes) → biz_bytes s ≡ true → has_byte b'|' s ≡ false
unfolding has_byte biz_bytes biz_byte
biz_bytes-bar [] e = refl
biz_bytes-bar (c ∷ s) e = ground (arith, e, biz_bytes-bar s)

is_empty-to_lower : (s : Bytes) → is_empty (to_lower s) ≡ is_empty s
unfolding is_empty to_lower
is_empty-to_lower [] = refl
is_empty-to_lower (c ∷ s) = refl

pair-eq :
    (a b c d : Bytes)
    → ◌≡◌ {A = Option (Bytes × Bytes)} (some (a, b)) (some (c, d))
    → (a ≡ c) × (b ≡ d)
pair-eq a b c d e = (cc, cc)

not_empty : (s : Bytes) → is_empty s ≡ false → s ≢ []
unfolding is_empty
not_empty [] e = cc
not_empty (c ∷ s) e = λ h. cc

-- What the tests let through.
checked_tests :
    (empty plain long : Bool) (lowered tail biz rest : Bytes)
    → ◌≡◌ {A = Option (Bytes × Bytes)}
        (if empty
          then none
          else if not plain
          then none
          else if long
          then none
          else some (lowered, tail))
        (some (biz, rest))
    → (empty ≡ false) × (plain ≡ true) × (long ≡ false) × (lowered ≡ biz) × (tail ≡ rest)
checked_tests false true false lowered tail biz rest e =
    let (first, second) = pair-eq lowered tail biz rest e in (refl, refl, refl, first, second)
checked_tests true plain long lowered tail biz rest e = cc
checked_tests false false long lowered tail biz rest e = cc
checked_tests false true true lowered tail biz rest e = cc

checked-some :
    (w tail biz rest : Bytes) → checked w tail ≡ some (biz, rest) → IsBiz biz × (tail ≡ rest)
unfolding checked
checked-some w tail biz rest e =
    let (some_byte, plain, short, lowered, same) =
      checked_tests (is_empty w) (biz_bytes (to_lower w)) (ltb 64 (length (to_lower w)))
        (to_lower w) tail biz rest e in
    (
      subst IsBiz lowered (record {
        some_byte = not_empty (to_lower w) (is_empty-to_lower w ∙ some_byte);
        plain = plain;
        short = ground (arith, short);
      }),
      same,
    )

split-rest : (p : Bytes) → (tail : Bytes) × ((split_slash p).1 ≡ b'/' ∷ tail)
unfolding split_slash
split-rest [] = ([], refl)
split-rest (c ∷ s) = elim (Bool-cases (nat_eq c b'/')) [
  | inl e ↦ (s, ground (arith, e))
  | inr e ↦ rw e (split-rest s)
]

checked-IsBiz : (biz tail : Bytes) → IsBiz biz → checked biz tail ≡ some (biz, tail)
unfolding checked is_empty
checked-IsBiz [] tail w = absurd (w.some_byte refl)
checked-IsBiz (c ∷ s) tail w =
    rw (to_lower-biz_bytes (c ∷ s) w.plain, w.plain) (ground (arith, w.short))

is_empty-slash : (s tail : Bytes) → is_empty (s ++ (b'/' ∷ tail)) ≡ false
unfolding is_empty
is_empty-slash [] tail = refl
is_empty-slash (c ∷ s) tail = refl

extract_biz-join :
    (biz tail : Bytes)
    → IsBiz biz
    → extract_biz (b'/' ∷ (biz ++ (b'/' ∷ tail))) ≡ some (biz, b'/' ∷ tail)
unfolding extract_biz trim_prefix_slash
extract_biz-join biz tail w =
    rw
      (
        split-biz_bytes biz tail (rw (to_lower-biz_bytes biz w.plain) w.plain),
        checked-IsBiz biz (b'/' ∷ tail) w,
      )
      (rw (is_empty-slash biz tail) refl)

-- Reading a business out of a path and writing it back: whatever ExtractBiz accepts is a business in its
-- normal form, of 1 to 64 small letters, digits and hyphens, without the bar that separates the parts of
-- a key; the rest of the path begins with a slash; and the path written with the two is read as the same
-- two again.
pub extract_biz-extract_biz :
    (path biz rest : Bytes)
    → extract_biz path ≡ some (biz, rest)
    → IsBiz biz
      × (has_byte b'|' biz ≡ false)
      × ((tail : Bytes) × (rest ≡ b'/' ∷ tail))
      × (extract_biz (b'/' ∷ (biz ++ rest)) ≡ some (biz, rest))
unfolding extract_biz
extract_biz-extract_biz path biz rest e =
    let p = trim_prefix_slash path in
    let (is_biz, same) =
      checked-some (split_slash p).0 (split_slash p).1 biz rest (ground (arith, e)) in
    let (tail, from_slash) = split-rest p in
    (
      is_biz,
      biz_bytes-bar biz is_biz.plain,
      (tail, sym same ∙ from_slash),
      rw (sym same, from_slash) (extract_biz-join biz tail is_biz),
    )
