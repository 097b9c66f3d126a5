-- ===== src/Admin/Token.antt =====
-- internal/admin/token.go: which tokens the admin API starts with. Texts are ASCII, so that a rune is a
-- byte. An error is the case it stands for, with the values that its text has.
pub mod Examples
use unirate.Prelude.{
  ℕ, suc, ◌≤◌, ◌≡◌, ◌≢◌, ◌↔◌, refl, sym, Bool, true, false, not, ◌&&◌, ◌||◌, if◌then◌else◌,
  ◌==◌ as nat_eq, ==_iff, ltb, Option, none, some, List, [], ◌∷◌, ◌++◌, length, All, arith,
  Bool-cases, Option-cases, inl, inr,
}
use unirate.Prelude.Text.{
  Bytes, codes, ◌==◌, eq_iff, to_lower, trim_space, starts_with, contains, starts_with_iff,
  contains_iff,
}

pub data TokenError : Type 0 where
  no_token single_character : TokenError
  too_short : ℕ → TokenError
  well_known weak_start weak_marker : Bytes → TokenError

abbrev pub min_token_len : ℕ
min_token_len = 32

abbrev weak_exact : List Bytes
weak_exact =
    codes "change-me-admin-token-32chars-min"
    ∷ codes "unirate_redis_pass"
    ∷ codes "unirate_pass"
    ∷ codes "unirate_root_pass"
    ∷ codes "<run make init to generate>"
    ∷ codes "admin"
    ∷ codes "password"
    ∷ codes "test"
    ∷ codes "123456"
    ∷ codes "changeme"
    ∷ codes "secret"
    ∷ codes "token"
    ∷ codes "default"
    ∷ []

abbrev weak_contains : List Bytes
weak_contains =
    codes "run make init"
    ∷ codes "to generate"
    ∷ codes "change-me"
    ∷ codes "changeme"
    ∷ codes "change_me"
    ∷ codes "replace-me"
    ∷ codes "replaceme"
    ∷ codes "placeholder"
    ∷ codes "your-token"
    ∷ codes "your_token"
    ∷ codes "admin-token"
    ∷ codes "admin_token"
    ∷ codes "unirate_pass"
    ∷ codes "unirate_redis_pass"
    ∷ codes "unirate_root_pass"
    ∷ []

abbrev weak_prefix : List Bytes
weak_prefix =
    codes "change-me"
    ∷ codes "changeme"
    ∷ codes "change_me"
    ∷ codes "replace-me"
    ∷ codes "replaceme"
    ∷ codes "your-token"
    ∷ codes "your_token"
    ∷ codes "example"
    ∷ codes "placeholder"
    ∷ codes "insecure"
    ∷ codes "unirate_"
    ∷ codes "unirate-"
    ∷ []

all_equal : ℕ → Bytes → Bool
all_equal c [] = true
all_equal c (b ∷ s) = nat_eq b c && all_equal c s

is_single_rune : Bytes → Bool
is_single_rune [] = true
is_single_rune (c ∷ s) = all_equal c s

-- The first entry of a list that the test finds.
first_hit : (Bytes → Bool) → List Bytes → Option Bytes
first_hit hit [] = none
first_hit hit (p ∷ ps) = let rest = first_hit hit ps in if hit p then some p else rest

published : Bytes → Option Bytes
published low = first_hit (λ p. p == low) weak_exact

with_prefix : Bytes → Option Bytes
with_prefix low = first_hit (λ p. starts_with low p) weak_prefix

with_marker : Bytes → Option Bytes
with_marker low = first_hit (λ p. contains low p) weak_contains

-- The checks of a text that is long enough.
check_weak : Bytes → Bytes → Option TokenError
check_weak t low = elim (published low) [
  | some p ↦ some (well_known t)
  | none ↦ elim (with_prefix low) [
    | some p ↦ some (weak_start p)
    | none ↦ elim (with_marker low) [
      | some p ↦ some (weak_marker p)
      | none ↦ if is_single_rune t then some single_character else none
    ]
  ]
]

-- ValidateToken: none is acceptance.
pub validate_token : Bytes → Option TokenError
validate_token tok =
    let t = trim_space tok in
    if t == []
    then some no_token
    else if ltb (length t) min_token_len
    then some (too_short (length t))
    else check_weak t (to_lower t)

-- What no accepted token is.
abbrev OccursIn : Bytes → Bytes → Type 0
OccursIn p s = (before : Bytes) × (rest : Bytes) × (s ≡ before ++ (p ++ rest))

abbrev Begins : Bytes → Bytes → Type 0
Begins p s = (rest : Bytes) × (s ≡ p ++ rest)

abbrev IsConstant : Bytes → Type 0
IsConstant [] = Unit
IsConstant (c ∷ s) = All (λ b. b ≡ c) s

pub record IsStrong (t : Bytes) : Type 0 where
  pub long : min_token_len ≤ length t
  pub not_published : All (λ p. p ≢ to_lower t) weak_exact
  pub not_started : All (λ p. ¬ Begins p (to_lower t)) weak_prefix
  pub not_marked : All (λ p. ¬ OccursIn p (to_lower t)) weak_contains
  pub varied : ¬ IsConstant t

first_hit_iff :
    (P : Bytes → Type 0) (hit : Bytes → Bool) (ps : List Bytes)
    → ((p : Bytes) → (hit p ≡ true) ↔ P p)
    → (first_hit hit ps ≡ none) ↔ All (λ p. ¬ P p) ps
unfolding first_hit
first_hit_iff P hit [] is = (λ e. tt, λ a. refl)
first_hit_iff P hit (p ∷ ps) is =
    let ih = first_hit_iff P hit ps is in
    elim (Bool-cases (hit p)) [
      | inl found ↦ rw found (λ e. cc, λ a. absurd (a.0 ((is p).0 found)))
      | inr missed ↦ rw missed (λ e. (λ h. let y = (is p).1 h in cc, ih.0 e), λ a. ih.1 a.1)
    ]

all_equal_iff : (c : ℕ) (s : Bytes) → (all_equal c s ≡ true) ↔ All (λ b. b ≡ c) s
unfolding all_equal
all_equal_iff c [] = (λ e. tt, λ a. refl)
all_equal_iff c (b ∷ s) = let ih = all_equal_iff c s in ground (arith, ih)

is_single_rune_iff : (t : Bytes) → (is_single_rune t ≡ true) ↔ IsConstant t
unfolding is_single_rune
is_single_rune_iff [] = (λ e. tt, λ c. refl)
is_single_rune_iff (c ∷ s) = all_equal_iff c s

check_weak_lem :
    (t low : Bytes)
    → (check_weak t low ≡ none) ↔ (
        (published low ≡ none)
        × (with_prefix low ≡ none)
        × (with_marker low ≡ none)
        × (is_single_rune t ≡ false))
unfolding check_weak
check_weak_lem t low = ground arith

check_weak-IsStrong :
    (t : Bytes)
    → ltb (length t) min_token_len ≡ false
    → (check_weak t (to_lower t) ≡ none) ↔ IsStrong t
unfolding published with_prefix with_marker
check_weak-IsStrong t long =
    let low = to_lower t in
    let whole = check_weak_lem t low in
    let exact = first_hit_iff (λ p. p ≡ low) (λ p. p == low) weak_exact (λ p. eq_iff p low) in
    let started =
      first_hit_iff (λ p. Begins p low) (λ p. starts_with low p) weak_prefix
        (λ p. starts_with_iff low p) in
    let marked =
      first_hit_iff (λ p. OccursIn p low) (λ p. contains low p) weak_contains
        (λ p. contains_iff low p) in
    let one = is_single_rune_iff t in
    (
      λ h.
          let (a, b, c, d) = whole.0 h in
          record {
            long = ground (arith, long);
            not_published = exact.0 a;
            not_started = started.0 b;
            not_marked = marked.0 c;
            varied = λ k. let e = one.1 k in cc;
          },
      λ s. whole.1 (
        exact.1 s.not_published,
        started.1 s.not_started,
        marked.1 s.not_marked,
        elim (Bool-cases (is_single_rune t)) [ inl e ↦ absurd (s.varied (one.0 e)) | inr e ↦ e ],
      ),
    )

length-nil : (t : Bytes) → ltb (length t) min_token_len ≡ false → t ≢ []
length-nil [] long e = cc
length-nil (c ∷ t) long e = cc

-- The token without the white space around it is accepted exactly if it has 32 characters at least; in
-- small letters it is none of the published values, starts with none of the weak beginnings and has none
-- of the markers of a template anywhere in it; and it is not one character repeated.
pub validate_token-IsStrong :
    (tok : Bytes) → (validate_token tok ≡ none) ↔ IsStrong (trim_space tok)
unfolding validate_token
validate_token-IsStrong tok =
    let t = trim_space tok in
    elim (Bool-cases (ltb (length t) min_token_len)) [
      | inl short ↦
          rw short
            (λ h. ground (arith, h), λ s. let l = s.long in absurd (ground (arith, short, l)))
      | inr long ↦ elim (Bool-cases (t == [])) [
        | inl empty ↦
            let none_left : t ≡ [] = (eq_iff t []).0 empty in absurd (length-nil t long none_left)
        | inr some_text ↦ rw (some_text, long) (check_weak-IsStrong t long)
      ]
    ]
