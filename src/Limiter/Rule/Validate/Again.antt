-- ===== src/Limiter/Rule/Validate/Again.antt =====
-- A rule that Validate of internal/limiter/rule.go has accepted, written as JSON and validated again.
use unirate.Prelude.{
  ℕ, suc, ◌≡◌, inl, inr, refl, sym, ap, ◌∙◌, subst, true, false, ◌&&◌, ltb, Bool-cases, Option,
  none, some, List, [], ◌∷◌, length, ◌==◌ as nat_eq, arith,
}
use unirate.Prelude.Text.{Bytes, ◌==◌, eq_iff, trim_space, trim_left, to_lower}
use unirate.Limiter.Rule.{
  Rule, RuleType, dim_global, dim_biz, dim_path, dim_token, dim_ip, dim_method, valid_dim,
  unexported,
}
use unirate.Limiter.Rule.Validate.Steps.{validate_type-again}
use unirate.Limiter.Rule.Validate.{
  accepted, RuleError, validate, check_dims, after_dims, validate_type, seen_in, normal_dim,
}

-- The known dimensions are normal.
normal_dim-known :
    (d known : Bytes) → normal_dim known ≡ known → (d == known) ≡ true → normal_dim d ≡ d
normal_dim-known d known normal e = rw ((eq_iff d known).0 e) normal

normal_dim-valid_dim : (d : Bytes) → valid_dim d ≡ true → normal_dim d ≡ d
unfolding valid_dim normal_dim trim_space trim_left to_lower
normal_dim-valid_dim d h = ground (
  arith,
  h,
  normal_dim-known d dim_global refl,
  normal_dim-known d dim_biz refl,
  normal_dim-known d dim_path refl,
  normal_dim-known d dim_token refl,
  normal_dim-known d dim_ip refl,
  normal_dim-known d dim_method refl,
)

check_dims-again :
    (total : ℕ) (seen ds : List Bytes)
    → (check_dims total seen ds).1 ≡ none
    → (check_dims total seen (check_dims total seen ds).0 ≡ ((check_dims total seen ds).0, none))
      × (length (check_dims total seen ds).0 ≡ length ds)
unfolding check_dims
check_dims-again total seen [] = λ ok. (refl, refl)
check_dims-again total seen (raw ∷ ds) =
    let d = normal_dim raw in
    let ih = check_dims-again total (d ∷ seen) ds in
    elim (Bool-cases (valid_dim d)) [
      | inr unknown ↦ rw unknown (λ ok. cc)
      | inl known ↦ rw known (elim (Bool-cases (seen_in seen d)) [
        | inl twice ↦ rw twice (λ ok. cc)
        | inr once ↦ rw once (elim (Bool-cases (d == dim_global && ltb 1 total)) [
          | inl mixed ↦ rw mixed (λ ok. cc)
          | inr alone ↦ rw alone (λ ok.
              let (again, same) = ih ok in
              (rw (normal_dim-valid_dim d known, known, once, alone, again) refl, ap suc same))
        ])
      ])
    ]

-- A list of dimensions that the loop leaves as it is.
abbrev IsNormal : List Bytes → Type 0
IsNormal ds = check_dims (length ds) [] ds ≡ (ds, none)

check_dims-IsNormal :
    (r : Rule) (ds : List Bytes)
    → (ds, none) ≡ check_dims (length r.dimensions) [] r.dimensions
    → IsNormal ds × (length ds ≡ length r.dimensions)
check_dims-IsNormal r ds e =
    let (again, same) =
      check_dims-again (length r.dimensions) [] r.dimensions
        (ap (λ (c : List Bytes × Option RuleError). c.1) (sym e)) in
    let ds_eq : (check_dims (length r.dimensions) [] r.dimensions).0 ≡ ds =
      ap (λ (c : List Bytes × Option RuleError). c.0) (sym e) in
    let len : length ds ≡ length r.dimensions = rw (← ds_eq) same in (rw (len, ← ds_eq) again, len)

validate-unexported :
    (out : Rule)
    → (out.name == []) ≡ false
    → nat_eq (length out.dimensions) 0 ≡ false
    → IsNormal out.dimensions
    → validate_type out.type (unexported out) ≡ (out, accepted)
    → validate (unexported out) ≡ (out, accepted)
unfolding validate unexported after_dims
validate-unexported out named many normal again = rw (named, many, normal) again

after_dims-again :
    (r : Rule) (c : List Bytes × Option RuleError)
    → c ≡ check_dims (length r.dimensions) [] r.dimensions
    → unexported r ≡ r
    → (r.name == []) ≡ false
    → nat_eq (length r.dimensions) 0 ≡ false
    → (after_dims c r).1 ≡ accepted
    → validate (unexported (after_dims c r).0) ≡ after_dims c r
unfolding after_dims unexported
after_dims-again r (ds, some x) e plain named many ok = cc
after_dims-again r (ds, none) e plain named many ok =
    let (out, first, again, name, type, dims) =
      validate_type-again r.type (record r { dimensions = ds })
        (ap (λ (p : Rule). record p { dimensions = ds }) plain) ok in
    let (normal, len) = check_dims-IsNormal r ds e in
    let out_normal : IsNormal out.dimensions = subst IsNormal (sym dims) normal in
    let out_len : length out.dimensions ≡ length r.dimensions =
      ap (λ (l : List Bytes). length l) dims ∙ len in
    let out_named : (out.name == []) ≡ false = rw name named in
    let out_many : nat_eq (length out.dimensions) 0 ≡ false = rw out_len many in
    let retyped : validate_type out.type (unexported out) ≡ (out, accepted) =
      subst (λ (t : RuleType). validate_type t (unexported out) ≡ (out, accepted)) (sym type)
        again in
    rw first (validate-unexported out out_named out_many out_normal retyped)

-- A rule that came from JSON and that Validate accepts is accepted again, and left as it is, when it was
-- written as JSON and read, which loses the window in seconds: what the admin API has accepted, a load from
-- the database accepts, and what that has published, a gateway that reads it from Redis.
pub validate-validate :
    (r : Rule)
    → unexported r ≡ r
    → (validate r).1 ≡ accepted
    → validate (unexported (validate r).0) ≡ validate r
unfolding validate
validate-validate r plain = elim (Bool-cases (r.name == [])) [
  | inl unnamed ↦ rw unnamed (λ ok. cc)
  | inr named ↦ rw named (elim (Bool-cases (nat_eq (length r.dimensions) 0)) [
    | inl empty ↦ rw empty (λ ok. cc)
    | inr many ↦ rw many (λ ok.
        after_dims-again r (check_dims (length r.dimensions) [] r.dimensions) refl plain named many
          ok)
  ])
]
