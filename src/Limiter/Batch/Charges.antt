-- ===== src/Limiter/Batch/Charges.antt =====
-- What an accepted run of batch_check.lua charges to the counters.
use unirate.Prelude.{
  ℕ, zero, suc, ◌≡◌, Bool, false, if◌then◌else◌, Option, none, some, List, [], ◌∷◌, All, refl,
  arith, subst, ap₂, Bool-cases, inl, inr, ◌∙◌, ap, sym,
}
use unirate.Prelude.Text.{Bytes, ◌==◌}
use unirate.Prelude.Int.{ℤ, pos, pos_part, ◌+ℤ◌, ◌≤ℤ◌, leb_ℤ, ltb_ℤ, zero_add_ℤ, add_assoc_ℤ}
use unirate.Limiter.Ledger.{or_zero}
use unirate.Limiter.Check.Prepare.{LuaRule, LuaType, fixed, sliding, tb, conc, tkadmit}
use unirate.Limiter.Batch.{
  Numbers, Store, Plan, fixed_plan, sliding_plan, tb_plan, conc_plan, noop, passes, check_keyed,
  check_typed, check_fixed, check_sliding, check_bucket, check_conc, check_tkadmit, now_ms,
  add_members, commit, phase_two, batch_check,
}
use unirate.Limiter.Batch.Laws.{StoreLaws}
use unirate.Limiter.Batch.Passes.{key_of, AllPass, batch_check-ok}
use unirate.Limiter.Batch.Rejects.{check_keyed-Kept}

-- The charge of a fixed window at its key.
abbrev at_key : Option Bytes → Bytes → ℤ → ℤ
at_key none j cost = pos 0
at_key (some key) j cost = if key == j then cost else pos 0

abbrev charge_of : LuaType → ℤ → ℤ
charge_of fixed cost = cost
charge_of sliding cost = pos 0
charge_of tb cost = pos 0
charge_of conc cost = pos 0
charge_of tkadmit cost = pos 0

-- What the rules charge to the counter `j`, all fixed windows of that key together.
pub charged : {F : Type 0} → List Bytes → Bytes → List (LuaRule F) → ℤ
charged keys j [] = pos 0
charged keys j (r ∷ rs) = at_key (key_of keys r) j (charge_of r.t r.cost) +ℤ charged keys j rs

-- The counter of each fixed window of the key `j` stays within the limit with the rule's own cost.
abbrev pub HasRoom : {F : Type 0} → List Bytes → Bytes → ℤ → LuaRule F → Type 0
HasRoom keys j used r = r.t ≡ fixed → key_of keys r ≡ some j → used +ℤ r.cost ≤ℤ r.limit

abbrev is_zero : ℤ → Bool
is_zero z = if leb_ℤ z (pos 0) then leb_ℤ (pos 0) z else false

plan_charge : {F : Type 0} → Bytes → Plan F → ℤ
plan_charge j (fixed_plan key cost time_left fresh) = if key == j then cost else pos 0
plan_charge j (sliding_plan key cost window) = pos 0
plan_charge j (tb_plan key tokens last rate burst) = pos 0
plan_charge j (conc_plan key deadline ttl) = pos 0
plan_charge j noop = pos 0

plan_charges : {F : Type 0} → Bytes → List (Plan F) → ℤ
unfolding plan_charge
plan_charges j [] = pos 0
plan_charges j (p ∷ ps) = plan_charge j p +ℤ plan_charges j ps

zero_at_key : (o : Option Bytes) (j : Bytes) → at_key o j (pos 0) ≡ pos 0
zero_at_key none j = refl
zero_at_key (some k) j = elim (Bool-cases (k == j)) [ inl e ↦ rw e refl | inr e ↦ rw e refl ]

some_eq : (a b : Bytes) → ◌≡◌ {A = Option Bytes} (some a) (some b) → a ≡ b
some_eq a b e = cc

module _ (num : Numbers) (st : Store num.F) (laws : StoreLaws num.F st) where
  open laws use {view, get_value, view-incrby, view-expire, view-pexpire, view-zadd, view-hset}

  value-add_members :
      (n : ℕ) (d : st.Db) (key : Bytes) (now : ℤ) (id j : Bytes)
      → (view (add_members num st n d key now id) j).value ≡ (view d j).value
  unfolding add_members
  value-add_members zero d key now id j = refl
  value-add_members (suc n) d key now id j = elim (Bool-cases (key == j)) [
    | inl e ↦ rw (view-zadd, e) (value-add_members n d key now id j)
    | inr e ↦ rw (view-zadd, e) (value-add_members n d key now id j)
  ]

  abbrev used : st.Db → Bytes → ℤ
  used d j = or_zero (view d j).value

  used-commit :
      (d : st.Db) (now : ℤ) (id : Bytes) (p : Plan num.F) (j : Bytes)
      → used (commit num st d now id p) j ≡ used d j +ℤ plan_charge j p
  unfolding commit plan_charge
  used-commit d now id (fixed_plan key cost time_left fresh) j = elim (Bool-cases fresh) [
    | inl f ↦ elim (Bool-cases (key == j)) [
      | inl e ↦ rw (f, view-expire, view-incrby, e) refl
      | inr e ↦ rw (f, view-expire, view-incrby, e) (sym (zero_add_ℤ (used d j)))
    ]
    | inr f ↦ elim (Bool-cases (key == j)) [
      | inl e ↦ rw (f, view-incrby, e) refl
      | inr e ↦ rw (f, view-incrby, e) (sym (zero_add_ℤ (used d j)))
    ]
  ]
  used-commit d now id (sliding_plan key cost window) j =
      rw (view-pexpire, value-add_members (pos_part cost) d key now id j)
        (sym (zero_add_ℤ (used d j)))
  used-commit d now id (tb_plan key tokens last rate burst) j = elim (Bool-cases (key == j)) [
    | inl e ↦ rw (view-pexpire, view-hset, e) (sym (zero_add_ℤ (used d j)))
    | inr e ↦ rw (view-pexpire, view-hset, e) (sym (zero_add_ℤ (used d j)))
  ]
  used-commit d now id (conc_plan key deadline ttl) j = elim (Bool-cases (key == j)) [
    | inl e ↦ rw (view-pexpire, view-zadd, e) (sym (zero_add_ℤ (used d j)))
    | inr e ↦ rw (view-pexpire, view-zadd, e) (sym (zero_add_ℤ (used d j)))
  ]
  used-commit d now id noop j = sym (zero_add_ℤ (used d j))

  used-phase_two :
      (ps : List (Plan num.F)) (d : st.Db) (now : ℤ) (id j : Bytes)
      → used (phase_two num st d now id ps) j ≡ used d j +ℤ plan_charges j ps
  unfolding phase_two plan_charges
  used-phase_two [] d now id j = sym (zero_add_ℤ (used d j))
  used-phase_two (p ∷ ps) d now id j =
      used-phase_two ps (commit num st d now id p) now id j
      ∙ ap (λ u. u +ℤ plan_charges j ps) (used-commit d now id p j)
      ∙ add_assoc_ℤ (used d j) (plan_charge j p) (plan_charges j ps)

  -- The plan of a rule that passes.
  fixed-passes :
      (d : st.Db) (r : LuaRule num.F) (key : Bytes) (p : Plan num.F)
      → check_fixed num st d r key ≡ passes p
      → (fresh : Bool) × (p ≡ fixed_plan key r.cost r.expire fresh)
        × (used d key +ℤ r.cost ≤ℤ r.limit)
  unfolding check_fixed
  fixed-passes d r key p e = elim (Bool-cases (ltb_ℤ r.limit (or_zero (st.get d key) +ℤ r.cost))) [
    | inl full ↦ absurd (ground (arith, e, full))
    | inr room ↦ (
      is_zero (or_zero (st.get d key)),
      ground (arith, e, room),
      ground (arith, room, get_value d key),
    )
  ]

  bucket-passes :
      (d : st.Db) (now : ℤ) (r : LuaRule num.F) (key j : Bytes) (o : Option num.F) (p : Plan num.F)
      → check_bucket num st d now r key o ≡ passes p
      → plan_charge j p ≡ pos 0
  unfolding check_bucket plan_charge
  bucket-passes d now r key j none p e = cc
  bucket-passes d now r key j (some rate) p e = ground arith

  -- A rule that passes charges what its plan says, and has room for it.
  typed-passes :
      (t : LuaType) (d : st.Db) (now : ℤ) (r : LuaRule num.F) (key j : Bytes) (p : Plan num.F)
      → (check_typed num st t d now r key).1 ≡ passes p
      → (plan_charge j p ≡ at_key (some key) j (charge_of t r.cost))
        × (t ≡ fixed → key ≡ j → used d j +ℤ r.cost ≤ℤ r.limit)
  unfolding check_typed check_sliding check_conc check_tkadmit plan_charge
  typed-passes fixed d now r key j p e =
      let (fresh, p_eq, room) = fixed-passes d r key p e in
      (rw p_eq refl, λ t same. subst (λ k. used d k +ℤ r.cost ≤ℤ r.limit) same room)
  typed-passes sliding d now r key j p e = (ground arith, λ t. cc)
  typed-passes tb d now r key j p e =
      (bucket-passes d now r key j r.rate p e ∙ sym (zero_at_key (some key) j), λ t. cc)
  typed-passes conc d now r key j p e = (ground arith, λ t. cc)
  typed-passes tkadmit d now r key j p e = (ground arith, λ t. cc)

  keyed-passes :
      (d : st.Db) (now : ℤ) (r : LuaRule num.F) (o : Option Bytes) (j : Bytes) (p : Plan num.F)
      → (check_keyed num st d now r o).1 ≡ passes p
      → (plan_charge j p ≡ at_key o j (charge_of r.t r.cost))
        × (r.t ≡ fixed → o ≡ some j → used d j +ℤ r.cost ≤ℤ r.limit)
  unfolding check_keyed
  keyed-passes d now r none j p e = cc
  keyed-passes d now r (some key) j p e =
      let (charge, room) = typed-passes r.t d now r key j p e in
      (charge, λ t same. room t (some_eq key j same))

  AllPass-charged :
      (rs : List (LuaRule num.F)) (ps : List (Plan num.F)) (d d' : st.Db) (now : ℤ)
      (keys : List Bytes) (j : Bytes)
      → AllPass num st d now keys rs d' ps
      → (plan_charges j ps ≡ charged keys j rs)
        × ((view d' j).value ≡ (view d j).value)
        × All (HasRoom keys j (used d j)) rs
  unfolding plan_charges charged
  AllPass-charged [] [] d d' now keys j e = (refl, ap (λ db. (view db j).value) e, tt)
  AllPass-charged [] (p ∷ ps) d d' now keys j e = absurd e
  AllPass-charged (r ∷ rs) [] d d' now keys j e = absurd e
  AllPass-charged (r ∷ rs) (p ∷ ps) d d' now keys j (passed, later) =
      let key = key_of keys r in
      let next = (check_keyed num st d now r key).0 in
      let same = (check_keyed-Kept num st laws d now r rs key j).same_value in
      let (charges, value, rooms) = AllPass-charged rs ps next d' now keys j later in
      let (charge, room) = keyed-passes d now r key j p passed in
      (
        ap₂ ◌+ℤ◌ charge charges,
        value ∙ same,
        (room, subst (λ (o : Option ℤ). All (HasRoom keys j (or_zero o)) rs) same rooms),
      )

  -- What an ok reply of batch_check.lua charges: every counter grows by the costs of the fixed windows
  -- of its key together, and of nothing else; and every fixed window had room for its own cost under
  -- its limit. With one fixed window for a key, the counter is within the limit afterwards.
  pub batch_check-charged :
      (d : st.Db) (keys : List Bytes) (rs : List (LuaRule num.F)) (id j : Bytes)
      → (batch_check num st d keys rs id).0 ≡ some (pos 1 ∷ pos 0 ∷ pos 0 ∷ [])
      → (or_zero (st.get (batch_check num st d keys rs id).1 j)
          ≡ or_zero (st.get d j) +ℤ charged keys j rs)
        × All (HasRoom keys j (or_zero (st.get d j))) rs
  batch_check-charged d keys rs id j ok =
      let (d', ps, all, last) = batch_check-ok num st d keys rs id ok in
      let (charges, value, rooms) = AllPass-charged rs ps d d' (now_ms num st d) keys j all in
      rw (last, get_value d j, get_value)
        (used-phase_two ps d' (now_ms num st d) id j ∙ ap₂ ◌+ℤ◌ (ap or_zero value) charges, rooms)
