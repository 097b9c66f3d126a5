-- ===== src/Proxy/Handler/Counts.antt =====
-- What the events of internal/proxy/handler.go add to the gauge of requests in flight, and how often they
-- write a status.
use unirate.Prelude.{
  ℕ, ◌+◌, ◌≤◌, ◌≡◌, Bool, true, false, if◌then◌else◌, List, [], ◌∷◌, ◌++◌, refl, arith, ap, sym,
  ◌∙◌, Bool-cases, inl, inr,
}
use unirate.Prelude.Text.{Bytes, codes}
use unirate.Prelude.Int.{ℤ, pos, negsuc, ◌+ℤ◌, add_zero_ℤ, add_assoc_ℤ}
use unirate.Limiter.Check.Prepare.{Decision}
use unirate.Upstream.{Failure, no_upstream, upstream_blocked}
use unirate.Proxy.Handler.{
  Options, Event, header_set, status_written, req_total, degraded, redis_errors, conc_in_flight,
  write_error, observe, reject, unresolved, failure_answer,
}

-- What an event adds to the gauge of requests in flight, and to the count of written statuses.
unfoldable pub change : Event → ℤ
change (conc_in_flight n biz) = n
change _ = pos 0

unfoldable pub writes : Event → ℕ
writes (status_written status) = 1
writes _ = 0

unfoldable pub gauge : List Event → ℤ
unfolding change
gauge [] = pos 0
gauge (e ∷ es) = change e +ℤ gauge es

unfoldable pub statuses : List Event → ℕ
unfolding writes
statuses [] = 0
statuses (e ∷ es) = writes e + statuses es

gauge-append : (xs ys : List Event) → gauge (xs ++ ys) ≡ gauge xs +ℤ gauge ys
unfolding gauge
gauge-append [] ys = sym (add_zero_ℤ (gauge ys))
gauge-append (e ∷ es) ys =
    ap (λ (z : ℤ). change e +ℤ z) (gauge-append es ys)
    ∙ sym (add_assoc_ℤ (change e) (gauge es) (gauge ys))

statuses-append : (xs ys : List Event) → statuses (xs ++ ys) ≡ statuses xs + statuses ys
unfolding statuses
statuses-append [] ys = omega arith
statuses-append (e ∷ es) ys = omega (arith, statuses-append es ys)

-- Events that write `n` statuses and leave the gauge.
abbrev pub Adds : ℕ → List Event → Type 0
Adds n es = (gauge es ≡ pos 0) × (statuses es ≡ n)

Adds-append : (a b : ℕ) (xs ys : List Event) → Adds a xs → Adds b ys → Adds (a + b) (xs ++ ys)
Adds-append a b xs ys (gx, sx) (gy, sy) = (
  gauge-append xs ys ∙ (rw (gx, gy) (add_zero_ℤ (pos 0))),
  omega (arith, statuses-append xs ys, sx, sy),
)

write_error-Adds : (status : ℕ) (code msg id : Bytes) → Adds 1 (write_error status code msg id)
unfolding write_error gauge statuses change writes ◌+ℤ◌
write_error-Adds status code msg id = (refl, refl)

pub unresolved-Adds : (f : Failure) (text biz id : Bytes) → Adds 1 (unresolved f text biz id)
unfolding unresolved write_error failure_answer gauge statuses change writes ◌+ℤ◌
unresolved-Adds no_upstream text biz id = (refl, refl)
unresolved-Adds (upstream_blocked reason) text biz id = (refl, refl)

pub reject-Adds :
    (quote : Bytes → Bytes) (opt : Options) (d : Decision) (biz id : Bytes) (later : ℕ)
    → Adds 1 (reject quote opt d biz id later)
unfolding reject write_error observe gauge statuses change writes ◌+ℤ◌
reject-Adds quote opt d biz id later = elim (Bool-cases opt.expose_rule_name) [
  | inl e ↦ elim (Bool-cases d.degraded) [
    | inl f ↦ rw (e, f) (refl, refl)
    | inr f ↦ rw (e, f) (refl, refl)
  ]
  | inr e ↦ elim (Bool-cases d.degraded) [
    | inl f ↦ rw (e, f) (refl, refl)
    | inr f ↦ rw (e, f) (refl, refl)
  ]
]

-- Together they add `z` to the gauge and write from 0 to `n` statuses.
abbrev pub Moves : ℤ → ℕ → List Event → List Event → Type 0
Moves z n before after =
    (gauge after ≡ gauge before +ℤ z)
    × (statuses before ≤ statuses after)
    × (statuses after ≤ statuses before + n)

pub Moves-append :
    (told es : List Event) (z : ℤ) (n : ℕ)
    → gauge es ≡ z
    → statuses es ≤ n
    → Moves z n told (told ++ es)
Moves-append told es z n changed wrote = (
  gauge-append told es ∙ ap (λ (y : ℤ). gauge told +ℤ y) changed,
  omega (arith, statuses-append told es),
  omega (arith, statuses-append told es, wrote),
)

-- A forwarding that writes a status and nothing else.
pub one_status-Moves :
    (told : List Event) (status : ℕ) → Moves (pos 0) 1 told (told ++ (status_written status ∷ []))
unfolding gauge statuses change writes ◌+ℤ◌
one_status-Moves told status =
    Moves-append told (status_written status ∷ []) (pos 0) 1 refl (omega arith)

pub trans-Moves :
    (a b c : List Event) (y z : ℤ) (m n : ℕ)
    → Moves y m a b
    → Moves z n b c
    → Moves (y +ℤ z) (m + n) a c
trans-Moves a b c y z m n (gb, lb, ub) (gc, lc, uc) = (
  gc ∙ ap (λ (x : ℤ). x +ℤ z) gb ∙ add_assoc_ℤ (gauge a) y z,
  omega (arith, lb, lc),
  omega (arith, ub, uc),
)

pub degraded_note-Adds :
    (b : Bool) (biz : Bytes) → Adds 0 (if b then degraded biz (codes "allow") ∷ [] else [])
unfolding gauge statuses change writes ◌+ℤ◌
degraded_note-Adds true biz = (refl, refl)
degraded_note-Adds false biz = (refl, refl)

pub redis_note-Adds : (b : Bool) (what : Bytes) → Adds 0 (if b then redis_errors what ∷ [] else [])
unfolding gauge statuses change writes ◌+ℤ◌
redis_note-Adds true what = (refl, refl)
redis_note-Adds false what = (refl, refl)

-- What a hold adds when it is taken and when it is given back.
pub taken-gauge :
    (b : Bool) (biz : Bytes)
    → let es =
        (conc_in_flight (pos 1) biz ∷ [])
        ++ (if b then degraded biz (codes "allow") ∷ [] else []) in
      (gauge es ≡ pos 1) × (statuses es ≡ 0)
unfolding gauge statuses change writes ◌+ℤ◌
taken-gauge true biz = (refl, refl)
taken-gauge false biz = (refl, refl)

pub given-gauge :
    (b : Bool) (biz : Bytes)
    → let es =
        (if b then redis_errors (codes "release") ∷ [] else [])
        ++ (conc_in_flight (negsuc 0) biz ∷ []) in
      (gauge es ≡ negsuc 0) × (statuses es ≡ 0)
unfolding gauge statuses change writes ◌+ℤ◌
given-gauge true biz = (refl, refl)
given-gauge false biz = (refl, refl)

pub header_set-Adds : (id : Bytes) → Adds 0 (header_set (codes "X-Request-Id") id ∷ [])
unfolding gauge statuses change writes ◌+ℤ◌
header_set-Adds id = (refl, refl)

pub invalid_path-Adds :
    (id : Bytes)
    → Adds 1 (
        write_error 400 (codes "invalid_path") (codes "URL must be /{biz}/{upstream_path}") id
        ++ (req_total (codes "_") (codes "bad_request") 400 ∷ []))
unfolding write_error gauge statuses change writes ◌+ℤ◌
invalid_path-Adds id = (refl, refl)
