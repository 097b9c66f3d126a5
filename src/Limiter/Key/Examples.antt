-- ===== src/Limiter/Key/Examples.antt =====
-- The keys of internal/limiter/key.go on concrete requests.
use unirate.Prelude.{◌≡◌, true, refl, List, [], ◌∷◌, arith}
use unirate.Prelude.Text.{Bytes, codes, has_byte, ◌==◌}
use unirate.Prelude.Int.{pos, ◌+ℤ◌}
use unirate.Limiter.Key.{window_boundary, rate_key, dotted, safe_vals}
use unirate.Limiter.Key.Boundary.{window_boundary_lem}
use unirate.Limiter.Key.Separation.{rate_key-parts, rate_key-collides}

-- 2024-01-01 20:00 UTC in a zone eight hours ahead.
window_boundary_lem_example :
    window_boundary (pos 1704139200) (pos 86400) (pos 28800) true +ℤ pos 28800 ≡ pos 1704153600
unfolding ◌+ℤ◌
window_boundary_lem_example =
    (window_boundary_lem 1704139200 86399 1704168000 (pos 28800) true (omega arith) (omega arith)
      (omega arith) refl).0

abbrev no_digest : Bytes → Bytes
no_digest v = codes "0f"

abbrev dims : List Bytes
dims = codes "path" ∷ codes "ip" ∷ []

two_requests :
    rate_key no_digest dims (codes "a" ∷ codes "b.c" ∷ []) (pos 60) (pos 120)
    ≡ rate_key no_digest dims (codes "a.b" ∷ codes "c" ∷ []) (pos 60) (pos 120)
unfolding ◌==◌ has_byte
two_requests =
    rate_key-collides no_digest dims (codes "a") (codes "b") (codes "c") (pos 60) (pos 120)
      (refl, refl, refl) (refl, refl, refl) (refl, refl, refl) (refl, refl, refl)

rate_key-parts_example :
    dotted (safe_vals no_digest (codes "a" ∷ codes "b.c" ∷ []))
    ≡ dotted (safe_vals no_digest (codes "a.b" ∷ codes "c" ∷ []))
unfolding has_byte dotted
rate_key-parts_example =
    (rate_key-parts no_digest (λ v. refl) dims dims (codes "a" ∷ codes "b.c" ∷ [])
      (codes "a.b" ∷ codes "c" ∷ []) (pos 60) (pos 60) (pos 120) (pos 120) refl refl two_requests).1
