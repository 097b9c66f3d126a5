-- ===== src/Upstream/Host.antt =====
-- matchAllowlist of internal/upstream/resolver.go, on ASCII.
use unirate.Prelude.{Bool, false, ◌||◌, if◌then◌else◌, List, [], ◌∷◌}
use unirate.Prelude.Text.{Bytes, codes, ◌==◌, to_lower, starts_with}

unfoldable pub equal_fold : Bytes → Bytes → Bool
equal_fold s t = to_lower s == to_lower t

unfoldable pub ends_with : Bytes → Bytes → Bool
ends_with [] suffix = [] == suffix
ends_with (c ∷ s) suffix = (c ∷ s) == suffix || ends_with s suffix

-- pat[1:]
unfoldable pub tail : Bytes → Bytes
tail [] = []
tail (c ∷ s) = s

-- One pattern of the list.
unfoldable pub host_matches : Bytes → Bytes → Bool
unfolding starts_with ends_with equal_fold tail
host_matches host pat =
    if starts_with pat (codes "*.") then ends_with host (tail pat) else equal_fold host pat

unfoldable pub match_allowlist : Bytes → List Bytes → Bool
unfolding host_matches
match_allowlist host [] = false
match_allowlist host (pat ∷ pats) = host_matches host pat || match_allowlist host pats
