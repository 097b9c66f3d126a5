-- ===== src/Limiter/Rule/Validate/Overflow.antt =====
-- The windows whose seconds do not fit an int64 (internal/limiter/rule.go).
use unirate.Prelude.{◌==◌ as nat_eq}
use unirate.Prelude.Text.{Bytes, ◌==◌, codes}
use unirate.Limiter.Rule.{Rule}

abbrev pub long_window : Bytes
long_window = codes "144115188075855872d"
