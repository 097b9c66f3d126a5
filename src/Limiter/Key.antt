-- ===== src/Limiter/Key.antt =====
-- internal/limiter/key.go. Texts are lists of bytes; crypto/sha256 with hex.EncodeToString, cut to 24
-- digits, is the parameter `digest`. An instant is its Unix second.
pub mod Boundary
pub mod Separation
mod Examples
use unirate.Prelude.{
  ℕ, ◌-◌, Bool, true, false, ◌&&◌, ◌||◌, not, leb, ◌==◌ as nat_eq, if◌then◌else◌, List, [], ◌∷◌,
  ◌++◌, length,
}
use unirate.Prelude.Text.{Bytes, codes, ◌==◌, has_byte, format_nat}
use unirate.Prelude.Int.{ℤ, pos, negsuc, leb_ℤ, ◌+ℤ◌, ◌-ℤ◌, ◌*ℤ◌, ◌/ℤ◌, int64}

abbrev pub bar : ℕ
bar = b'|'

-- strings.ContainsAny(v, "|/ \t\r\n")
abbrev pub has_special : Bytes → Bool
has_special v =
    has_byte bar v
    || (has_byte b'/' v || (has_byte 32 v || (has_byte 9 v || (has_byte 13 v || has_byte 10 v))))

abbrev max_raw_len : ℕ
max_raw_len = 48

unfoldable pub safe_val : (Bytes → Bytes) → Bytes → Bytes
safe_val digest v =
    if v == []
    then codes "_"
    else if leb (length v) max_raw_len && not (has_special v)
    then v
    else b'h' ∷ digest v

pub hash_token : (Bytes → Bytes) → Bytes → Bytes
hash_token digest raw = if raw == [] then codes "_" else digest raw

is_zero : ℤ → Bool
is_zero z = leb_ℤ z (pos 0) && leb_ℤ (pos 0) z

-- int64 sums and products wrap; the quotient is taken only of a positive window.
pub window_boundary : ℤ → ℤ → ℤ → Bool → ℤ
unfolding is_zero
window_boundary ts win_sec tz_offset natural =
    if leb_ℤ win_sec (pos 0)
    then pos 0
    else if natural && not (is_zero tz_offset)
    then int64 (int64 (int64 (ts +ℤ tz_offset) /ℤ win_sec *ℤ win_sec) -ℤ tz_offset)
    else int64 (ts /ℤ win_sec *ℤ win_sec)

-- strings.Join(parts, ".")
unfoldable pub dotted : List Bytes → Bytes
dotted [] = []
dotted (s ∷ []) = s
dotted (s ∷ t ∷ ss) = s ++ (b'.' ∷ dotted (t ∷ ss))

pub safe_vals : (Bytes → Bytes) → List Bytes → List Bytes
safe_vals digest [] = []
safe_vals digest (v ∷ vs) = safe_val digest v ∷ safe_vals digest vs

-- strconv.FormatInt(z, 10)
unfoldable pub format_int : ℤ → Bytes
format_int (pos n) = format_nat n
format_int (negsuc n) = b'-' ∷ format_nat (Prim.Native.Nat.suc n)

-- prefix|dims|vals|window|boundary, which RateKey and TokenLedgerKey share.
windowed_key : Bytes → (Bytes → Bytes) → List Bytes → List Bytes → ℤ → ℤ → Bytes
unfolding safe_vals
windowed_key kind digest dims vals win_sec boundary =
    kind
    ++ (bar
        ∷ (dotted dims
            ++ (bar
                ∷ (dotted (safe_vals digest vals)
                    ++ (bar ∷ (format_int win_sec ++ (bar ∷ format_int boundary)))))))

pub rate_key : (Bytes → Bytes) → List Bytes → List Bytes → ℤ → ℤ → Bytes
unfolding windowed_key
rate_key = windowed_key (codes "rl")

pub token_ledger_key : (Bytes → Bytes) → List Bytes → List Bytes → ℤ → ℤ → Bytes
unfolding windowed_key
token_ledger_key = windowed_key (codes "tk")

pub token_bucket_key : (Bytes → Bytes) → List Bytes → List Bytes → Bytes
unfolding safe_vals
token_bucket_key digest dims vals =
    codes "tb" ++ (bar ∷ (dotted dims ++ (bar ∷ dotted (safe_vals digest vals))))

pub concurrency_key : (Bytes → Bytes) → Bytes → List Bytes → List Bytes → Bytes
unfolding safe_vals
concurrency_key digest biz dims vals =
    codes "cc"
    ++ (bar
        ∷ (safe_val digest biz ++ (bar ∷ (dotted dims ++ (bar ∷ dotted (safe_vals digest vals))))))
