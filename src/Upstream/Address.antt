-- ===== src/Upstream/Address.antt =====
-- The private and reserved networks of internal/upstream/resolver.go. An address is a number, IPv4 with 32
-- bits and IPv6 with 128, an IPv4 address that is mapped into IPv6 being IPv4, as net.IPNet.Contains
-- takes it.
use unirate.Prelude.{
  ℕ, ◌-◌, ◌*◌, ◌+◌, ◌/◌, ◌^◌, ◌<◌, ◌≢◌, ◌≡◌, ◌⊎◌, Bool, false, ◌||◌, ◌==◌ as nat_eq, List, [], ◌∷◌,
  arith,
}

pub data Ip : Type 0 where
  v4 v6 : ℕ → Ip

-- net.IPNet: the first address and the length of the prefix.
pub data Block : Type 0 where
  block4 block6 : ℕ → ℕ → Block

abbrev pub dotted_quad : ℕ → ℕ → ℕ → ℕ → ℕ
dotted_quad a b c d = ((a * 256 + b) * 256 + c) * 256 + d

abbrev pub private_blocks : List Block
private_blocks =
    block4 (dotted_quad 127 0 0 0) 8
    ∷ block4 (dotted_quad 10 0 0 0) 8
    ∷ block4 (dotted_quad 172 16 0 0) 12
    ∷ block4 (dotted_quad 192 168 0 0) 16
    ∷ block4 (dotted_quad 169 254 0 0) 16
    ∷ block4 (dotted_quad 0 0 0 0) 8
    ∷ block4 (dotted_quad 100 64 0 0) 10
    ∷ block6 1 128
    ∷ block6 (252 * 2 ^ 120) 7
    ∷ block6 (65152 * 2 ^ 112) 10
    ∷ []

-- net.IPNet.Contains
unfoldable pub contains : Block → Ip → Bool
contains (block4 base bits) (v4 n) = nat_eq (n / 2 ^ (32 - bits)) (base / 2 ^ (32 - bits))
contains (block6 base bits) (v6 n) = nat_eq (n / 2 ^ (128 - bits)) (base / 2 ^ (128 - bits))
contains (block4 base bits) (v6 n) = false
contains (block6 base bits) (v4 n) = false

unfoldable pub any_contains : List Block → Ip → Bool
unfolding contains
any_contains [] ip = false
any_contains (b ∷ bs) ip = contains b ip || any_contains bs ip

unfoldable pub is_private_ip : Ip → Bool
unfolding any_contains
is_private_ip ip = any_contains private_blocks ip

abbrev Outside : ℕ → ℕ → ℕ → Type 0
Outside first last n = (n < first) ⊎ (last < n)

-- An address of no private or reserved network, by the first and the last address of each.
abbrev pub IsPublic : Ip → Type 0
IsPublic (v4 n) =
    Outside (dotted_quad 127 0 0 0) (dotted_quad 127 255 255 255) n
    × Outside (dotted_quad 10 0 0 0) (dotted_quad 10 255 255 255) n
    × Outside (dotted_quad 172 16 0 0) (dotted_quad 172 31 255 255) n
    × Outside (dotted_quad 192 168 0 0) (dotted_quad 192 168 255 255) n
    × Outside (dotted_quad 169 254 0 0) (dotted_quad 169 254 255 255) n
    × Outside (dotted_quad 0 0 0 0) (dotted_quad 0 255 255 255) n
    × Outside (dotted_quad 100 64 0 0) (dotted_quad 100 127 255 255) n
IsPublic (v6 n) =
    (n ≢ 1)
    × Outside (252 * 2 ^ 120) (254 * 2 ^ 120 - 1) n
    × Outside (65152 * 2 ^ 112) (65216 * 2 ^ 112 - 1) n

pub is_private_ip-IsPublic : (ip : Ip) → is_private_ip ip ≡ false → IsPublic ip
unfolding is_private_ip any_contains contains
is_private_ip-IsPublic (v4 n) e = ground (arith, e)
is_private_ip-IsPublic (v6 n) e = ground (arith, e)
