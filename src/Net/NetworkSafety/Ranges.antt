-- ===== src/Net/NetworkSafety/Ranges.antt =====
-- The masks of src/net/NetworkSafety.cpp as address ranges.
use ipad_second_display.Common.{ℕ, ◌+◌, ◌*◌, ◌≤◌, ◌<◌, ◌≡◌, ◌↔◌, ◌⊎◌, true, arith}
use ipad_second_display.Net.NetworkSafety.{is_loopback_ipv4, is_private_ipv4}

-- The address `a.b.c.d` in host order.
abbrev pub dotted : ℕ → ℕ → ℕ → ℕ → ℕ
dotted a b c d = a * 16777216 + b * 65536 + c * 256 + d

-- `IsPrivateOrLinkLocal` accepts, of the IPv4 addresses of four bytes, those of 10.0.0.0/8, 172.16.0.0/12,
-- 192.168.0.0/16 and 169.254.0.0/16, and no other.
pub is_private_ipv4_iff :
    (a b c d : ℕ)
    → b < 256
    → c < 256
    → d < 256
    → (is_private_ipv4 (dotted a b c d) ≡ true)
      ↔ ((a ≡ 10) ⊎ (a ≡ 172) × (16 ≤ b) × (b < 32) ⊎ (a ≡ 192) × (b ≡ 168) ⊎ (a ≡ 169) × (b ≡ 254))
unfolding is_private_ipv4
is_private_ipv4_iff a b c d hb hc hd = (λ h. ground arith, λ h. ground arith)

-- `IsLoopback` accepts exactly 127.0.0.0/8.
is_loopback_ipv4_iff :
    (a b c d : ℕ)
    → b < 256
    → c < 256
    → d < 256
    → (is_loopback_ipv4 (dotted a b c d) ≡ true) ↔ (a ≡ 127)
unfolding is_loopback_ipv4
is_loopback_ipv4_iff a b c d hb hc hd = (λ h. ground arith, λ h. ground arith)
