-- ===== src/Net/NetworkSafety/Tests.antt =====
-- src/net/NetworkSafety.cpp on a private network with one adapter.
use ipad_second_display.Common.{ℕ, ◌≡◌, ◌≤◌, ◌<◌, ◌↔◌, ◌⊎◌, true, [], ◌∷◌, some, codes, arith}
use ipad_second_display.Net.NetworkSafety.{inet, private_network, fetched, Windows, is_private_ipv4}
use ipad_second_display.Net.NetworkSafety.Ranges.{dotted, is_private_ipv4_iff}

abbrev home : Windows
home = record {
  resolve = λ target. some (inet (dotted 192 168 1 20) ∷ []);
  numeric_host = λ a. some (codes "192.168.1.20");
  route_adapter = λ a. some 4;
  network_connections = some (
      fetched
        (record { adapter_id = some 4; is_connected = some true; category = some private_network })
      ∷ []);
}

-- The ranges, by the first two bytes.
abbrev IsPrivate : ℕ → ℕ → Type 0
IsPrivate a b =
    (a ≡ 10) ⊎ (a ≡ 172) × (16 ≤ b) × (b < 32) ⊎ (a ≡ 192) × (b ≡ 168) ⊎ (a ≡ 169) × (b ≡ 254)

is_private_ipv4_iff_example : (is_private_ipv4 (dotted 172 31 0 1) ≡ true) ↔ IsPrivate 172 31
is_private_ipv4_iff_example =
    is_private_ipv4_iff 172 31 0 1 (omega arith) (omega arith) (omega arith)
