-- ===== src/Net/NetworkSafety/Policy.antt =====
-- When src/net/NetworkSafety.cpp allows a target.
use ipad_second_display.Common.{
  ℕ, ◌≡◌, ◌≢◌, ◌⊎◌, Bool, true, false, List, [], ◌∷◌, Option, some, All,
}
use ipad_second_display.Net.NetworkSafety.{
  NetworkCategory, private_network, domain_authenticated, NetworkConnection, Fetch, fetched,
  fetch_failed, Windows, ResolvedAddress, is_loopback, is_private_or_link_local, Verdict,
  passed_over, distrusted, trusted,
}

-- The connection is known to be another adapter's, or down, or its network to be trusted.
abbrev pub IsHarmless : ℕ → Fetch → Type 0
IsHarmless adapter fetch_failed = ⊥
IsHarmless adapter (fetched c) =
    (id : ℕ) × (c.adapter_id ≡ some id)
    × ((id ≢ adapter)
        ⊎ (c.is_connected ≡ some false)
        ⊎ (c.is_connected ≡ some true)
          × ((c.category ≡ some private_network) ⊎ (c.category ≡ some domain_authenticated)))

-- The connection is the adapter's and up.
abbrev pub IsRoute : ℕ → Fetch → Type 0
IsRoute adapter fetch_failed = ⊥
IsRoute adapter (fetched c) = (c.adapter_id ≡ some adapter) × (c.is_connected ≡ some true)

abbrev pub SomeRoute : ℕ → List Fetch → Type 0
SomeRoute adapter [] = ⊥
SomeRoute adapter (x ∷ xs) = IsRoute adapter x ⊎ SomeRoute adapter xs

-- What a verdict says of its connection.
abbrev Means : Verdict → ℕ → Fetch → Type 0
Means passed_over adapter x = IsHarmless adapter x × (IsRoute adapter x → ⊥)
Means distrusted adapter x = IsHarmless adapter x → ⊥
Means trusted adapter x = IsHarmless adapter x × IsRoute adapter x

abbrev connection : Option ℕ → Option Bool → Option NetworkCategory → NetworkConnection
connection id up category = record { adapter_id = id; is_connected = up; category = category }

-- A trusted route: nothing in the enumeration is unknown or untrusted, and some connection is the
-- route's.
abbrev pub IsTrusted : Option ℕ → Option (List Fetch) → Type 0
IsTrusted (some adapter) (some connections) =
    All (IsHarmless adapter) connections × SomeRoute adapter connections
IsTrusted _ _ = ⊥

-- The address is loopback, or private with a trusted route.
abbrev pub IsAcceptable : Windows → ResolvedAddress → Type 0
IsAcceptable w a =
    (is_loopback a.storage ≡ true)
    ⊎ (is_private_or_link_local a.storage ≡ true)
      × IsTrusted (w.route_adapter a.storage) w.network_connections
