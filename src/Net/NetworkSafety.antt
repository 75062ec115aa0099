-- ===== src/Net/NetworkSafety.antt =====
-- src/net/NetworkSafety.cpp: may the sender connect to a target.
pub mod Ranges
pub mod Policy
mod Tests
use ipad_second_display.Common.{
  ℕ, zero, suc, ◌+◌, ◌*◌, ◌/◌, ◌^◌, Bool, true, false, ◌&&◌, ◌||◌, not, List, [], ◌∷◌, Option, none,
  some, ◌==◌, if◌then◌else◌, Bytes, bytes_eq, codes,
}

-- `sockaddr_storage`, by its family: the IPv4 address in host order, or the 16 bytes of IPv6.
pub data Address : Type 0 where
  inet : ℕ → Address
  inet6 : Bytes → Address
  other_family : Address

pub record ResolvedAddress : Type 0 where
  pub storage : Address
  pub numeric : Bytes

-- `NLM_NETWORK_CATEGORY`.
pub data NetworkCategory : Type 0 where
  public_network private_network domain_authenticated : NetworkCategory

-- What the calls on an `INetworkConnection` answer; `none` is a failed call.
pub record NetworkConnection : Type 0 where
  pub adapter_id : Option ℕ
  pub is_connected : Option Bool
  pub category : Option NetworkCategory

-- One answer of `Next` before the one that ends the enumeration.
pub data Fetch : Type 0 where
  fetched : NetworkConnection → Fetch
  fetch_failed : Fetch

-- The system's calls. `resolve` is `getaddrinfo`, `numeric_host` `getnameinfo`; `route_adapter` is the
-- adapter of the interface that `GetBestInterfaceEx` names; `network_connections` is what the
-- network list manager enumerates, none where it cannot be made.
pub record Windows : Type 0 where
  pub resolve : Bytes → Option (List Address)
  pub numeric_host : Address → Option Bytes
  pub route_adapter : Address → Option ℕ
  pub network_connections : Option (List Fetch)

pub record NetworkSafetyResult : Type 0 where
  pub allowed : Bool
  pub reason : Bytes
  pub resolved_address : Bytes

-- `hostOrder & mask` for a mask of the bits from `k` up.
abbrev pub high_bits : ℕ → ℕ → ℕ
high_bits k h = h / 2 ^ k * 2 ^ k

pub is_loopback_ipv4 : ℕ → Bool
is_loopback_ipv4 h = high_bits 24 h == 2130706432

pub is_private_ipv4 : ℕ → Bool
is_private_ipv4 h =
    high_bits 24 h == 167772160
    || high_bits 20 h == 2886729728
    || high_bits 16 h == 3232235520
    || high_bits 16 h == 2851995648

abbrev pub loopback6 : Bytes
loopback6 = 0 ∷ 0 ∷ 0 ∷ 0 ∷ 0 ∷ 0 ∷ 0 ∷ 0 ∷ 0 ∷ 0 ∷ 0 ∷ 0 ∷ 0 ∷ 0 ∷ 0 ∷ 1 ∷ []

pub is_private_ipv6 : Bytes → Bool
is_private_ipv6 (a ∷ b ∷ rest) = a / 2 * 2 == 252 || a == 254 && b / 64 * 64 == 128
is_private_ipv6 _ = false

-- Only the two families are ever stored, so the last clauses are not reached.
pub is_loopback : Address → Bool
is_loopback (inet h) = is_loopback_ipv4 h
is_loopback (inet6 bytes) = bytes_eq bytes loopback6
is_loopback other_family = false

pub is_private_or_link_local : Address → Bool
is_private_or_link_local (inet h) = is_private_ipv4 h
is_private_or_link_local (inet6 bytes) = is_private_ipv6 bytes
is_private_or_link_local other_family = false

-- An address that has no numeric form is left out.
pub push_resolved : Address → Option Bytes → List ResolvedAddress → List ResolvedAddress
push_resolved other_family host rest = rest
push_resolved a none rest = rest
push_resolved a (some host) rest = record { storage = a; numeric = host } ∷ rest

pub resolved_addresses : Windows → List Address → List ResolvedAddress
resolved_addresses w [] = []
resolved_addresses w (a ∷ others) = push_resolved a (w.numeric_host a) (resolved_addresses w others)

pub resolve_result : Windows → Option (List Address) → List ResolvedAddress
resolve_result w none = []
resolve_result w (some found) = resolved_addresses w found

-- The target cannot be resolved where this is empty.
pub resolve_target : Windows → Bytes → List ResolvedAddress
resolve_target w target = resolve_result w (w.resolve target)

-- What one connection means for the route: passed over, an error, not trusted, or trusted.
pub data Verdict : Type 0 where
  passed_over distrusted trusted : Verdict

abbrev pub is_distrusted : Verdict → Bool
is_distrusted distrusted = true
is_distrusted _ = false

abbrev pub is_trusted : Verdict → Bool
is_trusted trusted = true
is_trusted _ = false

pub judge_category : Option NetworkCategory → Verdict
judge_category (some private_network) = trusted
judge_category (some domain_authenticated) = trusted
judge_category _ = distrusted

pub judge_connected : Option Bool → Option NetworkCategory → Verdict
judge_connected none category = distrusted
judge_connected (some false) category = passed_over
judge_connected (some true) category = judge_category category

pub judge_connection : ℕ → NetworkConnection → Option ℕ → Verdict
judge_connection adapter c none = distrusted
judge_connection adapter c (some candidate) =
    if candidate == adapter then judge_connected c.is_connected c.category else passed_over

-- The loop over the connections; the list's end is the one with `S_FALSE`.
pub scan_connections : ℕ → Bool → List Fetch → Bool
scan_connections adapter found_route [] = found_route
scan_connections adapter found_route (fetch_failed ∷ rest) = false
scan_connections adapter found_route (fetched c ∷ rest) =
    let verdict = judge_connection adapter c c.adapter_id in
    let result = scan_connections adapter (found_route || is_trusted verdict) rest in
    if is_distrusted verdict then false else result

pub scan_route : Option ℕ → Option (List Fetch) → Bool
scan_route (some adapter) (some connections) = scan_connections adapter false connections
scan_route _ _ = false

pub has_trusted_windows_network : Windows → ResolvedAddress → Bool
has_trusted_windows_network w a = scan_route (w.route_adapter a.storage) w.network_connections

-- The first loop: an address that is neither loopback nor private ends it.
pub any_public : List ResolvedAddress → Bool
any_public [] = false
any_public (a ∷ others) =
    let rest = any_public others in
    if not (is_loopback a.storage) && not (is_private_or_link_local a.storage) then true else rest

pub all_loopback : List ResolvedAddress → Bool
all_loopback [] = true
all_loopback (a ∷ others) = is_loopback a.storage && all_loopback others

-- The second loop.
pub any_untrusted : Windows → List ResolvedAddress → Bool
any_untrusted w [] = false
any_untrusted w (a ∷ others) =
    let rest = any_untrusted w others in
    if not (is_loopback a.storage) && not (has_trusted_windows_network w a) then true else rest

abbrev refuse : Bytes → NetworkSafetyResult
refuse reason = record { allowed = false; reason = reason; resolved_address = [] }

abbrev allow : Bytes → ResolvedAddress → NetworkSafetyResult
allow reason a = record { allowed = true; reason = reason; resolved_address = a.numeric }

pub check_addresses : Windows → List ResolvedAddress → Bool → NetworkSafetyResult
check_addresses w [] require = refuse (codes "target could not be resolved to IPv4 or IPv6")
check_addresses w (a ∷ others) require =
    if not require
    then allow (codes "private-network enforcement disabled by explicit configuration") a
    else if any_public (a ∷ others)
    then refuse (codes "target resolves to a non-private address")
    else if all_loopback (a ∷ others)
    then allow (codes "loopback self-test") a
    else if any_untrusted w (a ∷ others)
    then refuse (
        codes
          "the Windows network route to the target is Public or cannot be verified; set that trusted LAN to Private")
    else allow (codes "trusted private LAN") a

pub check_trusted_lan : Windows → Bytes → Bool → NetworkSafetyResult
check_trusted_lan w target require = check_addresses w (resolve_target w target) require
