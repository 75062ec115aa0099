-- ===== src/Net/Discovery.antt =====
-- src/net/Mdns.h and Mdns.cpp: the cache of discovered receivers. A time is a count of ticks since the
-- clock's epoch, 0 for the value `time_point{}`; `ticks` is how many make a second.
pub mod Cache
pub mod Ids
pub mod Expiry
pub mod Names
pub mod Response
mod Tests
use ipad_second_display.Common.{
  ℕ, zero, suc, ◌+◌, ◌*◌, ◌-◌, ◌/◌, ◌%◌, ◌≡◌, Bool, true, false, ◌&&◌, ◌||◌, not, List, [], ◌∷◌,
  ◌++◌, Option, none, some, ◌==◌, leb, ltb, if◌then◌else◌, Bytes, bytes_eq, is_empty, length,
  get_elem?, take, drop, byte_at,
}

pub record DiscoveryRecord : Type 0 where
  pub id : Bytes
  pub name : Bytes
  pub address : Bytes
  pub addresses : List Bytes
  pub instance_name : Bytes
  pub host : Bytes
  pub port : ℕ
  pub source : Bytes
  pub ttl_seconds : ℕ
  pub last_seen : ℕ
  pub expires_at : ℕ
  pub online : Bool
  pub goodbye : Bool

-- The lambda `matches`.
pub matches : DiscoveryRecord → DiscoveryRecord → Bool
matches incoming existing =
    not (is_empty incoming.id) && bytes_eq existing.id incoming.id
    || is_empty incoming.id
      && not (is_empty incoming.instance_name)
      && bytes_eq existing.instance_name incoming.instance_name

-- What a goodbye leaves of a known record.
pub say_goodbye : ℕ → DiscoveryRecord → DiscoveryRecord
say_goodbye now r = record r { online = false; goodbye = true; last_seen = now; expires_at = now }

pub contains_address : List Bytes → Bytes → Bool
contains_address [] a = false
contains_address (x ∷ xs) a = bytes_eq x a || contains_address xs a

-- The loop that keeps the older addresses behind the new ones.
pub add_addresses : List Bytes → List Bytes → List Bytes
add_addresses [] known = known
add_addresses (a ∷ old) known =
    add_addresses old (if contains_address known a then known else known ++ a ∷ [])

-- The incoming record as it is stored; its time to live is not 0 here.
pub refreshed : ℕ → ℕ → DiscoveryRecord → DiscoveryRecord
refreshed ticks now incoming = record incoming {
  online = true;
  goodbye = false;
  last_seen = now;
  expires_at = now + (if incoming.ttl_seconds == 0 then 1 else incoming.ttl_seconds) * ticks;
  addresses =
      if is_empty incoming.addresses && not (is_empty incoming.address)
      then incoming.address ∷ []
      else incoming.addresses;
}

pub merged_with : DiscoveryRecord → DiscoveryRecord → DiscoveryRecord
merged_with incoming existing = record incoming {
  addresses = add_addresses existing.addresses incoming.addresses;
}

-- The first match is changed and nothing else.
pub change_first :
    (DiscoveryRecord → Bool)
    → (DiscoveryRecord → DiscoveryRecord)
    → List DiscoveryRecord
    → List DiscoveryRecord
change_first test f [] = []
change_first test f (r ∷ rs) =
    let rest = change_first test f rs in if test r then f r ∷ rs else r ∷ rest

-- `std::find_if`, as whether there is one.
pub any_match : (DiscoveryRecord → Bool) → List DiscoveryRecord → Bool
any_match test [] = false
any_match test (r ∷ rs) = test r || any_match test rs

pub merge_one : ℕ → ℕ → List DiscoveryRecord → DiscoveryRecord → List DiscoveryRecord
merge_one ticks now records incoming =
    if incoming.goodbye || incoming.ttl_seconds == 0
    then change_first (matches incoming) (say_goodbye now) records
    else if any_match (matches incoming) records
    then change_first (matches incoming) (merged_with (refreshed ticks now incoming)) records
    else records ++ refreshed ticks now incoming ∷ []

-- `Merge`.
pub merge : ℕ → List DiscoveryRecord → List DiscoveryRecord → ℕ → List DiscoveryRecord
merge ticks records [] now = records
merge ticks records (incoming ∷ more) now =
    merge ticks (merge_one ticks now records incoming) more now

pub expire_one : ℕ → DiscoveryRecord → DiscoveryRecord
expire_one now r =
    if r.online && not (r.expires_at == 0) && leb r.expires_at now
    then record r { online = false }
    else r

-- `Expire`.
pub expire : List DiscoveryRecord → ℕ → List DiscoveryRecord
expire [] now = []
expire (r ∷ rs) now = expire_one now r ∷ expire rs now

pub find_id : List DiscoveryRecord → Bytes → Option DiscoveryRecord
find_id [] id = none
find_id (r ∷ rs) id = let rest = find_id rs id in if bytes_eq r.id id then some r else rest

-- `FindById`.
pub find_by_id : List DiscoveryRecord → Bytes → Option DiscoveryRecord
find_by_id records id = if is_empty id then none else find_id records id

-- What `ReadName` returns; `outside` is a read outside of the packet, and `out_of_fuel` the end of the
-- model's fuel.
pub data NameResult : Type 0 where
  read : ℕ → Bytes → NameResult
  malformed outside out_of_fuel : NameResult

-- What follows the read of `count` bytes from `start`.
abbrev pub within : Bytes → ℕ → ℕ → NameResult → NameResult
within packet start count rest = if leb (start + count) (length packet) then rest else outside

pub append_label : Bytes → Bytes → Bytes
append_label out label = (if is_empty out then out else out ++ 46 ∷ []) ++ label

-- The loop of `ReadName`. `length & 0xC0` is `0xC0` where the byte is 192 or more.
pub read_name_loop : ℕ → Bytes → ℕ → ℕ → ℕ → Bytes → NameResult
read_name_loop zero packet cursor after hops out = out_of_fuel
read_name_loop (suc fuel) packet cursor after hops out =
    let size = byte_at packet cursor in
    let jump =
      read_name_loop fuel packet (size % 64 * 256 + byte_at packet (cursor + 1))
        (if after == 0 then cursor + 2 else after) (hops + 1) out in
    let next =
      read_name_loop fuel packet (cursor + 1 + size) after hops
        (append_label out (take size (drop (cursor + 1) packet))) in
    if not (ltb cursor (length packet))
    then malformed
    else within packet cursor 1 (
        if size == 0
        then read (if not (after == 0) then after else cursor + 1) out
        else if leb 192 size
        then if leb (length packet) (cursor + 1) || ltb 16 (hops + 1)
          then malformed
          else within packet (cursor + 1) 1 jump
        else if ltb (length packet) (cursor + 1 + size)
        then malformed
        else within packet (cursor + 1) size next)

-- Seventeen walks over the buffer at most.
abbrev pub name_fuel : Bytes → ℕ
name_fuel packet = 18 * suc (length packet)

-- `ReadName`.
pub read_name : Bytes → ℕ → NameResult
read_name packet pos = read_name_loop (name_fuel packet) packet pos 0 0 []
