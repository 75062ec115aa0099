-- ===== src/Net/Discovery/Response.antt =====
-- `ParseResponse` of src/net/Mdns.cpp, and the choice of receivers at the end of `BrowseReceivers`.
-- A `std::map` is a list in the order of its keys. A read outside of the packet is `stuck`.
pub mod Packet
pub mod Steps
pub mod Bounds
pub mod Build
pub mod Names
mod Tests
use ipad_second_display.Common.{
  ℕ, zero, suc, ◌+◌, ◌*◌, min, Bool, true, false, ◌&&◌, ◌||◌, not, List, [], ◌∷◌, ◌++◌, Option,
  none, some, ◌==◌, leb, ltb, if◌then◌else◌, Bytes, codes, bytes_eq, is_empty, length, take, drop,
  byte_at, map,
}
use ipad_second_display.Common.Text.{starts_with}
use ipad_second_display.Net.Discovery.{
  DiscoveryRecord, NameResult, read, malformed, outside, out_of_fuel, read_name,
}

-- `MdnsReceiver` as constructed.
abbrev pub new_record : DiscoveryRecord
new_record = record {
  id = [];
  name = [];
  address = [];
  addresses = [];
  instance_name = [];
  host = [];
  port = 0;
  source = codes "mdns";
  ttl_seconds = 120;
  last_seen = 0;
  expires_at = 0;
  online = true;
  goodbye = false;
}

pub record HostAddress : Type 0 where
  pub addresses : List Bytes
  pub ttl : ℕ

abbrev pub new_host : HostAddress
new_host = record { addresses = []; ttl = 120 }

-- The order of `std::string`.
unfoldable pub bytes_less : Bytes → Bytes → Bool
bytes_less a [] = false
bytes_less [] (y ∷ b) = true
bytes_less (x ∷ a) (y ∷ b) = ltb x y || (x == y) && bytes_less a b

-- `entries[key]`, changed; a missing entry is made first.
unfoldable pub alter {ℓ} : {A : Type ℓ} → A → Bytes → (A → A) → List (Bytes × A) → List (Bytes × A)
unfolding bytes_less
alter fresh key f [] = (key, f fresh) ∷ []
alter fresh key f ((k, a) ∷ entries) =
    let later = alter fresh key f entries in
    if bytes_eq k key
    then (k, f a) ∷ entries
    else if bytes_less key k
    then (key, f fresh) ∷ (k, a) ∷ entries
    else (k, a) ∷ later

unfoldable pub lookup {ℓ} : {A : Type ℓ} → Bytes → List (Bytes × A) → Option A
lookup key [] = none
lookup key ((k, a) ∷ entries) =
    let rest = lookup key entries in if bytes_eq k key then some a else rest

-- The two maps of the function.
pub record Response : Type 0 where
  pub found : List (Bytes × DiscoveryRecord)
  pub hosts : List (Bytes × HostAddress)

-- A step goes on, returns early, or is stuck: it reads outside of the packet, or the model's fuel
-- ends.
pub data Step {ℓ} (A : Type ℓ) : Type ℓ where
  go : A → Step A
  returns stuck : Step A

infixl 5 ◌>>=◌
abbrev pub ◌>>=◌ {ℓ κ} : {A : Type ℓ} {B : Type κ} → Step A → (A → Step B) → Step B
go a >>= f = f a
returns >>= f = returns
stuck >>= f = stuck

-- `readUint16` and `readUint32`.
abbrev pub read_uint16 : Bytes → ℕ → Step ℕ
read_uint16 packet at_byte =
    if ltb (at_byte + 1) (length packet)
    then go (byte_at packet at_byte * 256 + byte_at packet (at_byte + 1))
    else stuck

abbrev pub read_uint32 : Bytes → ℕ → Step ℕ
read_uint32 packet at_byte =
    if ltb (at_byte + 3) (length packet)
    then go (
        ((byte_at packet at_byte * 256 + byte_at packet (at_byte + 1)) * 256
            + byte_at packet (at_byte + 2))
          * 256
        + byte_at packet (at_byte + 3))
    else stuck

-- `count` bytes of the packet, for `memcpy` and the constructor of `std::string`.
abbrev pub read_bytes : Bytes → ℕ → ℕ → Step Bytes
read_bytes packet start count =
    if leb (start + count) (length packet) then go (take count (drop start packet)) else stuck

-- A name with `count` bytes behind it, or the function returns.
abbrev pub with_room : ℕ → Bytes → NameResult → Step (ℕ × Bytes)
with_room count packet (read stop name) =
    if ltb (length packet) (stop + count) then returns else go (stop, name)
with_room count packet malformed = returns
with_room count packet outside = stuck
with_room count packet out_of_fuel = stuck

-- The loop over the questions.
unfoldable pub skip_questions : ℕ → Bytes → ℕ → Step ℕ
skip_questions zero packet pos = go pos
skip_questions (suc more) packet pos = with_room 4 packet (read_name packet pos) >>= λ (stop, name).
    skip_questions more packet (stop + 4)

-- `name.substr(0, name.find('.'))`.
unfoldable pub before_dot : Bytes → Bytes
before_dot [] = []
before_dot (c ∷ name) = let rest = before_dot name in if c == b'.' then [] else c ∷ rest

abbrev pub advertised : Bytes → ℕ → DiscoveryRecord → DiscoveryRecord
advertised instance_name ttl r = record r {
  instance_name = before_dot instance_name;
  name = before_dot instance_name;
  ttl_seconds = ttl;
  goodbye = ttl == 0;
}

abbrev pub described : Bytes → ℕ → DiscoveryRecord → DiscoveryRecord
described name ttl r = record r {
  instance_name = before_dot name;
  name = before_dot name;
  ttl_seconds = min r.ttl_seconds ttl;
  goodbye = r.goodbye || (ttl == 0);
}

abbrev pub change_found : Bytes → (DiscoveryRecord → DiscoveryRecord) → Response → Response
change_found key f s = record s { found = alter new_record key f s.found }

-- `kTypePtr`.
abbrev pub ptr_record : ℕ → Response → NameResult → Step Response
ptr_record ttl s (read stop instance_name) =
    go (change_found instance_name (advertised instance_name ttl) s)
ptr_record ttl s malformed = go s
ptr_record ttl s outside = stuck
ptr_record ttl s out_of_fuel = stuck

abbrev pub srv_host : Bytes → Response → NameResult → Step Response
srv_host name s (read stop host) = go (change_found name (λ r. record r { host = host }) s)
srv_host name s malformed = go s
srv_host name s outside = stuck
srv_host name s out_of_fuel = stuck

-- `kTypeSrv`.
unfoldable pub srv_record : Bytes → Bytes → ℕ → ℕ → ℕ → Response → Step Response
srv_record packet name ttl start data_length s =
    if ltb data_length 7
    then go s
    else (read_uint16 packet (start + 4) >>= λ port.
        srv_host name (change_found name (λ r. record (described name ttl r) { port = port }) s)
          (read_name packet (start + 6)))

abbrev pub id_entry : Bytes → Bytes → Bytes
id_entry entry id = if starts_with (codes "id=") entry then drop 3 entry else id

-- The loop over the strings of a text record, up to `stop`; `id` is the one read so far.
unfoldable pub txt_loop : ℕ → Bytes → ℕ → ℕ → Bytes → Step Bytes
txt_loop zero packet cursor stop id = stuck
txt_loop (suc fuel) packet cursor stop id =
    if ltb cursor stop
    then (read_bytes packet cursor 1 >>= λ byte.
        if ltb stop (cursor + 1 + byte_at byte 0)
        then go id
        else (read_bytes packet (cursor + 1) (byte_at byte 0) >>= λ entry.
            txt_loop fuel packet (cursor + 1 + byte_at byte 0) stop (id_entry entry id)))
    else go id

abbrev pub old_id : Bytes → Response → Bytes
old_id name s = elim (lookup name s.found) [ none ↦ [] | some r ↦ r.id ]

-- `kTypeTxt`.
unfoldable pub txt_record : Bytes → Bytes → ℕ → ℕ → ℕ → Response → Step Response
txt_record packet name ttl start data_length s =
    txt_loop (suc data_length) packet start (start + data_length) (old_id name s) >>= λ id.
    go (change_found name (λ r. record (described name ttl r) { id = id }) s)

abbrev pub add_host : Bytes → ℕ → HostAddress → HostAddress
add_host address ttl h = record { addresses = h.addresses ++ address ∷ []; ttl = min h.ttl ttl }

-- `kTypeA` and `kTypeAaaa`, for addresses of `count` bytes; `ntop` is `inet_ntop`.
unfoldable pub address_record :
    (Bytes → Bytes) → ℕ → Bytes → Bytes → ℕ → ℕ → ℕ → Response → Step Response
address_record ntop count packet name ttl start data_length s =
    if not (data_length == count)
    then go s
    else (read_bytes packet start count >>= λ address.
        go (record s { hosts = alter new_host name (add_host (ntop address) ttl) s.hosts }))
