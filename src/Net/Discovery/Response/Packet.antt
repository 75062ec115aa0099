-- ===== src/Net/Discovery/Response/Packet.antt =====
-- The walk of `ParseResponse` in src/net/Mdns.cpp over the records of a packet, and what
-- `BrowseReceivers` returns of the receivers found.
use ipad_second_display.Common.{
  ℕ, zero, suc, ◌+◌, ◌*◌, min, Bool, false, ◌||◌, not, List, [], ◌∷◌, Option, none, some, ◌==◌, ltb,
  if◌then◌else◌, Bytes, is_empty, length,
}
use ipad_second_display.Net.Discovery.{DiscoveryRecord, read_name}
use ipad_second_display.Net.Discovery.Response.{
  HostAddress, Response, Step, go, returns, stuck, ◌>>=◌, lookup, read_uint16, read_uint32,
  with_room, skip_questions, ptr_record, srv_record, txt_record, address_record,
}

-- `inet_ntop` for the two kinds of address.
pub record Ntop : Type 0 where
  pub ipv4 : Bytes → Bytes
  pub ipv6 : Bytes → Bytes

-- The maps behind the last record, those with which the function returns early, or a stuck walk.
pub data Walk : Type 0 where
  finished cut_short : Response → Walk
  lost : Walk

abbrev pub continue_walk : Step (ℕ × Response) → Response → (ℕ × Response → Walk) → Walk
continue_walk (go next) s rest = rest next
continue_walk returns s rest = cut_short s
continue_walk stuck s rest = lost

unfoldable pub has_colon : Bytes → Bool
has_colon [] = false
has_colon (c ∷ text) = c == b':' || has_colon text

-- The value that has no colon, or else the first one.
unfoldable pub first_ipv4 : List Bytes → Option Bytes
unfolding has_colon
first_ipv4 [] = none
first_ipv4 (a ∷ rest) = let later = first_ipv4 rest in if not (has_colon a) then some a else later

abbrev pub preferred : List Bytes → Bytes
preferred [] = []
preferred (a ∷ rest) = elim (first_ipv4 (a ∷ rest)) [ none ↦ a | some b ↦ b ]

abbrev pub with_host : Option HostAddress → DiscoveryRecord → DiscoveryRecord
with_host none r = r
with_host (some h) r = record r {
  addresses = h.addresses;
  address = preferred h.addresses;
  ttl_seconds = min r.ttl_seconds h.ttl;
  goodbye = r.goodbye || (h.ttl == 0);
}

abbrev pub set_online : DiscoveryRecord → DiscoveryRecord
set_online r = record r { online = not r.goodbye }

-- The loop that matches the receivers with the hosts.
unfoldable pub match_hosts :
    List (Bytes × HostAddress) → List (Bytes × DiscoveryRecord) → List (Bytes × DiscoveryRecord)
match_hosts hosts [] = []
match_hosts hosts ((key, r) ∷ found) =
    (key, set_online (with_host (lookup r.host hosts) r)) ∷ match_hosts hosts found

-- What the function leaves in `found`; `none` is a stuck walk.
abbrev pub found_of : Walk → Option (List (Bytes × DiscoveryRecord))
found_of (finished s) = some (match_hosts s.hosts s.found)
found_of (cut_short s) = some s.found
found_of lost = none

-- The end of `BrowseReceivers`: the receivers with an address, and the goodbyes.
unfoldable pub receivers_of : ℕ → ℕ → List (Bytes × DiscoveryRecord) → List DiscoveryRecord
receivers_of ticks now [] = []
receivers_of ticks now ((key, r) ∷ found) =
    let rest = receivers_of ticks now found in
    if not (is_empty r.address) || r.goodbye
    then record r { last_seen = now; expires_at = now + r.ttl_seconds * ticks } ∷ rest
    else rest

module _ (ntop : Ntop) where
  -- The `switch` over the record's type.
  unfoldable pub handle_record : Bytes → Bytes → ℕ → ℕ → ℕ → ℕ → Response → Step Response
  handle_record packet name type ttl start data_length s =
      if type == 12
      then ptr_record ttl s (read_name packet start)
      else if type == 33
      then srv_record packet name ttl start data_length s
      else if type == 16
      then txt_record packet name ttl start data_length s
      else if type == 1
      then address_record ntop.ipv4 4 packet name ttl start data_length s
      else if type == 28
      then address_record ntop.ipv6 16 packet name ttl start data_length s
      else go s

  -- One record, from its name at `pos`; with the position behind it. Where the function returns, the
  -- second map is lost and the first is what it is then.
  unfoldable pub read_record : Bytes → ℕ → Response → Step (ℕ × Response)
  unfolding handle_record
  read_record packet pos s = with_room 10 packet (read_name packet pos) >>= λ (at_type, name).
      read_uint16 packet at_type >>= λ type. read_uint32 packet (at_type + 4) >>= λ ttl.
      read_uint16 packet (at_type + 8) >>= λ data_length.
      if ltb (length packet) (at_type + 10 + data_length)
      then returns
      else (handle_record packet name type ttl (at_type + 10) data_length s >>= λ s.
          go (at_type + 10 + data_length, s))

  -- The loop over the records.
  unfoldable pub read_records : ℕ → Bytes → ℕ → Response → Walk
  unfolding read_record
  read_records zero packet pos s = finished s
  read_records (suc more) packet pos s =
      continue_walk (read_record packet pos s) s (λ (next, s'). read_records more packet next s')

  abbrev pub after_questions : ℕ → Bytes → Response → Step ℕ → Walk
  after_questions records packet s (go pos) = read_records records packet pos s
  after_questions records packet s returns = cut_short s
  after_questions records packet s stuck = lost

  -- The counts of the header.
  abbrev pub read_counts : Bytes → Step (ℕ × ℕ)
  read_counts packet = read_uint16 packet 4 >>= λ questions. read_uint16 packet 6 >>= λ answers.
      read_uint16 packet 8 >>= λ authorities.
      read_uint16 packet 10 >>= λ additional. go (questions, answers + authorities + additional)

  abbrev pub after_counts : Bytes → Response → Step (ℕ × ℕ) → Walk
  after_counts packet s (go (questions, records)) =
      after_questions records packet s (skip_questions questions packet 12)
  after_counts packet s returns = cut_short s
  after_counts packet s stuck = lost

  -- `ParseResponse`.
  unfoldable pub parse_response :
      Bytes → List (Bytes × DiscoveryRecord) → Option (List (Bytes × DiscoveryRecord))
  unfolding read_records match_hosts
  parse_response packet found =
      if ltb (length packet) 12
      then some found
      else found_of
          (after_counts packet (record { found = found; hosts = [] }) (read_counts packet))
