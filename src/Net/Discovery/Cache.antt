-- ===== src/Net/Discovery/Cache.antt =====
-- What the discovery cache keeps.
use ipad_second_display.Common.{
  ℕ, ◌+◌, ◌*◌, ◌≡◌, ◌∙◌, sym, ap, append-nil, append_assoc, inl, inr, refl, Bool, true, false, not,
  ◌||◌, Bool-cases, List, [], ◌∷◌, ◌++◌, Option, none, some, arith, ◌==◌, if◌then◌else◌, Bytes,
  bytes_eq, bytes_eq_iff, is_empty,
}
use ipad_second_display.Net.Discovery.{
  DiscoveryRecord, matches, refreshed, merged_with, contains_address, add_addresses, change_first,
  any_match, merge_one, find_id, find_by_id,
}

abbrev pub is_in : List Bytes → Bytes → Bool
is_in [] a = false
is_in (x ∷ xs) a = if bytes_eq x a then true else is_in xs a

-- The addresses that an announcement gives: its list, or its one address where the list is empty.
abbrev pub announced : DiscoveryRecord → List Bytes
announced r =
    if is_empty r.addresses
    then (if is_empty r.address then [] else r.address ∷ [])
    else r.addresses

-- The older addresses that `known` lacks, in their order and each once.
pub lacking : List Bytes → List Bytes → List Bytes
lacking known [] = []
lacking known (a ∷ old) =
    if is_in known a then lacking known old else a ∷ lacking (known ++ a ∷ []) old

abbrev pub addresses_of : Option DiscoveryRecord → List Bytes
addresses_of none = []
addresses_of (some r) = r.addresses

-- The record that a live announcement leaves, given the one that the cache had: the announced one,
-- online, with a lease of its time to live from `now`, and with the announced addresses in front of
-- the older ones.
abbrev pub stored : ℕ → ℕ → DiscoveryRecord → Option DiscoveryRecord → DiscoveryRecord
stored ticks now incoming old = record incoming {
  online = true;
  goodbye = false;
  last_seen = now;
  expires_at = now + incoming.ttl_seconds * ticks;
  addresses = announced incoming ++ lacking (announced incoming) (addresses_of old);
}

contains_address_lem : (xs : List Bytes) (a : Bytes) → contains_address xs a ≡ is_in xs a
unfolding contains_address
contains_address_lem [] a = refl
contains_address_lem (x ∷ xs) a = elim (Bool-cases (bytes_eq x a)) [
  | inl here ↦ rw here refl
  | inr there ↦ rw there (contains_address_lem xs a)
]

add_addresses_lem : (old known : List Bytes) → add_addresses old known ≡ known ++ lacking known old
unfolding add_addresses lacking
add_addresses_lem [] known = sym (append-nil known)
add_addresses_lem (a ∷ old) known = elim (Bool-cases (is_in known a)) [
  | inl here ↦ rw (contains_address_lem known a, here) (add_addresses_lem old known)
  | inr there ↦
      rw (contains_address_lem known a, there)
        (add_addresses_lem old (known ++ a ∷ []) ∙ append_assoc known (a ∷ []) _)
]

-- An announcement that is no goodbye.
abbrev pub is_live : DiscoveryRecord → Bool
is_live incoming = not (incoming.goodbye || incoming.ttl_seconds == 0)

matches_id :
    (incoming r : DiscoveryRecord)
    → is_empty incoming.id ≡ false
    → matches incoming r ≡ bytes_eq r.id incoming.id
unfolding matches
matches_id incoming r h = ground arith

bytes_eq_refl : (a : Bytes) → bytes_eq a a ≡ true
bytes_eq_refl a = (bytes_eq_iff a a).1 refl

find_id-change_first :
    (incoming : DiscoveryRecord) (f : DiscoveryRecord → DiscoveryRecord)
    → is_empty incoming.id ≡ false
    → ((r : DiscoveryRecord) → (f r).id ≡ incoming.id)
    → (rs : List DiscoveryRecord) → any_match (matches incoming) rs ≡ true
    → (old : DiscoveryRecord) × (find_id rs incoming.id ≡ some old)
      × (find_id (change_first (matches incoming) f rs) incoming.id ≡ some (f old))
unfolding any_match find_id change_first
find_id-change_first incoming f h same [] m = absurd (ground (arith, m))
find_id-change_first incoming f h same (r ∷ rs) m =
    let e = matches_id incoming r h in
    elim (Bool-cases (bytes_eq r.id incoming.id)) [
      | inl here ↦
          (r, ground (arith, here), ground (arith, e, here, same r, bytes_eq_refl incoming.id))
      | inr there ↦
          let (old, found, after) =
            find_id-change_first incoming f h same rs (ground (arith, e, there, m)) in
          (old, ground (arith, there, found), ground (arith, e, there, after))
    ]

pub find_id-append_none :
    (rs : List DiscoveryRecord) (r : DiscoveryRecord) (id : Bytes)
    → find_id rs id ≡ none
    → find_id (rs ++ r ∷ []) id ≡ (if bytes_eq r.id id then some r else none)
unfolding find_id
find_id-append_none [] r id h = refl
find_id-append_none (x ∷ rs) r id h = elim (Bool-cases (bytes_eq x.id id)) [
  | inl here ↦ ground (arith, h, here)
  | inr there ↦ ground (arith, there, find_id-append_none rs r id (ground (arith, h, there)))
]

pub find_id-any_match :
    (incoming : DiscoveryRecord) (rs : List DiscoveryRecord)
    → is_empty incoming.id ≡ false
    → any_match (matches incoming) rs ≡ false
    → find_id rs incoming.id ≡ none
unfolding any_match find_id
find_id-any_match incoming [] h m = refl
find_id-any_match incoming (r ∷ rs) h m =
    ground (arith, m, matches_id incoming r h, find_id-any_match incoming rs h)

-- What the code stores is `stored`.
abbrev merged_option : DiscoveryRecord → Option DiscoveryRecord → DiscoveryRecord
merged_option incoming none = incoming
merged_option incoming (some old) = merged_with incoming old

refreshed_addresses :
    (ticks now : ℕ) (incoming : DiscoveryRecord)
    → (refreshed ticks now incoming).addresses ≡ announced incoming
unfolding refreshed
refreshed_addresses ticks now incoming = ground arith

refreshed_expiry :
    (ticks now : ℕ) (incoming : DiscoveryRecord)
    → is_live incoming ≡ true
    → (refreshed ticks now incoming).expires_at ≡ now + incoming.ttl_seconds * ticks
unfolding refreshed
refreshed_expiry ticks now incoming live =
    let lasting : (incoming.ttl_seconds == 0) ≡ false = ground (arith, live) in rw lasting refl

merged_option-stored :
    (ticks now : ℕ) (incoming : DiscoveryRecord) (old : Option DiscoveryRecord)
    → is_live incoming ≡ true
    → merged_option (refreshed ticks now incoming) old ≡ stored ticks now incoming old
unfolding refreshed merged_with lacking
merged_option-stored ticks now incoming none live =
    let addresses =
      refreshed_addresses ticks now incoming ∙ sym (append-nil (announced incoming)) in
    let expiry = refreshed_expiry ticks now incoming live in
    λ i. record (refreshed ticks now incoming) { expires_at = expiry i; addresses = addresses i }
merged_option-stored ticks now incoming (some old) live =
    let new = refreshed ticks now incoming in
    let addresses =
      ap (add_addresses old.addresses) (refreshed_addresses ticks now incoming)
      ∙ add_addresses_lem old.addresses (announced incoming) in
    let expiry = refreshed_expiry ticks now incoming live in
    λ i. record new { expires_at = expiry i; addresses = addresses i }

find_by_id-merged :
    (ticks now : ℕ) (rs : List DiscoveryRecord) (incoming : DiscoveryRecord)
    → is_empty incoming.id ≡ false
    → is_live incoming ≡ true
    → find_by_id (merge_one ticks now rs incoming) incoming.id
      ≡ some (merged_option (refreshed ticks now incoming) (find_by_id rs incoming.id))
unfolding find_by_id merge_one merged_with refreshed
find_by_id-merged ticks now rs incoming named live =
    elim (Bool-cases (any_match (matches incoming) rs)) [
      | inl known ↦
          let (old, found, after) =
            find_id-change_first incoming (merged_with (refreshed ticks now incoming)) named
              (λ r. refl) rs known in
          ground (arith, live, known, named, found, after)
      | inr new ↦
          let absent = find_id-any_match incoming rs named new in
          let appended = find_id-append_none rs (refreshed ticks now incoming) incoming.id absent in
          ground (arith, live, new, named, absent, appended, bytes_eq_refl incoming.id)
    ]

-- After a live announcement with an id the cache has the announced record under its id: online and
-- with no goodbye, seen now, with a lease of its time to live from now, and with the announced
-- addresses, behind them those of the record that it replaces which are not among them, in order.
pub find_by_id-merge_one :
    (ticks now : ℕ) (rs : List DiscoveryRecord) (incoming : DiscoveryRecord)
    → is_empty incoming.id ≡ false
    → is_live incoming ≡ true
    → find_by_id (merge_one ticks now rs incoming) incoming.id
      ≡ some (stored ticks now incoming (find_by_id rs incoming.id))
find_by_id-merge_one ticks now rs incoming named live =
    find_by_id-merged ticks now rs incoming named live
    ∙ ap some (merged_option-stored ticks now incoming (find_by_id rs incoming.id) live)
