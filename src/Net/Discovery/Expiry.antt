-- ===== src/Net/Discovery/Expiry.antt =====
-- Announcements and `Expire` in the discovery cache of src/net/Mdns.cpp.
use ipad_second_display.Common.{
  suc, zero, ℕ, ◌+◌, ◌*◌, ◌<◌, ◌≡◌, ◌∙◌, ap, inl, inr, refl, Bool, true, false, not, ◌&&◌, ◌||◌,
  Bool-cases, List, [], ◌∷◌, Option, none, some, arith, ◌==◌, leb, ltb, Bytes, bytes_eq, is_empty,
}
use ipad_second_display.Net.Discovery.{
  DiscoveryRecord, merge_one, expire_one, expire, find_id, find_by_id,
}
use ipad_second_display.Net.Discovery.Cache.{stored, is_live, find_by_id-merge_one}

-- A record that is still announced at `now`.
abbrev pub is_current : ℕ → DiscoveryRecord → Bool
is_current now r = r.online && (r.expires_at == 0 || ltb now r.expires_at)

abbrev expired : ℕ → DiscoveryRecord → DiscoveryRecord
expired now r = record r { online = is_current now r }

abbrev expired_option : ℕ → Option DiscoveryRecord → Option DiscoveryRecord
expired_option now none = none
expired_option now (some r) = some (expired now r)

expire_one_online : (now : ℕ) (r : DiscoveryRecord) → (expire_one now r).online ≡ is_current now r
unfolding expire_one
expire_one_online now r = ground arith

expire_one_lem :
    (now : ℕ) (r : DiscoveryRecord)
    → expire_one now r ≡ record r { online = (expire_one now r).online }
unfolding expire_one
expire_one_lem now r =
    elim (Bool-cases (r.online && not (r.expires_at == 0) && leb r.expires_at now)) [
      | inl lapsed ↦ rw lapsed refl
      | inr kept ↦ rw kept refl
    ]

expire_one-expired : (now : ℕ) (r : DiscoveryRecord) → expire_one now r ≡ expired now r
expire_one-expired now r =
    expire_one_lem now r ∙ ap (λ b. record r { online = b }) (expire_one_online now r)

find_id-expire :
    (rs : List DiscoveryRecord) (now : ℕ) (id : Bytes)
    → find_id (expire rs now) id ≡ expired_option now (find_id rs id)
unfolding find_id expire
find_id-expire [] now id = refl
find_id-expire (r ∷ rs) now id = elim (Bool-cases (bytes_eq r.id id)) [
  | inl here ↦ rw (expire_one-expired now r, here) refl
  | inr there ↦ rw (expire_one-expired now r, there) (find_id-expire rs now id)
]

find_by_id-expire :
    (rs : List DiscoveryRecord) (now : ℕ) (id : Bytes)
    → find_by_id (expire rs now) id ≡ expired_option now (find_by_id rs id)
unfolding find_by_id
find_by_id-expire rs now id = elim (Bool-cases (is_empty id)) [
  | inl nameless ↦ rw nameless refl
  | inr named ↦ rw named (find_id-expire rs now id)
]

product_positive : (a b : ℕ) → 0 < a → 0 < b → 0 < a * b
product_positive zero b h k = absurd (omega arith)
product_positive (suc a) b h k = omega arith

lease-online :
    (ticks now later : ℕ) (incoming : DiscoveryRecord) (old : Option DiscoveryRecord)
    → is_live incoming ≡ true
    → 0 < ticks
    → is_current later (stored ticks now incoming old)
      ≡ ltb later (now + incoming.ttl_seconds * ticks)
lease-online ticks now later incoming old live h =
    let positive = product_positive incoming.ttl_seconds ticks (ground (arith, live)) h in
    ground (arith, positive)

-- When `Expire` runs at some time after a live announcement with an id, on a clock that has ticks, the announced record is online exactly
-- until the announced time to live is over.
pub find_by_id-expire-merge_one :
    (ticks now later : ℕ) (rs : List DiscoveryRecord) (incoming : DiscoveryRecord)
    → is_empty incoming.id ≡ false
    → is_live incoming ≡ true
    → 0 < ticks
    → find_by_id (expire (merge_one ticks now rs incoming) later) incoming.id
      ≡ some (record (stored ticks now incoming (find_by_id rs incoming.id)) {
        online = ltb later (now + incoming.ttl_seconds * ticks);
      })
find_by_id-expire-merge_one ticks now later rs incoming named live h =
    find_by_id-expire (merge_one ticks now rs incoming) later incoming.id
    ∙ ap (expired_option later) (find_by_id-merge_one ticks now rs incoming named live)
    ∙ ap (λ b. some (record (stored ticks now incoming (find_by_id rs incoming.id)) { online = b }))
        (lease-online ticks now later incoming (find_by_id rs incoming.id) live h)
