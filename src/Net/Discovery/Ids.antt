-- ===== src/Net/Discovery/Ids.antt =====
-- The ids of the records in the discovery cache of src/net/Mdns.cpp.
use ipad_second_display.Common.{
  ℕ, ◌≡◌, ◌⊎◌, inl, inr, refl, true, false, ◌||◌, Bool-cases, List, [], ◌∷◌, ◌++◌, none, arith,
  ◌==◌, Bytes, bytes_eq, bytes_eq_iff, is_empty,
}
use ipad_second_display.Net.Discovery.{
  DiscoveryRecord, matches, say_goodbye, refreshed, merged_with, change_first, any_match, merge_one,
  merge, find_id,
}
use ipad_second_display.Net.Discovery.Cache.{find_id-append_none, find_id-any_match}

-- No two records have one id, the empty id aside.
abbrev pub UniqueIds : List DiscoveryRecord → Type 0
UniqueIds [] = Unit {0}
UniqueIds (r ∷ rs) = (is_empty r.id ≡ false → find_id rs r.id ≡ none) × UniqueIds rs

-- A change that keeps an id or empties it brings no id in.
KeepsIds : DiscoveryRecord → (DiscoveryRecord → DiscoveryRecord) → Type 0
KeepsIds incoming f =
    (r : DiscoveryRecord)
    → matches incoming r ≡ true
    → ((f r).id ≡ r.id) ⊎ (is_empty (f r).id ≡ true)

unnamed : (a b : Bytes) → is_empty a ≡ true → is_empty b ≡ false → bytes_eq a b ≡ false
unfolding bytes_eq
unnamed [] (x ∷ b) e h = refl
unnamed [] [] e h = ground (arith, h)
unnamed (x ∷ a) b e h = ground (arith, e)

find_id_absent-change_first :
    (incoming : DiscoveryRecord) (f : DiscoveryRecord → DiscoveryRecord) (id : Bytes)
    → KeepsIds incoming f
    → is_empty id ≡ false
    → (rs : List DiscoveryRecord) → find_id rs id ≡ none
    → find_id (change_first (matches incoming) f rs) id ≡ none
unfolding find_id change_first KeepsIds
find_id_absent-change_first incoming f id keeps h [] e = refl
find_id_absent-change_first incoming f id keeps h (r ∷ rs) e =
    let rest = find_id_absent-change_first incoming f id keeps h rs in
    elim (Bool-cases (bytes_eq r.id id)) [
      | inl here ↦ absurd (ground (arith, here, e))
      | inr there ↦ elim (Bool-cases (matches incoming r)) [
        | inr other ↦ ground (arith, rest, e, there, other)
        | inl same ↦ elim (keeps r same) [
          | inl kept ↦ ground (arith, e, there, same, kept)
          | inr emptied ↦ ground (arith, e, there, same, unnamed (f r).id id emptied h)
        ]
      ]
    ]

change_first-UniqueIds :
    (incoming : DiscoveryRecord) (f : DiscoveryRecord → DiscoveryRecord)
    → KeepsIds incoming f
    → (rs : List DiscoveryRecord) → UniqueIds rs
    → UniqueIds (change_first (matches incoming) f rs)
unfolding change_first KeepsIds
change_first-UniqueIds incoming f keeps [] u = tt
change_first-UniqueIds incoming f keeps (r ∷ rs) u = elim (Bool-cases (matches incoming r)) [
  | inr other ↦ rw other (
    λ named. find_id_absent-change_first incoming f r.id keeps named rs (u.0 named),
    change_first-UniqueIds incoming f keeps rs u.1,
  )
  | inl same ↦ rw same (
    λ named. elim (keeps r same) [
      | inl kept ↦ ground (arith, u.0, kept, named)
      | inr emptied ↦ absurd (ground (arith, emptied, named))
    ],
    u.1,
  )
]

concat-UniqueIds :
    (rs : List DiscoveryRecord) (r : DiscoveryRecord)
    → (is_empty r.id ≡ false → find_id rs r.id ≡ none)
    → UniqueIds rs
    → UniqueIds (rs ++ r ∷ [])
unfolding find_id
concat-UniqueIds [] r new u = (λ h. refl, tt)
concat-UniqueIds (x ∷ rs) r new u = (
  λ named. ground (
    arith,
    find_id-append_none rs r x.id (u.0 named),
    bytes_eq_iff x.id r.id,
    bytes_eq_iff r.id x.id,
    new,
  ),
  concat-UniqueIds rs r (λ named. ground (arith, new named)) u.1,
)

merged_with-KeepsIds :
    (ticks now : ℕ) (incoming : DiscoveryRecord)
    → KeepsIds incoming (merged_with (refreshed ticks now incoming))
unfolding KeepsIds merged_with refreshed matches
merged_with-KeepsIds ticks now incoming r m = elim (Bool-cases (is_empty incoming.id)) [
  | inl e ↦ inr e
  | inr e ↦ inl (ground (arith, m, e, bytes_eq_iff r.id incoming.id))
]

merge_one-UniqueIds :
    (ticks now : ℕ) (rs : List DiscoveryRecord) (incoming : DiscoveryRecord)
    → UniqueIds rs
    → UniqueIds (merge_one ticks now rs incoming)
unfolding merge_one refreshed say_goodbye KeepsIds
merge_one-UniqueIds ticks now rs incoming u =
    elim (Bool-cases (incoming.goodbye || incoming.ttl_seconds == 0)) [
      | inl leaves ↦
          rw leaves (change_first-UniqueIds incoming (say_goodbye now) (λ r m. inl refl) rs u)
      | inr live ↦ elim (Bool-cases (any_match (matches incoming) rs)) [
        | inl known ↦
            rw (live, known)
              (change_first-UniqueIds incoming (merged_with (refreshed ticks now incoming))
                (merged_with-KeepsIds ticks now incoming) rs u)
        | inr new ↦
            rw (live, new)
              (concat-UniqueIds rs (refreshed ticks now incoming)
                (λ named. find_id-any_match incoming rs named new) u)
      ]
    ]

-- However many announcements and goodbyes are merged into a cache of which it holds, no two records of the cache share an id.
pub merge-UniqueIds :
    (ticks now : ℕ) (more rs : List DiscoveryRecord)
    → UniqueIds rs
    → UniqueIds (merge ticks rs more now)
unfolding merge
merge-UniqueIds ticks now [] rs u = u
merge-UniqueIds ticks now (r ∷ more) rs u =
    merge-UniqueIds ticks now more (merge_one ticks now rs r) (merge_one-UniqueIds ticks now rs r u)
