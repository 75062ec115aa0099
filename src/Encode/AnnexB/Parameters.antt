-- ===== src/Encode/AnnexB/Parameters.antt =====
-- The SPS/PPS cache over a whole stream of access units.
use ipad_second_display.Common.{
  ℕ, ◌≡◌, refl, ◌⊎◌, ◌≢◌, Option-cases, subst, inl, inr, Bool, true, false, ◌&&◌, ◌||◌, Option,
  none, some, List, [], ◌∷◌, ◌++◌, arith, ◌==◌, Bool-cases,
}
use ipad_second_display.Encode.AnnexB.{
  NalUnit, nal_type_sps, nal_type_pps, SpsPpsCache, note_unit, remember, before_idr, has_type,
  with_cached, fix_up, ensure_parameter_sets,
}

abbrev pub empty_cache : SpsPpsCache
empty_cache = record { sps = none; pps = none }

-- The cache after the access units of a stream, each through `EnsureParameterSets`.
pub feed : SpsPpsCache → List (List NalUnit) → SpsPpsCache
feed c [] = c
feed c (unit ∷ units) = feed (ensure_parameter_sets c unit).0 units

abbrev HasType : ℕ → Option NalUnit → Type 0
HasType t none = Unit {0}
HasType t (some n) = n.type ≡ t

-- What is cached has the type that it is cached as.
pub record IsTyped (c : SpsPpsCache) : Type 0 where
  pub sps_type : HasType nal_type_sps c.sps
  pub pps_type : HasType nal_type_pps c.pps

abbrev pub is_some : Option NalUnit → Bool
is_some none = false
is_some (some n) = true

note_unit-IsTyped : (c : SpsPpsCache) (n : NalUnit) → IsTyped c → IsTyped (note_unit c n)
unfolding note_unit
note_unit-IsTyped c n t = ground arith

remember-IsTyped : (ns : List NalUnit) (c : SpsPpsCache) → IsTyped c → IsTyped (remember c ns)
unfolding remember
remember-IsTyped [] c t = t
remember-IsTyped (n ∷ ns) c t = remember-IsTyped ns (note_unit c n) (note_unit-IsTyped c n t)

feed-IsTyped : (units : List (List NalUnit)) (c : SpsPpsCache) → IsTyped c → IsTyped (feed c units)
unfolding feed ensure_parameter_sets
feed-IsTyped [] c t = t
feed-IsTyped (u ∷ units) c t = feed-IsTyped units _ (remember-IsTyped u c t)

-- An SPS among the units, or one cached before, is cached after; so for a PPS.
note_unit_keeps :
    (c : SpsPpsCache) (n : NalUnit)
    → (is_some (note_unit c n).sps ≡ n.type == nal_type_sps || is_some c.sps)
      × (is_some (note_unit c n).pps ≡ n.type == nal_type_pps || is_some c.pps)
unfolding note_unit
note_unit_keeps c n = ground arith

remember_keeps :
    (ns : List NalUnit) (c : SpsPpsCache)
    → (is_some (remember c ns).sps ≡ has_type nal_type_sps ns || is_some c.sps)
      × (is_some (remember c ns).pps ≡ has_type nal_type_pps ns || is_some c.pps)
unfolding remember has_type
remember_keeps [] c = (refl, refl)
remember_keeps (n ∷ ns) c = ground (arith, remember_keeps ns (note_unit c n), note_unit_keeps c n)

-- Some access unit of the stream has a unit of this type.
unfoldable pub any_has_type : ℕ → List (List NalUnit) → Bool
any_has_type t [] = false
any_has_type t (u ∷ units) = has_type t u || any_has_type t units

-- An access unit whose first slice of an IDR picture stands behind an SPS and a PPS.
pub record IsDecodable (out : List NalUnit) : Type 0 where
  pub before : List NalUnit
  pub splits : before_idr out ≡ some before
  pub sps_first : has_type nal_type_sps before ≡ true
  pub pps_first : has_type nal_type_pps before ≡ true

with_cached-IsDecodable :
    (ns before : List NalUnit) (s p : Option NalUnit)
    → before_idr ns ≡ some before
    → HasType nal_type_sps s
    → HasType nal_type_pps p
    → is_some s ≡ true
    → is_some p ≡ true
    → IsDecodable (with_cached (record { sps = s; pps = p }) ns)
unfolding with_cached before_idr has_type
with_cached-IsDecodable ns before none p e ts tp hs hp = cc
with_cached-IsDecodable ns before (some s) none e ts tp hs hp = cc
with_cached-IsDecodable ns before (some s) (some p) e ts tp hs hp = record {
  before = s ∷ p ∷ before;
  splits = ground arith;
  sps_first = ground arith;
  pps_first = ground arith;
}

fix_up-IsDecodable :
    (c : SpsPpsCache) (ns before : List NalUnit)
    → before_idr ns ≡ some before
    → IsTyped c
    → is_some c.sps ≡ true
    → is_some c.pps ≡ true
    → IsDecodable (fix_up c ns)
unfolding fix_up
fix_up-IsDecodable c ns before e t hs hp =
    elim (Bool-cases (has_type nal_type_sps before && has_type nal_type_pps before)) [
      | inl own ↦
          rw (fix_up, e, own)
            (record {
              before = before;
              splits = e;
              sps_first = ground arith;
              pps_first = ground arith;
            })
      | inr lacks ↦
          rw (fix_up, e, lacks)
            (with_cached-IsDecodable ns before c.sps c.pps e t.sps_type t.pps_type hs hp)
    ]

feed_keeps :
    (units : List (List NalUnit)) (c : SpsPpsCache)
    → (is_some (feed c units).sps ≡ any_has_type nal_type_sps units || is_some c.sps)
      × (is_some (feed c units).pps ≡ any_has_type nal_type_pps units || is_some c.pps)
unfolding feed ensure_parameter_sets any_has_type
feed_keeps [] c = (refl, refl)
feed_keeps (u ∷ units) c = ground (arith, feed_keeps units (remember c u), remember_keeps u c)

-- The output is the input, or, where there is an IDR slice, the input behind two units.
abbrev pub Extends : List NalUnit → List NalUnit → Type 0
Extends ns out =
    (out ≡ ns)
    ⊎ ((before_idr ns ≢ none)
        × ((s : NalUnit) × (p : NalUnit) × (s.type ≡ nal_type_sps)
            × (p.type ≡ nal_type_pps)
            × (out ≡ s ∷ p ∷ ns)))

with_cached-Extends :
    (s p : Option NalUnit) (ns : List NalUnit)
    → before_idr ns ≢ none
    → HasType nal_type_sps s
    → HasType nal_type_pps p
    → Extends ns (with_cached (record { sps = s; pps = p }) ns)
unfolding with_cached
with_cached-Extends none p ns h ts tp = inl refl
with_cached-Extends (some s) none ns h ts tp = inl refl
with_cached-Extends (some s) (some p) ns h ts tp = inr (h, (s, p, ts, tp, refl))

fix_up-Extends : (c : SpsPpsCache) (ns : List NalUnit) → IsTyped c → Extends ns (fix_up c ns)
unfolding fix_up
fix_up-Extends c ns t = elim (Option-cases (before_idr ns)) [
  | inl e ↦ rw (fix_up, e) (inl refl)
  | inr (before, e) ↦
      elim (Bool-cases (has_type nal_type_sps before && has_type nal_type_pps before)) [
        | inl own ↦ rw (fix_up, e, own) (inl refl)
        | inr lacks ↦
            let shown : before_idr ns ≢ none = λ h. cc in
            let fixed = with_cached-Extends c.sps c.pps ns shown t.sps_type t.pps_type in
            subst (Extends ns) (rw (fix_up, e, lacks)) fixed
      ]
]

-- After any stream `units`, nothing of an access unit is lost, moved or changed: it comes out as
-- it is, or, only where it holds an IDR slice, behind one SPS and one PPS.
pub ensure_parameter_sets-Extends :
    (units : List (List NalUnit)) (ns : List NalUnit)
    → Extends ns (ensure_parameter_sets (feed empty_cache units) ns).1
unfolding ensure_parameter_sets
ensure_parameter_sets-Extends units ns = fix_up-Extends _ ns (
    remember-IsTyped ns _
      (feed-IsTyped units empty_cache (record { sps_type = tt; pps_type = tt })))

any_has_type_last :
    (t : ℕ) (units : List (List NalUnit)) (ns : List NalUnit)
    → any_has_type t (units ++ ns ∷ []) ≡ any_has_type t units || has_type t ns
unfolding any_has_type
any_has_type_last t [] ns = ground arith
any_has_type_last t (u ∷ units) ns = ground (arith, any_has_type_last t units ns)

-- After any stream `units`, a key frame `ns` comes out with an SPS and a PPS in front of its first
-- IDR slice, provided that some SPS and some PPS stood in the stream or stands in the key frame.
pub keyframe-IsDecodable :
    (units : List (List NalUnit)) (ns before : List NalUnit)
    → before_idr ns ≡ some before
    → any_has_type nal_type_sps (units ++ ns ∷ []) ≡ true
    → any_has_type nal_type_pps (units ++ ns ∷ []) ≡ true
    → IsDecodable (ensure_parameter_sets (feed empty_cache units) ns).1
unfolding ensure_parameter_sets
keyframe-IsDecodable units ns before e hs hp =
    fix_up-IsDecodable (remember (feed empty_cache units) ns) ns before e
      (remember-IsTyped ns _
        (feed-IsTyped units empty_cache (record { sps_type = tt; pps_type = tt })))
      (ground (arith, kept, any_has_type_last nal_type_sps units ns))
      (ground (arith, kept, any_has_type_last nal_type_pps units ns))
  where
    kept :
        (is_some (remember (feed empty_cache units) ns).sps
          ≡ has_type nal_type_sps ns || any_has_type nal_type_sps units)
        × (is_some (remember (feed empty_cache units) ns).pps
            ≡ has_type nal_type_pps ns || any_has_type nal_type_pps units)
    kept = ground (arith, remember_keeps ns (feed empty_cache units), feed_keeps units empty_cache)
