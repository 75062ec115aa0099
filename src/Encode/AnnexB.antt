-- ===== src/Encode/AnnexB.antt =====
-- src/encode/AnnexB.h and AnnexB.cpp: NAL units, start codes, access units, the SPS/PPS cache.
pub mod RoundTrip
pub mod Parameters
mod Tests
use Prim.Native.Nat.{bit_and}
use ipad_second_display.Common.{
  byte_at, ℕ, zero, suc, ◌+◌, ◌-◌, Bool, true, false, ◌&&◌, ◌||◌, not, List, [], ◌∷◌, ◌++◌, Option,
  none, some, ◌==◌, leb, length, get_elem?, take, drop, if◌then◌else◌, Bytes,
}

abbrev pub nal_type_sps : ℕ
nal_type_sps = 7

abbrev pub nal_type_pps : ℕ
nal_type_pps = 8

abbrev pub nal_type_idr_slice : ℕ
nal_type_idr_slice = 5

pub record NalUnit : Type 0 where
  pub type : ℕ
  pub payload : Bytes

pub record Marker : Type 0 where
  pub code_begin : ℕ
  pub payload_begin : ℕ

-- `i` is the offset of the head of the list in the buffer; the loop stops where fewer than two
-- bytes are left.
unfoldable pub find_markers : ℕ → Bytes → List Marker
find_markers i [] = []
find_markers i (a ∷ []) = []
find_markers i (a ∷ b ∷ []) = []
find_markers i (a ∷ b ∷ c ∷ []) = elim (a == 0 && b == 0 && c == 1) [
  | true ↦ record { code_begin = i; payload_begin = i + 3 } ∷ []
  | false ↦ find_markers (i + 1) (b ∷ c ∷ [])
]
find_markers i (a ∷ b ∷ c ∷ d ∷ rest) = elim (a == 0 && b == 0 && c == 0 && d == 1) [
  | true ↦ record { code_begin = i; payload_begin = i + 4 } ∷ find_markers (i + 4) rest
  | false ↦ elim (a == 0 && b == 0 && c == 1) [
    | true ↦ record { code_begin = i; payload_begin = i + 3 } ∷ find_markers (i + 3) (d ∷ rest)
    | false ↦ find_markers (i + 1) (b ∷ c ∷ d ∷ rest)
  ]
]

-- The bytes from `data + from` up to `data + to`.
abbrev pub slice : Bytes → ℕ → ℕ → Bytes
slice d from to = take (to - from) (drop from d)

abbrev pub payload_end : Bytes → List Marker → ℕ
payload_end d [] = length d
payload_end d (next ∷ _) = next.code_begin

unfoldable pub collect_nals : Bytes → List Marker → List NalUnit
collect_nals d [] = []
collect_nals d (m ∷ ms) =
    let rest = collect_nals d ms in
    let stop = payload_end d ms in
    if leb stop m.payload_begin
    then rest
    else record {
      type = bit_and (byte_at d m.payload_begin) 0x1F;
      payload = slice d m.payload_begin stop;
    }
      ∷ rest

-- An empty buffer gives no markers, hence no units.
unfoldable pub scan_start_codes : Bytes → List NalUnit
unfolding find_markers collect_nals
scan_start_codes d = collect_nals d (find_markers 0 d)

unfoldable pub build_access_unit : List NalUnit → Bytes
build_access_unit [] = []
build_access_unit (n ∷ ns) = 0 ∷ 0 ∷ 0 ∷ 1 ∷ (n.payload ++ build_access_unit ns)

pub record SpsPpsCache : Type 0 where
  pub sps : Option NalUnit
  pub pps : Option NalUnit

-- The first loop: the parameter sets last seen.
pub note_unit : SpsPpsCache → NalUnit → SpsPpsCache
note_unit c n =
    if n.type == nal_type_sps
    then record c { sps = some n }
    else if n.type == nal_type_pps
    then record c { pps = some n }
    else c

pub remember : SpsPpsCache → List NalUnit → SpsPpsCache
remember c [] = c
remember c (n ∷ ns) = remember (note_unit c n) ns

-- The second loop: the units before the first IDR slice, or `none` where there is no slice.
pub before_idr : List NalUnit → Option (List NalUnit)
before_idr [] = none
before_idr (n ∷ ns) =
    let rest = before_idr ns in
    if n.type == nal_type_idr_slice
    then some []
    else elim rest [ none ↦ none | some before ↦ some (n ∷ before) ]

-- The third loop, for one type.
pub has_type : ℕ → List NalUnit → Bool
has_type t [] = false
has_type t (n ∷ ns) = n.type == t || has_type t ns

pub with_cached : SpsPpsCache → List NalUnit → List NalUnit
with_cached c ns = elim c.sps [
  | none ↦ ns
  | some sps ↦ elim c.pps [ none ↦ ns | some pps ↦ sps ∷ pps ∷ ns ]
]

-- The access unit with the cache as the first loop left it.
pub fix_up : SpsPpsCache → List NalUnit → List NalUnit
fix_up c ns = elim (before_idr ns) [
  | none ↦ ns
  | some before ↦
      if has_type nal_type_sps before && has_type nal_type_pps before then ns else with_cached c ns
]

pub ensure_parameter_sets : SpsPpsCache → List NalUnit → SpsPpsCache × List NalUnit
ensure_parameter_sets c ns = (remember c ns, fix_up (remember c ns) ns)
