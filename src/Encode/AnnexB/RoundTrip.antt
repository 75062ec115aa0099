-- ===== src/Encode/AnnexB/RoundTrip.antt =====
-- Scanning what was built. A payload must not hold 00 00 01, which the encoder escapes.
use Prim.Native.Nat.{bit_and}
use ipad_second_display.Common.{
  byte_at, ℕ, suc, ◌+◌, ◌-◌, ◌≡◌, refl, ap, ◌∙◌, sym, Bool, true, false, ◌&&◌, not, List, [], ◌∷◌,
  ◌++◌, arith, ◌==◌, leb, ◌<◌, length, drop, length-append, append_assoc, take_length_append, All,
  Bytes, is_empty,
}
use ipad_second_display.Encode.AnnexB.{
  NalUnit, Marker, find_markers, collect_nals, scan_start_codes, build_access_unit, slice,
  payload_end,
}

-- No 00 00 01 in the bytes.
abbrev pub is_clean : Bytes → Bool
is_clean (a ∷ b ∷ c ∷ rest) = not (a == 0 && b == 0 && c == 1) && is_clean (b ∷ c ∷ rest)
is_clean _ = true

-- What an encoder emits as one unit: a header byte, and no start code inside.
pub record IsUnit (n : NalUnit) : Type 0 where
  pub nonempty : is_empty n.payload ≡ false
  pub clean : is_clean n.payload ≡ true
  pub typed : n.type ≡ bit_and (byte_at n.payload 0) 0x1F

abbrev positions : ℕ → List NalUnit → List Marker
positions i [] = []
positions i (n ∷ ns) =
    record { code_begin = i; payload_begin = i + 4 } ∷ positions (i + 4 + length n.payload) ns

find_markers-step :
    (i a b c d : ℕ) (rest : Bytes)
    → (a == 0 && b == 0 && c == 0 && d == 1) ≡ false
    → (a == 0 && b == 0 && c == 1) ≡ false
    → find_markers i (a ∷ b ∷ c ∷ d ∷ rest) ≡ find_markers (i + 1) (b ∷ c ∷ d ∷ rest)
unfolding find_markers
find_markers-step i a b c d rest h k = rw (find_markers, h, k)

find_markers_last :
    (i a b c : ℕ) → (a == 0 && b == 0 && c == 1) ≡ false → find_markers i (a ∷ b ∷ c ∷ []) ≡ []
unfolding find_markers
find_markers_last i a b c h = rw (find_markers, h) refl

find_markers_nil : (i : ℕ) → find_markers i [] ≡ []
unfolding find_markers
find_markers_nil i = refl

find_markers-skip :
    (p : Bytes) (i : ℕ) (ns : List NalUnit)
    → is_clean p ≡ true
    → find_markers i (p ++ build_access_unit ns)
      ≡ find_markers (i + length p) (build_access_unit ns)
unfolding build_access_unit
find_markers-skip [] i ns h = ap (λ j. find_markers j (build_access_unit ns)) (omega arith)
find_markers-skip (a ∷ []) i [] h = unfold find_markers in refl
find_markers-skip (a ∷ []) i (n ∷ ns) h =
    ground (arith, find_markers-step i a 0 0 0 (1 ∷ (n.payload ++ build_access_unit ns)))
find_markers-skip (a ∷ b ∷ []) i [] h = unfold find_markers in refl
find_markers-skip (a ∷ b ∷ []) i (n ∷ ns) h = ground (
  arith,
  find_markers-step i a b 0 0 (0 ∷ 1 ∷ (n.payload ++ build_access_unit ns)),
  find_markers-skip (b ∷ []) (i + 1) (n ∷ ns),
)
find_markers-skip (a ∷ b ∷ c ∷ []) i [] h =
    ground (arith, find_markers_last i a b c, find_markers_nil (i + 3))
find_markers-skip (a ∷ b ∷ c ∷ []) i (n ∷ ns) h = ground (
  arith,
  find_markers-step i a b c 0 (0 ∷ 0 ∷ 1 ∷ (n.payload ++ build_access_unit ns)),
  find_markers-skip (b ∷ c ∷ []) (i + 1) (n ∷ ns),
)
find_markers-skip (a ∷ b ∷ c ∷ d ∷ p) i ns h = ground (
  arith,
  find_markers-step i a b c d (p ++ build_access_unit ns),
  find_markers-skip (b ∷ c ∷ d ∷ p) (i + 1) ns,
)

find_markers-build_access_unit :
    (ns : List NalUnit) (i : ℕ)
    → All IsUnit ns
    → find_markers i (build_access_unit ns) ≡ positions i ns
unfolding build_access_unit
find_markers-build_access_unit [] i u = unfold find_markers in refl
find_markers-build_access_unit (n ∷ ns) i u =
    start
    ∙ ap (◌∷◌ (record { code_begin = i; payload_begin = i + 4 }))
        (find_markers-skip n.payload (i + 4) ns u.0.clean ∙ find_markers-build_access_unit ns _ u.1)
  where
    start :
        find_markers i (0 ∷ 0 ∷ 0 ∷ 1 ∷ (n.payload ++ build_access_unit ns))
        ≡ record { code_begin = i; payload_begin = i + 4 }
          ∷ find_markers (i + 4) (n.payload ++ build_access_unit ns)
    start = unfold find_markers in refl

drop_append : (pre rest : Bytes) (k : ℕ) → drop (length pre + k) (pre ++ rest) ≡ drop k rest
drop_append [] rest k = ap (λ j. drop j rest) (omega arith)
drop_append (x ∷ pre) rest k =
    let e : suc (length pre) + k ≡ suc (length pre + k) = omega arith in
    rw e (drop_append pre rest k)

byte_at_append :
    (pre rest : Bytes) (k : ℕ) → byte_at (pre ++ rest) (length pre + k) ≡ byte_at rest k
byte_at_append [] rest k = ap (byte_at rest) (omega arith)
byte_at_append (x ∷ pre) rest k =
    let e : suc (length pre) + k ≡ suc (length pre + k) = omega arith in
    rw e (byte_at_append pre rest k)

length-build_access_unit_suc :
    (n : NalUnit) (ns : List NalUnit)
    → length (build_access_unit (n ∷ ns)) ≡ 4 + length n.payload + length (build_access_unit ns)
unfolding build_access_unit
length-build_access_unit_suc n ns = omega (arith, length-append n.payload (build_access_unit ns))

payload_end-positions :
    (ns : List NalUnit) (j : ℕ) (d : Bytes)
    → j + length (build_access_unit ns) ≡ length d
    → payload_end d (positions j ns) ≡ j
unfolding build_access_unit
payload_end-positions [] j d h = omega arith
payload_end-positions (n ∷ ns) j d h = refl

byte_at_zero : (p rest : Bytes) → is_empty p ≡ false → byte_at (p ++ rest) 0 ≡ byte_at p 0
byte_at_zero [] rest h = cc
byte_at_zero (x ∷ p) rest h = refl

-- One unit, in front of `rest` and behind `pre`.
module _ (pre rest : Bytes) (n : NalUnit) (u : IsUnit n) where
  unit_buffer : Bytes
  unit_buffer = pre ++ (0 ∷ 0 ∷ 0 ∷ 1 ∷ (n.payload ++ rest))

  unit_slice : slice unit_buffer (length pre + 4) (length pre + 4 + length n.payload) ≡ n.payload
  unfolding unit_buffer
  unit_slice =
      let e : length pre + 4 + length n.payload - (length pre + 4) ≡ length n.payload =
        omega arith in
      rw (drop_append pre (0 ∷ 0 ∷ 0 ∷ 1 ∷ (n.payload ++ rest)) 4, e)
        (take_length_append n.payload rest)

  unit_type : bit_and (byte_at unit_buffer (length pre + 4)) 0x1F ≡ n.type
  unfolding unit_buffer
  unit_type =
      ap (λ b. bit_and b 0x1F)
        (byte_at_append pre (0 ∷ 0 ∷ 0 ∷ 1 ∷ (n.payload ++ rest)) 4
          ∙ byte_at_zero n.payload rest u.nonempty)
      ∙ sym u.typed

length_pos : (p : Bytes) → is_empty p ≡ false → 0 < length p
length_pos [] h = cc
length_pos (x ∷ p) h = omega arith

leb-false : (a b : ℕ) → b < a → leb a b ≡ false
leb-false a b h = ground arith

collect_nals-cons :
    (d : Bytes) (from : ℕ) (n : NalUnit) (ms : List Marker)
    → is_empty n.payload ≡ false
    → payload_end d ms ≡ from + 4 + length n.payload
    → slice d (from + 4) (from + 4 + length n.payload) ≡ n.payload
    → bit_and (byte_at d (from + 4)) 0x1F ≡ n.type
    → collect_nals d (record { code_begin = from; payload_begin = from + 4 } ∷ ms)
      ≡ n ∷ collect_nals d ms
unfolding collect_nals
collect_nals-cons d from n ms some_payload e s t =
    rw (e, s, t)
      (ground (
        arith,
        leb-false (from + 4 + length n.payload) (from + 4)
            (omega (arith, length_pos n.payload some_payload)),
      ))

collect_nals-positions :
    (ns : List NalUnit) (pre d : Bytes)
    → d ≡ pre ++ build_access_unit ns
    → All IsUnit ns
    → collect_nals d (positions (length pre) ns) ≡ ns
unfolding build_access_unit
collect_nals-positions [] pre d e u = unfold collect_nals in refl
collect_nals-positions (n ∷ ns) pre d e u =
    rw
      (collect_nals-cons d (length pre) n _ u.0.nonempty ends
        (rw e (unfold unit_buffer in unit_slice pre (build_access_unit ns) n u.0))
        (rw e (unfold unit_buffer in unit_type pre (build_access_unit ns) n u.0)))
      (ap (◌∷◌ n)
        (rw next_is at (collect_nals-positions ns next d (e ∙ sym (append_assoc pre _ _)) u.1)))
  where
    next : Bytes
    next = pre ++ (0 ∷ 0 ∷ 0 ∷ 1 ∷ n.payload)

    next_is : length next ≡ length pre + 4 + length n.payload
    next_is = omega (arith, length-append pre (0 ∷ 0 ∷ 0 ∷ 1 ∷ n.payload))

    ends :
        payload_end d (positions (length pre + 4 + length n.payload) ns)
        ≡ length pre + 4 + length n.payload
    ends = payload_end-positions ns _ d (
        omega (
          arith,
          ap length e,
          length-append pre (build_access_unit (n ∷ ns)),
          length-build_access_unit_suc n ns,
        ))

-- Scanning a built access unit gives back its units, for any number of units that each have a
-- header byte of their type and no 00 00 01 in the payload.
pub scan_start_codes-build_access_unit :
    (ns : List NalUnit) → All IsUnit ns → scan_start_codes (build_access_unit ns) ≡ ns
unfolding scan_start_codes
scan_start_codes-build_access_unit ns u =
    rw (find_markers-build_access_unit ns 0 u) (collect_nals-positions ns [] _ refl u)
