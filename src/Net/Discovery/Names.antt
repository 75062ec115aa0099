-- ===== src/Net/Discovery/Names.antt =====
-- The names of DNS packets.
use ipad_second_display.Common.{
  true, [], ℕ, zero, suc, ◌+◌, ◌*◌, ◌-◌, ◌%◌, ◌<◌, ◌≤◌, ◌≡◌, Bool-cases, inl, inr, refl, ◌||◌,
  arith, ◌==◌, leb, ltb, if◌then◌else◌, Bytes, length, byte_at, take, drop, ltb→lt,
}
use ipad_second_display.Net.Discovery.{
  NameResult, read, malformed, outside, out_of_fuel, append_label, read_name_loop, name_fuel,
  read_name,
}

-- The walk ended and read nothing outside of the packet; a name that was read ends behind `pos` and inside the packet.
abbrev pub Ends : ℕ → ℕ → NameResult → Type 0
Ends pos size out_of_fuel = ⊥
Ends pos size outside = ⊥
Ends pos size malformed = Unit {0}
Ends pos size (read stop name) = (pos < stop) × (stop ≤ size)

-- The place that the walk returns to is behind `pos`.
record OnWay (pos size cursor after : ℕ) : Type 0 where
  first : after ≡ 0 → pos ≤ cursor
  jumped : 0 < after → (pos < after) × (after ≤ size)

one_walk_less :
    (walks m : ℕ) → 0 < walks → (fewer : ℕ) × (walks ≡ suc fewer) × (walks * m ≡ m + fewer * m)
one_walk_less zero m h = absurd (omega arith)
one_walk_less (suc fewer) m h = (fewer, refl, omega arith)

read_name_loop-Ends :
    (fuel : ℕ) (packet : Bytes) (pos cursor after hops walks : ℕ) (out : Bytes)
    → hops + walks ≡ 16
    → walks * suc (length packet) + (length packet - cursor) < fuel
    → OnWay pos (length packet) cursor after
    → Ends pos (length packet) (read_name_loop fuel packet cursor after hops out)
unfolding read_name_loop
read_name_loop-Ends zero packet pos cursor after hops walks out e h w = absurd (omega arith)
read_name_loop-Ends (suc fuel) packet pos cursor after hops walks out e h w =
    elim (Bool-cases (ltb cursor (length packet))) [
      | inr beyond ↦ rw beyond tt
      | inl inside ↦
          let below = ltb→lt _ _ inside in
          let there : leb (cursor + 1) (length packet) ≡ true = ground arith in
          elim (Bool-cases (byte_at packet cursor == 0)) [
            | inl last ↦ rw (inside, there, last) (ground (arith, w.first, w.jumped))
            | inr more ↦ elim (Bool-cases (leb 192 (byte_at packet cursor))) [
              | inl pointer ↦
                  elim (Bool-cases (leb (length packet) (cursor + 1) || ltb 16 (hops + 1))) [
                    | inl refuses ↦ rw (inside, there, more, pointer, refuses) tt
                    | inr follows ↦
                        let (fewer, one, product) =
                          one_walk_less walks (suc (length packet)) (ground (arith, e, follows)) in
                        let pair : leb (cursor + 1 + 1) (length packet) ≡ true =
                          ground (arith, follows) in
                        rw (inside, there, more, pointer, follows, pair)
                          (read_name_loop-Ends fuel packet pos
                            (byte_at packet cursor % 64 * 256 + byte_at packet (cursor + 1))
                            (if after == 0 then cursor + 2 else after) (hops + 1) fewer out
                            (omega (arith, e, one)) (omega (arith, h, product))
                            (record {
                              first = λ z. ground (arith, z);
                              jumped = λ z. ground (arith, w.first, w.jumped, follows);
                            }))
                  ]
              | inr label ↦
                  elim (Bool-cases (ltb (length packet) (cursor + 1 + byte_at packet cursor))) [
                    | inl refuses ↦ rw (inside, there, more, label, refuses) tt
                    | inr follows ↦
                        let fits : leb (cursor + 1 + byte_at packet cursor) (length packet) ≡ true =
                          ground (arith, follows) in
                        rw (inside, there, more, label, follows, fits)
                          (read_name_loop-Ends fuel packet pos (cursor + 1 + byte_at packet cursor)
                            after hops walks
                            (append_label out
                              (take (byte_at packet cursor) (drop (cursor + 1) packet)))
                            e (omega (arith, h, below))
                            (record { first = λ z. omega (arith, w.first z); jumped = w.jumped }))
                  ]
            ]
          ]
    ]

-- Reading a name ends, whatever the packet and its compression pointers are, and reads no byte
-- outside of the packet: with a refusal or with a name that was followed to a position behind the
-- start and inside the packet.
pub read_name-Ends : (packet : Bytes) (pos : ℕ) → Ends pos (length packet) (read_name packet pos)
unfolding read_name
read_name-Ends packet pos =
    read_name_loop-Ends (name_fuel packet) packet pos pos 0 0 16 [] refl (omega arith)
      (record { first = λ z. omega arith; jumped = λ z. absurd (omega arith) })
