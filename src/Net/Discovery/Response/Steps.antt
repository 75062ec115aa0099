-- ===== src/Net/Discovery/Response/Steps.antt =====
-- The reads of `ParseResponse` in src/net/Mdns.cpp, and its loops over questions and text strings.
use ipad_second_display.Common.{
  ℕ, zero, suc, ◌+◌, ◌-◌, ◌≤◌, ◌<◌, ltb→lt, ◌≡◌, inl, inr, true, leb, ltb, Bytes, length, byte_at,
  Bool-cases, arith,
}
use ipad_second_display.Net.Discovery.{NameResult, read, malformed, outside, out_of_fuel, read_name}
use ipad_second_display.Net.Discovery.Names.{Ends, read_name-Ends}
use ipad_second_display.Net.Discovery.Response.{
  Step, go, returns, stuck, ◌>>=◌, read_uint16, read_uint32, read_bytes, with_room, skip_questions,
  txt_loop, id_entry,
}

-- The step is not stuck, and what it goes on with is as stated.
abbrev pub Safe {ℓ} : {A : Type ℓ} → (A → Type 0) → Step A → Type 0
Safe P (go a) = P a
Safe P returns = Unit
Safe P stuck = ⊥

abbrev pub Anything {ℓ} : {A : Type ℓ} → A → Type 0
Anything a = Unit

pub bind-Safe {ℓ κ} :
    {A : Type ℓ} {B : Type κ} (P : A → Type 0) (Q : B → Type 0) (r : Step A) (f : A → Step B)
    → Safe P r
    → ((a : A) → P a → Safe Q (f a))
    → Safe Q (r >>= f)
bind-Safe P Q (go a) f h k = k a h
bind-Safe P Q returns f h k = tt
bind-Safe P Q stuck f h k = absurd h

pub read_uint16-Safe :
    (packet : Bytes) (p : ℕ) → p + 2 ≤ length packet → Safe Anything (read_uint16 packet p)
read_uint16-Safe packet p h =
    let inside : ltb (p + 1) (length packet) ≡ true = ground arith in rw inside tt

pub read_uint32-Safe :
    (packet : Bytes) (p : ℕ) → p + 4 ≤ length packet → Safe Anything (read_uint32 packet p)
read_uint32-Safe packet p h =
    let inside : ltb (p + 3) (length packet) ≡ true = ground arith in rw inside tt

pub read_bytes-Safe :
    (packet : Bytes) (start count : ℕ)
    → start + count ≤ length packet
    → Safe Anything (read_bytes packet start count)
read_bytes-Safe packet start count h =
    let inside : leb (start + count) (length packet) ≡ true = ground arith in rw inside tt

-- The position behind the name leaves the room asked for.
pub with_room-Safe :
    (count : ℕ) (packet : Bytes) (pos : ℕ) (r : NameResult)
    → Ends pos (length packet) r
    → Safe (λ (stop, name). stop + count ≤ length packet) (with_room count packet r)
with_room-Safe count packet pos (read stop name) h =
    elim (Bool-cases (ltb (length packet) (stop + count))) [
      | inl short ↦ rw short tt
      | inr room ↦ rw room (ground (arith, room))
    ]
with_room-Safe count packet pos malformed h = tt
with_room-Safe count packet pos outside h = h
with_room-Safe count packet pos out_of_fuel h = h

pub skip_questions-Safe :
    (n : ℕ) (packet : Bytes) (pos : ℕ) → Safe Anything (skip_questions n packet pos)
unfolding skip_questions
skip_questions-Safe zero packet pos = tt
skip_questions-Safe (suc n) packet pos =
    bind-Safe (λ (stop, name). stop + 4 ≤ length packet) Anything
      (with_room 4 packet (read_name packet pos)) _
      (with_room-Safe 4 packet pos (read_name packet pos) (read_name-Ends packet pos))
      (λ (stop, name) h. skip_questions-Safe n packet (stop + 4))

-- The strings of a text record: every round moves the cursor.
pub txt_loop-Safe :
    (fuel : ℕ) (packet : Bytes) (cursor stop : ℕ) (id : Bytes)
    → stop ≤ length packet
    → stop - cursor < fuel
    → Safe Anything (txt_loop fuel packet cursor stop id)
unfolding txt_loop
txt_loop-Safe zero packet cursor stop id h k = absurd (omega arith)
txt_loop-Safe (suc fuel) packet cursor stop id h k = elim (Bool-cases (ltb cursor stop)) [
  | inr done ↦ rw done tt
  | inl more ↦
      let inside = ltb→lt cursor stop more in
      rw more (
        bind-Safe Anything Anything (read_bytes packet cursor 1) _
          (read_bytes-Safe packet cursor 1 (omega arith))
          (λ byte u. elim (Bool-cases (ltb stop (cursor + 1 + byte_at byte 0))) [
            | inl over ↦ rw over tt
            | inr fits ↦ rw fits (
                bind-Safe Anything Anything (read_bytes packet (cursor + 1) (byte_at byte 0)) _
                  (read_bytes-Safe packet (cursor + 1) (byte_at byte 0) (ground (arith, fits)))
                  (λ entry v.
                    txt_loop-Safe fuel packet (cursor + 1 + byte_at byte 0) stop (id_entry entry id)
                      h (omega arith)))
          ]))
]
