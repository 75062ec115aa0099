-- ===== src/Net/Protocol/Pong.antt =====
-- What `SerializePong` accepts and sends.
use ipad_second_display.Common.{
  ℕ, zero, suc, ◌+◌, ◌-◌, ◌≤◌, ◌<◌, ◌/◌, ◌%◌, ◌≡◌, refl, sym, subst, Bool, true, false, Bool-cases,
  inl, inr, [], ◌∷◌, ◌++◌, Option, none, some, arith, ◌==◌, length, take, drop, Bytes, codes,
  bytes_eq, All,
}
use ipad_second_display.Common.Text.{is_space, decimal, decimal_onto}
use ipad_second_display.Net.Protocol.{
  count_while, string_end, back_over_space, find_loop, find_value_start, is_number_byte, NumberText,
  find_number_field, token_at, find_number_token, has_length, is_valid_json_number, serialize_pong,
  is_control_payload, no_zero_byte,
}

abbrev wrapped : Bytes → Bytes
wrapped token = codes "{\"n\":" ++ token ++ codes "}"

find_value_start-wrapped :
    (token : Bytes)
    → find_value_start (wrapped token) (codes "n")
      ≡ some (suc (suc (suc (suc (suc (count_while is_space (token ++ codes "}")))))))
unfolding find_value_start find_loop string_end back_over_space count_while bytes_eq
find_value_start-wrapped token = ground arith

count_while_bound : (p : ℕ → Bool) (xs : Bytes) → count_while p xs ≤ length xs
unfolding count_while
count_while_bound p [] = omega arith
count_while_bound p (x ∷ xs) = ground (arith, count_while_bound p xs)

length-take_count :
    (p : ℕ → Bool) (xs : Bytes) → length (take (count_while p xs) xs) ≡ count_while p xs
unfolding count_while
length-take_count p [] = refl
length-take_count p (x ∷ xs) = ground (arith, length-take_count p xs)

drop_nil : (k : ℕ) → drop {A = ℕ} k [] ≡ []
drop_nil zero = refl
drop_nil (suc k) = refl

-- A byte behind the text that fails the test ends the count.
count_while_before :
    (p : ℕ → Bool) (y : ℕ)
    → p y ≡ false
    → (xs : Bytes) (k : ℕ) → count_while p (drop k (xs ++ y ∷ [])) ≤ length xs - k
unfolding count_while
count_while_before p y h [] zero = ground (arith, h)
count_while_before p y h [] (suc k) = ground (arith, drop_nil k)
count_while_before p y h (x ∷ xs) zero = ground (arith, count_while_before p y h xs 0)
count_while_before p y h (x ∷ xs) (suc k) = omega (arith, count_while_before p y h xs k)

count_while_whole :
    (p : ℕ → Bool) (y : ℕ)
    → p y ≡ false
    → (xs : Bytes) → count_while p (xs ++ y ∷ []) ≡ length xs
    → All (λ c. p c ≡ true) xs
unfolding count_while
count_while_whole p y h [] e = tt
count_while_whole p y h (x ∷ xs) e = elim (Bool-cases (p x)) [
  | inl holds ↦ (holds, count_while_whole p y h xs (ground (arith, e, holds)))
  | inr fails ↦ absurd (ground (arith, e, fails))
]

counted_bytes :
    (p : ℕ → Bool) (y : ℕ)
    → p y ≡ false
    → (xs : Bytes) (k : ℕ) → count_while p (drop k (xs ++ y ∷ [])) ≡ length xs
    → All (λ c. p c ≡ true) xs
counted_bytes p y h xs zero e = count_while_whole p y h xs e
counted_bytes p y h [] (suc k) e = tt
counted_bytes p y h (x ∷ xs) (suc k) e =
    absurd (omega (arith, e, count_while_before p y h (x ∷ xs) (suc k)))

module _ (n : NumberText) where
  counted :
      (json : Bytes) (start k : ℕ) (field : Option n.Double)
      → has_length n (token_at n json (some start) field) k ≡ true
      → count_while is_number_byte (drop start json) ≡ k
  unfolding token_at
  counted json start k none h = absurd (ground (arith, h))
  counted json start k (some v) h =
      ground (arith, h, length-take_count is_number_byte (drop start json))

  is_valid_json_number_bytes :
      (token : Bytes)
      → is_valid_json_number n token ≡ true
      → All (λ c. is_number_byte c ≡ true) token
  unfolding is_valid_json_number find_number_token is_number_byte
  is_valid_json_number_bytes token h =
      let k = count_while is_space (token ++ codes "}") in
      counted_bytes is_number_byte b'}' refl token k (
        counted (wrapped token) (suc (suc (suc (suc (suc k))))) (length token)
          (find_number_field n (wrapped token) (codes "n"))
          (rw (find_value_start-wrapped token) at h))

abbrev NonZero : Bytes → Type 0
NonZero = All (λ c. (c == 0) ≡ false)

no_zero_byte-append :
    (a b : Bytes) → no_zero_byte a ≡ true → no_zero_byte b ≡ true → no_zero_byte (a ++ b) ≡ true
unfolding no_zero_byte
no_zero_byte-append [] b ha hb = hb
no_zero_byte-append (c ∷ a) b ha hb = ground (arith, no_zero_byte-append a b, ha, hb)

decimal_onto_no_zero :
    (fuel k : ℕ) (back : Bytes)
    → no_zero_byte back ≡ true
    → no_zero_byte (decimal_onto fuel k back) ≡ true
unfolding decimal_onto no_zero_byte
decimal_onto_no_zero zero k back h = h
decimal_onto_no_zero (suc fuel) k back h =
    ground (arith, h, decimal_onto_no_zero fuel (k / 10) ((b'0' + k % 10) ∷ back))

decimal_no_zero : (k : ℕ) → no_zero_byte (decimal k) ≡ true
unfolding decimal no_zero_byte
decimal_no_zero k = decimal_onto_no_zero (suc k) k [] refl

number_bytes_no_zero : (t : Bytes) → All (λ c. is_number_byte c ≡ true) t → no_zero_byte t ≡ true
unfolding no_zero_byte is_number_byte
number_bytes_no_zero [] h = refl
number_bytes_no_zero (c ∷ t) h = ground (arith, h.0, number_bytes_no_zero t h.1)

abbrev pong_text : ℕ → Bytes → Bytes
pong_text now echoed =
    codes "{\"type\":\"pong\",\"t\":" ++ echoed ++ codes ",\"mt\":" ++ decimal now ++ codes "}"

pong_text_no_zero :
    (now : ℕ) (echoed : Bytes)
    → no_zero_byte echoed ≡ true
    → no_zero_byte (pong_text now echoed) ≡ true
unfolding no_zero_byte
pong_text_no_zero now echoed h =
    let front = codes "{\"type\":\"pong\",\"t\":" in
    let middle = codes ",\"mt\":" in
    no_zero_byte-append (front ++ echoed ++ middle ++ decimal now) (codes "}")
      (no_zero_byte-append (front ++ echoed ++ middle) (decimal now)
        (no_zero_byte-append (front ++ echoed) middle (no_zero_byte-append front echoed refl h)
          refl)
        (decimal_no_zero now))
      refl

opens_object :
    (rest : Bytes)
    → no_zero_byte (b'{' ∷ rest) ≡ true
    → length (b'{' ∷ rest) < 32768
    → is_control_payload (b'{' ∷ rest) ≡ true
unfolding is_control_payload
opens_object rest h short = ground (arith, h, short)

module _ (n : NumberText) where
  -- A pong is only ever built around a text of digits, signs, points and exponent letters, so the
  -- echoed text cannot close the object or open a string; and while it is shorter than 32 KiB the
  -- pong is a control payload by the rule that tells JSON from video.
  pub serialize_pong_lem :
      (now : ℕ) (echoed json : Bytes)
      → serialize_pong n now echoed ≡ some json
      → All (λ c. is_number_byte c ≡ true) echoed
        × (length json < 32768 → is_control_payload json ≡ true)
  unfolding serialize_pong is_control_payload
  serialize_pong_lem now echoed json h =
      let valid : is_valid_json_number n echoed ≡ true = ground (arith, h) in
      let bytes = is_valid_json_number_bytes n echoed valid in
      let clean = number_bytes_no_zero echoed bytes in
      let same : pong_text now echoed ≡ json = ground (arith, h, valid) in
      (
        bytes,
        λ short.
            subst (λ j. is_control_payload j ≡ true) same
              (opens_object _ (pong_text_no_zero now echoed clean)
                (subst (λ j. length j < 32768) (sym same) short)),
      )
