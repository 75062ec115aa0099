-- ===== src/App/Config/Json/Total.antt =====
-- `JsonParser` of src/app/Config.cpp: the fuel, and what a value that it read holds.
use ipad_second_display.Common.{
  ℕ, zero, suc, ◌+◌, ◌*◌, ◌≤◌, ◌<◌, ◌^◌, ◌≡◌, refl, inl, inr, Bool, true, false, [], ◌∷◌, Option,
  none, some, ◌==◌, ltb, ltb→lt, length, length-drop, Bytes, bytes_eq, codes, arith, Bool-cases,
  Option-cases,
}
use ipad_second_display.Common.Int.{ℤ, pos, negsuc}
use ipad_second_display.Common.Text.{is_digit, read_digits, starts_with}
use ipad_second_display.App.Config.Json.{
  Json, null, bool, number, text, object, array, Members, no_members, member, Items, no_items, item,
  Result, ok, failed, out_of_fuel, ◌>>=◌, from_option, skip, consume, at_byte, string_rest,
  parse_string, in_int64, with_rest, parse_digits, parse_number, insert_or_assign, push_item,
  parse_scalar, text_value, closed_or, after_member, after_item, parse_at, parse_value,
  parse_members, parse_items, finish, parse_json,
}
use ipad_second_display.App.Config.Json.Length.{
  length-skip, consume-shorter, string_rest-shorter, read_digits-shorter, parse_string-shorter,
}

abbrev pub FitsInt64 : ℤ → Type 0
FitsInt64 (pos n) = n < 2 ^ 63
FitsInt64 (negsuc n) = n < 2 ^ 63

-- Every number in a value is an `int64_t`.
unfoldable mutual
  pub Fits : Json → Type 0
  Fits null = Unit
  Fits (bool b) = Unit
  Fits (number n) = FitsInt64 n
  Fits (text s) = Unit
  Fits (object ms) = MembersFit ms
  Fits (array is) = ItemsFit is

  pub MembersFit : Members → Type 0
  MembersFit no_members = Unit
  MembersFit (member k v ms) = Fits v × MembersFit ms

  pub ItemsFit : Items → Type 0
  ItemsFit no_items = Unit
  ItemsFit (item v is) = Fits v × ItemsFit is

-- A failure, or a value that fits with a rest of at most `n` bytes; not out of fuel.
abbrev pub ReadsWithin : ℕ → Result (Json × Bytes) → Type 0
ReadsWithin n (ok (v, rest)) = Fits v × (length rest ≤ n)
ReadsWithin n failed = Unit
ReadsWithin n out_of_fuel = ⊥

ReadsWithin-weaken :
    (m n : ℕ) (r : Result (Json × Bytes)) → m ≤ n → ReadsWithin m r → ReadsWithin n r
ReadsWithin-weaken m n (ok (v, rest)) h k = (k.0, omega arith)
ReadsWithin-weaken m n failed h k = tt
ReadsWithin-weaken m n out_of_fuel h k = k

-- A step that reads a value.
bind-ReadsWithin :
    (m n : ℕ) (r : Result (Json × Bytes)) (k : Json × Bytes → Result (Json × Bytes))
    → ReadsWithin m r
    → ((v : Json) (rest : Bytes) → Fits v → length rest ≤ m → ReadsWithin n (k (v, rest)))
    → ReadsWithin n (r >>= k)
bind-ReadsWithin m n (ok (v, rest)) k h after = after v rest h.0 h.1
bind-ReadsWithin m n failed k h after = tt
bind-ReadsWithin m n out_of_fuel k h after = absurd h

-- A step that may find nothing.
option-ReadsWithin {ℓ} :
    {A : Type ℓ} (n : ℕ) (o : Option A) (k : A → Result (Json × Bytes))
    → ((a : A) → o ≡ some a → ReadsWithin n (k a))
    → ReadsWithin n (from_option o >>= k)
option-ReadsWithin n none k h = tt
option-ReadsWithin n (some a) k h = h a refl

insert_or_assign-Fit :
    (key : Bytes) (v : Json) (ms : Members)
    → Fits v
    → MembersFit ms
    → MembersFit (insert_or_assign key v ms)
unfolding insert_or_assign MembersFit
insert_or_assign-Fit key v no_members h k = (h, tt)
insert_or_assign-Fit key v (member name w ms) h k = elim (Bool-cases (bytes_eq name key)) [
  | inl same ↦ rw same (h, k.1)
  | inr other ↦ rw other (k.0, insert_or_assign-Fit key v ms h k.1)
]

push_item-Fit : (is : Items) (v : Json) → ItemsFit is → Fits v → ItemsFit (push_item is v)
unfolding push_item ItemsFit
push_item-Fit no_items v h k = (k, tt)
push_item-Fit (item w is) v h k = (h.0, push_item-Fit is v h.1 k)

in_int64-Fits :
    (negative : Bool) (n : ℕ) (rest : Bytes)
    → ReadsWithin (length rest) (with_rest (in_int64 negative n) rest)
unfolding Fits
in_int64-Fits false n rest = elim (Bool-cases (ltb n (2 ^ 63))) [
  | inl small ↦ rw small (ltb→lt n (2 ^ 63) small, omega arith)
  | inr large ↦ rw large tt
]
in_int64-Fits true zero rest = (omega arith, omega arith)
in_int64-Fits true (suc n) rest = elim (Bool-cases (ltb n (2 ^ 63))) [
  | inl small ↦ rw small (ltb→lt n (2 ^ 63) small, omega arith)
  | inr large ↦ rw large tt
]

parse_digits-ReadsWithin :
    (negative : Bool) (input : Bytes) → ReadsWithin (length input) (parse_digits negative input)
parse_digits-ReadsWithin negative [] = tt
parse_digits-ReadsWithin negative (c ∷ input) = elim (Bool-cases (is_digit c)) [
  | inl digit ↦
      let rest = (read_digits 0 (c ∷ input)).1 in
      rw digit (
        ReadsWithin-weaken (length rest) (suc (length input)) _ (read_digits-shorter 0 (c ∷ input))
          (in_int64-Fits negative (read_digits 0 (c ∷ input)).0 rest))
  | inr other ↦ rw other tt
]

parse_number-ReadsWithin : (input : Bytes) → ReadsWithin (length input) (parse_number input)
unfolding parse_number
parse_number-ReadsWithin [] = tt
parse_number-ReadsWithin (c ∷ input) = elim (Bool-cases (c == b'-')) [
  | inl minus ↦ rw minus (
      ReadsWithin-weaken (length input) (suc (length input)) _ (omega arith)
        (parse_digits-ReadsWithin true input))
  | inr other ↦ rw other (parse_digits-ReadsWithin false (c ∷ input))
]

parse_scalar-ReadsWithin : (input : Bytes) → ReadsWithin (length input) (parse_scalar input)
unfolding parse_scalar Fits
parse_scalar-ReadsWithin input = elim (Bool-cases (starts_with (codes "true") input)) [
  | inl yes_true ↦ rw yes_true (tt, omega (arith, length-drop 4 input))
  | inr not_true ↦ elim (Bool-cases (starts_with (codes "false") input)) [
    | inl yes_false ↦ rw (not_true, yes_false) (tt, omega (arith, length-drop 5 input))
    | inr not_false ↦ elim (Bool-cases (starts_with (codes "null") input)) [
      | inl yes_null ↦ rw (not_true, not_false, yes_null) (tt, omega (arith, length-drop 4 input))
      | inr not_null ↦ rw (not_true, not_false, not_null) (parse_number-ReadsWithin input)
    ]
  ]
]

closed_or-ReadsWithin :
    (n c : ℕ) (input : Bytes) (v : Json) (more : Result (Json × Bytes))
    → Fits v
    → length input ≤ n
    → ReadsWithin n more
    → ReadsWithin n (closed_or (consume c input) v more)
closed_or-ReadsWithin n c input v more h short next = elim (Option-cases (consume c input)) [
  | inr (rest, closed) ↦ rw closed (h, omega (arith, consume-shorter c input rest closed))
  | inl unclosed ↦ rw unclosed next
]

after_member-ReadsWithin :
    (n : ℕ) (more : Members → Bytes → Result (Json × Bytes)) (ms : Members) (input : Bytes)
    → MembersFit ms
    → length input ≤ n
    → ((rest : Bytes) → length rest < length input → ReadsWithin n (more ms rest))
    → ReadsWithin n (after_member more ms input)
unfolding Fits
after_member-ReadsWithin n more ms input h short next =
    closed_or-ReadsWithin n b'}' input (object ms) _ h short (
      option-ReadsWithin n (consume b',' input) (more ms)
        (λ rest e. next rest (consume-shorter b',' input rest e)))

after_item-ReadsWithin :
    (n : ℕ) (more : Items → Bytes → Result (Json × Bytes)) (is : Items) (input : Bytes)
    → ItemsFit is
    → length input ≤ n
    → ((rest : Bytes) → length rest < length input → ReadsWithin n (more is rest))
    → ReadsWithin n (after_item more is input)
unfolding Fits
after_item-ReadsWithin n more is input h short next =
    closed_or-ReadsWithin n b']' input (array is) _ h short (
      option-ReadsWithin n (consume b',' input) (more is)
        (λ rest e. next rest (consume-shorter b',' input rest e)))

parse_at-ReadsWithin :
    (members : Members → Bytes → Result (Json × Bytes))
    (items : Items → Bytes → Result (Json × Bytes)) (input : Bytes)
    → ((ms : Members) (rest : Bytes)
        → MembersFit ms
        → length rest < length input
        → ReadsWithin (length rest) (members ms rest))
    → ((is : Items) (rest : Bytes)
        → ItemsFit is
        → length rest < length input
        → ReadsWithin (length rest) (items is rest))
    → ReadsWithin (length input) (parse_at members items input)
unfolding parse_at Fits
parse_at-ReadsWithin members items [] h k = tt
parse_at-ReadsWithin members items (c ∷ input) h k = elim (Bool-cases (c == b'"')) [
  | inl quote ↦ rw quote (
      option-ReadsWithin _ (string_rest at_byte input []) text_value
        (λ (s, rest) e. (tt, omega (arith, string_rest-shorter at_byte input [] s rest e))))
  | inr no_quote ↦ elim (Bool-cases (c == b'{')) [
    | inl brace ↦
        rw (no_quote, brace)
          (closed_or-ReadsWithin _ b'}' input (object no_members) _ tt (omega arith) (
            ReadsWithin-weaken (length (skip input)) (suc (length input)) _
              (omega (arith, length-skip input))
              (h no_members (skip input) tt (omega (arith, length-skip input)))))
    | inr no_brace ↦ elim (Bool-cases (c == b'[')) [
      | inl bracket ↦
          rw (no_quote, no_brace, bracket)
            (closed_or-ReadsWithin _ b']' input (array no_items) _ tt (omega arith) (
              ReadsWithin-weaken (length (skip input)) (suc (length input)) _
                (omega (arith, length-skip input))
                (k no_items (skip input) tt (omega (arith, length-skip input)))))
      | inr no_bracket ↦ rw (no_quote, no_brace, no_bracket) (parse_scalar-ReadsWithin (c ∷ input))
    ]
  ]
]

-- By fuel: an object's members and an array's items are read with less of it.
mutual
  unfolding parse_value

  pub value-ReadsWithin :
      (f : ℕ) (input : Bytes)
      → 2 * length input + 1 ≤ f
      → ReadsWithin (length input) (parse_value f input)
  value-ReadsWithin zero input h = absurd (omega arith)
  value-ReadsWithin (suc f) input h =
      ReadsWithin-weaken (length (skip input)) (length input) _ (length-skip input) (
        parse_at-ReadsWithin (parse_members f) (parse_items f) (skip input)
          (λ ms rest fit less. members-ReadsWithin f ms rest fit (omega (arith, length-skip input)))
          (λ is rest fit less. items-ReadsWithin f is rest fit (omega (arith, length-skip input))))

  members-ReadsWithin :
      (f : ℕ) (ms : Members) (input : Bytes)
      → MembersFit ms
      → 2 * length input + 1 ≤ f
      → ReadsWithin (length input) (parse_members f ms input)
  members-ReadsWithin zero ms input fit h = absurd (omega arith)
  members-ReadsWithin (suc f) ms input fit h =
      option-ReadsWithin _ (parse_string input) _ (λ (key, after_key) e.
        let key_less = parse_string-shorter input key after_key e in
        option-ReadsWithin _ (consume b':' after_key) _ (λ after_colon e'.
          let colon_less = consume-shorter b':' after_key after_colon e' in
          bind-ReadsWithin (length after_colon) (length input) (parse_value f after_colon) _
            (value-ReadsWithin f after_colon (omega arith))
            (λ v rest v_fit short.
              after_member-ReadsWithin (length input) (parse_members f) (insert_or_assign key v ms)
                rest (insert_or_assign-Fit key v ms v_fit fit) (omega arith)
                (λ behind less. ReadsWithin-weaken (length behind) (length input) _ (omega arith) (
                  members-ReadsWithin f (insert_or_assign key v ms) behind
                    (insert_or_assign-Fit key v ms v_fit fit) (omega arith))))))

  items-ReadsWithin :
      (f : ℕ) (is : Items) (input : Bytes)
      → ItemsFit is
      → 2 * length input + 2 ≤ f
      → ReadsWithin (length input) (parse_items f is input)
  items-ReadsWithin zero is input fit h = absurd (omega arith)
  items-ReadsWithin (suc f) is input fit h =
      bind-ReadsWithin (length input) (length input) (parse_value f input) _
        (value-ReadsWithin f input (omega arith))
        (λ v rest v_fit short.
          after_item-ReadsWithin (length input) (parse_items f) (push_item is v) rest
            (push_item-Fit is v fit v_fit) short
            (λ behind less. ReadsWithin-weaken (length behind) (length input) _ (omega arith) (
              items-ReadsWithin f (push_item is v) behind (push_item-Fit is v fit v_fit)
                (omega arith))))

-- A failure or a value that fits.
abbrev pub Read : Result Json → Type 0
Read (ok v) = Fits v
Read failed = Unit
Read out_of_fuel = ⊥

finish-Read : (v : Json) (rest : Bytes) → Fits v → Read (finish (v, rest))
finish-Read v [] h = h
finish-Read v (c ∷ rest) h = tt

bind-Read :
    (n : ℕ) (r : Result (Json × Bytes))
    → ReadsWithin n r
    → Read (r >>= λ (v, rest). finish (v, skip rest))
bind-Read n (ok (v, rest)) h = finish-Read v (skip rest) h.0
bind-Read n failed h = tt
bind-Read n out_of_fuel h = h

-- The parser never runs out of its fuel: on every text it fails or gives a value whose numbers are all in the range of `int64_t`.
pub parse_json-Read : (input : Bytes) → Read (parse_json input)
unfolding parse_json
parse_json-Read input =
    bind-Read (length input) (parse_value (2 * length input + 2) input)
      (value-ReadsWithin (2 * length input + 2) input (omega arith))
