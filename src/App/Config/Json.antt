-- ===== src/App/Config/Json.antt =====
-- `JsonParser` of src/app/Config.cpp. A parser reads a value off the text that is left.
pub mod Length
pub mod Total
pub mod Fuel
pub mod Strings
use ipad_second_display.Common.{
  ℕ, zero, suc, ◌+◌, ◌-◌, ◌*◌, ◌/◌, ◌%◌, ◌^◌, Bool, true, false, not, ◌&&◌, ◌||◌, List, [], ◌∷◌,
  ◌++◌, Option, none, some, ◌==◌, ltb, leb, if◌then◌else◌, length, drop, Bytes, bytes_eq, codes,
}
use ipad_second_display.Common.Int.{ℤ, pos, negsuc}
use ipad_second_display.Common.Text.{is_digit, is_space, read_digits, starts_with}

-- An object's members stand in the order in which their keys came first.
mutual
  pub data Json : Type 0 where
    null : Json
    bool : Bool → Json
    number : ℤ → Json
    text : Bytes → Json
    object : Members → Json
    array : Items → Json

  pub data Members : Type 0 where
    no_members : Members
    member : Bytes → Json → Members → Members

  pub data Items : Type 0 where
    no_items : Items
    item : Json → Items → Items

-- `failed` is `std::nullopt`; `out_of_fuel` has no counterpart in the source.
pub data Result {ℓ} (A : Type ℓ) : Type ℓ where
  ok : A → Result A
  failed out_of_fuel : Result A

infixl 5 ◌>>=◌
abbrev pub ◌>>=◌ {ℓ κ} : {A : Type ℓ} {B : Type κ} → Result A → (A → Result B) → Result B
ok a >>= f = f a
failed >>= f = failed
out_of_fuel >>= f = out_of_fuel

abbrev pub from_option {ℓ} : {A : Type ℓ} → Option A → Result A
from_option none = failed
from_option (some a) = ok a

-- `AppendUtf8`. The shifted bits are disjoint, so `|` adds them.
unfoldable pub utf8 : ℕ → Bytes
utf8 cp =
    if leb cp 0x7F
    then cp ∷ []
    else if leb cp 0x7FF
    then (0xC0 + cp / 64) ∷ (0x80 + cp % 64) ∷ []
    else (0xE0 + cp / 4096) ∷ (0x80 + cp / 64 % 64) ∷ (0x80 + cp % 64) ∷ []

-- `Skip`.
unfoldable pub skip : Bytes → Bytes
skip [] = []
skip (c ∷ input) = let rest = skip input in if is_space c then rest else c ∷ input

abbrev pub take_byte : ℕ → Bytes → Option Bytes
take_byte c [] = none
take_byte c (b ∷ input) = if b == c then some input else none

-- `Consume`.
abbrev pub consume : ℕ → Bytes → Option Bytes
consume c input = take_byte c (skip input)

abbrev pub hex_value : ℕ → Option ℕ
hex_value h =
    if is_digit h
    then some (h - b'0')
    else if leb b'a' h && leb h b'f'
    then some (h - b'a' + 10)
    else if leb b'A' h && leb h b'F'
    then some (h - b'A' + 10)
    else none

-- What an escape other than `\u` stands for.
abbrev pub unescape : ℕ → Option ℕ
unescape e =
    if e == b'"' || e == b'\\' || e == b'/'
    then some e
    else if e == b'b'
    then some 8
    else if e == b'f'
    then some 12
    else if e == b'n'
    then some 10
    else if e == b'r'
    then some 13
    else if e == b't'
    then some 9
    else none

-- Where in a string the loop of `ParseString` is: at a byte, behind a backslash, or at a digit of
-- a `\u` escape with so many behind it and this value so far.
pub data Place : Type 0 where
  at_byte at_escape : Place
  at_digit : ℕ → ℕ → Place

-- The loop, from behind the opening quote.
unfoldable pub string_rest : Place → Bytes → Bytes → Option (Bytes × Bytes)
string_rest place [] out = none
string_rest at_byte (c ∷ input) out =
    let escaped = string_rest at_escape input out in
    let plain = string_rest at_byte input (out ++ c ∷ []) in
    if c == b'"'
    then some (out, input)
    else if ltb c 0x20
    then none
    else if c == b'\\'
    then escaped
    else plain
string_rest at_escape (e ∷ input) out =
    let digits = string_rest (at_digit 3 0) input out in
    if e == b'u'
    then digits
    else elim (unescape e) [ none ↦ none | some c ↦ string_rest at_byte input (out ++ c ∷ []) ]
string_rest (at_digit zero cp) (h ∷ input) out = elim (hex_value h) [
  | none ↦ none
  | some v ↦ string_rest at_byte input (out ++ utf8 (cp * 16 + v))
]
string_rest (at_digit (suc more) cp) (h ∷ input) out = elim (hex_value h) [
  | none ↦ none
  | some v ↦ string_rest (at_digit more (cp * 16 + v)) input out
]

abbrev pub string_behind : Option Bytes → Option (Bytes × Bytes)
string_behind none = none
string_behind (some input) = string_rest at_byte input []

-- `ParseString`.
abbrev pub parse_string : Bytes → Option (Bytes × Bytes)
parse_string input = string_behind (consume b'"' input)

-- `std::from_chars` for `int64_t`: out of range it fails.
abbrev pub in_int64 : Bool → ℕ → Option ℤ
in_int64 false n = if ltb n (2 ^ 63) then some (pos n) else none
in_int64 true zero = some (pos 0)
in_int64 true (suc n) = if ltb n (2 ^ 63) then some (negsuc n) else none

abbrev pub with_rest : Option ℤ → Bytes → Result (Json × Bytes)
with_rest none rest = failed
with_rest (some n) rest = ok (number n, rest)

abbrev pub starts_digit : Bytes → Bool
starts_digit [] = false
starts_digit (c ∷ input) = is_digit c

-- The digits from here on; there must be one.
abbrev pub parse_digits : Bool → Bytes → Result (Json × Bytes)
parse_digits negative input =
    let (n, rest) = read_digits 0 input in
    if starts_digit input then with_rest (in_int64 negative n) rest else failed

unfoldable pub parse_number : Bytes → Result (Json × Bytes)
parse_number [] = failed
parse_number (c ∷ input) =
    if c == b'-' then parse_digits true input else parse_digits false (c ∷ input)

-- `insert_or_assign`.
unfoldable pub insert_or_assign : Bytes → Json → Members → Members
insert_or_assign key v no_members = member key v no_members
insert_or_assign key v (member k w ms) =
    if bytes_eq k key then member k v ms else member k w (insert_or_assign key v ms)

unfoldable pub push_item : Items → Json → Items
push_item no_items v = item v no_items
push_item (item w is) v = item w (push_item is v)

-- A value that is no string, object or array, at its first byte.
unfoldable pub parse_scalar : Bytes → Result (Json × Bytes)
parse_scalar input =
    if starts_with (codes "true") input
    then ok (bool true, drop 4 input)
    else if starts_with (codes "false") input
    then ok (bool false, drop 5 input)
    else if starts_with (codes "null") input
    then ok (null, drop 4 input)
    else parse_number input

abbrev pub text_value : Bytes × Bytes → Result (Json × Bytes)
text_value (s, rest) = ok (text s, rest)

-- The value that the closing bracket ends, if that stands here.
abbrev pub closed_or : Option Bytes → Json → Result (Json × Bytes) → Result (Json × Bytes)
closed_or (some rest) v more = ok (v, rest)
closed_or none v more = more

-- Behind a member: the object's end, or a comma and the next one.
abbrev pub after_member :
    (Members → Bytes → Result (Json × Bytes)) → Members → Bytes → Result (Json × Bytes)
after_member more ms input =
    closed_or (consume b'}' input) (object ms) (from_option (consume b',' input) >>= more ms)

abbrev pub after_item :
    (Items → Bytes → Result (Json × Bytes)) → Items → Bytes → Result (Json × Bytes)
after_item more is input =
    closed_or (consume b']' input) (array is) (from_option (consume b',' input) >>= more is)

-- Behind the opening bracket: an empty object or array, or its first entry.
abbrev pub open_object : (Members → Bytes → Result (Json × Bytes)) → Bytes → Result (Json × Bytes)
open_object more input =
    closed_or (consume b'}' input) (object no_members) (more no_members (skip input))

abbrev pub open_array : (Items → Bytes → Result (Json × Bytes)) → Bytes → Result (Json × Bytes)
open_array more input = closed_or (consume b']' input) (array no_items) (more no_items (skip input))

-- The branches of `ParseValue` at the first byte that is no white space.
unfoldable pub parse_at :
    (Members → Bytes → Result (Json × Bytes))
    → (Items → Bytes → Result (Json × Bytes))
    → Bytes
    → Result (Json × Bytes)
parse_at members items [] = failed
parse_at members items (c ∷ input) =
    if c == b'"'
    then from_option (string_rest at_byte input []) >>= text_value
    else if c == b'{'
    then open_object members input
    else if c == b'['
    then open_array items input
    else parse_scalar (c ∷ input)

-- `ParseValue`, and the loops of `ParseObject` and `ParseArray` from behind the bracket. Each call
-- costs a unit of fuel.
unfoldable mutual
  pub parse_value : ℕ → Bytes → Result (Json × Bytes)
  parse_value zero input = out_of_fuel
  parse_value (suc f) input = parse_at (parse_members f) (parse_items f) (skip input)

  pub parse_members : ℕ → Members → Bytes → Result (Json × Bytes)
  parse_members zero ms input = out_of_fuel
  parse_members (suc f) ms input = from_option (parse_string input) >>= λ (key, after_key).
      from_option (consume b':' after_key) >>= λ after_colon.
      parse_value f after_colon >>= λ (v, rest).
      after_member (parse_members f) (insert_or_assign key v ms) rest

  pub parse_items : ℕ → Items → Bytes → Result (Json × Bytes)
  parse_items zero is input = out_of_fuel
  parse_items (suc f) is input =
      parse_value f input >>= λ (v, rest). after_item (parse_items f) (push_item is v) rest

abbrev pub finish : Json × Bytes → Result Json
finish (v, []) = ok v
finish (v, c ∷ rest) = failed

-- `Parse`. A value costs at most two units of fuel for each byte.
unfoldable pub parse_json : Bytes → Result Json
parse_json input = parse_value (2 * length input + 2) input >>= λ (v, rest). finish (v, skip rest)
