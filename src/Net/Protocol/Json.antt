-- ===== src/Net/Protocol/Json.antt =====
-- The members of an object's text in src/net/Protocol.cpp. A position is an offset, none the value `npos`.
use ipad_second_display.Common.{
  ℕ, zero, suc, ◌+◌, ◌-◌, Bool, true, false, not, ◌&&◌, ◌||◌, [], ◌∷◌, Option, none, some, ◌==◌,
  ltb, length, take, drop, if◌then◌else◌, Bytes, codes, bytes_eq, byte_at,
}
use ipad_second_display.Common.Text.{is_digit, is_space, find_from}

-- How many bytes at the front satisfy the test.
unfoldable pub count_while : (ℕ → Bool) → Bytes → ℕ
count_while p [] = 0
count_while p (c ∷ text) = let rest = count_while p text in if p c then suc rest else 0

-- `while (pos < json.size() && p(json[pos])) ++pos`.
abbrev pub skip_while : (ℕ → Bool) → Bytes → ℕ → ℕ
skip_while p json at = at + count_while p (drop at json)

-- Whether byte `at` exists and is `c`.
abbrev pub stands_at : Bytes → ℕ → ℕ → Bool
stands_at json at c = ltb at (length json) && byte_at json at == c

-- The loop to the closing quote: its offset, counted from `at`, and whether an escape was passed.
unfoldable pub string_end : Bytes → ℕ → Bool → Bool → Option (ℕ × Bool)
string_end [] at escaped key_has_escape = none
string_end (c ∷ text) at true key_has_escape = string_end text (suc at) false true
string_end (c ∷ text) at false key_has_escape =
    let after_backslash = string_end text (suc at) true key_has_escape in
    let after_other = string_end text (suc at) false key_has_escape in
    if c == b'\\'
    then after_backslash
    else if c == b'"'
    then some (at, key_has_escape)
    else after_other

-- The loop back over white space to the byte before a string.
unfoldable pub back_over_space : Bytes → ℕ → ℕ → ℕ
back_over_space json root zero = zero
back_over_space json root (suc p) =
    let rest = back_over_space json root p in
    if ltb root (suc p) && is_space (byte_at json p) then rest else suc p

-- The string that begins at `start` is a member's name of the root object.
abbrev pub is_member_name : Bytes → ℕ → ℕ → ℕ → Bool
is_member_name json root start depth =
    let previous = back_over_space json root start in
    depth == 1
    && ltb root previous
    && (byte_at json (previous - 1) == b'{' || byte_at json (previous - 1) == b',')

-- What follows the matching key.
abbrev pub value_after : Bytes → ℕ → Option ℕ
value_after json stop =
    let colon = skip_while is_space json (stop + 1) in
    if stands_at json colon b':' then some (skip_while is_space json (colon + 1)) else none

-- How the loop ends: at a value's position, with `npos`, or for want of the model's fuel.
pub data Search : Type 0 where
  found : ℕ → Search
  absent out_of_fuel : Search

abbrev pub search_of : Option ℕ → Search
search_of none = absent
search_of (some position) = found position

abbrev pub position_of : Search → Option ℕ
position_of (found position) = some position
position_of absent = none
position_of out_of_fuel = none

-- The loop over the object, `depth` from 1 up; the position grows in every round.
unfoldable pub find_loop : ℕ → Bytes → Bytes → ℕ → ℕ → ℕ → Search
find_loop zero json key root at depth = out_of_fuel
find_loop (suc fuel) json key root at depth =
    let c = byte_at json at in
    let deeper = find_loop fuel json key root (at + 1) (depth + 1) in
    let shallower = find_loop fuel json key root (at + 1) (depth - 1) in
    let next = find_loop fuel json key root (at + 1) depth in
    if not (ltb at (length json) && ltb 0 depth)
    then absent
    else if c == b'{' || c == b'['
    then deeper
    else if c == b'}' || c == b']'
    then shallower
    else if not (c == b'"')
    then next
    else elim (string_end (drop (at + 1) json) (at + 1) false false) [
      | none ↦ absent
      | some stop ↦
          let after_string = find_loop fuel json key root (stop.0 + 1) depth in
          if is_member_name json root at depth
            && not stop.1
            && bytes_eq (take (stop.0 - (at + 1)) (drop (at + 1) json)) key
          then search_of (value_after json stop.0)
          else after_string
    ]

unfoldable pub find_value_start : Bytes → Bytes → Option ℕ
find_value_start json key =
    let root = skip_while is_space json 0 in
    if stands_at json root b'{'
    then position_of (find_loop (suc (length json)) json key root (root + 1) 1)
    else none

abbrev pub string_to : Bytes → ℕ → Option ℕ → Option Bytes
string_to json start none = none
string_to json start (some stop) = some (take (stop - start) (drop start json))

pub string_at : Bytes → Option ℕ → Option Bytes
string_at json none = none
string_at json (some start) =
    if stands_at json start b'"'
    then string_to json (start + 1) (find_from (codes "\"") json (start + 1))
    else none

pub find_string_field : Bytes → Bytes → Option Bytes
find_string_field json key = string_at json (find_value_start json key)

-- The integer part, from after the sign; a leading 0 stands alone.
unfoldable pub integer_end : Bytes → ℕ → Option ℕ
integer_end json at =
    if stands_at json at b'0'
    then if ltb (at + 1) (length json) && is_digit (byte_at json (at + 1))
      then none
      else some (at + 1)
    else if ltb at (length json) && is_digit (byte_at json at)
    then some (skip_while is_digit json at)
    else none

unfoldable pub digits_end : Bytes → ℕ → Option ℕ
digits_end json start =
    let stop = skip_while is_digit json start in if stop == start then none else some stop

unfoldable pub fraction_end : Bytes → ℕ → Option ℕ
fraction_end json at = if stands_at json at b'.' then digits_end json (at + 1) else some at

unfoldable pub exponent_end : Bytes → ℕ → Option ℕ
exponent_end json at =
    if stands_at json at b'e' || stands_at json at b'E'
    then digits_end json
        (if stands_at json (at + 1) b'+' || stands_at json (at + 1) b'-' then at + 2 else at + 1)
    else some at

-- A comma or the object's end follows.
unfoldable pub delimited : Bytes → ℕ → Option ℕ
delimited json at =
    let delimiter = skip_while is_space json at in
    if stands_at json delimiter b',' || stands_at json delimiter b'}' then some at else none

unfoldable pub then_at : Option ℕ → (ℕ → Option ℕ) → Option ℕ
then_at none f = none
then_at (some k) f = f k

-- The end of a JSON number that begins at `start`.
unfoldable pub number_end : Bytes → ℕ → Option ℕ
number_end json start =
    let whole = integer_end json (if stands_at json start b'-' then start + 1 else start) in
    then_at (then_at (then_at whole (fraction_end json)) (exponent_end json)) (delimited json)
