-- ===== src/Common/Text.antt =====
-- What the source uses of the C and C++ libraries for text, on bytes and in the C locale.
use Prim.Native.Nat.{ℕ, zero, suc, ◌+◌, ◌-◌, ◌*◌, ◌/◌, ◌%◌, ◌<◌}
use mathlib.Core.Path.{◌≡◌, refl, ap, ◌∙◌}
use mathlib.Core.Bool.{Bool, true, false, not, ◌&&◌, ◌||◌}
use mathlib.Core.List.{List, [], ◌∷◌, ◌++◌}
use mathlib.Core.Logic.{inl, inr}
use mathlib.Core.Option.{Option, none, some}
use native.Mathlib.Omega.{arith}
use ipad_second_display.Common.Tests.{leb, ltb, ◌==◌, if◌then◌else◌, Bool-cases}
use ipad_second_display.Common.Lists.{drop}

abbrev pub is_digit : ℕ → Bool
is_digit c = leb b'0' c && leb c b'9'

abbrev pub is_upper : ℕ → Bool
is_upper c = leb b'A' c && leb c b'Z'

abbrev pub is_lower : ℕ → Bool
is_lower c = leb b'a' c && leb c b'z'

abbrev pub is_alnum : ℕ → Bool
is_alnum c = is_digit c || is_upper c || is_lower c

-- Space, and the five codes from tab to carriage return.
abbrev pub is_space : ℕ → Bool
is_space c = c == 32 || leb 9 c && leb c 13

abbrev pub to_lower : ℕ → ℕ
to_lower c = if is_upper c then c + 32 else c

unfoldable pub starts_with : List ℕ → List ℕ → Bool
starts_with [] text = true
starts_with (x ∷ needle) [] = false
starts_with (x ∷ needle) (y ∷ text) = x == y && starts_with needle text

-- `find`: the first offset at which the needle stands.
unfoldable pub find : List ℕ → List ℕ → Option ℕ
unfolding starts_with
find needle [] = if starts_with needle [] then some 0 else none
find needle (c ∷ text) =
    let rest = find needle text in
    if starts_with needle (c ∷ text)
    then some 0
    else elim rest [ none ↦ none | some k ↦ some (suc k) ]

-- `find(needle, start)` for a start within the text.
unfoldable pub find_from : List ℕ → List ℕ → ℕ → Option ℕ
unfolding find
find_from needle text start = elim (find needle (drop start text)) [
  | none ↦ none
  | some k ↦ some (start + k)
]

-- `rfind(needle, last)`: the last offset, up to `last`, at which the needle stands; `i` is the
-- offset of the head.
unfoldable pub rfind_at : List ℕ → ℕ → List ℕ → ℕ → Option ℕ
unfolding starts_with
rfind_at needle i [] last = none
rfind_at needle i (c ∷ text) last =
    let rest = rfind_at needle (suc i) text last in
    let here = if leb i last && starts_with needle (c ∷ text) then some i else none in
    elim rest [ none ↦ here | some k ↦ some k ]

abbrev pub rfind : List ℕ → List ℕ → ℕ → Option ℕ
rfind needle text last = rfind_at needle 0 text last

-- `std::to_string`, the last digit first and then reversed by the accumulator.
unfoldable pub decimal_onto : ℕ → ℕ → List ℕ → List ℕ
decimal_onto zero n acc = acc
decimal_onto (suc fuel) n acc =
    let rest = decimal_onto fuel (n / 10) ((b'0' + n % 10) ∷ acc) in
    if ltb n 10 then (b'0' + n) ∷ acc else rest

-- One round for each digit; a number has fewer digits than its value and one.
unfoldable pub decimal : ℕ → List ℕ
unfolding decimal_onto
decimal n = decimal_onto (suc n) n []

-- The digits at the front, read as a number after `acc`, and what follows them.
unfoldable pub read_digits : ℕ → List ℕ → ℕ × List ℕ
read_digits acc [] = (acc, [])
read_digits acc (c ∷ text) =
    let rest = read_digits (acc * 10 + (c - b'0')) text in
    if is_digit c then rest else (acc, c ∷ text)

-- No digit stands at the front.
abbrev pub ends_number : List ℕ → Bool
ends_number [] = true
ends_number (c ∷ text) = not (is_digit c)

read_digits_stop :
    (acc : ℕ) (text : List ℕ) → ends_number text ≡ true → read_digits acc text ≡ (acc, text)
unfolding read_digits
read_digits_stop acc [] h = refl
read_digits_stop acc (c ∷ text) h = ground arith

read_digit :
    (acc d : ℕ) (back : List ℕ)
    → d < 10
    → read_digits acc ((b'0' + d) ∷ back) ≡ read_digits (acc * 10 + d) back
unfolding read_digits
read_digit acc d back h = let e : b'0' + d - b'0' ≡ d = omega arith in rw e (ground arith)

-- `acc * 10 ^ (number of digits) + n`, by the digits of `n`.
shifted : ℕ → ℕ → ℕ → ℕ
shifted zero n acc = acc
shifted (suc fuel) n acc =
    let rest = shifted fuel (n / 10) acc * 10 + n % 10 in if ltb n 10 then acc * 10 + n else rest

read_digits-decimal_onto :
    (fuel n acc : ℕ) (back : List ℕ)
    → n < fuel
    → read_digits acc (decimal_onto fuel n back) ≡ read_digits (shifted fuel n acc) back
unfolding decimal_onto shifted
read_digits-decimal_onto zero n acc back h = absurd (omega arith)
read_digits-decimal_onto (suc fuel) n acc back h = ground (
  arith,
  read_digit acc n back,
  read_digit (shifted fuel (n / 10) acc) (n % 10) back,
  read_digits-decimal_onto fuel (n / 10) acc ((b'0' + n % 10) ∷ back),
)

shifted_zero : (fuel n : ℕ) → n < fuel → shifted fuel n 0 ≡ n
unfolding shifted
shifted_zero zero n h = absurd (omega arith)
shifted_zero (suc fuel) n h = ground (arith, shifted_zero fuel (n / 10))

decimal_onto-append :
    (fuel n : ℕ) (back rest : List ℕ)
    → decimal_onto fuel n back ++ rest ≡ decimal_onto fuel n (back ++ rest)
unfolding decimal_onto
decimal_onto-append zero n back rest = refl
decimal_onto-append (suc fuel) n back rest =
    ground (arith, decimal_onto-append fuel (n / 10) ((b'0' + n % 10) ∷ back) rest)

-- A printed number reads back, whatever stands behind it that is no digit.
pub read_digits-decimal :
    (n : ℕ) (rest : List ℕ)
    → ends_number rest ≡ true
    → read_digits 0 (decimal n ++ rest) ≡ (n, rest)
unfolding decimal
read_digits-decimal n rest h =
    ap (read_digits 0) (decimal_onto-append (suc n) n [] rest)
    ∙ read_digits-decimal_onto (suc n) n 0 rest (omega arith)
    ∙ ap (λ k. read_digits k rest) (shifted_zero (suc n) n (omega arith))
    ∙ read_digits_stop n rest h

decimal_onto-head :
    (fuel n : ℕ) (back : List ℕ)
    → n < fuel
    → (c : ℕ) × (rest : List ℕ) × (decimal_onto fuel n back ≡ c ∷ rest) × (is_digit c ≡ true)
unfolding decimal_onto
decimal_onto-head zero n back h = absurd (omega arith)
decimal_onto-head (suc fuel) n back h = elim (Bool-cases (ltb n 10)) [
  | inl small ↦ (b'0' + n, back, rw small refl, ground arith)
  | inr large ↦
      let (c, rest, e, d) =
        decimal_onto-head fuel (n / 10) ((b'0' + n % 10) ∷ back) (ground arith) in
      (c, rest, rw large e, d)
]

-- A printed number begins with a digit.
pub decimal-head :
    (n : ℕ) → (c : ℕ) × (rest : List ℕ) × (decimal n ≡ c ∷ rest) × (is_digit c ≡ true)
unfolding decimal
decimal-head n = decimal_onto-head (suc n) n [] (omega arith)
