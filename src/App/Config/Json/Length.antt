-- ===== src/App/Config/Json/Length.antt =====
-- How far `JsonParser` of src/app/Config.cpp gets in its text.
use ipad_second_display.Common.{
  ℕ, zero, suc, ◌+◌, ◌-◌, ◌*◌, ◌≤◌, ◌<◌, ◌≡◌, refl, inl, inr, [], ◌∷◌, ◌++◌, Option, none, some,
  length, Bytes, arith, Option-cases,
}
use ipad_second_display.Common.Text.{read_digits}
use ipad_second_display.App.Config.Json.{
  skip, take_byte, consume, hex_value, unescape, Place, at_byte, at_escape, at_digit, string_rest,
  string_behind, parse_string, utf8,
}

pub length-skip : (input : Bytes) → length (skip input) ≤ length input
unfolding skip
length-skip [] = omega arith
length-skip (c ∷ input) = ground (arith, length-skip input)

pub take_byte-shorter :
    (c : ℕ) (input rest : Bytes) → take_byte c input ≡ some rest → length rest < length input
take_byte-shorter c [] rest e = ground arith
take_byte-shorter c (b ∷ input) rest e = ground arith

pub consume-shorter :
    (c : ℕ) (input rest : Bytes) → consume c input ≡ some rest → length rest < length input
consume-shorter c input rest e =
    omega (arith, take_byte-shorter c (skip input) rest e, length-skip input)

pub string_rest-shorter :
    (place : Place) (input out s rest : Bytes)
    → string_rest place input out ≡ some (s, rest)
    → length rest < length input
unfolding string_rest
string_rest-shorter place [] out s rest e = ground arith
string_rest-shorter at_byte (c ∷ input) out s rest e = ground (
  arith,
  string_rest-shorter at_escape input out s rest,
  string_rest-shorter at_byte input (out ++ c ∷ []) s rest,
)
string_rest-shorter at_escape (c ∷ input) out s rest e = elim (Option-cases (unescape c)) [
  | inl bad ↦ ground (arith, bad, string_rest-shorter (at_digit 3 0) input out s rest)
  | inr (b, good) ↦ ground (
    arith,
    good,
    string_rest-shorter (at_digit 3 0) input out s rest,
    string_rest-shorter at_byte input (out ++ b ∷ []) s rest,
  )
]
string_rest-shorter (at_digit zero cp) (h ∷ input) out s rest e =
    elim (Option-cases (hex_value h)) [
      | inl bad ↦ ground (arith, bad)
      | inr (v, good) ↦
          ground (arith, good, string_rest-shorter at_byte input (out ++ utf8 (cp * 16 + v)) s rest)
    ]
string_rest-shorter (at_digit (suc more) cp) (h ∷ input) out s rest e =
    elim (Option-cases (hex_value h)) [
      | inl bad ↦ ground (arith, bad)
      | inr (v, good) ↦
          ground (arith, good, string_rest-shorter (at_digit more (cp * 16 + v)) input out s rest)
    ]

pub read_digits-shorter :
    (acc : ℕ) (input : Bytes) → length (read_digits acc input).1 ≤ length input
unfolding read_digits
read_digits-shorter acc [] = omega arith
read_digits-shorter acc (c ∷ input) =
    ground (arith, read_digits-shorter (acc * 10 + (c - b'0')) input)

pub string_behind-shorter :
    (o : Option Bytes) (n : ℕ) (s rest : Bytes)
    → ((input : Bytes) → o ≡ some input → length input < n)
    → string_behind o ≡ some (s, rest)
    → length rest < n
string_behind-shorter none n s rest h e = ground arith
string_behind-shorter (some input) n s rest h e =
    omega (arith, h input refl, string_rest-shorter at_byte input [] s rest e)

pub parse_string-shorter :
    (input s rest : Bytes) → parse_string input ≡ some (s, rest) → length rest < length input
parse_string-shorter input s rest e =
    string_behind-shorter (consume b'"' input) (length input) s rest
      (λ behind. consume-shorter b'"' input behind) e
