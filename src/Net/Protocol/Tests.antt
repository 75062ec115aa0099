-- ===== src/Net/Protocol/Tests.antt =====
-- src/net/Protocol.cpp, with the integers as the doubles.
use ipad_second_display.Common.{
  ℕ, suc, ◌+◌, ◌<◌, ◌≡◌, refl, true, [], ◌∷◌, Option, none, some, Bytes, codes, length, All,
  bytes_eq,
}
use ipad_second_display.Common.Int.{pos, ltb_ℤ}
use ipad_second_display.Common.Text.{read_digits, decimal, decimal_onto}
use ipad_second_display.Net.Protocol.{
  NumberText, find_value_start, find_loop, count_while, string_end, back_over_space, is_number_byte,
  is_control_payload, serialize_pong, is_valid_json_number, find_number_token, token_at,
  find_number_field, number_at, number_to, number_end, then_at, integer_end, digits_end,
  fraction_end, exponent_end, delimited,
}
use ipad_second_display.Net.Protocol.Scan.{InText, Ends, find_loop-Ends, find_value_start-InText}
use ipad_second_display.Net.Protocol.Pong.{serialize_pong_lem}

abbrev whole_number : ℕ × Bytes → Option ℕ
whole_number (n, []) = some n
whole_number (n, c ∷ rest) = none

-- Doubles that are natural numbers.
abbrev naturals : NumberText
naturals = record {
  Double = ℕ;
  zero_double = 0;
  upright = 1;
  from_chars = λ text. whole_number (read_digits 0 text);
  to_chars = λ v. some (decimal v);
  is_below = λ v bound. ltb_ℤ (pos v) bound;
  is_above = λ v bound. ltb_ℤ bound (pos v);
  is_whole = λ v. true;
  to_int = λ v. pos v;
}

abbrev nested : Bytes
nested = codes "{\"s\":{\"type\":\"closing\"},\"type\":\"kf\"}"

skips_nested : find_value_start nested (codes "type") ≡ some 31
unfolding find_value_start find_loop count_while string_end back_over_space bytes_eq
skips_nested = refl

find_value_start-InText_example : InText nested (find_value_start nested (codes "type"))
find_value_start-InText_example = find_value_start-InText nested (codes "type")

scans_nested : Ends (find_loop (suc (length nested)) nested (codes "type") 0 (0 + 1) 1)
scans_nested = find_loop-Ends nested (codes "type") 0

abbrev pong : Bytes
pong = codes "{\"type\":\"pong\",\"t\":12,\"mt\":7}"

pong_sent : serialize_pong naturals 7 (codes "12") ≡ some pong
unfolding serialize_pong is_valid_json_number find_number_token token_at find_number_field number_at
    number_to number_end then_at integer_end digits_end fraction_end exponent_end delimited
    is_number_byte find_value_start find_loop count_while string_end back_over_space bytes_eq
    read_digits decimal decimal_onto
pong_sent = refl

serialize_pong_lem_example :
    All (λ c. is_number_byte c ≡ true) (codes "12")
    × (length pong < 32768 → is_control_payload pong ≡ true)
serialize_pong_lem_example = serialize_pong_lem naturals 7 (codes "12") pong pong_sent
