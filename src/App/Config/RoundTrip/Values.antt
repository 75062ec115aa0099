-- ===== src/App/Config/RoundTrip/Values.antt =====
-- `JsonParser` of src/app/Config.cpp on the values that `Config::Serialize` writes.
use ipad_second_display.Common.{
  ℕ, zero, suc, ◌^◌, ◌≤◌, ◌<◌, lt→ltb, ◌≡◌, refl, ap, ◌∙◌, sym, Bool, true, false, [], ◌∷◌, ◌++◌,
  some, ◌==◌, Bytes, arith,
}
use ipad_second_display.Common.Int.{ℤ, pos, negsuc}
use ipad_second_display.Common.Text.{
  is_digit, is_space, starts_with, decimal, decimal-head, ends_number, read_digits-decimal,
}
use ipad_second_display.App.Config.Json.{
  Json, bool, number, text, ok, skip, parse_digits, starts_digit, parse_number, parse_scalar,
  parse_at, parse_value, in_int64,
}
use ipad_second_display.App.Config.Json.Strings.{string_rest-escape_json}
use ipad_second_display.App.Config.Json.Total.{FitsInt64}
use ipad_second_display.App.Config.Serialize.{Writer, write_text, write_bool, write_nat, write_int}

-- With fuel `n` or more the text is read as the value, whatever follows that goes on no number.
abbrev pub ReadsAs : ℕ → Writer → Json → Type 0
ReadsAs n w v =
    (f : ℕ) (rest : Bytes) → n ≤ f → ends_number rest ≡ true → parse_value f (w rest) ≡ ok (v, rest)

pub write_text-ReadsAs : (s : Bytes) → ReadsAs 1 (write_text s) (text s)
unfolding write_text parse_value parse_at skip
write_text-ReadsAs s zero rest h e = absurd (omega arith)
write_text-ReadsAs s (suc f) rest h e = rw (string_rest-escape_json s rest []) refl

pub write_bool-ReadsAs : (b : Bool) → ReadsAs 1 (write_bool b) (bool b)
unfolding write_bool parse_value parse_at skip parse_scalar starts_with
write_bool-ReadsAs b zero rest h e = absurd (omega arith)
write_bool-ReadsAs false (suc f) rest h e = refl
write_bool-ReadsAs true (suc f) rest h e = refl

parse_value-digit :
    (f c : ℕ) (rest : Bytes)
    → is_digit c ≡ true
    → parse_value (suc f) (c ∷ rest) ≡ parse_digits false (c ∷ rest)
unfolding parse_value parse_at skip parse_scalar starts_with parse_number
parse_value-digit f c rest h =
    let s : is_space c ≡ false = ground arith in
    let q : (c == b'"') ≡ false = ground arith in
    let o : (c == b'{') ≡ false = ground arith in
    let a : (c == b'[') ≡ false = ground arith in
    let t : (b't' == c) ≡ false = ground arith in
    let u : (b'f' == c) ≡ false = ground arith in
    let n : (b'n' == c) ≡ false = ground arith in
    let m : (c == b'-') ≡ false = ground arith in rw s (rw q (rw (o, a, t, u, n, m) refl))

starts_digit-decimal : (n : ℕ) (rest : Bytes) → starts_digit (decimal n ++ rest) ≡ true
starts_digit-decimal n rest = let (c, behind, head, digit) = decimal-head n in rw head digit

parse_digits-decimal :
    (negative : Bool) (n : ℕ) (z : ℤ) (rest : Bytes)
    → ends_number rest ≡ true
    → in_int64 negative n ≡ some z
    → parse_digits negative (decimal n ++ rest) ≡ ok (number z, rest)
parse_digits-decimal negative n z rest e fits =
    rw (starts_digit-decimal n rest) (rw (read_digits-decimal n rest e) (rw fits refl))

parse_value-decimal :
    (f n : ℕ) (rest : Bytes)
    → parse_value (suc f) (decimal n ++ rest) ≡ parse_digits false (decimal n ++ rest)
parse_value-decimal f n rest =
    let (c, behind, head, digit) = decimal-head n in
    let lead : decimal n ++ rest ≡ c ∷ (behind ++ rest) = ap (λ t. t ++ rest) head in
    ap (parse_value (suc f)) lead
    ∙ parse_value-digit f c (behind ++ rest) digit
    ∙ sym (ap (parse_digits false) lead)

pub write_nat-ReadsAs : (n : ℕ) → n < 2 ^ 63 → ReadsAs 1 (write_nat n) (number (pos n))
unfolding write_nat
write_nat-ReadsAs n h zero rest l e = absurd (omega arith)
write_nat-ReadsAs n h (suc f) rest l e =
    parse_value-decimal f n rest
    ∙ parse_digits-decimal false n (pos n) rest e (rw (lt→ltb n (2 ^ 63) h) refl)

parse_value-minus :
    (f : ℕ) (input : Bytes) → parse_value (suc f) (b'-' ∷ input) ≡ parse_digits true input
unfolding parse_value parse_at skip parse_scalar starts_with parse_number
parse_value-minus f input = refl

pub write_int-ReadsAs : (z : ℤ) → FitsInt64 z → ReadsAs 1 (write_int z) (number z)
unfolding write_int write_nat
write_int-ReadsAs (pos n) h f rest l e = write_nat-ReadsAs n h f rest l e
write_int-ReadsAs (negsuc n) h zero rest l e = absurd (omega arith)
write_int-ReadsAs (negsuc n) h (suc f) rest l e =
    parse_value-minus f (decimal (suc n) ++ rest)
    ∙ parse_digits-decimal true (suc n) (negsuc n) rest e (rw (lt→ltb n (2 ^ 63) h) refl)
