-- ===== src/App/UiModel/Redaction/Address.antt =====
-- A printed IPv4 address under the tests of src/app/UiModel.cpp.
use ipad_second_display.Common.{
  ℕ, zero, suc, ◌+◌, ◌*◌, ◌/◌, ◌%◌, ◌≤◌, ◌<◌, ◌≡◌, ◌∙◌, refl, sym, ap, subst, append-nil, ltb→lt,
  Bool, true, false, not, ◌||◌, ◌==◌, ltb, Bool-cases, inl, inr, [], ◌∷◌, ◌++◌, arith, length,
  Bytes, none, some, All,
}
use ipad_second_display.Common.Text.{is_digit, decimal, decimal_onto, decimal-head}
use ipad_second_display.App.UiModel.{
  before_dot, after_dot, octet_of, is_octet, is_ipv4_from, is_ipv4, is_address_byte, run_of,
  after_run, count_dots, is_address,
}

-- The text does not go on with a digit or a dot.
abbrev pub starts_clear : Bytes → Bool
starts_clear [] = true
starts_clear (c ∷ text) = not (is_digit c || c == b'.')

-- The four numbers in decimal, with dots between them.
abbrev pub address : ℕ → ℕ → ℕ → ℕ → Bytes
address a b c d = decimal a ++ b'.' ∷ (decimal b ++ b'.' ∷ (decimal c ++ b'.' ∷ decimal d))

-- A part between the dots, as the test takes it.
record IsPart (p : Bytes) : Type 0 where
  sized : (length p == 0 || ltb 3 (length p)) ≡ false
  octet : is_octet (octet_of 0 p) ≡ true
  digits : All (λ c. is_digit c ≡ true) p

last_digit : (fuel n : ℕ) (acc : Bytes) → n < 10 → decimal_onto (suc fuel) n acc ≡ (b'0' + n) ∷ acc
unfolding decimal_onto
last_digit fuel n acc h = ground arith

more_digits :
    (fuel n : ℕ) (acc : Bytes)
    → 10 ≤ n
    → decimal_onto (suc fuel) n acc ≡ decimal_onto fuel (n / 10) ((b'0' + n % 10) ∷ acc)
unfolding decimal_onto
more_digits fuel n acc h = ground arith

one_digit-IsPart : (n : ℕ) → n < 10 → IsPart ((b'0' + n) ∷ [])
unfolding octet_of
one_digit-IsPart n h = record { sized = refl; octet = ground arith; digits = (ground arith, tt) }

two_digits-IsPart : (m n : ℕ) → m < 10 → n < 10 → IsPart ((b'0' + m) ∷ (b'0' + n) ∷ [])
unfolding octet_of
two_digits-IsPart m n h k = record {
  sized = refl;
  octet = ground arith;
  digits = (ground arith, (ground arith, tt));
}

three_digits-IsPart :
    (l m n : ℕ)
    → l < 10
    → m < 10
    → n < 10
    → (l * 10 + m) * 10 + n ≤ 255
    → IsPart ((b'0' + l) ∷ (b'0' + m) ∷ (b'0' + n) ∷ [])
unfolding octet_of
three_digits-IsPart l m n h k j u = record {
  sized = refl;
  octet = ground arith;
  digits = (ground arith, (ground arith, (ground arith, tt)));
}

decimal-IsPart : (n : ℕ) → n ≤ 255 → IsPart (decimal n)
unfolding decimal
decimal-IsPart n h = elim (Bool-cases (ltb n 10)) [
  | inl one ↦
      let small = ltb→lt _ _ one in
      subst IsPart (sym (last_digit n n [] small)) (one_digit-IsPart n small)
  | inr more ↦ elim (Bool-cases (ltb n 100)) [
    | inl two ↦ two_digits n (ground (arith, more)) (ltb→lt _ _ two)
    | inr three ↦ three_digits n (ground (arith, three)) h
  ]
]
  where
    two_digits : (n : ℕ) → 10 ≤ n → n < 100 → IsPart (decimal_onto (suc n) n [])
    two_digits zero h k = absurd (omega arith)
    two_digits (suc f) h k =
        let n = suc f in
        subst IsPart
          (sym (more_digits n n [] h ∙ last_digit f (n / 10) ((b'0' + n % 10) ∷ []) (omega arith)))
          (two_digits-IsPart (n / 10) (n % 10) (omega arith) (omega arith))

    three_digits : (n : ℕ) → 100 ≤ n → n ≤ 255 → IsPart (decimal_onto (suc n) n [])
    three_digits zero h k = absurd (omega arith)
    three_digits (suc zero) h k = absurd (omega arith)
    three_digits (suc (suc f)) h k =
        let n = suc (suc f) in
        let low = (b'0' + n % 10) ∷ [] in
        subst IsPart
          (sym (
            more_digits n n [] (omega arith)
            ∙ more_digits (suc f) (n / 10) low (omega arith)
            ∙ last_digit f (n / 10 / 10) ((b'0' + n / 10 % 10) ∷ low) (omega arith)))
          (three_digits-IsPart (n / 10 / 10) (n / 10 % 10) (n % 10) (omega arith) (omega arith)
            (omega arith) (omega arith))

-- A part in front of a dot, and at the end.
before_dot-append :
    (p rest : Bytes)
    → All (λ c. is_digit c ≡ true) p
    → (before_dot (p ++ b'.' ∷ rest) ≡ p) × (after_dot (p ++ b'.' ∷ rest) ≡ some rest)
unfolding before_dot after_dot
before_dot-append [] rest h = (refl, refl)
before_dot-append (c ∷ p) rest h =
    let other : (c == b'.') ≡ false = ground (arith, h.0) in
    let ih = before_dot-append p rest h.1 in (rw other (ap (◌∷◌ c) ih.0), rw other ih.1)

before_dot-end :
    (p : Bytes) → All (λ c. is_digit c ≡ true) p → (before_dot p ≡ p) × (after_dot p ≡ none)
unfolding before_dot after_dot
before_dot-end [] h = (refl, refl)
before_dot-end (c ∷ p) h =
    let other : (c == b'.') ≡ false = ground (arith, h.0) in
    let ih = before_dot-end p h.1 in (rw other (ap (◌∷◌ c) ih.0), rw other ih.1)

count_dots-append :
    (p rest : Bytes) → All (λ c. is_digit c ≡ true) p → count_dots (p ++ rest) ≡ count_dots rest
unfolding count_dots
count_dots-append [] rest h = refl
count_dots-append (c ∷ p) rest h = ground (arith, h.0, count_dots-append p rest h.1)

count_dots_nil : count_dots [] ≡ 0
unfolding count_dots
count_dots_nil = refl

count_dots-dot : (text : Bytes) → count_dots (b'.' ∷ text) ≡ suc (count_dots text)
unfolding count_dots
count_dots-dot text = omega arith

part_then :
    (fuel parts : ℕ) (p rest : Bytes)
    → IsPart p
    → parts < 4
    → is_ipv4_from (suc fuel) parts (p ++ b'.' ∷ rest) ≡ is_ipv4_from fuel (parts + 1) rest
unfolding is_ipv4_from
part_then fuel parts p rest h k =
    let (first, behind) = before_dot-append p rest h.digits in
    let few : ltb 4 (parts + 1) ≡ false = ground arith in
    rw (first, behind, h.sized, h.octet, few) refl

last_part : (fuel : ℕ) (p : Bytes) → IsPart p → is_ipv4_from (suc fuel) 3 p ≡ true
unfolding is_ipv4_from
last_part fuel p h =
    let (first, behind) = before_dot-end p h.digits in rw (first, behind, h.sized, h.octet) refl

pub is_address-address :
    (a b c d : ℕ) → a ≤ 255 → b ≤ 255 → c ≤ 255 → d ≤ 255 → is_address (address a b c d) ≡ true
unfolding is_ipv4
is_address-address a b c d i j k l =
    let p = decimal-IsPart a i in
    let q = decimal-IsPart b j in
    let r = decimal-IsPart c k in
    let s = decimal-IsPart d l in
    let third = b'.' ∷ decimal d in
    let second = b'.' ∷ (decimal c ++ third) in
    let end : count_dots (decimal d) ≡ 0 =
      ap count_dots (sym (append-nil (decimal d)))
      ∙ count_dots-append (decimal d) [] s.digits
      ∙ count_dots_nil in
    let dots : count_dots (address a b c d) ≡ 3 = omega (
      arith,
      count_dots-append (decimal a) (b'.' ∷ (decimal b ++ second)) p.digits,
      count_dots-dot (decimal b ++ second),
      count_dots-append (decimal b) second q.digits,
      count_dots-dot (decimal c ++ third),
      count_dots-append (decimal c) third r.digits,
      count_dots-dot (decimal d),
      end,
    ) in
    let parts : is_ipv4_from 5 0 (address a b c d) ≡ true =
      part_then 4 0 (decimal a) (decimal b ++ second) p (omega arith)
      ∙ part_then 3 1 (decimal b) (decimal c ++ third) q (omega arith)
      ∙ part_then 2 2 (decimal c) (decimal d) r (omega arith)
      ∙ last_part 1 (decimal d) s in
    rw (dots, parts) refl

-- Bytes of an address, before a text that starts clear, are a run.
pub run_of-address :
    (run back : Bytes)
    → All (λ c. is_address_byte c ≡ true) run
    → starts_clear back ≡ true
    → (run_of (run ++ back) ≡ run) × (after_run (run ++ back) ≡ back)
unfolding run_of after_run
run_of-address [] [] h k = (refl, refl)
run_of-address [] (c ∷ back) h k = (ground (arith, k), ground (arith, k))
run_of-address (c ∷ run) back h k =
    let ih = run_of-address run back h.1 k in (rw h.0 (ap (◌∷◌ c) ih.0), rw h.0 ih.1)

All-part :
    (p rest : Bytes)
    → All (λ c. is_digit c ≡ true) p
    → All (λ c. is_address_byte c ≡ true) rest
    → All (λ c. is_address_byte c ≡ true) (p ++ rest)
All-part [] rest h k = k
All-part (c ∷ p) rest h k = (rw h.0 refl, All-part p rest h.1 k)

-- An address has nothing but digits and dots.
pub address-bytes :
    (a b c d : ℕ)
    → a ≤ 255
    → b ≤ 255
    → c ≤ 255
    → d ≤ 255
    → All (λ c. is_address_byte c ≡ true) (address a b c d)
address-bytes a b c d i j k l =
    let end =
      subst (All (λ c. is_address_byte c ≡ true)) (append-nil (decimal d))
        (All-part (decimal d) [] (decimal-IsPart d l).digits tt) in
    All-part (decimal a) _ (decimal-IsPart a i).digits (
      refl,
      All-part (decimal b) _ (decimal-IsPart b j).digits
          (refl, All-part (decimal c) _ (decimal-IsPart c k).digits (refl, end)),
    )

-- It begins with a digit.
pub address-head :
    (a b c d : ℕ) → (x : ℕ) × (rest : Bytes) × (address a b c d ≡ x ∷ rest) × (is_digit x ≡ true)
address-head a b c d =
    let (x, rest, e, h) = decimal-head a in
    let back = b'.' ∷ (decimal b ++ b'.' ∷ (decimal c ++ b'.' ∷ decimal d)) in
    (x, rest ++ back, ap (λ t. t ++ back) e, h)
