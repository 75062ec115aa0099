-- ===== src/App/UiModel/Redaction.antt =====
-- The redaction of addresses of src/app/UiModel.cpp, against the addresses as they are printed.
pub mod Address
use ipad_second_display.Common.{
  ℕ, zero, suc, ◌≤◌, ◌<◌, ◌≡◌, ◌∙◌, refl, sym, ap, Bool, true, false, not, ◌&&◌, ◌||◌, ◌==◌,
  Bool-cases, inl, inr, [], ◌∷◌, ◌++◌, append_assoc, length-append, arith, length, if◌then◌else◌,
  Bytes, codes,
}
use ipad_second_display.Common.Text.{is_digit}
use ipad_second_display.App.UiModel.{
  is_address_byte, run_of, after_run, is_address, redact_addresses_loop, redact_addresses,
}
use ipad_second_display.App.UiModel.Redaction.Address.{
  address, address-head, address-bytes, is_address-address, run_of-address, starts_clear,
}

-- The text does not end with a digit or a dot.
abbrev pub ends_clear : Bytes → Bool
ends_clear [] = true
ends_clear (c ∷ []) = not (is_digit c || c == b'.')
ends_clear (c ∷ d ∷ text) = ends_clear (d ∷ text)

ends_clear-rest : (c : ℕ) (text : Bytes) → ends_clear (c ∷ text) ≡ true → ends_clear text ≡ true
ends_clear-rest c [] h = refl
ends_clear-rest c (d ∷ text) h = h

length-after_run : (text : Bytes) → length (after_run text) ≤ length text
unfolding after_run
length-after_run [] = omega arith
length-after_run (c ∷ text) = ground (arith, length-after_run text)

after_run_shorter :
    (c : ℕ) (text : Bytes) → is_digit c ≡ true → length (after_run (c ∷ text)) ≤ length text
unfolding after_run
after_run_shorter c text h = rw h (length-after_run text)

ends_clear-after_run : (text : Bytes) → ends_clear text ≡ true → ends_clear (after_run text) ≡ true
unfolding after_run
ends_clear-after_run [] h = refl
ends_clear-after_run (c ∷ text) h = elim (Bool-cases (is_address_byte c)) [
  | inl inside ↦ rw inside (ends_clear-after_run text (ends_clear-rest c text h))
  | inr behind ↦ rw behind h
]

-- A run that begins in a text which ends clear stays in it.
run_of-append :
    (c : ℕ) (text back : Bytes)
    → ends_clear (c ∷ text) ≡ true
    → run_of (c ∷ (text ++ back)) ≡ run_of (c ∷ text)
unfolding run_of
run_of-append c [] back h = ground (arith, h)
run_of-append c (d ∷ text) back h = elim (Bool-cases (is_address_byte c)) [
  | inl inside ↦ rw inside (ap (◌∷◌ c) (run_of-append d text back h))
  | inr behind ↦ rw behind refl
]

after_run-append :
    (c : ℕ) (text back : Bytes)
    → ends_clear (c ∷ text) ≡ true
    → after_run (c ∷ (text ++ back)) ≡ after_run (c ∷ text) ++ back
unfolding after_run
after_run-append c [] back h =
    let clear : is_address_byte c ≡ false = ground (arith, h) in rw clear refl
after_run-append c (d ∷ text) back h = elim (Bool-cases (is_address_byte c)) [
  | inl inside ↦ rw inside (after_run-append d text back h)
  | inr behind ↦ rw behind refl
]

-- Enough rounds are all the same.
loop_enough :
    (f g : ℕ) (text : Bytes)
    → length text < f
    → length text < g
    → redact_addresses_loop f text ≡ redact_addresses_loop g text
unfolding redact_addresses_loop
loop_enough zero g text h k = absurd (omega arith)
loop_enough (suc f) zero text h k = absurd (omega arith)
loop_enough (suc f) (suc g) [] h k = refl
loop_enough (suc f) (suc g) (c ∷ text) h k = elim (Bool-cases (is_digit c)) [
  | inr other ↦ rw other (ap (◌∷◌ c) (loop_enough f g text (omega arith) (omega arith)))
  | inl digit ↦
      let shorter = after_run_shorter c text digit in
      let same = loop_enough f g (after_run (c ∷ text)) (omega arith) (omega arith) in
      elim (Bool-cases (is_address (run_of (c ∷ text)))) [
        | inl hides ↦ rw (digit, hides) (ap (λ t. codes "<ip>" ++ t) same)
        | inr keeps ↦ rw (digit, keeps) (ap (λ t. run_of (c ∷ text) ++ t) same)
      ]
]

-- A text that ends clear is redacted for itself.
loop-append :
    (f g k : ℕ) (text back : Bytes)
    → length (text ++ back) < f
    → length text < g
    → length back < k
    → ends_clear text ≡ true
    → redact_addresses_loop f (text ++ back)
      ≡ redact_addresses_loop g text ++ redact_addresses_loop k back
unfolding redact_addresses_loop
loop-append zero g k text back h i j clear = absurd (omega arith)
loop-append (suc f) zero k text back h i j clear = absurd (omega arith)
loop-append (suc f) (suc g) k [] back h i j clear = loop_enough (suc f) k back h j
loop-append (suc f) (suc g) k (c ∷ text) back h i j clear = elim (Bool-cases (is_digit c)) [
  | inr other ↦ rw other (
      ap (◌∷◌ c)
        (loop-append f g k text back (omega arith) (omega arith) j (ends_clear-rest c text clear)))
  | inl digit ↦
      let shorter = after_run_shorter c text digit in
      let on =
        loop-append f g k (after_run (c ∷ text)) back
          (omega (arith, length-append text back, length-append (after_run (c ∷ text)) back))
          (omega arith) j (ends_clear-after_run (c ∷ text) clear) in
      let run = run_of-append c text back clear in
      let behind = after_run-append c text back clear in
      elim (Bool-cases (is_address (run_of (c ∷ text)))) [
        | inl hides ↦ rw (digit, run, behind, hides) (ap (λ t. codes "<ip>" ++ t) on)
        | inr keeps ↦
            rw (digit, run, behind, keeps)
              (ap (λ t. run_of (c ∷ text) ++ t) on ∙ sym (append_assoc (run_of (c ∷ text)) _ _))
      ]
]

address_round :
    (f x : ℕ) (rest back : Bytes)
    → is_digit x ≡ true
    → is_address (x ∷ rest) ≡ true
    → run_of ((x ∷ rest) ++ back) ≡ x ∷ rest
    → after_run ((x ∷ rest) ++ back) ≡ back
    → redact_addresses_loop (suc f) ((x ∷ rest) ++ back)
      ≡ codes "<ip>" ++ redact_addresses_loop f back
unfolding redact_addresses_loop
address_round f x rest back digit hides run behind = rw (digit, run, behind, hides) refl

address_first :
    (back : Bytes) (a b c d : ℕ)
    → a ≤ 255
    → b ≤ 255
    → c ≤ 255
    → d ≤ 255
    → starts_clear back ≡ true
    → redact_addresses (address a b c d ++ back) ≡ codes "<ip>" ++ redact_addresses back
unfolding redact_addresses
address_first back a b c d i j k l starts =
    let (x, rest, e, digit) = address-head a b c d in
    let (run, behind) =
      run_of-address (address a b c d) back (address-bytes a b c d i j k l) starts in
    let hides = is_address-address a b c d i j k l in
    let n = length (address a b c d ++ back) in
    let longer : length back < n =
      ground (arith, ap length e, length-append (address a b c d) back) in
    ap (λ t. redact_addresses_loop (suc n) (t ++ back)) e
    ∙ address_round n x rest back digit (ap is_address (sym e) ∙ hides)
        (ap (λ t. run_of (t ++ back)) (sym e) ∙ run ∙ e)
        (ap (λ t. after_run (t ++ back)) (sym e) ∙ behind)
    ∙ ap (λ t. codes "<ip>" ++ t) (loop_enough n (suc (length back)) back longer (omega arith))

redact_addresses-append :
    (front back : Bytes)
    → ends_clear front ≡ true
    → redact_addresses (front ++ back) ≡ redact_addresses front ++ redact_addresses back
unfolding redact_addresses
redact_addresses-append front back h =
    loop-append (suc (length (front ++ back))) (suc (length front)) (suc (length back)) front back
      (omega arith) (omega arith) (omega arith) h

-- An IPv4 address, printed in decimal anywhere in a text with no digit and no dot right before or
-- behind it, is replaced by `<ip>`, and the text on either side is redacted as it is alone.
pub redact_addresses-address :
    (front back : Bytes) (a b c d : ℕ)
    → a ≤ 255
    → b ≤ 255
    → c ≤ 255
    → d ≤ 255
    → ends_clear front ≡ true
    → starts_clear back ≡ true
    → redact_addresses (front ++ (address a b c d ++ back))
      ≡ redact_addresses front ++ (codes "<ip>" ++ redact_addresses back)
redact_addresses-address front back a b c d i j k l clear starts =
    redact_addresses-append front (address a b c d ++ back) clear
    ∙ ap (λ t. redact_addresses front ++ t) (address_first back a b c d i j k l starts)
