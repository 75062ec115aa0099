-- ===== src/Net/UsbMux/Udid.antt =====
-- Device identities: comparison of UDIDs, targets and port numbers.
use ipad_second_display.Common.{
  ℕ, zero, suc, ◌^◌, ◌<◌, ◌≤◌, ◌≡◌, refl, sym, ◌∙◌, ◌↔◌, Bool, true, false, [], ◌∷◌, arith, ltb,
  append-nil, length, if◌then◌else◌, Bytes, bytes_eq, bytes_eq_iff, Bool-cases, inl, inr, some,
}
use ipad_second_display.Common.Text.{
  is_alnum, is_digit, decimal-head, to_lower, decimal, read_digits, read_digits-decimal,
}
use ipad_second_display.Net.UsbMux.{
  skip_marks, compare_next, equals_udid_loop, equals_udid, usb_mux_port_number, number_of_text,
  uint32_max,
}

-- The letters and digits of a UDID, in lower case.
unfoldable pub canonical : Bytes → Bytes
canonical [] = []
canonical (c ∷ text) = if is_alnum c then to_lower c ∷ canonical text else canonical text

-- What skipping finds: the next letter or digit, or none.
data Skipped (text : Bytes) : Bytes → Type 0 where
  ended : canonical text ≡ [] → Skipped text []
  found :
      (c : ℕ) (rest : Bytes)
      → canonical text ≡ to_lower c ∷ canonical rest
      → length rest < length text
      → Skipped text (c ∷ rest)

skip_marks-Skipped : (text : Bytes) → Skipped text (skip_marks text)
unfolding skip_marks canonical
skip_marks-Skipped [] = ended refl
skip_marks-Skipped (c ∷ text) = elim (Bool-cases (is_alnum c)) [
  | inl keeps ↦ rw keeps (found c text (rw keeps refl) (omega arith))
  | inr skips ↦ rw skips (later (skip_marks text) (skip_marks-Skipped text) skips)
]
  where
    later : (r : Bytes) → Skipped text r → is_alnum c ≡ false → Skipped (c ∷ text) r
    later [] (ended e) skips = ended (rw skips e)
    later (x ∷ rest) (found y r e h) skips = found y r (rw skips e) (omega arith)

compare_Skipped :
    (rest : Bytes → Bytes → Bool) (a b : Bytes) {x y : Bytes}
    → Skipped a x
    → Skipped b y
    → ((u v : Bytes) → length u < length a → rest u v ≡ bytes_eq (canonical u) (canonical v))
    → compare_next rest x y ≡ bytes_eq (canonical a) (canonical b)
unfolding compare_next bytes_eq
compare_Skipped rest a b (ended e) (ended f) h = rw (e, f)
compare_Skipped rest a b (ended e) (found d v f q) h = rw (e, f)
compare_Skipped rest a b (found c u e p) (ended f) h = rw (e, f)
compare_Skipped rest a b (found c u e p) (found d v f q) h = rw (e, f) (ground (arith, h u v p))

equals_udid_loop-canonical :
    (fuel : ℕ) (a b : Bytes)
    → length a < fuel
    → equals_udid_loop fuel a b ≡ bytes_eq (canonical a) (canonical b)
unfolding equals_udid_loop
equals_udid_loop-canonical zero a b h = absurd (omega arith)
equals_udid_loop-canonical (suc fuel) a b h =
    compare_Skipped (equals_udid_loop fuel) a b (skip_marks-Skipped a) (skip_marks-Skipped b)
      (λ u v p. equals_udid_loop-canonical fuel u v (omega arith))

-- Two UDIDs are taken for the same exactly when their letters and digits agree, without regard to
-- case and to any other characters.
pub equals_udid_iff : (a b : Bytes) → (equals_udid a b ≡ true) ↔ (canonical a ≡ canonical b)
unfolding equals_udid
equals_udid_iff a b =
    let e = equals_udid_loop-canonical (suc (length a)) a b (omega arith) in
    let both = bytes_eq_iff (canonical a) (canonical b) in
    (λ h. both.0 (sym e ∙ h), λ h. e ∙ both.1 h)

-- Swapping the bytes of a port twice gives the port back, and a swapped port is a 16-bit value.
pub usb_mux_port_number_twice :
    (port : ℕ)
    → port < 2 ^ 16
    → (usb_mux_port_number port < 2 ^ 16) × (usb_mux_port_number (usb_mux_port_number port) ≡ port)
unfolding usb_mux_port_number
usb_mux_port_number_twice port h = omega arith

number_of_digits :
    (c n : ℕ) (text : Bytes)
    → is_digit c ≡ true
    → read_digits 0 (c ∷ text) ≡ (n, [])
    → number_of_text (c ∷ text) ≡ some (if ltb uint32_max n then uint32_max else n)
unfolding number_of_text
number_of_digits c n text d e = ground (arith, e)

number_of_decimal :
    (n : ℕ) → number_of_text (decimal n) ≡ some (if ltb uint32_max n then uint32_max else n)
number_of_decimal n =
    let (c, text, e, d) = decimal-head n in
    rw e (
      number_of_digits c n text d
        (rw (← e, ← append-nil (decimal n)) (read_digits-decimal n [] refl)))

-- A printed 32-bit number is read back as it was.
pub number_of_text-decimal : (n : ℕ) → n ≤ uint32_max → number_of_text (decimal n) ≡ some n
number_of_text-decimal n h = ground (arith, number_of_decimal n)

-- A number too large for 32 bits is not refused: it is read as the largest 32-bit number.
pub number_of_text_overflow :
    (n : ℕ) → uint32_max < n → number_of_text (decimal n) ≡ some uint32_max
number_of_text_overflow n h = ground (arith, number_of_decimal n)
