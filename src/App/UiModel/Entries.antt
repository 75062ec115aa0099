-- ===== src/App/UiModel/Entries.antt =====
-- The devices that the entries' text gives.
use ipad_second_display.Common.{
  ℕ, ◌%◌, ◌^◌, ◌≡◌, ◌≢◌, bytes_eq_iff, All, refl, false, not, ◌&&◌, Bool-cases, inl, inr, List, [],
  ◌∷◌, ◌++◌, append-nil, append_assoc, arith, length, if◌then◌else◌, Bytes, is_empty,
}
use ipad_second_display.App.Config.{DeviceConfig}
use ipad_second_display.App.UiModel.{
  first_word, is_known, entry, add_entry, parse_lines, split_lines, skip_blanks, drop_last_blanks,
  parse_device_entries_text,
}

-- From position `length before` on, each device has its position as its priority, wrapped to 32
-- bits, an address and a name, and an address that none before it has.
abbrev pub AllListed : ℕ → List DeviceConfig → List DeviceConfig → Type 0
AllListed port before [] = Unit {0}
AllListed port before (d ∷ ds) =
    (d.priority ≡ length before % 2 ^ 32)
    × (d.port ≡ port)
    × (is_empty d.last_ipv4 ≡ false)
    × (is_empty d.name ≡ false)
    × All (λ (e : DeviceConfig). e.last_ipv4 ≢ d.last_ipv4) before
    × AllListed port (before ++ d ∷ []) ds

is_known-others :
    (before : List DeviceConfig) (address : Bytes)
    → is_known before address ≡ false
    → All (λ (e : DeviceConfig). e.last_ipv4 ≢ address) before
unfolding is_known
is_known-others [] address h = tt
is_known-others (e ∷ es) address h = (
  λ same. let equal = (bytes_eq_iff e.last_ipv4 address).1 same in ground (arith, h, equal),
  is_known-others es address (ground (arith, h)),
)

AllListed-concat :
    (port : ℕ) (ds before : List DeviceConfig) (d : DeviceConfig)
    → AllListed port before ds
    → AllListed port (before ++ ds) (d ∷ [])
    → AllListed port before (ds ++ d ∷ [])
AllListed-concat port [] before d h n = rw (← append-nil before) n
AllListed-concat port (x ∷ ds) before d h n =
    let (a, b, c, e, f, more) = h in
    (
      a,
      b,
      c,
      e,
      f,
      AllListed-concat port ds (before ++ x ∷ []) d more (rw (append_assoc before (x ∷ []) ds) n),
    )

add_entry-AllListed :
    (port : ℕ) (ds : List DeviceConfig) (device : Bytes)
    → AllListed port [] ds
    → AllListed port [] (add_entry port ds device)
unfolding add_entry entry
add_entry-AllListed port ds device h =
    elim (Bool-cases
      (not (is_empty (first_word device)) && not (is_known ds (first_word device)))) [
        | inr skipped ↦ rw skipped h
        | inl new ↦ rw new (
            AllListed-concat port ds [] (entry device port (length ds)) h (
              refl,
              refl,
              ground arith,
              ground arith,
              is_known-others ds (first_word device) (ground (arith, new)),
              tt,
            ))
      ]

parse_lines-AllListed :
    (to_utf8 : Bytes → Bytes) (port : ℕ) (lines : List Bytes) (ds : List DeviceConfig)
    → AllListed port [] ds
    → AllListed port [] (parse_lines to_utf8 port ds lines)
unfolding parse_lines
parse_lines-AllListed to_utf8 port [] ds h = h
parse_lines-AllListed to_utf8 port (line ∷ lines) ds h =
    let trimmed = drop_last_blanks (skip_blanks line) in
    parse_lines-AllListed to_utf8 port lines
      (if is_empty trimmed then ds else add_entry port ds (to_utf8 trimmed))
      (elim (Bool-cases (is_empty trimmed)) [
        | inl blank ↦ rw blank h
        | inr filled ↦ rw filled (add_entry-AllListed port ds (to_utf8 trimmed) h)
      ])

-- Whatever the text is, each device of it has its position modulo 2 ^ 32 as its priority, the given
-- port, an address and a name, and an address that no earlier device has.
pub parse_device_entries_text-AllListed :
    (to_utf8 : Bytes → Bytes) (text : Bytes) (port : ℕ)
    → AllListed port [] (parse_device_entries_text to_utf8 text port)
unfolding parse_device_entries_text
parse_device_entries_text-AllListed to_utf8 text port =
    parse_lines-AllListed to_utf8 port (split_lines text) [] tt
