-- ===== src/App/UiModel.antt =====
-- src/app/UiModel.cpp: the stream profile, the device entries as text, and the diagnostics' redaction.
-- A `wstring` is the list of its 16-bit units; the conversion to UTF-8 is a parameter.
pub mod Entries
pub mod Redaction
mod Tests
use ipad_second_display.Common.{
  ℕ, zero, suc, ◌+◌, ◌-◌, ◌*◌, ◌%◌, ◌^◌, Bool, true, false, ◌&&◌, ◌||◌, not, List, [], ◌∷◌, ◌++◌,
  Option, none, some, ◌==◌, ltb, leb, length, take, drop, if◌then◌else◌, Bytes, bytes_eq, codes,
  is_empty,
}
use ipad_second_display.Common.Text.{is_digit, is_space, find}
use ipad_second_display.App.Config.{
  DeviceConfig, new_device, StreamProfile, balanced, low_bandwidth, sharp, custom,
}

pub infer_stream_profile : ℕ → ℕ → StreamProfile
infer_stream_profile fps bitrate =
    if fps == 60 && bitrate == 30
    then balanced
    else if fps == 60 && bitrate == 15
    then low_bandwidth
    else if fps == 60 && bitrate == 45
    then sharp
    else custom

abbrev pub is_blank : ℕ → Bool
is_blank c = c == b' ' || c == b'\t'

abbrev push_first : ℕ → List Bytes → List Bytes
push_first c [] = (c ∷ []) ∷ []
push_first c (line ∷ lines) = (c ∷ line) ∷ lines

-- The text cut at each carriage return and each line feed.
pub split_lines : Bytes → List Bytes
split_lines [] = [] ∷ []
split_lines (c ∷ text) =
    let rest = split_lines text in if c == 13 || c == 10 then [] ∷ rest else push_first c rest

pub skip_blanks : Bytes → Bytes
skip_blanks [] = []
skip_blanks (c ∷ text) = let rest = skip_blanks text in if is_blank c then rest else c ∷ text

-- Without the blanks at the end.
pub drop_last_blanks : Bytes → Bytes
drop_last_blanks [] = []
drop_last_blanks (c ∷ text) =
    let rest = drop_last_blanks text in if is_empty rest && is_blank c then [] else c ∷ rest

-- `device.substr(0, separator)`, and what follows it.
pub first_word : Bytes → Bytes
first_word [] = []
first_word (c ∷ text) = let rest = first_word text in if is_blank c then [] else c ∷ rest

pub after_first_word : Bytes → Bytes
after_first_word [] = []
after_first_word (c ∷ text) =
    let rest = after_first_word text in if is_blank c then c ∷ text else rest

pub is_known : List DeviceConfig → Bytes → Bool
is_known [] address = false
is_known (d ∷ ds) address =
    bytes_eq d.last_ipv4 address
    || not (is_empty d.bonjour_host) && bytes_eq d.bonjour_host address
    || is_known ds address

-- The position is cast to `uint32_t`.
pub entry : Bytes → ℕ → ℕ → DeviceConfig
entry device port position =
    let given = skip_blanks (after_first_word device) in
    record new_device {
      last_ipv4 = first_word device;
      port = port;
      priority = position % 2 ^ 32;
      name = if is_empty given then first_word device else given;
    }

pub add_entry : ℕ → List DeviceConfig → Bytes → List DeviceConfig
add_entry port ds device =
    if not (is_empty (first_word device)) && not (is_known ds (first_word device))
    then ds ++ entry device port (length ds) ∷ []
    else ds

pub parse_lines : (Bytes → Bytes) → ℕ → List DeviceConfig → List Bytes → List DeviceConfig
parse_lines to_utf8 port ds [] = ds
parse_lines to_utf8 port ds (line ∷ lines) =
    let trimmed = drop_last_blanks (skip_blanks line) in
    parse_lines to_utf8 port (if is_empty trimmed then ds else add_entry port ds (to_utf8 trimmed))
      lines

-- `ParseDeviceEntriesText`.
pub parse_device_entries_text : (Bytes → Bytes) → Bytes → ℕ → List DeviceConfig
parse_device_entries_text to_utf8 text port = parse_lines to_utf8 port [] (split_lines text)

-- `DeviceEntryText`, before its conversion to UTF-16.
pub device_entry_text : DeviceConfig → Bytes
device_entry_text d =
    let endpoint = if not (is_empty d.last_ipv4) then d.last_ipv4 else d.bonjour_host in
    let line =
      if not (is_empty d.name) && not (bytes_eq d.name endpoint)
      then endpoint ++ b' ' ∷ [] ++ d.name
      else endpoint in
    if is_empty line then d.id else line

-- The bytes before the first dot, and after it if there is one.
pub before_dot : Bytes → Bytes
before_dot [] = []
before_dot (c ∷ text) = let rest = before_dot text in if c == b'.' then [] else c ∷ rest

pub after_dot : Bytes → Option Bytes
after_dot [] = none
after_dot (c ∷ text) = let rest = after_dot text in if c == b'.' then some text else rest

pub octet_of : ℕ → Bytes → Option ℕ
octet_of acc [] = some acc
octet_of acc (c ∷ text) =
    let rest = octet_of (acc * 10 + (c - b'0')) text in if is_digit c then rest else none

abbrev pub is_octet : Option ℕ → Bool
is_octet none = false
is_octet (some octet) = leb octet 255

-- The loop of `IsIpv4`; the fifth part is refused, so five rounds are enough.
pub is_ipv4_from : ℕ → ℕ → Bytes → Bool
is_ipv4_from zero parts value = false
is_ipv4_from (suc fuel) parts value =
    let part = before_dot value in
    if length part == 0 || ltb 3 (length part)
    then false
    else if not (is_octet (octet_of 0 part)) || ltb 4 (parts + 1)
    then false
    else elim (after_dot value) [
      | none ↦ parts + 1 == 4
      | some rest ↦ is_ipv4_from fuel (parts + 1) rest
    ]

pub is_ipv4 : Bytes → Bool
is_ipv4 value = is_ipv4_from 5 0 value

abbrev pub is_address_byte : ℕ → Bool
is_address_byte c = is_digit c || c == b'.'

-- The digits and dots at the front, and what follows.
unfoldable pub run_of : Bytes → Bytes
run_of [] = []
run_of (c ∷ text) = let rest = run_of text in if is_address_byte c then c ∷ rest else []

unfoldable pub after_run : Bytes → Bytes
after_run [] = []
after_run (c ∷ text) = let rest = after_run text in if is_address_byte c then rest else c ∷ text

pub count_dots : Bytes → ℕ
count_dots [] = 0
count_dots (c ∷ text) = (if c == b'.' then 1 else 0) + count_dots text

abbrev pub is_address : Bytes → Bool
is_address run = count_dots run == 3 && is_ipv4 run

-- The second loop of `RedactDiagnosticsText`; every round moves forward in the text.
pub redact_addresses_loop : ℕ → Bytes → Bytes
redact_addresses_loop zero text = text
redact_addresses_loop (suc fuel) [] = []
redact_addresses_loop (suc fuel) (c ∷ text) =
    let next = redact_addresses_loop fuel text in
    let behind = redact_addresses_loop fuel (after_run (c ∷ text)) in
    if not (is_digit c)
    then c ∷ next
    else if is_address (run_of (c ∷ text))
    then codes "<ip>" ++ behind
    else run_of (c ∷ text) ++ behind

pub redact_addresses : Bytes → Bytes
redact_addresses text = redact_addresses_loop (suc (length text)) text

-- `replace` of each occurrence that stands, going on behind the replacement.
pub replace_each : ℕ → Bytes → Bytes → Bytes → Bytes
replace_each zero needle put text = text
replace_each (suc fuel) needle put text = elim (find needle text) [
  | none ↦ text
  | some k ↦ take k text ++ put ++ replace_each fuel needle put (drop (k + length needle) text)
]

pub skip_target : Bytes → Bytes
skip_target [] = []
skip_target (c ∷ text) =
    let rest = skip_target text in if not (is_space c) && not (c == b']') then rest else c ∷ text

-- The third loop goes on one byte behind the replacement.
pub redact_targets : ℕ → Bytes → Bytes
redact_targets zero text = text
redact_targets (suc fuel) text = elim (find (codes "usbmux://") text) [
  | none ↦ text
  | some k ↦
      let behind = skip_target (drop (k + 9) text) in
      take k text
      ++ codes "usbmux://<device>"
      ++ take 1 behind
      ++ redact_targets fuel (drop 1 behind)
]

-- `RedactDiagnosticsText`.
pub redact_diagnostics_text : Bytes → Bytes → Bytes
redact_diagnostics_text text user_profile =
    let named =
      if not (is_empty user_profile)
      then replace_each (suc (length text)) user_profile (codes "<profile>") text
      else text in
    let hidden = redact_addresses named in redact_targets (suc (length hidden)) hidden
