-- ===== src/App/Config/RoundTrip/Devices.antt =====
-- The devices of src/app/Config.cpp, as `Config::Serialize` writes them and `TryParseConfig` reads them.
use ipad_second_display.Common.{
  ℕ, zero, suc, ◌+◌, ◌^◌, ◌≤◌, ◌<◌, ◌≡◌, refl, ap, ◌∙◌, sym, Bool, true, List, [], ◌∷◌, ◌++◌, some,
  length, Bytes, codes, All, arith,
}
use ipad_second_display.Common.Int.{pos}
use ipad_second_display.Common.Text.{ends_number}
use ipad_second_display.App.Config.{DeviceConfig}
use ipad_second_display.App.Config.Json.{
  Json, bool, number, text, object, array, Members, no_members, Items, no_items, Result, ok, ◌>>=◌,
  skip, consume, push_item, parse_at, parse_value, parse_items, after_item,
}
use ipad_second_display.App.Config.Serialize.{
  Writer, escape_json, write_text, write_bool, write_nat, write_int, write_device, write_devices,
  write_array,
}
use ipad_second_display.App.Config.Valid.{DeviceFits}
use ipad_second_display.App.Config.RoundTrip.Values.{
  ReadsAs, write_text-ReadsAs, write_bool-ReadsAs, write_nat-ReadsAs, write_int-ReadsAs,
}
use ipad_second_display.App.Config.RoundTrip.Entries.{
  Entry, Spacing, IsSpacing, write_entry, write_more, assign_all, object_read, value_suc,
}

abbrev compact : Spacing
compact = record { lead = []; gap = [] }

compact-IsSpacing : IsSpacing compact
unfolding skip
compact-IsSpacing = (λ input. refl, λ f input. refl)

abbrev pub entry : Bytes → Writer → Json → Entry
entry key writer value = record { key = key; writer = writer; value = value }

abbrev pub text_entry : Bytes → Bytes → Entry
text_entry key s = entry key (write_text s) (text s)

abbrev pub nat_entry : Bytes → ℕ → Entry
nat_entry key n = entry key (write_nat n) (number (pos n))

abbrev pub bool_entry : Bytes → Bool → Entry
bool_entry key b = entry key (write_bool b) (bool b)

abbrev later_entries : ℕ → DeviceConfig → List Entry
later_entries i d =
    text_entry (codes "name") d.name
    ∷ text_entry (codes "lastIpv4") d.last_ipv4
    ∷ text_entry (codes "bonjourHost") d.bonjour_host
    ∷ nat_entry (codes "port") d.port
    ∷ text_entry (codes "preferredTransport") d.preferred_transport
    ∷ nat_entry (codes "priority") i
    ∷ bool_entry (codes "autoConnect") d.auto_connect
    ∷ entry (codes "lastSeen") (write_int d.last_seen) (number d.last_seen)
    ∷ text_entry (codes "macHint") d.mac_hint
    ∷ []

unfoldable pub device_members : ℕ → DeviceConfig → Members
unfolding assign_all
device_members i d = assign_all no_members (text_entry (codes "id") d.id ∷ later_entries i d)

abbrev pub device_value : ℕ → DeviceConfig → Json
device_value i d = object (device_members i d)

closing_brace : (rest : Bytes) → consume b'}' (b'}' ∷ rest) ≡ some rest
unfolding skip
closing_brace rest = refl

entries_written :
    (i : ℕ) (d : DeviceConfig) (rest : Bytes)
    → write_device i d rest
      ≡ b'{'
        ∷ write_entry compact
            (text_entry (codes "id") d.id)
            (write_more compact (later_entries i d) (b'}' ∷ rest))
unfolding write_device write_entry write_more
entries_written i d rest = refl

write_device-ReadsAs :
    (i : ℕ) (d : DeviceConfig)
    → i < 2 ^ 63
    → DeviceFits d
    → ReadsAs 13 (write_device i d) (device_value i d)
unfolding device_members escape_json
write_device-ReadsAs i d h fits f rest l e =
    ap (parse_value f) (entries_written i d rest)
    ∙ object_read compact (text_entry (codes "id") d.id) (later_entries i d) 1 f (b'}' ∷ rest) rest
        compact-IsSpacing
        ((
          (refl, write_text-ReadsAs d.id),
          (
            (refl, write_text-ReadsAs d.name),
            (
              (refl, write_text-ReadsAs d.last_ipv4),
              (
                (refl, write_text-ReadsAs d.bonjour_host),
                (
                  (refl, write_nat-ReadsAs d.port (omega arith)),
                  (
                    (refl, write_text-ReadsAs d.preferred_transport),
                    (
                      (refl, write_nat-ReadsAs i h),
                      (
                        (refl, write_bool-ReadsAs d.auto_connect),
                        (
                          (refl, write_int-ReadsAs d.last_seen fits.2),
                          ((refl, write_text-ReadsAs d.mac_hint), tt),
                        ),
                      ),
                    ),
                  ),
                ),
              ),
            ),
          ),
        ))
        (omega arith) refl (closing_brace rest)

-- The items of the array, from position `i` on.
abbrev pub push_all : Items → ℕ → List DeviceConfig → Items
push_all is i [] = is
push_all is i (d ∷ ds) = push_all (push_item is (device_value i d)) (suc i) ds

abbrev array_end : Bytes → Bytes
array_end rest = codes "\n  ]" ++ rest

items_suc :
    (f : ℕ) (is : Items) (input : Bytes)
    → parse_items (suc f) is input
      ≡ (parse_value f input >>= λ (v, rest). after_item (parse_items f) (push_item is v) rest)
unfolding parse_value
items_suc f is input = refl

-- The space before a device.
spaced_value :
    (i f : ℕ) (d : DeviceConfig) (rest : Bytes)
    → parse_value f (codes "\n    " ++ write_device i d rest)
      ≡ parse_value f (write_device i d rest)
unfolding parse_value write_device skip
spaced_value i zero d rest = refl
spaced_value i (suc f) d rest = refl

devices_end :
    (i : ℕ) (ds : List DeviceConfig) (rest : Bytes)
    → ends_number (write_devices (suc i) ds (array_end rest)) ≡ true
unfolding write_devices
devices_end i [] rest = refl
devices_end i (d ∷ ds) rest = refl

last_item :
    (more : Items → Bytes → Result (Json × Bytes)) (is : Items) (i : ℕ) (rest : Bytes)
    → after_item more is (write_devices (suc i) [] (array_end rest)) ≡ ok (array is, rest)
unfolding skip write_devices
last_item more is i rest = refl

next_item :
    (more : Items → Bytes → Result (Json × Bytes)) (is : Items) (i : ℕ) (d : DeviceConfig)
    (ds : List DeviceConfig) (rest : Bytes)
    → after_item more is (write_devices (suc i) (d ∷ ds) rest)
      ≡ more is (codes "\n    " ++ write_device (suc i) d (write_devices (suc (suc i)) ds rest))
unfolding skip write_devices
next_item more is i d ds rest = refl

item_read :
    (i f : ℕ) (is : Items) (d : DeviceConfig) (rest : Bytes)
    → i < 2 ^ 63
    → DeviceFits d
    → 13 ≤ f
    → ends_number rest ≡ true
    → parse_items (suc f) is (codes "\n    " ++ write_device i d rest)
      ≡ after_item (parse_items f) (push_item is (device_value i d)) rest
item_read i f is d rest h fits l e =
    items_suc f is (codes "\n    " ++ write_device i d rest)
    ∙ ap (λ r. r >>= λ (v, rest). after_item (parse_items f) (push_item is v) rest)
        (spaced_value i f d rest ∙ write_device-ReadsAs i d h fits f rest l e)

devices_read :
    (i f : ℕ) (is : Items) (d : DeviceConfig) (ds : List DeviceConfig) (rest : Bytes)
    → All DeviceFits (d ∷ ds)
    → i + length ds < 2 ^ 63
    → length ds + 14 ≤ f
    → parse_items f is
        (codes "\n    " ++ write_device i d (write_devices (suc i) ds (array_end rest)))
      ≡ ok (array (push_all is i (d ∷ ds)), rest)
devices_read i zero is d ds rest h k l = absurd (omega arith)
devices_read i (suc f) is d [] rest h k l =
    item_read i f is d (write_devices (suc i) [] (array_end rest)) (omega arith) h.0 (omega arith)
      (devices_end i [] rest)
    ∙ last_item (parse_items f) (push_item is (device_value i d)) i rest
devices_read i (suc f) is d (d' ∷ ds) rest h k l =
    item_read i f is d (write_devices (suc i) (d' ∷ ds) (array_end rest)) (omega arith) h.0
      (omega arith) (devices_end i (d' ∷ ds) rest)
    ∙ next_item (parse_items f) (push_item is (device_value i d)) i d' ds (array_end rest)
    ∙ devices_read (suc i) f (push_item is (device_value i d)) d' ds rest h.1 (omega arith)
        (omega arith)

empty_array :
    (f : ℕ) (rest : Bytes) → parse_value (suc f) (write_array [] rest) ≡ ok (array no_items, rest)
unfolding parse_value parse_at write_array skip
empty_array f rest = refl

-- An array with a first item is read from that item on.
bracket :
    (f i : ℕ) (d : DeviceConfig) (rest : Bytes)
    → parse_value (suc f) (b'[' ∷ (codes "\n    " ++ write_device i d rest))
      ≡ parse_items f no_items (write_device i d rest)
unfolding parse_at skip write_device
bracket f i d rest = value_suc f (b'[' ∷ (codes "\n    " ++ write_device i d rest))

spaced_items :
    (f i : ℕ) (is : Items) (d : DeviceConfig) (rest : Bytes)
    → parse_items f is (write_device i d rest)
      ≡ parse_items f is (codes "\n    " ++ write_device i d rest)
unfolding parse_value write_device skip
spaced_items zero i is d rest = refl
spaced_items (suc f) i is d rest =
    ap (λ r. r >>= λ (v, rest). after_item (parse_items f) (push_item is v) rest)
      (sym (spaced_value i f d rest))

array_written :
    (d : DeviceConfig) (ds : List DeviceConfig) (rest : Bytes)
    → write_array (d ∷ ds) rest
      ≡ b'[' ∷ (codes "\n    " ++ write_device 0 d (write_devices 1 ds (array_end rest)))
unfolding write_array write_devices
array_written d ds rest = refl

pub write_array-ReadsAs :
    (ds : List DeviceConfig)
    → All DeviceFits ds
    → length ds < 2 ^ 63
    → ReadsAs (length ds + 15) (write_array ds) (array (push_all no_items 0 ds))
write_array-ReadsAs ds h k zero rest l e = absurd (omega arith)
write_array-ReadsAs [] h k (suc f) rest l e = empty_array f rest
write_array-ReadsAs (d ∷ ds) h k (suc f) rest l e =
    ap (parse_value (suc f)) (array_written d ds rest)
    ∙ bracket f 0 d (write_devices 1 ds (array_end rest))
    ∙ spaced_items f 0 no_items d (write_devices 1 ds (array_end rest))
    ∙ devices_read 0 f no_items d ds rest h (omega arith) (omega arith)
