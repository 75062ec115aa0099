-- ===== src/App/Config/RoundTrip/Reading.antt =====
-- The device array of `TryParseConfig` in src/app/Config.cpp, on the devices of valid settings.
use ipad_second_display.Common.{
  ℕ, suc, ◌+◌, ◌%◌, ◌^◌, ◌≤◌, ◌<◌, ◌≡◌, refl, ap, ◌∙◌, sym, true, false, List, [], ◌∷◌, ◌++◌,
  append_assoc, append-nil, some, length, bytes_eq, All, arith, leb, ltb,
}
use ipad_second_display.Common.Int.{pos}
use ipad_second_display.App.Config.{DeviceConfig}
use ipad_second_display.App.Config.Json.{Json, Items, no_items, item, insert_or_assign, push_item}
use ipad_second_display.App.Config.Parse.{
  field, read_device, read_item, read_items, or_single, insert_device, sort_devices, keep_unique,
  renumber, or_old, between,
}
use ipad_second_display.App.Config.Valid.{
  DeviceFits, IsReachable, IsNumbered, IsDistinct, AreInOrder,
}
use ipad_second_display.App.Config.RoundTrip.Entries.{assign_all}
use ipad_second_display.App.Config.RoundTrip.Devices.{device_members, device_value, push_all}

wrap : (i : ℕ) → i < 2 ^ 32 → i % 2 ^ 32 ≡ i
wrap i h = omega arith

pub in_range :
    (low n high old : ℕ) → low ≤ n → n ≤ high → or_old (between low high (some (pos n))) old ≡ n
in_range low n high old h k =
    let l : leb low n ≡ true = ground arith in
    let m : leb n high ≡ true = ground arith in rw (l, m) refl

members_read_back :
    (port size i : ℕ) (d : DeviceConfig)
    → DeviceFits d
    → d.priority ≡ i
    → i < 2 ^ 32
    → read_device port size (device_members i d) ≡ d
unfolding read_device device_members assign_all insert_or_assign field bytes_eq
members_read_back port size i d fits p small =
    ap
      (λ q. record d {
        port = q;
        priority = or_old (between 0 4294967295 (some (pos i))) (size % 2 ^ 32);
      })
      (in_range 1 d.port 65535 port fits.0 fits.1)
    ∙ ap (λ q. record d { priority = q })
        (in_range 0 i 4294967295 (size % 2 ^ 32) (omega arith) (omega arith) ∙ sym p)

device_read_back :
    (port i : ℕ) (ds : List DeviceConfig) (d : DeviceConfig)
    → DeviceFits d
    → IsReachable d
    → d.priority ≡ i
    → i < 2 ^ 32
    → read_item port ds (device_value i d) ≡ ds ++ d ∷ []
unfolding read_item
device_read_back port i ds d fits reachable p small =
    rw (members_read_back port (length ds) i d fits p small) (rw reachable refl)

read_items-push_item :
    (port : ℕ) (ds : List DeviceConfig) (is : Items) (v : Json)
    → read_items port ds (push_item is v) ≡ read_item port (read_items port ds is) v
unfolding read_items push_item
read_items-push_item port ds no_items v = refl
read_items-push_item port ds (item w is) v = read_items-push_item port (read_item port ds w) is v

read_items-push_all :
    (port i : ℕ) (is : Items) (ds : List DeviceConfig)
    → All DeviceFits ds
    → All IsReachable ds
    → IsNumbered i ds
    → i + length ds ≤ 2 ^ 32
    → read_items port [] (push_all is i ds) ≡ read_items port [] is ++ ds
read_items-push_all port i is [] h r k l = sym (append-nil (read_items port [] is))
read_items-push_all port i is (d ∷ ds) h r k l =
    read_items-push_all port (suc i) (push_item is (device_value i d)) ds h.1 r.1 k.1 (omega arith)
    ∙ ap (λ es. es ++ ds)
        (read_items-push_item port [] is (device_value i d)
          ∙ device_read_back port i (read_items port [] is) d h.0 r.0 (k.0 ∙ wrap i (omega arith))
              (omega arith))
    ∙ append_assoc (read_items port [] is) (d ∷ []) ds

sorted_stays :
    (i : ℕ) (ds : List DeviceConfig)
    → IsNumbered i ds
    → i + length ds ≤ 2 ^ 32
    → sort_devices ds ≡ ds
unfolding sort_devices insert_device
sorted_stays i [] h l = refl
sorted_stays i (d ∷ []) h l = refl
sorted_stays i (d ∷ e ∷ es) h l =
    let later : ltb e.priority d.priority ≡ false = ground arith in
    ap (insert_device d) (sorted_stays (suc i) (e ∷ es) h.1 (omega arith)) ∙ rw later refl

distinct_stays :
    (kept ds : List DeviceConfig) → IsDistinct kept ds → keep_unique kept ds ≡ kept ++ ds
unfolding keep_unique
distinct_stays kept [] h = sym (append-nil kept)
distinct_stays kept (d ∷ ds) h =
    rw h.0 (distinct_stays (kept ++ d ∷ []) ds h.1 ∙ append_assoc kept (d ∷ []) ds)

numbered_stays : (i : ℕ) (ds : List DeviceConfig) → IsNumbered i ds → renumber i ds ≡ ds
unfolding renumber
numbered_stays i [] h = refl
numbered_stays i (d ∷ ds) h =
    ap (λ es. record d { priority = i % 2 ^ 32 } ∷ es) (numbered_stays (suc i) ds h.1)
    ∙ ap (λ p. record d { priority = p } ∷ ds) (sym h.0)

read_array_back :
    (port : ℕ) (ds : List DeviceConfig)
    → AreInOrder ds
    → All IsReachable ds
    → length ds ≤ 2 ^ 32
    → read_items port [] (push_all no_items 0 ds) ≡ ds
unfolding read_items
read_array_back port ds h r l = read_items-push_all port 0 no_items ds h.0 r h.1 (omega arith)

no_address : (port : ℕ) (ds : List DeviceConfig) → or_single port [] ds ≡ ds
no_address port [] = refl
no_address port (d ∷ ds) = refl

-- Valid devices pass the stages of `TryParseConfig` unchanged.
pub devices_pass :
    (port : ℕ) (ds : List DeviceConfig)
    → AreInOrder ds
    → All IsReachable ds
    → length ds ≤ 2 ^ 32
    → renumber 0 (
        keep_unique []
          (sort_devices (or_single port [] (read_items port [] (push_all no_items 0 ds)))))
      ≡ ds
devices_pass port ds h r l =
    ap (λ es. renumber 0 (keep_unique [] (sort_devices es)))
      (no_address port (read_items port [] (push_all no_items 0 ds))
        ∙ read_array_back port ds h r l)
    ∙ ap (λ es. renumber 0 (keep_unique [] es)) (sorted_stays 0 ds h.1 (omega arith))
    ∙ ap (renumber 0) (distinct_stays [] ds h.2)
    ∙ numbered_stays 0 ds h.1
