-- ===== src/Net/UsbMux/Devices.antt =====
-- The list of devices that a response gives.
use ipad_second_display.Common.{
  ℕ, zero, suc, ◌≡◌, ◌≢◌, ◌&&◌, not, Bool-cases, All, refl, false, List, [], ◌∷◌, ◌++◌, append-nil,
  append_assoc, Option, none, some, arith, Bytes, codes, Option-cases, subst, length, inl, inr,
}
use ipad_second_display.Common.Text.{find_from}
use ipad_second_display.Net.UsbMux.{
  UsbMuxDevice, is_duplicate, is_usb, entry_of, number_for_key, value_for_key, add_device,
  list_from, devices_of_response,
}
use ipad_second_display.Net.UsbMux.Udid.{canonical, equals_udid_iff}

-- Other ids, and UDIDs with other letters and digits.
abbrev pub Differs : UsbMuxDevice → UsbMuxDevice → Type 0
Differs d e = (e.device_id ≢ d.device_id) × (canonical e.udid ≢ canonical d.udid)

-- Each device of the list differs from all before it.
abbrev pub AllDistinct : List UsbMuxDevice → List UsbMuxDevice → Type 0
AllDistinct before [] = Unit {0}
AllDistinct before (d ∷ ds) = All (Differs d) before × AllDistinct (before ++ d ∷ []) ds

is_duplicate-Differs :
    (before : List UsbMuxDevice) (d : UsbMuxDevice)
    → is_duplicate before d.device_id d.udid ≡ false
    → All (Differs d) before
unfolding is_duplicate
is_duplicate-Differs [] d h = tt
is_duplicate-Differs (e ∷ es) d h = (
  (
    λ same. ground (arith, h, same),
    λ same. let equal = (equals_udid_iff e.udid d.udid).1 same in ground (arith, h, equal),
  ),
  is_duplicate-Differs es d (ground (arith, h)),
)

AllDistinct-concat :
    (ds before : List UsbMuxDevice) (d : UsbMuxDevice)
    → AllDistinct before ds
    → All (Differs d) (before ++ ds)
    → AllDistinct before (ds ++ d ∷ [])
AllDistinct-concat [] before d h n = (rw append-nil at n, tt)
AllDistinct-concat (x ∷ ds) before d h n =
    (h.0, AllDistinct-concat ds (before ++ x ∷ []) d h.1 (rw (append_assoc before (x ∷ []) ds) n))

add_device-AllDistinct :
    (ds : List UsbMuxDevice) (id : Option ℕ) (type udid : Option Bytes)
    → AllDistinct [] ds
    → AllDistinct [] (add_device ds id type udid)
unfolding add_device
add_device-AllDistinct ds none type udid h = h
add_device-AllDistinct ds (some id) type none h = h
add_device-AllDistinct ds (some id) type (some udid) h =
    let d : UsbMuxDevice = record { device_id = id; udid = udid } in
    elim (Bool-cases (is_usb type && not (is_duplicate ds id udid))) [
      | inr skipped ↦ rw skipped h
      | inl new ↦
          rw new (AllDistinct-concat ds [] d h (is_duplicate-Differs ds d (ground (arith, new))))
    ]

list_from-AllDistinct :
    (fuel : ℕ) (response : Bytes) (cursor : ℕ) (ds : List UsbMuxDevice)
    → AllDistinct [] ds
    → AllDistinct [] (list_from fuel response cursor ds)
unfolding list_from
list_from-AllDistinct zero response cursor ds h = h
list_from-AllDistinct (suc fuel) response cursor ds h =
    elim (Option-cases (find_from (codes "<key>SerialNumber</key>") response cursor)) [
      | inl stops ↦ rw (list_from, stops) h
      | inr (key, goes) ↦
          let more =
            add_device ds (number_for_key response (codes "DeviceID") (entry_of response key))
              (value_for_key response (codes "ConnectionType") (entry_of response key))
              (value_for_key response (codes "SerialNumber") key) in
          subst (AllDistinct []) (rw (list_from, goes) refl)
            (list_from-AllDistinct fuel response (suc key) more (add_device-AllDistinct ds _ _ _ h))
    ]

-- Whatever the service answers, no two of the listed devices have the same id, and no two have
-- UDIDs with the same letters and digits but for case.
pub devices_of_response-AllDistinct :
    (response : Bytes) → AllDistinct [] (devices_of_response response)
unfolding devices_of_response
devices_of_response-AllDistinct response =
    list_from-AllDistinct (suc (length response)) response 0 [] tt
