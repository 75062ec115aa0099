-- ===== src/Net/UsbMux.antt =====
-- src/net/UsbMux.h and UsbMux.cpp: the requests to and the answers of the local usbmux service.
-- The service's sockets are not modelled here: a response is the text that `Request` returned.
pub mod Udid
pub mod Devices
mod Tests
use ipad_second_display.Common.{
  ℕ, zero, suc, ◌+◌, ◌-◌, ◌*◌, ◌/◌, ◌%◌, ◌^◌, Bool, true, false, not, ◌&&◌, ◌||◌, List, [], ◌∷◌,
  ◌++◌, Option, none, some, ◌==◌, leb, ltb, length, take, drop, if◌then◌else◌, Bytes, bytes_eq,
  codes, is_empty,
}
use ipad_second_display.Common.Text.{
  is_alnum, is_space, is_digit, to_lower, find, find_from, rfind, decimal, read_digits, starts_with,
}

pub record UsbMuxDevice : Type 0 where
  pub device_id : ℕ
  pub udid : Bytes

abbrev pub max_plist_bytes : ℕ
max_plist_bytes = 2 ^ 20

abbrev pub header_size : ℕ
header_size = 16

-- The header of a plist message; `tag` is chosen by the request.
pub record Header : Type 0 where
  pub length : ℕ
  pub version : ℕ
  pub message : ℕ
  pub tag : ℕ

abbrev pub request_header : Bytes → ℕ → Header
request_header xml tag = record {
  length = header_size + length xml;
  version = 1;
  message = 8;
  tag = tag;
}

-- What `Request` checks of its own text and of the response's header, before it reads the body;
-- the result is the body's size.
unfoldable pub accepted_body : Bytes → Header → Option ℕ
accepted_body xml response =
    if ltb (max_plist_bytes - header_size) (length xml)
    then none
    else if ltb response.length header_size
        || ltb max_plist_bytes response.length
        || not (response.version == 1)
        || not (response.message == 8)
    then none
    else some (response.length - header_size)

unfoldable pub xml_request : Bytes → Bytes → Bytes
xml_request message_type fields =
    codes
      "<?xml version=\"1.0\" encoding=\"UTF-8\"?><!DOCTYPE plist PUBLIC \"-//Apple//DTD PLIST 1.0//EN\" \"http://www.apple.com/DTDs/PropertyList-1.0.dtd\"><plist version=\"1.0\"><dict><key>BundleID</key><string>com.mouselink.usbmux</string><key>ClientVersionString</key><string>MouseLink</string><key>MessageType</key><string>"
    ++ (message_type
        ++ (codes "</string><key>ProgName</key><string>MouseLink</string>"
            ++ (fields ++ codes "<key>kLibUSBMuxVersion</key><integer>3</integer></dict></plist>")))

-- The two loops that trim a value.
pub trim_front : Bytes → Bytes
trim_front [] = []
trim_front (c ∷ text) = let rest = trim_front text in if is_space c then rest else c ∷ text

pub trim_back : Bytes → Bytes
trim_back [] = []
trim_back (c ∷ text) =
    let rest = trim_back text in if is_empty rest && is_space c then [] else c ∷ rest

-- The text between the first `>` and the `<` after it, trimmed.
pub value_between : Bytes → Option Bytes
value_between text = elim (find (b'>' ∷ []) text) [
  | none ↦ none
  | some k ↦ elim (find (b'<' ∷ []) (drop (suc k) text)) [
    | none ↦ none
    | some n ↦ some (trim_back (trim_front (take n (drop (suc k) text))))
  ]
]

abbrev pub key_needle : Bytes → Bytes
key_needle key = codes "<key>" ++ (key ++ codes "</key>")

unfoldable pub value_for_key : Bytes → Bytes → ℕ → Option Bytes
unfolding value_between trim_front trim_back
value_for_key plist key start = elim (find_from (key_needle key) plist start) [
  | none ↦ none
  | some at ↦ value_between (drop (at + length (key_needle key)) plist)
]

abbrev pub ulong_max : ℕ
ulong_max = 2 ^ 32 - 1

abbrev pub uint32_max : ℕ
uint32_max = 2 ^ 32 - 1

-- `strtoul` in base 10 with the 32-bit `unsigned long` of Windows, on a text that is not empty:
-- white space, a sign, digits; a value that does not fit becomes the largest one, and a minus
-- negates in the type. The result is the value and the text behind the number, `none` where there
-- is no digit.
unfoldable pub strtoul_digits : Bool → Bytes → Option (ℕ × Bytes)
strtoul_digits negative [] = none
strtoul_digits negative (c ∷ text) =
    let (n, rest) = read_digits 0 (c ∷ text) in
    let value =
      if ltb ulong_max n then ulong_max else if negative then (2 ^ 32 - n) % 2 ^ 32 else n in
    if is_digit c then some (value, rest) else none

unfoldable pub strtoul_sign : Bytes → Option (ℕ × Bytes)
unfolding strtoul_digits
strtoul_sign [] = none
strtoul_sign (c ∷ text) =
    if c == b'-'
    then strtoul_digits true text
    else if c == b'+'
    then strtoul_digits false text
    else strtoul_digits false (c ∷ text)

-- `*end != '\0'`: the C string ends at the end of the text, or at a zero byte in it.
abbrev pub at_end : Bytes → Bool
at_end [] = true
at_end (c ∷ text) = c == 0

unfoldable pub number_of_text : Bytes → Option ℕ
unfolding strtoul_sign trim_front
number_of_text text = elim (strtoul_sign (trim_front text)) [
  | none ↦ none
  | some (value, rest) ↦ if at_end rest && leb value uint32_max then some value else none
]

unfoldable pub number_for_key : Bytes → Bytes → ℕ → Option ℕ
unfolding value_for_key number_of_text
number_for_key plist key start = elim (value_for_key plist key start) [
  | none ↦ none
  | some text ↦ number_of_text text
]

-- The loop's two inner loops.
pub skip_marks : Bytes → Bytes
skip_marks [] = []
skip_marks (c ∷ text) = let rest = skip_marks text in if is_alnum c then c ∷ text else rest

-- One round at the next letters or digits of both; `rest` goes on behind them.
pub compare_next : (Bytes → Bytes → Bool) → Bytes → Bytes → Bool
compare_next rest [] [] = true
compare_next rest [] (y ∷ b) = false
compare_next rest (x ∷ a) [] = false
compare_next rest (x ∷ a) (y ∷ b) = elim (to_lower x == to_lower y) [
  | true ↦ rest a b
  | false ↦ false
]

pub equals_udid_loop : ℕ → Bytes → Bytes → Bool
equals_udid_loop zero a b = false
equals_udid_loop (suc fuel) a b = compare_next (equals_udid_loop fuel) (skip_marks a) (skip_marks b)

-- Each round takes a character of `a`, and the last finds none.
unfoldable pub equals_udid : Bytes → Bytes → Bool
unfolding equals_udid_loop compare_next skip_marks
equals_udid a b = equals_udid_loop (suc (length a)) a b

unfoldable pub is_success : Bytes → Bool
unfolding number_for_key
is_success response = elim (number_for_key response (codes "Number") 0) [
  | none ↦ false
  | some n ↦ n == 0
]

-- A 16-bit value; the shifted parts have no bit in common.
pub usb_mux_port_number : ℕ → ℕ
usb_mux_port_number port = (port * 2 ^ 8 + port / 2 ^ 8) % 2 ^ 16

pub is_usb_mux_target : Bytes → Bool
is_usb_mux_target target = ltb 4 (length target) && bytes_eq (take 4 target) (codes "usb:")

pub make_usb_mux_target : Bytes → Bytes
make_usb_mux_target udid = codes "usb:" ++ udid

-- A device with this id or this udid is in the list.
pub is_duplicate : List UsbMuxDevice → ℕ → Bytes → Bool
is_duplicate [] id udid = false
is_duplicate (d ∷ ds) id udid =
    d.device_id == id || equals_udid d.udid udid || is_duplicate ds id udid

-- The offset where the message around a serial number begins.
pub entry_of : Bytes → ℕ → ℕ
entry_of response serial_key =
    elim (rfind (codes "<key>MessageType</key><string>Attached</string>") response serial_key) [
      | none ↦ 0
      | some attached ↦ elim (rfind (codes "<dict>") response attached) [
        | none ↦ 0
        | some entry ↦ entry
      ]
    ]

abbrev pub is_usb : Option Bytes → Bool
is_usb none = false
is_usb (some type) = bytes_eq type (codes "USB")

-- The body of the loop, on the values that were read.
pub add_device : List UsbMuxDevice → Option ℕ → Option Bytes → Option Bytes → List UsbMuxDevice
add_device devices (some id) type (some udid) =
    if is_usb type && not (is_duplicate devices id udid)
    then devices ++ record { device_id = id; udid = udid } ∷ []
    else devices
add_device devices (some id) type none = devices
add_device devices none type udid = devices

pub list_from : ℕ → Bytes → ℕ → List UsbMuxDevice → List UsbMuxDevice
list_from zero response cursor devices = devices
list_from (suc fuel) response cursor devices =
    elim (find_from (codes "<key>SerialNumber</key>") response cursor) [
      | none ↦ devices
      | some serial_key ↦
          let entry = entry_of response serial_key in
          list_from fuel response (suc serial_key) (
            add_device devices (number_for_key response (codes "DeviceID") entry)
              (value_for_key response (codes "ConnectionType") entry)
              (value_for_key response (codes "SerialNumber") serial_key))
    ]

-- The devices in a response. The cursor grows with each round, so the length bounds the rounds.
pub devices_of_response : Bytes → List UsbMuxDevice
devices_of_response response = list_from (suc (length response)) response 0 []
