-- ===== src/Net/Protocol.antt =====
-- src/net/Protocol.h and Protocol.cpp: the control messages.
pub mod Scan
pub mod Pong
mod Json
pub mod Messages
mod Tests
unfoldable pub use Json.{
  count_while, string_end, back_over_space, find_loop, find_value_start, integer_end, digits_end,
  fraction_end, exponent_end, delimited, then_at, number_end,
}
pub use Json.{
  Search, found, absent, out_of_fuel, search_of, position_of, skip_while, stands_at, is_member_name,
  value_after, string_to, string_at, find_string_field,
}
pub use Messages.*
use ipad_second_display.Common.{
  ℕ, zero, suc, ◌+◌, ◌-◌, ◌^◌, Bool, true, false, not, ◌&&◌, ◌||◌, List, [], ◌∷◌, ◌++◌, Option,
  none, some, ◌==◌, leb, ltb, length, get_elem?, take, drop, if◌then◌else◌, Bytes, codes, bytes_eq,
  is_empty, byte_at,
}
use ipad_second_display.Common.Text.{is_digit, is_space, starts_with, find_from, decimal}
use ipad_second_display.Common.Int.{ℤ, pos, negsuc}

pub is_number_byte : ℕ → Bool
is_number_byte c = is_digit c || c == b'-' || c == b'+' || c == b'.' || c == b'e' || c == b'E'

pub or_else {ℓ} : {A : Type ℓ} → Option A → A → A
or_else none a = a
or_else (some b) a = b

pub hello_matches_expected_device : HelloMsg → Bytes → Bool
hello_matches_expected_device m expected =
    is_empty expected || not (is_empty m.id) && bytes_eq m.id expected

pub no_zero_byte : Bytes → Bool
no_zero_byte [] = true
no_zero_byte (c ∷ text) = not (c == 0) && no_zero_byte text

-- The pointer is never null here.
pub is_control_payload : Bytes → Bool
is_control_payload payload =
    if length payload == 0 || leb 32768 (length payload)
    then false
    else if not (byte_at payload 0 == b'{')
    then false
    else no_zero_byte payload

pub parse_touch_phase : Bytes → TouchPhase
parse_touch_phase phase =
    if bytes_eq phase (codes "began")
    then began
    else if bytes_eq phase (codes "moved")
    then moved
    else if bytes_eq phase (codes "ended")
    then ended
    else if bytes_eq phase (codes "cancelled")
    then cancelled
    else unknown_touch

pub parse_pencil_phase : Bytes → PencilPhase
parse_pencil_phase phase =
    if bytes_eq phase (codes "hover")
    then hover
    else if bytes_eq phase (codes "down")
    then pencil_down
    else if bytes_eq phase (codes "move")
    then pencil_move
    else if bytes_eq phase (codes "up")
    then pencil_up
    else unknown_pencil

pub bool_at : Bytes → Option ℕ → Option Bool
bool_at json none = none
bool_at json (some start) =
    if starts_with (codes "true") (drop start json)
    then some true
    else if starts_with (codes "false") (drop start json)
    then some false
    else none

pub find_bool_field : Bytes → Bytes → Option Bool
find_bool_field json key = bool_at json (find_value_start json key)

-- One more member of the object; nothing where the value has no text.
pub append_text : Bytes → Bytes → Option Bytes → Bytes
append_text json key none = json
append_text json key (some text) = json ++ codes ",\"" ++ key ++ codes "\":" ++ text

pub append_integer_field : Bytes → Bytes → Option ℕ → Bytes
append_integer_field json key none = json
append_integer_field json key (some v) = append_text json key (some (decimal v))

module _ (n : NumberText) where
  pub number_to : Bytes → ℕ → Option ℕ → Option n.Double
  number_to json start none = none
  number_to json start (some stop) = n.from_chars (take (stop - start) (drop start json))

  pub number_at : Bytes → Option ℕ → Option n.Double
  number_at json none = none
  number_at json (some start) = number_to json start (number_end json start)

  pub find_number_field : Bytes → Bytes → Option n.Double
  find_number_field json key = number_at json (find_value_start json key)

  pub token_at : Bytes → Option ℕ → Option n.Double → Option Bytes
  token_at json (some start) (some value) =
      some (take (count_while is_number_byte (drop start json)) (drop start json))
  token_at json _ _ = none

  pub find_number_token : Bytes → Bytes → Option Bytes
  find_number_token json key =
      token_at json (find_value_start json key) (find_number_field json key)

  abbrev pub has_length : Option Bytes → ℕ → Bool
  has_length none k = false
  has_length (some token) k = length token == k

  pub is_valid_json_number : Bytes → Bool
  is_valid_json_number token =
      has_length (find_number_token (codes "{\"n\":" ++ token ++ codes "}") (codes "n"))
        (length token)

  pub number_to_int : Option n.Double → ℤ → ℤ
  number_to_int none fallback = fallback
  number_to_int (some v) fallback =
      if n.is_below v (negsuc (2 ^ 31 - 1)) || n.is_above v (pos (2 ^ 31 - 1)) || not (n.is_whole v)
      then fallback
      else n.to_int v

  abbrev int_field : Bytes → Bytes → ℤ → ℤ
  int_field json key fallback = number_to_int (find_number_field json key) fallback

  abbrev double_field : Bytes → Bytes → n.Double
  double_field json key = or_else (find_number_field json key) n.zero_double

  abbrev text_field : Bytes → Bytes → Bytes
  text_field json key = or_else (find_string_field json key) []

  pub parse_as : Bytes → Bytes → ControlMessage n.Double
  parse_as json type =
      if bytes_eq type (codes "hello")
      then hello (record {
        pixels_wide = int_field json (codes "pixelsWide") (pos 0);
        pixels_high = int_field json (codes "pixelsHigh") (pos 0);
        scale = int_field json (codes "scale") (pos 1);
        device = text_field json (codes "device");
        id = text_field json (codes "id");
        pv = int_field json (codes "pv") (pos 1);
      })
      else if bytes_eq type (codes "ping")
      then ping (or_else (find_number_token json (codes "t")) [])
      else if bytes_eq type (codes "touch")
      then touch (record {
        phase = parse_touch_phase (text_field json (codes "phase"));
        x = double_field json (codes "x");
        y = double_field json (codes "y");
      })
      else if bytes_eq type (codes "scroll")
      then scroll
          (record { dx = double_field json (codes "dx"); dy = double_field json (codes "dy") })
      else if bytes_eq type (codes "pencil")
      then pencil (record {
        phase = parse_pencil_phase (text_field json (codes "phase"));
        x = double_field json (codes "x");
        y = double_field json (codes "y");
        pressure = double_field json (codes "pressure");
        azimuth = double_field json (codes "azimuth");
        altitude = or_else (find_number_field json (codes "altitude")) n.upright;
      })
      else if bytes_eq type (codes "proximity")
      then proximity (record {
        entering = or_else (find_bool_field json (codes "entering")) false;
        x = double_field json (codes "x");
        y = double_field json (codes "y");
      })
      else if bytes_eq type (codes "kf")
      then kf
      else if bytes_eq type (codes "stats")
      then stats json
      else if bytes_eq type (codes "sleeping")
      then sleeping
      else if bytes_eq type (codes "closing")
      then closing
      else unknown

  pub parse_typed : Bytes → Option Bytes → Option (ControlMessage n.Double)
  parse_typed json none = none
  parse_typed json (some type) = some (parse_as json type)

  pub parse_control_message : Bytes → Option (ControlMessage n.Double)
  parse_control_message json = parse_typed json (find_string_field json (codes "type"))

  -- `now` is the sender's clock, in milliseconds since 1970.
  pub serialize_pong : ℕ → Bytes → Option Bytes
  serialize_pong now echoed =
      if is_valid_json_number echoed
      then some (
          codes "{\"type\":\"pong\",\"t\":"
          ++ echoed
          ++ codes ",\"mt\":"
          ++ decimal now
          ++ codes "}")
      else none

  pub append_double_field : Bytes → Bytes → Option n.Double → Bytes
  append_double_field json key none = json
  append_double_field json key (some v) = append_text json key (n.to_chars v)

  -- Braces and quotes stand outside the fields only.
  pub serialize_sender_ping : SenderPingStats n.Double → Bytes
  serialize_sender_ping s =
      let counters =
        append_integer_field
          (append_integer_field
            (append_integer_field
              (append_integer_field (codes "{\"type\":\"ping\"") (codes "drops") s.drops)
              (codes "encDrops") s.enc_drops)
            (codes "netDrops") s.net_drops)
          (codes "pending") s.pending in
      append_double_field
        (append_double_field (append_double_field counters (codes "inp50") s.inp50) (codes "inp95")
          s.inp95)
        (codes "capFps") s.cap_fps
      ++ codes "}"

abbrev pub serialize_welcome : Bytes
serialize_welcome = codes "{\"type\":\"welcome\",\"pv\":3,\"min\":1}"
