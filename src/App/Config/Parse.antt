-- ===== src/App/Config/Parse.antt =====
-- `TryParseConfig` and `Config::Parse` of src/app/Config.cpp: the settings that a text holds, from
-- the first versions' files on.
use ipad_second_display.Common.{
  ℕ, zero, suc, ◌%◌, ◌^◌, Bool, true, false, not, ◌&&◌, ◌||◌, List, [], ◌∷◌, ◌++◌, Option, none,
  some, ◌==◌, leb, ltb, if◌then◌else◌, length, Bytes, bytes_eq, codes, is_empty,
}
use ipad_second_display.Common.Int.{ℤ, pos}
use ipad_second_display.App.Config.{
  Config, DeviceConfig, LauncherMode, hidden, fullscreen, region, StreamProfile, balanced,
  low_bandwidth, sharp, custom, new_device, default_config, current_version,
}
use ipad_second_display.App.Config.Json.{
  Json, bool, number, text, object, array, Members, no_members, member, Items, no_items, item,
  Result, ok, failed, out_of_fuel, parse_json,
}

-- `Field`.
unfoldable pub field : Members → Bytes → Option Json
field no_members key = none
field (member k v ms) key = let rest = field ms key in if bytes_eq k key then some v else rest

-- The cases of the variant; `none` is a null pointer.
abbrev pub get_text : Option Json → Bytes
get_text (some (text s)) = s
get_text _ = []

abbrev pub get_bool : Option Json → Option Bool
get_bool (some (bool b)) = some b
get_bool _ = none

abbrev pub get_number : Option Json → Option ℤ
get_number (some (number n)) = some n
get_number _ = none

-- `StringField`, `BoolField` and `IntField`; where one of these returns false, it leaves its
-- argument as it was.
abbrev pub string_field : Members → Bytes → Bytes
string_field ms key = get_text (field ms key)

abbrev pub bool_field : Members → Bytes → Option Bool
bool_field ms key = get_bool (field ms key)

abbrev pub int_field : Members → Bytes → Option ℤ
int_field ms key = get_number (field ms key)

abbrev pub or_old {ℓ} : {A : Type ℓ} → Option A → A → A
or_old none old = old
or_old (some a) old = a

-- The number if it lies between two bounds.
abbrev pub between : ℕ → ℕ → Option ℤ → Option ℕ
between low high (some (pos n)) = if leb low n && leb n high then some n else none
between low high _ = none

abbrev pub is_blank : ℕ → Bool
is_blank c = c == 32 || c == 9

-- `value.substr(0, separator)`.
unfoldable pub before_blank : Bytes → Bytes
before_blank [] = []
before_blank (c ∷ value) = let rest = before_blank value in if is_blank c then [] else c ∷ rest

unfoldable pub skip_blanks : Bytes → Bytes
skip_blanks [] = []
skip_blanks (c ∷ value) = let rest = skip_blanks value in if is_blank c then rest else c ∷ value

-- What stands behind the first run of blanks; nothing if there is none.
unfoldable pub behind_blanks : Bytes → Bytes
unfolding skip_blanks
behind_blanks [] = []
behind_blanks (c ∷ value) =
    let rest = behind_blanks value in if is_blank c then skip_blanks value else rest

-- `LegacyDevice`.
unfoldable pub legacy_device : Bytes → ℕ → ℕ → DeviceConfig
unfolding before_blank behind_blanks
legacy_device value port priority = record new_device {
  port = port;
  priority = priority;
  last_ipv4 = before_blank value;
  name = if is_empty (behind_blanks value) then before_blank value else behind_blanks value;
}

-- An object of the device array, `size` devices being read before it.
unfoldable pub read_device : ℕ → ℕ → Members → DeviceConfig
read_device port size ms = record {
  id = string_field ms (codes "id");
  name = string_field ms (codes "name");
  last_ipv4 = string_field ms (codes "lastIpv4");
  bonjour_host = string_field ms (codes "bonjourHost");
  port = or_old (between 1 65535 (int_field ms (codes "port"))) port;
  preferred_transport = string_field ms (codes "preferredTransport");
  priority = or_old (between 0 4294967295 (int_field ms (codes "priority"))) (size % 2 ^ 32);
  auto_connect = or_old (bool_field ms (codes "autoConnect")) true;
  last_seen = or_old (int_field ms (codes "lastSeen")) (pos 0);
  mac_hint = string_field ms (codes "macHint");
}

-- Some identifier, address or host name is there to reach it by.
unfoldable pub is_reachable : DeviceConfig → Bool
is_reachable d = not (is_empty d.id) || not (is_empty d.last_ipv4) || not (is_empty d.bonjour_host)

-- One turn of the loop over the array.
unfoldable pub read_item : ℕ → List DeviceConfig → Json → List DeviceConfig
unfolding is_reachable
read_item port ds (text legacy) =
    if is_empty legacy then ds else ds ++ legacy_device legacy port (length ds % 2 ^ 32) ∷ []
read_item port ds (object ms) =
    if is_reachable (read_device port (length ds) ms)
    then ds ++ read_device port (length ds) ms ∷ []
    else ds
read_item port ds _ = ds

unfoldable pub read_items : ℕ → List DeviceConfig → Items → List DeviceConfig
unfolding read_item
read_items port ds no_items = ds
read_items port ds (item v is) = read_items port (read_item port ds v) is

abbrev pub read_array : ℕ → Option Json → List DeviceConfig
read_array port (some (array is)) = read_items port [] is
read_array port _ = []

-- The oldest files hold one address.
abbrev pub or_single : ℕ → Bytes → List DeviceConfig → List DeviceConfig
or_single port ip (d ∷ ds) = d ∷ ds
or_single port ip [] = if is_empty ip then [] else legacy_device ip port 0 ∷ []

-- `std::stable_sort` by priority.
unfoldable pub insert_device : DeviceConfig → List DeviceConfig → List DeviceConfig
insert_device d [] = d ∷ []
insert_device d (e ∷ es) =
    let rest = insert_device d es in if ltb e.priority d.priority then e ∷ rest else d ∷ e ∷ es

unfoldable pub sort_devices : List DeviceConfig → List DeviceConfig
sort_devices [] = []
sort_devices (d ∷ ds) = insert_device d (sort_devices ds)

-- The test of `std::any_of`.
unfoldable pub is_duplicate : DeviceConfig → DeviceConfig → Bool
is_duplicate d e =
    not (is_empty d.id) && bytes_eq d.id e.id
    || is_empty d.id
      && is_empty e.id
      && not (is_empty d.last_ipv4)
      && bytes_eq d.last_ipv4 e.last_ipv4
      && (d.port == e.port)

unfoldable pub any_duplicate : DeviceConfig → List DeviceConfig → Bool
any_duplicate d [] = false
any_duplicate d (e ∷ es) = is_duplicate d e || any_duplicate d es

-- The first of several that stand for one device is kept.
unfoldable pub keep_unique : List DeviceConfig → List DeviceConfig → List DeviceConfig
keep_unique kept [] = kept
keep_unique kept (d ∷ ds) = keep_unique (if any_duplicate d kept then kept else kept ++ d ∷ []) ds

-- The priorities become the positions from `i` on.
unfoldable pub renumber : ℕ → List DeviceConfig → List DeviceConfig
renumber i [] = []
renumber i (d ∷ ds) = record d { priority = i % 2 ^ 32 } ∷ renumber (suc i) ds

-- The devices of the settings' object.
unfoldable pub read_devices : ℕ → Members → List DeviceConfig
read_devices port ms = renumber 0 (
    keep_unique [] (
      sort_devices (
        or_single port (string_field ms (codes "ip"))
          (read_array port (field ms (codes "devices"))))))

abbrev pub profile_of : ℕ → StreamProfile
profile_of zero = balanced
profile_of (suc zero) = low_bandwidth
profile_of (suc (suc zero)) = sharp
profile_of _ = custom

abbrev pub read_profile : Option ℕ → ℕ → ℕ → StreamProfile
read_profile (some n) fps bitrate = profile_of n
read_profile none fps bitrate = if not (fps == 60) || not (bitrate == 30) then custom else balanced

abbrev pub mode_of : ℕ → LauncherMode
mode_of zero = hidden
mode_of (suc zero) = fullscreen
mode_of _ = region

abbrev pub read_mode : Option ℕ → Bool → LauncherMode
read_mode (some n) shown = mode_of n
read_mode none shown = if shown then fullscreen else hidden

abbrev pub is_shown : LauncherMode → Bool
is_shown hidden = false
is_shown _ = true

abbrev pub is_some {ℓ} : {A : Type ℓ} → Option A → Bool
is_some none = false
is_some (some a) = true

-- The scalar fields, once the port and the devices are read.
unfoldable pub read_scalars : ℕ → List DeviceConfig → Members → Config
read_scalars port devices ms =
    let fps = or_old (between 30 120 (int_field ms (codes "fps"))) 60 in
    let bitrate = or_old (between 5 100 (int_field ms (codes "bitrateMbps"))) 30 in
    let shown = or_old (bool_field ms (codes "showLauncher")) true in
    let mode = read_mode (between 0 2 (int_field ms (codes "launcherMode"))) shown in
    record {
      version = current_version;
      devices = devices;
      port = port;
      auto_reconnect = or_old (bool_field ms (codes "autoReconnect")) true;
      fps = fps;
      bitrate_mbps = bitrate;
      stream_profile =
          read_profile (between 0 3 (int_field ms (codes "streamProfile"))) fps bitrate;
      require_private_network = or_old (bool_field ms (codes "requirePrivateNetwork")) true;
      show_launcher = is_shown mode;
      launcher_mode = mode;
      dark_theme = or_old (bool_field ms (codes "darkTheme")) false;
      taskbar_routing =
          or_old (bool_field ms (codes "taskbarRouting"))
            (not (is_some (int_field ms (codes "version"))));
      preferred_device_id = string_field ms (codes "preferredDeviceId");
      last_connection_transport = string_field ms (codes "lastConnectionTransport");
      last_wifi_address = string_field ms (codes "lastWifiAddress");
      last_usb_target = string_field ms (codes "lastUsbTarget");
    }

unfoldable pub read_object : Members → Config
read_object ms =
    let port = or_old (between 1 65535 (int_field ms (codes "port"))) 9000 in
    read_scalars port (read_devices port ms) ms

abbrev pub read_root : Result Json → Result Config
read_root (ok (object ms)) = ok (read_object ms)
read_root (ok _) = failed
read_root failed = failed
read_root out_of_fuel = out_of_fuel

-- `TryParseConfig`.
unfoldable pub try_parse_config : Bytes → Result Config
try_parse_config json = read_root (parse_json json)

abbrev pub or_default : Result Config → Config
or_default (ok c) = c
or_default _ = default_config

-- `Config::Parse`.
unfoldable pub parse : Bytes → Config
parse json = or_default (try_parse_config json)
