-- ===== src/App/Config/Serialize.antt =====
-- `EscapeJson` and `Config::Serialize` of src/app/Config.cpp. Each piece writes its text before
-- the text that follows.
use ipad_second_display.Common.{
  ℕ, zero, suc, ◌+◌, ◌-◌, ◌/◌, ◌%◌, Bool, List, [], ◌∷◌, ◌++◌, ◌==◌, ltb, if◌then◌else◌, Bytes,
  codes,
}
use ipad_second_display.Common.Int.{ℤ, pos, negsuc}
use ipad_second_display.Common.Text.{decimal}
use ipad_second_display.App.Config.{
  Config, DeviceConfig, LauncherMode, hidden, fullscreen, region, StreamProfile, balanced,
  low_bandwidth, sharp, custom, current_version,
}

-- `hex`.
abbrev pub hex_digit : ℕ → ℕ
hex_digit n = if ltb n 10 then b'0' + n else b'a' + (n - 10)

abbrev pub escape_byte : ℕ → Bytes
escape_byte c =
    if c == b'"'
    then b'\\' ∷ b'"' ∷ []
    else if c == b'\\'
    then b'\\' ∷ b'\\' ∷ []
    else if c == 8
    then b'\\' ∷ b'b' ∷ []
    else if c == 12
    then b'\\' ∷ b'f' ∷ []
    else if c == 10
    then b'\\' ∷ b'n' ∷ []
    else if c == 13
    then b'\\' ∷ b'r' ∷ []
    else if c == 9
    then b'\\' ∷ b't' ∷ []
    else if ltb c 0x20
    then b'\\' ∷ b'u' ∷ b'0' ∷ b'0' ∷ hex_digit (c / 16) ∷ hex_digit (c % 16) ∷ []
    else c ∷ []

-- `EscapeJson`.
unfoldable pub escape_json : Bytes → Bytes
escape_json [] = []
escape_json (c ∷ value) = escape_byte c ++ escape_json value

-- A text that is written before another.
abbrev pub Writer : Type 0
Writer = Bytes → Bytes

unfoldable pub write_text : Bytes → Writer
write_text s rest = b'"' ∷ escape_json s ++ b'"' ∷ rest

unfoldable pub write_bool : Bool → Writer
write_bool b rest = (if b then codes "true" else codes "false") ++ rest

unfoldable pub write_nat : ℕ → Writer
write_nat n rest = decimal n ++ rest

unfoldable pub write_int : ℤ → Writer
unfolding write_nat
write_int (pos n) rest = write_nat n rest
write_int (negsuc n) rest = b'-' ∷ write_nat (suc n) rest

-- The enumerators' values.
abbrev pub profile_number : StreamProfile → ℕ
profile_number balanced = 0
profile_number low_bandwidth = 1
profile_number sharp = 2
profile_number custom = 3

abbrev pub mode_number : LauncherMode → ℕ
mode_number hidden = 0
mode_number fullscreen = 1
mode_number region = 2

-- A member of a device: `"key":value`.
unfoldable pub device_member : Bytes → Writer → Writer
device_member key value rest = b'"' ∷ key ++ b'"' ∷ b':' ∷ value rest

-- The device at index `i`.
unfoldable pub write_device : ℕ → DeviceConfig → Writer
unfolding device_member
write_device i d rest =
    b'{'
    ∷ device_member (codes "id") (write_text d.id) (
        b','
        ∷ device_member (codes "name") (write_text d.name) (
            b','
            ∷ device_member (codes "lastIpv4") (write_text d.last_ipv4) (
                b','
                ∷ device_member (codes "bonjourHost") (write_text d.bonjour_host) (
                    b','
                    ∷ device_member (codes "port") (write_nat d.port) (
                        b','
                        ∷ device_member (codes "preferredTransport")
                            (write_text d.preferred_transport)
                            (b','
                              ∷ device_member (codes "priority") (write_nat i) (
                                  b','
                                  ∷ device_member (codes "autoConnect") (write_bool d.auto_connect)
                                      (b','
                                        ∷ device_member (codes "lastSeen") (write_int d.last_seen) (
                                            b','
                                            ∷ device_member (codes "macHint")
                                                (write_text d.mac_hint) (b'}' ∷ rest))))))))))

-- The devices from index `i` on: a comma before all but the first, each on a line of its own.
unfoldable pub write_devices : ℕ → List DeviceConfig → Writer
write_devices i [] rest = rest
write_devices zero (d ∷ ds) rest = codes "\n    " ++ write_device zero d (write_devices 1 ds rest)
write_devices (suc i) (d ∷ ds) rest =
    codes ",\n    " ++ write_device (suc i) d (write_devices (suc (suc i)) ds rest)

-- The array, with a line of its own for the bracket if there are devices.
unfoldable pub write_array : List DeviceConfig → Writer
unfolding write_devices
write_array [] rest = b'[' ∷ codes "  ]" ++ rest
write_array (d ∷ ds) rest = b'[' ∷ write_devices 0 (d ∷ ds) (codes "\n  ]" ++ rest)

-- A member of the settings, on a line of its own: `"key": value`.
unfoldable pub config_member : Bytes → Writer → Writer
config_member key value rest = codes "\n  \"" ++ key ++ b'"' ∷ b':' ∷ b' ' ∷ value rest

-- The last lines of `Config::Serialize`.
unfoldable pub write_connection : Config → Bytes
unfolding config_member
write_connection c =
    b','
    ∷ config_member (codes "preferredDeviceId") (write_text c.preferred_device_id) (
        b','
        ∷ config_member (codes "lastConnectionTransport") (write_text c.last_connection_transport) (
            b','
            ∷ config_member (codes "lastWifiAddress") (write_text c.last_wifi_address) (
                b','
                ∷ config_member (codes "lastUsbTarget") (write_text c.last_usb_target)
                    (codes "\n}\n"))))

unfoldable pub write_presentation : Config → Bytes
unfolding config_member write_connection
write_presentation c =
    b','
    ∷ config_member (codes "streamProfile") (write_nat (profile_number c.stream_profile)) (
        b','
        ∷ config_member (codes "requirePrivateNetwork") (write_bool c.require_private_network) (
            b','
            ∷ config_member (codes "showLauncher") (write_bool c.show_launcher) (
                b','
                ∷ config_member (codes "launcherMode") (write_nat (mode_number c.launcher_mode)) (
                    b','
                    ∷ config_member (codes "darkTheme") (write_bool c.dark_theme) (
                        b','
                        ∷ config_member (codes "taskbarRouting") (write_bool c.taskbar_routing)
                            (write_connection c))))))

-- `Config::Serialize`.
unfoldable pub serialize : Config → Bytes
unfolding config_member write_array write_presentation
serialize c =
    b'{'
    ∷ config_member (codes "version") (write_nat current_version) (
        b','
        ∷ config_member (codes "devices") (write_array c.devices) (
            b','
            ∷ config_member (codes "port") (write_nat c.port) (
                b','
                ∷ config_member (codes "autoReconnect") (write_bool c.auto_reconnect) (
                    b','
                    ∷ config_member (codes "fps") (write_nat c.fps) (
                        b','
                        ∷ config_member (codes "bitrateMbps") (write_nat c.bitrate_mbps)
                            (write_presentation c))))))
