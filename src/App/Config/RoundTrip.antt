-- ===== src/App/Config/RoundTrip.antt =====
-- `Config::Serialize` and `Config::Parse` of src/app/Config.cpp, one after the other.
pub mod Values
pub mod Entries
pub mod Devices
pub mod Reading
use ipad_second_display.Common.{
  ℕ, zero, suc, ◌+◌, ◌*◌, ◌^◌, ◌≤◌, ◌<◌, ◌≡◌, refl, ap, ◌∙◌, sym, Bool, true, false, List, [], ◌∷◌,
  ◌++◌, Option, none, some, length, Bytes, bytes_eq, codes, arith,
}
use ipad_second_display.Common.Int.{pos}
use ipad_second_display.App.Config.{
  Config, DeviceConfig, LauncherMode, hidden, fullscreen, region, StreamProfile, balanced,
  low_bandwidth, sharp, custom, current_version,
}
use ipad_second_display.App.Config.Json.{
  Json, object, array, number, Members, no_members, no_items, Result, ok, failed, out_of_fuel,
  ◌>>=◌, skip, consume, insert_or_assign, finish, parse_value, parse_json,
}
use ipad_second_display.App.Config.Json.Fuel.{Settles, value-Settles}
use ipad_second_display.App.Config.Json.Total.{ReadsWithin, value-ReadsWithin}
use ipad_second_display.App.Config.Parse.{
  field, read_devices, read_scalars, read_object, read_root, try_parse_config, parse, or_default,
  is_shown, between, or_old, profile_of, mode_of, read_profile, read_mode,
}
use ipad_second_display.App.Config.Serialize.{
  escape_json, Writer, write_nat, write_array, serialize, write_presentation, write_connection,
  config_member, profile_number, mode_number,
}
use ipad_second_display.App.Config.Valid.{IsValid, IsKept}
use Values.{ReadsAs, write_text-ReadsAs, write_bool-ReadsAs, write_nat-ReadsAs}
use Entries.{
  Entry, Spacing, IsSpacing, EntryReads, write_entry, write_more, assign_all, object_read,
}
use Devices.{entry, text_entry, nat_entry, bool_entry, push_all, write_array-ReadsAs}
use Reading.{in_range, devices_pass}

abbrev spread : Spacing
spread = record { lead = codes "\n  "; gap = codes " " }

spread-IsSpacing : IsSpacing spread
unfolding skip parse_value
spread-IsSpacing = (λ input. refl, λ f input. refl)

abbrev first_entry : Entry
first_entry = nat_entry (codes "version") current_version

abbrev later_entries : Config → List Entry
later_entries c =
    entry (codes "devices") (write_array c.devices) (array (push_all no_items 0 c.devices))
    ∷ nat_entry (codes "port") c.port
    ∷ bool_entry (codes "autoReconnect") c.auto_reconnect
    ∷ nat_entry (codes "fps") c.fps
    ∷ nat_entry (codes "bitrateMbps") c.bitrate_mbps
    ∷ nat_entry (codes "streamProfile") (profile_number c.stream_profile)
    ∷ bool_entry (codes "requirePrivateNetwork") c.require_private_network
    ∷ bool_entry (codes "showLauncher") c.show_launcher
    ∷ nat_entry (codes "launcherMode") (mode_number c.launcher_mode)
    ∷ bool_entry (codes "darkTheme") c.dark_theme
    ∷ bool_entry (codes "taskbarRouting") c.taskbar_routing
    ∷ text_entry (codes "preferredDeviceId") c.preferred_device_id
    ∷ text_entry (codes "lastConnectionTransport") c.last_connection_transport
    ∷ text_entry (codes "lastWifiAddress") c.last_wifi_address
    ∷ text_entry (codes "lastUsbTarget") c.last_usb_target
    ∷ []

unfoldable config_members : Config → Members
unfolding assign_all
config_members c = assign_all no_members (first_entry ∷ later_entries c)

entries_written :
    (c : Config)
    → serialize c
      ≡ b'{' ∷ write_entry spread first_entry (write_more spread (later_entries c) (codes "\n}\n"))
unfolding serialize write_entry write_more
entries_written c = refl

ReadsAs-weaken : (n : ℕ) (w : Writer) (v : Json) → ReadsAs 1 w v → ReadsAs (n + 15) w v
ReadsAs-weaken n w v h f rest l e = h f rest (omega arith) e

small_profile : (p : StreamProfile) → profile_number p < 2 ^ 63
small_profile p = ground arith

small_mode : (m : LauncherMode) → mode_number m < 2 ^ 63
small_mode m = ground arith

last_line : consume b'}' (codes "\n}\n") ≡ some (codes "\n")
unfolding skip
last_line = refl

-- The object, once there is fuel for its devices.
serialize-read :
    (c : Config) (f : ℕ)
    → IsValid c
    → IsKept c
    → length c.devices + 40 ≤ f
    → parse_value f (serialize c) ≡ ok (object (config_members c), codes "\n")
unfolding config_members escape_json
serialize-read c f h l e =
    let n = length c.devices in
    ap (parse_value f) (entries_written c)
    ∙ object_read spread first_entry (later_entries c) (n + 15) f (codes "\n}\n") (codes "\n")
        spread-IsSpacing
        (
          (refl, ReadsAs-weaken n _ _ (write_nat-ReadsAs current_version (omega arith))),
          (
            (refl, write_array-ReadsAs c.devices h.5.0 (omega arith)),
            (
              (refl, ReadsAs-weaken n _ _ (write_nat-ReadsAs c.port (omega arith))),
              (
                (refl, ReadsAs-weaken n _ _ (write_bool-ReadsAs c.auto_reconnect)),
                (
                  (refl, ReadsAs-weaken n _ _ (write_nat-ReadsAs c.fps (omega arith))),
                  (
                    (refl, ReadsAs-weaken n _ _ (write_nat-ReadsAs c.bitrate_mbps (omega arith))),
                    (
                      (
                        refl,
                        ReadsAs-weaken n _ _ (
                            write_nat-ReadsAs (profile_number c.stream_profile)
                              (small_profile c.stream_profile)),
                      ),
                      (
                        (refl, ReadsAs-weaken n _ _ (write_bool-ReadsAs c.require_private_network)),
                        (
                          (refl, ReadsAs-weaken n _ _ (write_bool-ReadsAs c.show_launcher)),
                          (
                            (
                              refl,
                              ReadsAs-weaken n _ _ (
                                  write_nat-ReadsAs (mode_number c.launcher_mode)
                                    (small_mode c.launcher_mode)),
                            ),
                            (
                              (refl, ReadsAs-weaken n _ _ (write_bool-ReadsAs c.dark_theme)),
                              (
                                (refl, ReadsAs-weaken n _ _ (write_bool-ReadsAs c.taskbar_routing)),
                                (
                                  (
                                    refl,
                                    ReadsAs-weaken n _ _ (write_text-ReadsAs c.preferred_device_id),
                                  ),
                                  (
                                    (
                                      refl,
                                      ReadsAs-weaken n _ _
                                          (write_text-ReadsAs c.last_connection_transport),
                                    ),
                                    (
                                      (
                                        refl,
                                        ReadsAs-weaken n _ _
                                            (write_text-ReadsAs c.last_wifi_address),
                                      ),
                                      (
                                        (
                                          refl,
                                          ReadsAs-weaken n _ _
                                              (write_text-ReadsAs c.last_usb_target),
                                        ),
                                        tt,
                                      ),
                                    ),
                                  ),
                                ),
                              ),
                            ),
                          ),
                        ),
                      ),
                    ),
                  ),
                ),
              ),
            ),
          ),
        )
        (omega arith) refl last_line

profile_read :
    (p : StreamProfile) (fps bitrate : ℕ)
    → read_profile (between 0 3 (some (pos (profile_number p)))) fps bitrate ≡ p
profile_read balanced fps bitrate = refl
profile_read low_bandwidth fps bitrate = refl
profile_read sharp fps bitrate = refl
profile_read custom fps bitrate = refl

mode_read :
    (m : LauncherMode) (shown : Bool)
    → read_mode (between 0 2 (some (pos (mode_number m)))) shown ≡ m
mode_read hidden shown = refl
mode_read fullscreen shown = refl
mode_read region shown = refl

scalars_back : (c : Config) → IsValid c → read_scalars c.port c.devices (config_members c) ≡ c
unfolding read_scalars config_members insert_or_assign field bytes_eq
scalars_back c h =
    let fps = or_old (between 30 120 (some (pos c.fps))) 60 in
    let bitrate = or_old (between 5 100 (some (pos c.bitrate_mbps))) 30 in
    let profile =
      read_profile (between 0 3 (some (pos (profile_number c.stream_profile)))) fps bitrate in
    let numbers : StreamProfile → ℕ → ℕ → Config = λ p f b. record c {
      version = current_version;
      fps = f;
      bitrate_mbps = b;
      stream_profile = p;
      show_launcher = is_shown c.launcher_mode;
    } in
    ap
      (λ m. record c {
        version = current_version;
        fps = fps;
        bitrate_mbps = bitrate;
        stream_profile = profile;
        launcher_mode = m;
        show_launcher = is_shown m;
      })
      (mode_read c.launcher_mode (or_old (some c.show_launcher) true))
    ∙ ap (λ p. numbers p fps bitrate) (profile_read c.stream_profile fps bitrate)
    ∙ ap (λ f. numbers c.stream_profile f bitrate) (in_range 30 c.fps 120 60 h.2.0 h.2.1)
    ∙ ap (numbers c.stream_profile c.fps) (in_range 5 c.bitrate_mbps 100 30 h.3.0 h.3.1)
    ∙ ap (λ s. record c { version = current_version; show_launcher = s }) (sym h.4)
    ∙ ap (λ v. record c { version = v }) (sym h.0)

devices_back :
    (c : Config) → IsValid c → IsKept c → read_devices c.port (config_members c) ≡ c.devices
unfolding read_devices config_members insert_or_assign field bytes_eq
devices_back c h l = devices_pass c.port c.devices h.5 l.0 l.1

read_port :
    (c : Config)
    → IsValid c
    → read_object (config_members c)
      ≡ read_scalars c.port (read_devices c.port (config_members c)) (config_members c)
unfolding read_object config_members insert_or_assign field bytes_eq
read_port c h =
    ap (λ p. read_scalars p (read_devices p (config_members c)) (config_members c))
      (in_range 1 c.port 65535 9000 h.1.0 h.1.1)

members_read_back : (c : Config) → IsValid c → IsKept c → read_object (config_members c) ≡ c
unfolding read_object
members_read_back c h l =
    read_port c h
    ∙ ap (λ ds. read_scalars c.port ds (config_members c)) (devices_back c h l)
    ∙ scalars_back c h

settled :
    (n : ℕ) (r s : Result (Json × Bytes)) (a : Json × Bytes)
    → Settles r s
    → ReadsWithin n r
    → s ≡ ok a
    → r ≡ ok a
settled n (ok b) s a h k e = sym h ∙ e
settled n failed s a h k e = absurd (ground (arith, h, e))
settled n out_of_fuel s a h k e = absurd k

-- With the parser's own fuel, by way of a run that has enough for both arguments.
value_read :
    (c : Config)
    → IsValid c
    → IsKept c
    → parse_value (2 * length (serialize c) + 2) (serialize c)
      ≡ ok (object (config_members c), codes "\n")
value_read c h l =
    let f = 2 * length (serialize c) + 2 in
    let g = f + (length c.devices + 40) in
    settled (length (serialize c)) (parse_value f (serialize c)) (parse_value g (serialize c)) _
      (value-Settles f g (serialize c) (omega arith))
      (value-ReadsWithin f (serialize c) (omega arith)) (serialize-read c g h l (omega arith))

json_read :
    (c : Config) → IsValid c → IsKept c → parse_json (serialize c) ≡ ok (object (config_members c))
unfolding parse_json skip
json_read c h l = ap (λ r. r >>= λ (v, rest). finish (v, skip rest)) (value_read c h l)

pub try_parse_config-serialize :
    (c : Config) → IsValid c → IsKept c → try_parse_config (serialize c) ≡ ok c
unfolding try_parse_config
try_parse_config-serialize c h l = ap read_root (json_read c h l) ∙ ap ok (members_read_back c h l)

-- Valid settings with at most 2^32 devices, each with an identifier, an address or a host name, come back from their text as they were: every field, and every device in its place.
pub parse-serialize : (c : Config) → IsValid c → IsKept c → parse (serialize c) ≡ c
unfolding parse
parse-serialize c h l = ap or_default (try_parse_config-serialize c h l)
