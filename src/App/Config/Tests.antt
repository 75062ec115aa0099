-- ===== src/App/Config/Tests.antt =====
-- src/app/Config.cpp on concrete settings.
use ipad_second_display.Common.{◌≡◌, refl, [], ◌∷◌, codes, arith}
use ipad_second_display.Common.Int.{negsuc}
use ipad_second_display.App.Config.{Config, DeviceConfig, default_config, new_device}
use ipad_second_display.App.Config.Json.{parse_json}
use ipad_second_display.App.Config.Json.Total.{Read, parse_json-Read}
use ipad_second_display.App.Config.Parse.{
  parse, is_reachable, any_duplicate, is_duplicate, legacy_device, before_blank, behind_blanks,
  skip_blanks,
}
use ipad_second_display.App.Config.Serialize.{serialize}
use ipad_second_display.App.Config.Valid.{IsValid, IsKept}
use ipad_second_display.App.Config.Valid.Settings.{parse-IsValid}
use ipad_second_display.App.Config.RoundTrip.{parse-serialize}

abbrev desk : DeviceConfig
desk = record new_device {
  id = codes "a1";
  name = codes "Desk \"left\"";
  last_ipv4 = codes "192.168.1.7";
  last_seen = negsuc 4;
}

abbrev sofa : DeviceConfig
sofa = record new_device {
  name = codes "Sofa";
  last_ipv4 = codes "10.0.0.2";
  port = 9001;
  priority = 1;
}

abbrev two_devices : Config
two_devices = record default_config {
  devices = desk ∷ sofa ∷ [];
  fps = 90;
  last_usb_target = codes "usb:0\\1";
}

two_devices-IsValid : IsValid two_devices
unfolding any_duplicate is_duplicate
two_devices-IsValid = (
  refl,
  (omega arith, omega arith),
  (omega arith, omega arith),
  (omega arith, omega arith),
  refl,
  (
    ((omega arith, omega arith, omega arith), ((omega arith, omega arith, omega arith), tt)),
    (refl, (refl, tt)),
    (refl, (refl, tt)),
  ),
)

two_devices-IsKept : IsKept two_devices
unfolding is_reachable
two_devices-IsKept = ((refl, (refl, tt)), omega arith)

parse-serialize_example : parse (serialize two_devices) ≡ two_devices
parse-serialize_example = parse-serialize two_devices two_devices-IsValid two_devices-IsKept

parse-IsValid_example : IsValid (
    parse (
      codes
        "{\"port\":70000,\"fps\":500,\"devices\":[\"10.0.0.2 Sofa\",{\"id\":\"a\"},{\"id\":\"a\"}]}"))
parse-IsValid_example = parse-IsValid (
    codes
      "{\"port\":70000,\"fps\":500,\"devices\":[\"10.0.0.2 Sofa\",{\"id\":\"a\"},{\"id\":\"a\"}]}")

parse_json-Read_example : Read (parse_json (codes "[[[{\"a\":[-5,\"\\u00e9\"]}]]] "))
parse_json-Read_example = parse_json-Read (codes "[[[{\"a\":[-5,\"\\u00e9\"]}]]] ")

-- The oldest entries: an address with a name, and one with a blank in front, which is a device
-- with no address.
named_address :
    legacy_device (codes "10.0.0.2 \tSofa") 9000 0
    ≡ record new_device { name = codes "Sofa"; last_ipv4 = codes "10.0.0.2" }
unfolding legacy_device before_blank behind_blanks skip_blanks
named_address = refl

blank_address :
    legacy_device (codes " 10.0.0.3") 9000 1
    ≡ record new_device { name = codes "10.0.0.3"; priority = 1 }
unfolding legacy_device before_blank behind_blanks skip_blanks
blank_address = refl
