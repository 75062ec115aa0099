-- ===== src/App/Config/Valid/Settings.antt =====
-- The settings that `Config::Parse` of src/app/Config.cpp makes of a text, whatever it holds.
use ipad_second_display.Common.{ℕ, ◌≤◌, refl, List, Bytes, codes, arith}
use ipad_second_display.App.Config.{Config, DeviceConfig, default_config}
use ipad_second_display.App.Config.Json.{
  Json, null, bool, number, text, object, array, Members, Result, ok, failed, out_of_fuel,
  parse_json,
}
use ipad_second_display.App.Config.Json.Total.{Fits, MembersFit, Read, parse_json-Read}
use ipad_second_display.App.Config.Parse.{
  int_field, read_scalars, read_object, read_root, try_parse_config, or_default, parse,
}
use ipad_second_display.App.Config.Valid.{IsValid, AreInOrder}
use ipad_second_display.App.Config.Valid.Devices.{
  between-low, between-high, read_devices-AreInOrder,
}

read_scalars-IsValid :
    (port : ℕ) (ds : List DeviceConfig) (ms : Members)
    → 1 ≤ port
    → port ≤ 65535
    → AreInOrder ds
    → IsValid (read_scalars port ds ms)
unfolding read_scalars
read_scalars-IsValid port ds ms h k l = (
  refl,
  (h, k),
  (
    between-low 30 120 60 (int_field ms (codes "fps")) (omega arith),
    between-high 30 120 60 (int_field ms (codes "fps")) (omega arith),
  ),
  (
    between-low 5 100 30 (int_field ms (codes "bitrateMbps")) (omega arith),
    between-high 5 100 30 (int_field ms (codes "bitrateMbps")) (omega arith),
  ),
  refl,
  l,
)

read_object-IsValid : (ms : Members) → MembersFit ms → IsValid (read_object ms)
unfolding read_object
read_object-IsValid ms fit =
    let low = between-low 1 65535 9000 (int_field ms (codes "port")) (omega arith) in
    let high = between-high 1 65535 9000 (int_field ms (codes "port")) (omega arith) in
    read_scalars-IsValid _ _ ms low high (read_devices-AreInOrder _ ms low high fit)

default_config-IsValid : IsValid default_config
default_config-IsValid = (
  refl,
  (omega arith, omega arith),
  (omega arith, omega arith),
  (omega arith, omega arith),
  refl,
  (tt, tt, tt),
)

-- A configuration that is valid, or a failure; not out of fuel.
abbrev pub Decides : Result Config → Type 0
Decides (ok c) = IsValid c
Decides failed = Unit
Decides out_of_fuel = ⊥

read_root-Decides : (r : Result Json) → Read r → Decides (read_root r)
unfolding Fits
read_root-Decides (ok (object ms)) h = read_object-IsValid ms h
read_root-Decides (ok null) h = tt
read_root-Decides (ok (bool b)) h = tt
read_root-Decides (ok (number n)) h = tt
read_root-Decides (ok (text s)) h = tt
read_root-Decides (ok (array is)) h = tt
read_root-Decides failed h = tt
read_root-Decides out_of_fuel h = h

-- `TryParseConfig` fails or gives valid settings, on every text.
pub try_parse_config-Decides : (json : Bytes) → Decides (try_parse_config json)
unfolding try_parse_config
try_parse_config-Decides json = read_root-Decides (parse_json json) (parse_json-Read json)

or_default-IsValid : (r : Result Config) → Decides r → IsValid (or_default r)
or_default-IsValid (ok c) h = h
or_default-IsValid failed h = default_config-IsValid
or_default-IsValid out_of_fuel h = default_config-IsValid

-- Whatever text is parsed, the settings are valid: the version is the current one, port, frame rate and bit rate are in range, the two launcher fields agree, and the devices have ports in range, their positions (in 32 bits) as priorities and no duplicates.
pub parse-IsValid : (json : Bytes) → IsValid (parse json)
unfolding parse
parse-IsValid json = or_default-IsValid (try_parse_config json) (try_parse_config-Decides json)
