-- ===== src/App/Config/Valid.antt =====
-- Conditions on the settings and devices of src/app/Config.h.
pub mod Devices
pub mod Settings
use ipad_second_display.Common.{
  ℕ, zero, suc, ◌%◌, ◌^◌, ◌≤◌, ◌≡◌, refl, true, false, List, [], ◌∷◌, ◌++◌, All, length,
}
use ipad_second_display.App.Config.{Config, DeviceConfig, current_version}
use ipad_second_display.App.Config.Json.Total.{FitsInt64}
use ipad_second_display.App.Config.Parse.{is_reachable, any_duplicate, is_shown}

-- The values of a device lie in the ranges of its fields.
abbrev pub DeviceFits : DeviceConfig → Type 0
DeviceFits d = (1 ≤ d.port) × (d.port ≤ 65535) × FitsInt64 d.last_seen

abbrev pub IsReachable : DeviceConfig → Type 0
IsReachable d = is_reachable d ≡ true

-- The priorities are the positions from `i` on.
abbrev pub IsNumbered : ℕ → List DeviceConfig → Type 0
IsNumbered i [] = Unit
IsNumbered i (d ∷ ds) = (d.priority ≡ i % 2 ^ 32) × IsNumbered (suc i) ds

-- No device stands for the same one as a device before it, the earlier ones counted.
abbrev pub IsDistinct : List DeviceConfig → List DeviceConfig → Type 0
IsDistinct earlier [] = Unit
IsDistinct earlier (d ∷ ds) = (any_duplicate d earlier ≡ false) × IsDistinct (earlier ++ d ∷ []) ds

abbrev pub AreInOrder : List DeviceConfig → Type 0
AreInOrder ds = All DeviceFits ds × IsNumbered 0 ds × IsDistinct [] ds

abbrev pub IsValid : Config → Type 0
IsValid c =
    (c.version ≡ current_version)
    × ((1 ≤ c.port) × (c.port ≤ 65535))
    × ((30 ≤ c.fps) × (c.fps ≤ 120))
    × ((5 ≤ c.bitrate_mbps) × (c.bitrate_mbps ≤ 100))
    × (c.show_launcher ≡ is_shown c.launcher_mode)
    × AreInOrder c.devices

-- Settings that `TryParseConfig` keeps whole: it drops an object with nothing to reach its device by.
abbrev pub IsKept : Config → Type 0
IsKept c = All IsReachable c.devices × (length c.devices ≤ 2 ^ 32)
