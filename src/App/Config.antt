-- ===== src/App/Config.antt =====
-- src/app/Config.h: the settings and the devices in them.
pub mod Json
pub mod Parse
pub mod Serialize
pub mod Valid
pub mod Store
pub mod RoundTrip
mod Tests
use ipad_second_display.Common.{ℕ, Bool, true, false, List, [], Bytes}
use ipad_second_display.Common.Int.{ℤ, pos}

pub data LauncherMode : Type 0 where
  hidden fullscreen region : LauncherMode

pub data StreamProfile : Type 0 where
  balanced low_bandwidth sharp custom : StreamProfile

pub record DeviceConfig : Type 0 where
  pub id : Bytes
  pub name : Bytes
  pub last_ipv4 : Bytes
  pub bonjour_host : Bytes
  pub port : ℕ
  pub preferred_transport : Bytes
  pub priority : ℕ
  pub auto_connect : Bool
  pub last_seen : ℤ
  pub mac_hint : Bytes

-- A default-constructed device.
abbrev pub new_device : DeviceConfig
new_device = record {
  id = [];
  name = [];
  last_ipv4 = [];
  bonjour_host = [];
  port = 9000;
  preferred_transport = [];
  priority = 0;
  auto_connect = true;
  last_seen = pos 0;
  mac_hint = [];
}

abbrev pub current_version : ℕ
current_version = 2

pub record Config : Type 0 where
  pub version : ℕ
  pub devices : List DeviceConfig
  pub port : ℕ
  pub auto_reconnect : Bool
  pub fps : ℕ
  pub bitrate_mbps : ℕ
  pub stream_profile : StreamProfile
  pub require_private_network : Bool
  pub show_launcher : Bool
  pub launcher_mode : LauncherMode
  pub dark_theme : Bool
  pub taskbar_routing : Bool
  pub preferred_device_id : Bytes
  pub last_connection_transport : Bytes
  pub last_wifi_address : Bytes
  pub last_usb_target : Bytes

-- A default-constructed configuration.
abbrev pub default_config : Config
default_config = record {
  version = current_version;
  devices = [];
  port = 9000;
  auto_reconnect = true;
  fps = 60;
  bitrate_mbps = 30;
  stream_profile = balanced;
  require_private_network = true;
  show_launcher = true;
  launcher_mode = fullscreen;
  dark_theme = false;
  taskbar_routing = false;
  preferred_device_id = [];
  last_connection_transport = [];
  last_wifi_address = [];
  last_usb_target = [];
}
