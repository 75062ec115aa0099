-- ===== src/Net/UsbMux/Tests.antt =====
-- src/net/UsbMux.cpp on short texts.
use ipad_second_display.Common.{[], ◌≡◌, ◌↔◌, true, Bytes, codes}
use ipad_second_display.Net.UsbMux.{equals_udid, devices_of_response}
use ipad_second_display.Net.UsbMux.Udid.{canonical, equals_udid_iff}
use ipad_second_display.Net.UsbMux.Devices.{AllDistinct, devices_of_response-AllDistinct}

equals_udid_iff_example :
    (equals_udid (codes "00008103-000A") (codes "00008103000a") ≡ true)
    ↔ (canonical (codes "00008103-000A") ≡ canonical (codes "00008103000a"))
equals_udid_iff_example = equals_udid_iff (codes "00008103-000A") (codes "00008103000a")

abbrev response : Bytes
response =
    codes
      "<key>ConnectionType</key><string>USB</string><key>DeviceID</key><integer>3</integer><key>SerialNumber</key><string>AB-1</string>"

devices_of_response-AllDistinct_example : AllDistinct [] (devices_of_response response)
devices_of_response-AllDistinct_example = devices_of_response-AllDistinct response
