-- ===== src/Encode/AnnexB/Tests.antt =====
-- src/encode/AnnexB.cpp on a short stream.
use ipad_second_display.Common.{◌≡◌, refl, List, [], ◌∷◌}
use ipad_second_display.Encode.AnnexB.{
  NalUnit, scan_start_codes, build_access_unit, before_idr, has_type, ensure_parameter_sets,
}
use ipad_second_display.Encode.AnnexB.RoundTrip.{scan_start_codes-build_access_unit}
use ipad_second_display.Encode.AnnexB.Parameters.{
  empty_cache, feed, any_has_type, IsDecodable, Extends, keyframe-IsDecodable,
  ensure_parameter_sets-Extends,
}

abbrev sps : NalUnit
sps = record { type = 7; payload = 0x67 ∷ 0x42 ∷ [] }

abbrev pps : NalUnit
pps = record { type = 8; payload = 0x68 ∷ [] }

abbrev idr : NalUnit
idr = record { type = 5; payload = 0x65 ∷ 0 ∷ 0 ∷ 3 ∷ [] }

abbrev stream : List (List NalUnit)
stream = (sps ∷ pps ∷ idr ∷ []) ∷ []

scans_both_codes :
    scan_start_codes (9 ∷ 0 ∷ 0 ∷ 1 ∷ 0x67 ∷ 0 ∷ 0 ∷ 0 ∷ 1 ∷ 0x68 ∷ [])
    ≡ record { type = 7; payload = 0x67 ∷ [] } ∷ record { type = 8; payload = 0x68 ∷ [] } ∷ []
unfolding scan_start_codes
scans_both_codes = refl

scan_start_codes-build_access_unit_example :
    scan_start_codes (build_access_unit (sps ∷ pps ∷ idr ∷ [])) ≡ sps ∷ pps ∷ idr ∷ []
scan_start_codes-build_access_unit_example =
    scan_start_codes-build_access_unit (sps ∷ pps ∷ idr ∷ []) (
      record { nonempty = refl; clean = refl; typed = refl },
      (
        record { nonempty = refl; clean = refl; typed = refl },
        (record { nonempty = refl; clean = refl; typed = refl }, tt),
      ),
    )

keyframe-IsDecodable_example :
    IsDecodable (ensure_parameter_sets (feed empty_cache stream) (idr ∷ [])).1
unfolding before_idr any_has_type has_type
keyframe-IsDecodable_example = keyframe-IsDecodable stream (idr ∷ []) [] refl refl refl

ensure_parameter_sets-Extends_example :
    Extends (idr ∷ []) (ensure_parameter_sets (feed empty_cache stream) (idr ∷ [])).1
ensure_parameter_sets-Extends_example = ensure_parameter_sets-Extends stream (idr ∷ [])
