-- ===== src/App/DeviceCoordinator/Tests.antt =====
-- src/app/DeviceCoordinator.cpp with three devices.
use ipad_second_display.Common.{
  bytes_eq, ℕ, ◌≡◌, ◌≢◌, ◌≤◌, ◌↔◌, refl, true, false, List, [], ◌∷◌, none, some, codes, Bytes,
  length, if◌then◌else◌,
}
use ipad_second_display.App.Config.{DeviceConfig, new_device}
use ipad_second_display.App.DeviceCoordinator.{
  begin, begin_order, start_with, push_preferred, push_remaining, contains, current, reset,
  exhausted, device, is_switching,
}
use ipad_second_display.App.DeviceCoordinator.Order.{
  count, is_eligible, is_preferred, count-begin, begin-preferred,
}
use ipad_second_display.App.DeviceCoordinator.Failover.{
  after_failures, offer, call, run, fails, resets, offer_lem, exhausted_iff, offer-eligible,
  current-none,
}

abbrev three_devices : List DeviceConfig
three_devices =
    record new_device { id = codes "a" }
    ∷ record new_device { id = codes "b"; auto_connect = false }
    ∷ record new_device { id = codes "c" }
    ∷ []

prefers_c : (begin three_devices (codes "c")).0.order ≡ 2 ∷ 0 ∷ []
unfolding begin begin_order start_with push_preferred push_remaining contains bytes_eq
prefers_c = refl

count-begin_example :
    count 2 (begin three_devices (codes "c")).0.order
    ≡ (if is_eligible three_devices 2 then 1 else 0)
count-begin_example = count-begin three_devices (codes "c") 2

begin-preferred_example :
    (i : ℕ) × ((begin three_devices (codes "c")).1 ≡ some i)
    × (is_preferred (codes "c") three_devices i ≡ true)
unfolding bytes_eq
begin-preferred_example = begin-preferred three_devices (codes "c") 2 refl refl

offer_lem_example :
    offer three_devices (codes "c") 1
    ≡ ipad_second_display.Common.get_elem? (begin three_devices (codes "c")).0.order 1
offer_lem_example = offer_lem three_devices (codes "c") 1

exhausted_iff_example :
    ((after_failures 2 (begin three_devices []).0).state ≡ exhausted)
    ↔ (length (begin three_devices []).0.order ≤ 2)
exhausted_iff_example = exhausted_iff three_devices [] 2

offer-eligible_example :
    (k : ℕ) × (offer three_devices (codes "c") k ≡ some 0)
    × ((after_failures k (begin three_devices (codes "c")).0).state ≢ exhausted)
offer-eligible_example = offer-eligible three_devices (codes "c") 0 refl

current-none_example :
    ((run reset (fails device ∷ resets ∷ [])).order ≡ [])
    × (is_switching (run reset (fails device ∷ resets ∷ [])).state ≡ false)
unfolding current run call
current-none_example = current-none (fails device ∷ resets ∷ []) refl
