-- ===== src/App/DeviceCoordinator.antt =====
-- src/app/DeviceCoordinator.h and DeviceCoordinator.cpp: which device to try, and in which order.
pub mod Order
pub mod Failover
mod Tests
use ipad_second_display.Common.{
  ℕ, zero, suc, ◌+◌, Bool, true, false, ◌&&◌, ◌||◌, not, List, [], ◌∷◌, ◌++◌, Option, none, some,
  ◌==◌, ltb, leb, length, get_elem?, if◌then◌else◌, Bytes, bytes_eq, is_empty,
}
use ipad_second_display.App.Config.{DeviceConfig}

pub data AutoConnectState : Type 0 where
  idle trying waiting_next streaming user_switching exhausted blocked : AutoConnectState

pub data DeviceFailureClass : Type 0 where
  device global : DeviceFailureClass

pub record DeviceCoordinator : Type 0 where
  pub state : AutoConnectState
  pub order : List ℕ
  pub position : ℕ
  pub switch_target : Option ℕ
  pub streaming_device_id : Bytes

-- The object as constructed, and as `Reset` leaves it.
abbrev pub reset : DeviceCoordinator
reset = record {
  state = idle;
  order = [];
  position = 0;
  switch_target = none;
  streaming_device_id = [];
}

-- `std::find` over the order.
unfoldable pub contains : List ℕ → ℕ → Bool
contains [] i = false
contains (x ∷ xs) i = x == i || contains xs i

-- The loop over the devices with the preferred id; `i` is the index of the head.
pub push_preferred : List ℕ → ℕ → List DeviceConfig → Bytes → List ℕ
push_preferred order i [] preferred = order
push_preferred order i (d ∷ ds) preferred =
    push_preferred (if d.auto_connect && bytes_eq d.id preferred then order ++ i ∷ [] else order)
      (suc i) ds preferred

-- The loop over the others.
pub push_remaining : List ℕ → ℕ → List DeviceConfig → List ℕ
push_remaining order i [] = order
push_remaining order i (d ∷ ds) =
    push_remaining (if d.auto_connect && not (contains order i) then order ++ i ∷ [] else order)
      (suc i) ds

pub begin_order : List DeviceConfig → Bytes → List ℕ
begin_order ds preferred =
    push_remaining (if not (is_empty preferred) then push_preferred [] 0 ds preferred else []) 0 ds

pub start_with : List ℕ → DeviceCoordinator × Option ℕ
start_with [] = (record reset { state = exhausted }, none)
start_with (i ∷ order) = (record reset { state = trying; order = i ∷ order }, some i)

-- `Begin` forgets the object's state, so it has no argument for it.
pub begin : List DeviceConfig → Bytes → DeviceCoordinator × Option ℕ
begin ds preferred = start_with (begin_order ds preferred)

pub report_device_failure : DeviceCoordinator → DeviceCoordinator × Option ℕ
report_device_failure c =
    if leb (length c.order) (c.position + 1) then (record c { state = exhausted }, none) else (
      record c { position = c.position + 1; state = waiting_next },
      get_elem? c.order (c.position + 1),
    )

pub report_failure : DeviceCoordinator → DeviceFailureClass → DeviceCoordinator × Option ℕ
report_failure c global = (record c { state = blocked }, none)
report_failure c device = report_device_failure c

pub report_streaming : DeviceCoordinator → Bytes → DeviceCoordinator
report_streaming c id = record c { state = streaming; streaming_device_id = id }

abbrev pub is_switching : AutoConnectState → Bool
is_switching user_switching = true
is_switching _ = false

-- `switchTarget_ == index`.
abbrev pub targets : Option ℕ → ℕ → Bool
targets none i = false
targets (some j) i = j == i

pub request_switch : DeviceCoordinator → ℕ → DeviceCoordinator × Bool
request_switch c i =
    if is_switching c.state && targets c.switch_target i
    then (c, false)
    else (record c { switch_target = some i; state = user_switching }, true)

pub complete_switch : DeviceCoordinator → Bool → DeviceCoordinator
complete_switch c ok = record c { state = if ok then streaming else trying; switch_target = none }

pub current : DeviceCoordinator → Option ℕ
current c =
    if is_switching c.state
    then c.switch_target
    else if ltb c.position (length c.order)
    then get_elem? c.order c.position
    else none

pub next_candidate : DeviceCoordinator → Option ℕ
next_candidate c =
    if ltb (c.position + 1) (length c.order) then get_elem? c.order (c.position + 1) else none
