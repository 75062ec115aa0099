-- ===== src/Input/Injector.antt =====
-- src/input/InputInjector.h and InputInjector.cpp. A call is one step: `rectMutex_` guards only the
-- monitor's rectangle, and one session thread handles the messages.
pub mod Effect
pub mod Pencil
pub mod Session
mod Windows
mod Tests
pub use Windows.*
use ipad_second_display.Common.{
  ℕ, ◌-◌, Bool, true, false, not, ◌&&◌, List, [], ◌∷◌, ◌++◌, if◌then◌else◌, ◌==◌, Bytes, codes,
}
use ipad_second_display.Common.Int.{ℤ, pos, negsuc, ◌+ℤ◌, ◌-ℤ◌, ltb_ℤ}
use ipad_second_display.Net.Protocol.{
  TouchPhase, began, moved, ended, cancelled, unknown_touch, PencilPhase, hover, pencil_down,
  pencil_move, pencil_up, unknown_pencil, TouchMsg, ScrollMsg, PencilMsg, ProximityMsg,
}

-- The fields of the class, and all that was injected so far, the oldest first.
pub record InputInjector : Type 0 where
  pub monitor_rect : Rect
  pub is_down : Bool
  pub pen_device : Bool
  pub pen_device_failed : Bool
  pub inject_failed : Bool
  pub pen_down : Bool
  pub pen_in_range : Bool
  pub last_pen_point : Point
  pub output : List Event

abbrev pub new_injector : InputInjector
new_injector = record {
  monitor_rect = record { left = pos 0; top = pos 0; right = pos 0; bottom = pos 0 };
  is_down = false;
  pen_device = false;
  pen_device_failed = false;
  inject_failed = false;
  pen_down = false;
  pen_in_range = false;
  last_pen_point = record { x = pos 0; y = pos 0 };
  output = [];
}

unfoldable pub set_monitor_rect : InputInjector → Rect → InputInjector
set_monitor_rect s rect = record s { monitor_rect = rect }

unfoldable pub send_mouse_input : InputInjector → List MouseFlag → ℤ → ℤ → ℤ → InputInjector
send_mouse_input s flags dx dy data_ = record s {
  output = s.output ++ mouse flags dx dy data_ ∷ [];
}

abbrev pub is_zero_ℤ : ℤ → Bool
is_zero_ℤ (pos n) = n == 0
is_zero_ℤ (negsuc n) = false

-- `==` on `bool`.
abbrev pub same : Bool → Bool → Bool
same true b = b
same false b = not b

module _ (f : Doubles) (desktop : Desktop) where
  pub normalized : f.Double → f.Double
  normalized v = f.clamp v (f.literal (codes "0.0")) (f.literal (codes "1.0"))

  pub normalize_to_virtual_desktop : ℤ → ℤ → ℤ → ℤ
  normalize_to_virtual_desktop coord origin extent =
      if not (ltb_ℤ (pos 0) extent)
      then pos 0
      else f.truncate (
          f.over (f.times (f.of_int (coord -ℤ origin)) (f.literal (codes "65535.0")))
            (f.of_int extent))

  abbrev half_turn : f.Double
  half_turn = f.literal (codes "3.14159265358979323846")

  abbrev degrees : f.Double → f.Double → ℤ
  degrees a b = f.lround (
      f.clamp (f.times (f.atan2 a b) (f.literal (codes "57.295779513082320876798")))
        (f.literal (codes "-90.0")) (f.literal (codes "90.0")))

  pub derive_tilt : f.Double → f.Double → ℤ × ℤ
  derive_tilt azimuth altitude =
      let az =
        f.clamp azimuth (f.times (f.literal (codes "-2.0")) half_turn)
          (f.times (f.literal (codes "2.0")) half_turn) in
      let al =
        f.clamp altitude (f.literal (codes "0.0")) (f.over half_turn (f.literal (codes "2.0"))) in
      (
        degrees (f.times (f.cos al) (f.cos az)) (f.sin al),
        degrees (f.times (f.cos al) (f.sin az)) (f.sin al),
      )

  -- A coordinate of `HandleTouch`: the pixel on the screen, then 0 to 65535 over the desktop.
  pub touch_axis : f.Double → ℤ → ℤ → ℤ → ℤ → ℤ
  touch_axis v low high origin extent =
      normalize_to_virtual_desktop
        (low +ℤ f.truncate (f.times (normalized v) (f.of_int (high -ℤ low)))) origin extent

  pub touch_end : InputInjector → ℤ → ℤ → InputInjector
  touch_end s x y =
      let moved_there = send_mouse_input s (move ∷ absolute ∷ virtual_desk ∷ []) x y (pos 0) in
      record (if s.is_down
        then send_mouse_input moved_there (left_up ∷ absolute ∷ virtual_desk ∷ []) x y (pos 0)
        else moved_there) { is_down = false }

  pub touch_at : InputInjector → TouchPhase → ℤ → ℤ → InputInjector
  touch_at s began x y =
      record (send_mouse_input
        (send_mouse_input s (move ∷ absolute ∷ virtual_desk ∷ []) x y (pos 0))
        (left_down ∷ absolute ∷ virtual_desk ∷ []) x y (pos 0)) { is_down = true }
  touch_at s moved x y = send_mouse_input s (move ∷ absolute ∷ virtual_desk ∷ []) x y (pos 0)
  touch_at s ended x y = touch_end s x y
  touch_at s cancelled x y = touch_end s x y
  touch_at s unknown_touch x y = s

  pub handle_touch : InputInjector → TouchMsg f.Double → InputInjector
  handle_touch s touch =
      let rect = s.monitor_rect in
      let screen = desktop.virtual_screen s.output in
      touch_at s touch.phase (touch_axis touch.x rect.left rect.right screen.x screen.cx)
        (touch_axis touch.y rect.top rect.bottom screen.y screen.cy)

  -- One axis of `HandleScroll`; `WHEEL_DELTA` is 120.
  pub scroll_axis : InputInjector → MouseFlag → f.Double → InputInjector
  scroll_axis s flag d =
      let pixels = f.clamp d (f.literal (codes "-10000.0")) (f.literal (codes "10000.0")) in
      let delta =
        f.truncate (f.times (f.over pixels (f.literal (codes "100.0"))) (f.of_int (pos 120))) in
      if f.is_zero d
      then s
      else if is_zero_ℤ delta
      then s
      else send_mouse_input s (flag ∷ []) (pos 0) (pos 0) delta

  pub handle_scroll : InputInjector → ScrollMsg f.Double → InputInjector
  handle_scroll s scroll = scroll_axis (scroll_axis s wheel scroll.dy) hwheel scroll.dx

  pub screen_point : InputInjector → f.Double → f.Double → Point
  screen_point s nx ny =
      let rect = s.monitor_rect in
      let screen = desktop.virtual_screen s.output in
      record {
        x =
            rect.left
            +ℤ f.lround (f.times (normalized nx) (f.of_int (rect.right -ℤ rect.left)))
            -ℤ screen.x;
        y =
            rect.top
            +ℤ f.lround (f.times (normalized ny) (f.of_int (rect.bottom -ℤ rect.top)))
            -ℤ screen.y;
      }

  pub ensure_pen_device : InputInjector → InputInjector × Bool
  ensure_pen_device s =
      if s.pen_device
      then (s, true)
      else if s.pen_device_failed
      then (s, false)
      else if desktop.creates_device s.output
      then (record s { pen_device = true }, true)
      else (record s { pen_device_failed = true }, false)

  pub inject_pen :
      InputInjector → List PenFlag → Point → f.Double → f.Double → f.Double → InputInjector
  inject_pen s flags pt pressure azimuth altitude =
      let tilt = derive_tilt azimuth altitude in
      let amount = f.lround (
        f.times (f.clamp pressure (f.literal (codes "0.0")) (f.literal (codes "1.0")))
          (f.literal (codes "1024.0"))) in
      let events = s.output ++ pen flags pt amount tilt.0 tilt.1 ∷ [] in
      record s {
        last_pen_point = pt;
        output = events;
        inject_failed =
            if not (desktop.injects events) && not s.inject_failed then true else s.inject_failed;
      }

  abbrev zero_double : f.Double
  zero_double = f.literal (codes "0.0")

  abbrev upright : f.Double
  upright = f.literal (codes "1.5707963267948966")

  pub release_pen_if_down : InputInjector → Point → InputInjector
  release_pen_if_down s pt =
      if not s.pen_down
      then s
      else record (inject_pen s (in_range ∷ up ∷ []) pt zero_double zero_double upright) {
        pen_down = false;
      }

  pub pencil_at : InputInjector → PencilPhase → PencilMsg f.Double → Point → InputInjector
  pencil_at s pencil_down m pt =
      record (inject_pen s (in_range ∷ in_contact ∷ down ∷ []) pt m.pressure m.azimuth m.altitude) {
        pen_down = true;
        pen_in_range = true;
      }
  pencil_at s pencil_move m pt =
      record (if s.pen_down
        then inject_pen s (in_range ∷ in_contact ∷ update ∷ []) pt m.pressure m.azimuth m.altitude
        else inject_pen s (in_range ∷ update ∷ []) pt zero_double m.azimuth m.altitude) {
          pen_in_range = true;
        }
  pencil_at s pencil_up m pt = release_pen_if_down s pt
  pencil_at s hover m pt =
      record (inject_pen (release_pen_if_down s pt) (in_range ∷ update ∷ []) pt zero_double
        m.azimuth m.altitude) { pen_in_range = true }
  pencil_at s unknown_pencil m pt = s

  pub handle_pencil_on : InputInjector × Bool → PencilMsg f.Double → InputInjector
  handle_pencil_on (s, false) m = s
  handle_pencil_on (s, true) m = pencil_at s m.phase m (screen_point s m.x m.y)

  pub handle_pencil : InputInjector → PencilMsg f.Double → InputInjector
  handle_pencil s m = handle_pencil_on (ensure_pen_device s) m

  pub leave_range : InputInjector → Point → InputInjector
  leave_range s pt = inject_pen s (update ∷ []) pt zero_double zero_double upright

  -- The body of `EndSession` after the mouse button.
  pub end_pen : InputInjector → InputInjector
  end_pen s =
      let released = release_pen_if_down s s.last_pen_point in
      if not s.pen_device
      then s
      else if released.pen_in_range
      then record (leave_range released released.last_pen_point) { pen_in_range = false }
      else released

  pub end_session : InputInjector → InputInjector
  end_session s = end_pen (
      if s.is_down
      then record (send_mouse_input s (left_up ∷ []) (pos 0) (pos 0) (pos 0)) { is_down = false }
      else s)

  pub proximity_on : InputInjector × Bool → ProximityMsg f.Double → InputInjector
  proximity_on (s, false) m = s
  proximity_on (s, true) m =
      let pt = screen_point s m.x m.y in
      let entered = inject_pen s (in_range ∷ update ∷ []) pt zero_double zero_double upright in
      if same m.entering s.pen_in_range
      then s
      else record (if m.entering then entered else leave_range (release_pen_if_down s pt) pt) {
        pen_in_range = m.entering;
      }

  pub handle_proximity : InputInjector → ProximityMsg f.Double → InputInjector
  handle_proximity s m = proximity_on (ensure_pen_device s) m
