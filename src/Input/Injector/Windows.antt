-- ===== src/Input/Injector/Windows.antt =====
-- The events that src/input/InputInjector.cpp injects, and the answers of Windows.
use ipad_second_display.Common.{Bool, List, Bytes}
use ipad_second_display.Common.Int.{ℤ}

-- The arithmetic on `double`, which is the compiler's and its library's. `clamp x lo hi` is
-- `std::clamp`; `truncate` is the conversion to an integer type.
pub record Doubles : Type 1 where
  pub Double : Type 0
  pub literal : Bytes → Double
  pub of_int : ℤ → Double
  pub times : Double → Double → Double
  pub over : Double → Double → Double
  pub clamp : Double → Double → Double → Double
  pub is_zero : Double → Bool
  pub truncate : Double → ℤ
  pub lround : Double → ℤ
  pub sin : Double → Double
  pub cos : Double → Double
  pub atan2 : Double → Double → Double

pub record Point : Type 0 where
  pub x : ℤ
  pub y : ℤ

pub record Rect : Type 0 where
  pub left : ℤ
  pub top : ℤ
  pub right : ℤ
  pub bottom : ℤ

-- `SM_XVIRTUALSCREEN`, `SM_YVIRTUALSCREEN`, `SM_CXVIRTUALSCREEN` and `SM_CYVIRTUALSCREEN`.
pub record VirtualScreen : Type 0 where
  pub x : ℤ
  pub y : ℤ
  pub cx : ℤ
  pub cy : ℤ

-- The `MOUSEEVENTF_` flags; a list of them stands for their bitwise or.
pub data MouseFlag : Type 0 where
  move absolute virtual_desk left_down left_up wheel hwheel : MouseFlag

-- The `POINTER_FLAG_` flags.
pub data PenFlag : Type 0 where
  in_range in_contact down update up : PenFlag

-- One call of `SendInput`, or one of `InjectSyntheticPointerInput` with its pressure and tilt.
pub data Event : Type 0 where
  mouse : List MouseFlag → ℤ → ℤ → ℤ → Event
  pen : List PenFlag → Point → ℤ → ℤ → ℤ → Event

-- The answers of Windows, which may depend on all that was injected before: `GetSystemMetrics`, and
-- whether the pen device can be created and takes an event.
pub record Desktop : Type 0 where
  pub virtual_screen : List Event → VirtualScreen
  pub creates_device : List Event → Bool
  pub injects : List Event → Bool
