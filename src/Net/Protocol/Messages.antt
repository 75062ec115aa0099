-- ===== src/Net/Protocol/Messages.antt =====
-- The messages of src/net/Protocol.h, and the conversions of `double`.
use ipad_second_display.Common.{ℕ, Bool, Option, Bytes}
use ipad_second_display.Common.Int.{ℤ}

-- The arithmetic and the texts of `double`: `from_chars` of a whole token, with a finite value;
-- `to_chars` in the general format with 17 digits, of a finite value.
pub record NumberText : Type 1 where
  pub Double : Type 0
  pub zero_double : Double
  pub upright : Double
  pub from_chars : Bytes → Option Double
  pub to_chars : Double → Option Bytes
  pub is_below : Double → ℤ → Bool
  pub is_above : Double → ℤ → Bool
  pub is_whole : Double → Bool
  pub to_int : Double → ℤ

pub data TouchPhase : Type 0 where
  began moved ended cancelled unknown_touch : TouchPhase

pub data PencilPhase : Type 0 where
  hover pencil_down pencil_move pencil_up unknown_pencil : PencilPhase

pub record TouchMsg (D : Type 0) : Type 0 where
  pub phase : TouchPhase
  pub x : D
  pub y : D

pub record ScrollMsg (D : Type 0) : Type 0 where
  pub dx : D
  pub dy : D

pub record PencilMsg (D : Type 0) : Type 0 where
  pub phase : PencilPhase
  pub x : D
  pub y : D
  pub pressure : D
  pub azimuth : D
  pub altitude : D

pub record ProximityMsg (D : Type 0) : Type 0 where
  pub entering : Bool
  pub x : D
  pub y : D

pub record HelloMsg : Type 0 where
  pub pixels_wide : ℤ
  pub pixels_high : ℤ
  pub scale : ℤ
  pub device : Bytes
  pub id : Bytes
  pub pv : ℤ

-- The message with the part that its type fills; the other parts keep their defaults.
pub data ControlMessage (D : Type 0) : Type 0 where
  hello : HelloMsg → ControlMessage D
  ping : Bytes → ControlMessage D
  touch : TouchMsg D → ControlMessage D
  scroll : ScrollMsg D → ControlMessage D
  pencil : PencilMsg D → ControlMessage D
  proximity : ProximityMsg D → ControlMessage D
  stats : Bytes → ControlMessage D
  kf sleeping closing unknown : ControlMessage D

pub record SenderPingStats (D : Type 0) : Type 0 where
  pub drops : Option ℕ
  pub enc_drops : Option ℕ
  pub net_drops : Option ℕ
  pub pending : Option ℕ
  pub inp50 : Option D
  pub inp95 : Option D
  pub cap_fps : Option D
