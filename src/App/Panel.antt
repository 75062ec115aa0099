-- ===== src/App/Panel.antt =====
-- src/app/SenderApp.cpp, lines 42 to 130: the one panel size that the senders share.
-- Each function runs under the panel's mutex, so a run of the program is a sequence of calls.
pub mod Sharing
pub mod Size
mod Tests
use ipad_second_display.Common.{
  ℕ, ◌+◌, ◌-◌, ◌*◌, ◌%◌, Bool, true, false, ◌&&◌, ◌||◌, not, Option, none, some, ◌==◌, ltb, leb,
  if◌then◌else◌,
}
use ipad_second_display.Common.Int.{ℤ, pos, negsuc}

pub record PanelState : Type 0 where
  pub width : ℕ
  pub height : ℕ
  pub holders : ℕ

abbrev pub free_panel : PanelState
free_panel = record { width = 0; height = 0; holders = 0 }

-- `refused` carries `activeW` and `activeH`.
pub data Acquired : Type 0 where
  granted : Acquired
  refused : ℕ → ℕ → Acquired

unfoldable pub acquire_panel : PanelState → ℕ → ℕ → PanelState × Acquired
acquire_panel p w h =
    if ltb 0 p.holders && (not (p.width == w) || not (p.height == h))
    then (p, refused p.width p.height)
    else (record p { width = w; height = h; holders = p.holders + 1 }, granted)

-- `holders` is an int that the code puts back to 0 where it would fall below; ℕ stops there.
unfoldable pub release_panel : PanelState → PanelState
release_panel p =
    if leb (p.holders - 1) 0
    then record p { width = 0; height = 0; holders = 0 }
    else record p { holders = p.holders - 1 }

unfoldable pub retune_panel : PanelState → ℕ → ℕ → PanelState × Bool
retune_panel p w h =
    if ltb 1 p.holders then (p, false) else (record p { width = w; height = h }, true)

abbrev pub min_axis : ℕ
min_axis = 320

abbrev pub max_axis : ℕ
max_axis = 8192

abbrev pub max_pixels : ℕ
max_pixels = 8192 * 4096

-- `x & ~1u`.
abbrev pub even_part : ℕ → ℕ
even_part x = x - x % 2

normalize_positive : ℕ → ℕ → Option (ℕ × ℕ)
normalize_positive w h =
    if ltb w min_axis
      || ltb max_axis w
      || ltb h min_axis
      || ltb max_axis h
      || ltb max_pixels (w * h)
    then none
    else if leb 2 (even_part w) && leb 2 (even_part h)
    then some (even_part w, even_part h)
    else none

-- A negative axis is below `kMinAxis`.
pub normalize_panel_size : ℤ → ℤ → Option (ℕ × ℕ)
unfolding normalize_positive
normalize_panel_size (pos w) (pos h) = normalize_positive w h
normalize_panel_size (pos w) (negsuc h) = none
normalize_panel_size (negsuc w) h = none
