-- ===== src/App/Panel/Tests.antt =====
-- The shared panel of src/app/SenderApp.cpp with concrete sizes.
use ipad_second_display.Common.{map, ◌≡◌, ◌≤◌, ◌*◌, ◌↔◌, refl, List, [], ◌∷◌, none, some}
use ipad_second_display.Common.Int.{pos, negsuc}
use ipad_second_display.App.Panel.{
  acquire_panel, retune_panel, granted, normalize_panel_size, max_pixels,
}
use ipad_second_display.App.Panel.Size.{IsAxis, normalize_panel_size-IsAxis}
use ipad_second_display.App.Panel.Sharing.{
  Action, acquires, retunes, Claim, step, after_acquire, after_retune, change_at, run, initial,
  AllGranted, acquire_panel-granted,
}

abbrev some_actions : List Action
some_actions = acquires 2048 1536 ∷ acquires 2048 1536 ∷ retunes 0 1536 2048 ∷ []

rounds_down : normalize_panel_size (pos 2049) (pos 1537) ≡ some (2048, 1536)
unfolding normalize_panel_size
rounds_down = refl

refuses_negative : normalize_panel_size (pos 2048) (negsuc 0) ≡ none
unfolding normalize_panel_size
refuses_negative = refl

normalize_panel_size-IsAxis_example :
    IsAxis (pos 2049) 2048 × IsAxis (pos 1537) 1536 × (2048 * 1536 ≤ max_pixels)
unfolding normalize_panel_size
normalize_panel_size-IsAxis_example = normalize_panel_size-IsAxis (pos 2049) (pos 1537) refl

acquire_panel-granted_example :
    ((acquire_panel (run initial some_actions).panel 2048 1536).1 ≡ granted)
    ↔ AllGranted 2048 1536 (run initial some_actions).claims
acquire_panel-granted_example = acquire_panel-granted some_actions 2048 1536

-- A sender whose rotation is refused streams at a size that the panel has not.
refused_rotation : (run initial some_actions).panel.width ≡ 2048
unfolding run step acquire_panel retune_panel after_acquire after_retune
refused_rotation = refl

mixed_widths : map (λ (c : Claim). c.width) (run initial some_actions).claims ≡ 1536 ∷ 2048 ∷ []
unfolding run step acquire_panel retune_panel after_acquire after_retune change_at
mixed_widths = refl
