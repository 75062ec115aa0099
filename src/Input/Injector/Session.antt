-- ===== src/Input/Injector/Session.antt =====
-- Whole sessions of input through src/input/InputInjector.cpp.
use ipad_second_display.Common.{codes, ◌≡◌, ◌∙◌, refl, false, Bool-cases, inl, inr, List, [], ◌∷◌}
use ipad_second_display.Common.Int.{pos}
use ipad_second_display.Input.Injector.{
  Doubles, Rect, MouseFlag, left_up, wheel, hwheel, Desktop, InputInjector, new_injector,
  set_monitor_rect, send_mouse_input, handle_touch, scroll_axis, handle_scroll, handle_pencil,
  end_session, is_zero_ℤ, handle_proximity,
}
use ipad_second_display.Net.Protocol.{TouchMsg, ScrollMsg, PencilMsg, ProximityMsg}
use ipad_second_display.Input.Injector.Effect.{
  effect, effect_from, has_left_down, has_left_up, Tracks, mouse-Tracks, touch_at-Tracks,
}
use ipad_second_display.Input.Injector.Pencil.{
  ensure_pen_device-Tracks, handle_pencil_on-Tracks, proximity_on-Tracks, end_pen-Tracks,
}

-- A call from outside, with its message.
pub data Call (D : Type 0) : Type 0 where
  touches : TouchMsg D → Call D
  scrolls : ScrollMsg D → Call D
  draws : PencilMsg D → Call D
  nears : ProximityMsg D → Call D
  places : Rect → Call D
  ends : Call D

module _ (f : Doubles) (desktop : Desktop) where
  pub call : InputInjector → Call f.Double → InputInjector
  call s (touches m) = handle_touch f desktop s m
  call s (scrolls m) = handle_scroll f desktop s m
  call s (draws m) = handle_pencil f desktop s m
  call s (nears m) = handle_proximity f desktop s m
  call s (places rect) = set_monitor_rect s rect
  call s ends = end_session f desktop s

  pub run : InputInjector → List (Call f.Double) → InputInjector
  run s [] = s
  run s (c ∷ calls) = run (call s c) calls

  scroll_axis-Tracks :
      (s : InputInjector) (flag : MouseFlag) (d : f.Double)
      → has_left_down (flag ∷ []) ≡ false
      → has_left_up (flag ∷ []) ≡ false
      → Tracks s
      → Tracks (scroll_axis f desktop s flag d)
  unfolding scroll_axis send_mouse_input
  scroll_axis-Tracks s flag d no_press no_release t =
      let delta = f.truncate (
        f.times
          (f.over (f.clamp d (f.literal (codes "-10000.0")) (f.literal (codes "10000.0")))
            (f.literal (codes "100.0")))
          (f.of_int (pos 120))) in
      elim (Bool-cases (f.is_zero d)) [
        | inl still ↦ simp still t
        | inr turns ↦ elim (Bool-cases (is_zero_ℤ delta)) [
          | inl small ↦ simp (turns, small) t
          | inr large ↦
              simp (turns, large)
                (mouse-Tracks s (flag ∷ []) (pos 0) (pos 0) delta s.is_down
                  (rw (no_press, no_release) refl) t)
        ]
      ]

  end_session-Tracks :
      (s : InputInjector)
      → Tracks s
      → Tracks (end_session f desktop s)
        × ((end_session f desktop s).pen_down ≡ false)
        × ((end_session f desktop s).pen_in_range ≡ false)
        × ((end_session f desktop s).is_down ≡ false)
  unfolding end_session send_mouse_input
  end_session-Tracks s t = elim (Bool-cases s.is_down) [
    | inl held ↦
        let let_go = mouse-Tracks s (left_up ∷ []) (pos 0) (pos 0) (pos 0) false refl t in
        simp held (end_pen-Tracks f desktop _ let_go)
    | inr free ↦ let e = end_pen-Tracks f desktop s t in simp free (e.0, e.1, e.2, e.3 ∙ free)
  ]

  call-Tracks : (s : InputInjector) (c : Call f.Double) → Tracks s → Tracks (call s c)
  unfolding call handle_touch handle_scroll handle_pencil handle_proximity set_monitor_rect
  call-Tracks s (touches m) t = touch_at-Tracks f desktop s m.phase _ _ t
  call-Tracks s (scrolls m) t =
      scroll_axis-Tracks _ hwheel m.dx refl refl (scroll_axis-Tracks s wheel m.dy refl refl t)
  call-Tracks s (draws m) t =
      let ready = ensure_pen_device-Tracks f desktop s t in
      handle_pencil_on-Tracks f desktop _ m ready.0 ready.1
  call-Tracks s (nears m) t =
      let ready = ensure_pen_device-Tracks f desktop s t in
      proximity_on-Tracks f desktop _ m ready.0 ready.1
  call-Tracks s (places rect) t = record {
    button = t.button;
    contact = t.contact;
    range = t.range;
    nested = t.nested;
    device = t.device;
  }
  call-Tracks s ends t = (end_session-Tracks s t).0

  run-Tracks : (calls : List (Call f.Double)) (s : InputInjector) → Tracks s → Tracks (run s calls)
  unfolding run
  run-Tracks [] s t = t
  run-Tracks (c ∷ calls) s t = run-Tracks calls (call s c) (call-Tracks s c t)

  -- After any sequence of messages, the fields for the mouse button and the pen agree with what the
  -- injected events tell Windows; a pen in contact is in range, and one in range has its device.
  pub run-new_injector-Tracks : (calls : List (Call f.Double)) → Tracks (run new_injector calls)
  unfolding effect_from
  run-new_injector-Tracks calls =
      run-Tracks calls new_injector
        (record { button = refl; contact = refl; range = refl; nested = λ h. cc; device = λ h. cc })

  -- However a session went, the events up to its end leave the mouse button up and the pen away
  -- from the screen.
  pub end_session-released :
      (calls : List (Call f.Double))
      → let told = effect (end_session f desktop (run new_injector calls)).output in
        (told.button ≡ false) × (told.contact ≡ false) × (told.range ≡ false)
  end_session-released calls =
      let e = end_session-Tracks (run new_injector calls) (run-new_injector-Tracks calls) in
      (e.0.button ∙ e.3, e.0.contact ∙ e.1, e.0.range ∙ e.2)
