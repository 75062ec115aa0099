-- ===== src/Input/Injector/Tests.antt =====
-- src/input/InputInjector.cpp, with the integers as the doubles.
use ipad_second_display.Common.{◌≡◌, true, false, List, [], ◌∷◌, if◌then◌else◌}
use ipad_second_display.Common.Int.{ℤ, pos, ◌*ℤ◌, ltb_ℤ}
use ipad_second_display.Input.Injector.{Doubles, Desktop, new_injector, is_zero_ℤ, end_session}
use ipad_second_display.Net.Protocol.{began, pencil_down}
use ipad_second_display.Input.Injector.Effect.{effect, Tracks}
use ipad_second_display.Input.Injector.Session.{
  Call, touches, draws, run, run-new_injector-Tracks, end_session-released,
}

-- Doubles that are integers, with a literal read as 0.
abbrev integers : Doubles
integers = record {
  Double = ℤ;
  literal = λ text. pos 0;
  of_int = λ n. n;
  times = λ a b. a *ℤ b;
  over = λ a b. a;
  clamp = λ v low high. if ltb_ℤ v low then low else if ltb_ℤ high v then high else v;
  is_zero = is_zero_ℤ;
  truncate = λ v. v;
  lround = λ v. v;
  sin = λ v. v;
  cos = λ v. v;
  atan2 = λ a b. a;
}

abbrev desk : Desktop
desk = record {
  virtual_screen = λ events. record { x = pos 0; y = pos 0; cx = pos 1920; cy = pos 1080 };
  creates_device = λ events. true;
  injects = λ events. true;
}

-- A touch and a stroke that the link's end interrupts.
abbrev interrupted : List (Call ℤ)
interrupted =
    touches (record { phase = began; x = pos 0; y = pos 1 })
    ∷ draws (record {
      phase = pencil_down;
      x = pos 0;
      y = pos 0;
      pressure = pos 1;
      azimuth = pos 0;
      altitude = pos 0;
    })
    ∷ []

run-new_injector-Tracks_example : Tracks (run integers desk new_injector interrupted)
run-new_injector-Tracks_example = run-new_injector-Tracks integers desk interrupted

end_session-released_example :
    ((effect (end_session integers desk (run integers desk new_injector interrupted)).output).button
      ≡ false)
    × ((effect
          (end_session integers desk (run integers desk new_injector interrupted)).output).contact
        ≡ false)
    × ((effect
          (end_session integers desk (run integers desk new_injector interrupted)).output).range
        ≡ false)
end_session-released_example = end_session-released integers desk interrupted
