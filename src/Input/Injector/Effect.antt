-- ===== src/Input/Injector/Effect.antt =====
-- What Windows is told by the events of src/input/InputInjector.cpp.
use ipad_second_display.Common.{
  ◌≡◌, ◌∙◌, sym, refl, ap, Bool, true, false, Bool-cases, inl, inr, List, [], ◌∷◌, ◌++◌,
  if◌then◌else◌, arith,
}
use ipad_second_display.Common.Int.{ℤ, pos}
use ipad_second_display.Input.Injector.{
  Doubles, Point, MouseFlag, move, absolute, virtual_desk, left_down, left_up, PenFlag, in_range,
  in_contact, update, up, Event, mouse, pen, Desktop, InputInjector, send_mouse_input, touch_end,
  touch_at, inject_pen, release_pen_if_down, leave_range,
}
use ipad_second_display.Net.Protocol.{TouchPhase, began, moved, ended, cancelled, unknown_touch}

-- The mouse button as Windows has it, and the pen: touching, and in hover range.
pub record Effect : Type 0 where
  pub button : Bool
  pub contact : Bool
  pub range : Bool

abbrev pub has_left_down : List MouseFlag → Bool
has_left_down [] = false
has_left_down (left_down ∷ flags) = true
has_left_down (_ ∷ flags) = has_left_down flags

abbrev pub has_left_up : List MouseFlag → Bool
has_left_up [] = false
has_left_up (left_up ∷ flags) = true
has_left_up (_ ∷ flags) = has_left_up flags

abbrev pub has_contact : List PenFlag → Bool
has_contact [] = false
has_contact (in_contact ∷ flags) = true
has_contact (_ ∷ flags) = has_contact flags

abbrev pub has_range : List PenFlag → Bool
has_range [] = false
has_range (in_range ∷ flags) = true
has_range (_ ∷ flags) = has_range flags

-- A pen event states the pen's whole state; a mouse event changes the button by its flags.
abbrev pub after : Effect → Event → Effect
after e (mouse flags dx dy wheel_turn) = record e {
  button = if has_left_down flags then true else if has_left_up flags then false else e.button;
}
after e (pen flags pt pressure tilt_x tilt_y) = record e {
  contact = has_contact flags;
  range = has_range flags;
}

unfoldable pub effect_from : Effect → List Event → Effect
effect_from e [] = e
effect_from e (x ∷ xs) = effect_from (after e x) xs

abbrev pub effect : List Event → Effect
effect = effect_from (record { button = false; contact = false; range = false })

effect_from-concat :
    (e : Effect) (xs : List Event) (x : Event)
    → effect_from e (xs ++ x ∷ []) ≡ after (effect_from e xs) x
unfolding effect_from
effect_from-concat e [] x = refl
effect_from-concat e (y ∷ xs) x = effect_from-concat (after e y) xs x

-- The fields agree with what Windows was told; a pen in contact is in range, and one in range has
-- its device.
pub record Tracks (s : InputInjector) : Type 0 where
  pub button : (effect s.output).button ≡ s.is_down
  pub contact : (effect s.output).contact ≡ s.pen_down
  pub range : (effect s.output).range ≡ s.pen_in_range
  pub nested : s.pen_down ≡ true → s.pen_in_range ≡ true
  pub device : s.pen_in_range ≡ true → s.pen_device ≡ true

effect-send_mouse_input :
    (s : InputInjector) (flags : List MouseFlag) (dx dy turn : ℤ)
    → effect (send_mouse_input s flags dx dy turn).output
      ≡ after (effect s.output) (mouse flags dx dy turn)
unfolding send_mouse_input
effect-send_mouse_input s flags dx dy turn = effect_from-concat _ s.output (mouse flags dx dy turn)

-- A mouse event, with the button flag set to what the event makes of it.
pub mouse-Tracks :
    (s : InputInjector) (flags : List MouseFlag) (dx dy turn : ℤ) (b : Bool)
    → (if has_left_down flags then true else if has_left_up flags then false else s.is_down) ≡ b
    → Tracks s
    → Tracks (record (send_mouse_input s flags dx dy turn) { is_down = b })
unfolding send_mouse_input
mouse-Tracks s flags dx dy turn b e t =
    let told = effect-send_mouse_input s flags dx dy turn in
    record {
      button = ap (λ (w : Effect). w.button) told ∙ rw t.button e;
      contact = ap (λ (w : Effect). w.contact) told ∙ t.contact;
      range = ap (λ (w : Effect). w.range) told ∙ t.range;
      nested = t.nested;
      device = t.device;
    }

module _ (f : Doubles) (desktop : Desktop) where
  -- A pen event, with the two flags set to what it says.
  pub pen-Tracks :
      (s : InputInjector) (flags : List PenFlag) (pt : Point) (p a b : f.Double)
      (contact range : Bool)
      → has_contact flags ≡ contact
      → has_range flags ≡ range
      → (contact ≡ true → range ≡ true)
      → s.pen_device ≡ true
      → Tracks s
      → Tracks (record (inject_pen f desktop s flags pt p a b) {
        pen_down = contact;
        pen_in_range = range;
      })
  unfolding inject_pen
  pen-Tracks s flags pt p a b contact range c r n d t =
      let told = λ (x : Event).
        effect_from-concat (record { button = false; contact = false; range = false }) s.output x in
      record {
        button = ap (λ (w : Effect). w.button) (told _) ∙ t.button;
        contact = ap (λ (w : Effect). w.contact) (told _) ∙ c;
        range = ap (λ (w : Effect). w.range) (told _) ∙ r;
        nested = n;
        device = λ h. d;
      }

  touch_end-Tracks : (s : InputInjector) (x y : ℤ) → Tracks s → Tracks (touch_end f desktop s x y)
  unfolding touch_end send_mouse_input
  touch_end-Tracks s x y t =
      let there =
        mouse-Tracks s (move ∷ absolute ∷ virtual_desk ∷ []) x y (pos 0) s.is_down refl t in
      elim (Bool-cases s.is_down) [
        | inl held ↦
            rw held
              (mouse-Tracks _ (left_up ∷ absolute ∷ virtual_desk ∷ []) x y (pos 0) false refl there)
        | inr free ↦
            rw free (mouse-Tracks s (move ∷ absolute ∷ virtual_desk ∷ []) x y (pos 0) false free t)
      ]

  pub touch_at-Tracks :
      (s : InputInjector) (phase : TouchPhase) (x y : ℤ)
      → Tracks s
      → Tracks (touch_at f desktop s phase x y)
  unfolding touch_at send_mouse_input
  touch_at-Tracks s began x y t =
      mouse-Tracks _ (left_down ∷ absolute ∷ virtual_desk ∷ []) x y (pos 0) true refl
        (mouse-Tracks s (move ∷ absolute ∷ virtual_desk ∷ []) x y (pos 0) s.is_down refl t)
  touch_at-Tracks s moved x y t =
      mouse-Tracks s (move ∷ absolute ∷ virtual_desk ∷ []) x y (pos 0) s.is_down refl t
  touch_at-Tracks s ended x y t = touch_end-Tracks s x y t
  touch_at-Tracks s cancelled x y t = touch_end-Tracks s x y t
  touch_at-Tracks s unknown_touch x y t = t

  pub release_pen_if_down-Tracks :
      (s : InputInjector) (pt : Point) → Tracks s → Tracks (release_pen_if_down f desktop s pt)
  unfolding release_pen_if_down inject_pen
  release_pen_if_down-Tracks s pt t = elim (Bool-cases s.pen_down) [
    | inr lifted ↦ simp lifted t
    | inl touching ↦ rw touching (
        pen-Tracks s (in_range ∷ up ∷ []) pt _ _ _ false s.pen_in_range refl
          (ground (arith, t.nested, touching)) (λ e. ground (arith, e))
          (t.device (t.nested touching)) t)
  ]

  pub release_pen_if_down_lem :
      (s : InputInjector) (pt : Point)
      → ((release_pen_if_down f desktop s pt).pen_down ≡ false)
        × ((release_pen_if_down f desktop s pt).pen_device ≡ s.pen_device)
        × ((release_pen_if_down f desktop s pt).pen_in_range ≡ s.pen_in_range)
        × ((release_pen_if_down f desktop s pt).is_down ≡ s.is_down)
  unfolding release_pen_if_down inject_pen
  release_pen_if_down_lem s pt = elim (Bool-cases s.pen_down) [
    | inr lifted ↦ simp lifted (refl, refl, refl, refl)
    | inl touching ↦ rw touching (refl, refl, refl, refl)
  ]

  pub leave_range-Tracks :
      (s : InputInjector) (pt : Point)
      → s.pen_down ≡ false
      → s.pen_device ≡ true
      → Tracks s
      → Tracks (record (leave_range f desktop s pt) { pen_in_range = false })
  unfolding leave_range inject_pen
  leave_range-Tracks s pt lifted d t =
      pen-Tracks s (update ∷ []) pt _ _ _ s.pen_down false (sym lifted) refl
        (λ h. ground (arith, h, lifted)) d t
