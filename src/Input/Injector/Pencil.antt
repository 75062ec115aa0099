-- ===== src/Input/Injector/Pencil.antt =====
-- The handlers of src/input/InputInjector.cpp for the pencil, and what Windows was told.
use ipad_second_display.Common.{
  ◌≡◌, ◌∙◌, sym, refl, Bool, true, false, Bool-cases, inl, inr, [], ◌∷◌, arith,
}
use ipad_second_display.Input.Injector.{
  Doubles, Point, in_range, in_contact, down, update, Desktop, InputInjector, ensure_pen_device,
  inject_pen, release_pen_if_down, pencil_at, handle_pencil_on, leave_range, end_pen, screen_point,
  same, proximity_on,
}
use ipad_second_display.Net.Protocol.{
  PencilPhase, hover, pencil_down, pencil_move, pencil_up, unknown_pencil, PencilMsg, ProximityMsg,
}
use ipad_second_display.Input.Injector.Effect.{
  Tracks, pen-Tracks, release_pen_if_down-Tracks, release_pen_if_down_lem, leave_range-Tracks,
}

module _ (f : Doubles) (desktop : Desktop) where
  pencil_at-Tracks :
      (s : InputInjector) (phase : PencilPhase) (m : PencilMsg f.Double) (pt : Point)
      → s.pen_device ≡ true
      → Tracks s
      → Tracks (pencil_at f desktop s phase m pt)
  unfolding pencil_at inject_pen
  pencil_at-Tracks s hover m pt d t =
      let released = release_pen_if_down_lem f desktop s pt in
      pen-Tracks f desktop (release_pen_if_down f desktop s pt) (in_range ∷ update ∷ []) pt _ _ _
        (release_pen_if_down f desktop s pt).pen_down true (sym released.0) refl (λ h. refl)
        (released.1 ∙ d) (release_pen_if_down-Tracks f desktop s pt t)
  pencil_at-Tracks s pencil_down m pt d t =
      pen-Tracks f desktop s (in_range ∷ in_contact ∷ down ∷ []) pt _ _ _ true true refl refl
        (λ h. refl) d t
  pencil_at-Tracks s pencil_move m pt d t = elim (Bool-cases s.pen_down) [
    | inl touching ↦ simp touching (
        pen-Tracks f desktop s (in_range ∷ in_contact ∷ update ∷ []) pt _ _ _ true true refl refl
          (λ h. refl) d t)
    | inr lifted ↦ simp lifted (
        pen-Tracks f desktop s (in_range ∷ update ∷ []) pt _ _ _ false true refl refl (λ h. refl) d
          t)
  ]
  pencil_at-Tracks s pencil_up m pt d t = release_pen_if_down-Tracks f desktop s pt t
  pencil_at-Tracks s unknown_pencil m pt d t = t

  -- Whether there is a device changes nothing that Windows was told.
  device-Tracks :
      (s : InputInjector) (failed : Bool)
      → Tracks s
      → Tracks (record s { pen_device = true; pen_device_failed = failed })
  device-Tracks s failed t = record {
    button = t.button;
    contact = t.contact;
    range = t.range;
    nested = t.nested;
    device = λ h. refl;
  }

  pub ensure_pen_device-Tracks :
      (s : InputInjector)
      → Tracks s
      → Tracks (ensure_pen_device f desktop s).0
        × ((ensure_pen_device f desktop s).1 ≡ true
            → (ensure_pen_device f desktop s).0.pen_device ≡ true)
  unfolding ensure_pen_device
  ensure_pen_device-Tracks s t = elim (Bool-cases s.pen_device) [
    | inl there ↦ simp there (t, λ h. refl)
    | inr missing ↦ elim (Bool-cases s.pen_device_failed) [
      | inl failed ↦ simp (missing, failed) (t, λ h. cc)
      | inr fresh ↦ elim (Bool-cases (desktop.creates_device s.output)) [
        | inl made ↦ simp (missing, fresh, made) (device-Tracks s false t, λ h. refl)
        | inr refused ↦
            simp (missing, fresh, refused)
              (
                record {
                  button = t.button;
                  contact = t.contact;
                  range = t.range;
                  nested = t.nested;
                  device = λ h. ground (arith, t.device h, missing);
                },
                λ h. cc,
              )
      ]
    ]
  ]

  pub handle_pencil_on-Tracks :
      (r : InputInjector × Bool) (m : PencilMsg f.Double)
      → Tracks r.0
      → (r.1 ≡ true → r.0.pen_device ≡ true)
      → Tracks (handle_pencil_on f desktop r m)
  unfolding handle_pencil_on
  handle_pencil_on-Tracks (s, false) m t d = t
  handle_pencil_on-Tracks (s, true) m t d = pencil_at-Tracks s m.phase m _ (d refl) t

  pub proximity_on-Tracks :
      (r : InputInjector × Bool) (m : ProximityMsg f.Double)
      → Tracks r.0
      → (r.1 ≡ true → r.0.pen_device ≡ true)
      → Tracks (proximity_on f desktop r m)
  unfolding proximity_on inject_pen
  proximity_on-Tracks (s, false) m t d = t
  proximity_on-Tracks (s, true) m t d =
      let pt = screen_point f desktop s m.x m.y in
      let released = release_pen_if_down_lem f desktop s pt in
      elim (Bool-cases (same m.entering s.pen_in_range)) [
        | inl nothing_new ↦ simp nothing_new t
        | inr differs ↦ elim (Bool-cases m.entering) [
          | inl enters ↦
              let lifted : s.pen_down ≡ false = ground (arith, t.nested, differs, enters) in
              let away : s.pen_in_range ≡ false = ground (arith, differs, enters) in
              simp (enters, away)
                (pen-Tracks f desktop s (in_range ∷ update ∷ []) pt _ _ _ s.pen_down true
                  (sym lifted) refl (λ h. refl) (d refl) t)
          | inr leaves ↦
              let near : s.pen_in_range ≡ true = ground (arith, differs, leaves) in
              simp (leaves, near)
                (leave_range-Tracks f desktop (release_pen_if_down f desktop s pt) pt released.0
                  (released.1 ∙ d refl) (release_pen_if_down-Tracks f desktop s pt t))
        ]
      ]

  pub end_pen-Tracks :
      (s : InputInjector)
      → Tracks s
      → Tracks (end_pen f desktop s)
        × ((end_pen f desktop s).pen_down ≡ false)
        × ((end_pen f desktop s).pen_in_range ≡ false)
        × ((end_pen f desktop s).is_down ≡ s.is_down)
  unfolding end_pen leave_range inject_pen
  end_pen-Tracks s t =
      let r = release_pen_if_down f desktop s s.last_pen_point in
      let released = release_pen_if_down_lem f desktop s s.last_pen_point in
      let rt = release_pen_if_down-Tracks f desktop s s.last_pen_point t in
      elim (Bool-cases s.pen_device) [
        | inr missing ↦ simp missing (
          t,
          ground (arith, t.nested, t.device, missing),
          ground (arith, t.device, missing),
          refl,
        )
        | inl there ↦ elim (Bool-cases r.pen_in_range) [
          | inr gone ↦ simp (there, gone) (rt, released.0, refl, released.3)
          | inl near ↦
              simp (there, near)
                (
                  leave_range-Tracks f desktop r r.last_pen_point released.0 (released.1 ∙ there)
                      rt,
                  released.0,
                  refl,
                  released.3,
                )
        ]
      ]
