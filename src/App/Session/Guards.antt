-- ===== src/App/Session/Guards.antt =====
-- `SenderApp::RunLoop` of src/app/SenderApp.cpp: what is checked before a stream.
use ipad_second_display.Common.{
  ℕ, ◌≡◌, refl, inl, inr, true, Option, none, some, Bool-cases, if◌then◌else◌,
}
use ipad_second_display.App.Panel.{
  PanelState, Acquired, granted, refused, acquire_panel, normalize_panel_size,
}
use ipad_second_display.Net.Protocol.{hello_matches_expected_device}
use ipad_second_display.Net.Protocol.Messages.{HelloMsg}
use ipad_second_display.App.Session.{
  Sender, Setup, Pipeline, built, failed_with, Answers, Prepared, retry, returned, streams,
  with_pipeline, with_claim, with_size, with_hello, prepare, unblocked, publish_status,
  preparing_display, no_failure, start_connecting, drop_stale_display, waiting_hello,
  open_display_unavailable,
}

-- The receiver's first hello is the expected device's, and its panel has this size.
abbrev pub IsWelcome : Setup → Option HelloMsg → ℕ → ℕ → Type 0
IsWelcome u none w h = ⊥
IsWelcome u (some m) w h =
    (hello_matches_expected_device m u.expected_id ≡ true)
    × (normalize_panel_size m.pixels_wide m.pixels_high ≡ some (w, h))

-- The claim on the shared panel is granted for this size; a display of its own needs none.
abbrev pub HasClaim : Setup → PanelState → PanelState → ℕ → ℕ → Type 0
HasClaim u p p' w h = if u.managed then acquire_panel p w h ≡ (p', granted) else p' ≡ p

abbrev pub StreamsSafely : Setup → PanelState → Answers → Prepared → Type 0
StreamsSafely u p a (retry s p') = Unit
StreamsSafely u p a (returned s p') = Unit
StreamsSafely u p a (streams s p' w h) =
    (a.allowed ≡ true)
    × (a.connected ≡ true)
    × (a.welcome_sent ≡ true)
    × IsWelcome u a.hello w h
    × HasClaim u p p' w h

-- What the last stages add.
abbrev Sized : Setup → PanelState → Option (ℕ × ℕ) → Prepared → Type 0
Sized u p size (retry s p') = Unit
Sized u p size (returned s p') = Unit
Sized u p size (streams s p' w h) = (size ≡ some (w, h)) × HasClaim u p p' w h

with_pipeline-Sized :
    (u : Setup) (s : Sender) (p p' : PanelState) (w h : ℕ) (pipeline : Pipeline)
    → HasClaim u p p' w h
    → Sized u p (some (w, h)) (with_pipeline u s p' w h pipeline)
with_pipeline-Sized u s p p' w h (built cw ch) k = (refl, k)
with_pipeline-Sized u s p p' w h (failed_with reason) k = tt

with_claim-Sized :
    (u : Setup) (s : Sender) (p : PanelState) (w h : ℕ) (pipeline : Pipeline)
    (c : PanelState × Acquired)
    → acquire_panel p w h ≡ c
    → u.managed ≡ true
    → Sized u p (some (w, h)) (with_claim u s w h pipeline c)
with_claim-Sized u s p w h pipeline (p', granted) e m =
    with_pipeline-Sized u (unblocked s) p p' w h pipeline (simp m e)
with_claim-Sized u s p w h pipeline (p', refused aw ah) e m = tt

with_size-Sized :
    (u : Setup) (s : Sender) (p : PanelState) (pipeline : Pipeline) (size : Option (ℕ × ℕ))
    → Sized u p size (with_size u s p pipeline size)
with_size-Sized u s p pipeline none = tt
with_size-Sized u s p pipeline (some (w, h)) = elim (Bool-cases u.managed) [
  | inl m ↦ simp m (
      with_claim-Sized u (publish_status s preparing_display no_failure 0) p w h pipeline
        (acquire_panel p w h) refl m)
  | inr m ↦ simp m (
      with_pipeline-Sized u (unblocked (publish_status s preparing_display no_failure 0)) p p w h
        pipeline (simp m refl))
]

-- The size is that of a matching hello.
Sized-StreamsSafely :
    (u : Setup) (p : PanelState) (a : Answers) (m : HelloMsg) (r : Prepared)
    → a.allowed ≡ true
    → a.connected ≡ true
    → a.welcome_sent ≡ true
    → a.hello ≡ some m
    → hello_matches_expected_device m u.expected_id ≡ true
    → Sized u p (normalize_panel_size m.pixels_wide m.pixels_high) r
    → StreamsSafely u p a r
Sized-StreamsSafely u p a m (retry s p') h k l e i z = tt
Sized-StreamsSafely u p a m (returned s p') h k l e i z = tt
Sized-StreamsSafely u p a m (streams s p' w v) h k l e i z = (h, k, l, simp e (i, z.0), z.1)

with_hello-StreamsSafely :
    (u : Setup) (p : PanelState) (a : Answers) (s : Sender) (hello : Option HelloMsg)
    → a.allowed ≡ true
    → a.connected ≡ true
    → a.hello ≡ hello
    → StreamsSafely u p a (with_hello u a s p hello)
unfolding with_hello
with_hello-StreamsSafely u p a s none h k e = tt
with_hello-StreamsSafely u p a s (some m) h k e =
    elim (Bool-cases (hello_matches_expected_device m u.expected_id)) [
      | inr other ↦ rw other tt
      | inl same ↦ elim (Bool-cases a.welcome_sent) [
        | inr unsent ↦ rw same (simp unsent tt)
        | inl sent ↦ rw same (
            simp sent (
              Sized-StreamsSafely u p a m _ h k sent e same (
                with_size-Sized u (record s { device_id = m.id }) p a.pipeline
                  (normalize_panel_size m.pixels_wide m.pixels_high))))
      ]
    ]

-- A stream runs only after every guard has passed: the network policy allows the target, the connection is open, the first hello comes from the expected device and has a valid panel size, the welcome is sent, and a managed display has the claim on the shared panel for exactly that size.
pub prepare-StreamsSafely :
    (u : Setup) (s : Sender) (p : PanelState) (a : Answers) → StreamsSafely u p a (prepare u s p a)
unfolding prepare
prepare-StreamsSafely u s p a = elim (Bool-cases a.allowed) [
  | inr unsafe ↦ simp unsafe tt
  | inl allowed ↦ elim (Bool-cases a.connected) [
    | inr closed ↦ simp allowed (simp closed tt)
    | inl connected ↦ simp allowed (
        simp connected (
          with_hello-StreamsSafely u p a
            (publish_status (start_connecting (drop_stale_display u a.now (record s { slept = 0 })))
              waiting_hello open_display_unavailable 0)
            a.hello allowed connected refl))
  ]
]
