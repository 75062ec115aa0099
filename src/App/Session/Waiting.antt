-- ===== src/App/Session/Waiting.antt =====
-- `SenderApp::RunLoop` of src/app/SenderApp.cpp: the pause behind a failed attempt, and the one that
-- the status tells.
use ipad_second_display.Common.{
  ℕ, ◌<◌, arith, ◌≡◌, refl, inl, inr, Option, none, some, Bool, true, false, ◌&&◌, Bool-cases,
}
use ipad_second_display.App.Panel.{
  PanelState, Acquired, granted, refused, acquire_panel, normalize_panel_size,
}
use ipad_second_display.Net.Protocol.{hello_matches_expected_device}
use ipad_second_display.Net.Protocol.Messages.{HelloMsg}
use ipad_second_display.App.Session.{
  Sender, open_display_unavailable, reconnect_delay_ms, Setup, Pipeline, built, failed_with,
  Answers, Prepared, retry, returned, streams, with_pipeline, with_claim, with_size, with_hello,
  prepare, unblocked, publish_status, preparing_display, no_failure, drop_stale_display,
  start_connecting, waiting_hello, is_over,
}

abbrev pub lacks_hello : Option HelloMsg → Bool
lacks_hello none = true
lacks_hello (some m) = false

-- The attempt comes to the wait for the hello, and no hello comes.
abbrev pub no_hello : Answers → Bool
no_hello a = a.allowed && a.connected && lacks_hello a.hello

-- The pause of an attempt, by whether it ended with no hello: then the status tells of a pause of
-- `reconnect_delay_ms` and none is made. Else the pause is the one that the status tells of, and
-- not 0.
abbrev pub Pauses : Bool → Prepared → Type 0
Pauses true (retry s p) =
    (s.failure ≡ open_display_unavailable) × (s.retry_in_ms ≡ reconnect_delay_ms) × (s.slept ≡ 0)
Pauses true (returned s p) = ⊥
Pauses true (streams s p w h) = ⊥
Pauses false (retry s p) = (s.slept ≡ s.retry_in_ms) × (0 < s.retry_in_ms)
Pauses false (returned s p) = s.retry_in_ms ≡ 0
Pauses false (streams s p w h) = s.retry_in_ms ≡ 0

abbrev pub WaitsAsTold : Answers → Prepared → Type 0
WaitsAsTold a = Pauses (no_hello a)

with_pipeline-Pauses :
    (u : Setup) (s : Sender) (p : PanelState) (w h : ℕ) (pipeline : Pipeline)
    → Pauses false (with_pipeline u s p w h pipeline)
with_pipeline-Pauses u s p w h (built cw ch) = refl
with_pipeline-Pauses u s p w h (failed_with reason) = elim (Bool-cases u.managed) [
  | inl m ↦ simp m (refl, omega arith)
  | inr m ↦ simp m (refl, omega arith)
]

with_claim-Pauses :
    (u : Setup) (s : Sender) (w h : ℕ) (pipeline : Pipeline) (c : PanelState × Acquired)
    → Pauses false (with_claim u s w h pipeline c)
with_claim-Pauses u s w h pipeline (p, granted) =
    with_pipeline-Pauses u (unblocked s) p w h pipeline
with_claim-Pauses u s w h pipeline (p, refused aw ah) = (refl, omega arith)

with_size-Pauses :
    (u : Setup) (s : Sender) (p : PanelState) (pipeline : Pipeline) (size : Option (ℕ × ℕ))
    → Pauses false (with_size u s p pipeline size)
with_size-Pauses u s p pipeline none = (refl, omega arith)
with_size-Pauses u s p pipeline (some (w, h)) =
    let s' = publish_status s preparing_display no_failure 0 in
    elim (Bool-cases u.managed) [
      | inl m ↦ simp m (with_claim-Pauses u s' w h pipeline (acquire_panel p w h))
      | inr m ↦ simp m (with_pipeline-Pauses u (unblocked s') p w h pipeline)
    ]

with_hello-Pauses :
    (u : Setup) (p : PanelState) (a : Answers) (s : Sender) (hello : Option HelloMsg)
    → s.slept ≡ 0
    → Pauses (lacks_hello hello) (with_hello u a s p hello)
unfolding with_hello
with_hello-Pauses u p a s none k = (refl, refl, k)
with_hello-Pauses u p a s (some m) k =
    elim (Bool-cases (hello_matches_expected_device m u.expected_id)) [
      | inr other ↦ rw other refl
      | inl same ↦ elim (Bool-cases a.welcome_sent) [
        | inr unsent ↦ rw same (simp unsent (refl, omega arith))
        | inl sent ↦ rw same (
            simp sent (
              with_size-Pauses u (record s { device_id = m.id }) p a.pipeline
                (normalize_panel_size m.pixels_wide m.pixels_high)))
      ]
    ]

-- The first act of an attempt does not sleep.
drop_stale-slept : (u : Setup) (now : ℕ) (s : Sender) → (drop_stale_display u now s).slept ≡ s.slept
drop_stale-slept u now s = elim (Bool-cases (is_over now s.disconnected_since)) [
  | inl over ↦ elim (Bool-cases u.managed) [
    | inl m ↦ simp over (simp m refl)
    | inr m ↦ simp over (simp m refl)
  ]
  | inr early ↦ simp early refl
]

-- An attempt that gets no hello tells of 2000 ms until the next one and does not pause. Any other
-- failed attempt that is tried again pauses for the time that the status tells, which is not 0. A stream, or the
-- return at another device, tells of no retry.
pub prepare-WaitsAsTold :
    (u : Setup) (s : Sender) (p : PanelState) (a : Answers) → WaitsAsTold a (prepare u s p a)
unfolding prepare
prepare-WaitsAsTold u s p a =
    let s' = drop_stale_display u a.now (record s { slept = 0 }) in
    elim (Bool-cases a.allowed) [
      | inr unsafe ↦ simp unsafe (refl, omega arith)
      | inl allowed ↦ elim (Bool-cases a.connected) [
        | inr closed ↦ simp (allowed, closed) (refl, omega arith)
        | inl connected ↦ simp allowed (
            simp connected (
              with_hello-Pauses u p a
                (publish_status (start_connecting s') waiting_hello open_display_unavailable 0)
                a.hello (drop_stale-slept u a.now (record s { slept = 0 }))))
      ]
    ]
