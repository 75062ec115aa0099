-- ===== src/App/Session/Attempt.antt =====
-- `SenderApp::RunLoop` of src/app/SenderApp.cpp: what an attempt leaves of the picture, the guard and
-- the claim on the panel.
use ipad_second_display.Common.{
  ℕ, suc, ◌≡◌, refl, ◌∙◌, ap, ◌⊎◌, inl, inr, true, Option, none, some, Bool-cases, if◌then◌else◌,
  arith,
}
use ipad_second_display.App.Panel.{
  PanelState, Acquired, granted, refused, acquire_panel, release_panel, normalize_panel_size,
}
use ipad_second_display.Net.Protocol.{hello_matches_expected_device}
use ipad_second_display.Net.Protocol.Messages.{HelloMsg}
use ipad_second_display.App.Session.{
  Sender, SenderState, ConnectionPhase, Setup, Pipeline, built, failed_with, Answers, Prepared,
  retry, returned, streams, with_pipeline, with_claim, with_size, with_hello, prepare, unblocked,
  publish_status, start_connecting, drop_stale_display, detach_managed_display, waiting_hello,
  open_display_unavailable, preparing_display, no_failure, device_identity_mismatch, is_over,
  is_blocked,
}
use ipad_second_display.App.Session.Stream.{release_claim}

-- Between two streams: no picture, and the guard is held.
abbrev pub IsWaiting : Sender → Type 0
IsWaiting s = (s.width ≡ 0) × (s.height ≡ 0) × (s.guard ≡ true)

-- The return at another device's hello: failed, but neither idle nor without the guard.
abbrev pub IsMismatched : Sender → Type 0
IsMismatched s =
    (s.phase ≡ ConnectionPhase.failed)
    × (s.failure ≡ device_identity_mismatch)
    × (s.guard ≡ true)
    × ((s.state ≡ SenderState.connecting) ⊎ (s.state ≡ SenderState.blocked))

abbrev pub Claimed : Setup → ℕ → PanelState → Type 0
Claimed u n p = p.holders ≡ (if u.managed then suc n else n)

-- What an attempt keeps, `n` being the senders that hold the panel before it.
abbrev pub Keeps : Setup → ℕ → Prepared → Type 0
Keeps u n (retry s p) = IsWaiting s × (p.holders ≡ n)
Keeps u n (returned s p) = IsMismatched s × (p.holders ≡ n)
Keeps u n (streams s p w h) = (s.guard ≡ true) × Claimed u n p

pub release-holders : (n : ℕ) (p : PanelState) → p.holders ≡ suc n → (release_panel p).holders ≡ n
unfolding release_panel
release-holders n p h = ground (arith, h)

pub release_claim-holders :
    (u : Setup) (n : ℕ) (p : PanelState) → Claimed u n p → (release_claim u p).holders ≡ n
release_claim-holders u n p h = elim (Bool-cases u.managed) [
  | inl m ↦ simp m (release-holders n p (h ∙ ap (λ b. if b then suc n else n) m))
  | inr m ↦ simp m (h ∙ ap (λ b. if b then suc n else n) m)
]

pub detach-IsWaiting :
    (u : Setup) (s : Sender) → IsWaiting s → IsWaiting (detach_managed_display u s)
detach-IsWaiting u s h = elim (Bool-cases u.managed) [ inl m ↦ simp m h | inr m ↦ simp m h ]

pub acquire-granted :
    (p p' : PanelState) (w h : ℕ) → acquire_panel p w h ≡ (p', granted) → p'.holders ≡ suc p.holders
unfolding acquire_panel
acquire-granted p p' w h e = ground (arith, e)

pub acquire-refused :
    (p p' : PanelState) (w h aw ah : ℕ)
    → acquire_panel p w h ≡ (p', refused aw ah)
    → p'.holders ≡ p.holders
unfolding acquire_panel
acquire-refused p p' w h aw ah e = ground (arith, e)

pub with_pipeline-Keeps :
    (u : Setup) (n : ℕ) (s : Sender) (p : PanelState) (w h : ℕ) (pipeline : Pipeline)
    → IsWaiting s
    → Claimed u n p
    → Keeps u n (with_pipeline u s p w h pipeline)
with_pipeline-Keeps u n s p w h (built cw ch) k c = (k.2, c)
with_pipeline-Keeps u n s p w h (failed_with reason) k c = (
  detach-IsWaiting u (publish_status s ConnectionPhase.failed reason 2000) k,
  release_claim-holders u n p c,
)

pub with_claim-Keeps :
    (u : Setup) (s : Sender) (p : PanelState) (w h : ℕ) (pipeline : Pipeline)
    (c : PanelState × Acquired)
    → acquire_panel p w h ≡ c
    → u.managed ≡ true
    → IsWaiting s
    → Keeps u p.holders (with_claim u s w h pipeline c)
with_claim-Keeps u s p w h pipeline (p', granted) e m k =
    with_pipeline-Keeps u p.holders (unblocked s) p' w h pipeline k
      (simp m (acquire-granted p p' w h e))
with_claim-Keeps u s p w h pipeline (p', refused aw ah) e m k =
    (k, acquire-refused p p' w h aw ah e)

pub with_size-Keeps :
    (u : Setup) (s : Sender) (p : PanelState) (pipeline : Pipeline) (size : Option (ℕ × ℕ))
    → IsWaiting s
    → Keeps u p.holders (with_size u s p pipeline size)
with_size-Keeps u s p pipeline none k = (k, refl)
with_size-Keeps u s p pipeline (some (w, h)) k =
    let s' = publish_status s preparing_display no_failure 0 in
    elim (Bool-cases u.managed) [
      | inl m ↦ simp m (with_claim-Keeps u s' p w h pipeline (acquire_panel p w h) refl m k)
      | inr m ↦
          simp m (with_pipeline-Keeps u p.holders (unblocked s') p w h pipeline k (simp m refl))
    ]

pub with_hello-Keeps :
    (u : Setup) (p : PanelState) (a : Answers) (s : Sender) (hello : Option HelloMsg)
    → IsWaiting s
    → (s.state ≡ SenderState.connecting) ⊎ (s.state ≡ SenderState.blocked)
    → Keeps u p.holders (with_hello u a s p hello)
unfolding with_hello
with_hello-Keeps u p a s none k l = (k, refl)
with_hello-Keeps u p a s (some m) k l =
    elim (Bool-cases (hello_matches_expected_device m u.expected_id)) [
      | inr other ↦ rw other ((refl, refl, k.2, l), refl)
      | inl same ↦ elim (Bool-cases a.welcome_sent) [
        | inr unsent ↦ rw same (simp unsent (k, refl))
        | inl sent ↦ rw same (
            simp sent (
              with_size-Keeps u (record s { device_id = m.id }) p a.pipeline
                (normalize_panel_size m.pixels_wide m.pixels_high) k))
      ]
    ]

pub drop_stale-IsWaiting :
    (u : Setup) (now : ℕ) (s : Sender) → IsWaiting s → IsWaiting (drop_stale_display u now s)
drop_stale-IsWaiting u now s h = elim (Bool-cases (is_over now s.disconnected_since)) [
  | inl over ↦ simp over (detach-IsWaiting u s h)
  | inr early ↦ simp early h
]

pub connecting-state :
    (t : SenderState)
    → ((if is_blocked t then t else SenderState.connecting) ≡ SenderState.connecting)
      ⊎ ((if is_blocked t then t else SenderState.connecting) ≡ SenderState.blocked)
connecting-state SenderState.idle = inl refl
connecting-state SenderState.connecting = inl refl
connecting-state SenderState.streaming = inl refl
connecting-state SenderState.blocked = inr refl
connecting-state SenderState.unsafe_network = inl refl

pub prepare-Keeps :
    (u : Setup) (s : Sender) (p : PanelState) (a : Answers)
    → IsWaiting s
    → Keeps u p.holders (prepare u s p a)
unfolding prepare
prepare-Keeps u s p a k =
    let s' = drop_stale_display u a.now (record s { slept = 0 }) in
    let k' : IsWaiting s' = drop_stale-IsWaiting u a.now (record s { slept = 0 }) k in
    elim (Bool-cases a.allowed) [
      | inr unsafe ↦ simp unsafe (k', refl)
      | inl allowed ↦ elim (Bool-cases a.connected) [
        | inr closed ↦ simp allowed (simp closed (k', refl))
        | inl connected ↦ simp allowed (
            simp connected (
              with_hello-Keeps u p a
                (publish_status (start_connecting s') waiting_hello open_display_unavailable 0)
                a.hello k' (connecting-state s'.state)))
      ]
    ]
