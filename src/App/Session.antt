-- ===== src/App/Session.antt =====
-- `SenderApp::RunLoop` of src/app/SenderApp.cpp: the attempts to connect, what they publish, and the
-- display, the panel claim and the connection guard that they hold. The connection, the receiver and
-- the displays enter as the answers that the loop gets from them; the frames of a stream are left out.
pub mod Stream
pub mod Guards
pub mod Attempt
pub mod Ending
pub mod Waiting
mod Tests
use ipad_second_display.Common.{
  ℕ, ◌+◌, ◌-◌, Bool, true, false, ◌&&◌, ◌||◌, not, List, [], ◌∷◌, Option, none, some, ◌==◌, leb,
  if◌then◌else◌, Bytes,
}
use ipad_second_display.App.Panel.{
  PanelState, Acquired, granted, refused, acquire_panel, release_panel, retune_panel,
  normalize_panel_size,
}
use ipad_second_display.Net.Protocol.{hello_matches_expected_device}
use ipad_second_display.Net.Protocol.Messages.{HelloMsg}

pub data SenderState : Type 0 where
  idle connecting streaming blocked unsafe_network : SenderState

pub data ConnectionPhase : Type 0 where
  idle connecting waiting_hello preparing_display streaming reconnecting sleeping blocked
        unsafe_network failed :
      ConnectionPhase

pub data FailureReason : Type 0 where
  no_failure receiver_unavailable open_display_unavailable usb_unavailable network_unsafe
        driver_unavailable :
      FailureReason
  resolution_unavailable capture_unavailable encoder_unavailable invalid_panel protocol_error :
      FailureReason
  device_identity_mismatch another_sender transport_error : FailureReason

abbrev pub reconnect_delay_ms : ℕ
reconnect_delay_ms = 2000

abbrev pub blocked_retry_ms : ℕ
blocked_retry_ms = 5000

abbrev pub disconnect_grace_ms : ℕ
disconnect_grace_ms = 15000

-- The object's fields, and the locals of the loop. `guard` is the handle of the connection guard,
-- `attached` an open managed display, `slept` the milliseconds of the last `InterruptibleSleep`
-- since the attempt began.
pub record Sender : Type 0 where
  pub state : SenderState
  pub phase : ConnectionPhase
  pub failure : FailureReason
  pub retry_in_ms : ℕ
  pub width : ℕ
  pub height : ℕ
  pub blocked_by_width : ℕ
  pub blocked_by_height : ℕ
  pub device_id : Bytes
  pub ever_streamed : Bool
  pub disconnected_since : Option ℕ
  pub attached : Bool
  pub guard : Bool
  pub slept : ℕ

-- The arguments of the loop that decide.
pub record Setup : Type 0 where
  pub managed : Bool
  pub usb : Bool
  pub expected_id : Bytes

-- `buildPipeline`: the size that is captured, or where it failed.
pub data Pipeline : Type 0 where
  built : ℕ → ℕ → Pipeline
  failed_with : FailureReason → Pipeline

-- What an attempt is told: the time, the network policy's verdict, whether the connection opens, the
-- first hello, whether the welcome is sent, and the pipeline for the panel.
pub record Answers : Type 0 where
  pub now : ℕ
  pub allowed : Bool
  pub connected : Bool
  pub hello : Option HelloMsg
  pub welcome_sent : Bool
  pub pipeline : Pipeline

-- `PublishStatus`.
abbrev pub publish_status : Sender → ConnectionPhase → FailureReason → ℕ → Sender
publish_status s phase failure retry = record s {
  phase = phase;
  failure = failure;
  retry_in_ms = retry;
}

abbrev pub interruptible_sleep : ℕ → Sender → Sender
interruptible_sleep ms s = record s { slept = ms }

-- `detachManagedDisplay`.
abbrev pub detach_managed_display : Setup → Sender → Sender
detach_managed_display u s = if u.managed then record s { attached = false } else s

abbrev pub is_over : ℕ → Option ℕ → Bool
is_over now none = false
is_over now (some since) = leb disconnect_grace_ms (now - since)

-- The top of the loop's body: a display whose receiver stays away is removed.
abbrev pub drop_stale_display : Setup → ℕ → Sender → Sender
drop_stale_display u now s =
    if is_over now s.disconnected_since
    then record (detach_managed_display u s) { disconnected_since = none }
    else s

abbrev pub is_blocked : SenderState → Bool
is_blocked blocked = true
is_blocked _ = false

-- An attempt ends before the stream and the loop goes on, or the function returns, or the stream
-- runs, with the panel's size.
pub data Prepared : Type 0 where
  retry : Sender → PanelState → Prepared
  returned : Sender → PanelState → Prepared
  streams : Sender → PanelState → ℕ → ℕ → Prepared

-- From the claim on the panel, if there is one, to the stream.
abbrev pub with_pipeline : Setup → Sender → PanelState → ℕ → ℕ → Pipeline → Prepared
with_pipeline u s p w h (built cw ch) =
    streams
      (record (publish_status s streaming no_failure 0) {
        width = cw;
        height = ch;
        state = streaming;
        ever_streamed = true;
        disconnected_since = none;
        attached = u.managed || s.attached;
      })
      p w h
with_pipeline u s p w h (failed_with reason) =
    retry
      (interruptible_sleep reconnect_delay_ms
        (detach_managed_display u (publish_status s failed reason reconnect_delay_ms)))
      (if u.managed then release_panel p else p)

abbrev pub unblocked : Sender → Sender
unblocked s = record s { blocked_by_width = 0; blocked_by_height = 0 }

abbrev pub with_claim : Setup → Sender → ℕ → ℕ → Pipeline → PanelState × Acquired → Prepared
with_claim u s w h pipeline (p, granted) = with_pipeline u (unblocked s) p w h pipeline
with_claim u s w h pipeline (p, refused active_w active_h) =
    retry
      (interruptible_sleep blocked_retry_ms (
        publish_status
          (record s { state = blocked; blocked_by_width = active_w; blocked_by_height = active_h })
          blocked resolution_unavailable blocked_retry_ms))
      p

-- From the normalised panel size on.
abbrev pub with_size : Setup → Sender → PanelState → Pipeline → Option (ℕ × ℕ) → Prepared
with_size u s p pipeline none =
    retry
      (interruptible_sleep reconnect_delay_ms
        (publish_status s failed invalid_panel reconnect_delay_ms))
      p
with_size u s p pipeline (some (w, h)) =
    let s' = publish_status s preparing_display no_failure 0 in
    if u.managed
    then with_claim u s' w h pipeline (acquire_panel p w h)
    else with_pipeline u (unblocked s') p w h pipeline

-- From the hello on. Without one the loop goes on at once; with another device's it returns.
unfoldable pub with_hello : Setup → Answers → Sender → PanelState → Option HelloMsg → Prepared
with_hello u a s p none =
    retry (publish_status s reconnecting open_display_unavailable reconnect_delay_ms) p
with_hello u a s p (some m) =
    if not (hello_matches_expected_device m u.expected_id)
    then returned (publish_status s failed device_identity_mismatch 0) p
    else if not a.welcome_sent
    then retry
        (interruptible_sleep reconnect_delay_ms (
          publish_status (record s { device_id = m.id }) reconnecting protocol_error
            reconnect_delay_ms))
        p
    else with_size u (record s { device_id = m.id }) p a.pipeline
        (normalize_panel_size m.pixels_wide m.pixels_high)

abbrev pub start_connecting : Sender → Sender
start_connecting s =
    publish_status
      (record s { state = if is_blocked s.state then s.state else SenderState.connecting })
      (if s.ever_streamed then reconnecting else connecting) no_failure 0

-- The body of the loop up to the stream.
unfoldable pub prepare : Setup → Sender → PanelState → Answers → Prepared
unfolding with_hello
prepare u s p a =
    let s' = drop_stale_display u a.now (record s { slept = 0 }) in
    if not a.allowed
    then retry
        (interruptible_sleep blocked_retry_ms (
          publish_status (record s' { state = unsafe_network }) unsafe_network network_unsafe
            blocked_retry_ms))
        p
    else if not a.connected
    then retry
        (interruptible_sleep reconnect_delay_ms (
          publish_status (start_connecting s') reconnecting
            (if u.usb then usb_unavailable else receiver_unavailable) reconnect_delay_ms))
        p
    else with_hello u a
        (publish_status (start_connecting s') waiting_hello open_display_unavailable 0) p a.hello
