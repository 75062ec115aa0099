-- ===== src/App/Session/Stream.antt =====
-- `SenderApp::RunLoop` of src/app/SenderApp.cpp: the events of a stream, its end, and the whole loop.
use ipad_second_display.Common.{
  ℕ, Bool, true, false, ◌&&◌, List, [], ◌∷◌, Option, none, some, ◌==◌, if◌then◌else◌,
}
use ipad_second_display.App.Panel.{PanelState, retune_panel, release_panel}
use ipad_second_display.App.Session.{
  Sender, SenderState, ConnectionPhase, idle, unsafe_network, sleeping, reconnecting, failed,
  no_failure, open_display_unavailable, another_sender, device_identity_mismatch, transport_error,
  reconnect_delay_ms, Setup, Pipeline, built, failed_with, Answers, publish_status,
  detach_managed_display, Prepared, retry, returned, streams, prepare,
}

-- What stops a stream or changes it: a panel size of a repeated hello with the pipeline rebuilt for
-- it, the periodic network check, another device's hello, the receiver's messages, and an error of the connection.
pub data StreamEvent : Type 0 where
  resized : ℕ → ℕ → Pipeline → StreamEvent
  network_lost identity_changed receiver_sleeping receiver_closing connection_lost : StreamEvent

-- Why the stream is over; `by_stop` is a requested stop.
pub data Ending : Type 0 where
  by_sleep by_closing by_loss by_stop : Ending

abbrev pub retuned : Setup → PanelState → ℕ → ℕ → PanelState
retuned u p w h = if u.managed then (retune_panel p w h).0 else p

-- A stream with the panel size `w` × `h`. With no event left, a stop is requested.
unfoldable pub stream :
    Setup → Sender → PanelState → ℕ → ℕ → List StreamEvent → Sender × PanelState × Ending
stream u s p w h [] = (s, p, by_stop)
stream u s p w h (network_lost ∷ events) = (record s { state = unsafe_network }, p, by_loss)
stream u s p w h (identity_changed ∷ events) =
    (publish_status s failed device_identity_mismatch 0, p, by_loss)
stream u s p w h (receiver_sleeping ∷ events) =
    (publish_status s sleeping open_display_unavailable reconnect_delay_ms, p, by_sleep)
stream u s p w h (receiver_closing ∷ events) =
    (publish_status s idle open_display_unavailable 0, p, by_closing)
stream u s p w h (connection_lost ∷ events) = (s, p, by_loss)
stream u s p w h (resized w' h' (built cw ch) ∷ events) =
    let same = stream u s p w h events in
    let other = stream u (record s { width = cw; height = ch }) (retuned u p w' h') w' h' events in
    if (w' == w) && (h' == h) then same else other
stream u s p w h (resized w' h' (failed_with reason) ∷ events) =
    let same = stream u s p w h events in
    if (w' == w) && (h' == h)
    then same
    else (publish_status s failed reason reconnect_delay_ms, retuned u p w' h', by_loss)

abbrev pub since_now : ℕ → Option ℕ → Option ℕ
since_now now none = some now
since_now now (some since) = some since

abbrev pub no_picture : Sender → Sender
no_picture s = record s { width = 0; height = 0 }

-- Behind the stream: the display goes with a receiver that sleeps or closes, and otherwise gets its
-- time of grace.
abbrev pub end_stream : Setup → ℕ → Sender → Ending → Sender
end_stream u now s by_sleep = detach_managed_display u (no_picture s)
end_stream u now s by_closing = detach_managed_display u (no_picture s)
end_stream u now s by_stop = no_picture s
end_stream u now s by_loss =
    publish_status
      (record (no_picture s) { disconnected_since = since_now now s.disconnected_since })
      reconnecting transport_error reconnect_delay_ms

-- The claim on the panel ends with the loop's body.
abbrev pub release_claim : Setup → PanelState → PanelState
release_claim u p = if u.managed then release_panel p else p

-- Behind the loop; `stop` tells whether a stop was requested.
unfoldable pub leave_loop : Setup → Bool → Sender → Sender
leave_loop u stop s =
    let s' = record (detach_managed_display u s) { guard = false; state = SenderState.idle } in
    if stop then publish_status s' ConnectionPhase.idle no_failure 0 else s'

-- One turn of the loop: the answers, the events of its stream, and the time of its end.
pub record Round : Type 0 where
  pub answers : Answers
  pub events : List StreamEvent
  pub ended_at : ℕ

abbrev pub after_stream :
    Setup
    → ℕ
    → (Sender → PanelState → Sender × PanelState)
    → Sender × PanelState × Ending
    → Sender × PanelState
after_stream u now again (s, p, by_stop) =
    (leave_loop u true (end_stream u now s by_stop), release_claim u p)
after_stream u now again (s, p, by_closing) =
    (leave_loop u false (end_stream u now s by_closing), release_claim u p)
after_stream u now again (s, p, by_sleep) = again (end_stream u now s by_sleep) (release_claim u p)
after_stream u now again (s, p, by_loss) = again (end_stream u now s by_loss) (release_claim u p)

abbrev pub after_prepare :
    Setup → Round → (Sender → PanelState → Sender × PanelState) → Prepared → Sender × PanelState
after_prepare u r again (retry s p) = again s p
after_prepare u r again (returned s p) = (s, p)
after_prepare u r again (streams s p w h) =
    after_stream u r.ended_at again (stream u s p w h r.events)

-- The loop; with no round left, a stop is requested.
unfoldable pub loop : Setup → List Round → Sender → PanelState → Sender × PanelState
unfolding prepare stream leave_loop
loop u [] s p = (leave_loop u true s, p)
loop u (r ∷ rounds) s p = after_prepare u r (loop u rounds) (prepare u s p r.answers)

-- `CreateMutexW`.
pub data GuardAnswer : Type 0 where
  created already_exists cannot_create : GuardAnswer

abbrev pub refuse_to_run : Sender → Sender
refuse_to_run s = publish_status (record s { state = SenderState.idle }) failed another_sender 0

-- `RunLoop`.
unfoldable pub run_loop :
    Setup → GuardAnswer → List Round → Sender → PanelState → Sender × PanelState
unfolding loop
run_loop u created rounds s p = loop u rounds (record s { guard = true }) p
run_loop u already_exists rounds s p = (refuse_to_run s, p)
run_loop u cannot_create rounds s p = (refuse_to_run s, p)
