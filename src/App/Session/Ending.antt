-- ===== src/App/Session/Ending.antt =====
-- `SenderApp::RunLoop` of src/app/SenderApp.cpp: what is left when it returns.
use ipad_second_display.Common.{
  ℕ, suc, ◌≡◌, refl, subst, ◌∙◌, ap, ◌⊎◌, inl, inr, Bool, true, false, ◌&&◌, List, [], ◌∷◌,
  Bool-cases, if◌then◌else◌, arith, ◌==◌,
}
use ipad_second_display.App.Panel.{PanelState, retune_panel}
use ipad_second_display.App.Session.{
  Sender, SenderState, Setup, built, failed_with, Prepared, retry, returned, streams, prepare,
}
use ipad_second_display.App.Session.Stream.{
  StreamEvent, resized, network_lost, identity_changed, receiver_sleeping, receiver_closing,
  connection_lost, Ending, by_sleep, by_closing, by_loss, by_stop, stream, end_stream,
  release_claim, leave_loop, Round, after_stream, after_prepare, loop, created, run_loop, retuned,
}
use ipad_second_display.App.Session.Attempt.{
  IsWaiting, IsMismatched, Claimed, Keeps, release_claim-holders, detach-IsWaiting, prepare-Keeps,
}

-- A finished loop: idle, no picture, the guard given back, no managed display attached.
abbrev pub IsFinished : Setup → Sender → Type 0
IsFinished u s =
    (s.state ≡ SenderState.idle)
    × (s.width ≡ 0)
    × (s.height ≡ 0)
    × (s.guard ≡ false)
    × ((u.managed && s.attached) ≡ false)

retune-holders : (p : PanelState) (w h : ℕ) → (retune_panel p w h).0.holders ≡ p.holders
unfolding retune_panel
retune-holders p w h = ground arith

retuned-Claimed :
    (u : Setup) (n : ℕ) (p : PanelState) (w h : ℕ) → Claimed u n p → Claimed u n (retuned u p w h)
retuned-Claimed u n p w h c = elim (Bool-cases u.managed) [
  | inl m ↦ simp m (retune-holders p w h ∙ c ∙ ap (λ b. if b then suc n else n) m)
  | inr m ↦ simp m (c ∙ ap (λ b. if b then suc n else n) m)
]

-- The events of a stream keep the guard and the claim.
stream-Keeps :
    (u : Setup) (n : ℕ) (s : Sender) (p : PanelState) (w h : ℕ) (events : List StreamEvent)
    → s.guard ≡ true
    → Claimed u n p
    → ((stream u s p w h events).0.guard ≡ true) × Claimed u n (stream u s p w h events).1
unfolding stream
stream-Keeps u n s p w h [] g c = (g, c)
stream-Keeps u n s p w h (network_lost ∷ events) g c = (g, c)
stream-Keeps u n s p w h (identity_changed ∷ events) g c = (g, c)
stream-Keeps u n s p w h (receiver_sleeping ∷ events) g c = (g, c)
stream-Keeps u n s p w h (receiver_closing ∷ events) g c = (g, c)
stream-Keeps u n s p w h (connection_lost ∷ events) g c = (g, c)
stream-Keeps u n s p w h (resized w' h' (built cw ch) ∷ events) g c =
    elim (Bool-cases ((w' == w) && (h' == h))) [
      | inl same ↦ rw same (stream-Keeps u n s p w h events g c)
      | inr other ↦ rw other (
          stream-Keeps u n (record s { width = cw; height = ch }) (retuned u p w' h') w' h' events g
            (retuned-Claimed u n p w' h' c))
    ]
stream-Keeps u n s p w h (resized w' h' (failed_with reason) ∷ events) g c =
    elim (Bool-cases ((w' == w) && (h' == h))) [
      | inl same ↦ rw same (stream-Keeps u n s p w h events g c)
      | inr other ↦ rw other (g, retuned-Claimed u n p w' h' c)
    ]

leave_loop-IsFinished :
    (u : Setup) (stop : Bool) (s : Sender)
    → s.width ≡ 0
    → s.height ≡ 0
    → IsFinished u (leave_loop u stop s)
unfolding leave_loop
leave_loop-IsFinished u true s w h = elim (Bool-cases u.managed) [
  | inl m ↦ simp m (refl, w, h, refl, refl)
  | inr m ↦ simp m (refl, w, h, refl, refl)
]
leave_loop-IsFinished u false s w h = elim (Bool-cases u.managed) [
  | inl m ↦ simp m (refl, w, h, refl, refl)
  | inr m ↦ simp m (refl, w, h, refl, refl)
]

-- A loop that returned, with `n` senders holding the panel.
abbrev pub Returns : Setup → ℕ → Sender × PanelState → Type 0
Returns u n r = (IsFinished u r.0 ⊎ IsMismatched r.0) × (r.1.holders ≡ n)

after_stream-Returns :
    (u : Setup) (n now : ℕ) (again : Sender → PanelState → Sender × PanelState) (s : Sender)
    (p : PanelState) (e : Ending)
    → s.guard ≡ true
    → Claimed u n p
    → ((s' : Sender) (p' : PanelState) → IsWaiting s' → p'.holders ≡ n → Returns u n (again s' p'))
    → Returns u n (after_stream u now again (s, p, e))
after_stream-Returns u n now again s p by_stop g c k = (
  inl (leave_loop-IsFinished u true (end_stream u now s by_stop) refl refl),
  release_claim-holders u n p c,
)
after_stream-Returns u n now again s p by_closing g c k =
    let waiting : IsWaiting (end_stream u now s by_closing) =
      detach-IsWaiting u (record s { width = 0; height = 0 }) (refl, refl, g) in
    (
      inl (leave_loop-IsFinished u false (end_stream u now s by_closing) waiting.0 waiting.1),
      release_claim-holders u n p c,
    )
after_stream-Returns u n now again s p by_sleep g c k =
    k (end_stream u now s by_sleep) (release_claim u p)
      (detach-IsWaiting u (record s { width = 0; height = 0 }) (refl, refl, g))
      (release_claim-holders u n p c)
after_stream-Returns u n now again s p by_loss g c k =
    k (end_stream u now s by_loss) (release_claim u p) (refl, refl, g)
      (release_claim-holders u n p c)

after_prepare-Returns :
    (u : Setup) (n : ℕ) (r : Round) (again : Sender → PanelState → Sender × PanelState)
    (t : Prepared)
    → Keeps u n t
    → ((s' : Sender) (p' : PanelState) → IsWaiting s' → p'.holders ≡ n → Returns u n (again s' p'))
    → Returns u n (after_prepare u r again t)
after_prepare-Returns u n r again (retry s p) h k = k s p h.0 h.1
after_prepare-Returns u n r again (returned s p) h k = (inr h.0, h.1)
after_prepare-Returns u n r again (streams s p w v) h k =
    let (g, c) = stream-Keeps u n s p w v r.events h.0 h.1 in
    after_stream-Returns u n r.ended_at again (stream u s p w v r.events).0
      (stream u s p w v r.events).1 (stream u s p w v r.events).2 g c k

loop-Returns :
    (u : Setup) (n : ℕ) (rounds : List Round) (s : Sender) (p : PanelState)
    → IsWaiting s
    → p.holders ≡ n
    → Returns u n (loop u rounds s p)
unfolding loop
loop-Returns u n [] s p k e = (inl (leave_loop-IsFinished u true s k.0 k.1), e)
loop-Returns u n (r ∷ rounds) s p k e =
    after_prepare-Returns u n r (loop u rounds) (prepare u s p r.answers)
      (subst (λ m. Keeps u m (prepare u s p r.answers)) e (prepare-Keeps u s p r.answers k))
      (λ s' p' k' e'. loop-Returns u n rounds s' p' k' e')

-- Whatever the attempts and streams bring, a loop that got its guard and starts with no picture ends in one of two ways, and if no other sender claims or releases the panel meanwhile, as many senders hold it as before. It is idle, with no picture, no managed display and the guard given back; or it returned at the hello of another device, and then it is not idle and still has the guard.
pub run_loop-Returns :
    (u : Setup) (rounds : List Round) (s : Sender) (p : PanelState)
    → s.width ≡ 0
    → s.height ≡ 0
    → Returns u p.holders (run_loop u created rounds s p)
unfolding run_loop
run_loop-Returns u rounds s p w h =
    loop-Returns u p.holders rounds (record s { guard = true }) p (w, h, refl) refl
