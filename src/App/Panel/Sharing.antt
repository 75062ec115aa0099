-- ===== src/App/Panel/Sharing.antt =====
-- Several senders and the shared panel size.
use ipad_second_display.Common.{
  ℕ, zero, suc, ◌<◌, ◌+◌, ◌≡◌, ◌∙◌, sym, ◌↔◌, inl, inr, refl, Bool-cases, ◌&&◌, ◌||◌, not, ◌==◌,
  ◌≤◌, ltb→lt, ap, Bool, true, false, List, [], ◌∷◌, arith, ltb, length, All, if◌then◌else◌,
}
use ipad_second_display.App.Panel.{
  PanelState, free_panel, Acquired, granted, refused, acquire_panel, release_panel, retune_panel,
}

-- A sender whose `PanelHolder` is held: the size that it streams at, the size that the panel last
-- granted to it, and whether the panel refused its last rotation, so that its pictures are
-- letterboxed.
pub record Claim : Type 0 where
  pub width : ℕ
  pub height : ℕ
  pub granted_width : ℕ
  pub granted_height : ℕ
  pub letterboxed : Bool

pub record System : Type 0 where
  pub panel : PanelState
  pub claims : List Claim

abbrev pub granted_at : ℕ → ℕ → Claim
granted_at w h = record {
  width = w;
  height = h;
  granted_width = w;
  granted_height = h;
  letterboxed = false;
}

-- A new claim, the end of claim `k` (the holder's destructor), a rotation under claim `k`.
pub data Action : Type 0 where
  acquires : ℕ → ℕ → Action
  releases : ℕ → Action
  retunes : ℕ → ℕ → ℕ → Action

unfoldable pub remove_at : ℕ → List Claim → List Claim
remove_at k [] = []
remove_at zero (c ∷ cs) = cs
remove_at (suc k) (c ∷ cs) = c ∷ remove_at k cs

unfoldable pub change_at : ℕ → (Claim → Claim) → List Claim → List Claim
change_at k f [] = []
change_at zero f (c ∷ cs) = f c ∷ cs
change_at (suc k) f (c ∷ cs) = c ∷ change_at k f cs

abbrev streams_at : ℕ → ℕ → Claim → Claim
streams_at w h c = record c { width = w; height = h; letterboxed = true }

-- A refused sender holds nothing.
unfoldable pub after_acquire : System → ℕ → ℕ → PanelState × Acquired → System
after_acquire s w h (p, granted) = record { panel = p; claims = granted_at w h ∷ s.claims }
after_acquire s w h (p, refused _ _) = record { panel = p; claims = s.claims }

-- A rotation that the panel refuses is only logged: the sender goes on at its new size.
unfoldable pub after_retune : System → ℕ → ℕ → ℕ → PanelState × Bool → System
after_retune s k w h (p, true) = record {
  panel = p;
  claims = change_at k (λ _. granted_at w h) s.claims;
}
after_retune s k w h (p, false) = record {
  panel = p;
  claims = change_at k (streams_at w h) s.claims;
}

-- Only a sender with a claim releases it or rotates under it.
unfoldable pub step : System → Action → System
unfolding after_acquire after_retune
step s (acquires w h) = after_acquire s w h (acquire_panel s.panel w h)
step s (releases k) =
    if ltb k (length s.claims)
    then record { panel = release_panel s.panel; claims = remove_at k s.claims }
    else s
step s (retunes k w h) =
    if ltb k (length s.claims) then after_retune s k w h (retune_panel s.panel w h) else s

unfoldable pub run : System → List Action → System
run s [] = s
run s (a ∷ actions) = run (step s a) actions

abbrev pub initial : System
initial = record { panel = free_panel; claims = [] }

abbrev HasSize : PanelState → List Claim → Type 0
HasSize p = All (λ (c : Claim).
    (c.granted_width ≡ p.width)
    × (c.granted_height ≡ p.height)
    × (c.letterboxed ≡ false → (c.width ≡ p.width) × (c.height ≡ p.height)))

-- The count is that of the claims. The panel's size was granted to every claim, and a claim streams
-- at it unless its last rotation was refused. A panel without claims has no size.
pub record IsShared (s : System) : Type 0 where
  pub counted : s.panel.holders ≡ length s.claims
  pub same_size : HasSize s.panel s.claims
  pub unset : s.claims ≡ [] → (s.panel.width ≡ 0) × (s.panel.height ≡ 0)

HasSize-cast :
    (p q : PanelState) (cs : List Claim)
    → (0 < length cs → (p.width ≡ q.width) × (p.height ≡ q.height))
    → HasSize p cs
    → HasSize q cs
HasSize-cast p q [] e v = tt
HasSize-cast p q (c ∷ cs) e v =
    let same = e (omega arith) in
    let (w, h, streams) = v.0 in
    (
      (w ∙ same.0, h ∙ same.1, λ e. let (x, y) = streams e in (x ∙ same.0, y ∙ same.1)),
      HasSize-cast p q cs (λ _. same) v.1,
    )

HasSize-remove_at :
    (p : PanelState) (k : ℕ) (cs : List Claim) → HasSize p cs → HasSize p (remove_at k cs)
unfolding remove_at
HasSize-remove_at p k [] v = tt
HasSize-remove_at p zero (c ∷ cs) v = v.1
HasSize-remove_at p (suc k) (c ∷ cs) v = (v.0, HasSize-remove_at p k cs v.1)

length-remove_at :
    (k : ℕ) (cs : List Claim) → k < length cs → length (remove_at k cs) + 1 ≡ length cs
unfolding remove_at
length-remove_at k [] h = absurd (omega arith)
length-remove_at zero (c ∷ cs) h = omega arith
length-remove_at (suc k) (c ∷ cs) h = omega (arith, length-remove_at k cs (omega arith))

acquire-IsShared : (s : System) (w h : ℕ) → IsShared s → IsShared (step s (acquires w h))
unfolding step acquire_panel
acquire-IsShared s w h v =
    elim (Bool-cases
      (ltb 0 s.panel.holders && (not (s.panel.width == w) || not (s.panel.height == h)))) [
        | inl refuses ↦ rw refuses v
        | inr grants ↦ rw grants (record {
          counted = omega (arith, v.counted);
          same_size = (
            (refl, refl, λ _. (refl, refl)),
            HasSize-cast s.panel (record { width = w; height = h; holders = s.panel.holders + 1 })
                s.claims (λ some_claim. ground (arith, v.counted)) v.same_size,
          );
          unset = λ z. cc;
        })
      ]

release-IsShared : (s : System) (k : ℕ) → IsShared s → IsShared (step s (releases k))
unfolding step release_panel
release-IsShared s k v = elim (Bool-cases (ltb k (length s.claims))) [
  | inr outside ↦ rw outside v
  | inl inside ↦
      let fewer = length-remove_at k s.claims (ltb→lt _ _ inside) in
      rw inside (record {
        counted = ground (arith, v.counted, fewer);
        same_size =
            HasSize-cast s.panel (release_panel s.panel) (remove_at k s.claims)
              (λ some_claim. ground (arith, v.counted, fewer))
              (HasSize-remove_at s.panel k s.claims v.same_size);
        unset = λ z. ground (arith, v.counted, fewer, ap length z);
      })
]

length-change_at :
    (k : ℕ) (f : Claim → Claim) (cs : List Claim) → length (change_at k f cs) ≡ length cs
unfolding change_at
length-change_at k f [] = refl
length-change_at zero f (d ∷ cs) = refl
length-change_at (suc k) f (d ∷ cs) = ap suc (length-change_at k f cs)

HasSize-change_only :
    (p : PanelState) (k : ℕ) (cs : List Claim)
    → k < length cs
    → length cs ≤ 1
    → HasSize p (change_at k (λ _. granted_at p.width p.height) cs)
unfolding change_at
HasSize-change_only p k [] h l = tt
HasSize-change_only p zero (c ∷ []) h l = ((refl, refl, λ _. (refl, refl)), tt)
HasSize-change_only p (suc k) (c ∷ []) h l = absurd (omega arith)
HasSize-change_only p k (c ∷ d ∷ cs) h l = absurd (omega arith)

HasSize-streams_at :
    (p : PanelState) (k w h : ℕ) (cs : List Claim)
    → HasSize p cs
    → HasSize p (change_at k (streams_at w h) cs)
unfolding change_at
HasSize-streams_at p k w h [] v = tt
HasSize-streams_at p zero w h (c ∷ cs) v =
    let (x, y, streams) = v.0 in ((x, y, λ e. absurd cc), v.1)
HasSize-streams_at p (suc k) w h (c ∷ cs) v = (v.0, HasSize-streams_at p k w h cs v.1)

retune-IsShared : (s : System) (k w h : ℕ) → IsShared s → IsShared (step s (retunes k w h))
unfolding step retune_panel
retune-IsShared s k w h v = elim (Bool-cases (ltb k (length s.claims))) [
  | inr outside ↦ rw outside v
  | inl inside ↦ elim (Bool-cases (ltb 1 s.panel.holders)) [
    | inl several ↦
        rw (inside, several)
          (record {
            counted = omega (arith, v.counted, length-change_at k (streams_at w h) s.claims);
            same_size = HasSize-streams_at s.panel k w h s.claims v.same_size;
            unset = λ z. ground (
              arith,
              ltb→lt _ _ inside,
              ap length z,
              length-change_at k (streams_at w h) s.claims,
            );
          })
    | inr alone ↦
        rw (inside, alone)
          (record {
            counted = omega (arith, v.counted, length-change_at k (λ _. granted_at w h) s.claims);
            same_size =
                HasSize-change_only (record s.panel { width = w; height = h }) k s.claims
                  (ltb→lt _ _ inside) (ground (arith, v.counted));
            unset = λ z. ground (
              arith,
              ltb→lt _ _ inside,
              ap length z,
              length-change_at k (λ _. granted_at w h) s.claims,
            );
          })
  ]
]

step-IsShared : (s : System) (a : Action) → IsShared s → IsShared (step s a)
step-IsShared s (acquires w h) v = acquire-IsShared s w h v
step-IsShared s (releases k) v = release-IsShared s k v
step-IsShared s (retunes k w h) v = retune-IsShared s k w h v

run-IsShared : (actions : List Action) (s : System) → IsShared s → IsShared (run s actions)
unfolding run
run-IsShared [] s v = v
run-IsShared (a ∷ actions) s v = run-IsShared actions (step s a) (step-IsShared s a v)

pub run-initial-IsShared : (actions : List Action) → IsShared (run initial actions)
run-initial-IsShared actions =
    run-IsShared actions initial
      (record { counted = refl; same_size = tt; unset = λ z. (refl, refl) })

abbrev pub AllGranted : ℕ → ℕ → List Claim → Type 0
AllGranted w h = All (λ (c : Claim). (c.granted_width ≡ w) × (c.granted_height ≡ h))

AllGranted-HasSize :
    (p : PanelState) (w h : ℕ) (cs : List Claim)
    → p.width ≡ w
    → p.height ≡ h
    → HasSize p cs
    → AllGranted w h cs
AllGranted-HasSize p w h [] x y v = tt
AllGranted-HasSize p w h (c ∷ cs) x y v =
    let (a, b, _) = v.0 in ((a ∙ x, b ∙ y), AllGranted-HasSize p w h cs x y v.1)

granted_with :
    (p : PanelState) (cs : List Claim) (w h : ℕ)
    → IsShared (record { panel = p; claims = cs })
    → ((acquire_panel p w h).1 ≡ granted) ↔ AllGranted w h cs
unfolding acquire_panel
granted_with p [] w h v = (λ e. tt, λ e. ground (arith, v.counted))
granted_with p (c ∷ cs) w h v = (
  λ e.
      AllGranted-HasSize p w h (c ∷ cs) (ground (arith, v.counted)) (ground (arith, v.counted))
        v.same_size,
  λ e.
      let (x, y, _) = v.same_size.0 in
      let (a, b) = e.0 in ground (arith, v.counted, sym x ∙ a, sym y ∙ b),
)

-- After any interleaving, a sender gets the display exactly when its size is the one that the panel
-- last granted to every sender that holds it, whatever size those go on at after a refused rotation.
pub acquire_panel-granted :
    (actions : List Action) (w h : ℕ)
    → ((acquire_panel (run initial actions).panel w h).1 ≡ granted)
      ↔ AllGranted w h (run initial actions).claims
acquire_panel-granted actions w h =
    let s = run initial actions in granted_with s.panel s.claims w h (run-initial-IsShared actions)
