-- ===== src/Net/Connection/Receive.antt =====
-- What `ReadFrame` of src/net/Connection.cpp returns, however the stream is cut, and where a `recv`
-- fails.
use ipad_second_display.Common.{
  ℕ, ◌≤◌, ◌<◌, ◌≡◌, ◌∙◌, ◌⊎◌, sym, subst, ap, refl, true, false, ◌&&◌, [], ◌∷◌, Option, none, some,
  arith, leb, ltb, leb→le, length, take, drop, if◌then◌else◌, Bool-cases, Bytes, inl, inr,
}
use ipad_second_display.Net.Connection.Loading.{
  NeverFails, Loaded, read_loop_agrees, read_loop_enough, read_loop_lacking,
}
use ipad_second_display.Net.Connection.{
  Environment, Connection, max_inbound_frame, length_of_bytes, read_loop, read_exact, read_payload,
  after_length, read_frame,
}

-- `ReadFrame` as a function of the bytes that arrive: the payload and the bytes behind it.
abbrev pub payload_of : ℕ → Bytes → Option (Bytes × Bytes)
payload_of n rest =
    if leb n max_inbound_frame && leb n (length rest) then some (take n rest, drop n rest) else none

abbrev pub frame_of : Bytes → Option (Bytes × Bytes)
frame_of (a ∷ b ∷ c ∷ d ∷ rest) = payload_of (length_of_bytes (a ∷ b ∷ c ∷ d ∷ [])) rest
frame_of _ = none

-- A connection on which the two sides have not ended the stream.
pub record IsLive (c : Connection) : Type 0 where
  pub opened : c.is_open ≡ true
  pub not_shut : c.is_shut ≡ false

-- The result of a read, and what it leaves of the stream and of the connection.
abbrev pub Reads : Option (Bytes × Bytes) → Option Bytes × Connection → Type 0
Reads none (r, c) = r ≡ none
Reads (some (payload, rest)) (r, c) = (r ≡ some payload) × (c.inbound ≡ rest) × IsLive c

-- The read failed, or it reads as the bytes say.
abbrev pub Agrees : Option (Bytes × Bytes) → Option Bytes × Connection → Type 0
Agrees o r = (r.0 ≡ none) ⊎ Reads o r

payload_of-fits :
    (n : ℕ) (bs : Bytes)
    → leb n max_inbound_frame ≡ true
    → n ≤ length bs
    → payload_of n bs ≡ some (take n bs, drop n bs)
payload_of-fits n bs small h =
    let fits : leb n (length bs) ≡ true = ground arith in rw (small, fits) refl

-- The payload was loaded.
Loaded-Reads :
    (n : ℕ) (c : Connection) (r : Option Bytes × Connection)
    → IsLive c
    → leb n max_inbound_frame ≡ true
    → Loaded n [] c r
    → Reads (payload_of n c.inbound) r
Loaded-Reads n c r v small l =
    subst (λ o. Reads o r) (sym (payload_of-fits n c.inbound small l.there))
      (subst (Reads (some (take n c.inbound, drop n c.inbound))) (sym l.result)
        (refl, refl, record { opened = v.opened; not_shut = v.not_shut }))

-- `ReadFrame` has only the empty payload left.
empty_payload :
    (n : ℕ) (c : Connection) → IsLive c → n ≡ 0 → Reads (payload_of n c.inbound) (some [], c)
empty_payload n c v e =
    let small : leb n max_inbound_frame ≡ true = ground arith in
    subst (λ o. Reads o (some [], c)) (sym (payload_of-fits n c.inbound small (omega arith)))
      (rw e (refl, refl, record { opened = v.opened; not_shut = v.not_shut }))

module _ (env : Environment) where
  after_length-none : (r : Option Bytes × Connection) → r.0 ≡ none → (after_length env r).0 ≡ none
  unfolding after_length
  after_length-none (none, c) e = refl
  after_length-none (some x, c) e = cc

  read_payload-Agrees :
      (n : ℕ) (c : Connection) → IsLive c → Agrees (payload_of n c.inbound) (read_payload env n c)
  unfolding read_payload read_exact
  read_payload-Agrees n c v = elim (Bool-cases (leb n max_inbound_frame)) [
    | inr large ↦
        let refuses : ltb max_inbound_frame n ≡ true = ground arith in rw refuses (inl refl)
    | inl small ↦
        let takes : ltb max_inbound_frame n ≡ false = ground arith in
        elim (Bool-cases (ltb 0 n)) [
          | inr no_bytes ↦ rw (takes, no_bytes) (inr (empty_payload n c v (ground arith)))
          | inl some_bytes ↦ elim (read_loop_agrees env n n [] c v.opened v.not_shut) [
            | inl fails ↦ rw (takes, some_bytes) (inl fails)
            | inr loaded ↦ rw (takes, some_bytes) (inr (Loaded-Reads n c _ v small loaded))
          ]
        ]
  ]

  -- The same with the four bytes of the length in front.
  after_length-Agrees :
      (bs : Bytes) (c : Connection)
      → IsLive c
      → c.inbound ≡ bs
      → Agrees (frame_of bs) (after_length env (read_exact env c 4))
  unfolding read_exact after_length
  after_length-Agrees bs c v e = elim (read_loop_agrees env 4 4 [] c v.opened v.not_shut) [
    | inl fails ↦ inl (after_length-none (read_loop env 4 4 [] c) fails)
    | inr loaded ↦
        subst (λ r. Agrees (frame_of bs) (after_length env r)) (sym loaded.result)
          (headed bs c loaded.rounds v e (omega (arith, loaded.there, ap length e)))
  ]
    where
      headed :
          (bs : Bytes) (c : Connection) (k : ℕ)
          → IsLive c
          → c.inbound ≡ bs
          → 4 ≤ length bs
          → Agrees (frame_of bs) (
              read_payload env
                (length_of_bytes (take 4 c.inbound))
                (record c { inbound = drop 4 c.inbound; receives = k }))
      headed [] c k v e h = absurd (omega arith)
      headed (x ∷ []) c k v e h = absurd (omega arith)
      headed (x ∷ y ∷ []) c k v e h = absurd (omega arith)
      headed (x ∷ y ∷ z ∷ []) c k v e h = absurd (omega arith)
      headed (x ∷ y ∷ z ∷ w ∷ rest) c k v e h =
          subst
            (λ i. Agrees (frame_of (x ∷ y ∷ z ∷ w ∷ rest)) (
              read_payload env (length_of_bytes (take 4 i))
                (record c { inbound = drop 4 i; receives = k })))
            (sym e)
            (read_payload-Agrees (length_of_bytes (x ∷ y ∷ z ∷ w ∷ []))
              (record c { inbound = rest; receives = k })
              (record { opened = v.opened; not_shut = v.not_shut }))

  -- On an open connection that is not shut down, whatever `recv` does, `ReadFrame` fails, or it
  -- returns the payload of the first frame of the stream and leaves the stream behind it.
  pub read_frame-Agrees :
      (c : Connection) → IsLive c → Agrees (frame_of c.inbound) (read_frame env c)
  unfolding read_frame
  read_frame-Agrees c v = simp v.opened (after_length-Agrees c.inbound c v refl)

module _ (env : Environment) (alive : NeverFails env) where
  read_payload-Reads :
      (n : ℕ) (c : Connection) → IsLive c → Reads (payload_of n c.inbound) (read_payload env n c)
  unfolding read_payload read_exact
  read_payload-Reads n c v = elim (Bool-cases (leb n max_inbound_frame)) [
    | inr large ↦
        let refuses : ltb max_inbound_frame n ≡ true = ground arith in rw (large, refuses) refl
    | inl small ↦
        let takes : ltb max_inbound_frame n ≡ false = ground arith in
        elim (Bool-cases (leb n (length c.inbound))) [
          | inl enough ↦
              let loaded =
                read_loop_enough env n n [] c alive (omega arith) v.opened v.not_shut
                  (leb→le _ _ enough) in
              elim (Bool-cases (ltb 0 n)) [
                | inl some_bytes ↦ rw (takes, some_bytes) (Loaded-Reads n c _ v small loaded)
                | inr no_bytes ↦ rw (takes, no_bytes) (empty_payload n c v (ground arith))
              ]
          | inr lacking ↦
              let more : ltb 0 n ≡ true = ground arith in
              rw (small, takes, lacking, more)
                (read_loop_lacking env n n [] c v.opened v.not_shut (ground arith))
        ]
  ]

  too_short :
      (c : Connection)
      → IsLive c
      → length c.inbound < 4
      → (after_length env (read_exact env c 4)).0 ≡ none
  unfolding read_exact
  too_short c v h =
      after_length-none env (read_loop env 4 4 [] c)
        (read_loop_lacking env 4 4 [] c v.opened v.not_shut h)

  after_length-Reads :
      (bs : Bytes) (c : Connection)
      → IsLive c
      → c.inbound ≡ bs
      → Reads (frame_of bs) (after_length env (read_exact env c 4))
  unfolding read_exact after_length
  after_length-Reads [] c v e = too_short c v (omega (arith, ap length e))
  after_length-Reads (a ∷ []) c v e = too_short c v (omega (arith, ap length e))
  after_length-Reads (a ∷ b ∷ []) c v e = too_short c v (omega (arith, ap length e))
  after_length-Reads (a ∷ b ∷ x ∷ []) c v e = too_short c v (omega (arith, ap length e))
  after_length-Reads (a ∷ b ∷ x ∷ y ∷ rest) c v e =
      let loaded =
        read_loop_enough env 4 4 [] c alive (omega arith) v.opened v.not_shut
          (omega (arith, ap length e)) in
      let c' = record c { inbound = rest; receives = loaded.rounds } in
      let headed : read_loop env 4 4 [] c ≡ (some (a ∷ b ∷ x ∷ y ∷ []), c') = loaded.result ∙ λ i.
      (some (take 4 (e i)), record c { inbound = drop 4 (e i); receives = loaded.rounds }) in
      rw headed (
        read_payload-Reads (length_of_bytes (a ∷ b ∷ x ∷ y ∷ [])) c'
          (record { opened = v.opened; not_shut = v.not_shut }))

  -- Where no `recv` fails, on an open connection that is not shut down, and for any cutting of the
  -- stream, `ReadFrame` returns the payload of the first frame and leaves the stream behind it; it
  -- returns nothing exactly where the stream ends inside the frame or the length is above the limit.
  pub read_frame-Reads : (c : Connection) → IsLive c → Reads (frame_of c.inbound) (read_frame env c)
  unfolding read_frame
  read_frame-Reads c v = simp v.opened (after_length-Reads c.inbound c v refl)
