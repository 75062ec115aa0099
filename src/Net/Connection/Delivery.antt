-- ===== src/Net/Connection/Delivery.antt =====
-- Reading the frames of a wire of src/net/Connection.cpp, all of it or its front.
use ipad_second_display.Common.{
  ℕ, zero, suc, ◌≤◌, ◌≡◌, ◌∙◌, sym, subst, ap, refl, true, List, [], ◌∷◌, ◌++◌, Option, none, some,
  arith, leb, length, take, drop, length-append, ◌&&◌, Option-cases, append_assoc, Bool-cases,
  Bytes, All, inl, inr,
}
use ipad_second_display.Net.Connection.Loading.{NeverFails}
use ipad_second_display.Net.Connection.Receive.{
  payload_of, frame_of, IsLive, Reads, read_frame-Reads, read_frame-Agrees,
}
use ipad_second_display.Net.Connection.Send.{encode}
use ipad_second_display.Net.Connection.Wire.{frame_of-encode, encodes, send_all, send_all-wire}
use ipad_second_display.Net.Connection.{
  Environment, Connection, connected, max_inbound_frame, length_of_bytes, read_frame,
}

-- The list, with some more behind it, is the other.
abbrev pub IsFront : List Bytes → List Bytes → Type 0
IsFront some_of_them all_of_them = (rest : List Bytes) × (some_of_them ++ rest ≡ all_of_them)

take_inside : (n : ℕ) (xs ys : Bytes) → n ≤ length xs → take n (xs ++ ys) ≡ take n xs
take_inside zero xs ys h = refl
take_inside (suc n) [] ys h = absurd (omega arith)
take_inside (suc n) (x ∷ xs) ys h = ap (◌∷◌ x) (take_inside n xs ys (omega arith))

drop_inside : (n : ℕ) (xs ys : Bytes) → n ≤ length xs → drop n (xs ++ ys) ≡ drop n xs ++ ys
drop_inside zero xs ys h = refl
drop_inside (suc n) [] ys h = absurd (omega arith)
drop_inside (suc n) (x ∷ xs) ys h = drop_inside n xs ys (omega arith)

abbrev value_of : Option (Bytes × Bytes) → Bytes × Bytes
value_of none = ([], [])
value_of (some x) = x

same_parts :
    (a b c d : Bytes)
    → ◌≡◌ {A = Option (Bytes × Bytes)} (some (a, b)) (some (c, d))
    → (a ≡ c) × (b ≡ d)
same_parts a b c d e = (ap (λ o. (value_of o).0) e, ap (λ o. (value_of o).1) e)

payload_of-append :
    (n : ℕ) (bs lost payload behind : Bytes)
    → payload_of n bs ≡ some (payload, behind)
    → payload_of n (bs ++ lost) ≡ some (payload, behind ++ lost)
payload_of-append n bs lost payload behind h =
    elim (Bool-cases (leb n max_inbound_frame && leb n (length bs))) [
      | inr lacks ↦ absurd (ground (arith, h, lacks))
      | inl fits ↦
          let inside : n ≤ length bs = ground (arith, fits) in
          let still : (leb n max_inbound_frame && leb n (length (bs ++ lost))) ≡ true =
            ground (arith, fits, length-append bs lost) in
          let computed : payload_of n bs ≡ some (take n bs, drop n bs) = rw fits refl in
          let (first, second) =
            same_parts (take n bs) (drop n bs) payload behind (sym computed ∙ h) in
          rw (still, take_inside n bs lost inside, drop_inside n bs lost inside, first, second) refl
    ]

-- A frame that was read is read from more bytes as well.
frame_of-append :
    (bs lost payload behind : Bytes)
    → frame_of bs ≡ some (payload, behind)
    → frame_of (bs ++ lost) ≡ some (payload, behind ++ lost)
frame_of-append [] lost payload behind h = absurd cc
frame_of-append (a ∷ []) lost payload behind h = absurd cc
frame_of-append (a ∷ b ∷ []) lost payload behind h = absurd cc
frame_of-append (a ∷ b ∷ c ∷ []) lost payload behind h = absurd cc
frame_of-append (a ∷ b ∷ c ∷ d ∷ rest) lost payload behind h =
    payload_of-append (length_of_bytes (a ∷ b ∷ c ∷ d ∷ [])) rest lost payload behind h

-- Reading frames until one cannot be read.
module _ (env : Environment) where
  after_frame : (Connection → List Bytes) → Option Bytes × Connection → List Bytes
  after_frame rest (none, c) = []
  after_frame rest (some payload, c) = payload ∷ rest c

  -- At most so many frames.
  pub read_frames : ℕ → Connection → List Bytes
  unfolding after_frame
  read_frames zero c = []
  read_frames (suc n) c = after_frame (read_frames n) (read_frame env c)

  after_frame-Reads :
      (rest : Connection → List Bytes) (payload behind : Bytes) (r : Option Bytes × Connection)
      → Reads (some (payload, behind)) r
      → after_frame rest r ≡ payload ∷ rest r.1
  unfolding after_frame
  after_frame-Reads rest payload behind (r, c) (e, i, v) = rw e refl

  read_frames-encodes :
      (payloads : List Bytes) (piece : Bytes) (c : Connection)
      → NeverFails env
      → IsLive c
      → All (λ p. length p ≤ max_inbound_frame) payloads
      → c.inbound ≡ encodes payloads ++ piece
      → read_frames (length payloads) c ≡ payloads
  unfolding read_frames encodes
  read_frames-encodes [] piece c a v h e = refl
  read_frames-encodes (p ∷ ps) piece c a v h e =
      let front : frame_of c.inbound ≡ some (p, encodes ps ++ piece) =
        ap frame_of (e ∙ append_assoc (encode p) (encodes ps) piece)
        ∙ frame_of-encode p (encodes ps ++ piece) h.0 in
      let r = subst (λ f. Reads f (read_frame env c)) front (read_frame-Reads env a c v) in
      after_frame-Reads (read_frames (length ps)) p (encodes ps ++ piece) (read_frame env c) r
      ∙ ap (◌∷◌ p) (read_frames-encodes ps piece (read_frame env c).1 a r.2 h.1 r.1)

  after_frame-none :
      (rest : Connection → List Bytes) (r : Option Bytes × Connection)
      → r.0 ≡ none
      → after_frame rest r ≡ []
  unfolding after_frame
  after_frame-none rest (none, c) e = refl
  after_frame-none rest (some payload, c) e = cc

  read_frames_part-IsFront :
      (payloads : List Bytes) (piece lost : Bytes) (c : Connection)
      → IsLive c
      → All (λ p. length p ≤ max_inbound_frame) payloads
      → c.inbound ++ lost ≡ encodes payloads ++ piece
      → IsFront (read_frames (length payloads) c) payloads
  unfolding read_frames encodes
  read_frames_part-IsFront [] piece lost c v h e = ([], refl)
  read_frames_part-IsFront (p ∷ ps) piece lost c v h e =
      let nothing = λ (fails : (read_frame env c).0 ≡ none).
        subst (λ l. IsFront l (p ∷ ps)) (sym (after_frame-none (read_frames (length ps)) _ fails))
          (p ∷ ps, refl) in
      elim (read_frame-Agrees env c v) [
        | inl fails ↦ nothing fails
        | inr reads ↦ elim (Option-cases (frame_of c.inbound)) [
          | inl ends ↦ nothing (subst (λ f. Reads f (read_frame env c)) ends reads)
          | inr ((payload, behind), found) ↦
              let (same, later) = same_parts payload (behind ++ lost) p (encodes ps ++ piece) (
                sym (frame_of-append c.inbound lost payload behind found)
                ∙ ap frame_of (e ∙ append_assoc (encode p) (encodes ps) piece)
                ∙ frame_of-encode p (encodes ps ++ piece) h.0) in
              let (q, i, live) = subst (λ f. Reads f (read_frame env c)) found reads in
              let (rest, whole) =
                read_frames_part-IsFront ps piece lost (read_frame env c).1 live h.1
                  (ap (λ b. b ++ lost) i ∙ later) in
              subst (λ l. IsFront l (p ∷ ps))
                (sym (after_frame-Reads (read_frames (length ps)) payload behind _ (q, i, live)))
                (rest, λ j. same j ∷ whole j)
        ]
      ]

-- What one side sent, the other side reads, where no `recv` of the other side fails and the whole wire
-- arrives, whatever else either system does: all the payloads reported as sent, in order, where each
-- is within the inbound limit.
pub read_frames-send_all :
    (sender receiver : Environment) (calls : List (Bytes × ℕ)) (inbound : Bytes)
    → let r = send_all sender (connected inbound) calls in
      NeverFails receiver
      → All (λ p. length p ≤ max_inbound_frame) r.1
      → read_frames receiver (length r.1) (connected r.0.wire) ≡ r.1
read_frames-send_all sender receiver calls inbound alive h =
    let (piece, wire, _, _) = send_all-wire sender calls inbound in
    read_frames-encodes receiver _ piece (connected _) alive
      (record { opened = refl; not_shut = refl }) h wire

-- Whatever either system does, and however much of the wire is lost at its end: what the other side
-- reads, in as many reads as payloads were reported as sent and up to the first that fails, is the
-- first of those payloads, each whole and in order, where each is within the inbound limit.
pub read_frames-IsFront :
    (sender receiver : Environment) (calls : List (Bytes × ℕ)) (inbound arrived lost : Bytes)
    → let r = send_all sender (connected inbound) calls in
      arrived ++ lost ≡ r.0.wire
      → All (λ p. length p ≤ max_inbound_frame) r.1
      → IsFront (read_frames receiver (length r.1) (connected arrived)) r.1
read_frames-IsFront sender receiver calls inbound arrived lost e h =
    let (piece, wire, _, _) = send_all-wire sender calls inbound in
    read_frames_part-IsFront receiver _ piece lost (connected arrived)
      (record { opened = refl; not_shut = refl }) h (e ∙ wire)
