-- ===== src/Net/Connection/Wire.antt =====
-- A whole session on the wire: what the other side can read of it.
use ipad_second_display.Common.{
  ℕ, ◌^◌, ◌≤◌, ◌<◌, ◌≡◌, ◌∙◌, ◌⊎◌, sym, ap, refl, true, false, List, [], ◌∷◌, ◌++◌, some, arith,
  leb, length, take_length_append, drop_length_append, length-append, append_assoc, append-nil,
  if◌then◌else◌, Bool-cases, Bytes, inl, inr,
}
use ipad_second_display.Net.Connection.Receive.{frame_of}
use ipad_second_display.Net.Connection.Send.{encode, send_frame-Sent}
use ipad_second_display.Net.Connection.{
  Environment, Connection, connected, max_inbound_frame, length_bytes, length_of_bytes, send_frame,
}

-- Four bytes hold every length below 2 ^ 32.
length_of_bytes-length_bytes : (n : ℕ) → n < 2 ^ 32 → length_of_bytes (length_bytes n) ≡ n
unfolding length_bytes length_of_bytes
length_of_bytes-length_bytes n h = omega arith

pub frame_of-encode :
    (payload rest : Bytes)
    → length payload ≤ max_inbound_frame
    → frame_of (encode payload ++ rest) ≡ some (payload, rest)
frame_of-encode payload rest h =
    let n = length payload in
    let decoded = length_of_bytes-length_bytes n (omega arith) in
    let fits : leb n max_inbound_frame ≡ true = ground arith in
    let there : leb n (length (payload ++ rest)) ≡ true =
      ground (arith, length-append payload rest) in
    unfold length_bytes in
    rw (decoded, fits, there)
      (λ i. some (take_length_append payload rest i, drop_length_append payload rest i))

unfoldable pub encodes : List Bytes → Bytes
encodes [] = []
encodes (p ∷ ps) = encode p ++ encodes ps

-- Nothing, or the front of the frame of one of the calls.
abbrev pub IsPiece : List (Bytes × ℕ) → Bytes → Type 0
IsPiece [] piece = piece ≡ []
IsPiece ((payload, timeout) ∷ more) piece =
    ((left : Bytes) × (piece ++ left ≡ encode payload)) ⊎ IsPiece more piece

-- Calls of `SendFrame`, each with a time limit, and the payloads that were reported as sent.
module _ (env : Environment) where
  unfoldable pub send_all : Connection → List (Bytes × ℕ) → Connection × List Bytes
  send_all c [] = (c, [])
  send_all c ((payload, timeout) ∷ more) =
      let (ok, c') = send_frame env c payload timeout in
      let (d, sent) = send_all c' more in (d, if ok then payload ∷ sent else sent)

  -- What the wire has got since `c`: the frames sent, and a piece of another only once the stream
  -- is shut down.
  record IsFramed (calls : List (Bytes × ℕ)) (c d : Connection) (sent : List Bytes) : Type 0 where
    piece : Bytes
    front : IsPiece calls piece
    wire : d.wire ≡ c.wire ++ (encodes sent ++ piece)
    only_shut : d.is_shut ≡ false → piece ≡ []
    silent : c.is_shut ≡ true → (d.wire ≡ c.wire) × (sent ≡ []) × (d.is_shut ≡ true)

  send_all-IsFramed :
      (calls : List (Bytes × ℕ)) (c : Connection)
      → let r = send_all c calls in IsFramed calls c r.0 r.1
  unfolding send_all encodes
  send_all-IsFramed [] c = record {
    piece = [];
    front = refl;
    wire = sym (append-nil c.wire);
    only_shut = λ e. refl;
    silent = λ e. (refl, refl, e);
  }
  send_all-IsFramed ((payload, timeout) ∷ more) c =
      let r = send_frame env c payload timeout in
      let s = send_frame-Sent env c payload timeout in
      let ih = send_all-IsFramed more r.1 in
      let d = (send_all r.1 more).0 in
      let later = (send_all r.1 more).1 in
      elim (Bool-cases r.0) [
        | inl sent ↦ rw sent (record {
          piece = ih.piece;
          front = inr ih.front;
          wire =
              ih.wire
              ∙ ap (λ w. w ++ (encodes later ++ ih.piece))
                  (s.wire ∙ ap (◌++◌ c.wire) (s.whole sent).0)
              ∙ append_assoc c.wire (encode payload) _
              ∙ ap (◌++◌ c.wire) (sym (append_assoc (encode payload) (encodes later) ih.piece));
          only_shut = ih.only_shut;
          silent = λ e. let f = (s.silent e).1 in absurd (ground (arith, f, sent));
        })
        | inr failed ↦ elim (Bool-cases r.1.is_shut) [
          | inl shut ↦
              let (same, none_sent, still) = ih.silent shut in
              rw failed (record {
                piece = s.added;
                front = inl (s.left, s.cut);
                wire =
                    same
                    ∙ s.wire
                    ∙ ap (λ (l : List Bytes). c.wire ++ (encodes l ++ s.added)) (sym none_sent);
                only_shut = λ e. cc;
                silent = λ e. (
                  same ∙ s.wire ∙ ap (◌++◌ c.wire) (s.silent e).0 ∙ append-nil c.wire,
                  none_sent,
                  still,
                );
              })
          | inr unshut ↦
              let nothing = s.poisoned failed unshut in
              rw failed (record {
                piece = ih.piece;
                front = inr ih.front;
                wire =
                    ih.wire
                    ∙ ap (λ w. w ++ (encodes later ++ ih.piece))
                        (s.wire ∙ ap (◌++◌ c.wire) nothing ∙ append-nil c.wire);
                only_shut = ih.only_shut;
                silent = λ e. let f = (s.silent e).2 in absurd (ground (arith, f, unshut));
              })
        ]
      ]

  -- For any calls of `SendFrame` on a new connection, and whatever the system does: the wire holds
  -- the frames that were reported as sent, in order and whole, and behind them the front of the frame
  -- of one of the calls, or nothing; and nothing unless the stream was shut down.
  pub send_all-wire :
      (calls : List (Bytes × ℕ)) (inbound : Bytes)
      → let r = send_all (connected inbound) calls in
        (piece : Bytes) × (r.0.wire ≡ encodes r.1 ++ piece)
        × IsPiece calls piece
        × (r.0.is_shut ≡ false → piece ≡ [])
  send_all-wire calls inbound =
      let f = send_all-IsFramed calls (connected inbound) in (f.piece, f.wire, f.front, f.only_shut)
