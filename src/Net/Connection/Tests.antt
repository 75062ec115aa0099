-- ===== src/Net/Connection/Tests.antt =====
-- src/net/Connection.cpp over a socket that moves a few bytes at a time.
use ipad_second_display.Common.{
  ℕ, ◌-◌, ◌%◌, ◌≡◌, refl, true, false, List, [], ◌∷◌, ◌++◌, Bytes, length, arith,
}
use ipad_second_display.Net.Connection.{
  Environment, connected, read_frame, send_frame, write_frame, write_exact_until, write_loop,
  write_some, send_count, write_payload, length_bytes, or_interrupt,
}
use ipad_second_display.Net.Connection.Receive.{frame_of, Reads, read_frame-Reads}
use ipad_second_display.Net.Connection.Send.{Sent, send_frame-Sent}
use ipad_second_display.Net.Connection.Loading.{NeverFails}
use ipad_second_display.Net.Connection.Wire.{encodes, send_all, IsPiece, send_all-wire}
use ipad_second_display.Net.Connection.Delivery.{
  IsFront, read_frames, read_frames-send_all, read_frames-IsFront,
}

abbrev slow : Environment
slow = record { received = λ _. 3; accepted = λ _. 3; sets_timeout = λ _ _. true; clock = λ _. 0 }

alive : NeverFails slow
alive i = omega arith

-- Every other `recv` fails.
abbrev failing : Environment
failing = record slow { received = λ i. 1 - i % 2 }

abbrev calls : List (Bytes × ℕ)
calls = (7 ∷ 8 ∷ [], 100) ∷ ([], 0) ∷ (9 ∷ [], 100) ∷ []

read_frame-Reads_example :
    Reads
      (frame_of (0 ∷ 0 ∷ 0 ∷ 2 ∷ 7 ∷ 8 ∷ 9 ∷ []))
      (read_frame slow (connected (0 ∷ 0 ∷ 0 ∷ 2 ∷ 7 ∷ 8 ∷ 9 ∷ [])))
read_frame-Reads_example =
    read_frame-Reads slow alive (connected (0 ∷ 0 ∷ 0 ∷ 2 ∷ 7 ∷ 8 ∷ 9 ∷ []))
      (record { opened = refl; not_shut = refl })

send_frame-Sent_example :
    Sent (connected []) (7 ∷ 8 ∷ []) (send_frame slow (connected []) (7 ∷ 8 ∷ []) 100)
send_frame-Sent_example = send_frame-Sent slow (connected []) (7 ∷ 8 ∷ []) 100

send_all-wire_example :
    (piece : Bytes) × ((send_all slow (connected []) calls).0.wire
      ≡ encodes (send_all slow (connected []) calls).1 ++ piece)
    × IsPiece calls piece
    × ((send_all slow (connected []) calls).0.is_shut ≡ false → piece ≡ [])
send_all-wire_example = send_all-wire slow calls []

two_sent : (send_all slow (connected []) calls).1 ≡ (7 ∷ 8 ∷ []) ∷ (9 ∷ []) ∷ []
unfolding send_all send_frame write_frame write_exact_until write_loop write_some send_count
    write_payload length_bytes or_interrupt
two_sent = refl

read_frames-send_all_example :
    read_frames slow
      (length (send_all slow (connected []) calls).1)
      (connected (send_all slow (connected []) calls).0.wire)
    ≡ (send_all slow (connected []) calls).1
read_frames-send_all_example =
    read_frames-send_all slow slow calls [] alive (rw two_sent (omega arith, (omega arith, tt)))

arrives :
    0 ∷ 0 ∷ 0 ∷ 2 ∷ 7 ∷ [] ++ 8 ∷ 0 ∷ 0 ∷ 0 ∷ 1 ∷ 9 ∷ []
    ≡ (send_all slow (connected []) calls).0.wire
unfolding send_all send_frame write_frame write_exact_until write_loop write_some send_count
    write_payload length_bytes or_interrupt
arrives = refl

read_frames-IsFront_example :
    IsFront
      (read_frames failing
        (length (send_all slow (connected []) calls).1)
        (connected (0 ∷ 0 ∷ 0 ∷ 2 ∷ 7 ∷ [])))
      (send_all slow (connected []) calls).1
read_frames-IsFront_example =
    read_frames-IsFront slow failing calls [] (0 ∷ 0 ∷ 0 ∷ 2 ∷ 7 ∷ []) (8 ∷ 0 ∷ 0 ∷ 0 ∷ 1 ∷ 9 ∷ [])
      arrives (rw two_sent (omega arith, (omega arith, tt)))
