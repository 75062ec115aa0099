-- ===== src/Net/Connection/Send.antt =====
-- What `SendFrame` leaves on the wire.
use ipad_second_display.Common.{
  ℕ, zero, suc, ◌+◌, ◌≤◌, ◌≡◌, ◌∙◌, sym, ap, refl, Bool, true, false, [], ◌∷◌, ◌++◌, arith, ◌==◌,
  ltb, length, take, drop, append_assoc, append-nil, take-append-drop, Bool-cases, Bytes, inl, inr,
}
use ipad_second_display.Net.Connection.{
  Environment, Connection, length_bytes, interrupt, send_count, write_some, write_loop,
  write_exact_until, or_interrupt, write_payload, write_frame, send_frame,
}

-- The whole frame, as the wire has it.
abbrev pub encode : Bytes → Bytes
encode payload = length_bytes (length payload) ++ payload

nil_of_length : (xs : Bytes) → length xs ≡ 0 → xs ≡ []
nil_of_length [] h = refl
nil_of_length (x ∷ xs) h = absurd (omega arith)

-- `written` is what the write added to the wire, the bytes but for those that it `left`: all of them
-- where it succeeded. A write on a stream that was shut down puts none there.
record Wrote (c : Connection) (bytes : Bytes) (r : Bool × Connection) : Type 0 where
  written : Bytes
  left : Bytes
  cut : written ++ left ≡ bytes
  wire : r.1.wire ≡ c.wire ++ written
  whole : r.0 ≡ true → written ≡ bytes
  shut : c.is_shut ≡ true → written ≡ []
  same_open : r.1.is_open ≡ c.is_open
  same_shut : r.1.is_shut ≡ c.is_shut

module _ (env : Environment) where
  write_some_shut :
      (c : Connection) (bytes : Bytes) (deadline : ℕ)
      → c.is_shut ≡ true
      → (write_some env c bytes deadline).0 ≡ 0
  unfolding write_some send_count
  write_some_shut c bytes deadline h = ground arith

  -- A round appends as many bytes as it reports.
  write_some_wire :
      (c : Connection) (bytes : Bytes) (deadline : ℕ)
      → let r = write_some env c bytes deadline in
        (r.1.wire ≡ c.wire ++ take r.0 bytes)
        × (r.1.is_open ≡ c.is_open)
        × (r.1.is_shut ≡ c.is_shut)
        × (r.0 ≤ length bytes)
  unfolding write_some send_count
  write_some_wire c bytes deadline =
      (ground (arith, append-nil c.wire), ground arith, ground arith, ground arith)

  write_loop-Wrote :
      (fuel : ℕ) (c : Connection) (bytes : Bytes) (deadline : ℕ)
      → Wrote c bytes (write_loop env fuel c bytes deadline)
  unfolding write_loop
  write_loop-Wrote zero c bytes deadline = record {
    written = [];
    left = bytes;
    cut = refl;
    wire = sym (append-nil c.wire);
    whole = λ e. sym (nil_of_length bytes (ground arith));
    shut = λ e. refl;
    same_open = refl;
    same_shut = refl;
  }
  write_loop-Wrote (suc fuel) c [] deadline = record {
    written = [];
    left = [];
    cut = refl;
    wire = sym (append-nil c.wire);
    whole = λ e. refl;
    shut = λ e. refl;
    same_open = refl;
    same_shut = refl;
  }
  write_loop-Wrote (suc fuel) c (b ∷ bytes) deadline =
      let r = write_some env c (b ∷ bytes) deadline in
      let (appended, same_open, same_shut, bound) = write_some_wire c (b ∷ bytes) deadline in
      elim (Bool-cases (r.0 == 0)) [
        | inl fails ↦ rw fails (record {
          written = take r.0 (b ∷ bytes);
          left = drop r.0 (b ∷ bytes);
          cut = take-append-drop r.0 (b ∷ bytes);
          wire = appended;
          whole = λ e. cc;
          shut = λ e. let z : r.0 ≡ 0 = ground arith in rw z refl;
          same_open = same_open;
          same_shut = same_shut;
        })
        | inr sends ↦
            let ih = write_loop-Wrote fuel r.1 (drop r.0 (b ∷ bytes)) deadline in
            rw sends (record {
              written = take r.0 (b ∷ bytes) ++ ih.written;
              left = ih.left;
              cut =
                  append_assoc (take r.0 (b ∷ bytes)) ih.written ih.left
                  ∙ ap (λ w. take r.0 (b ∷ bytes) ++ w) ih.cut
                  ∙ take-append-drop r.0 (b ∷ bytes);
              wire = ih.wire ∙ ap (λ w. w ++ ih.written) appended ∙ append_assoc c.wire _ _;
              whole = λ e.
                  ap (λ w. take r.0 (b ∷ bytes) ++ w) (ih.whole e)
                  ∙ take-append-drop r.0 (b ∷ bytes);
              shut = λ e. absurd (ground (arith, write_some_shut c (b ∷ bytes) deadline e));
              same_open = ih.same_open ∙ same_open;
              same_shut = ih.same_shut ∙ same_shut;
            })
      ]

-- What `SendFrame` did. `added` went to the wire, the frame but for what it `left`: the whole frame
-- where it succeeded. Where it failed and
-- the stream is not shut down, nothing did. A stream that was shut down stays as it is.
pub record Sent (c : Connection) (payload : Bytes) (r : Bool × Connection) : Type 0 where
  pub added : Bytes
  pub left : Bytes
  pub cut : added ++ left ≡ encode payload
  pub wire : r.1.wire ≡ c.wire ++ added
  pub whole : r.0 ≡ true → (added ≡ encode payload) × (r.1.is_shut ≡ c.is_shut)
  pub poisoned : r.0 ≡ false → r.1.is_shut ≡ false → added ≡ []
  pub silent : c.is_shut ≡ true → (added ≡ []) × (r.0 ≡ false) × (r.1.is_shut ≡ true)
  pub same_open : r.1.is_open ≡ c.is_open

Sent-refused : (c : Connection) (payload : Bytes) → Sent c payload (false, c)
Sent-refused c payload = record {
  added = [];
  left = encode payload;
  cut = refl;
  wire = sym (append-nil c.wire);
  whole = λ e. cc;
  poisoned = λ e s. refl;
  silent = λ s. (refl, refl, s);
  same_open = refl;
}

-- The connection as the length prefix left it, after a failure.
prefix_failed :
    (c d : Connection) (payload : Bytes)
    → c.is_open ≡ true
    → Wrote c (length_bytes (length payload)) (false, d)
    → Sent c payload (false, interrupt d)
unfolding interrupt
prefix_failed c d payload o w = record {
  added = w.written;
  left = w.left ++ payload;
  cut = sym (append_assoc w.written w.left payload) ∙ ap (λ b. b ++ payload) w.cut;
  wire = ground (arith, w.wire);
  whole = λ e. cc;
  poisoned = λ e s. ground (arith, w.same_open);
  silent = λ s. (w.shut s, refl, ground (arith, w.same_open));
  same_open = ground (arith, w.same_open);
}

prefix_ne_nil : (n : ℕ) (written : Bytes) → written ≡ length_bytes n → written ≡ [] → ⊥
unfolding length_bytes
prefix_ne_nil n written p q = cc

-- All of the prefix, and a part of the payload.
cut_frame :
    (payload prefix written left : Bytes)
    → prefix ≡ length_bytes (length payload)
    → written ++ left ≡ payload
    → (prefix ++ written) ++ left ≡ encode payload
cut_frame payload prefix written left p q =
    append_assoc prefix written left ∙ ap (◌++◌ prefix) q ∙ ap (λ b. b ++ payload) p

-- The payload after a complete prefix; `r` is what its write returned.
payload_written :
    (c d : Connection) (payload : Bytes) (r : Bool × Connection)
    → c.is_open ≡ true
    → Wrote c (length_bytes (length payload)) (true, d)
    → Wrote d payload r
    → Sent c payload (or_interrupt r)
unfolding interrupt or_interrupt
payload_written c d payload (true, e) o w x = record {
  added = w.written ++ x.written;
  left = x.left;
  cut = cut_frame payload w.written x.written x.left (w.whole refl) x.cut;
  wire = x.wire ∙ ap (λ b. b ++ x.written) w.wire ∙ append_assoc c.wire _ _;
  whole = λ t. (rw (w.whole refl, x.whole refl) refl, x.same_shut ∙ w.same_shut);
  poisoned = λ t. cc;
  silent = λ s. absurd (prefix_ne_nil (length payload) w.written (w.whole refl) (w.shut s));
  same_open = x.same_open ∙ w.same_open;
}
payload_written c d payload (false, e) o w x =
    let joined : e.wire ≡ c.wire ++ (w.written ++ x.written) =
      x.wire ∙ ap (λ b. b ++ x.written) w.wire ∙ append_assoc c.wire _ _ in
    record {
      added = w.written ++ x.written;
      left = x.left;
      cut = cut_frame payload w.written x.written x.left (w.whole refl) x.cut;
      wire = ground (arith, joined);
      whole = λ t. cc;
      poisoned = λ t s. ground (arith, x.same_open, w.same_open);
      silent = λ s. absurd (prefix_ne_nil (length payload) w.written (w.whole refl) (w.shut s));
      same_open = ground (arith, x.same_open, w.same_open);
    }

module _ (env : Environment) where
  after_prefix :
      (c : Connection) (payload : Bytes) (deadline : ℕ) (r : Bool × Connection)
      → c.is_open ≡ true
      → Wrote c (length_bytes (length payload)) r
      → Sent c payload (write_payload env payload deadline (or_interrupt r))
  unfolding or_interrupt write_payload
  after_prefix c payload deadline (false, d) o w = prefix_failed c d payload o w
  after_prefix c payload deadline (true, d) o w = elim (Bool-cases (ltb 0 (length payload))) [
    | inl some_bytes ↦ rw some_bytes (
        payload_written c d payload (write_exact_until env d payload deadline) o w
          (unfold write_exact_until in write_loop-Wrote env (length payload) d payload deadline))
    | inr no_bytes ↦
        let z = nil_of_length payload (ground arith) in
        rw no_bytes (
          payload_written c d payload (true, d) o w
            (record {
              written = [];
              left = [];
              cut = sym z;
              wire = sym (append-nil d.wire);
              whole = λ e. sym z;
              shut = λ e. refl;
              same_open = refl;
              same_shut = refl;
            }))
  ]

  Sent-reading :
      (c : Connection) (payload : Bytes) (r : Bool × Connection)
      → Sent (record c { readings = suc c.readings }) payload r
      → Sent c payload r
  Sent-reading c payload r s = record {
    added = s.added;
    left = s.left;
    cut = s.cut;
    wire = s.wire;
    whole = s.whole;
    poisoned = s.poisoned;
    silent = s.silent;
    same_open = s.same_open;
  }

  write_frame-Sent :
      (c : Connection) (payload : Bytes) (timeout : ℕ)
      → c.is_open ≡ true
      → Sent c payload (write_frame env c payload timeout)
  unfolding write_frame write_exact_until
  write_frame-Sent c payload timeout opened =
      let started = record c { readings = suc c.readings } in
      let deadline = env.clock c.readings + timeout in
      let prefix = length_bytes (length payload) in
      Sent-reading c payload _ (
        after_prefix started payload deadline
          (write_loop env (length prefix) started prefix deadline) opened
          (write_loop-Wrote env (length prefix) started prefix deadline))

  -- Whatever the system does, `SendFrame` puts the front of its frame on the wire. One that succeeds
  -- put the whole frame there; one that
  -- fails put nothing there, or the stream is shut down after it; and on a stream that was shut
  -- down before it fails and puts nothing.
  pub send_frame-Sent :
      (c : Connection) (payload : Bytes) (timeout : ℕ)
      → Sent c payload (send_frame env c payload timeout)
  unfolding send_frame
  send_frame-Sent c payload timeout = elim (Bool-cases c.is_open) [
    | inr closed ↦ simp closed (Sent-refused c payload)
    | inl opened ↦ elim (Bool-cases (timeout == 0)) [
      | inl no_time ↦ simp (opened, no_time) (Sent-refused c payload)
      | inr some_time ↦ simp (opened, some_time) (write_frame-Sent c payload timeout opened)
    ]
  ]
