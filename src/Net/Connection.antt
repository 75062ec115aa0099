-- ===== src/Net/Connection.antt =====
-- src/net/Connection.h and Connection.cpp: framing over a socket.
-- The operating system's socket and clock are the section's parameter, in the form of their
-- answers: call number `i` of each kind gives what the `i`-th entry says. Documented behaviour is
-- built in where the code relies on it: `recv` gives no more than the stream has and nothing at its
-- end; `send` takes at most what it is given; after `shutdown` neither moves a byte.
-- `sendMutex_` keeps the frames of two senders apart. `Interrupt` takes only `closeMutex_`, so that
-- another thread's `Interrupt` can fall into a call: there it shows as a `recv` or `send` that fails,
-- and what it sets is seen in the next call.
pub mod Loading
pub mod Receive
pub mod Send
pub mod Wire
pub mod Delivery
mod Tests
use ipad_second_display.Common.{
  ℕ, zero, suc, ◌+◌, ◌-◌, ◌*◌, ◌/◌, ◌%◌, ◌^◌, min, max, Bool, true, false, not, List, [], ◌∷◌, ◌++◌,
  Option, none, some, ◌==◌, leb, ltb, length, take, drop, if◌then◌else◌, Bytes,
}

pub record Environment : Type 0 where
  -- The most that `recv` number `i` gives; 0 is `SOCKET_ERROR`.
  pub received : ℕ → ℕ
  -- How much `send` of round `i` takes; 0 is a failure.
  pub accepted : ℕ → ℕ
  -- Whether `setsockopt` of round `i` takes this time limit.
  pub sets_timeout : ℕ → ℕ → Bool
  -- Reading number `i` of the clock, in milliseconds.
  pub clock : ℕ → ℕ

-- `is_open` says that the handle is not `INVALID_SOCKET`, `is_shut` that it was shut down.
-- `inbound` is what the peer still sends before its end of the stream, `wire` what was sent.
pub record Connection : Type 0 where
  pub is_open : Bool
  pub is_shut : Bool
  pub inbound : Bytes
  pub receives : ℕ
  pub wire : Bytes
  pub rounds : ℕ
  pub readings : ℕ

abbrev pub connected : Bytes → Connection
connected inbound = record {
  is_open = true;
  is_shut = false;
  inbound = inbound;
  receives = 0;
  wire = [];
  rounds = 0;
  readings = 0;
}

abbrev pub max_inbound_frame : ℕ
max_inbound_frame = 2 ^ 20

abbrev pub int_max : ℕ
int_max = 2 ^ 31 - 1

abbrev pub dword_max : ℕ
dword_max = 2 ^ 32 - 1

-- The four bytes of a length, the highest first.
unfoldable pub length_bytes : ℕ → Bytes
length_bytes n = n / 2 ^ 24 % 256 ∷ n / 2 ^ 16 % 256 ∷ n / 2 ^ 8 % 256 ∷ n % 256 ∷ []

-- The shifted bytes have no bit in common, so `|` adds them.
unfoldable pub length_of_bytes : Bytes → ℕ
length_of_bytes (a ∷ b ∷ c ∷ d ∷ _) = a * 2 ^ 24 + b * 2 ^ 16 + c * 2 ^ 8 + d
length_of_bytes _ = 0

pub interrupt : Connection → Connection
interrupt c = if c.is_open then record c { is_shut = true } else c

pub close : Connection → Connection
close c = if c.is_open then record c { is_shut = true; is_open = false } else c

-- What follows a write: a failure poisons the stream.
pub or_interrupt : Bool × Connection → Bool × Connection
or_interrupt (true, c) = (true, c)
or_interrupt (false, c) = (false, interrupt c)

module _ (env : Environment) where
  -- The bytes that `recv` gives; none is its failure, or the end of the stream.
  pub recv : Connection → ℕ → Bytes × Connection
  recv c size =
      let n =
        if c.is_shut then 0 else min size (min (env.received c.receives) (length c.inbound)) in
      (take n c.inbound, record c { inbound = drop n c.inbound; receives = suc c.receives })

  -- The loop of `ReadExact`; `wanted` is `size - total`, and `got` the buffer's first bytes.
  pub read_loop : ℕ → ℕ → Bytes → Connection → Option Bytes × Connection
  read_loop zero wanted got c = (if wanted == 0 then some got else none, c)
  read_loop (suc fuel) wanted got c =
      let (chunk, c') = recv c wanted in
      let rest = read_loop fuel (wanted - length chunk) (got ++ chunk) c' in
      if wanted == 0
      then (some got, c)
      else if not c.is_open
      then (none, c)
      else if length chunk == 0
      then (none, c')
      else rest

  -- A round that gets no byte is the last, so `size` rounds are enough.
  pub read_exact : Connection → ℕ → Option Bytes × Connection
  read_exact c size = read_loop size size [] c

  pub read_payload : ℕ → Connection → Option Bytes × Connection
  read_payload n c =
      if ltb max_inbound_frame n
      then (none, c)
      else if ltb 0 n
      then read_exact c n
      else (some [], c)

  pub after_length : Option Bytes × Connection → Option Bytes × Connection
  after_length (none, c) = (none, c)
  after_length (some prefix, c) = read_payload (length_of_bytes prefix) c

  pub read_frame : Connection → Option Bytes × Connection
  read_frame c = if not c.is_open then (none, c) else after_length (read_exact c 4)

  -- How many bytes `send` takes of this many.
  pub send_count : Connection → ℕ → ℕ
  send_count c chunk = if c.is_shut then 0 else min chunk (env.accepted c.rounds)

  -- One round of `WriteExactUntil`, with the number of bytes sent: 0 where it returns false.
  pub write_some : Connection → Bytes → ℕ → ℕ × Connection
  write_some c bytes deadline =
      let now = env.clock c.readings in
      let timeout = max 1 (min (deadline - now) dword_max) in
      let n = send_count c (min (length bytes) int_max) in
      let timed = record c { readings = suc c.readings; rounds = suc c.rounds } in
      if not c.is_open
      then (0, c)
      else if leb deadline now
      then (0, timed)
      else if not (env.sets_timeout c.rounds timeout)
      then (0, timed)
      else (n, record timed { wire = c.wire ++ take n bytes })

  -- The loop over the bytes that are left.
  pub write_loop : ℕ → Connection → Bytes → ℕ → Bool × Connection
  write_loop zero c bytes deadline = (length bytes == 0, c)
  write_loop (suc fuel) c [] deadline = (true, c)
  write_loop (suc fuel) c (b ∷ bytes) deadline =
      let (n, c') = write_some c (b ∷ bytes) deadline in
      let rest = write_loop fuel c' (drop n (b ∷ bytes)) deadline in
      if n == 0 then (false, c') else rest

  pub write_exact_until : Connection → Bytes → ℕ → Bool × Connection
  write_exact_until c bytes deadline = write_loop (length bytes) c bytes deadline

  pub write_payload : Bytes → ℕ → Bool × Connection → Bool × Connection
  write_payload bytes deadline (true, c) =
      if ltb 0 (length bytes) then or_interrupt (write_exact_until c bytes deadline) else (true, c)
  write_payload bytes deadline (false, c) = (false, c)

  -- The prefix and the payload, under one deadline.
  pub write_frame : Connection → Bytes → ℕ → Bool × Connection
  write_frame c bytes timeout =
      let deadline = env.clock c.readings + timeout in
      let started = record c { readings = suc c.readings } in
      write_payload bytes deadline
        (or_interrupt (write_exact_until started (length_bytes (length bytes)) deadline))

  -- `size` is the number of the bytes. A time limit that is not positive is 0 here.
  pub send_frame : Connection → Bytes → ℕ → Bool × Connection
  send_frame c bytes timeout =
      if not c.is_open
      then (false, c)
      else if timeout == 0
      then (false, c)
      else write_frame c bytes timeout
