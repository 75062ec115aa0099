-- ===== src/Net/Discovery/Response/Bounds.antt =====
-- The walk of `ParseResponse` in src/net/Mdns.cpp over a packet, against the end of the packet.
use ipad_second_display.Common.{
  ℕ, zero, suc, ◌+◌, ◌≤◌, ◌≡◌, refl, inl, inr, Bool, true, false, List, [], some, ◌==◌, ltb,
  if◌then◌else◌, Bytes, length, Bool-cases, arith,
}
use ipad_second_display.Net.Discovery.{
  DiscoveryRecord, NameResult, read, malformed, outside, out_of_fuel, read_name,
}
use ipad_second_display.Net.Discovery.Names.{Ends, read_name-Ends}
use ipad_second_display.Net.Discovery.Response.{
  Response, Step, go, returns, stuck, ◌>>=◌, read_uint16, read_uint32, read_bytes, with_room,
  skip_questions, ptr_record, srv_host, srv_record, txt_loop, txt_record, address_record, old_id,
}
use ipad_second_display.Net.Discovery.Response.Packet.{
  Ntop, Walk, finished, cut_short, lost, continue_walk, found_of, handle_record, read_record,
  read_records, after_questions, read_counts, after_counts, parse_response,
}
use ipad_second_display.Net.Discovery.Response.Steps.{
  Safe, Anything, bind-Safe, read_uint16-Safe, read_uint32-Safe, read_bytes-Safe, with_room-Safe,
  skip_questions-Safe, txt_loop-Safe,
}

ptr_record-Safe :
    (packet : Bytes) (pos ttl : ℕ) (s : Response) (r : NameResult)
    → Ends pos (length packet) r
    → Safe Anything (ptr_record ttl s r)
ptr_record-Safe packet pos ttl s (read stop name) h = tt
ptr_record-Safe packet pos ttl s malformed h = tt
ptr_record-Safe packet pos ttl s outside h = h
ptr_record-Safe packet pos ttl s out_of_fuel h = h

srv_host-Safe :
    (packet : Bytes) (pos : ℕ) (name : Bytes) (s : Response) (r : NameResult)
    → Ends pos (length packet) r
    → Safe Anything (srv_host name s r)
srv_host-Safe packet pos name s (read stop host) h = tt
srv_host-Safe packet pos name s malformed h = tt
srv_host-Safe packet pos name s outside h = h
srv_host-Safe packet pos name s out_of_fuel h = h

srv_record-Safe :
    (packet name : Bytes) (ttl start size : ℕ) (s : Response)
    → start + size ≤ length packet
    → Safe Anything (srv_record packet name ttl start size s)
unfolding srv_record
srv_record-Safe packet name ttl start size s h = elim (Bool-cases (ltb size 7)) [
  | inl short ↦ rw short tt
  | inr long ↦ rw long (
      bind-Safe Anything Anything (read_uint16 packet (start + 4)) _
        (read_uint16-Safe packet (start + 4) (ground (arith, long)))
        (λ port u.
          srv_host-Safe packet (start + 6) name _ (read_name packet (start + 6))
            (read_name-Ends packet (start + 6))))
]

txt_record-Safe :
    (packet name : Bytes) (ttl start size : ℕ) (s : Response)
    → start + size ≤ length packet
    → Safe Anything (txt_record packet name ttl start size s)
unfolding txt_record
txt_record-Safe packet name ttl start size s h =
    bind-Safe Anything Anything (txt_loop (suc size) packet start (start + size) (old_id name s)) _
      (txt_loop-Safe (suc size) packet start (start + size) (old_id name s) h (omega arith))
      (λ id u. tt)

address_record-Safe :
    (ntop : Bytes → Bytes) (count : ℕ) (packet name : Bytes) (ttl start size : ℕ) (s : Response)
    → start + size ≤ length packet
    → Safe Anything (address_record ntop count packet name ttl start size s)
unfolding address_record
address_record-Safe ntop count packet name ttl start size s h = elim (Bool-cases (size == count)) [
  | inr other ↦ rw other tt
  | inl same ↦ rw same (
      bind-Safe Anything Anything (read_bytes packet start count) _
        (read_bytes-Safe packet start count (ground (arith, same))) (λ address u. tt))
]

if-Safe {ℓ} :
    {A : Type ℓ} (P : A → Type 0) (b : Bool) (r s : Step A)
    → Safe P r
    → Safe P s
    → Safe P (if b then r else s)
if-Safe P true r s h k = h
if-Safe P false r s h k = k

module _ (ntop : Ntop) where
  handle_record-Safe :
      (packet name : Bytes) (type ttl start size : ℕ) (s : Response)
      → start + size ≤ length packet
      → Safe Anything (handle_record ntop packet name type ttl start size s)
  unfolding handle_record
  handle_record-Safe packet name type ttl start size s h =
      if-Safe Anything (type == 12) _ _
        (ptr_record-Safe packet start ttl s (read_name packet start) (read_name-Ends packet start))
        (if-Safe Anything (type == 33) _ _ (srv_record-Safe packet name ttl start size s h) (
          if-Safe Anything (type == 16) _ _ (txt_record-Safe packet name ttl start size s h) (
            if-Safe Anything (type == 1) _ _
              (address_record-Safe ntop.ipv4 4 packet name ttl start size s h)
              (if-Safe Anything (type == 28) _ (go s)
                (address_record-Safe ntop.ipv6 16 packet name ttl start size s h) tt))))

  payload-Safe :
      (packet name : Bytes) (p type ttl size : ℕ) (s : Response)
      → Safe {A = ℕ × Response} Anything (
          if ltb (length packet) (p + 10 + size)
          then returns
          else (handle_record ntop packet name type ttl (p + 10) size s >>= λ s.
              go (p + 10 + size, s)))
  payload-Safe packet name p type ttl size s =
      elim (Bool-cases (ltb (length packet) (p + 10 + size))) [
        | inl over ↦ rw over tt
        | inr fits ↦ rw fits (
            bind-Safe Anything Anything (handle_record ntop packet name type ttl (p + 10) size s) _
              (handle_record-Safe packet name type ttl (p + 10) size s (ground (arith, fits)))
              (λ s u. tt))
      ]

  read_record-Safe :
      (packet : Bytes) (pos : ℕ) (s : Response) → Safe Anything (read_record ntop packet pos s)
  unfolding read_record
  read_record-Safe packet pos s =
      bind-Safe (λ (p, name). p + 10 ≤ length packet) Anything
        (with_room 10 packet (read_name packet pos)) _
        (with_room-Safe 10 packet pos (read_name packet pos) (read_name-Ends packet pos))
        (λ (p, name) room.
          bind-Safe Anything Anything (read_uint16 packet p) _
            (read_uint16-Safe packet p (omega (arith, room)))
            (λ type u.
              bind-Safe Anything Anything (read_uint32 packet (p + 4)) _
                (read_uint32-Safe packet (p + 4) (omega (arith, room)))
                (λ ttl v.
                  bind-Safe Anything Anything (read_uint16 packet (p + 8)) _
                    (read_uint16-Safe packet (p + 8) (omega (arith, room)))
                    (λ size w. payload-Safe packet name p type ttl size s))))

  -- The walk ends with maps.
  abbrev Walks : Walk → Type 0
  Walks (finished s) = Unit
  Walks (cut_short s) = Unit
  Walks lost = ⊥

  continue_walk-Walks :
      (r : Step (ℕ × Response)) (s : Response) (rest : ℕ × Response → Walk)
      → Safe Anything r
      → ((next : ℕ × Response) → Walks (rest next))
      → Walks (continue_walk r s rest)
  continue_walk-Walks (go next) s rest h k = k next
  continue_walk-Walks returns s rest h k = tt
  continue_walk-Walks stuck s rest h k = h

  read_records-Walks :
      (n : ℕ) (packet : Bytes) (pos : ℕ) (s : Response) → Walks (read_records ntop n packet pos s)
  unfolding read_records
  read_records-Walks zero packet pos s = tt
  read_records-Walks (suc n) packet pos s =
      continue_walk-Walks (read_record ntop packet pos s) s _ (read_record-Safe packet pos s)
        (λ (next, s'). read_records-Walks n packet next s')

  after_questions-Walks :
      (records : ℕ) (packet : Bytes) (s : Response) (r : Step ℕ)
      → Safe Anything r
      → Walks (after_questions ntop records packet s r)
  after_questions-Walks records packet s (go pos) h = read_records-Walks records packet pos s
  after_questions-Walks records packet s returns h = tt
  after_questions-Walks records packet s stuck h = h

  after_counts-Walks :
      (packet : Bytes) (s : Response) (r : Step (ℕ × ℕ))
      → Safe Anything r
      → Walks (after_counts ntop packet s r)
  after_counts-Walks packet s (go (questions, records)) h =
      after_questions-Walks records packet s (skip_questions questions packet 12)
        (skip_questions-Safe questions packet 12)
  after_counts-Walks packet s returns h = tt
  after_counts-Walks packet s stuck h = h

  read_counts-Safe : (packet : Bytes) → 12 ≤ length packet → Safe Anything (read_counts ntop packet)
  read_counts-Safe packet h =
      bind-Safe Anything Anything (read_uint16 packet 4) _ (read_uint16-Safe packet 4 (omega arith))
        (λ q u.
          bind-Safe Anything Anything (read_uint16 packet 6) _
            (read_uint16-Safe packet 6 (omega arith))
            (λ a v.
              bind-Safe Anything Anything (read_uint16 packet 8) _
                (read_uint16-Safe packet 8 (omega arith))
                (λ n w.
                  bind-Safe Anything Anything (read_uint16 packet 10) _
                    (read_uint16-Safe packet 10 (omega arith)) (λ r x. tt))))

  found_of-Walks :
      (w : Walk) → Walks w → (found : List (Bytes × DiscoveryRecord)) × (found_of w ≡ some found)
  found_of-Walks (finished s) h = (_, refl)
  found_of-Walks (cut_short s) h = (_, refl)
  found_of-Walks lost h = absurd h

  -- Whatever packet arrives, `ParseResponse` comes to an end with a map of receivers: none of its loops and branches reads outside of the packet.
  pub parse_response-safe :
      (packet : Bytes) (found : List (Bytes × DiscoveryRecord))
      → (found' : List (Bytes × DiscoveryRecord)) × (parse_response ntop packet found ≡ some found')
  unfolding parse_response
  parse_response-safe packet found = elim (Bool-cases (ltb (length packet) 12)) [
    | inl short ↦ (found, rw short refl)
    | inr long ↦
        let s : Response = record { found = found; hosts = [] } in
        let (found', e) = found_of-Walks (after_counts ntop packet s (read_counts ntop packet)) (
          after_counts-Walks packet s (read_counts ntop packet)
            (read_counts-Safe packet (ground (arith, long)))) in
        (found', rw long e)
  ]
