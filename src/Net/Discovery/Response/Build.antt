-- ===== src/Net/Discovery/Response/Build.antt =====
-- The packets that src/net/Mdns.cpp writes: the query, and the responses of its self-check.
use ipad_second_display.Common.{
  ℕ, ◌/◌, ◌%◌, ◌^◌, [], ◌∷◌, ◌++◌, ◌==◌, if◌then◌else◌, Bytes, codes, length,
}

abbrev pub service : Bytes
service = codes "_opensidecar._tcp.local"

-- `PutUint16`.
abbrev pub put_uint16 : ℕ → Bytes
put_uint16 value = value / 256 % 256 ∷ value % 256 ∷ []

-- The loop of `AppendName`, `label` being what stands before the next dot so far.
unfoldable pub append_labels : Bytes → Bytes → Bytes
append_labels label [] = length label % 256 ∷ (label ++ 0 ∷ [])
append_labels label (c ∷ name) =
    let inside = append_labels (label ++ c ∷ []) name in
    let behind = append_labels [] name in
    if c == b'.' then length label % 256 ∷ (label ++ behind) else inside

-- `AppendName`.
abbrev pub append_name : Bytes → Bytes
append_name name = append_labels [] name

-- `AppendRecord`.
unfoldable pub append_record : Bytes → ℕ → Bytes → ℕ → Bytes
unfolding append_labels
append_record name type payload ttl =
    append_name name
    ++ put_uint16 type
    ++ put_uint16 1
    ++ put_uint16 (ttl / 2 ^ 16)
    ++ put_uint16 (ttl % 2 ^ 16)
    ++ put_uint16 (length payload)
    ++ payload

-- `ResponseHeader`.
abbrev pub response_header : ℕ → Bytes
response_header answers =
    put_uint16 0
    ++ put_uint16 0x8400
    ++ put_uint16 0
    ++ put_uint16 answers
    ++ put_uint16 0
    ++ put_uint16 0

-- `BuildQuery`.
unfoldable pub build_query : Bytes
unfolding append_labels
build_query =
    put_uint16 0
    ++ put_uint16 0
    ++ put_uint16 1
    ++ put_uint16 0
    ++ put_uint16 0
    ++ put_uint16 0
    ++ append_name service
    ++ put_uint16 12
    ++ put_uint16 0x8001

abbrev good_instance : Bytes
good_instance = codes "iPad._opensidecar._tcp.local"

abbrev good_host : Bytes
good_host = codes "iPad-Pro.local"

abbrev good_id : Bytes
good_id = codes "id=5C2B9E14-0000-4A00-B000-1234567890AB"

-- `GoodResponse`.
unfoldable pub good_response : Bytes
unfolding append_record
good_response =
    response_header 4
    ++ append_record service 12 (append_name good_instance) 120
    ++ append_record good_instance 33
        (put_uint16 0 ++ put_uint16 0 ++ put_uint16 9000 ++ append_name good_host) 120
    ++ append_record good_instance 16 (length good_id % 256 ∷ good_id) 120
    ++ append_record good_host 1 (192 ∷ 0 ∷ 2 ∷ 42 ∷ []) 120
