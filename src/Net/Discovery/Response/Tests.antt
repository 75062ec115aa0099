-- ===== src/Net/Discovery/Response/Tests.antt =====
-- The self-check's packets of src/net/Mdns.cpp.
use ipad_second_display.Common.{
  ◌+◌, ◌≡◌, refl, arith, List, [], ◌∷◌, ◌++◌, some, Bytes, codes, length, bytes_eq,
}
use ipad_second_display.Common.Text.{starts_with}
use ipad_second_display.Net.Discovery.{
  DiscoveryRecord, read, read_name, read_name_loop, append_label,
}
use ipad_second_display.Net.Discovery.Response.{
  new_record, bytes_less, alter, lookup, skip_questions, before_dot, srv_record, txt_loop,
  txt_record, address_record,
}
use ipad_second_display.Net.Discovery.Response.Packet.{
  Ntop, has_colon, first_ipv4, match_hosts, handle_record, read_record, read_records,
  parse_response,
}
use ipad_second_display.Net.Discovery.Response.Bounds.{parse_response-safe}
use ipad_second_display.Net.Discovery.Response.Build.{
  append_labels, append_name, append_record, response_header, good_response,
}
use ipad_second_display.Net.Discovery.Response.Names.{dotted, read_name-append_name}

-- The bytes of an address stand for its text.
abbrev raw : Ntop
raw = record { ipv4 = λ address. address; ipv6 = λ address. b':' ∷ address }

good_lem :
    parse_response raw good_response []
    ≡ some (
        (
          codes "iPad._opensidecar._tcp.local",
          record new_record {
            id = codes "5C2B9E14-0000-4A00-B000-1234567890AB";
            name = codes "iPad";
            instance_name = codes "iPad";
            host = codes "iPad-Pro.local";
            port = 9000;
            address = 192 ∷ 0 ∷ 2 ∷ 42 ∷ [];
            addresses = (192 ∷ 0 ∷ 2 ∷ 42 ∷ []) ∷ [];
          },
        )
        ∷ [])
unfolding parse_response good_response append_record append_labels read_records read_record
    handle_record read_name read_name_loop append_label skip_questions srv_record txt_record
    txt_loop address_record alter lookup bytes_less bytes_eq before_dot starts_with match_hosts
    first_ipv4 has_colon
good_lem = refl

-- A text record whose string claims more than the record holds.
abbrev overlong : Bytes
overlong =
    response_header 1 ++ append_record (codes "iPad") 16 (200 ∷ b'i' ∷ b'd' ∷ b'=' ∷ b'x' ∷ []) 120

parse_response-safe_example :
    (found : List (Bytes × DiscoveryRecord)) × (parse_response raw overlong [] ≡ some found)
parse_response-safe_example = parse_response-safe raw overlong []

abbrev labels : List Bytes
labels = codes "_opensidecar" ∷ codes "_tcp" ∷ codes "local" ∷ []

read_name-append_name_example :
    read_name
      (response_header 1 ++ (append_name (codes "iPad" ++ dotted labels) ++ (0 ∷ 16 ∷ [])))
      12
    ≡ read
        (12 + length (append_name (codes "iPad" ++ dotted labels)))
        (codes "iPad" ++ dotted labels)
read_name-append_name_example =
    read_name-append_name (response_header 1) (0 ∷ 16 ∷ []) (codes "iPad") labels (ground arith)
