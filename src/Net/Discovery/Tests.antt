-- ===== src/Net/Discovery/Tests.antt =====
-- src/net/Mdns.cpp: one receiver in the cache, and a name with a compression pointer.
use ipad_second_display.Common.{
  ◌+◌, ◌*◌, ◌≡◌, refl, true, false, [], ◌∷◌, some, Bytes, codes, ltb, arith,
}
use ipad_second_display.Net.Discovery.{
  DiscoveryRecord, merge_one, merge, expire, find_by_id, read, malformed, read_name_loop, read_name,
  append_label,
}
use ipad_second_display.Net.Discovery.Cache.{stored, find_by_id-merge_one}
use ipad_second_display.Net.Discovery.Ids.{UniqueIds, merge-UniqueIds}
use ipad_second_display.Net.Discovery.Expiry.{find_by_id-expire-merge_one}

abbrev ipad : DiscoveryRecord
ipad = record {
  id = codes "x1";
  name = codes "iPad";
  address = codes "10.0.0.5";
  addresses = [];
  instance_name = codes "iPad";
  host = codes "iPad.local";
  port = 9000;
  source = codes "mdns";
  ttl_seconds = 120;
  last_seen = 0;
  expires_at = 0;
  online = true;
  goodbye = false;
}

find_by_id-merge_one_example :
    find_by_id (merge_one 10 5 (ipad ∷ []) ipad) (codes "x1")
    ≡ some (stored 10 5 ipad (find_by_id (ipad ∷ []) (codes "x1")))
find_by_id-merge_one_example = find_by_id-merge_one 10 5 (ipad ∷ []) ipad refl refl

find_by_id-expire-merge_one_example :
    find_by_id (expire (merge_one 10 5 [] ipad) 2000) (codes "x1")
    ≡ some (record (stored 10 5 ipad (find_by_id [] (codes "x1"))) {
      online = ltb 2000 (5 + 120 * 10);
    })
find_by_id-expire-merge_one_example =
    find_by_id-expire-merge_one 10 5 2000 [] ipad refl refl (omega arith)

merge-UniqueIds_example : UniqueIds (merge 10 [] (ipad ∷ ipad ∷ []) 5)
merge-UniqueIds_example = merge-UniqueIds 10 5 (ipad ∷ ipad ∷ []) [] tt

-- The name `b` with a pointer to `a` at offset 0, and a pointer to itself.
abbrev packet : Bytes
packet = 1 ∷ 97 ∷ 0 ∷ 1 ∷ 98 ∷ 192 ∷ 0 ∷ 192 ∷ 7 ∷ []

follows_pointer : read_name packet 3 ≡ read 7 (codes "b.a")
unfolding read_name read_name_loop append_label
follows_pointer = refl

refuses_pointer_loop : read_name packet 7 ≡ malformed
unfolding read_name read_name_loop
refuses_pointer_loop = refl
