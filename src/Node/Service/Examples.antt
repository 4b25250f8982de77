-- ===== src/Node/Service/Examples.antt =====
-- service.rs at the node of the fixture.
use ferriskv.Prelude.{◌≡◌, ◌⊎◌, refl, Option, some, none, [], ◌∷◌, if◌then◌else◌, arith, slice}
use ferriskv.Prelude.Bytes.{Bytes, bytes_eq, starts_with}
use ferriskv.Prelude.Assoc.{Map, lookup, insert}
use ferriskv.Prelude.Words.{to_le_bytes, to_be_bytes, from_be_bytes}
use ferriskv.Core.Error.{ok, err, quota_exceeded}
use ferriskv.Core.Key.{decode, encode, data_space}
use ferriskv.Core.Utf8.{is_utf8}
use ferriskv.Core.Value
use ferriskv.Core.Storage
use ferriskv.Core.Storage.{StorageBackend, memory}
use ferriskv.Core.Storage.MemStorage.{sort, select, insert_sorted}
use ferriskv.Core.Storage.Laws.{entries}
use ferriskv.Core.Storage.Laws.Engine.{engine, engine-FjallLaws, contents}
use ferriskv.Node.Wal.{frame}
use ferriskv.Node.Wal.Writer.{write_all}
use ferriskv.Node.Wal.Segment as Segment
use ferriskv.Node.Quota
use ferriskv.Node.Quota.{used_bytes, entry_bytes, QuotaStore, Json}
use ferriskv.Node.Watch
use ferriskv.Node.Watch.Channel.{broadcast}
use ferriskv.Node.Throttle.Window.{governor}
use ferriskv.Node.Service.{
  NodeService, put_with_ttl, delete, expiry, plan_accounting, log, store, commit_accounting,
  publish_change, rotate_wal_if_needed,
}
use ferriskv.Core.Value.Agreement.{is_gone}
use ferriskv.Core.Storage.MemStorage.Sorted.{Ascending}
use ferriskv.Node.Service.Reads.{get, scan, filter_scan, scan_answers_get}
use ferriskv.Node.Service.Unfinished.{IsHalfPut, IsHalfDelete}
use ferriskv.Node.Service.ReadBack.{get-put_with_ttl}
use ferriskv.Node.Service.Writes.{IsUsageOf, put_with_ttl-lookup}
use ferriskv.Node.Service.Limits.{AreAllowed, put_with_ttl-AreAllowed}
use ferriskv.Node.Service.Usage.{Exact, put_with_ttl-Exact, delete-Exact}
use ferriskv.Node.Service.Fixture.{
  no_crc, disk, tenant, key, storage, quotas, node, node-Exact, small, distinct,
}

put_with_ttl-Exact_example :
    let call = put_with_ttl no_crc disk 50 key (b'w' ∷ b'x' ∷ []) 10 node in
    Exact contents call.1
    ⊎ IsHalfPut contents node key (Value.encode (b'w' ∷ b'x' ∷ []) (expiry 50 10)) call
put_with_ttl-Exact_example =
    put_with_ttl-Exact contents engine-FjallLaws no_crc disk node node-Exact 50 key
      (b'w' ∷ b'x' ∷ []) 10 (λ t. small t 6 (omega arith))

delete-Exact_example :
    let call = delete no_crc disk key node in
    Exact contents call.1 ⊎ IsHalfDelete contents node key call
delete-Exact_example =
    delete-Exact contents engine-FjallLaws no_crc disk node node-Exact key
      (λ t. omega (arith, small t 0 (omega arith)))

put_refused :
    (put_with_ttl no_crc disk 50 key (b'w' ∷ b'x' ∷ b'y' ∷ b'z' ∷ b'z' ∷ b'z' ∷ []) 10 node).0
    ≡ err (quota_exceeded tenant 7 6)
unfolding put_with_ttl plan_accounting decode is_utf8 slice Storage.get lookup bytes_eq
    Value.payload_len Quota.check_write entry_bytes
put_refused = refl

put_done : (put_with_ttl no_crc disk 50 key (b'w' ∷ []) 10 node).0 ≡ ok tt
unfolding put_with_ttl plan_accounting decode is_utf8 slice Storage.get lookup bytes_eq
    Value.payload_len Quota.check_write entry_bytes log Segment.append write_all frame to_le_bytes
    to_be_bytes Value.encode store Storage.put
put_done = refl

abbrev node_after : NodeService engine broadcast governor
node_after = (put_with_ttl no_crc disk 50 key (b'w' ∷ []) 10 node).1

get_done : get 60 key (put_with_ttl no_crc disk 50 key (b'w' ∷ []) 10 node).1 ≡ ok none
unfolding put_with_ttl plan_accounting decode is_utf8 slice Storage.get lookup bytes_eq
    Value.payload_len Quota.check_write entry_bytes log Segment.append write_all frame to_le_bytes
    to_be_bytes Value.encode store Storage.put commit_accounting publish_change rotate_wal_if_needed
    insert get Quota.apply Value.is_expired Value.decode Storage.is_durable Watch.is_watched
    from_be_bytes
get_done = refl

get-put_with_ttl_example :
    ◌≡◌ {A = Option Bytes} none (if is_gone (expiry 50 10) 60 then none else some (b'w' ∷ []))
get-put_with_ttl_example =
    get-put_with_ttl contents engine-FjallLaws no_crc disk node 50 60 key (b'w' ∷ []) 10 none
      distinct put_done get_done

-- The record of the usage is another key.
decoded : decode key ≡ ok (tenant, data_space, b'k' ∷ [])
unfolding decode is_utf8 slice
decoded = refl

other_key : ¬ IsUsageOf key (1 ∷ b'a' ∷ 0 ∷ [])
unfolding encode
other_key (t, p, held, usage) = cc (held, usage, decoded)

put_with_ttl-lookup_example : lookup (1 ∷ b'a' ∷ 0 ∷ []) (entries contents node_after.storage) ≡ (
    if bytes_eq key (1 ∷ b'a' ∷ 0 ∷ [])
    then some (Value.encode (b'w' ∷ []) (expiry 50 10))
    else lookup (1 ∷ b'a' ∷ 0 ∷ []) (entries contents storage))
put_with_ttl-lookup_example =
    put_with_ttl-lookup contents engine-FjallLaws no_crc disk node distinct 50 key (b'w' ∷ []) 10
      (1 ∷ b'a' ∷ 0 ∷ []) other_key put_done

put_with_ttl-AreAllowed_example :
    AreAllowed quotas (put_with_ttl no_crc disk 50 key (b'w' ∷ []) 10 node).1.quotas
put_with_ttl-AreAllowed_example =
    put_with_ttl-AreAllowed contents engine-FjallLaws no_crc disk node 50 key (b'w' ∷ []) 10
      distinct (λ t. omega (arith, small t 0 (omega arith)))

abbrev listed : Map Bytes
listed = (key, b'v' ∷ []) ∷ []

scan_done : scan 0 (1 ∷ b'a' ∷ []) node ≡ ok listed
unfolding scan Storage.scan filter_scan Value.is_expired Value.decode sort select starts_with
    insert_sorted
scan_done = refl

found : get 0 key node ≡ ok (some (b'v' ∷ []))
unfolding get Storage.get lookup bytes_eq Value.is_expired Value.decode
found = refl

scan_answers_get_example :
    Ascending listed
    × (lookup key listed ≡ (if starts_with key (1 ∷ b'a' ∷ []) then some (b'v' ∷ []) else none))
scan_answers_get_example =
    scan_answers_get contents engine-FjallLaws node distinct 0 (1 ∷ b'a' ∷ []) key listed
      (some (b'v' ∷ [])) scan_done found
