-- ===== src/Node/Service/Unfinished/Examples.antt =====
-- service.rs over an engine that applies each write and then fails.
use ferriskv.Prelude.{refl, [], ◌∷◌, slice}
use ferriskv.Prelude.Bytes.{bytes_eq}
use ferriskv.Prelude.Words.{to_le_bytes, to_be_bytes}
use ferriskv.Prelude.Assoc.{lookup, lookup-insert}
use ferriskv.Core.Key.{decode}
use ferriskv.Core.Utf8.{is_utf8}
use ferriskv.Core.Value
use ferriskv.Core.Storage
use ferriskv.Core.Storage.{fjall}
use ferriskv.Core.Storage.Laws.Engine.{contents}
use ferriskv.Core.Storage.Laws.Faulty.{faulty}
use ferriskv.Node.Wal.{frame}
use ferriskv.Node.Wal.Writer.{write_all}
use ferriskv.Node.Wal.Segment as Segment
use ferriskv.Node.Quota
use ferriskv.Node.Quota.{entry_bytes}
use ferriskv.Node.Ttl
use ferriskv.Node.Watch
use ferriskv.Node.Watch.Channel.{broadcast}
use ferriskv.Node.Throttle
use ferriskv.Node.Throttle.Window.{governor}
use ferriskv.Node.Service.{NodeService, put_with_ttl, plan_accounting, log, store, expiry}
use ferriskv.Node.Service.Fixture.{no_crc, disk, key, stored_value, quotas, distinct}
use ferriskv.Node.Service.Unfinished.{IsHalfPut}

abbrev node : NodeService faulty broadcast governor
node = record {
  wal_rotate_bytes = 4096;
  storage = fjall ((key, stored_value) ∷ [], distinct);
  wal = record { writer = record { file = []; buffer = [] }; next_seq = 0; segment_bytes = 14 };
  ttl_index = Ttl.empty;
  watch = Watch.new 16;
  quotas = quotas;
  throttle = Throttle.new 0;
}

-- The exception of a put does occur: the value is stored, and its expiry is not registered.
half_put :
    IsHalfPut contents node key
      (Value.encode (b'w' ∷ []) (expiry 50 10))
      (put_with_ttl no_crc disk 50 key (b'w' ∷ []) 10 node)
unfolding put_with_ttl plan_accounting decode is_utf8 slice Storage.get lookup bytes_eq
    Value.payload_len Quota.check_write entry_bytes log Segment.append write_all frame to_le_bytes
    to_be_bytes Value.encode store Storage.put
half_put = (
  _,
  refl,
  refl,
  λ j. lookup-insert key j (Value.encode (b'w' ∷ []) (expiry 50 10)) ((key, stored_value) ∷ []),
  refl,
  refl,
)
