-- ===== src/Node/Service/Covered/Examples.antt =====
-- service.rs at the node of the fixture, whose entry has no expiry.
use ferriskv.Prelude.{ℕ, ◌⊎◌, refl, inl, inr, some, none, [], ◌∷◌, Bool-cases, if◌then◌else◌}
use ferriskv.Prelude.Bytes.{Bytes, bytes_eq}
use ferriskv.Prelude.Assoc.{lookup}
use ferriskv.Core.Value as Value
use ferriskv.Core.Storage.Laws.Engine.{engine-FjallLaws, contents}
use ferriskv.Node.Service.{put_with_ttl, expiry}
use ferriskv.Node.Service.Unfinished.{IsHalfPut}
use ferriskv.Node.Service.Fixture.{no_crc, disk, key, node, distinct}
use ferriskv.Node.Service.Covered.{Expires, Expires-none, IsCovered}
use ferriskv.Node.Service.Covered.Written.{put_with_ttl-IsCovered}

node-IsCovered : IsCovered contents engine-FjallLaws node
unfolding lookup Value.encode
node-IsCovered =
    (distinct, record { ascend = tt; counted = refl }, λ j e h. absurd (no_expiry j e h))
  where
    no_expiry :
        (j : Bytes) (e : ℕ) → ¬ Expires (if bytes_eq key j then some (0 ∷ b'v' ∷ []) else none) e
    no_expiry j e h = elim (Bool-cases (bytes_eq key j)) [
      | inl same ↦ Expires-none (b'v' ∷ []) e (rw same at h)
      | inr other ↦ rw other at h
    ]

put_with_ttl-IsCovered_example :
    let call = put_with_ttl no_crc disk 50 key (b'w' ∷ []) 10 node in
    IsCovered contents engine-FjallLaws call.1
    ⊎ IsHalfPut contents node key (Value.encode (b'w' ∷ []) (expiry 50 10)) call
put_with_ttl-IsCovered_example =
    put_with_ttl-IsCovered contents engine-FjallLaws no_crc disk node node-IsCovered 50 key
      (b'w' ∷ []) 10
