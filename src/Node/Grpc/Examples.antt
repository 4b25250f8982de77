-- ===== src/Node/Grpc/Examples.antt =====
-- grpc.rs: a scan of the keys of the tenant "a" that start with the byte 255.
use ferriskv.Prelude.{◌≡◌, ◌↔◌, refl, true, drop, not, ◌&&◌, [], ◌∷◌, arith}
use ferriskv.Prelude.Bytes.{Bytes, bytes_lt}
use ferriskv.Core.Error.{ok}
use ferriskv.Core.Key.{encode, encode_subspace_prefix}
use ferriskv.Node.Grpc.{ScanBounds, encode_data_key, encode_data_scan_bounds}
use ferriskv.Node.Grpc.Bounds.Selected.{encode_data_scan_bounds_lem}

abbrev bounds : ScanBounds
bounds = record { start = 1 ∷ b'a' ∷ 1 ∷ 255 ∷ []; end = 1 ∷ b'a' ∷ 2 ∷ []; strip_len = 3 }

abbrev key : Bytes
key = 1 ∷ b'a' ∷ 1 ∷ 255 ∷ 7 ∷ []

bounded : encode_data_scan_bounds (b'a' ∷ []) (255 ∷ []) ≡ ok bounds
unfolding encode_data_scan_bounds encode_subspace_prefix encode
bounded = refl

encode_data_scan_bounds_lem_example :
    ((not (bytes_lt key bounds.start) && bytes_lt key bounds.end) ≡ true)
    ↔ ((p : Bytes) × (encode_data_key (b'a' ∷ []) (255 ∷ p) ≡ ok key) × (drop 3 key ≡ 255 ∷ p))
encode_data_scan_bounds_lem_example =
    encode_data_scan_bounds_lem (b'a' ∷ []) (255 ∷ []) key bounds (omega arith) (omega arith)
      (omega arith) bounded
