-- ===== src/Node/Grpc.antt =====
-- crates/ferriskv-node/src/grpc.rs: the keys that a handler builds. The translation of an error to a
-- gRPC status, `to_status`, is left out.
pub mod Bounds
pub mod Checks
pub mod Handlers
pub mod Batch
pub mod Rules
pub mod Confined
pub mod Isolation
pub mod Calls
pub mod ReadBack
pub mod Chunks
pub mod Listing
pub mod WatchStream
mod Examples
mod CallExamples
use ferriskv.Prelude.{ℕ, ◌+◌, [], ◌∷◌, ◌++◌, ◌==◌, if◌then◌else◌, length}
use ferriskv.Prelude.Bytes.{Bytes}
use ferriskv.Core.Error.{Result, ok, ◌>>=◌}
use ferriskv.Core.Key.{data_space, encode, encode_subspace_prefix}
use mathlib.Core.List.{reverse}

unfoldable pub encode_data_key : Bytes → Bytes → Result Bytes
encode_data_key tenant payload = encode tenant data_space payload

pub record ScanBounds : Type 0 where
  pub start : Bytes
  pub end : Bytes
  pub strip_len : ℕ

-- The loop of `next_prefix_bound`, over the bytes from the last.
unfoldable pub bound_loop : Bytes → Bytes
bound_loop [] = []
bound_loop (last ∷ end) = if last == 255 then bound_loop end else (last + 1) ∷ end

unfoldable pub next_prefix_bound : Bytes → Bytes
unfolding bound_loop
next_prefix_bound prefix = reverse (bound_loop (reverse prefix))

unfoldable pub encode_data_scan_bounds : Bytes → Bytes → Result ScanBounds
unfolding next_prefix_bound
encode_data_scan_bounds tenant user_prefix = do
  sub_prefix ← encode_subspace_prefix tenant data_space
  ok (record {
    start = sub_prefix ++ user_prefix;
    end = next_prefix_bound (sub_prefix ++ user_prefix);
    strip_len = length sub_prefix;
  })
