-- ===== src/Core/Key/Examples.antt =====
-- key.rs at concrete keys: the tenants "al" and "bob".
use ferriskv.Prelude.{◌≡◌, ◌↔◌, refl, true, some, ◌&&◌, ◌||◌, [], ◌∷◌, ltb, ◌==◌, arith, slice}
use ferriskv.Prelude.Bytes.{Bytes, starts_with, bytes_lt}
use ferriskv.Core.Error.{ok, err, corrupt, config, empty_tenant}
use ferriskv.Core.Utf8.{is_utf8}
use ferriskv.Core.Key.{
  data_space, stats, to_u8, encode, decode, encode_tenant_prefix, encode_subspace_prefix,
  strip_prefix,
}
use ferriskv.Core.Key.RoundTrip.{decode_iff_encode_key}
use ferriskv.Core.Key.Prefix.{tenant_prefix_isolates, strip_subspace_prefix, encode_order}

abbrev al : Bytes
al = b'a' ∷ b'l' ∷ []

abbrev bob : Bytes
bob = b'b' ∷ b'o' ∷ b'b' ∷ []

abbrev payload : Bytes
payload = b'k' ∷ []

abbrev key : Bytes
key = 2 ∷ b'a' ∷ b'l' ∷ 1 ∷ b'k' ∷ []

encode_key : encode al data_space payload ≡ ok key
unfolding encode
encode_key = refl

decode_forged : decode (0 ∷ 1 ∷ b'p' ∷ []) ≡ err (corrupt "empty tenant")
unfolding decode
decode_forged = refl

decode_cut : decode (3 ∷ b'a' ∷ b'l' ∷ []) ≡ err (corrupt "truncated key")
unfolding decode
decode_cut = refl

decode_subspace : decode (1 ∷ b'a' ∷ 7 ∷ []) ≡ err (corrupt "subspace byte")
unfolding decode is_utf8 slice
decode_subspace = refl

encode_refuses : encode [] data_space payload ≡ err (config empty_tenant)
unfolding encode
encode_refuses = refl

decode_iff_encode_key_example :
    (decode key ≡ ok (al, data_space, b'k' ∷ []))
    ↔ ((encode al data_space payload ≡ ok key) × (is_utf8 al ≡ true))
decode_iff_encode_key_example = decode_iff_encode_key key al data_space payload (omega arith)

tenant_prefix_isolates_example : (starts_with key (3 ∷ bob) ≡ true) ↔ (bob ≡ al)
unfolding encode encode_tenant_prefix
tenant_prefix_isolates_example =
    tenant_prefix_isolates bob al data_space payload (3 ∷ bob) key refl refl

strip_subspace_prefix_example :
    (strip_prefix key (2 ∷ b'a' ∷ b'l' ∷ 1 ∷ []) ≡ some payload)
    ↔ ((al ≡ al) × (data_space ≡ data_space) × (payload ≡ payload))
unfolding encode encode_subspace_prefix
strip_subspace_prefix_example =
    strip_subspace_prefix al al data_space data_space payload payload (2 ∷ b'a' ∷ b'l' ∷ 1 ∷ []) key
      refl refl

encode_order_example : bytes_lt key (2 ∷ b'a' ∷ b'l' ∷ 3 ∷ []) ≡ (
    ltb (to_u8 data_space) (to_u8 stats)
    || ((to_u8 data_space == to_u8 stats) && bytes_lt payload []))
unfolding encode
encode_order_example =
    encode_order al data_space stats payload [] key (2 ∷ b'a' ∷ b'l' ∷ 3 ∷ []) refl refl
