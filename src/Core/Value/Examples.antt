-- ===== src/Core/Value/Examples.antt =====
-- value.rs at concrete entries.
use ferriskv.Prelude.{◌≡◌, ◌↔◌, refl, true, false, some, [], ◌∷◌, length, arith, slice}
use ferriskv.Prelude.Words.{from_be_bytes}
use ferriskv.Prelude.Bytes.{Bytes}
use ferriskv.Core.Error.{ok, err, corrupt, ◌>>=◌}
use ferriskv.Core.Value.{StoredValue, encode, decode, payload_len, is_expired}
use ferriskv.Core.Value.RoundTrip.{FitsU64, decode_iff_encode_value}
use ferriskv.Core.Value.Agreement.{is_gone, partial_reads_agree}

abbrev entry : Bytes
entry = 1 ∷ 0 ∷ 0 ∷ 0 ∷ 0 ∷ 0 ∷ 0 ∷ 0 ∷ 100 ∷ b'x' ∷ []

abbrev entry_value : StoredValue
entry_value = record { expires_at_ms = some 100; value = b'x' ∷ [] }

decode_errors :
    (decode [] ≡ err (corrupt "empty value"))
    × (decode (1 ∷ 0 ∷ 0 ∷ []) ≡ err (corrupt "ttl value too short"))
    × (decode (99 ∷ []) ≡ err (corrupt "unknown value version"))
unfolding decode
decode_errors = (refl, refl, refl)

ttl_boundary : (is_expired entry 99 ≡ ok false) × (is_expired entry 100 ≡ ok true)
unfolding is_expired slice from_be_bytes
ttl_boundary = (refl, refl)

decode_iff_encode_value_example :
    (decode entry ≡ ok entry_value) ↔ ((encode (b'x' ∷ []) (some 100) ≡ entry) × FitsU64 (some 100))
decode_iff_encode_value_example = decode_iff_encode_value entry entry_value (omega arith)

partial_reads_agree_example :
    (payload_len entry ≡ (decode entry >>= λ v. ok (length v.value)))
    × (is_expired entry 100 ≡ (decode entry >>= λ v. ok (is_gone v.expires_at_ms 100)))
partial_reads_agree_example = partial_reads_agree entry 100
