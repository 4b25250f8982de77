-- ===== src/Core/Value/RoundTrip.antt =====
-- value.rs: `ValueCodec::decode` is the inverse of `ValueCodec::encode`, on every byte string.
use ferriskv.Prelude.{
  ℕ, ◌⊎◌, inl, inr, ◌+◌, ◌≤◌, ◌≡◌, ◌↔◌, refl, ap, Option, none, some, [], ◌∷◌, arith, length,
  length-append, drop, slice, slice_at, drop-append_length, slice-append-drop, All-slice,
  length-slice,
}
use ferriskv.Prelude.Bytes.{Bytes, IsByte, AreBytes}
use ferriskv.Prelude.Words.{
  to_be_bytes, from_be_bytes, length-to_be_bytes, from_be_bytes-to_be_bytes,
  to_be_bytes-from_be_bytes, from_be_bytes-lt, IsU64,
}
use ferriskv.Core.Error.{ok}
use ferriskv.Core.Value.{StoredValue, encode, decode}

-- An expiry is a `u64`.
abbrev pub FitsU64 : Option ℕ → Type 0
FitsU64 none = Unit
FitsU64 (some exp) = IsU64 exp

module _ (exp : ℕ) (value : Bytes) where
  length-with_ttl : length (encode value (some exp)) ≡ 9 + length value
  unfolding encode
  length-with_ttl = omega (arith, length-append (to_be_bytes 8 exp) value, length-to_be_bytes 8 exp)

  expiry-with_ttl : IsU64 exp → from_be_bytes (slice 1 9 (encode value (some exp))) ≡ exp
  unfolding encode
  expiry-with_ttl h =
      rw
        (slice_at 1 9 (encode value (some exp)) (1 ∷ []) (to_be_bytes 8 exp) value refl refl
          (omega (arith, length-to_be_bytes 8 exp)))
        (from_be_bytes-to_be_bytes 8 exp h)

  value-with_ttl : drop 9 (encode value (some exp)) ≡ value
  unfolding encode
  value-with_ttl =
      drop-append_length 9 (1 ∷ to_be_bytes 8 exp) value (omega (arith, length-to_be_bytes 8 exp))

  pub decode-with_ttl :
      IsU64 exp
      → decode (encode value (some exp)) ≡ ok (record { expires_at_ms = some exp; value = value })
  unfolding decode encode
  decode-with_ttl h = ground (arith, length-with_ttl, expiry-with_ttl h, value-with_ttl)

pub decode-encode :
    (value : Bytes) (exp : Option ℕ)
    → FitsU64 exp
    → decode (encode value exp) ≡ ok (record { expires_at_ms = exp; value = value })
decode-encode value none h = unfold decode encode in refl
decode-encode value (some exp) h = decode-with_ttl exp value h

-- The two versions that `decode` accepts.
abbrev without_ttl : Bytes → StoredValue
without_ttl rest = record { expires_at_ms = none; value = rest }

abbrev with_ttl : Bytes → StoredValue
with_ttl raw = record { expires_at_ms = some (from_be_bytes (slice 1 9 raw)); value = drop 9 raw }

decode_cases :
    (n : ℕ) (rest : Bytes) (v : StoredValue)
    → decode (n ∷ rest) ≡ ok v
    → ((n ≡ 0) × (v ≡ without_ttl rest)) ⊎ ((n ≡ 1) × (8 ≤ length rest) × (v ≡ with_ttl (n ∷ rest)))
unfolding decode
decode_cases n rest v h = ground arith

module _ (rest : Bytes) (b : AreBytes (1 ∷ rest)) (long : 8 ≤ length rest) where
  length-expiry : length (slice 1 9 (1 ∷ rest)) ≡ 8
  length-expiry = length-slice 1 9 (1 ∷ rest) (omega arith) (omega arith)

  AreBytes-expiry : AreBytes (slice 1 9 (1 ∷ rest))
  AreBytes-expiry = All-slice IsByte 1 9 (1 ∷ rest) b

  encode-with_ttl :
      encode (drop 9 (1 ∷ rest)) (some (from_be_bytes (slice 1 9 (1 ∷ rest)))) ≡ 1 ∷ rest
  unfolding encode
  encode-with_ttl =
      rw (to_be_bytes-from_be_bytes 8 (slice 1 9 (1 ∷ rest)) AreBytes-expiry length-expiry)
        (ap (λ (t : Bytes). 1 ∷ t) (slice-append-drop 1 9 (1 ∷ rest) (omega arith)))

  expiry-FitsU64 : FitsU64 (some (from_be_bytes (slice 1 9 (1 ∷ rest))))
  expiry-FitsU64 =
      omega (arith, from_be_bytes-lt 8 (slice 1 9 (1 ∷ rest)) AreBytes-expiry length-expiry)

encode-decode :
    (raw : Bytes) (v : StoredValue)
    → AreBytes raw
    → decode raw ≡ ok v
    → (encode v.value v.expires_at_ms ≡ raw) × FitsU64 v.expires_at_ms
encode-decode [] v b h = unfold decode in cc
encode-decode (n ∷ rest) v b h = elim (decode_cases n rest v h) [
  | inl (zero, e) ↦ rw (zero, e) (unfold encode in (refl, tt))
  | inr (one, long, e) ↦
      let b' : AreBytes (1 ∷ rest) = rw one at b in
      rw (e, one) (encode-with_ttl rest b' long, expiry-FitsU64 rest b' long)
]

-- A byte string decodes to a value and an expiry exactly when encoding these two gives that byte
-- string and the expiry is a `u64`.
pub decode_iff_encode_value :
    (raw : Bytes) (v : StoredValue)
    → AreBytes raw
    → (decode raw ≡ ok v) ↔ ((encode v.value v.expires_at_ms ≡ raw) × FitsU64 v.expires_at_ms)
decode_iff_encode_value raw v b =
    (encode-decode raw v b, λ e. rw (← e.0) (decode-encode v.value v.expires_at_ms e.1))
