-- ===== src/Core/Value/Agreement.antt =====
-- value.rs: `payload_len` and `is_expired` read from the bytes what `decode` would return.
use ferriskv.Prelude.{
  ℕ, ◌≡◌, Bool, false, Option, none, some, [], ◌∷◌, arith, length, leb, length-drop, length-append,
}
use ferriskv.Prelude.Bytes.{Bytes}
use ferriskv.Prelude.Words.{to_be_bytes, length-to_be_bytes}
use ferriskv.Core.Error.{ok, ◌>>=◌}
use ferriskv.Core.Value.{encode, decode, payload_len, is_expired}

-- A value is gone from its expiry on; one without expiry never is.
abbrev pub is_gone : Option ℕ → ℕ → Bool
is_gone none now_ms = false
is_gone (some exp) now_ms = leb exp now_ms

-- On every byte string `payload_len` returns the length of the value that `decode` returns, and
-- fails with the error of `decode` where that fails.
pub payload_len-eq-decode :
    (raw : Bytes) → payload_len raw ≡ (decode raw >>= λ v. ok (length v.value))
unfolding decode payload_len
payload_len-eq-decode [] = ground arith
payload_len-eq-decode (n ∷ rest) = ground (arith, length-drop 8 rest)

-- On every byte string `is_expired` answers whether the expiry that `decode` returns is at or
-- before the given time, and fails with the error of `decode` where that fails.
pub is_expired-eq-decode :
    (raw : Bytes) (now_ms : ℕ)
    → is_expired raw now_ms ≡ (decode raw >>= λ v. ok (is_gone v.expires_at_ms now_ms))
unfolding decode is_expired
is_expired-eq-decode [] now_ms = ground arith
is_expired-eq-decode (n ∷ rest) now_ms = ground arith

-- What reads only a part of a stored value agrees with `decode` on every byte string: `payload_len`
-- returns the length of the value that `decode` returns, and `is_expired` whether its expiry is at
-- or before the given time; where `decode` fails, both fail with its error.
pub partial_reads_agree :
    (raw : Bytes) (now_ms : ℕ)
    → (payload_len raw ≡ (decode raw >>= λ v. ok (length v.value)))
      × (is_expired raw now_ms ≡ (decode raw >>= λ v. ok (is_gone v.expires_at_ms now_ms)))
partial_reads_agree raw now_ms = (payload_len-eq-decode raw, is_expired-eq-decode raw now_ms)

pub payload_len-encode : (v : Bytes) (exp : Option ℕ) → payload_len (encode v exp) ≡ ok (length v)
unfolding payload_len encode
payload_len-encode v none = ground arith
payload_len-encode v (some exp) =
    ground (arith, length-append (to_be_bytes 8 exp) v, length-to_be_bytes 8 exp)
