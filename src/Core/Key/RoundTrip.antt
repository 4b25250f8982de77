-- ===== src/Core/Key/RoundTrip.antt =====
-- key.rs: `KeyCodec::decode` is the inverse of `KeyCodec::encode`, on every byte string.
use ferriskv.Prelude.{
  ℕ, suc, ◌+◌, ◌≤◌, ◌<◌, ◌≡◌, ◌↔◌, refl, sym, ap, ◌∙◌, true, some, [], ◌∷◌, ◌++◌, arith,
  append_assoc, length, get_or, drop, slice, slice_at, length-append, length-drop,
  drop-append_length, get_or-append_length, slice-append-drop, get_or-cons-drop, length-slice,
}
use ferriskv.Prelude.Bytes.{Bytes, AreBytes}
use ferriskv.Core.Error.{ok}
use ferriskv.Core.Utf8.{is_utf8}
use ferriskv.Core.Key.{Subspace, to_u8, from_u8, encode, decode, metadata, data_space, index, stats}

pub from_u8-to_u8 : (s : Subspace) → from_u8 (to_u8 s) ≡ some s
from_u8-to_u8 metadata = refl
from_u8-to_u8 data_space = refl
from_u8-to_u8 index = refl
from_u8-to_u8 stats = refl

pub to_u8-from_u8 : (b : ℕ) (s : Subspace) → from_u8 b ≡ some s → to_u8 s ≡ b
to_u8-from_u8 b s h = ground arith

pub to_u8-lt : (s : Subspace) → to_u8 s < 4
to_u8-lt s = ground arith

-- The bytes of a key whose first byte is the length of the tenant.
module _ (t : Bytes) (s : ℕ) (p : Bytes) where
  abbrev pub key_bytes : Bytes
  key_bytes = length t ∷ (t ++ (s ∷ p))

  slice-key_bytes : slice 1 (1 + length t) key_bytes ≡ t
  slice-key_bytes = slice_at 1 (1 + length t) key_bytes (length t ∷ []) t (s ∷ p) refl refl refl

  get_or-key_bytes : get_or key_bytes (1 + length t) 0 ≡ s
  get_or-key_bytes = get_or-append_length (1 + length t) (length t ∷ t) s 0 p (omega arith)

  drop-key_bytes : drop (2 + length t) key_bytes ≡ p
  drop-key_bytes =
      let split : key_bytes ≡ (length t ∷ (t ++ (s ∷ []))) ++ p =
        ap (λ (x : Bytes). length t ∷ x) (sym (append_assoc t (s ∷ []) p)) in
      rw split (
        drop-append_length (2 + length t) (length t ∷ (t ++ (s ∷ []))) p
          (omega (arith, length-append t (s ∷ []))))

  length-key_bytes : length key_bytes ≡ 2 + length t + length p
  length-key_bytes = omega (arith, length-append t (s ∷ p))

-- What a successful `encode` returns, and what it has tested.
pub encode_lem :
    (t : Bytes) (s : Subspace) (p key : Bytes)
    → encode t s p ≡ ok key
    → (key ≡ key_bytes t (to_u8 s) p) × (0 < length t) × (length t ≤ 255)
unfolding encode
encode_lem [] s p key h = ground arith
encode_lem (a ∷ as_) s p key h = ground arith

pub encode_ok :
    (t : Bytes) (s : Subspace) (p : Bytes)
    → 0 < length t
    → length t ≤ 255
    → encode t s p ≡ ok (key_bytes t (to_u8 s) p)
unfolding encode
encode_ok [] s p h k = absurd (omega arith)
encode_ok (a ∷ as_) s p h k = ground arith

pub decode-key_bytes :
    (t : Bytes) (s : Subspace) (p : Bytes)
    → 0 < length t
    → is_utf8 t ≡ true
    → decode (key_bytes t (to_u8 s) p) ≡ ok (t, s, p)
unfolding decode
decode-key_bytes t s p h u = ground (
  arith,
  slice-key_bytes t (to_u8 s) p,
  get_or-key_bytes t (to_u8 s) p,
  drop-key_bytes t (to_u8 s) p,
  length-key_bytes t (to_u8 s) p,
  from_u8-to_u8 s,
  u,
)

-- A byte string that holds the tenant's length, the tenant and a byte more is `key_bytes`.
module _ (n : ℕ) (rest : Bytes) (h : n < length rest) where
  split_key :
      slice 1 (1 + n) (n ∷ rest) ++ (get_or (n ∷ rest) (1 + n) 0 ∷ drop (2 + n) (n ∷ rest)) ≡ rest
  split_key =
      let e : suc (1 + n) ≡ 2 + n = omega arith in
      let behind = get_or-cons-drop (1 + n) (n ∷ rest) 0 (omega arith) in
      rw (← (rw e at behind)) (slice-append-drop 1 (1 + n) (n ∷ rest) (omega arith))

  length-tenant : length (slice 1 (1 + n) (n ∷ rest)) ≡ n
  length-tenant = omega (arith, length-slice 1 (1 + n) (n ∷ rest) (omega arith) (omega arith))

-- What a successful `decode` has tested.
decode_parts :
    (n : ℕ) (rest t : Bytes) (s : Subspace) (p : Bytes)
    → decode (n ∷ rest) ≡ ok (t, s, p)
    → (0 < n)
      × (n < length rest)
      × (slice 1 (1 + n) (n ∷ rest) ≡ t)
      × (from_u8 (get_or (n ∷ rest) (1 + n) 0) ≡ some s)
      × (drop (2 + n) (n ∷ rest) ≡ p)
      × (is_utf8 t ≡ true)
unfolding decode
decode_parts n rest t s p h = ground arith

-- Decoding gives back the subspace that was encoded, if it succeeds.
pub decode-encode_subspace :
    (t : Bytes) (s : Subspace) (p key u : Bytes) (s' : Subspace) (q : Bytes)
    → encode t s p ≡ ok key
    → decode key ≡ ok (u, s', q)
    → s ≡ s'
decode-encode_subspace t s p key u s' q h k =
    let (same, pos, short) = encode_lem t s p key h in
    let (_, _, _, found, _, _) =
      decode_parts (length t) (t ++ (to_u8 s ∷ p)) u s' q (rw same at k) in
    let there : some s ≡ some s' = cc (found, get_or-key_bytes t (to_u8 s) p, from_u8-to_u8 s) in cc

-- Decoding gives back the tenant that was encoded, if it succeeds.
pub decode-encode_tenant :
    (t : Bytes) (s : Subspace) (p key u : Bytes) (s' : Subspace) (q : Bytes)
    → encode t s p ≡ ok key
    → decode key ≡ ok (u, s', q)
    → t ≡ u
decode-encode_tenant t s p key u s' q h k =
    let (same, pos, short) = encode_lem t s p key h in
    let (_, _, held, _, _, _) =
      decode_parts (length t) (t ++ (to_u8 s ∷ p)) u s' q (rw same at k) in
    sym (slice-key_bytes t (to_u8 s) p) ∙ held

-- The payload is a part of the key.
pub length-decode :
    (key u : Bytes) (s : Subspace) (p : Bytes) → decode key ≡ ok (u, s, p) → length p ≤ length key
length-decode [] u s p h = unfold decode in cc
length-decode (n ∷ rest) u s p h =
    let (_, _, _, _, payload, _) = decode_parts n rest u s p h in
    rw (← payload) (omega (arith, length-drop (2 + n) (n ∷ rest)))

-- What decodes is the encoding of what it decodes to.
pub decode_lem :
    (key t : Bytes) (s : Subspace) (p : Bytes)
    → decode key ≡ ok (t, s, p)
    → (key ≡ key_bytes t (to_u8 s) p) × (0 < length t) × (is_utf8 t ≡ true)
decode_lem [] t s p h = unfold decode in cc
decode_lem (n ∷ rest) t s p h =
    let (pos, long, et, es, ep, u) = decode_parts n rest t s p h in
    let whole = split_key n rest long in
    let len = length-tenant n rest long in
    let code = to_u8-from_u8 (get_or (n ∷ rest) (1 + n) 0) s es in
    let len' : length t ≡ n = ap length (sym et) ∙ len in
    let same : t ++ (to_u8 s ∷ p) ≡ rest = rw (code, ← et, ← ep) whole in (cc, omega arith, u)

encode-decode :
    (key t : Bytes) (s : Subspace) (p : Bytes)
    → AreBytes key
    → decode key ≡ ok (t, s, p)
    → (encode t s p ≡ ok key) × (is_utf8 t ≡ true)
encode-decode [] t s p b h = unfold decode in cc
encode-decode (n ∷ rest) t s p b h =
    let (same, pos, u) = decode_lem (n ∷ rest) t s p h in
    let head : n ≡ length t = ap (λ k. get_or k 0 0) same in
    (encode_ok t s p pos (omega (arith, b)) ∙ ap ok (sym same), u)

-- A byte string decodes to a tenant, a subspace and a payload exactly when encoding these three
-- gives that byte string and the tenant is UTF-8.
pub decode_iff_encode_key :
    (key t : Bytes) (s : Subspace) (p : Bytes)
    → AreBytes key
    → (decode key ≡ ok (t, s, p)) ↔ ((encode t s p ≡ ok key) × (is_utf8 t ≡ true))
decode_iff_encode_key key t s p b = (encode-decode key t s p b, back)
  where
    back : (encode t s p ≡ ok key) × (is_utf8 t ≡ true) → decode key ≡ ok (t, s, p)
    back e =
        let (k, pos, short) = encode_lem t s p key (e.0) in rw k (decode-key_bytes t s p pos (e.1))
