-- ===== src/Core/Key/Prefix.antt =====
-- key.rs: what a scan prefix selects, and how the encoded keys are ordered.
use ferriskv.Prelude.{
  ℕ, ◌≤◌, ◌<◌, ◌≡◌, ◌↔◌, refl, sym, ap, ◌∙◌, true, ◌&&◌, ◌||◌, some, [], ◌∷◌, ◌++◌, arith,
  append_assoc, length, ltb, ◌==◌,
}
use ferriskv.Prelude.Bytes.{Bytes, starts_with, bytes_lt, starts_with-append, strip_prefix-eq_some}
use ferriskv.Core.Error.{ok}
use ferriskv.Core.Key.{
  Subspace, to_u8, encode, encode_tenant_prefix, encode_subspace_prefix, strip_prefix,
}
use ferriskv.Core.Key.RoundTrip.{key_bytes, encode_lem, from_u8-to_u8}

tenant_prefix_lem :
    (t pre : Bytes)
    → encode_tenant_prefix t ≡ ok pre
    → (pre ≡ length t ∷ t) × (0 < length t) × (length t ≤ 255)
unfolding encode_tenant_prefix
tenant_prefix_lem [] pre h = ground arith
tenant_prefix_lem (a ∷ as_) pre h = ground arith

append_inj : (a b x y : Bytes) → length a ≡ length b → a ++ x ≡ b ++ y → (a ≡ b) × (x ≡ y)
append_inj [] [] x y h e = (refl, e)
append_inj [] (b ∷ bs) x y h e = absurd (omega arith)
append_inj (a ∷ as_) [] x y h e = absurd (omega arith)
append_inj (a ∷ as_) (b ∷ bs) x y h e =
    let (same, rest) = append_inj as_ bs x y (omega arith) (cc) in (cc, rest)

starts_with-inj : (a b y : Bytes) → length a ≡ length b → starts_with (b ++ y) a ≡ true → a ≡ b
unfolding starts_with
starts_with-inj [] [] y h e = refl
starts_with-inj [] (b ∷ bs) y h e = absurd (omega arith)
starts_with-inj (a ∷ as_) [] y h e = absurd (omega arith)
starts_with-inj (a ∷ as_) (b ∷ bs) y h e = ground (arith, starts_with-inj as_ bs y)

starts_with_head :
    (m n : ℕ) (a b : Bytes)
    → starts_with (m ∷ b) (n ∷ a) ≡ true
    → (m ≡ n) × (starts_with b a ≡ true)
unfolding starts_with
starts_with_head m n a b h = ground arith

-- The prefix of one tenant selects a key exactly when the key was encoded for that same tenant.
pub tenant_prefix_isolates :
    (t u : Bytes) (s : Subspace) (p pre key : Bytes)
    → encode_tenant_prefix t ≡ ok pre
    → encode u s p ≡ ok key
    → (starts_with key pre ≡ true) ↔ (t ≡ u)
tenant_prefix_isolates t u s p pre key hp hk = (forth, back)
  where
    forth : starts_with key pre ≡ true → t ≡ u
    forth h =
        let (ep, _, _) = tenant_prefix_lem t pre hp in
        let (ek, _, _) = encode_lem u s p key hk in
        let (len, tail) =
          starts_with_head (length u) (length t) t (u ++ (to_u8 s ∷ p)) (rw (ep, ek) at h) in
        starts_with-inj t u (to_u8 s ∷ p) (sym len) tail

    back : t ≡ u → starts_with key pre ≡ true
    back e =
        let (ep, _, _) = tenant_prefix_lem t pre hp in
        let (ek, _, _) = encode_lem u s p key hk in
        rw (ep, ek, e) (starts_with-append (length u ∷ u) (to_u8 s ∷ p))

to_u8-inj : (r s : Subspace) → to_u8 r ≡ to_u8 s → r ≡ s
to_u8-inj r s h = ground (arith, from_u8-to_u8 r, from_u8-to_u8 s)

key_bytes-inj :
    (t u : Bytes) (r s : Subspace) (p q : Bytes)
    → key_bytes t (to_u8 r) p ≡ key_bytes u (to_u8 s) q
    → (t ≡ u) × (r ≡ s) × (p ≡ q)
key_bytes-inj t u r s p q h =
    let len : length t ≡ length u = cc in
    let (et, rest) = append_inj t u (to_u8 r ∷ p) (to_u8 s ∷ q) len (cc) in
    (et, to_u8-inj r s (cc), cc)

-- Stripping the prefix of a tenant's subspace from an encoded key succeeds exactly on keys of that
-- tenant and subspace, and leaves the payload.
pub strip_subspace_prefix :
    (t u : Bytes) (r s : Subspace) (p q pre key : Bytes)
    → encode_subspace_prefix t r ≡ ok pre
    → encode u s p ≡ ok key
    → (strip_prefix key pre ≡ some q) ↔ ((t ≡ u) × (r ≡ s) × (q ≡ p))
unfolding strip_prefix encode_subspace_prefix
strip_subspace_prefix t u r s p q pre key hp hk = (forth, back)
  where
    joined : pre ++ q ≡ key_bytes t (to_u8 r) q
    joined =
        rw ((encode_lem t r [] pre hp).0)
          (ap (λ (x : Bytes). length t ∷ x) (append_assoc t (to_u8 r ∷ []) q))

    forth : strip_prefix key pre ≡ some q → (t ≡ u) × (r ≡ s) × (q ≡ p)
    forth h =
        key_bytes-inj t u r s q p
          (sym joined ∙ sym ((strip_prefix-eq_some key pre q).0 h) ∙ (encode_lem u s p key hk).0)

    back : (t ≡ u) × (r ≡ s) × (q ≡ p) → strip_prefix key pre ≡ some q
    back e =
        (strip_prefix-eq_some key pre q).1 (cc (joined, (encode_lem u s p key hk).0, e.0, e.1, e.2))

pub bytes_lt-append_same : (t a b : Bytes) → bytes_lt (t ++ a) (t ++ b) ≡ bytes_lt a b
unfolding bytes_lt
bytes_lt-append_same [] a b = refl
bytes_lt-append_same (x ∷ t) a b = ground (arith, bytes_lt-append_same t a b)

-- Keys of one tenant are ordered by their subspace's byte, and in one subspace by their payload.
pub encode_order :
    (t : Bytes) (r s : Subspace) (p q k l : Bytes)
    → encode t r p ≡ ok k
    → encode t s q ≡ ok l
    → bytes_lt k l ≡ (ltb (to_u8 r) (to_u8 s) || ((to_u8 r == to_u8 s) && bytes_lt p q))
encode_order t r s p q k l hk hl =
    rw ((encode_lem t r p k hk).0, (encode_lem t s q l hl).0)
      (bytes_lt-append_same (length t ∷ t) (to_u8 r ∷ p) (to_u8 s ∷ q) ∙ unfold bytes_lt in refl)
