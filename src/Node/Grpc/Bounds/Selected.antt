-- ===== src/Node/Grpc/Bounds/Selected.antt =====
-- grpc.rs: the keys that a scan of a tenant's data runs over.
use ferriskv.Prelude.{
  ℕ, ◌≡◌, ◌↔◌, refl, sym, ap, ◌∙◌, true, not, ◌&&◌, [], ◌∷◌, ◌++◌, length, drop, append_assoc,
  drop-append_length,
}
use ferriskv.Prelude.Bytes.{Bytes, AreBytes, starts_with, starts_with-append, bytes_lt}
use ferriskv.Core.Error.{Result, ok, err, ◌>>=◌}
use ferriskv.Core.Key.{data_space, encode_subspace_prefix}
use ferriskv.Core.Key.RoundTrip.{key_bytes, encode_lem, encode_ok}
use ferriskv.Node.Grpc.{ScanBounds, next_prefix_bound, encode_data_key, encode_data_scan_bounds}
use ferriskv.Node.Grpc.Bounds.{bounds_select}
use ferriskv.Node.Grpc.Listing.{starts_with-split}

-- The bounds are built on the prefix of the tenant's data.
pub bounds_lem :
    (t u : Bytes) (b : ScanBounds)
    → encode_data_scan_bounds t u ≡ ok b
    → (sub : Bytes) × (encode_subspace_prefix t data_space ≡ ok sub)
      × (b.start ≡ sub ++ u)
      × (b.strip_len ≡ length sub)
unfolding encode_data_scan_bounds
bounds_lem t u b h = by_prefix (encode_subspace_prefix t data_space) refl h
  where
    by_prefix :
        (r : Result Bytes)
        → encode_subspace_prefix t data_space ≡ r
        → r >>= (λ sub.
          ok (record {
            start = sub ++ u;
            end = next_prefix_bound (sub ++ u);
            strip_len = length sub;
          }))
          ≡ ok b
        → (sub : Bytes) × (encode_subspace_prefix t data_space ≡ ok sub)
          × (b.start ≡ sub ++ u)
          × (b.strip_len ≡ length sub)
    by_prefix (err e) eq h = cc
    by_prefix (ok sub) eq h = (sub, eq, cc, cc)

-- The keys between the bounds of a scan of a tenant's data are those of the tenant's data whose key,
-- as the client named it, starts with the prefix that the client asked for; and behind the bytes
-- that are stripped comes that key.
pub encode_data_scan_bounds_lem :
    (t u key : Bytes) (b : ScanBounds)
    → AreBytes t
    → AreBytes u
    → AreBytes key
    → encode_data_scan_bounds t u ≡ ok b
    → ((not (bytes_lt key b.start) && bytes_lt key b.end) ≡ true)
      ↔ ((p : Bytes) × (encode_data_key t (u ++ p) ≡ ok key) × (drop b.strip_len key ≡ u ++ p))
unfolding encode_data_key encode_subspace_prefix
encode_data_scan_bounds_lem t u key b ht hu hk h =
    let (sub, sub_eq, start, strip) = bounds_lem t u b h in
    let (is_sub, pos, short) = encode_lem t data_space [] sub sub_eq in
    let joined : (x : Bytes) → sub ++ x ≡ key_bytes t 1 x =
      λ x. ap (λ (y : Bytes). y ++ x) is_sub ∙ append_assoc (length t ∷ t) (1 ∷ []) x in
    let select = bounds_select t u key b ht hu hk h in
    (
      λ inside.
          let p = drop (length b.start) key in
          let split = starts_with-split key b.start (select ∙ inside) in
          let whole : key ≡ sub ++ (u ++ p) =
            split ∙ ap (λ (x : Bytes). x ++ p) start ∙ append_assoc sub u p in
          (
            p,
            encode_ok t data_space (u ++ p) pos short ∙ ap ok (sym (joined (u ++ p)) ∙ sym whole),
            ap (drop b.strip_len) whole
                ∙ ap (λ (n : ℕ). drop n (sub ++ (u ++ p))) strip
                ∙ drop-append_length (length sub) sub (u ++ p) refl,
          ),
      λ (p, encoded, behind).
          let (is_key, _, _) = encode_lem t data_space (u ++ p) key encoded in
          let whole : key ≡ b.start ++ p =
            is_key
            ∙ sym (joined (u ++ p))
            ∙ sym (append_assoc sub u p)
            ∙ ap (λ (x : Bytes). x ++ p) (sym start) in
          sym select
          ∙ ap (λ (k : Bytes). starts_with k b.start) whole
          ∙ starts_with-append b.start p,
    )
