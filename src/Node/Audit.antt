-- ===== src/Node/Audit.antt =====
-- crates/ferriskv-node/src/audit.rs: what one call of `write` reports. The hash is a parameter.
use ferriskv.Prelude.{
  ℕ, ◌+◌, ◌-◌, ◌*◌, ◌/◌, ◌%◌, ◌≤◌, ◌≡◌, refl, String, [], ◌∷◌, take, length, length-take, ltb,
  if◌then◌else◌, arith,
}
use ferriskv.Prelude.Bytes.{Bytes}
use ferriskv.Node.AuthLayer.{Principal, anonymous, authenticated}

abbrev pub principal_label : Principal → Bytes
principal_label anonymous = b'a' ∷ b'n' ∷ b'o' ∷ b'n' ∷ b'y' ∷ b'm' ∷ b'o' ∷ b'u' ∷ b's' ∷ []
principal_label (authenticated c) = c.sub

hex_digit : ℕ → ℕ
hex_digit n = if ltb n 10 then b'0' + n else b'a' + n - 10

-- `{byte:02x}` for each byte.
unfoldable pub hex : Bytes → Bytes
unfolding hex_digit
hex [] = []
hex (b ∷ bs) = hex_digit (b / 16) ∷ hex_digit (b % 16) ∷ hex bs

pub record Event : Type 0 where
  pub principal : Bytes
  pub tenant : Bytes
  pub op : String
  pub key_hash : Bytes
  pub value_size : ℕ

module _ (blake3 : Bytes → Bytes) where
  unfoldable pub key_hash_of : Bytes → Bytes
  key_hash_of key = take 8 (blake3 key)

  unfoldable pub event : Principal → Bytes → String → Bytes → ℕ → Event
  unfolding hex key_hash_of
  event principal tenant op key value_size = record {
    principal = principal_label principal;
    tenant = tenant;
    op = op;
    key_hash = hex (key_hash_of key);
    value_size = value_size;
  }

length-hex : (bs : Bytes) → length (hex bs) ≡ 2 * length bs
unfolding hex
length-hex [] = refl
length-hex (b ∷ bs) = omega (arith, length-hex bs)

-- An event names its key by 16 digits.
pub key_hash_length :
    (blake3 : Bytes → Bytes) (p : Principal) (t : Bytes) (op : String) (key : Bytes) (n : ℕ)
    → 8 ≤ length (blake3 key)
    → length ((event blake3 p t op key n).key_hash) ≡ 16
unfolding event key_hash_of
key_hash_length blake3 p t op key n h =
    omega (arith, length-hex (take 8 (blake3 key)), length-take {0} 8 (blake3 key))
