-- ===== src/Coord/Config.antt =====
-- crates/ferriskv-coord/src/config.rs: `CoordConfig`. A path and an address are their bytes.
use ferriskv.Prelude.{ℕ, ◌*◌, List}
use ferriskv.Prelude.Bytes.{Bytes}

pub record CoordConfig : Type 0 where
  pub node_id : Bytes
  pub listen : Bytes
  pub peers : List Bytes
  pub data_dir : Bytes
  pub target_range_size_bytes : ℕ
  pub replication_factor : ℕ

-- What an absent field of a file is read as.
abbrev pub default_range_size : ℕ
default_range_size = 128 * 1024 * 1024

abbrev pub default_rf : ℕ
default_rf = 3
