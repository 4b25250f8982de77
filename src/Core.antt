-- ===== src/Core.antt =====
-- crates/ferriskv-core: the error type, the key and value codecs and the storage trait.
pub mod Error
pub mod Utf8
pub mod Key
pub mod Value
pub mod Storage
pub mod Limits
pub mod Clock
pub mod Hashing
