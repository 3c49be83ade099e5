-- ===== src/Format.antt =====
-- The on-disk formats: integers and bytes, data file entries, hint entries.
pub mod Bytes
pub mod Types
pub mod Entry
pub mod Hint
