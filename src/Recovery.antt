-- ===== src/Recovery.antt =====
-- bytecaskdb/db_recovery.cpp: rebuilding the engine state from the data and hint files at open.
pub mod Scan
pub mod Hints
pub mod Tail
pub mod Needed
pub mod Cursor
pub mod Merge
pub mod Build
pub mod Ranged
pub mod Overlap
pub mod Undo
pub mod Open
