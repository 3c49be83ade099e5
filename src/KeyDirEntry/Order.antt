-- ===== src/KeyDirEntry/Order.antt =====
-- `kde_newer` is a strict order on entries that no error separates.
use bytecaskdb.KeyDirEntry.{KeyDirEntry}
