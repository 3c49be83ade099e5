-- ===== src/Recovery/Undo.antt =====
-- `is_compaction_of` and `recovery_undo_interrupted_vacuum` of bytecaskdb/db_recovery.cpp: of two files
-- that hold entries under one sequence, the one that is a compacted copy of the other is removed.
pub mod Compaction
use bytecaskdb.Prelude.{
  ltb, leb, ◌==◌, if◌then◌else◌, length, get_elem?, out_of_range, Result, ok, err, ◌>>=◌, ◌>>◌,
  throw_if, ℕ, zero, suc, Bool, true, false, not, ◌&&◌, Option, none, some, List, [], ◌∷◌,
  not_a_copy,
}
use bytecaskdb.KeyOrder.{key_eq}
use bytecaskdb.Format.Bytes.{Crc32c}
use bytecaskdb.Format.Types.{to_byte}
use bytecaskdb.Format.Entry.{DataEntry}
use bytecaskdb.Recovery.Scan.{Committed, finished, failed, item, throw_on_damage, scan_committed}
use bytecaskdb.Recovery.Hints.{StoredFile}

-- Same sequence, type, key and value.
unfoldable pub same_entry : DataEntry → DataEntry → Bool
same_entry a b =
    (a.sequence == b.sequence)
    && ((to_byte a.entry_type == to_byte b.entry_type)
        && (key_eq a.key b.key && key_eq a.value b.value))

-- The iterator, where an advance has arrived: it throws on damage at once.
unfoldable pub arrived : Committed → Result Committed
arrived (failed thrown) = err thrown
arrived (finished end) = ok (finished end)
arrived (item e off rest) = ok (item e off rest)

-- The inner loop: the source from past the entry on, or `none` where it returns false.
unfoldable pub past_entry : DataEntry → Committed → Result (Option Committed)
unfolding same_entry arrived
past_entry e (finished end) = ok none
past_entry e (failed thrown) = err thrown
past_entry e (item cand off source) =
    let later = past_entry e source in
    if ltb e.sequence cand.sequence
    then ok none
    else if same_entry cand e
    then (arrived source >>= λ rest. ok (some rest))
    else later

unfoldable pub compaction_loop : Committed → Committed → Result Bool
unfolding past_entry
compaction_loop (finished end) source = ok true
compaction_loop (failed e) source = err e
compaction_loop (item e off copy) source = past_entry e source >>= λ past. elim past [
  | none ↦ ok false
  | some rest ↦ compaction_loop copy rest
]

-- `none` past the end.
unfoldable pub remove_at : ℕ → List StoredFile → List StoredFile
remove_at i [] = []
remove_at zero (file ∷ files) = files
remove_at (suc i) (file ∷ files) = file ∷ remove_at i files

module _ (c : Crc32c) where
  unfoldable pub is_compaction_of : StoredFile → StoredFile → Result Bool
  unfolding compaction_loop arrived
  is_compaction_of copy source = do
    it ← arrived (scan_committed c throw_on_damage source.bytes)
    compaction_loop (scan_committed c throw_on_damage copy.bytes) it

  unfoldable pub file_at : ℕ → List StoredFile → Result StoredFile
  file_at id files = elim (get_elem? files id) [ none ↦ err out_of_range | some file ↦ ok file ]

  -- The files that are left, for the ids of two files.
  unfoldable pub recovery_undo_interrupted_vacuum :
      ℕ → ℕ → List StoredFile → Result (List StoredFile)
  unfolding is_compaction_of remove_at file_at
  recovery_undo_interrupted_vacuum a b files = do
    file_a ← file_at a files
    file_b ← file_at b files
    let a_smaller = leb (length file_a.bytes) (length file_b.bytes)
    let copy = if a_smaller then file_a else file_b
    let source = if a_smaller then file_b else file_a
    copied ← is_compaction_of copy source
    throw_if (not copied) not_a_copy
    ok (remove_at (if a_smaller then a else b) files)
