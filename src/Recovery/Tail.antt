-- ===== src/Recovery/Tail.antt =====
-- `tail_is_zero`, `first_sequence`, `recovery_check_tail` and `recovery_prepare_files` of
-- bytecaskdb/db_recovery.cpp: what may be cut off a data file that has no hint, and the list of files
-- that recovery reads. The directory is its data files in name order. Leftover `.tmp` files, syncs
-- and the ids' order of opening are not modelled.
use bytecaskdb.Prelude.{
  ltb, ◌==◌, if◌then◌else◌, length, take, drop, Result, ok, err, ◌>>=◌, ◌>>◌, throw_if, ℕ, Bool,
  true, false, not, ◌&&◌, List, [], ◌∷◌, ◌++◌, torn_not_last, two_torn, too_many_files,
}
use bytecaskdb.KeyOrder.{Bytes, key_eq}
use bytecaskdb.Format.Bytes.{Crc32c}
use bytecaskdb.Format.Types.{is_known_entry_type}
use bytecaskdb.Format.Entry.{header_size, read_header}
use bytecaskdb.KeyDirEntry.{max_file_id}
use bytecaskdb.Recovery.Scan.{Committed, finished, failed, item, stop_on_damage, scan_committed}
use bytecaskdb.Recovery.Hints.{absent, readable, StoredFile, flush_hints_for}

unfoldable pub all_zero : List ℕ → Bool
all_zero [] = true
all_zero (b ∷ bs) = (b == 0) && all_zero bs

-- Whether every byte from `end` on is zero.
unfoldable pub tail_is_zero : List ℕ → ℕ → Bool
unfolding all_zero
tail_is_zero bytes end = all_zero (drop end bytes)

-- `kEntryTypeOffset`
abbrev pub entry_type_offset : ℕ
entry_type_offset = 8

-- The sequence in the file's first header, 0 when there is none.
unfoldable pub first_sequence : List ℕ → Result ℕ
unfolding tail_is_zero
first_sequence bytes = if ltb (length bytes) header_size then ok 0 else do
  h ← read_header bytes
  ok (
      if not (is_known_entry_type h.entry_type) && tail_is_zero bytes entry_type_offset
      then 0
      else h.sequence)

-- `committed_offset()` once the sweep is exhausted.
unfoldable pub committed_end : Committed → Result ℕ
committed_end (finished end) = ok end
committed_end (failed e) = err e
committed_end (item e off rest) = committed_end rest

unfoldable pub has_hint : StoredFile → Bool
has_hint file = elim file.hint [ absent ↦ false | _ ↦ true ]

module _ (c : Crc32c) where
  -- The body of the loop, for one other file.
  unfoldable pub check_other : ℕ → StoredFile → Result (Unit {0})
  unfolding first_sequence committed_end tail_is_zero has_hint
  check_other seq other = do
    other_seq ← first_sequence other.bytes
    throw_if (not (seq == 0) && ltb seq other_seq) torn_not_last
    (if has_hint other then ok tt else (do
      end ← committed_end (scan_committed c stop_on_damage other.bytes)
      throw_if (not (tail_is_zero other.bytes end)) two_torn))

  unfoldable pub check_others : ℕ → Bytes → List StoredFile → Result (Unit {0})
  unfolding check_other
  check_others seq name [] = ok tt
  check_others seq name (other ∷ others) =
      let rest = check_others seq name others in
      if key_eq other.name name then rest else (check_other seq other >> rest)

  unfoldable pub recovery_check_tail : StoredFile → ℕ → List StoredFile → Result (Unit {0})
  unfolding first_sequence tail_is_zero check_others
  recovery_check_tail file end data_files =
      if tail_is_zero file.bytes end
      then ok tt
      else (do seq ← first_sequence file.bytes; check_others seq file.name data_files)

  -- The hint of one file, and the cut before it is written.
  unfoldable pub prepare_file : List StoredFile → StoredFile → Result StoredFile
  unfolding has_hint flush_hints_for recovery_check_tail
  prepare_file data_files file = if has_hint file then ok file else do
    (end, entries) ← flush_hints_for c stop_on_damage file.bytes
    recovery_check_tail file end data_files
    ok (record file { bytes = take end file.bytes; hint = readable entries })

  -- The files before the one at hand have their hints by then.
  unfoldable pub prepare_loop : List StoredFile → List StoredFile → Result (List StoredFile)
  unfolding prepare_file
  prepare_loop before [] = ok before
  prepare_loop before (file ∷ files) = do
    prepared ← prepare_file (before ++ file ∷ files) file
    prepare_loop (before ++ prepared ∷ []) files

  -- A file's id is its place in the list: ids are given out in name order, from 0.
  unfoldable pub recovery_prepare_files : List StoredFile → Result (List StoredFile)
  unfolding prepare_loop
  recovery_prepare_files data_files = do
    throw_if (ltb max_file_id (length data_files)) too_many_files
    prepare_loop [] data_files
