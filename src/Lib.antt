-- ===== src/Lib.antt =====
-- ByteCaskDB keeps its records in append-only data files and finds them through a key directory in
-- memory. This library models the engine's logic between the two: what the bytes of a record are,
-- and what a write, a vacuum, an ingestion and a resume do to the state that readers see.
--
-- The parts, the files that model them, and the code:
--
-- - Format/Bytes, Format/Types, Format/Entry, Format/Hint: the little-endian cursors of
--   bytecaskdb/serialization.cppm, the entry types and change markers of bytecaskdb/types.cppm, the
--   data records of bytecaskdb/data_entry.cppm (write_header_and_crc, serialize_entry,
--   parse_header_and_verify, deserialize_entry) and the hint records of bytecaskdb/hint_entry.cppm.
--   A span is a list of bytes and a read past its end is an error of its own. CRC32C comes from
--   another project: it is the record Crc32c, of which only chunking and width are assumed.
-- - KeyDirEntry, FileStats: the packed location of a record, the comparison kde_newer, and the
--   counters per file with their deltas, of bytecaskdb/internals.cppm. Words and counters keep their
--   64 bits: sums wrap and shifts drop.
-- - PatchMap: bytecaskdb/patch_map.cppm, a base map below a chain of sorted runs of patches. The
--   base is any U32Map, the interface of bytecaskdb/u32_map.cppm; U32Map/Functions meets it.
-- - KeyOrder, KeyDir: the order of keys, and what the engine asks of its key directory (the kd_
--   functions of bytecaskdb/internals.cppm) as a record of operations and laws. Both builds of the
--   directory provide it. KeyDir/Sorted meets it with sorted lists, whose writes by location decline
--   as those of the keyed build do, and KeyDir/Located with the same lists and writes that do not.
-- - Engine/State: EngineState and TransientEngineState, over any such containers, with the
--   transitions that touch no key. A data file is its size. The size of the read buffers is left out.
-- - Engine/Plan and Engine/Plan/Build: WritePlan of bytecaskdb/bytecask.cppm and the methods that
--   build it. Engine/Validate: validate_preconditions and range_changed of
--   bytecaskdb/engine_state.cpp. Engine/Apply: prepare_write, apply_writes and apply_ingest.
--   Engine/Checked: apply_puts_checked. Engine/Vacuum: apply_vacuum. Engine/Resume: apply_resume.
-- - Recovery: opening a directory. A data file is its bytes and a hint file the entries that its reader
--   decodes; a directory is its data files in name order, and a file's id its place.
--   Recovery/Scan: DataFileIterator of bytecaskdb/data_file.cppm and CommittedEntryIterator of
--   bytecaskdb/batch_iterator.cppm. Recovery/Hints: flush_hints_for and the opening of hint files, of
--   bytecaskdb/db_rotation.cpp. The rest is bytecaskdb/db_recovery.cpp: Recovery/Tail has the check and
--   the cut of a torn tail and recovery_prepare_files, Recovery/Overlap find_sequence_overlap,
--   Recovery/Undo is_compaction_of and recovery_undo_interrupted_vacuum, Recovery/Open the loop of
--   recovery_open over whatever a pass loads, Recovery/Needed the tombstones that must be kept, and
--   Recovery/Cursor, Recovery/Merge and Recovery/Build recovery_build_sorted: its cursors, its merge by
--   key and its result. The heap is the smallest key of the cursors; the order in which it pops
--   equal keys is an argument. Recovery/Ranged and Recovery/Ranged/Load are recovery_load_ranged,
--   one worker and one range after the other; what a tree offers as a sample of its keys is an argument,
--   and what the loaded state takes is the record Recovered.
-- - Tests: runs on concrete data.
--
-- How they meet: a plan is built, validated against the head and its snapshot, turned into records
-- by prepare_write, and applied by apply_writes with the offsets at which the records were placed; a
-- follower applies the same records by apply_ingest. Each writes the key directory and patches the
-- file statistics. A function that may throw returns a Result with one constructor for each throw;
-- what it had changed by then is dropped, as the engine drops the transient.
--
-- The engine's loops are structural recursion on lists. The loops of recovery take a bound: a sweep
-- one step for each byte of the file, a merge one turn for each entry that is left, and recovery_open
-- one pass more than there are files. Sequences are 64-bit numbers whose sums wrap; where that matters
-- a theorem bounds them.
--
-- Not modelled: the trees behind the key directory, the file and page I/O, the locks and threads, the
-- database object that drives the transitions, the recovery of the blind key directory, iterators, the
-- SQL layer and the bindings. Recovery leaves out chunked reads, syncs, the rebuilding of a damaged hint
-- file between two passes of recovery_open, leftover temporary files and
-- the errors of the process or its environment. The listing of a patch map (collect, all) and the paged
-- table are left out too.
pub mod Prelude
pub mod Format
pub mod KeyDirEntry
pub mod FileStats
pub mod KeyOrder
pub mod U32Map
pub mod PatchMap
pub mod KeyDir
pub mod Engine
pub mod Recovery
pub mod Tests
