-- ===== src/Recovery/Open.antt =====
-- `DB::recovery_open` of bytecaskdb/db_recovery.cpp. What a pass loads, and the statistics of it, are
-- given: the loop only asks whether the pass threw, and which files overlap. That a pass may build a
-- damaged hint file again is left out: the next pass is given the files as they were.
pub mod Ends
pub mod Hinted
pub mod Keeps
use bytecaskdb.Prelude.{
  Error, sequence_overlap, Result, ok, err, ℕ, zero, suc, Option, none, some, List,
}
use bytecaskdb.Format.Bytes.{Crc32c}
use bytecaskdb.FileStats.{FileStats}
use bytecaskdb.Recovery.Hints.{StoredFile}
use bytecaskdb.Recovery.Tail.{recovery_prepare_files}
use bytecaskdb.Recovery.Overlap.{find_sequence_overlap}
use bytecaskdb.Recovery.Undo.{recovery_undo_interrupted_vacuum}

-- What a pass comes to: the state, two files that share sequences, or an exception.
pub data Pass (State : Type 0) : Type 0 where
  loaded : State → Pass State
  overlapping : ℕ → ℕ → Pass State
  thrown : Error → Pass State

module _ {State : Type 0} where
  -- `catch (const SequenceOverlap &e)`
  unfoldable pub caught : Error → Pass State
  caught (sequence_overlap a b) = overlapping a b
  caught e = thrown e

  unfoldable pub pass_of : (State → List (ℕ × FileStats)) → Result State → Pass State
  unfolding caught
  pass_of all_stats (err e) = caught e
  pass_of all_stats (ok s) = elim (find_sequence_overlap (all_stats s)) [
    | none ↦ loaded s
    | some (a, b) ↦ overlapping a b
  ]

module _ (c : Crc32c) {State : Type 0} (load : List StoredFile → Result State)
    (all_stats : State → List (ℕ × FileStats)) where
  -- The end of a pass over prepared files: the next passes are `rerun`.
  unfoldable pub after_pass :
      (List StoredFile → Option (Result (State × List StoredFile)))
      → List StoredFile
      → Pass State
      → Option (Result (State × List StoredFile))
  after_pass rerun files (loaded s) = some (ok (s, files))
  after_pass rerun files (thrown e) = some (err e)
  after_pass rerun files (overlapping a b) = elim (recovery_undo_interrupted_vacuum c a b files) [
    | err e ↦ some (err e)
    | ok left ↦ rerun left
  ]

  -- The state and the files that are left; `none` when the passes have run out.
  unfoldable pub recovery_open : ℕ → List StoredFile → Option (Result (State × List StoredFile))
  unfolding after_pass pass_of
  recovery_open zero files = none
  recovery_open (suc passes) files = elim (recovery_prepare_files c files) [
    | err e ↦ some (err e)
    | ok prepared ↦ after_pass (recovery_open passes) prepared (pass_of all_stats (load prepared))
  ]
