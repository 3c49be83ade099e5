-- ===== src/Engine/Vacuum.antt =====
-- `apply_vacuum` of bytecaskdb/engine_state.cpp, with `VacuumMapping` and `VacuumScanResult` of
-- bytecaskdb/internals.cppm: a sealed file leaves, and its live records' keys move to the new file.
pub mod Moves
use bytecaskdb.KeyOrder.{Bytes}
use bytecaskdb.KeyDirEntry.{make, sequence}
use bytecaskdb.FileStats.{FileStats, sub64, entry_size}
use bytecaskdb.FileStats.Policy.{file_stats_policy}
use bytecaskdb.PatchMap
use bytecaskdb.Engine.State.{Containers, DataFile, TransientEngineState}
use bytecaskdb.Prelude.{
  ◌==◌, if◌then◌else◌, length, live_without_destination, Result, ok, err, ◌>>=◌, ℕ, Bool, true,
  false, Option, none, some, List, [], ◌∷◌,
}

pub record VacuumMapping : Type 0 where
  pub key : Bytes
  pub new_offset : ℕ
  pub sequence : ℕ
  pub value_size : ℕ

pub record VacuumScanResult : Type 0 where
  pub cancelled : Bool
  pub mappings : List VacuumMapping
  pub live_bytes : ℕ
  pub total_bytes : ℕ
  pub min_sequence : ℕ
  pub max_sequence : ℕ
  pub tombstone_bytes : ℕ
  pub marker_bytes : ℕ
  pub change_marker_bytes : ℕ
  pub tombstones_dropped : ℕ

module _ (c : Containers) where
  -- One mapping: whether the key is still at the record, and the directory after it.
  unfoldable pub remap : ℕ → VacuumMapping → c.keys.Tree → Result (Bool × c.keys.Tree)
  remap dest_file_id m tree =
      let moved = make m.sequence m.new_offset dest_file_id m.value_size in
      elim (c.keys.get tree m.key) [
        | none ↦ ok (false, tree)
        | some cur ↦
            if sequence cur == m.sequence
            then (moved >>= (λ e. ok (true, (c.keys.put m.key e tree).1)))
            else ok (false, tree)
      ]

  -- The loop, with `actual_live_bytes`.
  unfoldable pub remap_all : ℕ → List VacuumMapping → ℕ → c.keys.Tree → Result (ℕ × c.keys.Tree)
  remap_all dest_file_id [] live tree = ok (live, tree)
  remap_all dest_file_id (m ∷ ms) live tree = do
    r ← remap dest_file_id m tree
    remap_all dest_file_id ms
        (if r.0 then live else sub64 live (entry_size (length m.key) m.value_size)) r.1

  unfoldable pub apply_vacuum :
      ℕ
      → VacuumScanResult
      → Option DataFile
      → ℕ
      → TransientEngineState c
      → Result (TransientEngineState c)
  apply_vacuum old_file_id scan none dest_file_id t = elim scan.mappings [
    | m ∷ ms ↦ err live_without_destination
    | [] ↦ ok (record t {
      files = c.files.erase old_file_id t.files;
      file_stats = PatchMap.erase file_stats_policy c.stats old_file_id t.file_stats;
    })
  ]
  apply_vacuum old_file_id scan (some new_sealed_file) dest_file_id t = do
    r ← remap_all dest_file_id scan.mappings scan.live_bytes t.key_dir
    let stats : FileStats = record {
      live_bytes = r.0;
      total_bytes = scan.total_bytes;
      min_sequence = scan.min_sequence;
      max_sequence = scan.max_sequence;
      tombstone_bytes = scan.tombstone_bytes;
      marker_bytes = scan.marker_bytes;
      change_marker_bytes = scan.change_marker_bytes;
    }
    ok (record t {
      key_dir = r.1;
      files = c.files.erase old_file_id (c.files.set dest_file_id new_sealed_file t.files);
      file_stats =
          PatchMap.set file_stats_policy c.stats dest_file_id stats
            (PatchMap.erase file_stats_policy c.stats old_file_id t.file_stats);
    })
