-- ===== src/Engine/State.antt =====
-- `EngineState`, `TransientEngineState` and the transitions that touch no key. A shared pointer to
-- a data file is the part of the file that the state reads; the marker list is empty where the
-- source's is null. What lets a blind key directory read records back is its own: see KeyDir.
use bytecaskdb.Format.Types.{ChangeMarker, change_marker}
use bytecaskdb.KeyDirEntry.{max_file_id, file_id}
use bytecaskdb.KeyOrder.{Bytes}
use bytecaskdb.KeyDir.{KeyDir}
use bytecaskdb.U32Map.{U32Map}
use bytecaskdb.FileStats.{add64, FileStats, FileStatsDelta, no_delta, no_stats, change_marker_size}
use bytecaskdb.FileStats.Policy.{file_stats_policy}
use bytecaskdb.PatchMap.{PatchMap, TransientPatchMap, get, patch, set}
use bytecaskdb.PatchMap
use bytecaskdb.Prelude.{
  ltb, leb, ◌==◌, if◌then◌else◌, out_of_range, file_ids_exhausted, Result, ok, err, ◌>>◌, throw_if,
  ℕ, ◌+◌, ◌-◌, max, Bool, true, false, not, ◌&&◌, none, some, List, [], ◌∷◌, ◌++◌, bit_or, ◌<<◌,
}

pub record DataFile : Type 0 where
  pub size : ℕ

pub data Mode : Type 0 where
  leader follower : Mode

pub record PendingRecord : Type 0 where
  pub sequence : ℕ
  pub value_size : ℕ
  pub key : Bytes

abbrev pub PendingRecords : Type 0
PendingRecords = List (ℕ × PendingRecord)

-- `file_id << 32 | offset`
unfoldable pub pending_slot : ℕ → ℕ → ℕ
pending_slot file_id offset = bit_or (file_id << 32) offset

unfoldable pub erase_pending : ℕ → PendingRecords → PendingRecords
erase_pending slot [] = []
erase_pending slot (p ∷ ps) =
    let rest = erase_pending slot ps in if p.0 == slot then rest else p ∷ rest

-- `kFileStatsMaxDepth`
abbrev pub file_stats_max_depth : ℕ
file_stats_max_depth = 8

-- The containers that the state is made of.
pub record Containers : Type 1 where
  pub keys : KeyDir
  pub files : U32Map DataFile
  pub stats : U32Map FileStats

module _ (c : Containers) where
  abbrev pub FileStatsMap : Type 0
  FileStatsMap = PatchMap file_stats_policy c.stats

  abbrev pub FileStatsTransient : Type 0
  FileStatsTransient = TransientPatchMap file_stats_policy c.stats

  pub record EngineState : Type 0 where
    pub key_dir : c.keys.Tree
    pub files : c.files.Map
    pub file_stats : FileStatsMap
    pub active_file_id : ℕ
    pub next_file_id : ℕ
    pub next_seq : ℕ
    pub durable_seq : ℕ
    pub sync_requested_seq : ℕ
    pub mode : Mode
    pub degraded : Bool
    pub degraded_reason : Bytes
    pub closed : Bool
    pub change_markers : List ChangeMarker

  pub record TransientEngineState : Type 0 where
    pub key_dir : c.keys.Tree
    pub files : c.files.Map
    pub pending : PendingRecords
    pub file_stats : FileStatsTransient
    pub active_file_id : ℕ
    pub next_file_id : ℕ
    pub next_seq : ℕ
    pub durable_seq : ℕ
    pub sync_requested_seq : ℕ
    pub mode : Mode
    pub degraded : Bool
    pub degraded_reason : Bytes
    pub change_markers : List ChangeMarker

  is_leader : Mode → Bool
  is_leader leader = true
  is_leader follower = false

  unfoldable pub is_write_allowed : EngineState → Bool
  unfolding is_leader
  is_write_allowed s = is_leader s.mode && (not s.degraded && not s.closed)

  unfoldable pub is_ingestion_allowed : EngineState → Bool
  unfolding is_leader
  is_ingestion_allowed s = not (is_leader s.mode) && (not s.degraded && not s.closed)

  unfoldable pub degraded_copy : Bytes → EngineState → EngineState
  degraded_copy reason s = record s { degraded = true; degraded_reason = reason }

  -- The containers and the markers of the copy are empty.
  unfoldable pub closed_copy : c.keys.Tree → c.files.Map → FileStatsMap → EngineState → EngineState
  closed_copy no_keys no_files no_file_stats s = record s {
    key_dir = no_keys;
    files = no_files;
    file_stats = no_file_stats;
    change_markers = [];
    closed = true;
  }

  -- `EngineState::transient`
  unfoldable pub transient : EngineState → TransientEngineState
  transient s = record {
    key_dir = s.key_dir;
    files = s.files;
    pending = [];
    file_stats = PatchMap.transient file_stats_policy c.stats s.file_stats;
    active_file_id = s.active_file_id;
    next_file_id = s.next_file_id;
    next_seq = s.next_seq;
    durable_seq = s.durable_seq;
    sync_requested_seq = s.sync_requested_seq;
    mode = s.mode;
    degraded = s.degraded;
    degraded_reason = s.degraded_reason;
    change_markers = s.change_markers;
  }

  -- `TransientEngineState::persistent`
  unfoldable pub persistent : TransientEngineState → EngineState
  persistent t = record {
    key_dir = t.key_dir;
    files = t.files;
    file_stats = PatchMap.persistent file_stats_policy c.stats file_stats_max_depth t.file_stats;
    active_file_id = t.active_file_id;
    next_file_id = t.next_file_id;
    next_seq = t.next_seq;
    durable_seq = t.durable_seq;
    sync_requested_seq = t.sync_requested_seq;
    mode = t.mode;
    degraded = t.degraded;
    degraded_reason = t.degraded_reason;
    closed = false;
    change_markers = t.change_markers;
  }

  -- `file_stats_.patch(id, d)`
  unfoldable pub patch_stats : ℕ → FileStatsDelta → TransientEngineState → TransientEngineState
  patch_stats id d t = record t {
    file_stats = PatchMap.patch file_stats_policy c.stats id d t.file_stats;
  }

  unfoldable pub append_marker : ChangeMarker → TransientEngineState → TransientEngineState
  append_marker m t = record t { change_markers = t.change_markers ++ m ∷ [] }

  unfoldable pub apply_change_marker : ℕ → ℕ → TransientEngineState → TransientEngineState
  apply_change_marker sequence id t =
      let sz = change_marker_size change_marker in
      let t₁ =
        patch_stats t.active_file_id
          (record no_delta {
            total_added = sz;
            change_marker_added = sz;
            min_sequence = sequence;
            max_sequence = sequence;
          })
          t in
      let t₂ = if leb t₁.next_seq sequence then record t₁ { next_seq = add64 sequence 1 } else t₁ in
      append_marker (record { since_sequence = sequence; id = id }) t₂

  -- A record placed in the active file before it is written, for a directory that reads keys back.
  unfoldable pub note_pending : ℕ → ℕ → Bytes → ℕ → TransientEngineState → TransientEngineState
  note_pending offset sequence key value_size t =
      let slot = pending_slot t.active_file_id offset in
      let placed = record t {
        pending =
            (slot, record { sequence = sequence; value_size = value_size; key = key })
            ∷ erase_pending slot t.pending;
      } in
      if c.keys.reads_keys then placed else t

  unfoldable pub apply_rotate_file :
      DataFile → DataFile → ℕ → TransientEngineState → TransientEngineState
  apply_rotate_file sealed_old new_file new_file_id t = record t {
    files = c.files.set new_file_id new_file (c.files.set t.active_file_id sealed_old t.files);
    active_file_id = new_file_id;
    file_stats = PatchMap.set file_stats_policy c.stats new_file_id no_stats t.file_stats;
  }

  unfoldable pub file_ids_left : TransientEngineState → ℕ
  file_ids_left t = if ltb max_file_id t.next_file_id then 0 else max_file_id - t.next_file_id + 1

  -- The next id, and the counter past it.
  unfoldable pub reserve_file_id : TransientEngineState → Result (ℕ × TransientEngineState)
  reserve_file_id t = do
    throw_if (file_ids_left t == 0) file_ids_exhausted
    ok (t.next_file_id, record t { next_file_id = t.next_file_id + 1 })

  unfoldable pub apply_sync : ℕ → TransientEngineState → TransientEngineState
  apply_sync batch_max_seq t =
      if ltb t.durable_seq batch_max_seq then record t { durable_seq = batch_max_seq } else t

  unfoldable pub note_sync_requested : ℕ → TransientEngineState → TransientEngineState
  note_sync_requested seq t = record t { sync_requested_seq = max t.sync_requested_seq seq }

  unfoldable pub apply_set_mode : Mode → TransientEngineState → TransientEngineState
  apply_set_mode mode t = record t { mode = mode }

  unfoldable pub apply_degrade : Bytes → TransientEngineState → TransientEngineState
  apply_degrade reason t = record t { degraded = true; degraded_reason = reason }

  unfoldable pub apply_clear_degraded : TransientEngineState → TransientEngineState
  apply_clear_degraded t = record t { degraded = false; degraded_reason = [] }

  unfoldable pub is_rotation_needed : ℕ → TransientEngineState → Result Bool
  is_rotation_needed threshold t = elim (c.files.get t.files t.active_file_id) [
    | none ↦ err out_of_range
    | some file ↦ ok (leb threshold file.size)
  ]
