-- ===== src/FileStats.antt =====
-- Per-file byte counters and the sizes that they count, of bytecaskdb/internals.cppm. Counters are
-- `uint64_t`: sums and differences are taken modulo 2 ^ 64.
pub mod Policy
use bytecaskdb.Format.Types.{
  EntryType, put, delete, bulk_begin, bulk_end, range_del, change_marker, unknown, ChangeMarker,
  origin_marker, change_marker_id_bytes,
}
use bytecaskdb.Format.Entry.{header_size, crc_size}
use bytecaskdb.Prelude.{ltb, ◌==◌, if◌then◌else◌, ℕ, ◌+◌, ◌-◌, ◌%◌, ◌^◌, max, List, [], ◌∷◌}

-- `uint64_t` addition and subtraction
abbrev pub u64 : ℕ
u64 = 2 ^ 64

abbrev pub add64 : ℕ → ℕ → ℕ
add64 a b = (a + b) % u64

abbrev pub sub64 : ℕ → ℕ → ℕ
sub64 a b = (a + (u64 - b % u64)) % u64

pub record FileStats : Type 0 where
  pub live_bytes : ℕ
  pub total_bytes : ℕ
  pub min_sequence : ℕ
  pub max_sequence : ℕ
  pub tombstone_bytes : ℕ
  pub marker_bytes : ℕ
  pub change_marker_bytes : ℕ

unfoldable pub reclaimable_bytes : FileStats → ℕ
reclaimable_bytes fs =
    let kept =
      add64 (add64 (add64 fs.live_bytes fs.tombstone_bytes) fs.marker_bytes)
        fs.change_marker_bytes in
    if ltb kept fs.total_bytes then sub64 fs.total_bytes kept else 0

pub record FileStatsDelta : Type 0 where
  pub live_added : ℕ
  pub live_removed : ℕ
  pub total_added : ℕ
  pub tombstone_added : ℕ
  pub marker_added : ℕ
  pub change_marker_added : ℕ
  pub min_sequence : ℕ
  pub max_sequence : ℕ

-- The delta that changes nothing, which each patch names its fields over.
abbrev pub no_delta : FileStatsDelta
no_delta = record {
  live_added = 0;
  live_removed = 0;
  total_added = 0;
  tombstone_added = 0;
  marker_added = 0;
  change_marker_added = 0;
  min_sequence = 0;
  max_sequence = 0;
}

-- `FileStats{}`
abbrev pub no_stats : FileStats
no_stats = record {
  live_bytes = 0;
  total_bytes = 0;
  min_sequence = 0;
  max_sequence = 0;
  tombstone_bytes = 0;
  marker_bytes = 0;
  change_marker_bytes = 0;
}

-- `FileStatsPolicy::apply`
unfoldable pub apply : FileStats → FileStatsDelta → FileStats
apply fs d = record {
  live_bytes = sub64 (add64 fs.live_bytes d.live_added) d.live_removed;
  total_bytes = add64 fs.total_bytes d.total_added;
  tombstone_bytes = add64 fs.tombstone_bytes d.tombstone_added;
  marker_bytes = add64 fs.marker_bytes d.marker_added;
  change_marker_bytes = add64 fs.change_marker_bytes d.change_marker_added;
  min_sequence = if fs.min_sequence == 0 then d.min_sequence else fs.min_sequence;
  max_sequence = max fs.max_sequence d.max_sequence;
}

-- `FileStatsPolicy::combine`
unfoldable pub combine : FileStatsDelta → FileStatsDelta → FileStatsDelta
combine older d = record {
  live_added = add64 older.live_added d.live_added;
  live_removed = add64 older.live_removed d.live_removed;
  total_added = add64 older.total_added d.total_added;
  tombstone_added = add64 older.tombstone_added d.tombstone_added;
  marker_added = add64 older.marker_added d.marker_added;
  change_marker_added = add64 older.change_marker_added d.change_marker_added;
  min_sequence = if older.min_sequence == 0 then d.min_sequence else older.min_sequence;
  max_sequence = max older.max_sequence d.max_sequence;
}

-- `entry_size`; sizes are far below 2 ^ 64.
unfoldable pub entry_size : ℕ → ℕ → ℕ
entry_size key_size value_size = header_size + key_size + value_size + crc_size

unfoldable pub tombstone_size : EntryType → ℕ → ℕ → ℕ
tombstone_size delete key_size value_size = entry_size key_size value_size
tombstone_size range_del key_size value_size = entry_size key_size value_size
tombstone_size _ key_size value_size = 0

unfoldable pub marker_size : EntryType → ℕ
marker_size bulk_begin = entry_size 0 0
marker_size bulk_end = entry_size 0 0
marker_size _ = 0

unfoldable pub change_marker_size : EntryType → ℕ
change_marker_size change_marker = entry_size 0 change_marker_id_bytes
change_marker_size _ = 0

-- The loop of `marker_at`: the last marker at or below the sequence, of a list sorted by it.
marker_loop : ChangeMarker → List ChangeMarker → ℕ → ChangeMarker
marker_loop at_ [] sequence = at_
marker_loop at_ (m ∷ ms) sequence =
    let rest = marker_loop m ms sequence in if ltb sequence m.since_sequence then at_ else rest

-- A null list holds none, as an empty one does.
unfoldable pub marker_at : List ChangeMarker → ℕ → ChangeMarker
unfolding marker_loop
marker_at markers sequence = marker_loop origin_marker markers sequence
