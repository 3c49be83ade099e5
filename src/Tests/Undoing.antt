-- ===== src/Tests/Undoing.antt =====
-- A plan of puts that finds a conflict and is taken back.
use bytecaskdb.KeyDirEntry.{pack}
use bytecaskdb.KeyDir.Located.{located_list}
use bytecaskdb.U32Map.Functions.{function_map}
use bytecaskdb.FileStats.{FileStats}
use bytecaskdb.Engine.State.{Containers, DataFile, Mode, TransientEngineState, leader}
use bytecaskdb.Engine.Plan.{WritePlan, point_put}
use bytecaskdb.Engine.Checked.{apply_puts_checked}
use bytecaskdb.Engine.Checked.Undone.{SameKeys, apply_puts_checked_undone}
use bytecaskdb.Prelude.{ok, err, ℕ, ◌≡◌, refl, Bool, true, false, none, some, List, [], ◌∷◌}

abbrev located : Containers
located = record {
  keys = located_list;
  files = function_map DataFile;
  stats = function_map FileStats;
}

-- One key, whose record a later write moved from offset 0 to 30.
abbrev moved_state : TransientEngineState located
moved_state = record {
  key_dir = record { bindings = (2 ∷ [], pack 2 30 0 1) ∷ []; ascending = (tt, tt) };
  files = λ id. none;
  pending = [];
  file_stats = record {
    version = record { table = λ id. none; runs = []; depth = 0 };
    pending = [];
    last = 0;
  };
  active_file_id = 0;
  next_file_id = 1;
  next_seq = 3;
  durable_seq = 0;
  sync_requested_seq = 0;
  mode = Mode.leader;
  degraded = false;
  degraded_reason = [];
  change_markers = [];
}

-- The first put inserts its key; the second goes by the record that the snapshot had.
abbrev conflicting : WritePlan located
conflicting = record {
  snap = none;
  limits = record { max_key_bytes = 100; max_value_bytes = 100 };
  writes = point_put (1 ∷ []) (5 ∷ []) ∷ point_put (2 ∷ []) (6 ∷ []) ∷ [];
  guards = [];
  range_guards = [];
  snap_entries = none ∷ some (pack 1 0 0 1) ∷ [];
}

abbrev spots : List ℕ
spots = 50 ∷ 70 ∷ 90 ∷ 110 ∷ []

abbrev taken_back : Bool × TransientEngineState located
taken_back = elim (apply_puts_checked located conflicting spots moved_state) [
  | ok r ↦ r
  | err _ ↦ (true, moved_state)
]

conflict-taken_back :
    apply_puts_checked located conflicting spots moved_state ≡ ok (false, taken_back.1)
unfolding apply_puts_checked bytecaskdb.Engine.Checked.puts_loop bytecaskdb.Format.Bytes.narrow
    bytecaskdb.Engine.Apply.offset_at bytecaskdb.Engine.Plan.write_count bytecaskdb.KeyDirEntry.make
    bytecaskdb.Engine.Apply.next bytecaskdb.Engine.Checked.put_checked
    bytecaskdb.Engine.Plan.resolved_entry bytecaskdb.KeyDir.lookup
    bytecaskdb.Engine.State.note_pending bytecaskdb.KeyOrder.key_eq bytecaskdb.KeyDir.Sorted.insert
    bytecaskdb.KeyDir.Sorted.remove bytecaskdb.KeyOrder.key_lt pack
    bytecaskdb.Engine.Checked.abandon bytecaskdb.Engine.Checked.undo_all
    bytecaskdb.Engine.Checked.undo_one bytecaskdb.Engine.Checked.release_pending
    bytecaskdb.Engine.State.erase_pending bytecaskdb.Engine.State.pending_slot
    bytecaskdb.KeyDirEntry.check_file_id bytecaskdb.KeyDirEntry.check_file_offset
    bytecaskdb.KeyDirEntry.check_sequence bytecaskdb.KeyDirEntry.check_value_size
conflict-taken_back = refl

apply_puts_checked_undone_example :
    SameKeys located taken_back.1.key_dir moved_state.key_dir
    × (taken_back.1.next_seq ≡ moved_state.next_seq)
apply_puts_checked_undone_example =
    apply_puts_checked_undone located conflicting spots moved_state taken_back.1 conflict-taken_back
