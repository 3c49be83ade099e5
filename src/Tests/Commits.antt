-- ===== src/Tests/Commits.antt =====
-- Writes, checks and vacuums on a small database.
use bytecaskdb.KeyDir.Sorted.{insert, from_bound}
use bytecaskdb.KeyOrder.{key_eq, key_lt}
use bytecaskdb.KeyDirEntry.{
  check_file_id, check_file_offset, check_sequence, check_value_size, make, sequence, pack,
}
use bytecaskdb.Engine.State.{
  patch_stats, TransientEngineState, transient, EngineState, note_pending,
}
use bytecaskdb.Engine.Plan.{write_count, WritePlan, resolved_entry}
use bytecaskdb.Engine.Plan.Build
use bytecaskdb.Engine.Validate.{validate_preconditions}
use bytecaskdb.Engine.Validate.Writes.{SnapHasSequences}
use bytecaskdb.Engine.Validate.Decides.{IsAllowed}
use bytecaskdb.Engine.Validate.Total.{HasWhatItNeeds, validate_preconditions-decides}
use bytecaskdb.Engine.Validate.Built.{Built, Built-HasWhatItNeeds}
use bytecaskdb.Engine.Apply.{
  apply_ingest, apply_writes, op_entries, prepare_write, apply_del, apply_ops, apply_put,
  apply_range_del, apply_write, offset_at, apply_marker, displace, doom, erase_all, next,
  note_range, note_written, place,
}
use bytecaskdb.Engine.Apply.Keys.{spec_ops, view}
use bytecaskdb.Engine.Apply.Refine.{apply_writes-view}
use bytecaskdb.Engine.Apply.Total.{apply_writes_total}
use bytecaskdb.Engine.Apply.Replicate.{apply_ingest-prepare_write}
use bytecaskdb.Engine.Vacuum.{VacuumScanResult, apply_vacuum, remap, remap_all}
use bytecaskdb.Engine.Vacuum.Moves.{apply_vacuum-version}
use bytecaskdb.Tests.Fixtures.{batch, lists, start, empty_state, guarded}
use bytecaskdb.KeyDir.{lookup, KeyDir}
use bytecaskdb.Format.Bytes.{narrow}
use bytecaskdb.FileStats.{add64}
use bytecaskdb.Engine.Validate.Range.{HasSequences, version}
use bytecaskdb.Prelude.{
  ltb, if◌then◌else◌, length, ok, err, ℕ, ◌≡◌, refl, subst, ◌↔◌, inl, Bool, true, false, none, some,
  List, [], ◌∷◌, arith,
}

abbrev places : List ℕ
places = 0 ∷ 20 ∷ 40 ∷ 60 ∷ 80 ∷ []

apply_ingest-prepare_write_example :
    apply_ingest lists (prepare_write lists start batch) places start
    ≡ apply_writes lists batch places start
apply_ingest-prepare_write_example =
    apply_ingest-prepare_write lists batch places start (omega arith)
      (unfold transient in omega arith) (unfold prepare_write write_count op_entries in refl)

abbrev written : TransientEngineState lists
written = elim (apply_writes lists batch places start) [ ok u ↦ u | err _ ↦ start ]

batch-written : apply_writes lists batch places start ≡ ok written
unfolding apply_writes write_count apply_ops apply_write offset_at apply_put apply_del
    apply_range_del narrow note_pending make check_sequence check_file_id check_file_offset
    check_value_size transient next apply_marker patch_stats
batch-written = refl

apply_writes-view_example :
    view lists written.key_dir
    ≡ spec_ops
        (if ltb 1 (length batch.writes) then add64 start.next_seq 1 else start.next_seq)
        batch.writes
        (view lists start.key_dir)
apply_writes-view_example = apply_writes-view lists batch places start written batch-written

start-HasSequences : HasSequences lists.keys start.key_dir
unfolding transient lookup
start-HasSequences k e h = absurd (cc h)

guarded-SnapHasSequences : SnapHasSequences lists guarded.snap
unfolding lookup
guarded-SnapHasSequences s e k f h =
    let same : s ≡ empty_state = cc e in
    let found : none ≡ some f =
      subst (λ (x : EngineState lists). lists.keys.get x.key_dir k ≡ some f) same h in
    absurd (cc found)

validate_preconditions-decides_example :
    (b : Bool) × (r : ℕ) × (validate_preconditions lists start guarded false ≡ ok (b, r))
    × ((b ≡ true) ↔ IsAllowed lists start guarded false)
validate_preconditions-decides_example =
    validate_preconditions-decides lists start guarded false start-HasSequences
      guarded-SnapHasSequences (λ s e. inl refl) (λ e. absurd (cc e))

abbrev sealed : VacuumScanResult
sealed = record {
  cancelled = false;
  mappings =
      record { key = 1 ∷ []; new_offset = 7; sequence = 2; value_size = 1 }
      ∷ record { key = 8 ∷ []; new_offset = 90; sequence = 1; value_size = 3 }
      ∷ [];
  live_bytes = 60;
  total_bytes = 60;
  min_sequence = 1;
  max_sequence = 2;
  tombstone_bytes = 0;
  marker_bytes = 0;
  change_marker_bytes = 0;
  tombstones_dropped = 0;
}

abbrev compacted : TransientEngineState lists
compacted = elim (apply_vacuum lists 0 sealed (some (record { size = 60 })) 1 written) [
  | ok u ↦ u
  | err _ ↦ start
]

sealed-compacted :
    apply_vacuum lists 0 sealed (some (record { size = 60 })) 1 written ≡ ok compacted
unfolding apply_vacuum remap_all remap apply_writes write_count apply_ops apply_write offset_at
    apply_put apply_del apply_range_del narrow note_pending make check_sequence check_file_id
    check_file_offset check_value_size transient next apply_marker patch_stats displace place doom
    erase_all note_written note_range lookup insert key_lt key_eq from_bound pack sequence
    resolved_entry bytecaskdb.Engine.Apply.remove bytecaskdb.KeyDir.Sorted.remove
sealed-compacted = refl

apply_vacuum-version_example :
    version (lists.keys.get compacted.key_dir (1 ∷ []))
    ≡ version (lists.keys.get written.key_dir (1 ∷ []))
apply_vacuum-version_example =
    apply_vacuum-version lists 0 1 sealed (some (record { size = 60 })) written compacted
      sealed-compacted (1 ∷ [])

abbrev first_plan : WritePlan lists
first_plan = Build.new_plan lists (record { max_key_bytes = 100; max_value_bytes = 100 }) none

abbrev built_plan : WritePlan lists
built_plan = elim (Build.ensure_absent lists (1 ∷ []) first_plan) [ ok p ↦ p | err _ ↦ first_plan ]

Built-HasWhatItNeeds_example : HasWhatItNeeds lists built_plan × (built_plan.snap_entries ≡ [])
Built-HasWhatItNeeds_example = Built-HasWhatItNeeds lists built_plan (
    Built.did_ensure_absent first_plan built_plan (1 ∷ [])
      (Built.start (record { max_key_bytes = 100; max_value_bytes = 100 }) none)
      (unfold Build.ensure_absent Build.set_precondition Build.check_key_size Build.new_plan in
        refl))

apply_writes_total_example :
    (u : TransientEngineState lists) × (apply_writes lists batch places start ≡ ok u)
    × (view lists u.key_dir
        ≡ spec_ops
            (if ltb 1 (length batch.writes) then add64 start.next_seq 1 else start.next_seq)
            batch.writes
            (view lists start.key_dir))
apply_writes_total_example =
    apply_writes_total lists batch places start (unfold transient in omega arith)
      (unfold transient in omega arith)
      (omega arith, (omega arith, (omega arith, (omega arith, (omega arith, tt))))) refl
      (omega arith, (tt, (tt, tt)))
