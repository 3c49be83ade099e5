-- ===== src/Tests/Maps.antt =====
-- A patch map of file statistics, and the packing of entries.
use bytecaskdb.FileStats.{FileStats, FileStatsDelta, apply, combine, no_delta, no_stats}
use bytecaskdb.FileStats.Policy.{apply-combine, file_stats_policy}
use bytecaskdb.U32Map.{U32Map}
use bytecaskdb.U32Map.Functions.{function_map}
use bytecaskdb.KeyDirEntry.{KeyDirEntry, make, pack}
use bytecaskdb.KeyDirEntry.Packing.{Holds, InLimits, make-eq-ok}
use bytecaskdb.PatchMap.{
  Entries, TransientPatchMap, delta, erased, get, get_transient, lookup, persistent, record_patch,
  value,
}
use bytecaskdb.PatchMap.Lookup.{change, lookup-eq-view, view}
use bytecaskdb.PatchMap.Record.{get_transient-record_patch}
use bytecaskdb.PatchMap.Freeze.{
  IsValid, IsValidTransient, get-persistent, persistent-IsValid, record_patch-IsValid,
}
use bytecaskdb.Prelude.{◌==◌, if◌then◌else◌, ◌≡◌, refl, none, some, List, [], ◌∷◌, arith}

abbrev tables : U32Map FileStats
tables = function_map FileStats

abbrev grown : FileStatsDelta
grown = record no_delta { live_added = 40; total_added = 40; min_sequence = 3; max_sequence = 4 }

abbrev shrunk : FileStatsDelta
shrunk = record no_delta { live_removed = 20; max_sequence = 9 }

-- File 1 was erased and file 2 set over an empty table; file 2 then grew.
abbrev two_runs : List (Entries FileStats FileStatsDelta)
two_runs = ((2, delta grown) ∷ []) ∷ ((1, erased) ∷ (2, value no_stats) ∷ []) ∷ []

abbrev recording : TransientPatchMap file_stats_policy tables
recording = record {
  version = record { table = λ id. none; runs = two_runs; depth = 2 };
  pending = (2, delta shrunk) ∷ (5, value no_stats) ∷ [];
  last = 0;
}

recording-IsValid : IsValidTransient file_stats_policy tables 8 recording
recording-IsValid = record {
  version = record {
    sorted = ((tt, tt), (((omega arith, tt), (tt, tt)), tt));
    counted = refl;
    within = omega arith;
  };
  pending = ((omega arith, tt), (tt, tt));
}

lookup-eq-view_example :
    lookup file_stats_policy tables (λ id. none) two_runs 2
    ≡ view file_stats_policy tables (λ id. none) two_runs 2
lookup-eq-view_example = lookup-eq-view file_stats_policy tables (λ id. none) two_runs 2

get_transient-record_patch_example :
    get_transient file_stats_policy tables
      (record_patch file_stats_policy tables 2 (delta grown) recording)
      2
    ≡ (if 2 == 2
        then change file_stats_policy
            (some (delta grown))
            (get_transient file_stats_policy tables recording 2)
        else get_transient file_stats_policy tables recording 2)
get_transient-record_patch_example =
    get_transient-record_patch file_stats_policy tables 2 2 (delta grown) recording
      recording-IsValid.pending

get-persistent_example :
    get file_stats_policy tables (persistent file_stats_policy tables 8 recording) 2
    ≡ get_transient file_stats_policy tables recording 2
get-persistent_example = get-persistent file_stats_policy tables 8 2 recording recording-IsValid

persistent-IsValid_example :
    IsValid file_stats_policy tables 8 (persistent file_stats_policy tables 8 recording)
persistent-IsValid_example =
    persistent-IsValid file_stats_policy tables 8 recording recording-IsValid

record_patch-IsValid_example :
    IsValidTransient file_stats_policy tables 8
      (record_patch file_stats_policy tables 3 (value no_stats) recording)
record_patch-IsValid_example =
    record_patch-IsValid file_stats_policy tables 8 3 (value no_stats) recording recording-IsValid

apply-combine_example : apply no_stats (combine grown shrunk) ≡ apply (apply no_stats grown) shrunk
apply-combine_example = apply-combine no_stats grown shrunk

abbrev entry_a : KeyDirEntry
entry_a = pack 9 100 70000 5

abbrev entry_b : KeyDirEntry
entry_b = pack 8 300 2 5

make-eq-ok_example : InLimits 9 100 70000 5 × Holds entry_a 9 100 70000 5
make-eq-ok_example = make-eq-ok 9 100 70000 5 entry_a (unfold make in refl)
