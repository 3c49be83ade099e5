-- ===== src/Recovery/Ranged/Load.antt =====
-- The phases of `DB::recovery_load_ranged` (bytecaskdb/db_recovery.cpp) round the merge of a range: the
-- files dealt to the workers, the union of their results, the splitters, and what the ranges come to.
use bytecaskdb.Prelude.{
  ltb, ◌==◌, if◌then◌else◌, length, get_elem?, Result, ok, ◌>>=◌, ℕ, zero, suc, ◌+◌, ◌-◌, ◌*◌, ◌/◌,
  ◌%◌, max, min, Bool, true, false, ◌||◌, Option, none, some, List, [], ◌∷◌, ◌++◌,
}
use bytecaskdb.KeyOrder.{Bytes, key_lt, key_eq}
use bytecaskdb.KeyDir.{Bindings}
use bytecaskdb.KeyDir.Sorted.{from_bound}
use bytecaskdb.FileStats.{FileStats, add64}
use bytecaskdb.Format.Bytes.{Crc32c}
use bytecaskdb.Format.Types.{ChangeMarker}
use bytecaskdb.Recovery.Overlap.{sorted_markers}
use bytecaskdb.Recovery.Needed.{RangeTombstone, NeededTombstones, recovery_needed_tombstones}
use bytecaskdb.Recovery.Merge.{PopOrder, Tombstones, note_delete}
use bytecaskdb.Recovery.Build.{RecoveredFile, RecoveryResult, recovery_build_sorted}
use bytecaskdb.Recovery.Ranged.{RangeOut, range_loop, reaching, skip_below}

-- `worker_files[i % W]`: the files of one worker, from the file numbered `i` on.
unfoldable pub dealt_to : ℕ → ℕ → ℕ → List RecoveredFile → List RecoveredFile
dealt_to worker workers i [] = []
dealt_to worker workers i (file ∷ files) =
    let rest = dealt_to worker workers (suc i) files in
    if i % workers == worker then file ∷ rest else rest

-- The results of the workers from `worker` on, each with its own heap.
unfoldable pub build_parts :
    Crc32c → (ℕ → PopOrder) → Bool → ℕ → ℕ → ℕ → List RecoveredFile → Result (List RecoveryResult)
unfolding dealt_to
build_parts c pops strict zero worker workers files = ok []
build_parts c pops strict (suc n) worker workers files = do
  part ← recovery_build_sorted c (pops worker) strict (dealt_to worker workers 0 files)
  parts ← build_parts c pops strict n (suc worker) workers files
  ok (part ∷ parts)

-- A part's tombstones, into those of the parts before it.
unfoldable pub union_tombstones : Tombstones → Tombstones → Tombstones
union_tombstones all_tombs [] = all_tombs
union_tombstones all_tombs ((k, t) ∷ ts) =
    union_tombstones (note_delete k t.seq t.file_id all_tombs) ts

pub record Union : Type 0 where
  pub tombstones : Tombstones
  pub ranges : List RangeTombstone
  pub needed : List ℕ
  pub file_stats : List (ℕ × FileStats)
  pub markers : List ChangeMarker
  pub max_seq : ℕ
  pub skipped_files : Bool

abbrev pub no_parts : Union
no_parts = record {
  tombstones = [];
  ranges = [];
  needed = [];
  file_stats = [];
  markers = [];
  max_seq = 0;
  skipped_files = false;
}

-- One turn of the loop over the parts.
unfoldable pub union_part : Union → RecoveryResult → Union
unfolding union_tombstones
union_part u part = record {
  tombstones = union_tombstones u.tombstones part.tombstones;
  ranges = u.ranges ++ part.range_tombstones;
  needed = u.needed ++ part.needed_tombstones;
  file_stats = u.file_stats ++ part.file_stats;
  markers = u.markers ++ part.change_markers;
  max_seq = max u.max_seq part.max_seq;
  skipped_files = u.skipped_files || part.skipped_files;
}

-- Phase 3: the metadata of the parts.
unfoldable pub union_parts : Union → List RecoveryResult → Union
unfolding union_part
union_parts u [] = u
union_parts u (part ∷ parts) = union_parts (union_part u part) parts

unfoldable pub insert_key : Bytes → List Bytes → List Bytes
insert_key key [] = key ∷ []
insert_key key (k ∷ ks) =
    let rest = insert_key key ks in if key_lt k key then k ∷ rest else key ∷ k ∷ ks

unfoldable pub sort_keys : List Bytes → List Bytes
unfolding insert_key
sort_keys [] = []
sort_keys (k ∷ ks) = insert_key k (sort_keys ks)

unfoldable pub unique_keys : List Bytes → List Bytes
unique_keys [] = []
unique_keys (k ∷ []) = k ∷ []
unique_keys (k ∷ j ∷ ks) = let rest = unique_keys (j ∷ ks) in if key_eq k j then rest else k ∷ rest

-- `pool[r * pool.size() / R]`, for `n` numbers from `r` on.
unfoldable pub pick_keys : ℕ → ℕ → ℕ → List Bytes → List Bytes
pick_keys zero r parts pool = []
pick_keys (suc n) r parts pool =
    let rest = pick_keys n (suc r) parts pool in
    elim (get_elem? pool (r * length pool / parts)) [ none ↦ rest | some k ↦ k ∷ rest ]

-- `kOversample`
abbrev pub oversample : ℕ
oversample = 8

unfoldable pub pool_of : (Bindings → ℕ → List Bytes) → ℕ → List RecoveryResult → List Bytes
pool_of sample parts [] = []
pool_of sample parts (part ∷ rest) =
    sample part.key_dir (parts * oversample) ++ pool_of sample parts rest

unfoldable pub splitters_of : (Bindings → ℕ → List Bytes) → ℕ → List RecoveryResult → List Bytes
unfolding sort_keys unique_keys pick_keys pool_of
splitters_of sample workers parts =
    if ltb 1 workers
    then unique_keys (pick_keys (workers - 1) 1 workers (sort_keys (pool_of sample workers parts)))
    else []

-- Each part from its first key at or above the range's start.
unfoldable pub parts_from : Bytes → List RecoveryResult → List Bindings
parts_from lo [] = []
parts_from lo (part ∷ parts) = from_bound lo part.key_dir ∷ parts_from lo parts

unfoldable pub bindings_in : List Bindings → ℕ
bindings_in [] = 0
bindings_in (c ∷ cs) = length c + bindings_in cs

-- Phase 4 for one range.
unfoldable pub merge_range : Bytes → Option Bytes → Union → List RecoveryResult → Result RangeOut
unfolding parts_from bindings_in range_loop reaching skip_below
merge_range lo hi u parts =
    let cursors = parts_from lo parts in
    range_loop (bindings_in cursors) hi (skip_below lo u.tombstones) (reaching lo hi 0 u.ranges)
      cursors

-- Phases 4 and 5: the ranges from `lo` on, one after the other.
unfoldable pub merge_ranges : Bytes → List Bytes → Union → List RecoveryResult → Result RangeOut
unfolding merge_range
merge_ranges lo [] u parts = merge_range lo none u parts
merge_ranges lo (hi ∷ splitters) u parts = do
  out ← merge_range lo (some hi) u parts
  later ← merge_ranges hi splitters u parts
  ok (record {
    run = out.run ++ later.run;
    live = out.live ++ later.live;
    needed = out.needed ++ later.needed;
    needed_ranges = out.needed_ranges ++ later.needed_ranges;
  })

-- `live_accum`
unfoldable pub live_of : ℕ → List (ℕ × ℕ) → ℕ
live_of fid [] = 0
live_of fid ((f, bytes) ∷ live) =
    let rest = live_of fid live in if f == fid then add64 bytes rest else rest

unfoldable pub with_live : List (ℕ × ℕ) → List (ℕ × FileStats) → List (ℕ × FileStats)
unfolding live_of
with_live live [] = []
with_live live ((fid, fs) ∷ stats) =
    (fid, record fs { live_bytes = live_of fid live }) ∷ with_live live stats

unfoldable pub is_listed : ℕ → List ℕ → Bool
is_listed i [] = false
is_listed i (j ∷ js) = (i == j) || is_listed i js

-- `range_tombstones[idx].needed = true`
unfoldable pub mark_listed : ℕ → List ℕ → List RangeTombstone → List RangeTombstone
unfolding is_listed
mark_listed i listed [] = []
mark_listed i listed (rt ∷ rts) =
    let rest = mark_listed (suc i) listed rts in
    if is_listed i listed then record rt { needed = true } ∷ rest else rt ∷ rest

-- What the loaded state takes from recovery, and `needed_tombstones_`.
pub record Recovered : Type 0 where
  pub key_dir : Bindings
  pub next_seq : ℕ
  pub file_stats : List (ℕ × FileStats)
  pub change_markers : List ChangeMarker
  pub needed_tombstones : NeededTombstones

unfoldable pub recovered_of : Union → RangeOut → Recovered
unfolding with_live mark_listed recovery_needed_tombstones sorted_markers
recovered_of u out = record {
  key_dir = out.run;
  next_seq = add64 u.max_seq 1;
  file_stats = with_live out.live u.file_stats;
  change_markers = sorted_markers u.markers;
  needed_tombstones =
      recovery_needed_tombstones (u.needed ++ out.needed) (mark_listed 0 out.needed_ranges u.ranges)
        u.max_seq u.skipped_files;
}

-- `recovery_threads` is at least 1. A directory without files leaves what the caller starts from.
unfoldable pub recovery_load_ranged :
    Crc32c
    → (ℕ → PopOrder)
    → (Bindings → ℕ → List Bytes)
    → Recovered
    → Bool
    → ℕ
    → List RecoveredFile
    → Result Recovered
unfolding build_parts union_parts splitters_of merge_ranges recovered_of
recovery_load_ranged c pops sample start strict threads [] = ok start
recovery_load_ranged c pops sample start strict threads (file ∷ files) = do
  let workers = min (length (file ∷ files)) threads
  parts ← build_parts c pops strict workers 0 workers (file ∷ files)
  let u = union_parts no_parts parts
  out ← merge_ranges [] (splitters_of sample workers parts) u parts
  ok (recovered_of u out)
