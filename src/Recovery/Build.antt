-- ===== src/Recovery/Build.antt =====
-- `DB::recovery_build_sorted` of bytecaskdb/db_recovery.cpp: the key directory of one worker's files, from
-- their hint files.
pub mod Heads
pub mod Correct
use bytecaskdb.Prelude.{
  length, Result, ok, ◌>>=◌, ℕ, ◌+◌, max, Bool, true, false, none, some, List, [], ◌∷◌, ◌++◌,
}
use bytecaskdb.KeyDir.{Bindings}
use bytecaskdb.FileStats.{FileStats, no_stats}
use bytecaskdb.Format.Types.{ChangeMarker}
use bytecaskdb.Format.Bytes.{Crc32c}
use bytecaskdb.Format.Hint.{HintEntry}
use bytecaskdb.Recovery.Hints.{StoredFile, open_hint_or_skip}
use bytecaskdb.Recovery.Needed.{RangeTombstone}
use bytecaskdb.Recovery.Cursor.{Cursor, Head, load, read_head}
use bytecaskdb.Recovery.Merge.{PopOrder, Collected, Tombstones, merge_loop}

-- `RecoveredFile`
pub record RecoveredFile : Type 0 where
  pub file_id : ℕ
  pub file : StoredFile
  pub total_bytes : ℕ

-- `RecoveryResult`
pub record RecoveryResult : Type 0 where
  pub key_dir : Bindings
  pub tombstones : Tombstones
  pub range_tombstones : List RangeTombstone
  pub max_seq : ℕ
  pub file_stats : List (ℕ × FileStats)
  pub needed_tombstones : List ℕ
  pub skipped_files : Bool
  pub change_markers : List ChangeMarker

-- The files that could be opened, with their hint entries, and the statistics of those that are skipped.
pub record OpenedHints : Type 0 where
  pub hints : List (RecoveredFile × List HintEntry)
  pub skipped : List (ℕ × FileStats)

-- `FileStats{0, rf.total_bytes}`
abbrev pub fresh_stats : RecoveredFile → FileStats
fresh_stats rf = record no_stats { total_bytes = rf.total_bytes }

unfoldable pub open_hints : Crc32c → Bool → List RecoveredFile → Result OpenedHints
unfolding open_hint_or_skip
open_hints c strict [] = ok (record { hints = []; skipped = [] })
open_hints c strict (rf ∷ files) = do
  hint ← open_hint_or_skip c strict rf.file
  opened ← open_hints c strict files
  elim hint [
    | some entries ↦ ok (record opened { hints = (rf, entries) ∷ opened.hints })
    | none ↦ ok (record opened { skipped = (rf.file_id, fresh_stats rf) ∷ opened.skipped })
  ]

-- Phase A over all files.
unfoldable pub read_heads : List (RecoveredFile × List HintEntry) → List Head
unfolding read_head
read_heads [] = []
read_heads ((rf, entries) ∷ hints) =
    read_head rf.file_id (record { stats = fresh_stats rf; max_seq = 0 }) entries ∷ read_heads hints

unfoldable pub head_ranges : List Head → List RangeTombstone
head_ranges [] = []
head_ranges (h ∷ heads) = h.ranges ++ head_ranges heads

unfoldable pub head_markers : List Head → List ChangeMarker
head_markers [] = []
head_markers (h ∷ heads) = h.markers ++ head_markers heads

-- `for (auto &c : cursors) load(c)`
unfoldable pub load_all : List Head → Result (List Cursor)
unfolding load
load_all [] = ok []
load_all (h ∷ heads) = do c ← load h.cursor; cs ← load_all heads; ok (c ∷ cs)

unfoldable pub entries_left : List Cursor → ℕ
entries_left [] = 0
entries_left (c ∷ cs) =
    elim c.cur [ none ↦ 0 | some _ ↦ 1 ]
    + elim c.lookahead [ none ↦ 0 | some _ ↦ 1 ]
    + length c.rest
    + entries_left cs

unfoldable pub cursor_stats : List Cursor → List (ℕ × FileStats)
cursor_stats [] = []
cursor_stats (c ∷ cs) = (c.file_id, c.noted.stats) ∷ cursor_stats cs

unfoldable pub cursor_max : List Cursor → ℕ
cursor_max [] = 0
cursor_max (c ∷ cs) = max c.noted.max_seq (cursor_max cs)

-- Phases A and B over the hints that could be opened.
unfoldable pub merge_hints :
    PopOrder
    → List (RecoveredFile × List HintEntry)
    → Result (Bindings × Collected × List Cursor × List ChangeMarker)
unfolding read_heads head_ranges head_markers load_all entries_left merge_loop
merge_hints pops hints = do
  let heads = read_heads hints
  cursors ← load_all heads
  let start : Collected = record { tombstones = []; ranges = head_ranges heads; needed = [] }
  (out, collected, left) ← merge_loop pops (entries_left cursors) cursors start
  ok (out, collected, left, head_markers heads)

unfoldable pub result_of :
    OpenedHints → Bindings → Collected → List Cursor → List ChangeMarker → RecoveryResult
unfolding cursor_stats cursor_max
result_of opened out collected left markers = record {
  key_dir = out;
  tombstones = collected.tombstones;
  range_tombstones = collected.ranges;
  max_seq = cursor_max left;
  file_stats = cursor_stats left ++ opened.skipped;
  needed_tombstones = collected.needed;
  skipped_files = elim opened.skipped [ [] ↦ false | _ ↦ true ];
  change_markers = markers;
}

unfoldable pub recovery_build_sorted :
    Crc32c → PopOrder → Bool → List RecoveredFile → Result RecoveryResult
unfolding open_hints merge_hints result_of
recovery_build_sorted c pops strict files = do
  opened ← open_hints c strict files
  (out, collected, left, markers) ← merge_hints pops opened.hints
  ok (result_of opened out collected left markers)
