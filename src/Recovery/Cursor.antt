-- ===== src/Recovery/Cursor.antt =====
-- The cursor of `DB::recovery_build_sorted` (bytecaskdb/db_recovery.cpp): one hint file's entries, parked
-- on the newest entry of a key. A cursor also keeps what `note` writes of its file: the file's slot
-- of `fstats_scratch`, and the highest sequence.
pub mod Loaded
use bytecaskdb.Prelude.{
  ltb, ◌==◌, if◌then◌else◌, length, Result, ok, err, ◌>>=◌, ℕ, false, ◌||◌, Option, none, some,
  List, [], ◌∷◌, range_del_in_run, unsorted_hint,
}
use bytecaskdb.KeyOrder.{key_lt, key_eq}
use bytecaskdb.FileStats.{FileStats, add64, tombstone_size, marker_size, change_marker_size}
use bytecaskdb.Format.Types.{
  EntryType, put, delete, bulk_begin, bulk_end, range_del, change_marker, unknown, ChangeMarker,
}
use bytecaskdb.Format.Hint.{HintEntry}
use bytecaskdb.Recovery.Needed.{HintRecord, assign, RangeTombstone}

pub record Noted : Type 0 where
  pub stats : FileStats
  pub max_seq : ℕ

-- `note`
unfoldable pub note : HintEntry → Noted → Noted
note he n =
    let fs = n.stats in
    record {
      stats = record fs {
        min_sequence =
            if (fs.min_sequence == 0) || ltb he.sequence fs.min_sequence
            then he.sequence
            else fs.min_sequence;
        max_sequence = if ltb fs.max_sequence he.sequence then he.sequence else fs.max_sequence;
        tombstone_bytes =
            add64 fs.tombstone_bytes
              (tombstone_size he.entry_type (length he.key) (length he.end_key));
        marker_bytes = add64 fs.marker_bytes (marker_size he.entry_type);
        change_marker_bytes = add64 fs.change_marker_bytes (change_marker_size he.entry_type);
      };
      max_seq = if ltb n.max_seq he.sequence then he.sequence else n.max_seq;
    }

-- `cur` is there when `has_cur`, `lookahead` when `has_lookahead`; `rest` is what the scanner has left.
pub record Cursor : Type 0 where
  pub rest : List HintEntry
  pub file_id : ℕ
  pub cur : Option HintRecord
  pub lookahead : Option HintRecord
  pub noted : Noted

-- What the head of a hint file gives.
pub record Head : Type 0 where
  pub ranges : List RangeTombstone
  pub markers : List ChangeMarker
  pub cursor : Cursor

abbrev pub add_range : ℕ → HintEntry → Head → Head
add_range file_id he h = record h {
  ranges =
      record {
        start = he.key;
        end_ = he.end_key;
        seq = he.sequence;
        file_id = file_id;
        needed = false;
      }
      ∷ h.ranges;
}

abbrev pub add_marker : HintEntry → Head → Head
add_marker he h = record h {
  markers = record { since_sequence = he.sequence; id = he.marker_id } ∷ h.markers;
}

-- What phase A does with an entry, given what it does with the rest, and the cursor parked on it.
unfoldable pub head_entry : EntryType → ℕ → HintEntry → Head → Head → Head
head_entry range_del file_id he later parked = add_range file_id he later
head_entry bulk_begin file_id he later parked = later
head_entry bulk_end file_id he later parked = later
head_entry change_marker file_id he later parked = add_marker he later
head_entry _ file_id he later parked = parked

-- Phase A, for one file.
unfoldable pub read_head : ℕ → Noted → List HintEntry → Head
unfolding head_entry note assign
read_head file_id noted [] = record {
  ranges = [];
  markers = [];
  cursor = record { rest = []; file_id = file_id; cur = none; lookahead = none; noted = noted };
}
read_head file_id noted (he ∷ rest) =
    let later = read_head file_id (note he noted) rest in
    let parked : Head = record {
      ranges = [];
      markers = [];
      cursor = record {
        rest = rest;
        file_id = file_id;
        cur = none;
        lookahead = some (assign he);
        noted = note he noted;
      };
    } in
    head_entry he.entry_type file_id he later parked

-- An entry inside the run: data, passed over, or out of place.
pub data RunEntry : Type 0 where
  data_entry passed_over out_of_place : RunEntry

unfoldable pub run_entry : EntryType → RunEntry
run_entry put = data_entry
run_entry delete = data_entry
run_entry range_del = out_of_place
run_entry bulk_begin = passed_over
run_entry bulk_end = passed_over
run_entry change_marker = passed_over
run_entry (unknown b) = passed_over

-- `next_data`: the entry, what is noted by then, and what is left.
unfoldable pub next_data :
    Noted → List HintEntry → Result (Option HintEntry × Noted × List HintEntry)
unfolding run_entry note
next_data noted [] = ok (none, noted, [])
next_data noted (he ∷ rest) =
    let later = next_data (note he noted) rest in
    elim (run_entry he.entry_type) [
      | data_entry ↦ ok (some he, note he noted, rest)
      | passed_over ↦ later
      | out_of_place ↦ err range_del_in_run
    ]

-- The loop of `load` over the entries behind `cur`.
unfoldable pub collapse : ℕ → Noted → HintRecord → List HintEntry → Result Cursor
unfolding run_entry note assign
collapse file_id noted cur [] =
    ok (record { rest = []; file_id = file_id; cur = some cur; lookahead = none; noted = noted })
collapse file_id noted cur (he ∷ rest) =
    let n = note he noted in
    let kept = collapse file_id n cur rest in
    let newer = collapse file_id n (assign he) rest in
    elim (run_entry he.entry_type) [
      | passed_over ↦ kept
      | out_of_place ↦ err range_del_in_run
      | data_entry ↦
          if key_lt he.key cur.key
          then err unsorted_hint
          else if key_eq he.key cur.key
          then (if ltb cur.sequence he.sequence then newer else kept)
          else ok (record {
            rest = rest;
            file_id = file_id;
            cur = some cur;
            lookahead = some (assign he);
            noted = n;
          })
    ]

-- `load`: the newest entry of the next key.
unfoldable pub load : Cursor → Result Cursor
unfolding collapse next_data assign
load c = elim c.lookahead [
  | some r ↦ collapse c.file_id c.noted r c.rest
  | none ↦ do
    (found, noted, rest) ← next_data c.noted c.rest
    elim found [
      | some he ↦ collapse c.file_id noted (assign he) rest
      | none ↦
          ok (record {
            rest = rest;
            file_id = c.file_id;
            cur = none;
            lookahead = none;
            noted = noted;
          })
    ]
]
