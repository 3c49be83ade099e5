-- ===== src/Recovery/Hints.antt =====
-- `flush_hints_for`, `open_hint_or_rebuild` and `open_hint_or_skip` of bytecaskdb/db_rotation.cpp: the
-- hint file of a data file. A hint file is the entries that its reader decodes, in order: the formats
-- and their round trips are in Format.Hint. The errors of a sweep say that the file is damaged; those
-- of the process or the environment are not modelled.
pub mod Known
pub mod Sorted
use bytecaskdb.Prelude.{
  ltb, if◌then◌else◌, length, Error, Result, ok, err, ◌>>=◌, ℕ, ◌+◌, Bool, true, false, not, ◌&&◌,
  ◌||◌, Option, none, some, List, [], ◌∷◌, ◌++◌, no_hint_file,
}
use bytecaskdb.KeyOrder.{Bytes, key_lt, key_eq}
use bytecaskdb.Format.Bytes.{Crc32c, narrow}
use bytecaskdb.Format.Types.{
  EntryType, put, delete, bulk_begin, bulk_end, range_del, change_marker, unknown,
  change_marker_id_bytes, decode_marker_id,
}
use bytecaskdb.Format.Entry.{DataEntry}
use bytecaskdb.Format.Hint.{HintEntry}
use bytecaskdb.Recovery.Scan.{
  Committed, finished, failed, item, OnDamage, throw_on_damage, scan_committed,
}

-- What a path `*.hint` holds beside a data file.
pub data HintFile : Type 0 where
  absent damaged_file : HintFile
  readable : List HintEntry → HintFile

-- A data file of the directory.
pub record StoredFile : Type 0 where
  pub name : Bytes
  pub bytes : List ℕ
  pub hint : HintFile

-- The entry without what only some types have.
abbrev pub plain_entry : DataEntry → ℕ → HintEntry
plain_entry e off = record {
  sequence = e.sequence;
  entry_type = e.entry_type;
  file_offset = off;
  key = [];
  value_size = 0;
  end_key = [];
  marker_id = 0;
}

-- The entries in scan order ahead of the run, the staged entries, and `committed_offset()`.
pub record Gathered : Type 0 where
  pub heads : List HintEntry
  pub staged : List HintEntry
  pub committed_offset : ℕ

abbrev pub push_head : HintEntry → Gathered → Gathered
push_head h g = record g { heads = h ∷ g.heads }

-- The key goes to the arena, which ends at `arena`.
abbrev pub stage_entry : DataEntry → ℕ → ℕ → Result (Gathered → Gathered)
stage_entry e off arena = do
  value_size ← narrow 32 (length e.value)
  key_off ← narrow 32 arena
  key_len ← narrow 32 (length e.key)
  let staged = record (plain_entry e off) { key = e.key; value_size = value_size }
  ok (λ g. record g { staged = staged ∷ g.staged })

-- The body of the loop: what is put in front of what the later entries come to.
unfoldable pub gather_entry : EntryType → DataEntry → ℕ → ℕ → Result (Gathered → Gathered)
gather_entry bulk_begin e off arena = ok (push_head (plain_entry e off))
gather_entry bulk_end e off arena = ok (push_head (plain_entry e off))
gather_entry change_marker e off arena = ok (
    push_head (record (plain_entry e off) {
      value_size = change_marker_id_bytes;
      marker_id = decode_marker_id e.value;
    }))
gather_entry range_del e off arena = do
  value_size ← narrow 32 (length e.value)
  let head = record (plain_entry e off) { key = e.key; value_size = value_size; end_key = e.value }
  ok (push_head head)
gather_entry put e off arena = stage_entry e off arena
gather_entry delete e off arena = stage_entry e off arena
gather_entry (unknown b) e off arena = stage_entry e off arena

-- What an entry adds to the arena.
unfoldable pub arena_bytes : EntryType → DataEntry → ℕ
arena_bytes bulk_begin e = 0
arena_bytes bulk_end e = 0
arena_bytes change_marker e = 0
arena_bytes range_del e = 0
arena_bytes put e = length e.key
arena_bytes delete e = length e.key
arena_bytes (unknown b) e = length e.key

unfoldable pub gather : ℕ → Committed → Result Gathered
unfolding gather_entry arena_bytes
gather arena (finished end) = ok (record { heads = []; staged = []; committed_offset = end })
gather arena (failed e) = err e
gather arena (item e off rest) = do
  push ← gather_entry e.entry_type e off arena
  g ← gather (arena + arena_bytes e.entry_type e) rest
  ok (push g)

-- Key ascending, and within a key sequence descending.
unfoldable pub staged_before : HintEntry → HintEntry → Bool
staged_before a b = key_lt a.key b.key || (key_eq a.key b.key && ltb b.sequence a.sequence)

unfoldable pub insert_staged : HintEntry → List HintEntry → List HintEntry
insert_staged x [] = x ∷ []
insert_staged x (y ∷ ys) =
    let rest = insert_staged x ys in if staged_before y x then y ∷ rest else x ∷ y ∷ ys

unfoldable pub sort_staged : List HintEntry → List HintEntry
unfolding insert_staged
sort_staged [] = []
sort_staged (x ∷ xs) = insert_staged x (sort_staged xs)

-- The entries of the new hint file, and where the file's committed entries end. The caller that
-- cuts the file's tail does so between the two.
unfoldable pub flush_hints_for : Crc32c → OnDamage → List ℕ → Result (ℕ × List HintEntry)
unfolding gather sort_staged
flush_hints_for c on_damage bytes = do
  g ← gather 0 (scan_committed c on_damage bytes)
  ok (g.committed_offset, g.heads ++ sort_staged g.staged)

-- A damaged hint file is removed and built again from the data file.
unfoldable pub open_hint_or_rebuild : Crc32c → StoredFile → Result (List HintEntry)
unfolding flush_hints_for
open_hint_or_rebuild c file = elim file.hint [
  | readable entries ↦ ok entries
  | damaged_file ↦ flush_hints_for c throw_on_damage file.bytes >>= λ flushed. ok flushed.1
  | absent ↦ err no_hint_file
]

-- Whether the error says that a file's bytes are bad; a missing file does not.
unfoldable pub is_file_damage : Error → Bool
is_file_damage no_hint_file = false
is_file_damage _ = true

-- `none` for a file that is skipped.
unfoldable pub open_hint_or_skip : Crc32c → Bool → StoredFile → Result (Option (List HintEntry))
unfolding open_hint_or_rebuild is_file_damage
open_hint_or_skip c strict file = elim (open_hint_or_rebuild c file) [
  | ok entries ↦ ok (some entries)
  | err e ↦ if strict || not (is_file_damage e) then err e else ok none
]
