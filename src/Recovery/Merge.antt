-- ===== src/Recovery/Merge.antt =====
-- Phase B of `DB::recovery_build_sorted` (bytecaskdb/db_recovery.cpp): the merge of the cursors' runs. The
-- heap holds the cursors that have an entry, so its top is the smallest key, and the cursors on one
-- key are taken together. The order in which a heap pops equal keys is the standard library's choice
-- and an argument here. The bulk loader's tree is the bindings that are appended to it, in order.
pub mod Covered
pub mod Newest
pub mod Step
pub mod Top
pub mod Owner
pub mod Loop
use bytecaskdb.Prelude.{
  ltb, if◌then◌else◌, Result, ok, ◌>>=◌, ℕ, zero, suc, Bool, false, not, ◌&&◌, ◌||◌, Option, none,
  some, List, [], ◌∷◌, ◌++◌,
}
use bytecaskdb.KeyOrder.{Bytes, key_lt, key_eq}
use bytecaskdb.KeyDir.{Bindings}
use bytecaskdb.KeyDirEntry
use bytecaskdb.Recovery.Needed.{
  Match, RangeTombstone, covers, is_delete, is_put, recovery_mark_needed,
}
use bytecaskdb.Recovery.Cursor.{Cursor, load}

pub record PointTombstone : Type 0 where
  pub seq : ℕ
  pub file_id : ℕ

-- `std::map<Key, PointTombstone>`, in key order
abbrev pub Tombstones : Type 0
Tombstones = List (Bytes × PointTombstone)

-- `slot = tombstones[key]`, and the assignment when the sequence is above the slot's, which is 0
-- in a new one.
unfoldable pub note_delete : Bytes → ℕ → ℕ → Tombstones → Tombstones
note_delete key seq file [] =
    (
      key,
      if ltb 0 seq then record { seq = seq; file_id = file } else record { seq = 0; file_id = 0 },
    )
    ∷ []
note_delete key seq file ((k, slot) ∷ ts) =
    let later = note_delete key seq file ts in
    if key_lt k key
    then (k, slot) ∷ later
    else if key_eq k key
    then (k, if ltb slot.seq seq then record { seq = seq; file_id = file } else slot) ∷ ts
    else (
      key,
      if ltb 0 seq then record { seq = seq; file_id = file } else record { seq = 0; file_id = 0 },
    )
      ∷ (k, slot)
      ∷ ts

unfoldable pub note_deletes : Bytes → List Match → Tombstones → Tombstones
unfolding note_delete is_delete
note_deletes key [] ts = ts
note_deletes key ((fid, d) ∷ matches) ts =
    let noted = note_delete key d.sequence fid ts in
    note_deletes key matches (if is_delete d.entry_type then noted else ts)

-- The smaller key, `none` for no key.
unfoldable pub smaller_key : Option Bytes → Option Bytes → Option Bytes
smaller_key none b = b
smaller_key (some a) none = some a
smaller_key (some a) (some b) = if key_lt b a then some b else some a

-- The key at the top of the heap.
unfoldable pub top_key : List Cursor → Option Bytes
unfolding smaller_key
top_key [] = none
top_key (c ∷ cs) = elim c.cur [ none ↦ top_key cs | some r ↦ smaller_key (some r.key) (top_key cs) ]

-- The cursor sits on the key.
unfoldable pub sits_on : Bytes → Cursor → Bool
sits_on key c = elim c.cur [ none ↦ false | some r ↦ key_eq r.key key ]

unfoldable pub cur_match : Cursor → List Match
cur_match c = elim c.cur [ none ↦ [] | some r ↦ (c.file_id, r) ∷ [] ]

unfoldable pub matches_of : Bytes → List Cursor → List Match
unfolding sits_on cur_match
matches_of key [] = []
matches_of key (c ∷ cs) =
    let rest = matches_of key cs in if sits_on key c then cur_match c ++ rest else rest

-- `winner_at`: the highest sequence, the first of those that share it.
unfoldable pub winner_of : Match → List Match → Match
winner_of best [] = best
winner_of best (m ∷ ms) = winner_of (if ltb best.1.sequence m.1.sequence then m else best) ms

-- Whether a range tombstone is newer than the entry and covers its key.
unfoldable pub is_suppressed : Bytes → ℕ → List RangeTombstone → Bool
unfolding covers
is_suppressed key sequence [] = false
is_suppressed key sequence (rt ∷ rts) =
    (ltb sequence rt.seq && covers rt key) || is_suppressed key sequence rts

-- Each cursor on the key goes to its next one. They are taken in file order: the order popped could only
-- change which of two errors is thrown first.
unfoldable pub advance_on : Bytes → List Cursor → Result (List Cursor)
unfolding sits_on load
advance_on key [] = ok []
advance_on key (c ∷ cs) = do
  c' ← (if sits_on key c then load c else ok c)
  cs' ← advance_on key cs
  ok (c' ∷ cs')

-- What the merge collects beside the tree.
pub record Collected : Type 0 where
  pub tombstones : Tombstones
  pub ranges : List RangeTombstone
  pub needed : List ℕ

unfoldable pub collect_key : Bytes → List Match → Collected → Collected
unfolding note_deletes recovery_mark_needed
collect_key key matches m =
    let marked = recovery_mark_needed key matches (m.ranges, m.needed) in
    record {
      tombstones = note_deletes key matches m.tombstones;
      ranges = marked.0;
      needed = marked.1;
    }

-- What is appended for a key: the winner, if it is a put that nothing suppresses.
unfoldable pub kept_binding : Bytes → Match → List RangeTombstone → Result Bindings
unfolding is_suppressed is_put
kept_binding key (fid, winner) ranges =
    if is_put winner.entry_type && not (is_suppressed key winner.sequence ranges)
    then (do
      e ← KeyDirEntry.make winner.sequence winner.file_offset fid winner.value_size
      ok ((key, e) ∷ []))
    else ok []

-- One key's turn of the loop: what is appended, what is collected, and the cursors after it.
unfoldable pub merge_key :
    Bytes → List Match → List Cursor → Collected → Result (Bindings × Collected × List Cursor)
unfolding winner_of collect_key kept_binding advance_on
merge_key key [] cursors m = ok ([], m, cursors)
merge_key key (first ∷ matches) cursors m = do
  let collected = collect_key key (first ∷ matches) m
  binding ← kept_binding key (winner_of first matches) collected.ranges
  cursors' ← advance_on key cursors
  ok (binding, collected, cursors')

-- The order in which the heap pops the entries of one key, for each turn.
abbrev pub PopOrder : Type 0
PopOrder = ℕ → List Match → List Match

-- `while (!heap.empty())`; each turn takes an entry of some file, so the entries left are turns enough.
unfoldable pub merge_loop :
    PopOrder → ℕ → List Cursor → Collected → Result (Bindings × Collected × List Cursor)
unfolding top_key matches_of merge_key
merge_loop pops zero cursors m = ok ([], m, cursors)
merge_loop pops (suc turns) cursors m = elim (top_key cursors) [
  | none ↦ ok ([], m, cursors)
  | some key ↦ do
    (binding, m', cursors') ← merge_key key (pops turns (matches_of key cursors)) cursors m
    (out, m'', left) ← merge_loop pops turns cursors' m'
    ok (binding ++ out, m'', left)
]
