-- ===== src/Recovery/Ranged.antt =====
-- `DB::recovery_load_ranged` of bytecaskdb/db_recovery.cpp: the workers' results, cut at the same splitters
-- and merged range by range. The separators that a tree offers as a sample of its keys are given: any
-- will do. A cursor over a part is the bindings that it has left.
pub mod Cursors
pub mod Turn
pub mod Load
pub mod Merge
pub mod Loop
pub mod Slices
pub mod Ranges
pub mod Splitters
pub mod Settled
pub mod Union
pub mod Workers
pub mod Correct
pub mod Winner
use bytecaskdb.Prelude.{
  ltb, ◌==◌, if◌then◌else◌, length, drop, Result, ok, ◌>>=◌, ℕ, zero, suc, Bool, true, false, not,
  ◌&&◌, ◌||◌, Option, none, some, List, [], ◌∷◌, ◌++◌,
}
use bytecaskdb.KeyOrder.{Bytes, key_lt, key_eq}
use bytecaskdb.KeyDir.{Bindings}
use bytecaskdb.KeyDirEntry.{KeyDirEntry, kde_newer, file_id, sequence, value_size}
use bytecaskdb.KeyDirEntry
use bytecaskdb.FileStats.{entry_size}
use bytecaskdb.Recovery.Needed.{RangeTombstone, covers}
use bytecaskdb.Recovery.Merge.{Tombstones, is_suppressed}

-- The first binding, unless it is at or above the range's end.
unfoldable pub live_head : Option Bytes → Bindings → Option (Bytes × KeyDirEntry)
live_head hi [] = none
live_head none (b ∷ bs) = some b
live_head (some hi) ((k, e) ∷ bs) = if key_lt k hi then some (k, e) else none

-- `best`: the smallest key that a cursor sits on.
unfoldable pub best_key : Option Bytes → List Bindings → Option Bytes
unfolding live_head
best_key hi [] = none
best_key hi (c ∷ cs) =
    let rest = best_key hi cs in
    elim (live_head hi c) [
      | none ↦ rest
      | some (k, e) ↦ elim rest [ none ↦ some k | some b ↦ if key_lt b k then some b else some k ]
    ]

-- The entry of a cursor that sits on the key.
unfoldable pub entry_on : Option Bytes → Bytes → Bindings → Option KeyDirEntry
unfolding live_head
entry_on hi key c = elim (live_head hi c) [
  | none ↦ none
  | some (k, e) ↦ if key_eq k key then some e else none
]

unfoldable pub entries_on : Option Bytes → Bytes → List Bindings → List KeyDirEntry
unfolding entry_on
entries_on hi key [] = []
entries_on hi key (c ∷ cs) =
    let rest = entries_on hi key cs in elim (entry_on hi key c) [ none ↦ rest | some e ↦ e ∷ rest ]

-- `winner`
unfoldable pub newest_entry : KeyDirEntry → List KeyDirEntry → Result KeyDirEntry
newest_entry winner [] = ok winner
newest_entry winner (e ∷ es) = do
  newer ← kde_newer e winner
  newest_entry (if newer then e else winner) es

-- `starts_below_hi` and `ends_above_lo`
unfoldable pub starts_below : Option Bytes → Bytes → Bool
starts_below none start = true
starts_below (some hi) start = key_lt start hi

unfoldable pub ends_above : Bytes → Bytes → Bool
ends_above [] end_ = true
ends_above (b ∷ bs) end_ = key_lt (b ∷ bs) end_

-- The range tombstones that reach into the slice, with their places in the list of all.
unfoldable pub reaching : Bytes → Option Bytes → ℕ → List RangeTombstone → List (ℕ × RangeTombstone)
unfolding starts_below ends_above
reaching lo hi i [] = []
reaching lo hi i (rt ∷ rts) =
    let rest = reaching lo hi (suc i) rts in
    if starts_below hi rt.start && ends_above lo rt.end_ then (i, rt) ∷ rest else rest

unfoldable pub tombstones_of : List (ℕ × RangeTombstone) → List RangeTombstone
tombstones_of [] = []
tombstones_of ((i, rt) ∷ rts) = rt ∷ tombstones_of rts

-- `tomb`, walked up to the key.
unfoldable pub skip_below : Bytes → Tombstones → Tombstones
skip_below key [] = []
skip_below key ((k, slot) ∷ ts) =
    let rest = skip_below key ts in if key_lt k key then rest else (k, slot) ∷ ts

-- The sequence of the tombstone on the key, if the cursor is at one.
unfoldable pub tomb_on : Bytes → Tombstones → Option ℕ
tomb_on key [] = none
tomb_on key ((k, slot) ∷ ts) = if key_eq k key then some slot.seq else none

-- `on_key && sequence < tomb->second.seq`
unfoldable pub is_deleted : ℕ → Option ℕ → Bool
is_deleted sequence none = false
is_deleted sequence (some seq) = ltb sequence seq

-- The range tombstones that an entry of another file shows to be needed.
unfoldable pub ranges_over : Bytes → KeyDirEntry → List (ℕ × RangeTombstone) → List ℕ
unfolding covers
ranges_over key e [] = []
ranges_over key e ((i, rt) ∷ rts) =
    let rest = ranges_over key e rts in
    if ltb (KeyDirEntry.sequence e) rt.seq
      && (not (KeyDirEntry.file_id e == rt.file_id) && covers rt key)
    then i ∷ rest
    else rest

pub record RangeOut : Type 0 where
  pub run : Bindings
  -- what is added to `live`, by file
  pub live : List (ℕ × ℕ)
  pub needed : List ℕ
  pub needed_ranges : List ℕ

abbrev pub no_out : RangeOut
no_out = record { run = []; live = []; needed = []; needed_ranges = [] }

-- The loop over `matches`.
unfoldable pub note_matches :
    Bytes → Option ℕ → List (ℕ × RangeTombstone) → List KeyDirEntry → RangeOut → RangeOut
unfolding is_deleted ranges_over
note_matches key tomb rts [] out = out
note_matches key tomb rts (e ∷ es) out =
    let later = note_matches key tomb rts es out in
    record later {
      needed =
          (elim tomb [
            | none ↦ []
            | some seq ↦ if ltb (KeyDirEntry.sequence e) seq then seq ∷ [] else []
          ])
          ++ later.needed;
      needed_ranges = ranges_over key e rts ++ later.needed_ranges;
    }

unfoldable pub is_dropped : Bytes → KeyDirEntry → Option ℕ → List (ℕ × RangeTombstone) → Bool
unfolding is_deleted tombstones_of is_suppressed
is_dropped key winner tomb rts =
    is_deleted (KeyDirEntry.sequence winner) tomb
    || is_suppressed key (KeyDirEntry.sequence winner) (tombstones_of rts)

-- The winner in front of what the later turns append.
unfoldable pub append_winner : Bytes → KeyDirEntry → RangeOut → RangeOut
append_winner key winner out = record out {
  run = (key, winner) ∷ out.run;
  live =
      (KeyDirEntry.file_id winner, entry_size (length key) (KeyDirEntry.value_size winner))
      ∷ out.live;
}

-- `++it` on each cursor that sits on the key
unfoldable pub step_on : Option Bytes → Bytes → List Bindings → List Bindings
unfolding entry_on
step_on hi key [] = []
step_on hi key (c ∷ cs) =
    let rest = step_on hi key cs in
    elim (entry_on hi key c) [ none ↦ c ∷ rest | some e ↦ drop 1 c ∷ rest ]

-- The rest of a turn, for the entries of its key, given what the later turns come to.
unfoldable pub turn :
    Bytes
    → Option ℕ
    → List (ℕ × RangeTombstone)
    → List KeyDirEntry
    → Result RangeOut
    → Result RangeOut
unfolding newest_entry note_matches is_dropped append_winner
turn key tomb rts [] later = later
turn key tomb rts (first ∷ es) later = do
  winner ← newest_entry first es
  out ← later
  let kept = if is_dropped key winner tomb rts then out else append_winner key winner out
  ok (note_matches key tomb rts (first ∷ es) kept)

-- `while (true)`; each turn takes a binding of some part, so the bindings are turns enough.
unfoldable pub range_loop :
    ℕ → Option Bytes → Tombstones → List (ℕ × RangeTombstone) → List Bindings → Result RangeOut
unfolding best_key skip_below tomb_on entries_on turn step_on
range_loop zero hi tombs rts cursors = ok no_out
range_loop (suc turns) hi tombs rts cursors = elim (best_key hi cursors) [
  | none ↦ ok no_out
  | some key ↦
      let tombs' = skip_below key tombs in
      turn key (tomb_on key tombs') rts (entries_on hi key cursors)
        (range_loop turns hi tombs' rts (step_on hi key cursors))
]
