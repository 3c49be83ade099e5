-- ===== src/Recovery/Needed.antt =====
-- The tombstones that recovery finds needed: `recovery_mark_needed` and `recovery_needed_tombstones` of
-- bytecaskdb/db_recovery.cpp, `RangeTombstone` and `NeededTombstones` of bytecaskdb/internals.cppm. A
-- match is a file's id and that file's newest entry for the key.
use bytecaskdb.Prelude.{
  ltb, leb, ◌==◌, if◌then◌else◌, ℕ, Bool, true, false, not, ◌&&◌, ◌||◌, List, [], ◌∷◌, ◌++◌,
  sort_by,
}
use bytecaskdb.KeyOrder.{Bytes, key_lt}
use bytecaskdb.Format.Types.{EntryType, put, delete}
use bytecaskdb.Format.Hint.{HintEntry}

pub record HintRecord : Type 0 where
  pub sequence : ℕ
  pub entry_type : EntryType
  pub file_offset : ℕ
  pub value_size : ℕ
  pub key : Bytes

-- `HintRecord::assign`
unfoldable pub assign : HintEntry → HintRecord
assign he = record {
  sequence = he.sequence;
  entry_type = he.entry_type;
  file_offset = he.file_offset;
  value_size = he.value_size;
  key = he.key;
}

abbrev pub Match : Type 0
Match = ℕ × HintRecord

pub record RangeTombstone : Type 0 where
  pub start : Bytes
  pub end_ : Bytes
  pub seq : ℕ
  pub file_id : ℕ
  pub needed : Bool

pub record NeededTombstones : Type 0 where
  pub horizon : ℕ
  pub sequences : List ℕ

unfoldable pub is_put : EntryType → Bool
is_put put = true
is_put _ = false

unfoldable pub is_delete : EntryType → Bool
is_delete delete = true
is_delete _ = false

-- Whether the key lies in `[start, end)`.
unfoldable pub covers : RangeTombstone → Bytes → Bool
covers rt key = not (key_lt key rt.start) && key_lt key rt.end_

unfoldable pub older_put_elsewhere : List Match → ℕ → ℕ → Bool
unfolding is_put
older_put_elsewhere [] seq file = false
older_put_elsewhere ((fid, p) ∷ matches) seq file =
    (is_put p.entry_type && (ltb p.sequence seq && not (fid == file)))
    || older_put_elsewhere matches seq file

-- The loop over the matches: what is added to `needed`.
unfoldable pub needed_deletes : List Match → List Match → List ℕ
unfolding is_delete older_put_elsewhere
needed_deletes all_matches [] = []
needed_deletes all_matches ((fid, d) ∷ matches) =
    let rest = needed_deletes all_matches matches in
    if is_delete d.entry_type && older_put_elsewhere all_matches d.sequence fid
    then d.sequence ∷ rest
    else rest

-- The loop over the range tombstones.
unfoldable pub mark_ranges : Bytes → List Match → List RangeTombstone → List RangeTombstone
unfolding covers older_put_elsewhere
mark_ranges key matches [] = []
mark_ranges key matches (rt ∷ rts) =
    let rest = mark_ranges key matches rts in
    if rt.needed
    then rt ∷ rest
    else if covers rt key && older_put_elsewhere matches rt.seq rt.file_id
    then record rt { needed = true } ∷ rest
    else rt ∷ rest

unfoldable pub recovery_mark_needed :
    Bytes → List Match → List RangeTombstone × List ℕ → List RangeTombstone × List ℕ
unfolding needed_deletes mark_ranges
recovery_mark_needed key matches (ranges, needed) =
    (mark_ranges key matches ranges, needed ++ needed_deletes matches matches)

unfoldable pub needed_ranges : List RangeTombstone → List ℕ
needed_ranges [] = []
needed_ranges (rt ∷ rts) = let rest = needed_ranges rts in if rt.needed then rt.seq ∷ rest else rest

-- `std::ranges::unique` on sorted numbers
unfoldable pub unique : List ℕ → List ℕ
unique [] = []
unique (x ∷ []) = x ∷ []
unique (x ∷ y ∷ ys) = let rest = unique (y ∷ ys) in if x == y then rest else x ∷ rest

unfoldable pub recovery_needed_tombstones :
    List ℕ → List RangeTombstone → ℕ → Bool → NeededTombstones
unfolding needed_ranges unique
recovery_needed_tombstones point ranges horizon skipped_files =
    if skipped_files then record { horizon = 0; sequences = [] } else record {
      horizon = horizon;
      sequences = unique (sort_by (λ s. s) (point ++ needed_ranges ranges));
    }

-- `std::ranges::binary_search` on sorted numbers
unfoldable pub is_among : ℕ → List ℕ → Bool
is_among x [] = false
is_among x (y ∷ ys) = (x == y) || is_among x ys

unfoldable pub droppable : NeededTombstones → ℕ → Bool
unfolding is_among
droppable n seq = leb seq n.horizon && not (is_among seq n.sequences)
