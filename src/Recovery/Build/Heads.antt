-- ===== src/Recovery/Build/Heads.antt =====
-- Sorted hint files, and what phase A of `recovery_build_sorted` leaves of one.
use bytecaskdb.Prelude.{
  ℕ, ◌≡◌, refl, sym, ap, subst, ◌⊎◌, inl, inr, Bool, true, false, none, some, List, [], ◌∷◌, ◌++◌,
}
use bytecaskdb.KeyOrder.{Bytes}
use bytecaskdb.KeyDir.{}
use bytecaskdb.Format.Types.{
  EntryType, put, delete, bulk_begin, bulk_end, range_del, change_marker, unknown,
}
use bytecaskdb.Format.Bytes.{}
use bytecaskdb.Format.Hint.{HintEntry}
use bytecaskdb.Recovery.Needed.{Match, RangeTombstone, assign}
use bytecaskdb.Recovery.Cursor.{
  Head, data_entry, head_entry, out_of_place, run_entry, Noted, note, read_head,
}
use bytecaskdb.Recovery.Cursor.Loaded.{IsBehind, IsRun, behind, tagged}
use bytecaskdb.Recovery.Merge.{}
use bytecaskdb.Recovery.Merge.Newest.{}
use bytecaskdb.Recovery.Merge.Step.{}
use bytecaskdb.Recovery.Merge.Owner.{}
use bytecaskdb.Recovery.Merge.Loop.{}
use bytecaskdb.Recovery.Build.{RecoveredFile}

-- What stands ahead of the run.
unfoldable pub is_head : EntryType → Bool
is_head bulk_begin = true
is_head bulk_end = true
is_head range_del = true
is_head change_marker = true
is_head _ = false

-- A hint file as `flush_hints_for` writes it: the heads, then one run of puts and deletes by key.
abbrev pub IsHint : List HintEntry → Type 0
IsHint [] = Unit
IsHint (he ∷ rest) =
    ((is_head he.entry_type ≡ true) × IsHint rest)
    ⊎ ((run_entry he.entry_type ≡ data_entry) × IsRun he.key rest)

-- The puts and deletes of a file.
unfoldable pub matches_in : ℕ → List HintEntry → List Match
matches_in file_id [] = []
matches_in file_id (he ∷ rest) =
    let later = matches_in file_id rest in
    elim (run_entry he.entry_type) [ data_entry ↦ (file_id, assign he) ∷ later | _ ↦ later ]

-- The range tombstones of a file.
unfoldable pub ranges_in : ℕ → List HintEntry → List RangeTombstone
ranges_in file_id [] = []
ranges_in file_id (he ∷ rest) =
    let later = ranges_in file_id rest in
    elim (run_entry he.entry_type) [
      | out_of_place ↦
          record {
            start = he.key;
            end_ = he.end_key;
            seq = he.sequence;
            file_id = file_id;
            needed = false;
          }
          ∷ later
      | _ ↦ later
    ]

unfoldable pub all_matches_in : List (RecoveredFile × List HintEntry) → List Match
unfolding matches_in
all_matches_in [] = []
all_matches_in ((rf, entries) ∷ hints) = matches_in rf.file_id entries ++ all_matches_in hints

unfoldable pub all_ranges_in : List (RecoveredFile × List HintEntry) → List RangeTombstone
unfolding ranges_in
all_ranges_in [] = []
all_ranges_in ((rf, entries) ∷ hints) = ranges_in rf.file_id entries ++ all_ranges_in hints

run_matches :
    (file_id : ℕ) (lo : Bytes) (rest : List HintEntry)
    → IsRun lo rest
    → matches_in file_id rest ≡ tagged file_id rest
unfolding matches_in
run_matches file_id lo [] h = refl
run_matches file_id lo (he ∷ rest) (is_data, over, run) =
    rw (is_data, matches_in)
      (ap (λ l. (file_id, assign he) ∷ l) (run_matches file_id he.key rest run))

run_ranges :
    (file_id : ℕ) (lo : Bytes) (rest : List HintEntry) → IsRun lo rest → ranges_in file_id rest ≡ []
unfolding ranges_in
run_ranges file_id lo [] h = refl
run_ranges file_id lo (he ∷ rest) (is_data, over, run) =
    rw (is_data, ranges_in) (run_ranges file_id he.key rest run)

-- What phase A leaves of a sorted hint file.
abbrev pub IsHeadOf : ℕ → List HintEntry → Head → Type 0
IsHeadOf file_id entries h =
    (h.ranges ≡ ranges_in file_id entries)
    × (behind h.cursor ≡ matches_in file_id entries)
    × IsBehind h.cursor.lookahead h.cursor.rest

head_by_type :
    (t : EntryType) (file_id : ℕ) (he : HintEntry) (rest : List HintEntry) (later parked : Head)
    → he.entry_type ≡ t
    → is_head t ≡ true
    → IsHeadOf file_id rest later
    → IsHeadOf file_id (he ∷ rest) (head_entry t file_id he later parked)
unfolding is_head head_entry matches_in ranges_in run_entry
head_by_type put file_id he rest later parked is h (r, m, b) = cc
head_by_type delete file_id he rest later parked is h (r, m, b) = cc
head_by_type (unknown x) file_id he rest later parked is h (r, m, b) = cc
head_by_type range_del file_id he rest later parked is h (r, m, b) = (rw is (rw r refl), rw is m, b)
head_by_type bulk_begin file_id he rest later parked is h (r, m, b) = (rw is r, rw is m, b)
head_by_type bulk_end file_id he rest later parked is h (r, m, b) = (rw is r, rw is m, b)
head_by_type change_marker file_id he rest later parked is h (r, m, b) = (rw is r, rw is m, b)

abbrev parked_on : ℕ → Noted → HintEntry → List HintEntry → Head
parked_on file_id noted he rest = record {
  ranges = [];
  markers = [];
  cursor = record {
    rest = rest;
    file_id = file_id;
    cur = none;
    lookahead = some (assign he);
    noted = note he noted;
  };
}

parked-IsHeadOf :
    (file_id : ℕ) (noted : Noted) (he : HintEntry) (rest : List HintEntry)
    → run_entry he.entry_type ≡ data_entry
    → IsRun he.key rest
    → IsHeadOf file_id (he ∷ rest) (parked_on file_id noted he rest)
unfolding assign ranges_in matches_in
parked-IsHeadOf file_id noted he rest is_data run = (
  sym (rw (is_data, ranges_in) (run_ranges file_id he.key rest run)),
  sym (
      rw (is_data, matches_in)
        (ap (λ l. (file_id, assign he) ∷ l) (run_matches file_id he.key rest run))),
  run,
)

data_is_parked :
    (t : EntryType) (file_id : ℕ) (he : HintEntry) (later parked : Head)
    → run_entry t ≡ data_entry
    → head_entry t file_id he later parked ≡ parked
unfolding head_entry run_entry
data_is_parked put file_id he later parked h = refl
data_is_parked delete file_id he later parked h = refl
data_is_parked (unknown b) file_id he later parked h = refl
data_is_parked range_del file_id he later parked h = cc
data_is_parked bulk_begin file_id he later parked h = cc
data_is_parked bulk_end file_id he later parked h = cc
data_is_parked change_marker file_id he later parked h = cc

pub read_head-IsHeadOf :
    (file_id : ℕ) (noted : Noted) (entries : List HintEntry)
    → IsHint entries
    → IsHeadOf file_id entries (read_head file_id noted entries)
unfolding read_head matches_in ranges_in
read_head-IsHeadOf file_id noted [] h = (refl, refl, refl)
read_head-IsHeadOf file_id noted (he ∷ rest) (inl (is, h)) =
    head_by_type he.entry_type file_id he rest (read_head file_id (note he noted) rest)
      (parked_on file_id noted he rest) refl is (read_head-IsHeadOf file_id (note he noted) rest h)
read_head-IsHeadOf file_id noted (he ∷ rest) (inr (is_data, run)) =
    subst (IsHeadOf file_id (he ∷ rest))
      (sym (
        data_is_parked he.entry_type file_id he (read_head file_id (note he noted) rest)
          (parked_on file_id noted he rest) is_data))
      (parked-IsHeadOf file_id noted he rest is_data run)
