-- ===== src/Tests/Reopening.antt =====
-- Opening a directory: overlaps, the passes of the loop, and the merge of hint files.
use bytecaskdb.Prelude.{
  ◌==◌, length, All, sequence_overlap, Result, ok, err, ℕ, ◌≤◌, ◌≡◌, refl, ◌∙◌, ◌≢◌, inr, Bool,
  true, false, none, some, List, [], ◌∷◌, arith, Pairwise, AnyPair,
}
use bytecaskdb.KeyOrder.{Bytes, key_eq, key_lt}
use bytecaskdb.KeyDir.{IsAscending, lookup}
use bytecaskdb.Format.Types.{to_byte}
use bytecaskdb.FileStats.{FileStats, no_stats}
use bytecaskdb.Recovery.Overlap.{
  IsDisjoint, IsOverlapOf, find_sequence_overlap, find_sequence_overlap-decides, first_overlap,
  overlap_after, ranges_of,
}
use bytecaskdb.Recovery.Hints.{StoredFile, open_hint_or_rebuild, open_hint_or_skip, readable}
use bytecaskdb.Recovery.Tail.{has_hint, prepare_file, prepare_loop, recovery_prepare_files}
use bytecaskdb.Recovery.Undo.{
  arrived, compaction_loop, file_at, is_compaction_of, past_entry, recovery_undo_interrupted_vacuum,
  remove_at, same_entry,
}
use bytecaskdb.Recovery.Open.{overlapping, caught, pass_of, recovery_open, after_pass}
use bytecaskdb.Recovery.Open.Ends.{
  recovery_open-prepared, after_pass-overlapping, recovery_open-total,
}
use bytecaskdb.Recovery.Open.Keeps.{IsKept, recovery_open-IsKept}
use bytecaskdb.Recovery.Needed.{assign}
use bytecaskdb.Recovery.Cursor.{run_entry}
use bytecaskdb.Recovery.Merge.{PopOrder}
use bytecaskdb.KeyDirEntry.Packing.{InLimits}
use mathlib.Core.List.{reverse}
use mathlib.Core.List.Permᴰ
use bytecaskdb.Recovery.Merge.Owner.{Fits}
use bytecaskdb.Recovery.Build.{
  OpenedHints, RecoveredFile, RecoveryResult, open_hints, recovery_build_sorted,
}
use bytecaskdb.Recovery.Build.Heads.{IsHint, all_matches_in, all_ranges_in, matches_in}
use bytecaskdb.Recovery.Build.Correct.{IsBound, recovery_build_sorted-IsBound}
use bytecaskdb.Tests.Fixtures.{byte_sum}
use bytecaskdb.Tests.Files.{file_a, file_both, hint_a, hint_b, scan_a, scan_both}

abbrev stats_of : ℕ → ℕ → FileStats
stats_of least highest = record no_stats { min_sequence = least; max_sequence = highest }

abbrev three_files : List (ℕ × FileStats)
three_files = (0, stats_of 7 9) ∷ (1, stats_of 1 4) ∷ (2, stats_of 3 6) ∷ []

find_sequence_overlap-decides_example :
    (find_sequence_overlap three_files ≡ none → Pairwise IsDisjoint (ranges_of three_files))
    × ((a b : ℕ)
        → find_sequence_overlap three_files ≡ some (a, b)
        → AnyPair (IsOverlapOf a b) (ranges_of three_files))
find_sequence_overlap-decides_example =
    find_sequence_overlap-decides three_files
      (unfold ranges_of in (omega arith, (omega arith, (omega arith, tt))))

overlap_found : find_sequence_overlap three_files ≡ some (1, 2)
unfolding find_sequence_overlap ranges_of first_overlap overlap_after
overlap_found = refl

-- A pass that loads two files meets one sequence in both.
abbrev load_by : Bool → List StoredFile → Result (List StoredFile)
load_by true files = err (sequence_overlap 0 1)
load_by false files = ok files

abbrev load_files : List StoredFile → Result (List StoredFile)
load_files files = load_by (length files == 2) files

abbrev no_statistics : List StoredFile → List (ℕ × FileStats)
no_statistics files = []

recovery_open-total_example :
    (r : Result (List StoredFile × List StoredFile)) × (recovery_open byte_sum load_files
        no_statistics 3
        (file_a ∷ file_both ∷ [])
      ≡ some r)
recovery_open-total_example =
    recovery_open-total byte_sum load_files no_statistics 3 (file_a ∷ file_both ∷ []) (omega arith)

names_two :
    (files : List StoredFile) (a b : ℕ)
    → pass_of no_statistics (load_files files) ≡ overlapping a b
    → a ≢ b
unfolding pass_of caught find_sequence_overlap ranges_of first_overlap
names_two files a b h = go (length files == 2) h
  where
    go : (two : Bool) → pass_of no_statistics (load_by two files) ≡ overlapping a b → a ≢ b
    go true e same =
        let is_a : 0 ≡ a = cc e in let is_b : 1 ≡ b = cc e in omega (arith, is_a, is_b, same)
    go false e same = cc e

nothing_to_prepare :
    recovery_prepare_files byte_sum (file_a ∷ file_both ∷ []) ≡ ok (file_a ∷ file_both ∷ [])
unfolding recovery_prepare_files prepare_loop prepare_file has_hint
nothing_to_prepare = refl

is_copy : is_compaction_of byte_sum file_a file_both ≡ ok true
unfolding is_compaction_of compaction_loop arrived past_entry same_entry to_byte key_eq
is_copy = rw (scan_a, scan_both) refl

copy_removed :
    recovery_undo_interrupted_vacuum byte_sum 0 1 (file_a ∷ file_both ∷ []) ≡ ok (file_both ∷ [])
unfolding recovery_undo_interrupted_vacuum file_at remove_at
copy_removed = rw is_copy refl

nothing_more_to_prepare : recovery_prepare_files byte_sum (file_both ∷ []) ≡ ok (file_both ∷ [])
unfolding recovery_prepare_files prepare_loop prepare_file has_hint
nothing_more_to_prepare = refl

-- The copy is removed, and the second pass loads the file it was made from.
opened_after_two :
    recovery_open byte_sum load_files no_statistics 3 (file_a ∷ file_both ∷ [])
    ≡ some (ok (file_both ∷ [], file_both ∷ []))
unfolding after_pass pass_of caught find_sequence_overlap ranges_of first_overlap
opened_after_two =
    recovery_open-prepared byte_sum load_files no_statistics 2 (file_a ∷ file_both ∷ [])
      (file_a ∷ file_both ∷ []) nothing_to_prepare
    ∙ after_pass-overlapping byte_sum load_files no_statistics
        (recovery_open byte_sum load_files no_statistics 2) 0 1 (file_a ∷ file_both ∷ [])
        (file_both ∷ []) copy_removed
    ∙ recovery_open-prepared byte_sum load_files no_statistics 1 (file_both ∷ []) (file_both ∷ [])
        nothing_more_to_prepare

recovery_open-IsKept_example :
    (load_files (file_both ∷ []) ≡ ok (file_both ∷ []))
    × (find_sequence_overlap (no_statistics (file_both ∷ [])) ≡ none)
    × IsKept byte_sum (file_a ∷ file_both ∷ []) (file_both ∷ [])
recovery_open-IsKept_example =
    recovery_open-IsKept byte_sum load_files no_statistics 3 (file_a ∷ file_both ∷ [])
      (file_a ∷ file_both ∷ []) (file_both ∷ []) (file_both ∷ []) names_two nothing_to_prepare
      opened_after_two

abbrev hinted : RecoveredFile
hinted = record {
  file_id = 5;
  file = record file_both { hint = readable (hint_a ∷ hint_b ∷ []) };
  total_bytes = 42;
}

-- The second file has one of the entries again, as an interrupted vacuum leaves it.
abbrev again : RecoveredFile
again = record {
  file_id = 6;
  file = record file_both { hint = readable (hint_b ∷ []) };
  total_bytes = 21;
}

abbrev hinted_opened : OpenedHints
hinted_opened = record {
  hints = (hinted, hint_a ∷ hint_b ∷ []) ∷ (again, hint_b ∷ []) ∷ [];
  skipped = [];
}

opens_hinted : open_hints byte_sum true (hinted ∷ again ∷ []) ≡ ok hinted_opened
unfolding open_hints open_hint_or_skip open_hint_or_rebuild
opens_hinted = refl

hinted-IsHint : All (λ h. IsHint h.1) hinted_opened.hints
hinted-IsHint = (
  inr (unfold run_entry in refl, (unfold run_entry in refl, unfold key_lt in refl, tt)),
  (inr (unfold run_entry in refl, tt), tt),
)

fit-InLimits : (seq offset file : ℕ) → seq ≤ 9 → offset ≤ 99 → file ≤ 9 → InLimits seq offset file 1
fit-InLimits seq offset file s o f = record {
  sequence_fits = omega (arith, s);
  file_id_fits = omega (arith, f);
  offset_fits = omega (arith, o);
  value_size_fits = omega arith;
}

hinted-Fits : All Fits (all_matches_in hinted_opened.hints)
unfolding all_matches_in matches_in run_entry assign
hinted-Fits = (
  fit-InLimits 2 21 5 (omega arith) (omega arith) (omega arith),
  (
    fit-InLimits 1 0 5 (omega arith) (omega arith) (omega arith),
    (fit-InLimits 1 0 6 (omega arith) (omega arith) (omega arith), tt),
  ),
)

-- The heap pops the last one first.
abbrev last_first : PopOrder
last_first turn ms = reverse ms

recovery_build_sorted-IsBound_example :
    (r : RecoveryResult) × (recovery_build_sorted byte_sum last_first true (hinted ∷ again ∷ [])
      ≡ ok r)
    × IsAscending r.key_dir
    × ((key : Bytes)
        → IsBound key
            (all_ranges_in hinted_opened.hints)
            (all_matches_in hinted_opened.hints)
            (lookup key r.key_dir))
recovery_build_sorted-IsBound_example =
    recovery_build_sorted-IsBound byte_sum last_first true (hinted ∷ again ∷ []) hinted_opened
      (λ turn ms. Permᴰ.reverse ms) opens_hinted hinted-IsHint hinted-Fits
