-- ===== src/Tests/Threads.antt =====
-- Two recovery threads, one file each.
use bytecaskdb.Prelude.{
  Pairwise, if◌then◌else◌, ok, ℕ, ◌≡◌, refl, sym, ap, subst, ◌∙◌, Bool, true, false, Option, some,
  none, List, [], ◌∷◌, ◌++◌, arith,
}
use bytecaskdb.Tests.Fixtures.{byte_sum}
use bytecaskdb.Tests.Files.{file_a, file_both, hint_a, hint_b}
use bytecaskdb.Recovery.Hints.{readable}
use bytecaskdb.Recovery.Build.{RecoveredFile, RecoveryResult}
use bytecaskdb.KeyOrder.{Bytes, key_eq}
use bytecaskdb.KeyDir.{Bindings, lookup}
use bytecaskdb.KeyDirEntry.{KeyDirEntry, kde_newer}
use bytecaskdb.KeyDirEntry
use bytecaskdb.FileStats.{change_marker_size, marker_size, no_stats, tombstone_size}
use bytecaskdb.Recovery.Build.{recovery_build_sorted}
use bytecaskdb.Recovery.Ranged.{newest_entry}
use bytecaskdb.Recovery.Ranged.Load.{Recovered, build_parts, recovery_load_ranged}
use bytecaskdb.Recovery.Ranged.Cursors.{found, found-given, given}
use bytecaskdb.Recovery.Merge.{PopOrder}
use bytecaskdb.Recovery.Ranged.Slices.{dirs}
use bytecaskdb.Recovery.Ranged.Winner.{Distinct, IsNewestOf, newest_entry-IsNewestOf}
use bytecaskdb.Recovery.Ranged.Correct.{IsMergeOf, recovery_load_ranged-IsMergeOf}

abbrev pub first_file : RecoveredFile
first_file = record {
  file_id = 5;
  file = record file_a { hint = readable (hint_a ∷ []) };
  total_bytes = 21;
}

abbrev pub second_file : RecoveredFile
second_file = record {
  file_id = 6;
  file = record file_both { hint = readable (hint_b ∷ []) };
  total_bytes = 42;
}

-- Each worker's heap pops in file order.
abbrev pub own_heaps : ℕ → PopOrder
own_heaps worker turn ms = ms

abbrev first_entry : KeyDirEntry
first_entry = record { word0 = 131077; word1 = 90194313232 }

abbrev second_entry : KeyDirEntry
second_entry = record { word0 = 65542; word1 = 16 }

abbrev built_parts : List RecoveryResult
built_parts =
    record {
      key_dir = (97 ∷ [], first_entry) ∷ [];
      tombstones = [];
      range_tombstones = [];
      max_seq = 2;
      file_stats =
          (5, record no_stats { total_bytes = 21; min_sequence = 2; max_sequence = 2 }) ∷ [];
      needed_tombstones = [];
      skipped_files = false;
      change_markers = [];
    }
    ∷ record {
      key_dir = (98 ∷ [], second_entry) ∷ [];
      tombstones = [];
      range_tombstones = [];
      max_seq = 1;
      file_stats =
          (6, record no_stats { total_bytes = 42; min_sequence = 1; max_sequence = 1 }) ∷ [];
      needed_tombstones = [];
      skipped_files = false;
      change_markers = [];
    }
    ∷ []

builds : build_parts byte_sum own_heaps true 2 0 2 (first_file ∷ second_file ∷ []) ≡ ok built_parts
unfolding build_parts recovery_build_sorted key_eq KeyDirEntry.make KeyDirEntry.pack tombstone_size
    marker_size change_marker_size
builds = refl

found-built :
    (key : Bytes) (o p : Option KeyDirEntry)
    → lookup key ((97 ∷ [], first_entry) ∷ []) ≡ o
    → lookup key ((98 ∷ [], second_entry) ∷ []) ≡ p
    → found key (dirs built_parts) ≡ given o ++ (given p ++ [])
unfolding found
found-built key o p is also =
    found-given key ((97 ∷ [], first_entry) ∷ []) (((98 ∷ [], second_entry) ∷ []) ∷ []) o is
    ∙ ap (λ l. given o ++ l) (found-given key ((98 ∷ [], second_entry) ∷ []) [] p also)

built-Distinct : (key : Bytes) → Pairwise Distinct (found key (dirs built_parts))
unfolding lookup
built-Distinct key =
    subst (Pairwise Distinct)
      (sym (
        found-built key (if key_eq (97 ∷ []) key then some first_entry else none)
          (if key_eq (98 ∷ []) key then some second_entry else none) refl refl))
      (apart (key_eq (97 ∷ []) key) (key_eq (98 ∷ []) key))
  where
    apart :
        (a b : Bool)
        → Pairwise Distinct (
            given (if a then some first_entry else none)
            ++ (given (if b then some second_entry else none) ++ []))
    apart true true =
        ((unfold KeyDirEntry.sequence in (λ e. absurd (omega (arith, e))), tt), (tt, tt))
    apart true false = (tt, tt)
    apart false true = (tt, tt)
    apart false false = tt

-- A tree that offers the keys that it has.
abbrev all_keys : Bindings → ℕ → List Bytes
all_keys [] n = []
all_keys ((k, e) ∷ bs) n = k ∷ all_keys bs n

abbrev nothing_loaded : Recovered
nothing_loaded = record {
  key_dir = [];
  next_seq = 1;
  file_stats = [];
  change_markers = [];
  needed_tombstones = record { horizon = 0; sequences = [] };
}

recovery_load_ranged-IsMergeOf_example :
    (r : Recovered) × (recovery_load_ranged byte_sum own_heaps all_keys nothing_loaded true 2
        (first_file ∷ second_file ∷ [])
      ≡ ok r)
    × IsMergeOf built_parts r.key_dir
recovery_load_ranged-IsMergeOf_example =
    recovery_load_ranged-IsMergeOf byte_sum own_heaps all_keys nothing_loaded true 2 first_file
      (second_file ∷ []) built_parts builds ((tt, tt), ((tt, tt), tt)) built-Distinct

newest_entry-IsNewestOf_example :
    (w : KeyDirEntry) × (newest_entry second_entry (first_entry ∷ []) ≡ ok w)
    × IsNewestOf w (second_entry ∷ first_entry ∷ [])
newest_entry-IsNewestOf_example =
    newest_entry-IsNewestOf second_entry (first_entry ∷ [])
      (unfold KeyDirEntry.sequence in ((λ same. absurd (omega (arith, same)), tt), (tt, tt)))
