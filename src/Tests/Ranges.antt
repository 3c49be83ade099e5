-- ===== src/Tests/Ranges.antt =====
-- The parts of two recovery threads, merged in ranges.
use bytecaskdb.Prelude.{
  Pairwise, arith, true, Bool-cases, ok, ◌≡◌, refl, inl, inr, false, Option, some, none, ap, ◌∙◌,
  ◌++◌, ℕ, if◌then◌else◌, sym, subst, List, [], ◌∷◌, ◌*◌, ◌^◌,
}
use bytecaskdb.KeyOrder.{Bytes, key_eq, key_lt}
use bytecaskdb.KeyDir.{Bindings, lookup}
use bytecaskdb.KeyDirEntry.{KeyDirEntry, kde_newer}
use bytecaskdb.KeyDirEntry
use bytecaskdb.Recovery.Build.{RecoveryResult}
use bytecaskdb.Recovery.Ranged.{RangeOut}
use bytecaskdb.Recovery.Ranged.Load.{Union, merge_ranges, no_parts}
use bytecaskdb.Recovery.Ranged.Cursors.{found, found-given, given}
use bytecaskdb.Recovery.Ranged.Slices.{dirs}
use bytecaskdb.Recovery.Ranged.Ranges.{merge_ranges-Settles}
use bytecaskdb.Recovery.Ranged.Settled.{Hides, Settles}
use bytecaskdb.Recovery.Ranged.Winner.{Distinct}

abbrev at_sequence : ℕ → KeyDirEntry
at_sequence n = record { word0 = n * 2 ^ 16; word1 = 0 }

abbrev part_of : Bindings → RecoveryResult
part_of bindings = record {
  key_dir = bindings;
  tombstones = [];
  range_tombstones = [];
  max_seq = 9;
  file_stats = [];
  needed_tombstones = [];
  skipped_files = false;
  change_markers = [];
}

abbrev first_dir : Bindings
first_dir = (97 ∷ [], at_sequence 5) ∷ (98 ∷ [], at_sequence 6) ∷ []

abbrev second_dir : Bindings
second_dir = (97 ∷ [], at_sequence 7) ∷ []

abbrev two_parts : List RecoveryResult
two_parts = part_of first_dir ∷ part_of second_dir ∷ []

found-two :
    (key : Bytes) (o p : Option KeyDirEntry)
    → lookup key first_dir ≡ o
    → lookup key second_dir ≡ p
    → found key (dirs two_parts) ≡ given o ++ (given p ++ [])
unfolding found
found-two key o p is also =
    found-given key first_dir (second_dir ∷ []) o is
    ∙ ap (λ l. given o ++ l) (found-given key second_dir [] p also)

-- The first key is in both parts, with two sequences; the other is in one.
two_parts-found :
    (key : Bytes)
    → found key (dirs two_parts) ≡ (
        if key_eq (97 ∷ []) key
        then at_sequence 5 ∷ at_sequence 7 ∷ []
        else if key_eq (98 ∷ []) key
        then at_sequence 6 ∷ []
        else [])
unfolding lookup
two_parts-found key = elim (Bool-cases (key_eq (97 ∷ []) key)) [
  | inl same ↦
      let is : lookup key first_dir ≡ some (at_sequence 5) = rw same refl in
      let also : lookup key second_dir ≡ some (at_sequence 7) = rw same refl in
      rw same (found-two key (some (at_sequence 5)) (some (at_sequence 7)) is also)
  | inr other ↦
      let also : lookup key second_dir ≡ none = rw other refl in
      elim (Bool-cases (key_eq (98 ∷ []) key)) [
        | inl second ↦
            let is : lookup key first_dir ≡ some (at_sequence 6) = rw (other, second) refl in
            rw (other, second) (found-two key (some (at_sequence 6)) none is also)
        | inr neither ↦
            let is : lookup key first_dir ≡ none = rw (other, neither) refl in
            rw (other, neither) (found-two key none none is also)
      ]
]

two_parts-Distinct : (key : Bytes) → Pairwise Distinct (found key (dirs two_parts))
unfolding KeyDirEntry.sequence
two_parts-Distinct key =
    subst (Pairwise Distinct) (sym (two_parts-found key))
      (elim (Bool-cases (key_eq (97 ∷ []) key)) [
        | inl same ↦ rw same ((λ e. absurd (omega (arith, e)), tt), (tt, tt))
        | inr other ↦ rw other (elim (Bool-cases (key_eq (98 ∷ []) key)) [
          | inl second ↦ rw second (tt, tt)
          | inr neither ↦ rw neither tt
        ])
      ])

abbrev deleted_second : Union
deleted_second = record no_parts { tombstones = (98 ∷ [], record { seq = 8; file_id = 3 }) ∷ [] }

merge_ranges-Settles_example :
    (out : RangeOut) × (merge_ranges [] ((98 ∷ []) ∷ []) deleted_second two_parts ≡ ok out)
    × ((key : Bytes)
        → key_lt key [] ≡ false
        → Settles
            (Hides key deleted_second.tombstones deleted_second.ranges)
            (found key (dirs two_parts))
            (lookup key out.run))
    × ((key : Bytes) → key_lt key [] ≡ true → lookup key out.run ≡ none)
merge_ranges-Settles_example =
    merge_ranges-Settles [] ((98 ∷ []) ∷ []) deleted_second two_parts (unfold key_lt in refl, tt)
      (tt, tt) (unfold key_lt in (((refl, tt), (tt, tt)), ((tt, tt), tt))) two_parts-Distinct
