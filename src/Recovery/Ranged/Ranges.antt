-- ===== src/Recovery/Ranged/Ranges.antt =====
-- The ranges one after the other: ascending splitters, wherever they are, leave each key with what one
-- merge of all parts would leave it with.
use bytecaskdb.Prelude.{
  Bool-cases, ok, All, Pairwise, ◌≡◌, refl, sym, subst, ◌∙◌, inl, inr, true, false, none, some,
  List, [], ◌∷◌, ◌++◌,
}
use bytecaskdb.KeyOrder.{Bytes, key_lt, key_eq, key_lt_of_le}
use bytecaskdb.KeyDir.{Bindings, lookup, IsAscending}
use bytecaskdb.Recovery.Build.{RecoveryResult}
use bytecaskdb.Recovery.Ranged.{RangeOut}
use bytecaskdb.Recovery.Ranged.Load.{Union, merge_range, merge_ranges}
use bytecaskdb.Recovery.Ranged.Cursors.{found}
use bytecaskdb.Recovery.Ranged.Merge.{Agree, Resolves, tomb_at}
use bytecaskdb.Recovery.Ranged.Settled.{Distinct-Agree, Hides, IsKeyed, Resolves-Settles, Settles}
use bytecaskdb.Recovery.Ranged.Winner.{Distinct}
use bytecaskdb.Recovery.Ranged.Slices.{dirs, Slice, merge_range-Slice}

-- Each splitter is at or above the one before it.
abbrev pub AscendFrom : Bytes → List Bytes → Type 0
AscendFrom lo [] = Unit
AscendFrom lo (hi ∷ splitters) = (key_lt hi lo ≡ false) × AscendFrom hi splitters

lookup-append_left :
    (key : Bytes) (xs ys : Bindings) → lookup key ys ≡ none → lookup key (xs ++ ys) ≡ lookup key xs
unfolding lookup
lookup-append_left key [] ys h = h
lookup-append_left key ((k, e) ∷ xs) ys h = elim (Bool-cases (key_eq k key)) [
  | inl same ↦ rw same refl
  | inr other ↦ rw other (lookup-append_left key xs ys h)
]

lookup-append_right :
    (key : Bytes) (xs ys : Bindings) → lookup key xs ≡ none → lookup key (xs ++ ys) ≡ lookup key ys
unfolding lookup
lookup-append_right key [] ys h = refl
lookup-append_right key ((k, e) ∷ xs) ys h = elim (Bool-cases (key_eq k key)) [
  | inl same ↦ let found_it : some e ≡ none = rw same at h in absurd (cc found_it)
  | inr other ↦
      let not_in : lookup key xs ≡ none = rw other at h in
      rw other (lookup-append_right key xs ys not_in)
]

-- What the ranges from a key on hold: for each key from there on what the parts decide, and no other key.
abbrev Ranges : Bytes → Union → List RecoveryResult → Bindings → Type 0
Ranges lo u parts run =
    ((key : Bytes)
      → key_lt key lo ≡ false
      → Resolves key (tomb_at key u.tombstones) u.ranges (found key (dirs parts)) (lookup key run))
    × ((key : Bytes) → key_lt key lo ≡ true → lookup key run ≡ none)

-- A slice in front of the ranges after it.
Slice-Ranges :
    (lo hi : Bytes) (u : Union) (parts : List RecoveryResult) (run later : Bindings)
    → key_lt hi lo ≡ false
    → Slice lo (some hi) u parts run
    → Ranges hi u parts later
    → Ranges lo u parts (run ++ later)
Slice-Ranges lo hi u parts run later up (here, before, after) (there, none_there) = (
  λ key low. elim (Bool-cases (key_lt key hi)) [
    | inl bel ↦
        subst (Resolves key (tomb_at key u.tombstones) u.ranges (found key (dirs parts)))
          (sym (lookup-append_left key run later (none_there key bel))) (here key low bel)
    | inr past ↦
        subst (Resolves key (tomb_at key u.tombstones) u.ranges (found key (dirs parts)))
          (sym (lookup-append_right key run later (after key past))) (there key past)
  ],
  λ key low.
      lookup-append_right key run later (before key low)
      ∙ none_there key (key_lt_of_le key lo hi low up),
)

abbrev joined : RangeOut → RangeOut → RangeOut
joined out later = record {
  run = out.run ++ later.run;
  live = out.live ++ later.live;
  needed = out.needed ++ later.needed;
  needed_ranges = out.needed_ranges ++ later.needed_ranges;
}

merge_ranges-joined :
    (lo hi : Bytes) (splitters : List Bytes) (u : Union) (parts : List RecoveryResult)
    (out later : RangeOut)
    → merge_range lo (some hi) u parts ≡ ok out
    → merge_ranges hi splitters u parts ≡ ok later
    → merge_ranges lo (hi ∷ splitters) u parts ≡ ok (joined out later)
unfolding merge_ranges
merge_ranges-joined lo hi splitters u parts out later is later_is = rw (is, later_is) refl

-- The ranges together, in the terms of the merge itself.
merge_ranges-Ranges :
    (lo : Bytes) (splitters : List Bytes) (u : Union) (parts : List RecoveryResult)
    → AscendFrom lo splitters
    → All IsAscending (dirs parts)
    → ((key : Bytes) → Agree (found key (dirs parts)))
    → (out : RangeOut) × (merge_ranges lo splitters u parts ≡ ok out) × Ranges lo u parts out.run
merge_ranges-Ranges lo [] u parts up asc agree =
    let (out, is, (here, before, after)) = merge_range-Slice lo none u parts asc agree in
    (out, unfold merge_ranges in is, (λ key low. here key low refl, before))
merge_ranges-Ranges lo (hi ∷ splitters) u parts (up, ups) asc agree =
    let (out, is, slice) = merge_range-Slice lo (some hi) u parts asc agree in
    let (later, later_is, rest) = merge_ranges-Ranges hi splitters u parts ups asc agree in
    (
      joined out later,
      merge_ranges-joined lo hi splitters u parts out later is later_is,
      Slice-Ranges lo hi u parts out.run later.run up slice rest,
    )

-- For parts in key order, none of which share a sequence on a key, for point tombstones in key order, and for
-- splitters that ascend from `lo`, `merge_ranges` returns. A key from `lo` on that no part has is not
-- bound. A key that some part has is bound to the entry of the parts with the highest sequence if no
-- point tombstone on the key and no range tombstone over it has a higher one, and to nothing otherwise.
-- No key below `lo` is bound. The splitters do not matter.
pub merge_ranges-Settles :
    (lo : Bytes) (splitters : List Bytes) (u : Union) (parts : List RecoveryResult)
    → AscendFrom lo splitters
    → IsKeyed u.tombstones
    → All IsAscending (dirs parts)
    → ((key : Bytes) → Pairwise Distinct (found key (dirs parts)))
    → (out : RangeOut) × (merge_ranges lo splitters u parts ≡ ok out)
      × ((key : Bytes)
          → key_lt key lo ≡ false
          → Settles (Hides key u.tombstones u.ranges) (found key (dirs parts)) (lookup key out.run))
      × ((key : Bytes) → key_lt key lo ≡ true → lookup key out.run ≡ none)
merge_ranges-Settles lo splitters u parts up keyed asc apart =
    let (out, is, (there, none_there)) =
      merge_ranges-Ranges lo splitters u parts up asc
        (λ key. Distinct-Agree (found key (dirs parts)) (apart key)) in
    (
      out,
      is,
      λ key low.
          Resolves-Settles key u.tombstones u.ranges (found key (dirs parts)) (lookup key out.run)
            keyed (apart key) (there key low),
      none_there,
    )
