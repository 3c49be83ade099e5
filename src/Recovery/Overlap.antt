-- ===== src/Recovery/Overlap.antt =====
-- `sorted_markers` and `find_sequence_overlap` of bytecaskdb/db_recovery.cpp. The statistics are what
-- `file_stats.all()` iterates over: an id and the counters of each file.
use bytecaskdb.Prelude.{
  ltb, leb, if◌then◌else◌, Bool-cases, All, ℕ, ◌≤◌, ◌<◌, ◌≡◌, ◌⊎◌, inl, inr, Option, none, some,
  List, [], ◌∷◌, arith, sort_by, Pairwise, IsSortedBy, sort_by-IsSortedBy, All-sort_by, All-map,
  Pairwise-of-sort_by, AnyPair, AnyPair-of-sort_by,
}
use bytecaskdb.Format.Types.{ChangeMarker}
use bytecaskdb.FileStats.{FileStats}

-- A null list is the empty one.
unfoldable pub sorted_markers : List ChangeMarker → List ChangeMarker
sorted_markers markers = sort_by (λ m. m.since_sequence) markers

pub record Range : Type 0 where
  pub min : ℕ
  pub max : ℕ
  pub file_id : ℕ

-- The ranges of the files that hold an entry.
unfoldable pub ranges_of : List (ℕ × FileStats) → List Range
ranges_of [] = []
ranges_of ((fid, fs) ∷ all_stats) =
    let rest = ranges_of all_stats in
    if ltb 0 fs.min_sequence
    then record { min = fs.min_sequence; max = fs.max_sequence; file_id = fid } ∷ rest
    else rest

-- The loop over the sorted ranges, after `prev`.
unfoldable pub overlap_after : Range → List Range → Option (ℕ × ℕ)
overlap_after prev [] = none
overlap_after prev (r ∷ rs) =
    let rest = overlap_after r rs in
    if leb r.min prev.max then some (prev.file_id, r.file_id) else rest

unfoldable pub first_overlap : List Range → Option (ℕ × ℕ)
unfolding overlap_after
first_overlap [] = none
first_overlap (r ∷ rs) = overlap_after r rs

unfoldable pub find_sequence_overlap : List (ℕ × FileStats) → Option (ℕ × ℕ)
unfolding ranges_of first_overlap
find_sequence_overlap all_stats = first_overlap (sort_by (λ r. r.min) (ranges_of all_stats))

-- No sequence lies in both ranges.
abbrev pub IsDisjoint : Range → Range → Type 0
IsDisjoint r q = (r.max < q.min) ⊎ (q.max < r.min)

-- Every range runs from its first sequence to its last.
abbrev pub IsRange : Range → Type 0
IsRange r = r.min ≤ r.max

-- Some sequence lies in both ranges.
abbrev pub Overlaps : Range → Range → Type 0
Overlaps r q = (r.min ≤ q.max) × (q.min ≤ r.max)

IsDisjoint-symmetric : (r q : Range) → IsDisjoint r q → IsDisjoint q r
IsDisjoint-symmetric r q (inl h) = inr h
IsDisjoint-symmetric r q (inr h) = inl h

-- Ranges that pass the test one after the other lie above `prev`, and are disjoint.
overlap_after-none :
    (prev : Range) (rs : List Range)
    → IsRange prev
    → All IsRange rs
    → overlap_after prev rs ≡ none
    → All (λ r. prev.max < r.min) rs × Pairwise IsDisjoint rs
unfolding overlap_after
overlap_after-none prev [] p h e = (tt, tt)
overlap_after-none prev (r ∷ rs) p h e = elim (Bool-cases (leb r.min prev.max)) [
  | inl near ↦ let found : some (prev.file_id, r.file_id) ≡ none = rw near at e in absurd (cc found)
  | inr far ↦
      let later : overlap_after r rs ≡ none = rw far at e in
      let s : prev.max < r.min = ground (arith, far) in
      let l : r.min ≤ r.max = h.0 in
      let (above, apart) = overlap_after-none r rs h.0 h.1 later in
      (
        (
          s,
          All-map (λ q. r.max < q.min) (λ q. prev.max < q.min) (λ q g. omega (arith, g, s, l)) rs
              above,
        ),
        (All-map (λ q. r.max < q.min) (IsDisjoint r) (λ q g. inl g) rs above, apart),
      )
]

first_overlap-none :
    (rs : List Range) → All IsRange rs → first_overlap rs ≡ none → Pairwise IsDisjoint rs
unfolding first_overlap
first_overlap-none [] h e = tt
first_overlap-none (r ∷ rs) h e =
    let (above, apart) = overlap_after-none r rs h.0 h.1 e in
    (All-map (λ q. r.max < q.min) (IsDisjoint r) (λ q g. inl g) rs above, apart)

-- `a` and `b` are the ids of the two, which share a sequence.
abbrev pub IsOverlapOf : ℕ → ℕ → Range → Range → Type 0
IsOverlapOf a b r q =
    Overlaps r q × (((r.file_id ≡ a) × (q.file_id ≡ b)) ⊎ ((r.file_id ≡ b) × (q.file_id ≡ a)))

IsOverlapOf-symmetric : (a b : ℕ) (r q : Range) → IsOverlapOf a b r q → IsOverlapOf a b q r
IsOverlapOf-symmetric a b r q (o, inl (h, k)) = ((o.1, o.0), inr (k, h))
IsOverlapOf-symmetric a b r q (o, inr (h, k)) = ((o.1, o.0), inl (k, h))

-- In sorted ranges, the pair that the loop stops at shares a sequence.
overlap_after-some :
    (prev : Range) (rs : List Range) (a b : ℕ)
    → All IsRange rs
    → All (λ r. prev.min ≤ r.min) rs × IsSortedBy (λ r. r.min) rs
    → overlap_after prev rs ≡ some (a, b)
    → AnyPair (IsOverlapOf a b) (prev ∷ rs)
unfolding overlap_after
overlap_after-some prev [] a b h s e = cc
overlap_after-some prev (r ∷ rs) a b h s e = elim (Bool-cases (leb r.min prev.max)) [
  | inl near ↦
      let found : ◌≡◌ {A = Option (ℕ × ℕ)} (some (prev.file_id, r.file_id)) (some (a, b)) =
        rw near at e in
      let le : r.min ≤ prev.max = ground (arith, near) in
      let fits : r.min ≤ r.max = h.0 in
      let order : prev.min ≤ r.min = s.0.0 in
      inl (inl ((omega (arith, fits, order), le), inl (cc found, cc found)))
  | inr far ↦
      let later : overlap_after r rs ≡ some (a, b) = rw far at e in
      inr (overlap_after-some r rs a b h.1 s.1 later)
]

first_overlap-some :
    (rs : List Range) (a b : ℕ)
    → All IsRange rs
    → IsSortedBy (λ r. r.min) rs
    → first_overlap rs ≡ some (a, b)
    → AnyPair (IsOverlapOf a b) rs
unfolding first_overlap
first_overlap-some [] a b h s e = cc
first_overlap-some (r ∷ rs) a b h s e = overlap_after-some r rs a b h.1 s e

-- For counters whose least sequence is not above the highest: if no pair is found, no two ranges of
-- the files share a sequence, and a pair that is found is two of the files, whose ranges do.
pub find_sequence_overlap-decides :
    (all_stats : List (ℕ × FileStats))
    → All IsRange (ranges_of all_stats)
    → (find_sequence_overlap all_stats ≡ none → Pairwise IsDisjoint (ranges_of all_stats))
      × ((a b : ℕ)
          → find_sequence_overlap all_stats ≡ some (a, b)
          → AnyPair (IsOverlapOf a b) (ranges_of all_stats))
unfolding find_sequence_overlap
find_sequence_overlap-decides all_stats h =
    let rs = ranges_of all_stats in
    let fits = All-sort_by (λ r. r.min) IsRange rs h in
    (
      λ e.
          Pairwise-of-sort_by (λ r. r.min) IsDisjoint IsDisjoint-symmetric rs
            (first_overlap-none (sort_by (λ r. r.min) rs) fits e),
      λ a b e.
          AnyPair-of-sort_by (λ r. r.min) (IsOverlapOf a b) (IsOverlapOf-symmetric a b) rs
            (first_overlap-some (sort_by (λ r. r.min) rs) a b fits
              (sort_by-IsSortedBy (λ r. r.min) rs) e),
    )
