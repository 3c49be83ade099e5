-- ===== src/Recovery/Ranged/Correct.antt =====
-- What recovery_load_ranged loads, for the parts that its workers built.
use bytecaskdb.Prelude.{Pairwise, All, length, min, ok, ℕ, ◌≡◌, refl, Bool, List, [], ◌∷◌}
use bytecaskdb.KeyOrder.{Bytes}
use bytecaskdb.KeyDir.{Bindings, lookup, IsAscending}
use bytecaskdb.Format.Bytes.{Crc32c}
use bytecaskdb.Recovery.Build.{RecoveredFile, RecoveryResult}
use bytecaskdb.Recovery.Ranged.{RangeOut}
use bytecaskdb.Recovery.Ranged.Load.{
  Recovered, build_parts, merge_ranges, no_parts, recovered_of, recovery_load_ranged, splitters_of,
  union_parts,
}
use bytecaskdb.Recovery.Ranged.Cursors.{found}
use bytecaskdb.Recovery.Ranged.Settled.{Hides, Settles, Settles-same}
use bytecaskdb.Recovery.Ranged.Union.{HiddenBy, union_parts-HiddenBy, union_parts-IsKeyed}
use bytecaskdb.Recovery.Ranged.Winner.{Distinct}
use bytecaskdb.Recovery.Merge.{PopOrder}
use bytecaskdb.Recovery.Ranged.Slices.{dirs}
use bytecaskdb.Recovery.Ranged.Ranges.{merge_ranges-Settles}
use bytecaskdb.Recovery.Ranged.Splitters.{not_below_empty, splitters_of-AscendFrom}

-- A key directory that binds each key to what the parts decide for it.
abbrev pub IsMergeOf : List RecoveryResult → Bindings → Type 0
IsMergeOf parts key_dir =
    (key : Bytes) → Settles (HiddenBy key parts) (found key (dirs parts)) (lookup key key_dir)

loads :
    (c : Crc32c) (pops : ℕ → PopOrder) (sample : Bindings → ℕ → List Bytes) (start : Recovered)
    (strict : Bool) (threads : ℕ) (file : RecoveredFile) (files : List RecoveredFile)
    (parts : List RecoveryResult) (out : RangeOut)
    → build_parts c pops strict
        (min (length (file ∷ files)) threads)
        0
        (min (length (file ∷ files)) threads)
        (file ∷ files)
      ≡ ok parts
    → merge_ranges []
        (splitters_of sample (min (length (file ∷ files)) threads) parts)
        (union_parts no_parts parts)
        parts
      ≡ ok out
    → recovery_load_ranged c pops sample start strict threads (file ∷ files)
      ≡ ok (recovered_of (union_parts no_parts parts) out)
unfolding recovery_load_ranged
loads c pops sample start strict threads file files parts out builds merges =
    rw (builds, merges) refl

-- When the workers build their parts, the parts are in key order and no two of them share a sequence on a
-- key, `recovery_load_ranged` returns. A key that no part has is not bound. A key that some part has is
-- bound to the entry of the parts with the highest sequence if no part has a point tombstone on the key
-- or a range tombstone over it with a higher one, and to nothing otherwise. This holds whatever sample
-- of its keys a tree offers.
pub recovery_load_ranged-IsMergeOf :
    (c : Crc32c) (pops : ℕ → PopOrder) (sample : Bindings → ℕ → List Bytes) (start : Recovered)
    (strict : Bool) (threads : ℕ) (file : RecoveredFile) (files : List RecoveredFile)
    (parts : List RecoveryResult)
    → build_parts c pops strict
        (min (length (file ∷ files)) threads)
        0
        (min (length (file ∷ files)) threads)
        (file ∷ files)
      ≡ ok parts
    → All IsAscending (dirs parts)
    → ((key : Bytes) → Pairwise Distinct (found key (dirs parts)))
    → (r : Recovered) × (recovery_load_ranged c pops sample start strict threads (file ∷ files)
        ≡ ok r)
      × IsMergeOf parts r.key_dir
recovery_load_ranged-IsMergeOf c pops sample start strict threads file files parts builds asc
      apart =
    let workers = min (length (file ∷ files)) threads in
    let u = union_parts no_parts parts in
    let (out, merges, from_empty, none_below) =
      merge_ranges-Settles [] (splitters_of sample workers parts) u parts
        (splitters_of-AscendFrom sample workers parts) (union_parts-IsKeyed parts) asc apart in
    (
      recovered_of u out,
      loads c pops sample start strict threads file files parts out builds merges,
      unfold recovered_of in
          (λ key.
            Settles-same (Hides key u.tombstones u.ranges) (HiddenBy key parts)
              (found key (dirs parts)) (lookup key out.run) (λ s. union_parts-HiddenBy key s parts)
              (from_empty key (not_below_empty key))),
    )
