-- ===== src/PatchMap/Record.antt =====
-- A transient's writes, as its reads see them.
use bytecaskdb.U32Map.{U32Map}
use bytecaskdb.PatchMap.{
  Patch, PatchPolicy, find_patch, fold_or_insert, TransientPatchMap, get_transient, record_slow,
  record_patch,
}
use bytecaskdb.PatchMap.Sorted.{
  IsSorted, fold_onto, fold_or_insert-IsSorted, find_patch-fold_or_insert,
  fold_at-eq-fold_or_insert,
}
use bytecaskdb.PatchMap.Lookup.{change, change-fold_onto, view, lookup-eq-view}
use bytecaskdb.Prelude.{
  ◌==◌, if◌then◌else◌, ==_iff, Bool-cases, Option-cases, get_elem?, ℕ, ◌≡◌, ◌⊎◌, inl, inr, true,
  false, some, ◌∷◌, arith,
}

module _ {ℓ} {V D : Type ℓ} (policy : PatchPolicy V D) (base : U32Map V) where
  -- Either way of recording leaves the entries that a fold or an insertion by key does.
  pub record_patch-pending :
      (key : ℕ) (p : Patch V D) (t : TransientPatchMap policy base)
      → IsSorted t.pending
      → (record_patch policy base key p t).pending ≡ fold_or_insert policy key p t.pending
  unfolding record_patch
  record_patch-pending key p t h = elim (Option-cases (get_elem? t.pending t.last)) [
    | inl out ↦ rw (out, record_patch, record_slow)
    | inr ((k, q), e) ↦ elim (Bool-cases (k == key)) [
      | inl here ↦
          let same : k ≡ key = (==_iff k key).0 here in
          rw (e, record_patch, record_slow)
            (rw here (fold_at-eq-fold_or_insert policy t.last key p q t.pending h (rw (← same) e)))
      | inr other ↦ rw (e, record_patch, record_slow) (rw other)
    ]
  ]

  pub record_patch-version :
      (key : ℕ) (p : Patch V D) (t : TransientPatchMap policy base)
      → (record_patch policy base key p t).version ≡ t.version
  unfolding record_patch
  record_patch-version key p t = ground arith

  pub record_patch-IsSorted :
      (key : ℕ) (p : Patch V D) (t : TransientPatchMap policy base)
      → IsSorted t.pending
      → IsSorted (record_patch policy base key p t).pending
  record_patch-IsSorted key p t h =
      rw (record_patch-pending key p t h) (fold_or_insert-IsSorted policy key p t.pending h)

  pub get_transient-view :
      (t : TransientPatchMap policy base) (j : ℕ)
      → get_transient policy base t j
        ≡ change policy (find_patch t.pending j) (view policy base t.version.table t.version.runs j)
  unfolding get_transient view
  get_transient-view t j = lookup-eq-view policy base t.version.table (t.pending ∷ t.version.runs) j

  recorded :
      (key j : ℕ) (p : Patch V D) (t : TransientPatchMap policy base)
      → ((key == j) ≡ true) ⊎ ((key == j) ≡ false)
      → change policy
          (if key == j
            then some (fold_onto policy (find_patch t.pending key) p)
            else find_patch t.pending j)
          (view policy base t.version.table t.version.runs j)
        ≡ (if key == j
            then change policy (some p) (
                change policy
                  (find_patch t.pending key)
                  (view policy base t.version.table t.version.runs key))
            else change policy
                (find_patch t.pending j)
                (view policy base t.version.table t.version.runs j))
  recorded key j p t (inl same) =
      let e : key ≡ j = (==_iff key j).0 same in
      rw same (
        rw (← e) (
          change-fold_onto policy (find_patch t.pending key) p
            (view policy base t.version.table t.version.runs key)))
  recorded key j p t (inr other) = rw other

  -- In a transient map whose pending patches are sorted, a recorded patch changes the value read at
  -- its own key by that patch, whether the key was written last or not, and at no other.
  pub get_transient-record_patch :
      (key j : ℕ) (p : Patch V D) (t : TransientPatchMap policy base)
      → IsSorted t.pending
      → get_transient policy base (record_patch policy base key p t) j ≡ (
          if key == j
          then change policy (some p) (get_transient policy base t key)
          else get_transient policy base t j)
  get_transient-record_patch key j p t h =
      rw (get_transient-view (record_patch policy base key p t) j) (
        rw (record_patch-version key p t) (
          rw (record_patch-pending key p t h) (
            rw (find_patch-fold_or_insert policy key j p t.pending h) (
              rw (get_transient-view t key)
                (rw (get_transient-view t j) (recorded key j p t (Bool-cases (key == j))))))))
