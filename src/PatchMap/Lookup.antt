-- ===== src/PatchMap/Lookup.antt =====
-- The value that a chain of runs gives a key, and that `lookup` computes it.
use mathlib.Core.Option
use bytecaskdb.U32Map.{U32Map}
use bytecaskdb.PatchMap.{
  Patch, value, erased, delta, Entries, PatchPolicy, find_patch, fold, scan, apply_all,
  decided_value, with_deltas, lookup,
}
use bytecaskdb.PatchMap.Sorted.{fold_onto}
use bytecaskdb.Prelude.{ℕ, ◌≡◌, refl, ap, ◌∙◌, Option, none, some, List, [], ◌∷◌}

module _ {ℓ} {V D : Type ℓ} (policy : PatchPolicy V D) where
  -- What a patch, if there is one, makes of the value below it.
  abbrev pub change : Option (Patch V D) → Option V → Option V
  change none below = below
  change (some (value v)) below = some v
  change (some erased) below = none
  change (some (delta d)) below = Option.map (λ v. policy.apply v d) below

  -- Recording a patch over another is changing twice.
  pub change-fold_onto :
      (old : Option (Patch V D)) (p : Patch V D) (below : Option V)
      → change (some (fold_onto policy old p)) below ≡ change (some p) (change old below)
  unfolding fold_onto fold
  change-fold_onto none p below = refl
  change-fold_onto (some q) (value v) below = refl
  change-fold_onto (some q) erased below = refl
  change-fold_onto (some (value w)) (delta d) below = refl
  change-fold_onto (some erased) (delta d) below = refl
  change-fold_onto (some (delta o)) (delta d) none = refl
  change-fold_onto (some (delta o)) (delta d) (some v) = ap some (policy.apply-combine v o d)

  with_deltas-change :
      (d : D) (ds : List D) (below : Option V)
      → with_deltas policy (d ∷ ds) below ≡ with_deltas policy ds (change (some (delta d)) below)
  unfolding apply_all
  with_deltas-change d ds none = refl
  with_deltas-change d ds (some v) = refl

  with_deltas-nil : (o : Option V) → with_deltas policy [] o ≡ o
  unfolding apply_all
  with_deltas-nil none = refl
  with_deltas-nil (some v) = refl

  module _ (base : U32Map V) where
    -- The runs applied to the base one after the other, the oldest first.
    unfoldable pub view : base.Map → List (Entries V D) → ℕ → Option V
    view table [] key = base.get table key
    view table (run ∷ runs) key = change (find_patch run key) (view table runs key)

    -- What `scan` found, resolved.
    abbrev resolved : base.Map → List (Entries V D) → ℕ → List D → Option V
    resolved table runs key ds =
        with_deltas policy (scan policy key runs ds).0
          (decided_value policy (scan policy key runs ds).1 (base.get table key))

    scan-view_step :
        (table : base.Map) (run : Entries V D) (runs : List (Entries V D)) (key : ℕ) (ds : List D)
        → ((es : List D) → resolved table runs key es ≡ with_deltas policy es (view table runs key))
        → (o : Option (Patch V D)) → find_patch run key ≡ o
        → resolved table (run ∷ runs) key ds ≡ with_deltas policy ds (view table (run ∷ runs) key)
    unfolding scan view
    scan-view_step table run runs key ds ih none e = rw (e, scan, view) (ih ds)
    scan-view_step table run runs key ds ih (some (value v)) e = rw (e, scan, view)
    scan-view_step table run runs key ds ih (some erased) e = rw (e, scan, view)
    scan-view_step table run runs key ds ih (some (delta d)) e =
        rw (e, scan, view) (ih (d ∷ ds) ∙ with_deltas-change d ds (view table runs key))

    scan-view :
        (table : base.Map) (runs : List (Entries V D)) (key : ℕ) (ds : List D)
        → resolved table runs key ds ≡ with_deltas policy ds (view table runs key)
    scan-view table [] key ds = unfold scan view in refl
    scan-view table (run ∷ runs) key ds =
        scan-view_step table run runs key ds (λ es. scan-view table runs key es)
          (find_patch run key) refl

    -- The search through the runs, newest first, finds what applying them oldest first gives.
    pub lookup-eq-view :
        (table : base.Map) (runs : List (Entries V D)) (key : ℕ)
        → lookup policy base table runs key ≡ view table runs key
    unfolding lookup
    lookup-eq-view table runs key =
        scan-view table runs key [] ∙ with_deltas-nil (view table runs key)
