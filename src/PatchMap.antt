-- ===== src/PatchMap.antt =====
-- bytecaskdb/patch_map.cppm: a map whose writes record patches and whose reads resolve them.
-- A chain of runs is a list, newest first; a run is the list of its entries.
pub mod Sorted
pub mod Lookup
pub mod Record
pub mod Freeze
use bytecaskdb.U32Map.{U32Map}
use bytecaskdb.Prelude.{
  ltb, ◌==◌, if◌then◌else◌, get_elem?, ℕ, zero, suc, ◌+◌, ◌≡◌, Option, none, some, List, [], ◌∷◌,
}

-- `PatchPolicy`: how a delta changes a value, and how two deltas join.
pub record PatchPolicy {ℓ κ} (V : Type ℓ) (D : Type κ) : Type (ℓ ⊔ κ) where
  pub apply : V → D → V
  pub combine : D → D → D
  -- what check_patch_policy of tests/patch_map_test.cpp asks of every policy
  pub apply-combine :
      (v : V) (older newer : D) → apply v (combine older newer) ≡ apply (apply v older) newer

pub data Patch {ℓ κ} (V : Type ℓ) (D : Type κ) : Type (ℓ ⊔ κ) where
  value : V → Patch V D
  erased : Patch V D
  delta : D → Patch V D

abbrev pub Entries {ℓ κ} : Type ℓ → Type κ → Type (ℓ ⊔ κ)
Entries V D = List (ℕ × Patch V D)

module _ {ℓ κ} {V : Type ℓ} {D : Type κ} where
  -- `std::ranges::lower_bound`: from the first entry that is not below the key.
  unfoldable pub lower_bound : ℕ → Entries V D → Entries V D
  lower_bound key [] = []
  lower_bound key (e ∷ es) = if ltb e.0 key then lower_bound key es else e ∷ es

  match_key : ℕ → Entries V D → Option (Patch V D)
  match_key key [] = none
  match_key key (e ∷ es) = if e.0 == key then some e.1 else none

  unfoldable pub find_patch : Entries V D → ℕ → Option (Patch V D)
  unfolding lower_bound match_key
  find_patch entries key = match_key key (lower_bound key entries)

  -- Where `lower_bound` stops, counted from the front.
  unfoldable pub lower_index : ℕ → Entries V D → ℕ
  lower_index key [] = 0
  lower_index key (e ∷ es) = if ltb e.0 key then suc (lower_index key es) else 0

module _ {ℓ} {V D : Type ℓ} (policy : PatchPolicy V D) where
  unfoldable pub fold : Patch V D → Patch V D → Patch V D
  fold older (value v) = value v
  fold older erased = erased
  fold (value v) (delta d) = value (policy.apply v d)
  fold (delta older) (delta d) = delta (policy.combine older d)
  fold erased (delta d) = erased

  -- `fold` into the entry at an index
  unfoldable pub fold_at : ℕ → Patch V D → Entries V D → Entries V D
  fold_at i p [] = []
  fold_at zero p (e ∷ es) = (e.0, fold e.1 p) ∷ es
  fold_at (suc i) p (e ∷ es) = e ∷ fold_at i p es

  -- `fold` into the entry that `lower_bound` finds, or an insertion before it
  unfoldable pub fold_or_insert : ℕ → Patch V D → Entries V D → Entries V D
  fold_or_insert key p [] = (key, p) ∷ []
  fold_or_insert key p (e ∷ es) =
      let rest = fold_or_insert key p es in
      if ltb e.0 key
      then e ∷ rest
      else if e.0 == key
      then (e.0, fold e.1 p) ∷ es
      else (key, p) ∷ (e ∷ es)

  -- The deltas met on the way down, the last one met first, and what decided.
  unfoldable pub scan : ℕ → List (Entries V D) → List D → List D × Option (Patch V D)
  scan key [] deltas = (deltas, none)
  scan key (run ∷ runs) deltas = elim (find_patch run key) [
    | none ↦ scan key runs deltas
    | some (delta d) ↦ scan key runs (d ∷ deltas)
    | some p ↦ (deltas, some p)
  ]

  unfoldable pub apply_all : V → List D → V
  apply_all v [] = v
  apply_all v (d ∷ ds) = apply_all (policy.apply v d) ds

  abbrev decided_value : Option (Patch V D) → Option V → Option V
  decided_value none base = base
  decided_value (some (value v)) base = some v
  decided_value (some _) base = none

  abbrev with_deltas : List D → Option V → Option V
  with_deltas deltas none = none
  with_deltas deltas (some v) = some (apply_all v deltas)

  module _ (base : U32Map V) where
    -- `PersistentPatchMap`
    pub record PatchMap : Type ℓ where
      pub table : base.Map
      pub runs : List (Entries V D)
      pub depth : ℕ

    -- `TransientPatchMap`: a version, its own patches, and the index that was written last
    pub record TransientPatchMap : Type ℓ where
      pub version : PatchMap
      pub pending : Entries V D
      pub last : ℕ

    -- `PatchMapCore::lookup`, over the runs from the newest on
    unfoldable pub lookup : base.Map → List (Entries V D) → ℕ → Option V
    lookup table runs key =
        let (deltas, decided) = scan key runs [] in
        with_deltas deltas (decided_value decided (base.get table key))

    unfoldable pub get : PatchMap → ℕ → Option V
    get m key = lookup m.table m.runs key

    unfoldable pub get_transient : TransientPatchMap → ℕ → Option V
    get_transient t key = lookup t.version.table (t.pending ∷ t.version.runs) key

    unfoldable pub transient : PatchMap → TransientPatchMap
    transient m = record { version = m; pending = []; last = 0 }

    record_slow : ℕ → Patch V D → TransientPatchMap → TransientPatchMap
    record_slow key p t = record t {
      pending = fold_or_insert key p t.pending;
      last = lower_index key t.pending;
    }

    -- `record`: the entry that was written last is tried first
    unfoldable pub record_patch : ℕ → Patch V D → TransientPatchMap → TransientPatchMap
    unfolding record_slow
    record_patch key p t = elim (get_elem? t.pending t.last) [
      | none ↦ record_slow key p t
      | some e ↦
          if e.0 == key
          then record t { pending = fold_at t.last p t.pending }
          else record_slow key p t
    ]

    unfoldable pub set : ℕ → V → TransientPatchMap → TransientPatchMap
    set key v = record_patch key (value v)

    unfoldable pub erase : ℕ → TransientPatchMap → TransientPatchMap
    erase key = record_patch key erased

    unfoldable pub patch : ℕ → D → TransientPatchMap → TransientPatchMap
    patch key d = record_patch key (delta d)

    -- One run written into the base.
    unfoldable pub replay : Entries V D → base.Map → base.Map
    replay [] table = table
    replay ((key, value v) ∷ es) table = replay es (base.set key v table)
    replay ((key, delta d) ∷ es) table = replay es (base.update key (λ v. policy.apply v d) table)
    replay ((key, erased) ∷ es) table = replay es (base.erase key table)

    -- `for_each_run`, oldest first
    unfoldable pub squash : List (Entries V D) → base.Map → base.Map
    squash [] table = table
    squash (run ∷ runs) table = replay run (squash runs table)

    -- `TransientPatchMap::persistent`
    unfoldable pub persistent : ℕ → TransientPatchMap → PatchMap
    persistent max_depth t = elim t.pending [
      | [] ↦ t.version
      | e ∷ es ↦
          if ltb t.version.depth max_depth
          then record t.version { runs = t.pending ∷ t.version.runs; depth = t.version.depth + 1 }
          else record {
            table = squash (t.pending ∷ t.version.runs) t.version.table;
            runs = [];
            depth = 0;
          }
    ]
