-- ===== src/PatchMap/Freeze.antt =====
-- Freezing a transient: a pushed run or a squash into the base, and what every version keeps.
use bytecaskdb.U32Map.{U32Map}
use bytecaskdb.PatchMap.{
  Patch, value, erased, delta, Entries, PatchPolicy, find_patch, PatchMap, TransientPatchMap, get,
  get_transient, transient, record_patch, replay, squash, persistent,
}
use bytecaskdb.PatchMap.Sorted.{IsSorted, find_patch-cons, find_patch-Above}
use bytecaskdb.PatchMap.Lookup.{change, view, lookup-eq-view}
use bytecaskdb.PatchMap.Record.{record_patch-IsSorted, record_patch-version}
use bytecaskdb.Prelude.{
  ltb, ◌==◌, if◌then◌else◌, ltb→lt, ==_iff, Bool-cases, length, All, ℕ, ◌≤◌, ◌<◌, ◌≡◌, refl, sym,
  ap, ◌∙◌, ◌⊎◌, inl, inr, true, false, some, List, [], ◌∷◌, arith,
}

module _ {ℓ} {V D : Type ℓ} (policy : PatchPolicy V D) (base : U32Map V) where
  get-replay_cons :
      (key : ℕ) (p : Patch V D) (es : Entries V D) (table : base.Map) (j : ℕ)
      → (table' : base.Map) × (replay policy base ((key, p) ∷ es) table
          ≡ replay policy base es table')
        × (base.get table' j
            ≡ (if key == j then change policy (some p) (base.get table j) else base.get table j))
  unfolding replay
  get-replay_cons key (value v) es table j =
      (base.set key v table, refl, base.get-set table key j v)
  get-replay_cons key erased es table j = (base.erase key table, refl, base.get-erase table key j)
  get-replay_cons key (delta d) es table j = (
    base.update key (λ v. policy.apply v d) table,
    refl,
    base.get-update table key j (λ v. policy.apply v d),
  )

  -- Writing a sorted run into the base changes each of its keys once.
  get-replay :
      (es : Entries V D) (table : base.Map) (j : ℕ)
      → IsSorted es
      → base.get (replay policy base es table) j
        ≡ change policy (find_patch es j) (base.get table j)
  get-replay [] table j h = unfold replay find_patch in refl
  get-replay ((key, p) ∷ es) table j h =
      let (table', e, g) = get-replay_cons key p es table j in
      rw e (
        get-replay es table' j h.1
        ∙ rw (find_patch-cons (key, p) es j h) (rw g (one_change (Bool-cases (key == j)))))
    where
      one_change :
          ((key == j) ≡ true) ⊎ ((key == j) ≡ false)
          → change policy
              (find_patch es j)
              (if key == j then change policy (some p) (base.get table j) else base.get table j)
            ≡ change policy (if key == j then some p else find_patch es j) (base.get table j)
      one_change (inl same) =
          rw same (rw (find_patch-Above es key j h.0 (omega (arith, (==_iff key j).0 same))))
      one_change (inr other) = rw other

  get-squash :
      (runs : List (Entries V D)) (table : base.Map) (j : ℕ)
      → All IsSorted runs
      → base.get (squash policy base runs table) j ≡ view policy base table runs j
  unfolding squash view
  get-squash [] table j h = refl
  get-squash (run ∷ runs) table j h =
      get-replay run (squash policy base runs table) j h.0
      ∙ ap (change policy (find_patch run j)) (get-squash runs table j h.1)

  -- A version whose runs are sorted, and whose depth is their number and within the limit.
  pub record IsValid (max_depth : ℕ) (m : PatchMap policy base) : Type ℓ where
    pub sorted : All IsSorted m.runs
    pub counted : m.depth ≡ length m.runs
    pub within : m.depth ≤ max_depth

  pub record IsValidTransient (max_depth : ℕ) (t : TransientPatchMap policy base) : Type ℓ where
    pub version : IsValid max_depth t.version
    pub pending : IsSorted t.pending

  abbrev parts : PatchMap policy base → Entries V D → ℕ → TransientPatchMap policy base
  parts version pending last = record { version = version; pending = pending; last = last }

  get-persistent-parts :
      (max_depth j : ℕ) (m : PatchMap policy base) (pending : Entries V D) (last : ℕ)
      → All IsSorted m.runs
      → IsSorted pending
      → get policy base (persistent policy base max_depth (parts m pending last)) j
        ≡ view policy base m.table (pending ∷ m.runs) j
  unfolding persistent get
  get-persistent-parts max_depth j m [] last h s =
      lookup-eq-view policy base m.table m.runs j ∙ (unfold view find_patch in refl)
  get-persistent-parts max_depth j m (e ∷ es) last h s = elim (Bool-cases (ltb m.depth max_depth)) [
    | inl room ↦ rw room (lookup-eq-view policy base m.table ((e ∷ es) ∷ m.runs) j)
    | inr full ↦ rw full (
        lookup-eq-view policy base (squash policy base ((e ∷ es) ∷ m.runs) m.table) [] j
        ∙ (unfold view in
            (get-squash ((e ∷ es) ∷ m.runs) m.table j (s, h) ∙ (unfold view in refl))))
  ]

  persistent-IsValid_parts :
      (max_depth : ℕ) (m : PatchMap policy base) (pending : Entries V D) (last : ℕ)
      → IsValid max_depth m
      → IsSorted pending
      → IsValid max_depth (persistent policy base max_depth (parts m pending last))
  unfolding persistent
  persistent-IsValid_parts max_depth m [] last h s = h
  persistent-IsValid_parts max_depth m (e ∷ es) last h s =
      elim (Bool-cases (ltb m.depth max_depth)) [
        | inl room ↦
            let below : m.depth < max_depth = ltb→lt m.depth max_depth room in
            rw room (record {
              sorted = (s, h.sorted);
              counted = omega (arith, h.counted);
              within = omega arith;
            })
        | inr full ↦ rw full (record { sorted = tt; counted = refl; within = omega arith })
      ]

  -- Freezing a valid transient map (sorted patches, as many sorted runs as its depth, within the
  -- limit) changes no key's value, whether it pushes a run or squashes the chain.
  pub get-persistent :
      (max_depth j : ℕ) (t : TransientPatchMap policy base)
      → IsValidTransient max_depth t
      → get policy base (persistent policy base max_depth t) j ≡ get_transient policy base t j
  get-persistent max_depth j t h =
      get-persistent-parts max_depth j t.version t.pending t.last h.version.sorted h.pending
      ∙ sym (
          unfold get_transient in
          lookup-eq-view policy base t.version.table (t.pending ∷ t.version.runs) j)

  -- Freezing a valid transient map gives a valid map, so its chain never exceeds the limit.
  pub persistent-IsValid :
      (max_depth : ℕ) (t : TransientPatchMap policy base)
      → IsValidTransient max_depth t
      → IsValid max_depth (persistent policy base max_depth t)
  persistent-IsValid max_depth t h =
      persistent-IsValid_parts max_depth t.version t.pending t.last h.version h.pending

  pub transient-IsValid :
      (max_depth : ℕ) (m : PatchMap policy base)
      → IsValid max_depth m
      → IsValidTransient max_depth (transient policy base m)
  unfolding transient
  transient-IsValid max_depth m h = record { version = h; pending = tt }

  -- Recording a patch keeps a valid transient map valid.
  pub record_patch-IsValid :
      (max_depth key : ℕ) (p : Patch V D) (t : TransientPatchMap policy base)
      → IsValidTransient max_depth t
      → IsValidTransient max_depth (record_patch policy base key p t)
  record_patch-IsValid max_depth key p t h = record {
    version = rw (record_patch-version policy base key p t) h.version;
    pending = record_patch-IsSorted policy base key p t h.pending;
  }
