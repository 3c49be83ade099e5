-- ===== src/Engine/Vacuum/Moves.antt =====
-- Vacuum moves records and changes no key's version.
use bytecaskdb.KeyOrder.{Bytes, key_eq, key_eq_iff}
use bytecaskdb.KeyDirEntry.{make, sequence}
use bytecaskdb.KeyDirEntry.Packing.{make-eq-ok}
use bytecaskdb.PatchMap
use bytecaskdb.FileStats.Policy.{file_stats_policy}
use bytecaskdb.Engine.State.{Containers, DataFile, TransientEngineState}
use bytecaskdb.Engine.Validate.Range.{version}
use bytecaskdb.Engine.Vacuum.{VacuumMapping, VacuumScanResult, apply_vacuum, remap, remap_all}
use bytecaskdb.Prelude.{
  ◌==◌, ==_iff, Bool-cases, Option-cases, live_without_destination, ok, err, ◌>>=◌, >>=-eq-ok,
  ok-injective, ℕ, ◌≡◌, refl, sym, ap, subst, ◌∙◌, ◌⊎◌, inl, inr, Bool, true, false, Option, none,
  some, List, [], ◌∷◌,
}

list_cases : {A : Type 0} (xs : List A) → (xs ≡ []) ⊎ ((x : A) × (ys : List A) × (xs ≡ x ∷ ys))
list_cases [] = inl refl
list_cases (x ∷ ys) = inr (x, ys, refl)

module _ (c : Containers) where
  remap-version :
      (dest : ℕ) (m : VacuumMapping) (tree : c.keys.Tree) (r : Bool × c.keys.Tree)
      → remap c dest m tree ≡ ok r
      → (j : Bytes) → version (c.keys.get r.1 j) ≡ version (c.keys.get tree j)
  unfolding remap
  remap-version dest m tree r h j = elim (Option-cases (c.keys.get tree m.key)) [
    | inl gone ↦
        let h' : ok (false, tree) ≡ ok r = rw (gone, remap) at h in
        ap (λ x. version (c.keys.get x.1 j)) (sym (ok-injective h'))
    | inr (cur, here) ↦ elim (Bool-cases (sequence cur == m.sequence)) [
      | inr other ↦
          let h' : ok (false, tree) ≡ ok r = rw (here, other, remap) at h in
          ap (λ x. version (c.keys.get x.1 j)) (sym (ok-injective h'))
      | inl same ↦
          let h' : make m.sequence m.new_offset dest m.value_size
                >>= (λ e. ok (true, (c.keys.put m.key e tree).1))
              ≡ ok r =
            rw (here, same, remap) at h in
          let (e, made, h₁) = >>=-eq-ok (make m.sequence m.new_offset dest m.value_size) _ h' in
          let (_, fields) = make-eq-ok m.sequence m.new_offset dest m.value_size e made in
          let same_seq : sequence cur ≡ m.sequence = (==_iff (sequence cur) m.sequence).0 same in
          ap (λ x. version (c.keys.get x.1 j)) (sym (ok-injective h₁))
          ∙ ap version (c.keys.get-put m.key j e tree)
          ∙ elim (Bool-cases (key_eq m.key j)) [
            | inr away ↦ rw away refl
            | inl at_key ↦
                let there : c.keys.get tree j ≡ some cur =
                  subst (λ x. c.keys.get tree x ≡ some cur) ((key_eq_iff m.key j).0 at_key) here in
                rw at_key (rw there (ap some (fields.sequence_is ∙ sym same_seq)))
          ]
    ]
  ]

  remap_all-version :
      (dest : ℕ) (ms : List VacuumMapping) (live : ℕ) (tree : c.keys.Tree) (r : ℕ × c.keys.Tree)
      → remap_all c dest ms live tree ≡ ok r
      → (j : Bytes) → version (c.keys.get r.1 j) ≡ version (c.keys.get tree j)
  unfolding remap_all
  remap_all-version dest [] live tree r h j =
      ap (λ x. version (c.keys.get x.1 j)) (sym (ok-injective h))
  remap_all-version dest (m ∷ ms) live tree r h j =
      let (s, p, h₁) = >>=-eq-ok (remap c dest m tree) _ h in
      remap_all-version dest ms _ s.1 r h₁ j ∙ remap-version dest m tree s p j

  -- A vacuum that is applied leaves every key in the directory with the sequence it had, and no
  -- key without one gets one, so no version changes for a transaction that runs across it.
  pub apply_vacuum-version :
      (old dest : ℕ) (scan : VacuumScanResult) (file : Option DataFile)
      (t u : TransientEngineState c)
      → apply_vacuum c old scan file dest t ≡ ok u
      → (j : Bytes) → version (c.keys.get u.key_dir j) ≡ version (c.keys.get t.key_dir j)
  unfolding apply_vacuum
  apply_vacuum-version old dest scan none t u h j = elim (list_cases scan.mappings) [
    | inl empty ↦
        let h' : ok (record t {
          files = c.files.erase old t.files;
          file_stats = PatchMap.erase file_stats_policy c.stats old t.file_stats;
        })
            ≡ ok u =
          rw (empty, apply_vacuum) at h in
        ap (λ x. version (c.keys.get x.key_dir j)) (sym (ok-injective h'))
    | inr (m, ms, full) ↦
        let h' : err live_without_destination ≡ ok u = rw (full, apply_vacuum) at h in
        absurd (cc h')
  ]
  apply_vacuum-version old dest scan (some file) t u h j =
      let (r, p, h₁) = >>=-eq-ok (remap_all c dest scan.mappings scan.live_bytes t.key_dir) _ h in
      ap (λ x. version (c.keys.get x.key_dir j)) (sym (ok-injective h₁))
      ∙ remap_all-version dest scan.mappings scan.live_bytes t.key_dir r p j
