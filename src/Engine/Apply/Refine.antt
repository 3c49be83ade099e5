-- ===== src/Engine/Apply/Refine.antt =====
-- The writes of a plan refine updates of a map from keys.
use mathlib.Core.Option
use mathlib.Core.Path.{fun_ext}
use bytecaskdb.Format.Types.{EntryType}
use bytecaskdb.FileStats.{add64}
use bytecaskdb.KeyOrder.{Bytes, key_eq, key_lt}
use bytecaskdb.KeyDirEntry.{KeyDirEntry}
use bytecaskdb.KeyDirEntry.Packing.{make-eq-ok}
use bytecaskdb.Engine.State.{Containers, TransientEngineState, patch_stats}
use bytecaskdb.Engine.Plan.{
  WriteOp, point_put, point_del, range_del, WritePlan, resolved_entry, write_count,
}
use bytecaskdb.Engine.Apply.{
  apply_del, apply_put, apply_range_del, apply_write, next, offset_at, apply_marker, apply_ops,
  apply_writes, ingest_entry, note_range, note_written,
}
use bytecaskdb.Engine.Apply.Follow.{ingest_entry-next_seq, apply_put_lem, apply_del_lem}
use bytecaskdb.Engine.Apply.Keys.{
  apply_del-key_dir, apply_put-key_dir, doom-key_dir, facts, get-erase_doomed, spec_op,
  unless_bound, view, spec_ops,
}
use bytecaskdb.Prelude.{
  ltb, if◌then◌else◌, Bool-cases, length, ok, ◌>>=◌, >>=-eq-ok, ok-injective, ℕ, ◌+◌, ◌≡◌, refl,
  sym, ap, ◌∙◌, inl, inr, Bool, true, false, Option, none, some, List, [], ◌∷◌,
}

module _ (c : Containers) where
  view_put :
      (at_ : Option KeyDirEntry) (s offset : ℕ) (key value : Bytes) (t u : TransientEngineState c)
      → apply_put c at_ s offset key value t ≡ ok u
      → (j : Bytes) → view c u.key_dir j ≡ spec_op s (point_put key value) (view c t.key_dir) j
  unfolding spec_op
  view_put at_ s offset key value t u h j =
      let (e, made, tree) = apply_put-key_dir c at_ s offset key value t u h in
      let (_, fields) = make-eq-ok s offset t.active_file_id (length value) e made in
      rw tree (
        rw (c.keys.get-put key j e t.key_dir) (elim (Bool-cases (key_eq key j)) [
          | inl same ↦ rw same (ap some (cc (fields.sequence_is, fields.value_size_is)))
          | inr other ↦ rw other refl
        ]))

  view_del :
      (at_ : Option KeyDirEntry) (s : ℕ) (key : Bytes) (t : TransientEngineState c) (j : Bytes)
      → view c (apply_del c at_ key t).key_dir j ≡ spec_op s (point_del key) (view c t.key_dir) j
  unfolding spec_op
  view_del at_ s key t j = rw (apply_del-key_dir c at_ key t) (
      rw (c.keys.get-erase key j t.key_dir)
        (elim (Bool-cases (key_eq key j)) [ inl same ↦ rw same refl | inr other ↦ rw other refl ]))

  range_then :
      (before below : Bool) (g : Option KeyDirEntry)
      → Option.map facts (if below then unless_bound (if before then none else g) g else g)
        ≡ (if before then Option.map facts g else if below then none else Option.map facts g)
  range_then true true g = refl
  range_then true false g = refl
  range_then false true none = refl
  range_then false true (some e) = refl
  range_then false false g = refl

  view_range_del :
      (s : ℕ) (from to : Bytes) (t : TransientEngineState c) (j : Bytes)
      → view c (apply_range_del c from to t).key_dir j
        ≡ spec_op s (range_del from to) (view c t.key_dir) j
  unfolding apply_range_del spec_op patch_stats
  view_range_del s from to t j =
      let bs = c.keys.lower_bound t.key_dir from in
      let asc = c.keys.lower_bound-IsAscending t.key_dir from in
      rw (doom-key_dir c to bs t) (
        rw (get-erase_doomed c to bs t t.key_dir j asc) (
          rw (c.keys.lookup-lower_bound t.key_dir from j)
            (range_then (key_lt j from) (key_lt j to) (c.keys.get t.key_dir j))))

  pub apply_write_lem :
      (plan : WritePlan c) (offsets : List ℕ) (i w : ℕ) (op : WriteOp)
      (t u : TransientEngineState c)
      → apply_write c plan offsets i w op t ≡ ok u
      → (view c u.key_dir ≡ spec_op t.next_seq op (view c t.key_dir))
        × (u.next_seq ≡ add64 t.next_seq 1)
  unfolding apply_write next ingest_entry
  apply_write_lem plan offsets i w (point_put key value) t u h =
      let at_ = resolved_entry c plan w in
      let (o, p, h₁) = >>=-eq-ok (offset_at offsets i) _ h in
      let (v, q, h₂) = >>=-eq-ok (apply_put c at_ t.next_seq o key value t) _ h₁ in
      let same = sym (ok-injective h₂) in
      (
        ap (λ x. view c x.key_dir) same ∙ fun_ext (view_put at_ t.next_seq o key value t v q),
        ap (λ x. x.next_seq) same
            ∙ ap (λ n. add64 n 1)
                (ingest_entry-next_seq c EntryType.put t.next_seq key value o t v
                  (sym (apply_put_lem c at_ t.next_seq o key value t) ∙ q)),
      )
  apply_write_lem plan offsets i w (point_del key) t u h =
      let at_ = resolved_entry c plan w in
      let same = sym (ok-injective h) in
      (
        ap (λ x. view c x.key_dir) same ∙ fun_ext (view_del at_ t.next_seq key t),
        ap (λ x. x.next_seq) same
            ∙ ap (λ n. add64 n 1)
                (ingest_entry-next_seq c EntryType.delete t.next_seq key [] 0 t
                  (apply_del c at_ key t) (ap ok (sym (apply_del_lem c at_ key t)))),
      )
  apply_write_lem plan offsets i w (range_del from to) t u h =
      let same = sym (ok-injective h) in
      (
        ap (λ x. view c x.key_dir) same ∙ fun_ext (view_range_del t.next_seq from to t),
        ap (λ x. x.next_seq) same
            ∙ ap (λ n. add64 n 1)
                (ingest_entry-next_seq c EntryType.range_del t.next_seq from to 0 t
                  (apply_range_del c from to t) refl),
      )

  apply_ops-view :
      (plan : WritePlan c) (offsets : List ℕ) (i w : ℕ) (ops : List WriteOp)
      (t u : TransientEngineState c)
      → apply_ops c plan offsets i w ops t ≡ ok u
      → view c u.key_dir ≡ spec_ops t.next_seq ops (view c t.key_dir)
  unfolding apply_ops spec_ops
  apply_ops-view plan offsets i w [] t u h =
      let same = sym (ok-injective h) in ap (λ x. view c x.key_dir) same
  apply_ops-view plan offsets i w (op ∷ ops) t u h =
      let (v, p, h₁) = >>=-eq-ok (apply_write c plan offsets i w op t) _ h in
      let (first, step) = apply_write_lem plan offsets i w op t v p in
      let rest = apply_ops-view plan offsets (i + 1) (w + 1) ops v u h₁ in
      rest ∙ rw step (rw first refl)

  -- For a plan that `apply_writes` applies: the key directory maps each key to the sequence and
  -- the value size that the plan's writes, done in order on a map with one sequence each, leave it.
  pub apply_writes-view :
      (plan : WritePlan c) (offsets : List ℕ) (t u : TransientEngineState c)
      → apply_writes c plan offsets t ≡ ok u
      → view c u.key_dir
        ≡ spec_ops
            (if ltb 1 (length plan.writes) then add64 t.next_seq 1 else t.next_seq)
            plan.writes
            (view c t.key_dir)
  unfolding apply_writes write_count note_written note_range next apply_marker patch_stats
  apply_writes-view plan offsets t u h = elim (Bool-cases (ltb 1 (length plan.writes))) [
    | inl multi ↦
        let begun = next c (apply_marker c EntryType.bulk_begin t) in
        let h₀ : apply_ops c plan offsets 1 0 plan.writes begun >>= (λ t₁.
          ok (note_written c t.next_seq (next c (apply_marker c EntryType.bulk_begin t₁))))
            ≡ ok u =
          rw multi at h in
        let (v, p, h₁) = >>=-eq-ok (apply_ops c plan offsets 1 0 plan.writes begun) _ h₀ in
        ap (λ x. view c x.key_dir) (sym (ok-injective h₁))
        ∙ rw multi ((apply_ops-view plan offsets 1 0 plan.writes begun v p))
    | inr single ↦
        let h₀ : apply_ops c plan offsets 0 0 plan.writes t
              >>= (λ t₁. ok (note_written c t.next_seq t₁))
            ≡ ok u =
          rw single at h in
        let (v, p, h₁) = >>=-eq-ok (apply_ops c plan offsets 0 0 plan.writes t) _ h₀ in
        ap (λ x. view c x.key_dir) (sym (ok-injective h₁))
        ∙ rw single ((apply_ops-view plan offsets 0 0 plan.writes t v p))
  ]
