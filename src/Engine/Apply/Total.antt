-- ===== src/Engine/Apply/Total.antt =====
-- A plan within the limits of the packed entries is applied without an error.
use bytecaskdb.Engine.Apply.Keys.{spec_ops, view}
use bytecaskdb.Format.Types.{EntryType}
use bytecaskdb.Format.Bytes.{narrow}
use bytecaskdb.KeyOrder.{Bytes, key_lt}
use bytecaskdb.KeyDirEntry.{KeyDirEntry, pack}
use bytecaskdb.KeyDirEntry.Packing.{make-InLimits}
use bytecaskdb.KeyDir.{Bindings}
use bytecaskdb.FileStats.{entry_size, no_delta, add64}
use bytecaskdb.Engine.State.{Containers, TransientEngineState, patch_stats, note_pending}
use bytecaskdb.Engine.Plan.{
  WriteOp, point_put, point_del, range_del, WritePlan, resolved_entry, write_count,
}
use bytecaskdb.Engine.Apply.{
  remove, apply_del, apply_ops, apply_put, apply_range_del, apply_write, displace, doom, next,
  offset_at, place, apply_marker, apply_writes, note_written,
}
use bytecaskdb.Engine.Apply.Refine.{apply_write_lem, apply_writes-view}
use bytecaskdb.Prelude.{
  ltb, if◌then◌else◌, lt→ltb, Bool-cases, length, All, ok, ℕ, zero, suc, ◌+◌, ◌^◌, ◌≤◌, ◌<◌, ◌≡◌,
  refl, ◌∙◌, inl, inr, true, false, Option, none, some, List, [], ◌∷◌, arith,
}

-- A value's size fits its field.
abbrev pub ValueFits : WriteOp → Type 0
ValueFits (point_put key value) = length value < 2 ^ 28
ValueFits (point_del key) = Unit
ValueFits (range_del from to) = Unit

abbrev pub OffsetFits : ℕ → Type 0
OffsetFits o = o < 2 ^ 32

offset_below :
    (offsets : List ℕ) (i : ℕ)
    → All OffsetFits offsets
    → i < length offsets
    → (o : ℕ) × (offset_at offsets i ≡ ok o) × OffsetFits o
unfolding offset_at
offset_below [] i a h = absurd (omega arith)
offset_below (x ∷ xs) zero a h = (x, refl, a.0)
offset_below (x ∷ xs) (suc i) a h = offset_below xs i a.1 (omega arith)

module _ (c : Containers) where
  displace_file :
      (n : ℕ) (o : Option KeyDirEntry) (t : TransientEngineState c)
      → (displace c n o t).active_file_id ≡ t.active_file_id
  unfolding displace patch_stats
  displace_file n none t = refl
  displace_file n (some e) t = refl

  note_pending_file :
      (offset seq : ℕ) (key : Bytes) (n : ℕ) (t : TransientEngineState c)
      → (note_pending c offset seq key n t).active_file_id ≡ t.active_file_id
  unfolding note_pending
  note_pending_file offset seq key n t = elim (Bool-cases c.keys.reads_keys) [
    | inl reads ↦ rw reads refl
    | inr keyed ↦ rw keyed refl
  ]

  doom_file :
      (to : Bytes) (bs : Bindings) (t : TransientEngineState c)
      → (doom c to bs t).1.active_file_id ≡ t.active_file_id
  unfolding doom
  doom_file to [] t = refl
  doom_file to ((k, e) ∷ bs) t = elim (Bool-cases (key_lt k to)) [
    | inr past ↦ rw past refl
    | inl inside ↦
        rw inside
          (doom_file to bs (displace c (length k) (some e) t) ∙ displace_file (length k) (some e) t)
  ]

  apply_put_fits :
      (at_ : Option KeyDirEntry) (seq offset : ℕ) (key value : Bytes) (t : TransientEngineState c)
      → seq < 2 ^ 48
      → offset < 2 ^ 32
      → t.active_file_id < 2 ^ 20
      → length value < 2 ^ 28
      → (u : TransientEngineState c) × (apply_put c at_ seq offset key value t ≡ ok u)
        × (u.active_file_id ≡ t.active_file_id)
  unfolding apply_put narrow patch_stats
  apply_put_fits at_ seq offset key value t hs ho hf hv =
      let v = length value in
      let small : ltb v (2 ^ 32) ≡ true = lt→ltb v (2 ^ 32) (omega arith) in
      let made = make-InLimits seq offset t.active_file_id v (record {
        sequence_fits = hs;
        offset_fits = ho;
        file_id_fits = hf;
        value_size_fits = hv;
      }) in
      let e = pack seq offset t.active_file_id v in
      let noted = note_pending c offset seq key v t in
      let placed = place c at_ key e noted.key_dir in
      let sz = entry_size (length key) v in
      (
        patch_stats c t.active_file_id (record no_delta { live_added = sz; total_added = sz })
            (displace c (length key) placed.0 (record noted { key_dir = placed.1 })),
        rw small (rw made refl),
        displace_file (length key) placed.0 (record noted { key_dir = placed.1 })
            ∙ note_pending_file offset seq key v t,
      )

  apply_write_fits :
      (plan : WritePlan c) (offsets : List ℕ) (i w : ℕ) (op : WriteOp) (t : TransientEngineState c)
      → t.next_seq < 2 ^ 48
      → t.active_file_id < 2 ^ 20
      → All OffsetFits offsets
      → i < length offsets
      → ValueFits op
      → (u : TransientEngineState c) × (apply_write c plan offsets i w op t ≡ ok u)
        × (u.active_file_id ≡ t.active_file_id)
  unfolding apply_write next
  apply_write_fits plan offsets i w (point_put key value) t hs hf a h v =
      let (o, at_i, ho) = offset_below offsets i a h in
      let (u, p, same) =
        apply_put_fits (resolved_entry c plan w) t.next_seq o key value t hs ho hf v in
      (next c u, rw at_i (rw p refl), same)
  apply_write_fits plan offsets i w (point_del key) t hs hf a h v =
      let removed = remove c (resolved_entry c plan w) key t.key_dir in
      (
        _,
        refl,
        unfold apply_del patch_stats in
            displace_file (length key) removed.0 (record t { key_dir = removed.1 }),
      )
  apply_write_fits plan offsets i w (range_del from to) t hs hf a h v = (
    _,
    refl,
    unfold apply_range_del patch_stats in doom_file to (c.keys.lower_bound t.key_dir from) t,
  )

  apply_ops_fit :
      (plan : WritePlan c) (offsets : List ℕ) (i w : ℕ) (ops : List WriteOp)
      (t : TransientEngineState c)
      → t.next_seq + length ops ≤ 2 ^ 48
      → t.active_file_id < 2 ^ 20
      → All OffsetFits offsets
      → i + length ops ≤ length offsets
      → All ValueFits ops
      → (u : TransientEngineState c) × (apply_ops c plan offsets i w ops t ≡ ok u)
  unfolding apply_ops
  apply_ops_fit plan offsets i w [] t hs hf a h v = (t, refl)
  apply_ops_fit plan offsets i w (op ∷ ops) t hs hf a h v =
      let (u, p, same) =
        apply_write_fits plan offsets i w op t (omega arith) hf a (omega arith) v.0 in
      let step = (apply_write_lem c plan offsets i w op t u p).1 in
      let (r, q) =
        apply_ops_fit plan offsets (i + 1) (w + 1) ops u (omega (arith, step)) (omega (arith, same))
          a (omega arith) v.1 in
      (r, rw p q)

  batch_applied :
      (plan : WritePlan c) (offsets : List ℕ) (t u : TransientEngineState c)
      → ltb 1 (length plan.writes) ≡ true
      → apply_ops c plan offsets 1 0 plan.writes (next c (apply_marker c EntryType.bulk_begin t))
        ≡ ok u
      → apply_writes c plan offsets t
        ≡ ok (note_written c t.next_seq (next c (apply_marker c EntryType.bulk_begin u)))
  unfolding apply_writes write_count
  batch_applied plan offsets t u multi p = rw multi (rw p refl)

  one_applied :
      (plan : WritePlan c) (offsets : List ℕ) (t u : TransientEngineState c)
      → ltb 1 (length plan.writes) ≡ false
      → apply_ops c plan offsets 0 0 plan.writes t ≡ ok u
      → apply_writes c plan offsets t ≡ ok (note_written c t.next_seq u)
  unfolding apply_writes write_count
  one_applied plan offsets t u single p = rw single (rw p refl)

  begun_fits :
      (t : TransientEngineState c) (n : ℕ)
      → t.next_seq + n + 2 ≤ 2 ^ 48
      → ((next c (apply_marker c EntryType.bulk_begin t)).next_seq + n ≤ 2 ^ 48)
        × ((next c (apply_marker c EntryType.bulk_begin t)).active_file_id ≡ t.active_file_id)
  unfolding next apply_marker patch_stats
  begun_fits t n h = (omega arith, refl)

  -- For a plan whose sequences stay below 2 ^ 48, whose values are below 2 ^ 28 bytes, in an active
  -- file with an id below 2 ^ 20, with an offset below 2 ^ 32 for each of its records:
  -- `apply_writes` gives a state, and its directory is that of the writes done in order on a map.
  pub apply_writes_total :
      (plan : WritePlan c) (offsets : List ℕ) (t : TransientEngineState c)
      → t.next_seq + length plan.writes + 2 ≤ 2 ^ 48
      → t.active_file_id < 2 ^ 20
      → All OffsetFits offsets
      → length offsets
        ≡ (if ltb 1 (length plan.writes) then length plan.writes + 2 else length plan.writes)
      → All ValueFits plan.writes
      → (u : TransientEngineState c) × (apply_writes c plan offsets t ≡ ok u)
        × (view c u.key_dir
            ≡ spec_ops
                (if ltb 1 (length plan.writes) then add64 t.next_seq 1 else t.next_seq)
                plan.writes
                (view c t.key_dir))
  apply_writes_total plan offsets t hs hf a h v = elim (Bool-cases (ltb 1 (length plan.writes))) [
    | inl multi ↦
        let begun = next c (apply_marker c EntryType.bulk_begin t) in
        let n : length offsets ≡ length plan.writes + 2 = ground (arith, h, multi) in
        let (u, p) =
          apply_ops_fit plan offsets 1 0 plan.writes begun (begun_fits t (length plan.writes) hs).0
            (omega (arith, (begun_fits t (length plan.writes) hs).1)) a (omega (arith, n)) v in
        let r = note_written c t.next_seq (next c (apply_marker c EntryType.bulk_begin u)) in
        let done : apply_writes c plan offsets t ≡ ok r = batch_applied plan offsets t u multi p in
        (r, done, apply_writes-view c plan offsets t r done)
    | inr single ↦
        let n : length offsets ≡ length plan.writes = ground (arith, h, single) in
        let (u, p) =
          apply_ops_fit plan offsets 0 0 plan.writes t (omega arith) hf a (omega (arith, n)) v in
        let r = note_written c t.next_seq u in
        let done : apply_writes c plan offsets t ≡ ok r = one_applied plan offsets t u single p in
        (r, done, apply_writes-view c plan offsets t r done)
  ]
