-- ===== src/Engine/Apply/Follow.antt =====
-- A follower that ingests a leader's records reaches the state of the leader.
use bytecaskdb.Format.Types.{EntryType}
use bytecaskdb.Format.Entry.{DataEntry}
use bytecaskdb.FileStats.{add64}
use bytecaskdb.KeyOrder.{Bytes}
use bytecaskdb.KeyDirEntry.{KeyDirEntry, make}
use bytecaskdb.Format.Bytes.{narrow}
use bytecaskdb.KeyDirEntry.{make, KeyDirEntry}
use bytecaskdb.Engine.State.{
  append_marker, patch_stats, note_pending, Containers, TransientEngineState,
}
use bytecaskdb.Engine.Plan.{WriteOp, point_put, point_del, range_del, WritePlan, resolved_entry}
use bytecaskdb.Engine.Apply.{
  apply_del, apply_put, apply_write, ingest_entry, next, offset_at, op_entries, apply_ops,
  ingest_all, apply_marker, highest,
}
use bytecaskdb.Engine.Apply.Sequence.{
  with_seq, apply_del-with_seq, apply_put-with_seq, apply_range_del-with_seq, place_lem, remove_lem,
}
use bytecaskdb.Prelude.{
  ltb, if◌then◌else◌, lt→ltb, length, ok, ◌>>=◌, >>=-eq-ok, Result-cases, ok-injective, ℕ, zero,
  suc, ◌+◌, ◌^◌, ◌≤◌, ◌<◌, ◌≡◌, refl, sym, ap, ◌∙◌, inl, inr, true, Option, none, List, [], ◌∷◌,
  ◌++◌, arith,
}

pub offset_at_total :
    (offsets : List ℕ) (i : ℕ) → i < length offsets → (o : ℕ) × (offset_at offsets i ≡ ok o)
unfolding offset_at
offset_at_total [] i h = absurd (omega arith)
offset_at_total (x ∷ xs) zero h = (x, refl)
offset_at_total (x ∷ xs) (suc i) h = offset_at_total xs i (omega arith)

-- The records of `n` writes have the `n` sequences from the first one on.
pub op_entries-length : (seq : ℕ) (ops : List WriteOp) → length (op_entries seq ops).0 ≡ length ops
unfolding op_entries
op_entries-length seq [] = refl
op_entries-length seq (point_put key value ∷ ops) = ap suc (op_entries-length (add64 seq 1) ops)
op_entries-length seq (point_del key ∷ ops) = ap suc (op_entries-length (add64 seq 1) ops)
op_entries-length seq (range_del from to ∷ ops) = ap suc (op_entries-length (add64 seq 1) ops)

pub op_entries_after :
    (seq : ℕ) (ops : List WriteOp)
    → seq + length ops < 2 ^ 64
    → (op_entries seq ops).1 ≡ seq + length ops
unfolding op_entries
op_entries_after seq [] h = omega arith
op_entries_after seq (point_put key value ∷ ops) h =
    let step : add64 seq 1 ≡ seq + 1 = omega arith in
    rw step (op_entries_after (seq + 1) ops (omega arith) ∙ omega arith)
op_entries_after seq (point_del key ∷ ops) h =
    let step : add64 seq 1 ≡ seq + 1 = omega arith in
    rw step (op_entries_after (seq + 1) ops (omega arith) ∙ omega arith)
op_entries_after seq (range_del from to ∷ ops) h =
    let step : add64 seq 1 ≡ seq + 1 = omega arith in
    rw step (op_entries_after (seq + 1) ops (omega arith) ∙ omega arith)

pub highest-append :
    (m : ℕ) (xs ys : List DataEntry) → highest m (xs ++ ys) ≡ highest (highest m xs) ys
unfolding highest
highest-append m [] ys = refl
highest-append m (x ∷ xs) ys = highest-append (if ltb m x.sequence then x.sequence else m) xs ys

-- The highest sequence after `m` of records that go on from `m`.
pub highest-op_entries :
    (m : ℕ) (ops : List WriteOp)
    → m + 1 + length ops < 2 ^ 64
    → highest m (op_entries (m + 1) ops).0 ≡ m + length ops
unfolding highest op_entries
highest-op_entries m [] h = omega arith
highest-op_entries m (point_put key value ∷ ops) h =
    let step : add64 (m + 1) 1 ≡ m + 1 + 1 = omega arith in
    let up : ltb m (m + 1) ≡ true = lt→ltb m (m + 1) (omega arith) in
    rw step (rw up (highest-op_entries (m + 1) ops (omega arith) ∙ omega arith))
highest-op_entries m (point_del key ∷ ops) h =
    let step : add64 (m + 1) 1 ≡ m + 1 + 1 = omega arith in
    let up : ltb m (m + 1) ≡ true = lt→ltb m (m + 1) (omega arith) in
    rw step (rw up (highest-op_entries (m + 1) ops (omega arith) ∙ omega arith))
highest-op_entries m (range_del from to ∷ ops) h =
    let step : add64 (m + 1) 1 ≡ m + 1 + 1 = omega arith in
    let up : ltb m (m + 1) ≡ true = lt→ltb m (m + 1) (omega arith) in
    rw step (rw up (highest-op_entries (m + 1) ops (omega arith) ∙ omega arith))

module _ (c : Containers) where
  pub apply_put_lem :
      (at_ : Option KeyDirEntry) (seq offset : ℕ) (key value : Bytes) (t : TransientEngineState c)
      → apply_put c at_ seq offset key value t ≡ apply_put c none seq offset key value t
  unfolding apply_put
  apply_put_lem at_ seq offset key value t = elim (Result-cases (narrow 32 (length value))) [
    | inr (x, p) ↦ rw p refl
    | inl (v, p) ↦ rw p (elim (Result-cases (make seq offset t.active_file_id v)) [
      | inr (x, q) ↦ rw q refl
      | inl (e, q) ↦
          let tree = (note_pending c offset seq key v t).key_dir in
          rw q (rw (place_lem c at_ key e tree) (rw (place_lem c none key e tree) refl))
    ])
  ]

  pub apply_del_lem :
      (at_ : Option KeyDirEntry) (key : Bytes) (t : TransientEngineState c)
      → apply_del c at_ key t ≡ apply_del c none key t
  unfolding apply_del
  apply_del_lem at_ key t =
      rw (remove_lem c at_ key t.key_dir) (rw (remove_lem c none key t.key_dir) refl)

  -- One write of the leader is its record ingested, and the counter advanced.
  write_is_ingest :
      (plan : WritePlan c) (offsets : List ℕ) (i w s : ℕ) (op : WriteOp)
      (t : TransientEngineState c) (o : ℕ)
      → offset_at offsets i ≡ ok o
      → (e : DataEntry) × ((ops : List WriteOp)
          → op_entries s (op ∷ ops)
            ≡ (e ∷ (op_entries (add64 s 1) ops).0, (op_entries (add64 s 1) ops).1))
        × (apply_write c plan offsets i w op (with_seq c s t)
            ≡ ingest_entry c e o t >>= λ u. ok (with_seq c (add64 s 1) u))
  unfolding op_entries apply_write ingest_entry next
  write_is_ingest plan offsets i w s (point_put key value) t o h = (
    _,
    λ ops. refl,
    rw h (
        rw (apply_put_lem (resolved_entry c plan w) s o key value (with_seq c s t)) (
          rw (apply_put-with_seq c s s o key value t)
            (elim (Result-cases (apply_put c none s o key value t)) [
              | inr (x, q) ↦ rw q refl
              | inl (u, q) ↦ rw q refl
            ]))),
  )
  write_is_ingest plan offsets i w s (point_del key) t o h = (
    _,
    λ ops. refl,
    rw (apply_del_lem (resolved_entry c plan w) key (with_seq c s t))
        (rw (apply_del-with_seq c s key t) refl),
  )
  write_is_ingest plan offsets i w s (range_del from to) t o h =
      (_, λ ops. refl, rw (apply_range_del-with_seq c s from to t) refl)

  pub apply_ops_lem :
      (plan : WritePlan c) (offsets : List ℕ) (i w s : ℕ) (ops : List WriteOp)
      (t : TransientEngineState c)
      → i + length ops ≤ length offsets
      → apply_ops c plan offsets i w ops (with_seq c s t)
        ≡ ingest_all c (op_entries s ops).0 offsets i t >>= λ u.
            ok (with_seq c (op_entries s ops).1 u)
  unfolding apply_ops ingest_all op_entries
  apply_ops_lem plan offsets i w s [] t h = refl
  apply_ops_lem plan offsets i w s (op ∷ ops) t h =
      let (o, at_i) = offset_at_total offsets i (omega arith) in
      let (e, shape, step) = write_is_ingest plan offsets i w s op t o at_i in
      rw (shape ops) (
        rw step (
          rw at_i (elim (Result-cases (ingest_entry c e o t)) [
            | inr (x, q) ↦ rw q refl
            | inl (u, q) ↦
                rw q (apply_ops_lem plan offsets (i + 1) (w + 1) (add64 s 1) ops u (omega arith))
          ])))

  pub ingest_all-append :
      (xs ys : List DataEntry) (offsets : List ℕ) (i : ℕ) (t : TransientEngineState c)
      → ingest_all c (xs ++ ys) offsets i t
        ≡ ingest_all c xs offsets i t >>= λ u. ingest_all c ys offsets (i + length xs) u
  unfolding ingest_all
  ingest_all-append [] ys offsets i t =
      let same : i ≡ i + 0 = omega arith in ap (λ j. ingest_all c ys offsets j t) same
  ingest_all-append (x ∷ xs) ys offsets i t = elim (Result-cases (offset_at offsets i)) [
    | inr (e, p) ↦ rw p refl
    | inl (o, p) ↦ rw p (elim (Result-cases (ingest_entry c x o t)) [
      | inr (e, q) ↦ rw q refl
      | inl (u, q) ↦ rw q (
          ingest_all-append xs ys offsets (i + 1) u
          ∙ ap (λ j. ingest_all c xs offsets (i + 1) u >>= λ v. ingest_all c ys offsets j v)
              (omega arith))
    ])
  ]

  -- Ingesting a record leaves the counter alone.
  pub ingest_entry-next_seq :
      (type : EntryType) (seq : ℕ) (key value : Bytes) (o : ℕ) (t u : TransientEngineState c)
      → ingest_entry c (record { sequence = seq; entry_type = type; key = key; value = value }) o t
        ≡ ok u
      → u.next_seq ≡ t.next_seq
  unfolding ingest_entry apply_marker append_marker patch_stats
  ingest_entry-next_seq EntryType.put seq key value o t u h =
      let kept : ok u ≡ ok (with_seq c t.next_seq u) =
        sym h
        ∙ apply_put-with_seq c t.next_seq seq o key value t
        ∙ ap (λ r. r >>= λ v. ok (with_seq c t.next_seq v)) h in
      ap (λ v. v.next_seq) (ok-injective kept)
  ingest_entry-next_seq EntryType.delete seq key value o t u h =
      ap (λ v. v.next_seq) (sym (ok-injective h) ∙ apply_del-with_seq c t.next_seq key t)
  ingest_entry-next_seq EntryType.range_del seq key value o t u h =
      ap (λ v. v.next_seq)
        (sym (ok-injective h) ∙ apply_range_del-with_seq c t.next_seq key value t)
  ingest_entry-next_seq EntryType.bulk_begin seq key value o t u h =
      ap (λ v. v.next_seq) (sym (ok-injective h))
  ingest_entry-next_seq EntryType.bulk_end seq key value o t u h =
      ap (λ v. v.next_seq) (sym (ok-injective h))
  ingest_entry-next_seq EntryType.change_marker seq key value o t u h =
      ap (λ v. v.next_seq) (sym (ok-injective h))
  ingest_entry-next_seq (EntryType.unknown b) seq key value o t u h =
      ap (λ v. v.next_seq) (sym (ok-injective h))

  pub ingest_all-next_seq :
      (es : List DataEntry) (offsets : List ℕ) (i : ℕ) (t u : TransientEngineState c)
      → ingest_all c es offsets i t ≡ ok u
      → u.next_seq ≡ t.next_seq
  unfolding ingest_all
  ingest_all-next_seq [] offsets i t u h = ap (λ v. v.next_seq) (sym (ok-injective h))
  ingest_all-next_seq (e ∷ es) offsets i t u h =
      let (o, p, h₁) = >>=-eq-ok (offset_at offsets i) _ h in
      let (v, q, h₂) = >>=-eq-ok (ingest_entry c e o t) _ h₁ in
      ingest_all-next_seq es offsets (i + 1) v u h₂
      ∙ ingest_entry-next_seq e.entry_type e.sequence e.key e.value o t v q
