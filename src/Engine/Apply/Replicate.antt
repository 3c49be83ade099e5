-- ===== src/Engine/Apply/Replicate.antt =====
-- A follower that ingests the records of a leader's write reaches the leader's state.
use bytecaskdb.Format.Types.{EntryType}
use bytecaskdb.Format.Entry.{DataEntry}
use bytecaskdb.FileStats.{marker_size, add64, sub64}
use bytecaskdb.Engine.State.{Containers, TransientEngineState, patch_stats}
use bytecaskdb.Engine.Plan.{WritePlan, write_count, WriteOp, point_del, point_put, range_del}
use bytecaskdb.Engine.Apply.{
  apply_ingest, apply_marker, apply_writes, bulk_marker, highest, ingest_all, ingest_entry,
  note_range, note_written, op_entries, prepare_write, next, apply_ops,
}
use bytecaskdb.Engine.Apply.Sequence.{with_seq}
use bytecaskdb.Engine.Apply.Follow.{
  highest-op_entries, offset_at_total, op_entries-length, op_entries_after, apply_ops_lem,
  highest-append, ingest_all-append, ingest_all-next_seq,
}
use bytecaskdb.Prelude.{
  ltb, leb, ◌==◌, if◌then◌else◌, lt→ltb, Bool-cases, length, length-append, ok, ◌>>=◌, Result-cases,
  ℕ, suc, ◌+◌, ◌^◌, ◌≤◌, ◌<◌, ◌≡◌, refl, sym, ap, ◌∙◌, inl, inr, true, false, List, [], ◌∷◌, ◌++◌,
  arith,
}

single_entry :
    (m : ℕ) (ops : List WriteOp)
    → length ops ≡ 1
    → (e : DataEntry) × (e.sequence ≡ m) × (op_entries m ops ≡ (e ∷ [], add64 m 1))
unfolding op_entries
single_entry m [] h = absurd (omega arith)
single_entry m (point_put key value ∷ []) h = (_, refl, refl)
single_entry m (point_del key ∷ []) h = (_, refl, refl)
single_entry m (range_del from to ∷ []) h = (_, refl, refl)
single_entry m (op ∷ op' ∷ ops) h = absurd (omega arith)

module _ (c : Containers) where
  same_marker :
      (u : TransientEngineState c)
      → apply_marker c EntryType.bulk_end u ≡ apply_marker c EntryType.bulk_begin u
  unfolding apply_marker marker_size
  same_marker u = refl

  marker_next_seq :
      (u : TransientEngineState c) → (apply_marker c EntryType.bulk_begin u).next_seq ≡ u.next_seq
  unfolding apply_marker patch_stats
  marker_next_seq u = refl

  module _ (plan : WritePlan c) (offsets : List ℕ) (t : TransientEngineState c) where
    batch_highest :
        t.next_seq + length plan.writes + 2 < 2 ^ 64
        → highest 0 (
            bulk_marker t.next_seq EntryType.bulk_begin
              ∷ (op_entries (t.next_seq + 1) plan.writes).0
            ++ bulk_marker (op_entries (t.next_seq + 1) plan.writes).1 EntryType.bulk_end ∷ [])
          ≡ t.next_seq + 1 + length plan.writes
    unfolding highest
    batch_highest h =
        let m = t.next_seq in
        let entries = (op_entries (m + 1) plan.writes).0 in
        let last = (op_entries (m + 1) plan.writes).1 in
        let first : (if ltb 0 m then m else 0) ≡ m = ground arith in
        let is_last : last ≡ m + 1 + length plan.writes =
          op_entries_after (m + 1) plan.writes (omega arith) in
        let up : ltb (m + length plan.writes) last ≡ true =
          lt→ltb (m + length plan.writes) last (omega (arith, is_last)) in
        let end_ = bulk_marker last EntryType.bulk_end ∷ [] in
        ap (λ x. highest x (entries ++ end_)) first
        ∙ highest-append m entries end_
        ∙ ap (λ x. highest x end_) (highest-op_entries m plan.writes (omega arith))
        ∙ ap (λ b. if b then last else m + length plan.writes) up
        ∙ is_last

    -- The counter and the file's range after the batch, on both sides.
    finish_batch :
        (u : TransientEngineState c) (last : ℕ)
        → u.next_seq ≡ t.next_seq
        → t.next_seq ≤ last
        → last + 1 < 2 ^ 64
        → note_range c t.next_seq last
            (if leb u.next_seq last then record u { next_seq = add64 last 1 } else u)
          ≡ note_written c t.next_seq (with_seq c (add64 last 1) u)
    unfolding note_written note_range patch_stats
    finish_batch u last kept le h =
        let below : leb u.next_seq last ≡ true = ground (arith, kept, le) in
        let back : sub64 (add64 last 1) 1 ≡ last = omega arith in rw below (rw back refl)

    prepared_batch :
        ltb 1 (length plan.writes) ≡ true
        → t.next_seq + length plan.writes + 2 < 2 ^ 64
        → prepare_write c t plan
          ≡ bulk_marker t.next_seq EntryType.bulk_begin
              ∷ (op_entries (t.next_seq + 1) plan.writes).0
            ++ bulk_marker (op_entries (t.next_seq + 1) plan.writes).1 EntryType.bulk_end ∷ []
    unfolding prepare_write write_count
    prepared_batch multi h =
        let step : add64 t.next_seq 1 ≡ t.next_seq + 1 = omega arith in
        let some_writes : (length plan.writes == 0) ≡ false = ground arith in
        rw some_writes (rw multi (rw step refl))

    -- The leader's batch, by its records.
    written_batch :
        ltb 1 (length plan.writes) ≡ true
        → t.next_seq + length plan.writes + 2 < 2 ^ 64
        → length offsets ≡ length plan.writes + 2
        → apply_writes c plan offsets t
          ≡ ingest_all c
              (op_entries (t.next_seq + 1) plan.writes).0
              offsets
              1
              (apply_marker c EntryType.bulk_begin t)
            >>= λ u. ok (
                note_written c t.next_seq (
                  with_seq c
                    (add64 (op_entries (t.next_seq + 1) plan.writes).1 1)
                    (apply_marker c EntryType.bulk_begin u)))
    unfolding apply_writes write_count next apply_marker patch_stats
    written_batch multi h l =
        let m = t.next_seq in
        let begun = apply_marker c EntryType.bulk_begin t in
        let step : add64 m 1 ≡ m + 1 = omega arith in
        rw multi (
          rw step (
            rw (apply_ops_lem c plan offsets 1 0 (m + 1) plan.writes begun (omega arith))
              (elim (Result-cases
                (ingest_all c (op_entries (m + 1) plan.writes).0 offsets 1 begun)) [
                  | inr (x, q) ↦ rw q refl
                  | inl (u, q) ↦ rw q refl
                ])))

    ingested_batch :
        ltb 1 (length plan.writes) ≡ true
        → t.next_seq + length plan.writes + 2 < 2 ^ 64
        → length offsets ≡ length plan.writes + 2
        → apply_ingest c (prepare_write c t plan) offsets t
          ≡ ingest_all c
              (op_entries (t.next_seq + 1) plan.writes).0
              offsets
              1
              (apply_marker c EntryType.bulk_begin t)
            >>= λ u. ok (
                note_written c t.next_seq (
                  with_seq c
                    (add64 (op_entries (t.next_seq + 1) plan.writes).1 1)
                    (apply_marker c EntryType.bulk_begin u)))
    unfolding apply_ingest ingest_all ingest_entry
    ingested_batch multi h l =
        let m = t.next_seq in
        let begun = apply_marker c EntryType.bulk_begin t in
        let es = (op_entries (m + 1) plan.writes).0 in
        let last = (op_entries (m + 1) plan.writes).1 in
        let end_ = bulk_marker last EntryType.bulk_end in
        let (o, at_0) = offset_at_total offsets 0 (omega arith) in
        let (o', at_end) =
          offset_at_total offsets (1 + length es)
            (omega (arith, op_entries-length (m + 1) plan.writes)) in
        let is_last = op_entries_after (m + 1) plan.writes (omega arith) in
        let top = batch_highest h ∙ sym is_last in
        rw (prepared_batch multi h) (
          rw at_0 (
            rw (ingest_all-append c es (end_ ∷ []) offsets 1 begun)
              (elim (Result-cases (ingest_all c es offsets 1 begun)) [
                | inr (x, q) ↦ rw q refl
                | inl (u, q) ↦
                    let kept =
                      marker_next_seq u
                      ∙ ingest_all-next_seq c es offsets 1 begun u q
                      ∙ marker_next_seq t in
                    rw q (
                      rw at_end (
                        rw top (
                          rw (same_marker u) (
                            ap ok (
                              finish_batch (apply_marker c EntryType.bulk_begin u) last kept
                                (omega (arith, is_last)) (omega (arith, is_last)))))))
              ])))

    -- One write goes without markers.
    prepared_one :
        length plan.writes ≡ 1 → prepare_write c t plan ≡ (op_entries t.next_seq plan.writes).0
    unfolding prepare_write write_count
    prepared_one one = rw one refl

    written_one :
        length plan.writes ≡ 1
        → apply_writes c plan offsets t
          ≡ apply_ops c plan offsets 0 0 plan.writes t >>= λ u. ok (note_written c t.next_seq u)
    unfolding apply_writes write_count
    written_one one = rw one refl

    replicate_one :
        length plan.writes ≡ 1
        → t.next_seq + 1 < 2 ^ 64
        → length offsets ≡ 1
        → apply_ingest c (prepare_write c t plan) offsets t ≡ apply_writes c plan offsets t
    unfolding apply_ingest highest
    replicate_one one h l =
        let m = t.next_seq in
        let (e, at_m, shape) = single_entry m plan.writes one in
        let by_ingest = apply_ops_lem c plan offsets 0 0 m plan.writes t (omega (arith, one)) in
        let ops : apply_ops c plan offsets 0 0 plan.writes t
            ≡ ingest_all c (e ∷ []) offsets 0 t >>= λ u. ok (with_seq c (add64 m 1) u) =
          rw shape at by_ingest in
        let top : (if ltb 0 e.sequence then e.sequence else 0) ≡ m = ground arith in
        rw (prepared_one one) (
          rw (written_one one) (
            rw shape (
              rw ops (elim (Result-cases (ingest_all c (e ∷ []) offsets 0 t)) [
                | inr (x, q) ↦ rw q refl
                | inl (u, q) ↦ rw q (
                    rw top (
                      rw at_m (
                        ap ok (
                          finish_batch u m (ingest_all-next_seq c (e ∷ []) offsets 0 t u q)
                            (omega arith) h))))
              ]))))

    -- For a plan of one write or more whose sequences stay below 2 ^ 64, and offsets for each of
    -- its records: a state that ingests the records made from it equals the state that applies the
    -- plan, or fails as that does, although the leader writes by location where it can.
    pub apply_ingest-prepare_write :
        1 ≤ length plan.writes
        → t.next_seq + length plan.writes + 2 < 2 ^ 64
        → length offsets ≡ length (prepare_write c t plan)
        → apply_ingest c (prepare_write c t plan) offsets t ≡ apply_writes c plan offsets t
    apply_ingest-prepare_write n h l = elim (Bool-cases (ltb 1 (length plan.writes))) [
      | inl multi ↦
          let size : length (prepare_write c t plan) ≡ length plan.writes + 2 =
            ap length (prepared_batch multi h)
            ∙ ap suc (
                length-append (op_entries (t.next_seq + 1) plan.writes).0
                  (bulk_marker (op_entries (t.next_seq + 1) plan.writes).1 EntryType.bulk_end ∷ []))
            ∙ omega (arith, op_entries-length (t.next_seq + 1) plan.writes) in
          ingested_batch multi h (l ∙ size) ∙ sym (written_batch multi h (l ∙ size))
      | inr single ↦
          let one : length plan.writes ≡ 1 = ground arith in
          let size =
            ap length (prepared_one one) ∙ op_entries-length t.next_seq plan.writes ∙ one in
          replicate_one one (omega arith) (l ∙ size)
    ]
