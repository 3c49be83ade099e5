-- ===== src/Engine/Apply.antt =====
-- `prepare_write`, `apply_writes` and `apply_ingest` of bytecaskdb/engine_state.cpp: the records that
-- a plan becomes, and what they do to the state of the leader that wrote them and of a follower
-- that receives them. `offsets` is where the writer placed the records; reading past it is `out_of_range`.
pub mod Sequence
pub mod Follow
pub mod Replicate
pub mod Keys
pub mod Refine
pub mod Total
use bytecaskdb.Format.Types.{EntryType, ChangeMarker, decode_marker_id}
use bytecaskdb.Format.Bytes.{narrow, put}
use bytecaskdb.Format.Entry.{DataEntry}
use bytecaskdb.KeyOrder.{Bytes, key_lt}
use bytecaskdb.KeyDirEntry.{KeyDirEntry, make, file_id, value_size, sequence, max_sequence}
use bytecaskdb.KeyDir.{Bindings}
use bytecaskdb.FileStats.{add64, no_delta, entry_size, marker_size, change_marker_size, sub64}
use bytecaskdb.Engine.State.{
  Containers, TransientEngineState, patch_stats, note_pending, append_marker,
}
use bytecaskdb.Engine.Plan.{
  WriteOp, point_put, point_del, range_del, WritePlan, write_count, resolved_entry,
}
use bytecaskdb.Prelude.{
  ltb, leb, ◌==◌, if◌then◌else◌, length, get_elem?, out_of_range, Result, ok, err, ◌>>=◌, ℕ, ◌+◌,
  not, Option, none, some, List, [], ◌∷◌, ◌++◌,
}

-- The records of the writes themselves, and the sequence after them.
unfoldable pub op_entries : ℕ → List WriteOp → List DataEntry × ℕ
op_entries seq [] = ([], seq)
op_entries seq (point_put key value ∷ ws) =
    let (rest, after) = op_entries (add64 seq 1) ws in
    (record { sequence = seq; entry_type = EntryType.put; key = key; value = value } ∷ rest, after)
op_entries seq (point_del key ∷ ws) =
    let (rest, after) = op_entries (add64 seq 1) ws in
    (record { sequence = seq; entry_type = EntryType.delete; key = key; value = [] } ∷ rest, after)
op_entries seq (range_del from to ∷ ws) =
    let (rest, after) = op_entries (add64 seq 1) ws in
    (
      record { sequence = seq; entry_type = EntryType.range_del; key = from; value = to } ∷ rest,
      after,
    )

-- `BulkBegin` or `BulkEnd`
abbrev pub bulk_marker : ℕ → EntryType → DataEntry
bulk_marker seq type = record { sequence = seq; entry_type = type; key = []; value = [] }

-- `offsets[i]`
unfoldable pub offset_at : List ℕ → ℕ → Result ℕ
offset_at offsets i = elim (get_elem? offsets i) [ none ↦ err out_of_range | some o ↦ ok o ]

-- `max_seq`
unfoldable pub highest : ℕ → List DataEntry → ℕ
highest m [] = m
highest m (e ∷ es) = highest (if ltb m e.sequence then e.sequence else m) es

module _ (c : Containers) where
  unfoldable pub prepare_write : TransientEngineState c → WritePlan c → List DataEntry
  prepare_write t plan =
      let multi = ltb 1 (write_count c plan) in
      let seq = t.next_seq in
      let (entries, last) = op_entries (add64 seq 1) plan.writes in
      if write_count c plan == 0
      then []
      else if multi
      then bulk_marker seq EntryType.bulk_begin ∷ entries
        ++ bulk_marker last EntryType.bulk_end ∷ []
      else (op_entries seq plan.writes).0

  -- The entry that a write displaced leaves the live bytes of its file.
  unfoldable pub displace : ℕ → Option KeyDirEntry → TransientEngineState c → TransientEngineState c
  displace key_size none t = t
  displace key_size (some e) t =
      patch_stats c (file_id e)
        (record no_delta { live_removed = entry_size key_size (value_size e) }) t

  -- `kd_put_at` where the location is known and the key is still there, else `kd_put`
  unfoldable pub place :
      Option KeyDirEntry → Bytes → KeyDirEntry → c.keys.Tree → Option KeyDirEntry × c.keys.Tree
  place none key e tree = c.keys.put key e tree
  place (some at_) key e tree = elim (c.keys.put_at key at_ e tree) [
    | some tree' ↦ (some at_, tree')
    | none ↦ c.keys.put key e tree
  ]

  unfoldable pub remove :
      Option KeyDirEntry → Bytes → c.keys.Tree → Option KeyDirEntry × c.keys.Tree
  remove none key tree = c.keys.erase key tree
  remove (some at_) key tree = elim (c.keys.erase_at key at_ tree) [
    | some tree' ↦ (some at_, tree')
    | none ↦ c.keys.erase key tree
  ]

  unfoldable pub apply_put :
      Option KeyDirEntry
      → ℕ
      → ℕ
      → Bytes
      → Bytes
      → TransientEngineState c
      → Result (TransientEngineState c)
  apply_put at_ seq offset key value t = do
    val_size ← narrow 32 (length value)
    let noted = note_pending c offset seq key val_size t
    entry ← make seq offset t.active_file_id val_size
    let placed = place at_ key entry noted.key_dir
    let sz = entry_size (length key) val_size
    ok (
        patch_stats c t.active_file_id (record no_delta { live_added = sz; total_added = sz })
          (displace (length key) placed.0 (record noted { key_dir = placed.1 })))

  unfoldable pub apply_del :
      Option KeyDirEntry → Bytes → TransientEngineState c → TransientEngineState c
  apply_del at_ key t =
      let removed = remove at_ key t.key_dir in
      let sz = entry_size (length key) 0 in
      patch_stats c t.active_file_id (record no_delta { total_added = sz; tombstone_added = sz })
        (displace (length key) removed.0 (record t { key_dir = removed.1 }))

  -- The loop over [from, to): the keys to erase, and their files' live bytes.
  unfoldable pub doom :
      Bytes → Bindings → TransientEngineState c → List Bytes × TransientEngineState c
  doom to [] t = ([], t)
  doom to ((key, e) ∷ bs) t =
      let (keys, after) = doom to bs (displace (length key) (some e) t) in
      if not (key_lt key to) then ([], t) else (key ∷ keys, after)

  unfoldable pub erase_all : List Bytes → c.keys.Tree → c.keys.Tree
  erase_all [] tree = tree
  erase_all (key ∷ keys) tree = erase_all keys (c.keys.erase key tree).1

  unfoldable pub apply_range_del : Bytes → Bytes → TransientEngineState c → TransientEngineState c
  apply_range_del from to t =
      let (keys, t₁) = doom to (c.keys.lower_bound t.key_dir from) t in
      let sz = entry_size (length from) (length to) in
      patch_stats c t.active_file_id (record no_delta { total_added = sz; tombstone_added = sz })
        (record t₁ { key_dir = erase_all keys t₁.key_dir })

  unfoldable pub apply_marker : EntryType → TransientEngineState c → TransientEngineState c
  apply_marker type t =
      let m = marker_size type in
      patch_stats c t.active_file_id (record no_delta { total_added = m; marker_added = m }) t

  -- `++next_seq_`
  unfoldable pub next : TransientEngineState c → TransientEngineState c
  next t = record t { next_seq = add64 t.next_seq 1 }

  -- One write of the leader; `i` is `io_idx` and `w` is `w_idx`.
  unfoldable pub apply_write :
      WritePlan c
      → List ℕ
      → ℕ
      → ℕ
      → WriteOp
      → TransientEngineState c
      → Result (TransientEngineState c)
  apply_write plan offsets i w (point_put key value) t = do
    offset ← offset_at offsets i
    t₁ ← apply_put (resolved_entry c plan w) t.next_seq offset key value t
    ok (next t₁)
  apply_write plan offsets i w (point_del key) t =
      ok (next (apply_del (resolved_entry c plan w) key t))
  apply_write plan offsets i w (range_del from to) t = ok (next (apply_range_del from to t))

  unfoldable pub apply_ops :
      WritePlan c
      → List ℕ
      → ℕ
      → ℕ
      → List WriteOp
      → TransientEngineState c
      → Result (TransientEngineState c)
  apply_ops plan offsets i w [] t = ok t
  apply_ops plan offsets i w (op ∷ ops) t = do
    t₁ ← apply_write plan offsets i w op t
    apply_ops plan offsets (i + 1) (w + 1) ops t₁

  -- `{.min_sequence = lo, .max_sequence = hi}`, patched into the active file's stats
  unfoldable pub note_range : ℕ → ℕ → TransientEngineState c → TransientEngineState c
  note_range lo hi t =
      patch_stats c t.active_file_id (record no_delta { min_sequence = lo; max_sequence = hi }) t

  unfoldable pub note_written : ℕ → TransientEngineState c → TransientEngineState c
  note_written start t = note_range start (sub64 t.next_seq 1) t

  unfoldable pub apply_writes :
      WritePlan c → List ℕ → TransientEngineState c → Result (TransientEngineState c)
  apply_writes plan offsets t =
      let start = t.next_seq in
      let begun = next (apply_marker EntryType.bulk_begin t) in
      if ltb 1 (write_count c plan)
      then apply_ops plan offsets 1 0 plan.writes begun
        >>= (λ t₁. ok (note_written start (next (apply_marker EntryType.bulk_begin t₁))))
      else apply_ops plan offsets 0 0 plan.writes t >>= λ t₁. ok (note_written start t₁)

  -- One record of a follower.
  unfoldable pub ingest_entry :
      DataEntry → ℕ → TransientEngineState c → Result (TransientEngineState c)
  ingest_entry e offset t = elim e.entry_type [
    | EntryType.bulk_begin ↦ ok (apply_marker e.entry_type t)
    | EntryType.bulk_end ↦ ok (apply_marker e.entry_type t)
    | EntryType.change_marker ↦
        let m = change_marker_size e.entry_type in
        ok (
          append_marker c (record { since_sequence = e.sequence; id = decode_marker_id e.value })
            (patch_stats c t.active_file_id
              (record no_delta { total_added = m; change_marker_added = m }) t))
    | EntryType.put ↦ apply_put none e.sequence offset e.key e.value t
    | EntryType.delete ↦ ok (apply_del none e.key t)
    | EntryType.range_del ↦ ok (apply_range_del e.key e.value t)
    | EntryType.unknown _ ↦ ok t
  ]

  unfoldable pub ingest_all :
      List DataEntry → List ℕ → ℕ → TransientEngineState c → Result (TransientEngineState c)
  ingest_all [] offsets i t = ok t
  ingest_all (e ∷ es) offsets i t = do
    offset ← offset_at offsets i
    t₁ ← ingest_entry e offset t
    ingest_all es offsets (i + 1) t₁

  unfoldable pub apply_ingest :
      List DataEntry → List ℕ → TransientEngineState c → Result (TransientEngineState c)
  apply_ingest [] offsets t = ok t
  apply_ingest (e ∷ es) offsets t = do
    t₁ ← ingest_all (e ∷ es) offsets 0 t
    let top = highest 0 (e ∷ es)
    let t₂ = if leb t₁.next_seq top then record t₁ { next_seq = add64 top 1 } else t₁
    ok (note_range e.sequence top t₂)
