-- ===== src/Engine/Resume.antt =====
-- `apply_resume` of bytecaskdb/engine_state.cpp, with `ResumeEntry` of bytecaskdb/internals.cppm:
-- the records that a file holds after a failure, replayed over the state that was published.
use bytecaskdb.Format.Types.{EntryType}
use bytecaskdb.KeyOrder.{Bytes, key_lt}
use bytecaskdb.KeyDirEntry.{KeyDirEntry, make, value_size, max_sequence}
use bytecaskdb.KeyDirEntry
use bytecaskdb.KeyDir.{Bindings}
use bytecaskdb.FileStats.{
  FileStats, add64, no_delta, entry_size, tombstone_size, marker_size, change_marker_size,
}
use bytecaskdb.FileStats.Policy.{file_stats_policy}
use bytecaskdb.PatchMap
use bytecaskdb.Engine.State.{Containers, TransientEngineState, patch_stats, append_marker}
use bytecaskdb.Engine.Apply.{displace, erase_all}
use bytecaskdb.Prelude.{
  ltb, leb, ◌==◌, if◌then◌else◌, length, last?, Result, ok, ◌>>=◌, ℕ, not, none, some, List, [],
  ◌∷◌,
}

pub record ResumeEntry : Type 0 where
  pub sequence : ℕ
  pub entry_type : EntryType
  pub file_offset : ℕ
  pub value_size : ℕ
  pub key : Bytes
  pub range_end : Bytes
  pub marker_id : ℕ

-- What the loop counts besides the state: `max_seq` is `seq_max`.
pub record Tally : Type 0 where
  pub seq_min : ℕ
  pub seq_max : ℕ
  pub tomb : ℕ
  pub mark : ℕ
  pub cm : ℕ

abbrev pub no_tally : Tally
no_tally = record { seq_min = 0; seq_max = 0; tomb = 0; mark = 0; cm = 0 }

unfoldable pub count_entry : ResumeEntry → Tally → Tally
count_entry e n = record {
  seq_min = if n.seq_min == 0 then e.sequence else n.seq_min;
  seq_max = if ltb n.seq_max e.sequence then e.sequence else n.seq_max;
  tomb = add64 n.tomb (tombstone_size e.entry_type (length e.key) (length e.range_end));
  mark = add64 n.mark (marker_size e.entry_type);
  cm = add64 n.cm (change_marker_size e.entry_type);
}

module _ (c : Containers) where
  unfoldable pub resume_put :
      ℕ → ResumeEntry → TransientEngineState c → Result (TransientEngineState c)
  resume_put id e t =
      let existing = c.keys.get t.key_dir e.key in
      let inc = entry_size (length e.key) e.value_size in
      let placed = make e.sequence e.file_offset id e.value_size >>= (λ entry.
        let t₁ =
          patch_stats c id (record no_delta { live_added = inc })
            (displace c (length e.key) existing t) in
        ok (record t₁ { key_dir = (c.keys.put e.key entry t₁.key_dir).1 })) in
      elim existing [
        | none ↦ placed
        | some x ↦ if ltb (KeyDirEntry.sequence x) e.sequence then placed else ok t
      ]

  unfoldable pub resume_del : ResumeEntry → TransientEngineState c → TransientEngineState c
  resume_del e t =
      let existing = c.keys.get t.key_dir e.key in
      elim existing [
        | none ↦ t
        | some x ↦
            if ltb (KeyDirEntry.sequence x) e.sequence
            then (let t₁ = displace c (length e.key) (some x) t in
                record t₁ { key_dir = (c.keys.erase e.key t₁.key_dir).1 })
            else t
      ]

  -- The keys of the range that an older record left.
  unfoldable pub suppress :
      Bytes → ℕ → Bindings → TransientEngineState c → List Bytes × TransientEngineState c
  suppress end_ seq [] t = ([], t)
  suppress end_ seq ((k, x) ∷ bs) t =
      let (kept_keys, kept) = suppress end_ seq bs t in
      let (keys, after) = suppress end_ seq bs (displace c (length k) (some x) t) in
      if not (key_lt k end_)
      then ([], t)
      else if leb seq (KeyDirEntry.sequence x)
      then (kept_keys, kept)
      else (k ∷ keys, after)

  unfoldable pub resume_range_del : ResumeEntry → TransientEngineState c → TransientEngineState c
  resume_range_del e t =
      let (keys, t₁) = suppress e.range_end e.sequence (c.keys.lower_bound t.key_dir e.key) t in
      record t₁ { key_dir = erase_all c keys t₁.key_dir }

  unfoldable pub resume_change_marker :
      ResumeEntry → TransientEngineState c → TransientEngineState c
  resume_change_marker e t =
      let added = append_marker c (record { since_sequence = e.sequence; id = e.marker_id }) t in
      elim (last? t.change_markers) [
        | none ↦ added
        | some m ↦ if ltb m.since_sequence e.sequence then added else t
      ]

  unfoldable pub resume_entry :
      ℕ → ResumeEntry → TransientEngineState c → Result (TransientEngineState c)
  resume_entry id e t = elim e.entry_type [
    | EntryType.put ↦ resume_put id e t
    | EntryType.delete ↦ ok (resume_del e t)
    | EntryType.range_del ↦ ok (resume_range_del e t)
    | EntryType.change_marker ↦ ok (resume_change_marker e t)
    | _ ↦ ok t
  ]

  unfoldable pub resume_all :
      ℕ
      → List ResumeEntry
      → Tally
      → TransientEngineState c
      → Result (Tally × TransientEngineState c)
  resume_all id [] n t = ok (n, t)
  resume_all id (e ∷ es) n t = do t₁ ← resume_entry id e t; resume_all id es (count_entry e n) t₁

  -- The file's stats, rebuilt but for its live bytes.
  rebuilt : ℕ → Tally → FileStats → FileStats
  rebuilt valid_offset n fs = record fs {
    total_bytes = valid_offset;
    min_sequence = n.seq_min;
    max_sequence = n.seq_max;
    tombstone_bytes = n.tomb;
    marker_bytes = n.mark;
    change_marker_bytes = n.cm;
  }

  unfoldable pub apply_resume :
      ℕ → List ResumeEntry → ℕ → TransientEngineState c → Result (TransientEngineState c)
  unfolding rebuilt
  apply_resume id entries valid_offset t = do
    r ← resume_all id entries no_tally t
    let n = r.0
    let t₁ = r.1
    let t₂ = if leb t₁.next_seq n.seq_max then record t₁ { next_seq = add64 n.seq_max 1 } else t₁
    let set_stats = λ (fs : FileStats).
        PatchMap.set file_stats_policy c.stats id (rebuilt valid_offset n fs) t₂.file_stats
    ok (elim (PatchMap.get_transient file_stats_policy c.stats t₂.file_stats id) [
      | none ↦ t₂
      | some fs ↦ record t₂ { file_stats = set_stats fs }
    ])
