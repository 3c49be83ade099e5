-- ===== src/Engine/Plan.antt =====
-- `WritePlan`: a batch of writes, its guards, and the snapshot that they refer to.
pub mod Build
use bytecaskdb.KeyOrder.{Bytes}
use bytecaskdb.KeyDirEntry.{KeyDirEntry}
use bytecaskdb.FileStats.{entry_size}
use bytecaskdb.Format.Entry.{header_size, crc_size}
use bytecaskdb.Engine.State.{Containers, EngineState}
use bytecaskdb.Prelude.{
  ltb, if◌then◌else◌, length, get_elem?, ℕ, ◌+◌, ◌*◌, Option, none, some, List, [], ◌∷◌, map,
}

pub data Precondition : Type 0 where
  no_condition must_exist must_be_absent must_be_unchanged : Precondition

pub data WriteOp : Type 0 where
  point_put : Bytes → Bytes → WriteOp
  point_del : Bytes → WriteOp
  range_del : Bytes → Bytes → WriteOp

pub record RangeGuard : Type 0 where
  pub from : Bytes
  pub to : Bytes

pub record SizeLimits : Type 0 where
  pub max_key_bytes : ℕ
  pub max_value_bytes : ℕ

module _ (c : Containers) where
  -- `guards` is a `std::map`, in key order; `snap_entries` is parallel to `writes` or empty.
  pub record WritePlan : Type 0 where
    pub snap : Option (EngineState c)
    pub limits : SizeLimits
    pub writes : List WriteOp
    pub guards : List (Bytes × Precondition)
    pub range_guards : List RangeGuard
    pub snap_entries : List (Option KeyDirEntry)

  unfoldable pub write_count : WritePlan → ℕ
  write_count plan = length plan.writes

  op_bytes : WriteOp → ℕ
  op_bytes (point_put key value) = entry_size (length key) (length value)
  op_bytes (point_del key) = entry_size (length key) 0
  op_bytes (range_del from to) = entry_size (length from) (length to)

  ops_bytes : List WriteOp → ℕ
  unfolding op_bytes
  ops_bytes [] = 0
  ops_bytes (w ∷ ws) = op_bytes w + ops_bytes ws

  unfoldable pub write_bytes : WritePlan → ℕ
  unfolding ops_bytes
  write_bytes plan =
      if ltb 1 (length plan.writes)
      then ops_bytes plan.writes + 2 * (header_size + crc_size)
      else ops_bytes plan.writes

  -- `snap_entries_[i]`, if resolution ran and the key was present
  unfoldable pub resolved_entry : WritePlan → ℕ → Option KeyDirEntry
  resolved_entry plan i = elim (get_elem? plan.snap_entries i) [ none ↦ none | some e ↦ e ]

  unfoldable pub snapshot_entry : WritePlan → EngineState c → ℕ → Bytes → Option KeyDirEntry
  snapshot_entry plan s i key = elim (get_elem? plan.snap_entries i) [
    | some e ↦ e
    | none ↦ c.keys.get s.key_dir key
  ]

  unfoldable pub entry_in : EngineState c → WriteOp → Option KeyDirEntry
  entry_in s (point_put key value) = c.keys.get s.key_dir key
  entry_in s (point_del key) = c.keys.get s.key_dir key
  entry_in s (range_del from to) = none

  unfoldable pub resolve_snapshot_entries : WritePlan → WritePlan
  unfolding entry_in
  resolve_snapshot_entries plan = elim plan.snap [
    | none ↦ plan
    | some s ↦ record plan { snap_entries = map (entry_in s) plan.writes }
  ]
