-- ===== src/Engine/Validate.antt =====
-- `TransientEngineState::validate_preconditions` and `range_changed` of
-- bytecaskdb/engine_state.cpp: whether the head still allows a plan. `no_snapshot` is the read of
-- a snapshot that the plan does not have, which a plan's builder rules out.
pub mod Range
pub mod Writes
pub mod Decides
pub mod Total
pub mod Built
use bytecaskdb.KeyOrder.{Bytes, key_lt}
use bytecaskdb.KeyDirEntry.{KeyDirEntry, sequence}
use bytecaskdb.KeyDir.{Bindings}
use bytecaskdb.FileStats.{sub64}
use bytecaskdb.Engine.State.{Containers, EngineState, TransientEngineState}
use bytecaskdb.Engine.Plan.{
  WritePlan, WriteOp, point_put, point_del, range_del, Precondition, no_condition, must_exist,
  must_be_absent, must_be_unchanged, RangeGuard, snapshot_entry,
}
use bytecaskdb.Prelude.{
  ◌==◌, if◌then◌else◌, Result, ok, err, ℕ, ◌+◌, max, Bool, true, false, not, Option, none, some,
  List, [], ◌∷◌, no_snapshot,
}

-- What a check leaves: the entry that its success rests on so far, or the one that it lost to.
pub data Outcome : Type 0 where
  held lost : ℕ → Outcome

-- A sequence, 0 for an absent key.
abbrev pub seq_or_zero : Option KeyDirEntry → ℕ
seq_or_zero none = 0
seq_or_zero (some e) = sequence e

module _ (c : Containers) where
  unfoldable pub head_latest : TransientEngineState c → ℕ
  head_latest t = sub64 t.next_seq 1

  unfoldable pub read_seq : TransientEngineState c → Option KeyDirEntry → ℕ
  read_seq t none = head_latest t
  read_seq t (some e) = sequence e

  -- The first loop of `range_changed`: keys of the head.
  unfoldable pub head_scan : EngineState c → Bytes → Bindings → Option ℕ
  head_scan snap to [] = none
  head_scan snap to ((k, e) ∷ bs) =
      if not (key_lt k to)
      then none
      else if not (sequence e == seq_or_zero (c.keys.get snap.key_dir k))
      then some (sequence e)
      else head_scan snap to bs

  -- The second: keys of the snapshot that the head has lost.
  unfoldable pub snap_scan : TransientEngineState c → Bytes → Bindings → Option ℕ
  snap_scan t to [] = none
  snap_scan t to ((k, e) ∷ bs) =
      let rest = snap_scan t to bs in
      if not (key_lt k to)
      then none
      else elim (c.keys.get t.key_dir k) [ none ↦ some (head_latest t) | some _ ↦ rest ]

  -- What `rests_on` is set to, where the range changed.
  unfoldable pub range_changed : TransientEngineState c → EngineState c → Bytes → Bytes → Option ℕ
  range_changed t snap from to = elim (head_scan snap to (c.keys.lower_bound t.key_dir from)) [
    | some r ↦ some r
    | none ↦ snap_scan t to (c.keys.lower_bound snap.key_dir from)
  ]

  unfoldable pub check_guard :
      TransientEngineState c → Option (EngineState c) → Bytes → Precondition → ℕ → Result Outcome
  check_guard t snap key must_exist held_on = elim (c.keys.get t.key_dir key) [
    | none ↦ ok (lost (read_seq t none))
    | some e ↦ ok (held (max held_on (read_seq t (some e))))
  ]
  check_guard t snap key must_be_absent held_on = elim (c.keys.get t.key_dir key) [
    | some e ↦ ok (lost (read_seq t (some e)))
    | none ↦ ok (held (max held_on (read_seq t none)))
  ]
  check_guard t none key must_be_unchanged held_on = err no_snapshot
  check_guard t (some s) key must_be_unchanged held_on =
      let cur = c.keys.get t.key_dir key in
      if not (seq_or_zero cur == seq_or_zero (c.keys.get s.key_dir key))
      then ok (lost (read_seq t cur))
      else ok (held (max held_on (read_seq t cur)))
  check_guard t snap key no_condition held_on = ok (held held_on)

  unfoldable pub check_guards :
      TransientEngineState c
      → Option (EngineState c)
      → List (Bytes × Precondition)
      → ℕ
      → Result Outcome
  check_guards t snap [] held_on = ok (held held_on)
  check_guards t snap ((key, pre) ∷ gs) held_on = elim (check_guard t snap key pre held_on) [
    | err e ↦ err e
    | ok (lost r) ↦ ok (lost r)
    | ok (held h) ↦ check_guards t snap gs h
  ]

  unfoldable pub check_range_guards :
      TransientEngineState c → Option (EngineState c) → List RangeGuard → ℕ → Result Outcome
  check_range_guards t snap [] held_on = ok (held held_on)
  check_range_guards t none (g ∷ gs) held_on = err no_snapshot
  check_range_guards t (some s) (g ∷ gs) held_on = elim (range_changed t s g.from g.to) [
    | some r ↦ ok (lost r)
    | none ↦ check_range_guards t (some s) gs (head_latest t)
  ]

  -- The lambda `point_conflict`: what the plan lost to, if the key changed.
  unfoldable pub point_conflict : TransientEngineState c → Option KeyDirEntry → Bytes → Option ℕ
  point_conflict t snap_entry key =
      let cur = c.keys.get t.key_dir key in
      elim snap_entry [
        | some at_ ↦ if c.keys.holds t.key_dir key at_ then none else elim cur [
          | none ↦ some (read_seq t none)
          | some e ↦ if not (sequence e == sequence at_) then some (read_seq t (some e)) else none
        ]
        | none ↦ elim cur [ none ↦ none | some e ↦ some (read_seq t (some e)) ]
      ]

  unfoldable pub write_conflict :
      TransientEngineState c → WritePlan c → EngineState c → ℕ → WriteOp → Option ℕ
  write_conflict t plan s i (point_put key value) =
      point_conflict t (snapshot_entry c plan s i key) key
  write_conflict t plan s i (point_del key) = point_conflict t (snapshot_entry c plan s i key) key
  write_conflict t plan s i (range_del from to) = range_changed t s from to

  unfoldable pub check_writes :
      TransientEngineState c → WritePlan c → EngineState c → ℕ → List WriteOp → Option ℕ
  check_writes t plan s i [] = none
  check_writes t plan s i (w ∷ ws) = elim (write_conflict t plan s i w) [
    | some r ↦ some r
    | none ↦ check_writes t plan s (i + 1) ws
  ]

  -- The implicit write-write checks, of a plan with a snapshot.
  unfoldable pub check_conflicts :
      TransientEngineState c → WritePlan c → Bool → Option (EngineState c) → Option ℕ
  check_conflicts t plan defer_puts none = none
  check_conflicts t plan true (some s) = none
  check_conflicts t plan false (some s) = check_writes t plan s 0 plan.writes

  unfoldable pub finish : ℕ → Option ℕ → Bool × ℕ
  finish held_on none = (true, held_on)
  finish held_on (some r) = (false, r)

  -- Whether the plan may be applied, and `rests_on`.
  unfoldable pub validate_preconditions :
      TransientEngineState c → WritePlan c → Bool → Result (Bool × ℕ)
  unfolding finish
  validate_preconditions t plan defer_puts = elim (check_guards t plan.snap plan.guards 0) [
    | err e ↦ err e
    | ok (lost r) ↦ ok (false, r)
    | ok (held h) ↦ elim (check_range_guards t plan.snap plan.range_guards h) [
      | err e ↦ err e
      | ok (lost r) ↦ ok (false, r)
      | ok (held h') ↦ ok (finish h' (check_conflicts t plan defer_puts plan.snap))
    ]
  ]
