-- ===== src/Engine/Plan/Build.antt =====
-- The methods that build a `WritePlan`, of bytecaskdb/bytecask.cppm.
use bytecaskdb.KeyOrder.{Bytes, key_lt, key_eq}
use bytecaskdb.KeyDirEntry.{}
use bytecaskdb.Engine.State.{Containers, EngineState}
use bytecaskdb.Engine.Plan.{
  Precondition, SizeLimits, WriteOp, WritePlan, must_be_absent, must_be_unchanged, must_exist,
  no_condition, point_del, point_put, range_del,
}
use bytecaskdb.Prelude.{
  ltb, if◌then◌else◌, length, Result, ok, err, ◌>>=◌, ◌>>◌, throw_if, ℕ, Bool, true, false, not,
  ◌&&◌, Option, none, some, List, [], ◌∷◌, ◌++◌, key_too_large, value_too_large, invalid_range,
  contradictory_guards, snapshot_required,
}

unfoldable pub check_key_size : ℕ → ℕ → Result (Unit {0})
check_key_size size limit = throw_if (ltb limit size) key_too_large

unfoldable pub check_value_size : ℕ → ℕ → Result (Unit {0})
check_value_size size limit = throw_if (ltb limit size) value_too_large

unfoldable pub check_range : Bytes → Bytes → Result (Unit {0})
check_range from to = throw_if (not (key_lt from to)) invalid_range

unfoldable pub is_none : Precondition → Bool
is_none no_condition = true
is_none _ = false

unfoldable pub same_condition : Precondition → Precondition → Bool
same_condition no_condition no_condition = true
same_condition must_exist must_exist = true
same_condition must_be_absent must_be_absent = true
same_condition must_be_unchanged must_be_unchanged = true
same_condition _ _ = false

-- `set_precondition` on the map, which keeps its keys in order.
unfoldable pub set_precondition :
    Bytes → Precondition → List (Bytes × Precondition) → Result (List (Bytes × Precondition))
unfolding is_none same_condition
set_precondition key pre [] = ok ((key, pre) ∷ [])
set_precondition key pre ((k, g) ∷ gs) =
    let rest = set_precondition key pre gs in
    if key_eq k key
    then if not (is_none g) && not (same_condition g pre)
      then err contradictory_guards
      else ok ((key, pre) ∷ gs)
    else if key_lt k key
    then (rest >>= (λ r. ok ((k, g) ∷ r)))
    else ok ((key, pre) ∷ (k, g) ∷ gs)

module _ (c : Containers) where
  unfoldable pub new_plan : SizeLimits → Option (EngineState c) → WritePlan c
  new_plan limits snap = record {
    snap = snap;
    limits = limits;
    writes = [];
    guards = [];
    range_guards = [];
    snap_entries = [];
  }

  add_write : WriteOp → WritePlan c → WritePlan c
  add_write w plan = record plan { writes = plan.writes ++ w ∷ [] }

  unfoldable pub has_snapshot : WritePlan c → Bool
  has_snapshot plan = elim plan.snap [ none ↦ false | some _ ↦ true ]

  unfoldable pub put : Bytes → Bytes → WritePlan c → Result (WritePlan c)
  unfolding add_write
  put key value plan = do
    check_key_size (length key) plan.limits.max_key_bytes
    check_value_size (length value) plan.limits.max_value_bytes
    ok (add_write (point_put key value) plan)

  unfoldable pub del : Bytes → WritePlan c → Result (WritePlan c)
  unfolding add_write
  del key plan = do
    check_key_size (length key) plan.limits.max_key_bytes
    ok (add_write (point_del key) plan)

  unfoldable pub del_range : Bytes → Bytes → WritePlan c → Result (WritePlan c)
  unfolding add_write
  del_range from to plan = do
    check_key_size (length from) plan.limits.max_key_bytes
    check_key_size (length to) plan.limits.max_key_bytes
    check_range from to
    ok (add_write (range_del from to) plan)

  unfoldable pub guard : Bytes → Precondition → WritePlan c → Result (WritePlan c)
  guard key pre plan = do
    check_key_size (length key) plan.limits.max_key_bytes
    gs ← set_precondition key pre plan.guards
    ok (record plan { guards = gs })

  unfoldable pub ensure_present : Bytes → WritePlan c → Result (WritePlan c)
  unfolding guard
  ensure_present key plan = guard key must_exist plan

  unfoldable pub ensure_absent : Bytes → WritePlan c → Result (WritePlan c)
  unfolding guard
  ensure_absent key plan = guard key must_be_absent plan

  unfoldable pub ensure_unchanged : Bytes → WritePlan c → Result (WritePlan c)
  unfolding has_snapshot
  ensure_unchanged key plan = do
    check_key_size (length key) plan.limits.max_key_bytes
    throw_if (not (has_snapshot plan)) snapshot_required
    gs ← set_precondition key must_be_unchanged plan.guards
    ok (record plan { guards = gs })

  unfoldable pub ensure_range_unchanged : Bytes → Bytes → WritePlan c → Result (WritePlan c)
  unfolding has_snapshot
  ensure_range_unchanged from to plan = do
    check_key_size (length from) plan.limits.max_key_bytes
    check_key_size (length to) plan.limits.max_key_bytes
    check_range from to
    throw_if (not (has_snapshot plan)) snapshot_required
    ok (record plan { range_guards = plan.range_guards ++ record { from = from; to = to } ∷ [] })
