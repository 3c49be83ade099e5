-- ===== src/Engine/Checked.antt =====
-- `can_apply_puts_checked` and `apply_puts_checked` of bytecaskdb/engine_state.cpp: a plan of puts
-- whose conflicts are found by the descents that apply it, and undone. `kd_restore` and `kd_remove`
-- are the writes by location from where the plan put the key.
pub mod Undone
use bytecaskdb.Format.Types.{EntryType}
use bytecaskdb.Format.Bytes.{narrow, put}
use bytecaskdb.KeyOrder.{Bytes}
use bytecaskdb.KeyDirEntry.{KeyDirEntry, make, max_sequence}
use bytecaskdb.FileStats.{no_delta, entry_size, marker_size, add64, sub64}
use bytecaskdb.Engine.State.{
  Containers, TransientEngineState, patch_stats, note_pending, erase_pending, pending_slot,
}
use bytecaskdb.Engine.Plan.{
  WriteOp, point_put, point_del, range_del, WritePlan, write_count, resolved_entry,
}
use bytecaskdb.Engine.Apply.{offset_at, displace, next}
use bytecaskdb.Prelude.{
  ltb, ◌==◌, if◌then◌else◌, length, undo_moved, Result, ok, err, ◌>>=◌, ℕ, zero, suc, ◌+◌, ◌-◌, ◌*◌,
  Bool, true, false, not, ◌&&◌, Option, none, some, List, [], ◌∷◌, ◌++◌, bad_variant,
}

-- Where the plan put a key, and what it replaced.
pub record Undo : Type 0 where
  pub key : Bytes
  pub now : KeyDirEntry
  pub was : Option KeyDirEntry

abbrev is_put : WriteOp → Bool
is_put (point_put key value) = true
is_put (point_del key) = false
is_put (range_del from to) = false

abbrev all_puts : List WriteOp → Bool
all_puts [] = true
all_puts (w ∷ ws) = is_put w && all_puts ws

module _ (c : Containers) where
  unfoldable pub can_apply_puts_checked : WritePlan c → Bool
  can_apply_puts_checked plan =
      let has_snap : Bool = elim plan.snap [ none ↦ false | some _ ↦ true ] in
      c.keys.reads_keys
      && (has_snap
          && (not (length plan.writes == 0)
              && ((length plan.snap_entries == length plan.writes) && all_puts plan.writes)))

  -- What the loop leaves: whether every put held, and `io_idx`, `undo` and `put_bytes`.
  pub record Puts : Type 0 where
    pub held : Bool
    pub io_idx : ℕ
    pub undo : List Undo
    pub put_bytes : ℕ
    pub state : TransientEngineState c

  -- One descent: whether the key was where the snapshot had it, and how to undo it.
  unfoldable pub put_checked :
      Option KeyDirEntry → Bytes → KeyDirEntry → c.keys.Tree → Bool × List Undo × c.keys.Tree
  put_checked (some at_) key e tree = elim (c.keys.put_at key at_ e tree) [
    | none ↦ (false, [], tree)
    | some tree' ↦ (true, record { key = key; now = e; was = some at_ } ∷ [], tree')
  ]
  put_checked none key e tree =
      let (hit, tree') = c.keys.put key e tree in
      let fresh : Bool = elim hit [ none ↦ true | some _ ↦ false ] in
      (fresh, record { key = key; now = e; was = hit } ∷ [], tree')

  unfoldable pub puts_loop :
      WritePlan c
      → List ℕ
      → ℕ
      → ℕ
      → List WriteOp
      → List Undo
      → ℕ
      → TransientEngineState c
      → Result Puts
  puts_loop plan offsets i w [] undo put_bytes t =
      ok (record { held = true; io_idx = i; undo = undo; put_bytes = put_bytes; state = t })
  puts_loop plan offsets i w (point_put key value ∷ ops) undo put_bytes t = do
    val_size ← narrow 32 (length value)
    offset ← offset_at offsets i
    let noted = note_pending c offset t.next_seq key val_size t
    entry ← make t.next_seq offset t.active_file_id val_size
    let done = put_checked (resolved_entry c plan w) key entry noted.key_dir
    let undo' = done.1 ++ undo
    let t' = record noted { key_dir = done.2 }
    let failed : Puts = record {
      held = false;
      io_idx = i;
      undo = undo';
      put_bytes = put_bytes;
      state = t';
    }
    let rest =
        puts_loop plan offsets (i + 1) (w + 1) ops undo'
          (add64 put_bytes (entry_size (length key) val_size)) (next c t')
    (if done.0 then rest else ok failed)
  puts_loop plan offsets i w (op ∷ ops) undo put_bytes t = err bad_variant

  unfoldable pub undo_one : Undo → c.keys.Tree → Option c.keys.Tree
  undo_one u tree = elim u.was [
    | some was ↦ c.keys.put_at u.key u.now was tree
    | none ↦ c.keys.erase_at u.key u.now tree
  ]

  unfoldable pub undo_all : List Undo → c.keys.Tree → Result c.keys.Tree
  undo_all [] tree = ok tree
  undo_all (u ∷ us) tree = elim (undo_one u tree) [
    | none ↦ err undo_moved
    | some tree' ↦ undo_all us tree'
  ]

  -- The pending records of `n` puts from offset index `i` on go.
  unfoldable pub release_pending :
      List ℕ → ℕ → ℕ → TransientEngineState c → Result (TransientEngineState c)
  release_pending offsets i zero t = ok t
  release_pending offsets i (suc n) t = do
    offset ← offset_at offsets i
    release_pending offsets (i + 1) n
        (record t { pending = erase_pending (pending_slot t.active_file_id offset) t.pending })

  -- `abandon`
  unfoldable pub abandon : List ℕ → ℕ → ℕ → Puts → Result (Bool × TransientEngineState c)
  abandon offsets first_io first_seq p = do
    tree ← undo_all p.undo p.state.key_dir
    t ←
        release_pending offsets first_io (p.io_idx + 1 - first_io)
          (record p.state { key_dir = tree })
    ok (false, record t { next_seq = first_seq })

  unfoldable pub displace_all : List Undo → TransientEngineState c → TransientEngineState c
  displace_all [] t = t
  displace_all (u ∷ us) t = displace c (length u.key) u.was (displace_all us t)

  -- The stats of a plan that is confirmed: `undo` is newest first, and its patches go oldest first.
  unfoldable pub confirm : Bool → ℕ → Puts → TransientEngineState c
  confirm multi first_seq p =
      let t = if multi then next c p.state else p.state in
      let markers = if multi then 2 * marker_size EntryType.bulk_begin else 0 in
      displace_all p.undo (
        patch_stats c t.active_file_id
          (record no_delta {
            live_added = p.put_bytes;
            total_added = add64 p.put_bytes markers;
            marker_added = markers;
            min_sequence = first_seq;
            max_sequence = sub64 t.next_seq 1;
          })
          t)

  unfoldable pub apply_puts_checked :
      WritePlan c → List ℕ → TransientEngineState c → Result (Bool × TransientEngineState c)
  apply_puts_checked plan offsets t = do
    let multi = ltb 1 (write_count c plan)
    let first_io = if multi then 1 else 0
    p ← puts_loop plan offsets first_io 0 plan.writes [] 0 (if multi then next c t else t)
    (if p.held
        then ok (true, confirm multi t.next_seq p)
        else abandon offsets first_io t.next_seq p)
