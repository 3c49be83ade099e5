-- ===== src/Engine/Apply/Sequence.antt =====
-- The writes change nothing by `next_seq`: each gives the same state whatever the counter holds.
use bytecaskdb.Format.Types.{EntryType}
use bytecaskdb.Format.Bytes.{narrow}
use bytecaskdb.KeyOrder.{Bytes, key_lt}
use bytecaskdb.KeyDirEntry.{KeyDirEntry, make}
use bytecaskdb.KeyDir.{Bindings}
use bytecaskdb.Engine.State.{Containers, TransientEngineState, patch_stats, note_pending}
use bytecaskdb.Engine.Apply.{
  apply_del, apply_marker, apply_put, apply_range_del, displace, doom, place, remove,
}
use bytecaskdb.Prelude.{
  Bool-cases, Option-cases, length, ok, ◌>>=◌, Result-cases, ℕ, ◌≡◌, refl, sym, inl, inr, Option,
  none, some, [], ◌∷◌,
}

module _ (c : Containers) where
  abbrev pub with_seq : ℕ → TransientEngineState c → TransientEngineState c
  with_seq n t = record t { next_seq = n }

  -- A write by location is the write by key.
  pub place_lem :
      (at_ : Option KeyDirEntry) (key : Bytes) (e : KeyDirEntry) (tree : c.keys.Tree)
      → place c at_ key e tree ≡ c.keys.put key e tree
  unfolding place
  place_lem none key e tree = refl
  place_lem (some at_) key e tree = elim (Option-cases (c.keys.put_at key at_ e tree)) [
    | inl declined ↦ rw (declined, place) refl
    | inr (tree', done) ↦ rw (done, place) (sym (c.keys.put_at-put key at_ e tree tree' done))
  ]

  pub remove_lem :
      (at_ : Option KeyDirEntry) (key : Bytes) (tree : c.keys.Tree)
      → remove c at_ key tree ≡ c.keys.erase key tree
  unfolding remove
  remove_lem none key tree = refl
  remove_lem (some at_) key tree = elim (Option-cases (c.keys.erase_at key at_ tree)) [
    | inl declined ↦ rw (declined, remove) refl
    | inr (tree', done) ↦ rw (done, remove) (sym (c.keys.erase_at-erase key at_ tree tree' done))
  ]

  displace-with_seq :
      (n k : ℕ) (o : Option KeyDirEntry) (t : TransientEngineState c)
      → displace c k o (with_seq n t) ≡ with_seq n (displace c k o t)
  unfolding displace patch_stats
  displace-with_seq n k none t = refl
  displace-with_seq n k (some e) t = refl

  pub apply_marker-with_seq :
      (n : ℕ) (t : TransientEngineState c)
      → apply_marker c EntryType.bulk_begin (with_seq n t)
        ≡ with_seq n (apply_marker c EntryType.bulk_begin t)
  unfolding apply_marker patch_stats
  apply_marker-with_seq n t = refl

  pub apply_del-with_seq :
      (n : ℕ) (key : Bytes) (t : TransientEngineState c)
      → apply_del c none key (with_seq n t) ≡ with_seq n (apply_del c none key t)
  unfolding apply_del patch_stats
  apply_del-with_seq n key t =
      let tree = remove c none key t.key_dir in
      rw (displace-with_seq n (length key) tree.0 (record t { key_dir = tree.1 })) refl

  doom-with_seq :
      (n : ℕ) (to : Bytes) (bs : Bindings) (t : TransientEngineState c)
      → doom c to bs (with_seq n t) ≡ ((doom c to bs t).0, with_seq n (doom c to bs t).1)
  unfolding doom
  doom-with_seq n to [] t = refl
  doom-with_seq n to ((key, e) ∷ bs) t = elim (Bool-cases (key_lt key to)) [
    | inr past ↦ rw past refl
    | inl inside ↦ rw inside (
        rw (displace-with_seq n (length key) (some e) t)
          (rw (doom-with_seq n to bs (displace c (length key) (some e) t)) refl))
  ]

  pub apply_range_del-with_seq :
      (n : ℕ) (from to : Bytes) (t : TransientEngineState c)
      → apply_range_del c from to (with_seq n t) ≡ with_seq n (apply_range_del c from to t)
  unfolding apply_range_del patch_stats
  apply_range_del-with_seq n from to t =
      rw (doom-with_seq n to (c.keys.lower_bound t.key_dir from) t) refl

  note_pending-with_seq :
      (n offset seq : ℕ) (key : Bytes) (val_size : ℕ) (t : TransientEngineState c)
      → note_pending c offset seq key val_size (with_seq n t)
        ≡ with_seq n (note_pending c offset seq key val_size t)
  unfolding note_pending
  note_pending-with_seq n offset seq key val_size t = elim (Bool-cases c.keys.reads_keys) [
    | inl reads ↦ rw reads refl
    | inr keyed ↦ rw keyed refl
  ]

  pub apply_put-with_seq :
      (n seq offset : ℕ) (key value : Bytes) (t : TransientEngineState c)
      → apply_put c none seq offset key value (with_seq n t)
        ≡ apply_put c none seq offset key value t >>= λ u. ok (with_seq n u)
  unfolding apply_put patch_stats
  apply_put-with_seq n seq offset key value t = elim (Result-cases (narrow 32 (length value))) [
    | inr (x, p) ↦ rw p refl
    | inl (v, p) ↦ rw p (elim (Result-cases (make seq offset t.active_file_id v)) [
      | inr (x, q) ↦ rw q refl
      | inl (e, q) ↦
          let noted = note_pending c offset seq key v t in
          let tree = place c none key e noted.key_dir in
          rw q (
            rw (note_pending-with_seq n offset seq key v t) (
              rw (displace-with_seq n (length key) tree.0 (record noted { key_dir = tree.1 }))
                refl))
    ])
  ]
