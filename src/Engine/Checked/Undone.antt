-- ===== src/Engine/Checked/Undone.antt =====
-- A plan of puts that is taken back leaves the key directory as it was.
use bytecaskdb.KeyOrder.{Bytes, key_eq, key_eq_iff}
use bytecaskdb.Format.Bytes.{narrow}
use bytecaskdb.KeyDirEntry.{KeyDirEntry, make}
use bytecaskdb.Engine.State.{Containers, TransientEngineState, note_pending}
use bytecaskdb.Engine.Plan.{
  WriteOp, WritePlan, point_del, point_put, range_del, resolved_entry, write_count,
}
use bytecaskdb.Engine.Apply.{next, offset_at}
use bytecaskdb.Engine.Apply.Keys.{note_pending-key_dir}
use bytecaskdb.Engine.Checked.{
  Undo, put_checked, undo_all, undo_one, Puts, puts_loop, abandon, apply_puts_checked, confirm,
  release_pending,
}
use bytecaskdb.Prelude.{
  ltb, if◌then◌else◌, Bool-cases, Option-cases, length, undo_moved, ok, err, >>=-eq-ok,
  ok-injective, ℕ, zero, suc, ◌+◌, ◌-◌, ◌≡◌, refl, sym, ap, subst, ◌∙◌, inl, inr, Bool, true, false,
  Option, none, some, List, [], ◌∷◌, ◌++◌,
}

module _ (c : Containers) where
  -- Two trees bind each key to the same entry.
  abbrev pub SameKeys : c.keys.Tree → c.keys.Tree → Type 0
  SameKeys x y = (j : Bytes) → c.keys.get x j ≡ c.keys.get y j

  -- Undoing from `tree`, or from a tree that binds the same, leads back to `start`.
  abbrev Reverts : c.keys.Tree → List Undo → c.keys.Tree → Type 0
  Reverts start undo tree =
      (x y : c.keys.Tree) → SameKeys x tree → undo_all c undo x ≡ ok y → SameKeys y start

  put_back :
      (same : Bool) (e was g x : Option KeyDirEntry)
      → (same ≡ true → g ≡ was)
      → x ≡ (if same then e else g)
      → (if same then was else x) ≡ g
  put_back true e was g x h k = sym (h refl)
  put_back false e was g x h k = k

  was_there :
      (key : Bytes) (e : KeyDirEntry) (hit : Option KeyDirEntry) (tree tree' : c.keys.Tree)
      → c.keys.put key e tree ≡ (hit, tree')
      → (j : Bytes) → key_eq key j ≡ true
      → c.keys.get tree j ≡ hit
  was_there key e hit tree tree' p j same =
      ap (c.keys.get tree) (sym ((key_eq_iff key j).0 same))
      ∙ sym (c.keys.hit-put key e tree)
      ∙ ap (λ r. r.0) p

  put_there :
      (key : Bytes) (e : KeyDirEntry) (hit : Option KeyDirEntry) (tree tree' : c.keys.Tree)
      → c.keys.put key e tree ≡ (hit, tree')
      → (j : Bytes) → c.keys.get tree' j ≡ (if key_eq key j then some e else c.keys.get tree j)
  put_there key e hit tree tree' p j =
      ap (λ r. c.keys.get r.1 j) (sym p) ∙ c.keys.get-put key j e tree

  undo_one-SameKeys :
      (key : Bytes) (e : KeyDirEntry) (hit : Option KeyDirEntry) (tree tree' x x' : c.keys.Tree)
      → c.keys.put key e tree ≡ (hit, tree')
      → SameKeys x tree'
      → undo_one c (record { key = key; now = e; was = hit }) x ≡ some x'
      → SameKeys x' tree
  unfolding undo_one
  undo_one-SameKeys key e none tree tree' x x' p s u j =
      let gone = c.keys.erase_at-erase key e x x' u in
      ap (λ r. c.keys.get r.1 j) (sym gone)
      ∙ c.keys.get-erase key j x
      ∙ put_back (key_eq key j) (some e) none (c.keys.get tree j) (c.keys.get x j)
          (was_there key e none tree tree' p j) (s j ∙ put_there key e none tree tree' p j)
  undo_one-SameKeys key e (some w) tree tree' x x' p s u j =
      let back = c.keys.put_at-put key e w x x' u in
      ap (λ r. c.keys.get r.1 j) (sym back)
      ∙ c.keys.get-put key j w x
      ∙ put_back (key_eq key j) (some e) (some w) (c.keys.get tree j) (c.keys.get x j)
          (was_there key e (some w) tree tree' p j) (s j ∙ put_there key e (some w) tree tree' p j)

  undo_cons :
      (w : Undo) (us : List Undo) (x y : c.keys.Tree)
      → undo_all c (w ∷ us) x ≡ ok y
      → (x' : c.keys.Tree) × (undo_one c w x ≡ some x') × (undo_all c us x' ≡ ok y)
  unfolding undo_all
  undo_cons w us x y u = elim (Option-cases (undo_one c w x)) [
    | inl moved ↦ let u' : err undo_moved ≡ ok y = rw (moved, undo_all) at u in absurd (cc u')
    | inr (x', done) ↦ let u' : undo_all c us x' ≡ ok y = rw (done, undo_all) at u in (x', done, u')
  ]

  undo_put :
      (start : c.keys.Tree) (undo : List Undo) (key : Bytes) (e : KeyDirEntry)
      (hit : Option KeyDirEntry) (tree tree' : c.keys.Tree)
      → c.keys.put key e tree ≡ (hit, tree')
      → Reverts start undo tree
      → Reverts start (record { key = key; now = e; was = hit } ∷ undo) tree'
  undo_put start undo key e hit tree tree' p r x y s u =
      let (x', done, rest) = undo_cons (record { key = key; now = e; was = hit }) undo x y u in
      r x' y (undo_one-SameKeys key e hit tree tree' x x' p s done) rest

  put_checked-Reverts :
      (start : c.keys.Tree) (undo : List Undo) (at_ : Option KeyDirEntry) (key : Bytes)
      (e : KeyDirEntry) (tree : c.keys.Tree)
      → Reverts start undo tree
      → Reverts start ((put_checked c at_ key e tree).1 ++ undo) (put_checked c at_ key e tree).2
  unfolding put_checked undo_all
  put_checked-Reverts start undo none key e tree r =
      let put = c.keys.put key e tree in undo_put start undo key e put.0 tree put.1 refl r
  put_checked-Reverts start undo (some at_) key e tree r =
      elim (Option-cases (c.keys.put_at key at_ e tree)) [
        | inl declined ↦ rw (declined, put_checked) r
        | inr (tree', done) ↦
            rw (done, put_checked)
              (undo_put start undo key e (some at_) tree tree'
                (c.keys.put_at-put key at_ e tree tree' done) r)
      ]

  puts_loop-Reverts :
      (start : c.keys.Tree) (plan : WritePlan c) (offsets : List ℕ) (i w : ℕ) (ops : List WriteOp)
      (undo : List Undo) (put_bytes : ℕ) (t : TransientEngineState c) (p : Puts c)
      → Reverts start undo t.key_dir
      → puts_loop c plan offsets i w ops undo put_bytes t ≡ ok p
      → Reverts start p.undo p.state.key_dir
  unfolding puts_loop next
  puts_loop-Reverts start plan offsets i w [] undo b t p r h =
      subst (λ (q : Puts c). Reverts start q.undo q.state.key_dir) (ok-injective h) r
  puts_loop-Reverts start plan offsets i w (point_put key value ∷ ops) undo b t p r h =
      let (v, _, h₁) = >>=-eq-ok (narrow 32 (length value)) _ h in
      let (o, _, h₂) = >>=-eq-ok (offset_at offsets i) _ h₁ in
      let (e, _, h₃) = >>=-eq-ok (make t.next_seq o t.active_file_id v) _ h₂ in
      let noted = note_pending c o t.next_seq key v t in
      let done = put_checked c (resolved_entry c plan w) key e noted.key_dir in
      let r' : Reverts start (done.1 ++ undo) done.2 =
        put_checked-Reverts start undo (resolved_entry c plan w) key e noted.key_dir
          (subst (Reverts start undo) (sym (note_pending-key_dir c o t.next_seq key v t)) r) in
      elim (Bool-cases done.0) [
        | inl held ↦
            puts_loop-Reverts start plan offsets (i + 1) (w + 1) ops (done.1 ++ undo) _
              (next c (record noted { key_dir = done.2 })) p r' (rw held at h₃)
        | inr failed ↦
            let stopped : ok (record {
              held = false;
              io_idx = i;
              undo = done.1 ++ undo;
              put_bytes = b;
              state = record noted { key_dir = done.2 };
            })
                ≡ ok p =
              rw failed at h₃ in
            subst (λ (q : Puts c). Reverts start q.undo q.state.key_dir) (ok-injective stopped) r'
      ]
  puts_loop-Reverts start plan offsets i w (point_del key ∷ ops) undo b t p r h = cc
  puts_loop-Reverts start plan offsets i w (range_del from to ∷ ops) undo b t p r h = cc

  release_pending-key_dir :
      (offsets : List ℕ) (i n : ℕ) (t u : TransientEngineState c)
      → release_pending c offsets i n t ≡ ok u
      → u.key_dir ≡ t.key_dir
  unfolding release_pending
  release_pending-key_dir offsets i zero t u h = ap (λ x. x.key_dir) (sym (ok-injective h))
  release_pending-key_dir offsets i (suc n) t u h =
      let (o, _, h₁) = >>=-eq-ok (offset_at offsets i) _ h in
      release_pending-key_dir offsets (i + 1) n _ u h₁

  begin-Reverts :
      (multi : Bool) (t : TransientEngineState c)
      → Reverts t.key_dir [] (if multi then next c t else t).key_dir
  unfolding next undo_all
  begin-Reverts true t x y s u = subst (λ z. SameKeys z t.key_dir) (ok-injective u) s
  begin-Reverts false t x y s u = subst (λ z. SameKeys z t.key_dir) (ok-injective u) s

  abandon-SameKeys :
      (start : c.keys.Tree) (offsets : List ℕ) (i n : ℕ) (p : Puts c) (b : Bool)
      (u : TransientEngineState c)
      → Reverts start p.undo p.state.key_dir
      → abandon c offsets i n p ≡ ok (b, u)
      → SameKeys u.key_dir start × (u.next_seq ≡ n)
  unfolding abandon
  abandon-SameKeys start offsets i n p b u r h =
      let (tree, undone, h₁) = >>=-eq-ok (undo_all c p.undo p.state.key_dir) _ h in
      let (t, released, h₂) =
        >>=-eq-ok
          (release_pending c offsets i (p.io_idx + 1 - i) (record p.state { key_dir = tree })) _
          h₁ in
      let same = ap (λ x. x.1) (sym (ok-injective h₂)) in
      let kept =
        ap (λ x. x.key_dir) same
        ∙ release_pending-key_dir offsets i (p.io_idx + 1 - i) (record p.state { key_dir = tree }) t
            released in
      (
        subst (λ x. SameKeys x start) (sym kept) (r p.state.key_dir tree (λ j. refl) undone),
        ap (λ x. x.next_seq) same,
      )

  -- A plan of puts that `apply_puts_checked` refuses leaves every key bound to the entry it had, and
  -- its sequences free again.
  pub apply_puts_checked_undone :
      (plan : WritePlan c) (offsets : List ℕ) (t u : TransientEngineState c)
      → apply_puts_checked c plan offsets t ≡ ok (false, u)
      → SameKeys u.key_dir t.key_dir × (u.next_seq ≡ t.next_seq)
  unfolding apply_puts_checked
  apply_puts_checked_undone plan offsets t u h =
      let multi = ltb 1 (write_count c plan) in
      let first_io = if multi then 1 else 0 in
      let begun = if multi then next c t else t in
      let (p, looped, h₁) =
        >>=-eq-ok (puts_loop c plan offsets first_io 0 plan.writes [] 0 begun) _ h in
      let r =
        puts_loop-Reverts t.key_dir plan offsets first_io 0 plan.writes [] 0 begun p
          (begin-Reverts multi t) looped in
      elim (Bool-cases p.held) [
        | inl held ↦
            let kept : Bool × TransientEngineState c = (true, confirm c multi t.next_seq p) in
            let h₂ : ok kept ≡ ok (false, u) = rw held at h₁ in
            let both : true ≡ false =
              ap (λ (x : Bool × TransientEngineState c). x.0) (ok-injective h₂) in
            absurd (cc both)
        | inr failed ↦
            let h₂ : abandon c offsets first_io t.next_seq p ≡ ok (false, u) = rw failed at h₁ in
            abandon-SameKeys t.key_dir offsets first_io t.next_seq p false u r h₂
      ]
