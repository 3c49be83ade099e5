-- ===== src/Recovery/Hints/Sorted.antt =====
-- A hint file that `flush_hints_for` writes is one that recovery's merge can read: its heads, then one run
-- by key; and it has an entry for each committed entry of the data file, and no other.
use bytecaskdb.Prelude.{
  ◌>>=◌, ◌+◌, ◌∙◌, ap, ltb, Bool-cases, length, All, narrowing, Result, ok, err, >>=-eq-ok,
  ok-injective, ℕ, ◌^◌, ◌≡◌, refl, sym, subst, ◌↔◌, inl, inr, true, false, List, [], ◌∷◌, ◌++◌,
  arith, All-append, All-parts,
}
use bytecaskdb.KeyOrder.{Bytes, key_lt, key_eq, key_eq_iff, key_lt_irrefl, key_lt-asymm}
use bytecaskdb.Format.Bytes.{narrow, Crc32c}
use bytecaskdb.Format.Types.{
  EntryType, put, delete, bulk_begin, bulk_end, range_del, change_marker, unknown,
  is_known_entry_type, change_marker_id_bytes, decode_marker_id,
}
use bytecaskdb.Format.Entry.{DataEntry}
use bytecaskdb.Format.Hint.{HintEntry}
use bytecaskdb.Recovery.Scan.{Committed, failed, finished, item, OnDamage, scan_committed}
use bytecaskdb.Recovery.Cursor.{data_entry, run_entry}
use bytecaskdb.Recovery.Cursor.Loaded.{IsRun}
use bytecaskdb.Recovery.Build.Heads.{is_head, IsHint}
use bytecaskdb.Recovery.Hints.{
  Gathered, insert_staged, plain_entry, sort_staged, staged_before, flush_hints_for, gather,
  arena_bytes, gather_entry, push_head, stage_entry,
}
use bytecaskdb.Recovery.Hints.Known.{IsKnown, scan_committed-IsKnown}

IsData : HintEntry → Type 0
IsData he = run_entry he.entry_type ≡ data_entry

-- The run, sorted by insertion.
insert_staged-IsRun :
    (lo : Bytes) (x : HintEntry) (xs : List HintEntry)
    → IsData x
    → key_lt x.key lo ≡ false
    → IsRun lo xs
    → IsRun lo (insert_staged x xs)
unfolding insert_staged IsData
insert_staged-IsRun lo x [] d over run = (d, over, tt)
insert_staged-IsRun lo x (y ∷ ys) d over (dy, over_y, run) = elim (Bool-cases (staged_before y x)) [
  | inl before ↦
      let le : key_lt x.key y.key ≡ false = not_below before in
      rw before (dy, over_y, insert_staged-IsRun y.key x ys d le run)
  | inr after ↦
      let le : key_lt y.key x.key ≡ false = not_above after in rw after (d, over, (dy, le, run))
]
  where
    not_below : staged_before y x ≡ true → key_lt x.key y.key ≡ false
    not_below b = elim (Bool-cases (key_lt y.key x.key)) [
      | inl under ↦ key_lt-asymm y.key x.key under
      | inr no_less ↦
          let same : key_eq y.key x.key ≡ true =
            unfold staged_before in ground (arith, b, no_less) in
          rw ((key_eq_iff y.key x.key).0 same) (key_lt_irrefl x.key)
    ]

    not_above : staged_before y x ≡ false → key_lt y.key x.key ≡ false
    not_above b = unfold staged_before in ground (arith, b)

key_lt-nil : (k : Bytes) → key_lt k [] ≡ false
unfolding key_lt
key_lt-nil [] = refl
key_lt-nil (x ∷ xs) = refl

sort_staged-IsRun : (xs : List HintEntry) → All IsData xs → IsRun [] (sort_staged xs)
unfolding sort_staged
sort_staged-IsRun [] h = tt
sort_staged-IsRun (x ∷ xs) h =
    insert_staged-IsRun [] x (sort_staged xs) h.0 (key_lt-nil x.key) (sort_staged-IsRun xs h.1)

-- The hint entry of a committed entry.
unfoldable pub hint_of : EntryType → DataEntry → ℕ → HintEntry
hint_of change_marker e off = record (plain_entry e off) {
  value_size = change_marker_id_bytes;
  marker_id = decode_marker_id e.value;
}
hint_of range_del e off = record (plain_entry e off) {
  key = e.key;
  value_size = length e.value;
  end_key = e.value;
}
hint_of put e off = record (plain_entry e off) { key = e.key; value_size = length e.value }
hint_of delete e off = record (plain_entry e off) { key = e.key; value_size = length e.value }
hint_of _ e off = plain_entry e off

-- What holds of the hint entries of the committed entries.
abbrev pub AllCommitted : (HintEntry → Type 0) → Committed → Type 0
AllCommitted P (finished end) = Unit
AllCommitted P (failed e) = Unit
AllCommitted P (item e off rest) = P (hint_of e.entry_type e off) × AllCommitted P rest

-- The gathered entries are the heads and the data, and those of the committed entries.
abbrev IsGathered : Committed → Gathered → Type 1
IsGathered s g =
    All (λ h. is_head h.entry_type ≡ true) g.heads
    × All IsData g.staged
    × ((P : HintEntry → Type 0) → AllCommitted P s ↔ (All P g.heads × All P g.staged))

narrow-is : (n v : ℕ) → narrow 32 n ≡ ok v → n ≡ v
unfolding narrow
narrow-is n v h = elim (Bool-cases (ltb n (2 ^ 32))) [
  | inl fits ↦ ok-injective (rw fits at h)
  | inr big ↦
      let wrong : ◌≡◌ {A = Result ℕ} (err narrowing) (ok v) = rw big at h in absurd (cc wrong)
]

-- As above, of one more entry in front.
abbrev IsGatheredWith : HintEntry → Committed → Gathered → Type 1
IsGatheredWith h s g =
    All (λ h. is_head h.entry_type ≡ true) g.heads
    × All IsData g.staged
    × ((P : HintEntry → Type 0) → (P h × AllCommitted P s) ↔ (All P g.heads × All P g.staged))

push_head-IsGathered :
    (h : HintEntry) (s : Committed) (g g' : Gathered)
    → is_head h.entry_type ≡ true
    → IsGathered s g
    → ok (push_head h g) ≡ ok g'
    → IsGatheredWith h s g'
push_head-IsGathered h s g g' is (heads, staged, same) e =
    subst (IsGatheredWith h s) (ok-injective e) (
      (is, heads),
      staged,
      λ P. (
        λ a. let (x, y) = (same P).0 a.1 in ((a.0, x), y),
        λ a. (a.0.0, (same P).1 (a.0.1, a.1)),
      ),
    )

abbrev pushed : Result (Gathered → Gathered) → Gathered → Result Gathered
pushed push g = push >>= λ p. ok (p g)

stage_entry-IsGathered :
    (e : DataEntry) (off arena : ℕ) (s : Committed) (g g' : Gathered)
    → run_entry e.entry_type ≡ data_entry
    → IsGathered s g
    → pushed (stage_entry e off arena) g ≡ ok g'
    → IsGatheredWith (record (plain_entry e off) { key = e.key; value_size = length e.value }) s g'
unfolding IsData
stage_entry-IsGathered e off arena s g g' is (heads, staged, same) h =
    let (push, stages, pushes) = >>=-eq-ok (stage_entry e off arena) _ h in
    let (v, narrows, h₁) = >>=-eq-ok (narrow 32 (length e.value)) _ stages in
    let (_, _, h₂) = >>=-eq-ok (narrow 32 arena) _ h₁ in
    let (_, _, h₃) = >>=-eq-ok (narrow 32 (length e.key)) _ h₂ in
    let size = narrow-is (length e.value) v narrows in
    let entry_at = λ (n : ℕ). record (plain_entry e off) { key = e.key; value_size = n } in
    let is_g = ap (λ p. p g) (ok-injective h₃) ∙ ok-injective pushes in
    subst (IsGatheredWith (entry_at (length e.value)) s) is_g (
      heads,
      (is, staged),
      λ P. (
        λ a. let (x, y) = (same P).0 a.1 in (x, (subst (λ n. P (entry_at n)) size a.0, y)),
        λ a. (subst (λ n. P (entry_at n)) (sym size) a.1.0, (same P).1 (a.0, a.1.1)),
      ),
    )

gather_entry-IsGathered :
    (t : EntryType) (e : DataEntry) (off arena : ℕ) (s : Committed) (g g' : Gathered)
    → e.entry_type ≡ t
    → is_known_entry_type t ≡ true
    → IsGathered s g
    → pushed (gather_entry t e off arena) g ≡ ok g'
    → IsGatheredWith (hint_of t e off) s g'
unfolding gather_entry hint_of is_known_entry_type
gather_entry-IsGathered put e off arena s g g' t k r h =
    stage_entry-IsGathered e off arena s g g' (rw t (unfold run_entry in refl)) r h
gather_entry-IsGathered delete e off arena s g g' t k r h =
    stage_entry-IsGathered e off arena s g g' (rw t (unfold run_entry in refl)) r h
gather_entry-IsGathered (unknown b) e off arena s g g' t k r h = cc
gather_entry-IsGathered bulk_begin e off arena s g g' t k r h =
    push_head-IsGathered (plain_entry e off) s g g' (rw t (unfold is_head in refl)) r h
gather_entry-IsGathered bulk_end e off arena s g g' t k r h =
    push_head-IsGathered (plain_entry e off) s g g' (rw t (unfold is_head in refl)) r h
gather_entry-IsGathered change_marker e off arena s g g' t k r h =
    push_head-IsGathered _ s g g' (rw t (unfold is_head in refl)) r h
gather_entry-IsGathered range_del e off arena s g g' t k r h =
    let (push, reads, pushes) = >>=-eq-ok (gather_entry range_del e off arena) _ h in
    let (v, narrows, h₁) = >>=-eq-ok (narrow 32 (length e.value)) _ reads in
    let size = narrow-is (length e.value) v narrows in
    let head_at =
      λ (n : ℕ). record (plain_entry e off) { key = e.key; value_size = n; end_key = e.value } in
    let is_g = ap (λ p. ok (p g)) (ok-injective h₁) ∙ pushes in
    subst (λ n. IsGatheredWith (head_at n) s g') (sym size)
      (push_head-IsGathered (head_at v) s g g' (rw t (unfold is_head in refl)) r is_g)

gather-IsGathered :
    (arena : ℕ) (s : Committed) (g : Gathered) → IsKnown s → gather arena s ≡ ok g → IsGathered s g
unfolding gather
gather-IsGathered arena (finished end) g k h =
    subst (IsGathered (finished end)) (ok-injective h) (tt, tt, λ P. (λ a. (tt, tt), λ a. tt))
gather-IsGathered arena (failed e) g k h = cc
gather-IsGathered arena (item e off rest) g k h =
    let (push, pushes, h₁) = >>=-eq-ok (gather_entry e.entry_type e off arena) _ h in
    let (g₁, gathers, h₂) = >>=-eq-ok (gather (arena + arena_bytes e.entry_type e) rest) _ h₁ in
    gather_entry-IsGathered e.entry_type e off arena rest g₁ g refl k.0
      (gather-IsGathered (arena + arena_bytes e.entry_type e) rest g₁ k.1 gathers)
      (ap (λ r. pushed r g₁) pushes ∙ h₂)

-- Sorting moves entries about.
All-insert_staged :
    (P : HintEntry → Type 0) (x : HintEntry) (xs : List HintEntry)
    → (P x × All P xs) ↔ All P (insert_staged x xs)
unfolding insert_staged
All-insert_staged P x [] = (λ h. h, λ h. h)
All-insert_staged P x (y ∷ ys) =
    let (to, from) = All-insert_staged P x ys in
    elim (Bool-cases (staged_before y x)) [
      | inl before ↦ (
        λ h. rw before (h.1.0, to (h.0, h.1.1)),
        λ h.
            let h' : P y × All P (insert_staged x ys) = rw before at h in
            let (a, b) = from h'.1 in (a, (h'.0, b)),
      )
      | inr after ↦ (λ h. rw after h, λ h. rw after at h)
    ]

All-sort_staged : (P : HintEntry → Type 0) (xs : List HintEntry) → All P xs ↔ All P (sort_staged xs)
unfolding sort_staged
All-sort_staged P [] = (λ h. h, λ h. h)
All-sort_staged P (x ∷ xs) =
    let (to, from) = All-sort_staged P xs in
    let (into, out_of) = All-insert_staged P x (sort_staged xs) in
    (λ h. into (h.0, to h.1), λ h. let (a, b) = out_of h in (a, from b))

run-IsHint : (xs : List HintEntry) → IsRun [] xs → IsHint xs
run-IsHint [] h = tt
run-IsHint (x ∷ xs) (is_data, over, run) = inr (is_data, run)

heads-IsHint :
    (heads run : List HintEntry)
    → All (λ h. is_head h.entry_type ≡ true) heads
    → IsRun [] run
    → IsHint (heads ++ run)
heads-IsHint [] run h r = run-IsHint run r
heads-IsHint (x ∷ heads) run h r = inl (h.0, heads-IsHint heads run h.1 r)

-- The entries of a written hint file are the heads and then one run of puts and deletes by key, and
-- what holds of each of them is what holds of the hint entry of each committed entry.
pub flush_hints_for-IsHint :
    (c : Crc32c) (on_damage : OnDamage) (bytes : List ℕ) (end : ℕ) (entries : List HintEntry)
    → flush_hints_for c on_damage bytes ≡ ok (end, entries)
    → IsHint entries
      × ((P : HintEntry → Type 0)
          → AllCommitted P (scan_committed c on_damage bytes) ↔ All P entries)
unfolding flush_hints_for
flush_hints_for-IsHint c on_damage bytes end entries h =
    let s = scan_committed c on_damage bytes in
    let (g, gathers, h₁) = >>=-eq-ok (gather 0 s) _ h in
    let (heads, staged, same) =
      gather-IsGathered 0 s g (scan_committed-IsKnown c on_damage bytes) gathers in
    let is : g.heads ++ sort_staged g.staged ≡ entries = cc h₁ in
    (
      subst IsHint is
          (heads-IsHint g.heads (sort_staged g.staged) heads (sort_staged-IsRun g.staged staged)),
      λ P. (
        λ a.
            let (x, y) = (same P).0 a in
            subst (All P) is
              (All-append P g.heads (sort_staged g.staged) x ((All-sort_staged P g.staged).0 y)),
        λ a.
            let (x, y) = All-parts P g.heads (sort_staged g.staged) (subst (All P) (sym is) a) in
            (same P).1 (x, (All-sort_staged P g.staged).1 y),
      ),
    )
