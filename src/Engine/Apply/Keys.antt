-- ===== src/Engine/Apply/Keys.antt =====
-- What the writes do to the key directory, as a map from keys.
use mathlib.Core.Option
use bytecaskdb.Format.Bytes.{narrow}
use bytecaskdb.FileStats.{add64}
use bytecaskdb.KeyOrder.{Bytes, key_eq, key_eq_iff, key_lt, key_lt_trans}
use bytecaskdb.KeyDirEntry.{KeyDirEntry, make, sequence, value_size}
use bytecaskdb.KeyDir.{Bindings, lookup, IsAscending}
use bytecaskdb.Engine.State.{Containers, TransientEngineState, patch_stats, note_pending}
use bytecaskdb.Engine.Plan.{WriteOp, point_put, point_del, range_del}
use bytecaskdb.Engine.Validate.Range.{lookup-Above_lt}
use bytecaskdb.Engine.Apply.{apply_del, apply_put, displace, doom, erase_all, place, remove}
use bytecaskdb.Engine.Apply.Sequence.{place_lem, remove_lem}
use bytecaskdb.Prelude.{
  if◌then◌else◌, Bool-cases, Option-cases, length, ok, >>=-eq-ok, ok-injective, ℕ, ◌≡◌, refl, sym,
  ap, subst, ◌∙◌, inl, inr, Bool, true, false, Option, none, some, List, [], ◌∷◌, arith,
}

-- A key's sequence and the size of its value.
abbrev pub View : Type 0
View = Bytes → Option (ℕ × ℕ)

abbrev pub facts : KeyDirEntry → ℕ × ℕ
facts e = (sequence e, value_size e)

-- What a write under a sequence does to a map from keys.
unfoldable pub spec_op : ℕ → WriteOp → View → View
spec_op s (point_put key value) m j = if key_eq key j then some (s, length value) else m j
spec_op s (point_del key) m j = if key_eq key j then none else m j
spec_op s (range_del from to) m j = if key_lt j from then m j else if key_lt j to then none else m j

unfoldable pub spec_ops : ℕ → List WriteOp → View → View
spec_ops s [] m = m
spec_ops s (op ∷ ops) m = spec_ops (add64 s 1) ops (spec_op s op m)

abbrev pub unless_bound : Option KeyDirEntry → Option KeyDirEntry → Option KeyDirEntry
unless_bound none g = g
unless_bound (some _) g = none

erase_then :
    (below same : Bool) (l : Option KeyDirEntry) (e : KeyDirEntry) (g : Option KeyDirEntry)
    → (same ≡ true → below ≡ true)
    → (if below then unless_bound l (if same then none else g) else (if same then none else g))
      ≡ (if below then unless_bound (if same then some e else l) g else g)
erase_then true true none e g h = refl
erase_then true true (some _) e g h = refl
erase_then true false l e g h = refl
erase_then false true l e g h = absurd (cc (h refl))
erase_then false false l e g h = refl

-- A list that ascends from a key past the bound binds nothing below the bound.
none_below :
    (to k j : Bytes) (e : KeyDirEntry) (bs : Bindings)
    → IsAscending ((k, e) ∷ bs)
    → key_lt k to ≡ false
    → key_lt j to ≡ true
    → lookup j ((k, e) ∷ bs) ≡ none
unfolding lookup
none_below to k j e bs asc past below = elim (Bool-cases (key_eq k j)) [
  | inl same ↦ absurd (cc (subst (λ x. key_lt x to ≡ false) ((key_eq_iff k j).0 same) past, below))
  | inr other ↦ rw other (elim (Option-cases (lookup j bs)) [
    | inl absent ↦ absent
    | inr (f, here) ↦
        absurd (cc (key_lt_trans k j to (lookup-Above_lt k j f bs asc.0 here) below, past))
  ])
]

module _ (c : Containers) where
  abbrev pub view : c.keys.Tree → View
  view tree j = Option.map facts (c.keys.get tree j)

  displace-key_dir :
      (n : ℕ) (o : Option KeyDirEntry) (t : TransientEngineState c)
      → (displace c n o t).key_dir ≡ t.key_dir
  unfolding displace patch_stats
  displace-key_dir n none t = refl
  displace-key_dir n (some e) t = refl

  pub note_pending-key_dir :
      (offset seq : ℕ) (key : Bytes) (n : ℕ) (t : TransientEngineState c)
      → (note_pending c offset seq key n t).key_dir ≡ t.key_dir
  unfolding note_pending
  note_pending-key_dir offset seq key n t = elim (Bool-cases c.keys.reads_keys) [
    | inl reads ↦ rw reads refl
    | inr keyed ↦ rw keyed refl
  ]

  pub apply_put-key_dir :
      (at_ : Option KeyDirEntry) (seq offset : ℕ) (key value : Bytes) (t u : TransientEngineState c)
      → apply_put c at_ seq offset key value t ≡ ok u
      → (e : KeyDirEntry) × (make seq offset t.active_file_id (length value) ≡ ok e)
        × (u.key_dir ≡ (c.keys.put key e t.key_dir).1)
  unfolding apply_put narrow patch_stats
  apply_put-key_dir at_ seq offset key value t u h =
      let (v, p, h₁) = >>=-eq-ok (narrow 32 (length value)) _ h in
      let (e, q, h₂) = >>=-eq-ok (make seq offset t.active_file_id v) _ h₁ in
      let same : v ≡ length value = ground (arith, p) in
      let noted = note_pending c offset seq key v t in
      let placed = place c at_ key e noted.key_dir in
      (
        e,
        subst (λ n. make seq offset t.active_file_id n ≡ ok e) same q,
        ap (λ x. x.key_dir) (sym (ok-injective h₂))
            ∙ displace-key_dir (length key) placed.0 (record noted { key_dir = placed.1 })
            ∙ ap (λ x. x.1) (place_lem c at_ key e noted.key_dir)
            ∙ ap (λ x. (c.keys.put key e x).1) (note_pending-key_dir offset seq key v t),
      )

  pub apply_del-key_dir :
      (at_ : Option KeyDirEntry) (key : Bytes) (t : TransientEngineState c)
      → (apply_del c at_ key t).key_dir ≡ (c.keys.erase key t.key_dir).1
  unfolding apply_del patch_stats
  apply_del-key_dir at_ key t =
      let removed = remove c at_ key t.key_dir in
      displace-key_dir (length key) removed.0 (record t { key_dir = removed.1 })
      ∙ ap (λ x. x.1) (remove_lem c at_ key t.key_dir)

  pub doom-key_dir :
      (to : Bytes) (bs : Bindings) (t : TransientEngineState c)
      → (doom c to bs t).1.key_dir ≡ t.key_dir
  unfolding doom
  doom-key_dir to [] t = refl
  doom-key_dir to ((k, e) ∷ bs) t = elim (Bool-cases (key_lt k to)) [
    | inr past ↦ rw past refl
    | inl inside ↦ rw inside (
        doom-key_dir to bs (displace c (length k) (some e) t)
        ∙ displace-key_dir (length k) (some e) t)
  ]

  -- What the erased keys leave.
  pub get-erase_doomed :
      (to : Bytes) (bs : Bindings) (t : TransientEngineState c) (tree : c.keys.Tree) (j : Bytes)
      → IsAscending bs
      → c.keys.get (erase_all c (doom c to bs t).0 tree) j ≡ (
          if key_lt j to then unless_bound (lookup j bs) (c.keys.get tree j) else c.keys.get tree j)
  unfolding doom erase_all lookup
  get-erase_doomed to [] t tree j asc = elim (Bool-cases (key_lt j to)) [
    | inl below ↦ rw below refl
    | inr past ↦ rw past refl
  ]
  get-erase_doomed to ((k, e) ∷ bs) t tree j asc = elim (Bool-cases (key_lt k to)) [
    | inr past ↦ rw past (elim (Bool-cases (key_lt j to)) [
      | inr out ↦ rw out refl
      | inl below ↦ rw below (
          ap (λ l. unless_bound l (c.keys.get tree j))
            (sym (none_below to k j e bs asc past below)))
    ])
    | inl inside ↦
        let same_below : key_eq k j ≡ true → key_lt j to ≡ true =
          λ same. subst (λ x. key_lt x to ≡ true) ((key_eq_iff k j).0 same) inside in
        rw inside (
          get-erase_doomed to bs (displace c (length k) (some e) t) (c.keys.erase k tree).1 j asc.1
          ∙ rw (c.keys.get-erase k j tree) (
              erase_then (key_lt j to) (key_eq k j) (lookup j bs) e (c.keys.get tree j) same_below))
  ]
