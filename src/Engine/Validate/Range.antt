-- ===== src/Engine/Validate/Range.antt =====
-- `range_changed` decides whether a range holds the same versions in the head and in a snapshot.
use mathlib.Core.Option
use bytecaskdb.KeyOrder.{
  Bytes, key_lt, key_eq, key_eq_iff, key_eq_refl, key_lt_trans, key_lt_irrefl,
}
use bytecaskdb.KeyDirEntry.{KeyDirEntry, sequence}
use bytecaskdb.KeyDir.{Bindings, KeyDir, lookup, Above, IsAscending}
use bytecaskdb.Engine.State.{Containers, EngineState, TransientEngineState}
use bytecaskdb.Engine.Validate.{seq_or_zero, head_scan, snap_scan, range_changed}
use bytecaskdb.Prelude.{
  ◌==◌, Bool-cases, Option-cases, ℕ, ◌<◌, ◌≡◌, refl, sym, ap, subst, ◌∙◌, ◌≢◌, ◌⊎◌, inl, inr, true,
  false, Option, none, some, [], ◌∷◌, arith,
}

-- The sequence under which a tree holds a key.
abbrev pub version : Option KeyDirEntry → Option ℕ
version e = Option.map sequence e

-- Sequence 0 is below every sequence that the engine assigns.
abbrev pub HasSequences : (d : KeyDir) → d.Tree → Type 0
HasSequences d t = (k : Bytes) (e : KeyDirEntry) → d.get t k ≡ some e → 0 < sequence e

-- A key changes between two trees exactly when the sequences that stand for its entries differ.
pub version_of_seq :
    (a b : Option KeyDirEntry)
    → ((e : KeyDirEntry) → a ≡ some e → 0 < sequence e)
    → ((e : KeyDirEntry) → b ≡ some e → 0 < sequence e)
    → seq_or_zero a ≡ seq_or_zero b
    → version a ≡ version b
version_of_seq none none ha hb h = refl
version_of_seq none (some e) ha hb h = absurd (omega (arith, hb e refl))
version_of_seq (some e) none ha hb h = absurd (omega (arith, ha e refl))
version_of_seq (some e) (some f) ha hb h = ap some h

pub seq_of_version :
    (a b : Option KeyDirEntry) → version a ≡ version b → seq_or_zero a ≡ seq_or_zero b
seq_of_version none none h = refl
seq_of_version none (some e) h = cc
seq_of_version (some e) none h = cc
seq_of_version (some e) (some f) h = cc

pub lookup_at_head : (k : Bytes) (e : KeyDirEntry) (bs : Bindings) → lookup k ((k, e) ∷ bs) ≡ some e
unfolding lookup
lookup_at_head k e bs = rw (key_eq_refl k)

-- What the tail binds is above the head.
pub lookup-Above_lt :
    (j k : Bytes) (e : KeyDirEntry) (bs : Bindings)
    → Above j bs
    → lookup k bs ≡ some e
    → key_lt j k ≡ true
unfolding lookup
lookup-Above_lt j k e [] h l = cc
lookup-Above_lt j k e ((i, f) ∷ bs) h l = elim (Bool-cases (key_eq i k)) [
  | inl same ↦ subst (λ x. key_lt j x ≡ true) ((key_eq_iff i k).0 same) h.0
  | inr other ↦ lookup-Above_lt j k e bs h.1 (rw other at l)
]

lookup_in_tail :
    (j k : Bytes) (e f : KeyDirEntry) (bs : Bindings)
    → Above j bs
    → lookup k bs ≡ some e
    → lookup k ((j, f) ∷ bs) ≡ some e
lookup_in_tail j k e f bs h l = elim (Bool-cases (key_eq j k)) [
  | inl same ↦ cc (
    subst (λ x. key_lt j x ≡ true) (sym ((key_eq_iff j k).0 same)) (lookup-Above_lt j k e bs h l),
    key_lt_irrefl j,
  )
  | inr other ↦ unfold lookup in rw other l
]

module _ (c : Containers) where
  -- A key in the range whose version differs.
  abbrev pub Differs : TransientEngineState c → EngineState c → Bytes → Bytes → Type 0
  Differs t snap from to =
      (k : Bytes) × (key_lt k from ≡ false)
      × (key_lt k to ≡ true)
      × (version (c.keys.get t.key_dir k) ≢ version (c.keys.get snap.key_dir k))

  abbrev pub Unchanged : TransientEngineState c → EngineState c → Bytes → Bytes → Type 0
  Unchanged t snap from to =
      (k : Bytes)
      → key_lt k from ≡ false
      → key_lt k to ≡ true
      → version (c.keys.get t.key_dir k) ≡ version (c.keys.get snap.key_dir k)

  head_scan-none :
      (snap : EngineState c) (to : Bytes) (bs : Bindings)
      → IsAscending bs
      → head_scan c snap to bs ≡ none
      → (k : Bytes) (e : KeyDirEntry) → lookup k bs ≡ some e
      → key_lt k to ≡ true
      → sequence e ≡ seq_or_zero (c.keys.get snap.key_dir k)
  unfolding head_scan lookup
  head_scan-none snap to [] asc h k e l b = cc
  head_scan-none snap to ((j, f) ∷ bs) asc h k e l b = elim (Bool-cases (key_eq j k)) [
    | inl same ↦
        let jk : j ≡ k = (key_eq_iff j k).0 same in
        let jb : key_lt j to ≡ true = subst (λ x. key_lt x to ≡ true) (sym jk) b in
        let fe : f ≡ e = ground (arith, l, same) in
        subst (λ x. sequence e ≡ seq_or_zero (c.keys.get snap.key_dir x)) jk
          (subst (λ x. sequence x ≡ seq_or_zero (c.keys.get snap.key_dir j)) fe
            (ground (arith, h, jb)))
    | inr other ↦
        let kl : lookup k bs ≡ some e = rw other at l in
        let jb : key_lt j to ≡ true = key_lt_trans j k to (lookup-Above_lt j k e bs asc.0 kl) b in
        head_scan-none snap to bs asc.1 (ground (arith, h, jb)) k e kl b
  ]

  head_scan_past :
      (snap : EngineState c) (to j : Bytes) (f : KeyDirEntry) (bs : Bindings)
      → key_lt j to ≡ false
      → head_scan c snap to ((j, f) ∷ bs) ≡ none
  unfolding head_scan
  head_scan_past snap to j f bs past = rw past

  head_scan_next :
      (snap : EngineState c) (to j : Bytes) (f : KeyDirEntry) (bs : Bindings)
      → key_lt j to ≡ true
      → (sequence f == seq_or_zero (c.keys.get snap.key_dir j)) ≡ true
      → head_scan c snap to ((j, f) ∷ bs) ≡ head_scan c snap to bs
  unfolding head_scan
  head_scan_next snap to j f bs jb same = rw (jb, same)

  head_scan-some :
      (snap : EngineState c) (to : Bytes) (bs : Bindings) (r : ℕ)
      → IsAscending bs
      → head_scan c snap to bs ≡ some r
      → (k : Bytes) × (e : KeyDirEntry) × (lookup k bs ≡ some e)
        × (key_lt k to ≡ true)
        × (sequence e ≢ seq_or_zero (c.keys.get snap.key_dir k))
  head_scan-some snap to [] r asc h = unfold head_scan in cc
  head_scan-some snap to ((j, f) ∷ bs) r asc h = elim (Bool-cases (key_lt j to)) [
    | inr past ↦ cc (head_scan_past snap to j f bs past, h)
    | inl jb ↦ elim (Bool-cases (sequence f == seq_or_zero (c.keys.get snap.key_dir j))) [
      | inr differs ↦ (j, f, lookup_at_head j f bs, jb, λ e. ground (arith, differs, e))
      | inl same ↦
          let (k, e, l, b, n) =
            head_scan-some snap to bs r asc.1 (sym (head_scan_next snap to j f bs jb same) ∙ h) in
          (k, e, lookup_in_tail j k e f bs asc.0 l, b, n)
    ]
  ]

  snap_scan-none :
      (t : TransientEngineState c) (to : Bytes) (bs : Bindings)
      → IsAscending bs
      → snap_scan c t to bs ≡ none
      → (k : Bytes) (e : KeyDirEntry) → lookup k bs ≡ some e
      → key_lt k to ≡ true
      → c.keys.get t.key_dir k ≢ none
  unfolding snap_scan lookup
  snap_scan-none t to [] asc h k e l b n = cc
  snap_scan-none t to ((j, f) ∷ bs) asc h k e l b n = elim (Bool-cases (key_eq j k)) [
    | inl same ↦
        let jk : j ≡ k = (key_eq_iff j k).0 same in
        let jb : key_lt j to ≡ true = subst (λ x. key_lt x to ≡ true) (sym jk) b in
        let gone : c.keys.get t.key_dir j ≡ none =
          subst (λ x. c.keys.get t.key_dir x ≡ none) (sym jk) n in
        ground (arith, h, jb, gone)
    | inr other ↦
        let kl : lookup k bs ≡ some e = rw other at l in
        let jb : key_lt j to ≡ true = key_lt_trans j k to (lookup-Above_lt j k e bs asc.0 kl) b in
        snap_scan-none t to bs asc.1 (ground (arith, h, jb)) k e kl b n
  ]

  snap_scan_past :
      (t : TransientEngineState c) (to j : Bytes) (f : KeyDirEntry) (bs : Bindings)
      → key_lt j to ≡ false
      → snap_scan c t to ((j, f) ∷ bs) ≡ none
  unfolding snap_scan
  snap_scan_past t to j f bs past = rw past

  snap_scan_next :
      (t : TransientEngineState c) (to j : Bytes) (f : KeyDirEntry) (bs : Bindings)
      → key_lt j to ≡ true
      → {g : KeyDirEntry} → c.keys.get t.key_dir j ≡ some g
      → snap_scan c t to bs ≡ snap_scan c t to ((j, f) ∷ bs)
  unfolding snap_scan
  snap_scan_next t to j f bs jb here = rw jb (rw (here, snap_scan))

  snap_scan-some :
      (t : TransientEngineState c) (to : Bytes) (bs : Bindings) (r : ℕ)
      → IsAscending bs
      → snap_scan c t to bs ≡ some r
      → (k : Bytes) × (e : KeyDirEntry) × (lookup k bs ≡ some e)
        × (key_lt k to ≡ true)
        × (c.keys.get t.key_dir k ≡ none)
  snap_scan-some t to [] r asc h = unfold snap_scan in cc
  snap_scan-some t to ((j, f) ∷ bs) r asc h = elim (Bool-cases (key_lt j to)) [
    | inr past ↦ cc (snap_scan_past t to j f bs past, h)
    | inl jb ↦ elim (Option-cases (c.keys.get t.key_dir j)) [
      | inl gone ↦ (j, f, lookup_at_head j f bs, jb, gone)
      | inr (g, here) ↦
          let (k, e, l, b, n) =
            snap_scan-some t to bs r asc.1 (snap_scan_next t to j f bs jb here ∙ h) in
          (k, e, lookup_in_tail j k e f bs asc.0 l, b, n)
    ]
  ]

  bound_here :
      (d : KeyDir) (tree : d.Tree) (from k : Bytes)
      → key_lt k from ≡ false
      → lookup k (d.lower_bound tree from) ≡ d.get tree k
  bound_here d tree from k h = d.lookup-lower_bound tree from k ∙ rw h

  bound_inverse :
      (d : KeyDir) (tree : d.Tree) (from k : Bytes) (e : KeyDirEntry)
      → lookup k (d.lower_bound tree from) ≡ some e
      → (key_lt k from ≡ false) × (d.get tree k ≡ some e)
  bound_inverse d tree from k e h = ground (arith, d.lookup-lower_bound tree from k)

  range_changed_parts :
      (t : TransientEngineState c) (snap : EngineState c) (from to : Bytes)
      → range_changed c t snap from to ≡ none
      → (head_scan c snap to (c.keys.lower_bound t.key_dir from) ≡ none)
        × (snap_scan c t to (c.keys.lower_bound snap.key_dir from) ≡ none)
  unfolding range_changed
  range_changed_parts t snap from to h = (ground arith, ground arith)

  range_changed_either :
      (t : TransientEngineState c) (snap : EngineState c) (from to : Bytes) (r : ℕ)
      → range_changed c t snap from to ≡ some r
      → ((q : ℕ) × (head_scan c snap to (c.keys.lower_bound t.key_dir from) ≡ some q))
        ⊎ ((q : ℕ) × (snap_scan c t to (c.keys.lower_bound snap.key_dir from) ≡ some q))
  range_changed_either t snap from to r h =
      elim (Option-cases (head_scan c snap to (c.keys.lower_bound t.key_dir from))) [
        | inr found ↦ inl found
        | inl not_head ↦ inr (r, unfold range_changed in rw (not_head, range_changed) at h)
      ]

  -- No answer means that every key of the range has one version in both.
  pub range_changed-none :
      (t : TransientEngineState c) (snap : EngineState c) (from to : Bytes)
      → HasSequences c.keys t.key_dir
      → HasSequences c.keys snap.key_dir
      → range_changed c t snap from to ≡ none
      → Unchanged t snap from to
  range_changed-none t snap from to ht hs h k kf kt =
      let (hn, sn) = range_changed_parts t snap from to h in
      elim (Option-cases (c.keys.get t.key_dir k)) [
        | inr (e, here) ↦
            version_of_seq (c.keys.get t.key_dir k) (c.keys.get snap.key_dir k) (ht k) (hs k) (
              ap seq_or_zero here
              ∙ head_scan-none snap to (c.keys.lower_bound t.key_dir from)
                  (c.keys.lower_bound-IsAscending t.key_dir from) hn k e
                  (bound_here c.keys t.key_dir from k kf ∙ here) kt)
        | inl gone ↦ elim (Option-cases (c.keys.get snap.key_dir k)) [
          | inl gone' ↦ rw gone (rw gone')
          | inr (e, there) ↦ absurd (
              snap_scan-none t to (c.keys.lower_bound snap.key_dir from)
                (c.keys.lower_bound-IsAscending snap.key_dir from) sn k e
                (bound_here c.keys snap.key_dir from k kf ∙ there) kt gone)
        ]
      ]

  -- An answer means that some key of the range has not.
  pub range_changed-some :
      (t : TransientEngineState c) (snap : EngineState c) (from to : Bytes) (r : ℕ)
      → range_changed c t snap from to ≡ some r
      → Differs t snap from to
  range_changed-some t snap from to r h = elim (range_changed_either t snap from to r h) [
    | inl (q, head) ↦
        let (k, e, l, b, n) =
          head_scan-some snap to (c.keys.lower_bound t.key_dir from) q
            (c.keys.lower_bound-IsAscending t.key_dir from) head in
        let (kf, here) = bound_inverse c.keys t.key_dir from k e l in
        (
          k,
          kf,
          b,
          λ v. n (
              sym (ap seq_or_zero here)
              ∙ seq_of_version (c.keys.get t.key_dir k) (c.keys.get snap.key_dir k) v),
        )
    | inr (q, missing) ↦
        let (k, e, l, b, n) =
          snap_scan-some t to (c.keys.lower_bound snap.key_dir from) q
            (c.keys.lower_bound-IsAscending snap.key_dir from) missing in
        let (kf, there) = bound_inverse c.keys snap.key_dir from k e l in
        (k, kf, b, λ v. cc (n, there, v))
  ]
