-- ===== src/Recovery/Ranged/Winner.antt =====
-- The winner among the entries that the parts have for a key.
use bytecaskdb.Prelude.{
  ltb, ◌==◌, if◌then◌else◌, Bool-cases, All, Pairwise, Any, ok, ◌≤◌, ◌≡◌, ◌≢◌, refl, ◌∙◌, inl, inr,
  List, [], ◌∷◌, arith,
}
use bytecaskdb.KeyDirEntry.{KeyDirEntry, kde_newer}
use bytecaskdb.KeyDirEntry
use bytecaskdb.Recovery.Ranged.{newest_entry}

abbrev pub Distinct : KeyDirEntry → KeyDirEntry → Type 0
Distinct a b = KeyDirEntry.sequence a ≢ KeyDirEntry.sequence b

-- One of the entries, and no entry has a higher sequence.
abbrev pub IsNewestOf : KeyDirEntry → List KeyDirEntry → Type 0
IsNewestOf w es =
    Any (λ e. e ≡ w) es × All (λ e. KeyDirEntry.sequence e ≤ KeyDirEntry.sequence w) es

kde_newer-Distinct :
    (a b : KeyDirEntry)
    → Distinct b a
    → kde_newer a b ≡ ok (ltb (KeyDirEntry.sequence b) (KeyDirEntry.sequence a))
unfolding kde_newer
kde_newer-Distinct a b h = elim (Bool-cases (KeyDirEntry.sequence a == KeyDirEntry.sequence b)) [
  | inl same ↦ absurd (ground (arith, same, h))
  | inr other ↦ rw other refl
]

takes :
    (first e : KeyDirEntry) (es : List KeyDirEntry)
    → Distinct first e
    → newest_entry first (e ∷ es)
      ≡ newest_entry
          (if ltb (KeyDirEntry.sequence first) (KeyDirEntry.sequence e) then e else first)
          es
unfolding newest_entry
takes first e es h = rw (kde_newer-Distinct e first h) refl

-- When no two of a key's entries share a sequence, `newest_entry` returns one of them, and none of them has
-- a higher sequence.
pub newest_entry-IsNewestOf :
    (first : KeyDirEntry) (es : List KeyDirEntry)
    → Pairwise Distinct (first ∷ es)
    → (w : KeyDirEntry) × (newest_entry first es ≡ ok w) × IsNewestOf w (first ∷ es)
newest_entry-IsNewestOf first [] h =
    (first, unfold newest_entry in refl, (inl refl, (omega arith, tt)))
newest_entry-IsNewestOf first (e ∷ es) ((apart, aparts), (others, rest)) =
    let step = takes first e es apart in
    elim (Bool-cases (ltb (KeyDirEntry.sequence first) (KeyDirEntry.sequence e))) [
      | inl higher ↦
          let (w, is, (one, (below, belows))) = newest_entry-IsNewestOf e es (others, rest) in
          let step' : newest_entry first (e ∷ es) ≡ newest_entry e es = rw higher at step in
          let up : KeyDirEntry.sequence first ≤ KeyDirEntry.sequence w =
            ground (arith, higher, below) in
          (w, step' ∙ is, (inr one, (up, (below, belows))))
      | inr lower ↦
          let (w, is, (one, (below, belows))) = newest_entry-IsNewestOf first es (aparts, rest) in
          let step' : newest_entry first (e ∷ es) ≡ newest_entry first es = rw lower at step in
          let up : KeyDirEntry.sequence e ≤ KeyDirEntry.sequence w = ground (arith, lower, below) in
          (w, step' ∙ is, (past one, (below, (up, belows))))
    ]
  where
    past : {w : KeyDirEntry} → Any (λ x. x ≡ w) (first ∷ es) → Any (λ x. x ≡ w) (first ∷ e ∷ es)
    past (inl is) = inl is
    past (inr a) = inr (inr a)
