-- ===== src/Recovery/Ranged/Settled.antt =====
-- What decides a key, as propositions: its newest entry, the point tombstones on it and the range
-- tombstones over it.
use bytecaskdb.Prelude.{
  ltb, Bool-cases, All, All-map, Any, Pairwise, ok-injective, ℕ, ◌<◌, ◌≡◌, ◌↔◌, ◌⊎◌, refl, sym,
  subst, ◌∙◌, inl, inr, true, false, not, Option, none, some, List, [], ◌∷◌, arith, ap,
}
use bytecaskdb.KeyOrder.{
  Bytes, key_lt, key_eq, key_eq_iff, key_lt_irrefl, key_lt_total, key_lt_trans,
}
use bytecaskdb.KeyDirEntry.{KeyDirEntry}
use bytecaskdb.KeyDirEntry
use bytecaskdb.Recovery.Needed.{RangeTombstone}
use bytecaskdb.Recovery.Merge.{Tombstones, is_suppressed}
use bytecaskdb.Recovery.Merge.Covered.{IsCovered, is_suppressed-IsCovered}
use bytecaskdb.Recovery.Ranged.{is_deleted, skip_below, tomb_on}
use bytecaskdb.Recovery.Ranged.Merge.{Agree, Resolves, is_hidden, tomb_at}
use bytecaskdb.Recovery.Ranged.Winner.{Distinct, IsNewestOf, newest_entry-IsNewestOf}

-- Some point tombstone is on the key and has a higher sequence.
abbrev pub IsDeleted : Bytes → ℕ → Tombstones → Type 0
IsDeleted key seq tombs = Any (λ t. (t.0 ≡ key) × (seq < t.1.seq)) tombs

-- What a key is bound to, for its entries and for what hides an entry of a given sequence.
abbrev pub Settles : (ℕ → Type 0) → List KeyDirEntry → Option KeyDirEntry → Type 0
Settles Hidden [] o = o ≡ none
Settles Hidden (first ∷ es) o =
    (w : KeyDirEntry) × IsNewestOf w (first ∷ es)
    × (Hidden (KeyDirEntry.sequence w) → o ≡ none)
    × ((Hidden (KeyDirEntry.sequence w) → ⊥) → o ≡ some w)

abbrev pub AllOver : Bytes → Tombstones → Type 0
AllOver key tombs = All (λ t. key_lt key t.0 ≡ true) tombs

-- The tombstones are in key order, at most one to a key.
abbrev pub IsKeyed : Tombstones → Type 0
IsKeyed [] = Unit
IsKeyed ((k, slot) ∷ ts) = AllOver k ts × IsKeyed ts

IsDeleted-over :
    (key : Bytes) (seq : ℕ) (ts : Tombstones) → AllOver key ts → IsDeleted key seq ts → ⊥
IsDeleted-over key seq [] over d = d
IsDeleted-over key seq ((k, slot) ∷ ts) over (inl (is, more)) =
    let wrong : key_lt key key ≡ true = subst (λ x. key_lt key x ≡ true) is over.0 in
    cc (wrong, key_lt_irrefl key)
IsDeleted-over key seq ((k, slot) ∷ ts) over (inr d) = IsDeleted-over key seq ts over.1 d

-- The tombstone that the cursor is at decides.
deleted :
    (key : Bytes) (seq : ℕ) (ts : Tombstones)
    → is_deleted seq (tomb_at key ts) ≡ true
    → IsDeleted key seq ts
unfolding is_deleted tomb_on skip_below
deleted key seq [] h = absurd (cc h)
deleted key seq ((k, slot) ∷ ts) h = elim (Bool-cases (key_lt k key)) [
  | inl low ↦
      let later : is_deleted seq (tomb_at key ts) ≡ true = rw low at h in
      inr (deleted key seq ts later)
  | inr high ↦ elim (Bool-cases (key_eq k key)) [
    | inl same ↦
        let over : ltb seq slot.seq ≡ true = rw (high, same) at h in
        inl ((key_eq_iff k key).0 same, ground (arith, over))
    | inr other ↦ let wrong : false ≡ true = rw (high, other) at h in absurd (cc wrong)
  ]
]

is_deleted-keyed :
    (key : Bytes) (seq : ℕ) (ts : Tombstones)
    → IsKeyed ts
    → IsDeleted key seq ts
    → is_deleted seq (tomb_at key ts) ≡ true
unfolding is_deleted tomb_on skip_below
is_deleted-keyed key seq [] keyed d = absurd d
is_deleted-keyed key seq ((k, slot) ∷ ts) keyed (inl (is, more)) =
    let high : key_lt k key ≡ false =
      subst (λ x. key_lt x key ≡ false) (sym is) (key_lt_irrefl key) in
    let same : key_eq k key ≡ true = (key_eq_iff k key).1 is in
    rw (high, same) (ground (arith, more))
is_deleted-keyed key seq ((k, slot) ∷ ts) keyed (inr d) = elim (Bool-cases (key_lt k key)) [
  | inl low ↦ rw low (is_deleted-keyed key seq ts keyed.1 d)
  | inr high ↦ elim (Bool-cases (key_eq k key)) [
    | inl same ↦
        let over : AllOver key ts = subst (λ x. AllOver x ts) ((key_eq_iff k key).0 same) keyed.0 in
        absurd (IsDeleted-over key seq ts over d)
    | inr other ↦
        let up : key_lt key k ≡ true = key_lt_total k key other ∙ ap not high in
        let over =
          All-map (λ t. key_lt k t.0 ≡ true) (λ t. key_lt key t.0 ≡ true)
            (λ t l. key_lt_trans key k t.0 up l) ts keyed.0 in
        absurd (IsDeleted-over key seq ts over d)
  ]
]

-- Either kind of tombstone.
abbrev pub Hides : Bytes → Tombstones → List RangeTombstone → ℕ → Type 0
Hides key tombs ranges seq = IsDeleted key seq tombs ⊎ IsCovered key seq ranges

is_hidden-Hides :
    (key : Bytes) (w : KeyDirEntry) (tombs : Tombstones) (ranges : List RangeTombstone)
    → IsKeyed tombs
    → (is_hidden key w (tomb_at key tombs) ranges ≡ true)
      ↔ Hides key tombs ranges (KeyDirEntry.sequence w)
is_hidden-Hides key w tombs ranges keyed =
    let seq = KeyDirEntry.sequence w in
    let (covered, suppressed) = is_suppressed-IsCovered key seq ranges in
    (
      λ h. elim (Bool-cases (is_deleted seq (tomb_at key tombs))) [
        | inl d ↦ inl (deleted key seq tombs d)
        | inr no_d ↦ let s : is_suppressed key seq ranges ≡ true = rw no_d at h in inr (covered s)
      ],
      λ h. elim h [
        | inl d ↦ let is = is_deleted-keyed key seq tombs keyed d in ground (arith, is)
        | inr c ↦ let is = suppressed c in ground (arith, is)
      ],
    )

pub Distinct-Agree : (es : List KeyDirEntry) → Pairwise Distinct es → Agree es
Distinct-Agree [] h = tt
Distinct-Agree (first ∷ es) h = let (w, is, _) = newest_entry-IsNewestOf first es h in (w, is)

-- What the merge does is what the newest entry and the tombstones decide.
pub Resolves-Settles :
    (key : Bytes) (tombs : Tombstones) (ranges : List RangeTombstone) (es : List KeyDirEntry)
    (o : Option KeyDirEntry)
    → IsKeyed tombs
    → Pairwise Distinct es
    → Resolves key (tomb_at key tombs) ranges es o
    → Settles (Hides key tombs ranges) es o
Resolves-Settles key tombs ranges [] o keyed apart r = r
Resolves-Settles key tombs ranges (first ∷ es) o keyed apart (w, wins, is) =
    let (v, also, newest) = newest_entry-IsNewestOf first es apart in
    let same : v ≡ w = ok-injective (sym also ∙ wins) in
    let (hides, hidden) = is_hidden-Hides key w tombs ranges keyed in
    (
      w,
      subst (λ x. IsNewestOf x (first ∷ es)) same newest,
      λ h. let on = hidden h in is ∙ (rw on refl),
      λ bare. elim (Bool-cases (is_hidden key w (tomb_at key tombs) ranges)) [
        | inl on ↦ absurd (bare (hides on))
        | inr off ↦ is ∙ (rw off refl)
      ],
    )

-- What hides the same settles the same.
pub Settles-same :
    (Hidden Hidden' : ℕ → Type 0) (es : List KeyDirEntry) (o : Option KeyDirEntry)
    → ((s : ℕ) → Hidden s ↔ Hidden' s)
    → Settles Hidden es o
    → Settles Hidden' es o
Settles-same Hidden Hidden' [] o alike h = h
Settles-same Hidden Hidden' (first ∷ es) o alike (w, newest, gone, here) =
    let (to, fro) = alike (KeyDirEntry.sequence w) in
    (w, newest, λ h. gone (fro h), λ bare. here (λ h. bare (to h)))
