-- ===== src/Recovery/Ranged/Merge.antt =====
-- What the merge of a range comes to: for each key, what its entries in the parts and the tombstones
-- decide.
use bytecaskdb.Prelude.{
  if◌then◌else◌, Bool-cases, All, ok, ℕ, ◌≡◌, refl, sym, ap, subst, ◌∙◌, inl, inr, Bool, true,
  false, ◌||◌, Option, none, some, List, [], ◌∷◌,
}
use bytecaskdb.KeyOrder.{Bytes, key_lt, key_eq, key_eq_iff, key_eq_refl, key_lt_of_le}
use bytecaskdb.KeyDir.{Bindings, lookup, IsAscending}
use bytecaskdb.KeyDirEntry.{KeyDirEntry, sequence}
use bytecaskdb.KeyDirEntry
use bytecaskdb.Recovery.Needed.{RangeTombstone}
use bytecaskdb.Recovery.Merge.{Tombstones, is_suppressed}
use bytecaskdb.Recovery.Ranged.{
  RangeOut, append_winner, is_deleted, is_dropped, newest_entry, note_matches, skip_below, step_on,
  tomb_on, tombstones_of, turn,
}
use bytecaskdb.Recovery.Ranged.Load.{}
use bytecaskdb.Recovery.Ranged.Cursors.{AtLeast, below, found}
use bytecaskdb.Recovery.Ranged.Turn.{Turned, found-lower}

-- The sequence of a key's tombstone.
abbrev pub tomb_at : Bytes → Tombstones → Option ℕ
tomb_at key tombs = tomb_on key (skip_below key tombs)

-- The entries of a key have a newest one: no two of them that are compared share a sequence.
abbrev pub Agree : List KeyDirEntry → Type 0
Agree [] = Unit
Agree (first ∷ es) = (w : KeyDirEntry) × (newest_entry first es ≡ ok w)

abbrev pub is_hidden : Bytes → KeyDirEntry → Option ℕ → List RangeTombstone → Bool
is_hidden key w tomb ranges =
    is_deleted (KeyDirEntry.sequence w) tomb || is_suppressed key (KeyDirEntry.sequence w) ranges

-- What a key is bound to, for its entries: the newest, unless a tombstone is newer.
abbrev pub Resolves :
    Bytes → Option ℕ → List RangeTombstone → List KeyDirEntry → Option KeyDirEntry → Type 0
Resolves key tomb ranges [] o = o ≡ none
Resolves key tomb ranges (first ∷ es) o =
    (w : KeyDirEntry) × (newest_entry first es ≡ ok w)
    × (o ≡ (if is_hidden key w tomb ranges then none else some w))

-- Passing what is below a key first changes nothing for a key that is not below it.
pub skip_below-skip_below :
    (low key : Bytes) (tombs : Tombstones)
    → key_lt key low ≡ false
    → skip_below key (skip_below low tombs) ≡ skip_below key tombs
unfolding skip_below
skip_below-skip_below low key [] h = refl
skip_below-skip_below low key ((k, slot) ∷ ts) h = elim (Bool-cases (key_lt k low)) [
  | inl under ↦
      let below_key : key_lt k key ≡ true = key_lt_of_le k low key under h in
      rw (under, below_key) (skip_below-skip_below low key ts h)
  | inr over ↦ rw over refl
]

-- Noting what is needed appends nothing.
run-note_matches :
    (key : Bytes) (tomb : Option ℕ) (rts : List (ℕ × RangeTombstone)) (es : List KeyDirEntry)
    (out : RangeOut)
    → (note_matches key tomb rts es out).run ≡ out.run
unfolding note_matches
run-note_matches key tomb rts [] out = refl
run-note_matches key tomb rts (e ∷ es) out = run-note_matches key tomb rts es out

abbrev kept_run : Bytes → KeyDirEntry → Bool → Bindings → Bindings
kept_run key w hidden run = if hidden then run else (key, w) ∷ run

-- A turn over entries that agree appends the newest, unless it is hidden.
pub turn_run :
    (key : Bytes) (tomb : Option ℕ) (rts : List (ℕ × RangeTombstone)) (first w : KeyDirEntry)
    (es : List KeyDirEntry) (out : RangeOut)
    → newest_entry first es ≡ ok w
    → (out' : RangeOut) × (turn key tomb rts (first ∷ es) (ok out) ≡ ok out')
      × (out'.run ≡ kept_run key w (is_hidden key w tomb (tombstones_of rts)) out.run)
unfolding turn is_dropped append_winner
turn_run key tomb rts first w es out is =
    let hidden = is_hidden key w tomb (tombstones_of rts) in
    let kept : RangeOut = if hidden then out else append_winner key w out in
    (
      note_matches key tomb rts (first ∷ es) kept,
      rw is refl,
      run-note_matches key tomb rts (first ∷ es) kept
          ∙ (elim (Bool-cases hidden) [ inl h ↦ rw h refl | inr h ↦ rw h refl ]),
    )

lookup-kept_run :
    (b key : Bytes) (w : KeyDirEntry) (hidden : Bool) (run : Bindings)
    → key_eq b key ≡ false
    → lookup key (kept_run b w hidden run) ≡ lookup key run
unfolding lookup
lookup-kept_run b key w true run h = refl
lookup-kept_run b key w false run h = rw h refl

lookup-kept_here :
    (b : Bytes) (w : KeyDirEntry) (hidden : Bool) (run : Bindings)
    → lookup b run ≡ none
    → lookup b (kept_run b w hidden run) ≡ (if hidden then none else some w)
unfolding lookup
lookup-kept_here b w true run h = h
lookup-kept_here b w false run h = rw (key_eq_refl b) refl

-- What the run of a range is, for the cursors that it starts from.
abbrev pub RunOf :
    Option Bytes → Tombstones → List RangeTombstone → List Bindings → Bindings → Type 0
RunOf hi tombs ranges cs run =
    ((key : Bytes)
      → below hi key ≡ true
      → Resolves key (tomb_at key tombs) ranges (found key cs) (lookup key run))
    × ((key : Bytes) → below hi key ≡ false → lookup key run ≡ none)

pub RunOf-nothing :
    (hi : Option Bytes) (tombs : Tombstones) (ranges : List RangeTombstone) (cs : List Bindings)
    → ((key : Bytes) → below hi key ≡ true → found key cs ≡ [])
    → RunOf hi tombs ranges cs []
unfolding lookup
RunOf-nothing hi tombs ranges cs none_found = (
  λ key b.
      subst (λ l. Resolves key (tomb_at key tombs) ranges l none) (sym (none_found key b)) refl,
  λ key b. refl,
)

-- A turn in front of the rest of the range.
pub RunOf-turn :
    (hi : Option Bytes) (b : Bytes) (tombs : Tombstones) (ranges : List RangeTombstone)
    (cs : List Bindings) (first w : KeyDirEntry) (es : List KeyDirEntry) (run : Bindings)
    → below hi b ≡ true
    → All IsAscending cs
    → All (AtLeast b) cs
    → Turned hi b cs
    → found b cs ≡ first ∷ es
    → newest_entry first es ≡ ok w
    → RunOf hi (skip_below b tombs) ranges (step_on hi b cs) run
    → RunOf hi tombs ranges cs (kept_run b w (is_hidden b w (tomb_at b tombs) ranges) run)
RunOf-turn hi b tombs ranges cs first w es run live asc over (gives, ascs, gone, keeps, fewer) is
      wins (ins, outs) =
    let hidden = is_hidden b w (tomb_at b tombs) ranges in
    let gone_b : lookup b run ≡ none =
      subst (λ l. Resolves b (tomb_at b (skip_below b tombs)) ranges l (lookup b run)) gone
        (ins b live) in
    (
      λ key bel. elim (Bool-cases (key_eq b key)) [
        | inl same ↦
            let here : Resolves b (tomb_at b tombs) ranges (found b cs)
                (lookup b (kept_run b w hidden run)) =
              subst
                (λ l. Resolves b (tomb_at b tombs) ranges l (lookup b (kept_run b w hidden run)))
                (sym is) (w, wins, lookup-kept_here b w hidden run gone_b) in
            subst
              (λ k.
                Resolves k (tomb_at k tombs) ranges (found k cs)
                  (lookup k (kept_run b w hidden run)))
              ((key_eq_iff b key).0 same) here
        | inr other ↦
            let there = ins key bel in
            let kept = lookup-kept_run b key w hidden run other in
            elim (Bool-cases (key_lt key b)) [
              | inl lower ↦
                  let none_found = found-lower key b cs lower asc over in
                  let nothing : lookup key run ≡ none =
                    subst
                      (λ l.
                        Resolves key (tomb_at key (skip_below b tombs)) ranges l (lookup key run))
                      (keeps key other ∙ none_found) there in
                  subst
                    (λ l.
                      Resolves key (tomb_at key tombs) ranges l
                        (lookup key (kept_run b w hidden run)))
                    (sym none_found) (kept ∙ nothing)
              | inr no_lower ↦
                  let tomb = ap (tomb_on key) (skip_below-skip_below b key tombs no_lower) in
                  let moved : Resolves key (tomb_at key tombs) ranges (found key cs)
                      (lookup key run) =
                    subst (λ t. Resolves key t ranges (found key cs) (lookup key run)) tomb
                      (subst
                        (λ l.
                          Resolves key (tomb_at key (skip_below b tombs)) ranges l (lookup key run))
                        (keeps key other) there) in
                  subst (λ o. Resolves key (tomb_at key tombs) ranges (found key cs) o) (sym kept)
                    moved
            ]
      ],
      λ key past. elim (Bool-cases (key_eq b key)) [
        | inl same ↦
            let wrong : below hi key ≡ true =
              subst (λ k. below hi k ≡ true) ((key_eq_iff b key).0 same) live in
            absurd (cc (wrong, past))
        | inr other ↦ lookup-kept_run b key w hidden run other ∙ outs key past
      ],
    )
