-- ===== src/Recovery/Ranged/Slices.antt =====
-- The slices together: whatever ascending splitters the parts are cut at, the bindings that are
-- concatenated are those of one merge of the parts.
use bytecaskdb.Prelude.{
  ltb, if◌then◌else◌, Bool-cases, All, ok, ℕ, suc, ◌≡◌, refl, sym, ap, subst, ◌∙◌, inl, inr, true,
  false, ◌&&◌, ◌||◌, Option, none, some, List, [], ◌∷◌, ◌++◌, arith,
}
use bytecaskdb.KeyOrder.{Bytes, key_lt, key_lt_of_le, key_lt_of_not_lt}
use bytecaskdb.KeyDir.{Bindings, lookup, IsAscending}
use bytecaskdb.KeyDir.Sorted.{from_bound, from_bound-IsAscending, lookup-from_bound}
use bytecaskdb.KeyDirEntry.{KeyDirEntry, sequence}
use bytecaskdb.KeyDirEntry
use bytecaskdb.Recovery.Needed.{RangeTombstone, covers}
use bytecaskdb.Recovery.Merge.{is_suppressed}
use bytecaskdb.Recovery.Build.{RecoveryResult}
use bytecaskdb.Recovery.Ranged.{
  reaching, tombstones_of, RangeOut, ends_above, is_deleted, skip_below, starts_below, tomb_on,
}
use bytecaskdb.Recovery.Ranged.Load.{parts_from, Union, bindings_in, merge_range}
use bytecaskdb.Recovery.Ranged.Cursors.{below, found, found-given, given}
use bytecaskdb.Recovery.Ranged.Merge.{Agree, Resolves, skip_below-skip_below, tomb_at}
use bytecaskdb.Recovery.Ranged.Loop.{range_loop-RunOf}

-- The parts' bindings.
abbrev pub dirs : List RecoveryResult → List Bindings
dirs [] = []
dirs (part ∷ parts) = part.key_dir ∷ dirs parts

-- From the start of a slice on, a cursor finds what its part has.
found-parts_from :
    (lo key : Bytes) (parts : List RecoveryResult)
    → All IsAscending (dirs parts)
    → found key (parts_from lo parts) ≡ (if key_lt key lo then [] else found key (dirs parts))
unfolding parts_from
found-parts_from lo key [] asc = elim (Bool-cases (key_lt key lo)) [
  | inl low ↦ rw low (unfold found in refl)
  | inr high ↦ rw high refl
]
found-parts_from lo key (part ∷ parts) asc =
    let rest = found-parts_from lo key parts asc.1 in
    let bound = lookup-from_bound lo key part.key_dir asc.0 in
    let c = from_bound lo part.key_dir in
    let cs = parts_from lo parts in
    elim (Bool-cases (key_lt key lo)) [
      | inl low ↦
          let gone : lookup key c ≡ none = rw low at bound in
          let none_left : found key cs ≡ [] = rw low at rest in
          rw low (found-given key c cs none gone ∙ none_left)
      | inr high ↦
          let same : lookup key c ≡ lookup key part.key_dir = rw high at bound in
          let others : found key cs ≡ found key (dirs parts) = rw high at rest in
          rw high (
            found-given key c cs (lookup key part.key_dir) same
            ∙ ap (λ l. given (lookup key part.key_dir) ++ l) others
            ∙ sym (found-given key part.key_dir (dirs parts) (lookup key part.key_dir) refl))
    ]

parts_from-IsAscending :
    (lo : Bytes) (parts : List RecoveryResult)
    → All IsAscending (dirs parts)
    → All IsAscending (parts_from lo parts)
unfolding parts_from
parts_from-IsAscending lo [] asc = tt
parts_from-IsAscending lo (part ∷ parts) asc =
    (from_bound-IsAscending lo part.key_dir asc.0, parts_from-IsAscending lo parts asc.1)

-- A range tombstone that does not reach into the slice covers no key of it.
unreached :
    (lo : Bytes) (hi : Option Bytes) (rt : RangeTombstone) (key : Bytes)
    → key_lt key lo ≡ false
    → below hi key ≡ true
    → (starts_below hi rt.start && ends_above lo rt.end_) ≡ false
    → covers rt key ≡ false
unreached lo hi rt key low bel h = elim (Bool-cases (starts_below hi rt.start)) [
  | inr starts ↦
      let past = starts_past hi key rt.start bel starts in unfold covers in ground (arith, past)
  | inl starts ↦
      let ends : ends_above lo rt.end_ ≡ false = ground (arith, starts, h) in
      let over = ends_before lo key rt.end_ low ends in unfold covers in ground (arith, over)
]
  where
    starts_past :
        (hi : Option Bytes) (key start : Bytes)
        → below hi key ≡ true
        → starts_below hi start ≡ false
        → key_lt key start ≡ true
    starts_past none key start b s = absurd (unfold starts_below in cc s)
    starts_past (some e) key start b s = key_lt_of_le key e start b (unfold starts_below in s)

    ends_before :
        (lo key end_ : Bytes)
        → key_lt key lo ≡ false
        → ends_above lo end_ ≡ false
        → key_lt key end_ ≡ false
    ends_before [] key end_ l e = absurd (unfold ends_above in cc e)
    ends_before (b ∷ bs) key end_ l e = elim (Bool-cases (key_lt key end_)) [
      | inr over ↦ over
      | inl under ↦
          let wrong : key_lt (b ∷ bs) end_ ≡ true = key_lt_of_not_lt (b ∷ bs) key end_ l under in
          let right : key_lt (b ∷ bs) end_ ≡ false = unfold ends_above in e in
          absurd (cc (wrong, right))
    ]

is_suppressed-reaching :
    (lo : Bytes) (hi : Option Bytes) (key : Bytes) (seq i : ℕ) (rts : List RangeTombstone)
    → key_lt key lo ≡ false
    → below hi key ≡ true
    → is_suppressed key seq (tombstones_of (reaching lo hi i rts)) ≡ is_suppressed key seq rts
unfolding reaching tombstones_of is_suppressed
is_suppressed-reaching lo hi key seq i [] low bel = refl
is_suppressed-reaching lo hi key seq i (rt ∷ rts) low bel =
    let rest = is_suppressed-reaching lo hi key seq (suc i) rts low bel in
    elim (Bool-cases (starts_below hi rt.start && ends_above lo rt.end_)) [
      | inl reaches ↦ rw reaches (ap (λ b. (ltb seq rt.seq && covers rt key) || b) rest)
      | inr apart ↦
          let off = unreached lo hi rt key low bel apart in
          rw apart (rest ∙ sym (ground (arith, off)))
    ]

Resolves-reaching :
    (lo : Bytes) (hi : Option Bytes) (key : Bytes) (tomb : Option ℕ) (rts : List RangeTombstone)
    (es : List KeyDirEntry) (o : Option KeyDirEntry)
    → key_lt key lo ≡ false
    → below hi key ≡ true
    → Resolves key tomb (tombstones_of (reaching lo hi 0 rts)) es o
    → Resolves key tomb rts es o
Resolves-reaching lo hi key tomb rts [] o low bel r = r
Resolves-reaching lo hi key tomb rts (first ∷ es) o low bel (w, wins, is) = (
  w,
  wins,
  is
      ∙ ap (λ b. if is_deleted (KeyDirEntry.sequence w) tomb || b then none else some w)
          (is_suppressed-reaching lo hi key (KeyDirEntry.sequence w) 0 rts low bel),
)

-- What a slice holds: for its keys what the parts decide, and no other key.
abbrev pub Slice : Bytes → Option Bytes → Union → List RecoveryResult → Bindings → Type 0
Slice lo hi u parts run =
    ((key : Bytes)
      → key_lt key lo ≡ false
      → below hi key ≡ true
      → Resolves key (tomb_at key u.tombstones) u.ranges (found key (dirs parts)) (lookup key run))
    × ((key : Bytes) → key_lt key lo ≡ true → lookup key run ≡ none)
    × ((key : Bytes) → below hi key ≡ false → lookup key run ≡ none)

pub merge_range-Slice :
    (lo : Bytes) (hi : Option Bytes) (u : Union) (parts : List RecoveryResult)
    → All IsAscending (dirs parts)
    → ((key : Bytes) → Agree (found key (dirs parts)))
    → (out : RangeOut) × (merge_range lo hi u parts ≡ ok out) × Slice lo hi u parts out.run
merge_range-Slice lo hi u parts asc agree =
    let cs = parts_from lo parts in
    let tombs = skip_below lo u.tombstones in
    let (out, is, (ins, outs)) =
      range_loop-RunOf (bindings_in cs) hi tombs (reaching lo hi 0 u.ranges) cs
        (parts_from-IsAscending lo parts asc) from_agree (omega arith) in
    (
      out,
      unfold merge_range in is,
      (
        λ key low bel.
            let there = ins key bel in
            let same : found key cs ≡ found key (dirs parts) =
              rw low at (found-parts_from lo key parts asc) in
            let tomb = ap (tomb_on key) (skip_below-skip_below lo key u.tombstones low) in
            Resolves-reaching lo hi key (tomb_at key u.tombstones) u.ranges (found key (dirs parts))
              (lookup key out.run) low bel
              (subst
                (λ t.
                  Resolves key t (tombstones_of (reaching lo hi 0 u.ranges))
                    (found key (dirs parts)) (lookup key out.run))
                tomb
                (subst
                  (λ l.
                    Resolves key (tomb_at key tombs) (tombstones_of (reaching lo hi 0 u.ranges)) l
                      (lookup key out.run))
                  same there)),
        λ key low. elim (Bool-cases (below hi key)) [
          | inr past ↦ outs key past
          | inl bel ↦
              let none_found : found key cs ≡ [] = rw low at (found-parts_from lo key parts asc) in
              subst
                (λ l.
                  Resolves key (tomb_at key tombs) (tombstones_of (reaching lo hi 0 u.ranges)) l
                    (lookup key out.run))
                none_found (ins key bel)
        ],
        outs,
      ),
    )
  where
    from_agree : (key : Bytes) → Agree (found key (parts_from lo parts))
    from_agree key = elim (Bool-cases (key_lt key lo)) [
      | inl low ↦
          let none_found : found key (parts_from lo parts) ≡ [] =
            rw low at (found-parts_from lo key parts asc) in
          subst Agree (sym none_found) tt
      | inr high ↦
          let same : found key (parts_from lo parts) ≡ found key (dirs parts) =
            rw high at (found-parts_from lo key parts asc) in
          subst Agree (sym same) (agree key)
    ]
