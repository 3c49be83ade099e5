-- ===== src/Recovery/Ranged/Turn.antt =====
-- A turn of the range merge: the smallest key's entries are what the parts have for it, and the cursors
-- lose them and nothing else.
use bytecaskdb.Prelude.{
  if◌then◌else◌, Bool-cases, Option-cases, length, All, length-append, ◌+◌, ◌≡◌, refl, sym, ap,
  subst, ◌∙◌, inl, inr, true, false, Option, none, some, List, [], ◌∷◌, ◌++◌, arith, All-map,
}
use bytecaskdb.KeyOrder.{
  Bytes, key_lt, key_eq, key_lt_of_le, key_eq_refl, key_lt-asymm, key_lt_irrefl,
}
use bytecaskdb.KeyDir.{Bindings, lookup, IsAscending}
use bytecaskdb.KeyDirEntry.{KeyDirEntry}
use bytecaskdb.Recovery.Ranged.{entries_on, live_head, step_on, best_key, entry_on}
use bytecaskdb.Recovery.Ranged.Load.{bindings_in}
use bytecaskdb.Recovery.Ranged.Cursors.{
  AtLeast, after_giving, below, below-le, entries_on-given, entry_on-lookup, found, found-given,
  given, live_here, lookup-IsAfter, lookup-lower, step_on-after, dead_here, entry_on-some,
}

-- What a turn of the key makes of the cursors.
abbrev pub Turned : Option Bytes → Bytes → List Bindings → Type 0
Turned hi key cs =
    (entries_on hi key cs ≡ found key cs)
    × All IsAscending (step_on hi key cs)
    × (found key (step_on hi key cs) ≡ [])
    × ((j : Bytes) → key_eq key j ≡ false → found j (step_on hi key cs) ≡ found j cs)
    × (bindings_in (step_on hi key cs) + length (entries_on hi key cs) ≡ bindings_in cs)

pub step_on-Turned :
    (hi : Option Bytes) (key : Bytes) (cs : List Bindings)
    → below hi key ≡ true
    → All IsAscending cs
    → All (AtLeast key) cs
    → Turned hi key cs
step_on-Turned hi key [] b asc h =
    unfold entries_on found step_on bindings_in in (refl, tt, refl, λ j o. refl, omega arith)
step_on-Turned hi key (c ∷ cs) b asc h =
    let (gives, ascs, gone, keeps, fewer) = step_on-Turned hi key cs b asc.1 h.1 in
    let (asc', gone', keeps', fewer') = lookup-IsAfter key c asc.0 h.0 in
    let o = lookup key c in
    let sits = entry_on-lookup hi key c b asc.0 h.0 in
    let steps = step_on-after hi key c cs o sits in
    let c' = after_giving o c in
    let cs' = step_on hi key cs in
    let offers = entries_on-given hi key c cs o sits in
    (
      offers ∙ ap (λ l. given o ++ l) gives ∙ sym (found-given key c cs o refl),
      subst (All IsAscending) (sym steps) (asc', ascs),
      ap (found key) steps ∙ found-given key c' cs' none gone' ∙ gone,
      λ j other.
          ap (found j) steps
          ∙ found-given j c' cs' (lookup j c) (keeps' j other)
          ∙ ap (λ l. given (lookup j c) ++ l) (keeps j other)
          ∙ sym (found-given j c cs (lookup j c) refl),
      sizes steps offers fewer fewer',
    )
  where
    sizes :
        step_on hi key (c ∷ cs) ≡ after_giving (lookup key c) c ∷ step_on hi key cs
        → entries_on hi key (c ∷ cs) ≡ given (lookup key c) ++ entries_on hi key cs
        → bindings_in (step_on hi key cs) + length (entries_on hi key cs) ≡ bindings_in cs
        → length (after_giving (lookup key c) c) + length (given (lookup key c)) ≡ length c
        → bindings_in (step_on hi key (c ∷ cs)) + length (entries_on hi key (c ∷ cs))
          ≡ bindings_in (c ∷ cs)
    sizes steps offers fewer fewer' =
        let now : bindings_in (step_on hi key (c ∷ cs))
            ≡ length (after_giving (lookup key c) c) + bindings_in (step_on hi key cs) =
          unfold bindings_in in ap bindings_in steps in
        let before : bindings_in (c ∷ cs) ≡ length c + bindings_in cs =
          unfold bindings_in in refl in
        omega (
          arith,
          now,
          before,
          ap length offers ∙ length-append (given (lookup key c)) (entries_on hi key cs),
          fewer,
          fewer',
        )

-- A key that is below every cursor is in none.
pub found-lower :
    (key low : Bytes) (cs : List Bindings)
    → key_lt key low ≡ true
    → All IsAscending cs
    → All (AtLeast low) cs
    → found key cs ≡ []
found-lower key low [] l asc h = unfold found in refl
found-lower key low (c ∷ cs) l asc h =
    found-given key c cs none (gone c asc.0 h.0) ∙ found-lower key low cs l asc.1 h.1
  where
    gone : (c : Bindings) → IsAscending c → AtLeast low c → lookup key c ≡ none
    gone [] a h = unfold lookup in refl
    gone ((k, e) ∷ bs) a h = lookup-lower key k e bs (key_lt_of_le key low k l h) a

-- With no live cursor, no key of the range is in any.
pub found-dead :
    (hi : Option Bytes) (key : Bytes) (cs : List Bindings)
    → below hi key ≡ true
    → All IsAscending cs
    → All (λ c. live_head hi c ≡ none) cs
    → found key cs ≡ []
found-dead hi key [] b asc h = unfold found in refl
found-dead hi key (c ∷ cs) b asc h =
    found-given key c cs none (gone c asc.0 h.0) ∙ found-dead hi key cs b asc.1 h.1
  where
    gone : (c : Bindings) → IsAscending c → live_head hi c ≡ none → lookup key c ≡ none
    gone [] a d = unfold lookup in refl
    gone ((k, e) ∷ bs) a d = elim (Bool-cases (below hi k)) [
      | inr past ↦ lookup-lower key k e bs (below-le hi k key past b) a
      | inl live ↦ absurd (cc (live_here hi k e bs live, d))
    ]

abbrev pub Offers : Option Bytes → Bytes → List Bindings → Type 0
Offers hi b cs = (e : KeyDirEntry) × (es : List KeyDirEntry) × (entries_on hi b cs ≡ e ∷ es)

-- The smallest key: it is live, no cursor is below it, and some cursor gives an entry of it.
abbrev pub BestIs : Option Bytes → List Bindings → Option Bytes → Type 0
BestIs hi cs none = All (λ c. live_head hi c ≡ none) cs
BestIs hi cs (some b) = (below hi b ≡ true) × All (AtLeast b) cs × Offers hi b cs

-- A cursor that is past the end is not below a key of the range.
AtLeast-dead :
    (hi : Option Bytes) (b : Bytes) (c : Bindings)
    → below hi b ≡ true
    → live_head hi c ≡ none
    → AtLeast b c
AtLeast-dead hi b [] h d = tt
AtLeast-dead hi b ((k, e) ∷ bs) h d = elim (Bool-cases (below hi k)) [
  | inr past ↦ key_lt-asymm b k (below-le hi k b past h)
  | inl live ↦ absurd (cc (live_here hi k e bs live, d))
]

AtLeast-le : (b k : Bytes) (c : Bindings) → key_lt b k ≡ false → AtLeast b c → AtLeast k c
AtLeast-le b k [] h a = tt
AtLeast-le b k ((j, e) ∷ bs) h a = elim (Bool-cases (key_lt j k)) [
  | inr over ↦ over
  | inl under ↦ absurd (cc (key_lt_of_le j k b under h, a))
]

Offers-more :
    (hi : Option Bytes) (b : Bytes) (c : Bindings) (cs : List Bindings)
    → Offers hi b cs
    → Offers hi b (c ∷ cs)
Offers-more hi b c cs (e, es, is) = elim (Option-cases (entry_on hi b c)) [
  | inl off ↦ (e, es, entries_on-given hi b c cs none off ∙ is)
  | inr (f, on) ↦ (f, entries_on hi b cs, entries_on-given hi b c cs (some f) on)
]

Offers-here :
    (hi : Option Bytes) (k : Bytes) (e : KeyDirEntry) (bs : Bindings) (cs : List Bindings)
    → below hi k ≡ true
    → Offers hi k (((k, e) ∷ bs) ∷ cs)
Offers-here hi k e bs cs live =
    let on : entry_on hi k ((k, e) ∷ bs) ≡ some e =
      entry_on-some hi k k e ((k, e) ∷ bs) (live_here hi k e bs live)
      ∙ ap (λ t. if t then some e else none) (key_eq_refl k) in
    (e, entries_on hi k cs, entries_on-given hi k ((k, e) ∷ bs) cs (some e) on)

abbrev smaller : Bytes → Option Bytes → Option Bytes
smaller k none = some k
smaller k (some b) = if key_lt b k then some b else some k

best_key-live :
    (hi : Option Bytes) (k : Bytes) (e : KeyDirEntry) (c : Bindings) (cs : List Bindings)
    (o : Option Bytes)
    → live_head hi c ≡ some (k, e)
    → best_key hi cs ≡ o
    → best_key hi (c ∷ cs) ≡ smaller k o
unfolding best_key
best_key-live hi k e c cs none live is = rw (live, best_key) (rw (is, best_key) refl)
best_key-live hi k e c cs (some b) live is = rw (live, best_key) (rw (is, best_key) refl)

best_key-dead :
    (hi : Option Bytes) (c : Bindings) (cs : List Bindings)
    → live_head hi c ≡ none
    → best_key hi (c ∷ cs) ≡ best_key hi cs
unfolding best_key
best_key-dead hi c cs dead = rw (dead, best_key) refl

BestIs-dead :
    (hi : Option Bytes) (c : Bindings) (cs : List Bindings) (o : Option Bytes)
    → live_head hi c ≡ none
    → BestIs hi cs o
    → BestIs hi (c ∷ cs) o
BestIs-dead hi c cs none d h = (d, h)
BestIs-dead hi c cs (some b) d (live, over, offers) =
    (live, (AtLeast-dead hi b c live d, over), Offers-more hi b c cs offers)

BestIs-live :
    (hi : Option Bytes) (k : Bytes) (e : KeyDirEntry) (bs : Bindings) (cs : List Bindings)
    (o : Option Bytes)
    → below hi k ≡ true
    → BestIs hi cs o
    → BestIs hi (((k, e) ∷ bs) ∷ cs) (smaller k o)
BestIs-live hi k e bs cs none live h = (
  live,
  (
    key_lt_irrefl k,
    All-map (λ c. live_head hi c ≡ none) (AtLeast k) (λ c d. AtLeast-dead hi k c live d) cs h,
  ),
  Offers-here hi k e bs cs live,
)
BestIs-live hi k e bs cs (some b) live (low, over, offers) = elim (Bool-cases (key_lt b k)) [
  | inl less ↦
      rw less (low, (key_lt-asymm b k less, over), Offers-more hi b ((k, e) ∷ bs) cs offers)
  | inr no_less ↦ rw no_less (
    live,
    (key_lt_irrefl k, All-map (AtLeast b) (AtLeast k) (λ c a. AtLeast-le b k c no_less a) cs over),
    Offers-here hi k e bs cs live,
  )
]

pub best_key-BestIs : (hi : Option Bytes) (cs : List Bindings) → BestIs hi cs (best_key hi cs)
best_key-BestIs hi [] = unfold best_key in tt
best_key-BestIs hi ([] ∷ cs) =
    let dead : live_head hi [] ≡ none = unfold live_head in refl in
    subst (BestIs hi ([] ∷ cs)) (sym (best_key-dead hi [] cs dead))
      (BestIs-dead hi [] cs (best_key hi cs) dead (best_key-BestIs hi cs))
best_key-BestIs hi (((k, e) ∷ bs) ∷ cs) = elim (Bool-cases (below hi k)) [
  | inr past ↦
      let dead = dead_here hi k e bs past in
      subst (BestIs hi (((k, e) ∷ bs) ∷ cs)) (sym (best_key-dead hi ((k, e) ∷ bs) cs dead))
        (BestIs-dead hi ((k, e) ∷ bs) cs (best_key hi cs) dead (best_key-BestIs hi cs))
  | inl live ↦
      subst (BestIs hi (((k, e) ∷ bs) ∷ cs))
        (sym
          (best_key-live hi k e ((k, e) ∷ bs) cs (best_key hi cs) (live_here hi k e bs live) refl))
        (BestIs-live hi k e bs cs (best_key hi cs) live (best_key-BestIs hi cs))
]
