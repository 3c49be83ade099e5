-- ===== src/Recovery/Ranged/Cursors.antt =====
-- The cursors of a range: what they sit on, what they would find for a key, and what a step changes.
use bytecaskdb.Prelude.{
  if◌then◌else◌, Bool-cases, length, drop, ◌+◌, ◌≡◌, refl, sym, ap, subst, ◌∙◌, inl, inr, Bool,
  true, false, not, Option, none, some, List, [], ◌∷◌, ◌++◌, arith,
}
use bytecaskdb.KeyOrder.{Bytes, key_lt, key_eq, key_eq_iff, key_lt_total, key_lt_of_le}
use bytecaskdb.KeyDir.{Bindings, lookup, Above, IsAscending}
use bytecaskdb.KeyDir.Sorted.{Above-trans, lookup-Above}
use bytecaskdb.KeyDirEntry.{KeyDirEntry}
use bytecaskdb.Recovery.Ranged.{entry_on, live_head, step_on, entries_on}

-- The key is below the range's end.
abbrev pub below : Option Bytes → Bytes → Bool
below none key = true
below (some hi) key = key_lt key hi

-- What the parts bind a key to.
unfoldable pub found : Bytes → List Bindings → List KeyDirEntry
found key [] = []
found key (c ∷ cs) =
    let rest = found key cs in elim (lookup key c) [ none ↦ rest | some e ↦ e ∷ rest ]

-- No binding of the cursor is below the key.
abbrev pub AtLeast : Bytes → Bindings → Type 0
AtLeast key [] = Unit
AtLeast key ((k, e) ∷ bs) = key_lt k key ≡ false

-- A key below all of an ascending list is not in it.
pub lookup-lower :
    (key k : Bytes) (e : KeyDirEntry) (bs : Bindings)
    → key_lt key k ≡ true
    → IsAscending ((k, e) ∷ bs)
    → lookup key ((k, e) ∷ bs) ≡ none
lookup-lower key k e bs h asc = lookup-Above key ((k, e) ∷ bs) (h, Above-trans key k bs h asc.0)

lookup-first :
    (key k : Bytes) (e : KeyDirEntry) (bs : Bindings)
    → key_eq k key ≡ true
    → lookup key ((k, e) ∷ bs) ≡ some e
unfolding lookup
lookup-first key k e bs h = rw h refl

lookup-rest :
    (key k : Bytes) (e : KeyDirEntry) (bs : Bindings)
    → key_eq k key ≡ false
    → lookup key ((k, e) ∷ bs) ≡ lookup key bs
unfolding lookup
lookup-rest key k e bs h = rw h refl

-- The first binding is live if its key is below the end.
live_head-below :
    (hi : Option Bytes) (k : Bytes) (e : KeyDirEntry) (bs : Bindings)
    → live_head hi ((k, e) ∷ bs) ≡ (if below hi k then some (k, e) else none)
unfolding live_head
live_head-below none k e bs = refl
live_head-below (some hi) k e bs = refl

-- A key at or above one that is past the end is past the end.
pub below-le :
    (hi : Option Bytes) (k key : Bytes)
    → below hi k ≡ false
    → below hi key ≡ true
    → key_lt key k ≡ true
below-le none k key h b = cc
below-le (some hi) k key h b = key_lt_of_le key hi k b h

entry_on-none :
    (hi : Option Bytes) (key : Bytes) (c : Bindings)
    → live_head hi c ≡ none
    → entry_on hi key c ≡ none
unfolding entry_on
entry_on-none hi key c is = rw (is, entry_on) refl

pub entry_on-some :
    (hi : Option Bytes) (key k : Bytes) (e : KeyDirEntry) (c : Bindings)
    → live_head hi c ≡ some (k, e)
    → entry_on hi key c ≡ (if key_eq k key then some e else none)
unfolding entry_on
entry_on-some hi key k e c is = rw (is, entry_on) refl

pub live_here :
    (hi : Option Bytes) (k : Bytes) (e : KeyDirEntry) (bs : Bindings)
    → below hi k ≡ true
    → live_head hi ((k, e) ∷ bs) ≡ some (k, e)
live_here hi k e bs live =
    live_head-below hi k e bs ∙ ap (λ b. if b then some (k, e) else none) live

pub dead_here :
    (hi : Option Bytes) (k : Bytes) (e : KeyDirEntry) (bs : Bindings)
    → below hi k ≡ false
    → live_head hi ((k, e) ∷ bs) ≡ none
dead_here hi k e bs past =
    live_head-below hi k e bs ∙ ap (λ b. if b then some (k, e) else none) past

-- On a live key that the cursor has not passed, it gives what it has for the key.
pub entry_on-lookup :
    (hi : Option Bytes) (key : Bytes) (c : Bindings)
    → below hi key ≡ true
    → IsAscending c
    → AtLeast key c
    → entry_on hi key c ≡ lookup key c
entry_on-lookup hi key [] b asc h = unfold entry_on live_head lookup in refl
entry_on-lookup hi key ((k, e) ∷ bs) b asc h = elim (Bool-cases (below hi k)) [
  | inr past ↦
      entry_on-none hi key ((k, e) ∷ bs) (dead_here hi k e bs past)
      ∙ sym (lookup-lower key k e bs (below-le hi k key past b) asc)
  | inl live ↦
      let there = entry_on-some hi key k e ((k, e) ∷ bs) (live_here hi k e bs live) in
      elim (Bool-cases (key_eq k key)) [
        | inl same ↦
            there ∙ ap (λ t. if t then some e else none) same ∙ sym (lookup-first key k e bs same)
        | inr other ↦
            let lower : key_lt key k ≡ true = key_lt_total k key other ∙ ap not h in
            there
            ∙ ap (λ t. if t then some e else none) other
            ∙ sym (lookup-lower key k e bs lower asc)
      ]
]

-- A cursor after its turn, for what it gave.
abbrev pub after_giving : Option KeyDirEntry → Bindings → Bindings
after_giving none c = c
after_giving (some e) c = drop 1 c

abbrev pub given : Option KeyDirEntry → List KeyDirEntry
given none = []
given (some e) = e ∷ []

pub step_on-after :
    (hi : Option Bytes) (key : Bytes) (c : Bindings) (cs : List Bindings) (o : Option KeyDirEntry)
    → entry_on hi key c ≡ o
    → step_on hi key (c ∷ cs) ≡ after_giving o c ∷ step_on hi key cs
unfolding step_on
step_on-after hi key c cs none is = rw (is, step_on) refl
step_on-after hi key c cs (some e) is = rw (is, step_on) refl

pub entries_on-given :
    (hi : Option Bytes) (key : Bytes) (c : Bindings) (cs : List Bindings) (o : Option KeyDirEntry)
    → entry_on hi key c ≡ o
    → entries_on hi key (c ∷ cs) ≡ given o ++ entries_on hi key cs
unfolding entries_on
entries_on-given hi key c cs none is = rw (is, entries_on) refl
entries_on-given hi key c cs (some e) is = rw (is, entries_on) refl

pub found-given :
    (key : Bytes) (c : Bindings) (cs : List Bindings) (o : Option KeyDirEntry)
    → lookup key c ≡ o
    → found key (c ∷ cs) ≡ given o ++ found key cs
unfolding found
found-given key c cs none is = rw (is, found) refl
found-given key c cs (some e) is = rw (is, found) refl

-- What a cursor is after a turn of the key, for what it gave.
abbrev pub IsAfter : Bytes → Bindings → Option KeyDirEntry → Type 0
IsAfter key c o =
    IsAscending (after_giving o c)
    × (lookup key (after_giving o c) ≡ none)
    × ((j : Bytes) → key_eq key j ≡ false → lookup j (after_giving o c) ≡ lookup j c)
    × (length (after_giving o c) + length (given o) ≡ length c)

-- A turn of a key takes it from the cursor, and nothing else.
pub lookup-IsAfter :
    (key : Bytes) (c : Bindings) → IsAscending c → AtLeast key c → IsAfter key c (lookup key c)
lookup-IsAfter key [] asc h = unfold lookup in (tt, refl, λ j o. refl, omega arith)
lookup-IsAfter key ((k, e) ∷ bs) asc h = elim (Bool-cases (key_eq k key)) [
  | inl same ↦
      let is : k ≡ key = (key_eq_iff k key).0 same in
      subst (IsAfter key ((k, e) ∷ bs)) (sym (lookup-first key k e bs same)) (
        asc.1,
        lookup-Above key bs (subst (λ x. Above x bs) is asc.0),
        λ j o.
            let other : key_eq k j ≡ false = ap (λ x. key_eq x j) is ∙ o in
            sym (lookup-rest j k e bs other),
        omega arith,
      )
  | inr other ↦
      let lower : key_lt key k ≡ true = key_lt_total k key other ∙ ap not h in
      let gone = lookup-lower key k e bs lower asc in
      subst (IsAfter key ((k, e) ∷ bs)) (sym gone) (asc, gone, λ j o. refl, omega arith)
]
