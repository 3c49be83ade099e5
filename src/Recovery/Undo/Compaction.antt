-- ===== src/Recovery/Undo/Compaction.antt =====
-- What `is_compaction_of` decides: whether the entries of one sweep stand in another, in order.
use bytecaskdb.Prelude.{
  ltb, Bool-cases, All, Result, ok, >>=-eq-ok, ◌≤◌, ◌<◌, ◌≡◌, refl, sym, ap, subst, ◌>>=◌, ◌⊎◌, inl,
  inr, true, false, Option, none, some, List, [], ◌∷◌, arith, IsSortedBy, All-map,
}
use bytecaskdb.Format.Bytes.{Crc32c}
use bytecaskdb.Format.Entry.{DataEntry}
use bytecaskdb.Recovery.Scan.{Committed, finished, failed, item, scan_committed, throw_on_damage}
use bytecaskdb.Recovery.Hints.{StoredFile}
use bytecaskdb.Recovery.Undo.{arrived, same_entry, past_entry, compaction_loop, is_compaction_of}

-- The committed entries, up to damage.
unfoldable pub entries : Committed → List DataEntry
entries (finished end) = []
entries (failed e) = []
entries (item e off rest) = e ∷ entries rest

-- The sweep meets no damage.
abbrev pub IsWhole : Committed → Type 0
IsWhole (finished end) = Unit
IsWhole (failed e) = ⊥
IsWhole (item e off rest) = IsWhole rest

-- Every entry of the first list stands in the second, in order.
abbrev pub IsSubOf : List DataEntry → List DataEntry → Type 0
IsSubOf [] xs = Unit
IsSubOf (e ∷ es) [] = ⊥
IsSubOf (e ∷ es) (x ∷ xs) = ((same_entry x e ≡ true) × IsSubOf es xs) ⊎ IsSubOf (e ∷ es) xs

IsSubOf-more : (x : DataEntry) (es xs : List DataEntry) → IsSubOf es xs → IsSubOf es (x ∷ xs)
IsSubOf-more x [] xs h = tt
IsSubOf-more x (e ∷ es) xs h = inr h

-- An entry dropped from the copy leaves a part of the source.
pub IsSubOf-tail : (e : DataEntry) (es xs : List DataEntry) → IsSubOf (e ∷ es) xs → IsSubOf es xs
IsSubOf-tail e es [] h = absurd h
IsSubOf-tail e es (x ∷ xs) (inl (same, h)) = IsSubOf-more x es xs h
IsSubOf-tail e es (x ∷ xs) (inr h) = IsSubOf-more x es xs (IsSubOf-tail e es xs h)

-- Where an advance arrives without damage, it is at the rest.
arrived-same : (source rest : Committed) → arrived source ≡ ok rest → source ≡ rest
unfolding arrived
arrived-same (finished end) rest h = cc h
arrived-same (failed thrown) rest h = cc h
arrived-same (item e off source) rest h = cc h

arrived-IsWhole : (source : Committed) → IsWhole source → arrived source ≡ ok source
unfolding arrived
arrived-IsWhole (finished end) w = refl
arrived-IsWhole (failed thrown) w = absurd w
arrived-IsWhole (item e off source) w = refl

found_is :
    (source rest : Committed)
    → (arrived source >>= λ r. ok (some r)) ≡ ok (some rest)
    → source ≡ rest
unfolding arrived
found_is (finished end) rest h = cc h
found_is (failed thrown) rest h = cc h
found_is (item e off source) rest h = cc h

-- What is found leaves the part of the source behind it.
past_entry-some :
    (e : DataEntry) (es : List DataEntry) (source rest : Committed)
    → past_entry e source ≡ ok (some rest)
    → IsSubOf es (entries rest)
    → IsSubOf (e ∷ es) (entries source)
unfolding past_entry entries
past_entry-some e es (finished end) rest h s = cc
past_entry-some e es (failed thrown) rest h s = cc
past_entry-some e es (item cand off source) rest h s =
    elim (Bool-cases (ltb e.sequence cand.sequence)) [
      | inl past ↦
          let no : ◌≡◌ {A = Result (Option Committed)} (ok none) (ok (some rest)) = rw past at h in
          absurd (cc no)
      | inr near ↦ elim (Bool-cases (same_entry cand e)) [
        | inl same ↦
            let here : (arrived source >>= λ r. ok (some r)) ≡ ok (some rest) =
              rw (near, same) at h in
            let is : rest ≡ source = sym (found_is source rest here) in
            inl (same, subst (λ t. IsSubOf es (entries t)) is s)
        | inr other ↦
            let later : past_entry e source ≡ ok (some rest) = rw (near, other) at h in
            inr (past_entry-some e es source rest later s)
      ]
    ]

compaction_loop-IsSubOf :
    (copy source : Committed)
    → compaction_loop copy source ≡ ok true
    → IsSubOf (entries copy) (entries source)
unfolding compaction_loop entries
compaction_loop-IsSubOf (finished end) source h = tt
compaction_loop-IsSubOf (failed e) source h = cc
compaction_loop-IsSubOf (item e off copy) source h =
    let (past, found, more) = >>=-eq-ok (past_entry e source) _ h in
    after past found more (λ rest more_is. compaction_loop-IsSubOf copy rest more_is)
  where
    after :
        (past : Option Committed)
        → past_entry e source ≡ ok past
        → (elim past [ none ↦ ok false | some rest ↦ compaction_loop copy rest ]) ≡ ok true
        → ((rest : Committed)
            → compaction_loop copy rest ≡ ok true
            → IsSubOf (entries copy) (entries rest))
        → IsSubOf (e ∷ entries copy) (entries source)
    after none found more later = absurd (cc more)
    after (some rest) found more later =
        past_entry-some e (entries copy) source rest found (later rest more)

-- A copy that passes the test has only entries of the source.
pub is_compaction_of-IsSubOf :
    (c : Crc32c) (copy source : StoredFile)
    → is_compaction_of c copy source ≡ ok true
    → IsSubOf
        (entries (scan_committed c throw_on_damage copy.bytes))
        (entries (scan_committed c throw_on_damage source.bytes))
unfolding is_compaction_of
is_compaction_of-IsSubOf c copy source h =
    let src = scan_committed c throw_on_damage source.bytes in
    let swept = scan_committed c throw_on_damage copy.bytes in
    let (it, is, loops) = >>=-eq-ok (arrived src) _ h in
    subst (λ t. IsSubOf (entries swept) (entries t)) (sym (arrived-same src it is))
      (compaction_loop-IsSubOf swept it loops)

abbrev pub IsOrdered : Committed → Type 0
IsOrdered source = IsSortedBy (λ e. e.sequence) (entries source)

-- In an ordered source, no later entry is the one whose sequence the source has passed.
IsSubOf-passed :
    (e : DataEntry) (es xs : List DataEntry)
    → All (λ x. e.sequence < x.sequence) xs
    → IsSubOf (e ∷ es) xs
    → ⊥
unfolding same_entry
IsSubOf-passed e es [] h s = s
IsSubOf-passed e es (x ∷ xs) h (inl (same, s)) =
    let lt : e.sequence < x.sequence = h.0 in ground (arith, same, lt)
IsSubOf-passed e es (x ∷ xs) h (inr s) = IsSubOf-passed e es xs h.1 s

-- What the inner loop finds is the first place, so what was a part stays one; where it gives up,
-- the entry is in no later place.
past_entry_decides :
    (e : DataEntry) (es : List DataEntry) (source : Committed)
    → IsWhole source
    → IsOrdered source
    → ((past_entry e source ≡ ok none) × (IsSubOf (e ∷ es) (entries source) → ⊥))
      ⊎ ((rest : Committed) × (past_entry e source ≡ ok (some rest))
          × IsWhole rest
          × IsOrdered rest
          × (IsSubOf (e ∷ es) (entries source) → IsSubOf es (entries rest)))
unfolding past_entry entries
past_entry_decides e es (finished end) w o = inl (refl, λ s. s)
past_entry_decides e es (failed thrown) w o = absurd w
past_entry_decides e es (item cand off source) w o =
    elim (Bool-cases (ltb e.sequence cand.sequence)) [
      | inl past ↦
          let lt : e.sequence < cand.sequence = ground (arith, past) in
          let above =
            All-map (λ x. cand.sequence ≤ x.sequence) (λ x. e.sequence < x.sequence)
              (λ x l. omega (arith, l, lt)) (entries source) o.0 in
          inl (rw past refl, λ s. IsSubOf-passed e es (cand ∷ entries source) (lt, above) s)
      | inr near ↦ elim (Bool-cases (same_entry cand e)) [
        | inl same ↦ inr (
          source,
          rw (near, same) (ap (λ r. r >>= λ x. ok (some x)) (arrived-IsWhole source w)),
          w,
          o.1,
          λ s. elim s [ inl here ↦ here.1 | inr later ↦ IsSubOf-tail e es (entries source) later ],
        )
        | inr other ↦ elim (past_entry_decides e es source w o.1) [
          | inl (none_is, lacks) ↦ inl (
            rw (near, other) none_is,
            λ s. elim s [ inl here ↦ cc (here.0, other) | inr later ↦ lacks later ],
          )
          | inr (rest, found, whole, ordered, part) ↦ inr (
            rest,
            rw (near, other) found,
            whole,
            ordered,
            λ s. elim s [ inl here ↦ cc (here.0, other) | inr later ↦ part later ],
          )
        ]
      ]
    ]

compaction_loop_decides :
    (copy source : Committed)
    → IsWhole copy
    → IsWhole source
    → IsOrdered source
    → ((compaction_loop copy source ≡ ok true) × IsSubOf (entries copy) (entries source))
      ⊎ ((compaction_loop copy source ≡ ok false) × (IsSubOf (entries copy) (entries source) → ⊥))
unfolding compaction_loop entries
compaction_loop_decides (finished end) source wc w o = inl (refl, tt)
compaction_loop_decides (failed e) source wc w o = absurd wc
compaction_loop_decides (item e off copy) source wc w o =
    elim (past_entry_decides e (entries copy) source w o) [
      | inl (none_is, lacks) ↦ inr (rw none_is refl, lacks)
      | inr (rest, found, whole, ordered, part) ↦
          elim (compaction_loop_decides copy rest wc whole ordered) [
            | inl (is_one, sub) ↦
                inl (rw found is_one, past_entry-some e (entries copy) source rest found sub)
            | inr (not_one, lacks) ↦ inr (rw found not_one, λ s. lacks (part s))
          ]
    ]

-- For two files that no damage stops the sweep of, the second one in sequence order, the test
-- answers, and yes exactly if every committed entry of the first stands in the second, in order.
pub is_compaction_of-decides :
    (c : Crc32c) (copy source : StoredFile)
    → IsWhole (scan_committed c throw_on_damage copy.bytes)
    → IsWhole (scan_committed c throw_on_damage source.bytes)
    → IsOrdered (scan_committed c throw_on_damage source.bytes)
    → ((is_compaction_of c copy source ≡ ok true)
        × IsSubOf
            (entries (scan_committed c throw_on_damage copy.bytes))
            (entries (scan_committed c throw_on_damage source.bytes)))
      ⊎ ((is_compaction_of c copy source ≡ ok false)
          × (IsSubOf
                (entries (scan_committed c throw_on_damage copy.bytes))
                (entries (scan_committed c throw_on_damage source.bytes))
              → ⊥))
unfolding is_compaction_of
is_compaction_of-decides c copy source wc w o =
    let it = arrived-IsWhole (scan_committed c throw_on_damage source.bytes) w in
    elim (compaction_loop_decides (scan_committed c throw_on_damage copy.bytes)
      (scan_committed c throw_on_damage source.bytes) wc w o) [
        | inl (is_one, sub) ↦ inl (rw it is_one, sub)
        | inr (not_one, lacks) ↦ inr (rw it not_one, lacks)
      ]
