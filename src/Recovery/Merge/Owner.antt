-- ===== src/Recovery/Merge/Owner.antt =====
-- What a turn of the merge appends: the key's newest entry, unless that is a deletion or a range
-- tombstone hides it.
use bytecaskdb.Prelude.{
  ltb, if◌then◌else◌, Bool-cases, ok, ℕ, ◌≡◌, refl, ap, subst, inl, inr, Bool, true, false, ◌≢◌,
  not, ◌&&◌, ◌||◌, Option, none, some, List, [], ◌∷◌, ◌++◌,
}
use bytecaskdb.KeyOrder.{Bytes, key_eq, key_eq_iff, key_lt}
use bytecaskdb.KeyDir.{Above, Bindings, IsAscending, lookup}
use bytecaskdb.KeyDirEntry.{KeyDirEntry, pack}
use bytecaskdb.KeyDirEntry.Packing.{InLimits, make-InLimits}
use bytecaskdb.Recovery.Needed.{
  Match, RangeTombstone, covers, is_put, mark_ranges, older_put_elsewhere,
}
use bytecaskdb.Format.Types.{EntryType}
use bytecaskdb.Recovery.Merge.Covered.{IsCovered, is_suppressed-IsCovered}
use bytecaskdb.Recovery.Merge.{is_suppressed, kept_binding}

-- The entry fits the fields of a key directory entry.
abbrev pub Fits : Match → Type 0
Fits m = InLimits m.1.sequence m.1.file_offset m.0 m.1.value_size

abbrev pub entry_of : Match → KeyDirEntry
entry_of m = pack m.1.sequence m.1.file_offset m.0 m.1.value_size

abbrev is_kept : Bytes → List RangeTombstone → Match → Bool
is_kept key ranges m = is_put m.1.entry_type && not (is_suppressed key m.1.sequence ranges)

-- What a key should be bound to, for its newest entry: the entry, when it is a put that no newer
-- range tombstone covers.
unfoldable pub owner : Bytes → List RangeTombstone → Option Match → Option KeyDirEntry
owner key ranges none = none
owner key ranges (some m) = if is_kept key ranges m then some (entry_of m) else none

-- Marking a range tombstone as needed hides nothing more.
is_suppressed-mark_ranges :
    (key j : Bytes) (matches : List Match) (seq : ℕ) (ranges : List RangeTombstone)
    → is_suppressed j seq (mark_ranges key matches ranges) ≡ is_suppressed j seq ranges
unfolding is_suppressed mark_ranges covers
is_suppressed-mark_ranges key j matches seq [] = refl
is_suppressed-mark_ranges key j matches seq (rt ∷ rts) =
    let rest = is_suppressed-mark_ranges key j matches seq rts in
    elim (Bool-cases rt.needed) [
      | inl is ↦ rw is (ap (λ b. (ltb seq rt.seq && covers rt j) || b) rest)
      | inr no_need ↦
          elim (Bool-cases (covers rt key && older_put_elsewhere matches rt.seq rt.file_id)) [
            | inl marks ↦
                rw no_need (rw marks (ap (λ b. (ltb seq rt.seq && covers rt j) || b) rest))
            | inr leaves ↦
                rw no_need (rw leaves (ap (λ b. (ltb seq rt.seq && covers rt j) || b) rest))
          ]
    ]

pub owner-mark_ranges :
    (key j : Bytes) (matches : List Match) (ranges : List RangeTombstone) (o : Option Match)
    → owner j (mark_ranges key matches ranges) o ≡ owner j ranges o
unfolding owner
owner-mark_ranges key j matches ranges none = refl
owner-mark_ranges key j matches ranges (some m) =
    ap (λ b. if is_put m.1.entry_type && not b then some (entry_of m) else none)
      (is_suppressed-mark_ranges key j matches m.1.sequence ranges)

abbrev pub bound : Bytes → List RangeTombstone → Match → Bindings
bound key ranges m = if is_kept key ranges m then (key, entry_of m) ∷ [] else []

pub kept_binding-bound :
    (key : Bytes) (m : Match) (ranges : List RangeTombstone)
    → Fits m
    → kept_binding key m ranges ≡ ok (bound key ranges m)
unfolding kept_binding
kept_binding-bound key (fid, w) ranges fits =
    let makes = make-InLimits w.sequence w.file_offset fid w.value_size fits in
    elim (Bool-cases (is_kept key ranges (fid, w))) [
      | inl keeps ↦ rw keeps (rw makes refl)
      | inr drops ↦ rw drops refl
    ]

-- What a turn appends, in front of what later turns do for other keys.
pub lookup-bound :
    (k j : Bytes) (ranges : List RangeTombstone) (m : Match) (out : Bindings)
    → lookup k out ≡ none
    → lookup j (bound k ranges m ++ out)
      ≡ (if key_eq k j then owner k ranges (some m) else lookup j out)
unfolding lookup owner
lookup-bound k j ranges m out gone = elim (Bool-cases (key_eq k j)) [
  | inl same ↦
      let gone_j : lookup j out ≡ none =
        subst (λ x. lookup x out ≡ none) ((key_eq_iff k j).0 same) gone in
      elim (Bool-cases (is_kept k ranges m)) [
        | inl keeps ↦ rw keeps (rw same refl)
        | inr drops ↦ rw drops (rw same gone_j)
      ]
  | inr other ↦ elim (Bool-cases (is_kept k ranges m)) [
    | inl keeps ↦ rw keeps (rw other refl)
    | inr drops ↦ rw drops (rw other refl)
  ]
]

pub Above-bound :
    (j k : Bytes) (ranges : List RangeTombstone) (m : Match) (out : Bindings)
    → key_lt j k ≡ true
    → Above j out
    → Above j (bound k ranges m ++ out)
Above-bound j k ranges m out h a = elim (Bool-cases (is_kept k ranges m)) [
  | inl keeps ↦ rw keeps (h, a)
  | inr drops ↦ rw drops a
]

pub bound-IsAscending :
    (k : Bytes) (ranges : List RangeTombstone) (m : Match) (out : Bindings)
    → Above k out
    → IsAscending out
    → IsAscending (bound k ranges m ++ out)
bound-IsAscending k ranges m out a h = elim (Bool-cases (is_kept k ranges m)) [
  | inl keeps ↦ rw keeps (a, h)
  | inr drops ↦ rw drops h
]

-- What a key is bound to, for the entry that owns it: the entry, if it is a put that no range tombstone
-- covers, and nothing otherwise.
abbrev pub Owns : Bytes → List RangeTombstone → Option Match → Option KeyDirEntry → Type 0
Owns key ranges none o = o ≡ none
Owns key ranges (some m) o =
    (m.1.entry_type ≡ EntryType.put
      → (IsCovered key m.1.sequence ranges → ⊥)
      → o ≡ some (entry_of m))
    × (m.1.entry_type ≢ EntryType.put → o ≡ none)
    × (IsCovered key m.1.sequence ranges → o ≡ none)

keeps_put :
    (t : EntryType) (hidden : Bool) (x : KeyDirEntry)
    → ((t ≡ EntryType.put)
        → (hidden ≡ false)
        → (if is_put t && not hidden then some x else none) ≡ some x)
      × ((t ≢ EntryType.put) → (if is_put t && not hidden then some x else none) ≡ none)
      × ((hidden ≡ true) → (if is_put t && not hidden then some x else none) ≡ none)
unfolding is_put
keeps_put EntryType.put true x = (λ p h. cc h, λ n. refl, λ h. refl)
keeps_put EntryType.put false x = (λ p h. refl, λ n. absurd (n refl), λ h. cc h)
keeps_put EntryType.delete b x = (λ p h. cc p, λ n. refl, λ h. refl)
keeps_put EntryType.range_del b x = (λ p h. cc p, λ n. refl, λ h. refl)
keeps_put EntryType.bulk_begin b x = (λ p h. cc p, λ n. refl, λ h. refl)
keeps_put EntryType.bulk_end b x = (λ p h. cc p, λ n. refl, λ h. refl)
keeps_put EntryType.change_marker b x = (λ p h. cc p, λ n. refl, λ h. refl)
keeps_put (EntryType.unknown y) b x = (λ p h. cc p, λ n. refl, λ h. refl)

pub owner-Owns :
    (key : Bytes) (ranges : List RangeTombstone) (n : Option Match)
    → Owns key ranges n (owner key ranges n)
unfolding owner
owner-Owns key ranges none = refl
owner-Owns key ranges (some m) =
    let hidden = is_suppressed key m.1.sequence ranges in
    let (covered, suppressed) = is_suppressed-IsCovered key m.1.sequence ranges in
    let (keeps, other, hides) = keeps_put m.1.entry_type hidden (entry_of m) in
    (
      λ p bare. keeps p (elim (Bool-cases hidden) [
        | inl is ↦ absurd (bare (covered is))
        | inr open_is ↦ open_is
      ]),
      other,
      λ c. hides (suppressed c),
    )
