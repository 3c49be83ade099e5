-- ===== src/KeyDir/Sorted.antt =====
-- A key directory as the sorted list of its bindings, which meets the interface. It is the
-- reference for tests; the keyed build's operations by location decline, and so do these.
use bytecaskdb.KeyOrder.{
  Bytes, key_lt, key_eq, key_eq_iff, key_lt_irrefl, key_lt_trans, key_lt_total, key_lt_of_le,
}
use bytecaskdb.KeyDirEntry.{KeyDirEntry}
use bytecaskdb.KeyDir.{Bindings, lookup, Above, IsAscending, KeyDir}
use bytecaskdb.Prelude.{
  if◌then◌else◌, Bool-cases, ◌≡◌, refl, sym, ap, subst, ◌∙◌, ◌⊎◌, inl, inr, true, false, not, none,
  some, [], ◌∷◌, arith,
}

-- An ascending list of bindings.
pub record SortedList : Type 0 where
  pub bindings : Bindings
  pub ascending : IsAscending bindings

unfoldable pub insert : Bytes → KeyDirEntry → Bindings → Bindings
insert k e [] = (k, e) ∷ []
insert k e ((j, f) ∷ bs) =
    let rest = insert k e bs in
    if key_lt j k then (j, f) ∷ rest else if key_eq j k then (k, e) ∷ bs else (k, e) ∷ ((j, f) ∷ bs)

unfoldable pub remove : Bytes → Bindings → Bindings
remove k [] = []
remove k ((j, f) ∷ bs) = let rest = remove k bs in if key_eq j k then bs else (j, f) ∷ rest

unfoldable pub from_bound : Bytes → Bindings → Bindings
from_bound k [] = []
from_bound k ((j, f) ∷ bs) = if key_lt j k then from_bound k bs else (j, f) ∷ bs

key_eq_of_lt : (a b : Bytes) → key_lt a b ≡ true → (key_eq a b ≡ false) × (key_eq b a ≡ false)
key_eq_of_lt a b h = (
  apart a b (λ e. cc (key_lt_irrefl b, subst (λ x. key_lt x b ≡ true) e h)),
  apart b a (λ e. cc (key_lt_irrefl b, subst (λ x. key_lt x b ≡ true) (sym e) h)),
)
  where
    apart : (x y : Bytes) → (x ≡ y → ⊥) → key_eq x y ≡ false
    apart x y n = elim (Bool-cases (key_eq x y)) [
      | inl same ↦ absurd (n ((key_eq_iff x y).0 same))
      | inr other ↦ other
    ]

pub Above-trans : (k j : Bytes) (bs : Bindings) → key_lt k j ≡ true → Above j bs → Above k bs
Above-trans k j [] l h = tt
Above-trans k j ((i, f) ∷ bs) l h = (key_lt_trans k j i l h.0, Above-trans k j bs l h.1)

pub lookup-Above : (k : Bytes) (bs : Bindings) → Above k bs → lookup k bs ≡ none
unfolding lookup
lookup-Above k [] h = refl
lookup-Above k ((j, f) ∷ bs) h = rw ((key_eq_of_lt k j h.0).1) (lookup-Above k bs h.1)

Above-insert :
    (i k : Bytes) (e : KeyDirEntry) (bs : Bindings)
    → key_lt i k ≡ true
    → Above i bs
    → Above i (insert k e bs)
unfolding insert
Above-insert i k e [] l h = (l, tt)
Above-insert i k e ((j, f) ∷ bs) l h = elim (Bool-cases (key_lt j k)) [
  | inl below ↦ rw below (h.0, Above-insert i k e bs l h.1)
  | inr over ↦ elim (Bool-cases (key_eq j k)) [
    | inl same ↦ rw over (rw same (l, h.1))
    | inr other ↦ rw over (rw other (l, h))
  ]
]

pub insert-IsAscending :
    (k : Bytes) (e : KeyDirEntry) (bs : Bindings) → IsAscending bs → IsAscending (insert k e bs)
unfolding insert
insert-IsAscending k e [] h = (tt, tt)
insert-IsAscending k e ((j, f) ∷ bs) h = elim (Bool-cases (key_lt j k)) [
  | inl below ↦ rw below (Above-insert j k e bs below h.0, insert-IsAscending k e bs h.1)
  | inr over ↦ elim (Bool-cases (key_eq j k)) [
    | inl same ↦ rw over (rw same (subst (λ x. Above x bs) ((key_eq_iff j k).0 same) h.0, h.1))
    | inr other ↦
        let l : key_lt k j ≡ true = key_lt_total j k other ∙ ap not over in
        rw over (rw other ((l, Above-trans k j bs l h.0), h))
  ]
]

Above-remove : (i k : Bytes) (bs : Bindings) → Above i bs → Above i (remove k bs)
unfolding remove
Above-remove i k [] h = tt
Above-remove i k ((j, f) ∷ bs) h = elim (Bool-cases (key_eq j k)) [
  | inl same ↦ rw same h.1
  | inr other ↦ rw other (h.0, Above-remove i k bs h.1)
]

pub remove-IsAscending : (k : Bytes) (bs : Bindings) → IsAscending bs → IsAscending (remove k bs)
unfolding remove
remove-IsAscending k [] h = tt
remove-IsAscending k ((j, f) ∷ bs) h = elim (Bool-cases (key_eq j k)) [
  | inl same ↦ rw same h.1
  | inr other ↦ rw other (Above-remove j k bs h.0, remove-IsAscending k bs h.1)
]

pub from_bound-IsAscending :
    (k : Bytes) (bs : Bindings) → IsAscending bs → IsAscending (from_bound k bs)
unfolding from_bound
from_bound-IsAscending k [] h = tt
from_bound-IsAscending k ((j, f) ∷ bs) h = elim (Bool-cases (key_lt j k)) [
  | inl below ↦ rw below (from_bound-IsAscending k bs h.1)
  | inr over ↦ rw over h
]

pub lookup-insert :
    (k j : Bytes) (e : KeyDirEntry) (bs : Bindings)
    → lookup j (insert k e bs) ≡ (if key_eq k j then some e else lookup j bs)
unfolding lookup insert
lookup-insert k j e [] = refl
lookup-insert k j e ((i, f) ∷ bs) =
    ground (
      arith,
      lookup-insert k j e bs,
      key_eq_iff i k,
      key_eq_iff i j,
      key_eq_iff k j,
      key_lt_irrefl k,
    )

pub lookup-remove :
    (k j : Bytes) (bs : Bindings)
    → IsAscending bs
    → lookup j (remove k bs) ≡ (if key_eq k j then none else lookup j bs)
unfolding lookup remove
lookup-remove k j [] h = ground arith
lookup-remove k j ((i, f) ∷ bs) h = ground (
  arith,
  lookup-remove k j bs h.1,
  key_eq_iff i k,
  key_eq_iff i j,
  key_eq_iff k j,
  lookup-Above i bs h.0,
)

pub lookup-from_bound :
    (from j : Bytes) (bs : Bindings)
    → IsAscending bs
    → lookup j (from_bound from bs) ≡ (if key_lt j from then none else lookup j bs)
unfolding from_bound
lookup-from_bound from j [] h = unfold lookup in ground arith
lookup-from_bound from j ((i, f) ∷ bs) h = elim (Bool-cases (key_lt i from)) [
  | inl below ↦
      rw below (lookup-from_bound from j bs h.1 ∙ (unfold lookup in ground (arith, key_eq_iff i j)))
  | inr over ↦ rw over (unbounded over (Bool-cases (key_lt j from)))
]
  where
    unbounded :
        key_lt i from ≡ false
        → ((key_lt j from ≡ true) ⊎ (key_lt j from ≡ false))
        → lookup j ((i, f) ∷ bs) ≡ (if key_lt j from then none else lookup j ((i, f) ∷ bs))
    unbounded over (inr past) = rw past
    unbounded over (inl before) =
        let l : key_lt j i ≡ true = key_lt_of_le j from i before over in
        rw before (lookup-Above j ((i, f) ∷ bs) (l, Above-trans j i bs l h.0))

-- `kKeyDirReadsKeys` is false for a directory that keeps its keys.
abbrev pub sorted_list : KeyDir
sorted_list = record {
  Tree = SortedList;
  reads_keys = false;
  get = λ t k. lookup k t.bindings;
  put = λ k e t. (
    lookup k t.bindings,
    record {
      bindings = insert k e t.bindings;
      ascending = insert-IsAscending k e t.bindings t.ascending;
    },
  );
  erase = λ k t. (
    lookup k t.bindings,
    record {
      bindings = remove k t.bindings;
      ascending = remove-IsAscending k t.bindings t.ascending;
    },
  );
  lower_bound = λ t from. from_bound from t.bindings;
  holds = λ t k at_. false;
  put_at = λ k at_ e t. none;
  erase_at = λ k at_ t. none;
  hit-put = λ k e t. refl;
  hit-erase = λ k t. refl;
  get-put = λ k j e t. lookup-insert k j e t.bindings;
  get-erase = λ k j t. lookup-remove k j t.bindings t.ascending;
  lower_bound-IsAscending = λ t from. from_bound-IsAscending from t.bindings t.ascending;
  lookup-lower_bound = λ t from key. lookup-from_bound from key t.bindings t.ascending;
  holds-get = λ k at_ t h. cc;
  put_at-put = λ k at_ e t t' h. cc;
  erase_at-erase = λ k at_ t t' h. cc;
}
