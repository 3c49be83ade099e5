-- ===== src/Prelude/Sort.antt =====
-- Sorting a list by a number of each element, as `std::ranges::sort` does with a projection.
use Prim.Native.Nat.{ℕ, ◌≤◌}
use mathlib.Core.Logic.{◌⊎◌, inl, inr}
use mathlib.Core.List.{List, [], ◌∷◌}
use native.Mathlib.Omega.{arith}
use bytecaskdb.Prelude.Tests.{leb, if◌then◌else◌, Bool-cases}
use bytecaskdb.Prelude.Lists.{All}

module _ {ℓ} {A : Type ℓ} where
  -- `R` holds of each two elements, the earlier one first.
  abbrev pub Pairwise {κ} : (A → A → Type κ) → List A → Type κ
  Pairwise R [] = Unit
  Pairwise R (x ∷ xs) = All (R x) xs × Pairwise R xs

  -- Some element satisfies `P`.
  abbrev pub Any : (A → Type 0) → List A → Type 0
  Any P [] = ⊥
  Any P (x ∷ xs) = P x ⊎ Any P xs

  -- `R` holds of some two elements, the earlier one first.
  abbrev pub AnyPair : (A → A → Type 0) → List A → Type 0
  AnyPair R [] = ⊥
  AnyPair R (x ∷ xs) = Any (R x) xs ⊎ AnyPair R xs

  pub All-map {κ μ} :
      (P : A → Type κ) (Q : A → Type μ)
      → ((x : A) → P x → Q x)
      → (xs : List A) → All P xs
      → All Q xs
  All-map P Q f [] h = tt
  All-map P Q f (x ∷ xs) h = (f x h.0, All-map P Q f xs h.1)

  pub All-both {κ μ} :
      (P : A → Type κ) (Q : A → Type μ) (xs : List A)
      → All P xs
      → All Q xs
      → All (λ x. P x × Q x) xs
  All-both P Q [] h k = tt
  All-both P Q (x ∷ xs) h k = ((h.0, k.0), All-both P Q xs h.1 k.1)

  -- Something that holds of every element holds of the one there is.
  pub Any-All : (P Q : A → Type 0) (xs : List A) → All P xs → Any Q xs → Any (λ x. P x × Q x) xs
  Any-All P Q [] h a = a
  Any-All P Q (x ∷ xs) h (inl q) = inl (h.0, q)
  Any-All P Q (x ∷ xs) h (inr a) = inr (Any-All P Q xs h.1 a)

module _ {ℓ} {A : Type ℓ} (by : A → ℕ) where
  abbrev pub insert_by : A → List A → List A
  insert_by x [] = x ∷ []
  insert_by x (y ∷ ys) =
      let rest = insert_by x ys in if leb (by x) (by y) then x ∷ y ∷ ys else y ∷ rest

  abbrev pub sort_by : List A → List A
  sort_by [] = []
  sort_by (x ∷ xs) = insert_by x (sort_by xs)

  abbrev pub IsSortedBy : List A → Type 0
  IsSortedBy xs = Pairwise (λ x y. by x ≤ by y) xs

  All-insert_by {κ} :
      (P : A → Type κ) (x : A) (xs : List A) → P x → All P xs → All P (insert_by x xs)
  All-insert_by P x [] p h = (p, tt)
  All-insert_by P x (y ∷ ys) p h = elim (Bool-cases (leb (by x) (by y))) [
    | inl le ↦ rw le (p, h)
    | inr gt ↦ rw gt (h.0, All-insert_by P x ys p h.1)
  ]

  All-of-insert_by {κ} :
      (P : A → Type κ) (x : A) (xs : List A) → All P (insert_by x xs) → P x × All P xs
  All-of-insert_by P x [] h = h
  All-of-insert_by P x (y ∷ ys) h = elim (Bool-cases (leb (by x) (by y))) [
    | inl le ↦ rw le at h
    | inr gt ↦
        let h' : P y × All P (insert_by x ys) = rw gt at h in
        let r = All-of-insert_by P x ys h'.1 in (r.0, (h'.0, r.1))
  ]

  insert_by-IsSortedBy : (x : A) (xs : List A) → IsSortedBy xs → IsSortedBy (insert_by x xs)
  insert_by-IsSortedBy x [] h = (tt, tt)
  insert_by-IsSortedBy x (y ∷ ys) h = elim (Bool-cases (leb (by x) (by y))) [
    | inl le ↦
        let xy : by x ≤ by y = ground (arith, le) in
        let above =
          All-map (λ z. by y ≤ by z) (λ z. by x ≤ by z) (λ z l. omega (arith, l, xy)) ys h.0 in
        rw le ((xy, above), h)
    | inr gt ↦
        let yx : by y ≤ by x = ground (arith, gt) in
        rw gt (All-insert_by (λ z. by y ≤ by z) x ys yx h.0, insert_by-IsSortedBy x ys h.1)
  ]

  pub sort_by-IsSortedBy : (xs : List A) → IsSortedBy (sort_by xs)
  sort_by-IsSortedBy [] = tt
  sort_by-IsSortedBy (x ∷ xs) = insert_by-IsSortedBy x (sort_by xs) (sort_by-IsSortedBy xs)

  pub All-sort_by {κ} : (P : A → Type κ) (xs : List A) → All P xs → All P (sort_by xs)
  All-sort_by P [] h = tt
  All-sort_by P (x ∷ xs) h = All-insert_by P x (sort_by xs) h.0 (All-sort_by P xs h.1)

  pub All-of-sort_by {κ} : (P : A → Type κ) (xs : List A) → All P (sort_by xs) → All P xs
  All-of-sort_by P [] h = tt
  All-of-sort_by P (x ∷ xs) h =
      let r = All-of-insert_by P x (sort_by xs) h in (r.0, All-of-sort_by P xs r.1)

  Any-of-insert_by :
      (P : A → Type 0) (x : A) (xs : List A) → Any P (insert_by x xs) → P x ⊎ Any P xs
  Any-of-insert_by P x [] h = h
  Any-of-insert_by P x (y ∷ ys) h = elim (Bool-cases (leb (by x) (by y))) [
    | inl le ↦ rw le at h
    | inr gt ↦
        let h' : P y ⊎ Any P (insert_by x ys) = rw gt at h in
        elim h' [
          | inl p ↦ inr (inl p)
          | inr a ↦ elim (Any-of-insert_by P x ys a) [ inl p ↦ inl p | inr b ↦ inr (inr b) ]
        ]
  ]

  pub Any-of-sort_by : (P : A → Type 0) (xs : List A) → Any P (sort_by xs) → Any P xs
  Any-of-sort_by P [] h = h
  Any-of-sort_by P (x ∷ xs) h = elim (Any-of-insert_by P x (sort_by xs) h) [
    | inl p ↦ inl p
    | inr a ↦ inr (Any-of-sort_by P xs a)
  ]

  Pairwise-of-insert_by {κ} :
      (R : A → A → Type κ) (symmetric : (x y : A) → R x y → R y x) (x : A) (xs : List A)
      → Pairwise R (insert_by x xs)
      → All (R x) xs × Pairwise R xs
  Pairwise-of-insert_by R symmetric x [] h = h
  Pairwise-of-insert_by R symmetric x (y ∷ ys) h = elim (Bool-cases (leb (by x) (by y))) [
    | inl le ↦ rw le at h
    | inr gt ↦
        let h' : All (R y) (insert_by x ys) × Pairwise R (insert_by x ys) = rw gt at h in
        let q = All-of-insert_by (R y) x ys h'.0 in
        let r = Pairwise-of-insert_by R symmetric x ys h'.1 in
        ((symmetric y x q.0, r.0), (q.1, r.1))
  ]

  -- A relation that does not care for the order holds before sorting if it does after.
  pub Pairwise-of-sort_by {κ} :
      (R : A → A → Type κ) (symmetric : (x y : A) → R x y → R y x) (xs : List A)
      → Pairwise R (sort_by xs)
      → Pairwise R xs
  Pairwise-of-sort_by R symmetric [] h = tt
  Pairwise-of-sort_by R symmetric (x ∷ xs) h =
      let r = Pairwise-of-insert_by R symmetric x (sort_by xs) h in
      (All-of-sort_by (R x) xs r.0, Pairwise-of-sort_by R symmetric xs r.1)

  AnyPair-of-insert_by :
      (R : A → A → Type 0) (symmetric : (x y : A) → R x y → R y x) (x : A) (xs : List A)
      → AnyPair R (insert_by x xs)
      → Any (R x) xs ⊎ AnyPair R xs
  AnyPair-of-insert_by R symmetric x [] h = h
  AnyPair-of-insert_by R symmetric x (y ∷ ys) h = elim (Bool-cases (leb (by x) (by y))) [
    | inl le ↦ rw le at h
    | inr gt ↦
        let h' : Any (R y) (insert_by x ys) ⊎ AnyPair R (insert_by x ys) = rw gt at h in
        elim h' [
          | inl a ↦ elim (Any-of-insert_by (R y) x ys a) [
            | inl r ↦ inl (inl (symmetric y x r))
            | inr b ↦ inr (inl b)
          ]
          | inr p ↦ elim (AnyPair-of-insert_by R symmetric x ys p) [
            | inl a ↦ inl (inr a)
            | inr b ↦ inr (inr b)
          ]
        ]
  ]

  -- Two elements that are related after sorting are related before.
  pub AnyPair-of-sort_by :
      (R : A → A → Type 0) (symmetric : (x y : A) → R x y → R y x) (xs : List A)
      → AnyPair R (sort_by xs)
      → AnyPair R xs
  AnyPair-of-sort_by R symmetric [] h = h
  AnyPair-of-sort_by R symmetric (x ∷ xs) h =
      elim (AnyPair-of-insert_by R symmetric x (sort_by xs) h) [
        | inl a ↦ inl (Any-of-sort_by (R x) xs a)
        | inr p ↦ inr (AnyPair-of-sort_by R symmetric xs p)
      ]
